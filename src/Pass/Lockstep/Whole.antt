-- ===== src/Pass/Lockstep/Whole.antt =====
-- Pass 2 of emp-ag2pc/backend/engine.h over a whole source at both parties.
use emp_ag2pc.Prelude.{
  ℕ, ◌+◌, ◌<◌, ◌≤◌, ◌≡◌, refl, sym, ap, subst, ◌∙◌, Bool, true, false, List, [], ◌∷◌, ◌++◌, concat,
  All, get_or, length, length-set, Option-cases, inl, inr, arith,
}
use mathlib.Core.List.{append_assoc}
use emp_ag2pc.Block.{BlockOps, Block, zero_block, lsb1}
use emp_ag2pc.Pass.Source.{
  Source, ret, public_bit, and_gate, xor_gate, not_gate, run_source, cached,
}
use emp_ag2pc.Pass.Garble
use emp_ag2pc.Pass.Garble.{Row, GarblePass}
use emp_ag2pc.Pass.Evaluate
use emp_ag2pc.Pass.Evaluate.{EvaluatePass, refill, row_at}
use emp_ag2pc.Pass.Numbering.{
  Counter, counting, next, next_const, next_const-cached, next_const-new, garble_count,
}
use emp_ag2pc.Pass.Reads.{Scoped, Covers, Alive, Pinned}
use emp_ag2pc.Pass.Slots.Step.{Own}
use emp_ag2pc.Pass.Slots.Run.{Separates}
use emp_ag2pc.Pass.Lockstep.Tables.{Layout, Ideal, masked, Follows}
use emp_ag2pc.Pass.Lockstep.State.{Exclusive, alive_before}
use emp_ag2pc.Pass.Lockstep.Rows.{
  emitted, garbled, and_row, and_base, emitted-and_gate, emits, keeps-public, awaited, Fed,
  refill-Takes, left_in,
}
use emp_ag2pc.Pass.Lockstep.Gate.{Core, Paired, Reads, Room, reads}
use emp_ag2pc.Pass.Lockstep.AndGate.{witness_of}
use emp_ag2pc.Pass.Lockstep.Steps.{
  garble_core, evaluate_core, evaluated, core-push_row, core-refill, xor_step, not_step,
  public_step, and_after, and_step, and_entries,
}
use emp_ag2pc.Pass.Lockstep.Kept.{
  later, stays, append_cancel, garble-cached, evaluate-cached, garble-new, evaluate-new,
  evaluate-keeps,
}

module _ ⦃B : BlockOps⦄ where
  module _ (I : Ideal) where
    -- What the evaluator recorded for each AND of the rest of a source: its masked value and the
    -- evaluator's witness.
    abbrev pub Witnessed : List Bool → List Block → ℕ → Counter → Source → Type 0
    Witnessed ls ms ai c (ret outs) = Unit
    Witnessed ls ms ai c (public_bit v k) =
        let (w, c') = next_const v c in Witnessed ls ms ai c' (k w)
    Witnessed ls ms ai c (and_gate a b k) =
        ((get_or ls ai false ≡ masked I c.wid)
          × (get_or ms ai zero_block ≡ witness_of I ai a b c.wid))
        × Witnessed ls ms (ai + 1) (record c { wid = c.wid + 1 }) (k c.wid)
    Witnessed ls ms ai c (xor_gate a b k) =
        Witnessed ls ms ai (record c { wid = c.wid + 1 }) (k c.wid)
    Witnessed ls ms ai c (not_gate a k) =
        Witnessed ls ms ai (record c { wid = c.wid + 1 }) (k c.wid)

  module _ (I : Ideal) (L : Layout) (total : ℕ) (odd : lsb1 I.delta_g ≡ true)
      (ex : Exclusive L total) where
    -- Both passes at their ends.
    pub record Locked (ai : ℕ) (c : Counter) (src : Source) (p : GarblePass) (q : EvaluatePass)
        : Type 0 where
      pub gate : ℕ
      pub paired : Paired I L total gate (garble_core p) (evaluate_core q)
      pub witnessed : Witnessed I q.s.lambda_and q.s.m1_t ai c src
      pub outs : All (Reads I L total p.s q.s) (run_source counting src c).0

    -- What the rest of a source needs of the run that it is part of.
    pub record Served (src : Source) (g : ℕ) (p : GarblePass) (q : EvaluatePass) : Type 0 where
      pub follows : Follows I p.ai (garble_count p) src
      pub separated : Separates L.persist L.last_use L.phys L.slots g (garble_count p) src
      pub covered : Covers L.persist L.last_use g (garble_count p) src
      pub scoped : Scoped (garble_count p) src
      pub wires : (garbled src p).wid ≤ total
      pub lambdas : (garbled src p).ai ≤ length q.s.lambda_and
      pub witnesses : (garbled src p).ai ≤ length q.s.m1_t
      pub fed : Fed q
      pub stream : emitted (garbled src p) ≡ emitted p ++ awaited q

    next-Room :
        {g : ℕ} {p q : Core} (h : Paired I L total g p q)
        → p.wid < total
        → Own L.persist L.last_use L.phys L.slots g p.wid
        → Room I L total h (g + 1)
    next-Room {g} h below own = record {
      exclusive = ex;
      below = below;
      own = own;
      back = alive_before L.persist L.last_use g;
    }

    same-Room :
        {g : ℕ} {p q : Core} (h : Paired I L total g p q)
        → p.wid < total
        → Own L.persist L.last_use L.phys L.slots g p.wid
        → Room I L total h g
    same-Room h below own = record {
      exclusive = ex;
      below = below;
      own = own;
      back = λ w live. live;
    }

    -- A public wire: what holds behind it holds from it on.
    public_back :
        (b : Bool) (k : ℕ → Source) {w : ℕ} (p p' : GarblePass) (q q' : EvaluatePass)
        → Garble.public_bit b p ≡ (w, p')
        → Evaluate.public_bit b q ≡ (w, q')
        → next_const b (garble_count p) ≡ (w, garble_count p')
        → p'.ai ≡ p.ai
        → Locked p'.ai (garble_count p') (k w) (garbled (k w) p') (evaluated (k w) q')
        → Locked p.ai
            (garble_count p)
            (public_bit b k)
            (garbled (public_bit b k) p)
            (evaluated (public_bit b k) q)
    unfolding run_source
    public_back b k {w} p p' q q' ep eq n ea r =
        subst
          (λ (z : (ℕ × GarblePass) × (ℕ × EvaluatePass)).
            Locked p.ai (garble_count p) (public_bit b k) (garbled (k z.0.0) z.0.1)
              (evaluated (k z.1.0) z.1.1))
          (λ i. (sym ep i, sym eq i))
          (record {
            gate = r.gate;
            paired = r.paired;
            witnessed =
                subst (λ c. Witnessed I ls ms p.ai c.1 (k c.0)) (sym n)
                  (subst (λ a. Witnessed I ls ms a (garble_count p') (k w)) ea r.witnessed);
            outs =
                subst
                  (λ c.
                    All (Reads I L total (garbled (k w) p').s (evaluated (k w) q').s)
                      (run_source counting (k c.0) c.1).0)
                  (sym n) r.outs;
          })
      where
        ls : List Bool
        ls = (evaluated (k w) q').s.lambda_and

        ms : List Block
        ms = (evaluated (k w) q').s.m1_t

    pinned_alive : (g w : ℕ) → Pinned L.persist w → Alive L.persist L.last_use w g
    pinned_alive g w pin = rw pin refl

    All-both :
        {R : ℕ → Type 0} {n : ℕ} (ws : List ℕ)
        → All (Pinned L.persist) ws
        → All (λ w. w < n) ws
        → ((w : ℕ) → Pinned L.persist w → w < n → R w)
        → All R ws
    All-both [] a b f = tt
    All-both (w ∷ ws) (p, a) (l, b) f = (f w p l, All-both ws a b f)

    pub locked :
        (src : Source) (g : ℕ) (p : GarblePass) (q : EvaluatePass)
        → Paired I L total g (garble_core p) (evaluate_core q)
        → Served src g p q
        → Locked p.ai (garble_count p) src (garbled src p) (evaluated src q)
    unfolding run_source Garble.xor_gate Garble.not_gate Garble.and_gate Evaluate.xor_gate
        Evaluate.not_gate Evaluate.and_gate next
    locked (ret outs) g p q h v = record {
      gate = g;
      paired = h;
      witnessed = tt;
      outs =
          All-both outs v.covered v.scoped
            (λ w pin l. reads I L total h w l (pinned_alive g w pin));
    }
    locked (public_bit b k) g p q h v = elim (Option-cases (cached b p.consts)) [
      | inr (w, e) ↦
          let ep = garble-cached b p e in
          let eq = evaluate-cached b q (ap (cached b) h.same_consts ∙ e) in
          let n = next_const-cached b (garble_count p) e in
          let rest = locked (k w) g p q h (record {
            follows = rw (e, Follows) at v.follows;
            separated = rw (e, Separates) at v.separated;
            covered = subst (λ r. Covers L.persist L.last_use g r.1 (k r.0)) n v.covered;
            scoped = subst (λ r. Scoped r.1 (k r.0)) n v.scoped;
            wires = subst (λ r. (garbled (k r.0) r.1).wid ≤ total) ep v.wires;
            lambdas = subst (λ r. (garbled (k r.0) r.1).ai ≤ length q.s.lambda_and) ep v.lambdas;
            witnesses = subst (λ r. (garbled (k r.0) r.1).ai ≤ length q.s.m1_t) ep v.witnesses;
            fed = v.fed;
            stream =
                subst (λ r. emitted (garbled (k r.0) r.1) ≡ emitted p ++ awaited q) ep v.stream;
          }) in
          public_back b k p p q q ep eq n refl rest
      | inl e ↦
          let p' = (Garble.public_bit b p).1 in
          let q' = (Evaluate.public_bit b q).1 in
          let (ep, cp) = garble-new b p e in
          let n : next_const b (garble_count p) ≡ (p.wid, garble_count p') =
            next_const-new b (garble_count p) e ∙ (λ i. (p.wid, sym cp i)) in
          let eq : Evaluate.public_bit b q ≡ (p.wid, q') =
            evaluate-new b q (ap (cached b) h.same_consts ∙ e) ∙ (λ i. (h.same_wid i, q')) in
          let (gate, f) = rw (e, Follows) at v.follows in
          let (own, s) = rw (e, Separates) at v.separated in
          let (pub_p, cur_p, ai_p) = keeps-public b p in
          let t = evaluate-keeps b q in
          let below : p.wid < total =
            (let grows = (later (k p.wid) p').wids in
              let t = subst (λ r. (garbled (k r.0) r.1).wid ≤ total) ep v.wires in
              let w = ap (λ c. c.wid) cp in omega arith) in
          let room = same-Room h below own in
          let rest = locked (k p.wid) g p' q' (public_step I L total p q h b room gate e) (record {
            follows =
                subst (λ a. Follows I a (garble_count p') (k p.wid)) (sym ai_p)
                  (subst (λ c. Follows I p.ai c (k p.wid)) (sym cp) f);
            separated =
                subst (λ c. Separates L.persist L.last_use L.phys L.slots g c (k p.wid)) (sym cp) s;
            covered = subst (λ r. Covers L.persist L.last_use g r.1 (k r.0)) n v.covered;
            scoped = subst (λ r. Scoped r.1 (k r.0)) n v.scoped;
            wires = subst (λ r. (garbled (k r.0) r.1).wid ≤ total) ep v.wires;
            lambdas = omega (
              arith,
              subst (λ r. (garbled (k r.0) r.1).ai ≤ length q.s.lambda_and) ep v.lambdas,
              ap length t.lambdas,
            );
            witnesses = omega (
              arith,
              subst (λ r. (garbled (k r.0) r.1).ai ≤ length q.s.m1_t) ep v.witnesses,
              ap length t.witnesses,
            );
            fed = record {
              filled = rw t.same_incoming v.fed.filled;
              within = rw (t.same_cur, t.same_loc) v.fed.within;
            };
            stream =
                subst (λ r. emitted (garbled (k r.0) r.1) ≡ emitted p ++ awaited q) ep v.stream
                ∙ (λ i.
                    (concat (sym pub_p i) ++ sym cur_p i)
                    ++ (left_in (sym t.same_cur i) (sym t.same_loc i)
                        ++ concat (sym t.same_incoming i)));
          }) in
          public_back b k p p' q q' ep eq n ai_p rest
    ]
    locked (and_gate a b k) g p q h v =
        let p' = (Garble.and_gate a b p).1 in
        let t = refill q in
        let (gate, f) = v.follows in
        let (own, s) = v.separated in
        let (ca, cb, pin, c) = v.covered in
        let (la, lb, sc) = v.scoped in
        let (more, out) = emits (k p.wid) p' in
        let row = and_row a b p in
        let takes = refill-Takes q row more v.fed (
          append_cancel (emitted p) (awaited q) (row ∷ more) (
            sym v.stream
            ∙ out
            ∙ ap (λ l. l ++ more) (emitted-and_gate a b p)
            ∙ append_assoc (emitted p) (row ∷ []) more)) in
        let ct = core-refill q in
        let ht = subst (Paired I L total g (garble_core p)) (sym ct) h in
        let cp = sym (core-push_row row (and_base a b p)) in
        let below : p.wid < total =
          (let grows = (later (k p.wid) p').wids in
            let e = ap (λ z. z.wid) cp in let t = v.wires in omega arith) in
        let x = reads I L total ht a la ca in
        let y = reads I L total ht b lb cb in
        let u = and_after a b t row in
        let pair =
          subst (λ z. Paired I L total (g + 1) z (evaluate_core u)) cp
            (and_step I L total odd p t ht a b x y gate below pin (g + 1)
              (next-Room ht below own)) in
        let lens = ap (λ z. length z.s.lambda_and) ct in
        let lens' = ap (λ z. length z.s.m1_t) ct in
        let ais = (later (k p.wid) p').ais in
        let ea = ap (λ z. z.ai) cp in
        let rest = locked (k p.wid) (g + 1) p' u pair (record {
          follows =
              subst (λ z. Follows I z.ai (record { wid = z.wid; consts = z.consts }) (k p.wid)) cp
                f;
          separated =
              subst
                (λ z.
                  Separates L.persist L.last_use L.phys L.slots (g + 1)
                    (record { wid = z.wid; consts = z.consts }) (k p.wid))
                cp s;
          covered =
              subst
                (λ z.
                  Covers L.persist L.last_use (g + 1) (record { wid = z.wid; consts = z.consts })
                    (k p.wid))
                cp c;
          scoped = subst (λ z. Scoped (record { wid = z.wid; consts = z.consts }) (k p.wid)) cp sc;
          wires = v.wires;
          lambdas = omega (arith, v.lambdas, length-set t.s.lambda_and t.ai _);
          witnesses = omega (arith, v.witnesses, length-set t.s.m1_t t.ai _);
          fed = record { filled = takes.fed.filled; within = takes.fed.within };
          stream = out ∙ ap (λ l. emitted p' ++ l) (sym takes.left);
        }) in
        let (l1, w1) =
          and_entries I L total odd p t ht a b x y gate below pin (omega (arith, v.lambdas, lens))
            (omega (arith, v.witnesses, lens')) in
        let kept = stays (k p.wid) u p.ai (omega (arith, ht.same_ai)) in
        subst
          (λ (z : ℕ × Row).
            Locked p.ai (garble_count p) (and_gate a b k) (garbled (k p.wid) p')
              (evaluated (k z.0) (and_after a b t z.1)))
          (λ i. (sym ht.same_wid i, sym takes.taken i))
          (record {
            gate = rest.gate;
            paired = rest.paired;
            witnessed = (
              (kept.lambda ∙ l1, kept.witness ∙ w1),
              subst
                  (λ z.
                    Witnessed I (evaluated (k p.wid) u).s.lambda_and (evaluated (k p.wid) u).s.m1_t
                      z.ai (record { wid = z.wid; consts = z.consts }) (k p.wid))
                  (sym cp) rest.witnessed,
            );
            outs =
                subst
                  (λ z.
                    All (Reads I L total (garbled (k p.wid) p').s (evaluated (k p.wid) u).s)
                      (run_source counting (k p.wid) (record { wid = z.wid; consts = z.consts })).0)
                  (sym cp) rest.outs;
          })
    locked (xor_gate a b k) g p q h v =
        let p' = (Garble.xor_gate a b p).1 in
        let q' = (Evaluate.xor_gate a b q).1 in
        let (gate, f) = v.follows in
        let (own, s) = v.separated in
        let (ca, cb, c) = v.covered in
        let (la, lb, sc) = v.scoped in
        let below : p.wid < total =
          (let grows = (later (k p.wid) p').wids in let t = v.wires in omega arith) in
        let room = next-Room h below own in
        let rest =
          locked (k p.wid) (g + 1) p' q'
            (xor_step I L total p q h (g + 1) a b room gate (reads I L total h a la ca)
              (reads I L total h b lb cb))
            (record {
              follows = f;
              separated = s;
              covered = c;
              scoped = sc;
              wires = v.wires;
              lambdas = v.lambdas;
              witnesses = v.witnesses;
              fed = record { filled = v.fed.filled; within = v.fed.within };
              stream = v.stream;
            }) in
        subst
          (λ w.
            Locked p.ai (garble_count p) (xor_gate a b k) (garbled (k p.wid) p')
              (evaluated (k w) q'))
          (sym h.same_wid)
          (record {
            gate = rest.gate;
            paired = rest.paired;
            witnessed = rest.witnessed;
            outs = rest.outs;
          })
    locked (not_gate a k) g p q h v =
        let p' = (Garble.not_gate a p).1 in
        let q' = (Evaluate.not_gate a q).1 in
        let (gate, f) = v.follows in
        let (own, s) = v.separated in
        let (ca, c) = v.covered in
        let (la, sc) = v.scoped in
        let below : p.wid < total =
          (let grows = (later (k p.wid) p').wids in let t = v.wires in omega arith) in
        let rest =
          locked (k p.wid) (g + 1) p' q'
            (not_step I L total p q h (g + 1) a (next-Room h below own) gate
              (reads I L total h a la ca))
            (record {
              follows = f;
              separated = s;
              covered = c;
              scoped = sc;
              wires = v.wires;
              lambdas = v.lambdas;
              witnesses = v.witnesses;
              fed = record { filled = v.fed.filled; within = v.fed.within };
              stream = v.stream;
            }) in
        subst
          (λ w.
            Locked p.ai (garble_count p) (not_gate a k) (garbled (k p.wid) p') (evaluated (k w) q'))
          (sym h.same_wid)
          (record {
            gate = rest.gate;
            paired = rest.paired;
            witnessed = rest.witnessed;
            outs = rest.outs;
          })
