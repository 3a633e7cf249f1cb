-- ===== src/Pass/Lockstep/Steps.antt =====
-- The gates of pass 2 of emp-ag2pc/backend/engine.h at both parties, one by one.
use emp_ag2pc.Prelude.{
  ℕ, ◌+◌, ◌<◌, ◌≡◌, sym, ap, ap₂, ◌∙◌, Bool, true, false, not, ◌^^◌, List, none, get_or, set,
  length, get_or-set_self, if◌then◌else◌, arith,
}
use emp_ag2pc.Block.{
  BlockOps, Block, zero_block, ◌⊕◌, mask, mask-^^, xor_laws, lsb1, band-mask_true, band-mask_false,
}
use emp_ag2pc.Wires.{xor_bundle}
use emp_ag2pc.RunState.{slot_of, wslot, minp, lbl, evl, hash_cir}
use emp_ag2pc.HalfGate.Defs.{evaluate_and, evaluator_witness}
use emp_ag2pc.Pass.Source.{Source, run_source, cached, cache}
use emp_ag2pc.Pass.Garble
use emp_ag2pc.Pass.Garble.{Row, GarblePass, push_row, shares_at}
use emp_ag2pc.Pass.Evaluate
use emp_ag2pc.Pass.Evaluate.{EvaluatePass, refill, row_at}
use emp_ag2pc.Pass.Reads.{Pinned}
use emp_ag2pc.Pass.Lockstep.Tables.{
  Layout, Ideal, masked, IsPublic, IsXor, IsNot, IsAnd, IsPublic-Authentic, IsXor-Authentic,
  IsNot-Authentic, masked-public, masked-xor, masked-not,
}
use emp_ag2pc.Pass.Lockstep.Rows.{and_row, and_base}
use emp_ag2pc.Pass.Lockstep.Gate.{Core, Paired, Reads, Room, reads-Pinned, after_local, after_and}
use emp_ag2pc.Pass.Lockstep.AndGate.{and-lambda, and-label, and-witness, witness_of}

module _ ⦃B : BlockOps⦄ where
  abbrev pub garble_core : GarblePass → Core
  garble_core p = record { s = p.s; wid = p.wid; ai = p.ai; consts = p.consts }

  abbrev pub evaluate_core : EvaluatePass → Core
  evaluate_core q = record { s = q.s; wid = q.wid; ai = q.ai; consts = q.consts }

  abbrev pub evaluated : Source → EvaluatePass → EvaluatePass
  evaluated src q = (run_source Evaluate.ops src q).1

  xor_labels :
      (d x y : Block) (m n : Bool) → (x ⊕ mask m d) ⊕ (y ⊕ mask n d) ≡ (x ⊕ y) ⊕ mask (m ^^ n) d
  xor_labels d x y m n = rw (mask-^^ m n d) (simp xor_laws)

  not_label : (d x : Block) (m : Bool) → x ⊕ mask m d ≡ (x ⊕ d) ⊕ mask (not m) d
  not_label d x true = rw (band-mask_true, band-mask_false) (simp xor_laws)
  not_label d x false = rw (band-mask_true, band-mask_false) (simp xor_laws)

  written :
      {A : Type 0} (xs : List A) (i j : ℕ) (v w d : A)
      → i ≡ j
      → j < length xs
      → v ≡ w
      → get_or (set xs i v) j d ≡ w
  written xs i j v w d e l f = ap (λ k. get_or (set xs k v) j d) e ∙ get_or-set_self xs j v d l ∙ f

  pub core-push_row : (row : Row) (p : GarblePass) → garble_core (push_row row p) ≡ garble_core p
  unfolding push_row
  core-push_row row p = ground arith

  pub core-refill : (q : EvaluatePass) → evaluate_core (refill q) ≡ evaluate_core q
  unfolding refill
  core-refill q = ground arith

  -- What the evaluator makes of an AND whose row is `row`, once its chunk is there.
  abbrev pub and_after : ℕ → ℕ → EvaluatePass → Row → EvaluatePass
  and_after a b t row =
      let la = minp t.s a in
      let lb = minp t.s b in
      let sh = shares_at t.s a b t.wid t.ai in
      let e =
        evaluate_and (hash_cir t.s.mitc).0 row.g0 row.g1 row.b (evl t.s a) (evl t.s b) la lb sh in
      record t {
        wid = t.wid + 1;
        ai = t.ai + 1;
        loc = t.loc + 1;
        s = record t.s {
          eval_slot = set t.s.eval_slot (slot_of t.s.phys t.wid) e.label;
          mask_input = set t.s.mask_input (slot_of t.s.phys t.wid) e.lambda;
          lambda_and = set t.s.lambda_and t.ai e.lambda;
          m1_t = set t.s.m1_t t.ai (evaluator_witness t.s.delta la lb e.lambda sh);
          mitc = (hash_cir t.s.mitc).1;
        };
      }

  module _ (I : Ideal) (L : Layout) (total : ℕ) where
    module _ {g : ℕ} (p : GarblePass) (q : EvaluatePass)
        (h : Paired I L total g (garble_core p) (evaluate_core q)) where
      -- A gate keeps all but the arrays and the counters.
      pub xor_step :
          (g' a b : ℕ)
          → Room I L total h g'
          → IsXor I a b p.wid
          → Reads I L total p.s q.s a
          → Reads I L total p.s q.s b
          → Paired I L total g'
              (garble_core (Garble.xor_gate a b p).1)
              (evaluate_core (Evaluate.xor_gate a b q).1)
      unfolding Garble.xor_gate Evaluate.xor_gate
      xor_step g' a b room n x y = record {
        same_wid = ap (λ w. w + 1) h.same_wid;
        same_ai = h.same_ai;
        same_consts = h.same_consts;
        phys_g = h.phys_g;
        phys_e = h.phys_e;
        delta_g = h.delta_g;
        delta_e = h.delta_e;
        sigma_g = h.sigma_g;
        sigma_e = h.sigma_e;
        hashed = h.hashed;
        in_step =
            after_local I L total h room _ _ _ _ _
              (ap₂ xor_bundle x.share_g y.share_g ∙ sym n.xor_g)
              (ap₂ xor_bundle x.share_e y.share_e ∙ sym n.xor_e)
              (ap₂ ◌⊕◌ x.labelled y.labelled
                ∙ xor_labels I.delta_g _ _ (masked I a) (masked I b)
                ∙ ap (λ m. (lbl p.s a ⊕ lbl p.s b) ⊕ mask m I.delta_g) (sym (masked-xor I n)))
              (ap₂ ◌^^◌ x.opened y.opened ∙ sym (masked-xor I n))
              (IsXor-Authentic I n x.authentic y.authentic);
      }

      pub not_step :
          (g' a : ℕ)
          → Room I L total h g'
          → IsNot I a p.wid
          → Reads I L total p.s q.s a
          → Paired I L total g'
              (garble_core (Garble.not_gate a p).1)
              (evaluate_core (Evaluate.not_gate a q).1)
      unfolding Garble.not_gate Evaluate.not_gate
      not_step g' a room n x = record {
        same_wid = ap (λ w. w + 1) h.same_wid;
        same_ai = h.same_ai;
        same_consts = h.same_consts;
        phys_g = h.phys_g;
        phys_e = h.phys_e;
        delta_g = h.delta_g;
        delta_e = h.delta_e;
        sigma_g = h.sigma_g;
        sigma_e = h.sigma_e;
        hashed = h.hashed;
        in_step =
            after_local I L total h room _ _ _ _ _ (x.share_g ∙ sym n.same_g)
              (x.share_e ∙ sym n.same_e)
              (x.labelled
                ∙ not_label I.delta_g (lbl p.s a) (masked I a)
                ∙ ap₂ (λ d m. (lbl p.s a ⊕ d) ⊕ mask m I.delta_g) (sym h.delta_g)
                    (sym (masked-not I n)))
              (ap not x.opened ∙ sym (masked-not I n)) (IsNot-Authentic I n x.authentic);
      }

      pub public_step :
          (v : Bool)
          → Room I L total h g
          → IsPublic I v p.wid
          → cached v p.consts ≡ none
          → Paired I L total g
              (garble_core (Garble.public_bit v p).1)
              (evaluate_core (Evaluate.public_bit v q).1)
      unfolding Garble.public_bit Evaluate.public_bit
      public_step v room n e =
          let e' : cached v q.consts ≡ none = ap (cached v) h.same_consts ∙ e in
          rw (e, Garble.public_bit, e', Evaluate.public_bit)
            (record {
              same_wid = ap (λ w. w + 1) h.same_wid;
              same_ai = h.same_ai;
              same_consts = ap₂ (cache v) h.same_wid h.same_consts;
              phys_g = h.phys_g;
              phys_e = h.phys_e;
              delta_g = h.delta_g;
              delta_e = h.delta_e;
              sigma_g = h.sigma_g;
              sigma_e = h.sigma_e;
              hashed = h.hashed;
              in_step =
                  after_local I L total h room _ _ _ _ _ (sym n.zero_g) (sym n.zero_e)
                    (label v ∙ ap (λ m. zero_label v ⊕ mask m I.delta_g) (sym (masked-public I n)))
                    (sym (masked-public I n)) (IsPublic-Authentic I n);
            })
        where
          zero_label : Bool → Block
          zero_label v = if v then p.s.delta else zero_block

          label : (v : Bool) → zero_block ≡ zero_label v ⊕ mask v I.delta_g
          label true = rw (h.delta_g, band-mask_true) (simp xor_laws)
          label false = rw band-mask_false (simp xor_laws)

    module _ (odd : lsb1 I.delta_g ≡ true) {g : ℕ} (p : GarblePass) (t : EvaluatePass)
        (h : Paired I L total g (garble_core p) (evaluate_core t)) (a b : ℕ)
        (x : Reads I L total p.s t.s a) (y : Reads I L total p.s t.s b) (n : IsAnd I p.ai a b p.wid)
        (below : p.wid < total) (pin : Pinned L.persist p.wid) where
      stored : (wslot p.s p.wid ≡ I.share_g p.wid) × (wslot t.s p.wid ≡ I.share_e p.wid)
      stored = reads-Pinned I L total h p.wid below pin

      pub and_step :
          (g' : ℕ)
          → Room I L total h g'
          → Paired I L total g'
              (garble_core (and_base a b p))
              (evaluate_core (and_after a b t (and_row a b p)))
      and_step g' room = record {
        same_wid = ap (λ w. w + 1) h.same_wid;
        same_ai = ap (λ k. k + 1) h.same_ai;
        same_consts = h.same_consts;
        phys_g = h.phys_g;
        phys_e = h.phys_e;
        delta_g = h.delta_g;
        delta_e = h.delta_e;
        sigma_g = h.sigma_g;
        sigma_e = h.sigma_e;
        hashed = ap (λ m. (hash_cir m).1) h.hashed;
        in_step =
            after_and I L total h room _ _ _ pin (and-label I L total h a b x y n stored odd)
              (and-lambda I L total h a b x y n stored odd) n.auth;
      }

      -- The entries that it writes at the index of the AND.
      pub and_entries :
          p.ai < length t.s.lambda_and
          → p.ai < length t.s.m1_t
          → let u = and_after a b t (and_row a b p) in
            (get_or u.s.lambda_and p.ai false ≡ masked I p.wid)
            × (get_or u.s.m1_t p.ai zero_block ≡ witness_of I p.ai a b p.wid)
      and_entries l m = (
        written t.s.lambda_and t.ai p.ai _ _ false h.same_ai l
            (and-lambda I L total h a b x y n stored odd),
        written t.s.m1_t t.ai p.ai _ _ zero_block h.same_ai m
            (and-witness I L total h a b x y n stored odd),
      )
