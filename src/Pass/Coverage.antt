-- ===== src/Pass/Coverage.antt =====
-- AG2PCLivenessPass of emp-ag2pc/backend/pass_ctx.h computes liveness data that cover its source.
mod Arrays
use Arrays.{
  Bounded, Later, More, marked, More-snoc, get_or-snoc, get_or-snoc_end, Bounded-snoc, Bounded-once,
  Bounded-marked, Later-once, Later-marked, length-marked, reads_first, reads_second,
  reaches-set_self, reaches-le, More-pin, pin-outs,
}
use emp_ag2pc.Prelude.{
  All, get_or-replicate, get_or-replicate_lt, ℕ, zero, suc, ◌+◌, ◌<◌, ◌≤◌, ◌≡◌, ◌⊎◌, inl, inr, refl,
  sym, ap, subst, ◌∙◌, Bool, true, false, ◌||◌, List, [], ◌∷◌, ◌++◌, Option, none, some, get_or,
  set, replicate, length, length-set, length-append, length-replicate, leb, ltb, arith,
  Option-cases, Bool-cases,
}
use emp_ag2pc.Block.{BlockOps}
use emp_ag2pc.RunState.{RunState}
use emp_ag2pc.Pass.Source.{
  Source, ret, public_bit, and_gate, xor_gate, not_gate, run_source, no_consts, cached,
}
use emp_ag2pc.Pass.Numbering.{Counter, next, next_const, liveness_count, Liveness-Numbers}
use emp_ag2pc.Pass.Reads.{Scoped, reaches, alive, Pinned, Alive, Covers}
use emp_ag2pc.Pass.Liveness
use emp_ag2pc.Pass.Liveness.{LivenessPass, pin}

-- The state of the pass between two gates.
record Steady ⦃B : BlockOps⦄ (p : LivenessPass) : Type 0 where
  uses : length p.last_use ≡ p.wid
  pins : length p.persist ≡ p.wid
  past : Bounded p.last_use p.gi

record Grows ⦃B : BlockOps⦄ (p q : LivenessPass) : Type 0 where
  later : Later p.last_use q.last_use
  more : More p.persist q.persist

record Steps ⦃B : BlockOps⦄ (p q : LivenessPass) : Type 0 where
  steady : Steady q
  grows : Grows p q

module _ ⦃B : BlockOps⦄ {p : LivenessPass} (st : Steady p) where
  Steps-and : (a b : ℕ) → Steps p (Liveness.and_gate a b p).1
  unfolding Liveness.and_gate
  Steps-and a b = record {
    steady = record {
      uses = omega (arith, length-marked a b p.last_use p.gi st.past, st.uses);
      pins = omega (arith, length-append p.persist (true ∷ []), st.pins);
      past = λ w u h. omega (arith, Bounded-marked a b p.last_use p.gi st.past w u h);
    };
    grows = record {
      later = Later-marked a b p.last_use p.gi st.past;
      more = More-snoc p.persist true;
    };
  }

  Steps-xor : (a b : ℕ) → Steps p (Liveness.xor_gate a b p).1
  unfolding Liveness.xor_gate
  Steps-xor a b = record {
    steady = record {
      uses = omega (arith, length-marked a b p.last_use p.gi st.past, st.uses);
      pins = omega (arith, length-append p.persist (false ∷ []), st.pins);
      past = λ w u h. omega (arith, Bounded-marked a b p.last_use p.gi st.past w u h);
    };
    grows = record {
      later = Later-marked a b p.last_use p.gi st.past;
      more = More-snoc p.persist false;
    };
  }

  Steps-not : (a : ℕ) → Steps p (Liveness.not_gate a p).1
  unfolding Liveness.not_gate
  Steps-not a = record {
    steady = record {
      uses = omega (
        arith,
        length-set (p.last_use ++ none ∷ []) a (some p.gi),
        length-append p.last_use (none ∷ []),
        st.uses,
      );
      pins = omega (arith, length-append p.persist (false ∷ []), st.pins);
      past = λ w u h. omega (arith, Bounded-once a 0 p.last_use p.gi st.past w u h);
    };
    grows = record {
      later = Later-once a 0 p.last_use p.gi st.past;
      more = More-snoc p.persist false;
    };
  }

  Steps-public : (v : Bool) → Steps p (Liveness.public_bit v p).1
  unfolding Liveness.public_bit
  Steps-public v = elim (Option-cases (cached v p.consts)) [
    | inr (c, e) ↦
        rw (e, Liveness.public_bit)
          (record { steady = st; grows = record { later = λ w g h. h; more = λ w h. h } })
    | inl e ↦
        rw (e, Liveness.public_bit)
          (record {
            steady = record {
              uses = omega (arith, length-append p.last_use (none ∷ []), st.uses);
              pins = omega (arith, length-append p.persist (false ∷ []), st.pins);
              past = λ w u h. st.past w u (rw get_or-snoc at h);
            };
            grows = record { later = λ w g h. rw get_or-snoc h; more = More-snoc p.persist false };
          })
  ]

  and_reads :
      (a b : ℕ)
      → a < p.wid
      → b < p.wid
      → let l = (Liveness.and_gate a b p).1.last_use in
        (reaches (get_or l a none) p.gi ≡ true) × (reaches (get_or l b none) p.gi ≡ true)
  unfolding Liveness.and_gate
  and_reads a b ha hb = (
    reads_first a b p.last_use p.gi st.past (omega (arith, st.uses)),
    reads_second a b p.last_use p.gi st.past (omega (arith, st.uses)),
  )

  xor_reads :
      (a b : ℕ)
      → a < p.wid
      → b < p.wid
      → let l = (Liveness.xor_gate a b p).1.last_use in
        (reaches (get_or l a none) p.gi ≡ true) × (reaches (get_or l b none) p.gi ≡ true)
  unfolding Liveness.xor_gate
  xor_reads a b ha hb = (
    reads_first a b p.last_use p.gi st.past (omega (arith, st.uses)),
    reads_second a b p.last_use p.gi st.past (omega (arith, st.uses)),
  )

  not_reads :
      (a : ℕ) → a < p.wid → reaches (get_or (Liveness.not_gate a p).1.last_use a none) p.gi ≡ true
  unfolding Liveness.not_gate
  not_reads a ha =
      reaches-set_self (p.last_use ++ none ∷ []) a p.gi
        (omega (arith, length-append p.last_use (none ∷ []), st.uses))

  and_pins : (a b : ℕ) → Pinned (Liveness.and_gate a b p).1.persist p.wid
  unfolding Liveness.and_gate
  and_pins a b = rw (← st.pins) (get_or-snoc_end p.persist true false)

Grows-trans : ⦃B : BlockOps⦄ → {p q r : LivenessPass} → Grows p q → Grows q r → Grows p r
Grows-trans g h = record {
  later = λ w k e. h.later w k (g.later w k e);
  more = λ w e. h.more w (g.more w e);
}

gi-public : ⦃B : BlockOps⦄ → (v : Bool) (p : LivenessPass) → (Liveness.public_bit v p).1.gi ≡ p.gi
unfolding Liveness.public_bit
gi-public v p = ground arith

gi-and : ⦃B : BlockOps⦄ → (a b : ℕ) (p : LivenessPass) → (Liveness.and_gate a b p).1.gi ≡ p.gi + 1
unfolding Liveness.and_gate
gi-and a b p = refl

gi-xor : ⦃B : BlockOps⦄ → (a b : ℕ) (p : LivenessPass) → (Liveness.xor_gate a b p).1.gi ≡ p.gi + 1
unfolding Liveness.xor_gate
gi-xor a b p = refl

gi-not : ⦃B : BlockOps⦄ → (a : ℕ) (p : LivenessPass) → (Liveness.not_gate a p).1.gi ≡ p.gi + 1
unfolding Liveness.not_gate
gi-not a p = refl

module _ ⦃B : BlockOps⦄ where
  abbrev final : Source → LivenessPass → LivenessPass
  final src p = (run_source Liveness.ops src p).1

  final-Steady : (src : Source) {p : LivenessPass} → Steady p → Steady (final src p)
  unfolding run_source
  final-Steady (ret outs) st = st
  final-Steady (public_bit v k) st = final-Steady (k _) (Steps-public st v).steady
  final-Steady (and_gate a b k) st = final-Steady (k _) (Steps-and st a b).steady
  final-Steady (xor_gate a b k) st = final-Steady (k _) (Steps-xor st a b).steady
  final-Steady (not_gate a k) st = final-Steady (k _) (Steps-not st a).steady

  outs_numbered :
      (src : Source) (p : LivenessPass)
      → Scoped (liveness_count p) src
      → All (λ w. w < (final src p).wid) (run_source Liveness.ops src p).0
  unfolding run_source
  outs_numbered (ret outs) p sc = sc
  outs_numbered (public_bit v k) p sc =
      outs_numbered (k _) (Liveness.public_bit v p).1 (rw (Liveness-Numbers.of_public v p) at sc)
  outs_numbered (and_gate a b k) p sc =
      outs_numbered (k _) (Liveness.and_gate a b p).1 (rw (Liveness-Numbers.of_and a b p) at sc.2)
  outs_numbered (xor_gate a b k) p sc =
      outs_numbered (k _) (Liveness.xor_gate a b p).1 (rw (Liveness-Numbers.of_xor a b p) at sc.2)
  outs_numbered (not_gate a k) p sc =
      outs_numbered (k _) (Liveness.not_gate a p).1 (rw (Liveness-Numbers.of_not a p) at sc.1)

  final-Grows : (src : Source) {p : LivenessPass} → Steady p → Grows p (final src p)
  unfolding run_source
  final-Grows (ret outs) st = record { later = λ w g h. h; more = λ w h. h }
  final-Grows (public_bit v k) st =
      let t = Steps-public st v in Grows-trans t.grows (final-Grows (k _) t.steady)
  final-Grows (and_gate a b k) st =
      let t = Steps-and st a b in Grows-trans t.grows (final-Grows (k _) t.steady)
  final-Grows (xor_gate a b k) st =
      let t = Steps-xor st a b in Grows-trans t.grows (final-Grows (k _) t.steady)
  final-Grows (not_gate a k) st =
      let t = Steps-not st a in Grows-trans t.grows (final-Grows (k _) t.steady)

  -- Final data that keep what the pass has found.
  module _ (persist : List Bool) (last_use : List (Option ℕ)) where
    record Keeps (q : LivenessPass) : Type 0 where
      uses : Later q.last_use last_use
      pins : More q.persist persist

    Keeps-Alive :
        {p q : LivenessPass} (w g : ℕ)
        → Grows p q
        → Keeps q
        → reaches (get_or p.last_use w none) g ≡ true
        → Alive persist last_use w g
    Keeps-Alive w g gr k h = or_right _ (k.uses w g (gr.later w g h))
      where
        or_right : (x : Bool) {y : Bool} → y ≡ true → x || y ≡ true
        or_right x e = ground arith

    covers :
        (src : Source) {p : LivenessPass}
        → Steady p
        → Scoped (liveness_count p) src
        → Keeps (final src p)
        → All (Pinned persist) (run_source Liveness.ops src p).0
        → Covers persist last_use p.gi (liveness_count p) src
    unfolding run_source
    covers (ret outs) st sc keeps outs_pinned = outs_pinned
    covers (public_bit v k) {p} st sc keeps outs_pinned = rw (Liveness-Numbers.of_public v p) (
        subst
          (λ g.
            Covers persist last_use g (liveness_count (Liveness.public_bit v p).1)
              (k (Liveness.public_bit v p).0))
          (gi-public v p)
          (covers (k _) (Steps-public st v).steady (rw (Liveness-Numbers.of_public v p) at sc) keeps
            outs_pinned))
    covers (and_gate a b k) {p} st (ha, hb, sc) keeps outs_pinned =
        let t = Steps-and st a b in
        let g = final-Grows (k _) t.steady in
        (
          Keeps-Alive a p.gi g keeps (and_reads st a b ha hb).0,
          Keeps-Alive b p.gi g keeps (and_reads st a b ha hb).1,
          keeps.pins p.wid (g.more p.wid (and_pins st a b)),
          rw (Liveness-Numbers.of_and a b p, ← gi-and a b p)
              (covers (k _) t.steady (rw (Liveness-Numbers.of_and a b p) at sc) keeps outs_pinned),
        )
    covers (xor_gate a b k) {p} st (ha, hb, sc) keeps outs_pinned =
        let t = Steps-xor st a b in
        let g = final-Grows (k _) t.steady in
        (
          Keeps-Alive a p.gi g keeps (xor_reads st a b ha hb).0,
          Keeps-Alive b p.gi g keeps (xor_reads st a b ha hb).1,
          rw (Liveness-Numbers.of_xor a b p, ← gi-xor a b p)
              (covers (k _) t.steady (rw (Liveness-Numbers.of_xor a b p) at sc) keeps outs_pinned),
        )
    covers (not_gate a k) {p} st (ha, sc) keeps outs_pinned =
        let t = Steps-not st a in
        let g = final-Grows (k _) t.steady in
        (
          Keeps-Alive a p.gi g keeps (not_reads st a ha),
          rw (Liveness-Numbers.of_not a p, ← gi-not a p)
              (covers (k _) t.steady (rw (Liveness-Numbers.of_not a p) at sc) keeps outs_pinned),
        )

  init-Steady : (st : RunState) → Steady (Liveness.init st)
  unfolding Liveness.init
  init-Steady st = record {
    uses = length-replicate st.num_inputs none;
    pins = length-replicate st.num_inputs true;
    past = λ w u h. absurd (never (get_or-replicate st.num_inputs w none) h);
  }
    where
      never : {o : Option ℕ} {u : ℕ} → o ≡ none → o ≡ some u → ⊥
      never e f = cc

  -- What the pass commits: the inputs and the outputs are pinned, and the data cover the source.
  pub record Committed (n : ℕ) (st : RunState) (src : Source) : Type 0 where
    pub inputs_pinned : (w : ℕ) → w < n → Pinned st.persist w
    pub covered : Covers st.persist st.last_use 0 (record { wid = n; consts = no_consts }) src

  -- For every source that names only wires it was given, the liveness pass commits data in which
  -- every operand is alive at the gate that reads it, and the inputs, the outputs of the ANDs and
  -- the outputs of the source are pinned.
  pub liveness_covers :
      (st : RunState) (src : Source)
      → Scoped (record { wid = st.num_inputs; consts = no_consts }) src
      → let (outs, p) = run_source Liveness.ops src (Liveness.init st) in
        Committed st.num_inputs (Liveness.commit outs p) src
  unfolding Liveness.init Liveness.commit
  liveness_covers st src sc = record {
    inputs_pinned = λ w h. More-pin q.wid outs q.persist w (grown.more w (start_pinned w h));
    covered =
        covers (pin q.wid outs q.persist) q.last_use src (init-Steady st) sc
          (record { uses = λ w g h. h; pins = More-pin q.wid outs q.persist })
          (pin-outs q.wid outs q.persist (omega (arith, (final-Steady src (init-Steady st)).pins))
            (outs_numbered src (Liveness.init st) sc));
  }
    where
      outs : List ℕ
      outs = (run_source Liveness.ops src (Liveness.init st)).0

      q : LivenessPass
      q = final src (Liveness.init st)

      grown : Grows (Liveness.init st) q
      grown = final-Grows src (init-Steady st)

      start_pinned : (w : ℕ) → w < st.num_inputs → Pinned (Liveness.init st).persist w
      start_pinned w h = get_or-replicate_lt st.num_inputs w true false h
