-- ===== src/Pass/Lockstep/Kept.antt =====
-- What the gates of pass 2 of emp-ag2pc/backend/pass_ctx.h leave in a pass.
use emp_ag2pc.Prelude.{
  ℕ, ◌+◌, ◌<◌, ◌≤◌, ◌≡◌, ◌≢◌, refl, sym, ap, ◌∙◌, Bool, false, List, [], ◌∷◌, ◌++◌, none, some,
  get_or, length, drop, get_or-set_ne, arith,
}
use emp_ag2pc.Block.{BlockOps, zero_block}
use emp_ag2pc.Pass.Source.{
  Source, ret, public_bit, and_gate, xor_gate, not_gate, run_source, cached, cache,
}
use emp_ag2pc.Pass.Garble
use emp_ag2pc.Pass.Garble.{Row, GarblePass}
use emp_ag2pc.Pass.Evaluate
use emp_ag2pc.Pass.Evaluate.{EvaluatePass, refill, row_at}
use emp_ag2pc.Pass.Numbering.{garble_count}
use emp_ag2pc.Pass.Lockstep.Rows.{garbled, and_row, and_base}
use emp_ag2pc.Pass.Lockstep.Steps.{evaluated, core-push_row, core-refill, and_after}

module _ ⦃B : BlockOps⦄ where
  -- A source only adds wires and ANDs.
  pub record Later (p q : GarblePass) : Type 0 where
    pub wids : p.wid ≤ q.wid
    pub ais : p.ai ≤ q.ai

  step-public : (v : Bool) (p : GarblePass) → Later p (Garble.public_bit v p).1
  unfolding Garble.public_bit
  step-public v p = record { wids = ground arith; ais = ground arith }

  pub step-and :
      (a b : ℕ) (p : GarblePass)
      → ((Garble.and_gate a b p).1.wid ≡ p.wid + 1) × ((Garble.and_gate a b p).1.ai ≡ p.ai + 1)
  unfolding Garble.and_gate
  step-and a b p = (
    ap (λ c. c.wid) (core-push_row (and_row a b p) (and_base a b p)),
    ap (λ c. c.ai) (core-push_row (and_row a b p) (and_base a b p)),
  )

  pub later : (src : Source) (p : GarblePass) → Later p (garbled src p)
  unfolding run_source Garble.xor_gate Garble.not_gate
  later (ret outs) p = record { wids = omega arith; ais = omega arith }
  later (public_bit v k) p =
      let a = step-public v p in
      let b = later (k (Garble.public_bit v p).0) (Garble.public_bit v p).1 in
      record { wids = omega (arith, a.wids, b.wids); ais = omega (arith, a.ais, b.ais) }
  later (and_gate a b k) p =
      let (e, f) = step-and a b p in
      let r = later (k (Garble.and_gate a b p).0) (Garble.and_gate a b p).1 in
      record { wids = omega (arith, e, r.wids); ais = omega (arith, f, r.ais) }
  later (xor_gate a b k) p =
      let r = later (k p.wid) (Garble.xor_gate a b p).1 in
      record { wids = omega (arith, r.wids); ais = r.ais }
  later (not_gate a k) p =
      let r = later (k p.wid) (Garble.not_gate a p).1 in
      record { wids = omega (arith, r.wids); ais = r.ais }

  -- The entries of earlier ANDs stay.
  pub record Stays (i : ℕ) (q r : EvaluatePass) : Type 0 where
    pub counted : i < r.ai
    pub lambda : get_or r.s.lambda_and i false ≡ get_or q.s.lambda_and i false
    pub witness : get_or r.s.m1_t i zero_block ≡ get_or q.s.m1_t i zero_block

  Stays-trans : {i : ℕ} {p q r : EvaluatePass} → Stays i p q → Stays i q r → Stays i p r
  Stays-trans a b = record {
    counted = b.counted;
    lambda = b.lambda ∙ a.lambda;
    witness = b.witness ∙ a.witness;
  }

  and_gate-after :
      (a b : ℕ) (q : EvaluatePass)
      → Evaluate.and_gate a b q
        ≡ ((refill q).wid, and_after a b (refill q) (row_at (refill q).cur (refill q).loc))
  unfolding Evaluate.and_gate
  and_gate-after a b q = refl

  Stays-public :
      (v : Bool) (q : EvaluatePass) (i : ℕ) → i < q.ai → Stays i q (Evaluate.public_bit v q).1
  unfolding Evaluate.public_bit
  Stays-public v q i l = record {
    counted = ground arith;
    lambda = ground arith;
    witness = ground arith;
  }

  Stays-and :
      (a b : ℕ) (q : EvaluatePass) (i : ℕ) → i < q.ai → Stays i q (Evaluate.and_gate a b q).1
  unfolding Evaluate.and_gate
  Stays-and a b q i l =
      let c = core-refill q in
      let e : (refill q).ai ≡ q.ai = ap (λ c. c.ai) c in
      record {
        counted = omega arith;
        lambda =
            get_or-set_ne (refill q).s.lambda_and (refill q).ai i _ false (differs (refill q).ai e)
            ∙ ap (λ c. get_or c.s.lambda_and i false) c;
        witness =
            get_or-set_ne (refill q).s.m1_t (refill q).ai i _ zero_block (differs (refill q).ai e)
            ∙ ap (λ c. get_or c.s.m1_t i zero_block) c;
      }
    where
      differs : (n : ℕ) → n ≡ q.ai → n ≢ i
      differs n e f = omega arith

  pub stays : (src : Source) (q : EvaluatePass) (i : ℕ) → i < q.ai → Stays i q (evaluated src q)
  unfolding run_source Evaluate.xor_gate Evaluate.not_gate
  stays (ret outs) q i l = record { counted = l; lambda = refl; witness = refl }
  stays (public_bit v k) q i l =
      let a = Stays-public v q i l in
      Stays-trans a (stays (k (Evaluate.public_bit v q).0) (Evaluate.public_bit v q).1 i a.counted)
  stays (and_gate a b k) q i l =
      let s = Stays-and a b q i l in
      Stays-trans s (stays (k (Evaluate.and_gate a b q).0) (Evaluate.and_gate a b q).1 i s.counted)
  stays (xor_gate a b k) q i l =
      let r = stays (k q.wid) (Evaluate.xor_gate a b q).1 i l in
      record { counted = r.counted; lambda = r.lambda; witness = r.witness }
  stays (not_gate a k) q i l =
      let r = stays (k q.wid) (Evaluate.not_gate a q).1 i l in
      record { counted = r.counted; lambda = r.lambda; witness = r.witness }

  pub append_cancel : {A : Type 0} (xs ys zs : List A) → xs ++ ys ≡ xs ++ zs → ys ≡ zs
  append_cancel xs ys zs e = sym (drop-append xs ys) ∙ ap (drop (length xs)) e ∙ drop-append xs zs
    where
      drop-append : {A : Type 0} (xs ys : List A) → drop (length xs) (xs ++ ys) ≡ ys
      drop-append [] ys = refl
      drop-append (x ∷ xs) ys = drop-append xs ys

  pub garble-cached :
      (v : Bool) (p : GarblePass) {w : ℕ}
      → cached v p.consts ≡ some w
      → Garble.public_bit v p ≡ (w, p)
  unfolding Garble.public_bit
  garble-cached v p e = rw (e, Garble.public_bit) refl

  pub evaluate-cached :
      (v : Bool) (q : EvaluatePass) {w : ℕ}
      → cached v q.consts ≡ some w
      → Evaluate.public_bit v q ≡ (w, q)
  unfolding Evaluate.public_bit
  evaluate-cached v q e = rw (e, Evaluate.public_bit) refl

  pub garble-new :
      (v : Bool) (p : GarblePass)
      → cached v p.consts ≡ none
      → (Garble.public_bit v p ≡ (p.wid, (Garble.public_bit v p).1))
        × (garble_count (Garble.public_bit v p).1
            ≡ record { wid = p.wid + 1; consts = cache v p.wid p.consts })
  unfolding Garble.public_bit
  garble-new v p e = (rw (e, Garble.public_bit) refl, rw (e, Garble.public_bit) refl)

  pub evaluate-new :
      (v : Bool) (q : EvaluatePass)
      → cached v q.consts ≡ none
      → Evaluate.public_bit v q ≡ (q.wid, (Evaluate.public_bit v q).1)
  unfolding Evaluate.public_bit
  evaluate-new v q e = rw (e, Evaluate.public_bit) refl

  -- What a public wire leaves of the evaluator's pass.
  pub record KeepsQueue (q r : EvaluatePass) : Type 0 where
    pub lambdas : r.s.lambda_and ≡ q.s.lambda_and
    pub witnesses : r.s.m1_t ≡ q.s.m1_t
    pub same_incoming : r.incoming ≡ q.incoming
    pub same_cur : r.cur ≡ q.cur
    pub same_loc : r.loc ≡ q.loc

  pub evaluate-keeps : (v : Bool) (q : EvaluatePass) → KeepsQueue q (Evaluate.public_bit v q).1
  unfolding Evaluate.public_bit
  evaluate-keeps v q = record {
    lambdas = ground arith;
    witnesses = ground arith;
    same_incoming = ground arith;
    same_cur = ground arith;
    same_loc = ground arith;
  }
