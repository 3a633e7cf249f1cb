-- ===== src/Engine/Exchange.antt =====
-- When the c_gamma exchange of emp-ag2pc/backend/engine.h returns.
use emp_ag2pc.Prelude.{
  ℕ, ◌<◌, ◌≤◌, ◌≡◌, ◌↔◌, sym, ap, ◌∙◌, false, List, Option, none, some, length, get_or, take,
  take_eq, get_or-take, ◌==◌, Bool-cases, inl, inr, arith,
}
use emp_ag2pc.Block.{BlockOps, Block, zero_block}
use emp_ag2pc.RunState.{RunState}
use emp_ag2pc.Protocol.Defs.{Hashing}
use emp_ag2pc.Pass.Source.{Source}
use emp_ag2pc.Engine.Paths.{
  garble, recheck, evaluate, witnesses, garbler_path, evaluator_path, exchange,
}
use emp_ag2pc.Engine.Sizes.{garble-SameSize, evaluate-SameSize, recheck-SameSize}

module _ ⦃B : BlockOps⦄ where
  -- The same witness of each AND that the run has.
  abbrev pub SameWitnesses : ℕ → RunState → RunState → Type 0
  SameWitnesses n t e = (i : ℕ) → i < n → get_or t.m1_t i zero_block ≡ get_or e.m1_t i zero_block

  witnesses_iff :
      (n : ℕ) (t e : RunState)
      → t.num_ands ≡ n
      → e.num_ands ≡ n
      → n ≤ length t.m1_t
      → n ≤ length e.m1_t
      → (witnesses t ≡ witnesses e) ↔ SameWitnesses n t e
  witnesses_iff n t e p q l m = (
    λ w i k.
        sym (get_or-take n t.m1_t i zero_block k)
        ∙ ap (λ x. get_or x i zero_block)
            (ap (λ z. take z t.m1_t) (sym p) ∙ w ∙ ap (λ z. take z e.m1_t) q)
        ∙ get_or-take n e.m1_t i zero_block k,
    λ h.
        ap (λ z. take z t.m1_t) p
        ∙ take_eq n t.m1_t e.m1_t zero_block l m h
        ∙ ap (λ z. take z e.m1_t) (sym q),
  )

  module _ (H : Hashing Block) where
    -- The exchange returns exactly when the two digests are of the same witnesses.
    exchange-witnesses :
        (src : Source) (st_g st_e : RunState)
        → ((xs ys : List Block) → H.hash_once xs ≡ H.hash_once ys → xs ≡ ys)
        → st_g.num_ands ≡ st_e.num_ands
        → (st_e.num_ands == 0) ≡ false
        → let g = garble src st_g in
          let e = evaluate src g.0 st_e in
          let t = recheck src (take st_e.num_ands e.lambda_and) g.1 in
          (exchange H src st_g st_e ≡ some (t, e)) ↔ (witnesses t ≡ witnesses e)
    unfolding exchange garbler_path evaluator_path
    exchange-witnesses src st_g st_e injective same some_ands =
        let at_g : (st_g.num_ands == 0) ≡ false = ap (λ n. n == 0) same ∙ some_ands in
        (passed at_g, λ w. rw (at_g, some_ands, (H.same_iff _ _).1 (ap H.hash_once (sym w))))
      where
        e : RunState
        e = evaluate src (garble src st_g).0 st_e

        t : RunState
        t = recheck src (take st_e.num_ands e.lambda_and) (garble src st_g).1

        passed :
            (st_g.num_ands == 0) ≡ false
            → exchange H src st_g st_e ≡ some (t, e)
            → witnesses t ≡ witnesses e
        passed at_g p =
            elim (Bool-cases (H.same (H.hash_once (witnesses e)) (H.hash_once (witnesses t)))) [
              | inl s ↦ sym (injective _ _ ((H.same_iff _ _).0 s))
              | inr s ↦ absurd (refused s)
            ]
          where
            refused : H.same (H.hash_once (witnesses e)) (H.hash_once (witnesses t)) ≡ false → ⊥
            refused s =
                let q : ◌≡◌ {A = Option (RunState × RunState)} none (some (t, e)) =
                  sym (rw (at_g, some_ands, s)) ∙ p in
                cc

    -- For every source and states of two parties that counted as many ANDs, at least one, and have
    -- room for a witness of each, where distinct lists of witnesses have distinct digests: pass 2 and
    -- the c_gamma exchange return, with the states of both passes, exactly when for every AND the
    -- garbler's witness, recomputed from the masks that the evaluator sent, is the evaluator's.
    pub exchange_iff :
        (src : Source) (st_g st_e : RunState)
        → ((xs ys : List Block) → H.hash_once xs ≡ H.hash_once ys → xs ≡ ys)
        → st_g.num_ands ≡ st_e.num_ands
        → 0 < st_e.num_ands
        → st_e.num_ands ≤ length st_g.m1_t
        → st_e.num_ands ≤ length st_e.m1_t
        → let g = garble src st_g in
          let e = evaluate src g.0 st_e in
          let t = recheck src (take st_e.num_ands e.lambda_and) g.1 in
          (exchange H src st_g st_e ≡ some (t, e)) ↔ SameWitnesses st_e.num_ands t e
    exchange_iff src st_g st_e injective same some_ands l m =
        let g = garble src st_g in
        let e = evaluate src g.0 st_e in
        let t = recheck src (take st_e.num_ands e.lambda_and) g.1 in
        let (a, b) = garble-SameSize src st_g in
        let (c, d) = recheck-SameSize src (take st_e.num_ands e.lambda_and) g.1 in
        let (p, q) = evaluate-SameSize src g.0 st_e in
        let (to, back) =
          exchange-witnesses src st_g st_e injective same
            (let z : (st_e.num_ands == 0) ≡ false = ground arith in z) in
        let (u, v) = witnesses_iff st_e.num_ands t e (c ∙ a ∙ same) p (omega arith) (omega arith) in
        (λ x. u (to x), λ x. back (v x))
