-- ===== src/Engine/Sizes.antt =====
-- What pass 2 of emp-ag2pc/backend/engine.h does not change: the number of ANDs, and the length of the
-- array of witnesses.
use emp_ag2pc.Prelude.{ℕ, ◌≡◌, refl, ap, ◌∙◌, Bool, List, length, length-set, arith}
use emp_ag2pc.Block.{BlockOps}
use emp_ag2pc.RunState.{RunState}
use emp_ag2pc.Pass.Source.{Source, run_source}
use emp_ag2pc.Pass.Keeps.{run_source-keeps}
use emp_ag2pc.Pass.Garble
use emp_ag2pc.Pass.Garble.{GarblePass, Row, push_row}
use emp_ag2pc.Pass.Evaluate
use emp_ag2pc.Pass.Evaluate.{EvaluatePass}
use emp_ag2pc.Pass.GammaCheck
use emp_ag2pc.Pass.GammaCheck.{GammaCheckPass}
use emp_ag2pc.Engine.Paths.{garble, recheck, evaluate}

module _ ⦃B : BlockOps⦄ where
  -- As many ANDs, and room for as many witnesses.
  abbrev pub SameSize : RunState → RunState → Type 0
  SameSize s t = (t.num_ands ≡ s.num_ands) × (length t.m1_t ≡ length s.m1_t)

  garble_public-SameSize :
      (s : RunState) (v : Bool) (p : GarblePass)
      → SameSize s p.s
      → SameSize s (Garble.public_bit v p).1.s
  unfolding Garble.public_bit
  garble_public-SameSize s v p h = ground arith

  garble_and-SameSize :
      (s : RunState) (a b : ℕ) (p : GarblePass)
      → SameSize s p.s
      → SameSize s (Garble.and_gate a b p).1.s
  unfolding Garble.and_gate push_row
  garble_and-SameSize s a b p h = ground arith

  end-SameSize : (s : RunState) (p : GarblePass) → SameSize s p.s → SameSize s (Garble.end p).s
  unfolding Garble.end
  end-SameSize s p h = ground arith

  pub garble-SameSize : (src : Source) (st : RunState) → SameSize st (garble src st).1
  unfolding garble Garble.init Garble.xor_gate Garble.not_gate
  garble-SameSize src st = end-SameSize st (run_source Garble.ops src (Garble.init st)).1 (
      run_source-keeps Garble.ops (λ p. SameSize st p.s) (garble_public-SameSize st)
        (garble_and-SameSize st) (λ a b p h. h) (λ a p h. h) src (Garble.init st) (refl, refl))

  evaluate_public-SameSize :
      (s : RunState) (v : Bool) (p : EvaluatePass)
      → SameSize s p.s
      → SameSize s (Evaluate.public_bit v p).1.s
  unfolding Evaluate.public_bit
  evaluate_public-SameSize s v p h = ground arith

  refill-s : (p : EvaluatePass) → (Evaluate.refill p).s ≡ p.s
  unfolding Evaluate.refill
  refill-s p = ground arith

  evaluate_and-SameSize :
      (s : RunState) (a b : ℕ) (p : EvaluatePass)
      → SameSize s p.s
      → SameSize s (Evaluate.and_gate a b p).1.s
  unfolding Evaluate.and_gate
  evaluate_and-SameSize s a b p h = (
    ap (λ t. t.num_ands) (refill-s p) ∙ h.0,
    length-set (Evaluate.refill p).s.m1_t _ _ ∙ ap (λ t. length t.m1_t) (refill-s p) ∙ h.1,
  )

  pub evaluate-SameSize :
      (src : Source) (chunks : List (List Row)) (st : RunState)
      → SameSize st (evaluate src chunks st)
  unfolding evaluate Evaluate.init Evaluate.xor_gate Evaluate.not_gate
  evaluate-SameSize src chunks st =
      run_source-keeps Evaluate.ops (λ p. SameSize st p.s) (evaluate_public-SameSize st)
        (evaluate_and-SameSize st) (λ a b p h. h) (λ a p h. h) src (Evaluate.init chunks st)
        (refl, refl)

  recheck_public-SameSize :
      (s : RunState) (v : Bool) (p : GammaCheckPass)
      → SameSize s p.s
      → SameSize s (GammaCheck.public_bit v p).1.s
  unfolding GammaCheck.public_bit
  recheck_public-SameSize s v p h = ground arith

  recheck_and-SameSize :
      (s : RunState) (a b : ℕ) (p : GammaCheckPass)
      → SameSize s p.s
      → SameSize s (GammaCheck.and_gate a b p).1.s
  unfolding GammaCheck.and_gate
  recheck_and-SameSize s a b p h = (h.0, length-set p.s.m1_t _ _ ∙ h.1)

  pub recheck-SameSize :
      (src : Source) (ls : List Bool) (st : RunState) → SameSize st (recheck src ls st)
  unfolding recheck GammaCheck.init GammaCheck.xor_gate GammaCheck.not_gate
  recheck-SameSize src ls st =
      run_source-keeps GammaCheck.ops (λ p. SameSize st p.s) (recheck_public-SameSize st)
        (recheck_and-SameSize st) (λ a b p h. h) (λ a p h. h) src
        (GammaCheck.init (record st { lambda_and = ls })) (refl, refl)
