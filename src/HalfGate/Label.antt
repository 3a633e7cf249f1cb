-- ===== src/HalfGate/Label.antt =====
-- The evaluator's label and mask are the ones that the garbler's label stands for.
use emp_ag2pc.Prelude.{◌≡◌, refl, ^^_cancel, Bool, true, false, ◌^^◌, ◌&&◌, ◌∙◌}
use mathlib.Core.Bool.{and-true}
use emp_ag2pc.Block.{
  BlockOps, Block, ◌⊕◌, mask, mask-^^, mask-⊕, lsb, lsb1, lsb1-⊕, lsb1-mask, xor_laws,
}
use emp_ag2pc.HalfGate.Defs.{Shares, Evaluated, garble_and, evaluate_and, AreAuth, out_mask}

module _ ⦃B : BlockOps⦄ (h : Block → Block) (delta ml_a0 ml_b0 : Block) (ga ev : Shares)
    (auth : AreAuth delta ev ga) where
  -- The evaluator's sum with its four MACs as variables.
  abbrev sum : (la lb : Bool) → Block → Block → Block → Block → Block
  sum la lb m0 m1 mo ms =
      let g = garble_and h delta ml_a0 ml_b0 ga in
      let ev_a = ml_a0 ⊕ mask la delta in
      let mr = ms ⊕ mo ⊕ mask la m1 ⊕ mask lb m0 in
      h ev_a ⊕ h (ml_b0 ⊕ mask lb delta) ⊕ mask la g.g0 ⊕ mask lb (g.g1 ⊕ ev_a) ⊕ mr

  sum-eq :
      (la lb x0 x1 xo xs : Bool)
      → sum la lb
          (ga.in0.key ⊕ mask x0 delta)
          (ga.in1.key ⊕ mask x1 delta)
          (ga.out.key ⊕ mask xo delta)
          (ga.sigma.key ⊕ mask xs delta)
        ≡ (garble_and h delta ml_a0 ml_b0 ga).label
          ⊕ mask
              ((lsb ga.sigma.mac ^^ xs)
                ^^ (lsb ga.out.mac ^^ xo)
                ^^ (la && (lsb ga.in1.mac ^^ x1))
                ^^ (lb && (lsb ga.in0.mac ^^ x0))
                ^^ (la && lb))
              delta
  unfolding garble_and
  sum-eq true true x0 x1 xo xs = simp (mask-^^, mask-⊕, xor_laws)
  sum-eq true false x0 x1 xo xs = simp (mask-^^, xor_laws)
  sum-eq false true x0 x1 xo xs = simp (mask-^^, xor_laws)
  sum-eq false false x0 x1 xo xs = simp (mask-^^, xor_laws)

  -- The evaluator, given the garbler's ciphertexts and `b`.
  abbrev pub evaluated : Bool → Bool → Bool → Evaluated
  evaluated la lb b =
      let g = garble_and h delta ml_a0 ml_b0 ga in
      evaluate_and h g.g0 g.g1 b (ml_a0 ⊕ mask la delta) (ml_b0 ⊕ mask lb delta) la lb ev

  lambda-lsb1 : (la lb b : Bool) → (evaluated la lb b).lambda ≡ b ^^ lsb1 (evaluated la lb b).label
  unfolding evaluate_and
  lambda-lsb1 la lb b = refl

  garble-b : (garble_and h delta ml_a0 ml_b0 ga).b ≡ lsb1 (garble_and h delta ml_a0 ml_b0 ga).label
  unfolding garble_and
  garble-b = refl

  -- The evaluator ends with the garbler's label, shifted by the delta where the mask is set.
  pub evaluate-label :
      (la lb b : Bool)
      → (evaluated la lb b).label
        ≡ (garble_and h delta ml_a0 ml_b0 ga).label ⊕ mask (out_mask la lb ga ev) delta
  unfolding evaluate_and
  evaluate-label la lb b =
      (λ i. sum la lb (auth.auth_in0 i) (auth.auth_in1 i) (auth.auth_out i) (auth.auth_sigma i))
      ∙ sum-eq la lb (lsb ev.in0.mac) (lsb ev.in1.mac) (lsb ev.out.mac) (lsb ev.sigma.mac)

  -- The bit that the garbler sends opens exactly the mask, since bit 1 of its delta is set.
  pub evaluate-lambda :
      (la lb : Bool)
      → lsb1 delta ≡ true
      → (evaluated la lb (garble_and h delta ml_a0 ml_b0 ga).b).lambda ≡ out_mask la lb ga ev
  evaluate-lambda la lb odd =
      lambda-lsb1 la lb (garble_and h delta ml_a0 ml_b0 ga).b
      ∙ rw
          (
            evaluate-label la lb (garble_and h delta ml_a0 ml_b0 ga).b,
            lsb1-⊕,
            lsb1-mask,
            odd,
            garble-b,
            and-true,
          )
          (^^_cancel (lsb1 (garble_and h delta ml_a0 ml_b0 ga).label) (out_mask la lb ga ev))
