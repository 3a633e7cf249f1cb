-- ===== src/HalfGate/Gamma.antt =====
-- The c_gamma check compares the two witnesses of an AND.
use emp_ag2pc.Prelude.{◌≡◌, ◌↔◌, ^^_self, Bool, true, false, ◌^^◌, ◌&&◌, ◌∙◌, ap, arith}
use emp_ag2pc.Block.{
  BlockOps, Block, ◌⊕◌, mask, mask-^^, mask-⊕, lsb, lsb-⊕, lsb-mask, xor_laws, band-mask_false,
  ⊕-zero,
}
use mathlib.Core.Bool.{true-and, false-and}
use emp_ag2pc.HalfGate.Defs.{Shares, garbler_witness, evaluator_witness, AreAuth, out_mask}

module _ ⦃B : BlockOps⦄ (delta : Block) (ga ev : Shares) (auth : AreAuth delta ga ev) where
  abbrev sum : (la lb : Bool) → Block → Block → Block → Block → Block
  sum la lb m0 m1 mo ms = ms ⊕ mo ⊕ mask la m1 ⊕ mask lb m0

  sum-eq :
      (la lb lg x0 x1 xo xs : Bool)
      → sum la lb
          (ev.in0.key ⊕ mask x0 delta)
          (ev.in1.key ⊕ mask x1 delta)
          (ev.out.key ⊕ mask xo delta)
          (ev.sigma.key ⊕ mask xs delta)
        ≡ evaluator_witness delta la lb lg ev
          ⊕ mask
              (lg
                ^^ ((xs ^^ lsb ev.sigma.mac)
                    ^^ (xo ^^ lsb ev.out.mac)
                    ^^ (la && (x1 ^^ lsb ev.in1.mac))
                    ^^ (lb && (x0 ^^ lsb ev.in0.mac))
                    ^^ (la && lb)))
              delta
  unfolding evaluator_witness
  sum-eq true true lg x0 x1 xo xs = simp (true-and, mask-^^, mask-⊕, xor_laws)
  sum-eq true false lg x0 x1 xo xs = simp (true-and, false-and, mask-^^, xor_laws)
  sum-eq false true lg x0 x1 xo xs = simp (true-and, false-and, mask-^^, xor_laws)
  sum-eq false false lg x0 x1 xo xs = simp (false-and, mask-^^, xor_laws)

  -- The two witnesses differ by the delta exactly where the evaluator's mask is wrong.
  pub witness-difference :
      (la lb lg : Bool)
      → garbler_witness la lb ga
        ≡ evaluator_witness delta la lb lg ev ⊕ mask (lg ^^ out_mask la lb ga ev) delta
  unfolding garbler_witness
  witness-difference la lb lg =
      (λ i. sum la lb (auth.auth_in0 i) (auth.auth_in1 i) (auth.auth_out i) (auth.auth_sigma i))
      ∙ sum-eq la lb lg (lsb ga.in0.mac) (lsb ga.in1.mac) (lsb ga.out.mac) (lsb ga.sigma.mac)

  witness-lsb :
      (la lb lg : Bool)
      → lsb (garbler_witness la lb ga)
        ≡ lsb (evaluator_witness delta la lb lg ev) ^^ ((lg ^^ out_mask la lb ga ev) && lsb delta)
  witness-lsb la lb lg = rw (witness-difference la lb lg, lsb-⊕, lsb-mask)

  bit_of : {x y m n d : Bool} → x ≡ y ^^ ((m ^^ n) && d) → x ≡ y → d ≡ true → m ≡ n
  bit_of e f odd = ground arith

  -- The check of an AND passes exactly when the evaluator's mask is the right one.
  pub witness-eq_iff :
      (la lb lg : Bool)
      → lsb delta ≡ true
      → (garbler_witness la lb ga ≡ evaluator_witness delta la lb lg ev)
        ↔ (lg ≡ out_mask la lb ga ev)
  witness-eq_iff la lb lg odd = (
    λ same. bit_of (witness-lsb la lb lg) (ap lsb same) odd,
    λ right. rw (witness-difference la lb lg, ← right, ^^_self, band-mask_false) (⊕-zero _),
  )
