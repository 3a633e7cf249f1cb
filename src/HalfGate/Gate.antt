-- ===== src/HalfGate/Gate.antt =====
-- One AND from both sides: and_gate of AG2PCGarblePass at the garbler, and_gate of
-- AG2PCEvaluatePass at the evaluator.
use emp_ag2pc.Prelude.{◌≡◌, sym, ap, ◌∙◌, Bool, true, ◌^^◌, ◌&&◌, arith}
use emp_ag2pc.Block.{BlockOps, Block, ◌⊕◌, mask, lsb1}
use emp_ag2pc.HalfGate.Defs.{Shares, AreAuth, shared, Evaluated, garble_and, evaluate_and}
use emp_ag2pc.HalfGate.Label.{evaluate-label, evaluate-lambda}

-- Masks of operands that hide `va` and `vb` give the mask that hides their product.
pub hides_and :
    (va vb a b o s : Bool)
    → s ≡ a && b
    → s ^^ o ^^ ((va ^^ a) && b) ^^ ((vb ^^ b) && a) ^^ ((va ^^ a) && (vb ^^ b)) ≡ (va && vb) ^^ o
hides_and va vb a b o s e = ground arith

module _ ⦃B : BlockOps⦄ where
  -- What the evaluator makes of the garbler's ciphertexts and bit for one AND.
  abbrev pub received :
      (Block → Block) → Block → Block → Block → Bool → Bool → Shares → Shares → Evaluated
  received h delta ml_a0 ml_b0 la lb ga ev =
      let g = garble_and h delta ml_a0 ml_b0 ga in
      evaluate_and h g.g0 g.g1 g.b (ml_a0 ⊕ mask la delta) (ml_b0 ⊕ mask lb delta) la lb ev

  -- For every hash, labels, masks and shares: if the evaluator's four shares are authenticated
  -- under the garbler's delta, whose bit 1 is set, sigma shares the product of the operands'
  -- masks, and the evaluator holds the labels of the operands for the masked bits of `va` and
  -- `vb`, then the mask that it derives is that of `va && vb` under the output's shared mask, and
  -- its label is the garbler's zero label, shifted by the delta exactly when that mask is set.
  pub and_gate_correct :
      (h : Block → Block) (delta ml_a0 ml_b0 : Block) (ga ev : Shares) (va vb : Bool)
      → AreAuth delta ev ga
      → lsb1 delta ≡ true
      → shared ga.sigma ev.sigma ≡ shared ga.in0 ev.in0 && shared ga.in1 ev.in1
      → let la = va ^^ shared ga.in0 ev.in0 in
        let lb = vb ^^ shared ga.in1 ev.in1 in
        let e = received h delta ml_a0 ml_b0 la lb ga ev in
        (e.lambda ≡ (va && vb) ^^ shared ga.out ev.out)
        × (e.label ≡ (garble_and h delta ml_a0 ml_b0 ga).label ⊕ mask e.lambda delta)
  and_gate_correct h delta ml_a0 ml_b0 ga ev va vb auth odd product =
      let la = va ^^ shared ga.in0 ev.in0 in
      let lb = vb ^^ shared ga.in1 ev.in1 in
      let opened = evaluate-lambda h delta ml_a0 ml_b0 ga ev auth la lb odd in
      (
        opened ∙ hides_and va vb _ _ (shared ga.out ev.out) _ product,
        evaluate-label h delta ml_a0 ml_b0 ga ev auth la lb _
            ∙ ap (λ m. (garble_and h delta ml_a0 ml_b0 ga).label ⊕ mask m delta) (sym opened),
      )
