-- ===== src/HalfGate/Defs.antt =====
-- The formulas of AG2PCGarblePass, AG2PCEvaluatePass and AG2PCGammaCheckPass for one AND.
-- `h` is MITCCRH at the tweak of the gate: both parties hash with the same one.
use emp_ag2pc.Prelude.{◌≡◌, Bool, ◌^^◌, ◌&&◌}
use emp_ag2pc.Block.{BlockOps, Block, ◌⊕◌, band, select_mask, lsb, lsb1, mask}
use emp_ag2pc.Wires.{AShareBundle}

module _ ⦃B : BlockOps⦄ where
  -- What the garbler sends for an AND, and the label that it keeps.
  pub record Garbled : Type 0 where
    pub g0 : Block
    pub g1 : Block
    pub b : Bool
    pub label : Block

  pub record Evaluated : Type 0 where
    pub label : Block
    pub lambda : Bool

  -- The shares of the two operands, of the output mask and of the product of the masks.
  pub record Shares : Type 0 where
    pub in0 : AShareBundle
    pub in1 : AShareBundle
    pub out : AShareBundle
    pub sigma : AShareBundle

  unfoldable pub garble_and : (Block → Block) → Block → Block → Block → Shares → Garbled
  garble_and h delta ml_a0 ml_b0 sh =
      let ml_a1 = ml_a0 ⊕ delta in
      let ml_b1 = ml_b0 ⊕ delta in
      let la_dot = band (select_mask (lsb sh.in0.mac)) delta in
      let lb_dot = band (select_mask (lsb sh.in1.mac)) delta in
      let lab_dot = band (select_mask (lsb sh.sigma.mac)) delta in
      let lg_dot = band (select_mask (lsb sh.out.mac)) delta in
      let ml_g0 = h ml_a0 ⊕ h ml_b0 ⊕ sh.sigma.key ⊕ lab_dot ⊕ sh.out.key ⊕ lg_dot in
      record {
        g0 = h ml_a0 ⊕ h ml_a1 ⊕ sh.in1.key ⊕ lb_dot;
        g1 = h ml_b0 ⊕ h ml_b1 ⊕ ml_a0 ⊕ sh.in0.key ⊕ la_dot;
        b = lsb1 ml_g0;
        label = ml_g0;
      }

  unfoldable pub evaluate_and :
      (Block → Block) → Block → Block → Bool → Block → Block → Bool → Bool → Shares → Evaluated
  evaluate_and h g0 g1 b ev_a ev_b la lb sh =
      let mr =
        sh.sigma.mac
        ⊕ sh.out.mac
        ⊕ band (select_mask la) sh.in1.mac
        ⊕ band (select_mask lb) sh.in0.mac in
      let t = h ev_a ⊕ h ev_b ⊕ band (select_mask la) g0 ⊕ band (select_mask lb) (g1 ⊕ ev_a) ⊕ mr in
      record { label = t; lambda = b ^^ lsb1 t }

  -- The evaluator's side of the c_gamma check for the mask `lg` that it derived.
  unfoldable pub evaluator_witness : Block → Bool → Bool → Bool → Shares → Block
  evaluator_witness delta la lb lg sh =
      let v_in0 = lsb sh.in0.mac in
      let v_in1 = lsb sh.in1.mac in
      let v_out = lsb sh.out.mac in
      let v_sig = lsb sh.sigma.mac in
      let t1 = (la && lb) ^^ lg ^^ (la && v_in1) ^^ (lb && v_in0) ^^ v_sig ^^ v_out in
      band (select_mask t1) delta
      ⊕ band (select_mask la) sh.in1.key
      ⊕ band (select_mask lb) sh.in0.key
      ⊕ (sh.sigma.key ⊕ sh.out.key)

  -- The garbler's side, recomputed from the masks of the operands.
  unfoldable pub garbler_witness : Bool → Bool → Shares → Block
  garbler_witness la lb sh =
      sh.sigma.mac
      ⊕ sh.out.mac
      ⊕ band (select_mask la) sh.in1.mac
      ⊕ band (select_mask lb) sh.in0.mac

  -- A party's share under the other's key: `mac = key ⊕ x·Δ`, with the bit `x` in `mac`.
  abbrev pub IsAuth : Block → AShareBundle → AShareBundle → Type 0
  IsAuth delta holder checker = holder.mac ≡ checker.key ⊕ mask (lsb holder.mac) delta

  -- The bit that two shares stand for.
  abbrev pub shared : AShareBundle → AShareBundle → Bool
  shared a b = lsb a.mac ^^ lsb b.mac

  -- All four shares of an AND are authenticated in one direction.
  pub record AreAuth (delta : Block) (holder checker : Shares) : Type 0 where
    pub auth_in0 : IsAuth delta holder.in0 checker.in0
    pub auth_in1 : IsAuth delta holder.in1 checker.in1
    pub auth_out : IsAuth delta holder.out checker.out
    pub auth_sigma : IsAuth delta holder.sigma checker.sigma

  -- The mask that the gate gives its output.
  abbrev pub out_mask : Bool → Bool → Shares → Shares → Bool
  out_mask la lb ga ev =
      shared ga.sigma ev.sigma
      ^^ shared ga.out ev.out
      ^^ (la && shared ga.in1 ev.in1)
      ^^ (lb && shared ga.in0 ev.in0)
      ^^ (la && lb)
