-- ===== src/Pass/GammaCheck.antt =====
-- AG2PCGammaCheckPass of emp-ag2pc/backend/pass_ctx.h, run by the garbler on the masks that the
-- evaluator sent.
use emp_ag2pc.Prelude.{ℕ, ◌+◌, Bool, false, not, ◌^^◌, none, some, get_or, set}
use emp_ag2pc.Block.{BlockOps}
use emp_ag2pc.Wires.{zero_bundle, xor_bundle}
use emp_ag2pc.RunState.{RunState, slot_of, wslot, minp}
use emp_ag2pc.HalfGate.Defs.{garbler_witness}
use emp_ag2pc.Pass.Source.{Consts, no_consts, cached, cache, PassOps}
use emp_ag2pc.Pass.Garble.{shares_at}

module _ ⦃B : BlockOps⦄ where
  pub record GammaCheckPass : Type 0 where
    pub s : RunState
    pub wid : ℕ
    pub ai : ℕ
    pub consts : Consts

  unfoldable pub init : RunState → GammaCheckPass
  init st = record { s = st; wid = st.num_inputs; ai = 0; consts = no_consts }

  unfoldable pub public_bit : Bool → GammaCheckPass → ℕ × GammaCheckPass
  public_bit v p = elim (cached v p.consts) [
    | some c ↦ (c, p)
    | none ↦
        let id = p.wid in
        let slot = slot_of p.s.phys id in
        (
          id,
          record p {
            wid = id + 1;
            s = record p.s {
              wire_slot = set p.s.wire_slot slot zero_bundle;
              mask_input = set p.s.mask_input slot v;
            };
            consts = cache v id p.consts;
          },
        )
  ]

  unfoldable pub xor_gate : ℕ → ℕ → GammaCheckPass → ℕ × GammaCheckPass
  xor_gate i0 i1 p =
      let id = p.wid in
      let slot = slot_of p.s.phys id in
      let sh = xor_bundle (wslot p.s i0) (wslot p.s i1) in
      let mi = minp p.s i0 ^^ minp p.s i1 in
      (
        id,
        record p {
          wid = id + 1;
          s = record p.s {
            wire_slot = set p.s.wire_slot slot sh;
            mask_input = set p.s.mask_input slot mi;
          };
        },
      )

  unfoldable pub not_gate : ℕ → GammaCheckPass → ℕ × GammaCheckPass
  not_gate i p =
      let id = p.wid in
      let slot = slot_of p.s.phys id in
      let sh = wslot p.s i in
      let mi = not (minp p.s i) in
      (
        id,
        record p {
          wid = id + 1;
          s = record p.s {
            wire_slot = set p.s.wire_slot slot sh;
            mask_input = set p.s.mask_input slot mi;
          };
        },
      )

  unfoldable pub and_gate : ℕ → ℕ → GammaCheckPass → ℕ × GammaCheckPass
  and_gate in0 in1 p =
      let id = p.wid in
      let s = record p.s {
        mask_input = set p.s.mask_input (slot_of p.s.phys id) (get_or p.s.lambda_and p.ai false);
      } in
      let m = garbler_witness (minp s in0) (minp s in1) (shares_at s in0 in1 id p.ai) in
      (id, record p { wid = id + 1; ai = p.ai + 1; s = record s { m1_t = set s.m1_t p.ai m } })

  abbrev pub ops : PassOps GammaCheckPass
  ops = record { op_public = public_bit; op_and = and_gate; op_xor = xor_gate; op_not = not_gate }
