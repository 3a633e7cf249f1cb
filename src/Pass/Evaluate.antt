-- ===== src/Pass/Evaluate.antt =====
-- AG2PCEvaluatePass of emp-ag2pc/backend/pass_ctx.h. `incoming` holds the chunks that the
-- receiver task has yet to hand over.
use emp_ag2pc.Prelude.{
  ℕ, zero, suc, ◌+◌, ◌-◌, ◌^◌, min, ltb, take, drop, Bool, true, false, not, ◌^^◌, List, [], ◌∷◌,
  Option, none, some, get_or, set, length, ◌==◌, if◌then◌else◌,
}
use emp_ag2pc.Block.{BlockOps, zero_block, ◌⊕◌}
use emp_ag2pc.Wires.{zero_bundle, xor_bundle}
use emp_ag2pc.RunState.{RunState, slot_of, wslot, minp, evl, hash_cir}
use emp_ag2pc.HalfGate.Defs.{evaluate_and, evaluator_witness}
use emp_ag2pc.Pass.Source.{Consts, no_consts, cached, cache, PassOps}
use emp_ag2pc.Pass.Garble.{Row, shares_at}

-- The constant of the evaluate pass.
abbrev pub k_batch : ℕ
k_batch = 2 ^ 16

module _ ⦃B : BlockOps⦄ where
  -- The receiver task of `begin`, for `num_ands` and `recv_base` and the rows on their way: it takes as
  -- many as the next chunk is to have, on fuel.
  unfoldable pub receive : ℕ → ℕ → ℕ → List Row → List (List Row)
  receive zero num_ands recv_base rows = []
  receive (suc fuel) num_ands recv_base rows =
      let n = min k_batch (num_ands - recv_base) in
      let rest = receive fuel num_ands (recv_base + n) (drop n rows) in
      if ltb recv_base num_ands then take n rows ∷ rest else []

  pub record EvaluatePass : Type 0 where
    pub s : RunState
    pub wid : ℕ
    pub ai : ℕ
    pub incoming : List (List Row)
    pub cur : Option (List Row)
    pub loc : ℕ
    pub consts : Consts

  unfoldable pub init : List (List Row) → RunState → EvaluatePass
  init incoming st = record {
    s = st;
    wid = st.num_inputs;
    ai = 0;
    incoming = incoming;
    cur = none;
    loc = 0;
    consts = no_consts;
  }

  unfoldable pub public_bit : Bool → EvaluatePass → ℕ × EvaluatePass
  public_bit v p = elim (cached v p.consts) [
    | some c ↦ (c, p)
    | none ↦
        let id = p.wid in
        let slot = slot_of p.s.phys id in
        (
          id,
          record p {
            wid = id + 1;
            s = record p.s {
              wire_slot = set p.s.wire_slot slot zero_bundle;
              eval_slot = set p.s.eval_slot slot zero_block;
              mask_input = set p.s.mask_input slot v;
            };
            consts = cache v id p.consts;
          },
        )
  ]

  unfoldable pub xor_gate : ℕ → ℕ → EvaluatePass → ℕ × EvaluatePass
  xor_gate i0 i1 p =
      let id = p.wid in
      let slot = slot_of p.s.phys id in
      let sh = xor_bundle (wslot p.s i0) (wslot p.s i1) in
      let ev = evl p.s i0 ⊕ evl p.s i1 in
      let mi = minp p.s i0 ^^ minp p.s i1 in
      (
        id,
        record p {
          wid = id + 1;
          s = record p.s {
            wire_slot = set p.s.wire_slot slot sh;
            eval_slot = set p.s.eval_slot slot ev;
            mask_input = set p.s.mask_input slot mi;
          };
        },
      )

  unfoldable pub not_gate : ℕ → EvaluatePass → ℕ × EvaluatePass
  not_gate i p =
      let id = p.wid in
      let slot = slot_of p.s.phys id in
      let sh = wslot p.s i in
      let ev = evl p.s i in
      let mi = not (minp p.s i) in
      (
        id,
        record p {
          wid = id + 1;
          s = record p.s {
            wire_slot = set p.s.wire_slot slot sh;
            eval_slot = set p.s.eval_slot slot ev;
            mask_input = set p.s.mask_input slot mi;
          };
        },
      )

  abbrev pub zero_row : Row
  zero_row = record { g0 = zero_block; g1 = zero_block; b = false }

  -- `cur == nullptr || loc == cur->n`
  abbrev pub is_spent : Option (List Row) → ℕ → Bool
  is_spent none loc = true
  is_spent (some rows) loc = loc == length rows

  abbrev pub row_at : Option (List Row) → ℕ → Row
  row_at none loc = zero_row
  row_at (some rows) loc = get_or rows loc zero_row

  -- Takes the next chunk when the current one is used up. A drained pipe hands over nothing.
  unfoldable pub refill : EvaluatePass → EvaluatePass
  refill p =
      if is_spent p.cur p.loc
      then elim p.incoming [
        | [] ↦ record p { cur = none; loc = 0 }
        | rows ∷ rest ↦ record p { incoming = rest; cur = some rows; loc = 0 }
      ]
      else p

  unfoldable pub and_gate : ℕ → ℕ → EvaluatePass → ℕ × EvaluatePass
  unfolding refill
  and_gate in0 in1 p0 =
      let p = refill p0 in
      let id = p.wid in
      let la = minp p.s in0 in
      let lb = minp p.s in1 in
      let sh = shares_at p.s in0 in1 id p.ai in
      let (h, mitc) = hash_cir p.s.mitc in
      let row = row_at p.cur p.loc in
      let e = evaluate_and h row.g0 row.g1 row.b (evl p.s in0) (evl p.s in1) la lb sh in
      let slot = slot_of p.s.phys id in
      (
        id,
        record p {
          wid = id + 1;
          ai = p.ai + 1;
          loc = p.loc + 1;
          s = record p.s {
            eval_slot = set p.s.eval_slot slot e.label;
            mask_input = set p.s.mask_input slot e.lambda;
            lambda_and = set p.s.lambda_and p.ai e.lambda;
            m1_t = set p.s.m1_t p.ai (evaluator_witness p.s.delta la lb e.lambda sh);
            mitc = mitc;
          };
        },
      )

  abbrev pub ops : PassOps EvaluatePass
  ops = record { op_public = public_bit; op_and = and_gate; op_xor = xor_gate; op_not = not_gate }
