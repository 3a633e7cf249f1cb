-- ===== src/Engine/Load.antt =====
-- How run_program of emp-ag2pc/backend/engine.h starts: the liveness pass, the slots of the inputs
-- and the slot pass.
use emp_ag2pc.Prelude.{
  ℕ, zero, suc, ◌+◌, ◌==◌, false, List, [], ◌∷◌, Option, none, some, map, resize, if◌then◌else◌,
}
use emp_ag2pc.Block.{BlockOps, Block, zero_block}
use emp_ag2pc.Wires.{AShareBundle, zero_bundle, SecureWires}
use emp_ag2pc.RunState.{RunState, wslot, minp, lbl, evl}
use emp_ag2pc.Pass.Source.{Source, run_source}
use emp_ag2pc.Pass.Liveness
use emp_ag2pc.Pass.SlotMask

-- `f 0, …, f (n - 1)` after the elements `i` counts from.
abbrev pub count_from : ℕ → ℕ → List (Option ℕ)
count_from i zero = []
count_from i (suc n) = some i ∷ count_from (i + 1) n

-- `phys.assign(num_wires, -1)`, then `phys[i] = i` for each input.
abbrev pub identity_map : ℕ → ℕ → List (Option ℕ)
identity_map wires n = resize wires none (count_from 0 n)

module _ ⦃B : BlockOps⦄ where
  -- The state of a run before any pass.
  unfoldable pub start : ℕ → Block → ℕ → (ℕ → Block → Block) → RunState
  start party delta num_in hash = record {
    party = party;
    delta = delta;
    num_inputs = num_in;
    num_ands = 0;
    num_wires = 0;
    num_slots = 0;
    phys = [];
    last_use = [];
    persist = [];
    wire_slot = [];
    mask_input = [];
    label_slot = [];
    eval_slot = [];
    rep_a = [];
    rep_b = [];
    sigma = [];
    m1_t = [];
    lambda_and = [];
    mitc = record { hash = hash; gid = 0 };
  }

  -- Inputs occupy the first slots; the label array of the party's own kind is loaded.
  unfoldable pub load_inputs : SecureWires → RunState → RunState
  load_inputs in_wires st =
      let n = st.num_inputs in
      record st {
        phys = identity_map st.num_wires n;
        num_slots = n;
        wire_slot = resize n zero_bundle in_wires.wire_bundle;
        mask_input = resize n false in_wires.lambda;
        label_slot = if st.party == 1 then resize n zero_block in_wires.label0 else st.label_slot;
        eval_slot = if st.party == 1 then st.eval_slot else resize n zero_block in_wires.eval_label;
      }

  -- Pass 0, the load and pass 1: the output ids and the state the later passes start from.
  unfoldable pub prepare :
      (ℕ → AShareBundle) → ℕ → SecureWires → Source → RunState → List ℕ × SlotMask.SlotMaskPass
  prepare mint minted in_wires src st =
      let (out_ids, lp) = run_source Liveness.ops src (Liveness.init st) in
      let loaded = load_inputs in_wires (Liveness.commit out_ids lp) in
      let (outs, sp) = run_source SlotMask.ops src (SlotMask.init mint minted loaded) in
      (out_ids, sp)

  -- The outputs that run_program gathers.
  unfoldable pub gather_outputs : List ℕ → RunState → SecureWires
  gather_outputs out_ids st = record {
    lambda = map (minp st) out_ids;
    wire_bundle = map (wslot st) out_ids;
    label0 = if st.party == 1 then map (lbl st) out_ids else [];
    eval_label = if st.party == 1 then [] else map (evl st) out_ids;
  }
