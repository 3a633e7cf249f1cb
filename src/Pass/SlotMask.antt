-- ===== src/Pass/SlotMask.antt =====
-- AG2PCSlotMaskPass of emp-ag2pc/backend/pass_ctx.h. The shares that TriplePool::draw mints come
-- from the COT extension of emp-ot: they are the stream `mint`, of which `minted` are spent.
use emp_ag2pc.Prelude.{
  ℕ, zero, suc, ◌+◌, ◌^◌, Bool, false, not, ◌&&◌, List, [], ◌∷◌, ◌++◌, Option, none, some, max,
  get_or, set, resize, length, leb, ◌==◌, if◌then◌else◌,
}
use emp_ag2pc.Block.{BlockOps, zero_block}
use emp_ag2pc.Wires.{AShareBundle, zero_bundle, xor_bundle}
use emp_ag2pc.RunState.{RunState, slot_of, wslot}
use emp_ag2pc.Pass.Source.{Consts, no_consts, cached, cache, PassOps}

abbrev pub k_lg_batch : ℕ
k_lg_batch = 2 ^ 14

module _ ⦃B : BlockOps⦄ where
  pub record SlotMaskPass : Type 0 where
    pub s : RunState
    pub wid : ℕ
    pub ai : ℕ
    pub gi : ℕ
    pub freelist : List ℕ
    pub lg_buf : List AShareBundle
    pub lg_off : ℕ
    pub mint : ℕ → AShareBundle
    pub minted : ℕ
    pub consts : Consts

  unfoldable pub init : (ℕ → AShareBundle) → ℕ → RunState → SlotMaskPass
  init mint minted st = record {
    s = record st { rep_a = []; rep_b = [] };
    wid = st.num_inputs;
    ai = 0;
    gi = 0;
    freelist = [];
    lg_buf = [];
    lg_off = 0;
    mint = mint;
    minted = minted;
    consts = no_consts;
  }

  -- `draw(n, out)`: the next `n` minted shares.
  unfoldable pub draw : (ℕ → AShareBundle) → ℕ → ℕ → List AShareBundle
  draw mint from zero = []
  draw mint from (suc n) = mint from ∷ draw mint (from + 1) n

  unfoldable pub next_lambda_gamma : SlotMaskPass → AShareBundle × SlotMaskPass
  next_lambda_gamma p =
      if leb (length p.lg_buf) p.lg_off
      then (let buf = draw p.mint p.minted k_lg_batch in
          (
            get_or buf 0 zero_bundle,
            record p { lg_buf = buf; lg_off = 1; minted = p.minted + k_lg_batch },
          ))
      else (get_or p.lg_buf p.lg_off zero_bundle, record p { lg_off = p.lg_off + 1 })

  -- A new slot at the end of the arrays.
  unfoldable pub grow : ℕ → SlotMaskPass → ℕ × SlotMaskPass
  grow id p =
      let slot = p.s.num_slots in
      (
        slot,
        record p {
          s = record p.s {
            num_slots = slot + 1;
            wire_slot = resize (slot + 1) zero_bundle p.s.wire_slot;
            mask_input = resize (slot + 1) false p.s.mask_input;
            phys = set p.s.phys id (some slot);
          };
        },
      )

  -- A wire that need not persist takes the slot freed last, if there is one. The head of
  -- `freelist` is the back of the vector.
  unfoldable pub alloc_slot : ℕ → SlotMaskPass → ℕ × SlotMaskPass
  unfolding grow
  alloc_slot id p =
      if not (get_or p.s.persist id false)
      then elim p.freelist [
        | [] ↦ grow id p
        | slot ∷ rest ↦ (
          slot,
          record p { freelist = rest; s = record p.s { phys = set p.s.phys id (some slot) } },
        )
      ]
      else grow id p

  abbrev pub is_at : Option ℕ → ℕ → Bool
  is_at none g = false
  is_at (some u) g = u == g

  unfoldable pub free_if_dead : ℕ → SlotMaskPass → SlotMaskPass
  free_if_dead w p =
      if not (get_or p.s.persist w false) && is_at (get_or p.s.last_use w none) p.gi
      then record p { freelist = slot_of p.s.phys w ∷ p.freelist }
      else p

  -- `wire_slot[slot] = …; mask_input[slot] = …`
  abbrev pub store : ℕ → AShareBundle → Bool → SlotMaskPass → SlotMaskPass
  store slot sh m p = record p {
    s = record p.s {
      wire_slot = set p.s.wire_slot slot sh;
      mask_input = set p.s.mask_input slot m;
    };
  }

  -- Frees the operands that the gate reads last, an operand that stands twice only once.
  unfoldable pub free_operands : ℕ → ℕ → SlotMaskPass → SlotMaskPass
  free_operands i0 i1 p =
      let p' = free_if_dead i0 p in if not (i1 == i0) then free_if_dead i1 p' else p'

  unfoldable pub public_bit : Bool → SlotMaskPass → ℕ × SlotMaskPass
  public_bit v p = elim (cached v p.consts) [
    | some c ↦ (c, p)
    | none ↦
        let id = p.wid in
        let (slot, p') = alloc_slot id (record p { wid = id + 1 }) in
        (id, record (store slot zero_bundle v p') { consts = cache v id p'.consts })
  ]

  unfoldable pub and_gate : ℕ → ℕ → SlotMaskPass → ℕ × SlotMaskPass
  and_gate i0 i1 p =
      let id = p.wid in
      let a = wslot p.s i0 in
      let b = wslot p.s i1 in
      let p1 = record p {
        wid = id + 1;
        s = record p.s { rep_a = p.s.rep_a ++ a ∷ []; rep_b = p.s.rep_b ++ b ∷ [] };
      } in
      let (lg, p2) = next_lambda_gamma p1 in
      let (slot, p3) = alloc_slot id p2 in
      let p4 = free_operands i0 i1 (store slot lg false p3) in
      (id, record p4 { gi = p4.gi + 1; ai = p4.ai + 1 })

  unfoldable pub xor_gate : ℕ → ℕ → SlotMaskPass → ℕ × SlotMaskPass
  xor_gate i0 i1 p =
      let id = p.wid in
      let r_out = xor_bundle (wslot p.s i0) (wslot p.s i1) in
      let (slot, p1) = alloc_slot id (record p { wid = id + 1 }) in
      let p2 = free_operands i0 i1 (store slot r_out false p1) in (id, record p2 { gi = p2.gi + 1 })

  unfoldable pub not_gate : ℕ → SlotMaskPass → ℕ × SlotMaskPass
  not_gate i p =
      let id = p.wid in
      let tmp = wslot p.s i in
      let (slot, p1) = alloc_slot id (record p { wid = id + 1 }) in
      let p2 = free_if_dead i (store slot tmp false p1) in (id, record p2 { gi = p2.gi + 1 })

  abbrev pub ops : PassOps SlotMaskPass
  ops = record { op_public = public_bit; op_and = and_gate; op_xor = xor_gate; op_not = not_gate }

  unfoldable pub commit_sizes : SlotMaskPass → RunState
  commit_sizes p =
      let s = record p.s { num_ands = p.ai; sigma = resize (max 1 p.ai) zero_bundle p.s.sigma } in
      if s.party == 1
      then record s { label_slot = resize s.num_slots zero_block s.label_slot }
      else record s { eval_slot = resize s.num_slots zero_block s.eval_slot }
