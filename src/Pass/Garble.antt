-- ===== src/Pass/Garble.antt =====
-- AG2PCGarblePass of emp-ag2pc/backend/pass_ctx.h. A chunk is the list of its rows, `n` of the
-- source being the length: row i is G[2i], G[2i+1] and b[i]. A published chunk is shipped by the
-- sender task in the order of publication, so `published` is what the peer gets.
use emp_ag2pc.Prelude.{
  ℕ, ◌+◌, ◌^◌, min, max, Bool, List, [], ◌∷◌, ◌++◌, none, some, get_or, set, length, ltb, ◌==◌,
  if◌then◌else◌,
}
use emp_ag2pc.Block.{BlockOps, Block, zero_block, ◌⊕◌}
use emp_ag2pc.Wires.{zero_bundle, xor_bundle}
use emp_ag2pc.RunState.{RunState, slot_of, wslot, lbl, hash_cir}
use emp_ag2pc.HalfGate.Defs.{Shares, garble_and}
use emp_ag2pc.Pass.Source.{Consts, no_consts, cached, cache, PassOps}

abbrev pub k_batch : ℕ
k_batch = 2 ^ 16

module _ ⦃B : BlockOps⦄ where
  -- What one AND puts on the wire.
  pub record Row : Type 0 where
    pub g0 : Block
    pub g1 : Block
    pub b : Bool

  pub record GarblePass : Type 0 where
    pub s : RunState
    pub wid : ℕ
    pub ai : ℕ
    pub published : List (List Row)
    pub cur : List Row
    pub consts : Consts

  -- `cap` of the constructor: how many rows a chunk of the pipe has room for.
  unfoldable pub capacity : RunState → ℕ
  capacity st = min k_batch (max 1 st.num_ands)

  -- The constructor, but for `capacity`, and `begin`, which takes the first chunk.
  unfoldable pub init : RunState → GarblePass
  init st = record {
    s = st;
    wid = st.num_inputs;
    ai = 0;
    published = [];
    cur = [];
    consts = no_consts;
  }

  -- `end`: the last chunk goes out if it is not empty.
  unfoldable pub end : GarblePass → GarblePass
  end p = if ltb 0 (length p.cur) then record p { published = p.published ++ p.cur ∷ [] } else p

  unfoldable pub public_bit : Bool → GarblePass → ℕ × GarblePass
  public_bit v p = elim (cached v p.consts) [
    | some c ↦ (c, p)
    | none ↦
        let id = p.wid in
        let slot = slot_of p.s.phys id in
        (
          id,
          record p {
            wid = id + 1;
            s = record p.s {
              wire_slot = set p.s.wire_slot slot zero_bundle;
              label_slot = set p.s.label_slot slot (if v then p.s.delta else zero_block);
            };
            consts = cache v id p.consts;
          },
        )
  ]

  unfoldable pub xor_gate : ℕ → ℕ → GarblePass → ℕ × GarblePass
  xor_gate i0 i1 p =
      let id = p.wid in
      let slot = slot_of p.s.phys id in
      let sh = xor_bundle (wslot p.s i0) (wslot p.s i1) in
      let lb = lbl p.s i0 ⊕ lbl p.s i1 in
      (
        id,
        record p {
          wid = id + 1;
          s = record p.s {
            wire_slot = set p.s.wire_slot slot sh;
            label_slot = set p.s.label_slot slot lb;
          };
        },
      )

  unfoldable pub not_gate : ℕ → GarblePass → ℕ × GarblePass
  not_gate i p =
      let id = p.wid in
      let slot = slot_of p.s.phys id in
      let sh = wslot p.s i in
      let lb = lbl p.s i ⊕ p.s.delta in
      (
        id,
        record p {
          wid = id + 1;
          s = record p.s {
            wire_slot = set p.s.wire_slot slot sh;
            label_slot = set p.s.label_slot slot lb;
          };
        },
      )

  -- The shares that the AND with index `ai` and output `id` reads.
  abbrev pub shares_at : RunState → ℕ → ℕ → ℕ → ℕ → Shares
  shares_at s in0 in1 id ai = record {
    in0 = wslot s in0;
    in1 = wslot s in1;
    out = wslot s id;
    sigma = get_or s.sigma ai zero_bundle;
  }

  -- A row goes to the current chunk, which is published when it is full.
  unfoldable pub push_row : Row → GarblePass → GarblePass
  push_row row p =
      let rows = p.cur ++ row ∷ [] in
      if length rows == k_batch
      then record p { published = p.published ++ rows ∷ []; cur = [] }
      else record p { cur = rows }

  unfoldable pub and_gate : ℕ → ℕ → GarblePass → ℕ × GarblePass
  unfolding push_row
  and_gate in0 in1 p =
      let id = p.wid in
      let (h, mitc) = hash_cir p.s.mitc in
      let g = garble_and h p.s.delta (lbl p.s in0) (lbl p.s in1) (shares_at p.s in0 in1 id p.ai) in
      (
        id,
        push_row (record { g0 = g.g0; g1 = g.g1; b = g.b })
            (record p {
              wid = id + 1;
              ai = p.ai + 1;
              s = record p.s {
                label_slot = set p.s.label_slot (slot_of p.s.phys id) g.label;
                mitc = mitc;
              };
            }),
      )

  abbrev pub ops : PassOps GarblePass
  ops = record { op_public = public_bit; op_and = and_gate; op_xor = xor_gate; op_not = not_gate }
