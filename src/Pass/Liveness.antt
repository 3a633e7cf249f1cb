-- ===== src/Pass/Liveness.antt =====
-- AG2PCLivenessPass of emp-ag2pc/backend/pass_ctx.h.
use emp_ag2pc.Prelude.{
  ℕ, ◌+◌, Bool, true, false, List, [], ◌∷◌, ◌++◌, Option, none, some, set, replicate, ltb,
  if◌then◌else◌,
}
use emp_ag2pc.Block.{BlockOps}
use emp_ag2pc.RunState.{RunState}
use emp_ag2pc.Pass.Source.{Consts, no_consts, cached, cache, PassOps}

-- the loop over `out_ids` in `commit`
unfoldable pub pin : ℕ → List ℕ → List Bool → List Bool
pin wid [] persist = persist
pin wid (id ∷ ids) persist = pin wid ids (if ltb id wid then set persist id true else persist)

module _ ⦃B : BlockOps⦄ where
  pub record LivenessPass : Type 0 where
    pub s : RunState
    pub wid : ℕ
    pub gi : ℕ
    pub ai : ℕ
    pub last_use : List (Option ℕ)
    pub persist : List Bool
    pub consts : Consts

  unfoldable pub init : RunState → LivenessPass
  init st = record {
    s = st;
    wid = st.num_inputs;
    gi = 0;
    ai = 0;
    last_use = replicate st.num_inputs none;
    persist = replicate st.num_inputs true;
    consts = no_consts;
  }

  -- `emit_`
  unfoldable pub emit : Bool → LivenessPass → ℕ × LivenessPass
  emit is_persist p = (
    p.wid,
    record p {
      wid = p.wid + 1;
      last_use = p.last_use ++ none ∷ [];
      persist = p.persist ++ is_persist ∷ [];
    },
  )

  unfoldable pub public_bit : Bool → LivenessPass → ℕ × LivenessPass
  unfolding emit
  public_bit v p = elim (cached v p.consts) [
    | some c ↦ (c, p)
    | none ↦ let (id, p') = emit false p in (id, record p' { consts = cache v id p'.consts })
  ]

  unfoldable pub and_gate : ℕ → ℕ → LivenessPass → ℕ × LivenessPass
  unfolding emit
  and_gate i0 i1 p =
      let (id, p') = emit true p in
      (
        id,
        record p' {
          last_use = set (set p'.last_use i0 (some p.gi)) i1 (some p.gi);
          gi = p.gi + 1;
          ai = p.ai + 1;
        },
      )

  unfoldable pub xor_gate : ℕ → ℕ → LivenessPass → ℕ × LivenessPass
  unfolding emit
  xor_gate i0 i1 p =
      let (id, p') = emit false p in
      (
        id,
        record p' { last_use = set (set p'.last_use i0 (some p.gi)) i1 (some p.gi); gi = p.gi + 1 },
      )

  unfoldable pub not_gate : ℕ → LivenessPass → ℕ × LivenessPass
  unfolding emit
  not_gate i p =
      let (id, p') = emit false p in
      (id, record p' { last_use = set p'.last_use i (some p.gi); gi = p.gi + 1 })

  abbrev pub ops : PassOps LivenessPass
  ops = record { op_public = public_bit; op_and = and_gate; op_xor = xor_gate; op_not = not_gate }

  unfoldable pub commit : List ℕ → LivenessPass → RunState
  unfolding pin
  commit out_ids p = record p.s {
    num_wires = p.wid;
    num_ands = p.ai;
    last_use = p.last_use;
    persist = pin p.wid out_ids p.persist;
  }
