-- ===== src/RunState.antt =====
-- emp-ag2pc/backend/run_state.h: the scratch state of one run. The arrays are lists; a slot or a
-- gate index that the source marks by -1 is `none`.
use emp_ag2pc.Prelude.{ℕ, ◌+◌, Bool, false, List, Option, none, some, get_or}
use emp_ag2pc.Block.{BlockOps, Block, zero_block}
use emp_ag2pc.Wires.{AShareBundle, zero_bundle}

-- `phys[w]`. Slot 0 stands for a slot that is not assigned; no run reads one.
abbrev pub slot_of : List (Option ℕ) → ℕ → ℕ
slot_of phys w = elim (get_or phys w none) [ none ↦ 0 | some i ↦ i ]

module _ ⦃B : BlockOps⦄ where
  -- MITCCRH of emp-tool after `setS`: `hash i` is the hash under the i-th key, and a call of
  -- `hash_cir<1, n>` spends one key on its n blocks.
  pub record Mitccrh : Type 0 where
    pub hash : ℕ → Block → Block
    pub gid : ℕ

  abbrev pub hash_cir : Mitccrh → (Block → Block) × Mitccrh
  hash_cir m = (m.hash m.gid, record m { gid = m.gid + 1 })

  pub record RunState : Type 0 where
    pub party : ℕ
    pub delta : Block
    pub num_inputs : ℕ
    pub num_ands : ℕ
    pub num_wires : ℕ
    pub num_slots : ℕ
    pub phys : List (Option ℕ)
    pub last_use : List (Option ℕ)
    pub persist : List Bool
    pub wire_slot : List AShareBundle
    pub mask_input : List Bool
    pub label_slot : List Block
    pub eval_slot : List Block
    pub rep_a : List AShareBundle
    pub rep_b : List AShareBundle
    pub sigma : List AShareBundle
    pub m1_t : List Block
    pub lambda_and : List Bool
    pub mitc : Mitccrh

  abbrev pub wslot : RunState → ℕ → AShareBundle
  wslot s w = get_or s.wire_slot (slot_of s.phys w) zero_bundle

  abbrev pub minp : RunState → ℕ → Bool
  minp s w = get_or s.mask_input (slot_of s.phys w) false

  abbrev pub lbl : RunState → ℕ → Block
  lbl s w = get_or s.label_slot (slot_of s.phys w) zero_block

  abbrev pub evl : RunState → ℕ → Block
  evl s w = get_or s.eval_slot (slot_of s.phys w) zero_block
