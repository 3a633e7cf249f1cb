-- ===== src/Session/Recorder.antt =====
-- AG2PCCtx of emp-ag2pc/session/ag2pc_ctx.h, which records gates into the current chunk. Where the
-- source ends the process by `error`, the result is `none`.
use emp_ag2pc.Prelude.{
  ℕ, zero, suc, ◌+◌, ◌-◌, ◌^◌, Bool, List, [], ◌∷◌, ◌++◌, Option, none, some, mem, ltb, ◌==◌,
  if◌then◌else◌, ◌>>=◌, ◌>>◌, guard,
}
use emp_ag2pc.Circuit.{Op, and, xor, not, Gate, const_op}

pub record Recorder : Type 0 where
  pub next_id : ℕ
  pub chunk_gates : List Gate
  pub pending : List ℕ
  pub const0_wire : Option ℕ
  pub const1_wire : Option ℕ

unfoldable pub empty : Recorder
empty = record {
  next_id = 0;
  chunk_gates = [];
  pending = [];
  const0_wire = none;
  const1_wire = none;
}

-- UINT32_MAX
abbrev pub max_id : ℕ
max_id = 2 ^ 32 - 1

unfoldable pub alloc_id : Recorder → Option (ℕ × Recorder)
alloc_id r =
    if r.next_id == max_id then none else some (r.next_id, record r { next_id = r.next_id + 1 })

abbrev pub is_allocated : ℕ → Recorder → Bool
is_allocated a r = ltb a r.next_id

-- `chunk_gates_.push_back(…); pending_.insert(o)`
abbrev pub push : ℕ → ℕ → ℕ → Op → Recorder → Recorder
push a b o op r = record r {
  chunk_gates = r.chunk_gates ++ record { in0 = a; in1 = b; out = o; op = op } ∷ [];
  pending = o ∷ r.pending;
}

unfoldable pub record_gate : ℕ → ℕ → Op → Recorder → Option (ℕ × Recorder)
record_gate a b op r = do x ← alloc_id r; some (x.0, push a b x.0 op x.1)

abbrev pub const_wire : Bool → Recorder → Option ℕ
const_wire v r = if v then r.const1_wire else r.const0_wire

abbrev pub set_const_wire : Bool → ℕ → Recorder → Recorder
set_const_wire v o r = record r {
  const0_wire = if v then r.const0_wire else some o;
  const1_wire = if v then some o else r.const1_wire;
}

unfoldable pub public_bit : Bool → Recorder → Option (ℕ × Recorder)
public_bit v r = elim (const_wire v r) [
  | some w ↦ some (w, r)
  | none ↦ do x ← record_gate 0 0 (const_op v) r; some (x.0, set_const_wire v x.0 x.1)
]

unfoldable pub and_gate : ℕ → ℕ → Recorder → Option (ℕ × Recorder)
and_gate a b r = do guard (is_allocated a r); guard (is_allocated b r); record_gate a b and r

unfoldable pub xor_gate : ℕ → ℕ → Recorder → Option (ℕ × Recorder)
xor_gate a b r = do guard (is_allocated a r); guard (is_allocated b r); record_gate a b xor r

unfoldable pub not_gate : ℕ → Recorder → Option (ℕ × Recorder)
not_gate a r = do guard (is_allocated a r); record_gate a 0 not r

unfoldable pub reserve_ids : ℕ → Recorder → Option (List ℕ × Recorder)
reserve_ids zero r = some ([], r)
reserve_ids (suc n) r = do x ← alloc_id r; xs ← reserve_ids n x.1; some (x.0 ∷ xs.0, xs.1)

abbrev pub is_pending : ℕ → Recorder → Bool
is_pending id r = mem id r.pending

unfoldable pub drop_chunk : Recorder → Recorder
drop_chunk r = record r { chunk_gates = []; pending = []; const0_wire = none; const1_wire = none }
