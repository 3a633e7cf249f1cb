-- ===== src/Pass/Source.antt =====
-- A gate-stream source (emp-ag2pc/backend/engine.h) and what a pass offers it.
-- A source calls the operations of the pass and goes on with the wire ids that it gets back. It
-- may be a replay of a stored program or of a live body: both are such a tree.
use emp_ag2pc.Prelude.{ℕ, Bool, if◌then◌else◌, List, Option, none, some}

pub data Source : Type 0 where
  ret : List ℕ → Source
  public_bit : Bool → (ℕ → Source) → Source
  and_gate : ℕ → ℕ → (ℕ → Source) → Source
  xor_gate : ℕ → ℕ → (ℕ → Source) → Source
  not_gate : ℕ → (ℕ → Source) → Source

-- The BooleanContext operations of a pass with state `S`: the wire id, and the new state.
pub record PassOps (S : Type 0) : Type 0 where
  pub op_public : Bool → S → ℕ × S
  pub op_and : ℕ → ℕ → S → ℕ × S
  pub op_xor : ℕ → ℕ → S → ℕ × S
  pub op_not : ℕ → S → ℕ × S

module _ {S : Type 0} (ops : PassOps S) where
  -- `source(pass)`
  unfoldable pub run_source : Source → S → List ℕ × S
  run_source (ret outs) s = (outs, s)
  run_source (public_bit v k) s = let (w, s') = ops.op_public v s in run_source (k w) s'
  run_source (and_gate a b k) s = let (w, s') = ops.op_and a b s in run_source (k w) s'
  run_source (xor_gate a b k) s = let (w, s') = ops.op_xor a b s in run_source (k w) s'
  run_source (not_gate a k) s = let (w, s') = ops.op_not a s in run_source (k w) s'

-- `c0_` and `c1_`: the two constant wires, each emitted once. `none` is -1.
pub record Consts : Type 0 where
  pub c0 : Option ℕ
  pub c1 : Option ℕ

abbrev pub no_consts : Consts
no_consts = record { c0 = none; c1 = none }

abbrev pub cached : Bool → Consts → Option ℕ
cached v c = if v then c.c1 else c.c0

abbrev pub cache : Bool → ℕ → Consts → Consts
cache v id c = if v then record c { c1 = some id } else record c { c0 = some id }
