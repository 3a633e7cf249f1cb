-- ===== src/Circuit.antt =====
-- The circuit IR of emp-tool as emp-ag2pc/backend/canonical.h, emp-ag2pc/backend/flush_plan.h and
-- emp-ag2pc/session/ag2pc_ctx.h use it, and the check of canonical.h.
use emp_ag2pc.Prelude.{
  get_or, map, ◌^^◌, ℕ, ◌+◌, Bool, true, false, ◌&&◌, List, [], ◌∷◌, ◌==◌, leb, if◌then◌else◌,
}

pub data Op : Type 0 where
  const0 : Op
  const1 : Op
  and : Op
  xor : Op
  not : Op

pub record Gate : Type 0 where
  pub in0 : ℕ
  pub in1 : ℕ
  pub out : ℕ
  pub op : Op

pub record BooleanProgram : Type 0 where
  pub num_inputs : ℕ
  pub num_wires : ℕ
  pub gates : List Gate
  pub outputs : List ℕ

abbrev pub is_const_op : Bool → Op → Bool
is_const_op false const0 = true
is_const_op true const1 = true
is_const_op _ _ = false

abbrev pub const_op : Bool → Op
const_op false = const0
const_op true = const1

-- The ids that a gate reads, the second operand first; those of a constant are dummies.
abbrev pub op_reads : Op → ℕ → ℕ → List ℕ
op_reads const0 a b = []
op_reads const1 a b = []
op_reads not a b = a ∷ []
op_reads and a b = b ∷ a ∷ []
op_reads xor a b = b ∷ a ∷ []

abbrev pub reads : Gate → List ℕ
reads g = op_reads g.op g.in0 g.in1

-- How many gates are the constant `v`.
abbrev pub const_count : Bool → List Gate → ℕ
const_count v [] = 0
const_count v (g ∷ gs) = (if is_const_op v g.op then 1 else 0) + const_count v gs

-- The loop's test: gate `i` of the rest drives wire `id + i`.
abbrev pub numbered_from : ℕ → List Gate → Bool
numbered_from id [] = true
numbered_from id (g ∷ gs) = g.out == id && numbered_from (id + 1) gs

-- Whether the check returns; it ends the process otherwise. `valid` is validate_program of
-- emp-tool.
unfoldable pub require_record_canonical : (BooleanProgram → Bool) → BooleanProgram → Bool
require_record_canonical valid p =
    valid p
    && numbered_from p.num_inputs p.gates
    && leb (const_count false p.gates) 1
    && leb (const_count true p.gates) 1

-- What the circuits of emp-tool compute: the values of the wires after the gates.
abbrev pub eval_op : Op → Bool → Bool → Bool
eval_op const0 a b = false
eval_op const1 a b = true
eval_op and a b = a && b
eval_op xor a b = a ^^ b
eval_op not a b = if a then false else true

abbrev pub put : (ℕ → Bool) → ℕ → Bool → ℕ → Bool
put env k b v = if k == v then b else env v

abbrev pub eval_gate : Gate → (ℕ → Bool) → Bool
eval_gate g env = eval_op g.op (env g.in0) (env g.in1)

unfoldable pub eval_gates : List Gate → (ℕ → Bool) → ℕ → Bool
eval_gates [] env = env
eval_gates (g ∷ gs) env = eval_gates gs (put env g.out (eval_gate g env))

unfoldable pub eval_program : BooleanProgram → List Bool → List Bool
unfolding eval_gates
eval_program p ins = map (eval_gates p.gates (λ v. get_or ins v false)) p.outputs
