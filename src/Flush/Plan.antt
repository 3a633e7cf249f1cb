-- ===== src/Flush/Plan.antt =====
-- plan_flush of emp-ag2pc/backend/flush_plan.h.
use emp_ag2pc.Prelude.{
  ℕ, zero, suc, ◌+◌, ◌*◌, Bool, true, false, List, [], ◌∷◌, ◌++◌, Option, none, some, get_or, set,
  length, replicate, mem, ◌==◌, if◌then◌else◌, ◌||◌, ◌>>=◌, map,
}
use emp_ag2pc.Circuit.{Op, const0, const1, and, xor, not, Gate, BooleanProgram, reads}

pub record FlushPlan : Type 0 where
  pub prog : BooleanProgram
  pub input_ids : List ℕ
  pub output_ids : List ℕ
  pub ok : Bool

-- `wire_to_gate`: the index, from `i` on, of the last gate that drives `w`.
abbrev pub gate_of : ℕ → List Gate → ℕ → Option ℕ
gate_of i [] w = none
gate_of i (g ∷ gs) w = elim (gate_of (i + 1) gs w) [
  | some j ↦ some j
  | none ↦ if g.out == w then some i else none
]

abbrev pub is_local : List Gate → ℕ → Bool
is_local gates w = elim (gate_of 0 gates w) [ none ↦ false | some i ↦ true ]

abbrev pub no_gate : Gate
no_gate = record { in0 = 0; in1 = 0; out = 0; op = const0 }

-- What the gate at an index reads.
abbrev pub reads_at : List Gate → ℕ → List ℕ
reads_at gates i = reads (get_or gates i no_gate)

-- One turn of the loop for the popped id `w`: the rest of the stack, the last pushed first, and
-- the mark of each gate.
unfoldable pub visit : List Gate → ℕ → List ℕ → List Bool → List ℕ × List Bool
visit gates w stack needed = elim (gate_of 0 gates w) [
  | none ↦ (stack, needed)
  | some gi ↦
      if get_or needed gi false
      then (stack, needed)
      else (reads_at gates gi ++ stack, set needed gi true)
]

-- The loop, on fuel.
unfoldable pub search_from : ℕ → List Gate → List ℕ → List Bool → Option (List Bool)
search_from n gates [] needed = some needed
search_from zero gates (w ∷ stack) needed = none
search_from (suc n) gates (w ∷ stack) needed =
    let s = visit gates w stack needed in search_from n gates s.0 s.1

-- The keep ids that the chunk drives, the last first.
abbrev pub roots : List Gate → List ℕ → List ℕ → List ℕ
roots gates [] stack = stack
roots gates (id ∷ ids) stack = roots gates ids (if is_local gates id then id ∷ stack else stack)

-- Which gates the keep ids need: each turn pops one id, and marks a gate when it pushes two.
unfoldable pub find_needed : List Gate → List ℕ → Option (List Bool)
find_needed gates keep_ids =
    let stack = roots gates keep_ids [] in
    search_from (length stack + 2 * length gates) gates stack (replicate (length gates) false)

-- `remap`, the ids written last first; `operator[]` gives 0 for an id that is not there.
abbrev pub Remap : Type 0
Remap = List (ℕ × ℕ)

abbrev pub renamed : Remap → ℕ → ℕ
renamed [] v = 0
renamed ((k, c) ∷ r) v = if k == v then c else renamed r v

abbrev pub has : Remap → ℕ → Bool
has [] v = false
has ((k, c) ∷ r) v = k == v || has r v

pub record Inputs : Type 0 where
  pub remap : Remap
  pub input_ids : List ℕ
  pub ok : Bool

module _ (is_materialized : ℕ → Bool) where
  unfoldable pub note_input : List Gate → ℕ → Inputs → Inputs
  note_input gates v p =
      if is_local gates v || has p.remap v
      then p
      else if is_materialized v
      then record p { remap = (v, length p.input_ids) ∷ p.remap; input_ids = p.input_ids ++ v ∷ [] }
      else record p { ok = false }

  -- The ids of a list, the last first.
  abbrev pub note_all : List Gate → List ℕ → Inputs → Inputs
  note_all gates [] p = p
  note_all gates (v ∷ vs) p = note_input gates v (note_all gates vs p)

  -- The operands of a gate, the first operand first.
  abbrev pub note_operands : List Gate → Gate → Inputs → Inputs
  note_operands gates g p = note_all gates (reads g) p

  -- The loop over the needed gates; `needed` holds the marks of the gates that are left.
  unfoldable pub note_inputs : List Gate → List Gate → List Bool → Inputs → Inputs
  note_inputs gates [] needed p = p
  note_inputs gates (g ∷ gs) [] p = p
  note_inputs gates (g ∷ gs) (b ∷ bs) p =
      note_inputs gates gs bs (if b then note_operands gates g p else p)

-- The operands of a gate of the plan; an operand that the gate does not have is 0.
abbrev pub rename_op : Remap → Op → ℕ → ℕ → ℕ × ℕ
rename_op r const0 a b = (0, 0)
rename_op r const1 a b = (0, 0)
rename_op r not a b = (renamed r a, 0)
rename_op r and a b = (renamed r a, renamed r b)
rename_op r xor a b = (renamed r a, renamed r b)

-- The needed gates in order, with ids from `cid` on, and the map that they leave. A gate's own id
-- is in the map before its operands are looked up.
unfoldable pub compact : List Gate → List Bool → ℕ → Remap → List Gate × Remap
compact [] needed cid r = ([], r)
compact (g ∷ gs) [] cid r = ([], r)
compact (g ∷ gs) (false ∷ bs) cid r = compact gs bs cid r
compact (g ∷ gs) (true ∷ bs) cid r =
    let r' = (g.out, cid) ∷ r in
    let ops = rename_op r' g.op g.in0 g.in1 in
    let rest = compact gs bs (cid + 1) r' in
    (record { in0 = ops.0; in1 = ops.1; out = cid; op = g.op } ∷ rest.0, rest.1)

-- The keep ids that the chunk drives, each once, in their order.
unfoldable pub outputs_of : List Gate → List ℕ → List ℕ → List ℕ
outputs_of gates [] emitted = []
outputs_of gates (id ∷ ids) emitted =
    let skipped = outputs_of gates ids emitted in
    let taken = id ∷ outputs_of gates ids (id ∷ emitted) in
    if is_local gates id then (if mem id emitted then skipped else taken) else skipped

-- `none` only when the search runs out of fuel, which it never does.
unfoldable pub plan_flush : (ℕ → Bool) → List Gate → List ℕ → Option FlushPlan
plan_flush is_materialized gates keep_ids = do
  needed ← find_needed gates keep_ids
  let ins =
      note_inputs is_materialized gates gates needed
        (record { remap = []; input_ids = []; ok = true })
  let num_inputs = length ins.input_ids
  let body = compact gates needed num_inputs ins.remap
  let out_ids = outputs_of gates keep_ids []
  some (record {
    prog = record {
      num_inputs = num_inputs;
      num_wires = num_inputs + length body.0;
      gates = body.0;
      outputs = map (renamed body.1) out_ids;
    };
    input_ids = ins.input_ids;
    output_ids = out_ids;
    ok = ins.ok;
  })
