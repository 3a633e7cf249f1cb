-- ===== src/Tests/Session.antt =====
-- A recorder that reserved two ids, and recorded an AND, the constant 1, a XOR and a NOT that
-- nothing reads.
use emp_ag2pc.Prelude.{
  ℕ, ◌≡◌, refl, Bool, true, false, List, [], ◌∷◌, none, some, ◌==◌, get_or, map, ◌↔◌, length,
}
use emp_ag2pc.Circuit.{
  Gate, const1, and, xor, not, eval_gates, eval_program, require_record_canonical,
}
use emp_ag2pc.Session.Recorder.{
  Recorder, empty, alloc_id, record_gate, public_bit, and_gate, xor_gate, not_gate, reserve_ids,
}
use emp_ag2pc.Session.Recording.{
  Reached, new, call, by_public, by_and, by_xor, by_not, by_reserve, Recording, Reached-Recording,
}
use emp_ag2pc.Flush.Plan.{
  FlushPlan, plan_flush, find_needed, search_from, visit, note_input, note_inputs, compact,
  outputs_of,
}
use emp_ag2pc.Flush.Needed.{Needs, find_needed_iff}
use emp_ag2pc.Flush.Canonical.{plan_flush-record_canonical}
use emp_ag2pc.Flush.Value.{plan_flush-value}

abbrev pub reserved : Recorder
reserved = record {
  next_id = 2;
  chunk_gates = [];
  pending = [];
  const0_wire = none;
  const1_wire = none;
}

abbrev pub gates : List Gate
gates =
    record { in0 = 0; in1 = 1; out = 2; op = and }
    ∷ record { in0 = 0; in1 = 0; out = 3; op = const1 }
    ∷ record { in0 = 2; in1 = 3; out = 4; op = xor }
    ∷ record { in0 = 1; in1 = 0; out = 5; op = not }
    ∷ []

abbrev pub recorder : Recorder
recorder = record {
  next_id = 6;
  chunk_gates = gates;
  pending = 5 ∷ 4 ∷ 3 ∷ 2 ∷ [];
  const0_wire = none;
  const1_wire = some 3;
}

pub recorder-Reached : Reached recorder
unfolding empty alloc_id record_gate public_bit and_gate xor_gate not_gate reserve_ids
recorder-Reached =
    call
      (call
        (call (call (call new (by_reserve {q = reserved} 2 (0 ∷ 1 ∷ []) refl)) (by_and 0 1 2 refl))
          (by_public true 3 refl))
        (by_xor 2 3 4 refl))
      (by_not 1 5 refl)

Reached-Recording_example : Recording recorder
Reached-Recording_example = Reached-Recording recorder-Reached

abbrev pub plan : FlushPlan
plan = record {
  prog = record {
    num_inputs = 2;
    num_wires = 5;
    gates =
        record { in0 = 0; in1 = 1; out = 2; op = and }
        ∷ record { in0 = 0; in1 = 0; out = 3; op = const1 }
        ∷ record { in0 = 2; in1 = 3; out = 4; op = xor }
        ∷ [];
    outputs = 4 ∷ [];
  };
  input_ids = 0 ∷ 1 ∷ [];
  output_ids = 4 ∷ [];
  ok = true;
}

-- Every id that the session reserved is materialized.
abbrev pub materialized : ℕ → Bool
materialized v = elim (v == 0) [ true ↦ true | false ↦ v == 1 ]

planned_example : plan_flush materialized gates (4 ∷ 4 ∷ []) ≡ some plan
unfolding plan_flush find_needed search_from visit note_input note_inputs compact outputs_of
planned_example = refl

abbrev values : ℕ → Bool
values v = v == 0

plan_flush-value_example :
    eval_program plan.prog (map values plan.input_ids)
    ≡ map (eval_gates gates values) plan.output_ids
plan_flush-value_example =
    plan_flush-value recorder-Reached materialized (4 ∷ 4 ∷ []) values plan planned_example refl

plan_flush-record_canonical_example :
    (p : FlushPlan) × (plan_flush materialized gates (4 ∷ []) ≡ some p)
    × (require_record_canonical (λ q. true) p.prog ≡ true)
plan_flush-record_canonical_example =
    plan_flush-record_canonical recorder-Reached materialized (4 ∷ []) (λ p. true)

find_needed_iff_example :
    (out : List Bool) × (find_needed gates (4 ∷ []) ≡ some out)
    × (length out ≡ 4)
    × ((i : ℕ) → (get_or out i false ≡ true) ↔ Needs gates (4 ∷ []) i)
find_needed_iff_example = find_needed_iff gates (4 ∷ [])
