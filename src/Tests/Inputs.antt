-- ===== src/Tests/Inputs.antt =====
-- Runs on the carried wires of Tests/Carried, flushes of its chunk, and a batch of a public bit and
-- of one of the garbler's, at the evaluator.
use emp_ag2pc.Prelude.{
  ℕ, ◌≡◌, ◌↔◌, refl, Bool, true, false, List, [], ◌∷◌, Option, none, some, length, length-replicate,
  arith,
}
use emp_ag2pc.Wires.{SecureWires, size}
use emp_ag2pc.Pass.Source.{Source, ret}
use emp_ag2pc.Protocol.Defs.{public_wires}
use emp_ag2pc.Session.Recorder.{empty, alloc_id, reserve_ids}
use emp_ag2pc.Session.Carried.{gather_carried}
use emp_ag2pc.Session.State.{any_pending, Session, flush}
use emp_ag2pc.Session.Arguments.{empty_bundle, append_args, run_circuit, run_body, run_artifact}
use emp_ag2pc.Session.Batch.{InputBatch, new_batch, add, finish}
use emp_ag2pc.Session.Roundtrip.{WellFormed}
use emp_ag2pc.Session.Fresh.{Materialized}
use emp_ag2pc.Session.Runs.{append_args-gather_carried, unflushed_stops, run_artifact-Materialized}
use emp_ag2pc.Session.Errors.{Flushable, Executes, flush_iff}
use emp_ag2pc.Engine.Program.{run_program}
use emp_ag2pc.Circuit.{BooleanProgram}
use emp_ag2pc.Session.Finish.{Finished}
use emp_ag2pc.Session.Adding.{Adding, opened, added, finish-Finished}
use emp_ag2pc.Tests.Bits.{two_bits}
use emp_ag2pc.Tests.HalfGate.{zero_key}
use emp_ag2pc.Tests.Session.{plan, recorder-Reached}
use emp_ag2pc.Tests.Carried.{two_wires, one_wire, before, engine}

append_args-gather_carried_example :
    append_args true before.carried empty_bundle ((1 ∷ []) ∷ (0 ∷ 1 ∷ []) ∷ [])
    ≡ gather_carried true (1 ∷ 0 ∷ 1 ∷ []) before.carried
append_args-gather_carried_example =
    append_args-gather_carried true before.carried ((1 ∷ []) ∷ (0 ∷ 1 ∷ []) ∷ [])

abbrev live : SecureWires → Source → Option SecureWires
live ins body = some one_wire

-- The id 5 is pending.
unflushed_stops_example :
    (run_circuit true engine plan.prog ((0 ∷ []) ∷ (5 ∷ []) ∷ []) before ≡ none)
    × (run_body true live (ret []) ((0 ∷ []) ∷ (5 ∷ []) ∷ []) before ≡ none)
    × (run_artifact true engine plan.prog 1 ((0 ∷ []) ∷ (5 ∷ []) ∷ []) before ≡ none)
unflushed_stops_example =
    unflushed_stops true engine live plan.prog (ret []) 1 ((0 ∷ []) ∷ (5 ∷ []) ∷ []) before 5 refl
      refl

two_gathered : gather_carried true (0 ∷ 1 ∷ []) before.carried ≡ some two_wires
unfolding gather_carried
two_gathered = refl

one_wire-WellFormed : WellFormed true one_wire
one_wire-WellFormed = record { bundles = refl; label0s = refl; eval_labels = refl }

run_artifact-Materialized_example :
    (m : Materialized true one_wire before) × (run_artifact true engine plan.prog 1
        ((0 ∷ []) ∷ (1 ∷ []) ∷ [])
        before
      ≡ some (6 ∷ [], m.after))
run_artifact-Materialized_example =
    run_artifact-Materialized true engine plan.prog ((0 ∷ []) ∷ (1 ∷ []) ∷ []) before two_wires
      one_wire two_gathered refl refl one_wire-WellFormed (omega arith)

abbrev accepts_all : BooleanProgram → Bool
accepts_all prog = true

abbrev replay : SecureWires → BooleanProgram → Option SecureWires
replay ins prog = some one_wire

flush_iff_example :
    ((t : Session) × (flush true (run_program accepts_all replay 2) (4 ∷ []) before ≡ some t)) ↔ (
      Flushable (4 ∷ []) before
      × (any_pending (4 ∷ []) before ≡ true → Executes true accepts_all replay (4 ∷ []) before))
flush_iff_example = flush_iff true accepts_all replay (4 ∷ []) before recorder-Reached

abbrev blank : Session
blank = record { ctx = empty; carried = [] }

abbrev given : ℕ → Session
given n = record { ctx = record empty { next_id = n }; carried = [] }

abbrev public_batch : InputBatch
public_batch = record {
  owners = 0 ∷ [];
  bits = (true ∷ false ∷ []) ∷ [];
  ids = (0 ∷ 1 ∷ []) ∷ [];
  finished = false;
}

abbrev batch : InputBatch
batch = record {
  owners = 0 ∷ 1 ∷ [];
  bits = (true ∷ false ∷ []) ∷ (false ∷ []) ∷ [];
  ids = (0 ∷ 1 ∷ []) ∷ (2 ∷ []) ∷ [];
  finished = false;
}

public_added :
    add 0 (true ∷ false ∷ []) new_batch (given 0) ≡ some (0 ∷ 1 ∷ [], (public_batch, given 2))
unfolding add reserve_ids alloc_id empty
public_added = refl

secret_added : add 1 (false ∷ []) public_batch (given 2) ≡ some (2 ∷ [], (batch, given 3))
unfolding add reserve_ids alloc_id empty
secret_added = refl

batch-Adding : Adding batch (given 3)
batch-Adding =
    added 1 (false ∷ []) (2 ∷ []) secret_added
      (added 0 (true ∷ false ∷ []) (0 ∷ 1 ∷ []) public_added (opened (given 0)))

abbrev constants : List Bool → SecureWires
constants bits = public_wires 2 zero_key bits

constants-WellFormed :
    (bits : List Bool) → WellFormed true (constants bits) × (size (constants bits) ≡ length bits)
unfolding public_wires
constants-WellFormed bits = (
  record {
    bundles = length-replicate (length bits) _;
    label0s = refl;
    eval_labels = length-replicate (length bits) _;
  },
  refl,
)

abbrev input_phase : List ℕ → List (List Bool) → Option (List SecureWires)
input_phase owners bits = some (one_wire ∷ [])

finish-Finished_example :
    (f : Finished true constants input_phase batch (one_wire ∷ []) (given 3).carried)
    × (c : InputBatch) × (finish true constants input_phase batch (given 3)
        ≡ some (c, record (given 3) { carried = f.after }))
    × ((t : Session) → finish true constants input_phase c t ≡ none)
    × ((owner : ℕ) (bits : List Bool) (t : Session) → add owner bits c t ≡ none)
finish-Finished_example =
    finish-Finished true constants input_phase (one_wire ∷ []) batch-Adding (refl, (refl, tt))
      constants-WellFormed refl ((one_wire-WellFormed, refl), tt)
