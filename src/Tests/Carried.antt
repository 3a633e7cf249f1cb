-- ===== src/Tests/Carried.antt =====
-- A session of the evaluator with two carried wires, whose chunk is that of Tests/Session, and an
-- engine whose runs give one wire.
use emp_ag2pc.Prelude.{ℕ, ◌≡◌, refl, Bool, true, false, [], ◌∷◌, Option, some, mem}
use emp_ag2pc.Wires.{AShareBundle, SecureWires}
use emp_ag2pc.Circuit.{BooleanProgram}
use emp_ag2pc.Session.Recorder.{drop_chunk}
use emp_ag2pc.Session.Carried.{
  CarriedState, is_carried, carry_load, load_all, gather_carried, prune,
}
use emp_ag2pc.Session.State.{Session, flush, checkpoint}
use emp_ag2pc.Session.Roundtrip.{GivesBack, materialize-gather}
use emp_ag2pc.Session.Keeps.{Flushed}
use emp_ag2pc.Session.Flushing.{flush-Flushed, checkpoint-is_carried}
use emp_ag2pc.Flush.Plan.{
  plan_flush, find_needed, search_from, visit, note_input, note_inputs, compact, outputs_of,
}
use emp_ag2pc.Tests.Bits.{Bits, two_bits}
use emp_ag2pc.Tests.HalfGate.{zero_key, one_key, share_e}
use emp_ag2pc.Tests.Session.{recorder, recorder-Reached}

abbrev pub share : AShareBundle
share = share_e true zero_key one_key

abbrev pub two_wires : SecureWires
two_wires = record {
  lambda = true ∷ false ∷ [];
  wire_bundle = share ∷ share ∷ [];
  label0 = [];
  eval_label = zero_key ∷ one_key ∷ [];
}

abbrev pub one_wire : SecureWires
one_wire = record {
  lambda = true ∷ [];
  wire_bundle = share ∷ [];
  label0 = [];
  eval_label = one_key ∷ [];
}

abbrev pub state_of : Bool → Bits → CarriedState
state_of l e = record { bundle = share; lambda = l; label0 = zero_key; evlbl = e }

abbrev pub before : Session
before = record {
  ctx = recorder;
  carried = (0, state_of true zero_key) ∷ (1, state_of false one_key) ∷ [];
}

abbrev pub engine : BooleanProgram → SecureWires → Option SecureWires
engine prog ins = some one_wire

abbrev after : Session
after = record {
  ctx = drop_chunk recorder;
  carried =
      (4, state_of true one_key) ∷ (0, state_of true zero_key) ∷ (1, state_of false one_key) ∷ [];
}

-- The id 4 is kept.
flushed : flush true engine (4 ∷ []) before ≡ some after
unfolding flush plan_flush find_needed search_from visit note_input note_inputs compact outputs_of
    gather_carried load_all carry_load
flushed = refl

flush-Flushed_example : Flushed (4 ∷ []) before after
flush-Flushed_example = flush-Flushed true engine (4 ∷ []) before after recorder-Reached flushed

abbrev pruned : Session
pruned = record { ctx = drop_chunk recorder; carried = (4, state_of true one_key) ∷ [] }

checked : checkpoint true engine (4 ∷ []) before ≡ some pruned
unfolding checkpoint flush plan_flush find_needed search_from visit note_input note_inputs compact
    outputs_of gather_carried load_all carry_load prune
checked = refl

checkpoint-is_carried_example :
    (pruned.ctx ≡ drop_chunk recorder) × ((id : ℕ) → is_carried pruned.carried id ≡ mem id (4 ∷ []))
checkpoint-is_carried_example =
    checkpoint-is_carried true engine (4 ∷ []) before pruned recorder-Reached checked

materialize-gather_example : GivesBack true (7 ∷ 8 ∷ []) two_wires []
materialize-gather_example =
    materialize-gather true (7 ∷ 8 ∷ []) two_wires []
      (record { bundles = refl; label0s = refl; eval_labels = refl }) (refl, (refl, tt)) refl
