-- ===== src/Session/Arguments.antt =====
-- The arguments and the results of the runs of emp-ag2pc/session/ag2pc_session.h: append_arg_,
-- wrap_output_ and the three kinds of run, with append_bundle of emp-ag2pc/backend/engine.h.
use emp_ag2pc.Prelude.{
  ℕ, Bool, true, false, ◌&&◌, List, [], ◌∷◌, ◌++◌, Option, some, length, ◌==◌, if◌then◌else◌, ◌>>=◌,
  ◌>>◌, guard,
}
use emp_ag2pc.Block.{BlockOps}
use emp_ag2pc.Wires.{SecureWires, size}
use emp_ag2pc.Circuit.{BooleanProgram}
use emp_ag2pc.Pass.Source.{Source}
use emp_ag2pc.Session.Carried.{Carried, is_carried, gather_carried}
use emp_ag2pc.Session.State.{Session, materialize}

abbrev pub is_empty : {A : Type 0} → List A → Bool
is_empty [] = true
is_empty (x ∷ xs) = false

module _ ⦃B : BlockOps⦄ where
  -- `SecureWires bundle;`
  abbrev pub empty_bundle : SecureWires
  empty_bundle = record { lambda = []; wire_bundle = []; label0 = []; eval_label = [] }

  unfoldable pub append_bundle : SecureWires → SecureWires → SecureWires
  append_bundle dst s = record {
    lambda = dst.lambda ++ s.lambda;
    wire_bundle = dst.wire_bundle ++ s.wire_bundle;
    label0 = if is_empty s.label0 then dst.label0 else dst.label0 ++ s.label0;
    eval_label = if is_empty s.eval_label then dst.eval_label else dst.eval_label ++ s.eval_label;
  }

  -- No id of an argument is unflushed.
  abbrev pub all_carried : Carried → List ℕ → Bool
  all_carried m [] = true
  all_carried m (id ∷ ids) = is_carried m id && all_carried m ids

  module _ (is_eval : Bool) where
    unfoldable pub append_arg : Carried → SecureWires → List ℕ → Option SecureWires
    append_arg m bundle ids = do
      guard (all_carried m ids)
      s ← gather_carried is_eval ids m
      some (append_bundle bundle s)

    -- `(append_arg_(bundle, args), ...)`
    unfoldable pub append_args : Carried → SecureWires → List (List ℕ) → Option SecureWires
    append_args m bundle [] = some bundle
    append_args m bundle (ids ∷ rest) = do b ← append_arg m bundle ids; append_args m b rest

    -- A stored circuit on materialized arguments. `run_program` is AG2PCEngine::run_program.
    unfoldable pub run_circuit :
        (BooleanProgram → SecureWires → Option SecureWires)
        → BooleanProgram
        → List (List ℕ)
        → Session
        → Option (List ℕ × Session)
    run_circuit run_program prog args s = do
      bundle ← append_args s.carried empty_bundle args
      guard (size bundle == prog.num_inputs)
      out ← run_program prog bundle
      materialize is_eval out s

    -- A live body, which is a source. `run_source` is AG2PCEngine::run_source.
    unfoldable pub run_body :
        (SecureWires → Source → Option SecureWires)
        → Source
        → List (List ℕ)
        → Session
        → Option (List ℕ × Session)
    run_body run_source body args s = do
      bundle ← append_args s.carried empty_bundle args
      out ← run_source bundle body
      materialize is_eval out s

    -- A raw program, of `width` output wires.
    unfoldable pub run_artifact :
        (BooleanProgram → SecureWires → Option SecureWires)
        → BooleanProgram
        → ℕ
        → List (List ℕ)
        → Session
        → Option (List ℕ × Session)
    run_artifact run_program prog width args s = do
      bundle ← append_args s.carried empty_bundle args
      guard (size bundle == prog.num_inputs)
      guard (width == length prog.outputs)
      out ← run_program prog bundle
      materialize is_eval out s
