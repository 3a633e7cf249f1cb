-- ===== src/Engine/Program.antt =====
-- run_program of emp-ag2pc/backend/engine.h: its checks, then the run over the stored program.
use emp_ag2pc.Prelude.{ℕ, Bool, if◌then◌else◌, Option, ◌==◌, ◌>>◌, guard}
use emp_ag2pc.Block.{BlockOps}
use emp_ag2pc.Wires.{SecureWires, size}
use emp_ag2pc.Circuit.{BooleanProgram, require_record_canonical}
use emp_ag2pc.Protocol.Defs.{check_secure_wires}

module _ ⦃B : BlockOps⦄ where
  -- `valid` is validate_program of emp-tool, and `run_source` is AG2PCEngine::run_source over the
  -- replay of the program, which gives `none` where it ends the process by `error`.
  unfoldable pub run_program :
      (BooleanProgram → Bool)
      → (SecureWires → BooleanProgram → Option SecureWires)
      → ℕ
      → BooleanProgram
      → SecureWires
      → Option SecureWires
  run_program valid run_source party prog inputs = do
    guard (require_record_canonical valid prog)
    guard (check_secure_wires inputs party)
    guard (size inputs == prog.num_inputs)
    run_source inputs prog

  abbrev pub party_of : Bool → ℕ
  party_of is_eval = if is_eval then 2 else 1
