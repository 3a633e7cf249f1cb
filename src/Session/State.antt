-- ===== src/Session/State.antt =====
-- AG2PCSession of emp-ag2pc/session/ag2pc_session.h: the recorder with the carried states. A value is
-- the list of its wire ids. The runs of the engine and the phases of the protocol are arguments:
-- `run_program` is AG2PCEngine::run_program and `decode` AG2PCProtocol::decode.
use emp_ag2pc.Prelude.{
  ℕ, Bool, true, false, not, ◌&&◌, ◌||◌, List, [], ◌∷◌, ◌++◌, Option, none, some, length, mem, ◌==◌,
  leb, if◌then◌else◌, ◌>>=◌, ◌>>◌, guard,
}
use emp_ag2pc.Block.{BlockOps}
use emp_ag2pc.Wires.{SecureWires, size}
use emp_ag2pc.Circuit.{BooleanProgram}
use emp_ag2pc.Session.Recorder.{Recorder, is_pending, reserve_ids, drop_chunk}
use emp_ag2pc.Session.Carried.{
  Carried, is_carried, load_all, materialize_into, gather_carried, prune,
}
use emp_ag2pc.Flush.Plan.{plan_flush}

module _ ⦃B : BlockOps⦄ where
  pub record Session : Type 0 where
    pub ctx : Recorder
    pub carried : Carried

  -- No keep id is stale.
  abbrev pub none_stale : List ℕ → Session → Bool
  none_stale [] s = true
  none_stale (id ∷ ids) s = (is_pending id s.ctx || is_carried s.carried id) && none_stale ids s

  abbrev pub any_pending : List ℕ → Session → Bool
  any_pending [] s = false
  any_pending (id ∷ ids) s = is_pending id s.ctx || any_pending ids s

  -- `materialize_`: new ids for the wires of a bundle.
  unfoldable pub materialize : Bool → SecureWires → Session → Option (List ℕ × Session)
  materialize is_eval w s = do
    x ← reserve_ids (size w) s.ctx
    m ← materialize_into is_eval x.0 w s.carried
    some (x.0, record { ctx = x.1; carried = m })

  module _ (is_eval : Bool) (run_program : BooleanProgram → SecureWires → Option SecureWires) where
    unfoldable pub flush : List ℕ → Session → Option Session
    flush keep_ids s = do
      guard (none_stale keep_ids s)
      if not (any_pending keep_ids s) then some (record s { ctx = drop_chunk s.ctx }) else (do
        plan ← plan_flush (is_carried s.carried) s.ctx.chunk_gates keep_ids
        guard plan.ok
        inputs ← gather_carried is_eval plan.input_ids s.carried
        result ← run_program plan.prog inputs
        some (record {
          ctx = drop_chunk s.ctx;
          carried = load_all is_eval result 0 plan.output_ids s.carried;
        }))

    -- Flush, then only the keep ids stay.
    unfoldable pub checkpoint : List ℕ → Session → Option Session
    checkpoint keep_ids s = do
      t ← flush keep_ids s
      some (record t { carried = prune (λ id. mem id keep_ids) t.carried })

    -- The bits of `v` at a recipient, `none` where this party gets nothing.
    unfoldable pub reveal :
        (SecureWires → ℕ → Option (List Bool))
        → List ℕ
        → ℕ
        → List ℕ
        → Session
        → Option (Option (List Bool) × Session)
    reveal decode v recipient keep s = do
      guard (leb recipient 2)
      t ← flush (v ++ keep) s
      bundle ← gather_carried is_eval v t.carried
      bits ← decode bundle recipient
      some (if length bits == length v then some bits else none, t)
