-- ===== src/Session/Batch.antt =====
-- The inputs of emp-ag2pc/session/ag2pc_session.h: authenticate_, input, and the class InputBatch
-- with batch_finish_. The phases of the protocol are arguments: `public_wires` and `process_inputs`
-- are those of AG2PCProtocol at this party, with what the peer sends.
use emp_ag2pc.Prelude.{
  ℕ, Bool, true, false, not, ◌||◌, List, [], ◌∷◌, ◌++◌, Option, none, some, length, ◌==◌,
  if◌then◌else◌, ◌>>=◌, ◌>>◌, guard,
}
use emp_ag2pc.Block.{BlockOps}
use emp_ag2pc.Wires.{SecureWires}
use emp_ag2pc.Protocol.Defs.{public_party, alice, bob}
use emp_ag2pc.Session.Recorder.{reserve_ids}
use emp_ag2pc.Session.Carried.{Carried, materialize_into}
use emp_ag2pc.Session.State.{Session, materialize}

pub record InputBatch : Type 0 where
  pub owners : List ℕ
  pub bits : List (List Bool)
  pub ids : List (List ℕ)
  pub finished : Bool

-- `input_batch()`
abbrev pub new_batch : InputBatch
new_batch = record { owners = []; bits = []; ids = []; finished = false }

module _ ⦃B : BlockOps⦄ where
  -- The wires of one secret input, or of each of several.
  abbrev pub first : List SecureWires → Option SecureWires
  first [] = none
  first (w ∷ ws) = some w

  -- `add`: the ids that are reserved for the value, the batch and the session.
  unfoldable pub add :
      ℕ → List Bool → InputBatch → Session → Option (List ℕ × (InputBatch × Session))
  add owner bits b s = do
    guard (not b.finished)
    x ← reserve_ids (length bits) s.ctx
    some (
      x.0,
      (
        record b {
          owners = b.owners ++ owner ∷ [];
          bits = b.bits ++ bits ∷ [];
          ids = b.ids ++ x.0 ∷ [];
        },
        record s { ctx = x.1 },
      ),
    )

  -- The secret inputs of a batch: `sec_owners`, `sec_bits` and the ids of `sec_add`.
  pub record Secret : Type 0 where
    pub owners : List ℕ
    pub bits : List (List Bool)
    pub ids : List (List ℕ)

  abbrev pub no_secret : Secret
  no_secret = record { owners = []; bits = []; ids = [] }

  -- The last loop: the bundle of each secret value goes to its ids.
  unfoldable pub materialize_each :
      Bool → List (List ℕ) → List SecureWires → Carried → Option Carried
  materialize_each is_eval (i ∷ is) (w ∷ ws) m = do
    m' ← materialize_into is_eval i w m
    materialize_each is_eval is ws m'
  materialize_each is_eval [] ws m = some m
  materialize_each is_eval (i ∷ is) [] m = none

  module _ (is_eval : Bool) (public_wires : List Bool → SecureWires)
      (process_inputs : List ℕ → List (List Bool) → Option (List SecureWires)) where
    unfoldable pub authenticate : ℕ → List Bool → Option SecureWires
    authenticate owner bits = if owner == public_party then some (public_wires bits) else (do
      guard (owner == alice || owner == bob)
      subs ← process_inputs (owner ∷ []) (bits ∷ [])
      first subs)

    unfoldable pub input : ℕ → List Bool → Session → Option (List ℕ × Session)
    input owner bits s = do w ← authenticate owner bits; materialize is_eval w s

    -- The first loop of batch_finish_: public values are materialized, the others collected.
    unfoldable pub sort_inputs :
        List ℕ → List (List Bool) → List (List ℕ) → Secret → Carried → Option (Secret × Carried)
    sort_inputs (o ∷ os) (b ∷ bs) (i ∷ is) sec m = elim (o == public_party) [
      | true ↦ do m' ← materialize_into is_eval i (public_wires b) m; sort_inputs os bs is sec m'
      | false ↦ do
        guard (o == alice || o == bob)
        sort_inputs os bs is
            (record {
              owners = sec.owners ++ o ∷ [];
              bits = sec.bits ++ b ∷ [];
              ids = sec.ids ++ i ∷ [];
            })
            m
    ]
    sort_inputs _ _ _ sec m = some (sec, m)

    unfoldable pub batch_finish : InputBatch → Carried → Option Carried
    batch_finish b m = do
      x ← sort_inputs b.owners b.bits b.ids no_secret m
      if length x.0.owners == 0 then some x.1 else (do
        subs ← process_inputs x.0.owners x.0.bits
        materialize_each is_eval x.0.ids subs x.1)

    unfoldable pub finish : InputBatch → Session → Option (InputBatch × Session)
    finish b s = do
      guard (not b.finished)
      m ← batch_finish b s.carried
      some (record b { finished = true }, record s { carried = m })
