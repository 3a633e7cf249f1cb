-- ===== src/Session/Fresh.antt =====
-- reserve_ids of emp-ag2pc/session/ag2pc_ctx.h and materialize_ of
-- emp-ag2pc/session/ag2pc_session.h: a bundle gets new ids.
use emp_ag2pc.Prelude.{
  ℕ, zero, suc, ◌+◌, ◌<◌, ◌≤◌, ◌≡◌, refl, ap, Bool, false, List, [], ◌∷◌, some, length, mem,
  Distinct, ◌==◌, arith,
}
use emp_ag2pc.Block.{BlockOps}
use emp_ag2pc.Wires.{SecureWires, size}
use emp_ag2pc.Session.Recorder.{Recorder, max_id, alloc_id, reserve_ids}
use emp_ag2pc.Session.Carried.{find, gather_carried}
use emp_ag2pc.Session.State.{Session, materialize}
use emp_ag2pc.Session.Roundtrip.{WellFormed, materialize-gather}

-- `n` ids from `a` on.
abbrev pub ids_from : ℕ → ℕ → List ℕ
ids_from a zero = []
ids_from a (suc n) = a ∷ ids_from (a + 1) n

pub length-ids_from : (a n : ℕ) → length (ids_from a n) ≡ n
length-ids_from a zero = refl
length-ids_from a (suc n) = ap suc (length-ids_from (a + 1) n)

pub mem-ids_from_lt : (a n id : ℕ) → id < a → mem id (ids_from a n) ≡ false
mem-ids_from_lt a zero id h = refl
mem-ids_from_lt a (suc n) id h =
    let e : (id == a) ≡ false = ground arith in rw e (mem-ids_from_lt (a + 1) n id (omega arith))

pub mem-ids_from_ge : (a n id : ℕ) → a + n ≤ id → mem id (ids_from a n) ≡ false
mem-ids_from_ge a zero id h = refl
mem-ids_from_ge a (suc n) id h =
    let e : (id == a) ≡ false = ground arith in rw e (mem-ids_from_ge (a + 1) n id (omega arith))

pub ids_from-Distinct : (a n : ℕ) → Distinct (ids_from a n)
ids_from-Distinct a zero = tt
ids_from-Distinct a (suc n) =
    (mem-ids_from_lt (a + 1) n a (omega arith), ids_from-Distinct (a + 1) n)

pub reserve_ids-ids_from :
    (n : ℕ) (r : Recorder)
    → r.next_id + n ≤ max_id
    → reserve_ids n r ≡ some (ids_from r.next_id n, record r { next_id = r.next_id + n })
unfolding reserve_ids alloc_id
reserve_ids-ids_from zero r h =
    let e : r.next_id ≡ r.next_id + 0 = omega arith in
    ap (λ k. some ([], record r { next_id = k })) e
reserve_ids-ids_from (suc n) r h =
    let e : (r.next_id == max_id) ≡ false = ground arith in
    let k : r.next_id + 1 + n ≡ r.next_id + suc n = omega arith in
    rw (e, reserve_ids-ids_from n (record r { next_id = r.next_id + 1 }) (omega arith), k) refl

module _ ⦃B : BlockOps⦄ where
  -- A bundle that was given new ids: these are the next ones, gathering them gives the bundle back,
  -- and no older id's state changes.
  pub record Materialized (is_eval : Bool) (out : SecureWires) (s : Session) : Type 0 where
    pub after : Session
    pub returns : materialize is_eval out s ≡ some (ids_from s.ctx.next_id (size out), after)
    pub reserved : after.ctx ≡ record s.ctx { next_id = s.ctx.next_id + size out }
    pub gathered :
        gather_carried is_eval (ids_from s.ctx.next_id (size out)) after.carried ≡ some out
    pub others : (id : ℕ) → id < s.ctx.next_id → find id after.carried ≡ find id s.carried

  pub materialize-Materialized :
      (is_eval : Bool) (out : SecureWires) (s : Session)
      → WellFormed is_eval out
      → s.ctx.next_id + size out ≤ max_id
      → Materialized is_eval out s
  unfolding materialize
  materialize-Materialized is_eval out s w l =
      let ids = ids_from s.ctx.next_id (size out) in
      let g =
        materialize-gather is_eval ids out s.carried w (ids_from-Distinct s.ctx.next_id (size out))
          (omega (arith, length-ids_from s.ctx.next_id (size out))) in
      record {
        after = record {
          ctx = record s.ctx { next_id = s.ctx.next_id + size out };
          carried = g.after;
        };
        returns = rw (reserve_ids-ids_from (size out) s.ctx l, g.returns) refl;
        reserved = refl;
        gathered = g.gathered;
        others = λ id h. g.others id (mem-ids_from_lt s.ctx.next_id (size out) id h);
      }
