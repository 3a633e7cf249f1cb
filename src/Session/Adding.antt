-- ===== src/Session/Adding.antt =====
-- A batch of inputs of emp-ag2pc/session/ag2pc_session.h from `input_batch` to `finish`.
use emp_ag2pc.Prelude.{
  guard-inv, some_inj, concat-snoc, ℕ, zero, suc, ◌+◌, ◌⊎◌, ◌<◌, ◌≤◌, ◌≡◌, refl, sym, ap, subst,
  ◌∙◌, Bool, true, false, not, List, [], ◌∷◌, ◌++◌, concat, Option, none, some, length, mem,
  Distinct, All, ◌==◌, Bool-cases, inl, inr, arith, ◌>>=◌, ◌>>◌, guard, >>=-inv,
}
use emp_ag2pc.Block.{BlockOps}
use emp_ag2pc.Wires.{SecureWires, size}
use emp_ag2pc.Session.Recorder.{Recorder, max_id, alloc_id, reserve_ids}
use emp_ag2pc.Session.Carried.{Carried}
use emp_ag2pc.Session.State.{Session}
use emp_ag2pc.Session.Roundtrip.{WellFormed}
use emp_ag2pc.Session.Fresh.{
  ids_from, length-ids_from, mem-ids_from_lt, ids_from-Distinct, mem-ids_from_ge,
}
use emp_ag2pc.Session.Parts.{secrets, mem-append, append-Distinct}
use emp_ag2pc.Session.Batch.{InputBatch, new_batch, add, finish, batch_finish}
use emp_ag2pc.Session.Finish.{is_owner, Widths, Fits, Finished, batch_finish-Finished}

alloc_id-inv :
    (r : Recorder) (x : ℕ × Recorder)
    → alloc_id r ≡ some x
    → x ≡ (r.next_id, record r { next_id = r.next_id + 1 })
unfolding alloc_id
alloc_id-inv r x h = elim (Bool-cases (r.next_id == max_id)) [
  | inl e ↦ absurd (let k : none ≡ some x = rw e at h in cc)
  | inr e ↦ sym (some_inj _ x (rw e at h))
]

reserve_ids-inv :
    (n : ℕ) (r : Recorder) (x : List ℕ × Recorder)
    → reserve_ids n r ≡ some x
    → x ≡ (ids_from r.next_id n, record r { next_id = r.next_id + n })
unfolding reserve_ids
reserve_ids-inv zero r x h =
    let e : r.next_id ≡ r.next_id + 0 = omega arith in
    sym (some_inj _ x h) ∙ ap (λ k. ([], record r { next_id = k })) e
reserve_ids-inv (suc n) r x h =
    let (y, a, g) = >>=-inv (alloc_id r) _ h in
    let (z, b, f) = >>=-inv (reserve_ids n y.1) _ g in
    let p = alloc_id-inv r y a in
    let q = reserve_ids-inv n y.1 z b in
    let k : r.next_id + 1 + n ≡ r.next_id + suc n = omega arith in
    sym (some_inj _ x f)
    ∙ ap (λ w. (y.0 ∷ w.0, w.1)) q
    ∙ ap (λ w. (w.0 ∷ ids_from w.1.next_id n, record w.1 { next_id = w.1.next_id + n })) p
    ∙ ap (λ k. (r.next_id ∷ ids_from (r.next_id + 1) n, record r { next_id = k })) k

module _ ⦃B : BlockOps⦄ where
  -- The batches that calls of `add` leave, the session going on in between: the number of ids that
  -- its recorder gave out never falls.
  pub data Adding : InputBatch → Session → Type 0 where
    opened : (s : Session) → Adding new_batch s
    meanwhile :
        {b : InputBatch} (s t : Session) → s.ctx.next_id ≤ t.ctx.next_id → Adding b s → Adding b t
    added :
        {b c : InputBatch} {s t : Session} (owner : ℕ) (bits : List Bool) (ids : List ℕ)
        → add owner bits b s ≡ some (ids, (c, t))
        → Adding b s
        → Adding c t

  -- Open, with as many ids as bits for each value, and distinct ids that the recorder gave out.
  pub record Open (b : InputBatch) (s : Session) : Type 0 where
    pub unfinished : b.finished ≡ false
    pub widths : Widths b.owners b.bits b.ids
    pub distinct : Distinct (concat b.ids)
    pub below : (id : ℕ) → s.ctx.next_id ≤ id → mem id (concat b.ids) ≡ false

  Widths-snoc :
      (os : List ℕ) (bs : List (List Bool)) (is : List (List ℕ)) (o : ℕ) (b : List Bool)
      (i : List ℕ)
      → Widths os bs is
      → length b ≡ length i
      → Widths (os ++ o ∷ []) (bs ++ b ∷ []) (is ++ i ∷ [])
  Widths-snoc [] [] [] o b i w l = (l, tt)
  Widths-snoc [] [] (j ∷ is) o b i w l = absurd w
  Widths-snoc [] (c ∷ bs) is o b i w l = absurd w
  Widths-snoc (p ∷ os) [] is o b i w l = absurd w
  Widths-snoc (p ∷ os) (c ∷ bs) [] o b i w l = absurd w
  Widths-snoc (p ∷ os) (c ∷ bs) (j ∷ is) o b i (e, w) l = (e, Widths-snoc os bs is o b i w l)

  add-Open :
      (b : InputBatch) (s : Session) (owner : ℕ) (bits : List Bool)
      (x : List ℕ × (InputBatch × Session))
      → Open b s
      → add owner bits b s ≡ some x
      → Open x.1.0 x.1.1
  unfolding add
  add-Open b s owner bits x o h =
      let (u, g) = guard-inv (not b.finished) _ h in
      let (y, r, f) = >>=-inv (reserve_ids (length bits) s.ctx) _ g in
      let e = reserve_ids-inv (length bits) s.ctx y r in
      subst (λ z. Open z.1.0 z.1.1)
        (ap
            (λ z. (
              z.0,
              (
                record b {
                  owners = b.owners ++ owner ∷ [];
                  bits = b.bits ++ bits ∷ [];
                  ids = b.ids ++ z.0 ∷ [];
                },
                record s { ctx = z.1 },
              ),
            ))
            (sym e)
          ∙ some_inj _ x f)
        (record {
          unfinished = o.unfinished;
          widths =
              Widths-snoc b.owners b.bits b.ids owner bits _ o.widths
                (sym (length-ids_from s.ctx.next_id (length bits)));
          distinct = subst Distinct (sym (concat-snoc b.ids _)) (
              append-Distinct (concat b.ids) _ o.distinct
                (ids_from-Distinct s.ctx.next_id (length bits))
                (λ id m. elim (old_or_new id) [
                  | inl l ↦ mem-ids_from_lt s.ctx.next_id (length bits) id l
                  | inr l ↦ absurd (let k = o.below id l in cc)
                ]));
          below = λ id l.
              ap (mem id) (concat-snoc b.ids _)
              ∙ mem-append id (concat b.ids) _
              ∙ rw (o.below id (omega arith), mem-ids_from_ge s.ctx.next_id (length bits) id l)
                  refl;
        })
    where
      old_or_new : (id : ℕ) → (id < s.ctx.next_id) ⊎ (s.ctx.next_id ≤ id)
      old_or_new id = omega arith

  pub Adding-Open : {b : InputBatch} {s : Session} → Adding b s → Open b s
  Adding-Open (opened s) = record {
    unfinished = refl;
    widths = tt;
    distinct = tt;
    below = λ id l. refl;
  }
  Adding-Open (meanwhile s t l a) =
      let o = Adding-Open a in
      record {
        unfinished = o.unfinished;
        widths = o.widths;
        distinct = o.distinct;
        below = λ id k. o.below id (omega arith);
      }
  Adding-Open (added {b} {c} {s} {t} owner bits ids h a) =
      add-Open b s owner bits (ids, (c, t)) (Adding-Open a) h

  -- A batch that calls of `add` left, the session going on in between, whose owners are public, the
  -- garbler or the evaluator, where the phases of the protocol give bundles of this party's kind of
  -- labels and of as many wires: finish returns, each public value's ids gather to its constants, each
  -- secret value's ids to its bundle of the one input phase for all of them, in order, no other id's
  -- state changes, and a second finish or an add after it fails.
  pub finish-Finished :
      (is_eval : Bool) (public_wires : List Bool → SecureWires)
      (process_inputs : List ℕ → List (List Bool) → Option (List SecureWires)) {b : InputBatch}
      {s : Session} (subs : List SecureWires)
      → Adding b s
      → All (λ o. is_owner o ≡ true) b.owners
      → ((bits : List Bool)
          → WellFormed is_eval (public_wires bits) × (size (public_wires bits) ≡ length bits))
      → process_inputs (secrets b.owners b.owners) (secrets b.owners b.bits) ≡ some subs
      → Fits is_eval (secrets b.owners b.ids) subs
      → (f : Finished is_eval public_wires process_inputs b subs s.carried) × (c : InputBatch)
        × (finish is_eval public_wires process_inputs b s
            ≡ some (c, record s { carried = f.after }))
        × ((t : Session) → finish is_eval public_wires process_inputs c t ≡ none)
        × ((owner : ℕ) (bits : List Bool) (t : Session) → add owner bits c t ≡ none)
  unfolding finish add
  finish-Finished is_eval public_wires process_inputs {b} {s} subs a owned f q fits =
      let o = Adding-Open a in
      let d =
        batch_finish-Finished is_eval public_wires process_inputs b subs s.carried o.widths owned
          o.distinct f q fits in
      (
        d,
        record b { finished = true },
        ap
              (λ x. do
                guard (not x)
                m ← batch_finish is_eval public_wires process_inputs b s.carried
                closed m)
              o.unfinished
            ∙ ap (λ m. m >>= closed) d.returns,
        λ t. refl,
        λ owner bits t. refl,
      )
    where
      closed : Carried → Option (InputBatch × Session)
      closed m = some (record b { finished = true }, record s { carried = m })
