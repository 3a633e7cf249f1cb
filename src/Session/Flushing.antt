-- ===== src/Session/Flushing.antt =====
-- flush_ and checkpoint of emp-ag2pc/session/ag2pc_session.h.
use emp_ag2pc.Prelude.{
  ℕ, ◌≡◌, refl, sym, ap, ◌∙◌, subst, Bool, true, false, ◌||◌, ◌&&◌, List, [], Option, some, mem,
  >>=-inv, guard-inv, some_inj, Bool-cases, inl, inr, arith,
}
use emp_ag2pc.Block.{BlockOps}
use emp_ag2pc.Wires.{SecureWires}
use emp_ag2pc.Circuit.{Gate, BooleanProgram}
use emp_ag2pc.Session.Recorder.{is_pending, drop_chunk}
use emp_ag2pc.Session.Recording.{Reached, Recording, Reached-Recording}
use emp_ag2pc.Session.Carried.{is_carried, load_all, gather_carried}
use emp_ag2pc.Session.State.{Session, none_stale, any_pending, flush, checkpoint}
use emp_ag2pc.Session.Keeps.{
  outputs_of-mem, is_carried-load_all, is_carried-prune, Flushed, stale-free, not-pending,
}
use emp_ag2pc.Flush.Plan.{FlushPlan, is_local, outputs_of, plan_flush, find_needed}
use emp_ag2pc.Flush.Value.{driven-is_local}

plan-output_ids :
    (materialized : ℕ → Bool) (gates : List Gate) (ids : List ℕ) (plan : FlushPlan)
    → plan_flush materialized gates ids ≡ some plan
    → plan.output_ids ≡ outputs_of gates ids []
unfolding plan_flush
plan-output_ids materialized gates ids plan h =
    let (needed, e, f) = >>=-inv (find_needed gates ids) _ h in
    ap (λ p. p.output_ids) (sym (some_inj _ _ f))

module _ ⦃B : BlockOps⦄ (is_eval : Bool)
    (run_program : BooleanProgram → SecureWires → Option SecureWires) where
  kept-carried :
      (ids : List ℕ) (s : Session) (result : SecureWires) (outs : List ℕ) (id : ℕ)
      → Recording s.ctx
      → none_stale ids s ≡ true
      → outs ≡ outputs_of s.ctx.chunk_gates ids []
      → mem id ids ≡ true
      → is_carried (load_all is_eval result 0 outs s.carried) id ≡ true
  kept-carried ids s result outs id r fresh o h =
      is_carried-load_all is_eval result 0 outs s.carried id
      ∙ elim (Bool-cases (is_pending id s.ctx)) [
        | inl p ↦
            let l : is_local s.ctx.chunk_gates id ≡ true =
              sym (r.pends id ∙ driven-is_local id s.ctx.chunk_gates) ∙ p in
            let m : mem id outs ≡ true =
              ap (mem id) o ∙ outputs_of-mem s.ctx.chunk_gates ids [] id h l refl in
            rw m refl
        | inr p ↦ carried_already (is_pending id s.ctx) _ _ p (stale-free ids s id fresh h)
      ]
    where
      carried_already : (a b c : Bool) → a ≡ false → a || b ≡ true → c || b ≡ true
      carried_already a b c e h = ground arith

  -- For every session whose chunk calls of the recorder can leave, and every engine: when flush_
  -- returns, the chunk is dropped, every keep id is carried, and so is every id that was.
  pub flush-Flushed :
      (keep_ids : List ℕ) (s t : Session)
      → Reached s.ctx
      → flush is_eval run_program keep_ids s ≡ some t
      → Flushed keep_ids s t
  unfolding flush
  flush-Flushed keep_ids s t r h =
      let (fresh, g) = guard-inv (none_stale keep_ids s) _ h in
      elim (Bool-cases (any_pending keep_ids s)) [
        | inr e ↦ subst (Flushed keep_ids s) (some_inj _ t (rw e at g)) (record {
          chunk_dropped = refl;
          kept = λ id m.
              carried_only (is_pending id s.ctx) _ (not-pending keep_ids s id e m)
                (stale-free keep_ids s id fresh m);
          still = λ id c. c;
        })
        | inl e ↦
            let (plan, p, g1) =
              >>=-inv (plan_flush (is_carried s.carried) s.ctx.chunk_gates keep_ids) _
                (rw e at g) in
            let (ok, g2) = guard-inv plan.ok _ g1 in
            let (inputs, i, g3) = >>=-inv (gather_carried is_eval plan.input_ids s.carried) _ g2 in
            let (result, q, g4) = >>=-inv (run_program plan.prog inputs) _ g3 in
            subst (Flushed keep_ids s) (some_inj _ t g4) (record {
              chunk_dropped = refl;
              kept = λ id m.
                  kept-carried keep_ids s result plan.output_ids id (Reached-Recording r) fresh
                    (plan-output_ids _ _ keep_ids plan p) m;
              still = λ id c.
                  is_carried-load_all is_eval result 0 plan.output_ids s.carried id
                  ∙ rw c (ground arith);
            })
      ]
    where
      carried_only : (a b : Bool) → a ≡ false → a || b ≡ true → b ≡ true
      carried_only a b e h = ground arith

  -- For every session whose chunk calls of the recorder can leave, and every engine: when checkpoint
  -- returns, the chunk is dropped, and the carried ids are exactly the keep ids.
  pub checkpoint-is_carried :
      (keep_ids : List ℕ) (s t : Session)
      → Reached s.ctx
      → checkpoint is_eval run_program keep_ids s ≡ some t
      → (t.ctx ≡ drop_chunk s.ctx) × ((id : ℕ) → is_carried t.carried id ≡ mem id keep_ids)
  unfolding checkpoint
  checkpoint-is_carried keep_ids s t r h =
      let (u, f, g) = >>=-inv (flush is_eval run_program keep_ids s) _ h in
      let w = flush-Flushed keep_ids s u r f in
      subst
        (λ t. (t.ctx ≡ drop_chunk s.ctx) × ((id : ℕ) → is_carried t.carried id ≡ mem id keep_ids))
        (some_inj _ t g)
        (
          w.chunk_dropped,
          λ id.
              is_carried-prune (λ i. mem i keep_ids) u.carried id
              ∙ exact (mem id keep_ids) _ (w.kept id),
        )
    where
      exact : (a b : Bool) → (a ≡ true → b ≡ true) → a && b ≡ a
      exact true b h = h refl
      exact false b h = refl
