-- ===== src/Session/Errors.antt =====
-- When flush_ of emp-ag2pc/session/ag2pc_session.h ends in an error.
use emp_ag2pc.Prelude.{
  ℕ, zero, suc, ◌<◌, ◌≡◌, ◌↔◌, refl, sym, ap, ◌∙◌, Bool, true, false, ◌||◌, List, [], ◌∷◌, Option,
  none, some, get_or, length, mem, ◌==◌, ==_iff, >>=-inv, guard-inv, some_inj, Bool-cases, inl, inr,
  arith, is_some, is_some-inv, subst,
}
use emp_ag2pc.Block.{BlockOps}
use emp_ag2pc.Wires.{SecureWires, size}
use emp_ag2pc.Circuit.{Gate, BooleanProgram, require_record_canonical}
use emp_ag2pc.Protocol.Defs.{check_secure_wires, no_wires}
use emp_ag2pc.Engine.Program.{run_program, party_of}
use emp_ag2pc.Session.Recording.{Reached}
use emp_ag2pc.Flush.Canonical.{plan_flush-record_canonical, plan_flush-num_inputs}
use emp_ag2pc.Session.Recorder.{is_pending}
use emp_ag2pc.Session.Carried.{
  CarriedState, Carried, find, has_state, is_carried, carry_store, gather_carried,
}
use emp_ag2pc.Session.State.{Session, none_stale, any_pending, flush}
use emp_ag2pc.Session.Keeps.{stale-free}
use emp_ag2pc.Flush.Plan.{FlushPlan, is_local, reads_at, plan_flush}
use emp_ag2pc.Flush.Needed.{Needs, find_needed_iff}
use emp_ag2pc.Flush.Stale.{all_materialized, note_inputs-Found, note_inputs-ok_iff}

in_range : (bs : List Bool) (k : ℕ) → get_or bs k false ≡ true → k < length bs
in_range [] k h = cc
in_range (b ∷ bs) zero h = omega arith
in_range (b ∷ bs) (suc k) h = omega (arith, in_range bs k h)

module _ ⦃B : BlockOps⦄ where
  -- Nothing that a flush for these keep ids reads is stale.
  pub record Flushable (keep_ids : List ℕ) (s : Session) : Type 0 where
    pub keeps :
        (id : ℕ) → mem id keep_ids ≡ true → is_pending id s.ctx || is_carried s.carried id ≡ true
    pub operands :
        any_pending keep_ids s ≡ true
        → (k v : ℕ) → Needs s.ctx.chunk_gates keep_ids k
        → mem v (reads_at s.ctx.chunk_gates k) ≡ true
        → is_local s.ctx.chunk_gates v || is_carried s.carried v ≡ true

  gather_returns :
      (is_eval : Bool) (ids : List ℕ) (m : Carried)
      → all_materialized (is_carried m) [] ids ≡ true
      → (w : SecureWires) × (gather_carried is_eval ids m ≡ some w)
  unfolding gather_carried
  gather_returns is_eval [] m h = (_, refl)
  gather_returns is_eval (id ∷ ids) m h =
      let (w, e) = gather_returns is_eval ids m (ground arith) in
      let (c, f) = is_some-inv (find id m) (carried_some (find id m) (ground arith)) in
      (carry_store is_eval c w, rw (f, e) refl)
    where
      carried_some : (o : Option CarriedState) → has_state o ≡ true → is_some o ≡ true
      carried_some none h = cc
      carried_some (some c) h = refl

  none_stale-all :
      (ids : List ℕ) (s : Session)
      → ((id : ℕ) → mem id ids ≡ true → is_pending id s.ctx || is_carried s.carried id ≡ true)
      → none_stale ids s ≡ true
  none_stale-all [] s h = refl
  none_stale-all (k ∷ ids) s h =
      let r =
        none_stale-all ids s (λ id m. h id (let m' : mem id ids ≡ true = m in ground arith)) in
      let a = h k (let e : (k == k) ≡ true = ground arith in rw e refl) in ground arith

  -- What plan_flush gives for a chunk: its `ok`, exactly when no needed operand is stale, and input
  -- ids that are all materialized.
  record Plans (is_materialized : ℕ → Bool) (gates : List Gate) (keep_ids : List ℕ)
      (plan : FlushPlan) : Type 0 where
    returns : plan_flush is_materialized gates keep_ids ≡ some plan
    ok_iff : (plan.ok ≡ true) ↔ (
        (k v : ℕ)
        → Needs gates keep_ids k
        → mem v (reads_at gates k) ≡ true
        → is_local gates v || is_materialized v ≡ true)
    listed : all_materialized is_materialized gates plan.input_ids ≡ true

  planned :
      (is_materialized : ℕ → Bool) (gates : List Gate) (keep_ids : List ℕ)
      → (plan : FlushPlan) × Plans is_materialized gates keep_ids plan
  unfolding plan_flush
  planned is_materialized gates keep_ids =
      let (marks, e, l, m) = find_needed_iff gates keep_ids in
      let (to, back) = note_inputs-ok_iff is_materialized gates marks in
      let f =
        note_inputs-Found is_materialized gates gates marks
          (record { remap = []; input_ids = []; ok = true })
          (record { mapped = λ v h. cc; listed = refl }) in
      let (plan, r) = is_some-inv (plan_flush is_materialized gates keep_ids) (rw e refl) in
      (
        plan,
        subst (Plans is_materialized gates keep_ids) (some_inj _ plan (rw e at r)) (record {
          returns = rw e refl;
          ok_iff = (
            λ o k v n r. let g = (m k).1 n in to o k v (omega (arith, l, in_range marks k g)) g r,
            λ h. back (λ k v k_lt g r. h k v ((m k).0 g) r),
          );
          listed = f.listed;
        }),
      )

  no_wires-check : (b : Bool) → check_secure_wires no_wires (party_of b) ≡ true
  unfolding check_secure_wires
  no_wires-check true = refl
  no_wires-check false = refl

  -- What a gathering gives is a bundle of the party, with a wire for each id.
  gather-check :
      (is_eval : Bool) (ids : List ℕ) (m : Carried) (w : SecureWires)
      → gather_carried is_eval ids m ≡ some w
      → (size w ≡ length ids) × (check_secure_wires w (party_of is_eval) ≡ true)
  unfolding gather_carried check_secure_wires
  gather-check is_eval [] m w h =
      subst (λ z. (size z ≡ 0) × (check_secure_wires z (party_of is_eval) ≡ true)) (some_inj _ w h)
        (refl, no_wires-check is_eval)
  gather-check is_eval (id ∷ ids) m w h =
      let (c, f, g) = >>=-inv (find id m) _ h in
      let (v, r, e) = >>=-inv (gather_carried is_eval ids m) _ g in
      let (n, k) = gather-check is_eval ids m v r in
      subst (λ z. (size z ≡ length (id ∷ ids)) × (check_secure_wires z (party_of is_eval) ≡ true))
        (some_inj _ w e) (ap suc n, one_more is_eval c v k)
    where
      one_more :
          (b : Bool) (c : CarriedState) (v : SecureWires)
          → check_secure_wires v (party_of b) ≡ true
          → check_secure_wires (carry_store b c v) (party_of b) ≡ true
      one_more true c v k = ground arith
      one_more false c v k = ground arith

  module _ (is_eval : Bool) (valid : BooleanProgram → Bool)
      (run_source : SecureWires → BooleanProgram → Option SecureWires) where
    -- The chunk's plan for these keep ids has a program that validate_program accepts, and the engine's
    -- run of it on the carried inputs gives a bundle.
    pub record Executes (keep_ids : List ℕ) (s : Session) : Type 0 where
      pub plan : FlushPlan
      pub inputs : SecureWires
      pub output : SecureWires
      pub planned : plan_flush (is_carried s.carried) s.ctx.chunk_gates keep_ids ≡ some plan
      pub accepted : valid plan.prog ≡ true
      pub gathered : gather_carried is_eval plan.input_ids s.carried ≡ some inputs
      pub result : run_source inputs plan.prog ≡ some output

    plan-canonical :
        (keep_ids : List ℕ) (s : Session) (plan : FlushPlan)
        → Reached s.ctx
        → plan_flush (is_carried s.carried) s.ctx.chunk_gates keep_ids ≡ some plan
        → require_record_canonical valid plan.prog ≡ valid plan.prog
    plan-canonical keep_ids s plan reached e =
        let (p, f, c) = plan_flush-record_canonical reached (is_carried s.carried) keep_ids valid in
        subst (λ z. require_record_canonical valid z.prog ≡ valid z.prog)
          (some_inj p plan (sym f ∙ e)) c

    -- What a flush that returns has done.
    flush-inv :
        (keep_ids : List ℕ) (s : Session) {t : Session}
        → Reached s.ctx
        → any_pending keep_ids s ≡ true
        → flush is_eval (run_program valid run_source (party_of is_eval)) keep_ids s ≡ some t
        → (x : Executes keep_ids s) × (x.plan.ok ≡ true)
    unfolding flush run_program
    flush-inv keep_ids s reached a h =
        let (fresh, g) = guard-inv (none_stale keep_ids s) _ h in
        let (plan, e, g1) =
          >>=-inv (plan_flush (is_carried s.carried) s.ctx.chunk_gates keep_ids) _ (rw a at g) in
        let (ok, g2) = guard-inv plan.ok _ g1 in
        let (ins, r, g3) = >>=-inv (gather_carried is_eval plan.input_ids s.carried) _ g2 in
        let (out, x, g4) =
          >>=-inv (run_program valid run_source (party_of is_eval) plan.prog ins) _ g3 in
        let (canon, x1) = guard-inv (require_record_canonical valid plan.prog) _ x in
        let (c, x2) = guard-inv (check_secure_wires ins (party_of is_eval)) _ x1 in
        let (w, x3) = guard-inv (size ins == plan.prog.num_inputs) _ x2 in
        (
          record {
            plan = plan;
            inputs = ins;
            output = out;
            planned = e;
            accepted = sym (plan-canonical keep_ids s plan reached e) ∙ canon;
            gathered = r;
            result = x3;
          },
          ok,
        )

    flush-returns :
        (keep_ids : List ℕ) (s : Session)
        → Reached s.ctx
        → any_pending keep_ids s ≡ true
        → none_stale keep_ids s ≡ true
        → (x : Executes keep_ids s) → x.plan.ok ≡ true
        → is_some (flush is_eval (run_program valid run_source (party_of is_eval)) keep_ids s)
          ≡ true
    unfolding flush run_program
    flush-returns keep_ids s reached a fresh x ok =
        let (n, c) = gather-check is_eval x.plan.input_ids s.carried x.inputs x.gathered in
        let canon = plan-canonical keep_ids s x.plan reached x.planned ∙ x.accepted in
        let k =
          plan_flush-num_inputs (is_carried s.carried) s.ctx.chunk_gates keep_ids x.plan
            x.planned in
        let w : (size x.inputs == x.plan.prog.num_inputs) ≡ true =
          (==_iff (size x.inputs) x.plan.prog.num_inputs).1 (n ∙ sym k) in
        rw (fresh, a, x.planned, ok, x.gathered, canon, c, w, x.result) refl

    -- The plan is ok exactly when no needed operand is stale.
    plan-ok_iff :
        (keep_ids : List ℕ) (s : Session) (x : Executes keep_ids s)
        → (x.plan.ok ≡ true) ↔ (
            (k v : ℕ)
            → Needs s.ctx.chunk_gates keep_ids k
            → mem v (reads_at s.ctx.chunk_gates k) ≡ true
            → is_local s.ctx.chunk_gates v || is_carried s.carried v ≡ true)
    plan-ok_iff keep_ids s x =
        let (made, m) = planned (is_carried s.carried) s.ctx.chunk_gates keep_ids in
        let same = ap (λ q. q.ok) (some_inj made x.plan (sym m.returns ∙ x.planned)) in
        (λ o. m.ok_iff.0 (same ∙ o), λ h. sym same ∙ m.ok_iff.1 h)

    -- For a chunk that calls of the recorder made: a flush with the engine's run_program returns
    -- exactly when every keep id is pending or carried, and, if one is pending, every operand of a gate
    -- that the keep ids need is driven in the chunk or carried, validate_program accepts the plan's
    -- program, and the engine's run of it on the gathered inputs returns; the engine's own checks of
    -- the program and of the inputs never fail.
    pub flush_iff :
        (keep_ids : List ℕ) (s : Session)
        → Reached s.ctx
        → ((t : Session) × (flush is_eval
                (run_program valid run_source (party_of is_eval))
                keep_ids
                s
              ≡ some t))
          ↔ (Flushable keep_ids s × (any_pending keep_ids s ≡ true → Executes keep_ids s))
    unfolding flush
    flush_iff keep_ids s reached = (
      λ (t, h).
          let (fresh, g) = guard-inv (none_stale keep_ids s) _ h in
          (
            record {
              keeps = λ id m. stale-free keep_ids s id fresh m;
              operands = λ a.
                  let (x, ok) = flush-inv keep_ids s reached a h in (plan-ok_iff keep_ids s x).0 ok;
            },
            λ a. (flush-inv keep_ids s reached a h).0,
          ),
      λ (f, x). is_some-inv _ (
          let fresh = none_stale-all keep_ids s f.keeps in
          elim (Bool-cases (any_pending keep_ids s)) [
            | inr a ↦ rw (fresh, a) refl
            | inl a ↦
                flush-returns keep_ids s reached a fresh (x a)
                  ((plan-ok_iff keep_ids s (x a)).1 (f.operands a))
          ]),
    )
