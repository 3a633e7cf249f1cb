-- ===== src/Flush/Canonical.antt =====
-- The program that plan_flush of emp-ag2pc/backend/flush_plan.h builds passes the check of
-- emp-ag2pc/backend/canonical.h when the recorder of emp-ag2pc/session/ag2pc_ctx.h recorded it.
use emp_ag2pc.Prelude.{
  ℕ, ◌+◌, ◌≤◌, ◌≡◌, inl, inr, refl, Bool, true, false, List, [], ◌∷◌, some, length, arith,
  Option-cases, map, some_inj, subst, sym, ◌∙◌,
}
use emp_ag2pc.Circuit.{Gate, BooleanProgram, const_count, numbered_from, require_record_canonical}
use emp_ag2pc.Session.Recorder.{Recorder, const_wire}
use emp_ag2pc.Session.Recording.{Reached, Recording, Reached-Recording}
use emp_ag2pc.Flush.Plan.{
  FlushPlan, Remap, renamed, compact, plan_flush, find_needed, note_inputs, outputs_of,
}
use emp_ag2pc.Flush.Needed.{find_needed_iff}

numbered-compact :
    (gs : List Gate) (bs : List Bool) (cid : ℕ) (r : Remap)
    → numbered_from cid (compact gs bs cid r).0 ≡ true
unfolding compact
numbered-compact [] bs cid r = refl
numbered-compact (g ∷ gs) [] cid r = refl
numbered-compact (g ∷ gs) (false ∷ bs) cid r = numbered-compact gs bs cid r
numbered-compact (g ∷ gs) (true ∷ bs) cid r =
    ground (arith, numbered-compact gs bs (cid + 1) ((g.out, cid) ∷ r))

const_count-compact :
    (v : Bool) (gs : List Gate) (bs : List Bool) (cid : ℕ) (r : Remap)
    → const_count v (compact gs bs cid r).0 ≤ const_count v gs
unfolding compact
const_count-compact v [] bs cid r = omega arith
const_count-compact v (g ∷ gs) [] cid r = omega arith
const_count-compact v (g ∷ gs) (false ∷ bs) cid r = omega (arith, const_count-compact v gs bs cid r)
const_count-compact v (g ∷ gs) (true ∷ bs) cid r =
    omega (arith, const_count-compact v gs bs (cid + 1) ((g.out, cid) ∷ r))

-- The plan for the marks that the search finds.
abbrev pub planned : (ℕ → Bool) → List Gate → List ℕ → List Bool → FlushPlan
planned is_materialized gates keep_ids needed =
    let ins =
      note_inputs is_materialized gates gates needed
        (record { remap = []; input_ids = []; ok = true }) in
    let num_inputs = length ins.input_ids in
    let body = compact gates needed num_inputs ins.remap in
    let out_ids = outputs_of gates keep_ids [] in
    record {
      prog = record {
        num_inputs = num_inputs;
        num_wires = num_inputs + length body.0;
        gates = body.0;
        outputs = map (renamed body.1) out_ids;
      };
      input_ids = ins.input_ids;
      output_ids = out_ids;
      ok = ins.ok;
    }

pub plan_flush-planned :
    (is_materialized : ℕ → Bool) (gates : List Gate) (keep : List ℕ) {out : List Bool}
    → find_needed gates keep ≡ some out
    → plan_flush is_materialized gates keep ≡ some (planned is_materialized gates keep out)
unfolding plan_flush
plan_flush-planned is_materialized gates keep e = rw (e, plan_flush)

-- Whatever calls a recorder has had: for every test of materialized ids and all keep ids,
-- plan_flush returns a plan for its chunk, and the check of canonical.h returns on the plan's
-- program exactly when validate_program accepts the program; so the gates of the plan are numbered
-- from its inputs on and it has each constant at most once.
pub plan_flush-record_canonical :
    {r : Recorder} (reached : Reached r) (is_materialized : ℕ → Bool) (keep : List ℕ)
    (valid : BooleanProgram → Bool)
    → (plan : FlushPlan) × (plan_flush is_materialized r.chunk_gates keep ≡ some plan)
      × (require_record_canonical valid plan.prog ≡ valid plan.prog)
unfolding require_record_canonical
plan_flush-record_canonical {r} reached is_materialized keep valid =
    let (needed, e, l, m) = find_needed_iff r.chunk_gates keep in
    let plan = planned is_materialized r.chunk_gates keep needed in
    let recorded = Reached-Recording reached in
    let ins =
      note_inputs is_materialized r.chunk_gates r.chunk_gates needed
        (record { remap = []; input_ids = []; ok = true }) in
    let n = length ins.input_ids in
    (
      plan,
      plan_flush-planned is_materialized r.chunk_gates keep e,
      canonical_of plan.prog (numbered-compact r.chunk_gates needed n ins.remap)
          (once false recorded (const_count-compact false r.chunk_gates needed n ins.remap))
          (once true recorded (const_count-compact true r.chunk_gates needed n ins.remap)),
    )
  where
    canonical_of :
        (p : BooleanProgram)
        → numbered_from p.num_inputs p.gates ≡ true
        → const_count false p.gates ≤ 1
        → const_count true p.gates ≤ 1
        → require_record_canonical valid p ≡ valid p
    canonical_of p n a b = ground arith

    once : (v : Bool) {n : ℕ} → Recording r → n ≤ const_count v r.chunk_gates → n ≤ 1
    once v i h = elim (Option-cases (const_wire v r)) [
      | inl e ↦ ground (arith, i.const_once v)
      | inr (w, e) ↦ ground (arith, i.const_once v)
    ]

-- A plan's program has an input for each input id.
pub plan_flush-num_inputs :
    (is_materialized : ℕ → Bool) (gates : List Gate) (keep : List ℕ) (plan : FlushPlan)
    → plan_flush is_materialized gates keep ≡ some plan
    → plan.prog.num_inputs ≡ length plan.input_ids
plan_flush-num_inputs is_materialized gates keep plan h =
    let (needed, e, l, m) = find_needed_iff gates keep in
    let p = planned is_materialized gates keep needed in
    let q : p ≡ plan =
      some_inj p plan (sym (plan_flush-planned is_materialized gates keep e) ∙ h) in
    subst (λ z. z.prog.num_inputs ≡ length z.input_ids) q refl
