-- ===== src/Flush/Value.antt =====
-- The program of plan_flush in emp-ag2pc/backend/flush_plan.h computes what the chunk computes.
use emp_ag2pc.Prelude.{
  ℕ, zero, suc, ◌+◌, ◌<◌, ◌≡◌, ◌↔◌, inl, inr, refl, sym, ap, ap₂, subst, ◌∙◌, Bool, true, false,
  List, [], ◌∷◌, Option, none, some, get_or, length, mem, map, arith, Bool-cases, Option-cases,
  ◌==◌, ==_iff, some-inj, ==_refl,
}
use emp_ag2pc.Circuit.{Gate, eval_gates, eval_program}
use emp_ag2pc.Session.Recorder.{Recorder}
use emp_ag2pc.Session.Recording.{Chunk, driven, Reached, Reached-Recording}
use emp_ag2pc.Flush.Plan.{
  FlushPlan, has, Inputs, gate_of, is_local, no_gate, reads_at, note_inputs, outputs_of, plan_flush,
}
use emp_ag2pc.Flush.Needed.{Needs, kept, read, find_needed_iff}
use emp_ag2pc.Flush.Inputs.{Noted, note_inputs-Noted, note_inputs-has}
use emp_ag2pc.Flush.Canonical.{planned, plan_flush-planned}
use emp_ag2pc.Flush.Compact.{Agree, Mapped, compact-value, not_driven}

driven-gate_of :
    (i w : ℕ) (gs : List Gate)
    → driven w gs ≡ (elim (gate_of i gs w) [ none ↦ false | some j ↦ true ])
driven-gate_of i w [] = refl
driven-gate_of i w (g ∷ gs) = ground (arith, driven-gate_of (i + 1) w gs)

pub driven-is_local : (w : ℕ) (gs : List Gate) → driven w gs ≡ is_local gs w
driven-is_local w gs = driven-gate_of 0 w gs

-- In a chunk each id has one gate, so a gate's id leads back to the gate.
gate_of-out :
    (i lo hi : ℕ) (gs : List Gate) (k : ℕ)
    → Chunk lo hi gs
    → k < length gs
    → gate_of i gs (get_or gs k no_gate).out ≡ some (i + k)
gate_of-out i lo hi [] k c h = absurd (omega arith)
gate_of-out i lo hi (g ∷ gs) zero c h = elim (Option-cases (gate_of (i + 1) gs g.out)) [
  | inl e ↦ rw (e, ==_refl g.out) (ap some (omega arith))
  | inr (j, e) ↦ absurd (
      clash (driven-gate_of (i + 1) g.out gs) e
        (not_driven g.out (g.out + 1) hi gs c.2 (omega arith)))
]
  where
    clash :
        {b : Bool} {o : Option ℕ} {j : ℕ}
        → b ≡ (elim o [ none ↦ false | some j ↦ true ])
        → o ≡ some j
        → b ≡ false
        → ⊥
    clash p e f = ground arith
gate_of-out i lo hi (g ∷ gs) (suc k) c h =
    let e = gate_of-out (i + 1) (g.out + 1) hi gs k c.2 (omega arith) in
    rw e (ap some (omega arith))

map-map {ℓ} :
    {A : Type ℓ} (f : ℕ → A) (g : ℕ → ℕ) (xs : List ℕ) → map f (map g xs) ≡ map (λ x. f (g x)) xs
map-map f g [] = refl
map-map f g (x ∷ xs) = ap (λ l. f (g x) ∷ l) (map-map f g xs)

map_cong {ℓ} :
    {A : Type ℓ} (f g : ℕ → A) (xs : List ℕ)
    → ((x : ℕ) → mem x xs ≡ true → f x ≡ g x)
    → map f xs ≡ map g xs
map_cong f g [] h = refl
map_cong f g (x ∷ xs) h = ap₂ ◌∷◌ (h x (ground arith)) (map_cong f g xs (λ y m. h y (ground arith)))

-- An output is a keep id that the chunk drives.
mem-outputs_of :
    (gates : List Gate) (ids emitted : List ℕ) (w : ℕ)
    → mem w (outputs_of gates ids emitted) ≡ true
    → (mem w ids ≡ true) × (is_local gates w ≡ true)
unfolding outputs_of
mem-outputs_of gates [] emitted w h = ground arith
mem-outputs_of gates (id ∷ ids) emitted w h = elim (Bool-cases (is_local gates id)) [
  | inr e ↦ weaker (mem-outputs_of gates ids emitted w (rw (e, outputs_of) at h))
  | inl e ↦ elim (Bool-cases (mem id emitted)) [
    | inl f ↦ weaker (mem-outputs_of gates ids emitted w (rw (e, f, outputs_of) at h))
    | inr f ↦
        taken e (λ m. mem-outputs_of gates ids (id ∷ emitted) w m) (rw (e, f, outputs_of) at h)
  ]
]
  where
    weaker :
        (mem w ids ≡ true) × (is_local gates w ≡ true)
        → (mem w (id ∷ ids) ≡ true) × (is_local gates w ≡ true)
    weaker p = (ground arith, p.1)

    taken :
        is_local gates id ≡ true
        → (mem w (outputs_of gates ids (id ∷ emitted)) ≡ true
            → (mem w ids ≡ true) × (is_local gates w ≡ true))
        → mem w (id ∷ outputs_of gates ids (id ∷ emitted)) ≡ true
        → (mem w (id ∷ ids) ≡ true) × (is_local gates w ≡ true)
    taken e later m = elim (Bool-cases (w == id)) [
      | inl q ↦ (ground arith, rw (← (==_iff w id).0 q) at e)
      | inr q ↦ weaker (later (rw q at m))
    ]

module _ (is_materialized : ℕ → Bool) (gates : List Gate) (keep : List ℕ) (needed : List Bool)
    (hi : ℕ) (chunk : Chunk 0 hi gates) (sized : length needed ≡ length gates)
    (marked : (i : ℕ) → (get_or needed i false ≡ true) ↔ Needs gates keep i) (env : ℕ → Bool) where
  abbrev ins : Inputs
  ins =
      note_inputs is_materialized gates gates needed
        (record { remap = []; input_ids = []; ok = true })

  -- The ids that have a value in the plan: inputs, and what needed gates drive.
  abbrev in_plan : ℕ → Bool
  in_plan v = elim (gate_of 0 gates v) [ none ↦ has ins.remap v | some i ↦ get_or needed i false ]

  in_plan-out :
      (k : ℕ) → k < length gates → in_plan (get_or gates k no_gate).out ≡ get_or needed k false
  in_plan-out k h =
      rw (gate_of-out 0 0 hi gates k chunk h, in_plan)
        (ap (λ j. get_or needed j false) (omega arith))

  in_plan-reads :
      ins.ok ≡ true
      → (k w : ℕ) → k < length gates
      → get_or needed k false ≡ true
      → mem w (reads_at gates k) ≡ true
      → in_plan w ≡ true
  in_plan-reads ok k w h n m = elim (Option-cases (gate_of 0 gates w)) [
    | inl e ↦ ground (
      arith,
      note_inputs-has is_materialized gates env gates needed
          (record { remap = []; input_ids = []; ok = true }) k w ok h n m,
    )
    | inr (j, e) ↦ rw (e, in_plan) ((marked j).1 (read w ((marked k).0 n) m e))
  ]

  in_plan-Mapped : Mapped in_plan gates ins.remap
  in_plan-Mapped w p d = elim (Option-cases (gate_of 0 gates w)) [
    | inl e ↦ ground arith
    | inr (j, e) ↦ ground (arith, driven-is_local w gates)
  ]

  noted : Noted is_materialized gates env ins
  noted = note_inputs-Noted is_materialized gates env gates needed _ (record {
    outside = λ v h. ground arith;
    bound = λ v h. ground arith;
    value = λ v h. ground arith;
  })

  abbrev in_env : ℕ → Bool
  in_env v = get_or (map env ins.input_ids) v false

  start : Agree gates (length ins.input_ids) ins.remap env in_env
  start = record {
    value = noted.value;
    bound = noted.bound;
    fresh = λ v d. elim (Bool-cases (has ins.remap v)) [
      | inl e ↦ ground (arith, noted.outside v e, driven-is_local v gates)
      | inr e ↦ e
    ];
  }

  plan_value :
      ins.ok ≡ true
      → let p = planned is_materialized gates keep needed in
        eval_program p.prog (map env p.input_ids) ≡ map (eval_gates gates env) p.output_ids
  unfolding eval_program
  plan_value ok =
      map-map _ _ (outputs_of gates keep [])
      ∙ map_cong _ _ (outputs_of gates keep []) (λ v m.
        compact-value in_plan gates needed (length ins.input_ids) ins.remap env in_env 0 hi chunk
          start (record { sized = sized; of_out = in_plan-out; of_reads = in_plan-reads ok })
          in_plan-Mapped v (output_in v m))
    where
      output_in : (v : ℕ) → mem v (outputs_of gates keep []) ≡ true → in_plan v ≡ true
      output_in v m =
          let (k, l) = mem-outputs_of gates keep [] v m in
          elim (Option-cases (gate_of 0 gates v)) [
            | inl e ↦ ground arith
            | inr (j, e) ↦ rw (e, in_plan) ((marked j).1 (kept v k e))
          ]

-- When a recorder reached by any calls has its chunk planned and the plan is in order, the plan's
-- program, run on the values that its input ids have, gives each output id the value that the whole
-- chunk gives it: leaving gates out and renumbering the others changes no value that is kept.
pub plan_flush-value :
    {r : Recorder} (reached : Reached r) (is_materialized : ℕ → Bool) (keep : List ℕ)
    (env : ℕ → Bool) (plan : FlushPlan)
    → plan_flush is_materialized r.chunk_gates keep ≡ some plan
    → plan.ok ≡ true
    → eval_program plan.prog (map env plan.input_ids)
      ≡ map (eval_gates r.chunk_gates env) plan.output_ids
plan_flush-value {r} reached is_materialized keep env plan e ok =
    let (needed, f, l, m) = find_needed_iff r.chunk_gates keep in
    let same = some-inj (sym (plan_flush-planned is_materialized r.chunk_gates keep f) ∙ e) in
    subst
      (λ p.
        eval_program p.prog (map env p.input_ids) ≡ map (eval_gates r.chunk_gates env) p.output_ids)
      same
      (plan_value is_materialized r.chunk_gates keep needed r.next_id
        (Reached-Recording reached).chunk l m env (ap (λ p. p.ok) same ∙ ok))
