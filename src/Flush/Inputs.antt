-- ===== src/Flush/Inputs.antt =====
-- The inputs that plan_flush of emp-ag2pc/backend/flush_plan.h notes.
use emp_ag2pc.Prelude.{
  ℕ, zero, suc, ◌<◌, ◌≡◌, inl, inr, refl, sym, ap, subst, ◌∙◌, Bool, true, false, ◌||◌, List, [],
  ◌∷◌, ◌++◌, get_or, length, mem, arith, Bool-cases, ◌==◌, map, length-append, get_or-append_left,
  ==_iff,
}
use emp_ag2pc.Circuit.{Gate, reads}
use emp_ag2pc.Flush.Plan.{
  renamed, has, Inputs, is_local, reads_at, note_input, note_all, note_inputs,
}

module _ (is_materialized : ℕ → Bool) (gates : List Gate) (env : ℕ → Bool) where
  -- Every noted id is no gate's, and has an input of its value.
  pub record Noted (p : Inputs) : Type 0 where
    pub outside : (v : ℕ) → has p.remap v ≡ true → is_local gates v ≡ false
    pub bound : (v : ℕ) → has p.remap v ≡ true → renamed p.remap v < length p.input_ids
    pub value :
        (v : ℕ)
        → has p.remap v ≡ true
        → get_or (map env p.input_ids) (renamed p.remap v) false ≡ env v

  -- What a later state keeps: the plan was in order before, and all that was noted still is.
  record Onward (p q : Inputs) : Type 0 where
    ok_before : q.ok ≡ true → p.ok ≡ true
    still : (v : ℕ) → has p.remap v ≡ true → has q.remap v ≡ true

  length-map : (xs : List ℕ) → length (map env xs) ≡ length xs
  length-map [] = refl
  length-map (x ∷ xs) = ap suc (length-map xs)

  map-append : (xs ys : List ℕ) → map env (xs ++ ys) ≡ (map env xs ++ map env ys)
  map-append [] ys = refl
  map-append (x ∷ xs) ys = ap (λ l. env x ∷ l) (map-append xs ys)

  get_or-end : (xs : List Bool) (b : Bool) → get_or (xs ++ b ∷ []) (length xs) false ≡ b
  get_or-end [] b = refl
  get_or-end (x ∷ xs) b = get_or-end xs b

  note_input-Onward : (v : ℕ) (p : Inputs) → Onward p (note_input is_materialized gates v p)
  unfolding note_input
  note_input-Onward v p = record { ok_before = λ h. ground arith; still = λ u h. ground arith }

  note_input-has :
      (v : ℕ) (p : Inputs)
      → let q = note_input is_materialized gates v p in
        q.ok ≡ true → (is_local gates v || has q.remap v) ≡ true
  unfolding note_input
  note_input-has v p h = ground arith

  module _ (v : ℕ) (p : Inputs) (n : Noted p) where
    abbrev ends : List Bool
    ends = map env (p.input_ids ++ v ∷ [])

    value_new : get_or ends (length p.input_ids) false ≡ env v
    value_new =
        ap (λ l. get_or l (length p.input_ids) false) (map-append p.input_ids (v ∷ []))
        ∙ subst (λ k. get_or (map env p.input_ids ++ env v ∷ []) k false ≡ env v)
            (length-map p.input_ids) (get_or-end (map env p.input_ids) (env v))

    value_old : (u : ℕ) → has p.remap u ≡ true → get_or ends (renamed p.remap u) false ≡ env u
    value_old u h =
        ap (λ l. get_or l (renamed p.remap u) false) (map-append p.input_ids (v ∷ []))
        ∙ get_or-append_left (map env p.input_ids) (env v ∷ []) (renamed p.remap u) false
            (omega (arith, n.bound u h, length-map p.input_ids))
        ∙ n.value u h

    add_input-Noted :
        is_local gates v ≡ false
        → Noted (record p {
          remap = (v, length p.input_ids) ∷ p.remap;
          input_ids = p.input_ids ++ v ∷ [];
        })
    add_input-Noted e = record {
      outside = λ u h. elim (Bool-cases (v == u)) [
        | inl q ↦ subst (λ x. is_local gates x ≡ false) ((==_iff v u).0 q) e
        | inr q ↦ n.outside u (ground arith)
      ];
      bound = λ u h. elim (Bool-cases (v == u)) [
        | inl q ↦ rw q (omega (arith, length-append p.input_ids (v ∷ [])))
        | inr q ↦ rw q (omega (arith, length-append p.input_ids (v ∷ []), n.bound u (rw q at h)))
      ];
      value = λ u h. elim (Bool-cases (v == u)) [
        | inl q ↦ rw q (value_new ∙ ap env ((==_iff v u).0 q))
        | inr q ↦ rw q (value_old u (rw q at h))
      ];
    }

  note_input-Noted : (v : ℕ) (p : Inputs) → Noted p → Noted (note_input is_materialized gates v p)
  unfolding note_input
  note_input-Noted v p n = elim (Bool-cases (is_local gates v || has p.remap v)) [
    | inl e ↦ rw (e, note_input) n
    | inr e ↦ elim (Bool-cases (is_materialized v)) [
      | inr f ↦
          rw (e, f, note_input) (record { outside = n.outside; bound = n.bound; value = n.value })
      | inl f ↦ rw (e, f, note_input) (add_input-Noted v p n (ground arith))
    ]
  ]

  Onward-trans : {p q r : Inputs} → Onward p q → Onward q r → Onward p r
  Onward-trans a b = record {
    ok_before = λ h. a.ok_before (b.ok_before h);
    still = λ v h. b.still v (a.still v h);
  }

  note_all-Onward : (vs : List ℕ) (p : Inputs) → Onward p (note_all is_materialized gates vs p)
  note_all-Onward [] p = record { ok_before = λ h. h; still = λ v h. h }
  note_all-Onward (v ∷ vs) p =
      Onward-trans (note_all-Onward vs p)
        (note_input-Onward v (note_all is_materialized gates vs p))

  note_all-Noted :
      (vs : List ℕ) (p : Inputs) → Noted p → Noted (note_all is_materialized gates vs p)
  note_all-Noted [] p n = n
  note_all-Noted (v ∷ vs) p n = note_input-Noted v _ (note_all-Noted vs p n)

  note_all-has :
      (vs : List ℕ) (p : Inputs) (w : ℕ)
      → let q = note_all is_materialized gates vs p in
        mem w vs ≡ true → q.ok ≡ true → (is_local gates w || has q.remap w) ≡ true
  note_all-has [] p w m h = ground arith
  note_all-has (v ∷ vs) p w m h =
      let q = note_all is_materialized gates vs p in
      let on = note_input-Onward v q in
      elim (Bool-cases (w == v)) [
        | inl e ↦
            subst
              (λ x. (is_local gates x || has (note_input is_materialized gates v q).remap x) ≡ true)
              (sym ((==_iff w v).0 e)) (note_input-has v q h)
        | inr e ↦ ground (arith, note_all-has vs p w (ground arith) (on.ok_before h), on.still w)
      ]

  pub note_inputs-Noted :
      (gs : List Gate) (bs : List Bool) (p : Inputs)
      → Noted p
      → Noted (note_inputs is_materialized gates gs bs p)
  unfolding note_inputs
  note_inputs-Noted [] bs p n = n
  note_inputs-Noted (g ∷ gs) [] p n = n
  note_inputs-Noted (g ∷ gs) (true ∷ bs) p n =
      note_inputs-Noted gs bs _ (note_all-Noted (reads g) p n)
  note_inputs-Noted (g ∷ gs) (false ∷ bs) p n = note_inputs-Noted gs bs p n

  note_inputs-Onward :
      (gs : List Gate) (bs : List Bool) (p : Inputs)
      → Onward p (note_inputs is_materialized gates gs bs p)
  unfolding note_inputs
  note_inputs-Onward [] bs p = record { ok_before = λ h. h; still = λ v h. h }
  note_inputs-Onward (g ∷ gs) [] p = record { ok_before = λ h. h; still = λ v h. h }
  note_inputs-Onward (g ∷ gs) (true ∷ bs) p =
      Onward-trans (note_all-Onward (reads g) p) (note_inputs-Onward gs bs _)
  note_inputs-Onward (g ∷ gs) (false ∷ bs) p = note_inputs-Onward gs bs p

  -- When the plan is in order, all that a needed gate reads is the chunk's or noted.
  pub note_inputs-has :
      (gs : List Gate) (bs : List Bool) (p : Inputs) (k w : ℕ)
      → let q = note_inputs is_materialized gates gs bs p in
        q.ok ≡ true
        → k < length gs
        → get_or bs k false ≡ true
        → mem w (reads_at gs k) ≡ true
        → (is_local gates w || has q.remap w) ≡ true
  unfolding note_inputs
  note_inputs-has [] bs p k w h l n m = absurd (omega arith)
  note_inputs-has (g ∷ gs) [] p k w h l n m = ground arith
  note_inputs-has (g ∷ gs) (true ∷ bs) p zero w h l n m =
      let on = note_inputs-Onward gs bs (note_all is_materialized gates (reads g) p) in
      ground (arith, note_all-has (reads g) p w m (on.ok_before h), on.still w)
  note_inputs-has (g ∷ gs) (false ∷ bs) p zero w h l n m = ground arith
  note_inputs-has (g ∷ gs) (true ∷ bs) p (suc k) w h l n m =
      note_inputs-has gs bs _ k w h (omega arith) n m
  note_inputs-has (g ∷ gs) (false ∷ bs) p (suc k) w h l n m =
      note_inputs-has gs bs p k w h (omega arith) n m
