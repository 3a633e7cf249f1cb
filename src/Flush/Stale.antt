-- ===== src/Flush/Stale.antt =====
-- When plan_flush of emp-ag2pc/backend/flush_plan.h finds a stale operand.
use emp_ag2pc.Prelude.{
  ℕ, suc, ◌<◌, ◌≡◌, ◌↔◌, refl, sym, ap, ◌∙◌, Bool, true, false, ◌||◌, ◌&&◌, List, [], ◌∷◌, ◌++◌,
  get_or, length, mem, arith, Bool-cases, inl, inr, ◌==◌, ==_iff,
}
use emp_ag2pc.Circuit.{Gate, reads}
use emp_ag2pc.Flush.Plan.{has, Inputs, is_local, reads_at, note_input, note_all, note_inputs}
use emp_ag2pc.Flush.Inputs.{note_inputs-has}

module _ (is_materialized : ℕ → Bool) (gates : List Gate) where
  abbrev pub all_materialized : List ℕ → Bool
  all_materialized [] = true
  all_materialized (v ∷ vs) = is_materialized v && all_materialized vs

  -- The operand `v` is the chunk's or materialized.
  abbrev pub available : ℕ → Bool
  available v = is_local gates v || is_materialized v

  -- Only materialized ids are noted.
  pub record Found (p : Inputs) : Type 0 where
    pub mapped : (v : ℕ) → has p.remap v ≡ true → is_materialized v ≡ true
    pub listed : all_materialized p.input_ids ≡ true

  all_materialized-snoc :
      (vs : List ℕ) (v : ℕ)
      → all_materialized vs ≡ true
      → is_materialized v ≡ true
      → all_materialized (vs ++ v ∷ []) ≡ true
  all_materialized-snoc [] v h k = ground arith
  all_materialized-snoc (u ∷ vs) v h k =
      let r = all_materialized-snoc vs v (ground arith) k in ground arith

  note_input-Found : (v : ℕ) (p : Inputs) → Found p → Found (note_input is_materialized gates v p)
  unfolding note_input
  note_input-Found v p f = elim (Bool-cases (is_local gates v || has p.remap v)) [
    | inl e ↦ rw e f
    | inr e ↦ elim (Bool-cases (is_materialized v)) [
      | inr n ↦ rw (e, n) (record { mapped = f.mapped; listed = f.listed })
      | inl n ↦
          rw (e, n)
            (record {
              mapped = λ u h. elim (Bool-cases (v == u)) [
                | inl q ↦ sym (ap is_materialized ((==_iff v u).0 q)) ∙ n
                | inr q ↦ f.mapped u (rw q at h)
              ];
              listed = all_materialized-snoc p.input_ids v f.listed n;
            })
    ]
  ]

  note_all-Found :
      (vs : List ℕ) (p : Inputs) → Found p → Found (note_all is_materialized gates vs p)
  note_all-Found [] p f = f
  note_all-Found (v ∷ vs) p f = note_input-Found v _ (note_all-Found vs p f)

  pub note_inputs-Found :
      (gs : List Gate) (bs : List Bool) (p : Inputs)
      → Found p
      → Found (note_inputs is_materialized gates gs bs p)
  unfolding note_inputs
  note_inputs-Found [] bs p f = f
  note_inputs-Found (g ∷ gs) [] p f = f
  note_inputs-Found (g ∷ gs) (true ∷ bs) p f =
      note_inputs-Found gs bs _ (note_all-Found (reads g) p f)
  note_inputs-Found (g ∷ gs) (false ∷ bs) p f = note_inputs-Found gs bs p f

  note_all-ok :
      (vs : List ℕ) (p : Inputs)
      → p.ok ≡ true
      → ((v : ℕ) → mem v vs ≡ true → available v ≡ true)
      → (note_all is_materialized gates vs p).ok ≡ true
  unfolding note_input
  note_all-ok [] p o h = o
  note_all-ok (v ∷ vs) p o h =
      let r = note_all-ok vs p o (λ u m. h u (let m' : mem u vs ≡ true = m in ground arith)) in
      let a = h v (let e : (v == v) ≡ true = ground arith in rw e refl) in ground arith

  note_inputs-ok :
      (gs : List Gate) (bs : List Bool) (p : Inputs)
      → p.ok ≡ true
      → ((k v : ℕ)
          → k < length gs
          → get_or bs k false ≡ true
          → mem v (reads_at gs k) ≡ true
          → available v ≡ true)
      → (note_inputs is_materialized gates gs bs p).ok ≡ true
  unfolding note_inputs
  note_inputs-ok [] bs p o h = o
  note_inputs-ok (g ∷ gs) [] p o h = o
  note_inputs-ok (g ∷ gs) (true ∷ bs) p o h =
      note_inputs-ok gs bs _ (note_all-ok (reads g) p o (λ v m. h 0 v (omega arith) refl m))
        (λ k v l n m. h (suc k) v (omega arith) n m)
  note_inputs-ok (g ∷ gs) (false ∷ bs) p o h =
      note_inputs-ok gs bs p o (λ k v l n m. h (suc k) v (omega arith) n m)

  -- The plan is in order exactly when every operand of a needed gate is the chunk's or materialized.
  pub note_inputs-ok_iff :
      (bs : List Bool)
      → let q =
          note_inputs is_materialized gates gates bs
            (record { remap = []; input_ids = []; ok = true }) in
        (q.ok ≡ true) ↔ (
          (k v : ℕ)
          → k < length gates
          → get_or bs k false ≡ true
          → mem v (reads_at gates k) ≡ true
          → available v ≡ true)
  note_inputs-ok_iff bs = (
    λ o k v l n m.
        let f =
          note_inputs-Found gates bs (record { remap = []; input_ids = []; ok = true })
            (record { mapped = λ v h. absurd (let e : false ≡ true = h in cc); listed = refl }) in
        let h = note_inputs-has is_materialized gates (λ _. false) gates bs _ k v o l n m in
        ground (arith, f.mapped v),
    λ h. note_inputs-ok gates bs _ refl h,
  )
