-- ===== src/Flush/Ends.antt =====
-- The reachability search of plan_flush in emp-ag2pc/backend/flush_plan.h ends.
use emp_ag2pc.Prelude.{
  ℕ, zero, suc, ◌+◌, ◌*◌, ◌<◌, ◌≤◌, ◌≡◌, inl, inr, refl, ap, ◌∙◌, Bool, true, false, List, [], ◌∷◌,
  some, get_or, set, replicate, length, length-set, length-append, arith, Bool-cases, Option-cases,
}
use emp_ag2pc.Circuit.{Op, const0, const1, and, xor, not, Gate, op_reads}
use emp_ag2pc.Flush.Plan.{gate_of, no_gate, reads_at, visit, search_from}

pub gate_of-bound :
    (i : ℕ) (gates : List Gate) (w : ℕ) {j : ℕ}
    → gate_of i gates w ≡ some j
    → (i ≤ j) × (j < i + length gates)
gate_of-bound i [] w h = ground arith
gate_of-bound i (g ∷ gs) w h = elim (Option-cases (gate_of (i + 1) gs w)) [
  | inl e ↦ ground arith
  | inr (j, e) ↦ ground (arith, gate_of-bound (i + 1) gs w e)
]

abbrev pub unmarked : List Bool → ℕ
unmarked [] = 0
unmarked (true ∷ bs) = unmarked bs
unmarked (false ∷ bs) = suc (unmarked bs)

unmarked-set :
    (needed : List Bool) (i : ℕ)
    → i < length needed
    → get_or needed i false ≡ false
    → unmarked (set needed i true) + 1 ≡ unmarked needed
unmarked-set [] i h e = ground arith
unmarked-set (true ∷ bs) zero h e = ground arith
unmarked-set (false ∷ bs) zero h e = omega arith
unmarked-set (true ∷ bs) (suc i) h e = unmarked-set bs i (omega arith) e
unmarked-set (false ∷ bs) (suc i) h e = omega (arith, unmarked-set bs i (omega arith) e)

pub unmarked-replicate : (n : ℕ) → unmarked (replicate n false) ≡ n
unmarked-replicate zero = refl
unmarked-replicate (suc n) = ap suc (unmarked-replicate n)

length-op_reads : (op : Op) (a b : ℕ) → length (op_reads op a b) ≤ 2
length-op_reads const0 a b = omega arith
length-op_reads const1 a b = omega arith
length-op_reads and a b = omega arith
length-op_reads xor a b = omega arith
length-op_reads not a b = omega arith

module _ (gates : List Gate) where
  pub length-visit :
      (w : ℕ) (stack : List ℕ) (needed : List Bool)
      → length (visit gates w stack needed).1 ≡ length needed
  unfolding visit
  length-visit w stack needed = elim (Option-cases (gate_of 0 gates w)) [
    | inl e ↦ rw (e, visit)
    | inr (i, e) ↦ rw (e, visit) (ground (arith, length-set needed i true))
  ]

  -- Each turn pops one id, or marks a gate for at most two that it pushes.
  visit_shrinks :
      (w : ℕ) (stack : List ℕ) (needed : List Bool)
      → length needed ≡ length gates
      → let s = visit gates w stack needed in
        length s.0 + 2 * unmarked s.1 ≤ length stack + 2 * unmarked needed
  unfolding visit
  visit_shrinks w stack needed l = elim (Option-cases (gate_of 0 gates w)) [
    | inl e ↦ rw (e, visit) (omega arith)
    | inr (i, e) ↦ elim (Bool-cases (get_or needed i false)) [
      | inl f ↦ rw (e, f, visit) (omega arith)
      | inr f ↦
          rw (e, f, visit)
            (omega (
              arith,
              length-append (reads_at gates i) stack,
              let g = get_or gates i no_gate in length-op_reads g.op g.in0 g.in1,
              unmarked-set needed i (omega (arith, (gate_of-bound 0 gates w e).1)) f,
            ))
    ]
  ]

  -- The loop ends with fuel for each id on the stack and two for each gate that is not marked.
  pub search_ends :
      (n : ℕ) (stack : List ℕ) (needed : List Bool)
      → length needed ≡ length gates
      → length stack + 2 * unmarked needed ≤ n
      → (out : List Bool) × (search_from n gates stack needed ≡ some out)
  unfolding search_from
  search_ends n [] needed l h = (needed, refl)
  search_ends zero (w ∷ stack) needed l h = absurd (omega arith)
  search_ends (suc n) (w ∷ stack) needed l h =
      let s = visit gates w stack needed in
      search_ends n s.0 s.1 (length-visit w stack needed ∙ l)
        (omega (arith, visit_shrinks w stack needed l))
