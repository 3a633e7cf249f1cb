-- ===== src/Flush/Needed.antt =====
-- The reachability search of plan_flush in emp-ag2pc/backend/flush_plan.h marks exactly the gates
-- that the keep ids need.
use emp_ag2pc.Prelude.{
  ℕ, zero, suc, ◌+◌, ◌*◌, ◌<◌, ◌≡◌, ◌↔◌, ◌⊎◌, inl, inr, refl, sym, ap, subst, ◌∙◌, Bool, true,
  false, ◌||◌, List, [], ◌∷◌, ◌++◌, Option, none, some, get_or, set, replicate, length, length-set,
  length-replicate, get_or-set_self, get_or-set_cases, get_or-replicate, mem, some-inj, arith,
  Bool-cases, Option-cases, if◌then◌else◌, ◌==◌, ==_iff, ==-false,
}
use emp_ag2pc.Circuit.{Gate}
use emp_ag2pc.Flush.Plan.{gate_of, reads_at, visit, search_from, roots, find_needed}
use emp_ag2pc.Flush.Ends.{gate_of-bound, unmarked-replicate, search_ends}

-- The gates that ids of `keep` need: those that drive them, and those that drive what these read.
pub data Needs (gates : List Gate) (keep : List ℕ) : ℕ → Type 0 where
  kept : {i : ℕ} (w : ℕ) → mem w keep ≡ true → gate_of 0 gates w ≡ some i → Needs gates keep i
  read :
      {i j : ℕ} (w : ℕ)
      → Needs gates keep i
      → mem w (reads_at gates i) ≡ true
      → gate_of 0 gates w ≡ some j
      → Needs gates keep j

mem-append : (w : ℕ) (xs ys : List ℕ) → mem w (xs ++ ys) ≡ (mem w xs || mem w ys)
mem-append w [] ys = refl
mem-append w (x ∷ xs) ys = ground (arith, mem-append w xs ys)

-- What holds between two turns for the ids that are kept.
record Sound (gates : List Gate) (keep stack : List ℕ) (needed : List Bool) : Type 0 where
  marks : (i : ℕ) → get_or needed i false ≡ true → Needs gates keep i
  stacked : (w i : ℕ) → mem w stack ≡ true → gate_of 0 gates w ≡ some i → Needs gates keep i

abbrev Done : List ℕ → List Bool → ℕ → ℕ → Type 0
Done stack needed w i = (get_or needed i false ≡ true) ⊎ (mem w stack ≡ true)

record Closed (gates : List Gate) (keep stack : List ℕ) (needed : List Bool) : Type 0 where
  sized : length needed ≡ length gates
  from_keep : (w i : ℕ) → mem w keep ≡ true → gate_of 0 gates w ≡ some i → Done stack needed w i
  from_mark :
      (j w i : ℕ)
      → get_or needed j false ≡ true
      → mem w (reads_at gates j) ≡ true
      → gate_of 0 gates w ≡ some i
      → Done stack needed w i

none≢some : {u : ℕ} → ◌≡◌ {A = Option ℕ} none (some u) → ⊥
none≢some e = cc

-- What was done by the popped id is done by a mark, or by an id that is still there.
Done-on :
    (gates : List Gate) (w : ℕ) (stack : List ℕ) (needed : List Bool) (s : List ℕ) (out : List Bool)
    (v : ℕ) {i j : ℕ}
    → gate_of 0 gates w ≡ some i
    → get_or out i false ≡ true
    → ((u : ℕ) → get_or needed u false ≡ true → get_or out u false ≡ true)
    → ((u : ℕ) → mem u stack ≡ true → mem u s ≡ true)
    → gate_of 0 gates v ≡ some j
    → Done (w ∷ stack) needed v j
    → Done s out v j
Done-on gates w stack needed s out v e o more there g (inl h) = inl (more _ h)
Done-on gates w stack needed s out v e o more there g (inr h) = elim (Bool-cases (v == w)) [
  | inl q ↦ inl (
      subst (λ k. get_or out k false ≡ true)
        (some-inj (sym e ∙ ap (gate_of 0 gates) (sym ((==_iff v w).0 q)) ∙ g)) o)
  | inr q ↦ inr (there v (ground arith))
]

Done-skip :
    (gates : List Gate) (w : ℕ) (stack : List ℕ) (needed : List Bool) (v : ℕ) {j : ℕ}
    → gate_of 0 gates w ≡ none
    → gate_of 0 gates v ≡ some j
    → Done (w ∷ stack) needed v j
    → Done stack needed v j
Done-skip gates w stack needed v e g (inl h) = inl h
Done-skip gates w stack needed v e g (inr h) = elim (Bool-cases (v == w)) [
  | inl q ↦ absurd (none≢some (sym e ∙ ap (gate_of 0 gates) (sym ((==_iff v w).0 q)) ∙ g))
  | inr q ↦ inr (ground arith)
]

module _ (gates : List Gate) (keep : List ℕ) (w : ℕ) (stack : List ℕ) (needed : List Bool) where
  visit-Sound :
      Sound gates keep (w ∷ stack) needed
      → let s = visit gates w stack needed in Sound gates keep s.0 s.1
  unfolding visit
  visit-Sound d = elim (Option-cases (gate_of 0 gates w)) [
    | inl e ↦
        rw (e, visit) (record { marks = d.marks; stacked = λ v j m. d.stacked v j (ground arith) })
    | inr (i, e) ↦ elim (Bool-cases (get_or needed i false)) [
      | inl f ↦
          rw (e, f, visit)
            (record { marks = d.marks; stacked = λ v j m. d.stacked v j (ground arith) })
      | inr f ↦
          let here : Needs gates keep i = d.stacked w i (ground arith) e in
          rw (e, f, visit)
            (record {
              marks = λ j h. elim (get_or-set_cases needed i j true false) [
                | inl g ↦ d.marks j (sym g ∙ h)
                | inr (g, k) ↦ subst (Needs gates keep) (sym g) here
              ];
              stacked = λ v j m g. elim (Bool-cases (mem v (reads_at gates i))) [
                | inl r ↦ read v here r g
                | inr r ↦ d.stacked v j (ground (arith, mem-append v (reads_at gates i) stack)) g
              ];
            })
    ]
  ]

  visit-Closed :
      Closed gates keep (w ∷ stack) needed
      → let s = visit gates w stack needed in Closed gates keep s.0 s.1
  unfolding visit
  visit-Closed c = elim (Option-cases (gate_of 0 gates w)) [
    | inl e ↦
        rw (e, visit)
          (record {
            sized = c.sized;
            from_keep = λ v i m g. Done-skip gates w stack needed v e g (c.from_keep v i m g);
            from_mark =
                λ j v i h m g. Done-skip gates w stack needed v e g (c.from_mark j v i h m g);
          })
    | inr (i, e) ↦ elim (Bool-cases (get_or needed i false)) [
      | inl f ↦
          let on : (v j : ℕ)
              → gate_of 0 gates v ≡ some j
              → Done (w ∷ stack) needed v j
              → Done stack needed v j =
            λ v j g d. Done-on gates w stack needed stack needed v e f (λ u h. h) (λ u h. h) g d in
          rw (e, f, visit)
            (record {
              sized = c.sized;
              from_keep = λ v j m g. on v _ g (c.from_keep v j m g);
              from_mark = λ k v j h m g. on v _ g (c.from_mark k v j h m g);
            })
      | inr f ↦ rw (e, f, visit) (marked i e)
    ]
  ]
    where
      marked :
          (i : ℕ)
          → gate_of 0 gates w ≡ some i
          → Closed gates keep (reads_at gates i ++ stack) (set needed i true)
      marked i e =
          let room : i < length needed = omega (arith, (gate_of-bound 0 gates w e).1, c.sized) in
          let more : (u : ℕ)
              → get_or needed u false ≡ true
              → get_or (set needed i true) u false ≡ true =
            λ u h. elim (get_or-set_cases needed i u true false) [
              | inl q ↦ q ∙ h
              | inr (q, k) ↦ k
            ] in
          let there : (u : ℕ) → mem u stack ≡ true → mem u (reads_at gates i ++ stack) ≡ true =
            λ u h. ground (arith, mem-append u (reads_at gates i) stack) in
          let on : (v j : ℕ)
              → gate_of 0 gates v ≡ some j
              → Done (w ∷ stack) needed v j
              → Done (reads_at gates i ++ stack) (set needed i true) v j =
            λ v j g d.
              Done-on gates w stack needed (reads_at gates i ++ stack) (set needed i true) v e
                (get_or-set_self needed i true false room) more there g d in
          record {
            sized = length-set needed i true ∙ c.sized;
            from_keep = λ v j m g. on v _ g (c.from_keep v j m g);
            from_mark = λ k v j h m g. elim (get_or-set_cases needed i k true false) [
              | inl q ↦ on v _ g (c.from_mark k v j (sym q ∙ h) m g)
              | inr (q, r) ↦ inr (
                  ground (
                    arith,
                    mem-append v (reads_at gates i) stack,
                    subst (λ t. mem v (reads_at gates t) ≡ true) q m,
                  ))
            ];
          }

module _ (gates : List Gate) (keep : List ℕ) where
  search_keeps :
      (n : ℕ) (stack : List ℕ) (needed : List Bool) {out : List Bool}
      → Sound gates keep stack needed
      → Closed gates keep stack needed
      → search_from n gates stack needed ≡ some out
      → Sound gates keep [] out × Closed gates keep [] out
  unfolding search_from
  search_keeps n [] needed s c h =
      subst (λ o. Sound gates keep [] o × Closed gates keep [] o) (some-inj h) (s, c)
  search_keeps zero (w ∷ stack) needed s c h = ground arith
  search_keeps (suc n) (w ∷ stack) needed s c h =
      let q = visit gates w stack needed in
      search_keeps n q.0 q.1 (visit-Sound gates keep w stack needed s)
        (visit-Closed gates keep w stack needed c) h

  -- The roots are the keep ids that a gate drives.
  mem-roots :
      (ids stack : List ℕ) (w i : ℕ)
      → gate_of 0 gates w ≡ some i
      → mem w (roots gates ids stack) ≡ (mem w ids || mem w stack)
  mem-roots [] stack w i g = refl
  mem-roots (id ∷ ids) stack w i g = elim (Option-cases (gate_of 0 gates id)) [
    | inr (j, e) ↦ subst local (sym e) (ground (arith, mem-roots ids (id ∷ stack) w i g))
    | inl e ↦ subst local (sym e) (ground (arith, mem-roots ids stack w i g, other e))
  ]
    where
      local : Option ℕ → Type 0
      local o =
          mem w (
            roots gates ids
              (if (elim o [ none ↦ false | some j ↦ true ]) then id ∷ stack else stack))
          ≡ (mem w (id ∷ ids) || mem w stack)

      other : gate_of 0 gates id ≡ none → (w == id) ≡ false
      other e = ==-false w id (λ q. none≢some (sym e ∙ ap (gate_of 0 gates) (sym q) ∙ g))

  Needs-marked :
      {out : List Bool} {i : ℕ}
      → Closed gates keep [] out
      → Needs gates keep i
      → get_or out i false ≡ true
  Needs-marked c (kept w m g) = elim (c.from_keep w _ m g) [ inl h ↦ h | inr h ↦ ground arith ]
  Needs-marked c (read w n m g) = elim (c.from_mark _ w _ (Needs-marked c n) m g) [
    | inl h ↦ h
    | inr h ↦ ground arith
  ]

  -- The search returns, whatever the chunk and the keep ids, and marks a gate when the keep ids
  -- need it, and only then.
  pub find_needed_iff :
      (out : List Bool) × (find_needed gates keep ≡ some out)
      × (length out ≡ length gates)
      × ((i : ℕ) → (get_or out i false ≡ true) ↔ Needs gates keep i)
  unfolding find_needed
  find_needed_iff =
      let (out, e) =
        search_ends gates fuel start blank sized
          (omega (arith, ap (λ n. 2 * n) (unmarked-replicate (length gates)))) in
      let (s, c) = search_keeps fuel start blank sound closed e in
      (out, e, c.sized, λ i. (s.marks i, Needs-marked c))
    where
      start : List ℕ
      start = roots gates keep []

      blank : List Bool
      blank = replicate (length gates) false

      fuel : ℕ
      fuel = length start + 2 * length gates

      sized : length blank ≡ length gates
      sized = length-replicate (length gates) false

      never : (i : ℕ) → get_or blank i false ≡ true → ⊥
      never i h = ground (arith, get_or-replicate (length gates) i false)

      in_start : (w i : ℕ) → gate_of 0 gates w ≡ some i → mem w start ≡ mem w keep
      in_start w i g = ground (arith, mem-roots keep [] w i g)

      sound : Sound gates keep start blank
      sound = record {
        marks = λ i h. absurd (never i h);
        stacked = λ w i m g. kept w (sym (in_start w i g) ∙ m) g;
      }

      closed : Closed gates keep start blank
      closed = record {
        sized = sized;
        from_keep = λ w i m g. inr (in_start w i g ∙ m);
        from_mark = λ j w i h m g. absurd (never j h);
      }
