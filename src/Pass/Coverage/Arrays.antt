-- ===== src/Pass/Coverage/Arrays.antt =====
-- Arrays of last uses and of pins, as AG2PCLivenessPass updates them at a gate.
use emp_ag2pc.Prelude.{
  All, get_or-set_cases, ℕ, zero, suc, ◌<◌, ◌≤◌, ◌≡◌, inl, inr, refl, sym, subst, ◌∙◌, Bool, true,
  false, List, [], ◌∷◌, ◌++◌, Option, none, some, get_or, set, length, length-set, length-append,
  get_or-set_self, get_or-append_left, ltb, lt→ltb, if◌then◌else◌, arith, Option-cases,
}
use emp_ag2pc.Pass.Reads.{reaches, Pinned}
use emp_ag2pc.Pass.Liveness.{pin}
use native.Mathlib.Decide.{dec_lt}

-- Every recorded last use is before gate `k`.
abbrev pub Bounded : List (Option ℕ) → ℕ → Type 0
Bounded l k = (w u : ℕ) → get_or l w none ≡ some u → u < k

-- No wire loses a use.
abbrev pub Later : List (Option ℕ) → List (Option ℕ) → Type 0
Later l m = (w g : ℕ) → reaches (get_or l w none) g ≡ true → reaches (get_or m w none) g ≡ true

abbrev pub More : List Bool → List Bool → Type 0
More p q = (w : ℕ) → Pinned p w → Pinned q w

pub get_or-snoc {ℓ} :
    {A : Type ℓ} (xs : List A) (d : A) (w : ℕ) → get_or (xs ++ d ∷ []) w d ≡ get_or xs w d
get_or-snoc [] d zero = refl
get_or-snoc [] d (suc w) = refl
get_or-snoc (x ∷ xs) d zero = refl
get_or-snoc (x ∷ xs) d (suc w) = get_or-snoc xs d w

pub get_or-snoc_end {ℓ} :
    {A : Type ℓ} (xs : List A) (a d : A) → get_or (xs ++ a ∷ []) (length xs) d ≡ a
get_or-snoc_end [] a d = refl
get_or-snoc_end (x ∷ xs) a d = get_or-snoc_end xs a d

get_or_out {ℓ} : {A : Type ℓ} (xs : List A) (w : ℕ) (d : A) → length xs ≤ w → get_or xs w d ≡ d
get_or_out [] w d h = refl
get_or_out (x ∷ xs) zero d h = absurd (omega arith)
get_or_out (x ∷ xs) (suc w) d h = get_or_out xs w d (omega arith)

pub Bounded-set :
    (l : List (Option ℕ)) (i g : ℕ) → Bounded l (suc g) → Bounded (set l i (some g)) (suc g)
Bounded-set l i g b w u h = ground (arith, get_or-set_cases l i w (some g) none, b w u)

pub Later-set : (l : List (Option ℕ)) (i g : ℕ) → Bounded l (suc g) → Later l (set l i (some g))
Later-set l i g b w k h = elim (get_or-set_cases l i w (some g) none) [
  | inl e ↦ rw e h
  | inr (e, f) ↦ elim (Option-cases (get_or l w none)) [
    | inl n ↦ ground arith
    | inr (u, m) ↦ ground (arith, b w u m)
  ]
]

pub reaches-set_self :
    (l : List (Option ℕ)) (i g : ℕ)
    → i < length l
    → reaches (get_or (set l i (some g)) i none) g ≡ true
reaches-set_self l i g h = rw (get_or-set_self l i (some g) none h) (ground arith)

pub reaches-le : (o : Option ℕ) (g h : ℕ) → g ≤ h → reaches o h ≡ true → reaches o g ≡ true
reaches-le none g h l e = e
reaches-le (some u) g h l e = ground arith

pub More-snoc : (p : List Bool) (b : Bool) → More p (p ++ b ∷ [])
More-snoc p b w h = elim (dec_lt w (length p)) [
  | yes l ↦ rw (get_or-append_left p (b ∷ []) w false l) h
  | no l ↦ absurd (true_out (get_or_out p w false (omega arith)) h)
]
  where
    true_out : {x : Bool} → x ≡ false → x ≡ true → ⊥
    true_out e f = cc

-- The uses after a gate with operands `a` and `b`.
abbrev pub marked : ℕ → ℕ → List (Option ℕ) → ℕ → List (Option ℕ)
marked a b l g = set (set (l ++ none ∷ []) a (some g)) b (some g)

pub Bounded-snoc : (l : List (Option ℕ)) (g : ℕ) → Bounded l g → Bounded (l ++ none ∷ []) (suc g)
Bounded-snoc l g b w u h = omega (arith, b w u (rw get_or-snoc at h))

module _ (a b : ℕ) (l : List (Option ℕ)) (g : ℕ) (past : Bounded l g) where
  pub Bounded-once : Bounded (set (l ++ none ∷ []) a (some g)) (suc g)
  Bounded-once = Bounded-set _ a g (Bounded-snoc l g past)

  pub Bounded-marked : Bounded (marked a b l g) (suc g)
  Bounded-marked = Bounded-set _ b g Bounded-once

  pub Later-once : Later l (set (l ++ none ∷ []) a (some g))
  Later-once w k h = Later-set _ a g (Bounded-snoc l g past) w k (rw get_or-snoc h)

  pub Later-marked : Later l (marked a b l g)
  Later-marked w k h = Later-set _ b g Bounded-once w k (Later-once w k h)

  pub length-marked : length (marked a b l g) ≡ suc (length l)
  length-marked = length-set _ b _ ∙ length-set _ a _ ∙ length-append l (none ∷ []) ∙ (omega arith)

  pub reads_first : a < length l → reaches (get_or (marked a b l g) a none) g ≡ true
  reads_first h =
      Later-set _ b g Bounded-once a g
        (reaches-set_self (l ++ none ∷ []) a g (omega (arith, length-append l (none ∷ []))))

  pub reads_second : b < length l → reaches (get_or (marked a b l g) b none) g ≡ true
  reads_second h =
      reaches-set_self _ b g
        (omega (arith, length-append l (none ∷ []), length-set (l ++ none ∷ []) a (some g)))

pub More-set : (p : List Bool) (i : ℕ) → More p (set p i true)
More-set p i w h = elim (get_or-set_cases p i w true false) [ inl e ↦ rw e h | inr (e, f) ↦ f ]

pub More-pin : (n : ℕ) (ids : List ℕ) (p : List Bool) → More p (pin n ids p)
unfolding pin
More-pin n [] p w h = h
More-pin n (i ∷ ids) p w h =
    More-pin n ids (if ltb i n then set p i true else p) w
      (elim (ltb i n) as (λ b. Pinned (if b then set p i true else p) w) [
        | true ↦ More-set p i w h
        | false ↦ h
      ])

pin-cons :
    (n i : ℕ) (ids : List ℕ) (p : List Bool) → i < n → pin n (i ∷ ids) p ≡ pin n ids (set p i true)
unfolding pin
pin-cons n i ids p h = rw (lt→ltb i n h)

-- `commit` pins every output that the pass has numbered.
pub pin-outs :
    (n : ℕ) (ids : List ℕ) (p : List Bool)
    → n ≤ length p
    → All (λ w. w < n) ids
    → All (Pinned (pin n ids p)) ids
pin-outs n [] p l h = tt
pin-outs n (i ∷ ids) p l (hi, h) =
    subst (λ q. All (Pinned q) (i ∷ ids)) (sym (pin-cons n i ids p hi))
      (
        More-pin n ids (set p i true) i (get_or-set_self p i true false (omega arith)),
        pin-outs n ids (set p i true) (rw length-set l) h,
      )
