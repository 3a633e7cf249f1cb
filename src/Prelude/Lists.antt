-- ===== src/Prelude/Lists.antt =====
-- Vectors: lists measured and indexed by native numbers, under the library's names.
use Prim.Native.Nat.{ℕ, zero, suc, ◌+◌, ◌<◌, ◌≤◌}
use mathlib.Core.Path.{◌≡◌, refl, sym, ap, ◌∙◌}
use mathlib.Core.Logic.{◌≢◌, ◌⊎◌, inl, inr}
use mathlib.Core.Bool.{Bool, false, ◌||◌}
use mathlib.Core.List.{List, [], ◌∷◌, ◌++◌, append_assoc, append-nil}
use mathlib.Core.Option.{Option, none, some}
use native.Mathlib.Omega.{arith}
use emp_ag2pc.Prelude.Tests.{◌==◌}

module _ {ℓ} {A : Type ℓ} where
  abbrev pub length : List A → ℕ
  length [] = 0
  length (x ∷ xs) = suc (length xs)

  abbrev pub get_elem? : List A → ℕ → Option A
  get_elem? [] i = none
  get_elem? (x ∷ xs) zero = some x
  get_elem? (x ∷ xs) (suc i) = get_elem? xs i

  abbrev pub get_or : List A → ℕ → A → A
  get_or [] i d = d
  get_or (x ∷ xs) zero d = x
  get_or (x ∷ xs) (suc i) d = get_or xs i d

  -- A write out of bounds changes nothing.
  abbrev pub set : List A → ℕ → A → List A
  set [] i v = []
  set (x ∷ xs) zero v = v ∷ xs
  set (x ∷ xs) (suc i) v = x ∷ set xs i v

  abbrev pub take : ℕ → List A → List A
  take zero xs = []
  take (suc n) [] = []
  take (suc n) (x ∷ xs) = x ∷ take n xs

  abbrev pub drop : ℕ → List A → List A
  drop zero xs = xs
  drop (suc n) [] = []
  drop (suc n) (x ∷ xs) = drop n xs

  -- `resize`: cut, or filled up with `d`.
  abbrev pub resize : ℕ → A → List A → List A
  resize zero d xs = []
  resize (suc n) d [] = d ∷ resize n d []
  resize (suc n) d (x ∷ xs) = x ∷ resize n d xs

  abbrev pub replicate : ℕ → A → List A
  replicate zero a = []
  replicate (suc n) a = a ∷ replicate n a

module _ {ℓ} {A : Type ℓ} where
  pub length-append : (xs ys : List A) → length (xs ++ ys) ≡ length xs + length ys
  length-append [] ys = omega arith
  length-append (x ∷ xs) ys = omega (arith, length-append xs ys)

  pub length-set : (xs : List A) (i : ℕ) (v : A) → length (set xs i v) ≡ length xs
  length-set [] i v = refl
  length-set (x ∷ xs) zero v = refl
  length-set (x ∷ xs) (suc i) v = ap suc (length-set xs i v)

  pub length-replicate : (n : ℕ) (a : A) → length (replicate n a) ≡ n
  length-replicate zero a = refl
  length-replicate (suc n) a = ap suc (length-replicate n a)

  pub get_or-set_self :
      (xs : List A) (i : ℕ) (v d : A) → i < length xs → get_or (set xs i v) i d ≡ v
  get_or-set_self [] i v d h = absurd (omega arith)
  get_or-set_self (x ∷ xs) zero v d h = refl
  get_or-set_self (x ∷ xs) (suc i) v d h = get_or-set_self xs i v d (omega arith)

  pub get_or-set_ne :
      (xs : List A) (i j : ℕ) (v d : A) → i ≢ j → get_or (set xs i v) j d ≡ get_or xs j d
  get_or-set_ne [] i j v d h = refl
  get_or-set_ne (x ∷ xs) zero zero v d h = absurd (h refl)
  get_or-set_ne (x ∷ xs) zero (suc j) v d h = refl
  get_or-set_ne (x ∷ xs) (suc i) zero v d h = refl
  get_or-set_ne (x ∷ xs) (suc i) (suc j) v d h = get_or-set_ne xs i j v d (λ e. h (ap suc e))

  pub length-resize : (n : ℕ) (d : A) (xs : List A) → length (resize n d xs) ≡ n
  length-resize zero d xs = refl
  length-resize (suc n) d [] = ap suc (length-resize n d [])
  length-resize (suc n) d (x ∷ xs) = ap suc (length-resize n d xs)

  pub get_or-resize :
      (n : ℕ) (d e : A) (xs : List A) (i : ℕ)
      → i < length xs
      → length xs ≤ n
      → get_or (resize n d xs) i e ≡ get_or xs i e
  get_or-resize n d e [] i h l = absurd (omega arith)
  get_or-resize zero d e (x ∷ xs) i h l = absurd (omega arith)
  get_or-resize (suc n) d e (x ∷ xs) zero h l = refl
  get_or-resize (suc n) d e (x ∷ xs) (suc i) h l =
      get_or-resize n d e xs i (omega arith) (omega arith)

  pub get_or-append_left :
      (xs ys : List A) (i : ℕ) (d : A) → i < length xs → get_or (xs ++ ys) i d ≡ get_or xs i d
  get_or-append_left [] ys i d h = absurd (omega arith)
  get_or-append_left (x ∷ xs) ys zero d h = refl
  get_or-append_left (x ∷ xs) ys (suc i) d h = get_or-append_left xs ys i d (omega arith)

  pub get_or-append_right :
      (xs ys : List A) (i : ℕ) (d : A) → get_or (xs ++ ys) (length xs + i) d ≡ get_or ys i d
  get_or-append_right [] ys i d = let e : length {A = A} [] + i ≡ i = omega arith in rw e
  get_or-append_right (x ∷ xs) ys i d =
      let e : suc (length xs) + i ≡ suc (length xs + i) = omega arith in
      rw e (get_or-append_right xs ys i d)

abbrev pub mem : ℕ → List ℕ → Bool
mem i [] = false
mem i (x ∷ xs) = i == x || mem i xs

abbrev pub Distinct : List ℕ → Type 0
Distinct [] = Unit
Distinct (x ∷ xs) = (mem x xs ≡ false) × Distinct xs

pub get_or-set_cases {ℓ} :
    {A : Type ℓ} (xs : List A) (i w : ℕ) (v d : A)
    → (get_or (set xs i v) w d ≡ get_or xs w d) ⊎ ((w ≡ i) × (get_or (set xs i v) w d ≡ v))
get_or-set_cases [] i w v d = inl refl
get_or-set_cases (x ∷ xs) zero zero v d = inr (refl, refl)
get_or-set_cases (x ∷ xs) zero (suc w) v d = inl refl
get_or-set_cases (x ∷ xs) (suc i) zero v d = inl refl
get_or-set_cases (x ∷ xs) (suc i) (suc w) v d = elim (get_or-set_cases xs i w v d) [
  | inl e ↦ inl e
  | inr (e, f) ↦ inr (ap suc e, f)
]

pub get_or-replicate {ℓ} : {A : Type ℓ} (n w : ℕ) (d : A) → get_or (replicate n d) w d ≡ d
get_or-replicate zero w d = refl
get_or-replicate (suc n) zero d = refl
get_or-replicate (suc n) (suc w) d = get_or-replicate n w d

pub get_or-replicate_lt {ℓ} :
    {A : Type ℓ} (n w : ℕ) (a d : A) → w < n → get_or (replicate n a) w d ≡ a
get_or-replicate_lt zero w a d h = absurd (omega arith)
get_or-replicate_lt (suc n) zero a d h = refl
get_or-replicate_lt (suc n) (suc w) a d h = get_or-replicate_lt n w a d (omega arith)

abbrev pub concat {ℓ} : {A : Type ℓ} → List (List A) → List A
concat [] = []
concat (xs ∷ xss) = xs ++ concat xss

pub concat-snoc {ℓ} :
    {A : Type ℓ} (xss : List (List A)) (xs : List A) → concat (xss ++ xs ∷ []) ≡ concat xss ++ xs
concat-snoc [] xs = append-nil xs
concat-snoc (ys ∷ xss) xs =
    ap (λ l. ys ++ l) (concat-snoc xss xs) ∙ sym (append_assoc ys (concat xss) xs)

-- Elementwise, as far as both lists go.
abbrev pub zip_with {ℓ κ υ} :
    {A : Type ℓ} {B : Type κ} {C : Type υ} → (A → B → C) → List A → List B → List C
zip_with f [] ys = []
zip_with f (x ∷ xs) [] = []
zip_with f (x ∷ xs) (y ∷ ys) = f x y ∷ zip_with f xs ys

abbrev pub All {ℓ κ} : {A : Type ℓ} → (A → Type κ) → List A → Type κ
All P [] = Unit
All P (x ∷ xs) = P x × All P xs

-- A loop that fills entry `i` by `f i`.
abbrev pub tabulate_from {ℓ} : {A : Type ℓ} → ℕ → ℕ → (ℕ → A) → List A
tabulate_from from zero f = []
tabulate_from from (suc n) f = f from ∷ tabulate_from (suc from) n f

abbrev pub tabulate {ℓ} : {A : Type ℓ} → ℕ → (ℕ → A) → List A
tabulate n f = tabulate_from 0 n f

module _ {ℓ} {A : Type ℓ} where
  length-tabulate_from : (from n : ℕ) (f : ℕ → A) → length (tabulate_from from n f) ≡ n
  length-tabulate_from from zero f = refl
  length-tabulate_from from (suc n) f = ap suc (length-tabulate_from (suc from) n f)

  get_or-tabulate_from :
      (from n i : ℕ) (f : ℕ → A) (d : A)
      → i < n
      → get_or (tabulate_from from n f) i d ≡ f (from + i)
  get_or-tabulate_from from zero i f d h = absurd (omega arith)
  get_or-tabulate_from from (suc n) zero f d h = ap f (let e : from ≡ from + 0 = omega arith in e)
  get_or-tabulate_from from (suc n) (suc i) f d h =
      get_or-tabulate_from (suc from) n i f d (omega arith)
      ∙ ap f (let e : suc from + i ≡ from + suc i = omega arith in e)

  pub length-tabulate : (n : ℕ) (f : ℕ → A) → length (tabulate n f) ≡ n
  length-tabulate n f = length-tabulate_from 0 n f

  pub get_or-tabulate : (n i : ℕ) (f : ℕ → A) (d : A) → i < n → get_or (tabulate n f) i d ≡ f i
  get_or-tabulate n i f d h =
      get_or-tabulate_from 0 n i f d h ∙ ap f (let e : 0 + i ≡ i = omega arith in e)

-- The first entry from `i` on.
pub drop-step :
    {A : Type 0} (i : ℕ) (xs : List A) (d : A)
    → i < length xs
    → get_or xs i d ∷ drop (i + 1) xs ≡ drop i xs
drop-step i [] d h = absurd (omega arith)
drop-step zero (x ∷ xs) d h = refl
drop-step (suc i) (x ∷ xs) d h =
    (let e : suc i + 1 ≡ suc (i + 1) = omega arith in ap (λ n. get_or xs i d ∷ drop n (x ∷ xs)) e)
    ∙ drop-step i xs d (omega arith)

pub drop-all : {A : Type 0} (i : ℕ) (xs : List A) → length xs ≤ i → drop i xs ≡ []
drop-all zero [] h = refl
drop-all zero (x ∷ xs) h = absurd (omega arith)
drop-all (suc i) [] h = refl
drop-all (suc i) (x ∷ xs) h = drop-all i xs (omega arith)

-- Two lists have the same first elements.
pub take_eq :
    {A : Type 0} (n : ℕ) (xs ys : List A) (d : A)
    → n ≤ length xs
    → n ≤ length ys
    → ((i : ℕ) → i < n → get_or xs i d ≡ get_or ys i d)
    → take n xs ≡ take n ys
take_eq zero xs ys d l m h = refl
take_eq (suc n) [] ys d l m h = absurd (omega arith)
take_eq (suc n) (x ∷ xs) [] d l m h = absurd (omega arith)
take_eq (suc n) (x ∷ xs) (y ∷ ys) d l m h =
    ap (λ a. a ∷ take n xs) (h 0 (omega arith))
    ∙ ap (λ l. y ∷ l)
        (take_eq n xs ys d (omega arith) (omega arith) (λ i k. h (suc i) (omega arith)))

pub get_or-take :
    {A : Type 0} (n : ℕ) (xs : List A) (i : ℕ) (d : A)
    → i < n
    → get_or (take n xs) i d ≡ get_or xs i d
get_or-take zero xs i d l = absurd (omega arith)
get_or-take (suc n) [] i d l = refl
get_or-take (suc n) (x ∷ xs) zero d l = refl
get_or-take (suc n) (x ∷ xs) (suc i) d l = get_or-take n xs i d (omega arith)
