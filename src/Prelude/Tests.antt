-- ===== src/Prelude/Tests.antt =====
-- Boolean tests on the native numbers, the conditional, and exclusive or of bits.
use Prim.Native.Nat.{ℕ, ◌<◌, compare, Ordering}
use mathlib.Core.Path.{◌≡◌, refl, ap}
use mathlib.Core.Logic.{◌↔◌, ◌⊎◌, inl, inr}
use mathlib.Core.Bool.{Bool, true, false, not}
use mathlib.Core.Option.{Option, none, some}
use native.Mathlib.Omega.{arith}

abbrev pub ltb : ℕ → ℕ → Bool
ltb a b = elim (compare a b) [ Ordering.lt ↦ true | _ ↦ false ]

abbrev pub leb : ℕ → ℕ → Bool
leb a b = elim (compare a b) [ Ordering.gt ↦ false | _ ↦ true ]

infix 50 ◌==◌
abbrev pub ◌==◌ : ℕ → ℕ → Bool
a == b = elim (compare a b) [ Ordering.eq ↦ true | _ ↦ false ]

infix 1 if◌then◌else◌
abbrev pub if◌then◌else◌ {ℓ} : {A : Type ℓ} → Bool → A → A → A
if true then x else y = x
if false then x else y = y

-- `^` on two bits.
infixl 60 ◌^^◌
abbrev pub ◌^^◌ : Bool → Bool → Bool
true ^^ b = not b
false ^^ b = b

pub ^^_self : (b : Bool) → b ^^ b ≡ false
^^_self true = refl
^^_self false = refl

pub ^^_cancel : (a b : Bool) → a ^^ (a ^^ b) ≡ b
^^_cancel a b = ground arith

pub ^^_comm : (a b : Bool) → a ^^ b ≡ b ^^ a
^^_comm a b = ground arith

pub ^^_assoc : (a b c : Bool) → (a ^^ b) ^^ c ≡ a ^^ (b ^^ c)
^^_assoc a b c = ground arith

pub ==_iff : (a b : ℕ) → ((a == b) ≡ true) ↔ (a ≡ b)
==_iff a b = ground arith

pub ==_refl : (a : ℕ) → (a == a) ≡ true
==_refl a = ground arith

pub ==-false : (a b : ℕ) → (a ≡ b → ⊥) → (a == b) ≡ false
==-false a b h = ground arith

pub ltb→lt : (a b : ℕ) → ltb a b ≡ true → a < b
ltb→lt a b h = ground arith

pub lt→ltb : (a b : ℕ) → a < b → ltb a b ≡ true
lt→ltb a b h = ground arith

-- To split on a computed value and keep the equation.
pub Bool-cases : (b : Bool) → (b ≡ true) ⊎ (b ≡ false)
Bool-cases true = inl refl
Bool-cases false = inr refl

pub Option-cases {ℓ} : {A : Type ℓ} (o : Option A) → (o ≡ none) ⊎ ((a : A) × (o ≡ some a))
Option-cases none = inl refl
Option-cases (some a) = inr (a, refl)

-- Fallible steps in sequence.
infixl 5 ◌>>=◌ ◌>>◌
abbrev pub ◌>>=◌ {ℓ κ} : {A : Type ℓ} {B : Type κ} → Option A → (A → Option B) → Option B
none >>= f = none
some a >>= f = f a

abbrev pub ◌>>◌ {ℓ} : {B : Type ℓ} → Option (Unit {0}) → Option B → Option B
m >> k = m >>= λ _. k

abbrev pub guard : Bool → Option (Unit {0})
guard true = some tt
guard false = none

-- Inversion of a step that returns.
pub >>=-inv {ℓ κ} :
    {A : Type ℓ} {B : Type κ} (m : Option A) (f : A → Option B) {b : B}
    → (m >>= f) ≡ some b
    → (a : A) × (m ≡ some a) × (f a ≡ some b)
>>=-inv none f h = ground arith
>>=-inv (some a) f h = (a, refl, h)

pub some-inj {ℓ} : {A : Type ℓ} {a b : A} → some a ≡ some b → a ≡ b
some-inj {a} h = ap (λ o. elim o [ none ↦ a | some x ↦ x ]) h

pub >>=-some {ℓ} : {A : Type ℓ} (o : Option A) → (o >>= some) ≡ o
>>=-some none = refl
>>=-some (some a) = refl

abbrev pub is_some {ℓ} : {A : Type ℓ} → Option A → Bool
is_some none = false
is_some (some a) = true

pub is_some-inv {ℓ} : {A : Type ℓ} (o : Option A) → is_some o ≡ true → (a : A) × (o ≡ some a)
is_some-inv none h = absurd (let e : false ≡ true = h in cc)
is_some-inv (some a) h = (a, refl)

pub some_inj : {A : Type 0} (a b : A) → some a ≡ some b → a ≡ b
some_inj a b h = some-inj h

pub guard-inv :
    {A : Type 0} (b : Bool) (m : Option A) {a : A}
    → (guard b >> m) ≡ some a
    → (b ≡ true) × (m ≡ some a)
guard-inv true m h = (refl, h)
guard-inv false m h = absurd (let e : none ≡ some _ = h in cc)
