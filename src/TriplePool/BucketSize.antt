-- ===== src/TriplePool/BucketSize.antt =====
-- get_bucket_size of emp-ag2pc/backend/triple_pool.h. The source multiplies a logarithm in floating
-- point, `log2(size) * (B - 1) <= ssp`; here both sides are powers of 2.
use emp_ag2pc.Prelude.{
  ℕ, zero, suc, ◌+◌, ◌-◌, ◌^◌, ◌<◌, ◌≤◌, ◌≡◌, refl, sym, subst, Bool, true, false, Option, none,
  some, max, leb, if◌then◌else◌, arith, Bool-cases, inl, inr,
}
use native.Mathlib.Nat.{pow-suc, pow-zero, pow-le-pow_left}
use native.Mathlib.Decide.{dec_lt}

unfoldable pub too_few : ℕ → ℕ → ℕ → Bool
too_few ssp size b = leb (size ^ (b - 1)) (2 ^ ssp)

unfoldable pub grow_bucket : ℕ → ℕ → ℕ → ℕ → Option ℕ
grow_bucket zero ssp size b = none
grow_bucket (suc fuel) ssp size b =
    let rest = grow_bucket fuel ssp size (b + 1) in if too_few ssp size b then rest else some b

unfoldable pub get_bucket_size : ℕ → ℕ → Option ℕ
get_bucket_size ssp size = grow_bucket (ssp + 1) ssp (max size 1024) 2

-- A bucket size that is large enough, where one less is not, unless it is the least, 2.
pub record IsLeast (ssp size b : ℕ) : Type 0 where
  pub at_least_2 : 2 ≤ b
  pub enough : 2 ^ ssp < size ^ (b - 1)
  pub least : (c : ℕ) → 2 ≤ c → c < b → size ^ (c - 1) ≤ 2 ^ ssp

pow-pos : (n : ℕ) → 0 < 2 ^ n
pow-pos zero = omega arith
pow-pos (suc n) = let e = pow-suc 2 n in let h = pow-pos n in omega arith

exceeds : (ssp size : ℕ) → 2 ≤ size → 2 ^ ssp < size ^ suc ssp
exceeds ssp size h =
    let a : 2 ^ suc ssp ≤ size ^ suc ssp = pow-le-pow_left h (suc ssp) in
    let b = pow-suc 2 ssp in let c = pow-pos ssp in omega arith

-- The loop finds the least size from `b` on, when some size that the fuel reaches is large enough.
grow_bucket-IsLeast :
    (fuel ssp size b : ℕ)
    → 2 ≤ b
    → ((c : ℕ) → 2 ≤ c → c < b → size ^ (c - 1) ≤ 2 ^ ssp)
    → 2 ^ ssp < size ^ ((b + fuel) - 2)
    → (r : ℕ) × (grow_bucket fuel ssp size b ≡ some r) × IsLeast ssp size r
unfolding grow_bucket too_few
grow_bucket-IsLeast zero ssp size b l h e = absurd (none_left (leb b 2) refl)
  where
    none_left : (t : Bool) → leb b 2 ≡ t → ⊥
    none_left true p =
        let q : b ≡ 2 = ground arith in
        let r : (b + 0) - 2 ≡ 0 = omega arith in
        let z = pow-zero size in
        let k = pow-pos ssp in
        let e' : 2 ^ ssp < size ^ 0 = subst (λ x. 2 ^ ssp < size ^ x) r e in omega arith
    none_left false p =
        let q : 3 ≤ b = ground arith in
        let r : (b + 0) - 2 ≡ (b - 1) - 1 = omega arith in
        let k = h (b - 1) (omega arith) (omega arith) in
        let e' : 2 ^ ssp < size ^ ((b - 1) - 1) = subst (λ x. 2 ^ ssp < size ^ x) r e in omega arith
grow_bucket-IsLeast (suc fuel) ssp size b l h e =
    elim (Bool-cases (leb (size ^ (b - 1)) (2 ^ ssp))) [
      | inl t ↦
          let r : (b + suc fuel) - 2 ≡ ((b + 1) + fuel) - 2 = omega arith in
          let le : size ^ (b - 1) ≤ 2 ^ ssp = ground arith in
          rw t (
            grow_bucket-IsLeast fuel ssp size (b + 1) (omega arith) (extended le)
              (subst (λ x. 2 ^ ssp < size ^ x) r e))
      | inr t ↦ rw t (b, refl, record { at_least_2 = l; enough = ground arith; least = h })
    ]
  where
    extended : size ^ (b - 1) ≤ 2 ^ ssp → (c : ℕ) → 2 ≤ c → c < b + 1 → size ^ (c - 1) ≤ 2 ^ ssp
    extended le c m k = elim (dec_lt c b) [
      | yes lt ↦ h c m lt
      | no ge ↦ let q : b ≡ c = omega arith in subst (λ x. size ^ (x - 1) ≤ 2 ^ ssp) q le
    ]

-- For every security parameter and number of ANDs the loop ends, and the bucket size is the least
-- from 2 on whose bound exceeds `2 ^ ssp`, sizes below 1024 counting as 1024.
pub get_bucket_size-IsLeast :
    (ssp size : ℕ) → (b : ℕ) × (get_bucket_size ssp size ≡ some b) × IsLeast ssp (max size 1024) b
unfolding get_bucket_size
get_bucket_size-IsLeast ssp size =
    let e : (2 + (ssp + 1)) - 2 ≡ suc ssp = omega arith in
    grow_bucket-IsLeast (ssp + 1) ssp (max size 1024) 2 (omega arith)
      (λ c m k. absurd (omega arith))
      (subst (λ x. 2 ^ ssp < (max size 1024) ^ x) (sym e)
        (exceeds ssp (max size 1024) (omega arith)))
