-- ===== src/Tests/TriplePool.antt =====
-- One AND share made in place, on two-bit blocks.
use emp_ag2pc.Prelude.{
  ℕ, zero, suc, ◌<◌, ◌≡◌, ◌↔◌, refl, ap, drop, true, false, List, [], ◌∷◌, some, get_or, max, arith,
}
use emp_ag2pc.Block.{lsb, lsb1}
use emp_ag2pc.Wires.{AShareBundle, zero_bundle}
use emp_ag2pc.FEq.{feq_check_1, feq_check_2, feq_check_binds}
use emp_ag2pc.TriplePool.BucketSize.{
  get_bucket_size, grow_bucket, too_few, IsLeast, get_bucket_size-IsLeast,
}
use emp_ag2pc.TriplePool.Run.{compute_inplace}
use emp_ag2pc.TriplePool.Shared.{Shared}
use emp_ag2pc.TriplePool.Inplace.{SharedLists}
use emp_ag2pc.TriplePool.Sigma.{AreProducts, compute_inplace-AreProducts}
use emp_ag2pc.Tests.Bits.{Bits, bits, two_bits}
use emp_ag2pc.Tests.HalfGate.{delta_g, delta_e, share_g, share_e, zero_key, one_key, flip}
use emp_ag2pc.Tests.Protocol.{plain}

abbrev bit0 : Bits
bit0 = bits true false

-- Every minted share is of the bit 1.
abbrev mint_g : ℕ → AShareBundle
mint_g i = share_g true one_key zero_key

abbrev mint_e : ℕ → AShareBundle
mint_e i = share_e false zero_key one_key

abbrev commit : List Bits → Bits → List Bits
commit d r = r ∷ d

commit_injective : (d e : List Bits) (r q : Bits) → commit d r ≡ commit e q → d ≡ e
commit_injective d e r q h = ap (drop 1) h

mint-Shared : (i : ℕ) → Shared delta_g delta_e (mint_g i) (mint_e i)
unfolding lsb
mint-Shared i = record { auth_1 = refl; auth_2 = refl }

abbrev lists_g : List AShareBundle
lists_g = mint_g 0 ∷ []

abbrev lists_e : List AShareBundle
lists_e = mint_e 0 ∷ []

lists-SharedLists : SharedLists delta_g delta_e 1 lists_g lists_e
unfolding lsb
lists-SharedLists = record { length_1 = refl; length_2 = refl; at = at }
  where
    at :
        (i : ℕ)
        → i < 1
        → Shared delta_g delta_e (get_or lists_g i zero_bundle) (get_or lists_e i zero_bundle)
    at zero h = mint-Shared 0
    at (suc i) h = absurd (omega arith)

compute_inplace-AreProducts_example :
    (s_1 : List AShareBundle) × (s_2 : List AShareBundle) × (compute_inplace bit0
        (λ t. flip)
        delta_g
        delta_e
        mint_g
        mint_e
        (λ k. k)
        1
        plain
        commit
        zero_key
        40
        lists_g
        lists_g
        lists_e
        lists_e
        0
      ≡ some (s_1, s_2))
    × AreProducts delta_g delta_e 1 lists_g lists_g lists_e lists_e s_1 s_2
unfolding lsb lsb1
compute_inplace-AreProducts_example =
    compute_inplace-AreProducts bit0 (λ t. flip) delta_g delta_e mint_g mint_e (λ k. k) 1 plain
      commit zero_key 40 0 lists_g lists_g lists_e lists_e refl refl mint-Shared lists-SharedLists
      lists-SharedLists

get_bucket_size-IsLeast_example :
    (b : ℕ) × (get_bucket_size 40 5000 ≡ some b) × IsLeast 40 (max 5000 1024) b
get_bucket_size-IsLeast_example = get_bucket_size-IsLeast 40 5000

-- At the default security parameter, small chunks take buckets of 6.
small_buckets : get_bucket_size 40 1 ≡ some 6
unfolding get_bucket_size grow_bucket too_few
small_buckets = refl

feq_check_binds_example :
    ((reply : List Bits)
      → (feq_check_1 plain commit (one_key ∷ []) reply ≡ some tt) ↔ (one_key ∷ [] ≡ reply))
    × ((d : List Bits) (r : Bits)
        → (feq_check_2 plain commit (one_key ∷ []) (zero_key ∷ one_key ∷ []) d r ≡ some tt)
          ↔ ((commit d r ≡ zero_key ∷ one_key ∷ []) × (one_key ∷ [] ≡ d)))
    × ((d e : List Bits) (r q : Bits)
        → feq_check_2 plain commit (one_key ∷ []) (zero_key ∷ one_key ∷ []) d r ≡ some tt
        → feq_check_2 plain commit [] (zero_key ∷ one_key ∷ []) e q ≡ some tt
        → one_key ∷ [] ≡ [])
feq_check_binds_example =
    feq_check_binds plain commit commit_injective (one_key ∷ []) [] (zero_key ∷ one_key ∷ [])
