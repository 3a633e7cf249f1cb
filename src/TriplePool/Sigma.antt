-- ===== src/TriplePool/Sigma.antt =====
-- The shares of sigma at the end of compute_inplace of emp-ag2pc/backend/triple_pool.h from both sides.
use emp_ag2pc.Prelude.{
  ℕ, zero, suc, ◌-◌, ◌<◌, ◌≡◌, refl, sym, ap, ap₂, ◌∙◌, Bool, true, false, ◌^^◌, ^^_comm, ◌&&◌,
  List, [], ◌∷◌, length, get_or, length-tabulate, get_or-tabulate, arith, ◌==◌, ==_iff, Bool-cases,
  inl, inr, some,
}
use emp_ag2pc.Block.{BlockOps, Block, ◌⊕◌, lsb, lsb1}
use emp_ag2pc.Wires.{AShareBundle, zero_bundle}
use emp_ag2pc.HalfGate.Defs.{shared}
use emp_ag2pc.Protocol.Defs.{Hashing}
use emp_ag2pc.Protocol.Lists.{get_or-zip_with}
use emp_ag2pc.FEq.{feq_check_iff}
use emp_ag2pc.TriplePool.BucketSize.{get_bucket_size-IsLeast}
use emp_ag2pc.TriplePool.Defs.{
  Candidate, candidate, x_bits, y_bits, reconcile, add_public, add_masked,
}
use emp_ag2pc.TriplePool.Run.{layered_bucket_into_acc, first_layer, opened_bits, compute_inplace}
use emp_ag2pc.TriplePool.Shared.{Shared}
use emp_ag2pc.TriplePool.Leaky.{IsTriple}
use emp_ag2pc.TriplePool.Combine.{sigma-Shared}
use emp_ag2pc.TriplePool.Layer.{Layers}
use emp_ag2pc.TriplePool.Inplace.{SharedLists, Folded, layered-Folded, first_layer-Folded}

module _ ⦃B : BlockOps⦄ where
  -- A party's share of sigma, from a triple and the opened differences.
  abbrev sigma_share : Block → ℕ → Block → Candidate → Bool → Bool → AShareBundle
  sigma_share e party delta t x y =
      add_public e party delta (x && y) (add_masked (add_masked t.c t.b x) t.a y)

  -- The two parties' shares of the ANDs: authenticated both ways, and of the products of the bits
  -- that the shares of the operands stand for.
  pub record AreProducts (delta_1 delta_2 : Block) (n : ℕ)
      (a_1 b_1 a_2 b_2 s_1 s_2 : List AShareBundle) : Type 0 where
    pub shares : SharedLists delta_1 delta_2 n s_1 s_2
    pub products :
        (i : ℕ)
        → i < n
        → shared (get_or s_1 i zero_bundle) (get_or s_2 i zero_bundle)
          ≡ shared (get_or a_1 i zero_bundle) (get_or a_2 i zero_bundle)
            && shared (get_or b_1 i zero_bundle) (get_or b_2 i zero_bundle)

  module _ (delta_1 delta_2 : Block) (n : ℕ) (a_1 a_2 b_1 b_2 : List AShareBundle)
      (acc_1 acc_2 : List Candidate) (hs : Layers (IsTriple delta_1 delta_2) n acc_1 acc_2) where
    -- The opened differences between the operands' masks and the triples.
    x-at :
        (i : ℕ)
        → i < n
        → (get_or (x_bits a_1 acc_1) i false ^^ get_or (x_bits a_2 acc_2) i false
            ≡ shared (get_or a_1 i zero_bundle) (get_or a_2 i zero_bundle)
              ^^ shared (candidate acc_1 i).a (candidate acc_2 i).a)
          × (get_or (y_bits b_1 acc_1) i false ^^ get_or (y_bits b_2 acc_2) i false
              ≡ shared (get_or b_1 i zero_bundle) (get_or b_2 i zero_bundle)
                ^^ shared (candidate acc_1 i).b (candidate acc_2 i).b)
    unfolding x_bits y_bits
    x-at i h =
        let l_1 : i < length acc_1 = omega (arith, hs.length_1) in
        let l_2 : i < length acc_2 = omega (arith, hs.length_2) in
        (
          ap₂ ◌^^◌ (get_or-tabulate (length acc_1) i _ false l_1)
                (get_or-tabulate (length acc_2) i _ false l_2)
              ∙ (ground arith),
          ap₂ ◌^^◌ (get_or-tabulate (length acc_1) i _ false l_1)
                (get_or-tabulate (length acc_2) i _ false l_2)
              ∙ (ground arith),
        )

    reconciled :
        (e : Block) (xb_1 xb_2 yb_1 yb_2 : List Bool)
        → lsb e ≡ true
        → ((i : ℕ)
            → i < n
            → get_or xb_1 i false
              ≡ get_or (x_bits a_1 acc_1) i false ^^ get_or (x_bits a_2 acc_2) i false)
        → ((i : ℕ) → i < n → get_or xb_2 i false ≡ get_or xb_1 i false)
        → ((i : ℕ)
            → i < n
            → get_or yb_1 i false
              ≡ get_or (y_bits b_1 acc_1) i false ^^ get_or (y_bits b_2 acc_2) i false)
        → ((i : ℕ) → i < n → get_or yb_2 i false ≡ get_or yb_1 i false)
        → AreProducts delta_1 delta_2 n a_1 b_1 a_2 b_2
            (reconcile e 1 delta_1 acc_1 xb_1 yb_1)
            (reconcile e 2 delta_2 acc_2 xb_2 yb_2)
    unfolding reconcile
    reconciled e xb_1 xb_2 yb_1 yb_2 one px qx py qy = record {
      shares = record {
        length_1 = length-tabulate (length acc_1) _ ∙ hs.length_1;
        length_2 = length-tabulate (length acc_2) _ ∙ hs.length_2;
        at = λ i h. rw (entry_1 i h, entry_2 i h, qx i h, qy i h) (sigma i h).0;
      };
      products = λ i h. rw (entry_1 i h, entry_2 i h, qx i h, qy i h) (sigma i h).1;
    }
      where
        entry_1 :
            (i : ℕ)
            → i < n
            → get_or (reconcile e 1 delta_1 acc_1 xb_1 yb_1) i zero_bundle
              ≡ sigma_share e 1 delta_1
                  (candidate acc_1 i)
                  (get_or xb_1 i false)
                  (get_or yb_1 i false)
        entry_1 i h = get_or-tabulate (length acc_1) i _ zero_bundle (omega (arith, hs.length_1))

        entry_2 :
            (i : ℕ)
            → i < n
            → get_or (reconcile e 2 delta_2 acc_2 xb_2 yb_2) i zero_bundle
              ≡ sigma_share e 2 delta_2
                  (candidate acc_2 i)
                  (get_or xb_2 i false)
                  (get_or yb_2 i false)
        entry_2 i h = get_or-tabulate (length acc_2) i _ zero_bundle (omega (arith, hs.length_2))

        sigma :
            (i : ℕ)
            → i < n
            → let w =
                sigma_share e 1 delta_1
                  (candidate acc_1 i)
                  (get_or xb_1 i false)
                  (get_or yb_1 i false) in
              let v =
                sigma_share e 2 delta_2
                  (candidate acc_2 i)
                  (get_or xb_1 i false)
                  (get_or yb_1 i false) in
              Shared delta_1 delta_2 w v
              × (shared w v
                  ≡ shared (get_or a_1 i zero_bundle) (get_or a_2 i zero_bundle)
                    && shared (get_or b_1 i zero_bundle) (get_or b_2 i zero_bundle))
        sigma i h =
            sigma-Shared e (candidate acc_1 i) (candidate acc_2 i) (get_or xb_1 i false)
              (get_or yb_1 i false) (shared (get_or a_1 i zero_bundle) (get_or a_2 i zero_bundle))
              (shared (get_or b_1 i zero_bundle) (get_or b_2 i zero_bundle)) one (hs.at i h)
              (px i h ∙ (x-at i h).0) (py i h ∙ (x-at i h).1)

  opened-at :
      (xs ys : List Bool) (i : ℕ)
      → i < length xs
      → length xs ≡ length ys
      → get_or (opened_bits xs ys) i false ≡ get_or xs i false ^^ get_or ys i false
  opened-at xs ys i h l = get_or-zip_with (λ a b. a ^^ b) xs ys i false false false h l

  opened_comm :
      (xs ys : List Bool) (i : ℕ)
      → length xs ≡ length ys
      → get_or (opened_bits ys xs) i false ≡ get_or (opened_bits xs ys) i false
  opened_comm [] [] i l = refl
  opened_comm [] (y ∷ ys) i l = absurd (omega arith)
  opened_comm (x ∷ xs) [] i l = absurd (omega arith)
  opened_comm (x ∷ xs) (y ∷ ys) zero l = ^^_comm y x
  opened_comm (x ∷ xs) (y ∷ ys) (suc i) l = opened_comm xs ys i (omega arith)

  length-x_bits :
      (a : List AShareBundle) (acc : List Candidate) → length (x_bits a acc) ≡ length acc
  unfolding x_bits
  length-x_bits a acc = length-tabulate (length acc) _

  length-y_bits :
      (b : List AShareBundle) (acc : List Candidate) → length (y_bits b acc) ≡ length acc
  unfolding y_bits
  length-y_bits b acc = length-tabulate (length acc) _

  -- When all shares that the parties mint are authenticated both ways, the operands'
  -- masks are shared alike, bit 0 of the mask block and bit 1 of the sum of the deltas are set: for
  -- every hash, digest, commitment, nonce, coin and security parameter, compute_inplace ends, its
  -- check passes, and each output is a share, authenticated both ways, of the product of the bits
  -- that the operands' masks stand for.
  pub compute_inplace-AreProducts :
      (e : Block) (h : ℕ → Block → Block) (delta_1 delta_2 : Block)
      (mint_1 mint_2 : ℕ → AShareBundle) (coin : ℕ → ℕ) (n : ℕ) (H : Hashing Block)
      (commit : H.Digest → Block → H.Digest) (nonce : Block) (ssp from : ℕ)
      (a_1 b_1 a_2 b_2 : List AShareBundle)
      → lsb e ≡ true
      → lsb1 (delta_1 ⊕ delta_2) ≡ true
      → ((i : ℕ) → Shared delta_1 delta_2 (mint_1 i) (mint_2 i))
      → SharedLists delta_1 delta_2 n a_1 a_2
      → SharedLists delta_1 delta_2 n b_1 b_2
      → (s_1 : List AShareBundle) × (s_2 : List AShareBundle) × (compute_inplace e h delta_1 delta_2
            mint_1 mint_2 coin n H commit nonce ssp a_1 b_1 a_2 b_2 from
          ≡ some (s_1, s_2))
        × AreProducts delta_1 delta_2 n a_1 b_1 a_2 b_2 s_1 s_2
  unfolding compute_inplace
  compute_inplace-AreProducts e h delta_1 delta_2 mint_1 mint_2 coin n H commit nonce ssp from a_1
        b_1 a_2 b_2 one odd minted ha hb =
      elim (Bool-cases (n == 0)) [
        | inl z ↦
            let n_0 : n ≡ 0 = (==_iff n 0).0 z in
            (
              [],
              [],
              rw z refl,
              record {
                shares = record {
                  length_1 = sym n_0;
                  length_2 = sym n_0;
                  at = λ i k. absurd (omega arith);
                };
                products = λ i k. absurd (omega arith);
              },
            )
        | inr z ↦
            let (b, size, l) = get_bucket_size-IsLeast ssp n in
            let u =
              layered_bucket_into_acc e h delta_1 delta_2 mint_1 mint_2 coin n 0 (b - 1)
                (first_layer e h delta_1 delta_2 mint_1 mint_2 coin n a_1 b_1 a_2 b_2 from) in
            let pos : 0 < n = ground arith in
            let f : Folded e h delta_1 delta_2 n u =
              layered-Folded e h delta_1 delta_2 mint_1 mint_2 coin n one odd pos minted 0 (b - 1) _
                (first_layer-Folded e h delta_1 delta_2 mint_1 mint_2 coin n one odd pos minted from
                  a_1 b_1 a_2 b_2 ha hb) in
            let t = f.triples in
            let passed =
              (feq_check_iff H commit (H.hash_once u.hashed_1) (H.hash_once u.hashed_2) nonce).1
                (ap H.hash_once f.hashed) in
            let lx_1 = length-x_bits a_1 u.acc_1 in
            let lx_2 = length-x_bits a_2 u.acc_2 in
            let ly_1 = length-y_bits b_1 u.acc_1 in
            let ly_2 = length-y_bits b_2 u.acc_2 in
            (
              reconcile e 1 delta_1 u.acc_1 (opened_bits (x_bits a_1 u.acc_1) (x_bits a_2 u.acc_2))
                  (opened_bits (y_bits b_1 u.acc_1) (y_bits b_2 u.acc_2)),
              reconcile e 2 delta_2 u.acc_2 (opened_bits (x_bits a_2 u.acc_2) (x_bits a_1 u.acc_1))
                  (opened_bits (y_bits b_2 u.acc_2) (y_bits b_1 u.acc_1)),
              rw (z, size, passed) refl,
              reconciled delta_1 delta_2 n a_1 a_2 b_1 b_2 u.acc_1 u.acc_2 t e _ _ _ _ one
                  (λ i k.
                    opened-at _ _ i (omega (arith, lx_1, t.length_1))
                      (omega (arith, lx_1, lx_2, t.length_1, t.length_2)))
                  (λ i k. opened_comm _ _ i (omega (arith, lx_1, lx_2, t.length_1, t.length_2)))
                  (λ i k.
                    opened-at _ _ i (omega (arith, ly_1, t.length_1))
                      (omega (arith, ly_1, ly_2, t.length_1, t.length_2)))
                  (λ i k. opened_comm _ _ i (omega (arith, ly_1, ly_2, t.length_1, t.length_2))),
            )
      ]
