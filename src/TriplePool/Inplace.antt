-- ===== src/TriplePool/Inplace.antt =====
-- The layers of compute_inplace of emp-ag2pc/backend/triple_pool.h from both sides.
use emp_ag2pc.Prelude.{
  ℕ, zero, suc, ◌+◌, ◌*◌, ◌%◌, ◌<◌, ◌≡◌, ap₂, ◌∙◌, true, List, ◌++◌, length, get_or,
  length-tabulate, get_or-tabulate, arith,
}
use native.Mathlib.Nat.{mod-lt}
use emp_ag2pc.Block.{BlockOps, Block, ◌⊕◌, lsb, lsb1}
use emp_ag2pc.Wires.{AShareBundle, zero_bundle}
use emp_ag2pc.TriplePool.Defs.{zero_candidate, candidate, representative}
use emp_ag2pc.TriplePool.Run.{
  gen_cot_shares, sacrifice, Bucket, sacrifice_layer, layered_bucket_into_acc, first_layer,
}
use emp_ag2pc.TriplePool.Shared.{Shared}
use emp_ag2pc.TriplePool.Leaky.{AreShared, IsTriple}
use emp_ag2pc.TriplePool.Layer.{Layers, leaky_layer-Layers}
use emp_ag2pc.TriplePool.Fold.{bucket_layer-Layers}

module _ ⦃B : BlockOps⦄ where
  -- Entries of two lists of `n` shares are authenticated both ways.
  pub record SharedLists (delta_1 delta_2 : Block) (n : ℕ) (ws vs : List AShareBundle)
      : Type 0 where
    pub length_1 : length ws ≡ n
    pub length_2 : length vs ≡ n
    pub at :
        (i : ℕ) → i < n → Shared delta_1 delta_2 (get_or ws i zero_bundle) (get_or vs i zero_bundle)

  candidate-sacrifice :
      (mint : ℕ → AShareBundle) (from n i : ℕ)
      → i < n
      → candidate (sacrifice mint from n) i
        ≡ record { a = mint (from + i); b = mint (from + (n + i)); c = mint (from + (2 * n + i)) }
  unfolding sacrifice
  candidate-sacrifice mint from n i h = get_or-tabulate n i _ zero_candidate h

  module _ (delta_1 delta_2 : Block) (mint_1 mint_2 : ℕ → AShareBundle)
      (minted : (i : ℕ) → Shared delta_1 delta_2 (mint_1 i) (mint_2 i)) (n : ℕ) where
    sacrifice-Layers :
        (from : ℕ)
        → Layers (AreShared delta_1 delta_2) n (sacrifice mint_1 from n) (sacrifice mint_2 from n)
    unfolding sacrifice
    sacrifice-Layers from = record {
      length_1 = length-tabulate n _;
      length_2 = length-tabulate n _;
      at = λ i h.
          rw (candidate-sacrifice mint_1 from n i h, candidate-sacrifice mint_2 from n i h)
            (record {
              shared_a = minted (from + i);
              shared_b = minted (from + (n + i));
              shared_c = minted (from + (2 * n + i));
            });
    }

    representative-Layers :
        (from : ℕ) (a_1 b_1 a_2 b_2 : List AShareBundle)
        → SharedLists delta_1 delta_2 n a_1 a_2
        → SharedLists delta_1 delta_2 n b_1 b_2
        → Layers
            (AreShared delta_1 delta_2)
            n
            (representative a_1 b_1 (gen_cot_shares mint_1 from n))
            (representative a_2 b_2 (gen_cot_shares mint_2 from n))
    unfolding representative gen_cot_shares
    representative-Layers from a_1 b_1 a_2 b_2 ha hb = record {
      length_1 = length-tabulate (length a_1) _ ∙ ha.length_1;
      length_2 = length-tabulate (length a_2) _ ∙ ha.length_2;
      at = λ i h.
          rw
            (
              get_or-tabulate (length a_1) i _ zero_candidate (omega (arith, ha.length_1)),
              get_or-tabulate (length a_2) i _ zero_candidate (omega (arith, ha.length_2)),
              get_or-tabulate n i (λ i. mint_1 (from + i)) zero_bundle h,
              get_or-tabulate n i (λ i. mint_2 (from + i)) zero_bundle h,
            )
            (record { shared_a = ha.at i h; shared_b = hb.at i h; shared_c = minted (from + i) });
    }

  module _ (e : Block) (h : ℕ → Block → Block) where
    -- What holds of both parties between layers.
    pub record Folded (delta_1 delta_2 : Block) (n : ℕ) (u : Bucket e h) : Type 0 where
      pub triples : Layers (IsTriple delta_1 delta_2) n u.acc_1 u.acc_2
      pub hashed : u.hashed_1 ≡ u.hashed_2

    module _ (delta_1 delta_2 : Block) (mint_1 mint_2 : ℕ → AShareBundle) (coin : ℕ → ℕ) (n : ℕ)
        (one : lsb e ≡ true) (odd : lsb1 (delta_1 ⊕ delta_2) ≡ true) (some_gates : 0 < n)
        (minted : (i : ℕ) → Shared delta_1 delta_2 (mint_1 i) (mint_2 i)) where
      sacrifice_layer-Folded :
          (k : ℕ) (u : Bucket e h)
          → Folded delta_1 delta_2 n u
          → Folded delta_1 delta_2 n (sacrifice_layer e h delta_1 delta_2 mint_1 mint_2 coin n k u)
      unfolding sacrifice_layer
      sacrifice_layer-Folded k u f =
          let (ls, v) =
            leaky_layer-Layers e h delta_1 delta_2 u.gid n _ _
              (sacrifice-Layers delta_1 delta_2 mint_1 mint_2 minted n u.minted) one odd in
          record {
            triples =
                bucket_layer-Layers delta_1 delta_2 n (coin k % n) _ _ _ _
                  (mod-lt (coin k) some_gates) f.triples ls;
            hashed = ap₂ ◌++◌ f.hashed v;
          }

      pub layered-Folded :
          (k left : ℕ) (u : Bucket e h)
          → Folded delta_1 delta_2 n u
          → Folded delta_1 delta_2 n
              (layered_bucket_into_acc e h delta_1 delta_2 mint_1 mint_2 coin n k left u)
      unfolding layered_bucket_into_acc
      layered-Folded k zero u f = f
      layered-Folded k (suc left) u f = layered-Folded (k + 1) left _ (sacrifice_layer-Folded k u f)

      pub first_layer-Folded :
          (from : ℕ) (a_1 b_1 a_2 b_2 : List AShareBundle)
          → SharedLists delta_1 delta_2 n a_1 a_2
          → SharedLists delta_1 delta_2 n b_1 b_2
          → Folded delta_1 delta_2 n
              (first_layer e h delta_1 delta_2 mint_1 mint_2 coin n a_1 b_1 a_2 b_2 from)
      unfolding first_layer
      first_layer-Folded from a_1 b_1 a_2 b_2 ha hb =
          let (ls, v) =
            leaky_layer-Layers e h delta_1 delta_2 0 n _ _
              (representative-Layers delta_1 delta_2 mint_1 mint_2 minted n from a_1 b_1 a_2 b_2 ha
                hb)
              one odd in
          record { triples = ls; hashed = v }
