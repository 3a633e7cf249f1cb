-- ===== src/TriplePool/Run.antt =====
-- A run of compute_inplace of emp-ag2pc/backend/triple_pool.h by two parties that exchange the
-- messages that the operations of TriplePool/Defs make. The shares that gen_cot_shares mints are
-- streams, of which `minted` are spent; `coin k` is the word that layer `k` draws from the transcript.
use emp_ag2pc.Prelude.{
  ℕ, zero, suc, ◌+◌, ◌-◌, ◌*◌, ◌%◌, Bool, ◌^^◌, List, [], ◌++◌, Option, some, ◌==◌, if◌then◌else◌,
  zip_with, tabulate, ◌>>=◌, ◌>>◌,
}
use emp_ag2pc.Block.{BlockOps, Block}
use emp_ag2pc.Wires.{AShareBundle}
use emp_ag2pc.Protocol.Defs.{Hashing}
use emp_ag2pc.FEq.{feq_check}
use emp_ag2pc.TriplePool.BucketSize.{get_bucket_size}
use emp_ag2pc.TriplePool.Defs.{
  Candidate, next_tweak, half_gates, leaky_shares, s_bits, fold_d, fold_s, bucket_bits,
  bucket_one_layer, representative, x_bits, y_bits, reconcile,
}

-- The bits that both parties open, `xb` or `yb`.
abbrev pub opened_bits : List Bool → List Bool → List Bool
opened_bits me peer = zip_with (λ a b. a ^^ b) me peer

module _ ⦃B : BlockOps⦄ where
  -- `gen_cot_shares` of a part of `n` shares, from share `from` of the stream on.
  unfoldable pub gen_cot_shares : (ℕ → AShareBundle) → ℕ → ℕ → List AShareBundle
  gen_cot_shares mint from n = tabulate n (λ i. mint (from + i))

  -- The three regions of a sacrifice layer.
  unfoldable pub sacrifice : (ℕ → AShareBundle) → ℕ → ℕ → List Candidate
  sacrifice mint from n = tabulate n (λ i. record {
    a = mint (from + i);
    b = mint (from + (n + i));
    c = mint (from + (2 * n + i));
  })

  -- Both parties fold a layer into the accumulators.
  unfoldable pub bucket_layer :
      List Candidate
      → List Candidate
      → List Candidate
      → List Candidate
      → ℕ
      → List Candidate × List Candidate
  bucket_layer acc_1 acc_2 l_1 l_2 r =
      let d_1 = bucket_bits acc_1 l_1 r in
      let d_2 = bucket_bits acc_2 l_2 r in
      (bucket_one_layer acc_1 l_1 r d_1 d_2, bucket_one_layer acc_2 l_2 r d_2 d_1)

  module _ (bit0_mask : Block) (h : ℕ → Block → Block) where
    -- What a party makes of a layer when it receives half gates and the peer's bits: the layer and
    -- the L-vector.
    unfoldable pub leaky_and_halfgate :
        ℕ → Block → ℕ → List Candidate → List Block → List Bool → List Candidate × List Block
    leaky_and_halfgate party delta gid layer w s_peer =
        let s = leaky_shares h delta gid layer w in
        (fold_d bit0_mask party delta layer (s_bits s) s_peer, fold_s delta s (s_bits s) s_peer)

    -- What the two parties have while they fold layers: the accumulators, the tweak, and the
    -- blocks hashed for F_eq.
    pub record Bucket : Type 0 where
      pub acc_1 : List Candidate
      pub acc_2 : List Candidate
      pub gid : ℕ
      pub minted : ℕ
      pub hashed_1 : List Block
      pub hashed_2 : List Block

    -- Both parties run the leaky AND on a layer.
    unfoldable pub leaky_layer :
        Block
        → Block
        → ℕ
        → List Candidate
        → List Candidate
        → (List Candidate × List Block) × (List Candidate × List Block)
    leaky_layer delta_1 delta_2 gid l_1 l_2 =
        let w_1 = half_gates h delta_1 gid l_1 in
        let w_2 = half_gates h delta_2 gid l_2 in
        let s_1 = s_bits (leaky_shares h delta_1 gid l_1 w_2) in
        let s_2 = s_bits (leaky_shares h delta_2 gid l_2 w_1) in
        (leaky_and_halfgate 1 delta_1 gid l_1 w_2 s_2, leaky_and_halfgate 2 delta_2 gid l_2 w_1 s_1)

    module _ (delta_1 delta_2 : Block) (mint_1 mint_2 : ℕ → AShareBundle) (coin : ℕ → ℕ)
        (n : ℕ) where
      -- One turn of the loop over the sacrifice layers.
      unfoldable pub sacrifice_layer : ℕ → Bucket → Bucket
      sacrifice_layer k u =
          let ((l_1, v_1), (l_2, v_2)) =
            leaky_layer delta_1 delta_2 u.gid (sacrifice mint_1 u.minted n)
              (sacrifice mint_2 u.minted n) in
          let (acc_1, acc_2) = bucket_layer u.acc_1 u.acc_2 l_1 l_2 (coin k % n) in
          record {
            acc_1 = acc_1;
            acc_2 = acc_2;
            gid = next_tweak u.gid n;
            minted = u.minted + 3 * n;
            hashed_1 = u.hashed_1 ++ v_1;
            hashed_2 = u.hashed_2 ++ v_2;
          }

      unfoldable pub layered_bucket_into_acc : ℕ → ℕ → Bucket → Bucket
      layered_bucket_into_acc k zero u = u
      layered_bucket_into_acc k (suc left) u =
          layered_bucket_into_acc (k + 1) left (sacrifice_layer k u)

      -- Layer 0 on the masks of the operands.
      unfoldable pub first_layer :
          List AShareBundle → List AShareBundle → List AShareBundle → List AShareBundle → ℕ → Bucket
      first_layer rep_a_1 rep_b_1 rep_a_2 rep_b_2 from =
          let ((acc_1, v_1), (acc_2, v_2)) =
            leaky_layer delta_1 delta_2 0
              (representative rep_a_1 rep_b_1 (gen_cot_shares mint_1 from n))
              (representative rep_a_2 rep_b_2 (gen_cot_shares mint_2 from n)) in
          record {
            acc_1 = acc_1;
            acc_2 = acc_2;
            gid = next_tweak 0 n;
            minted = from + n;
            hashed_1 = v_1;
            hashed_2 = v_2;
          }

      module _ (H : Hashing Block) (commit : H.Digest → Block → H.Digest) (nonce : Block)
          (ssp : ℕ) where
        unfoldable pub compute_inplace :
            List AShareBundle
            → List AShareBundle
            → List AShareBundle
            → List AShareBundle
            → ℕ
            → Option (List AShareBundle × List AShareBundle)
        compute_inplace rep_a_1 rep_b_1 rep_a_2 rep_b_2 from = if n == 0 then some ([], []) else (do
          b ← get_bucket_size ssp n
          let u =
              layered_bucket_into_acc 0 (b - 1) (first_layer rep_a_1 rep_b_1 rep_a_2 rep_b_2 from)
          let xb_1 = x_bits rep_a_1 u.acc_1
          let xb_2 = x_bits rep_a_2 u.acc_2
          let yb_1 = y_bits rep_b_1 u.acc_1
          let yb_2 = y_bits rep_b_2 u.acc_2
          feq_check H commit (H.hash_once u.hashed_1) (H.hash_once u.hashed_2) nonce
          some (
            reconcile bit0_mask 1 delta_1 u.acc_1 (opened_bits xb_1 xb_2) (opened_bits yb_1 yb_2),
            reconcile bit0_mask 2 delta_2 u.acc_2 (opened_bits xb_2 xb_1) (opened_bits yb_2 yb_1),
          ))
