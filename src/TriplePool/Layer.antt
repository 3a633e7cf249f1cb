-- ===== src/TriplePool/Layer.antt =====
-- Whole layers from both sides: leaky_and_halfgate and bucket_one_layer of
-- emp-ag2pc/backend/triple_pool.h.
use emp_ag2pc.Prelude.{
  ℕ, ◌+◌, ◌<◌, ◌≡◌, refl, sym, ap, ap₂, ◌∙◌, Bool, true, false, ◌^^◌, ^^_comm, ◌&&◌, List, length,
  get_or, length-tabulate, get_or-tabulate, arith,
}
use emp_ag2pc.Block.{BlockOps, Block, zero_block, ◌⊕◌, mask, lsb, lsb1}
use emp_ag2pc.HalfGate.Defs.{shared}
use emp_ag2pc.Protocol.Lists.{list_ext, get_or-map}
use emp_ag2pc.TriplePool.Defs.{
  Candidate, zero_candidate, candidate, half_gate, leaky_share, half_gates, leaky_shares, s_bits,
  fold_d, fold_s, add_public,
}
use emp_ag2pc.TriplePool.Run.{leaky_and_halfgate, leaky_layer}
use emp_ag2pc.TriplePool.Leaky.{
  AreShared, IsTriple, leaky_share-sum, opened_bit, folded_equal, folded-IsTriple,
}

module _ ⦃B : BlockOps⦄ where
  -- Two layers of `n` candidates, related entry by entry.
  pub record Layers (P : Candidate → Candidate → Type 0) (n : ℕ) (l_1 l_2 : List Candidate)
      : Type 0 where
    pub length_1 : length l_1 ≡ n
    pub length_2 : length l_2 ≡ n
    pub at : (i : ℕ) → i < n → P (candidate l_1 i) (candidate l_2 i)

  bit-at :
      (s : List Block) (k : ℕ)
      → k < length s
      → get_or (s_bits s) k false ≡ lsb1 (get_or s k zero_block)
  unfolding s_bits
  bit-at s k h = get_or-map lsb1 s k zero_block false h

  -- A party's entry of `Sout` in an exchange.
  share-at :
      (h : ℕ → Block → Block) (delta delta' : Block) (gid n : ℕ) (l l' : List Candidate) (k : ℕ)
      → length l ≡ n
      → length l' ≡ n
      → k < n
      → get_or (leaky_shares h delta gid l (half_gates h delta' gid l')) k zero_block
        ≡ leaky_share
            (h (gid + k))
            delta
            (candidate l k)
            (half_gate (h (gid + k)) delta' (candidate l' k))
  unfolding leaky_shares half_gates
  share-at h delta delta' gid n l l' k p q r =
      get_or-tabulate (length l) k _ zero_block (omega arith)
      ∙ ap (leaky_share (h (gid + k)) delta (candidate l k))
          (get_or-tabulate (length l') k _ zero_block (omega arith))

  length-leaky_shares :
      (h : ℕ → Block → Block) (delta : Block) (gid : ℕ) (l : List Candidate) (w : List Block)
      → length (leaky_shares h delta gid l w) ≡ length l
  unfolding leaky_shares
  length-leaky_shares h delta gid l w = length-tabulate (length l) _

  candidate-fold_d :
      (e : Block) (party : ℕ) (delta : Block) (l : List Candidate) (s r : List Bool) (k : ℕ)
      (d : Bool)
      → k < length l
      → get_or s k false ^^ get_or r k false ≡ d
      → candidate (fold_d e party delta l s r) k
        ≡ record (candidate l k) { c = add_public e party delta d (candidate l k).c }
  unfolding fold_d
  candidate-fold_d e party delta l s r k d h p =
      get_or-tabulate (length l) k _ zero_candidate h
      ∙ ap (λ x. record (candidate l k) { c = add_public e party delta x (candidate l k).c }) p

  length-fold_d :
      (e : Block) (party : ℕ) (delta : Block) (l : List Candidate) (s r : List Bool)
      → length (fold_d e party delta l s r) ≡ length l
  unfolding fold_d
  length-fold_d e party delta l s r = length-tabulate (length l) _

  get_or-fold_s :
      (delta : Block) (s : List Block) (x y : List Bool) (k : ℕ) (d : Bool)
      → k < length s
      → get_or x k false ^^ get_or y k false ≡ d
      → get_or (fold_s delta s x y) k zero_block ≡ get_or s k zero_block ⊕ mask d delta
  unfolding fold_s
  get_or-fold_s delta s x y k d h p =
      get_or-tabulate (length s) k _ zero_block h ∙ ap (λ b. get_or s k zero_block ⊕ mask b delta) p

  length-fold_s :
      (delta : Block) (s : List Block) (x y : List Bool) → length (fold_s delta s x y) ≡ length s
  unfolding fold_s
  length-fold_s delta s x y = length-tabulate (length s) _

  module _ (e : Block) (h : ℕ → Block → Block) (delta_1 delta_2 : Block) (gid n : ℕ)
      (l_1 l_2 : List Candidate) (is : Layers (AreShared delta_1 delta_2) n l_1 l_2)
      (one : lsb e ≡ true) (odd : lsb1 (delta_1 ⊕ delta_2) ≡ true) where
    abbrev s_1 : List Block
    s_1 = leaky_shares h delta_1 gid l_1 (half_gates h delta_2 gid l_2)

    abbrev s_2 : List Block
    s_2 = leaky_shares h delta_2 gid l_2 (half_gates h delta_1 gid l_1)

    -- The error bit that entry `k` opens.
    abbrev error_bit : ℕ → Bool
    error_bit k =
        let t = candidate l_1 k in
        let u = candidate l_2 k in (shared t.a u.a && shared t.b u.b) ^^ shared t.c u.c

    sum-at :
        (k : ℕ)
        → k < n
        → get_or s_1 k zero_block ⊕ get_or s_2 k zero_block ≡ mask (error_bit k) (delta_1 ⊕ delta_2)
    sum-at k r =
        ap₂ ◌⊕◌ (share-at h delta_1 delta_2 gid n l_1 l_2 k is.length_1 is.length_2 r)
          (share-at h delta_2 delta_1 gid n l_2 l_1 k is.length_2 is.length_1 r)
        ∙ leaky_share-sum (h (gid + k)) delta_1 delta_2 (candidate l_1 k) (candidate l_2 k)
            (is.at k r)

    length-s_1 : length s_1 ≡ n
    length-s_1 = length-leaky_shares h delta_1 gid l_1 _ ∙ is.length_1

    length-s_2 : length s_2 ≡ n
    length-s_2 = length-leaky_shares h delta_2 gid l_2 _ ∙ is.length_2

    opened-at :
        (k : ℕ) → k < n → get_or (s_bits s_1) k false ^^ get_or (s_bits s_2) k false ≡ error_bit k
    opened-at k r =
        ap₂ ◌^^◌ (bit-at s_1 k (omega (arith, length-s_1)))
          (bit-at s_2 k (omega (arith, length-s_2)))
        ∙ opened_bit _ _ (delta_1 ⊕ delta_2) (error_bit k) odd (sum-at k r)

    opened-at' :
        (k : ℕ) → k < n → get_or (s_bits s_2) k false ^^ get_or (s_bits s_1) k false ≡ error_bit k
    opened-at' k r =
        ^^_comm (get_or (s_bits s_2) k false) (get_or (s_bits s_1) k false) ∙ opened-at k r

    folded-Layers :
        Layers
          (IsTriple delta_1 delta_2)
          n
          (fold_d e 1 delta_1 l_1 (s_bits s_1) (s_bits s_2))
          (fold_d e 2 delta_2 l_2 (s_bits s_2) (s_bits s_1))
    folded-Layers = record {
      length_1 = length-fold_d e 1 delta_1 l_1 _ _ ∙ is.length_1;
      length_2 = length-fold_d e 2 delta_2 l_2 _ _ ∙ is.length_2;
      at = λ k r.
          rw
            (
              candidate-fold_d e 1 delta_1 l_1 (s_bits s_1) (s_bits s_2) k (error_bit k)
                  (omega (arith, is.length_1)) (opened-at k r),
              candidate-fold_d e 2 delta_2 l_2 (s_bits s_2) (s_bits s_1) k (error_bit k)
                  (omega (arith, is.length_2)) (opened-at' k r),
            )
            (folded-IsTriple e delta_1 delta_2 (candidate l_1 k) (candidate l_2 k) (error_bit k) one
              (is.at k r) refl);
    }

    folded_vectors :
        fold_s delta_1 s_1 (s_bits s_1) (s_bits s_2) ≡ fold_s delta_2 s_2 (s_bits s_2) (s_bits s_1)
    folded_vectors =
        list_ext _ _ zero_block
          (length-fold_s delta_1 s_1 _ _
            ∙ length-s_1
            ∙ sym length-s_2
            ∙ sym (length-fold_s delta_2 s_2 _ _))
          (λ k r.
            let m : k < n =
              omega (arith, length-fold_s delta_1 s_1 (s_bits s_1) (s_bits s_2), length-s_1) in
            get_or-fold_s delta_1 s_1 _ _ k (error_bit k) (omega (arith, length-s_1))
              (opened-at k m)
            ∙ folded_equal _ _ delta_1 delta_2 (error_bit k) (sum-at k m)
            ∙ sym (
                get_or-fold_s delta_2 s_2 _ _ k (error_bit k) (omega (arith, length-s_2))
                  (opened-at' k m)))

    -- A leaky AND of shares makes triples, and both parties hash the same vector.
    pub leaky_layer-Layers :
        let ((t, v), (u, w)) = leaky_layer e h delta_1 delta_2 gid l_1 l_2 in
        Layers (IsTriple delta_1 delta_2) n t u × (v ≡ w)
    unfolding leaky_layer leaky_and_halfgate
    leaky_layer-Layers = (folded-Layers, folded_vectors)
