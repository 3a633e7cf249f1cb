-- ===== src/TriplePool/Fold.antt =====
-- A layer folded into the accumulators of both parties: bucket_one_layer of
-- emp-ag2pc/backend/triple_pool.h.
use emp_ag2pc.Prelude.{
  ℕ, ◌<◌, ◌≡◌, refl, ap, ap₂, ◌∙◌, Bool, false, ◌^^◌, ^^_comm, List, length, get_or,
  length-tabulate, get_or-tabulate, arith,
}
use emp_ag2pc.Block.{BlockOps, Block, lsb}
use emp_ag2pc.HalfGate.Defs.{shared}
use emp_ag2pc.TriplePool.Defs.{
  Candidate, zero_candidate, candidate, shifted, bucket_bits, bucket_one_layer,
}
use emp_ag2pc.TriplePool.Run.{bucket_layer}
use emp_ag2pc.TriplePool.Leaky.{IsTriple}
use emp_ag2pc.TriplePool.Combine.{combined, combined-IsTriple}
use emp_ag2pc.TriplePool.Layer.{Layers}

-- The shifted index stays in the layer.
shifted_lt : (n r i : ℕ) → r < n → i < n → shifted n r i < n
unfolding shifted
shifted_lt n r i h k = ground arith

module _ ⦃B : BlockOps⦄ where
  get_or-bucket_bits :
      (acc layer : List Candidate) (r i : ℕ)
      → i < length acc
      → get_or (bucket_bits acc layer r) i false
        ≡ lsb (candidate acc i).b.mac ^^ lsb (candidate layer (shifted (length acc) r i)).b.mac
  unfolding bucket_bits
  get_or-bucket_bits acc layer r i h = get_or-tabulate (length acc) i _ false h

  candidate-bucket_one_layer :
      (acc layer : List Candidate) (r i : ℕ) (x y : List Bool) (d : Bool)
      → i < length acc
      → get_or x i false ^^ get_or y i false ≡ d
      → candidate (bucket_one_layer acc layer r x y) i
        ≡ combined (candidate acc i) (candidate layer (shifted (length acc) r i)) d
  unfolding bucket_one_layer
  candidate-bucket_one_layer acc layer r i x y d h p =
      get_or-tabulate (length acc) i _ zero_candidate h
      ∙ ap (combined (candidate acc i) (candidate layer (shifted (length acc) r i))) p

  length-bucket_one_layer :
      (acc layer : List Candidate) (r : ℕ) (x y : List Bool)
      → length (bucket_one_layer acc layer r x y) ≡ length acc
  unfolding bucket_one_layer
  length-bucket_one_layer acc layer r x y = length-tabulate (length acc) _

  -- Triples folded into triples, at any shift, are triples.
  pub bucket_layer-Layers :
      (delta_1 delta_2 : Block) (n r : ℕ) (acc_1 acc_2 l_1 l_2 : List Candidate)
      → r < n
      → Layers (IsTriple delta_1 delta_2) n acc_1 acc_2
      → Layers (IsTriple delta_1 delta_2) n l_1 l_2
      → let (t, u) = bucket_layer acc_1 acc_2 l_1 l_2 r in Layers (IsTriple delta_1 delta_2) n t u
  unfolding bucket_layer
  bucket_layer-Layers delta_1 delta_2 n r acc_1 acc_2 l_1 l_2 lt hs ls = record {
    length_1 = length-bucket_one_layer acc_1 l_1 r _ _ ∙ hs.length_1;
    length_2 = length-bucket_one_layer acc_2 l_2 r _ _ ∙ hs.length_2;
    at = λ i k.
        let i_1 : i < length acc_1 = omega (arith, hs.length_1) in
        let i_2 : i < length acc_2 = omega (arith, hs.length_2) in
        rw
          (
            candidate-bucket_one_layer acc_1 l_1 r i d_1 d_2 (difference i) i_1 (opened i i_1 i_2),
            candidate-bucket_one_layer acc_2 l_2 r i d_2 d_1 (difference i) i_2 (opened' i i_1 i_2),
            hs.length_1,
            hs.length_2,
          )
          (combined-IsTriple _ _ _ _ _ (hs.at i k) (ls.at (shifted n r i) (shifted_lt n r i lt k))
            refl);
  }
    where
      d_1 : List Bool
      d_1 = bucket_bits acc_1 l_1 r

      d_2 : List Bool
      d_2 = bucket_bits acc_2 l_2 r

      difference : ℕ → Bool
      difference i =
          let j = shifted n r i in
          shared (candidate acc_1 i).b (candidate acc_2 i).b
          ^^ shared (candidate l_1 j).b (candidate l_2 j).b

      opened :
          (i : ℕ)
          → i < length acc_1
          → i < length acc_2
          → get_or d_1 i false ^^ get_or d_2 i false ≡ difference i
      opened i h k =
          ap₂ ◌^^◌ (get_or-bucket_bits acc_1 l_1 r i h) (get_or-bucket_bits acc_2 l_2 r i k)
          ∙ rw (hs.length_1, hs.length_2) (ground arith)

      opened' :
          (i : ℕ)
          → i < length acc_1
          → i < length acc_2
          → get_or d_2 i false ^^ get_or d_1 i false ≡ difference i
      opened' i h k = ^^_comm (get_or d_2 i false) (get_or d_1 i false) ∙ opened i h k
