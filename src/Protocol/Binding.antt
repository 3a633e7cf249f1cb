-- ===== src/Protocol/Binding.antt =====
-- What an accepted opening of shares binds a peer to: the comparison of digests in process_inputs
-- and decode of emp-ag2pc/backend/protocol.h.
use emp_ag2pc.Prelude.{
  ℕ, ◌<◌, ◌≡◌, ◌≢◌, refl, sym, ap, ◌∙◌, Bool, true, false, List, length, get_or,
}
use emp_ag2pc.Block.{BlockOps, Block, zero_block, ◌⊕◌, xor_laws, mask, lsb}
use emp_ag2pc.Wires.{AShareBundle, zero_bundle}
use emp_ag2pc.HalfGate.Defs.{IsAuth}
use emp_ag2pc.Protocol.Defs.{Hashing, expected_macs, Opening, accepts}
use emp_ag2pc.Protocol.Lists.{get_or-zip_with}

module _ ⦃B : BlockOps⦄ where
  -- Two MACs under one key that stand for different bits differ by the key's delta.
  two_macs :
      (delta k m n : Block) (b c : Bool)
      → b ≢ c
      → m ≡ k ⊕ mask b delta
      → n ≡ k ⊕ mask c delta
      → m ⊕ n ≡ delta
  two_macs delta k m n true true h p q = absurd (h refl)
  two_macs delta k m n true false h p q = rw (p, q) (simp xor_laws)
  two_macs delta k m n false true h p q = rw (p, q) (simp xor_laws)
  two_macs delta k m n false false h p q = absurd (h refl)

  -- When the digest of an accepted opening is that of MACs `sent`, distinct lists of MACs have
  -- distinct digests, and the opening gives at wire `i` another bit than the authenticated one of
  -- the opener's share, then `sent` and the opener's own MAC at `i` differ by the checker's delta.
  pub forged_opening-delta :
      (H : Hashing Block) (delta : Block) (hs cs : List AShareBundle) (o : Opening H)
      (sent : List Block) (i : ℕ)
      → ((xs ys : List Block) → H.hash_once xs ≡ H.hash_once ys → xs ≡ ys)
      → o.digest ≡ H.hash_once sent
      → accepts H delta cs o ≡ true
      → length o.bits ≡ length cs
      → i < length cs
      → IsAuth delta (get_or hs i zero_bundle) (get_or cs i zero_bundle)
      → get_or o.bits i false ≢ lsb (get_or hs i zero_bundle).mac
      → get_or sent i zero_block ⊕ (get_or hs i zero_bundle).mac ≡ delta
  unfolding accepts
  forged_opening-delta H delta hs cs o sent i injective d a l n auth wrong =
      let e : expected_macs delta cs o.bits ≡ sent = injective _ _ ((H.same_iff _ _).0 a ∙ d) in
      let p : get_or sent i zero_block
          ≡ (get_or cs i zero_bundle).key ⊕ mask (get_or o.bits i false) delta =
        ap (λ s. get_or s i zero_block) (sym e)
        ∙ get_or-zip_with (λ (w : AShareBundle) b. w.key ⊕ mask b delta) cs o.bits i zero_bundle
            false zero_block n (sym l) in
      two_macs delta _ _ _ _ _ wrong p auth
