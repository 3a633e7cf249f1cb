-- ===== src/Pass/Lockstep/Tables.antt =====
-- What the wires of a source stand for: the shares of their masks and their values. The passes of
-- emp-ag2pc/backend/pass_ctx.h follow these tables.
use emp_ag2pc.Prelude.{
  ℕ, ◌+◌, ◌<◌, ◌≡◌, Bool, not, ◌^^◌, ◌&&◌, List, Option, none, some, get_or, arith,
}
use emp_ag2pc.Block.{BlockOps, Block, lsb-zero, lsb-⊕, xor_laws}
use emp_ag2pc.Wires.{AShareBundle, zero_bundle, xor_bundle}
use emp_ag2pc.HalfGate.Defs.{shared}
use emp_ag2pc.TriplePool.Shared.{Shared, Shared-add_share}
use emp_ag2pc.Pass.Source.{Source, ret, public_bit, and_gate, xor_gate, not_gate, cached, cache}
use emp_ag2pc.Pass.Numbering.{Counter}

-- The slot map of a run, with the liveness data.
pub record Layout : Type 0 where
  pub persist : List Bool
  pub last_use : List (Option ℕ)
  pub phys : List (Option ℕ)
  pub slots : ℕ

module _ ⦃B : BlockOps⦄ where
  -- The deltas and the product shares of the two parties, and for each wire the shares of its mask
  -- and its value.
  pub record Ideal : Type 0 where
    pub delta_g : Block
    pub delta_e : Block
    pub sigma_g : List AShareBundle
    pub sigma_e : List AShareBundle
    pub share_g : ℕ → AShareBundle
    pub share_e : ℕ → AShareBundle
    pub value : ℕ → Bool

  module _ (I : Ideal) where
    -- The mask bit of a wire, and its masked value.
    abbrev pub mask_of : ℕ → Bool
    mask_of w = shared (I.share_g w) (I.share_e w)

    abbrev pub masked : ℕ → Bool
    masked w = I.value w ^^ mask_of w

    abbrev pub Authentic : AShareBundle → AShareBundle → Type 0
    Authentic = Shared I.delta_g I.delta_e

    -- What holds for the new wire of a gate.
    pub record IsPublic (v : Bool) (id : ℕ) : Type 0 where
      pub zero_g : I.share_g id ≡ zero_bundle
      pub zero_e : I.share_e id ≡ zero_bundle
      pub value : I.value id ≡ v

    pub record IsXor (a b id : ℕ) : Type 0 where
      pub xor_g : I.share_g id ≡ xor_bundle (I.share_g a) (I.share_g b)
      pub xor_e : I.share_e id ≡ xor_bundle (I.share_e a) (I.share_e b)
      pub value : I.value id ≡ I.value a ^^ I.value b

    pub record IsNot (a id : ℕ) : Type 0 where
      pub same_g : I.share_g id ≡ I.share_g a
      pub same_e : I.share_e id ≡ I.share_e a
      pub value : I.value id ≡ not (I.value a)

    -- The AND with index `ai`: a fresh authenticated mask, and authenticated shares of the product of
    -- the operands' masks.
    pub record IsAnd (ai a b id : ℕ) : Type 0 where
      pub auth : Authentic (I.share_g id) (I.share_e id)
      pub auth_sigma : Authentic (get_or I.sigma_g ai zero_bundle) (get_or I.sigma_e ai zero_bundle)
      pub product :
          shared (get_or I.sigma_g ai zero_bundle) (get_or I.sigma_e ai zero_bundle)
          ≡ mask_of a && mask_of b
      pub value : I.value id ≡ I.value a && I.value b

    -- The tables follow the rest of a source, from the AND with index `ai` on.
    abbrev pub Follows : ℕ → Counter → Source → Type 0
    Follows ai c (ret outs) = Unit
    Follows ai c (public_bit v k) = elim (cached v c.consts) [
      | some w ↦ Follows ai c (k w)
      | none ↦
          IsPublic v c.wid
          × Follows ai (record { wid = c.wid + 1; consts = cache v c.wid c.consts }) (k c.wid)
    ]
    Follows ai c (and_gate a b k) =
        IsAnd ai a b c.wid × Follows (ai + 1) (record c { wid = c.wid + 1 }) (k c.wid)
    Follows ai c (xor_gate a b k) =
        IsXor a b c.wid × Follows ai (record c { wid = c.wid + 1 }) (k c.wid)
    Follows ai c (not_gate a k) =
        IsNot a c.wid × Follows ai (record c { wid = c.wid + 1 }) (k c.wid)

    -- The shares of all wires below `n` are authenticated.
    abbrev pub AllAuthentic : ℕ → Type 0
    AllAuthentic n = (w : ℕ) → w < n → Authentic (I.share_g w) (I.share_e w)

    zero_bundle-Shared : Authentic zero_bundle zero_bundle
    zero_bundle-Shared = record {
      auth_1 = rw lsb-zero (simp xor_laws);
      auth_2 = rw lsb-zero (simp xor_laws);
    }

    pub IsPublic-Authentic :
        {v : Bool} {id : ℕ} → IsPublic v id → Authentic (I.share_g id) (I.share_e id)
    IsPublic-Authentic h = rw (h.zero_g, h.zero_e) zero_bundle-Shared

    pub IsXor-Authentic :
        {a b id : ℕ}
        → IsXor a b id
        → Authentic (I.share_g a) (I.share_e a)
        → Authentic (I.share_g b) (I.share_e b)
        → Authentic (I.share_g id) (I.share_e id)
    IsXor-Authentic h x y = rw (h.xor_g, h.xor_e) (Shared-add_share _ _ _ _ x y)

    pub IsNot-Authentic :
        {a id : ℕ}
        → IsNot a id
        → Authentic (I.share_g a) (I.share_e a)
        → Authentic (I.share_g id) (I.share_e id)
    IsNot-Authentic h x = rw (h.same_g, h.same_e) x

    -- The masked values of the gates that the evaluator computes locally.
    pub masked-public : {v : Bool} {id : ℕ} → IsPublic v id → masked id ≡ v
    masked-public h = rw (h.zero_g, h.zero_e, h.value, lsb-zero) (ground arith)

    pub masked-xor : {a b id : ℕ} → IsXor a b id → masked id ≡ masked a ^^ masked b
    masked-xor h = rw (h.xor_g, h.xor_e, h.value, lsb-⊕, lsb-⊕) (ground arith)

    pub masked-not : {a id : ℕ} → IsNot a id → masked id ≡ not (masked a)
    masked-not h = rw (h.same_g, h.same_e, h.value) (ground arith)
