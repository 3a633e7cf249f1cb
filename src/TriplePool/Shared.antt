-- ===== src/TriplePool/Shared.antt =====
-- Shares that are authenticated both ways, under the local operations of
-- emp-ag2pc/backend/triple_pool.h.
use emp_ag2pc.Prelude.{◌≡◌, Bool, true, false, ◌^^◌, arith}
use emp_ag2pc.Block.{
  BlockOps, Block, ◌⊕◌, xor_laws, mask, lsb, lsb-⊕, lsb-mask, lsb-zero, mask-^^, mask-⊕,
  band-mask_true, band-mask_false,
}
use emp_ag2pc.Wires.{AShareBundle}
use emp_ag2pc.HalfGate.Defs.{IsAuth, shared}
use emp_ag2pc.TriplePool.Defs.{add_public}

module _ ⦃B : BlockOps⦄ where
  -- The two parties' shares `w` and `v` of one bit, party 1's delta first.
  pub record Shared (delta_1 delta_2 : Block) (w v : AShareBundle) : Type 0 where
    pub auth_1 : IsAuth delta_2 w v
    pub auth_2 : IsAuth delta_1 v w

  xor_macs :
      (d m k n l : Block) (x y : Bool)
      → m ≡ k ⊕ mask x d
      → n ≡ l ⊕ mask y d
      → m ⊕ n ≡ (k ⊕ l) ⊕ mask (x ^^ y) d
  xor_macs d m k n l x y p q = rw (p, q, mask-^^ x y d) (simp xor_laws)

  mask-IsAuth :
      (d : Block) (m : Bool) (w v : AShareBundle)
      → IsAuth d w v
      → mask m w.mac ≡ mask m v.key ⊕ mask (lsb (mask m w.mac)) d
  mask-IsAuth d true w v h = rw (band-mask_true w.mac, band-mask_true v.key) h
  mask-IsAuth d false w v h =
      rw (band-mask_false w.mac, band-mask_false v.key, lsb-zero) (simp xor_laws)

  moved_mac :
      (d e m k : Block) (x f : Bool)
      → m ≡ k ⊕ mask x d
      → m ⊕ mask f e ≡ (k ⊕ mask f (d ⊕ e)) ⊕ mask (x ^^ f) d
  moved_mac d e m k x f p = rw (p, mask-^^ x f d, mask-⊕ f d e) (simp xor_laws)

  module _ {delta_1 delta_2 : Block} where
    pub Shared-add_share :
        (w v w' v' : AShareBundle)
        → Shared delta_1 delta_2 w v
        → Shared delta_1 delta_2 w' v'
        → Shared delta_1 delta_2
            (record { mac = w.mac ⊕ w'.mac; key = w.key ⊕ w'.key })
            (record { mac = v.mac ⊕ v'.mac; key = v.key ⊕ v'.key })
    Shared-add_share w v w' v' h k = record {
      auth_1 = rw (lsb-⊕ w.mac w'.mac) (xor_macs delta_2 _ _ _ _ _ _ h.auth_1 k.auth_1);
      auth_2 = rw (lsb-⊕ v.mac v'.mac) (xor_macs delta_1 _ _ _ _ _ _ h.auth_2 k.auth_2);
    }

    pub Shared-mask :
        (m : Bool) (w v : AShareBundle)
        → Shared delta_1 delta_2 w v
        → Shared delta_1 delta_2
            (record { mac = mask m w.mac; key = mask m w.key })
            (record { mac = mask m v.mac; key = mask m v.key })
    Shared-mask m w v h = record {
      auth_1 = mask-IsAuth delta_2 m w v h.auth_1;
      auth_2 = mask-IsAuth delta_1 m v w h.auth_2;
    }

    pub Shared-add_public :
        (bit0_mask : Block) (d : Bool) (w v : AShareBundle)
        → lsb bit0_mask ≡ true
        → Shared delta_1 delta_2 w v
        → Shared delta_1 delta_2
            (add_public bit0_mask 1 delta_1 d w)
            (add_public bit0_mask 2 delta_2 d v)
          × (shared (add_public bit0_mask 1 delta_1 d w) (add_public bit0_mask 2 delta_2 d v)
              ≡ shared w v ^^ d)
    unfolding add_public
    Shared-add_public e d w v o h =
        let f : lsb (w.mac ⊕ mask d e) ≡ lsb w.mac ^^ d = flips in
        (
          record {
            auth_1 = rw f (moved_mac delta_2 e w.mac v.key (lsb w.mac) d h.auth_1);
            auth_2 = h.auth_2;
          },
          rw f (ground arith),
        )
      where
        flips : lsb (w.mac ⊕ mask d e) ≡ lsb w.mac ^^ d
        flips = rw (lsb-⊕ w.mac (mask d e), lsb-mask d e, o) (ground arith)

  -- What both parties have of a shared bit adds up to the bit under the sum of the deltas.
  pub both_sides :
      (delta_1 delta_2 : Block) (w v : AShareBundle)
      → Shared delta_1 delta_2 w v
      → (mask (lsb w.mac) delta_1 ⊕ w.key ⊕ w.mac) ⊕ (mask (lsb v.mac) delta_2 ⊕ v.key ⊕ v.mac)
        ≡ mask (shared w v) (delta_1 ⊕ delta_2)
  both_sides delta_1 delta_2 w v h =
      summed (lsb w.mac) (lsb v.mac) w.mac w.key v.mac v.key h.auth_1 h.auth_2
    where
      summed :
          (x y : Bool) (m k n l : Block)
          → m ≡ l ⊕ mask x delta_2
          → n ≡ k ⊕ mask y delta_1
          → (mask x delta_1 ⊕ k ⊕ m) ⊕ (mask y delta_2 ⊕ l ⊕ n) ≡ mask (x ^^ y) (delta_1 ⊕ delta_2)
      summed x y m k n l p q =
          rw (p, q, mask-⊕ (x ^^ y) delta_1 delta_2, mask-^^ x y delta_1, mask-^^ x y delta_2)
            (simp xor_laws)
