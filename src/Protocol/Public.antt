-- ===== src/Protocol/Public.antt =====
-- Public constants: public_wires of emp-ag2pc/backend/protocol.h.
use emp_ag2pc.Prelude.{
  ◌≡◌, refl, Bool, true, false, List, length, get_or, arith, if◌then◌else◌, length-replicate,
  get_or-replicate,
}
use emp_ag2pc.Block.{BlockOps, Block, zero_block, ◌⊕◌, xor_laws, mask, lsb-zero}
use emp_ag2pc.Wires.{zero_bundle}
use emp_ag2pc.Protocol.Defs.{public_wires}
use emp_ag2pc.Protocol.Lists.{length-map, get_or-map}
use emp_ag2pc.Protocol.Wire.{Wire, Holds}

module _ ⦃B : BlockOps⦄ where
  abbrev zero_label : Block → Bool → Block
  zero_label delta b = if b then delta else zero_block

  constant-Wire :
      (delta_g delta_e : Block) (b : Bool)
      → Wire delta_g delta_e zero_bundle zero_bundle b b (zero_label delta_g b) zero_block b
  constant-Wire delta_g delta_e b = record {
    auth_g = rw lsb-zero (simp xor_laws);
    auth_e = rw lsb-zero (simp xor_laws);
    masked = rw lsb-zero (ground arith);
    agreed = refl;
    labelled = label b;
  }
    where
      label : (b : Bool) → zero_block ≡ zero_label delta_g b ⊕ mask b delta_g
      label true = simp xor_laws
      label false = simp xor_laws

  -- The bundles that the two parties make of the same public bits hold these bits.
  pub public_wires-Holds :
      (delta_g delta_e : Block) (bits : List Bool)
      → Holds delta_g delta_e (public_wires 1 delta_g bits) (public_wires 2 delta_e bits) bits
  unfolding public_wires
  public_wires-Holds delta_g delta_e bits = record {
    lambdas_g = refl;
    lambdas_e = refl;
    bundles_g = length-replicate (length bits) zero_bundle;
    bundles_e = length-replicate (length bits) zero_bundle;
    labels_g = length-map (zero_label delta_g) bits;
    labels_e = length-replicate (length bits) zero_block;
    at = λ i h.
        rw
          (
            get_or-replicate (length bits) i zero_bundle,
            get_or-replicate (length bits) i zero_block,
            get_or-map (zero_label delta_g) bits i false zero_block h,
          )
          (constant-Wire delta_g delta_e (get_or bits i false));
  }
