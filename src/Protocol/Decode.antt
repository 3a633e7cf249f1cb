-- ===== src/Protocol/Decode.antt =====
-- Decoding wires that two parties hold: decode of emp-ag2pc/backend/protocol.h.
use emp_ag2pc.Prelude.{
  ℕ, suc, ◌<◌, ◌≡◌, refl, sym, ap, ap₂, ◌∙◌, Bool, false, ◌^^◌, List, [], ◌∷◌, some, length, get_or,
  zip_with, arith,
}
use emp_ag2pc.Block.{BlockOps, Block, lsb}
use emp_ag2pc.Wires.{AShareBundle, zero_bundle, SecureWires}
use emp_ag2pc.Protocol.Defs.{
  Hashing, share_bits, Opening, open_shares, reconstruct, Inbox, decode_to, decode, public_party,
  alice, bob,
}
use emp_ag2pc.Protocol.Wire.{Holds, Holds-check, accepts-open_shares}

module _ ⦃B : BlockOps⦄ where
  -- The recipient's sum of its share, the masked value and the peer's share.
  abbrev opened : List AShareBundle → List Bool → List AShareBundle → List Bool
  opened ws lam peers =
      zip_with (λ m t. m ^^ t) (zip_with (λ s l. s ^^ l) (share_bits ws) lam) (share_bits peers)

  opened-value :
      (ws : List AShareBundle) (lam : List Bool) (peers : List AShareBundle) (vs : List Bool)
      → length ws ≡ length vs
      → length lam ≡ length vs
      → length peers ≡ length vs
      → ((i : ℕ)
          → i < length vs
          → (lsb (get_or ws i zero_bundle).mac ^^ get_or lam i false)
              ^^ lsb (get_or peers i zero_bundle).mac
            ≡ get_or vs i false)
      → opened ws lam peers ≡ vs
  opened-value [] [] [] [] a b c h = refl
  opened-value (w ∷ ws) (l ∷ lam) (p ∷ peers) (v ∷ vs) a b c h = ap₂ ◌∷◌ (h 0 (omega arith)) (
      opened-value ws lam peers vs (omega arith) (omega arith) (omega arith)
        (λ i k. h (suc i) (omega arith)))
  opened-value ws lam peers vs a b c h = absurd (omega arith)

  module _ (H : Hashing Block) {delta_g delta_e : Block} {g e : SecureWires} {vs : List Bool}
      (h : Holds delta_g delta_e g e vs) where
    abbrev from_g : Opening H
    from_g = open_shares H g.wire_bundle

    abbrev from_e : Opening H
    from_e = open_shares H e.wire_bundle

    reconstruct_g : reconstruct H delta_g g from_e ≡ some vs
    unfolding reconstruct open_shares
    reconstruct_g =
        rw
          (accepts-open_shares H delta_g e.wire_bundle g.wire_bundle (h.bundles_e ∙ sym h.bundles_g)
            (λ i k. (h.at i (omega (arith, h.bundles_e))).auth_e))
          (ap some (
            opened-value g.wire_bundle g.lambda e.wire_bundle vs h.bundles_g h.lambdas_g h.bundles_e
              (λ i k. ground (arith, (h.at i k).masked))))

    reconstruct_e : reconstruct H delta_e e from_g ≡ some vs
    unfolding reconstruct open_shares
    reconstruct_e =
        rw
          (accepts-open_shares H delta_e g.wire_bundle e.wire_bundle (h.bundles_g ∙ sym h.bundles_e)
            (λ i k. (h.at i (omega (arith, h.bundles_g))).auth_g))
          (ap some (
            opened-value e.wire_bundle e.lambda g.wire_bundle vs h.bundles_e h.lambdas_e h.bundles_g
              (λ i k. ground (arith, (h.at i k).masked, (h.at i k).agreed))))

  -- What the two parties get when wires are decoded, for each recipient; `idle` is what a party
  -- that waits for nothing has in its inbox.
  pub record Decodes (H : Hashing Block) (delta_g delta_e : Block) (g e : SecureWires)
      (vs : List Bool) (idle : Inbox H) : Type 0 where
    pub alice_gets :
        decode H 1 delta_g g alice (record idle { opening = open_shares H e.wire_bundle }) ≡ some vs
    pub bob_waits : decode H 2 delta_e e alice idle ≡ some []
    pub bob_gets :
        decode H 2 delta_e e bob (record idle { opening = open_shares H g.wire_bundle }) ≡ some vs
    pub alice_waits : decode H 1 delta_g g bob idle ≡ some []
    pub bob_opens :
        decode H 2 delta_e e public_party (record idle { opening = open_shares H g.wire_bundle })
        ≡ some vs
    pub alice_hears : decode H 1 delta_g g public_party (record idle { clear = vs }) ≡ some vs

  -- When two bundles hold values, a decode to a party gives it exactly the values and the other
  -- party nothing, and a decode to the public gives both the values, the garbler by what the
  -- evaluator sends on; no check fails.
  pub decode_correct :
      (H : Hashing Block) {delta_g delta_e : Block} {g e : SecureWires} {vs : List Bool}
      → Holds delta_g delta_e g e vs
      → (idle : Inbox H) → Decodes H delta_g delta_e g e vs idle
  unfolding decode decode_to
  decode_correct H h idle =
      let (cg, ce) = Holds-check h in
      record {
        alice_gets = rw cg (reconstruct_g H h);
        bob_waits = rw ce;
        bob_gets = rw ce (reconstruct_e H h);
        alice_waits = rw cg;
        bob_opens = rw ce (rw (reconstruct_e H h));
        alice_hears = rw cg;
      }
