-- ===== src/Protocol/Defs.antt =====
-- AG2PCProtocol of emp-ag2pc/backend/protocol.h, one party at a time: what it sends, and what it
-- makes of what it receives. Where the source ends the process by `error`, the result is `none`.
-- Bytes that hold a bit are Booleans. The counter of calls of process_inputs is left out.
use emp_ag2pc.Prelude.{
  ℕ, ◌+◌, ◌≡◌, ◌↔◌, Bool, true, false, ◌^^◌, ◌&&◌, ◌||◌, List, [], ◌∷◌, ◌++◌, Option, some, map,
  length, replicate, ◌==◌, if◌then◌else◌, ◌>>=◌, ◌>>◌, guard, zip_with,
}
use emp_ag2pc.Block.{BlockOps, Block, zero_block, ◌⊕◌, mask, lsb}
use emp_ag2pc.Wires.{AShareBundle, zero_bundle, SecureWires, slice}

-- Hash::hash_once of emp-tool on an array of blocks, and memcmp on two digests.
pub record Hashing (A : Type 0) : Type 1 where
  pub Digest : Type 0
  pub hash_once : List A → Digest
  pub same : Digest → Digest → Bool
  pub same_iff : (d e : Digest) → (same d e ≡ true) ↔ (d ≡ e)

abbrev pub public_party : ℕ
public_party = 0

abbrev pub alice : ℕ
alice = 1

abbrev pub bob : ℕ
bob = 2

-- `own_x_bits`: a party's bits for the wires that it owns, 0 for the others.
unfoldable pub own_x_bits : ℕ → List ℕ → List (List Bool) → List Bool
own_x_bits party [] bits = []
own_x_bits party (o ∷ os) [] = []
own_x_bits party (o ∷ os) (b ∷ bs) =
    (if o == party then b else replicate (length b) false) ++ own_x_bits party os bs

-- `owner_of_wire`
unfoldable pub owner_of_wire : List ℕ → List (List Bool) → List ℕ
owner_of_wire [] bits = []
owner_of_wire (o ∷ os) [] = []
owner_of_wire (o ∷ os) (b ∷ bs) = replicate (length b) o ++ owner_of_wire os bs

-- `own_x_packed`: the bits of the wires that the party owns.
unfoldable pub own_x_packed : ℕ → List ℕ → List Bool → List Bool
own_x_packed party [] xs = []
own_x_packed party (o ∷ os) [] = []
own_x_packed party (o ∷ os) (x ∷ xs) =
    let rest = own_x_packed party os xs in if o == party then x ∷ rest else rest

-- `Lambda[peer_idx_list[i]] ^= peer_x_packed[i]`
unfoldable pub fold_peer_x : ℕ → List ℕ → List Bool → List Bool → List Bool
fold_peer_x party [] ls packed = []
fold_peer_x party (o ∷ os) [] packed = []
fold_peer_x party (o ∷ os) (l ∷ ls) [] = l ∷ fold_peer_x party os ls []
fold_peer_x party (o ∷ os) (l ∷ ls) (x ∷ packed) = elim (o == party) [
  | true ↦ l ∷ fold_peer_x party os ls (x ∷ packed)
  | false ↦ (l ^^ x) ∷ fold_peer_x party os ls packed
]

abbrev pub total : List (List Bool) → ℕ
total [] = 0
total (b ∷ bs) = length b + total bs

abbrev pub all_owned : List ℕ → Bool
all_owned [] = true
all_owned (o ∷ os) = (o == alice || o == bob) && all_owned os

module _ ⦃B : BlockOps⦄ where
  abbrev pub macs : List AShareBundle → List Block
  macs ws = map (λ w. w.mac) ws

  abbrev pub share_bits : List AShareBundle → List Bool
  share_bits ws = map (λ w. lsb w.mac) ws

  -- The MACs that a peer with these bits should have.
  abbrev pub expected_macs : Block → List AShareBundle → List Bool → List Block
  expected_macs delta ws bits = zip_with (λ w b. w.key ⊕ mask b delta) ws bits

  unfoldable pub check_secure_wires : SecureWires → ℕ → Bool
  check_secure_wires w party =
      length w.wire_bundle == length w.lambda
      && (if party == 1
          then length w.label0 == length w.lambda
          else length w.eval_label == length w.lambda)

  -- The bundle of public constants.
  unfoldable pub public_wires : ℕ → Block → List Bool → SecureWires
  public_wires party delta bits = record {
    lambda = bits;
    wire_bundle = replicate (length bits) zero_bundle;
    label0 = if party == 1 then map (λ b. if b then delta else zero_block) bits else [];
    eval_label = if party == 1 then [] else replicate (length bits) zero_block;
  }

  abbrev pub no_wires : SecureWires
  no_wires = record { lambda = []; wire_bundle = []; label0 = []; eval_label = [] }

  -- The per-owner bundles of the combined bundle, from offset `off` on.
  unfoldable pub cut : ℕ → List (List Bool) → SecureWires → List SecureWires
  cut off [] sw = []
  cut off (b ∷ bs) sw = slice off (off + length b) sw ∷ cut (off + length b) bs sw

  module _ (H : Hashing Block) where
    open H use {Digest, hash_once, same}

    -- The authenticated open of shares: the bits, and the digest of their MACs.
    pub record Opening : Type 0 where
      pub bits : List Bool
      pub digest : Digest

    unfoldable pub open_shares : List AShareBundle → Opening
    open_shares ws = record { bits = share_bits ws; digest = hash_once (macs ws) }

    -- Whether a peer's opening has the MACs that its bits should have.
    unfoldable pub accepts : Block → List AShareBundle → Opening → Bool
    accepts delta ws o = same (hash_once (expected_macs delta ws o.bits)) o.digest

    -- The message of the input phase: an opening of all shares, and the bits of the own wires.
    pub record InputMessage : Type 0 where
      pub opening : Opening
      pub own_x : List Bool

    unfoldable pub input_message : ℕ → List ℕ → List (List Bool) → List AShareBundle → InputMessage
    input_message party owners bits drawn = record {
      opening = open_shares drawn;
      own_x = own_x_packed party (owner_of_wire owners bits) (own_x_bits party owners bits);
    }

    -- `Lambda` of the combined bundle.
    unfoldable pub input_masks :
        ℕ → List ℕ → List (List Bool) → List AShareBundle → InputMessage → List Bool
    input_masks party owners bits drawn peer =
        fold_peer_x party (owner_of_wire owners bits)
          (zip_with (λ s x. s ^^ x) (zip_with (λ s t. s ^^ t) (share_bits drawn) peer.opening.bits)
            (own_x_bits party owners bits))
          peer.own_x

    -- The combined bundle `sw`.
    unfoldable pub input_bundle :
        ℕ
        → Block
        → List ℕ
        → List (List Bool)
        → List AShareBundle
        → List Block
        → InputMessage
        → List Block
        → SecureWires
    input_bundle party delta owners bits drawn labels peer peer_labels = record {
      lambda = input_masks party owners bits drawn peer;
      wire_bundle = drawn;
      label0 = if party == 1 then labels else [];
      eval_label = if party == 1 then [] else peer_labels;
    }

    -- The labels `m_{w,Γ}` that the garbler ships.
    unfoldable pub input_labels : ℕ → Block → List Block → List Bool → List Block
    input_labels party delta labels lambda =
        if party == 1 then zip_with (λ l m. l ⊕ mask m delta) labels lambda else []

    -- The input phase for shares `drawn`, labels that the garbler sampled, and what the peer sent:
    -- the bundle of each owner, and the labels that are sent on, which the garbler alone sends.
    unfoldable pub process_inputs :
        ℕ
        → Block
        → List ℕ
        → List (List Bool)
        → List AShareBundle
        → List Block
        → InputMessage
        → List Block
        → Option (List SecureWires × List Block)
    process_inputs party delta owners bits drawn labels peer peer_labels = do
      guard (length owners == length bits)
      guard (all_owned owners)
      if total bits == 0 then some (map (λ _. no_wires) bits, []) else (do
        guard (accepts delta drawn peer.opening)
        let sw = input_bundle party delta owners bits drawn labels peer peer_labels
        some (cut 0 bits sw, input_labels party delta labels sw.lambda))

    -- What a recipient makes of the peer's opening.
    unfoldable pub reconstruct : Block → SecureWires → Opening → Option (List Bool)
    reconstruct delta w o = do
      guard (accepts delta w.wire_bundle o)
      some (
          zip_with (λ m t. m ^^ t) (zip_with (λ s l. s ^^ l) (share_bits w.wire_bundle) w.lambda)
            o.bits)

    -- What a party receives in a decode.
    pub record Inbox : Type 0 where
      pub opening : Opening
      pub clear : List Bool

    -- Decoding to one party: the recipient reconstructs, the other gets nothing.
    unfoldable pub decode_to : ℕ → Block → SecureWires → ℕ → Opening → Option (List Bool)
    decode_to party delta w recipient o = do
      guard (check_secure_wires w party)
      if party == recipient then reconstruct delta w o else some []

    -- `decode`: to the public the evaluator reconstructs, and sends the bits to the garbler.
    unfoldable pub decode : ℕ → Block → SecureWires → ℕ → Inbox → Option (List Bool)
    decode party delta w recipient inbox = do
      guard (check_secure_wires w party)
      if recipient == public_party
          then (do
            v ← decode_to party delta w bob inbox.opening
            some (if party == 1 then inbox.clear else v))
          else decode_to party delta w recipient inbox.opening
