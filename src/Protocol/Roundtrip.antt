-- ===== src/Protocol/Roundtrip.antt =====
-- Inputs that are decoded at once: process_inputs and decode of emp-ag2pc/backend/protocol.h.
use emp_ag2pc.Prelude.{ℕ, ◌<◌, ◌≡◌, Bool, true, List, [], length, get_or}
use emp_ag2pc.Block.{BlockOps, Block}
use emp_ag2pc.Wires.{AShareBundle, zero_bundle}
use emp_ag2pc.HalfGate.Defs.{IsAuth}
use emp_ag2pc.Protocol.Defs.{Hashing, Inbox, all_owned, total, no_wires}
use emp_ag2pc.Protocol.Lists.{chosen, SameShape}
use emp_ag2pc.Protocol.Decode.{Decodes, decode_correct}
use emp_ag2pc.Protocol.Inputs.{Enters, process_inputs_correct}

module _ ⦃B : BlockOps⦄ (H : Hashing Block) where
  -- The input phase returns, and the bundles of owner `k` decode to the owner's bits.
  pub record Returns (delta_g delta_e : Block) (os : List ℕ) (bg be : List (List Bool))
      (ws us : List AShareBundle) (labels : List Block) (k : ℕ) (idle : Inbox H) : Type 0 where
    pub entered : Enters H delta_g delta_e os bg be ws us labels k
    pub decoded :
        Decodes H delta_g delta_e
          (get_or entered.at_g k no_wires)
          (get_or entered.at_e k no_wires)
          (get_or (chosen 1 os bg be) k [])
          idle

  -- Honest parties that name the same owners, each the garbler or the evaluator, and as many bits
  -- for each owner, and draw as many shares that are authenticated both ways: process_inputs
  -- returns at both, and a decode of the bundles of owner `k` gives its bits, for each recipient.
  pub inputs-decode :
      (delta_g delta_e : Block) (os : List ℕ) (bg be : List (List Bool)) (ws us : List AShareBundle)
      (labels : List Block) (k : ℕ) (idle : Inbox H)
      → all_owned os ≡ true
      → SameShape os bg be
      → length ws ≡ total bg
      → length us ≡ total bg
      → length labels ≡ total bg
      → ((i : ℕ)
          → i < total bg
          → IsAuth delta_e (get_or ws i zero_bundle) (get_or us i zero_bundle)
            × IsAuth delta_g (get_or us i zero_bundle) (get_or ws i zero_bundle))
      → k < length os
      → Returns delta_g delta_e os bg be ws us labels k idle
  inputs-decode delta_g delta_e os bg be ws us labels k idle o s lw lu ll auth h =
      let e =
        process_inputs_correct H delta_g delta_e os bg be ws us labels k o s lw lu ll auth h in
      record { entered = e; decoded = decode_correct H e.owner_Holds idle }
