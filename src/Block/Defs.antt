-- ===== src/Block/Defs.antt =====
-- The operations on blocks and what the code relies on.
use emp_ag2pc.Prelude.{ℕ, ◌≡◌, Bool, true, false, ◌^^◌}

pub record BlockOps : Type 1 where
  pub Block : Type 0
  infixl 60 ◌⊕◌
  pub zero_block : Block
  pub ◌⊕◌ : Block → Block → Block
  pub band : Block → Block → Block
  pub select_mask : Bool → Block
  pub bit : ℕ → Block → Bool
  pub ⊕_assoc : (a b c : Block) → (a ⊕ b) ⊕ c ≡ a ⊕ (b ⊕ c)
  pub ⊕_comm : (a b : Block) → a ⊕ b ≡ b ⊕ a
  pub ⊕_self : (a : Block) → a ⊕ a ≡ zero_block
  pub ⊕-zero : (a : Block) → a ⊕ zero_block ≡ a
  pub band_comm : (a b : Block) → band a b ≡ band b a
  pub band-mask_true : (a : Block) → band (select_mask true) a ≡ a
  pub band-mask_false : (a : Block) → band (select_mask false) a ≡ zero_block
  pub bit-⊕ : (i : ℕ) (a b : Block) → bit i (a ⊕ b) ≡ bit i a ^^ bit i b
  pub bit-zero : (i : ℕ) → bit i zero_block ≡ false

module _ ⦃B : BlockOps⦄ where
  abbrev pub Block : Type 0
  Block = B.Block

  abbrev pub zero_block : Block
  zero_block = B.zero_block

  infixl 60 ◌⊕◌
  abbrev pub ◌⊕◌ : Block → Block → Block
  ◌⊕◌ = B.◌⊕◌

  abbrev pub band : Block → Block → Block
  band = B.band

  abbrev pub select_mask : Bool → Block
  select_mask = B.select_mask

  -- Bit 0 carries a share's value.
  unfoldable pub lsb : Block → Bool
  lsb b = B.bit 0 b

  -- Bit 1 carries the parity from which the evaluator reads the mask of an AND.
  unfoldable pub lsb1 : Block → Bool
  lsb1 b = B.bit 1 b
