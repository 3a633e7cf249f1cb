-- ===== src/Block/Laws.antt =====
-- Exclusive or of blocks is a group where every element is its own inverse.
use emp_ag2pc.Prelude.{◌≡◌, ◌∙◌, Bool, true, false, ◌^^◌, ◌&&◌}
use emp_ag2pc.Block.Defs.{BlockOps, Block, zero_block, ◌⊕◌, band, select_mask, lsb, lsb1}

module _ ⦃B : BlockOps⦄ where
  pub ⊕_assoc : (a b c : Block) → (a ⊕ b) ⊕ c ≡ a ⊕ (b ⊕ c)
  ⊕_assoc = B.⊕_assoc

  pub ⊕_comm : (a b : Block) → a ⊕ b ≡ b ⊕ a
  ⊕_comm = B.⊕_comm

  pub ⊕_left_comm : (a b c : Block) → a ⊕ (b ⊕ c) ≡ b ⊕ (a ⊕ c)
  ⊕_left_comm a b c = rw (← ⊕_assoc a b c, ⊕_comm a b) (⊕_assoc b a c)

  pub ⊕_self : (a : Block) → a ⊕ a ≡ zero_block
  ⊕_self = B.⊕_self

  pub ⊕-zero : (a : Block) → a ⊕ zero_block ≡ a
  ⊕-zero = B.⊕-zero

  pub zero-⊕ : (a : Block) → zero_block ⊕ a ≡ a
  zero-⊕ a = ⊕_comm zero_block a ∙ ⊕-zero a

  pub ⊕_self_left : (a b : Block) → a ⊕ (a ⊕ b) ≡ b
  ⊕_self_left a b = rw (← ⊕_assoc a a b, ⊕_self a) (zero-⊕ b)

  pub band-mask_true : (a : Block) → band (select_mask true) a ≡ a
  band-mask_true = B.band-mask_true

  pub band-mask_false : (a : Block) → band (select_mask false) a ≡ zero_block
  band-mask_false = B.band-mask_false

  pub lsb-⊕ : (a b : Block) → lsb (a ⊕ b) ≡ lsb a ^^ lsb b
  unfolding lsb
  lsb-⊕ = B.bit-⊕ 0

  pub lsb1-⊕ : (a b : Block) → lsb1 (a ⊕ b) ≡ lsb1 a ^^ lsb1 b
  unfolding lsb1
  lsb1-⊕ = B.bit-⊕ 1

  pub lsb-zero : lsb zero_block ≡ false
  unfolding lsb
  lsb-zero = B.bit-zero 0

  pub lsb1-zero : lsb1 zero_block ≡ false
  unfolding lsb1
  lsb1-zero = B.bit-zero 1

pub ruleset xor_laws = (
  ⊕_assoc, ⊕_comm, ⊕_left_comm, ⊕_self, ⊕_self_left, ⊕-zero, zero-⊕, band-mask_true,
  band-mask_false,
)

-- `select_mask[b] & x` is linear in the bit.
module _ ⦃B : BlockOps⦄ where
  abbrev pub mask : Bool → Block → Block
  mask b x = band (select_mask b) x

  pub mask-^^ : (a b : Bool) (x : Block) → mask (a ^^ b) x ≡ mask a x ⊕ mask b x
  mask-^^ true true x = simp xor_laws
  mask-^^ true false x = simp xor_laws
  mask-^^ false b x = simp xor_laws

  pub mask-⊕ : (a : Bool) (x y : Block) → mask a (x ⊕ y) ≡ mask a x ⊕ mask a y
  mask-⊕ true x y = simp xor_laws
  mask-⊕ false x y = simp xor_laws

  pub lsb-mask : (b : Bool) (x : Block) → lsb (mask b x) ≡ b && lsb x
  lsb-mask true x = rw band-mask_true
  lsb-mask false x = rw band-mask_false lsb-zero

  pub lsb1-mask : (b : Bool) (x : Block) → lsb1 (mask b x) ≡ b && lsb1 x
  lsb1-mask true x = rw band-mask_true
  lsb1-mask false x = rw band-mask_false lsb1-zero
