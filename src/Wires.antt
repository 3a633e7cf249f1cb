-- ===== src/Wires.antt =====
-- emp-ag2pc/backend/secure_wires.h: the state that a party keeps for a wire.
use emp_ag2pc.Prelude.{ℕ, ◌-◌, Bool, List, [], ◌∷◌, length, take, drop}
use emp_ag2pc.Block.{BlockOps, Block, zero_block, ◌⊕◌}

-- Elements `lo` up to `hi` of a vector.
abbrev pub range : {A : Type 0} → ℕ → ℕ → List A → List A
range lo hi xs = take (hi - lo) (drop lo xs)

-- An empty vector stays empty.
abbrev pub range_if : {A : Type 0} → ℕ → ℕ → List A → List A
range_if lo hi [] = []
range_if lo hi (x ∷ xs) = range lo hi (x ∷ xs)

module _ ⦃B : BlockOps⦄ where
  pub record AShareBundle : Type 0 where
    pub mac : Block
    pub key : Block

  -- `AShareBundle{}`
  abbrev pub zero_bundle : AShareBundle
  zero_bundle = record { mac = zero_block; key = zero_block }

  -- The share of the exclusive or of two wires, as every pass computes it.
  abbrev pub xor_bundle : AShareBundle → AShareBundle → AShareBundle
  xor_bundle a b = record { mac = a.mac ⊕ b.mac; key = a.key ⊕ b.key }

  pub record SecureWires : Type 0 where
    pub lambda : List Bool
    pub wire_bundle : List AShareBundle
    pub label0 : List Block
    pub eval_label : List Block

  abbrev pub size : SecureWires → ℕ
  size w = length w.lambda

  unfoldable pub slice : ℕ → ℕ → SecureWires → SecureWires
  slice lo hi w = record {
    lambda = range lo hi w.lambda;
    wire_bundle = range_if lo hi w.wire_bundle;
    label0 = range_if lo hi w.label0;
    eval_label = range_if lo hi w.eval_label;
  }
