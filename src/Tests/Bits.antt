-- ===== src/Tests/Bits.antt =====
-- Blocks of two bits, which meet what the model asks of a block.
use emp_ag2pc.Prelude.{ℕ, zero, suc, ◌≡◌, Bool, true, false, ◌^^◌, arith}
use emp_ag2pc.Block.{BlockOps}
use emp_ag2pc.Wires.{AShareBundle}

pub record Bits : Type 0 where
  pub b0 : Bool
  pub b1 : Bool

abbrev pub xor_bits : Bits → Bits → Bits
xor_bits a b = record { b0 = a.b0 ^^ b.b0; b1 = a.b1 ^^ b.b1 }

abbrev pub and_bit : Bool → Bool → Bool
and_bit true b = b
and_bit false b = false

abbrev pub and_bits : Bits → Bits → Bits
and_bits a b = record { b0 = and_bit a.b0 b.b0; b1 = and_bit a.b1 b.b1 }

abbrev pub bit_of : ℕ → Bits → Bool
bit_of zero b = b.b0
bit_of (suc zero) b = b.b1
bit_of (suc (suc i)) b = false

pub xor_bits_assoc : (a b c : Bits) → xor_bits (xor_bits a b) c ≡ xor_bits a (xor_bits b c)
xor_bits_assoc a b c = ground arith

pub xor_bits_comm : (a b : Bits) → xor_bits a b ≡ xor_bits b a
xor_bits_comm a b = ground arith

abbrev pub bits : Bool → Bool → Bits
bits x y = record { b0 = x; b1 = y }

pub xor_bits_self : (a : Bits) → xor_bits a a ≡ bits false false
xor_bits_self a = ground arith

pub xor_bits-zero : (a : Bits) → xor_bits a (bits false false) ≡ a
xor_bits-zero a = ground arith

pub and_bits_comm : (a b : Bits) → and_bits a b ≡ and_bits b a
and_bits_comm a b = ground arith

pub and_bits-ones : (a : Bits) → and_bits (bits true true) a ≡ a
and_bits-ones a = ground arith

pub and_bits-zeros : (a : Bits) → and_bits (bits false false) a ≡ bits false false
and_bits-zeros a = ground arith

pub bit_of-xor : (i : ℕ) (a b : Bits) → bit_of i (xor_bits a b) ≡ bit_of i a ^^ bit_of i b
bit_of-xor zero a b = ground arith
bit_of-xor (suc zero) a b = ground arith
bit_of-xor (suc (suc i)) a b = ground arith

pub bit_of-zero : (i : ℕ) → bit_of i (bits false false) ≡ false
bit_of-zero zero = ground arith
bit_of-zero (suc zero) = ground arith
bit_of-zero (suc (suc i)) = ground arith

instance abbrev pub two_bits : BlockOps
two_bits = record {
  Block = Bits;
  zero_block = bits false false;
  ◌⊕◌ = xor_bits;
  band = and_bits;
  select_mask = λ b. bits b b;
  bit = bit_of;
  ⊕_assoc = xor_bits_assoc;
  ⊕_comm = xor_bits_comm;
  ⊕_self = xor_bits_self;
  ⊕-zero = xor_bits-zero;
  band_comm = and_bits_comm;
  band-mask_true = and_bits-ones;
  band-mask_false = and_bits-zeros;
  bit-⊕ = bit_of-xor;
  bit-zero = bit_of-zero;
}

-- A share whose bit is `x` and whose key is `k`, under the delta `d`.
abbrev pub bundle : Bits → Bits → AShareBundle
bundle m k = record { mac = m; key = k }
