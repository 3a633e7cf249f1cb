-- ===== src/Tests/Protocol.antt =====
-- The input and the output phase on two-bit blocks, with a digest that is the hashed list itself.
use emp_ag2pc.Prelude.{
  ℕ, zero, suc, ◌<◌, ◌≡◌, ◌≢◌, refl, sym, ap, ap₂, ◌∙◌, Bool, true, false, ◌^^◌, not, ◌&&◌, List,
  [], ◌∷◌, get_or, arith,
}
use emp_ag2pc.Block.{◌⊕◌, lsb}
use emp_ag2pc.Wires.{AShareBundle, zero_bundle}
use emp_ag2pc.HalfGate.Defs.{IsAuth}
use emp_ag2pc.Protocol.Defs.{Hashing, Opening, Inbox, public_wires, accepts}
use emp_ag2pc.Protocol.Wire.{Holds}
use emp_ag2pc.Protocol.Decode.{Decodes, decode_correct}
use emp_ag2pc.Protocol.Binding.{forged_opening-delta}
use emp_ag2pc.Protocol.Inputs.{Enters, process_inputs_correct}
use emp_ag2pc.Protocol.Roundtrip.{Returns, inputs-decode}
use emp_ag2pc.Protocol.Public.{public_wires-Holds}
use emp_ag2pc.Tests.Bits.{Bits, bits, two_bits}
use emp_ag2pc.Tests.HalfGate.{delta_g, delta_e, share_g, share_e, zero_key, one_key}

abbrev same_bit : Bool → Bool → Bool
same_bit a b = not (a ^^ b)

abbrev same_block : Bits → Bits → Bool
same_block a b = same_bit a.b0 b.b0 && same_bit a.b1 b.b1

abbrev same_list : List Bits → List Bits → Bool
same_list [] [] = true
same_list [] (y ∷ ys) = false
same_list (x ∷ xs) [] = false
same_list (x ∷ xs) (y ∷ ys) = same_block x y && same_list xs ys

same_block_eq : (a b : Bits) → same_block a b ≡ true → a ≡ b
same_block_eq a b h = ground arith

same_block_refl : (a : Bits) → same_block a a ≡ true
same_block_refl a = ground arith

pub same_list_eq : (xs ys : List Bits) → same_list xs ys ≡ true → xs ≡ ys
same_list_eq [] [] h = refl
same_list_eq [] (y ∷ ys) h = cc
same_list_eq (x ∷ xs) [] h = cc
same_list_eq (x ∷ xs) (y ∷ ys) h =
    ap₂ ◌∷◌ (same_block_eq x y (ground arith)) (same_list_eq xs ys (ground arith))

pub same_list_refl : (xs : List Bits) → same_list xs xs ≡ true
same_list_refl [] = refl
same_list_refl (x ∷ xs) = rw (same_block_refl x) (same_list_refl xs)

abbrev pub plain : Hashing Bits
plain = record {
  Digest = List Bits;
  hash_once = λ xs. xs;
  same = same_list;
  same_iff = λ d e. (same_list_eq d e, λ h. ap (same_list d) (sym h) ∙ same_list_refl d);
}

abbrev idle : Inbox plain
idle = record { opening = record { bits = []; digest = [] }; clear = [] }

abbrev constants : List Bool
constants = true ∷ false ∷ []

decode_correct_example :
    Decodes plain delta_g delta_e
      (public_wires 1 delta_g constants)
      (public_wires 2 delta_e constants)
      constants
      idle
decode_correct_example = decode_correct plain (public_wires-Holds delta_g delta_e constants) idle

-- Two inputs: the garbler's bit 1 and the evaluator's bit 1.
abbrev drawn_g : List AShareBundle
drawn_g = share_g true one_key zero_key ∷ share_g false zero_key one_key ∷ []

abbrev drawn_e : List AShareBundle
drawn_e = share_e false zero_key one_key ∷ share_e true one_key zero_key ∷ []

drawn-IsAuth :
    (i : ℕ)
    → i < 2
    → IsAuth delta_e (get_or drawn_g i zero_bundle) (get_or drawn_e i zero_bundle)
      × IsAuth delta_g (get_or drawn_e i zero_bundle) (get_or drawn_g i zero_bundle)
unfolding lsb
drawn-IsAuth zero h = (refl, refl)
drawn-IsAuth (suc zero) h = (refl, refl)
drawn-IsAuth (suc (suc i)) h = absurd (omega arith)

abbrev bits_g : List (List Bool)
bits_g = (true ∷ []) ∷ (false ∷ []) ∷ []

abbrev bits_e : List (List Bool)
bits_e = (false ∷ []) ∷ (true ∷ []) ∷ []

process_inputs_correct_example :
    Enters plain delta_g delta_e
      (1 ∷ 2 ∷ [])
      bits_g
      bits_e
      drawn_g
      drawn_e
      (one_key ∷ zero_key ∷ [])
      1
process_inputs_correct_example =
    process_inputs_correct plain delta_g delta_e (1 ∷ 2 ∷ []) bits_g bits_e drawn_g drawn_e
      (one_key ∷ zero_key ∷ []) 1 refl (refl, (refl, tt)) refl refl refl drawn-IsAuth (omega arith)

-- The garbler opens a 0 as a 1, with the MAC that a 1 should have.
abbrev forged : Opening plain
forged = record { bits = true ∷ []; digest = bits true true ∷ [] }

forged_opening-delta_example : bits true true ⊕ bits false true ≡ delta_e
unfolding lsb accepts
forged_opening-delta_example =
    forged_opening-delta plain delta_e (share_g false zero_key one_key ∷ [])
      (share_e true one_key zero_key ∷ []) forged (bits true true ∷ []) 0 (λ xs ys e. e) refl refl
      refl (omega arith) refl true≢false
  where
    true≢false : true ≢ false
    true≢false e = cc

public_wires-Holds_example :
    Holds delta_g delta_e
      (public_wires 1 delta_g constants)
      (public_wires 2 delta_e constants)
      constants
public_wires-Holds_example = public_wires-Holds delta_g delta_e constants

inputs-decode_example :
    Returns plain delta_g delta_e
      (1 ∷ 2 ∷ [])
      bits_g
      bits_e
      drawn_g
      drawn_e
      (one_key ∷ zero_key ∷ [])
      1
      idle
inputs-decode_example =
    inputs-decode plain delta_g delta_e (1 ∷ 2 ∷ []) bits_g bits_e drawn_g drawn_e
      (one_key ∷ zero_key ∷ []) 1 idle refl (refl, (refl, tt)) refl refl refl drawn-IsAuth
      (omega arith)
