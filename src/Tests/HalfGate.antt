-- ===== src/Tests/HalfGate.antt =====
-- One AND gate on two-bit blocks: the masks of the operands are 1 and 0, so that of the product is
-- 0, and the output's mask is 1.
use emp_ag2pc.Prelude.{◌≡◌, refl, ◌↔◌, Bool, true, false, ◌^^◌, ◌&&◌}
use emp_ag2pc.Block.{◌⊕◌, mask, lsb, lsb1}
use emp_ag2pc.Wires.{AShareBundle}
use emp_ag2pc.HalfGate.Defs.{
  Shares, AreAuth, out_mask, garble_and, garbler_witness, evaluator_witness,
}
use emp_ag2pc.HalfGate.Gate.{received, and_gate_correct}
use emp_ag2pc.HalfGate.Gamma.{witness-eq_iff}
use emp_ag2pc.Tests.Bits.{Bits, bits, two_bits}

-- The deltas of the garbler and of the evaluator.
abbrev pub delta_g : Bits
delta_g = bits true true

abbrev pub delta_e : Bits
delta_e = bits true false

-- The garbler's bundle for its bit `x`, with `k` for the peer's bit; the peer's key is `l`.
abbrev pub share_g : Bool → Bits → Bits → AShareBundle
share_g x k l = record { mac = l ⊕ mask x delta_e; key = k }

abbrev pub share_e : Bool → Bits → Bits → AShareBundle
share_e x l k = record { mac = k ⊕ mask x delta_g; key = l }

abbrev pub zero_key : Bits
zero_key = bits false false

abbrev pub one_key : Bits
one_key = bits false true

abbrev pub garbler : Shares
garbler = record {
  in0 = share_g true one_key zero_key;
  in1 = share_g true zero_key one_key;
  out = share_g false one_key one_key;
  sigma = share_g true zero_key zero_key;
}

abbrev pub evaluator : Shares
evaluator = record {
  in0 = share_e false zero_key one_key;
  in1 = share_e true one_key zero_key;
  out = share_e true one_key one_key;
  sigma = share_e true zero_key zero_key;
}

pub evaluator-AreAuth : AreAuth delta_g evaluator garbler
unfolding lsb
evaluator-AreAuth = record { auth_in0 = refl; auth_in1 = refl; auth_out = refl; auth_sigma = refl }

pub garbler-AreAuth : AreAuth delta_e garbler evaluator
unfolding lsb
garbler-AreAuth = record { auth_in0 = refl; auth_in1 = refl; auth_out = refl; auth_sigma = refl }

-- The hash of the example.
abbrev pub flip : Bits → Bits
flip b = bits b.b1 b.b0

and_gate_correct_example :
    let e = received flip delta_g one_key zero_key true true garbler evaluator in
    (e.lambda ≡ (false && true) ^^ true)
    × (e.label ≡ (garble_and flip delta_g one_key zero_key garbler).label ⊕ mask e.lambda delta_g)
unfolding lsb lsb1
and_gate_correct_example =
    and_gate_correct flip delta_g one_key zero_key garbler evaluator false true evaluator-AreAuth
      refl refl

witness-eq_iff_example :
    (garbler_witness true false garbler ≡ evaluator_witness delta_e true false true evaluator)
    ↔ (true ≡ out_mask true false garbler evaluator)
unfolding lsb
witness-eq_iff_example =
    witness-eq_iff delta_e garbler evaluator garbler-AreAuth true false true refl
