-- ===== src/Tests/Pass.antt =====
-- A source with one gate of each kind, over two inputs.
use emp_ag2pc.Prelude.{ℕ, ◌≡◌, refl, true, false, [], ◌∷◌, arith}
use emp_ag2pc.Wires.{AShareBundle, SecureWires, zero_bundle}
use emp_ag2pc.RunState.{RunState}
use emp_ag2pc.Pass.Source.{
  Source, ret, public_bit, and_gate, xor_gate, not_gate, run_source, no_consts,
}
use emp_ag2pc.Pass.Liveness
use emp_ag2pc.Pass.SlotMask
use emp_ag2pc.Pass.Garble
use emp_ag2pc.Pass.Evaluate
use emp_ag2pc.Pass.GammaCheck
use emp_ag2pc.Pass.Numbering.{same_wire_ids, next, next_const}
use emp_ag2pc.Pass.Coverage.{Committed, liveness_covers}
use emp_ag2pc.Pass.Reads.{Scoped}
use emp_ag2pc.Engine.Load.{start, prepare}
use emp_ag2pc.Engine.Slots.{Mapped, prepare-Mapped}
use emp_ag2pc.Tests.Bits.{bits, two_bits}
use emp_ag2pc.Tests.HalfGate.{delta_g, flip}

abbrev pub circuit : Source
circuit = and_gate 0 1 λ a.
    public_bit true
      λ c. xor_gate a c λ x. public_bit true λ d. not_gate x λ y. and_gate y d λ z. ret (z ∷ [])

abbrev pub begin : ℕ → RunState
begin party = start party delta_g 2 (λ i. flip)

abbrev pub minted : ℕ → AShareBundle
minted i = zero_bundle

abbrev inputs : SecureWires
inputs = record {
  lambda = true ∷ false ∷ [];
  wire_bundle = zero_bundle ∷ zero_bundle ∷ [];
  label0 = bits true false ∷ bits false false ∷ [];
  eval_label = [];
}

circuit-Scoped : Scoped (record { wid = 2; consts = no_consts }) circuit
unfolding next next_const
circuit-Scoped = omega arith

same_wire_ids_example :
    let ids = (run_source Liveness.ops circuit (Liveness.init (begin 1))).0 in
    ((run_source SlotMask.ops circuit (SlotMask.init minted 0 (begin 1))).0 ≡ ids)
    × ((run_source Garble.ops circuit (Garble.init (begin 1))).0 ≡ ids)
    × ((run_source Evaluate.ops circuit (Evaluate.init [] (begin 2))).0 ≡ ids)
    × ((run_source GammaCheck.ops circuit (GammaCheck.init (begin 1))).0 ≡ ids)
unfolding start
same_wire_ids_example =
    same_wire_ids circuit (begin 1) (begin 1) (begin 1) (begin 2) (begin 1) minted 0 [] refl refl
      refl refl

liveness_covers_example :
    let (outs, p) = run_source Liveness.ops circuit (Liveness.init (begin 1)) in
    Committed 2 (Liveness.commit outs p) circuit
unfolding start
liveness_covers_example = liveness_covers (begin 1) circuit circuit-Scoped

prepare-Mapped_example :
    let (outs, lp) = run_source Liveness.ops circuit (Liveness.init (begin 1)) in
    let committed = Liveness.commit outs lp in
    Committed 2 committed circuit
    × Mapped 2 circuit committed (prepare minted 0 inputs circuit (begin 1)).1
unfolding start
prepare-Mapped_example = prepare-Mapped minted 0 inputs circuit (begin 1) circuit-Scoped
