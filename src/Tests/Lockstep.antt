-- ===== src/Tests/Lockstep.antt =====
-- Pass 2 over an AND of two inputs and the XOR of its output with an input, with the shares of
-- Tests/HalfGate.
use emp_ag2pc.Prelude.{
  All, ℕ, zero, suc, ◌<◌, ◌≡◌, refl, sym, ap, ◌∙◌, true, false, List, [], ◌∷◌, some, none, get_or,
  take, ◌↔◌, length, concat, arith,
}
use emp_ag2pc.Block.{◌⊕◌, lsb, lsb1}
use emp_ag2pc.Wires.{AShareBundle, zero_bundle, xor_bundle}
use emp_ag2pc.RunState.{RunState, slot_of}
use emp_ag2pc.Pass.Source.{Source, ret, and_gate, xor_gate, run_source}
use emp_ag2pc.Pass.Garble
use emp_ag2pc.Pass.Evaluate
use emp_ag2pc.Pass.GammaCheck
use emp_ag2pc.Pass.Numbering.{counting, next}
use emp_ag2pc.Pass.Slots.Step.{Own}
use emp_ag2pc.Pass.Lockstep.Tables.{Layout, Ideal, Authentic}
use emp_ag2pc.Pass.Lockstep.State.{Arrays, Agrees, InStep}
use emp_ag2pc.Engine.Load.{start}
use emp_ag2pc.Engine.Masks.{garbler_path-stale_masks}
use emp_ag2pc.Engine.Exchange.{SameWitnesses, exchange_iff}
use emp_ag2pc.Engine.Paths.{exchange, garble, garbler_path, recheck, evaluate}
use emp_ag2pc.Engine.Opened.{first_gate, Ready, Opened, garble-evaluate}
use emp_ag2pc.Engine.Rechecked.{check_end, Checkable, recheck-agrees}
use emp_ag2pc.Pass.Lockstep.Check.{Checks}
use emp_ag2pc.Tests.Protocol.{plain}
use emp_ag2pc.Tests.Bits.{two_bits}
use emp_ag2pc.Tests.HalfGate.{delta_g, delta_e, garbler, evaluator, zero_key, one_key, flip}

abbrev circuit : Source
circuit = and_gate 0 1 λ a. xor_gate a 0 λ x. ret (x ∷ [])

abbrev shares_g : List AShareBundle
shares_g = garbler.in0 ∷ garbler.in1 ∷ garbler.out ∷ xor_bundle garbler.out garbler.in0 ∷ []

abbrev shares_e : List AShareBundle
shares_e =
    evaluator.in0 ∷ evaluator.in1 ∷ evaluator.out ∷ xor_bundle evaluator.out evaluator.in0 ∷ []

abbrev tables : Ideal
tables = record {
  delta_g = delta_g;
  delta_e = delta_e;
  sigma_g = garbler.sigma ∷ [];
  sigma_e = evaluator.sigma ∷ [];
  share_g = λ w. get_or shares_g w zero_bundle;
  share_e = λ w. get_or shares_e w zero_bundle;
  value = λ w. get_or (false ∷ true ∷ false ∷ false ∷ []) w false;
}

abbrev layout : Layout
layout = record {
  persist = true ∷ true ∷ true ∷ true ∷ [];
  last_use = some 1 ∷ some 0 ∷ some 1 ∷ none ∷ [];
  phys = some 0 ∷ some 1 ∷ some 2 ∷ some 3 ∷ [];
  slots = 4;
}

abbrev state_g : RunState
state_g = record (start 1 delta_g 2 (λ i. flip)) {
  phys = layout.phys;
  wire_slot = shares_g;
  sigma = tables.sigma_g;
  label_slot = one_key ∷ zero_key ∷ zero_key ∷ zero_key ∷ [];
}

abbrev state_e : RunState
state_e = record (start 2 delta_e 2 (λ i. flip)) {
  phys = layout.phys;
  wire_slot = shares_e;
  sigma = tables.sigma_e;
  eval_slot = (one_key ⊕ delta_g) ∷ (zero_key ⊕ delta_g) ∷ zero_key ∷ zero_key ∷ [];
  mask_input = true ∷ true ∷ false ∷ false ∷ [];
  lambda_and = false ∷ [];
  m1_t = zero_key ∷ [];
}

identity : (w : ℕ) → w < 4 → slot_of layout.phys w ≡ w
identity zero h = refl
identity (suc zero) h = refl
identity (suc (suc zero)) h = refl
identity (suc (suc (suc zero))) h = refl
identity (suc (suc (suc (suc w)))) h = absurd (omega arith)

own :
    (id g : ℕ)
    → id < 4
    → get_or layout.phys id none ≡ some (slot_of layout.phys id)
    → Own layout.persist layout.last_use layout.phys 4 g id
own id g h e = record {
  owned = e;
  in_range = omega (arith, identity id h);
  apart = λ w l a k. (let p = identity w (omega arith) in let q = identity id h in omega arith);
}

both : (w : ℕ) → w < 2 → Authentic tables (tables.share_g w) (tables.share_e w)
unfolding lsb
both zero h = record { auth_1 = refl; auth_2 = refl }
both (suc zero) h = record { auth_1 = refl; auth_2 = refl }
both (suc (suc w)) h = absurd (omega arith)

abbrev loaded_arrays : Arrays
loaded_arrays = record {
  wires_g = shares_g;
  wires_e = shares_e;
  labels = one_key ∷ zero_key ∷ zero_key ∷ zero_key ∷ [];
  evals = (one_key ⊕ delta_g) ∷ (zero_key ⊕ delta_g) ∷ zero_key ∷ zero_key ∷ [];
  masks = true ∷ true ∷ false ∷ false ∷ [];
}

inputs : (w : ℕ) → w < 2 → Agrees tables layout loaded_arrays w
unfolding lsb
inputs zero h = record { share_g = refl; share_e = refl; labelled = refl; opened = refl }
inputs (suc zero) h = record { share_g = refl; share_e = refl; labelled = refl; opened = refl }
inputs (suc (suc w)) h = absurd (omega arith)

loaded : InStep tables layout 4 2 0 loaded_arrays
loaded = record {
  agrees = λ w h a. inputs w h;
  pinned = λ w h p. (
    ap (λ i. get_or shares_g i zero_bundle) (identity w h),
    ap (λ i. get_or shares_e i zero_bundle) (identity w h),
  );
  sized = record { wires_g = refl; wires_e = refl; labels = refl; evals = refl; masks = refl };
  authentic = both;
}

one_row : length (concat (garble circuit state_g).0) ≡ 1
unfolding garble run_source start Garble.init Garble.end Garble.and_gate Garble.xor_gate
one_row = refl

ready : Ready tables layout 4 circuit state_g state_e
unfolding start lsb lsb1 run_source next
ready = record {
  odd = refl;
  exclusive = λ w v h k p n e. n (sym (identity w h) ∙ e ∙ identity v k);
  same_inputs = refl;
  phys_g = refl;
  phys_e = refl;
  delta_g = refl;
  delta_e = refl;
  sigma_g = refl;
  sigma_e = refl;
  hashed = refl;
  follows = (
    record {
      auth = record { auth_1 = refl; auth_2 = refl };
      auth_sigma = record { auth_1 = refl; auth_2 = refl };
      product = refl;
      value = refl;
    },
    (record { xor_g = refl; xor_e = refl; value = refl }, tt),
  );
  separated = (own 2 0 (omega arith) refl, (own 3 1 (omega arith) refl, tt));
  covered = (refl, refl, refl, (refl, refl, (refl, tt)));
  scoped = omega arith;
  wires = omega arith;
  lambdas = omega (arith, one_row);
  witnesses = omega (arith, one_row);
  loaded = loaded;
}

garble-evaluate_example :
    let (chunks, g) = garble circuit state_g in
    Opened tables layout 4 circuit 2 g (evaluate circuit chunks state_e)
unfolding start
garble-evaluate_example = garble-evaluate tables layout 4 circuit state_g state_e ready

-- The garbler's state before the check pass.
abbrev state_c : RunState
state_c = record state_g { mask_input = true ∷ true ∷ false ∷ false ∷ []; m1_t = zero_key ∷ [] }

abbrev evaluated : RunState
evaluated = evaluate circuit (garble circuit state_g).0 state_e

one_and : (check_end circuit evaluated.lambda_and state_c).ai ≡ 1
unfolding run_source start GammaCheck.init GammaCheck.and_gate GammaCheck.xor_gate
one_and = refl

checkable : Checkable tables layout 4 circuit evaluated.lambda_and evaluated.m1_t state_c
unfolding start
checkable = record {
  exclusive = ready.exclusive;
  phys = refl;
  sigma = refl;
  loaded = record { ghost = loaded_arrays; in_step = loaded; wires = refl; masks = refl };
  follows = ready.follows;
  separated = ready.separated;
  covered = ready.covered;
  scoped = ready.scoped;
  wires = ready.wires;
  room = omega (arith, one_and);
  witnessed = (garble-evaluate tables layout 4 circuit state_g state_e ready).ands;
}

recheck-agrees_example :
    let t = recheck circuit evaluated.lambda_and state_c in
    All (Checks tables layout 4 t) (run_source counting circuit (first_gate state_c.num_inputs)).0
    × ((i : ℕ)
        → i < (check_end circuit evaluated.lambda_and state_c).ai
        → get_or t.m1_t i zero_key ≡ get_or evaluated.m1_t i zero_key)
unfolding start
recheck-agrees_example =
    recheck-agrees tables layout 4 circuit evaluated.lambda_and evaluated.m1_t state_c checkable

-- A source without an AND, and states in which the masked value of the first input is 1.
abbrev xor_only : Source
xor_only = xor_gate 0 1 λ x. ret (x ∷ [])

abbrev masks_loaded : RunState → RunState
masks_loaded s = record s {
  phys = some 0 ∷ some 1 ∷ some 2 ∷ [];
  mask_input = true ∷ false ∷ false ∷ [];
}

garbler_path-stale_masks_example :
    (garbler_path plain xor_only [] (masks_loaded state_g)).0.mask_input ≡ true ∷ false ∷ false ∷ []
unfolding start
garbler_path-stale_masks_example =
    garbler_path-stale_masks plain xor_only [] (masks_loaded state_g) refl

-- The evaluator's mask of the output is 1 in that run.
evaluator_masks :
    (evaluate xor_only [] (masks_loaded state_e)).mask_input ≡ true ∷ false ∷ true ∷ []
unfolding evaluate run_source start Evaluate.init Evaluate.xor_gate
evaluator_masks = refl

-- The two states with the AND counted.
abbrev counted_g : RunState
counted_g = record state_c { num_ands = 1 }

abbrev counted_e : RunState
counted_e = record state_e { num_ands = 1 }

exchange_iff_example :
    let g = garble circuit counted_g in
    let e = evaluate circuit g.0 counted_e in
    let t = recheck circuit (take 1 e.lambda_and) g.1 in
    (exchange plain circuit counted_g counted_e ≡ some (t, e)) ↔ SameWitnesses 1 t e
unfolding start
exchange_iff_example =
    exchange_iff plain circuit counted_g counted_e (λ xs ys e. e) refl (omega arith) (omega arith)
      (omega arith)
