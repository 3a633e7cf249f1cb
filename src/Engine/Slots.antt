-- ===== src/Engine/Slots.antt =====
-- The slots that run_program of emp-ag2pc/backend/engine.h gives the wires of a source.
use emp_ag2pc.Prelude.{
  ℕ, zero, suc, ◌+◌, ◌<◌, ◌≤◌, ◌≡◌, refl, sym, ap, subst, ◌∙◌, Bool, true, false, none, some,
  get_or, length, length-resize, get_or-resize, arith,
}
use emp_ag2pc.Block.{BlockOps}
use emp_ag2pc.Wires.{zero_bundle, AShareBundle, SecureWires}
use emp_ag2pc.RunState.{RunState, slot_of}
use emp_ag2pc.Pass.Source.{
  Source, ret, public_bit, and_gate, xor_gate, not_gate, run_source, no_consts,
}
use emp_ag2pc.Pass.Liveness
use emp_ag2pc.Pass.SlotMask
use emp_ag2pc.Pass.SlotMask.{SlotMaskPass}
use emp_ag2pc.Pass.Numbering.{Counter, counting, run-count, Liveness-Numbers}
use emp_ag2pc.Pass.Reads.{Scoped}
use emp_ag2pc.Pass.Coverage.{Committed, liveness_covers}
use emp_ag2pc.Pass.Slots.Step.{Running}
use emp_ag2pc.Pass.Slots.Run.{Separates, separates, counts_grow}
use emp_ag2pc.Engine.Load.{count_from, identity_map, load_inputs, prepare}

length-count_from : (i n : ℕ) → length (count_from i n) ≡ n
length-count_from i zero = refl
length-count_from i (suc n) = ap suc (length-count_from (i + 1) n)

get_or-count_from : (i n w : ℕ) → w < n → get_or (count_from i n) w none ≡ some (i + w)
get_or-count_from i zero w h = absurd (omega arith)
get_or-count_from i (suc n) zero h = ap some (omega arith)
get_or-count_from i (suc n) (suc w) h =
    get_or-count_from (i + 1) n w (omega arith) ∙ ap some (omega arith)

get_or-identity_map :
    (wires n w : ℕ) → n ≤ wires → w < n → get_or (identity_map wires n) w none ≡ some w
get_or-identity_map wires n w l h =
    get_or-resize wires none none (count_from 0 n) w (omega (arith, length-count_from 0 n))
      (omega (arith, length-count_from 0 n))
    ∙ get_or-count_from 0 n w h
    ∙ ap some (omega arith)

slot_of-identity_map : (wires n w : ℕ) → n ≤ wires → w < n → slot_of (identity_map wires n) w ≡ w
slot_of-identity_map wires n w l h =
    ap (λ o. elim o [ none ↦ 0 | some i ↦ i ]) (get_or-identity_map wires n w l h)

module _ ⦃B : BlockOps⦄ where
  abbrev loaded : (ℕ → AShareBundle) → ℕ → SecureWires → RunState → SlotMaskPass
  loaded mint minted ins st = SlotMask.init mint minted (load_inputs ins st)

  load-Running :
      (mint : ℕ → AShareBundle) (minted : ℕ) (ins : SecureWires) (st : RunState)
      → st.num_inputs ≤ st.num_wires
      → Running st.persist st.last_use st.num_wires (loaded mint minted ins st)
  unfolding load_inputs SlotMask.init
  load-Running mint minted ins st l = record {
    pins = refl;
    uses = refl;
    wires_at = length-resize st.num_wires none (count_from 0 st.num_inputs);
    valid = record {
      assigned = λ w h. (
        get_or-identity_map st.num_wires st.num_inputs w l h ∙ ap some (sym (here w h)),
        omega (arith, here w h),
      );
      room = omega (arith, length-resize st.num_wires none (count_from 0 st.num_inputs));
      free_in = λ i h. absurd (false≢true h);
      free_once = tt;
      taken = λ w h a. refl;
      apart = λ w v h k a b ne e. ne (sym (here w h) ∙ e ∙ here v k);
      stored = length-resize st.num_inputs zero_bundle ins.wire_bundle;
      masked = length-resize st.num_inputs false ins.lambda;
    };
  }
    where
      here : (w : ℕ) → w < st.num_inputs → slot_of (identity_map st.num_wires st.num_inputs) w ≡ w
      here w h = slot_of-identity_map st.num_wires st.num_inputs w l h

      false≢true : false ≡ true → ⊥
      false≢true e = cc

  -- The slot map that a run ends pass 1 with.
  pub record Mapped (n : ℕ) (src : Source) (st : RunState) (p : SlotMaskPass) : Type 0 where
    pub inputs : (w : ℕ) → w < n → get_or p.s.phys w none ≡ some w
    pub apart :
        Separates st.persist st.last_use p.s.phys p.s.num_slots 0
          (record { wid = n; consts = no_consts })
          src

  -- The same from the state that any liveness pass left.
  loaded-Mapped :
      (mint : ℕ → AShareBundle) (minted : ℕ) (ins : SecureWires) (src : Source) (c : RunState)
      → Scoped (record { wid = c.num_inputs; consts = no_consts }) src
      → Committed c.num_inputs c src
      → (run_source counting src (record { wid = c.num_inputs; consts = no_consts })).1.wid
        ≡ c.num_wires
      → Mapped c.num_inputs src c (run_source SlotMask.ops src (loaded mint minted ins c)).1
  unfolding load_inputs SlotMask.init
  loaded-Mapped mint minted ins src c sc live counted =
      let start : Counter = record { wid = c.num_inputs; consts = no_consts } in
      let room : c.num_inputs ≤ c.num_wires = omega (arith, counted, counts_grow src start) in
      let rest =
        separates c.persist c.last_use c.num_wires src (loaded mint minted ins c)
          (load-Running mint minted ins c room) sc live.covered (omega (arith, counted)) in
      record {
        inputs =
            λ w h. rest.ends.agrees w h ∙ get_or-identity_map c.num_wires c.num_inputs w room h;
        apart = rest.served;
      }

  -- The liveness pass writes nothing into the state before it commits.
  keeps_public : (v : Bool) (p : Liveness.LivenessPass) → (Liveness.public_bit v p).1.s ≡ p.s
  unfolding Liveness.public_bit
  keeps_public v p = ground arith

  liveness_keeps :
      (src : Source) (p : Liveness.LivenessPass) → (run_source Liveness.ops src p).1.s ≡ p.s
  unfolding run_source Liveness.and_gate Liveness.xor_gate Liveness.not_gate
  liveness_keeps (ret outs) p = refl
  liveness_keeps (public_bit v k) p =
      liveness_keeps (k (Liveness.public_bit v p).0) (Liveness.public_bit v p).1 ∙ keeps_public v p
  liveness_keeps (and_gate a b k) p =
      liveness_keeps (k (Liveness.and_gate a b p).0) (Liveness.and_gate a b p).1
  liveness_keeps (xor_gate a b k) p =
      liveness_keeps (k (Liveness.xor_gate a b p).0) (Liveness.xor_gate a b p).1
  liveness_keeps (not_gate a k) p =
      liveness_keeps (k (Liveness.not_gate a p).0) (Liveness.not_gate a p).1

  -- For every source that names only wires it was given, every input bundle and every stream of
  -- minted shares: after pass 1 of run_program input i still has slot i, and every other wire has,
  -- from the gate that makes it, a slot in range that no wire has which is alive at that gate,
  -- alive being what the liveness pass committed, in which inputs, outputs of ANDs and outputs of
  -- the source are alive to the end and every operand is alive where it is read.
  pub prepare-Mapped :
      (mint : ℕ → AShareBundle) (minted : ℕ) (ins : SecureWires) (src : Source) (st : RunState)
      → Scoped (record { wid = st.num_inputs; consts = no_consts }) src
      → let (outs, lp) = run_source Liveness.ops src (Liveness.init st) in
        let committed = Liveness.commit outs lp in
        Committed st.num_inputs committed src
        × Mapped st.num_inputs src committed (prepare mint minted ins src st).1
  unfolding prepare Liveness.init Liveness.commit
  prepare-Mapped mint minted ins src st sc = (
    live,
    subst (λ n. Mapped n src committed (prepare mint minted ins src st).1) same
        (loaded-Mapped mint minted ins src committed
          (subst (λ n. Scoped (record { wid = n; consts = no_consts }) src) (sym same) sc)
          (subst (λ n. Committed n committed src) (sym same) live)
          (ap (λ n. (run_source counting src (record { wid = n; consts = no_consts })).1.wid) same
            ∙ ap (λ r. r.1.wid) (run-count Liveness-Numbers src (Liveness.init st)))),
  )
    where
      committed : RunState
      committed =
          let (outs, lp) = run_source Liveness.ops src (Liveness.init st) in Liveness.commit outs lp

      same : committed.num_inputs ≡ st.num_inputs
      same = ap (λ s. s.num_inputs) (liveness_keeps src (Liveness.init st))

      live : Committed st.num_inputs committed src
      live = liveness_covers st src sc
