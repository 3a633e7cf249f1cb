-- ===== src/Pass/Lockstep/Check.antt =====
-- The gates of AG2PCGammaCheckPass of emp-ag2pc/backend/pass_ctx.h against the tables of a source.
use emp_ag2pc.Prelude.{
  ℕ, ◌+◌, ◌<◌, ◌≡◌, sym, ap, ◌∙◌, Bool, false, ◌^^◌, ^^_self, List, get_or, set, length,
  get_or-set_self, arith,
}
use emp_ag2pc.Block.{BlockOps, zero_block, ◌⊕◌, mask, band-mask_false, ⊕-zero}
use emp_ag2pc.Wires.{AShareBundle, zero_bundle}
use emp_ag2pc.RunState.{RunState, slot_of, wslot, minp}
use emp_ag2pc.HalfGate.Defs.{garbler_witness, out_mask}
use emp_ag2pc.HalfGate.Gate.{hides_and}
use emp_ag2pc.HalfGate.Gamma.{witness-difference}
use emp_ag2pc.Pass.Reads.{Alive, Pinned}
use emp_ag2pc.Pass.Slots.Step.{Own}
use emp_ag2pc.Pass.Lockstep.Tables.{Layout, Ideal, masked, mask_of, Authentic, IsAnd}
use emp_ag2pc.Pass.Lockstep.State.{
  Arrays, write_all, write_labels, write_all-Writes, write_labels-Writes, write_all-Sized,
  write_labels-Sized, Exclusive, slot, InStep, advance,
}
use emp_ag2pc.Pass.Lockstep.AndGate.{shares_g, shares_e, AreAuth-g, witness_of}

module _ ⦃B : BlockOps⦄ (I : Ideal) where
  -- The right masked values give the garbler the evaluator's witness.
  pub same_witness :
      (ai a b id : ℕ)
      → IsAnd I ai a b id
      → Authentic I (I.share_g a) (I.share_e a)
      → Authentic I (I.share_g b) (I.share_e b)
      → garbler_witness (masked I a) (masked I b) (shares_g I ai a b id) ≡ witness_of I ai a b id
  same_witness ai a b id n x y =
      let ga = shares_g I ai a b id in
      let ev = shares_e I ai a b id in
      let right : masked I id ≡ out_mask (masked I a) (masked I b) ga ev =
        ap (λ v. v ^^ mask_of I id) n.value
        ∙ sym (hides_and (I.value a) (I.value b) _ _ (mask_of I id) _ n.product) in
      witness-difference I.delta_e ga ev (AreAuth-g I ai a b id n x y) (masked I a) (masked I b)
        (masked I id)
      ∙ rw (← right, ^^_self, band-mask_false) (⊕-zero _)

  module _ (L : Layout) (total : ℕ) where
    -- Arrays in step, of which a check pass holds the shares `ws` and the masks `ms`.
    pub record Ghosted (n g : ℕ) (ws : List AShareBundle) (ms : List Bool) : Type 0 where
      pub ghost : Arrays
      pub in_step : InStep I L total n g ghost
      pub wires : ws ≡ ghost.wires_g
      pub masks : ms ≡ ghost.masks

    -- What the layout gives wire `n`, made at gate `g`, before gate `g'`.
    pub record Place (n g g' : ℕ) : Type 0 where
      pub exclusive : Exclusive L total
      pub below : n < total
      pub own : Own L.persist L.last_use L.phys L.slots g n
      pub back : (w : ℕ) → Alive L.persist L.last_use w g' → Alive L.persist L.last_use w g

    module _ {n g : ℕ} {ws : List AShareBundle} {ms : List Bool} (h : Ghosted n g ws ms) where
      in_range :
          {g' : ℕ} {A : Type 0} (xs : List A)
          → Place n g g'
          → length xs ≡ L.slots
          → slot I L n < length xs
      in_range xs p e = omega (arith, p.own.in_range)

      pub ghost_local :
          {g' : ℕ} (i : ℕ) (a : AShareBundle) (m : Bool)
          → Place n g g'
          → i ≡ slot I L n
          → a ≡ I.share_g n
          → m ≡ masked I n
          → Authentic I (I.share_g n) (I.share_e n)
          → Ghosted (n + 1) g' (set ws i a) (set ms i m)
      ghost_local {g'} i a m p e ea em auth =
          let x = h.ghost in
          let z = h.in_step.sized in
          let k = slot I L n in
          let l = zero_block ⊕ mask (masked I n) I.delta_g in
          record {
            ghost = write_all k a (I.share_e n) zero_block l m x;
            in_step =
                advance I L g' p.exclusive p.below p.own p.back
                  (write_all-Writes k a (I.share_e n) zero_block l m x)
                  (write_all-Sized k a (I.share_e n) zero_block l m x z)
                  (record {
                    share_g = get_or-set_self _ k a zero_bundle (in_range _ p z.wires_g) ∙ ea;
                    share_e = get_or-set_self _ k _ zero_bundle (in_range _ p z.wires_e);
                    labelled =
                        get_or-set_self _ k l zero_block (in_range _ p z.evals)
                        ∙ ap (λ t. t ⊕ mask (masked I n) I.delta_g)
                            (sym
                              (get_or-set_self _ k zero_block zero_block (in_range _ p z.labels)));
                    opened = get_or-set_self _ k m false (in_range _ p z.masks) ∙ em;
                  })
                  auth h.in_step;
            wires = λ j. set (h.wires j) (e j) a;
            masks = λ j. set (h.masks j) (e j) m;
          }

      -- An AND leaves the shares.
      pub ghost_and :
          {g' : ℕ} (i : ℕ) (m : Bool)
          → Place n g g'
          → Pinned L.persist n
          → i ≡ slot I L n
          → m ≡ masked I n
          → Authentic I (I.share_g n) (I.share_e n)
          → Ghosted (n + 1) g' ws (set ms i m)
      ghost_and {g'} i m p pin e em auth =
          let x = h.ghost in
          let z = h.in_step.sized in
          let k = slot I L n in
          let l = zero_block ⊕ mask (masked I n) I.delta_g in
          let (ea, eb) = h.in_step.pinned n p.below pin in
          record {
            ghost = write_labels k zero_block l m x;
            in_step =
                advance I L g' p.exclusive p.below p.own p.back
                  (write_labels-Writes k zero_block l m x) (write_labels-Sized k zero_block l m x z)
                  (record {
                    share_g = ea;
                    share_e = eb;
                    labelled =
                        get_or-set_self _ k l zero_block (in_range _ p z.evals)
                        ∙ ap (λ t. t ⊕ mask (masked I n) I.delta_g)
                            (sym
                              (get_or-set_self _ k zero_block zero_block (in_range _ p z.labels)));
                    opened = get_or-set_self _ k m false (in_range _ p z.masks) ∙ em;
                  })
                  auth h.in_step;
            wires = h.wires;
            masks = λ j. set (h.masks j) (e j) m;
          }

    -- What the check pass reads of wire `w`.
    pub record Checks (s : RunState) (w : ℕ) : Type 0 where
      pub share : wslot s w ≡ I.share_g w
      pub opened : minp s w ≡ masked I w

    pub checks :
        {n g : ℕ} (s : RunState)
        → Ghosted n g s.wire_slot s.mask_input
        → s.phys ≡ L.phys
        → (w : ℕ) → w < n
        → Alive L.persist L.last_use w g
        → Checks s w
    checks s h e w l live =
        let a = h.in_step.agrees w l live in
        record {
          share = (λ j. get_or (h.wires j) (slot_of (e j) w) zero_bundle) ∙ a.share_g;
          opened = (λ j. get_or (h.masks j) (slot_of (e j) w) false) ∙ a.opened;
        }

    pub checks-Pinned :
        {n g : ℕ} (s : RunState)
        → Ghosted n g s.wire_slot s.mask_input
        → s.phys ≡ L.phys
        → (w : ℕ) → w < total
        → Pinned L.persist w
        → wslot s w ≡ I.share_g w
    checks-Pinned s h e w l pin =
        (λ j. get_or (h.wires j) (slot_of (e j) w) zero_bundle) ∙ (h.in_step.pinned w l pin).0
