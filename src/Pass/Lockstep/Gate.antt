-- ===== src/Pass/Lockstep/Gate.antt =====
-- One gate of pass 2 at both parties.
use emp_ag2pc.Prelude.{
  ℕ, ◌+◌, ◌<◌, ◌≡◌, sym, ap, ap₂, subst, ◌∙◌, Bool, false, List, get_or, set, length,
  get_or-set_self, arith,
}
use emp_ag2pc.Block.{BlockOps, Block, zero_block, ◌⊕◌, mask}
use emp_ag2pc.Wires.{AShareBundle, zero_bundle}
use emp_ag2pc.RunState.{RunState, slot_of, wslot, minp, lbl, evl}
use emp_ag2pc.Pass.Source.{Consts}
use emp_ag2pc.Pass.Reads.{Alive, Pinned}
use emp_ag2pc.Pass.Slots.Step.{Own}
use emp_ag2pc.Pass.Lockstep.Tables.{Layout, Ideal, masked, Authentic}
use emp_ag2pc.Pass.Lockstep.State.{
  Arrays, write_all-Writes, write_labels-Writes, write_all-Sized, write_labels-Sized, Exclusive,
  slot, InStep, advance,
}

module _ ⦃B : BlockOps⦄ where
  -- What a gate reads of a pass.
  pub record Core : Type 0 where
    pub s : RunState
    pub wid : ℕ
    pub ai : ℕ
    pub consts : Consts

  abbrev pub arrays : Core → Core → Arrays
  arrays p q = record {
    wires_g = p.s.wire_slot;
    wires_e = q.s.wire_slot;
    labels = p.s.label_slot;
    evals = q.s.eval_slot;
    masks = q.s.mask_input;
  }

  module _ (I : Ideal) (L : Layout) (total : ℕ) where
    -- The garbler's and the evaluator's pass before gate `g`.
    pub record Paired (g : ℕ) (p q : Core) : Type 0 where
      pub same_wid : q.wid ≡ p.wid
      pub same_ai : q.ai ≡ p.ai
      pub same_consts : q.consts ≡ p.consts
      pub phys_g : p.s.phys ≡ L.phys
      pub phys_e : q.s.phys ≡ L.phys
      pub delta_g : p.s.delta ≡ I.delta_g
      pub delta_e : q.s.delta ≡ I.delta_e
      pub sigma_g : p.s.sigma ≡ I.sigma_g
      pub sigma_e : q.s.sigma ≡ I.sigma_e
      pub hashed : q.s.mitc ≡ p.s.mitc
      pub in_step : InStep I L total p.wid g (arrays p q)

    -- What the two parties read of wire `w`.
    pub record Reads (s t : RunState) (w : ℕ) : Type 0 where
      pub share_g : wslot s w ≡ I.share_g w
      pub share_e : wslot t w ≡ I.share_e w
      pub labelled : evl t w ≡ lbl s w ⊕ mask (masked I w) I.delta_g
      pub opened : minp t w ≡ masked I w
      pub authentic : Authentic I (I.share_g w) (I.share_e w)

    module _ {g : ℕ} {p q : Core} (h : Paired g p q) where
      pub reads : (w : ℕ) → w < p.wid → Alive L.persist L.last_use w g → Reads p.s q.s w
      reads w l live =
          let a = h.in_step.agrees w l live in
          record {
            share_g = ap (λ f. get_or p.s.wire_slot (slot_of f w) zero_bundle) h.phys_g ∙ a.share_g;
            share_e = ap (λ f. get_or q.s.wire_slot (slot_of f w) zero_bundle) h.phys_e ∙ a.share_e;
            labelled =
                ap (λ f. get_or q.s.eval_slot (slot_of f w) zero_block) h.phys_e
                ∙ a.labelled
                ∙ ap
                    (λ f.
                      get_or p.s.label_slot (slot_of f w) zero_block ⊕ mask (masked I w) I.delta_g)
                    (sym h.phys_g);
            opened = ap (λ f. get_or q.s.mask_input (slot_of f w) false) h.phys_e ∙ a.opened;
            authentic = h.in_step.authentic w l;
          }

      -- The shares of a pinned wire, which stand in its slot from the start.
      pub reads-Pinned :
          (w : ℕ)
          → w < total
          → Pinned L.persist w
          → (wslot p.s w ≡ I.share_g w) × (wslot q.s w ≡ I.share_e w)
      reads-Pinned w l pin =
          let (a, b) = h.in_step.pinned w l pin in
          (
            ap (λ f. get_or p.s.wire_slot (slot_of f w) zero_bundle) h.phys_g ∙ a,
            ap (λ f. get_or q.s.wire_slot (slot_of f w) zero_bundle) h.phys_e ∙ b,
          )

      -- The slots that the two parties write for the next wire.
      slot_g : slot_of p.s.phys p.wid ≡ slot I L p.wid
      slot_g = ap (λ f. slot_of f p.wid) h.phys_g

      slot_e : slot_of q.s.phys q.wid ≡ slot I L p.wid
      slot_e = ap₂ slot_of h.phys_e h.same_wid

      -- What the layout must give the next wire.
      pub record Room (g' : ℕ) : Type 0 where
        pub exclusive : Exclusive L total
        pub below : p.wid < total
        pub own : Own L.persist L.last_use L.phys L.slots g p.wid
        pub back : (w : ℕ) → Alive L.persist L.last_use w g' → Alive L.persist L.last_use w g

      module _ {g' : ℕ} (room : Room g') where
        in_range : {A : Type 0} (xs : List A) → length xs ≡ L.slots → slot I L p.wid < length xs
        in_range xs e = omega (arith, room.own.in_range)

        -- Both parties write all their arrays at the next wire's slot.
        pub after_local :
            (a b : AShareBundle) (l e : Block) (m : Bool)
            → a ≡ I.share_g p.wid
            → b ≡ I.share_e p.wid
            → e ≡ l ⊕ mask (masked I p.wid) I.delta_g
            → m ≡ masked I p.wid
            → Authentic I (I.share_g p.wid) (I.share_e p.wid)
            → InStep I L total (p.wid + 1) g' (record {
              wires_g = set p.s.wire_slot (slot_of p.s.phys p.wid) a;
              wires_e = set q.s.wire_slot (slot_of q.s.phys q.wid) b;
              labels = set p.s.label_slot (slot_of p.s.phys p.wid) l;
              evals = set q.s.eval_slot (slot_of q.s.phys q.wid) e;
              masks = set q.s.mask_input (slot_of q.s.phys q.wid) m;
            })
        after_local a b l e m ea eb el em auth =
            let x = arrays p q in
            let z = h.in_step.sized in
            let n = slot I L p.wid in
            subst (InStep I L total (p.wid + 1) g')
              (λ i. record {
                wires_g = set p.s.wire_slot (sym slot_g i) a;
                wires_e = set q.s.wire_slot (sym slot_e i) b;
                labels = set p.s.label_slot (sym slot_g i) l;
                evals = set q.s.eval_slot (sym slot_e i) e;
                masks = set q.s.mask_input (sym slot_e i) m;
              })
              (advance I L g' room.exclusive room.below room.own room.back
                (write_all-Writes n a b l e m x) (write_all-Sized n a b l e m x z)
                (record {
                  share_g = get_or-set_self _ n a zero_bundle (in_range _ z.wires_g) ∙ ea;
                  share_e = get_or-set_self _ n b zero_bundle (in_range _ z.wires_e) ∙ eb;
                  labelled =
                      get_or-set_self _ n e zero_block (in_range _ z.evals)
                      ∙ el
                      ∙ ap (λ t. t ⊕ mask (masked I p.wid) I.delta_g)
                          (sym (get_or-set_self _ n l zero_block (in_range _ z.labels)));
                  opened = get_or-set_self _ n m false (in_range _ z.masks) ∙ em;
                })
                auth h.in_step)

        -- An AND leaves the shares, which stand in its pinned slot already.
        pub after_and :
            (l e : Block) (m : Bool)
            → Pinned L.persist p.wid
            → e ≡ l ⊕ mask (masked I p.wid) I.delta_g
            → m ≡ masked I p.wid
            → Authentic I (I.share_g p.wid) (I.share_e p.wid)
            → InStep I L total (p.wid + 1) g' (record {
              wires_g = p.s.wire_slot;
              wires_e = q.s.wire_slot;
              labels = set p.s.label_slot (slot_of p.s.phys p.wid) l;
              evals = set q.s.eval_slot (slot_of q.s.phys q.wid) e;
              masks = set q.s.mask_input (slot_of q.s.phys q.wid) m;
            })
        after_and l e m pin el em auth =
            let x = arrays p q in
            let z = h.in_step.sized in
            let n = slot I L p.wid in
            let (ea, eb) = h.in_step.pinned p.wid room.below pin in
            subst (InStep I L total (p.wid + 1) g')
              (λ i. record {
                wires_g = p.s.wire_slot;
                wires_e = q.s.wire_slot;
                labels = set p.s.label_slot (sym slot_g i) l;
                evals = set q.s.eval_slot (sym slot_e i) e;
                masks = set q.s.mask_input (sym slot_e i) m;
              })
              (advance I L g' room.exclusive room.below room.own room.back
                (write_labels-Writes n l e m x) (write_labels-Sized n l e m x z)
                (record {
                  share_g = ea;
                  share_e = eb;
                  labelled =
                      get_or-set_self _ n e zero_block (in_range _ z.evals)
                      ∙ el
                      ∙ ap (λ t. t ⊕ mask (masked I p.wid) I.delta_g)
                          (sym (get_or-set_self _ n l zero_block (in_range _ z.labels)));
                  opened = get_or-set_self _ n m false (in_range _ z.masks) ∙ em;
                })
                auth h.in_step)
