-- ===== src/Pass/Slots/Step.antt =====
-- One operation of AG2PCSlotMaskPass keeps the invariant and gives its wire a slot of its own.
use emp_ag2pc.Prelude.{
  ℕ, suc, ◌+◌, ◌<◌, ◌≤◌, ◌≡◌, ◌≢◌, sym, ap, subst, ◌∙◌, Bool, List, Option, none, some, get_or, set,
  length, length-set, get_or-set_ne, arith,
}
use emp_ag2pc.Block.{BlockOps}
use emp_ag2pc.Wires.{AShareBundle}
use emp_ag2pc.RunState.{slot_of}
use emp_ag2pc.Pass.SlotMask
use emp_ag2pc.Pass.SlotMask.{
  SlotMaskPass, alloc_slot, next_lambda_gamma, free_if_dead, free_operands,
}
use emp_ag2pc.Pass.Reads.{Alive}
use emp_ag2pc.Pass.Slots.Valid.{Valid, Valid-weaken, Valid-store}
use emp_ag2pc.Pass.Slots.Alloc.{Allocated, alloc_slot-Allocated, slot_of-set_self, slot_of-set_ne}
use emp_ag2pc.Pass.Slots.Free.{
  AliveIn, free_operands-AliveIn, free_if_dead-AliveIn, s-free_operands, s-free_if_dead,
  gi-free_operands, gi-free_if_dead,
}

-- Wire `id`, made at gate `g`, has a slot that no wire alive at the gate has.
pub record Own (persist : List Bool) (last_use : List (Option ℕ)) (phys : List (Option ℕ))
    (slots g id : ℕ) : Type 0 where
  pub owned : get_or phys id none ≡ some (slot_of phys id)
  pub in_range : slot_of phys id < slots
  pub apart : (w : ℕ) → w < id → Alive persist last_use w g → slot_of phys w ≢ slot_of phys id

module _ ⦃B : BlockOps⦄ where
  -- The state of the pass at a gate, for the liveness data `persist` and `last_use`.
  pub record Running (persist : List Bool) (last_use : List (Option ℕ)) (wires : ℕ)
      (p : SlotMaskPass) : Type 0 where
    pub pins : p.s.persist ≡ persist
    pub uses : p.s.last_use ≡ last_use
    pub wires_at : length p.s.phys ≡ wires
    pub valid : Valid (λ w. Alive persist last_use w p.gi) p.wid p

  -- What one operation that makes a wire does to the state.
  pub record Moves (persist : List Bool) (last_use : List (Option ℕ)) (wires : ℕ)
      (p q : SlotMaskPass) : Type 0 where
    pub running : Running persist last_use wires q
    pub own : Own persist last_use q.s.phys q.s.num_slots p.gi p.wid
    pub kept : (w : ℕ) → w < p.wid → get_or q.s.phys w none ≡ get_or p.s.phys w none
    pub slots : p.s.num_slots ≤ q.s.num_slots

  Valid-same :
      {A : ℕ → Type 0} {n : ℕ} {p : SlotMaskPass} (q : SlotMaskPass)
      → q.s.phys ≡ p.s.phys
      → q.s.num_slots ≡ p.s.num_slots
      → q.s.wire_slot ≡ p.s.wire_slot
      → q.s.mask_input ≡ p.s.mask_input
      → q.freelist ≡ p.freelist
      → Valid A n p
      → Valid A n q
  Valid-same q e1 e2 e3 e4 e5 v = record {
    assigned = rw (e1, e2) v.assigned;
    room = rw e1 v.room;
    free_in = rw (e2, e5) v.free_in;
    free_once = rw e5 v.free_once;
    taken = rw (e1, e5) v.taken;
    apart = rw e1 v.apart;
    stored = rw (e2, e3) v.stored;
    masked = rw (e2, e4) v.masked;
  }

  pins-alloc_slot : (n : ℕ) (p : SlotMaskPass) → (alloc_slot n p).1.s.persist ≡ p.s.persist
  unfolding alloc_slot
  pins-alloc_slot n p = ground arith

  uses-alloc_slot : (n : ℕ) (p : SlotMaskPass) → (alloc_slot n p).1.s.last_use ≡ p.s.last_use
  unfolding alloc_slot
  uses-alloc_slot n p = ground arith

  pub gi-alloc_slot : (n : ℕ) (p : SlotMaskPass) → (alloc_slot n p).1.gi ≡ p.gi
  unfolding alloc_slot
  gi-alloc_slot n p = ground arith

  -- `base` differs from `p` in nothing that allocation reads.
  pub record Based (p base : SlotMaskPass) : Type 0 where
    pub same_phys : base.s.phys ≡ p.s.phys
    pub same_slots : base.s.num_slots ≡ p.s.num_slots
    pub same_wires : base.s.wire_slot ≡ p.s.wire_slot
    pub same_masks : base.s.mask_input ≡ p.s.mask_input
    pub same_free : base.freelist ≡ p.freelist
    pub same_pins : base.s.persist ≡ p.s.persist
    pub same_uses : base.s.last_use ≡ p.s.last_use
    pub same_gi : base.gi ≡ p.gi

  module _ {persist : List Bool} {last_use : List (Option ℕ)} {wires : ℕ} {p : SlotMaskPass}
      (r : Running persist last_use wires p) (room : p.wid < wires) (base : SlotMaskPass)
      (b : Based p base) (sh : AShareBundle) (m : Bool) where
    base_valid : Valid (λ w. Alive persist last_use w p.gi) p.wid base
    base_valid =
        Valid-same base b.same_phys b.same_slots b.same_wires b.same_masks b.same_free r.valid

    base_room : p.wid < length base.s.phys
    base_room = rw (b.same_phys, r.wires_at) room

    got : Allocated base_valid base_room (alloc_slot p.wid base)
    got = alloc_slot-Allocated base_valid base_room

    -- The state with the new wire in its slot.
    abbrev pub placed : SlotMaskPass
    placed = SlotMask.store (alloc_slot p.wid base).0 sh m (alloc_slot p.wid base).1

    pub placed_phys : placed.s.phys ≡ set p.s.phys p.wid (some (alloc_slot p.wid base).0)
    placed_phys = rw (← b.same_phys) got.moved

    placed_slot : slot_of placed.s.phys p.wid ≡ (alloc_slot p.wid base).0
    placed_slot = rw placed_phys (slot_of-set_self p.s.phys p.wid _ (rw r.wires_at room))

    placed_old : (w : ℕ) → w < p.wid → slot_of placed.s.phys w ≡ slot_of p.s.phys w
    placed_old w h = rw placed_phys (slot_of-set_ne p.s.phys p.wid _ w (omega arith))

    pub placed_valid : Valid (λ w. Alive persist last_use w p.gi) (suc p.wid) placed
    placed_valid = Valid-store (alloc_slot p.wid base).0 sh m got.valid

    pub placed_pins : placed.s.persist ≡ persist
    placed_pins = pins-alloc_slot p.wid base ∙ b.same_pins ∙ r.pins

    pub placed_uses : placed.s.last_use ≡ last_use
    placed_uses = uses-alloc_slot p.wid base ∙ b.same_uses ∙ r.uses

    pub placed_gi : placed.gi ≡ p.gi
    placed_gi = gi-alloc_slot p.wid base ∙ b.same_gi

    pub placed-Own : Own persist last_use placed.s.phys placed.s.num_slots p.gi p.wid
    placed-Own = record {
      owned = (placed_valid.assigned p.wid (omega arith)).0;
      in_range = (placed_valid.assigned p.wid (omega arith)).1;
      apart = λ w h a e.
          got.fresh w h a
            (ap (λ f. slot_of f w) b.same_phys ∙ sym (placed_old w h) ∙ e ∙ placed_slot);
    }

    pub placed_kept : (w : ℕ) → w < p.wid → get_or placed.s.phys w none ≡ get_or p.s.phys w none
    placed_kept w h = rw placed_phys (get_or-set_ne p.s.phys p.wid w _ none (omega arith))

    pub placed_slots : p.s.num_slots ≤ placed.s.num_slots
    placed_slots = rw (← b.same_slots) got.grown

    placed_wires : length placed.s.phys ≡ wires
    placed_wires = rw (placed_phys, length-set) r.wires_at

    -- A state after the operation, which may have freed slots.
    pub Moves-to :
        (q : SlotMaskPass)
        → q.s ≡ placed.s
        → q.wid ≡ p.wid + 1
        → Valid (λ w. Alive persist last_use w q.gi) (suc p.wid) q
        → Moves persist last_use wires p q
    Moves-to q es ew v = record {
      running = record {
        pins = ap (λ s. s.persist) es ∙ placed_pins;
        uses = ap (λ s. s.last_use) es ∙ placed_uses;
        wires_at = ap (λ s. length s.phys) es ∙ placed_wires;
        valid = subst (λ n. Valid (λ w. Alive persist last_use w q.gi) n q) (omega arith) v;
      };
      own = subst (λ s. Own persist last_use s.phys s.num_slots p.gi p.wid) (sym es) placed-Own;
      kept = λ w h. ap (λ s. get_or s.phys w none) es ∙ placed_kept w h;
      slots = subst (λ s. p.s.num_slots ≤ s.num_slots) (sym es) placed_slots;
    }

    alive_placed : (g w : ℕ) → AliveIn placed g w → Alive persist last_use w g
    alive_placed g w h =
        subst (λ l. Alive persist l w g) placed_uses
          (subst (λ x. Alive x placed.s.last_use w g) placed_pins h)

    alive_back : (g w : ℕ) → Alive persist last_use w g → AliveIn placed g w
    alive_back g w h =
        subst (λ l. Alive placed.s.persist l w g) (sym placed_uses)
          (subst (λ x. Alive x last_use w g) (sym placed_pins) h)

    placed_alive : Valid (AliveIn placed placed.gi) (suc p.wid) placed
    placed_alive =
        Valid-weaken
          (λ w h. subst (Alive persist last_use w) placed_gi (alive_placed placed.gi w h))
          placed_valid

    read_placed : (w : ℕ) → Alive persist last_use w p.gi → AliveIn placed placed.gi w
    read_placed w h = alive_back placed.gi w (subst (Alive persist last_use w) (sym placed_gi) h)

    pub two_gi : (i0 i1 : ℕ) → (free_operands i0 i1 placed).gi ≡ p.gi
    two_gi i0 i1 = gi-free_operands i0 i1 placed ∙ placed_gi

    pub one_gi : (i : ℕ) → (free_if_dead i placed).gi ≡ p.gi
    one_gi i = gi-free_if_dead i placed ∙ placed_gi

    -- After a gate with two operands.
    pub Moves-two :
        (i0 i1 : ℕ) (q : SlotMaskPass)
        → i0 < p.wid
        → i1 < p.wid
        → Alive persist last_use i0 p.gi
        → Alive persist last_use i1 p.gi
        → q.s ≡ (free_operands i0 i1 placed).s
        → q.freelist ≡ (free_operands i0 i1 placed).freelist
        → q.wid ≡ p.wid + 1
        → q.gi ≡ (free_operands i0 i1 placed).gi + 1
        → Moves persist last_use wires p q
    Moves-two i0 i1 q l0 l1 a0 a1 es ef ew eg = Moves-to q (es ∙ s-free_operands i0 i1 placed) ew (
        Valid-same q (ap (λ s. s.phys) es) (ap (λ s. s.num_slots) es) (ap (λ s. s.wire_slot) es)
          (ap (λ s. s.mask_input) es) ef
          (Valid-weaken
            (λ w h. alive_back (placed.gi + 1) w (
              subst (Alive persist last_use w)
                (eg ∙ ap (λ g. g + 1) (gi-free_operands i0 i1 placed)) h))
            (free_operands-AliveIn i0 i1 placed_alive (omega arith) (omega arith)
              (read_placed i0 a0) (read_placed i1 a1))))

    -- After a gate with one operand.
    pub Moves-one :
        (i : ℕ) (q : SlotMaskPass)
        → i < p.wid
        → Alive persist last_use i p.gi
        → q.s ≡ (free_if_dead i placed).s
        → q.freelist ≡ (free_if_dead i placed).freelist
        → q.wid ≡ p.wid + 1
        → q.gi ≡ (free_if_dead i placed).gi + 1
        → Moves persist last_use wires p q
    Moves-one i q l a es ef ew eg = Moves-to q (es ∙ s-free_if_dead i placed) ew (
        Valid-same q (ap (λ s. s.phys) es) (ap (λ s. s.num_slots) es) (ap (λ s. s.wire_slot) es)
          (ap (λ s. s.mask_input) es) ef
          (Valid-weaken
            (λ w h. alive_back (placed.gi + 1) w (
              subst (Alive persist last_use w) (eg ∙ ap (λ g. g + 1) (gi-free_if_dead i placed)) h))
            (free_if_dead-AliveIn i placed_alive (omega arith) (read_placed i a))))

    -- After a new constant, which reads nothing.
    pub Moves-none :
        (q : SlotMaskPass)
        → q.s ≡ placed.s
        → q.freelist ≡ placed.freelist
        → q.wid ≡ p.wid + 1
        → q.gi ≡ placed.gi
        → Moves persist last_use wires p q
    Moves-none q es ef ew eg = Moves-to q es ew (
        Valid-same q (ap (λ s. s.phys) es) (ap (λ s. s.num_slots) es) (ap (λ s. s.wire_slot) es)
          (ap (λ s. s.mask_input) es) ef
          (Valid-weaken (λ w h. subst (Alive persist last_use w) (eg ∙ placed_gi) h) placed_valid))
