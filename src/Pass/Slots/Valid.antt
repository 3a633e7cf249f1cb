-- ===== src/Pass/Slots/Valid.antt =====
-- The invariant of slot allocation. `A` says which wires are still alive.
use emp_ag2pc.Prelude.{
  ℕ, ◌<◌, ◌≤◌, ◌≡◌, ◌≢◌, Bool, true, false, none, some, get_or, length, mem, Distinct, arith,
  length-set,
}
use emp_ag2pc.Block.{BlockOps}
use emp_ag2pc.Wires.{AShareBundle}
use emp_ag2pc.RunState.{slot_of}
use emp_ag2pc.Pass.SlotMask
use emp_ag2pc.Pass.SlotMask.{SlotMaskPass}

module _ ⦃B : BlockOps⦄ where
  -- The first `n` wires have slots, no slot is free twice, the slot of a wire that is alive is not
  -- free, and two wires that are alive have different slots.
  pub record Valid (A : ℕ → Type 0) (n : ℕ) (p : SlotMaskPass) : Type 0 where
    pub assigned :
        (w : ℕ)
        → w < n
        → (get_or p.s.phys w none ≡ some (slot_of p.s.phys w))
          × (slot_of p.s.phys w < p.s.num_slots)
    pub room : n ≤ length p.s.phys
    pub free_in : (i : ℕ) → mem i p.freelist ≡ true → i < p.s.num_slots
    pub free_once : Distinct p.freelist
    pub taken : (w : ℕ) → w < n → A w → mem (slot_of p.s.phys w) p.freelist ≡ false
    pub apart :
        (w v : ℕ) → w < n → v < n → A w → A v → w ≢ v → slot_of p.s.phys w ≢ slot_of p.s.phys v
    pub stored : length p.s.wire_slot ≡ p.s.num_slots
    pub masked : length p.s.mask_input ≡ p.s.num_slots

  pub Valid-weaken :
      {A C : ℕ → Type 0} {n : ℕ} {p : SlotMaskPass}
      → ((w : ℕ) → C w → A w)
      → Valid A n p
      → Valid C n p
  Valid-weaken f v = record {
    assigned = v.assigned;
    room = v.room;
    free_in = v.free_in;
    free_once = v.free_once;
    taken = λ w h c. v.taken w h (f w c);
    apart = λ w u h k c d. v.apart w u h k (f w c) (f u d);
    stored = v.stored;
    masked = v.masked;
  }

  pub Valid-store :
      {A : ℕ → Type 0} {n : ℕ} {p : SlotMaskPass} (slot : ℕ) (sh : AShareBundle) (m : Bool)
      → Valid A n p
      → Valid A n (SlotMask.store slot sh m p)
  Valid-store {p} slot sh m v = record {
    assigned = v.assigned;
    room = v.room;
    free_in = v.free_in;
    free_once = v.free_once;
    taken = v.taken;
    apart = v.apart;
    stored = omega (arith, length-set p.s.wire_slot slot sh, v.stored);
    masked = omega (arith, length-set p.s.mask_input slot m, v.masked);
  }
