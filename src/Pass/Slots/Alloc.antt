-- ===== src/Pass/Slots/Alloc.antt =====
-- `alloc_slot` gives a new wire a slot that no living wire has.
use emp_ag2pc.Prelude.{
  mem, Distinct, ℕ, suc, ◌+◌, ◌<◌, ◌≤◌, ◌≡◌, ◌≢◌, inl, inr, refl, sym, ap, subst, ◌∙◌, Bool, true,
  false, List, [], ◌∷◌, Option, none, some, get_or, set, length, ==_refl, arith, length-set,
  length-resize, get_or-set_self, get_or-set_ne, Bool-cases,
}
use emp_ag2pc.Block.{BlockOps}
use emp_ag2pc.Wires.{zero_bundle}
use emp_ag2pc.RunState.{slot_of}
use emp_ag2pc.Pass.SlotMask.{SlotMaskPass, alloc_slot, grow}
use emp_ag2pc.Pass.Slots.Valid.{Valid}
use native.Mathlib.Decide.{dec_lt}

-- The slot map after `id` got `slot`.
module _ (phys : List (Option ℕ)) (id slot : ℕ) (room : id < length phys) where
  pub get_or-phys_self : get_or (set phys id (some slot)) id none ≡ some slot
  get_or-phys_self = get_or-set_self phys id (some slot) none room

  pub slot_of-set_self : slot_of (set phys id (some slot)) id ≡ slot
  slot_of-set_self = rw (slot_of, get_or-phys_self)

pub slot_of-set_ne :
    (phys : List (Option ℕ)) (id slot w : ℕ)
    → id ≢ w
    → slot_of (set phys id (some slot)) w ≡ slot_of phys w
slot_of-set_ne phys id slot w h = rw (slot_of, get_or-set_ne phys id w (some slot) none h)

mem-ne : (i x : ℕ) (xs : List ℕ) → mem i (x ∷ xs) ≡ false → (i ≢ x) × (mem i xs ≡ false)
mem-ne i x xs h = ground arith

module _ ⦃B : BlockOps⦄ {A : ℕ → Type 0} {n : ℕ} {p : SlotMaskPass} (v : Valid A n p)
    (room : n < length p.s.phys) where
  -- A state where wire `n` took `slot`: off the free list, or new.
  module _ (q : SlotMaskPass) (slot : ℕ) (moved : q.s.phys ≡ set p.s.phys n (some slot))
      (in_range : slot < q.s.num_slots) (grown : p.s.num_slots ≤ q.s.num_slots)
      (fresh : (w : ℕ) → w < n → A w → slot_of p.s.phys w ≢ slot)
      (fewer : (i : ℕ) → mem i q.freelist ≡ true → mem i p.freelist ≡ true)
      (once : Distinct q.freelist) (off : mem slot q.freelist ≡ false)
      (stored : length q.s.wire_slot ≡ q.s.num_slots)
      (masked : length q.s.mask_input ≡ q.s.num_slots) where
    new_slot : slot_of q.s.phys n ≡ slot
    new_slot = rw moved (slot_of-set_self p.s.phys n slot room)

    old_slot : (w : ℕ) → w < n → slot_of q.s.phys w ≡ slot_of p.s.phys w
    old_slot w h = rw moved (slot_of-set_ne p.s.phys n slot w (omega arith))

    new_assigned :
        (get_or q.s.phys n none ≡ some (slot_of q.s.phys n)) × (slot_of q.s.phys n < q.s.num_slots)
    new_assigned = rw new_slot (rw moved (get_or-phys_self p.s.phys n slot room), in_range)

    old_assigned :
        (w : ℕ)
        → w < n
        → (get_or q.s.phys w none ≡ some (slot_of q.s.phys w))
          × (slot_of q.s.phys w < q.s.num_slots)
    old_assigned w h = rw (old_slot w h) (
      rw (moved, get_or-set_ne p.s.phys n w (some slot) none (omega arith)) (v.assigned w h).0,
      omega (arith, v.assigned w h),
    )

    still_taken : (i : ℕ) → mem i p.freelist ≡ false → mem i q.freelist ≡ false
    still_taken i h = elim (Bool-cases (mem i q.freelist)) [
      | inl e ↦ absurd (clash h (fewer i e))
      | inr e ↦ e
    ]
      where
        clash : {b : Bool} → b ≡ false → b ≡ true → ⊥
        clash e f = cc

    at_end : (P : ℕ → Type 0) → P n → ((w : ℕ) → w < n → P w) → (w : ℕ) → w < suc n → P w
    at_end P new old w h = elim (dec_lt w n) [ yes l ↦ old w l | no l ↦ subst P (omega arith) new ]

    ApartAt : ℕ → ℕ → Type 0
    ApartAt w u = A w → A u → w ≢ u → slot_of q.s.phys w ≢ slot_of q.s.phys u

    new_apart : (u : ℕ) → u < suc n → ApartAt n u
    unfolding ApartAt
    new_apart =
        at_end (ApartAt n) (λ a c ne e. ne refl)
          λ u h a c ne e. fresh u h c (sym (old_slot u h) ∙ sym e ∙ new_slot)

    old_apart : (w : ℕ) → w < n → (u : ℕ) → u < suc n → ApartAt w u
    unfolding ApartAt
    old_apart w k =
        at_end (ApartAt w) (λ a c ne e. fresh w k a (sym (old_slot w k) ∙ e ∙ new_slot))
          λ u h a c ne. rw (old_slot w k, old_slot u h) (v.apart w u k h a c ne)

    Valid-moved : Valid A (suc n) q
    unfolding ApartAt
    Valid-moved = record {
      assigned = at_end _ new_assigned old_assigned;
      room = omega (arith, ap length moved, length-set p.s.phys n (some slot));
      free_in = λ i h. omega (arith, v.free_in i (fewer i h));
      free_once = once;
      taken =
          at_end (λ w. A w → mem (slot_of q.s.phys w) q.freelist ≡ false) (λ a. rw new_slot off)
            (λ w h a. rw (old_slot w h) (still_taken _ (v.taken w h a)));
      apart = λ w u hw hu.
          at_end (λ x. (y : ℕ) → y < suc n → ApartAt x y) new_apart old_apart w hw u hu;
      stored = stored;
      masked = masked;
    }

  -- What `alloc_slot` for wire `n` leaves.
  pub record Allocated (r : ℕ × SlotMaskPass) : Type 0 where
    pub valid : Valid A (suc n) r.1
    pub moved : r.1.s.phys ≡ set p.s.phys n (some r.0)
    pub fresh : (w : ℕ) → w < n → A w → slot_of p.s.phys w ≢ r.0
    pub in_range : r.0 < r.1.s.num_slots
    pub grown : p.s.num_slots ≤ r.1.s.num_slots

  grow-Allocated : Allocated (grow n p)
  unfolding grow
  grow-Allocated =
      let slot = p.s.num_slots in
      let fresh : (w : ℕ) → w < n → A w → slot_of p.s.phys w ≢ slot =
        λ w h a. omega (arith, v.assigned w h) in
      record {
        valid =
            Valid-moved (grow n p).1 slot refl (omega arith) (omega arith) fresh (λ i h. h)
              v.free_once not_free (length-resize (slot + 1) zero_bundle p.s.wire_slot)
              (length-resize (slot + 1) false p.s.mask_input);
        moved = refl;
        fresh = fresh;
        in_range = omega arith;
        grown = omega arith;
      }
    where
      not_free : mem p.s.num_slots p.freelist ≡ false
      not_free = elim (Bool-cases (mem p.s.num_slots p.freelist)) [
        | inl e ↦ absurd (omega (arith, v.free_in p.s.num_slots e))
        | inr e ↦ e
      ]

  reuse : (slot : ℕ) (rest : List ℕ) → SlotMaskPass
  reuse slot rest = record p {
    freelist = rest;
    s = record p.s { phys = set p.s.phys n (some slot) };
  }

  reuse-Allocated :
      (slot : ℕ) (rest : List ℕ) → p.freelist ≡ slot ∷ rest → Allocated (slot, reuse slot rest)
  unfolding reuse
  reuse-Allocated slot rest e = record {
    valid =
        Valid-moved (reuse slot rest) slot refl in_range (omega arith) fresh
          (λ i h. rw e (member i h)) once.1 once.0 v.stored v.masked;
    moved = refl;
    fresh = fresh;
    in_range = in_range;
    grown = omega arith;
  }
    where
      member : (i : ℕ) → mem i rest ≡ true → mem i (slot ∷ rest) ≡ true
      member i h = ground arith

      head_is : mem slot p.freelist ≡ true
      head_is = rw (e, ==_refl slot)

      in_range : slot < p.s.num_slots
      in_range = v.free_in slot head_is

      once : Distinct (slot ∷ rest)
      once = subst Distinct e v.free_once

      fresh : (w : ℕ) → w < n → A w → slot_of p.s.phys w ≢ slot
      fresh w h a same = clash (v.taken w h a) (rw same head_is)
        where
          clash : {b : Bool} → b ≡ false → b ≡ true → ⊥
          clash x y = cc

  -- The new wire gets a slot that no living wire has, and the invariant holds for it too.
  pub alloc_slot-Allocated : Allocated (alloc_slot n p)
  unfolding alloc_slot reuse
  alloc_slot-Allocated = elim (Bool-cases (get_or p.s.persist n false)) [
    | inl e ↦ rw (e, alloc_slot) grow-Allocated
    | inr e ↦ rw (e, alloc_slot) (from_list p.freelist refl)
  ]
    where
      from_list :
          (l : List ℕ)
          → p.freelist ≡ l
          → Allocated (elim l [ [] ↦ grow n p | slot ∷ rest ↦ (slot, reuse slot rest) ])
      from_list [] e = grow-Allocated
      from_list (slot ∷ rest) e = reuse-Allocated slot rest e
