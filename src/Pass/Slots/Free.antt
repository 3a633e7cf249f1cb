-- ===== src/Pass/Slots/Free.antt =====
-- `free_if_dead` gives back only the slot of a wire that no later gate reads.
use emp_ag2pc.Prelude.{
  mem, ℕ, ◌+◌, ◌<◌, ◌≡◌, ◌≢◌, inl, inr, sym, ◌∙◌, Bool, true, false, not, ◌&&◌, ◌∷◌, none, get_or,
  ◌==◌, ==_iff, arith, Bool-cases, Option-cases,
}
use emp_ag2pc.Block.{BlockOps}
use emp_ag2pc.RunState.{slot_of}
use emp_ag2pc.Pass.SlotMask.{SlotMaskPass, is_at, free_if_dead, free_operands}
use emp_ag2pc.Pass.Reads.{Alive}
use emp_ag2pc.Pass.Slots.Valid.{Valid, Valid-weaken}

module _ ⦃B : BlockOps⦄ where
  abbrev is_dead : SlotMaskPass → ℕ → Bool
  is_dead p w = not (get_or p.s.persist w false) && is_at (get_or p.s.last_use w none) p.gi

  -- The wires of `A` without `w`, if the gate frees `w`.
  abbrev Spared : (ℕ → Type 0) → SlotMaskPass → ℕ → ℕ → Type 0
  Spared A p w v = A v × (is_dead p w ≡ true → v ≢ w)

  free_if_dead-Valid :
      {A : ℕ → Type 0} {n : ℕ} {p : SlotMaskPass} (w : ℕ)
      → Valid A n p
      → w < n
      → A w
      → Valid (Spared A p w) n (free_if_dead w p)
  unfolding free_if_dead
  free_if_dead-Valid {A} {n} {p} w v lt alive = elim (Bool-cases (is_dead p w)) [
    | inr e ↦ rw (e, free_if_dead) (Valid-weaken (λ u s. s.0) v)
    | inl e ↦
        rw (e, free_if_dead)
          (record {
            assigned = v.assigned;
            room = v.room;
            free_in = λ i h. pushed_in i h;
            free_once = (v.taken w lt alive, v.free_once);
            taken = λ u h s. ground (arith, v.taken u h s.0, v.apart u w h lt s.0 alive (s.1 e));
            apart = λ u x h k s r. v.apart u x h k s.0 r.0;
            stored = v.stored;
            masked = v.masked;
          })
  ]
    where
      pushed_in : (i : ℕ) → mem i (slot_of p.s.phys w ∷ p.freelist) ≡ true → i < p.s.num_slots
      pushed_in i h = elim (Bool-cases (mem i p.freelist)) [
        | inl e ↦ v.free_in i e
        | inr e ↦ ground (arith, v.assigned w lt)
      ]

  abbrev pub AliveIn : SlotMaskPass → ℕ → ℕ → Type 0
  AliveIn p g w = Alive p.s.persist p.s.last_use w g

  alive_down : (p : SlotMaskPass) (g w : ℕ) → AliveIn p (g + 1) w → AliveIn p g w
  alive_down p g w h = elim (Option-cases (get_or p.s.last_use w none)) [
    | inl e ↦ ground arith
    | inr (u, e) ↦ ground arith
  ]

  dead_after : (p : SlotMaskPass) (w : ℕ) → is_dead p w ≡ true → ¬ AliveIn p (p.gi + 1) w
  dead_after p w d h = elim (Option-cases (get_or p.s.last_use w none)) [
    | inl e ↦ ground arith
    | inr (u, e) ↦ ground arith
  ]

  spares : (p : SlotMaskPass) (w v : ℕ) → AliveIn p (p.gi + 1) v → is_dead p w ≡ true → v ≢ w
  spares p w v h d e = dead_after p w d (rw (← e) h)

  -- After a gate the wires that are alive later keep their slots.
  pub free_if_dead-AliveIn :
      {n : ℕ} {p : SlotMaskPass} (a : ℕ)
      → Valid (AliveIn p p.gi) n p
      → a < n
      → AliveIn p p.gi a
      → Valid (AliveIn p (p.gi + 1)) n (free_if_dead a p)
  free_if_dead-AliveIn {n} {p} a v lt alive =
      Valid-weaken (λ u h. (alive_down p p.gi u h, spares p a u h))
        (free_if_dead-Valid a v lt alive)

  pub s-free_if_dead : (w : ℕ) (p : SlotMaskPass) → (free_if_dead w p).s ≡ p.s
  unfolding free_if_dead
  s-free_if_dead w p = ground arith

  pub gi-free_if_dead : (w : ℕ) (p : SlotMaskPass) → (free_if_dead w p).gi ≡ p.gi
  unfolding free_if_dead
  gi-free_if_dead w p = ground arith

  pub s-free_operands : (a b : ℕ) (p : SlotMaskPass) → (free_operands a b p).s ≡ p.s
  unfolding free_operands
  s-free_operands a b p = ground (arith, s-free_if_dead a p, s-free_if_dead b (free_if_dead a p))

  pub gi-free_operands : (a b : ℕ) (p : SlotMaskPass) → (free_operands a b p).gi ≡ p.gi
  unfolding free_operands
  gi-free_operands a b p = ground (arith, gi-free_if_dead a p, gi-free_if_dead b (free_if_dead a p))

  dead-free_if_dead : (a b : ℕ) (p : SlotMaskPass) → is_dead (free_if_dead a p) b ≡ is_dead p b
  dead-free_if_dead a b p = rw (s-free_if_dead a p, gi-free_if_dead a p)

  -- An operand that stands twice is freed once, so no slot is free twice.
  pub free_operands-AliveIn :
      {n : ℕ} {p : SlotMaskPass} (a b : ℕ)
      → Valid (AliveIn p p.gi) n p
      → a < n
      → b < n
      → AliveIn p p.gi a
      → AliveIn p p.gi b
      → Valid (AliveIn p (p.gi + 1)) n (free_operands a b p)
  unfolding free_operands
  free_operands-AliveIn {n} {p} a b v la lb alive_a alive_b = elim (Bool-cases (b == a)) [
    | inl e ↦ rw (e, free_operands) (free_if_dead-AliveIn a v la alive_a)
    | inr e ↦
        rw (e, free_operands)
          (Valid-weaken
            (λ u h. (
              (alive_down p p.gi u h, spares p a u h),
              λ d. spares p b u h (sym (dead-free_if_dead a b p) ∙ d),
            ))
            (free_if_dead-Valid b (free_if_dead-Valid a v la alive_a) lb
              (alive_b, λ d same. differ (b == a) e ((==_iff b a).1 same))))
  ]
    where
      differ : (x : Bool) → x ≡ false → x ≡ true → ⊥
      differ x e f = cc
