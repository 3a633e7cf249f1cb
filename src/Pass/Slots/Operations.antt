-- ===== src/Pass/Slots/Operations.antt =====
-- The four operations of AG2PCSlotMaskPass, each as a step of the invariant.
use emp_ag2pc.Prelude.{
  ℕ, ◌+◌, ◌<◌, ◌≡◌, refl, sym, ap, Bool, false, List, [], ◌∷◌, ◌++◌, Option, none, arith,
}
use emp_ag2pc.Block.{BlockOps}
use emp_ag2pc.Wires.{zero_bundle, xor_bundle}
use emp_ag2pc.RunState.{wslot}
use emp_ag2pc.Pass.Source.{cached}
use emp_ag2pc.Pass.SlotMask
use emp_ag2pc.Pass.SlotMask.{SlotMaskPass, next_lambda_gamma}
use emp_ag2pc.Pass.Numbering.{next, SlotMask-Numbers, count-alloc_slot}
use emp_ag2pc.Pass.Reads.{Alive}
use emp_ag2pc.Pass.Slots.Step.{
  Running, Moves, Based, Moves-two, Moves-one, Moves-none, two_gi, one_gi, gi-alloc_slot,
}

module _ ⦃B : BlockOps⦄ (p : SlotMaskPass) where
  abbrev emitted : SlotMaskPass
  emitted = record p { wid = p.wid + 1 }

  Based-emitted : Based p emitted
  Based-emitted = record {
    same_phys = refl;
    same_slots = refl;
    same_wires = refl;
    same_masks = refl;
    same_free = refl;
    same_pins = refl;
    same_uses = refl;
    same_gi = refl;
  }

  Based-next_lambda_gamma : Based p (next_lambda_gamma p).1
  unfolding next_lambda_gamma
  Based-next_lambda_gamma = ground arith

  -- The state of `and_gate` when the operand shares are recorded.
  abbrev recorded : ℕ → ℕ → SlotMaskPass
  recorded a b = record p {
    wid = p.wid + 1;
    s = record p.s { rep_a = p.s.rep_a ++ wslot p.s a ∷ []; rep_b = p.s.rep_b ++ wslot p.s b ∷ [] };
  }

Based-recorded :
    ⦃B : BlockOps⦄ → (p : SlotMaskPass) (a b : ℕ) → Based p (next_lambda_gamma (recorded p a b)).1
Based-recorded p a b =
    let l = Based-next_lambda_gamma (recorded p a b) in
    record {
      same_phys = l.same_phys;
      same_slots = l.same_slots;
      same_wires = l.same_wires;
      same_masks = l.same_masks;
      same_free = l.same_free;
      same_pins = l.same_pins;
      same_uses = l.same_uses;
      same_gi = l.same_gi;
    }

module _ ⦃B : BlockOps⦄ {persist : List Bool} {last_use : List (Option ℕ)} {wires : ℕ}
    {p : SlotMaskPass} (r : Running persist last_use wires p) (room : p.wid < wires) where
  pub Moves-xor :
      (a b : ℕ)
      → a < p.wid
      → b < p.wid
      → Alive persist last_use a p.gi
      → Alive persist last_use b p.gi
      → Moves persist last_use wires p (SlotMask.xor_gate a b p).1
  unfolding SlotMask.xor_gate next
  Moves-xor a b la lb aa ab =
      Moves-two r room (emitted p) (Based-emitted p) (xor_bundle (wslot p.s a) (wslot p.s b)) false
        a b (SlotMask.xor_gate a b p).1 la lb aa ab refl refl
        (ap (λ n. n.1.wid) (sym (SlotMask-Numbers.of_xor a b p))) refl

  pub Moves-and :
      (a b : ℕ)
      → a < p.wid
      → b < p.wid
      → Alive persist last_use a p.gi
      → Alive persist last_use b p.gi
      → Moves persist last_use wires p (SlotMask.and_gate a b p).1
  unfolding SlotMask.and_gate next
  Moves-and a b la lb aa ab =
      Moves-two r room (next_lambda_gamma (recorded p a b)).1 (Based-recorded p a b)
        (next_lambda_gamma (recorded p a b)).0 false a b (SlotMask.and_gate a b p).1 la lb aa ab
        refl refl (ap (λ n. n.1.wid) (sym (SlotMask-Numbers.of_and a b p))) refl

  pub Moves-not :
      (a : ℕ)
      → a < p.wid
      → Alive persist last_use a p.gi
      → Moves persist last_use wires p (SlotMask.not_gate a p).1
  unfolding SlotMask.not_gate next
  Moves-not a la aa =
      Moves-one r room (emitted p) (Based-emitted p) (wslot p.s a) false a (SlotMask.not_gate a p).1
        la aa refl refl (ap (λ n. n.1.wid) (sym (SlotMask-Numbers.of_not a p))) refl

  pub Moves-public :
      (v : Bool)
      → cached v p.consts ≡ none
      → Moves persist last_use wires p (SlotMask.public_bit v p).1
  unfolding SlotMask.public_bit
  Moves-public v e =
      rw (e, SlotMask.public_bit)
        (Moves-none r room (emitted p) (Based-emitted p) zero_bundle v _ refl refl
          (ap (λ c. c.wid) (count-alloc_slot p.wid (emitted p))) refl)

module _ ⦃B : BlockOps⦄ {persist : List Bool} {last_use : List (Option ℕ)} {wires : ℕ}
    {p : SlotMaskPass} (r : Running persist last_use wires p) (room : p.wid < wires) where
  pub gi-xor : (a b : ℕ) → (SlotMask.xor_gate a b p).1.gi ≡ p.gi + 1
  unfolding SlotMask.xor_gate
  gi-xor a b =
      ap (λ g. g + 1)
        (two_gi r room (emitted p) (Based-emitted p) (xor_bundle (wslot p.s a) (wslot p.s b)) false
          a b)

  pub gi-and : (a b : ℕ) → (SlotMask.and_gate a b p).1.gi ≡ p.gi + 1
  unfolding SlotMask.and_gate
  gi-and a b =
      ap (λ g. g + 1)
        (two_gi r room (next_lambda_gamma (recorded p a b)).1 (Based-recorded p a b)
          (next_lambda_gamma (recorded p a b)).0 false a b)

  pub gi-not : (a : ℕ) → (SlotMask.not_gate a p).1.gi ≡ p.gi + 1
  unfolding SlotMask.not_gate
  gi-not a = ap (λ g. g + 1) (one_gi r room (emitted p) (Based-emitted p) (wslot p.s a) false a)

pub gi-public :
    ⦃B : BlockOps⦄
    → (v : Bool) (p : SlotMaskPass) → cached v p.consts ≡ none
    → (SlotMask.public_bit v p).1.gi ≡ p.gi
unfolding SlotMask.public_bit
gi-public v p e = rw (e, SlotMask.public_bit) (gi-alloc_slot p.wid (emitted p))
