-- ===== src/Pass/Lockstep/State.antt =====
-- The arrays of the two parties in pass 2 of emp-ag2pc/backend/engine.h, by slots, against the
-- tables of the source.
use emp_ag2pc.Prelude.{
  ℕ, ◌+◌, ◌<◌, ◌≡◌, ◌≢◌, ◌⊎◌, inl, inr, refl, sym, subst, ◌∙◌, Bool, true, false, ◌||◌, List,
  Option, none, some, get_or, set, length, length-set, get_or-set_ne, ◌==◌, ==_iff, Bool-cases,
  arith,
}
use emp_ag2pc.Block.{BlockOps, Block, zero_block, ◌⊕◌, mask}
use emp_ag2pc.Wires.{AShareBundle, zero_bundle}
use emp_ag2pc.RunState.{slot_of}
use emp_ag2pc.Pass.Reads.{reaches, Alive, Pinned}
use emp_ag2pc.Pass.Slots.Step.{Own}
use emp_ag2pc.Pass.Lockstep.Tables.{Layout, Ideal, masked, Authentic, AllAuthentic}

module _ ⦃B : BlockOps⦄ where
  -- `wire_slot` of both parties, the garbler's labels, and the evaluator's labels and masks.
  pub record Arrays : Type 0 where
    pub wires_g : List AShareBundle
    pub wires_e : List AShareBundle
    pub labels : List Block
    pub evals : List Block
    pub masks : List Bool

  -- Nothing but slot `i` is written.
  pub record Writes (i : ℕ) (x y : Arrays) : Type 0 where
    pub wires_g : (j : ℕ) → j ≢ i → get_or y.wires_g j zero_bundle ≡ get_or x.wires_g j zero_bundle
    pub wires_e : (j : ℕ) → j ≢ i → get_or y.wires_e j zero_bundle ≡ get_or x.wires_e j zero_bundle
    pub labels : (j : ℕ) → j ≢ i → get_or y.labels j zero_block ≡ get_or x.labels j zero_block
    pub evals : (j : ℕ) → j ≢ i → get_or y.evals j zero_block ≡ get_or x.evals j zero_block
    pub masks : (j : ℕ) → j ≢ i → get_or y.masks j false ≡ get_or x.masks j false

  -- Every array has an entry for each of `n` slots.
  pub record Sized (n : ℕ) (x : Arrays) : Type 0 where
    pub wires_g : length x.wires_g ≡ n
    pub wires_e : length x.wires_e ≡ n
    pub labels : length x.labels ≡ n
    pub evals : length x.evals ≡ n
    pub masks : length x.masks ≡ n

  -- A gate that each party computes locally writes all its arrays.
  abbrev pub write_all : ℕ → AShareBundle → AShareBundle → Block → Block → Bool → Arrays → Arrays
  write_all i a b l e m x = record {
    wires_g = set x.wires_g i a;
    wires_e = set x.wires_e i b;
    labels = set x.labels i l;
    evals = set x.evals i e;
    masks = set x.masks i m;
  }

  -- An AND leaves the shares.
  abbrev pub write_labels : ℕ → Block → Block → Bool → Arrays → Arrays
  write_labels i l e m x = record x {
    labels = set x.labels i l;
    evals = set x.evals i e;
    masks = set x.masks i m;
  }

  set_other :
      {A : Type 0} (xs : List A) (i j : ℕ) (v d : A)
      → j ≢ i
      → get_or (set xs i v) j d ≡ get_or xs j d
  set_other xs i j v d h = get_or-set_ne xs i j v d (λ e. h (sym e))

  pub write_all-Writes :
      (i : ℕ) (a b : AShareBundle) (l e : Block) (m : Bool) (x : Arrays)
      → Writes i x (write_all i a b l e m x)
  write_all-Writes i a b l e m x = record {
    wires_g = λ j h. set_other x.wires_g i j a zero_bundle h;
    wires_e = λ j h. set_other x.wires_e i j b zero_bundle h;
    labels = λ j h. set_other x.labels i j l zero_block h;
    evals = λ j h. set_other x.evals i j e zero_block h;
    masks = λ j h. set_other x.masks i j m false h;
  }

  pub write_labels-Writes :
      (i : ℕ) (l e : Block) (m : Bool) (x : Arrays) → Writes i x (write_labels i l e m x)
  write_labels-Writes i l e m x = record {
    wires_g = λ j h. refl;
    wires_e = λ j h. refl;
    labels = λ j h. set_other x.labels i j l zero_block h;
    evals = λ j h. set_other x.evals i j e zero_block h;
    masks = λ j h. set_other x.masks i j m false h;
  }

  pub write_all-Sized :
      {n : ℕ} (i : ℕ) (a b : AShareBundle) (l e : Block) (m : Bool) (x : Arrays)
      → Sized n x
      → Sized n (write_all i a b l e m x)
  write_all-Sized i a b l e m x s = record {
    wires_g = length-set x.wires_g i a ∙ s.wires_g;
    wires_e = length-set x.wires_e i b ∙ s.wires_e;
    labels = length-set x.labels i l ∙ s.labels;
    evals = length-set x.evals i e ∙ s.evals;
    masks = length-set x.masks i m ∙ s.masks;
  }

  pub write_labels-Sized :
      {n : ℕ} (i : ℕ) (l e : Block) (m : Bool) (x : Arrays)
      → Sized n x
      → Sized n (write_labels i l e m x)
  write_labels-Sized i l e m x s = record {
    wires_g = s.wires_g;
    wires_e = s.wires_e;
    labels = length-set x.labels i l ∙ s.labels;
    evals = length-set x.evals i e ∙ s.evals;
    masks = length-set x.masks i m ∙ s.masks;
  }

  -- No other wire has the slot of a pinned one.
  abbrev pub Exclusive : Layout → ℕ → Type 0
  Exclusive L total =
      (w v : ℕ)
      → w < total
      → v < total
      → Pinned L.persist w
      → w ≢ v
      → slot_of L.phys w ≢ slot_of L.phys v

  module _ (I : Ideal) (L : Layout) where
    abbrev pub slot : ℕ → ℕ
    slot w = slot_of L.phys w

    -- The arrays have what the tables say of wire `w`: both shares, the masked value at the
    -- evaluator, and its label, which is the garbler's zero label shifted by it.
    pub record Agrees (x : Arrays) (w : ℕ) : Type 0 where
      pub share_g : get_or x.wires_g (slot w) zero_bundle ≡ I.share_g w
      pub share_e : get_or x.wires_e (slot w) zero_bundle ≡ I.share_e w
      pub labelled :
          get_or x.evals (slot w) zero_block
          ≡ get_or x.labels (slot w) zero_block ⊕ mask (masked I w) I.delta_g
      pub opened : get_or x.masks (slot w) false ≡ masked I w

    -- After the first `n` wires, before gate `g`, of `total` wires.
    pub record InStep (total n g : ℕ) (x : Arrays) : Type 0 where
      pub agrees : (w : ℕ) → w < n → Alive L.persist L.last_use w g → Agrees x w
      pub pinned :
          (w : ℕ)
          → w < total
          → Pinned L.persist w
          → (get_or x.wires_g (slot w) zero_bundle ≡ I.share_g w)
            × (get_or x.wires_e (slot w) zero_bundle ≡ I.share_e w)
      pub sized : Sized L.slots x
      pub authentic : AllAuthentic I n

    Agrees-kept :
        {i : ℕ} {x y : Arrays} {w : ℕ} → Writes i x y → slot w ≢ i → Agrees x w → Agrees y w
    Agrees-kept {w} f h a = record {
      share_g = f.wires_g (slot w) h ∙ a.share_g;
      share_e = f.wires_e (slot w) h ∙ a.share_e;
      labelled = rw (f.evals (slot w) h, f.labels (slot w) h) a.labelled;
      opened = f.masks (slot w) h ∙ a.opened;
    }

    -- One new wire: only its slot is written, and with what the tables say.
    pub advance :
        {total n g : ℕ} (g' : ℕ) {x y : Arrays}
        → Exclusive L total
        → n < total
        → Own L.persist L.last_use L.phys L.slots g n
        → ((w : ℕ) → Alive L.persist L.last_use w g' → Alive L.persist L.last_use w g)
        → Writes (slot n) x y
        → Sized L.slots y
        → Agrees y n
        → Authentic I (I.share_g n) (I.share_e n)
        → InStep total n g x
        → InStep total (n + 1) g' y
    advance {total} {n} {g} g' {x} {y} ex lt own back f s a auth h = record {
      agrees = λ w l live. elim (split w n) [
        | inl e ↦ subst (Agrees y) (sym e) a
        | inr e ↦
            let l' = below w n l e in
            Agrees-kept f (own.apart w l' (back w live)) (h.agrees w l' (back w live))
      ];
      pinned = λ w l p. elim (split w n) [
        | inl e ↦
            subst
              (λ v.
                (get_or y.wires_g (slot v) zero_bundle ≡ I.share_g v)
                × (get_or y.wires_e (slot v) zero_bundle ≡ I.share_e v))
              (sym e) (a.share_g, a.share_e)
        | inr e ↦
            let i = ex w n l lt p e in
            let (u, v) = h.pinned w l p in (f.wires_g (slot w) i ∙ u, f.wires_e (slot w) i ∙ v)
      ];
      sized = s;
      authentic = λ w l. elim (split w n) [
        | inl e ↦ subst (λ v. Authentic I (I.share_g v) (I.share_e v)) (sym e) auth
        | inr e ↦ h.authentic w (below w n l e)
      ];
    }
      where
        split : (w v : ℕ) → (w ≡ v) ⊎ (w ≢ v)
        split w v = elim (Bool-cases (w == v)) [
          | inl e ↦ inl ((==_iff w v).0 e)
          | inr e ↦ inr (λ q. let t = (==_iff w v).1 q in cc)
        ]

        below : (w v : ℕ) → w < v + 1 → w ≢ v → w < v
        below w v l e = elim (le_cases w v l) [ inl k ↦ k | inr k ↦ absurd (e k) ]
          where
            le_cases : (w v : ℕ) → w < v + 1 → (w < v) ⊎ (w ≡ v)
            le_cases w v l = omega arith

pub alive_before :
    (persist : List Bool) (last_use : List (Option ℕ)) (g w : ℕ)
    → Alive persist last_use w (g + 1)
    → Alive persist last_use w g
alive_before persist last_use g w h = earlier (get_or persist w false) (get_or last_use w none) h
  where
    earlier : (b : Bool) (o : Option ℕ) → b || reaches o (g + 1) ≡ true → b || reaches o g ≡ true
    earlier b none h = h
    earlier b (some u) h = ground arith
