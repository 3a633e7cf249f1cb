-- ===== src/Pass/Slots/Run.antt =====
-- Over a whole source the slot pass keeps wires that are alive apart.
use emp_ag2pc.Prelude.{
  ℕ, ◌+◌, ◌<◌, ◌≤◌, ◌≡◌, inl, inr, refl, sym, ap, subst, ◌∙◌, Bool, List, Option, none, some,
  get_or, arith, Option-cases,
}
use emp_ag2pc.Block.{BlockOps}
use emp_ag2pc.RunState.{slot_of}
use emp_ag2pc.Pass.Source.{
  Source, ret, public_bit, and_gate, xor_gate, not_gate, run_source, cached, cache,
}
use emp_ag2pc.Pass.SlotMask
use emp_ag2pc.Pass.SlotMask.{SlotMaskPass, next_lambda_gamma}
use emp_ag2pc.Pass.Numbering.{
  Counter, next, next_const-cached, next_const-new, slot_mask_count, SlotMask-Numbers, counting,
}
use emp_ag2pc.Pass.Reads.{Covers, Scoped}
use emp_ag2pc.Pass.Slots.Operations.{
  Moves-xor, Moves-and, Moves-not, Moves-public, gi-xor, gi-and, gi-not, gi-public,
}
use emp_ag2pc.Pass.Slots.Step.{Running, Own, Moves}

pub counts_grow : (src : Source) (c : Counter) → c.wid ≤ (run_source counting src c).1.wid
unfolding run_source next
counts_grow (ret outs) c = omega arith
counts_grow (public_bit v k) c = elim (Option-cases (cached v c.consts)) [
  | inr (w, e) ↦
      subst (λ r. c.wid ≤ (run_source counting (k r.0) r.1).1.wid) (sym (next_const-cached v c e))
        (counts_grow (k w) c)
  | inl e ↦
      subst (λ r. c.wid ≤ (run_source counting (k r.0) r.1).1.wid) (sym (next_const-new v c e))
        (omega (
          arith,
          counts_grow (k c.wid) (record { wid = c.wid + 1; consts = cache v c.wid c.consts }),
        ))
]
counts_grow (and_gate a b k) c = omega (arith, counts_grow (k c.wid) (next c).1)
counts_grow (xor_gate a b k) c = omega (arith, counts_grow (k c.wid) (next c).1)
counts_grow (not_gate a k) c = omega (arith, counts_grow (k c.wid) (next c).1)

-- A slot map serves the rest of a source: each new wire has a slot in range, and no wire that is
-- alive at that gate shares it.
abbrev pub Separates :
    List Bool → List (Option ℕ) → List (Option ℕ) → ℕ → ℕ → Counter → Source → Type 0
Separates persist last_use phys slots g c (ret outs) = Unit
Separates persist last_use phys slots g c (public_bit v k) = elim (cached v c.consts) [
  | some w ↦ Separates persist last_use phys slots g c (k w)
  | none ↦
      Own persist last_use phys slots g c.wid
      × Separates persist last_use phys slots g
          (record { wid = c.wid + 1; consts = cache v c.wid c.consts }) (k c.wid)
]
Separates persist last_use phys slots g c (and_gate a b k) =
    Own persist last_use phys slots g c.wid
    × Separates persist last_use phys slots (g + 1) (record c { wid = c.wid + 1 }) (k c.wid)
Separates persist last_use phys slots g c (xor_gate a b k) =
    Own persist last_use phys slots g c.wid
    × Separates persist last_use phys slots (g + 1) (record c { wid = c.wid + 1 }) (k c.wid)
Separates persist last_use phys slots g c (not_gate a k) =
    Own persist last_use phys slots g c.wid
    × Separates persist last_use phys slots (g + 1) (record c { wid = c.wid + 1 }) (k c.wid)

cached_served :
    (persist : List Bool) (last_use phys : List (Option ℕ)) (slots g : ℕ) (c : Counter) (v : Bool)
    (k : ℕ → Source) {w : ℕ}
    → cached v c.consts ≡ some w
    → Separates persist last_use phys slots g c (k w)
    → Separates persist last_use phys slots g c (public_bit v k)
cached_served persist last_use phys slots g c v k e s =
    subst
      (λ o. elim o [
        | some w ↦ Separates persist last_use phys slots g c (k w)
        | none ↦
            Own persist last_use phys slots g c.wid
            × Separates persist last_use phys slots g
                (record { wid = c.wid + 1; consts = cache v c.wid c.consts }) (k c.wid)
      ])
      (sym e) s

new_served :
    (persist : List Bool) (last_use phys : List (Option ℕ)) (slots g : ℕ) (c : Counter) (v : Bool)
    (k : ℕ → Source)
    → cached v c.consts ≡ none
    → Own persist last_use phys slots g c.wid
      × Separates persist last_use phys slots g
          (record { wid = c.wid + 1; consts = cache v c.wid c.consts })
          (k c.wid)
    → Separates persist last_use phys slots g c (public_bit v k)
new_served persist last_use phys slots g c v k e s =
    subst
      (λ o. elim o [
        | some w ↦ Separates persist last_use phys slots g c (k w)
        | none ↦
            Own persist last_use phys slots g c.wid
            × Separates persist last_use phys slots g
                (record { wid = c.wid + 1; consts = cache v c.wid c.consts }) (k c.wid)
      ])
      (sym e) s

-- A slot map and a number of slots that agree with those of the state on the wires made so far.
pub record Ends ⦃B : BlockOps⦄ (phys : List (Option ℕ)) (slots : ℕ) (p : SlotMaskPass)
    : Type 0 where
  pub agrees : (w : ℕ) → w < p.wid → get_or phys w none ≡ get_or p.s.phys w none
  pub enough : p.s.num_slots ≤ slots

module _ ⦃B : BlockOps⦄ {persist : List Bool} {last_use : List (Option ℕ)} {wires : ℕ} where
  -- What one step found of its wire holds in the end.
  Own-end :
      {phys : List (Option ℕ)} {slots : ℕ} {p q : SlotMaskPass}
      → Moves persist last_use wires p q
      → q.wid ≡ p.wid + 1
      → Ends phys slots q
      → Own persist last_use phys slots p.gi p.wid
  Own-end {phys} {slots} {p} {q} m n e = record {
    owned = rw here (e.agrees p.wid (omega arith) ∙ m.own.owned);
    in_range = rw here (omega (arith, m.own.in_range, e.enough));
    apart = λ w h a same. m.own.apart w h a (sym (at w (omega arith)) ∙ same ∙ here);
  }
    where
      at : (w : ℕ) → w < q.wid → slot_of phys w ≡ slot_of q.s.phys w
      at w h = ap (λ o. elim o [ none ↦ 0 | some i ↦ i ]) (e.agrees w h)

      here : slot_of phys p.wid ≡ slot_of q.s.phys p.wid
      here = at p.wid (omega arith)

  Ends-back :
      {phys : List (Option ℕ)} {slots : ℕ} {p q : SlotMaskPass}
      → Moves persist last_use wires p q
      → q.wid ≡ p.wid + 1
      → Ends phys slots q
      → Ends phys slots p
  Ends-back m w e = record {
    agrees = λ u h. e.agrees u (omega arith) ∙ m.kept u h;
    enough = omega (arith, e.enough, m.slots);
  }

module _ ⦃B : BlockOps⦄ where
  abbrev final : Source → SlotMaskPass → SlotMaskPass
  final src p = (run_source SlotMask.ops src p).1

  -- What the rest of a run leaves: its end agrees with the state, and serves the rest.
  pub record Served (persist : List Bool) (last_use : List (Option ℕ)) (src : Source)
      (p : SlotMaskPass) : Type 0 where
    pub ends : Ends (final src p).s.phys (final src p).s.num_slots p
    pub served :
        Separates persist last_use
          (final src p).s.phys
          (final src p).s.num_slots
          p.gi
          (slot_mask_count p)
          src

  module _ (persist : List Bool) (last_use : List (Option ℕ)) (wires : ℕ) (k : ℕ → Source)
      (p q : SlotMaskPass) {w : ℕ} (e : next (slot_mask_count p) ≡ (w, slot_mask_count q)) where
    q_wid : q.wid ≡ p.wid + 1
    unfolding next
    q_wid = ap (λ r. r.1.wid) (sym e)

    -- The wires of the rest still fit the map.
    rest_fits :
        let r = next (slot_mask_count p) in
        (run_source counting (k r.0) r.1).1.wid ≤ wires
        → (run_source counting (k w) (slot_mask_count q)).1.wid ≤ wires
    rest_fits h = subst (λ r. (run_source counting (k r.0) r.1).1.wid ≤ wires) e h

    has_room : (run_source counting (k w) (slot_mask_count q)).1.wid ≤ wires → p.wid < wires
    has_room h = omega (arith, counts_grow (k w) (slot_mask_count q), q_wid)

    gate-Served :
        q.gi ≡ p.gi + 1
        → Moves persist last_use wires p q
        → Served persist last_use (k w) q
        → let f = (final (k w) q).s in
          Ends f.phys f.num_slots p
          × (Own persist last_use f.phys f.num_slots p.gi p.wid
              × Separates persist last_use f.phys f.num_slots
                  (p.gi + 1)
                  (record (slot_mask_count p) { wid = p.wid + 1 })
                  (k p.wid))
    unfolding next
    gate-Served eg m s = (
      Ends-back m q_wid s.ends,
      (
        Own-end m q_wid s.ends,
        subst
            (λ r.
              Separates persist last_use (final (k w) q).s.phys (final (k w) q).s.num_slots
                (p.gi + 1) r.1 (k r.0))
            (sym e)
            (subst
              (λ g.
                Separates persist last_use (final (k w) q).s.phys (final (k w) q).s.num_slots g
                  (slot_mask_count q) (k w))
              eg s.served),
      ),
    )

  module _ (persist : List Bool) (last_use : List (Option ℕ)) (wires : ℕ) where
    public_bit-cached :
        (v : Bool) (p : SlotMaskPass) {w : ℕ}
        → cached v p.consts ≡ some w
        → SlotMask.public_bit v p ≡ (w, p)
    unfolding SlotMask.public_bit
    public_bit-cached v p e = rw (e, SlotMask.public_bit)

    gate_case :
        (k : ℕ → Source) (p q : SlotMaskPass) {w : ℕ}
        (e : next (slot_mask_count p) ≡ (w, slot_mask_count q))
        → q.gi ≡ p.gi + 1
        → Moves persist last_use wires p q
        → (let r = next (slot_mask_count p) in Scoped r.1 (k r.0))
        → (let r = next (slot_mask_count p) in Covers persist last_use (p.gi + 1) r.1 (k r.0))
        → (Running persist last_use wires q
            → Scoped (slot_mask_count q) (k w)
            → Covers persist last_use q.gi (slot_mask_count q) (k w)
            → Served persist last_use (k w) q)
        → let f = (final (k w) q).s in
          Ends f.phys f.num_slots p
          × (Own persist last_use f.phys f.num_slots p.gi p.wid
              × Separates persist last_use f.phys f.num_slots
                  (p.gi + 1)
                  (record (slot_mask_count p) { wid = p.wid + 1 })
                  (k p.wid))
    gate_case k p q {w} e eg m s c rest = gate-Served persist last_use wires k p q e eg m (
        rest m.running (subst (λ r. Scoped r.1 (k r.0)) e s) (
          subst (λ g. Covers persist last_use g (slot_mask_count q) (k w)) (sym eg)
            (subst (λ r. Covers persist last_use (p.gi + 1) r.1 (k r.0)) e c)))

    pub separates :
        (src : Source) (p : SlotMaskPass)
        → Running persist last_use wires p
        → Scoped (slot_mask_count p) src
        → Covers persist last_use p.gi (slot_mask_count p) src
        → (run_source counting src (slot_mask_count p)).1.wid ≤ wires
        → Served persist last_use src p
    unfolding run_source
    separates (ret outs) p r s c h = record {
      ends = record { agrees = λ w l. refl; enough = omega arith };
      served = tt;
    }
    separates (public_bit v k) p r s c h = elim (Option-cases (cached v p.consts)) [
      | inr (w, e) ↦
          let n = next_const-cached v (slot_mask_count p) e in
          let rest =
            separates (k w) p r (subst (λ r. Scoped r.1 (k r.0)) n s)
              (subst (λ r. Covers persist last_use p.gi r.1 (k r.0)) n c)
              (subst (λ r. (run_source counting (k r.0) r.1).1.wid ≤ wires) n h) in
          let found =
            subst
              (λ r.
                let f = (final (k r.0) r.1).s in
                Ends f.phys f.num_slots p
                × Separates persist last_use f.phys f.num_slots p.gi (slot_mask_count p) (k w))
              (sym (public_bit-cached v p e)) (rest.ends, rest.served) in
          record {
            ends = found.0;
            served = cached_served persist last_use _ _ p.gi (slot_mask_count p) v k e found.1;
          }
      | inl e ↦
          let q = (SlotMask.public_bit v p).1 in
          let n = sym (next_const-new v (slot_mask_count p) e) ∙ SlotMask-Numbers.of_public v p in
          let old = next_const-new v (slot_mask_count p) e in
          let w = (SlotMask.public_bit v p).0 in
          let fits =
            subst (λ r. (run_source counting (k r.0) r.1).1.wid ≤ wires)
              (SlotMask-Numbers.of_public v p) h in
          let ew = ap (λ r. r.1.wid) (sym n) in
          let room : p.wid < wires =
            omega (arith, counts_grow (k w) (slot_mask_count q), ew, fits) in
          let m = Moves-public r room v e in
          let eg = gi-public v p e in
          let rest =
            separates (k w) q m.running
              (subst (λ r. Scoped r.1 (k r.0)) (SlotMask-Numbers.of_public v p) s)
              (subst (λ g. Covers persist last_use g (slot_mask_count q) (k w)) (sym eg)
                (subst (λ r. Covers persist last_use p.gi r.1 (k r.0))
                  (SlotMask-Numbers.of_public v p) c))
              fits in
          record {
            ends = Ends-back m ew rest.ends;
            served = new_served persist last_use _ _ p.gi (slot_mask_count p) v k e (
              Own-end m ew rest.ends,
              subst
                  (λ r.
                    Separates persist last_use (final (k w) q).s.phys (final (k w) q).s.num_slots
                      p.gi r.1 (k r.0))
                  (sym n)
                  (subst
                    (λ g.
                      Separates persist last_use (final (k w) q).s.phys (final (k w) q).s.num_slots
                        g (slot_mask_count q) (k w))
                    eg rest.served),
            );
          }
    ]
    separates (and_gate a b k) p r (sa, sb, s) (ca, cb, pin, c) h =
        let e = SlotMask-Numbers.of_and a b p in
        let q = (SlotMask.and_gate a b p).1 in
        let fits = rest_fits persist last_use wires k p q e h in
        let room = has_room persist last_use wires k p q e fits in
        let rest = separates (k (SlotMask.and_gate a b p).0) q in
        let found =
          gate_case k p q e (gi-and r room a b) (Moves-and r room a b sa sb ca cb) s c
            (λ m t u. rest m t u fits) in
        record { ends = found.0; served = found.1 }
    separates (xor_gate a b k) p r (sa, sb, s) (ca, cb, c) h =
        let e = SlotMask-Numbers.of_xor a b p in
        let q = (SlotMask.xor_gate a b p).1 in
        let fits = rest_fits persist last_use wires k p q e h in
        let room = has_room persist last_use wires k p q e fits in
        let rest = separates (k (SlotMask.xor_gate a b p).0) q in
        let found =
          gate_case k p q e (gi-xor r room a b) (Moves-xor r room a b sa sb ca cb) s c
            (λ m t u. rest m t u fits) in
        record { ends = found.0; served = found.1 }
    separates (not_gate a k) p r (sa, s) (ca, c) h =
        let e = SlotMask-Numbers.of_not a p in
        let q = (SlotMask.not_gate a p).1 in
        let fits = rest_fits persist last_use wires k p q e h in
        let room = has_room persist last_use wires k p q e fits in
        let rest = separates (k (SlotMask.not_gate a p).0) q in
        let found =
          gate_case k p q e (gi-not r room a) (Moves-not r room a sa ca) s c
            (λ m t u. rest m t u fits) in
        record { ends = found.0; served = found.1 }
