-- ===== src/Session/Roundtrip.antt =====
-- Bundles that are carried and gathered again: materialize_into_ and gather_carried_ of
-- emp-ag2pc/session/ag2pc_session.h.
use emp_ag2pc.Prelude.{
  drop-all, drop-step, ℕ, ◌+◌, ◌<◌, ◌≤◌, ◌≡◌, refl, ap, ◌∙◌, Bool, true, false, List, [], ◌∷◌, some,
  length, ◌==◌, ==_refl, ==_iff, if◌then◌else◌, mem, Distinct, arith, drop,
}
use emp_ag2pc.Block.{BlockOps, zero_block}
use emp_ag2pc.Wires.{zero_bundle, SecureWires, size}
use emp_ag2pc.Session.Carried.{
  CarriedState, Carried, find, find_or_fresh, carry_load, load_all, materialize_into, carry_store,
  gather_carried,
}

module _ ⦃B : BlockOps⦄ where
  -- A bundle of a party: as many entries of each kind as wires, and none of the other party's labels.
  pub record WellFormed (is_eval : Bool) (s : SecureWires) : Type 0 where
    pub bundles : length s.wire_bundle ≡ length s.lambda
    pub label0s : length s.label0 ≡ (if is_eval then 0 else length s.lambda)
    pub eval_labels : length s.eval_label ≡ (if is_eval then length s.lambda else 0)

  -- A load does not touch the other ids.
  load_all-other :
      (is_eval : Bool) (s : SecureWires) (i : ℕ) (ids : List ℕ) (m : Carried) (id : ℕ)
      → mem id ids ≡ false
      → find id (load_all is_eval s i ids m) ≡ find id m
  unfolding load_all
  load_all-other is_eval s i [] m id h = refl
  load_all-other is_eval s i (k ∷ ids) m id h =
      load_all-other is_eval s (i + 1) ids _ id (ground arith)
      ∙ (let e : (k == id) ≡ false = ground arith in rw e refl)

  -- The wires of a bundle from `i` on.
  abbrev rest_of : ℕ → SecureWires → SecureWires
  rest_of i s = record {
    lambda = drop i s.lambda;
    wire_bundle = drop i s.wire_bundle;
    label0 = drop i s.label0;
    eval_label = drop i s.eval_label;
  }

  store-load :
      (is_eval : Bool) (s : SecureWires) (i : ℕ) (c : CarriedState)
      → WellFormed is_eval s
      → i < length s.lambda
      → carry_store is_eval (carry_load is_eval s i c) (rest_of (i + 1) s) ≡ rest_of i s
  unfolding carry_load
  store-load true s i c w h =
      rw
        (
          drop-step i s.lambda false h,
          drop-step i s.wire_bundle zero_bundle (omega (arith, w.bundles)),
          drop-step i s.eval_label zero_block (omega (arith, w.eval_labels)),
          drop-all i s.label0 (omega (arith, w.label0s)),
          drop-all (i + 1) s.label0 (omega (arith, w.label0s)),
        )
        refl
  store-load false s i c w h =
      rw
        (
          drop-step i s.lambda false h,
          drop-step i s.wire_bundle zero_bundle (omega (arith, w.bundles)),
          drop-step i s.label0 zero_block (omega (arith, w.label0s)),
          drop-all i s.eval_label (omega (arith, w.eval_labels)),
          drop-all (i + 1) s.eval_label (omega (arith, w.eval_labels)),
        )
        refl

  gather-load_all :
      (is_eval : Bool) (s : SecureWires) (i : ℕ) (ids : List ℕ) (m : Carried)
      → WellFormed is_eval s
      → Distinct ids
      → length s.lambda ≡ i + length ids
      → gather_carried is_eval ids (load_all is_eval s i ids m) ≡ some (rest_of i s)
  unfolding gather_carried load_all
  gather-load_all is_eval s i [] m w u l =
      rw
        (
          drop-all i s.lambda (omega arith),
          drop-all i s.wire_bundle (omega (arith, w.bundles)),
          drop-all i s.label0 (short is_eval w.label0s),
          drop-all i s.eval_label (short' is_eval w.eval_labels),
        )
        refl
    where
      short :
          (e : Bool) → length s.label0 ≡ (if e then 0 else length s.lambda) → length s.label0 ≤ i
      short true h = omega arith
      short false h = omega arith

      short' :
          (e : Bool)
          → length s.eval_label ≡ (if e then length s.lambda else 0)
          → length s.eval_label ≤ i
      short' true h = omega arith
      short' false h = omega arith
  gather-load_all is_eval s i (id ∷ ids) m w (f, u) l =
      let c = carry_load is_eval s i (find_or_fresh id m) in
      let found : find id (load_all is_eval s (i + 1) ids ((id, c) ∷ m)) ≡ some c =
        load_all-other is_eval s (i + 1) ids ((id, c) ∷ m) id f ∙ rw (==_refl id) refl in
      rw (found, gather-load_all is_eval s (i + 1) ids ((id, c) ∷ m) w u (omega arith))
        (ap some (store-load is_eval s i (find_or_fresh id m) w (omega arith)))

  -- What a well-formed bundle gives when it is materialized into distinct ids and gathered again, in
  -- the same order.
  pub record GivesBack (is_eval : Bool) (ids : List ℕ) (s : SecureWires) (m : Carried)
      : Type 0 where
    pub after : Carried
    pub returns : materialize_into is_eval ids s m ≡ some after
    pub gathered : gather_carried is_eval ids after ≡ some s
    pub others : (id : ℕ) → mem id ids ≡ false → find id after ≡ find id m

  -- A bundle of a party's own kind of labels that is materialized into as many distinct ids is what
  -- gather_carried_ gives for these ids afterwards, and no other id's state changes.
  pub materialize-gather :
      (is_eval : Bool) (ids : List ℕ) (s : SecureWires) (m : Carried)
      → WellFormed is_eval s
      → Distinct ids
      → size s ≡ length ids
      → GivesBack is_eval ids s m
  unfolding materialize_into
  materialize-gather is_eval ids s m w u l = record {
    after = load_all is_eval s 0 ids m;
    returns = rw ((==_iff (size s) (length ids)).1 l) refl;
    gathered = gather-load_all is_eval s 0 ids m w u (omega arith);
    others = λ id h. load_all-other is_eval s 0 ids m id h;
  }
