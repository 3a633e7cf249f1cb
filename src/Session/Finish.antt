-- ===== src/Session/Finish.antt =====
-- What a batch of inputs of emp-ag2pc/session/ag2pc_session.h leaves when it is finished.
use emp_ag2pc.Prelude.{
  suc, ℕ, ◌≡◌, refl, sym, ap, ◌∙◌, Bool, true, false, ◌||◌, List, [], ◌∷◌, ◌++◌, concat, Option,
  some, length, mem, Distinct, All, map, ◌==◌, ==_iff, Bool-cases, inl, inr, arith,
}
use mathlib.Core.List.{append_assoc, append-nil}
use emp_ag2pc.Block.{BlockOps}
use emp_ag2pc.Wires.{SecureWires, size}
use emp_ag2pc.Protocol.Defs.{alice, bob}
use emp_ag2pc.Session.Carried.{Carried, find, gather_carried}
use emp_ag2pc.Session.Roundtrip.{WellFormed, GivesBack, materialize-gather}
use emp_ag2pc.Session.Parts.{
  secrets, publics, mem-append, Split, Distinct-Split, mem-secrets, mem-publics, secrets-Distinct,
  publics-secrets,
}
use emp_ag2pc.Session.Batch.{
  InputBatch, Secret, no_secret, sort_inputs, materialize_each, batch_finish,
}

-- An owner of an input.
abbrev pub is_owner : ℕ → Bool
is_owner o = o == 0 || (o == alice || o == bob)

-- As many bits as ids for each owner.
abbrev pub Widths : List ℕ → List (List Bool) → List (List ℕ) → Type 0
Widths [] [] [] = Unit
Widths (o ∷ os) (b ∷ bs) (i ∷ is) = (length b ≡ length i) × Widths os bs is
Widths _ _ _ = ⊥

module _ ⦃B : BlockOps⦄ (is_eval : Bool) where
  -- Gathering looks at its own ids alone.
  gather_congr :
      (ids : List ℕ) (m n : Carried)
      → ((id : ℕ) → mem id ids ≡ true → find id m ≡ find id n)
      → gather_carried is_eval ids m ≡ gather_carried is_eval ids n
  unfolding gather_carried
  gather_congr [] m n h = refl
  gather_congr (id ∷ ids) m n h =
      rw
        (
          h id (let e : (id == id) ≡ true = ground arith in rw e refl),
          gather_congr ids m n (λ v k. h v (let k' : mem v ids ≡ true = k in ground arith)),
        )
        refl

  -- Each list of ids gathers to its bundle.
  abbrev pub Each : List (List ℕ) → List SecureWires → Carried → Type 0
  Each [] [] m = Unit
  Each (i ∷ is) (w ∷ ws) m = (gather_carried is_eval i m ≡ some w) × Each is ws m
  Each _ _ m = ⊥

  -- A bundle for each list of ids, of as many wires, with labels of this party's kind.
  abbrev pub Fits : List (List ℕ) → List SecureWires → Type 0
  Fits [] [] = Unit
  Fits (i ∷ is) (w ∷ ws) = (WellFormed is_eval w × (size w ≡ length i)) × Fits is ws
  Fits _ _ = ⊥

  Each-congr :
      (is : List (List ℕ)) (ws : List SecureWires) (m n : Carried)
      → ((id : ℕ) → mem id (concat is) ≡ true → find id m ≡ find id n)
      → Each is ws n
      → Each is ws m
  Each-congr [] [] m n h e = tt
  Each-congr [] (w ∷ ws) m n h e = absurd e
  Each-congr (i ∷ is) [] m n h e = absurd e
  Each-congr (i ∷ is) (w ∷ ws) m n h (e, es) = (
    gather_congr i m n (λ id k. h id (mem-append id i (concat is) ∙ rw k refl)) ∙ e,
    Each-congr is ws m n
        (λ id k.
          h id (
            mem-append id i (concat is) ∙ (let k' : mem id (concat is) ≡ true = k in ground arith)))
        es,
  )

  -- The bundles stand at the ids, and all else is as in `m`.
  record Placed (is : List (List ℕ)) (ws : List SecureWires) (m after : Carried) : Type 0 where
    each : Each is ws after
    others : (id : ℕ) → mem id (concat is) ≡ false → find id after ≡ find id m

  place :
      (i : List ℕ) (is : List (List ℕ)) (w : SecureWires) (ws : List SecureWires) (m n : Carried)
      → ((id : ℕ) → mem id i ≡ true → mem id (concat is) ≡ false)
      → (g : GivesBack is_eval i w m) → Placed is ws g.after n
      → Placed (i ∷ is) (w ∷ ws) m n
  place i is w ws m n d g p = record {
    each = (gather_congr i n g.after (λ id k. p.others id (d id k)) ∙ g.gathered, p.each);
    others = λ id h.
        let b : mem id i || mem id (concat is) ≡ false = sym (mem-append id i (concat is)) ∙ h in
        p.others id (ground arith) ∙ g.others id (ground arith);
  }

  each-Placed :
      (is : List (List ℕ)) (ws : List SecureWires) (m : Carried)
      → Distinct (concat is)
      → Fits is ws
      → (n : Carried) × (materialize_each is_eval is ws m ≡ some n) × Placed is ws m n
  unfolding materialize_each
  each-Placed [] [] m d f = (m, refl, record { each = tt; others = λ id h. refl })
  each-Placed [] (w ∷ ws) m d f = absurd f
  each-Placed (i ∷ is) [] m d f = absurd f
  each-Placed (i ∷ is) (w ∷ ws) m d ((u, l), f) =
      let s = Distinct-Split i (concat is) d in
      let g = materialize-gather is_eval i w m u s.left l in
      let (n, e, p) = each-Placed is ws g.after s.right f in
      (n, rw g.returns e, place i is w ws m n s.disjoint g p)

  module _ (public_wires : List Bool → SecureWires)
      (process_inputs : List ℕ → List (List Bool) → Option (List SecureWires)) where
    -- The bundles of the public values.
    abbrev pub constants : List ℕ → List (List Bool) → List SecureWires
    constants os bs = map public_wires (publics os bs)

    abbrev grown : Secret → List ℕ → List (List Bool) → List (List ℕ) → Secret
    grown sec os bs is = record {
      owners = sec.owners ++ secrets os os;
      bits = sec.bits ++ secrets os bs;
      ids = sec.ids ++ secrets os is;
    }

    sorted :
        (os : List ℕ) (bs : List (List Bool)) (is : List (List ℕ)) (sec : Secret) (m : Carried)
        → Widths os bs is
        → All (λ o. is_owner o ≡ true) os
        → Distinct (concat is)
        → ((b : List Bool)
            → WellFormed is_eval (public_wires b) × (size (public_wires b) ≡ length b))
        → (n : Carried) × (sort_inputs is_eval public_wires process_inputs os bs is sec m
            ≡ some (grown sec os bs is, n))
          × Placed (publics os is) (constants os bs) m n
    unfolding sort_inputs
    sorted [] [] [] sec m l a d f = (
      m,
      rw (append-nil sec.owners, append-nil sec.bits, append-nil sec.ids) refl,
      record { each = tt; others = λ id h. refl },
    )
    sorted [] [] (i ∷ is) sec m l a d f = absurd l
    sorted [] (b ∷ bs) is sec m l a d f = absurd l
    sorted (o ∷ os) [] is sec m l a d f = absurd l
    sorted (o ∷ os) (b ∷ bs) [] sec m l a d f = absurd l
    sorted (o ∷ os) (b ∷ bs) (i ∷ is) sec m (l, ls) (a, owned) d f =
        let s = Distinct-Split i (concat is) d in
        elim (Bool-cases (o == 0)) [
          | inl e ↦
              let (u, k) = f b in
              let g = materialize-gather is_eval i (public_wires b) m u s.left (k ∙ l) in
              let (n, q, p) = sorted os bs is sec g.after ls owned s.right f in
              rw e (n, rw (e, sort_inputs, g.returns) q, place_public s n g p)
          | inr e ↦
              let (n, q, p) =
                sorted os bs is
                  (record {
                    owners = sec.owners ++ o ∷ [];
                    bits = sec.bits ++ b ∷ [];
                    ids = sec.ids ++ i ∷ [];
                  })
                  m ls owned s.right f in
              let known : (o == alice || o == bob) ≡ true = ground arith in
              rw e (
                n,
                rw
                    (
                      e,
                      sort_inputs,
                      known,
                      sym (append_assoc sec.owners (o ∷ []) (secrets os os)),
                      sym (append_assoc sec.bits (b ∷ []) (secrets os bs)),
                      sym (append_assoc sec.ids (i ∷ []) (secrets os is)),
                    )
                    q,
                p,
              )
        ]
      where
        place_public :
            Split i (concat is)
            → (n : Carried) (g : GivesBack is_eval i (public_wires b) m)
            → Placed (publics os is) (constants os bs) g.after n
            → Placed (i ∷ publics os is) (public_wires b ∷ constants os bs) m n
        place_public s n g p =
            place i (publics os is) (public_wires b) (constants os bs) m n
              (λ id k. mem-publics os is id (s.disjoint id k)) g p

    -- A batch that is finished with the bundles `subs` of its secret values.
    pub record Finished (b : InputBatch) (subs : List SecureWires) (m : Carried) : Type 0 where
      pub after : Carried
      pub returns : batch_finish is_eval public_wires process_inputs b m ≡ some after
      pub constant : Each (publics b.owners b.ids) (constants b.owners b.bits) after
      pub secret : Each (secrets b.owners b.ids) subs after
      pub others : (id : ℕ) → mem id (concat b.ids) ≡ false → find id after ≡ find id m

    no_secrets :
        (os xs : List ℕ) (is : List (List ℕ))
        → length xs ≡ length os
        → length (secrets os xs) ≡ 0
        → secrets os is ≡ []
    no_secrets [] xs is l z = refl
    no_secrets (o ∷ os) [] is l z = absurd (omega arith)
    no_secrets (o ∷ os) (x ∷ xs) [] l z = refl
    no_secrets (o ∷ os) (x ∷ xs) (i ∷ is) l z = elim (Bool-cases (o == 0)) [
      | inl e ↦ rw e (no_secrets os xs is (omega arith) (rw e at z))
      | inr e ↦ absurd (let k : suc (length (secrets os xs)) ≡ 0 = rw e at z in omega arith)
    ]

    Each-none :
        (is : List (List ℕ)) (subs : List SecureWires) (m : Carried)
        → is ≡ []
        → Fits is subs
        → Each is subs m
    Each-none [] [] m e f = tt
    Each-none [] (w ∷ ws) m e f = absurd f
    Each-none (i ∷ is) subs m e f = absurd (let k = ap length e in omega arith)

    -- A batch whose owners are public, the garbler or the evaluator, with as many ids as bits for
    -- each value and no id twice, where the phases of the protocol give bundles of this party's kind
    -- of labels and of as many wires: batch_finish_ returns, each public value's ids gather to its
    -- constants, each secret value's ids to its bundle of the one input phase for all of them, in
    -- order, and no other id's state changes.
    pub batch_finish-Finished :
        (b : InputBatch) (subs : List SecureWires) (m : Carried)
        → Widths b.owners b.bits b.ids
        → All (λ o. is_owner o ≡ true) b.owners
        → Distinct (concat b.ids)
        → ((bits : List Bool)
            → WellFormed is_eval (public_wires bits) × (size (public_wires bits) ≡ length bits))
        → process_inputs (secrets b.owners b.owners) (secrets b.owners b.bits) ≡ some subs
        → Fits (secrets b.owners b.ids) subs
        → Finished b subs m
    unfolding batch_finish
    batch_finish-Finished b subs m l a d f q fits =
        let (n, e, p) = sorted b.owners b.bits b.ids no_secret m l a d f in
        elim (Bool-cases (length (secrets b.owners b.owners) == 0)) [
          | inl z ↦ record {
            after = n;
            returns = rw (e, z) refl;
            constant = p.each;
            secret =
                Each-none (secrets b.owners b.ids) subs n
                  (no_secrets b.owners b.owners b.ids refl ((==_iff _ _).0 z)) fits;
            others = λ id h. p.others id (mem-publics b.owners b.ids id h);
          }
          | inr z ↦
              let (t, r, s) =
                each-Placed (secrets b.owners b.ids) subs n (secrets-Distinct b.owners b.ids d)
                  fits in
              record {
                after = t;
                returns = rw (e, z, q) r;
                constant =
                    Each-congr (publics b.owners b.ids) (constants b.owners b.bits) t n
                      (λ id k. s.others id (publics-secrets b.owners b.ids id d k)) p.each;
                secret = s.each;
                others = λ id h.
                    s.others id (mem-secrets b.owners b.ids id h)
                    ∙ p.others id (mem-publics b.owners b.ids id h);
              }
        ]
