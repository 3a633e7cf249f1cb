-- ===== src/Session/Runs.antt =====
-- The runs on carried values of emp-ag2pc/session/ag2pc_session.h.
use emp_ag2pc.Prelude.{
  ℕ, ◌+◌, ◌≤◌, ◌≡◌, refl, sym, ap, ◌∙◌, Bool, true, false, ◌&&◌, List, [], ◌∷◌, ◌++◌, concat,
  Option, none, some, length, mem, ◌==◌, ==_iff, ==_refl, if◌then◌else◌, ◌>>=◌, ◌>>◌, guard,
  >>=-some, Bool-cases, inl, inr, arith,
}
use mathlib.Core.List.{append_assoc, append-nil}
use emp_ag2pc.Block.{BlockOps}
use emp_ag2pc.Wires.{SecureWires, size}
use emp_ag2pc.Circuit.{BooleanProgram}
use emp_ag2pc.Pass.Source.{Source}
use emp_ag2pc.Session.Recorder.{max_id}
use emp_ag2pc.Session.Carried.{
  CarriedState, Carried, find, has_state, is_carried, carry_store, gather_carried,
}
use emp_ag2pc.Session.State.{Session}
use emp_ag2pc.Session.Arguments.{
  is_empty, empty_bundle, append_bundle, all_carried, append_arg, append_args, run_circuit,
  run_body, run_artifact,
}
use emp_ag2pc.Session.Roundtrip.{WellFormed}
use emp_ag2pc.Session.Fresh.{ids_from, Materialized, materialize-Materialized}

abbrev or_append : {A : Type 0} → List A → List A → List A
or_append xs ys = if is_empty ys then xs else xs ++ ys

or_append-append : {A : Type 0} (xs ys : List A) → or_append xs ys ≡ xs ++ ys
or_append-append xs [] = sym (append-nil xs)
or_append-append xs (y ∷ ys) = refl

or_append_assoc :
    {A : Type 0} (xs ys zs : List A)
    → or_append (or_append xs ys) zs ≡ or_append xs (or_append ys zs)
or_append_assoc xs ys zs =
    or_append-append (or_append xs ys) zs
    ∙ ap (λ l. l ++ zs) (or_append-append xs ys)
    ∙ append_assoc xs ys zs
    ∙ sym (or_append-append xs (or_append ys zs) ∙ ap (λ l. xs ++ l) (or_append-append ys zs))

cons-or_append : {A : Type 0} (x : A) (xs ys : List A) → x ∷ or_append xs ys ≡ or_append (x ∷ xs) ys
cons-or_append x xs ys =
    ap (λ l. x ∷ l) (or_append-append xs ys) ∙ sym (or_append-append (x ∷ xs) ys)

module _ ⦃B : BlockOps⦄ where
  bundle_eq :
      (a b : SecureWires)
      → a.lambda ≡ b.lambda
      → a.wire_bundle ≡ b.wire_bundle
      → a.label0 ≡ b.label0
      → a.eval_label ≡ b.eval_label
      → a ≡ b
  bundle_eq a b p q r s i = record {
    lambda = p i;
    wire_bundle = q i;
    label0 = r i;
    eval_label = s i;
  }

  append_bundle-empty : (b : SecureWires) → append_bundle b empty_bundle ≡ b
  unfolding append_bundle
  append_bundle-empty b = bundle_eq _ _ (append-nil b.lambda) (append-nil b.wire_bundle) refl refl

  empty-append_bundle : (b : SecureWires) → append_bundle empty_bundle b ≡ b
  unfolding append_bundle
  empty-append_bundle b =
      bundle_eq _ _ refl refl (or_append-append [] b.label0) (or_append-append [] b.eval_label)

  append_bundle_assoc :
      (a b c : SecureWires)
      → append_bundle (append_bundle a b) c ≡ append_bundle a (append_bundle b c)
  unfolding append_bundle
  append_bundle_assoc a b c =
      bundle_eq _ _ (append_assoc a.lambda b.lambda c.lambda)
        (append_assoc a.wire_bundle b.wire_bundle c.wire_bundle)
        (or_append_assoc a.label0 b.label0 c.label0)
        (or_append_assoc a.eval_label b.eval_label c.eval_label)

  store-append_bundle :
      (is_eval : Bool) (c : CarriedState) (a b : SecureWires)
      → carry_store is_eval c (append_bundle a b) ≡ append_bundle (carry_store is_eval c a) b
  unfolding append_bundle
  store-append_bundle true c a b =
      bundle_eq _ _ refl refl refl (cons-or_append c.evlbl a.eval_label b.eval_label)
  store-append_bundle false c a b =
      bundle_eq _ _ refl refl (cons-or_append c.label0 a.label0 b.label0) refl

  module _ (is_eval : Bool) (m : Carried) where
    gather-append :
        (xs ys : List ℕ)
        → gather_carried is_eval (xs ++ ys) m ≡ (do
          a ← gather_carried is_eval xs m
          b ← gather_carried is_eval ys m
          some (append_bundle a b))
    unfolding gather_carried
    gather-append [] ys = onto_empty (gather_carried is_eval ys m)
      where
        onto_empty : (o : Option SecureWires) → o ≡ (o >>= λ b. some (append_bundle empty_bundle b))
        onto_empty none = refl
        onto_empty (some b) = ap some (sym (empty-append_bundle b))
    gather-append (id ∷ xs) ys =
        rw (gather-append xs ys)
          (stored (find id m) (gather_carried is_eval xs m) (gather_carried is_eval ys m))
      where
        stored :
            (c : Option CarriedState) (a b : Option SecureWires)
            → (do
              c' ← c
              s ← (do a' ← a; b' ← b; some (append_bundle a' b'))
              some (carry_store is_eval c' s))
              ≡ (do
                a' ← (do c' ← c; s ← a; some (carry_store is_eval c' s))
                b' ← b
                some (append_bundle a' b'))
        stored none a b = refl
        stored (some c) none b = refl
        stored (some c) (some a) none = refl
        stored (some c) (some a) (some b) = ap some (store-append_bundle is_eval c a b)

    -- Gathering fails unless every id is carried.
    guarded :
        {A : Type 0} (ids : List ℕ) (k : SecureWires → Option A)
        → (do guard (all_carried m ids); s ← gather_carried is_eval ids m; k s)
          ≡ (gather_carried is_eval ids m >>= k)
    unfolding gather_carried
    guarded ids k = elim (Bool-cases (all_carried m ids)) [
      | inl e ↦ rw e refl
      | inr e ↦ rw (e, missing ids e) refl
    ]
      where
        missing : (ids : List ℕ) → all_carried m ids ≡ false → gather_carried is_eval ids m ≡ none
        missing [] e = cc
        missing (id ∷ ids) e = absent (find id m) (λ f. missing ids (rest _ _ e f))
          where
            rest : (a b : Bool) → a && b ≡ false → a ≡ true → b ≡ false
            rest a b e f = ground arith

            absent :
                (c : Option CarriedState)
                → (has_state c ≡ true → gather_carried is_eval ids m ≡ none)
                → (do c' ← c; s ← gather_carried is_eval ids m; some (carry_store is_eval c' s))
                  ≡ none
            absent none h = refl
            absent (some c) h = rw (h refl) refl

    appended :
        (bundle : SecureWires) (args : List (List ℕ))
        → append_args is_eval m bundle args
          ≡ (gather_carried is_eval (concat args) m >>= λ g. some (append_bundle bundle g))
    unfolding append_args append_arg gather_carried
    appended bundle [] = ap some (sym (append_bundle-empty bundle))
    appended bundle (ids ∷ args) =
        ap (λ o. o >>= λ b. append_args is_eval m b args)
          (guarded ids (λ s. some (append_bundle bundle s)))
        ∙ both (gather_carried is_eval ids m) (λ a. appended (append_bundle bundle a) args)
        ∙ sym (ap (λ o. o >>= λ g. some (append_bundle bundle g)) (gather-append ids (concat args)))
      where
        both :
            (a : Option SecureWires)
            → ((x : SecureWires)
                → append_args is_eval m (append_bundle bundle x) args ≡ (
                    gather_carried is_eval (concat args) m >>= λ g.
                    some (append_bundle (append_bundle bundle x) g)))
            → ((a >>= λ s. some (append_bundle bundle s)) >>= λ b. append_args is_eval m b args) ≡ (
                (do x ← a; b ← gather_carried is_eval (concat args) m; some (append_bundle x b))
                >>= λ g. some (append_bundle bundle g))
        both none h = refl
        both (some a) h = h a ∙ last (gather_carried is_eval (concat args) m)
          where
            last :
                (o : Option SecureWires)
                → (o >>= λ g. some (append_bundle (append_bundle bundle a) g))
                  ≡ ((do b ← o; some (append_bundle a b)) >>= λ g. some (append_bundle bundle g))
            last none = refl
            last (some g) = ap some (append_bundle_assoc bundle a g)

    -- The bundle that the arguments of a run are appended to, one after the other, is what gathering
    -- all their ids at once gives.
    pub append_args-gather_carried :
        (args : List (List ℕ))
        → append_args is_eval m empty_bundle args ≡ gather_carried is_eval (concat args) m
    append_args-gather_carried args =
        appended empty_bundle args ∙ from_empty (gather_carried is_eval (concat args) m)
      where
        from_empty : (o : Option SecureWires) → (o >>= λ g. some (append_bundle empty_bundle g)) ≡ o
        from_empty none = refl
        from_empty (some g) = ap some (empty-append_bundle g)

    missing :
        (ids : List ℕ) (id : ℕ)
        → mem id ids ≡ true
        → is_carried m id ≡ false
        → all_carried m ids ≡ false
    missing [] id h e = cc
    missing (k ∷ ids) id h e = elim (Bool-cases (id == k)) [
      | inl q ↦ rw (sym (ap (is_carried m) ((==_iff id k).0 q)) ∙ e) refl
      | inr q ↦ let r = missing ids id (rw q at h) e in ground arith
    ]

  -- An argument with an id that is not carried stops every kind of run, whatever the engine does and
  -- the other arguments are.
  pub unflushed_stops :
      (is_eval : Bool) (run_program : BooleanProgram → SecureWires → Option SecureWires)
      (run_source : SecureWires → Source → Option SecureWires) (prog : BooleanProgram)
      (body : Source) (width : ℕ) (args : List (List ℕ)) (s : Session) (id : ℕ)
      → mem id (concat args) ≡ true
      → is_carried s.carried id ≡ false
      → (run_circuit is_eval run_program prog args s ≡ none)
        × (run_body is_eval run_source body args s ≡ none)
        × (run_artifact is_eval run_program prog width args s ≡ none)
  unfolding run_circuit run_body run_artifact
  unflushed_stops is_eval run_program run_source prog body width args s id h e =
      let none_left : append_args is_eval s.carried empty_bundle args ≡ none =
        append_args-gather_carried is_eval s.carried args
        ∙ sym (guarded is_eval s.carried (concat args) some ∙ >>=-some _)
        ∙ rw (missing is_eval s.carried (concat args) id h e) refl in
      (rw none_left refl, rw none_left refl, rw none_left refl)

  -- A raw program on carried arguments, of as many wires as it has inputs, where the engine gives a
  -- bundle of this party's kind of labels and enough ids are left: run_artifact returns the next ids,
  -- which gather to that bundle, and no older id's state changes.
  pub run_artifact-Materialized :
      (is_eval : Bool) (run_program : BooleanProgram → SecureWires → Option SecureWires)
      (prog : BooleanProgram) (args : List (List ℕ)) (s : Session) (ins out : SecureWires)
      → gather_carried is_eval (concat args) s.carried ≡ some ins
      → size ins ≡ prog.num_inputs
      → run_program prog ins ≡ some out
      → WellFormed is_eval out
      → s.ctx.next_id + size out ≤ max_id
      → (m : Materialized is_eval out s) × (run_artifact is_eval run_program prog
            (length prog.outputs)
            args
            s
          ≡ some (ids_from s.ctx.next_id (size out), m.after))
  unfolding run_artifact
  run_artifact-Materialized is_eval run_program prog args s ins out g n r w l =
      let m = materialize-Materialized is_eval out s w l in
      (
        m,
        rw
            (
              append_args-gather_carried is_eval s.carried args ∙ g,
              (==_iff _ _).1 n,
              ==_refl (length prog.outputs),
              r,
            )
            m.returns,
      )
