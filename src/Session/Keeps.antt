-- ===== src/Session/Keeps.antt =====
-- What stays carried after a flush or a checkpoint of emp-ag2pc/session/ag2pc_session.h.
use emp_ag2pc.Prelude.{
  ℕ, ◌+◌, ◌≡◌, refl, sym, ap, ◌∙◌, subst, Bool, true, false, ◌||◌, ◌&&◌, List, [], ◌∷◌, some, mem,
  ◌==◌, ==_iff, if◌then◌else◌, Bool-cases, inl, inr, arith,
}
use emp_ag2pc.Block.{BlockOps}
use emp_ag2pc.Wires.{SecureWires}
use emp_ag2pc.Circuit.{Gate}
use emp_ag2pc.Session.Recorder.{is_pending, drop_chunk}
use emp_ag2pc.Session.Carried.{
  CarriedState, Carried, find, find_or_fresh, has_state, is_carried, carry_load, load_all, prune,
}
use emp_ag2pc.Session.State.{Session, none_stale, any_pending}
use emp_ag2pc.Flush.Plan.{is_local, outputs_of}

pub outputs_of-mem :
    (gates : List Gate) (ids emitted : List ℕ) (id : ℕ)
    → mem id ids ≡ true
    → is_local gates id ≡ true
    → mem id emitted ≡ false
    → mem id (outputs_of gates ids emitted) ≡ true
unfolding outputs_of
outputs_of-mem gates [] emitted id h l e = cc
outputs_of-mem gates (k ∷ ids) emitted id h l e = elim (Bool-cases (id == k)) [
  | inl s ↦
      let q : id ≡ k = (==_iff id k).0 s in
      let l' : is_local gates k ≡ true = subst (λ x. is_local gates x ≡ true) q l in
      let e' : mem k emitted ≡ false = subst (λ x. mem x emitted ≡ false) q e in rw (l', e', s) refl
  | inr d ↦
      let h' : mem id ids ≡ true = ground arith in
      elim (Bool-cases (is_local gates k)) [
        | inr f ↦ rw f (outputs_of-mem gates ids emitted id h' l e)
        | inl f ↦ elim (Bool-cases (mem k emitted)) [
          | inl g ↦ rw (f, g) (outputs_of-mem gates ids emitted id h' l e)
          | inr g ↦ rw (f, g, d) (outputs_of-mem gates ids (k ∷ emitted) id h' l (rw d e))
        ]
      ]
]

module _ ⦃B : BlockOps⦄ where
  is_carried-cons :
      (k id : ℕ) (c : CarriedState) (m : Carried)
      → is_carried ((k, c) ∷ m) id ≡ (k == id) || is_carried m id
  is_carried-cons k id c m = go (k == id)
    where
      go : (b : Bool) → has_state (if b then some c else find id m) ≡ b || is_carried m id
      go true = refl
      go false = refl

  pub is_carried-load_all :
      (is_eval : Bool) (s : SecureWires) (i : ℕ) (ids : List ℕ) (m : Carried) (id : ℕ)
      → is_carried (load_all is_eval s i ids m) id ≡ mem id ids || is_carried m id
  unfolding load_all
  is_carried-load_all is_eval s i [] m id = refl
  is_carried-load_all is_eval s i (k ∷ ids) m id =
      is_carried-load_all is_eval s (i + 1) ids
        ((k, carry_load is_eval s i (find_or_fresh k m)) ∷ m) id
      ∙ ap (λ b. mem id ids || b)
          (is_carried-cons k id (carry_load is_eval s i (find_or_fresh k m)) m)
      ∙ swap (mem id ids) (k == id) (id == k) (is_carried m id) (ground arith)
    where
      swap : (a b b' c : Bool) → b ≡ b' → a || (b || c) ≡ (b' || a) || c
      swap a b b' c e = ground arith

  pub is_carried-prune :
      (keeps : ℕ → Bool) (m : Carried) (id : ℕ)
      → is_carried (prune keeps m) id ≡ keeps id && is_carried m id
  unfolding prune
  is_carried-prune keeps [] id = ground arith
  is_carried-prune keeps ((k, c) ∷ m) id = elim (Bool-cases (keeps k)) [
    | inl e ↦ rw e (
        is_carried-cons k id c (prune keeps m)
        ∙ ap (λ b. (k == id) || b) (is_carried-prune keeps m id)
        ∙ kept (k == id) (keeps id) (is_carried m id) (λ q. sym (ap keeps ((==_iff k id).0 q)) ∙ e)
        ∙ ap (λ b. keeps id && b) (sym (is_carried-cons k id c m)))
    | inr e ↦ rw e (
        is_carried-prune keeps m id
        ∙ gone (k == id) (keeps id) (is_carried m id) (λ q. sym (ap keeps ((==_iff k id).0 q)) ∙ e)
        ∙ ap (λ b. keeps id && b) (sym (is_carried-cons k id c m)))
  ]
    where
      kept : (a b x : Bool) → (a ≡ true → b ≡ true) → a || (b && x) ≡ b && (a || x)
      kept true b x h = rw (h refl) refl
      kept false b x h = refl

      gone : (a b x : Bool) → (a ≡ true → b ≡ false) → b && x ≡ b && (a || x)
      gone true b x h = rw (h refl) refl
      gone false b x h = refl

  -- What a flush leaves.
  pub record Flushed (keep_ids : List ℕ) (s t : Session) : Type 0 where
    pub chunk_dropped : t.ctx ≡ drop_chunk s.ctx
    pub kept : (id : ℕ) → mem id keep_ids ≡ true → is_carried t.carried id ≡ true
    pub still : (id : ℕ) → is_carried s.carried id ≡ true → is_carried t.carried id ≡ true

  pub stale-free :
      (ids : List ℕ) (s : Session) (id : ℕ)
      → none_stale ids s ≡ true
      → mem id ids ≡ true
      → is_pending id s.ctx || is_carried s.carried id ≡ true
  stale-free [] s id n h = cc
  stale-free (k ∷ ids) s id n h = elim (Bool-cases (id == k)) [
    | inl e ↦
        subst (λ x. is_pending x s.ctx || is_carried s.carried x ≡ true) (sym ((==_iff id k).0 e))
          (first _ _ n)
    | inr e ↦ stale-free ids s id (second _ _ n) (other (id == k) (mem id ids) e h)
  ]
    where
      first : (a b : Bool) → a && b ≡ true → a ≡ true
      first a b h = ground arith

      second : (a b : Bool) → a && b ≡ true → b ≡ true
      second a b h = ground arith

      other : (a b : Bool) → a ≡ false → a || b ≡ true → b ≡ true
      other a b e h = ground arith

  pub not-pending :
      (ids : List ℕ) (s : Session) (id : ℕ)
      → any_pending ids s ≡ false
      → mem id ids ≡ true
      → is_pending id s.ctx ≡ false
  not-pending [] s id n h = cc
  not-pending (k ∷ ids) s id n h = elim (Bool-cases (id == k)) [
    | inl e ↦ subst (λ x. is_pending x s.ctx ≡ false) (sym ((==_iff id k).0 e)) (first _ _ n)
    | inr e ↦ not-pending ids s id (second _ _ n) (other (id == k) (mem id ids) e h)
  ]
    where
      first : (a b : Bool) → a || b ≡ false → a ≡ false
      first a b h = ground arith

      second : (a b : Bool) → a || b ≡ false → b ≡ false
      second a b h = ground arith

      other : (a b : Bool) → a ≡ false → a || b ≡ true → b ≡ true
      other a b e h = ground arith
