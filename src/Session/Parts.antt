-- ===== src/Session/Parts.antt =====
-- The public and the secret inputs of a batch of emp-ag2pc/session/ag2pc_session.h.
use emp_ag2pc.Prelude.{
  ℕ, ◌≡◌, refl, sym, subst, ◌∙◌, true, false, ◌||◌, List, [], ◌∷◌, ◌++◌, concat, mem, Distinct,
  ◌==◌, ==_iff, Bool-cases, inl, inr, arith, if◌then◌else◌,
}

pub mem-append : (id : ℕ) (xs ys : List ℕ) → mem id (xs ++ ys) ≡ mem id xs || mem id ys
mem-append id [] ys = refl
mem-append id (x ∷ xs) ys = let r = mem-append id xs ys in ground arith

-- What two distinct lists behind one another need and give.
pub append-Distinct :
    (xs ys : List ℕ)
    → Distinct xs
    → Distinct ys
    → ((id : ℕ) → mem id xs ≡ true → mem id ys ≡ false)
    → Distinct (xs ++ ys)
append-Distinct [] ys p q h = q
append-Distinct (x ∷ xs) ys (n, p) q h = (
  mem-append x xs ys ∙ rw n (h x (let e : (x == x) ≡ true = ground arith in rw e refl)),
  append-Distinct xs ys p q (λ id m. h id (let m' : mem id xs ≡ true = m in ground arith)),
)

pub record Split (xs ys : List ℕ) : Type 0 where
  pub left : Distinct xs
  pub right : Distinct ys
  pub disjoint : (id : ℕ) → mem id xs ≡ true → mem id ys ≡ false

pub Distinct-Split : (xs ys : List ℕ) → Distinct (xs ++ ys) → Split xs ys
Distinct-Split [] ys d = record { left = tt; right = d; disjoint = λ id m. cc }
Distinct-Split (x ∷ xs) ys (n, d) =
    let s = Distinct-Split xs ys d in
    let both : mem x xs || mem x ys ≡ false = sym (mem-append x xs ys) ∙ n in
    record {
      left = (let k : mem x xs ≡ false = ground arith in k, s.left);
      right = s.right;
      disjoint = λ id m. elim (Bool-cases (id == x)) [
        | inl e ↦
            let k : mem x ys ≡ false = ground arith in
            subst (λ v. mem v ys ≡ false) (sym ((==_iff id x).0 e)) k
        | inr e ↦ s.disjoint id (rw e at m)
      ];
    }

module _ {A : Type 0} where
  -- The entries of a list whose owner is secret, and those whose owner is public.
  abbrev pub secrets : List ℕ → List A → List A
  secrets [] xs = []
  secrets (o ∷ os) [] = []
  secrets (o ∷ os) (x ∷ xs) = if o == 0 then secrets os xs else x ∷ secrets os xs

  abbrev pub publics : List ℕ → List A → List A
  publics [] xs = []
  publics (o ∷ os) [] = []
  publics (o ∷ os) (x ∷ xs) = if o == 0 then x ∷ publics os xs else publics os xs

pub mem-secrets :
    (os : List ℕ) (is : List (List ℕ)) (id : ℕ)
    → mem id (concat is) ≡ false
    → mem id (concat (secrets os is)) ≡ false
mem-secrets [] is id h = refl
mem-secrets (o ∷ os) [] id h = refl
mem-secrets (o ∷ os) (i ∷ is) id h =
    let b : mem id i || mem id (concat is) ≡ false = sym (mem-append id i (concat is)) ∙ h in
    let r = mem-secrets os is id (ground arith) in
    elim (Bool-cases (o == 0)) [
      | inl e ↦ rw e r
      | inr e ↦ rw e (mem-append id i (concat (secrets os is)) ∙ ground arith)
    ]

pub mem-publics :
    (os : List ℕ) (is : List (List ℕ)) (id : ℕ)
    → mem id (concat is) ≡ false
    → mem id (concat (publics os is)) ≡ false
mem-publics [] is id h = refl
mem-publics (o ∷ os) [] id h = refl
mem-publics (o ∷ os) (i ∷ is) id h =
    let b : mem id i || mem id (concat is) ≡ false = sym (mem-append id i (concat is)) ∙ h in
    let r = mem-publics os is id (ground arith) in
    elim (Bool-cases (o == 0)) [
      | inl e ↦ rw e (mem-append id i (concat (publics os is)) ∙ ground arith)
      | inr e ↦ rw e r
    ]

pub secrets-Distinct :
    (os : List ℕ) (is : List (List ℕ)) → Distinct (concat is) → Distinct (concat (secrets os is))
secrets-Distinct [] is d = tt
secrets-Distinct (o ∷ os) [] d = tt
secrets-Distinct (o ∷ os) (i ∷ is) d =
    let s = Distinct-Split i (concat is) d in
    let r = secrets-Distinct os is s.right in
    elim (Bool-cases (o == 0)) [
      | inl e ↦ rw e r
      | inr e ↦ rw e (append-Distinct i _ s.left r (λ id m. mem-secrets os is id (s.disjoint id m)))
    ]

-- No id of a public value is one of a secret value.
pub publics-secrets :
    (os : List ℕ) (is : List (List ℕ)) (id : ℕ)
    → Distinct (concat is)
    → mem id (concat (publics os is)) ≡ true
    → mem id (concat (secrets os is)) ≡ false
publics-secrets [] is id d m = refl
publics-secrets (o ∷ os) [] id d m = refl
publics-secrets (o ∷ os) (i ∷ is) id d m =
    let s = Distinct-Split i (concat is) d in
    let r = publics-secrets os is id s.right in
    elim (Bool-cases (o == 0)) [
      | inl e ↦
          let n : mem id i || mem id (concat (publics os is)) ≡ true =
            sym (mem-append id i (concat (publics os is))) ∙ rw e at m in
          elim (Bool-cases (mem id i)) [
            | inl k ↦ rw e (mem-secrets os is id (s.disjoint id k))
            | inr k ↦ rw e (r (ground arith))
          ]
      | inr e ↦
          let m' : mem id (concat (publics os is)) ≡ true = rw e at m in
          rw e (mem-append id i (concat (secrets os is)) ∙ rw (r m') (outside s id m'))
    ]
  where
    outside :
        Split i (concat is)
        → (id : ℕ) → mem id (concat (publics os is)) ≡ true
        → mem id i || false ≡ false
    outside s id m = elim (Bool-cases (mem id i)) [
      | inr k ↦ rw k refl
      | inl k ↦ let e = mem-publics os is id (s.disjoint id k) in cc
    ]
