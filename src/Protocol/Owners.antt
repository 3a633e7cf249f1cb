-- ===== src/Protocol/Owners.antt =====
-- The owners of input wires in process_inputs of emp-ag2pc/backend/protocol.h: what the two parties
-- pack and fold in adds up to the owner's bit at each wire.
use emp_ag2pc.Prelude.{
  concat, All, ℕ, zero, suc, ◌≡◌, refl, sym, ap, ap₂, ◌∙◌, Bool, true, false, not, List, [], ◌∷◌,
  ◌++◌, length, length-append, length-replicate, replicate, ◌==◌, if◌then◌else◌, arith, Bool-cases,
  inl, inr,
}
use emp_ag2pc.Protocol.Defs.{own_x_bits, owner_of_wire, total, all_owned, alice, bob}
use emp_ag2pc.Protocol.Lists.{
  others, xor_bits, xor_bits-append, others-append, own_block, other_block, chosen, SameShape,
  length-zip_with,
}

glue :
    (p o n : ℕ) (os : List ℕ) (xs ys zs rs ss ts : List Bool)
    → length xs ≡ n
    → length ys ≡ n
    → xor_bits xs (others p (replicate n o) ys) ≡ zs
    → xor_bits rs (others p os ss) ≡ ts
    → xor_bits (xs ++ rs) (others p (replicate n o ++ os) (ys ++ ss)) ≡ zs ++ ts
glue p o n os xs ys zs rs ss ts lx ly here rest =
    ap (xor_bits (xs ++ rs))
      (others-append p (replicate n o) os ys ss (omega (arith, length-replicate n o)))
    ∙ xor_bits-append xs rs (others p (replicate n o) ys) (others p os ss) (
        omega (
          arith,
          length-zip_with (λ o x. if o == p then false else x) (replicate n o) ys
              (omega (arith, length-replicate n o)),
          length-replicate n o,
        ))
    ∙ ap₂ ◌++◌ here rest

-- The owners `p` and `q` are told apart at each entry.
abbrev pub Parted : ℕ → ℕ → List ℕ → Type 0
Parted p q os = All (λ o. (o == p) ≡ not (o == q)) os

pub own-others :
    (p q : ℕ) (os : List ℕ) (bs cs : List (List Bool))
    → SameShape os bs cs
    → Parted p q os
    → xor_bits (own_x_bits p os bs) (others p (owner_of_wire os bs) (own_x_bits q os cs))
      ≡ concat (chosen p os bs cs)
unfolding own_x_bits owner_of_wire
own-others p q [] [] [] s a = refl
own-others p q [] [] (c ∷ cs) s a = absurd s
own-others p q [] (b ∷ bs) cs s a = absurd s
own-others p q (o ∷ os) [] cs s a = absurd s
own-others p q (o ∷ os) (b ∷ bs) [] s a = absurd s
own-others p q (o ∷ os) (b ∷ bs) (c ∷ cs) (l, s) (e, a) = elim (Bool-cases (o == q)) [
  | inl f ↦
      let g : (o == p) ≡ false = e ∙ ap not f in
      rw (f, g)
        (glue p o (length b) _ (replicate (length b) false) c c _ _ _
          (length-replicate (length b) false) (sym l) (other_block p o b c l g)
          (own-others p q os bs cs s a))
  | inr f ↦
      let g : (o == p) ≡ true = e ∙ ap not f in
      rw (f, g)
        (glue p o (length b) _ b (replicate (length c) false) b _ _ _ refl
          (length-replicate (length c) false ∙ sym l)
          (own_block p o b (replicate (length c) false)
            (l ∙ sym (length-replicate (length c) false)) g)
          (own-others p q os bs cs s a))
]

pub owner_of_wire-same :
    (os : List ℕ) (bs cs : List (List Bool))
    → SameShape os bs cs
    → owner_of_wire os bs ≡ owner_of_wire os cs
unfolding owner_of_wire
owner_of_wire-same [] [] [] s = refl
owner_of_wire-same [] [] (c ∷ cs) s = absurd s
owner_of_wire-same [] (b ∷ bs) cs s = absurd s
owner_of_wire-same (o ∷ os) [] cs s = absurd s
owner_of_wire-same (o ∷ os) (b ∷ bs) [] s = absurd s
owner_of_wire-same (o ∷ os) (b ∷ bs) (c ∷ cs) (l, s) =
    ap₂ ◌++◌ (ap (λ n. replicate n o) l) (owner_of_wire-same os bs cs s)

pub total-same : (os : List ℕ) (bs cs : List (List Bool)) → SameShape os bs cs → total bs ≡ total cs
total-same [] [] [] s = refl
total-same [] [] (c ∷ cs) s = absurd s
total-same [] (b ∷ bs) cs s = absurd s
total-same (o ∷ os) [] cs s = absurd s
total-same (o ∷ os) (b ∷ bs) [] s = absurd s
total-same (o ∷ os) (b ∷ bs) (c ∷ cs) (l, s) = omega (arith, total-same os bs cs s)

pub SameShape-symm :
    (os : List ℕ) (bs cs : List (List Bool)) → SameShape os bs cs → SameShape os cs bs
SameShape-symm [] [] [] s = tt
SameShape-symm [] [] (c ∷ cs) s = absurd s
SameShape-symm [] (b ∷ bs) cs s = absurd s
SameShape-symm (o ∷ os) [] cs s = absurd s
SameShape-symm (o ∷ os) (b ∷ bs) [] s = absurd s
SameShape-symm (o ∷ os) (b ∷ bs) (c ∷ cs) (l, s) = (sym l, SameShape-symm os bs cs s)

pub SameShape-length :
    (os : List ℕ) (bs cs : List (List Bool)) → SameShape os bs cs → length os ≡ length bs
SameShape-length [] [] [] s = refl
SameShape-length [] [] (c ∷ cs) s = absurd s
SameShape-length [] (b ∷ bs) cs s = absurd s
SameShape-length (o ∷ os) [] cs s = absurd s
SameShape-length (o ∷ os) (b ∷ bs) [] s = absurd s
SameShape-length (o ∷ os) (b ∷ bs) (c ∷ cs) (l, s) = ap suc (SameShape-length os bs cs s)

pub length-owner_of_wire :
    (os : List ℕ) (bs : List (List Bool))
    → length os ≡ length bs
    → length (owner_of_wire os bs) ≡ total bs
unfolding owner_of_wire
length-owner_of_wire [] [] l = refl
length-owner_of_wire [] (b ∷ bs) l = absurd (omega arith)
length-owner_of_wire (o ∷ os) [] l = absurd (omega arith)
length-owner_of_wire (o ∷ os) (b ∷ bs) l = omega (
  arith,
  length-append (replicate (length b) o) (owner_of_wire os bs),
  length-replicate (length b) o,
  length-owner_of_wire os bs (omega arith),
)

pub length-own_x_bits :
    (p : ℕ) (os : List ℕ) (bs : List (List Bool))
    → length os ≡ length bs
    → length (own_x_bits p os bs) ≡ total bs
unfolding own_x_bits
length-own_x_bits p [] [] l = refl
length-own_x_bits p [] (b ∷ bs) l = absurd (omega arith)
length-own_x_bits p (o ∷ os) [] l = absurd (omega arith)
length-own_x_bits p (o ∷ os) (b ∷ bs) l = elim (Bool-cases (o == p)) [
  | inl e ↦
      rw e (
        omega
          (arith, length-append b (own_x_bits p os bs), length-own_x_bits p os bs (omega arith)))
  | inr e ↦ rw e (
      omega (
        arith,
        length-append (replicate (length b) false) (own_x_bits p os bs),
        length-replicate (length b) false,
        length-own_x_bits p os bs (omega arith),
      ))
]

All-append {ℓ} :
    {A : Type ℓ} (P : A → Type 0) (xs ys : List A) → All P xs → All P ys → All P (xs ++ ys)
All-append P [] ys h k = k
All-append P (x ∷ xs) ys (p, h) k = (p, All-append P xs ys h k)

All-replicate {ℓ} : {A : Type ℓ} (P : A → Type 0) (n : ℕ) (a : A) → P a → All P (replicate n a)
All-replicate P zero a p = tt
All-replicate P (suc n) a p = (p, All-replicate P n a p)

pub Parted-owner_of_wire :
    (p q : ℕ) (os : List ℕ) (bs : List (List Bool))
    → Parted p q os
    → Parted p q (owner_of_wire os bs)
unfolding owner_of_wire
Parted-owner_of_wire p q [] bs a = tt
Parted-owner_of_wire p q (o ∷ os) [] a = tt
Parted-owner_of_wire p q (o ∷ os) (b ∷ bs) (e, a) =
    All-append _ (replicate (length b) o) (owner_of_wire os bs) (All-replicate _ (length b) o e)
      (Parted-owner_of_wire p q os bs a)

pub all_owned-Parted :
    (os : List ℕ) → all_owned os ≡ true → Parted alice bob os × Parted bob alice os
all_owned-Parted [] h = (tt, tt)
all_owned-Parted (o ∷ os) h =
    let (a, b) = all_owned-Parted os (ground arith) in ((ground arith, a), (ground arith, b))

pub chosen_symm :
    (p q : ℕ) (os : List ℕ) (bs cs : List (List Bool))
    → SameShape os bs cs
    → Parted p q os
    → chosen q os cs bs ≡ chosen p os bs cs
chosen_symm p q [] [] [] s a = refl
chosen_symm p q [] [] (c ∷ cs) s a = absurd s
chosen_symm p q [] (b ∷ bs) cs s a = absurd s
chosen_symm p q (o ∷ os) [] cs s a = absurd s
chosen_symm p q (o ∷ os) (b ∷ bs) [] s a = absurd s
chosen_symm p q (o ∷ os) (b ∷ bs) (c ∷ cs) (l, s) (e, a) =
    ap₂ ◌∷◌ (pick (o == p) (o == q) e) (chosen_symm p q os bs cs s a)
  where
    pick : (x y : Bool) → x ≡ not y → (if y then c else b) ≡ (if x then b else c)
    pick true true e = cc
    pick true false e = refl
    pick false true e = refl
    pick false false e = cc
