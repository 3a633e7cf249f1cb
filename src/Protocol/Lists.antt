-- ===== src/Protocol/Lists.antt =====
-- Lists by index, and the bits of input wires as emp-ag2pc/backend/protocol.h packs and unpacks
-- them.
use emp_ag2pc.Prelude.{
  All, ℕ, zero, suc, ◌+◌, ◌<◌, ◌≤◌, ◌≡◌, refl, ap, ap₂, ◌∙◌, Bool, true, false, not, ◌^^◌, List, [],
  ◌∷◌, ◌++◌, map, length, get_or, take, drop, replicate, zip_with, ◌==◌, if◌then◌else◌, arith,
  Bool-cases, inl, inr, ◌-◌,
}
use emp_ag2pc.Protocol.Defs.{own_x_packed, fold_peer_x}

module _ {ℓ} {A : Type ℓ} where
  pub list_ext :
      (xs ys : List A) (d : A)
      → length xs ≡ length ys
      → ((i : ℕ) → i < length xs → get_or xs i d ≡ get_or ys i d)
      → xs ≡ ys
  list_ext [] [] d l h = refl
  list_ext [] (y ∷ ys) d l h = absurd (omega arith)
  list_ext (x ∷ xs) [] d l h = absurd (omega arith)
  list_ext (x ∷ xs) (y ∷ ys) d l h =
      ap₂ ◌∷◌ (h 0 (omega arith)) (list_ext xs ys d (omega arith) (λ i k. h (suc i) (omega arith)))

  pub get_or-take : (n i : ℕ) (xs : List A) (d : A) → i < n → get_or (take n xs) i d ≡ get_or xs i d
  get_or-take zero i xs d h = absurd (omega arith)
  get_or-take (suc n) i [] d h = refl
  get_or-take (suc n) zero (x ∷ xs) d h = refl
  get_or-take (suc n) (suc i) (x ∷ xs) d h = get_or-take n i xs d (omega arith)

  pub get_or-drop : (n i : ℕ) (xs : List A) (d : A) → get_or (drop n xs) i d ≡ get_or xs (n + i) d
  get_or-drop zero i xs d = (let e : i ≡ 0 + i = omega arith in ap (λ k. get_or xs k d) e)
  get_or-drop (suc n) i [] d = refl
  get_or-drop (suc n) i (x ∷ xs) d =
      get_or-drop n i xs d
      ∙ (let e : suc (n + i) ≡ suc n + i = omega arith in ap (λ k. get_or (x ∷ xs) k d) e)

  pub length-take : (n : ℕ) (xs : List A) → n ≤ length xs → length (take n xs) ≡ n
  length-take zero xs h = refl
  length-take (suc n) [] h = absurd (omega arith)
  length-take (suc n) (x ∷ xs) h = ap suc (length-take n xs (omega arith))

  pub length-drop : (n : ℕ) (xs : List A) → length (drop n xs) ≡ length xs - n
  length-drop zero xs = omega arith
  length-drop (suc n) [] = omega arith
  length-drop (suc n) (x ∷ xs) = omega (arith, length-drop n xs)

module _ {ℓ κ} {A : Type ℓ} {B : Type κ} (f : A → B) where
  pub length-map : (xs : List A) → length (map f xs) ≡ length xs
  length-map [] = refl
  length-map (x ∷ xs) = ap suc (length-map xs)

  pub get_or-map :
      (xs : List A) (i : ℕ) (d : A) (e : B)
      → i < length xs
      → get_or (map f xs) i e ≡ f (get_or xs i d)
  get_or-map [] i d e h = absurd (omega arith)
  get_or-map (x ∷ xs) zero d e h = refl
  get_or-map (x ∷ xs) (suc i) d e h = get_or-map xs i d e (omega arith)

module _ {ℓ κ υ} {A : Type ℓ} {B : Type κ} {C : Type υ} (f : A → B → C) where
  pub length-zip_with :
      (xs : List A) (ys : List B) → length xs ≡ length ys → length (zip_with f xs ys) ≡ length xs
  length-zip_with [] ys h = refl
  length-zip_with (x ∷ xs) [] h = absurd (omega arith)
  length-zip_with (x ∷ xs) (y ∷ ys) h = ap suc (length-zip_with xs ys (omega arith))

  pub get_or-zip_with :
      (xs : List A) (ys : List B) (i : ℕ) (d : A) (e : B) (c : C)
      → i < length xs
      → length xs ≡ length ys
      → get_or (zip_with f xs ys) i c ≡ f (get_or xs i d) (get_or ys i e)
  get_or-zip_with [] ys i d e c h l = absurd (omega arith)
  get_or-zip_with (x ∷ xs) [] i d e c h l = absurd (omega arith)
  get_or-zip_with (x ∷ xs) (y ∷ ys) zero d e c h l = refl
  get_or-zip_with (x ∷ xs) (y ∷ ys) (suc i) d e c h l =
      get_or-zip_with xs ys i d e c (omega arith) (omega arith)

-- The other party's bits, at the wires that are not a party's own.
abbrev pub others : ℕ → List ℕ → List Bool → List Bool
others p os xs = zip_with (λ o x. if o == p then false else x) os xs

abbrev pub xor_bits : List Bool → List Bool → List Bool
xor_bits = zip_with (λ a b. a ^^ b)

fold-own :
    (p o : ℕ) (os : List ℕ) (b : Bool) (ls packed : List Bool)
    → (o == p) ≡ true
    → fold_peer_x p (o ∷ os) (b ∷ ls) packed ≡ b ∷ fold_peer_x p os ls packed
unfolding fold_peer_x
fold-own p o os b ls [] e = refl
fold-own p o os b ls (x ∷ packed) e = rw (e, fold_peer_x)

fold-other :
    (p o : ℕ) (os : List ℕ) (b x : Bool) (ls packed : List Bool)
    → (o == p) ≡ false
    → fold_peer_x p (o ∷ os) (b ∷ ls) (x ∷ packed) ≡ (b ^^ x) ∷ fold_peer_x p os ls packed
unfolding fold_peer_x
fold-other p o os b x ls packed e = rw (e, fold_peer_x)

-- A party adds to its masks the bits that the other party packed.
pub fold-packed :
    (p q : ℕ) (os : List ℕ) (ls xs : List Bool)
    → length ls ≡ length os
    → length xs ≡ length os
    → All (λ o. (o == p) ≡ not (o == q)) os
    → fold_peer_x p os ls (own_x_packed q os xs) ≡ xor_bits ls (others p os xs)
unfolding own_x_packed
fold-packed p q [] [] xs l m h = unfold fold_peer_x in refl
fold-packed p q [] (b ∷ ls) xs l m h = absurd (omega arith)
fold-packed p q (o ∷ os) [] xs l m h = absurd (omega arith)
fold-packed p q (o ∷ os) (b ∷ ls) [] l m h = absurd (omega arith)
fold-packed p q (o ∷ os) (b ∷ ls) (x ∷ xs) l m (e, h) = elim (Bool-cases (o == q)) [
  | inl f ↦
      let g : (o == p) ≡ false = e ∙ ap not f in
      rw (f, g)
        (fold-other p o os b x ls _ g
          ∙ ap (λ l. (b ^^ x) ∷ l) (fold-packed p q os ls xs (omega arith) (omega arith) h))
  | inr f ↦
      let g : (o == p) ≡ true = e ∙ ap not f in
      rw (f, g)
        (fold-own p o os b ls _ g
          ∙ ap₂ ◌∷◌ (^^-false b) (fold-packed p q os ls xs (omega arith) (omega arith) h))
]
  where
    ^^-false : (b : Bool) → b ≡ b ^^ false
    ^^-false b = ground arith

-- The bits of each owner: a party's own where it is the owner, the other's elsewhere.
abbrev pub chosen : ℕ → List ℕ → List (List Bool) → List (List Bool) → List (List Bool)
chosen p [] bs cs = []
chosen p (o ∷ os) [] cs = []
chosen p (o ∷ os) (b ∷ bs) [] = []
chosen p (o ∷ os) (b ∷ bs) (c ∷ cs) = (if o == p then b else c) ∷ chosen p os bs cs

-- Both parties name as many bits for each owner.
abbrev pub SameShape : List ℕ → List (List Bool) → List (List Bool) → Type 0
SameShape [] [] [] = Unit
SameShape (o ∷ os) (b ∷ bs) (c ∷ cs) = (length b ≡ length c) × SameShape os bs cs
SameShape _ _ _ = ⊥

pub xor_bits-append :
    (xs xs' ys ys' : List Bool)
    → length xs ≡ length ys
    → xor_bits (xs ++ xs') (ys ++ ys') ≡ xor_bits xs ys ++ xor_bits xs' ys'
xor_bits-append [] xs' [] ys' l = refl
xor_bits-append [] xs' (y ∷ ys) ys' l = absurd (omega arith)
xor_bits-append (x ∷ xs) xs' [] ys' l = absurd (omega arith)
xor_bits-append (x ∷ xs) xs' (y ∷ ys) ys' l =
    ap (λ t. (x ^^ y) ∷ t) (xor_bits-append xs xs' ys ys' (omega arith))

pub others-append :
    (p : ℕ) (os os' : List ℕ) (ys ys' : List Bool)
    → length os ≡ length ys
    → others p (os ++ os') (ys ++ ys') ≡ others p os ys ++ others p os' ys'
others-append p [] os' [] ys' l = refl
others-append p [] os' (y ∷ ys) ys' l = absurd (omega arith)
others-append p (o ∷ os) os' [] ys' l = absurd (omega arith)
others-append p (o ∷ os) os' (y ∷ ys) ys' l =
    ap (λ t. (if o == p then false else y) ∷ t) (others-append p os os' ys ys' (omega arith))

-- The wires of one owner, seen by the owner and by the other party.
pub own_block :
    (p o : ℕ) (b ys : List Bool)
    → length b ≡ length ys
    → (o == p) ≡ true
    → xor_bits b (others p (replicate (length b) o) ys) ≡ b
own_block p o [] ys l e = refl
own_block p o (x ∷ b) [] l e = absurd (omega arith)
own_block p o (x ∷ b) (y ∷ ys) l e = ap₂ ◌∷◌ (ground arith) (own_block p o b ys (omega arith) e)

pub other_block :
    (p o : ℕ) (b ys : List Bool)
    → length b ≡ length ys
    → (o == p) ≡ false
    → xor_bits (replicate (length b) false) (others p (replicate (length b) o) ys) ≡ ys
other_block p o [] [] l e = refl
other_block p o [] (y ∷ ys) l e = absurd (omega arith)
other_block p o (x ∷ b) [] l e = absurd (omega arith)
other_block p o (x ∷ b) (y ∷ ys) l e = ap₂ ◌∷◌ (ground arith) (other_block p o b ys (omega arith) e)
