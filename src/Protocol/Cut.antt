-- ===== src/Protocol/Cut.antt =====
-- The bundle of each owner, cut out of the combined bundle: the end of process_inputs of
-- emp-ag2pc/backend/protocol.h.
use emp_ag2pc.Prelude.{
  concat, ℕ, zero, suc, ◌+◌, ◌-◌, ◌<◌, ◌≡◌, refl, sym, ap, ap₂, subst, ◌∙◌, Bool, List, [], ◌∷◌,
  ◌++◌, length, length-append, get_or, take, drop, map, arith, ◌==◌, Bool-cases, inl, inr,
}
use mathlib.Core.List.{append_assoc}
use emp_ag2pc.Block.{BlockOps, Block}
use emp_ag2pc.Wires.{SecureWires, slice, range}
use emp_ag2pc.Protocol.Defs.{cut, no_wires}
use emp_ag2pc.Protocol.Lists.{chosen, SameShape}
use emp_ag2pc.Protocol.Wire.{Holds, Holds-slice}

drop-append : (xs ys : List Bool) → drop (length xs) (xs ++ ys) ≡ ys
drop-append [] ys = refl
drop-append (x ∷ xs) ys = drop-append xs ys

take-append : (xs ys : List Bool) → take (length xs) (xs ++ ys) ≡ xs
take-append [] ys = refl
take-append (x ∷ xs) ys = ap (λ t. x ∷ t) (take-append xs ys)

range-middle :
    (pre c rest : List Bool) → range (length pre) (length pre + length c) (pre ++ (c ++ rest)) ≡ c
range-middle pre c rest =
    let n : (length pre + length c) - length pre ≡ length c = omega arith in
    ap₂ take n (drop-append pre (c ++ rest)) ∙ take-append c rest

-- Only the lengths matter to where a bundle is cut.

head_eq : {x y : ℕ} {xs ys : List ℕ} → x ∷ xs ≡ y ∷ ys → (x ≡ y) × (xs ≡ ys)
head_eq e = (ap (λ l. get_or l 0 0) e, ap (drop 1) e)

module _ ⦃B : BlockOps⦄ where
  cut-SameLengths :
      (off : ℕ) (bs cs : List (List Bool)) (sw : SecureWires)
      → map length bs ≡ map length cs
      → cut off bs sw ≡ cut off cs sw
  unfolding cut
  cut-SameLengths off [] [] sw e = refl
  cut-SameLengths off [] (c ∷ cs) sw e = absurd (let h = ap length e in omega (arith, h))
  cut-SameLengths off (b ∷ bs) [] sw e = absurd (let h = ap length e in omega (arith, h))
  cut-SameLengths off (b ∷ bs) (c ∷ cs) sw e =
      let (l, m) = head_eq e in
      ap (λ n. slice off (off + n) sw ∷ cut (off + n) bs sw) l
      ∙ ap (λ t. slice off (off + length c) sw ∷ t) (cut-SameLengths (off + length c) bs cs sw m)

  cut-Holds :
      (delta_g delta_e : Block) (g e : SecureWires) (pre : List Bool) (vss : List (List Bool))
      (k : ℕ)
      → Holds delta_g delta_e g e (pre ++ concat vss)
      → k < length vss
      → Holds delta_g delta_e
          (get_or (cut (length pre) vss g) k no_wires)
          (get_or (cut (length pre) vss e) k no_wires)
          (get_or vss k [])
  unfolding cut
  cut-Holds delta_g delta_e g e pre [] k h l = absurd (omega arith)
  cut-Holds delta_g delta_e g e pre (v ∷ vss) zero h l =
      subst
        (Holds delta_g delta_e (slice (length pre) (length pre + length v) g)
          (slice (length pre) (length pre + length v) e))
        (range-middle pre v (concat vss))
        (Holds-slice (length pre) (length pre + length v) (omega arith)
          (omega (arith, length-append pre (v ++ concat vss), length-append v (concat vss))) h)
  cut-Holds delta_g delta_e g e pre (v ∷ vss) (suc k) h l =
      subst
        (λ n.
          Holds delta_g delta_e (get_or (cut n vss g) k no_wires) (get_or (cut n vss e) k no_wires)
            (get_or vss k []))
        (length-append pre v)
        (cut-Holds delta_g delta_e g e (pre ++ v) vss k
          (subst (Holds delta_g delta_e g e) (sym (append_assoc pre v (concat vss))) h)
          (omega arith))

pub lengths-chosen :
    (p : ℕ) (os : List ℕ) (bs cs : List (List Bool))
    → SameShape os bs cs
    → (map length bs ≡ map length (chosen p os bs cs))
      × (map length cs ≡ map length (chosen p os bs cs))
lengths-chosen p [] [] [] s = (refl, refl)
lengths-chosen p [] [] (c ∷ cs) s = absurd s
lengths-chosen p [] (b ∷ bs) cs s = absurd s
lengths-chosen p (o ∷ os) [] cs s = absurd s
lengths-chosen p (o ∷ os) (b ∷ bs) [] s = absurd s
lengths-chosen p (o ∷ os) (b ∷ bs) (c ∷ cs) (l, s) =
    let (x, y) = lengths-chosen p os bs cs s in
    elim (Bool-cases (o == p)) [
      | inl e ↦ rw e (ap (λ t. length b ∷ t) x, ap₂ ◌∷◌ (sym l) y)
      | inr e ↦ rw e (ap₂ ◌∷◌ l x, ap (λ t. length c ∷ t) y)
    ]

module _ ⦃B : BlockOps⦄ where
  -- Every owner's bundles hold the owner's bits.
  pub cut-chosen :
      (delta_g delta_e : Block) (g e : SecureWires) (os : List ℕ) (bg be : List (List Bool)) (k : ℕ)
      → SameShape os bg be
      → Holds delta_g delta_e g e (concat (chosen 1 os bg be))
      → k < length bg
      → Holds delta_g delta_e
          (get_or (cut 0 bg g) k no_wires)
          (get_or (cut 0 be e) k no_wires)
          (get_or (chosen 1 os bg be) k [])
  cut-chosen delta_g delta_e g e os bg be k s h l =
      let (x, y) = lengths-chosen 1 os bg be s in
      let n : length bg ≡ length (chosen 1 os bg be) = lengths bg _ x in
      rw (cut-SameLengths 0 bg _ g x, cut-SameLengths 0 be _ e y)
        (cut-Holds delta_g delta_e g e [] (chosen 1 os bg be) k h (omega arith))
    where
      length-lengths : (xs : List (List Bool)) → length (map length xs) ≡ length xs
      length-lengths [] = refl
      length-lengths (x ∷ xs) = ap suc (length-lengths xs)

      lengths : (xs ys : List (List Bool)) → map length xs ≡ map length ys → length xs ≡ length ys
      lengths xs ys e = sym (length-lengths xs) ∙ ap length e ∙ length-lengths ys
