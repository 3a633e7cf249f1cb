-- ===== src/Protocol/Wire.antt =====
-- What a wire of emp-ag2pc/backend/secure_wires.h stands for, seen from both parties.
use emp_ag2pc.Prelude.{
  ℕ, zero, suc, ◌+◌, ◌-◌, ◌<◌, ◌≤◌, ◌≡◌, refl, sym, ap, ap₂, ◌∙◌, Bool, true, false, ◌^^◌, List, [],
  ◌∷◌, length, get_or, take, drop, ◌==◌, ◌&&◌, arith,
}
use emp_ag2pc.Block.{BlockOps, Block, zero_block, ◌⊕◌, mask}
use emp_ag2pc.Wires.{AShareBundle, zero_bundle, SecureWires, range, range_if, slice}
use emp_ag2pc.HalfGate.Defs.{IsAuth, shared}
use emp_ag2pc.Protocol.Defs.{
  Hashing, macs, share_bits, expected_macs, open_shares, accepts, check_secure_wires,
}
use emp_ag2pc.Protocol.Lists.{get_or-take, get_or-drop, length-take, length-drop}

drop-nil : {A : Type 0} (n : ℕ) → drop {A = A} n [] ≡ []
drop-nil zero = refl
drop-nil (suc n) = refl

take-nil : {A : Type 0} (n : ℕ) → take {A = A} n [] ≡ []
take-nil zero = refl
take-nil (suc n) = refl

module _ {A : Type 0} (lo hi : ℕ) where
  length-range : (xs : List A) → lo ≤ hi → hi ≤ length xs → length (range lo hi xs) ≡ hi - lo
  length-range xs l h = length-take (hi - lo) (drop lo xs) (omega (arith, length-drop lo xs))

  get_or-range :
      (xs : List A) (i : ℕ) (d : A)
      → i < hi - lo
      → get_or (range lo hi xs) i d ≡ get_or xs (lo + i) d
  get_or-range xs i d h = get_or-take (hi - lo) i (drop lo xs) d h ∙ get_or-drop lo i xs d

  range_if-eq : (xs : List A) → range_if lo hi xs ≡ range lo hi xs
  range_if-eq [] = sym (ap (take (hi - lo)) (drop-nil lo) ∙ take-nil (hi - lo))
  range_if-eq (x ∷ xs) = refl

module _ ⦃B : BlockOps⦄ where
  -- Both parties' state of a wire with value `v`: the shares of the mask are authenticated both
  -- ways, both know the masked value, and the evaluator holds the garbler's label for it.
  pub record Wire (delta_g delta_e : Block) (g e : AShareBundle) (lam_g lam_e : Bool)
      (zero_label label : Block) (v : Bool) : Type 0 where
    pub auth_g : IsAuth delta_e g e
    pub auth_e : IsAuth delta_g e g
    pub masked : lam_g ≡ v ^^ shared g e
    pub agreed : lam_e ≡ lam_g
    pub labelled : label ≡ zero_label ⊕ mask lam_e delta_g

  -- Two bundles, the garbler's and the evaluator's, hold the values `vs`.
  pub record Holds (delta_g delta_e : Block) (g e : SecureWires) (vs : List Bool) : Type 0 where
    pub lambdas_g : length g.lambda ≡ length vs
    pub lambdas_e : length e.lambda ≡ length vs
    pub bundles_g : length g.wire_bundle ≡ length vs
    pub bundles_e : length e.wire_bundle ≡ length vs
    pub labels_g : length g.label0 ≡ length vs
    pub labels_e : length e.eval_label ≡ length vs
    pub at :
        (i : ℕ)
        → i < length vs
        → Wire delta_g delta_e
            (get_or g.wire_bundle i zero_bundle)
            (get_or e.wire_bundle i zero_bundle)
            (get_or g.lambda i false)
            (get_or e.lambda i false)
            (get_or g.label0 i zero_block)
            (get_or e.eval_label i zero_block)
            (get_or vs i false)

  pub Holds-check :
      {delta_g delta_e : Block} {g e : SecureWires} {vs : List Bool}
      → Holds delta_g delta_e g e vs
      → (check_secure_wires g 1 ≡ true) × (check_secure_wires e 2 ≡ true)
  unfolding check_secure_wires
  Holds-check h = (
    sizes_equal _ _ _ (h.bundles_g ∙ sym h.lambdas_g) (h.labels_g ∙ sym h.lambdas_g),
    sizes_equal _ _ _ (h.bundles_e ∙ sym h.lambdas_e) (h.labels_e ∙ sym h.lambdas_e),
  )
    where
      sizes_equal : (a b c : ℕ) → a ≡ b → c ≡ b → (a == b && c == b) ≡ true
      sizes_equal a b c p q = ground arith

  -- The bits of one party with MACs that the other's keys confirm.
  pub expected-share_bits :
      (delta : Block) (hs cs : List AShareBundle)
      → length hs ≡ length cs
      → ((i : ℕ) → i < length hs → IsAuth delta (get_or hs i zero_bundle) (get_or cs i zero_bundle))
      → expected_macs delta cs (share_bits hs) ≡ macs hs
  expected-share_bits delta [] [] l a = refl
  expected-share_bits delta [] (c ∷ cs) l a = absurd (omega arith)
  expected-share_bits delta (h ∷ hs) [] l a = absurd (omega arith)
  expected-share_bits delta (h ∷ hs) (c ∷ cs) l a =
      ap₂ ◌∷◌ (sym (a 0 (omega arith)))
        (expected-share_bits delta hs cs (omega arith) (λ i k. a (suc i) (omega arith)))

  -- An honest opening is accepted.
  pub accepts-open_shares :
      (H : Hashing Block) (delta : Block) (hs cs : List AShareBundle)
      → length hs ≡ length cs
      → ((i : ℕ) → i < length hs → IsAuth delta (get_or hs i zero_bundle) (get_or cs i zero_bundle))
      → accepts H delta cs (open_shares H hs) ≡ true
  unfolding accepts open_shares
  accepts-open_shares H delta hs cs l a =
      (H.same_iff _ _).1 (ap H.hash_once (expected-share_bits delta hs cs l a))

  -- A slice of bundles that hold values holds the slice of the values.
  pub Holds-slice :
      {delta_g delta_e : Block} {g e : SecureWires} {vs : List Bool} (lo hi : ℕ)
      → lo ≤ hi
      → hi ≤ length vs
      → Holds delta_g delta_e g e vs
      → Holds delta_g delta_e (slice lo hi g) (slice lo hi e) (range lo hi vs)
  unfolding slice
  Holds-slice {delta_g} {delta_e} {g} {e} {vs} lo hi l h holds =
      rw
        (
          range_if-eq lo hi g.wire_bundle,
          range_if-eq lo hi e.wire_bundle,
          range_if-eq lo hi g.label0,
          range_if-eq lo hi e.eval_label,
        )
        (record {
          lambdas_g = sized g.lambda holds.lambdas_g;
          lambdas_e = sized e.lambda holds.lambdas_e;
          bundles_g = sized g.wire_bundle holds.bundles_g;
          bundles_e = sized e.wire_bundle holds.bundles_e;
          labels_g = sized g.label0 holds.labels_g;
          labels_e = sized e.eval_label holds.labels_e;
          at = λ i k.
              let n : i < hi - lo = omega (arith, length-range lo hi vs l h) in
              rw
                (
                  get_or-range lo hi g.wire_bundle i zero_bundle n,
                  get_or-range lo hi e.wire_bundle i zero_bundle n,
                  get_or-range lo hi g.lambda i false n,
                  get_or-range lo hi e.lambda i false n,
                  get_or-range lo hi g.label0 i zero_block n,
                  get_or-range lo hi e.eval_label i zero_block n,
                  get_or-range lo hi vs i false n,
                )
                (holds.at (lo + i) (omega arith));
        })
    where
      sized :
          {A : Type 0} (xs : List A)
          → length xs ≡ length vs
          → length (range lo hi xs) ≡ length (range lo hi vs)
      sized xs e = length-range lo hi xs l (omega arith) ∙ sym (length-range lo hi vs l h)
