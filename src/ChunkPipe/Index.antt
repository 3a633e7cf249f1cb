-- ===== src/ChunkPipe/Index.antt =====
-- Indices into the ring of slots of chunk_pipe of emp-ag2pc/backend/helper.h, and the chunks that it
-- holds.
use emp_ag2pc.Prelude.{
  ℕ, zero, suc, ◌+◌, ◌-◌, ◌%◌, ◌<◌, ◌≤◌, ◌≡◌, ◌≢◌, refl, sym, ap, ap₂, ◌∙◌, List, [], ◌∷◌, ◌++◌,
  length, length-set, get_or, set, get_or-set_ne, tabulate_from, tabulate, arith,
}
use native.Mathlib.Nat.{mod-eq_of_lt, mod-eq-sub-mod, mod-add-mod}
use native.Mathlib.Decide.{dec_lt}

wrapped : (x n : ℕ) → n ≤ x → x < n + n → x % n ≡ x - n
wrapped x n h k = mod-eq-sub-mod h ∙ mod-eq_of_lt (let e : x - n < n = omega arith in e)

-- Fewer than `n` steps do not come back to the same slot.
pub apart : (n h j k : ℕ) → h < n → j < k → k < n → (h + j) % n ≢ (h + k) % n
apart n h j k a b c e = elim (dec_lt (h + j) n) [
  | yes p ↦ elim (dec_lt (h + k) n) [
    | yes q ↦ (let u = mod-eq_of_lt p in let v = mod-eq_of_lt q in omega arith)
    | no q ↦
        (let u = mod-eq_of_lt p in
          let v = wrapped (h + k) n (omega arith) (omega arith) in omega arith)
  ]
  | no p ↦
      (let u = wrapped (h + j) n (omega arith) (omega arith) in
        let v = wrapped (h + k) n (omega arith) (omega arith) in omega arith)
]

pub head_moved : (n h k : ℕ) → ((h + 1) % n + k) % n ≡ (h + suc k) % n
head_moved n h k =
    mod-add-mod (h + 1) n k ∙ (let e : (h + 1) + k ≡ h + suc k = omega arith in ap (λ x. x % n) e)

module _ {A : Type 0} where
  tabulate_from-snoc :
      (from n : ℕ) (f : ℕ → A)
      → tabulate_from from (suc n) f ≡ tabulate_from from n f ++ (f (from + n) ∷ [])
  tabulate_from-snoc from zero f = (let e : from ≡ from + 0 = omega arith in ap (λ i. f i ∷ []) e)
  tabulate_from-snoc from (suc n) f =
      ap (λ l. f from ∷ l)
        (tabulate_from-snoc (suc from) n f
          ∙ (let e : suc from + n ≡ from + suc n = omega arith in
              ap (λ i. tabulate_from (suc from) n f ++ (f i ∷ [])) e))

  tabulate_from-same :
      (from to n : ℕ) (f g : ℕ → A)
      → ((i : ℕ) → i < n → f (from + i) ≡ g (to + i))
      → tabulate_from from n f ≡ tabulate_from to n g
  tabulate_from-same from to zero f g h = refl
  tabulate_from-same from to (suc n) f g h =
      let e : from + 0 ≡ from = omega arith in
      let e' : to + 0 ≡ to = omega arith in
      ap₂ ◌∷◌ (ap f (sym e) ∙ h 0 (omega arith) ∙ ap g e') (
        tabulate_from-same (suc from) (suc to) n f g (λ i k.
          let u : suc from + i ≡ from + suc i = omega arith in
          let v : suc to + i ≡ to + suc i = omega arith in
          ap f u ∙ h (suc i) (omega arith) ∙ ap g (sym v)))

  -- Entry `k` of the pipe, and the chunks that it holds, oldest first.
  abbrev pub entry : A → List A → ℕ → ℕ → A
  entry d slots h k = get_or slots ((h + k) % length slots) d

  abbrev pub held : A → List A → ℕ → ℕ → List A
  held d slots h n = tabulate n (entry d slots h)

  pub held-snoc :
      (d : A) (slots : List A) (h n : ℕ)
      → held d slots h (n + 1) ≡ held d slots h n ++ (entry d slots h n ∷ [])
  held-snoc d slots h n =
      (let e : n + 1 ≡ suc n = omega arith in ap (held d slots h) e)
      ∙ tabulate_from-snoc 0 n (entry d slots h)
      ∙ (let e : 0 + n ≡ n = omega arith in
          ap (λ i. held d slots h n ++ (entry d slots h i ∷ [])) e)

  pub held-head :
      (d : A) (slots : List A) (h n : ℕ)
      → h < length slots
      → held d slots h (suc n) ≡ get_or slots h d ∷ held d slots ((h + 1) % length slots) n
  held-head d slots h n a =
      ap₂ ◌∷◌
        (let e : (h + 0) % length slots ≡ h =
            (let z : h + 0 ≡ h = omega arith in ap (λ x. x % length slots) z) ∙ mod-eq_of_lt a in
          ap (λ i. get_or slots i d) e)
        (tabulate_from-same 1 0 n (entry d slots h) (entry d slots ((h + 1) % length slots)) (λ i k.
          let u : 1 + i ≡ suc i = omega arith in
          let v : 0 + i ≡ i = omega arith in
          ap (entry d slots h) u
          ∙ ap (λ j. get_or slots j d) (sym (head_moved (length slots) h i))
          ∙ ap (entry d slots ((h + 1) % length slots)) (sym v)))

  -- A write to the free slot keeps what is held.
  pub held-set :
      (d : A) (slots : List A) (h n i : ℕ) (v : A)
      → h < length slots
      → n < length slots
      → i ≡ (h + n) % length slots
      → held d (set slots i v) h n ≡ held d slots h n
  held-set d slots h n i v a b e =
      tabulate_from-same 0 0 n (entry d (set slots i v) h) (entry d slots h) (λ j k.
        let u : 0 + j ≡ j = omega arith in
        ap (λ x. get_or (set slots i v) ((h + (0 + j)) % x) d) (length-set slots i v)
        ∙ get_or-set_ne slots i ((h + (0 + j)) % length slots) v d
            (λ q. apart (length slots) h (0 + j) n a (omega arith) b (sym q ∙ e)))
