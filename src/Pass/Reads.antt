-- ===== src/Pass/Reads.antt =====
-- What a source needs of the liveness data of emp-ag2pc/backend/run_state.h: each wire is still
-- alive at each gate that reads it.
use emp_ag2pc.Prelude.{
  All, ℕ, ◌+◌, ◌<◌, ◌≡◌, Bool, true, false, ◌||◌, List, Option, none, some, get_or, leb,
}
use emp_ag2pc.Pass.Source.{Source, ret, public_bit, and_gate, xor_gate, not_gate}
use emp_ag2pc.Pass.Numbering.{Counter, next, next_const}

-- Every operand and every output is a wire that the source has been given.
abbrev pub Scoped : Counter → Source → Type 0
Scoped c (ret outs) = All (λ w. w < c.wid) outs
Scoped c (public_bit v k) = let (w, c') = next_const v c in Scoped c' (k w)
Scoped c (and_gate a b k) = (a < c.wid) × (b < c.wid) × (let (w, c') = next c in Scoped c' (k w))
Scoped c (xor_gate a b k) = (a < c.wid) × (b < c.wid) × (let (w, c') = next c in Scoped c' (k w))
Scoped c (not_gate a k) = (a < c.wid) × (let (w, c') = next c in Scoped c' (k w))

-- A last use that is not before gate `g`.
abbrev pub reaches : Option ℕ → ℕ → Bool
reaches none g = false
reaches (some u) g = leb g u

-- A wire that is pinned, or read by gate `g` or a later one.
abbrev pub alive : List Bool → List (Option ℕ) → ℕ → ℕ → Bool
alive persist last_use w g = get_or persist w false || reaches (get_or last_use w none) g

abbrev pub Pinned : List Bool → ℕ → Type 0
Pinned persist w = get_or persist w false ≡ true

module _ (persist : List Bool) (last_use : List (Option ℕ)) where
  abbrev pub Alive : ℕ → ℕ → Type 0
  Alive w g = alive persist last_use w g ≡ true

  -- The liveness data serve the rest of the source from gate `g` on: operands are alive where
  -- they are read, and outputs of ANDs and of the source are pinned.
  abbrev pub Covers : ℕ → Counter → Source → Type 0
  Covers g c (ret outs) = All (Pinned persist) outs
  Covers g c (public_bit v k) = let (w, c') = next_const v c in Covers g c' (k w)
  Covers g c (and_gate a b k) =
      Alive a g
      × Alive b g
      × Pinned persist c.wid
      × (let (w, c') = next c in Covers (g + 1) c' (k w))
  Covers g c (xor_gate a b k) =
      Alive a g × Alive b g × (let (w, c') = next c in Covers (g + 1) c' (k w))
  Covers g c (not_gate a k) = Alive a g × (let (w, c') = next c in Covers (g + 1) c' (k w))
