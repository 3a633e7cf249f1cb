-- ===== src/TriplePool/Leaky.antt =====
-- One leaky AND from both sides: leaky_and_halfgate of emp-ag2pc/backend/triple_pool.h.
use emp_ag2pc.Prelude.{◌≡◌, refl, sym, ap, ap₂, ◌∙◌, Bool, true, false, ◌^^◌, ◌&&◌, arith}
use emp_ag2pc.Block.{
  BlockOps, Block, ◌⊕◌, xor_laws, mask, lsb, lsb1, lsb1-⊕, lsb1-mask, mask-^^, mask-⊕,
  band-mask_true, band-mask_false,
}
use emp_ag2pc.HalfGate.Defs.{shared}
use emp_ag2pc.TriplePool.Defs.{Candidate, b_side, half_gate, leaky_share, add_public}
use emp_ag2pc.TriplePool.Shared.{Shared, both_sides, Shared-add_public}

module _ ⦃B : BlockOps⦄ where
  -- Both parties' shares of a candidate are authenticated both ways.
  pub record AreShared (delta_1 delta_2 : Block) (t u : Candidate) : Type 0 where
    pub shared_a : Shared delta_1 delta_2 t.a u.a
    pub shared_b : Shared delta_1 delta_2 t.b u.b
    pub shared_c : Shared delta_1 delta_2 t.c u.c

  -- An authenticated AND: the bit of c is the product of those of a and b.
  pub record IsTriple (delta_1 delta_2 : Block) (t u : Candidate) : Type 0 where
    pub are_shared : AreShared delta_1 delta_2 t u
    pub product : shared t.c u.c ≡ shared t.a u.a && shared t.b u.b

  -- What a party evaluates of the peer's half gate.
  evaluated :
      (h : Block → Block) (delta : Block) (t : Candidate) (m : Block) (x : Bool)
      → m ≡ t.a.key ⊕ mask x delta
      → h m ⊕ mask x (half_gate h delta t) ≡ h t.a.key ⊕ mask x (b_side delta t)
  unfolding half_gate
  evaluated h delta t m true p =
      rw (p, band-mask_true delta) (cancels (h t.a.key) (h (t.a.key ⊕ delta)) (b_side delta t))
    where
      cancels : (a b c : Block) → b ⊕ mask true (a ⊕ b ⊕ c) ≡ a ⊕ mask true c
      cancels a b c = simp xor_laws
  evaluated h delta t m false p =
      let e : m ≡ t.a.key = p ∙ simp xor_laws in
      rw (e, band-mask_false (half_gate h delta t), band-mask_false (b_side delta t)) refl

  regroup :
      (ht hu ct cu kt mt ku mu dt du : Block) (xt xu : Bool)
      → (ht ⊕ (hu ⊕ mask xt cu) ⊕ kt ⊕ mt ⊕ mask xt ct ⊕ dt)
          ⊕ (hu ⊕ (ht ⊕ mask xu ct) ⊕ ku ⊕ mu ⊕ mask xu cu ⊕ du)
        ≡ mask (xt ^^ xu) (ct ⊕ cu) ⊕ ((dt ⊕ kt ⊕ mt) ⊕ (du ⊕ ku ⊕ mu))
  regroup ht hu ct cu kt mt ku mu dt du xt xu =
      rw (mask-^^ xt xu (ct ⊕ cu), mask-⊕ xt ct cu, mask-⊕ xu ct cu) (simp xor_laws)

  mask_twice : (x y : Bool) (d : Block) → mask x (mask y d) ≡ mask (x && y) d
  mask_twice true y d = band-mask_true (mask y d)
  mask_twice false y d = band-mask_false (mask y d) ∙ sym (band-mask_false d)

  b_side-sum :
      (delta_1 delta_2 : Block) (t u : Candidate)
      → Shared delta_1 delta_2 t.b u.b
      → b_side delta_1 t ⊕ b_side delta_2 u ≡ mask (shared t.b u.b) (delta_1 ⊕ delta_2)
  unfolding b_side
  b_side-sum delta_1 delta_2 t u s = both_sides delta_1 delta_2 t.b u.b s

  -- The two parties' entries of `Sout` add up to the error bit under the sum of the deltas.
  pub leaky_share-sum :
      (h : Block → Block) (delta_1 delta_2 : Block) (t u : Candidate)
      → AreShared delta_1 delta_2 t u
      → leaky_share h delta_1 t (half_gate h delta_2 u)
          ⊕ leaky_share h delta_2 u (half_gate h delta_1 t)
        ≡ mask ((shared t.a u.a && shared t.b u.b) ^^ shared t.c u.c) (delta_1 ⊕ delta_2)
  unfolding leaky_share
  leaky_share-sum h delta_1 delta_2 t u s =
      let d = delta_1 ⊕ delta_2 in
      let p = evaluated h delta_2 u t.a.mac (lsb t.a.mac) s.shared_a.auth_1 in
      let q = evaluated h delta_1 t u.a.mac (lsb u.a.mac) s.shared_a.auth_2 in
      let product : mask (shared t.a u.a) (b_side delta_1 t ⊕ b_side delta_2 u)
          ≡ mask (shared t.a u.a && shared t.b u.b) d =
        ap (mask (shared t.a u.a)) (b_side-sum delta_1 delta_2 t u s.shared_b)
        ∙ mask_twice (shared t.a u.a) (shared t.b u.b) d in
      ap₂ ◌⊕◌
        (ap
          (λ e.
            h t.a.key
            ⊕ e
            ⊕ t.c.key
            ⊕ t.c.mac
            ⊕ mask (lsb t.a.mac) (b_side delta_1 t)
            ⊕ mask (lsb t.c.mac) delta_1)
          p)
        (ap
          (λ e.
            h u.a.key
            ⊕ e
            ⊕ u.c.key
            ⊕ u.c.mac
            ⊕ mask (lsb u.a.mac) (b_side delta_2 u)
            ⊕ mask (lsb u.c.mac) delta_2)
          q)
      ∙ regroup (h t.a.key) (h u.a.key) (b_side delta_1 t) (b_side delta_2 u) t.c.key t.c.mac
          u.c.key u.c.mac (mask (lsb t.c.mac) delta_1) (mask (lsb u.c.mac) delta_2) (lsb t.a.mac)
          (lsb u.a.mac)
      ∙ ap₂ ◌⊕◌ product (both_sides delta_1 delta_2 t.c u.c s.shared_c)
      ∙ sym (mask-^^ (shared t.a u.a && shared t.b u.b) (shared t.c u.c) d)

  -- The bit that the two parties open.
  pub opened_bit :
      (s r d : Block) (x : Bool) → lsb1 d ≡ true → s ⊕ r ≡ mask x d → lsb1 s ^^ lsb1 r ≡ x
  opened_bit s r d x odd e =
      sym (lsb1-⊕ s r) ∙ ap lsb1 e ∙ lsb1-mask x d ∙ ap (λ o. x && o) odd ∙ and_true x
    where
      and_true : (x : Bool) → x && true ≡ x
      and_true x = ground arith

  -- The folded entries agree.
  pub folded_equal :
      (s r delta_1 delta_2 : Block) (x : Bool)
      → s ⊕ r ≡ mask x (delta_1 ⊕ delta_2)
      → s ⊕ mask x delta_1 ≡ r ⊕ mask x delta_2
  folded_equal s r delta_1 delta_2 x e =
      let f : s ≡ mask x (delta_1 ⊕ delta_2) ⊕ r = simp (xor_laws, sym e) in
      rw (f, mask-⊕ x delta_1 delta_2) (simp xor_laws)

  -- The fold makes a triple.
  pub folded-IsTriple :
      (bit0_mask delta_1 delta_2 : Block) (t u : Candidate) (d : Bool)
      → lsb bit0_mask ≡ true
      → AreShared delta_1 delta_2 t u
      → d ≡ (shared t.a u.a && shared t.b u.b) ^^ shared t.c u.c
      → IsTriple delta_1 delta_2
          (record t { c = add_public bit0_mask 1 delta_1 d t.c })
          (record u { c = add_public bit0_mask 2 delta_2 d u.c })
  folded-IsTriple e delta_1 delta_2 t u d o s p =
      let (k, v) = Shared-add_public e d t.c u.c o s.shared_c in
      record {
        are_shared = record { shared_a = s.shared_a; shared_b = s.shared_b; shared_c = k };
        product = v ∙ (ground arith);
      }
