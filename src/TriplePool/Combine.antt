-- ===== src/TriplePool/Combine.antt =====
-- One candidate folded into an accumulated triple, and the triple moved to the masks of an AND:
-- bucket_one_layer and the end of compute_inplace of emp-ag2pc/backend/triple_pool.h.
use emp_ag2pc.Prelude.{◌≡◌, sym, ap, ◌∙◌, Bool, true, ◌^^◌, ◌&&◌, arith}
use emp_ag2pc.Block.{BlockOps, Block, mask, lsb, lsb-⊕, lsb-mask}
use emp_ag2pc.Wires.{AShareBundle}
use emp_ag2pc.HalfGate.Defs.{shared}
use emp_ag2pc.TriplePool.Defs.{Candidate, add_share, add_masked, add_public}
use emp_ag2pc.TriplePool.Shared.{Shared, Shared-add_share, Shared-mask, Shared-add_public}
use emp_ag2pc.TriplePool.Leaky.{IsTriple}

module _ ⦃B : BlockOps⦄ where
  -- A party's candidate `y` folded into its `x`, where `d` is the opened difference of the b's.
  abbrev pub combined : Candidate → Candidate → Bool → Candidate
  combined x y d = record {
    a = add_share x.a y.a;
    b = x.b;
    c = add_masked (add_share x.c y.c) y.a d;
  }

  shared-add_share :
      (w v w' v' : AShareBundle)
      → shared (add_share w w') (add_share v v') ≡ shared w v ^^ shared w' v'
  shared-add_share w v w' v' = rw (lsb-⊕ w.mac w'.mac, lsb-⊕ v.mac v'.mac) (ground arith)

  shared-add_masked :
      (w v w' v' : AShareBundle) (m : Bool)
      → shared (add_masked w w' m) (add_masked v v' m) ≡ shared w v ^^ (m && shared w' v')
  shared-add_masked w v w' v' m =
      rw
        (
          lsb-⊕ w.mac (mask m w'.mac),
          lsb-⊕ v.mac (mask m v'.mac),
          lsb-mask m w'.mac,
          lsb-mask m v'.mac,
        )
        (ground arith)

  module _ {delta_1 delta_2 : Block} where
    Shared-add_masked :
        (w v w' v' : AShareBundle) (m : Bool)
        → Shared delta_1 delta_2 w v
        → Shared delta_1 delta_2 w' v'
        → Shared delta_1 delta_2 (add_masked w w' m) (add_masked v v' m)
    Shared-add_masked w v w' v' m h k = Shared-add_share w v _ _ h (Shared-mask m w' v' k)

    -- The fold of a triple into a triple is a triple.
    pub combined-IsTriple :
        (t u y z : Candidate) (d : Bool)
        → IsTriple delta_1 delta_2 t u
        → IsTriple delta_1 delta_2 y z
        → d ≡ shared t.b u.b ^^ shared y.b z.b
        → IsTriple delta_1 delta_2 (combined t y d) (combined u z d)
    combined-IsTriple t u y z d h k e =
        let s = h.are_shared in
        let r = k.are_shared in
        record {
          are_shared = record {
            shared_a = Shared-add_share t.a u.a y.a z.a s.shared_a r.shared_a;
            shared_b = s.shared_b;
            shared_c =
                Shared-add_masked (add_share t.c y.c) (add_share u.c z.c) y.a z.a d
                  (Shared-add_share t.c u.c y.c z.c s.shared_c r.shared_c) r.shared_a;
          };
          product =
              shared-add_masked (add_share t.c y.c) (add_share u.c z.c) y.a z.a d
              ∙ ap (λ c. c ^^ (d && shared y.a z.a)) (shared-add_share t.c u.c y.c z.c)
              ∙ bits (shared t.a u.a) (shared y.a z.a) (shared t.b u.b) (shared y.b z.b)
                  (shared t.c u.c) (shared y.c z.c) d h.product k.product e
              ∙ ap (λ a. a && shared t.b u.b) (sym (shared-add_share t.a u.a y.a z.a));
        }
      where
        bits :
            (a a' b b' c c' d : Bool)
            → c ≡ a && b
            → c' ≡ a' && b'
            → d ≡ b ^^ b'
            → (c ^^ c') ^^ (d && a') ≡ (a ^^ a') && b
        bits a a' b b' c c' d p q r = ground arith

    -- A triple and the opened differences to the operands' masks give shares of the product of the
    -- masks.
    pub sigma-Shared :
        (bit0_mask : Block) (t u : Candidate) (x y a b : Bool)
        → lsb bit0_mask ≡ true
        → IsTriple delta_1 delta_2 t u
        → x ≡ a ^^ shared t.a u.a
        → y ≡ b ^^ shared t.b u.b
        → let w =
            add_public bit0_mask 1 delta_1 (x && y) (add_masked (add_masked t.c t.b x) t.a y) in
          let v =
            add_public bit0_mask 2 delta_2 (x && y) (add_masked (add_masked u.c u.b x) u.a y) in
          Shared delta_1 delta_2 w v × (shared w v ≡ a && b)
    sigma-Shared e t u x y a b o h p q =
        let s = h.are_shared in
        let inner = Shared-add_masked t.c u.c t.b u.b x s.shared_c s.shared_b in
        let outer =
          Shared-add_masked (add_masked t.c t.b x) (add_masked u.c u.b x) t.a u.a y inner
            s.shared_a in
        let (k, r) = Shared-add_public e (x && y) _ _ o outer in
        (
          k,
          r
              ∙ ap (λ c. c ^^ (x && y))
                  (shared-add_masked (add_masked t.c t.b x) (add_masked u.c u.b x) t.a u.a y
                    ∙ ap (λ c. c ^^ (y && shared t.a u.a)) (shared-add_masked t.c u.c t.b u.b x))
              ∙ bits (shared t.a u.a) (shared t.b u.b) (shared t.c u.c) x y a b h.product p q,
        )
      where
        bits :
            (m n c x y a b : Bool)
            → c ≡ m && n
            → x ≡ a ^^ m
            → y ≡ b ^^ n
            → ((c ^^ (x && n)) ^^ (y && m)) ^^ (x && y) ≡ a && b
        bits m n c x y a b p q r = ground arith
