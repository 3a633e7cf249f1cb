-- ===== src/FEq.antt =====
-- feq_check of emp-ag2pc/backend/helper.h, at each party. `commit d r` is the hash of the digest `d`
-- followed by the nonce `r`.
use emp_ag2pc.Prelude.{
  ◌≡◌, ◌↔◌, refl, sym, ◌∙◌, true, false, Option, none, some, ◌>>◌, guard, guard-inv, Bool-cases,
  inl, inr,
}
use emp_ag2pc.Block.{BlockOps, Block}
use emp_ag2pc.Protocol.Defs.{Hashing}

module _ ⦃B : BlockOps⦄ (H : Hashing Block) (commit : H.Digest → Block → H.Digest) where
  -- Party 1 has sent its commitment before `peer` arrives.
  unfoldable pub feq_check_1 : H.Digest → H.Digest → Option (Unit {0})
  feq_check_1 me peer = guard (H.same me peer)

  -- Party 2 has received the commitment before it sent its digest, and then the opening.
  unfoldable pub feq_check_2 : H.Digest → H.Digest → H.Digest → Block → Option (Unit {0})
  feq_check_2 me committed peer r = do
    guard (H.same (commit peer r) committed)
    guard (H.same me peer)

  -- Both parties of an honest run.
  unfoldable pub feq_check : H.Digest → H.Digest → Block → Option (Unit {0})
  feq_check d_1 d_2 r = do feq_check_1 d_1 d_2; feq_check_2 d_2 (commit d_1 r) d_1 r

  same_refl : (d : H.Digest) → H.same d d ≡ true
  same_refl d = (H.same_iff d d).1 refl

  passes_iff : (d e : H.Digest) → (guard (H.same d e) ≡ some tt) ↔ (d ≡ e)
  passes_iff d e = (passed, λ p. rw ((H.same_iff d e).1 p) refl)
    where
      passed : guard (H.same d e) ≡ some tt → d ≡ e
      passed g = (H.same_iff d e).0 (elim (Bool-cases (H.same d e)) [
        | inl y ↦ y
        | inr n ↦ absurd (let q : none ≡ some tt = sym (rw n refl) ∙ g in cc)
      ])

  pub feq_check_1_iff : (me reply : H.Digest) → (feq_check_1 me reply ≡ some tt) ↔ (me ≡ reply)
  unfolding feq_check_1
  feq_check_1_iff me reply = passes_iff me reply

  pub feq_check_2_iff :
      (me committed d : H.Digest) (r : Block)
      → (feq_check_2 me committed d r ≡ some tt) ↔ ((commit d r ≡ committed) × (me ≡ d))
  unfolding feq_check_2
  feq_check_2_iff me committed d r = (
    λ g.
        (let (a, b) = guard-inv (H.same (commit d r) committed) _ g in
          ((H.same_iff _ _).0 a, (passes_iff me d).0 b)),
    λ (c, m). rw ((H.same_iff _ _).1 c, (H.same_iff _ _).1 m) refl,
  )

  -- Two honest parties pass the check exactly when their digests are the same.
  pub feq_check_iff :
      (d_1 d_2 : H.Digest) (r : Block) → (feq_check d_1 d_2 r ≡ some tt) ↔ (d_1 ≡ d_2)
  unfolding feq_check feq_check_1 feq_check_2
  feq_check_iff d_1 d_2 r = (passed, λ e. rw (e, same_refl d_2, same_refl (commit d_2 r)))
    where
      passed : feq_check d_1 d_2 r ≡ some tt → d_1 ≡ d_2
      passed p = elim (Bool-cases (H.same d_1 d_2)) [
        | inl e ↦ (H.same_iff d_1 d_2).0 e
        | inr e ↦ absurd (refused e)
      ]
        where
          refused : H.same d_1 d_2 ≡ false → ⊥
          refused e = let q : none ≡ some tt = sym (rw e) ∙ p in cc

  -- Whatever the other party sends, where commitments to distinct digests differ: party 1 passes
  -- exactly when the reply is its own digest; party 2 passes exactly when the opening is of its own
  -- digest and fits the commitment that it received; and party 2 passes with two digests for one
  -- commitment, whatever the openings, only when these are the same.
  pub feq_check_binds :
      ((d e : H.Digest) (r q : Block) → commit d r ≡ commit e q → d ≡ e)
      → (me you committed : H.Digest)
      → ((reply : H.Digest) → (feq_check_1 me reply ≡ some tt) ↔ (me ≡ reply))
        × ((d : H.Digest) (r : Block)
            → (feq_check_2 me committed d r ≡ some tt) ↔ ((commit d r ≡ committed) × (me ≡ d)))
        × ((d e : H.Digest) (r q : Block)
            → feq_check_2 me committed d r ≡ some tt
            → feq_check_2 you committed e q ≡ some tt
            → me ≡ you)
  feq_check_binds injective me you committed = (
    feq_check_1_iff me,
    feq_check_2_iff me committed,
    λ d e r q x y.
        let (c, m) = (feq_check_2_iff me committed d r).0 x in
        let (c', m') = (feq_check_2_iff you committed e q).0 y in
        m ∙ injective d e r q (c ∙ sym c') ∙ sym m',
  )
