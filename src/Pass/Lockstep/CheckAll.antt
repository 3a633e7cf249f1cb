-- ===== src/Pass/Lockstep/CheckAll.antt =====
-- AG2PCGammaCheckPass of emp-ag2pc/backend/pass_ctx.h over a whole source, on the masks that the
-- evaluator recorded.
use emp_ag2pc.Prelude.{
  All, ℕ, ◌+◌, ◌<◌, ◌≤◌, ◌≡◌, ◌⊎◌, refl, sym, ap, ap₂, subst, ◌∙◌, Bool, false, not, ◌^^◌, List, [],
  ◌∷◌, none, some, get_or, set, length, length-set, get_or-set_self, Option-cases, inl, inr, arith,
}
use emp_ag2pc.Block.{BlockOps, Block, zero_block}
use emp_ag2pc.Wires.{zero_bundle, xor_bundle}
use emp_ag2pc.RunState.{RunState, slot_of}
use emp_ag2pc.HalfGate.Defs.{garbler_witness}
use emp_ag2pc.Pass.Source.{
  Source, ret, public_bit, and_gate, xor_gate, not_gate, run_source, cached,
}
use emp_ag2pc.Pass.GammaCheck
use emp_ag2pc.Pass.GammaCheck.{GammaCheckPass}
use emp_ag2pc.Pass.Numbering.{
  counting, next, next_const, next_const-cached, next_const-new, gamma_count,
}
use emp_ag2pc.Pass.Reads.{Scoped, Covers, Alive, Pinned}
use emp_ag2pc.Pass.Slots.Step.{Own}
use emp_ag2pc.Pass.Slots.Run.{Separates}
use emp_ag2pc.Pass.Lockstep.Tables.{
  Layout, Ideal, Follows, IsPublic-Authentic, IsXor-Authentic, IsNot-Authentic, masked-public,
  masked-xor, masked-not,
}
use emp_ag2pc.Pass.Lockstep.State.{Exclusive, alive_before, slot}
use emp_ag2pc.Pass.Lockstep.Whole.{Witnessed}
use emp_ag2pc.Pass.Lockstep.CheckKept.{rechecked, leaves, gamma-cached, gamma-new, with_public}
use emp_ag2pc.Pass.Lockstep.Check.{
  same_witness, Ghosted, Place, ghost_local, ghost_and, Checks, checks, checks-Pinned,
}

module _ ⦃B : BlockOps⦄ where
  module _ (I : Ideal) (L : Layout) (total : ℕ) (ex : Exclusive L total) (ms : List Block) where
    -- The check pass before gate `g`, with the rest of the source to come.
    pub record Checking (src : Source) (g : ℕ) (r : GammaCheckPass) : Type 0 where
      pub phys : r.s.phys ≡ L.phys
      pub sigma : r.s.sigma ≡ I.sigma_g
      pub ghosted : Ghosted I L total r.wid g r.s.wire_slot r.s.mask_input
      pub follows : Follows I r.ai (gamma_count r) src
      pub separated : Separates L.persist L.last_use L.phys L.slots g (gamma_count r) src
      pub covered : Covers L.persist L.last_use g (gamma_count r) src
      pub scoped : Scoped (gamma_count r) src
      pub wires : (rechecked src r).wid ≤ total
      pub room : (rechecked src r).ai ≤ length r.s.m1_t
      pub witnessed : Witnessed I r.s.lambda_and ms r.ai (gamma_count r) src

    -- At its end: the masked values of the outputs, and the evaluator's witness of each AND.
    pub record Checked (src : Source) (r t : GammaCheckPass) : Type 0 where
      pub outs : All (Checks I L total t.s) (run_source counting src (gamma_count r)).0
      pub agreed :
          (i : ℕ) → r.ai ≤ i → i < t.ai → get_or t.s.m1_t i zero_block ≡ get_or ms i zero_block

    All-Checks :
        (n g : ℕ) (s : RunState) (ws : List ℕ)
        → ((w : ℕ) → w < n → Alive L.persist L.last_use w g → Checks I L total s w)
        → All (Pinned L.persist) ws
        → All (λ w. w < n) ws
        → All (Checks I L total s) ws
    All-Checks n g s [] f a b = tt
    All-Checks n g s (w ∷ ws) f (p, a) (l, b) = (f w l (rw p refl), All-Checks n g s ws f a b)

    place :
        {n g : ℕ}
        → n < total
        → Own L.persist L.last_use L.phys L.slots g n
        → Place I L total n g (g + 1)
    place {g} l own = record {
      exclusive = ex;
      below = l;
      own = own;
      back = alive_before L.persist L.last_use g;
    }

    same-Place :
        {n g : ℕ} → n < total → Own L.persist L.last_use L.phys L.slots g n → Place I L total n g g
    same-Place l own = record { exclusive = ex; below = l; own = own; back = λ w a. a }

    slot_here : (r : GammaCheckPass) → r.s.phys ≡ L.phys → slot_of r.s.phys r.wid ≡ slot I L r.wid
    slot_here r e = ap (λ f. slot_of f r.wid) e

    xor-Checking :
        (a b : ℕ) (k : ℕ → Source) (g : ℕ) (r : GammaCheckPass)
        → Checking (xor_gate a b k) g r
        → Checking (k r.wid) (g + 1) (GammaCheck.xor_gate a b r).1
    unfolding run_source GammaCheck.xor_gate next
    xor-Checking a b k g r c =
        let (n, f) = c.follows in
        let (own, s) = c.separated in
        let (ca, cb, cov) = c.covered in
        let (la, lb, sc) = c.scoped in
        let below : r.wid < total =
          (let l = (leaves (k r.wid) (GammaCheck.xor_gate a b r).1).wids in
            let t = c.wires in omega arith) in
        let x = checks I L total r.s c.ghosted c.phys a la ca in
        let y = checks I L total r.s c.ghosted c.phys b lb cb in
        let auth = c.ghosted.in_step.authentic in
        record {
          phys = c.phys;
          sigma = c.sigma;
          ghosted =
              ghost_local I L total c.ghosted _ _ _ (place below own) (slot_here r c.phys)
                (ap₂ xor_bundle x.share y.share ∙ sym n.xor_g)
                (ap₂ ◌^^◌ x.opened y.opened ∙ sym (masked-xor I n))
                (IsXor-Authentic I n (auth a la) (auth b lb));
          follows = f;
          separated = s;
          covered = cov;
          scoped = sc;
          wires = c.wires;
          room = c.room;
          witnessed = c.witnessed;
        }

    not-Checking :
        (a : ℕ) (k : ℕ → Source) (g : ℕ) (r : GammaCheckPass)
        → Checking (not_gate a k) g r
        → Checking (k r.wid) (g + 1) (GammaCheck.not_gate a r).1
    unfolding run_source GammaCheck.not_gate next
    not-Checking a k g r c =
        let (n, f) = c.follows in
        let (own, s) = c.separated in
        let (ca, cov) = c.covered in
        let (la, sc) = c.scoped in
        let below : r.wid < total =
          (let l = (leaves (k r.wid) (GammaCheck.not_gate a r).1).wids in
            let t = c.wires in omega arith) in
        let x = checks I L total r.s c.ghosted c.phys a la ca in
        record {
          phys = c.phys;
          sigma = c.sigma;
          ghosted =
              ghost_local I L total c.ghosted _ _ _ (place below own) (slot_here r c.phys)
                (x.share ∙ sym n.same_g) (ap not x.opened ∙ sym (masked-not I n))
                (IsNot-Authentic I n (c.ghosted.in_step.authentic a la));
          follows = f;
          separated = s;
          covered = cov;
          scoped = sc;
          wires = c.wires;
          room = c.room;
          witnessed = c.witnessed;
        }

    and_Checking :
        (a b : ℕ) (k : ℕ → Source) (g : ℕ) (r : GammaCheckPass)
        → Checking (and_gate a b k) g r
        → Checking (k r.wid) (g + 1) (GammaCheck.and_gate a b r).1
          × (get_or (GammaCheck.and_gate a b r).1.s.m1_t r.ai zero_block
              ≡ get_or ms r.ai zero_block)
    unfolding run_source GammaCheck.and_gate next
    and_Checking a b k g r c =
        let (n, f) = c.follows in
        let (own, s) = c.separated in
        let (ca, cb, pin, cov) = c.covered in
        let (la, lb, sc) = c.scoped in
        let ((opened, witness), more) = c.witnessed in
        let t = leaves (k r.wid) (GammaCheck.and_gate a b r).1 in
        let below : r.wid < total = (let l = t.wids in let t = c.wires in omega arith) in
        let here = slot_here r c.phys in
        let i = slot_of r.s.phys r.wid in
        let z = get_or r.s.lambda_and r.ai false in
        let st = record r.s { mask_input = set r.s.mask_input i z } in
        let now = ghost_and I L total c.ghosted i z (same-Place below own) pin here opened n.auth in
        let x = checks I L total st now c.phys a (omega arith) ca in
        let y = checks I L total st now c.phys b (omega arith) cb in
        let out = checks-Pinned I L total st now c.phys r.wid below pin in
        let auth = c.ghosted.in_step.authentic in
        (
          record {
            phys = c.phys;
            sigma = c.sigma;
            ghosted = ghost_and I L total c.ghosted i z (place below own) pin here opened n.auth;
            follows = f;
            separated = s;
            covered = cov;
            scoped = sc;
            wires = c.wires;
            room = omega (arith, c.room, length-set r.s.m1_t r.ai _);
            witnessed = more;
          },
          get_or-set_self r.s.m1_t r.ai _ zero_block
                (let l = t.ais in let q = c.room in omega arith)
              ∙ (λ j. garbler_witness (x.opened j) (y.opened j) (record {
                in0 = x.share j;
                in1 = y.share j;
                out = out j;
                sigma = get_or (c.sigma j) r.ai zero_bundle;
              }))
              ∙ same_witness I r.ai a b r.wid n (auth a la) (auth b lb)
              ∙ sym witness,
        )

    cached-Checking :
        (v : Bool) (k : ℕ → Source) (g : ℕ) (r : GammaCheckPass) {w : ℕ}
        → cached v r.consts ≡ some w
        → GammaCheck.public_bit v r ≡ (w, r)
        → Checking (public_bit v k) g r
        → Checking (k w) g r
    unfolding run_source
    cached-Checking v k g r e er c =
        let n = next_const-cached v (gamma_count r) e in
        record {
          phys = c.phys;
          sigma = c.sigma;
          ghosted = c.ghosted;
          follows = rw (e, Follows) at c.follows;
          separated = rw (e, Separates) at c.separated;
          covered = subst (λ z. Covers L.persist L.last_use g z.1 (k z.0)) n c.covered;
          scoped = subst (λ z. Scoped z.1 (k z.0)) n c.scoped;
          wires = subst (λ z. (rechecked (k z.0) z.1).wid ≤ total) er c.wires;
          room = subst (λ z. (rechecked (k z.0) z.1).ai ≤ length r.s.m1_t) er c.room;
          witnessed = subst (λ z. Witnessed I r.s.lambda_and ms r.ai z.1 (k z.0)) n c.witnessed;
        }

    public-Checking :
        (v : Bool) (k : ℕ → Source) (g : ℕ) (r : GammaCheckPass)
        → cached v r.consts ≡ none
        → Checking (public_bit v k) g r
        → Checking (k r.wid) g (with_public v r)
    unfolding run_source
    public-Checking v k g r e c =
        let er = gamma-new v r e in
        let n = next_const-new v (gamma_count r) e in
        let (p, f) = rw (e, Follows) at c.follows in
        let (own, s) = rw (e, Separates) at c.separated in
        let wires =
          subst (λ (z : ℕ × GammaCheckPass). (rechecked (k z.0) z.1).wid ≤ total) er c.wires in
        record {
          phys = c.phys;
          sigma = c.sigma;
          ghosted =
              ghost_local I L total c.ghosted _ zero_bundle v
                (same-Place (let l = (leaves (k r.wid) (with_public v r)).wids in omega arith) own)
                (slot_here r c.phys) (sym p.zero_g) (sym (masked-public I p))
                (IsPublic-Authentic I p);
          follows = f;
          separated = s;
          covered = subst (λ z. Covers L.persist L.last_use g z.1 (k z.0)) n c.covered;
          scoped = subst (λ z. Scoped z.1 (k z.0)) n c.scoped;
          wires = wires;
          room =
              subst (λ (z : ℕ × GammaCheckPass). (rechecked (k z.0) z.1).ai ≤ length r.s.m1_t) er
                c.room;
          witnessed = subst (λ z. Witnessed I r.s.lambda_and ms r.ai z.1 (k z.0)) n c.witnessed;
        }

    Checked-back :
        (v : Bool) (k : ℕ → Source) {w : ℕ} (r t : GammaCheckPass)
        → GammaCheck.public_bit v r ≡ (w, t)
        → next_const v (gamma_count r) ≡ (w, gamma_count t)
        → t.ai ≡ r.ai
        → Checked (k w) t (rechecked (k w) t)
        → Checked (public_bit v k) r (rechecked (public_bit v k) r)
    unfolding run_source
    Checked-back v k {w} r t er n ea c =
        subst (λ (z : ℕ × GammaCheckPass). Checked (public_bit v k) r (rechecked (k z.0) z.1))
          (sym er)
          (record {
            outs =
                subst
                  (λ z.
                    All (Checks I L total (rechecked (k w) t).s)
                      (run_source counting (k z.0) z.1).0)
                  (sym n) c.outs;
            agreed = λ i l. c.agreed i (omega arith);
          })

    -- The check pass over a source: it ends with the evaluator's witnesses.
    pub rechecks :
        (src : Source) (g : ℕ) (r : GammaCheckPass)
        → Checking src g r
        → Checked src r (rechecked src r)
    unfolding run_source GammaCheck.xor_gate GammaCheck.not_gate GammaCheck.and_gate next
    rechecks (ret outs) g r c = record {
      outs = All-Checks r.wid g r.s outs (checks I L total r.s c.ghosted c.phys) c.covered c.scoped;
      agreed = λ i l h. absurd (omega arith);
    }
    rechecks (public_bit v k) g r c = elim (Option-cases (cached v r.consts)) [
      | inr (w, e) ↦
          let er = gamma-cached v r e in
          Checked-back v k r r er (next_const-cached v (gamma_count r) e) refl
            (rechecks (k w) g r (cached-Checking v k g r e er c))
      | inl e ↦
          Checked-back v k r (with_public v r) (gamma-new v r e)
            (next_const-new v (gamma_count r) e) refl
            (rechecks (k r.wid) g (with_public v r) (public-Checking v k g r e c))
    ]
    rechecks (and_gate a b k) g r c =
        let (d, e) = and_Checking a b k g r c in
        let t = (GammaCheck.and_gate a b r).1 in
        let rest = rechecks (k r.wid) (g + 1) t d in
        let kept = leaves (k r.wid) t in
        record {
          outs = rest.outs;
          agreed = λ i l h. elim (here_or_later r.ai i l) [
            | inl q ↦
                subst
                  (λ j. get_or (rechecked (k r.wid) t).s.m1_t j zero_block ≡ get_or ms j zero_block)
                  q (kept.earlier r.ai (omega arith) ∙ e)
            | inr q ↦ rest.agreed i q h
          ];
        }
      where
        here_or_later : (n i : ℕ) → n ≤ i → (n ≡ i) ⊎ (n + 1 ≤ i)
        here_or_later n i l = omega arith
    rechecks (xor_gate a b k) g r c =
        let rest =
          rechecks (k r.wid) (g + 1) (GammaCheck.xor_gate a b r).1 (xor-Checking a b k g r c) in
        record { outs = rest.outs; agreed = rest.agreed }
    rechecks (not_gate a k) g r c =
        let rest =
          rechecks (k r.wid) (g + 1) (GammaCheck.not_gate a r).1 (not-Checking a k g r c) in
        record { outs = rest.outs; agreed = rest.agreed }
