-- ===== src/Pass/Lockstep/CheckKept.antt =====
-- AG2PCGammaCheckPass of emp-ag2pc/backend/pass_ctx.h over a whole source: what it keeps, and the
-- public wires.
use emp_ag2pc.Prelude.{
  ℕ, ◌+◌, ◌<◌, ◌≤◌, ◌≡◌, ◌≢◌, refl, ◌∙◌, Bool, none, some, get_or, set, get_or-set_ne, arith,
}
use emp_ag2pc.Block.{BlockOps, zero_block}
use emp_ag2pc.Wires.{zero_bundle}
use emp_ag2pc.RunState.{slot_of}
use emp_ag2pc.Pass.Source.{
  Source, ret, public_bit, and_gate, xor_gate, not_gate, run_source, cached, cache,
}
use emp_ag2pc.Pass.GammaCheck
use emp_ag2pc.Pass.GammaCheck.{GammaCheckPass}

module _ ⦃B : BlockOps⦄ where
  abbrev pub rechecked : Source → GammaCheckPass → GammaCheckPass
  rechecked src r = (run_source GammaCheck.ops src r).1

  -- What a check pass leaves: the labels, the slots, and the witnesses of earlier ANDs.
  pub record Leaves (r t : GammaCheckPass) : Type 0 where
    pub wids : r.wid ≤ t.wid
    pub ais : r.ai ≤ t.ai
    pub same_labels : t.s.label_slot ≡ r.s.label_slot
    pub same_phys : t.s.phys ≡ r.s.phys
    pub earlier : (i : ℕ) → i < r.ai → get_or t.s.m1_t i zero_block ≡ get_or r.s.m1_t i zero_block

  Leaves-trans : {r s t : GammaCheckPass} → Leaves r s → Leaves s t → Leaves r t
  Leaves-trans a b = record {
    wids = omega (arith, a.wids, b.wids);
    ais = omega (arith, a.ais, b.ais);
    same_labels = b.same_labels ∙ a.same_labels;
    same_phys = b.same_phys ∙ a.same_phys;
    earlier = λ i l. b.earlier i (omega (arith, a.ais)) ∙ a.earlier i l;
  }

  Leaves-public : (v : Bool) (r : GammaCheckPass) → Leaves r (GammaCheck.public_bit v r).1
  unfolding GammaCheck.public_bit
  Leaves-public v r = record {
    wids = ground arith;
    ais = ground arith;
    same_labels = ground arith;
    same_phys = ground arith;
    earlier = λ i l. ground arith;
  }

  Leaves-and : (a b : ℕ) (r : GammaCheckPass) → Leaves r (GammaCheck.and_gate a b r).1
  unfolding GammaCheck.and_gate
  Leaves-and a b r = record {
    wids = omega arith;
    ais = omega arith;
    same_labels = refl;
    same_phys = refl;
    earlier = λ i l. get_or-set_ne r.s.m1_t r.ai i _ zero_block (differs i l);
  }
    where
      differs : (i : ℕ) → i < r.ai → r.ai ≢ i
      differs i l e = omega arith

  pub leaves : (src : Source) (r : GammaCheckPass) → Leaves r (rechecked src r)
  unfolding run_source GammaCheck.xor_gate GammaCheck.not_gate
  leaves (ret outs) r = record {
    wids = omega arith;
    ais = omega arith;
    same_labels = refl;
    same_phys = refl;
    earlier = λ i l. refl;
  }
  leaves (public_bit v k) r =
      Leaves-trans (Leaves-public v r)
        (leaves (k (GammaCheck.public_bit v r).0) (GammaCheck.public_bit v r).1)
  leaves (and_gate a b k) r =
      Leaves-trans (Leaves-and a b r)
        (leaves (k (GammaCheck.and_gate a b r).0) (GammaCheck.and_gate a b r).1)
  leaves (xor_gate a b k) r =
      let t = leaves (k r.wid) (GammaCheck.xor_gate a b r).1 in
      record {
        wids = omega (arith, t.wids);
        ais = t.ais;
        same_labels = t.same_labels;
        same_phys = t.same_phys;
        earlier = t.earlier;
      }
  leaves (not_gate a k) r =
      let t = leaves (k r.wid) (GammaCheck.not_gate a r).1 in
      record {
        wids = omega (arith, t.wids);
        ais = t.ais;
        same_labels = t.same_labels;
        same_phys = t.same_phys;
        earlier = t.earlier;
      }

  pub gamma-cached :
      (v : Bool) (r : GammaCheckPass) {w : ℕ}
      → cached v r.consts ≡ some w
      → GammaCheck.public_bit v r ≡ (w, r)
  unfolding GammaCheck.public_bit
  gamma-cached v r e = rw (e, GammaCheck.public_bit) refl

  -- The state after a new public wire.
  abbrev pub with_public : Bool → GammaCheckPass → GammaCheckPass
  with_public v r = record r {
    wid = r.wid + 1;
    s = record r.s {
      wire_slot = set r.s.wire_slot (slot_of r.s.phys r.wid) zero_bundle;
      mask_input = set r.s.mask_input (slot_of r.s.phys r.wid) v;
    };
    consts = cache v r.wid r.consts;
  }

  pub gamma-new :
      (v : Bool) (r : GammaCheckPass)
      → cached v r.consts ≡ none
      → GammaCheck.public_bit v r ≡ (r.wid, with_public v r)
  unfolding GammaCheck.public_bit
  gamma-new v r e = rw (e, GammaCheck.public_bit) refl
