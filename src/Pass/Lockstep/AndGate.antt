-- ===== src/Pass/Lockstep/AndGate.antt =====
-- One AND of pass 2 at both parties: what the garbler sends opens to the masked product.
use emp_ag2pc.Prelude.{ℕ, ◌≡◌, sym, ap, ap₂, ◌∙◌, true, ◌^^◌, get_or}
use emp_ag2pc.Block.{BlockOps, Block, ◌⊕◌, mask, lsb1}
use emp_ag2pc.Wires.{zero_bundle}
use emp_ag2pc.RunState.{wslot, minp, lbl, evl, hash_cir}
use emp_ag2pc.HalfGate.Defs.{
  Shares, AreAuth, Garbled, Evaluated, garble_and, evaluate_and, evaluator_witness,
}
use emp_ag2pc.HalfGate.Gate.{and_gate_correct}
use emp_ag2pc.Pass.Garble.{shares_at}
use emp_ag2pc.Pass.Lockstep.Tables.{Layout, Ideal, masked, mask_of, Authentic, IsAnd}
use emp_ag2pc.Pass.Lockstep.Gate.{Core, Paired, Reads}

module _ ⦃B : BlockOps⦄ (I : Ideal) where
  -- The shares of an AND in the tables.
  abbrev pub shares_g : ℕ → ℕ → ℕ → ℕ → Shares
  shares_g ai a b id = record {
    in0 = I.share_g a;
    in1 = I.share_g b;
    out = I.share_g id;
    sigma = get_or I.sigma_g ai zero_bundle;
  }

  abbrev pub shares_e : ℕ → ℕ → ℕ → ℕ → Shares
  shares_e ai a b id = record {
    in0 = I.share_e a;
    in1 = I.share_e b;
    out = I.share_e id;
    sigma = get_or I.sigma_e ai zero_bundle;
  }

  pub AreAuth-e :
      (ai a b id : ℕ)
      → IsAnd I ai a b id
      → Authentic I (I.share_g a) (I.share_e a)
      → Authentic I (I.share_g b) (I.share_e b)
      → AreAuth I.delta_g (shares_e ai a b id) (shares_g ai a b id)
  AreAuth-e ai a b id n x y = record {
    auth_in0 = x.auth_2;
    auth_in1 = y.auth_2;
    auth_out = n.auth.auth_2;
    auth_sigma = n.auth_sigma.auth_2;
  }

  pub AreAuth-g :
      (ai a b id : ℕ)
      → IsAnd I ai a b id
      → Authentic I (I.share_g a) (I.share_e a)
      → Authentic I (I.share_g b) (I.share_e b)
      → AreAuth I.delta_e (shares_g ai a b id) (shares_e ai a b id)
  AreAuth-g ai a b id n x y = record {
    auth_in0 = x.auth_1;
    auth_in1 = y.auth_1;
    auth_out = n.auth.auth_1;
    auth_sigma = n.auth_sigma.auth_1;
  }

  -- What the evaluator's witness of an AND is by the tables.
  abbrev pub witness_of : ℕ → ℕ → ℕ → ℕ → Block
  witness_of ai a b id =
      evaluator_witness I.delta_e (masked I a) (masked I b) (masked I id) (shares_e ai a b id)

  module _ (L : Layout) (total : ℕ) {g : ℕ} {p q : Core} (h : Paired I L total g p q) where
    -- The garbler's AND, and what the evaluator makes of it.
    abbrev pub garbled_and : ℕ → ℕ → Garbled
    garbled_and a b =
        garble_and (hash_cir p.s.mitc).0 p.s.delta (lbl p.s a) (lbl p.s b)
          (shares_at p.s a b p.wid p.ai)

    abbrev pub evaluated_and : ℕ → ℕ → Evaluated
    evaluated_and a b =
        let r = garbled_and a b in
        evaluate_and (hash_cir q.s.mitc).0 r.g0 r.g1 r.b (evl q.s a) (evl q.s b) (minp q.s a)
          (minp q.s b) (shares_at q.s a b q.wid q.ai)

    module _ (a b : ℕ) (x : Reads I L total p.s q.s a) (y : Reads I L total p.s q.s b)
        (n : IsAnd I p.ai a b p.wid)
        (pin : (wslot p.s p.wid ≡ I.share_g p.wid) × (wslot q.s p.wid ≡ I.share_e p.wid)) where
      at_g : shares_at p.s a b p.wid p.ai ≡ shares_g p.ai a b p.wid
      at_g i = record {
        in0 = x.share_g i;
        in1 = y.share_g i;
        out = pin.0 i;
        sigma = get_or (h.sigma_g i) p.ai zero_bundle;
      }

      pub at_e : shares_at q.s a b q.wid q.ai ≡ shares_e p.ai a b p.wid
      at_e = ap₂ (λ w k. shares_at q.s a b w k) h.same_wid h.same_ai ∙ (λ i. record {
        in0 = x.share_e i;
        in1 = y.share_e i;
        out = pin.1 i;
        sigma = get_or (h.sigma_e i) p.ai zero_bundle;
      })

      -- With the evaluator's inputs as the tables have them.
      abbrev hashes : Block → Block
      hashes = (hash_cir p.s.mitc).0

      abbrev by_tables : Block → Shares → Evaluated
      by_tables d ga =
          let r = garble_and hashes d (lbl p.s a) (lbl p.s b) ga in
          evaluate_and hashes r.g0 r.g1 r.b (lbl p.s a ⊕ mask (masked I a) d)
            (lbl p.s b ⊕ mask (masked I b) d) (masked I a) (masked I b) (shares_e p.ai a b p.wid)

      garbled_tables :
          garbled_and a b
          ≡ garble_and hashes I.delta_g (lbl p.s a) (lbl p.s b) (shares_g p.ai a b p.wid)
      garbled_tables i = garble_and hashes (h.delta_g i) (lbl p.s a) (lbl p.s b) (at_g i)

      evaluated_tables : evaluated_and a b ≡ by_tables I.delta_g (shares_g p.ai a b p.wid)
      evaluated_tables i =
          let r = garbled_tables i in
          evaluate_and (hash_cir (h.hashed i)).0 r.g0 r.g1 r.b (x.labelled i) (y.labelled i)
            (x.opened i) (y.opened i) (at_e i)

      module _ (odd : lsb1 I.delta_g ≡ true) where
        correct :
            let e = by_tables I.delta_g (shares_g p.ai a b p.wid) in
            let r = garble_and hashes I.delta_g (lbl p.s a) (lbl p.s b) (shares_g p.ai a b p.wid) in
            (e.lambda ≡ masked I p.wid) × (e.label ≡ r.label ⊕ mask e.lambda I.delta_g)
        correct =
            let (c, d) =
              and_gate_correct hashes I.delta_g (lbl p.s a) (lbl p.s b) (shares_g p.ai a b p.wid)
                (shares_e p.ai a b p.wid) (I.value a) (I.value b)
                (AreAuth-e p.ai a b p.wid n x.authentic y.authentic) odd n.product in
            (c ∙ ap (λ v. v ^^ mask_of I p.wid) (sym n.value), d)

        pub and-lambda : (evaluated_and a b).lambda ≡ masked I p.wid
        and-lambda = ap (λ e. e.lambda) evaluated_tables ∙ correct.0

        pub and-label :
            (evaluated_and a b).label ≡ (garbled_and a b).label ⊕ mask (masked I p.wid) I.delta_g
        and-label =
            ap (λ e. e.label) evaluated_tables
            ∙ correct.1
            ∙ ap₂ (λ r m. r.label ⊕ mask m I.delta_g) (sym garbled_tables) correct.0

        pub and-witness :
            evaluator_witness q.s.delta
              (minp q.s a)
              (minp q.s b)
              (evaluated_and a b).lambda
              (shares_at q.s a b q.wid q.ai)
            ≡ witness_of p.ai a b p.wid
        and-witness i =
            evaluator_witness (h.delta_e i) (x.opened i) (y.opened i) (and-lambda i) (at_e i)
