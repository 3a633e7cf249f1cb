-- ===== src/Engine/Opened.antt =====
-- Pass 2 of emp-ag2pc/backend/engine.h at both parties: from the states that pass 1 and the triples
-- leave to the labels and masks of the outputs.
use emp_ag2pc.Prelude.{
  All, ℕ, ◌<◌, ◌≤◌, ◌≡◌, refl, sym, ap, subst, ◌∙◌, true, List, [], ◌∷◌, concat, length, arith,
}
use emp_ag2pc.Block.{BlockOps, lsb1}
use emp_ag2pc.RunState.{RunState}
use emp_ag2pc.Pass.Source.{Source, run_source, no_consts}
use emp_ag2pc.Pass.Garble
use emp_ag2pc.Pass.Garble.{Row, GarblePass}
use emp_ag2pc.Pass.Evaluate
use emp_ag2pc.Pass.Numbering.{Counter, counting, run-count, Garble-Numbers}
use emp_ag2pc.Pass.Reads.{Scoped, Covers}
use emp_ag2pc.Pass.Slots.Run.{Separates}
use emp_ag2pc.Pass.Lockstep.Tables.{Layout, Ideal, Follows}
use emp_ag2pc.Pass.Lockstep.State.{Exclusive, InStep}
use emp_ag2pc.Pass.Lockstep.Rows.{garbled, garbled-Chunked, end-Sendable, Sendable}
use emp_ag2pc.Pass.Lockstep.Gate.{Reads}
use emp_ag2pc.Pass.Lockstep.Whole.{Witnessed, locked}
use emp_ag2pc.Engine.Paths.{garble, evaluate}

module _ ⦃B : BlockOps⦄ where
  -- The counter before the first gate of a run with `n` inputs.
  abbrev pub first_gate : ℕ → Counter
  first_gate n = record { wid = n; consts = no_consts }

  -- The chunks that the garble pass publishes have a row and are not too long, and there is a row for
  -- each AND that it has counted.
  pub garble-Sendable :
      (src : Source) (st : RunState)
      → let chunks = (garble src st).0 in
        All Sendable chunks
        × (length (concat chunks) ≡ (run_source Garble.ops src (Garble.init st)).1.ai)
  unfolding garble Garble.init
  garble-Sendable src st =
      let h =
        garbled-Chunked src (Garble.init st)
          (record { sent = tt; room = omega arith; counted = refl }) in
      let (s, e) = end-Sendable (garbled src (Garble.init st)) h in (s, ap length e ∙ h.counted)

  module _ (I : Ideal) (L : Layout) (total : ℕ) where
    -- The states of the two parties before pass 2 fit the tables `I` and the layout `L`.
    pub record Ready (src : Source) (st_g st_e : RunState) : Type 0 where
      pub odd : lsb1 I.delta_g ≡ true
      pub exclusive : Exclusive L total
      pub same_inputs : st_e.num_inputs ≡ st_g.num_inputs
      pub phys_g : st_g.phys ≡ L.phys
      pub phys_e : st_e.phys ≡ L.phys
      pub delta_g : st_g.delta ≡ I.delta_g
      pub delta_e : st_e.delta ≡ I.delta_e
      pub sigma_g : st_g.sigma ≡ I.sigma_g
      pub sigma_e : st_e.sigma ≡ I.sigma_e
      pub hashed : st_e.mitc ≡ st_g.mitc
      pub follows : Follows I 0 (first_gate st_g.num_inputs) src
      pub separated :
          Separates L.persist L.last_use L.phys L.slots 0 (first_gate st_g.num_inputs) src
      pub covered : Covers L.persist L.last_use 0 (first_gate st_g.num_inputs) src
      pub scoped : Scoped (first_gate st_g.num_inputs) src
      pub wires : (run_source counting src (first_gate st_g.num_inputs)).1.wid ≤ total
      pub lambdas : length (concat (garble src st_g).0) ≤ length st_e.lambda_and
      pub witnesses : length (concat (garble src st_g).0) ≤ length st_e.m1_t
      pub loaded : InStep I L total st_g.num_inputs 0 (record {
        wires_g = st_g.wire_slot;
        wires_e = st_e.wire_slot;
        labels = st_g.label_slot;
        evals = st_e.eval_slot;
        masks = st_e.mask_input;
      })

    -- After pass 2: what the parties read of the outputs, and the evaluator's record of the ANDs.
    pub record Opened (src : Source) (n : ℕ) (g e : RunState) : Type 0 where
      pub outs : All (Reads I L total g e) (run_source counting src (first_gate n)).0
      pub ands : Witnessed I e.lambda_and e.m1_t 0 (first_gate n) src

    end-s : (p : GarblePass) → (Garble.end p).s ≡ p.s
    unfolding Garble.end
    end-s p = ground arith

    nonempty :
        (chunks : List (List Row)) → All Sendable chunks → All (λ rows. 0 < length rows) chunks
    nonempty [] h = tt
    nonempty (c ∷ cs) ((a, b), h) = (a, nonempty cs h)

    -- For every source and states of the two parties before pass 2 that fit the tables: when the
    -- evaluator gets the chunks that the garbler sends, both hold of every output of the source the
    -- shares of the tables, which are authenticated both ways; the evaluator holds its masked value,
    -- and the garbler's label for it; and for each AND the evaluator has recorded the masked product
    -- and its witness.
    pub garble-evaluate :
        (src : Source) (st_g st_e : RunState)
        → Ready src st_g st_e
        → let (chunks, g) = garble src st_g in
          Opened src st_g.num_inputs g (evaluate src chunks st_e)
    unfolding garble evaluate Garble.init Evaluate.init
    garble-evaluate src st_g st_e r =
        let p = Garble.init st_g in
        let fp = garbled src p in
        let chunks = (Garble.end fp).published in
        let h = garbled-Chunked src p (record { sent = tt; room = omega arith; counted = refl }) in
        let (s, e) = end-Sendable fp h in
        let n = run-count Garble-Numbers src p in
        let count : length (concat (garble src st_g).0) ≡ fp.ai = (garble-Sendable src st_g).1 in
        let l =
          locked I L total r.odd r.exclusive src 0 p (Evaluate.init chunks st_e)
            (record {
              same_wid = r.same_inputs;
              same_ai = refl;
              same_consts = refl;
              phys_g = r.phys_g;
              phys_e = r.phys_e;
              delta_g = r.delta_g;
              delta_e = r.delta_e;
              sigma_g = r.sigma_g;
              sigma_e = r.sigma_e;
              hashed = r.hashed;
              in_step = r.loaded;
            })
            (record {
              follows = r.follows;
              separated = r.separated;
              covered = r.covered;
              scoped = r.scoped;
              wires = subst (λ z. z.1.wid ≤ total) n r.wires;
              lambdas = subst (λ k. k ≤ length st_e.lambda_and) count r.lambdas;
              witnesses = subst (λ k. k ≤ length st_e.m1_t) count r.witnesses;
              fed = record { filled = nonempty chunks s; within = tt };
              stream = sym e;
            }) in
        record {
          outs =
              subst
                (λ z.
                  All
                    (Reads I L total z
                      (run_source Evaluate.ops src (Evaluate.init chunks st_e)).1.s)
                    (run_source counting src (first_gate st_g.num_inputs)).0)
                (sym (end-s fp)) l.outs;
          ands = l.witnessed;
        }
