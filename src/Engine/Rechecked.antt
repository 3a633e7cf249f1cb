-- ===== src/Engine/Rechecked.antt =====
-- The gamma-check pass of emp-ag2pc/backend/engine.h at the garbler, over a whole source: the witnesses
-- that its digest is taken of.
use emp_ag2pc.Prelude.{All, ℕ, ◌<◌, ◌≤◌, ◌≡◌, subst, Bool, List, get_or, length, arith}
use emp_ag2pc.Block.{BlockOps, Block, zero_block}
use emp_ag2pc.RunState.{RunState}
use emp_ag2pc.Pass.Source.{Source, run_source}
use emp_ag2pc.Pass.GammaCheck
use emp_ag2pc.Pass.GammaCheck.{GammaCheckPass}
use emp_ag2pc.Pass.Numbering.{counting, run-count, GammaCheck-Numbers}
use emp_ag2pc.Pass.Reads.{Scoped, Covers}
use emp_ag2pc.Pass.Slots.Run.{Separates}
use emp_ag2pc.Pass.Lockstep.Tables.{Layout, Ideal, Follows}
use emp_ag2pc.Pass.Lockstep.State.{Exclusive}
use emp_ag2pc.Pass.Lockstep.Whole.{Witnessed}
use emp_ag2pc.Pass.Lockstep.Check.{Ghosted, Checks}
use emp_ag2pc.Pass.Lockstep.CheckAll.{rechecks}
use emp_ag2pc.Engine.Paths.{recheck}
use emp_ag2pc.Engine.Opened.{first_gate}

module _ ⦃B : BlockOps⦄ where
  -- The check pass at its end, and how many ANDs it has seen.
  abbrev pub check_end : Source → List Bool → RunState → GammaCheckPass
  check_end src ls st =
      (run_source GammaCheck.ops src (GammaCheck.init (record st { lambda_and = ls }))).1

  module _ (I : Ideal) (L : Layout) (total : ℕ) where
    -- The garbler's state before the check pass fits the tables `I` and the layout `L`, and the masks
    -- `ls` that it received and the witnesses `ms` are those of the tables at each AND.
    pub record Checkable (src : Source) (ls : List Bool) (ms : List Block) (st : RunState)
        : Type 0 where
      pub exclusive : Exclusive L total
      pub phys : st.phys ≡ L.phys
      pub sigma : st.sigma ≡ I.sigma_g
      pub loaded : Ghosted I L total st.num_inputs 0 st.wire_slot st.mask_input
      pub follows : Follows I 0 (first_gate st.num_inputs) src
      pub separated : Separates L.persist L.last_use L.phys L.slots 0 (first_gate st.num_inputs) src
      pub covered : Covers L.persist L.last_use 0 (first_gate st.num_inputs) src
      pub scoped : Scoped (first_gate st.num_inputs) src
      pub wires : (run_source counting src (first_gate st.num_inputs)).1.wid ≤ total
      pub room : (check_end src ls st).ai ≤ length st.m1_t
      pub witnessed : Witnessed I ls ms 0 (first_gate st.num_inputs) src

    -- For every source and state of the garbler that fits the tables, where the masks that it
    -- receives and the given witnesses are those of the tables at each AND: after the check pass it
    -- holds of every output of the source its share of the tables and the masked value, and its
    -- witness of each AND is the given one.
    pub recheck-agrees :
        (src : Source) (ls : List Bool) (ms : List Block) (st : RunState)
        → Checkable src ls ms st
        → let t = recheck src ls st in
          All (Checks I L total t) (run_source counting src (first_gate st.num_inputs)).0
          × ((i : ℕ)
              → i < (check_end src ls st).ai
              → get_or t.m1_t i zero_block ≡ get_or ms i zero_block)
    unfolding recheck GammaCheck.init
    recheck-agrees src ls ms st c =
        let r = GammaCheck.init (record st { lambda_and = ls }) in
        let n = run-count GammaCheck-Numbers src r in
        let done = rechecks I L total c.exclusive ms src 0 r (record {
          phys = c.phys;
          sigma = c.sigma;
          ghosted = c.loaded;
          follows = c.follows;
          separated = c.separated;
          covered = c.covered;
          scoped = c.scoped;
          wires = subst (λ z. z.1.wid ≤ total) n c.wires;
          room = c.room;
          witnessed = c.witnessed;
        }) in
        (done.outs, λ i l. done.agreed i (omega arith) l)
