-- ===== src/Engine/Paths.antt =====
-- garbler_path_ and evaluator_path_ of emp-ag2pc/backend/engine.h: pass 2 at each party and the
-- c_gamma exchange.
use emp_ag2pc.Prelude.{
  Bool, List, Option, none, some, take, ◌==◌, if◌then◌else◌, ◌>>=◌, ◌>>◌, guard,
}
use emp_ag2pc.Block.{BlockOps, Block}
use emp_ag2pc.RunState.{RunState}
use emp_ag2pc.Protocol.Defs.{Hashing}
use emp_ag2pc.Pass.Source.{Source, run_source}
use emp_ag2pc.Pass.Garble
use emp_ag2pc.Pass.Evaluate
use emp_ag2pc.Pass.GammaCheck

module _ ⦃B : BlockOps⦄ where
  -- The garbler's first pass: the chunks that it sends, and its state.
  unfoldable pub garble : Source → RunState → List (List Garble.Row) × RunState
  garble src st =
      let (outs, gp) = run_source Garble.ops src (Garble.init st) in
      let p = Garble.end gp in (p.published, p.s)

  -- The garbler's state after the check pass, for the masks that it received.
  unfoldable pub recheck : Source → List Bool → RunState → RunState
  recheck src lambda_and st =
      let (outs, pp) =
        run_source GammaCheck.ops src (GammaCheck.init (record st { lambda_and = lambda_and })) in
      pp.s

  unfoldable pub evaluate : Source → List (List Garble.Row) → RunState → RunState
  evaluate src chunks st =
      let (outs, ep) = run_source Evaluate.ops src (Evaluate.init chunks st) in ep.s

  -- The witnesses that are hashed.
  abbrev pub witnesses : RunState → List Block
  witnesses st = take st.num_ands st.m1_t

  module _ (H : Hashing Block) where
    -- The garbler's path for the masks that it receives: its state, and the digest that it sends.
    unfoldable pub garbler_path : Source → List Bool → RunState → RunState × Option H.Digest
    garbler_path src lambda_and st =
        let g = garble src st in
        if st.num_ands == 0
        then (g.1, none)
        else (let t = recheck src lambda_and g.1 in (t, some (H.hash_once (witnesses t))))

    -- The evaluator's path for the chunks and the digest that it receives, where it has ANDs.
    unfoldable pub evaluator_path :
        Source → List (List Garble.Row) → Option H.Digest → RunState → Option RunState
    evaluator_path src chunks digest st =
        let t = evaluate src chunks st in
        if st.num_ands == 0
        then some t
        else (do d ← digest; guard (H.same (H.hash_once (witnesses t)) d); some t)

    -- Both parties: the chunks and the digest go to the evaluator, its masks to the garbler.
    unfoldable pub exchange : Source → RunState → RunState → Option (RunState × RunState)
    exchange src st_g st_e = do
      let chunks = (garble src st_g).0
      let e = evaluate src chunks st_e
      let g = garbler_path src (take st_e.num_ands e.lambda_and) st_g
      t ← evaluator_path src chunks g.1 st_e
      some (g.0, t)
