-- ===== src/Engine/Masks.antt =====
-- The garbler's masks in a run of emp-ag2pc/backend/engine.h: only the check pass writes them in
-- pass 2, and a run without an AND has no check pass.
use emp_ag2pc.Prelude.{◌≡◌, refl, ap, ◌∙◌, Bool, true, List, ◌==◌, arith}
use emp_ag2pc.Block.{BlockOps, Block}
use emp_ag2pc.RunState.{RunState}
use emp_ag2pc.Protocol.Defs.{Hashing}
use emp_ag2pc.Pass.Source.{Source, ret, public_bit, and_gate, xor_gate, not_gate, run_source}
use emp_ag2pc.Pass.Garble
use emp_ag2pc.Pass.Garble.{Row, GarblePass, push_row}
use emp_ag2pc.Pass.Lockstep.Rows.{garbled, and_row, and_base}
use emp_ag2pc.Pass.Lockstep.Steps.{core-push_row}
use emp_ag2pc.Engine.Paths.{garble, garbler_path}

module _ ⦃B : BlockOps⦄ where
  masks-public :
      (v : Bool) (p : GarblePass) → (Garble.public_bit v p).1.s.mask_input ≡ p.s.mask_input
  unfolding Garble.public_bit
  masks-public v p = ground arith

  masks-garbled : (src : Source) (p : GarblePass) → (garbled src p).s.mask_input ≡ p.s.mask_input
  unfolding run_source Garble.and_gate Garble.xor_gate Garble.not_gate
  masks-garbled (ret outs) p = refl
  masks-garbled (public_bit v k) p =
      masks-garbled (k (Garble.public_bit v p).0) (Garble.public_bit v p).1 ∙ masks-public v p
  masks-garbled (and_gate a b k) p =
      masks-garbled (k p.wid) (Garble.and_gate a b p).1
      ∙ ap (λ c. c.s.mask_input) (core-push_row (and_row a b p) (and_base a b p))
  masks-garbled (xor_gate a b k) p = masks-garbled (k p.wid) (Garble.xor_gate a b p).1
  masks-garbled (not_gate a k) p = masks-garbled (k p.wid) (Garble.not_gate a p).1

  pub garble-masks : (src : Source) (st : RunState) → (garble src st).1.mask_input ≡ st.mask_input
  unfolding garble Garble.init Garble.end
  garble-masks src st =
      end_masks (garbled src (Garble.init st)) ∙ masks-garbled src (Garble.init st)
    where
      end_masks : (p : GarblePass) → (Garble.end p).s.mask_input ≡ p.s.mask_input
      end_masks p = ground arith

  -- In a run without an AND, for every source, the garbler's path leaves the masks that pass 1 left:
  -- whatever the evaluator's masks of the wires are, the garbler does not compute them.
  pub garbler_path-stale_masks :
      (H : Hashing Block) (src : Source) (lambda_and : List Bool) (st : RunState)
      → (st.num_ands == 0) ≡ true
      → (garbler_path H src lambda_and st).0.mask_input ≡ st.mask_input
  unfolding garbler_path
  garbler_path-stale_masks H src lambda_and st e = rw e (garble-masks src st)
