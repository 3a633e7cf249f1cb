-- ===== src/Engine/Stream.antt =====
-- The rows of pass 2 on their way from the garbler to the evaluator: the chunks of
-- emp-ag2pc/backend/pass_ctx.h fit their buffers, and the receiver cuts the stream where the sender did.
use emp_ag2pc.Prelude.{◌<◌, ◌≤◌, List, length}
use emp_ag2pc.Block.{BlockOps}
use emp_ag2pc.RunState.{RunState}
use emp_ag2pc.Pass.Source.{Source}
use emp_ag2pc.Pass.Garble
use emp_ag2pc.Pass.Garble.{Row, capacity, push_row}

module _ ⦃B : BlockOps⦄ where
  -- A chunk has a row, and the buffers of the run have room for it.
  abbrev pub Fits : RunState → List Row → Type 0
  Fits st rows = (0 < length rows) × (length rows ≤ capacity st)
