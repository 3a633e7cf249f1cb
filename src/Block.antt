-- ===== src/Block.antt =====
-- The 128-bit `block` of emp-tool as an interface, and LSB, LSB1 of emp-ag2pc/backend/helper.h.
-- The type and its operators come from the processor and emp-tool, which this repository only
-- calls: `^` and `&` work on each bit, `select_mask[b]` is all zeros or all ones, and `bit` is
-- what `_mm_extract_epi8(b, 0)` and a shift read.
mod Defs
mod Laws
pub use Defs.{BlockOps, Block, zero_block, ◌⊕◌, band, select_mask}
unfoldable pub use Defs.{lsb, lsb1}
pub use Laws.*
