-- ===== src/Extent.antt =====
-- `Extent` of corefs-core/src/storage/ondisk/inode.rs: a run of blocks that an inode owns.
pub mod Bytes
use corefs.Common.{ℕ, ◌+◌, ◌<◌, ◌^◌, Bool, ltb, leb, ◌&&◌}
use corefs.Common.Word.{add64}

pub record Extent : Type 0 where
  pub logical_block : ℕ
  pub length_blocks : ℕ
  pub physical_block : ℕ

-- `ext.physical_block + i`
abbrev pub block_of : Extent → ℕ → ℕ
block_of ext i = add64 ext.physical_block i

-- The extent does not run past the last 64-bit block number.
abbrev pub FitsWord : Extent → Type 0
FitsWord ext = ext.physical_block + ext.length_blocks < 2 ^ 64

-- `b` is one of the first `n` blocks from `p`.
abbrev pub in_run : ℕ → ℕ → ℕ → Bool
in_run p n b = leb p b && ltb b (p + n)

abbrev pub in_extent : Extent → ℕ → Bool
in_extent ext b = in_run ext.physical_block ext.length_blocks b
