-- ===== src/Layout/Plan.antt =====
-- What the geometry that `LayoutGeometry::plan` accepts promises.
use corefs.Common.{
  ℕ, ◌+◌, ◌*◌, ◌/◌, ◌≤◌, ◌<◌, ◌^◌, ◌≡◌, false, arith, CoreFsResult, ok, err, invalid_input,
}
use corefs.Common.Word.{div_ceil}
use corefs.Layout.{
  LayoutParams, LayoutGeometry, geometry, plan, with_defaults, is_data_block, inode_record_location,
  block_size, inode_size, bits_per_bitmap_block, inodes_per_block,
}

-- What the parameters need so that no sum of `plan` wraps around.
abbrev pub FitsWords : LayoutParams → Type 0
FitsWords p = (p.total_blocks < 2 ^ 64) × (p.inode_count < 2 ^ 63) × (p.journal_blocks < 2 ^ 62)

-- The regions follow one another from block 2 to the end of the volume, and each is wide enough.
pub record IsOrdered (g : LayoutGeometry) : Type 0 where
  pub bitmap_first : g.block_bitmap_start ≡ 2
  pub inode_bitmap_next : g.inode_bitmap_start ≡ g.block_bitmap_start + g.block_bitmap_blocks
  pub table_next : g.inode_table_start ≡ g.inode_bitmap_start + g.inode_bitmap_blocks
  pub journal_next : g.journal_start ≡ g.inode_table_start + g.inode_table_blocks
  pub data_next : g.data_start ≡ g.journal_start + g.journal_blocks
  pub data_last : g.data_start + g.data_blocks ≡ g.total_blocks
  pub room : 4 ≤ g.data_blocks
  pub bitmap_wide : g.total_blocks ≤ g.block_bitmap_blocks * bits_per_bitmap_block
  pub inode_bitmap_wide : g.inode_count ≤ g.inode_bitmap_blocks * bits_per_bitmap_block
  pub table_wide : g.inode_count ≤ g.inode_table_blocks * inodes_per_block
  pub secondary_last : g.secondary_superblock_block + 1 ≡ g.total_blocks
  pub tertiary_middle : g.tertiary_superblock_block ≡ g.total_blocks / 2
  pub small : g.total_blocks < 2 ^ 64

-- A geometry that `plan` accepts has its regions in order from block 2 to the end of the volume, at
-- least four data blocks, bitmaps and an inode table that are wide enough, and its redundant
-- superblocks at the last and the middle block, if the parameters stay below the word bounds.
pub plan-IsOrdered :
    (p : LayoutParams) {g : LayoutGeometry} → FitsWords p → plan p ≡ ok g → IsOrdered g
unfolding plan
plan-IsOrdered p f e = ground arith

-- An accepted plan keeps the sizes that it was asked for.
pub plan_sizes :
    (p : LayoutParams) {g : LayoutGeometry}
    → plan p ≡ ok g
    → (g.total_blocks ≡ p.total_blocks) × (g.journal_blocks ≡ p.journal_blocks)
unfolding plan geometry
plan_sizes p e = ground arith

-- The bitmaps of an accepted plan have the sizes of fresh bitmaps, and there is an inode.
pub record IsFitted (g : LayoutGeometry) : Type 0 where
  pub block_bitmap : g.block_bitmap_blocks ≡ div_ceil g.total_blocks bits_per_bitmap_block
  pub inode_bitmap : g.inode_bitmap_blocks ≡ div_ceil g.inode_count bits_per_bitmap_block
  pub some_block : 0 < g.total_blocks
  pub some_inode : 0 < g.inode_count
  pub few_inodes : g.inode_count < 2 ^ 63

pub plan-IsFitted :
    (p : LayoutParams) {g : LayoutGeometry} → FitsWords p → plan p ≡ ok g → IsFitted g
unfolding plan
plan-IsFitted p f e = ground arith

-- The place of inode record `index`: a whole record in one block of the inode table.
pub record InTable (g : LayoutGeometry) (index block offset : ℕ) : Type 0 where
  pub after_start : g.inode_table_start ≤ block
  pub before_end : block < g.journal_start
  pub whole : offset + inode_size ≤ block_size
  pub position :
      (block * block_size + offset) ≡ g.inode_table_start * block_size + index * inode_size

-- What `inode_record_location` answers.
abbrev pub Located : LayoutGeometry → ℕ → CoreFsResult (ℕ × ℕ) → Type 0
Located g index (ok (block, offset)) = (index < g.inode_count) × InTable g index block offset
Located g index (err e) = (g.inode_count ≤ index) × (e ≡ invalid_input)

-- In an ordered geometry `inode_record_location` places exactly the indices below the inode count,
-- each at its own 256 bytes of the inode table, in order and within one block.
pub inode_record_location-Located :
    (g : LayoutGeometry) (index : ℕ) → IsOrdered g → Located g index (inode_record_location g index)
unfolding inode_record_location
inode_record_location-Located g index o = ground arith

-- The tertiary superblock of a small volume lies in the inode table or the journal.
pub record Overlaps (g : LayoutGeometry) : Type 0 where
  pub not_data : is_data_block g g.tertiary_superblock_block ≡ false
  pub in_table_or_journal : g.inode_table_start ≤ g.tertiary_superblock_block
  pub before_data : g.tertiary_superblock_block < g.data_start

-- For every volume of 328 to 647 blocks `plan` accepts the default parameters, and the middle
-- block, where the tertiary superblock is written, lies in the inode table or the journal.
pub plan-with_defaults_overlap :
    (n : ℕ)
    → 328 ≤ n
    → n < 648
    → (g : LayoutGeometry) × (plan (with_defaults n) ≡ ok g) × Overlaps g
unfolding plan with_defaults is_data_block
plan-with_defaults_overlap n lo hi = (geometry (with_defaults n), ground arith, ground arith)
