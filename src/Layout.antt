-- ===== src/Layout.antt =====
-- corefs-core/src/storage/ondisk/layout.rs: where each region of a volume lies.
pub mod Plan
use corefs.Common.{
  ℕ, ◌*◌, ◌/◌, ◌%◌, Bool, ltb, leb, ◌==◌, ◌&&◌, if◌then◌else◌, CoreFsResult, ok, err, invalid_input,
}
use corefs.Common.Word.{add64, sub64, mul64, div_ceil}

-- `BLOCK_SIZE`, `INODE_SIZE`, `INODES_PER_BLOCK`, `BITS_PER_BITMAP_BLOCK`
abbrev pub block_size : ℕ
block_size = 4096

abbrev pub inode_size : ℕ
inode_size = 256

abbrev pub inodes_per_block : ℕ
inodes_per_block = block_size / inode_size

abbrev pub bits_per_bitmap_block : ℕ
bits_per_bitmap_block = block_size * 8

abbrev pub min_volume_blocks : ℕ
min_volume_blocks = 64

abbrev pub default_inode_count : ℕ
default_inode_count = 4096

abbrev pub default_journal_blocks : ℕ
default_journal_blocks = 64

abbrev pub primary_superblock_block : ℕ
primary_superblock_block = 1

pub record LayoutParams : Type 0 where
  pub total_blocks : ℕ
  pub inode_count : ℕ
  pub journal_blocks : ℕ

-- `LayoutParams::with_defaults`
unfoldable pub with_defaults : ℕ → LayoutParams
with_defaults n = record {
  total_blocks = n;
  inode_count = default_inode_count;
  journal_blocks = default_journal_blocks;
}

pub record LayoutGeometry : Type 0 where
  pub total_blocks : ℕ
  pub block_bitmap_start : ℕ
  pub block_bitmap_blocks : ℕ
  pub inode_bitmap_start : ℕ
  pub inode_bitmap_blocks : ℕ
  pub inode_table_start : ℕ
  pub inode_table_blocks : ℕ
  pub inode_count : ℕ
  pub journal_start : ℕ
  pub journal_blocks : ℕ
  pub data_start : ℕ
  pub data_blocks : ℕ
  pub secondary_superblock_block : ℕ
  pub tertiary_superblock_block : ℕ

-- The positions that `plan` computes, in the order of its `let` lines.
geometry : LayoutParams → LayoutGeometry
geometry p =
    let block_bitmap_start = add64 primary_superblock_block 1 in
    let block_bitmap_blocks = div_ceil p.total_blocks bits_per_bitmap_block in
    let inode_bitmap_start = add64 block_bitmap_start block_bitmap_blocks in
    let inode_bitmap_blocks = div_ceil p.inode_count bits_per_bitmap_block in
    let inode_table_start = add64 inode_bitmap_start inode_bitmap_blocks in
    let inode_table_blocks = div_ceil p.inode_count inodes_per_block in
    let journal_start = add64 inode_table_start inode_table_blocks in
    let data_start = add64 journal_start p.journal_blocks in
    record {
      total_blocks = p.total_blocks;
      block_bitmap_start = block_bitmap_start;
      block_bitmap_blocks = block_bitmap_blocks;
      inode_bitmap_start = inode_bitmap_start;
      inode_bitmap_blocks = inode_bitmap_blocks;
      inode_table_start = inode_table_start;
      inode_table_blocks = inode_table_blocks;
      inode_count = p.inode_count;
      journal_start = journal_start;
      journal_blocks = p.journal_blocks;
      data_start = data_start;
      data_blocks = sub64 p.total_blocks data_start;
      secondary_superblock_block = sub64 p.total_blocks 1;
      tertiary_superblock_block = p.total_blocks / 2;
    }

-- `LayoutGeometry::plan`. The subtractions run only where the tests have passed.
unfoldable pub plan : LayoutParams → CoreFsResult LayoutGeometry
unfolding geometry
plan p =
    if ltb p.total_blocks min_volume_blocks
    then err invalid_input
    else if p.inode_count == 0
    then err invalid_input
    else if ltb p.total_blocks (add64 (geometry p).data_start 4)
    then err invalid_input
    else ok (geometry p)

-- `LayoutGeometry::block_offset`
unfoldable pub block_offset : ℕ → ℕ
block_offset block = mul64 block block_size

-- `LayoutGeometry::is_data_block`
unfoldable pub is_data_block : LayoutGeometry → ℕ → Bool
is_data_block g block = leb g.data_start block && ltb block g.total_blocks

-- `LayoutGeometry::inode_record_location`
unfoldable pub inode_record_location : LayoutGeometry → ℕ → CoreFsResult (ℕ × ℕ)
inode_record_location g index =
    if leb g.inode_count index
    then err invalid_input
    else ok (
      add64 g.inode_table_start (index / inodes_per_block),
      index % inodes_per_block * inode_size,
    )
