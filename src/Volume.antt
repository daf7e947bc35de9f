-- ===== src/Volume.antt =====
-- corefs-core/src/storage/ondisk/volume.rs: the blocks of a fresh volume that are never allocated, by
-- `mark_reserved_blocks`, which native.rs repeats. The children model the copies of the superblock, inode
-- records, saving, loading and formatting.
pub mod Reserved
pub mod Copies
pub mod InodeRecords
pub mod InodeUpdate
pub mod State
pub mod PayloadBitmap
pub mod Loaded
pub mod Written
pub mod Laid
pub mod Saved
pub mod Roundtrip
pub mod Format
pub mod Filled
pub mod Regions
pub mod FreshJournal
pub mod Formatted
use corefs.Common.{Method, ◌>>=◌, ◌>>◌, pure}
use corefs.Layout.{LayoutGeometry, primary_superblock_block}
use corefs.Bitmap.{Bitmap, set_bit, set_run}

pub mark_reserved_blocks : LayoutGeometry → Method Bitmap (Unit {0})
mark_reserved_blocks g = do
  _ ← set_bit 0
  _ ← set_bit primary_superblock_block
  set_run g.block_bitmap_start g.block_bitmap_blocks 0
  set_run g.inode_bitmap_start g.inode_bitmap_blocks 0
  set_run g.inode_table_start g.inode_table_blocks 0
  set_run g.journal_start g.journal_blocks 0
  _ ← set_bit g.tertiary_superblock_block
  _ ← set_bit g.secondary_superblock_block
  pure tt
