-- ===== src/Volume/InodeRecords.antt =====
-- The inode records of a volume, read and written one at a time, and the check of the bitmaps'
-- checksums.
use corefs.Common.{
  ℕ, ◌==◌, not, List, if◌then◌else◌, CoreFsResult, ok, err, state, Method, ◌>>=◌, and_then,
}
use corefs.Common.Word.{mul64}
use corefs.Bytes.{slice, splice}
use corefs.Checksum.{hash}
use corefs.Layout.{block_size, inode_size, LayoutGeometry, inode_record_location}
use corefs.Superblock.{Superblock}
use corefs.Inode.{OnDiskInode, encode, decode}
use corefs.Device.{BlockDevice}

module _ (dev : BlockDevice) where
  -- `write_block`
  unfoldable pub write_block : ℕ → List ℕ → Method dev.Device (Unit {0})
  write_block block data_bytes = dev.write_at (mul64 block block_size) data_bytes

  -- A `device.read_at(block * BLOCK_SIZE, BLOCK_SIZE)`
  unfoldable pub read_block : ℕ → dev.Device → CoreFsResult (List ℕ)
  read_block block d = dev.read_at (mul64 block block_size) block_size d

  -- `write_inode_record`
  unfoldable pub write_inode_record :
      LayoutGeometry → ℕ → OnDiskInode → Method dev.Device (Unit {0})
  write_inode_record g index inode = do
    (block, offset) ← λ d. (inode_record_location g index, d)
    block_buf ← λ d. (read_block block d, d)
    encoded ← λ d. (encode inode, d)
    write_block block (splice offset encoded block_buf)

  -- `read_inode_record`
  unfoldable pub read_inode_record : LayoutGeometry → ℕ → dev.Device → CoreFsResult OnDiskInode
  read_inode_record g index d = and_then (inode_record_location g index) λ place.
      let (block, offset) = place in
      and_then (read_block block d) λ block_buf. decode (slice offset inode_size block_buf)

  -- The check of one bitmap: a checksum of 0 is not checked.
  unfoldable pub verify_bitmap : ℕ → ℕ → ℕ → dev.Device → CoreFsResult (Unit {0})
  verify_bitmap crc start blocks d =
      if crc == 0
      then ok tt
      else and_then (dev.read_at (mul64 start block_size) (mul64 blocks block_size) d)
          λ bytes. if not (hash bytes == crc) then err state else ok tt

  -- `verify_bitmap_integrity`
  unfoldable pub verify_bitmap_integrity : Superblock → dev.Device → CoreFsResult (Unit {0})
  verify_bitmap_integrity sb d =
      and_then (verify_bitmap sb.block_bitmap_crc sb.block_bitmap_start sb.block_bitmap_blocks d)
        λ _. verify_bitmap sb.inode_bitmap_crc sb.inode_bitmap_start sb.inode_bitmap_blocks d
