-- ===== src/Volume/Format.antt =====
-- Formatting a device: the regions of an empty volume, its superblocks and its journal.
use corefs.Common.{
  ℕ, zero, suc, ◌+◌, ◌-◌, ◌*◌, ◌/◌, ltb, if◌then◌else◌, min, List, [], Method, ◌>>=◌, ◌>>◌, pure,
}
use corefs.Common.Word.{add64}
use corefs.Bytes.{splice, zeros}
use corefs.Layout.{block_size, inode_size, inodes_per_block, LayoutGeometry, LayoutParams, plan}
use corefs.Inode.{OnDiskInode, system_payload, unused_inode, encode}
use corefs.Superblock.{Superblock, for_new_volume}
use corefs.Device.{BlockDevice}
use corefs.Journal.Transaction as JournalTransaction
use corefs.Volume.{mark_reserved_blocks}
use corefs.Volume.InodeRecords.{write_block}
use corefs.Volume.State.{write_maps, write_blocks, write_superblocks}

pub record FormatOptions : Type 0 where
  pub label : List ℕ
  pub uuid : List ℕ
  pub inode_count : ℕ
  pub journal_blocks : ℕ

pub record FormatReport : Type 0 where
  pub geometry : LayoutGeometry
  pub uuid : List ℕ
  pub generation : ℕ

-- The inode of slot 0 of an empty volume
unfoldable pub system_inode : ℕ → OnDiskInode
system_inode now = record {
  version = 1;
  kind = system_payload;
  mode = 384;
  uid = 0;
  gid = 0;
  link_count = 1;
  flags = 0;
  size_bytes = 0;
  blocks_allocated = 0;
  created_at = now;
  modified_at = now;
  changed_at = now;
  accessed_at = now;
  generation = 1;
  extents = [];
  index_block_addr = 0;
  xattr_block_addr = 0;
  domain_inode_id = 0;
  data_crc = 0;
}

-- The loop over the slots of the table, from slot `i` on for `n` rounds
unfoldable pub fill_slots : ℕ → ℕ → List ℕ → List ℕ → List ℕ
fill_slots zero i slot table = table
fill_slots (suc n) i slot table = fill_slots n (i + 1) slot (splice (i * inode_size) slot table)

-- The bytes of the inode table, from the bytes of an unused slot and of slot 0
unfoldable pub inode_table_bytes : LayoutGeometry → List ℕ → List ℕ → List ℕ
inode_table_bytes g slot system = splice 0 system (
    fill_slots (min g.inode_count (g.inode_table_blocks * inodes_per_block)) 0 slot
      (zeros (g.inode_table_blocks * block_size)))

module _ (dev : BlockDevice) where
  -- The loop of `zero_fill_region`, on fuel, which returns how many blocks it has written
  unfoldable pub zero_fill_from : ℕ → ℕ → ℕ → ℕ → Method dev.Device ℕ
  zero_fill_from zero start written blocks = pure written
  zero_fill_from (suc fuel) start written blocks =
      let count = min (blocks - written) 64 in
      let rest = zero_fill_from fuel start (written + count) blocks in
      if ltb written blocks
      then (write_blocks dev (add64 start written) (zeros (count * block_size)) >>= λ _. rest)
      else pure written

  -- `zero_fill_region`: a round writes at least one block.
  unfoldable pub zero_fill_region : ℕ → ℕ → Method dev.Device (Unit {0})
  zero_fill_region start blocks = do _ ← zero_fill_from blocks start 0 blocks; pure tt

  -- The part of `format_device` that writes block 0 and the bitmaps
  unfoldable pub write_bitmaps : LayoutGeometry → Method dev.Device (Unit {0})
  write_bitmaps g = do
    write_block dev 0 (zeros block_size)
    _ ← write_maps dev g (mark_reserved_blocks g)
    pure tt

  -- The part of `format_device` that writes the inode table and zeroes the journal
  unfoldable pub write_table : LayoutGeometry → ℕ → Method dev.Device (Unit {0})
  write_table g now = do
    slot ← λ d. (encode unused_inode, d)
    system ← λ d. (encode (system_inode now), d)
    write_blocks dev g.inode_table_start (inode_table_bytes g slot system)
    zero_fill_region g.journal_start g.journal_blocks

  -- The part of `format_device` from the superblocks on
  unfoldable pub write_roots : LayoutGeometry → Superblock → Method dev.Device FormatReport
  write_roots g sb = do
    write_superblocks dev g sb
    _ ← JournalTransaction.format dev sb
    dev.sync
    pure (record { geometry = g; uuid = sb.uuid; generation = sb.generation })

  -- The parameters that `format_device` hands to `plan`
  abbrev pub params_of : dev.Device → FormatOptions → LayoutParams
  params_of d options = record {
    total_blocks = (dev.geometry d).capacity_bytes / block_size;
    inode_count = options.inode_count;
    journal_blocks = options.journal_blocks;
  }

  -- `format_device`, with the time that it reads from the clock
  unfoldable pub format_device : FormatOptions → ℕ → Method dev.Device FormatReport
  format_device options now = do
    g ← λ d. (plan (params_of d options), d)
    write_bitmaps g
    write_table g now
    write_roots g (for_new_volume g options.uuid options.label now)
