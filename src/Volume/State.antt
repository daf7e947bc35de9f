-- ===== src/Volume/State.antt =====
-- Saving the state of the program in a volume, as one run of blocks that the inode in slot 0 owns, and
-- loading it. The state, and its bytes by the bincode crate, are parameters.
use corefs.Common.{
  ℕ, ◌+◌, ◌-◌, ◌*◌, Bool, true, false, not, ltb, ◌==◌, ◌&&◌, if◌then◌else◌, min, Option, none, some,
  List, [], ◌∷◌, ◌++◌, length, leb, count_below, CoreFsResult, ok, err, state, Method, ◌>>=◌, ◌>>◌,
  pure, throw, and_then,
}
use corefs.Common.Word.{add64, sub64, mul64, as_u32, div_ceil}
use corefs.Bytes.{take, drop, to_le, from_le, zeros}
use corefs.Checksum.{hash}
use corefs.Layout.{block_size, LayoutGeometry, primary_superblock_block}
use corefs.Bitmap
use corefs.Bitmap.{Bitmap, is_set, set_bit, set_run}
use corefs.Extent.{Extent}
use corefs.Inode.{OnDiskInode, OnDiskKind, unused, file, directory, symlink, system_payload}
use corefs.Superblock.{Superblock, geometry, encode_block}
use corefs.Device.{BlockDevice}
use corefs.Volume.{mark_reserved_blocks}
use corefs.Volume.Copies.{read_sb_with_fallbacks}
use corefs.Volume.InodeRecords.{
  write_block, write_inode_record, read_inode_record, verify_bitmap_integrity,
}

-- `state.map_err(|e| CoreFsError::State(..))?`
unfoldable pub or_state {ℓ} : {A : Type ℓ} → Option A → CoreFsResult A
or_state none = err state
or_state (some a) = ok a

-- `system_inode.kind != OnDiskKind::SystemPayload`
unfoldable pub is_payload_kind : OnDiskKind → Bool
is_payload_kind unused = false
is_payload_kind file = false
is_payload_kind directory = false
is_payload_kind symlink = false
is_payload_kind system_payload = true

-- The payload with the checksum behind it
unfoldable pub with_trailer : List ℕ → List ℕ
with_trailer bytes = bytes ++ to_le 4 (hash bytes)

-- The bytes in front of the checksum, if it is theirs
unfoldable pub check_trailer : List ℕ → CoreFsResult (List ℕ)
check_trailer raw =
    if ltb (length raw) 4
    then err state
    else if not (from_le (drop (length raw - 4) raw) == hash (take (length raw - 4) raw))
    then err state
    else ok (take (length raw - 4) raw)

-- The bitmap of the blocks after a save: reserved blocks and the payload's run
unfoldable pub mark_payload : LayoutGeometry → ℕ → Method Bitmap (Unit {0})
mark_payload g needed = do mark_reserved_blocks g; set_run g.data_start needed 0

-- `inode_bitmap.set(0)?`
unfoldable pub reserve_slot_zero : Method Bitmap (Unit {0})
reserve_slot_zero = do _ ← set_bit 0; pure tt

-- What a fresh bitmap is after `m`, if that succeeds
unfoldable pub on_fresh : ℕ → Method Bitmap (Unit {0}) → CoreFsResult Bitmap
on_fresh capacity m = let (r, bm) = m (Bitmap.new capacity) in and_then r λ _. ok bm

-- `bitmap.is_set(b).unwrap_or(true)`
unfoldable pub is_set_or_true : Bitmap → ℕ → Bool
is_set_or_true bm b = elim (is_set bm b) [ ok s ↦ s | err _ ↦ true ]

-- `allocated_in_data`
unfoldable pub allocated_in_data : LayoutGeometry → Bitmap → ℕ
allocated_in_data g bm =
    count_below (g.total_blocks - g.data_start) (λ i. is_set_or_true bm (g.data_start + i))

-- The inode of the payload, in slot 0
unfoldable pub payload_inode_of : LayoutGeometry → Superblock → ℕ → ℕ → List ℕ → OnDiskInode
payload_inode_of g sb now needed payload = record {
  version = 1;
  kind = system_payload;
  mode = 384;
  uid = 0;
  gid = 0;
  link_count = 1;
  flags = 0;
  size_bytes = length payload;
  blocks_allocated = needed;
  created_at = sb.created_at;
  modified_at = now;
  changed_at = now;
  accessed_at = now;
  generation = add64 sb.generation 1;
  extents =
      record { logical_block = 0; length_blocks = as_u32 needed; physical_block = g.data_start }
      ∷ [];
  index_block_addr = 0;
  xattr_block_addr = 0;
  domain_inode_id = 0;
  data_crc = hash payload;
}

-- The superblock of the next generation. `STATE_CLEAN` and `LAYOUT_MODE_BLOB` are 0.
unfoldable pub saved_superblock : LayoutGeometry → Superblock → ℕ → Bitmap → Bitmap → Superblock
saved_superblock g sb now block_bitmap inode_bitmap = record sb {
  generation = add64 sb.generation 1;
  last_write_at = now;
  state = 0;
  payload_inode = 0;
  free_blocks = sub64 g.data_blocks (allocated_in_data g block_bitmap);
  free_inodes = sub64 g.inode_count 1;
  block_bitmap_crc = hash block_bitmap.bits;
  inode_bitmap_crc = hash inode_bitmap.bits;
  layout_mode = 0;
  root_inode = 0;
}

pub record SaveReport : Type 0 where
  pub generation : ℕ
  pub payload_bytes : ℕ
  pub payload_blocks : ℕ

-- `sort_by_key(|e| e.logical_block)`, which keeps equal keys in their order
unfoldable pub insert_extent : Extent → List Extent → List Extent
insert_extent ext [] = ext ∷ []
insert_extent ext (x ∷ xs) =
    if leb ext.logical_block x.logical_block then ext ∷ (x ∷ xs) else x ∷ insert_extent ext xs

unfoldable pub sort_extents : List Extent → List Extent
sort_extents [] = []
sort_extents (ext ∷ exts) = insert_extent ext (sort_extents exts)

module _ (dev : BlockDevice) where
  -- The loop of `trim_extents`, which ignores what `trim` answers.
  unfoldable pub trim_each : List Extent → Method dev.Device (Unit {0})
  trim_each [] d = (ok tt, d)
  trim_each (ext ∷ exts) d = trim_each exts (
      if ext.length_blocks == 0
      then d
      else (dev.trim (mul64 ext.physical_block block_size) (mul64 ext.length_blocks block_size)
          d).1)

  -- `trim_extents`
  unfoldable pub trim_extents : List Extent → Method dev.Device (Unit {0})
  trim_extents exts d = if not (dev.supports_trim d) then (ok tt, d) else trim_each exts d

  -- The trimming of the payload of the generation before
  unfoldable pub trim_old : CoreFsResult OnDiskInode → Method dev.Device (Unit {0})
  trim_old (err _) d = (ok tt, d)
  trim_old (ok old) d =
      if is_payload_kind old.kind && not (length old.extents == 0)
      then trim_extents old.extents d
      else (ok tt, d)

  -- The three copies of the superblock
  unfoldable pub write_superblocks : LayoutGeometry → Superblock → Method dev.Device (Unit {0})
  write_superblocks g sb = do
    write_block dev primary_superblock_block (encode_block sb)
    write_block dev g.tertiary_superblock_block (encode_block sb)
    write_block dev g.secondary_superblock_block (encode_block sb)

  -- `write_blocks`
  unfoldable pub write_blocks : ℕ → List ℕ → Method dev.Device (Unit {0})
  write_blocks start bytes = dev.write_at (mul64 start block_size) bytes

  -- The loop over the extents of `load_state`, with what is still wanted and what was read
  unfoldable pub read_extents : List Extent → ℕ → List ℕ → dev.Device → CoreFsResult (List ℕ)
  read_extents [] remaining raw d = ok raw
  read_extents (ext ∷ exts) remaining raw d =
      and_then
        (dev.read_at (mul64 ext.physical_block block_size) (mul64 ext.length_blocks block_size) d)
        λ block_data.
          let wanted = min remaining (length block_data) in
          read_extents exts (remaining - wanted) (raw ++ take wanted block_data) d

  -- The payload that an inode owns
  unfoldable pub read_payload : OnDiskInode → dev.Device → CoreFsResult (List ℕ)
  read_payload inode d =
      if not (is_payload_kind inode.kind)
      then err state
      else if length inode.extents == 0
      then err state
      else and_then (read_extents (sort_extents inode.extents) inode.size_bytes [] d)
          λ raw. if not (length raw == inode.size_bytes) then err state else check_trailer raw

  -- Writing both bitmaps, the one of the blocks as `mark` marks it
  unfoldable pub write_maps :
      LayoutGeometry → Method Bitmap (Unit {0}) → Method dev.Device (Bitmap × Bitmap)
  write_maps g mark = do
    block_bitmap ← λ d. (on_fresh g.total_blocks mark, d)
    write_blocks g.block_bitmap_start block_bitmap.bits
    inode_bitmap ← λ d. (on_fresh g.inode_count reserve_slot_zero, d)
    write_blocks g.inode_bitmap_start inode_bitmap.bits
    pure (block_bitmap, inode_bitmap)

  -- The part of `save_state` that writes the bitmaps, the payload and its inode
  unfoldable pub write_payload :
      LayoutGeometry → Superblock → ℕ → ℕ → List ℕ → Method dev.Device (Bitmap × Bitmap)
  write_payload g sb now needed payload = do
    maps ← write_maps g (mark_payload g needed)
    write_blocks g.data_start (payload ++ zeros (needed * block_size - length payload))
    write_inode_record dev g 0 (payload_inode_of g sb now needed payload)
    pure maps

  -- The part of `save_state` that ends with the superblocks
  unfoldable pub write_generation :
      LayoutGeometry → Superblock → ℕ → ℕ → ℕ → Bitmap × Bitmap → Method dev.Device SaveReport
  write_generation g sb now needed bytes (block_bitmap, inode_bitmap) = do
    write_superblocks g (saved_superblock g sb now block_bitmap inode_bitmap)
    dev.sync
    pure (record {
      generation = add64 sb.generation 1;
      payload_bytes = bytes;
      payload_blocks = needed;
    })

  -- `save_state` from the number of blocks on, with the payload and its checksum
  unfoldable pub save_payload :
      LayoutGeometry → Superblock → ℕ → List ℕ → Method dev.Device SaveReport
  save_payload g sb now payload =
      let needed = div_ceil (length payload) block_size in
      if ltb g.data_blocks needed then throw state else do
        bitmaps ← write_payload g sb now needed payload
        write_generation g sb now needed (length payload) bitmaps

  module _ {State : Type 0} (serialize : State → Option (List ℕ))
      (deserialize : List ℕ → Option State) where
    -- `save_state`, with the time that it reads from the clock
    unfoldable pub save_state : State → ℕ → Method dev.Device SaveReport
    save_state s now = do
      sb ← λ d. (read_sb_with_fallbacks dev d, d)
      λ d. trim_old (read_inode_record dev (geometry sb) sb.payload_inode d) d
      bytes ← λ d. (or_state (serialize s), d)
      save_payload (geometry sb) sb now (with_trailer bytes)

    -- `load_state`
    unfoldable pub load_state : dev.Device → CoreFsResult State
    load_state d = and_then (read_sb_with_fallbacks dev d) λ sb.
        and_then (verify_bitmap_integrity dev sb d) λ _.
          and_then (read_inode_record dev (geometry sb) sb.payload_inode d)
            λ inode. and_then (read_payload inode d) λ bytes. or_state (deserialize bytes)
