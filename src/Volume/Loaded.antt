-- ===== src/Volume/Loaded.antt =====
-- Loading reads back a payload that the volume holds.
use corefs.Common.{
  ℕ, ◌+◌, ◌-◌, ◌*◌, ◌%◌, ◌^◌, ◌≤◌, ◌<◌, ◌≡◌, refl, ap, ◌∙◌, true, false, inl, inr, Bool-cases, ltb,
  ◌==◌, min, Option, List, ◌++◌, length, length-append, ok, arith,
}
use corefs.Common.Word.{div_ceil}
use corefs.Bytes.{
  slice, take, drop, take-append, drop-append, to_le, from_le, length-to_le, from_le-to_le, zeros,
}
use corefs.Checksum.{hash}
use corefs.Checksum.Bytewise.{hash-lt}
use corefs.Layout.{LayoutGeometry}
use corefs.Superblock.{Superblock, geometry, encode_block, check_fields}
use corefs.Superblock.Codec.{FitsFields, decode_block-encode_block}
use corefs.Device.{BlockDevice}
use corefs.Device.Lawful.{Laws}
use corefs.Device.Blocks
use corefs.Device.Blocks.{Usable, block_at}
use corefs.Inode.{OnDiskInode}
use corefs.Volume.Copies.{read_sb_with_fallbacks, read_superblock_at}
use corefs.Volume.InodeRecords.{read_inode_record, verify_bitmap, verify_bitmap_integrity}
use corefs.Volume.State.{
  with_trailer, check_trailer, payload_inode_of, is_payload_kind, insert_extent, sort_extents,
  read_extents, read_payload, or_state, load_state,
}

pub length-with_trailer : (bytes : List ℕ) → length (with_trailer bytes) ≡ length bytes + 4
unfolding with_trailer
length-with_trailer bytes =
    length-append bytes (to_le 4 (hash bytes))
    ∙ ap (λ n. length bytes + n) (length-to_le 4 (hash bytes))

-- The checksum behind the payload is found to be its checksum.
check_trailer-with_trailer : (bytes : List ℕ) → check_trailer (with_trailer bytes) ≡ ok bytes
unfolding check_trailer with_trailer
check_trailer-with_trailer bytes =
    let raw = bytes ++ to_le 4 (hash bytes) in
    let long : length raw ≡ length bytes + 4 = length-with_trailer bytes in
    let cut : length raw - 4 ≡ length bytes = omega (arith, long) in
    let front : take (length raw - 4) raw ≡ bytes =
      take-append (length raw - 4) bytes (to_le 4 (hash bytes)) cut in
    let back : from_le (drop (length raw - 4) raw) ≡ hash bytes =
      ap from_le (drop-append (length raw - 4) bytes (to_le 4 (hash bytes)) cut)
      ∙ from_le-to_le 4 (hash bytes) (hash-lt bytes) in
    let enough : ltb (length raw) 4 ≡ false = ground (arith, long) in
    let same : (hash bytes == hash bytes) ≡ true = ground arith in
    rw enough rw back rw front rw same refl

-- The blocks of a payload cover it.
pub payload_blocks_fit : (n : ℕ) → n ≤ div_ceil n 4096 * 4096
payload_blocks_fit n = omega arith

module _ (dev : BlockDevice) (IsValid : dev.Device → Type 0) (contents : dev.Device → List ℕ)
    (laws : Laws dev IsValid contents) where
  verify_bitmap_lem :
      (d : dev.Device)
      → Usable dev IsValid contents laws d
      → (start blocks : ℕ) (bits : List ℕ) → 0 < blocks
      → (start + blocks) * 4096 ≤ (dev.geometry d).capacity_bytes
      → slice (start * 4096) (blocks * 4096) (contents d) ≡ bits
      → verify_bitmap dev (hash bits) start blocks d ≡ ok tt
  unfolding verify_bitmap
  verify_bitmap_lem d u start blocks bits nonempty fit is = elim (Bool-cases (hash bits == 0)) [
    | inl e ↦ rw e refl
    | inr e ↦
        rw e rw
          (
            Blocks.read_blocks dev IsValid contents laws d u start blocks fit nonempty,
            verify_bitmap,
          )
          (rw is (let same : (hash bits == hash bits) ≡ true = ground arith in rw same refl))
  ]

  module _ (g : LayoutGeometry) (sb : Superblock) (now needed : ℕ) (bytes : List ℕ)
      (small : needed < 2 ^ 32) (covers : length (with_trailer bytes) ≤ needed * 4096) where
    abbrev payload : List ℕ
    payload = with_trailer bytes

    -- The payload is read back from the blocks that the inode of slot 0 owns.
    pub read_payload_lem :
        (d : dev.Device)
        → Usable dev IsValid contents laws d
        → 0 < needed
        → (g.data_start + needed) * 4096 ≤ (dev.geometry d).capacity_bytes
        → slice (g.data_start * 4096) (needed * 4096) (contents d)
          ≡ payload ++ zeros (needed * 4096 - length payload)
        → read_payload dev (payload_inode_of g sb now needed payload) d ≡ ok bytes
    unfolding read_payload payload_inode_of is_payload_kind sort_extents insert_extent read_extents
    read_payload_lem d u nonempty fit is =
        let blocks : needed % 2 ^ 32 ≡ needed = omega (arith, small) in
        let rest = zeros (needed * 4096 - length payload) in
        let wanted : min (length payload) (length (payload ++ rest)) ≡ length payload =
          omega (arith, length-append payload rest) in
        let taken : take (min (length payload) (length (payload ++ rest))) (payload ++ rest)
            ≡ payload =
          ap (λ n. take n (payload ++ rest)) wanted
          ∙ take-append (length payload) payload rest refl in
        let all : (length payload == length payload) ≡ true = ground arith in
        rw blocks rw
          (
            Blocks.read_blocks dev IsValid contents laws d u g.data_start needed fit nonempty,
            read_payload,
          )
          rw is rw taken rw all (check_trailer-with_trailer bytes)

  -- A copy of the superblock is read from its block.
  pub read_superblock_at_lem :
      (block : ℕ) (d : dev.Device) (sb : Superblock)
      → Usable dev IsValid contents laws d
      → block * 4096 + 4096 ≤ (dev.geometry d).capacity_bytes
      → FitsFields sb
      → check_fields sb ≡ ok sb
      → block_at dev IsValid contents laws block d ≡ encode_block sb
      → read_superblock_at dev block d ≡ ok sb
  unfolding read_superblock_at
  read_superblock_at_lem block d sb u inside v passes is =
      rw (Blocks.read_block dev IsValid contents laws d u block inside, read_superblock_at) rw is
        (decode_block-encode_block sb v passes)

  -- The first copy of the superblock is read from its block.
  pub read_sb_lem :
      (d : dev.Device) (sb : Superblock)
      → Usable dev IsValid contents laws d
      → 8192 ≤ (dev.geometry d).capacity_bytes
      → FitsFields sb
      → check_fields sb ≡ ok sb
      → block_at dev IsValid contents laws 1 d ≡ encode_block sb
      → read_sb_with_fallbacks dev d ≡ ok sb
  unfolding read_sb_with_fallbacks
  read_sb_lem d sb u big v passes is =
      rw (read_superblock_at_lem 1 d sb u big v passes is, read_sb_with_fallbacks) refl

  -- A volume whose superblock `sb` leads to the payload `bytes`.
  pub record Holds (sb : Superblock) (inode : OnDiskInode) (bytes : List ℕ) (d : dev.Device)
      : Type 0 where
    pub superblock : read_sb_with_fallbacks dev d ≡ ok sb
    pub bitmaps : verify_bitmap_integrity dev sb d ≡ ok tt
    pub owner : read_inode_record dev (geometry sb) sb.payload_inode d ≡ ok inode
    pub payload : read_payload dev inode d ≡ ok bytes

  -- The two bitmaps have the checksums that the superblock says.
  pub verify_bitmap_integrity_lem :
      (d : dev.Device) (sb : Superblock) (bits inode_bits : List ℕ)
      → Usable dev IsValid contents laws d
      → 0 < sb.block_bitmap_blocks
      → (sb.block_bitmap_start + sb.block_bitmap_blocks) * 4096 ≤ (dev.geometry d).capacity_bytes
      → slice (sb.block_bitmap_start * 4096) (sb.block_bitmap_blocks * 4096) (contents d) ≡ bits
      → sb.block_bitmap_crc ≡ hash bits
      → 0 < sb.inode_bitmap_blocks
      → (sb.inode_bitmap_start + sb.inode_bitmap_blocks) * 4096 ≤ (dev.geometry d).capacity_bytes
      → slice (sb.inode_bitmap_start * 4096) (sb.inode_bitmap_blocks * 4096) (contents d)
        ≡ inode_bits
      → sb.inode_bitmap_crc ≡ hash inode_bits
      → verify_bitmap_integrity dev sb d ≡ ok tt
  unfolding verify_bitmap_integrity
  verify_bitmap_integrity_lem d sb bits inode_bits u n h is crc n' h' is' crc' =
      rw crc rw (verify_bitmap_lem d u sb.block_bitmap_start sb.block_bitmap_blocks bits n h is) rw
        crc'
        (verify_bitmap_lem d u sb.inode_bitmap_start sb.inode_bitmap_blocks inode_bits n' h' is')

  module _ {State : Type 0} (serialize : State → Option (List ℕ))
      (deserialize : List ℕ → Option State) where
    pub load_state-Holds :
        {sb : Superblock} {inode : OnDiskInode} {bytes : List ℕ} (d : dev.Device)
        → Holds sb inode bytes d
        → load_state dev serialize deserialize d ≡ or_state (deserialize bytes)
    unfolding load_state
    load_state-Holds {sb} {inode} d h =
        rw (h.superblock, load_state) rw (h.bitmaps, load_state) rw (h.owner, load_state) rw
          (h.payload, load_state) refl
