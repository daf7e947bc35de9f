-- ===== src/Superblock/Codec.antt =====
-- A superblock is read back from its block.
use mathlib.Core.List.{append_assoc}
use corefs.Common.{
  ℕ, ◌<◌, ◌≡◌, refl, sym, ap, ◌∙◌, true, List, [], ◌++◌, ◌==◌, ok, length, length-append, arith,
}
use corefs.Bytes.{word, length-to_le}
use corefs.Bytes.Reader.{number-to_le, raw-append}
use corefs.Sealed.{stored_crc, expected_crc, Found, Found-seal}
use corefs.Superblock.{Superblock, written, encode_block, read_fields, check_fields, decode_block}

-- Every field fits in its place.
pub record FitsFields (sb : Superblock) : Type 0 where
  pub magic : sb.magic < word 8
  pub version_major : sb.version_major < word 2
  pub version_minor : sb.version_minor < word 2
  pub block_size : sb.block_size < word 4
  pub total_blocks : sb.total_blocks < word 8
  pub free_blocks : sb.free_blocks < word 8
  pub total_inodes : sb.total_inodes < word 8
  pub free_inodes : sb.free_inodes < word 8
  pub block_bitmap_start : sb.block_bitmap_start < word 8
  pub block_bitmap_blocks : sb.block_bitmap_blocks < word 8
  pub inode_bitmap_start : sb.inode_bitmap_start < word 8
  pub inode_bitmap_blocks : sb.inode_bitmap_blocks < word 8
  pub inode_table_start : sb.inode_table_start < word 8
  pub inode_table_blocks : sb.inode_table_blocks < word 8
  pub journal_start : sb.journal_start < word 8
  pub journal_blocks : sb.journal_blocks < word 8
  pub data_start : sb.data_start < word 8
  pub secondary_superblock_block : sb.secondary_superblock_block < word 8
  pub tertiary_superblock_block : sb.tertiary_superblock_block < word 8
  pub feature_compat : sb.feature_compat < word 8
  pub feature_incompat : sb.feature_incompat < word 8
  pub feature_ro_compat : sb.feature_ro_compat < word 8
  pub uuid : length sb.uuid ≡ 16
  pub label : length sb.label ≡ 32
  pub created_at : sb.created_at < word 8
  pub last_mount_at : sb.last_mount_at < word 8
  pub last_write_at : sb.last_write_at < word 8
  pub mount_count : sb.mount_count < word 4
  pub generation : sb.generation < word 8
  pub state : sb.state < word 4
  pub payload_inode : sb.payload_inode < word 8
  pub block_bitmap_crc : sb.block_bitmap_crc < word 4
  pub inode_bitmap_crc : sb.inode_bitmap_crc < word 4
  pub layout_mode : sb.layout_mode < word 4
  pub root_inode : sb.root_inode < word 8

written-rest : (sb : Superblock) (rest : List ℕ) → written sb rest ≡ written sb [] ++ rest
unfolding written
written-rest sb rest = simp append_assoc

length-written : (sb : Superblock) → FitsFields sb → length (written sb []) ≡ 276
unfolding written
length-written sb v = simp (length-append, length-to_le, v.uuid, v.label) refl

read_fields-written :
    (sb : Superblock) (rest : List ℕ) → FitsFields sb → read_fields (written sb rest) ≡ (sb, rest)
unfolding read_fields written
read_fields-written sb rest v =
    rw (number-to_le 8 sb.magic _ v.magic) rw (number-to_le 2 sb.version_major _ v.version_major) rw
      (number-to_le 2 sb.version_minor _ v.version_minor)
      (rw (number-to_le 4 sb.block_size _ v.block_size) rw
        (number-to_le 8 sb.total_blocks _ v.total_blocks) rw
        (number-to_le 8 sb.free_blocks _ v.free_blocks)
        (rw (number-to_le 8 sb.total_inodes _ v.total_inodes) rw
          (number-to_le 8 sb.free_inodes _ v.free_inodes) rw
          (number-to_le 8 sb.block_bitmap_start _ v.block_bitmap_start)
          (rw (number-to_le 8 sb.block_bitmap_blocks _ v.block_bitmap_blocks) rw
            (number-to_le 8 sb.inode_bitmap_start _ v.inode_bitmap_start) rw
            (number-to_le 8 sb.inode_bitmap_blocks _ v.inode_bitmap_blocks)
            (rw (number-to_le 8 sb.inode_table_start _ v.inode_table_start) rw
              (number-to_le 8 sb.inode_table_blocks _ v.inode_table_blocks) rw
              (number-to_le 8 sb.journal_start _ v.journal_start)
              (rw (number-to_le 8 sb.journal_blocks _ v.journal_blocks) rw
                (number-to_le 8 sb.data_start _ v.data_start) rw
                (number-to_le 8 sb.secondary_superblock_block _ v.secondary_superblock_block)
                (rw (number-to_le 8 sb.tertiary_superblock_block _ v.tertiary_superblock_block) rw
                  (number-to_le 8 sb.feature_compat _ v.feature_compat) rw
                  (number-to_le 8 sb.feature_incompat _ v.feature_incompat)
                  (rw (number-to_le 8 sb.feature_ro_compat _ v.feature_ro_compat) rw
                    (raw-append 16 sb.uuid _ (sym v.uuid)) rw
                    (raw-append 32 sb.label _ (sym v.label))
                    (rw (number-to_le 8 sb.created_at _ v.created_at) rw
                      (number-to_le 8 sb.last_mount_at _ v.last_mount_at) rw
                      (number-to_le 8 sb.last_write_at _ v.last_write_at)
                      (rw (number-to_le 4 sb.mount_count _ v.mount_count) rw
                        (number-to_le 8 sb.generation _ v.generation) rw
                        (number-to_le 4 sb.state _ v.state)
                        (rw (number-to_le 8 sb.payload_inode _ v.payload_inode) rw
                          (number-to_le 4 sb.block_bitmap_crc _ v.block_bitmap_crc) rw
                          (number-to_le 4 sb.inode_bitmap_crc _ v.inode_bitmap_crc)
                          (rw (number-to_le 4 sb.layout_mode _ v.layout_mode) rw
                            (number-to_le 8 sb.root_inode _ v.root_inode) (refl))))))))))))

module _ (sb : Superblock) (v : FitsFields sb) where
  found : Found read_fields 508 4096 (encode_block sb) sb
  unfolding encode_block
  found =
      Found-seal read_fields 508 4096 (written sb []) sb (omega (arith, length-written sb v))
        (omega arith)
        λ rest. ap read_fields (sym (written-rest sb rest)) ∙ read_fields-written sb rest v

  pub length-encode_block : length (encode_block sb) ≡ 4096
  length-encode_block = found.sized

  -- A superblock that the tests of `decode_block` accept, and whose fields fit in their places, is
  -- read back from the block that `encode_block` makes of it.
  pub decode_block-encode_block : check_fields sb ≡ ok sb → decode_block (encode_block sb) ≡ ok sb
  unfolding decode_block
  decode_block-encode_block passes =
      let block = encode_block sb in
      let whole : (length block == 4096) ≡ true = ground (arith, found.sized) in
      let same : (expected_crc 508 block == stored_crc 508 block) ≡ true =
        ground (arith, found.checksum) in
      rw whole rw same rw found.fields_read passes
