-- ===== src/Tests/Codecs.antt =====
-- The checksum and the sealed blocks at concrete inputs.
use corefs.Common.{ℕ, ◌^◌, ◌<◌, ◌≡◌, refl, [], ◌∷◌, ok, arith}
use corefs.Bytes.{zeros, length-zeros, take}
use corefs.Layout.{LayoutGeometry}
use corefs.Checksum.{hash, update}
use corefs.Checksum.Bytewise.{crc_bytes, AllBytes, update-eq-crc_bytes}
use corefs.Superblock.{Superblock, for_new_volume, check_fields, encode_block, decode_block}
use corefs.Superblock.Codec.{FitsFields, decode_block-encode_block}
use corefs.Journal.Header
use corefs.Journal.Header.{JournalHeader, fresh}

-- The check value of CRC-32C: the checksum of the digits 1 to 9.
check_value : hash (49 ∷ 50 ∷ 51 ∷ 52 ∷ 53 ∷ 54 ∷ 55 ∷ 56 ∷ 57 ∷ []) ≡ 0xe3069283
unfolding hash update corefs.Checksum.remainder_loop corefs.Checksum.byte_round
    corefs.Checksum.chunk_round corefs.Checksum.low_word corefs.Checksum.tables
    corefs.Checksum.bit_rounds
check_value = refl

nine_bytes : AllBytes (1 ∷ 2 ∷ 3 ∷ 4 ∷ 5 ∷ 6 ∷ 7 ∷ 8 ∷ 255 ∷ [])
unfolding AllBytes
nine_bytes = (
  omega arith,
  (
    omega arith,
    (
      omega arith,
      (omega arith, (omega arith, (omega arith, (omega arith, (omega arith, (omega arith, tt)))))),
    ),
  ),
)

update-eq-crc_bytes_example :
    update 77 (1 ∷ 2 ∷ 3 ∷ 4 ∷ 5 ∷ 6 ∷ 7 ∷ 8 ∷ 255 ∷ [])
    ≡ crc_bytes 77 (1 ∷ 2 ∷ 3 ∷ 4 ∷ 5 ∷ 6 ∷ 7 ∷ 8 ∷ 255 ∷ [])
update-eq-crc_bytes_example =
    update-eq-crc_bytes 77 (1 ∷ 2 ∷ 3 ∷ 4 ∷ 5 ∷ 6 ∷ 7 ∷ 8 ∷ 255 ∷ []) (omega arith) nine_bytes

-- Eight blocks, with a journal of three in blocks 2 to 4
abbrev pub small_geometry : LayoutGeometry
small_geometry = record {
  total_blocks = 8;
  block_bitmap_start = 5;
  block_bitmap_blocks = 0;
  inode_bitmap_start = 5;
  inode_bitmap_blocks = 0;
  inode_table_start = 5;
  inode_table_blocks = 1;
  inode_count = 16;
  journal_start = 2;
  journal_blocks = 3;
  data_start = 6;
  data_blocks = 2;
  secondary_superblock_block = 7;
  tertiary_superblock_block = 4;
}

abbrev pub small_superblock : Superblock
small_superblock = for_new_volume small_geometry (zeros 16) [] 5

pub small-FitsFields : FitsFields small_superblock
unfolding for_new_volume
small-FitsFields = record {
  magic = omega arith;
  version_major = omega arith;
  version_minor = omega arith;
  block_size = omega arith;
  total_blocks = omega arith;
  free_blocks = omega arith;
  total_inodes = omega arith;
  free_inodes = omega arith;
  block_bitmap_start = omega arith;
  block_bitmap_blocks = omega arith;
  inode_bitmap_start = omega arith;
  inode_bitmap_blocks = omega arith;
  inode_table_start = omega arith;
  inode_table_blocks = omega arith;
  journal_start = omega arith;
  journal_blocks = omega arith;
  data_start = omega arith;
  secondary_superblock_block = omega arith;
  tertiary_superblock_block = omega arith;
  feature_compat = omega arith;
  feature_incompat = omega arith;
  feature_ro_compat = omega arith;
  uuid = length-zeros 16;
  label = unfold take in length-zeros 32;
  created_at = omega arith;
  last_mount_at = omega arith;
  last_write_at = omega arith;
  mount_count = omega arith;
  generation = omega arith;
  state = omega arith;
  payload_inode = omega arith;
  block_bitmap_crc = omega arith;
  inode_bitmap_crc = omega arith;
  layout_mode = omega arith;
  root_inode = omega arith;
}

pub small_checked : check_fields small_superblock ≡ ok small_superblock
unfolding check_fields for_new_volume
small_checked = refl

decode_block-encode_block_example :
    decode_block (encode_block small_superblock) ≡ ok small_superblock
decode_block-encode_block_example =
    decode_block-encode_block small_superblock small-FitsFields small_checked

-- A header with `tail` bytes of records, for an area of two blocks
unfoldable pub header_of : ℕ → JournalHeader
header_of tail = record (fresh 8192) { tail_offset = tail }

pub header_of-FitsFields : (tail : ℕ) → tail < 2 ^ 64 → Header.FitsFields (header_of tail)
unfolding header_of fresh
header_of-FitsFields tail h = record {
  magic = refl;
  version = omega arith;
  flags = omega arith;
  head_offset = omega arith;
  tail_offset = omega (arith, h);
  next_seq = omega arith;
  next_txn_id = omega arith;
  state = omega arith;
  record_area_bytes = omega arith;
}
