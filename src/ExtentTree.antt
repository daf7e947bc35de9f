-- ===== src/ExtentTree.antt =====
-- corefs-core/src/storage/ondisk/extent_tree.rs: the index blocks that hold the extents of a large
-- file.
pub mod Codec
pub mod Chain
pub mod Walk
pub mod Chunks
pub mod Written
pub mod Roundtrip
use corefs.Common.{
  ℕ, ◌^◌, List, ◌++◌, not, ltb, ◌==◌, if◌then◌else◌, CoreFsResult, ok, err, invalid_input, state,
  length,
}
use corefs.Bytes.{to_le}
use corefs.Bytes.Reader.{number}
use corefs.Bytes.Records.{write_each, read_each}
use corefs.Sealed.{seal, padded}
use corefs.Sealed.Decode.{decode_sealed}
use corefs.Layout.{block_size}
use corefs.Extent.{Extent}
use corefs.Extent.Bytes.{write_extent, read_extent}

abbrev pub index_block_magic : ℕ
index_block_magic = 0xeebeeebe

abbrev pub extents_per_index_block : ℕ
extents_per_index_block = 254

-- `CRC_OFFSET`
abbrev pub crc_offset : ℕ
crc_offset = 4092

pub record ExtentIndexBlock : Type 0 where
  pub next_index_block : ℕ
  pub extents : List Extent

-- The bytes that `encode` writes before the checksum
unfoldable pub index_bytes : ExtentIndexBlock → List ℕ
index_bytes blk =
    to_le 4 index_block_magic
    ++ (to_le 4 (length blk.extents)
        ++ (to_le 8 blk.next_index_block ++ write_each write_extent blk.extents))

-- `ExtentIndexBlock::encode`
unfoldable pub encode : ExtentIndexBlock → CoreFsResult (List ℕ)
encode blk =
    if ltb extents_per_index_block (length blk.extents)
    then err invalid_input
    else ok (seal crc_offset (padded block_size (index_bytes blk)))

-- The part of `decode` behind the checksum's test
unfoldable pub parse : List ℕ → CoreFsResult ExtentIndexBlock
parse block =
    let (magic, block1) = number 4 block in
    let (count, block2) = number 4 block1 in
    let (next_index_block, block3) = number 8 block2 in
    if not (magic == index_block_magic)
    then err state
    else if ltb extents_per_index_block count
    then err state
    else ok (record {
      next_index_block = next_index_block;
      extents = (read_each read_extent count block3).0;
    })

-- `ExtentIndexBlock::decode`
unfoldable pub decode : List ℕ → CoreFsResult ExtentIndexBlock
decode = decode_sealed crc_offset block_size parse
