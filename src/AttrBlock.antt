-- ===== src/AttrBlock.antt =====
-- corefs-core/src/storage/ondisk/attr_block.rs: the block that holds the attributes of an inode.
pub mod Codec
use corefs.Common.{
  ℕ, List, ◌++◌, not, ltb, ◌==◌, if◌then◌else◌, CoreFsResult, ok, err, invalid_input, state, length,
}
use corefs.Bytes.{to_le}
use corefs.Bytes.Reader.{number, raw}
use corefs.Sealed.{seal, padded}
use corefs.Sealed.Decode.{decode_sealed}
use corefs.Layout.{block_size}

abbrev pub attr_block_magic : ℕ
attr_block_magic = 0xa771b10c

-- `CRC_OFFSET - HEADER_BYTES`
abbrev pub attr_block_capacity : ℕ
attr_block_capacity = 4076

pub record AttrBlock : Type 0 where
  pub next_attr_block : ℕ
  pub payload : List ℕ

-- `AttrBlock::new`
unfoldable pub new : List ℕ → AttrBlock
new payload = record { next_attr_block = 0; payload = payload }

-- The bytes that `encode` writes before the checksum
unfoldable pub attr_bytes : AttrBlock → List ℕ
attr_bytes blk =
    to_le 4 attr_block_magic
    ++ (to_le 4 (length blk.payload) ++ (to_le 8 blk.next_attr_block ++ blk.payload))

-- `AttrBlock::encode`
unfoldable pub encode : AttrBlock → CoreFsResult (List ℕ)
encode blk =
    if ltb attr_block_capacity (length blk.payload)
    then err invalid_input
    else ok (seal 4092 (padded block_size (attr_bytes blk)))

-- The part of `decode` behind the checksum's test
unfoldable pub parse : List ℕ → CoreFsResult AttrBlock
parse block =
    let (magic, block1) = number 4 block in
    let (payload_len, block2) = number 4 block1 in
    let (next_attr_block, block3) = number 8 block2 in
    if not (magic == attr_block_magic)
    then err state
    else if ltb attr_block_capacity payload_len
    then err state
    else ok (record { next_attr_block = next_attr_block; payload = (raw payload_len block3).0 })

-- `AttrBlock::decode`
unfoldable pub decode : List ℕ → CoreFsResult AttrBlock
decode = decode_sealed 4092 block_size parse
