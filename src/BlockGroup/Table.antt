-- ===== src/BlockGroup/Table.antt =====
-- The block that holds the table of groups.
use corefs.Common.{ℕ, List, ◌++◌, not, ltb, ◌==◌, if◌then◌else◌, CoreFsResult, err, state, length}
use corefs.Bytes.{to_le, zeros}
use corefs.Bytes.Reader.{Reader, ◌>>=◌, pure, number, raw}
use corefs.Bytes.Records.{write_each, read_each}
use corefs.Sealed.{seal, padded}
use corefs.Sealed.Decode.{decode_sealed}
use corefs.Layout.{block_size}
use corefs.BlockGroup.{BlockGroupDescriptor, BlockGroupTable, max_groups_per_table, new}

-- `u32::from_le_bytes(*b"BGRP")`
abbrev pub block_group_table_magic : ℕ
block_group_table_magic = 0x50524742

-- `BlockGroupDescriptor::write_to`
unfoldable pub write_to : BlockGroupDescriptor → List ℕ
write_to g =
    to_le 8 g.data_start
    ++ (to_le 8 g.data_blocks
        ++ (to_le 8 g.bitmap_block
            ++ (to_le 8 g.inode_range_start
                ++ (to_le 8 g.inode_range_count
                    ++ (to_le 4 g.free_blocks ++ to_le 4 g.bitmap_crc)))))

-- `BlockGroupDescriptor::read_from`, whose slice is never too short
unfoldable pub read_from : Reader BlockGroupDescriptor
read_from = do
  data_start ← number 8
  data_blocks ← number 8
  bitmap_block ← number 8
  inode_range_start ← number 8
  inode_range_count ← number 8
  free_blocks ← number 4
  bitmap_crc ← number 4
  pure (record {
    data_start = data_start;
    data_blocks = data_blocks;
    bitmap_block = bitmap_block;
    inode_range_start = inode_range_start;
    inode_range_count = inode_range_count;
    free_blocks = free_blocks;
    bitmap_crc = bitmap_crc;
  })

-- The bytes that `encode` writes before the checksum
unfoldable pub table_bytes : BlockGroupTable → List ℕ
table_bytes t =
    to_le 4 block_group_table_magic
    ++ (to_le 4 (length t.groups) ++ (zeros 8 ++ write_each write_to t.groups))

-- `BlockGroupTable::encode`, which always returns
unfoldable pub encode : BlockGroupTable → List ℕ
encode t = seal 4092 (padded block_size (table_bytes t))

-- The part of `decode` behind the checksum's test
unfoldable pub parse : List ℕ → CoreFsResult BlockGroupTable
parse block =
    let (magic, block1) = number 4 block in
    let (count, block2) = number 4 block1 in
    let (reserved, block3) = raw 8 block2 in
    if not (magic == block_group_table_magic)
    then err state
    else if ltb max_groups_per_table count
    then err state
    else new (read_each read_from count block3).0

-- `BlockGroupTable::decode`
unfoldable pub decode : List ℕ → CoreFsResult BlockGroupTable
decode = decode_sealed 4092 block_size parse
