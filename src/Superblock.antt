-- ===== src/Superblock.antt =====
-- corefs-core/src/storage/ondisk/superblock.rs: the superblock and its block. The times, signed in the
-- source, are their 64-bit patterns.
pub mod Codec
use Prim.Native.Nat.{bit_and}
use corefs.Common.{
  ℕ, ◌+◌, ◌-◌, ◌^◌, List, [], ◌++◌, not, ◌==◌, if◌then◌else◌, CoreFsResult, ok, err, invalid_input,
  state, length,
}
use corefs.Bytes.{to_le, take, zeros}
use corefs.Bytes.Reader.{Reader, ◌>>=◌, pure, raw, number}
use corefs.Sealed.{seal, stored_crc, expected_crc, padded}
use corefs.Layout.{block_size, LayoutGeometry}

pub record Superblock : Type 0 where
  pub magic : ℕ
  pub version_major : ℕ
  pub version_minor : ℕ
  pub block_size : ℕ
  pub total_blocks : ℕ
  pub free_blocks : ℕ
  pub total_inodes : ℕ
  pub free_inodes : ℕ
  pub block_bitmap_start : ℕ
  pub block_bitmap_blocks : ℕ
  pub inode_bitmap_start : ℕ
  pub inode_bitmap_blocks : ℕ
  pub inode_table_start : ℕ
  pub inode_table_blocks : ℕ
  pub journal_start : ℕ
  pub journal_blocks : ℕ
  pub data_start : ℕ
  pub secondary_superblock_block : ℕ
  pub tertiary_superblock_block : ℕ
  pub feature_compat : ℕ
  pub feature_incompat : ℕ
  pub feature_ro_compat : ℕ
  pub uuid : List ℕ
  pub label : List ℕ
  pub created_at : ℕ
  pub last_mount_at : ℕ
  pub last_write_at : ℕ
  pub mount_count : ℕ
  pub generation : ℕ
  pub state : ℕ
  pub payload_inode : ℕ
  pub block_bitmap_crc : ℕ
  pub inode_bitmap_crc : ℕ
  pub layout_mode : ℕ
  pub root_inode : ℕ

-- `ODF_MAGIC` of layout.rs, and the version
abbrev pub odf_magic : ℕ
odf_magic = 0x4644534645524f43

abbrev pub odf_version_major : ℕ
odf_version_major = 1

-- `SUPPORTED_INCOMPAT` and `SUPPORTED_RO_COMPAT`
abbrev pub supported_incompat : ℕ
supported_incompat = 7

abbrev pub supported_ro_compat : ℕ
supported_ro_compat = 0

-- `SUPERBLOCK_CHECKSUM_OFFSET`
abbrev pub superblock_checksum_offset : ℕ
superblock_checksum_offset = 508

-- `Superblock::geometry`, whose subtraction saturates
unfoldable pub geometry : Superblock → LayoutGeometry
geometry sb = record {
  total_blocks = sb.total_blocks;
  block_bitmap_start = sb.block_bitmap_start;
  block_bitmap_blocks = sb.block_bitmap_blocks;
  inode_bitmap_start = sb.inode_bitmap_start;
  inode_bitmap_blocks = sb.inode_bitmap_blocks;
  inode_table_start = sb.inode_table_start;
  inode_table_blocks = sb.inode_table_blocks;
  inode_count = sb.total_inodes;
  journal_start = sb.journal_start;
  journal_blocks = sb.journal_blocks;
  data_start = sb.data_start;
  data_blocks = sb.total_blocks - sb.data_start;
  secondary_superblock_block = sb.secondary_superblock_block;
  tertiary_superblock_block = sb.tertiary_superblock_block;
}

-- `Superblock::for_new_volume`, with the bytes of the label: at most 32 are kept.
unfoldable pub for_new_volume : LayoutGeometry → List ℕ → List ℕ → ℕ → Superblock
for_new_volume g uuid label now_secs = record {
  magic = odf_magic;
  version_major = odf_version_major;
  version_minor = 0;
  block_size = block_size;
  total_blocks = g.total_blocks;
  free_blocks = g.data_blocks;
  total_inodes = g.inode_count;
  free_inodes = g.inode_count;
  block_bitmap_start = g.block_bitmap_start;
  block_bitmap_blocks = g.block_bitmap_blocks;
  inode_bitmap_start = g.inode_bitmap_start;
  inode_bitmap_blocks = g.inode_bitmap_blocks;
  inode_table_start = g.inode_table_start;
  inode_table_blocks = g.inode_table_blocks;
  journal_start = g.journal_start;
  journal_blocks = g.journal_blocks;
  data_start = g.data_start;
  secondary_superblock_block = g.secondary_superblock_block;
  tertiary_superblock_block = g.tertiary_superblock_block;
  feature_compat = 3;
  feature_incompat = 1;
  feature_ro_compat = 0;
  uuid = uuid;
  label = take 32 label ++ zeros (32 - length label);
  created_at = now_secs;
  last_mount_at = now_secs;
  last_write_at = now_secs;
  mount_count = 0;
  generation = 1;
  state = 0;
  payload_inode = 0;
  block_bitmap_crc = 0;
  inode_bitmap_crc = 0;
  layout_mode = 0;
  root_inode = 0;
}

-- The writes of `encode_block` in their order, before `rest`
unfoldable pub written : Superblock → List ℕ → List ℕ
written sb rest =
    to_le 8 sb.magic
    ++ (to_le 2 sb.version_major
        ++ (to_le 2 sb.version_minor
            ++ (to_le 4 sb.block_size
                ++ (to_le 8 sb.total_blocks
                    ++ (to_le 8 sb.free_blocks
                        ++ (to_le 8 sb.total_inodes
                            ++ (to_le 8 sb.free_inodes
                                ++ (to_le 8 sb.block_bitmap_start
                                    ++ (to_le 8 sb.block_bitmap_blocks
                                        ++ (to_le 8 sb.inode_bitmap_start
                                            ++ (to_le 8 sb.inode_bitmap_blocks
                                                ++ (to_le 8 sb.inode_table_start
                                                    ++ (to_le 8 sb.inode_table_blocks
                                                        ++ (to_le 8 sb.journal_start
                                                            ++ (to_le 8 sb.journal_blocks
                                                            ++ (to_le 8 sb.data_start
                                                            ++ (to_le 8
                                                            sb.secondary_superblock_block
                                                            ++ (to_le 8 sb.tertiary_superblock_block
                                                            ++ (to_le 8 sb.feature_compat
                                                            ++ (to_le 8 sb.feature_incompat
                                                            ++ (to_le 8 sb.feature_ro_compat
                                                            ++ (sb.uuid
                                                            ++ (sb.label
                                                            ++ (to_le 8 sb.created_at
                                                            ++ (to_le 8 sb.last_mount_at
                                                            ++ (to_le 8 sb.last_write_at
                                                            ++ (to_le 4 sb.mount_count
                                                            ++ (to_le 8 sb.generation
                                                            ++ (to_le 4 sb.state
                                                            ++ (to_le 8 sb.payload_inode
                                                            ++ (to_le 4 sb.block_bitmap_crc
                                                            ++ (to_le 4 sb.inode_bitmap_crc
                                                            ++ (to_le 4 sb.layout_mode
                                                            ++ (to_le 8 sb.root_inode
                                                            ++ (rest)))))))))))))))))))))))))))))))))))

-- `Superblock::encode_block`
unfoldable pub encode_block : Superblock → List ℕ
encode_block sb = seal superblock_checksum_offset (padded block_size (written sb []))

-- The reads of `decode_block` in their order
unfoldable pub read_fields : Reader Superblock
read_fields = do
  m0 ← number 8
  v1 ← number 2
  v2 ← number 2
  b3 ← number 4
  t4 ← number 8
  f5 ← number 8
  t6 ← number 8
  f7 ← number 8
  b8 ← number 8
  b9 ← number 8
  i10 ← number 8
  i11 ← number 8
  i12 ← number 8
  i13 ← number 8
  j14 ← number 8
  j15 ← number 8
  d16 ← number 8
  s17 ← number 8
  t18 ← number 8
  f19 ← number 8
  f20 ← number 8
  f21 ← number 8
  u22 ← raw 16
  l23 ← raw 32
  c24 ← number 8
  l25 ← number 8
  l26 ← number 8
  m27 ← number 4
  g28 ← number 8
  s29 ← number 4
  p30 ← number 8
  b31 ← number 4
  i32 ← number 4
  l33 ← number 4
  r34 ← number 8
  pure (record {
    magic = m0;
    version_major = v1;
    version_minor = v2;
    block_size = b3;
    total_blocks = t4;
    free_blocks = f5;
    total_inodes = t6;
    free_inodes = f7;
    block_bitmap_start = b8;
    block_bitmap_blocks = b9;
    inode_bitmap_start = i10;
    inode_bitmap_blocks = i11;
    inode_table_start = i12;
    inode_table_blocks = i13;
    journal_start = j14;
    journal_blocks = j15;
    data_start = d16;
    secondary_superblock_block = s17;
    tertiary_superblock_block = t18;
    feature_compat = f19;
    feature_incompat = f20;
    feature_ro_compat = f21;
    uuid = u22;
    label = l23;
    created_at = c24;
    last_mount_at = l25;
    last_write_at = l26;
    mount_count = m27;
    generation = g28;
    state = s29;
    payload_inode = p30;
    block_bitmap_crc = b31;
    inode_bitmap_crc = i32;
    layout_mode = l33;
    root_inode = r34;
  })

-- The tests of `decode_block` on the fields. Those on the magic number and the version come before
-- the later fields are read, which cannot fail.
unfoldable pub check_fields : Superblock → CoreFsResult Superblock
check_fields sb =
    if not (sb.magic == odf_magic)
    then err state
    else if not (sb.version_major == odf_version_major)
    then err state
    else if not (bit_and sb.feature_incompat (2 ^ 64 - 1 - supported_incompat) == 0)
    then err state
    else if not (bit_and sb.feature_ro_compat (2 ^ 64 - 1 - supported_ro_compat) == 0)
    then err state
    else ok sb

-- `Superblock::decode_block`
unfoldable pub decode_block : List ℕ → CoreFsResult Superblock
decode_block block =
    if not (length block == block_size)
    then err invalid_input
    else if not (
        expected_crc superblock_checksum_offset block
        == stored_crc superblock_checksum_offset block)
    then err state
    else check_fields (read_fields block).0
