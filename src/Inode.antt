-- ===== src/Inode.antt =====
-- corefs-core/src/storage/ondisk/inode.rs: the record of an inode on the device. The times, signed in
-- the source, are their 64-bit patterns.
pub mod Codec
use corefs.Common.{
  ℕ, ◌-◌, ◌*◌, List, [], ◌++◌, ltb, ◌==◌, if◌then◌else◌, CoreFsResult, ok, err, invalid_input,
  state, and_then, length,
}
use corefs.Bytes.{to_le, zeros}
use corefs.Bytes.Reader.{number, raw}
use corefs.Bytes.Records.{write_each, read_each}
use corefs.Sealed.{seal, padded}
use corefs.Sealed.Decode.{decode_sealed}
use corefs.Layout.{inode_size}
use corefs.Extent.{Extent}
use corefs.Extent.Bytes.{write_extent, read_extent}

-- `INODE_CHECKSUM_OFFSET`
abbrev pub inode_checksum_offset : ℕ
inode_checksum_offset = 252

abbrev pub max_inline_extents : ℕ
max_inline_extents = 8

pub data OnDiskKind : Type 0 where
  unused file directory symlink system_payload : OnDiskKind

-- `kind as u16`
abbrev pub kind_to_u16 : OnDiskKind → ℕ
kind_to_u16 unused = 0
kind_to_u16 file = 1
kind_to_u16 directory = 2
kind_to_u16 symlink = 3
kind_to_u16 system_payload = 4

-- `OnDiskKind::from_u16`
unfoldable pub from_u16 : ℕ → CoreFsResult OnDiskKind
from_u16 value =
    if value == 0
    then ok unused
    else if value == 1
    then ok file
    else if value == 2
    then ok directory
    else if value == 3
    then ok symlink
    else if value == 4
    then ok system_payload
    else err state

pub record OnDiskInode : Type 0 where
  pub version : ℕ
  pub kind : OnDiskKind
  pub mode : ℕ
  pub uid : ℕ
  pub gid : ℕ
  pub link_count : ℕ
  pub flags : ℕ
  pub size_bytes : ℕ
  pub blocks_allocated : ℕ
  pub created_at : ℕ
  pub modified_at : ℕ
  pub changed_at : ℕ
  pub accessed_at : ℕ
  pub generation : ℕ
  pub extents : List Extent
  pub index_block_addr : ℕ
  pub xattr_block_addr : ℕ
  pub domain_inode_id : ℕ
  pub data_crc : ℕ

-- `OnDiskInode::unused`
unfoldable pub unused_inode : OnDiskInode
unused_inode = record {
  version = 1;
  kind = unused;
  mode = 0;
  uid = 0;
  gid = 0;
  link_count = 0;
  flags = 0;
  size_bytes = 0;
  blocks_allocated = 0;
  created_at = 0;
  modified_at = 0;
  changed_at = 0;
  accessed_at = 0;
  generation = 0;
  extents = [];
  index_block_addr = 0;
  xattr_block_addr = 0;
  domain_inode_id = 0;
  data_crc = 0;
}

-- The writes of `encode` from the inline extents on
unfoldable pub tail_bytes : OnDiskInode → List ℕ
tail_bytes inode =
    write_each write_extent inode.extents
    ++ (zeros (128 - length inode.extents * 16)
        ++ (to_le 8 inode.index_block_addr
            ++ (to_le 8 inode.xattr_block_addr
                ++ (to_le 8 inode.domain_inode_id ++ to_le 8 inode.data_crc))))

-- The writes of `encode` in their order, up to the checksum
unfoldable pub record_bytes : OnDiskInode → List ℕ
record_bytes inode =
    to_le 2 inode.version
    ++ (to_le 2 (kind_to_u16 inode.kind)
        ++ (to_le 4 inode.mode
            ++ (to_le 4 inode.uid
                ++ (to_le 4 inode.gid
                    ++ (to_le 4 inode.link_count
                        ++ (to_le 4 inode.flags
                            ++ (to_le 8 inode.size_bytes
                                ++ (to_le 8 inode.blocks_allocated
                                    ++ (to_le 8 inode.created_at
                                        ++ (to_le 8 inode.modified_at
                                            ++ (to_le 8 inode.changed_at
                                                ++ (to_le 8 inode.accessed_at
                                                    ++ (to_le 8 inode.generation
                                                        ++ (to_le 4 (length inode.extents)
                                                            ++ (zeros 4
                                                            ++ tail_bytes inode)))))))))))))))

-- `OnDiskInode::encode`
unfoldable pub encode : OnDiskInode → CoreFsResult (List ℕ)
encode inode =
    if ltb max_inline_extents (length inode.extents)
    then err invalid_input
    else ok (seal inode_checksum_offset (padded inode_size (record_bytes inode)))

-- The part of `decode` behind the checksum's test. The reads at fixed offsets follow one another, with
-- the reserved bytes and the unused slots of extents passed over.
unfoldable pub parse : List ℕ → CoreFsResult OnDiskInode
parse rec =
    let (version, rec1) = number 2 rec in
    let (kind_number, rec2) = number 2 rec1 in
    let (mode, rec3) = number 4 rec2 in
    let (uid, rec4) = number 4 rec3 in
    let (gid, rec5) = number 4 rec4 in
    let (link_count, rec6) = number 4 rec5 in
    let (flags, rec7) = number 4 rec6 in
    let (size_bytes, rec8) = number 8 rec7 in
    let (blocks_allocated, rec9) = number 8 rec8 in
    let (created_at, rec10) = number 8 rec9 in
    let (modified_at, rec11) = number 8 rec10 in
    let (changed_at, rec12) = number 8 rec11 in
    let (accessed_at, rec13) = number 8 rec12 in
    let (generation, rec14) = number 8 rec13 in
    let (extent_count, rec15) = number 4 rec14 in
    and_then (from_u16 kind_number) λ kind.
      if ltb max_inline_extents extent_count
      then err state
      else (let (reserved, rec16) = raw 4 rec15 in
          let (extents, rec17) = read_each read_extent extent_count rec16 in
          let (free_slots, rec18) = raw (128 - extent_count * 16) rec17 in
          let (index_block_addr, rec19) = number 8 rec18 in
          let (xattr_block_addr, rec20) = number 8 rec19 in
          let (domain_inode_id, rec21) = number 8 rec20 in
          let (data_crc, rec22) = number 8 rec21 in
          ok (record {
            version = version;
            kind = kind;
            mode = mode;
            uid = uid;
            gid = gid;
            link_count = link_count;
            flags = flags;
            size_bytes = size_bytes;
            blocks_allocated = blocks_allocated;
            created_at = created_at;
            modified_at = modified_at;
            changed_at = changed_at;
            accessed_at = accessed_at;
            generation = generation;
            extents = extents;
            index_block_addr = index_block_addr;
            xattr_block_addr = xattr_block_addr;
            domain_inode_id = domain_inode_id;
            data_crc = data_crc;
          }))

-- `OnDiskInode::decode`
unfoldable pub decode : List ℕ → CoreFsResult OnDiskInode
decode = decode_sealed inode_checksum_offset inode_size parse
