-- ===== src/Inode/Codec.antt =====
-- An inode is read back from its record.
use mathlib.Core.List.{append_assoc}
use corefs.Common.{
  ℕ, ◌-◌, ◌*◌, ◌≤◌, ◌<◌, ◌≡◌, refl, sym, false, List, ◌++◌, ltb, ok, length, length-append, arith,
}
use corefs.Bytes.{word, zeros, length-to_le, length-zeros}
use corefs.Bytes.Reader.{number-to_le, raw-append}
use corefs.Bytes.Records.{All, length-write_each, read_each-write_each}
use corefs.Sealed.Decode.{Encoding, encode-Encoding}
use corefs.Extent.Bytes.{
  FitsExtent, write_extent, read_extent, length-write_extent, read_extent-write_extent,
}
use corefs.Inode.{
  OnDiskKind, unused, file, directory, symlink, system_payload, OnDiskInode, kind_to_u16, from_u16,
  tail_bytes, record_bytes, encode, parse, decode,
}

-- Every number fits in its field.
pub record FitsInode (inode : OnDiskInode) : Type 0 where
  pub version : inode.version < word 2
  pub mode : inode.mode < word 4
  pub uid : inode.uid < word 4
  pub gid : inode.gid < word 4
  pub link_count : inode.link_count < word 4
  pub flags : inode.flags < word 4
  pub size_bytes : inode.size_bytes < word 8
  pub blocks_allocated : inode.blocks_allocated < word 8
  pub created_at : inode.created_at < word 8
  pub modified_at : inode.modified_at < word 8
  pub changed_at : inode.changed_at < word 8
  pub accessed_at : inode.accessed_at < word 8
  pub generation : inode.generation < word 8
  pub extents : All FitsExtent inode.extents
  pub index_block_addr : inode.index_block_addr < word 8
  pub xattr_block_addr : inode.xattr_block_addr < word 8
  pub domain_inode_id : inode.domain_inode_id < word 8
  pub data_crc : inode.data_crc < word 8

from_u16-kind_to_u16 : (kind : OnDiskKind) → from_u16 (kind_to_u16 kind) ≡ ok kind
unfolding from_u16
from_u16-kind_to_u16 unused = refl
from_u16-kind_to_u16 file = refl
from_u16-kind_to_u16 directory = refl
from_u16-kind_to_u16 symlink = refl
from_u16-kind_to_u16 system_payload = refl

kind_to_u16-lt : (kind : OnDiskKind) → kind_to_u16 kind < word 2
kind_to_u16-lt unused = omega arith
kind_to_u16-lt file = omega arith
kind_to_u16-lt directory = omega arith
kind_to_u16-lt symlink = omega arith
kind_to_u16-lt system_payload = omega arith

module _ (inode : OnDiskInode) (v : FitsInode inode) (h : length inode.extents ≤ 8) where
  length-tail_bytes : length (tail_bytes inode) ≡ 160
  unfolding tail_bytes
  length-tail_bytes =
      simp
        (
          length-append,
          length-to_le,
          length-zeros,
          length-write_each write_extent 16 inode.extents length-write_extent,
        )
        (omega (arith, h))

  length-record_bytes : length (record_bytes inode) ≡ 248
  unfolding record_bytes
  length-record_bytes = simp (length-append, length-to_le, length-zeros, length-tail_bytes) refl

  parse-record_bytes : (rest : List ℕ) → parse (record_bytes inode ++ rest) ≡ ok inode
  unfolding parse record_bytes tail_bytes
  parse-record_bytes rest =
      let few : ltb 8 (length inode.extents) ≡ false = ground (arith, h) in
      let free : 128 - length inode.extents * 16
          ≡ length (zeros (128 - length inode.extents * 16)) =
        sym (length-zeros (128 - length inode.extents * 16)) in
      simp append_assoc (
        rw (number-to_le 2 inode.version _ v.version) rw
          (number-to_le 2 (kind_to_u16 inode.kind) _ (kind_to_u16-lt inode.kind)) rw
          (number-to_le 4 inode.mode _ v.mode) rw (number-to_le 4 inode.uid _ v.uid) rw
          (number-to_le 4 inode.gid _ v.gid) rw (number-to_le 4 inode.link_count _ v.link_count) rw
          (number-to_le 4 inode.flags _ v.flags) rw (number-to_le 8 inode.size_bytes _ v.size_bytes)
          rw (number-to_le 8 inode.blocks_allocated _ v.blocks_allocated) rw
          (number-to_le 8 inode.created_at _ v.created_at) rw
          (number-to_le 8 inode.modified_at _ v.modified_at) rw
          (number-to_le 8 inode.changed_at _ v.changed_at) rw
          (number-to_le 8 inode.accessed_at _ v.accessed_at) rw
          (number-to_le 8 inode.generation _ v.generation) rw
          (number-to_le 4 (length inode.extents) _ (omega (arith, h))) rw
          (from_u16-kind_to_u16 inode.kind) rw few rw
          (raw-append 4 (zeros 4) _ (sym (length-zeros 4))) rw
          (read_each-write_each write_extent read_extent FitsExtent read_extent-write_extent
            inode.extents _ v.extents)
          rw
          (raw-append (128 - length inode.extents * 16) (zeros (128 - length inode.extents * 16)) _
            free)
          rw (number-to_le 8 inode.index_block_addr _ v.index_block_addr) rw
          (number-to_le 8 inode.xattr_block_addr _ v.xattr_block_addr) rw
          (number-to_le 8 inode.domain_inode_id _ v.domain_inode_id) rw
          (number-to_le 8 inode.data_crc _ v.data_crc) refl)

-- An inode all of whose numbers fit in their fields: with at most 8 extents it is encoded to a record
-- from which it is read back as it was, and with more its encoding is refused.
pub encode-Encoding_inode :
    (inode : OnDiskInode)
    → FitsInode inode
    → Encoding decode inode 8 (length inode.extents) (encode inode)
unfolding encode decode
encode-Encoding_inode inode v =
    encode-Encoding 252 256 parse (record_bytes inode) inode 8 (length inode.extents) (omega arith)
      (λ h. omega (arith, length-record_bytes inode v h))
      λ h rest. parse-record_bytes inode v h rest
