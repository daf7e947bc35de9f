-- ===== src/BlockGroup/Codec.antt =====
-- A table of groups is read back from its block.
use mathlib.Core.Path.{subst}
use mathlib.Core.List.{append_assoc}
use corefs.Common.{
  ℕ, ◌+◌, ◌*◌, ◌≤◌, ◌<◌, ◌≡◌, refl, sym, ap, ◌∙◌, false, List, ◌++◌, ltb, ok, length, length-append,
  arith,
}
use corefs.Bytes.{word, zeros, length-to_le, length-zeros}
use corefs.Bytes.Reader.{number-to_le, raw-append}
use corefs.Bytes.Records.{All, length-write_each, read_each-write_each}
use corefs.Sealed.Decode.{decode_sealed-seal}
use corefs.BlockGroup.{BlockGroupDescriptor, BlockGroupTable, max_groups_per_table, new}
use corefs.BlockGroup.Table.{write_to, read_from, table_bytes, encode, parse, decode}

-- Every number fits in its field.
pub record FitsGroup (g : BlockGroupDescriptor) : Type 0 where
  pub data_start : g.data_start < word 8
  pub data_blocks : g.data_blocks < word 8
  pub bitmap_block : g.bitmap_block < word 8
  pub inode_range_start : g.inode_range_start < word 8
  pub inode_range_count : g.inode_range_count < word 8
  pub free_blocks : g.free_blocks < word 4
  pub bitmap_crc : g.bitmap_crc < word 4

length-write_to : (g : BlockGroupDescriptor) → length (write_to g) ≡ 48
unfolding write_to
length-write_to g = simp (length-append, length-to_le) refl

read_from-write_to :
    (g : BlockGroupDescriptor) (rest : List ℕ)
    → FitsGroup g
    → read_from (write_to g ++ rest) ≡ (g, rest)
unfolding read_from write_to
read_from-write_to g rest v = simp append_assoc (
    rw (number-to_le 8 g.data_start _ v.data_start) rw
      (number-to_le 8 g.data_blocks _ v.data_blocks) rw
      (number-to_le 8 g.bitmap_block _ v.bitmap_block) rw
      (number-to_le 8 g.inode_range_start _ v.inode_range_start) rw
      (number-to_le 8 g.inode_range_count _ v.inode_range_count) rw
      (number-to_le 4 g.free_blocks _ v.free_blocks) rw (number-to_le 4 g.bitmap_crc _ v.bitmap_crc)
      refl)

-- What `new` accepts has at most 84 groups, and is kept as it is.
pub new-ok :
    (groups : List BlockGroupDescriptor) (t : BlockGroupTable)
    → new groups ≡ ok t
    → (length groups ≤ 84) × (t.groups ≡ groups)
unfolding new
new-ok groups t e = ground (arith, e)

module _ (t : BlockGroupTable) where
  length-table_bytes : length (table_bytes t) ≡ 16 + length t.groups * 48
  unfolding table_bytes
  length-table_bytes =
      simp
        (
          length-append,
          length-to_le,
          length-zeros,
          length-write_each write_to 48 t.groups length-write_to,
        )
        omega arith

  parse-table_bytes :
      (rest : List ℕ)
      → All FitsGroup t.groups
      → length t.groups ≤ 84
      → parse (table_bytes t ++ rest) ≡ new t.groups
  unfolding parse table_bytes
  parse-table_bytes rest v h =
      let few : ltb max_groups_per_table (length t.groups) ≡ false = ground (arith, h) in
      simp append_assoc (
        rw (number-to_le 4 0x50524742 _ (omega arith)) rw
          (number-to_le 4 (length t.groups) _ (omega (arith, h))) rw
          (raw-append 8 (zeros 8) _ (sym (length-zeros 8))) rw few rw
          (read_each-write_each write_to read_from FitsGroup read_from-write_to t.groups rest v)
          refl)

  -- A table that `new` accepts, and whose numbers fit in their fields, is read back from the block that
  -- `encode` makes of it, with the same tests passed again.
  pub decode-encode_table :
      (groups : List BlockGroupDescriptor)
      → new groups ≡ ok t
      → All FitsGroup groups
      → decode (encode t) ≡ ok t
  unfolding encode decode
  decode-encode_table groups accepted v =
      let (few, same) = new-ok groups t accepted in
      let here = ap length same in
      decode_sealed-seal 4092 4096 parse (table_bytes t) (ok t)
        (omega (arith, length-table_bytes, here, few)) (omega arith)
        λ rest h.
          parse-table_bytes rest (subst (All FitsGroup) (sym same) v) (omega (arith, here, few))
          ∙ ap new same
          ∙ accepted
