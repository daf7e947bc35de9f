-- ===== src/ExtentTree/Codec.antt =====
-- An index block is read back from its bytes.
use mathlib.Core.List.{append_assoc}
use corefs.Common.{
  ℕ, ◌+◌, ◌*◌, ◌≤◌, ◌<◌, ◌≡◌, refl, false, List, ◌++◌, ltb, ok, length, length-append, arith,
}
use corefs.Bytes.{word, length-to_le}
use corefs.Bytes.Reader.{number-to_le}
use corefs.Bytes.Records.{All, length-write_each, read_each-write_each}
use corefs.Sealed.Decode.{Encoding, encode-Encoding}
use corefs.Extent.Bytes.{
  FitsExtent, write_extent, read_extent, length-write_extent, read_extent-write_extent,
}
use corefs.ExtentTree.{ExtentIndexBlock, index_bytes, encode, parse, decode}

-- Every number fits in its field.
pub record FitsIndex (blk : ExtentIndexBlock) : Type 0 where
  pub next_index_block : blk.next_index_block < word 8
  pub extents : All FitsExtent blk.extents

module _ (blk : ExtentIndexBlock) where
  length-index_bytes : length (index_bytes blk) ≡ 16 + length blk.extents * 16
  unfolding index_bytes
  length-index_bytes =
      simp
        (
          length-append,
          length-to_le,
          length-write_each write_extent 16 blk.extents length-write_extent,
        )
        omega arith

  parse-index_bytes :
      (rest : List ℕ)
      → FitsIndex blk
      → length blk.extents ≤ 254
      → parse (index_bytes blk ++ rest) ≡ ok blk
  unfolding parse index_bytes
  parse-index_bytes rest v h =
      let few : ltb 254 (length blk.extents) ≡ false = ground (arith, h) in
      simp append_assoc (
        rw (number-to_le 4 0xeebeeebe _ (omega arith)) rw
          (number-to_le 4 (length blk.extents) _ (omega (arith, h))) rw
          (number-to_le 8 blk.next_index_block _ v.next_index_block) rw few rw
          (read_each-write_each write_extent read_extent FitsExtent read_extent-write_extent
            blk.extents rest v.extents)
          refl)

  -- An index block all of whose numbers fit in their fields: with at most 254 extents it is encoded to
  -- bytes from which it is read back as it was, and with more its encoding is refused.
  pub encode-Encoding_index :
      FitsIndex blk → Encoding decode blk 254 (length blk.extents) (encode blk)
  unfolding encode decode
  encode-Encoding_index v =
      encode-Encoding 4092 4096 parse (index_bytes blk) blk 254 (length blk.extents) (omega arith)
        (λ h. omega (arith, length-index_bytes, h)) λ h rest. parse-index_bytes rest v h
