-- ===== src/AttrBlock/Codec.antt =====
-- An attribute block is read back from its bytes.
use mathlib.Core.List.{append_assoc}
use corefs.Common.{
  ℕ, ◌+◌, ◌≤◌, ◌<◌, ◌≡◌, refl, false, List, ◌++◌, ltb, ok, length, length-append, arith,
}
use corefs.Bytes.{word, length-to_le}
use corefs.Bytes.Reader.{number-to_le, raw-append}
use corefs.Sealed.Decode.{Encoding, encode-Encoding}
use corefs.AttrBlock.{AttrBlock, attr_bytes, encode, parse, decode}

module _ (blk : AttrBlock) where
  length-attr_bytes : length (attr_bytes blk) ≡ 16 + length blk.payload
  unfolding attr_bytes
  length-attr_bytes = simp (length-append, length-to_le) (omega arith)

  parse-attr_bytes :
      (rest : List ℕ)
      → length blk.payload ≤ 4076
      → blk.next_attr_block < word 8
      → parse (attr_bytes blk ++ rest) ≡ ok blk
  unfolding parse attr_bytes
  parse-attr_bytes rest short w =
      let few : ltb 4076 (length blk.payload) ≡ false = ground (arith, short) in
      simp append_assoc (
        rw (number-to_le 4 0xa771b10c _ (omega arith)) rw
          (number-to_le 4 (length blk.payload) _ (omega (arith, short))) rw
          (number-to_le 8 blk.next_attr_block _ w) rw few rw
          (raw-append (length blk.payload) blk.payload rest refl) refl)

  -- An attribute block whose next block is a 64-bit number: with at most 4,076 bytes it is encoded to a
  -- block from which it is read back as it was, and with more its encoding is refused.
  pub encode-Encoding_attr_block :
      blk.next_attr_block < word 8 → Encoding decode blk 4076 (length blk.payload) (encode blk)
  unfolding encode decode
  encode-Encoding_attr_block w =
      encode-Encoding 4092 4096 parse (attr_bytes blk) blk 4076 (length blk.payload) (omega arith)
        (λ h. omega (arith, length-attr_bytes, h)) λ h rest. parse-attr_bytes rest h w
