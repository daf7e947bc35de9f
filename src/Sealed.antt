-- ===== src/Sealed.antt =====
-- Blocks with their own checksum: the CRC32C of the block, taken with zeros in the checksum's place,
-- as the superblock, the journal header and the group table write and check it.
pub mod Decode
use corefs.Common.{ℕ, ◌+◌, ◌≤◌, ◌≡◌, sym, ap, ◌∙◌, List, ◌++◌, length, arith}
use corefs.Bytes.{
  to_le, from_le, take, drop, slice, splice, zeros, length-to_le, length-zeros, from_le-to_le,
  parts, length-take, splice-append, slice-splice, length-splice, take-drop, slice-zeros,
}
use corefs.Bytes.Ranges.{slice-splice_before, slice-splice_behind}
use corefs.Bytes.Reader.{Reader}
use corefs.Checksum.{hash}
use corefs.Checksum.Bytewise.{hash-lt}

-- `block[off..off + 4].copy_from_slice(&Crc32c::hash(&block).to_le_bytes())`
unfoldable pub seal : ℕ → List ℕ → List ℕ
seal off block = splice off (to_le 4 (hash block)) block

-- The checksum that a block holds
unfoldable pub stored_crc : ℕ → List ℕ → ℕ
stored_crc off block = from_le (slice off 4 block)

-- The checksum that it should hold
unfoldable pub expected_crc : ℕ → List ℕ → ℕ
expected_crc off block = hash (splice off (zeros 4) block)

-- A block that has zeros in the checksum's place.
module _ (off : ℕ) (block : List ℕ) (fit : off + 4 ≤ length block) where
  pub length-seal : length (seal off block) ≡ length block
  unfolding seal
  length-seal =
      length-splice off (to_le 4 (hash block)) block
        (omega (arith, fit, length-to_le 4 (hash block)))

  -- What a sealed block holds is the checksum of the block.
  stored_crc-seal : stored_crc off (seal off block) ≡ hash block
  unfolding stored_crc seal
  stored_crc-seal =
      let four = length-to_le 4 (hash block) in
      ap from_le (
        ap (λ n. slice off n (splice off (to_le 4 (hash block)) block)) (sym four)
        ∙ slice-splice off (to_le 4 (hash block)) block (omega (arith, fit)))
      ∙ from_le-to_le 4 (hash block) (hash-lt block)

  -- And what it should hold is the same.
  pub expected_crc-seal :
      slice off 4 block ≡ zeros 4 → expected_crc off (seal off block) ≡ hash block
  unfolding expected_crc seal
  expected_crc-seal blank = ap hash restored
    where
      before : off ≡ length (take off block)
      before = sym (length-take off block (omega (arith, fit)))

      whole : block ≡ take off block ++ (zeros 4 ++ drop (off + 4) block)
      whole =
          sym (parts off 4 block) ∙ ap (λ z. take off block ++ (z ++ drop (off + 4) block)) blank

      sealed_parts :
          splice off (to_le 4 (hash block)) block
          ≡ take off block ++ (to_le 4 (hash block) ++ drop (off + 4) block)
      sealed_parts =
          ap (splice off (to_le 4 (hash block))) whole
          ∙ splice-append off (to_le 4 (hash block)) (take off block) (zeros 4)
              (drop (off + 4) block) before (length-to_le 4 (hash block) ∙ sym (length-zeros 4))

      restored : splice off (zeros 4) (splice off (to_le 4 (hash block)) block) ≡ block
      restored =
          ap (splice off (zeros 4)) sealed_parts
          ∙ splice-append off (zeros 4) (take off block) (to_le 4 (hash block))
              (drop (off + 4) block) before (length-zeros 4 ∙ sym (length-to_le 4 (hash block)))
          ∙ sym whole

  -- What stands before the checksum is not touched.
  slice-seal : (at len : ℕ) → at + len ≤ off → slice at len (seal off block) ≡ slice at len block
  unfolding seal
  slice-seal at len h =
      slice-splice_before off (to_le 4 (hash block)) block
        (omega (arith, fit, length-to_le 4 (hash block))) at len h

-- A block of zeros with a payload at its start.
unfoldable pub padded : ℕ → List ℕ → List ℕ
padded size payload = splice 0 payload (zeros size)

module _ (size : ℕ) (payload : List ℕ) (fit : length payload ≤ size) where
  length-padded : length (padded size payload) ≡ size
  unfolding padded
  length-padded =
      length-splice 0 payload (zeros size) (omega (arith, fit, length-zeros size))
      ∙ length-zeros size

  slice-padded :
      (off : ℕ)
      → length payload ≤ off
      → off + 4 ≤ size
      → slice off 4 (padded size payload) ≡ zeros 4
  unfolding padded
  slice-padded off h q =
      slice-splice_behind 0 payload (zeros size) (omega (arith, fit, length-zeros size)) off 4
        (omega arith) (omega (arith, length-zeros size))
      ∙ slice-zeros off 4 size q

  -- The sealed block is the payload and something behind it.
  pub seal-padded :
      (off : ℕ)
      → length payload ≤ off
      → off + 4 ≤ size
      → seal off (padded size payload)
        ≡ payload ++ drop (length payload) (seal off (padded size payload))
  unfolding slice drop
  seal-padded off h q =
      let block = padded size payload in
      let room : off + 4 ≤ length block = omega (arith, q, length-padded) in
      sym (take-drop (length payload) (seal off block))
      ∙ ap (λ p. p ++ drop (length payload) (seal off block))
          (slice-seal off block room 0 (length payload) (omega arith) ∙ front)
    where
      front : slice 0 (length payload) (padded size payload) ≡ payload
      front = unfold padded in slice-splice 0 payload (zeros size) (omega arith)

-- What a decoder finds in a sealed block: its size, the checksum that it should hold, and the fields
-- that its reader reads from the payload.
pub record Found {A : Type 0} (read : Reader A) (off size : ℕ) (block : List ℕ) (fields : A)
    : Type 0 where
  pub sized : length block ≡ size
  pub checksum : expected_crc off block ≡ stored_crc off block
  pub fields_read : (read block).0 ≡ fields

pub Found-seal :
    {A : Type 0} (read : Reader A) (off size : ℕ) (payload : List ℕ) (fields : A)
    → length payload ≤ off
    → off + 4 ≤ size
    → ((rest : List ℕ) → read (payload ++ rest) ≡ (fields, rest))
    → Found read off size (seal off (padded size payload)) fields
Found-seal read off size payload fields short fit reads =
    let block = padded size payload in
    let inside : length payload ≤ size = omega (arith, short, fit) in
    let room : off + 4 ≤ length block = omega (arith, fit, length-padded size payload inside) in
    record {
      sized = length-seal off block room ∙ length-padded size payload inside;
      checksum =
          expected_crc-seal off block room (slice-padded size payload inside off short fit)
          ∙ sym (stored_crc-seal off block room);
      fields_read =
          ap (λ b. (read b).0) (seal-padded size payload inside off short fit)
          ∙ ap (λ p. p.0) (reads (drop (length payload) (seal off block)));
    }
