-- ===== src/Journal/Record.antt =====
-- The bytes of a record, and that its header is read back from them.
use mathlib.Core.List.{append_assoc, append-nil}
use corefs.Common.{
  ℕ, ◌+◌, ◌^◌, ◌≤◌, ◌<◌, ◌≡◌, refl, sym, ap, ◌∙◌, true, false, ◌==◌, List, [], ◌++◌, some, length,
  length-append, arith,
}
use corefs.Common.Word.{as_u32}
use corefs.Bytes.{
  to_le, from_le, take, drop, slice, splice, zeros, length-to_le, length-zeros, from_le-to_le,
  take-append, splice-append, slice-append,
}
use corefs.Checksum.{hash}
use corefs.Checksum.Bytewise.{hash-lt}
use corefs.Sealed.{seal, stored_crc, expected_crc, length-seal, expected_crc-seal}
use corefs.Journal.{RecordKind, op, commit, abort, kind_to_u16}
use corefs.Journal.Log.{record_magic, all_zero, record_header, header_fields, header_bytes}

kind_in_word : (kind : RecordKind) → kind_to_u16 kind < 2 ^ 16
unfolding kind_to_u16
kind_in_word op = omega arith
kind_in_word commit = omega arith
kind_in_word abort = omega arith

module _ (kind : RecordKind) (txn_id seq len : ℕ) where
  -- The fields before the checksum
  abbrev fields : List ℕ
  fields =
      to_le 4 record_magic
      ++ (to_le 2 (kind_to_u16 kind)
          ++ (to_le 2 0 ++ (to_le 8 txn_id ++ (to_le 8 seq ++ to_le 4 (as_u32 len)))))

  length-fields : length fields ≡ 28
  length-fields = simp (length-append, length-to_le) refl

  fields_zeros : header_fields kind txn_id seq len ≡ fields ++ (zeros 4 ++ [])
  unfolding header_fields
  fields_zeros = simp (append_assoc, append-nil)

  length-header_fields : length (header_fields kind txn_id seq len) ≡ 32
  unfolding header_fields
  length-header_fields = simp (length-append, length-to_le, length-zeros) refl

  abbrev crc : ℕ
  crc = hash (header_fields kind txn_id seq len)

  sealed_fields : seal 28 (header_fields kind txn_id seq len) ≡ fields ++ (to_le 4 crc ++ [])
  unfolding seal
  sealed_fields =
      ap (splice 28 (to_le 4 crc)) fields_zeros
      ∙ splice-append 28 (to_le 4 crc) fields (zeros 4) [] (sym length-fields)
          (length-to_le 4 crc ∙ sym (length-zeros 4))

  header_laid : header_bytes kind txn_id seq len ≡ fields ++ (to_le 4 crc ++ zeros 8)
  unfolding header_bytes
  header_laid = ap (λ s. s ++ zeros 8) sealed_fields ∙ simp append_assoc

  pub length-header_bytes : length (header_bytes kind txn_id seq len) ≡ 40
  length-header_bytes =
      ap length header_laid
      ∙ omega (
        arith,
        length-append fields (to_le 4 crc ++ zeros 8),
        length-append (to_le 4 crc) (zeros 8),
        length-fields,
        length-to_le 4 crc,
        length-zeros 8,
      )

  header_checked :
      expected_crc 28 (take 32 (header_bytes kind txn_id seq len))
      ≡ stored_crc 28 (header_bytes kind txn_id seq len)
  unfolding header_bytes stored_crc
  header_checked = should ∙ sym does
    where
      room : 28 + 4 ≤ length (header_fields kind txn_id seq len)
      room = omega (arith, length-header_fields)

      blank : slice 28 4 (header_fields kind txn_id seq len) ≡ zeros 4
      blank =
          ap (slice 28 4) fields_zeros
          ∙ slice-append 28 4 fields (zeros 4) [] (sym length-fields) (sym (length-zeros 4))

      should : expected_crc 28 (take 32 (header_bytes kind txn_id seq len)) ≡ crc
      should =
          ap (expected_crc 28) (
            take-append 32 (seal 28 (header_fields kind txn_id seq len)) (zeros 8) (
              omega (
                arith,
                length-seal 28 (header_fields kind txn_id seq len) room,
                length-header_fields,
              )))
          ∙ expected_crc-seal 28 (header_fields kind txn_id seq len) room blank

      does : stored_crc 28 (header_bytes kind txn_id seq len) ≡ crc
      does =
          ap (λ b. from_le (slice 28 4 b)) header_laid
          ∙ ap from_le (
              slice-append 28 4 fields (to_le 4 crc) (zeros 8) (sym length-fields)
                (sym (length-to_le 4 crc)))
          ∙ from_le-to_le 4 crc (hash-lt (header_fields kind txn_id seq len))

  -- The header of a record is taken apart into what it was made of.
  pub record_header-header_bytes :
      txn_id < 2 ^ 64
      → len < 2 ^ 32
      → record_header (header_bytes kind txn_id seq len)
        ≡ some (record { kind = kind_to_u16 kind; txn_id = txn_id; payload_len = len })
  record_header-header_bytes h w =
      let known : (from_le (slice 0 4 bytes) == record_magic) ≡ true = ground (arith, magic) in
      let same : (expected_crc 28 (take 32 bytes) == stored_crc 28 bytes) ≡ true =
        ground (arith, header_checked) in
      unfold record_header in
      rw not_zero rw known rw same
        (ap some λ i. record { kind = kind_back i; txn_id = id_back i; payload_len = len_back i })
    where
      bytes : List ℕ
      bytes = header_bytes kind txn_id seq len

      not_zero : all_zero bytes ≡ false
      not_zero = unfold all_zero to_le in rw header_laid refl

      magic : from_le (slice 0 4 bytes) ≡ record_magic
      magic =
          rw header_laid unfold slice take drop to_le in from_le-to_le 4 record_magic (omega arith)

      kind_back : from_le (slice 4 2 bytes) ≡ kind_to_u16 kind
      kind_back =
          rw header_laid
            unfold slice take drop to_le in from_le-to_le 2 (kind_to_u16 kind) (kind_in_word kind)

      id_back : from_le (slice 8 8 bytes) ≡ txn_id
      id_back = rw header_laid unfold slice take drop to_le in from_le-to_le 8 txn_id h

      len_back : from_le (slice 24 4 bytes) ≡ len
      len_back =
          rw header_laid
            unfold slice take drop to_le in
              (from_le-to_le 4 (as_u32 len) (omega arith) ∙ omega (arith, w))
