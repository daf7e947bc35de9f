-- ===== src/Journal/Entries.antt =====
-- The records of the log, and that one which the record area holds is read from it.
use native.Mathlib.Nat.{mod-eq_of_lt}
use mathlib.Core.List.{append_assoc, append-nil}
use corefs.Common.{
  ℕ, ◌+◌, ◌-◌, ◌^◌, ◌≤◌, ◌<◌, ◌≡◌, refl, sym, ap, ◌∙◌, true, ◌==◌, List, [], ◌++◌, some, ok, length,
  length-append, arith, and_then-ok,
}
use corefs.Common.Word.{add64}
use corefs.Bytes.{to_le, from_le, slice, length-to_le, from_le-to_le, slice-append}
use corefs.Bytes.Nested.{slice-slice}
use corefs.Checksum.{hash}
use corefs.Checksum.Bytewise.{hash-lt}
use corefs.Device.{BlockDevice}
use corefs.Device.Lawful.{Laws}
use corefs.Journal.{RecordKind, kind_to_u16, from_u16}
use corefs.Journal.Ops.{from_u16_iff}
use corefs.Journal.Log.{
  Journal, header_bytes, record_bytes, read_bytes, read_record_at, read_rest, DecodedRecord,
}
use corefs.Journal.Record.{length-header_bytes, record_header-header_bytes}
use corefs.Journal.Area.{place, IsOpen, read_bytes_lem}

-- What is logged: a record and its sequence number
pub record Entry : Type 0 where
  pub kind : RecordKind
  pub txn_id : ℕ
  pub seq : ℕ
  pub payload : List ℕ

unfoldable pub entry_bytes : Entry → List ℕ
entry_bytes e = record_bytes e.kind e.txn_id e.seq e.payload

-- The identifier and the length of the payload fit in their fields.
pub record FitsEntry (e : Entry) : Type 0 where
  pub txn_id : e.txn_id < 2 ^ 64
  pub payload : length e.payload < 2 ^ 32

-- What `read_record_at` returns of a record
unfoldable pub decoded : Entry → DecodedRecord
decoded e = record {
  kind = e.kind;
  txn_id = e.txn_id;
  payload = e.payload;
  encoded_len = 44 + length e.payload;
}

module _ (e : Entry) where
  abbrev head : List ℕ
  head = header_bytes e.kind e.txn_id e.seq (length e.payload)

  abbrev trailer : List ℕ
  trailer = to_le 4 (hash (head ++ e.payload))

  length-head : length head ≡ 40
  length-head = length-header_bytes e.kind e.txn_id e.seq (length e.payload)

  pub length-entry_bytes : length (entry_bytes e) ≡ 44 + length e.payload
  unfolding entry_bytes record_bytes
  length-entry_bytes = omega (
    arith,
    length-append (head ++ e.payload) trailer,
    length-append head e.payload,
    length-head,
    length-to_le 4 (hash (head ++ e.payload)),
  )

  head_part : slice 0 40 (entry_bytes e) ≡ head
  unfolding entry_bytes record_bytes
  head_part =
      ap (slice 0 40) (append_assoc head e.payload trailer)
      ∙ slice-append 0 40 [] head (e.payload ++ trailer) refl (sym length-head)

  payload_part : slice 40 (length e.payload) (entry_bytes e) ≡ e.payload
  unfolding entry_bytes record_bytes
  payload_part =
      ap (slice 40 (length e.payload)) (append_assoc head e.payload trailer)
      ∙ slice-append 40 (length e.payload) head e.payload trailer (sym length-head) refl

  trailer_part : slice (40 + length e.payload) 4 (entry_bytes e) ≡ trailer
  unfolding entry_bytes record_bytes
  trailer_part =
      ap (λ t. slice (40 + length e.payload) 4 ((head ++ e.payload) ++ t))
        (sym (append-nil trailer))
      ∙ slice-append (40 + length e.payload) 4 (head ++ e.payload) trailer []
          (omega (arith, length-append head e.payload, length-head))
          (sym (length-to_le 4 (hash (head ++ e.payload))))

module _ (dev : BlockDevice) (IsValid : dev.Device → Type 0) (contents : dev.Device → List ℕ)
    (laws : Laws dev IsValid contents) where
  abbrev pub Open : Journal dev → Type 0
  Open = IsOpen dev IsValid contents laws

  abbrev pub at : Journal dev → ℕ → ℕ
  at = place dev IsValid contents laws

  -- The record area holds these bytes at an offset.
  pub record Holds (j : Journal dev) (offset : ℕ) (bytes : List ℕ) : Type 0 where
    pub inside : offset + length bytes ≤ j.header.record_area_bytes
    pub held : slice (at j offset) (length bytes) (contents j.device) ≡ bytes

  module _ (j : Journal dev) (open_j : Open j) (offset : ℕ) (bytes : List ℕ)
      (holds : Holds j offset bytes) where
    -- A range of what it holds is read from it.
    read_part :
        (skip len : ℕ)
        → skip + len ≤ length bytes
        → read_bytes dev (offset + skip) len j ≡ ok (slice skip len bytes)
    read_part skip len fit =
        let whole : at j offset + length bytes ≤ length (contents j.device) =
          omega (arith, holds.inside, open_j.inside, (laws.sized j.device open_j.valid).0) in
        let same : at j (offset + skip) - at j offset ≡ skip = omega arith in
        read_bytes_lem dev IsValid contents laws j open_j (offset + skip) len
          (omega (arith, fit, holds.inside))
        ∙ ap ok (
            sym (
              slice-slice (at j offset) (at j (offset + skip)) len (length bytes)
                (contents j.device) (omega arith) (omega (arith, fit)) whole)
            ∙ (rw same (ap (slice skip len) holds.held)))

  module _ (j : Journal dev) (open_j : Open j) (offset : ℕ) (e : Entry) (fits : FitsEntry e)
      (holds : Holds j offset (entry_bytes e)) where
    small : offset + 44 + length e.payload < 2 ^ 64
    small = omega (
      arith,
      holds.inside,
      open_j.inside,
      (laws.sized j.device open_j.valid).1,
      length-entry_bytes e,
    )

    read_head : read_bytes dev offset 40 j ≡ ok (head e)
    read_head =
        let same : offset + 0 ≡ offset = omega arith in
        ap (λ k. read_bytes dev k 40 j) (sym same)
        ∙ read_part j open_j offset (entry_bytes e) holds 0 40 (omega (arith, length-entry_bytes e))
        ∙ ap ok (head_part e)

    read_payload : read_bytes dev (add64 offset 40) (length e.payload) j ≡ ok e.payload
    read_payload =
        let same : add64 offset 40 ≡ offset + 40 = mod-eq_of_lt (omega (arith, small)) in
        ap (λ k. read_bytes dev k (length e.payload) j) same
        ∙ read_part j open_j offset (entry_bytes e) holds 40 (length e.payload)
            (omega (arith, length-entry_bytes e))
        ∙ ap ok (payload_part e)

    read_trailer : read_bytes dev (add64 (add64 offset 40) (length e.payload)) 4 j ≡ ok (trailer e)
    read_trailer =
        let same : add64 (add64 offset 40) (length e.payload) ≡ offset + (40 + length e.payload) =
          omega (arith, small) in
        ap (λ k. read_bytes dev k 4 j) same
        ∙ read_part j open_j offset (entry_bytes e) holds (40 + length e.payload) 4
            (omega (arith, length-entry_bytes e))
        ∙ ap ok (trailer_part e)

    pub read_record_at_lem : read_record_at dev offset j ≡ ok (some (decoded e))
    unfolding read_record_at read_rest decoded
    read_record_at_lem =
        let crc = hash (head e ++ e.payload) in
        let sealed : (crc == from_le (trailer e)) ≡ true =
          ground (arith, from_le-to_le 4 crc (hash-lt (head e ++ e.payload))) in
        let total : add64 (add64 40 (length e.payload)) 4 ≡ 44 + length e.payload =
          omega (arith, small) in
        let known : from_u16 (kind_to_u16 e.kind) ≡ ok e.kind =
          (from_u16_iff (kind_to_u16 e.kind) e.kind).1 refl in
        and_then-ok (read_bytes dev offset 40 j) _ read_head (
          rw
            (record_header-header_bytes e.kind e.txn_id e.seq (length e.payload) fits.txn_id
              fits.payload)
            (and_then-ok (read_bytes dev (add64 offset 40) (length e.payload) j) _ read_payload (
              and_then-ok (read_bytes dev (add64 (add64 offset 40) (length e.payload)) 4 j) _
                read_trailer
                (rw sealed (
                  and_then-ok (from_u16 (kind_to_u16 e.kind)) _ known (
                    ap
                      (λ n. ok (
                        some (record {
                          kind = e.kind;
                          txn_id = e.txn_id;
                          payload = e.payload;
                          encoded_len = n;
                        })))
                      total))))))
