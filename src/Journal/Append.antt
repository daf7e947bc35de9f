-- ===== src/Journal/Append.antt =====
-- Appending to the log.
use mathlib.Core.List.{append_assoc, append-nil}
use corefs.Common.{
  ℕ, ◌+◌, ◌*◌, ◌^◌, ◌≤◌, ◌<◌, ◌≡◌, refl, sym, ap, ◌∙◌, false, ltb, List, [], ◌∷◌, ◌++◌, ok, length,
  length-append, arith, >>=-ok,
}
use corefs.Common.Word.{add64}
use corefs.Bytes.{slice, splice}
use corefs.Bytes.Nested.{slice-splice_next}
use corefs.Device.{BlockDevice}
use corefs.Device.Lawful.{Laws}
use corefs.Journal.{RecordKind}
use corefs.Journal.Header.{JournalHeader}
use corefs.Journal.Log.{Journal, record_bytes, write_bytes, append_record, advance}
use corefs.Journal.Area.{write_bytes_lem}
use corefs.Journal.Entries.{Entry, entry_bytes, length-entry_bytes, Holds, at, Open}

unfoldable pub log_bytes : List Entry → List ℕ
log_bytes [] = []
log_bytes (e ∷ es) = entry_bytes e ++ log_bytes es

pub log_bytes-append :
    (es : List Entry) (e : Entry) → log_bytes (es ++ e ∷ []) ≡ log_bytes es ++ entry_bytes e
unfolding log_bytes
log_bytes-append [] e = append-nil (entry_bytes e)
log_bytes-append (x ∷ es) e =
    ap (λ b. entry_bytes x ++ b) (log_bytes-append es e)
    ∙ sym (append_assoc (entry_bytes x) (log_bytes es) (entry_bytes e))

-- The header after a record of `total` bytes.
unfoldable pub advanced : ℕ → JournalHeader → JournalHeader
advanced total h = record h {
  tail_offset = add64 h.tail_offset total;
  next_seq = add64 h.next_seq 1;
}

module _ (dev : BlockDevice) (IsValid : dev.Device → Type 0) (contents : dev.Device → List ℕ)
    (laws : Laws dev IsValid contents) where
  -- What `append_record` leaves: the record's bytes at the tail, and the header moved on.
  pub record Appended (j : Journal dev) (e : Entry) (j' : Journal dev) : Type 0 where
    pub opened : Open dev IsValid contents laws j'
    pub header : j'.header ≡ advanced (44 + length e.payload) j.header
    pub head : j'.header.head_offset ≡ j.header.head_offset
    pub tail : j'.header.tail_offset ≡ j.header.tail_offset + (44 + length e.payload)
    pub start : j'.record_start_block ≡ j.record_start_block
    pub header_place : j'.header_block ≡ j.header_block
    pub area : j'.header.record_area_bytes ≡ j.header.record_area_bytes
    pub same_geometry : dev.geometry j'.device ≡ dev.geometry j.device
    pub written :
        contents j'.device
        ≡ splice
            (at dev IsValid contents laws j j.header.tail_offset)
            (entry_bytes e)
            (contents j.device)

  module _ (j : Journal dev) (open_j : Open dev IsValid contents laws j) (kind : RecordKind)
      (txn_id : ℕ) (payload : List ℕ)
      (fit : j.header.tail_offset + (44 + length payload) ≤ j.header.record_area_bytes) where
    -- The record that is appended
    abbrev pub next_entry : Entry
    next_entry = record { kind = kind; txn_id = txn_id; seq = j.header.next_seq; payload = payload }

    pub append_record_lem :
        (j' : Journal dev) × (append_record dev kind txn_id payload j ≡ (ok tt, j'))
        × Appended j next_entry j'
    unfolding append_record entry_bytes
    append_record_lem =
        let bytes = entry_bytes next_entry in
        let long : length bytes ≡ 44 + length payload = length-entry_bytes next_entry in
        let (d, e, w) =
          write_bytes_lem dev IsValid contents laws j open_j j.header.tail_offset bytes
            (omega (arith, long)) (omega (arith, long, fit)) in
        let room : ltb j.header.record_area_bytes
              (add64 j.header.tail_offset (40 + length payload + 4))
            ≡ false =
          ground (arith, fit, small) in
        (
          advance dev (40 + length payload + 4) (record j { device = d }),
          rw room (
              >>=-ok
                (write_bytes dev j.header.tail_offset
                  (record_bytes kind txn_id j.header.next_seq payload))
                (λ _ k. (ok tt, advance dev (40 + length payload + 4) k)) j e),
          unfold advance advanced in
              record {
                opened = record {
                  valid = w.valid_device;
                  writable = ap (λ g. g.read_only) w.same_geometry ∙ open_j.writable;
                  inside = omega (arith, open_j.inside, ap (λ g. g.capacity_bytes) w.same_geometry);
                };
                header =
                    let same : 40 + length payload + 4 ≡ 44 + length payload = omega arith in
                    rw same refl;
                head = refl;
                tail = omega (arith, fit, small);
                start = refl;
                header_place = refl;
                area = refl;
                same_geometry = w.same_geometry;
                written = w.written;
              },
        )
      where
        small : j.header.tail_offset + (44 + length payload) < 2 ^ 64
        small = omega (arith, fit, open_j.inside, (laws.sized j.device open_j.valid).1)

  -- The log between head and tail is these records.
  pub record HoldsLog (j : Journal dev) (es : List Entry) : Type 0 where
    pub held : Holds dev IsValid contents laws j j.header.head_offset (log_bytes es)
    pub ends : j.header.head_offset + length (log_bytes es) ≡ j.header.tail_offset

  -- An appended record is the last one of the log.
  pub HoldsLog-append :
      (j : Journal dev) (es : List Entry) (e : Entry) (j' : Journal dev)
      → Open dev IsValid contents laws j
      → HoldsLog j es
      → Appended j e j'
      → j.header.tail_offset + (44 + length e.payload) ≤ j.header.record_area_bytes
      → HoldsLog j' (es ++ e ∷ [])
  HoldsLog-append j es e j' open_j log a fit = record {
    held = record {
      inside = omega (arith, size, long, a.head, a.area, log.ends, fit);
      held =
          (λ i. slice (same_place i) (size i) (contents_now i))
          ∙ slice-splice_next (At j head) n (entry_bytes e) (contents j.device) room
          ∙ ap (λ b. b ++ entry_bytes e) log.held.held
          ∙ sym (log_bytes-append es e);
    };
    ends = omega (arith, size, long, a.head, a.tail, log.ends);
  }
    where
      At : Journal dev → ℕ → ℕ
      At = at dev IsValid contents laws

      head : ℕ
      head = j.header.head_offset

      n : ℕ
      n = length (log_bytes es)

      long : length (entry_bytes e) ≡ 44 + length e.payload
      long = length-entry_bytes e

      size : length (log_bytes (es ++ e ∷ [])) ≡ n + length (entry_bytes e)
      size = ap length (log_bytes-append es e) ∙ length-append (log_bytes es) (entry_bytes e)

      same_place : At j' j'.header.head_offset ≡ At j head
      same_place = λ i. a.start i * 4096 + a.head i

      contents_now : contents j'.device ≡ splice (At j head + n) (entry_bytes e) (contents j.device)
      contents_now =
          let behind : At j j.header.tail_offset ≡ At j head + n = omega (arith, log.ends) in
          a.written ∙ ap (λ k. splice k (entry_bytes e) (contents j.device)) behind

      room : At j head + n + length (entry_bytes e) ≤ length (contents j.device)
      room = omega (arith, long, log.ends, fit, open_j.inside, (laws.sized j.device open_j.valid).0)
