-- ===== src/Journal/Log.antt =====
-- The journal's record area: reads and writes of whole sectors around a range, and the records.
use corefs.Common.{
  ℕ, ◌+◌, ◌/◌, Bool, true, not, ◌&&◌, ltb, ◌==◌, if◌then◌else◌, List, [], ◌∷◌, ◌++◌, length, Option,
  none, some, CoreFsResult, ok, err, state, Method, ◌>>◌, and_then,
}
use corefs.Common.Word.{add64, sub64, mul64, div_ceil, as_u32}
use corefs.Bytes.{to_le, from_le, take, slice, splice, zeros}
use corefs.Checksum.{hash}
use corefs.Layout.{block_size}
use corefs.Sealed.{seal, stored_crc, expected_crc}
use corefs.Device.{BlockDevice}
use corefs.Journal.{RecordKind, kind_to_u16, from_u16}
use corefs.Journal.Header.{JournalHeader}

-- `RECORD_MAGIC`, `RECORD_HEADER_BYTES`, `RECORD_TRAILER_BYTES`
abbrev pub record_magic : ℕ
record_magic = 0xcafe50ed

abbrev pub record_header_bytes : ℕ
record_header_bytes = 40

abbrev pub record_trailer_bytes : ℕ
record_trailer_bytes = 4

-- `(offset / sector) * sector` and `end.div_ceil(sector) * sector`
unfoldable pub aligned_start : ℕ → ℕ → ℕ
aligned_start sector offset = mul64 (offset / sector) sector

unfoldable pub aligned_end : ℕ → ℕ → ℕ
aligned_end sector end = mul64 (div_ceil end sector) sector

-- The header of a record as `read_record_at` takes it apart
pub record RecordHeader : Type 0 where
  pub kind : ℕ
  pub txn_id : ℕ
  pub payload_len : ℕ

pub record DecodedRecord : Type 0 where
  pub kind : RecordKind
  pub txn_id : ℕ
  pub payload : List ℕ
  pub encoded_len : ℕ

-- `header_bytes.iter().all(|b| *b == 0)`
unfoldable pub all_zero : List ℕ → Bool
all_zero [] = true
all_zero (b ∷ bytes) = (b == 0) && all_zero bytes

-- The checks of `read_record_at` on the 40 bytes of a header
unfoldable pub record_header : List ℕ → Option RecordHeader
record_header bytes =
    if all_zero bytes
    then none
    else if not (from_le (slice 0 4 bytes) == record_magic)
    then none
    else if not (expected_crc 28 (take 32 bytes) == stored_crc 28 bytes)
    then none
    else some (record {
      kind = from_le (slice 4 2 bytes);
      txn_id = from_le (slice 8 8 bytes);
      payload_len = from_le (slice 24 4 bytes);
    })

-- The array that `append_record` fills: the fields in the first 32 bytes, with their checksum
unfoldable pub header_fields : RecordKind → ℕ → ℕ → ℕ → List ℕ
header_fields kind txn_id seq payload_len =
    to_le 4 record_magic
    ++ (to_le 2 (kind_to_u16 kind)
        ++ (to_le 2 0
            ++ (to_le 8 txn_id ++ (to_le 8 seq ++ (to_le 4 (as_u32 payload_len) ++ zeros 4)))))

unfoldable pub header_bytes : RecordKind → ℕ → ℕ → ℕ → List ℕ
header_bytes kind txn_id seq payload_len =
    seal 28 (header_fields kind txn_id seq payload_len) ++ zeros 8

-- `full`, the bytes of a whole record
unfoldable pub record_bytes : RecordKind → ℕ → ℕ → List ℕ → List ℕ
record_bytes kind txn_id seq payload =
    let full = header_bytes kind txn_id seq (length payload) ++ payload in
    full ++ to_le 4 (hash full)

module _ (dev : BlockDevice) where
  -- `Journal`: the device, where the header block and the records stand, and a copy of the header
  pub record Journal : Type 0 where
    pub device : dev.Device
    pub header_block : ℕ
    pub record_start_block : ℕ
    pub header : JournalHeader

  -- A call on the journal's device
  abbrev pub on_device : {A : Type 0} → Method dev.Device A → Method Journal A
  on_device m j = let (r, d) = m j.device in (r, record j { device = d })

  -- `record_start_block * BLOCK_SIZE + offset`
  unfoldable pub device_offset : Journal → ℕ → ℕ
  device_offset j offset = add64 (mul64 j.record_start_block block_size) offset

  -- `Journal::read_bytes`. A slice past what the device returned panics in the source.
  unfoldable pub read_bytes : ℕ → ℕ → Journal → CoreFsResult (List ℕ)
  read_bytes offset len j =
      if len == 0
      then ok []
      else let sector = (dev.geometry j.device).sector_size in
        let at = device_offset j offset in
        let start = aligned_start sector at in
        let end = aligned_end sector (add64 at len) in
        and_then (dev.read_at start (sub64 end start) j.device)
          λ raw. ok (slice (sub64 at start) len raw)

  -- `Journal::write_bytes`
  unfoldable pub write_bytes : ℕ → List ℕ → Method Journal (Unit {0})
  write_bytes offset bytes j =
      if length bytes == 0
      then (ok tt, j)
      else let sector = (dev.geometry j.device).sector_size in
        let at = device_offset j offset in
        let start = aligned_start sector at in
        let end = aligned_end sector (add64 at (length bytes)) in
        elim (dev.read_at start (sub64 end start) j.device) [
          | err e ↦ (err e, j)
          | ok raw ↦ on_device (dev.write_at start (splice (sub64 at start) bytes raw)) j
        ]

  -- What `read_record_at` does once it has accepted the header
  unfoldable pub read_rest :
      ℕ → List ℕ → RecordHeader → Journal → CoreFsResult (Option DecodedRecord)
  read_rest offset bytes h j =
      and_then (read_bytes (add64 offset record_header_bytes) h.payload_len j) λ payload.
        and_then
          (read_bytes (add64 (add64 offset record_header_bytes) h.payload_len) record_trailer_bytes
            j)
          λ trailer.
            if not (hash (bytes ++ payload) == from_le trailer)
            then ok none
            else and_then (from_u16 h.kind) λ kind. ok (
                some (record {
                  kind = kind;
                  txn_id = h.txn_id;
                  payload = payload;
                  encoded_len =
                      add64 (add64 record_header_bytes h.payload_len) record_trailer_bytes;
                }))

  -- `Journal::read_record_at`
  unfoldable pub read_record_at : ℕ → Journal → CoreFsResult (Option DecodedRecord)
  read_record_at offset j =
      and_then (read_bytes offset record_header_bytes j)
        λ bytes. elim (record_header bytes) [ none ↦ ok none | some h ↦ read_rest offset bytes h j ]

  -- The last two assignments of `append_record`
  unfoldable pub advance : ℕ → Journal → Journal
  advance total j = record j {
    header = record (j.header) {
      tail_offset = add64 j.header.tail_offset total;
      next_seq = add64 j.header.next_seq 1;
    };
  }

  -- `Journal::append_record`
  unfoldable pub append_record : RecordKind → ℕ → List ℕ → Method Journal (Unit {0})
  append_record kind txn_id payload j =
      let total = record_header_bytes + length payload + record_trailer_bytes in
      if ltb j.header.record_area_bytes (add64 j.header.tail_offset total)
      then (err state, j)
      else (do
        write_bytes j.header.tail_offset (record_bytes kind txn_id j.header.next_seq payload)
        λ j'. (ok tt, advance total j'))
          j
