-- ===== src/Journal/Header.antt =====
-- The header block of the journal, and that it is read back.
use mathlib.Core.List.{append_assoc}
use corefs.Common.{
  ℕ, ◌<◌, ◌≡◌, refl, sym, ap, ◌∙◌, true, List, [], ◌++◌, not, ◌==◌, if◌then◌else◌, CoreFsResult, ok,
  err, invalid_input, state, length, length-append, arith,
}
use corefs.Bytes.{word, to_le, length-to_le}
use corefs.Bytes.Reader.{Reader, ◌>>=◌, pure, number, number-to_le}
use corefs.Layout.{block_size}
use corefs.Sealed.{seal, padded, stored_crc, expected_crc, Found, Found-seal}

-- `JOURNAL_MAGIC`: the bytes COREJRNL
abbrev pub journal_magic : ℕ
journal_magic = 0x4c4e524a45524f43

-- `HEADER_CHECKSUM_OFFSET`
abbrev pub header_checksum_offset : ℕ
header_checksum_offset = 124

-- `JSTATE_CLEAN` and `JSTATE_DIRTY`
abbrev pub jstate_clean : ℕ
jstate_clean = 0

abbrev pub jstate_dirty : ℕ
jstate_dirty = 1

pub record JournalHeader : Type 0 where
  pub magic : ℕ
  pub version : ℕ
  pub flags : ℕ
  pub head_offset : ℕ
  pub tail_offset : ℕ
  pub next_seq : ℕ
  pub next_txn_id : ℕ
  pub state : ℕ
  pub record_area_bytes : ℕ

-- `JournalHeader::fresh`
unfoldable pub fresh : ℕ → JournalHeader
fresh record_area_bytes = record {
  magic = journal_magic;
  version = 1;
  flags = 0;
  head_offset = 0;
  tail_offset = 0;
  next_seq = 0;
  next_txn_id = 1;
  state = jstate_clean;
  record_area_bytes = record_area_bytes;
}

-- The calls of `put` in their order, before `rest`
unfoldable pub written : JournalHeader → List ℕ → List ℕ
written h rest =
    to_le 8 h.magic
    ++ (to_le 2 h.version
        ++ (to_le 2 h.flags
            ++ (to_le 8 h.head_offset
                ++ (to_le 8 h.tail_offset
                    ++ (to_le 8 h.next_seq
                        ++ (to_le 8 h.next_txn_id
                            ++ (to_le 4 h.state ++ (to_le 8 h.record_area_bytes ++ rest))))))))

-- `JournalHeader::encode_block`
unfoldable pub encode_block : JournalHeader → List ℕ
encode_block h = seal header_checksum_offset (padded block_size (written h []))

-- The reads of `decode_block` in their order
unfoldable pub read_fields : Reader JournalHeader
read_fields = do
  magic ← number 8
  version ← number 2
  flags ← number 2
  head_offset ← number 8
  tail_offset ← number 8
  next_seq ← number 8
  next_txn_id ← number 8
  journal_state ← number 4
  record_area_bytes ← number 8
  pure (record {
    magic = magic;
    version = version;
    flags = flags;
    head_offset = head_offset;
    tail_offset = tail_offset;
    next_seq = next_seq;
    next_txn_id = next_txn_id;
    state = journal_state;
    record_area_bytes = record_area_bytes;
  })

-- `JournalHeader::decode_block`
unfoldable pub decode_block : List ℕ → CoreFsResult JournalHeader
decode_block block =
    if not (length block == block_size)
    then err invalid_input
    else if not
        (stored_crc header_checksum_offset block == expected_crc header_checksum_offset block)
    then err state
    else let h = (read_fields block).0 in if not (h.magic == journal_magic) then err state else ok h

-- Every field fits in its place.
pub record FitsFields (h : JournalHeader) : Type 0 where
  pub magic : h.magic ≡ journal_magic
  pub version : h.version < word 2
  pub flags : h.flags < word 2
  pub head_offset : h.head_offset < word 8
  pub tail_offset : h.tail_offset < word 8
  pub next_seq : h.next_seq < word 8
  pub next_txn_id : h.next_txn_id < word 8
  pub state : h.state < word 4
  pub record_area_bytes : h.record_area_bytes < word 8

written-rest : (h : JournalHeader) (rest : List ℕ) → written h rest ≡ written h [] ++ rest
unfolding written
written-rest h rest = simp append_assoc

length-written : (h : JournalHeader) → length (written h []) ≡ 56
unfolding written
length-written h = simp (length-append, length-to_le) refl

read_fields-written :
    (h : JournalHeader) (rest : List ℕ) → FitsFields h → read_fields (written h rest) ≡ (h, rest)
unfolding read_fields written
read_fields-written h rest v =
    rw (number-to_le 8 h.magic _ (omega (arith, v.magic))) rw (number-to_le 2 h.version _ v.version)
      (rw (number-to_le 2 h.flags _ v.flags) rw (number-to_le 8 h.head_offset _ v.head_offset) (
        rw (number-to_le 8 h.tail_offset _ v.tail_offset) rw
          (number-to_le 8 h.next_seq _ v.next_seq)
          (rw (number-to_le 8 h.next_txn_id _ v.next_txn_id) rw (number-to_le 4 h.state _ v.state)
            (rw (number-to_le 8 h.record_area_bytes _ v.record_area_bytes) refl))))

module _ (h : JournalHeader) (v : FitsFields h) where
  found : Found read_fields 124 4096 (encode_block h) h
  unfolding encode_block
  found =
      Found-seal read_fields 124 4096 (written h []) h (omega (arith, length-written h))
        (omega arith)
        λ rest. ap read_fields (sym (written-rest h rest)) ∙ read_fields-written h rest v

  pub length-encode_block : length (encode_block h) ≡ 4096
  length-encode_block = found.sized

  -- A header with the magic number, whose fields fit in their places, is read back from the block
  -- that `encode_block` makes of it.
  pub decode_block_lem : decode_block (encode_block h) ≡ ok h
  unfolding decode_block
  decode_block_lem =
      let block = encode_block h in
      let whole : (length block == 4096) ≡ true = ground (arith, found.sized) in
      let same : (stored_crc 124 block == expected_crc 124 block) ≡ true =
        ground (arith, found.checksum) in
      let known : (h.magic == journal_magic) ≡ true = ground (arith, v.magic) in
      rw whole rw same rw found.fields_read rw known refl
