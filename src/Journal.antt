-- ===== src/Journal.antt =====
-- corefs-core/src/storage/ondisk/journal.rs: the kinds of records and the operations that they
-- carry; the header and the log stand in the children.
pub mod Ops
pub mod Header
pub mod Log
pub mod Transaction
pub mod Sectors
pub mod Area
pub mod Record
pub mod Entries
pub mod Append
pub mod Ready
pub mod Extends
pub mod Commit
pub mod Open
pub mod Target
pub mod Apply
pub mod Replay
pub mod Scan
pub mod Recovery
pub mod Replayed
pub mod Committed
pub mod Terminates
use corefs.Common.{
  ℕ, ◌+◌, List, [], ◌∷◌, ◌++◌, ltb, ◌==◌, if◌then◌else◌, CoreFsResult, ok, err, state, length,
}
use corefs.Common.Word.{as_u32}
use corefs.Bytes.{to_le, from_le, take, drop}

pub data RecordKind : Type 0 where
  op commit abort : RecordKind

-- `kind as u16`
unfoldable pub kind_to_u16 : RecordKind → ℕ
kind_to_u16 op = 1
kind_to_u16 commit = 2
kind_to_u16 abort = 3

-- `RecordKind::from_u16`
unfoldable pub from_u16 : ℕ → CoreFsResult RecordKind
from_u16 v =
    if v == 1 then ok op else if v == 2 then ok commit else if v == 3 then ok abort else err state

pub data Op : Type 0 where
  block_write : (block : ℕ) (data_bytes : List ℕ) → Op
  inode_update : (index : ℕ) (record_bytes : List ℕ) → Op

-- One arm of `Op::encode`
unfoldable pub encode_op : ℕ → ℕ → List ℕ → List ℕ
encode_op tag number bytes = tag ∷ to_le 8 number ++ to_le 4 (as_u32 (length bytes)) ++ bytes

-- `Op::encode`
unfoldable pub encode : Op → List ℕ
encode (block_write block bytes) = encode_op 1 block bytes
encode (inode_update index bytes) = encode_op 2 index bytes

-- One arm of `Op::decode`, on the whole payload
unfoldable pub decode_op : (ℕ → List ℕ → Op) → List ℕ → CoreFsResult Op
decode_op make payload =
    if ltb (length payload) 13
    then err state
    else let number = from_le (take 8 (drop 1 payload)) in
      let len = from_le (take 4 (drop 9 payload)) in
      if length payload == 13 + len then ok (make number (drop 13 payload)) else err state

-- `Op::decode`
unfoldable pub decode : List ℕ → CoreFsResult Op
decode [] = err state
decode (tag ∷ rest) =
    if tag == 1
    then decode_op block_write (tag ∷ rest)
    else if tag == 2
    then decode_op inode_update (tag ∷ rest)
    else err state
