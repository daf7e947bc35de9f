-- ===== src/DirEntry.antt =====
-- corefs-core/src/storage/ondisk/dir_entry.rs: the entries of a directory and the blocks that hold
-- them. A name is its bytes.
pub mod Blocks
pub mod Entry
pub mod Codec
pub mod Pack
pub mod Packed
use corefs.Common.{
  ℕ, zero, suc, ◌+◌, ◌-◌, ◌*◌, ◌/◌, ◌%◌, Bool, false, ◌&&◌, ◌||◌, Option, none, some, List, [], ◌∷◌,
  ◌++◌, ltb, leb, ◌==◌, not, if◌then◌else◌, CoreFsResult, ok, err, invalid_input, state, length,
}
use corefs.Bytes.{to_le, zeros, take, drop}
use corefs.Bytes.Reader.{number}

abbrev pub max_name_bytes : ℕ
max_name_bytes = 255

-- `HEADER_BYTES`, of a block and of an entry
abbrev pub header_bytes : ℕ
header_bytes = 16

pub data DirEntryKind : Type 0 where
  file directory symlink system : DirEntryKind

-- `kind as u16`
abbrev pub kind_to_u16 : DirEntryKind → ℕ
kind_to_u16 file = 1
kind_to_u16 directory = 2
kind_to_u16 symlink = 3
kind_to_u16 system = 4

-- `DirEntryKind::from_u16`
unfoldable pub from_u16 : ℕ → CoreFsResult DirEntryKind
from_u16 v =
    if v == 1
    then ok file
    else if v == 2
    then ok directory
    else if v == 3
    then ok symlink
    else if v == 4
    then ok system
    else err state

pub record DirEntry : Type 0 where
  pub inode : ℕ
  pub kind : DirEntryKind
  pub name : List ℕ

-- `DirEntry::encoded_len`
unfoldable pub encoded_len : DirEntry → CoreFsResult ℕ
encoded_len e =
    if ltb max_name_bytes (length e.name)
    then err invalid_input
    else ok ((header_bytes + length e.name + 7) / 8 * 8)

-- How a character of UTF-8 goes on after its first byte: how many bytes are to come, and the range of
-- the next one
unfoldable pub utf8_start : ℕ → Option (ℕ × ℕ × ℕ)
utf8_start b =
    if leb b 0x7f
    then some (0, 0, 0)
    else if leb 0xc2 b && leb b 0xdf
    then some (1, 0x80, 0xbf)
    else if b == 0xe0
    then some (2, 0xa0, 0xbf)
    else if b == 0xed
    then some (2, 0x80, 0x9f)
    else if leb 0xe1 b && leb b 0xef
    then some (2, 0x80, 0xbf)
    else if b == 0xf0
    then some (3, 0x90, 0xbf)
    else if leb 0xf1 b && leb b 0xf3
    then some (3, 0x80, 0xbf)
    else if b == 0xf4
    then some (3, 0x80, 0x8f)
    else none

-- The test of `str::from_utf8`, inside a character with `pending` bytes to come
unfoldable pub is_utf8_from : ℕ → ℕ → ℕ → List ℕ → Bool
is_utf8_from pending low high [] = pending == 0
is_utf8_from zero low high (b ∷ bs) = elim (utf8_start b) [
  | none ↦ false
  | some (pending, low', high') ↦ is_utf8_from pending low' high' bs
]
is_utf8_from (suc pending) low high (b ∷ bs) =
    let rest = is_utf8_from pending 0x80 0xbf bs in leb low b && (leb b high && rest)

unfoldable pub is_utf8 : List ℕ → Bool
is_utf8 bytes = is_utf8_from 0 0 0 bytes

-- What `DirEntry::write_to` writes into the `rec_len` bytes of its buffer
unfoldable pub entry_bytes : DirEntry → ℕ → List ℕ
entry_bytes e rec_len =
    to_le 4 rec_len
    ++ (to_le 2 (length e.name)
        ++ (to_le 2 (kind_to_u16 e.kind)
            ++ (to_le 8 e.inode ++ (e.name ++ zeros (rec_len - (16 + length e.name))))))

-- `DirEntry::write_to`, for a buffer of `room` bytes: the bytes it writes
unfoldable pub write_to : DirEntry → ℕ → CoreFsResult (List ℕ)
write_to e room = elim (encoded_len e) [
  | err x ↦ err x
  | ok rec_len ↦ if ltb room rec_len then err invalid_input else ok (entry_bytes e rec_len)
]

-- The tests of `read_from` on the numbers of a header, for a buffer of `room` bytes with `behind` behind
-- the header
unfoldable pub check_entry :
    (room rec_len name_len kind_number inode : ℕ) → List ℕ → CoreFsResult (DirEntry × ℕ)
check_entry room rec_len name_len kind_number inode behind =
    if ltb room header_bytes
    then err state
    else if ltb rec_len header_bytes || (not (rec_len % 8 == 0) || ltb room rec_len)
    then err state
    else elim (from_u16 kind_number) [
      | err x ↦ err x
      | ok kind ↦
          let name = take name_len behind in
          if ltb rec_len (header_bytes + name_len)
          then err state
          else if is_utf8 name
          then ok (record { inode = inode; kind = kind; name = name }, rec_len)
          else err state
    ]

-- `DirEntry::read_from`
unfoldable pub read_from : List ℕ → CoreFsResult (DirEntry × ℕ)
read_from buf =
    let (rec_len, buf1) = number 4 buf in
    let (name_len, buf2) = number 2 buf1 in
    let (kind_number, buf3) = number 2 buf2 in
    let (inode, buf4) = number 8 buf3 in
    check_entry (length buf) rec_len name_len kind_number inode buf4
