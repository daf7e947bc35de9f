-- ===== src/DirEntry/Entry.antt =====
-- An entry of a directory is read back from its bytes.
use mathlib.Core.List.{append_assoc}
use corefs.Common.{
  ℕ, ◌+◌, ◌-◌, ◌*◌, ◌/◌, ◌%◌, ◌≤◌, ◌<◌, ◌≡◌, refl, ◌∙◌, true, false, List, ◌++◌, ltb, ◌==◌, ok,
  length, length-append, arith,
}
use corefs.Bytes.{word, zeros, length-to_le, length-zeros, take-append}
use corefs.Bytes.Reader.{number-to_le}
use corefs.DirEntry.{
  DirEntryKind, file, directory, symlink, system, DirEntry, kind_to_u16, from_u16, encoded_len,
  is_utf8, entry_bytes, write_to, check_entry, read_from,
}

-- An entry of at most 255 bytes of UTF-8 whose inode is a 64-bit number.
pub record FitsEntry (e : DirEntry) : Type 0 where
  pub inode : e.inode < word 8
  pub short : length e.name ≤ 255
  pub text : is_utf8 e.name ≡ true

from_u16-kind_to_u16 : (kind : DirEntryKind) → from_u16 (kind_to_u16 kind) ≡ ok kind
unfolding from_u16
from_u16-kind_to_u16 file = refl
from_u16-kind_to_u16 directory = refl
from_u16-kind_to_u16 symlink = refl
from_u16-kind_to_u16 system = refl

kind_to_u16-lt : (kind : DirEntryKind) → kind_to_u16 kind < word 2
kind_to_u16-lt file = omega arith
kind_to_u16-lt directory = omega arith
kind_to_u16-lt symlink = omega arith
kind_to_u16-lt system = omega arith

-- The bytes that an entry takes
unfoldable pub rec_len : DirEntry → ℕ
rec_len e = (16 + length e.name + 7) / 8 * 8

module _ (e : DirEntry) (v : FitsEntry e) where
  pub encoded_len-ok : encoded_len e ≡ ok (rec_len e)
  unfolding encoded_len rec_len
  encoded_len-ok = ground (arith, v.short)

  pub rec_len_bounds : (16 + length e.name ≤ rec_len e) × (rec_len e ≤ 272) × (rec_len e % 8 ≡ 0)
  unfolding rec_len
  rec_len_bounds = (omega arith, omega (arith, v.short), omega arith)

  pub length-entry_bytes : length (entry_bytes e (rec_len e)) ≡ rec_len e
  unfolding entry_bytes
  length-entry_bytes =
      simp (length-append, length-to_le, length-zeros) (omega (arith, rec_len_bounds.0))

  pub write_to-ok : (room : ℕ) → rec_len e ≤ room → write_to e room ≡ ok (entry_bytes e (rec_len e))
  unfolding write_to
  write_to-ok room h =
      let fits : ltb room (rec_len e) ≡ false = ground (arith, h) in
      rw (encoded_len-ok, write_to) rw fits refl

  check_entry-ok :
      (room : ℕ) (rest : List ℕ)
      → rec_len e ≤ room
      → check_entry room (rec_len e) (length e.name) (kind_to_u16 e.kind) e.inode (e.name ++ rest)
        ≡ ok (e, rec_len e)
  unfolding check_entry
  check_entry-ok room rest h =
      let (fits, small, whole) = rec_len_bounds in
      let long : ltb room 16 ≡ false = ground (arith, h, fits) in
      let sized : ltb (rec_len e) 16 ≡ false = ground (arith, fits) in
      let aligned : (rec_len e % 8 == 0) ≡ true = ground (arith, whole) in
      let inside : ltb room (rec_len e) ≡ false = ground (arith, h) in
      let holds : ltb (rec_len e) (16 + length e.name) ≡ false = ground (arith, fits) in
      rw long rw sized rw aligned rw inside rw (from_u16-kind_to_u16 e.kind, check_entry) rw holds
        rw (take-append (length e.name) e.name rest refl) rw v.text refl

  fields_read :
      (n : ℕ) (rest : List ℕ)
      → n < word 4
      → read_from (entry_bytes e n ++ rest)
        ≡ check_entry
            (length (entry_bytes e n ++ rest))
            n
            (length e.name)
            (kind_to_u16 e.kind)
            e.inode
            (e.name ++ (zeros (n - (16 + length e.name)) ++ rest))
  unfolding read_from entry_bytes
  fields_read n rest h = simp append_assoc (
      rw (number-to_le 4 n _ h) rw (number-to_le 2 (length e.name) _ (omega (arith, v.short))) rw
        (number-to_le 2 (kind_to_u16 e.kind) _ (kind_to_u16-lt e.kind)) rw
        (number-to_le 8 e.inode _ v.inode) refl)

  -- The four numbers and the name are read back, whatever stands behind.
  pub read_from-entry_bytes :
      (rest : List ℕ) → read_from (entry_bytes e (rec_len e) ++ rest) ≡ ok (e, rec_len e)
  read_from-entry_bytes rest =
      fields_read (rec_len e) rest (omega (arith, rec_len_bounds.1))
      ∙ check_entry-ok (length (entry_bytes e (rec_len e) ++ rest))
          (zeros (rec_len e - (16 + length e.name)) ++ rest)
          (omega (arith, length-append (entry_bytes e (rec_len e)) rest, length-entry_bytes))
