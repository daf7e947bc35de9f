-- ===== src/DirEntry/Codec.antt =====
-- A block of directory entries is read back from its bytes.
use mathlib.Core.List.{append_assoc}
use corefs.Common.{
  ℕ, suc, ◌+◌, ◌-◌, ◌*◌, ◌≤◌, ◌<◌, ◌≡◌, refl, sym, ap, ◌∙◌, inl, inr, false, Bool-cases, List, [],
  ◌∷◌, ◌++◌, ltb, leb, ok, err, invalid_input, and_then-ok, length, length-append, arith,
}
use corefs.Bytes.{word, to_le, take, slice, drop-append, length-to_le}
use corefs.Bytes.Reader.{number-to_le}
use corefs.Bytes.Records.{All, write_each}
use corefs.Sealed.{seal, padded}
use corefs.Sealed.Decode.{decode_sealed-seal, Encoding, encodes, too_large}
use corefs.DirEntry.{DirEntry, encoded_len, entry_bytes}
use corefs.DirEntry.Entry.{
  FitsEntry, rec_len, encoded_len-ok, rec_len_bounds, length-entry_bytes, write_to-ok,
  read_from-entry_bytes,
}
use corefs.DirEntry.Blocks.{
  DirBlock, entries_bytes_from, encoded_entries_bytes, write_entries, dir_bytes, encode,
  read_entries, parse, decode,
}

-- The bytes of all entries, and how many they are
abbrev pub all_bytes : List DirEntry → List ℕ
all_bytes = write_each λ e. entry_bytes e (rec_len e)

unfoldable pub total : List DirEntry → ℕ
total [] = 0
total (e ∷ es) = rec_len e + total es

pub entries_bytes_from-total :
    (t : ℕ) (es : List DirEntry) → All FitsEntry es → entries_bytes_from t es ≡ ok (t + total es)
unfolding entries_bytes_from total
entries_bytes_from-total t [] v = ap ok (omega arith)
entries_bytes_from-total t (e ∷ es) v =
    and_then-ok (encoded_len e) (λ n. entries_bytes_from (t + n) es) (encoded_len-ok e v.0)
      (entries_bytes_from-total (t + rec_len e) es v.1 ∙ ap ok (omega arith))

length-all_bytes : (es : List DirEntry) → All FitsEntry es → length (all_bytes es) ≡ total es
unfolding write_each total
length-all_bytes [] v = refl
length-all_bytes (e ∷ es) v =
    length-append (entry_bytes e (rec_len e)) (all_bytes es)
    ∙ ground (arith, length-entry_bytes e v.0, length-all_bytes es v.1)

length-total : (es : List DirEntry) → length es * 16 ≤ total es
unfolding total rec_len
length-total [] = omega arith
length-total (e ∷ es) = omega (arith, length-total es)

write_entries-ok :
    (cursor : ℕ) (es : List DirEntry)
    → All FitsEntry es
    → cursor + total es ≤ 4092
    → write_entries cursor es ≡ ok (all_bytes es)
unfolding write_entries write_each total
write_entries-ok cursor [] v h = refl
write_entries-ok cursor (e ∷ es) v h =
    let fits : ltb 4092 (cursor + rec_len e) ≡ false = ground (arith, h) in
    rw (encoded_len-ok e v.0, write_entries) rw fits rw
      (write_to-ok e v.0 (rec_len e) (omega arith), write_entries) rw
      (write_entries-ok (cursor + rec_len e) es v.1 (omega (arith, h)), write_entries) refl

write_entries-err :
    (cursor : ℕ) (es : List DirEntry)
    → All FitsEntry es
    → cursor ≤ 4092
    → 4092 < cursor + total es
    → write_entries cursor es ≡ err invalid_input
unfolding write_entries total
write_entries-err cursor [] v c h = absurd (omega (arith, c, h))
write_entries-err cursor (e ∷ es) v c h =
    rw (encoded_len-ok e v.0, write_entries)
      (elim (Bool-cases (ltb 4092 (cursor + rec_len e))) [
        | inl over ↦ rw over refl
        | inr fits ↦
            rw fits rw (write_to-ok e v.0 (rec_len e) (omega arith), write_entries) rw
              (
                write_entries-err (cursor + rec_len e) es v.1 (ground arith) (omega (arith, h)),
                write_entries,
              )
              refl
      ])

take-past : (n : ℕ) (xs ys : List ℕ) → take (length xs + n) (xs ++ ys) ≡ xs ++ take n ys
unfolding take
take-past n [] ys = let same : 0 + n ≡ n = omega arith in rw same refl
take-past n (x ∷ xs) ys =
    let same : suc (length xs) + n ≡ suc (length xs + n) = omega arith in
    rw same (ap (λ zs. x ∷ zs) (take-past n xs ys))

-- The entry at a cursor, up to the checksum's place.
slice_entry :
    (front bytes later : List ℕ)
    → length front + length bytes ≤ 4092
    → slice (length front) (4092 - length front) (front ++ (bytes ++ later))
      ≡ bytes ++ take (4092 - length front - length bytes) later
unfolding slice
slice_entry front bytes later h =
    let room : 4092 - length front ≡ length bytes + (4092 - length front - length bytes) =
      omega (arith, h) in
    rw (drop-append (length front) front (bytes ++ later) refl) (
      ap (λ n. take n (bytes ++ later)) room
      ∙ take-past (4092 - length front - length bytes) bytes later)

read_entries-ok :
    (es : List DirEntry) (front later : List ℕ)
    → All FitsEntry es
    → length front + total es ≤ 4092
    → read_entries (length es) (length front) (front ++ (all_bytes es ++ later)) ≡ ok es
unfolding read_entries write_each total
read_entries-ok [] front later v h = refl
read_entries-ok (e ∷ es) front later v h =
    let bytes = entry_bytes e (rec_len e) in
    let (wide, small, whole) = rec_len_bounds e v.0 in
    let inside : leb 4092 (length front) ≡ false = ground (arith, h, wide) in
    let next : length front + rec_len e ≡ length (front ++ bytes) =
      omega (arith, length-append front bytes, length-entry_bytes e v.0) in
    rw inside rw (append_assoc bytes (all_bytes es) later) rw
      (slice_entry front bytes (all_bytes es ++ later) (omega (arith, h, length-entry_bytes e v.0)))
      rw
      (
        read_from-entry_bytes e v.0
            (take (4092 - length front - length bytes) (all_bytes es ++ later)),
        read_entries,
      )
      rw next rw (sym (append_assoc front bytes (all_bytes es ++ later))) rw
      (read_entries-ok es (front ++ bytes) later v.1 (omega (arith, h, next)), read_entries) refl

-- Entries that fit, and a 64-bit number.
pub record FitsDir (blk : DirBlock) : Type 0 where
  pub next_dir_block : blk.next_dir_block < word 8
  pub entries : All FitsEntry blk.entries

module _ (blk : DirBlock) (v : FitsDir blk) where
  length-dir_bytes : length (dir_bytes blk (all_bytes blk.entries)) ≡ 16 + total blk.entries
  unfolding dir_bytes
  length-dir_bytes =
      simp (length-append, length-to_le, length-all_bytes blk.entries v.entries) (omega arith)

  fields : List ℕ → List ℕ
  fields behind =
      to_le 4 0xd12ed12e ++ (to_le 4 (length blk.entries) ++ (to_le 8 blk.next_dir_block ++ behind))

  fields-append : (behind : List ℕ) → fields behind ≡ fields [] ++ behind
  unfolding fields
  fields-append behind = simp append_assoc

  dir_bytes-fields :
      (rest : List ℕ)
      → dir_bytes blk (all_bytes blk.entries) ++ rest ≡ fields (all_bytes blk.entries ++ rest)
  unfolding dir_bytes fields
  dir_bytes-fields rest = simp append_assoc refl

  read_entries-fields :
      (rest : List ℕ)
      → total blk.entries ≤ 4076
      → read_entries (length blk.entries) 16 (fields (all_bytes blk.entries ++ rest))
        ≡ ok blk.entries
  read_entries-fields rest h =
      let wide : 16 ≡ length (fields []) =
        unfold fields in simp (length-append, length-to_le) refl in
      ap (λ n. read_entries (length blk.entries) n (fields (all_bytes blk.entries ++ rest))) wide
      ∙ ap (read_entries (length blk.entries) (length (fields [])))
          (fields-append (all_bytes blk.entries ++ rest))
      ∙ read_entries-ok blk.entries (fields []) rest v.entries (omega (arith, h, wide))

  parse-fields :
      (rest : List ℕ)
      → total blk.entries ≤ 4076
      → parse (fields (all_bytes blk.entries ++ rest)) ≡ ok blk
  unfolding parse fields
  parse-fields rest h =
      rw (number-to_le 4 0xd12ed12e _ (omega arith)) rw
        (number-to_le 4 (length blk.entries) _ (omega (arith, h, length-total blk.entries))) rw
        (number-to_le 8 blk.next_dir_block _ v.next_dir_block) rw
        (read_entries-fields rest h, parse) refl

  -- A block of entries, each of at most 255 bytes of UTF-8 and with a 64-bit inode, that take `n` bytes:
  -- if `n` is at most 4,076 the block is encoded to bytes from which it is read back as it was, and
  -- else its encoding is refused.
  pub encode-Encoding_dir_block :
      (n : ℕ) → encoded_entries_bytes blk ≡ ok n → Encoding decode blk 4076 n (encode blk)
  unfolding encode decode encoded_entries_bytes
  encode-Encoding_dir_block n sized =
      let sum : n ≡ 0 + total blk.entries =
        ground (arith, sized, entries_bytes_from-total 0 blk.entries v.entries) in
      elim (Bool-cases (ltb 4076 n)) [
        | inl over ↦
            rw (write_entries-err 16 blk.entries v.entries (omega arith) (ground (arith, sum)))
              (too_large (ground arith))
        | inr under ↦
            let h : total blk.entries ≤ 4076 = ground (arith, sum) in
            rw (write_entries-ok 16 blk.entries v.entries (omega (arith, h))) (
              encodes (seal 4092 (padded 4096 (dir_bytes blk (all_bytes blk.entries))))
                (ground arith)
                (decode_sealed-seal 4092 4096 parse (dir_bytes blk (all_bytes blk.entries)) (ok blk)
                  (omega (arith, length-dir_bytes, h)) (omega arith)
                  λ rest long. ap parse (dir_bytes-fields rest) ∙ parse-fields rest h))
      ]
