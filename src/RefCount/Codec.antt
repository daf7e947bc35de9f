-- ===== src/RefCount/Codec.antt =====
-- The counters are read back from their blocks.
use corefs.Common.{
  ℕ, zero, suc, ◌-◌, ◌*◌, ◌≤◌, ◌<◌, ◌≡◌, refl, sym, ap, ◌∙◌, min, true, List, [], ◌∷◌, ◌==◌, ok,
  and_then, length, length-append, arith,
}
use corefs.Common.Word.{div_ceil}
use corefs.Bytes.{word, to_le, take, drop, take-append, drop-append, take-drop, length-to_le}
use corefs.Bytes.Reader.{number, number-to_le}
use corefs.Bytes.Records.{
  All, All-take, All-drop, length-drop, length-take_le, write_each, read_each, length-write_each,
  read_each-write_each,
}
use corefs.Sealed.{stored_crc, expected_crc, Found, Found-seal}
use corefs.RefCount.{RefCountTable, blocks_needed}
use corefs.RefCount.Blocks.{chunk_block, encode_blocks, encode, decode_blocks, decode}

-- A counter fits in 16 bits.
abbrev pub FitsCounter : ℕ → Type 0
FitsCounter c = c < word 2

length-take-min : (n : ℕ) (xs : List ℕ) → length (take n xs) ≡ min (length xs) n
unfolding take
length-take-min zero xs = omega arith
length-take-min (suc n) [] = omega arith
length-take-min (suc n) (x ∷ xs) = omega (arith, length-take-min n xs)

module _ (chunk : List ℕ) (v : All FitsCounter chunk) (short : length chunk ≤ 2044) where
  chunk_block-Found :
      Found (read_each (number 2) (length chunk)) 4092 4096 (chunk_block chunk) chunk
  unfolding chunk_block
  chunk_block-Found =
      Found-seal (read_each (number 2) (length chunk)) 4092 4096 (write_each (to_le 2) chunk) chunk
        (omega (arith, short, length-write_each (to_le 2) 2 chunk (length-to_le 2))) (omega arith)
        λ rest.
          read_each-write_each (to_le 2) (number 2) FitsCounter
            (λ c behind h. number-to_le 2 c behind h) chunk rest v

module _ (c : ℕ) (cs : List ℕ) (v : All FitsCounter (c ∷ cs)) where
  abbrev chunk : List ℕ
  chunk = take 2044 (c ∷ cs)

  found : Found (read_each (number 2) (length chunk)) 4092 4096 (chunk_block chunk) chunk
  found =
      chunk_block-Found chunk (All-take FitsCounter 2044 (c ∷ cs) v) (length-take_le 2044 (c ∷ cs))

length-encode_blocks :
    (n : ℕ) (cs : List ℕ)
    → All FitsCounter cs
    → n ≡ div_ceil (length cs) 2044
    → length (encode_blocks n cs) ≡ n * 4096
unfolding encode_blocks
length-encode_blocks zero cs v e = omega arith
length-encode_blocks (suc n) [] v e = absurd (omega (arith, e))
length-encode_blocks (suc n) (c ∷ cs) v e =
    length-append (chunk_block (take 2044 (c ∷ cs))) (encode_blocks n (drop 2044 (c ∷ cs)))
    ∙ omega (
      arith,
      (found c cs v).sized,
      length-encode_blocks n (drop 2044 (c ∷ cs)) (All-drop FitsCounter 2044 (c ∷ cs) v)
          (omega (arith, e, length-drop 2044 (c ∷ cs))),
    )

decode_blocks-encode_blocks :
    (n : ℕ) (cs : List ℕ)
    → All FitsCounter cs
    → n ≡ div_ceil (length cs) 2044
    → decode_blocks n (length cs) (encode_blocks n cs) ≡ ok cs
unfolding decode_blocks encode_blocks
decode_blocks-encode_blocks zero [] v e = refl
decode_blocks-encode_blocks zero (c ∷ cs) v e = absurd (ground (arith, e))
decode_blocks-encode_blocks (suc n) [] v e = absurd (omega (arith, e))
decode_blocks-encode_blocks (suc n) (c ∷ cs) v e =
    let chunk = take 2044 (c ∷ cs) in
    let more = drop 2044 (c ∷ cs) in
    let f = found c cs v in
    let same : (expected_crc 4092 (chunk_block chunk) == stored_crc 4092 (chunk_block chunk))
        ≡ true =
      ground (arith, f.checksum) in
    let count : min (length (c ∷ cs)) 2044 ≡ length chunk = sym (length-take-min 2044 (c ∷ cs)) in
    let left : length (c ∷ cs) - length chunk ≡ length more =
      omega (arith, length-drop 2044 (c ∷ cs), count) in
    rw (take-append 4096 (chunk_block chunk) (encode_blocks n more) (sym f.sized)) rw
      (drop-append 4096 (chunk_block chunk) (encode_blocks n more) (sym f.sized)) rw same rw count
      rw left rw
      (
        decode_blocks-encode_blocks n more (All-drop FitsCounter 2044 (c ∷ cs) v)
            (omega (arith, e, length-drop 2044 (c ∷ cs))),
        decode_blocks,
      )
      rw f.fields_read (ap ok (take-drop 2044 (c ∷ cs)))

-- A table with a counter of 16 bits for each block of its capacity is read back from the blocks that
-- `encode` makes of it, which are as many as `blocks_needed` says.
pub decode-encode_counters :
    (t : RefCountTable)
    → length t.counters ≡ t.capacity
    → All FitsCounter t.counters
    → (length (encode t) ≡ blocks_needed t.capacity * 4096) × (decode (encode t) t.capacity ≡ ok t)
unfolding encode decode blocks_needed
decode-encode_counters t sized v =
    let blocks : div_ceil t.capacity 2044 ≡ div_ceil (length t.counters) 2044 =
      ap (λ n. div_ceil n 2044) (sym sized) in
    let long = length-encode_blocks (div_ceil t.capacity 2044) t.counters v blocks in
    let whole : (length (encode_blocks (div_ceil t.capacity 2044) t.counters)
          == div_ceil t.capacity 2044 * 4096)
        ≡ true =
      ground (arith, long) in
    (
      long,
      rw whole (
          ap
            (λ r. and_then r λ counters. ok (record { counters = counters; capacity = t.capacity }))
            (ap
                (λ m.
                  decode_blocks (div_ceil t.capacity 2044) m
                    (encode_blocks (div_ceil t.capacity 2044) t.counters))
                (sym sized)
              ∙ decode_blocks-encode_blocks (div_ceil t.capacity 2044) t.counters v blocks)),
    )
