-- ===== src/Sealed/Decode.antt =====
-- The two tests that the decoders of sealed blocks start with: on the length, and on the checksum.
use corefs.Common.{
  ℕ, ◌+◌, ◌≤◌, ◌<◌, ◌≡◌, refl, ap, ◌∙◌, inl, inr, true, not, ltb, Bool-cases, List, ◌++◌, ◌==◌,
  if◌then◌else◌, CoreFsResult, ok, err, invalid_input, state, length, length-append, arith,
}
use corefs.Bytes.{drop}
use corefs.Bytes.Reader.{raw, raw-append}
use corefs.Sealed.{seal, padded, stored_crc, expected_crc, Found-seal, seal-padded}

unfoldable pub decode_sealed :
    {A : Type 0} → ℕ → ℕ → (List ℕ → CoreFsResult A) → List ℕ → CoreFsResult A
decode_sealed off size parse block =
    if not (length block == size)
    then err invalid_input
    else if not (stored_crc off block == expected_crc off block)
    then err state
    else parse block

module _ {A : Type 0} (off size : ℕ) (parse : List ℕ → CoreFsResult A) where
  -- A sealed block passes both tests, and its payload is parsed.
  pub decode_sealed-seal :
      (payload : List ℕ) (r : CoreFsResult A)
      → length payload ≤ off
      → off + 4 ≤ size
      → ((rest : List ℕ) → length payload + length rest ≡ size → parse (payload ++ rest) ≡ r)
      → decode_sealed off size parse (seal off (padded size payload)) ≡ r
  unfolding decode_sealed
  decode_sealed-seal payload r short fit parses =
      let block = seal off (padded size payload) in
      let behind = drop (length payload) block in
      let found =
        Found-seal (raw (length payload)) off size payload payload short fit
          λ rest. raw-append (length payload) payload rest refl in
      let split : block ≡ payload ++ behind =
        seal-padded size payload (omega (arith, short, fit)) off short fit in
      let whole : (length block == size) ≡ true = ground (arith, found.sized) in
      let same : (stored_crc off block == expected_crc off block) ≡ true =
        ground (arith, found.checksum) in
      rw whole rw same (
        ap parse split
        ∙ parses behind
            (omega (arith, found.sized, ap (λ b. length b) split, length-append payload behind)))

  -- A block that decodes has its length and its checksum.
  pub decode_sealed-intact :
      (block : List ℕ) {a : A}
      → decode_sealed off size parse block ≡ ok a
      → (length block ≡ size)
        × (stored_crc off block ≡ expected_crc off block)
        × (parse block ≡ ok a)
  unfolding decode_sealed
  decode_sealed-intact block e = ground (arith, e)

-- What encoding `a`, of a size that may not exceed `limit`, comes to: bytes from which it is read back,
-- or a refusal.
pub data Encoding {A : Type 0} (decode : List ℕ → CoreFsResult A) (a : A) (limit size : ℕ)
    : CoreFsResult (List ℕ) → Type 0 where
  encodes :
      (bytes : List ℕ)
      → size ≤ limit
      → decode bytes ≡ ok a
      → Encoding decode a limit size (ok bytes)
  too_large : limit < size → Encoding decode a limit size (err invalid_input)

-- An encoder that tests the size and seals the payload.
pub encode-Encoding :
    {A : Type 0} (off size : ℕ) (parse : List ℕ → CoreFsResult A) (payload : List ℕ) (a : A)
    (limit count : ℕ)
    → off + 4 ≤ size
    → (count ≤ limit → length payload ≤ off)
    → (count ≤ limit → (rest : List ℕ) → parse (payload ++ rest) ≡ ok a)
    → Encoding
        (decode_sealed off size parse)
        a
        limit
        count
        (if ltb limit count then err invalid_input else ok (seal off (padded size payload)))
encode-Encoding off size parse payload a limit count fit short parses =
    elim (Bool-cases (ltb limit count)) [
      | inl over ↦ rw over (too_large (ground arith))
      | inr under ↦
          let few : count ≤ limit = ground arith in
          rw under (
            encodes (seal off (padded size payload)) few (
              decode_sealed-seal off size parse payload (ok a) (short few) fit
                λ rest long. parses few rest))
    ]

-- What is not too large is encoded.
pub Encoding-encodes :
    {A : Type 0} {decode : List ℕ → CoreFsResult A} {a : A} {limit size : ℕ}
    {r : CoreFsResult (List ℕ)}
    → Encoding decode a limit size r
    → size ≤ limit
    → (bytes : List ℕ) × (r ≡ ok bytes) × (decode bytes ≡ ok a)
Encoding-encodes (encodes bytes small reads) h = (bytes, refl, reads)
Encoding-encodes (too_large over) h = absurd (omega (arith, h, over))
