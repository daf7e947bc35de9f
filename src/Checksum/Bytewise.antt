-- ===== src/Checksum/Bytewise.antt =====
-- `update`, which takes eight bytes at a time, against the checksum one byte at a time.
use Prim.Native.Nat.{bit_xor}
use corefs.Common.{ℕ, ◌+◌, ◌*◌, ◌/◌, ◌%◌, ◌^◌, ◌<◌, ◌≡◌, refl, sym, ap, ◌∙◌, List, [], ◌∷◌, arith}
use corefs.Bits.{xor_zero, xor_comm, xor_assoc, xor_byte, xor_shift, xor-lt}
use corefs.Checksum.{tables, low_word, chunk_round, byte_round, remainder_loop, update, hash}
use corefs.Checksum.Linear.{
  advance, advance-xor, advance_shifted, advance_lem, advances, tables-eq-advances, advance-lt,
}

-- A byte at a time: the byte is added to the low end, and eight zeros are fed.
unfoldable pub crc_bytes : ℕ → List ℕ → ℕ
crc_bytes crc [] = crc
crc_bytes crc (byte ∷ rest) = crc_bytes (advance (bit_xor crc byte)) rest

-- Every entry is a byte.
unfoldable pub AllBytes : List ℕ → Type 0
AllBytes [] = Unit
AllBytes (b ∷ bs) = (b < 256) × AllBytes bs

zero_xor : (a : ℕ) → bit_xor 0 a ≡ a
zero_xor a = xor_comm 0 a ∙ xor_zero a

byte_round-eq-advance :
    (crc byte : ℕ) → byte < 256 → byte_round crc byte ≡ advance (bit_xor crc byte)
unfolding byte_round tables advance
byte_round-eq-advance crc byte h =
    let none_high : byte / 256 ≡ 0 = omega arith in
    let high : bit_xor crc byte / 256 ≡ crc / 256 =
      xor_shift crc byte ∙ ap (bit_xor (crc / 256)) none_high ∙ xor_zero (crc / 256) in
    sym
      (advance_lem (bit_xor crc byte) ∙ ap (λ h. bit_xor h (advance (bit_xor crc byte % 256))) high)

-- A word with a byte at its low end: that byte is fed, and the others move down.
advance_in :
    (crc m r : ℕ)
    → m < 256
    → advance (bit_xor crc (m + 256 * r)) ≡ bit_xor (advance (bit_xor crc m)) r
advance_in crc m r h =
    let word : m + 256 * r ≡ bit_xor m (256 * r) =
      omega (arith, xor_byte r m h, xor_comm (256 * r) m) in
    rw word rw (← xor_assoc crc m (256 * r)) rw advance-xor rw (advance_shifted r) refl

-- Four bytes xored to the low word are the four bytes fed in turn.
word_in :
    (crc a b c d : ℕ)
    → a < 256
    → b < 256
    → c < 256
    → d < 256
    → advances 4 (bit_xor crc (low_word a b c d)) ≡ crc_bytes crc (a ∷ b ∷ c ∷ d ∷ [])
unfolding advances low_word crc_bytes
word_in crc a b c d p q r s =
    let d' : d ≡ d + 256 * 0 = omega arith in
    rw (advance_in crc a (b + 256 * (c + 256 * d)) p) (
      rw (advance_in (advance (bit_xor crc a)) b (c + 256 * d) q)
        (rw (advance_in (advance (bit_xor (advance (bit_xor crc a)) b)) c d r) refl))

-- A word taken apart from the low byte on.
advance_out :
    (x low : ℕ)
    → advance (bit_xor low x) ≡ bit_xor (bit_xor (advance low) (advance (x % 256))) (x / 256)
advance_out x low =
    advance-xor low x
    ∙ ap (bit_xor (advance low)) (advance_lem x ∙ xor_comm (x / 256) (advance (x % 256)))
    ∙ sym (xor_assoc (advance low) (advance (x % 256)) (x / 256))

-- A word is its four bytes, each fed as far as the bytes above it.
word_out :
    (x : ℕ)
    → x < 2 ^ 32
    → advances 4 x
      ≡ bit_xor
          (bit_xor
            (bit_xor (advances 4 (x % 256)) (advances 3 (x / 256 % 256)))
            (advances 2 (x / 65536 % 256)))
          (advances 1 (x / 16777216 % 256))
unfolding advances
word_out x h =
    let second : x / 256 / 256 ≡ x / 65536 = omega arith in
    let third : x / 65536 / 256 ≡ x / 16777216 = omega arith in
    let none_left : x / 16777216 / 256 ≡ 0 = omega arith in
    let low = advance (x % 256) in
    let low2 = bit_xor (advance low) (advance (x / 256 % 256)) in
    let low3 = bit_xor (advance low2) (advance (x / 65536 % 256)) in
    let first_step : advance x ≡ bit_xor low (x / 256) = advance_lem x ∙ xor_comm (x / 256) low in
    let step2 : advance (bit_xor low (x / 256)) ≡ bit_xor low2 (x / 65536) =
      advance_out (x / 256) low ∙ ap (bit_xor low2) second in
    let step3 : advance (bit_xor low2 (x / 65536)) ≡ bit_xor low3 (x / 16777216) =
      advance_out (x / 65536) low2 ∙ ap (bit_xor low3) third in
    let low4 = bit_xor (advance low3) (advance (x / 16777216 % 256)) in
    let step4 : advance (bit_xor low3 (x / 16777216)) ≡ low4 =
      advance_out (x / 16777216) low3 ∙ ap (bit_xor low4) none_left ∙ xor_zero low4 in
    rw first_step rw step2 rw step3 rw step4 (simp advance-xor)

-- Four more bytes after the word `w`.
four_more :
    (w e f g h : ℕ)
    → crc_bytes w (e ∷ f ∷ g ∷ h ∷ [])
      ≡ bit_xor
          (bit_xor (bit_xor (bit_xor (advances 4 w) (advances 4 e)) (advances 3 f)) (advances 2 g))
          (advances 1 h)
unfolding crc_bytes advances
four_more w e f g h = simp advance-xor

advances_of_four :
    (x y z w : ℕ)
    → advances 4
        (bit_xor (bit_xor (bit_xor (advances 4 x) (advances 3 y)) (advances 2 z)) (advances 1 w))
      ≡ bit_xor (bit_xor (bit_xor (advances 8 x) (advances 7 y)) (advances 6 z)) (advances 5 w)
unfolding advances
advances_of_four x y z w = simp advance-xor

crc_bytes-eight :
    (crc a b c d e f g h : ℕ) (rest : List ℕ)
    → crc_bytes crc (a ∷ b ∷ c ∷ d ∷ e ∷ f ∷ g ∷ h ∷ rest)
      ≡ crc_bytes (crc_bytes (crc_bytes crc (a ∷ b ∷ c ∷ d ∷ [])) (e ∷ f ∷ g ∷ h ∷ [])) rest
unfolding crc_bytes
crc_bytes-eight crc a b c d e f g h rest = refl

chunk_round-eq-crc_bytes :
    (crc a b c d e f g h : ℕ)
    → crc < 2 ^ 32
    → AllBytes (a ∷ b ∷ c ∷ d ∷ [])
    → chunk_round crc a b c d e f g h ≡ crc_bytes crc (a ∷ b ∷ c ∷ d ∷ e ∷ f ∷ g ∷ h ∷ [])
unfolding chunk_round AllBytes
chunk_round-eq-crc_bytes crc a b c d e f g h w (p, (q, (r, (s, t)))) =
    let lo = bit_xor crc (low_word a b c d) in
    let narrow : lo < 2 ^ 32 =
      xor-lt 32 crc (low_word a b c d) w (unfold low_word in omega arith) in
    let word : advances 4 (crc_bytes crc (a ∷ b ∷ c ∷ d ∷ []))
        ≡ bit_xor
            (bit_xor (bit_xor (advances 8 (lo % 256)) (advances 7 (lo / 256 % 256)))
              (advances 6 (lo / 65536 % 256)))
            (advances 5 (lo / 16777216 % 256)) =
      ap (advances 4) (sym (word_in crc a b c d p q r s) ∙ word_out lo narrow)
      ∙ advances_of_four (lo % 256) (lo / 256 % 256) (lo / 65536 % 256) (lo / 16777216 % 256) in
    simp tables-eq-advances (
      rw crc_bytes-eight (
        unfold crc_bytes in
        sym (four_more (crc_bytes crc (a ∷ b ∷ c ∷ d ∷ [])) e f g h ∙ rw word refl)))

crc_bytes-lt :
    (crc : ℕ) (bytes : List ℕ) → crc < 2 ^ 32 → AllBytes bytes → crc_bytes crc bytes < 2 ^ 32
unfolding crc_bytes AllBytes
crc_bytes-lt crc [] h t = h
crc_bytes-lt crc (b ∷ bs) h (p, q) =
    crc_bytes-lt (advance (bit_xor crc b)) bs (advance-lt _ (xor-lt 32 crc b h (omega arith))) q

remainder_loop-eq-crc_bytes :
    (crc : ℕ) (bytes : List ℕ) → AllBytes bytes → remainder_loop crc bytes ≡ crc_bytes crc bytes
unfolding remainder_loop crc_bytes AllBytes
remainder_loop-eq-crc_bytes crc [] t = refl
remainder_loop-eq-crc_bytes crc (b ∷ bs) (p, q) =
    rw (byte_round-eq-advance crc b p) (remainder_loop-eq-crc_bytes (advance (bit_xor crc b)) bs q)

-- For a seed that is a 32-bit word, and bytes: `update`, eight bytes at a time over the tables and
-- byte by byte over the rest, returns what feeding every byte in turn does.
pub update-eq-crc_bytes :
    (crc : ℕ) (bytes : List ℕ)
    → crc < 2 ^ 32
    → AllBytes bytes
    → update crc bytes ≡ crc_bytes crc bytes
unfolding update AllBytes
update-eq-crc_bytes crc (a ∷ b ∷ c ∷ d ∷ e ∷ f ∷ g ∷ h ∷ rest) w
      (p, (q, (r, (s, (t, (u, (v, (x, y)))))))) =
    let round = chunk_round-eq-crc_bytes crc a b c d e f g h w (p, (q, (r, (s, tt)))) in
    let after = crc_bytes crc (a ∷ b ∷ c ∷ d ∷ e ∷ f ∷ g ∷ h ∷ []) in
    let narrow : after < 2 ^ 32 =
      crc_bytes-lt crc (a ∷ b ∷ c ∷ d ∷ e ∷ f ∷ g ∷ h ∷ []) w
        (p, (q, (r, (s, (t, (u, (v, (x, tt)))))))) in
    ap (λ z. update z rest) round
    ∙ update-eq-crc_bytes after rest narrow y
    ∙ unfold crc_bytes in refl
update-eq-crc_bytes crc [] w t = remainder_loop-eq-crc_bytes crc [] t
update-eq-crc_bytes crc (a ∷ []) w t = remainder_loop-eq-crc_bytes crc (a ∷ []) t
update-eq-crc_bytes crc (a ∷ b ∷ []) w t = remainder_loop-eq-crc_bytes crc (a ∷ b ∷ []) t
update-eq-crc_bytes crc (a ∷ b ∷ c ∷ []) w t = remainder_loop-eq-crc_bytes crc _ t
update-eq-crc_bytes crc (a ∷ b ∷ c ∷ d ∷ []) w t = remainder_loop-eq-crc_bytes crc _ t
update-eq-crc_bytes crc (a ∷ b ∷ c ∷ d ∷ e ∷ []) w t = remainder_loop-eq-crc_bytes crc _ t
update-eq-crc_bytes crc (a ∷ b ∷ c ∷ d ∷ e ∷ f ∷ []) w t = remainder_loop-eq-crc_bytes crc _ t
update-eq-crc_bytes crc (a ∷ b ∷ c ∷ d ∷ e ∷ f ∷ g ∷ []) w t = remainder_loop-eq-crc_bytes crc _ t

-- A checksum is a 32-bit word.
pub hash-lt : (bytes : List ℕ) → hash bytes < 2 ^ 32
unfolding hash
hash-lt bytes = omega arith
