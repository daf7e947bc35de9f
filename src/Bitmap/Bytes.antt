-- ===== src/Bitmap/Bytes.antt =====
-- One byte of a bitmap: the shifts and masks that bitmap.rs applies to it, and their laws.
use Prim.Native.Nat.{bit_and, bit_or}
use corefs.Common.{
  ℕ, ◌-◌, ◌/◌, ◌^◌, ◌<◌, ◌≡◌, refl, Bool, true, false, not, ltb, ◌==◌, ◌&&◌, if◌then◌else◌,
  holds_below, holds_below-at, arith,
}

-- `(byte >> bit) & 1 == 1`
pub test_bit : ℕ → ℕ → Bool
test_bit b k = bit_and (b / 2 ^ k) 1 == 1

-- `byte & (1u8 << bit) != 0`
pub masked : ℕ → ℕ → Bool
masked b k = not (bit_and b (2 ^ k) == 0)

-- `byte | (1u8 << bit)`
pub with_bit : ℕ → ℕ → ℕ
with_bit b k = bit_or b (2 ^ k)

-- `byte & !(1u8 << bit)`
pub without_bit : ℕ → ℕ → ℕ
without_bit b k = bit_and b (255 - 2 ^ k)

same : Bool → Bool → Bool
same true b = b
same false b = not b

same-eq : (a b : Bool) → same a b ≡ true → a ≡ b
unfolding same
same-eq true b h = ground arith
same-eq false b h = ground arith

-- Both laws of a byte, at every byte and bit.
with_bit_ok : ℕ → ℕ → ℕ → Bool
with_bit_ok b k j =
    same (test_bit (with_bit b k) j) (if k == j then true else test_bit b j)
    && ltb (with_bit b k) 256
    && same (masked b k) (test_bit b k)

without_bit_ok : ℕ → ℕ → ℕ → Bool
without_bit_ok b k j =
    same (test_bit (without_bit b k) j) (if k == j then false else test_bit b j)
    && ltb (without_bit b k) 256
    && test_bit 255 k

for_bytes : (ℕ → ℕ → ℕ → Bool) → Bool
for_bytes p = holds_below (λ b. holds_below (λ k. holds_below (λ j. p b k j) 8) 8) 256

for_bytes_sound :
    (p : ℕ → ℕ → ℕ → Bool) (b k j : ℕ)
    → for_bytes p ≡ true
    → b < 256
    → k < 8
    → j < 8
    → p b k j ≡ true
unfolding for_bytes
for_bytes_sound p b k j h hb hk hj =
    holds_below-at _ 8 (holds_below-at _ 8 (holds_below-at _ 256 h b hb) k hk) j hj

with_bit_table : for_bytes with_bit_ok ≡ true
unfolding for_bytes holds_below with_bit_ok same test_bit with_bit masked
with_bit_table = refl

without_bit_table : for_bytes without_bit_ok ≡ true
unfolding for_bytes holds_below without_bit_ok same test_bit without_bit
without_bit_table = refl

module _ (b k j : ℕ) (hb : b < 256) (hk : k < 8) (hj : j < 8) where
  with_bit_row : with_bit_ok b k j ≡ true
  with_bit_row = for_bytes_sound with_bit_ok b k j with_bit_table hb hk hj

  without_bit_row : without_bit_ok b k j ≡ true
  without_bit_row = for_bytes_sound without_bit_ok b k j without_bit_table hb hk hj

  pub test_bit-with_bit : test_bit (with_bit b k) j ≡ (if k == j then true else test_bit b j)
  unfolding with_bit_ok
  test_bit-with_bit = same-eq _ _ (ground (arith, with_bit_row))

  pub test_bit-without_bit : test_bit (without_bit b k) j ≡ (if k == j then false else test_bit b j)
  unfolding without_bit_ok
  test_bit-without_bit = same-eq _ _ (ground (arith, without_bit_row))

module _ (b k : ℕ) (hb : b < 256) (hk : k < 8) where
  pub with_bit-lt : with_bit b k < 256
  unfolding with_bit_ok
  with_bit-lt = ground (arith, with_bit_row b k k hb hk hk)

  pub without_bit-lt : without_bit b k < 256
  unfolding without_bit_ok
  without_bit-lt = ground (arith, without_bit_row b k k hb hk hk)

  pub masked-eq-test_bit : masked b k ≡ test_bit b k
  unfolding with_bit_ok
  masked-eq-test_bit = same-eq _ _ (ground (arith, with_bit_row b k k hb hk hk))

-- Every bit of a full byte is set.
pub test_bit_full : (k : ℕ) → k < 8 → test_bit 255 k ≡ true
unfolding without_bit_ok
test_bit_full k hk = ground (arith, without_bit_row 0 k k (omega arith) hk hk)

-- No bit of an empty byte is set.
pub test_bit_empty : (k : ℕ) → k < 8 → test_bit 0 k ≡ false
unfolding same
test_bit_empty k hk = ground (arith, holds_below-at (λ j. not (test_bit 0 j)) 8 empty_table k hk)
  where
    empty_table : holds_below (λ j. not (test_bit 0 j)) 8 ≡ true
    empty_table = unfold holds_below test_bit in refl
