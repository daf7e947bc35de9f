-- ===== src/Bitmap/View.antt =====
-- A bitmap as the function from a unit to its bit, and what each operation does to that function.
use corefs.Common.{
  ℕ, ◌*◌, ◌/◌, ◌%◌, ◌≤◌, ◌<◌, ◌≡◌, refl, ap, Bool, true, false, not, ltb, leb, ◌==◌, if◌then◌else◌,
  ok, err, invalid_input, length, get_or, set, length-set, get_or-set, length-replicate,
  get_or-replicate, arith,
}
use corefs.Bitmap.{Bitmap, new, byte_of, is_set, set_bit, clear_bit}
use corefs.Bitmap.Bytes.{
  test_bit, with_bit, without_bit, test_bit-with_bit, test_bit-without_bit, with_bit-lt,
  without_bit-lt, masked-eq-test_bit, test_bit_empty,
}

-- The bit of unit `index`.
unfoldable pub bit_at : Bitmap → ℕ → Bool
bit_at bm index = test_bit (byte_of bm index) (index % 8)

-- Every entry is a byte, and the bytes hold the capacity.
pub record IsValid (bm : Bitmap) : Type 0 where
  pub bytes : (i : ℕ) → get_or bm.bits i 0 < 256
  pub wide : bm.capacity ≤ length bm.bits * 8
  pub small : bm.capacity < 18446744073709551616

-- `is_set` returns the bit of the view, and refuses an index past the capacity.
pub is_set_lem :
    (bm : Bitmap) (index : ℕ)
    → is_set bm index ≡ (if ltb index bm.capacity then ok (bit_at bm index) else err invalid_input)
unfolding is_set bit_at
is_set_lem bm index = ground arith

div_mod_ext : (i j : ℕ) → i / 8 ≡ j / 8 → i % 8 ≡ j % 8 → i ≡ j
div_mod_ext i j p q = omega arith

-- The byte `b` written at the place of `i`, seen at `j`.
unfoldable pub write_at : Bitmap → ℕ → ℕ → Bitmap
write_at bm i b = record bm { bits = set bm.bits (i / 8) b }

module _ (bm : Bitmap) (v : IsValid bm) (i b : ℕ) (hi : i < bm.capacity) (hb : b < 256) where
  byte_of-write_at :
      (j : ℕ) → byte_of (write_at bm i b) j ≡ (if i / 8 == j / 8 then b else byte_of bm j)
  unfolding write_at
  byte_of-write_at j = get_or-set bm.bits (i / 8) (j / 8) b 0 (omega (arith, v.wide))

  write_at-IsValid : IsValid (write_at bm i b)
  unfolding write_at
  write_at-IsValid = record {
    bytes =
        λ j. ground (arith, get_or-set bm.bits (i / 8) j b 0 (omega (arith, v.wide)), v.bytes j);
    wide = omega (arith, length-set bm.bits (i / 8) b, v.wide);
    small = v.small;
  }

  -- A byte that changes only bit `i` changes only that unit.
  bit_at-write_at :
      (c : Bool)
      → ((k : ℕ) → k < 8 → test_bit b k ≡ (if i % 8 == k then c else test_bit (byte_of bm i) k))
      → (j : ℕ) → bit_at (write_at bm i b) j ≡ (if i == j then c else bit_at bm j)
  unfolding bit_at
  bit_at-write_at c h j =
      rw (byte_of-write_at j) (ground (arith, h (j % 8) (omega arith), div_mod_ext i j))

-- `out` is `bm` with unit `i` made `c`.
pub record SetBit (bm : Bitmap) (i : ℕ) (c : Bool) (out : Bitmap) : Type 0 where
  pub valid : IsValid out
  pub same_capacity : out.capacity ≡ bm.capacity
  pub bits_at : (j : ℕ) → bit_at out j ≡ (if i == j then c else bit_at bm j)

module _ (bm : Bitmap) (v : IsValid bm) (i : ℕ) (hi : i < bm.capacity) where
  pub write_with_bit : SetBit bm i true (write_at bm i (with_bit (byte_of bm i) (i % 8)))
  unfolding write_at
  write_with_bit = record {
    valid = write_at-IsValid bm v i _ hi (with_bit-lt _ (i % 8) (v.bytes (i / 8)) (omega arith));
    same_capacity = refl;
    bits_at =
        bit_at-write_at bm v i _ hi (with_bit-lt _ (i % 8) (v.bytes (i / 8)) (omega arith)) true
          λ k hk. test_bit-with_bit _ (i % 8) k (v.bytes (i / 8)) (omega arith) hk;
  }

  write_without_bit : SetBit bm i false (write_at bm i (without_bit (byte_of bm i) (i % 8)))
  unfolding write_at
  write_without_bit = record {
    valid = write_at-IsValid bm v i _ hi (without_bit-lt _ (i % 8) (v.bytes (i / 8)) (omega arith));
    same_capacity = refl;
    bits_at =
        bit_at-write_at bm v i _ hi (without_bit-lt _ (i % 8) (v.bytes (i / 8)) (omega arith)) false
          λ k hk. test_bit-without_bit _ (i % 8) k (v.bytes (i / 8)) (omega arith) hk;
  }

  -- For an index below the capacity of a valid bitmap, `set` says whether the unit was free, makes
  -- it set, changes no other one, and leaves a valid bitmap of the same capacity.
  pub set_bit_lem : ((set_bit i bm).0 ≡ ok (not (bit_at bm i))) × SetBit bm i true (set_bit i bm).1
  unfolding set_bit bit_at write_at
  set_bit_lem =
      let inside : leb bm.capacity i ≡ false = ground arith in
      rw inside (
        ap (λ b. ok (not b)) (masked-eq-test_bit _ (i % 8) (v.bytes (i / 8)) (omega arith)),
        write_with_bit,
      )

  -- For an index below the capacity of a valid bitmap, `clear` says whether the unit was set, makes
  -- it free, changes no other one, and leaves a valid bitmap of the same capacity.
  pub clear_bit_lem : ((clear_bit i bm).0 ≡ ok (bit_at bm i)) × SetBit bm i false (clear_bit i bm).1
  unfolding clear_bit bit_at write_at
  clear_bit_lem =
      let inside : leb bm.capacity i ≡ false = ground arith in
      rw inside
        (ap ok (masked-eq-test_bit _ (i % 8) (v.bytes (i / 8)) (omega arith)), write_without_bit)

-- Past the capacity `clear` changes nothing.
pub clear_bit-past :
    (bm : Bitmap) (i : ℕ) → bm.capacity ≤ i → clear_bit i bm ≡ (err invalid_input, bm)
unfolding clear_bit
clear_bit-past bm i h = let past : leb bm.capacity i ≡ true = ground arith in rw past refl

-- `new` is valid and has no unit set.
pub new-IsValid :
    (n : ℕ) → n < 18446744073709551616 → IsValid (new n) × ((j : ℕ) → bit_at (new n) j ≡ false)
unfolding new bit_at
new-IsValid n h = (
  record {
    bytes = λ i. rw get_or-replicate (omega arith);
    wide = rw length-replicate (omega arith);
    small = h;
  },
  λ j. rw get_or-replicate (test_bit_empty (j % 8) (omega arith)),
)
