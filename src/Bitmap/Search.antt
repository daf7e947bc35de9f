-- ===== src/Bitmap/Search.antt =====
-- `allocate_first` finds the lowest free unit, and reports a full bitmap only when it is full.
use corefs.Common.{
  ℕ, zero, suc, ◌+◌, ◌/◌, ◌%◌, ◌≤◌, ◌<◌, ◌≡◌, true, false, Option, none, some, ltb, ◌==◌, ◌&&◌,
  Bool-cases, inl, inr, arith,
}
use corefs.Bitmap.{Bitmap, byte_of, allocate_loop, allocate_first}
use corefs.Common.Word.{saturating_add64}
use corefs.Bitmap.Bytes.{test_bit, test_bit_full}
use corefs.Bitmap.View.{bit_at, IsValid, SetBit, write_at, write_with_bit}

-- Every unit from `lo` up to `hi` is set.
pub AllSet : Bitmap → ℕ → ℕ → Type 0
AllSet bm lo hi = (j : ℕ) → lo ≤ j → j < hi → bit_at bm j ≡ true

-- What a search from `start` returns and leaves behind.
pub data Found (bm : Bitmap) (start : ℕ) : Option ℕ × Bitmap → Type 0 where
  full : ((j : ℕ) → start ≤ j → j < bm.capacity → bit_at bm j ≡ true) → Found bm start (none, bm)
  lowest :
      (i : ℕ) (out : Bitmap)
      → start ≤ i
      → i < bm.capacity
      → ((j : ℕ) → start ≤ j → j < i → bit_at bm j ≡ true)
      → bit_at bm i ≡ false
      → SetBit bm i true out
      → Found bm start (some i, out)

-- A search that starts after units that are all set is a search from the first of these.
Found-earlier :
    (bm : Bitmap) (lo hi : ℕ) {r : Option ℕ × Bitmap}
    → lo ≤ hi
    → ((j : ℕ) → lo ≤ j → j < hi → j < bm.capacity → bit_at bm j ≡ true)
    → Found bm hi r
    → Found bm lo r
Found-earlier bm lo hi h s (full all) = full (λ j p q. elim (Bool-cases (ltb j hi)) [
  | inl below ↦ s j p (ground arith) q
  | inr above ↦ all j (ground arith) q
])
Found-earlier bm lo hi h s (lowest i out p q all free set) =
    lowest i out (omega arith) q
      (λ j a b. elim (Bool-cases (ltb j hi)) [
        | inl below ↦ s j a (ground arith) (omega arith)
        | inr above ↦ all j (ground arith) b
      ])
      free set

-- The byte that the fast path skips has every unit set.
skipped_byte :
    (bm : Bitmap) (i j : ℕ)
    → byte_of bm i ≡ 255
    → i % 8 ≡ 0
    → i ≤ j
    → j < i + 8
    → bit_at bm j ≡ true
unfolding bit_at
skipped_byte bm i j is_full at_start p q =
    let same : j / 8 ≡ i / 8 = omega arith in
    rw (same, is_full, test_bit_full (j % 8) (omega arith))

lt_of_test : {i c : ℕ} → ltb i c ≡ true → i < c
lt_of_test h = ground arith

allocate_loop-Found :
    (fuel i : ℕ) (bm : Bitmap)
    → IsValid bm
    → bm.capacity < i + fuel
    → Found bm i (allocate_loop fuel i bm)
unfolding allocate_loop bit_at write_at
allocate_loop-Found zero i bm v h = full (λ j p q. absurd (omega arith))
allocate_loop-Found (suc fuel) i bm v h = elim (Bool-cases (ltb i bm.capacity)) [
  | inr past ↦ rw past (full (λ j p q. absurd (ground arith)))
  | inl inside ↦ elim (Bool-cases ((byte_of bm i == 255) && (i % 8 == 0))) [
    | inl skip ↦
        rw (inside, skip)
          (Found-earlier bm i (saturating_add64 i 8) (omega (arith, v.small, lt_of_test inside))
            (λ j p q r. skipped_byte bm i j (ground arith) (ground arith) p (omega arith))
            (allocate_loop-Found fuel (saturating_add64 i 8) bm v
              (omega (arith, v.small, lt_of_test inside))))
    | inr stay ↦ elim (Bool-cases (test_bit (byte_of bm i) (i % 8))) [
      | inl used ↦
          rw (inside, stay, used)
            (Found-earlier bm i (i + 1) (omega arith)
              (λ j p q r. let same : j ≡ i = omega arith in rw (same, bit_at) used)
              (allocate_loop-Found fuel (i + 1) bm v (omega arith)))
      | inr free ↦
          rw (inside, stay, free)
            (lowest i _ (omega arith) (lt_of_test inside) (λ j p q. absurd (omega arith)) free
              (write_with_bit bm v i (lt_of_test inside)))
    ]
  ]
]

-- A search from `start` on a valid bitmap either finds the lowest free unit at or after `start`,
-- marks just that one, and keeps the invariant, or finds every unit from `start` on set and
-- changes nothing.
pub allocate_first-Found :
    (start : ℕ) (bm : Bitmap) → IsValid bm → Found bm start (allocate_first start bm)
unfolding allocate_first
allocate_first-Found start bm v = allocate_loop-Found (suc bm.capacity) start bm v (omega arith)
