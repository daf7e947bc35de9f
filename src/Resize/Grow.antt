-- ===== src/Resize/Grow.antt =====
-- What growing makes of the bitmap.
use corefs.Common.{
  ℕ, ◌-◌, ◌*◌, ◌/◌, ◌%◌, ◌^◌, ◌≤◌, ◌<◌, ◌≡◌, refl, ap, ◌∙◌, true, false, List, length, get_or, ltb,
  ◌==◌, CoreFsResult, ok, err, ◌>>=◌, >>=-ok, pure, arith,
}
use corefs.Bitmap.{Bitmap, from_bytes, set_bit}
use corefs.Bitmap.View.{IsValid, SetBit, set_bit_lem}
use corefs.Bitmap.Length.{KeepsLength-set_bit}
use corefs.Superblock.{Superblock}
use corefs.Resize.{GrowReport, Write, pin_copies, grown, grow_bitmap}

-- The bytes of a bitmap region of `blocks` blocks.
pub record Region (blocks : ℕ) (bytes : List ℕ) : Type 0 where
  pub sized : length bytes ≡ blocks * 4096
  pub small : blocks * 32768 < 2 ^ 64
  pub bounded : (i : ℕ) → get_or bytes i 0 < 256

-- `out` is `bm` with the units of both copies set.
pub record Pinned (bm : Bitmap) (n : ℕ) (out : Bitmap) : Type 0 where
  pub mid : Bitmap
  pub secondary : SetBit bm (n - 1) true mid
  pub tertiary : SetBit mid (n / 2) true out
  pub same_length : length out.bits ≡ length bm.bits

unfoldable pub wrapped : List ℕ → ℕ → Bitmap
wrapped bytes n = record { bits = bytes; capacity = n }

module _ (blocks n : ℕ) (bytes : List ℕ) (r : Region blocks bytes) (pos : 0 < n)
    (fit : n ≤ blocks * 32768) where
  wrapped-IsValid : IsValid (wrapped bytes n)
  unfolding wrapped
  wrapped-IsValid = record {
    bytes = r.bounded;
    wide = omega (arith, r.sized);
    small = omega (arith, r.small);
  }

  from_bytes_lem : from_bytes bytes n ≡ ok (wrapped bytes n)
  unfolding wrapped from_bytes
  from_bytes_lem =
      let whole : (length bytes % 4096 == 0) ≡ true = ground (arith, r.sized) in
      let long : ltb (length bytes * 8) n ≡ false = ground (arith, r.sized) in rw whole rw long refl

  pin_copies_lem :
      (out : Bitmap) × (pin_copies (n - 1) (n / 2) (wrapped bytes n) ≡ (ok tt, out))
      × Pinned (wrapped bytes n) n out
  unfolding pin_copies wrapped
  pin_copies_lem =
      let bm = wrapped bytes n in
      let one = set_bit_lem bm wrapped-IsValid (n - 1) (omega arith) in
      let mid = (set_bit (n - 1) bm).1 in
      let two = set_bit_lem mid one.1.valid (n / 2) (omega (arith, one.1.same_capacity)) in
      (
        (set_bit (n / 2) mid).1,
        >>=-ok (set_bit (n - 1)) (λ _ t. (set_bit (n / 2) >>= λ _. pure tt) t) bm
              (λ k. (one.0 k, mid))
            ∙ >>=-ok (set_bit (n / 2)) (λ _. pure tt) mid (λ k. (two.0 k, (set_bit (n / 2) mid).1)),
        record {
          mid = mid;
          secondary = one.1;
          tertiary = two.1;
          same_length =
              (KeepsLength-set_bit (n / 2)).sized mid ∙ (KeepsLength-set_bit (n - 1)).sized bm;
        },
      )

module _ (sb : Superblock) (n : ℕ) where
  pub grow_bitmap-grown :
      (bytes : List ℕ)
      → Region sb.block_bitmap_blocks bytes
      → 0 < n
      → n ≤ sb.block_bitmap_blocks * 32768
      → (out : Bitmap) × (grow_bitmap sb n bytes ≡ ok (grown sb n out))
        × Pinned (wrapped bytes n) n out
  unfolding grow_bitmap
  grow_bitmap-grown bytes r pos fit =
      let (out, runs, pinned) = pin_copies_lem sb.block_bitmap_blocks n bytes r pos fit in
      (
        out,
        rw (from_bytes_lem sb.block_bitmap_blocks n bytes r pos fit, grow_bitmap)
            (ap after_pins runs),
        pinned,
      )
    where
      after_pins : CoreFsResult (Unit {0}) × Bitmap → CoreFsResult (List Write × GrowReport)
      after_pins x = elim x.0 [ err e ↦ err e | ok _ ↦ ok (grown sb n x.1) ]
