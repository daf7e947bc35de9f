-- ===== src/Resize/FreeCount.antt =====
-- The count of free blocks that growing writes, against the bitmap that it writes.
use corefs.Common.{
  ℕ, zero, suc, ◌+◌, ◌-◌, ◌*◌, ◌/◌, ◌≤◌, ◌<◌, ◌≡◌, refl, sym, ap, ◌∙◌, Bool, true, false, List, ok,
  bool_to_ℕ, count_below, arith,
}
use corefs.Bitmap.{Bitmap, popcount}
use corefs.Bitmap.View.{bit_at}
use corefs.Bitmap.Count.{popcount_lem, popcount-SetBit}
use corefs.Checksum.{hash}
use corefs.Superblock.{Superblock}
use corefs.Resize.{grown_superblock, grown, grow_bitmap}
use corefs.Resize.Grow.{Region, Pinned, wrapped, grow_bitmap-grown}

-- Setting the two copies, apart from each other, when the secondary one's unit is free.
popcount-Pinned :
    (bm : Bitmap) (n : ℕ) {out : Bitmap}
    → bm.capacity ≡ n
    → 3 ≤ n
    → Pinned bm n out
    → bit_at bm (n - 1) ≡ false
    → popcount out + bool_to_ℕ (bit_at bm (n / 2)) ≡ popcount bm + 2
popcount-Pinned bm n c three p free = ground (
  arith,
  free,
  popcount-SetBit bm (n - 1) true (omega (arith, c)) p.secondary,
  popcount-SetBit p.mid (n / 2) true (omega (arith, c, p.secondary.same_capacity)) p.tertiary,
  p.secondary.bits_at (n / 2),
)

-- Units that are all free from `n` on do not count.
count_below_clear :
    (n d : ℕ) (p : ℕ → Bool)
    → ((j : ℕ) → n ≤ j → p j ≡ false)
    → count_below (d + n) p ≡ count_below n p
count_below_clear n zero p h = let e : 0 + n ≡ n = omega arith in ap (λ k. count_below k p) e
count_below_clear n (suc d) p h =
    let e : suc d + n ≡ suc (d + n) = omega arith in
    ap (λ k. count_below k p) e ∙ ground (arith, h (d + n) (omega arith), count_below_clear n d p h)

popcount-wrapped :
    (bytes : List ℕ) (old n : ℕ)
    → old ≤ n
    → ((j : ℕ) → old ≤ j → bit_at (wrapped bytes old) j ≡ false)
    → popcount (wrapped bytes n) ≡ popcount (wrapped bytes old)
unfolding wrapped bit_at
popcount-wrapped bytes old n h clear =
    let total : n - old + old ≡ n = omega arith in
    popcount_lem (wrapped bytes n)
    ∙ ap (λ k. count_below k (bit_at (wrapped bytes old))) (sym total)
    ∙ count_below_clear old (n - old) (bit_at (wrapped bytes old)) clear
    ∙ sym (popcount_lem (wrapped bytes old))

module _ (sb : Superblock) (n : ℕ) (bytes : List ℕ) where
  -- For a volume whose free count and set units add up to its size, with no unit set past its end,
  -- that grows to `n` blocks within its bitmap: after growing, the free count that is written and the
  -- set units of the bitmap that is written add up to 2 more than `n`, or to 1 more than `n` if the
  -- block at `n / 2`, where the tertiary copy is written, was set already.
  pub grow_bitmap-free_blocks :
      Region sb.block_bitmap_blocks bytes
      → 3 ≤ n
      → sb.total_blocks < n
      → n ≤ sb.block_bitmap_blocks * 32768
      → sb.free_blocks + popcount (wrapped bytes sb.total_blocks) ≡ sb.total_blocks
      → ((j : ℕ) → sb.total_blocks ≤ j → bit_at (wrapped bytes sb.total_blocks) j ≡ false)
      → (out : Bitmap) × (grow_bitmap sb n bytes ≡ ok (grown sb n out))
        × ((grown_superblock sb n (hash out.bits)).free_blocks
              + popcount out
              + bool_to_ℕ (bit_at (wrapped bytes sb.total_blocks) (n / 2))
            ≡ n + 2)
  unfolding grown_superblock bit_at wrapped
  grow_bitmap-free_blocks r three larger fit count clear =
      let (out, runs, pinned) = grow_bitmap-grown sb n bytes r (omega arith) fit in
      (
        out,
        runs,
        omega (
          arith,
          r.small,
          count,
          popcount-wrapped bytes sb.total_blocks n (omega arith) clear,
          popcount-Pinned (wrapped bytes n) n refl three pinned (clear (n - 1) (omega arith)),
        ),
      )
