-- ===== src/Bitmap/Count.antt =====
-- `popcount` counts the set units, and follows each operation.
use corefs.Common.{
  ℕ, zero, suc, ◌+◌, ◌≤◌, ◌<◌, ◌≡◌, refl, ◌∙◌, Bool, true, Option, none, some, count_below,
  count_below-le, count_below_all, count_below_update, bool_to_ℕ, arith,
}
use corefs.Bitmap.{Bitmap, popcount, popcount_to, allocate_first}
use corefs.Bitmap.View.{bit_at, IsValid, SetBit}
use corefs.Bitmap.Search.{Found, full, lowest, allocate_first-Found}

popcount_to-eq : (n : ℕ) (bm : Bitmap) → popcount_to n bm ≡ count_below n (bit_at bm)
unfolding bit_at
popcount_to-eq zero bm = refl
popcount_to-eq (suc n) bm = ground (arith, popcount_to-eq n bm)

pub popcount_lem : (bm : Bitmap) → popcount bm ≡ count_below bm.capacity (bit_at bm)
unfolding popcount
popcount_lem bm = popcount_to-eq bm.capacity bm

pub popcount-le : (bm : Bitmap) → popcount bm ≤ bm.capacity
popcount-le bm = omega (arith, popcount_lem bm, count_below-le bm.capacity (bit_at bm))

-- One written bit changes the count by what it changes.
pub popcount-SetBit :
    (bm : Bitmap) (i : ℕ) (c : Bool) {out : Bitmap}
    → i < bm.capacity
    → SetBit bm i c out
    → popcount out + bool_to_ℕ (bit_at bm i) ≡ popcount bm + bool_to_ℕ c
popcount-SetBit bm i c {out} h s = ground (
  arith,
  popcount_lem bm,
  popcount_lem out,
  s.same_capacity,
  count_below_update bm.capacity (bit_at bm) (bit_at out) i c h s.bits_at,
)

-- The count after a search from unit 0 with the result given.
abbrev pub CountAfter : Bitmap → Option ℕ → Bitmap → Type 0
CountAfter bm (some i) out = (popcount out ≡ popcount bm + 1) × (popcount out ≤ bm.capacity)
CountAfter bm none out = (popcount bm ≡ bm.capacity) × (out ≡ bm)

CountAfter-Found : (bm : Bitmap) {r : Option ℕ × Bitmap} → Found bm 0 r → CountAfter bm r.0 r.1
CountAfter-Found bm (full all) =
    (popcount_lem bm ∙ count_below_all bm.capacity (bit_at bm) (λ j q. all j (omega arith) q), refl)
CountAfter-Found bm (lowest i out p q all is_free s) =
    ground (arith, popcount-SetBit bm i true q s, popcount-le out, s.same_capacity)

-- A search from unit 0 of a valid bitmap that finds a unit raises the count of set units by one,
-- up to the capacity; it finds none only if the count is at the capacity, and then changes nothing.
pub allocate_first-CountAfter :
    (bm : Bitmap) → IsValid bm → CountAfter bm (allocate_first 0 bm).0 (allocate_first 0 bm).1
allocate_first-CountAfter bm v = CountAfter-Found bm (allocate_first-Found 0 bm v)
