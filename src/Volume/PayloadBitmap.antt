-- ===== src/Volume/PayloadBitmap.antt =====
-- The bitmaps that a save writes.
use corefs.Common.{
  ℕ, ◌*◌, ◌≤◌, ◌<◌, ◌^◌, ◌≡◌, refl, sym, ap, ◌∙◌, Bool, false, ◌||◌, ◌==◌, max, length,
  length-replicate, ok, Method, ◌>>=◌, pure, arith,
}
use corefs.Common.Word.{div_ceil}
use corefs.Layout.{LayoutGeometry}
use corefs.Layout.Plan.{IsOrdered}
use corefs.Extent.{in_run}
use corefs.Bitmap
use corefs.Bitmap.{Bitmap, set_bit, set_run}
use corefs.Bitmap.Length.{
  KeepsLength, KeepsLength-pure, KeepsLength-bind, KeepsLength-set_bit, KeepsLength-set_run,
}
use corefs.Bitmap.View.{IsValid, bit_at, new-IsValid}
use corefs.Volume.{mark_reserved_blocks}
use corefs.Volume.Reserved.{
  Marks, Marks-bind, Marks-set_bit, Marks-set_run, Marks-pure, marked, mark_reserved_blocks-Marks,
}
use corefs.Volume.State.{mark_payload, reserve_slot_zero, on_fresh}

KeepsLength-mark_reserved_blocks : (g : LayoutGeometry) → KeepsLength (mark_reserved_blocks g)
unfolding mark_reserved_blocks
KeepsLength-mark_reserved_blocks g = KeepsLength-bind (KeepsLength-set_bit _) λ _.
    KeepsLength-bind (KeepsLength-set_bit _) λ _. KeepsLength-bind (KeepsLength-set_run _ _ _) λ _.
      KeepsLength-bind (KeepsLength-set_run _ _ _) λ _.
        KeepsLength-bind (KeepsLength-set_run _ _ _) λ _.
          KeepsLength-bind (KeepsLength-set_run _ _ _) λ _.
            KeepsLength-bind (KeepsLength-set_bit _)
              λ _. KeepsLength-bind (KeepsLength-set_bit _) λ _. KeepsLength-pure tt

-- The blocks of a bitmap for `n` units
abbrev pub bitmap_blocks : ℕ → ℕ
bitmap_blocks n = max (div_ceil n 32768) 1

-- What a method that marks the units of `q` makes of a fresh bitmap.
pub record FreshMarked (n : ℕ) (q : ℕ → Bool) (m : Method Bitmap (Unit {0})) (bm : Bitmap)
    : Type 0 where
  pub made : on_fresh n m ≡ ok bm
  pub sized : length bm.bits ≡ bitmap_blocks n * 4096
  pub valid : IsValid bm
  pub same_capacity : bm.capacity ≡ n
  pub bits_at : (j : ℕ) → bit_at bm j ≡ q j

fresh_marked :
    {q : ℕ → Bool} (n : ℕ) (m : Method Bitmap (Unit {0}))
    → n < 2 ^ 64
    → Marks n m q
    → KeepsLength m
    → (bm : Bitmap) × FreshMarked n q m bm
unfolding on_fresh Bitmap.new
fresh_marked {q} n m small marks keeps =
    let start = new-IsValid n small in
    let (a, bm, runs, v, c, bits) = marks.on_bitmap (Bitmap.new n) start.0 refl in
    (
      bm,
      record {
        made = rw runs refl;
        sized =
            ap (λ x. length x.1.bits) (sym runs)
            ∙ keeps.sized (Bitmap.new n)
            ∙ length-replicate _ 0;
        valid = v;
        same_capacity = c;
        bits_at = λ j. ground (arith, bits j, start.1 j);
      },
    )

-- The bitmap of the inodes: slot 0 is taken.
pub reserve_slot_zero_lem :
    (n : ℕ)
    → 0 < n
    → n < 2 ^ 64
    → (bm : Bitmap) × FreshMarked n (λ j. 0 == j || false) reserve_slot_zero bm
unfolding reserve_slot_zero
reserve_slot_zero_lem n some small =
    fresh_marked n (set_bit 0 >>= λ _. pure tt) small
      (Marks-bind n (Marks-set_bit n 0 some) λ _. Marks-pure n)
      (KeepsLength-bind (KeepsLength-set_bit 0) λ _. KeepsLength-pure tt)

-- The bitmap of the blocks of an empty volume: the reserved ones are taken.
pub mark_reserved_fresh :
    (g : LayoutGeometry)
    → IsOrdered g
    → (bm : Bitmap) × FreshMarked g.total_blocks (marked g) (mark_reserved_blocks g) bm
mark_reserved_fresh g o =
    fresh_marked g.total_blocks (mark_reserved_blocks g) o.small (mark_reserved_blocks-Marks g o)
      (KeepsLength-mark_reserved_blocks g)

-- The bitmap of the blocks: the reserved ones and the payload are taken.
pub mark_payload_lem :
    (g : LayoutGeometry) (needed : ℕ)
    → IsOrdered g
    → needed ≤ g.data_blocks
    → (bm : Bitmap) × FreshMarked g.total_blocks
        (λ j. marked g j || in_run g.data_start needed j)
        (mark_payload g needed)
        bm
unfolding mark_payload
mark_payload_lem g needed o fits =
    fresh_marked g.total_blocks _ o.small
      (Marks-bind _ (mark_reserved_blocks-Marks g o)
        λ _. Marks-set_run g.total_blocks g.data_start needed (omega (arith, o.data_last, fits)))
      (KeepsLength-bind (KeepsLength-mark_reserved_blocks g)
        λ _. KeepsLength-set_run g.data_start needed 0)
