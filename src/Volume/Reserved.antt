-- ===== src/Volume/Reserved.antt =====
-- The blocks that `mark_reserved_blocks` marks.
use corefs.Common.{
  ℕ, ◌+◌, ◌≤◌, ◌<◌, ◌≡◌, refl, ◌∙◌, Bool, true, false, not, ltb, ◌==◌, ◌||◌, ok, Method, ◌>>=◌,
  pure, >>=-ok, arith,
}
use corefs.Layout.{LayoutGeometry}
use corefs.Layout.Plan.{IsOrdered}
use corefs.Extent.{in_run}
use corefs.Bitmap
use corefs.Bitmap.{Bitmap, set_bit, set_run}
use corefs.Bitmap.View.{IsValid, bit_at, set_bit_lem, new-IsValid}
use corefs.Bitmap.Run.{SetRun-zero, set_run_lem}
use corefs.Volume.{mark_reserved_blocks}

-- `m` succeeds on every valid bitmap of the capacity, and sets the units that pass `p` and no other.
pub record Marks (cap : ℕ) {A : Type 0} (m : Method Bitmap A) (p : ℕ → Bool) : Type 0 where
  pub on_bitmap :
      (bm : Bitmap)
      → IsValid bm
      → bm.capacity ≡ cap
      → (a : A) × (out : Bitmap) × (m bm ≡ (ok a, out))
        × IsValid out
        × (out.capacity ≡ cap)
        × ((j : ℕ) → bit_at out j ≡ p j || bit_at bm j)

module _ (cap : ℕ) where
  pub Marks-set_bit : (i : ℕ) → i < cap → Marks cap (set_bit i) (λ j. i == j)
  Marks-set_bit i h = record {
    on_bitmap = λ bm v e.
        let one = set_bit_lem bm v i (omega arith) in
        (
          not (bit_at bm i),
          (set_bit i bm).1,
          (λ k. (one.0 k, (set_bit i bm).1)),
          one.1.valid,
          one.1.same_capacity ∙ e,
          λ j. ground (arith, one.1.bits_at j),
        );
  }

  pub Marks-set_run : (p n : ℕ) → p + n ≤ cap → Marks cap (set_run p n 0) (λ j. in_run p n j)
  Marks-set_run p n h = record {
    on_bitmap = λ bm v e.
        let run = set_run_lem bm p n 0 bm (omega arith) (SetRun-zero bm p true v) in
        (
          tt,
          run.0,
          run.1,
          run.2.valid,
          run.2.same_capacity ∙ e,
          λ j. let all : 0 + n ≡ n = omega arith in ground (arith, run.2.bits_at j),
        );
  }

  pub Marks-pure : Marks cap (pure tt) (λ j. false)
  Marks-pure = record { on_bitmap = λ bm v e. (tt, bm, refl, v, e, λ j. refl) }

  pub Marks-bind :
      {A B : Type 0} {m : Method Bitmap A} {f : A → Method Bitmap B} {p q : ℕ → Bool}
      → Marks cap m p
      → ((a : A) → Marks cap (f a) q)
      → Marks cap (m >>= f) (λ j. p j || q j)
  Marks-bind {m} {f} {p} {q} s t = record {
    on_bitmap = λ bm v e.
        let (a, mid, em, vm, cm, bits_m) = s.on_bitmap bm v e in
        let (b, out, eo, vo, co, bits_o) = (t a).on_bitmap mid vm cm in
        (b, out, >>=-ok m f bm em ∙ eo, vo, co, λ j. ground (arith, bits_m j, bits_o j));
  }

-- The blocks that a volume reserves: all before the data region, and both redundant superblocks.
abbrev pub is_reserved : LayoutGeometry → ℕ → Bool
is_reserved g j =
    ltb j g.data_start || (j == g.tertiary_superblock_block || j == g.secondary_superblock_block)

-- The units that the calls of `mark_reserved_blocks` mark, in their order.
abbrev pub marked : LayoutGeometry → ℕ → Bool
marked g j =
    0 == j
    || (1 == j
        || (in_run g.block_bitmap_start g.block_bitmap_blocks j
            || (in_run g.inode_bitmap_start g.inode_bitmap_blocks j
                || (in_run g.inode_table_start g.inode_table_blocks j
                    || (in_run g.journal_start g.journal_blocks j
                        || (g.tertiary_superblock_block == j
                            || (g.secondary_superblock_block == j || false)))))))

module _ (g : LayoutGeometry) (o : IsOrdered g) where
  abbrev cap : ℕ
  cap = g.total_blocks

  pub mark_reserved_blocks-Marks : Marks cap (mark_reserved_blocks g) (marked g)
  unfolding mark_reserved_blocks
  mark_reserved_blocks-Marks = Marks-bind cap (Marks-set_bit cap 0 (omega arith)) λ _.
      Marks-bind cap (Marks-set_bit cap 1 (omega arith)) λ _.
        Marks-bind cap (Marks-set_run cap _ _ (omega arith)) λ _.
          Marks-bind cap (Marks-set_run cap _ _ (omega arith)) λ _.
            Marks-bind cap (Marks-set_run cap _ _ (omega arith)) λ _.
              Marks-bind cap (Marks-set_run cap _ _ (omega arith)) λ _.
                Marks-bind cap (Marks-set_bit cap _ (omega arith))
                  λ _. Marks-bind cap (Marks-set_bit cap _ (omega arith)) λ _. Marks-pure cap

  marked-eq-is_reserved : (j : ℕ) → marked g j ≡ is_reserved g j
  marked-eq-is_reserved j = ground (arith, o)

-- On the fresh bitmap of an ordered geometry `mark_reserved_blocks` succeeds, and afterwards the
-- set bits are exactly those of the blocks before the data region and of the two redundant
-- superblocks.
pub mark_reserved_blocks_lem :
    (g : LayoutGeometry)
    → IsOrdered g
    → (out : Bitmap) × (mark_reserved_blocks g (Bitmap.new g.total_blocks) ≡ (ok tt, out))
      × IsValid out
      × ((j : ℕ) → bit_at out j ≡ is_reserved g j)
unfolding Bitmap.new
mark_reserved_blocks_lem g o =
    let fresh = new-IsValid g.total_blocks o.small in
    let (a, out, e, v, _, bits) =
      (mark_reserved_blocks-Marks g o).on_bitmap (Bitmap.new g.total_blocks) fresh.0 refl in
    (out, e, v, λ j. ground (arith, bits j, fresh.1 j, marked-eq-is_reserved g o j))
