-- ===== src/Allocator/Contiguous.antt =====
-- `allocate_contiguous` and `free_extent`: what they do to the bitmap, and that they undo each other.
use mathlib.Core.Path.{subst}
use corefs.Common.{
  ℕ, ◌+◌, ◌≤◌, ◌<◌, ◌^◌, ◌≡◌, sym, ◌∙◌, inl, inr, true, Bool-cases, ltb, ◌==◌, CoreFsResult, ok,
  err, state, invalid_input, >>=-ok, ◌>>◌, pure, Method, arith,
}
use corefs.Common.Word.{add64, as_u32}
use corefs.Extent.{Extent}
use corefs.Bitmap.{Bitmap, set_run}
use corefs.Bitmap.Run.{SetRun, SetRun-zero, set_run_lem}
use corefs.Bitmap.View
use corefs.Bitmap.View.{bit_at, is_set_lem}
use corefs.Allocator.{
  OndiskAllocator, on_blocks, set_block_hint, AllocationStrategy, first_fit, best_fit, in_use,
  chosen_start, allocate_contiguous, find_first_fit, find_best_fit,
}
use corefs.Allocator.FirstFit.{
  HasRun, FirstFit, after_hint, before_hint, nowhere, find_first_fit-FirstFit,
}
use corefs.Allocator.BestFit.{BestFit, smallest, no_gap, find_best_fit-BestFit}
use corefs.Allocator.Gaps.{no_run_of_no_gap, run_of_smallest}

-- The invariant of an allocator: valid bitmaps, a block bitmap that covers the volume, and a hint
-- and a data region that lie inside the volume.
pub record IsValid (a : OndiskAllocator) : Type 0 where
  pub blocks : View.IsValid a.block_bitmap
  pub inodes : View.IsValid a.inode_bitmap
  pub wide : a.total_blocks ≤ a.block_bitmap.capacity
  pub start_inside : a.data_start ≤ a.total_blocks
  pub hint_inside : a.block_hint ≤ a.total_blocks

-- Inside the volume a block is in use if its bit is set.
pub in_use-bit_at :
    (a : OndiskAllocator) (j : ℕ)
    → IsValid a
    → j < a.total_blocks
    → in_use a j ≡ bit_at a.block_bitmap j
unfolding in_use
in_use-bit_at a j v h =
    rw (is_set_lem a.block_bitmap j, in_use)
      (let inside : ltb j a.block_bitmap.capacity ≡ true = ground (arith, v.wide) in rw inside)

-- The chosen start begins a free run of the data region; an error means that there is none.
data Chosen (a : OndiskAllocator) (count : ℕ) : CoreFsResult ℕ → Type 0 where
  run_at_start : (s : ℕ) → a.data_start ≤ s → HasRun a count s → Chosen a count (ok s)
  no_run : ((t : ℕ) → a.data_start ≤ t → ¬ HasRun a count t) → Chosen a count (err state)

Chosen-FirstFit :
    (a : OndiskAllocator) (count : ℕ) {r : CoreFsResult ℕ} → FirstFit a count r → Chosen a count r
Chosen-FirstFit a count (after_hint s p h _) = run_at_start s (omega arith) h
Chosen-FirstFit a count (before_hint s p h _ _) = run_at_start s p h
Chosen-FirstFit a count (nowhere n) = no_run n

Chosen-BestFit :
    (a : OndiskAllocator) (count : ℕ) {r : CoreFsResult ℕ}
    → 0 < count
    → a.total_blocks + count < 2 ^ 64
    → BestFit a count r
    → Chosen a count r
Chosen-BestFit a count pos f (smallest s p _ _ w _) =
    run_at_start s p (run_of_smallest a count s pos w)
Chosen-BestFit a count pos f (no_gap n) =
    no_run (λ t. no_run_of_no_gap a count t (omega arith) pos n)

chosen_start-Chosen :
    (a : OndiskAllocator) (count : ℕ)
    → IsValid a
    → 0 < count
    → a.total_blocks + count < 2 ^ 64
    → Chosen a count (chosen_start a count)
unfolding chosen_start
chosen_start-Chosen a count v pos f = by_strategy a.strategy
  where
    by_strategy :
        (s : AllocationStrategy)
        → Chosen a count
            (elim s [ first_fit ↦ find_first_fit a count | best_fit ↦ find_best_fit a count ])
    by_strategy first_fit =
        Chosen-FirstFit a count (find_first_fit-FirstFit a count f v.start_inside v.hint_inside)
    by_strategy best_fit =
        Chosen-BestFit a count pos f (find_best_fit-BestFit a count (omega arith))

-- What `allocate_contiguous` answers and leaves.
pub data Allocated (a : OndiskAllocator) (count : ℕ)
    : CoreFsResult Extent × OndiskAllocator → Type 0 where
  nothing_asked : count ≡ 0 → Allocated a count (err invalid_input, a)
  no_space :
      0 < count
      → ((t : ℕ) → a.data_start ≤ t → ¬ HasRun a count t)
      → Allocated a count (err state, a)
  allocated :
      (s : ℕ) (bm : Bitmap)
      → 0 < count
      → a.data_start ≤ s
      → HasRun a count s
      → SetRun a.block_bitmap s count true bm
      → Allocated a count (
        ok (record { logical_block = 0; length_blocks = count; physical_block = s }),
        record a { block_bitmap = bm; block_hint = s + count },
      )

module _ (a : OndiskAllocator) (count : ℕ) (v : IsValid a) (f : a.total_blocks + count < 2 ^ 64)
    (w : count < 2 ^ 32) where
  -- What follows the marking of the run.
  abbrev finish : ℕ → Method OndiskAllocator Extent
  finish start = do
    set_block_hint (add64 start count)
    pure (record { logical_block = 0; length_blocks = as_u32 count; physical_block = start })

  allocate_at :
      {r : CoreFsResult ℕ}
      → 0 < count
      → Chosen a count r
      → Allocated a count (elim r [
        | err e ↦ (err e, a)
        | ok start ↦ (on_blocks (set_run start count 0) >> finish start) a
      ])
  allocate_at pos (no_run n) = no_space pos n
  allocate_at pos (run_at_start s d h) =
      subst (Allocated a count)
        (sym (
          >>=-ok (on_blocks (set_run s count 0)) (λ _. finish s) a
            (λ i. ((marked.1 i).0, record a { block_bitmap = (marked.1 i).1 }))
          ∙ λ i. (
            ok (record { logical_block = 0; length_blocks = whole i; physical_block = s }),
            record a { block_bitmap = marked.0; block_hint = last i },
          )))
        (allocated s marked.0 pos d h
          (subst (λ k. SetRun a.block_bitmap s k true marked.0) all marked.2))
    where
      marked :
          (out : Bitmap) × (set_run s count 0 a.block_bitmap ≡ (ok tt, out))
          × SetRun a.block_bitmap s (0 + count) true out
      marked =
          set_run_lem a.block_bitmap s count 0 a.block_bitmap (omega (arith, h.inside, v.wide))
            (SetRun-zero a.block_bitmap s true v.blocks)

      all : 0 + count ≡ count
      all = omega arith

      whole : as_u32 count ≡ count
      whole = omega (arith, w)

      last : add64 s count ≡ s + count
      last = omega (arith, h.inside, f)

  -- For a valid allocator and a count below 2^32 that does not pass the end of the 64-bit range,
  -- `allocate_contiguous` refuses a count of 0; reports no space, changing nothing, only if no run
  -- of that many free blocks exists in the data region; and otherwise returns a run of free blocks
  -- of the data region, of exactly that length, now marked, with no other bit changed and the hint
  -- moved past it.
  pub allocate_contiguous-Allocated : Allocated a count (allocate_contiguous count a)
  unfolding allocate_contiguous
  allocate_contiguous-Allocated = elim (Bool-cases (count == 0)) [
    | inl zero_asked ↦ rw zero_asked (nothing_asked (ground arith))
    | inr some_asked ↦
        rw some_asked (allocate_at (ground arith) (chosen_start-Chosen a count v (ground arith) f))
  ]
