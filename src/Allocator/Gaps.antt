-- ===== src/Allocator/Gaps.antt =====
-- Free runs and the gaps that they lie in.
use mathlib.Core.Path.{subst}
use corefs.Common.{
  ℕ, zero, suc, ◌+◌, ◌-◌, ◌≤◌, ◌<◌, ◌≡◌, inl, inr, true, Bool-cases, leb, ◌==◌, arith,
}
use corefs.Allocator.{OndiskAllocator, in_use, u64_max}
use corefs.Allocator.Runs.{AllFree, free_run_starting_at-IsRun}
use corefs.Allocator.FirstFit.{HasRun}
use corefs.Allocator.BestFit.{IsGapStart, run_at}

-- Below a free run there is the gap that it lies in.
gap_of_run :
    (a : OndiskAllocator) (count t : ℕ)
    → a.data_start ≤ t
    → AllFree a t (t + count)
    → (g : ℕ) × (a.data_start ≤ g) × (g ≤ t) × IsGapStart a g × AllFree a g (t + count)
gap_of_run a count zero d f = (0, d, omega arith, inl (omega arith), f)
gap_of_run a count (suc t) d f = elim (Bool-cases (a.data_start == suc t)) [
  | inl at_start ↦ (suc t, d, omega arith, inl (ground arith), f)
  | inr behind ↦ elim (Bool-cases (in_use a t)) [
    | inl used ↦
        let back : t ≡ suc t - 1 = omega arith in
        (suc t, d, omega arith, inr (omega arith, subst (λ b. in_use a b ≡ true) back used), f)
    | inr is_free ↦
        let earlier = gap_of_run a (suc count) t (ground arith) (λ j p q.
          elim (Bool-cases (j == t)) [
            | inl here ↦ let same : j ≡ t = ground arith in rw same is_free
            | inr after ↦ f j (ground arith) (omega arith)
          ]) in
        (
          earlier.0,
          earlier.1,
          omega (arith, earlier.2),
          earlier.3,
          λ j p q. earlier.4 j p (omega arith),
        )
  ]
]

-- The free run at the start of a gap is at least as long as any run inside the gap.
run_of_gap :
    (a : OndiskAllocator) (g hi : ℕ)
    → hi ≤ a.total_blocks
    → a.total_blocks < u64_max
    → AllFree a g hi
    → hi ≤ g + run_at a g
run_of_gap a g hi h small f =
    let is_run = free_run_starting_at-IsRun a g u64_max in
    elim (Bool-cases (leb hi (g + run_at a g))) [
      | inl reaches ↦ ground arith
      | inr short ↦ absurd (
          ground (
            arith,
            f (g + run_at a g) (omega arith) (ground arith),
            is_run.stops (ground arith) (ground arith),
          ))
    ]

-- Where best fit fails there is no free run of `count` blocks in the data region.
pub no_run_of_no_gap :
    (a : OndiskAllocator) (count t : ℕ)
    → a.total_blocks < u64_max
    → 0 < count
    → ((g : ℕ) → a.data_start ≤ g → g < a.total_blocks → IsGapStart a g → run_at a g < count)
    → a.data_start ≤ t
    → ¬ HasRun a count t
no_run_of_no_gap a count t small pos none_long d x =
    let gap = gap_of_run a count t d x.free in
    omega (
      arith,
      gap.2,
      x.inside,
      none_long gap.0 gap.1 (omega (arith, gap.2, x.inside)) gap.3,
      run_of_gap a gap.0 (t + count) x.inside small gap.4,
    )

-- The gap that best fit chooses begins a free run of `count` blocks.
pub run_of_smallest :
    (a : OndiskAllocator) (count s : ℕ) → 0 < count → count ≤ run_at a s → HasRun a count s
run_of_smallest a count s pos w =
    let is_run = free_run_starting_at-IsRun a s u64_max in
    record {
      inside = omega (arith, is_run.inside (omega arith));
      free = λ j p q. is_run.free j p (omega arith);
    }
