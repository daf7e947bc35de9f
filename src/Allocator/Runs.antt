-- ===== src/Allocator/Runs.antt =====
-- Free runs: what `free_run_starting_at` measures, and what each scan over them finds.
use corefs.Common.{
  ℕ, zero, suc, ◌+◌, ◌≤◌, ◌<◌, ◌≡◌, inl, inr, true, false, Bool-cases, ltb, ◌&&◌, arith,
}
use corefs.Allocator.{OndiskAllocator, in_use, free_run_loop, free_run_starting_at}

-- Every block from `lo` up to `hi` is free.
abbrev pub AllFree : OndiskAllocator → ℕ → ℕ → Type 0
AllFree a lo hi = (j : ℕ) → lo ≤ j → j < hi → in_use a j ≡ false

-- `r` is the length of the free run at `start`, up to `cap`: it ends at the end of the volume, at
-- the cap, or at a block in use.
pub record IsRun (a : OndiskAllocator) (start cap r : ℕ) : Type 0 where
  pub capped : r ≤ cap
  pub inside : 0 < r → start + r ≤ a.total_blocks
  pub free : AllFree a start (start + r)
  pub stops : r < cap → start + r < a.total_blocks → in_use a (start + r) ≡ true

AllFree-suc :
    (a : OndiskAllocator) (lo hi : ℕ)
    → AllFree a lo hi
    → in_use a hi ≡ false
    → AllFree a lo (hi + 1)
AllFree-suc a lo hi h f j p q = elim (Bool-cases (ltb j hi)) [
  | inl below ↦ h j p (ground arith)
  | inr here ↦ let same : j ≡ hi = ground arith in rw same f
]

free_run_loop-IsRun :
    (a : OndiskAllocator) (start cap fuel len : ℕ)
    → len ≤ cap
    → (0 < len → start + len ≤ a.total_blocks)
    → AllFree a start (start + len)
    → a.total_blocks ≤ start + len + fuel
    → IsRun a start cap (free_run_loop a cap fuel (start + len) len)
unfolding free_run_loop
free_run_loop-IsRun a start cap zero len c t f e = record {
  capped = c;
  inside = t;
  free = f;
  stops = λ _ h. absurd (omega arith);
}
free_run_loop-IsRun a start cap (suc fuel) len c t f e =
    elim (Bool-cases (ltb (start + len) a.total_blocks && ltb len cap)) [
      | inr over ↦
          rw over
            (record { capped = c; inside = t; free = f; stops = λ p q. absurd (ground arith) })
      | inl more ↦ elim (Bool-cases (in_use a (start + len))) [
        | inl used ↦
            rw (more, used) (record { capped = c; inside = t; free = f; stops = λ p q. used })
        | inr is_free ↦
            rw (more, is_free)
              (let next : start + (len + 1) ≡ start + len + 1 = omega arith in
                rw (← next) (
                  free_run_loop-IsRun a start cap fuel (len + 1) (ground arith) (λ _. ground arith)
                    (rw next (AllFree-suc a start (start + len) f is_free)) (omega arith)))
      ]
    ]

-- `free_run_starting_at` measures the free run at its start.
pub free_run_starting_at-IsRun :
    (a : OndiskAllocator) (start cap : ℕ) → IsRun a start cap (free_run_starting_at a start cap)
unfolding free_run_starting_at
free_run_starting_at-IsRun a start cap =
    let same : start + 0 ≡ start = omega arith in
    rw same at (
      free_run_loop-IsRun a start cap a.total_blocks 0 (omega arith) (λ h. absurd (omega arith))
        (λ j p q. absurd (omega arith)) (omega arith))
