-- ===== src/Allocator/FirstFit.antt =====
-- `find_first_fit` returns a free run of the data region, and fails only when there is none.
use corefs.Common.{
  ℕ, zero, suc, ◌+◌, ◌≤◌, ◌<◌, ◌^◌, ◌≡◌, inl, inr, max, true, Option, none, some, Bool-cases, leb,
  CoreFsResult, ok, err, state, arith,
}
use corefs.Common.Word.{add64}
use corefs.Allocator.{OndiskAllocator, in_use, free_run_starting_at, scan_from, find_first_fit}
use corefs.Allocator.Runs.{AllFree, free_run_starting_at-IsRun}

-- A free run of `count` blocks at `s`, inside the volume.
pub record HasRun (a : OndiskAllocator) (count s : ℕ) : Type 0 where
  pub inside : s + count ≤ a.total_blocks
  pub free : AllFree a s (s + count)

-- The lowest run from `start` on, or none at all.
data Scanned (a : OndiskAllocator) (count start : ℕ) : Option ℕ → Type 0 where
  found :
      (s : ℕ)
      → start ≤ s
      → HasRun a count s
      → ((t : ℕ) → start ≤ t → t < s → ¬ HasRun a count t)
      → Scanned a count start (some s)
  missing : ((t : ℕ) → start ≤ t → ¬ HasRun a count t) → Scanned a count start none

-- No run begins at or before the block in use that ends a short run.
Scanned-past :
    (a : OndiskAllocator) (count start run : ℕ) {o : Option ℕ}
    → run < count
    → in_use a (start + run) ≡ true
    → Scanned a count (start + run + 1) o
    → Scanned a count start o
Scanned-past a count start run h used (found s p r least) = found s (omega arith) r (λ t q u.
    elim (Bool-cases (leb t (start + run))) [
      | inl before ↦ λ x. absurd (ground (arith, x.free (start + run) (ground arith) (omega arith)))
      | inr after ↦ least t (ground arith) u
    ])
Scanned-past a count start run h used (missing none_after) = missing (λ t q.
    elim (Bool-cases (leb t (start + run))) [
      | inl before ↦ λ x. absurd (ground (arith, x.free (start + run) (ground arith) (omega arith)))
      | inr after ↦ none_after t (ground arith)
    ])

module _ (a : OndiskAllocator) (count : ℕ) (fits : a.total_blocks + count < 2 ^ 64) where
  scan_from-Scanned :
      (fuel start : ℕ)
      → start ≤ a.total_blocks
      → a.total_blocks < start + fuel
      → Scanned a count start (scan_from a count fuel start)
  unfolding scan_from
  scan_from-Scanned zero start p e = absurd (omega arith)
  scan_from-Scanned (suc fuel) start p e =
      let run = free_run_starting_at a start count in
      let is_run = free_run_starting_at-IsRun a start count in
      elim (Bool-cases (leb (add64 start count) a.total_blocks)) [
        | inr past ↦ rw past (missing (λ t q x. ground (arith, x.inside, fits)))
        | inl room ↦ elim (Bool-cases (leb count run)) [
          | inl long ↦
              rw (room, long)
                (found start (omega arith)
                  (record {
                    inside = ground (arith, fits);
                    free = λ j q r. is_run.free j q (ground arith);
                  })
                  (λ t q r. absurd (omega arith)))
          | inr short ↦
              rw (room, short)
                (let next : add64 start (run + 1) ≡ start + run + 1 = ground (arith, fits) in
                  rw next (
                    Scanned-past a count start run (ground arith)
                      (is_run.stops (ground arith) (ground (arith, fits)))
                      (scan_from-Scanned fuel (start + run + 1) (ground (arith, fits))
                        (omega arith))))
        ]
      ]

-- What `find_first_fit` answers: the lowest run from the hint on, else the lowest run of the data
-- region, else an error because there is no run.
pub data FirstFit (a : OndiskAllocator) (count : ℕ) : CoreFsResult ℕ → Type 0 where
  after_hint :
      (s : ℕ)
      → max a.block_hint a.data_start ≤ s
      → HasRun a count s
      → ((t : ℕ) → max a.block_hint a.data_start ≤ t → t < s → ¬ HasRun a count t)
      → FirstFit a count (ok s)
  before_hint :
      (s : ℕ)
      → a.data_start ≤ s
      → HasRun a count s
      → ((t : ℕ) → a.data_start ≤ t → t < s → ¬ HasRun a count t)
      → ((t : ℕ) → max a.block_hint a.data_start ≤ t → ¬ HasRun a count t)
      → FirstFit a count (ok s)
  nowhere : ((t : ℕ) → a.data_start ≤ t → ¬ HasRun a count t) → FirstFit a count (err state)

from_second :
    (a : OndiskAllocator) (count : ℕ) {o : Option ℕ}
    → ((t : ℕ) → max a.block_hint a.data_start ≤ t → ¬ HasRun a count t)
    → Scanned a count a.data_start o
    → FirstFit a count (elim o [ some start ↦ ok start | none ↦ err state ])
from_second a count n (found s p r least) = before_hint s p r least n
from_second a count n (missing m) = nowhere m

from_first :
    (a : OndiskAllocator) (count : ℕ) {o o' : Option ℕ}
    → Scanned a count (max a.block_hint a.data_start) o
    → Scanned a count a.data_start o'
    → FirstFit a count (elim o [
      | some start ↦ ok start
      | none ↦ elim o' [ some start ↦ ok start | none ↦ err state ]
    ])
from_first a count (found s p r least) second = after_hint s p r least
from_first a count (missing m) second = from_second a count m second

-- First fit finds the lowest free run of `count` blocks at or after the hint, else the lowest in
-- the data region, and fails only if the data region has no such run, if the hint and the start of
-- the data region lie inside the volume and no sum wraps around.
pub find_first_fit-FirstFit :
    (a : OndiskAllocator) (count : ℕ)
    → a.total_blocks + count < 2 ^ 64
    → a.data_start ≤ a.total_blocks
    → a.block_hint ≤ a.total_blocks
    → FirstFit a count (find_first_fit a count)
unfolding find_first_fit
find_first_fit-FirstFit a count f d h =
    from_first a count
      (scan_from-Scanned a count f (suc a.total_blocks) _ (omega arith) (omega arith))
      (scan_from-Scanned a count f (suc a.total_blocks) a.data_start d (omega arith))
