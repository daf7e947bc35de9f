-- ===== src/Allocator/BestFit.antt =====
-- `find_best_fit` returns a gap of the smallest size that fits, and fails only when none fits.
use mathlib.Core.Path.{subst}
use corefs.Common.{
  ℕ, zero, suc, ◌+◌, ◌-◌, ◌≤◌, ◌<◌, ◌≡◌, refl, ◌⊎◌, inl, inr, true, Option, none, some, Bool-cases,
  ltb, leb, ◌==◌, ◌&&◌, CoreFsResult, ok, err, state, arith,
}
use corefs.Allocator.{
  OndiskAllocator, in_use, free_run_starting_at, best_loop, find_best_fit, past_run, u64_max,
}
use corefs.Allocator.Runs.{free_run_starting_at-IsRun}

-- A gap begins where the data region does, and behind every block in use.
abbrev pub IsGapStart : OndiskAllocator → ℕ → Type 0
IsGapStart a t = (t ≡ a.data_start) ⊎ (0 < t) × (in_use a (t - 1) ≡ true)

-- The length of the free run at `t`.
abbrev pub run_at : OndiskAllocator → ℕ → ℕ
run_at a t = free_run_starting_at a t u64_max

-- The best gap among those that begin before `c`.
data BestBefore (a : OndiskAllocator) (count c : ℕ) : Option ℕ → ℕ → Type 0 where
  none_fits :
      ((t : ℕ) → a.data_start ≤ t → t < c → IsGapStart a t → run_at a t < count)
      → BestBefore a count c none u64_max
  best_is :
      (s best_len : ℕ)
      → a.data_start ≤ s
      → s < a.total_blocks
      → IsGapStart a s
      → best_len ≡ run_at a s
      → count ≤ run_at a s
      → ((t : ℕ)
          → a.data_start ≤ t
          → t < c
          → IsGapStart a t
          → count ≤ run_at a t
          → best_len ≤ run_at a t)
      → BestBefore a count c (some s) best_len

-- What `find_best_fit` answers: the start of a gap that fits, none that fits being smaller, or an
-- error because no gap fits.
pub data BestFit (a : OndiskAllocator) (count : ℕ) : CoreFsResult ℕ → Type 0 where
  smallest :
      (s : ℕ)
      → a.data_start ≤ s
      → s < a.total_blocks
      → IsGapStart a s
      → count ≤ run_at a s
      → ((t : ℕ)
          → a.data_start ≤ t
          → t < a.total_blocks
          → IsGapStart a t
          → count ≤ run_at a t
          → run_at a s ≤ run_at a t)
      → BestFit a count (ok s)
  no_gap :
      ((t : ℕ) → a.data_start ≤ t → t < a.total_blocks → IsGapStart a t → run_at a t < count)
      → BestFit a count (err state)

BestFit-BestBefore :
    (a : OndiskAllocator) (count c : ℕ) {o : Option ℕ} {best_len : ℕ}
    → a.total_blocks ≤ c
    → BestBefore a count c o best_len
    → BestFit a count (elim o [ some start ↦ ok start | none ↦ err state ])
BestFit-BestBefore a count c h (none_fits n) = no_gap (λ t p q. n t p (omega arith))
BestFit-BestBefore a count c h (best_is s l p i g e w least) =
    smallest s p i g w (λ t q r gt wt. omega (arith, least t q (omega arith) gt wt))

-- No gap begins inside the run at `c` but `c` itself.
no_gap_inside :
    (a : OndiskAllocator) (c t : ℕ)
    → a.data_start ≤ c
    → c < t
    → t ≤ c + run_at a c
    → IsGapStart a t
    → ⊥
no_gap_inside a c t d p q (inl at_start) = omega arith
no_gap_inside a c t d p q (inr (pos, used)) =
    ground
      (arith, (free_run_starting_at-IsRun a c u64_max).free (t - 1) (omega arith) (omega arith))

module _ (a : OndiskAllocator) (count c : ℕ) (d : a.data_start ≤ c)
    (small : a.total_blocks < u64_max) (inside : c < a.total_blocks) where
  run_short : c + run_at a c ≤ a.total_blocks
  run_short = elim (Bool-cases (run_at a c == 0)) [
    | inl empty ↦ ground arith
    | inr some_free ↦ (free_run_starting_at-IsRun a c u64_max).inside (ground arith)
  ]

  past_run_lem : past_run c (run_at a c) ≡ c + run_at a c + 1
  past_run_lem = ground (arith, run_short)

  -- The cursor moves to a gap start, or past the end.
  next_start : c + run_at a c + 1 < a.total_blocks → IsGapStart a (c + run_at a c + 1)
  next_start h =
      let back : c + run_at a c ≡ c + run_at a c + 1 - 1 = omega arith in
      inr (
        omega arith,
        subst (λ b. in_use a b ≡ true) back
            ((free_run_starting_at-IsRun a c u64_max).stops (omega (arith, run_short))
              (omega arith)),
      )

  keep_best :
      {o : Option ℕ} {l : ℕ}
      → (count ≤ run_at a c → l ≤ run_at a c)
      → BestBefore a count c o l
      → BestBefore a count (c + run_at a c + 1) o l
  keep_best k (none_fits n) = none_fits (λ t p q g. elim (Bool-cases (ltb t c)) [
    | inl before ↦ n t p (ground arith) g
    | inr after ↦ elim (Bool-cases (t == c)) [
      | inl here ↦ let same : t ≡ c = ground arith in ground (arith, run_short)
      | inr behind ↦ absurd (no_gap_inside a c t d (ground arith) (omega arith) g)
    ]
  ])
  keep_best k (best_is s l p i g e w least) = best_is s l p i g e w (λ t q r gt wt.
      elim (Bool-cases (ltb t c)) [
        | inl before ↦ least t q (ground arith) gt wt
        | inr after ↦ elim (Bool-cases (t == c)) [
          | inl here ↦ let same : t ≡ c = ground arith in ground arith
          | inr behind ↦ absurd (no_gap_inside a c t d (ground arith) (omega arith) gt)
        ]
      ])

  new_best :
      {o : Option ℕ} {l : ℕ}
      → IsGapStart a c
      → count ≤ run_at a c
      → run_at a c < l
      → BestBefore a count c o l
      → BestBefore a count (c + run_at a c + 1) (some c) (run_at a c)
  new_best {o} {l} g w lt b = best_is c (run_at a c) d inside g refl w (λ t q r gt wt.
      elim (Bool-cases (ltb t c)) [
        | inl before ↦ earlier t lt q (ground arith) gt wt b
        | inr after ↦ elim (Bool-cases (t == c)) [
          | inl here ↦ let same : t ≡ c = ground arith in ground arith
          | inr behind ↦ absurd (no_gap_inside a c t d (ground arith) (omega arith) gt)
        ]
      ])
    where
      earlier :
          {o' : Option ℕ} {l' : ℕ} (t : ℕ)
          → run_at a c < l'
          → a.data_start ≤ t
          → t < c
          → IsGapStart a t
          → count ≤ run_at a t
          → BestBefore a count c o' l'
          → run_at a c ≤ run_at a t
      earlier t k q r gt wt (none_fits n) = absurd (omega (arith, n t q r gt))
      earlier t k q r gt wt (best_is s l'' p i h e v least) = omega (arith, least t q r gt wt)

module _ (a : OndiskAllocator) (count : ℕ) (small : a.total_blocks < u64_max) where
  best_loop-BestFit :
      (fuel c : ℕ) (best : Option ℕ) (best_len : ℕ)
      → a.data_start ≤ c
      → (c < a.total_blocks → IsGapStart a c)
      → a.total_blocks < c + fuel
      → BestBefore a count c best best_len
      → BestFit a count (elim (best_loop a count fuel c best best_len) [
        | some start ↦ ok start
        | none ↦ err state
      ])
  unfolding best_loop
  best_loop-BestFit zero c best best_len d g e b = BestFit-BestBefore a count c (omega arith) b
  best_loop-BestFit (suc fuel) c best best_len d g e b = elim (Bool-cases (ltb c a.total_blocks)) [
    | inr past ↦ rw past (BestFit-BestBefore a count c (ground arith) b)
    | inl more ↦
        let inside : c < a.total_blocks = ground arith in
        elim (Bool-cases (leb count (run_at a c) && ltb (run_at a c) best_len)) [
          | inr kept ↦
              rw (more, kept, past_run_lem a count c d small inside)
                (best_loop-BestFit fuel (c + run_at a c + 1) best best_len (omega arith)
                  (next_start a count c d small inside) (omega arith)
                  (keep_best a count c d small inside (λ w. ground arith) b))
          | inl better ↦ elim (Bool-cases (run_at a c == count)) [
            | inl perfect ↦
                rw (more, better, perfect)
                  (smallest c d inside (g inside) (ground arith) (λ t q r gt wt. ground arith))
            | inr larger ↦
                rw (more, better, larger, past_run_lem a count c d small inside)
                  (best_loop-BestFit fuel (c + run_at a c + 1) (some c) (run_at a c) (omega arith)
                    (next_start a count c d small inside) (omega arith)
                    (new_best a count c d small inside (g inside) (ground arith) (ground arith) b))
          ]
        ]
  ]

-- Best fit finds a gap of the data region that holds `count` blocks, and no gap that holds them is
-- smaller; it fails only if no gap of the data region holds them. The volume has fewer blocks than
-- the largest 64-bit number.
pub find_best_fit-BestFit :
    (a : OndiskAllocator) (count : ℕ)
    → a.total_blocks < u64_max
    → BestFit a count (find_best_fit a count)
unfolding find_best_fit
find_best_fit-BestFit a count small =
    best_loop-BestFit a count small (suc a.total_blocks) a.data_start none u64_max (omega arith)
      (λ _. inl refl) (omega arith) (none_fits (λ t p q. absurd (omega arith)))
