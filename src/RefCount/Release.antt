-- ===== src/RefCount/Release.antt =====
-- `release_extent` drops references in order and stops at the first block that has none.
use mathlib.Core.Path.{subst}
use corefs.Common.{
  CoreFsError, ℕ, zero, suc, ◌+◌, ◌-◌, ◌≤◌, ◌<◌, ◌≡◌, refl, ◌⊎◌, inl, inr, List, [], ◌∷◌, ◌==◌,
  if◌then◌else◌, CoreFsResult, ok, err, invalid_input, state, arith,
}
use corefs.RefCount.{RefCountTable, release, release_from, release_extent, acquire_extent}
use corefs.RefCount.Table.{
  IsValid, count_at, Put, AfterRelease, dropped, outside, unreferenced, release_lem, table_ext,
}
use corefs.RefCount.Acquire.{Bumped, Bumped-zero, acquired}
use corefs.Extent.{Extent, block_of, FitsWord}

-- The blocks that `t` counts exactly once, among the `n` blocks from `p`, in order.
abbrev pub sole_blocks : RefCountTable → ℕ → ℕ → List ℕ
sole_blocks t p zero = []
sole_blocks t p (suc n) =
    if count_at t p == 1 then p ∷ sole_blocks t (p + 1) n else sole_blocks t (p + 1) n

-- What `release_extent` answers and leaves: every block counted once less and the blocks that fell
-- to zero, or an error at the first block that has no count, with the blocks before it dropped.
pub data AfterReleaseExtent (t : RefCountTable) (ext : Extent)
    : CoreFsResult (List ℕ) × RefCountTable → Type 0 where
  all_dropped :
      (out : RefCountTable)
      → IsValid out
      → Bumped out ext.physical_block ext.length_blocks t
      → AfterReleaseExtent t ext (ok (sole_blocks t ext.physical_block ext.length_blocks), out)
  stopped :
      (e : CoreFsError) (i : ℕ) (out : RefCountTable)
      → IsValid out
      → i < ext.length_blocks
      → Bumped out ext.physical_block i t
      → (t.capacity ≤ ext.physical_block + i) × (e ≡ invalid_input)
        ⊎ (count_at t (ext.physical_block + i) ≡ 0) × (e ≡ state)
      → AfterReleaseExtent t ext (err e, out)

Bumped-step :
    (t : RefCountTable) (p n : ℕ) {mid out : RefCountTable}
    → IsValid t
    → Bumped mid p n t
    → p + n < mid.capacity
    → 0 < count_at mid (p + n)
    → Put mid (p + n) (count_at mid (p + n) - 1) out
    → Bumped out p (n + 1) t
Bumped-step t p n {mid} {out} v m h pos c = record {
  same_capacity = omega (arith, m.same_capacity, c.same_capacity);
  counts = λ b. ground (arith, c.counts b, m.counts b);
  valid = v;
  inside = λ _. omega (arith, c.same_capacity);
}

-- The same for the part of the loop that begins at round `i`.
data AfterRounds (t : RefCountTable) (ext : Extent) (n i : ℕ)
    : CoreFsResult (List ℕ) × RefCountTable → Type 0 where
  rest_dropped :
      (out : RefCountTable)
      → IsValid out
      → Bumped out ext.physical_block ext.length_blocks t
      → AfterRounds t ext n i (ok (sole_blocks t (ext.physical_block + i) n), out)
  rest_stopped :
      (e : CoreFsError) (k : ℕ) (out : RefCountTable)
      → IsValid out
      → k < ext.length_blocks
      → Bumped out ext.physical_block k t
      → (t.capacity ≤ ext.physical_block + k) × (e ≡ invalid_input)
        ⊎ (count_at t (ext.physical_block + k) ≡ 0) × (e ≡ state)
      → AfterRounds t ext n i (err e, out)

-- The answer of a round that dropped a reference and left the count `new`.
keep_freed : ℕ → ℕ → CoreFsResult (List ℕ) × RefCountTable → CoreFsResult (List ℕ) × RefCountTable
keep_freed new b r = elim r.0 [
  | ok freed ↦ (ok (if new == 0 then b ∷ freed else freed), r.1)
  | err e ↦ (err e, r.1)
]

AfterRounds-keep_freed :
    (t : RefCountTable) (ext : Extent) (n i new : ℕ) {r : CoreFsResult (List ℕ) × RefCountTable}
    → new + 1 ≡ count_at t (ext.physical_block + i)
    → AfterRounds t ext n (i + 1) r
    → AfterRounds t ext (suc n) i (keep_freed new (ext.physical_block + i) r)
unfolding keep_freed
AfterRounds-keep_freed t ext n i new c (rest_dropped out v b) =
    subst (λ l. AfterRounds t ext (suc n) i (ok l, out)) same (rest_dropped out v b)
  where
    next : ext.physical_block + (i + 1) ≡ ext.physical_block + i + 1
    next = omega arith

    same : sole_blocks t (ext.physical_block + i) (suc n) ≡ (
        if new == 0
        then (ext.physical_block + i) ∷ sole_blocks t (ext.physical_block + (i + 1)) n
        else sole_blocks t (ext.physical_block + (i + 1)) n)
    same = rw next (ground (arith, c))
AfterRounds-keep_freed t ext n i new c (rest_stopped e k out v h b why) =
    rest_stopped e k out v h b why

-- What a round does with the answer of `release`.
round : Extent → ℕ → ℕ → ℕ → CoreFsResult ℕ × RefCountTable → CoreFsResult (List ℕ) × RefCountTable
round ext n i k r = elim r.0 [
  | ok new ↦ keep_freed new k (release_from ext n (i + 1) r.1)
  | err e ↦ (err e, r.1)
]

-- One round of the loop, by what `release` answered.
release_step :
    (ext : Extent) (t : RefCountTable) (n i : ℕ) (mid : RefCountTable)
    → IsValid t
    → IsValid mid
    → i < ext.length_blocks
    → Bumped mid ext.physical_block i t
    → ((after : RefCountTable)
        → IsValid after
        → Bumped after ext.physical_block (i + 1) t
        → AfterRounds t ext n (i + 1) (release_from ext n (i + 1) after))
    → {r : CoreFsResult ℕ × RefCountTable} → AfterRelease mid (ext.physical_block + i) r
    → AfterRounds t ext (suc n) i (round ext n i (ext.physical_block + i) r)
unfolding round
release_step ext t n i mid v w h m rest (dropped out q pos c) =
    AfterRounds-keep_freed t ext n i (count_at mid (ext.physical_block + i) - 1)
      (ground (arith, m.counts (ext.physical_block + i)))
      (rest out c.valid (Bumped-step t ext.physical_block i v m q pos c))
release_step ext t n i mid v w h m rest (outside q) =
    rest_stopped invalid_input i mid w h m (inl (omega (arith, m.same_capacity), refl))
release_step ext t n i mid v w h m rest (unreferenced q z) =
    rest_stopped state i mid w h m (inr (ground (arith, m.counts (ext.physical_block + i)), refl))

module _ (ext : Extent) (fits : FitsWord ext) (t : RefCountTable) (v : IsValid t) where
  release_from_lem :
      (n i : ℕ) (mid : RefCountTable)
      → i + n ≡ ext.length_blocks
      → IsValid mid
      → Bumped mid ext.physical_block i t
      → AfterRounds t ext n i (release_from ext n i mid)
  unfolding release_from round keep_freed
  release_from_lem zero i mid e w m =
      let same : i ≡ ext.length_blocks = omega arith in
      rest_dropped mid w (subst (λ k. Bumped mid ext.physical_block k t) same m)
  release_from_lem (suc n) i mid e w m =
      let here : ext.physical_block + i ≡ block_of ext i = omega (arith, fits) in
      subst (λ k. AfterRounds t ext (suc n) i (round ext n i k (release k mid))) here
        (release_step ext t n i mid v w (omega arith) m
          (λ after a b. release_from_lem n (i + 1) after (omega arith) a b)
          (release_lem mid w (ext.physical_block + i)))

  -- `release_extent` drops one reference of every block of the extent, changes no other counter,
  -- and returns in order the blocks that had only that one; or it stops at the first block that is
  -- past the capacity or has no reference, which the error tells apart, with the references of the
  -- blocks before it dropped.
  pub release_extent_lem : AfterReleaseExtent t ext (release_extent ext t)
  unfolding release_extent
  release_extent_lem =
      whole (
        release_from_lem ext.length_blocks 0 t (omega arith) v (Bumped-zero t ext.physical_block v))
    where
      from_start : ext.physical_block + 0 ≡ ext.physical_block
      from_start = omega arith

      whole :
          {r : CoreFsResult (List ℕ) × RefCountTable}
          → AfterRounds t ext ext.length_blocks 0 r
          → AfterReleaseExtent t ext r
      whole (rest_dropped out a b) = rw from_start (all_dropped out a b)
      whole (rest_stopped e k out a h b why) = stopped e k out a h b why

-- An acquired extent is released whole.
release_whole :
    (ext : Extent) (t out : RefCountTable) {r : CoreFsResult (List ℕ) × RefCountTable}
    → IsValid t
    → Bumped t ext.physical_block ext.length_blocks out
    → AfterReleaseExtent out ext r
    → r ≡ (ok (sole_blocks out ext.physical_block ext.length_blocks), t)
release_whole ext t out v m (all_dropped back w b) =
    let same : back ≡ t =
      table_ext back t w v (omega (arith, m.same_capacity, b.same_capacity))
        (λ k. ground (arith, m.counts k, b.counts k)) in
    rw same
release_whole ext t out v m (stopped e i back w h b (inl (past, _))) =
    absurd (omega (arith, m.inside (omega arith), m.same_capacity))
release_whole ext t out v m (stopped e i back w h b (inr (zero_count, _))) =
    absurd (ground (arith, m.counts (ext.physical_block + i)))

-- Releasing an extent that was just acquired restores the table, and returns the blocks of the
-- extent that had no reference before, if the extent does not run past the last 64-bit number.
pub release_extent-acquire_extent :
    (ext : Extent) (t : RefCountTable) {out : RefCountTable}
    → FitsWord ext
    → IsValid t
    → acquire_extent ext t ≡ (ok tt, out)
    → release_extent ext out ≡ (ok (sole_blocks out ext.physical_block ext.length_blocks), t)
release_extent-acquire_extent ext t {out} f v e =
    let m = acquired ext t out f v e in
    release_whole ext t out v m (release_extent_lem ext f out m.valid)
