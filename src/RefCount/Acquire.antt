-- ===== src/RefCount/Acquire.antt =====
-- `acquire_extent` is all or nothing.
use mathlib.Core.Path.{subst}
use corefs.Common.{
  CoreFsError, ℕ, zero, suc, ◌+◌, ◌-◌, ◌≤◌, ◌<◌, ◌^◌, ◌≡◌, refl, ap, ◌⊎◌, inl, inr, true,
  if◌then◌else◌, CoreFsResult, ok, err, invalid_input, policy_violation, arith,
}
use corefs.RefCount.{
  RefCountTable, acquire, release, roll_back, acquire_from, acquire_extent, max_refcount,
}
use corefs.RefCount.Table.{
  IsValid, count_at, Put, AfterAcquire, counted, past_end, saturated, acquire_lem, AfterRelease,
  dropped, outside, unreferenced, release_lem, table_ext,
}
use corefs.Extent.{Extent, block_of, FitsWord, in_run, in_extent}

-- `out` is `t` with one reference more on each of the `n` blocks from `p`.
pub record Bumped (t : RefCountTable) (p n : ℕ) (out : RefCountTable) : Type 0 where
  pub same_capacity : out.capacity ≡ t.capacity
  pub counts : (b : ℕ) → count_at out b ≡ count_at t b + (if in_run p n b then 1 else 0)
  pub valid : IsValid out
  pub inside : 0 < n → p + n ≤ t.capacity

pub Bumped-zero : (t : RefCountTable) (p : ℕ) → IsValid t → Bumped t p 0 t
Bumped-zero t p v = record {
  same_capacity = refl;
  counts = λ b. ground arith;
  valid = v;
  inside = λ h. absurd (omega arith);
}

-- One more block is acquired behind the run.
Bumped-suc :
    (t : RefCountTable) (p n : ℕ) {mid out : RefCountTable}
    → Bumped t p n mid
    → p + n < mid.capacity
    → Put mid (p + n) (count_at mid (p + n) + 1) out
    → Bumped t p (n + 1) out
Bumped-suc t p n {mid} {out} m h c = record {
  same_capacity = omega (arith, m.same_capacity, c.same_capacity);
  counts = λ b. ground (arith, c.counts b, m.counts b);
  valid = c.valid;
  inside = λ _. omega (arith, m.same_capacity);
}

-- Taking the first block of the run back.
Bumped-tail :
    (t : RefCountTable) (p n : ℕ) {mid out : RefCountTable}
    → Bumped t p (suc n) mid
    → Put mid p (count_at mid p - 1) out
    → Bumped t (p + 1) n out
Bumped-tail t p n {mid} {out} m c = record {
  same_capacity = omega (arith, m.same_capacity, c.same_capacity);
  counts = λ b. ground (arith, c.counts b, m.counts b);
  valid = c.valid;
  inside = λ _. omega (arith, m.inside (omega arith));
}

module _ (ext : Extent) (t : RefCountTable) (v : IsValid t) where
  release_of_Bumped :
      (p n : ℕ) (mid : RefCountTable)
      → Bumped t p (suc n) mid
      → Bumped t (p + 1) n (release p mid).1
  release_of_Bumped p n mid m = by_answer (release_lem mid m.valid p)
    where
      by_answer :
          {r : CoreFsResult ℕ × RefCountTable} → AfterRelease mid p r → Bumped t (p + 1) n r.1
      by_answer (dropped out h pos c) = Bumped-tail t p n m c
      by_answer (outside h) = absurd (omega (arith, m.inside (omega arith), m.same_capacity))
      by_answer (unreferenced h z) = absurd (ground (arith, m.counts p))

  -- Rolling back a run that was acquired restores the table.
  roll_back_undoes :
      (n j : ℕ) (mid : RefCountTable)
      → ext.physical_block + j + n < 2 ^ 64
      → Bumped t (ext.physical_block + j) n mid
      → roll_back ext n j mid ≡ t
  unfolding roll_back
  roll_back_undoes zero j mid f m =
      table_ext mid t m.valid v m.same_capacity (λ b. ground (arith, m.counts b))
  roll_back_undoes (suc n) j mid f m =
      let here : block_of ext j ≡ ext.physical_block + j = omega arith in
      let next : ext.physical_block + j + 1 ≡ ext.physical_block + (j + 1) = omega arith in
      rw here (
        roll_back_undoes n (j + 1) _ (omega arith)
          (rw (← next) (release_of_Bumped (ext.physical_block + j) n mid m)))

  roll_back_all :
      (n : ℕ) (mid : RefCountTable)
      → ext.physical_block + n < 2 ^ 64
      → Bumped t ext.physical_block n mid
      → roll_back ext n 0 mid ≡ t
  roll_back_all n mid f m =
      let start : ext.physical_block ≡ ext.physical_block + 0 = omega arith in
      roll_back_undoes n 0 mid (omega arith) (subst (λ p. Bumped t p n mid) start m)

-- What `acquire_extent` answers and leaves: every block of the extent counted once more, or the
-- table as it was and a block of the extent that cannot be counted.
pub data AfterAcquireExtent (t : RefCountTable) (ext : Extent)
    : CoreFsResult (Unit {0}) × RefCountTable → Type 0 where
  all_counted :
      (out : RefCountTable)
      → Bumped t ext.physical_block ext.length_blocks out
      → AfterAcquireExtent t ext (ok tt, out)
  all_undone :
      (e : CoreFsError) (b : ℕ)
      → in_extent ext b ≡ true
      → (t.capacity ≤ b) × (e ≡ invalid_input)
        ⊎ (count_at t b ≡ max_refcount) × (e ≡ policy_violation)
      → AfterAcquireExtent t ext (err e, t)

-- One round of the loop, by what `acquire` answered.
acquire_step :
    (ext : Extent) (t : RefCountTable) (n i : ℕ) (mid : RefCountTable)
    → IsValid t
    → i < ext.length_blocks
    → FitsWord ext
    → Bumped t ext.physical_block i mid
    → ((after : RefCountTable)
        → Bumped t ext.physical_block (i + 1) after
        → AfterAcquireExtent t ext (acquire_from ext n (i + 1) after))
    → {r : CoreFsResult ℕ × RefCountTable} → AfterAcquire mid (ext.physical_block + i) r
    → AfterAcquireExtent t ext (elim r.0 [
      | ok _ ↦ acquire_from ext n (i + 1) r.1
      | err e ↦ (err e, roll_back ext i 0 r.1)
    ])
acquire_step ext t n i mid v h f m rest (counted out q b c) =
    rest out (Bumped-suc t ext.physical_block i m q c)
acquire_step ext t n i mid v h f m rest (past_end q) =
    rw (roll_back_all ext t v i mid (omega arith) m) (
      all_undone invalid_input (ext.physical_block + i) (ground arith)
        (inl (omega (arith, m.same_capacity), refl)))
acquire_step ext t n i mid v h f m rest (saturated q top) =
    rw (roll_back_all ext t v i mid (omega arith) m) (
      all_undone policy_violation (ext.physical_block + i) (ground arith)
        (inr (ground (arith, m.counts (ext.physical_block + i)), refl)))

module _ (ext : Extent) (fits : FitsWord ext) (t : RefCountTable) (v : IsValid t) where
  acquire_from_lem :
      (n i : ℕ) (mid : RefCountTable)
      → i + n ≡ ext.length_blocks
      → Bumped t ext.physical_block i mid
      → AfterAcquireExtent t ext (acquire_from ext n i mid)
  unfolding acquire_from
  acquire_from_lem zero i mid e m =
      let same : i ≡ ext.length_blocks = omega arith in
      all_counted mid (subst (λ k. Bumped t ext.physical_block k mid) same m)
  acquire_from_lem (suc n) i mid e m =
      let here : block_of ext i ≡ ext.physical_block + i = omega arith in
      acquire_step ext t n i mid v (omega arith) (omega (arith, fits)) m
        (λ after b. acquire_from_lem n (i + 1) after (omega arith) b)
        (subst (λ k. AfterAcquire mid k (acquire (block_of ext i) mid)) here
          (acquire_lem mid m.valid (block_of ext i)))

  -- `acquire_extent` is all or nothing: it counts every block of the extent once more and changes
  -- no other counter, or it leaves the table as it was, and then some block of the extent lies past
  -- the capacity or has the largest count, which the error tells apart.
  pub acquire_extent-atomic : AfterAcquireExtent t ext (acquire_extent ext t)
  unfolding acquire_extent
  acquire_extent-atomic =
      acquire_from_lem ext.length_blocks 0 t (omega arith) (Bumped-zero t ext.physical_block v)

acquired_by :
    (ext : Extent) (t out : RefCountTable) {r : CoreFsResult (Unit {0}) × RefCountTable}
    → AfterAcquireExtent t ext r
    → r ≡ (ok tt, out)
    → Bumped t ext.physical_block ext.length_blocks out
acquired_by ext t out (all_counted mid b) e =
    subst (λ s. Bumped t ext.physical_block ext.length_blocks s) (ap (λ r. r.1) e) b
acquired_by ext t out (all_undone _ k _ _) e = absurd (cc)

-- The table behind a call of `acquire_extent` that succeeded.
pub acquired :
    (ext : Extent) (t out : RefCountTable)
    → FitsWord ext
    → IsValid t
    → acquire_extent ext t ≡ (ok tt, out)
    → Bumped t ext.physical_block ext.length_blocks out
acquired ext t out f v = acquired_by ext t out (acquire_extent-atomic ext f t v)
