-- ===== src/RefCount.antt =====
-- corefs-core/src/storage/ondisk/refcount.rs: a 16-bit reference counter for each data block, and
-- the copy-on-write decisions that rest on it.
pub mod Table
pub mod Acquire
pub mod Release
pub mod Sharing
pub mod Blocks
pub mod Codec
use corefs.Common.{
  ℕ, zero, suc, ◌+◌, ◌-◌, ◌*◌, ◌%◌, Bool, true, false, not, List, [], ◌∷◌, ltb, leb, ◌==◌, ◌&&◌,
  if◌then◌else◌, CoreFsResult, ok, err, invalid_input, policy_violation, state, Method, ◌>>=◌, ◌>>◌,
  pure, throw, length, get_or, set, replicate,
}
use corefs.Common.Word.{div_ceil, u64_mod}
use corefs.Layout.{block_size}
use corefs.Extent.{Extent, block_of}

-- `COUNTS_PER_BLOCK` and `MAX_REFCOUNT`
abbrev pub counts_per_block : ℕ
counts_per_block = 2044

abbrev pub max_refcount : ℕ
max_refcount = 65535

pub record RefCountTable : Type 0 where
  pub counters : List ℕ
  pub capacity : ℕ

-- `RefCountTable::new`
unfoldable pub new : ℕ → RefCountTable
new capacity = record { counters = replicate capacity 0; capacity = capacity }

-- `RefCountTable::blocks_needed`
unfoldable pub blocks_needed : ℕ → ℕ
blocks_needed capacity = div_ceil capacity counts_per_block

-- `RefCountTable::get`
unfoldable pub get : RefCountTable → ℕ → ℕ
get t block = if leb t.capacity block then 0 else get_or t.counters block 0

-- `RefCountTable::get_checked`
unfoldable pub get_checked : RefCountTable → ℕ → CoreFsResult ℕ
get_checked t block =
    if leb t.capacity block then err invalid_input else ok (get_or t.counters block 0)

-- `self.counters[block] = value`
abbrev pub put : RefCountTable → ℕ → ℕ → RefCountTable
put t block value = record t { counters = set t.counters block value }

-- `RefCountTable::acquire`
unfoldable pub acquire : ℕ → Method RefCountTable ℕ
acquire block t =
    let cur = get_or t.counters block 0 in
    if leb t.capacity block
    then (err invalid_input, t)
    else if cur == max_refcount
    then (err policy_violation, t)
    else (ok (cur + 1), put t block (cur + 1))

-- `RefCountTable::release`
unfoldable pub release : ℕ → Method RefCountTable ℕ
release block t =
    let cur = get_or t.counters block 0 in
    if leb t.capacity block
    then (err invalid_input, t)
    else if cur == 0
    then (err state, t)
    else (ok (cur - 1), put t block (cur - 1))

-- The loop `for j in 0..i { let _ = self.release(..) }`, from `j` on for `n` rounds.
unfoldable pub roll_back : Extent → ℕ → ℕ → RefCountTable → RefCountTable
roll_back ext zero j t = t
roll_back ext (suc n) j t = roll_back ext n (j + 1) (release (block_of ext j) t).1

-- The loop of `RefCountTable::acquire_extent`, from `i` on for `n` rounds.
unfoldable pub acquire_from : Extent → ℕ → ℕ → Method RefCountTable (Unit {0})
acquire_from ext zero i t = (ok tt, t)
acquire_from ext (suc n) i t =
    let (r, t') = acquire (block_of ext i) t in
    elim r [ ok _ ↦ acquire_from ext n (i + 1) t' | err e ↦ (err e, roll_back ext i 0 t') ]

-- `RefCountTable::acquire_extent`
unfoldable pub acquire_extent : Extent → Method RefCountTable (Unit {0})
acquire_extent ext = acquire_from ext ext.length_blocks 0

-- The loop of `RefCountTable::release_extent`. The blocks that fall to zero come in order.
unfoldable pub release_from : Extent → ℕ → ℕ → Method RefCountTable (List ℕ)
release_from ext zero i t = (ok [], t)
release_from ext (suc n) i t =
    let (r, t') = release (block_of ext i) t in
    elim r [
      | ok new ↦
          (do
            freed ← release_from ext n (i + 1)
            pure (if new == 0 then block_of ext i ∷ freed else freed))
            t'
      | err e ↦ (err e, t')
    ]

-- `RefCountTable::release_extent`
unfoldable pub release_extent : Extent → Method RefCountTable (List ℕ)
release_extent ext = release_from ext ext.length_blocks 0

-- The counters above a bound: `allocated` and `shared`.
count_above : ℕ → List ℕ → ℕ
count_above n [] = 0
count_above n (c ∷ cs) = (if ltb n c then 1 else 0) + count_above n cs

pub allocated : RefCountTable → ℕ
allocated t = count_above 0 t.counters

pub shared : RefCountTable → ℕ
shared t = count_above 1 t.counters

-- `BlockSharing` and `CowOutcome`
pub record BlockSharing : Type 0 where
  pub table : RefCountTable

pub data CowOutcome : Type 0 where
  in_place : CowOutcome
  must_copy : List ℕ → CowOutcome

-- `BlockSharing::new`; `into_table` is the field.
abbrev pub new_sharing : RefCountTable → BlockSharing
new_sharing t = record { table = t }

-- A method of the table, run on the table of a `BlockSharing`.
abbrev pub on_table {ℓ} : {A : Type ℓ} → Method RefCountTable A → Method BlockSharing A
on_table m s = let (r, t) = m s.table in (r, record { table = t })

-- The test of the loops of `register_fresh` and `cow_write`: each of the `n` blocks from the
-- `i`-th on has the count `c`.
unfoldable pub all_counts : Extent → ℕ → RefCountTable → ℕ → ℕ → Bool
all_counts ext c t zero i = true
all_counts ext c t (suc n) i = get t (block_of ext i) == c && all_counts ext c t n (i + 1)

-- `BlockSharing::register_fresh`
unfoldable pub register_fresh : Extent → Method BlockSharing (Unit {0})
register_fresh ext s =
    if all_counts ext 0 s.table ext.length_blocks 0
    then on_table (acquire_extent ext) s
    else (err state, s)

-- `BlockSharing::clone_extent`
unfoldable pub clone_extent : Extent → Method BlockSharing (Unit {0})
clone_extent ext = on_table (acquire_extent ext)

-- `BlockSharing::cow_write`
unfoldable pub cow_write : Extent → Method BlockSharing CowOutcome
cow_write ext s =
    if all_counts ext 1 s.table ext.length_blocks 0
    then (ok in_place, s)
    else (do freed ← on_table (release_extent ext); pure (must_copy freed)) s

-- `BlockSharing::release`
pub release_shared : Extent → Method BlockSharing (List ℕ)
release_shared ext = on_table (release_extent ext)

-- The sum of `BlockSharing::bytes_saved`, in a word that wraps around.
saved : List ℕ → ℕ
saved [] = 0
saved (c ∷ cs) = ((if ltb 1 c then (c - 1) * block_size else 0) + saved cs) % u64_mod

-- `BlockSharing::bytes_saved`
pub bytes_saved : BlockSharing → ℕ
bytes_saved s = saved s.table.counters
