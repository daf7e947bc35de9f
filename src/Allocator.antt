-- ===== src/Allocator.antt =====
-- corefs-core/src/storage/ondisk/allocator.rs: blocks and inode slots from a pair of bitmaps.
pub mod Runs
pub mod FirstFit
pub mod BestFit
pub mod Gaps
pub mod Contiguous
pub mod Free
pub mod Inodes
use corefs.Common.{
  ℕ, zero, suc, ◌+◌, ◌-◌, ◌^◌, min, max, Bool, true, false, not, Option, none, some, List, [], ◌∷◌,
  ◌++◌, ltb, leb, ◌==◌, ◌&&◌, ◌||◌, if◌then◌else◌, CoreFsResult, ok, err, invalid_input,
  policy_violation, state, Method, ◌>>=◌, ◌>>◌, pure, throw,
}
use corefs.Common.Word.{add64, sub64, as_u32}
use corefs.Layout.{LayoutGeometry}
use corefs.Extent.{Extent, block_of}
use corefs.Bitmap
use corefs.Bitmap.{Bitmap, is_set, set_bit, clear_bit, set_run, allocate_first, popcount}

pub data AllocationStrategy : Type 0 where
  first_fit best_fit : AllocationStrategy

pub record OndiskAllocator : Type 0 where
  pub block_bitmap : Bitmap
  pub inode_bitmap : Bitmap
  pub data_start : ℕ
  pub total_blocks : ℕ
  pub strategy : AllocationStrategy
  pub block_hint : ℕ
  pub inode_hint : ℕ
  pub reserved_inode_floor : ℕ

-- `OndiskAllocator::new`
unfoldable pub new : LayoutGeometry → Bitmap → Bitmap → AllocationStrategy → ℕ → OndiskAllocator
new g blocks inodes strategy floor = record {
  block_bitmap = blocks;
  inode_bitmap = inodes;
  data_start = g.data_start;
  total_blocks = g.total_blocks;
  strategy = strategy;
  block_hint = g.data_start;
  inode_hint = floor;
  reserved_inode_floor = floor;
}

-- `self.block_bitmap.is_set(i).unwrap_or(true)`
pub in_use : OndiskAllocator → ℕ → Bool
in_use a i = elim (is_set a.block_bitmap i) [ ok b ↦ b | err _ ↦ true ]

-- The loop of `free_run_starting_at`; it ends at `total_blocks`, so that many rounds are enough.
free_run_loop : OndiskAllocator → ℕ → ℕ → ℕ → ℕ → ℕ
free_run_loop a cap zero i len = len
free_run_loop a cap (suc fuel) i len =
    let longer = free_run_loop a cap fuel (i + 1) (len + 1) in
    if ltb i a.total_blocks && ltb len cap then (if in_use a i then len else longer) else len

-- `OndiskAllocator::free_run_starting_at`
pub free_run_starting_at : OndiskAllocator → ℕ → ℕ → ℕ
free_run_starting_at a start cap = free_run_loop a cap a.total_blocks start 0

-- One of the two loops of `find_first_fit`: the first start from `start` on whose run is long
-- enough. Each round moves `start` on, so `total_blocks` rounds and one are enough.
scan_from : OndiskAllocator → ℕ → ℕ → ℕ → Option ℕ
scan_from a count zero start = none
scan_from a count (suc fuel) start =
    let run = free_run_starting_at a start count in
    let later = scan_from a count fuel (add64 start (run + 1)) in
    if leb (add64 start count) a.total_blocks
    then (if leb count run then some start else later)
    else none

-- `OndiskAllocator::find_first_fit`
pub find_first_fit : OndiskAllocator → ℕ → CoreFsResult ℕ
find_first_fit a count =
    elim (scan_from a count (suc a.total_blocks) (max a.block_hint a.data_start)) [
      | some start ↦ ok start
      | none ↦ elim (scan_from a count (suc a.total_blocks) a.data_start) [
        | some start ↦ ok start
        | none ↦ err state
      ]
    ]

-- `u64::MAX`
abbrev pub u64_max : ℕ
u64_max = 2 ^ 64 - 1

-- `cursor += if run == 0 { 1 } else { run + 1 }`
abbrev past_run : ℕ → ℕ → ℕ
past_run cursor run = add64 cursor (if run == 0 then 1 else run + 1)

-- The loop of `find_best_fit`, with `best_start` and `best_len` as its last two arguments.
best_loop : OndiskAllocator → ℕ → ℕ → ℕ → Option ℕ → ℕ → Option ℕ
best_loop a count zero cursor best best_len = best
best_loop a count (suc fuel) cursor best best_len =
    let run = free_run_starting_at a cursor u64_max in
    let keep = best_loop a count fuel (past_run cursor run) best best_len in
    let better = best_loop a count fuel (past_run cursor run) (some cursor) run in
    if ltb cursor a.total_blocks
    then (if leb count run && ltb run best_len
        then (if run == count then some cursor else better)
        else keep)
    else best

-- `OndiskAllocator::find_best_fit`
pub find_best_fit : OndiskAllocator → ℕ → CoreFsResult ℕ
find_best_fit a count = elim (best_loop a count (suc a.total_blocks) a.data_start none u64_max) [
  | some start ↦ ok start
  | none ↦ err state
]

-- The loop of `largest_free_run_from`
largest_loop : OndiskAllocator → ℕ → ℕ → ℕ → ℕ
largest_loop a zero cursor best = best
largest_loop a (suc fuel) cursor best =
    let run = free_run_starting_at a cursor u64_max in
    let rest = largest_loop a fuel (past_run cursor run) (max best run) in
    if ltb cursor a.total_blocks then rest else best

-- `OndiskAllocator::largest_free_run_from`
pub largest_free_run_from : OndiskAllocator → ℕ → ℕ
largest_free_run_from a start = largest_loop a (suc a.total_blocks) start 0

-- A method of the block bitmap, run on that of the allocator.
abbrev pub on_blocks {ℓ} : {A : Type ℓ} → Method Bitmap A → Method OndiskAllocator A
on_blocks m a = let (r, bm) = m a.block_bitmap in (r, record a { block_bitmap = bm })

-- A method of the inode bitmap.
abbrev pub on_inodes {ℓ} : {A : Type ℓ} → Method Bitmap A → Method OndiskAllocator A
on_inodes m a = let (r, bm) = m a.inode_bitmap in (r, record a { inode_bitmap = bm })

-- The start that the strategy chooses.
chosen_start : OndiskAllocator → ℕ → CoreFsResult ℕ
chosen_start a count = elim a.strategy [
  | first_fit ↦ find_first_fit a count
  | best_fit ↦ find_best_fit a count
]

-- `self.block_hint = hint`
abbrev pub set_block_hint : ℕ → Method OndiskAllocator (Unit {0})
set_block_hint hint a = (ok tt, record a { block_hint = hint })

-- `OndiskAllocator::allocate_contiguous`
pub allocate_contiguous : ℕ → Method OndiskAllocator Extent
allocate_contiguous count a =
    if count == 0 then (err invalid_input, a) else elim (chosen_start a count) [
      | err e ↦ (err e, a)
      | ok start ↦
          (do
            on_blocks (set_run start count 0)
            set_block_hint (add64 start count)
            pure (record {
              logical_block = 0;
              length_blocks = as_u32 count;
              physical_block = start;
            }))
            a
    ]

-- The loop of `free_extent`, from the `i`-th block on for `n` rounds.
free_from : Extent → ℕ → ℕ → Method OndiskAllocator (Unit {0})
free_from ext zero i a = (ok tt, a)
free_from ext (suc n) i a =
    let block = block_of ext i in
    if ltb block a.data_start || leb a.total_blocks block
    then (err invalid_input, a)
    else (do _ ← on_blocks (clear_bit block); free_from ext n (i + 1)) a

-- `OndiskAllocator::free_extent`
pub free_extent : Extent → Method OndiskAllocator (Unit {0})
free_extent ext = free_from ext ext.length_blocks 0 >> λ a. (
  ok tt,
  if ltb ext.physical_block a.block_hint then record a { block_hint = ext.physical_block } else a,
)

-- `OndiskAllocator::allocate_inode`
pub allocate_inode : Method OndiskAllocator ℕ
allocate_inode a =
    let (found, bm) = allocate_first a.inode_hint a.inode_bitmap in
    elim found [
      | some idx ↦ (ok idx, record a { inode_bitmap = bm; inode_hint = idx + 1 })
      | none ↦ (err state, record a { inode_bitmap = bm })
    ]

-- `OndiskAllocator::reserve_inode`
pub reserve_inode : ℕ → Method OndiskAllocator (Unit {0})
reserve_inode index = do _ ← on_inodes (set_bit index); pure tt

-- `OndiskAllocator::free_inode`
pub free_inode : ℕ → Method OndiskAllocator (Unit {0})
free_inode index a =
    if ltb index a.reserved_inode_floor
    then (err policy_violation, a)
    else (on_inodes (clear_bit index) >>= λ _ b.
          (ok tt, if ltb index b.inode_hint then record b { inode_hint = index } else b))
        a

-- `OndiskAllocator::mark_used`
pub mark_used : ℕ → Method OndiskAllocator (Unit {0})
mark_used block a =
    if ltb block a.data_start || leb a.total_blocks block
    then (ok tt, a)
    else (do _ ← on_blocks (set_bit block); pure tt) a

-- `OndiskAllocator::free_data_blocks`
pub free_data_blocks : OndiskAllocator → ℕ
free_data_blocks a = sub64 a.total_blocks a.data_start - (popcount a.block_bitmap - a.data_start)

-- `OndiskAllocator::free_inode_slots`
pub free_inode_slots : OndiskAllocator → ℕ
free_inode_slots a = a.inode_bitmap.capacity - popcount a.inode_bitmap

-- The rollback of `allocate_any`: `for ext in &extents { self.free_extent(*ext)?; }`
free_all : List Extent → Method OndiskAllocator (Unit {0})
free_all [] = pure tt
free_all (ext ∷ exts) = free_extent ext >> free_all exts

-- The loop of `allocate_any`. Every round takes a block at least, so `remaining` rounds and one are enough.
any_loop : ℕ → ℕ → List Extent → Method OndiskAllocator (List Extent)
any_loop zero remaining extents a = (ok extents, a)
any_loop (suc fuel) remaining extents a =
    let take = min (largest_free_run_from a a.data_start) remaining in
    let next =
      (do ext ← allocate_contiguous take; any_loop fuel (remaining - take) (extents ++ ext ∷ []))
        a in
    if remaining == 0
    then (ok extents, a)
    else if take == 0
    then (do free_all extents; throw state) a
    else next

-- `OndiskAllocator::allocate_any`
pub allocate_any : ℕ → Method OndiskAllocator (List Extent)
allocate_any count = any_loop (suc count) count []
