-- ===== src/MultiGroup.antt =====
-- corefs-core/src/storage/ondisk/multi_group_allocator.rs: an allocator with a bitmap per group.
pub mod InGroup
pub mod Try
pub mod Near
pub mod Refreshed
use corefs.Common.{
  ℕ, zero, suc, ◌+◌, ◌-◌, ◌%◌, Bool, true, false, not, Option, none, some, List, [], ◌∷◌, ltb, leb,
  ◌==◌, ◌&&◌, if◌then◌else◌, CoreFsResult, ok, err, invalid_input, state, Method, length, get_elem?,
  set,
}
use corefs.Common.Word.{add64, sub64, as_u32}
use corefs.Checksum.{hash}
use corefs.Extent.{Extent, block_of}
use corefs.Bitmap.{Bitmap, is_set, set_bit, clear_bit, allocate_first, popcount}
use corefs.BlockGroup.{BlockGroupDescriptor, BlockGroupTable, group_for_inode, group_for_block}

pub record MultiGroupAllocator : Type 0 where
  pub group_bitmaps : List Bitmap
  pub inode_bitmap : Bitmap
  pub table : BlockGroupTable
  pub inode_hint : ℕ
  pub reserved_inode_floor : ℕ

-- The loop of `new`: whether each bitmap is wide enough for its group
unfoldable pub wide_enough : List BlockGroupDescriptor → List Bitmap → Bool
wide_enough [] bs = true
wide_enough (g ∷ gs) [] = true
wide_enough (g ∷ gs) (b ∷ bs) =
    let rest = wide_enough gs bs in if ltb b.capacity g.data_blocks then false else rest

-- `MultiGroupAllocator::new`
unfoldable pub new : BlockGroupTable → List Bitmap → Bitmap → ℕ → CoreFsResult MultiGroupAllocator
new table bitmaps inodes floor =
    if not (length table.groups == length bitmaps)
    then err invalid_input
    else if wide_enough table.groups bitmaps
    then ok (record {
      group_bitmaps = bitmaps;
      inode_bitmap = inodes;
      table = table;
      inode_hint = floor;
      reserved_inode_floor = floor;
    })
    else err invalid_input

-- `bm.is_set(i).unwrap_or(true)`
unfoldable pub in_use : Bitmap → ℕ → Bool
in_use bm i = elim (is_set bm i) [ ok b ↦ b | err _ ↦ true ]

-- The first loop over `0..count` of `try_allocate_in_group`: the offset, from `i` on, of the first
-- unit in use
unfoldable pub first_used : Bitmap → ℕ → ℕ → ℕ → Option ℕ
first_used bm start zero i = none
first_used bm start (suc n) i =
    let later = first_used bm start n (i + 1) in if in_use bm (add64 start i) then some i else later

-- The outer loop: the first start from `start` on of `count` free units. Each round moves `start`
-- on, so as many rounds as there are blocks, and one, are enough.
unfoldable pub scan_group : Bitmap → ℕ → ℕ → ℕ → ℕ → Option ℕ
scan_group bm blocks count zero start = none
scan_group bm blocks count (suc fuel) start =
    if leb (add64 start count) blocks
    then elim (first_used bm start count 0) [
      | none ↦ some start
      | some i ↦ scan_group bm blocks count fuel (add64 (add64 start i) 1)
    ]
    else none

-- The second loop over `0..count`, which ignores what `set` returns
unfoldable pub mark_each : ℕ → ℕ → ℕ → Bitmap → Bitmap
mark_each start zero i bm = bm
mark_each start (suc n) i bm = mark_each start n (i + 1) (set_bit (add64 start i) bm).1

-- `try_allocate_in_group` on the descriptor and the bitmap of the group
unfoldable pub try_in : BlockGroupDescriptor → ℕ → Bitmap → Option Extent × Bitmap
try_in g count bm =
    if ltb bm.capacity g.data_blocks
    then (none, bm)
    else elim (scan_group bm g.data_blocks count (suc g.data_blocks) 0) [
      | none ↦ (none, bm)
      | some start ↦ (
        some (record {
          logical_block = 0;
          length_blocks = as_u32 count;
          physical_block = add64 g.data_start start;
        }),
        mark_each start count 0 bm,
      )
    ]

-- `try_allocate_in_group`. An index past the groups, which panics in the source, finds nothing.
unfoldable pub try_allocate_in_group :
    ℕ → ℕ → MultiGroupAllocator → Option Extent × MultiGroupAllocator
try_allocate_in_group group count a = elim (get_elem? a.table.groups group) [
  | none ↦ (none, a)
  | some g ↦ elim (get_elem? a.group_bitmaps group) [
    | none ↦ (none, a)
    | some bm ↦
        let (found, bm') = try_in g count bm in
        (found, record a { group_bitmaps = set a.group_bitmaps group bm' })
  ]
]

-- The loop over the offsets of `allocate_near`, from `offset` on for `n` rounds
unfoldable pub near_loop : ℕ → ℕ → ℕ → ℕ → Method MultiGroupAllocator Extent
near_loop count home zero offset a = (err state, a)
near_loop count home (suc n) offset a =
    let (found, b) = try_allocate_in_group ((home + offset) % length a.group_bitmaps) count a in
    elim found [ some extent ↦ (ok extent, b) | none ↦ near_loop count home n (offset + 1) b ]

-- `self.table.group_for_inode(inode_slot).unwrap_or(0)`
unfoldable pub home_group : BlockGroupTable → ℕ → ℕ
home_group t slot = elim (group_for_inode t slot) [ some g ↦ g | none ↦ 0 ]

-- `MultiGroupAllocator::allocate_near`
unfoldable pub allocate_near : ℕ → ℕ → Method MultiGroupAllocator Extent
allocate_near count slot a =
    if count == 0
    then (err invalid_input, a)
    else near_loop count (home_group a.table slot) (length a.group_bitmaps) 0 a

-- The loop of `free_extent` on the bitmap of the group that starts at `data_start`
unfoldable pub clear_each : ℕ → Extent → ℕ → ℕ → Method Bitmap (Unit {0})
clear_each data_start ext zero i bm = (ok tt, bm)
clear_each data_start ext (suc n) i bm =
    let (r, bm') = clear_bit (sub64 (block_of ext i) data_start) bm in
    elim r [ err e ↦ (err e, bm') | ok _ ↦ clear_each data_start ext n (i + 1) bm' ]

-- `MultiGroupAllocator::free_extent`
unfoldable pub free_extent : Extent → Method MultiGroupAllocator (Unit {0})
free_extent ext a =
    if ext.length_blocks == 0
    then (ok tt, a)
    else elim (group_for_block a.table ext.physical_block) [
      | none ↦ (err invalid_input, a)
      | some group ↦ elim (get_elem? a.table.groups group) [
        | none ↦ (err invalid_input, a)
        | some g ↦ elim (get_elem? a.group_bitmaps group) [
          | none ↦ (err invalid_input, a)
          | some bm ↦
              let (r, bm') = clear_each g.data_start ext ext.length_blocks 0 bm in
              (r, record a { group_bitmaps = set a.group_bitmaps group bm' })
        ]
      ]
    ]

-- `MultiGroupAllocator::allocate_inode`
unfoldable pub allocate_inode : Method MultiGroupAllocator ℕ
allocate_inode a =
    let (found, bm) = allocate_first a.inode_hint a.inode_bitmap in
    elim found [
      | some idx ↦ (ok idx, record a { inode_bitmap = bm; inode_hint = add64 idx 1 })
      | none ↦ (err state, record a { inode_bitmap = bm })
    ]

-- `MultiGroupAllocator::total_free_data_blocks`, whose `zip` ends with the shorter list
unfoldable pub free_in_groups : List BlockGroupDescriptor → List Bitmap → ℕ
free_in_groups [] bs = 0
free_in_groups (g ∷ gs) [] = 0
free_in_groups (g ∷ gs) (b ∷ bs) = add64 (sub64 g.data_blocks (popcount b)) (free_in_groups gs bs)

unfoldable pub total_free_data_blocks : MultiGroupAllocator → ℕ
total_free_data_blocks a = free_in_groups a.table.groups a.group_bitmaps

-- `MultiGroupAllocator::free_data_blocks_in`
unfoldable pub free_data_blocks_in : MultiGroupAllocator → ℕ → CoreFsResult ℕ
free_data_blocks_in a group = elim (get_elem? a.table.groups group) [
  | none ↦ err invalid_input
  | some g ↦ elim (get_elem? a.group_bitmaps group) [
    | none ↦ err invalid_input
    | some bm ↦ ok (sub64 g.data_blocks (popcount bm))
  ]
]

-- The loop of `refresh_descriptors` over the groups and their bitmaps
unfoldable pub refresh_groups : List BlockGroupDescriptor → List Bitmap → List BlockGroupDescriptor
refresh_groups [] bs = []
refresh_groups (g ∷ gs) [] = g ∷ gs
refresh_groups (g ∷ gs) (b ∷ bs) =
    record g { free_blocks = as_u32 (sub64 g.data_blocks (popcount b)); bitmap_crc = hash b.bits }
    ∷ refresh_groups gs bs

-- `MultiGroupAllocator::refresh_descriptors`
unfoldable pub refresh_descriptors : MultiGroupAllocator → MultiGroupAllocator
refresh_descriptors a = record a {
  table = record { groups = refresh_groups a.table.groups a.group_bitmaps };
}
