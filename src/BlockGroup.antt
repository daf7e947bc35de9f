-- ===== src/BlockGroup.antt =====
-- corefs-core/src/storage/ondisk/block_group.rs: the table of the groups that the data region is
-- split into, without its on-disk form.
pub mod Lookup
pub mod Disjoint
pub mod Table
pub mod Codec
use corefs.Common.{
  ℕ, zero, suc, ◌+◌, ◌-◌, ◌/◌, Bool, true, false, Option, none, some, List, [], ◌∷◌, ltb, leb, ◌&&◌,
  if◌then◌else◌, CoreFsResult, ok, err, invalid_input, length,
}
use corefs.Common.Word.{add64}
use corefs.Layout.{block_size}

pub record BlockGroupDescriptor : Type 0 where
  pub data_start : ℕ
  pub data_blocks : ℕ
  pub bitmap_block : ℕ
  pub inode_range_start : ℕ
  pub inode_range_count : ℕ
  pub free_blocks : ℕ
  pub bitmap_crc : ℕ

pub record BlockGroupTable : Type 0 where
  pub groups : List BlockGroupDescriptor

abbrev pub descriptor_bytes : ℕ
descriptor_bytes = 48

abbrev pub max_groups_per_table : ℕ
max_groups_per_table = (block_size - 20) / descriptor_bytes

-- `sorted.sort_by_key(|g| g.data_start)`: a stable sort, as insertion from the right.
unfoldable pub insert_group :
    BlockGroupDescriptor → List BlockGroupDescriptor → List BlockGroupDescriptor
insert_group g [] = g ∷ []
insert_group g (h ∷ hs) =
    let later = insert_group g hs in if leb g.data_start h.data_start then g ∷ h ∷ hs else h ∷ later

unfoldable pub sort_groups : List BlockGroupDescriptor → List BlockGroupDescriptor
sort_groups [] = []
sort_groups (g ∷ gs) = insert_group g (sort_groups gs)

-- The loop over `sorted.windows(2)`: whether every group ends before the next one starts
unfoldable pub windows_apart : List BlockGroupDescriptor → Bool
windows_apart [] = true
windows_apart (g ∷ []) = true
windows_apart (g ∷ h ∷ hs) =
    let rest = windows_apart (h ∷ hs) in
    if ltb h.data_start (add64 g.data_start g.data_blocks) then false else rest

-- `BlockGroupTable::new`
unfoldable pub new : List BlockGroupDescriptor → CoreFsResult BlockGroupTable
new groups =
    if ltb max_groups_per_table (length groups)
    then err invalid_input
    else if windows_apart (sort_groups groups)
    then ok (record { groups = groups })
    else err invalid_input

-- `block >= start && block < start + count`
unfoldable pub in_range : ℕ → ℕ → ℕ → Bool
in_range start count block = leb start block && ltb block (add64 start count)

-- `self.groups.iter().position(..)`: the index of the first group that passes, counted from `i`
unfoldable pub position_from :
    (BlockGroupDescriptor → Bool) → ℕ → List BlockGroupDescriptor → Option ℕ
position_from test i [] = none
position_from test i (g ∷ gs) =
    let later = position_from test (i + 1) gs in if test g then some i else later

-- `BlockGroupTable::group_for_inode`
unfoldable pub group_for_inode : BlockGroupTable → ℕ → Option ℕ
group_for_inode t slot =
    position_from (λ g. in_range g.inode_range_start g.inode_range_count slot) 0 t.groups

-- `BlockGroupTable::group_for_block`
unfoldable pub group_for_block : BlockGroupTable → ℕ → Option ℕ
group_for_block t block = position_from (λ g. in_range g.data_start g.data_blocks block) 0 t.groups
