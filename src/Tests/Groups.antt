-- ===== src/Tests/Groups.antt =====
-- Runs of the block groups and of their allocator.
use mathlib.Core.Path.{subst}
use corefs.Common.{
  ℕ, zero, suc, ◌≤◌, ◌<◌, ◌≡◌, ◌↔◌, refl, ap, some, none, List, [], ◌∷◌, length, ok, err,
  invalid_input, arith,
}
use corefs.Bitmap
use corefs.Bitmap.{Bitmap}
use corefs.Bitmap.View.{new-IsValid}
use corefs.BlockGroup
use corefs.BlockGroup.{
  BlockGroupDescriptor, BlockGroupTable, insert_group, sort_groups, windows_apart, in_range,
  position_from, group_for_inode, group_for_block,
}
use corefs.BlockGroup.Disjoint.{owners, AllProper, new_iff}
use corefs.MultiGroup.{MultiGroupAllocator, allocate_near}
use corefs.MultiGroup.InGroup.{Fits}
use corefs.MultiGroup.Try.{GroupIs, Ready}
use corefs.MultiGroup.Near.{AllocatedNear, allocate_near-AllocatedNear}

abbrev group_at : ℕ → ℕ → BlockGroupDescriptor
group_at start slots = record {
  data_start = start;
  data_blocks = 100;
  bitmap_block = 3;
  inode_range_start = slots;
  inode_range_count = 16;
  free_blocks = 100;
  bitmap_crc = 0;
}

abbrev two_groups : List BlockGroupDescriptor
two_groups = group_at 200 0 ∷ group_at 100 16 ∷ []

-- Groups that overlap by a block are refused.
new_runs :
    (BlockGroup.new two_groups ≡ ok (record { groups = two_groups }))
    × (BlockGroup.new (group_at 200 0 ∷ group_at 101 16 ∷ []) ≡ err invalid_input)
unfolding BlockGroup.new sort_groups insert_group windows_apart
new_runs = (refl, refl)

new_iff_example :
    (BlockGroup.new two_groups ≡ ok (record { groups = two_groups }))
    ↔ ((length two_groups ≤ 84) × ((block : ℕ) → owners block two_groups ≤ 1))
unfolding AllProper
new_iff_example = new_iff two_groups (omega arith, omega arith, (omega arith, omega arith, tt))

abbrev table : BlockGroupTable
table = record { groups = two_groups }

lookup_runs :
    (group_for_inode table 20 ≡ some 1)
    × (group_for_block table 150 ≡ some 1)
    × (group_for_block table 300 ≡ none)
unfolding group_for_inode group_for_block position_from in_range
lookup_runs = (refl, refl, refl)

abbrev grouped : MultiGroupAllocator
grouped = record {
  group_bitmaps = Bitmap.new 100 ∷ Bitmap.new 100 ∷ [];
  inode_bitmap = Bitmap.new 32;
  table = table;
  inode_hint = 1;
  reserved_inode_floor = 1;
}

Fits-new : (start slots : ℕ) → start < 1000 → Fits (group_at start slots) 30 (Bitmap.new 100)
unfolding Bitmap.new
Fits-new start slots h = record {
  valid = (new-IsValid 100 (omega arith)).0;
  wide = omega arith;
  in_word = omega arith;
  request = omega arith;
}

Fits-same :
    {g d : BlockGroupDescriptor} {b bm : Bitmap}
    → Fits g 30 b
    → some g ≡ some d
    → some b ≡ some bm
    → Fits d 30 bm
Fits-same {g} {d} {b} {bm} f p q =
    subst (λ x. Fits x 30 bm) (ap (λ o. elim o [ some x ↦ x | none ↦ g ]) p)
      (subst (λ x. Fits g 30 x) (ap (λ o. elim o [ some x ↦ x | none ↦ b ]) q) f)

grouped-Ready : Ready grouped 30
grouped-Ready = record { paired = refl; fits = fits }
  where
    fits : (g : ℕ) (d : BlockGroupDescriptor) (bm : Bitmap) → GroupIs grouped g d bm → Fits d 30 bm
    fits zero d bm is = Fits-same (Fits-new 200 0 (omega arith)) is.descriptor is.bitmap
    fits (suc zero) d bm is = Fits-same (Fits-new 100 16 (omega arith)) is.descriptor is.bitmap
    fits (suc (suc g)) d bm is = absurd (ground (arith, is.bitmap))

allocate_near-AllocatedNear_example : AllocatedNear grouped 30 20 (allocate_near 30 20 grouped)
allocate_near-AllocatedNear_example =
    allocate_near-AllocatedNear grouped 30 20 grouped-Ready (omega arith)
