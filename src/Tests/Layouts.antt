-- ===== src/Tests/Layouts.antt =====
-- Runs of the layout and volume models.
use corefs.Common.{ℕ, ◌≡◌, refl, ok, err, invalid_input, arith}
use corefs.Layout.{LayoutGeometry, plan, with_defaults, inode_record_location}
use corefs.Layout.Plan.{
  IsOrdered, plan-IsOrdered, Located, inode_record_location-Located, Overlaps,
  plan-with_defaults_overlap,
}
use corefs.Bitmap
use corefs.Bitmap.{Bitmap}
use corefs.Bitmap.View.{IsValid, bit_at}
use corefs.Volume.{mark_reserved_blocks}
use corefs.Volume.Reserved.{is_reserved, mark_reserved_blocks_lem}

-- The layout of a 16 MiB volume with the default parameters.
abbrev pub default_geometry : LayoutGeometry
default_geometry = record {
  total_blocks = 4096;
  block_bitmap_start = 2;
  block_bitmap_blocks = 1;
  inode_bitmap_start = 3;
  inode_bitmap_blocks = 1;
  inode_table_start = 4;
  inode_table_blocks = 256;
  inode_count = 4096;
  journal_start = 260;
  journal_blocks = 64;
  data_start = 324;
  data_blocks = 3772;
  secondary_superblock_block = 4095;
  tertiary_superblock_block = 2048;
}

plan_default : plan (with_defaults 4096) ≡ ok default_geometry
unfolding plan with_defaults
plan_default = refl

plan_small : plan (with_defaults 32) ≡ err invalid_input
unfolding plan with_defaults
plan_small = refl

plan-IsOrdered_example : IsOrdered default_geometry
unfolding with_defaults
plan-IsOrdered_example = plan-IsOrdered (with_defaults 4096) (omega arith) plan_default

pub default-IsOrdered : IsOrdered default_geometry
default-IsOrdered = omega arith

inode_record_location-Located_example :
    Located default_geometry 17 (inode_record_location default_geometry 17)
inode_record_location-Located_example =
    inode_record_location-Located default_geometry 17 default-IsOrdered

plan-with_defaults_overlap_example :
    (g : LayoutGeometry) × (plan (with_defaults 512) ≡ ok g) × Overlaps g
plan-with_defaults_overlap_example = plan-with_defaults_overlap 512 (omega arith) (omega arith)

mark_reserved_blocks_lem_example :
    (out : Bitmap) × (mark_reserved_blocks default_geometry (Bitmap.new 4096) ≡ (ok tt, out))
    × IsValid out
    × ((j : ℕ) → bit_at out j ≡ is_reserved default_geometry j)
mark_reserved_blocks_lem_example = mark_reserved_blocks_lem default_geometry default-IsOrdered
