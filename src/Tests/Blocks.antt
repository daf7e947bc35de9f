-- ===== src/Tests/Blocks.antt =====
-- Runs of the bitmap and allocator models.
use corefs.Common.{arith}
use corefs.Bitmap
use corefs.Bitmap.{Bitmap, set_bit, clear_bit, allocate_first}
use corefs.Bitmap.View
use corefs.Bitmap.View.{bit_at, SetBit, new-IsValid, set_bit_lem, clear_bit_lem}
use corefs.Bitmap.Search.{Found, allocate_first-Found}
use corefs.Allocator.{
  OndiskAllocator, first_fit, find_first_fit, find_best_fit, allocate_contiguous,
}
use corefs.Allocator.FirstFit.{FirstFit, find_first_fit-FirstFit}
use corefs.Allocator.BestFit.{BestFit, find_best_fit-BestFit}
use corefs.Allocator.Contiguous.{IsValid, Allocated, allocate_contiguous-Allocated}
use corefs.Allocator.Free.{GivesBack, free_extent-allocate_contiguous}

abbrev hundred : Bitmap
hundred = Bitmap.new 100

hundred-IsValid : View.IsValid hundred
hundred-IsValid = (new-IsValid 100 (omega arith)).0

allocate_first-Found_example : Found hundred 5 (allocate_first 5 hundred)
allocate_first-Found_example = allocate_first-Found 5 hundred hundred-IsValid

abbrev volume : OndiskAllocator
volume = record {
  block_bitmap = hundred;
  inode_bitmap = Bitmap.new 16;
  data_start = 10;
  total_blocks = 100;
  strategy = first_fit;
  block_hint = 20;
  inode_hint = 1;
  reserved_inode_floor = 1;
}

volume-IsValid : IsValid volume
unfolding Bitmap.new
volume-IsValid = record {
  blocks = hundred-IsValid;
  inodes = (new-IsValid 16 (omega arith)).0;
  wide = omega arith;
  start_inside = omega arith;
  hint_inside = omega arith;
}

find_first_fit-FirstFit_example : FirstFit volume 7 (find_first_fit volume 7)
find_first_fit-FirstFit_example =
    find_first_fit-FirstFit volume 7 (omega arith) (omega arith) (omega arith)

find_best_fit-BestFit_example : BestFit volume 7 (find_best_fit volume 7)
find_best_fit-BestFit_example = find_best_fit-BestFit volume 7 (omega arith)

allocate_contiguous-Allocated_example : Allocated volume 7 (allocate_contiguous 7 volume)
allocate_contiguous-Allocated_example =
    allocate_contiguous-Allocated volume 7 volume-IsValid (omega arith) (omega arith)

free_extent-allocate_contiguous_example : GivesBack volume (allocate_contiguous 7 volume)
free_extent-allocate_contiguous_example =
    free_extent-allocate_contiguous volume 7 volume-IsValid (omega arith) (omega arith)
