-- ===== src/Tests/Slots.antt =====
-- Inode slots at concrete inputs.
use corefs.Common.{arith}
use corefs.Bitmap
use corefs.Bitmap.View.{new-IsValid}
use corefs.Allocator.{OndiskAllocator, best_fit, allocate_inode, free_inode}
use corefs.Allocator.Inodes.{
  HintIsLow, SlotTaken, SlotFreed, allocate_inode-SlotTaken, free_inode-SlotFreed,
}

-- Sixteen free slots above a floor of one
abbrev slots : OndiskAllocator
slots = record {
  block_bitmap = Bitmap.new 100;
  inode_bitmap = Bitmap.new 16;
  data_start = 10;
  total_blocks = 100;
  strategy = best_fit;
  block_hint = 10;
  inode_hint = 1;
  reserved_inode_floor = 1;
}

slots-HintIsLow : HintIsLow slots
slots-HintIsLow = record {
  valid = (new-IsValid 16 (omega arith)).0;
  above_floor = omega arith;
  taken = λ j p q. absurd (omega arith);
}

allocate_inode-SlotTaken_example : SlotTaken slots (allocate_inode slots)
allocate_inode-SlotTaken_example = allocate_inode-SlotTaken slots slots-HintIsLow

free_inode-SlotFreed_example : SlotFreed slots 5 (free_inode 5 slots)
free_inode-SlotFreed_example = free_inode-SlotFreed 5 slots slots-HintIsLow
