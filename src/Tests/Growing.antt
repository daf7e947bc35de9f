-- ===== src/Tests/Growing.antt =====
-- Growing a volume.
use mathlib.Core.List.{append_assoc}
use mathlib.Core.Path.{subst}
use corefs.Common.{
  ℕ, ◌+◌, ◌/◌, ◌^◌, ◌≡◌, refl, sym, ap, ◌∙◌, false, List, ◌++◌, length, length-append, ok, err,
  invalid_input, state, replicate, length-replicate, get_or-replicate, bool_to_ℕ, arith,
}
use corefs.Bytes.{slice, slice-append, zeros, length-zeros}
use corefs.Bitmap
use corefs.Bitmap.{Bitmap, popcount}
use corefs.Bitmap.View.{bit_at, new-IsValid}
use corefs.Bitmap.Count.{popcount_lem}
use corefs.Checksum.{hash}
use corefs.Superblock.{Superblock, encode_block, check_fields, for_new_volume}
use corefs.Superblock.Codec.{FitsFields, length-encode_block}
use corefs.Device.{MemoryDevice, memory_device, memory}
use corefs.Device.Memory.{IsValid, memory-Laws, write_at_read_only}
use corefs.Device.Blocks.{block_at}
use corefs.Volume.Loaded.{read_sb_lem}
use corefs.Tests.Codecs.{small_superblock, small-FitsFields}
use corefs.Resize.{grown_superblock, grown, grow_bitmap, check_growth, grow_device}
use corefs.Resize.Grow.{Region, wrapped}
use corefs.Resize.FreeCount.{grow_bitmap-free_blocks}
use corefs.Resize.Outcome.{Holds, bitmap_of, Outcome, grow_device-Outcome}

abbrev blank : List ℕ
blank = replicate 4096 0

-- A volume of three blocks, none in use, with one bitmap block
abbrev tiny : Superblock
tiny = record small_superblock {
  total_blocks = 3;
  free_blocks = 3;
  block_bitmap_start = 2;
  block_bitmap_blocks = 1;
  secondary_superblock_block = 2;
  tertiary_superblock_block = 1;
}

blank-Region : Region 1 blank
blank-Region = record {
  sized = length-replicate {A = ℕ} 4096 0;
  small = omega arith;
  bounded = λ i. omega (arith, get_or-replicate {A = ℕ} 4096 i 0);
}

-- A volume of six blocks, with its bitmap in block 2
abbrev six : Superblock
six = record small_superblock {
  total_blocks = 6;
  free_blocks = 3;
  block_bitmap_start = 2;
  block_bitmap_blocks = 1;
  secondary_superblock_block = 5;
  tertiary_superblock_block = 3;
}

six-FitsFields : FitsFields six
six-FitsFields = record {
  magic = small-FitsFields.magic;
  version_major = small-FitsFields.version_major;
  version_minor = small-FitsFields.version_minor;
  block_size = small-FitsFields.block_size;
  total_blocks = omega arith;
  free_blocks = omega arith;
  total_inodes = small-FitsFields.total_inodes;
  free_inodes = small-FitsFields.free_inodes;
  block_bitmap_start = omega arith;
  block_bitmap_blocks = omega arith;
  inode_bitmap_start = small-FitsFields.inode_bitmap_start;
  inode_bitmap_blocks = small-FitsFields.inode_bitmap_blocks;
  inode_table_start = small-FitsFields.inode_table_start;
  inode_table_blocks = small-FitsFields.inode_table_blocks;
  journal_start = small-FitsFields.journal_start;
  journal_blocks = small-FitsFields.journal_blocks;
  data_start = small-FitsFields.data_start;
  secondary_superblock_block = omega arith;
  tertiary_superblock_block = omega arith;
  feature_compat = small-FitsFields.feature_compat;
  feature_incompat = small-FitsFields.feature_incompat;
  feature_ro_compat = small-FitsFields.feature_ro_compat;
  uuid = small-FitsFields.uuid;
  label = small-FitsFields.label;
  created_at = small-FitsFields.created_at;
  last_mount_at = small-FitsFields.last_mount_at;
  last_write_at = small-FitsFields.last_write_at;
  mount_count = small-FitsFields.mount_count;
  generation = small-FitsFields.generation;
  state = small-FitsFields.state;
  payload_inode = small-FitsFields.payload_inode;
  block_bitmap_crc = small-FitsFields.block_bitmap_crc;
  inode_bitmap_crc = small-FitsFields.inode_bitmap_crc;
  layout_mode = small-FitsFields.layout_mode;
  root_inode = small-FitsFields.root_inode;
}

six_checked : check_fields six ≡ ok six
unfolding check_fields for_new_volume
six_checked = refl

-- It lies on a device of eight blocks.
front : List ℕ
front = zeros 4096 ++ encode_block six

contents : List ℕ
contents = front ++ (blank ++ zeros 20480)

abbrev eight : MemoryDevice
eight = memory_device contents 32768 512

length-front : length front ≡ 8192
unfolding front
length-front = omega (
  arith,
  length-append (zeros 4096) (encode_block six),
  length-zeros 4096,
  length-encode_block six six-FitsFields,
)

length-contents : length contents ≡ 32768
unfolding contents
length-contents = omega (
  arith,
  length-front,
  length-append front (blank ++ zeros 20480),
  length-append blank (zeros 20480),
  length-replicate {A = ℕ} 4096 0,
  length-zeros 20480,
)

superblock_in_place : slice 4096 4096 contents ≡ encode_block six
unfolding contents front
superblock_in_place =
    ap (slice 4096 4096) (append_assoc (zeros 4096) (encode_block six) (blank ++ zeros 20480))
    ∙ slice-append 4096 4096 (zeros 4096) (encode_block six) (blank ++ zeros 20480)
        (sym (length-zeros 4096)) (sym (length-encode_block six six-FitsFields))

bitmap_in_place : slice 8192 4096 contents ≡ blank
unfolding contents
bitmap_in_place =
    slice-append 8192 4096 front blank (zeros 20480) (sym length-front)
      (sym (length-replicate {A = ℕ} 4096 0))

eight-IsValid : IsValid eight
unfolding memory_device
eight-IsValid = record {
  sized = length-contents;
  in_word = omega arith;
  sector = omega arith;
  whole = refl;
}

eight-Holds : Holds memory IsValid (λ d. d.bytes) memory-Laws six eight
unfolding memory_device bitmap_of block_at
eight-Holds = record {
  valid = eight-IsValid;
  whole = refl;
  found =
      read_sb_lem memory IsValid (λ d. d.bytes) memory-Laws eight six
        (record { valid = eight-IsValid; writable = refl; whole = refl }) (omega arith)
        six-FitsFields six_checked superblock_in_place;
  fields = six-FitsFields;
  accepted = six_checked;
  behind_first = omega arith;
  before_middle = omega arith;
  bitmap = subst (Region 1) (sym bitmap_in_place) blank-Region;
}

-- The volume grows by two blocks.
grow_device-Outcome_example :
    Outcome memory IsValid (λ d. d.bytes) memory-Laws six 8 eight (grow_device memory 8 eight)
grow_device-Outcome_example =
    grow_device-Outcome memory IsValid (λ d. d.bytes) memory-Laws six 8 eight eight-Holds
      (write_at_read_only eight)

-- It does not shrink, nor grow past its device or its bitmap.
check_growth_runs :
    (check_growth 32768 six 6 ≡ err invalid_input)
    × (check_growth 32768 six 9 ≡ err invalid_input)
    × (check_growth (2 ^ 30) six 32769 ≡ err state)
    × (check_growth 32768 six 8 ≡ ok tt)
unfolding check_growth
check_growth_runs = (refl, refl, refl, refl)

blank_clear : (j : ℕ) → bit_at (wrapped blank 3) j ≡ false
unfolding wrapped Bitmap.new
blank_clear j = (new-IsValid 3 (omega arith)).1 j

blank_unused : popcount (wrapped blank 3) ≡ 0
unfolding wrapped
blank_unused =
    ground (arith, popcount_lem (wrapped blank 3), blank_clear 0, blank_clear 1, blank_clear 2)

grow_bitmap-free_blocks_example :
    (out : Bitmap) × (grow_bitmap tiny 5 blank ≡ ok (grown tiny 5 out))
    × ((grown_superblock tiny 5 (hash out.bits)).free_blocks
          + popcount out
          + bool_to_ℕ (bit_at (wrapped blank 3) (5 / 2))
        ≡ 5 + 2)
grow_bitmap-free_blocks_example =
    grow_bitmap-free_blocks tiny 5 blank blank-Region (omega arith) (omega arith) (omega arith)
      (omega (arith, blank_unused)) λ j h. blank_clear j
