-- ===== src/Tests/Directories.antt =====
-- Directory blocks, attribute blocks, inode records, group tables and counters at concrete inputs.
use corefs.Common.{◌*◌, ◌≡◌, refl, List, [], ◌∷◌, length, ok, arith}
use corefs.Sealed.Decode.{Encoding}
use corefs.Bytes.Records.{All}
use corefs.Extent.{Extent}
use corefs.Extent.Bytes.{FitsExtent}
use corefs.Inode
use corefs.Inode.{OnDiskInode, unused_inode}
use corefs.Inode.Codec.{FitsInode}
use corefs.DirEntry.{DirEntry, file, directory, encoded_len, is_utf8, is_utf8_from, utf8_start}
use corefs.DirEntry.Entry.{FitsEntry}
use corefs.DirEntry.Blocks
use corefs.DirEntry.Blocks.{
  DirBlock, encoded_entries_bytes, entries_bytes_from, blocks_needed, blocks_needed_from, pack,
}
use corefs.DirEntry.Codec.{encode-Encoding_dir_block}
use corefs.DirEntry.Packed.{Packing, pack-Packing}
use corefs.BlockGroup.{BlockGroupDescriptor, BlockGroupTable, new}
use corefs.BlockGroup.Table
use corefs.BlockGroup.Codec.{decode-encode_table}
use corefs.RefCount.{RefCountTable, blocks_needed as counter_blocks}
use corefs.RefCount.Blocks as CounterBlocks
use corefs.RefCount.Codec.{decode-encode_counters}

abbrev some_extent : Extent
some_extent = record { logical_block = 0; length_blocks = 4; physical_block = 324 }

-- A file of four blocks
abbrev pub small_file : OnDiskInode
small_file = record unused_inode { kind = Inode.file; link_count = 1; extents = some_extent ∷ [] }

some_extent-FitsExtent : FitsExtent some_extent
some_extent-FitsExtent = record {
  logical_block = omega arith;
  length_blocks = omega arith;
  physical_block = omega arith;
}

pub small_file-FitsInode : FitsInode small_file
unfolding unused_inode
small_file-FitsInode = record {
  version = omega arith;
  mode = omega arith;
  uid = omega arith;
  gid = omega arith;
  link_count = omega arith;
  flags = omega arith;
  size_bytes = omega arith;
  blocks_allocated = omega arith;
  created_at = omega arith;
  modified_at = omega arith;
  changed_at = omega arith;
  accessed_at = omega arith;
  generation = omega arith;
  extents = (some_extent-FitsExtent, tt);
  index_block_addr = omega arith;
  xattr_block_addr = omega arith;
  domain_inode_id = omega arith;
  data_crc = omega arith;
}

-- "ab", and "é", which takes two bytes
abbrev one_file : DirEntry
one_file = record { inode = 7; kind = file; name = 97 ∷ 98 ∷ [] }

abbrev one_directory : DirEntry
one_directory = record { inode = 8; kind = directory; name = 195 ∷ 169 ∷ [] }

one_file-FitsEntry : FitsEntry one_file
unfolding is_utf8 is_utf8_from utf8_start
one_file-FitsEntry = record { inode = omega arith; short = omega arith; text = refl }

one_directory-FitsEntry : FitsEntry one_directory
unfolding is_utf8 is_utf8_from utf8_start
one_directory-FitsEntry = record { inode = omega arith; short = omega arith; text = refl }

abbrev two_entries : List DirEntry
two_entries = one_file ∷ one_directory ∷ []

abbrev one_block : DirBlock
one_block = record { next_dir_block = 0; entries = two_entries }

two_entries-FitsEntry : All FitsEntry two_entries
two_entries-FitsEntry = (one_file-FitsEntry, (one_directory-FitsEntry, tt))

encode-Encoding_dir_block_example :
    Encoding Blocks.decode one_block 4076 48 (Blocks.encode one_block)
unfolding encoded_entries_bytes entries_bytes_from encoded_len
encode-Encoding_dir_block_example =
    encode-Encoding_dir_block one_block
      (record { next_dir_block = omega arith; entries = two_entries-FitsEntry }) 48 refl

pack-Packing_example : Packing two_entries 400 (401 ∷ []) 1 (pack two_entries (400 ∷ 401 ∷ []))
unfolding blocks_needed blocks_needed_from encoded_len
pack-Packing_example = pack-Packing two_entries 400 (401 ∷ []) 1 two_entries-FitsEntry refl

abbrev first_group : BlockGroupDescriptor
first_group = record {
  data_start = 100;
  data_blocks = 50;
  bitmap_block = 10;
  inode_range_start = 0;
  inode_range_count = 16;
  free_blocks = 50;
  bitmap_crc = 0;
}

abbrev one_group : BlockGroupTable
one_group = record { groups = first_group ∷ [] }

decode-encode_table_example : Table.decode (Table.encode one_group) ≡ ok one_group
unfolding new corefs.BlockGroup.windows_apart corefs.BlockGroup.sort_groups
    corefs.BlockGroup.insert_group
decode-encode_table_example = decode-encode_table one_group (first_group ∷ []) refl (
  record {
    data_start = omega arith;
    data_blocks = omega arith;
    bitmap_block = omega arith;
    inode_range_start = omega arith;
    inode_range_count = omega arith;
    free_blocks = omega arith;
    bitmap_crc = omega arith;
  },
  tt,
)

abbrev three_counters : RefCountTable
three_counters = record { counters = 1 ∷ 0 ∷ 2 ∷ []; capacity = 3 }

decode-encode_counters_example :
    (length (CounterBlocks.encode three_counters) ≡ counter_blocks 3 * 4096)
    × (CounterBlocks.decode (CounterBlocks.encode three_counters) 3 ≡ ok three_counters)
decode-encode_counters_example =
    decode-encode_counters three_counters refl (omega arith, (omega arith, (omega arith, tt)))
