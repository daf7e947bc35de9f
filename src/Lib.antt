-- ===== src/Lib.antt =====
-- A model of the storage core of CoreFS, a file system: the on-disk format (ODF) of the crate
-- corefs-core, whose volumes are arrays of 4 KiB blocks.
--
-- The parts, and the files that model them (source paths from the repository's root; the modules
-- lie in corefs-core/src/storage/ondisk unless another path is given):
--   Common        shared names, lists, words, counting, errors (corefs-core/src/error.rs)
--   Layout        layout.rs: where the regions of a volume lie
--   Bitmap        bitmap.rs: allocation bitmaps, down to the masks on one byte
--   Extent        the extent record of inode.rs
--   RefCount      refcount.rs: reference counters, copy-on-write sharing
--   Allocator     allocator.rs: first fit, best fit, extents and inode slots
--   Volume        volume.rs: the blocks that a fresh volume reserves, the copies of the superblock,
--                 the inode records (InodeRecords), saving and loading the state (State), and
--                 formatting (Format)
--   InodeAllocator  corefs-core/src/storage/allocator.rs: inode numbers in memory
--   Quota         corefs-core/src/services/quota.rs: limits on files and bytes
--   BlockGroup    block_group.rs: the data region in groups
--   MultiGroup    multi_group_allocator.rs: an allocator with a bitmap per group
--   Resize        resize.rs: growing a volume
--   Bits          exclusive or, digit by digit
--   Bytes         little-endian numbers, slices of bytes, readers
--   Checksum      checksum.rs: CRC32C
--   Sealed        blocks that hold their own checksum
--   Superblock    superblock.rs: the superblock and its codec
--   Device        corefs-core/src/storage/block_device.rs: the trait, and the device in memory
--   Journal       journal.rs: the header, records, transactions and the replay
--   Inode         inode.rs: the inode record and its codec
--   ExtentTree    extent_tree.rs: index blocks, and chains of them on a device
--   AttrBlock     attr_block.rs: attribute blocks
--   DirEntry      dir_entry.rs: directory entries, their blocks, and packing them
--   Fault         fault_injection.rs: a device that injects faults
--   Tests         runs of the models, and the theorems at concrete inputs
--
-- A layout is planned from the size of the device. A fresh volume marks its reserved blocks in the
-- block bitmap, and the allocators take runs of blocks from bitmaps of that kind. The reference
-- counters say which blocks two inodes share. The superblock keeps the geometry of the layout, and
-- the journal stands in the region that the layout gives it: transactions are appended there with
-- their checksums, and a mount replays the committed ones to the blocks and inodes that they name.
-- `format_device` writes all regions of an empty volume, `save_state` puts the state of the program
-- into the data region under a superblock of the next generation, and `load_state` reads it back.
--
-- Correspondence. A struct is a record with the fields of the source, and an enum a data type with
-- its constructors. A method on `&mut self` that may fail is a `Method`: it takes the state and
-- returns the result beside the state that it leaves, on an error too. The text of an error is not
-- modelled. Numbers are natural numbers; `add64`, `sub64`, `mul64` and `as_u32` of Common.Word
-- wrap around, as a release build does, and stand wherever the source's operation can wrap.
-- Bytes are numbers below 256. An index past the end of a slice, which panics in the source, reads
-- a default: the invariants (`IsValid`) rule it out.
--
-- Loops. A counted loop recurs on the rounds that are left. A loop that scans a bitmap or a volume
-- recurs on fuel: `capacity` rounds and one in `allocate_first`, `total_blocks` rounds and one in
-- the scans of the allocator, `data_blocks` rounds and one in those of a group. Each round moves on
-- by one unit at least, so this is enough where no sum wraps around, and the theorems about these
-- functions say what they return with that fuel. `replay` recurs on the bytes between head and
-- tail, of which every record takes some. `zero_fill_region` has a round of fuel for each block, and
-- a round writes at least one. The walks along a chain of index blocks take their fuel as
-- an argument and return `none` without it: a chain of `n` blocks takes `n + 1` rounds.
--
-- Blocks with a checksum of their own (Sealed) have their two first tests in common, as
-- `decode_sealed` of Sealed.Decode, and their fields are read one after another by a `Reader`.
--
-- The device. The journal, the chains of index blocks, the inode records and the volume as a whole
-- work on any `BlockDevice`; what their theorems ask of one is the record `Laws` of Device.Lawful, and
-- Device.Memory shows that the device in memory keeps it. What a trim leaves in the bytes is open. The
-- time stamps of the superblock, signed in the source, are their 64 bits, and the time itself is an
-- argument.
--
-- The state that a volume saves, and its bytes by the bincode crate, are parameters of Volume.State:
-- its theorems ask that the crate reads back what it wrote.
--
-- Not modelled: extended attributes, `inspect` of volume.rs, the volumes above the journal, check and
-- repair, devices on files, the application above the storage core, the FUSE and Windows adapters, and the vendored
-- libraries.
pub mod Common
pub mod Layout
pub mod Bitmap
pub mod Extent
pub mod RefCount
pub mod Allocator
pub mod Volume
pub mod InodeAllocator
pub mod Quota
pub mod BlockGroup
pub mod MultiGroup
pub mod Resize
pub mod Bits
pub mod Bytes
pub mod Checksum
pub mod Sealed
pub mod Superblock
pub mod Device
pub mod Journal
mod Tests
pub mod ExtentTree
pub mod Inode
pub mod AttrBlock
pub mod DirEntry
pub mod Fault
