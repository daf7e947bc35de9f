-- ===== src/Tests/Chains.antt =====
-- Chains of index blocks and inode records on a device in memory.
use corefs.Common.{
  ℕ, zero, suc, ◌+◌, ◌*◌, ◌≤◌, ◌<◌, ◌≢◌, refl, true, false, List, [], ◌∷◌, replicate, Returns,
  get_or, length, arith,
}
use corefs.Bytes.{zeros, length-zeros}
use corefs.Bytes.Records.{All}
use corefs.Extent.{Extent}
use corefs.Extent.Bytes.{FitsExtent}
use corefs.Device.{MemoryDevice, memory}
use corefs.Device.Memory.{IsValid, memory-Laws}
use corefs.Device.Blocks.{Usable}
use corefs.ExtentTree.Chain.{index_blocks_needed, write_chain}
use corefs.ExtentTree.Written.{Reserved}
use corefs.ExtentTree.Roundtrip.{Stored, write_chain-read_chain}
use corefs.Volume.InodeRecords.{write_inode_record}
use corefs.Volume.InodeUpdate.{Updated, write_inode_record-Updated}
use corefs.Tests.Layouts.{default_geometry, default-IsOrdered}
use corefs.Tests.Directories.{small_file, small_file-FitsInode}

-- A volume of 16 MiB, all zero
abbrev pub blank : MemoryDevice
blank = record {
  bytes = zeros 16777216;
  geometry = record {
    sector_size = 512;
    sector_count = 32768;
    capacity_bytes = 16777216;
    read_only = false;
  };
  trim_supported = true;
  trimmed_ranges = [];
}

pub blank-Usable : Usable memory IsValid (λ d. d.bytes) memory-Laws blank
blank-Usable = record {
  valid = record {
    sized = length-zeros 16777216;
    in_word = omega arith;
    sector = omega arith;
    whole = refl;
  };
  writable = refl;
  whole = refl;
}

write_inode_record-Updated_example :
    Returns (write_inode_record memory default_geometry 17 small_file) blank λ _ d'.
      Updated memory IsValid
        (λ d. d.bytes)
        memory-Laws
        default_geometry
        default-IsOrdered
        17
        small_file
        blank
        d'
write_inode_record-Updated_example =
    write_inode_record-Updated memory IsValid (λ d. d.bytes) memory-Laws default_geometry
      default-IsOrdered blank 17 small_file blank-Usable (omega arith) (omega arith)
      small_file-FitsInode (omega arith)

abbrev one_block : Extent
one_block = record { logical_block = 0; length_blocks = 1; physical_block = 400 }

-- More than one index block holds
abbrev many_extents : List Extent
many_extents = replicate 300 one_block

replicate-FitsExtent : (n : ℕ) → All FitsExtent (replicate n one_block)
replicate-FitsExtent zero = tt
replicate-FitsExtent (suc n) = (
  record { logical_block = omega arith; length_blocks = omega arith; physical_block = omega arith },
  replicate-FitsExtent n,
)

abbrev reserve : List ℕ
reserve = 500 ∷ 600 ∷ 700 ∷ []

reserve-Reserved : Reserved blank.geometry reserve 2
reserve-Reserved = record { nonzero = nonzero; inside = inside; apart = apart }
  where
    nonzero : (i : ℕ) → i < 2 → get_or reserve i 0 ≢ 0
    nonzero zero h = omega arith
    nonzero (suc zero) h = omega arith
    nonzero (suc (suc i)) h = absurd (omega arith)

    inside : (i : ℕ) → i < 2 → get_or reserve i 0 * 4096 + 4096 ≤ 16777216
    inside zero h = omega arith
    inside (suc zero) h = omega arith
    inside (suc (suc i)) h = absurd (omega arith)

    apart : (i j : ℕ) → i < j → j < 2 → get_or reserve i 0 ≢ get_or reserve j 0
    apart zero (suc zero) h k = omega arith
    apart zero zero h k = absurd (omega arith)
    apart (suc i) (suc zero) h k = absurd (omega arith)
    apart (suc i) zero h k = absurd (omega arith)
    apart i (suc (suc j)) h k = absurd (omega arith)

write_chain-read_chain_example : Returns (write_chain memory many_extents reserve) blank λ used d'.
    Stored memory IsValid
      (λ d. d.bytes)
      memory-Laws
      many_extents
      reserve
      (index_blocks_needed (length many_extents))
      3
      used
      blank
      d'
unfolding index_blocks_needed
write_chain-read_chain_example =
    write_chain-read_chain memory IsValid (λ d. d.bytes) memory-Laws many_extents reserve blank 3
      blank-Usable (replicate-FitsExtent 300) (omega arith) (omega arith) reserve-Reserved
      (omega arith)
