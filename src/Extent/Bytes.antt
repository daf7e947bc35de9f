-- ===== src/Extent/Bytes.antt =====
-- The 16 bytes of an extent, as inode records and index blocks hold them.
use mathlib.Core.List.{append_assoc}
use corefs.Common.{ℕ, ◌<◌, ◌≡◌, refl, List, ◌++◌, length, length-append}
use corefs.Bytes.{word, to_le, length-to_le}
use corefs.Bytes.Reader.{Reader, ◌>>=◌, pure, number, number-to_le}
use corefs.Extent.{Extent}

-- The three `copy_from_slice` of an extent
unfoldable pub write_extent : Extent → List ℕ
write_extent ext =
    to_le 8 ext.physical_block ++ (to_le 4 ext.logical_block ++ to_le 4 ext.length_blocks)

-- The three `from_le_bytes` of an extent
unfoldable pub read_extent : Reader Extent
read_extent = do
  physical_block ← number 8
  logical_block ← number 4
  length_blocks ← number 4
  pure (record {
    logical_block = logical_block;
    length_blocks = length_blocks;
    physical_block = physical_block;
  })

-- Every field fits in its place.
pub record FitsExtent (ext : Extent) : Type 0 where
  pub logical_block : ext.logical_block < word 4
  pub length_blocks : ext.length_blocks < word 4
  pub physical_block : ext.physical_block < word 8

pub length-write_extent : (ext : Extent) → length (write_extent ext) ≡ 16
unfolding write_extent
length-write_extent ext = simp (length-append, length-to_le) refl

pub read_extent-write_extent :
    (ext : Extent) (rest : List ℕ)
    → FitsExtent ext
    → read_extent (write_extent ext ++ rest) ≡ (ext, rest)
unfolding read_extent write_extent
read_extent-write_extent ext rest v =
    rw
      (append_assoc (to_le 8 ext.physical_block)
        (to_le 4 ext.logical_block ++ to_le 4 ext.length_blocks) rest)
      rw (append_assoc (to_le 4 ext.logical_block) (to_le 4 ext.length_blocks) rest) rw
      (number-to_le 8 ext.physical_block _ v.physical_block) rw
      (number-to_le 4 ext.logical_block _ v.logical_block) rw
      (number-to_le 4 ext.length_blocks _ v.length_blocks) refl
