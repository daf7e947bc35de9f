-- ===== src/Resize.antt =====
-- `grow_device` of corefs-core/src/storage/ondisk/resize.rs, over a block device. `grow_bitmap` is
-- its pure part, from the bytes of the bitmap to the writes and the report; `grow_device` performs
-- the reads, these writes in their order and the `sync`.
pub mod Grow
pub mod FreeCount
pub mod Placed
pub mod Outcome
use corefs.Common.{
  ℕ, ◌+◌, ◌-◌, ◌*◌, ◌/◌, ◌^◌, Bool, true, false, List, [], ◌∷◌, ltb, leb, if◌then◌else◌,
  CoreFsResult, ok, err, invalid_input, state, Method, ◌>>=◌, ◌>>◌, pure,
}
use corefs.Common.Word.{mul64, saturating_add64}
use corefs.Layout.{block_size, bits_per_bitmap_block, primary_superblock_block}
use corefs.Bitmap.{Bitmap, from_bytes, set_bit}
use corefs.Checksum.{hash}
use corefs.Device.{BlockDevice}
use corefs.Superblock.{Superblock, encode_block}
use corefs.Volume.Copies.{read_sb_with_fallbacks}

pub record GrowReport : Type 0 where
  pub old_total_blocks : ℕ
  pub new_total_blocks : ℕ
  pub added_blocks : ℕ

-- A `write_at`: at which offset, and what
pub record Write : Type 0 where
  pub offset : ℕ
  pub bytes : List ℕ

-- `bitmap.set(new_secondary)?; bitmap.set(new_tertiary)?;`
unfoldable pub pin_copies : ℕ → ℕ → Method Bitmap (Unit {0})
pin_copies new_secondary new_tertiary = do
  _ ← set_bit new_secondary
  _ ← set_bit new_tertiary
  pure tt

-- The updates of the superblock, with the checksum of the bitmap's bytes
unfoldable pub grown_superblock : Superblock → ℕ → ℕ → Superblock
grown_superblock sb n bitmap_crc = record sb {
  total_blocks = n;
  free_blocks = saturating_add64 sb.free_blocks (n - sb.total_blocks);
  secondary_superblock_block = n - 1;
  tertiary_superblock_block = n / 2;
  block_bitmap_crc = bitmap_crc;
}

-- The writes, and what is reported
unfoldable pub grown : Superblock → ℕ → Bitmap → List Write × GrowReport
grown sb n bitmap =
    let block = encode_block (grown_superblock sb n (hash bitmap.bits)) in
    (
      record { offset = mul64 sb.block_bitmap_start block_size; bytes = bitmap.bits }
          ∷ record { offset = primary_superblock_block * block_size; bytes = block }
          ∷ record { offset = mul64 (n / 2) block_size; bytes = block }
          ∷ record { offset = mul64 (n - 1) block_size; bytes = block }
          ∷ [],
      record {
        old_total_blocks = sb.total_blocks;
        new_total_blocks = n;
        added_blocks = n - sb.total_blocks;
      },
    )

-- The part of `grow_device` from the bitmap that was read on
unfoldable pub grow_bitmap : Superblock → ℕ → List ℕ → CoreFsResult (List Write × GrowReport)
grow_bitmap sb n bytes = elim (from_bytes bytes n) [
  | err e ↦ err e
  | ok bitmap ↦
      let (r, pinned) = pin_copies (n - 1) (n / 2) bitmap in
      elim r [ err e ↦ err e | ok _ ↦ ok (grown sb n pinned) ]
]

-- The tests of `grow_device`, for a capacity in bytes. Its subtractions do not wrap, behind the
-- first test.
unfoldable pub check_growth : ℕ → Superblock → ℕ → CoreFsResult (Unit {0})
check_growth capacity sb n =
    if leb n sb.total_blocks
    then err invalid_input
    else if leb (2 ^ 64) (n * block_size)
    then err invalid_input
    else if ltb capacity (n * block_size)
    then err invalid_input
    else if ltb (mul64 sb.block_bitmap_blocks bits_per_bitmap_block) n
    then err state
    else ok tt

module _ (dev : BlockDevice) where
  -- The `write_at` calls, each with its `?`
  unfoldable pub perform : List Write → Method dev.Device (Unit {0})
  perform [] = pure tt
  perform (w ∷ ws) = do dev.write_at w.offset w.bytes; perform ws

  -- The part of `grow_device` from the bitmap's bytes on
  unfoldable pub grow_from : Superblock → ℕ → List ℕ → Method dev.Device GrowReport
  grow_from sb n bytes = do
    plan ← λ d. (grow_bitmap sb n bytes, d)
    perform plan.0
    dev.sync
    pure plan.1

  -- `grow_device`
  unfoldable pub grow_device : ℕ → Method dev.Device GrowReport
  grow_device n = do
    sb ← λ d. (read_sb_with_fallbacks dev d, d)
    λ d. (check_growth (dev.geometry d).capacity_bytes sb n, d)
    bytes ← λ d. (
      dev.read_at (mul64 sb.block_bitmap_start block_size) (mul64 sb.block_bitmap_blocks block_size)
          d,
      d,
    )
    grow_from sb n bytes
