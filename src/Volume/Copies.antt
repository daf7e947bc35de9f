-- ===== src/Volume/Copies.antt =====
-- The superblock is read from the first of its three copies that can be decoded.
use native.Mathlib.Nat.{dvd-mul_left_of_dvd, mod-eq-zero_of_dvd, dvd_of_mod-eq-zero, mod-eq_of_lt}
use corefs.Common.{
  ℕ, ◌+◌, ◌-◌, ◌*◌, ◌/◌, ◌%◌, ◌≤◌, ◌≡◌, refl, ap, ◌∙◌, false, ltb, List, if◌then◌else◌,
  CoreFsResult, ok, err, state, arith, and_then, and_then-ok,
}
use corefs.Common.Word.{mul64}
use corefs.Bytes.{slice}
use corefs.Layout.{block_size, primary_superblock_block}
use corefs.Device.{BlockDevice}
use corefs.Device.Lawful.{Laws}
use corefs.Superblock.{Superblock, decode_block}

module _ (dev : BlockDevice) where
  -- `read_superblock_at`
  unfoldable pub read_superblock_at : ℕ → dev.Device → CoreFsResult Superblock
  read_superblock_at block d =
      and_then (dev.read_at (mul64 block block_size) block_size d) decode_block

  -- `read_primary_superblock_with_fallbacks`
  unfoldable pub read_sb_with_fallbacks : dev.Device → CoreFsResult Superblock
  read_sb_with_fallbacks d = elim (read_superblock_at primary_superblock_block d) [
    | ok sb ↦ ok sb
    | err _ ↦
        let total_blocks = (dev.geometry d).capacity_bytes / block_size in
        if ltb total_blocks 2 then err state else elim (read_superblock_at (total_blocks / 2) d) [
          | ok sb ↦ ok sb
          | err _ ↦ elim (read_superblock_at (total_blocks - 1) d) [
            | ok sb ↦ ok sb
            | err _ ↦ err state
          ]
        ]
  ]

-- The first of three results that is one, or an error.
unfoldable pub first_of :
    CoreFsResult Superblock
    → CoreFsResult Superblock
    → CoreFsResult Superblock
    → CoreFsResult Superblock
first_of (ok sb) second third = ok sb
first_of (err _) (ok sb) third = ok sb
first_of (err _) (err _) (ok sb) = ok sb
first_of (err _) (err _) (err _) = err state

module _ (dev : BlockDevice) (IsValid : dev.Device → Type 0) (contents : dev.Device → List ℕ)
    (laws : Laws dev IsValid contents) where
  -- What a block of the device decodes to
  unfoldable pub copy_at : ℕ → dev.Device → CoreFsResult Superblock
  copy_at block d = decode_block (slice (block * 4096) 4096 (contents d))

  read_superblock_at_lem :
      (block : ℕ) (d : dev.Device)
      → IsValid d
      → 4096 % (dev.geometry d).sector_size ≡ 0
      → block * 4096 + 4096 ≤ (dev.geometry d).capacity_bytes
      → read_superblock_at dev block d ≡ copy_at block d
  unfolding read_superblock_at copy_at
  read_superblock_at_lem block d v whole h =
      let s = (dev.geometry d).sector_size in
      let place : mul64 block 4096 ≡ block * 4096 =
        mod-eq_of_lt (omega (arith, h, (laws.sized d v).1)) in
      and_then-ok (dev.read_at (mul64 block 4096) 4096 d) decode_block
        (ap (λ k. dev.read_at k 4096 d) place
          ∙ laws.read_lem (block * 4096) 4096 d v (record {
            aligned =
                mod-eq-zero_of_dvd s (dvd-mul_left_of_dvd s (dvd_of_mod-eq-zero s whole) block);
            whole = whole;
            inside = h;
          }))
        refl

  fallbacks :
      (d : dev.Device)
      → ltb ((dev.geometry d).capacity_bytes / 4096) 2 ≡ false
      → (a b c : CoreFsResult Superblock) → read_superblock_at dev 1 d ≡ a
      → read_superblock_at dev ((dev.geometry d).capacity_bytes / 4096 / 2) d ≡ b
      → read_superblock_at dev ((dev.geometry d).capacity_bytes / 4096 - 1) d ≡ c
      → read_sb_with_fallbacks dev d ≡ first_of a b c
  unfolding read_sb_with_fallbacks first_of
  fallbacks d two (ok sb) b c p e f = rw (p, read_sb_with_fallbacks) refl
  fallbacks d two (err _) (ok sb) c p e f = rw (p, read_sb_with_fallbacks) rw two rw e refl
  fallbacks d two (err _) (err _) (ok sb) p e f =
      rw (p, read_sb_with_fallbacks) rw two rw e rw f refl
  fallbacks d two (err _) (err _) (err _) p e f =
      rw (p, read_sb_with_fallbacks) rw two rw e rw f refl

  -- On a device of at least two blocks, blocks being whole sectors, `read_sb_with_fallbacks` returns
  -- the superblock of block 1, of the block in the middle or of the last block, the first of them
  -- that decodes, and fails only if none does.
  pub read_sb_with_fallbacks-first_of :
      (d : dev.Device)
      → IsValid d
      → 4096 % (dev.geometry d).sector_size ≡ 0
      → 8192 ≤ (dev.geometry d).capacity_bytes
      → read_sb_with_fallbacks dev d
        ≡ first_of
            (copy_at 1 d)
            (copy_at ((dev.geometry d).capacity_bytes / 4096 / 2) d)
            (copy_at ((dev.geometry d).capacity_bytes / 4096 - 1) d)
  read_sb_with_fallbacks-first_of d v whole big =
      let n = (dev.geometry d).capacity_bytes / 4096 in
      fallbacks d (ground (arith, big)) (copy_at 1 d) (copy_at (n / 2) d) (copy_at (n - 1) d)
        (read_superblock_at_lem 1 d v whole (omega (arith, big)))
        (read_superblock_at_lem (n / 2) d v whole (omega (arith, big)))
        (read_superblock_at_lem (n - 1) d v whole (omega (arith, big)))
