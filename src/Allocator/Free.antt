-- ===== src/Allocator/Free.antt =====
-- `free_extent` gives back what `allocate_contiguous` took.
use mathlib.Core.Path.{subst}
use corefs.Common.{
  ℕ, zero, suc, ◌+◌, ◌≤◌, ◌<◌, ◌^◌, ◌≡◌, refl, ◌∙◌, ap, inl, inr, min, Bool, false, Bool-cases, ltb,
  leb, ◌||◌, if◌then◌else◌, CoreFsResult, ok, err, >>=-ok, arith,
}
use corefs.Extent.{Extent, block_of, in_run}
use corefs.Bitmap.{Bitmap, clear_bit}
use corefs.Bitmap.Run.{SetRun, SetRun-zero, SetRun-suc}
use corefs.Bitmap.View.{bit_at, clear_bit_lem}
use corefs.Allocator.{OndiskAllocator, on_blocks, free_from, free_extent, allocate_contiguous}
use corefs.Allocator.Contiguous.{
  IsValid, in_use-bit_at, Allocated, nothing_asked, no_space, allocated,
  allocate_contiguous-Allocated,
}

-- What allocation leaves is a valid allocator.
pub Allocated-IsValid :
    (a : OndiskAllocator) (count : ℕ) {r : CoreFsResult Extent × OndiskAllocator}
    → IsValid a
    → Allocated a count r
    → IsValid r.1
Allocated-IsValid a count v (nothing_asked z) = v
Allocated-IsValid a count v (no_space p n) = v
Allocated-IsValid a count v (allocated s bm pos d h m) = record {
  blocks = m.valid;
  inodes = v.inodes;
  wide = omega (arith, v.wide, m.same_capacity);
  start_inside = v.start_inside;
  hint_inside = h.inside;
}

-- The extent lies in the data region of the volume.
pub record InData (a : OndiskAllocator) (ext : Extent) : Type 0 where
  pub from_start : a.data_start ≤ ext.physical_block
  pub to_end : ext.physical_block + ext.length_blocks ≤ a.total_blocks

module _ (a : OndiskAllocator) (ext : Extent) (v : IsValid a) (d : InData a ext)
    (small : a.total_blocks < 2 ^ 64) where
  -- The allocator with another block bitmap.
  abbrev with_blocks : Bitmap → OndiskAllocator
  with_blocks bm = record a { block_bitmap = bm }

  -- One round of the loop, in which `clear` answers.
  free_round :
      (n i : ℕ) (mid out : Bitmap) {was_set : Bool}
      → i < ext.length_blocks
      → (clear_bit (ext.physical_block + i) mid).0 ≡ ok was_set
      → free_from ext n (i + 1) (with_blocks (clear_bit (ext.physical_block + i) mid).1)
        ≡ (ok tt, with_blocks out)
      → free_from ext (suc n) i (with_blocks mid) ≡ (ok tt, with_blocks out)
  unfolding free_from
  free_round n i mid out h p q =
      let here : block_of ext i ≡ ext.physical_block + i = omega (arith, d.to_end) in
      let test : (ltb (ext.physical_block + i) a.data_start
            || leb a.total_blocks (ext.physical_block + i))
          ≡ false =
        ground (arith, d.to_end, d.from_start) in
      rw (here, test)
        (>>=-ok (on_blocks (clear_bit (ext.physical_block + i))) (λ _. free_from ext n (i + 1))
            (with_blocks mid) (λ k. (p k, with_blocks (clear_bit (ext.physical_block + i) mid).1))
          ∙ q)

  -- The hint moves back to a block that is freed before it.
  hint_back : OndiskAllocator → OndiskAllocator
  hint_back b =
      if ltb ext.physical_block b.block_hint
      then record b { block_hint = ext.physical_block }
      else b

  hint_back_lem :
      (bm : Bitmap)
      → hint_back (with_blocks bm)
        ≡ record a { block_bitmap = bm; block_hint = min ext.physical_block a.block_hint }
  unfolding hint_back
  hint_back_lem bm = elim (Bool-cases (ltb ext.physical_block a.block_hint)) [
    | inl below ↦ rw below (
        let lower : ext.physical_block ≡ min ext.physical_block a.block_hint = ground arith in
        λ k. record a { block_bitmap = bm; block_hint = lower k })
    | inr above ↦ rw above (
        let lower : a.block_hint ≡ min ext.physical_block a.block_hint = ground arith in
        λ k. record a { block_bitmap = bm; block_hint = lower k })
  ]

  free_from_lem :
      (n i : ℕ) (mid : Bitmap)
      → i + n ≡ ext.length_blocks
      → SetRun a.block_bitmap ext.physical_block i false mid
      → (out : Bitmap) × (free_from ext n i (with_blocks mid) ≡ (ok tt, with_blocks out))
        × SetRun a.block_bitmap ext.physical_block ext.length_blocks false out
  unfolding free_from
  free_from_lem zero i mid e m =
      let same : i ≡ ext.length_blocks = omega arith in
      (mid, refl, subst (λ k. SetRun a.block_bitmap ext.physical_block k false mid) same m)
  free_from_lem (suc n) i mid e m =
      let one =
        clear_bit_lem mid m.valid (ext.physical_block + i)
          (omega (arith, m.same_capacity, v.wide, d.to_end)) in
      let rest =
        free_from_lem n (i + 1) (clear_bit (ext.physical_block + i) mid).1 (omega arith)
          (SetRun-suc a.block_bitmap ext.physical_block i false m one.1) in
      (rest.0, free_round n i mid rest.0 (omega arith) one.0 rest.1, rest.2)

  -- Freeing an extent of the data region succeeds: it clears the bits of its blocks, changes no
  -- other bit, and moves the hint back to it.
  pub free_extent_lem :
      (out : Bitmap) × (free_extent ext a ≡ (
        ok tt,
        record a { block_bitmap = out; block_hint = min ext.physical_block a.block_hint },
      ))
      × SetRun a.block_bitmap ext.physical_block ext.length_blocks false out
  unfolding free_extent hint_back
  free_extent_lem =
      let freed =
        free_from_lem ext.length_blocks 0 a.block_bitmap (omega arith)
          (SetRun-zero a.block_bitmap ext.physical_block false v.blocks) in
      (
        freed.0,
        >>=-ok (free_from ext ext.length_blocks 0) (λ _ b. (ok tt, hint_back b)) a freed.1 ∙ λ k.
            (ok tt, hint_back_lem freed.0 k),
        freed.2,
      )

-- The bits of an allocator's block bitmap are those of another's.
abbrev pub SameBits : OndiskAllocator → OndiskAllocator → Type 0
SameBits b a = (j : ℕ) → bit_at b.block_bitmap j ≡ bit_at a.block_bitmap j

-- What freeing does after an allocation: nothing was allocated and nothing changed, or the extent
-- is freed and every bit is as it was.
abbrev pub GivesBack : OndiskAllocator → CoreFsResult Extent × OndiskAllocator → Type 0
GivesBack a (ok ext, b) = ((free_extent ext b).0 ≡ ok tt) × SameBits (free_extent ext b).1 a
GivesBack a (err e, b) = b ≡ a

Allocated-GivesBack :
    (a : OndiskAllocator) (count : ℕ) {r : CoreFsResult Extent × OndiskAllocator}
    → IsValid a
    → a.total_blocks < 2 ^ 64
    → Allocated a count r
    → GivesBack a r
Allocated-GivesBack a count v small (nothing_asked z) = refl
Allocated-GivesBack a count v small (no_space p n) = refl
Allocated-GivesBack a count v small (allocated s bm pos d h m) =
    let b : OndiskAllocator = record a { block_bitmap = bm; block_hint = s + count } in
    let ext : Extent = record { logical_block = 0; length_blocks = count; physical_block = s } in
    let freed =
      free_extent_lem b ext (Allocated-IsValid a count v (allocated s bm pos d h m))
        (record { from_start = d; to_end = h.inside }) small in
    (
      (λ k. (freed.1 k).0),
      λ j. ap (λ x. bit_at x.1.block_bitmap j) freed.1 ∙ restored freed.0 freed.2 j,
    )
  where
    restored :
        (out : Bitmap)
        → SetRun bm s count false out
        → (j : ℕ) → bit_at out j ≡ bit_at a.block_bitmap j
    restored out f j = elim (Bool-cases (in_run s count j)) [
      | inl inside ↦ ground (
        arith,
        f.bits_at j,
        h.free j (ground arith) (ground arith),
        in_use-bit_at a j v (ground (arith, h.inside)),
      )
      | inr outside ↦ ground (arith, f.bits_at j, m.bits_at j)
    ]

-- On a valid allocator whose sums do not wrap around, an extent that `allocate_contiguous` returned
-- is accepted by `free_extent`, and afterwards every bit of the block bitmap is as it was; where
-- `allocate_contiguous` fails, the allocator is unchanged.
pub free_extent-allocate_contiguous :
    (a : OndiskAllocator) (count : ℕ)
    → IsValid a
    → a.total_blocks + count < 2 ^ 64
    → count < 2 ^ 32
    → GivesBack a (allocate_contiguous count a)
free_extent-allocate_contiguous a count v f w =
    Allocated-GivesBack a count v (omega arith) (allocate_contiguous-Allocated a count v f w)
