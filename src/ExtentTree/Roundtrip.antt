-- ===== src/ExtentTree/Roundtrip.antt =====
-- A chain that `write_chain` has written is read back.
use corefs.Common.{
  ℕ, zero, suc, ◌+◌, ◌*◌, ◌≤◌, ◌<◌, ◌≡◌, ◌≢◌, refl, sym, ap, ◌∙◌, true, false, List, [], ◌∷◌, ltb,
  ◌==◌, if◌then◌else◌, some, ok, Returns, length, get_or, arith,
}
use corefs.Bytes.{take, drop}
use corefs.Bytes.Records.{All}
use corefs.Extent.{Extent}
use corefs.Extent.Bytes.{FitsExtent}
use corefs.Device.{BlockDevice}
use corefs.Device.Lawful.{Laws}
use corefs.Device.Blocks.{Inside, Usable, block_at}
use corefs.ExtentTree.Chain.{
  visited_has, index_blocks_needed, write_chain, read_chain_loop, read_chain,
  read_chain_blocks_loop, read_chain_blocks,
}
use corefs.ExtentTree.Walk.{AreFresh, read_chain_loop_lem, read_chain_blocks_loop_lem}
use corefs.ExtentTree.Written.{Reserved, blocks_from, write_chain_loop_lem}

length-blocks_from : (reserve : List ℕ) (left i : ℕ) → length (blocks_from reserve left i) ≡ left
unfolding blocks_from
length-blocks_from reserve zero i = refl
length-blocks_from reserve (suc left) i = ap suc (length-blocks_from reserve left (i + 1))

drop-get_or : (xs : List ℕ) (i : ℕ) → i < length xs → drop i xs ≡ get_or xs i 0 ∷ drop (i + 1) xs
unfolding drop
drop-get_or [] i h = absurd (omega arith)
drop-get_or (x ∷ xs) zero h = refl
drop-get_or (x ∷ xs) (suc i) h =
    let one : suc i + 1 ≡ suc (i + 1) = omega arith in rw one (drop-get_or xs i (omega (arith, h)))

blocks_from-take :
    (reserve : List ℕ) (left i : ℕ)
    → i + left ≤ length reserve
    → blocks_from reserve left i ≡ take left (drop i reserve)
unfolding blocks_from take
blocks_from-take reserve zero i h = refl
blocks_from-take reserve (suc left) i h =
    rw (drop-get_or reserve i (omega (arith, h))) (
      ap (λ bs. get_or reserve i 0 ∷ bs) (blocks_from-take reserve left (i + 1) (omega (arith, h))))

blocks_from-AreFresh :
    (reserve : List ℕ) (n left i : ℕ) (visited : List ℕ)
    → i + left ≡ n
    → ((j : ℕ) → j < n → get_or reserve j 0 ≢ 0)
    → ((j k : ℕ) → j < k → k < n → get_or reserve j 0 ≢ get_or reserve k 0)
    → ((j : ℕ) → i ≤ j → j < n → visited_has (get_or reserve j 0) visited ≡ false)
    → AreFresh visited (blocks_from reserve left i)
unfolding blocks_from visited_has
blocks_from-AreFresh reserve n zero i visited sum nonzero apart unseen = tt
blocks_from-AreFresh reserve n (suc left) i visited sum nonzero apart unseen = (
  nonzero i (omega (arith, sum)),
  unseen i (omega arith) (omega (arith, sum)),
  blocks_from-AreFresh reserve n left (i + 1) (get_or reserve i 0 ∷ visited) (omega (arith, sum))
      nonzero apart
      λ j after below.
        let other : (get_or reserve j 0 == get_or reserve i 0) ≡ false =
          ground (arith, apart i j (omega (arith, after)) below) in
        rw other (unseen j (omega (arith, after)) below),
)

module _ (dev : BlockDevice) (IsValid : dev.Device → Type 0) (contents : dev.Device → List ℕ)
    (laws : Laws dev IsValid contents) (extents : List Extent) (reserve : List ℕ) where
  -- The device after a chain of `n` blocks was written: read from its first block, the chain gives the
  -- extents and the blocks, and every other block is as before.
  pub record Stored (n fuel : ℕ) (used : List ℕ) (before after : dev.Device) : Type 0 where
    pub used_blocks : used ≡ take n reserve
    pub extents_read : read_chain dev fuel (get_or reserve 0 0) after ≡ some (ok extents)
    pub blocks_read : read_chain_blocks dev fuel (get_or reserve 0 0) after ≡ some (ok used)
    pub elsewhere :
        (c : ℕ)
        → ((j : ℕ) → 0 ≤ j → j < n → c ≢ get_or reserve j 0)
        → Inside (dev.geometry before) c
        → block_at dev IsValid contents laws c after ≡ block_at dev IsValid contents laws c before

  -- On a writable device whose sectors divide blocks, for a list of extents that is not empty and whose
  -- numbers fit in their fields, with at least as many reserved blocks as the chain needs, the ones
  -- needed being distinct blocks of the device and none of them block 0: `write_chain` returns the
  -- reserved blocks that are needed; on the device that it leaves, `read_chain` from the first of them
  -- returns the extents and `read_chain_blocks` the blocks, on any fuel above their number; and no other
  -- block of the device has changed.
  pub write_chain-read_chain :
      (d : dev.Device) (fuel : ℕ)
      → Usable dev IsValid contents laws d
      → All FitsExtent extents
      → 0 < length extents
      → index_blocks_needed (length extents) ≤ length reserve
      → Reserved (dev.geometry d) reserve (index_blocks_needed (length extents))
      → index_blocks_needed (length extents) < fuel
      → Returns
          (write_chain dev extents reserve)
          d
          λ used d'. Stored (index_blocks_needed (length extents)) fuel used d d'
  unfolding write_chain read_chain read_chain_blocks drop
  write_chain-read_chain d fuel u v some_extent room r h =
      let n = index_blocks_needed (length extents) in
      let enough : length extents ≤ n * 254 = unfold index_blocks_needed in ground arith in
      let first : 0 < n = unfold index_blocks_needed in ground (arith, some_extent) in
      let (used, d', runs, (same, chained)) =
        write_chain_loop_lem dev IsValid contents laws extents reserve n v enough n 0 d
          (omega arith) u r in
      let going : (length extents == 0) ≡ false = ground (arith, some_extent) in
      let wide : ltb (length reserve) n ≡ false = ground (arith, room) in
      let begins : ltb 0 n ≡ true = ground (arith, first) in
      let fresh =
        blocks_from-AreFresh reserve n n 0 [] (omega arith) r.nonzero r.apart
          (λ j after below. unfold visited_has in refl) in
      let short : length (blocks_from reserve n 0) < fuel =
        omega (arith, h, length-blocks_from reserve n 0) in
      let root : (if ltb 0 n then get_or reserve 0 0 else 0) ≡ get_or reserve 0 0 =
        rw begins refl in
      let from = blocks_from reserve n 0 in
      (
        used,
        d',
        rw going rw wide runs,
        record {
          used_blocks = same ∙ blocks_from-take reserve n 0 (omega (arith, room));
          extents_read =
              ap (λ b. read_chain_loop dev fuel b [] [] d') (sym root)
              ∙ read_chain_loop_lem dev d' from fuel (if ltb 0 n then get_or reserve 0 0 else 0) []
                  [] (drop (0 * 254) extents) short fresh chained.chain;
          blocks_read =
              ap (λ b. read_chain_blocks_loop dev fuel b [] [] d') (sym root)
              ∙ read_chain_blocks_loop_lem dev d' from fuel
                  (if ltb 0 n then get_or reserve 0 0 else 0) [] [] (drop (0 * 254) extents) short
                  fresh chained.chain
              ∙ ap (λ bs. some (ok bs)) (sym same);
          elsewhere = chained.elsewhere;
        },
      )
