-- ===== src/ExtentTree/Chain.antt =====
-- `ExtentChain`: index blocks on a device, each of which names the next one.
use corefs.Common.{
  ℕ, zero, suc, ◌+◌, ◌-◌, ◌*◌, min, Bool, true, false, ◌||◌, Option, none, some, List, [], ◌∷◌,
  ◌++◌, ltb, ◌==◌, if◌then◌else◌, CoreFsResult, ok, err, invalid_input, state, Method, ◌>>=◌, ◌>>◌,
  pure, and_then, length, get_or,
}
use corefs.Common.Word.{mul64, div_ceil}
use corefs.Bytes.{take, drop}
use corefs.Layout.{block_size}
use corefs.Extent.{Extent}
use corefs.Device.{BlockDevice}
use corefs.ExtentTree.{ExtentIndexBlock, extents_per_index_block, encode, decode}

-- `visited.contains`
unfoldable pub visited_has : ℕ → List ℕ → Bool
visited_has b [] = false
visited_has b (v ∷ vs) = (b == v) || visited_has b vs

-- `extents[start..end]`
unfoldable pub extents_between : ℕ → ℕ → List Extent → List Extent
extents_between start end extents = take (end - start) (drop start extents)

-- `ExtentChain::index_blocks_needed`
unfoldable pub index_blocks_needed : ℕ → ℕ
index_blocks_needed extent_count = div_ceil extent_count extents_per_index_block

-- The index block that `write_chain` writes in its round `i`
unfoldable pub index_block : List Extent → List ℕ → ℕ → ℕ → ExtentIndexBlock
index_block extents reserve_blocks needed i =
    let start = i * extents_per_index_block in
    let end = min (start + extents_per_index_block) (length extents) in
    record {
      next_index_block = if ltb (i + 1) needed then get_or reserve_blocks (i + 1) 0 else 0;
      extents = extents_between start end extents;
    }

module _ (dev : BlockDevice) where
  -- The two calls by which both walks read a block of the chain
  unfoldable pub read_index_block : ℕ → dev.Device → CoreFsResult ExtentIndexBlock
  read_index_block cursor d = and_then (dev.read_at (mul64 cursor block_size) block_size d) decode

  -- The loop of `read_chain`, on fuel: `none` is a loop that goes on
  unfoldable pub read_chain_loop :
      ℕ → ℕ → List ℕ → List Extent → dev.Device → Option (CoreFsResult (List Extent))
  read_chain_loop zero cursor visited out d = none
  read_chain_loop (suc fuel) cursor visited out d = elim (cursor == 0) [
    | true ↦ some (ok out)
    | false ↦ elim (visited_has cursor visited) [
      | true ↦ some (err state)
      | false ↦ elim (read_index_block cursor d) [
        | err e ↦ some (err e)
        | ok blk ↦
            read_chain_loop fuel blk.next_index_block (cursor ∷ visited) (out ++ blk.extents) d
      ]
    ]
  ]

  -- `ExtentChain::read_chain`. An empty chain is the loop's first test.
  unfoldable pub read_chain : ℕ → ℕ → dev.Device → Option (CoreFsResult (List Extent))
  read_chain fuel root_block d = read_chain_loop fuel root_block [] [] d

  -- The loop of `read_chain_blocks`
  unfoldable pub read_chain_blocks_loop :
      ℕ → ℕ → List ℕ → List ℕ → dev.Device → Option (CoreFsResult (List ℕ))
  read_chain_blocks_loop zero cursor visited out d = none
  read_chain_blocks_loop (suc fuel) cursor visited out d = elim (cursor == 0) [
    | true ↦ some (ok out)
    | false ↦ elim (visited_has cursor visited) [
      | true ↦ some (err state)
      | false ↦ elim (read_index_block cursor d) [
        | err e ↦ some (err e)
        | ok blk ↦
            read_chain_blocks_loop fuel blk.next_index_block (cursor ∷ visited) (out ++ cursor ∷ [])
              d
      ]
    ]
  ]

  -- `ExtentChain::read_chain_blocks`
  unfoldable pub read_chain_blocks : ℕ → ℕ → dev.Device → Option (CoreFsResult (List ℕ))
  read_chain_blocks fuel root_block d = read_chain_blocks_loop fuel root_block [] [] d

  -- The loop of `write_chain`, with the rounds that are left and the round's number
  unfoldable pub write_chain_loop : ℕ → ℕ → ℕ → List Extent → List ℕ → Method dev.Device (List ℕ)
  write_chain_loop zero i needed extents reserve_blocks = pure []
  write_chain_loop (suc left) i needed extents reserve_blocks = do
    bytes ← λ d. (encode (index_block extents reserve_blocks needed i), d)
    dev.write_at (mul64 (get_or reserve_blocks i 0) block_size) bytes
    used ← write_chain_loop left (i + 1) needed extents reserve_blocks
    pure (get_or reserve_blocks i 0 ∷ used)

  -- `ExtentChain::write_chain`
  unfoldable pub write_chain : List Extent → List ℕ → Method dev.Device (List ℕ)
  write_chain extents reserve_blocks =
      let needed = index_blocks_needed (length extents) in
      if length extents == 0
      then pure []
      else if ltb (length reserve_blocks) needed
      then (λ d. (err invalid_input, d))
      else write_chain_loop needed 0 needed extents reserve_blocks
