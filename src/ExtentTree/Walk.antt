-- ===== src/ExtentTree/Walk.antt =====
-- Walking a chain of index blocks that does not come back to itself.
use mathlib.Core.List.{append_assoc, append-nil}
use corefs.Common.{
  ℕ, zero, suc, ◌<◌, ◌≡◌, ◌≢◌, sym, ap, ◌∙◌, true, false, some, List, [], ◌∷◌, ◌++◌, ◌==◌, ok,
  length, arith,
}
use corefs.Extent.{Extent}
use corefs.Device.{BlockDevice}
use corefs.ExtentTree.{ExtentIndexBlock}
use corefs.ExtentTree.Chain.{visited_has, read_index_block, read_chain_loop, read_chain_blocks_loop}

-- No block occurs twice, or is one of `visited`.
abbrev pub AreFresh : List ℕ → List ℕ → Type 0
AreFresh visited [] = Unit
AreFresh visited (b ∷ bs) = (b ≢ 0) × (visited_has b visited ≡ false) × AreFresh (b ∷ visited) bs

module _ (dev : BlockDevice) (d : dev.Device) where
  -- From `cursor` the device holds a chain of exactly `blocks`, with `extents` in them.
  abbrev pub IsChain : ℕ → List ℕ → List Extent → Type 0
  IsChain cursor [] extents = (cursor ≡ 0) × (extents ≡ [])
  IsChain cursor (b ∷ bs) extents =
      (cursor ≡ b)
      × (blk : ExtentIndexBlock) × (later : List Extent) × (read_index_block dev b d ≡ ok blk)
      × (extents ≡ blk.extents ++ later)
      × IsChain blk.next_index_block bs later

  pub read_chain_loop_lem :
      (bs : List ℕ) (fuel cursor : ℕ) (visited : List ℕ) (out extents : List Extent)
      → length bs < fuel
      → AreFresh visited bs
      → IsChain cursor bs extents
      → read_chain_loop dev fuel cursor visited out d ≡ some (ok (out ++ extents))
  unfolding read_chain_loop
  read_chain_loop_lem bs zero cursor visited out extents h fresh chain = absurd (omega (arith, h))
  read_chain_loop_lem [] (suc fuel) cursor visited out extents h fresh chain =
      let end : (cursor == 0) ≡ true = ground (arith, chain.0) in
      rw (end, read_chain_loop)
        (ap (λ es. some (ok es)) (sym (append-nil out) ∙ ap (λ es. out ++ es) (sym chain.1)))
  read_chain_loop_lem (b ∷ bs) (suc fuel) cursor visited out extents h fresh
        (at, blk, later, reads, split, rest) =
      let (nonzero, unseen, others) = fresh in
      let going : (b == 0) ≡ false = ground (arith, nonzero) in
      ap (λ k. read_chain_loop dev (suc fuel) k visited out d) at
      ∙ (rw (going, read_chain_loop) rw (unseen, read_chain_loop) rw (reads, read_chain_loop)
          (read_chain_loop_lem bs fuel blk.next_index_block (b ∷ visited) (out ++ blk.extents) later
              (omega (arith, h)) others rest
            ∙ ap (λ es. some (ok es))
                (append_assoc out blk.extents later ∙ ap (λ es. out ++ es) (sym split))))

  pub read_chain_blocks_loop_lem :
      (bs : List ℕ) (fuel cursor : ℕ) (visited out : List ℕ) (extents : List Extent)
      → length bs < fuel
      → AreFresh visited bs
      → IsChain cursor bs extents
      → read_chain_blocks_loop dev fuel cursor visited out d ≡ some (ok (out ++ bs))
  unfolding read_chain_blocks_loop
  read_chain_blocks_loop_lem bs zero cursor visited out extents h fresh chain =
      absurd (omega (arith, h))
  read_chain_blocks_loop_lem [] (suc fuel) cursor visited out extents h fresh chain =
      let end : (cursor == 0) ≡ true = ground (arith, chain.0) in
      rw (end, read_chain_blocks_loop) (ap (λ es. some (ok es)) (sym (append-nil out)))
  read_chain_blocks_loop_lem (b ∷ bs) (suc fuel) cursor visited out extents h fresh
        (at, blk, later, reads, split, rest) =
      let (nonzero, unseen, others) = fresh in
      let going : (b == 0) ≡ false = ground (arith, nonzero) in
      ap (λ k. read_chain_blocks_loop dev (suc fuel) k visited out d) at
      ∙ (rw (going, read_chain_blocks_loop) rw (unseen, read_chain_blocks_loop) rw
          (reads, read_chain_blocks_loop)
          (read_chain_blocks_loop_lem bs fuel blk.next_index_block (b ∷ visited) (out ++ b ∷ [])
              later (omega (arith, h)) others rest
            ∙ ap (λ es. some (ok es)) (append_assoc out (b ∷ []) bs)))
