-- ===== src/DirEntry/Packed.antt =====
-- `DirBlock::pack` as a whole.
use corefs.Common.{
  ℕ, suc, ◌-◌, ◌≤◌, ◌<◌, ◌≡◌, refl, sym, ap, ◌∙◌, List, [], ◌∷◌, ◌++◌, ltb, CoreFsResult, ok, err,
  invalid_input, inl, inr, Bool-cases, length, arith,
}
use corefs.Bytes.{take}
use corefs.Bytes.Records.{All}
use corefs.DirEntry.{DirEntry}
use corefs.DirEntry.Entry.{FitsEntry}
use corefs.DirEntry.Codec.{total}
use corefs.DirEntry.Blocks.{DirBlock, pack_from, blocks_needed, link_blocks, pack}
use corefs.DirEntry.Pack.{Fits, Loop, all_entries, pack_from_lem}

-- The entries of the block can be encoded.
abbrev pub IsEncodable : DirBlock → Type 0
IsEncodable b = total b.entries ≤ 4076

unfoldable pub nexts : List DirBlock → List ℕ
nexts [] = []
nexts (b ∷ bs) = b.next_dir_block ∷ nexts bs

-- Linking changes the next blocks only.
record Linked (bs : List DirBlock) (later : List ℕ) (out : List DirBlock) : Type 0 where
  count : length out ≡ length bs
  kept : all_entries out ≡ all_entries bs
  fit : All IsEncodable out
  chain : nexts out ≡ take (length bs - 1) later ++ 0 ∷ []

link_blocks-Linked :
    (b : DirBlock) (bs : List DirBlock) (later : List ℕ)
    → All Fits (b ∷ bs)
    → length bs ≤ length later
    → Linked (b ∷ bs) later (link_blocks (b ∷ bs) later)
unfolding link_blocks nexts all_entries take
link_blocks-Linked b [] later fit h = record {
  count = refl;
  kept = refl;
  fit = (fit.0.entries, tt);
  chain = ap (λ n. n ∷ []) fit.0.terminal;
}
link_blocks-Linked b (c ∷ bs) [] fit h = absurd (omega (arith, h))
link_blocks-Linked b (c ∷ bs) (r ∷ later) fit h =
    let rest = link_blocks-Linked c bs later fit.1 (omega (arith, h)) in
    let one : suc (suc (length bs)) - 1 ≡ suc (suc (length bs) - 1) = omega arith in
    record {
      count = ap suc rest.count;
      kept = ap (λ es. b.entries ++ es) rest.kept;
      fit = (fit.0.entries, rest.fit);
      chain = rw one (ap (λ ns. r ∷ ns) rest.chain);
    }

-- `out` holds the entries in order, in `n` blocks that can be encoded, each of which names the
-- reserved block of the one behind it.
pub record Packed (entries : List DirEntry) (n : ℕ) (later : List ℕ) (out : List DirBlock)
    : Type 0 where
  pub count : length out ≡ n
  pub kept : all_entries out ≡ entries
  pub fit : All IsEncodable out
  pub chain : nexts out ≡ take (n - 1) later ++ 0 ∷ []

module _ (entries : List DirEntry) (first : ℕ) (later : List ℕ) (n : ℕ) where
  -- What packing comes to: blocks, or a refusal because the reserve is too small.
  pub data Packing : CoreFsResult (List DirBlock) → Type 0 where
    packs :
        (out : List DirBlock)
        → n ≤ length (first ∷ later)
        → Packed entries n later out
        → Packing (ok out)
    reserve_too_small : length (first ∷ later) < n → Packing (err invalid_input)

  link_packed :
      (out : List DirBlock)
      → pack_from [] [] 0 entries ≡ ok out
      → n ≡ length out
      → Loop [] [] entries out
      → Packing (pack entries (first ∷ later))
  unfolding pack
  link_packed [] runs count loop = absurd (omega (arith, loop.some_block))
  link_packed (b ∷ bs) runs count loop =
      elim (Bool-cases (ltb (length (first ∷ later)) (length (b ∷ bs)))) [
        | inl over ↦ rw runs rw over (reserve_too_small (ground (arith, count)))
        | inr room ↦
            let linked = link_blocks-Linked b bs later loop.fit (ground arith) in
            rw runs rw room (
              packs (link_blocks (b ∷ bs) later) (ground (arith, count)) (record {
                count = linked.count ∙ sym count;
                kept = linked.kept ∙ loop.kept ∙ unfold all_entries in refl;
                fit = linked.fit;
                chain = linked.chain ∙ ap (λ m. take (m - 1) later ++ 0 ∷ []) (sym count);
              }))
      ]

  -- Packing entries, each of at most 255 bytes of UTF-8 and with a 64-bit inode, for which
  -- `blocks_needed` is `n`: with at least `n` blocks in reserve it returns `n` blocks that hold the
  -- entries in their order, each small enough to be encoded and linked to the reserved block of the
  -- next one, the last to none; with fewer it is refused.
  pub pack-Packing :
      All FitsEntry entries → blocks_needed entries ≡ ok n → Packing (pack entries (first ∷ later))
  unfolding blocks_needed total
  pack-Packing v needs =
      let (out, runs, same, loop) = pack_from_lem [] [] 0 entries v tt refl (omega arith) in
      link_packed out runs (ground (arith, needs, same)) loop
