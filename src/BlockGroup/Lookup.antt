-- ===== src/BlockGroup/Lookup.antt =====
-- The group of a block or of an inode slot is the first one in whose range it lies.
use corefs.Common.{
  ℕ, zero, suc, ◌+◌, ◌<◌, ◌≡◌, refl, inl, inr, Bool, true, false, Bool-cases, Option, none, some,
  List, [], ◌∷◌, length, get_elem?, arith,
}
use corefs.BlockGroup.{
  BlockGroupDescriptor, BlockGroupTable, position_from, in_range, group_for_inode, group_for_block,
}

-- A search that counts from `i`: nothing passes, or the group at `k` is the first that does.
pub data FirstAt (test : BlockGroupDescriptor → Bool) (i : ℕ) (gs : List BlockGroupDescriptor)
    : Option ℕ → Type 0 where
  nowhere :
      ((k : ℕ) (g : BlockGroupDescriptor) → get_elem? gs k ≡ some g → test g ≡ false)
      → FirstAt test i gs none
  first_at :
      (n k : ℕ) (g : BlockGroupDescriptor)
      → n ≡ i + k
      → k < length gs
      → get_elem? gs k ≡ some g
      → test g ≡ true
      → ((j : ℕ) (h : BlockGroupDescriptor) → j < k → get_elem? gs j ≡ some h → test h ≡ false)
      → FirstAt test i gs (some n)

-- A group in front that does not pass.
FirstAt-suc :
    (test : BlockGroupDescriptor → Bool) (i : ℕ) (g : BlockGroupDescriptor)
    (gs : List BlockGroupDescriptor) {r : Option ℕ}
    → test g ≡ false
    → FirstAt test (i + 1) gs r
    → FirstAt test i (g ∷ gs) r
FirstAt-suc test i g gs f (nowhere none_pass) = nowhere fails
  where
    fails : (k : ℕ) (h : BlockGroupDescriptor) → get_elem? (g ∷ gs) k ≡ some h → test h ≡ false
    fails zero h e = cc
    fails (suc k) h e = none_pass k h e
FirstAt-suc test i g gs f (first_at n k d m lt is passes before) =
    first_at n (suc k) d (omega (arith, m)) (omega arith) is passes fails
  where
    fails :
        (j : ℕ) (h : BlockGroupDescriptor)
        → j < suc k
        → get_elem? (g ∷ gs) j ≡ some h
        → test h ≡ false
    fails zero h l e = cc
    fails (suc j) h l e = before j h (omega arith) e

position_from-FirstAt :
    (test : BlockGroupDescriptor → Bool) (i : ℕ) (gs : List BlockGroupDescriptor)
    → FirstAt test i gs (position_from test i gs)
unfolding position_from
position_from-FirstAt test i [] = nowhere λ k g e. ground arith
position_from-FirstAt test i (g ∷ gs) = elim (Bool-cases (test g)) [
  | inl e ↦ rw e (first_at i 0 g (omega arith) (omega arith) refl e λ j h l q. absurd (omega arith))
  | inr e ↦ rw e (FirstAt-suc test i g gs e (position_from-FirstAt test (i + 1) gs))
]

module _ (t : BlockGroupTable) where
  -- `group_for_inode` returns the index of the first group whose range of inode slots has the slot,
  -- and `None` if no group's range has it.
  pub group_for_inode-FirstAt :
      (slot : ℕ)
      → FirstAt
          (λ g. in_range g.inode_range_start g.inode_range_count slot)
          0
          t.groups
          (group_for_inode t slot)
  unfolding group_for_inode
  group_for_inode-FirstAt slot = position_from-FirstAt _ 0 t.groups

  -- `group_for_block` returns the index of the first group whose blocks include the block, and
  -- `None` if no group has it.
  pub group_for_block-FirstAt :
      (block : ℕ)
      → FirstAt
          (λ g. in_range g.data_start g.data_blocks block)
          0
          t.groups
          (group_for_block t block)
  unfolding group_for_block
  group_for_block-FirstAt block = position_from-FirstAt _ 0 t.groups
