-- ===== src/BlockGroup/Disjoint.antt =====
-- `BlockGroupTable::new` accepts exactly the tables whose groups share no block.
use corefs.Common.{
  ℕ, ◌+◌, ◌≤◌, ◌<◌, ◌^◌, ◌≡◌, ◌↔◌, refl, inl, inr, Bool, true, Bool-cases, ltb, leb, ◌&&◌, List, [],
  ◌∷◌, length, bool_to_ℕ, ok, arith,
}
use corefs.BlockGroup.{
  BlockGroupDescriptor, insert_group, sort_groups, windows_apart, max_groups_per_table,
}
use corefs.BlockGroup

-- Whether a block lies in a group, and how many groups it lies in.
unfoldable pub owns : BlockGroupDescriptor → ℕ → Bool
owns g block = leb g.data_start block && ltb block (g.data_start + g.data_blocks)

unfoldable pub owners : ℕ → List BlockGroupDescriptor → ℕ
owners block [] = 0
owners block (g ∷ gs) = owners block gs + bool_to_ℕ (owns g block)

-- Groups that hold a block at least and end in the 64-bit range.
unfoldable pub AllProper : List BlockGroupDescriptor → Type 0
AllProper [] = Unit
AllProper (g ∷ gs) = (0 < g.data_blocks) × (g.data_start + g.data_blocks < 2 ^ 64) × AllProper gs

unfoldable AscendingFrom : ℕ → List BlockGroupDescriptor → Type 0
AscendingFrom low [] = Unit
AscendingFrom low (g ∷ gs) = (low ≤ g.data_start) × AscendingFrom g.data_start gs

owners-insert_group :
    (block : ℕ) (g : BlockGroupDescriptor) (gs : List BlockGroupDescriptor)
    → owners block (insert_group g gs) ≡ owners block gs + bool_to_ℕ (owns g block)
unfolding owners insert_group
owners-insert_group block g [] = refl
owners-insert_group block g (h ∷ hs) = elim (Bool-cases (leb g.data_start h.data_start)) [
  | inl e ↦ rw e (omega arith)
  | inr e ↦ rw e (omega (arith, owners-insert_group block g hs))
]

owners-sort_groups :
    (block : ℕ) (gs : List BlockGroupDescriptor) → owners block (sort_groups gs) ≡ owners block gs
unfolding owners sort_groups
owners-sort_groups block [] = refl
owners-sort_groups block (g ∷ gs) =
    omega (arith, owners-insert_group block g (sort_groups gs), owners-sort_groups block gs)

insert_group-AllProper :
    (g : BlockGroupDescriptor) (gs : List BlockGroupDescriptor)
    → 0 < g.data_blocks
    → g.data_start + g.data_blocks < 2 ^ 64
    → AllProper gs
    → AllProper (insert_group g gs)
unfolding AllProper insert_group
insert_group-AllProper g [] p q r = (p, q, tt)
insert_group-AllProper g (h ∷ hs) p q (a, b, c) =
    elim (Bool-cases (leb g.data_start h.data_start)) [
      | inl e ↦ rw e (p, q, (a, b, c))
      | inr e ↦ rw e (a, b, insert_group-AllProper g hs p q c)
    ]

sort_groups-AllProper : (gs : List BlockGroupDescriptor) → AllProper gs → AllProper (sort_groups gs)
unfolding AllProper sort_groups
sort_groups-AllProper [] p = tt
sort_groups-AllProper (g ∷ gs) (a, b, c) =
    insert_group-AllProper g (sort_groups gs) a b (sort_groups-AllProper gs c)

insert_group-AscendingFrom :
    (low : ℕ) (g : BlockGroupDescriptor) (gs : List BlockGroupDescriptor)
    → low ≤ g.data_start
    → AscendingFrom low gs
    → AscendingFrom low (insert_group g gs)
unfolding AscendingFrom insert_group
insert_group-AscendingFrom low g [] p q = (p, tt)
insert_group-AscendingFrom low g (h ∷ hs) p (q, r) =
    elim (Bool-cases (leb g.data_start h.data_start)) [
      | inl e ↦ rw e (p, (ground arith, r))
      | inr e ↦ rw e (q, insert_group-AscendingFrom h.data_start g hs (ground arith) r)
    ]

sort_groups-AscendingFrom : (gs : List BlockGroupDescriptor) → AscendingFrom 0 (sort_groups gs)
unfolding AscendingFrom sort_groups
sort_groups-AscendingFrom [] = tt
sort_groups-AscendingFrom (g ∷ gs) =
    insert_group-AscendingFrom 0 g (sort_groups gs) (omega arith) (sort_groups-AscendingFrom gs)

-- Groups apart from each other: no block before the first, and at most one owner of each.
owners-before :
    (g : BlockGroupDescriptor) (gs : List BlockGroupDescriptor)
    → AllProper (g ∷ gs)
    → windows_apart (g ∷ gs) ≡ true
    → (block : ℕ) → block < g.data_start
    → owners block (g ∷ gs) ≡ 0
unfolding owners owns AllProper windows_apart
owners-before g [] p e b lt = ground arith
owners-before g (h ∷ hs) (p, q, r) e b lt =
    ground (arith, owners-before h hs r (ground arith) b (ground arith))

owners_of_apart :
    (gs : List BlockGroupDescriptor)
    → AllProper gs
    → windows_apart gs ≡ true
    → (block : ℕ) → owners block gs ≤ 1
unfolding owners owns AllProper windows_apart
owners_of_apart [] p e b = omega arith
owners_of_apart (g ∷ []) p e b = ground arith
owners_of_apart (g ∷ h ∷ hs) (p, q, r) e b =
    ground
      (arith, owners-before h hs r (ground arith) b, owners_of_apart (h ∷ hs) r (ground arith) b)

-- Ascending groups of which no block has two owners are apart.
apart_of_owners :
    (low : ℕ) (gs : List BlockGroupDescriptor)
    → AllProper gs
    → AscendingFrom low gs
    → ((block : ℕ) → owners block gs ≤ 1)
    → windows_apart gs ≡ true
unfolding owners owns AllProper AscendingFrom windows_apart
apart_of_owners low [] p a o = refl
apart_of_owners low (g ∷ []) p a o = refl
apart_of_owners low (g ∷ h ∷ hs) (p, q, r) (a, b) o =
    ground
      (arith, o h.data_start, apart_of_owners g.data_start (h ∷ hs) r b (λ k. omega (arith, o k)))

-- For groups that hold a block at least and end in the 64-bit range: `new` accepts the table exactly
-- if it has at most the 84 groups that fit in a block, and no block lies in two groups.
pub new_iff :
    (gs : List BlockGroupDescriptor)
    → AllProper gs
    → (BlockGroup.new gs ≡ ok (record { groups = gs }))
      ↔ ((length gs ≤ 84) × ((block : ℕ) → owners block gs ≤ 1))
unfolding BlockGroup.new
new_iff gs p =
    let apart_iff : (windows_apart (sort_groups gs) ≡ true) ↔ ((b : ℕ) → owners b gs ≤ 1) = (
      λ e b. omega (
        arith,
        owners_of_apart (sort_groups gs) (sort_groups-AllProper gs p) e b,
        owners-sort_groups b gs,
      ),
      λ o.
          apart_of_owners 0 (sort_groups gs) (sort_groups-AllProper gs p)
            (sort_groups-AscendingFrom gs) λ b. omega (arith, o b, owners-sort_groups b gs),
    ) in
    (
      λ e. (ground arith, apart_iff.0 (ground arith)),
      λ (few, o). let apart = apart_iff.1 o in ground arith,
    )
