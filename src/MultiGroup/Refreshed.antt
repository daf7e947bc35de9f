-- ===== src/MultiGroup/Refreshed.antt =====
-- The refreshed table can be stored and is accepted when it is read back.
use corefs.Common.{
  suc, ◌≡◌, refl, sym, ap, inl, inr, false, Bool-cases, List, [], ◌∷◌, ltb, leb, if◌then◌else◌, ok,
  length, arith,
}
use corefs.Common.Word.{add64}
use corefs.Bytes.Records.{All}
use corefs.Checksum.Bytewise.{hash-lt}
use corefs.Bitmap.{Bitmap}
use corefs.BlockGroup.{
  BlockGroupDescriptor, BlockGroupTable, new, insert_group, sort_groups, windows_apart,
}
use corefs.BlockGroup.Table.{encode, decode}
use corefs.BlockGroup.Codec.{FitsGroup, decode-encode_table}
use corefs.MultiGroup.{MultiGroupAllocator, refresh_groups, refresh_descriptors}

record SameRange (g h : BlockGroupDescriptor) : Type 0 where
  start : g.data_start ≡ h.data_start
  blocks : g.data_blocks ≡ h.data_blocks

-- Groups that differ at most in what is not tested.
data SameRanges : List BlockGroupDescriptor → List BlockGroupDescriptor → Type 0 where
  none : SameRanges [] []
  more :
      {g h : BlockGroupDescriptor} {gs hs : List BlockGroupDescriptor}
      → SameRange g h
      → SameRanges gs hs
      → SameRanges (g ∷ gs) (h ∷ hs)

insert_group-SameRanges :
    {g h : BlockGroupDescriptor} {gs hs : List BlockGroupDescriptor}
    → SameRange g h
    → SameRanges gs hs
    → SameRanges (insert_group g gs) (insert_group h hs)
unfolding insert_group
insert_group-SameRanges same none = more same none
insert_group-SameRanges {g} {h} same (more {g = g'} {h = h'} first rest) =
    let tests : leb h.data_start h'.data_start ≡ leb g.data_start g'.data_start =
      λ i. leb (sym same.start i) (sym first.start i) in
    rw tests (elim (Bool-cases (leb g.data_start g'.data_start)) [
      | inl e ↦ rw e (more same (more first rest))
      | inr e ↦ rw e (more first (insert_group-SameRanges same rest))
    ])

sort_groups-SameRanges :
    {gs hs : List BlockGroupDescriptor}
    → SameRanges gs hs
    → SameRanges (sort_groups gs) (sort_groups hs)
unfolding sort_groups
sort_groups-SameRanges none = none
sort_groups-SameRanges (more first rest) =
    insert_group-SameRanges first (sort_groups-SameRanges rest)

windows_apart-SameRanges :
    {gs hs : List BlockGroupDescriptor} → SameRanges gs hs → windows_apart gs ≡ windows_apart hs
unfolding windows_apart
windows_apart-SameRanges none = refl
windows_apart-SameRanges (more first none) = refl
windows_apart-SameRanges (more {g} {h} first (more {g = g'} {h = h'} second rest)) =
    let later = windows_apart-SameRanges (more second rest) in
    λ i. if ltb (second.start i) (add64 (first.start i) (first.blocks i)) then false else later i

length-SameRanges : {gs hs : List BlockGroupDescriptor} → SameRanges gs hs → length gs ≡ length hs
length-SameRanges none = refl
length-SameRanges (more first rest) = ap suc (length-SameRanges rest)

refresh_groups-SameRanges :
    (gs : List BlockGroupDescriptor) (bs : List Bitmap) → SameRanges (refresh_groups gs bs) gs
unfolding refresh_groups
refresh_groups-SameRanges [] bs = none
refresh_groups-SameRanges (g ∷ gs) [] = same (g ∷ gs)
  where
    same : (gs : List BlockGroupDescriptor) → SameRanges gs gs
    same [] = none
    same (g ∷ gs) = more (record { start = refl; blocks = refl }) (same gs)
refresh_groups-SameRanges (g ∷ gs) (b ∷ bs) =
    more (record { start = refl; blocks = refl }) (refresh_groups-SameRanges gs bs)

refresh_groups-FitsGroup :
    (gs : List BlockGroupDescriptor) (bs : List Bitmap)
    → All FitsGroup gs
    → All FitsGroup (refresh_groups gs bs)
unfolding refresh_groups
refresh_groups-FitsGroup [] bs v = tt
refresh_groups-FitsGroup (g ∷ gs) [] v = v
refresh_groups-FitsGroup (g ∷ gs) (b ∷ bs) v = (
  record {
    data_start = v.0.data_start;
    data_blocks = v.0.data_blocks;
    bitmap_block = v.0.bitmap_block;
    inode_range_start = v.0.inode_range_start;
    inode_range_count = v.0.inode_range_count;
    free_blocks = omega arith;
    bitmap_crc = hash-lt b.bits;
  },
  refresh_groups-FitsGroup gs bs v.1,
)

new-SameRanges :
    (gs hs : List BlockGroupDescriptor) {t : BlockGroupTable}
    → SameRanges gs hs
    → new hs ≡ ok t
    → new gs ≡ ok (record { groups = gs })
unfolding new
new-SameRanges gs hs same e =
    ground
      (arith, e, length-SameRanges same, windows_apart-SameRanges (sort_groups-SameRanges same))

-- For an allocator whose table is accepted and holds numbers that fit in their fields, the table with
-- the refreshed descriptors is read back from the block that `encode` makes of it.
pub decode-encode-refresh_descriptors :
    (a : MultiGroupAllocator)
    → new a.table.groups ≡ ok a.table
    → All FitsGroup a.table.groups
    → decode (encode (refresh_descriptors a).table) ≡ ok (refresh_descriptors a).table
unfolding refresh_descriptors
decode-encode-refresh_descriptors a accepted v =
    let gs = a.table.groups in
    let refreshed = refresh_groups gs a.group_bitmaps in
    decode-encode_table (record { groups = refreshed }) refreshed
      (new-SameRanges refreshed gs (refresh_groups-SameRanges gs a.group_bitmaps) accepted)
      (refresh_groups-FitsGroup gs a.group_bitmaps v)
