-- ===== src/MultiGroup/Near.antt =====
-- `allocate_near`: the home group first, then the others in turn.
use mathlib.Core.Path.{subst}
use native.Mathlib.Nat.{mod-lt, mod-eq_of_lt, mod-eq-sub-mod}
use corefs.Common.{
  ℕ, zero, suc, ◌+◌, ◌-◌, ◌%◌, ◌≤◌, ◌<◌, ◌^◌, ◌≡◌, ◌∙◌, inl, inr, Bool, Bool-cases, leb, ◌==◌,
  Option, none, some, List, length, CoreFsResult, ok, err, invalid_input, state, arith,
}
use corefs.Extent.{Extent}
use corefs.BlockGroup.{BlockGroupDescriptor, BlockGroupTable}
use corefs.MultiGroup.{MultiGroupAllocator, near_loop, home_group, allocate_near}
use corefs.BlockGroup.Lookup.{FirstAt, nowhere, first_at, group_for_inode-FirstAt}
use corefs.MultiGroup.Try.{
  Ready, NoRoomIn, TakenFrom, AfterTry, not_here, here_at, try_group-AfterTry,
}

-- The groups in the order in which `allocate_near` tries them, from `offset` on for `n` rounds.
data NearFrom (a : MultiGroupAllocator) (count home offset n : ℕ)
    : CoreFsResult Extent × MultiGroupAllocator → Type 0 where
  all_full :
      ((k : ℕ)
        → offset ≤ k
        → k < offset + n
        → NoRoomIn a count ((home + k) % length a.group_bitmaps))
      → NearFrom a count home offset n (err state, a)
  near_at :
      (k : ℕ) (ext : Extent) (b : MultiGroupAllocator)
      → k < offset + n
      → ((j : ℕ) → offset ≤ j → j < k → NoRoomIn a count ((home + j) % length a.group_bitmaps))
      → TakenFrom a count ((home + k) % length a.group_bitmaps) ext b
      → NearFrom a count home offset n (ok ext, b)

-- What holds at `offset` and past it holds from `offset` on.
at_or_past :
    (p : ℕ → Type 0) (offset top : ℕ)
    → p offset
    → ((k : ℕ) → offset + 1 ≤ k → k < top → p k)
    → (k : ℕ) → offset ≤ k
    → k < top
    → p k
at_or_past p offset top here rest k le lt = elim (Bool-cases (leb (offset + 1) k)) [
  | inl e ↦ rest k (ground arith) lt
  | inr e ↦ let same : offset ≡ k = ground arith in subst p same here
]

NearFrom-suc :
    (a : MultiGroupAllocator) (count home offset n : ℕ)
    {r : CoreFsResult Extent × MultiGroupAllocator}
    → NoRoomIn a count ((home + offset) % length a.group_bitmaps)
    → NearFrom a count home (offset + 1) n r
    → NearFrom a count home offset (suc n) r
NearFrom-suc a count home offset n here (all_full rest) = all_full (
    at_or_past (λ k. NoRoomIn a count ((home + k) % length a.group_bitmaps)) offset _ here
      λ k p q. rest k p (omega arith))
NearFrom-suc a count home offset n here (near_at k ext b q rest taken) =
    near_at k ext b (omega arith)
      (at_or_past (λ j. NoRoomIn a count ((home + j) % length a.group_bitmaps)) offset k here rest)
      taken

module _ (a : MultiGroupAllocator) (count home : ℕ) (ready : Ready a count) (pos : 0 < count)
    (w : count < 2 ^ 32) where
  near_step :
      (n offset : ℕ) {r : Option Extent × MultiGroupAllocator}
      → AfterTry a count ((home + offset) % length a.group_bitmaps) r
      → NearFrom a count home (offset + 1) n (near_loop count home n (offset + 1) a)
      → NearFrom a count home offset
          (suc n)
          (elim r.0 [ some ext ↦ (ok ext, r.1) | none ↦ near_loop count home n (offset + 1) r.1 ])
  near_step n offset (not_here none_fits) rest = NearFrom-suc a count home offset n none_fits rest
  near_step n offset (here_at ext b taken) rest =
      near_at offset ext b (omega arith) (λ j p l. absurd (omega arith)) taken

  near_loop-NearFrom :
      (n offset : ℕ)
      → offset + n ≤ length a.group_bitmaps
      → NearFrom a count home offset n (near_loop count home n offset a)
  unfolding near_loop
  near_loop-NearFrom zero offset h = all_full λ k p q. absurd (omega arith)
  near_loop-NearFrom (suc n) offset h =
      near_step n offset
        (try_group-AfterTry a count ready pos w _ (mod-lt (home + offset) (omega arith)))
        (near_loop-NearFrom n (offset + 1) (omega arith))

index_lt :
    {test : BlockGroupDescriptor → Bool} {gs : List BlockGroupDescriptor} {r : Option ℕ}
    → 0 < length gs
    → FirstAt test 0 gs r
    → elim r [ some g ↦ g | none ↦ 0 ] < length gs
index_lt h (nowhere _) = h
index_lt h (first_at n k d m lt _ _ _) = omega arith

home_group-lt :
    (t : BlockGroupTable) (slot : ℕ) → 0 < length t.groups → home_group t slot < length t.groups
unfolding home_group
home_group-lt t slot h = index_lt h (group_for_inode-FirstAt t slot)

-- Going around from `home`, every index below `n` is met.
round_trip : (n home g : ℕ) → home < n → g < n → (k : ℕ) × (k < n) × ((home + k) % n ≡ g)
round_trip n home g h q = elim (Bool-cases (leb home g)) [
  | inl e ↦
      let back : home + (g - home) ≡ g = ground arith in
      (g - home, omega arith, rw back (mod-eq_of_lt q))
  | inr e ↦
      let less : g < home = ground arith in
      let past : home + (g + n - home) ≡ g + n = omega arith in
      let back : g + n - n ≡ g = omega arith in
      (g + n - home, omega arith, rw past (mod-eq-sub-mod (omega arith) ∙ rw back (mod-eq_of_lt q)))
]

pub data AllocatedNear (a : MultiGroupAllocator) (count slot : ℕ)
    : CoreFsResult Extent × MultiGroupAllocator → Type 0 where
  nothing_asked : count ≡ 0 → AllocatedNear a count slot (err invalid_input, a)
  no_group :
      ((g : ℕ) → g < length a.group_bitmaps → NoRoomIn a count g)
      → AllocatedNear a count slot (err state, a)
  near_home :
      (k : ℕ) (ext : Extent) (b : MultiGroupAllocator)
      → k < length a.group_bitmaps
      → ((j : ℕ)
          → j < k
          → NoRoomIn a count ((home_group a.table slot + j) % length a.group_bitmaps))
      → TakenFrom a count ((home_group a.table slot + k) % length a.group_bitmaps) ext b
      → AllocatedNear a count slot (ok ext, b)

module _ (a : MultiGroupAllocator) (count slot : ℕ) (ready : Ready a count)
    (w : count < 2 ^ 32) where
  near_outcome :
      {r : CoreFsResult Extent × MultiGroupAllocator}
      → NearFrom a count (home_group a.table slot) 0 (length a.group_bitmaps) r
      → AllocatedNear a count slot r
  near_outcome (all_full no_room_at) = no_group λ g h.
      let below = home_group-lt a.table slot (omega (arith, ready.paired)) in
      let (k, lt, same) =
        round_trip (length a.group_bitmaps) (home_group a.table slot) g
          (omega (arith, below, ready.paired)) h in
      subst (λ i. NoRoomIn a count i) same (no_room_at k (omega arith) (omega arith))
  near_outcome (near_at k ext b lt before taken) =
      near_home k ext b (omega arith) (λ j l. before j (omega arith) l) taken

  -- For as many valid, wide enough bitmaps as groups, and a count below 2^32: `allocate_near` refuses
  -- a count of 0; it reports no space, changing nothing, only if no group has a run of that many free
  -- blocks; and otherwise it takes the lowest such run of a group, going around from the home group
  -- of the inode slot and past only groups without such a run, marks exactly that run, and changes
  -- no other group.
  pub allocate_near-AllocatedNear : AllocatedNear a count slot (allocate_near count slot a)
  unfolding allocate_near
  allocate_near-AllocatedNear = elim (Bool-cases (count == 0)) [
    | inl e ↦ rw e (nothing_asked (ground arith))
    | inr e ↦ rw e (
        near_outcome (
          near_loop-NearFrom a count (home_group a.table slot) ready (ground arith) w
            (length a.group_bitmaps) 0 (omega arith)))
  ]
