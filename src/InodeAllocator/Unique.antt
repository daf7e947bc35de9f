-- ===== src/InodeAllocator/Unique.antt =====
-- An inode number is never held twice, whatever the callers allocate, claim and release.
use corefs.Common.{
  ℕ, ◌+◌, ◌-◌, ◌≤◌, ◌<◌, ◌^◌, ◌≡◌, refl, Bool, true, false, List, [], ◌∷◌, ◌++◌, ◌==◌,
  if◌then◌else◌, bool_to_ℕ, arith,
}
use corefs.InodeAllocator.{
  InodeAllocator, with_next_inode, allocate, release, remove_first, allocate_specific,
}

-- How often `id` stands in a queue.
unfoldable pub occurrences : ℕ → List ℕ → ℕ
occurrences id [] = 0
occurrences id (x ∷ xs) = occurrences id xs + bool_to_ℕ (x == id)

occurrences-++ :
    (id : ℕ) (xs ys : List ℕ) → occurrences id (xs ++ ys) ≡ occurrences id xs + occurrences id ys
unfolding occurrences
occurrences-++ id [] ys = omega arith
occurrences-++ id (x ∷ xs) ys = omega (arith, occurrences-++ id xs ys)

-- Removing the first entry takes one occurrence, if there is one, of that id only.
occurrences-remove_first :
    (j id : ℕ) (xs : List ℕ)
    → occurrences j (remove_first id xs) ≤ occurrences j xs - bool_to_ℕ (id == j)
unfolding occurrences remove_first
occurrences-remove_first j id [] = ground arith
occurrences-remove_first j id (x ∷ xs) = ground (arith, occurrences-remove_first j id xs)

-- The callers' view: which inode numbers are in use.
abbrev pub Live : Type 0
Live = ℕ → Bool

abbrev pub holding : ℕ → Bool → Live → Live
holding id b live j = if id == j then b else live j

-- A number stands in the queue once at most, and not while it is in use; numbers past `next_inode`
-- are neither.
pub record IsConsistent (a : InodeAllocator) (live : Live) : Type 0 where
  pub once : (id : ℕ) → occurrences id a.recycled + bool_to_ℕ (live id) ≤ 1
  pub issued : (id : ℕ) → a.next_inode < id → occurrences id a.recycled + bool_to_ℕ (live id) ≡ 0

-- What a caller may do: allocate while numbers are left, release what it uses, claim what is unused.
pub data Step : InodeAllocator × Live → InodeAllocator × Live → Type 0 where
  allocates :
      {a : InodeAllocator} {live : Live}
      → a.next_inode + 1 < 2 ^ 64
      → Step (a, live) ((allocate a).1, holding (allocate a).0 true live)
  releases :
      {a : InodeAllocator} {live : Live} (id : ℕ)
      → live id ≡ true
      → Step (a, live) (release id a, holding id false live)
  claims :
      {a : InodeAllocator} {live : Live} (id : ℕ)
      → live id ≡ false
      → Step (a, live) (allocate_specific id a, holding id true live)

-- A state that a fresh allocator reaches.
pub data Reachable (first : ℕ) : InodeAllocator × Live → Type 0 where
  fresh : Reachable first (with_next_inode first, λ _. false)
  after : {s t : InodeAllocator × Live} → Reachable first s → Step s t → Reachable first t

-- The number that `allocate` returns is not in use, and using it keeps the invariant.
allocate-IsFresh :
    (n : ℕ) (queue : List ℕ) (live : Live)
    → IsConsistent (record { next_inode = n; recycled = queue }) live
    → n + 1 < 2 ^ 64
    → let (id, b) = allocate (record { next_inode = n; recycled = queue }) in
      (live id ≡ false) × IsConsistent b (holding id true live)
unfolding allocate occurrences
allocate-IsFresh n [] live c h = (
  ground (arith, c.issued (n + 1)),
  record {
    once = λ j. ground (arith, c.once j, c.issued j);
    issued = λ j q. ground (arith, c.once j, c.issued j);
  },
)
allocate-IsFresh n (id ∷ rest) live c h = (
  ground (arith, c.once id),
  record { once = λ j. ground (arith, c.once j); issued = λ j q. ground (arith, c.issued j q) },
)

release-IsConsistent :
    (a : InodeAllocator) (live : Live) (id : ℕ)
    → IsConsistent a live
    → live id ≡ true
    → IsConsistent (release id a) (holding id false live)
unfolding release occurrences
release-IsConsistent a live id c h = record {
  once = λ j. ground (arith, c.once j, occurrences-++ j a.recycled (id ∷ []));
  issued = λ j q. ground (arith, c.issued j q, occurrences-++ j a.recycled (id ∷ []));
}

allocate_specific-IsConsistent :
    (a : InodeAllocator) (live : Live) (id : ℕ)
    → IsConsistent a live
    → live id ≡ false
    → IsConsistent (allocate_specific id a) (holding id true live)
unfolding allocate_specific
allocate_specific-IsConsistent a live id c h = record {
  once = λ j. ground (arith, c.once j, occurrences-remove_first j id a.recycled);
  issued = λ j q. ground (arith, c.issued j, occurrences-remove_first j id a.recycled);
}

Reachable-IsConsistent :
    (first : ℕ) {s : InodeAllocator × Live} → Reachable first s → IsConsistent s.0 s.1
unfolding with_next_inode occurrences
Reachable-IsConsistent first fresh = record { once = λ _. omega arith; issued = λ _ _. refl }
Reachable-IsConsistent first (after r (allocates h)) =
    (allocate-IsFresh _ _ _ (Reachable-IsConsistent first r) h).1
Reachable-IsConsistent first (after r (releases id h)) =
    release-IsConsistent _ _ id (Reachable-IsConsistent first r) h
Reachable-IsConsistent first (after r (claims id h)) =
    allocate_specific-IsConsistent _ _ id (Reachable-IsConsistent first r) h

-- In every state that a fresh allocator reaches by allocations below the end of the 64-bit range,
-- releases of numbers in use and claims of unused numbers, `allocate` returns a number that is not
-- in use, if `next_inode` is not at the end of that range.
pub allocate_lem :
    (first : ℕ) (a : InodeAllocator) (live : Live)
    → Reachable first (a, live)
    → a.next_inode + 1 < 2 ^ 64
    → live (allocate a).0 ≡ false
allocate_lem first a live r h = (allocate-IsFresh _ _ live (Reachable-IsConsistent first r) h).0
