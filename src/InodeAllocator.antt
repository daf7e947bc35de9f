-- ===== src/InodeAllocator.antt =====
-- corefs-core/src/storage/allocator.rs: inode numbers in order, the released ones first.
pub mod Unique
use corefs.Common.{ℕ, ◌+◌, Bool, true, false, List, [], ◌∷◌, ◌++◌, ltb, ◌==◌, if◌then◌else◌}
use corefs.Common.Word.{add64}

pub record InodeAllocator : Type 0 where
  pub next_inode : ℕ
  pub recycled : List ℕ

-- `InodeAllocator::with_next_inode`
unfoldable pub with_next_inode : ℕ → InodeAllocator
with_next_inode n = record { next_inode = n; recycled = [] }

-- `InodeAllocator::allocate`: the id, and the allocator after it.
unfoldable pub allocate : InodeAllocator → ℕ × InodeAllocator
allocate a = elim a.recycled [
  | id ∷ rest ↦ (id, record a { recycled = rest })
  | [] ↦ (add64 a.next_inode 1, record a { next_inode = add64 a.next_inode 1 })
]

-- `InodeAllocator::release`
unfoldable pub release : ℕ → InodeAllocator → InodeAllocator
release id a = record a { recycled = a.recycled ++ id ∷ [] }

-- The queue without the first entry that equals `id`, as it is where there is none.
unfoldable pub remove_first : ℕ → List ℕ → List ℕ
remove_first id [] = []
remove_first id (candidate ∷ rest) =
    let shorter = remove_first id rest in if candidate == id then rest else candidate ∷ shorter

-- `InodeAllocator::allocate_specific`
unfoldable pub allocate_specific : ℕ → InodeAllocator → InodeAllocator
allocate_specific id a = record {
  next_inode = if ltb a.next_inode id then id else a.next_inode;
  recycled = remove_first id a.recycled;
}
