-- ===== src/Allocator/Inodes.antt =====
-- Inode slots: `allocate_inode` takes the lowest free one, whatever was freed before.
use mathlib.Core.Path.{subst}
use corefs.Common.{
  ℕ, ◌+◌, ◌≤◌, ◌<◌, ◌≡◌, sym, ap, inl, inr, Bool, true, false, Bool-cases, ltb, leb, Option, none,
  some, if◌then◌else◌, CoreFsResult, ok, err, state, invalid_input, policy_violation, Method,
  >>=-ok, >>=-err, arith,
}
use corefs.Bitmap.{Bitmap, clear_bit}
use corefs.Bitmap.View
use corefs.Bitmap.View.{bit_at, SetBit, clear_bit_lem, clear_bit-past}
use corefs.Bitmap.Search.{Found, full, lowest, allocate_first-Found}
use corefs.Allocator.{OndiskAllocator, on_inodes, allocate_inode, free_inode}

-- No slot from the floor on to the hint is free.
pub record HintIsLow (a : OndiskAllocator) : Type 0 where
  pub valid : View.IsValid a.inode_bitmap
  pub above_floor : a.reserved_inode_floor ≤ a.inode_hint
  pub taken :
      (j : ℕ) → a.reserved_inode_floor ≤ j → j < a.inode_hint → bit_at a.inode_bitmap j ≡ true

pub data SlotTaken (a : OndiskAllocator) : CoreFsResult ℕ × OndiskAllocator → Type 0 where
  slots_full :
      ((j : ℕ)
        → a.reserved_inode_floor ≤ j
        → j < a.inode_bitmap.capacity
        → bit_at a.inode_bitmap j ≡ true)
      → SlotTaken a (err state, a)
  slot_at :
      (i : ℕ) (b : OndiskAllocator)
      → a.reserved_inode_floor ≤ i
      → i < a.inode_bitmap.capacity
      → ((j : ℕ) → a.reserved_inode_floor ≤ j → j < i → bit_at a.inode_bitmap j ≡ true)
      → bit_at a.inode_bitmap i ≡ false
      → SetBit a.inode_bitmap i true b.inode_bitmap
      → HintIsLow b
      → SlotTaken a (ok i, b)

slot_outcome :
    (a : OndiskAllocator)
    → HintIsLow a
    → {r : Option ℕ × Bitmap} → Found a.inode_bitmap a.inode_hint r
    → SlotTaken a (elim r.0 [
      | some idx ↦ (ok idx, record a { inode_bitmap = r.1; inode_hint = idx + 1 })
      | none ↦ (err state, record a { inode_bitmap = r.1 })
    ])
slot_outcome a low (full all) = slots_full λ j p q. elim (Bool-cases (ltb j a.inode_hint)) [
  | inl e ↦ low.taken j p (ground arith)
  | inr e ↦ all j (ground arith) q
]
slot_outcome a low (lowest i out p q all is_free s) =
    slot_at i _ (omega (arith, low.above_floor, p)) q before is_free s (record {
      valid = s.valid;
      above_floor = omega (arith, low.above_floor, p);
      taken = λ j l m. ground (arith, s.bits_at j, before j l);
    })
  where
    before : (j : ℕ) → a.reserved_inode_floor ≤ j → j < i → bit_at a.inode_bitmap j ≡ true
    before j l m = elim (Bool-cases (ltb j a.inode_hint)) [
      | inl e ↦ low.taken j l (ground arith)
      | inr e ↦ all j (ground arith) m
    ]

-- Where no slot from the reserved floor on to the hint is free: `allocate_inode` fails, changing
-- nothing, only if every slot from the floor on is taken; else it takes the lowest free one from the
-- floor on, changes no other, and no slot from the floor on to the new hint is free.
pub allocate_inode-SlotTaken : (a : OndiskAllocator) → HintIsLow a → SlotTaken a (allocate_inode a)
unfolding allocate_inode
allocate_inode-SlotTaken a low =
    slot_outcome a low (allocate_first-Found a.inode_hint a.inode_bitmap low.valid)

pub data SlotFreed (a : OndiskAllocator) (index : ℕ)
    : CoreFsResult (Unit {0}) × OndiskAllocator → Type 0 where
  reserved : index < a.reserved_inode_floor → SlotFreed a index (err policy_violation, a)
  no_slot : a.inode_bitmap.capacity ≤ index → SlotFreed a index (err invalid_input, a)
  freed :
      (b : OndiskAllocator)
      → a.reserved_inode_floor ≤ index
      → index < a.inode_bitmap.capacity
      → SetBit a.inode_bitmap index false b.inode_bitmap
      → HintIsLow b
      → SlotFreed a index (ok tt, b)

-- What follows the clearing of the slot.
abbrev lower_hint : ℕ → Method OndiskAllocator (Unit {0})
lower_hint index b = (ok tt, if ltb index b.inode_hint then record b { inode_hint = index } else b)

slot_freed :
    (index : ℕ) (a : OndiskAllocator) (out : Bitmap)
    → HintIsLow a
    → a.reserved_inode_floor ≤ index
    → index < a.inode_bitmap.capacity
    → SetBit a.inode_bitmap index false out
    → SlotFreed a index (lower_hint index (record a { inode_bitmap = out }))
slot_freed index a out low p q s = elim (Bool-cases (ltb index a.inode_hint)) [
  | inl e ↦ rw e (
      freed _ p q s (record {
        valid = s.valid;
        above_floor = p;
        taken = λ j l m. ground (arith, s.bits_at j, low.taken j l);
      }))
  | inr e ↦ rw e (
      freed _ p q s (record {
        valid = s.valid;
        above_floor = low.above_floor;
        taken = λ j l m. ground (arith, s.bits_at j, low.taken j l);
      }))
]

-- Where no slot from the reserved floor on to the hint is free: `free_inode` refuses the slots below
-- the floor and those past the capacity, changing nothing; else it frees its slot, changes no other,
-- and no slot from the floor on to the new hint is free.
pub free_inode-SlotFreed :
    (index : ℕ) (a : OndiskAllocator) → HintIsLow a → SlotFreed a index (free_inode index a)
unfolding free_inode
free_inode-SlotFreed index a low = elim (Bool-cases (ltb index a.reserved_inode_floor)) [
  | inl e ↦ rw e (reserved (ground arith))
  | inr e ↦ rw e (elim (Bool-cases (leb a.inode_bitmap.capacity index)) [
    | inl past ↦
        subst (SlotFreed a index)
          (sym (
            >>=-err (on_inodes (clear_bit index)) (λ _. lower_hint index) a
              (refused (ground arith))))
          (no_slot (ground arith))
    | inr inside ↦
        let cleared = clear_bit_lem a.inode_bitmap low.valid index (ground arith) in
        subst (SlotFreed a index)
          (sym (>>=-ok (on_inodes (clear_bit index)) (λ _. lower_hint index) a (runs cleared.0)))
          (slot_freed index a _ low (ground arith) (ground arith) cleared.1)
  ])
]
  where
    refused :
        a.inode_bitmap.capacity ≤ index → on_inodes (clear_bit index) a ≡ (err invalid_input, a)
    refused h =
        ap (λ p. (p.0, record a { inode_bitmap = p.1 })) (clear_bit-past a.inode_bitmap index h)

    runs :
        {b : Bool}
        → (clear_bit index a.inode_bitmap).0 ≡ ok b
        → on_inodes (clear_bit index) a
          ≡ (ok b, record a { inode_bitmap = (clear_bit index a.inode_bitmap).1 })
    runs e = λ k. (e k, record a { inode_bitmap = (clear_bit index a.inode_bitmap).1 })
