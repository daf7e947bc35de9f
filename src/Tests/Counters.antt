-- ===== src/Tests/Counters.antt =====
-- Runs of the reference counter model.
use corefs.Common.{
  zero, suc, get_or, ◌≤◌, ◌<◌, ℕ, ◌≡◌, refl, [], ◌∷◌, ok, err, policy_violation, true, arith,
}
use corefs.Extent.{Extent, in_extent}
use corefs.RefCount.{
  RefCountTable, BlockSharing, get, all_counts, acquire_from, roll_back, acquire, release,
  acquire_extent, release_extent, register_fresh, clone_extent, cow_write, must_copy,
}
use corefs.RefCount.Table.{IsValid}
use corefs.RefCount.Acquire.{AfterAcquireExtent, acquire_extent-atomic}
use corefs.RefCount.Release.{AfterReleaseExtent, release_extent_lem, release_extent-acquire_extent}
use corefs.RefCount.Sharing.{cow_write-clone_extent}

abbrev counters : RefCountTable
counters = record { counters = 0 ∷ 1 ∷ 2 ∷ 65535 ∷ []; capacity = 4 }

abbrev first_three : Extent
first_three = record { logical_block = 0; length_blocks = 3; physical_block = 0 }

abbrev last_two : Extent
last_two = record { logical_block = 0; length_blocks = 2; physical_block = 2 }

counters-IsValid : IsValid counters
counters-IsValid = record { sized = refl; bounded = at_most; small = omega arith }
  where
    at_most : (b : ℕ) → get_or counters.counters b 0 ≤ 65535
    at_most zero = omega arith
    at_most (suc zero) = omega arith
    at_most (suc (suc zero)) = omega arith
    at_most (suc (suc (suc zero))) = omega arith
    at_most (suc (suc (suc (suc b)))) = omega arith

-- The whole extent is counted, or nothing is.
acquire_extent_runs :
    (acquire_extent first_three counters
      ≡ (ok tt, record { counters = 1 ∷ 2 ∷ 3 ∷ 65535 ∷ []; capacity = 4 }))
    × (acquire_extent last_two counters ≡ (err policy_violation, counters))
unfolding acquire_extent acquire_from acquire roll_back release
acquire_extent_runs = (refl, refl)

acquire_extent-atomic_example :
    AfterAcquireExtent counters first_three (acquire_extent first_three counters)
acquire_extent-atomic_example =
    acquire_extent-atomic first_three (omega arith) counters counters-IsValid

release_extent_lem_example :
    AfterReleaseExtent counters first_three (release_extent first_three counters)
release_extent_lem_example = release_extent_lem first_three (omega arith) counters counters-IsValid

abbrev counted_once_more : RefCountTable
counted_once_more = record { counters = 1 ∷ 2 ∷ 3 ∷ 65535 ∷ []; capacity = 4 }

release_extent-acquire_extent_example :
    release_extent first_three counted_once_more ≡ (ok (0 ∷ []), counters)
release_extent-acquire_extent_example =
    release_extent-acquire_extent first_three counters (omega arith) counters-IsValid
      acquire_extent_runs.0

abbrev middle : Extent
middle = record { logical_block = 0; length_blocks = 2; physical_block = 1 }

abbrev owner : BlockSharing
owner = record { table = counters }

abbrev two_owners : BlockSharing
two_owners = record { table = record { counters = 0 ∷ 2 ∷ 3 ∷ 65535 ∷ []; capacity = 4 } }

clone_middle : clone_extent middle owner ≡ (ok tt, two_owners)
unfolding clone_extent acquire_extent acquire_from acquire
clone_middle = refl

cow_write-clone_extent_example : cow_write middle two_owners ≡ (ok (must_copy []), owner)
cow_write-clone_extent_example =
    cow_write-clone_extent middle (omega arith) owner counters-IsValid (omega arith)
      (λ b q. in_use_in_middle b q) clone_middle
  where
    in_use_in_middle : (b : ℕ) → in_extent middle b ≡ true → 0 < get_or counters.counters b 0
    in_use_in_middle zero q = absurd (ground arith)
    in_use_in_middle (suc zero) q = omega arith
    in_use_in_middle (suc (suc zero)) q = omega arith
    in_use_in_middle (suc (suc (suc b))) q = absurd (ground arith)

abbrev first : Extent
first = record { logical_block = 0; length_blocks = 1; physical_block = 0 }

abbrev registered : BlockSharing
registered = record { table = record { counters = 1 ∷ 1 ∷ 2 ∷ 65535 ∷ []; capacity = 4 } }

register_first : register_fresh first owner ≡ (ok tt, registered)
unfolding register_fresh all_counts acquire_extent acquire_from acquire get
register_first = refl
