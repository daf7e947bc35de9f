-- ===== src/Tests/Services.antt =====
-- Runs of the quota service and of the inode numbers.
use corefs.Common.{
  ◌≡◌, ◌≢◌, refl, true, false, some, List, [], ◌∷◌, ok, err, policy_violation, state, arith,
}
use corefs.InodeAllocator.{
  InodeAllocator, with_next_inode, allocate, release, remove_first, allocate_specific,
}
use corefs.InodeAllocator.Unique.{
  Live, holding, allocates, releases, claims, Reachable, fresh, after, allocate_lem,
}
use corefs.Quota.{
  pos, negsuc, QuotaPolicy, Inode, file, directory, apply_delta, exceeds, check_limits, check_stats,
  enforce_delta,
}
use corefs.Quota.Verdict.{
  Verdict, Usage, nothing, unused, used, check_stats-Verdict, enforce_delta-Verdict,
}

-- Two files of at most 100 bytes in all
abbrev two_files : QuotaPolicy
two_files = record { max_files = some 2; max_bytes = some 100 }

check_stats_runs :
    (check_stats two_files 1 60 (pos 1) (pos 40) ≡ ok tt)
    × (check_stats two_files 1 60 (pos 1) (pos 41) ≡ err policy_violation)
    × (check_stats two_files 1 60 (negsuc 1) (pos 0) ≡ err state)
unfolding check_stats check_limits exceeds apply_delta
check_stats_runs = (refl, refl, refl)

check_stats-Verdict_example :
    Verdict two_files 1 60 (pos 1) (pos 41) (check_stats two_files 1 60 (pos 1) (pos 41))
check_stats-Verdict_example =
    check_stats-Verdict two_files 1 60 (pos 1) (pos 41) (omega arith) (omega arith)

abbrev home : List Inode
home = record { kind = directory; size = 4096 } ∷ record { kind = file; size = 60 } ∷ []

file_is_other : file ≢ directory
file_is_other = λ e. ground arith

-- The directory is not counted, the file is.
home-Usage : Usage home 1 60
home-Usage = unused refl (used file_is_other nothing)

enforce_delta-Verdict_example :
    Verdict two_files 1 60 (pos 1) (pos 40) (enforce_delta two_files home (pos 1) (pos 40))
enforce_delta-Verdict_example =
    enforce_delta-Verdict two_files home 1 60 (pos 1) (pos 40) home-Usage (omega arith)
      (omega arith)

-- Inode 1 is allocated and released, and inode 7 claimed: the next one is 1 again.
abbrev recycling : InodeAllocator
recycling = record { next_inode = 7; recycled = 1 ∷ [] }

abbrev only_seven : Live
only_seven = holding 7 true (holding 1 false (holding 1 true (λ _. false)))

recycling-Reachable : Reachable 0 (recycling, only_seven)
unfolding with_next_inode allocate release allocate_specific remove_first
recycling-Reachable =
    after (after (after fresh (allocates (omega arith))) (releases 1 refl)) (claims 7 refl)

allocate_lem_example : only_seven (allocate recycling).0 ≡ false
allocate_lem_example = allocate_lem 0 recycling only_seven recycling-Reachable (omega arith)
