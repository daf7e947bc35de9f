-- ===== src/RefCount/Sharing.antt =====
-- The copy-on-write protocol: who may write in place, and who must copy.
use corefs.Common.{
  ℕ, zero, suc, ◌+◌, ◌≤◌, ◌<◌, ◌≡◌, ◌≢◌, ◌↔◌, refl, sym, inl, inr, true, List, [], ◌∷◌, Bool-cases,
  leb, ◌==◌, >>=-ok, pure, ok, length, get_or, arith,
}
use corefs.RefCount.{
  RefCountTable, get, on_table, BlockSharing, in_place, must_copy, all_counts, acquire_extent,
  release_extent, register_fresh, clone_extent, cow_write,
}
use corefs.RefCount.Table.{IsValid, count_at}
use corefs.RefCount.Acquire.{Bumped, acquired}
use corefs.RefCount.Release.{sole_blocks, release_extent-acquire_extent}
use corefs.Extent.{Extent, block_of, FitsWord, in_run, in_extent}

get_or_past {ℓ} : {A : Type ℓ} (xs : List A) (i : ℕ) (d : A) → length xs ≤ i → get_or xs i d ≡ d
get_or_past [] i d h = refl
get_or_past (x ∷ xs) zero d h = absurd (omega arith)
get_or_past (x ∷ xs) (suc i) d h = get_or_past xs i d (omega arith)

-- On a valid table `get` is the counter, past the capacity too.
pub get-count_at : (t : RefCountTable) (b : ℕ) → IsValid t → get t b ≡ count_at t b
unfolding get
get-count_at t b v = elim (Bool-cases (leb t.capacity b)) [
  | inl past ↦ rw past (sym (get_or_past t.counters b 0 (ground (arith, v.sized))))
  | inr inside ↦ rw inside
]

-- Every block of the extent has the count `c`.
abbrev pub CountIs : RefCountTable → Extent → ℕ → Type 0
CountIs t ext c = (b : ℕ) → in_extent ext b ≡ true → count_at t b ≡ c

module _ (ext : Extent) (fits : FitsWord ext) (c : ℕ) (t : RefCountTable) (v : IsValid t) where
  all_counts_sound :
      (n i : ℕ)
      → i + n ≡ ext.length_blocks
      → all_counts ext c t n i ≡ true
      → (b : ℕ) → in_run (ext.physical_block + i) n b ≡ true
      → count_at t b ≡ c
  unfolding all_counts
  all_counts_sound zero i e h b q = absurd (ground arith)
  all_counts_sound (suc n) i e h b q = elim (Bool-cases (b == ext.physical_block + i)) [
    | inl here ↦ ground (arith, get-count_at t b v, fits)
    | inr later ↦ all_counts_sound n (i + 1) (omega arith) (ground arith) b (ground arith)
  ]

  all_counts_complete :
      (n i : ℕ) → i + n ≡ ext.length_blocks → CountIs t ext c → all_counts ext c t n i ≡ true
  unfolding all_counts
  all_counts_complete zero i e h = refl
  all_counts_complete (suc n) i e h = ground (
    arith,
    get-count_at t (block_of ext i) v,
    h (block_of ext i),
    fits,
    all_counts_complete n (i + 1) (omega arith) h,
  )

  -- The loop's test passes exactly if every block of the extent has the count.
  pub all_counts_iff : (all_counts ext c t ext.length_blocks 0 ≡ true) ↔ CountIs t ext c
  all_counts_iff = (
    λ h b q. all_counts_sound ext.length_blocks 0 (omega arith) h b (ground arith),
    λ h. all_counts_complete ext.length_blocks 0 (omega arith) h,
  )

sole_blocks_none :
    (t : RefCountTable) (p n : ℕ)
    → ((b : ℕ) → in_run p n b ≡ true → count_at t b ≢ 1)
    → sole_blocks t p n ≡ []
sole_blocks_none t p zero h = refl
sole_blocks_none t p (suc n) h =
    ground (arith, h p (ground arith), sole_blocks_none t (p + 1) n (λ b q. h b (ground arith)))

module _ (ext : Extent) (fits : FitsWord ext) (s : BlockSharing) (v : IsValid s.table) where
  -- Once an extent whose blocks are all in use is cloned, a write to it must copy: the writer
  -- drops its references, no block becomes free, and the table is the one before the clone.
  pub cow_write-clone_extent :
      {s' : BlockSharing}
      → 0 < ext.length_blocks
      → ((b : ℕ) → in_extent ext b ≡ true → 0 < count_at s.table b)
      → clone_extent ext s ≡ (ok tt, s')
      → cow_write ext s' ≡ (ok (must_copy []), s)
  unfolding cow_write clone_extent
  cow_write-clone_extent {s'} pos used e =
      let acq : acquire_extent ext s.table ≡ (ok tt, s'.table) = λ i. ((e i).0, (e i).1.table) in
      let m = acquired ext s.table s'.table fits v acq in
      let twice = all_counts_iff ext fits 1 s'.table m.valid in
      elim (Bool-cases (all_counts ext 1 s'.table ext.length_blocks 0)) [
        | inl once ↦
            absurd
              (ground (arith, twice.0 once p (ground arith), m.counts p, used p (ground arith)))
        | inr shared ↦ rw shared (
            >>=-ok (on_table (release_extent ext)) (λ freed. pure (must_copy freed)) s'
              (back m acq))
      ]
    where
      p : ℕ
      p = ext.physical_block

      none_freed :
          Bumped s.table p ext.length_blocks s'.table
          → sole_blocks s'.table p ext.length_blocks ≡ []
      none_freed m =
          sole_blocks_none s'.table p ext.length_blocks
            (λ b q. ground (arith, m.counts b, used b q))

      back :
          Bumped s.table p ext.length_blocks s'.table
          → acquire_extent ext s.table ≡ (ok tt, s'.table)
          → on_table (release_extent ext) s' ≡ (ok [], s)
      back m acq = rw (release_extent-acquire_extent ext s.table fits v acq, none_freed m)

  -- An extent that was just registered belongs to its one owner: a write goes in place and changes
  -- nothing.
  pub cow_write-register_fresh :
      {s' : BlockSharing}
      → register_fresh ext s ≡ (ok tt, s')
      → cow_write ext s' ≡ (ok in_place, s')
  unfolding cow_write register_fresh
  cow_write-register_fresh {s'} e =
      elim (Bool-cases (all_counts ext 0 s.table ext.length_blocks 0)) [
        | inr used ↦ absurd (cc (rw used at e))
        | inl fresh ↦
            let acq : acquire_extent ext s.table ≡ (ok tt, s'.table) =
              let e' = rw fresh at e in λ i. ((e' i).0, (e' i).1.table) in
            let m = acquired ext s.table s'.table fits v acq in
            let were_free = (all_counts_iff ext fits 0 s.table v).0 fresh in
            let once =
              (all_counts_iff ext fits 1 s'.table m.valid).1
                (λ b q. ground (arith, m.counts b, were_free b q)) in
            rw once
      ]
