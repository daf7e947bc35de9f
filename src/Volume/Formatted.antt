-- ===== src/Volume/Formatted.antt =====
-- A device that was formatted holds an empty volume with an empty journal.
use corefs.Common.{
  ℕ, zero, suc, ◌+◌, ◌-◌, ◌*◌, ◌≤◌, ◌<◌, ◌^◌, ◌≡◌, refl, ap, ◌∙◌, Option, List, [], ◌∷◌, ◌++◌,
  length, length-append, ok, err, state, Method, ◌>>=◌, Returns, Returns->>=, Returns-after, pure,
  arith,
}
use corefs.Bytes.{slice, take, zeros, length-zeros}
use corefs.Layout.{LayoutGeometry, plan}
use corefs.Layout.Plan.{IsOrdered, IsFitted, FitsWords, plan-IsOrdered, plan-IsFitted, plan_sizes}
use corefs.Superblock.{Superblock, for_new_volume, geometry, check_fields, encode_block}
use corefs.Superblock.Codec.{FitsFields}
use corefs.Device.{BlockDevice}
use corefs.Device.Lawful.{Laws}
use corefs.Device.Blocks.{Usable, block_at}
use corefs.Journal.Transaction as JournalTransaction
use corefs.Journal.Transaction.{open_journal}
use corefs.Volume.Copies.{read_superblock_at, read_sb_with_fallbacks}
use corefs.Volume.InodeRecords.{read_inode_record, verify_bitmap, verify_bitmap_integrity}
use corefs.Volume.InodeUpdate.{read_inode_record-same}
use corefs.Volume.State.{write_superblocks, is_payload_kind, read_payload, load_state}
use corefs.Volume.Loaded.{read_superblock_at_lem, read_sb_lem}
use corefs.Volume.Written.{Ready, Changed, sync-Ready, write_superblocks_lem}
use corefs.Volume.FreshJournal.{fresh_journal, format_lem, open_fresh}
use corefs.Volume.Roundtrip.{IsFormatted}
use corefs.Volume.Format.{
  params_of, FormatOptions, FormatReport, system_inode, write_bitmaps, write_table, write_roots,
  format_device,
}
use corefs.Volume.Regions.{write_bitmaps_lem, write_table_lem}

length-cut : (n : ℕ) (xs : List ℕ) → length (take n xs) + (n - length xs) ≡ n
unfolding take
length-cut zero xs = omega arith
length-cut (suc n) [] = omega arith
length-cut (suc n) (x ∷ xs) = omega (arith, length-cut n xs)

-- The label is cut or filled to 32 bytes.
length-label : (label : List ℕ) → length (take 32 label ++ zeros (32 - length label)) ≡ 32
length-label label = omega (
  arith,
  length-append (take 32 label) (zeros (32 - length label)),
  length-zeros (32 - length label),
  length-cut 32 label,
)

module _ (g : LayoutGeometry) (o : IsOrdered g) (fitted : IsFitted g) (uuid label : List ℕ)
    (now : ℕ) (time : now < 2 ^ 64) (id : length uuid ≡ 16) where
  abbrev new_sb : Superblock
  new_sb = for_new_volume g uuid label now

  new-FitsFields : FitsFields new_sb
  unfolding for_new_volume
  new-FitsFields = omega (arith, o, fitted, time, id, length-label label)

  new-accepted : check_fields new_sb ≡ ok new_sb
  unfolding for_new_volume check_fields
  new-accepted = refl

  new-geometry : geometry new_sb ≡ g
  unfolding for_new_volume geometry
  new-geometry =
      let rest : g.total_blocks - g.data_start ≡ g.data_blocks = omega (arith, o.data_last) in
      ap (λ k. record g { data_blocks = k }) rest

module _ (dev : BlockDevice) (IsValid : dev.Device → Type 0) (contents : dev.Device → List ℕ)
    (laws : Laws dev IsValid contents) {State : Type 0} (serialize : State → Option (List ℕ))
    (deserialize : List ℕ → Option State) where
  -- An empty volume: its superblock is found and can be written again, its journal opens with an empty
  -- log, and it has no state to load.
  pub record EmptyVolume (g : LayoutGeometry) (after : dev.Device) : Type 0 where
    pub formatted : IsFormatted dev IsValid contents laws g 1 after
    pub journal :
        open_journal dev formatted.superblock after
        ≡ ok (fresh_journal dev formatted.superblock after)
    pub nothing : load_state dev serialize deserialize after ≡ err state

  module _ (g : LayoutGeometry) (o : IsOrdered g) (fitted : IsFitted g) (uuid label : List ℕ)
      (now : ℕ) (time : now < 2 ^ 64) (id : length uuid ≡ 16) where
    abbrev sb : Superblock
    sb = new_sb g o fitted uuid label now time id

    -- No bitmap is checked, and the inode of slot 0 owns no blocks.
    load_state-empty :
        (d : dev.Device)
        → read_sb_with_fallbacks dev d ≡ ok sb
        → read_inode_record dev g 0 d ≡ ok (system_inode now)
        → load_state dev serialize deserialize d ≡ err state
    unfolding load_state for_new_volume verify_bitmap_integrity verify_bitmap read_payload
        is_payload_kind system_inode
    load_state-empty d found owner =
        rw (found, load_state) rw (new-geometry g o fitted uuid label now time id) rw
          (owner, load_state) refl

    -- A copy of the superblock behind the journal stays readable while that is formatted.
    copy_lem :
        (block : ℕ) (d1 d2 d3 : dev.Device)
        → block < g.total_blocks
        → g.data_start ≤ block
        → Changed dev IsValid contents laws g o g.journal_start g.data_start d1 d2
        → Ready dev IsValid contents laws g o d3
        → contents d3 ≡ contents d2
        → block_at dev IsValid contents laws block d1 ≡ encode_block sb
        → read_superblock_at dev block d3 ≡ ok sb
    unfolding block_at
    copy_lem block d1 d2 d3 inside far c r same is =
        read_superblock_at_lem dev IsValid contents laws block d3 sb r.usable
          (omega (arith, r.room, inside)) (new-FitsFields g o fitted uuid label now time id)
          (new-accepted g o fitted uuid label now time id)
          (ap (slice (block * 4096) 4096) same
            ∙ c.behind (block * 4096) 4096 (omega (arith, far)) (omega (arith, inside))
            ∙ is)

    write_roots_lem :
        (d : dev.Device)
        → Ready dev IsValid contents laws g o d
        → read_inode_record dev g 0 d ≡ ok (system_inode now)
        → 2 ≤ g.journal_blocks
        → g.data_start ≤ g.tertiary_superblock_block
        → Returns (write_roots dev g sb) d λ report d'.
          (report.geometry ≡ g) × (report.uuid ≡ uuid) × (report.generation ≡ 1) × EmptyVolume g d'
    unfolding write_roots for_new_volume block_at
    write_roots_lem d r owner two behind =
        let report : FormatReport = record { geometry = g; uuid = uuid; generation = 1 } in
        let fields = new-FitsFields g o fitted uuid label now time id in
        let accepted = new-accepted g o fitted uuid label now time id in
        let same_geo = new-geometry g o fitted uuid label now time id in
        Returns->>= (write_superblocks dev g sb)
          (λ _. JournalTransaction.format dev sb >>= λ _. dev.sync >>= λ _. pure report) d
          (write_superblocks_lem dev IsValid contents laws g o sb fields d r
            (omega (arith, behind, o)))
          λ _ d1 c1.
            Returns->>= (JournalTransaction.format dev sb) (λ _. dev.sync >>= λ _. pure report) d1
              (format_lem dev IsValid contents laws g o sb refl refl two d1 c1.ready)
              λ _ d2 (c2, header).
                Returns->>= dev.sync (λ _. pure report) d2
                  (sync-Ready dev IsValid contents laws g o d2 c2.ready)
                  λ _ d3 (r3, same).
                    let found : read_sb_with_fallbacks dev d3 ≡ ok sb =
                      read_sb_lem dev IsValid contents laws d3 sb r3.usable
                        (omega (arith, r3.room, o)) fields accepted
                        (ap (slice 4096 4096) same
                          ∙ c2.in_front _ _ (omega (arith, o))
                          ∙ c1.first) in
                    let owner' : read_inode_record dev g 0 d3 ≡ ok (system_inode now) =
                      read_inode_record-same dev IsValid contents laws g o d d3 0 r.usable r.room
                        r3.usable r3.room fitted.some_inode
                        (λ off len far near.
                          ap (slice off len) same
                          ∙ c2.in_front off len near
                          ∙ c1.between off len (omega (arith, far, o))
                              (omega (arith, near, behind, o)))
                      ∙ owner in
                    (
                      report,
                      d3,
                      refl,
                      (
                        refl,
                        refl,
                        refl,
                        record {
                          formatted = record {
                            usable = r3.usable;
                            room = r3.room;
                            superblock = sb;
                            found = found;
                            middle =
                                copy_lem g.tertiary_superblock_block d1 d2 d3
                                  (omega (arith, o.tertiary_middle, o.data_last, o.room)) behind c2
                                  r3 same c1.middle;
                            last =
                                copy_lem g.secondary_superblock_block d1 d2 d3
                                  (omega (arith, o.secondary_last))
                                  (omega (arith, o.secondary_last, o.data_last, o.room)) c2 r3 same
                                  c1.last;
                            same_geometry = same_geo;
                            fields = fields;
                            accepted = accepted;
                            generation = refl;
                          };
                          journal =
                              open_fresh dev IsValid contents laws g o sb refl refl two d3 r3
                                (ap (slice (g.journal_start * 4096) 4096) same ∙ header);
                          nothing = load_state-empty d3 found owner';
                        },
                      ),
                    )

  -- On a writable device whose sectors divide blocks, `format_device` returns, if `plan` accepts the
  -- sizes, these stay below the word bounds, the journal has at least two blocks, the identifier has 16
  -- bytes, the time is a 64-bit word and the block in the middle of the volume is a data block: the
  -- device then holds a volume of that geometry in its first generation, each of its three superblocks
  -- readable and the same, its journal opens with an empty log, and `load_state` finds no state. The
  -- report says the geometry, the identifier and generation 1.
  pub format_device-EmptyVolume :
      (d : dev.Device) (options : FormatOptions) (now : ℕ) {g : LayoutGeometry}
      → Usable dev IsValid contents laws d
      → plan (params_of dev d options) ≡ ok g
      → options.inode_count < 2 ^ 63
      → options.journal_blocks < 2 ^ 62
      → 2 ≤ options.journal_blocks
      → length options.uuid ≡ 16
      → now < 2 ^ 64
      → g.data_start ≤ g.tertiary_superblock_block
      → Returns (format_device dev options now) d λ report d'.
        (report.geometry ≡ g)
        × (report.uuid ≡ options.uuid)
        × (report.generation ≡ 1)
        × EmptyVolume g d'
  unfolding format_device
  format_device-EmptyVolume d options now {g} u planned few short two id time behind =
      let p = params_of dev d options in
      let fits : FitsWords p =
        (omega (arith, (laws.sized d u.valid).1), omega (arith, few), omega (arith, short)) in
      let o = plan-IsOrdered p fits planned in
      let fitted = plan-IsFitted p fits planned in
      let (total, journal) = plan_sizes p planned in
      let r : Ready dev IsValid contents laws g o d = record {
        usable = u;
        room = omega (arith, total);
      } in
      let roots : LayoutGeometry → Method dev.Device FormatReport =
        λ h. write_roots dev h (for_new_volume h options.uuid options.label now) in
      Returns-after (λ d. (plan (params_of dev d options), d))
        (λ h. write_bitmaps dev h >>= λ _. write_table dev h now >>= λ _. roots h) d
        (ap (λ x. (x, d)) planned)
        (Returns->>= (write_bitmaps dev g) (λ _. write_table dev g now >>= λ _. roots g) d
          (write_bitmaps_lem dev IsValid contents laws g o fitted now time d r)
          λ _ d1 r1.
            Returns->>= (write_table dev g now) (λ _. roots g) d1
              (write_table_lem dev IsValid contents laws g o fitted now time d1 r1)
              λ _ d2 (r2, owner).
                write_roots_lem g o fitted options.uuid options.label now time id d2 r2 owner
                  (omega (arith, journal, two)) behind)
