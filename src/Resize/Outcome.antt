-- ===== src/Resize/Outcome.antt =====
-- What growing does to a device, and when it is refused.
use mathlib.Core.Path.{subst}
use native.Mathlib.Nat.{dvd-mul_left_of_dvd, mod-eq-zero_of_dvd, dvd_of_mod-eq-zero, mod-eq_of_lt}
use corefs.Common.{
  ℕ, ◌+◌, ◌-◌, ◌*◌, ◌/◌, ◌%◌, ◌^◌, ◌≤◌, ◌<◌, ◌≡◌, ◌≢◌, ◌⊎◌, refl, sym, ap, ◌∙◌, inl, inr, true,
  false, Bool-cases, List, ltb, leb, min, CoreFsResult, ok, err, invalid_input, policy_violation,
  state, arith, Returns, Returns->>=, Returns-after, >>=-ok, >>=-err, ◌>>=◌, ◌>>◌, pure, Method,
}
use corefs.Common.Word.{mul64}
use corefs.Bytes.{slice}
use corefs.Bitmap.{Bitmap}
use corefs.Checksum.{hash}
use corefs.Checksum.Bytewise.{hash-lt}
use corefs.Superblock.{Superblock, encode_block, check_fields}
use corefs.Superblock.Codec.{FitsFields, length-encode_block}
use corefs.Device.{BlockDevice}
use corefs.Device.Lawful.{Laws}
use corefs.Device.Blocks
use corefs.Device.Blocks.{Usable, block_at, Inside, Wrote}
use corefs.Volume.Copies.{read_superblock_at, read_sb_with_fallbacks}
use corefs.Volume.Loaded.{read_superblock_at_lem, read_sb_lem}
use corefs.Resize.{
  GrowReport, grown_superblock, grown, grow_bitmap, perform, grow_from, check_growth, grow_device,
}
use corefs.Resize.Grow.{Region, Pinned, wrapped, grow_bitmap-grown}
use corefs.Resize.Placed.{put, copies, perform-err, Copies, put_copies, sync-Copies}

-- The superblock `sb` for `n` blocks, with the checksum of the bitmap
abbrev pub resized : Superblock → ℕ → ℕ → Superblock
resized sb n crc = record sb {
  total_blocks = n;
  free_blocks = min (sb.free_blocks + (n - sb.total_blocks)) (2 ^ 64 - 1);
  secondary_superblock_block = n - 1;
  tertiary_superblock_block = n / 2;
  block_bitmap_crc = crc;
}

resized-FitsFields :
    (sb : Superblock) (n crc : ℕ)
    → FitsFields sb
    → n < 2 ^ 64
    → crc < 2 ^ 32
    → FitsFields (resized sb n crc)
resized-FitsFields sb n crc v small h = record {
  magic = v.magic;
  version_major = v.version_major;
  version_minor = v.version_minor;
  block_size = v.block_size;
  total_blocks = small;
  free_blocks = omega arith;
  total_inodes = v.total_inodes;
  free_inodes = v.free_inodes;
  block_bitmap_start = v.block_bitmap_start;
  block_bitmap_blocks = v.block_bitmap_blocks;
  inode_bitmap_start = v.inode_bitmap_start;
  inode_bitmap_blocks = v.inode_bitmap_blocks;
  inode_table_start = v.inode_table_start;
  inode_table_blocks = v.inode_table_blocks;
  journal_start = v.journal_start;
  journal_blocks = v.journal_blocks;
  data_start = v.data_start;
  secondary_superblock_block = omega (arith, small);
  tertiary_superblock_block = omega (arith, small);
  feature_compat = v.feature_compat;
  feature_incompat = v.feature_incompat;
  feature_ro_compat = v.feature_ro_compat;
  uuid = v.uuid;
  label = v.label;
  created_at = v.created_at;
  last_mount_at = v.last_mount_at;
  last_write_at = v.last_write_at;
  mount_count = v.mount_count;
  generation = v.generation;
  state = v.state;
  payload_inode = v.payload_inode;
  block_bitmap_crc = h;
  inode_bitmap_crc = v.inode_bitmap_crc;
  layout_mode = v.layout_mode;
  root_inode = v.root_inode;
}

resized_checked :
    (sb : Superblock) (n crc : ℕ)
    → check_fields sb ≡ ok sb
    → check_fields (resized sb n crc) ≡ ok (resized sb n crc)
unfolding check_fields
resized_checked sb n crc passes = ground (arith, passes)

module _ (dev : BlockDevice) (IsValid : dev.Device → Type 0) (contents : dev.Device → List ℕ)
    (laws : Laws dev IsValid contents) (sb : Superblock) where
  -- The bytes of the bitmap's blocks
  unfoldable pub bitmap_of : dev.Device → List ℕ
  bitmap_of d = slice (sb.block_bitmap_start * 4096) (sb.block_bitmap_blocks * 4096) (contents d)

  -- A device that holds the volume `sb`, with whole sectors in a block and the bitmap behind the
  -- first copy of the superblock and in front of the volume's middle.
  pub record Holds (d : dev.Device) : Type 0 where
    pub valid : IsValid d
    pub whole : 4096 % (dev.geometry d).sector_size ≡ 0
    pub found : read_sb_with_fallbacks dev d ≡ ok sb
    pub fields : FitsFields sb
    pub accepted : check_fields sb ≡ ok sb
    pub behind_first : 2 ≤ sb.block_bitmap_start
    pub before_middle : sb.block_bitmap_start + sb.block_bitmap_blocks ≤ sb.total_blocks / 2
    pub bitmap : Region sb.block_bitmap_blocks (bitmap_of d)

  module _ (n : ℕ) where
    -- `after` is `before` grown: the bitmap has the units of both new copies set and no other one
    -- changed, the three copies of the superblock are those of the larger volume, and no other block
    -- has changed.
    pub record Grown (before after : dev.Device) : Type 0 where
      pub usable : Usable dev IsValid contents laws after
      pub same_geometry : dev.geometry after ≡ dev.geometry before
      pub bitmap : Bitmap
      pub pinned : Pinned (wrapped (bitmap_of before) n) n bitmap
      pub stored : bitmap_of after ≡ bitmap.bits
      pub found : read_sb_with_fallbacks dev after ≡ ok (resized sb n (hash bitmap.bits))
      pub first : read_superblock_at dev 1 after ≡ ok (resized sb n (hash bitmap.bits))
      pub middle : read_superblock_at dev (n / 2) after ≡ ok (resized sb n (hash bitmap.bits))
      pub last : read_superblock_at dev (n - 1) after ≡ ok (resized sb n (hash bitmap.bits))
      pub elsewhere :
          (c : ℕ)
          → c ≢ 1
          → c ≢ n / 2
          → c ≢ n - 1
          → (c < sb.block_bitmap_start) ⊎ (sb.block_bitmap_start + sb.block_bitmap_blocks ≤ c)
          → Inside (dev.geometry before) c
          → block_at dev IsValid contents laws c after ≡ block_at dev IsValid contents laws c before

    -- Behind the bitmap that was written, the copies make the device grown.
    module _ {d e f : dev.Device} (h : Holds d) (larger : sb.total_blocks < n)
        (room : n * 4096 ≤ (dev.geometry d).capacity_bytes)
        (fit : n ≤ sb.block_bitmap_blocks * 32768) (bitmap : Bitmap)
        (pinned : Pinned (wrapped (bitmap_of d) n) n bitmap)
        (w : Wrote dev IsValid contents laws sb.block_bitmap_start sb.block_bitmap_blocks
          bitmap.bits d e)
        (c : Copies dev IsValid contents laws n
          (encode_block (resized sb n (hash bitmap.bits)))
          e
          f) where
      copied-Grown : Grown d f
      unfolding bitmap_of block_at
      copied-Grown =
          let low = h.behind_first in
          let high : sb.block_bitmap_start + sb.block_bitmap_blocks ≤ n / 2 =
            omega (arith, h.before_middle, larger) in
          let word = (laws.sized d h.valid).1 in
          let capacity = ap (λ g. g.capacity_bytes) c.same_geometry in
          let capacity' = ap (λ g. g.capacity_bytes) w.same_geometry in
          let fields =
            resized-FitsFields sb n (hash bitmap.bits) h.fields (omega (arith, room, word))
              (hash-lt bitmap.bits) in
          let checked = resized_checked sb n (hash bitmap.bits) h.accepted in
          let copy = λ (b : ℕ) (inside : b + 1 ≤ n).
            read_superblock_at_lem dev IsValid contents laws b f (resized sb n (hash bitmap.bits))
              c.usable (omega (arith, inside, room, capacity, capacity')) fields checked in
          record {
            usable = c.usable;
            same_geometry = c.same_geometry ∙ w.same_geometry;
            bitmap = bitmap;
            pinned = pinned;
            stored = c.between _ _ (omega (arith, low)) (omega (arith, high)) ∙ w.here;
            found =
                read_sb_lem dev IsValid contents laws f (resized sb n (hash bitmap.bits)) c.usable
                  (omega (arith, low, high, room, capacity, capacity')) fields checked c.first;
            first = copy 1 (omega (arith, low, high)) c.first;
            middle = copy (n / 2) (omega (arith, low, high)) c.middle;
            last = copy (n - 1) (omega (arith, low, high)) c.last;
            elsewhere = λ b p q r apart inside.
                c.elsewhere b p q r (omega (arith, inside, capacity')) ∙ elim apart [
                  | inl before ↦ w.in_front (b * 4096) 4096 (omega (arith, before))
                  | inr behind ↦ w.behind (b * 4096) 4096 (omega (arith, behind)) inside
                ];
          }

    reported : GrowReport
    reported = record {
      old_total_blocks = sb.total_blocks;
      new_total_blocks = n;
      added_blocks = n - sb.total_blocks;
    }

    module _ (d : dev.Device) (h : Holds d) (larger : sb.total_blocks < n)
        (room : n * 4096 ≤ (dev.geometry d).capacity_bytes)
        (fit : n ≤ sb.block_bitmap_blocks * 32768) where
      -- The writes of a bitmap with the copies pinned
      perform-grown :
          (bitmap : Bitmap)
          → (dev.geometry d).read_only ≡ false
          → Pinned (wrapped (bitmap_of d) n) n bitmap
          → Returns (perform dev (grown sb n bitmap).0) d λ _ f.
            (e : dev.Device) × Wrote dev IsValid contents laws sb.block_bitmap_start
              sb.block_bitmap_blocks bitmap.bits d e
            × Copies dev IsValid contents laws n
                (encode_block (resized sb n (hash bitmap.bits)))
                e
                f
      unfolding perform grown grown_superblock wrapped
      perform-grown bitmap writable pinned =
          let low = h.behind_first in
          let high : sb.block_bitmap_start + sb.block_bitmap_blocks ≤ n / 2 =
            omega (arith, h.before_middle, larger) in
          let image = encode_block (resized sb n (hash bitmap.bits)) in
          let (e, runs, w) =
            Blocks.write_blocks dev IsValid contents laws d
              (record { valid = h.valid; writable = writable; whole = h.whole })
              sb.block_bitmap_start sb.block_bitmap_blocks (omega (arith, high, room)) bitmap.bits
              (omega (arith, low, high, fit)) (pinned.same_length ∙ h.bitmap.sized) in
          let capacity = ap (λ g. g.capacity_bytes) w.same_geometry in
          let (_, f, runs', c) =
            put_copies dev IsValid contents laws n image e (omega (arith, low, high))
              (omega (arith, room, capacity))
              (length-encode_block (resized sb n (hash bitmap.bits)) (
                resized-FitsFields sb n (hash bitmap.bits) h.fields
                  (omega (arith, room, (laws.sized d h.valid).1)) (hash-lt bitmap.bits)))
              w.usable in
          Returns-after (dev.write_at (mul64 sb.block_bitmap_start 4096) bitmap.bits)
            (λ _. perform dev (copies n image)) d runs (tt, f, runs', (e, w, c))

      -- From the bitmap on, growing returns on a device that may be written to.
      grow_from-Grown :
          (dev.geometry d).read_only ≡ false
          → Returns
              (grow_from dev sb n (bitmap_of d))
              d
              λ report d'. (report ≡ reported) × Grown d d'
      unfolding grow_from grown reported
      grow_from-Grown writable =
          let (bitmap, runs, pinned) =
            grow_bitmap-grown sb n (bitmap_of d) h.bitmap (omega (arith, larger)) fit in
          let plan = grown sb n bitmap in
          Returns-after (λ k. (grow_bitmap sb n (bitmap_of d), k))
            (λ p. do perform dev p.0; dev.sync; pure p.1) d (ap (λ r. (r, d)) runs)
            (Returns->>= (perform dev plan.0) (λ _. do dev.sync; pure plan.1) d
              (perform-grown bitmap writable pinned)
              λ _ f (e, w, c).
                Returns->>= dev.sync (λ _. pure plan.1) f
                  (sync-Copies dev IsValid contents laws n _ e f c)
                  λ _ f' c'.
                    (plan.1, f', refl, (refl, copied-Grown h larger room fit bitmap pinned w c')))

      -- On one that refuses writes, its error is that of growing.
      grow_from_refused :
          ((off : ℕ) (new : List ℕ) → dev.write_at off new d ≡ (err policy_violation, d))
          → grow_from dev sb n (bitmap_of d) d ≡ (err policy_violation, d)
      unfolding grow_from grown grown_superblock
      grow_from_refused refuses =
          let (bitmap, runs, pinned) =
            grow_bitmap-grown sb n (bitmap_of d) h.bitmap (omega (arith, larger)) fit in
          let plan = grown sb n bitmap in
          >>=-ok (λ k. (grow_bitmap sb n (bitmap_of d), k))
            (λ p. do perform dev p.0; dev.sync; pure p.1) d (ap (λ r. (r, d)) runs)
          ∙ >>=-err (perform dev plan.0) (λ _. do dev.sync; pure plan.1) d
              (perform-err dev IsValid contents laws (put sb.block_bitmap_start bitmap.bits)
                (copies n (encode_block (resized sb n (hash bitmap.bits)))) d (refuses _ _))

    -- What growing to `n` blocks returns, and the device that it leaves.
    pub data Outcome (d : dev.Device) : CoreFsResult GrowReport × dev.Device → Type 0 where
      not_larger : n ≤ sb.total_blocks → Outcome d (err invalid_input, d)
      no_device_room :
          sb.total_blocks < n
          → (dev.geometry d).capacity_bytes < n * 4096
          → Outcome d (err invalid_input, d)
      no_bitmap_room :
          sb.total_blocks < n
          → n * 4096 ≤ (dev.geometry d).capacity_bytes
          → sb.block_bitmap_blocks * 32768 < n
          → Outcome d (err state, d)
      refused :
          sb.total_blocks < n
          → n * 4096 ≤ (dev.geometry d).capacity_bytes
          → n ≤ sb.block_bitmap_blocks * 32768
          → (dev.geometry d).read_only ≡ true
          → Outcome d (err policy_violation, d)
      grows :
          {report : GrowReport} {d' : dev.Device}
          → sb.total_blocks < n
          → n * 4096 ≤ (dev.geometry d).capacity_bytes
          → n ≤ sb.block_bitmap_blocks * 32768
          → (dev.geometry d).read_only ≡ false
          → report.old_total_blocks ≡ sb.total_blocks
          → report.new_total_blocks ≡ n
          → sb.total_blocks + report.added_blocks ≡ n
          → Grown d d'
          → Outcome d (ok report, d')

    -- The tests, with what follows when they are passed.
    checked-Outcome :
        (d : dev.Device) (rest : CoreFsResult GrowReport × dev.Device)
        → Holds d
        → (sb.total_blocks < n
            → n * 4096 ≤ (dev.geometry d).capacity_bytes
            → n ≤ sb.block_bitmap_blocks * 32768
            → Outcome d rest)
        → Outcome d (elim (check_growth (dev.geometry d).capacity_bytes sb n) [
          | ok _ ↦ rest
          | err e ↦ (err e, d)
        ])
    unfolding check_growth
    checked-Outcome d rest h passed =
        let word = (laws.sized d h.valid).1 in
        let bits : mul64 sb.block_bitmap_blocks 32768 ≡ sb.block_bitmap_blocks * 32768 =
          omega (arith, h.bitmap.small) in
        elim (Bool-cases (leb n sb.total_blocks)) [
          | inl e ↦ rw e (not_larger (ground arith))
          | inr e ↦ rw e (elim (Bool-cases (leb (2 ^ 64) (n * 4096))) [
            | inl e1 ↦ rw e1 (no_device_room (ground arith) (ground arith))
            | inr e1 ↦ rw e1 (elim (Bool-cases (ltb (dev.geometry d).capacity_bytes (n * 4096))) [
              | inl e2 ↦ rw e2 (no_device_room (ground arith) (ground arith))
              | inr e2 ↦ rw e2 rw bits (elim (Bool-cases (ltb (sb.block_bitmap_blocks * 32768) n)) [
                | inl e3 ↦ rw e3 (no_bitmap_room (ground arith) (ground arith) (ground arith))
                | inr e3 ↦ rw e3 (passed (ground arith) (ground arith) (ground arith))
              ])
            ])
          ])
        ]

    grow_from-Outcome :
        (d : dev.Device)
        → Holds d
        → ((dev.geometry d).read_only ≡ true
            → (off : ℕ) (new : List ℕ) → dev.write_at off new d ≡ (err policy_violation, d))
        → sb.total_blocks < n
        → n * 4096 ≤ (dev.geometry d).capacity_bytes
        → n ≤ sb.block_bitmap_blocks * 32768
        → Outcome d (grow_from dev sb n (bitmap_of d) d)
    unfolding reported
    grow_from-Outcome d h protects larger room fit = elim (Bool-cases (dev.geometry d).read_only) [
      | inl e ↦ rw (grow_from_refused d h larger room fit (protects e)) (refused larger room fit e)
      | inr e ↦
          let (report, d', runs, (q, g)) = grow_from-Grown d h larger room fit e in
          rw runs (
            grows larger room fit e (ap (λ r. r.old_total_blocks) q)
              (ap (λ r. r.new_total_blocks) q) (omega (arith, larger, ap (λ r. r.added_blocks) q))
              g)
    ]

    read_bitmap :
        (d : dev.Device)
        → Holds d
        → sb.total_blocks < n
        → n * 4096 ≤ (dev.geometry d).capacity_bytes
        → n ≤ sb.block_bitmap_blocks * 32768
        → dev.read_at (mul64 sb.block_bitmap_start 4096) (mul64 sb.block_bitmap_blocks 4096) d
          ≡ ok (bitmap_of d)
    unfolding bitmap_of
    read_bitmap d h larger room fit =
        let s = (dev.geometry d).sector_size in
        let word = (laws.sized d h.valid).1 in
        let sectors = λ (k : ℕ).
          mod-eq-zero_of_dvd s (dvd-mul_left_of_dvd s (dvd_of_mod-eq-zero s h.whole) k) in
        let start : mul64 sb.block_bitmap_start 4096 ≡ sb.block_bitmap_start * 4096 =
          mod-eq_of_lt (omega (arith, h.before_middle, larger, room, word)) in
        let size : mul64 sb.block_bitmap_blocks 4096 ≡ sb.block_bitmap_blocks * 4096 =
          mod-eq_of_lt (omega (arith, h.before_middle, larger, room, word)) in
        rw start rw size (
          laws.read_lem _ _ d h.valid (record {
            aligned = sectors sb.block_bitmap_start;
            whole = sectors sb.block_bitmap_blocks;
            inside = omega (arith, h.before_middle, larger, room);
          }))

    -- On a lawful device of whole sectors in a block, from which `read_sb_with_fallbacks` reads `sb`,
    -- with its fields in their bounds and its version and features accepted, whose bitmap blocks hold
    -- bytes, number fewer than 2^64 units and lie between the first copy of the superblock and the
    -- middle of the volume, and which answers every write with a policy violation when it is
    -- read-only: `grow_device` refuses a size that is not larger, one that the device or the bitmap's
    -- blocks cannot hold, and any size on a read-only device, each with its error and with the device
    -- as it was. Otherwise it returns and reports the sizes. Then the bitmap on the device is the old
    -- one with the units of both new superblock copies set and no other one changed. The superblock
    -- that `read_sb_with_fallbacks` and a read of each of its three places gives is `sb` with the new
    -- size, places and bitmap checksum, and the free count raised by the added blocks, up to the
    -- largest word. No other block inside the device has changed.
    pub grow_device-Outcome :
        (d : dev.Device)
        → Holds d
        → ((dev.geometry d).read_only ≡ true
            → (off : ℕ) (new : List ℕ) → dev.write_at off new d ≡ (err policy_violation, d))
        → Outcome d (grow_device dev n d)
    unfolding grow_device
    grow_device-Outcome d h protects =
        subst (Outcome d)
          (sym (
            >>=-ok (λ k. (read_sb_with_fallbacks dev k, k)) (λ found. checked found) d
              (ap (λ r. (r, d)) h.found)))
          (checked-Outcome d (reading sb d) h λ larger room fit.
            subst (Outcome d)
              (sym (
                >>=-ok (read_region sb) (λ bytes. grow_from dev sb n bytes) d
                  (ap (λ r. (r, d)) (read_bitmap d h larger room fit))))
              (grow_from-Outcome d h protects larger room fit))
      where
        read_region : Superblock → Method dev.Device (List ℕ)
        read_region found k = (
          dev.read_at (mul64 found.block_bitmap_start 4096) (mul64 found.block_bitmap_blocks 4096)
              k,
          k,
        )

        reading : Superblock → Method dev.Device GrowReport
        reading found = do bytes ← read_region found; grow_from dev found n bytes

        checked : Superblock → Method dev.Device GrowReport
        checked found = do
          λ k. (check_growth (dev.geometry k).capacity_bytes found n, k)
          reading found
