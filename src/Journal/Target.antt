-- ===== src/Journal/Target.antt =====
-- Where an operation of the replay writes, and that it writes there.
use native.Mathlib.Nat.{dvd-mul_left_of_dvd, mod-eq-zero_of_dvd, dvd_of_mod-eq-zero, mod-eq_of_lt}
use mathlib.Core.Path.{subst}
use corefs.Common.{
  ℕ, ◌+◌, ◌-◌, ◌*◌, ◌/◌, ◌%◌, ◌≤◌, ◌<◌, ◌≡◌, ◌⊎◌, refl, sym, ap, ◌∙◌, true, false, leb, ◌==◌, List,
  [], ◌∷◌, ok, length, arith, and_then-ok,
}
use corefs.Common.Word.{add64, mul64}
use corefs.Bytes.{slice, splice, length-slice, length-splice}
use corefs.Bytes.Nested.{splice-splice}
use corefs.Layout.{LayoutGeometry, inode_record_location}
use corefs.Device.{BlockDevice}
use corefs.Device.Lawful.{Laws, InDevice}
use corefs.Superblock.{Superblock, geometry, decode_block as decode_superblock}
use corefs.Journal.{Op, block_write, inode_update}
use corefs.Journal.Log.{Journal, on_device}
use corefs.Journal.Entries.{Open}
use corefs.Journal.Transaction.{apply_op, inode_block}

-- Where on the device an operation writes
unfoldable pub target : LayoutGeometry → Op → ℕ
target g (block_write block bytes) = block * 4096
target g (inode_update index bytes) = (g.inode_table_start + index / 16) * 4096 + index % 16 * 256

-- What it writes there
unfoldable pub op_bytes : Op → List ℕ
op_bytes (block_write block bytes) = bytes
op_bytes (inode_update index bytes) = bytes

-- The device's bytes after the operations
unfoldable pub effects : LayoutGeometry → List Op → List ℕ → List ℕ
effects g [] contents = contents
effects g (o ∷ ops) contents = effects g ops (splice (target g o) (op_bytes o) contents)

-- The operations of the size that `apply_op` asks for.
pub data IsSized (g : LayoutGeometry) : Op → Type 0 where
  one_block :
      {block : ℕ} {bytes : List ℕ} → length bytes ≡ 4096 → IsSized g (block_write block bytes)
  one_inode :
      {index : ℕ} {bytes : List ℕ}
      → length bytes ≡ 256
      → index < g.inode_count
      → IsSized g (inode_update index bytes)

-- An operation whose block is on the device, behind the superblock and not in the record area,
-- which has `area` bytes from `start` on.
pub record IsApart (g : LayoutGeometry) (start area capacity : ℕ) (o : Op) : Type 0 where
  pub size : IsSized g o
  pub inside : target g o / 4096 * 4096 + 4096 ≤ capacity
  pub behind_superblock : 8192 ≤ target g o
  pub beside_area : (target g o + length (op_bytes o) ≤ start) ⊎ (start + area ≤ target g o)

pub data AllApart (g : LayoutGeometry) (start area capacity : ℕ) : List Op → Type 0 where
  none_apart : AllApart g start area capacity []
  one_apart :
      {o : Op} {ops : List Op}
      → IsApart g start area capacity o
      → AllApart g start area capacity ops
      → AllApart g start area capacity (o ∷ ops)

module _ (dev : BlockDevice) (IsValid : dev.Device → Type 0) (contents : dev.Device → List ℕ)
    (laws : Laws dev IsValid contents) (sb : Superblock) where
  abbrev pub Apart : Journal dev → Op → Type 0
  Apart j =
      IsApart (geometry sb) (j.record_start_block * 4096) j.header.record_area_bytes
        (dev.geometry j.device).capacity_bytes

  -- A journal on a device whose primary superblock is `sb`.
  pub record World (j : Journal dev) : Type 0 where
    pub opened : Open dev IsValid contents laws j
    pub sectors : 4096 % (dev.geometry j.device).sector_size ≡ 0
    pub second : 8192 ≤ (dev.geometry j.device).capacity_bytes
    pub superblock : decode_superblock (slice 4096 4096 (contents j.device)) ≡ ok sb

  -- What an operation leaves: the device with its bytes written.
  pub record Applied (j : Journal dev) (after : List ℕ) (d : dev.Device) : Type 0 where
    pub valid_device : IsValid d
    pub written : contents d ≡ after
    pub same_geometry : dev.geometry d ≡ dev.geometry j.device

  module _ (j : Journal dev) (world : World j) where
    pub capacity_lem : length (contents j.device) ≡ (dev.geometry j.device).capacity_bytes
    capacity_lem = (laws.sized j.device world.opened.valid).0

    block_place :
        (block : ℕ)
        → block * 4096 + 4096 ≤ (dev.geometry j.device).capacity_bytes
        → mul64 block 4096 ≡ block * 4096
    block_place block h =
        mod-eq_of_lt (omega (arith, h, (laws.sized j.device world.opened.valid).1))

    block_range :
        (block : ℕ)
        → block * 4096 + 4096 ≤ (dev.geometry j.device).capacity_bytes
        → InDevice (dev.geometry j.device) (block * 4096) 4096
    block_range block h =
        let s = (dev.geometry j.device).sector_size in
        record {
          aligned =
              mod-eq-zero_of_dvd s
                (dvd-mul_left_of_dvd s (dvd_of_mod-eq-zero s world.sectors) block);
          whole = world.sectors;
          inside = h;
        }

    read_block :
        (block : ℕ)
        → block * 4096 + 4096 ≤ (dev.geometry j.device).capacity_bytes
        → dev.read_at (mul64 block 4096) 4096 j.device
          ≡ ok (slice (block * 4096) 4096 (contents j.device))
    read_block block h =
        rw (block_place block h)
          (laws.read_lem (block * 4096) 4096 j.device world.opened.valid (block_range block h))

    write_block :
        (block : ℕ) (bytes : List ℕ)
        → length bytes ≡ 4096
        → block * 4096 + 4096 ≤ (dev.geometry j.device).capacity_bytes
        → (d : dev.Device) × (on_device dev (dev.write_at (mul64 block 4096) bytes) j
            ≡ (ok tt, record j { device = d }))
          × Applied j (splice (block * 4096) bytes (contents j.device)) d
    write_block block bytes long h =
        let (d, e, v, c, g) =
          laws.write_lem (block * 4096) bytes j.device world.opened.valid world.opened.writable (
            subst (InDevice (dev.geometry j.device) (block * 4096)) (sym long)
              (block_range block h)) in
        (
          d,
          rw (block_place block h) (ap (λ p. (p.0, record j { device = p.1 })) e),
          record { valid_device = v; written = c; same_geometry = g },
        )

    -- The block of an inode, with the record in its place.
    inode_block_lem :
        (index : ℕ) (bytes : List ℕ)
        → index < sb.total_inodes
        → (sb.inode_table_start + index / 16) * 4096 + 4096 ≤ (dev.geometry j.device).capacity_bytes
        → inode_block dev index bytes j.device
          ≡ ok (
            sb.inode_table_start + index / 16,
            splice
                (index % 16 * 256)
                bytes
                (slice ((sb.inode_table_start + index / 16) * 4096) 4096 (contents j.device)),
          )
    unfolding inode_block
    inode_block_lem index bytes small h =
        let block = sb.inode_table_start + index / 16 in
        let at_block : add64 sb.inode_table_start (index / 16) ≡ block =
          mod-eq_of_lt (omega (arith, h, (laws.sized j.device world.opened.valid).1)) in
        let in_table : leb sb.total_inodes index ≡ false = ground (arith, small) in
        let located : inode_record_location (geometry sb) index ≡ ok (block, index % 16 * 256) =
          unfold inode_record_location geometry in rw in_table rw at_block refl in
        and_then-ok (dev.read_at (mul64 1 4096) 4096 j.device) _ (read_block 1 world.second) (
          and_then-ok (decode_superblock (slice 4096 4096 (contents j.device))) _ world.superblock (
            and_then-ok (inode_record_location (geometry sb) index) _ located (
              and_then-ok (dev.read_at (mul64 block 4096) 4096 j.device) _ (read_block block h)
                refl)))

    -- An operation that is apart writes its bytes at its target.
    pub apply_op_lem :
        (o : Op)
        → Apart j o
        → (d : dev.Device) × (apply_op dev o j ≡ (ok tt, record j { device = d }))
          × Applied j (splice (target (geometry sb) o) (op_bytes o) (contents j.device)) d
    unfolding apply_op target op_bytes geometry
    apply_op_lem (block_write block bytes) apart = elim apart.size [
      | one_block long ↦
          let same : (length bytes == 4096) ≡ true = ground (arith, long) in
          rw same (write_block block bytes long (omega (arith, apart.inside)))
    ]
    apply_op_lem (inode_update index bytes) apart = elim apart.size [
      | one_inode long small ↦
          let block = sb.inode_table_start + index / 16 in
          let off = index % 16 * 256 in
          let whole_block : block * 4096 + 4096 ≤ (dev.geometry j.device).capacity_bytes =
            omega (arith, apart.inside) in
          let same : (length bytes == 256) ≡ true = ground (arith, long) in
          let around = slice (block * 4096) 4096 (contents j.device) in
          let around_long =
            length-slice (block * 4096) 4096 (contents j.device)
              (omega (arith, whole_block, capacity_lem)) in
          let (d, e, a) =
            write_block block (splice off bytes around)
              (length-splice off bytes around (omega (arith, long, around_long)) ∙ around_long)
              whole_block in
          let skip : block * 4096 + off - block * 4096 ≡ off = omega arith in
          let one_splice =
            splice-splice (block * 4096) (block * 4096 + off) 4096 bytes (contents j.device)
              (omega arith) (omega (arith, long)) (omega (arith, whole_block, capacity_lem)) in
          (
            d,
            rw same rw (inode_block_lem index bytes small whole_block) e,
            record {
              valid_device = a.valid_device;
              written =
                  a.written
                  ∙ ap (λ k. splice (block * 4096) (splice k bytes around) (contents j.device))
                      (sym skip)
                  ∙ one_splice;
              same_geometry = a.same_geometry;
            },
          )
    ]

    pub target_lem :
        (o : Op)
        → Apart j o
        → target (geometry sb) o + length (op_bytes o) ≤ (dev.geometry j.device).capacity_bytes
    unfolding target op_bytes
    target_lem (block_write block bytes) apart = elim apart.size [
      | one_block long ↦ omega (arith, apart.inside, long)
    ]
    target_lem (inode_update index bytes) apart = elim apart.size [
      | one_inode long small ↦ omega (arith, apart.inside, long)
    ]
