-- ===== src/Journal/Apply.antt =====
-- What a list of operations leaves on the device.
use mathlib.Core.Path.{subst}
use corefs.Common.{
  ℕ, ◌+◌, ◌*◌, ◌%◌, ◌≤◌, ◌≡◌, inl, inr, refl, sym, ap, ◌∙◌, List, [], ◌∷◌, ok, length, arith,
  >>=-ok,
}
use corefs.Bytes.{slice, splice}
use corefs.Bytes.Ranges.{slice-splice_before, slice-splice_behind}
use corefs.Device.{BlockDevice}
use corefs.Device.Lawful.{Laws}
use corefs.Superblock.{Superblock, geometry, decode_block as decode_superblock}
use corefs.Journal.{Op}
use corefs.Journal.Log.{Journal}
use corefs.Journal.Transaction.{apply_op, apply_ops}
use corefs.Journal.Target.{
  target, op_bytes, effects, AllApart, none_apart, one_apart, World, Applied, Apart, apply_op_lem,
  capacity_lem, target_lem,
}

module _ (dev : BlockDevice) (IsValid : dev.Device → Type 0) (contents : dev.Device → List ℕ)
    (laws : Laws dev IsValid contents) (sb : Superblock) where
  -- What operations leave: the effects on the bytes, the superblock and the record area as they were.
  pub record Moved (j : Journal dev) (after : List ℕ) (d : dev.Device) : Type 0 where
    pub written : contents d ≡ after
    pub same_geometry : dev.geometry d ≡ dev.geometry j.device
    pub world : World dev IsValid contents laws sb (record j { device = d })
    pub kept :
        (off len : ℕ)
        → off + len ≤ j.header.record_area_bytes
        → slice (j.record_start_block * 4096 + off) len (contents d)
          ≡ slice (j.record_start_block * 4096 + off) len (contents j.device)

  Moved-one :
      (j : Journal dev) (o : Op) (d : dev.Device)
      → World dev IsValid contents laws sb j
      → Apart dev IsValid contents laws sb j o
      → Applied dev IsValid contents laws sb j
          (splice (target (geometry sb) o) (op_bytes o) (contents j.device))
          d
      → Moved j (splice (target (geometry sb) o) (op_bytes o) (contents j.device)) d
  Moved-one j o d world apart a = record {
    written = a.written;
    same_geometry = a.same_geometry;
    world = record {
      opened = record {
        valid = a.valid_device;
        writable = ap (λ g. g.read_only) a.same_geometry ∙ world.opened.writable;
        inside = omega (arith, world.opened.inside, ap (λ g. g.capacity_bytes) a.same_geometry);
      };
      sectors = ap (λ g. 4096 % g.sector_size) a.same_geometry ∙ world.sectors;
      second = omega (arith, world.second, ap (λ g. g.capacity_bytes) a.same_geometry);
      superblock =
          ap decode_superblock (
            ap (slice 4096 4096) a.written
            ∙ slice-splice_before (target (geometry sb) o) (op_bytes o) (contents j.device) room
                4096 4096 apart.behind_superblock)
          ∙ world.superblock;
    };
    kept = λ off len h.
        ap (slice (j.record_start_block * 4096 + off) len) a.written ∙ elim apart.beside_area [
          | inl before ↦
              slice-splice_behind (target (geometry sb) o) (op_bytes o) (contents j.device) room
                (j.record_start_block * 4096 + off) len (omega (arith, before))
                (omega (
                  arith,
                  h,
                  world.opened.inside,
                  capacity_lem dev IsValid contents laws sb j world,
                ))
          | inr behind ↦
              slice-splice_before (target (geometry sb) o) (op_bytes o) (contents j.device) room
                (j.record_start_block * 4096 + off) len (omega (arith, h, behind))
        ];
  }
    where
      room : target (geometry sb) o + length (op_bytes o) ≤ length (contents j.device)
      room = omega (
        arith,
        target_lem dev IsValid contents laws sb j world o apart,
        capacity_lem dev IsValid contents laws sb j world,
      )

  -- Operations that are apart write their bytes at their targets, in their order.
  pub apply_ops_lem :
      (ops : List Op) (j : Journal dev)
      → World dev IsValid contents laws sb j
      → AllApart
          (geometry sb)
          (j.record_start_block * 4096)
          j.header.record_area_bytes
          (dev.geometry j.device).capacity_bytes
          ops
      → (d : dev.Device) × (apply_ops dev ops j ≡ (ok tt, record j { device = d }))
        × Moved j (effects (geometry sb) ops (contents j.device)) d
  unfolding apply_ops effects
  apply_ops_lem [] j world none_apart = (
    j.device,
    refl,
    record { written = refl; same_geometry = refl; world = world; kept = λ off len h. refl },
  )
  apply_ops_lem (o ∷ ops) j world (one_apart apart rest) =
      let (d, e, a) = apply_op_lem dev IsValid contents laws sb j world o apart in
      let m = Moved-one j o d world apart a in
      let one = splice (target (geometry sb) o) (op_bytes o) (contents j.device) in
      let (d', e', n) =
        apply_ops_lem ops (record j { device = d }) m.world
          (subst
            (λ g.
              AllApart (geometry sb) (j.record_start_block * 4096) j.header.record_area_bytes
                g.capacity_bytes ops)
            (sym m.same_geometry) rest) in
      (
        d',
        >>=-ok (apply_op dev o) (λ _. apply_ops dev ops) j e ∙ e',
        record {
          written = n.written ∙ ap (effects (geometry sb) ops) m.written;
          same_geometry = n.same_geometry ∙ m.same_geometry;
          world = n.world;
          kept = λ off len h. n.kept off len h ∙ m.kept off len h;
        },
      )
