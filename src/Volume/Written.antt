-- ===== src/Volume/Written.antt =====
-- What the parts of a save write.
use corefs.Common.{
  ℕ, ◌+◌, ◌*◌, ◌%◌, ◌≤◌, ◌<◌, ◌≡◌, ap, ◌∙◌, List, length, ok, ◌>>=◌, Returns, >>=-ok, arith,
}
use corefs.Bytes.{slice}
use corefs.Layout.{LayoutGeometry}
use corefs.Layout.Plan.{IsOrdered}
use corefs.Superblock.{Superblock, encode_block}
use corefs.Superblock.Codec.{FitsFields, length-encode_block}
use corefs.Device.{BlockDevice}
use corefs.Device.Lawful.{Laws}
use corefs.Device.Blocks
use corefs.Device.Blocks.{Usable, block_at, Inside, Written}
use corefs.Inode.{OnDiskInode}
use corefs.Inode.Codec.{FitsInode}
use corefs.Volume.InodeRecords.{write_block, write_inode_record, read_inode_record}
use corefs.Volume.InodeUpdate.{write_inode_record-Updated}
use corefs.Volume.State.{write_superblocks, write_blocks}

module _ (dev : BlockDevice) (IsValid : dev.Device → Type 0) (contents : dev.Device → List ℕ)
    (laws : Laws dev IsValid contents) (g : LayoutGeometry) (o : IsOrdered g) where
  -- A device that holds the volume and can be written to
  pub record Ready (d : dev.Device) : Type 0 where
    pub usable : Usable dev IsValid contents laws d
    pub room : g.total_blocks * 4096 ≤ (dev.geometry d).capacity_bytes

  pub sync-Ready :
      (d : dev.Device) → Ready d → Returns dev.sync d λ _ d'. Ready d' × (contents d' ≡ contents d)
  sync-Ready d r =
      let (d', e, valid, bytes, same) = laws.sync_lem d r.usable.valid in
      (
        tt,
        d',
        e,
        (
          record {
            usable = record {
              valid = valid;
              writable = ap (λ geo. geo.read_only) same ∙ r.usable.writable;
              whole = ap (λ geo. 4096 % geo.sector_size) same ∙ r.usable.whole;
            };
            room = omega (arith, r.room, ap (λ geo. geo.capacity_bytes) same);
          },
          bytes,
        ),
      )

  module _ (sb : Superblock) (v : FitsFields sb) where
    -- The copies of the superblock are in their places, and nothing between the first two changed.
    pub record Copied (before after : dev.Device) : Type 0 where
      pub ready : Ready after
      pub first : block_at dev IsValid contents laws 1 after ≡ encode_block sb
      pub middle :
          block_at dev IsValid contents laws g.tertiary_superblock_block after ≡ encode_block sb
      pub last :
          block_at dev IsValid contents laws g.secondary_superblock_block after ≡ encode_block sb
      pub between :
          (off len : ℕ)
          → 8192 ≤ off
          → off + len ≤ g.tertiary_superblock_block * 4096
          → slice off len (contents after) ≡ slice off len (contents before)

    pub write_superblocks_lem :
        (d : dev.Device)
        → Ready d
        → 2 ≤ g.tertiary_superblock_block
        → Returns (write_superblocks dev g sb) d λ _ d'. Copied d d'
    unfolding write_superblocks write_block block_at
    write_superblocks_lem d r two =
        let image = encode_block sb in
        let sized = length-encode_block sb v in
        let second = write_block dev g.tertiary_superblock_block image in
        let third = write_block dev g.secondary_superblock_block image in
        let put = Blocks.write_block dev IsValid contents laws in
        let (d1, e1, w1) =
          put d r.usable 1 (omega (arith, r.room, o.tertiary_middle)) image sized in
        let cap1 = ap (λ geo. geo.capacity_bytes) w1.same_geometry in
        let (d2, e2, w2) =
          put d1 w1.usable g.tertiary_superblock_block
            (omega (arith, r.room, o.tertiary_middle, two, cap1)) image sized in
        let cap2 = ap (λ geo. geo.capacity_bytes) w2.same_geometry in
        let (d3, e3, w3) =
          put d2 w2.usable g.secondary_superblock_block
            (omega (arith, r.room, o.secondary_last, cap1, cap2)) image sized in
        let cap3 = ap (λ geo. geo.capacity_bytes) w3.same_geometry in
        let order : g.tertiary_superblock_block ≤ g.secondary_superblock_block =
          omega (arith, o.tertiary_middle, o.secondary_last) in
        (
          tt,
          d3,
          >>=-ok (write_block dev 1 image) (λ _. second >>= λ _. third) d e1
              ∙ >>=-ok second (λ _. third) d1 e2
              ∙ e3,
          record {
            ready = record { usable = w3.usable; room = omega (arith, r.room, cap1, cap2, cap3) };
            first =
                w3.as_blocks.in_front 4096 4096 (omega (arith, two, order))
                ∙ w2.as_blocks.in_front 4096 4096 (omega (arith, two))
                ∙ w1.here;
            middle =
                w3.as_blocks.in_front _ _
                  (omega (arith, o.tertiary_middle, o.secondary_last, o.data_last, o.room))
                ∙ w2.here;
            last = w3.here;
            between = λ off len far near.
                w3.as_blocks.in_front off len (omega (arith, near, order))
                ∙ w2.as_blocks.in_front off len near
                ∙ w1.as_blocks.behind off len (omega (arith, far))
                    (omega (arith, near, r.room, o.tertiary_middle, two));
          },
        )

  -- Only bytes of the blocks from `lo` to `hi` of the volume were changed.
  pub record Changed (lo hi : ℕ) (before after : dev.Device) : Type 0 where
    pub ready : Ready after
    pub in_front :
        (off len : ℕ)
        → off + len ≤ lo * 4096
        → slice off len (contents after) ≡ slice off len (contents before)
    pub behind :
        (off len : ℕ)
        → hi * 4096 ≤ off
        → off + len ≤ g.total_blocks * 4096
        → slice off len (contents after) ≡ slice off len (contents before)

  pub write_blocks_lem :
      (b n : ℕ) (bytes : List ℕ) (d : dev.Device)
      → 0 < n
      → b + n ≤ g.total_blocks
      → length bytes ≡ n * 4096
      → Ready d
      → Returns
          (write_blocks dev b bytes)
          d
          λ _ d'. Changed b (b + n) d d' × (slice (b * 4096) (n * 4096) (contents d') ≡ bytes)
  unfolding write_blocks
  write_blocks_lem b n bytes d nonempty fits long r =
      let (d', e, w) =
        Blocks.write_blocks dev IsValid contents laws d r.usable b n (omega (arith, fits, r.room))
          bytes nonempty long in
      (
        tt,
        d',
        e,
        (
          record {
            ready = record {
              usable = w.usable;
              room = omega (arith, r.room, ap (λ geo. geo.capacity_bytes) w.same_geometry);
            };
            in_front = w.in_front;
            behind = λ off len apart inside. w.behind off len apart (omega (arith, inside, r.room));
          },
          w.here,
        ),
      )

  pub write_inode_lem :
      (inode : OnDiskInode) (d : dev.Device)
      → 0 < g.inode_count
      → FitsInode inode
      → length inode.extents ≤ 8
      → Ready d
      → Returns (write_inode_record dev g 0 inode) d λ _ d'.
        Changed g.inode_table_start g.journal_start d d' × (read_inode_record dev g 0 d' ≡ ok inode)
  write_inode_lem inode d below v few r =
      let (a, d', e, w) =
        write_inode_record-Updated dev IsValid contents laws g o d 0 inode r.usable r.room below v
          few in
      (
        a,
        d',
        e,
        (
          record {
            ready = record {
              usable = w.usable;
              room = omega (arith, r.room, ap (λ geo. geo.capacity_bytes) w.same_geometry);
            };
            in_front = w.in_front;
            behind = λ off len apart inside. w.behind off len apart (omega (arith, inside, r.room));
          },
          w.this,
        ),
      )
