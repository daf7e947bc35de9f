-- ===== src/Volume/Saved.antt =====
-- What a save leaves in the volume, and that it can be loaded.
use corefs.Common.{
  ℕ, ◌+◌, ◌*◌, ◌%◌, ◌≤◌, ◌<◌, ◌^◌, ◌≡◌, refl, ap, ◌∙◌, ◌&&◌, Bool-cases, inl, inr, false, not, ltb,
  ◌==◌, List, [], ◌∷◌, length, CoreFsResult, ok, err, ◌>>=◌, Returns, Returns->>=, pure, arith,
}
use corefs.Common.Word.{add64, div_ceil}
use corefs.Bytes.{slice}
use corefs.Checksum.Bytewise.{hash-lt}
use corefs.Layout.{LayoutGeometry}
use corefs.Layout.Plan.{IsOrdered, IsFitted}
use corefs.Bitmap.{Bitmap}
use corefs.Extent.{Extent}
use corefs.Superblock.{Superblock, geometry, check_fields, encode_block}
use corefs.Superblock.Codec.{FitsFields}
use corefs.Device.{BlockDevice}
use corefs.Device.Lawful.{Laws}
use corefs.Device.Blocks.{block_at}
use corefs.Inode.{OnDiskInode}
use corefs.Inode.Codec.{FitsInode}
use corefs.Volume.InodeUpdate.{read_inode_record-same}
use corefs.Volume.Copies.{read_superblock_at}
use corefs.Volume.State.{
  SaveReport, with_trailer, saved_superblock, payload_inode_of, write_payload, write_generation,
  write_superblocks, save_payload, trim_each, trim_extents, trim_old, is_payload_kind,
}
use corefs.Volume.Loaded.{
  Holds, length-with_trailer, read_payload_lem, read_superblock_at_lem, read_sb_lem,
  verify_bitmap_integrity_lem,
}
use corefs.Volume.Written.{Ready, Copied, sync-Ready, write_superblocks_lem}
use corefs.Volume.Laid.{Laid, write_payload_lem}

-- The blocks that a payload takes with its checksum
abbrev pub blocks_of : List ℕ → ℕ
blocks_of bytes = div_ceil (length (with_trailer bytes)) 4096

-- A superblock that can be written, and a payload that ends before the middle of the volume, where the
-- second copy of the superblock lies.
pub record FitsSave (sb : Superblock) (now : ℕ) (bytes : List ℕ) : Type 0 where
  pub fields : FitsFields sb
  pub accepted : check_fields sb ≡ ok sb
  pub time : now < 2 ^ 64
  pub small : blocks_of bytes < 2 ^ 32
  pub below_copy : sb.data_start + blocks_of bytes ≤ sb.tertiary_superblock_block

module _ (sb : Superblock) (now : ℕ) (bytes : List ℕ) (f : FitsSave sb now bytes) where
  abbrev g : LayoutGeometry
  g = geometry sb

  saved-FitsFields : (bm im : Bitmap) → FitsFields (saved_superblock g sb now bm im)
  unfolding saved_superblock
  saved-FitsFields bm im = omega (arith, f.fields, f.time, hash-lt bm.bits, hash-lt im.bits)

  saved-accepted :
      (bm im : Bitmap)
      → check_fields (saved_superblock g sb now bm im) ≡ ok (saved_superblock g sb now bm im)
  unfolding saved_superblock check_fields
  saved-accepted bm im = ground (arith, f.accepted)

  payload-FitsInode : FitsInode (payload_inode_of g sb now (blocks_of bytes) (with_trailer bytes))
  unfolding payload_inode_of geometry
  payload-FitsInode = omega (arith, f.fields, f.time, f.small, hash-lt (with_trailer bytes))

module _ (dev : BlockDevice) (IsValid : dev.Device → Type 0) (contents : dev.Device → List ℕ)
    (laws : Laws dev IsValid contents) (sb : Superblock) (o : IsOrdered (geometry sb))
    (fitted : IsFitted (geometry sb)) where
  -- A device that holds the volume of `sb`
  abbrev pub ReadyFor : dev.Device → Type 0
  ReadyFor = Ready dev IsValid contents laws (geometry sb) o

  trim-Ready : (off len : ℕ) (d : dev.Device) → ReadyFor d → ReadyFor (dev.trim off len d).1
  trim-Ready off len d r =
      let (valid, same) = laws.trim_lem off len d r.usable.valid in
      record {
        usable = record {
          valid = valid;
          writable = ap (λ geo. geo.read_only) same ∙ r.usable.writable;
          whole = ap (λ geo. 4096 % geo.sector_size) same ∙ r.usable.whole;
        };
        room = omega (arith, r.room, ap (λ geo. geo.capacity_bytes) same);
      }

  trim_each-Ready :
      (exts : List Extent) (d : dev.Device)
      → ReadyFor d
      → Returns (trim_each dev exts) d λ _ d'. ReadyFor d'
  unfolding trim_each
  trim_each-Ready [] d r = (tt, d, refl, r)
  trim_each-Ready (ext ∷ exts) d r = elim (Bool-cases (ext.length_blocks == 0)) [
    | inl e ↦ rw e (trim_each-Ready exts d r)
    | inr e ↦ rw e (trim_each-Ready exts _ (trim-Ready _ _ d r))
  ]

  -- Whatever the old inode says, trimming its extents returns.
  pub trim_old-Ready :
      (old : CoreFsResult OnDiskInode) (d : dev.Device)
      → ReadyFor d
      → Returns (trim_old dev old) d λ _ d'. ReadyFor d'
  unfolding trim_old trim_extents
  trim_old-Ready (err _) d r = (tt, d, refl, r)
  trim_old-Ready (ok old) d r =
      elim (Bool-cases (is_payload_kind old.kind && not (length old.extents == 0))) [
        | inr e ↦ rw e (tt, d, refl, r)
        | inl e ↦ rw e (elim (Bool-cases (dev.supports_trim d)) [
          | inr f ↦ rw f (tt, d, refl, r)
          | inl f ↦ rw f (trim_each-Ready old.extents d r)
        ])
      ]

  module _ (now : ℕ) (bytes : List ℕ) (f : FitsSave sb now bytes) where
    abbrev needed : ℕ
    needed = blocks_of bytes

    abbrev payload : List ℕ
    payload = with_trailer bytes

    covers : length payload ≤ needed * 4096
    covers = omega arith

    nonempty : 0 < needed
    nonempty = omega (arith, length-with_trailer bytes)

    fits : needed ≤ (geometry sb).data_blocks
    unfolding geometry
    fits = omega (arith, f.below_copy, o.tertiary_middle, o.data_last)

    -- What a save reports
    abbrev pub reported : SaveReport
    reported = record {
      generation = add64 sb.generation 1;
      payload_bytes = length payload;
      payload_blocks = needed;
    }

    -- The volume holds the payload under the superblock of the next generation.
    pub record Stored (after : dev.Device) : Type 0 where
      pub ready : ReadyFor after
      pub next : Superblock
      pub holds :
          Holds dev IsValid contents laws next
            (payload_inode_of (geometry sb) sb now needed payload)
            bytes
            after
      pub middle : read_superblock_at dev sb.tertiary_superblock_block after ≡ ok next
      pub last : read_superblock_at dev sb.secondary_superblock_block after ≡ ok next
      pub same_geometry : geometry next ≡ geometry sb
      pub fields : FitsFields next
      pub accepted : check_fields next ≡ ok next
      pub generation : next.generation ≡ add64 sb.generation 1

    module _ (bm im : Bitmap) (d : dev.Device)
        (laid : Laid dev IsValid contents laws
          (geometry sb)
          o
          fitted
          sb
          now
          needed
          payload
          covers
          nonempty
          fits
          bm
          im
          d) where
      abbrev next_sb : Superblock
      next_sb = saved_superblock (geometry sb) sb now bm im

      stored_after :
          (copied after : dev.Device)
          → Copied dev IsValid contents laws
              (geometry sb)
              o
              next_sb
              (saved-FitsFields sb now bytes f bm im)
              d
              copied
          → ReadyFor after
          → contents after ≡ contents copied
          → Holds dev IsValid contents laws next_sb
              (payload_inode_of (geometry sb) sb now needed payload)
              bytes
              after
      unfolding saved_superblock geometry block_at
      stored_after copied after c r same =
          let kept : (off len : ℕ)
              → 8192 ≤ off
              → off + len ≤ sb.tertiary_superblock_block * 4096
              → slice off len (contents after) ≡ slice off len (contents d) =
            λ off len far near. ap (slice off len) same ∙ c.between off len far near in
          record {
            superblock =
                read_sb_lem dev IsValid contents laws after next_sb r.usable
                  (omega (arith, r.room, o)) (saved-FitsFields sb now bytes f bm im)
                  (saved-accepted sb now bytes f bm im) (ap (slice 4096 4096) same ∙ c.first);
            bitmaps =
                verify_bitmap_integrity_lem dev IsValid contents laws after next_sb bm.bits im.bits
                  r.usable (omega (arith, fitted)) (omega (arith, r.room, o))
                  (kept _ _ (omega (arith, o)) (omega (arith, o, f.below_copy))
                    ∙ laid.mapped.block_bits)
                  refl (omega (arith, fitted)) (omega (arith, r.room, o))
                  (kept _ _ (omega (arith, o)) (omega (arith, o, f.below_copy))
                    ∙ laid.mapped.inode_bits)
                  refl;
            owner =
                read_inode_record-same dev IsValid contents laws (geometry sb) o d after 0
                  laid.mapped.ready.usable laid.mapped.ready.room r.usable r.room fitted.some_inode
                  (λ off len far near.
                    kept off len (omega (arith, o, far)) (omega (arith, o, near, f.below_copy)))
                ∙ laid.owner;
            payload =
                read_payload_lem dev IsValid contents laws (geometry sb) sb now needed bytes f.small
                  covers after r.usable nonempty (omega (arith, r.room, o, fits))
                  (kept _ _ (omega (arith, o)) (omega (arith, f.below_copy)) ∙ laid.run);
          }

      copy_after :
          (block : ℕ) (copied after : dev.Device)
          → block < sb.total_blocks
          → ReadyFor after
          → contents after ≡ contents copied
          → block_at dev IsValid contents laws block copied ≡ encode_block next_sb
          → read_superblock_at dev block after ≡ ok next_sb
      unfolding block_at geometry
      copy_after block copied after inside r same is =
          read_superblock_at_lem dev IsValid contents laws block after next_sb r.usable
            (omega (arith, r.room, inside)) (saved-FitsFields sb now bytes f bm im)
            (saved-accepted sb now bytes f bm im) (ap (slice (block * 4096) 4096) same ∙ is)

      write_generation-Stored :
          Returns
            (write_generation dev (geometry sb) sb now needed (length payload) (bm, im))
            d
            λ report d'. (report ≡ reported) × Stored d'
      unfolding write_generation saved_superblock geometry
      write_generation-Stored =
          Returns->>= (write_superblocks dev (geometry sb) next_sb)
            (λ _. dev.sync >>= λ _. pure reported) d
            (write_superblocks_lem dev IsValid contents laws (geometry sb) o next_sb
              (saved-FitsFields sb now bytes f bm im) d laid.mapped.ready
              (omega (arith, o, f.below_copy)))
            λ _ copied c.
              Returns->>= dev.sync (λ _. pure reported) copied
                (sync-Ready dev IsValid contents laws (geometry sb) o copied c.ready)
                λ _ after (r, same). (
                  reported,
                  after,
                  refl,
                  (
                    refl,
                    record {
                      ready = r;
                      next = next_sb;
                      holds = stored_after copied after c r same;
                      middle =
                          copy_after sb.tertiary_superblock_block copied after
                            (omega (arith, o.tertiary_middle, o.data_last, o.room)) r same c.middle;
                      last =
                          copy_after sb.secondary_superblock_block copied after
                            (omega (arith, o.secondary_last)) r same c.last;
                      same_geometry = refl;
                      fields = saved-FitsFields sb now bytes f bm im;
                      accepted = saved-accepted sb now bytes f bm im;
                      generation = refl;
                    },
                  ),
                )

    pub save_payload-Stored :
        (d : dev.Device)
        → ReadyFor d
        → Returns
            (save_payload dev (geometry sb) sb now payload)
            d
            λ report d'. (report ≡ reported) × Stored d'
    unfolding save_payload
    save_payload-Stored d r =
        let room : ltb (geometry sb).data_blocks needed ≡ false = ground (arith, fits) in
        rw room (
          Returns->>= (write_payload dev (geometry sb) sb now needed payload)
            (write_generation dev (geometry sb) sb now needed (length payload)) d
            (write_payload_lem dev IsValid contents laws (geometry sb) o fitted sb now needed
              payload covers nonempty fits d r (payload-FitsInode sb now bytes f))
            λ maps d' laid. write_generation-Stored maps.0 maps.1 d' laid)
