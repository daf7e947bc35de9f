-- ===== src/Volume/Laid.antt =====
-- The bitmaps, the payload and its inode after a save.
use corefs.Common.{
  ℕ, ◌-◌, ◌*◌, ◌≤◌, ◌<◌, ◌≡◌, refl, ap, ◌∙◌, Bool, List, ◌++◌, length, length-append, ok, Method,
  ◌>>=◌, Returns, Returns->>=, Returns-after, pure, arith,
}
use corefs.Bytes.{slice, zeros, length-zeros}
use corefs.Layout.{LayoutGeometry}
use corefs.Layout.Plan.{IsOrdered, IsFitted}
use corefs.Bitmap.{Bitmap}
use corefs.Volume.PayloadBitmap.{FreshMarked, mark_payload_lem, reserve_slot_zero_lem}
use corefs.Superblock.{Superblock}
use corefs.Device.{BlockDevice}
use corefs.Device.Lawful.{Laws}
use corefs.Inode.Codec.{FitsInode}
use corefs.Volume.InodeRecords.{write_inode_record, read_inode_record}
use corefs.Volume.Written.{Ready, write_blocks_lem, write_inode_lem}
use corefs.Volume.State.{
  write_maps, write_blocks, write_payload, payload_inode_of, mark_payload, reserve_slot_zero,
  on_fresh,
}

module _ (dev : BlockDevice) (IsValid : dev.Device → Type 0) (contents : dev.Device → List ℕ)
    (laws : Laws dev IsValid contents) (g : LayoutGeometry) (o : IsOrdered g) where
  abbrev ReadyDevice : dev.Device → Type 0
  ReadyDevice = Ready dev IsValid contents laws g o

  -- The bitmaps are in their places.
  pub record Mapped (blocks inodes : Bitmap) (after : dev.Device) : Type 0 where
    pub ready : ReadyDevice after
    pub block_bits :
        slice (g.block_bitmap_start * 4096) (g.block_bitmap_blocks * 4096) (contents after)
        ≡ blocks.bits
    pub inode_bits :
        slice (g.inode_bitmap_start * 4096) (g.inode_bitmap_blocks * 4096) (contents after)
        ≡ inodes.bits

  pub write_maps_lem :
      {q : ℕ → Bool} (fitted : IsFitted g) (mark : Method Bitmap (Unit {0})) (bm : Bitmap)
      → FreshMarked g.total_blocks q mark bm
      → (d : dev.Device) → ReadyDevice d
      → Returns (write_maps dev g mark) d λ maps d'. Mapped maps.0 maps.1 d'
  unfolding write_maps
  write_maps_lem fitted mark bm fm d r =
      let (im, fi) =
        reserve_slot_zero_lem g.inode_count fitted.some_inode (omega (arith, fitted.few_inodes)) in
      let last : Bitmap → Method dev.Device (Bitmap × Bitmap) =
        λ i. write_blocks dev g.inode_bitmap_start i.bits >>= λ _. pure (bm, i) in
      let second : Bitmap → Method dev.Device (Bitmap × Bitmap) = λ b.
        (λ d. (on_fresh g.inode_count reserve_slot_zero, d)) >>= λ i.
        write_blocks dev g.inode_bitmap_start i.bits >>= λ _. pure (b, i) in
      Returns-after (λ d. (on_fresh g.total_blocks mark, d))
        (λ b. write_blocks dev g.block_bitmap_start b.bits >>= λ _. second b) d
        (ap (λ x. (x, d)) fm.made)
        (Returns->>= (write_blocks dev g.block_bitmap_start bm.bits) (λ _. second bm) d
          (write_blocks_lem dev IsValid contents laws g o g.block_bitmap_start g.block_bitmap_blocks
            bm.bits d (omega (arith, fitted.block_bitmap, fitted.some_block)) (omega (arith, o))
            (omega (arith, fm.sized, fitted.block_bitmap, fitted.some_block)) r)
          λ _ d1 (c1, h1).
            Returns-after (λ d. (on_fresh g.inode_count reserve_slot_zero, d)) last d1
              (ap (λ x. (x, d1)) fi.made)
              (Returns->>= (write_blocks dev g.inode_bitmap_start im.bits) (λ _. pure (bm, im)) d1
                (write_blocks_lem dev IsValid contents laws g o g.inode_bitmap_start
                  g.inode_bitmap_blocks im.bits d1
                  (omega (arith, fitted.inode_bitmap, fitted.some_inode)) (omega (arith, o))
                  (omega (arith, fi.sized, fitted.inode_bitmap, fitted.some_inode)) c1.ready)
                λ _ d2 (c2, h2). (
                  (bm, im),
                  d2,
                  refl,
                  record {
                    ready = c2.ready;
                    block_bits = c2.in_front _ _ (omega (arith, o)) ∙ h1;
                    inode_bits = h2;
                  },
                )))

  module _ (fitted : IsFitted g) (sb : Superblock) (now needed : ℕ) (payload : List ℕ)
      (covers : length payload ≤ needed * 4096) (nonempty : 0 < needed)
      (fits : needed ≤ g.data_blocks) where
    abbrev pub image : List ℕ
    image = payload ++ zeros (needed * 4096 - length payload)

    -- The bitmaps, the payload and its inode are in their places.
    pub record Laid (blocks inodes : Bitmap) (after : dev.Device) : Type 0 where
      pub mapped : Mapped blocks inodes after
      pub run : slice (g.data_start * 4096) (needed * 4096) (contents after) ≡ image
      pub owner : read_inode_record dev g 0 after ≡ ok (payload_inode_of g sb now needed payload)

    pub write_payload_lem :
        (d : dev.Device)
        → ReadyDevice d
        → FitsInode (payload_inode_of g sb now needed payload)
        → Returns (write_payload dev g sb now needed payload) d λ maps d'. Laid maps.0 maps.1 d'
    unfolding write_payload payload_inode_of
    write_payload_lem d r v =
        let inode = payload_inode_of g sb now needed payload in
        let (bm, fm) = mark_payload_lem g needed o fits in
        let long : length image ≡ needed * 4096 = omega (
          arith,
          length-append payload (zeros (needed * 4096 - length payload)),
          length-zeros (needed * 4096 - length payload),
          covers,
        ) in
        let last : Bitmap × Bitmap → Method dev.Device (Bitmap × Bitmap) =
          λ maps. write_inode_record dev g 0 inode >>= λ _. pure maps in
        Returns->>= (write_maps dev g (mark_payload g needed))
          (λ maps. write_blocks dev g.data_start image >>= λ _. last maps) d
          (write_maps_lem fitted (mark_payload g needed) bm fm d r)
          λ maps d1 m.
            Returns->>= (write_blocks dev g.data_start image) (λ _. last maps) d1
              (write_blocks_lem dev IsValid contents laws g o g.data_start needed image d1 nonempty
                (omega (arith, o.data_last, fits)) long m.ready)
              λ _ d2 (c2, h2).
                Returns->>= (write_inode_record dev g 0 inode) (λ _. pure maps) d2
                  (write_inode_lem dev IsValid contents laws g o inode d2 fitted.some_inode v
                    (omega arith) c2.ready)
                  λ _ d3 (c3, own). (
                    maps,
                    d3,
                    refl,
                    record {
                      mapped = record {
                        ready = c3.ready;
                        block_bits =
                            c3.in_front _ _ (omega (arith, o))
                            ∙ c2.in_front _ _ (omega (arith, o))
                            ∙ m.block_bits;
                        inode_bits =
                            c3.in_front _ _ (omega (arith, o))
                            ∙ c2.in_front _ _ (omega (arith, o))
                            ∙ m.inode_bits;
                      };
                      run = c3.behind _ _ (omega (arith, o)) (omega (arith, o, fits)) ∙ h2;
                      owner = own;
                    },
                  )
