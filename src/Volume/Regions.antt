-- ===== src/Volume/Regions.antt =====
-- The regions of a volume after they were formatted.
use corefs.Common.{
  ℕ, ◌+◌, ◌-◌, ◌*◌, ◌<◌, ◌^◌, ◌≡◌, refl, sym, ap, ◌∙◌, List, length, ok, Method, ◌>>=◌, Returns,
  Returns->>=, Returns-after, pure, arith,
}
use corefs.Bytes.{slice, zeros, length-zeros}
use corefs.Bytes.Nested.{slice-slice}
use corefs.Bitmap.{Bitmap}
use corefs.Layout.{LayoutGeometry}
use corefs.Layout.Plan.{IsOrdered, IsFitted}
use corefs.Device.{BlockDevice}
use corefs.Device.Lawful.{Laws}
use corefs.Device.Blocks.{block_at}
use corefs.Inode.{OnDiskInode, unused_inode, encode, decode}
use corefs.Inode.Codec.{FitsInode}
use corefs.Volume.{mark_reserved_blocks}
use corefs.Volume.InodeRecords.{write_block, read_inode_record}
use corefs.Volume.InodeUpdate.{placed, encoded_inode, read_inode_record_lem}
use corefs.Volume.State.{write_maps, write_blocks}
use corefs.Volume.PayloadBitmap.{mark_reserved_fresh}
use corefs.Volume.Written.{Changed, write_blocks_lem}
use corefs.Volume.Laid.{write_maps_lem}
use corefs.Volume.Format.{
  system_inode, inode_table_bytes, zero_fill_region, write_bitmaps, write_table,
}
use corefs.Volume.Filled.{inode_table_bytes_lem, zero_fill_region_lem, ReadyDevice}

unused-FitsInode : FitsInode unused_inode
unfolding unused_inode
unused-FitsInode = omega arith

system-FitsInode : (now : ℕ) → now < 2 ^ 64 → FitsInode (system_inode now)
unfolding system_inode
system-FitsInode now h = omega (arith, h)

module _ (dev : BlockDevice) (IsValid : dev.Device → Type 0) (contents : dev.Device → List ℕ)
    (laws : Laws dev IsValid contents) (g : LayoutGeometry) (o : IsOrdered g) where
  -- The inode of slot 0 is that of the first 256 bytes of the inode table.
  read_first_inode :
      (d : dev.Device) (inode : OnDiskInode) (bytes : List ℕ)
      → ReadyDevice dev IsValid contents laws g o d
      → 0 < g.inode_count
      → decode bytes ≡ ok inode
      → slice (g.inode_table_start * 4096) 256 (contents d) ≡ bytes
      → read_inode_record dev g 0 d ≡ ok inode
  unfolding block_at
  read_first_inode d inode bytes r below reads is =
      let (block, offset, at, t) = placed g 0 o below in
      let spot : block * 4096 + offset ≡ g.inode_table_start * 4096 = omega (arith, t.position) in
      let same : block * 4096 + offset - block * 4096 ≡ offset = omega arith in
      read_inode_record_lem dev IsValid contents laws g o d r.usable r.room 0 block offset at t
      ∙ ap decode (
          ap (λ k. slice k 256 (slice (block * 4096) 4096 (contents d))) (sym same)
          ∙ slice-slice (block * 4096) (block * 4096 + offset) 256 4096 (contents d) (omega arith)
              (omega (arith, t.whole))
              (omega (arith, r.room, t.before_end, o, (laws.sized d r.usable.valid).0))
          ∙ ap (λ k. slice k 256 (contents d)) spot
          ∙ is)
      ∙ reads

  module _ (fitted : IsFitted g) (now : ℕ) (time : now < 2 ^ 64) where
    table_written :
        (d d' : dev.Device) (slot system : List ℕ)
        → length slot ≡ 256
        → length system ≡ 256
        → slice (g.inode_table_start * 4096) (g.inode_table_blocks * 4096) (contents d)
          ≡ inode_table_bytes g slot system
        → ReadyDevice dev IsValid contents laws g o d
        → Changed dev IsValid contents laws g o g.journal_start
            (g.journal_start + g.journal_blocks)
            d
            d'
        → slice (g.inode_table_start * 4096) 256 (contents d') ≡ system
    table_written d d' slot system long long' is r c =
        let start = g.inode_table_start * 4096 in
        let size = g.inode_table_blocks * 4096 in
        let some_block : 0 < g.inode_table_blocks =
          omega (arith, o.table_wide, fitted.some_inode) in
        let none : start - start ≡ 0 = omega arith in
        c.in_front start 256 (omega (arith, o.journal_next, some_block))
        ∙ sym (
            slice-slice start start 256 size (contents d) (omega arith) (omega (arith, some_block))
              (omega (arith, r.room, o, (laws.sized d r.usable.valid).0)))
        ∙ ap (λ k. slice k 256 (slice start size (contents d))) none
        ∙ ap (slice 0 256) is
        ∙ (inode_table_bytes_lem g slot system some_block long long').1

    -- The table is written, and slot 0 holds the inode of an empty volume.
    pub write_table_lem :
        (d : dev.Device)
        → ReadyDevice dev IsValid contents laws g o d
        → Returns (write_table dev g now) d λ _ d'.
          ReadyDevice dev IsValid contents laws g o d'
          × (read_inode_record dev g 0 d' ≡ ok (system_inode now))
    unfolding write_table unused_inode system_inode
    write_table_lem d r =
        let (slot, slot_runs, _, slot_long) =
          encoded_inode unused_inode unused-FitsInode (omega arith) in
        let (system, runs, reads, long) =
          encoded_inode (system_inode now) (system-FitsInode now time) (omega arith) in
        let some_block : 0 < g.inode_table_blocks =
          omega (arith, o.table_wide, fitted.some_inode) in
        let table : List ℕ → List ℕ → Method dev.Device (Unit {0}) = λ a b.
          write_blocks dev g.inode_table_start (inode_table_bytes g a b) >>= λ _.
          zero_fill_region dev g.journal_start g.journal_blocks in
        Returns-after (λ d. (encode unused_inode, d))
          (λ a. (λ d. (encode (system_inode now), d)) >>= table a) d (ap (λ x. (x, d)) slot_runs)
          (Returns-after (λ d. (encode (system_inode now), d)) (table slot) d
            (ap (λ x. (x, d)) runs)
            (Returns->>= (write_blocks dev g.inode_table_start (inode_table_bytes g slot system))
              (λ _. zero_fill_region dev g.journal_start g.journal_blocks) d
              (write_blocks_lem dev IsValid contents laws g o g.inode_table_start
                g.inode_table_blocks (inode_table_bytes g slot system) d some_block
                (omega (arith, o)) (inode_table_bytes_lem g slot system some_block slot_long long).0
                r)
              λ _ d1 (c1, is).
                let (a, d2, e, c2) =
                  zero_fill_region_lem dev IsValid contents laws g o g.journal_start
                    g.journal_blocks d1 (omega (arith, o)) c1.ready in
                (
                  a,
                  d2,
                  e,
                  (
                    c2.ready,
                    read_first_inode d2 (system_inode now) system c2.ready fitted.some_inode reads
                        (table_written d1 d2 slot system slot_long long is c1.ready c2),
                  ),
                )))

    pub write_bitmaps_lem :
        (d : dev.Device)
        → ReadyDevice dev IsValid contents laws g o d
        → Returns (write_bitmaps dev g) d λ _ d'. ReadyDevice dev IsValid contents laws g o d'
    unfolding write_bitmaps write_block write_blocks
    write_bitmaps_lem d r =
        let (bm, fm) = mark_reserved_fresh g o in
        let maps : Method dev.Device (Bitmap × Bitmap) =
          write_maps dev g (mark_reserved_blocks g) in
        Returns->>= (write_block dev 0 (zeros 4096)) (λ _. maps >>= λ _. pure tt) d
          (write_blocks_lem dev IsValid contents laws g o 0 1 (zeros 4096) d (omega arith)
            (omega (arith, o)) (length-zeros 4096) r)
          λ _ d1 (c1, _).
            Returns->>= maps (λ _. pure tt) d1
              (write_maps_lem dev IsValid contents laws g o fitted (mark_reserved_blocks g) bm fm d1
                c1.ready)
              λ _ d2 m. (tt, d2, refl, m.ready)
