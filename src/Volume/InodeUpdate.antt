-- ===== src/Volume/InodeUpdate.antt =====
-- Writing one inode record changes that record and no other.
use mathlib.Core.Path.{subst}
use corefs.Common.{
  ℕ, ◌+◌, ◌*◌, ◌≤◌, ◌<◌, ◌≡◌, ◌≢◌, refl, sym, ap, ◌∙◌, inl, inr, Bool-cases, ltb, ◌==◌, List,
  length, CoreFsResult, ok, err, Method, ◌>>=◌, Returns, >>=-ok, arith,
}
use corefs.Bytes.{slice, splice, slice-splice, length-splice, length-slice}
use corefs.Bytes.Ranges.{slice-splice_before, slice-splice_behind}
use corefs.Sealed.Decode.{decode_sealed-intact, Encoding-encodes}
use corefs.Layout.{LayoutGeometry, inode_record_location}
use corefs.Layout.Plan.{IsOrdered, InTable, Located, inode_record_location-Located}
use corefs.Inode.{OnDiskInode, encode, decode, parse}
use corefs.Inode.Codec.{FitsInode, encode-Encoding_inode}
use corefs.Device.{BlockDevice}
use corefs.Device.Lawful.{Laws}
use corefs.Device.Blocks
use corefs.Device.Blocks.{Inside, Usable, Written, block_at}
use corefs.Volume.InodeRecords.{write_block, read_block, write_inode_record, read_inode_record}

abbrev pub Placed : LayoutGeometry → ℕ → Type 0
Placed g i =
    (block : ℕ) × (offset : ℕ) × (inode_record_location g i ≡ ok (block, offset))
    × InTable g i block offset

pub placed : (g : LayoutGeometry) (i : ℕ) → IsOrdered g → i < g.inode_count → Placed g i
placed g i o h = from (inode_record_location g i) refl (inode_record_location-Located g i o)
  where
    from : (r : CoreFsResult (ℕ × ℕ)) → inode_record_location g i ≡ r → Located g i r → Placed g i
    from (ok (block, offset)) e (below, table) = (block, offset, e, table)
    from (err x) e (above, is) = absurd (omega (arith, above, h))

-- The bytes of an inode with at most 8 extents.
pub encoded_inode :
    (inode : OnDiskInode)
    → FitsInode inode
    → length inode.extents ≤ 8
    → (bytes : List ℕ) × (encode inode ≡ ok bytes)
      × (decode bytes ≡ ok inode)
      × (length bytes ≡ 256)
unfolding decode
encoded_inode inode v few =
    let (bytes, runs, reads) = Encoding-encodes (encode-Encoding_inode inode v) few in
    (bytes, runs, reads, (decode_sealed-intact 252 256 parse bytes reads).0)

module _ (dev : BlockDevice) (IsValid : dev.Device → Type 0) (contents : dev.Device → List ℕ)
    (laws : Laws dev IsValid contents) (g : LayoutGeometry) (o : IsOrdered g) where
  module _ (d : dev.Device) (u : Usable dev IsValid contents laws d)
      (room : g.total_blocks * 4096 ≤ (dev.geometry d).capacity_bytes) where
    InTable-Inside : (i block offset : ℕ) → InTable g i block offset → Inside (dev.geometry d) block
    InTable-Inside i block offset t =
        omega (arith, room, t.before_end, o.journal_next, o.data_next, o.data_last)

    pub read_inode_record_lem :
        (i block offset : ℕ)
        → inode_record_location g i ≡ ok (block, offset)
        → InTable g i block offset
        → read_inode_record dev g i d
          ≡ decode (slice offset 256 (block_at dev IsValid contents laws block d))
    unfolding read_inode_record read_block
    read_inode_record_lem i block offset e t =
        rw (e, read_inode_record) rw
          (
            Blocks.read_block dev IsValid contents laws d u block (InTable-Inside i block offset t),
            read_inode_record,
          )
          refl

    length-block_at :
        (b : ℕ) → Inside (dev.geometry d) b → length (block_at dev IsValid contents laws b d) ≡ 4096
    unfolding block_at
    length-block_at b h =
        length-slice (b * 4096) 4096 (contents d) (omega (arith, h, (laws.sized d u.valid).0))

  -- Reading an inode record depends on nothing but the inode table.
  pub read_inode_record-same :
      (d after : dev.Device) (i : ℕ)
      → Usable dev IsValid contents laws d
      → g.total_blocks * 4096 ≤ (dev.geometry d).capacity_bytes
      → Usable dev IsValid contents laws after
      → g.total_blocks * 4096 ≤ (dev.geometry after).capacity_bytes
      → i < g.inode_count
      → ((off len : ℕ)
          → g.inode_table_start * 4096 ≤ off
          → off + len ≤ g.journal_start * 4096
          → slice off len (contents after) ≡ slice off len (contents d))
      → read_inode_record dev g i after ≡ read_inode_record dev g i d
  unfolding block_at
  read_inode_record-same d after i u room u' room' below same =
      let (block, offset, at, t) = placed g i o below in
      read_inode_record_lem after u' room' i block offset at t
      ∙ ap (λ bytes. decode (slice offset 256 bytes))
          (same (block * 4096) 4096 (omega (arith, t.after_start)) (omega (arith, t.before_end)))
      ∙ sym (read_inode_record_lem d u room i block offset at t)

  module _ (i block offset : ℕ) (t : InTable g i block offset) (d after : dev.Device)
      (u : Usable dev IsValid contents laws d)
      (room : g.total_blocks * 4096 ≤ (dev.geometry d).capacity_bytes) (bytes : List ℕ)
      (long : length bytes ≡ 256)
      (w : Written dev IsValid contents laws block
        (splice offset bytes (block_at dev IsValid contents laws block d))
        d
        after) where
    here : Inside (dev.geometry d) block
    here = InTable-Inside d u room i block offset t

    fits : offset + length bytes ≤ length (block_at dev IsValid contents laws block d)
    fits = omega (arith, t.whole, long, length-block_at d u room block here)

    -- The record that was written.
    slice_written : slice offset 256 (block_at dev IsValid contents laws block after) ≡ bytes
    slice_written =
        ap (slice offset 256) w.here
        ∙ ap
            (λ n. slice offset n (splice offset bytes (block_at dev IsValid contents laws block d)))
            (sym long)
        ∙ slice-splice offset bytes (block_at dev IsValid contents laws block d)
            (omega (arith, fits))

    -- Another record.
    slice_other :
        (j block' offset' : ℕ)
        → j ≢ i
        → InTable g j block' offset'
        → slice offset' 256 (block_at dev IsValid contents laws block' after)
          ≡ slice offset' 256 (block_at dev IsValid contents laws block' d)
    slice_other j block' offset' apart t' = elim (Bool-cases (block' == block)) [
      | inr e ↦
          ap (slice offset' 256)
            (w.elsewhere block' (ground arith) (InTable-Inside d u room j block' offset' t'))
      | inl e ↦
          let same : block' ≡ block = ground arith in
          let buf = block_at dev IsValid contents laws block d in
          rw same (
            ap (slice offset' 256) w.here ∙ elim (Bool-cases (ltb j i)) [
              | inl f ↦
                  slice-splice_before offset bytes buf fits offset' 256
                    (ground (arith, t.position, t'.position, same))
              | inr f ↦
                  slice-splice_behind offset bytes buf fits offset' 256
                    (ground (arith, t.position, t'.position, same, apart, long))
                    (omega (arith, t'.whole, length-block_at d u room block here))
            ])
    ]

  -- The inode at `i` was replaced by `inode`, and nothing else was changed but bytes of the inode table.
  pub record Updated (i : ℕ) (inode : OnDiskInode) (before after : dev.Device) : Type 0 where
    pub usable : Usable dev IsValid contents laws after
    pub same_geometry : dev.geometry after ≡ dev.geometry before
    pub this : read_inode_record dev g i after ≡ ok inode
    pub others :
        (j : ℕ)
        → j < g.inode_count
        → j ≢ i
        → read_inode_record dev g j after ≡ read_inode_record dev g j before
    pub in_front :
        (off len : ℕ)
        → off + len ≤ g.inode_table_start * 4096
        → slice off len (contents after) ≡ slice off len (contents before)
    pub behind :
        (off len : ℕ)
        → g.journal_start * 4096 ≤ off
        → off + len ≤ (dev.geometry before).capacity_bytes
        → slice off len (contents after) ≡ slice off len (contents before)

  -- On a writable device that holds the volume and whose sectors divide blocks, writing to a valid index
  -- an inode with at most 8 extents and with numbers that fit in their fields returns; reading that
  -- index gives the inode, reading any other valid index gives what it gave before, and the bytes in
  -- front of the inode table and behind it are what they were.
  pub write_inode_record-Updated :
      (d : dev.Device) (i : ℕ) (inode : OnDiskInode)
      → Usable dev IsValid contents laws d
      → g.total_blocks * 4096 ≤ (dev.geometry d).capacity_bytes
      → i < g.inode_count
      → FitsInode inode
      → length inode.extents ≤ 8
      → Returns (write_inode_record dev g i inode) d λ _ d'. Updated i inode d d'
  unfolding write_inode_record write_block read_block
  write_inode_record-Updated d i inode u room below v few =
      let (block, offset, at, t) = placed g i o below in
      let (encoded, runs, reads, long) = encoded_inode inode v few in
      let here : Inside (dev.geometry d) block = InTable-Inside d u room i block offset t in
      let buf = block_at dev IsValid contents laws block d in
      let buf_long : length buf ≡ 4096 = length-block_at d u room block here in
      let new_long : length (splice offset encoded buf) ≡ 4096 =
        length-splice offset encoded buf (omega (arith, t.whole, long, buf_long)) ∙ buf_long in
      let (after, writes, w) =
        Blocks.write_block dev IsValid contents laws d u block here (splice offset encoded buf)
          new_long in
      let still_room : g.total_blocks * 4096 ≤ (dev.geometry after).capacity_bytes =
        subst (λ geo. g.total_blocks * 4096 ≤ geo.capacity_bytes) (sym w.same_geometry) room in
      let put : List ℕ → List ℕ → Method dev.Device (Unit {0}) =
        λ block_buf bytes. write_block dev block (splice offset bytes block_buf) in
      let code : List ℕ → Method dev.Device (Unit {0}) =
        λ block_buf. (λ d. (encode inode, d)) >>= put block_buf in
      let fetch : ℕ × ℕ → Method dev.Device (Unit {0}) = λ place.
        let (b, off) = place in
        (λ d. (read_block dev b d, d)) >>= λ block_buf.
        (λ d. (encode inode, d)) >>= λ bytes. write_block dev b (splice off bytes block_buf) in
      (
        tt,
        after,
        >>=-ok (λ d. (inode_record_location g i, d)) fetch d (λ k. (at k, d))
            ∙ >>=-ok (λ d. (read_block dev block d, d)) code d
                (λ k. (Blocks.read_block dev IsValid contents laws d u block here k, d))
            ∙ >>=-ok (λ d. (encode inode, d)) (put buf) d (λ k. (runs k, d))
            ∙ writes,
        record {
          usable = w.usable;
          same_geometry = w.same_geometry;
          this =
              read_inode_record_lem after w.usable still_room i block offset at t
              ∙ ap decode (slice_written i block offset t d after u room encoded long w)
              ∙ reads;
          others = λ j below' apart.
              let (block', offset', at', t') = placed g j o below' in
              read_inode_record_lem after w.usable still_room j block' offset' at' t'
              ∙ ap decode (
                  slice_other i block offset t d after u room encoded long w j block' offset' apart
                    t')
              ∙ sym (read_inode_record_lem d u room j block' offset' at' t');
          in_front =
              λ off len apart. w.as_blocks.in_front off len (omega (arith, apart, t.after_start));
          behind = λ off len apart inside.
              w.as_blocks.behind off len (omega (arith, apart, t.before_end)) inside;
        },
      )
