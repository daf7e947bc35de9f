-- ===== src/Volume/FreshJournal.antt =====
-- Formatting the journal of a volume.
use corefs.Common.{
  ℕ, ◌+◌, ◌*◌, ◌≤◌, ◌<◌, ◌^◌, ◌≡◌, refl, sym, ap, ◌∙◌, false, ltb, List, ok, Method, ◌>>=◌, Returns,
  Returns->>=, arith,
}
use corefs.Common.Word.{add64, sub64, mul64}
use corefs.Bytes.{slice, zeros, length-zeros}
use corefs.Layout.{LayoutGeometry}
use corefs.Layout.Plan.{IsOrdered}
use corefs.Superblock.{Superblock}
use corefs.Device.{BlockDevice}
use corefs.Device.Lawful.{Laws}
use corefs.Device.Blocks
use corefs.Device.Blocks.{block_at}
use corefs.Journal.Header.{
  JournalHeader, fresh, encode_block, FitsFields, length-encode_block, decode_block_lem,
}
use corefs.Journal.Log.{Journal}
use corefs.Journal.Transaction as JournalTransaction
use corefs.Journal.Transaction.{open_journal}
use corefs.Volume.State.{write_blocks}
use corefs.Volume.Written.{Ready, Changed, sync-Ready, write_blocks_lem}

abbrev pub fresh_header : Superblock → JournalHeader
fresh_header sb = fresh (mul64 (sub64 sb.journal_blocks 1) 4096)

fresh-FitsFields : (n : ℕ) → n < 2 ^ 64 → FitsFields (fresh n)
unfolding fresh
fresh-FitsFields n h = omega (arith, h)

-- An empty journal on a device
abbrev pub fresh_journal : (dev : BlockDevice) → Superblock → dev.Device → Journal dev
fresh_journal dev sb d = record {
  device = d;
  header_block = sb.journal_start;
  record_start_block = add64 sb.journal_start 1;
  header = fresh_header sb;
}

module _ (dev : BlockDevice) (IsValid : dev.Device → Type 0) (contents : dev.Device → List ℕ)
    (laws : Laws dev IsValid contents) (g : LayoutGeometry) (o : IsOrdered g) (sb : Superblock)
    (start : sb.journal_start ≡ g.journal_start) (blocks : sb.journal_blocks ≡ g.journal_blocks)
    (two : 2 ≤ g.journal_blocks) where
  pub format_lem :
      (d : dev.Device)
      → Ready dev IsValid contents laws g o d
      → Returns (JournalTransaction.format dev sb) d λ _ d'.
        Changed dev IsValid contents laws g o g.journal_start g.data_start d d'
        × (slice (g.journal_start * 4096) 4096 (contents d') ≡ encode_block (fresh_header sb))
  unfolding JournalTransaction.format write_blocks
  format_lem d r =
      let header = encode_block (fresh_header sb) in
      let long = length-encode_block (fresh_header sb) (fresh-FitsFields _ (omega arith)) in
      let put = write_blocks_lem dev IsValid contents laws g o in
      let enough : ltb sb.journal_blocks 2 ≡ false = ground (arith, blocks, two) in
      let next : add64 sb.journal_start 1 ≡ g.journal_start + 1 = omega (arith, start, two, o) in
      let last : Method dev.Device (Journal dev) = λ d. (ok (fresh_journal dev sb d), d) in
      rw enough (
        Returns->>= (write_blocks dev sb.journal_start header)
          (λ _. write_blocks dev (add64 sb.journal_start 1) (zeros 4096) >>= λ _.
            dev.sync >>= λ _. last)
          d (put sb.journal_start 1 header d (omega arith) (omega (arith, start, two, o)) long r)
          λ _ d1 (c1, h1).
            Returns->>= (write_blocks dev (add64 sb.journal_start 1) (zeros 4096))
              (λ _. dev.sync >>= λ _. last) d1
              (put (add64 sb.journal_start 1) 1 (zeros 4096) d1 (omega arith)
                (omega (arith, next, two, o)) (length-zeros 4096) c1.ready)
              λ _ d2 (c2, _).
                Returns->>= dev.sync (λ _. last) d2
                  (sync-Ready dev IsValid contents laws g o d2 c2.ready)
                  λ _ d3 (r3, same). (
                    fresh_journal dev sb d3,
                    d3,
                    refl,
                    (
                      record {
                        ready = r3;
                        in_front = λ off len apart.
                            ap (slice off len) same
                            ∙ c2.in_front off len (omega (arith, apart, next))
                            ∙ c1.in_front off len (omega (arith, apart, start));
                        behind = λ off len apart inside.
                            ap (slice off len) same
                            ∙ c2.behind off len (omega (arith, apart, next, two, o)) inside
                            ∙ c1.behind off len (omega (arith, apart, start, two, o)) inside;
                      },
                      ap (slice (g.journal_start * 4096) 4096) same
                          ∙ c2.in_front _ _ (omega (arith, next))
                          ∙ ap (λ k. slice (k * 4096) 4096 (contents d1)) (sym start)
                          ∙ h1,
                    ),
                  ))

  -- A journal whose header block is that of an empty one is opened as such.
  pub open_fresh :
      (d : dev.Device)
      → Ready dev IsValid contents laws g o d
      → slice (g.journal_start * 4096) 4096 (contents d) ≡ encode_block (fresh_header sb)
      → open_journal dev sb d ≡ ok (fresh_journal dev sb d)
  unfolding open_journal block_at
  open_fresh d r is =
      rw
        (
          Blocks.read_block dev IsValid contents laws d r.usable sb.journal_start
              (omega (arith, r.room, start, two, o)),
          open_journal,
        )
        rw start rw is rw
        (decode_block_lem (fresh_header sb) (fresh-FitsFields _ (omega arith)), open_journal) refl
