-- ===== src/Journal/Ready.antt =====
-- A journal whose log and header stand in their places, and what each device call keeps of it.
use native.Mathlib.Nat.{dvd-mul_left_of_dvd, mod-eq-zero_of_dvd, dvd_of_mod-eq-zero, mod-eq_of_lt}
use mathlib.Core.Path.{subst}
use corefs.Common.{
  ℕ, ◌+◌, ◌*◌, ◌%◌, ◌≤◌, ◌≡◌, refl, sym, ap, ◌∙◌, List, [], ◌∷◌, ◌++◌, length, arith, Returns,
  Returns->>=,
}
use corefs.Common.Word.{mul64}
use corefs.Bytes.{slice, splice, slice-splice}
use corefs.Bytes.Ranges.{slice-splice_behind}
use corefs.Device.{BlockDevice}
use corefs.Device.Lawful.{Laws, InDevice}
use corefs.Journal.Header.{FitsFields, encode_block, length-encode_block}
use corefs.Journal.Log.{Journal, on_device}
use corefs.Journal.Entries.{Entry, at, Open, FitsEntry}
use corefs.Journal.Append.{HoldsLog, log_bytes}
use corefs.Journal.Transaction.{flush_header}

pub data AllFit : List Entry → Type 0 where
  none_fits : AllFit []
  one_fits : {e : Entry} {es : List Entry} → FitsEntry e → AllFit es → AllFit (e ∷ es)

pub AllFit-append : (es : List Entry) (e : Entry) → AllFit es → FitsEntry e → AllFit (es ++ e ∷ [])
AllFit-append [] e none_fits f = one_fits f none_fits
AllFit-append (x ∷ es) e (one_fits g fs) f = one_fits g (AllFit-append es e fs f)

module _ (dev : BlockDevice) (IsValid : dev.Device → Type 0) (contents : dev.Device → List ℕ)
    (laws : Laws dev IsValid contents) where
  -- The log of the journal is `es`, the header block stands before it, blocks are whole sectors.
  pub record Ready (es : List Entry) (j : Journal dev) : Type 0 where
    pub opened : Open dev IsValid contents laws j
    pub log : HoldsLog dev IsValid contents laws j es
    pub entries : AllFit es
    pub header_before : j.header_block + 1 ≡ j.record_start_block
    pub sectors : 4096 % (dev.geometry j.device).sector_size ≡ 0
    pub fields : FitsFields j.header

  -- The header block of the device holds the header.
  abbrev pub Stored : Journal dev → Type 0
  Stored j = slice (j.header_block * 4096) 4096 (contents j.device) ≡ encode_block j.header

  module _ (es : List Entry) (j : Journal dev) (ready : Ready es j) where
    -- A device that has the same geometry and the same bytes in the record area keeps the log.
    pub keeps :
        (d : dev.Device)
        → IsValid d
        → dev.geometry d ≡ dev.geometry j.device
        → slice
            (at dev IsValid contents laws j j.header.head_offset)
            (length (log_bytes es))
            (contents d)
          ≡ slice
              (at dev IsValid contents laws j j.header.head_offset)
              (length (log_bytes es))
              (contents j.device)
        → Ready es (record j { device = d })
    keeps d v g same = record {
      opened = record {
        valid = v;
        writable = ap (λ x. x.read_only) g ∙ ready.opened.writable;
        inside = omega (arith, ready.opened.inside, ap (λ x. x.capacity_bytes) g);
      };
      log = record {
        held = record { inside = ready.log.held.inside; held = same ∙ ready.log.held.held };
        ends = ready.log.ends;
      };
      entries = ready.entries;
      header_before = ready.header_before;
      sectors = ap (λ x. 4096 % x.sector_size) g ∙ ready.sectors;
      fields = ready.fields;
    }

    -- A block is a range of whole sectors.
    pub block-InDevice :
        (block : ℕ)
        → block * 4096 + 4096 ≤ (dev.geometry j.device).capacity_bytes
        → InDevice (dev.geometry j.device) (block * 4096) 4096
    block-InDevice block h = record {
      aligned = mod-eq-zero_of_dvd (dev.geometry j.device).sector_size (
          dvd-mul_left_of_dvd (dev.geometry j.device).sector_size
            (dvd_of_mod-eq-zero (dev.geometry j.device).sector_size ready.sectors) block);
      whole = ready.sectors;
      inside = h;
    }

    pub sync-Ready : Returns (on_device dev dev.sync) j λ _ j'.
        Ready es j'
        × (contents j'.device ≡ contents j.device)
        × (j'.header ≡ j.header)
        × (j'.header_block ≡ j.header_block)
        × (j'.record_start_block ≡ j.record_start_block)
        × (dev.geometry j'.device ≡ dev.geometry j.device)
    sync-Ready =
        let (d, e, v, c, g) = laws.sync_lem j.device ready.opened.valid in
        (
          tt,
          record j { device = d },
          ap (λ p. (p.0, record j { device = p.1 })) e,
          (
            keeps d v g (
                ap
                  (slice (at dev IsValid contents laws j j.header.head_offset)
                    (length (log_bytes es)))
                  c),
            c,
            refl,
            refl,
            refl,
            g,
          ),
        )

    pub header_inside : j.header_block * 4096 + 4096 ≤ (dev.geometry j.device).capacity_bytes
    header_inside = omega (arith, ready.opened.inside, ready.header_before)

    -- The header block is written, and the log stays.
    write_header :
        Returns
          (on_device dev (dev.write_at (mul64 j.header_block 4096) (encode_block j.header)))
          j
          λ _ j'.
            Ready es j' × Stored j' × (j'.header ≡ j.header) × (j'.header_block ≡ j.header_block)
    write_header =
        let block = encode_block j.header in
        let long : length block ≡ 4096 = length-encode_block j.header ready.fields in
        let off : mul64 j.header_block 4096 ≡ j.header_block * 4096 =
          mod-eq_of_lt (omega (arith, header_inside, (laws.sized j.device ready.opened.valid).1)) in
        let total = length (contents j.device) in
        let capacity : total ≡ (dev.geometry j.device).capacity_bytes =
          (laws.sized j.device ready.opened.valid).0 in
        let (d, e, v, c, g) =
          laws.write_lem (j.header_block * 4096) block j.device ready.opened.valid
            ready.opened.writable
            (subst (InDevice (dev.geometry j.device) (j.header_block * 4096)) (sym long)
              (block-InDevice j.header_block header_inside)) in
        (
          tt,
          record j { device = d },
          rw off (ap (λ p. (p.0, record j { device = p.1 })) e),
          (
            keeps d v g (
                ap
                  (slice (at dev IsValid contents laws j j.header.head_offset)
                    (length (log_bytes es)))
                  c
                ∙ slice-splice_behind (j.header_block * 4096) block (contents j.device)
                    (omega (arith, long, capacity, header_inside))
                    (at dev IsValid contents laws j j.header.head_offset) (length (log_bytes es))
                    (omega (arith, long, ready.header_before))
                    (omega (arith, capacity, ready.opened.inside, ready.log.held.inside))),
            ap (slice (j.header_block * 4096) 4096) c
                ∙ ap
                    (λ n.
                      slice (j.header_block * 4096) n
                        (splice (j.header_block * 4096) block (contents j.device)))
                    (sym long)
                ∙ slice-splice (j.header_block * 4096) block (contents j.device)
                    (omega (arith, capacity, header_inside)),
            refl,
            refl,
          ),
        )

  -- `flush_header` returns, with the header in its block and the log as it was.
  pub flush_header-Stored :
      (es : List Entry) (j : Journal dev)
      → Ready es j
      → Returns (flush_header dev) j λ _ j'.
        Ready es j' × Stored j' × (j'.header ≡ j.header) × (j'.header_block ≡ j.header_block)
  unfolding flush_header
  flush_header-Stored es j ready =
      Returns->>= (on_device dev (dev.write_at (mul64 j.header_block 4096) (encode_block j.header)))
        (λ _. on_device dev dev.sync) j (write_header es j ready)
        λ _ k (r, stored, h, b).
          let (_, l, e, (r', c, h', b', _, _)) = sync-Ready es k r in
          (
            tt,
            l,
            e,
            (
              r',
              (λ i. slice (b' i * 4096) 4096 (c i)) ∙ stored ∙ ap encode_block (sym h'),
              h' ∙ h,
              b' ∙ b,
            ),
          )
