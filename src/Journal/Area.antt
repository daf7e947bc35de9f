-- ===== src/Journal/Area.antt =====
-- Reads and writes of a range of the record area, on a device that keeps the laws.
use native.Mathlib.Nat.{mod-eq_of_lt}
use mathlib.Core.Path.{subst}
use corefs.Common.{
  ℕ, ◌+◌, ◌-◌, ◌*◌, ◌^◌, ◌≤◌, ◌<◌, ◌≡◌, refl, sym, ap, ◌∙◌, inl, inr, false, Bool-cases, ◌==◌, List,
  [], length, ok, arith,
}
use corefs.Common.Word.{add64, sub64}
use corefs.Bytes.{slice, splice, take, length-slice, length-splice}
use corefs.Bytes.Nested.{slice-slice, splice-splice}
use corefs.Device.{BlockDevice}
use corefs.Device.Lawful.{InDevice, Laws}
use corefs.Journal.Log.{Journal, device_offset, read_bytes, write_bytes, aligned_start, aligned_end}
use corefs.Journal.Sectors.{Around, sectors-Around}

module _ (dev : BlockDevice) (IsValid : dev.Device → Type 0) (contents : dev.Device → List ℕ)
    (laws : Laws dev IsValid contents) where
  -- Where an offset of the record area is on the device
  abbrev pub place : Journal dev → ℕ → ℕ
  place j offset = j.record_start_block * 4096 + offset

  -- A journal on a valid device that may be written to and holds the record area.
  pub record IsOpen (j : Journal dev) : Type 0 where
    pub valid : IsValid j.device
    pub writable : (dev.geometry j.device).read_only ≡ false
    pub inside : place j j.header.record_area_bytes ≤ (dev.geometry j.device).capacity_bytes

  module _ (j : Journal dev) (open_j : IsOpen j) (offset len : ℕ)
      (fit : offset + len ≤ j.header.record_area_bytes) where
    abbrev at : ℕ
    at = place j offset

    abbrev sector : ℕ
    sector = (dev.geometry j.device).sector_size

    abbrev start : ℕ
    start = aligned_start sector at

    abbrev size : ℕ
    size = sub64 (aligned_end sector (at + len)) start

    abbrev capacity : ℕ
    capacity = (dev.geometry j.device).capacity_bytes

    room : at + len ≤ capacity
    room = omega (arith, fit, open_j.inside)

    word : capacity < 2 ^ 64
    word = (laws.sized j.device open_j.valid).1

    around : Around sector at len capacity
    around =
        let (_, w, positive, whole) = laws.sized j.device open_j.valid in
        sectors-Around sector at len capacity positive whole w room

    chunk : InDevice (dev.geometry j.device) start size
    chunk = record { aligned = around.aligned; whole = around.whole; inside = around.inside }

    chunk_fits : start + size ≤ length (contents j.device)
    chunk_fits = omega (arith, (laws.sized j.device open_j.valid).0, around.inside)

    raw : dev.read_at start size j.device ≡ ok (slice start size (contents j.device))
    raw = laws.read_lem start size j.device open_j.valid chunk

    device_offset_lem : device_offset dev j offset ≡ at
    unfolding device_offset
    device_offset_lem = omega (arith, room, word)

    sum : add64 at len ≡ at + len
    sum = mod-eq_of_lt (omega (arith, room, word))

    difference : sub64 at start ≡ at - start
    difference = omega (arith, around.before, room, word)

    pub read_bytes_lem :
        read_bytes dev offset len j ≡ ok (slice (place j offset) len (contents j.device))
    unfolding read_bytes
    read_bytes_lem = elim (Bool-cases (len == 0)) [
      | inl e ↦
          let none : len ≡ 0 = ground arith in
          rw none (ap ok (sym (slice_none at (contents j.device))))
      | inr e ↦ rw e rw device_offset_lem rw sum rw raw rw difference (
          ap ok (
            slice-slice start at len size (contents j.device) around.before around.behind
              chunk_fits))
    ]
      where
        slice_none : (k : ℕ) (bytes : List ℕ) → slice k 0 bytes ≡ []
        slice_none k bytes = unfold slice take in refl

  -- What a write leaves of the journal: only the device's bytes are other ones.
  pub record Wrote (j : Journal dev) (offset : ℕ) (bytes : List ℕ) (d : dev.Device) : Type 0 where
    pub valid_device : IsValid d
    pub written : contents d ≡ splice (place j offset) bytes (contents j.device)
    pub same_geometry : dev.geometry d ≡ dev.geometry j.device

  module _ (j : Journal dev) (open_j : IsOpen j) (offset : ℕ) (bytes : List ℕ)
      (some_bytes : 0 < length bytes)
      (fit : offset + length bytes ≤ j.header.record_area_bytes) where
    abbrev from : ℕ
    from = start j open_j offset (length bytes) fit

    abbrev width : ℕ
    width = size j open_j offset (length bytes) fit

    abbrev sectors : List ℕ
    sectors = splice (place j offset - from) bytes (slice from width (contents j.device))

    length-sectors : length sectors ≡ width
    length-sectors =
        let read_back =
          length-slice from width (contents j.device)
            (chunk_fits j open_j offset (length bytes) fit) in
        let a = around j open_j offset (length bytes) fit in
        length-splice (place j offset - from) bytes (slice from width (contents j.device))
          (omega (arith, a.before, a.behind, read_back))
        ∙ read_back

    pub write_bytes_lem :
        (d : dev.Device) × (write_bytes dev offset bytes j ≡ (ok tt, record j { device = d }))
        × Wrote j offset bytes d
    unfolding write_bytes
    write_bytes_lem =
        let a = around j open_j offset (length bytes) fit in
        let (d, e, v, c, g) = laws.write_lem from sectors j.device open_j.valid open_j.writable (
          subst (InDevice (dev.geometry j.device) from) (sym length-sectors)
            (chunk j open_j offset (length bytes) fit)) in
        let positive : (length bytes == 0) ≡ false = ground (arith, some_bytes) in
        (
          d,
          rw positive rw (device_offset_lem j open_j offset (length bytes) fit) rw
              (sum j open_j offset (length bytes) fit) rw (raw j open_j offset (length bytes) fit)
              rw (device_offset_lem j open_j offset (length bytes) fit) rw
              (difference j open_j offset (length bytes) fit)
              (ap (λ p. (p.0, record j { device = p.1 })) e),
          record {
            valid_device = v;
            written =
                c
                ∙ splice-splice from (place j offset) width bytes (contents j.device) a.before
                    a.behind (chunk_fits j open_j offset (length bytes) fit);
            same_geometry = g;
          },
        )
