-- ===== src/Device/Blocks.antt =====
-- Whole blocks of 4,096 bytes on a lawful device.
use mathlib.Core.Path.{subst}
use native.Mathlib.Nat.{dvd-mul_left_of_dvd, mod-eq-zero_of_dvd, dvd_of_mod-eq-zero, mod-eq_of_lt}
use corefs.Common.{
  ℕ, ◌+◌, ◌*◌, ◌%◌, ◌≤◌, ◌<◌, ◌≡◌, ◌≢◌, sym, ap, ◌∙◌, inl, inr, false, Bool-cases, ltb, List,
  length, ok, arith,
}
use corefs.Common.Word.{mul64}
use corefs.Bytes.{slice, splice, slice-splice}
use corefs.Bytes.Ranges.{slice-splice_before, slice-splice_behind}
use corefs.Device.{BlockDevice, DeviceGeometry}
use corefs.Device.Lawful.{Laws, InDevice}

-- A block that lies in the device
abbrev pub Inside : DeviceGeometry → ℕ → Type 0
Inside g b = b * 4096 + 4096 ≤ g.capacity_bytes

module _ (dev : BlockDevice) (IsValid : dev.Device → Type 0) (contents : dev.Device → List ℕ)
    (laws : Laws dev IsValid contents) where
  -- A device to which blocks can be written, as blocks are whole sectors.
  pub record Usable (d : dev.Device) : Type 0 where
    pub valid : IsValid d
    pub writable : (dev.geometry d).read_only ≡ false
    pub whole : 4096 % (dev.geometry d).sector_size ≡ 0

  unfoldable pub block_at : ℕ → dev.Device → List ℕ
  block_at b d = slice (b * 4096) 4096 (contents d)

  -- `after` is `before` with `bytes` in the `n` blocks from `b` on.
  pub record Wrote (b n : ℕ) (bytes : List ℕ) (before after : dev.Device) : Type 0 where
    pub usable : Usable after
    pub same_geometry : dev.geometry after ≡ dev.geometry before
    pub here : slice (b * 4096) (n * 4096) (contents after) ≡ bytes
    pub in_front :
        (off len : ℕ)
        → off + len ≤ b * 4096
        → slice off len (contents after) ≡ slice off len (contents before)
    pub behind :
        (off len : ℕ)
        → (b + n) * 4096 ≤ off
        → off + len ≤ (dev.geometry before).capacity_bytes
        → slice off len (contents after) ≡ slice off len (contents before)

  -- `after` is `before` with `bytes` in block `b`.
  pub record Written (b : ℕ) (bytes : List ℕ) (before after : dev.Device) : Type 0 where
    pub usable : Usable after
    pub same_geometry : dev.geometry after ≡ dev.geometry before
    pub here : block_at b after ≡ bytes
    pub elsewhere :
        (c : ℕ) → c ≢ b → Inside (dev.geometry before) c → block_at c after ≡ block_at c before
    pub as_blocks : Wrote b 1 bytes before after

  module _ (d : dev.Device) (u : Usable d) (b n : ℕ)
      (h : (b + n) * 4096 ≤ (dev.geometry d).capacity_bytes) where
    -- The first byte does not wrap around, unless it is the end of the largest device.
    first_byte : 0 < n → mul64 b 4096 ≡ b * 4096
    first_byte some = mod-eq_of_lt (omega (arith, h, (laws.sized d u.valid).1))

    in_blocks : InDevice (dev.geometry d) (b * 4096) (n * 4096)
    in_blocks =
        let s = (dev.geometry d).sector_size in
        let whole = λ (k : ℕ).
          mod-eq-zero_of_dvd s (dvd-mul_left_of_dvd s (dvd_of_mod-eq-zero s u.whole) k) in
        record { aligned = whole b; whole = whole n; inside = omega (arith, h) }

    pub read_blocks :
        0 < n
        → dev.read_at (mul64 b 4096) (mul64 n 4096) d
          ≡ ok (slice (b * 4096) (n * 4096) (contents d))
    read_blocks some =
        let size : mul64 n 4096 ≡ n * 4096 =
          mod-eq_of_lt (omega (arith, h, (laws.sized d u.valid).1)) in
        rw (first_byte some) rw size (laws.read_lem (b * 4096) (n * 4096) d u.valid in_blocks)

    pub write_blocks :
        (bytes : List ℕ)
        → 0 < n
        → length bytes ≡ n * 4096
        → (d' : dev.Device) × (dev.write_at (mul64 b 4096) bytes d ≡ (ok tt, d'))
          × Wrote b n bytes d d'
    write_blocks bytes some long =
        let (d', runs, v, bytes_of, same) =
          laws.write_lem (b * 4096) bytes d u.valid u.writable
            (subst (InDevice (dev.geometry d) (b * 4096)) (sym long) in_blocks) in
        let sized = (laws.sized d u.valid).0 in
        let fit : b * 4096 + length bytes ≤ length (contents d) = omega (arith, h, long, sized) in
        (
          d',
          rw (first_byte some) runs,
          record {
            usable = record {
              valid = v;
              writable = ap (λ g. g.read_only) same ∙ u.writable;
              whole = ap (λ g. 4096 % g.sector_size) same ∙ u.whole;
            };
            same_geometry = same;
            here =
                ap (slice (b * 4096) (n * 4096)) bytes_of
                ∙ ap (λ k. slice (b * 4096) k (splice (b * 4096) bytes (contents d))) (sym long)
                ∙ slice-splice (b * 4096) bytes (contents d) (omega (arith, fit));
            in_front = λ off len apart.
                ap (slice off len) bytes_of
                ∙ slice-splice_before (b * 4096) bytes (contents d) fit off len apart;
            behind = λ off len apart inside.
                ap (slice off len) bytes_of
                ∙ slice-splice_behind (b * 4096) bytes (contents d) fit off len
                    (omega (arith, apart, long)) (omega (arith, inside, sized));
          },
        )

  module _ (d : dev.Device) (u : Usable d) (b : ℕ) (h : Inside (dev.geometry d) b) where
    one_block : (b + 1) * 4096 ≤ (dev.geometry d).capacity_bytes
    one_block = omega (arith, h)

    pub read_block : dev.read_at (mul64 b 4096) 4096 d ≡ ok (block_at b d)
    unfolding block_at
    read_block = read_blocks d u b 1 one_block (omega arith)

    pub write_block :
        (bytes : List ℕ)
        → length bytes ≡ 4096
        → (d' : dev.Device) × (dev.write_at (mul64 b 4096) bytes d ≡ (ok tt, d'))
          × Written b bytes d d'
    unfolding block_at
    write_block bytes long =
        let (d', runs, w) = write_blocks d u b 1 one_block bytes (omega arith) long in
        (
          d',
          runs,
          record {
            usable = w.usable;
            same_geometry = w.same_geometry;
            here = w.here;
            elsewhere = λ c apart inside. elim (Bool-cases (ltb c b)) [
              | inl e ↦ w.in_front (c * 4096) 4096 (ground arith)
              | inr e ↦ w.behind (c * 4096) 4096 (grind (arith, apart)) inside
            ];
            as_blocks = w;
          },
        )
