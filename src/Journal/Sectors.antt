-- ===== src/Journal/Sectors.antt =====
-- The whole sectors around a range of the device.
use native.Mathlib.Nat.{
  div-add-mod, mod-lt, mul-le-mul_right, div-lt_iff_lt-mul, div-mul-le_self, mul-mod_left,
  mod-eq_of_lt, dvd-sub, dvd-mul_left, mod-eq-zero_of_dvd, mul_comm,
}
use corefs.Common.{
  ℕ, ◌+◌, ◌-◌, ◌*◌, ◌/◌, ◌%◌, ◌^◌, ◌≤◌, ◌<◌, ◌≡◌, ap, inl, inr, Bool-cases, ◌==◌, arith,
}
use corefs.Common.Word.{sub64, mul64, div_ceil}
use corefs.Journal.Log.{aligned_start, aligned_end}

-- The last number of sectors that holds `size` bytes and is not past the end of the device.
module _ (s size cap : ℕ) (sector : 0 < s) (whole : cap % s ≡ 0) (fit : size ≤ cap) where
  divided : size / s * s + size % s ≡ size
  divided = omega (arith, div-add-mod size s, mul_comm s (size / s))

  sectors : cap / s * s ≡ cap
  sectors = omega (arith, whole, div-add-mod cap s, mul_comm s (cap / s))

  -- A sector that is not full is inside the device.
  next_sector : 0 < size % s → (size / s + 1) * s ≤ cap
  next_sector h =
      let below : size < cap = elim (Bool-cases (size == cap)) [
        | inl e ↦
            let same : size ≡ cap = ground arith in
            absurd (omega (arith, h, whole, ap (λ k. k % s) same))
        | inr e ↦ ground (arith, fit)
      ] in
      let fewer : size / s < cap / s =
        (div-lt_iff_lt-mul {k = s} {x = size} {y = cap / s} sector).1
          (omega (arith, below, sectors)) in
      let product : (size / s + 1) * s ≤ cap / s * s = mul-le-mul_right s (omega (arith, fewer)) in
      omega (arith, product, sectors)

  ceil_covers : size ≤ div_ceil size s * s
  ceil_covers = elim (Bool-cases (size % s == 0)) [
    | inl e ↦
        let none : size % s ≡ 0 = ground arith in
        let exact : div_ceil size s ≡ size / s = omega (arith, none) in
        rw exact (omega (arith, divided, none))
    | inr e ↦
        let more : div_ceil size s ≡ size / s + 1 = ground arith in
        let suc_mul : (size / s + 1) * s ≡ size / s * s + s = omega arith in
        rw more (omega (arith, divided, mod-lt size {m = s} sector, suc_mul))
  ]

  ceil_inside : div_ceil size s * s ≤ cap
  ceil_inside = elim (Bool-cases (size % s == 0)) [
    | inl e ↦
        let none : size % s ≡ 0 = ground arith in
        let exact : div_ceil size s ≡ size / s = omega (arith, none) in
        rw exact (omega (arith, divided, fit))
    | inr e ↦
        let more : div_ceil size s ≡ size / s + 1 = ground arith in
        rw more (next_sector (ground arith))
  ]

-- The sectors that a transfer of `len` bytes at `at` reads and writes.
pub record Around (s at len cap : ℕ) : Type 0 where
  pub aligned : aligned_start s at % s ≡ 0
  pub whole : sub64 (aligned_end s (at + len)) (aligned_start s at) % s ≡ 0
  pub before : aligned_start s at ≤ at
  pub behind : at + len ≤ aligned_start s at + sub64 (aligned_end s (at + len)) (aligned_start s at)
  pub inside : aligned_start s at + sub64 (aligned_end s (at + len)) (aligned_start s at) ≤ cap

pub sectors-Around :
    (s at len cap : ℕ) → 0 < s → cap % s ≡ 0 → cap < 2 ^ 64 → at + len ≤ cap → Around s at len cap
unfolding aligned_start aligned_end
sectors-Around s at len cap sector whole word fit = record {
  aligned = rw start (mul-mod_left (at / s) s);
  whole = rw size (
      mod-eq-zero_of_dvd s
        (dvd-sub s (dvd-mul_left s (div_ceil (at + len) s)) (dvd-mul_left s (at / s))));
  before = rw start start_before;
  behind = omega (arith, start, size, start_before, covers);
  inside = omega (arith, start, size, start_before, covers, last);
}
  where
    start_before : at / s * s ≤ at
    start_before = div-mul-le_self at s

    start : mul64 (at / s) s ≡ at / s * s
    start = mod-eq_of_lt (omega (arith, start_before, fit, word))

    covers : at + len ≤ div_ceil (at + len) s * s
    covers = ceil_covers s (at + len) cap sector whole fit

    last : div_ceil (at + len) s * s ≤ cap
    last = ceil_inside s (at + len) cap sector whole fit

    end : mul64 (div_ceil (at + len) s) s ≡ div_ceil (at + len) s * s
    end = mod-eq_of_lt (omega (arith, last, word))

    size :
        sub64 (mul64 (div_ceil (at + len) s) s) (mul64 (at / s) s)
        ≡ div_ceil (at + len) s * s - at / s * s
    size = rw start rw end (omega (arith, start_before, covers, last, word))
