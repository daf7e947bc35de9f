-- ===== src/Device/Memory.antt =====
-- The device in memory does what the trait promises.
use corefs.Common.{
  ℕ, ◌+◌, ◌%◌, ◌^◌, ◌<◌, ◌≡◌, refl, sym, ap, inl, inr, Bool, true, false, Bool-cases, ◌==◌, List,
  [], ◌∷◌, length, length-replicate, replicate, ok, err, policy_violation, ◌≤◌, arith,
}
use corefs.Bytes.{slice, splice, take, take-drop, length-splice}
use corefs.Device.{
  DeviceGeometry, MemoryDevice, check_alignment, check_bounds, check_write_permission, read_at,
  write_at, sync, trim, memory,
}
use corefs.Device.Lawful.{InDevice, Laws}

-- The buffer has the size that the geometry says, a number of whole sectors below 2^64 bytes.
pub record IsValid (d : MemoryDevice) : Type 0 where
  pub sized : length d.bytes ≡ d.geometry.capacity_bytes
  pub in_word : d.geometry.capacity_bytes < 2 ^ 64
  pub sector : 0 < d.geometry.sector_size
  pub whole : d.geometry.capacity_bytes % d.geometry.sector_size ≡ 0

checks_pass :
    (g : DeviceGeometry) (off len : ℕ)
    → g.capacity_bytes < 2 ^ 64
    → InDevice g off len
    → (check_alignment off len g.sector_size ≡ ok tt)
      × (check_bounds off len g.capacity_bytes ≡ ok tt)
unfolding check_alignment check_bounds
checks_pass g off len w i = (ground (arith, i.aligned, i.whole), ground (arith, i.inside))

slice_none : (off : ℕ) (bytes : List ℕ) → slice off 0 bytes ≡ []
unfolding slice take
slice_none off bytes = refl

splice_none : (off : ℕ) (new bytes : List ℕ) → length new ≡ 0 → splice off new bytes ≡ bytes
unfolding splice
splice_none off [] bytes e = let same : off + 0 ≡ off = omega arith in rw same (take-drop off bytes)
splice_none off (x ∷ new) bytes e = absurd (omega arith)

read_at_lem :
    (off len : ℕ) (d : MemoryDevice)
    → IsValid d
    → InDevice d.geometry off len
    → read_at off len d ≡ ok (slice off len d.bytes)
unfolding read_at
read_at_lem off len d v i =
    let (aligned, inside) = checks_pass d.geometry off len v.in_word i in
    rw (aligned, read_at) rw (inside, read_at)
      (elim (Bool-cases (len == 0)) [
        | inl e ↦ let none : len ≡ 0 = ground arith in rw none rw slice_none refl
        | inr e ↦ rw e refl
      ])

write_at_lem :
    (off : ℕ) (new : List ℕ) (d : MemoryDevice)
    → IsValid d
    → d.geometry.read_only ≡ false
    → InDevice d.geometry off (length new)
    → write_at off new d ≡ (ok tt, record d { bytes = splice off new d.bytes })
unfolding write_at
write_at_lem off new d v w i =
    let (aligned, inside) = checks_pass d.geometry off (length new) v.in_word i in
    rw (permitted w, write_at) rw (aligned, write_at) rw (inside, write_at)
      (elim (Bool-cases (length new == 0)) [
        | inl e ↦ rw e (
            ap (λ bytes. (ok tt, record d { bytes = bytes }))
              (sym (splice_none off new d.bytes (ground arith))))
        | inr e ↦ rw e refl
      ])
  where
    permitted : {b : Bool} → b ≡ false → check_write_permission b ≡ ok tt
    permitted e = unfold check_write_permission in rw e refl

check_bounds_passed : (off len cap : ℕ) → check_bounds off len cap ≡ ok tt → off + len ≤ cap
unfolding check_bounds
check_bounds_passed off len cap e = ground arith

-- A trim keeps the size of the buffer, since it checks the bounds first.
trim-IsValid :
    (off len : ℕ) (d : MemoryDevice)
    → IsValid d
    → IsValid (trim off len d).1 × ((trim off len d).1.geometry ≡ d.geometry)
unfolding trim
trim-IsValid off len d v = ground (
  arith,
  check_bounds_passed off len d.geometry.capacity_bytes,
  length-replicate {A = ℕ} len 0,
  length-splice off (replicate len 0) d.bytes,
)

-- A valid device in memory reads slices of its bytes, writes by replacing them, refuses no range of
-- whole sectors inside its capacity, if it is not read-only, and stays valid and of its geometry,
-- whatever is trimmed.
pub memory-Laws : Laws memory IsValid (λ d. d.bytes)
unfolding sync
memory-Laws = record {
  sized = λ d v. (v.sized, v.in_word, v.sector, v.whole);
  read_lem = read_at_lem;
  write_lem = λ off new d v w i. (
    record d { bytes = splice off new d.bytes },
    write_at_lem off new d v w i,
    record {
      sized = omega (arith, v.sized, i.inside, length-splice off new d.bytes);
      in_word = v.in_word;
      sector = v.sector;
      whole = v.whole;
    },
    refl,
    refl,
  );
  sync_lem = λ d v. (d, refl, v, refl, refl);
  trim_lem = trim-IsValid;
}

-- A read-only device answers every write with a policy violation and stays as it is.
pub write_at_read_only :
    (d : MemoryDevice)
    → d.geometry.read_only ≡ true
    → (off : ℕ) (new : List ℕ) → write_at off new d ≡ (err policy_violation, d)
unfolding write_at check_write_permission
write_at_read_only d e off new = rw e refl
