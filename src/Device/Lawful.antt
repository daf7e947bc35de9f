-- ===== src/Device/Lawful.antt =====
-- What the on-disk format relies on in a block device.
use corefs.Common.{ℕ, ◌+◌, ◌%◌, ◌^◌, ◌≤◌, ◌<◌, ◌≡◌, false, List, length, ok}
use corefs.Bytes.{slice, splice}
use corefs.Device.{BlockDevice, DeviceGeometry}

-- A range of whole sectors inside the device.
pub record InDevice (g : DeviceGeometry) (off len : ℕ) : Type 0 where
  pub aligned : off % g.sector_size ≡ 0
  pub whole : len % g.sector_size ≡ 0
  pub inside : off + len ≤ g.capacity_bytes

-- A device is its bytes: a read returns a slice of them, a write replaces one, a sync changes none.
-- What a trim leaves in the bytes is open, whether it succeeds or not.
pub record Laws (dev : BlockDevice) (IsValid : dev.Device → Type 0) (contents : dev.Device → List ℕ)
    : Type 0 where
  pub sized :
      (d : dev.Device)
      → IsValid d
      → (length (contents d) ≡ (dev.geometry d).capacity_bytes)
        × ((dev.geometry d).capacity_bytes < 2 ^ 64)
        × (0 < (dev.geometry d).sector_size)
        × ((dev.geometry d).capacity_bytes % (dev.geometry d).sector_size ≡ 0)
  pub read_lem :
      (off len : ℕ) (d : dev.Device)
      → IsValid d
      → InDevice (dev.geometry d) off len
      → dev.read_at off len d ≡ ok (slice off len (contents d))
  pub write_lem :
      (off : ℕ) (new : List ℕ) (d : dev.Device)
      → IsValid d
      → (dev.geometry d).read_only ≡ false
      → InDevice (dev.geometry d) off (length new)
      → (d' : dev.Device) × (dev.write_at off new d ≡ (ok tt, d'))
        × IsValid d'
        × (contents d' ≡ splice off new (contents d))
        × (dev.geometry d' ≡ dev.geometry d)
  pub sync_lem :
      (d : dev.Device)
      → IsValid d
      → (d' : dev.Device) × (dev.sync d ≡ (ok tt, d'))
        × IsValid d'
        × (contents d' ≡ contents d)
        × (dev.geometry d' ≡ dev.geometry d)
  pub trim_lem :
      (off len : ℕ) (d : dev.Device)
      → IsValid d
      → IsValid (dev.trim off len d).1 × (dev.geometry (dev.trim off len d).1 ≡ dev.geometry d)
