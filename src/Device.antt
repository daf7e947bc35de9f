-- ===== src/Device.antt =====
-- corefs-core/src/storage/block_device.rs: the trait of block devices, and the device in memory.
pub mod Memory
pub mod Lawful
pub mod Blocks
use Prim.Native.Nat.{bit_and}
use corefs.Common.{
  ℕ, zero, suc, ◌+◌, ◌-◌, ◌*◌, ◌/◌, ◌%◌, ◌^◌, Bool, true, false, not, ◌||◌, List, [], ◌∷◌, ◌++◌,
  ltb, leb, ◌==◌, if◌then◌else◌, CoreFsResult, ok, err, invalid_input, policy_violation, Method,
  length, replicate,
}
use corefs.Bytes.{take, slice, splice}

pub record DeviceGeometry : Type 0 where
  pub sector_size : ℕ
  pub sector_count : ℕ
  pub capacity_bytes : ℕ
  pub read_only : Bool

-- The methods of the trait that the on-disk format calls
pub record BlockDevice : Type 1 where
  pub Device : Type 0
  pub geometry : Device → DeviceGeometry
  pub read_at : ℕ → ℕ → Device → CoreFsResult (List ℕ)
  pub write_at : ℕ → List ℕ → Method Device (Unit {0})
  pub sync : Method Device (Unit {0})
  pub trim : ℕ → ℕ → Method Device (Unit {0})
  pub supports_trim : Device → Bool

-- `check_alignment`
unfoldable pub check_alignment : ℕ → ℕ → ℕ → CoreFsResult (Unit {0})
check_alignment offset len sector_size =
    if not (offset % sector_size == 0)
    then err invalid_input
    else if not (len % sector_size == 0)
    then err invalid_input
    else ok tt

-- `check_bounds`: the sum is checked before the capacity.
unfoldable pub check_bounds : ℕ → ℕ → ℕ → CoreFsResult (Unit {0})
check_bounds offset len capacity =
    if leb (2 ^ 64) (offset + len)
    then err invalid_input
    else if ltb capacity (offset + len)
    then err invalid_input
    else ok tt

-- `check_write_permission`
unfoldable pub check_write_permission : Bool → CoreFsResult (Unit {0})
check_write_permission read_only = if read_only then err policy_violation else ok tt

pub record MemoryDevice : Type 0 where
  pub bytes : List ℕ
  pub geometry : DeviceGeometry
  pub trim_supported : Bool
  pub trimmed_ranges : List (ℕ × ℕ)

-- The record that both constructors end with
unfoldable pub memory_device : List ℕ → ℕ → ℕ → MemoryDevice
memory_device bytes capacity_bytes sector_size = record {
  bytes = bytes;
  geometry = record {
    sector_size = sector_size;
    sector_count = capacity_bytes / sector_size;
    capacity_bytes = capacity_bytes;
    read_only = false;
  };
  trim_supported = true;
  trimmed_ranges = [];
}

-- `MemoryDevice::new`
unfoldable pub new : ℕ → ℕ → CoreFsResult MemoryDevice
new capacity_bytes sector_size =
    if capacity_bytes == 0
    then err invalid_input
    else if sector_size == 0 || not (bit_and sector_size (sector_size - 1) == 0)
    then err invalid_input
    else if not (capacity_bytes % sector_size == 0)
    then err invalid_input
    else ok (memory_device (replicate capacity_bytes 0) capacity_bytes sector_size)

-- `MemoryDevice::from_bytes`. A sector size of 0, by which the source divides, panics there.
unfoldable pub from_bytes : List ℕ → ℕ → CoreFsResult MemoryDevice
from_bytes bytes sector_size =
    if length bytes == 0
    then err invalid_input
    else if not (length bytes % sector_size == 0)
    then err invalid_input
    else ok (memory_device bytes (length bytes) sector_size)

-- `MemoryDevice::set_read_only`
unfoldable pub set_read_only : Bool → MemoryDevice → MemoryDevice
set_read_only b d = let g = d.geometry in record d { geometry = record g { read_only = b } }

-- `self.data.resize(new_len, 0)`
unfoldable pub resize_bytes : ℕ → List ℕ → List ℕ
resize_bytes n bytes = take n bytes ++ replicate (n - length bytes) 0

-- `MemoryDevice::resize`
unfoldable pub resize : ℕ → Method MemoryDevice (Unit {0})
resize new_capacity d =
    let g = d.geometry in
    if not (new_capacity % g.sector_size == 0) then (err invalid_input, d) else (
      ok tt,
      record d {
        bytes = resize_bytes new_capacity d.bytes;
        geometry = record g {
          capacity_bytes = new_capacity;
          sector_count = new_capacity / g.sector_size;
        };
      },
    )

-- `MemoryDevice::read_at`. An empty read is a slice of length 0.
unfoldable pub read_at : ℕ → ℕ → MemoryDevice → CoreFsResult (List ℕ)
read_at offset len d = elim (check_alignment offset len d.geometry.sector_size) [
  | err e ↦ err e
  | ok _ ↦ elim (check_bounds offset len d.geometry.capacity_bytes) [
    | err e ↦ err e
    | ok _ ↦ if len == 0 then ok [] else ok (slice offset len d.bytes)
  ]
]

-- `MemoryDevice::write_at`
unfoldable pub write_at : ℕ → List ℕ → Method MemoryDevice (Unit {0})
write_at offset new d = elim (check_write_permission d.geometry.read_only) [
  | err e ↦ (err e, d)
  | ok _ ↦ elim (check_alignment offset (length new) d.geometry.sector_size) [
    | err e ↦ (err e, d)
    | ok _ ↦ elim (check_bounds offset (length new) d.geometry.capacity_bytes) [
      | err e ↦ (err e, d)
      | ok _ ↦
          if length new == 0
          then (ok tt, d)
          else (ok tt, record d { bytes = splice offset new d.bytes })
    ]
  ]
]

-- `MemoryDevice::sync`
unfoldable pub sync : Method MemoryDevice (Unit {0})
sync d = (ok tt, d)

-- `MemoryDevice::trim`
unfoldable pub trim : ℕ → ℕ → Method MemoryDevice (Unit {0})
trim offset len d =
    if not d.trim_supported
    then (ok tt, d)
    else elim (check_alignment offset len d.geometry.sector_size) [
      | err e ↦ (err e, d)
      | ok _ ↦ elim (check_bounds offset len d.geometry.capacity_bytes) [
        | err e ↦ (err e, d)
        | ok _ ↦ if len == 0 then (ok tt, d) else (
          ok tt,
          record d {
            bytes = splice offset (replicate len 0) d.bytes;
            trimmed_ranges = d.trimmed_ranges ++ (offset, len) ∷ [];
          },
        )
      ]
    ]

-- `impl BlockDevice for MemoryDevice`
abbrev pub memory : BlockDevice
memory = record {
  Device = MemoryDevice;
  geometry = λ d. d.geometry;
  read_at = read_at;
  write_at = write_at;
  sync = sync;
  trim = trim;
  supports_trim = λ d. d.trim_supported;
}
