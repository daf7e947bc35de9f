-- ===== src/Tests/Faults.antt =====
-- A loss of power on a small device.
use corefs.Common.{ℕ, ◌≡◌, refl, true, false, List, [], ◌∷◌, ok, arith}
use corefs.Bytes.{take, drop, splice}
use corefs.Device
use corefs.Device.{MemoryDevice, memory, check_alignment, check_bounds, check_write_permission}
use corefs.Fault.{FaultStats, no_faults, stop_after_n_writes, new, faulty}
use corefs.Fault.PowerLoss.{losing, write_all, write_all-stop_after_n_writes}

-- A device of four sectors of two bytes
abbrev small_device : List ℕ → MemoryDevice
small_device bytes = record {
  bytes = bytes;
  geometry = record { sector_size = 2; sector_count = 4; capacity_bytes = 8; read_only = false };
  trim_supported = true;
  trimmed_ranges = [];
}

abbrev two_writes : List (ℕ × List ℕ)
two_writes = (2, 5 ∷ 6 ∷ []) ∷ (0, 7 ∷ 8 ∷ []) ∷ []

abbrev before : MemoryDevice
before = small_device (0 ∷ 0 ∷ 0 ∷ 0 ∷ 0 ∷ 0 ∷ 0 ∷ 0 ∷ [])

abbrev after : MemoryDevice
after = small_device (0 ∷ 0 ∷ 5 ∷ 6 ∷ 0 ∷ 0 ∷ 0 ∷ 0 ∷ [])

first_write : write_all memory (take 1 two_writes) before ≡ (ok tt, after)
unfolding write_all take drop splice Device.write_at check_alignment check_bounds
    check_write_permission
first_write = refl

write_all-stop_after_n_writes_example :
    (s' : FaultStats) × (write_all
        (faulty memory)
        two_writes
        (new memory before (stop_after_n_writes 1 no_faults))
      ≡ (ok tt, losing memory 1 after s'))
write_all-stop_after_n_writes_example =
    write_all-stop_after_n_writes memory 1 (omega arith) two_writes before after first_write
