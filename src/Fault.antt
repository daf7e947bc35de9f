-- ===== src/Fault.antt =====
-- corefs-core/src/storage/ondisk/fault_injection.rs: a device around another one that injects faults.
pub mod PowerLoss
use Prim.Native.Nat.{bit_xor}
use corefs.Common.{
  ℕ, ◌+◌, Bool, false, ◌&&◌, Option, none, some, List, ltb, leb, if◌then◌else◌, CoreFsResult, ok,
  err, state, Method, length, get_or, set,
}
use corefs.Common.Word.{add64, saturating_add64}
use corefs.Device.{BlockDevice}

pub record FaultPlan : Type 0 where
  pub fail_after_writes : Option ℕ
  pub fail_after_bytes_written : Option ℕ
  pub silent_corrupt_writes : Option (ℕ × ℕ × ℕ)
  pub fail_writes_in_range : Option (ℕ × ℕ)
  pub fail_sync : Bool
  pub stop_after_n_writes : Option ℕ

-- `FaultPlan::new`
abbrev pub no_faults : FaultPlan
no_faults = record {
  fail_after_writes = none;
  fail_after_bytes_written = none;
  silent_corrupt_writes = none;
  fail_writes_in_range = none;
  fail_sync = false;
  stop_after_n_writes = none;
}

-- `FaultPlan::stop_after_n_writes`
abbrev pub stop_after_n_writes : ℕ → FaultPlan → FaultPlan
stop_after_n_writes n plan = record plan { stop_after_n_writes = some n }

pub record FaultStats : Type 0 where
  pub writes_attempted : ℕ
  pub writes_persisted : ℕ
  pub writes_failed : ℕ
  pub writes_silently_dropped : ℕ
  pub writes_corrupted : ℕ
  pub reads_attempted : ℕ
  pub syncs_attempted : ℕ
  pub syncs_failed : ℕ
  pub bytes_written : ℕ

-- `FaultStats::default`
abbrev pub no_stats : FaultStats
no_stats = record {
  writes_attempted = 0;
  writes_persisted = 0;
  writes_failed = 0;
  writes_silently_dropped = 0;
  writes_corrupted = 0;
  reads_attempted = 0;
  syncs_attempted = 0;
  syncs_failed = 0;
  bytes_written = 0;
}

-- The tests of `write_at`, in their order: on the number of writes, on the bytes written, on the range,
-- and on the writes that were persisted
unfoldable pub over_writes : FaultPlan → FaultStats → Bool
over_writes plan stats = elim plan.fail_after_writes [
  | none ↦ false
  | some n ↦ ltb n stats.writes_attempted
]

unfoldable pub over_bytes : FaultPlan → FaultStats → ℕ → Bool
over_bytes plan stats len = elim plan.fail_after_bytes_written [
  | none ↦ false
  | some b ↦ ltb b (saturating_add64 stats.bytes_written len)
]

unfoldable pub in_bad_range : FaultPlan → ℕ → ℕ → Bool
in_bad_range plan offset len = elim plan.fail_writes_in_range [
  | none ↦ false
  | some (start, end) ↦ ltb offset end && ltb start (add64 offset len)
]

unfoldable pub is_stopped : FaultPlan → FaultStats → Bool
is_stopped plan stats = elim plan.stop_after_n_writes [
  | none ↦ false
  | some n ↦ leb n stats.writes_persisted
]

-- The byte that is to be flipped in a write, if one is
unfoldable pub corrupts : FaultPlan → ℕ → List ℕ → Option ℕ
corrupts plan offset data_bytes = elim plan.silent_corrupt_writes [
  | none ↦ none
  | some (start, len, byte) ↦
      if ltb offset (add64 start len)
        && (ltb start (add64 offset (length data_bytes)) && ltb byte (length data_bytes))
      then some byte
      else none
]

-- `payload[byte] ^= 0xFF`
unfoldable pub flipped : Option ℕ → List ℕ → List ℕ
flipped none data_bytes = data_bytes
flipped (some byte) data_bytes = set data_bytes byte (bit_xor (get_or data_bytes byte 0) 255)

unfoldable pub count_corrupted : Option ℕ → FaultStats → FaultStats
count_corrupted none stats = stats
count_corrupted (some byte) stats = record stats {
  writes_corrupted = add64 stats.writes_corrupted 1;
}

module _ (dev : BlockDevice) where
  pub record FaultyDevice : Type 0 where
    pub inner : dev.Device
    pub plan : FaultPlan
    pub stats : FaultStats

  -- `FaultyDevice::new`
  abbrev pub new : dev.Device → FaultPlan → FaultyDevice
  new inner plan = record { inner = inner; plan = plan; stats = no_stats }

  -- `self.stats.writes_failed += 1` and the error behind it
  unfoldable pub failed_write : Method FaultyDevice (Unit {0})
  failed_write f = (
    err state,
    record f { stats = (let s = f.stats in record s { writes_failed = add64 s.writes_failed 1 }) },
  )

  -- The write to the inner device, and what is counted
  unfoldable pub persist : ℕ → List ℕ → Method FaultyDevice (Unit {0})
  persist offset data_bytes f =
      let byte = corrupts f.plan offset data_bytes in
      let s = count_corrupted byte f.stats in
      let (r, inner) = dev.write_at offset (flipped byte data_bytes) f.inner in
      elim r [
        | err e ↦ (err e, record f { inner = inner; stats = s })
        | ok _ ↦ (
          ok tt,
          record f {
            inner = inner;
            stats = record s {
              writes_persisted = add64 s.writes_persisted 1;
              bytes_written = saturating_add64 s.bytes_written (length data_bytes);
            };
          },
        )
      ]

  -- `FaultyDevice::write_at`
  unfoldable pub write_at : ℕ → List ℕ → Method FaultyDevice (Unit {0})
  write_at offset data_bytes f0 =
      let s = f0.stats in
      let f = record f0 { stats = record s { writes_attempted = add64 s.writes_attempted 1 } } in
      if over_writes f.plan f.stats
      then failed_write f
      else if over_bytes f.plan f.stats (length data_bytes)
      then failed_write f
      else if in_bad_range f.plan offset (length data_bytes)
      then failed_write f
      else if is_stopped f.plan f.stats
      then (
        ok tt,
        record f {
          stats =
              (let t = f.stats in
                record t { writes_silently_dropped = add64 t.writes_silently_dropped 1 });
        },
      )
      else persist offset data_bytes f

  -- `FaultyDevice::sync`
  unfoldable pub sync : Method FaultyDevice (Unit {0})
  sync f0 =
      let s = f0.stats in
      let f = record f0 { stats = record s { syncs_attempted = add64 s.syncs_attempted 1 } } in
      if f.plan.fail_sync
      then (
        err state,
        (let p = f.plan in
            let t = f.stats in
            record f {
              plan = record p { fail_sync = false };
              stats = record t { syncs_failed = add64 t.syncs_failed 1 };
            }),
      )
      else (let (r, inner) = dev.sync f.inner in (r, record f { inner = inner }))

  -- `impl BlockDevice for FaultyDevice`
  abbrev pub faulty : BlockDevice
  faulty = record {
    Device = FaultyDevice;
    geometry = λ f. dev.geometry f.inner;
    read_at = λ offset len f. dev.read_at offset len f.inner;
    write_at = write_at;
    sync = sync;
    trim = λ offset len f.
        (let (r, inner) = dev.trim offset len f.inner in (r, record f { inner = inner }));
    supports_trim = λ f. dev.supports_trim f.inner;
  }
