-- ===== src/Tests/Replays.antt =====
-- The replay on a device whose cells are bytes.
use mathlib.Core.Path.{subst}
use corefs.Common.{
  ℕ, ◌+◌, ◌%◌, ◌≡◌, List, [], ◌∷◌, CoreFsResult, ok, err, and_then, and_then-all, arith,
}
use corefs.Checksum.Bytewise.{AllBytes}
use corefs.Device.{BlockDevice, MemoryDevice, memory, read_at}
use corefs.Journal.Log.{Journal}
use corefs.Journal.Transaction.{Replay, replay_loop}
use corefs.Journal.Terminates.{replay_loop-enough}
use corefs.Tests.Codecs.{header_of}
use corefs.Tests.Journaled.{full_journal}

-- What is read of a cell
bytes_of : List ℕ → List ℕ
bytes_of [] = []
bytes_of (b ∷ bs) = b % 256 ∷ bytes_of bs

bytes_of-AllBytes : (bs : List ℕ) → AllBytes (bytes_of bs)
unfolding bytes_of AllBytes
bytes_of-AllBytes [] = tt
bytes_of-AllBytes (b ∷ bs) = (omega arith, bytes_of-AllBytes bs)

abbrev byte_device : BlockDevice
byte_device = record memory {
  read_at = λ off len d. and_then (read_at off len d) λ bytes. ok (bytes_of bytes);
}

abbrev AreBytes : CoreFsResult (List ℕ) → Type 0
AreBytes (ok bytes) = AllBytes bytes
AreBytes (err e) = Unit

byte_device_lem :
    (off len : ℕ) (d : MemoryDevice) (bytes : List ℕ)
    → byte_device.read_at off len d ≡ ok bytes
    → AllBytes bytes
byte_device_lem off len d bytes e = subst AreBytes e (
    and_then-all AreBytes (read_at off len d) (λ bs. ok (bytes_of bs)) (λ _. tt)
      λ bs _. bytes_of-AllBytes bs)

abbrev byte_journal : Journal byte_device
byte_journal = record {
  device = full_journal.device;
  header_block = 2;
  record_start_block = 3;
  header = header_of 4197;
}

abbrev at_start : Replay byte_device
at_start = record { cursor = 0; pending = []; applied = [] }

replay_loop-enough_example :
    replay_loop byte_device (4197 + 100) 4197 at_start byte_journal
    ≡ replay_loop byte_device 4197 4197 at_start byte_journal
replay_loop-enough_example =
    replay_loop-enough byte_device byte_device_lem 4197 100 4197 at_start byte_journal (omega arith)
      (omega arith)
