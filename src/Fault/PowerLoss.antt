-- ===== src/Fault/PowerLoss.antt =====
-- Power loss after some writes: the device behind holds what those writes left.
use corefs.Common.{
  ℕ, zero, suc, ◌+◌, ◌^◌, ◌≤◌, ◌<◌, ◌≡◌, refl, sym, ap, ◌∙◌, true, false, leb, List, [], ◌∷◌, ok,
  CoreFsResult, Method, ◌>>◌, pure, >>=-ok, >>=-err, err, length, arith,
}
use corefs.Common.Word.{add64, saturating_add64}
use corefs.Bytes.{take}
use corefs.Device.{BlockDevice}
use corefs.Fault.{
  FaultyDevice, FaultStats, no_faults, stop_after_n_writes, no_stats, new, faulty, write_at,
  persist, over_writes, over_bytes, in_bad_range, is_stopped, corrupts, flipped, count_corrupted,
}

-- Writes at their offsets, one after another.
unfoldable pub write_all : (dev : BlockDevice) → List (ℕ × List ℕ) → Method dev.Device (Unit {0})
write_all dev [] = pure tt
write_all dev ((offset, bytes) ∷ ws) = do dev.write_at offset bytes; write_all dev ws

-- A sequence that returned is a first part that returned, and the rest.
>>-split :
    {S : Type 0} (m k : Method S (Unit {0})) (s s' : S)
    → (m >> k) s ≡ (ok tt, s')
    → (mid : S) × (m s ≡ (ok tt, mid)) × (k mid ≡ (ok tt, s'))
>>-split {S} m k s s' e = from (m s) refl
  where
    from :
        (x : CoreFsResult (Unit {0}) × S)
        → m s ≡ x
        → (mid : S) × (m s ≡ (ok tt, mid)) × (k mid ≡ (ok tt, s'))
    from (ok tt, mid) here = (mid, here, sym (>>=-ok m (λ _. k) s here) ∙ e)
    from (err x, mid) here = absurd (ground (arith, sym (>>=-err m (λ _. k) s here) ∙ e))

-- A device that loses power after `n` writes
abbrev pub losing : (dev : BlockDevice) → ℕ → dev.Device → FaultStats → FaultyDevice dev
losing dev n d s = record { inner = d; plan = stop_after_n_writes n no_faults; stats = s }

module _ (dev : BlockDevice) (n : ℕ) (small : n < 2 ^ 64) where
  module _ (d : dev.Device) (s : FaultStats) (offset : ℕ) (bytes : List ℕ) where
    dropped :
        n ≤ s.writes_persisted
        → (s' : FaultStats) × (write_at dev offset bytes (losing dev n d s)
            ≡ (ok tt, losing dev n d s'))
          × (s'.writes_persisted ≡ s.writes_persisted)
    unfolding write_at over_writes over_bytes in_bad_range is_stopped
    dropped h =
        let stopped : leb n s.writes_persisted ≡ true = ground (arith, h) in
        (
          record s {
            writes_attempted = add64 s.writes_attempted 1;
            writes_silently_dropped = add64 s.writes_silently_dropped 1;
          },
          rw stopped refl,
          refl,
        )

    persisted :
        (d' : dev.Device)
        → s.writes_persisted < n
        → dev.write_at offset bytes d ≡ (ok tt, d')
        → (s' : FaultStats) × (write_at dev offset bytes (losing dev n d s)
            ≡ (ok tt, losing dev n d' s'))
          × (s'.writes_persisted ≡ suc s.writes_persisted)
    unfolding write_at persist over_writes over_bytes in_bad_range is_stopped corrupts flipped
        count_corrupted
    persisted d' h writes =
        let going : leb n s.writes_persisted ≡ false = ground (arith, h) in
        let s' : FaultStats = record s {
          writes_attempted = add64 s.writes_attempted 1;
          writes_persisted = add64 s.writes_persisted 1;
          bytes_written = saturating_add64 s.bytes_written (length bytes);
        } in
        (
          s',
          rw going rw (writes, persist) (ap (λ r. (ok tt, losing dev n r.1 s')) writes),
          omega (arith, h, small),
        )

  write_all-losing :
      (left : ℕ) (ws : List (ℕ × List ℕ)) (d d' : dev.Device) (s : FaultStats)
      → s.writes_persisted + left ≡ n
      → write_all dev (take left ws) d ≡ (ok tt, d')
      → (s' : FaultStats) × (write_all (faulty dev) ws (losing dev n d s)
          ≡ (ok tt, losing dev n d' s'))
  unfolding write_all take
  write_all-losing zero [] d d' s sum runs = (s, ap (λ r. (r.0, losing dev n r.1 s)) runs)
  write_all-losing (suc left) [] d d' s sum runs = (s, ap (λ r. (r.0, losing dev n r.1 s)) runs)
  write_all-losing zero ((offset, bytes) ∷ ws) d d' s sum runs =
      let (s1, writes, same) = dropped d s offset bytes (omega (arith, sum)) in
      let (s', rest) = write_all-losing zero ws d d' s1 (omega (arith, sum, same)) runs in
      (
        s',
        >>=-ok (write_at dev offset bytes) (λ _. write_all (faulty dev) ws) (losing dev n d s)
              writes
            ∙ rest,
      )
  write_all-losing (suc left) ((offset, bytes) ∷ ws) d d' s sum runs =
      let (mid, first, others) =
        >>-split (dev.write_at offset bytes) (write_all dev (take left ws)) d d' runs in
      let (s1, writes, next) = persisted d s offset bytes mid (omega (arith, sum)) first in
      let (s', rest) = write_all-losing left ws mid d' s1 (omega (arith, sum, next)) others in
      (
        s',
        >>=-ok (write_at dev offset bytes) (λ _. write_all (faulty dev) ws) (losing dev n d s)
              writes
            ∙ rest,
      )

  -- For a series of writes of which the first `n` return on a device, with `n` below 2^64: on that
  -- device with a loss of power after `n` writes, all of the writes return, and the device behind holds
  -- what the first `n` have left.
  pub write_all-stop_after_n_writes :
      (ws : List (ℕ × List ℕ)) (d d' : dev.Device)
      → write_all dev (take n ws) d ≡ (ok tt, d')
      → (s' : FaultStats) × (write_all (faulty dev) ws (new dev d (stop_after_n_writes n no_faults))
          ≡ (ok tt, losing dev n d' s'))
  write_all-stop_after_n_writes ws d d' runs =
      write_all-losing n ws d d' no_stats (omega arith) runs
