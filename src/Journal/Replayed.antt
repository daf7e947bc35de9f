-- ===== src/Journal/Replayed.antt =====
-- `replay` as a whole, and after a commit.
use corefs.Common.{
  ℕ, ◌-◌, ◌*◌, ◌≡◌, refl, ap, ◌∙◌, Bool-cases, not, ◌==◌, if◌then◌else◌, inl, inr, List, [], length,
  arith, >>=-ok, Returns, pure, ◌>>◌,
}
use corefs.Device.{BlockDevice}
use corefs.Device.Lawful.{Laws}
use corefs.Superblock.{Superblock, geometry}
use corefs.Journal.Log.{Journal, on_device}
use corefs.Journal.Entries.{Entry}
use corefs.Journal.Ready.{Ready}
use corefs.Journal.Target.{World}
use corefs.Journal.Replay.{committed, summary, all_effects, IsLogged, no_pending}
use corefs.Journal.Recovery.{replay_loop_lem}
use corefs.Journal.Scan.{Scan}
use corefs.Journal.Transaction.{ReplayedTxn, Replay, replay_loop, replay}

module _ (dev : BlockDevice) (IsValid : dev.Device → Type 0) (contents : dev.Device → List ℕ)
    (laws : Laws dev IsValid contents) where
  sync_last :
      (k : Journal dev) (applied : List ReplayedTxn)
      → IsValid k.device
      → Returns
          (do if not (length applied == 0) then on_device dev dev.sync else pure tt; pure applied)
          k
          λ a k'. (a ≡ applied) × (contents k'.device ≡ contents k.device)
  sync_last k applied v = elim (Bool-cases (length applied == 0)) [
    | inl e ↦ rw e (applied, k, refl, (refl, refl))
    | inr e ↦
        let (d, s, _, c, _) = laws.sync_lem k.device v in
        rw e (
          applied,
          record k { device = d },
          >>=-ok (on_device dev dev.sync) (λ _. pure applied) k
              (ap (λ p. (p.0, record k { device = p.1 })) s),
          (refl, c),
        )
  ]

  -- On a lawful device that may be written to, with blocks of whole sectors and a primary superblock
  -- that decodes, `replay` of a log whose operations decode, have the sizes that `apply_op` asks for
  -- and keep away from the record area and the superblock, returns the committed transactions, each
  -- with the number of its operations, and leaves the device's bytes as those transactions'
  -- operations, in their order, make them.
  pub replay-committed :
      (sb : Superblock) (es : List Entry) (j : Journal dev)
      → Ready dev IsValid contents laws es j
      → World dev IsValid contents laws sb j
      → IsLogged
          (geometry sb)
          (j.record_start_block * 4096)
          j.header.record_area_bytes
          (dev.geometry j.device).capacity_bytes
          es
      → Returns (replay dev) j λ applied j'.
        (applied ≡ summary (committed [] es))
        × (contents j'.device ≡ all_effects (geometry sb) (committed [] es) (contents j.device))
  unfolding replay
  replay-committed sb es j ready world logged =
      let head = j.header.head_offset in
      let tail = j.header.tail_offset in
      let start : Replay dev = record { cursor = head; pending = []; applied = [] } in
      let scan : Scan dev IsValid contents laws sb es head tail j = record {
        world = world;
        held = ready.log.held;
        ends = ready.log.ends;
        fits = ready.entries;
      } in
      let (r, d, e, v) =
        replay_loop_lem dev IsValid contents laws sb es (tail - head) head tail start j refl scan
          logged no_pending (omega (arith, ready.log.ends)) in
      let k = record j { device = d } in
      let (a, k', e', (same, c)) = sync_last k r.applied v.world.opened.valid in
      (
        a,
        k',
        >>=-ok (replay_loop dev (tail - head) tail start)
              (λ r'. do
                if not (length r'.applied == 0) then on_device dev dev.sync else pure tt
                pure r'.applied)
              j e
            ∙ e',
        (same ∙ v.applied, c ∙ v.written),
      )
