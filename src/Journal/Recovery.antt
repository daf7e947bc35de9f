-- ===== src/Journal/Recovery.antt =====
-- The loop of the replay, record by record.
use mathlib.Core.Path.{subst}
use mathlib.Core.List.{append_assoc, append-nil}
use corefs.Common.{
  ℕ, zero, suc, ◌+◌, ◌*◌, ◌≤◌, ◌≡◌, refl, sym, ap, ◌∙◌, false, ltb, none, some, List, [], ◌∷◌, ◌++◌,
  ok, length, length-append, arith, >>=-ok,
}
use corefs.Device.{BlockDevice}
use corefs.Device.Lawful.{Laws}
use corefs.Superblock.{Superblock, geometry}
use corefs.Journal.{RecordKind, op, commit, Op, decode}
use corefs.Journal.Log.{Journal}
use corefs.Journal.Entries.{Entry, entry_bytes, length-entry_bytes, decoded}
use corefs.Journal.Append.{log_bytes}
use corefs.Journal.Apply.{apply_ops_lem}
use corefs.Journal.Target.{effects}
use corefs.Journal.Replay.{
  committed, committed_op, committed_empty, committed_commit, summary, all_effects, IsLogged,
  logged_none, logged_op, logged_commit, logged_abort, PendingApart, not_open, was_open, removal,
  push_op-PendingApart, remove-PendingApart,
}
use corefs.Journal.Transaction.{
  push_op, removed, remove, Replay, replay_record, replay_loop, apply_ops,
}
use corefs.Journal.Scan.{
  Scan, Recovered, LoggedOf, PendingOf, replay_loop-next, rest_Scan, stays, enough,
}

module _ (dev : BlockDevice) (IsValid : dev.Device → Type 0) (contents : dev.Device → List ℕ)
    (laws : Laws dev IsValid contents) (sb : Superblock) where
  replay_loop-end :
      (fuel tail : ℕ) (r : Replay dev) (j : Journal dev)
      → r.cursor ≡ tail
      → replay_loop dev fuel tail r j ≡ (ok r, j)
  unfolding replay_loop
  replay_loop-end zero tail r j h = refl
  replay_loop-end (suc fuel) tail r j h =
      let stop : ltb r.cursor tail ≡ false = ground (arith, h) in rw stop refl

  -- A record of each kind in the loop.
  module _ (id seq : ℕ) (payload : List ℕ) (r : Replay dev) (j : Journal dev) where
    abbrev entry : RecordKind → Entry
    entry kind = record { kind = kind; txn_id = id; seq = seq; payload = payload }

    step_op :
        (o : Op)
        → decode payload ≡ ok o
        → replay_record dev (decoded (entry op)) r j
          ≡ (ok (record r { pending = push_op id o r.pending }), j)
    unfolding replay_record decoded
    step_op o e = rw (e, replay_record) refl

    step_empty :
        removed id r.pending ≡ none → replay_record dev (decoded (entry commit)) r j ≡ (ok r, j)
    unfolding replay_record decoded
    step_empty e = rw (e, replay_record) refl

    step_commit :
        (ops : List Op) (j' : Journal dev)
        → removed id r.pending ≡ some ops
        → apply_ops dev ops j ≡ (ok tt, j')
        → replay_record dev (decoded (entry commit)) r j ≡ (
          ok (record r {
            pending = remove id r.pending;
            applied = r.applied ++ record { txn_id = id; ops = length ops } ∷ [];
          }),
          j',
        )
    unfolding replay_record decoded
    step_commit ops j' e f =
        rw (e, replay_record)
          (>>=-ok (apply_ops dev ops)
            (λ _ k. (
              ok (record r {
                pending = remove id r.pending;
                applied = r.applied ++ record { txn_id = id; ops = length ops } ∷ [];
              }),
              k,
            ))
            j f)

  -- The loop on the log that is left.
  abbrev Recovers : List Entry → ℕ → ℕ → Replay dev → Journal dev → Type 0
  Recovers es fuel tail r j =
      (r' : Replay dev) × (d : dev.Device) × (replay_loop dev fuel tail r j
        ≡ (ok r', record j { device = d }))
      × Recovered dev IsValid contents laws sb r es j r' d

  pub replay_loop_lem :
      (es : List Entry) (fuel cursor tail : ℕ) (r : Replay dev) (j : Journal dev)
      → r.cursor ≡ cursor
      → Scan dev IsValid contents laws sb es cursor tail j
      → LoggedOf dev IsValid contents laws sb j es
      → PendingOf dev IsValid contents laws sb j r.pending
      → length (log_bytes es) ≤ fuel
      → Recovers es fuel tail r j
  unfolding log_bytes replay_record decoded committed summary all_effects
  replay_loop_lem [] fuel cursor tail r j same scan logged_none p h = (
    r,
    j.device,
    replay_loop-end fuel tail r j (omega (arith, same, scan.ends)),
    record { applied = sym (append-nil r.applied); written = refl; world = scan.world },
  )
  replay_loop_lem (e ∷ es) zero cursor tail r j same scan logged p h =
      absurd (omega (arith, h, length-append (entry_bytes e) (log_bytes es), length-entry_bytes e))
  replay_loop_lem (e ∷ es) (suc fuel) cursor tail r j same scan
        (logged_op {id} {seq} {payload} {o} decodes apart rest) p h =
      let behind = cursor + (44 + length e.payload) in
      let r1 : Replay dev = record {
        cursor = behind;
        pending = push_op id o r.pending;
        applied = r.applied;
      } in
      let (r', d, e', v) =
        replay_loop_lem es fuel behind tail r1 j refl
          (stays dev IsValid contents laws sb e es cursor tail j scan) rest
          (push_op-PendingApart (geometry sb) _ _ _ id o r.pending p apart)
          (enough dev IsValid contents laws sb e es fuel h) in
      let plan = committed_op id seq payload o r.pending es decodes in
      (
        r',
        d,
        replay_loop-next dev IsValid contents laws sb e es cursor tail j scan fuel r r1 j same
              (step_op id seq payload (record r { cursor = behind }) j o decodes)
            ∙ e',
        record {
          applied = v.applied ∙ ap (λ c. r.applied ++ summary c) (sym plan);
          written =
              v.written ∙ ap (λ c. all_effects (geometry sb) c (contents j.device)) (sym plan);
          world = v.world;
        },
      )
  replay_loop_lem (e ∷ es) (suc fuel) cursor tail r j same scan
        (logged_abort {id} {seq} {payload} rest) p h =
      let behind = cursor + (44 + length e.payload) in
      let r1 : Replay dev = record {
        cursor = behind;
        pending = remove id r.pending;
        applied = r.applied;
      } in
      let (r', d, e', v) =
        replay_loop_lem es fuel behind tail r1 j refl
          (stays dev IsValid contents laws sb e es cursor tail j scan) rest
          (remove-PendingApart (geometry sb) _ _ _ id r.pending p)
          (enough dev IsValid contents laws sb e es fuel h) in
      (
        r',
        d,
        replay_loop-next dev IsValid contents laws sb e es cursor tail j scan fuel r r1 j same refl
            ∙ e',
        record { applied = v.applied; written = v.written; world = v.world },
      )
  replay_loop_lem (e ∷ es) (suc fuel) cursor tail r j same scan
        (logged_commit {id} {seq} {payload} rest) p h =
      let behind = cursor + (44 + length e.payload) in
      elim (removal (geometry sb) _ _ _ id r.pending p) [
        | not_open none_found ↦
            let r1 : Replay dev = record {
              cursor = behind;
              pending = r.pending;
              applied = r.applied;
            } in
            let (r', d, e', v) =
              replay_loop_lem es fuel behind tail r1 j refl
                (stays dev IsValid contents laws sb e es cursor tail j scan) rest p
                (enough dev IsValid contents laws sb e es fuel h) in
            let plan = committed_empty id seq payload r.pending es none_found in
            (
              r',
              d,
              replay_loop-next dev IsValid contents laws sb e es cursor tail j scan fuel r r1 j same
                    (step_empty id seq payload r1 j none_found)
                  ∙ e',
              record {
                applied = v.applied ∙ ap (λ c. r.applied ++ summary c) (sym plan);
                written =
                    v.written
                    ∙ ap (λ c. all_effects (geometry sb) c (contents j.device)) (sym plan);
                world = v.world;
              },
            )
        | was_open ops same_ops apart ↦
            let (d1, applies, m) =
              apply_ops_lem dev IsValid contents laws sb ops j scan.world apart in
            let j1 = record j { device = d1 } in
            let r1 : Replay dev = record {
              cursor = behind;
              pending = remove id r.pending;
              applied = r.applied ++ record { txn_id = id; ops = length ops } ∷ [];
            } in
            let (r', d, e', v) =
              replay_loop_lem es fuel behind tail r1 j1 refl
                (rest_Scan dev IsValid contents laws sb e es cursor tail j scan
                  (effects (geometry sb) ops (contents j.device)) d1 m)
                (subst
                  (λ g.
                    IsLogged (geometry sb) (j.record_start_block * 4096) j.header.record_area_bytes
                      g.capacity_bytes es)
                  (sym m.same_geometry) rest)
                (subst
                  (λ g.
                    PendingApart (geometry sb) (j.record_start_block * 4096)
                      j.header.record_area_bytes g.capacity_bytes (remove id r.pending))
                  (sym m.same_geometry) (remove-PendingApart (geometry sb) _ _ _ id r.pending p))
                (enough dev IsValid contents laws sb e es fuel h) in
            let plan = committed_commit id seq payload ops r.pending es same_ops in
            (
              r',
              d,
              replay_loop-next dev IsValid contents laws sb e es cursor tail j scan fuel r r1 j1
                    same
                    (step_commit id seq payload (record r { cursor = behind }) j ops j1 same_ops
                      applies)
                  ∙ e',
              record {
                applied =
                    v.applied
                    ∙ append_assoc r.applied (record { txn_id = id; ops = length ops } ∷ [])
                        (summary (committed (remove id r.pending) es))
                    ∙ ap (λ c. r.applied ++ summary c) (sym plan);
                written =
                    v.written
                    ∙ ap (all_effects (geometry sb) (committed (remove id r.pending) es)) m.written
                    ∙ ap (λ c. all_effects (geometry sb) c (contents j.device)) (sym plan);
                world = v.world;
              },
            )
      ]
