-- ===== src/Journal/Scan.antt =====
-- The log between the cursor of the replay and its tail.
use native.Mathlib.Nat.{mod-eq_of_lt}
use mathlib.Core.Path.{subst}
use mathlib.Core.List.{append-nil}
use corefs.Common.{
  ℕ, suc, ◌+◌, ◌-◌, ◌*◌, ◌≤◌, ◌≡◌, refl, sym, ap, ◌∙◌, true, ltb, some, List, [], ◌∷◌, ◌++◌, ok,
  length, length-append, arith, >>=-ok,
}
use corefs.Common.Word.{add64}
use corefs.Bytes.{slice, slice-append}
use corefs.Bytes.Nested.{slice-slice}
use corefs.Device.{BlockDevice}
use corefs.Device.Lawful.{Laws}
use corefs.Superblock.{Superblock, geometry}
use corefs.Journal.Log.{Journal, read_record_at}
use corefs.Journal.Entries.{
  Entry, entry_bytes, length-entry_bytes, decoded, Holds, FitsEntry, at, read_record_at_lem,
}
use corefs.Journal.Append.{log_bytes}
use corefs.Journal.Ready.{AllFit, one_fits}
use corefs.Journal.Apply.{Moved}
use corefs.Journal.Target.{World}
use corefs.Journal.Replay.{committed, summary, all_effects, IsLogged, PendingApart}
use corefs.Journal.Transaction.{Pending, Replay, replay_record, replay_loop}

module _ (dev : BlockDevice) (IsValid : dev.Device → Type 0) (contents : dev.Device → List ℕ)
    (laws : Laws dev IsValid contents) (sb : Superblock) where
  -- The rest of the log stands between the cursor and the tail.
  pub record Scan (es : List Entry) (cursor tail : ℕ) (j : Journal dev) : Type 0 where
    pub world : World dev IsValid contents laws sb j
    pub held : Holds dev IsValid contents laws j cursor (log_bytes es)
    pub ends : cursor + length (log_bytes es) ≡ tail
    pub fits : AllFit es

  abbrev pub LoggedOf : Journal dev → List Entry → Type 0
  LoggedOf j =
      IsLogged (geometry sb) (j.record_start_block * 4096) j.header.record_area_bytes
        (dev.geometry j.device).capacity_bytes

  abbrev pub PendingOf : Journal dev → Pending → Type 0
  PendingOf j =
      PendingApart (geometry sb) (j.record_start_block * 4096) j.header.record_area_bytes
        (dev.geometry j.device).capacity_bytes

  -- What the loop leaves: the committed transactions applied.
  pub record Recovered (r : Replay dev) (es : List Entry) (j : Journal dev) (r' : Replay dev)
      (d : dev.Device) : Type 0 where
    pub applied : r'.applied ≡ r.applied ++ summary (committed r.pending es)
    pub written :
        contents d ≡ all_effects (geometry sb) (committed r.pending es) (contents j.device)
    pub world : World dev IsValid contents laws sb (record j { device = d })

  module _ (e : Entry) (es : List Entry) (cursor tail : ℕ) (j : Journal dev)
      (scan : Scan (e ∷ es) cursor tail j) where
    both : log_bytes (e ∷ es) ≡ entry_bytes e ++ log_bytes es
    unfolding log_bytes
    both = refl

    sizes : length (log_bytes (e ∷ es)) ≡ length (entry_bytes e) + length (log_bytes es)
    sizes = ap length both ∙ length-append (entry_bytes e) (log_bytes es)

    whole_fits :
        at dev IsValid contents laws j cursor + length (log_bytes (e ∷ es))
        ≤ length (contents j.device)
    whole_fits = omega (
      arith,
      scan.held.inside,
      scan.world.opened.inside,
      (laws.sized j.device scan.world.opened.valid).0,
    )

    -- The part of the log from `skip` on.
    part :
        (skip len : ℕ) (bytes : List ℕ)
        → len ≡ length bytes
        → skip + len ≤ length (log_bytes (e ∷ es))
        → slice skip len (log_bytes (e ∷ es)) ≡ bytes
        → Holds dev IsValid contents laws j (cursor + skip) bytes
    part skip len bytes long h same = record {
      inside = omega (arith, long, h, scan.held.inside);
      held =
          let c = contents j.device in
          let base = at dev IsValid contents laws j cursor in
          let place = at dev IsValid contents laws j (cursor + skip) in
          let off : place - base ≡ skip = omega arith in
          ap (λ n. slice place n c) (sym long)
          ∙ sym (
              slice-slice base place len (length (log_bytes (e ∷ es))) c (omega arith)
                (omega (arith, h)) whole_fits)
          ∙ (rw off (ap (slice skip len) scan.held.held))
          ∙ same;
    }

    first_held : Holds dev IsValid contents laws j cursor (entry_bytes e)
    first_held =
        let none_skipped : cursor + 0 ≡ cursor = omega arith in
        subst (λ k. Holds dev IsValid contents laws j k (entry_bytes e)) none_skipped
          (part 0 (length (entry_bytes e)) (entry_bytes e) refl (omega (arith, sizes)) (
            ap (slice 0 (length (entry_bytes e))) both
            ∙ slice-append 0 (length (entry_bytes e)) [] (entry_bytes e) (log_bytes es) refl refl))

    rest_held : Holds dev IsValid contents laws j (cursor + (44 + length e.payload)) (log_bytes es)
    rest_held =
        subst (λ k. Holds dev IsValid contents laws j (cursor + k) (log_bytes es))
          (length-entry_bytes e)
          (part (length (entry_bytes e)) (length (log_bytes es)) (log_bytes es) refl
            (omega (arith, sizes))
            (ap (slice (length (entry_bytes e)) (length (log_bytes es)))
                (both ∙ ap (λ b. entry_bytes e ++ b) (sym (append-nil (log_bytes es))))
              ∙ slice-append (length (entry_bytes e)) (length (log_bytes es)) (entry_bytes e)
                  (log_bytes es) [] refl refl))

    next_cursor : add64 cursor (44 + length e.payload) ≡ cursor + (44 + length e.payload)
    next_cursor = mod-eq_of_lt (
        omega (
          arith,
          sizes,
          length-entry_bytes e,
          scan.held.inside,
          scan.world.opened.inside,
          (laws.sized j.device scan.world.opened.valid).1,
        ))

    first_fits : FitsEntry e
    first_fits = elim scan.fits [ one_fits f fs ↦ f ]

    -- A turn of the loop reads the record and goes on behind it.
    pub replay_loop-next :
        (fuel : ℕ) (r : Replay dev) (r' : Replay dev) (j' : Journal dev)
        → r.cursor ≡ cursor
        → replay_record dev (decoded e) (record r { cursor = cursor + (44 + length e.payload) }) j
          ≡ (ok r', j')
        → replay_loop dev (suc fuel) tail r j ≡ replay_loop dev fuel tail r' j'
    unfolding replay_loop decoded
    replay_loop-next fuel r r' j' same e' =
        let more : ltb cursor tail ≡ true =
          ground (arith, scan.ends, sizes, length-entry_bytes e) in
        let seen : read_record_at dev cursor j ≡ ok (some (decoded e)) =
          read_record_at_lem dev IsValid contents laws j scan.world.opened cursor e first_fits
            first_held in
        let moved : add64 r.cursor (44 + length e.payload) ≡ cursor + (44 + length e.payload) =
          ap (λ c. add64 c (44 + length e.payload)) same ∙ next_cursor in
        rw same rw more rw seen (
          >>=-ok
            (replay_record dev (decoded e)
              (record r { cursor = add64 r.cursor (44 + length e.payload) }))
            (λ r''. replay_loop dev fuel tail r'') j
            (ap (λ c. replay_record dev (decoded e) (record r { cursor = c }) j) moved ∙ e'))

    -- What is left of the log, on a device that keeps the record area.
    pub rest_Scan :
        (after : List ℕ) (d : dev.Device)
        → Moved dev IsValid contents laws sb j after d
        → Scan es (cursor + (44 + length e.payload)) tail (record j { device = d })
    rest_Scan after d m = record {
      world = m.world;
      held = record {
        inside = rest_held.inside;
        held =
            m.kept (cursor + (44 + length e.payload)) (length (log_bytes es)) rest_held.inside
            ∙ rest_held.held;
      };
      ends = omega (arith, scan.ends, sizes, length-entry_bytes e);
      fits = elim scan.fits [ one_fits f fs ↦ fs ];
    }

    unmoved : Moved dev IsValid contents laws sb j (contents j.device) j.device
    unmoved = record {
      written = refl;
      same_geometry = refl;
      world = scan.world;
      kept = λ off len h. refl;
    }

  -- A record that changes nothing on the device.
  pub stays :
      (e : Entry) (es : List Entry) (cursor tail : ℕ) (j : Journal dev)
      → Scan (e ∷ es) cursor tail j
      → Scan es (cursor + (44 + length e.payload)) tail j
  stays e es cursor tail j scan =
      rest_Scan e es cursor tail j scan (contents j.device) j.device
        (unmoved e es cursor tail j scan)

  pub enough :
      (e : Entry) (es : List Entry) (fuel : ℕ)
      → length (log_bytes (e ∷ es)) ≤ suc fuel
      → length (log_bytes es) ≤ fuel
  unfolding log_bytes
  enough e es fuel h =
      omega (arith, h, length-append (entry_bytes e) (log_bytes es), length-entry_bytes e)
