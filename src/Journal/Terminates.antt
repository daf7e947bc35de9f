-- ===== src/Journal/Terminates.antt =====
-- The loop of the replay ends whatever the device holds: the fuel that `replay` gives is enough.
use mathlib.Core.Path.{subst}
use corefs.Common.{
  ℕ, zero, suc, ◌+◌, ◌^◌, ◌≤◌, ◌<◌, ◌≡◌, refl, false, Bool-cases, ltb, ◌==◌, inl, inr, Option, none,
  some, List, [], ◌∷◌, ◌++◌, CoreFsResult, ok, err, length, arith, and_then-all, >>=-same, ◌>>=◌,
  Method,
}
use corefs.Common.Word.{add64}
use corefs.Bytes.{word, from_le, take, drop, slice}
use corefs.Checksum.{hash}
use corefs.Checksum.Bytewise.{AllBytes}
use corefs.Sealed.{expected_crc, stored_crc}
use corefs.Device.{BlockDevice}
use corefs.Journal.{RecordKind, op, commit, abort, Op, decode, from_u16}
use corefs.Journal.Log.{
  Journal, RecordHeader, DecodedRecord, record_header, all_zero, record_magic, read_bytes,
  read_record_at, read_rest,
}
use corefs.Journal.Transaction.{Replay, replay_record, replay_loop, apply_ops, removed, remove}

AllBytes-drop : (n : ℕ) (bs : List ℕ) → AllBytes bs → AllBytes (drop n bs)
unfolding AllBytes drop
AllBytes-drop zero bs h = h
AllBytes-drop (suc n) [] h = h
AllBytes-drop (suc n) (b ∷ bs) h = AllBytes-drop n bs h.1

AllBytes-take : (n : ℕ) (bs : List ℕ) → AllBytes bs → AllBytes (take n bs)
unfolding AllBytes take
AllBytes-take zero bs h = tt
AllBytes-take (suc n) [] h = h
AllBytes-take (suc n) (b ∷ bs) h = (h.0, AllBytes-take n bs h.1)

word_positive : (k : ℕ) → 0 < word k
word_positive zero = omega arith
word_positive (suc k) = omega (arith, word_positive k)

from_le-take_lt : (k : ℕ) (bs : List ℕ) → AllBytes bs → from_le (take k bs) < word k
unfolding AllBytes take from_le
from_le-take_lt zero bs h = omega arith
from_le-take_lt (suc k) [] h = omega (arith, word_positive k)
from_le-take_lt (suc k) (b ∷ bs) h = omega (arith, h.0, from_le-take_lt k bs h.1)

abbrev SmallHeader : Option RecordHeader → Type 0
SmallHeader none = Unit
SmallHeader (some h) = h.payload_len < 2 ^ 32

record_header-SmallHeader : (bytes : List ℕ) → AllBytes bytes → SmallHeader (record_header bytes)
unfolding record_header slice
record_header-SmallHeader bytes h = elim (Bool-cases (all_zero bytes)) [
  | inl e ↦ rw e tt
  | inr e ↦ elim (Bool-cases (from_le (slice 0 4 bytes) == record_magic)) [
    | inr f ↦ rw e rw f tt
    | inl f ↦ elim (Bool-cases (expected_crc 28 (take 32 bytes) == stored_crc 28 bytes)) [
      | inr g ↦ rw e rw f rw g tt
      | inl g ↦ rw e rw f rw g (from_le-take_lt 4 (drop 24 bytes) (AllBytes-drop 24 bytes h))
    ]
  ]
]

abbrev LongRecord : CoreFsResult (Option DecodedRecord) → Type 0
LongRecord (ok none) = Unit
LongRecord (ok (some rec)) = (44 ≤ rec.encoded_len) × (rec.encoded_len < 2 ^ 32 + 44)
LongRecord (err e) = Unit

module _ (dev : BlockDevice)
    (reads_bytes : (off len : ℕ) (d : dev.Device) (bytes : List ℕ)
      → dev.read_at off len d ≡ ok bytes
      → AllBytes bytes) where
  abbrev ReadsBytes : CoreFsResult (List ℕ) → Type 0
  ReadsBytes (ok bytes) = AllBytes bytes
  ReadsBytes (err e) = Unit

  read_bytes-ReadsBytes : (off len : ℕ) (j : Journal dev) → ReadsBytes (read_bytes dev off len j)
  unfolding read_bytes slice AllBytes
  read_bytes-ReadsBytes off len j = elim (Bool-cases (len == 0)) [
    | inl e ↦ rw e tt
    | inr e ↦ rw e (
        and_then-all ReadsBytes (dev.read_at _ _ j.device) _ (λ _. tt)
          λ raw f. AllBytes-take len _ (AllBytes-drop _ raw (reads_bytes _ _ j.device raw f)))
  ]

  read_rest-LongRecord :
      (off : ℕ) (bytes : List ℕ) (h : RecordHeader) (j : Journal dev)
      → h.payload_len < 2 ^ 32
      → LongRecord (read_rest dev off bytes h j)
  unfolding read_rest
  read_rest-LongRecord off bytes h j small =
      and_then-all LongRecord (read_bytes dev (add64 off 40) h.payload_len j) _ (λ _. tt)
        λ payload f.
          and_then-all LongRecord (read_bytes dev (add64 (add64 off 40) h.payload_len) 4 j) _
            (λ _. tt)
            λ trailer g. elim (Bool-cases (hash (bytes ++ payload) == from_le trailer)) [
              | inr e ↦ rw e tt
              | inl e ↦ rw e (
                  and_then-all LongRecord (from_u16 h.kind) _ (λ _. tt)
                    λ kind k. (omega (arith, small), omega (arith, small)))
            ]

  read_record_at-LongRecord : (off : ℕ) (j : Journal dev) → LongRecord (read_record_at dev off j)
  unfolding read_record_at
  read_record_at-LongRecord off j =
      and_then-all LongRecord (read_bytes dev off 40 j) _ (λ _. tt)
        λ bytes f.
          after_header bytes (record_header bytes)
            (record_header-SmallHeader bytes (subst ReadsBytes f (read_bytes-ReadsBytes off 40 j)))
    where
      after_header :
          (bytes : List ℕ) (x : Option RecordHeader)
          → SmallHeader x
          → LongRecord (elim x as (λ _. CoreFsResult (Option DecodedRecord)) [
            | none ↦ ok none
            | some h ↦ read_rest dev off bytes h j
          ])
      after_header bytes none h = tt
      after_header bytes (some header) h = read_rest-LongRecord off bytes header j h

  -- A record does not move the cursor that stands behind it.
  abbrev KeepsCursor : ℕ → CoreFsResult (Replay dev) × Journal dev → Type 0
  KeepsCursor c (ok r, j) = r.cursor ≡ c
  KeepsCursor c (err e, j) = Unit

  applied-KeepsCursor :
      (m : Method (Journal dev) (Unit {0})) (r : Replay dev) (j : Journal dev)
      → KeepsCursor r.cursor ((m >>= λ _ k. (ok r, k)) j)
  applied-KeepsCursor m r j = go (m j)
    where
      go :
          (x : CoreFsResult (Unit {0}) × Journal dev)
          → KeepsCursor r.cursor (elim x.0 as (λ _. CoreFsResult (Replay dev) × Journal dev) [
            | ok a ↦ (ok r, x.1)
            | err e ↦ (err e, x.1)
          ])
      go (ok a, k) = refl
      go (err e, k) = tt

  replay_record-KeepsCursor :
      (kind : RecordKind) (rec : DecodedRecord) (r : Replay dev) (j : Journal dev)
      → KeepsCursor r.cursor (replay_record dev (record rec { kind = kind }) r j)
  unfolding replay_record
  replay_record-KeepsCursor op rec r j = with_op (decode rec.payload) refl
    where
      with_op :
          (x : CoreFsResult Op)
          → decode rec.payload ≡ x
          → KeepsCursor r.cursor (replay_record dev (record rec { kind = op }) r j)
      with_op (ok o) e = rw (e, replay_record) refl
      with_op (err failed) e = rw (e, replay_record) tt
  replay_record-KeepsCursor commit rec r j = with_ops (removed rec.txn_id r.pending) refl
    where
      with_ops :
          (x : Option (List Op))
          → removed rec.txn_id r.pending ≡ x
          → KeepsCursor r.cursor (replay_record dev (record rec { kind = commit }) r j)
      with_ops none e = rw (e, replay_record) refl
      with_ops (some ops) e =
          rw (e, replay_record)
            (applied-KeepsCursor (apply_ops dev ops)
              (record r {
                pending = remove rec.txn_id r.pending;
                applied = r.applied ++ record { txn_id = rec.txn_id; ops = length ops } ∷ [];
              })
              j)
  replay_record-KeepsCursor abort rec r j = refl

  stopped :
      (fuel tail : ℕ) (r : Replay dev) (j : Journal dev)
      → tail ≤ r.cursor
      → replay_loop dev fuel tail r j ≡ (ok r, j)
  unfolding replay_loop
  stopped zero tail r j h = refl
  stopped (suc fuel) tail r j h =
      let stop : ltb r.cursor tail ≡ false = ground (arith, h) in rw stop refl

  -- With as much fuel as there are bytes between the cursor and the tail, on a device that reads
  -- bytes and a tail that leaves room for one more record below 2^64, more fuel changes nothing.
  pub replay_loop-enough :
      (fuel more tail : ℕ) (r : Replay dev) (j : Journal dev)
      → tail + 2 ^ 32 + 44 ≤ 2 ^ 64
      → tail ≤ r.cursor + fuel
      → replay_loop dev (fuel + more) tail r j ≡ replay_loop dev fuel tail r j
  unfolding replay_loop
  replay_loop-enough zero more tail r j room h =
      let same : 0 + more ≡ more = omega arith in rw same (stopped more tail r j (omega (arith, h)))
  replay_loop-enough (suc fuel) more tail r j room h =
      let same : suc fuel + more ≡ suc (fuel + more) = omega arith in
      rw same (elim (Bool-cases (ltb r.cursor tail)) [
        | inr e ↦ rw e refl
        | inl e ↦ rw e (
            with_record (λ r' j' enough. replay_loop-enough fuel more tail r' j' room enough)
              (ground (arith, e)) (read_record_at dev r.cursor j)
              (read_record_at-LongRecord r.cursor j))
      ])
    where
      turn : (n : ℕ) → CoreFsResult (Option DecodedRecord) → CoreFsResult (Replay dev) × Journal dev
      turn n x = elim x [
        | err e ↦ (err e, j)
        | ok none ↦ (ok r, j)
        | ok (some rec) ↦
            (do
              r' ← replay_record dev rec (record r { cursor = add64 r.cursor rec.encoded_len })
              replay_loop dev n tail r')
              j
      ]

      with_record :
          ((r' : Replay dev) (j' : Journal dev)
            → tail ≤ r'.cursor + fuel
            → replay_loop dev (fuel + more) tail r' j' ≡ replay_loop dev fuel tail r' j')
          → r.cursor < tail
          → (x : CoreFsResult (Option DecodedRecord)) → LongRecord x
          → turn (fuel + more) x ≡ turn fuel x
      with_record again below (err e) long = refl
      with_record again below (ok none) long = refl
      with_record again below (ok (some rec)) long =
          let behind : Replay dev = record r { cursor = add64 r.cursor rec.encoded_len } in
          >>=-same (replay_record dev rec behind) (λ r'. replay_loop dev (fuel + more) tail r')
            (λ r'. replay_loop dev fuel tail r') j
            λ r' j' e.
              let cursor : r'.cursor ≡ add64 r.cursor rec.encoded_len =
                subst (KeepsCursor (add64 r.cursor rec.encoded_len)) e
                  (replay_record-KeepsCursor rec.kind rec behind j) in
              again r' j' (omega (arith, cursor, below, h, room, long.0, long.1))
