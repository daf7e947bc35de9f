-- ===== src/Journal/Extends.antt =====
-- The records of a transaction, and a log that is longer by some records.
use mathlib.Core.Path.{subst}
use mathlib.Core.List.{append_assoc, append-nil}
use corefs.Common.{
  ℕ, ◌+◌, ◌%◌, ◌^◌, ◌≤◌, ◌<◌, ◌≡◌, refl, sym, ap, ◌∙◌, List, [], ◌∷◌, ◌++◌, length, length-append,
  arith, Returns,
}
use corefs.Common.Word.{add64}
use corefs.Bytes.{slice}
use corefs.Bytes.Ranges.{slice-splice_before}
use corefs.Device.{BlockDevice}
use corefs.Device.Lawful.{Laws}
use corefs.Journal.{RecordKind, op, commit, Op, encode}
use corefs.Journal.Header.{JournalHeader, FitsFields}
use corefs.Journal.Log.{Journal, on_device, append_record}
use corefs.Journal.Entries.{Entry, at, entry_bytes, length-entry_bytes}
use corefs.Journal.Append.{append_record_lem, HoldsLog-append, log_bytes, advanced}
use corefs.Journal.Ready.{Ready, AllFit-append, sync-Ready}
use corefs.Journal.Transaction.{TxnBuilder}

-- The records of a transaction's operations, from a sequence number on
unfoldable pub op_entries : ℕ → ℕ → List Op → List Entry
op_entries txn_id seq [] = []
op_entries txn_id seq (o ∷ ops) =
    record { kind = op; txn_id = txn_id; seq = seq; payload = encode o }
    ∷ op_entries txn_id (add64 seq 1) ops

-- The sequence number after them
unfoldable pub seq_after : ℕ → List Op → ℕ
seq_after seq [] = seq
seq_after seq (o ∷ ops) = seq_after (add64 seq 1) ops

-- And with the commit record
unfoldable pub transaction_entries : ℕ → TxnBuilder → List Entry
transaction_entries seq t =
    op_entries t.txn_id seq t.ops
    ++ record { kind = commit; txn_id = t.txn_id; seq = seq_after seq t.ops; payload = [] } ∷ []

pub log_bytes-one : (e : Entry) → length (log_bytes (e ∷ [])) ≡ 44 + length e.payload
unfolding log_bytes
log_bytes-one e = omega (arith, length-append (entry_bytes e) [], length-entry_bytes e)

-- The operations whose records have a length that fits in its field
pub data AllShort : List Op → Type 0 where
  none_short : AllShort []
  one_short :
      {o : Op} {ops : List Op} → length (encode o) < 2 ^ 32 → AllShort ops → AllShort (o ∷ ops)

-- The first operations of a transaction
pub AllShort-front : (ops rest : List Op) → AllShort (ops ++ rest) → AllShort ops
AllShort-front [] rest all = none_short
AllShort-front (o ∷ ops) rest (one_short h all) = one_short h (AllShort-front ops rest all)

pub op_entries-append :
    (txn_id seq : ℕ) (ops rest : List Op)
    → op_entries txn_id seq (ops ++ rest)
      ≡ op_entries txn_id seq ops ++ op_entries txn_id (seq_after seq ops) rest
unfolding op_entries seq_after
op_entries-append txn_id seq [] rest = refl
op_entries-append txn_id seq (o ∷ ops) rest =
    ap (λ more. record { kind = op; txn_id = txn_id; seq = seq; payload = encode o } ∷ more)
      (op_entries-append txn_id (add64 seq 1) ops rest)

FitsFields-advanced : (n : ℕ) (h : JournalHeader) → FitsFields h → FitsFields (advanced n h)
unfolding advanced
FitsFields-advanced n h v = record {
  magic = v.magic;
  version = v.version;
  flags = v.flags;
  head_offset = v.head_offset;
  tail_offset = omega arith;
  next_seq = omega arith;
  next_txn_id = v.next_txn_id;
  state = v.state;
  record_area_bytes = v.record_area_bytes;
}

pub length-log_bytes :
    (xs ys : List Entry)
    → length (log_bytes (xs ++ ys)) ≡ length (log_bytes xs) + length (log_bytes ys)
unfolding log_bytes
length-log_bytes [] ys = omega arith
length-log_bytes (x ∷ xs) ys = omega (
  arith,
  length-append (entry_bytes x) (log_bytes (xs ++ ys)),
  length-append (entry_bytes x) (log_bytes xs),
  length-log_bytes xs ys,
)

module _ (dev : BlockDevice) (IsValid : dev.Device → Type 0) (contents : dev.Device → List ℕ)
    (laws : Laws dev IsValid contents) where
  -- The log of `j'` is the log of `j` and the entries `new`.
  pub record Extends (es new : List Entry) (next : ℕ) (j j' : Journal dev) : Type 0 where
    pub ready : Ready dev IsValid contents laws (es ++ new) j'
    pub seq : j'.header.next_seq ≡ next
    pub tail : j'.header.tail_offset ≡ j.header.tail_offset + length (log_bytes new)
    pub area : j'.header.record_area_bytes ≡ j.header.record_area_bytes
    pub block : j'.header_block ≡ j.header_block
    pub start : j'.record_start_block ≡ j.record_start_block
    pub geometry : dev.geometry j'.device ≡ dev.geometry j.device
    pub kept :
        (off len : ℕ)
        → off + len ≤ at dev IsValid contents laws j j.header.tail_offset
        → slice off len (contents j'.device) ≡ slice off len (contents j.device)

  pub Extends-none :
      (es : List Entry) (seq : ℕ) (j : Journal dev)
      → j.header.next_seq ≡ seq
      → Ready dev IsValid contents laws es j
      → Extends es [] seq j j
  unfolding log_bytes
  Extends-none es seq j q ready = record {
    ready = subst (λ log. Ready dev IsValid contents laws log j) (sym (append-nil es)) ready;
    seq = q;
    tail = omega arith;
    area = refl;
    block = refl;
    start = refl;
    geometry = refl;
    kept = λ off len h. refl;
  }

  pub Extends-trans :
      (es new more : List Entry) (next last : ℕ) (j k l : Journal dev)
      → Extends es new next j k
      → Extends (es ++ new) more last k l
      → Extends es (new ++ more) last j l
  Extends-trans es new more next last j k l a b = record {
    ready = subst (λ log. Ready dev IsValid contents laws log l) (append_assoc es new more) b.ready;
    seq = b.seq;
    tail = omega (arith, a.tail, b.tail, length-log_bytes new more);
    area = b.area ∙ a.area;
    block = b.block ∙ a.block;
    start = b.start ∙ a.start;
    geometry = b.geometry ∙ a.geometry;
    kept = λ off len h. b.kept off len (omega (arith, h, a.start, a.tail)) ∙ a.kept off len h;
  }

  -- One record.
  pub append_one :
      (es : List Entry) (j : Journal dev) (kind : RecordKind) (txn_id : ℕ) (payload : List ℕ)
      (seq : ℕ)
      → j.header.next_seq ≡ seq
      → Ready dev IsValid contents laws es j
      → txn_id < 2 ^ 64
      → length payload < 2 ^ 32
      → j.header.tail_offset + (44 + length payload) ≤ j.header.record_area_bytes
      → Returns (append_record dev kind txn_id payload) j λ _ j'.
        Extends es
          (record { kind = kind; txn_id = txn_id; seq = seq; payload = payload } ∷ [])
          (add64 seq 1)
          j
          j'
  unfolding advanced log_bytes
  append_one es j kind txn_id payload seq q ready h w fit =
      subst
        (λ s. Returns (append_record dev kind txn_id payload) j λ _ k.
          Extends es (record { kind = kind; txn_id = txn_id; seq = s; payload = payload } ∷ [])
            (add64 s 1) j k)
        q appended
    where
      appended : Returns (append_record dev kind txn_id payload) j λ _ k.
          Extends es
            (record { kind = kind; txn_id = txn_id; seq = j.header.next_seq; payload = payload }
              ∷ [])
            (add64 j.header.next_seq 1)
            j
            k
      appended =
          let entry : Entry = record {
            kind = kind;
            txn_id = txn_id;
            seq = j.header.next_seq;
            payload = payload;
          } in
          let (j', e, a) =
            append_record_lem dev IsValid contents laws j ready.opened kind txn_id payload fit in
          (
            tt,
            j',
            e,
            record {
              ready = record {
                opened = a.opened;
                log =
                    HoldsLog-append dev IsValid contents laws j es entry j' ready.opened ready.log a
                      fit;
                entries = AllFit-append es entry ready.entries (record { txn_id = h; payload = w });
                header_before = ap (λ n. n + 1) a.header_place ∙ ready.header_before ∙ sym a.start;
                sectors = ap (λ g. 4096 % g.sector_size) a.same_geometry ∙ ready.sectors;
                fields =
                    subst FitsFields (sym a.header)
                      (FitsFields-advanced (44 + length payload) j.header ready.fields);
              };
              seq = ap (λ x. x.next_seq) a.header;
              tail =
                  omega
                    (arith, a.tail, length-append (entry_bytes entry) [], length-entry_bytes entry);
              area = a.area;
              block = a.header_place;
              start = a.start;
              geometry = a.same_geometry;
              kept = λ off len h'.
                  ap (slice off len) a.written
                  ∙ slice-splice_before (at dev IsValid contents laws j j.header.tail_offset)
                      (entry_bytes entry) (contents j.device)
                      (omega (
                        arith,
                        length-entry_bytes entry,
                        fit,
                        ready.opened.inside,
                        (laws.sized j.device ready.opened.valid).0,
                      ))
                      off len h';
            },
          )

  -- A sync changes nothing of it.
  pub sync-Extends :
      (es new : List Entry) (next : ℕ) (j k : Journal dev)
      → Extends es new next j k
      → Returns (on_device dev dev.sync) k λ _ l. Extends es new next j l
  sync-Extends es new next j k x =
      let (_, l, e, (r, c, h, b, s, g)) =
        sync-Ready dev IsValid contents laws (es ++ new) k x.ready in
      (
        tt,
        l,
        e,
        record {
          ready = r;
          seq = ap (λ g. g.next_seq) h ∙ x.seq;
          tail = ap (λ g. g.tail_offset) h ∙ x.tail;
          area = ap (λ g. g.record_area_bytes) h ∙ x.area;
          block = b ∙ x.block;
          start = s ∙ x.start;
          geometry = g ∙ x.geometry;
          kept = λ off len h'. ap (slice off len) c ∙ x.kept off len h';
        },
      )
