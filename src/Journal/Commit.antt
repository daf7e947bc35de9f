-- ===== src/Journal/Commit.antt =====
-- A committed transaction stands in the log, and the header on the device knows of it.
use mathlib.Core.Path.{subst}
use corefs.Common.{
  ℕ, ◌+◌, ◌^◌, ◌≤◌, ◌<◌, ◌≡◌, refl, sym, ap, ◌∙◌, false, ◌==◌, List, [], ◌∷◌, ◌++◌, length,
  length-append, arith, Returns, Returns->>=, pure, ◌>>◌,
}
use corefs.Common.Word.{add64}
use corefs.Device.{BlockDevice}
use corefs.Device.Lawful.{Laws}
use corefs.Journal.{op, commit, Op, encode}
use corefs.Journal.Log.{Journal, on_device, append_record}
use corefs.Journal.Entries.{Entry, entry_bytes, length-entry_bytes}
use corefs.Journal.Append.{log_bytes}
use corefs.Journal.Ready.{Ready, Stored, flush_header-Stored}
use corefs.Journal.Transaction.{
  TxnBuilder, append_ops, append_transaction, commit_transaction, set_dirty, flush_header,
}
use corefs.Journal.Extends.{
  op_entries, seq_after, transaction_entries, AllShort, none_short, one_short, log_bytes-one,
  length-log_bytes, Extends, Extends-none, Extends-trans, append_one, sync-Extends,
}

module _ (dev : BlockDevice) (IsValid : dev.Device → Type 0) (contents : dev.Device → List ℕ)
    (laws : Laws dev IsValid contents) where
  -- The records of the operations.
  pub append_ops-Extends :
      (ops : List Op) (txn_id seq : ℕ) (es : List Entry) (j : Journal dev)
      → Ready dev IsValid contents laws es j
      → j.header.next_seq ≡ seq
      → txn_id < 2 ^ 64
      → AllShort ops
      → j.header.tail_offset + length (log_bytes (op_entries txn_id seq ops))
        ≤ j.header.record_area_bytes
      → Returns (append_ops dev txn_id ops) j λ _ j'.
        Extends dev IsValid contents laws es (op_entries txn_id seq ops) (seq_after seq ops) j j'
  unfolding append_ops op_entries seq_after log_bytes
  append_ops-Extends [] txn_id seq es j ready q h none_short fit =
      (tt, j, refl, Extends-none dev IsValid contents laws es seq j q ready)
  append_ops-Extends (o ∷ ops) txn_id seq es j ready q h (one_short s short) fit =
      let entry : Entry = record { kind = op; txn_id = txn_id; seq = seq; payload = encode o } in
      let rest = op_entries txn_id (add64 seq 1) ops in
      let sizes = length-append (entry_bytes entry) (log_bytes rest) in
      let long = length-entry_bytes entry in
      Returns->>= (append_record dev op txn_id (encode o)) (λ _. append_ops dev txn_id ops) j
        (append_one dev IsValid contents laws es j op txn_id (encode o) seq q ready h s
          (omega (arith, sizes, long, fit)))
        λ _ k x.
          let one = length-append (entry_bytes entry) [] in
          let (_, l, e, y) =
            append_ops-Extends ops txn_id (add64 seq 1) (es ++ entry ∷ []) k x.ready x.seq h short
              (omega (arith, x.tail, x.area, sizes, one, fit)) in
          (
            tt,
            l,
            e,
            Extends-trans dev IsValid contents laws es (entry ∷ []) rest (add64 seq 1)
                (seq_after (add64 seq 1) ops) j k l x y,
          )

  -- `append_transaction` writes the records of a transaction behind the log.
  pub append_transaction-Extends :
      (t : TxnBuilder) (es : List Entry) (j : Journal dev)
      → Ready dev IsValid contents laws es j
      → t.txn_id < 2 ^ 64
      → AllShort t.ops
      → j.header.tail_offset + length (log_bytes (transaction_entries j.header.next_seq t))
        ≤ j.header.record_area_bytes
      → Returns (append_transaction dev t) j λ _ j'.
        (next : ℕ) × Extends dev IsValid contents laws es
          (transaction_entries j.header.next_seq t)
          next
          j
          j'
  unfolding append_transaction transaction_entries
  append_transaction-Extends t es j ready h short fit =
      let seq = j.header.next_seq in
      let ops = op_entries t.txn_id seq t.ops in
      let last : Entry = record {
        kind = commit;
        txn_id = t.txn_id;
        seq = seq_after seq t.ops;
        payload = [];
      } in
      let sizes = length-log_bytes ops (last ∷ []) in
      let one = log_bytes-one last in
      Returns->>= (append_ops dev t.txn_id t.ops)
        (λ _. do
          on_device dev dev.sync
          append_record dev commit t.txn_id []
          on_device dev dev.sync)
        j
        (append_ops-Extends t.ops t.txn_id seq es j ready refl h short (omega (arith, sizes, fit)))
        λ _ k x.
          Returns->>= (on_device dev dev.sync)
            (λ _. do append_record dev commit t.txn_id []; on_device dev dev.sync) k
            (sync-Extends dev IsValid contents laws es ops (seq_after seq t.ops) j k x)
            λ _ l y.
              Returns->>= (append_record dev commit t.txn_id []) (λ _. on_device dev dev.sync) l
                (append_one dev IsValid contents laws (es ++ ops) l commit t.txn_id []
                  (seq_after seq t.ops) y.seq y.ready h (omega arith)
                  (omega (arith, y.tail, y.area, sizes, one, fit)))
                λ _ m z.
                  let (_, n, e, w) =
                    sync-Extends dev IsValid contents laws es (ops ++ last ∷ [])
                      (add64 (seq_after seq t.ops) 1) j m
                      (Extends-trans dev IsValid contents laws es ops (last ∷ [])
                        (seq_after seq t.ops) (add64 (seq_after seq t.ops) 1) j l m y z) in
                  (tt, n, e, (add64 (seq_after seq t.ops) 1, w))

  -- Marking the journal as dirty touches nothing but the state.
  set_dirty-Ready :
      (es : List Entry) (j : Journal dev)
      → Ready dev IsValid contents laws es j
      → Ready dev IsValid contents laws es (set_dirty dev j)
  unfolding set_dirty
  set_dirty-Ready es j ready = record {
    opened = record {
      valid = ready.opened.valid;
      writable = ready.opened.writable;
      inside = ready.opened.inside;
    };
    log = record {
      held = record { inside = ready.log.held.inside; held = ready.log.held.held };
      ends = ready.log.ends;
    };
    entries = ready.entries;
    header_before = ready.header_before;
    sectors = ready.sectors;
    fields = record {
      magic = ready.fields.magic;
      version = ready.fields.version;
      flags = ready.fields.flags;
      head_offset = ready.fields.head_offset;
      tail_offset = ready.fields.tail_offset;
      next_seq = ready.fields.next_seq;
      next_txn_id = ready.fields.next_txn_id;
      state = omega arith;
      record_area_bytes = ready.fields.record_area_bytes;
    };
  }

  -- `commit` of a transaction that fits returns its identifier; then the log has its records, and
  -- the header block of the device holds the header that knows of them.
  pub commit_transaction-Ready :
      (t : TxnBuilder) (es : List Entry) (j : Journal dev)
      → Ready dev IsValid contents laws es j
      → (length t.ops == 0) ≡ false
      → t.txn_id < 2 ^ 64
      → AllShort t.ops
      → j.header.tail_offset + length (log_bytes (transaction_entries j.header.next_seq t))
        ≤ j.header.record_area_bytes
      → Returns (commit_transaction dev t) j λ id j'.
        (id ≡ t.txn_id)
        × Ready dev IsValid contents laws (es ++ transaction_entries j.header.next_seq t) j'
        × Stored dev IsValid contents laws j'
        × (j'.header_block ≡ j.header_block)
  unfolding commit_transaction set_dirty
  commit_transaction-Ready t es j ready some_ops h short fit = rw some_ops (
      Returns->>= (flush_header dev)
        (λ _. do append_transaction dev t; flush_header dev; pure t.txn_id) (set_dirty dev j)
        (flush_header-Stored dev IsValid contents laws es (set_dirty dev j)
          (set_dirty-Ready es j ready))
        λ _ k (r, stored, same, b).
          Returns->>= (append_transaction dev t) (λ _. do flush_header dev; pure t.txn_id) k
            (append_transaction-Extends t es k r h short (
              subst
                (λ g.
                  g.tail_offset + length (log_bytes (transaction_entries g.next_seq t))
                  ≤ g.record_area_bytes)
                (sym same) fit))
            λ _ l (next, x).
              Returns->>= (flush_header dev) (λ _. pure t.txn_id) l
                (flush_header-Stored dev IsValid contents laws
                  (es ++ transaction_entries k.header.next_seq t) l x.ready)
                λ _ m (r', stored', same', b'). (
                  t.txn_id,
                  m,
                  refl,
                  (
                    refl,
                    subst (λ q. Ready dev IsValid contents laws (es ++ transaction_entries q t) m)
                        (ap (λ g. g.next_seq) same) r',
                    stored',
                    b' ∙ x.block ∙ b,
                  ),
                ))
