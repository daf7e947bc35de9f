-- ===== src/Journal/Open.antt =====
-- A journal is opened as it was left.
use mathlib.Core.Path.{subst}
use corefs.Common.{
  ℕ, ◌+◌, ◌*◌, ◌^◌, ◌≤◌, ◌<◌, ◌≡◌, refl, sym, ap, ◌∙◌, false, ◌==◌, List, ◌++◌, ok, length, arith,
  Returns, and_then-ok,
}
use corefs.Common.Word.{add64, mul64}
use corefs.Device.{BlockDevice}
use corefs.Device.Lawful.{Laws}
use corefs.Superblock.{Superblock}
use corefs.Journal.{Op}
use corefs.Journal.Header.{decode_block, encode_block, decode_block_lem}
use corefs.Journal.Log.{Journal}
use corefs.Journal.Entries.{Entry, at}
use corefs.Journal.Append.{log_bytes}
use corefs.Journal.Ready.{Ready, Stored, block-InDevice, header_inside, keeps}
use corefs.Journal.Commit.{append_ops-Extends, append_transaction-Extends, commit_transaction-Ready}
use corefs.Journal.Extends.{
  AllShort, AllShort-front, op_entries, op_entries-append, seq_after, transaction_entries, Extends,
  length-log_bytes,
}
use corefs.Journal.Transaction.{
  TxnBuilder, open_journal, append_ops, append_transaction, commit_transaction,
}

module _ (dev : BlockDevice) (IsValid : dev.Device → Type 0) (contents : dev.Device → List ℕ)
    (laws : Laws dev IsValid contents) where
  -- A journal whose header stands in its block is opened with that header.
  pub open_journal-Stored :
      (sb : Superblock) (es : List Entry) (j : Journal dev)
      → Ready dev IsValid contents laws es j
      → Stored dev IsValid contents laws j
      → sb.journal_start ≡ j.header_block
      → open_journal dev sb j.device ≡ ok j
  unfolding open_journal
  open_journal-Stored sb es j ready stored same =
      let inside = header_inside dev IsValid contents laws es j ready in
      let word = (laws.sized j.device ready.opened.valid).1 in
      let off : mul64 sb.journal_start 4096 ≡ j.header_block * 4096 =
        omega (arith, same, inside, word) in
      let next : add64 sb.journal_start 1 ≡ j.record_start_block =
        omega (arith, same, inside, word, ready.header_before) in
      and_then-ok (dev.read_at (mul64 sb.journal_start 4096) 4096 j.device) _
        (ap (λ k. dev.read_at k 4096 j.device) off
          ∙ laws.read_lem (j.header_block * 4096) 4096 j.device ready.opened.valid
              (block-InDevice dev IsValid contents laws es j ready j.header_block inside)
          ∙ ap ok stored)
        (and_then-ok (decode_block (encode_block j.header)) _
          (decode_block_lem j.header ready.fields)
          λ i. ok (record {
            device = j.device;
            header_block = same i;
            record_start_block = next i;
            header = j.header;
          }))

  -- On a lawful device that may be written to, `commit` of a transaction with an operation, whose
  -- records have lengths below 2^32 and fit behind the log in the record area, returns the
  -- transaction's identifier, a 64-bit word. The journal that is then opened from the device, as a
  -- mount after a crash does, is the one that `commit` left: its log ends with those records.
  pub commit_transaction-open_journal :
      (sb : Superblock) (t : TxnBuilder) (es : List Entry) (j : Journal dev)
      → Ready dev IsValid contents laws es j
      → sb.journal_start ≡ j.header_block
      → (length t.ops == 0) ≡ false
      → t.txn_id < 2 ^ 64
      → AllShort t.ops
      → j.header.tail_offset + length (log_bytes (transaction_entries j.header.next_seq t))
        ≤ j.header.record_area_bytes
      → Returns (commit_transaction dev t) j λ id j'.
        (id ≡ t.txn_id)
        × (open_journal dev sb j'.device ≡ ok j')
        × Ready dev IsValid contents laws (es ++ transaction_entries j.header.next_seq t) j'
  commit_transaction-open_journal sb t es j ready same some_ops h short fit =
      let (id, j', e, (q, r, stored, b)) =
        commit_transaction-Ready dev IsValid contents laws t es j ready some_ops h short fit in
      (
        id,
        j',
        e,
        (
          q,
          open_journal-Stored sb (es ++ transaction_entries j.header.next_seq t) j' r stored
              (same ∙ sym b),
          r,
        ),
      )

  -- The log of `k` is that of `j` and `new`, but the journal is opened from the device as it was in
  -- `j`, with the log of `j`.
  pub record Unpublished (sb : Superblock) (es new : List Entry) (j k : Journal dev) : Type 0 where
    pub appended : Ready dev IsValid contents laws (es ++ new) k
    pub opens : open_journal dev sb k.device ≡ ok (record j { device = k.device })
    pub old_log : Ready dev IsValid contents laws es (record j { device = k.device })

  Extends-Unpublished :
      (sb : Superblock) (es new : List Entry) (next : ℕ) (j k : Journal dev)
      → Ready dev IsValid contents laws es j
      → Stored dev IsValid contents laws j
      → sb.journal_start ≡ j.header_block
      → Extends dev IsValid contents laws es new next j k
      → Unpublished sb es new j k
  Extends-Unpublished sb es new next j k ready stored same x =
      let before = record j { device = k.device } in
      let log_place = at dev IsValid contents laws j j.header.head_offset in
      let old_log : Ready dev IsValid contents laws es before =
        keeps dev IsValid contents laws es j ready k.device x.ready.opened.valid x.geometry
          (x.kept log_place (length (log_bytes es)) (omega (arith, ready.log.ends))) in
      let old_header : Stored dev IsValid contents laws before =
        x.kept (j.header_block * 4096) 4096 (omega (arith, ready.header_before)) ∙ stored in
      record {
        appended = x.ready;
        opens = open_journal-Stored sb es before old_log old_header same;
        old_log = old_log;
      }

  -- The records of the first operations are no longer than those of the transaction.
  first_records_fit :
      (t : TxnBuilder) (seq : ℕ) (first rest : List Op)
      → t.ops ≡ first ++ rest
      → length (log_bytes (op_entries t.txn_id seq first))
        ≤ length (log_bytes (transaction_entries seq t))
  unfolding transaction_entries
  first_records_fit t seq first rest split =
      let front = op_entries t.txn_id seq first in
      let back = op_entries t.txn_id (seq_after seq first) rest in
      let parts : op_entries t.txn_id seq t.ops ≡ front ++ back =
        ap (op_entries t.txn_id seq) split ∙ op_entries-append t.txn_id seq first rest in
      let sizes = ap (λ es. length (log_bytes es)) parts in
      omega (
        arith,
        sizes,
        length-log_bytes front back,
        length-log_bytes (op_entries t.txn_id seq t.ops) _,
      )

  -- On a lawful device that may be written to and whose header block holds the journal's header, let
  -- the records of a transaction have lengths below 2^32 and fit behind the log in the record area.
  -- Then appending any first part of its operations returns, and so does the whole
  -- `append_transaction`. In the state that either leaves, the log on the device ends with the
  -- records of those operations in their order, for the whole also with the commit record. But the
  -- header on the device is still the old one: the journal that is opened from that device, as a
  -- mount after a crash before the next flush of the header does, is the one from before the
  -- transaction with the old log, so such a crash loses the transaction, although its commit record
  -- may be on the device.
  pub append_transaction-open_journal :
      (sb : Superblock) (t : TxnBuilder) (first rest : List Op) (es : List Entry) (j : Journal dev)
      → t.ops ≡ first ++ rest
      → Ready dev IsValid contents laws es j
      → Stored dev IsValid contents laws j
      → sb.journal_start ≡ j.header_block
      → t.txn_id < 2 ^ 64
      → AllShort t.ops
      → j.header.tail_offset + length (log_bytes (transaction_entries j.header.next_seq t))
        ≤ j.header.record_area_bytes
      → Returns
          (append_ops dev t.txn_id first)
          j
          (λ _ k. Unpublished sb es (op_entries t.txn_id j.header.next_seq first) j k)
        × Returns
            (append_transaction dev t)
            j
            (λ _ k. Unpublished sb es (transaction_entries j.header.next_seq t) j k)
  append_transaction-open_journal sb t first rest es j split ready stored same h short fit =
      let seq = j.header.next_seq in
      let shorter = first_records_fit t seq first rest split in
      let (_, k, runs, x) =
        append_ops-Extends dev IsValid contents laws first t.txn_id seq es j ready refl h
          (AllShort-front first rest (subst AllShort split short)) (omega (arith, shorter, fit)) in
      let (_, l, runs', (next, y)) =
        append_transaction-Extends dev IsValid contents laws t es j ready h short fit in
      (
        (tt, k, runs, Extends-Unpublished sb es _ (seq_after seq first) j k ready stored same x),
        (tt, l, runs', Extends-Unpublished sb es _ next j l ready stored same y),
      )
