-- ===== src/Tests/Journaled.antt =====
-- The journal on a device in memory.
use mathlib.Core.List.{append_assoc}
use corefs.Common.{
  ◌/◌, ℕ, ◌+◌, ◌-◌, ◌*◌, ◌^◌, ◌<◌, ◌≤◌, ◌≡◌, refl, sym, ap, ◌∙◌, inr, List, [], ◌∷◌, ◌++◌, ok,
  length, length-append, arith, Returns,
}
use corefs.Bytes.{zeros, length-zeros, length-to_le, slice, slice-append}
use corefs.Device.{memory_device, memory}
use corefs.Device.Memory.{IsValid, memory-Laws}
use corefs.Volume.Copies.{
  read_sb_with_fallbacks, first_of, copy_at, read_sb_with_fallbacks-first_of,
}
use corefs.Superblock.{
  geometry, for_new_volume, encode_block as superblock_block, decode_block as decode_superblock,
}
use corefs.Superblock.Codec.{
  length-encode_block as length-superblock_block, decode_block-encode_block,
}
use corefs.Journal.{op, commit, block_write, encode, encode_op}
use corefs.Journal.Ops.{FitsOp, decode-encode}
use corefs.Journal.Header.{fresh, encode_block, length-encode_block}
use corefs.Journal.Log.{Journal}
use corefs.Journal.Entries.{Entry, entry_bytes, length-entry_bytes}
use corefs.Journal.Append.{log_bytes}
use corefs.Journal.Ready.{Ready, Stored, AllFit, none_fits, one_fits}
use corefs.Journal.Extends.{
  AllShort, none_short, one_short, transaction_entries, op_entries, seq_after,
}
use corefs.Journal.Open.{
  Unpublished, commit_transaction-open_journal, append_transaction-open_journal,
}
use corefs.Journal.Target.{World, one_block, target, op_bytes}
use corefs.Journal.Replay.{
  IsLogged, logged_none, logged_op, logged_commit, committed, summary, all_effects,
}
use corefs.Journal.Committed.{committed-transaction_entries, no_ops, more_ops}
use corefs.Journal.Replayed.{replay-committed}
use corefs.Journal.Transaction.{
  TxnBuilder, append_ops, commit_transaction, append_transaction, open_journal, replay,
}
use corefs.Tests.Codecs.{
  small_superblock, small-FitsFields, small_checked, header_of, header_of-FitsFields,
}

-- The blocks before the log: an empty one, the superblock, the header of the journal
pub before_log : ℕ → List ℕ
before_log tail = zeros 4096 ++ (superblock_block small_superblock ++ encode_block (header_of tail))

pub image : ℕ → List ℕ → List ℕ
image tail log = before_log tail ++ (log ++ zeros (20480 - length log))

length-before_log : (tail : ℕ) → tail < 2 ^ 64 → length (before_log tail) ≡ 12288
unfolding before_log
length-before_log tail h = omega (
  arith,
  length-append (zeros 4096) (superblock_block small_superblock ++ encode_block (header_of tail)),
  length-append (superblock_block small_superblock) (encode_block (header_of tail)),
  length-zeros 4096,
  length-superblock_block small_superblock small-FitsFields,
  length-encode_block (header_of tail) (header_of-FitsFields tail h),
)

length-image :
    (tail : ℕ) (log : List ℕ) → tail < 2 ^ 64 → length log ≤ 20480 → length (image tail log) ≡ 32768
unfolding image
length-image tail log h fit = omega (
  arith,
  fit,
  length-append (before_log tail) (log ++ zeros (20480 - length log)),
  length-append log (zeros (20480 - length log)),
  length-before_log tail h,
  length-zeros (20480 - length log),
)

unfoldable pub journal_on : List ℕ → Journal memory
journal_on log = record {
  device = memory_device (image (length log) log) 32768 512;
  header_block = 2;
  record_start_block = 3;
  header = header_of (length log);
}

-- The journal whose record area holds a log
journal_on-Ready :
    (es : List Entry)
    → length (log_bytes es) ≤ 8192
    → AllFit es
    → Ready memory IsValid (λ d. d.bytes) memory-Laws es (journal_on (log_bytes es))
unfolding journal_on memory_device header_of fresh image
journal_on-Ready es h fits =
    let log = log_bytes es in
    record {
      opened = record {
        valid = record {
          sized = length-image (length log) log (omega (arith, h)) (omega (arith, h));
          in_word = omega arith;
          sector = omega arith;
          whole = refl;
        };
        writable = refl;
        inside = omega arith;
      };
      log = record {
        held = record {
          inside = omega (arith, h);
          held =
              slice-append 12288 (length log) (before_log (length log)) log
                (zeros (20480 - length log))
                (sym (length-before_log (length log) (omega (arith, h)))) refl;
        };
        ends = omega arith;
      };
      entries = fits;
      header_before = refl;
      sectors = refl;
      fields = unfold header_of fresh in header_of-FitsFields (length log) (omega (arith, h));
    }

-- Its header block holds its header.
journal_on-Stored :
    (log : List ℕ)
    → length log ≤ 8192
    → Stored memory IsValid (λ d. d.bytes) memory-Laws (journal_on log)
unfolding journal_on memory_device image before_log
journal_on-Stored log h =
    let tail = length log in
    let header = encode_block (header_of tail) in
    let sb = superblock_block small_superblock in
    let rest = log ++ zeros (20480 - length log) in
    let front : 8192 ≡ length (zeros 4096 ++ sb) = omega (
      arith,
      length-append (zeros 4096) sb,
      length-zeros 4096,
      length-superblock_block small_superblock small-FitsFields,
    ) in
    ap (slice 8192 4096) (simp append_assoc refl)
    ∙ slice-append 8192 4096 (zeros 4096 ++ sb) header rest front
        (sym (length-encode_block (header_of tail) (header_of-FitsFields tail (omega (arith, h)))))

-- And the superblock is in its block.
journal_on-World :
    (es : List Entry)
    → length (log_bytes es) ≤ 8192
    → AllFit es
    → World memory IsValid (λ d. d.bytes) memory-Laws small_superblock (journal_on (log_bytes es))
journal_on-World es h fits =
    let ready = journal_on-Ready es h fits in
    record {
      opened = ready.opened;
      sectors = ready.sectors;
      second = unfold journal_on memory_device in omega arith;
      superblock =
          ap decode_superblock (in_place (log_bytes es) h)
          ∙ decode_block-encode_block small_superblock small-FitsFields small_checked;
    }
  where
    in_place :
        (log : List ℕ)
        → length log ≤ 8192
        → slice 4096 4096 (journal_on log).device.bytes ≡ superblock_block small_superblock
    in_place log k =
        unfold journal_on memory_device image before_log in
        (ap (slice 4096 4096) (simp append_assoc refl)
          ∙ slice-append 4096 4096 (zeros 4096) (superblock_block small_superblock)
              (encode_block (header_of (length log)) ++ (log ++ zeros (20480 - length log)))
              (sym (length-zeros 4096))
              (sym (length-superblock_block small_superblock small-FitsFields)))

-- A transaction that writes one block of data
abbrev one_write : TxnBuilder
one_write = record { txn_id = 1; ops = block_write 6 (zeros 4096) ∷ [] }

length-write : length (encode (block_write 6 (zeros 4096))) ≡ 4109
unfolding encode encode_op
length-write = simp (length-append, length-to_le, length-zeros) refl

one_write-AllShort : AllShort one_write.ops
one_write-AllShort = one_short (omega (arith, length-write)) none_short

length-one_write : length (log_bytes (transaction_entries 0 one_write)) ≡ 4197
unfolding transaction_entries op_entries seq_after log_bytes
length-one_write =
    let write : Entry = record {
      kind = op;
      txn_id = 1;
      seq = 0;
      payload = encode (block_write 6 (zeros 4096));
    } in
    let last : Entry = record { kind = commit; txn_id = 1; seq = 1; payload = [] } in
    omega (
      arith,
      length-write,
      length-append (entry_bytes write) (entry_bytes last ++ []),
      length-append (entry_bytes last) [],
      length-entry_bytes write,
      length-entry_bytes last,
    )

one_write-AllFit : AllFit (transaction_entries 0 one_write)
unfolding transaction_entries op_entries seq_after
one_write-AllFit =
    one_fits (record { txn_id = omega arith; payload = omega (arith, length-write) })
      (one_fits (record { txn_id = omega arith; payload = omega arith }) none_fits)

abbrev empty_journal : Journal memory
empty_journal = journal_on (log_bytes [])

empty_fits : length (log_bytes []) ≤ 8192
unfolding log_bytes
empty_fits = omega arith

one_write_fits :
    empty_journal.header.tail_offset
      + length (log_bytes (transaction_entries empty_journal.header.next_seq one_write))
    ≤ empty_journal.header.record_area_bytes
unfolding journal_on header_of fresh
one_write_fits = omega (arith, length-one_write, none_long)
  where
    none_long : length (log_bytes []) ≡ 0
    none_long = unfold log_bytes in refl

starts_at : small_superblock.journal_start ≡ empty_journal.header_block
unfolding for_new_volume journal_on
starts_at = refl

commit_transaction-open_journal_example :
    Returns (commit_transaction memory one_write) empty_journal λ id j'.
      (id ≡ 1)
      × (open_journal memory small_superblock j'.device ≡ ok j')
      × Ready memory IsValid
          (λ d. d.bytes)
          memory-Laws
          ([] ++ transaction_entries empty_journal.header.next_seq one_write)
          j'
commit_transaction-open_journal_example =
    commit_transaction-open_journal memory IsValid (λ d. d.bytes) memory-Laws small_superblock
      one_write [] empty_journal (journal_on-Ready [] empty_fits none_fits) starts_at refl
      (omega arith) one_write-AllShort one_write_fits

-- The header of the journal is not yet flushed, behind the only write and behind the commit record.
append_transaction-open_journal_example :
    Returns (append_ops memory 1 one_write.ops) empty_journal (λ _ k.
      Unpublished memory IsValid
        (λ d. d.bytes)
        memory-Laws
        small_superblock
        []
        (op_entries 1 empty_journal.header.next_seq one_write.ops)
        empty_journal
        k)
    × Returns (append_transaction memory one_write) empty_journal (λ _ k.
      Unpublished memory IsValid
        (λ d. d.bytes)
        memory-Laws
        small_superblock
        []
        (transaction_entries empty_journal.header.next_seq one_write)
        empty_journal
        k)
append_transaction-open_journal_example =
    append_transaction-open_journal memory IsValid (λ d. d.bytes) memory-Laws small_superblock
      one_write one_write.ops [] [] empty_journal refl (journal_on-Ready [] empty_fits none_fits)
      (journal_on-Stored (log_bytes []) empty_fits) starts_at (omega arith) one_write-AllShort
      one_write_fits

-- A journal that holds the transaction
abbrev full_log : List Entry
full_log = transaction_entries 0 one_write

abbrev pub full_journal : Journal memory
full_journal = journal_on (log_bytes full_log)

full_log-IsLogged :
    IsLogged
      (geometry small_superblock)
      (full_journal.record_start_block * 4096)
      full_journal.header.record_area_bytes
      (memory.geometry full_journal.device).capacity_bytes
      full_log
unfolding transaction_entries op_entries seq_after journal_on memory_device header_of fresh
full_log-IsLogged =
    logged_op
      (decode-encode (block_write 6 (zeros 4096))
        (unfold FitsOp in (omega arith, omega (arith, length-zeros 4096))))
      (unfold target op_bytes in
        record {
          size = one_block (length-zeros 4096);
          inside = omega arith;
          behind_superblock = omega arith;
          beside_area = inr (omega arith);
        })
      (logged_commit logged_none)

replay-committed_example : Returns (replay memory) full_journal λ applied j'.
    (applied ≡ summary (committed [] full_log))
    × (j'.device.bytes
        ≡ all_effects (geometry small_superblock) (committed [] full_log) full_journal.device.bytes)
replay-committed_example =
    replay-committed memory IsValid (λ d. d.bytes) memory-Laws small_superblock full_log
      full_journal (journal_on-Ready full_log (omega (arith, length-one_write)) one_write-AllFit)
      (journal_on-World full_log (omega (arith, length-one_write)) one_write-AllFit)
      full_log-IsLogged

committed-transaction_entries_example :
    committed [] (transaction_entries 0 one_write) ≡ (1, block_write 6 (zeros 4096) ∷ []) ∷ []
committed-transaction_entries_example = committed-transaction_entries 0 one_write refl (
    more_ops {o = block_write 6 (zeros 4096)}
      (unfold FitsOp in (omega arith, omega (arith, length-zeros 4096))) no_ops)

read_sb_with_fallbacks-first_of_example :
    read_sb_with_fallbacks memory full_journal.device
    ≡ first_of
        (copy_at memory IsValid (λ d. d.bytes) memory-Laws 1 full_journal.device)
        (copy_at memory IsValid
          (λ d. d.bytes)
          memory-Laws
          ((memory.geometry full_journal.device).capacity_bytes / 4096 / 2)
          full_journal.device)
        (copy_at memory IsValid
          (λ d. d.bytes)
          memory-Laws
          ((memory.geometry full_journal.device).capacity_bytes / 4096 - 1)
          full_journal.device)
read_sb_with_fallbacks-first_of_example =
    let ready = journal_on-Ready full_log (omega (arith, length-one_write)) one_write-AllFit in
    let world = journal_on-World full_log (omega (arith, length-one_write)) one_write-AllFit in
    read_sb_with_fallbacks-first_of memory IsValid (λ d. d.bytes) memory-Laws full_journal.device
      ready.opened.valid ready.sectors world.second
