-- ===== src/Journal/Transaction.antt =====
-- Transactions: the life of a journal, the builder that commits or aborts, and the replay.
use corefs.Common.{
  ℕ, zero, suc, ◌-◌, not, ltb, ◌==◌, if◌then◌else◌, List, [], ◌∷◌, ◌++◌, length, Option, none, some,
  CoreFsResult, ok, err, invalid_input, state, Method, ◌>>=◌, ◌>>◌, pure, throw, and_then,
}
use corefs.Common.Word.{add64, sub64, mul64, saturating_add64}
use corefs.Bytes.{splice, zeros}
use corefs.Layout.{block_size, inode_size, inode_record_location, primary_superblock_block}
use corefs.Device.{BlockDevice}
use corefs.Superblock.{Superblock, geometry, decode_block as decode_superblock}
use corefs.Journal.{op, commit, abort, Op, block_write, inode_update, encode, decode}
use corefs.Journal.Header.{
  JournalHeader, fresh, encode_block, decode_block, jstate_clean, jstate_dirty,
}
use corefs.Journal.Log.{Journal, DecodedRecord, on_device, append_record, read_record_at}

-- `TxnBuilder`
pub record TxnBuilder : Type 0 where
  pub txn_id : ℕ
  pub ops : List Op

-- `TxnBuilder::push`
unfoldable pub push : Op → TxnBuilder → TxnBuilder
push o t = record t { ops = t.ops ++ o ∷ [] }

pub record ReplayedTxn : Type 0 where
  pub txn_id : ℕ
  pub ops : ℕ

-- `BTreeMap<u64, Vec<Op>>`, as an association list in the order of the first operations
abbrev pub Pending : Type 0
Pending = List (ℕ × List Op)

-- `pending.entry(txn_id).or_default().push(op)`
unfoldable pub push_op : ℕ → Op → Pending → Pending
push_op txn_id o [] = (txn_id, o ∷ []) ∷ []
push_op txn_id o ((id, ops) ∷ rest) =
    let later = push_op txn_id o rest in
    if id == txn_id then (id, ops ++ o ∷ []) ∷ rest else (id, ops) ∷ later

-- What `pending.remove(&txn_id)` returns, and what it leaves
unfoldable pub removed : ℕ → Pending → Option (List Op)
removed txn_id [] = none
removed txn_id ((id, ops) ∷ rest) =
    let later = removed txn_id rest in if id == txn_id then some ops else later

unfoldable pub remove : ℕ → Pending → Pending
remove txn_id [] = []
remove txn_id ((id, ops) ∷ rest) =
    let later = remove txn_id rest in if id == txn_id then rest else (id, ops) ∷ later

module _ (dev : BlockDevice) where
  -- `Journal::format`, on the device that it borrows
  unfoldable pub format : Superblock → dev.Device → CoreFsResult (Journal dev) × dev.Device
  format sb = if ltb sb.journal_blocks 2 then throw invalid_input else (do
    let header = fresh (mul64 (sub64 sb.journal_blocks 1) block_size)
    let header_block = sb.journal_start
    let record_start_block = add64 header_block 1
    dev.write_at (mul64 header_block block_size) (encode_block header)
    dev.write_at (mul64 record_start_block block_size) (zeros block_size)
    dev.sync
    λ d. (
      ok (record {
        device = d;
        header_block = header_block;
        record_start_block = record_start_block;
        header = header;
      }),
      d,
    ))

  -- `Journal::inspect`
  unfoldable pub inspect : Superblock → dev.Device → CoreFsResult JournalHeader
  inspect sb d =
      and_then (dev.read_at (mul64 sb.journal_start block_size) block_size d) decode_block

  -- `Journal::open`
  unfoldable pub open_journal : Superblock → dev.Device → CoreFsResult (Journal dev)
  open_journal sb d =
      and_then (dev.read_at (mul64 sb.journal_start block_size) block_size d) λ block.
        and_then (decode_block block) λ header. ok (record {
          device = d;
          header_block = sb.journal_start;
          record_start_block = add64 sb.journal_start 1;
          header = header;
        })

  -- `Journal::begin`
  unfoldable pub begin : Journal dev → TxnBuilder × Journal dev
  begin j = (
    record { txn_id = j.header.next_txn_id; ops = [] },
    record j {
      header = record (j.header) { next_txn_id = saturating_add64 j.header.next_txn_id 1 };
    },
  )

  -- `Journal::flush_header`
  unfoldable pub flush_header : Method (Journal dev) (Unit {0})
  flush_header j =
      (do
        on_device dev (dev.write_at (mul64 j.header_block block_size) (encode_block j.header))
        on_device dev dev.sync)
        j

  -- `Journal::checkpoint`
  unfoldable pub checkpoint : Method (Journal dev) (Unit {0})
  checkpoint j =
      let start = record j {
        header = record (j.header) { head_offset = 0; tail_offset = 0; state = jstate_clean };
      } in
      (do
        on_device dev (dev.write_at (mul64 j.record_start_block block_size) (zeros block_size))
        flush_header)
        start

  -- The loop of `commit`
  unfoldable pub append_ops : ℕ → List Op → Method (Journal dev) (Unit {0})
  append_ops txn_id [] = pure tt
  append_ops txn_id (o ∷ ops) = do append_record dev op txn_id (encode o); append_ops txn_id ops

  -- `journal.header.state = JSTATE_DIRTY`
  unfoldable pub set_dirty : Journal dev → Journal dev
  set_dirty j = record j { header = record (j.header) { state = jstate_dirty } }

  -- The statements of `commit` from `append_record` of the operations to the last `sync`
  unfoldable pub append_transaction : TxnBuilder → Method (Journal dev) (Unit {0})
  append_transaction t = do
    append_ops t.txn_id t.ops
    on_device dev dev.sync
    append_record dev commit t.txn_id []
    on_device dev dev.sync

  -- `TxnBuilder::commit`
  unfoldable pub commit_transaction : TxnBuilder → Method (Journal dev) ℕ
  commit_transaction t j =
      if length t.ops == 0
      then (err invalid_input, j)
      else (do flush_header; append_transaction t; flush_header; pure t.txn_id) (set_dirty j)

  -- `TxnBuilder::abort`
  unfoldable pub abort_transaction : TxnBuilder → Method (Journal dev) (Unit {0})
  abort_transaction t = do append_record dev abort t.txn_id []; on_device dev dev.sync

  -- The block that `apply_op` writes for an inode, and its bytes. A slice past the end of the block
  -- panics in the source; an index inside the inode table has its record inside its block.
  unfoldable pub inode_block : ℕ → List ℕ → dev.Device → CoreFsResult (ℕ × List ℕ)
  inode_block index bytes d =
      and_then (dev.read_at (mul64 primary_superblock_block block_size) block_size d) λ sb_bytes.
        and_then (decode_superblock sb_bytes) λ sb.
          and_then (inode_record_location (geometry sb) index) λ place.
            and_then (dev.read_at (mul64 place.0 block_size) block_size d)
              λ buf. ok (place.0, splice place.1 bytes buf)

  -- `apply_op`
  unfoldable pub apply_op : Op → Method (Journal dev) (Unit {0})
  apply_op (block_write block bytes) j =
      if not (length bytes == block_size)
      then (err state, j)
      else on_device dev (dev.write_at (mul64 block block_size) bytes) j
  apply_op (inode_update index bytes) j =
      if not (length bytes == inode_size)
      then (err state, j)
      else elim (inode_block index bytes j.device) [
        | err e ↦ (err e, j)
        | ok p ↦ on_device dev (dev.write_at (mul64 p.0 block_size) p.1) j
      ]

  -- `for op in &ops { self.apply_op(op)?; }`
  unfoldable pub apply_ops : List Op → Method (Journal dev) (Unit {0})
  apply_ops [] = pure tt
  apply_ops (o ∷ ops) = do apply_op o; apply_ops ops

  -- What the loop of `replay` carries
  pub record Replay : Type 0 where
    pub cursor : ℕ
    pub pending : Pending
    pub applied : List ReplayedTxn

  -- The match on a record's kind in `replay`, after the cursor moved
  unfoldable pub replay_record : DecodedRecord → Replay → Method (Journal dev) Replay
  replay_record rec r j = elim rec.kind [
    | op ↦ elim (decode rec.payload) [
      | err e ↦ (err e, j)
      | ok o ↦ (ok (record r { pending = push_op rec.txn_id o r.pending }), j)
    ]
    | commit ↦ elim (removed rec.txn_id r.pending) [
      | none ↦ (ok r, j)
      | some ops ↦
          (do
            apply_ops ops
            pure (record r {
              pending = remove rec.txn_id r.pending;
              applied = r.applied ++ record { txn_id = rec.txn_id; ops = length ops } ∷ [];
            }))
            j
    ]
    | abort ↦ (ok (record r { pending = remove rec.txn_id r.pending }), j)
  ]

  -- The loop of `replay`, with fuel for the turns that are left
  unfoldable pub replay_loop : ℕ → ℕ → Replay → Method (Journal dev) Replay
  replay_loop zero tail r j = (ok r, j)
  replay_loop (suc fuel) tail r j =
      if not (ltb r.cursor tail) then (ok r, j) else elim (read_record_at dev r.cursor j) [
        | err e ↦ (err e, j)
        | ok none ↦ (ok r, j)
        | ok (some rec) ↦
            (do
              r' ← replay_record rec (record r { cursor = add64 r.cursor rec.encoded_len })
              replay_loop fuel tail r')
              j
      ]

  -- `Journal::replay`
  unfoldable pub replay : Method (Journal dev) (List ReplayedTxn)
  replay j =
      (do
        r ←
            replay_loop (j.header.tail_offset - j.header.head_offset) j.header.tail_offset
              (record { cursor = j.header.head_offset; pending = []; applied = [] })
        if not (length r.applied == 0) then on_device dev dev.sync else pure tt
        pure r.applied)
        j
