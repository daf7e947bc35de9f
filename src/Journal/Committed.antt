-- ===== src/Journal/Committed.antt =====
-- The records of a transaction, as the replay understands them.
use mathlib.Core.List.{append_assoc, append-nil}
use corefs.Common.{
  ℕ, ◌≡◌, refl, sym, ap, ◌∙◌, true, false, ◌==◌, List, [], ◌∷◌, ◌++◌, some, length, arith,
}
use corefs.Common.Word.{add64}
use corefs.Journal.{Op, commit, encode}
use corefs.Journal.Ops.{FitsOp, decode-encode}
use corefs.Journal.Extends.{transaction_entries, op_entries, seq_after}
use corefs.Journal.Replay.{committed, committed_op, committed_commit}
use corefs.Journal.Transaction.{TxnBuilder, push_op, removed, remove}

pub data AllFitOps : List Op → Type 0 where
  no_ops : AllFitOps []
  more_ops : {o : Op} {ops : List Op} → FitsOp o → AllFitOps ops → AllFitOps (o ∷ ops)

-- A transaction that is the only open one.
module _ (id : ℕ) (done : List Op) where
  same : (id == id) ≡ true
  same = ground arith

  removed_own : removed id ((id, done) ∷ []) ≡ some done
  unfolding removed
  removed_own = rw same refl

  remove_own : remove id ((id, done) ∷ []) ≡ []
  unfolding remove
  remove_own = rw same refl

  push_op_own : (o : Op) → push_op id o ((id, done) ∷ []) ≡ (id, done ++ o ∷ []) ∷ []
  unfolding push_op
  push_op_own o = rw same refl

-- Operations are pushed behind those that the transaction has already.
committed-op_entries :
    (id seq last : ℕ) (done ops : List Op)
    → AllFitOps ops
    → committed ((id, done) ∷ []) (
        op_entries id seq ops
        ++ record { kind = commit; txn_id = id; seq = last; payload = [] } ∷ [])
      ≡ (id, done ++ ops) ∷ []
unfolding op_entries
committed-op_entries id seq last done [] no_ops =
    committed_commit id last [] done ((id, done) ∷ []) [] (removed_own id done)
    ∙ ap (λ p. (id, done) ∷ committed p []) (remove_own id done)
    ∙ unfold committed in ap (λ ops. (id, ops) ∷ []) (sym (append-nil done))
committed-op_entries id seq last done (o ∷ ops) (more_ops h hs) =
    let rest =
      op_entries id (add64 seq 1) ops
      ++ record { kind = commit; txn_id = id; seq = last; payload = [] } ∷ [] in
    committed_op id seq (encode o) o ((id, done) ∷ []) rest (decode-encode o h)
    ∙ ap (λ p. committed p rest) (push_op_own id done o)
    ∙ committed-op_entries id (add64 seq 1) last (done ++ o ∷ []) ops hs
    ∙ ap (λ all. (id, all) ∷ []) (append_assoc done (o ∷ []) ops)

-- The records that `commit` writes of a transaction, with at least one operation and all of them
-- ones that can be encoded, are to the replay that transaction with its operations in their order.
pub committed-transaction_entries :
    (seq : ℕ) (t : TxnBuilder)
    → (length t.ops == 0) ≡ false
    → AllFitOps t.ops
    → committed [] (transaction_entries seq t) ≡ (t.txn_id, t.ops) ∷ []
unfolding transaction_entries op_entries seq_after push_op
committed-transaction_entries seq t some_ops fit = go t.ops some_ops fit
  where
    go :
        (ops : List Op)
        → (length ops == 0) ≡ false
        → AllFitOps ops
        → committed [] (
            op_entries t.txn_id seq ops
            ++ record { kind = commit; txn_id = t.txn_id; seq = seq_after seq ops; payload = [] }
              ∷ [])
          ≡ (t.txn_id, ops) ∷ []
    go [] e no_ops = absurd (ground (arith, e))
    go (o ∷ ops) e (more_ops h hs) =
        committed_op t.txn_id seq (encode o) o []
          (op_entries t.txn_id (add64 seq 1) ops
            ++ record {
              kind = commit;
              txn_id = t.txn_id;
              seq = seq_after (add64 seq 1) ops;
              payload = [];
            }
              ∷ [])
          (decode-encode o h)
        ∙ committed-op_entries t.txn_id (add64 seq 1) (seq_after (add64 seq 1) ops) (o ∷ []) ops hs
