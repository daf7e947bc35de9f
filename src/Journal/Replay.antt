-- ===== src/Journal/Replay.antt =====
-- The replay applies the committed transactions of the log, and nothing else.
use corefs.Common.{
  ℕ, ◌≡◌, refl, Bool-cases, ◌==◌, inl, inr, none, some, List, [], ◌∷◌, ◌++◌, ok, err, length,
}
use corefs.Layout.{LayoutGeometry}
use corefs.Journal.{op, commit, abort, Op, decode}
use corefs.Journal.Entries.{Entry}
use corefs.Journal.Target.{IsApart, AllApart, none_apart, one_apart, effects}
use corefs.Journal.Transaction.{ReplayedTxn, Pending, push_op, removed, remove}

-- The transactions that a log commits, with their operations, where `pending` are open before it
unfoldable pub committed : Pending → List Entry → List (ℕ × List Op)
committed pending [] = []
committed pending (e ∷ es) = elim e.kind [
  | op ↦ elim (decode e.payload) [ ok o ↦ committed (push_op e.txn_id o pending) es | err _ ↦ [] ]
  | commit ↦ elim (removed e.txn_id pending) [
    | none ↦ committed pending es
    | some ops ↦ (e.txn_id, ops) ∷ committed (remove e.txn_id pending) es
  ]
  | abort ↦ committed (remove e.txn_id pending) es
]

-- A record of each kind in the list of what is committed.
module _ (id seq : ℕ) (payload : List ℕ) where
  pub committed_op :
      (o : Op) (p : Pending) (es : List Entry)
      → decode payload ≡ ok o
      → committed p (record { kind = op; txn_id = id; seq = seq; payload = payload } ∷ es)
        ≡ committed (push_op id o p) es
  unfolding committed
  committed_op o p es e = rw (e, committed) refl

  pub committed_empty :
      (p : Pending) (es : List Entry)
      → removed id p ≡ none
      → committed p (record { kind = commit; txn_id = id; seq = seq; payload = payload } ∷ es)
        ≡ committed p es
  unfolding committed
  committed_empty p es e = rw (e, committed) refl

  pub committed_commit :
      (ops : List Op) (p : Pending) (es : List Entry)
      → removed id p ≡ some ops
      → committed p (record { kind = commit; txn_id = id; seq = seq; payload = payload } ∷ es)
        ≡ (id, ops) ∷ committed (remove id p) es
  unfolding committed
  committed_commit ops p es e = rw (e, committed) refl

unfoldable pub summary : List (ℕ × List Op) → List ReplayedTxn
summary [] = []
summary ((id, ops) ∷ txns) = record { txn_id = id; ops = length ops } ∷ summary txns

-- The device's bytes after the transactions
unfoldable pub all_effects : LayoutGeometry → List (ℕ × List Op) → List ℕ → List ℕ
all_effects g [] contents = contents
all_effects g ((id, ops) ∷ txns) contents = all_effects g txns (effects g ops contents)

-- A log whose operations decode, and are apart from the record area and the superblock.
pub data IsLogged (g : LayoutGeometry) (start area capacity : ℕ) : List Entry → Type 0 where
  logged_none : IsLogged g start area capacity []
  logged_op :
      {id seq : ℕ} {payload : List ℕ} {o : Op} {es : List Entry}
      → decode payload ≡ ok o
      → IsApart g start area capacity o
      → IsLogged g start area capacity es
      → IsLogged g start area capacity
          (record { kind = op; txn_id = id; seq = seq; payload = payload } ∷ es)
  logged_commit :
      {id seq : ℕ} {payload : List ℕ} {es : List Entry}
      → IsLogged g start area capacity es
      → IsLogged g start area capacity
          (record { kind = commit; txn_id = id; seq = seq; payload = payload } ∷ es)
  logged_abort :
      {id seq : ℕ} {payload : List ℕ} {es : List Entry}
      → IsLogged g start area capacity es
      → IsLogged g start area capacity
          (record { kind = abort; txn_id = id; seq = seq; payload = payload } ∷ es)

module _ (g : LayoutGeometry) (start area capacity : ℕ) where
  pub data PendingApart : Pending → Type 0 where
    no_pending : PendingApart []
    some_pending :
        {id : ℕ} {ops : List Op} {rest : Pending}
        → AllApart g start area capacity ops
        → PendingApart rest
        → PendingApart ((id, ops) ∷ rest)

  AllApart-append :
      (ops : List Op) (o : Op)
      → AllApart g start area capacity ops
      → IsApart g start area capacity o
      → AllApart g start area capacity (ops ++ o ∷ [])
  AllApart-append [] o none_apart a = one_apart a none_apart
  AllApart-append (x ∷ ops) o (one_apart b rest) a = one_apart b (AllApart-append ops o rest a)

  pub push_op-PendingApart :
      (id : ℕ) (o : Op) (p : Pending)
      → PendingApart p
      → IsApart g start area capacity o
      → PendingApart (push_op id o p)
  unfolding push_op
  push_op-PendingApart id o [] no_pending a = some_pending (one_apart a none_apart) no_pending
  push_op-PendingApart id o ((k, ops) ∷ rest) (some_pending x xs) a = elim (Bool-cases (k == id)) [
    | inl e ↦ rw e (some_pending (AllApart-append ops o x a) xs)
    | inr e ↦ rw e (some_pending x (push_op-PendingApart id o rest xs a))
  ]

  pub remove-PendingApart : (id : ℕ) (p : Pending) → PendingApart p → PendingApart (remove id p)
  unfolding remove
  remove-PendingApart id [] no_pending = no_pending
  remove-PendingApart id ((k, ops) ∷ rest) (some_pending x xs) = elim (Bool-cases (k == id)) [
    | inl e ↦ rw e xs
    | inr e ↦ rw e (some_pending x (remove-PendingApart id rest xs))
  ]

  -- A transaction that is open or not, with its operations.
  pub data Removal (id : ℕ) (p : Pending) : Type 0 where
    not_open : removed id p ≡ none → Removal id p
    was_open :
        (ops : List Op)
        → removed id p ≡ some ops
        → AllApart g start area capacity ops
        → Removal id p

  pub removal : (id : ℕ) (p : Pending) → PendingApart p → Removal id p
  unfolding removed
  removal id [] no_pending = not_open refl
  removal id ((k, ops) ∷ rest) (some_pending x xs) = elim (Bool-cases (k == id)) [
    | inl e ↦ was_open ops (rw e refl) x
    | inr e ↦ elim (removal id rest xs) [
      | not_open none_found ↦ not_open (rw e none_found)
      | was_open later same y ↦ was_open later (rw e same) y
    ]
  ]
