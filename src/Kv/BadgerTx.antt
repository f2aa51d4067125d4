-- ===== src/Kv/BadgerTx.antt =====
-- kv/badger/tx.go and the `Tx` and `NewTx` of kv/badger/badger.go. The calls are made one at a time, as
-- the mutex has it.
pub mod Published
mod Tests
use gokvkit.Prelude.{Str, Bool, not, List, [], ◌∷◌, ◌++◌, Option, none, some, if◌then◌else◌}
use gokvkit.Errors.Outcome.{Outcome, ok, fail, panic}
use gokvkit.Errors.Exec.{Exec, pure, lift, modify, ◌>>◌}

pub data TxOp : Type 0 where
  set_op del_op : TxOp

-- kv.CDC
pub record Change : Type 0 where
  pub operation : TxOp
  pub key : Str
  pub value : Str

-- github.com/dgraph-io/badger: a transaction and a write batch, each changed by the calls on it.
pub record Badger : Type 1 where
  pub Txn : Type 0
  pub Batch : Type 0
  pub new_transaction : Bool → Txn
  pub new_batch : Batch
  -- a missing key is `none`: ErrKeyNotFound
  pub get : Str → Txn → Outcome (Option Str) × Txn
  pub set_entry : Str → Str → Txn → Outcome (Unit {0}) × Txn
  pub delete : Str → Txn → Outcome (Unit {0}) × Txn
  pub commit : Txn → Outcome (Unit {0}) × Txn
  pub discard : Txn → Txn
  pub batch_set : Str → Str → Batch → Outcome (Unit {0}) × Batch
  pub batch_delete : Str → Batch → Outcome (Unit {0}) × Batch
  pub flush : Batch → Outcome (Unit {0}) × Batch
  pub cancel : Batch → Batch

module _ (badger : Badger) where
  -- `published` is what the machine of the database has been given so far.
  pub record BadgerTx : Type 0 where
    pub read_only : Bool
    pub batch : Option badger.Batch
    pub txn : Option badger.Txn
    pub entries : List Change
    pub published : List Change

  abbrev pub set_change : Str → Str → Change
  set_change k v = record { operation = set_op; key = k; value = v }

  abbrev pub del_change : Str → Change
  del_change k = record { operation = del_op; key = k; value = [] }

  abbrev pub log : Change → BadgerTx → BadgerTx
  log c t = record t { entries = t.entries ++ c ∷ [] }

module _ {A : Type 0} (badger : Badger) where
  -- A call on the transaction or on the batch that is there.
  abbrev pub on_txn : badger.Txn → (badger.Txn → Outcome A × badger.Txn) → Exec (BadgerTx badger) A
  on_txn x f t = let (o, x') = f x in (o, record t { txn = some x' })

  abbrev pub on_batch :
      badger.Batch → (badger.Batch → Outcome A × badger.Batch) → Exec (BadgerTx badger) A
  on_batch b f t = let (o, b') = f b in (o, record t { batch = some b' })

module _ (badger : Badger) where
  abbrev pub run_set :
      Str → Str → Option badger.Batch → Option badger.Txn → Exec (BadgerTx badger) (Unit {0})
  run_set k v (some b) x = on_batch badger b (badger.batch_set k v)
  run_set k v none (some x) = on_txn badger x (badger.set_entry k v)
  run_set k v none none = pure tt

  -- Set logs the change once it has been made.
  unfoldable pub set : Str → Str → Exec (BadgerTx badger) (Unit {0})
  set k v t = (run_set k v t.batch t.txn >> modify (log badger (set_change badger k v))) t

  -- A call on a nil transaction panics.
  abbrev pub run_delete :
      Str → Option badger.Batch → Option badger.Txn → Exec (BadgerTx badger) (Unit {0})
  run_delete k (some b) x = on_batch badger b (badger.batch_delete k)
  run_delete k none (some x) = on_txn badger x (badger.delete k)
  run_delete k none none = lift panic

  -- Delete logs the change before it is made.
  unfoldable pub delete : Str → Exec (BadgerTx badger) (Unit {0})
  delete k t = run_delete k t.batch t.txn (log badger (del_change badger k) t)

  abbrev pub ensure_txn : Bool → Option badger.Txn → badger.Txn
  ensure_txn read_only none = badger.new_transaction (not read_only)
  ensure_txn read_only (some x) = x

  unfoldable pub get : Str → Exec (BadgerTx badger) (Option Str)
  get k t = on_txn badger (ensure_txn t.read_only t.txn) (badger.get k) t

  abbrev cancelled : Option badger.Batch → Option badger.Batch
  cancelled none = none
  cancelled (some b) = some (badger.cancel b)

  abbrev discarded : Option badger.Txn → Option badger.Txn
  discarded none = none
  discarded (some x) = some (badger.discard x)

  unfoldable pub rollback : Exec (BadgerTx badger) (Unit {0})
  rollback t = (ok tt, record t { batch = cancelled t.batch; txn = discarded t.txn; entries = [] })

  abbrev pub run_commit :
      Option badger.Batch → Option badger.Txn → Exec (BadgerTx badger) (Unit {0})
  run_commit (some b) x = on_batch badger b badger.flush
  run_commit none (some x) = on_txn badger x badger.commit
  run_commit none none = pure tt

  abbrev pub publish : BadgerTx badger → BadgerTx badger
  publish t = record t { published = t.published ++ t.entries }

  unfoldable pub commit : Exec (BadgerTx badger) (Unit {0})
  commit t = (run_commit t.batch t.txn >> modify publish) t

  unfoldable pub close : BadgerTx badger → BadgerTx badger
  close t = record t { batch = cancelled t.batch; txn = discarded t.txn }

  -- NewTx of the database, whose machine has been given `published`.
  unfoldable pub new_tx : Bool → Bool → List Change → BadgerTx badger
  new_tx is_batch read_only published = record {
    read_only = read_only;
    batch = if is_batch then some badger.new_batch else none;
    txn = if is_batch then none else some (badger.new_transaction (not read_only));
    entries = [];
    published = published;
  }

  -- `Tx` after its function has run: the error is returned after a rollback.
  unfoldable pub finish_tx :
      Outcome (Unit {0}) × BadgerTx badger → Outcome (Unit {0}) × BadgerTx badger
  finish_tx (ok x, t) = commit t
  finish_tx (fail e, t) = (fail e, (rollback t).1)
  finish_tx (panic, t) = (panic, t)

  unfoldable pub with_tx :
      Bool
      → Bool
      → List Change
      → Exec (BadgerTx badger) (Unit {0})
      → Outcome (Unit {0}) × BadgerTx badger
  with_tx is_batch read_only published fn = finish_tx (fn (new_tx is_batch read_only published))
