-- ===== src/Kv/Db.antt =====
-- The `DB` of kv/kv.go, for the code above it: transactions, locks, and the deletion of prefixes.
use gokvkit.Prelude.{◌≡◌, Str, Bool, false, ◌==◌, Option}
use gokvkit.Errors.Outcome.{Outcome, ok}
use gokvkit.Errors.Exec.{Exec}
use gokvkit.Kv.Interface.{KvTx, KvLaws}

pub record KvDb (kv : KvTx) : Type 1 where
  pub State : Type 0
  -- Tx, on a read-only or a writing transaction, with what its function leaves in a variable
  pub tx : (A : Type 0) → Bool → Exec kv.State A → Exec State A
  -- NewTx, for a batch or not and for reading only or not; and the store after a transaction's end
  pub new_tx : Bool → Bool → State → Outcome kv.State × State
  pub leave : kv.State → State → State
  pub drop_prefix : Str → Exec State (Unit {0})
  -- NewLocker, and TryLock, IsLocked and Unlock on it
  pub try_lock : Str → Exec State Bool
  pub is_locked : Str → Exec State Bool
  pub unlock : Str → State → State

-- A transaction that returns has seen the store, and its changes are then made; the own key of a lock
-- is all that locking changes.
pub record KvDbLaws (kv : KvTx) (laws : KvLaws kv) (db : KvDb kv) : Type 1 where
  pub view : db.State → Str → Option Str
  pub tx_ok :
      (A : Type 0) (read_only : Bool) (m : Exec kv.State A) (a : A) (s u : db.State)
      → db.tx A read_only m s ≡ (ok a, u)
      → (x : kv.State) × (y : kv.State) × (m x ≡ (ok a, y))
        × ((k : Str) → laws.view x k ≡ view s k)
        × ((k : Str) → view u k ≡ laws.view y k)
  pub try_lock-view :
      (k j : Str) (s : db.State) → (k == j) ≡ false → view (db.try_lock k s).1 j ≡ view s j
  pub unlock-view :
      (k j : Str) (s : db.State) → (k == j) ≡ false → view (db.unlock k s) j ≡ view s j
