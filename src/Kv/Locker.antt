-- ===== src/Kv/Locker.antt =====
-- kv/badger/locker.go: a lock that is a key with a lease. A transaction of the store is the function
-- that the code gives to `Tx`; times are counted from Go's zero time.
pub mod Effects
pub mod Exclusion
mod Tests
use gokvkit.Prelude.{
  ℕ, ◌-◌, ◌*◌, ltb, Str, str, Bool, true, false, not, ◌&&◌, ◌==◌, [], Option, none, some, ◌≡◌,
  if◌then◌else◌,
}
use gokvkit.Errors.{foreign}
use gokvkit.Errors.Exec.{Exec, pure, raise, ◌>>=◌, ◌>>◌}
use gokvkit.Kv.Interface.{KvTx}

pub record LockMeta : Type 0 where
  pub id : Str
  pub start : ℕ
  pub last_update : ℕ
  pub key : Str

-- json.Marshal and json.Unmarshal of a lockMeta
pub record LockJson : Type 0 where
  pub marshal : LockMeta → Str
  pub unmarshal : Str → Option LockMeta
  pub unmarshal-marshal : (m : LockMeta) → unmarshal (marshal m) ≡ some m

-- The fields of badgerLock that stay the same, with the start of the last attempt.
pub record Lock : Type 0 where
  pub id : Str
  pub key : Str
  pub lease_interval : ℕ
  pub start : ℕ

abbrev pub no_meta : LockMeta
no_meta = record { id = []; start = 0; last_update = 0; key = [] }

module _ (kv : KvTx) (json : LockJson) where
  -- `json.Unmarshal(val, &current)`, whose error is passed over; a missing key reads as no bytes.
  unfoldable pub current : Option Str → LockMeta
  current none = no_meta
  current (some v) = elim (json.unmarshal v) [ none ↦ no_meta | some m ↦ m ]

  -- The lease has run out, and it is another's.
  unfoldable pub is_free : Lock → ℕ → LockMeta → Bool
  is_free b now m = ltb (4 * b.lease_interval) (now - m.last_update) && not (m.id == b.id)

  unfoldable pub set_lock : Lock → ℕ → Exec kv.State (Unit {0})
  set_lock b now =
      kv.set b.key
        (json.marshal (record { id = b.id; start = b.start; last_update = now; key = b.key }))

  unfoldable pub del_lock : Lock → Exec kv.State (Unit {0})
  del_lock b = kv.delete b.key

  unfoldable pub is_locked : Lock → ℕ → Exec kv.State Bool
  unfolding current is_free
  is_locked b now = do val ← kv.get b.key; pure (not (is_free b now (current val)))

  unfoldable pub try_lock : Lock → ℕ → Exec kv.State Bool
  unfolding current is_free set_lock
  try_lock b now = do
    val ← kv.get b.key
    if is_free b now (current val)
        then set_lock (record b { start = now }) now >> pure true
        else pure false

  unfoldable pub read_meta : Option Str → Exec kv.State LockMeta
  read_meta none = raise (foreign (str "unexpected end of JSON input"))
  read_meta (some v) = elim (json.unmarshal v) [
    | none ↦ raise (foreign (str "invalid character"))
    | some m ↦ pure m
  ]

  unfoldable pub get_lock : Lock → Exec kv.State LockMeta
  unfolding read_meta
  get_lock b = kv.get b.key >>= read_meta

  -- The two cases of keepalive's `select`.
  unfoldable pub renew : Lock → ℕ → Exec kv.State (Unit {0})
  unfolding get_lock set_lock
  renew b now = do m ← get_lock b; if m.id == b.id then set_lock b now else pure tt

  unfoldable pub release : Lock → Exec kv.State (Unit {0})
  unfolding get_lock del_lock
  release b = do m ← get_lock b; if m.id == b.id then del_lock b else pure tt
