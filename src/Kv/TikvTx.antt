-- ===== src/Kv/TikvTx.antt =====
-- kv/tikv/tx.go and iter.go, and the `Tx` and `NewTx` of kv/tikv/tikv.go: a transaction over TiKV with a
-- cache in Redis that all transactions share.
pub mod Cache
pub mod Calls
pub mod Coherent
mod Tests
use gokvkit.Prelude.{
  Str, str, Bool, true, not, ◌&&◌, List, [], ◌∷◌, ◌++◌, is_empty, has_prefix, Option, none, some,
  put, if◌then◌else◌,
}
use gokvkit.Errors.{GoError, foreign}
use gokvkit.Errors.Outcome.{Outcome, ok, fail, panic}
use gokvkit.Errors.Exec.{Exec, pure, lift, gets, modify, ◌>>=◌, ◌>>◌}
use gokvkit.Kv.Interface.{IterOpts}
use gokvkit.Kv.NextPrefix.{next_prefix, bytes_lt}
use gokvkit.Kv.BadgerTx.{TxOp, set_op, del_op, Change}

-- github.com/tikv/client-go and github.com/go-redis: a transaction and the cache, each changed by the
-- calls on it.
pub record Tikv : Type 1 where
  pub Txn : Type 0
  pub Cache : Type 0
  pub begin : Outcome Txn
  pub is_valid : Txn → Bool
  -- a missing key is `none`: IsErrNotFound
  pub get : Str → Txn → Outcome (Option Str) × Txn
  pub set : Str → Str → Txn → Outcome (Unit {0}) × Txn
  pub delete : Str → Txn → Outcome (Unit {0}) × Txn
  pub commit : Txn → Outcome (Unit {0}) × Txn
  pub rollback : Txn → Outcome (Unit {0}) × Txn
  -- Iter and IterReverse, read to their end
  pub iter : Str → Str → Txn → Outcome (List (Str × Str)) × Txn
  pub iter_reverse : Str → Txn → Outcome (List (Str × Str)) × Txn
  -- Get, where an error gives no text, Del and Publish, whose errors are passed over, and MSet
  pub cached : Str → Cache → Str
  pub uncache : Str → Cache → Cache
  pub publish : Str → Str → Cache → Cache
  pub cache_all : List (Str × Str) → Cache → Outcome (Unit {0}) × Cache
  -- json.Marshal of a change
  pub marshal : Change → Outcome Str

-- What the cache is to hold for a change: no text for a deletion
abbrev pub cached_value : TxOp → Str → Str
cached_value set_op v = v
cached_value del_op v = []

module _ (tikv : Tikv) where
  pub record TikvTx : Type 0 where
    pub read_only : Bool
    pub txn : tikv.Txn
    pub cache : tikv.Cache
    pub entries : List Change

module _ {A : Type 0} (tikv : Tikv) where
  abbrev pub on_txn : (tikv.Txn → Outcome A × tikv.Txn) → Exec (TikvTx tikv) A
  on_txn f t = let (o, x) = f t.txn in (o, record t { txn = x })

  abbrev pub on_cache : (tikv.Cache → Outcome A × tikv.Cache) → Exec (TikvTx tikv) A
  on_cache f t = let (o, c) = f t.cache in (o, record t { cache = c })

module _ (tikv : Tikv) where
  -- The cache is asked first.
  unfoldable pub get : Str → Exec (TikvTx tikv) (Option Str)
  get k t =
      let v = tikv.cached k t.cache in
      if not (is_empty v) then (ok (some v), t) else on_txn tikv (tikv.get k) t

  abbrev pub writable : Exec (TikvTx tikv) (Unit {0})
  writable t =
      if t.read_only
      then (fail (foreign (str "writes forbidden in read-only transaction")), t)
      else (ok tt, t)

  abbrev pub log : Change → TikvTx tikv → TikvTx tikv
  log c t = record t { entries = t.entries ++ c ∷ [] }

  abbrev pub drop_cached : Str → TikvTx tikv → TikvTx tikv
  drop_cached k t = record t { cache = tikv.uncache k t.cache }

  unfoldable pub set : Str → Str → Exec (TikvTx tikv) (Unit {0})
  set k v = do
    writable
    on_txn tikv (tikv.set k v)
    modify (log (record { operation = set_op; key = k; value = v }))

  unfoldable pub delete : Str → Exec (TikvTx tikv) (Unit {0})
  delete k = do
    writable
    on_txn tikv (tikv.delete k)
    modify (drop_cached k)
    modify (log (record { operation = del_op; key = k; value = [] }))

  abbrev pub forget_entries : TikvTx tikv → TikvTx tikv
  forget_entries t = record t { entries = [] }

  unfoldable pub rollback : Exec (TikvTx tikv) (Unit {0})
  rollback = modify forget_entries >> on_txn tikv tikv.rollback

  unfoldable pub close : TikvTx tikv → TikvTx tikv
  close t = forget_entries t

  abbrev pub published : Str → Str → TikvTx tikv → TikvTx tikv
  published k bits t = record t { cache = tikv.publish k bits t.cache }

  -- The loop over the changes, which publishes each and collects what to cache
  unfoldable pub publish_all :
      List Change → List (Str × Str) → Exec (TikvTx tikv) (List (Str × Str))
  publish_all [] m = pure m
  publish_all (c ∷ cs) m = do
    bits ← lift (tikv.marshal c)
    modify (published c.key bits)
    publish_all cs (put c.key (cached_value c.operation c.value) m)

  unfoldable pub commit : Exec (TikvTx tikv) (Unit {0})
  unfolding publish_all
  commit = do
    on_txn tikv tikv.commit
    changes ← gets (λ t. t.entries)
    to_set ← publish_all changes []
    on_cache tikv (tikv.cache_all to_set)
    modify forget_entries

  -- NewTx, over the shared cache
  unfoldable pub new_tx : Bool → tikv.Cache → Outcome tikv.Txn → Outcome (TikvTx tikv)
  new_tx read_only cache (ok x) =
      if not (tikv.is_valid x)
      then fail (foreign (str "invalid transaction"))
      else ok (record { read_only = read_only; txn = x; cache = cache; entries = [] })
  new_tx read_only cache (fail e) = fail e
  new_tx read_only cache panic = panic

  unfoldable pub after_rollback :
      GoError → Outcome (Unit {0}) × TikvTx tikv → Outcome (Unit {0}) × TikvTx tikv
  after_rollback e (ok x, t) = (fail e, t)
  after_rollback e (fail r, t) = (fail (foreign (str "failed to rollback transaction")), t)
  after_rollback e (panic, t) = (panic, t)

  -- `Tx` after its function has run
  unfoldable pub finish_tx : Outcome (Unit {0}) × TikvTx tikv → Outcome (Unit {0}) × TikvTx tikv
  unfolding after_rollback
  finish_tx (ok x, t) = commit t
  finish_tx (fail e, t) = after_rollback e (rollback t)
  finish_tx (panic, t) = (panic, t)

  unfoldable pub run_started :
      Exec (TikvTx tikv) (Unit {0})
      → tikv.Cache
      → Outcome (TikvTx tikv)
      → Outcome (Unit {0}) × tikv.Cache
  run_started fn cache (ok t) = let (o, u) = finish_tx (fn t) in (o, u.cache)
  run_started fn cache (fail e) = (fail e, cache)
  run_started fn cache panic = (panic, cache)

  -- `Tx`, and what it makes of the cache
  unfoldable pub with_tx :
      Bool → tikv.Cache → Exec (TikvTx tikv) (Unit {0}) → Outcome (Unit {0}) × tikv.Cache
  unfolding run_started new_tx finish_tx
  with_tx read_only cache fn = run_started fn cache (new_tx read_only cache tikv.begin)

  -- The bound after which a prefix ends; without a bound it is that of no bytes.
  abbrev pub bound : Option Str → Str
  bound none = next_prefix []
  bound (some b) = next_prefix b

  unfoldable pub new_iterator : IterOpts → Exec (TikvTx tikv) (List (Str × Str))
  new_iterator o =
      if o.reverse
      then elim o.seek [
        | none ↦ on_txn tikv (tikv.iter_reverse (bound o.upper_bound))
        | some s ↦ on_txn tikv (tikv.iter_reverse (next_prefix s))
      ]
      else on_txn tikv (tikv.iter o.prefix (bound o.upper_bound))

  abbrev pub within : Option Str → Str → Bool
  within none k = true
  within (some b) k = not (bytes_lt b k)

  -- The entries that are visited before `Valid` fails
  unfoldable pub visited : IterOpts → List (Str × Str) → List (Str × Str)
  visited o [] = []
  visited o ((k, v) ∷ es) =
      let rest = visited o es in
      if has_prefix k o.prefix && within o.upper_bound k then (k, v) ∷ rest else []

  unfoldable pub scan : IterOpts → Exec (TikvTx tikv) (List (Str × Str))
  unfolding new_iterator visited
  scan o = do es ← new_iterator o; pure (visited o es)

-- DropPrefix, whose ranges have no end; DeleteRange is that of the client.
unfoldable pub drop_prefixes :
    {S : Type 0} → (Str → Str → Exec S (Unit {0})) → List Str → Exec S (Unit {0})
drop_prefixes delete_range [] = pure tt
drop_prefixes delete_range (p ∷ ps) = delete_range p [] >> drop_prefixes delete_range ps
