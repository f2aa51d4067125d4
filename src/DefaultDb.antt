-- ===== src/DefaultDb.antt =====
-- defaultDB of db.go and db_util.go: its state, the transactions that its methods run, the locks of
-- collections, and the schemas that it keeps.
pub mod Configure
pub mod Plan
pub mod Streams
pub mod Samples
mod Tests
use gokvkit.Prelude.{
  ℕ, Str, str, Bool, true, false, not, ◌++◌, List, [], ◌∷◌, is_empty, Option, none, some, lookup,
  put, without, if◌then◌else◌,
}
use gokvkit.Errors.{new, internal, forbidden, wrap_error}
use gokvkit.Errors.Outcome.{Outcome, ok, fail, panic}
use gokvkit.Errors.Exec.{Exec, pure, raise, lift, modify, on_error, ◌>>=◌, ◌>>◌}
use gokvkit.Model.Query.{Query, Where, Join}
use gokvkit.Model.Schema.{CollectionSchema}
use gokvkit.Kv.Db.{KvDb}
use gokvkit.Loading.Parts.{SchemaTools}
use gokvkit.Loading.{Loaded, new_collection_schema, marshal_json}
use gokvkit.Configuration.References.{Dagger}
use gokvkit.Transaction.{Libs, Txn, Database, Context, Page}
use gokvkit.Optimizer.{Explain}
use gokvkit.Transaction.Scan.{get_document}
use gokvkit.Transaction.Queries.{run_query, for_each, with_select}
use gokvkit.Transaction.Commands.{db_tx}

-- What the methods of a database use, and the bounds on the depth of schemas, queries and commands.
pub record Env : Type 1 where
  pub libs : Libs
  pub tools : SchemaTools
  pub db : KvDb libs.kv
  pub dagger : Dagger (Loaded tools)
  -- the scripts that stand before every script
  pub global_scripts : Str
  -- a machine from the pool, and one that a transaction was put into
  pub vm : libs.js.Vm
  pub tx_vm : libs.kv.State → Outcome libs.js.Vm
  -- Equals of a collection schema
  pub equals : Loaded tools → Loaded tools → Bool
  pub schema_depth : ℕ
  pub depth : ℕ

abbrev pub config_prefix : Str
config_prefix = str "cache.internal.collections."

abbrev pub config_key : Str → Str
config_key collection = config_prefix ++ collection

abbrev pub lock_key : Str → Str
lock_key collection = str "cache.internal.locks." ++ collection

module _ (E : Env) where
  open E use {libs, tools, db, dagger}

  -- `graph` is that of collectionDag; `ids` counts the ids that were made.
  pub record DbState : Type 0 where
    pub store : db.State
    pub collections : List (Str × Loaded tools)
    pub graph : dagger.Graph
    pub ids : ℕ

  -- A call on the store
  abbrev pub on_db : {A : Type 0} → Exec db.State A → Exec DbState A
  on_db f s = let (o, store) = f s.store in (o, record s { store = store })

module _ {A : Type 0} (E : Env) where
  open E use {libs, tools, db, dagger}

  -- `errors.Wrap(err, code, ...)`
  abbrev pub db_wrapping : ℕ → Str → Exec (DbState E) A → Exec (DbState E) A
  db_wrapping code msg m = on_error (λ e. wrap_error libs.marshal e code msg) m

  -- A transaction of the state, after it has run
  left : DbState E → Outcome A × Txn libs → Outcome A × DbState E
  left s (o, t) = (o, record s { store = db.leave t.store s.store; ids = t.ids })

  run_in : Exec (Txn libs) A → libs.kv.State → Outcome libs.js.Vm → Exec (DbState E) A
  unfolding left
  run_in fn kv_tx (ok vm) s =
      left s (db_tx libs fn (record { store = kv_tx; vm = vm; docs = []; cdc = []; ids = s.ids }))
  run_in fn kv_tx (fail e) s = (fail e, s)
  run_in fn kv_tx panic s = (panic, s)

  -- NewTx and Tx
  unfoldable pub run_tx : Bool → Bool → Exec (Txn libs) A → Exec (DbState E) A
  unfolding run_in
  run_tx is_batch read_only fn =
      on_db E (db.new_tx is_batch read_only) >>= λ t. run_in fn t (E.tx_vm t)

module _ (E : Env) where
  open E use {libs, tools, db, dagger}
  open libs.json use {Doc}

  abbrev pub schemas : List (Str × Loaded tools) → List (Str × CollectionSchema)
  schemas [] = []
  schemas ((k, c) ∷ cs) = (k, c.schema) ∷ schemas cs

  -- What a transaction reads of the database
  abbrev pub database : DbState E → Database libs
  database s = record {
    collections = schemas s.collections;
    query = run_query libs E.global_scripts E.depth (schemas s.collections);
  }

  unfoldable pub db_get : Context → Str → Str → Exec (DbState E) Doc
  unfolding run_tx
  db_get ctx collection id s =
      run_tx E false true (get_document libs (database s) ctx collection id) s

  get_each : Database libs → Context → Str → List Str → Exec (Txn libs) (List Doc)
  get_each d ctx collection [] = pure []
  get_each d ctx collection (id ∷ ids) = do
    doc ← get_document libs d ctx collection id
    docs ← get_each d ctx collection ids
    pure (doc ∷ docs)

  unfoldable pub batch_get : Context → Str → List Str → Exec (DbState E) (List Doc)
  unfolding run_tx get_each
  batch_get ctx collection ids s = run_tx E false true (get_each (database s) ctx collection ids) s

  unfoldable pub db_query : Context → Str → Query → Exec (DbState E) (Page libs)
  unfolding run_tx
  db_query ctx collection q s =
      run_tx E false true ((database s).query ctx collection (with_select q)) s

  unfoldable pub db_for_each :
      {R : Type 0}
      → Context
      → Str
      → List Where
      → List Join
      → (R → Doc → Exec (Txn libs) (R × Bool))
      → R
      → Exec (DbState E) (R × Explain)
  unfolding run_tx
  db_for_each ctx collection wheres joins fn r s =
      run_tx E false true
        (for_each libs E.global_scripts (database s) ctx collection wheres joins fn r) s

  -- Whether the lock was obtained is for the caller to undo.
  unfoldable pub lock_collection : Str → Exec (DbState E) (Unit {0})
  lock_collection collection = do
    got ←
        db_wrapping E internal (str "failed to acquire lock on collection")
          (on_db E (db.try_lock (lock_key collection)))
    if not got then raise (new forbidden (str "collection is locked")) else pure tt

  unfoldable pub unlock_after : Str → {A : Type 0} → Outcome A × DbState E → Outcome A × DbState E
  unlock_after collection (o, s) = (o, record s { store = db.unlock (lock_key collection) s.store })

  -- A call between the lock and the deferred unlock
  unfoldable pub while_locked : Str → Exec (DbState E) (Unit {0}) → Exec (DbState E) (Unit {0})
  unfolding lock_collection unlock_after
  while_locked collection m = lock_collection collection >>= λ _ s. unlock_after collection (m s)

  -- A locker that cannot be made, or asked, counts as locked.
  is_held : Outcome Bool × DbState E → Outcome Bool × DbState E
  is_held (ok b, s) = (ok b, s)
  is_held (fail e, s) = (ok true, s)
  is_held (panic, s) = (panic, s)

  unfoldable pub collection_is_locked : Str → Exec (DbState E) Bool
  unfolding is_held
  collection_is_locked collection s = is_held (on_db E (db.is_locked (lock_key collection)) s)

  abbrev pub get_schema : Str → DbState E → Option (Loaded tools)
  get_schema collection s = lookup collection s.collections

  unfoldable pub known : Option (Loaded tools) → Bool
  known none = false
  known (some c) = not (is_empty c.schema.collection)

  unfoldable pub has_collection : Str → DbState E → Bool
  unfolding known
  has_collection collection s = known (get_schema collection s)

  keep_schema : Loaded tools → DbState E → DbState E
  keep_schema c s = record s { collections = put c.schema.collection c s.collections }

  unfoldable pub persist_collection_config : Loaded tools → Exec (DbState E) (Unit {0})
  unfolding keep_schema
  persist_collection_config c =
      on_db E (
        db.tx (Unit {0}) false
          (libs.kv.set (config_key c.schema.collection) (marshal_json tools c)))
      >> modify (keep_schema c)

  forget_schema : Str → DbState E → DbState E
  forget_schema collection s = record s { collections = without collection s.collections }

  unfoldable pub delete_collection_config : Str → Exec (DbState E) (Unit {0})
  unfolding forget_schema
  delete_collection_config collection =
      on_db E (db.tx (Unit {0}) false (libs.kv.delete (config_key collection)))
      >> modify (forget_schema collection)

  -- A missing key is no text.
  abbrev pub bytes_or_none : Option Str → Str
  bytes_or_none none = []
  bytes_or_none (some v) = v

  unfoldable pub read_config : Str → Exec libs.kv.State (Loaded tools)
  read_config collection = libs.kv.get (config_key collection) >>= λ v.
      lift (new_collection_schema tools E.schema_depth (bytes_or_none v))

  unfoldable pub get_persisted_collection : Str → Exec (DbState E) (Loaded tools)
  unfolding read_config
  get_persisted_collection collection = on_db E (db.tx (Loaded tools) true (read_config collection))

  and_more : Outcome (Loaded tools) → Outcome (List (Loaded tools)) → Outcome (List (Loaded tools))
  and_more (ok c) (ok cs) = ok (c ∷ cs)
  and_more (ok c) o = o
  and_more (fail e) o = fail e
  and_more panic o = panic

  -- Empty values are passed over.
  load_each : List (Str × Str) → Outcome (List (Loaded tools))
  unfolding and_more
  load_each [] = ok []
  load_each ((k, v) ∷ es) =
      let rest = load_each es in
      if is_empty v then rest else and_more (new_collection_schema tools E.schema_depth v) rest

  read_configs : Exec libs.kv.State (List (Loaded tools))
  unfolding load_each
  read_configs =
      libs.kv.scan
        (record { prefix = config_prefix; upper_bound = none; seek = none; reverse = false })
      >>= λ es. lift (load_each es)

  unfoldable pub get_persisted_collections : Exec (DbState E) (List (Loaded tools))
  unfolding read_configs
  get_persisted_collections = on_db E (db.tx (List (Loaded tools)) true read_configs)
