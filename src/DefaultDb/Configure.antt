-- ===== src/DefaultDb/Configure.antt =====
-- How a database takes on the schema of a collection: indexes that are removed and filled (db_util.go), and
-- configureCollection and dropCollection of db.go. The iteration within the transaction that fills an
-- index is a read-only transaction of its own.
pub mod Saved
pub mod Indexes
use gokvkit.Prelude.{
  Str, str, Bool, true, false, List, [], ◌∷◌, is_empty, Option, none, some, if◌then◌else◌,
}
use gokvkit.Errors.{new, validation, internal}
use gokvkit.Errors.Outcome.{Outcome, ok, fail, panic}
use gokvkit.Errors.Exec.{Exec, pure, raise, lift, gets, ◌>>=◌, ◌>>◌}
use gokvkit.Model.Schema.{Index}
use gokvkit.Indexing.{index_prefix, collection_prefix}
use gokvkit.Loading.{Loaded}
use gokvkit.Configuration.{IndexDiff, get_index_diff}
use gokvkit.Optimizer.{Explain}
use gokvkit.Transaction.{Txn, Database, Context, get_primary_key}
use gokvkit.Transaction.Queries.{for_each}
use gokvkit.Transaction.Cascade.{tx_delete}
use gokvkit.Transaction.Persist.{run_persist}
use gokvkit.Transaction.Commands.{tx_set}
use gokvkit.DefaultDb.{
  Env, DbState, on_db, db_wrapping, run_tx, database, db_for_each, while_locked, get_schema,
  persist_collection_config, delete_collection_config, get_persisted_collection,
}

module _ (E : Env) where
  open E use {libs, tools, db, dagger, global_scripts}
  open libs.json use {Doc}

  -- A nil schema panics.
  abbrev pub with_schema :
      Option (Loaded tools)
      → (Loaded tools → Exec (DbState E) (Unit {0}))
      → Exec (DbState E) (Unit {0})
  with_schema none f = lift panic
  with_schema (some c) f = f c

  unfoldable pub remove_index : Context → Str → Index → Exec (DbState E) (Unit {0})
  remove_index ctx collection i = do
    found ← gets (get_schema E collection)
    with_schema found λ c.
        db_wrapping E 0 (str "indexing: failed to remove index")
          (on_db E (db.drop_prefix (index_prefix ctx.namespace c.schema.collection i.name)))

  -- What a document of the inner iteration does to the outer transaction; what an error leaves there
  -- is rolled back.
  set_in : Txn libs → Outcome Doc × Txn libs → Outcome (Txn libs × Bool) × Txn libs
  set_in inner (ok d, outer) = (ok (outer, true), inner)
  set_in inner (fail e, outer) = (fail e, inner)
  set_in inner (panic, outer) = (panic, inner)

  set_found : Database libs → Context → Str → Txn libs → Doc → Exec (Txn libs) (Txn libs × Bool)
  unfolding set_in
  set_found d ctx collection outer doc inner =
      set_in inner
        (tx_set libs (run_persist libs global_scripts E.depth d) d ctx collection doc outer)

  all_set : Txn libs → Outcome (Txn libs × Explain) × DbState E → Outcome (Unit {0}) × Txn libs
  all_set outer (ok (outer', e), s) = (ok tt, outer')
  all_set outer (fail e, s) = (fail e, outer)
  all_set outer (panic, s) = (panic, outer)

  -- Every document is set once more, in one transaction.
  unfoldable pub reindex : Context → Str → Exec (DbState E) (Unit {0})
  unfolding set_found all_set
  reindex ctx collection s =
      run_tx E false false
        (λ outer.
          all_set outer
            (db_for_each E ctx collection [] [] (set_found (database E s) ctx collection) outer s))
        s

  unfoldable pub add_index : Context → Str → Index → Exec (DbState E) (Unit {0})
  unfolding reindex
  add_index ctx collection i =
      if is_empty i.name then raise (new validation (str "empty index name")) else do
        found ← gets (get_schema E collection)
        with_schema found (persist_collection_config E)
        if i.primary
            then pure tt
            else db_wrapping E 0 (str "indexing: failed to add index")
                (reindex (record ctx { is_indexing = true; is_internal = true }) collection)

  -- A loop that ends at the first error
  unfoldable pub each :
      {A : Type 0} → (A → Exec (DbState E) (Unit {0})) → List A → Exec (DbState E) (Unit {0})
  each f [] = pure tt
  each f (a ∷ as_) = f a >> each f as_

  abbrev pub indexes_of : Option (Loaded tools) → List (Str × Index)
  indexes_of none = []
  indexes_of (some c) = c.indexing

  -- `existing, _ := ...`
  abbrev pub or_nil :
      Outcome (Loaded tools) × DbState E → Outcome (Option (Loaded tools)) × DbState E
  or_nil (ok c, s) = (ok (some c), s)
  or_nil (fail e, s) = (ok none, s)
  or_nil (panic, s) = (panic, s)

  unfoldable pub apply_diff : Context → Str → IndexDiff → Exec (DbState E) (Unit {0})
  unfolding each remove_index add_index
  apply_diff ctx collection diff = do
    each (λ i. remove_index ctx collection i >> add_index ctx collection i) diff.to_update
    each (remove_index ctx collection) diff.to_remove
    each (add_index ctx collection) diff.to_add

  unfoldable pub configure_locked : Context → Loaded tools → Exec (DbState E) (Unit {0})
  unfolding apply_diff
  configure_locked ctx c = do
    persist_collection_config E c
    existing ← λ s. or_nil (get_persisted_collection E c.schema.collection s)
    apply_diff ctx c.schema.collection (get_index_diff c.indexing (indexes_of existing))
    persist_collection_config E c

  unfoldable pub configure_collection : Context → Loaded tools → Exec (DbState E) (Unit {0})
  unfolding configure_locked
  configure_collection ctx c =
      while_locked E c.schema.collection
        (configure_locked (record ctx { is_indexing = true; is_internal = true }) c)

  delete_found :
      Database libs → Context → Loaded tools → Unit {0} → Doc → Exec (Txn libs) (Unit {0} × Bool)
  delete_found d ctx c r doc =
      tx_delete libs (run_persist libs global_scripts E.depth d) d ctx c.schema.collection
        (get_primary_key libs c.schema doc)
      >> pure (tt, true)

  delete_all : Context → Loaded tools → Exec (DbState E) (Unit {0} × Explain)
  unfolding delete_found
  delete_all ctx c s =
      run_tx E true false
        (for_each libs global_scripts (database E s) ctx c.schema.collection [] []
          (delete_found (database E s) ctx c) tt)
        s

  unfoldable pub drop_collection : Context → Loaded tools → Exec (DbState E) (Unit {0})
  unfolding delete_all
  drop_collection ctx c = while_locked E c.schema.collection (do
    delete_all ctx c
    db_wrapping E internal (str "failed to remove collection")
        (on_db E (db.drop_prefix (collection_prefix ctx.namespace c.schema.collection)))
    db_wrapping E internal (str "failed to remove collection")
        (delete_collection_config E c.schema.collection))
