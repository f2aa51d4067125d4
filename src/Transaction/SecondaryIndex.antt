-- ===== src/Transaction/SecondaryIndex.antt =====
-- hasDocID and updateSecondaryIndex of tx_util.go.
pub mod Keeps
pub mod Entries
pub mod Replaced
mod Tests
use gokvkit.Prelude.{
  Str, str, Bool, true, false, not, ◌&&◌, ◌==◌, List, [], ◌∷◌, nat_eq, Option, none, some, lookup,
  if◌then◌else◌,
}
use gokvkit.Errors.{new, internal, validation}
use gokvkit.Errors.Outcome.{Outcome, ok, panic}
use gokvkit.Errors.Exec.{Exec, pure, raise, lift, modify, gets, ◌>>=◌, ◌>>◌}
use gokvkit.Model.Value.{text, is_null}
use gokvkit.Model.Query.{Action, Query, create, set, update, delete, eq}
use gokvkit.Model.Query
use gokvkit.Model.Schema.{CollectionSchema, Index, ForeignKey, primary_key}
use gokvkit.Kv.Interface.{IterOpts}
use gokvkit.Vendor.Lo.{elem}
use gokvkit.Indexing.{split, last_segment}
use gokvkit.Document.{get}
use gokvkit.Transaction.{
  Libs, Txn, Page, Database, Context, wrapping, on_store, entry_prefix, entry_key, docs_key,
  remember, forget,
}

-- The query of hasDocID
abbrev pub by_id : CollectionSchema → Str → Query
by_id c id = record {
  select = record { aggregate = Query.no_aggregate; as_name = []; field = str "*" } ∷ [];
  join = [];
  wheres = record { field = primary_key c; op = eq; value = text id } ∷ [];
  group_by = [];
  page = 0;
  limit = 1;
  order_by = [];
  having = [];
}

abbrev pub all_with_prefix : Str → IterOpts
all_with_prefix p = record { prefix = p; upper_bound = none; seek = none; reverse = false }

module _ (L : Libs) where
  open L use {json, kv, cast}
  open json use {Doc}

  unfoldable pub after_lookup : CollectionSchema → Str → Page L → Exec (Txn L) Bool
  after_lookup c id p =
      if nat_eq p.count 0
      then raise (new validation (str "foreign key with value does not exist"))
      else modify (remember L (docs_key c.collection id)) >> pure true

  unfoldable pub has_doc_id : Database L → Context → CollectionSchema → Str → Exec (Txn L) Bool
  unfolding after_lookup
  has_doc_id db ctx c id = do
    known ← gets (λ t. elem t.docs (docs_key c.collection id))
    if known then pure true else do
      p ← wrapping L internal [] (db.query ctx c.collection (by_id c id))
      after_lookup c id p

  -- `idx.Fields[0]` panics on an index without fields.
  unfoldable pub first_field : List Str → Outcome Str
  first_field [] = panic
  first_field (f ∷ fs) = ok f

  unfoldable pub check_reference :
      Database L → Context → Option CollectionSchema → Str → Exec (Txn L) (Unit {0})
  unfolding has_doc_id
  check_reference db ctx none id =
      raise (new validation (str "foreign_key collection does not exist"))
  check_reference db ctx (some c) id = do
    has ← wrapping L internal [] (has_doc_id db ctx c id)
    if has then pure tt else raise (new validation (str "foreign key with value does not exist"))

  unfoldable pub check_foreign_key :
      Database L → Context → Option ForeignKey → List Str → Doc → Exec (Txn L) (Unit {0})
  unfolding first_field check_reference
  check_foreign_key db ctx none fields d = pure tt
  check_foreign_key db ctx (some fk) fields d = do
    f ← lift (first_field fields)
    if is_null (get json d f)
        then pure tt
        else check_reference db ctx (lookup fk.collection db.collections)
            (cast.to_string (get json d f))

  -- The loop over the entries with the document's values: whether all are the document's own.
  unfoldable pub all_own : Str → List (Str × Str) → Bool
  all_own id [] = true
  all_own id ((k, v) ∷ es) = (last_segment (split k) == id) && all_own id es

  unfoldable pub check_unique : Context → Str → Index → Str → Doc → Exec (Txn L) (Unit {0})
  unfolding all_own
  check_unique ctx collection i id d =
      if i.unique && not i.primary
      then (do
        entries ← on_store L (kv.scan (all_with_prefix (entry_prefix L ctx collection i d)))
        if all_own id entries
            then pure tt
            else raise (new validation (str "duplicate value found for unique index")))
      else pure tt

  unfoldable pub delete_entry : Context → Str → Index → Str → Doc → Exec (Txn L) (Unit {0})
  delete_entry ctx collection i id before =
      wrapping L internal (str "failed to delete document index references")
        (on_store L (kv.delete (entry_key L ctx collection i before id)))

  unfoldable pub set_entry : Context → Str → Index → Str → Doc → Exec (Txn L) (Unit {0})
  set_entry ctx collection i id d =
      wrapping L internal (str "failed to set document index references")
        (on_store L (kv.set (entry_key L ctx collection i d id) id))

  -- The entry of the old document goes, if there was one.
  unfoldable pub delete_old_entry :
      Context → Str → Index → Str → Option Doc → Exec (Txn L) (Unit {0})
  unfolding delete_entry
  delete_old_entry ctx collection i id none = pure tt
  delete_old_entry ctx collection i id (some before) = delete_entry ctx collection i id before

  unfoldable pub replace_entry :
      Database L → Context → Str → Index → Str → Option Doc → Doc → Exec (Txn L) (Unit {0})
  replace_entry db ctx collection i id before d = do
    delete_old_entry ctx collection i id before
    check_foreign_key db ctx i.foreign_key i.fields d
    check_unique ctx collection i id d
    set_entry ctx collection i id d
    modify (remember L (docs_key collection id))

  -- `before.Value()` panics when there was no old document.
  unfoldable pub remove_entry : Context → Str → Index → Str → Option Doc → Exec (Txn L) (Unit {0})
  unfolding delete_entry
  remove_entry ctx collection i id none = lift panic
  remove_entry ctx collection i id (some before) = do
    delete_entry ctx collection i id before
    modify (forget L (docs_key collection id))

  unfoldable pub for_action :
      Action → Database L → Context → Str → Index → Str → Option Doc → Doc → Exec (Txn L) (Unit {0})
  for_action delete db ctx collection i id before d = remove_entry ctx collection i id before
  for_action set db ctx collection i id before d = replace_entry db ctx collection i id before d
  for_action update db ctx collection i id before d = replace_entry db ctx collection i id before d
  for_action create db ctx collection i id before d = replace_entry db ctx collection i id before d
  for_action _ db ctx collection i id before d = pure tt

  unfoldable pub update_secondary_index :
      Action → Database L → Context → Str → Index → Str → Option Doc → Doc → Exec (Txn L) (Unit {0})
  update_secondary_index action db ctx collection i id before d =
      if i.primary then pure tt else for_action action db ctx collection i id before d
