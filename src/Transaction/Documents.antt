-- ===== src/Transaction/Documents.antt =====
-- createDocument, updateDocument, setDocument and deleteDocument of tx_util.go. Each returns the
-- command's document, which it has changed in place.
pub mod Saved
pub mod Written
mod Tests
use gokvkit.Prelude.{
  Str, str, Bool, true, false, ◌&&◌, List, [], ◌∷◌, is_empty, Option, none, some, if◌then◌else◌,
}
use gokvkit.Errors.{new, internal, forbidden, validation}
use gokvkit.Errors.Exec.{Exec, pure, raise, lift, ◌>>=◌, ◌>>◌}
use gokvkit.Model.Value.{Value, text, any_eq}
use gokvkit.Model.Schema.{CollectionSchema, SchemaProperty, ComputedField, primary_key}
use gokvkit.Document.{get, set_all}
use gokvkit.Transaction.{
  validate_document, Libs, Txn, Context, wrapping, on_store, on_vm, get_primary_key, document_key,
}

module _ (L : Libs) where
  open L use {json, js, kv, cast}
  open json use {Doc}

  abbrev pub put_document : Str → Doc → Exec (Txn L) (Unit {0})
  put_document key d = on_store L (kv.set key (json.raw d))

  -- `v.Compute != nil && v.Compute.Write`
  unfoldable pub write_computed : Str → Option ComputedField → Doc → Exec (Txn L) Doc
  write_computed p none d = pure d
  write_computed p (some c) d =
      if c.write
      then (do
        val ← wrapping L internal (str "failed to compute value") (on_vm L (js.run_string c.expr))
        wrapping L internal (str "failed to set computed property") (lift (json.set p val d)))
      else pure d

  -- `v.Default != nil && !command.Document.Exists(p)`
  unfoldable pub write_default : Str → Option Value → Doc → Exec (Txn L) Doc
  write_default p none d = pure d
  write_default p (some v) d =
      if json.exists d p
      then pure d
      else wrapping L internal (str "failed to set default property") (lift (json.set p v d))

  -- The bodies of the loops over the properties, for update, create and set.
  unfoldable pub update_property : Doc → Str × SchemaProperty → Doc → Exec (Txn L) Doc
  unfolding write_computed write_default
  update_property before (p, v) d = do
    d' ← write_computed p v.compute d
    d'' ← write_default p v.default_value d'
    if v.immutable
        then wrapping L internal (str "failed to set immutable property")
            (lift (json.set p (get json before p) d''))
        else pure d''

  unfoldable pub create_property : Str × SchemaProperty → Doc → Exec (Txn L) Doc
  unfolding write_computed write_default
  create_property (p, v) d = do
    d' ← write_computed p v.compute d
    write_default p v.default_value d'

  -- The last test of the loop in setDocument compares with the old document, if there is one.
  unfoldable pub restore_immutable : Option Doc → Str → Bool → Doc → Exec (Txn L) Doc
  restore_immutable none p immutable d = pure d
  restore_immutable (some before) p immutable d =
      if immutable
      then (do
        same ← lift (any_eq cast.float_eq (get json d p) (get json before p))
        if same
            then pure d
            else wrapping L internal (str "failed to set immutable property")
                (lift (json.set p (get json before p) d)))
      else pure d

  unfoldable pub set_property : Option Doc → Str × SchemaProperty → Doc → Exec (Txn L) Doc
  unfolding write_computed write_default restore_immutable
  set_property before (p, v) d = do
    d' ← write_computed p v.compute d
    d'' ← write_default p v.default_value d'
    restore_immutable before p v.immutable d''

  -- `for p, v := range c.PropertyPaths()`
  unfoldable pub each_property :
      (Str × SchemaProperty → Doc → Exec (Txn L) Doc)
      → List (Str × SchemaProperty)
      → Doc
      → Exec (Txn L) Doc
  each_property body [] d = pure d
  each_property body (p ∷ ps) d = do d' ← body p d; each_property body ps d'

  unfoldable pub update_document :
      Context → CollectionSchema → Str → Option Doc → Doc → Exec (Txn L) Doc
  unfolding each_property update_property
  update_document ctx c id none d =
      raise (new internal (str "tx: updateDocument - empty before value"))
  update_document ctx c id (some before) d =
      if c.immutable then raise (new forbidden (str "tx: collection is immutable")) else (do
        d' ← each_property (update_property before) c.property_paths d
        flattened ← lift (json.flatten (json.value d'))
        after ← lift (set_all json flattened before)
        lift (validate_document L c after)
        wrapping L internal (str "failed to batch set documents to primary index")
            (put_document (document_key L ctx c id) after)
        pure d')

  unfoldable pub delete_document : Context → CollectionSchema → Str → Exec (Txn L) (Unit {0})
  delete_document ctx c id =
      if c.immutable
      then raise (new forbidden (str "tx: collection is immutable"))
      else if c.prevent_deletes
      then raise (new forbidden (str "tx: collection prevents deletes"))
      else if is_empty id
      then raise (new validation (str "tx: delete command - empty document id"))
      else wrapping L 0 (str "failed to delete documents")
          (on_store L (kv.delete (document_key L ctx c id)))

  unfoldable pub set_primary_key : CollectionSchema → Str → Doc → Exec (Txn L) Doc
  set_primary_key c id d =
      wrapping L 0 (str "failed to set primary key") (lift (json.set (primary_key c) (text id) d))

  unfoldable pub create_document : Context → CollectionSchema → Doc → Exec (Txn L) Doc
  unfolding each_property create_property set_primary_key
  create_document ctx c d = do
    let id = get_primary_key L c d
    d' ← set_primary_key c id d
    d'' ← each_property create_property c.property_paths d'
    lift (validate_document L c d'')
    wrapping L internal (str "failed to batch set documents to primary index")
        (put_document (document_key L ctx c id) d'')
    pure d''

  unfoldable pub set_existing :
      Context → CollectionSchema → Str → Option Doc → Doc → Exec (Txn L) Doc
  unfolding each_property set_property
  set_existing ctx c id before d = do
    d' ← each_property (set_property before) c.property_paths d
    lift (validate_document L c d')
    wrapping L internal (str "failed to set documents to primary index")
        (put_document (document_key L ctx c id) d')
    pure d'

  abbrev pub is_some : Option Doc → Bool
  is_some none = false
  is_some (some d) = true

  unfoldable pub set_document :
      Context → CollectionSchema → Str → Option Doc → Doc → Exec (Txn L) Doc
  unfolding set_existing
  set_document ctx c id before d =
      if is_empty id
      then raise (new validation (str "tx: set command - empty document id"))
      else if c.immutable && is_some before
      then raise (new forbidden (str "tx: collection is immutable"))
      else set_existing ctx c id before d
