-- ===== src/Transaction/Persist/Writing.antt =====
-- The operations that write documents and index entries, within a frame that allows to change the
-- store, the known documents and the number of ids.
use gokvkit.Prelude.{
  ℕ, Str, str, Bool, ◌&&◌, List, [], ◌∷◌, is_empty, Option, none, some, if◌then◌else◌,
}
use gokvkit.Errors.{new, internal, forbidden, validation}
use gokvkit.Errors.Outcome.{Outcome}
use gokvkit.Errors.Exec.{Exec, pure, lift, raise, ◌>>=◌}
use gokvkit.Model.Value.{Value, text, any_eq}
use gokvkit.Model.Schema.{CollectionSchema, SchemaProperty, ComputedField, primary_key}
use gokvkit.Document.{get, set_all}
use gokvkit.Transaction.{
  Libs, Txn, Context, wrapping, on_store, on_vm, new_id, document_key, validate_document,
  get_primary_key,
}
use gokvkit.Transaction.Frame.{
  Frame, Within, Within-pure, Within-lift, Within-raise, Within-on_vm, Within-bind, Within-wrapping,
  Within-if,
}
use gokvkit.Transaction.Documents.{
  put_document, write_computed, write_default, update_property, create_property, restore_immutable,
  set_property, each_property, update_document, delete_document, set_primary_key, create_document,
  set_existing, set_document, is_some,
}

module _ (L : Libs) (F : Frame L) where
  pub record Writes : Type 0 where
    pub stored : (t : Txn L) (s : L.kv.State) → F.Rel t (record t { store = s })
    pub noted : (t : Txn L) (ks : List Str) → F.Rel t (record t { docs = ks })
    pub counted : (t : Txn L) (n : ℕ) → F.Rel t (record t { ids = n })

module _ (L : Libs) (F : Frame L) (W : Writes L F) where
  open L use {json, js, kv, cast}
  open json use {Doc}

  pub Within-on_store :
      {A : Type 0} (f : kv.State → Outcome A × kv.State) → Within L F (on_store L f)
  Within-on_store f = record { related = λ t. W.stored t (f t.store).1 }

  pub Within-new_id : Within L F (new_id L)
  Within-new_id = record { related = λ t. W.counted t _ }

  put_document-Within : (k : Str) (d : Doc) → Within L F (put_document L k d)
  put_document-Within k d = Within-on_store (kv.set k (json.raw d))

  put_wrapped-Within :
      (m k : Str) (d : Doc) → Within L F (wrapping L internal m (put_document L k d))
  put_wrapped-Within m k d =
      Within-wrapping L F internal m (put_document L k d) (put_document-Within k d)

  -- Setting a property, with the error wrapped
  set_wrapped-Within :
      (m p : Str) (v : Value) (d : Doc) → Within L F (wrapping L internal m (lift (json.set p v d)))
  set_wrapped-Within m p v d =
      Within-wrapping L F internal m (lift (json.set p v d)) (Within-lift L F _)

  write_computed-Within :
      (p : Str) (c : Option ComputedField) (d : Doc) → Within L F (write_computed L p c d)
  unfolding write_computed
  write_computed-Within p none d = Within-pure L F d
  write_computed-Within p (some c) d =
      Within-if L F c.write
        (wrapping L internal (str "failed to compute value") (on_vm L (js.run_string c.expr))
          >>= λ val.
              wrapping L internal (str "failed to set computed property") (lift (json.set p val d)))
        (pure d)
        (Within-bind L F
          (wrapping L internal (str "failed to compute value") (on_vm L (js.run_string c.expr))) _
          (Within-wrapping L F internal _ (on_vm L (js.run_string c.expr))
            (Within-on_vm L F (js.run_string c.expr)))
          (λ val. set_wrapped-Within (str "failed to set computed property") p val d))
        (Within-pure L F d)

  write_default-Within : (p : Str) (v : Option Value) (d : Doc) → Within L F (write_default L p v d)
  unfolding write_default
  write_default-Within p none d = Within-pure L F d
  write_default-Within p (some v) d =
      Within-if L F (json.exists d p) (pure d) _ (Within-pure L F d)
        (set_wrapped-Within (str "failed to set default property") p v d)

  update_property-Within :
      (before : Doc) (pv : Str × SchemaProperty) (d : Doc)
      → Within L F (update_property L before pv d)
  unfolding update_property
  update_property-Within before (p, v) d =
      Within-bind L F _ _ (write_computed-Within p v.compute d) λ d'.
        Within-bind L F _ _ (write_default-Within p v.default_value d') λ d''.
          Within-if L F v.immutable _ (pure d'')
            (set_wrapped-Within (str "failed to set immutable property") p (get json before p) d'')
            (Within-pure L F d'')

  create_property-Within :
      (pv : Str × SchemaProperty) (d : Doc) → Within L F (create_property L pv d)
  unfolding create_property
  create_property-Within (p, v) d =
      Within-bind L F _ _ (write_computed-Within p v.compute d)
        λ d'. write_default-Within p v.default_value d'

  restore_immutable-Within :
      (before : Option Doc) (p : Str) (b : Bool) (d : Doc)
      → Within L F (restore_immutable L before p b d)
  unfolding restore_immutable
  restore_immutable-Within none p b d = Within-pure L F d
  restore_immutable-Within (some before) p b d =
      Within-if L F b
        (lift (any_eq cast.float_eq (get json d p) (get json before p)) >>= λ same.
          if same
          then pure d
          else wrapping L internal (str "failed to set immutable property")
              (lift (json.set p (get json before p) d)))
        (pure d)
        (Within-bind L F (lift (any_eq cast.float_eq (get json d p) (get json before p))) _
          (Within-lift L F _)
          λ same.
            Within-if L F same (pure d) _ (Within-pure L F d)
              (set_wrapped-Within (str "failed to set immutable property") p (get json before p) d))
        (Within-pure L F d)

  set_property-Within :
      (before : Option Doc) (pv : Str × SchemaProperty) (d : Doc)
      → Within L F (set_property L before pv d)
  unfolding set_property
  set_property-Within before (p, v) d =
      Within-bind L F _ _ (write_computed-Within p v.compute d) λ d'.
        Within-bind L F _ _ (write_default-Within p v.default_value d')
          λ d''. restore_immutable-Within before p v.immutable d''

  each_property-Within :
      (body : Str × SchemaProperty → Doc → Exec (Txn L) Doc)
      → ((pv : Str × SchemaProperty) (d : Doc) → Within L F (body pv d))
      → (ps : List (Str × SchemaProperty)) (d : Doc) → Within L F (each_property L body ps d)
  unfolding each_property
  each_property-Within body h [] d = Within-pure L F d
  each_property-Within body h (p ∷ ps) d =
      Within-bind L F _ _ (h p d) (each_property-Within body h ps)

  -- The end of the three: the document is validated and saved.
  checked-Within :
      (c : CollectionSchema) (m k : Str) (d r : Doc)
      → Within L F (
          lift (validate_document L c d) >>= λ _.
          wrapping L internal m (put_document L k d) >>= λ _. pure r)
  checked-Within c m k d r =
      Within-bind L F (lift (validate_document L c d)) _ (Within-lift L F _)
        λ _. Within-bind L F _ _ (put_wrapped-Within m k d) λ _. Within-pure L F r

  pub update_document-Within :
      (ctx : Context) (c : CollectionSchema) (id : Str) (before : Option Doc) (d : Doc)
      → Within L F (update_document L ctx c id before d)
  unfolding update_document
  update_document-Within ctx c id none d = Within-raise L F _
  update_document-Within ctx c id (some before) d =
      Within-if L F c.immutable (raise (new forbidden (str "tx: collection is immutable"))) _
        (Within-raise L F _)
        (Within-bind L F (each_property L (update_property L before) c.property_paths d) _
          (each_property-Within (update_property L before) (update_property-Within before)
            c.property_paths d)
          λ d'.
            Within-bind L F (lift (json.flatten (json.value d'))) _ (Within-lift L F _) λ flattened.
              Within-bind L F (lift (set_all json flattened before)) _ (Within-lift L F _) λ after.
                checked-Within c (str "failed to batch set documents to primary index")
                  (document_key L ctx c id) after d')

  pub delete_document-Within :
      (ctx : Context) (c : CollectionSchema) (id : Str) → Within L F (delete_document L ctx c id)
  unfolding delete_document
  delete_document-Within ctx c id =
      Within-if L F c.immutable _ _
        (Within-raise L F (new forbidden (str "tx: collection is immutable")))
        (Within-if L F c.prevent_deletes _ _
          (Within-raise L F (new forbidden (str "tx: collection prevents deletes")))
          (Within-if L F (is_empty id) _ _
            (Within-raise L F (new validation (str "tx: delete command - empty document id")))
            (Within-wrapping L F 0 (str "failed to delete documents")
              (on_store L (kv.delete (document_key L ctx c id)))
              (Within-on_store (kv.delete (document_key L ctx c id))))))

  set_primary_key-Within :
      (c : CollectionSchema) (id : Str) (d : Doc) → Within L F (set_primary_key L c id d)
  unfolding set_primary_key
  set_primary_key-Within c id d =
      Within-wrapping L F 0 (str "failed to set primary key")
        (lift (json.set (primary_key c) (text id) d)) (Within-lift L F _)

  pub create_document-Within :
      (ctx : Context) (c : CollectionSchema) (d : Doc) → Within L F (create_document L ctx c d)
  unfolding create_document
  create_document-Within ctx c d =
      let id = get_primary_key L c d in
      Within-bind L F _ _ (set_primary_key-Within c id d) λ d'.
        Within-bind L F _ _
          (each_property-Within (create_property L) create_property-Within c.property_paths d')
          λ d''.
            checked-Within c (str "failed to batch set documents to primary index")
              (document_key L ctx c id) d'' d''

  pub set_document-Within :
      (ctx : Context) (c : CollectionSchema) (id : Str) (before : Option Doc) (d : Doc)
      → Within L F (set_document L ctx c id before d)
  unfolding set_document set_existing
  set_document-Within ctx c id before d =
      Within-if L F (is_empty id) _ _
        (Within-raise L F (new validation (str "tx: set command - empty document id")))
        (Within-if L F (c.immutable && is_some L before) _ _
          (Within-raise L F (new forbidden (str "tx: collection is immutable")))
          (Within-bind L F _ _
            (each_property-Within (set_property L before) (set_property-Within before)
              c.property_paths d)
            λ d'.
              checked-Within c (str "failed to set documents to primary index")
                (document_key L ctx c id) d' d'))
