-- ===== src/Transaction/Persist/Indexes.antt =====
-- The triggers and the authorization of a command, and the entries of its indexes, within a frame that
-- allows to write.
use gokvkit.Prelude.{
  Str, str, true, not, ◌&&◌, List, [], ◌∷◌, ◌++◌, nat_eq, Option, none, some, lookup,
}
use gokvkit.Errors.{new, internal, forbidden, validation}
use gokvkit.Errors.Exec.{pure, lift, raise, gets, modify, ◌>>◌}
use gokvkit.Model.Value.{is_null}
use gokvkit.Model.Query.{Action, create, set, update, delete, query, configure, change_stream}
use gokvkit.Model.Schema.{CollectionSchema, Index, ForeignKey, Trigger}
use gokvkit.Document.{get}
use gokvkit.Vendor.Lo.{elem}
use gokvkit.Authorization.{authorize_command}
use gokvkit.Transaction.{
  Libs, Txn, Page, Database, Context, wrapping, on_store, on_vm, entry_key, entry_prefix, docs_key,
  remember, forget,
}
use gokvkit.Transaction.Frame.{
  Frame, Within, Within-pure, Within-lift, Within-raise, Within-on_vm, Within-scan, Within-bind,
  Within-wrapping, Within-if,
}
use gokvkit.Transaction.Scan.Reading.{QueriesWithin}
use gokvkit.Transaction.SecondaryIndex.{
  by_id, after_lookup, has_doc_id, first_field, check_reference, check_foreign_key, all_own,
  all_with_prefix, check_unique, delete_entry, set_entry, delete_old_entry, replace_entry,
  remove_entry, for_action, update_secondary_index,
}
use gokvkit.Transaction.Evaluate.{
  fires, no_query, request, run_triggers, check_authorized, evaluate,
}
use gokvkit.Transaction.Persist.Writing.{Writes, Within-on_store}

module _ (L : Libs) (F : Frame L) where
  open L use {json, js, kv, cast}
  open json use {Doc}

  module _ (gs : Str) where
    pub run_triggers-Within :
        (action : Action) (ts : List Trigger) → Within L F (run_triggers L gs action ts)
    unfolding run_triggers
    run_triggers-Within action [] = Within-pure L F tt
    run_triggers-Within action (t ∷ ts) =
        Within-if L F (fires action t.events)
          (on_vm L (js.run_string (gs ++ t.script)) >> run_triggers L gs action ts)
          (run_triggers L gs action ts)
          (Within-bind L F (on_vm L (js.run_string (gs ++ t.script))) _
            (Within-on_vm L F (js.run_string (gs ++ t.script))) λ _. run_triggers-Within action ts)
          (run_triggers-Within action ts)

    pub check_authorized-Within :
        (ctx : Context) (c : CollectionSchema) (action : Action)
        → Within L F (check_authorized L gs ctx c action)
    unfolding check_authorized
    check_authorized-Within ctx c action =
        Within-if L F ctx.is_internal (pure tt) _ (Within-pure L F tt) (
          Within-bind L F
            (on_vm L
              (authorize_command L.lo js L.marshal gs (request L gs ctx c no_query) c action))
            _
            (Within-on_vm L F
              (authorize_command L.lo js L.marshal gs (request L gs ctx c no_query) c action))
            λ pass.
              Within-if L F pass (pure tt) (raise (new forbidden (str "not authorized")))
                (Within-pure L F tt) (Within-raise L F _))

    pub evaluate-Within :
        (ctx : Context) (c : CollectionSchema) (action : Action) (d : Doc)
        → Within L F (evaluate L gs ctx c action d)
    unfolding evaluate
    evaluate-Within ctx c action d =
        Within-bind L F (on_vm L (js.set (str "ctx") (L.ctx_object ctx))) _
          (Within-on_vm L F (js.set (str "ctx") (L.ctx_object ctx)))
          λ _.
            Within-bind L F (on_vm L (js.set (str "doc") (L.doc_object d))) _
              (Within-on_vm L F (js.set (str "doc") (L.doc_object d)))
              λ _.
                Within-bind L F (on_vm L (js.set (str "meta") (L.meta_object ctx))) _
                  (Within-on_vm L F (js.set (str "meta") (L.meta_object ctx)))
                  λ _.
                    Within-bind L F (on_vm L (js.set (str "schema") (L.schema_object c))) _
                      (Within-on_vm L F (js.set (str "schema") (L.schema_object c)))
                      λ _.
                        Within-bind L F (run_triggers L gs action c.triggers) _
                          (run_triggers-Within action c.triggers)
                          λ _.
                            Within-bind L F (check_authorized L gs ctx c action) _
                              (check_authorized-Within ctx c action)
                              λ _. record { related = λ t. F.same t }

module _ (L : Libs) (F : Frame L) (W : Writes L F) (db : Database L)
    (queries : QueriesWithin L F db) (ctx : Context) where
  open L use {json, js, kv, cast}
  open json use {Doc}

  pub remember-Within : (k : Str) → Within L F (modify (remember L k))
  remember-Within k = record { related = λ t. W.noted t (k ∷ t.docs) }

  pub forget-Within : (k : Str) → Within L F (modify (forget L k))
  forget-Within k = record { related = λ t. W.noted t (forget L k t).docs }

  after_lookup-Within :
      (c : CollectionSchema) (id : Str) (p : Page L) → Within L F (after_lookup L c id p)
  unfolding after_lookup
  after_lookup-Within c id p =
      Within-if L F (nat_eq p.count 0)
        (raise (new validation (str "foreign key with value does not exist"))) _
        (Within-raise L F _)
        (Within-bind L F (modify (remember L (docs_key c.collection id))) _ (remember-Within _)
          λ _. Within-pure L F true)

  has_doc_id-Within : (c : CollectionSchema) (id : Str) → Within L F (has_doc_id L db ctx c id)
  unfolding has_doc_id
  has_doc_id-Within c id =
      Within-bind L F (gets (λ (t : Txn L). elem t.docs (docs_key c.collection id))) _
        (record { related = F.same })
        λ known. Within-if L F known (pure true) _ (Within-pure L F true) (
          Within-bind L F (wrapping L internal [] (db.query ctx c.collection (by_id c id))) _
            (Within-wrapping L F internal [] (db.query ctx c.collection (by_id c id))
              (queries ctx c.collection (by_id c id)))
            (after_lookup-Within c id))

  check_reference-Within :
      (o : Option CollectionSchema) (id : Str) → Within L F (check_reference L db ctx o id)
  unfolding check_reference
  check_reference-Within none id = Within-raise L F _
  check_reference-Within (some c) id =
      Within-bind L F (wrapping L internal [] (has_doc_id L db ctx c id)) _
        (Within-wrapping L F internal [] (has_doc_id L db ctx c id) (has_doc_id-Within c id))
        λ has.
          Within-if L F has (pure tt)
            (raise (new validation (str "foreign key with value does not exist")))
            (Within-pure L F tt) (Within-raise L F _)

  check_foreign_key-Within :
      (o : Option ForeignKey) (fields : List Str) (d : Doc)
      → Within L F (check_foreign_key L db ctx o fields d)
  unfolding check_foreign_key
  check_foreign_key-Within none fields d = Within-pure L F tt
  check_foreign_key-Within (some fk) fields d =
      Within-bind L F (lift (first_field L fields)) _ (Within-lift L F _) λ f.
        Within-if L F (is_null (get json d f)) (pure tt) _ (Within-pure L F tt) (
          check_reference-Within (lookup fk.collection db.collections)
            (cast.to_string (get json d f)))

  module _ (collection : Str) (i : Index) (id : Str) where
    check_unique-Within : (d : Doc) → Within L F (check_unique L ctx collection i id d)
    unfolding check_unique
    check_unique-Within d =
        Within-if L F (i.unique && not i.primary) _ (pure tt)
          (Within-bind L F
            (on_store L (kv.scan (all_with_prefix (entry_prefix L ctx collection i d)))) _
            (Within-scan L F _)
            λ entries.
              Within-if L F (all_own L id entries) (pure tt)
                (raise (new validation (str "duplicate value found for unique index")))
                (Within-pure L F tt) (Within-raise L F _))
          (Within-pure L F tt)

    delete_entry-Within : (d : Doc) → Within L F (delete_entry L ctx collection i id d)
    unfolding delete_entry
    delete_entry-Within d =
        Within-wrapping L F internal (str "failed to delete document index references")
          (on_store L (kv.delete (entry_key L ctx collection i d id))) (Within-on_store L F W _)

    set_entry-Within : (d : Doc) → Within L F (set_entry L ctx collection i id d)
    unfolding set_entry
    set_entry-Within d =
        Within-wrapping L F internal (str "failed to set document index references")
          (on_store L (kv.set (entry_key L ctx collection i d id) id)) (Within-on_store L F W _)

    delete_old_entry-Within :
        (o : Option Doc) → Within L F (delete_old_entry L ctx collection i id o)
    unfolding delete_old_entry
    delete_old_entry-Within none = Within-pure L F tt
    delete_old_entry-Within (some before) = delete_entry-Within before

    replace_entry-Within :
        (before : Option Doc) (d : Doc)
        → Within L F (replace_entry L db ctx collection i id before d)
    unfolding replace_entry
    replace_entry-Within before d = Within-bind L F _ _ (delete_old_entry-Within before) λ _.
        Within-bind L F _ _ (check_foreign_key-Within i.foreign_key i.fields d) λ _.
          Within-bind L F _ _ (check_unique-Within d) λ _.
            Within-bind L F _ _ (set_entry-Within d) λ _. remember-Within (docs_key collection id)

    remove_entry-Within :
        (before : Option Doc) → Within L F (remove_entry L ctx collection i id before)
    unfolding remove_entry
    remove_entry-Within none = Within-lift L F _
    remove_entry-Within (some before) =
        Within-bind L F _ _ (delete_entry-Within before) λ _. forget-Within (docs_key collection id)

    for_action-Within :
        (action : Action) (before : Option Doc) (d : Doc)
        → Within L F (for_action L action db ctx collection i id before d)
    unfolding for_action
    for_action-Within delete before d = remove_entry-Within before
    for_action-Within set before d = replace_entry-Within before d
    for_action-Within update before d = replace_entry-Within before d
    for_action-Within create before d = replace_entry-Within before d
    for_action-Within query before d = Within-pure L F tt
    for_action-Within configure before d = Within-pure L F tt
    for_action-Within change_stream before d = Within-pure L F tt

    pub update_secondary_index-Within :
        (action : Action) (before : Option Doc) (d : Doc)
        → Within L F (update_secondary_index L action db ctx collection i id before d)
    unfolding update_secondary_index
    update_secondary_index-Within action before d =
        Within-if L F i.primary (pure tt) _ (Within-pure L F tt) (for_action-Within action before d)
