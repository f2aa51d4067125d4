-- ===== src/Transaction/Persist/Log.antt =====
-- The change records of a transaction: a command that saves a document adds one.
use gokvkit.Prelude.{
  ◌≡◌, refl, sym, ap, ◌∙◌, Str, str, Bool, true, false, not, ◌&&◌, List, [], ◌∷◌, ◌==◌, Option,
  lookup,
}
use gokvkit.Errors.{foreign, new, internal, forbidden}
use gokvkit.Errors.Outcome.{Outcome}
use gokvkit.Errors.Exec.{Exec, pure, lift, raise, modify, ◌>>=◌}
use gokvkit.Model.Query.{Action, create, set, update, delete, query, configure, change_stream}
use gokvkit.Model.Schema.{CollectionSchema, Index}
use gokvkit.Transaction.{
  Libs, Txn, Database, Context, wrapping, attempt, get_primary_key, remember, docs_key,
}
use gokvkit.Transaction.Frame.{
  Frame, Within, Within-pure, Within-lift, Within-raise, Within-elim, Within-bind, Within-wrapping,
  Within-attempt, Within-if,
}
use gokvkit.Transaction.Scan.{get_document}
use gokvkit.Transaction.Scan.Reading.{QueriesWithin, get_document-Within}
use gokvkit.Transaction.Documents.{update_document, create_document, set_document}
use gokvkit.Transaction.SecondaryIndex.{update_secondary_index}
use gokvkit.Transaction.Cascade.{Command}
use gokvkit.Transaction.Persist.{
  cdc_collection, update_indexes, rebuild_indexes, apply_action, record_change, persist_into,
  persist_command,
}
use gokvkit.Transaction.Persist.Writing.{
  Writes, update_document-Within, create_document-Within, set_document-Within,
}
use gokvkit.Transaction.Persist.Indexes.{
  evaluate-Within, update_secondary_index-Within, remember-Within,
}

-- The actions that save a document
abbrev pub saves : Action → Bool
saves create = true
saves set = true
saves update = true
saves _ = false

module _ (L : Libs) (gs : Str) where
  open L use {json}
  open json use {Doc}

  -- The change records stay as they are.
  abbrev pub log_frame : Frame L
  log_frame = record {
    Rel = λ t u. u.cdc ≡ t.cdc;
    same = λ t. refl;
    and_then = λ t u v h i. i ∙ h;
    machine = λ t v. refl;
    scanned = λ t o. refl;
  }

  pub log_writes : Writes L log_frame
  log_writes = record { stored = λ t s. refl; noted = λ t ks. refl; counted = λ t n. refl }

  -- After an operation within the frame, the records are those before it.
  pub same_log :
      {A : Type 0} (m : Exec (Txn L) A) (t u : Txn L) (o : Outcome A)
      → Within L log_frame m
      → m t ≡ (o, u)
      → u.cdc ≡ t.cdc
  same_log m t u o w h = ap (λ (p : Outcome _ × Txn L). p.1.cdc) (sym h) ∙ w.related t

  module _ (persist : Context → Command L → Exec (Txn L) Doc) (db : Database L)
      (queries : QueriesWithin L log_frame db) (ctx : Context) where
    pub update_indexes-Within :
        (action : Action) (collection : Str) (is : List Index) (id : Str) (before : Option Doc)
        (d : Doc)
        → Within L log_frame (update_indexes L action db ctx collection is id before d)
    unfolding update_indexes
    update_indexes-Within action collection [] id before d = Within-pure L log_frame tt
    update_indexes-Within action collection (i ∷ is) id before d =
        Within-bind L log_frame
          (wrapping L 0 (str "failed to update secondary index")
            (update_secondary_index L action db ctx collection i id before d))
          _
          (Within-wrapping L log_frame 0 (str "failed to update secondary index")
            (update_secondary_index L action db ctx collection i id before d)
            (update_secondary_index-Within L log_frame log_writes db queries ctx collection i id
              action before d))
          λ _. update_indexes-Within action collection is id before d

    noted-Within :
        (k : Str) (m : Exec (Txn L) Doc)
        → Within L log_frame m
        → Within L log_frame (m >>= λ d. modify (remember L k) >>= λ _. pure d)
    noted-Within k m h = Within-bind L log_frame m _ h λ d.
        Within-bind L log_frame (modify (remember L k)) _
          (remember-Within L log_frame log_writes db queries ctx k) λ _. Within-pure L log_frame d

    pub apply_action-Within :
        (action : Action) (c : CollectionSchema) (id : Str) (before : Option Doc) (cmd : Command L)
        → saves action ≡ true
        → Within L log_frame (apply_action L persist db action ctx c id before cmd)
    unfolding apply_action
    apply_action-Within update c id before cmd h =
        Within-if L log_frame c.immutable _ _
          (Within-raise L log_frame (new forbidden (str "tx: collection is immutable")))
          (noted-Within (docs_key cmd.collection id)
            (update_document L ctx c id before cmd.document)
            (update_document-Within L log_frame log_writes ctx c id before cmd.document))
    apply_action-Within create c id before cmd h =
        noted-Within (docs_key cmd.collection id) (create_document L ctx c cmd.document)
          (create_document-Within L log_frame log_writes ctx c cmd.document)
    apply_action-Within set c id before cmd h =
        noted-Within (docs_key cmd.collection id) (set_document L ctx c id before cmd.document)
          (set_document-Within L log_frame log_writes ctx c id before cmd.document)
    apply_action-Within delete c id before cmd h = cc
    apply_action-Within query c id before cmd h = cc
    apply_action-Within configure c id before cmd h = cc
    apply_action-Within change_stream c id before cmd h = cc

    rebuild_indexes-Within :
        (action : Action) (collection : Str) (is : List Index) (id : Str) (before : Option Doc)
        (d : Doc)
        → Within L log_frame (rebuild_indexes L action db ctx collection is id before d)
    unfolding rebuild_indexes
    rebuild_indexes-Within action collection [] id before d = Within-pure L log_frame tt
    rebuild_indexes-Within action collection (i ∷ is) id before d =
        Within-if L log_frame i.primary _ _
          (rebuild_indexes-Within action collection is id before d)
          (Within-bind L log_frame
            (wrapping L internal []
              (update_secondary_index L action db ctx collection i id before d))
            _
            (Within-wrapping L log_frame internal []
              (update_secondary_index L action db ctx collection i id before d)
              (update_secondary_index-Within L log_frame log_writes db queries ctx collection i id
                action before d))
            λ _. rebuild_indexes-Within action collection is id before d)

    pub before-Within :
        (collection id : Str) → Within L log_frame (attempt L (get_document L db ctx collection id))
    before-Within collection id =
        Within-attempt L log_frame _ (get_document-Within L log_frame db queries ctx collection id)

    -- A change record that is itself saved adds no other.
    persist_into-Within :
        (c : CollectionSchema) (cmd : Command L)
        → saves cmd.action ≡ true
        → (cmd.collection == cdc_collection) ≡ true
        → Within L log_frame (persist_into L gs persist db ctx c cmd)
    unfolding persist_into record_change
    persist_into-Within c cmd s e =
        Within-bind L log_frame (lift (L.valid_schema c)) _ (Within-lift L log_frame _) λ _.
          Within-bind L log_frame _ _
            (before-Within cmd.collection (get_primary_key L c cmd.document))
            λ before.
              Within-if L log_frame ctx.is_indexing _ _
                (Within-bind L log_frame _ _
                  (rebuild_indexes-Within cmd.action cmd.collection c.indexing _ before
                    cmd.document)
                  λ _. Within-pure L log_frame cmd.document)
                (Within-bind L log_frame _ _
                  (evaluate-Within L log_frame gs ctx c cmd.action cmd.document)
                  λ d.
                    Within-bind L log_frame _ _
                      (apply_action-Within cmd.action c _ before (record cmd { document = d }) s)
                      λ d'.
                        Within-bind L log_frame _ _
                          (update_indexes-Within cmd.action cmd.collection c.indexing _ before d')
                          λ _. rw e (
                            Within-bind L log_frame (pure tt) _ (Within-pure L log_frame tt)
                              λ _. Within-pure L log_frame d'))

    pub persist_command-Within :
        (cmd : Command L)
        → saves cmd.action ≡ true
        → (cmd.collection == cdc_collection) ≡ true
        → Within L log_frame (persist_command L gs persist db ctx cmd)
    unfolding persist_command
    persist_command-Within cmd s e =
        Within-elim L log_frame (lookup cmd.collection db.collections) _ _
          (Within-raise L log_frame _)
          λ c.
            Within-if L log_frame (c.read_only && not ctx.is_internal)
              (raise (foreign (str "tx: collection is read only"))) _ (Within-raise L log_frame _)
              (persist_into-Within c cmd s e)
