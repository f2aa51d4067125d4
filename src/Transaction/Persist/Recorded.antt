-- ===== src/Transaction/Persist/Recorded.antt =====
-- The change record that a command adds.
use gokvkit.Prelude.{
  ℕ, suc, ◌≡◌, refl, sym, ap, ◌∙◌, Str, str, true, false, not, ◌&&◌, List, [], ◌∷◌, ◌++◌, ◌==◌,
  ==_refl, Option, some, lookup,
}
use gokvkit.Errors.{internal, foreign}
use gokvkit.Errors.Outcome.{Outcome, ok}
use gokvkit.Errors.Exec.{Exec, lift, modify}
use gokvkit.Errors.Runs.{
  Runs, Runs-raise, Runs-if, Runs-each, Runs-result, Runs-elim, Runs-bind, Runs-mono,
}
use gokvkit.Model.Query.{create}
use gokvkit.Model.Schema.{CollectionSchema}
use gokvkit.Document.Ops.{diff}
use gokvkit.Transaction.{Libs, Txn, Database, Context, wrapping, attempt, new_id, get_primary_key}
use gokvkit.Transaction.Frame.{Within, Within-lift, Within-wrapping}
use gokvkit.Transaction.Scan.{get_document}
use gokvkit.Transaction.Queries.{run_query}
use gokvkit.Transaction.Scan.Reading.{QueriesWithin}
use gokvkit.Transaction.Queries.Reading.{run_query-Within}
use gokvkit.Transaction.Evaluate.{evaluate}
use gokvkit.Transaction.Cascade.{Command, new_document_from}
use gokvkit.Transaction.Persist.{
  cdc_collection, as_internal, stamp, update_indexes, apply_action, change_of, append_cdc,
  record_change, persist_into, persist_command, run_persist,
}
use gokvkit.Transaction.Persist.Writing.{Within-new_id}
use gokvkit.Transaction.Persist.Indexes.{evaluate-Within}
use gokvkit.Transaction.Persist.Log.{
  saves, log_frame, log_writes, same_log, update_indexes-Within, apply_action-Within, before-Within,
  persist_command-Within,
}

module _ (L : Libs) (gs : Str) (persist : Context → Command L → Exec (Txn L) L.json.Doc)
    (db : Database L) (ctx : Context) (queries : QueriesWithin L (log_frame L gs) db)
    (inner : (cmd : Command L)
      → saves cmd.action ≡ true
      → (cmd.collection == cdc_collection) ≡ true
      → Within L (log_frame L gs) (persist (as_internal ctx) cmd)) where
  open L use {json}
  open json use {Doc}

  -- What reading the document of a command finds, before anything else is done
  abbrev pub Before : CollectionSchema → Command L → Txn L → Option Doc → Type 0
  Before c cmd t before =
      (v : Txn L) × (attempt L
          (get_document L db ctx cmd.collection (get_primary_key L c cmd.document)) t
        ≡ (ok before, v))

  -- One record was added: that of the command, as a change of the document that was read.
  abbrev pub Recorded : CollectionSchema → Command L → Doc → Txn L → Txn L → Type 0
  Recorded c cmd d t u =
      (before : Option Doc) × Before c cmd t before
      × (id : Str) × (u.cdc
          ≡ t.cdc
            ++ change_of L persist db c
                (record cmd { document = d; timestamp = stamp ctx cmd.timestamp }) before id
              ∷ [])

  SameLog : {A : Type 0} → Txn L → A → Txn L → Type 0
  SameLog t a u = u.cdc ≡ t.cdc

  runs :
      {A : Type 0} (t : Txn L) (m : Exec (Txn L) A)
      → Within L (log_frame L gs) m
      → Runs t (SameLog t) m
  unfolding SameLog
  runs t m w = Runs-each _ t m λ a u e. same_log L gs m t u (ok a) w e

  Added : CollectionSchema → Command L → Option Doc → Txn L → Unit {0} → Txn L → Type 0
  Added c cmd before t _ u =
      (id : Str) × (u.cdc ≡ t.cdc ++ change_of L persist db c cmd before id ∷ [])

  appended :
      (c : CollectionSchema) (cmd : Command L) (before : Option Doc) (t : Txn L) (id : Str)
      (w : Txn L)
      → w.cdc ≡ t.cdc
      → Runs w
          (Added c cmd before t)
          (modify (append_cdc L persist db (change_of L persist db c cmd before id)))
  unfolding Added append_cdc
  appended c cmd before t id w h = record {
    ran = (id, ap (λ l. l ++ change_of L persist db c cmd before id ∷ []) h);
  }

  record_change-Recorded :
      (c : CollectionSchema) (cmd : Command L) (before : Option Doc) (t : Txn L)
      → (cmd.collection == cdc_collection) ≡ false
      → Runs t (Added c cmd before t) (record_change L persist db ctx c cmd before)
  unfolding record_change append_cdc SameLog Added
  record_change-Recorded c cmd before t e = rw e (
      Runs-bind (Added c cmd before t) (SameLog t) t (new_id L) _
        (runs t (new_id L) (Within-new_id L (log_frame L gs) (log_writes L gs)))
        λ id u h.
          Runs-bind (Added c cmd before t) (SameLog u) u
            (wrapping L internal (str "failed to persist cdc") (
              lift
                (new_document_from json (L.marshal_cdc (change_of L persist db c cmd before id)))))
            _
            (runs u _ (
              Within-wrapping L (log_frame L gs) internal (str "failed to persist cdc")
                (lift
                  (new_document_from json (L.marshal_cdc (change_of L persist db c cmd before id))))
                (Within-lift L (log_frame L gs) _)))
            λ d v i.
              Runs-bind (Added c cmd before t) (SameLog v) v
                (wrapping L internal (str "failed to persist cdc") (
                  persist (as_internal ctx) (record {
                    collection = str "system_cdc";
                    action = create;
                    document = d;
                    timestamp = cmd.timestamp;
                  })))
                _
                (runs v _ (
                  Within-wrapping L (log_frame L gs) internal (str "failed to persist cdc")
                    (persist (as_internal ctx) (record {
                      collection = str "system_cdc";
                      action = create;
                      document = d;
                      timestamp = cmd.timestamp;
                    }))
                    (inner _ refl (==_refl (str "system_cdc")))))
                λ d' w j. appended c cmd before t id w (j ∙ i ∙ h))

  persist_into-Recorded :
      (c : CollectionSchema) (cmd : Command L) (t : Txn L)
      → saves cmd.action ≡ true
      → (cmd.collection == cdc_collection) ≡ false
      → ctx.is_indexing ≡ false
      → Runs t (λ d u. Recorded c cmd d t u) (persist_into L gs persist db ctx c cmd)
  unfolding persist_into SameLog Added
  persist_into-Recorded c cmd t s e n =
      let Q : Doc → Txn L → Type 0 = λ d u. Recorded c cmd d t u in
      let id = get_primary_key L c cmd.document in
      let read = attempt L (get_document L db ctx cmd.collection id) in
      let Kept : Unit {0} → Txn L → Type 0 = λ _ u. u ≡ t in
      let Found : Option Doc → Txn L → Type 0 =
        λ before u. (u.cdc ≡ t.cdc) × (read t ≡ (ok before, u)) in
      Runs-bind Q Kept t (lift (L.valid_schema c)) _
        (Runs-each Kept t (lift (L.valid_schema c))
          λ _ u q. ap (λ (p : Outcome (Unit {0}) × Txn L). p.1) (sym q))
        λ _ t1 h1.
          Runs-bind Q Found t1 read _
            (Runs-each Found t1 read λ before u q. (
              same_log L gs read t1 u (ok before)
                    (before-Within L gs persist db queries ctx cmd.collection id) q
                  ∙ ap (λ (x : Txn L). x.cdc) h1,
              ap read (sym h1) ∙ q,
            ))
            λ before t2 (h2, found).
              Runs-if Q t2 ctx.is_indexing _ _ (λ x. absurd (differ x))
                (λ _.
                  Runs-bind Q (SameLog t2) t2 (evaluate L gs ctx c cmd.action cmd.document) _
                    (runs t2 _
                      (evaluate-Within L (log_frame L gs) gs ctx c cmd.action cmd.document))
                    λ d t3 h3.
                      Runs-bind Q (SameLog t3) t3
                        (apply_action L persist db cmd.action ctx c id before
                          (record cmd { document = d }))
                        _
                        (runs t3 _ (
                          apply_action-Within L gs persist db queries ctx cmd.action c id before
                            (record cmd { document = d }) s))
                        λ d' t4 h4.
                          Runs-bind Q (SameLog t4) t4
                            (update_indexes L cmd.action db ctx cmd.collection c.indexing id before
                              d')
                            _
                            (runs t4 _ (
                              update_indexes-Within L gs persist db queries ctx cmd.action
                                cmd.collection c.indexing id before d'))
                            λ _ t5 h5.
                              Runs-bind Q
                                (Added c
                                  (record cmd {
                                    document = d';
                                    timestamp = stamp ctx cmd.timestamp;
                                  })
                                  before t5)
                                t5 _ _
                                (record_change-Recorded c
                                  (record cmd {
                                    document = d';
                                    timestamp = stamp ctx cmd.timestamp;
                                  })
                                  before t5 e)
                                λ _ t6 r. record {
                                  ran = (
                                    before,
                                    (t2, found),
                                    r.0,
                                    r.1
                                        ∙ ap
                                            (λ l.
                                              l
                                              ++ change_of L persist db c
                                                  (record cmd {
                                                    document = d';
                                                    timestamp = stamp ctx cmd.timestamp;
                                                  })
                                                  before r.0
                                                ∷ [])
                                            (h5 ∙ h4 ∙ h3 ∙ h2),
                                  );
                                })
    where
      differ : ctx.is_indexing ≡ true → ⊥
      differ x = cc

-- One change record was added: `d` is the document of the command in the end, and the old one is what
-- reading its key finds, or none where that fails.
abbrev pub OneMore :
    (L : Libs) → Database L → Context → Command L → L.json.Doc → Txn L → Txn L → Type 0
OneMore L db ctx cmd d t u =
    (c : CollectionSchema) × (lookup cmd.collection db.collections ≡ some c)
    × (before : Option L.json.Doc) × ((v : Txn L) × (attempt L
            (get_document L db ctx cmd.collection (get_primary_key L c cmd.document)) t
          ≡ (ok before, v)))
    × (id : Str) × (u.cdc
        ≡ t.cdc
          ++ record {
            id = id;
            collection = cmd.collection;
            action = cmd.action;
            document_id = get_primary_key L c d;
            diff = diff L.json d before;
            timestamp = stamp ctx cmd.timestamp;
          }
            ∷ [])

-- A command that creates, sets or updates a document, if it returns, adds exactly one change record,
-- of the document that it returns (for an update, that of the changed fields): its difference from the
-- document that is found under the command's key before, or from none where none is found. The
-- collection is not that of the change records, and the context is not an indexing one.
pub run_persist-records :
    (L : Libs) (gs : Str) (m n : ℕ) (cs : List (Str × CollectionSchema)) (ctx : Context)
    (cmd : Command L) (t u : Txn L) (d : L.json.Doc)
    → saves cmd.action ≡ true
    → (cmd.collection == cdc_collection) ≡ false
    → ctx.is_indexing ≡ false
    → run_persist L gs
        (suc (suc n))
        (record { collections = cs; query = run_query L gs m cs })
        ctx
        cmd
        t
      ≡ (ok d, u)
    → OneMore L (record { collections = cs; query = run_query L gs m cs }) ctx cmd d t u
unfolding run_persist persist_command change_of
run_persist-records L gs m n cs ctx cmd t u d s e i h =
    let db : Database L = record { collections = cs; query = run_query L gs m cs } in
    let queries : QueriesWithin L (log_frame L gs) db =
      run_query-Within L (log_frame L gs) gs m cs in
    Runs-result (λ d u. OneMore L db ctx cmd d t u) t u d
      (run_persist L gs (suc (suc n)) db ctx cmd)
      (Runs-elim (λ d u. OneMore L db ctx cmd d t u) t (lookup cmd.collection cs) _ _
        (Runs-raise _ t _)
        λ c l.
          Runs-if (λ d u. OneMore L db ctx cmd d t u) t (c.read_only && not ctx.is_internal) _ _
            (λ _. Runs-raise _ t (foreign (str "tx: collection is read only")))
            λ _.
              Runs-mono
                (λ d u.
                  Recorded L gs (run_persist L gs (suc n) db) db ctx queries
                    (persist_command-Within L gs (run_persist L gs n db) db queries
                      (as_internal ctx))
                    c cmd d t u)
                _ t _ (λ d u (before, found, id, r). (c, l, before, found, id, r))
                (persist_into-Recorded L gs (run_persist L gs (suc n) db) db ctx queries
                  (persist_command-Within L gs (run_persist L gs n db) db queries (as_internal ctx))
                  c cmd t s e i))
      h
