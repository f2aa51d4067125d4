-- ===== src/Transaction/Cascade.antt =====
-- cascadeDelete of tx_util.go and Delete of tx.go, with the commands that they are made of. The
-- goroutines of cascadeDelete run one after another.
use gokvkit.Prelude.{ℕ, Str, str, List, [], ◌∷◌, ◌==◌, Option, none, some, lookup, if◌then◌else◌}
use gokvkit.Errors.{GoError, new, validation, internal}
use gokvkit.Errors.Outcome.{Outcome, ok, fail, panic}
use gokvkit.Errors.Exec.{Exec, pure, raise, lift, ◌>>=◌, ◌>>◌}
use gokvkit.Model.Value.{text}
use gokvkit.Model.Query.{Action, delete, eq}
use gokvkit.Model.Schema.{CollectionSchema, Index, ForeignKey, primary_key}
use gokvkit.Vendor.Json.{Json}
use gokvkit.Document.{new_document_from_bytes}
use gokvkit.Transaction.SecondaryIndex.{first_field}
use gokvkit.Transaction.Scan.{select_where}
use gokvkit.Transaction.{Libs, Txn, Database, Context, wrapping, attempt, get_primary_key}

module _ (json : Json) where
  -- NewDocumentFrom, from the result of json.Marshal
  unfoldable pub new_document_from : Outcome Str → Outcome json.Doc
  new_document_from (ok bytes) = new_document_from_bytes json bytes
  new_document_from (fail e) = fail (new validation (str "failed to json encode value"))
  new_document_from panic = panic

module _ (L : Libs) where
  open L use {json}
  open json use {Doc}

  pub record Command : Type 0 where
    pub collection : Str
    pub action : Action
    pub document : Doc
    pub timestamp : ℕ

  -- errgroup: every function runs, and the first error is what `Wait` returns.
  after_error : GoError → Outcome (Unit {0}) × Txn L → Outcome (Unit {0}) × Txn L
  after_error e (panic, t) = (panic, t)
  after_error e (_, t) = (fail e, t)

  and_also : Outcome (Unit {0}) × Txn L → Exec (Txn L) (Unit {0}) → Outcome (Unit {0}) × Txn L
  unfolding after_error
  and_also (ok x, t) m = m t
  and_also (fail e, t) m = after_error e (m t)
  and_also (panic, t) m = (panic, t)

  -- `persist` is persistCommand, for the commands that a command gives rise to.
  module _ (persist : Context → Command → Exec (Txn L) Doc) (db : Database L) where
    -- A nil document, which an error would give, has the empty key like a document without fields.
    key_document : CollectionSchema → Str → Exec (Txn L) Doc
    unfolding new_document_from
    key_document c id =
        attempt L (lift (new_document_from json (L.marshal_values ((primary_key c, text id) ∷ []))))
        >>= λ o. elim o [ none ↦ pure json.empty | some d ↦ pure d ]

    unfoldable pub tx_delete : Context → Str → Str → Exec (Txn L) (Unit {0})
    unfolding key_document
    tx_delete ctx collection id = elim (lookup collection db.collections) [
      | none ↦ raise (new validation (str "tx: unsupported collection"))
      | some c ↦ do
        d ← key_document c id
        wrapping L 0 (str "tx: failed to commit delete") (
            persist ctx (record {
              collection = collection;
              action = delete;
              document = d;
              timestamp = ctx.now;
            }))
        pure tt
    ]

    delete_each : Context → CollectionSchema → List Doc → Exec (Txn L) (Unit {0})
    unfolding tx_delete
    delete_each ctx c [] = pure tt
    delete_each ctx c (d ∷ ds) =
        tx_delete ctx c.collection (get_primary_key L c d) >> delete_each ctx c ds

    -- The documents that refer to the key by an index with a foreign key.
    cascade_index :
        Context
        → Str
        → Str
        → CollectionSchema
        → Option ForeignKey
        → List Str
        → Exec (Txn L) (Unit {0})
    unfolding delete_each
    cascade_index ctx collection key c none fields = pure tt
    cascade_index ctx collection key c (some fk) fields =
        if fk.collection == collection
        then (do
          f ← lift (first_field L fields)
          page ←
              db.query ctx c.collection
                (select_where (record { field = f; op = eq; value = text key } ∷ []) 0)
          delete_each ctx c page.documents)
        else pure tt

    unfoldable pub cascade_indexes :
        Context → Str → Str → CollectionSchema → List Index → Exec (Txn L) (Unit {0})
    unfolding cascade_index
    cascade_indexes ctx collection key c [] = pure tt
    cascade_indexes ctx collection key c (i ∷ is) =
        cascade_index ctx collection key c i.foreign_key i.fields
        >> cascade_indexes ctx collection key c is

    unfoldable pub cascade_all :
        Context → Str → Str → List (Str × CollectionSchema) → Exec (Txn L) (Unit {0})
    unfolding cascade_indexes and_also
    cascade_all ctx collection key [] = pure tt
    cascade_all ctx collection key ((n, c) ∷ cs) = λ t.
        and_also (cascade_indexes ctx collection key c c.indexing t)
          (cascade_all ctx collection key cs)

    unfoldable pub cascade_delete : Context → CollectionSchema → Command → Exec (Txn L) (Unit {0})
    unfolding cascade_all
    cascade_delete ctx c cmd =
        wrapping L internal (str "failed to cascade delete reference documents")
          (cascade_all ctx cmd.collection (get_primary_key L c cmd.document) db.collections)
