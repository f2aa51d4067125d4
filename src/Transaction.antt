-- ===== src/Transaction.antt =====
-- tx.go and tx_util.go: the transactions of the database, over a key value transaction. Here: their
-- state, the libraries that they use, and the keys of documents and of index entries.
pub mod Samples
pub mod Documents
pub mod SecondaryIndex
pub mod Frame
pub mod Evaluate
pub mod Scan
pub mod Queries
pub mod Cascade
pub mod Persist
pub mod Commands
use gokvkit.Prelude.{
  if◌then◌else◌, is_empty, ℕ, ◌+◌, Str, str, Bool, not, List, [], ◌∷◌, ◌++◌, ◌==◌, keep, Option,
  none, some,
}
use gokvkit.Errors.{Error, Code, wrap_error, new, validation}
use gokvkit.Errors.Outcome.{Outcome, ok, fail, panic}
use gokvkit.Errors.Exec.{Exec, on_error}
use gokvkit.Model.Value.{text}
use gokvkit.Model.Query.{Action, JsonFieldOp, Query}
use gokvkit.Model.Schema.{CollectionSchema, Index, primary_key}
use gokvkit.Vendor.Lo.{Lo}
use gokvkit.Vendor.Cast.{Cast}
use gokvkit.Vendor.Js.{Js}
use gokvkit.Vendor.Json.{Json}
use gokvkit.Kv.Interface.{KvTx}
use gokvkit.Indexing.{Values, seek_prefix, seek, path}
use gokvkit.Document.{get}

-- gojsonschema.Result: the fields and descriptions of its errors, and `Valid()`
pub record SchemaResult : Type 0 where
  pub errors : List (Str × Str)
  pub is_valid : Bool

-- The flags and the namespace that a context carries, and the time.
pub record Context : Type 0 where
  pub is_internal : Bool
  pub is_indexing : Bool
  pub namespace : Str
  pub now : ℕ

pub record Cdc : Type 0 where
  pub id : Str
  pub collection : Str
  pub action : Action
  pub document_id : Str
  pub diff : List JsonFieldOp
  pub timestamp : ℕ

-- The libraries, each named in the comment above its operations.
pub record Libs : Type 1 where
  pub lo : Lo
  pub cast : Cast
  pub js : Js
  pub json : Json
  pub kv : KvTx
  -- the JSON text of an error; and regexp.Match
  pub marshal : Error → Str
  pub matches : Str → Str → Bool
  -- the `Validate` of the collection's gojsonschema.Schema, on a text
  pub check_schema : CollectionSchema → Str → Outcome SchemaResult
  -- the validator's `Struct`, on a query and on a schema
  pub valid_query : Query → Outcome (Unit {0})
  pub valid_schema : CollectionSchema → Outcome (Unit {0})
  -- sort.Slice, with the function that it is given
  pub sort : (json.Doc → json.Doc → Outcome Bool) → List json.Doc → Outcome (List json.Doc)
  -- the order in which a `range` visits the groups of documents
  pub range_groups : List (Str × List json.Doc) → List (Str × List json.Doc)
  -- json.Marshal of a map and of a CDC, and the decoding of a document into a CDC
  pub marshal_values : Values → Outcome Str
  pub marshal_cdc : Cdc → Outcome Str
  pub decode_cdc : json.Doc → Outcome Cdc
  -- ksuid.New().String(), the n-th time
  pub ksuid : ℕ → Str
  -- Go values as they are handed to the JavaScript machine; and the document that was handed over, as
  -- the scripts that were run since have left it
  pub ctx_object : Context → js.Object
  pub doc_object : json.Doc → js.Object
  pub meta_object : Context → js.Object
  pub schema_object : CollectionSchema → js.Object
  pub query_object : Query → js.Object
  pub shared_doc : js.Vm → json.Doc → json.Doc
  -- The machine's `tx` is the key value transaction: the machine that has it in a state, and what the
  -- scripts that were run since have made of that state
  pub holding : kv.State → js.Vm → js.Vm
  pub written : js.Vm → kv.State → kv.State

-- The members of `t.docs`
abbrev pub docs_key : Str → Str → Str
docs_key collection id = collection ++ str "/" ++ id

-- An error becomes `none`; a panic stays.
abbrev pub passed_over : {A S : Type 0} → Outcome A × S → Outcome (Option A) × S
passed_over (ok a, s) = (ok (some a), s)
passed_over (fail e, s) = (ok none, s)
passed_over (panic, s) = (panic, s)

module _ (L : Libs) where
  open L use {json, js, kv, cast, marshal}

  -- The fields of `transaction` that change; `docs` is the set of known document keys. `ids`
  -- counts the ids that were made.
  pub record Txn : Type 0 where
    pub store : kv.State
    pub vm : js.Vm
    pub docs : List Str
    pub cdc : List Cdc
    pub ids : ℕ

  pub record Page : Type 0 where
    pub documents : List json.Doc
    pub next_page : ℕ
    pub count : ℕ

  -- t.db.getSchema and t.Query, where a function needs no more of the database than these
  pub record Database : Type 0 where
    pub collections : List (Str × CollectionSchema)
    pub query : Context → Str → Query → Exec Txn Page

module _ {A : Type 0} (L : Libs) where
  open L use {json, js, kv, cast, marshal}

  abbrev pub wrapping : Code → Str → Exec (Txn L) A → Exec (Txn L) A
  wrapping code msg m = on_error (λ e. wrap_error marshal e code msg) m

  -- An operation of the key value transaction, and a run of the JavaScript machine,
  -- whose scripts may write through `tx`.
  abbrev pub on_store : (kv.State → Outcome A × kv.State) → Exec (Txn L) A
  on_store f t = let (o, s) = f t.store in (o, record t { store = s })

  abbrev pub on_vm : (js.Vm → Outcome A × js.Vm) → Exec (Txn L) A
  on_vm f t =
      let (o, v) = f (L.holding t.store t.vm) in
      (o, record t { store = L.written v t.store; vm = v })

module _ (L : Libs) where
  open L use {json, js, kv, cast, marshal}

  -- seekPrefix passes over an error of flat.Flatten.
  abbrev pub flatten_or_empty : Values → Values
  flatten_or_empty fields = elim (json.flatten fields) [ ok vs ↦ vs | fail e ↦ [] | panic ↦ [] ]

  -- The end of ValidateDocument, from the result of the schema.
  unfoldable pub check_result : SchemaResult → Outcome (Unit {0})
  check_result r =
      if not (is_empty r.errors)
      then fail (new validation (str "document validation error"))
      else if not r.is_valid
      then fail (new validation (str "invalid document"))
      else ok tt

  after_check : Outcome SchemaResult → Outcome (Unit {0})
  unfolding check_result
  after_check (ok r) = check_result r
  after_check (fail e) = fail (wrap_error marshal e validation (str "failed to validate document"))
  after_check panic = panic

  unfoldable pub validate_document : CollectionSchema → json.Doc → Outcome (Unit {0})
  unfolding after_check
  validate_document c d = after_check (L.check_schema c (json.raw d))

  unfoldable pub get_primary_key : CollectionSchema → json.Doc → Str
  get_primary_key c d = cast.to_string (get json d (primary_key c))

  -- The key of a document in the primary index, and of its entry in an index.
  unfoldable pub document_key : Context → CollectionSchema → Str → Str
  document_key ctx c id = path cast (
      seek (text id) (
        seek_prefix cast flatten_or_empty ctx.namespace c.collection c.primary_index
          ((primary_key c, text id) ∷ [])))

  unfoldable pub entry_prefix : Context → Str → Index → json.Doc → Str
  entry_prefix ctx collection i d =
      path cast (seek_prefix cast flatten_or_empty ctx.namespace collection i (json.value d))

  unfoldable pub entry_key : Context → Str → Index → json.Doc → Str → Str
  entry_key ctx collection i d id =
      path cast (
        seek (text id)
          (seek_prefix cast flatten_or_empty ctx.namespace collection i (json.value d)))

  -- The next id of the generator
  abbrev pub new_id : Exec (Txn L) Str
  new_id t = (ok (L.ksuid t.ids), record t { ids = t.ids + 1 })

  -- `x, _ := ...`: an error is passed over.
  abbrev pub attempt : {A : Type 0} → Exec (Txn L) A → Exec (Txn L) (Option A)
  attempt m t = passed_over (m t)

  abbrev pub remember : Str → Txn L → Txn L
  remember k t = record t { docs = k ∷ t.docs }

  abbrev pub forget : Str → Txn L → Txn L
  forget k t = record t { docs = keep (λ j. not (j == k)) t.docs }
