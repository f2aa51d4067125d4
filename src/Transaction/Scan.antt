-- ===== src/Transaction/Scan.antt =====
-- queryScan of tx_util.go: the documents that a query's index, joins and where clauses select. The
-- transaction's own `Query` and `Get`, which joins and secondary indexes call, are arguments.
pub mod Reading
use gokvkit.Prelude.{
  ℕ, zero, suc, ◌+◌, ltb, nat_eq, length, Str, str, Bool, true, false, List, [], ◌∷◌, ◌++◌,
  has_prefix, Option, none, some, lookup, if◌then◌else◌,
}
use gokvkit.Errors.{new, validation, internal, not_found}
use gokvkit.Errors.Outcome.{panic}
use gokvkit.Errors.Exec.{Exec, pure, raise, lift, ◌>>=◌}
use gokvkit.Model.Value.{Value, null}
use gokvkit.Model.Query.{Where, Join, Query, Select}
use gokvkit.Model.Query
use gokvkit.Model.Schema.{CollectionSchema, SchemaProperty, ComputedField, zero_index}
use gokvkit.Kv.Interface.{IterOpts}
use gokvkit.Optimizer.{Explain, optimize}
use gokvkit.Indexing.{Values, IndexPathPrefix, seek_prefix, path, append, split, last_segment}
use gokvkit.Document.{
  get, new_document_from_bytes, where_clauses, merge_join, self_ref_prefix, trim_self,
}
use gokvkit.Transaction.SecondaryIndex.{by_id}
use gokvkit.Transaction.{
  Libs, Txn, Page, Database, Context, wrapping, on_store, on_vm, flatten_or_empty,
}

abbrev pub all_fields : List Select
all_fields = record { aggregate = Query.no_aggregate; as_name = []; field = str "*" } ∷ []

-- A query for documents by where clauses, with a limit (0 for none)
abbrev pub select_where : List Where → ℕ → Query
select_where wheres limit = record {
  select = all_fields;
  join = [];
  wheres = wheres;
  group_by = [];
  page = 0;
  limit = limit;
  order_by = [];
  having = [];
}

-- Explain{}, which is returned beside an error and after an early stop.
abbrev pub no_explain : Explain
no_explain = record {
  collection = [];
  index = zero_index;
  matched_fields = [];
  matched_values = [];
  seek_fields = [];
  seek_values = [];
  reverse = false;
}

abbrev pub value_or_null : Option Value → Value
value_or_null none = null
value_or_null (some v) = v

module _ (L : Libs) where
  open L use {lo, js, json, kv, cast, matches}
  open json use {Doc}

  -- The options of the iterator: the seek key appends the fields to seek to the prefix.
  append_seek : List Str → Values → IndexPathPrefix → IndexPathPrefix
  append_seek [] values p = p
  append_seek (f ∷ fs) values p =
      append_seek fs values (append cast f (value_or_null (lookup f values)) p)

  unfoldable pub iter_opts : Context → Str → Explain → IterOpts
  unfolding append_seek
  iter_opts ctx collection e =
      let p =
        seek_prefix cast (flatten_or_empty L) ctx.namespace collection e.index e.matched_values in
      record {
        prefix = path cast p;
        upper_bound = none;
        seek = some (path cast (append_seek e.seek_fields e.seek_values p));
        reverse = e.reverse;
      }

  unfoldable pub compute_value : Str → Option ComputedField → Doc → Exec (Txn L) Doc
  compute_value p none d = pure d
  compute_value p (some c) d =
      if c.read
      then (do
        val ← wrapping L internal (str "failed to compute field") (on_vm L (js.run_string c.expr))
        lift (json.set p val d))
      else pure d

  -- The loop over the fields that are computed on reading
  unfoldable pub compute_fields : List (Str × SchemaProperty) → Doc → Exec (Txn L) Doc
  unfolding compute_value
  compute_fields [] d = pure d
  compute_fields ((p, v) ∷ ps) d = do d' ← compute_value p v.compute d; compute_fields ps d'

  -- A value that refers to a field of the first document is replaced by it.
  unfoldable pub join_clause : Doc → Where → Where
  join_clause d w =
      if has_prefix (cast.to_string w.value) self_ref_prefix
      then record w { value = get json d (trim_self (cast.to_string w.value)) }
      else w

  unfoldable pub join_clauses : Doc → List Where → List Where
  unfolding join_clause
  join_clauses d [] = []
  join_clauses d (w ∷ ws) = join_clause d w ∷ join_clauses d ws

  -- A result of a join is merged into the document at its place, if there is one, and else into a
  -- copy of the first document as it is by then.
  unfoldable pub merge_at : Str → Doc → ℕ → List Doc → Exec (Txn L) (List Doc)
  merge_at name r i [] = pure []
  merge_at name r zero (d ∷ ds) = do d' ← lift (merge_join json r name d); pure (d' ∷ ds)
  merge_at name r (suc i) (d ∷ ds) = do ds' ← merge_at name r i ds; pure (d ∷ ds')

  unfoldable pub merge_copy : Str → Doc → List Doc → Exec (Txn L) (List Doc)
  merge_copy name r [] = lift panic
  merge_copy name r (d ∷ ds) = do d' ← lift (merge_join json r name d); pure ((d ∷ ds) ++ d' ∷ [])

  unfoldable pub merge_results : Str → List Doc → ℕ → List Doc → Exec (Txn L) (List Doc)
  unfolding merge_at merge_copy
  merge_results name [] i docs = pure docs
  merge_results name (r ∷ rs) i docs = do
    docs' ← if ltb i (length docs) then merge_at name r i docs else merge_copy name r docs
    merge_results name rs (i + 1) docs'

  -- One round of the loop over the joins. The name in the results is `j.As`, also if it is empty.
  unfoldable pub join_one : Database L → Context → Join → List Doc → Exec (Txn L) (List Doc)
  join_one db ctx j [] = lift panic
  join_one db ctx j (d ∷ ds) = do
    page ← db.query ctx j.collection (select_where (join_clauses d j.on) 0)
    merge_results j.as_name page.documents 0 (d ∷ ds)

  unfoldable pub join_all : Database L → Context → List Join → List Doc → Exec (Txn L) (List Doc)
  unfolding join_one
  join_all db ctx [] docs = pure docs
  join_all db ctx (j ∷ js) docs = do docs' ← join_one db ctx j docs; join_all db ctx js docs'

  -- `results.Documents[0]`, of a page whose count is not 0
  unfoldable pub first_document : List Doc → Exec (Txn L) Doc
  first_document [] = lift panic
  first_document (d ∷ ds) = pure d

  unfoldable pub found : Page L → Exec (Txn L) Doc
  unfolding first_document
  found p =
      if nat_eq p.count 0
      then raise (new not_found (str "not found"))
      else first_document p.documents

  -- Get of tx.go: any error of its query gets the code "not found".
  unfoldable pub get_document : Database L → Context → Str → Str → Exec (Txn L) Doc
  unfolding found
  get_document db ctx collection id = elim (lookup collection db.collections) [
    | none ↦ raise (new validation (str "tx: unsupported collection"))
    | some c ↦
        wrapping L not_found (str "not found")
          (db.query ctx collection (record (by_id c id) { select = [] }))
        >>= found
  ]

  -- The document of an entry: the value in the primary index, and looked up by its id in another.
  unfoldable pub find_document : Database L → Context → Str → Bool → Str × Str → Exec (Txn L) Doc
  find_document db ctx collection primary (k, v) =
      if primary
      then lift (new_document_from_bytes json v)
      else get_document db ctx collection (last_segment (split k))

module _ {R : Type 0} (L : Libs) where
  -- The loop over the documents of an entry; `fn` gives back whether to go on.
  unfoldable pub visit_documents :
      List Where
      → (R → L.json.Doc → Exec (Txn L) (R × Bool))
      → List L.json.Doc
      → R
      → Exec (Txn L) (R × Bool)
  visit_documents wheres fn [] r = pure (r, true)
  visit_documents wheres fn (d ∷ ds) r = do
    pass ← lift (where_clauses L.lo L.json L.cast L.matches wheres d)
    if pass
        then (fn r d >>= λ (r', on).
            if on then visit_documents wheres fn ds r' else pure (r', false))
        else visit_documents wheres fn ds r

  -- The loop over the entries of the iterator
  unfoldable pub scan_entries :
      Database L
      → Context
      → CollectionSchema
      → Bool
      → List Where
      → List Join
      → (R → L.json.Doc → Exec (Txn L) (R × Bool))
      → List (Str × Str)
      → R
      → Exec (Txn L) (R × Bool)
  scan_entries db ctx c primary wheres joins fn [] r = pure (r, true)
  scan_entries db ctx c primary wheres joins fn (e ∷ es) r = do
    d ← find_document L db ctx c.collection primary e
    d' ← compute_fields L c.property_paths d
    docs ← join_all L db ctx joins (d' ∷ [])
    visit_documents wheres fn docs r >>= λ (r', on).
        if on then scan_entries db ctx c primary wheres joins fn es r' else pure (r', false)

  unfoldable pub query_scan :
      Database L
      → Context
      → Str
      → List Where
      → List Join
      → (R → L.json.Doc → Exec (Txn L) (R × Bool))
      → R
      → Exec (Txn L) (R × Explain)
  query_scan db ctx collection wheres joins fn r = elim (lookup collection db.collections) [
    | none ↦ raise (new validation (str "tx: unsupported collection"))
    | some c ↦ do
      e ← lift (optimize L.lo c wheres)
      entries ← on_store L (L.kv.scan (iter_opts L ctx collection e))
      scan_entries db ctx c e.index.primary wheres joins fn entries r >>= λ (r', on).
          pure (r', (if on then e else no_explain))
  ]
