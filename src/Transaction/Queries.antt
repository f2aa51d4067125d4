-- ===== src/Transaction/Queries.antt =====
-- Query, aggregate and ForEach of tx.go. A query looks up documents by queries of its own, for its
-- joins and for the entries of secondary indexes: `run_query` is the query with a bound on that depth.
pub mod Congruence
pub mod Depth
pub mod Reading
pub mod Unchanged
pub mod Pages
pub mod Matching
mod Tests
use gokvkit.Prelude.{
  ℕ, zero, suc, ◌+◌, ◌*◌, ltb, leb, nat_eq, length, take, Str, str, Bool, true, false, not, ◌&&◌,
  ◌||◌, List, [], ◌∷◌, ◌++◌, ◌==◌, is_empty, Option, none, some, lookup, if◌then◌else◌,
}
use gokvkit.Errors.{new, validation, internal, forbidden}
use gokvkit.Errors.Outcome.{panic}
use gokvkit.Errors.Exec.{Exec, pure, raise, lift, ◌>>=◌, ◌>>◌}
use gokvkit.Model.Query.{Where, Join, Query, Select}
use gokvkit.Model.Schema.{CollectionSchema}
use gokvkit.Authorization.{authorize_query}
use gokvkit.Optimizer.{Explain}
use gokvkit.Document.{where_clauses}
use gokvkit.Results.Validation.{validate, has_aggregate}
use gokvkit.Results.Ordering.{order_by_docs}
use gokvkit.Results.Grouping.{group_by_docs}
use gokvkit.Results.Having.{docs_having}
use gokvkit.Results.Aggregates.{aggregate_docs, select_document}
use gokvkit.Transaction.Evaluate.{request}
use gokvkit.Transaction.Scan.{all_fields, select_where, query_scan}
use gokvkit.Transaction.{Libs, Txn, Page, Database, Context, wrapping, on_vm}

-- `if len(query.Select) == 0`
unfoldable pub with_select : Query → Query
with_select q = if is_empty q.select then record q { select = all_fields } else q

-- Whether the scan may stop early: after how many documents is up to the limit.
unfoldable pub at_limit : Query → ℕ → Bool
at_limit q n = nat_eq q.page 0 && (is_empty q.order_by && (ltb 0 q.limit && leb q.limit n))

module _ (L : Libs) where
  open L use {lo, json, cast, matches}
  open json use {Doc}

  -- The page of the results, cut off at the limit.
  unfoldable pub page_slice : Query → Bool → List Doc → List Doc
  page_slice q full_scan ds =
      if full_scan && (ltb 0 q.limit && ltb 0 q.page)
      then lo.slice Doc ds (q.limit * q.page) (q.limit * q.page + q.limit)
      else ds

  unfoldable pub cut_off : Query → List Doc → List Doc
  cut_off q ds = if ltb 0 q.limit && ltb q.limit (length ds) then take q.limit ds else ds

  unfoldable pub page_of : Query → List Doc → Page L
  page_of q ds = record { documents = ds; next_page = q.page + 1; count = length ds }

  -- The loop that selects the fields of each result
  unfoldable pub select_all : List Select → List Doc → Exec (Txn L) (List Doc)
  select_all ss [] = pure []
  select_all ss (d ∷ ds) = do
    d' ← lift (select_document lo json cast ss d)
    ds' ← select_all ss ds
    pure (d' ∷ ds')

  unfoldable pub selected : List Select → List Doc → Exec (Txn L) (List Doc)
  unfolding select_all
  selected [] ds = pure ds
  selected (s ∷ ss) ds = if s.field == str "*" then pure ds else select_all (s ∷ ss) ds

  -- The functions that collect the documents of a scan; the first gives up `full_scan` to stop early.
  unfoldable pub collect_some :
      Query → List Doc × Bool → Doc → Exec (Txn L) ((List Doc × Bool) × Bool)
  collect_some q (ds, full_scan) d =
      let rs = ds ++ d ∷ [] in
      if at_limit q (length rs) then pure ((rs, false), false) else pure ((rs, full_scan), true)

  unfoldable pub collect_all : List Doc → Doc → Exec (Txn L) (List Doc × Bool)
  collect_all ds d = pure (ds ++ d ∷ [], true)

  -- What the documents of a scan come to.
  unfoldable pub finish : Query → List Doc × Bool → Exec (Txn L) (Page L)
  unfolding page_of cut_off page_slice selected
  finish q (ds, full_scan) = do
    sorted ← lift (order_by_docs json cast L.sort ds q.order_by)
    ds' ← selected q.select (cut_off q (page_slice q full_scan sorted))
    pure (page_of q ds')

  -- The document of each group; there is none for a group without documents.
  unfoldable pub reduce_group : Option Doc → Exec (Txn L) Doc
  reduce_group none = lift panic
  reduce_group (some d) = pure d

  unfoldable pub reduce_groups : List Select → List (Str × List Doc) → Exec (Txn L) (List Doc)
  unfolding reduce_group
  reduce_groups ss [] = pure []
  reduce_groups ss ((k, values) ∷ groups) = do
    o ← lift (aggregate_docs lo json cast values ss)
    d ← reduce_group o
    ds ← reduce_groups ss groups
    pure (d ∷ ds)

  -- The groups that results are reduced to, filtered and in order
  unfoldable pub reduced : Query → List Doc → Exec (Txn L) (List Doc)
  unfolding reduce_groups
  reduced q results = do
    ds ← reduce_groups q.select (L.range_groups (group_by_docs json cast results q.group_by))
    kept ← wrapping L internal [] (
        lift
          (docs_having (where_clauses lo json cast matches q.having) (not (is_empty q.having)) ds))
    lift (order_by_docs json cast L.sort kept q.order_by)

  unfoldable pub reduced_page : Query → List Doc → Exec (Txn L) (Page L)
  unfolding page_of cut_off page_slice reduced
  reduced_page q results = do
    ds ← reduced q results
    pure (page_of q (cut_off q (page_slice q true ds)))

  unfoldable pub aggregate : Database L → Context → Str → Query → Exec (Txn L) (Page L)
  aggregate db ctx collection q =
      query_scan L db ctx collection q.wheres q.join collect_all [] >>= λ (results, e).
      reduced_page q results

  unfoldable pub plain_query : Database L → Context → Str → Query → Exec (Txn L) (Page L)
  unfolding finish
  plain_query db ctx collection q =
      query_scan L db ctx collection q.wheres q.join (collect_some q) ([], true) >>= λ (results, e).
      finish q results

module _ (L : Libs) (global_scripts : Str) where
  open L use {lo, js, json, marshal}
  open json use {Doc}

  abbrev pub authorized : Context → CollectionSchema → Query → Exec (Txn L) Bool
  authorized ctx c q =
      on_vm L (authorize_query lo js marshal global_scripts (request L global_scripts ctx c q) c)

  unfoldable pub answer :
      Database L → Context → Str → CollectionSchema → Query → Exec (Txn L) (Page L)
  answer db ctx collection c q = do
    allow ← authorized ctx c q
    if not allow
        then raise (new forbidden (str "not authorized"))
        else if has_aggregate lo marshal L.valid_query q.select
        then aggregate L db ctx collection q
        else plain_query L db ctx collection q

  unfoldable pub query : Database L → Context → Str → Query → Exec (Txn L) (Page L)
  unfolding answer with_select
  query db ctx collection q = do
    let q' = with_select q
    lift (validate lo marshal L.valid_query q')
    elim (lookup collection db.collections) [
      | none ↦ raise (new validation (str "tx: unsupported collection"))
      | some c ↦ answer db ctx collection c q'
    ]

  -- A query whose own queries are at most this deep; past the bound it panics.
  unfoldable pub run_query :
      ℕ → List (Str × CollectionSchema) → Context → Str → Query → Exec (Txn L) (Page L)
  unfolding query
  run_query zero collections ctx collection q = lift panic
  run_query (suc n) collections ctx collection q =
      query (record { collections = collections; query = run_query n collections }) ctx collection q

  -- GetSchema gives nil for an unknown collection, of which authorizeQuery asks the rules unless the
  -- context is internal or indexing.
  unfoldable pub for_each :
      {R : Type 0}
      → Database L
      → Context
      → Str
      → List Where
      → List Join
      → (R → Doc → Exec (Txn L) (R × Bool))
      → R
      → Exec (Txn L) (R × Explain)
  for_each db ctx collection wheres joins fn r = elim (lookup collection db.collections) [
    | none ↦
        if ctx.is_internal || ctx.is_indexing
        then query_scan L db ctx collection wheres joins fn r
        else lift panic
    | some c ↦ do
      pass ← authorized ctx c (record (select_where wheres 0) { select = []; join = joins })
      if not pass
          then raise (new forbidden (str "not authorized"))
          else query_scan L db ctx collection wheres joins fn r
  ]
