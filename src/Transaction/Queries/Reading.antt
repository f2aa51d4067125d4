-- ===== src/Transaction/Queries/Reading.antt =====
-- A query reads: it is within each frame.
use gokvkit.Prelude.{
  ℕ, zero, suc, length, Str, str, Bool, true, not, List, [], ◌∷◌, ◌++◌, ◌==◌, is_empty, Option,
  none, some, lookup,
}
use gokvkit.Errors.{forbidden, new, internal}
use gokvkit.Errors.Exec.{pure, lift, raise}
use gokvkit.Model.Query.{Query, Select}
use gokvkit.Model.Schema.{CollectionSchema}
use gokvkit.Transaction.{Libs, Database, Context}
use gokvkit.Transaction.Frame.{
  Frame, Within, Within-pure, Within-lift, Within-raise, Within-on_vm, Within-elim, Within-bind,
  Within-wrapping, Within-if,
}
use gokvkit.Document.{where_clauses}
use gokvkit.Authorization.{authorize_query}
use gokvkit.Transaction.Evaluate.{request}
use gokvkit.Results.Having.{docs_having}
use gokvkit.Results.Grouping.{group_by_docs}
use gokvkit.Results.Validation.{has_aggregate, validate}
use gokvkit.Transaction.Queries.{
  with_select, at_limit, select_all, selected, finish, collect_some, collect_all, reduce_group,
  reduce_groups, reduced, reduced_page, aggregate, plain_query, answer, authorized, query,
  run_query,
}
use gokvkit.Transaction.Scan.Reading.{QueriesWithin, query_scan-Within}

module _ (L : Libs) (F : Frame L) where
  open L use {json, js, kv}
  open json use {Doc}

  select_all-Within : (ss : List Select) (ds : List Doc) → Within L F (select_all L ss ds)
  unfolding select_all
  select_all-Within ss [] = Within-pure L F _
  select_all-Within ss (d ∷ ds) =
      Within-bind L F _ _ (Within-lift L F _)
        λ d'. Within-bind L F _ _ (select_all-Within ss ds) (λ ds'. Within-pure L F _)

  selected-Within : (ss : List Select) (ds : List Doc) → Within L F (selected L ss ds)
  unfolding selected
  selected-Within [] ds = Within-pure L F _
  selected-Within (s ∷ ss) ds =
      Within-if L F (s.field == str "*") (pure ds) _ (Within-pure L F _)
        (select_all-Within (s ∷ ss) ds)

  finish-Within : (q : Query) (r : List Doc × Bool) → Within L F (finish L q r)
  unfolding finish
  finish-Within q (ds, full_scan) =
      Within-bind L F _ _ (Within-lift L F _)
        λ sorted. Within-bind L F _ _ (selected-Within q.select _) (λ ds'. Within-pure L F _)

  collect_some-Within :
      (q : Query) (r : List Doc × Bool) (d : Doc) → Within L F (collect_some L q r d)
  unfolding collect_some
  collect_some-Within q (ds, full_scan) d =
      Within-if L F (at_limit q (length (ds ++ d ∷ []))) _ _ (Within-pure L F _) (Within-pure L F _)

  reduce_groups-Within :
      (ss : List Select) (gs : List (Str × List Doc)) → Within L F (reduce_groups L ss gs)
  unfolding reduce_groups
  reduce_groups-Within ss [] = Within-pure L F _
  reduce_groups-Within ss ((k, values) ∷ gs) = Within-bind L F _ _ (Within-lift L F _) λ o.
      Within-bind L F _ _ (reduce_group-Within o)
        λ d. Within-bind L F _ _ (reduce_groups-Within ss gs) (λ ds. Within-pure L F _)
    where
      reduce_group-Within : (o : Option Doc) → Within L F (reduce_group L o)
      reduce_group-Within none = Within-lift L F _
      reduce_group-Within (some d) = Within-pure L F _

  reduced-Within : (q : Query) (ds : List Doc) → Within L F (reduced L q ds)
  unfolding reduced
  reduced-Within q ds =
      Within-bind L F _ _
        (reduce_groups-Within q.select (L.range_groups (group_by_docs json L.cast ds q.group_by)))
        λ ds'.
          Within-bind L F _ _
            (Within-wrapping L F internal []
              (lift (
                docs_having (where_clauses L.lo json L.cast L.matches q.having)
                  (not (is_empty q.having)) ds'))
              (Within-lift L F _))
            λ kept. Within-lift L F _

  reduced_page-Within : (q : Query) (ds : List Doc) → Within L F (reduced_page L q ds)
  unfolding reduced_page
  reduced_page-Within q ds = Within-bind L F _ _ (reduced-Within q ds) (λ ds'. Within-pure L F _)

  module _ (db : Database L) (h : QueriesWithin L F db) (ctx : Context) (collection : Str) where
    aggregate-Within : (q : Query) → Within L F (aggregate L db ctx collection q)
    unfolding aggregate collect_all
    aggregate-Within q =
        Within-bind L F _ _
          (query_scan-Within L F q.wheres (collect_all L)
            (λ r d. Within-pure L F (r ++ d ∷ [], true)) db ctx collection q.join h [])
          (λ (ds, e). reduced_page-Within q ds)

    plain_query-Within : (q : Query) → Within L F (plain_query L db ctx collection q)
    unfolding plain_query
    plain_query-Within q =
        Within-bind L F _ _
          (query_scan-Within L F q.wheres (collect_some L q) (collect_some-Within q) db ctx
            collection q.join h ([], true))
          (λ (r, e). finish-Within q r)

  module _ (global_scripts : Str) where
    answer-Within :
        (db : Database L) (h : QueriesWithin L F db) (ctx : Context) (collection : Str)
        (c : CollectionSchema) (q : Query)
        → Within L F (answer L global_scripts db ctx collection c q)
    unfolding answer
    answer-Within db h ctx collection c q =
        Within-bind L F (authorized L global_scripts ctx c q) _
          (Within-on_vm L F (
            authorize_query L.lo L.js L.marshal global_scripts (request L global_scripts ctx c q)
              c))
          λ allow.
            Within-if L F (not allow) (raise (new forbidden (str "not authorized"))) _
              (Within-raise L F _)
              (Within-if L F (has_aggregate L.lo L.marshal L.valid_query q.select) _ _
                (aggregate-Within db h ctx collection q) (plain_query-Within db h ctx collection q))

    pub query-Within :
        (db : Database L) (h : QueriesWithin L F db) (ctx : Context) (collection : Str) (q : Query)
        → Within L F (query L global_scripts db ctx collection q)
    unfolding query
    query-Within db h ctx collection q =
        Within-bind L F (lift (validate L.lo L.marshal L.valid_query (with_select q))) _
          (Within-lift L F _)
          λ _.
            Within-elim L F (lookup collection db.collections) _ _ (Within-raise L F _)
              λ c. answer-Within db h ctx collection c (with_select q)

    -- A query to any depth, with its scripts and scans, is within the frame.
    pub run_query-Within :
        (n : ℕ) (cs : List (Str × CollectionSchema))
        → QueriesWithin L F (record { collections = cs; query = run_query L global_scripts n cs })
    unfolding run_query
    run_query-Within zero cs = λ ctx collection q. Within-lift L F _
    run_query-Within (suc n) cs = query-Within _ (run_query-Within n cs)
