-- ===== src/Transaction/Queries/Matching.antt =====
-- Which documents a query returns: those that its where clauses accept.
use gokvkit.Prelude.{
  ◌+◌, ◌*◌, ◌≡◌, refl, ap, ◌∙◌, subst, ltb, length, Str, str, Bool, true, false, ◌&&◌, List, [],
  ◌∷◌, ◌++◌, ◌==◌, ==_refl, is_empty, All, All-append, All-take, All-drop, lookup, if◌then◌else◌,
  Bool-cases, inl, inr,
}
use gokvkit.Errors.Outcome.{Outcome, ok}
use gokvkit.Errors.Exec.{Exec, pure, lift, ◌>>=◌}
use gokvkit.Errors.Gives.{
  Gives, Gives-pure, Gives-raise, Gives-lift, Gives-if, Gives-result, Gives-elim, Gives-bind,
  Gives-after,
}
use gokvkit.Model.Query.{Where, Join, Query, Select, OrderBy}
use gokvkit.Model.Schema.{CollectionSchema}
use gokvkit.Optimizer.{Explain, optimize}
use gokvkit.Document.{where_clauses}
use gokvkit.Results.Validation.{has_aggregate}
use gokvkit.Results.Ordering.{order_by_docs, less}
use gokvkit.Transaction.{Libs, Txn, Page, Database, Context, on_store}
use gokvkit.Transaction.Scan.{
  all_fields, iter_opts, find_document, compute_fields, join_all, visit_documents, scan_entries,
  query_scan,
}
use gokvkit.Transaction.Queries.{
  with_select, at_limit, cut_off, page_slice, page_of, selected, finish, collect_some, plain_query,
  answer, query,
}
use gokvkit.Transaction.Queries.Pages.{answer-Gives, query-Gives}

module _ (L : Libs) where
  -- The where clauses accept a document.
  abbrev pub Accepted : List Where → L.json.Doc → Type 0
  Accepted wheres d = where_clauses L.lo L.json L.cast L.matches wheres d ≡ ok true

  -- Sorting invents no documents.
  abbrev pub SortKeeps : Type 1
  SortKeeps =
      (before : L.json.Doc → L.json.Doc → Outcome Bool) (ds ds' : List L.json.Doc)
      → L.sort before ds ≡ ok ds'
      → (P : L.json.Doc → Type 0) → All P ds
      → All P ds'

module _ {R : Type 0} (L : Libs) (wheres : List Where)
    (fn : R → L.json.Doc → Exec (Txn L) (R × Bool)) (I : R → Type 0)
    (step : (r : R) (d : L.json.Doc)
      → Accepted L wheres d
      → I r
      → Gives (λ (x : R × Bool). I x.0) (fn r d)) where
  visit_documents-Gives :
      (ds : List L.json.Doc) (r : R)
      → I r
      → Gives (λ (x : R × Bool). I x.0) (visit_documents L wheres fn ds r)
  unfolding visit_documents
  visit_documents-Gives [] r h = Gives-pure _ (r, true) h
  visit_documents-Gives (d ∷ ds) r h =
      Gives-bind (λ pass. where_clauses L.lo L.json L.cast L.matches wheres d ≡ ok pass)
        (λ x. I x.0) (lift (where_clauses L.lo L.json L.cast L.matches wheres d)) _
        (Gives-lift _ _ (λ a e. e))
        λ pass e.
          Gives-if (λ x. I x.0) pass
            (fn r d >>= λ (r', on).
              if on then visit_documents L wheres fn ds r' else pure (r', false))
            (visit_documents L wheres fn ds r)
            (λ t.
              Gives-bind (λ x. I x.0) (λ x. I x.0) (fn r d) _ (step r d (e ∙ ap ok t) h)
                λ (r', on) h'.
                  Gives-if (λ x. I x.0) on (visit_documents L wheres fn ds r') (pure (r', false))
                    (λ _. visit_documents-Gives ds r' h') (λ _. Gives-pure _ (r', false) h'))
            (λ _. visit_documents-Gives ds r h)

  scan_entries-Gives :
      (db : Database L) (ctx : Context) (c : CollectionSchema) (primary : Bool) (joins : List Join)
      (es : List (Str × Str)) (r : R)
      → I r
      → Gives (λ (x : R × Bool). I x.0) (scan_entries L db ctx c primary wheres joins fn es r)
  unfolding scan_entries
  scan_entries-Gives db ctx c primary joins [] r h = Gives-pure _ (r, true) h
  scan_entries-Gives db ctx c primary joins (e ∷ es) r h =
      Gives-after (λ x. I x.0) (find_document L db ctx c.collection primary e) _
        λ d.
          Gives-after (λ x. I x.0) (compute_fields L c.property_paths d) _
            λ d'.
              Gives-after (λ x. I x.0) (join_all L db ctx joins (d' ∷ [])) _
                λ docs.
                  Gives-bind (λ x. I x.0) (λ x. I x.0) (visit_documents L wheres fn docs r) _
                    (visit_documents-Gives docs r h)
                    λ (r', on) h'.
                      Gives-if (λ x. I x.0) on
                        (scan_entries L db ctx c primary wheres joins fn es r') (pure (r', false))
                        (λ _. scan_entries-Gives db ctx c primary joins es r' h')
                        (λ _. Gives-pure _ (r', false) h')

  -- What each accepted document keeps true is true after the scan.
  query_scan-Gives :
      (db : Database L) (ctx : Context) (collection : Str) (joins : List Join) (r : R)
      → I r
      → Gives (λ (x : R × Explain). I x.0) (query_scan L db ctx collection wheres joins fn r)
  unfolding query_scan
  query_scan-Gives db ctx collection joins r h =
      Gives-elim (λ x. I x.0) (lookup collection db.collections) _ _ (Gives-raise _ _)
        λ c _.
          Gives-after (λ x. I x.0) (lift (optimize L.lo c wheres)) _
            λ e.
              Gives-after (λ x. I x.0) (on_store L (L.kv.scan (iter_opts L ctx collection e))) _
                λ entries.
                  Gives-bind (λ x. I x.0) (λ x. I x.0)
                    (scan_entries L db ctx c e.index.primary wheres joins fn entries r) _
                    (scan_entries-Gives db ctx c e.index.primary joins entries r h)
                    λ (r', on) h'. Gives-pure _ _ h'

-- The selects take over the whole documents.
abbrev pub selects_all : List Select → Bool
selects_all [] = true
selects_all (s ∷ ss) = s.field == str "*"

module _ (L : Libs) (sorting : SortKeeps L) where
  open L use {json}
  open json use {Doc}

  cut_off-All : (P : Doc → Type 0) (q : Query) (ds : List Doc) → All P ds → All P (cut_off L q ds)
  unfolding cut_off
  cut_off-All P q ds h = elim (Bool-cases (ltb 0 q.limit && ltb q.limit (length ds))) [
    | inl e ↦ rw e (All-take P q.limit ds h)
    | inr e ↦ rw e h
  ]

  page_slice-All :
      (P : Doc → Type 0) (q : Query) (full_scan : Bool) (ds : List Doc)
      → All P ds
      → All P (page_slice L q full_scan ds)
  unfolding page_slice
  page_slice-All P q full_scan ds h =
      elim (Bool-cases (full_scan && (ltb 0 q.limit && ltb 0 q.page))) [
        | inl e ↦
            rw (e, L.lo.slice_lem Doc ds (q.limit * q.page) (q.limit * q.page + q.limit))
              (All-take P _ _ (All-drop P (q.limit * q.page) ds h))
        | inr e ↦ rw e h
      ]

  order_by_docs-All :
      (P : Doc → Type 0) (ds ds' : List Doc) (os : List OrderBy)
      → order_by_docs json L.cast L.sort ds os ≡ ok ds'
      → All P ds
      → All P ds'
  unfolding order_by_docs
  order_by_docs-All P ds ds' [] e h = subst (All P) (let same : ds ≡ ds' = cc in same) h
  order_by_docs-All P ds ds' (o ∷ os) e h = sorting (less json L.cast o os) ds ds' e P h

  selected-All :
      (P : Doc → Type 0) (ss : List Select) (ds : List Doc)
      → selects_all ss ≡ true
      → All P ds
      → Gives (All P) (selected L ss ds)
  unfolding selected
  selected-All P [] ds e h = Gives-pure (All P) ds h
  selected-All P (s ∷ ss) ds e h = rw e (Gives-pure (All P) ds h)

  finish-All :
      (P : Doc → Type 0) (q : Query) (r : List Doc × Bool)
      → selects_all q.select ≡ true
      → All P r.0
      → Gives (λ (p : Page L). All P p.documents) (finish L q r)
  unfolding finish page_of
  finish-All P q (ds, full_scan) e h =
      Gives-bind (All P) (λ (p : Page L). All P p.documents) _ _
        (Gives-lift (All P) (order_by_docs json L.cast L.sort ds q.order_by)
          (λ ds' x. order_by_docs-All P ds ds' q.order_by x h))
        λ sorted hs.
          Gives-bind (All P) (λ (p : Page L). All P p.documents) _ _
            (selected-All P q.select (cut_off L q (page_slice L q full_scan sorted)) e
              (cut_off-All P q _ (page_slice-All P q full_scan sorted hs)))
            (λ ds' h'. Gives-pure _ (page_of L q ds') h')

  AllAccepted : Query → Page L → Type 0
  AllAccepted q p = All (Accepted L q.wheres) p.documents

  collect_some-Gives :
      (q : Query) (r : List Doc × Bool) (d : Doc)
      → Accepted L q.wheres d
      → All (Accepted L q.wheres) r.0
      → Gives
          (λ (x : (List Doc × Bool) × Bool). All (Accepted L q.wheres) x.0.0)
          (collect_some L q r d)
  unfolding collect_some
  collect_some-Gives q (ds, full_scan) d a h =
      let more : All (Accepted L q.wheres) (ds ++ d ∷ []) =
        All-append (Accepted L q.wheres) ds (d ∷ []) h (a, tt) in
      Gives-if (λ x. All (Accepted L q.wheres) x.0.0) (at_limit q (length (ds ++ d ∷ [])))
        (pure ((ds ++ d ∷ [], false), false)) (pure ((ds ++ d ∷ [], full_scan), true))
        (λ _. Gives-pure _ _ more) (λ _. Gives-pure _ _ more)

  module _ (global_scripts : Str) (db : Database L) (ctx : Context) (collection : Str) where
    plain_query-Gives :
        (q : Query)
        → selects_all q.select ≡ true
        → Gives (AllAccepted q) (plain_query L db ctx collection q)
    unfolding plain_query AllAccepted
    plain_query-Gives q e =
        Gives-bind (λ (x : (List Doc × Bool) × Explain). All (Accepted L q.wheres) x.0.0)
          (AllAccepted q)
          (query_scan L db ctx collection q.wheres q.join (collect_some L q) ([], true)) _
          (query_scan-Gives L q.wheres (collect_some L q) (λ r. All (Accepted L q.wheres) r.0)
            (collect_some-Gives q) db ctx collection q.join ([], true) tt)
          (λ (r, x) h. finish-All (Accepted L q.wheres) q r e h)

    answer-AllAccepted :
        (c : CollectionSchema) (q : Query)
        → selects_all q.select ≡ true
        → has_aggregate L.lo L.marshal L.valid_query q.select ≡ false
        → Gives (AllAccepted q) (answer L global_scripts db ctx collection c q)
    answer-AllAccepted c q e n =
        answer-Gives L global_scripts db ctx collection (AllAccepted q) c q (λ a. cc)
          (λ _. plain_query-Gives q e)

    -- A query without aggregates that selects whole documents returns documents that its where clauses
    -- accept, and no others, if sorting invents none.
    pub query-Accepted :
        (q : Query) (t u : Txn L) (p : Page L)
        → selects_all q.select ≡ true
        → has_aggregate L.lo L.marshal L.valid_query q.select ≡ false
        → query L global_scripts db ctx collection q t ≡ (ok p, u)
        → All (Accepted L q.wheres) p.documents
    unfolding with_select AllAccepted
    query-Accepted q t u p e n h =
        Gives-result (AllAccepted q) (query L global_scripts db ctx collection q) t u p
          (query-Gives L global_scripts db ctx collection (AllAccepted q) q λ c.
            elim (Bool-cases (is_empty q.select)) [
              | inl s ↦
                  rw s (
                    answer-AllAccepted c (record q { select = all_fields }) (==_refl (str "*"))
                      refl)
              | inr s ↦ rw s (answer-AllAccepted c q e n)
            ])
          h
