-- ===== src/Transaction/Queries/Pages.antt =====
-- The pages that queries return: how many documents they have, and which.
use gokvkit.Prelude.{
  ℕ, zero, suc, ◌+◌, ◌≤◌, ◌<◌, ◌≡◌, refl, ap, ltb, lt→ltb, ltb_false→le, length, take, Str, str,
  Bool, true, false, not, List, [], ◌∷◌, ◌==◌, is_empty, lookup, if◌then◌else◌, Bool-cases, inl,
  inr, arith,
}
use gokvkit.Errors.{new, forbidden}
use gokvkit.Errors.Outcome.{ok}
use gokvkit.Errors.Exec.{lift, raise}
use gokvkit.Errors.Gives.{
  Gives, Gives-pure, Gives-raise, Gives-if, Gives-result, Gives-elim, Gives-bind, Gives-after,
  Gives-mono,
}
use gokvkit.Model.Query.{Query, Select}
use gokvkit.Model.Schema.{CollectionSchema}
use gokvkit.Results.Validation.{has_aggregate, validate}
use gokvkit.Transaction.{Libs, Txn, Page, Database, Context}
use gokvkit.Transaction.Scan.{query_scan}
use gokvkit.Transaction.Queries.{
  with_select, cut_off, page_slice, page_of, select_all, selected, finish, collect_some,
  collect_all, reduced, reduced_page, aggregate, plain_query, answer, authorized, query,
}

module _ (L : Libs) where
  open L use {json}
  open json use {Doc}

  -- A page of a query: its count and its number, and no more documents than the limit allows.
  pub record FitsQuery (q : Query) (p : Page L) : Type 0 where
    pub counted : p.count ≡ length p.documents
    pub numbered : p.next_page ≡ q.page + 1
    pub bounded : 0 < q.limit → length p.documents ≤ q.limit

  length-take-le : (n : ℕ) (ds : List Doc) → length (take n ds) ≤ n
  length-take-le zero ds = omega arith
  length-take-le (suc n) [] = omega arith
  length-take-le (suc n) (d ∷ ds) = omega (arith, length-take-le n ds)

  length-cut_off : (q : Query) (ds : List Doc) → 0 < q.limit → length (cut_off L q ds) ≤ q.limit
  unfolding cut_off
  length-cut_off q ds h = rw (lt→ltb 0 q.limit h) (elim (Bool-cases (ltb q.limit (length ds))) [
    | inl e ↦ rw e (length-take-le q.limit ds)
    | inr e ↦ rw e (ltb_false→le q.limit (length ds) e)
  ])

  -- Selecting fields keeps the number of documents.
  select_all-length :
      (ss : List Select) (ds : List Doc)
      → Gives (λ (ds' : List Doc). length ds' ≡ length ds) (select_all L ss ds)
  unfolding select_all
  select_all-length ss [] = Gives-pure _ [] refl
  select_all-length ss (d ∷ ds) = Gives-after _ _ _ λ d'.
      Gives-bind (λ (ds' : List Doc). length ds' ≡ length ds) _ _ _ (select_all-length ss ds)
        λ ds' h. Gives-pure _ (d' ∷ ds') (ap suc h)

  selected-length :
      (ss : List Select) (ds : List Doc)
      → Gives (λ (ds' : List Doc). length ds' ≡ length ds) (selected L ss ds)
  unfolding selected
  selected-length [] ds = Gives-pure _ ds refl
  selected-length (s ∷ ss) ds =
      Gives-if _ (s.field == str "*") _ _ (λ e. Gives-pure _ ds refl)
        (λ e. select_all-length (s ∷ ss) ds)

  page_of-FitsQuery :
      (q : Query) (ds : List Doc)
      → (0 < q.limit → length ds ≤ q.limit)
      → FitsQuery q (page_of L q ds)
  unfolding page_of
  page_of-FitsQuery q ds h = record { counted = refl; numbered = refl; bounded = h }

  finish-FitsQuery : (q : Query) (r : List Doc × Bool) → Gives (FitsQuery q) (finish L q r)
  unfolding finish
  finish-FitsQuery q (ds, full_scan) = Gives-after _ _ _ λ sorted.
      Gives-bind _ _ _ _ (selected-length q.select (cut_off L q (page_slice L q full_scan sorted)))
        λ ds' e.
          Gives-pure _ _ (
            page_of-FitsQuery q ds'
              λ h. rw e (length-cut_off q (page_slice L q full_scan sorted) h))

  reduced_page-FitsQuery : (q : Query) (ds : List Doc) → Gives (FitsQuery q) (reduced_page L q ds)
  unfolding reduced_page
  reduced_page-FitsQuery q ds = Gives-after _ (reduced L q ds) _ λ ds'. Gives-pure _ _ (
      page_of-FitsQuery q (cut_off L q (page_slice L q true ds'))
        (length-cut_off q (page_slice L q true ds')))

  module _ (global_scripts : Str) (db : Database L) (ctx : Context) (collection : Str) where
    -- An answer is that of the aggregation or of the plain query.
    pub answer-Gives :
        (Q : Page L → Type 0) (c : CollectionSchema) (q : Query)
        → (has_aggregate L.lo L.marshal L.valid_query q.select ≡ true
            → Gives Q (aggregate L db ctx collection q))
        → (has_aggregate L.lo L.marshal L.valid_query q.select ≡ false
            → Gives Q (plain_query L db ctx collection q))
        → Gives Q (answer L global_scripts db ctx collection c q)
    unfolding answer
    answer-Gives Q c q ha hp = Gives-after Q (authorized L global_scripts ctx c q) _ λ allow.
        Gives-if Q (not allow) (raise (new forbidden (str "not authorized")))
          (if has_aggregate L.lo L.marshal L.valid_query q.select
            then aggregate L db ctx collection q
            else plain_query L db ctx collection q)
          (λ e. Gives-raise Q _)
          (λ e.
            Gives-if Q (has_aggregate L.lo L.marshal L.valid_query q.select)
              (aggregate L db ctx collection q) (plain_query L db ctx collection q) ha hp)

    pub query-Gives :
        (Q : Page L → Type 0) (q : Query)
        → ((c : CollectionSchema)
            → Gives Q (answer L global_scripts db ctx collection c (with_select q)))
        → Gives Q (query L global_scripts db ctx collection q)
    unfolding query
    query-Gives Q q h =
        Gives-after Q (lift (validate L.lo L.marshal L.valid_query (with_select q))) _
          λ _. Gives-elim Q (lookup collection db.collections) _ _ (Gives-raise Q _) λ c e. h c

    answer-FitsQuery :
        (c : CollectionSchema) (q : Query)
        → Gives (FitsQuery q) (answer L global_scripts db ctx collection c q)
    unfolding aggregate plain_query
    answer-FitsQuery c q =
        answer-Gives (FitsQuery q) c q
          (λ e.
            Gives-after (FitsQuery q)
              (query_scan L db ctx collection q.wheres q.join (collect_all L) []) _
              (λ (ds, x). reduced_page-FitsQuery q ds))
          (λ e.
            Gives-after (FitsQuery q)
              (query_scan L db ctx collection q.wheres q.join (collect_some L q) ([], true)) _
              (λ (r, x). finish-FitsQuery q r))

    -- A default select changes neither the page nor the limit.
    with_select-FitsQuery : (q : Query) (p : Page L) → FitsQuery (with_select q) p → FitsQuery q p
    unfolding with_select
    with_select-FitsQuery q p = elim (Bool-cases (is_empty q.select)) [
      | inl e ↦
          rw e (λ h. record { counted = h.counted; numbered = h.numbered; bounded = h.bounded })
      | inr e ↦ rw e (λ h. h)
    ]

    query-FitsQuery : (q : Query) → Gives (FitsQuery q) (query L global_scripts db ctx collection q)
    query-FitsQuery q = query-Gives (FitsQuery q) q λ c.
        Gives-mono (FitsQuery (with_select q)) (FitsQuery q) _ (with_select-FitsQuery q)
          (answer-FitsQuery c (with_select q))

    -- The page that a query returns counts its documents and has the number after the query's; a limit
    -- above 0 is never exceeded, also by groups.
    pub query_fits :
        (q : Query) (t u : Txn L) (p : Page L)
        → query L global_scripts db ctx collection q t ≡ (ok p, u)
        → FitsQuery q p
    query_fits q t u p = Gives-result _ _ t u p (query-FitsQuery q)
