-- ===== src/Transaction/Queries/Congruence.antt =====
-- Queries over two databases that answer in the same way the queries that these make.
use gokvkit.Prelude.{
  ◌≡◌, refl, ap, ◌∙◌, Str, Bool, true, false, List, [], ◌∷◌, is_empty, Option, none, some, lookup,
  if◌then◌else◌, Bool-cases, inl, inr,
}
use mathlib.Core.Path.{fun_ext}
use gokvkit.Errors.Outcome.{Outcome, ok, fail, panic}
use gokvkit.Errors.Exec.{Exec, pure, lift, ◌>>=◌}
use gokvkit.Model.Query.{Where, Join, Query}
use gokvkit.Model.Schema.{CollectionSchema}
use gokvkit.Optimizer.{Explain, optimize}
use gokvkit.Transaction.Scan.{
  find_document, join_all, compute_fields, iter_opts, no_explain, visit_documents, scan_entries,
  query_scan,
}
use gokvkit.Results.Validation.{validate}
use gokvkit.Transaction.Queries.{
  collect_all, collect_some, with_select, aggregate, plain_query, answer, query,
}
use gokvkit.Transaction.{Libs, Txn, Page, Database, Context, on_store}

module _ {A B S : Type 0} where
  -- Two blocks that go on in the same way from each result that there is.
  lift-cong :
      (o : Outcome A) (f g : A → Exec S B)
      → ((a : A) → o ≡ ok a → f a ≡ g a)
      → (lift o >>= f) ≡ (lift o >>= g)
  lift-cong (ok a) f g h = h a refl
  lift-cong (fail e) f g h = refl
  lift-cong panic f g h = refl

module _ {A B : Type 0} where
  pub elim-cong :
      (o : Option A) (z : B) (f g : A → B)
      → ((a : A) → o ≡ some a → f a ≡ g a)
      → elim o [ none ↦ z | some a ↦ f a ] ≡ elim o [ none ↦ z | some a ↦ g a ]
  elim-cong none z f g h = refl
  elim-cong (some a) z f g h = h a refl

module _ {R : Type 0} (L : Libs) (db db' : Database L) where
  -- A round of the loop over the entries
  abbrev round :
      CollectionSchema
      → List Where
      → (R → L.json.Doc → Exec (Txn L) (R × Bool))
      → R
      → Exec (Txn L) L.json.Doc
      → (List L.json.Doc → Exec (Txn L) (List L.json.Doc))
      → (R → Exec (Txn L) (R × Bool))
      → Exec (Txn L) (R × Bool)
  round c wheres fn r find join rest = find >>= λ d. compute_fields L c.property_paths d >>= λ d'.
      join (d' ∷ []) >>= λ docs.
      visit_documents L wheres fn docs r >>= λ (r', on). if on then rest r' else pure (r', false)

  scan_entries-cong :
      (ctx : Context) (c : CollectionSchema) (primary : Bool) (wheres : List Where)
      (joins : List Join) (fn : R → L.json.Doc → Exec (Txn L) (R × Bool))
      → ((e : Str × Str)
          → find_document L db ctx c.collection primary e
            ≡ find_document L db' ctx c.collection primary e)
      → ((ds : List L.json.Doc) → join_all L db ctx joins ds ≡ join_all L db' ctx joins ds)
      → (es : List (Str × Str)) (r : R)
      → scan_entries L db ctx c primary wheres joins fn es r
        ≡ scan_entries L db' ctx c primary wheres joins fn es r
  unfolding scan_entries
  scan_entries-cong ctx c primary wheres joins fn hf hj [] r = refl
  scan_entries-cong ctx c primary wheres joins fn hf hj (e ∷ es) r =
      ap
        (λ x.
          round c wheres fn r x (join_all L db ctx joins)
            (scan_entries L db ctx c primary wheres joins fn es))
        (hf e)
      ∙ ap
          (λ x.
            round c wheres fn r (find_document L db' ctx c.collection primary e) x
              (scan_entries L db ctx c primary wheres joins fn es))
          (fun_ext hj)
      ∙ ap
          (round c wheres fn r (find_document L db' ctx c.collection primary e)
            (join_all L db' ctx joins))
          (fun_ext (scan_entries-cong ctx c primary wheres joins fn hf hj es))

module _ (L : Libs) (cs : List (Str × CollectionSchema)) where
  open L use {json}
  open json use {Doc}

  abbrev pub QueryFn : Type 0
  QueryFn = Context → Str → Query → Exec (Txn L) (Page L)

  abbrev pub over : QueryFn → Database L
  over run = record { collections = cs; query = run }

  -- Two ways to look up documents and to join, which come to the same for a query.
  abbrev pub Same : QueryFn → QueryFn → Context → Str → List Where → List Join → Type 0
  Same run run' ctx collection wheres joins =
      ((c : CollectionSchema) (e : Explain)
        → lookup collection cs ≡ some c
        → optimize L.lo c wheres ≡ ok e
        → (x : Str × Str)
        → find_document L (over run) ctx c.collection e.index.primary x
          ≡ find_document L (over run') ctx c.collection e.index.primary x)
      × ((ds : List Doc) → join_all L (over run) ctx joins ds ≡ join_all L (over run') ctx joins ds)

  query_scan-cong :
      {R : Type 0} (run run' : QueryFn) (ctx : Context) (collection : Str) (wheres : List Where)
      (joins : List Join) (fn : R → Doc → Exec (Txn L) (R × Bool)) (r : R)
      → Same run run' ctx collection wheres joins
      → query_scan L (over run) ctx collection wheres joins fn r
        ≡ query_scan L (over run') ctx collection wheres joins fn r
  unfolding query_scan
  query_scan-cong {R} run run' ctx collection wheres joins fn r h =
      elim-cong (lookup collection cs) _ _ _ λ c e. lift-cong (optimize L.lo c wheres) _ _ λ x o.
        ap
          (λ (rest : List (Str × Str) → Exec (Txn L) (R × Bool)).
            on_store L (L.kv.scan (iter_opts L ctx collection x)) >>= λ entries.
            rest entries >>= λ (r', on). pure (r', (if on then x else no_explain)))
          (fun_ext λ entries.
            scan_entries-cong L (over run) (over run') ctx c x.index.primary wheres joins fn
              (h.0 c x e o) h.1 entries r)

  module _ (gs : Str) where
    answer-cong :
        (run run' : QueryFn) (ctx : Context) (collection : Str) (c : CollectionSchema) (q : Query)
        → Same run run' ctx collection q.wheres q.join
        → answer L gs (over run) ctx collection c q ≡ answer L gs (over run') ctx collection c q
    unfolding answer aggregate plain_query
    answer-cong run run' ctx collection c q h =
        rw
          (
            query_scan-cong run run' ctx collection q.wheres q.join (collect_all L) [] h,
            query_scan-cong run run' ctx collection q.wheres q.join (collect_some L q) ([], true) h,
          )
          refl

    with_select-Same :
        (run run' : QueryFn) (ctx : Context) (collection : Str) (q : Query)
        → Same run run' ctx collection q.wheres q.join
        → Same run run' ctx collection (with_select q).wheres (with_select q).join
    unfolding with_select
    with_select-Same run run' ctx collection q h = elim (Bool-cases (is_empty q.select)) [
      | inl e ↦ rw e h
      | inr e ↦ rw e h
    ]

    pub query-cong :
        (run run' : QueryFn) (ctx : Context) (collection : Str) (q : Query)
        → Same run run' ctx collection q.wheres q.join
        → query L gs (over run) ctx collection q ≡ query L gs (over run') ctx collection q
    unfolding query
    query-cong run run' ctx collection q h =
        ap
          (λ (rest : Exec (Txn L) (Page L)).
            lift (validate L.lo L.marshal L.valid_query (with_select q)) >>= λ _. rest)
          (elim-cong (lookup collection cs) _ _ _ λ c e.
            answer-cong run run' ctx collection c (with_select q)
              (with_select-Same run run' ctx collection q h))
