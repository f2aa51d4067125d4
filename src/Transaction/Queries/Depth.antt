-- ===== src/Transaction/Queries/Depth.antt =====
-- How deep the queries go that a query makes: for its joins, and below these for the documents of
-- index entries, which are looked up by their primary keys.
use gokvkit.Prelude.{
  ℕ, zero, suc, ◌≡◌, refl, sym, ap, subst, ◌∙◌, Str, str, Bool, true, List, [], ◌∷◌, ==_refl,
  is_empty, some, lookup, Bool-cases, inl, inr,
}
use mathlib.Core.Path.{fun_ext}
use gokvkit.Errors.{GoError, not_found}
use gokvkit.Errors.Outcome.{Outcome, ok, fail, panic}
use gokvkit.Errors.Exec.{Exec, ◌>>=◌}
use gokvkit.Model.Query.{Where, Join, Query}
use gokvkit.Model.Schema.{CollectionSchema, primary_key_lem}
use gokvkit.Optimizer.{Explain, optimize, optimize_fields, optimize_where, by_primary_key}
use gokvkit.Indexing.{split, last_segment}
use gokvkit.Transaction.Scan.{
  select_where, get_document, find_document, join_clauses, join_one, join_all, merge_results, found,
}
use gokvkit.Transaction.SecondaryIndex.{by_id}
use gokvkit.Transaction.Queries.{query, run_query}
use gokvkit.Transaction.{Libs, Txn, Page, Context, wrapping}
use gokvkit.Transaction.Queries.Congruence.{QueryFn, over, Same, elim-cong, query-cong}

module _ (L : Libs) (cs : List (Str × CollectionSchema)) where
  open L use {json}
  open json use {Doc}

  -- A query by the primary key is answered from the primary index.
  optimize_by_key :
      (c : CollectionSchema) (id : Str) (e : Explain)
      → optimize L.lo c (by_id c id).wheres ≡ ok e
      → e.index ≡ c.primary_index
  unfolding optimize optimize_fields optimize_where by_primary_key
  optimize_by_key c id e h = go c.primary_index.fields refl h
    where
      go :
          (fields : List Str)
          → c.primary_index.fields ≡ fields
          → optimize_fields L.lo c fields (by_id c id).wheres ≡ ok e
          → e.index ≡ c.primary_index
      go [] f h = cc
      go (key ∷ keys) f h = elim (Bool-cases (is_empty c.indexing)) [
        | inl x ↦ absurd (failed (rw x at h))
        | inr x ↦
            ap (λ e. elim e [ ok a ↦ a.index | fail x ↦ c.primary_index | panic ↦ c.primary_index ])
              (sym (rw (x, primary_key_lem c key keys f, ==_refl key) at h))
      ]
        where
          failed : {m : GoError} → ◌≡◌ {A = Outcome Explain} (fail m) (ok e) → ⊥
          failed q = cc

  module _ (gs : Str)
      (prim : (k : Str) (c : CollectionSchema)
        → lookup k cs ≡ some c
        → c.primary_index.primary ≡ true) where
    key-Same :
        (f g : QueryFn L cs) (ctx : Context) (collection : Str) (c : CollectionSchema) (id : Str)
        → lookup collection cs ≡ some c
        → Same L cs f g ctx collection (by_id c id).wheres []
    unfolding find_document join_all
    key-Same f g ctx collection c id l = (
      (λ c' e l' o x.
          let same : c' ≡ c = cc in
          let i : e.index.primary ≡ true =
            ap (λ i. i.primary)
              (optimize_by_key c id e
                (subst (λ z. optimize L.lo z (by_id c id).wheres ≡ ok e) same o))
            ∙ prim collection c l in
          rw i refl),
      (λ ds. refl),
    )

    -- Queries to a depth, with any function in the place of the queries below it
    abbrev pub at_depth : ℕ → QueryFn L cs → QueryFn L cs
    at_depth zero below = below
    at_depth (suc n) below = query L gs (over L cs (at_depth n below))

    get_document-at_depth :
        (f g : QueryFn L cs) (ctx : Context) (collection id : Str)
        → get_document L (over L cs (at_depth 1 f)) ctx collection id
          ≡ get_document L (over L cs (at_depth 1 g)) ctx collection id
    unfolding get_document
    get_document-at_depth f g ctx collection id = elim-cong (lookup collection cs) _ _ _ λ c l.
        ap (λ (m : Exec (Txn L) (Page L)). wrapping L not_found (str "not found") m >>= found L)
          (query-cong L cs gs f g ctx collection (record (by_id c id) { select = [] })
            (key-Same f g ctx collection c id l))

    find_document-at_depth :
        (f g : QueryFn L cs) (ctx : Context) (collection : Str) (primary : Bool) (x : Str × Str)
        → find_document L (over L cs (at_depth 1 f)) ctx collection primary x
          ≡ find_document L (over L cs (at_depth 1 g)) ctx collection primary x
    unfolding find_document
    find_document-at_depth f g ctx collection primary x = elim (Bool-cases primary) [
      | inl e ↦ rw e refl
      | inr e ↦ rw (e, get_document-at_depth f g ctx collection (last_segment (split x.0))) refl
    ]

    query-at_depth-2 :
        (f g : QueryFn L cs) (ctx : Context) (collection : Str) (wheres : List Where)
        → at_depth 2 f ctx collection (select_where wheres 0)
          ≡ at_depth 2 g ctx collection (select_where wheres 0)
    unfolding join_all
    query-at_depth-2 f g ctx collection wheres =
        query-cong L cs gs (at_depth 1 f) (at_depth 1 g) ctx collection (select_where wheres 0) (
          (λ c e l o x. find_document-at_depth f g ctx c.collection e.index.primary x),
          (λ ds. refl),
        )

    join_one-at_depth :
        (f g : QueryFn L cs) (ctx : Context) (j : Join) (ds : List Doc)
        → join_one L (over L cs (at_depth 2 f)) ctx j ds
          ≡ join_one L (over L cs (at_depth 2 g)) ctx j ds
    unfolding join_one
    join_one-at_depth f g ctx j [] = refl
    join_one-at_depth f g ctx j (d ∷ ds) =
        ap
          (λ (m : Exec (Txn L) (Page L)).
            m >>= λ p. merge_results L j.as_name p.documents 0 (d ∷ ds))
          (query-at_depth-2 f g ctx j.collection (join_clauses L d j.on))

    join_all-at_depth :
        (f g : QueryFn L cs) (ctx : Context) (joins : List Join) (ds : List Doc)
        → join_all L (over L cs (at_depth 2 f)) ctx joins ds
          ≡ join_all L (over L cs (at_depth 2 g)) ctx joins ds
    unfolding join_all
    join_all-at_depth f g ctx [] ds = refl
    join_all-at_depth f g ctx (j ∷ joins) ds =
        ap (λ (m : Exec (Txn L) (List Doc)). m >>= join_all L (over L cs (at_depth 2 f)) ctx joins)
          (join_one-at_depth f g ctx j ds)
        ∙ ap
            (λ (rest : List Doc → Exec (Txn L) (List Doc)).
              join_one L (over L cs (at_depth 2 g)) ctx j ds >>= rest)
            (fun_ext (join_all-at_depth f g ctx joins))

    query-at_depth-3 :
        (f g : QueryFn L cs) (ctx : Context) (collection : Str) (q : Query)
        → at_depth 3 f ctx collection q ≡ at_depth 3 g ctx collection q
    query-at_depth-3 f g ctx collection q =
        query-cong L cs gs (at_depth 2 f) (at_depth 2 g) ctx collection q (
          (λ c e l o x.
              find_document-at_depth (at_depth 1 f) (at_depth 1 g) ctx c.collection e.index.primary
                x),
          join_all-at_depth f g ctx q.join,
        )

    run_query-at_depth : (n : ℕ) → run_query L gs n cs ≡ at_depth n (run_query L gs 0 cs)
    unfolding run_query
    run_query-at_depth zero = refl
    run_query-at_depth (suc n) = ap (λ run. query L gs (over L cs run)) (run_query-at_depth n)

    -- Where the primary index of each collection is marked as primary, a query makes queries that make
    -- queries, and these make none: a bound of three or more gives the same result, and the same as
    -- with any other function in the place of the queries below the third level.
    pub run_query-at_depth-3 :
        (n : ℕ) (below : QueryFn L cs) (ctx : Context) (collection : Str) (q : Query)
        → run_query L gs (suc (suc (suc n))) cs ctx collection q ≡ at_depth 3 below ctx collection q
    run_query-at_depth-3 n below ctx collection q =
        ap (λ (run : QueryFn L cs). run ctx collection q) (run_query-at_depth (suc (suc (suc n))))
        ∙ query-at_depth-3 (at_depth n (run_query L gs 0 cs)) below ctx collection q
