-- ===== src/Transaction/Scan/Reading.antt =====
-- A scan reads: with the queries that it makes, it is within each frame.
use gokvkit.Prelude.{
  ℕ, zero, suc, ltb, nat_eq, length, Str, str, Bool, List, [], ◌∷◌, Option, none, some, lookup,
}
use gokvkit.Errors.{not_found, new, internal}
use gokvkit.Errors.Exec.{Exec, pure, raise}
use gokvkit.Model.Query.{Where, Join, Query}
use gokvkit.Model.Schema.{CollectionSchema, SchemaProperty, ComputedField}
use gokvkit.Transaction.{Libs, Txn, Page, Database, Context, on_vm}
use gokvkit.Transaction.Frame.{
  Frame, Within, Within-pure, Within-lift, Within-raise, Within-on_vm, Within-scan, Within-elim,
  Within-bind, Within-wrapping, Within-if,
}
use gokvkit.Transaction.Scan.{
  first_document, compute_value, compute_fields, found, get_document, find_document, merge_at,
  merge_copy, merge_results, join_one, join_all, visit_documents, scan_entries, query_scan,
}

module _ (L : Libs) (F : Frame L) where
  open L use {json, js, kv}
  open json use {Doc}

  compute_value-Within :
      (p : Str) (c : Option ComputedField) (d : Doc) → Within L F (compute_value L p c d)
  unfolding compute_value
  compute_value-Within p none d = Within-pure L F _
  compute_value-Within p (some c) d =
      Within-if L F c.read _ (pure d)
        (Within-bind L F _ _
          (Within-wrapping L F internal (str "failed to compute field")
            (on_vm L (js.run_string c.expr)) (Within-on_vm L F (js.run_string c.expr)))
          (λ v. Within-lift L F _))
        (Within-pure L F _)

  compute_fields-Within :
      (ps : List (Str × SchemaProperty)) (d : Doc) → Within L F (compute_fields L ps d)
  unfolding compute_fields
  compute_fields-Within [] d = Within-pure L F _
  compute_fields-Within ((p, v) ∷ ps) d =
      Within-bind L F _ _ (compute_value-Within p v.compute d) (compute_fields-Within ps)

  merge_at-Within :
      (name : Str) (r : Doc) (i : ℕ) (ds : List Doc) → Within L F (merge_at L name r i ds)
  unfolding merge_at
  merge_at-Within name r i [] = Within-pure L F _
  merge_at-Within name r zero (d ∷ ds) =
      Within-bind L F _ _ (Within-lift L F _) (λ d'. Within-pure L F _)
  merge_at-Within name r (suc i) (d ∷ ds) =
      Within-bind L F _ _ (merge_at-Within name r i ds) (λ ds'. Within-pure L F _)

  merge_copy-Within : (name : Str) (r : Doc) (ds : List Doc) → Within L F (merge_copy L name r ds)
  unfolding merge_copy
  merge_copy-Within name r [] = Within-lift L F _
  merge_copy-Within name r (d ∷ ds) =
      Within-bind L F _ _ (Within-lift L F _) (λ d'. Within-pure L F _)

  merge_results-Within :
      (name : Str) (rs : List Doc) (i : ℕ) (ds : List Doc)
      → Within L F (merge_results L name rs i ds)
  unfolding merge_results
  merge_results-Within name [] i ds = Within-pure L F _
  merge_results-Within name (r ∷ rs) i ds =
      Within-bind L F _ _
        (Within-if L F (ltb i (length ds)) _ _ (merge_at-Within name r i ds)
          (merge_copy-Within name r ds))
        (λ ds'. merge_results-Within name rs _ ds')

  -- The queries of the database are within the frame.
  abbrev pub QueriesWithin : Database L → Type 0
  QueriesWithin db = (ctx : Context) (c : Str) (q : Query) → Within L F (db.query ctx c q)

  first_document-Within : (ds : List Doc) → Within L F (first_document L ds)
  unfolding first_document
  first_document-Within [] = Within-lift L F _
  first_document-Within (d ∷ ds) = Within-pure L F _

  found-Within : (p : Page L) → Within L F (found L p)
  unfolding found
  found-Within p =
      Within-if L F (nat_eq p.count 0) (raise (new not_found (str "not found")))
        (first_document L p.documents) (Within-raise L F _) (first_document-Within p.documents)

  module _ (db : Database L) (queries : QueriesWithin db) (ctx : Context) where
    pub get_document-Within :
        (collection id : Str) → Within L F (get_document L db ctx collection id)
    unfolding get_document
    get_document-Within collection id =
        Within-elim L F (lookup collection db.collections) _ _ (Within-raise L F _) λ c.
          Within-bind L F _ _ (Within-wrapping L F not_found _ _ (queries ctx collection _))
            found-Within

    find_document-Within :
        (collection : Str) (primary : Bool) (e : Str × Str)
        → Within L F (find_document L db ctx collection primary e)
    unfolding find_document
    find_document-Within collection primary (k, v) =
        Within-if L F primary _ _ (Within-lift L F _) (get_document-Within collection _)

    join_one-Within : (j : Join) (ds : List Doc) → Within L F (join_one L db ctx j ds)
    unfolding join_one
    join_one-Within j [] = Within-lift L F _
    join_one-Within j (d ∷ ds) =
        Within-bind L F _ _ (queries ctx j.collection _)
          (λ p. merge_results-Within j.as_name p.documents 0 (d ∷ ds))

    join_all-Within : (joins : List Join) (ds : List Doc) → Within L F (join_all L db ctx joins ds)
    unfolding join_all
    join_all-Within [] ds = Within-pure L F _
    join_all-Within (j ∷ joins) ds =
        Within-bind L F _ _ (join_one-Within j ds) (join_all-Within joins)

module _ {R : Type 0} (L : Libs) (F : Frame L) (wheres : List Where)
    (fn : R → L.json.Doc → Exec (Txn L) (R × Bool))
    (visits : (r : R) (d : L.json.Doc) → Within L F (fn r d)) where
  visit_documents-Within :
      (ds : List L.json.Doc) (r : R) → Within L F (visit_documents L wheres fn ds r)
  unfolding visit_documents
  visit_documents-Within [] r = Within-pure L F _
  visit_documents-Within (d ∷ ds) r = Within-bind L F _ _ (Within-lift L F _) λ pass.
      Within-if L F pass _ (visit_documents L wheres fn ds r)
        (Within-bind L F _ _ (visits r d) λ (r', on).
          Within-if L F on (visit_documents L wheres fn ds r') _ (visit_documents-Within ds r')
            (Within-pure L F _))
        (visit_documents-Within ds r)

  scan_entries-Within :
      (db : Database L) (ctx : Context) (c : CollectionSchema) (primary : Bool) (joins : List Join)
      → QueriesWithin L F db
      → (es : List (Str × Str)) (r : R)
      → Within L F (scan_entries L db ctx c primary wheres joins fn es r)
  unfolding scan_entries
  scan_entries-Within db ctx c primary joins q [] r = Within-pure L F _
  scan_entries-Within db ctx c primary joins q (e ∷ es) r =
      Within-bind L F _ _ (find_document-Within L F db q ctx c.collection primary e) λ d.
        Within-bind L F _ _ (compute_fields-Within L F c.property_paths d) λ d'.
          Within-bind L F _ _ (join_all-Within L F db q ctx joins _) λ docs.
            Within-bind L F _ _ (visit_documents-Within docs r) λ (r', on).
              Within-if L F on (scan_entries L db ctx c primary wheres joins fn es r') _
                (scan_entries-Within db ctx c primary joins q es r') (Within-pure L F _)

  pub query_scan-Within :
      (db : Database L) (ctx : Context) (collection : Str) (joins : List Join)
      → QueriesWithin L F db
      → (r : R) → Within L F (query_scan L db ctx collection wheres joins fn r)
  unfolding query_scan
  query_scan-Within db ctx collection joins q r =
      Within-elim L F (lookup collection db.collections) _ _ (Within-raise L F _) λ c.
        Within-bind L F _ _ (Within-lift L F _) λ e.
          Within-bind L F _ _ (Within-scan L F _) λ entries.
            Within-bind L F _ _ (scan_entries-Within db ctx c e.index.primary joins q entries r)
              (λ x. Within-pure L F _)
