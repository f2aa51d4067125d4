-- ===== src/Transaction/Queries/Tests.antt =====
-- Two notes are queried in a store in memory.
use gokvkit.Prelude.{
  Str, str, true, ◌==◌, ◌≡◌, refl, subst, List, [], ◌∷◌, none, some, lookup, has_prefix, All,
  Bool-cases, inl, inr,
}
use gokvkit.Errors.Outcome.{Outcome, ok, panic}
use gokvkit.Errors.Exec.{lift}
use gokvkit.Model.Value.{text, any_eq}
use gokvkit.Model.Query.{Query, neq}
use gokvkit.Model.Schema.{CollectionSchema}
use gokvkit.Kv.Interface.{KvTx}
use gokvkit.Kv.Memory.{memory_laws}
use gokvkit.Transaction.{Libs, Txn, Page, Database, document_key}
use gokvkit.Transaction.Samples.{sample_libs, here, notes}
use gokvkit.Results.Validation.{validate, check_selects}
use gokvkit.Results.Ordering.{order_by_docs}
use gokvkit.Authorization.{authorize_query}
use gokvkit.Optimizer.{optimize, match_field}
use gokvkit.Document.{new_document_from_bytes, where_clauses, clause, neq_clause, get, operand}
use gokvkit.Transaction.Scan.{
  select_where, query_scan, scan_entries, find_document, compute_fields, join_all, visit_documents,
}
use gokvkit.Transaction.Queries.{
  query, run_query, plain_query, collect_some, finish, at_limit, answer, with_select,
}
use gokvkit.Transaction.Queries.Unchanged.{Unchanged, run_query-Unchanged}
use gokvkit.Transaction.Queries.Depth.{at_depth, run_query-at_depth-3}
use gokvkit.Transaction.Queries.Pages.{FitsQuery, query_fits}
use gokvkit.Transaction.Queries.Matching.{Accepted, SortKeeps, query-Accepted}

abbrev collections : List (Str × CollectionSchema)
collections = (str "note", notes) ∷ []

abbrev two_notes : Txn sample_libs
two_notes = record {
  store =
      (document_key sample_libs here notes (str "n1"), str "n1")
      ∷ (document_key sample_libs here notes (str "n2"), str "n2")
      ∷ [];
  vm = tt;
  docs = [];
  cdc = [];
  ids = 0;
}

-- A store whose scans visit two notes, whatever the prefix.
abbrev fixed : KvTx
fixed = record {
  State = Unit {0};
  get = λ k s. (ok none, s);
  set = λ k v s. (ok tt, s);
  delete = λ k s. (ok tt, s);
  scan = λ o s. (ok ((str "1", str "n1") ∷ (str "2", str "n2") ∷ []), s);
  commit = λ s. (ok tt, s);
  rollback = λ s. (ok tt, s);
  close = λ s. s;
}

abbrev fixed_libs : Libs
fixed_libs = record sample_libs { kv = fixed; holding = λ s vm. vm; written = λ vm s. s }

abbrev at_first : Txn fixed_libs
at_first = record { store = tt; vm = tt; docs = []; cdc = []; ids = 0 }

abbrev not_first : Query
not_first = select_where (record { field = str "_id"; op = neq; value = text (str "n1") } ∷ []) 1

abbrev db : Database fixed_libs
db = record { collections = collections; query = run_query fixed_libs [] 2 collections }

abbrev answered : Outcome (Page fixed_libs) × Txn fixed_libs
answered = query fixed_libs [] db here (str "note") not_first at_first

abbrev second : Page fixed_libs
second = record { documents = ((str "_id", text (str "n2")) ∷ []) ∷ []; next_page = 1; count = 1 }

answers : answered ≡ (ok second, answered.1)
unfolding query validate check_selects lookup ◌==◌ authorize_query plain_query query_scan optimize
    match_field scan_entries find_document new_document_from_bytes compute_fields join_all
    visit_documents where_clauses collect_some finish order_by_docs answer with_select clause
    neq_clause any_eq get operand has_prefix at_limit
answers = refl

marked :
    (k : Str) (c : CollectionSchema)
    → lookup k collections ≡ some c
    → c.primary_index.primary ≡ true
unfolding lookup
marked k c h = elim (Bool-cases (str "note" == k)) [
  | inl e ↦ let same : some notes ≡ some c = rw e at h in cc
  | inr e ↦ let same : none ≡ some c = rw e at h in cc
]

sorting : SortKeeps fixed_libs
sorting before ds ds' e P h = let same : ds ≡ ds' = cc in subst (All P) same h

run_query-Unchanged_example :
    Unchanged sample_libs memory_laws two_notes
      (run_query sample_libs [] 3 collections here (str "note") not_first two_notes).1
run_query-Unchanged_example =
    run_query-Unchanged sample_libs memory_laws (λ v s k. refl) [] 3 collections here (str "note")
      not_first two_notes

run_query-at_depth-3_example :
    run_query sample_libs [] 4 collections here (str "note") not_first
    ≡ at_depth sample_libs collections [] marked 3
        (λ ctx c q. lift panic)
        here
        (str "note")
        not_first
run_query-at_depth-3_example =
    run_query-at_depth-3 sample_libs collections [] marked 1 (λ ctx c q. lift panic) here
      (str "note") not_first

query_fits_example : FitsQuery fixed_libs not_first second
query_fits_example =
    query_fits fixed_libs [] db here (str "note") not_first at_first answered.1 second answers

query-Accepted_example : All (Accepted fixed_libs not_first.wheres) second.documents
unfolding ◌==◌
query-Accepted_example =
    query-Accepted fixed_libs sorting [] db here (str "note") not_first at_first answered.1 second
      refl refl answers
