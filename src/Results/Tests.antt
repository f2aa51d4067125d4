-- ===== src/Results/Tests.antt =====
-- A query that counts by name, and its parts on a few documents.
use gokvkit.Prelude.{ℕ, ◌≡◌, refl, str, Str, Bool, true, List, [], ◌∷◌, lookup, put, keep, ◌==◌}
use gokvkit.Errors.{Error}
use gokvkit.Errors.Outcome.{Outcome, ok, panic}
use gokvkit.Model.Value.{Value, text, float}
use gokvkit.Model.Query.{Query, Select, OrderBy, count, no_aggregate, asc, desc}
use gokvkit.Vendor.Samples.{sample_lo}
use gokvkit.Vendor.Documents.{sample_cast, sample_json}
use gokvkit.Document.{get, valid}
use gokvkit.Results.Validation.{
  validate, check_selects, check_groups, check_grouped, Validated, validate-Validated,
}
use gokvkit.Results.Having.{docs_having, docs_having-panic}
use gokvkit.Results.Grouping.{group_by_docs, group_key, or_empty, lookup-group_by_docs}
use gokvkit.Results.Ordering.{less, lexicographic, less-lexicographic}
use gokvkit.Results.Aggregates.{
  ResultLaws, aggregate_docs, as_float, fold_aggregate, aggregate_docs-fold, get_float,
}

abbrev plain : Error → Str
plain e = e.err

abbrev anything : Query → Outcome (Unit {0})
anything q = ok tt

abbrev the_name : Select
the_name = record { aggregate = no_aggregate; as_name = []; field = str "name" }

abbrev the_count : Select
the_count = record { aggregate = count; as_name = str "n"; field = str "name" }

abbrev counts : Query
counts = record {
  select = the_name ∷ the_count ∷ [];
  join = [];
  wheres = [];
  group_by = str "name" ∷ [];
  page = 0;
  limit = 0;
  order_by = [];
  having = [];
}

is_valid : validate sample_lo plain anything counts ≡ ok tt
unfolding validate check_selects check_grouped check_groups ◌==◌
is_valid = refl

validate-Validated_example : Validated sample_lo plain anything counts
validate-Validated_example = validate-Validated sample_lo plain anything counts is_valid

abbrev always : Bool → List (Str × Value) → Outcome Bool
always b d = ok b

abbrev named : Str → List (Str × Value)
named s = (str "name", text s) ∷ []

docs_having-panic_example :
    docs_having (always true) true (named (str "a") ∷ named (str "b") ∷ []) ≡ panic
docs_having-panic_example =
    docs_having-panic (always true) (named (str "a")) (named (str "b")) [] (refl, (refl, tt))

lookup-group_by_docs_example :
    or_empty (
      lookup (str "a") (
        group_by_docs sample_json sample_cast
          (named (str "a") ∷ named (str "b") ∷ [])
          (str "name" ∷ [])))
    ≡ keep
        (λ d. group_key sample_json sample_cast (str "name" ∷ []) d == str "a")
        (named (str "a") ∷ named (str "b") ∷ [])
lookup-group_by_docs_example =
    lookup-group_by_docs sample_json sample_cast (named (str "a") ∷ named (str "b") ∷ [])
      (str "name" ∷ []) (str "a")

abbrev by_name : OrderBy
by_name = record { direction = asc; field = str "name" }

abbrev by_age : OrderBy
by_age = record { direction = desc; field = str "age" }

less-lexicographic_example :
    less sample_json sample_cast by_name (by_age ∷ []) (named (str "a")) (named (str "b"))
    ≡ lexicographic sample_json sample_cast
        (by_name ∷ by_age ∷ [])
        (named (str "a"))
        (named (str "b"))
less-lexicographic_example =
    less-lexicographic sample_json sample_cast by_name (by_age ∷ []) (named (str "a"))
      (named (str "b"))

abbrev store_count : ℕ → List (Str × Value) → List (Str × Value)
store_count n d = put (str "n") (float n) d

get-store_count :
    (n : ℕ) (d : List (Str × Value))
    → get_float sample_lo sample_json sample_cast (store_count n d) (str "n") ≡ n
unfolding get_float get put lookup ◌==◌
get-store_count n d = refl

valid-store_count : (n : ℕ) (d : List (Str × Value)) → valid sample_json (store_count n d) ≡ true
unfolding valid
valid-store_count n d = refl

get-nothing : get_float sample_lo sample_json sample_cast [] (str "n") ≡ 0
unfolding get_float get lookup
get-nothing = refl

abbrev count_laws : ResultLaws sample_lo sample_json sample_cast (str "n")
count_laws = record {
  stored = store_count;
  set-float = λ n d. refl;
  get-stored = get-store_count;
  valid-stored = valid-store_count;
  get-empty = get-nothing;
}

aggregate_docs-fold_example :
    as_float sample_lo sample_json sample_cast
      (aggregate_docs sample_lo sample_json sample_cast
        (named (str "a") ∷ named (str "b") ∷ [])
        (the_count ∷ []))
      (str "n")
    ≡ fold_aggregate sample_lo sample_json sample_cast count
        (str "name")
        0
        (named (str "a") ∷ named (str "b") ∷ [])
aggregate_docs-fold_example =
    aggregate_docs-fold sample_lo sample_json sample_cast the_count count_laws
      (named (str "a") ∷ named (str "b") ∷ []) refl
