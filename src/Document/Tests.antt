-- ===== src/Document/Tests.antt =====
-- The where clauses at a document with a name and tags.
use gokvkit.Prelude.{◌≡◌, refl, str, Str, Bool, true, false, ◌↔◌, All, List, [], ◌∷◌}
use gokvkit.Errors.Outcome.{ok}
use gokvkit.Model.Value.{Value, text, strings}
use gokvkit.Model.Query.{Where, contains_any, eq, has_suffix}
use gokvkit.Vendor.Samples.{sample_lo}
use gokvkit.Vendor.Documents.{sample_cast, sample_json}
use gokvkit.Document.{clause, where_clauses, pass}
use gokvkit.Document.Filter.{where_clauses-conjunction, where_clauses-contains_any}

abbrev never : Str → Str → Bool
never pattern s = false

abbrev tagged : List (Str × Value)
tagged = (str "name", text (str "ann")) ∷ (str "tags", strings (str "a" ∷ [])) ∷ []

abbrev named : Str → Where
named s = record { field = str "name"; op = eq; value = text s }

abbrev ends : Where
ends = record { field = str "name"; op = has_suffix; value = text (str "nn") }

abbrev other_tag : Where
other_tag = record { field = str "tags"; op = contains_any; value = strings (str "b" ∷ []) }

where_clauses-conjunction_example :
    (where_clauses sample_lo sample_json sample_cast never (named (str "ann") ∷ ends ∷ []) tagged
      ≡ ok true)
    ↔ All
        (λ w. clause sample_lo sample_json sample_cast never w.op tagged w ≡ ok pass)
        (named (str "ann") ∷ ends ∷ [])
where_clauses-conjunction_example =
    where_clauses-conjunction sample_lo sample_json sample_cast never
      (named (str "ann") ∷ ends ∷ []) tagged ((λ e. cc), ((λ e. cc), tt))

where_clauses-contains_any_example :
    where_clauses sample_lo sample_json sample_cast never (other_tag ∷ []) tagged ≡ ok true
where_clauses-contains_any_example =
    where_clauses-contains_any sample_lo sample_json sample_cast never (other_tag ∷ []) tagged
      (refl, tt)
