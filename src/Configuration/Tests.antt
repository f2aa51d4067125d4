-- ===== src/Configuration/Tests.antt =====
-- An index stays, one is removed, and one is added; a collection is planned beside another.
use gokvkit.Prelude.{
  ◌≡◌, refl, sym, ap, ◌∙◌, Str, str, Bool, true, false, not, ◌&&◌, ◌||◌, ◌==◌, ==_iff, &&-eq-true,
  Bool-cases, inl, inr, List, [], ◌∷◌, keep, none, lookup, put, without,
}
use gokvkit.Errors.Outcome.{Outcome, ok, fail, panic}
use gokvkit.Model.Schema.{Index, CollectionSchema}
use gokvkit.Vendor.Lo.{elem}
use gokvkit.Configuration.{ConfigurationPlan, Mapset, has_key, get_index_diff, calc_config_plan}
use gokvkit.Configuration.Plan.{MapsetLaws, Planned, elem-keep, calc_config_plan-Planned}
use gokvkit.Document.{new_document_from_bytes}
use gokvkit.Vendor.Samples.{sample_lo}
use gokvkit.Vendor.Documents.{sample_json}
use gokvkit.Transaction.Samples.{notes}
use gokvkit.Configuration.Indexes.{names, get_index_diff-applied}

abbrev by_field : Str → Index
by_field f = record {
  name = f;
  fields = f ∷ [];
  unique = false;
  primary = false;
  foreign_key = none;
}

abbrev later : List (Str × Index)
later = (str "age", by_field (str "age")) ∷ (str "name", by_field (str "name")) ∷ []

abbrev earlier : List (Str × Index)
earlier = (str "name", by_field (str "name")) ∷ (str "city", by_field (str "city")) ∷ []

get_index_diff-applied_example :
    ((k : Str)
      → has_key k later ≡ (
          (has_key k earlier && not (elem (names (get_index_diff later earlier).to_remove) k))
          || elem (names (get_index_diff later earlier).to_add) k))
    × ((get_index_diff later earlier).to_update ≡ [])
get_index_diff-applied_example =
    get_index_diff-applied later earlier (refl, (refl, tt)) (refl, (refl, tt))

abbrev all_in : List Str → List Str → Bool
all_in [] ys = true
all_in (x ∷ xs) ys = elem ys x && all_in xs ys

all_in-elem :
    (xs ys : List Str) (k : Str) → all_in xs ys ≡ true → elem xs k ≡ true → elem ys k ≡ true
all_in-elem [] ys k h e = cc
all_in-elem (x ∷ xs) ys k h e =
    let (first, rest) = &&-eq-true (elem ys x) (all_in xs ys) h in
    elim (Bool-cases (x == k)) [
      | inl s ↦ ap (elem ys) (sym ((==_iff x k).0 s)) ∙ first
      | inr s ↦ all_in-elem xs ys k rest (rw s at e)
    ]

abbrev sample_set : Mapset
sample_set = record {
  Set = List Str;
  of_names = λ xs. xs;
  equal = λ xs ys. all_in xs ys && all_in ys xs;
  difference = λ xs ys. keep (λ x. not (elem ys x)) xs;
  intersection = λ xs ys. keep (elem ys) xs;
  keys = λ xs. xs;
}

sample_laws : MapsetLaws sample_set
sample_laws = record {
  keys-difference = λ xs ys k. elem-keep (λ x. not (elem ys x)) xs k;
  equal_elem = λ xs ys k h.
      let (there, back) = &&-eq-true (all_in xs ys) (all_in ys xs) h in
      both (elem xs k) (elem ys k) (all_in-elem xs ys k there) (all_in-elem ys xs k back);
}
  where
    both : (a b : Bool) → (a ≡ true → b ≡ true) → (b ≡ true → a ≡ true) → a ≡ b
    both true b f g = sym (f refl)
    both false true f g = g refl
    both false false f g = refl

abbrev tasks : CollectionSchema
tasks = record notes { collection = str "task" }

abbrev planned_tasks : Outcome ConfigurationPlan
planned_tasks =
    calc_config_plan sample_lo sample_set sample_json (λ c. ok (str "{}")) (λ a b. true)
      (notes ∷ []) (notes ∷ tasks ∷ [])

abbrev plan : ConfigurationPlan
plan = elim planned_tasks [
  | ok p ↦ p
  | fail e ↦ record { to_delete = []; to_create = []; to_replace = [] }
  | panic ↦ record { to_delete = []; to_create = []; to_replace = [] }
]

plans : planned_tasks ≡ ok plan
unfolding calc_config_plan ◌==◌ lookup put new_document_from_bytes without
plans = refl

calc_config_plan-Planned_example :
    Planned sample_lo sample_set sample_laws sample_json
      (λ c. ok (str "{}"))
      (λ a b. true)
      (notes ∷ [])
      (notes ∷ tasks ∷ [])
      plan
calc_config_plan-Planned_example =
    calc_config_plan-Planned sample_lo sample_set sample_laws sample_json (λ c. ok (str "{}"))
      (λ a b. true) (notes ∷ []) (notes ∷ tasks ∷ []) plan plans
