-- ===== src/Optimizer/Tests.antt =====
-- The optimizer's theorems at a collection with one secondary index.
use gokvkit.Prelude.{◌≡◌, refl, str, true, false, none, List, [], ◌∷◌, ◌==◌, put, without, ◌↔◌}
use gokvkit.Errors.{forbidden, new}
use gokvkit.Errors.Outcome.{ok, fail}
use gokvkit.Model.Value.{text, integer}
use gokvkit.Model.Query.{Where, eq, lt}
use gokvkit.Model.Schema.{Index, CollectionSchema}
use gokvkit.Vendor.Samples.{sample_lo}
use gokvkit.Optimizer.{Explain, optimize, score, match_field, get_matched_field_values}
use gokvkit.Optimizer.Sound.{IsJustified, optimize-IsJustified}
use gokvkit.Optimizer.Best.{AllAtMost, optimize-Best, optimize-forbidden}

abbrev key_index : Index
key_index = record {
  name = str "_id.primaryidx";
  fields = str "_id" ∷ [];
  unique = true;
  primary = true;
  foreign_key = none;
}

abbrev age_index : Index
age_index = record {
  name = str "age_idx";
  fields = str "account" ∷ str "age" ∷ [];
  unique = false;
  primary = false;
  foreign_key = none;
}

abbrev users : CollectionSchema
users = record {
  collection = str "user";
  primary_index = key_index;
  immutable = false;
  prevent_deletes = false;
  indexing = key_index ∷ age_index ∷ [];
  property_paths = [];
  triggers = [];
  read_only = false;
  rules = [];
  require_query_index = true;
}

-- account == "a" and age < 30
abbrev young : List Where
young =
    record { field = str "account"; op = eq; value = text (str "a") }
    ∷ record { field = str "age"; op = lt; value = integer 30 }
    ∷ []

abbrev young_plan : Explain
young_plan = record {
  collection = str "user";
  index = age_index;
  matched_fields = str "account" ∷ [];
  matched_values = (str "account", text (str "a")) ∷ [];
  seek_fields = str "age" ∷ [];
  seek_values = (str "age", integer 30) ∷ [];
  reverse = true;
}

optimize-young : optimize sample_lo users young ≡ ok young_plan
unfolding optimize match_field get_matched_field_values ◌==◌ put without
optimize-young = refl

optimize-IsJustified_example : IsJustified users young young_plan
optimize-IsJustified_example = optimize-IsJustified sample_lo users young young_plan optimize-young

optimize-Best_example : AllAtMost sample_lo young users.indexing (score young_plan)
unfolding ◌==◌
optimize-Best_example = optimize-Best sample_lo users young young_plan refl optimize-young

abbrev unindexed : Where
unindexed = record { field = str "name"; op = eq; value = text (str "x") }

optimize-forbidden_example :
    (optimize sample_lo users (unindexed ∷ [])
      ≡ fail (new forbidden (str "index is required for query in collection")))
    ↔ ((users.require_query_index ≡ true) × AllAtMost sample_lo (unindexed ∷ []) users.indexing 0)
unfolding ◌==◌
optimize-forbidden_example =
    optimize-forbidden sample_lo users unindexed [] (str "_id") [] key_index (age_index ∷ []) refl
      refl refl
