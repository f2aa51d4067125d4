-- ===== src/Configuration.antt =====
-- The plan of a configuration: calcConfigPlan of db.go, and getIndexDiff of util.go. `Mapset` is
-- github.com/zyedidia/generic/set, for sets of names.
pub mod Indexes
pub mod Plan
pub mod References
mod Tests
use gokvkit.Prelude.{
  Str, Bool, true, false, not, ◌&&◌, ◌||◌, ◌==◌, List, [], ◌∷◌, Option, none, some, lookup, put,
  if◌then◌else◌,
}
use gokvkit.Errors.Outcome.{Outcome, ok, fail, panic, ◌>>=◌}
use gokvkit.Model.Query.{JsonFieldOp}
use gokvkit.Model.Schema.{CollectionSchema, Index}
use gokvkit.Vendor.Lo.{Lo}
use gokvkit.Vendor.Json.{Json}
use gokvkit.Document.{new_document_from_bytes}
use gokvkit.Document.Ops.{diff}
use gokvkit.Transaction.Persist.{cdc_collection}

pub record IndexDiff : Type 0 where
  pub to_remove : List Index
  pub to_add : List Index
  pub to_update : List Index

module _ {A : Type 0} where
  -- `_, ok := m[k]`
  unfoldable pub has_key : Str → List (Str × A) → Bool
  has_key k [] = false
  has_key k ((j, a) ∷ m) = (j == k) || has_key k m

-- The indexes of a map whose names are not in the other one
unfoldable pub missing_in : List (Str × Index) → List (Str × Index) → List Index
missing_in other [] = []
missing_in other ((k, i) ∷ m) =
    let rest = missing_in other m in if has_key i.name other then rest else i ∷ rest

-- reflect.DeepEqual on the fields of an index
unfoldable pub same_fields : List Str → List Str → Bool
same_fields [] [] = true
same_fields (f ∷ fs) (g ∷ gs) = (f == g) && same_fields fs gs
same_fields _ _ = false

-- The fields of an index are compared with themselves.
unfoldable pub updated_in : List (Str × Index) → List (Str × Index) → List Index
unfolding same_fields
updated_in after [] = []
updated_in after ((k, i) ∷ m) =
    let rest = updated_in after m in
    if has_key i.name after
    then (if not (same_fields i.fields i.fields) then i ∷ rest else rest)
    else rest

unfoldable pub get_index_diff : List (Str × Index) → List (Str × Index) → IndexDiff
unfolding missing_in updated_in
get_index_diff after before = record {
  to_remove = missing_in after before;
  to_add = missing_in before after;
  to_update = updated_in after before;
}

pub record CollectionPlan : Type 0 where
  pub collection : Str
  pub diff : List JsonFieldOp

pub record ConfigurationPlan : Type 0 where
  pub to_delete : List CollectionPlan
  pub to_create : List CollectionPlan
  pub to_replace : List CollectionPlan

pub record Mapset : Type 1 where
  pub Set : Type 0
  pub of_names : List Str → Set
  pub equal : Set → Set → Bool
  pub difference : Set → Set → Set
  pub intersection : Set → Set → Set
  pub keys : Set → List Str

-- The maps `existingMap` and `newMap`: a later schema takes the place of an earlier one.
unfoldable pub schema_map :
    List CollectionSchema → List (Str × CollectionSchema) → List (Str × CollectionSchema)
schema_map [] m = m
schema_map (c ∷ cs) m = schema_map cs (put c.collection c m)

unfoldable pub collection_names : List CollectionSchema → List Str
collection_names [] = []
collection_names (c ∷ cs) = c.collection ∷ collection_names cs

module _ (lo : Lo) (set : Mapset) (json : Json) (marshal_schema : CollectionSchema → Outcome Str)
    (equals : CollectionSchema → CollectionSchema → Bool) where
  -- The document of a schema in a map; a nil schema panics.
  unfoldable pub schema_doc : Option CollectionSchema → Outcome (Outcome json.Doc)
  schema_doc none = panic
  schema_doc (some c) = marshal_schema c >>= λ bits. ok (new_document_from_bytes json bits)

  -- `doc, _ := ...`: the document is nil after an error, as the one to compare with, and as a receiver.
  unfoldable pub before_doc : Outcome json.Doc → Outcome (Option json.Doc)
  before_doc (ok d) = ok (some d)
  before_doc (fail e) = ok none
  before_doc panic = panic

  unfoldable pub receiver : Outcome json.Doc → Outcome json.Doc
  receiver (ok d) = ok d
  receiver _ = panic

  -- The bodies of the loops over the names to delete, to create, and to edit.
  unfoldable pub plan_delete : List (Str × CollectionSchema) → Str → Outcome CollectionPlan
  unfolding schema_doc before_doc
  plan_delete existing name = schema_doc (lookup name existing) >>= λ o.
      before_doc o >>= λ d. ok (record { collection = name; diff = diff json json.empty d })

  unfoldable pub plan_create : List (Str × CollectionSchema) → Str → Outcome CollectionPlan
  unfolding schema_doc receiver
  plan_create new name = schema_doc (lookup name new) >>= λ o.
      receiver o >>= λ d. ok (record { collection = name; diff = diff json d (some json.empty) })

  unfoldable pub same_schema : Option CollectionSchema → Option CollectionSchema → Outcome Bool
  same_schema (some c) (some c') = ok (equals c c')
  same_schema _ _ = panic

  unfoldable pub replaced :
      List (Str × CollectionSchema) → List (Str × CollectionSchema) → Str → Outcome CollectionPlan
  unfolding schema_doc before_doc receiver
  replaced existing new name = schema_doc (lookup name new) >>= λ n.
      schema_doc (lookup name existing) >>= λ e. receiver n >>= λ d.
      before_doc e >>= λ b. ok (record { collection = name; diff = diff json d b })

  -- The loops: over all names, and over those whose schemas differ.
  unfoldable pub plan_each :
      (Str → Outcome CollectionPlan) → List Str → Outcome (List CollectionPlan)
  plan_each f [] = ok []
  plan_each f (n ∷ ns) = f n >>= λ p. plan_each f ns >>= λ ps. ok (p ∷ ps)

  unfoldable pub plan_edits :
      List (Str × CollectionSchema)
      → List (Str × CollectionSchema)
      → List Str
      → Outcome (List CollectionPlan)
  unfolding same_schema replaced
  plan_edits existing new [] = ok []
  plan_edits existing new (n ∷ ns) =
      let rest = plan_edits existing new ns in
      same_schema (lookup n existing) (lookup n new) >>= λ same.
      if same then rest else (replaced existing new n >>= λ p. rest >>= λ ps. ok (p ∷ ps))

  unfoldable pub calc_config_plan :
      List CollectionSchema → List CollectionSchema → Outcome ConfigurationPlan
  unfolding schema_map collection_names plan_delete plan_create plan_each plan_edits
  calc_config_plan existing_schema new_schema =
      let existing_set = set.of_names (collection_names existing_schema) in
      let new_set = set.of_names (collection_names new_schema) in
      let existing = schema_map existing_schema [] in
      let new = schema_map new_schema [] in
      if set.equal existing_set new_set
      then ok (record { to_delete = []; to_create = []; to_replace = [] })
      else (plan_each (plan_delete existing) (
            lo.filter Str (set.keys (set.difference existing_set new_set))
              (λ name i. not (name == cdc_collection)))
          >>= λ deletes.
              plan_each (plan_create new) (set.keys (set.difference new_set existing_set))
              >>= λ creates.
                  plan_edits existing new (set.keys (set.intersection existing_set new_set))
                  >>= λ edits.
                      ok (record { to_delete = deletes; to_create = creates; to_replace = edits }))
