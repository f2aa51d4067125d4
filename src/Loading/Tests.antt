-- ===== src/Loading/Tests.antt =====
-- The sample schema is loaded and saved; a schema whose objects are nested too deep for the bound.
use gokvkit.Prelude.{
  ◌≡◌, ◌≢◌, refl, sym, ap, ◌∙◌, Str, str, List, [], ◌∷◌, ◌==◌, has_prefix, put, without, true,
}
use gokvkit.Errors.Outcome.{Outcome, ok, panic}
use gokvkit.Model.Schema.{primary_key}
use gokvkit.Loading.Parts.{replace_all}
use gokvkit.Loading.Walk.{resolve}
use gokvkit.Loading.{new_collection_schema, marshal_json, unmarshal_json, yaml_to_json}
use gokvkit.Loading.Samples.{Node, node_entries, node_get, notes, tools, loaded_notes, notes_schema}
use gokvkit.Loading.WellFormed.{IsWellFormed, new_collection_schema-IsWellFormed}
use gokvkit.Loading.RoundTrip.{new_collection_schema-marshal_json}
use gokvkit.Loading.Nesting.{Nests, new_collection_schema-Nests}

abbrev keys {ℓ} : {A : Type ℓ} → List (Str × A) → List Str
keys [] = []
keys ((k, a) ∷ m) = k ∷ keys m

indexed :
    keys notes_schema.indexing
    ≡ str "author.foreignidx"
      ∷ str "title.foreignidx"
      ∷ str "title.uniqueidx"
      ∷ str "_id.primaryidx"
      ∷ []
unfolding new_collection_schema ◌==◌ has_prefix put without primary_key
indexed = refl

loads : loaded_notes ≡ ok notes_schema
unfolding new_collection_schema ◌==◌ has_prefix put without primary_key
loads = refl

-- A field whose name ends in "properties" loses that end.
cut_path :
    replace_all (str "properties.myproperties.properties.x") (str "properties.") [] ≡ str "myx"
unfolding replace_all has_prefix
cut_path = refl

new_collection_schema-IsWellFormed_example : IsWellFormed tools notes_schema
new_collection_schema-IsWellFormed_example =
    new_collection_schema-IsWellFormed tools 2 (str "yaml") notes_schema loads

converts : yaml_to_json tools (str "yaml") ≡ ok (str "{notes}")
unfolding yaml_to_json has_prefix
converts = refl

is_object_text : has_prefix (str "{notes}") (str "{") ≡ true
unfolding has_prefix
is_object_text = refl

new_collection_schema-marshal_json_example :
    (marshal_json tools notes_schema ≡ str "{notes}")
    × (new_collection_schema tools 2 (marshal_json tools notes_schema) ≡ ok notes_schema)
    × (unmarshal_json tools 2 notes_schema (marshal_json tools notes_schema) ≡ ok notes_schema)
new_collection_schema-marshal_json_example =
    new_collection_schema-marshal_json tools 2 (str "yaml") (str "{notes}") notes_schema
      notes_schema converts refl is_object_text refl refl loads

-- A property without properties nests nothing.
plain :
    (n v : Node)
    → node_entries (node_get n (str "properties")) ≡ []
    → ◌≡◌ {A = Outcome Node} (ok n) (ok v)
    → Nests tools 1 notes (node_get v (str "properties"))
plain n v empty e =
    let same : n ≡ v = cc in
    let none_ : node_entries (node_get v (str "properties")) ≡ [] =
      ap (λ x. node_entries (node_get x (str "properties"))) (sym same) ∙ empty in
    rw none_ tt

nests : Nests tools 2 notes (node_get notes (str "properties"))
unfolding ◌==◌ resolve
nests = ((λ v e. plain _ v refl e), ((λ v e. plain _ v refl e), ((λ v e. plain _ v refl e), tt)))

new_collection_schema-Nests_example : new_collection_schema tools 2 (str "yaml") ≢ panic
new_collection_schema-Nests_example =
    new_collection_schema-Nests tools 2 (str "yaml") (λ text e. nests)
