-- ===== src/Loading.antt =====
-- The loading of a collection's schema: newCollectionSchema of schema.go, what a schema is marshalled to
-- and read from, and YAMLToJSON of util/util.go.
pub mod Parts
pub mod Walk
pub mod Maps
pub mod Steps
pub mod Keeping
pub mod WellFormed
pub mod RoundTrip
pub mod Ending
pub mod Nesting
pub mod Samples
mod Tests
use gokvkit.Prelude.{ℕ, ◌-◌, Str, str, not, List, [], ◌∷◌, is_empty, ◌⊎◌, if◌then◌else◌}
use gokvkit.Errors.{GoError, new, validation}
use gokvkit.Errors.Outcome.{Outcome, ok, fail, panic, ◌>>=◌ as bind}
use gokvkit.Model.Schema.{CollectionSchema, Index, Trigger, AuthzRule, primary_key}
use gokvkit.Loading.Parts.{Loading, Properties, SchemaTools, attempted, nothing_loaded}
use gokvkit.Loading.Walk.{load_properties, wrapped}

module _ (T : SchemaTools) where
  open T use {gjson, lo, cast, marshal}
  open gjson use {Result, get, exists, to_string, to_bool, value, entries}

  unfoldable pub yaml_to_json : Str → Outcome Str
  yaml_to_json s = if T.is_json s then ok s else attempted (T.convert_yaml s)

  -- collectionSchema: the maps of the indexes and of the properties beside what other parts read.
  pub record Loaded : Type 0 where
    pub schema : CollectionSchema
    pub indexing : List (Str × Index)
    pub properties : Properties
    pub raw : Result

  abbrev pub values : {A : Type 0} → List (Str × A) → List A
  values [] = []
  values ((k, a) ∷ m) = a ∷ values m

  -- A loop that returns the first error
  unfoldable pub check_each : {A : Type 0} → (A → GoError ⊎ Unit {0}) → List A → Outcome (Unit {0})
  check_each check [] = ok tt
  check_each check (a ∷ as_) =
      let rest = check_each check as_ in bind {0, 0} (attempted (check a)) (λ _. rest)

  unfoldable pub load_triggers : List (Str × Result) → Outcome (List Trigger)
  load_triggers [] = ok []
  load_triggers ((name, r) ∷ rs) =
      let rest = load_triggers rs in
      bind {0, 0} (wrapped T (str "invalid trigger") (T.decode_trigger name (value r))) λ t.
        bind {0, 0} (wrapped T (str "invalid trigger") (T.valid_trigger t))
          λ _. bind {0, 0} rest (λ ts. ok (t ∷ ts))

  unfoldable pub load_authz : Result → Outcome (List AuthzRule)
  load_authz r =
      if exists r
      then (bind {0, 0} (wrapped T (str "invalid x-authorization") (T.decode_authz (value r)))
          λ rules.
            bind {0, 0} (wrapped T (str "invalid x-authorization") (T.valid_authz rules))
              λ _. ok rules)
      else ok []

  unfoldable pub all_triggers : Result → Outcome (List Trigger)
  unfolding load_triggers
  all_triggers r = if exists r then load_triggers (entries r) else ok []

  abbrev pub schema_of : Result → Loading → List Trigger → List AuthzRule → CollectionSchema
  schema_of r s triggers rules = record {
    collection = to_string (get r (str "x-collection"));
    primary_index = s.primary_index;
    immutable = to_bool (get r (str "x-immutable"));
    prevent_deletes = to_bool (get r (str "x-prevent-deletes"));
    indexing = values s.indexing;
    property_paths = s.property_paths;
    triggers = T.sort_triggers triggers;
    read_only = to_bool (get r (str "x-read-only"));
    rules = rules;
    require_query_index = to_bool (get r (str "x-require-index"));
  }

  abbrev pub required_fields : Result → List Str
  required_fields r = cast.to_string_slice (value (get r (str "required")))

  abbrev pub made : Result → Properties → Loading → List Trigger → List AuthzRule → Loaded
  made r properties s triggers rules = record {
    schema = schema_of r s triggers rules;
    indexing = s.indexing;
    properties = properties;
    raw = r;
  }

  -- The checks that follow the loading of the properties, and of the triggers
  unfoldable pub rest_checked : Result → Properties → Loading → List Trigger → Outcome Loaded
  unfolding load_authz
  rest_checked r properties s triggers =
      if not (lo.contains (required_fields r) (primary_key (schema_of r s triggers [])))
      then fail (new validation (str "primary key is required"))
      else bind {0, 0} (load_authz (get r (str "x-authorization")))
          λ rules. ok (made r properties s triggers rules)

  unfoldable pub checked : Result → Properties → Loading → Outcome Loaded
  unfolding check_each all_triggers rest_checked
  checked r properties s = bind {0, 0} (check_each T.valid_property (values s.property_paths)) λ _.
      bind {0, 0} (check_each T.valid_index (values s.indexing)) λ _.
        if is_empty s.primary_index.fields
        then fail (new validation (str "primary index is required"))
        else bind {0, 0} (all_triggers (get r (str "x-triggers"))) (rest_checked r properties s)

  unfoldable pub loaded : Result → Outcome Properties × Loading → Outcome Loaded
  unfolding checked
  loaded r (ok properties, s) = checked r properties s
  loaded r (fail e, s) = fail e
  loaded r (panic, s) = panic

  -- From the JSON text of a schema
  unfoldable pub load_text : ℕ → Str → Outcome Loaded
  unfolding loaded load_properties
  load_text depth text =
      let r = gjson.parse_bytes text in
      bind {0, 0} (wrapped T (str "invalid json schema") (T.compile text))
        λ _. loaded r (load_properties T depth r (get r (str "properties")) nothing_loaded)

  unfoldable pub new_collection_schema : ℕ → Str → Outcome Loaded
  unfolding yaml_to_json load_text
  new_collection_schema depth yaml =
      if is_empty yaml
      then fail (new validation (str "empty schema content"))
      else bind {0, 0} (yaml_to_json yaml) (load_text depth)

  unfoldable pub marshal_json : Loaded → Str
  marshal_json c = gjson.raw c.raw

  -- refreshSchema: all but the name of the collection is taken over.
  unfoldable pub refresh_schema : ℕ → Loaded → Str → Outcome Loaded
  refresh_schema depth c text = bind {0, 0} (new_collection_schema depth text) λ fresh.
      ok (record fresh { schema = record fresh.schema { collection = c.schema.collection } })

  unfoldable pub unmarshal_json : ℕ → Loaded → Str → Outcome Loaded
  unfolding refresh_schema
  unmarshal_json depth c text = refresh_schema depth c text

  unfoldable pub unmarshal_yaml : ℕ → Loaded → Str → Outcome Loaded
  unfolding yaml_to_json refresh_schema
  unmarshal_yaml depth c yaml = bind {0, 0} (yaml_to_json yaml) (refresh_schema depth c)
