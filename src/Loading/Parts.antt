-- ===== src/Loading/Parts.antt =====
-- What loadProperties of schema.go keeps in a schema, the texts that it cuts, and the libraries that it
-- calls.
use gokvkit.Prelude.{
  ℕ, zero, suc, ◌-◌, Str, str, Bool, true, false, not, List, [], ◌∷◌, ◌++◌, length, drop, is_empty,
  has_prefix, put, Option, none, some, ◌⊎◌, inl, inr, if◌then◌else◌,
}
use gokvkit.Errors.{Error, GoError, new, validation}
use gokvkit.Errors.Outcome.{Outcome, ok, fail}
use gokvkit.Errors.Exec.{Exec}
use gokvkit.Model.Value.{Value}
use gokvkit.Model.Schema.{
  Index, zero_index, ForeignKey, ComputedField, SchemaProperty, Trigger, AuthzRule,
}
use gokvkit.Vendor.Lo.{Lo}
use gokvkit.Vendor.Cast.{Cast}
use gokvkit.Vendor.Gjson.{Gjson}

-- strings.ReplaceAll of a text that is not empty; the first argument counts the bytes to pass over.
unfoldable pub replace_from : ℕ → Str → Str → Str → Str
replace_from skip [] old fresh = []
replace_from (suc skip) (c ∷ s) old fresh = replace_from skip s old fresh
replace_from zero (c ∷ s) old fresh =
    let here = has_prefix (c ∷ s) old in
    (if here then fresh else c ∷ [])
    ++ replace_from (if here then length old - 1 else 0) s old fresh

unfoldable pub replace_all : Str → Str → Str → Str
unfolding replace_from
replace_all s old fresh = replace_from 0 s old fresh

unfoldable pub trim_prefix : Str → Str → Str
trim_prefix s p = if has_prefix s p then drop (length p) s else s

abbrev pub ref_prefix : Str
ref_prefix = str "common."

-- The libraries: an error of one of them is on the left.
pub record SchemaTools : Type 1 where
  pub gjson : Gjson
  pub lo : Lo
  pub cast : Cast
  pub marshal : Error → Str
  -- json.Unmarshal into a RawMessage succeeds; and yaml.YAMLToJSON
  pub is_json : Str → Bool
  pub convert_yaml : Str → GoError ⊎ Str
  -- gojsonschema.NewSchema
  pub compile : Str → GoError ⊎ Unit {0}
  -- util.Decode, into the types of the code; an index is given by its additional fields
  pub decode_compute : Value → GoError ⊎ ComputedField
  pub decode_foreign : Value → GoError ⊎ ForeignKey
  pub decode_indexes : Value → GoError ⊎ List (Str × List Str)
  pub decode_trigger : Str → Value → GoError ⊎ Trigger
  pub decode_authz : Value → GoError ⊎ List AuthzRule
  -- util.ValidateStruct
  pub valid_property : SchemaProperty → GoError ⊎ Unit {0}
  pub valid_index : Index → GoError ⊎ Unit {0}
  pub valid_trigger : Trigger → GoError ⊎ Unit {0}
  pub valid_authz : List AuthzRule → GoError ⊎ Unit {0}
  -- sort.Slice by the order of the triggers
  pub sort_triggers : List Trigger → List Trigger

-- What loadProperties changes of the schema.
pub record Loading : Type 0 where
  pub indexing : List (Str × Index)
  pub property_paths : List (Str × SchemaProperty)
  pub primary_index : Index

abbrev pub nothing_loaded : Loading
nothing_loaded = record { indexing = []; property_paths = []; primary_index = zero_index }

abbrev pub Properties : Type 0
Properties = List (Str × SchemaProperty)

abbrev pub attempted {ℓ} : {A : Type ℓ} → GoError ⊎ A → Outcome A
attempted (inl e) = fail e
attempted (inr a) = ok a

abbrev pub is_some {ℓ} : {A : Type ℓ} → Option A → Bool
is_some none = false
is_some (some a) = true

abbrev pub primary_index_at : Str → Index
primary_index_at path = record {
  name = path ++ str ".primaryidx";
  fields = path ∷ [];
  unique = true;
  primary = true;
  foreign_key = none;
}

abbrev pub unique_index_at : Str → Index
unique_index_at path = record {
  name = path ++ str ".uniqueidx";
  fields = path ∷ [];
  unique = true;
  primary = false;
  foreign_key = none;
}

abbrev pub foreign_index_of : SchemaProperty → Index
foreign_index_of p = record {
  name = p.path ++ str ".foreignidx";
  fields = p.path ∷ [];
  unique = p.unique;
  primary = false;
  foreign_key = p.foreign_key;
}

abbrev pub put_index : Index → Loading → Loading
put_index i s = record s { indexing = put i.name i s.indexing }

-- The indexes that a property names
unfoldable pub put_named : Str → List (Str × List Str) → Loading → Loading
put_named path [] s = s
put_named path ((name, more) ∷ named) s = put_named path named (
    put_index
      (record {
        name = name;
        fields = path ∷ more;
        unique = false;
        primary = false;
        foreign_key = none;
      })
      s)

-- The maps of properties; `properties` is returned.
abbrev pub put_path : SchemaProperty → Loading → Loading
put_path p s = record s { property_paths = put p.path p s.property_paths }

-- The switch over the kinds of keys; a unique property falls through to the case of a foreign key.
unfoldable pub put_key : SchemaProperty → Exec Loading (Unit {0})
put_key p s =
    if p.primary
    then (if not (is_empty s.primary_index.name)
        then (fail (new validation (str "multiple primary keys found")), s)
        else (
          ok tt,
          record (put_index (primary_index_at p.path) s) {
            primary_index = primary_index_at p.path;
          },
        ))
    else if p.unique
    then (ok tt, put_index (foreign_index_of p) (put_index (unique_index_at p.path) s))
    else if is_some p.foreign_key
    then (ok tt, put_index (foreign_index_of p) s)
    else (ok tt, s)
