-- ===== src/Model/Schema.antt =====
-- Indexes, properties, triggers and authorization rules of a collection (model.go), and the fields
-- and getters of a collection schema (schema.go).
use gokvkit.Prelude.{◌≡◌, ap, ℕ, Str, Bool, List, [], ◌∷◌, Option}
use gokvkit.Model.Value.{Value}
use gokvkit.Model.Query.{EventType}

pub record ForeignKey : Type 0 where
  pub collection : Str
  pub cascade : Bool

pub record Index : Type 0 where
  pub name : Str
  pub fields : List Str
  pub unique : Bool
  pub primary : Bool
  pub foreign_key : Option ForeignKey

-- The zero value of an index, as `Explain{}` holds it.
abbrev pub zero_index : Index
zero_index = record {
  name = [];
  fields = [];
  unique = Bool.false;
  primary = Bool.false;
  foreign_key = Option.none;
}

pub record ComputedField : Type 0 where
  pub read : Bool
  pub write : Bool
  pub expr : Str

pub record SchemaProperty : Type 0 where
  pub primary : Bool
  pub name : Str
  pub description : Str
  pub type_name : Str
  pub path : Str
  pub immutable : Bool
  pub unique : Bool
  pub foreign_key : Option ForeignKey
  pub compute : Option ComputedField
  pub default_value : Option Value

pub record Trigger : Type 0 where
  pub name : Str
  pub order : ℕ
  pub events : List EventType
  pub script : Str

pub data AuthzEffect : Type 0 where
  allow deny : AuthzEffect
  other : Str → AuthzEffect

pub record AuthzRule : Type 0 where
  pub effect : AuthzEffect
  pub actions : List Str
  pub match_script : Str

-- The maps `indexing` and `propertyPaths` are listed in the order in which a `range` visits them.
pub record CollectionSchema : Type 0 where
  pub collection : Str
  pub primary_index : Index
  pub immutable : Bool
  pub prevent_deletes : Bool
  pub indexing : List Index
  pub property_paths : List (Str × SchemaProperty)
  pub triggers : List Trigger
  pub read_only : Bool
  pub rules : List AuthzRule
  pub require_query_index : Bool

first_or_empty : List Str → Str
first_or_empty [] = []
first_or_empty (f ∷ fs) = f

unfoldable pub primary_key : CollectionSchema → Str
unfolding first_or_empty
primary_key c = first_or_empty c.primary_index.fields

pub primary_key_lem :
    (c : CollectionSchema) (key : Str) (keys : List Str)
    → c.primary_index.fields ≡ key ∷ keys
    → primary_key c ≡ key
unfolding primary_key
primary_key_lem c key keys e = ap first_or_empty e
