-- ===== src/Loading/Walk.antt =====
-- loadProperties and loadRef of schema.go. The depth of nested objects is bounded, as the stack of a
-- goroutine is: beyond the bound a call panics.
use gokvkit.Prelude.{
  ℕ, zero, suc, Str, str, Bool, true, not, ◌&&◌, ◌==◌, List, [], ◌∷◌, has_prefix, put, Option, none,
  some, ◌⊎◌, inl, inr, if◌then◌else◌,
}
use gokvkit.Errors.{GoError, new, validation, wrap_error}
use gokvkit.Errors.Outcome.{Outcome, ok, fail, panic, ◌>>=◌ as bind}
use gokvkit.Errors.Exec.{Exec, pure, lift, modify, ◌>>=◌, ◌>>◌}
use gokvkit.Model.Value.{Value}
use gokvkit.Model.Schema.{ForeignKey, ComputedField, SchemaProperty}
use gokvkit.Loading.Parts.{
  Loading, Properties, SchemaTools, put_key, put_named, put_path, ref_prefix, replace_all,
  trim_prefix,
}

module _ (T : SchemaTools) where
  open T use {gjson, lo, cast, marshal}
  open gjson use {Result, get, exists, to_string, to_bool, value, entries}

  abbrev pub wrapped : {A : Type 0} → Str → GoError ⊎ A → Outcome A
  wrapped msg (inl e) = fail (wrap_error marshal e validation msg)
  wrapped msg (inr a) = ok a

  unfoldable pub load_ref : Result → Str → Outcome Result
  unfolding replace_all trim_prefix
  load_ref root ref =
      let path = replace_all (trim_prefix ref (str "#/")) (str "/") (str ".") in
      if not (has_prefix path ref_prefix)
      then fail (new validation (str "references may only exist under #/common"))
      else ok (get root path)

  unfoldable pub resolve : Result → Result → Outcome Result
  unfolding load_ref
  resolve root v =
      let ref = get v (str "$ref") in if exists ref then load_ref root (to_string ref) else ok v

  -- A part of a property that need not be there
  unfoldable pub optional :
      {A : Type 0} → Bool → (Value → GoError ⊎ A) → Str → Result → Outcome (Option A)
  optional wanted decode msg r =
      if exists r && wanted
      then bind {0, 0} (wrapped msg (decode (value r))) (λ a. ok (some a))
      else ok none

  abbrev pub or_none : {A : Type 0} → Option (List A) → List A
  or_none none = []
  or_none (some xs) = xs

  abbrev pub property_path : Result → Result → Str
  property_path root v =
      trim_prefix (replace_all (gjson.path v root) (str "properties.") []) ref_prefix

  abbrev pub property_of :
      Str → Str → Result → Option ComputedField → Option ForeignKey → SchemaProperty
  property_of key path v compute foreign = record {
    primary = to_bool (get v (str "x-primary"));
    name = key;
    description = to_string (get v (str "description"));
    type_name = to_string (get v (str "type"));
    path = path;
    immutable = to_bool (get v (str "x-immutable"));
    unique = to_bool (get v (str "x-unique"));
    foreign_key = foreign;
    compute = compute;
    default_value =
        if exists (get v (str "default")) then some (value (get v (str "default"))) else none;
  }

  abbrev pub is_object : Result → Bool
  is_object v = to_string (get v (str "type")) == str "object"

  -- The properties of an object, which `nested` loads
  unfoldable pub load_nested : (Result → Exec Loading Properties) → Result → Exec Loading Properties
  load_nested nested v =
      if exists (get v (str "properties")) && is_object v
      then nested (get v (str "properties"))
      else pure []

  -- A round of the loop after that
  unfoldable pub finish_property :
      Result → Str → Result → Result → Option ComputedField → Exec Loading SchemaProperty
  unfolding optional put_named put_key
  finish_property root key r v compute = do
    foreign ← lift (
        optional (not (is_object v)) T.decode_foreign
          (str "failed to decode foreignKey on property") (get v (str "x-foreign")))
    named ← lift (
        optional (not (is_object v)) T.decode_indexes (str "failed to decode index on property")
          (get v (str "x-index")))
    let p = property_of key (property_path root r) v compute foreign
    modify (put_named p.path (or_none named))
    modify (put_path p)
    put_key p
    pure p

  -- One round of the loop
  unfoldable pub load_property :
      (Result → Exec Loading Properties) → Result → Str → Result → Exec Loading SchemaProperty
  unfolding resolve optional load_nested finish_property
  load_property nested root key r = do
    v ← lift (resolve root r)
    compute ← lift (
        optional true T.decode_compute (str "failed to decode computed field")
          (get v (str "x-compute")))
    load_nested nested v
    finish_property root key r v compute

  unfoldable pub load_each :
      (Result → Exec Loading Properties)
      → Result
      → List (Str × Result)
      → Properties
      → Exec Loading Properties
  unfolding load_property
  load_each nested root [] ps = pure ps
  load_each nested root ((k, r) ∷ rs) ps =
      load_property nested root k r >>= λ p. load_each nested root rs (put k p ps)

  unfoldable pub load_properties : ℕ → Result → Result → Exec Loading Properties
  unfolding load_each
  load_properties zero root r = lift panic
  load_properties (suc depth) root r =
      if not (exists r) then pure [] else load_each (load_properties depth root) root (entries r) []
