-- ===== src/Loading/WellFormed.antt =====
-- What holds of every schema that is loaded.
use gokvkit.Prelude.{
  ◌≡◌, refl, ap, sym, subst, ◌∙◌, ℕ, Str, str, true, false, List, [], ◌∷◌, is_empty, All, inl, inr,
  Bool-cases, ◌⊎◌,
}
use gokvkit.Errors.{GoError}
use gokvkit.Errors.Outcome.{Outcome, ok, fail, panic, >>=-eq-ok}
use gokvkit.Errors.Exec.{}
use gokvkit.Errors.Runs.{OfResult}
use gokvkit.Model.Schema.{Index, Trigger, primary_key, primary_key_lem}
use gokvkit.Vendor.Lo.{elem}
use gokvkit.Configuration.{has_key}
use gokvkit.Loading.Parts.{
  SchemaTools, Loading, Properties, nothing_loaded, attempted, primary_index_at,
}
use gokvkit.Loading.Walk.{load_properties, wrapped}
use gokvkit.Loading.{
  Loaded, check_each, values, schema_of, required_fields, all_triggers, rest_checked, made,
  load_authz, checked, loaded, load_text, yaml_to_json, new_collection_schema,
}
use gokvkit.Loading.Steps.{IndexOf, IsPrimary, IsLoaded}
use gokvkit.Loading.Keeping.{Keeps-load_properties}

module _ (T : SchemaTools) where
  open T.gjson use {Result, exists, get, entries}

  -- The checks of a loop that returns no error
  check_each-All :
      {A : Type 0} (check : A → GoError ⊎ Unit {0}) (as_ : List A)
      → check_each T check as_ ≡ ok tt
      → All (λ a. check a ≡ inr tt) as_
  unfolding check_each
  check_each-All check [] e = tt
  check_each-All check (a ∷ as_) e =
      let (_, e1, r1) = >>=-eq-ok (attempted (check a)) (λ _. check_each T check as_) e in
      (passed (check a) e1, check_each-All check as_ r1)
    where
      passed : (o : GoError ⊎ Unit {0}) → attempted o ≡ ok tt → o ≡ inr tt
      passed (inl e) h = cc
      passed (inr x) h = refl

  -- A schema has one primary index, over one field, which is a property that it requires; each index
  -- is in its map under its name and starts with a property; no other index is primary; and the
  -- validator accepts the properties and the indexes.
  pub record IsWellFormed (c : Loaded T) : Type 0 where
    pub primary : c.schema.primary_index ≡ primary_index_at (primary_key c.schema)
    pub primary_known : has_key (primary_key c.schema) c.schema.property_paths ≡ true
    pub primary_required : elem (required_fields T c.raw) (primary_key c.schema) ≡ true
    pub indexes :
        All
          (IndexOf (λ f. has_key f c.schema.property_paths ≡ true) c.schema.primary_index)
          c.indexing
    pub valid_properties : All (λ p. T.valid_property p ≡ inr tt) (values T c.schema.property_paths)
    pub valid_indexes : All (λ i. T.valid_index i ≡ inr tt) (values T c.indexing)

  -- A schema that was made of a result
  pub record Checked (r : Result) (c : Loaded T) : Type 0 where
    pub well_formed : IsWellFormed c
    pub raw_is : c.raw ≡ r

  no_fields : (s : Loading) → IsLoaded s → is_empty s.primary_index.fields ≡ false → IsPrimary s
  no_fields s l e = elim l.primary [
    | inl z ↦ absurd (
        let n : true ≡ false = sym (ap (λ (i : Index). is_empty i.fields) z) ∙ e in
        let m : ⊥ = cc in m)
    | inr q ↦ q
  ]

  -- After the properties and the indexes were checked
  rest-Checked :
      (r : Result) (ps : Properties) (s : Loading) (c : Loaded T) (triggers : List Trigger)
      → IsLoaded s
      → IsPrimary s
      → check_each T T.valid_property (values T s.property_paths) ≡ ok tt
      → check_each T T.valid_index (values T s.indexing) ≡ ok tt
      → rest_checked T r ps s triggers ≡ ok c
      → Checked r c
  unfolding rest_checked
  rest-Checked r ps s c triggers l q e1 e2 e =
      elim (Bool-cases
        (T.lo.contains (required_fields T r) (primary_key (schema_of T r s triggers [])))) [
          | inl yes_ ↦
              let (rules, e4, r4) =
                >>=-eq-ok (load_authz T (get r (str "x-authorization"))) _ (rw yes_ at e) in
              subst (Checked r) (let same : made T r ps s triggers rules ≡ c = cc in same) (
                let key : primary_key (schema_of T r s triggers rules) ≡ q.path =
                  primary_key_lem (schema_of T r s triggers rules) q.path []
                    (ap (λ (i : Index). i.fields) q.index_is) in
                let key' : primary_key (schema_of T r s triggers []) ≡ q.path =
                  primary_key_lem (schema_of T r s triggers []) q.path []
                    (ap (λ (i : Index). i.fields) q.index_is) in
                record {
                  raw_is = refl;
                  well_formed = record {
                    primary = q.index_is ∙ ap primary_index_at (sym key);
                    primary_known = ap (λ f. has_key f s.property_paths) key ∙ q.known;
                    primary_required =
                        ap (elem (required_fields T r)) (key ∙ sym key')
                        ∙ sym (
                            T.lo.contains_lem (required_fields T r)
                              (primary_key (schema_of T r s triggers [])))
                        ∙ yes_;
                    indexes = l.indexes;
                    valid_properties =
                        check_each-All T.valid_property (values T s.property_paths) e1;
                    valid_indexes = check_each-All T.valid_index (values T s.indexing) e2;
                  };
                })
          | inr no_ ↦ absurd (let f : fail _ ≡ ok c = rw no_ at e in let n : ⊥ = cc in n)
        ]

  checked-Checked :
      (r : Result) (ps : Properties) (s : Loading) (c : Loaded T)
      → IsLoaded s
      → checked T r ps s ≡ ok c
      → Checked r c
  unfolding checked
  checked-Checked r ps s c l e =
      let (_, e1, r1) = >>=-eq-ok (check_each T T.valid_property (values T s.property_paths)) _ e in
      let (_, e2, r2) = >>=-eq-ok (check_each T T.valid_index (values T s.indexing)) _ r1 in
      elim (Bool-cases (is_empty s.primary_index.fields)) [
        | inl none_ ↦ absurd (let f : fail _ ≡ ok c = rw none_ at r2 in let n : ⊥ = cc in n)
        | inr some_ ↦
            let (triggers, e3, r3) =
              >>=-eq-ok (all_triggers T (get r (str "x-triggers"))) (rest_checked T r ps s)
                (rw some_ at r2) in
            rest-Checked r ps s c triggers l (no_fields s l some_) (e1) (e2) r3
      ]

  nothing-IsLoaded : IsLoaded nothing_loaded
  nothing-IsLoaded = record { indexes = tt; primary = inl refl }

  pub load_text-Checked :
      (depth : ℕ) (text : Str) (c : Loaded T)
      → load_text T depth text ≡ ok c
      → Checked (T.gjson.parse_bytes text) c
  unfolding load_text
  load_text-Checked depth text c e =
      let r = T.gjson.parse_bytes text in
      let (_, e1, r1) = >>=-eq-ok (wrapped T (str "invalid json schema") (T.compile text)) _ e in
      go r (load_properties T depth r (get r (str "properties")) nothing_loaded)
        (Keeps-load_properties T depth r (get r (str "properties")) nothing_loaded
          nothing-IsLoaded).ran
        r1
    where
      go :
          (r : Result) (o : Outcome Properties × Loading)
          → OfResult (λ _ u. IsLoaded u) o
          → loaded T r o ≡ ok c
          → Checked r c
      go r (ok ps, s) l e = checked-Checked r ps s c l e
      go r (fail x, s) l e = cc
      go r (panic, s) l e = cc

  -- Every schema that newCollectionSchema returns is well-formed: its primary index has one field,
  -- which is a property that the schema requires; each index is in its map under its name and starts
  -- with a property; no other index is marked as primary; and the validator accepts the properties
  -- and the indexes.
  pub new_collection_schema-IsWellFormed :
      (depth : ℕ) (yaml : Str) (c : Loaded T)
      → new_collection_schema T depth yaml ≡ ok c
      → IsWellFormed c
  unfolding new_collection_schema
  new_collection_schema-IsWellFormed depth yaml c e = elim (Bool-cases (is_empty yaml)) [
    | inl none_ ↦ absurd (let f : fail _ ≡ ok c = rw none_ at e in let n : ⊥ = cc in n)
    | inr some_ ↦
        let (text, e1, r1) = >>=-eq-ok (yaml_to_json T yaml) (load_text T depth) (rw some_ at e) in
        (load_text-Checked depth text c r1).well_formed
  ]
