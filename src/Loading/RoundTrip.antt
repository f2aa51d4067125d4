-- ===== src/Loading/RoundTrip.antt =====
-- A schema that is read back from the text by which it was saved.
use gokvkit.Prelude.{◌≡◌, refl, sym, ap, ◌∙◌, ℕ, Str, true, false, is_empty, inl, inr, Bool-cases}
use gokvkit.Errors.Outcome.{Outcome, ok, fail, ◌>>=◌ as bind, >>=-eq-ok}
use gokvkit.Loading.Parts.{SchemaTools}
use gokvkit.Loading.{
  Loaded, yaml_to_json, load_text, new_collection_schema, marshal_json, unmarshal_json,
  refresh_schema,
}
use gokvkit.Loading.WellFormed.{load_text-Checked}

module _ (T : SchemaTools) where
  -- From a JSON text, a schema is loaded as the text is.
  new_collection_schema-json :
      (depth : ℕ) (text : Str)
      → is_empty text ≡ false
      → T.is_json text ≡ true
      → new_collection_schema T depth text ≡ load_text T depth text
  unfolding new_collection_schema yaml_to_json
  new_collection_schema-json depth text some_ json = rw (some_, json) refl

  -- The name of the collection, which is all that is kept, is that of the text.
  unmarshal-own :
      (depth : ℕ) (text : Str) (c old : Loaded T)
      → old.schema.collection ≡ c.schema.collection
      → new_collection_schema T depth text ≡ ok c
      → unmarshal_json T depth old text ≡ ok c
  unfolding unmarshal_json refresh_schema
  unmarshal-own depth text c old same e =
      ap
        (λ (o : Outcome (Loaded T)). bind {0, 0} {A = Loaded T} {B = Loaded T} o λ fresh.
          ok (record fresh { schema = record fresh.schema { collection = old.schema.collection } }))
        e
      ∙ ap
          (λ (n : Str).
            let d : Outcome (Loaded T) =
              ok (record c { schema = record c.schema { collection = n } }) in
            d)
          same

  -- A schema that was loaded is marshalled to its JSON text; from there the same schema is loaded
  -- again, and any schema of that collection becomes it, if the text is not empty, is found to be JSON,
  -- and is the raw text of its parse.
  pub new_collection_schema-marshal_json :
      (depth : ℕ) (yaml text : Str) (c old : Loaded T)
      → yaml_to_json T yaml ≡ ok text
      → is_empty text ≡ false
      → T.is_json text ≡ true
      → T.gjson.raw (T.gjson.parse_bytes text) ≡ text
      → old.schema.collection ≡ c.schema.collection
      → new_collection_schema T depth yaml ≡ ok c
      → (marshal_json T c ≡ text)
        × (new_collection_schema T depth (marshal_json T c) ≡ ok c)
        × (unmarshal_json T depth old (marshal_json T c) ≡ ok c)
  unfolding new_collection_schema marshal_json
  new_collection_schema-marshal_json depth yaml text c old converted some_ json kept own e =
      elim (Bool-cases (is_empty yaml)) [
        | inl none_ ↦ absurd (let f : fail _ ≡ ok c = rw none_ at e in let n : ⊥ = cc in n)
        | inr more ↦
            let (x, e1, r1) = >>=-eq-ok (yaml_to_json T yaml) (load_text T depth) (rw more at e) in
            let same : x ≡ text = cc in
            let found : load_text T depth text ≡ ok c = ap (load_text T depth) (sym same) ∙ r1 in
            let saved : marshal_json T c ≡ text =
              ap T.gjson.raw (load_text-Checked T depth text c found).raw_is ∙ kept in
            let again : new_collection_schema T depth (marshal_json T c) ≡ ok c =
              ap (new_collection_schema T depth) saved
              ∙ new_collection_schema-json depth text some_ json
              ∙ found in
            (saved, again, unmarshal-own depth (marshal_json T c) c old own again)
      ]
