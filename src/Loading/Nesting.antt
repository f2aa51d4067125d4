-- ===== src/Loading/Nesting.antt =====
-- How deep the objects of a schema may be nested for a bound to be enough.
use gokvkit.Prelude.{
  ◌≡◌, ◌≢◌, refl, ℕ, zero, suc, Str, str, true, not, ◌&&◌, List, [], ◌∷◌, is_empty, put, inl, inr,
  Bool-cases, All, All-mono,
}
use gokvkit.Errors.Outcome.{Outcome, ok, fail, panic, ◌>>=◌ as bind}
use gokvkit.Errors.Exec.{Exec, pure}
use gokvkit.Loading.Parts.{SchemaTools, Loading, Properties, nothing_loaded}
use gokvkit.Loading.Walk.{
  resolve, load_nested, finish_property, optional, is_object, load_property, load_each,
  load_properties, wrapped,
}
use gokvkit.Loading.{loaded, load_text, yaml_to_json, new_collection_schema}
use gokvkit.Loading.Ending.{
  Ended, returns, refuses, Ends, Ends-bind, Ends-lift_bind, Ended-if, Ended-attempted, Ended-ne,
  Ended-bind, Ends-if, Ended-wrapped, Ended-resolve, Ended-optional, Ends-finish_property,
  Ended-checked,
}

module _ (T : SchemaTools) where
  open T.gjson use {Result, exists, get, entries}

  -- The objects within the properties of a result, through references, are nested less than `depth`
  -- deep.
  abbrev pub Nests : ℕ → Result → Result → Type 0
  Nests zero root r = ⊥
  Nests (suc depth) root r =
      All
        (λ (e : Str × Result).
          (v : Result) → resolve T root e.1 ≡ ok v → Nests depth root (get v (str "properties")))
        (entries r)

  module _ (nested : Result → Exec Loading Properties) (root : Result) where
    Ends-load_property :
        (key : Str) (r : Result)
        → ((v : Result) → resolve T root r ≡ ok v → Ends (nested (get v (str "properties"))))
        → Ends (load_property T nested root key r)
    unfolding load_property load_nested
    Ends-load_property key r h = Ends-lift_bind (resolve T root r) _ (Ended-resolve T root r) λ v e.
        Ends-lift_bind
          (optional T true T.decode_compute (str "failed to decode computed field")
            (get v (str "x-compute")))
          _
          (Ended-optional T true T.decode_compute (str "failed to decode computed field")
            (get v (str "x-compute")))
          λ compute _.
            Ends-bind (load_nested T nested v) (λ _. finish_property T root key r v compute)
              (record {
                ended = λ s.
                    elim (Bool-cases (exists (get v (str "properties")) && is_object T v)) [
                      | inl yes_ ↦ rw yes_ ((h v e).ended s)
                      | inr no_ ↦ rw no_ (returns [])
                    ];
              })
              (λ _. Ends-finish_property T root key r v compute)

    Ends-load_each :
        (rs : List (Str × Result)) (ps : Properties)
        → All
            (λ (e : Str × Result).
              (v : Result) → resolve T root e.1 ≡ ok v → Ends (nested (get v (str "properties"))))
            rs
        → Ends (load_each T nested root rs ps)
    unfolding load_each
    Ends-load_each [] ps h = record { ended = λ s. returns ps }
    Ends-load_each ((k, r) ∷ rs) ps h =
        Ends-bind (load_property T nested root k r) _ (Ends-load_property k r h.0)
          (λ p. Ends-load_each rs (put k p ps) h.1)

  Ends-load_properties :
      (depth : ℕ) (root r : Result) → Nests depth root r → Ends (load_properties T depth root r)
  unfolding load_properties
  Ends-load_properties zero root r h = absurd h
  Ends-load_properties (suc depth) root r h =
      Ends-if (not (exists r)) (pure [])
        (load_each T (load_properties T depth root) root (entries r) [])
        (record { ended = λ s. returns [] })
        (Ends-load_each (load_properties T depth root) root (entries r) [] (
          All-mono
            (λ (e : Str × Result).
              (v : Result)
              → resolve T root e.1 ≡ ok v
              → Nests depth root (get v (str "properties")))
            (λ (e : Str × Result).
              (v : Result)
              → resolve T root e.1 ≡ ok v
              → Ends (load_properties T depth root (get v (str "properties"))))
            (entries r)
            (λ e n v q. Ends-load_properties depth root (get v (str "properties")) (n v q)) h))

  Ended-load_text :
      (depth : ℕ) (text : Str)
      → Nests depth (T.gjson.parse_bytes text) (get (T.gjson.parse_bytes text) (str "properties"))
      → Ended (load_text T depth text)
  unfolding load_text
  Ended-load_text depth text h =
      let r = T.gjson.parse_bytes text in
      Ended-bind (wrapped T (str "invalid json schema") (T.compile text)) _
        (Ended-wrapped T (str "invalid json schema") (T.compile text))
        λ _.
          go r (load_properties T depth r (get r (str "properties")) nothing_loaded)
            ((Ends-load_properties depth r (get r (str "properties")) h).ended nothing_loaded)
    where
      go : (r : Result) (o : Outcome Properties × Loading) → Ended o.0 → Ended (loaded T r o)
      go r (ok ps, s) e = Ended-checked T r ps s
      go r (fail x, s) e = refuses x
      go r (panic, s) e = elim e [ ]

  Ended-yaml : (yaml : Str) → Ended (yaml_to_json T yaml)
  unfolding yaml_to_json
  Ended-yaml yaml =
      Ended-if (T.is_json yaml) _ _ (returns yaml) (Ended-attempted (T.convert_yaml yaml))

  -- Where the objects of a schema are nested less deep than the bound, references followed, the loading
  -- of its text comes to a schema or an error.
  pub new_collection_schema-Nests :
      (depth : ℕ) (yaml : Str)
      → ((text : Str)
          → yaml_to_json T yaml ≡ ok text
          → Nests depth
              (T.gjson.parse_bytes text)
              (get (T.gjson.parse_bytes text) (str "properties")))
      → new_collection_schema T depth yaml ≢ panic
  unfolding new_collection_schema
  new_collection_schema-Nests depth yaml h =
      Ended-ne _
        (Ended-if (is_empty yaml) _ _ (refuses _) (go (yaml_to_json T yaml) (Ended-yaml yaml) h))
    where
      go :
          (o : Outcome Str)
          → Ended o
          → ((text : Str)
              → o ≡ ok text
              → Nests depth
                  (T.gjson.parse_bytes text)
                  (get (T.gjson.parse_bytes text) (str "properties")))
          → Ended (bind {0, 0} o (load_text T depth))
      go (ok text) e n = Ended-load_text depth text (n text refl)
      go (fail x) e n = refuses x
      go panic e n = elim e [ ]
