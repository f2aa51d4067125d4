-- ===== src/Loading/Keeping.antt =====
-- What the loading of properties keeps of a schema: its indexes stand for its properties.
use gokvkit.Prelude.{ℕ, zero, suc, Str, str, true, not, ◌&&◌, List, [], ◌∷◌, put, Option}
use gokvkit.Errors.Outcome.{Outcome, ok, fail, panic}
use gokvkit.Errors.Exec.{Exec, pure, lift, modify, ◌>>=◌, ◌>>◌}
use gokvkit.Errors.Runs.{Runs, Runs-bind, Runs-if}
use gokvkit.Model.Schema.{SchemaProperty, ComputedField}
use gokvkit.Loading.Parts.{SchemaTools, Loading, Properties, put_named, put_path, put_key}
use gokvkit.Loading.Walk.{
  resolve, load_nested, finish_property, optional, or_none, property_path, property_of, is_object,
  load_property, load_each, load_properties,
}
use gokvkit.Loading.Steps.{IsLoaded, put_path-IsLoaded, put_key-IsLoaded}

abbrev pub Keeps : {A : Type 0} → Loading → Exec Loading A → Type 0
Keeps s m = Runs s (λ _ u. IsLoaded u) m

Keeps-lift : {A : Type 0} (s : Loading) (o : Outcome A) → IsLoaded s → Keeps s (lift o)
Keeps-lift s (ok a) l = record { ran = l }
Keeps-lift s (fail e) l = record { ran = tt }
Keeps-lift s panic l = record { ran = tt }

Keeps-bind :
    {A B : Type 0} (s : Loading) (m : Exec Loading A) (f : A → Exec Loading B)
    → Keeps s m
    → ((a : A) (u : Loading) → IsLoaded u → Keeps u (f a))
    → Keeps s (m >>= f)
Keeps-bind s m f h k = Runs-bind (λ _ u. IsLoaded u) (λ _ u. IsLoaded u) s m f h k

Keeps-lift_bind :
    {A B : Type 0} (s : Loading) (o : Outcome A) (f : A → Exec Loading B)
    → IsLoaded s
    → ((a : A) (u : Loading) → IsLoaded u → Keeps u (f a))
    → Keeps s (lift o >>= f)
Keeps-lift_bind s o f l k = Keeps-bind s (lift o) f (Keeps-lift s o l) k

Keeps-writes :
    (p : SchemaProperty) (named : List (Str × List Str)) (s : Loading)
    → IsLoaded s
    → Keeps s (modify (put_named p.path named) >> (modify (put_path p) >> (put_key p >> pure p)))
Keeps-writes p named s l =
    let t = put_path p (put_named p.path named s) in
    let (there, here) = put_path-IsLoaded p named s l in
    record {
      ran =
          (Keeps-bind t (put_key p) (λ _. pure p) (put_key-IsLoaded p t there here)
            (λ _ u h. record { ran = h })).ran;
    }

module _ (T : SchemaTools) where
  open T.gjson use {Result, exists, get, entries}

  Keeps-finish_property :
      (root : Result) (key : Str) (r v : Result) (compute : Option ComputedField) (s : Loading)
      → IsLoaded s
      → Keeps s (finish_property T root key r v compute)
  unfolding finish_property
  Keeps-finish_property root key r v compute s l =
      Keeps-lift_bind s
        (optional T (not (is_object T v)) T.decode_foreign
          (str "failed to decode foreignKey on property") (get v (str "x-foreign")))
        _ l
        λ foreign s1 l1.
          Keeps-lift_bind s1
            (optional T (not (is_object T v)) T.decode_indexes
              (str "failed to decode index on property") (get v (str "x-index")))
            _ l1
            λ named s2 l2.
              Keeps-writes (property_of T key (property_path T root r) v compute foreign)
                (or_none T named) s2 l2

  module _ (nested : Result → Exec Loading Properties)
      (keep : (r : Result) (s : Loading) → IsLoaded s → Keeps s (nested r)) where
    Keeps-load_nested : (v : Result) (s : Loading) → IsLoaded s → Keeps s (load_nested T nested v)
    unfolding load_nested
    Keeps-load_nested v s l =
        Runs-if (λ _ u. IsLoaded u) s (exists (get v (str "properties")) && is_object T v)
          (nested (get v (str "properties"))) (pure []) (λ _. keep (get v (str "properties")) s l)
          (λ _. record { ran = l })

    Keeps-load_property :
        (root : Result) (key : Str) (r : Result) (s : Loading)
        → IsLoaded s
        → Keeps s (load_property T nested root key r)
    unfolding load_property
    Keeps-load_property root key r s l = Keeps-lift_bind s (resolve T root r) _ l λ v s1 l1.
        Keeps-lift_bind s1
          (optional T true T.decode_compute (str "failed to decode computed field")
            (get v (str "x-compute")))
          _ l1
          λ compute s2 l2.
            Keeps-bind s2 (load_nested T nested v) (λ _. finish_property T root key r v compute)
              (Keeps-load_nested v s2 l2)
              (λ _ s3 l3. Keeps-finish_property root key r v compute s3 l3)

    Keeps-load_each :
        (root : Result) (rs : List (Str × Result)) (ps : Properties) (s : Loading)
        → IsLoaded s
        → Keeps s (load_each T nested root rs ps)
    unfolding load_each
    Keeps-load_each root [] ps s l = record { ran = l }
    Keeps-load_each root ((k, r) ∷ rs) ps s l =
        Keeps-bind s (load_property T nested root k r) _ (Keeps-load_property root k r s l)
          (λ p u h. Keeps-load_each root rs (put k p ps) u h)

  pub Keeps-load_properties :
      (depth : ℕ) (root r : Result) (s : Loading)
      → IsLoaded s
      → Keeps s (load_properties T depth root r)
  unfolding load_properties
  Keeps-load_properties zero root r s l = record { ran = tt }
  Keeps-load_properties (suc depth) root r s l =
      Runs-if (λ _ u. IsLoaded u) s (not (exists r)) (pure []) _ (λ _. record { ran = l })
        (λ _.
          Keeps-load_each (load_properties T depth root)
            (λ r u h. Keeps-load_properties depth root r u h) root (entries r) [] s l)
