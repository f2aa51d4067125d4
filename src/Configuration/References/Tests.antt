-- ===== src/Configuration/References/Tests.antt =====
-- Notes refer to users: both together can be set up, notes alone cannot.
use gokvkit.Prelude.{
  ◌≡◌, refl, ap, Str, str, Bool, true, false, ◌==◌, ==_refl, List, [], ◌∷◌, inr, lookup, All,
  All-mono, Bool-cases, inl, if◌then◌else◌, arith, has_prefix, put, without,
}
use gokvkit.Errors.Outcome.{Outcome, ok, fail}
use gokvkit.Model.Schema.{primary_key}
use gokvkit.Vendor.Lo.{elem}
use gokvkit.Configuration.{has_key}
use gokvkit.Loading.Parts.{is_some}
use gokvkit.Loading.{Loaded, new_collection_schema}
use gokvkit.Loading.Samples.{tools, notes_schema}
use gokvkit.Configuration.References.Samples.{keys, node_list}
use gokvkit.Configuration.References.{DaggerLaws, set_schemas, names, AllRefer}
use gokvkit.Configuration.References.Known.{set_schemas-AllRefer}

module _ {A : Type 0} where
  is_some-lookup : (k : Str) (m : List (Str × A)) → is_some (lookup k m) ≡ has_key k m
  unfolding lookup has_key
  is_some-lookup k [] = refl
  is_some-lookup k ((j, a) ∷ m) = elim (Bool-cases (j == k)) [
    | inl e ↦ rw e refl
    | inr e ↦ rw e (is_some-lookup k m)
  ]

  has_key-keys : (m : List (Str × A)) → All (λ k. has_key k m ≡ true) (keys m)
  unfolding has_key
  has_key-keys [] = tt
  has_key-keys ((j, a) ∷ m) = (
    rw (==_refl j) refl,
    All-mono (λ k. has_key k m ≡ true) (λ k. has_key k ((j, a) ∷ m) ≡ true) (keys m)
        (λ k h. rw h (ground arith)) (has_key-keys m),
  )

  has_key-cons :
      (j k : Str) (a : A) (m : List (Str × A))
      → has_key k ((j, a) ∷ m) ≡ (if j == k then true else has_key k m)
  unfolding has_key
  has_key-cons j k a m = ground arith

node_list_laws : DaggerLaws node_list
unfolding has_key
node_list_laws = record {
  has-new_graph = λ k. refl;
  has-set_node = λ j k a g. has_key-cons j k a g;
  get_has = is_some-lookup;
  set_edge_ok = λ from to name g p q. (g, refl);
  has-set_edge = λ from to name k g h e. ap (has_key k) (let s : h ≡ g = cc in s);
  visits = has_key-keys;
  visits_reverse = has_key-keys;
}

abbrev users_schema : Loaded tools
users_schema = record {
  schema = record notes_schema.schema { collection = str "user" };
  indexing = [];
  properties = [];
  raw = notes_schema.raw;
}

set_schemas-AllRefer_example :
    ((g : node_list.Graph)
      → set_schemas tools node_list (notes_schema ∷ users_schema ∷ []) ≡ ok g
      → AllRefer tools
          (names tools (notes_schema ∷ users_schema ∷ []))
          (notes_schema ∷ users_schema ∷ [])
        × ((k : Str)
            → node_list.has_node k g ≡ elem (names tools (notes_schema ∷ users_schema ∷ [])) k))
    × (AllRefer tools
          (names tools (notes_schema ∷ users_schema ∷ []))
          (notes_schema ∷ users_schema ∷ [])
        → (g : node_list.Graph) × (set_schemas tools node_list (notes_schema ∷ users_schema ∷ [])
            ≡ ok g))
set_schemas-AllRefer_example =
    set_schemas-AllRefer tools node_list node_list_laws (notes_schema ∷ users_schema ∷ [])

abbrev refused : Outcome (List (Str × Loaded tools)) → Bool
refused (ok g) = false
refused (fail e) = true
refused _ = false

notes_alone : refused (set_schemas tools node_list (notes_schema ∷ [])) ≡ true
unfolding set_schemas new_collection_schema has_key lookup ◌==◌ has_prefix put without primary_key
notes_alone = refl

with_users : refused (set_schemas tools node_list (notes_schema ∷ users_schema ∷ [])) ≡ false
unfolding set_schemas new_collection_schema has_key lookup ◌==◌ has_prefix put without primary_key
with_users = refl
