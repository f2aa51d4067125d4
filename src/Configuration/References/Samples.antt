-- ===== src/Configuration/References/Samples.antt =====
-- A graph for the tests.
use gokvkit.Prelude.{Str, List, [], ◌∷◌, inr, lookup}
use gokvkit.Configuration.{has_key}
use gokvkit.Loading.{Loaded}
use gokvkit.Loading.Samples.{tools}
use gokvkit.Configuration.References.{Dagger}

abbrev pub keys {ℓ} : {A : Type ℓ} → List (Str × A) → List Str
keys [] = []
keys ((k, a) ∷ m) = k ∷ keys m

-- A graph that keeps its nodes, and visits them as they stand.
abbrev pub node_list : Dagger (Loaded tools)
node_list = record {
  Graph = List (Str × Loaded tools);
  new_graph = [];
  set_node = λ k a g. (k, a) ∷ g;
  get_node = lookup;
  has_node = has_key;
  set_edge = λ from to name g. inr g;
  topological_sort = keys;
  reverse_topological_sort = keys;
}
