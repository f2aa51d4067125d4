-- ===== src/Configuration/References.antt =====
-- dag.go: the graph of collections and their foreign keys.
pub mod Known
pub mod Samples
mod Tests
use gokvkit.Prelude.{
  ◌≡◌, Str, str, Bool, true, not, ◌==◌, List, [], ◌∷◌, Option, none, some, ◌⊎◌, inl, inr,
  if◌then◌else◌, All,
}
use gokvkit.Errors.{GoError, new, validation}
use gokvkit.Errors.Outcome.{Outcome, ok, fail, panic, ◌>>=◌, ◌>>◌}
use gokvkit.Model.Schema.{SchemaProperty, ForeignKey}
use gokvkit.Vendor.Lo.{elem}
use gokvkit.Loading.Parts.{SchemaTools, is_some}
use gokvkit.Loading.{Loaded}

-- github.com/autom8ter/dagger: a graph whose nodes, here all of one type, carry an attribute.
pub record Dagger (A : Type 0) : Type 1 where
  pub Graph : Type 0
  pub new_graph : Graph
  pub set_node : Str → A → Graph → Graph
  pub get_node : Str → Graph → Option A
  pub has_node : Str → Graph → Bool
  -- from a node to another, with the name of the edge
  pub set_edge : Str → Str → Str → Graph → GoError ⊎ Graph
  -- the nodes in the order of the visit
  pub topological_sort : Graph → List Str
  pub reverse_topological_sort : Graph → List Str

-- A node is there once it was set; an edge between nodes that are there is set without an error; and a
-- visit meets nodes of the graph only.
pub record DaggerLaws {A : Type 0} (d : Dagger A) : Type 0 where
  pub has-new_graph : (k : Str) → d.has_node k d.new_graph ≡ Bool.false
  pub has-set_node :
      (j k : Str) (a : A) (g : d.Graph)
      → d.has_node k (d.set_node j a g) ≡ (if j == k then true else d.has_node k g)
  pub get_has : (k : Str) (g : d.Graph) → is_some (d.get_node k g) ≡ d.has_node k g
  pub set_edge_ok :
      (from to name : Str) (g : d.Graph)
      → d.has_node from g ≡ true
      → d.has_node to g ≡ true
      → (h : d.Graph) × (d.set_edge from to name g ≡ inr h)
  pub has-set_edge :
      (from to name k : Str) (g h : d.Graph)
      → d.set_edge from to name g ≡ inr h
      → d.has_node k h ≡ d.has_node k g
  pub visits : (g : d.Graph) → All (λ k. d.has_node k g ≡ true) (d.topological_sort g)
  pub visits_reverse :
      (g : d.Graph) → All (λ k. d.has_node k g ≡ true) (d.reverse_topological_sort g)

module _ (T : SchemaTools) (d : Dagger (Loaded T)) where
  -- The schemas that a visit collects
  unfoldable pub collected : d.Graph → List Str → Outcome (List (Loaded T))
  collected g [] = ok []
  collected g (k ∷ ks) =
      let rest = collected g ks in
      elim (d.get_node k g) [
        | none ↦ fail (new validation (str "schema not found"))
        | some c ↦ rest >>= λ cs. ok (c ∷ cs)
      ]

  unfoldable pub topological_sort : d.Graph → Outcome (List (Loaded T))
  unfolding collected
  topological_sort g = collected g (d.topological_sort g)

  unfoldable pub reverse_topological_sort : d.Graph → Outcome (List (Loaded T))
  unfolding collected
  reverse_topological_sort g = collected g (d.reverse_topological_sort g)

  unfoldable pub set_nodes : List (Loaded T) → d.Graph → d.Graph
  set_nodes [] g = g
  set_nodes (c ∷ cs) g = set_nodes cs (d.set_node c.schema.collection c g)

  -- An error of SetEdge is a panic.
  unfoldable pub edge_set : GoError ⊎ d.Graph → Outcome d.Graph
  edge_set (inl e) = panic
  edge_set (inr g) = ok g

  unfoldable pub set_reference :
      Str → SchemaProperty → Option ForeignKey → d.Graph → Outcome d.Graph
  unfolding edge_set
  set_reference from p none g = ok g
  set_reference from p (some f) g =
      if not (d.has_node f.collection g)
      then fail (new validation (str "foreign key collection not found"))
      else edge_set (d.set_edge from f.collection p.name g)

  unfoldable pub set_references : Str → List (Str × SchemaProperty) → d.Graph → Outcome d.Graph
  unfolding set_reference
  set_references from [] g = ok g
  set_references from ((k, p) ∷ ps) g =
      set_reference from p p.foreign_key g >>= λ h. set_references from ps h

  unfoldable pub set_edges : List (Loaded T) → d.Graph → Outcome d.Graph
  unfolding set_references
  set_edges [] g = ok g
  set_edges (c ∷ cs) g = set_references c.schema.collection c.properties g >>= λ h. set_edges cs h

  -- The graph that SetSchemas puts in the place of the old one
  unfoldable pub set_schemas : List (Loaded T) → Outcome d.Graph
  unfolding set_nodes set_edges topological_sort reverse_topological_sort
  set_schemas cs = do
    g ← set_edges cs (set_nodes cs d.new_graph)
    topological_sort g
    reverse_topological_sort g
    ok g

module _ (T : SchemaTools) where
  -- The collections of the schemas
  abbrev pub names : List (Loaded T) → List Str
  names [] = []
  names (c ∷ cs) = c.schema.collection ∷ names cs

  -- A foreign key refers to one of some collections.
  abbrev pub Refers : List Str → Option ForeignKey → Type 0
  Refers ns none = Unit
  Refers ns (some f) = elem ns f.collection ≡ true

  abbrev pub AllRefer : List Str → List (Loaded T) → Type 0
  AllRefer ns cs =
      All
        (λ (c : Loaded T).
          All (λ (e : Str × SchemaProperty). Refers ns e.1.foreign_key) c.properties)
        cs
