-- ===== src/Configuration/References/Known.antt =====
-- When the graph of the collections can be set up.
use gokvkit.Prelude.{
  ◌≡◌, refl, sym, ap, ◌∙◌, Str, true, ◌||◌, ==_refl, List, [], ◌∷◌, Option, none, some, inl, inr,
  ◌⊎◌, All, All-mono, Bool-cases, arith,
}
use gokvkit.Errors.{GoError}
use gokvkit.Errors.Outcome.{ok, fail, >>=-eq-ok}
use gokvkit.Model.Schema.{SchemaProperty, ForeignKey}
use gokvkit.Vendor.Lo.{elem}
use gokvkit.Loading.Parts.{SchemaTools, is_some}
use gokvkit.Loading.{Loaded}
use gokvkit.Configuration.References.{
  Dagger, DaggerLaws, collected, topological_sort, reverse_topological_sort, set_nodes,
  set_reference, set_references, edge_set, set_edges, set_schemas, names, Refers, AllRefer,
}

some_of : {A : Type 0} (o : Option A) → is_some o ≡ true → (a : A) × (o ≡ some a)
some_of none h = cc
some_of (some a) h = (a, refl)

module _ (T : SchemaTools) (d : Dagger (Loaded T)) (laws : DaggerLaws d) where
  -- The nodes of a graph are some names.
  abbrev Nodes : List Str → d.Graph → Type 0
  Nodes ns g = (k : Str) → d.has_node k g ≡ elem ns k

  has-set_nodes :
      (cs : List (Loaded T)) (g : d.Graph) (k : Str)
      → d.has_node k (set_nodes T d cs g) ≡ (elem (names T cs) k || d.has_node k g)
  unfolding set_nodes
  has-set_nodes [] g k = refl
  has-set_nodes (c ∷ cs) g k =
      has-set_nodes cs (d.set_node c.schema.collection c g) k
      ∙ ground (arith, laws.has-set_node c.schema.collection k c g)

  Nodes-edge_set :
      (from to name : Str) (ns : List Str) (g h : d.Graph)
      → Nodes ns g
      → edge_set T d (d.set_edge from to name g) ≡ ok h
      → Nodes ns h
  unfolding edge_set
  Nodes-edge_set from to name ns g h n e = go (d.set_edge from to name g) refl e
    where
      go :
          (o : GoError ⊎ d.Graph)
          → d.set_edge from to name g ≡ o
          → edge_set T d o ≡ ok h
          → Nodes ns h
      go (inl x) q e = cc
      go (inr i) q e =
          λ k. laws.has-set_edge from to name k g h (q ∙ ap inr (let s : i ≡ h = cc in s)) ∙ n k

  -- A foreign key that was entered refers to a node, and adds none.
  set_reference-Refers :
      (from : Str) (ns : List Str) (p : SchemaProperty) (f : Option ForeignKey) (g h : d.Graph)
      → Nodes ns g
      → set_reference T d from p f g ≡ ok h
      → Refers T ns f × Nodes ns h
  unfolding set_reference
  set_reference-Refers from ns p none g h n e =
      (tt, λ k. ap (d.has_node k) (let s : h ≡ g = cc in s) ∙ n k)
  set_reference-Refers from ns p (some f) g h n e = elim (Bool-cases (d.has_node f.collection g)) [
    | inl there ↦ (
      sym (n f.collection) ∙ there,
      Nodes-edge_set from f.collection p.name ns g h n (rw there at e),
    )
    | inr away ↦ absurd (let x : fail _ ≡ ok h = rw away at e in let b : ⊥ = cc in b)
  ]

  abbrev Edges : List Str → List (Str × SchemaProperty) → Type 0
  Edges ns ps = All (λ (e : Str × SchemaProperty). Refers T ns e.1.foreign_key) ps

  set_references-Edges :
      (from : Str) (ns : List Str) (ps : List (Str × SchemaProperty)) (g h : d.Graph)
      → Nodes ns g
      → set_references T d from ps g ≡ ok h
      → Edges ns ps × Nodes ns h
  unfolding set_references
  set_references-Edges from ns [] g h n e =
      (tt, λ k. ap (d.has_node k) (let s : h ≡ g = cc in s) ∙ n k)
  set_references-Edges from ns ((j, p) ∷ ps) g h n e =
      let (i, e1, r1) = >>=-eq-ok (set_reference T d from p p.foreign_key g) _ e in
      let (first, m) = set_reference-Refers from ns p p.foreign_key g i n e1 in
      let (rest, o) = set_references-Edges from ns ps i h m r1 in ((first, rest), o)

  set_edges-AllRefer :
      (cs : List (Loaded T)) (ns : List Str) (g h : d.Graph)
      → Nodes ns g
      → set_edges T d cs g ≡ ok h
      → AllRefer T ns cs × Nodes ns h
  unfolding set_edges
  set_edges-AllRefer [] ns g h n e = (tt, λ k. ap (d.has_node k) (let s : h ≡ g = cc in s) ∙ n k)
  set_edges-AllRefer (c ∷ cs) ns g h n e =
      let (i, e1, r1) = >>=-eq-ok (set_references T d c.schema.collection c.properties g) _ e in
      let (first, m) = set_references-Edges c.schema.collection ns c.properties g i n e1 in
      let (rest, o) = set_edges-AllRefer cs ns i h m r1 in ((first, rest), o)

  -- The other way: edges between nodes can be set.
  set_reference_ok :
      (from : Str) (ns : List Str) (p : SchemaProperty) (f : Option ForeignKey) (g : d.Graph)
      → Nodes ns g
      → elem ns from ≡ true
      → Refers T ns f
      → (h : d.Graph) × (set_reference T d from p f g ≡ ok h)
  unfolding set_reference edge_set
  set_reference_ok from ns p none g n here r = (g, refl)
  set_reference_ok from ns p (some f) g n here r =
      let there : d.has_node f.collection g ≡ true = n f.collection ∙ r in
      let (h, e) = laws.set_edge_ok from f.collection p.name g (n from ∙ here) there in
      (h, rw (there, e) refl)

  set_references_ok :
      (from : Str) (ns : List Str) (ps : List (Str × SchemaProperty)) (g : d.Graph)
      → Nodes ns g
      → elem ns from ≡ true
      → Edges ns ps
      → (h : d.Graph) × (set_references T d from ps g ≡ ok h)
  unfolding set_references
  set_references_ok from ns [] g n here r = (g, refl)
  set_references_ok from ns ((j, p) ∷ ps) g n here (first, rest) =
      let (i, e1) = set_reference_ok from ns p p.foreign_key g n here first in
      let (h, e2) =
        set_references_ok from ns ps i (set_reference-Refers from ns p p.foreign_key g i n e1).1
          here rest in
      (h, rw e1 e2)

  set_edges_ok :
      (cs : List (Loaded T)) (ns : List Str) (g : d.Graph)
      → Nodes ns g
      → All (λ (c : Loaded T). elem ns c.schema.collection ≡ true) cs
      → AllRefer T ns cs
      → (h : d.Graph) × (set_edges T d cs g ≡ ok h)
  unfolding set_edges
  set_edges_ok [] ns g n here r = (g, refl)
  set_edges_ok (c ∷ cs) ns g n (here, more) (first, rest) =
      let (i, e1) = set_references_ok c.schema.collection ns c.properties g n here first in
      let (h, e2) =
        set_edges_ok cs ns i (set_references-Edges c.schema.collection ns c.properties g i n e1).1
          more rest in
      (h, rw e1 e2)

  collected-cons :
      (g : d.Graph) (k : Str) (ks : List Str) (c : Loaded T) (cs : List (Loaded T))
      → d.get_node k g ≡ some c
      → collected T d g ks ≡ ok cs
      → collected T d g (k ∷ ks) ≡ ok (c ∷ cs)
  unfolding collected
  collected-cons g k ks c cs found e = rw (found, collected) (rw e refl)

  collected_ok :
      (g : d.Graph) (ks : List Str)
      → All (λ k. d.has_node k g ≡ true) ks
      → (cs : List (Loaded T)) × (collected T d g ks ≡ ok cs)
  unfolding collected
  collected_ok g [] h = ([], refl)
  collected_ok g (k ∷ ks) (here, more) =
      let (cs, e) = collected_ok g ks more in
      let (c, found) = some_of (d.get_node k g) (laws.get_has k g ∙ here) in
      (c ∷ cs, collected-cons g k ks c cs found e)

  elem-names :
      (cs : List (Loaded T))
      → All (λ (c : Loaded T). elem (names T cs) c.schema.collection ≡ true) cs
  elem-names [] = tt
  elem-names (c ∷ cs) = (
    rw (==_refl c.schema.collection) refl,
    All-mono (λ (x : Loaded T). elem (names T cs) x.schema.collection ≡ true)
        (λ (x : Loaded T). elem (names T (c ∷ cs)) x.schema.collection ≡ true) cs
        (λ x h. rw h (ground arith)) (elem-names cs),
  )

  start-Nodes : (cs : List (Loaded T)) → Nodes (names T cs) (set_nodes T d cs d.new_graph)
  start-Nodes cs k = has-set_nodes cs d.new_graph k ∙ ground (arith, laws.has-new_graph k)

  -- SetSchemas returns exactly if every foreign key of the schemas refers to one of their collections;
  -- and then the nodes of the graph are these collections. The laws of the graph are used.
  pub set_schemas-AllRefer :
      (cs : List (Loaded T))
      → ((g : d.Graph)
          → set_schemas T d cs ≡ ok g
          → AllRefer T (names T cs) cs × ((k : Str) → d.has_node k g ≡ elem (names T cs) k))
        × (AllRefer T (names T cs) cs → (g : d.Graph) × (set_schemas T d cs ≡ ok g))
  unfolding set_schemas topological_sort reverse_topological_sort
  set_schemas-AllRefer cs = (
    (λ g e.
        let start = set_nodes T d cs d.new_graph in
        let (h, e1, r1) = >>=-eq-ok (set_edges T d cs start) _ e in
        let (_, e2, r2) = >>=-eq-ok (collected T d h (d.topological_sort h)) _ r1 in
        let (_, e3, r3) = >>=-eq-ok (collected T d h (d.reverse_topological_sort h)) _ r2 in
        let (refer, n) = set_edges-AllRefer cs (names T cs) start h (start-Nodes cs) e1 in
        (refer, λ k. ap (d.has_node k) (let s : g ≡ h = cc in s) ∙ n k)),
    (λ refer.
        let start = set_nodes T d cs d.new_graph in
        let (g, e) = set_edges_ok cs (names T cs) start (start-Nodes cs) (elem-names cs) refer in
        let (xs, e1) = collected_ok g (d.topological_sort g) (laws.visits g) in
        let (ys, e2) = collected_ok g (d.reverse_topological_sort g) (laws.visits_reverse g) in
        (g, rw (e, e1, e2) refl)),
  )
