-- ===== src/DefaultDb/Plan.antt =====
-- ConfigurePlan of db.go: the schemas of a plan are made, and collections are dropped and configured in
-- the order of the graph of their foreign keys.
use gokvkit.Prelude.{
  ℕ, Str, str, Bool, false, not, ◌&&◌, ◌||◌, ◌==◌, List, [], ◌∷◌, ◌++◌, is_empty, none, some,
  if◌then◌else◌,
}
use gokvkit.Errors.{new, validation, internal, forbidden, wrap_error}
use gokvkit.Errors.Outcome.{Outcome, ok, fail, panic, ◌>>=◌ as bind}
use gokvkit.Errors.Exec.{Exec, pure, raise, lift, gets, modify, ◌>>=◌, ◌>>◌}
use gokvkit.Authorization.{authorize_configure}
use gokvkit.Document.{new_document_from_bytes}
use gokvkit.Document.Ops.{apply_ops}
use gokvkit.Loading.{Loaded, new_collection_schema, marshal_json}
use gokvkit.Configuration.{CollectionPlan, ConfigurationPlan}
use gokvkit.Configuration.References.{set_schemas, topological_sort, reverse_topological_sort}
use gokvkit.Transaction.{Context}
use gokvkit.Transaction.Evaluate.{request}
use gokvkit.Transaction.Scan.{select_where}
use gokvkit.DefaultDb.{Env, DbState, get_schema, has_collection, get_persisted_collections}
use gokvkit.DefaultDb.Configure.{each, configure_collection, drop_collection}

module _ (E : Env) where
  open E use {libs, tools, db, dagger, global_scripts}
  open libs.json use {Doc}

  abbrev pub wrapped_as : {A : Type 0} → ℕ → Str → Outcome A → Outcome A
  wrapped_as code msg (ok a) = ok a
  wrapped_as code msg (fail e) = fail (wrap_error libs.marshal e code msg)
  wrapped_as code msg panic = panic

  -- The schema of a plan from its difference to a document
  schema_from : CollectionPlan → Doc → Outcome (Loaded tools)
  schema_from p d =
      bind {0, 0} (wrapped_as internal (str "failed to apply diff") (apply_ops libs.json p.diff d))
        λ d'. new_collection_schema tools E.schema_depth (libs.json.raw d')

  -- A document that could not be made is nil, on which the next call panics.
  unfoldable pub not_nil : Outcome Doc → Outcome Doc
  not_nil (ok d) = ok d
  not_nil _ = panic

  planned_schemas : List CollectionPlan → Outcome (List (Loaded tools))
  unfolding schema_from
  planned_schemas [] = ok []
  planned_schemas (p ∷ ps) =
      let rest = planned_schemas ps in
      bind {0, 0} (schema_from p libs.json.empty) λ c. bind {0, 0} rest (λ cs. ok (c ∷ cs))

  replaced_schemas : DbState E → List CollectionPlan → Outcome (List (Loaded tools))
  unfolding schema_from not_nil
  replaced_schemas s [] = ok []
  replaced_schemas s (p ∷ ps) =
      let rest = replaced_schemas s ps in
      if not (has_collection E p.collection s)
      then fail (new validation (str "collection not found"))
      else elim (get_schema E p.collection s) [
        | none ↦ panic
        | some c ↦
            bind {0, 0} (not_nil (new_document_from_bytes libs.json (marshal_json tools c)))
              λ d. bind {0, 0} (schema_from p d) λ c'. bind {0, 0} rest (λ cs. ok (c' ∷ cs))
      ]

  abbrev pub is_planned : Str → List CollectionPlan → Bool
  is_planned k [] = false
  is_planned k (p ∷ ps) = (p.collection == k) || is_planned k ps

  -- authorizeConfigure, on a machine of the pool
  abbrev pub authorize : Context → Loaded tools → Outcome Bool
  authorize ctx c =
      (authorize_configure libs.lo libs.js libs.marshal global_scripts
        (request libs global_scripts ctx c.schema (select_where [] 0)) c.schema E.vm).0

  unfoldable pub authorized_to :
      Context → Loaded tools → Exec (DbState E) (Unit {0}) → Exec (DbState E) (Unit {0})
  authorized_to ctx c m = do
    pass ← lift (authorize ctx c)
    if not pass then raise (new forbidden (str "not authorized")) else m

  drop_planned : Context → ConfigurationPlan → Loaded tools → Exec (DbState E) (Unit {0})
  unfolding authorized_to drop_collection
  drop_planned ctx plan c =
      if not (is_planned c.schema.collection plan.to_delete)
      then pure tt
      else authorized_to ctx c (drop_collection E ctx c)

  configure_new : Context → Loaded tools → Exec (DbState E) (Unit {0})
  unfolding authorized_to configure_collection
  configure_new ctx c = do
    before ← gets (get_schema E c.schema.collection)
    elim before [
      | none ↦ configure_collection E ctx c
      | some b ↦
          if E.equals b c then pure tt else authorized_to ctx b (configure_collection E ctx c)
    ]

  keep_graph : dagger.Graph → DbState E → DbState E
  keep_graph g s = record s { graph = g }

  -- ConfigurePlan, for a plan with something to do
  unfoldable pub run_plan :
      Context → ConfigurationPlan → List (Loaded tools) → Exec (DbState E) (Unit {0})
  unfolding each drop_planned configure_new keep_graph
  run_plan ctx plan new_schemas = do
    g ← lift (
        wrapped_as validation (str "failed to set configure schemas")
          (set_schemas tools dagger new_schemas))
    s ← gets (λ s. s)
    sorted ← lift (
        wrapped_as internal (str "failed to topological sort collections")
          (topological_sort tools dagger s.graph))
    each E (drop_planned ctx plan) sorted
    reversed ← lift (
        wrapped_as internal (str "failed to reverse topological collections")
          (reverse_topological_sort tools dagger g))
    each E (configure_new ctx) reversed
    collections ← get_persisted_collections E
    h ← lift (set_schemas tools dagger collections)
    modify (keep_graph h)

  unfoldable pub configure_plan : Context → ConfigurationPlan → Exec (DbState E) (Unit {0})
  unfolding planned_schemas replaced_schemas run_plan
  configure_plan ctx plan =
      if is_empty plan.to_delete && is_empty plan.to_create && is_empty plan.to_replace
      then pure tt
      else do
        s ← gets (λ s. s)
        created ← lift (planned_schemas plan.to_create)
        replaced ← lift (replaced_schemas s plan.to_replace)
        if is_empty (created ++ replaced)
            then raise (new validation (str "no schemas to configure"))
            else run_plan ctx plan (created ++ replaced)
