-- ===== src/DefaultDb/Tests.antt =====
-- A database over a store in memory takes on the schema of the notes.
use gokvkit.Prelude.{
  ◌≡◌, refl, ◌∙◌, str, false, ◌==◌, [], ◌∷◌, lookup, put, without, lookup-put, lookup-without,
  has_prefix,
}
use gokvkit.Errors.Outcome.{Outcome, ok, fail, panic}
use gokvkit.Model.Schema.{primary_key}
use gokvkit.Kv.Memory.{memory, memory_laws, Entries}
use gokvkit.Kv.Db.{KvDbLaws}
use gokvkit.Loading.{new_collection_schema, marshal_json}
use gokvkit.Loading.Samples.{tools, notes_schema}
use gokvkit.Configuration.{get_index_diff, has_key}
use gokvkit.Configuration.Indexes.{IsNamed}
use gokvkit.Configuration.References.Samples.{node_list}
use gokvkit.Transaction.Samples.{sample_libs, here}
use gokvkit.DefaultDb.{
  Env, DbState, while_locked, persist_collection_config, get_persisted_collection,
}
use gokvkit.DefaultDb.Configure.{configure_collection}
use gokvkit.DefaultDb.Configure.Saved.{Works}
use gokvkit.DefaultDb.Configure.Indexes.{Configured, configure_collection-Configured}
use gokvkit.DefaultDb.Samples.{committed, memory_db}

committed_ok :
    {A : Type 0} (s : Entries) (o : Outcome A × Entries) (a : A) (u : Entries)
    → committed s o ≡ (ok a, u)
    → o ≡ (ok a, u)
committed_ok s (ok b, t) a u e = e
committed_ok s (fail x, t) a u e = cc
committed_ok s (panic, t) a u e = cc

committed-returned :
    {A : Type 0} (s : Entries) (o : Outcome A × Entries) (a : A)
    → o.0 ≡ ok a
    → (committed s o).0 ≡ ok a
committed-returned s (ok b, t) a e = e
committed-returned s (fail x, t) a e = cc
committed-returned s (panic, t) a e = cc

memory_db_laws : KvDbLaws memory memory_laws memory_db
memory_db_laws = record {
  view = λ s k. lookup k s;
  tx_ok = λ A read_only m a s u e. (s, u, committed_ok s (m s) a u e, (λ k. refl), (λ k. refl));
  try_lock-view = λ k j s other. lookup-put k j (str "held") s ∙ rw other refl;
  unlock-view = λ k j s other. lookup-without k j s ∙ rw other refl;
}

abbrev sample_env : Env
sample_env = record {
  libs = sample_libs;
  tools = tools;
  db = memory_db;
  dagger = node_list;
  global_scripts = [];
  vm = tt;
  tx_vm = λ t. ok tt;
  equals = λ a b. false;
  schema_depth = 2;
  depth = 3;
}

works : Works sample_env memory_laws memory_db_laws
unfolding memory_db_laws lookup
works = record {
  get_returns = λ k x. (lookup k x, refl);
  tx_returns = λ A m s h. let (a, e) = h s (λ k. refl) in (a, committed-returned s (m s) a e);
}

-- An earlier schema is saved, and a note under its key.
abbrev earlier : DbState sample_env
earlier = record {
  store = (str "cache.internal.collections.note", str "{old}") ∷ (str "a note", str "{}") ∷ [];
  collections = [];
  graph = [];
  ids = 0;
}

abbrev later : DbState sample_env
later = (configure_collection sample_env here notes_schema earlier).1

named : IsNamed notes_schema.indexing
unfolding new_collection_schema ◌==◌ has_prefix put without primary_key
named = (refl, (refl, (refl, (refl, tt))))

reloads : new_collection_schema tools 2 (marshal_json tools notes_schema) ≡ ok notes_schema
unfolding new_collection_schema marshal_json ◌==◌ has_prefix put without primary_key
reloads = refl

configured : configure_collection sample_env here notes_schema earlier ≡ (ok tt, later)
unfolding configure_collection while_locked persist_collection_config get_persisted_collection
    new_collection_schema marshal_json get_index_diff has_key ◌==◌ has_prefix lookup put without
    primary_key
configured = refl

configure_collection-Configured_example :
    Configured sample_env memory_laws memory_db_laws notes_schema earlier later
configure_collection-Configured_example =
    configure_collection-Configured sample_env memory_laws memory_db_laws works here notes_schema
      earlier later named reloads configured
