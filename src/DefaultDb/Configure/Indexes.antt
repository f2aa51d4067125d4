-- ===== src/DefaultDb/Configure/Indexes.antt =====
-- What configureCollection does to the store: it reads back the schema that it has just saved, so it
-- finds no index to remove or to fill.
use gokvkit.Prelude.{
  ◌≡◌, refl, sym, ap, ◌∙◌, Str, str, Bool, true, false, not, ◌==◌, ==_refl, Option, some, lookup,
  if◌then◌else◌,
}
use gokvkit.Errors.{new, internal, forbidden}
use gokvkit.Errors.Outcome.{Outcome, ok}
use gokvkit.Errors.Exec.{Exec, continue, pure, raise, ◌>>◌, >>=-ok}
use gokvkit.Kv.Interface.{KvLaws}
use gokvkit.Kv.Db.{KvDbLaws}
use gokvkit.Loading.{Loaded, new_collection_schema, marshal_json}
use gokvkit.Configuration.{get_index_diff, IndexDiff}
use gokvkit.Configuration.Indexes.{IsNamed}
use gokvkit.Transaction.{Context}
use gokvkit.DefaultDb.{
  Env, DbState, on_db, config_key, lock_key, lock_collection, while_locked,
  persist_collection_config, db_wrapping, unlock_after,
}
use gokvkit.DefaultDb.Configure.{
  apply_diff, configure_locked, configure_collection, indexes_of, or_nil, each,
}
use gokvkit.DefaultDb.Configure.Saved.{
  get_index_diff_self, no_diff, pair_eq, keys-differ, twice, map_error-state, Works, seen, Saved,
  persist_collection_config-Saved, get_persisted_collection-ReadBack,
}

module _ (E : Env) where
  open E use {libs, tools, db}

  module _ (laws : KvLaws libs.kv) (more : KvDbLaws libs.kv laws db) where
    -- What a collection that was configured leaves of the store
    pub record Configured (c : Loaded tools) (s u : DbState E) : Type 0 where
      pub saved : more.view u.store (config_key c.schema.collection) ≡ some (marshal_json tools c)
      pub kept :
          (k : Str)
          → (config_key c.schema.collection == k) ≡ false
          → (lock_key c.schema.collection == k) ≡ false
          → more.view u.store k ≡ more.view s.store k
      pub cached : lookup c.schema.collection u.collections ≡ some c

    module _ (works : Works E laws more) where
      -- Nothing to remove or to fill, nothing is done.
      apply_diff-no_diff :
          (ctx : Context) (n : Str) (s : DbState E) → apply_diff E ctx n no_diff s ≡ (ok tt, s)
      unfolding apply_diff each
      apply_diff-no_diff ctx n s = refl

      configure_locked-Saved :
          (ctx : Context) (c : Loaded tools) (s u : DbState E)
          → IsNamed c.indexing
          → new_collection_schema tools E.schema_depth (marshal_json tools c) ≡ ok c
          → configure_locked E ctx c s ≡ (ok tt, u)
          → Saved E laws more c s u
      unfolding configure_locked
      configure_locked-Saved ctx c s u named loads e =
          let n = c.schema.collection in
          let (_, s1, e1, r1) = >>=-ok (persist_collection_config E c) _ e in
          let saved = persist_collection_config-Saved E laws more c s s1 e1 in
          let (s2, e2, back) =
            get_persisted_collection-ReadBack E laws more works c s1
              (saved.entries (config_key n) ∙ rw (==_refl (config_key n)) refl) loads in
          let rest : IndexDiff → Exec (DbState E) (Unit {0}) =
            λ d. apply_diff E ctx n d >> persist_collection_config E c in
          let next : Option (Loaded tools) → Exec (DbState E) (Unit {0}) =
            λ existing. rest (get_index_diff c.indexing (indexes_of E existing)) in
          let last : persist_collection_config E c s2 ≡ (ok tt, u) =
            ap (continue {0, 0} (λ _. persist_collection_config E c))
              (sym (apply_diff-no_diff ctx n s2))
            ∙ ap (λ d. rest d s2) (sym (get_index_diff_self c.indexing named))
            ∙ ap (λ p. continue {0, 0} next (or_nil E p)) (sym e2)
            ∙ r1 in
          let again = persist_collection_config-Saved E laws more c s2 u last in
          record {
            entries = λ k.
                twice (config_key n == k) _ _ (again.entries k)
                  (back.unchanged k ∙ saved.entries k);
            cached = again.cached;
          }

      if_locked :
          (got : Bool) (t u : DbState E)
          → ◌≡◌ {A = Outcome (Unit {0}) × DbState E}
              ((if not got then raise (new forbidden (str "collection is locked")) else pure tt) t)
              (ok tt, u)
          → u ≡ t
      if_locked true t u r = ap (λ (p : Outcome (Unit {0}) × DbState E). p.1) (sym r)
      if_locked false t u r = cc

      lock_collection-kept :
          (n k : Str) (s u : DbState E)
          → lock_collection E n s ≡ (ok tt, u)
          → (lock_key n == k) ≡ false
          → seen E laws more u k ≡ seen E laws more s k
      unfolding lock_collection
      lock_collection-kept n k s u e other =
          let attempt = on_db E (db.try_lock (lock_key n)) in
          let (got, t, e1, r1) =
            >>=-ok (db_wrapping E internal (str "failed to acquire lock on collection") attempt) _
              e in
          let tried : t ≡ (attempt s).1 =
            ap (λ (p : Outcome Bool × DbState E). p.1) (sym e1) ∙ map_error-state _ (attempt s) in
          let same : u ≡ t = if_locked got t u r1 in
          ap (λ w. seen E laws more w k) (same ∙ tried)
          ∙ more.try_lock-view (lock_key n) k s.store other

      -- configureCollection, when it returns, has saved the schema and taken it on, and has changed no
      -- other key but that of its lock: no index is removed, and none is filled, whatever the indexes
      -- were before. The schema is one that is read back from its text, its indexes stand under their
      -- names, and reading the store does not fail.
      pub configure_collection-Configured :
          (ctx : Context) (c : Loaded tools) (s u : DbState E)
          → IsNamed c.indexing
          → new_collection_schema tools E.schema_depth (marshal_json tools c) ≡ ok c
          → configure_collection E ctx c s ≡ (ok tt, u)
          → Configured c s u
      unfolding configure_collection while_locked unlock_after
      configure_collection-Configured ctx c s u named loads e =
          let n = c.schema.collection in
          let (_, s1, e1, r1) = >>=-ok (lock_collection E n) _ e in
          let w =
            (configure_locked E (record ctx { is_indexing = true; is_internal = true }) c s1).1 in
          let done = ap (λ (p : Outcome (Unit {0}) × DbState E). p.0) r1 in
          let saved =
            configure_locked-Saved (record ctx { is_indexing = true; is_internal = true }) c s1 w
              named loads (pair_eq _ (ok tt) w done refl) in
          let left : (k : Str)
              → seen E laws more u k ≡ more.view (db.unlock (lock_key n) w.store) k =
            λ k. ap (λ (p : Outcome (Unit {0}) × DbState E). seen E laws more p.1 k) (sym r1) in
          record {
            saved =
                left (config_key n)
                ∙ more.unlock-view (lock_key n) (config_key n) w.store (keys-differ n)
                ∙ saved.entries (config_key n)
                ∙ rw (==_refl (config_key n)) refl;
            kept = λ k config lock.
                left k
                ∙ more.unlock-view (lock_key n) k w.store lock
                ∙ saved.entries k
                ∙ ap (λ b. if b then some (marshal_json tools c) else seen E laws more s1 k) config
                ∙ lock_collection-kept n k s s1 e1 lock;
            cached =
                ap (λ (p : Outcome (Unit {0}) × DbState E). lookup n p.1.collections) (sym r1)
                ∙ saved.cached;
          }
