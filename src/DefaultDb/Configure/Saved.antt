-- ===== src/DefaultDb/Configure/Saved.antt =====
-- A schema that was saved is read back.
use gokvkit.Prelude.{
  ◌≡◌, refl, sym, ap, ◌∙◌, Str, Bool, true, false, ◌==◌, ==_refl, List, [], ◌∷◌, All, All-mono,
  Option, some, lookup, lookup-put, if◌then◌else◌, arith,
}
use gokvkit.Errors.{GoError}
use gokvkit.Errors.Outcome.{Outcome, ok, fail, panic}
use gokvkit.Errors.Exec.{Exec, continue, lift, map_error, >>=-ok}
use gokvkit.Model.Schema.{Index}
use gokvkit.Kv.Interface.{KvLaws}
use gokvkit.Kv.Db.{KvDbLaws}
use gokvkit.Loading.{Loaded, new_collection_schema, marshal_json}
use gokvkit.Configuration.{has_key, missing_in, get_index_diff, IndexDiff}
use gokvkit.Configuration.Indexes.{IsNamed, updated_in-nil}
use gokvkit.DefaultDb.{
  Env, DbState, on_db, config_key, lock_key, persist_collection_config, read_config,
  get_persisted_collection, bytes_or_none,
}

missing_in-nil :
    (other m : List (Str × Index))
    → All (λ (e : Str × Index). has_key e.1.name other ≡ true) m
    → missing_in other m ≡ []
unfolding missing_in
missing_in-nil other [] h = refl
missing_in-nil other ((k, i) ∷ m) (first, rest) = rw (first, missing_in-nil other m rest) refl

-- The names of a map's own indexes are its keys.
IsNamed-has_key :
    (m : List (Str × Index)) → IsNamed m → All (λ (e : Str × Index). has_key e.1.name m ≡ true) m
unfolding has_key
IsNamed-has_key [] h = tt
IsNamed-has_key ((k, i) ∷ m) (first, rest) = (
  rw (first, ==_refl i.name) refl,
  All-mono (λ (e : Str × Index). has_key e.1.name m ≡ true)
      (λ (e : Str × Index). has_key e.1.name ((k, i) ∷ m) ≡ true) m (λ e h. rw h (ground arith))
      (IsNamed-has_key m rest),
)

abbrev pub no_diff : IndexDiff
no_diff = record { to_remove = []; to_add = []; to_update = [] }

pub get_index_diff_self : (m : List (Str × Index)) → IsNamed m → get_index_diff m m ≡ no_diff
unfolding get_index_diff
get_index_diff_self m h = rw (missing_in-nil m m (IsNamed-has_key m h), updated_in-nil m m) refl

pub pair_eq : {A B : Type 0} (p : A × B) (a : A) (b : B) → p.0 ≡ a → p.1 ≡ b → p ≡ (a, b)
pair_eq p a b e f = λ i. (e i, f i)

pub keys-differ : (n : Str) → (lock_key n == config_key n) ≡ false
unfolding ◌==◌
keys-differ n = refl

-- The second of two writes of the same value
pub twice :
    {a b : Option Str} (t : Bool) (v d : Option Str)
    → a ≡ (if t then v else b)
    → b ≡ (if t then v else d)
    → a ≡ (if t then v else d)
twice true v d p q = p
twice false v d p q = p ∙ q

pub map_error-state :
    {S A : Type 0} (f : GoError → GoError) (o : Outcome A × S) → (map_error f o).1 ≡ o.1
map_error-state f (ok a, s) = refl
map_error-state f (fail e, s) = refl
map_error-state f (panic, s) = refl

module _ (E : Env) where
  open E use {libs, tools, db}

  -- A store whose reads and reading transactions do not fail
  pub record Works (laws : KvLaws libs.kv) (more : KvDbLaws libs.kv laws db) : Type 1 where
    pub get_returns :
        (k : Str) (x : libs.kv.State) → (v : Option Str) × ((libs.kv.get k x).0 ≡ ok v)
    pub tx_returns :
        (A : Type 0) (m : Exec libs.kv.State A) (s : db.State)
        → ((x : libs.kv.State)
            → ((k : Str) → laws.view x k ≡ more.view s k)
            → (a : A) × ((m x).0 ≡ ok a))
        → (a : A) × ((db.tx A true m s).0 ≡ ok a)

  module _ (laws : KvLaws libs.kv) (more : KvDbLaws libs.kv laws db) where
    abbrev pub seen : DbState E → Str → Option Str
    seen s k = more.view s.store k

    -- A schema is saved: under its key, and in the map.
    pub record Saved (c : Loaded tools) (s u : DbState E) : Type 0 where
      pub entries :
          (k : Str)
          → seen u k ≡ (
              if config_key c.schema.collection == k then some (marshal_json tools c) else seen s k)
      pub cached : lookup c.schema.collection u.collections ≡ some c

    on_db_ok :
        {A : Type 0} (f : Exec db.State A) (s u : DbState E) (a : A)
        → on_db E f s ≡ (ok a, u)
        → (f s.store ≡ (ok a, u.store)) × (u.collections ≡ s.collections)
    on_db_ok {A} f s u a e = (
      pair_eq (f s.store) (ok a) u.store (ap (λ (p : Outcome A × DbState E). p.0) e)
          (ap (λ (p : Outcome A × DbState E). p.1.store) e),
      ap (λ (p : Outcome A × DbState E). p.1.collections) (sym e),
    )

    pub persist_collection_config-Saved :
        (c : Loaded tools) (s u : DbState E)
        → persist_collection_config E c s ≡ (ok tt, u)
        → Saved c s u
    unfolding persist_collection_config
    persist_collection_config-Saved c s u e =
        let key = config_key c.schema.collection in
        let text = marshal_json tools c in
        let write = db.tx (Unit {0}) false (libs.kv.set key text) in
        let (_, t, e1, r1) = >>=-ok (on_db E write) _ e in
        let (done, same) = on_db_ok write s t tt e1 in
        let (x, y, ran, before, after) =
          more.tx_ok (Unit {0}) false (libs.kv.set key text) tt s.store t.store done in
        let kept : u.store ≡ t.store =
          ap (λ (p : Outcome (Unit {0}) × DbState E). p.1.store) (sym r1) in
        record {
          entries = λ k.
              ap (λ st. more.view st k) kept
              ∙ after k
              ∙ ap (λ (p : Outcome (Unit {0}) × libs.kv.State). laws.view p.1 k) (sym ran)
              ∙ laws.view-set key text k x
                  (ap (λ (p : Outcome (Unit {0}) × libs.kv.State). p.0) ran)
              ∙ ap (λ v. if key == k then some text else v) (before k);
          cached =
              ap
                (λ (p : Outcome (Unit {0}) × DbState E). lookup c.schema.collection p.1.collections)
                (sym r1)
              ∙ lookup-put c.schema.collection c.schema.collection c t.collections
              ∙ rw (==_refl c.schema.collection) refl;
        }

    module _ (works : Works laws more) where
      -- A saved schema is read back, and nothing is changed by that.
      pub record ReadBack (c : Loaded tools) (s u : DbState E) : Type 0 where
        pub unchanged : (k : Str) → seen u k ≡ seen s k
        pub maps : u.collections ≡ s.collections

      read_config-some :
          (n text : Str) (c : Loaded tools) (x : libs.kv.State)
          → laws.view x (config_key n) ≡ some text
          → new_collection_schema tools E.schema_depth text ≡ ok c
          → (read_config E n x ≡ (ok c, (libs.kv.get (config_key n) x).1))
      unfolding read_config
      read_config-some n text c x there loads =
          let key = config_key n in
          let (v, e) = works.get_returns key x in
          let found : v ≡ some text = laws.get-view key v x e ∙ there in
          let got : libs.kv.get key x ≡ (ok (some text), (libs.kv.get key x).1) =
            pair_eq (libs.kv.get key x) (ok (some text)) (libs.kv.get key x).1 (e ∙ ap ok found)
              refl in
          ap
            (continue {0, 0}
              (λ v. lift (new_collection_schema tools E.schema_depth (bytes_or_none E v))))
            got
          ∙ ap (λ (o : Outcome (Loaded tools)). (o, (libs.kv.get key x).1)) loads

      pub get_persisted_collection-ReadBack :
          (c : Loaded tools) (s : DbState E)
          → seen s (config_key c.schema.collection) ≡ some (marshal_json tools c)
          → new_collection_schema tools E.schema_depth (marshal_json tools c) ≡ ok c
          → (u : DbState E) × (get_persisted_collection E c.schema.collection s ≡ (ok c, u))
            × ReadBack c s u
      unfolding get_persisted_collection
      get_persisted_collection-ReadBack c s there loads =
          let n = c.schema.collection in
          let m = read_config E n in
          let reads = λ (x : libs.kv.State).
            λ (same : (k : Str) → laws.view x k ≡ more.view s.store k).
              read_config-some n (marshal_json tools c) c x (same (config_key n) ∙ there) loads in
          let (d, returned) = works.tx_returns (Loaded tools) m s.store (λ x same.
            (c, ap (λ (p : Outcome (Loaded tools) × libs.kv.State). p.0) (reads x same))) in
          let u : DbState E = record s { store = (db.tx (Loaded tools) true m s.store).1 } in
          let (x, y, ran, before, after) =
            more.tx_ok (Loaded tools) true m d s.store u.store
              (pair_eq (db.tx (Loaded tools) true m s.store) (ok d) u.store returned refl) in
          let both : ◌≡◌ {A = Outcome (Loaded tools) × libs.kv.State} (ok d, y)
              (ok c, (libs.kv.get (config_key n) x).1) =
            sym ran ∙ reads x before in
          let first : ◌≡◌ {A = Outcome (Loaded tools)} (ok d) (ok c) =
            ap (λ (p : Outcome (Loaded tools) × libs.kv.State). p.0) both in
          (
            u,
            pair_eq (on_db E (db.tx (Loaded tools) true m) s) (ok c) u (returned ∙ first) refl,
            record {
              unchanged = λ k.
                  after k
                  ∙ ap (λ (p : Outcome (Loaded tools) × libs.kv.State). laws.view p.1 k) both
                  ∙ laws.view-get (config_key n) k x
                  ∙ before k;
              maps = refl;
            },
          )
