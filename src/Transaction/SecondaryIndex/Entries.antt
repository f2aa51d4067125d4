-- ===== src/Transaction/SecondaryIndex/Entries.antt =====
-- What an update of a secondary index does to the store, by the laws of the key value transaction.
use gokvkit.Prelude.{
  Str, str, Bool, true, false, not, ◌&&◌, ◌==◌, ==_iff, List, [], ◌∷◌, ◌≡◌, refl, sym, ap, ◌∙◌,
  arith, Option, none, some, if◌then◌else◌, has_prefix, Any, inl, inr, Bool-cases, &&-eq-true,
}
use gokvkit.Errors.{Code, wrap_error, internal, GoError, new, validation}
use gokvkit.Errors.Outcome.{Outcome, ok, fail, panic}
use gokvkit.Errors.Exec.{Exec, pure, raise, map_error, >>=-ok}
use gokvkit.Model.Schema.{Index}
use gokvkit.Kv.Interface.{KvLaws}
use gokvkit.Indexing.{split, last_segment}
use gokvkit.Transaction.{Libs, Txn, Context, wrapping, on_store, entry_prefix, entry_key}
use gokvkit.Transaction.SecondaryIndex.Keeps.{view}
use gokvkit.Transaction.SecondaryIndex.{
  all_with_prefix, all_own, check_unique, delete_entry, set_entry, delete_old_entry,
}

module _ {A : Type 0} (L : Libs) where
  open L use {kv}

  pub record Stored (f : kv.State → Outcome A × kv.State) (a : A) (t t' : Txn L) : Type 0 where
    pub result : (f t.store).0 ≡ ok a
    pub store : t'.store ≡ (f t.store).1

  on_store-ok :
      (f : kv.State → Outcome A × kv.State) (a : A) (t t' : Txn L)
      → on_store L f t ≡ (ok a, t')
      → Stored f a t t'
  on_store-ok f a t t' h = record {
    result = ap (λ (p : Outcome A × Txn L). p.0) h;
    store = sym (ap (λ (p : Outcome A × Txn L). p.1.store) h);
  }

  wrapping-ok :
      (c : Code) (msg : Str) (m : Exec (Txn L) A) (a : A) (t t' : Txn L)
      → wrapping L c msg m t ≡ (ok a, t')
      → m t ≡ (ok a, t')
  wrapping-ok c msg m a t t' h = go (m t) refl h
    where
      go :
          (o : Outcome A × Txn L)
          → m t ≡ o
          → map_error (λ e. wrap_error L.marshal e c msg) o ≡ (ok a, t')
          → m t ≡ (ok a, t')
      go (ok x, s) e h = e ∙ h
      go (fail x, s) e h = cc
      go (panic, s) e h = cc

  pub Stored-wrapping :
      (c : Code) (msg : Str) (f : kv.State → Outcome A × kv.State) (a : A) (t t' : Txn L)
      → wrapping L c msg (on_store L f) t ≡ (ok a, t')
      → Stored f a t t'
  Stored-wrapping c msg f a t t' h =
      on_store-ok f a t t' (wrapping-ok c msg (on_store L f) a t t' h)

module _ (L : Libs) (laws : KvLaws L.kv) where
  open L use {kv, json}
  open json use {Doc}

  delete_entry-view :
      (ctx : Context) (c : Str) (i : Index) (id : Str) (d : Doc) (t t' : Txn L)
      → delete_entry L ctx c i id d t ≡ (ok tt, t')
      → (j : Str)
      → view L laws t' j ≡ (if entry_key L ctx c i d id == j then none else view L laws t j)
  unfolding delete_entry
  delete_entry-view ctx c i id d t t' h j =
      let e =
        Stored-wrapping L internal (str "failed to delete document index references")
          (kv.delete (entry_key L ctx c i d id)) tt t t' h in
      ap (λ s. laws.view s j) e.store
      ∙ laws.view-delete (entry_key L ctx c i d id) j t.store e.result

  pub set_entry-view :
      (ctx : Context) (c : Str) (i : Index) (id : Str) (d : Doc) (t t' : Txn L)
      → set_entry L ctx c i id d t ≡ (ok tt, t')
      → (j : Str)
      → view L laws t' j ≡ (if entry_key L ctx c i d id == j then some id else view L laws t j)
  unfolding set_entry
  set_entry-view ctx c i id d t t' h j =
      let e =
        Stored-wrapping L internal (str "failed to set document index references")
          (kv.set (entry_key L ctx c i d id) id) tt t t' h in
      ap (λ s. laws.view s j) e.store
      ∙ laws.view-set (entry_key L ctx c i d id) id j t.store e.result

  -- The key of the old entry, if there was one
  abbrev pub is_old : Context → Str → Index → Str → Option Doc → Str → Bool
  is_old ctx c i id none j = false
  is_old ctx c i id (some before) j = entry_key L ctx c i before id == j

  pub delete_old_entry-view :
      (ctx : Context) (c : Str) (i : Index) (id : Str) (before : Option Doc) (t t' : Txn L)
      → delete_old_entry L ctx c i id before t ≡ (ok tt, t')
      → (j : Str)
      → view L laws t' j ≡ (if is_old ctx c i id before j then none else view L laws t j)
  unfolding delete_old_entry
  delete_old_entry-view ctx c i id none t t' h j =
      ap (λ (p : Outcome (Unit {0}) × Txn L). view L laws p.1 j) (sym h)
  delete_old_entry-view ctx c i id (some b) t t' h j = delete_entry-view ctx c i id b t t' h j

  -- What a passed test of uniqueness says of the store.
  pub record Checked (ctx : Context) (c : Str) (i : Index) (id : Str) (d : Doc) (t t' : Txn L)
      : Type 0 where
    pub same : (j : Str) → view L laws t' j ≡ view L laws t j
    pub own :
        i.unique ≡ true
        → i.primary ≡ false
        → (k v : Str) → view L laws t k ≡ some v
        → has_prefix k (entry_prefix L ctx c i d) ≡ true
        → last_segment (split k) ≡ id

  all_own-Any :
      (id k v : Str) (es : List (Str × Str))
      → all_own L id es ≡ true
      → Any (λ e. e ≡ (k, v)) es
      → last_segment (split k) ≡ id
  unfolding all_own
  all_own-Any id k v [] h a = absurd a
  all_own-Any id k v ((k', v') ∷ es) h (inl e) =
      ap (λ (p : Str × Str). last_segment (split p.0)) (sym e) ∙ (==_iff _ _).0 (&&-eq-true _ _ h).0
  all_own-Any id k v ((k', v') ∷ es) h (inr a) = all_own-Any id k v es (&&-eq-true _ _ h).1 a

  pub check_unique-Checked :
      (ctx : Context) (c : Str) (i : Index) (id : Str) (d : Doc) (t t' : Txn L)
      → check_unique L ctx c i id d t ≡ (ok tt, t')
      → Checked ctx c i id d t t'
  unfolding check_unique
  check_unique-Checked ctx c i id d t t' h = elim (Bool-cases (i.unique && not i.primary)) [
    | inl e ↦
        let scan = kv.scan (all_with_prefix (entry_prefix L ctx c i d)) in
        let (es, t1, h1, r1) = >>=-ok (on_store L scan) (verdict) (rw e at h) in
        let s = on_store-ok L scan es t t1 h1 in
        elim (Bool-cases (all_own L id es)) [
          | inl own ↦
              let same : t1 ≡ t' = ap (λ (p : Outcome (Unit {0}) × Txn L). p.1) (rw own at r1) in
              record {
                same = λ j.
                    ap (λ x. view L laws x j) (sym same)
                    ∙ ap (λ x. laws.view x j) s.store
                    ∙ laws.view-scan _ j t.store;
                own = λ _ _ k v there pre.
                    all_own-Any id k v es own
                      (laws.scan-complete _ k v t.store es s.result there pre);
              }
          | inr other ↦ absurd (not_raised (rw other at r1))
        ]
    | inr e ↦ record {
      same = λ j. ap (λ (p : Outcome (Unit {0}) × Txn L). view L laws p.1 j) (sym (rw e at h));
      own = λ u p k v _ _. absurd (not_tested e u p);
    }
  ]
    where
      verdict : List (Str × Str) → Exec (Txn L) (Unit {0})
      verdict es =
          if all_own L id es
          then pure tt
          else raise (new validation (str "duplicate value found for unique index"))

      not_raised :
          {e : GoError} {t1 : Txn L}
          → ◌≡◌ {A = Outcome (Unit {0}) × Txn L} (fail e, t1) (ok tt, t')
          → ⊥
      not_raised q = cc

      not_tested : (i.unique && not i.primary) ≡ false → i.unique ≡ true → i.primary ≡ false → ⊥
      not_tested e u p = ground arith
