-- ===== src/Transaction/SecondaryIndex/Replaced.antt =====
-- What an update of a secondary index by a create, set or update leaves in the store.
use gokvkit.Prelude.{
  Str, Bool, true, false, ◌==◌, ==_iff, ◌≡◌, refl, sym, ap, ◌∙◌, Option, none, some, if◌then◌else◌,
  has_prefix, inl, inr, Bool-cases,
}
use gokvkit.Errors.Outcome.{Outcome, ok}
use gokvkit.Errors.Exec.{pure, >>=-ok}
use gokvkit.Model.Query.{Action, create, set, update}
use gokvkit.Model.Schema.{Index}
use gokvkit.Kv.Interface.{KvLaws}
use gokvkit.Indexing.Path.{NoZero, last_segment-seek_prefix}
use gokvkit.Indexing.{split, last_segment}
use gokvkit.Transaction.{Libs, Txn, Database, Context, entry_prefix, entry_key, flatten_or_empty}
use gokvkit.Transaction.SecondaryIndex.Keeps.{view, ReadsOnly, Keeps-check_foreign_key}
use gokvkit.Transaction.SecondaryIndex.{
  check_foreign_key, check_unique, set_entry, delete_old_entry, replace_entry, for_action,
  update_secondary_index,
}
use gokvkit.Transaction.SecondaryIndex.Entries.{
  is_old, Checked, delete_old_entry-view, set_entry-view, check_unique-Checked,
}

module _ (L : Libs) (laws : KvLaws L.kv) where
  open L use {kv, json}
  open json use {Doc}

  -- What an update of the index leaves: the document's entry, instead of the old one; and, in a
  -- unique index, no entry of another document with the same prefix.
  pub record Replaced (ctx : Context) (c : Str) (i : Index) (id : Str) (before : Option Doc)
      (d : Doc) (t t' : Txn L) : Type 0 where
    pub entry :
        (j : Str)
        → view L laws t' j ≡ (
            if entry_key L ctx c i d id == j
            then some id
            else if is_old L laws ctx c i id before j
            then none
            else view L laws t j)
    pub own :
        i.unique ≡ true
        → (k v : Str) → view L laws t' k ≡ some v
        → has_prefix k (entry_prefix L ctx c i d) ≡ true
        → last_segment (split k) ≡ id

  entry_key-last :
      (ctx : Context) (c : Str) (i : Index) (d : Doc) (id : Str)
      → NoZero id
      → last_segment (split (entry_key L ctx c i d id)) ≡ id
  unfolding entry_key
  entry_key-last ctx c i d id z =
      last_segment-seek_prefix L.cast (flatten_or_empty L) ctx.namespace c i (json.value d) id z

  combine :
      (ctx : Context) (c : Str) (i : Index) (id : Str) (before : Option Doc) (d : Doc)
      (t t1 t2 t3 t4 t' : Txn L)
      → NoZero id
      → i.primary ≡ false
      → ((j : Str)
          → view L laws t1 j
            ≡ (if is_old L laws ctx c i id before j then none else view L laws t j))
      → ((j : Str) → view L laws t2 j ≡ view L laws t1 j)
      → Checked L laws ctx c i id d t2 t3
      → ((j : Str)
          → view L laws t4 j
            ≡ (if entry_key L ctx c i d id == j then some id else view L laws t3 j))
      → ((j : Str) → view L laws t' j ≡ view L laws t4 j)
      → Replaced ctx c i id before d t t'
  combine ctx c i id before d t t1 t2 t3 t4 t' z p v1 v2 ch v4 v5 = record {
    entry = λ j.
        v5 j
        ∙ v4 j
        ∙ ap (λ x. if entry_key L ctx c i d id == j then some id else x) (ch.same j ∙ v2 j ∙ v1 j);
    own = λ u k v there pre. elim (Bool-cases (entry_key L ctx c i d id == k)) [
      | inl e ↦
          ap (λ x. last_segment (split x)) (sym ((==_iff _ k).0 e)) ∙ entry_key-last ctx c i d id z
      | inr e ↦ ch.own u p k v (sym (ch.same k) ∙ sym (not_new k e) ∙ sym (v5 k) ∙ there) pre
    ];
  }
    where
      not_new :
          (k : Str) → (entry_key L ctx c i d id == k) ≡ false → view L laws t4 k ≡ view L laws t3 k
      not_new k e = v4 k ∙ ap (λ b. if b then some id else view L laws t3 k) e

  replace_entry-Replaced :
      (db : Database L) (ctx : Context) (c : Str) (i : Index) (id : Str) (before : Option Doc)
      (d : Doc) (t t' : Txn L)
      → ReadsOnly L laws db
      → NoZero id
      → i.primary ≡ false
      → replace_entry L db ctx c i id before d t ≡ (ok tt, t')
      → Replaced ctx c i id before d t t'
  unfolding replace_entry
  replace_entry-Replaced db ctx c i id before d t t' r z p h =
      let (_, t1, h1, r1) = >>=-ok (delete_old_entry L ctx c i id before) _ h in
      let (_, t2, h2, r2) = >>=-ok (check_foreign_key L db ctx i.foreign_key i.fields d) _ r1 in
      let (_, t3, h3, r3) = >>=-ok (check_unique L ctx c i id d) _ r2 in
      let (_, t4, h4, r4) = >>=-ok (set_entry L ctx c i id d) _ r3 in
      combine ctx c i id before d t t1 t2 t3 t4 t' z p
        (delete_old_entry-view L laws ctx c i id before t t1 h1)
        (λ j.
          ap (λ (q : Outcome (Unit {0}) × Txn L). view L laws q.1 j) (sym h2)
          ∙ Keeps-check_foreign_key L laws db ctx i.foreign_key i.fields d r t1 j)
        (check_unique-Checked L laws ctx c i id d t2 t3 h3)
        (set_entry-view L laws ctx c i id d t3 t4 h4)
        (λ j. ap (λ (q : Outcome (Unit {0}) × Txn L). view L laws q.1 j) (sym r4))

  abbrev pub is_write : Action → Bool
  is_write create = true
  is_write set = true
  is_write update = true
  is_write _ = false

  update_secondary_index-for_action :
      (a : Action) (db : Database L) (ctx : Context) (c : Str) (i : Index) (id : Str)
      (before : Option Doc) (d : Doc) (t : Txn L)
      → i.primary ≡ false
      → update_secondary_index L a db ctx c i id before d t
        ≡ for_action L a db ctx c i id before d t
  unfolding update_secondary_index
  update_secondary_index-for_action a db ctx c i id before d t p =
      ap (λ b. (if b then pure tt else for_action L a db ctx c i id before d) t) p

  for_action-replace_entry :
      (a : Action) (db : Database L) (ctx : Context) (c : Str) (i : Index) (id : Str)
      (before : Option Doc) (d : Doc)
      → is_write a ≡ true
      → for_action L a db ctx c i id before d ≡ replace_entry L db ctx c i id before d
  unfolding for_action
  for_action-replace_entry create db ctx c i id before d w = refl
  for_action-replace_entry set db ctx c i id before d w = refl
  for_action-replace_entry update db ctx c i id before d w = refl
  for_action-replace_entry _ db ctx c i id before d w = cc

  -- If the index is not the primary one, the id holds no zero byte, and queries do not change the
  -- store, then a create, set or update that returns leaves the index as follows: under the key of
  -- the document's new values stands its id, under the key of its old values nothing (unless they
  -- are the same), every other key is as before, and in a unique index every entry with the prefix
  -- of the new values is the document's own.
  pub update_secondary_index-Replaced :
      (a : Action) (db : Database L) (ctx : Context) (c : Str) (i : Index) (id : Str)
      (before : Option Doc) (d : Doc) (t t' : Txn L)
      → ReadsOnly L laws db
      → NoZero id
      → i.primary ≡ false
      → is_write a ≡ true
      → update_secondary_index L a db ctx c i id before d t ≡ (ok tt, t')
      → Replaced ctx c i id before d t t'
  update_secondary_index-Replaced a db ctx c i id before d t t' r z p w h =
      replace_entry-Replaced db ctx c i id before d t t' r z p (
        ap (λ m. m t) (sym (for_action-replace_entry a db ctx c i id before d w))
        ∙ sym (update_secondary_index-for_action a db ctx c i id before d t p)
        ∙ h)
