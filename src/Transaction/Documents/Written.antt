-- ===== src/Transaction/Documents/Written.antt =====
-- What setDocument, createDocument, updateDocument and deleteDocument leave in the store.
use gokvkit.Prelude.{
  Str, str, false, ◌&&◌, ◌==◌, is_empty, ◌≡◌, refl, sym, ap, ◌∙◌, Option, none, some, if◌then◌else◌,
  Bool-cases, inl, inr,
}
use gokvkit.Errors.{GoError, internal}
use gokvkit.Errors.Outcome.{Outcome, ok, fail}
use gokvkit.Errors.Exec.{pure, lift, ◌>>=◌, >>=-ok}
use gokvkit.Model.Schema.{CollectionSchema, SchemaProperty}
use gokvkit.Kv.Interface.{KvLaws}
use gokvkit.Document.{Values, get, set_all}
use gokvkit.Transaction.{Libs, Txn, Context, wrapping, document_key, get_primary_key}
use gokvkit.Transaction.Frame.{OnlyRead}
use gokvkit.Transaction.SecondaryIndex.Keeps.{view, Keeps, Keeps-bind, Keeps-wrapping, Keeps-if}
use gokvkit.Transaction.SecondaryIndex.Entries.{Stored-wrapping}
use gokvkit.Transaction.Documents.{
  write_computed, write_default, create_property, set_property, each_property, set_existing,
  set_document, create_document, set_primary_key, delete_document, update_document, update_property,
  is_some,
}
use gokvkit.Transaction.Documents.Saved.{
  Saved, save_merged, save-Saved, Saved-Keeps, Keeps-write_computed, Keeps-write_default,
  Keeps-set_property, Keeps-create_property, Keeps-each_property,
}

module _ (L : Libs) (laws : KvLaws L.kv) where
  open L use {kv, json, js, cast}
  open json use {Doc}

  -- What an update leaves: the old document with the values of the new one set in it.
  pub record Merged (ctx : Context) (c : CollectionSchema) (id : Str) (before d' : Doc)
      (t t' : Txn L) : Type 0 where
    pub values : Values
    pub after : Doc
    pub flattened : json.flatten (json.value d') ≡ ok values
    pub set : set_all json values before ≡ ok after
    pub saved : Saved L laws c (document_key L ctx c id) after t t'

module _ (L : Libs) (laws : KvLaws L.kv) (reads : OnlyRead L laws) where
  open L use {kv, json, js, cast}
  open json use {Doc}

  Keeps-update_property :
      (before : Doc) (p : Str × SchemaProperty) (d : Doc)
      → Keeps L laws (update_property L before p d)
  unfolding update_property
  Keeps-update_property before (p, v) d =
      Keeps-bind L laws (write_computed L p v.compute d)
        (λ d'. write_default L p v.default_value d' >>= λ d''.
          if v.immutable
          then wrapping L internal (str "failed to set immutable property")
              (lift (json.set p (get json before p) d''))
          else pure d'')
        (Keeps-write_computed L laws reads p v.compute d)
        (λ d'.
          Keeps-bind L laws (write_default L p v.default_value d')
            (λ d''.
              if v.immutable
              then wrapping L internal (str "failed to set immutable property")
                  (lift (json.set p (get json before p) d''))
              else pure d'')
            (Keeps-write_default L laws reads p v.default_value d')
            (λ d''.
              Keeps-if L laws v.immutable _ _
                (Keeps-wrapping L laws internal (str "failed to set immutable property")
                  (lift (json.set p (get json before p) d'')) (λ t j. refl))
                (λ t j. refl)))

  set_existing-Saved :
      (ctx : Context) (c : CollectionSchema) (id : Str) (before : Option Doc) (d d' : Doc)
      (t t' : Txn L)
      → set_existing L ctx c id before d t ≡ (ok d', t')
      → Saved L laws c (document_key L ctx c id) d' t t'
  unfolding set_existing
  set_existing-Saved ctx c id before d d' t t' h =
      let (x, t1, h1, r1) =
        >>=-ok (each_property L (set_property L before) c.property_paths d) _ h in
      Saved-Keeps L laws c (document_key L ctx c id) d' t t1 t'
        (λ j.
          ap (λ (p : Outcome Doc × Txn L). view L laws p.1 j) (sym h1)
          ∙ Keeps-each_property L laws reads (set_property L before) c.property_paths d
              (Keeps-set_property L laws reads before) t j)
        (save-Saved L laws c (document_key L ctx c id)
          (str "failed to set documents to primary index") x d' t1 t' r1)

  -- If scripts write nothing through `tx`: a set that returns had an id, and no old document if the
  -- collection is immutable; it leaves the document, valid for its schema, under its key, and every
  -- other key of the store as it was.
  pub set_document-Saved :
      (ctx : Context) (c : CollectionSchema) (id : Str) (before : Option Doc) (d d' : Doc)
      (t t' : Txn L)
      → set_document L ctx c id before d t ≡ (ok d', t')
      → (is_empty id ≡ false)
        × ((c.immutable && is_some L before) ≡ false)
        × Saved L laws c (document_key L ctx c id) d' t t'
  unfolding set_document
  set_document-Saved ctx c id before d d' t t' h = elim (Bool-cases (is_empty id)) [
    | inl e ↦ absurd (refused (rw e at h))
    | inr e ↦ elim (Bool-cases (c.immutable && is_some L before)) [
      | inl f ↦ absurd (refused (simp (e, f) at h))
      | inr f ↦ (e, f, set_existing-Saved ctx c id before d d' t t' (simp (e, f) at h))
    ]
  ]
    where
      refused : {x : GoError} → ◌≡◌ {A = Outcome Doc × Txn L} (fail x, t) (ok d', t') → ⊥
      refused q = cc

  -- If scripts write nothing through `tx`: a create that returns leaves the document, valid for its
  -- schema, under the key of the id that the given document has, and every other key of the store as it
  -- was.
  pub create_document-Saved :
      (ctx : Context) (c : CollectionSchema) (d d' : Doc) (t t' : Txn L)
      → create_document L ctx c d t ≡ (ok d', t')
      → Saved L laws c (document_key L ctx c (get_primary_key L c d)) d' t t'
  unfolding create_document set_primary_key
  create_document-Saved ctx c d d' t t' h =
      let id = get_primary_key L c d in
      let (x, t1, h1, r1) = >>=-ok (set_primary_key L c id d) _ h in
      let (y, t2, h2, r2) = >>=-ok (each_property L (create_property L) c.property_paths x) _ r1 in
      Saved-Keeps L laws c (document_key L ctx c id) d' t t2 t'
        (λ j.
          ap (λ (p : Outcome Doc × Txn L). view L laws p.1 j) (sym h2)
          ∙ Keeps-each_property L laws reads (create_property L) c.property_paths x
              (Keeps-create_property L laws reads) t1 j
          ∙ ap (λ (p : Outcome Doc × Txn L). view L laws p.1 j) (sym h1)
          ∙ Keeps-wrapping L laws 0 (str "failed to set primary key") (lift (json.set _ _ d))
              (λ t j. refl) t j)
        (save-Saved L laws c (document_key L ctx c id)
          (str "failed to batch set documents to primary index") y d' t2 t' r2)

  -- If scripts write nothing through `tx`: an update that returns had an old document, in a collection
  -- that is not immutable; it leaves, under the key of the id, the old document with all the values of
  -- the command's document set in it, valid for its schema, and every other key of the store as it was.
  pub update_document-Saved :
      (ctx : Context) (c : CollectionSchema) (id : Str) (before d d' : Doc) (t t' : Txn L)
      → update_document L ctx c id (some before) d t ≡ (ok d', t')
      → (c.immutable ≡ false) × Merged L laws ctx c id before d' t t'
  unfolding update_document
  update_document-Saved ctx c id before d d' t t' h = elim (Bool-cases c.immutable) [
    | inl e ↦ absurd (refused (simp e at h))
    | inr e ↦
        let (x, t1, h1, r1) =
          >>=-ok (each_property L (update_property L before) c.property_paths d) _ (simp e at h) in
        let (values, t2, h2, r2) = >>=-ok (lift (json.flatten (json.value x))) _ r1 in
        let (after, t3, h3, r3) = >>=-ok (lift (set_all json values before)) _ r2 in
        let key = document_key L ctx c id in
        let (same, s) =
          save_merged L laws c key (str "failed to batch set documents to primary index") after x d'
            t3 t' r3 in
        (
          e,
          record {
            values = values;
            after = after;
            flattened =
                ap (λ y. json.flatten (json.value y)) (sym same)
                ∙ ap (λ (p : Outcome Values × Txn L). p.0) h2;
            set = ap (λ (p : Outcome Doc × Txn L). p.0) h3;
            saved =
                Saved-Keeps L laws c key after t t3 t'
                  (λ j.
                    ap (λ (p : Outcome Doc × Txn L). view L laws p.1 j) (sym h3)
                    ∙ ap (λ (p : Outcome Values × Txn L). view L laws p.1 j) (sym h2)
                    ∙ ap (λ (p : Outcome Doc × Txn L). view L laws p.1 j) (sym h1)
                    ∙ Keeps-each_property L laws reads (update_property L before) c.property_paths d
                        (Keeps-update_property before) t j)
                  s;
          },
        )
  ]
    where
      refused : {x : GoError} → ◌≡◌ {A = Outcome Doc × Txn L} (fail x, t) (ok d', t') → ⊥
      refused q = cc

module _ (L : Libs) (laws : KvLaws L.kv) where
  open L use {kv, json, js, cast}
  open json use {Doc}

  -- A delete that returns had an id, in a collection that allows it; nothing is left under the key of
  -- the id, and every other key of the store is as it was.
  pub delete_document-removes :
      (ctx : Context) (c : CollectionSchema) (id : Str) (t t' : Txn L)
      → delete_document L ctx c id t ≡ (ok tt, t')
      → (c.immutable ≡ false)
        × (c.prevent_deletes ≡ false)
        × (is_empty id ≡ false)
        × ((j : Str)
            → view L laws t' j ≡ (if document_key L ctx c id == j then none else view L laws t j))
  unfolding delete_document
  delete_document-removes ctx c id t t' h = elim (Bool-cases c.immutable) [
    | inl e ↦ absurd (refused (simp e at h))
    | inr e ↦ elim (Bool-cases c.prevent_deletes) [
      | inl f ↦ absurd (refused (simp (e, f) at h))
      | inr f ↦ elim (Bool-cases (is_empty id)) [
        | inl g ↦ absurd (refused (simp (e, f, g) at h))
        | inr g ↦
            let s =
              Stored-wrapping L 0 (str "failed to delete documents")
                (kv.delete (document_key L ctx c id)) tt t t' (simp (e, f, g) at h) in
            (
              e,
              f,
              g,
              λ j.
                  ap (λ x. laws.view x j) s.store
                  ∙ laws.view-delete (document_key L ctx c id) j t.store s.result,
            )
      ]
    ]
  ]
    where
      refused : {x : GoError} → ◌≡◌ {A = Outcome (Unit {0}) × Txn L} (fail x, t) (ok tt, t') → ⊥
      refused q = cc
