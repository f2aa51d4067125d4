-- ===== src/Transaction/Documents/Saved.antt =====
-- The loops over the properties of a document do not change the store; writing it does.
use gokvkit.Prelude.{
  Str, str, Bool, ◌==◌, List, [], ◌∷◌, ◌≡◌, refl, sym, ap, subst, ◌∙◌, Option, none, some,
  if◌then◌else◌,
}
use gokvkit.Errors.{internal}
use gokvkit.Errors.Outcome.{Outcome, ok}
use gokvkit.Errors.Exec.{Exec, pure, lift, ◌>>=◌, ◌>>◌, >>=-ok}
use gokvkit.Model.Value.{Value, any_eq}
use gokvkit.Model.Schema.{CollectionSchema, SchemaProperty, ComputedField}
use gokvkit.Kv.Interface.{KvLaws}
use gokvkit.Document.{get}
use gokvkit.Transaction.{validate_document, Libs, Txn, wrapping, on_store, on_vm}
use gokvkit.Transaction.Frame.{OnlyRead}
use gokvkit.Transaction.SecondaryIndex.Keeps.{view, Keeps, Keeps-bind, Keeps-wrapping, Keeps-if}
use gokvkit.Transaction.SecondaryIndex.Entries.{Stored-wrapping}
use gokvkit.Transaction.Documents.{
  write_computed, write_default, create_property, restore_immutable, set_property, each_property,
}

module _ (L : Libs) (laws : KvLaws L.kv) (reads : OnlyRead L laws) where
  open L use {kv, json, js, cast}
  open json use {Doc}

  pub Keeps-write_computed :
      (p : Str) (c : Option ComputedField) (d : Doc) → Keeps L laws (write_computed L p c d)
  unfolding write_computed
  Keeps-write_computed p none d = λ t j. refl
  Keeps-write_computed p (some c) d =
      Keeps-if L laws c.write _ _
        (Keeps-bind L laws _ _
          (Keeps-wrapping L laws internal (str "failed to compute value")
            (on_vm L (js.run_string c.expr))
            (λ t j. reads (js.run_string c.expr (L.holding t.store t.vm)).1 t.store j))
          (λ val.
            Keeps-wrapping L laws internal (str "failed to set computed property")
              (lift (json.set p val d)) (λ t j. refl)))
        (λ t j. refl)

  pub Keeps-write_default :
      (p : Str) (v : Option Value) (d : Doc) → Keeps L laws (write_default L p v d)
  unfolding write_default
  Keeps-write_default p none d = λ t j. refl
  Keeps-write_default p (some v) d =
      Keeps-if L laws (json.exists d p) _ _ (λ t j. refl)
        (Keeps-wrapping L laws internal (str "failed to set default property")
          (lift (json.set p v d)) (λ t j. refl))

  Keeps-restore_immutable :
      (before : Option Doc) (p : Str) (b : Bool) (d : Doc)
      → Keeps L laws (restore_immutable L before p b d)
  unfolding restore_immutable
  Keeps-restore_immutable none p b d = λ t j. refl
  Keeps-restore_immutable (some before) p b d =
      Keeps-if L laws b _ _
        (Keeps-bind L laws (lift (any_eq cast.float_eq (get json d p) (get json before p))) _
          (λ t j. refl)
          (λ same.
            Keeps-if L laws same _ _ (λ t j. refl)
              (Keeps-wrapping L laws internal (str "failed to set immutable property")
                (lift (json.set p (get json before p) d)) (λ t j. refl))))
        (λ t j. refl)

  pub Keeps-set_property :
      (before : Option Doc) (p : Str × SchemaProperty) (d : Doc)
      → Keeps L laws (set_property L before p d)
  unfolding set_property
  Keeps-set_property before (p, v) d =
      Keeps-bind L laws (write_computed L p v.compute d)
        (λ d'. write_default L p v.default_value d' >>= λ d''.
          restore_immutable L before p v.immutable d'')
        (Keeps-write_computed p v.compute d)
        (λ d'.
          Keeps-bind L laws (write_default L p v.default_value d')
            (λ d''. restore_immutable L before p v.immutable d'')
            (Keeps-write_default p v.default_value d')
            (λ d''. Keeps-restore_immutable before p v.immutable d''))

  pub Keeps-create_property :
      (p : Str × SchemaProperty) (d : Doc) → Keeps L laws (create_property L p d)
  unfolding create_property
  Keeps-create_property (p, v) d =
      Keeps-bind L laws (write_computed L p v.compute d)
        (λ d'. write_default L p v.default_value d') (Keeps-write_computed p v.compute d)
        (λ d'. Keeps-write_default p v.default_value d')

  pub Keeps-each_property :
      (body : Str × SchemaProperty → Doc → Exec (Txn L) Doc) (ps : List (Str × SchemaProperty))
      (d : Doc)
      → ((p : Str × SchemaProperty) (d : Doc) → Keeps L laws (body p d))
      → Keeps L laws (each_property L body ps d)
  unfolding each_property
  Keeps-each_property body [] d h = λ t j. refl
  Keeps-each_property body (p ∷ ps) d h =
      Keeps-bind L laws (body p d) (λ d'. each_property L body ps d') (h p d)
        (λ d'. Keeps-each_property body ps d' h)

module _ (L : Libs) (laws : KvLaws L.kv) where
  open L use {kv, json, js, cast}
  open json use {Doc}

  -- What a write of a document leaves: the document, which its schema finds valid, at its key.
  pub record Saved (c : CollectionSchema) (key : Str) (d : Doc) (t t' : Txn L) : Type 0 where
    pub valid : validate_document L c d ≡ ok tt
    pub stored :
        (j : Str) → view L laws t' j ≡ (if key == j then some (json.raw d) else view L laws t j)

  pub save_merged :
      (c : CollectionSchema) (key msg : Str) (after d d' : Doc) (t t' : Txn L)
      → (do
        lift (validate_document L c after)
        wrapping L internal msg (on_store L (kv.set key (json.raw after)))
        pure d)
          t
        ≡ (ok d', t')
      → (d ≡ d') × Saved c key after t t'
  save_merged c key msg after d d' t t' h =
      let (_, t1, h1, r1) = >>=-ok (lift (validate_document L c after)) _ h in
      let (_, t2, h2, r2) =
        >>=-ok (wrapping L internal msg (on_store L (kv.set key (json.raw after)))) _ r1 in
      let e = Stored-wrapping L internal msg (kv.set key (json.raw after)) tt t1 t2 h2 in
      (
        same_result t2 r2,
        record {
          valid = ap (λ (p : Outcome (Unit {0}) × Txn L). p.0) h1;
          stored = λ j.
              ap (λ (p : Outcome Doc × Txn L). view L laws p.1 j) (sym r2)
              ∙ ap (λ s. laws.view s j) e.store
              ∙ laws.view-set key (json.raw after) j t1.store e.result
              ∙ ap
                  (λ (p : Outcome (Unit {0}) × Txn L).
                    if key == j then some (json.raw after) else view L laws p.1 j)
                  (sym h1);
        },
      )
    where
      same_result : (t2 : Txn L) → ◌≡◌ {A = Outcome Doc × Txn L} (ok d, t2) (ok d', t') → d ≡ d'
      same_result t2 q = cc

  pub save-Saved :
      (c : CollectionSchema) (key msg : Str) (d d' : Doc) (t t' : Txn L)
      → (do
        lift (validate_document L c d)
        wrapping L internal msg (on_store L (kv.set key (json.raw d)))
        pure d)
          t
        ≡ (ok d', t')
      → Saved c key d' t t'
  save-Saved c key msg d d' t t' h =
      let (same, s) = save_merged c key msg d d d' t t' h in subst (λ x. Saved c key x t t') same s

  pub Saved-Keeps :
      (c : CollectionSchema) (key : Str) (d : Doc) (t t1 t' : Txn L)
      → ((j : Str) → view L laws t1 j ≡ view L laws t j)
      → Saved c key d t1 t'
      → Saved c key d t t'
  Saved-Keeps c key d t t1 t' k s = record {
    valid = s.valid;
    stored = λ j. s.stored j ∙ ap (λ o. if key == j then some (json.raw d) else o) (k j);
  }
