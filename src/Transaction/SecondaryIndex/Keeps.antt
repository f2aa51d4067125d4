-- ===== src/Transaction/SecondaryIndex/Keeps.antt =====
-- Actions that leave the view of the store as it was: the test of a foreign key is one, when the
-- queries that it makes are.
use gokvkit.Prelude.{
  Str, Bool, true, false, List, [], ◌∷◌, ◌≡◌, refl, sym, ap, ◌∙◌, Option, none, some, if◌then◌else◌,
  lookup, Bool-cases, inl, inr, nat_eq,
}
use gokvkit.Errors.{Code, wrap_error, internal}
use gokvkit.Errors.Outcome.{Outcome, ok, fail, panic}
use gokvkit.Errors.Exec.{Exec, pure, continue, map_error, ◌>>=◌}
use gokvkit.Model.Value.{is_null}
use gokvkit.Model.Query.{Query}
use gokvkit.Model.Schema.{CollectionSchema, ForeignKey}
use gokvkit.Kv.Interface.{KvLaws}
use gokvkit.Vendor.Lo.{elem}
use gokvkit.Document.{get}
use gokvkit.Transaction.{Libs, Txn, Page, Database, Context, wrapping, docs_key}
use gokvkit.Transaction.SecondaryIndex.{
  by_id, after_lookup, has_doc_id, first_field, check_reference, check_foreign_key,
}

module _ (L : Libs) (laws : KvLaws L.kv) where
  open L use {kv, json, cast}
  open json use {Doc}

  abbrev pub view : Txn L → Str → Option Str
  view t = laws.view t.store

  -- An action that leaves the view of the store as it was, whatever it returns.
  abbrev pub Keeps : {A : Type 0} → Exec (Txn L) A → Type 0
  Keeps m = (t : Txn L) (j : Str) → view (m t).1 j ≡ view t j

  abbrev pub ReadsOnly : Database L → Type 0
  ReadsOnly db = (ctx : Context) (c : Str) (q : Query) → Keeps (db.query ctx c q)

  module _ {A B : Type 0} where
    pub Keeps-bind :
        (m : Exec (Txn L) A) (f : A → Exec (Txn L) B)
        → Keeps m
        → ((a : A) → Keeps (f a))
        → Keeps (m >>= f)
    Keeps-bind m f hm hf t j = go (m t) refl
      where
        go : (o : Outcome A × Txn L) → m t ≡ o → view (continue f o).1 j ≡ view t j
        go (ok a, s) e = hf a s j ∙ ap (λ (p : Outcome A × Txn L). view p.1 j) (sym e) ∙ hm t j
        go (fail x, s) e = ap (λ (p : Outcome A × Txn L). view p.1 j) (sym e) ∙ hm t j
        go (panic, s) e = ap (λ (p : Outcome A × Txn L). view p.1 j) (sym e) ∙ hm t j

  module _ {A : Type 0} where
    pub Keeps-wrapping :
        (c : Code) (msg : Str) (m : Exec (Txn L) A) → Keeps m → Keeps (wrapping L c msg m)
    Keeps-wrapping c msg m h t j = go (m t) ∙ h t j
      where
        go :
            (o : Outcome A × Txn L)
            → view (map_error (λ e. wrap_error L.marshal e c msg) o).1 j ≡ view o.1 j
        go (ok a, s) = refl
        go (fail x, s) = refl
        go (panic, s) = refl

    pub Keeps-if :
        (b : Bool) (m n : Exec (Txn L) A) → Keeps m → Keeps n → Keeps (if b then m else n)
    Keeps-if true m n hm hn = hm
    Keeps-if false m n hm hn = hn

  Keeps-has_doc_id :
      (db : Database L) (ctx : Context) (c : CollectionSchema) (id : Str)
      → ReadsOnly db
      → Keeps (has_doc_id L db ctx c id)
  unfolding has_doc_id after_lookup
  Keeps-has_doc_id db ctx c id r t =
      Keeps-if (elem t.docs (docs_key c.collection id)) (pure true)
        (wrapping L internal [] (db.query ctx c.collection (by_id c id)) >>= after_lookup L c id)
        (λ s j. refl)
        (Keeps-bind (wrapping L internal [] (db.query ctx c.collection (by_id c id)))
          (after_lookup L c id)
          (Keeps-wrapping internal [] (db.query ctx c.collection (by_id c id))
            (r ctx c.collection (by_id c id)))
          found)
        t
    where
      found : (p : Page L) → Keeps (after_lookup L c id p)
      found p s j = elim (Bool-cases (nat_eq p.count 0)) [ inl e ↦ rw e refl | inr e ↦ rw e refl ]

  Keeps-check_reference :
      (db : Database L) (ctx : Context) (c : Option CollectionSchema) (id : Str)
      → ReadsOnly db
      → Keeps (check_reference L db ctx c id)
  unfolding check_reference
  Keeps-check_reference db ctx none id r = λ t j. refl
  Keeps-check_reference db ctx (some c) id r =
      Keeps-bind (wrapping L internal [] (has_doc_id L db ctx c id)) _
        (Keeps-wrapping internal [] (has_doc_id L db ctx c id) (Keeps-has_doc_id db ctx c id r))
        (λ has. Keeps-if has _ _ (λ t j. refl) (λ t j. refl))

  pub Keeps-check_foreign_key :
      (db : Database L) (ctx : Context) (fk : Option ForeignKey) (fields : List Str) (d : Doc)
      → ReadsOnly db
      → Keeps (check_foreign_key L db ctx fk fields d)
  unfolding check_foreign_key first_field
  Keeps-check_foreign_key db ctx none fields d r = λ t j. refl
  Keeps-check_foreign_key db ctx (some fk) [] d r = λ t j. refl
  Keeps-check_foreign_key db ctx (some fk) (f ∷ fs) d r =
      Keeps-if (is_null (get json d f)) (pure tt)
        (check_reference L db ctx (lookup fk.collection db.collections)
          (cast.to_string (get json d f)))
        (λ t j. refl)
        (Keeps-check_reference db ctx (lookup fk.collection db.collections)
          (cast.to_string (get json d f)) r)
