-- ===== src/Configuration/Plan.antt =====
-- Which collections a plan creates and deletes.
use gokvkit.Prelude.{
  ◌≡◌, refl, ap, subst, ◌∙◌, Str, Bool, true, false, not, ◌&&◌, ◌==◌, ==_iff, List, [], ◌∷◌, keep,
  Bool-cases, inl, inr, arith, some, lookup,
}
use gokvkit.Errors.Outcome.{Outcome, ok, >>=-eq-ok}
use gokvkit.Model.Schema.{CollectionSchema}
use gokvkit.Vendor.Lo.{Lo, elem}
use gokvkit.Vendor.Json.{Json}
use gokvkit.Document.Ops.{diff}
use gokvkit.Transaction.Persist.{cdc_collection}
use gokvkit.Configuration.{
  CollectionPlan, ConfigurationPlan, Mapset, schema_map, collection_names, schema_doc, before_doc,
  receiver, plan_delete, plan_create, plan_each, plan_edits, calc_config_plan,
}

-- What the sets of names are relied on for.
pub record MapsetLaws (set : Mapset) : Type 0 where
  pub keys-difference :
      (xs ys : List Str) (k : Str)
      → elem (set.keys (set.difference (set.of_names xs) (set.of_names ys))) k
        ≡ (elem xs k && not (elem ys k))
  pub equal_elem :
      (xs ys : List Str) (k : Str)
      → set.equal (set.of_names xs) (set.of_names ys) ≡ true
      → elem xs k ≡ elem ys k

abbrev pub planned : List CollectionPlan → List Str
planned [] = []
planned (p ∷ ps) = p.collection ∷ planned ps

pub elem-keep : (p : Str → Bool) (xs : List Str) (k : Str) → elem (keep p xs) k ≡ (elem xs k && p k)
elem-keep p [] k = refl
elem-keep p (x ∷ xs) k =
    let ih : elem (keep p xs) k ≡ (elem xs k && p k) = elem-keep p xs k in
    elim (Bool-cases (x == k)) [
      | inl s ↦
          let same : p x ≡ p k = ap p ((==_iff x k).0 s) in
          elim (Bool-cases (p x)) [
            | inl e ↦ rw (e, keep) (ground arith)
            | inr e ↦ rw (e, keep) (ground arith)
          ]
      | inr s ↦ elim (Bool-cases (p x)) [
        | inl e ↦ rw (e, keep) (ground arith)
        | inr e ↦ rw (e, keep) (ground arith)
      ]
    ]

module _ (lo : Lo) (set : Mapset) (laws : MapsetLaws set) (json : Json)
    (marshal_schema : CollectionSchema → Outcome Str)
    (equals : CollectionSchema → CollectionSchema → Bool) where
  -- A loop over names plans these names, if its body plans its name.
  planned-plan_each :
      (f : Str → Outcome CollectionPlan)
      → ((n : Str) (p : CollectionPlan) → f n ≡ ok p → p.collection ≡ n)
      → (ns : List Str) (ps : List CollectionPlan)
      → plan_each lo set json marshal_schema equals f ns ≡ ok ps
      → planned ps ≡ ns
  unfolding plan_each
  planned-plan_each f h [] ps e = ap planned (let same : ps ≡ [] = cc in same)
  planned-plan_each f h (n ∷ ns) ps e =
      let (p, e1, r1) = >>=-eq-ok (f n) _ e in
      let (qs, e2, r2) = >>=-eq-ok (plan_each lo set json marshal_schema equals f ns) _ r1 in
      let same : ps ≡ p ∷ qs = cc in
      ap planned same
      ∙ ap (λ x. x ∷ planned qs) (h n p e1)
      ∙ ap (λ xs. n ∷ xs) (planned-plan_each f h ns qs e2)

  plan_delete-name :
      (m : List (Str × CollectionSchema)) (n : Str) (p : CollectionPlan)
      → plan_delete lo set json marshal_schema equals m n ≡ ok p
      → p.collection ≡ n
  unfolding plan_delete
  plan_delete-name m n p e =
      let (o, e1, r1) = >>=-eq-ok (schema_doc lo set json marshal_schema equals (lookup n m)) _ e in
      let (d, e2, r2) = >>=-eq-ok (before_doc lo set json marshal_schema equals o) _ r1 in
      let same : p ≡ record { collection = n; diff = diff json json.empty d } = cc in
      ap (λ p. p.collection) same

  plan_create-name :
      (m : List (Str × CollectionSchema)) (n : Str) (p : CollectionPlan)
      → plan_create lo set json marshal_schema equals m n ≡ ok p
      → p.collection ≡ n
  unfolding plan_create
  plan_create-name m n p e =
      let (o, e1, r1) = >>=-eq-ok (schema_doc lo set json marshal_schema equals (lookup n m)) _ e in
      let (d, e2, r2) = >>=-eq-ok (receiver lo set json marshal_schema equals o) _ r1 in
      let same : p ≡ record { collection = n; diff = diff json d (some json.empty) } = cc in
      ap (λ p. p.collection) same

  -- The names that are created and deleted
  pub record Planned (existing new : List CollectionSchema) (plan : ConfigurationPlan)
      : Type 0 where
    pub creates :
        (k : Str)
        → elem (planned plan.to_create) k
          ≡ (elem (collection_names new) k && not (elem (collection_names existing) k))
    pub deletes :
        (k : Str)
        → elem (planned plan.to_delete) k ≡ (
            (elem (collection_names existing) k && not (elem (collection_names new) k))
            && not (k == cdc_collection))

  nothing-Planned :
      (existing new : List CollectionSchema)
      → set.equal (set.of_names (collection_names existing)) (set.of_names (collection_names new))
        ≡ true
      → Planned existing new (record { to_delete = []; to_create = []; to_replace = [] })
  nothing-Planned existing new s = record {
    creates = λ k. same k (laws.equal_elem (collection_names existing) (collection_names new) k s);
    deletes = λ k. gone k (laws.equal_elem (collection_names existing) (collection_names new) k s);
  }
    where
      same :
          (k : Str)
          → elem (collection_names existing) k ≡ elem (collection_names new) k
          → false ≡ (elem (collection_names new) k && not (elem (collection_names existing) k))
      same k e = ground arith

      gone :
          (k : Str)
          → elem (collection_names existing) k ≡ elem (collection_names new) k
          → false ≡ (
              (elem (collection_names existing) k && not (elem (collection_names new) k))
              && not (k == cdc_collection))
      gone k e = ground arith

  planned-Planned :
      (existing new : List CollectionSchema) (plan : ConfigurationPlan)
      → planned plan.to_create
        ≡ set.keys (
            set.difference
              (set.of_names (collection_names new))
              (set.of_names (collection_names existing)))
      → planned plan.to_delete
        ≡ keep
            (λ name. not (name == cdc_collection))
            (set.keys (
              set.difference
                (set.of_names (collection_names existing))
                (set.of_names (collection_names new))))
      → Planned existing new plan
  planned-Planned existing new plan c d = record {
    creates = λ k.
        ap (λ ns. elem ns k) c
        ∙ laws.keys-difference (collection_names new) (collection_names existing) k;
    deletes = λ k.
        ap (λ ns. elem ns k) d
        ∙ elem-keep (λ name. not (name == cdc_collection)) _ k
        ∙ ap (λ b. b && not (k == cdc_collection))
            (laws.keys-difference (collection_names existing) (collection_names new) k);
  }

  -- A plan creates the collections that are new, and deletes those that are there no more, except
  -- that of the change records. The laws of the sets are used.
  pub calc_config_plan-Planned :
      (existing new : List CollectionSchema) (plan : ConfigurationPlan)
      → calc_config_plan lo set json marshal_schema equals existing new ≡ ok plan
      → Planned existing new plan
  unfolding calc_config_plan
  calc_config_plan-Planned existing new plan e =
      elim (Bool-cases (
        set.equal (set.of_names (collection_names existing))
          (set.of_names (collection_names new)))) [
            | inl s ↦
                let found : ◌≡◌ {A = Outcome ConfigurationPlan}
                    (ok (record { to_delete = []; to_create = []; to_replace = [] })) (ok plan) =
                  rw s at e in
                subst (Planned existing new)
                  (let same : record { to_delete = []; to_create = []; to_replace = [] } ≡ plan =
                      cc in
                    same)
                  (nothing-Planned existing new s)
            | inr s ↦
                let xs = collection_names existing in
                let ys = collection_names new in
                let gone = set.keys (set.difference (set.of_names xs) (set.of_names ys)) in
                let (ds, e1, r1) =
                  >>=-eq-ok
                    (plan_each lo set json marshal_schema equals
                      (plan_delete lo set json marshal_schema equals (schema_map existing []))
                      (lo.filter Str gone (λ name i. not (name == cdc_collection))))
                    _ (rw s at e) in
                let (cs, e2, r2) =
                  >>=-eq-ok
                    (plan_each lo set json marshal_schema equals
                      (plan_create lo set json marshal_schema equals (schema_map new []))
                      (set.keys (set.difference (set.of_names ys) (set.of_names xs))))
                    _ r1 in
                let (es, e3, r3) =
                  >>=-eq-ok
                    (plan_edits lo set json marshal_schema equals (schema_map existing [])
                      (schema_map new [])
                      (set.keys (set.intersection (set.of_names xs) (set.of_names ys))))
                    _ r2 in
                let same : record { to_delete = ds; to_create = cs; to_replace = es } ≡ plan = cc in
                subst (Planned existing new) same (
                  planned-Planned existing new
                    (record { to_delete = ds; to_create = cs; to_replace = es })
                    (planned-plan_each _ (plan_create-name (schema_map new [])) _ cs e2)
                    (planned-plan_each _ (plan_delete-name (schema_map existing [])) _ ds e1
                      ∙ lo.filter_lem Str gone (λ name. not (name == cdc_collection))))
          ]
