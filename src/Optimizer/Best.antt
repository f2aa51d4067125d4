-- ===== src/Optimizer/Best.antt =====
-- The choice has the best score among the indexes, whatever the order in which the map is visited.
use gokvkit.Prelude.{
  ℕ, ◌+◌, ◌≤◌, ◌≡◌, ◌↔◌, refl, Str, Bool, true, false, ◌&&◌, ◌==◌, List, [], ◌∷◌, length, is_empty,
  ltb, if◌then◌else◌, arith, All, All-mono, Bool-cases, ltb_false→le, inl, inr, str,
}
use native.Mathlib.Nat.{le_trans}
use gokvkit.Errors.{GoError, forbidden, new}
use gokvkit.Errors.Outcome.{ok, fail, Ensures, Ensures-ok}
use gokvkit.Model.Query.{Where, is_eq}
use gokvkit.Model.Schema.{Index, CollectionSchema}
use gokvkit.Vendor.Lo.{Lo}
use gokvkit.Optimizer.{
  Explain, Hits, no_hits, match_fields, score, consider, consider_all, nothing_chosen, best, finish,
  default_explain, optimize_where, optimize_fields, optimize,
}

-- The number of an index's fields that a query's clauses match, each counted once.
pub index_score : Lo → List Where → Index → ℕ
index_score lo ws i =
    let h : Hits = match_fields i.fields ws no_hits in
    if is_empty i.fields then 0 else length (lo.uniq h.matched) + length h.seek

-- The first clause tests the first field of the primary index for equality.
abbrev pub starts_with_key : List Str → List Where → Bool
starts_with_key [] ws = false
starts_with_key (key ∷ keys) [] = false
starts_with_key (key ∷ keys) (w ∷ ws) = (key == w.field) && is_eq w.op

abbrev pub AllAtMost : Lo → List Where → List Index → ℕ → Type 0
AllAtMost lo ws is n = All (λ i. index_score lo ws i ≤ n) is

module _ (lo : Lo) (ws : List Where) where
  score-consider :
      (i : Index) (e : Explain)
      → (score e ≤ score (consider lo ws i e)) × (index_score lo ws i ≤ score (consider lo ws i e))
  unfolding consider index_score
  score-consider i e = ground arith

  score-consider_all :
      (is : List Index) (e : Explain)
      → (score e ≤ score (consider_all lo ws is e))
        × AllAtMost lo ws is (score (consider_all lo ws is e))
  unfolding consider_all
  score-consider_all [] e = (omega arith, tt)
  score-consider_all (i ∷ is) e =
      let (grows, rest) = score-consider_all is (consider lo ws i e) in
      let (old, new_one) = score-consider i e in (omega arith, (omega arith, rest))

  score-consider-le :
      (i : Index) (e : Explain) (n : ℕ)
      → index_score lo ws i ≤ n
      → score e ≤ n
      → score (consider lo ws i e) ≤ n
  unfolding consider index_score
  score-consider-le i e n h k = ground arith

  score-consider_all-le :
      (is : List Index) (e : Explain) (n : ℕ)
      → AllAtMost lo ws is n
      → score e ≤ n
      → score (consider_all lo ws is e) ≤ n
  unfolding consider_all
  score-consider_all-le [] e n h k = k
  score-consider_all-le (i ∷ is) e n h k =
      score-consider_all-le is (consider lo ws i e) n h.1 (score-consider-le i e n h.0 k)

match_fields-nil : (fs : List Str) (h : Hits) → match_fields fs [] h ≡ h
unfolding match_fields
match_fields-nil [] h = refl
match_fields-nil (f ∷ fs) h = refl

no_score : (lo : Lo) (is : List Index) → AllAtMost lo [] is 0
unfolding index_score
no_score lo [] = tt
no_score lo (i ∷ is) =
    (ground (arith, match_fields-nil i.fields no_hits, lo.length-uniq-le []), no_score lo is)

module _ (lo : Lo) (c : CollectionSchema) where
  abbrev Best : List Where → Explain → Type 0
  Best ws e = AllAtMost lo ws c.indexing (score e)

  all_at_most : (ws : List Where) → Best ws (best lo c ws)
  all_at_most ws = (score-consider_all lo ws c.indexing (nothing_chosen c)).1

  default_explain-Best :
      (ws : List Where) → AllAtMost lo ws c.indexing 0 → Best ws (default_explain c)
  unfolding default_explain
  default_explain-Best ws v = v

  finish-Best :
      (ws : List Where) (opt : Explain) → Best ws opt → Ensures (Best ws) (finish c ws opt)
  unfolding finish
  finish-Best ws opt v = elim (Bool-cases (ltb 0 (score opt))) [
    | inl scored ↦ rw scored v
    | inr unmatched ↦ elim (Bool-cases c.require_query_index) [
      | inl r ↦ simp (unmatched, r) tt
      | inr r ↦
          simp (unmatched, r)
            (default_explain-Best ws (
              All-mono _ _ c.indexing (λ i h. le_trans h (ltb_false→le 0 (score opt) unmatched)) v))
    ]
  ]

  optimize_fields-Best :
      (fs : List Str) (ws : List Where)
      → starts_with_key fs ws ≡ false
      → Ensures (Best ws) (optimize_fields lo c fs ws)
  unfolding optimize_fields optimize_where
  optimize_fields-Best [] ws s = tt
  optimize_fields-Best (key ∷ keys) [] s = elim (Bool-cases (is_empty c.indexing)) [
    | inl h ↦ rw h tt
    | inr h ↦ rw h (default_explain-Best [] (no_score lo c.indexing))
  ]
  optimize_fields-Best (key ∷ keys) (w ∷ ws) s = elim (Bool-cases (is_empty c.indexing)) [
    | inl h ↦ rw h tt
    | inr h ↦ rw (h, s) (finish-Best (w ∷ ws) (best lo c (w ∷ ws)) (all_at_most (w ∷ ws)))
  ]

  -- Unless the first clause tests the primary key for equality, no index of the collection matches
  -- more of the query's clauses than the choice does, in whatever order the indexes are visited.
  pub optimize-Best :
      (wheres : List Where) (e : Explain)
      → starts_with_key c.primary_index.fields wheres ≡ false
      → optimize lo c wheres ≡ ok e
      → AllAtMost lo wheres c.indexing (score e)
  unfolding optimize
  optimize-Best ws e s h =
      Ensures-ok (Best ws) (optimize lo c ws) e h (optimize_fields-Best c.primary_index.fields ws s)

  abbrev not_indexed : GoError
  not_indexed = new forbidden (str "index is required for query in collection")

  finish-eq-fail :
      (ws : List Where) (opt : Explain)
      → (finish c ws opt ≡ fail not_indexed) ↔ ((c.require_query_index ≡ true) × (score opt ≡ 0))
  unfolding finish
  finish-eq-fail ws opt = ground arith

  optimize-finish :
      (w : Where) (ws : List Where) (key : Str) (keys : List Str) (i : Index) (is : List Index)
      → c.primary_index.fields ≡ key ∷ keys
      → c.indexing ≡ i ∷ is
      → starts_with_key c.primary_index.fields (w ∷ ws) ≡ false
      → optimize lo c (w ∷ ws) ≡ finish c (w ∷ ws) (best lo c (w ∷ ws))
  unfolding optimize optimize_fields optimize_where
  optimize-finish w ws key keys i is p q s =
      let s' : starts_with_key (key ∷ keys) (w ∷ ws) ≡ false = simp p at s in simp (p, q, s')

  -- In a collection with indexes, a query that has a clause and does not start with the primary key
  -- is forbidden exactly when the collection requires an index and no index matches any clause.
  pub optimize-forbidden :
      (w : Where) (ws : List Where) (key : Str) (keys : List Str) (i : Index) (is : List Index)
      → c.primary_index.fields ≡ key ∷ keys
      → c.indexing ≡ i ∷ is
      → starts_with_key c.primary_index.fields (w ∷ ws) ≡ false
      → (optimize lo c (w ∷ ws) ≡ fail not_indexed)
        ↔ ((c.require_query_index ≡ true) × AllAtMost lo (w ∷ ws) c.indexing 0)
  optimize-forbidden w ws key keys i is p q s = rw (optimize-finish w ws key keys i is p q s) (
    (λ h.
        let (r, e) = (finish-eq-fail (w ∷ ws) (best lo c (w ∷ ws))).0 h in
        (r, rw e at (all_at_most (w ∷ ws)))),
    (λ (r, v). (finish-eq-fail (w ∷ ws) (best lo c (w ∷ ws))).1 (
      r,
      omega (
        arith,
        score-consider_all-le lo (w ∷ ws) c.indexing (nothing_chosen c) 0 v (omega arith),
      ),
    )),
  )
