-- ===== src/Optimizer/Sound.antt =====
-- What the chosen index promises: the fields that the scan relies on are tested by the query.
use gokvkit.Prelude.{
  subst, lookup, none, if◌then◌else◌, ◌+◌, ◌≡◌, refl, sym, Str, true, ◌&&◌, ◌==◌, ==_iff, List, [],
  ◌∷◌, length, is_empty, leb, ltb, arith, All, Any, All-mono, ◌⊎◌, inl, inr, Bool-cases, ◌∙◌,
  ltb→lt, &&-eq-true,
}
use gokvkit.Errors.Outcome.{ok, Ensures, Ensures-ok}
use gokvkit.Model.Query.{Where, is_eq}
use gokvkit.Model.Schema.{Index, CollectionSchema, primary_key, primary_key_lem}
use gokvkit.Vendor.Lo.{Lo, elem}
use gokvkit.Optimizer.{
  Explain, Hits, no_hits, match_fields, score, consider, consider_all, nothing_chosen, best, finish,
  by_primary_key, default_explain, optimize_where, optimize_fields, optimize,
}
use gokvkit.Optimizer.Clauses.{EqClause, RangeClause, FitsHits, match_fields_fit}
use gokvkit.Optimizer.Fields.{
  last_value, lookup-get_matched_field_values, Inside, match_fields-Inside,
}

-- A field of an index
abbrev OfIndex : Index → Str → Type 0
OfIndex i f = Any (λ g. g ≡ f) i.fields

Any-self : {A : Type 0} (xs : List A) → All (λ x. Any (λ y. y ≡ x) xs) xs
Any-self [] = tt
Any-self (x ∷ xs) = (
  inl refl,
  All-mono (λ z. Any (λ y. y ≡ z) xs) (λ z. Any (λ y. y ≡ z) (x ∷ xs)) xs (λ z p. inr p)
      (Any-self xs),
)

-- The choice is an index of the collection; the fields to match and to seek are among its fields, and
-- are tested by clauses; and for each there is the value of the last clause on it, and no other value.
pub record IsJustified (c : CollectionSchema) (ws : List Where) (e : Explain) : Type 0 where
  pub index : (e.index ≡ c.primary_index) ⊎ Any (λ i. i ≡ e.index) c.indexing
  pub matched : All (EqClause ws) e.matched_fields
  pub seek : All (RangeClause e.reverse ws) e.seek_fields
  pub matched_of_index : All (OfIndex e.index) e.matched_fields
  pub seek_of_index : All (OfIndex e.index) e.seek_fields
  pub matched_values :
      (k : Str)
      → lookup k e.matched_values ≡ (if elem e.matched_fields k then last_value k ws else none)
  pub seek_values :
      (k : Str) → lookup k e.seek_values ≡ (if elem e.seek_fields k then last_value k ws else none)

-- A choice of one of the indexes `is`, or no choice yet.
record Chosen (is : List Index) (ws : List Where) (e : Explain) : Type 0 where
  index : (score e ≡ 0) ⊎ Any (λ i. i ≡ e.index) is
  matched : All (EqClause ws) e.matched_fields
  seek : All (RangeClause e.reverse ws) e.seek_fields
  matched_of_index : All (OfIndex e.index) e.matched_fields
  seek_of_index : All (OfIndex e.index) e.seek_fields

module _ (lo : Lo) (is : List Index) (ws : List Where) where
  consider-Chosen :
      (i : Index) (e : Explain)
      → Any (λ j. j ≡ i) is
      → Chosen is ws e
      → Chosen is ws (consider lo ws i e)
  unfolding consider
  consider-Chosen i e at v =
      let h : Hits = match_fields i.fields ws no_hits in
      let inside : Inside (OfIndex i) h =
        match_fields-Inside (OfIndex i) i.fields ws no_hits (Any-self i.fields)
          (record { matched = tt; seek = tt }) in
      let fit : FitsHits ws h = match_fields_fit ws i.fields ws [] (λ P p. p) tt in
      elim (Bool-cases (is_empty i.fields)) [
        | inl none_left ↦ rw none_left v
        | inr some_left ↦
            elim (Bool-cases (leb (score e) (length (lo.uniq h.matched) + length h.seek))) [
              | inl better ↦
                  rw (some_left, better)
                    (record {
                      index = inr at;
                      matched = lo.uniq-All (EqClause ws) h.matched fit.matched;
                      seek = fit.seek;
                      matched_of_index = lo.uniq-All (OfIndex i) h.matched inside.matched;
                      seek_of_index = inside.seek;
                    })
              | inr worse ↦ rw (some_left, worse) v
            ]
      ]

  consider_all-Chosen :
      (js : List Index) (e : Explain)
      → All (λ i. Any (λ j. j ≡ i) is) js
      → Chosen is ws e
      → Chosen is ws (consider_all lo ws js e)
  unfolding consider_all
  consider_all-Chosen [] e at v = v
  consider_all-Chosen (j ∷ js) e at v =
      consider_all-Chosen js (consider lo ws j e) at.1 (consider-Chosen j e at.0 v)

module _ (lo : Lo) (c : CollectionSchema) where
  default_explain-IsJustified : (ws : List Where) → IsJustified c ws (default_explain c)
  unfolding default_explain lookup
  default_explain-IsJustified ws = record {
    index = inl refl;
    matched = tt;
    seek = tt;
    matched_of_index = tt;
    seek_of_index = tt;
    matched_values = λ k. refl;
    seek_values = λ k. refl;
  }

  finish-IsJustified :
      (ws : List Where) (opt : Explain)
      → Chosen c.indexing ws opt
      → Ensures (IsJustified c ws) (finish c ws opt)
  unfolding finish
  finish-IsJustified ws opt v = elim (Bool-cases (ltb 0 (score opt))) [
    | inl scored ↦ rw scored (record {
      index = elim v.index [
        | inl zero_score ↦ absurd (unscored scored zero_score)
        | inr at ↦ inr at
      ];
      matched = v.matched;
      seek = v.seek;
      matched_of_index = v.matched_of_index;
      seek_of_index = v.seek_of_index;
      matched_values = lookup-get_matched_field_values opt.matched_fields ws;
      seek_values = lookup-get_matched_field_values opt.seek_fields ws;
    })
    | inr unmatched ↦ elim (Bool-cases c.require_query_index) [
      | inl r ↦ simp (unmatched, r) tt
      | inr r ↦ simp (unmatched, r) (default_explain-IsJustified ws)
    ]
  ]
    where
      unscored : ltb 0 (score opt) ≡ true → score opt ≡ 0 → ⊥
      unscored h e = omega (arith, ltb→lt 0 (score opt) h)

  by_primary_key-IsJustified :
      (key : Str) (keys : List Str) (w : Where) (ws : List Where)
      → c.primary_index.fields ≡ key ∷ keys
      → ((key == w.field) && is_eq w.op) ≡ true
      → IsJustified c (w ∷ ws) (by_primary_key c (w ∷ ws))
  unfolding by_primary_key primary_key lookup
  by_primary_key-IsJustified key keys w ws e h = record {
    index = inl refl;
    matched = (
      inl (
        sym ((==_iff key w.field).0 (&&-eq-true _ _ h).0) ∙ sym (primary_key_lem c key keys e),
        (&&-eq-true _ _ h).1,
      ),
      tt,
    );
    seek = tt;
    matched_of_index = (
      subst (Any (λ g. g ≡ primary_key c)) (sym e) (inl (sym (primary_key_lem c key keys e))),
      tt,
    );
    seek_of_index = tt;
    matched_values = lookup-get_matched_field_values (primary_key c ∷ []) (w ∷ ws);
    seek_values = λ k. refl;
  }

  optimize_where-IsJustified :
      (key : Str) (keys : List Str) (ws : List Where)
      → c.primary_index.fields ≡ key ∷ keys
      → Ensures (IsJustified c ws) (optimize_where lo c key ws)
  unfolding optimize_where
  optimize_where-IsJustified key keys [] e = default_explain-IsJustified []
  optimize_where-IsJustified key keys (w ∷ ws) e =
      elim (Bool-cases ((key == w.field) && is_eq w.op)) [
        | inl h ↦ rw h (by_primary_key-IsJustified key keys w ws e h)
        | inr h ↦ rw h (
            finish-IsJustified (w ∷ ws) (best lo c (w ∷ ws)) (
              consider_all-Chosen lo c.indexing (w ∷ ws) c.indexing (nothing_chosen c)
                (Any-self c.indexing) start))
      ]
    where
      start : Chosen c.indexing (w ∷ ws) (nothing_chosen c)
      start = record {
        index = inl refl;
        matched = tt;
        seek = tt;
        matched_of_index = tt;
        seek_of_index = tt;
      }

  optimize_fields-IsJustified :
      (fs : List Str) (ws : List Where)
      → c.primary_index.fields ≡ fs
      → Ensures (IsJustified c ws) (optimize_fields lo c fs ws)
  unfolding optimize_fields
  optimize_fields-IsJustified [] ws e = tt
  optimize_fields-IsJustified (key ∷ keys) ws e = elim (Bool-cases (is_empty c.indexing)) [
    | inl h ↦ rw h tt
    | inr h ↦ rw h (optimize_where-IsJustified key keys ws e)
  ]

  -- Whenever Optimize returns a choice, its index is the primary index or one of the collection's
  -- indexes, and the matched fields and those to seek are fields of it. Each matched field is tested for
  -- equality by some clause of the query, and each field to seek by a range: one that is open above, or,
  -- when the scan is reversed, below. The matched values are, for exactly the matched fields, those of
  -- the last clause on the field, whatever its operator; likewise the values to seek.
  pub optimize-IsJustified :
      (wheres : List Where) (e : Explain) → optimize lo c wheres ≡ ok e → IsJustified c wheres e
  unfolding optimize
  optimize-IsJustified ws e h =
      Ensures-ok (IsJustified c ws) (optimize lo c ws) e h
        (optimize_fields-IsJustified c.primary_index.fields ws refl)
