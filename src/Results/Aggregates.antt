-- ===== src/Results/Aggregates.antt =====
-- aggregateDocs, applyAggregates, applyNonAggregates, defaultAs and selectDocument of util.go.
use gokvkit.Prelude.{
  ℕ, Str, str, true, not, ◌==◌, List, [], ◌∷◌, ◌++◌, is_empty, Option, none, some, put, keep-true,
  keep-false, ap, ◌∙◌, if◌then◌else◌, ◌≡◌, refl,
}
use gokvkit.Errors.{new, validation}
use gokvkit.Errors.Outcome.{Outcome, ok, fail, panic, ◌>>=◌}
use gokvkit.Model.Value.{float}
use gokvkit.Model.Query.{
  Select, AggregateFunction, no_aggregate, count, max, min, sum, is_aggregate,
}
use gokvkit.Vendor.Lo.{Lo}
use gokvkit.Vendor.Cast.{Cast}
use gokvkit.Vendor.Json.{Json}
use gokvkit.Document.{Values, get, valid, overwrite}

abbrev pub aggregate_name : AggregateFunction → Str
aggregate_name no_aggregate = []
aggregate_name count = str "count"
aggregate_name max = str "max"
aggregate_name min = str "min"
aggregate_name sum = str "sum"
aggregate_name (AggregateFunction.other s) = s

unfoldable pub default_as : AggregateFunction → Str → Str
default_as function field =
    if is_aggregate function then aggregate_name function ++ str "_" ++ field else field

-- `if agg.As == "" { agg.As = defaultAs(...) }`
abbrev pub result_name : Select → Str
result_name s = if is_empty s.as_name then default_as s.aggregate s.field else s.as_name

module _ (lo : Lo) (json : Json) (cast : Cast) where
  open json use {Doc}

  unfoldable pub get_float : Doc → Str → ℕ
  get_float d field = cast.to_float64 (get json d field)

  -- The switch of applyAggregates: the number so far, and that of the next document.
  unfoldable pub aggregate_step : AggregateFunction → ℕ → ℕ → Outcome ℕ
  aggregate_step count current value = ok (cast.float_add current cast.float_one)
  aggregate_step max current value = ok (if cast.float_lt current value then value else current)
  aggregate_step min current value = ok (if cast.float_lt value current then value else current)
  aggregate_step sum current value = ok (cast.float_add current value)
  aggregate_step _ current value = fail (new validation (str "unsupported aggregate function"))

  unfoldable pub apply_aggregates : Select → Str → Doc → Doc → Outcome Doc
  apply_aggregates agg as_name aggregated next =
      aggregate_step agg.aggregate (get_float aggregated as_name) (get_float next agg.field)
      >>= λ current. json.set as_name (float current) aggregated

  unfoldable pub apply_non_aggregates : Select → Doc → Doc → Outcome Doc
  apply_non_aggregates s aggregated next =
      json.set (if is_empty s.as_name then s.field else s.as_name) (get json next s.field)
        aggregated

  unfoldable pub all_non_aggregates : List Select → Doc → Doc → Outcome Doc
  all_non_aggregates [] aggregated next = ok aggregated
  all_non_aggregates (s ∷ ss) aggregated next =
      apply_non_aggregates s aggregated next >>= λ d. all_non_aggregates ss d next

  unfoldable pub all_aggregates : List Select → Doc → Doc → Outcome Doc
  all_aggregates [] aggregated next = ok aggregated
  all_aggregates (s ∷ ss) aggregated next =
      apply_aggregates s (result_name s) aggregated next >>= λ d. all_aggregates ss d next

  -- `aggregated == nil || !aggregated.Valid()`
  unfoldable pub started : List Select → Option Doc → Doc → Outcome Doc
  started nons none next = all_non_aggregates nons json.empty next
  started nons (some d) next =
      if valid json d then ok d else all_non_aggregates nons json.empty next

  unfoldable pub aggregate_loop :
      List Select → List Select → List Doc → Option Doc → Outcome (Option Doc)
  aggregate_loop nons aggs [] aggregated = ok aggregated
  aggregate_loop nons aggs (next ∷ ds) aggregated = started nons aggregated next >>= λ d.
      all_aggregates aggs d next >>= λ d'. aggregate_loop nons aggs ds (some d')

  unfoldable pub aggregate_docs : List Doc → List Select → Outcome (Option Doc)
  aggregate_docs ds selects =
      aggregate_loop (lo.filter Select selects (λ s i. not (is_aggregate s.aggregate)))
        (lo.filter Select selects (λ s i. is_aggregate s.aggregate)) ds none

  -- The patch of selectDocument.
  unfoldable pub patch_of : List Select → Doc → Values → Values
  patch_of [] d m = m
  patch_of (s ∷ ss) d m = patch_of ss d (put (result_name s) (get json d s.field) m)

  unfoldable pub select_document : List Select → Doc → Outcome Doc
  select_document [] d = ok d
  select_document (s ∷ ss) d =
      if s.field == str "*" then ok d else overwrite json (patch_of (s ∷ ss) d []) d

  -- Setting a number at the name of the result keeps the document valid, and it is read back.
  pub record ResultLaws (p : Str) : Type 0 where
    pub stored : ℕ → Doc → Doc
    pub set-float : (n : ℕ) (d : Doc) → json.set p (float n) d ≡ ok (stored n d)
    pub get-stored : (n : ℕ) (d : Doc) → get_float (stored n d) p ≡ n
    pub valid-stored : (n : ℕ) (d : Doc) → valid json (stored n d) ≡ true
    pub get-empty : get_float json.empty p ≡ cast.float_zero

  -- The result of the switch, over all the documents in turn.
  abbrev pub fold_aggregate : AggregateFunction → Str → ℕ → List Doc → Outcome ℕ
  fold_aggregate f field n [] = ok n
  fold_aggregate f field n (d ∷ ds) =
      aggregate_step f n (get_float d field) >>= λ n'. fold_aggregate f field n' ds

  abbrev pub as_float : Outcome (Option Doc) → Str → Outcome ℕ
  as_float (ok none) p = ok cast.float_zero
  as_float (ok (some d)) p = ok (get_float d p)
  as_float (fail e) p = fail e
  as_float panic p = panic

  module _ (s : Select) (laws : ResultLaws (result_name s)) where
    -- A document that holds the number so far.
    Holds : ℕ → Doc → Type 0
    Holds n d = (valid json d ≡ true) × (get_float d (result_name s) ≡ n)

    step-stored :
        (n : ℕ) (d next : Doc) (ds : List Doc)
        → get_float d (result_name s) ≡ n
        → ((n' : ℕ) (d' : Doc)
            → Holds n' d'
            → as_float (aggregate_loop [] (s ∷ []) ds (some d')) (result_name s)
              ≡ fold_aggregate s.aggregate s.field n' ds)
        → as_float
            (all_aggregates (s ∷ []) d next >>= λ d'. aggregate_loop [] (s ∷ []) ds (some d'))
            (result_name s)
          ≡ fold_aggregate s.aggregate s.field n (next ∷ ds)
    unfolding all_aggregates apply_aggregates Holds
    step-stored n d next ds e ih = rw e (go (aggregate_step s.aggregate n (get_float next s.field)))
      where
        go :
            (o : Outcome ℕ)
            → as_float
                (((o >>= λ current. json.set (result_name s) (float current) d) >>= λ d. ok d)
                  >>= λ d'. aggregate_loop [] (s ∷ []) ds (some d'))
                (result_name s)
              ≡ (o >>= λ n'. fold_aggregate s.aggregate s.field n' ds)
        go (ok c) =
            rw (laws.set-float c d)
              (ih c (laws.stored c d) (laws.valid-stored c d, laws.get-stored c d))
        go (fail x) = refl
        go panic = refl

    loop-fold :
        (ds : List Doc) (n : ℕ) (d : Doc)
        → Holds n d
        → as_float (aggregate_loop [] (s ∷ []) ds (some d)) (result_name s)
          ≡ fold_aggregate s.aggregate s.field n ds
    unfolding aggregate_loop started Holds
    loop-fold [] n d h = rw h.1 refl
    loop-fold (next ∷ ds) n d h = rw h.0 (step-stored n d next ds h.1 (loop-fold ds))

    from_none :
        (ds : List Doc)
        → as_float (aggregate_loop [] (s ∷ []) ds none) (result_name s)
          ≡ fold_aggregate s.aggregate s.field cast.float_zero ds
    unfolding aggregate_loop started all_non_aggregates
    from_none [] = refl
    from_none (d ∷ ds) = step-stored cast.float_zero json.empty d ds laws.get-empty (loop-fold ds)

    -- With one select, which aggregates, and a name of its result at which numbers can be set and
    -- read back, the number in the result is the one that the function's steps lead to from 0 over
    -- all the documents in turn; an error of a step is returned.
    pub aggregate_docs-fold :
        (ds : List Doc)
        → is_aggregate s.aggregate ≡ true
        → as_float (aggregate_docs ds (s ∷ [])) (result_name s)
          ≡ fold_aggregate s.aggregate s.field cast.float_zero ds
    unfolding aggregate_docs
    aggregate_docs-fold ds a =
        ap
          (λ nons.
            as_float
              (aggregate_loop nons (lo.filter Select (s ∷ []) (λ s i. is_aggregate s.aggregate)) ds
                none)
              (result_name s))
          (lo.filter_lem Select (s ∷ []) (λ s. not (is_aggregate s.aggregate))
            ∙ keep-false (λ s. not (is_aggregate s.aggregate)) s [] (ap not a))
        ∙ ap (λ aggs. as_float (aggregate_loop [] aggs ds none) (result_name s))
            (lo.filter_lem Select (s ∷ []) (λ s. is_aggregate s.aggregate)
              ∙ keep-true (λ s. is_aggregate s.aggregate) s [] a)
        ∙ from_none ds
