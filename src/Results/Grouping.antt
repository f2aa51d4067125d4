-- ===== src/Results/Grouping.antt =====
-- groupByDocs of util.go: the groups that documents fall into.
use gokvkit.Prelude.{
  Str, str, ◌==◌, ==_iff, List, [], ◌∷◌, ◌++◌, append_assoc, append-nil, lookup, put, lookup-put,
  Option, none, some, keep, ◌≡◌, refl, sym, ap, ◌∙◌, Bool-cases, inl, inr,
}
use gokvkit.Vendor.Cast.{Cast}
use gokvkit.Vendor.Json.{Json}
use gokvkit.Document.{get}

-- strings.Join(values, ".")
unfoldable pub join_dots : List Str → Str
join_dots [] = []
join_dots (v ∷ []) = v
join_dots (v ∷ w ∷ vs) = v ++ str "." ++ join_dots (w ∷ vs)

module _ {A : Type 0} where
  abbrev pub or_empty : Option (List A) → List A
  or_empty none = []
  or_empty (some xs) = xs

module _ (json : Json) (cast : Cast) where
  open json use {Doc}

  unfoldable pub group_values : List Str → Doc → List Str
  group_values [] d = []
  group_values (g ∷ gs) d = cast.to_string (get json d g) ∷ group_values gs d

  unfoldable pub group_key : List Str → Doc → Str
  unfolding group_values
  group_key fields d = join_dots (group_values fields d)

  -- The loop over the documents, from the groups so far.
  unfoldable pub group_loop : List Str → List Doc → List (Str × List Doc) → List (Str × List Doc)
  group_loop fields [] m = m
  group_loop fields (d ∷ ds) m =
      let k = group_key fields d in group_loop fields ds (put k (or_empty (lookup k m) ++ d ∷ []) m)

  unfoldable pub group_by_docs : List Doc → List Str → List (Str × List Doc)
  unfolding group_loop
  group_by_docs documents fields = group_loop fields documents []

  lookup-group_loop :
      (fields : List Str) (ds : List Doc) (m : List (Str × List Doc)) (k : Str)
      → or_empty (lookup k (group_loop fields ds m))
        ≡ or_empty (lookup k m) ++ keep (λ d. group_key fields d == k) ds
  unfolding group_loop
  lookup-group_loop fields [] m k = sym (append-nil (or_empty (lookup k m)))
  lookup-group_loop fields (d ∷ ds) m k =
      let g = group_key fields d in
      let m' = put g (or_empty (lookup g m) ++ d ∷ []) m in
      lookup-group_loop fields ds m' k
      ∙ ap (λ o. or_empty o ++ keep (λ d. group_key fields d == k) ds)
          (lookup-put g k (or_empty (lookup g m) ++ d ∷ []) m)
      ∙ elim (Bool-cases (g == k)) [
        | inl e ↦
            let same : g ≡ k = (==_iff g k).0 e in
            rw (e, keep)
              (ap (λ x. (or_empty (lookup x m) ++ d ∷ []) ++ keep (λ d. group_key fields d == k) ds)
                  same
                ∙ append_assoc (or_empty (lookup k m)) (d ∷ [])
                    (keep (λ d. group_key fields d == k) ds))
        | inr e ↦ rw (e, keep) refl
      ]

  -- The group of a key consists of the documents with this key, in their order.
  pub lookup-group_by_docs :
      (ds : List Doc) (fields : List Str) (k : Str)
      → or_empty (lookup k (group_by_docs ds fields)) ≡ keep (λ d. group_key fields d == k) ds
  unfolding group_by_docs lookup
  lookup-group_by_docs ds fields k = lookup-group_loop fields ds [] k
