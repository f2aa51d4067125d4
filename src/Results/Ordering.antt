-- ===== src/Results/Ordering.antt =====
-- compareField and orderByDocs of util.go. `sort` is sort.Slice.
use gokvkit.Prelude.{
  Str, Bool, true, false, not, ◌&&◌, List, [], ◌∷◌, if◌then◌else◌, ◌≡◌, refl, ap, ◌∙◌,
}
use gokvkit.Errors.Outcome.{Outcome, ok, fail, panic, ◌>>=◌}
use gokvkit.Model.Value.{Value, boolean, text, float, any_eq}
use gokvkit.Model.Query.{OrderBy, OrderByDirection, asc, desc}
use gokvkit.Kv.NextPrefix.{bytes_lt}
use gokvkit.Vendor.Cast.{Cast}
use gokvkit.Vendor.Json.{Json}
use gokvkit.Document.{get}

module _ (json : Json) (cast : Cast) where
  open json use {Doc}

  -- The switch on the type of the first value; a `time.Time` is never read from a document.
  unfoldable pub compare_values : Value → Value → Bool
  compare_values (boolean a) y = a && not (cast.to_bool y)
  compare_values (float a) y = cast.float_lt (cast.to_float64 y) a
  compare_values (text a) y = bytes_lt (cast.to_string y) a
  compare_values x y = bytes_lt (cast.json_string y) (cast.json_string x)

  unfoldable pub compare_field : Str → Doc → Doc → Bool
  unfolding compare_values
  compare_field field i j = compare_values (get json i field) (get json j field)

  -- `d[i].Get(field) != d[j].Get(field)`
  abbrev pub differ : Str → Doc → Doc → Outcome Bool
  differ field i j =
      any_eq cast.float_eq (get json i field) (get json j field) >>= λ same. ok (not same)

  -- The loop over the other orders, under a first order that is descending.
  unfoldable pub later_desc : List OrderBy → Doc → Doc → Outcome Bool
  later_desc [] i j = ok false
  later_desc (o ∷ os) i j =
      let rest = later_desc os i j in
      elim o.direction [
        | desc ↦ differ o.field i j >>= λ d. if d then ok (compare_field o.field i j) else rest
        | asc ↦ differ o.field i j >>= λ d. if d then ok (not (compare_field o.field i j)) else rest
      ]

  -- Under a first order that is ascending, each test is made twice.
  unfoldable pub later_asc : List OrderBy → Doc → Doc → Outcome Bool
  later_asc [] i j = ok false
  later_asc (o ∷ os) i j =
      let rest = later_asc os i j in
      differ o.field i j >>= λ d.
      if d
      then elim o.direction [
        | desc ↦ differ o.field i j >>= λ e. if e then ok (compare_field o.field i j) else rest
        | asc ↦ differ o.field i j >>= λ e. if e then ok (not (compare_field o.field i j)) else rest
      ]
      else rest

  -- The two functions that are given to sort.Slice.
  unfoldable pub less : OrderBy → List OrderBy → Doc → Doc → Outcome Bool
  less o os i j =
      let later_d = later_desc os i j in
      let later_a = later_asc os i j in
      elim o.direction [
        | desc ↦ differ o.field i j >>= λ d. if d then ok (compare_field o.field i j) else later_d
        | asc ↦
            differ o.field i j >>= λ d. if d then ok (not (compare_field o.field i j)) else later_a
      ]

  unfoldable pub order_by_docs :
      ((Doc → Doc → Outcome Bool) → List Doc → Outcome (List Doc))
      → List Doc
      → List OrderBy
      → Outcome (List Doc)
  order_by_docs sort ds [] = ok ds
  order_by_docs sort ds (o ∷ os) = sort (less o os) ds

  -- The lexicographic order by a list of orders: the first field in which two documents differ
  -- decides, greater first where it is descending.
  abbrev pub directed : OrderByDirection → Bool → Bool
  directed desc greater = greater
  directed asc greater = not greater

  abbrev pub lexicographic : List OrderBy → Doc → Doc → Outcome Bool
  lexicographic [] i j = ok false
  lexicographic (o ∷ os) i j =
      let rest = lexicographic os i j in
      differ o.field i j >>= λ d.
      if d then ok (directed o.direction (compare_field o.field i j)) else rest

  -- One step, whichever way the direction is tested.
  twice :
      (m : Outcome Bool) (x rest : Outcome Bool)
      → (m >>= λ d. if d then (m >>= λ e. if e then x else rest) else rest)
        ≡ (m >>= λ d. if d then x else rest)
  twice (ok true) x rest = refl
  twice (ok false) x rest = refl
  twice (fail e) x rest = refl
  twice panic x rest = refl

  abbrev step : OrderBy → Doc → Doc → Outcome Bool → Outcome Bool
  step o i j rest = differ o.field i j >>= λ d.
      if d then ok (directed o.direction (compare_field o.field i j)) else rest

  direction-cases : (P : OrderByDirection → Type 0) (o : OrderByDirection) → P asc → P desc → P o
  direction-cases P asc a d = a
  direction-cases P desc a d = d

  later_desc-lexicographic :
      (os : List OrderBy) (i j : Doc) → later_desc os i j ≡ lexicographic os i j
  unfolding later_desc
  later_desc-lexicographic [] i j = refl
  later_desc-lexicographic (o ∷ os) i j =
      direction-cases
        (λ dir.
          elim dir [
            | desc ↦ differ o.field i j >>= λ d.
                if d then ok (compare_field o.field i j) else later_desc os i j
            | asc ↦ differ o.field i j >>= λ d.
                if d then ok (not (compare_field o.field i j)) else later_desc os i j
          ]
          ≡ (differ o.field i j >>= λ d.
              if d then ok (directed dir (compare_field o.field i j)) else later_desc os i j))
        o.direction refl refl
      ∙ ap (step o i j) (later_desc-lexicographic os i j)

  later_asc-lexicographic :
      (os : List OrderBy) (i j : Doc) → later_asc os i j ≡ lexicographic os i j
  unfolding later_asc
  later_asc-lexicographic [] i j = refl
  later_asc-lexicographic (o ∷ os) i j =
      direction-cases
        (λ dir.
          (differ o.field i j >>= λ d.
          if d
          then elim dir [
            | desc ↦ differ o.field i j >>= λ e.
                if e then ok (compare_field o.field i j) else later_asc os i j
            | asc ↦ differ o.field i j >>= λ e.
                if e then ok (not (compare_field o.field i j)) else later_asc os i j
          ]
          else later_asc os i j)
          ≡ (differ o.field i j >>= λ d.
              if d then ok (directed dir (compare_field o.field i j)) else later_asc os i j))
        o.direction
        (twice (differ o.field i j) (ok (not (compare_field o.field i j))) (later_asc os i j))
        (twice (differ o.field i j) (ok (compare_field o.field i j)) (later_asc os i j))
      ∙ ap (step o i j) (later_asc-lexicographic os i j)

  -- The comparison by which documents are sorted is the lexicographic one, whatever the directions
  -- of the first and of the later orders.
  pub less-lexicographic :
      (o : OrderBy) (os : List OrderBy) (i j : Doc) → less o os i j ≡ lexicographic (o ∷ os) i j
  unfolding less
  less-lexicographic o os i j =
      direction-cases
        (λ dir.
          elim dir [
            | desc ↦ differ o.field i j >>= λ d.
                if d then ok (compare_field o.field i j) else later_desc os i j
            | asc ↦ differ o.field i j >>= λ d.
                if d then ok (not (compare_field o.field i j)) else later_asc os i j
          ]
          ≡ (differ o.field i j >>= λ d.
              if d then ok (directed dir (compare_field o.field i j)) else lexicographic os i j))
        o.direction
        (ap
          (λ rest.
            differ o.field i j >>= λ d. if d then ok (not (compare_field o.field i j)) else rest)
          (later_asc-lexicographic os i j))
        (ap (λ rest. differ o.field i j >>= λ d. if d then ok (compare_field o.field i j) else rest)
          (later_desc-lexicographic os i j))
