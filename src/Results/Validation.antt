-- ===== src/Results/Validation.antt =====
-- Query.Validate of model.go. `struct_valid` is the check of the validation tags.
use gokvkit.Prelude.{
  Str, str, Bool, true, false, not, ◌&&◌, ◌||◌, ◌==◌, List, [], ◌∷◌, is_empty, if◌then◌else◌, ◌≡◌,
  arith, All, Bool-cases, inl, inr, sym, ◌∙◌,
}
use gokvkit.Errors.{Error, wrap_error, new, validation}
use gokvkit.Errors.Outcome.{Outcome, ok, fail, panic, ◌>>=◌, ◌>>◌, >>=-eq-ok}
use gokvkit.Model.Query.{Query, Select, is_aggregate}
use gokvkit.Vendor.Lo.{Lo, elem}

-- The first loop: whether a select aggregates, or the error of a select without a field.
unfoldable pub check_selects : List Select → Bool → Outcome Bool
check_selects [] found = ok found
check_selects (s ∷ ss) found =
    let rest = check_selects ss (found || is_aggregate s.aggregate) in
    if is_empty s.field
    then fail (new validation (str "empty required field: 'select.field'"))
    else rest

-- lo.ContainsBy on the selects
abbrev pub selects_field : List Select → Str → Bool
selects_field [] g = false
selects_field (s ∷ ss) g = (s.field == g) || selects_field ss g

-- The third loop: the groups are selected.
unfoldable pub check_groups : List Select → List Str → Outcome (Unit {0})
check_groups selects [] = ok tt
check_groups selects (g ∷ gs) =
    let rest = check_groups selects gs in
    if selects_field selects g
    then rest
    else fail (new validation (str "is required in the select clause when aggregating"))

-- util.ValidateStruct, and the error of `validate` about its result.
abbrev pub invalid : (Error → Str) → Outcome (Unit {0}) → Outcome (Unit {0})
invalid marshal (ok x) = ok x
invalid marshal (fail e) = fail (wrap_error marshal e validation [])
invalid marshal panic = panic

module _ (lo : Lo) (marshal : Error → Str) (struct_valid : Query → Outcome (Unit {0})) where
  -- The second loop: the selects that do not aggregate are grouped by.
  unfoldable pub check_grouped : List Str → List Select → Outcome (Unit {0})
  check_grouped groups [] = ok tt
  check_grouped groups (s ∷ ss) =
      let rest = check_grouped groups ss in
      if not (is_aggregate s.aggregate) && not (lo.contains groups s.field)
      then fail (new validation (str "is required in the group_by clause when aggregating"))
      else rest

  unfoldable pub validate : Query → Outcome (Unit {0})
  validate q = do
    invalid marshal (struct_valid q)
    if is_empty q.select
        then fail (new validation (str "query validation error: at least one select is required"))
        else check_selects q.select false >>= λ aggregates.
            if aggregates
            then check_grouped q.group_by q.select >> check_groups q.select q.group_by
            else ok tt

  abbrev pub has_aggregate : List Select → Bool
  has_aggregate [] = false
  has_aggregate (s ∷ ss) = is_aggregate s.aggregate || has_aggregate ss

  -- What a query that is valid has.
  pub record Validated (q : Query) : Type 0 where
    pub selects : is_empty q.select ≡ false
    pub named : All (λ s. is_empty s.field ≡ false) q.select
    pub grouped :
        has_aggregate q.select ≡ true
        → All (λ s. is_aggregate s.aggregate ≡ false → elem q.group_by s.field ≡ true) q.select
    pub selected :
        has_aggregate q.select ≡ true → All (λ g. selects_field q.select g ≡ true) q.group_by

  check_selects-ok :
      (ss : List Select) (found b : Bool)
      → check_selects ss found ≡ ok b
      → All (λ s. is_empty s.field ≡ false) ss × (b ≡ (found || has_aggregate ss))
  unfolding check_selects
  check_selects-ok [] found b h = (tt, ground arith)
  check_selects-ok (s ∷ ss) found b h = elim (Bool-cases (is_empty s.field)) [
    | inl e ↦ absurd (failed (rw e at h))
    | inr e ↦
        let (a, i) = check_selects-ok ss (found || is_aggregate s.aggregate) b (rw e at h) in
        ((e, a), ground arith)
  ]
    where
      failed :
          ◌≡◌ {A = Outcome Bool}
            (fail (new validation (str "empty required field: 'select.field'")))
            (ok b)
          → ⊥
      failed q = cc

  check_groups-ok :
      (ss : List Select) (gs : List Str)
      → check_groups ss gs ≡ ok tt
      → All (λ g. selects_field ss g ≡ true) gs
  unfolding check_groups
  check_groups-ok ss [] h = tt
  check_groups-ok ss (g ∷ gs) h = elim (Bool-cases (selects_field ss g)) [
    | inl e ↦ (e, check_groups-ok ss gs (rw e at h))
    | inr e ↦ absurd (failed (rw e at h))
  ]
    where
      failed :
          ◌≡◌ {A = Outcome (Unit {0})}
            (fail (new validation (str "is required in the select clause when aggregating")))
            (ok tt)
          → ⊥
      failed q = cc

  check_grouped-ok :
      (gs : List Str) (ss : List Select)
      → check_grouped gs ss ≡ ok tt
      → All (λ s. is_aggregate s.aggregate ≡ false → elem gs s.field ≡ true) ss
  unfolding check_grouped
  check_grouped-ok gs [] h = tt
  check_grouped-ok gs (s ∷ ss) h =
      elim (Bool-cases (not (is_aggregate s.aggregate) && not (lo.contains gs s.field))) [
        | inl e ↦ absurd (failed (rw e at h))
        | inr e ↦ (
          (λ n. sym (lo.contains_lem gs s.field) ∙ found n e),
          check_grouped-ok gs ss (rw e at h),
        )
      ]
    where
      failed :
          ◌≡◌ {A = Outcome (Unit {0})}
            (fail (new validation (str "is required in the group_by clause when aggregating")))
            (ok tt)
          → ⊥
      failed q = cc

      found :
          is_aggregate s.aggregate ≡ false
          → (not (is_aggregate s.aggregate) && not (lo.contains gs s.field)) ≡ false
          → lo.contains gs s.field ≡ true
      found n e = ground arith

  -- A query that is found valid has a select and no select without a field; and if it aggregates,
  -- each select without a function is grouped by, and each group is selected.
  pub validate-Validated : (q : Query) → validate q ≡ ok tt → Validated q
  unfolding validate
  validate-Validated q h =
      let (_, h1, r1) = >>=-eq-ok (invalid marshal (struct_valid q)) _ h in
      elim (Bool-cases (is_empty q.select)) [
        | inl e ↦ absurd (failed (simp e at r1))
        | inr e ↦
            let (b, h2, r2) = >>=-eq-ok (check_selects q.select false) _ (simp e at r1) in
            let (n, i) = check_selects-ok q.select false b h2 in
            record {
              selects = e;
              named = n;
              grouped = λ a. (checked b (i ∙ a) r2).0;
              selected = λ a. (checked b (i ∙ a) r2).1;
            }
      ]
    where
      failed :
          ◌≡◌ {A = Outcome (Unit {0})}
            (fail (new validation (str "query validation error: at least one select is required")))
            (ok tt)
          → ⊥
      failed x = cc

      checked :
          (b : Bool)
          → b ≡ true
          → (if b
              then check_grouped q.group_by q.select >> check_groups q.select q.group_by
              else ok tt)
            ≡ ok tt
          → All (λ s. is_aggregate s.aggregate ≡ false → elem q.group_by s.field ≡ true) q.select
            × All (λ g. selects_field q.select g ≡ true) q.group_by
      checked b t r =
          let (_, h3, r3) = >>=-eq-ok (check_grouped q.group_by q.select) _ (rw t at r) in
          (check_grouped-ok q.group_by q.select h3, check_groups-ok q.select q.group_by r3)
