-- ===== src/Configuration/Indexes.antt =====
-- What the difference of two maps of indexes says.
use gokvkit.Prelude.{
  ◌≡◌, refl, ap, Str, true, not, ◌&&◌, ◌||◌, ◌==◌, ==_iff, ==_refl, List, [], ◌∷◌, All, Bool-cases,
  inl, inr, arith,
}
use gokvkit.Model.Schema.{Index}
use gokvkit.Vendor.Lo.{elem}
use gokvkit.Configuration.{has_key, missing_in, same_fields, updated_in, get_index_diff}

-- Each index is in the map under its name.
abbrev pub IsNamed : List (Str × Index) → Type 0
IsNamed m = All (λ (e : Str × Index). e.0 ≡ e.1.name) m

abbrev pub names : List Index → List Str
names [] = []
names (i ∷ is) = i.name ∷ names is

elem-missing_in :
    (other m : List (Str × Index)) (k : Str)
    → IsNamed m
    → elem (names (missing_in other m)) k ≡ (has_key k m && not (has_key k other))
unfolding missing_in has_key
elem-missing_in other [] k h = refl
elem-missing_in other ((j, i) ∷ m) k (e, h) =
    let ih : elem (names (missing_in other m)) k ≡ (has_key k m && not (has_key k other)) =
      elem-missing_in other m k h in
    rw e (elim (Bool-cases (i.name == k)) [
      | inl s ↦
          let same : has_key i.name other ≡ has_key k other =
            ap (λ n. has_key n other) ((==_iff i.name k).0 s) in
          elim (Bool-cases (has_key i.name other)) [
            | inl p ↦ rw p (ground arith)
            | inr p ↦ rw p (ground arith)
          ]
      | inr s ↦ elim (Bool-cases (has_key i.name other)) [
        | inl p ↦ rw p (ground arith)
        | inr p ↦ rw p (ground arith)
      ]
    ])

same_fields_refl : (fs : List Str) → same_fields fs fs ≡ true
unfolding same_fields
same_fields_refl [] = refl
same_fields_refl (f ∷ fs) = rw (==_refl f) (same_fields_refl fs)

pub updated_in-nil : (after m : List (Str × Index)) → updated_in after m ≡ []
unfolding updated_in
updated_in-nil after [] = refl
updated_in-nil after ((k, i) ∷ m) =
    rw (updated_in-nil after m, same_fields_refl i.fields)
      (elim (Bool-cases (has_key i.name after)) [ inl e ↦ rw e refl | inr e ↦ rw e refl ])

-- Where each index is in its map under its name: a name is among the later indexes exactly if it was
-- among the earlier ones and is not removed, or is added; and no index is ever found to be updated.
pub get_index_diff-applied :
    (after before : List (Str × Index))
    → IsNamed after
    → IsNamed before
    → ((k : Str)
        → has_key k after ≡ (
            (has_key k before && not (elem (names (get_index_diff after before).to_remove) k))
            || elem (names (get_index_diff after before).to_add) k))
      × ((get_index_diff after before).to_update ≡ [])
unfolding get_index_diff
get_index_diff-applied after before ha hb = (
  (λ k. rw (elem-missing_in after before k hb, elem-missing_in before after k ha) (ground arith)),
  updated_in-nil after before,
)
