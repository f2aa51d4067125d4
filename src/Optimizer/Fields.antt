-- ===== src/Optimizer/Fields.antt =====
-- The values and the fields of a choice: what a scan looks up for a field, and where the field is from.
use gokvkit.Prelude.{
  ◌≡◌, refl, ap, ◌∙◌, Str, Bool, true, false, ◌&&◌, ◌==◌, ==_iff, List, [], ◌∷◌, Option, none, some,
  lookup, put, lookup-put, if◌then◌else◌, All, All-append, Bool-cases, inl, inr,
}
use gokvkit.Model.Value.{Value}
use gokvkit.Model.Query.{Where, WhereOp, gt, gte, lt, lte, is_eq}
use gokvkit.Vendor.Lo.{elem}
use gokvkit.Optimizer.{
  Hits, Values, seek_op, match_field, match_fields, clause_values, matched_values_loop,
  get_matched_field_values,
}

abbrev or_else : Option Value → Option Value → Option Value
or_else none o = o
or_else (some v) o = some v

-- The value of the last clause on a field
abbrev pub last_value : Str → List Where → Option Value
last_value f [] = none
last_value f (w ∷ ws) = or_else (last_value f ws) (if w.field == f then some w.value else none)

or_else_assoc : (a b c : Option Value) → or_else a (or_else b c) ≡ or_else (or_else a b) c
or_else_assoc none b c = refl
or_else_assoc (some v) b c = refl

lookup-clause_values :
    (f : Str) (ws : List Where) (m : Values)
    → lookup f (clause_values f ws m) ≡ or_else (last_value f ws) (lookup f m)
unfolding clause_values
lookup-clause_values f [] m = refl
lookup-clause_values f (w ∷ ws) m = elim (Bool-cases (w.field == f)) [
  | inl e ↦ rw e (
      lookup-clause_values f ws (put w.field w.value m)
      ∙ ap (or_else (last_value f ws)) (lookup-put w.field f w.value m ∙ rw e refl)
      ∙ or_else_assoc (last_value f ws) (some w.value) (lookup f m))
  | inr e ↦ rw e (lookup-clause_values f ws m ∙ or_else_assoc (last_value f ws) none (lookup f m))
]

lookup-other_clauses :
    (f k : Str) (ws : List Where) (m : Values)
    → (f == k) ≡ false
    → lookup k (clause_values f ws m) ≡ lookup k m
unfolding clause_values
lookup-other_clauses f k [] m h = refl
lookup-other_clauses f k (w ∷ ws) m h = elim (Bool-cases (w.field == f)) [
  | inl e ↦ rw e (
      lookup-other_clauses f k ws (put w.field w.value m) h
      ∙ lookup-put w.field k w.value m
      ∙ ap (λ g. if g == k then some w.value else lookup k m) ((==_iff w.field f).0 e)
      ∙ rw h refl)
  | inr e ↦ rw e (lookup-other_clauses f k ws m h)
]

once_more :
    (b : Bool) (l o : Option Value) → or_else (if b then l else none) (or_else l o) ≡ or_else l o
once_more true none o = refl
once_more true (some v) o = refl
once_more false l o = refl

lookup-values_loop :
    (fs : List Str) (ws : List Where) (m : Values) (k : Str)
    → lookup k (matched_values_loop fs ws m)
      ≡ or_else (if elem fs k then last_value k ws else none) (lookup k m)
unfolding matched_values_loop
lookup-values_loop [] ws m k = refl
lookup-values_loop (f ∷ fs) ws m k = elim (Bool-cases (f == k)) [
  | inl e ↦ rw e (
      lookup-values_loop fs ws (clause_values f ws m) k
      ∙ ap (or_else (if elem fs k then last_value k ws else none)) (
          ap (λ g. lookup k (clause_values g ws m)) ((==_iff f k).0 e)
          ∙ lookup-clause_values k ws m)
      ∙ once_more (elem fs k) (last_value k ws) (lookup k m))
  | inr e ↦ rw e (
      lookup-values_loop fs ws (clause_values f ws m) k
      ∙ ap (or_else (if elem fs k then last_value k ws else none))
          (lookup-other_clauses f k ws m e))
]

or_else-none : (o : Option Value) → or_else o none ≡ o
or_else-none none = refl
or_else-none (some v) = refl

-- For each field there is the value of the last clause on it, and for other keys there is none.
pub lookup-get_matched_field_values :
    (fs : List Str) (ws : List Where) (k : Str)
    → lookup k (get_matched_field_values fs ws) ≡ (if elem fs k then last_value k ws else none)
unfolding get_matched_field_values lookup
lookup-get_matched_field_values fs ws k = lookup-values_loop fs ws [] k ∙ or_else-none _

-- Fields that are all among those of an index
pub record Inside (P : Str → Type 0) (h : Hits) : Type 0 where
  pub matched : All P h.matched
  pub seek : All P h.seek

module _ (P : Str → Type 0) where
  seek_op-Inside :
      (f : Str) (op : WhereOp) (h : Hits) → P f → Inside P h → Inside P (seek_op f op h)
  unfolding seek_op
  seek_op-Inside f gt h p i = record {
    matched = i.matched;
    seek = All-append P h.seek (f ∷ []) i.seek (p, tt);
  }
  seek_op-Inside f gte h p i = record {
    matched = i.matched;
    seek = All-append P h.seek (f ∷ []) i.seek (p, tt);
  }
  seek_op-Inside f lt h p i = record {
    matched = i.matched;
    seek = All-append P h.seek (f ∷ []) i.seek (p, tt);
  }
  seek_op-Inside f lte h p i = record {
    matched = i.matched;
    seek = All-append P h.seek (f ∷ []) i.seek (p, tt);
  }
  seek_op-Inside f _ h p i = i

  match_field-Inside :
      (f : Str) (last : Bool) (w : Where) (h : Hits)
      → P f
      → Inside P h
      → Inside P (match_field f last w h)
  unfolding match_field
  match_field-Inside f last w h p i = elim (Bool-cases ((f == w.field) && is_eq w.op)) [
    | inl e ↦
        rw e (record { matched = All-append P h.matched (f ∷ []) i.matched (p, tt); seek = i.seek })
    | inr e ↦ elim (Bool-cases ((f == w.field) && last)) [
      | inl g ↦ rw (e, g) (seek_op-Inside f w.op h p i)
      | inr g ↦ rw (e, g) i
    ]
  ]

  pub match_fields-Inside :
      (fs : List Str) (ws : List Where) (h : Hits)
      → All P fs
      → Inside P h
      → Inside P (match_fields fs ws h)
  unfolding match_fields
  match_fields-Inside [] ws h p i = i
  match_fields-Inside (f ∷ fs) [] h p i = i
  match_fields-Inside (f ∷ fs) (w ∷ ws) h p i =
      match_fields-Inside fs ws (match_field f _ w h) p.1 (match_field-Inside f _ w h p.0 i)
