-- ===== src/Optimizer/Clauses.antt =====
-- The clauses that stand behind the fields of an index that the loop of Optimize picks.
use gokvkit.Prelude.{
  ◌≡◌, refl, sym, Str, Bool, true, false, ◌==◌, ==_iff, List, [], ◌∷◌, ◌++◌, All, Any, All-append,
  inl, inr, Bool-cases,
}
use gokvkit.Model.Query.{Where, WhereOp, gt, gte, lt, lte, is_eq}
use gokvkit.Optimizer.{Hits, seek_op, match_field, match_fields}

-- An upward range is open above, a downward one below.
abbrev pub is_range : Bool → WhereOp → Bool
is_range false gt = true
is_range false gte = true
is_range true lt = true
is_range true lte = true
is_range _ _ = false

-- Some clause tests the field for equality, or by a range in the scan's direction.
abbrev pub EqClause : List Where → Str → Type 0
EqClause ws f = Any (λ w. (w.field ≡ f) × (is_eq w.op ≡ true)) ws

abbrev pub RangeClause : Bool → List Where → Str → Type 0
RangeClause reverse ws f = Any (λ w. (w.field ≡ f) × (is_range reverse w.op ≡ true)) ws

pub record FitsHits (ws : List Where) (h : Hits) : Type 0 where
  pub matched : All (EqClause ws) h.matched
  pub seek : All (RangeClause h.reverse ws) h.seek

abbrev hits : List Str → Hits
hits m = record { matched = m; seek = []; reverse = false }

-- `all` are the clauses of the whole query, of which those of the loop are a part.
module _ (all : List Where) where
  hits_fit : (m : List Str) → All (EqClause all) m → FitsHits all (hits m)
  hits_fit m v = record { matched = v; seek = tt }

  seek_fits :
      (f : Str) (op : WhereOp) (m : List Str)
      → ((r : Bool) → is_range r op ≡ true → RangeClause r all f)
      → All (EqClause all) m
      → FitsHits all (seek_op f op (hits m))
  unfolding seek_op
  seek_fits f gt m at v = record { matched = v; seek = (at false refl, tt) }
  seek_fits f gte m at v = record { matched = v; seek = (at false refl, tt) }
  seek_fits f lt m at v = record { matched = v; seek = (at true refl, tt) }
  seek_fits f lte m at v = record { matched = v; seek = (at true refl, tt) }
  seek_fits f _ m at v = hits_fit m v

  append_fits :
      (f : Str) (m : List Str)
      → EqClause all f
      → All (EqClause all) m
      → All (EqClause all) (m ++ f ∷ [])
  append_fits f m p v = All-append (EqClause all) m (f ∷ []) v (p, tt)

  -- The body of the loop at the last field, and before it.
  last_fits :
      (f : Str) (w : Where) (m : List Str)
      → ((P : Where → Type 0) → P w → Any P all)
      → All (EqClause all) m
      → FitsHits all (match_field f true w (hits m))
  unfolding match_field
  last_fits f w m at v = elim (Bool-cases (f == w.field)) [
    | inl same ↦ elim (Bool-cases (is_eq w.op)) [
      | inl e ↦
          rw (same, e)
            (hits_fit (m ++ f ∷ []) (append_fits f m (at _ (sym ((==_iff f w.field).0 same), e)) v))
      | inr n ↦
          rw (same, n) (seek_fits f w.op m (λ r p. at _ (sym ((==_iff f w.field).0 same), p)) v)
    ]
    | inr other ↦ rw other (hits_fit m v)
  ]

  abbrev Early : Str → Where → List Str → Type 0
  Early f w m = (n : List Str) × (match_field f false w (hits m) ≡ hits n) × All (EqClause all) n

  fits-Early :
      (f : Str) (w : Where) (m : List Str)
      → ((P : Where → Type 0) → P w → Any P all)
      → All (EqClause all) m
      → Early f w m
  unfolding match_field
  fits-Early f w m at v = elim (Bool-cases (f == w.field)) [
    | inl same ↦ elim (Bool-cases (is_eq w.op)) [
      | inl e ↦
          (m ++ f ∷ [], rw (same, e), append_fits f m (at _ (sym ((==_iff f w.field).0 same), e)) v)
      | inr n ↦ (m, rw (same, n), v)
    ]
    | inr other ↦ (m, rw other, v)
  ]

  pub match_fields_fit :
      (fs : List Str) (ws : List Where) (m : List Str)
      → ((P : Where → Type 0) → Any P ws → Any P all)
      → All (EqClause all) m
      → FitsHits all (match_fields fs ws (hits m))
  unfolding match_fields
  match_fields_fit [] ws m at v = hits_fit m v
  match_fields_fit (f ∷ fs) [] m at v = hits_fit m v
  match_fields_fit (f ∷ []) (w ∷ ws) m at v = last_fits f w m (λ P p. at P (inl p)) v
  match_fields_fit (f ∷ g ∷ fs) (w ∷ ws) m at v =
      let (n, e, v') = fits-Early f w m (λ P p. at P (inl p)) v in
      rw e (match_fields_fit (g ∷ fs) ws n (λ P p. at P (inr p)) v')
