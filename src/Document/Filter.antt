-- ===== src/Document/Filter.antt =====
-- What a list of where clauses filters.
use gokvkit.Prelude.{
  Str, Bool, true, false, not, ◌≡◌, ◌≢◌, ◌↔◌, refl, List, [], ◌∷◌, arith, All, inl, inr, ◌⊎◌,
}
use gokvkit.Errors.Outcome.{Outcome, ok, fail, panic, ◌>>=◌}
use gokvkit.Model.Value.{Value, text, strings, is_null_text}
use gokvkit.Model.Query.{Where, WhereOp, contains, contains_any, eq, neq}
use gokvkit.Vendor.Lo.{Lo}
use gokvkit.Vendor.Cast.{Cast}
use gokvkit.Vendor.Json.{Json}
use gokvkit.Document.{
  Verdict, pass, reject, accept, after, clause, where_clauses, eq_clause, neq_clause, in_clause,
  contains_clause, get,
}

module _ (lo : Lo) (json : Json) (cast : Cast) (matches : Str → Str → Bool) where
  contains_clause-ne-accept : (x v : Value) → contains_clause lo json cast matches x v ≢ accept
  unfolding contains_clause
  contains_clause-ne-accept (strings xs) v e = ground arith
  contains_clause-ne-accept (text s) v e = ground arith
  contains_clause-ne-accept _ v e = ground arith

  -- A clause that is no `containsAny` never ends the filter early with success.
  clause-ne-accept :
      (op : WhereOp) (d : json.Doc) (w : Where)
      → op ≢ contains_any
      → clause lo json cast matches op d w ≢ ok accept
  unfolding clause eq_clause neq_clause in_clause
  clause-ne-accept contains_any d w h e = absurd (h refl)
  clause-ne-accept contains d w h e =
      ground (arith, contains_clause-ne-accept (get json d w.field) w.value)
  clause-ne-accept eq d w h e = ground arith
  clause-ne-accept _ d w h e = ground arith

  -- Without a `containsAny` clause, a document passes exactly if it passes each clause.
  pub where_clauses-conjunction :
      (ws : List Where) (d : json.Doc)
      → All (λ w. w.op ≢ contains_any) ws
      → (where_clauses lo json cast matches ws d ≡ ok true)
        ↔ All (λ w. clause lo json cast matches w.op d w ≡ ok pass) ws
  unfolding where_clauses
  where_clauses-conjunction [] d h = ((λ _. tt), (λ _. refl))
  where_clauses-conjunction (w ∷ ws) d h =
      step (clause lo json cast matches w.op d w) refl (where_clauses-conjunction ws d h.1)
        (clause-ne-accept w.op d w h.0)
    where
      step :
          (v : Outcome Verdict)
          → clause lo json cast matches w.op d w ≡ v
          → ((where_clauses lo json cast matches ws d ≡ ok true)
              ↔ All (λ w. clause lo json cast matches w.op d w ≡ ok pass) ws)
          → clause lo json cast matches w.op d w ≢ ok accept
          → ((clause lo json cast matches w.op d w >>= λ v.
                after lo json cast matches v (where_clauses lo json cast matches ws d))
              ≡ ok true)
            ↔ ((clause lo json cast matches w.op d w ≡ ok pass)
                × All (λ w. clause lo json cast matches w.op d w ≡ ok pass) ws)
      step (ok pass) e ih na = rw e ((λ h. (refl, ih.0 h)), (λ p. ih.1 p.1))
      step (ok reject) e ih na = rw e ((λ h. cc), (λ p. cc))
      step (ok accept) e ih na = absurd (na e)
      step (fail x) e ih na = rw e ((λ h. cc), (λ p. cc))
      step panic e ih na = rw e ((λ h. cc), (λ p. cc))

  -- A `containsAny` clause passes or ends the filter with success.
  contains_any-cases :
      (d : json.Doc) (w : Where)
      → (clause lo json cast matches contains_any d w ≡ ok pass)
        ⊎ (clause lo json cast matches contains_any d w ≡ ok accept)
  unfolding clause
  contains_any-cases d w = ground arith

  -- Clauses that are all `containsAny` accept every document, whether or not it holds any of the
  -- values that they name.
  pub where_clauses-contains_any :
      (ws : List Where) (d : json.Doc)
      → All (λ w. w.op ≡ contains_any) ws
      → where_clauses lo json cast matches ws d ≡ ok true
  unfolding where_clauses
  where_clauses-contains_any [] d h = refl
  where_clauses-contains_any (w ∷ ws) d h = simp h.0 (elim (contains_any-cases d w) [
    | inl e ↦ rw e (where_clauses-contains_any ws d h.1)
    | inr e ↦ rw e refl
  ])

  -- Where the value is not the text "null", `eq` and `neq` with the same field and value decide the
  -- opposite.
  where_clauses-neq :
      (w : Where) (d : json.Doc) (b : Bool)
      → is_null_text w.value ≡ false
      → where_clauses lo json cast matches (record w { op = eq } ∷ []) d ≡ ok b
      → where_clauses lo json cast matches (record w { op = neq } ∷ []) d ≡ ok (not b)
  unfolding where_clauses clause eq_clause neq_clause
  where_clauses-neq w d b h e = ground arith
