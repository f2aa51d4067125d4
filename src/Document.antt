-- ===== src/Document.antt =====
-- document.go: reading and changing a JSON document, and the where clauses that filter documents.
pub mod Filter
pub mod Ops
mod Tests
use gokvkit.Prelude.{
  ℕ, Str, str, Bool, true, false, not, ◌&&◌, ◌||◌, ◌==◌, List, [], ◌∷◌, ◌++◌, is_empty, has_prefix,
  if◌then◌else◌, drop,
}
use gokvkit.Errors.{new, validation}
use gokvkit.Errors.Outcome.{Outcome, ok, fail, ◌>>=◌, ◌>>◌}
use gokvkit.Model.Value.{Value, null, text, strings, is_null, is_null_text, any_eq}
use gokvkit.Model.Query.{
  Where, WhereOp, contains, eq, gt, gte, in_list, contains_all, contains_any, neq, lt, lte, regex,
}
use gokvkit.Vendor.Lo.{Lo}
use gokvkit.Vendor.Cast.{Cast}
use gokvkit.Vendor.Json.{Json}

abbrev pub Values : Type 0
Values = List (Str × Value)

-- strings.Contains, strings.HasSuffix and strings.TrimPrefix
unfoldable pub contains_text : Str → Str → Bool
contains_text [] t = is_empty t
contains_text (c ∷ s) t = has_prefix (c ∷ s) t || contains_text s t

unfoldable pub has_suffix : Str → Str → Bool
has_suffix [] t = is_empty t
has_suffix (c ∷ s) t = ((c ∷ s) == t) || has_suffix s t

abbrev pub self_ref_prefix : Str
self_ref_prefix = str "$"

unfoldable pub trim_self : Str → Str
trim_self s = if has_prefix s self_ref_prefix then drop 1 s else s

module _ (json : Json) where
  open json use {Doc}

  unfoldable pub valid : Doc → Bool
  valid d = json.valid_bytes (json.raw d) && not (json.is_array d)

  unfoldable pub new_document_from_bytes : Str → Outcome Doc
  unfolding valid
  new_document_from_bytes bytes =
      if not (json.valid_bytes bytes)
      then fail (new validation (str "invalid json"))
      else if not (valid (json.parse bytes))
      then fail (new validation (str "invalid document"))
      else ok (json.parse bytes)

  unfoldable pub get : Doc → Str → Value
  get d field = if json.exists d field then json.value_at d field else null

  -- SetAll, in the order in which the map is visited
  unfoldable pub set_all : Values → Doc → Outcome Doc
  set_all [] d = ok d
  set_all ((k, v) ∷ vs) d = do d' ← json.set k v d; set_all vs d'

  unfoldable pub del_all : List Str → Doc → Outcome Doc
  del_all [] d = ok d
  del_all (f ∷ fs) d = do d' ← json.delete f d; del_all fs d'

  -- Overwrite starts from an empty document.
  unfoldable pub overwrite : Values → Doc → Outcome Doc
  unfolding set_all
  overwrite values d = set_all values json.empty

  unfoldable pub merge : Doc → Doc → Outcome Doc
  unfolding valid set_all
  merge with_doc d =
      if not (valid with_doc)
      then fail (new validation (str "invalid document"))
      else (json.flatten (json.value with_doc) >>= λ values. set_all values d)

  set_aliased : Str → Values → Doc → Outcome Doc
  set_aliased alias [] d = ok d
  set_aliased alias ((k, v) ∷ vs) d = do
    d' ← json.set (alias ++ str "." ++ k) v d
    set_aliased alias vs d'

  unfoldable pub merge_join : Doc → Str → Doc → Outcome Doc
  unfolding valid set_aliased
  merge_join with_doc alias d =
      if not (valid with_doc)
      then fail (new validation (str "invalid document"))
      else (json.flatten (json.value with_doc) >>= λ values. set_aliased alias values d)

-- What a clause of `Where` comes to: go on, `return false`, or `return true`.
pub data Verdict : Type 0 where
  pass reject accept : Verdict

abbrev pub reject_if : Bool → Verdict
reject_if b = if b then reject else pass

-- `matches` is regexp.Match, with an error read as no match.
module _ (lo : Lo) (json : Json) (cast : Cast) (matches : Str → Str → Bool) where
  open json use {Doc}

  abbrev get_float : Doc → Str → ℕ
  get_float d f = cast.to_float64 (get json d f)

  -- Against the value of the clause, or of the field that it refers to.
  unfoldable pub operand : Doc → Value → Value
  unfolding trim_self
  operand d v =
      if has_prefix (cast.to_string v) self_ref_prefix
      then get json d (trim_self (cast.to_string v))
      else v

  -- `w.Value == "null" && x != nil` reads the other side: the referred field, or else w.Field.
  unfoldable pub null_side : Doc → Where → Value
  unfolding trim_self
  null_side d w =
      if has_prefix (cast.to_string w.value) self_ref_prefix
      then get json d (trim_self (cast.to_string w.value))
      else get json d w.field

  unfoldable pub eq_clause : Doc → Where → Outcome Verdict
  eq_clause d w = do
    same ← any_eq cast.float_eq (get json d w.field) (operand d w.value)
    ok (reject_if (not same || (is_null_text w.value && not (is_null (null_side d w)))))

  unfoldable pub neq_clause : Doc → Where → Outcome Verdict
  neq_clause d w = do
    same ← any_eq cast.float_eq (get json d w.field) (operand d w.value)
    ok (reject_if (same || (is_null_text w.value && is_null (null_side d w))))

  -- The loop over the elements does not stop at a match.
  any_element : Value → List Value → Bool → Outcome Bool
  any_element v [] found = ok found
  any_element v (e ∷ es) found = do
    same ← any_eq cast.float_eq e v
    any_element v es (same || found)

  unfoldable pub in_clause : Doc → Where → Outcome Verdict
  unfolding any_element
  in_clause d w = do
    found ← any_element (get json d w.field) (json.array_values w.value) false
    ok (reject_if (not found))

  unfoldable pub contains_clause : Value → Value → Verdict
  unfolding contains_text
  contains_clause (strings xs) v = reject_if (not (lo.contains xs (cast.to_string v)))
  contains_clause (text s) v = reject_if (not (contains_text s (cast.to_string v)))
  contains_clause x v = reject_if (not (contains_text (cast.json_string x) (cast.json_string v)))

  unfoldable pub all_contained : List Str → List Str → Bool
  all_contained xs [] = true
  all_contained xs (v ∷ vs) = lo.contains xs v && all_contained xs vs

  unfoldable pub some_contained : List Str → List Str → Bool
  some_contained xs [] = false
  some_contained xs (v ∷ vs) = lo.contains xs v || some_contained xs vs

  unfoldable pub clause : WhereOp → Doc → Where → Outcome Verdict
  clause eq d w = eq_clause d w
  clause neq d w = neq_clause d w
  clause lt d w =
      ok (reject_if (cast.float_le (cast.to_float64 (operand d w.value)) (get_float d w.field)))
  clause lte d w =
      ok (reject_if (cast.float_lt (cast.to_float64 (operand d w.value)) (get_float d w.field)))
  clause gt d w =
      ok (reject_if (cast.float_le (get_float d w.field) (cast.to_float64 (operand d w.value))))
  clause gte d w =
      ok (reject_if (cast.float_lt (get_float d w.field) (cast.to_float64 (operand d w.value))))
  clause in_list d w = in_clause d w
  clause contains d w = ok (contains_clause (get json d w.field) w.value)
  clause contains_all d w = ok (
      reject_if (
        not (
          all_contained (cast.to_string_slice (get json d w.field))
            (cast.to_string_slice w.value))))
  clause contains_any d w = ok (
      if some_contained (cast.to_string_slice (get json d w.field)) (cast.to_string_slice w.value)
      then accept
      else pass)
  clause WhereOp.has_prefix d w =
      ok (
        reject_if (not (has_prefix (cast.to_string (get json d w.field)) (cast.to_string w.value))))
  clause WhereOp.has_suffix d w =
      ok (
        reject_if (not (has_suffix (cast.to_string (get json d w.field)) (cast.to_string w.value))))
  clause regex d w =
      ok (reject_if (not (matches (cast.to_string w.value) (cast.to_string (get json d w.field)))))
  clause (WhereOp.other op) d w = fail (new validation (str "unsupported operator"))

  abbrev after : Verdict → Outcome Bool → Outcome Bool
  after pass rest = rest
  after reject rest = ok false
  after accept rest = ok true

  unfoldable pub where_clauses : List Where → Doc → Outcome Bool
  where_clauses [] d = ok true
  where_clauses (w ∷ ws) d = let rest = where_clauses ws d in clause w.op d w >>= λ v. after v rest
