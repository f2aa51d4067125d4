-- ===== src/Optimizer.antt =====
-- optimizer.go: the choice of the index that a query scans.
pub mod Fields
pub mod Clauses
pub mod Sound
pub mod Best
mod Tests
use gokvkit.Prelude.{
  ℕ, ◌+◌, Str, Bool, true, false, ◌&&◌, ◌==◌, List, [], ◌∷◌, ◌++◌, length, is_empty, leb, ltb, put,
  if◌then◌else◌, str,
}
use gokvkit.Errors.{internal, forbidden, new}
use gokvkit.Errors.Outcome.{Outcome, ok, fail}
use gokvkit.Model.Value.{Value}
use gokvkit.Model.Query.{Where, WhereOp, gt, gte, lt, lte, is_eq}
use gokvkit.Model.Schema.{Index, zero_index, CollectionSchema, primary_key}
use gokvkit.Vendor.Lo.{Lo}

abbrev pub Values : Type 0
Values = List (Str × Value)

pub record Explain : Type 0 where
  pub collection : Str
  pub index : Index
  pub matched_fields : List Str
  pub matched_values : Values
  pub seek_fields : List Str
  pub seek_values : Values
  pub reverse : Bool

unfoldable pub default_explain : CollectionSchema → Explain
default_explain c = record {
  collection = c.collection;
  index = c.primary_index;
  matched_fields = [];
  matched_values = [];
  seek_fields = [];
  seek_values = [];
  reverse = false;
}

-- The inner loop of getMatchedFieldValues: the clauses of one field.
unfoldable pub clause_values : Str → List Where → Values → Values
clause_values f [] m = m
clause_values f (w ∷ ws) m = clause_values f ws (if w.field == f then put w.field w.value m else m)

unfoldable pub matched_values_loop : List Str → List Where → Values → Values
matched_values_loop [] wheres m = m
matched_values_loop (f ∷ fs) wheres m = matched_values_loop fs wheres (clause_values f wheres m)

unfoldable pub get_matched_field_values : List Str → List Where → Values
unfolding clause_values matched_values_loop
get_matched_field_values fields wheres = matched_values_loop fields wheres []

-- The variables of the loop over the fields of one index.
pub record Hits : Type 0 where
  pub matched : List Str
  pub seek : List Str
  pub reverse : Bool

abbrev pub no_hits : Hits
no_hits = record { matched = []; seek = []; reverse = false }

-- The switch on the operator at the last field of the index.
unfoldable pub seek_op : Str → WhereOp → Hits → Hits
seek_op f gt h = record h { seek = h.seek ++ f ∷ [] }
seek_op f gte h = record h { seek = h.seek ++ f ∷ [] }
seek_op f lt h = record h { seek = h.seek ++ f ∷ []; reverse = true }
seek_op f lte h = record h { seek = h.seek ++ f ∷ []; reverse = true }
seek_op f _ h = h

-- The body of the loop at field `f`, where `last` says that it is the last of the index.
unfoldable pub match_field : Str → Bool → Where → Hits → Hits
unfolding seek_op
match_field f last w h =
    if (f == w.field) && is_eq w.op
    then record h { matched = h.matched ++ f ∷ [] }
    else if (f == w.field) && last
    then seek_op f w.op h
    else h

-- `for i, field := range index.Fields`, in step with `where[i]` as long as there is one.
unfoldable pub match_fields : List Str → List Where → Hits → Hits
match_fields [] ws h = h
match_fields (f ∷ fs) [] h = h
match_fields (f ∷ fs) (w ∷ ws) h = match_fields fs ws (match_field f (is_empty fs) w h)

abbrev pub score : Explain → ℕ
score e = length e.matched_fields + length e.seek_fields

abbrev pub nothing_chosen : CollectionSchema → Explain
nothing_chosen c = record {
  collection = c.collection;
  index = zero_index;
  matched_fields = [];
  matched_values = [];
  seek_fields = [];
  seek_values = [];
  reverse = false;
}

-- The end of Optimize, from the best choice.
unfoldable pub finish : CollectionSchema → List Where → Explain → Outcome Explain
unfolding default_explain
finish c wheres opt =
    if ltb 0 (score opt)
    then ok (record opt {
      matched_values = get_matched_field_values opt.matched_fields wheres;
      seek_values = get_matched_field_values opt.seek_fields wheres;
    })
    else if c.require_query_index
    then fail (new forbidden (str "index is required for query in collection"))
    else ok (default_explain c)

-- The choice of the primary index: its key is tested by the first clause.
unfoldable pub by_primary_key : CollectionSchema → List Where → Explain
by_primary_key c wheres = record {
  collection = [];
  index = c.primary_index;
  matched_fields = primary_key c ∷ [];
  matched_values = get_matched_field_values (primary_key c ∷ []) wheres;
  seek_fields = [];
  seek_values = [];
  reverse = false;
}

module _ (lo : Lo) where
  -- The loop's body for one index, over the best choice so far.
  unfoldable pub consider : List Where → Index → Explain → Explain
  unfolding match_fields
  consider wheres index opt =
      let h : Hits = match_fields index.fields wheres no_hits in
      let matched : List Str = lo.uniq h.matched in
      if is_empty index.fields
      then opt
      else if leb (score opt) (length matched + length h.seek)
      then record opt {
        index = index;
        matched_fields = matched;
        reverse = h.reverse;
        seek_fields = h.seek;
      }
      else opt

  unfoldable pub consider_all : List Where → List Index → Explain → Explain
  consider_all wheres [] opt = opt
  consider_all wheres (i ∷ is) opt = consider_all wheres is (consider wheres i opt)

  abbrev pub best : CollectionSchema → List Where → Explain
  best c wheres = consider_all wheres c.indexing (nothing_chosen c)

  unfoldable pub optimize_where : CollectionSchema → Str → List Where → Outcome Explain
  unfolding finish by_primary_key consider_all consider default_explain
  optimize_where c key [] = ok (default_explain c)
  optimize_where c key (w ∷ ws) =
      if (key == w.field) && is_eq w.op
      then ok (by_primary_key c (w ∷ ws))
      else finish c (w ∷ ws) (best c (w ∷ ws))

  unfoldable pub optimize_fields : CollectionSchema → List Str → List Where → Outcome Explain
  unfolding optimize_where
  optimize_fields c [] wheres = fail (new internal (str "zero configured indexes"))
  optimize_fields c (key ∷ keys) wheres =
      if is_empty c.indexing
      then fail (new internal (str "zero configured indexes"))
      else optimize_where c key wheres

  unfoldable pub optimize : CollectionSchema → List Where → Outcome Explain
  unfolding optimize_fields
  optimize c wheres = optimize_fields c c.primary_index.fields wheres
