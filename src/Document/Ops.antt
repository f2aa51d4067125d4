-- ===== src/Document/Ops.antt =====
-- The field operations of document.go: Diff, ApplyOps and RevertOps.
use gokvkit.Prelude.{Str, str, not, List, [], ◌∷◌, ◌++◌, ◌==◌, Option, none, some, if◌then◌else◌}
use gokvkit.Errors.{new, validation}
use gokvkit.Errors.Outcome.{Outcome, ok, fail, ◌>>=◌}
use gokvkit.Model.Value.{null, is_null}
use gokvkit.Model.Query.{JsonFieldOp, JsonOp, remove, add, replace}
use gokvkit.Vendor.Json.{Json}
use gokvkit.Document.{get}

module _ (json : Json) where
  open json use {Doc}

  -- The loop over the paths of the old document, and the loop over those of the new one.
  unfoldable pub changed_ops : Doc → Doc → List Str → List JsonFieldOp
  changed_ops after before [] = []
  changed_ops after before (p ∷ ps) =
      let rest = changed_ops after before ps in
      if not (json.exists after p)
      then record { path = p; op = remove; value = null; before_value = get json before p } ∷ rest
      else if not (json.deep_equal (get json after p) (get json before p))
      then record {
        path = p;
        op = replace;
        value = get json after p;
        before_value = get json before p;
      }
        ∷ rest
      else rest

  unfoldable pub added_ops : Doc → Doc → List Str → List JsonFieldOp
  added_ops after before [] = []
  added_ops after before (p ∷ ps) =
      let rest = added_ops after before ps in
      if not (json.exists before p)
      then record { path = p; op = add; value = get json after p; before_value = null } ∷ rest
      else rest

  unfoldable pub ops_between : Doc → Doc → List JsonFieldOp
  ops_between after before =
      changed_ops after before (json.field_paths before)
      ++ added_ops after before (json.field_paths after)

  -- `after.Diff(before)`, where `before` may be nil
  unfoldable pub diff : Doc → Option Doc → List JsonFieldOp
  diff after none = ops_between after json.empty
  diff after (some before) =
      if json.raw before == json.raw after then [] else ops_between after before

  unfoldable pub apply_op : JsonFieldOp → JsonOp → Doc → Outcome Doc
  apply_op o remove d = json.delete o.path d
  apply_op o replace d = json.set o.path o.value d
  apply_op o add d = json.set o.path o.value d
  apply_op o (JsonOp.other s) d = fail (new validation (str "unsupported op"))

  unfoldable pub apply_ops : List JsonFieldOp → Doc → Outcome Doc
  apply_ops [] d = ok d
  apply_ops (o ∷ os) d = do d' ← apply_op o o.op d; apply_ops os d'

  -- An operation with a nil old value is passed over.
  unfoldable pub revert_ops : List JsonFieldOp → Doc → Outcome Doc
  revert_ops [] d = ok d
  revert_ops (o ∷ os) d = do
    d' ← if is_null o.before_value then ok d else json.set o.path o.before_value d
    revert_ops os d'
