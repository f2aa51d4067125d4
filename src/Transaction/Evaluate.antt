-- ===== src/Transaction/Evaluate.antt =====
-- evaluate of tx_util.go: the triggers of a collection, and the authorization of a command.
use gokvkit.Prelude.{Str, str, Bool, true, false, ◌||◌, List, [], ◌∷◌, ◌++◌, if◌then◌else◌}
use gokvkit.Errors.{new, forbidden}
use gokvkit.Errors.Exec.{Exec, pure, raise, gets, ◌>>=◌, ◌>>◌}
use gokvkit.Model.Query.{
  Action, EventType, create, set, update, delete, on_set, on_delete, on_update, on_create, Query,
}
use gokvkit.Model.Schema.{CollectionSchema, Trigger}
use gokvkit.Authorization.{Request, authorize_command}
use gokvkit.Transaction.{Libs, Txn, Context, on_vm}

-- `lo.Contains(trigger.Events, event)`, for the event of an action
abbrev same_event : EventType → EventType → Bool
same_event on_set on_set = true
same_event on_delete on_delete = true
same_event on_update on_update = true
same_event on_create on_create = true
same_event _ _ = false

abbrev has_event : EventType → List EventType → Bool
has_event e [] = false
has_event e (x ∷ xs) = same_event x e || has_event e xs

-- The cases of the switch: whether a trigger fires on an action.
abbrev pub fires : Action → List EventType → Bool
fires delete events = has_event on_delete events
fires set events = has_event on_set events
fires create events = has_event on_create events
fires update events = has_event on_update events
fires _ events = false

-- What no rule reads: the query of a request that is not one.
abbrev pub no_query : Query
no_query = record {
  select = [];
  join = [];
  wheres = [];
  group_by = [];
  page = 0;
  limit = 0;
  order_by = [];
  having = [];
}

module _ (L : Libs) (global_scripts : Str) where
  open L use {lo, js, json, marshal}
  open json use {Doc}

  abbrev pub request : Context → CollectionSchema → Query → Request js.Object
  request ctx c q = record {
    is_internal = ctx.is_internal;
    is_indexing = ctx.is_indexing;
    ctx = L.ctx_object ctx;
    schema = L.schema_object c;
    meta = L.meta_object ctx;
    query = L.query_object q;
    filter = L.query_object q;
  }

  unfoldable pub run_triggers : Action → List Trigger → Exec (Txn L) (Unit {0})
  run_triggers action [] = pure tt
  run_triggers action (t ∷ ts) =
      let rest = run_triggers action ts in
      if fires action t.events
      then (on_vm L (js.run_string (global_scripts ++ t.script)) >> rest)
      else rest

  -- The last part: a context that is not internal has to be granted the action.
  unfoldable pub check_authorized : Context → CollectionSchema → Action → Exec (Txn L) (Unit {0})
  check_authorized ctx c action = if ctx.is_internal then pure tt else do
    pass ←
        on_vm L (authorize_command lo js marshal global_scripts (request ctx c no_query) c action)
    if pass then pure tt else raise (new forbidden (str "not authorized"))

  -- The scripts have the document itself, so the command goes on with what they have made of it.
  unfoldable pub evaluate : Context → CollectionSchema → Action → Doc → Exec (Txn L) Doc
  evaluate ctx c action d = do
    on_vm L (js.set (str "ctx") (L.ctx_object ctx))
    on_vm L (js.set (str "doc") (L.doc_object d))
    on_vm L (js.set (str "meta") (L.meta_object ctx))
    on_vm L (js.set (str "schema") (L.schema_object c))
    run_triggers action c.triggers
    check_authorized ctx c action
    gets (λ t. L.shared_doc t.vm d)
