-- ===== src/Authorization.antt =====
-- authorization.go: the rules of a collection, evaluated by the JavaScript machine. The globals that
-- are set before the scripts run are handed over as objects of the machine.
pub mod Decision
mod Tests
use gokvkit.Prelude.{
  Str, str, Bool, true, false, ◌&&◌, ◌||◌, ◌==◌, List, [], ◌∷◌, ◌++◌, is_empty, if◌then◌else◌,
}
use gokvkit.Errors.{Error, GoError, wrap_error}
use gokvkit.Errors.Outcome.{Outcome, ok, panic}
use gokvkit.Errors.Exec.{Exec, pure, lift, on_error, ◌>>=◌, ◌>>◌}
use gokvkit.Model.Query.{Action, action_name, query, configure, change_stream}
use gokvkit.Model.Schema.{AuthzRule, AuthzEffect, allow, deny, CollectionSchema}
use gokvkit.Vendor.Lo.{Lo}
use gokvkit.Vendor.Js.{Js}

abbrev pub is_effect : AuthzEffect → AuthzEffect → Bool
is_effect allow allow = true
is_effect deny deny = true
is_effect _ _ = false

-- `a.Action[0] == "*"`, on a list that is not empty
abbrev pub starts_any : List Str → Bool
starts_any [] = false
starts_any (a ∷ as_) = a == str "*"

-- `a.Action[0]` panics on a rule without actions.
abbrev pub has_empty_action : List AuthzRule → Bool
has_empty_action [] = false
has_empty_action (r ∷ rs) = is_empty r.actions || has_empty_action rs

-- What a request carries: whether its context is internal or indexing, and the machine's globals.
pub record Request (Object : Type 0) : Type 0 where
  pub is_internal : Bool
  pub is_indexing : Bool
  pub ctx : Object
  pub schema : Object
  pub meta : Object
  pub query : Object
  pub filter : Object

module _ (lo : Lo) (js : Js) (marshal : Error → Str) (global_scripts : Str) where
  open js use {Vm, Object}

  -- The predicate of the two calls of lo.Filter.
  unfoldable pub applies : AuthzEffect → Action → AuthzRule → Bool
  applies effect action r =
      if starts_any r.actions && is_effect effect r.effect
      then true
      else lo.contains r.actions (action_name action) && is_effect effect r.effect

  unfoldable pub filter_rules : AuthzEffect → Action → List AuthzRule → Outcome (List AuthzRule)
  unfolding applies
  filter_rules effect action rules =
      if has_empty_action rules
      then panic
      else ok (lo.filter AuthzRule rules (λ r i. applies effect action r))

  wrap_script_error : GoError → GoError
  wrap_script_error e = wrap_error marshal e 0 (str "failed to run authz match script")

  -- One round of the loops: run the rule's script.
  unfoldable pub run_match : AuthzRule → Exec Vm Bool
  unfolding wrap_script_error
  run_match r = do
    result ← on_error wrap_script_error (js.run_string (global_scripts ++ r.match_script))
    pure (js.to_boolean result)

  -- Both loops end at the first rule whose script is true.
  unfoldable pub some_match : List AuthzRule → Exec Vm Bool
  unfolding run_match
  some_match [] = pure false
  some_match (r ∷ rs) = do
    matched ← run_match r
    let rest = some_match rs
    if matched then pure true else rest

  unfoldable pub check_allow : List AuthzRule → Exec Vm Bool
  unfolding some_match
  check_allow allowed = if is_empty allowed then pure true else some_match allowed

  unfoldable pub after_deny : Action → List AuthzRule → Bool → Exec Vm Bool
  after_deny action rules refused =
      if refused
      then pure false
      else do allowed ← lift (filter_rules allow action rules); check_allow allowed

  unfoldable pub evaluate_rules : Action → List AuthzRule → Exec Vm Bool
  evaluate_rules action rules = do
    denied ← lift (filter_rules deny action rules)
    refused ← some_match denied
    after_deny action rules refused

  unfoldable pub authorize_command : Request Object → CollectionSchema → Action → Exec Vm Bool
  unfolding evaluate_rules
  authorize_command r c action =
      if r.is_internal
      then pure true
      else if is_empty c.rules
      then pure true
      else evaluate_rules action c.rules

  unfoldable pub authorize_query : Request Object → CollectionSchema → Exec Vm Bool
  unfolding evaluate_rules
  authorize_query r c =
      if r.is_internal || r.is_indexing
      then pure true
      else if is_empty c.rules
      then pure true
      else do
        js.set (str "ctx") r.ctx
        js.set (str "schema") r.schema
        js.set (str "query") r.query
        js.set (str "meta") r.meta
        evaluate_rules query c.rules

  unfoldable pub authorize_configure : Request Object → CollectionSchema → Exec Vm Bool
  unfolding evaluate_rules
  authorize_configure r c =
      if r.is_internal || r.is_indexing
      then pure true
      else if is_empty c.rules
      then pure true
      else do
        js.set (str "ctx") r.ctx
        js.set (str "schema") r.schema
        js.set (str "meta") r.meta
        evaluate_rules configure c.rules

  unfoldable pub authorize_change_stream : Request Object → CollectionSchema → Exec Vm Bool
  unfolding evaluate_rules
  authorize_change_stream r c =
      if r.is_internal || r.is_indexing
      then pure true
      else if is_empty c.rules
      then pure true
      else do
        js.set (str "ctx") r.ctx
        js.set (str "schema") r.schema
        js.set (str "filter") r.filter
        js.set (str "meta") r.meta
        evaluate_rules change_stream c.rules
