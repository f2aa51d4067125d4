-- ===== src/Model/Query.antt =====
-- The query types of model.go: where clauses, selects, joins, orderings, queries, actions, and what
-- a document diff, an authorization rule and a change record consist of.
use gokvkit.Prelude.{str, ℕ, Str, Bool, true, false, List}
use gokvkit.Model.Value.{Value}

-- An operator outside the constants is kept by its text.
pub data WhereOp : Type 0 where
  contains eq gt gte in_list contains_all contains_any neq lt lte has_prefix has_suffix regex :
      WhereOp
  other : Str → WhereOp

pub data OrderByDirection : Type 0 where
  asc desc : OrderByDirection

-- `no_aggregate` is the empty string.
pub data AggregateFunction : Type 0 where
  no_aggregate count max min sum : AggregateFunction
  other : Str → AggregateFunction

pub record OrderBy : Type 0 where
  pub direction : OrderByDirection
  pub field : Str

pub record Select : Type 0 where
  pub aggregate : AggregateFunction
  pub as_name : Str
  pub field : Str

pub record Where : Type 0 where
  pub field : Str
  pub op : WhereOp
  pub value : Value

pub record Join : Type 0 where
  pub collection : Str
  pub on : List Where
  pub as_name : Str

pub record Query : Type 0 where
  pub select : List Select
  pub join : List Join
  pub wheres : List Where
  pub group_by : List Str
  pub page : ℕ
  pub limit : ℕ
  pub order_by : List OrderBy
  pub having : List Where

pub data Action : Type 0 where
  create set update delete query configure change_stream : Action

pub data EventType : Type 0 where
  on_set on_delete on_update on_create : EventType

pub data JsonOp : Type 0 where
  remove add replace : JsonOp
  other : Str → JsonOp

pub record JsonFieldOp : Type 0 where
  pub path : Str
  pub op : JsonOp
  pub value : Value
  pub before_value : Value

abbrev pub is_eq : WhereOp → Bool
is_eq eq = true
is_eq _ = false

abbrev pub is_aggregate : AggregateFunction → Bool
is_aggregate no_aggregate = false
is_aggregate _ = true

abbrev pub action_name : Action → Str
action_name create = str "create"
action_name set = str "set"
action_name update = str "update"
action_name delete = str "delete"
action_name query = str "query"
action_name configure = str "configure"
action_name change_stream = str "changeStream"
