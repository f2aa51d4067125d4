-- ===== src/DefaultDb/Streams/Tests.antt =====
-- A change stream over messages of which one is not a change record.
use gokvkit.Prelude.{
  Bool, List, is_empty, if◌then◌else◌, ◌≡◌, refl, Str, str, true, false, not, ◌==◌, [], ◌∷◌, lookup,
  put, without, has_prefix,
}
use gokvkit.Errors.Exec.{Exec}
use gokvkit.Model.Value.{Value, text, any_eq}
use gokvkit.Model.Query.{Where, neq, create}
use gokvkit.Vendor.Documents.{sample_cast, sample_json}
use gokvkit.Document.{
  new_document_from_bytes, valid, where_clauses, clause, neq_clause, get, operand,
}
use gokvkit.Indexing.{index_prefix, join}
use gokvkit.Authorization.{authorize_change_stream}
use gokvkit.Kv.BadgerTx.{Change, set_op}
use gokvkit.Kv.Streams.{tikv_stream}
use gokvkit.Transaction.{Libs, Cdc}
use gokvkit.DefaultDb.Streams.{may_stream, stream_prefix, db_change_stream}
use gokvkit.DefaultDb.Streams.HandOver.{hand_over, wanted, AllHeld, db_change_stream-hand_over}
use gokvkit.Errors.Outcome.{ok}
use gokvkit.Model.Schema.{primary_key}
use gokvkit.Loading.{new_collection_schema}
use gokvkit.Loading.Samples.{tools, notes_schema}
use gokvkit.Configuration.References.Samples.{node_list}
use gokvkit.Transaction.Samples.{sample_libs, here}
use gokvkit.DefaultDb.{Env, DbState, has_collection, known}
use gokvkit.DefaultDb.Samples.{memory_db}

-- A change record that is told by the name of its collection
abbrev record_of : Str → Cdc
record_of m = record {
  id = [];
  collection = m;
  action = create;
  document_id = [];
  diff = [];
  timestamp = 0;
}

abbrev named_doc : Str → List (Str × Value)
named_doc m = (str "_id", text m) ∷ []

abbrev stream_libs : Libs
stream_libs = record sample_libs {
  decode_cdc = λ d. ok (record_of (sample_cast.to_string (sample_json.value_at d (str "_id"))));
}

abbrev stream_env : Env
stream_env = record {
  libs = stream_libs;
  tools = tools;
  db = memory_db;
  dagger = node_list;
  global_scripts = [];
  vm = tt;
  tx_vm = λ t. ok tt;
  equals = λ a b. false;
  schema_depth = 2;
  depth = 3;
}

abbrev streamed : DbState stream_env
streamed = record { store = []; collections = (str "note", notes_schema) ∷ []; graph = []; ids = 0 }

-- The key of a payload is that of a change record unless it is the empty one.
abbrev decode : Str → Change
decode m = record {
  operation = set_op;
  key = if is_empty m then [] else stream_prefix stream_env here;
  value = m;
}

abbrev no_users : List Where
no_users = record { field = str "_id"; op = neq; value = text (str "user") } ∷ []

abbrev accepts : Str → Bool
accepts m = not (m == str "user")

-- What has been handed over, the last first
abbrev keep_record : Cdc → Exec (List Cdc) Bool
keep_record e es = (ok true, e ∷ es)

abbrev payloads : List Str
payloads = str "note" ∷ str "user" ∷ [] ∷ str "task" ∷ str "note" ∷ []

granted : may_stream stream_env here (str "note") no_users streamed ≡ ok tt
unfolding may_stream authorize_change_stream has_collection known lookup ◌==◌ new_collection_schema
    has_prefix put without primary_key
granted = refl

held : AllHeld stream_env decode here (str "note") no_users named_doc accepts record_of payloads
unfolding new_document_from_bytes valid where_clauses clause neq_clause any_eq get lookup ◌==◌
    operand has_prefix
held = (
  (λ p. record { parses = refl; decides = refl; decodes = refl }),
  (
    (λ p. record { parses = refl; decides = refl; decodes = refl }),
    (
      (λ p. record { parses = refl; decides = refl; decodes = refl }),
      (
        (λ p. record { parses = refl; decides = refl; decodes = refl }),
        ((λ p. record { parses = refl; decides = refl; decodes = refl }), tt),
      ),
    ),
  ),
)

db_change_stream-hand_over_example :
    db_change_stream stream_env
      (λ p f. tikv_stream decode p f payloads)
      here
      (str "note")
      no_users
      keep_record
      streamed
      []
    ≡ hand_over keep_record
        (wanted stream_env decode here (str "note") no_users named_doc accepts record_of payloads)
        []
db_change_stream-hand_over_example =
    db_change_stream-hand_over stream_env decode here (str "note") no_users named_doc accepts
      record_of keep_record payloads streamed [] granted held

two_notes :
    (hand_over keep_record
      (wanted stream_env decode here (str "note") no_users named_doc accepts record_of payloads)
      []).1
    ≡ record_of (str "note") ∷ record_of (str "note") ∷ []
unfolding hand_over wanted index_prefix join has_prefix ◌==◌
two_notes = refl
