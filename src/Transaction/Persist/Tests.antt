-- ===== src/Transaction/Persist/Tests.antt =====
-- A note is set in a store that has nothing, and is refused by a rule.
use gokvkit.Prelude.{Str, str, ◌==◌, ◌≡◌, refl, List, [], ◌∷◌, none, lookup}
use gokvkit.Errors.Outcome.{Outcome, ok}
use gokvkit.Model.Value.{Value, text}
use gokvkit.Model.Query.{set}
use gokvkit.Model.Schema.{CollectionSchema, allow}
use gokvkit.Kv.Interface.{KvTx}
use gokvkit.Model.Schema.{primary_key}
use gokvkit.Document.{get, new_document_from_bytes}
use gokvkit.Optimizer.{optimize}
use gokvkit.Authorization.{authorize_query, authorize_command}
use gokvkit.Results.Validation.{validate, check_selects}
use gokvkit.Results.Ordering.{order_by_docs}
use gokvkit.Transaction.Scan.{get_document, query_scan, scan_entries}
use gokvkit.Transaction.Documents.{
  set_document, set_existing, each_property, create_document, set_primary_key, create_property,
}
use gokvkit.Transaction.SecondaryIndex.{update_secondary_index}
use gokvkit.Transaction.{Libs, Txn, Database, validate_document, get_primary_key}
use gokvkit.Transaction.Samples.{sample_libs, here, notes}
use gokvkit.Transaction.Queries.{run_query, plain_query}
use gokvkit.Transaction.Queries.Unchanged.{Unchanged}
use gokvkit.Transaction.Cascade.{Command}
use gokvkit.Transaction.Persist.{
  run_persist, persist_command, update_indexes, record_change, apply_action,
}
use gokvkit.Transaction.Persist.Recorded.{OneMore, run_persist-records}
use gokvkit.Transaction.Evaluate.{check_authorized, evaluate, run_triggers}

-- A store without entries, which keeps nothing.
abbrev blank : KvTx
blank = record {
  State = Unit {0};
  get = λ k s. (ok none, s);
  set = λ k v s. (ok tt, s);
  delete = λ k s. (ok tt, s);
  scan = λ o s. (ok [], s);
  commit = λ s. (ok tt, s);
  rollback = λ s. (ok tt, s);
  close = λ s. s;
}

abbrev blank_libs : Libs
blank_libs = record sample_libs { kv = blank; holding = λ s vm. vm; written = λ vm s. s }

abbrev changes : CollectionSchema
changes = record notes { collection = str "system_cdc" }

abbrev collections : List (Str × CollectionSchema)
collections = (str "note", notes) ∷ (str "system_cdc", changes) ∷ []

abbrev at_first : Txn blank_libs
at_first = record { store = tt; vm = tt; docs = []; cdc = []; ids = 0 }

abbrev note : List (Str × Value)
note = (str "_id", text (str "n1")) ∷ []

abbrev set_note : Command blank_libs
set_note = record { collection = str "note"; action = set; document = note; timestamp = 0 }

abbrev db : Database blank_libs
db = record { collections = collections; query = run_query blank_libs [] 3 collections }

abbrev after : Outcome (List (Str × Value)) × Txn blank_libs
after = run_persist blank_libs [] 2 db here set_note at_first

persists : after ≡ (ok note, after.1)
unfolding run_persist lookup ◌==◌ get_document run_query validate check_selects authorize_query
    plain_query query_scan optimize primary_key scan_entries order_by_docs evaluate run_triggers
    check_authorized set_document set_existing each_property validate_document
    new_document_from_bytes update_indexes record_change persist_command update_secondary_index
    create_document set_primary_key create_property get get_primary_key apply_action
    authorize_command
persists = refl

run_persist-records_example : OneMore blank_libs db here set_note note at_first after.1
unfolding ◌==◌
run_persist-records_example =
    run_persist-records blank_libs [] 3 0 collections here set_note at_first after.1 note refl refl
      refl persists

-- Only a rule without a script allows, and the machine finds it false.
abbrev closed : CollectionSchema
closed = record notes {
  rules = record { effect = allow; actions = str "set" ∷ []; match_script = [] } ∷ [];
}

abbrev set_closed : Command sample_libs
set_closed = record { collection = str "note"; action = set; document = note; timestamp = 0 }

abbrev closed_db : Database sample_libs
closed_db = record {
  collections = (str "note", closed) ∷ [];
  query = run_query sample_libs [] 3 ((str "note", closed) ∷ []);
}

abbrev nothing : Txn sample_libs
nothing = record { store = []; vm = tt; docs = []; cdc = []; ids = 0 }
