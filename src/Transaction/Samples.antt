-- ===== src/Transaction/Samples.antt =====
-- Libraries, a context and a collection for the tests of the transactions.
use gokvkit.Prelude.{str, true, false, [], ◌∷◌, none}
use gokvkit.Errors.Outcome.{ok}
use gokvkit.Model.Query.{create}
use gokvkit.Model.Schema.{CollectionSchema, Index}
use gokvkit.Vendor.Samples.{sample_lo, sample_js}
use gokvkit.Vendor.Documents.{sample_cast, sample_json}
use gokvkit.Kv.Memory.{memory}
use gokvkit.Transaction.{Libs, Context}

abbrev pub sample_libs : Libs
sample_libs = record {
  lo = sample_lo;
  cast = sample_cast;
  js = sample_js;
  json = sample_json;
  kv = memory;
  marshal = λ e. e.err;
  matches = λ pattern s. false;
  check_schema = λ c s. ok (record { errors = []; is_valid = true });
  valid_query = λ q. ok tt;
  valid_schema = λ c. ok tt;
  sort = λ less ds. ok ds;
  range_groups = λ gs. gs;
  marshal_values = λ vs. ok [];
  marshal_cdc = λ c. ok c.id;
  decode_cdc = λ d. ok (record {
    id = [];
    collection = [];
    action = create;
    document_id = [];
    diff = [];
    timestamp = 0;
  });
  ksuid = λ n. n ∷ [];
  ctx_object = λ ctx. tt;
  doc_object = λ d. tt;
  meta_object = λ ctx. tt;
  schema_object = λ c. tt;
  query_object = λ q. tt;
  shared_doc = λ vm d. d;
  holding = λ s vm. vm;
  written = λ vm s. s;
}

abbrev pub here : Context
here = record { is_internal = false; is_indexing = false; namespace = []; now = 7 }

abbrev pub key_index : Index
key_index = record {
  name = str "_id.primaryidx";
  fields = str "_id" ∷ [];
  unique = true;
  primary = true;
  foreign_key = none;
}

abbrev pub notes : CollectionSchema
notes = record {
  collection = str "note";
  primary_index = key_index;
  immutable = false;
  prevent_deletes = false;
  indexing = key_index ∷ [];
  property_paths = [];
  triggers = [];
  read_only = false;
  rules = [];
  require_query_index = false;
}
