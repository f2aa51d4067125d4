-- ===== src/Loading/Samples.antt =====
-- A sample of gjson, and the text of a schema: notes with a primary key, a unique title, and an author,
-- who is another document.
use gokvkit.Prelude.{
  Str, str, Bool, true, false, ◌==◌, List, [], ◌∷◌, inr, if◌then◌else◌, has_prefix,
}
use gokvkit.Errors.Outcome.{Outcome, ok, fail, panic}
use gokvkit.Model.Value.{Value, null, boolean, text, strings}
use gokvkit.Model.Schema.{CollectionSchema, zero_index}
use gokvkit.Vendor.Gjson.{Gjson}
use gokvkit.Vendor.Samples.{sample_lo, truthy}
use gokvkit.Vendor.Documents.{sample_cast}
use gokvkit.Loading.Parts.{SchemaTools}
use gokvkit.Loading.{Loaded, new_collection_schema}

-- An object knows its path.
mutual
  pub data Node : Type 0 where
    absent : Node
    scalar : Value → Node
    object : Str → Nodes → Node

  pub data Nodes : Type 0 where
    done : Nodes
    field : Str → Node → Nodes → Nodes

abbrev pub find : Nodes → Str → Node
find done k = absent
find (field j n ns) k = let rest = find ns k in if j == k then n else rest

abbrev pub node_get : Node → Str → Node
node_get absent k = absent
node_get (scalar v) k = absent
node_get (object p ns) k = find ns k

abbrev pub node_exists : Node → Bool
node_exists absent = false
node_exists (scalar v) = true
node_exists (object p ns) = true

abbrev pub node_value : Node → Value
node_value absent = null
node_value (scalar v) = v
node_value (object p ns) = null

abbrev pub as_text : Value → Str
as_text (text s) = s
as_text _ = []

abbrev pub listed : Nodes → List (Str × Node)
listed done = []
listed (field k n ns) = (k, n) ∷ listed ns

abbrev pub node_entries : Node → List (Str × Node)
node_entries absent = []
node_entries (scalar v) = []
node_entries (object p ns) = listed ns

abbrev pub node_path : Node → Str
node_path absent = []
node_path (scalar v) = []
node_path (object p ns) = p

abbrev pub notes : Node
notes = object [] (
    field (str "x-collection") (scalar (text (str "note"))) (
      field (str "required") (scalar (strings (str "_id" ∷ []))) (
        field (str "properties")
          (object (str "properties") (
            field (str "_id")
              (object (str "properties._id") (
                field (str "type") (scalar (text (str "string")))
                  (field (str "x-primary") (scalar (boolean true)) done)))
              (field (str "title")
                (object (str "properties.title") (
                  field (str "type") (scalar (text (str "string")))
                    (field (str "x-unique") (scalar (boolean true)) done)))
                (field (str "author")
                  (object (str "properties.author") (
                    field (str "type") (scalar (text (str "string")))
                      (field (str "x-foreign") (scalar (text (str "user"))) done)))
                  done))))
          done)))

abbrev pub sample_gjson : Gjson
sample_gjson = record {
  Result = Node;
  parse_bytes = λ s. notes;
  raw = λ r. str "{notes}";
  get = node_get;
  exists = node_exists;
  to_string = λ r. as_text (node_value r);
  to_bool = λ r. truthy (node_value r);
  value = node_value;
  entries = node_entries;
  path = λ r root. node_path r;
}

abbrev pub tools : SchemaTools
tools = record {
  gjson = sample_gjson;
  lo = sample_lo;
  cast = sample_cast;
  marshal = λ e. [];
  is_json = λ s. has_prefix s (str "{");
  convert_yaml = λ s. inr (str "{notes}");
  compile = λ s. inr tt;
  decode_compute = λ v. inr (record { read = true; write = true; expr = as_text v });
  decode_foreign = λ v. inr (record { collection = as_text v; cascade = true });
  decode_indexes = λ v. inr [];
  decode_trigger =
      λ name v. inr (record { name = name; order = 0; events = []; script = as_text v });
  decode_authz = λ v. inr [];
  valid_property = λ p. inr tt;
  valid_index = λ i. inr tt;
  valid_trigger = λ t. inr tt;
  valid_authz = λ rules. inr tt;
  sort_triggers = λ ts. ts;
}

-- The schema that is loaded
abbrev pub loaded_notes : Outcome (Loaded tools)
loaded_notes = new_collection_schema tools 2 (str "yaml")

abbrev nothing : CollectionSchema
nothing = record {
  collection = [];
  primary_index = zero_index;
  immutable = false;
  prevent_deletes = false;
  indexing = [];
  property_paths = [];
  triggers = [];
  read_only = false;
  rules = [];
  require_query_index = false;
}

abbrev pub notes_schema : Loaded tools
notes_schema = elim loaded_notes [
  | ok c ↦ c
  | fail e ↦ record { schema = nothing; indexing = []; properties = []; raw = absent }
  | panic ↦ record { schema = nothing; indexing = []; properties = []; raw = absent }
]
