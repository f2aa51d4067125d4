-- ===== src/Indexing.antt =====
-- indexing.go, with EncodeIndexValue of util/util.go: the byte keys of index entries.
pub mod Encoding
pub mod Path
mod Tests
use gokvkit.Prelude.{
  ℕ, zero, suc, ◌/◌, ◌%◌, Str, str, List, [], ◌∷◌, ◌++◌, lookup, Option, none, some, nat_eq,
  if◌then◌else◌,
}
use gokvkit.Model.Value.{Value, null, boolean, text, float, integer, is_null}
use gokvkit.Model.Schema.{Index}
use gokvkit.Vendor.Cast.{Cast}

abbrev pub Values : Type 0
Values = List (Str × Value)

-- binary.BigEndian.PutUint64 at 8 bytes
unfoldable pub big_endian : ℕ → ℕ → Str
big_endian zero n = []
big_endian (suc k) n = big_endian k (n / 256) ++ (n % 256) ∷ []

pub record IndexPathPrefix : Type 0 where
  pub prefix : List Str
  pub seek_value : Value
  pub fields : List Str
  pub field_map : Values

-- bytes.Join(path, nullByte)
unfoldable pub join : List Str → Str
join [] = []
join (p ∷ []) = p
join (p ∷ q ∷ ps) = p ++ zero ∷ join (q ∷ ps)

prepend : ℕ → List Str → List Str
prepend c [] = (c ∷ []) ∷ []
prepend c (p ∷ ps) = (c ∷ p) ∷ ps

-- bytes.Split(key, nullByte)
unfoldable pub split : Str → List Str
unfolding prepend
split [] = [] ∷ []
split (c ∷ s) = let rest = split s in if nat_eq c 0 then [] ∷ rest else prepend c rest

-- split[len(split)-1]
unfoldable pub last_segment : List Str → Str
last_segment [] = []
last_segment (p ∷ []) = p
last_segment (p ∷ q ∷ ps) = last_segment (q ∷ ps)

unfoldable pub seek : Value → IndexPathPrefix → IndexPathPrefix
seek value i = record {
  prefix = i.prefix;
  seek_value = value;
  fields = i.fields;
  field_map = i.field_map;
}

module _ (cast : Cast) where
  unfoldable pub encode_index_value : Value → Str
  encode_index_value null = []
  encode_index_value (boolean b) = cast.to_string (boolean b)
  encode_index_value (text s) = s
  encode_index_value (float n) = big_endian 8 (cast.to_uint64 (float n))
  encode_index_value (integer n) = big_endian 8 (cast.to_uint64 (integer n))
  encode_index_value v = cast.json_string v

  unfoldable pub append : Str → Value → IndexPathPrefix → IndexPathPrefix
  append field value i = record {
    prefix = i.prefix;
    seek_value = null;
    fields = i.fields ++ field ∷ encode_index_value value ∷ [];
    field_map = i.field_map ++ (field, value) ∷ [];
  }

  unfoldable pub path : IndexPathPrefix → Str
  path i = join (
      if is_null i.seek_value
      then i.prefix ++ i.fields
      else (i.prefix ++ i.fields) ++ encode_index_value i.seek_value ∷ [])

  unfoldable pub append_found : Str → Option Value → IndexPathPrefix → IndexPathPrefix
  append_found k none p = p
  append_found k (some v) p = append k v p

  unfoldable pub append_fields : List Str → Values → IndexPathPrefix → IndexPathPrefix
  unfolding append_found
  append_fields [] values p = p
  append_fields (k ∷ ks) values p = append_fields ks values (append_found k (lookup k values) p)

  -- The namespace is that of the context; `flatten` is flat.Flatten.
  unfoldable pub seek_prefix : (Values → Values) → Str → Str → Index → Values → IndexPathPrefix
  unfolding append_fields
  seek_prefix flatten namespace collection i values =
      append_fields i.fields (flatten values) (record {
        prefix = namespace ∷ str "index" ∷ collection ∷ i.name ∷ [];
        seek_value = null;
        fields = [];
        field_map = [];
      })

unfoldable pub index_prefix : Str → Str → Str → Str
index_prefix namespace collection index = join (namespace ∷ str "index" ∷ collection ∷ index ∷ [])

unfoldable pub collection_prefix : Str → Str → Str
collection_prefix namespace collection = join (namespace ∷ str "index" ∷ collection ∷ [])
