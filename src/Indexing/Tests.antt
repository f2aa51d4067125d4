-- ===== src/Indexing/Tests.antt =====
-- The theorems about keys, at an index over one text field.
use gokvkit.Prelude.{nat_eq, ◌==◌, ◌≡◌, refl, arith, str, true, false, [], ◌∷◌, none, ltb}
use gokvkit.Model.Value.{integer, float, text}
use gokvkit.Model.Schema.{Index}
use gokvkit.Vendor.Documents.{sample_cast}
use gokvkit.Kv.NextPrefix.{bytes_lt}
use gokvkit.Indexing.{encode_index_value, Values, split, last_segment, path, seek, seek_prefix}
use gokvkit.Indexing.Encoding.{encode_index_value-order}
use gokvkit.Indexing.Path.{last_segment-seek_prefix}

abbrev by_name : Index
by_name = record {
  name = str "name_idx";
  fields = str "name" ∷ [];
  unique = true;
  primary = false;
  foreign_key = none;
}

abbrev ann : Values
ann = (str "name", text (str "ann")) ∷ []

abbrev same : Values → Values
same vs = vs

encode_index_value-order_example :
    (bytes_lt
        (encode_index_value sample_cast (integer 255))
        (encode_index_value sample_cast (float 256))
      ≡ ltb 255 256)
    × ((encode_index_value sample_cast (integer 255) == encode_index_value sample_cast (float 256))
        ≡ nat_eq 255 256)
encode_index_value-order_example =
    encode_index_value-order sample_cast (integer 255) (float 256) refl refl (omega arith)
      (omega arith)

last_segment-seek_prefix_example :
    last_segment (
      split (
        path sample_cast
          (seek (text (str "u1")) (seek_prefix sample_cast same [] (str "user") by_name ann))))
    ≡ str "u1"
last_segment-seek_prefix_example =
    last_segment-seek_prefix sample_cast same [] (str "user") by_name ann (str "u1")
      (refl, (refl, tt))
