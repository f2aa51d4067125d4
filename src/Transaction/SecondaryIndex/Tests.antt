-- ===== src/Transaction/SecondaryIndex/Tests.antt =====
-- A unique index over one field, in a store in memory: ann's name is changed to "eve".
use gokvkit.Prelude.{
  Str, str, true, false, ◌==◌, ◌≡◌, refl, List, [], ◌∷◌, none, some, lookup, put, without,
}
use gokvkit.Errors.Outcome.{ok}
use gokvkit.Model.Value.{Value, text}
use gokvkit.Model.Query.{update}
use gokvkit.Model.Schema.{Index}
use gokvkit.Kv.Memory.{memory_laws}
use gokvkit.Indexing.{path, seek, seek_prefix, append, join, encode_index_value}
use gokvkit.Transaction.{Txn, Database, entry_key, docs_key}
use gokvkit.Transaction.Samples.{sample_libs, here}
use gokvkit.Transaction.SecondaryIndex.{
  update_secondary_index, for_action, replace_entry, delete_old_entry, delete_entry,
  check_foreign_key, check_unique, all_own, set_entry,
}
use gokvkit.Transaction.SecondaryIndex.Replaced.{Replaced, update_secondary_index-Replaced}

abbrev no_queries : Database sample_libs
no_queries = record {
  collections = [];
  query = λ ctx c q t. (ok (record { documents = []; next_page = 1; count = 0 }), t);
}

abbrev by_name : Index
by_name = record {
  name = str "n";
  fields = str "name" ∷ [];
  unique = true;
  primary = false;
  foreign_key = none;
}

abbrev named : Str → List (Str × Value)
named s = (str "name", text s) ∷ []

abbrev start : Txn sample_libs
start = record {
  store =
      (entry_key sample_libs here (str "user") by_name (named (str "ann")) (str "u1"), str "u1")
      ∷ [];
  vm = tt;
  docs = [];
  cdc = [];
  ids = 0;
}

abbrev done : Txn sample_libs
done = record {
  store =
      (entry_key sample_libs here (str "user") by_name (named (str "eve")) (str "u1"), str "u1")
      ∷ [];
  vm = tt;
  docs = docs_key (str "user") (str "u1") ∷ [];
  cdc = [];
  ids = 0;
}

renamed :
    update_secondary_index sample_libs update no_queries here
      (str "user")
      by_name
      (str "u1")
      (some (named (str "ann")))
      (named (str "eve"))
      start
    ≡ (ok tt, done)
unfolding update_secondary_index for_action replace_entry delete_old_entry delete_entry
    check_foreign_key check_unique all_own set_entry without ◌==◌ entry_key path join seek
    seek_prefix lookup append encode_index_value put
renamed = refl

update_secondary_index-Replaced_example :
    Replaced sample_libs memory_laws here
      (str "user")
      by_name
      (str "u1")
      (some (named (str "ann")))
      (named (str "eve"))
      start
      done
update_secondary_index-Replaced_example =
    update_secondary_index-Replaced sample_libs memory_laws update no_queries here (str "user")
      by_name (str "u1") (some (named (str "ann"))) (named (str "eve")) start done
      (λ ctx c q t j. refl) (refl, (refl, tt)) refl refl renamed
