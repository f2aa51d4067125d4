-- ===== src/Transaction/Documents/Tests.antt =====
-- A note is created, set, updated and deleted in a store in memory.
use gokvkit.Prelude.{
  Str, str, false, ◌&&◌, ◌==◌, ◌≡◌, refl, List, [], ◌∷◌, is_empty, none, some, lookup, put, without,
  if◌then◌else◌,
}
use gokvkit.Errors.Outcome.{Outcome, ok}
use gokvkit.Model.Value.{Value, text}
use gokvkit.Model.Schema.{primary_key}
use gokvkit.Kv.Memory.{memory_laws}
use gokvkit.Document.{set_all, get}
use gokvkit.Transaction.{validate_document, Txn, document_key, get_primary_key}
use gokvkit.Transaction.SecondaryIndex.Keeps.{view}
use gokvkit.Transaction.Samples.{sample_libs, here, notes}
use gokvkit.Transaction.Documents.{
  set_document, set_existing, create_document, set_primary_key, update_document, delete_document,
  each_property, is_some,
}
use gokvkit.Transaction.Documents.Saved.{Saved}
use gokvkit.Transaction.Documents.Written.{
  Merged, set_document-Saved, create_document-Saved, update_document-Saved, delete_document-removes,
}

abbrev Fields : Type 0
Fields = List (Str × Value)

abbrev empty : Txn sample_libs
empty = record { store = []; vm = tt; docs = []; cdc = []; ids = 0 }

abbrev note : Fields
note = (str "_id", text (str "n1")) ∷ []

abbrev longer : Fields
longer = (str "text", text (str "hello")) ∷ []

abbrev after_set : Outcome Fields × Txn sample_libs
after_set = set_document sample_libs here notes (str "n1") none note empty

sets : after_set ≡ (ok note, after_set.1)
unfolding set_document set_existing each_property validate_document
sets = refl

set_document-Saved_example :
    (is_empty (str "n1") ≡ false)
    × ((notes.immutable && is_some sample_libs none) ≡ false)
    × Saved sample_libs memory_laws notes
        (document_key sample_libs here notes (str "n1"))
        note
        empty
        after_set.1
set_document-Saved_example =
    set_document-Saved sample_libs memory_laws (λ v s k. refl) here notes (str "n1") none note note
      empty after_set.1 sets

abbrev after_create : Outcome Fields × Txn sample_libs
after_create = create_document sample_libs here notes note empty

creates : after_create ≡ (ok note, after_create.1)
unfolding create_document set_primary_key each_property get_primary_key get primary_key put without
    lookup ◌==◌ validate_document
creates = refl

create_document-Saved_example :
    Saved sample_libs memory_laws notes
      (document_key sample_libs here notes (get_primary_key sample_libs notes note))
      note
      empty
      after_create.1
create_document-Saved_example =
    create_document-Saved sample_libs memory_laws (λ v s k. refl) here notes note note empty
      after_create.1 creates

abbrev after_update : Outcome Fields × Txn sample_libs
after_update = update_document sample_libs here notes (str "n1") (some note) longer empty

updates : after_update ≡ (ok longer, after_update.1)
unfolding update_document each_property set_all validate_document
updates = refl

update_document-Saved_example :
    (notes.immutable ≡ false)
    × Merged sample_libs memory_laws here notes (str "n1") note longer empty after_update.1
update_document-Saved_example =
    update_document-Saved sample_libs memory_laws (λ v s k. refl) here notes (str "n1") note longer
      longer empty after_update.1 updates

abbrev after_delete : Outcome (Unit {0}) × Txn sample_libs
after_delete = delete_document sample_libs here notes (str "n1") after_set.1

removes : after_delete ≡ (ok tt, after_delete.1)
unfolding delete_document set_document set_existing each_property
removes = refl

delete_document-removes_example :
    (notes.immutable ≡ false)
    × (notes.prevent_deletes ≡ false)
    × (is_empty (str "n1") ≡ false)
    × ((j : Str)
        → view sample_libs memory_laws after_delete.1 j ≡ (
            if document_key sample_libs here notes (str "n1") == j
            then none
            else view sample_libs memory_laws after_set.1 j))
delete_document-removes_example =
    delete_document-removes sample_libs memory_laws here notes (str "n1") after_set.1 after_delete.1
      removes
