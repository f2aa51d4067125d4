-- ===== src/Transaction/Queries/Unchanged.antt =====
-- What a query leaves as it was.
use gokvkit.Prelude.{ℕ, ◌≡◌, refl, ◌∙◌, Str, List}
use gokvkit.Model.Query.{Query}
use gokvkit.Model.Schema.{CollectionSchema}
use gokvkit.Kv.Interface.{KvLaws}
use gokvkit.Transaction.{Libs, Txn, Context}
use gokvkit.Transaction.Frame.{Frame, OnlyRead}
use gokvkit.Transaction.Queries.{run_query}
use gokvkit.Transaction.Queries.Reading.{run_query-Within}

module _ (L : Libs) (laws : KvLaws L.kv) where
  -- What is stored, the known documents, the change records, and the ids that were made
  pub record Unchanged (t u : Txn L) : Type 0 where
    pub stored : (k : Str) → laws.view u.store k ≡ laws.view t.store k
    pub docs : u.docs ≡ t.docs
    pub cdc : u.cdc ≡ t.cdc
    pub ids : u.ids ≡ t.ids

module _ (L : Libs) (laws : KvLaws L.kv) (reads : OnlyRead L laws) where
  abbrev pub unchanged_frame : Frame L
  unchanged_frame = record {
    Rel = Unchanged L laws;
    same = λ t. record { stored = λ k. refl; docs = refl; cdc = refl; ids = refl };
    and_then = λ t u v h i. record {
      stored = λ k. i.stored k ∙ h.stored k;
      docs = i.docs ∙ h.docs;
      cdc = i.cdc ∙ h.cdc;
      ids = i.ids ∙ h.ids;
    };
    machine =
        λ t v. record { stored = λ k. reads v t.store k; docs = refl; cdc = refl; ids = refl };
    scanned = λ t o. record {
      stored = λ k. laws.view-scan o k t.store;
      docs = refl;
      cdc = refl;
      ids = refl;
    };
  }

  -- Whatever a query returns, if scripts write nothing through `tx`, it leaves as they were: the stored
  -- entries, the known documents, the change records and the number of ids that were made. The laws of
  -- the store are used.
  pub run_query-Unchanged :
      (global_scripts : Str) (n : ℕ) (cs : List (Str × CollectionSchema)) (ctx : Context)
      (collection : Str) (q : Query) (t : Txn L)
      → Unchanged L laws t (run_query L global_scripts n cs ctx collection q t).1
  run_query-Unchanged global_scripts n cs ctx collection q t =
      (run_query-Within L unchanged_frame global_scripts n cs ctx collection q).related t
