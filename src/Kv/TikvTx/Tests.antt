-- ===== src/Kv/TikvTx/Tests.antt =====
-- TiKV and Redis in memory: a key is written over a cached one, another is deleted.
use gokvkit.Prelude.{
  ◌≡◌, refl, ap, ◌∙◌, Str, str, true, false, ◌==◌, List, [], ◌∷◌, Option, none, some, lookup, put,
  without, lookup-put, if◌then◌else◌, inl, inr, Bool-cases,
}
use gokvkit.Errors.Outcome.{ok}
use gokvkit.Kv.Memory.{Entries}
use gokvkit.Kv.BadgerTx.Published.{Call, sets, deletes, gets_key, changes}
use gokvkit.Kv.TikvTx.{Tikv, TikvTx, get, set, delete, with_tx, finish_tx, commit}
use gokvkit.Kv.TikvTx.Cache.{CacheLaws, Coherent, replay}
use gokvkit.Kv.TikvTx.Calls.{calls}
use gokvkit.Kv.TikvTx.Coherent.{with_tx-get}

abbrev or_empty : Option Str → Str
or_empty none = []
or_empty (some v) = v

-- MSet, the first entry of a key first
abbrev cache_all : List (Str × Str) → Entries → Entries
cache_all [] c = c
cache_all ((k, v) ∷ m) c = put k v (cache_all m c)

abbrev in_memory : Tikv
in_memory = record {
  Txn = Entries;
  Cache = Entries;
  begin = ok ((str "k", str "old") ∷ (str "j", str "there") ∷ []);
  is_valid = λ x. true;
  get = λ k x. (ok (lookup k x), x);
  set = λ k v x. (ok tt, put k v x);
  delete = λ k x. (ok tt, without k x);
  commit = λ x. (ok tt, x);
  rollback = λ x. (ok tt, []);
  iter = λ from to x. (ok x, x);
  iter_reverse = λ from x. (ok x, x);
  cached = λ k c. or_empty (lookup k c);
  uncache = λ k c. put k [] c;
  publish = λ k bits c. c;
  cache_all = λ m c. (ok tt, cache_all m c);
  marshal = λ c. ok [];
}

cached-uncache :
    (k j : Str) (c : Entries)
    → or_empty (lookup j (put k [] c)) ≡ (if k == j then [] else or_empty (lookup j c))
cached-uncache k j c = elim (Bool-cases (k == j)) [
  | inl e ↦ rw (lookup-put k j [] c, e) refl
  | inr e ↦ rw (lookup-put k j [] c, e) refl
]

cached-cache_all :
    (m : List (Str × Str)) (j : Str) (c : Entries)
    → or_empty (lookup j (cache_all m c))
      ≡ (elim (lookup j m) [ none ↦ or_empty (lookup j c) | some v ↦ v ])
unfolding lookup
cached-cache_all [] j c = refl
cached-cache_all ((k, v) ∷ m) j c = elim (Bool-cases (k == j)) [
  | inl e ↦ ap or_empty (lookup-put k j v (cache_all m c)) ∙ rw e refl
  | inr e ↦ ap or_empty (lookup-put k j v (cache_all m c)) ∙ rw e (cached-cache_all m j c)
]

in_memory_laws : CacheLaws in_memory
in_memory_laws = record {
  cached-uncache = cached-uncache;
  cached-publish = λ k bits j c. refl;
  cached-cache_all = λ m j c h. cached-cache_all m j c;
}

abbrev sample_calls : List Call
sample_calls = gets_key (str "k") ∷ sets (str "k") (str "new") ∷ deletes (str "j") ∷ []

-- The old value of the key is cached.
abbrev before : Entries
before = (str "k", str "old") ∷ []

abbrev stored : Str → Option Str
stored k = lookup k ((str "k", str "old") ∷ (str "j", str "there") ∷ [])

abbrev later : TikvTx in_memory
later = record {
  read_only = true;
  txn = (str "k", str "new") ∷ [];
  cache = (with_tx in_memory false before (calls in_memory in_memory_laws sample_calls)).1;
  entries = [];
}

coherent : Coherent in_memory in_memory_laws before stored
unfolding lookup
coherent k = elim (Bool-cases (str "k" == k)) [ inl e ↦ rw e (inr refl) | inr e ↦ rw e (inl refl) ]

ran :
    with_tx in_memory false before (calls in_memory in_memory_laws sample_calls)
    ≡ (ok tt, later.cache)
unfolding with_tx finish_tx get set delete commit lookup put without ◌==◌
ran = refl

shown : (in_memory.get (str "k") later.txn).0 ≡ ok (replay (changes sample_calls) stored (str "k"))
unfolding lookup ◌==◌
shown = refl

with_tx-get_example :
    (get in_memory (str "k") later).0 ≡ ok (replay (changes sample_calls) stored (str "k"))
with_tx-get_example =
    with_tx-get in_memory in_memory_laws stored false sample_calls before later (str "k") coherent
      ran shown

-- Within a transaction, the cache hides what the transaction has written.
hidden :
    (get in_memory
      (str "k")
      (set in_memory
        (str "k")
        (str "new")
        (record { read_only = false; txn = []; cache = before; entries = [] })).1).0
    ≡ ok (some (str "old"))
unfolding get set lookup put without ◌==◌
hidden = refl
