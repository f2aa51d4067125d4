-- ===== src/Kv/BadgerTx/Tests.antt =====
-- Transactions over a store in memory, and one whose commit conflicts with another.
use gokvkit.Prelude.{Str, str, false, ◌≡◌, refl, List, [], ◌∷◌, ◌++◌, lookup, put, without}
use gokvkit.Errors.{foreign}
use gokvkit.Errors.Outcome.{Outcome, ok, fail}
use gokvkit.Kv.BadgerTx.{Badger, BadgerTx, set, delete, get, commit, finish_tx, with_tx, new_tx}
use gokvkit.Kv.BadgerTx.Published.{
  Call, sets, deletes, gets_key, changes, calls, with_tx-published, with_tx-fail,
}

abbrev Entries : Type 0
Entries = List (Str × Str)

-- `result` is what a commit comes to.
abbrev store : Outcome (Unit {0}) → Badger
store result = record {
  Txn = Entries;
  Batch = Entries;
  new_transaction = λ update. [];
  new_batch = [];
  get = λ k x. (ok (lookup k x), x);
  set_entry = λ k v x. (ok tt, put k v x);
  delete = λ k x. (ok tt, without k x);
  commit = λ x. (result, x);
  discard = λ x. [];
  batch_set = λ k v b. (ok tt, put k v b);
  batch_delete = λ k b. (ok tt, without k b);
  flush = λ b. (result, b);
  cancel = λ b. [];
}

abbrev steps : List Call
steps = sets (str "a") (str "1") ∷ gets_key (str "a") ∷ deletes (str "b") ∷ []

abbrev conflict : Outcome (Unit {0})
conflict = fail (foreign (str "conflict"))

abbrev after : (result : Outcome (Unit {0})) → BadgerTx (store result)
after result = (with_tx (store result) false false [] (calls (store result) steps)).1

returns :
    with_tx (store (ok tt)) false false [] (calls (store (ok tt)) steps) ≡ (ok tt, after (ok tt))
unfolding with_tx finish_tx new_tx set delete get commit
returns = refl

conflicts :
    with_tx (store conflict) false false [] (calls (store conflict) steps)
    ≡ (fail (foreign (str "conflict")), after conflict)
unfolding with_tx finish_tx new_tx set delete get commit
conflicts = refl

with_tx-published_example : (after (ok tt)).published ≡ [] ++ changes steps
with_tx-published_example =
    with_tx-published (store (ok tt)) false false [] steps (after (ok tt)) returns

with_tx-fail_example : (after conflict).published ≡ []
with_tx-fail_example =
    with_tx-fail (store conflict) false false [] steps (foreign (str "conflict")) (after conflict)
      conflicts
