-- ===== src/Kv/Interface.antt =====
-- kv/kv.go: the interface of a transaction over a key value store, for the code above it. An
-- iterator is the list of the entries that it will visit, in order.
use gokvkit.Prelude.{
  Str, Bool, true, ◌≡◌, Option, none, some, List, ◌==◌, has_prefix, if◌then◌else◌, Any,
}
use gokvkit.Errors.Outcome.{Outcome, ok}

pub record IterOpts : Type 0 where
  pub prefix : Str
  pub upper_bound : Option Str
  pub seek : Option Str
  pub reverse : Bool

pub record KvTx : Type 1 where
  pub State : Type 0
  pub get : Str → State → Outcome (Option Str) × State
  pub set : Str → Str → State → Outcome (Unit {0}) × State
  pub delete : Str → State → Outcome (Unit {0}) × State
  -- NewIterator, read to its end
  pub scan : IterOpts → State → Outcome (List (Str × Str)) × State
  pub commit : State → Outcome (Unit {0}) × State
  pub rollback : State → Outcome (Unit {0}) × State
  pub close : State → State

-- What the transaction code relies on: a transaction sees its own writes.
pub record KvLaws (kv : KvTx) : Type 0 where
  pub view : kv.State → Str → Option Str
  pub view-set :
      (k v j : Str) (s : kv.State)
      → (kv.set k v s).0 ≡ ok tt
      → view (kv.set k v s).1 j ≡ (if k == j then some v else view s j)
  pub view-delete :
      (k j : Str) (s : kv.State)
      → (kv.delete k s).0 ≡ ok tt
      → view (kv.delete k s).1 j ≡ (if k == j then none else view s j)
  -- A read changes nothing, and gives what is stored, if it gives anything.
  pub view-get : (k j : Str) (s : kv.State) → view (kv.get k s).1 j ≡ view s j
  pub get-view : (k : Str) (v : Option Str) (s : kv.State) → (kv.get k s).0 ≡ ok v → v ≡ view s k
  -- A scan changes nothing, and visits each entry whose key has the prefix.
  pub view-scan : (o : IterOpts) (j : Str) (s : kv.State) → view (kv.scan o s).1 j ≡ view s j
  pub scan-complete :
      (p k v : Str) (s : kv.State) (entries : List (Str × Str))
      → (kv.scan (record { prefix = p; upper_bound = none; seek = none; reverse = Bool.false }) s).0
        ≡ ok entries
      → view s k ≡ some v
      → has_prefix k p ≡ true
      → Any (λ e. e ≡ (k, v)) entries
