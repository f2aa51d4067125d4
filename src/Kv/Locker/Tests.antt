-- ===== src/Kv/Locker/Tests.antt =====
-- Two lockers of a key in a store in memory.
use gokvkit.Prelude.{
  ◌≤◌, Str, str, Bool, true, false, ◌==◌, ◌≡◌, refl, [], ◌∷◌, length, take, drop, ap, ◌++◌, Option,
  none, some, lookup, put,
}
use gokvkit.Errors.Outcome.{Outcome, ok}
use gokvkit.Kv.Memory.{memory, memory_laws, Entries}
use gokvkit.Kv.Locker.{LockMeta, LockJson, Lock, current, is_free, try_lock}
use gokvkit.Kv.Locker.Effects.{Works, Attempted, try_lock-Attempted}
use gokvkit.Kv.Locker.Exclusion.{World, acquired, refused, init, next, mutual_exclusion}

take-length : (xs ys : Str) → take (length xs) (xs ++ ys) ≡ xs
take-length [] ys = refl
take-length (x ∷ xs) ys = ap (λ zs. x ∷ zs) (take-length xs ys)

drop-length : (xs ys : Str) → drop (length xs) (xs ++ ys) ≡ ys
drop-length [] ys = refl
drop-length (x ∷ xs) ys = drop-length xs ys

abbrev unmarshal : Str → Option LockMeta
unmarshal (start ∷ last ∷ n ∷ s) =
    some (record { id = take n s; start = start; last_update = last; key = drop n s })
unmarshal _ = none

-- The text of a lock is its two times and the length of its id, before the id and the key.
abbrev sample_json : LockJson
sample_json = record {
  marshal = λ m. m.start ∷ m.last_update ∷ length m.id ∷ (m.id ++ m.key);
  unmarshal = unmarshal;
  unmarshal-marshal = λ m. rw (take-length m.id m.key, drop-length m.id m.key) refl;
}

abbrev mine : Lock
mine = record { id = str "a"; key = str "k"; lease_interval = 2; start = 0 }

abbrev theirs : Lock
theirs = record { id = str "b"; key = str "k"; lease_interval = 2; start = 0 }

works : Works memory memory_laws sample_json
works = record { reads = λ k s. (lookup k s, refl); writes = λ k v s. refl }

try_lock-Attempted_example :
    (r : Bool) × ((try_lock memory sample_json mine 100 []).0 ≡ ok r)
    × Attempted memory memory_laws sample_json mine 100 [] r
        (try_lock memory sample_json mine 100 []).1
try_lock-Attempted_example = try_lock-Attempted memory memory_laws sample_json works mine 100 []

abbrev after_mine : Outcome Bool × Entries
after_mine = try_lock memory sample_json mine 100 []

abbrev after_theirs : Outcome Bool × Entries
after_theirs = try_lock memory sample_json theirs 100 after_mine.1

got : after_mine ≡ (ok true, after_mine.1)
unfolding try_lock current is_free lookup ◌==◌ put
got = refl

busy : after_theirs ≡ (ok false, after_theirs.1)
unfolding try_lock current is_free lookup ◌==◌ put
busy = refl

abbrev empty : World memory memory_laws sample_json (str "k") 2
empty = record { store = []; now = 100; holders = [] }

abbrev with_mine : World memory memory_laws sample_json (str "k") 2
with_mine = record { store = after_mine.1; now = 100; holders = str "a" ∷ [] }

abbrev with_both : World memory memory_laws sample_json (str "k") 2
with_both = record { store = after_theirs.1; now = 100; holders = str "a" ∷ [] }

mutual_exclusion_example : length with_both.holders ≤ 1
mutual_exclusion_example = mutual_exclusion memory memory_laws sample_json (str "k") 2 with_both (
    next with_mine with_both
      (next empty with_mine (init [] 100) (acquired empty (str "a") 0 after_mine.1 got))
      (refused with_mine (str "b") 0 after_theirs.1 busy))
