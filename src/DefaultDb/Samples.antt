-- ===== src/DefaultDb/Samples.antt =====
-- A store in memory, as a database sees it.
use gokvkit.Prelude.{Str, str, true, false, not, put, without, has_prefix, keep}
use gokvkit.Errors.Outcome.{Outcome, ok, fail, panic}
use gokvkit.Kv.Memory.{memory, Entries}
use gokvkit.Kv.Db.{KvDb}

abbrev pub committed : {A : Type 0} → Entries → Outcome A × Entries → Outcome A × Entries
committed s (ok a, t) = (ok a, t)
committed s (fail e, t) = (fail e, s)
committed s (panic, t) = (panic, s)

abbrev pub memory_db : KvDb memory
memory_db = record {
  State = Entries;
  tx = λ A read_only m s. committed s (m s);
  new_tx = λ is_batch read_only s. (ok s, s);
  leave = λ t s. t;
  drop_prefix = λ p s. (ok tt, keep (λ (e : Str × Str). not (has_prefix e.0 p)) s);
  try_lock = λ k s. (ok true, put k (str "held") s);
  is_locked = λ k s. (ok false, s);
  unlock = λ k s. without k s;
}
