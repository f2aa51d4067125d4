-- ===== src/Kv/BadgerTx/Published.antt =====
-- What a transaction over Badger hands to the subscribers of the database.
use gokvkit.Prelude.{
  Str, Bool, ◌≡◌, refl, sym, ap, ◌∙◌, List, [], ◌∷◌, ◌++◌, append-nil, append_assoc, Option, none,
  some,
}
use gokvkit.Errors.{GoError}
use gokvkit.Errors.Outcome.{Outcome, ok, fail, panic}
use gokvkit.Errors.Exec.{Exec, pure, ◌>>◌, continue, >>=-ok, modify}
use gokvkit.Kv.BadgerTx.{
  Badger, BadgerTx, Change, set_op, del_op, set, delete, get, commit, rollback, finish_tx, with_tx,
  new_tx, run_set, run_delete, run_commit, publish, log, set_change, del_change, ensure_txn,
}

-- The calls that the function of a transaction makes.
pub data Call : Type 0 where
  sets : Str → Str → Call
  deletes : Str → Call
  gets_key : Str → Call

abbrev pub changes : List Call → List Change
changes [] = []
changes (sets k v ∷ cs) = record { operation = set_op; key = k; value = v } ∷ changes cs
changes (deletes k ∷ cs) = record { operation = del_op; key = k; value = [] } ∷ changes cs
changes (gets_key k ∷ cs) = changes cs

module _ (badger : Badger) where
  abbrev pub call : Call → Exec (BadgerTx badger) (Unit {0})
  call (sets k v) = set badger k v
  call (deletes k) = delete badger k
  call (gets_key k) = get badger k >> pure tt

  abbrev pub calls : List Call → Exec (BadgerTx badger) (Unit {0})
  calls [] = pure tt
  calls (c ∷ cs) = call c >> calls cs

  -- What a step leaves of the log and of what was published.
  record Logs (t t' : BadgerTx badger) (cs : List Change) : Type 0 where
    entries : t'.entries ≡ t.entries ++ cs
    published : t'.published ≡ t.published

  run_set-Logs :
      (k v : Str) (b : Option badger.Batch) (x : Option badger.Txn) (t : BadgerTx badger)
      → Logs t (run_set badger k v b x t).1 []
  run_set-Logs k v (some b) x t = record { entries = sym (append-nil t.entries); published = refl }
  run_set-Logs k v none (some x) t = record {
    entries = sym (append-nil t.entries);
    published = refl;
  }
  run_set-Logs k v none none t = record { entries = sym (append-nil t.entries); published = refl }

  run_delete-Logs :
      (k : Str) (b : Option badger.Batch) (x : Option badger.Txn) (t : BadgerTx badger)
      → Logs t (run_delete badger k b x t).1 []
  run_delete-Logs k (some b) x t = record { entries = sym (append-nil t.entries); published = refl }
  run_delete-Logs k none (some x) t = record {
    entries = sym (append-nil t.entries);
    published = refl;
  }
  run_delete-Logs k none none t = record { entries = sym (append-nil t.entries); published = refl }

  run_commit-Logs :
      (b : Option badger.Batch) (x : Option badger.Txn) (t : BadgerTx badger)
      → Logs t (run_commit badger b x t).1 []
  run_commit-Logs (some b) x t = record { entries = sym (append-nil t.entries); published = refl }
  run_commit-Logs none (some x) t = record {
    entries = sym (append-nil t.entries);
    published = refl;
  }
  run_commit-Logs none none t = record { entries = sym (append-nil t.entries); published = refl }

  -- A call that returns has logged its change; none of them publishes, whatever it comes to.
  published-call : (c : Call) (t : BadgerTx badger) → ((call c t).1).published ≡ t.published
  unfolding set delete get
  published-call (sets k v) t =
      go (run_set badger k v t.batch t.txn t) (run_set-Logs k v t.batch t.txn t)
    where
      go :
          (o : Outcome (Unit {0}) × BadgerTx badger)
          → Logs t o.1 []
          → ((continue {0, 0} (λ _. modify (log badger (set_change badger k v))) o).1).published
            ≡ t.published
      go (ok x, s) l = l.published
      go (fail e, s) l = l.published
      go (panic, s) l = l.published
  published-call (deletes k) t =
      (run_delete-Logs k t.batch t.txn (log badger (del_change badger k) t)).published
  published-call (gets_key k) t = go (badger.get k (ensure_txn badger t.read_only t.txn)).0
    where
      go :
          (o : Outcome (Option Str))
          → ((continue {0, 0}
              (λ _. pure tt)
              (o, record t { txn = some (badger.get k (ensure_txn badger t.read_only t.txn)).1 })).1
            ).published
            ≡ t.published
      go (ok x) = refl
      go (fail e) = refl
      go panic = refl

  entries-call :
      (c : Call) (t t' : BadgerTx badger)
      → call c t ≡ (ok tt, t')
      → t'.entries ≡ t.entries ++ changes (c ∷ [])
  unfolding set delete get
  entries-call (sets k v) t t' h =
      let (_, s, h1, r1) = >>=-ok (run_set badger k v t.batch t.txn) _ h in
      ap (λ (p : Outcome (Unit {0}) × BadgerTx badger). p.1.entries) (sym r1)
      ∙ ap (λ es. es ++ set_change badger k v ∷ [])
          (ap (λ (p : Outcome (Unit {0}) × BadgerTx badger). p.1.entries) (sym h1)
            ∙ (run_set-Logs k v t.batch t.txn t).entries
            ∙ append-nil t.entries)
  entries-call (deletes k) t t' h =
      ap (λ (p : Outcome (Unit {0}) × BadgerTx badger). p.1.entries) (sym h)
      ∙ (run_delete-Logs k t.batch t.txn (log badger (del_change badger k) t)).entries
      ∙ append-nil _
  entries-call (gets_key k) t t' h =
      let (_, s, h1, r1) = >>=-ok (get badger k) (λ _. pure tt) {s = t} h in
      ap (λ (p : Outcome (Unit {0}) × BadgerTx badger). p.1.entries) (sym r1)
      ∙ ap (λ (p : Outcome (Option Str) × BadgerTx badger). p.1.entries) (sym h1)
      ∙ sym (append-nil t.entries)

  published-calls :
      (cs : List Call) (t : BadgerTx badger) → ((calls cs t).1).published ≡ t.published
  published-calls [] t = refl
  published-calls (c ∷ cs) t = go (published-calls cs) (call c t) (published-call c t)
    where
      go :
          ((s : BadgerTx badger) → ((calls cs s).1).published ≡ s.published)
          → (o : Outcome (Unit {0}) × BadgerTx badger) → o.1.published ≡ t.published
          → ((continue {0, 0} (λ _. calls cs) o).1).published ≡ t.published
      go ih (ok x, s) e = ih s ∙ e
      go ih (fail x, s) e = e
      go ih (panic, s) e = e

  entries-calls :
      (cs : List Call) (t t' : BadgerTx badger)
      → calls cs t ≡ (ok tt, t')
      → t'.entries ≡ t.entries ++ changes cs
  entries-calls [] t t' h =
      ap (λ (p : Outcome (Unit {0}) × BadgerTx badger). p.1.entries) (sym h)
      ∙ sym (append-nil t.entries)
  entries-calls (c ∷ cs) t t' h =
      let (_, s, h1, r1) = >>=-ok (call c) (λ _. calls cs) h in
      entries-calls cs s t' r1
      ∙ ap (λ es. es ++ changes cs) (entries-call c t s h1)
      ∙ append_assoc t.entries (changes (c ∷ [])) (changes cs)
      ∙ ap (λ xs. t.entries ++ xs) (changes-cons c cs)
    where
      changes-cons : (c : Call) (cs : List Call) → changes (c ∷ []) ++ changes cs ≡ changes (c ∷ cs)
      changes-cons (sets k v) cs = refl
      changes-cons (deletes k) cs = refl
      changes-cons (gets_key k) cs = refl

  published-commit :
      (t t' : BadgerTx badger)
      → commit badger t ≡ (ok tt, t')
      → t'.published ≡ t.published ++ t.entries
  unfolding commit
  published-commit t t' h =
      let (_, s, h1, r1) =
        >>=-ok (run_commit badger t.batch t.txn) (λ _. modify (publish badger)) h in
      let l = run_commit-Logs t.batch t.txn t in
      ap (λ (p : Outcome (Unit {0}) × BadgerTx badger). p.1.published) (sym r1)
      ∙ ap (λ (p : Outcome (Unit {0}) × BadgerTx badger). p.1.published ++ p.1.entries) (sym h1)
      ∙ ap (λ ps. ps ++ (run_commit badger t.batch t.txn t).1.entries) l.published
      ∙ ap (λ es. t.published ++ es) (l.entries ∙ append-nil t.entries)

  -- A transaction that returns has published the changes of its calls, in their order, after what
  -- was published before it, whether it is a batch or not.
  pub with_tx-published :
      (is_batch read_only : Bool) (before : List Change) (cs : List Call) (t' : BadgerTx badger)
      → with_tx badger is_batch read_only before (calls cs) ≡ (ok tt, t')
      → t'.published ≡ before ++ changes cs
  unfolding with_tx finish_tx new_tx
  with_tx-published is_batch read_only before cs t' h = go (calls cs start) refl h
    where
      start : BadgerTx badger
      start = new_tx badger is_batch read_only before

      go :
          (o : Outcome (Unit {0}) × BadgerTx badger)
          → calls cs start ≡ o
          → finish_tx badger o ≡ (ok tt, t')
          → t'.published ≡ before ++ changes cs
      go (ok x, s) e h =
          published-commit s t' h
          ∙ ap (λ ps. ps ++ s.entries)
              (ap (λ (p : Outcome (Unit {0}) × BadgerTx badger). p.1.published) (sym e)
                ∙ published-calls cs start)
          ∙ ap (λ es. before ++ es) (entries-calls cs start s e)
      go (fail x, s) e h = cc
      go (panic, s) e h = cc

  -- A transaction that returns an error, of its calls or of the commit, has published nothing.
  pub with_tx-fail :
      (is_batch read_only : Bool) (before : List Change) (cs : List Call) (x : GoError)
      (t' : BadgerTx badger)
      → with_tx badger is_batch read_only before (calls cs) ≡ (fail x, t')
      → t'.published ≡ before
  unfolding with_tx finish_tx new_tx rollback commit
  with_tx-fail is_batch read_only before cs x t' h =
      go (calls cs start) (published-calls cs start) h
    where
      start : BadgerTx badger
      start = new_tx badger is_batch read_only before

      committed :
          (s : BadgerTx badger) (o : Outcome (Unit {0}) × BadgerTx badger)
          → Logs s o.1 []
          → continue {0, 0} (λ _. modify (publish badger)) o ≡ (fail x, t')
          → t'.published ≡ s.published
      committed s (ok y, u) l h = cc
      committed s (fail y, u) l h =
          ap (λ (p : Outcome (Unit {0}) × BadgerTx badger). p.1.published) (sym h) ∙ l.published
      committed s (panic, u) l h = cc

      go :
          (o : Outcome (Unit {0}) × BadgerTx badger)
          → o.1.published ≡ before
          → finish_tx badger o ≡ (fail x, t')
          → t'.published ≡ before
      go (ok y, s) p h =
          committed s (run_commit badger s.batch s.txn s) (run_commit-Logs s.batch s.txn s) h ∙ p
      go (fail y, s) p h =
          ap (λ (p : Outcome (Unit {0}) × BadgerTx badger). p.1.published) (sym h) ∙ p
      go (panic, s) p h = cc
