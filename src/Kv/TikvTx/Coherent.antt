-- ===== src/Kv/TikvTx/Coherent.antt =====
-- The cache in front of TiKV holds no stale values after a transaction.
use gokvkit.Prelude.{
  ◌≡◌, refl, sym, ap, subst, ◌∙◌, Str, str, Bool, true, false, not, List, [], ◌++◌, is_empty, some,
  if◌then◌else◌, inl, inr, Bool-cases,
}
use gokvkit.Errors.{GoError, foreign}
use gokvkit.Errors.Outcome.{Outcome, ok, fail, panic}
use gokvkit.Kv.BadgerTx.Published.{Call, changes}
use gokvkit.Kv.TikvTx.{
  Tikv, TikvTx, on_txn, get, commit, finish_tx, new_tx, with_tx, rollback, after_rollback,
  run_started,
}
use gokvkit.Kv.TikvTx.Cache.{CacheLaws, Base, replay, Agrees, Coherent, commit-Coherent}
use gokvkit.Kv.TikvTx.Calls.{calls, calls-Stepped}

module _ (tikv : Tikv) (laws : CacheLaws tikv) where
  -- After an error nothing is returned.
  failed_rollback :
      (x : GoError) (o : Outcome (Unit {0}) × TikvTx tikv) {after : tikv.Cache}
      → ◌≡◌ {A = Outcome (Unit {0}) × tikv.Cache}
          ((after_rollback tikv x o).0, (after_rollback tikv x o).1.cache)
          (ok tt, after)
      → ⊥
  unfolding after_rollback
  failed_rollback x (ok y, t) e = cc
  failed_rollback x (fail y, t) e = cc
  failed_rollback x (panic, t) e = cc

  -- No cached text is stale after a transaction that returns, if none was before.
  with_tx-Coherent :
      (base : Base) (read_only : Bool) (cs : List Call) (before after : tikv.Cache)
      → Coherent tikv laws before base
      → with_tx tikv read_only before (calls tikv laws cs) ≡ (ok tt, after)
      → Coherent tikv laws after (replay (changes cs) base)
  unfolding with_tx new_tx finish_tx run_started
  with_tx-Coherent base read_only cs before after h e = go tikv.begin e
    where
      finished :
          (t : TikvTx tikv) (o : Outcome (Unit {0}) × TikvTx tikv)
          → calls tikv laws cs t ≡ o
          → t.entries ≡ []
          → Coherent tikv laws t.cache base
          → ◌≡◌ {A = Outcome (Unit {0}) × tikv.Cache}
              ((finish_tx tikv o).0, (finish_tx tikv o).1.cache)
              (ok tt, after)
          → Coherent tikv laws after (replay (changes cs) base)
      finished t (ok x, u) q none_ h e =
          let s = calls-Stepped tikv laws base cs t u q in
          let w = (commit tikv u).1 in
          let done : commit tikv u ≡ (ok tt, w) =
            λ i. ((ap (λ (p : Outcome (Unit {0}) × tikv.Cache). p.0) e) i, w) in
          let entries : u.entries ≡ changes cs = s.entries ∙ ap (λ es. es ++ changes cs) none_ in
          λ k.
            subst (λ es. Agrees (tikv.cached k after) (replay es base k)) entries
              (subst (λ c. Agrees (tikv.cached k c) (replay u.entries base k))
                (ap (λ (p : Outcome (Unit {0}) × tikv.Cache). p.1) e)
                (commit-Coherent tikv laws base u w (s.coherent h) done k))
      finished t (fail x, u) q none_ h e = absurd (failed_rollback x (rollback tikv u) e)
      finished t (panic, u) q none_ h e = cc

      go :
          (o : Outcome tikv.Txn)
          → run_started tikv (calls tikv laws cs) before (new_tx tikv read_only before o)
            ≡ (ok tt, after)
          → Coherent tikv laws after (replay (changes cs) base)
      go (ok x) e = elim (Bool-cases (tikv.is_valid x)) [
        | inl valid ↦
            finished (record { read_only = read_only; txn = x; cache = before; entries = [] })
              (calls tikv laws cs
                (record { read_only = read_only; txn = x; cache = before; entries = [] }))
              refl refl h (rw valid at e)
        | inr invalid ↦ absurd (
            let o : ◌≡◌ {A = Outcome (Unit {0}) × tikv.Cache}
                (fail (foreign (str "invalid transaction")), before) (ok tt, after) =
              rw invalid at e in
            let n : ⊥ = cc in n)
      ]
      go (fail x) e = cc
      go panic e = cc

  -- Through a cache that is not stale, a read gives what the transaction below reads of the store.
  get-Coherent :
      (base : Base) (k : Str) (t : TikvTx tikv)
      → Coherent tikv laws t.cache base
      → (tikv.get k t.txn).0 ≡ ok (base k)
      → (get tikv k t).0 ≡ ok (base k)
  unfolding get
  get-Coherent base k t h e = go (is_empty (tikv.cached k t.cache)) refl (h k)
    where
      go :
          (b : Bool)
          → is_empty (tikv.cached k t.cache) ≡ b
          → Agrees (tikv.cached k t.cache) (base k)
          → (if not b then (ok (some (tikv.cached k t.cache)), t) else on_txn tikv (tikv.get k) t).0
            ≡ ok (base k)
      go true q a = e
      go false q (inl x) = absurd (let y : false ≡ true = sym q ∙ x in let n : ⊥ = cc in n)
      go false q (inr x) = ap ok (sym x)

  -- Where no cached text was stale before a transaction that returns, a later transaction with the
  -- cache that it leaves, which TiKV shows the store with the changes of the calls in their order, also
  -- reads that store through the cache.
  pub with_tx-get :
      (base : Base) (read_only : Bool) (cs : List Call) (before : tikv.Cache) (later : TikvTx tikv)
      (k : Str)
      → Coherent tikv laws before base
      → with_tx tikv read_only before (calls tikv laws cs) ≡ (ok tt, later.cache)
      → (tikv.get k later.txn).0 ≡ ok (replay (changes cs) base k)
      → (get tikv k later).0 ≡ ok (replay (changes cs) base k)
  with_tx-get base read_only cs before later k h e shown =
      get-Coherent (replay (changes cs) base) k later
        (with_tx-Coherent base read_only cs before later.cache h e) shown
