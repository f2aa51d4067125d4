-- ===== src/Kv/TikvTx/Calls.antt =====
-- What the calls of a transaction over TiKV leave of its log and of the cache.
use gokvkit.Prelude.{
  ◌≡◌, refl, sym, ap, subst, ◌∙◌, Str, Bool, true, false, not, ◌==◌, List, [], ◌∷◌, ◌++◌, is_empty,
  append-nil, append_assoc, Option, some, if◌then◌else◌, inl, inr, Bool-cases,
}
use gokvkit.Errors.{GoError}
use gokvkit.Errors.Outcome.{Outcome, ok, fail}
use gokvkit.Errors.Exec.{Exec, pure, ◌>>◌, >>=-ok}
use gokvkit.Kv.BadgerTx.{set_op, del_op, Change}
use gokvkit.Kv.BadgerTx.Published.{Call, sets, deletes, gets_key, changes}
use gokvkit.Kv.TikvTx.{Tikv, TikvTx, on_txn, get, set, delete, writable}
use gokvkit.Kv.TikvTx.Cache.{CacheLaws, Base, Agrees, Coherent}

module _ (tikv : Tikv) (laws : CacheLaws tikv) where
  -- A read changes the transaction below only.
  get-same :
      (k : Str) (t u : TikvTx tikv) (v : Option Str)
      → get tikv k t ≡ (ok v, u)
      → (u.entries ≡ t.entries) × (u.cache ≡ t.cache)
  unfolding get
  get-same k t u v e = elim (Bool-cases (not (is_empty (tikv.cached k t.cache)))) [
    | inl hit ↦
        let x : ◌≡◌ {A = Outcome (Option Str) × TikvTx tikv} (ok (some (tikv.cached k t.cache)), t)
            (ok v, u) =
          rw hit at e in
        (
          ap (λ (p : Outcome (Option Str) × TikvTx tikv). p.1.entries) (sym x),
          ap (λ (p : Outcome (Option Str) × TikvTx tikv). p.1.cache) (sym x),
        )
    | inr miss ↦
        let x : on_txn tikv (tikv.get k) t ≡ (ok v, u) = rw miss at e in
        (
          ap (λ (p : Outcome (Option Str) × TikvTx tikv). p.1.entries) (sym x),
          ap (λ (p : Outcome (Option Str) × TikvTx tikv). p.1.cache) (sym x),
        )
  ]

  -- What a call that returns leaves of the log, and of the cache.
  pub record Stepped (base : Base) (t u : TikvTx tikv) (cs : List Change) : Type 0 where
    pub entries : u.entries ≡ t.entries ++ cs
    pub coherent : Coherent tikv laws t.cache base → Coherent tikv laws u.cache base

  refused_if :
      (b : Bool) (e : GoError) (t u : TikvTx tikv)
      → ◌≡◌ {A = Outcome (Unit {0}) × TikvTx tikv}
          (if b then (fail e, t) else (ok tt, t))
          (ok tt, u)
      → t ≡ u
  refused_if true e t u h = cc
  refused_if false e t u h = ap (λ (p : Outcome (Unit {0}) × TikvTx tikv). p.1) h

  writable_ok : (t u : TikvTx tikv) → writable tikv t ≡ (ok tt, u) → t ≡ u
  writable_ok t u e = refused_if t.read_only _ t u e

  uncache-Agrees :
      (v : Str) (stored_value : Option Str) (b : Bool)
      → Agrees v stored_value
      → Agrees (if b then [] else v) stored_value
  uncache-Agrees v stored_value true h = inl refl
  uncache-Agrees v stored_value false h = h

  abbrev call : Call → Exec (TikvTx tikv) (Unit {0})
  call (sets k v) = set tikv k v
  call (deletes k) = delete tikv k
  call (gets_key k) = get tikv k >> pure tt

  abbrev pub calls : List Call → Exec (TikvTx tikv) (Unit {0})
  calls [] = pure tt
  calls (c ∷ cs) = call c >> calls cs

  call-Stepped :
      (base : Base) (c : Call) (t u : TikvTx tikv)
      → call c t ≡ (ok tt, u)
      → Stepped base t u (changes (c ∷ []))
  unfolding set delete get
  call-Stepped base (sets k v) t u e =
      let (_, t1, e1, r1) = >>=-ok (writable tikv) _ {s = t} e in
      let (_, t2, e2, r2) = >>=-ok (on_txn tikv (tikv.set k v)) _ {s = t1} r1 in
      let same : t1 ≡ t = sym (writable_ok t t1 e1) in
      record {
        entries =
            ap (λ (p : Outcome (Unit {0}) × TikvTx tikv). p.1.entries) (sym r2)
            ∙ ap
                (λ (p : Outcome (Unit {0}) × TikvTx tikv).
                  p.1.entries ++ record { operation = set_op; key = k; value = v } ∷ [])
                (sym e2)
            ∙ ap
                (λ (x : TikvTx tikv).
                  x.entries ++ record { operation = set_op; key = k; value = v } ∷ [])
                same;
        coherent = λ h j.
            subst (λ c. Agrees (tikv.cached j c) (base j))
              (sym (
                ap (λ (p : Outcome (Unit {0}) × TikvTx tikv). p.1.cache) (sym r2)
                ∙ ap (λ (p : Outcome (Unit {0}) × TikvTx tikv). p.1.cache) (sym e2)
                ∙ ap (λ (x : TikvTx tikv). x.cache) same))
              (h j);
      }
  call-Stepped base (deletes k) t u e =
      let (_, t1, e1, r1) = >>=-ok (writable tikv) _ {s = t} e in
      let (_, t2, e2, r2) = >>=-ok (on_txn tikv (tikv.delete k)) _ {s = t1} r1 in
      let same : t1 ≡ t = sym (writable_ok t t1 e1) in
      record {
        entries =
            ap (λ (p : Outcome (Unit {0}) × TikvTx tikv). p.1.entries) (sym r2)
            ∙ ap
                (λ (p : Outcome (Unit {0}) × TikvTx tikv).
                  p.1.entries ++ record { operation = del_op; key = k; value = [] } ∷ [])
                (sym e2)
            ∙ ap
                (λ (x : TikvTx tikv).
                  x.entries ++ record { operation = del_op; key = k; value = [] } ∷ [])
                same;
        coherent = λ h j.
            subst (λ c. Agrees (tikv.cached j c) (base j))
              (sym (
                ap (λ (p : Outcome (Unit {0}) × TikvTx tikv). p.1.cache) (sym r2)
                ∙ ap (λ (p : Outcome (Unit {0}) × TikvTx tikv). tikv.uncache k p.1.cache) (sym e2)
                ∙ ap (λ (x : TikvTx tikv). tikv.uncache k x.cache) same))
              (subst (λ v. Agrees v (base j)) (sym (laws.cached-uncache k j t.cache))
                (uncache-Agrees (tikv.cached j t.cache) (base j) (k == j) (h j)));
      }
  call-Stepped base (gets_key k) t u e =
      let (_, t1, e1, r1) = >>=-ok (get tikv k) (λ _. pure tt) {s = t} e in
      let last : u ≡ t1 = ap (λ (p : Outcome (Unit {0}) × TikvTx tikv). p.1) (sym r1) in
      let (entries, cache) = get-same k t t1 _ e1 in
      record {
        entries = ap (λ (x : TikvTx tikv). x.entries) last ∙ entries ∙ sym (append-nil t.entries);
        coherent = λ h j.
            subst (λ c. Agrees (tikv.cached j c) (base j))
              (sym (ap (λ (x : TikvTx tikv). x.cache) last ∙ cache)) (h j);
      }

  changes-cons : (c : Call) (cs : List Call) → changes (c ∷ []) ++ changes cs ≡ changes (c ∷ cs)
  changes-cons (sets k v) cs = refl
  changes-cons (deletes k) cs = refl
  changes-cons (gets_key k) cs = refl

  pub calls-Stepped :
      (base : Base) (cs : List Call) (t u : TikvTx tikv)
      → calls cs t ≡ (ok tt, u)
      → Stepped base t u (changes cs)
  calls-Stepped base [] t u e = record {
    entries =
        ap (λ (p : Outcome (Unit {0}) × TikvTx tikv). p.1.entries) (sym e)
        ∙ sym (append-nil t.entries);
    coherent = λ h k.
        subst (λ c. Agrees (tikv.cached k c) (base k))
          (ap (λ (p : Outcome (Unit {0}) × TikvTx tikv). p.1.cache) e) (h k);
  }
  calls-Stepped base (c ∷ cs) t u e =
      let (_, t1, e1, r1) = >>=-ok (call c) (λ _. calls cs) {s = t} e in
      let first = call-Stepped base c t t1 e1 in
      let rest = calls-Stepped base cs t1 u r1 in
      record {
        entries =
            rest.entries
            ∙ ap (λ es. es ++ changes cs) first.entries
            ∙ append_assoc t.entries (changes (c ∷ [])) (changes cs)
            ∙ ap (λ es. t.entries ++ es) (changes-cons c cs);
        coherent = λ h. rest.coherent (first.coherent h);
      }
