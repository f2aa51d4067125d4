-- ===== src/Kv/TikvTx/Cache.antt =====
-- What a commit leaves in the cache in front of TiKV.
use gokvkit.Prelude.{
  ◌≡◌, refl, sym, ap, subst, ◌∙◌, Str, Bool, true, ◌==◌, List, [], ◌∷◌, is_empty, Option, none,
  some, lookup, put, lookup-put, if◌then◌else◌, ◌⊎◌, inl, inr, Bool-cases,
}
use gokvkit.Errors.Outcome.{Outcome, ok}
use gokvkit.Errors.Exec.{lift, >>=-ok}
use gokvkit.Kv.BadgerTx.{TxOp, set_op, del_op, Change}
use gokvkit.Kv.TikvTx.{Tikv, TikvTx, on_txn, on_cache, commit, cached_value, published, publish_all}

-- A store as a function from keys, and what changes make of it.
abbrev pub Base : Type 0
Base = Str → Option Str

abbrev pub stored : TxOp → Str → Option Str
stored set_op v = some v
stored del_op v = none

abbrev pub replay : List Change → Base → Base
replay [] f = f
replay (c ∷ cs) f = replay cs (λ k. if c.key == k then stored c.operation c.value else f k)

-- What Redis is relied on for: publishing changes no key.
pub record CacheLaws (tikv : Tikv) : Type 0 where
  pub cached-uncache :
      (k j : Str) (c : tikv.Cache)
      → tikv.cached j (tikv.uncache k c) ≡ (if k == j then [] else tikv.cached j c)
  pub cached-publish :
      (k bits j : Str) (c : tikv.Cache) → tikv.cached j (tikv.publish k bits c) ≡ tikv.cached j c
  pub cached-cache_all :
      (m : List (Str × Str)) (j : Str) (c : tikv.Cache)
      → (tikv.cache_all m c).0 ≡ ok tt
      → tikv.cached j (tikv.cache_all m c).1
        ≡ (elim (lookup j m) [ none ↦ tikv.cached j c | some v ↦ v ])

-- A cached text is empty, which reads as no entry, or it is the stored value.
abbrev pub Agrees : Str → Option Str → Type 0
Agrees v stored_value = (is_empty v ≡ true) ⊎ (stored_value ≡ some v)

-- What is to be cached agrees with the changes so far: `f` is the store with these.
record Collected (m : List (Str × Str)) (base f : Base) : Type 0 where
  absent : (k : Str) → lookup k m ≡ none → f k ≡ base k
  present : (k v : Str) → lookup k m ≡ some v → Agrees v (f k)

stored-Agrees : (op : TxOp) (v : Str) → Agrees (cached_value op v) (stored op v)
stored-Agrees set_op v = inr refl
stored-Agrees del_op v = inl refl

-- What is read of a map after a write, where the keys were compared
put_at :
    (m : List (Str × Str)) (k j v : Str) (b : Bool) (w : Option Str)
    → (k == j) ≡ b
    → lookup j (put k v m) ≡ w
    → (if b then some v else lookup j m) ≡ w
put_at m k j v b w s e =
    ap (λ b. if b then some v else lookup j m) (sym s) ∙ sym (lookup-put k j v m) ∙ e

nothing_there : {P : Type 0} (k v : Str) → lookup k [] ≡ some v → P
unfolding lookup
nothing_there k v q = cc

Collected-put :
    (m : List (Str × Str)) (base f : Base) (c : Change)
    → Collected m base f
    → Collected
        (put c.key (cached_value c.operation c.value) m)
        base
        (λ k. if c.key == k then stored c.operation c.value else f k)
Collected-put m base f c h = record {
  absent = λ k e. elim (Bool-cases (c.key == k)) [
    | inl s ↦
        let found : some (cached_value c.operation c.value) ≡ none =
          put_at m c.key k (cached_value c.operation c.value) _ _ s e in
        absurd (let n : ⊥ = cc in n)
    | inr s ↦
        let missing : lookup k m ≡ none =
          put_at m c.key k (cached_value c.operation c.value) _ _ s e in
        rw s (h.absent k missing)
  ];
  present = λ k v e. elim (Bool-cases (c.key == k)) [
    | inl s ↦
        let found : some (cached_value c.operation c.value) ≡ some v =
          put_at m c.key k (cached_value c.operation c.value) _ _ s e in
        let same : cached_value c.operation c.value ≡ v = cc in
        rw s (
          subst (λ w. Agrees w (stored c.operation c.value)) same
            (stored-Agrees c.operation c.value))
    | inr s ↦
        let there : lookup k m ≡ some v =
          put_at m c.key k (cached_value c.operation c.value) _ _ s e in
        rw s (h.present k v there)
  ];
}

module _ (tikv : Tikv) (laws : CacheLaws tikv) where
  -- Every cached text is empty or the stored value.
  abbrev pub Coherent : tikv.Cache → Base → Type 0
  Coherent c base = (k : Str) → Agrees (tikv.cached k c) (base k)

  -- The loop over the changes leaves the cache, and collects what agrees with them.
  record Published (base : Base) (t u : TikvTx tikv) (m : List (Str × Str)) (f : Base)
      : Type 0 where
    collected : Collected m base f
    cache : (k : Str) → tikv.cached k u.cache ≡ tikv.cached k t.cache

  publish_all-Published :
      (base : Base) (cs : List Change) (m : List (Str × Str)) (f : Base) (t u : TikvTx tikv)
      (m' : List (Str × Str))
      → Collected m base f
      → publish_all tikv cs m t ≡ (ok m', u)
      → Published base t u m' (replay cs f)
  unfolding publish_all
  publish_all-Published base [] m f t u m' h e =
      let same : m ≡ m' =
        let o : ◌≡◌ {A = Outcome (List (Str × Str))} (ok m) (ok m') =
          ap (λ (p : Outcome (List (Str × Str)) × TikvTx tikv). p.0) e in
        cc in
      record {
        collected = subst (λ x. Collected x base f) same h;
        cache = λ k.
            ap (λ (p : Outcome (List (Str × Str)) × TikvTx tikv). tikv.cached k p.1.cache) (sym e);
      }
  publish_all-Published base (c ∷ cs) m f t u m' h e =
      let (bits, t1, e1, r1) = >>=-ok (lift (tikv.marshal c)) _ {s = t} e in
      let same : t ≡ t1 = ap (λ (p : Outcome Str × TikvTx tikv). p.1) e1 in
      let t2 = published tikv c.key bits t1 in
      let rest =
        publish_all-Published base cs (put c.key (cached_value c.operation c.value) m)
          (λ k. if c.key == k then stored c.operation c.value else f k) t2 u m'
          (Collected-put m base f c h) r1 in
      record {
        collected = rest.collected;
        cache = λ k.
            rest.cache k
            ∙ laws.cached-publish c.key bits k t1.cache
            ∙ ap (λ (x : TikvTx tikv). tikv.cached k x.cache) (sym same);
      }

  cached-Agrees :
      (m : List (Str × Str)) (base f : Base) (old : Str) (k : Str)
      → Collected m base f
      → Agrees old (base k)
      → Agrees (elim (lookup k m) [ none ↦ old | some v ↦ v ]) (f k)
  cached-Agrees m base f old k h agrees = go (lookup k m) refl
    where
      go :
          (o : Option Str)
          → lookup k m ≡ o
          → Agrees (elim o as (λ _. Str) [ none ↦ old | some v ↦ v ]) (f k)
      go none e = subst (Agrees old) (sym (h.absent k e)) agrees
      go (some v) e = h.present k v e

  -- A transaction that is committed has cached what it stored.
  pub commit-Coherent :
      (base : Base) (t u : TikvTx tikv)
      → Coherent t.cache base
      → commit tikv t ≡ (ok tt, u)
      → Coherent u.cache (replay t.entries base)
  unfolding commit
  commit-Coherent base t u h e =
      let (_, t1, e1, r1) = >>=-ok (on_txn tikv tikv.commit) _ {s = t} e in
      let (m, t2, e2, r2) = >>=-ok (publish_all tikv t1.entries []) _ {s = t1} r1 in
      let done =
        publish_all-Published base t1.entries [] base t1 t2 m
          (record { absent = λ k _. refl; present = λ k v q. nothing_there k v q }) e2 in
      let (_, t3, e3, r3) = >>=-ok (on_cache tikv (tikv.cache_all m)) _ {s = t2} r2 in
      let entries : t1.entries ≡ t.entries =
        ap (λ (p : Outcome (Unit {0}) × TikvTx tikv). p.1.entries) (sym e1) in
      λ k.
        let kept : tikv.cached k t2.cache ≡ tikv.cached k t.cache =
          done.cache k
          ∙ ap (λ (p : Outcome (Unit {0}) × TikvTx tikv). tikv.cached k p.1.cache) (sym e1) in
        let now : tikv.cached k u.cache
            ≡ (elim (lookup k m) [ none ↦ tikv.cached k t2.cache | some v ↦ v ]) =
          ap (λ (p : Outcome (Unit {0}) × TikvTx tikv). tikv.cached k p.1.cache) (sym r3)
          ∙ ap (λ (p : Outcome (Unit {0}) × TikvTx tikv). tikv.cached k p.1.cache) (sym e3)
          ∙ laws.cached-cache_all m k t2.cache
              (ap (λ (p : Outcome (Unit {0}) × TikvTx tikv). p.0) e3) in
        subst (λ es. Agrees (tikv.cached k u.cache) (replay es base k)) entries
          (subst (λ v. Agrees v (replay t1.entries base k)) (sym now)
            (cached-Agrees m base (replay t1.entries base) (tikv.cached k t2.cache) k done.collected
              (subst (λ v. Agrees v (base k)) (sym kept) (h k))))
