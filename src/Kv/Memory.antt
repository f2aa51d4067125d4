-- ===== src/Kv/Memory.antt =====
-- A store of a few entries in memory, which has the laws that the transactions rely on.
use gokvkit.Prelude.{
  Str, true, ◌≡◌, refl, sym, ap, ◌∙◌, List, [], ◌∷◌, ◌==◌, ==_iff, some, lookup, put, without,
  lookup-put, lookup-without, has_prefix, keep, Any, inl, inr, Bool-cases, keep-true, subst,
}
use gokvkit.Errors.Outcome.{Outcome, ok}
use gokvkit.Kv.Interface.{KvTx, KvLaws}

abbrev pub Entries : Type 0
Entries = List (Str × Str)

abbrev pub memory : KvTx
memory = record {
  State = Entries;
  get = λ k s. (ok (lookup k s), s);
  set = λ k v s. (ok tt, put k v s);
  delete = λ k s. (ok tt, without k s);
  scan = λ o s. (ok (keep (λ (e : Str × Str). has_prefix e.0 o.prefix) s), s);
  commit = λ s. (ok tt, s);
  rollback = λ s. (ok tt, []);
  close = λ s. s;
}

-- An entry that is found is among the entries with its key's prefixes.
pub lookup-keep :
    (p k v : Str) (s : Entries)
    → lookup k s ≡ some v
    → has_prefix k p ≡ true
    → Any (λ e. e ≡ (k, v)) (keep (λ (e : Str × Str). has_prefix e.0 p) s)
unfolding lookup
lookup-keep p k v [] h q = cc
lookup-keep p k v ((j, w) ∷ s) h q = elim (Bool-cases (j == k)) [
  | inl e ↦
      let same : j ≡ k = (==_iff j k).0 e in
      let found : some w ≡ some v = rw e at h in
      let kept : keep (λ (e : Str × Str). has_prefix e.0 p) ((j, w) ∷ s)
          ≡ (j, w) ∷ keep (λ (e : Str × Str). has_prefix e.0 p) s =
        keep-true (λ (e : Str × Str). has_prefix e.0 p) (j, w) s
          (ap (λ x. has_prefix x p) same ∙ q) in
      subst (Any (λ e. e ≡ (k, v))) (sym kept) (inl cc)
  | inr e ↦ elim (Bool-cases (has_prefix j p)) [
    | inl x ↦ rw (x, keep) (inr (lookup-keep p k v s (rw e at h) q))
    | inr x ↦ rw (x, keep) (lookup-keep p k v s (rw e at h) q)
  ]
]

pub scanned :
    (p : Str) (s entries : Entries)
    → ◌≡◌ {A = Outcome Entries} (ok (keep (λ (e : Str × Str). has_prefix e.0 p) s)) (ok entries)
    → keep (λ (e : Str × Str). has_prefix e.0 p) s ≡ entries
scanned p s entries h = cc

abbrev pub memory_laws : KvLaws memory
memory_laws = record {
  view = λ s k. lookup k s;
  view-set = λ k v j s h. lookup-put k j v s;
  view-delete = λ k j s h. lookup-without k j s;
  view-get = λ k j s. refl;
  get-view = λ k v s h. cc;
  view-scan = λ o j s. refl;
  scan-complete = λ p k v s entries h there pre.
      subst (Any (λ e. e ≡ (k, v))) (scanned p s entries h) (lookup-keep p k v s there pre);
}
