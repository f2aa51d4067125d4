-- ===== src/Kv/Locker/Exclusion.antt =====
-- The lockers of one key, as a step relation on the store, the time, and the ids of those whose
-- `keepalive` runs.
use gokvkit.Prelude.{
  ℕ, ◌-◌, ◌*◌, ◌≤◌, ◌<◌, ltb→lt, Str, true, false, not, ◌==◌, ==_iff, &&-eq-true, List, [], ◌∷◌,
  keep, keep-false, length, Any, ◌≡◌, refl, sym, ap, subst, ◌∙◌, ◌⊎◌, inl, inr, arith,
}
use gokvkit.Errors.Outcome.{ok}
use gokvkit.Errors.Runs.{Runs-result}
use gokvkit.Kv.Interface.{KvTx, KvLaws}
use gokvkit.Kv.Locker.{LockMeta, LockJson, Lock, is_free, try_lock, renew, release}
use gokvkit.Kv.Locker.Effects.{meta, written, Tried, try_lock-Tried, Renewed, renew-Renewed}

module _ (kv : KvTx) (laws : KvLaws kv) (json : LockJson) (key : Str) (lease_interval : ℕ) where
  abbrev pub locker : Str → ℕ → Lock
  locker id start = record { id = id; key = key; lease_interval = lease_interval; start = start }

  -- `holders` are the lockers that got the lock and have not given it back.
  pub record World : Type 0 where
    pub store : kv.State
    pub now : ℕ
    pub holders : List Str

  abbrev pub held : World → LockMeta
  held w = meta kv laws json (locker [] 0) w.store

  abbrev pub Holds : Str → World → Type 0
  Holds id w = Any (λ h. h ≡ id) w.holders

  -- The lease of a lock that is held has not run out.
  abbrev pub InTime : World → Type 0
  InTime w = (id : Str) → Holds id w → w.now - (held w).last_update ≤ 4 * lease_interval

  -- What can happen: an attempt gets the lock or does not, a `keepalive` renews or gives back, and time
  -- goes on, up to the end of the lease of a lock that is held.
  pub data Step : World → World → Type 0 where
    acquired :
        (w : World) (id : Str) (start : ℕ) (s : kv.State)
        → try_lock kv json (locker id start) w.now w.store ≡ (ok true, s)
        → Step w (record { store = s; now = w.now; holders = id ∷ w.holders })
    refused :
        (w : World) (id : Str) (start : ℕ) (s : kv.State)
        → try_lock kv json (locker id start) w.now w.store ≡ (ok false, s)
        → Step w (record { store = s; now = w.now; holders = w.holders })
    renewed :
        (w : World) (id : Str) (start : ℕ) (s : kv.State)
        → Holds id w
        → renew kv json (locker id start) w.now w.store ≡ (ok tt, s)
        → Step w (record { store = s; now = w.now; holders = w.holders })
    released :
        (w : World) (id : Str) (start : ℕ) (s : kv.State)
        → Holds id w
        → release kv json (locker id start) w.store ≡ (ok tt, s)
        → Step w (record { store = s; now = w.now; holders = keep (λ h. not (h == id)) w.holders })
    passed :
        (w : World) (t : ℕ)
        → w.now ≤ t
        → InTime (record { store = w.store; now = t; holders = w.holders })
        → Step w (record { store = w.store; now = t; holders = w.holders })

  pub data Reachable : World → Type 0 where
    init : (s : kv.State) (t : ℕ) → Reachable (record { store = s; now = t; holders = [] })
    next : (w w' : World) → Reachable w → Step w w' → Reachable w'

  -- Nobody holds the lock, or one locker does, whose id the store has with a lease that runs.
  pub record HeldBy (id : Str) (w : World) : Type 0 where
    pub only : w.holders ≡ id ∷ []
    pub stored : (held w).id ≡ id
    pub in_time : w.now - (held w).last_update ≤ 4 * lease_interval

  abbrev pub IsExclusive : World → Type 0
  IsExclusive w = (w.holders ≡ []) ⊎ ((id : Str) × HeldBy id w)

  -- A lock that runs is not free.
  not_free :
      (b : Lock) (now : ℕ) (m : LockMeta)
      → b.lease_interval ≡ lease_interval
      → now - m.last_update ≤ 4 * lease_interval
      → is_free kv json b now m ≡ true
      → ⊥
  unfolding is_free
  not_free b now m e h f =
      let late : 4 * b.lease_interval < now - m.last_update =
        ltb→lt (4 * b.lease_interval) (now - m.last_update) (&&-eq-true _ _ f).0 in
      omega (arith, e, h, late)

  -- The only holder is the one that holds.
  only_holder : (id h : Str) (w : World) → HeldBy h w → Holds id w → h ≡ id
  only_holder id h w b o = elim (subst (Any (λ x. x ≡ id)) b.only o) [
    | inl e ↦ e
    | inr x ↦ absurd x
  ]

  nobody : (id : Str) (w : World) → w.holders ≡ [] → Holds id w → ⊥
  nobody id w e o = subst (Any (λ x. x ≡ id)) e o

  acquired-IsExclusive :
      (w : World) (id : Str) (st : ℕ) (s : kv.State)
      → Tried kv laws json (locker id st) w.now w.store true s
      → IsExclusive w
      → IsExclusive (record { store = s; now = w.now; holders = id ∷ w.holders })
  acquired-IsExclusive w id st s (free, m) (inl e) = inr (
    id,
    record {
      only = ap (λ hs. id ∷ hs) e;
      stored = ap (λ m. m.id) m;
      in_time = omega (arith, ap (λ m. m.last_update) m);
    },
  )
  acquired-IsExclusive w id st s (free, m) (inr (h, b)) =
      absurd (not_free (locker id st) w.now (held w) refl b.in_time free)

  refused-IsExclusive :
      (w : World) (s : kv.State)
      → meta kv laws json (locker [] 0) s ≡ held w
      → IsExclusive w
      → IsExclusive (record { store = s; now = w.now; holders = w.holders })
  refused-IsExclusive w s e (inl n) = inl n
  refused-IsExclusive w s e (inr (h, b)) = inr (
    h,
    record {
      only = b.only;
      stored = ap (λ m. m.id) e ∙ b.stored;
      in_time = subst (λ m. w.now - m.last_update ≤ 4 * lease_interval) (sym e) b.in_time;
    },
  )

  Renewed-IsExclusive :
      (w : World) (id : Str) (st : ℕ) (s : kv.State)
      → Holds id w
      → Renewed kv laws json (locker id st) w.now w.store s
      → IsExclusive w
      → IsExclusive (record { store = s; now = w.now; holders = w.holders })
  Renewed-IsExclusive w id st s o r (inl e) = absurd (nobody id w e o)
  Renewed-IsExclusive w id st s o (r, _) (inr (h, b)) =
      let same : h ≡ id = only_holder id h w b o in
      let m : meta kv laws json (locker id st) s ≡ written kv laws json (locker id st) w.now =
        r ((==_iff (held w).id id).1 (b.stored ∙ same)) in
      inr (
        h,
        record {
          only = b.only;
          stored = ap (λ m. m.id) m ∙ sym same;
          in_time = omega (arith, ap (λ m. m.last_update) m);
        },
      )

  released-IsExclusive :
      (w : World) (id : Str) (s : kv.State)
      → Holds id w
      → IsExclusive w
      → IsExclusive
          (record { store = s; now = w.now; holders = keep (λ h. not (h == id)) w.holders })
  released-IsExclusive w id s o (inl e) = absurd (nobody id w e o)
  released-IsExclusive w id s o (inr (h, b)) = inl (
      ap (keep (λ h. not (h == id))) b.only
      ∙ keep-false (λ h. not (h == id)) h [] (ap not ((==_iff h id).1 (only_holder id h w b o))))

  pub Step-IsExclusive : (w w' : World) → Step w w' → IsExclusive w → IsExclusive w'
  Step-IsExclusive w w' (acquired _ id st s h) inv =
      acquired-IsExclusive w id st s
        (Runs-result _ w.store s true _ (try_lock-Tried kv laws json (locker id st) w.now w.store)
          h)
        inv
  Step-IsExclusive w w' (refused _ id st s h) inv =
      refused-IsExclusive w s
        (Runs-result _ w.store s false _ (try_lock-Tried kv laws json (locker id st) w.now w.store)
          h).1
        inv
  Step-IsExclusive w w' (renewed _ id st s o h) inv =
      Renewed-IsExclusive w id st s o
        (Runs-result _ w.store s tt _ (renew-Renewed kv laws json (locker id st) w.now w.store) h)
        inv
  Step-IsExclusive w w' (released _ id st s o h) inv = released-IsExclusive w id s o inv
  Step-IsExclusive w w' (passed _ t l i) (inl e) = inl e
  Step-IsExclusive w w' (passed _ t l i) (inr (h, b)) = inr (
    h,
    record {
      only = b.only;
      stored = b.stored;
      in_time = i h (subst (Any (λ x. x ≡ h)) (sym b.only) (inl refl));
    },
  )

  Reachable-IsExclusive : (w : World) → Reachable w → IsExclusive w
  Reachable-IsExclusive w (init s t) = inl refl
  Reachable-IsExclusive w (next v _ r st) = Step-IsExclusive v w st (Reachable-IsExclusive v r)

  -- As long as the lease of a lock that is held is renewed in time, no two lockers hold the lock at
  -- once, whatever the order of their attempts, renewals and releases. The laws of the store are used,
  -- and that what is marshalled is unmarshalled.
  pub mutual_exclusion : (w : World) → Reachable w → length w.holders ≤ 1
  mutual_exclusion w r = elim (Reachable-IsExclusive w r) [
    | inl e ↦ omega (arith, ap length e)
    | inr (id, b) ↦ omega (arith, ap length b.only)
  ]
