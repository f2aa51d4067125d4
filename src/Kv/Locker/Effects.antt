-- ===== src/Kv/Locker/Effects.antt =====
-- What the transactions of locker.go do to the lock that the store holds.
use gokvkit.Prelude.{
  ℕ, ◌-◌, ◌*◌, ltb, not, ◌&&◌, Str, str, Bool, true, false, ◌==◌, ==_refl, Option, none, some, ◌≡◌,
  refl, sym, ap, ◌∙◌, inl, inr, if◌then◌else◌, Bool-cases,
}
use gokvkit.Errors.{foreign}
use gokvkit.Errors.Outcome.{Outcome, ok}
use gokvkit.Errors.Exec.{pure, raise}
use gokvkit.Errors.Runs.{
  Returns, Returns-bind, Runs, Runs-pure, Runs-raise, Runs-if, Runs-each, Runs-result, Runs-bind,
  Runs-mono,
}
use gokvkit.Kv.Interface.{KvTx, KvLaws}
use gokvkit.Kv.Locker.{
  no_meta, LockMeta, LockJson, Lock, current, is_free, set_lock, try_lock, get_lock, read_meta,
  renew,
}

module _ (kv : KvTx) (laws : KvLaws kv) (json : LockJson) where
  -- What the store holds at a lock's key
  abbrev pub meta : Lock → kv.State → LockMeta
  meta b s = current kv json (laws.view s b.key)

  Read : Lock → kv.State → Option Str → kv.State → Type 0
  Read b s v u = (current kv json v ≡ meta b s) × (meta b u ≡ meta b s)

  get-Read : (b : Lock) (s : kv.State) → Runs s (Read b s) (kv.get b.key)
  unfolding Read
  get-Read b s = Runs-each (Read b s) s (kv.get b.key) λ v u e. (
    ap (current kv json)
        (laws.get-view b.key v s (ap (λ (p : Outcome (Option Str) × kv.State). p.0) e)),
    ap (current kv json) (
        ap (λ (p : Outcome (Option Str) × kv.State). laws.view p.1 b.key) (sym e)
        ∙ laws.view-get b.key b.key s),
  )

  -- What a lock writes
  abbrev pub written : Lock → ℕ → LockMeta
  written b now = record { id = b.id; start = b.start; last_update = now; key = b.key }

  set_lock-meta :
      (b : Lock) (now : ℕ) (s : kv.State)
      → Runs s (λ _ u. meta b u ≡ written b now) (set_lock kv json b now)
  unfolding set_lock current
  set_lock-meta b now s =
      Runs-each (λ _ u. meta b u ≡ written b now) s (set_lock kv json b now)
        λ a u e.
          ap (current kv json) (
            ap (λ (p : Outcome (Unit {0}) × kv.State). laws.view p.1 b.key) (sym e)
            ∙ laws.view-set b.key (json.marshal (written b now)) b.key s
                (ap (λ (p : Outcome (Unit {0}) × kv.State). p.0) e)
            ∙ here (laws.view s b.key))
          ∙ read_back (written b now)
    where
      here :
          (o : Option Str)
          → (if b.key == b.key then some (json.marshal (written b now)) else o)
            ≡ some (json.marshal (written b now))
      here o = rw (==_refl b.key) refl

      read_back : (m : LockMeta) → current kv json (some (json.marshal m)) ≡ m
      read_back m =
          ap (λ (o : Option LockMeta). elim o [ none ↦ no_meta | some m ↦ m ])
            (json.unmarshal-marshal m)

  -- The two results of an attempt: the lock was free and is the locker's, or it was not free.
  abbrev pub Tried : Lock → ℕ → kv.State → Bool → kv.State → Type 0
  Tried b now s true u =
      (is_free kv json b now (meta b s) ≡ true)
      × (meta b u ≡ written (record b { start = now }) now)
  Tried b now s false u = (is_free kv json b now (meta b s) ≡ false) × (meta b u ≡ meta b s)

  pub try_lock-Tried :
      (b : Lock) (now : ℕ) (s : kv.State) → Runs s (Tried b now s) (try_lock kv json b now)
  unfolding try_lock Read
  try_lock-Tried b now s =
      Runs-bind (Tried b now s) (Read b s) s (kv.get b.key) _ (get-Read b s) λ v t (same, kept).
        Runs-if (Tried b now s) t (is_free kv json b now (current kv json v)) _ _
          (λ e.
            Runs-bind (Tried b now s) (λ _ u. meta b u ≡ written (record b { start = now }) now) t
              (set_lock kv json (record b { start = now }) now) _
              (set_lock-meta (record b { start = now }) now t)
              λ _ u h.
                Runs-pure (Tried b now s) u true (ap (is_free kv json b now) (sym same) ∙ e, h))
          (λ e. Runs-pure (Tried b now s) t false (ap (is_free kv json b now) (sym same) ∙ e, kept))

  get_lock-Read :
      (b : Lock) (s : kv.State)
      → Runs s (λ m u. (m ≡ meta b s) × (meta b u ≡ meta b s)) (get_lock kv json b)
  unfolding get_lock Read read_meta current
  get_lock-Read b s =
      Runs-bind (λ m u. (m ≡ meta b s) × (meta b u ≡ meta b s)) (Read b s) s (kv.get b.key) _
        (get-Read b s)
        λ v t (same, kept).
          Runs-mono (λ m u. (m ≡ current kv json v) × (u ≡ t)) _ t (read_meta kv json v)
            (λ m u (e, f). (e ∙ same, ap (meta b) f ∙ kept)) (reads v t)
    where
      reads :
          (v : Option Str) (t : kv.State)
          → Runs t (λ m u. (m ≡ current kv json v) × (u ≡ t)) (read_meta kv json v)
      reads none t = Runs-raise _ t _
      reads (some v) t = go (json.unmarshal v)
        where
          go :
              (o : Option LockMeta)
              → Runs t
                  (λ m u. (m ≡ elim o [ none ↦ no_meta | some m ↦ m ]) × (u ≡ t))
                  (elim o [ none ↦ raise (foreign (str "invalid character")) | some m ↦ pure m ])
          go none = Runs-raise _ t _
          go (some m) = Runs-pure _ t m (refl, refl)

  -- A renewal and a release change the lock if it is the locker's.
  abbrev pub Renewed : Lock → ℕ → kv.State → kv.State → Type 0
  Renewed b now s u =
      (((meta b s).id == b.id) ≡ true → meta b u ≡ written b now)
      × (((meta b s).id == b.id) ≡ false → meta b u ≡ meta b s)

  pub renew-Renewed :
      (b : Lock) (now : ℕ) (s : kv.State) → Runs s (λ _ u. Renewed b now s u) (renew kv json b now)
  unfolding renew
  renew-Renewed b now s =
      Runs-bind (λ _ u. Renewed b now s u) (λ m u. (m ≡ meta b s) × (meta b u ≡ meta b s)) s
        (get_lock kv json b) _ (get_lock-Read b s)
        λ m t (same, kept).
          Runs-if (λ _ u. Renewed b now s u) t (m.id == b.id) _ _
            (λ e.
              Runs-mono (λ _ u. meta b u ≡ written b now) _ t (set_lock kv json b now)
                (λ a u h. ((λ _. h), (λ f. absurd (differ (ap (λ m. m.id == b.id) same) e f))))
                (set_lock-meta b now t))
            (λ e.
              Runs-pure _ t tt
                ((λ f. absurd (differ (sym (ap (λ m. m.id == b.id) same)) f e)), (λ _. kept)))
    where
      differ : {x y : Bool} → x ≡ y → x ≡ true → y ≡ false → ⊥
      differ p e f = cc

  -- Reads and writes that have no error
  pub record Works : Type 0 where
    pub reads : (k : Str) (s : kv.State) → (v : Option Str) × ((kv.get k s).0 ≡ ok v)
    pub writes : (k v : Str) (s : kv.State) → (kv.set k v s).0 ≡ ok tt

  try_lock-Returns :
      Works → (b : Lock) (now : ℕ) (s : kv.State) → Returns s (try_lock kv json b now)
  unfolding try_lock set_lock
  try_lock-Returns works b now s = Returns-bind s (kv.get b.key) _ (works.reads b.key s) λ v t.
      elim (Bool-cases (is_free kv json b now (current kv json v))) [
        | inl e ↦ rw e (
            Returns-bind t (set_lock kv json (record b { start = now }) now) _
              (tt, works.writes b.key _ t) λ _ u. (true, refl))
        | inr e ↦ rw e (false, refl)
      ]

  Others : Lock → kv.State → kv.State → Type 0
  Others b s u = (k : Str) → (b.key == k) ≡ false → laws.view u k ≡ laws.view s k

  -- Only the key of the lock is written.
  try_lock-Others :
      (b : Lock) (now : ℕ) (s : kv.State) → Runs s (λ _ u. Others b s u) (try_lock kv json b now)
  unfolding try_lock set_lock Others
  try_lock-Others b now s =
      Runs-bind (λ _ u. Others b s u) (λ _ u. Others b s u) s (kv.get b.key) _
        (Runs-each (λ _ u. Others b s u) s (kv.get b.key)
          λ v u e k other.
            ap (λ (p : Outcome (Option Str) × kv.State). laws.view p.1 k) (sym e)
            ∙ laws.view-get b.key k s)
        λ v t kept.
          Runs-if (λ _ u. Others b s u) t (is_free kv json b now (current kv json v)) _ _
            (λ _.
              Runs-bind (λ _ u. Others b s u) (λ _ u. Others b s u) t
                (set_lock kv json (record b { start = now }) now) _
                (Runs-each (λ _ u. Others b s u) t (set_lock kv json (record b { start = now }) now)
                  λ a u e k other.
                    ap (λ (p : Outcome (Unit {0}) × kv.State). laws.view p.1 k) (sym e)
                    ∙ laws.view-set b.key (json.marshal (written (record b { start = now }) now)) k
                        t (ap (λ (p : Outcome (Unit {0}) × kv.State). p.0) e)
                    ∙ rw other (kept k other))
                λ _ u h. Runs-pure (λ _ u. Others b s u) u true h)
            (λ _. Runs-pure (λ _ u. Others b s u) t false kept)

  -- What an attempt that returns `r` finds and leaves: the lease of the other locker has run out, and
  -- the lock is written with the own id and the time, or nothing is changed at the lock; and no other
  -- key is changed.
  pub record Attempted (b : Lock) (now : ℕ) (s : kv.State) (r : Bool) (u : kv.State) : Type 0 where
    pub expired :
        r
        ≡ (ltb (4 * b.lease_interval) (now - (meta b s).last_update) && not ((meta b s).id == b.id))
    pub left : meta b u ≡ (if r then written (record b { start = now }) now else meta b s)
    pub others : (k : Str) → (b.key == k) ≡ false → laws.view u k ≡ laws.view s k

  -- On a store that works, an attempt returns: true exactly if the lock is not the locker's own and
  -- more than four lease intervals have passed since it was written. In that case it has then written
  -- the lock with its id and the time, else it leaves the lock as it was; no other key is changed. The
  -- laws of the store are used.
  pub try_lock-Attempted :
      (works : Works) (b : Lock) (now : ℕ) (s : kv.State)
      → (r : Bool) × ((try_lock kv json b now s).0 ≡ ok r)
        × Attempted b now s r (try_lock kv json b now s).1
  unfolding is_free Others
  try_lock-Attempted works b now s =
      let (r, e) = try_lock-Returns works b now s in
      let u = (try_lock kv json b now s).1 in
      let ran : try_lock kv json b now s ≡ (ok r, u) = ap (λ o. (o, u)) e in
      (
        r,
        e,
        decided r u
            (Runs-result (Tried b now s) s u r (try_lock kv json b now) (try_lock-Tried b now s)
              ran)
            (Runs-result (λ _ u. Others b s u) s u r (try_lock kv json b now)
              (try_lock-Others b now s) ran),
      )
    where
      decided : (r : Bool) (u : kv.State) → Tried b now s r u → Others b s u → Attempted b now s r u
      decided true u h o = record { expired = sym h.0; left = h.1; others = o }
      decided false u h o = record { expired = sym h.0; left = h.1; others = o }
