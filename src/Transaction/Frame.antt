-- ===== src/Transaction/Frame.antt =====
-- What operations on a transaction leave as it was: a relation between its states before and after,
-- which composes, and which runs of scripts and scans of the store are within.
use gokvkit.Prelude.{◌≡◌, refl, Str, Bool, true, false, Option, none, some, if◌then◌else◌}
use gokvkit.Errors.{Code, GoError, wrap_error}
use gokvkit.Errors.Outcome.{Outcome, ok, fail, panic}
use gokvkit.Errors.Exec.{Exec, continue, map_error, pure, lift, raise, ◌>>=◌}
use gokvkit.Kv.Interface.{IterOpts, KvLaws}
use gokvkit.Transaction.{Libs, Txn, on_vm, on_store, wrapping, attempt, passed_over}

-- The scripts that are run write nothing through `tx`.
abbrev pub OnlyRead : (L : Libs) → KvLaws L.kv → Type 0
OnlyRead L laws =
    (v : L.js.Vm) (s : L.kv.State) (k : Str) → laws.view (L.written v s) k ≡ laws.view s k

module _ (L : Libs) where
  open L use {kv, js}

  pub record Frame : Type 1 where
    pub Rel : Txn L → Txn L → Type 0
    pub same : (t : Txn L) → Rel t t
    pub and_then : (t u v : Txn L) → Rel t u → Rel u v → Rel t v
    pub machine : (t : Txn L) (v : js.Vm) → Rel t (record t { store = L.written v t.store; vm = v })
    pub scanned : (t : Txn L) (o : IterOpts) → Rel t (record t { store = (kv.scan o t.store).1 })

-- The states before and after are related, whatever the operation returns.
pub record Within (L : Libs) (F : Frame L) {A : Type 0} (m : Exec (Txn L) A) : Type 0 where
  pub related : (t : Txn L) → F.Rel t (m t).1

pub Within-scan : (L : Libs) (F : Frame L) (o : IterOpts) → Within L F (on_store L (L.kv.scan o))
Within-scan L F o = record { related = λ t. F.scanned t o }

module _ {A : Type 0} (L : Libs) (F : Frame L) where
  pub Within-pure : (a : A) → Within L F (pure a)
  Within-pure a = record { related = F.same }

  pub Within-lift : (o : Outcome A) → Within L F (lift o)
  Within-lift o = record { related = F.same }

  pub Within-raise : (e : GoError) → Within L F {A = A} (raise e)
  Within-raise e = record { related = F.same }

  pub Within-on_vm : (f : L.js.Vm → Outcome A × L.js.Vm) → Within L F (on_vm L f)
  Within-on_vm f = record { related = λ t. F.machine t (f (L.holding t.store t.vm)).1 }

  pub Within-wrapping :
      (c : Code) (msg : Str) (m : Exec (Txn L) A) → Within L F m → Within L F (wrapping L c msg m)
  Within-wrapping c msg m h = record { related = λ t. go t (m t) (h.related t) }
    where
      go :
          (t : Txn L) (o : Outcome A × Txn L)
          → F.Rel t o.1
          → F.Rel t (map_error (λ e. wrap_error L.marshal e c msg) o).1
      go t (ok a, s) h = h
      go t (fail x, s) h = h
      go t (panic, s) h = h

  pub Within-attempt : (m : Exec (Txn L) A) → Within L F m → Within L F (attempt L m)
  Within-attempt m h = record { related = λ t. go t (m t) (h.related t) }
    where
      go : (t : Txn L) (o : Outcome A × Txn L) → F.Rel t o.1 → F.Rel t (passed_over o).1
      go t (ok a, s) h = h
      go t (fail x, s) h = h
      go t (panic, s) h = h

  pub Within-if :
      (b : Bool) (m n : Exec (Txn L) A)
      → Within L F m
      → Within L F n
      → Within L F (if b then m else n)
  Within-if true m n hm hn = hm
  Within-if false m n hm hn = hn

module _ {A B : Type 0} (L : Libs) (F : Frame L) where
  pub Within-elim :
      (o : Option A) (m : Exec (Txn L) B) (f : A → Exec (Txn L) B)
      → Within L F m
      → ((a : A) → Within L F (f a))
      → Within L F (elim o [ none ↦ m | some a ↦ f a ])
  Within-elim none m f hm hf = hm
  Within-elim (some a) m f hm hf = hf a

  pub Within-bind :
      (m : Exec (Txn L) A) (f : A → Exec (Txn L) B)
      → Within L F m
      → ((a : A) → Within L F (f a))
      → Within L F (m >>= f)
  Within-bind m f hm hf = record { related = λ t. go t (m t) (hm.related t) }
    where
      go : (t : Txn L) (o : Outcome A × Txn L) → F.Rel t o.1 → F.Rel t (continue f o).1
      go t (ok a, s) h = F.and_then t s (f a s).1 h ((hf a).related s)
      go t (fail x, s) h = h
      go t (panic, s) h = h

  -- What comes after an operation that never returns a result is not reached.
  pub Within-refused :
      (m : Exec (Txn L) A) (f : A → Exec (Txn L) B)
      → Within L F m
      → ((t u : Txn L) (a : A) → m t ≡ (ok a, u) → ⊥)
      → Within L F (m >>= f)
  Within-refused m f hm never = record { related = λ t. go t (m t) refl (hm.related t) }
    where
      go : (t : Txn L) (o : Outcome A × Txn L) → m t ≡ o → F.Rel t o.1 → F.Rel t (continue f o).1
      go t (ok a, s) e h = absurd (never t s a e)
      go t (fail x, s) e h = h
      go t (panic, s) e h = h
