-- ===== src/Errors/Runs.antt =====
-- What holds of the result and the state in which a call leaves off, from one state on, if it returns.
use gokvkit.Prelude.{◌≡◌, refl, subst, Bool, true, false, Option, none, some, if◌then◌else◌}
use gokvkit.Errors.{GoError}
use gokvkit.Errors.Outcome.{Outcome, ok, fail, panic}
use gokvkit.Errors.Exec.{Exec, continue, pure, raise, ◌>>=◌}

-- A result has the property; an error and a panic have none to give.
abbrev pub OfResult : {S A : Type 0} → (A → S → Type 0) → Outcome A × S → Type 0
OfResult Q (ok a, u) = Q a u
OfResult Q (_, u) = Unit

pub record Runs {S A : Type 0} (s : S) (Q : A → S → Type 0) (m : Exec S A) : Type 0 where
  pub ran : OfResult Q (m s)

module _ {S A : Type 0} (Q : A → S → Type 0) where
  pub Runs-pure : (s : S) (a : A) → Q a s → Runs s Q (pure a)
  Runs-pure s a h = record { ran = h }

  pub Runs-raise : (s : S) (e : GoError) → Runs s Q (raise e)
  Runs-raise s e = record { ran = tt }

  pub Runs-if :
      (s : S) (b : Bool) (m n : Exec S A)
      → (b ≡ true → Runs s Q m)
      → (b ≡ false → Runs s Q n)
      → Runs s Q (if b then m else n)
  Runs-if s true m n hm hn = hm refl
  Runs-if s false m n hm hn = hn refl

  -- What the states in general are related by
  pub Runs-each : (s : S) (m : Exec S A) → ((a : A) (u : S) → m s ≡ (ok a, u) → Q a u) → Runs s Q m
  Runs-each s m h = record { ran = go (m s) h }
    where
      go : (o : Outcome A × S) → ((a : A) (u : S) → o ≡ (ok a, u) → Q a u) → OfResult Q o
      go (ok a, u) h = h a u refl
      go (fail e, u) h = tt
      go (panic, u) h = tt

  pub Runs-result : (s u : S) (a : A) (m : Exec S A) → Runs s Q m → m s ≡ (ok a, u) → Q a u
  Runs-result s u a m h e = subst (OfResult Q) e h.ran

pub Runs-mono :
    {S A : Type 0} (P Q : A → S → Type 0) (s : S) (m : Exec S A)
    → ((a : A) (u : S) → P a u → Q a u)
    → Runs s P m
    → Runs s Q m
Runs-mono P Q s m f h = Runs-each Q s m λ a u e. f a u (Runs-result P s u a m h e)

module _ {S A B : Type 0} (Q : B → S → Type 0) where
  pub Runs-elim :
      (s : S) (o : Option A) (m : Exec S B) (f : A → Exec S B)
      → Runs s Q m
      → ((a : A) → o ≡ some a → Runs s Q (f a))
      → Runs s Q (elim o [ none ↦ m | some a ↦ f a ])
  Runs-elim s none m f hm hf = hm
  Runs-elim s (some a) m f hm hf = hf a refl

  pub Runs-bind :
      (P : A → S → Type 0) (s : S) (m : Exec S A) (f : A → Exec S B)
      → Runs s P m
      → ((a : A) (u : S) → P a u → Runs u Q (f a))
      → Runs s Q (m >>= f)
  Runs-bind P s m f hm hf = record { ran = go (m s) hm.ran }
    where
      go : (o : Outcome A × S) → OfResult P o → OfResult Q (continue f o)
      go (ok a, u) h = (hf a u h).ran
      go (fail e, u) h = tt
      go (panic, u) h = tt

  -- Of the first result nothing is needed.
  pub Runs-after :
      (s : S) (m : Exec S A) (f : A → Exec S B)
      → ((a : A) (u : S) → Runs u Q (f a))
      → Runs s Q (m >>= f)
  Runs-after s m f h =
      Runs-bind (λ a u. Unit) s m f (Runs-each (λ a u. Unit) s m (λ a u e. tt)) (λ a u _. h a u)

-- A call returns a result.
abbrev pub Returns : {S A : Type 0} → S → Exec S A → Type 0
Returns {S} {A} s m = (a : A) × ((m s).0 ≡ ok a)

pub Returns-bind :
    {S A B : Type 0} (s : S) (m : Exec S A) (f : A → Exec S B)
    → Returns s m
    → ((a : A) (u : S) → Returns u (f a))
    → Returns s (m >>= f)
Returns-bind {S} {A} {B} s m f (a, e) h = go (m s) e
  where
    go : (o : Outcome A × S) → o.0 ≡ ok a → (b : B) × ((continue f o).0 ≡ ok b)
    go (ok x, u) e = h x u
    go (fail x, u) e = cc
    go (panic, u) e = cc
