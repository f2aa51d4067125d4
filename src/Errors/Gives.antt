-- ===== src/Errors/Gives.antt =====
-- What holds of each result of calls that change a state; of an error and a panic nothing is said.
use gokvkit.Prelude.{◌≡◌, refl, subst, Bool, true, false, Option, none, some, if◌then◌else◌}
use gokvkit.Errors.{GoError}
use gokvkit.Errors.Outcome.{Outcome, ok, fail, panic, Ensures, Ensures-mono}
use gokvkit.Errors.Exec.{Exec, continue, map_error, on_error, pure, lift, raise, ◌>>=◌}

pub record Gives {S A : Type 0} (P : A → Type 0) (m : Exec S A) : Type 0 where
  pub ensured : (s : S) → Ensures P (m s).0

module _ {S A : Type 0} where
  pub Gives-any : (m : Exec S A) → Gives (λ a. Unit) m
  Gives-any m = record { ensured = λ s. go (m s).0 }
    where
      go : (o : Outcome A) → Ensures {0, 0} (λ a. Unit) o
      go (ok a) = tt
      go (fail e) = tt
      go panic = tt

  module _ (P : A → Type 0) where
    pub Gives-pure : (a : A) → P a → Gives {S = S} P (pure a)
    Gives-pure a h = record { ensured = λ s. h }

    pub Gives-raise : (e : GoError) → Gives {S = S} P (raise e)
    Gives-raise e = record { ensured = λ s. tt }

    pub Gives-lift : (o : Outcome A) → ((a : A) → o ≡ ok a → P a) → Gives {S = S} P (lift o)
    Gives-lift o h = record { ensured = λ s. go o h }
      where
        go : (o : Outcome A) → ((a : A) → o ≡ ok a → P a) → Ensures P o
        go (ok a) h = h a refl
        go (fail e) h = tt
        go panic h = tt

    pub Gives-on_error : (f : GoError → GoError) (m : Exec S A) → Gives P m → Gives P (on_error f m)
    Gives-on_error f m h = record { ensured = λ s. go (m s) (h.ensured s) }
      where
        go : (o : Outcome A × S) → Ensures P o.0 → Ensures P (map_error f o).0
        go (ok a, s) h = h
        go (fail e, s) h = tt
        go (panic, s) h = tt

    pub Gives-if :
        (b : Bool) (m n : Exec S A)
        → (b ≡ true → Gives P m)
        → (b ≡ false → Gives P n)
        → Gives P (if b then m else n)
    Gives-if true m n hm hn = hm refl
    Gives-if false m n hm hn = hn refl

    pub Gives-result : (m : Exec S A) (s u : S) (a : A) → Gives P m → m s ≡ (ok a, u) → P a
    Gives-result m s u a h e = go (m s) e (h.ensured s)
      where
        go : (o : Outcome A × S) → o ≡ (ok a, u) → Ensures P o.0 → P a
        go (ok b, s) e h = subst P (let same : b ≡ a = cc in same) h
        go (fail x, s) e h = cc
        go (panic, s) e h = cc

  pub Gives-mono : (P Q : A → Type 0) (m : Exec S A) → ((a : A) → P a → Q a) → Gives P m → Gives Q m
  Gives-mono P Q m f h = record { ensured = λ s. Ensures-mono P Q (m s).0 f (h.ensured s) }

module _ {S A B : Type 0} where
  pub Gives-elim :
      (Q : B → Type 0) (o : Option A) (m : Exec S B) (f : A → Exec S B)
      → Gives Q m
      → ((a : A) → o ≡ some a → Gives Q (f a))
      → Gives Q (elim o [ none ↦ m | some a ↦ f a ])
  Gives-elim Q none m f hm hf = hm
  Gives-elim Q (some a) m f hm hf = hf a refl

  pub Gives-bind :
      (P : A → Type 0) (Q : B → Type 0) (m : Exec S A) (f : A → Exec S B)
      → Gives P m
      → ((a : A) → P a → Gives Q (f a))
      → Gives Q (m >>= f)
  Gives-bind P Q m f hm hf = record { ensured = λ s. go (m s) (hm.ensured s) }
    where
      go : (o : Outcome A × S) → Ensures P o.0 → Ensures Q (continue f o).0
      go (ok a, s) h = (hf a h).ensured s
      go (fail e, s) h = tt
      go (panic, s) h = tt

  -- Of the first result nothing is needed.
  pub Gives-after :
      (Q : B → Type 0) (m : Exec S A) (f : A → Exec S B)
      → ((a : A) → Gives Q (f a))
      → Gives Q (m >>= f)
  Gives-after Q m f h = Gives-bind (λ a. Unit) Q m f (Gives-any m) (λ a _. h a)
