-- ===== src/Errors/Exec.antt =====
-- Go calls that change a state: what was changed before an error or a panic stays changed.
use gokvkit.Prelude.{◌≡◌, refl}
use gokvkit.Errors.{GoError}
use gokvkit.Errors.Outcome.{Outcome, ok, fail, panic}

abbrev pub Exec {ℓ} : Type 0 → Type ℓ → Type ℓ
Exec S A = S → Outcome A × S

module _ {ℓ} {S : Type 0} {A : Type ℓ} where
  abbrev pub pure : A → Exec S A
  pure a s = (ok a, s)

  abbrev pub raise : GoError → Exec S A
  raise e s = (fail e, s)

  abbrev pub lift : Outcome A → Exec S A
  lift r s = (r, s)

  -- `return errors.Wrap(err, ...)`
  abbrev pub map_error : (GoError → GoError) → Outcome A × S → Outcome A × S
  map_error f (ok a, s) = (ok a, s)
  map_error f (fail e, s) = (fail (f e), s)
  map_error f (panic, s) = (panic, s)

  abbrev pub on_error : (GoError → GoError) → Exec S A → Exec S A
  on_error f m s = map_error f (m s)

module _ {ℓ κ} {S : Type 0} {A : Type ℓ} {B : Type κ} where
  abbrev pub continue : (A → Exec S B) → Outcome A × S → Outcome B × S
  continue f (ok a, s) = f a s
  continue f (fail e, s) = (fail e, s)
  continue f (panic, s) = (panic, s)

  infixl 5 ◌>>=◌ ◌>>◌
  abbrev pub ◌>>=◌ : Exec S A → (A → Exec S B) → Exec S B
  ◌>>=◌ m f s = continue f (m s)

  abbrev pub ◌>>◌ : Exec S A → Exec S B → Exec S B
  m >> n = m >>= λ _. n

abbrev pub gets {ℓ} : {S : Type 0} {A : Type ℓ} → (S → A) → Exec S A
gets f s = (ok (f s), s)

abbrev pub modify : {S : Type 0} → (S → S) → Exec S (Unit {0})
modify f s = (ok tt, f s)

-- A block that returns has returned at each of its steps.
pub >>=-ok {ℓ κ} :
    {S : Type 0} {A : Type ℓ} {B : Type κ} (m : Exec S A) (f : A → Exec S B) {b : B} {s s' : S}
    → (m >>= f) s ≡ (ok b, s')
    → (a : A) × (t : S) × (m s ≡ (ok a, t)) × (f a t ≡ (ok b, s'))
>>=-ok {S} {A} m f {b} {s} {s'} h = go (m s) refl h
  where
    go :
        (o : Outcome A × S)
        → m s ≡ o
        → continue f o ≡ (ok b, s')
        → (a : A) × (t : S) × (m s ≡ (ok a, t)) × (f a t ≡ (ok b, s'))
    go (ok a, t) e h = (a, t, e, h)
    go (fail x, t) e h = cc
    go (panic, t) e h = cc
