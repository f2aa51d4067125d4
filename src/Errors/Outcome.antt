-- ===== src/Errors/Outcome.antt =====
-- What a Go call comes to: a result, an error, or a panic. With a state, the changes made before an
-- error stay made.
use gokvkit.Prelude.{◌≡◌, refl}
use mathlib.Core.Path.{subst}
use gokvkit.Errors.{GoError}

pub data Outcome {ℓ} (A : Type ℓ) : Type ℓ where
  ok : A → Outcome A
  fail : GoError → Outcome A
  panic : Outcome A

infixl 5 ◌>>=◌ ◌>>◌
abbrev pub ◌>>=◌ {ℓ κ} : {A : Type ℓ} {B : Type κ} → Outcome A → (A → Outcome B) → Outcome B
ok a >>= f = f a
fail e >>= f = fail e
panic >>= f = panic

abbrev pub ◌>>◌ {ℓ κ} : {A : Type ℓ} {B : Type κ} → Outcome A → Outcome B → Outcome B
m >> n = m >>= λ _. n

pub >>=-eq-ok {ℓ κ} :
    {A : Type ℓ} {B : Type κ} (first : Outcome A) (next : A → Outcome B) {result : B}
    → (first >>= next) ≡ ok result
    → (x : A) × (first ≡ ok x) × (next x ≡ ok result)
>>=-eq-ok (fail e) next h = cc
>>=-eq-ok panic next h = cc
>>=-eq-ok (ok x) next h = (x, refl, h)

-- Any result has the property; an error and a panic have none to give.
abbrev pub Ensures {ℓ κ} : {A : Type ℓ} → (A → Type κ) → Outcome A → Type κ
Ensures P (ok a) = P a
Ensures P _ = Unit

module _ {ℓ κ} {A : Type ℓ} (P : A → Type κ) where
  pub Ensures-ok : (m : Outcome A) (a : A) → m ≡ ok a → Ensures P m → P a
  Ensures-ok m a e h = subst (Ensures P) e h

pub Ensures-mono {ℓ κ ι} :
    {A : Type ℓ} (P : A → Type κ) (Q : A → Type ι) (m : Outcome A)
    → ((a : A) → P a → Q a)
    → Ensures P m
    → Ensures Q m
Ensures-mono P Q (ok a) f h = f a h
Ensures-mono P Q (fail e) f h = tt
Ensures-mono P Q panic f h = tt
