-- ===== src/Vendor/Samples.antt =====
-- Implementations of the library records, for the tests and the witnesses.
use gokvkit.Prelude.{
  ◌≡◌, ◌≤◌, refl, Str, Bool, true, false, not, List, [], ◌∷◌, ◌==◌, ==_iff, keep, length, All, Any,
  take, drop, ◌-◌, arith, ◌⊎◌, inl, inr, Bool-cases, sym,
}
use mathlib.Core.Path.{subst}
use gokvkit.Errors.Outcome.{ok}
use gokvkit.Model.Value.{Value, boolean}
use gokvkit.Vendor.Lo.{Lo, elem}
use gokvkit.Vendor.Js.{Js}

abbrev pub uniq : List Str → List Str
uniq [] = []
uniq (x ∷ xs) = x ∷ keep (λ y. not (x == y)) (uniq xs)

module _ {ℓ} {A : Type ℓ} where
  keep-All : (p : A → Bool) (P : A → Type 0) (xs : List A) → All P xs → All P (keep p xs)
  keep-All p P [] h = tt
  keep-All p P (x ∷ xs) h = elim (Bool-cases (p x)) [
    | inl e ↦ rw (e, All) (h.0, keep-All p P xs h.1)
    | inr e ↦ rw (e, All) (keep-All p P xs h.1)
  ]

  length-keep-le : (p : A → Bool) (xs : List A) → length (keep p xs) ≤ length xs
  length-keep-le p [] = omega arith
  length-keep-le p (x ∷ xs) = elim (Bool-cases (p x)) [
    | inl e ↦ rw (e, length) (omega (arith, length-keep-le p xs))
    | inr e ↦ rw (e, length) (omega (arith, length-keep-le p xs))
  ]

  -- An element with `P` is kept, or fails the test.
  keep-Any :
      (p : A → Bool) (P : A → Type 0) (xs : List A)
      → Any P xs
      → Any P (keep p xs) ⊎ ((x : A) × P x × (p x ≡ false))
  keep-Any p P [] h = absurd h
  keep-Any p P (x ∷ xs) (inl h) = elim (Bool-cases (p x)) [
    | inl e ↦ rw (e, Any) (inl (inl h))
    | inr e ↦ inr (x, h, e)
  ]
  keep-Any p P (x ∷ xs) (inr h) = elim (keep-Any p P xs h) [
    | inl there ↦ elim (Bool-cases (p x)) [
      | inl e ↦ rw (e, Any) (inl (inr there))
      | inr e ↦ rw (e, Any) (inl there)
    ]
    | inr other ↦ inr other
  ]

pub uniq-All : (P : Str → Type 0) (xs : List Str) → All P xs → All P (uniq xs)
uniq-All P [] h = tt
uniq-All P (x ∷ xs) h = (h.0, keep-All (λ y. not (x == y)) P (uniq xs) (uniq-All P xs h.1))

pub uniq-Any : (P : Str → Type 0) (xs : List Str) → Any P xs → Any P (uniq xs)
uniq-Any P [] h = absurd h
uniq-Any P (x ∷ xs) (inl h) = inl h
uniq-Any P (x ∷ xs) (inr h) = elim (keep-Any (λ y. not (x == y)) P (uniq xs) (uniq-Any P xs h)) [
  | inl kept ↦ inr kept
  | inr (y, hy, e) ↦ inl (subst P (sym ((==_iff x y).0 (ground arith))) hy)
]

pub length-uniq-le : (xs : List Str) → length (uniq xs) ≤ length xs
length-uniq-le [] = omega arith
length-uniq-le (x ∷ xs) =
    omega (arith, length-uniq-le xs, length-keep-le (λ y. not (x == y)) (uniq xs))

abbrev pub sample_lo : Lo
sample_lo = record {
  contains = elem;
  contains_lem = λ xs x. refl;
  uniq = uniq;
  uniq-All = uniq-All;
  uniq-Any = uniq-Any;
  length-uniq-le = length-uniq-le;
  filter = λ A xs p. keep (λ a. p a 0) xs;
  filter_lem = λ A xs p. refl;
  slice = λ A xs from to. take (to - from) (drop from xs);
  slice_lem = λ A xs from to. refl;
}

-- A machine on which every script but the empty one is true.
abbrev pub truthy : Value → Bool
truthy (boolean b) = b
truthy _ = false

abbrev pub sample_eval : Str → Value
sample_eval [] = boolean false
sample_eval (x ∷ xs) = boolean true

abbrev pub sample_js : Js
sample_js = record {
  Vm = Unit {0};
  Object = Unit {0};
  set = λ name o vm. (ok tt, vm);
  run_string = λ s vm. (ok (sample_eval s), vm);
  to_boolean = truthy;
}
