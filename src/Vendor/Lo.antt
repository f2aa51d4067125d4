-- ===== src/Vendor/Lo.antt =====
-- github.com/samber/lo: the slice helpers that the program uses.
use gokvkit.Prelude.{
  ℕ, ◌≡◌, ◌≤◌, Str, Bool, false, List, [], ◌∷◌, ◌||◌, ◌==◌, keep, length, All, Any, take, drop, ◌-◌,
}

abbrev pub elem : List Str → Str → Bool
elem [] x = false
elem (y ∷ ys) x = (y == x) || elem ys x

pub record Lo : Type 1 where
  -- Contains: whether an element is present
  pub contains : List Str → Str → Bool
  pub contains_lem : (xs : List Str) (x : Str) → contains xs x ≡ elem xs x
  -- Uniq: only the first occurrence of each element is kept
  pub uniq : List Str → List Str
  pub uniq-All : (P : Str → Type 0) (xs : List Str) → All P xs → All P (uniq xs)
  pub uniq-Any : (P : Str → Type 0) (xs : List Str) → Any P xs → Any P (uniq xs)
  pub length-uniq-le : (xs : List Str) → length (uniq xs) ≤ length xs
  -- Filter: the elements for which the predicate holds (it is given the position too)
  pub filter : (A : Type 0) → List A → (A → ℕ → Bool) → List A
  pub filter_lem : (A : Type 0) (xs : List A) (p : A → Bool) → filter A xs (λ a i. p a) ≡ keep p xs
  -- Slice: the elements from a position up to another, both cut off at the length
  pub slice : (A : Type 0) → List A → ℕ → ℕ → List A
  pub slice_lem :
      (A : Type 0) (xs : List A) (from to : ℕ)
      → slice A xs from to ≡ take (to - from) (drop from xs)
