-- ===== src/Results/Having.antt =====
-- docsHaving of tx.go, with RemoveElement of util/util.go, which moves the elements of the array that
-- the loop ranges over.
use gokvkit.Prelude.{
  ℕ, zero, suc, ◌+◌, ◌-◌, ◌≤◌, ◌≡◌, refl, ap, Bool, true, false, List, [], ◌∷◌, ◌++◌, length,
  length-append, take, drop, ltb, if◌then◌else◌, Option, none, some, arith, All, All-take, All-drop,
  All-append, Bool-cases, inl, inr,
}
use gokvkit.Errors.Outcome.{Outcome, ok, panic, ◌>>=◌}

module _ {A : Type 0} where
  abbrev pub at : List A → ℕ → Option A
  at [] i = none
  at (x ∷ xs) zero = some x
  at (x ∷ xs) (suc i) = at xs i

  -- The array after `append(results[:i], results[i+1:]...)`, where `results` is its first `m`
  -- elements: the last of these is now there twice.
  unfoldable pub remove_element : ℕ → ℕ → List A → List A
  remove_element i m xs = take i xs ++ (drop (suc i) (take m xs) ++ drop (m - 1) xs)

  -- `pass` is `document.Where(where)`.
  module _ (pass : A → Outcome Bool) where
    -- The loop over the whole array, `k` rounds from its end; `results[i+1:]` panics past the end of
    -- `results`.
    unfoldable pub having_loop : ℕ → ℕ → ℕ → List A → Outcome (List A)
    having_loop zero i m xs = ok (take m xs)
    having_loop (suc k) i m xs =
        let removed = having_loop k (suc i) (m - 1) (remove_element i m xs) in
        let kept = having_loop k (suc i) m xs in
        elim (at xs i) [
          | none ↦ panic
          | some d ↦ pass d >>= λ p. if p then (if ltb m (suc i) then panic else removed) else kept
        ]

    unfoldable pub docs_having : Bool → List A → Outcome (List A)
    unfolding having_loop
    docs_having has_where results =
        if has_where then having_loop (length results) 0 (length results) results else ok results

    at-All :
        (P : A → Type 0) (xs : List A) (i : ℕ)
        → All P xs
        → suc i ≤ length xs
        → (x : A) × (at xs i ≡ some x) × P x
    at-All P [] i h l = absurd (omega arith)
    at-All P (x ∷ xs) zero h l = (x, refl, h.0)
    at-All P (x ∷ xs) (suc i) h l = at-All P xs i h.1 (omega arith)

    take-all : (xs : List A) → take (length xs) xs ≡ xs
    take-all [] = refl
    take-all (x ∷ xs) = ap (λ ys. x ∷ ys) (take-all xs)

    having_loop-kept :
        (k i : ℕ) (xs : List A)
        → All (λ d. pass d ≡ ok false) xs
        → i + k ≡ length xs
        → having_loop k i (length xs) xs ≡ ok xs
    unfolding having_loop
    having_loop-kept zero i xs h e = ap ok (take-all xs)
    having_loop-kept (suc k) i xs h e =
        let (d, a, p) = at-All (λ d. pass d ≡ ok false) xs i h (omega arith) in
        rw (having_loop, a, p) (having_loop-kept k (suc i) xs h (omega arith))

    -- Documents of which none has what `Having` asks for are all returned.
    docs_having-kept : (xs : List A) → All (λ d. pass d ≡ ok false) xs → docs_having true xs ≡ ok xs
    unfolding docs_having
    docs_having-kept xs h = having_loop-kept (length xs) 0 xs h (omega arith)

    length-take : (n : ℕ) (xs : List A) → n ≤ length xs → length (take n xs) ≡ n
    length-take zero xs h = refl
    length-take (suc n) [] h = absurd (omega arith)
    length-take (suc n) (x ∷ xs) h = omega (arith, length-take n xs)

    length-drop : (n : ℕ) (xs : List A) → length (drop n xs) ≡ length xs - n
    length-drop zero xs = omega arith
    length-drop (suc n) [] = omega arith
    length-drop (suc n) (x ∷ xs) = omega (arith, length-drop n xs)

    remove_element-All :
        (P : A → Type 0) (i m : ℕ) (xs : List A) → All P xs → All P (remove_element i m xs)
    unfolding remove_element
    remove_element-All P i m xs h = All-append P (take i xs) _ (All-take P i xs h) (
        All-append P (drop (suc i) (take m xs)) _
          (All-drop P (suc i) (take m xs) (All-take P m xs h)) (All-drop P (m - 1) xs h))

    length-remove_element :
        (i m : ℕ) (xs : List A)
        → suc i ≤ m
        → m ≤ length xs
        → length (remove_element i m xs) ≡ length xs
    unfolding remove_element
    length-remove_element i m xs h l = omega (
      arith,
      length-append (take i xs) (drop (suc i) (take m xs) ++ drop (m - 1) xs),
      length-append (drop (suc i) (take m xs)) (drop (m - 1) xs),
      length-take i xs,
      length-take m xs,
      length-drop (suc i) (take m xs),
      length-drop (m - 1) xs,
    )

    before : (m : ℕ) → suc m - 1 ≡ m
    before m = omega arith

    having_loop-panic :
        (m i : ℕ) (xs : List A)
        → All (λ d. pass d ≡ ok true) xs
        → m + i ≡ length xs
        → 1 ≤ m
        → 2 ≤ length xs
        → having_loop m i m xs ≡ panic
    unfolding having_loop
    having_loop-panic zero i xs h e l t = absurd (omega arith)
    having_loop-panic (suc m) i xs h e l t =
        let (d, a, p) = at-All (λ d. pass d ≡ ok true) xs i h (omega arith) in
        rw (having_loop, a, p)
          (elim (Bool-cases (ltb (suc m) (suc i))) [
            | inl b ↦ rw b refl
            | inr b ↦
                rw (b, before m)
                  (having_loop-panic m (suc i) (remove_element i (suc m) xs)
                    (remove_element-All (λ d. pass d ≡ ok true) i (suc m) xs h)
                    (ground (arith, length-remove_element i (suc m) xs)) (ground arith)
                    (ground (arith, length-remove_element i (suc m) xs)))
          ])

    -- Two or more documents that all have what `Having` asks for make it panic.
    pub docs_having-panic :
        (x y : A) (zs : List A)
        → All (λ d. pass d ≡ ok true) (x ∷ y ∷ zs)
        → docs_having true (x ∷ y ∷ zs) ≡ panic
    unfolding docs_having
    docs_having-panic x y zs h =
        having_loop-panic (length (x ∷ y ∷ zs)) 0 (x ∷ y ∷ zs) h (omega arith) (omega arith)
          (omega arith)
