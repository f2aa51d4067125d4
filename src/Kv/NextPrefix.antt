-- ===== src/Kv/NextPrefix.antt =====
-- NextPrefix of kv/kvutil/util.go: the end of the range of the keys with a prefix.
use gokvkit.Prelude.{
  ℕ, ◌+◌, ◌%◌, ◌<◌, ◌≤◌, length, ◌≡◌, ◌≢◌, ◌↔◌, refl, Str, Bool, true, false, not, ◌&&◌, [], ◌∷◌,
  arith, ltb, nat_eq, has_prefix, if◌then◌else◌, All,
}

-- The loop, from the last byte to the first: the bytes after it, and whether it was left by `break`.
unfoldable pub increment : Str → Str × Bool
increment [] = ([], false)
increment (x ∷ xs) =
    let (rest, stopped) = increment xs in
    let y : ℕ = (x + 1) % 256 in if stopped then (x ∷ rest, true) else (y ∷ rest, not (nat_eq y 0))

-- The loop runs off the front of the buffer when it is never left by `break`.
unfoldable pub next_prefix : Str → Str
unfolding increment
next_prefix prefix = let (buf, stopped) = increment prefix in if stopped then buf else []

-- bytes.Compare(a, b) < 0
unfoldable pub bytes_lt : Str → Str → Bool
bytes_lt a [] = false
bytes_lt [] (y ∷ ys) = true
bytes_lt (x ∷ xs) (y ∷ ys) = if ltb x y then true else nat_eq x y && bytes_lt xs ys

abbrev pub AreBytes : Str → Type 0
AreBytes = All (λ b. b < 256)

abbrev below : Str × Bool → Str → Bool
below (buf, stopped) k = if stopped then bytes_lt k buf else true

-- A loop that is not left by `break` leaves zeros only, which no key as long is below.
bytes_lt-zeros :
    (p k : Str) → (increment p).1 ≡ false → length p ≤ length k → bytes_lt k (increment p).0 ≡ false
unfolding bytes_lt increment
bytes_lt-zeros [] k e h = refl
bytes_lt-zeros (x ∷ p) [] e h = absurd (omega arith)
bytes_lt-zeros (x ∷ p) (y ∷ k) e h = ground (arith, bytes_lt-zeros p k)

has_prefix-range :
    (p k : Str)
    → AreBytes p
    → AreBytes k
    → length p ≤ length k
    → has_prefix k p ≡ (not (bytes_lt k p) && below (increment p) k)
unfolding has_prefix bytes_lt increment
has_prefix-range [] k bp bk h = refl
has_prefix-range (x ∷ p) [] bp bk h = absurd (omega arith)
has_prefix-range (x ∷ p) (y ∷ k) bp bk h =
    ground (arith, has_prefix-range p k bp.1 bk.1, bytes_lt-zeros p k, bp.0, bk.0)

has_prefix-length : (p k : Str) → has_prefix k p ≡ true → length p ≤ length k
unfolding has_prefix
has_prefix-length [] k e = omega arith
has_prefix-length (x ∷ p) [] e = cc
has_prefix-length (x ∷ p) (y ∷ k) e = ground (arith, has_prefix-length p k)

stopped-ne-nil : (p : Str) → (increment p).1 ≡ true → (increment p).0 ≢ []
unfolding increment
stopped-ne-nil [] e = ground arith
stopped-ne-nil (x ∷ p) e = ground arith

-- If the result is not empty, every byte string with the prefix lies from the prefix up to, and
-- without, the result; and of the byte strings at least as long as the prefix, only those do.
pub next_prefix-range :
    (p k : Str)
    → AreBytes p
    → AreBytes k
    → next_prefix p ≢ []
    → (has_prefix k p ≡ true)
      ↔ ((length p ≤ length k) × ((not (bytes_lt k p) && bytes_lt k (next_prefix p)) ≡ true))
unfolding next_prefix
next_prefix-range p k bp bk ne = (
  (λ e. let l = has_prefix-length p k e in (l, ground (arith, has_prefix-range p k bp bk l))),
  (λ (l, e). ground (arith, has_prefix-range p k bp bk l)),
)

all_255 : (p : Str) → AreBytes p → (increment p).1 ≡ false → All (λ b. b ≡ 255) p
unfolding increment
all_255 [] bp e = tt
all_255 (x ∷ p) bp e = (ground (arith, bp.0), all_255 p bp.1 (ground arith))

-- If the result is empty, every byte of the prefix is 255, and a byte string at least as long has
-- the prefix exactly if it is not below the prefix.
next_prefix-unbounded :
    (p k : Str)
    → AreBytes p
    → AreBytes k
    → next_prefix p ≡ []
    → length p ≤ length k
    → All (λ b. b ≡ 255) p × (has_prefix k p ≡ not (bytes_lt k p))
unfolding next_prefix
next_prefix-unbounded p k bp bk e h = (
  all_255 p bp (ground (arith, stopped-ne-nil p)),
  ground (arith, has_prefix-range p k bp bk h, stopped-ne-nil p),
)
