-- ===== src/Loading/Maps.antt =====
-- Maps as association lists: what a write keeps of all entries, and of the keys.
use gokvkit.Prelude.{
  ◌≡◌, refl, Str, true, false, ◌==◌, ==_iff, ==_refl, List, [], ◌∷◌, All, without, put, Bool-cases,
  inl, inr, arith,
}
use gokvkit.Configuration.{has_key}

module _ {A : Type 0} where
  All-without :
      (P : Str × A → Type 0) (k : Str) (m : List (Str × A)) → All P m → All P (without k m)
  unfolding without
  All-without P k [] h = tt
  All-without P k ((j, a) ∷ m) (first, rest) = elim (Bool-cases (j == k)) [
    | inl e ↦ rw e (All-without P k m rest)
    | inr e ↦ rw e (first, All-without P k m rest)
  ]

  pub All-put :
      (P : Str × A → Type 0) (k : Str) (a : A) (m : List (Str × A))
      → P (k, a)
      → All P m
      → All P (put k a m)
  unfolding put
  All-put P k a m first rest = (first, All-without P k m rest)

  has_key-without :
      (k j : Str) (m : List (Str × A))
      → (k == j) ≡ false
      → has_key j m ≡ true
      → has_key j (without k m) ≡ true
  unfolding has_key without
  has_key-without k j [] ne h = h
  has_key-without k j ((i, a) ∷ m) ne h = elim (Bool-cases (i == j)) [
    | inl e ↦
        let other : (i == k) ≡ false = ground (arith, ==_iff i j, ==_iff i k, ==_iff k j) in
        rw (other, e) refl
    | inr e ↦
        let rest : has_key j (without k m) ≡ true = has_key-without k j m ne (rw e at h) in
        elim (Bool-cases (i == k)) [ inl s ↦ rw s rest | inr s ↦ rw (s, e) rest ]
  ]

  pub has_key-put_self : (k : Str) (a : A) (m : List (Str × A)) → has_key k (put k a m) ≡ true
  unfolding has_key put
  has_key-put_self k a m = rw (==_refl k) refl

  -- A write takes no key away.
  pub has_key-put :
      (k j : Str) (a : A) (m : List (Str × A)) → has_key j m ≡ true → has_key j (put k a m) ≡ true
  unfolding has_key put
  has_key-put k j a m h = elim (Bool-cases (k == j)) [
    | inl e ↦ rw e refl
    | inr e ↦ rw e (has_key-without k j m e h)
  ]
