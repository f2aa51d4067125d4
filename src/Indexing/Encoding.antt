-- ===== src/Indexing/Encoding.antt =====
-- The big-endian encoding of numbers: it can be read back, and keeps their order.
use gokvkit.Prelude.{
  ℕ, zero, suc, ◌+◌, ◌*◌, ◌/◌, ◌%◌, ◌^◌, ◌<◌, ◌≡◌, refl, ◌∙◌, Str, [], ◌∷◌, ◌++◌, arith, true,
  false, Bool, length, length-append, if◌then◌else◌, ◌&&◌, ltb, ◌==◌, ==_iff, ==_refl, nat_eq,
  nat_eq_iff, Bool-cases, inl, inr, ap,
}
use native.Mathlib.Nat.{pow-suc}
use gokvkit.Kv.NextPrefix.{bytes_lt}
use gokvkit.Model.Value.{Value, float, integer}
use gokvkit.Vendor.Cast.{Cast}
use gokvkit.Indexing.{big_endian, encode_index_value}

-- binary.BigEndian.Uint64, from the number read so far
abbrev decode : ℕ → Str → ℕ
decode n [] = n
decode n (b ∷ bs) = decode (n * 256 + b) bs

decode-append : (n : ℕ) (xs : Str) (b : ℕ) → decode n (xs ++ b ∷ []) ≡ decode n xs * 256 + b
decode-append n [] b = refl
decode-append n (x ∷ xs) b = decode-append (n * 256 + x) xs b

below_power : (k n : ℕ) → n < 256 ^ suc k → n / 256 < 256 ^ k
below_power k n h = omega (arith, pow-suc 256 k)

-- A number below 256 to the number of bytes is read back from its bytes.
decode-big_endian : (k n : ℕ) → n < 256 ^ k → decode 0 (big_endian k n) ≡ n
unfolding big_endian
decode-big_endian zero n h = omega arith
decode-big_endian (suc k) n h =
    decode-append 0 (big_endian k (n / 256)) (n % 256)
    ∙ omega (arith, decode-big_endian k (n / 256) (below_power k n h))

length-big_endian : (k n : ℕ) → length (big_endian k n) ≡ k
unfolding big_endian
length-big_endian zero n = refl
length-big_endian (suc k) n =
    omega (
      arith,
      length-append (big_endian k (n / 256)) ((n % 256) ∷ []),
      length-big_endian k (n / 256),
    )

bytes_lt-nil : (a : Str) → bytes_lt a [] ≡ false
unfolding bytes_lt
bytes_lt-nil [] = refl
bytes_lt-nil (x ∷ a) = refl

bytes_lt-snoc :
    (xs ys : Str) (c d : ℕ)
    → length xs ≡ length ys
    → bytes_lt (xs ++ c ∷ []) (ys ++ d ∷ [])
      ≡ (if bytes_lt xs ys then true else (xs == ys) && ltb c d)
unfolding bytes_lt ◌==◌
bytes_lt-snoc [] [] c d h = ground arith
bytes_lt-snoc [] (y ∷ ys) c d h = absurd (omega arith)
bytes_lt-snoc (x ∷ xs) [] c d h = absurd (omega arith)
bytes_lt-snoc (x ∷ xs) (y ∷ ys) c d h = ground (arith, bytes_lt-snoc xs ys c d)

eq-big_endian :
    (k a b : ℕ) → a < 256 ^ k → b < 256 ^ k → (big_endian k a == big_endian k b) ≡ nat_eq a b
eq-big_endian k a b ha hb = elim (Bool-cases (nat_eq a b)) [
  | inl e ↦ rw (e, (nat_eq_iff a b).0 e) (==_refl (big_endian k b))
  | inr e ↦ rw e (not_true _ λ t. differ e ((==_iff _ _).0 t))
]
  where
    differ : nat_eq a b ≡ false → big_endian k a ≡ big_endian k b → ⊥
    differ e q =
        ground (arith, e, ap (decode 0) q, decode-big_endian k a ha, decode-big_endian k b hb)

    not_true : (t : Bool) → (t ≡ true → ⊥) → t ≡ false
    not_true true f = absurd (f refl)
    not_true false f = refl

-- Encoded with enough bytes, two numbers compare as their encodings do byte by byte.
bytes_lt-big_endian :
    (k a b : ℕ) → a < 256 ^ k → b < 256 ^ k → bytes_lt (big_endian k a) (big_endian k b) ≡ ltb a b
unfolding big_endian
bytes_lt-big_endian zero a b ha hb = ground (arith, bytes_lt-nil [])
bytes_lt-big_endian (suc k) a b ha hb =
    let ha' = below_power k a ha in
    let hb' = below_power k b hb in
    ground (
      arith,
      bytes_lt-snoc (big_endian k (a / 256)) (big_endian k (b / 256)) (a % 256) (b % 256),
      length-big_endian k (a / 256),
      length-big_endian k (b / 256),
      bytes_lt-big_endian k (a / 256) (b / 256) ha' hb',
      eq-big_endian k (a / 256) (b / 256) ha' hb',
    )

-- A Go number, of an integer or a floating-point type
abbrev pub is_number : Value → Bool
is_number (float n) = true
is_number (integer n) = true
is_number _ = false

encode-number :
    (cast : Cast) (v : Value)
    → is_number v ≡ true
    → encode_index_value cast v ≡ big_endian 8 (cast.to_uint64 v)
unfolding encode_index_value
encode-number cast (float n) h = refl
encode-number cast (integer n) h = refl
encode-number cast _ h = cc

-- The encodings of two numbers as index values compare byte by byte as what cast.ToUint64 makes of the
-- numbers, if that fits 64 bits: numbers which it makes the same have the same key.
pub encode_index_value-order :
    (cast : Cast) (v w : Value)
    → is_number v ≡ true
    → is_number w ≡ true
    → cast.to_uint64 v < 256 ^ 8
    → cast.to_uint64 w < 256 ^ 8
    → (bytes_lt (encode_index_value cast v) (encode_index_value cast w)
        ≡ ltb (cast.to_uint64 v) (cast.to_uint64 w))
      × ((encode_index_value cast v == encode_index_value cast w)
          ≡ nat_eq (cast.to_uint64 v) (cast.to_uint64 w))
encode_index_value-order cast v w nv nw hv hw = (
  rw (encode-number cast v nv, encode-number cast w nw)
      (bytes_lt-big_endian 8 (cast.to_uint64 v) (cast.to_uint64 w) hv hw),
  rw (encode-number cast v nv, encode-number cast w nw)
      (eq-big_endian 8 (cast.to_uint64 v) (cast.to_uint64 w) hv hw),
)
