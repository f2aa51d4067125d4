-- ===== src/Kv/Tests.antt =====
-- The end of the range of a prefix, at the prefix [1, 255].
use gokvkit.Prelude.{
  Str, ◌≡◌, ◌≢◌, ◌≤◌, ◌↔◌, refl, true, not, ◌&&◌, [], ◌∷◌, length, has_prefix, arith,
}
use gokvkit.Kv.NextPrefix.{next_prefix, increment, bytes_lt, next_prefix-range}

next_prefix_carry : next_prefix (1 ∷ 255 ∷ []) ≡ 2 ∷ 0 ∷ []
unfolding next_prefix increment
next_prefix_carry = refl

nonempty : next_prefix (1 ∷ 255 ∷ []) ≢ []
unfolding next_prefix increment
nonempty e = cc

empty : next_prefix (255 ∷ 255 ∷ []) ≡ []
unfolding next_prefix increment
empty = refl

abbrev prefix : Str
prefix = 1 ∷ 255 ∷ []

abbrev key : Str
key = 1 ∷ 255 ∷ 7 ∷ []

next_prefix-range_example : (has_prefix key prefix ≡ true) ↔ (
    (length prefix ≤ length key)
    × ((not (bytes_lt key prefix) && bytes_lt key (next_prefix prefix)) ≡ true))
next_prefix-range_example =
    next_prefix-range prefix key (omega arith, (omega arith, tt))
      (omega arith, (omega arith, (omega arith, tt))) nonempty
