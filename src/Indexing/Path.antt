-- ===== src/Indexing/Path.antt =====
-- Keys of index entries: the document id is read back from the key, and a scan by the prefix of some
-- values meets the entries that have these values.
use gokvkit.Prelude.{
  ℕ, zero, ◌≡◌, ◌≢◌, refl, sym, ap, subst, ◌∙◌, Str, str, true, false, List, [], ◌∷◌, ◌++◌, arith,
  nat_eq, lookup, Option, none, some, has_prefix, has_prefix-append, All, append_assoc, Bool-cases,
  inl, inr,
}
use gokvkit.Model.Value.{Value, null, text, is_null}
use gokvkit.Model.Schema.{Index}
use gokvkit.Vendor.Cast.{Cast}
use gokvkit.Indexing.{
  Values, IndexPathPrefix, join, split, prepend, last_segment, append, seek, path, append_found,
  append_fields, seek_prefix, encode_index_value,
}

abbrev pub NoZero : Str → Type 0
NoZero = All (λ b. nat_eq b 0 ≡ false)

split-ne-nil : (s : Str) → split s ≢ []
unfolding split
split-ne-nil [] e = cc
split-ne-nil (c ∷ s) e = ground (arith, split-ne-nil s)

prepend-append : (c : ℕ) (xs ys : List Str) → xs ≢ [] → prepend c (xs ++ ys) ≡ prepend c xs ++ ys
unfolding prepend
prepend-append c [] ys h = absurd (h refl)
prepend-append c (x ∷ xs) ys h = refl

-- A separator splits the text there.
split-append : (a b : Str) → split (a ++ zero ∷ b) ≡ split a ++ split b
unfolding split
split-append [] b = refl
split-append (c ∷ a) b = elim (Bool-cases (nat_eq c 0)) [
  | inl e ↦ rw (e, split-append a b) refl
  | inr e ↦ rw (e, split-append a b) (prepend-append c (split a) (split b) (split-ne-nil a))
]

last_segment-append : (xs ys : List Str) → ys ≢ [] → last_segment (xs ++ ys) ≡ last_segment ys
unfolding last_segment
last_segment-append [] ys h = refl
last_segment-append (x ∷ []) [] h = absurd (h refl)
last_segment-append (x ∷ []) (y ∷ ys) h = refl
last_segment-append (x ∷ z ∷ xs) ys h = last_segment-append (z ∷ xs) ys h

split-NoZero : (s : Str) → NoZero s → split s ≡ s ∷ []
unfolding split
split-NoZero [] h = refl
split-NoZero (c ∷ s) h = rw (h.0, split-NoZero s h.1) refl

join-snoc :
    (x : Str) (xs : List Str) (s : Str) → join (x ∷ xs ++ s ∷ []) ≡ join (x ∷ xs) ++ zero ∷ s
unfolding join
join-snoc x [] s = refl
join-snoc x (y ∷ xs) s =
    rw (join-snoc y xs s) (sym (append_assoc x (zero ∷ join (y ∷ xs)) (zero ∷ s)))

-- A prefix that `seekPrefix` builds: it has parts, and nothing to seek.
record IsBuilt (p : IndexPathPrefix) : Type 0 where
  first : Str
  others : List Str
  parts : p.prefix ≡ first ∷ others
  unsought : p.seek_value ≡ null

module _ (cast : Cast) where
  append_found-IsBuilt :
      (k : Str) (v : Option Value) (p : IndexPathPrefix)
      → IsBuilt p
      → IsBuilt (append_found cast k v p)
  unfolding append_found append
  append_found-IsBuilt k none p b = b
  append_found-IsBuilt k (some v) p b = record {
    first = b.first;
    others = b.others;
    parts = b.parts;
    unsought = refl;
  }

  append_fields-IsBuilt :
      (ks : List Str) (values : Values) (p : IndexPathPrefix)
      → IsBuilt p
      → IsBuilt (append_fields cast ks values p)
  unfolding append_fields
  append_fields-IsBuilt [] values p b = b
  append_fields-IsBuilt (k ∷ ks) values p b =
      append_fields-IsBuilt ks values (append_found cast k (lookup k values) p)
        (append_found-IsBuilt k (lookup k values) p b)

  path-IsBuilt : (p : IndexPathPrefix) → IsBuilt p → path cast p ≡ join (p.prefix ++ p.fields)
  unfolding path
  path-IsBuilt p b = rw (ap is_null b.unsought) refl

  path-seek :
      (p : IndexPathPrefix) (v : Value)
      → IsBuilt p
      → is_null v ≡ false
      → path cast (seek v p) ≡ path cast p ++ zero ∷ encode_index_value cast v
  path-seek p v b h =
      sought
      ∙ ap (λ xs. join (xs ++ encode_index_value cast v ∷ [])) (ap (λ xs. xs ++ p.fields) b.parts)
      ∙ join-snoc b.first (b.others ++ p.fields) (encode_index_value cast v)
      ∙ ap (λ xs. join (xs ++ p.fields) ++ zero ∷ encode_index_value cast v) (sym b.parts)
      ∙ ap (λ t. t ++ zero ∷ encode_index_value cast v) (sym (path-IsBuilt p b))
    where
      sought :
          path cast (seek v p) ≡ join ((p.prefix ++ p.fields) ++ encode_index_value cast v ∷ [])
      sought = unfold path seek in rw h refl

module _ (cast : Cast) (flatten : Values → Values) (namespace collection : Str) where
  seek_prefix-IsBuilt :
      (i : Index) (values : Values)
      → IsBuilt (seek_prefix cast flatten namespace collection i values)
  unfolding seek_prefix
  seek_prefix-IsBuilt i values = append_fields-IsBuilt cast i.fields (flatten values) _ (record {
    first = namespace;
    others = str "index" ∷ collection ∷ i.name ∷ [];
    parts = refl;
    unsought = refl;
  })

  -- The last segment of the key under which a document's id is stored in an index is the id, if the
  -- id holds no zero byte, whatever the names and the values before it hold.
  pub last_segment-seek_prefix :
      (i : Index) (values : Values) (id : Str)
      → NoZero id
      → last_segment (
          split
            (path cast (seek (text id) (seek_prefix cast flatten namespace collection i values))))
        ≡ id
  unfolding encode_index_value last_segment
  last_segment-seek_prefix i values id h =
      let p = seek_prefix cast flatten namespace collection i values in
      rw (path-seek cast p (text id) (seek_prefix-IsBuilt i values) refl) (
        rw split-append (
          rw (split-NoZero id h)
            (last_segment-append (split (path cast p)) (id ∷ []) (λ e. nonempty e))))
    where
      nonempty : id ∷ [] ≡ [] → ⊥
      nonempty e = cc

  -- A scan over the prefix of some values meets the key of every document that was stored with
  -- these values.
  has_prefix-seek_prefix :
      (i : Index) (values : Values) (id : Str)
      → has_prefix
          (path cast (seek (text id) (seek_prefix cast flatten namespace collection i values)))
          (path cast (seek_prefix cast flatten namespace collection i values))
        ≡ true
  has_prefix-seek_prefix i values id =
      rw
        (path-seek cast (seek_prefix cast flatten namespace collection i values) (text id)
          (seek_prefix-IsBuilt i values) refl)
        (has_prefix-append _ _)

  -- The part of the key of a one-field index before the value.
  abbrev head : Index → Str → Str
  head i f = join (namespace ∷ str "index" ∷ collection ∷ i.name ∷ f ∷ [])

  path-seek_prefix :
      (i : Index) (f v : Str) (values : Values)
      → i.fields ≡ f ∷ []
      → lookup f (flatten values) ≡ some (text v)
      → path cast (seek_prefix cast flatten namespace collection i values) ≡ head i f ++ zero ∷ v
  unfolding seek_prefix append_fields append_found append encode_index_value path
  path-seek_prefix i f v values e h =
      simp (e, h) (join-snoc namespace (str "index" ∷ collection ∷ i.name ∷ f ∷ []) v)

  -- In an index of one field, a scan over the prefix of a text meets the key of every document whose
  -- text extends it: a unique index compares a document with all of these.
  has_prefix-overlap :
      (i : Index) (f v w id : Str) (short long : Values)
      → i.fields ≡ f ∷ []
      → lookup f (flatten short) ≡ some (text v)
      → lookup f (flatten long) ≡ some (text (v ++ w))
      → has_prefix
          (path cast (seek (text id) (seek_prefix cast flatten namespace collection i long)))
          (path cast (seek_prefix cast flatten namespace collection i short))
        ≡ true
  has_prefix-overlap i f v w id short long e hs hl =
      rw
        (
          path-seek cast (seek_prefix cast flatten namespace collection i long) (text id)
              (seek_prefix-IsBuilt i long) refl,
          path-seek_prefix i f v short e hs,
          path-seek_prefix i f (v ++ w) long e hl,
        )
        (subst (λ k. has_prefix k (head i f ++ zero ∷ v) ≡ true) regroup
          (has_prefix-append (head i f ++ zero ∷ v)
            (w ++ zero ∷ encode_index_value cast (text id))))
    where
      regroup :
          (head i f ++ zero ∷ v) ++ (w ++ zero ∷ encode_index_value cast (text id))
          ≡ (head i f ++ zero ∷ (v ++ w)) ++ zero ∷ encode_index_value cast (text id)
      regroup = simp append_assoc
