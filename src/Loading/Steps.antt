-- ===== src/Loading/Steps.antt =====
-- What the loop over the properties keeps of the maps that it fills: the invariant of a schema that is
-- being loaded, and the writes of one round.
use gokvkit.Prelude.{
  ◌≡◌, refl, ap, sym, subst, ◌∙◌, Str, str, true, false, List, [], ◌∷◌, ◌++◌, is_empty, All,
  All-mono, none, ◌⊎◌, inl, inr, Bool-cases,
}
use gokvkit.Errors.Runs.{Runs}
use gokvkit.Model.Schema.{Index, zero_index, SchemaProperty}
use gokvkit.Configuration.{has_key}
use gokvkit.Loading.Parts.{
  Loading, is_some, primary_index_at, unique_index_at, put_index, put_named, put_path, put_key,
}
use gokvkit.Loading.Maps.{All-put, has_key-put, has_key-put_self}

-- An index stands under its name; its first field is known; and no other index is primary.
pub record IndexOf (Known : Str → Type 0) (primary : Index) (e : Str × Index) : Type 0 where
  pub named : e.1.name ≡ e.0
  pub field : Str
  pub more : List Str
  pub fields_are : e.1.fields ≡ field ∷ more
  pub known : Known field
  pub only : e.1.primary ≡ true → e.1 ≡ primary

abbrev pub HasPath : Loading → Str → Type 0
HasPath s f = has_key f s.property_paths ≡ true

pub record IsPrimary (s : Loading) : Type 0 where
  pub path : Str
  pub index_is : s.primary_index ≡ primary_index_at path
  pub known : HasPath s path

pub record IsLoaded (s : Loading) : Type 0 where
  pub indexes : All (IndexOf (HasPath s) s.primary_index) s.indexing
  pub primary : (s.primary_index ≡ zero_index) ⊎ IsPrimary s

IndexOf-mono :
    (Known More : Str → Type 0) (i : Index) (m : List (Str × Index))
    → ((f : Str) → Known f → More f)
    → All (IndexOf Known i) m
    → All (IndexOf More i) m
IndexOf-mono Known More i m f h =
    All-mono (IndexOf Known i) (IndexOf More i) m
      (λ e x. record {
        named = x.named;
        field = x.field;
        more = x.more;
        fields_are = x.fields_are;
        known = f x.field x.known;
        only = x.only;
      })
      h

-- An index that is not primary joins the map.
put_index-IndexOf :
    (Known : Str → Type 0) (i : Index) (path : Str) (more : List Str) (s : Loading)
    → i.fields ≡ path ∷ more
    → i.primary ≡ false
    → Known path
    → All (IndexOf Known s.primary_index) s.indexing
    → All (IndexOf Known s.primary_index) (put_index i s).indexing
put_index-IndexOf Known i path more s fields plain known h =
    All-put (IndexOf Known s.primary_index) i.name i s.indexing
      (record {
        named = refl;
        field = path;
        more = more;
        fields_are = fields;
        known = known;
        only = λ e. cc;
      })
      h

module _ (Known : Str → Type 0) (path : Str) (known : Known path) where
  put_named-IndexOf :
      (named : List (Str × List Str)) (s : Loading)
      → All (IndexOf Known s.primary_index) s.indexing
      → All (IndexOf Known s.primary_index) (put_named path named s).indexing
  unfolding put_named
  put_named-IndexOf [] s h = h
  put_named-IndexOf ((name, more) ∷ named) s h =
      let i : Index = record {
        name = name;
        fields = path ∷ more;
        unique = false;
        primary = false;
        foreign_key = none;
      } in
      put_named-IndexOf named (put_index i s)
        (put_index-IndexOf Known i path more s refl refl known h)

-- The other parts of the state stay.
put_named-primary :
    (path : Str) (named : List (Str × List Str)) (s : Loading)
    → (put_named path named s).primary_index ≡ s.primary_index
unfolding put_named
put_named-primary path [] s = refl
put_named-primary path ((name, more) ∷ named) s = put_named-primary path named _

put_named-paths :
    (path : Str) (named : List (Str × List Str)) (s : Loading)
    → (put_named path named s).property_paths ≡ s.property_paths
unfolding put_named
put_named-paths path [] s = refl
put_named-paths path ((name, more) ∷ named) s = put_named-paths path named _

-- The two writes for a property, before its key
pub put_path-IsLoaded :
    (p : SchemaProperty) (named : List (Str × List Str)) (s : Loading)
    → IsLoaded s
    → IsLoaded (put_path p (put_named p.path named s))
      × HasPath (put_path p (put_named p.path named s)) p.path
put_path-IsLoaded p named s l =
    let t = put_path p (put_named p.path named s) in
    let here : HasPath t p.path = has_key-put_self p.path p _ in
    let there : ((f : Str) → HasPath s f → HasPath t f) =
      λ f h. has_key-put p.path f p _ (ap (has_key f) (put_named-paths p.path named s) ∙ h) in
    let same : t.primary_index ≡ s.primary_index = put_named-primary p.path named s in
    let before : All (IndexOf (HasPath t) s.primary_index) s.indexing =
      IndexOf-mono (HasPath s) (HasPath t) s.primary_index s.indexing there l.indexes in
    (
      record {
        indexes =
            subst (λ i. All (IndexOf (HasPath t) i) t.indexing) (sym same)
              (put_named-IndexOf (HasPath t) p.path here named s before);
        primary = elim l.primary [
          | inl e ↦ inl (same ∙ e)
          | inr q ↦
              inr (record {
                path = q.path;
                index_is = same ∙ q.index_is;
                known = there q.path q.known;
              })
        ];
      },
      here,
    )

name-nonempty : (p : Str) → is_empty (p ++ str ".primaryidx") ≡ false
name-nonempty [] = refl
name-nonempty (c ∷ p) = refl

-- Where the primary index has no name yet, none was found.
no_primary :
    (s : Loading) → IsLoaded s → is_empty s.primary_index.name ≡ true → s.primary_index ≡ zero_index
no_primary s l e = elim l.primary [
  | inl z ↦ z
  | inr q ↦
      let t : false ≡ true =
        sym (name-nonempty q.path) ∙ sym (ap (λ (i : Index). is_empty i.name) q.index_is) ∙ e in
      absurd (let n : ⊥ = cc in n)
]

-- The first primary property
put_primary-IsLoaded :
    (path : Str) (s : Loading)
    → IsLoaded s
    → HasPath s path
    → s.primary_index ≡ zero_index
    → IsLoaded
        (record (put_index (primary_index_at path) s) { primary_index = primary_index_at path })
put_primary-IsLoaded path s l known zero = record {
  indexes =
      All-put (IndexOf (HasPath s) (primary_index_at path)) _ (primary_index_at path) s.indexing
        (record {
          named = refl;
          field = path;
          more = [];
          fields_are = refl;
          known = known;
          only = λ e. refl;
        })
        (All-mono (IndexOf (HasPath s) s.primary_index) _ s.indexing
          (λ e x. record {
            named = x.named;
            field = x.field;
            more = x.more;
            fields_are = x.fields_are;
            known = x.known;
            only = λ p. absurd (
                let n : true ≡ false = sym p ∙ ap (λ (i : Index). i.primary) (x.only p ∙ zero) in
                let m : ⊥ = cc in m);
          })
          l.indexes);
  primary = inr (record { path = path; index_is = refl; known = known });
}

put_plain-IsLoaded :
    (i : Index) (path : Str) (s : Loading)
    → i.fields ≡ path ∷ []
    → i.primary ≡ false
    → HasPath s path
    → IsLoaded s
    → IsLoaded (put_index i s)
put_plain-IsLoaded i path s fields plain known l = record {
  indexes = put_index-IndexOf (HasPath s) i path [] s fields plain known l.indexes;
  primary = elim l.primary [
    | inl e ↦ inl e
    | inr q ↦ inr (record { path = q.path; index_is = q.index_is; known = q.known })
  ];
}

pub put_key-IsLoaded :
    (p : SchemaProperty) (s : Loading)
    → IsLoaded s
    → HasPath s p.path
    → Runs s (λ _ u. IsLoaded u) (put_key p)
unfolding put_key
put_key-IsLoaded p s l known = record {
  ran = elim (Bool-cases p.primary) [
    | inl e ↦ elim (Bool-cases (is_empty s.primary_index.name)) [
      | inl n ↦ rw (e, n) (put_primary-IsLoaded p.path s l known (no_primary s l n))
      | inr n ↦ rw (e, n) tt
    ]
    | inr e ↦
        let single = put_plain-IsLoaded (unique_index_at p.path) p.path s refl refl known l in
        elim (Bool-cases p.unique) [
          | inl u ↦
              rw (e, u)
                (put_plain-IsLoaded _ p.path (put_index (unique_index_at p.path) s) refl refl known
                  single)
          | inr u ↦ elim (Bool-cases (is_some p.foreign_key)) [
            | inl f ↦ rw (e, u, f) (put_plain-IsLoaded _ p.path s refl refl known l)
            | inr f ↦ rw (e, u, f) l
          ]
        ]
  ];
}
