-- ===== src/Loading/Ending.antt =====
-- The parts of the loading of a schema that come to a result or an error whatever the schema is.
use gokvkit.Prelude.{
  ◌≡◌, ◌≢◌, refl, Str, str, Bool, true, false, not, List, [], ◌∷◌, is_empty, inl, inr, ◌⊎◌, Option,
  if◌then◌else◌,
}
use gokvkit.Errors.{GoError}
use gokvkit.Errors.Outcome.{Outcome, ok, fail, panic, ◌>>=◌ as bind}
use gokvkit.Errors.Exec.{Exec, continue, pure, lift, modify, ◌>>=◌, ◌>>◌}
use gokvkit.Model.Value.{Value}
use gokvkit.Model.Schema.{SchemaProperty, ComputedField}
use gokvkit.Loading.Parts.{
  SchemaTools, Loading, Properties, put_named, put_path, put_key, is_some, attempted,
}
use gokvkit.Loading.Walk.{
  load_ref, resolve, finish_property, optional, or_none, property_path, property_of, is_object,
  wrapped,
}
use gokvkit.Loading.{
  check_each, values, load_triggers, all_triggers, load_authz, rest_checked, checked,
}

-- A call comes to a result or an error, and does not run out of its bound.
pub data Ended {A : Type 0} : Outcome A → Type 0 where
  returns : (a : A) → Ended (ok a)
  refuses : (e : GoError) → Ended (fail e)

pub record Ends {A : Type 0} (m : Exec Loading A) : Type 0 where
  pub ended : (s : Loading) → Ended (m s).0

pub Ends-bind :
    {A B : Type 0} (m : Exec Loading A) (f : A → Exec Loading B)
    → Ends m
    → ((a : A) → Ends (f a))
    → Ends (m >>= f)
Ends-bind {A} {B} m f h k = record { ended = λ s. go (m s) (h.ended s) }
  where
    go : (o : Outcome A × Loading) → Ended o.0 → Ended (continue f o).0
    go (ok a, s) e = (k a).ended s
    go (fail x, s) e = refuses x
    go (panic, s) e = elim e [ ]

pub Ends-lift_bind :
    {A B : Type 0} (o : Outcome A) (f : A → Exec Loading B)
    → Ended o
    → ((a : A) → o ≡ ok a → Ends (f a))
    → Ends (lift o >>= f)
Ends-lift_bind (ok a) f h k = record { ended = λ s. (k a refl).ended s }
Ends-lift_bind (fail e) f h k = record { ended = λ s. refuses e }
Ends-lift_bind panic f h k = elim h [ ]

pub Ended-bind :
    {A B : Type 0} (o : Outcome A) (f : A → Outcome B)
    → Ended o
    → ((a : A) → Ended (f a))
    → Ended (bind {0, 0} o f)
Ended-bind (ok a) f h k = k a
Ended-bind (fail e) f h k = refuses e
Ended-bind panic f h k = elim h [ ]

pub Ended-if :
    {A : Type 0} (b : Bool) (m n : Outcome A) → Ended m → Ended n → Ended (if b then m else n)
Ended-if true m n hm hn = hm
Ended-if false m n hm hn = hn

pub Ended-attempted : {A : Type 0} (o : GoError ⊎ A) → Ended (attempted o)
Ended-attempted (inl e) = refuses e
Ended-attempted (inr a) = returns a

pub Ended-ne : {A : Type 0} (o : Outcome A) → Ended o → o ≢ panic
Ended-ne (ok a) h = λ e. cc
Ended-ne (fail x) h = λ e. cc
Ended-ne panic h = elim h [ ]

Ended-pair_if :
    {A : Type 0} (b : Bool) (m n : Outcome A × Loading)
    → Ended m.0
    → Ended n.0
    → Ended ((if b then m else n).0)
Ended-pair_if true m n hm hn = hm
Ended-pair_if false m n hm hn = hn

pub Ends-if :
    {A : Type 0} (b : Bool) (m n : Exec Loading A) → Ends m → Ends n → Ends (if b then m else n)
Ends-if true m n hm hn = hm
Ends-if false m n hm hn = hn

Ends-put_key : (p : SchemaProperty) → Ends (put_key p)
unfolding put_key
Ends-put_key p = record {
  ended = λ s.
      Ended-pair_if p.primary _ _
        (Ended-pair_if (not (is_empty s.primary_index.name)) _ _ (refuses _) (returns tt))
        (Ended-pair_if p.unique _ _ (returns tt)
          (Ended-pair_if (is_some p.foreign_key) _ _ (returns tt) (returns tt)));
}

module _ (T : SchemaTools) where
  open T.gjson use {Result, exists, get, entries}

  pub Ended-wrapped : {A : Type 0} (msg : Str) (o : GoError ⊎ A) → Ended (wrapped T msg o)
  Ended-wrapped msg (inl e) = refuses _
  Ended-wrapped msg (inr a) = returns a

  pub Ended-resolve : (root r : Result) → Ended (resolve T root r)
  unfolding resolve load_ref
  Ended-resolve root r = Ended-if _ _ _ (Ended-if _ _ _ (refuses _) (returns _)) (returns _)

  pub Ended-optional :
      {A : Type 0} (wanted : Bool) (decode : Value → GoError ⊎ A) (msg : Str) (r : Result)
      → Ended (optional T wanted decode msg r)
  unfolding optional
  Ended-optional wanted decode msg r =
      Ended-if _ _ _
        (Ended-bind (wrapped T msg (decode (T.gjson.value r))) _
          (Ended-wrapped msg (decode (T.gjson.value r))) (λ a. returns _))
        (returns _)

  Ends-writes :
      (p : SchemaProperty) (named : List (Str × List Str))
      → Ends (modify (put_named p.path named) >> (modify (put_path p) >> (put_key p >> pure p)))
  Ends-writes p named = record {
    ended = λ s.
        (Ends-bind (put_key p) (λ _. pure p) (Ends-put_key p)
            (λ _. record { ended = λ s. returns _ })).ended
          (put_path p (put_named p.path named s));
  }

  pub Ends-finish_property :
      (root : Result) (key : Str) (r v : Result) (compute : Option ComputedField)
      → Ends (finish_property T root key r v compute)
  unfolding finish_property
  Ends-finish_property root key r v compute =
      Ends-lift_bind
        (optional T (not (is_object T v)) T.decode_foreign
          (str "failed to decode foreignKey on property") (get v (str "x-foreign")))
        _
        (Ended-optional (not (is_object T v)) T.decode_foreign
          (str "failed to decode foreignKey on property") (get v (str "x-foreign")))
        λ foreign _.
          Ends-lift_bind
            (optional T (not (is_object T v)) T.decode_indexes
              (str "failed to decode index on property") (get v (str "x-index")))
            _
            (Ended-optional (not (is_object T v)) T.decode_indexes
              (str "failed to decode index on property") (get v (str "x-index")))
            λ named _.
              Ends-writes (property_of T key (property_path T root r) v compute foreign)
                (or_none T named)

  Ended-check_each :
      {A : Type 0} (check : A → GoError ⊎ Unit {0}) (as_ : List A) → Ended (check_each T check as_)
  unfolding check_each
  Ended-check_each check [] = returns tt
  Ended-check_each check (a ∷ as_) =
      Ended-bind (attempted (check a)) _ (Ended-attempted (check a))
        (λ _. Ended-check_each check as_)

  Ended-load_triggers : (rs : List (Str × Result)) → Ended (load_triggers T rs)
  unfolding load_triggers
  Ended-load_triggers [] = returns []
  Ended-load_triggers ((name, r) ∷ rs) =
      Ended-bind (wrapped T (str "invalid trigger") (T.decode_trigger name (T.gjson.value r))) _
        (Ended-wrapped (str "invalid trigger") (T.decode_trigger name (T.gjson.value r)))
        λ t.
          Ended-bind (wrapped T (str "invalid trigger") (T.valid_trigger t)) _
            (Ended-wrapped (str "invalid trigger") (T.valid_trigger t))
            λ _. Ended-bind (load_triggers T rs) _ (Ended-load_triggers rs) (λ ts. returns _)

  Ended-load_authz : (r : Result) → Ended (load_authz T r)
  unfolding load_authz
  Ended-load_authz r =
      Ended-if _ _ _
        (Ended-bind (wrapped T (str "invalid x-authorization") (T.decode_authz (T.gjson.value r))) _
          (Ended-wrapped (str "invalid x-authorization") (T.decode_authz (T.gjson.value r)))
          λ rules.
            Ended-bind (wrapped T (str "invalid x-authorization") (T.valid_authz rules)) _
              (Ended-wrapped (str "invalid x-authorization") (T.valid_authz rules))
              (λ _. returns rules))
        (returns [])

  pub Ended-checked : (r : Result) (ps : Properties) (s : Loading) → Ended (checked T r ps s)
  unfolding checked all_triggers rest_checked
  Ended-checked r ps s =
      Ended-bind (check_each T T.valid_property (values T s.property_paths)) _
        (Ended-check_each T.valid_property (values T s.property_paths))
        λ _.
          Ended-bind (check_each T T.valid_index (values T s.indexing)) _
            (Ended-check_each T.valid_index (values T s.indexing))
            λ _. Ended-if (is_empty s.primary_index.fields) _ _ (refuses _) (
              Ended-bind (all_triggers T (get r (str "x-triggers"))) _
                (Ended-if _ _ _ (Ended-load_triggers (entries (get r (str "x-triggers"))))
                  (returns []))
                λ triggers. Ended-if _ _ _ (refuses _) (
                  Ended-bind (load_authz T (get r (str "x-authorization"))) _
                    (Ended-load_authz (get r (str "x-authorization"))) (λ rules. returns _)))
