-- ===== src/DefaultDb/Streams/HandOver.antt =====
-- What a change stream over that of TiKV hands over.
use gokvkit.Prelude.{
  ◌≡◌, refl, ◌∙◌, Str, str, Bool, true, false, ◌&&◌, ◌||◌, ◌==◌, List, [], ◌∷◌, has_prefix,
  if◌then◌else◌, All, Bool-cases, inl, inr,
}
use gokvkit.Errors.Outcome.{Outcome, ok, fail, panic}
use gokvkit.Errors.Exec.{Exec, continue, pure, ◌>>=◌}
use gokvkit.Model.Query.{Where}
use gokvkit.Document.{new_document_from_bytes, where_clauses}
use gokvkit.Kv.BadgerTx.{Change}
use gokvkit.Kv.Streams.{tikv_stream}
use gokvkit.Transaction.{Context, Cdc}
use gokvkit.DefaultDb.{Env, DbState}
use gokvkit.DefaultDb.Plan.{not_nil}
use gokvkit.DefaultDb.Streams.{may_stream, stream_prefix, change_message, db_change_stream}

module _ {S : Type 0} where
  -- Two loops that go on alike after a call
  continue_same :
      (f g : Exec S (Unit {0})) (o : Outcome Bool × S)
      → ((s : S) → f s ≡ g s)
      → continue {0, 0} (λ contn. if contn then f else pure tt) o
        ≡ continue {0, 0} (λ contn. if contn then g else pure tt) o
  continue_same f g (ok true, s) h = h s
  continue_same f g (ok false, s) h = refl
  continue_same f g (fail e, s) h = refl
  continue_same f g (panic, s) h = refl

  -- Change records are handed over until a call wants no more, or fails.
  unfoldable pub hand_over : (Cdc → Exec S Bool) → List Cdc → Exec S (Unit {0})
  hand_over fn [] = pure tt
  hand_over fn (e ∷ es) =
      let rest = hand_over fn es in fn e >>= λ contn. if contn then rest else pure tt

module _ (E : Env) (decode : Str → Change) (ctx : Context) (collection : Str)
    (filter : List Where) where
  open E use {libs}
  open libs.json use {Doc}

  abbrev prefix : Str
  prefix = stream_prefix E ctx

  -- What a payload with the prefix holds: a document, whether the filter accepts it, and its change record
  pub record Held (m : Str) (d : Doc) (b : Bool) (e : Cdc) : Type 0 where
    pub parses : new_document_from_bytes libs.json (decode m).value ≡ ok d
    pub decides : where_clauses libs.lo libs.json libs.cast libs.matches filter d ≡ ok b
    pub decodes : libs.decode_cdc d ≡ ok e

  module _ (doc_of : Str → Doc) (accepts : Str → Bool) (record_of : Str → Cdc) where
    -- Of the payloads with the prefix, the change records of the collection that the filter accepts
    unfoldable pub wanted : List Str → List Cdc
    wanted [] = []
    wanted (m ∷ ms) =
        let rest = wanted ms in
        if has_prefix (decode m).key prefix
          && accepts m
          && (((record_of m).collection == collection) || (collection == str "*"))
        then record_of m ∷ rest
        else rest

    abbrev pub AllHeld : List Str → Type 0
    AllHeld ms =
        All
          (λ (m : Str).
            has_prefix (decode m).key prefix ≡ true → Held m (doc_of m) (accepts m) (record_of m))
          ms

    module _ {S : Type 0} (fn : Cdc → Exec S Bool) where
      abbrev message : Str → Exec S Bool
      message m = change_message E collection filter fn (decode m)

      accepted-message :
          (m : Str) (x : S)
          → Held m (doc_of m) (accepts m) (record_of m)
          → message m x
            ≡ (if accepts m && (((record_of m).collection == collection) || (collection == str "*"))
                  then fn (record_of m)
                  else pure true)
                x
      unfolding change_message not_nil
      accepted-message m x h = elim (Bool-cases (accepts m)) [
        | inl a ↦ rw (h.parses, h.decides, h.decodes, a) refl
        | inr a ↦ rw (h.parses, h.decides, a) refl
      ]

      tikv_stream-hand_over :
          (ms : List Str) (x : S)
          → AllHeld ms
          → tikv_stream decode prefix (change_message E collection filter fn) ms x
            ≡ hand_over fn (wanted ms) x
      unfolding tikv_stream hand_over wanted
      tikv_stream-hand_over [] x h = refl
      tikv_stream-hand_over (m ∷ ms) x (first, others) =
          elim (Bool-cases (has_prefix (decode m).key prefix)) [
            | inl p ↦
                let said = accepted-message m x (first p) in
                elim (Bool-cases (
                  accepts m
                  && (((record_of m).collection == collection) || (collection == str "*")))) [
                    | inl w ↦
                        let done : message m x ≡ fn (record_of m) x = said ∙ rw w refl in
                        rw (p, w, done)
                          (continue_same
                            (tikv_stream decode prefix (change_message E collection filter fn) ms)
                            (hand_over fn (wanted ms)) (fn (record_of m) x)
                            (λ s. tikv_stream-hand_over ms s others))
                    | inr w ↦
                        let done : message m x ≡ (ok true, x) = said ∙ rw w refl in
                        rw (p, w, done) (tikv_stream-hand_over ms x others)
                  ]
            | inr p ↦ rw p (tikv_stream-hand_over ms x others)
          ]

      -- A change stream of the database over that of TiKV, once it is granted, hands over the change
      -- records of the collection that the filter accepts, in the order of their messages, until a
      -- call wants no more or fails. Each message with the prefix of the change records holds one.
      pub db_change_stream-hand_over :
          (ms : List Str) (s : DbState E) (x : S)
          → may_stream E ctx collection filter s ≡ ok tt
          → AllHeld ms
          → db_change_stream E (λ p f. tikv_stream decode p f ms) ctx collection filter fn s x
            ≡ hand_over fn (wanted ms) x
      unfolding db_change_stream
      db_change_stream-hand_over ms s x granted h = rw granted (tikv_stream-hand_over ms x h)
