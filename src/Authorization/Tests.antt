-- ===== src/Authorization/Tests.antt =====
-- Rules that deny deletes and allow reads: a read is granted, and a delete is refused.
use gokvkit.Prelude.{
  ℕ, ap, sym, ◌∙◌, false, ◌≡◌, refl, str, Str, Bool, true, not, ◌&&◌, ◌||◌, ◌==◌, List, [], ◌∷◌,
  is_empty, keep,
}
use gokvkit.Errors.{Error, foreign}
use gokvkit.Errors.Outcome.{Outcome, ok, fail}
use gokvkit.Model.Value.{Value, boolean}
use gokvkit.Vendor.Js.{Js}
use gokvkit.Model.Query.{query}
use gokvkit.Model.Schema.{AuthzRule, allow, deny}
use gokvkit.Vendor.Samples.{sample_lo, sample_js, truthy}
use gokvkit.Authorization.{
  evaluate_rules, after_deny, check_allow, some_match, run_match, filter_rules, applies,
}
use gokvkit.Authorization.Decision.{
  some_true, IsSettled, Granted, evaluate_rules-decides, evaluate_rules-Granted,
}

abbrev plain : Error → Str
plain e = e.err

abbrev no_deletes : AuthzRule
no_deletes = record { effect = deny; actions = str "delete" ∷ []; match_script = str "true" }

abbrev readers : AuthzRule
readers = record { effect = allow; actions = str "query" ∷ []; match_script = str "true" }

abbrev rules : List AuthzRule
rules = no_deletes ∷ readers ∷ []

reads : evaluate_rules sample_lo sample_js plain [] query rules tt ≡ (ok true, tt)
unfolding evaluate_rules after_deny check_allow some_match run_match filter_rules applies ◌==◌
reads = refl

-- A machine that holds the name of a user: a script names one, and an empty script is an error.
abbrev is_user : Str → Str → Outcome Value × Str
is_user [] vm = (fail (foreign (str "SyntaxError")), vm)
is_user (x ∷ xs) vm = (ok (boolean (vm == (x ∷ xs))), vm)

abbrev user_js : Js
user_js = record {
  Vm = Str;
  Object = Str;
  set = λ name o vm. (ok tt, o);
  run_string = is_user;
  to_boolean = truthy;
}

abbrev for_ann : AuthzRule
for_ann = record { effect = allow; actions = str "query" ∷ []; match_script = str "ann" }

abbrev not_bob : AuthzRule
not_bob = record { effect = deny; actions = str "query" ∷ []; match_script = str "bob" }

-- The script of a rule for another action is never run.
abbrev broken : AuthzRule
broken = record { effect = deny; actions = str "delete" ∷ []; match_script = [] }

abbrev user_rules : List AuthzRule
user_rules = not_bob ∷ broken ∷ for_ann ∷ []

abbrev names_ann : AuthzRule → Bool
names_ann r = str "ann" == r.match_script

abbrev IsAnn : Str → Type 0
IsAnn vm = vm ≡ str "ann"

decides :
    (r : AuthzRule) (x : ℕ) (xs : Str)
    → r.match_script ≡ x ∷ xs
    → IsSettled sample_lo user_js plain [] IsAnn names_ann r
decides r x xs e vm ready =
    (boolean (vm == r.match_script), vm, rw e refl, ap (λ u. u == r.match_script) ready, ready)

not_for_queries : applies sample_lo user_js plain [] deny query broken ≡ false
unfolding applies ◌==◌
not_for_queries = refl

not_allowed : applies sample_lo user_js plain [] allow query broken ≡ false
unfolding applies ◌==◌
not_allowed = refl

evaluate_rules-decides_example :
    (vm : Str) × (evaluate_rules sample_lo user_js plain [] query user_rules (str "ann") ≡ (
      ok (
          not (
            some_true
              (λ r. applies sample_lo user_js plain [] deny query r && names_ann r)
              user_rules)
          && (is_empty (keep (applies sample_lo user_js plain [] allow query) user_rules)
              || some_true
                  (λ r. applies sample_lo user_js plain [] allow query r && names_ann r)
                  user_rules)),
      vm,
    ))
evaluate_rules-decides_example =
    evaluate_rules-decides sample_lo user_js plain [] IsAnn names_ann query user_rules (str "ann")
      refl
      (
        (λ _. decides not_bob 98 (str "ob") refl),
        (
          (λ e. absurd (let f : true ≡ false = sym e ∙ not_for_queries in let n : ⊥ = cc in n)),
          ((λ _. decides for_ann 97 (str "nn") refl), tt),
        ),
      )
      (
        (λ _. decides not_bob 98 (str "ob") refl),
        (
          (λ e. absurd (let f : true ≡ false = sym e ∙ not_allowed in let n : ⊥ = cc in n)),
          ((λ _. decides for_ann 97 (str "nn") refl), tt),
        ),
      )
      refl

evaluate_rules-Granted_example : Granted sample_lo sample_js plain [] query rules
evaluate_rules-Granted_example =
    evaluate_rules-Granted sample_lo sample_js plain [] query rules tt tt reads
