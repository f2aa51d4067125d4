-- ===== src/Authorization/Decision.antt =====
-- The decision that the rules come to.
use gokvkit.Prelude.{
  Str, Bool, true, false, not, ◌&&◌, ◌||◌, List, [], ◌∷◌, ◌++◌, is_empty, ◌≡◌, refl, arith,
  Bool-cases, keep, keep-nil, Any-keep, All-keep, ap, subst, sym, inl, inr, All, Any, ◌⊎◌,
}
use gokvkit.Errors.{Error}
use gokvkit.Errors.Outcome.{Outcome, ok, fail, panic, Ensures, Ensures-mono, Ensures-ok}
use gokvkit.Errors.Exec.{continue}
use gokvkit.Model.Value.{Value}
use gokvkit.Model.Query.{Action}
use gokvkit.Model.Schema.{AuthzRule, AuthzEffect, allow, deny}
use gokvkit.Vendor.Lo.{Lo}
use gokvkit.Vendor.Js.{Js}
use gokvkit.Authorization.{
  applies, has_empty_action, filter_rules, run_match, some_match, check_allow, after_deny,
  evaluate_rules,
}

abbrev pub some_true : (AuthzRule → Bool) → List AuthzRule → Bool
some_true p [] = false
some_true p (r ∷ rs) = p r || some_true p rs

some_true-keep :
    (p q : AuthzRule → Bool) (rs : List AuthzRule)
    → some_true q (keep p rs) ≡ some_true (λ r. p r && q r) rs
some_true-keep p q [] = refl
some_true-keep p q (r ∷ rs) = ground (arith, some_true-keep p q rs)

module _ (lo : Lo) (js : Js) (marshal : Error → Str) (scripts : Str) where
  filter_rules-keep :
      (e : AuthzEffect) (a : Action) (rs : List AuthzRule)
      → has_empty_action rs ≡ false
      → filter_rules lo js marshal scripts e a rs ≡ ok (keep (applies lo js marshal scripts e a) rs)
  unfolding filter_rules
  filter_rules-keep e a rs h =
      rw (h, lo.filter_lem AuthzRule rs (applies lo js marshal scripts e a)) refl

  filter_rules-panic :
      (e : AuthzEffect) (a : Action) (rs : List AuthzRule)
      → has_empty_action rs ≡ true
      → filter_rules lo js marshal scripts e a rs ≡ panic
  unfolding filter_rules
  filter_rules-panic e a rs h = rw h refl

module _ (lo : Lo) (js : Js) (marshal : Error → Str) (scripts : Str) (Ready : js.Vm → Type 0)
    (truth : AuthzRule → Bool) where
  -- On each machine that is ready, the script of a rule comes to its truth value, and leaves a machine
  -- that is ready.
  abbrev pub IsSettled : AuthzRule → Type 0
  IsSettled r =
      (vm : js.Vm)
      → Ready vm
      → (v : Value) × (vm' : js.Vm) × (js.run_string (scripts ++ r.match_script) vm ≡ (ok v, vm'))
        × (js.to_boolean v ≡ truth r)
        × Ready vm'

  -- A rule that is about the action and has the effect.
  abbrev pub concerns : AuthzEffect → Action → AuthzRule → Bool
  concerns = applies lo js marshal scripts

  keep-IsSettled :
      (p : AuthzRule → Bool) (rs : List AuthzRule)
      → All (λ r. p r ≡ true → IsSettled r) rs
      → All IsSettled (keep p rs)
  keep-IsSettled p [] h = tt
  keep-IsSettled p (r ∷ rs) h = elim (Bool-cases (p r)) [
    | inl e ↦ rw (e, All) (h.0 e, keep-IsSettled p rs h.1)
    | inr e ↦ rw (e, All) (keep-IsSettled p rs h.1)
  ]

  -- The loops over rules whose scripts decide
  some_match-decides :
      (rs : List AuthzRule) (vm : js.Vm)
      → All IsSettled rs
      → Ready vm
      → (vm' : js.Vm) × (some_match lo js marshal scripts rs vm ≡ (ok (some_true truth rs), vm'))
        × Ready vm'
  unfolding some_match run_match
  some_match-decides [] vm h ready = (vm, refl, ready)
  some_match-decides (r ∷ rs) vm h ready =
      let (v, vm', e, same, ready') = h.0 vm ready in
      elim (Bool-cases (truth r)) [
        | inl t ↦ (vm', rw (e, same, t) refl, ready')
        | inr f ↦
            let (vm'', e', ready'') = some_match-decides rs vm' h.1 ready' in
            (vm'', rw (e, same, f) e', ready'')
      ]

  check_allow-decides :
      (rs : List AuthzRule) (vm : js.Vm)
      → All IsSettled rs
      → Ready vm
      → (vm' : js.Vm) × (check_allow lo js marshal scripts rs vm
          ≡ (ok (is_empty rs || some_true truth rs), vm'))
        × Ready vm'
  unfolding check_allow
  check_allow-decides [] vm h ready = (vm, refl, ready)
  check_allow-decides (r ∷ rs) vm h ready = some_match-decides (r ∷ rs) vm h ready

  -- Where every rule has an action, the machine is ready, and on each machine that is ready the scripts
  -- of the rules for the action come to their truth values and leave one that is ready: access is
  -- granted exactly if no deny rule for the action is true and, where there are allow rules for the
  -- action, one of them is true.
  pub evaluate_rules-decides :
      (a : Action) (rs : List AuthzRule) (vm : js.Vm)
      → has_empty_action rs ≡ false
      → All (λ r. concerns deny a r ≡ true → IsSettled r) rs
      → All (λ r. concerns allow a r ≡ true → IsSettled r) rs
      → Ready vm
      → (vm' : js.Vm) × (evaluate_rules lo js marshal scripts a rs vm ≡ (
        ok (
            not (some_true (λ r. concerns deny a r && truth r) rs)
            && (is_empty (keep (concerns allow a) rs)
                || some_true (λ r. concerns allow a r && truth r) rs)),
        vm',
      ))
  unfolding evaluate_rules after_deny
  evaluate_rules-decides a rs vm h denies allows ready =
      let (vm1, e1, ready1) =
        some_match-decides (keep (concerns deny a) rs) vm
          (keep-IsSettled (concerns deny a) rs denies) ready in
      let (vm2, e2, ready2) =
        check_allow-decides (keep (concerns allow a) rs) vm1
          (keep-IsSettled (concerns allow a) rs allows) ready1 in
      let d = some_true-keep (concerns deny a) truth rs in
      let deny_kept = filter_rules-keep lo js marshal scripts deny a rs h in
      let allow_kept = filter_rules-keep lo js marshal scripts allow a rs h in
      elim (Bool-cases (some_true (λ r. concerns deny a r && truth r) rs)) [
        | inl e ↦ (vm1, rw (deny_kept, e1) (rw (d, allow_kept, e) refl))
        | inr e ↦ (
          vm2,
          rw (deny_kept, e1)
              (rw (d, allow_kept, e) (rw (e2, some_true-keep (concerns allow a) truth rs) refl)),
        )
      ]

module _ (lo : Lo) (js : Js) (marshal : Error → Str) (scripts : Str) where
  -- Some run of the rule's script came to this truth value.
  abbrev pub Ran : Bool → AuthzRule → Type 0
  Ran b r =
      (before : js.Vm) × (after : js.Vm) × (v : Value) × (js.run_string (scripts ++ r.match_script)
          before
        ≡ (ok v, after))
      × (js.to_boolean v ≡ b)

  abbrev Verdict : Bool → List AuthzRule → Type 0
  Verdict true rs = Any (Ran true) rs
  Verdict false rs = All (Ran false) rs

  verdict_later :
      (r : AuthzRule) (rs : List AuthzRule) (b : Bool)
      → Ran false r
      → Verdict b rs
      → Verdict b (r ∷ rs)
  verdict_later r rs true f v = inr v
  verdict_later r rs false f v = (f, v)

  some_match-Verdict :
      (rs : List AuthzRule) (vm : js.Vm)
      → Ensures (λ b. Verdict b rs) (some_match lo js marshal scripts rs vm).0
  unfolding some_match run_match
  some_match-Verdict [] vm = tt
  some_match-Verdict (r ∷ rs) vm =
      step (js.run_string (scripts ++ r.match_script) vm) refl (some_match-Verdict rs)
    where
      step :
          (o : Outcome Value × js.Vm)
          → js.run_string (scripts ++ r.match_script) vm ≡ o
          → ((vm' : js.Vm)
              → Ensures (λ b. Verdict b rs) (some_match lo js marshal scripts rs vm').0)
          → Ensures (λ b. Verdict b (r ∷ rs)) (some_match lo js marshal scripts (r ∷ rs) vm).0
      step (ok v, vm') e ih = rw e (elim (Bool-cases (js.to_boolean v)) [
        | inl t ↦ rw t (inl (vm, vm', v, e, t))
        | inr f ↦ rw f (
            Ensures-mono (λ b. Verdict b rs) (λ b. Verdict b (r ∷ rs))
              (some_match lo js marshal scripts rs vm').0
              (λ b. verdict_later r rs b (vm, vm', v, e, f)) (ih vm'))
      ])
      step (fail x, vm') e ih = rw e tt
      step (panic, vm') e ih = rw e tt

  abbrev Allowed : Action → List AuthzRule → Type 0
  Allowed a rs =
      All (λ r. applies lo js marshal scripts allow a r ≡ false) rs
      ⊎ Any (λ r. (applies lo js marshal scripts allow a r ≡ true) × Ran true r) rs

  -- What a grant rests on.
  pub record Granted (a : Action) (rs : List AuthzRule) : Type 0 where
    pub actions : has_empty_action rs ≡ false
    pub denied : All (λ r. applies lo js marshal scripts deny a r ≡ true → Ran false r) rs
    pub allowed : Allowed a rs

  check_allow-Allowed :
      (a : Action) (rs xs : List AuthzRule) (vm : js.Vm)
      → keep (applies lo js marshal scripts allow a) rs ≡ xs
      → Ensures (λ b. b ≡ true → Allowed a rs) (check_allow lo js marshal scripts xs vm).0
  unfolding check_allow
  check_allow-Allowed a rs [] vm e =
      λ t. inl (keep-nil (applies lo js marshal scripts allow a) rs e)
  check_allow-Allowed a rs (x ∷ xs) vm e =
      Ensures-mono (λ b. Verdict b (x ∷ xs)) (λ b. b ≡ true → Allowed a rs)
        (some_match lo js marshal scripts (x ∷ xs) vm).0 conclude (some_match-Verdict (x ∷ xs) vm)
    where
      conclude : (b : Bool) → Verdict b (x ∷ xs) → b ≡ true → Allowed a rs
      conclude true v t = inr (
          Any-keep (applies lo js marshal scripts allow a) (Ran true) rs
            (subst (Any (Ran true)) (sym e) v))
      conclude false v t = cc

  after_deny-Granted :
      (a : Action) (rs : List AuthzRule) (o : Outcome Bool × js.Vm)
      → has_empty_action rs ≡ false
      → Ensures (λ b. Verdict b (keep (applies lo js marshal scripts deny a) rs)) o.0
      → Ensures
          (λ b. b ≡ true → Granted a rs)
          (continue (after_deny lo js marshal scripts a rs) o).0
  unfolding after_deny
  after_deny-Granted a rs (ok true, vm') e v = λ t. cc
  after_deny-Granted a rs (ok false, vm') e v =
      rw (filter_rules-keep lo js marshal scripts allow a rs e) (
        Ensures-mono (λ b. b ≡ true → Allowed a rs) (λ b. b ≡ true → Granted a rs)
          (check_allow lo js marshal scripts (keep (applies lo js marshal scripts allow a) rs)
            vm').0
          (λ b h t. record {
            actions = e;
            denied = All-keep (applies lo js marshal scripts deny a) (Ran false) rs v;
            allowed = h t;
          })
          (check_allow-Allowed a rs (keep (applies lo js marshal scripts allow a) rs) vm' refl))
  after_deny-Granted a rs (fail x, vm') e v = tt
  after_deny-Granted a rs (panic, vm') e v = tt

  evaluate_rules-Ensures :
      (a : Action) (rs : List AuthzRule) (vm : js.Vm)
      → Ensures (λ b. b ≡ true → Granted a rs) (evaluate_rules lo js marshal scripts a rs vm).0
  unfolding evaluate_rules
  evaluate_rules-Ensures a rs vm = elim (Bool-cases (has_empty_action rs)) [
    | inl e ↦ rw (filter_rules-panic lo js marshal scripts deny a rs e) tt
    | inr e ↦ rw (filter_rules-keep lo js marshal scripts deny a rs e) (
        after_deny-Granted a rs
          (some_match lo js marshal scripts (keep (applies lo js marshal scripts deny a) rs) vm) e
          (some_match-Verdict (keep (applies lo js marshal scripts deny a) rs) vm))
  ]

  -- Access is granted only if every rule has an action, each deny rule for the action was run and
  -- came out false, and, unless no allow rule is for the action, some allow rule for it was run and
  -- came out true. A script that fails grants nothing.
  pub evaluate_rules-Granted :
      (a : Action) (rs : List AuthzRule) (vm vm' : js.Vm)
      → evaluate_rules lo js marshal scripts a rs vm ≡ (ok true, vm')
      → Granted a rs
  evaluate_rules-Granted a rs vm vm' h =
      Ensures-ok (λ b. b ≡ true → Granted a rs) (evaluate_rules lo js marshal scripts a rs vm).0
        true (ap (λ (p : Outcome Bool × js.Vm). p.0) h) (evaluate_rules-Ensures a rs vm) refl
