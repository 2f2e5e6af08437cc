-- ===== src/Policy/Engine/Evaluate/Loop.antt =====
-- The loops of `evaluate_policy` over the rules and the actions, as relations.
use signbox.Prelude.{
  ◌≡◌, refl, sym, ap, ◌∙◌, subst, ◌⊎◌, inl, inr, true, false, Option, none, some, List, [], ◌∷◌,
  ◌++◌, map, append-nil, append_assoc, arith, All,
}
use signbox.Prelude.Outcome.{ok, Outcome-cases}
use signbox.Policy.Types.{DecodedAction, allows, denies, RuleLimits, PolicyRule, EvaluationContext}
use signbox.Policy.Engine.{rule_matches}
use signbox.Policy.Engine.Limits.{Pending, apply_limits}
use signbox.Policy.Engine.Evaluate.{
  is_denies, is_allows, denied_by, any_denied, governing_rule, allow_actions,
}

module _ (ctx : EvaluationContext) where
  -- No deny rule of the list matches the action, and none throws on it.
  abbrev pub NotDenied : DecodedAction → List PolicyRule → Type 0
  NotDenied action rules = All (λ r. r.effect ≡ denies → rule_matches action r ctx ≡ ok false) rules

  -- The rule is the first allow rule of the list that matches the action.
  pub data Governs (action : DecodedAction) (rule : PolicyRule) : List PolicyRule → Type 0 where
    first :
        {rules : List PolicyRule}
        → rule.effect ≡ allows
        → rule_matches action rule ctx ≡ ok true
        → Governs action rule (rule ∷ rules)
    later :
        {r : PolicyRule} {rules : List PolicyRule}
        → (r.effect ≡ allows → rule_matches action r ctx ≡ ok false)
        → Governs action rule rules
        → Governs action rule (r ∷ rules)

  denied_by-NotDenied :
      (action : DecodedAction) (rules : List PolicyRule)
      → denied_by action ctx rules ≡ ok false
      → NotDenied action rules
  unfolding denied_by is_denies
  denied_by-NotDenied action [] h = tt
  denied_by-NotDenied action (r ∷ rules) h =
      (λ e. ground arith, denied_by-NotDenied action rules (ground arith))

  pub any_denied-NotDenied :
      (rules : List PolicyRule) (actions : List DecodedAction)
      → any_denied rules ctx actions ≡ ok false
      → All (λ a. NotDenied a rules) actions
  unfolding any_denied
  any_denied-NotDenied rules [] h = tt
  any_denied-NotDenied rules (a ∷ actions) h = (
    denied_by-NotDenied a rules (ground arith),
    any_denied-NotDenied rules actions (ground arith),
  )

  governing_rule-cases :
      (action : DecodedAction) (r : PolicyRule) (rules : List PolicyRule) (rule : PolicyRule)
      → governing_rule action ctx (r ∷ rules) ≡ ok (some rule)
      → ((r ≡ rule) × (r.effect ≡ allows) × (rule_matches action r ctx ≡ ok true))
        ⊎ ((r.effect ≡ allows → rule_matches action r ctx ≡ ok false)
            × (governing_rule action ctx rules ≡ ok (some rule)))
  unfolding governing_rule is_allows
  governing_rule-cases action r rules rule h = ground arith

  governing_rule-Governs :
      (action : DecodedAction) (rules : List PolicyRule) (rule : PolicyRule)
      → governing_rule action ctx rules ≡ ok (some rule)
      → Governs action rule rules
  governing_rule-Governs action [] rule h = absurd (unfold governing_rule in ground arith)
  governing_rule-Governs action (r ∷ rules) rule h =
      elim (governing_rule-cases action r rules rule h) [
        | inl (same, eff, hit) ↦
            subst (λ x. Governs action rule (x ∷ rules)) (sym same)
              (first (subst (λ (x : PolicyRule). x.effect ≡ allows) same eff)
                (subst (λ x. rule_matches action x ctx ≡ ok true) same hit))
        | inr (missed, rest) ↦ later missed (governing_rule-Governs action rules rule rest)
      ]

  -- The actions of the loop, each with the rule that it chose.
  abbrev pub Step : Type 0
  Step = DecodedAction × PolicyRule

  apply_limits-rule_ids :
      (rule : PolicyRule) (action : DecodedAction) (p q : Pending) (l : Option RuleLimits)
      → apply_limits ctx rule action p l ≡ ok q
      → q.rule_ids ≡ p.rule_ids ++ (rule.id ∷ [])
  unfolding apply_limits
  apply_limits-rule_ids rule action p q none h = ground arith
  apply_limits-rule_ids rule action p q (some l) h = ground arith

  -- What one round of the loop did.
  allow_actions-step :
      (rules : List PolicyRule) (p q : Pending) (action : DecodedAction)
      (actions : List DecodedAction)
      → allow_actions rules ctx p (action ∷ actions) ≡ ok (some q)
      → (rule : PolicyRule) × (p' : Pending) × (governing_rule action ctx rules ≡ ok (some rule))
        × (apply_limits ctx rule action p rule.limits ≡ ok p')
        × (allow_actions rules ctx p' actions ≡ ok (some q))
  unfolding allow_actions
  allow_actions-step rules p q action actions h =
      elim (Outcome-cases (governing_rule action ctx rules)) [
        | inl (e, failed) ↦ absurd (ground arith)
        | inr (none, found) ↦ absurd (ground arith)
        | inr (some rule, found) ↦
            elim (Outcome-cases (apply_limits ctx rule action p rule.limits)) [
              | inl (e, failed) ↦ absurd (ground arith)
              | inr (p', limited) ↦ (rule, p', found, limited, ground arith)
            ]
      ]

  -- The loop over the actions as a relation: each action is charged to the rule that governs it.
  pub data Loop (rules : List PolicyRule) : Pending → List Step → Pending → Type 0 where
    done : {p : Pending} → Loop rules p [] p
    round :
        {p p' q : Pending} {a : DecodedAction} {r : PolicyRule} {steps : List Step}
        → Governs a r rules
        → apply_limits ctx r a p r.limits ≡ ok p'
        → Loop rules p' steps q
        → Loop rules p ((a, r) ∷ steps) q

  pub allow_actions-Loop :
      (rules : List PolicyRule) (p q : Pending) (actions : List DecodedAction)
      → allow_actions rules ctx p actions ≡ ok (some q)
      → (steps : List Step) × (map (λ s. s.0) steps ≡ actions) × Loop rules p steps q
  allow_actions-Loop rules p q [] h =
      let same : p ≡ q = unfold allow_actions in ground arith in
      ([], refl, subst (λ x. Loop rules p [] x) same done)
  allow_actions-Loop rules p q (a ∷ actions) h =
      let (rule, p', found, limited, rest) = allow_actions-step rules p q a actions h in
      let (steps, same, loop) = allow_actions-Loop rules p' q actions rest in
      (
        (a, rule) ∷ steps,
        ap (λ rest'. a ∷ rest') same,
        round (governing_rule-Governs a rules rule found) limited loop,
      )

  pub Loop-rule_ids :
      {rules : List PolicyRule} {p q : Pending} {steps : List Step}
      → Loop rules p steps q
      → q.rule_ids ≡ p.rule_ids ++ map (λ (s : Step). s.1.id) steps
  Loop-rule_ids {p} done = sym (append-nil p.rule_ids)
  Loop-rule_ids {p} (round {p'} {a} {r} {steps} g limited loop) =
      Loop-rule_ids loop
      ∙ (rw (apply_limits-rule_ids r a p p' r.limits limited) (append_assoc p.rule_ids _ _))

  pub Loop-Governs :
      {rules : List PolicyRule} {p q : Pending} {steps : List Step}
      → Loop rules p steps q
      → All (λ s. Governs s.0 s.1 rules) steps
  Loop-Governs done = tt
  Loop-Governs (round g limited loop) = (g, Loop-Governs loop)
