-- ===== src/Policy/Engine/Evaluate.antt =====
-- src/core/policy/engine.ts, `evaluatePolicy`. The early returns are the `deny` results, and what
-- the body throws is mapped to a refusal by its `catch`.
pub mod Loop
pub mod Sound
pub mod Caps
use signbox.Prelude.{
  ℕ, zero, suc, ◌+◌, ◌-◌, ◌*◌, ◌/◌, ◌%◌, ◌^◌, ◌≤◌, ◌<◌, max, String, ◌≡◌, refl, sym, ap, ◌∙◌, subst,
  ◌≡⟨◌⟩◌, ◌∎, fun_ext, ◌≢◌, ◌↔◌, ◌⊎◌, inl, inr, Bool, true, false, not, ◌&&◌, ◌||◌, Option, none,
  some, List, [], ◌∷◌, ◌++◌, map, append-nil, append_assoc, arith, ltb, leb, ◌==◌, if◌then◌else◌,
  ==_iff, leb_iff, &&_iff, Bool-cases, Option-cases, length, take, drop, replicate, length-append,
  length-replicate, take-append-drop, length-drop, keep, any, every, All, Any, All-append, All-map,
  every_iff, any_iff, any-false,
}
use signbox.Prelude.Text.{
  Text, lit, text_eq, text_eq_iff, text_eq_refl, starts_with, includes, split, text_mem, lookup,
  insert, lookup-insert, remove, lookup-remove,
}
use signbox.Prelude.Outcome.{Outcome, ok, err, ◌>>=◌, >>=-eq-ok, Outcome-cases, find_ok}
use signbox.Errors.{
  Thrown, validation, canonicalization, asset, ambiguous_value, provider_unavailable, internal,
}
use signbox.Policy.Types.{
  DecodedAction, DecodedTransaction, DenyCode, chain_mismatch, empty_transaction,
  multi_authorization, rule_deny, default_deny, too_many_actions, limit_exceeded, ambiguous,
  no_provider, internal_error, Decision, allow, deny, Effect, allows, denies, PolicyRule, Policy,
  EvaluationContext, EvaluationResult,
}
use signbox.Policy.Engine.{rule_matches}
use signbox.Policy.Engine.Limits.{Pending, RuleTotal, apply_limits}

pub is_denies : Effect → Bool
is_denies denies = true
is_denies allows = false

pub is_allows : Effect → Bool
is_allows denies = false
is_allows allows = true

-- Does a deny rule match the action? The loop stops at the first that does.
unfoldable pub denied_by : DecodedAction → EvaluationContext → List PolicyRule → Outcome Thrown Bool
unfolding is_denies
denied_by action ctx [] = ok false
denied_by action ctx (rule ∷ rules) = elim (is_denies rule.effect) [
  | false ↦ denied_by action ctx rules
  | true ↦ rule_matches action rule ctx >>= λ hit. elim hit [
    | true ↦ ok true
    | false ↦ denied_by action ctx rules
  ]
]

unfoldable pub any_denied :
    List PolicyRule → EvaluationContext → List DecodedAction → Outcome Thrown Bool
any_denied rules ctx [] = ok false
any_denied rules ctx (action ∷ actions) = denied_by action ctx rules >>= λ hit. elim hit [
  | true ↦ ok true
  | false ↦ any_denied rules ctx actions
]

-- `policy.rules.find((r) => r.effect === "allow" && ruleMatches(action, r, ctx))`.
unfoldable pub governing_rule :
    DecodedAction → EvaluationContext → List PolicyRule → Outcome Thrown (Option PolicyRule)
unfolding is_allows
governing_rule action ctx [] = ok none
governing_rule action ctx (rule ∷ rules) = elim (is_allows rule.effect) [
  | false ↦ governing_rule action ctx rules
  | true ↦ rule_matches action rule ctx >>= λ hit. elim hit [
    | true ↦ ok (some rule)
    | false ↦ governing_rule action ctx rules
  ]
]

-- The loop over the actions; `none` is its DEFAULT_DENY return.
unfoldable pub allow_actions :
    List PolicyRule
    → EvaluationContext
    → Pending
    → List DecodedAction
    → Outcome Thrown (Option Pending)
allow_actions rules ctx p [] = ok (some p)
allow_actions rules ctx p (action ∷ actions) = governing_rule action ctx rules >>= λ found.
    elim found [
      | none ↦ ok none
      | some rule ↦
          apply_limits ctx rule action p rule.limits >>= λ p'. allow_actions rules ctx p' actions
    ]

pub within_caps : List (Text × RuleTotal) → Bool
within_caps [] = true
within_caps ((id, total) ∷ totals) = leb total.units total.cap.units && within_caps totals

abbrev no_actions_yet : Pending
no_actions_yet = record { rule_ids = []; quota_demands = []; totals = [] }

pub refuse : DenyCode → EvaluationContext → EvaluationResult
refuse code ctx = record { decision = deny code ctx.policy_version; quota_demands = [] }

finish : EvaluationContext → Option Pending → EvaluationResult
unfolding refuse within_caps
finish ctx none = refuse default_deny ctx
finish ctx (some p) =
    if within_caps p.totals
    then record { decision = allow p.rule_ids ctx.policy_version; quota_demands = p.quota_demands }
    else refuse limit_exceeded ctx

pub or_one : Option ℕ → ℕ
or_one none = 1
or_one (some n) = n

is_empty {ℓ} : {A : Type ℓ} → List A → Bool
is_empty [] = true
is_empty (_ ∷ _) = false

one_authorization : DecodedAction → Bool
one_authorization action = length action.authorization == 1

-- The checks that need no rule, in order.
unfoldable pub precheck : DecodedTransaction → Policy → EvaluationContext → Option DenyCode
unfolding is_empty one_authorization
precheck tx policy ctx =
    if not (text_eq policy.chain_id ctx.chain_id) || not (text_eq tx.context.chain_id ctx.chain_id)
    then some chain_mismatch
    else if is_empty tx.actions
    then some empty_transaction
    else if not (every one_authorization tx.actions)
    then some multi_authorization
    else none

-- The body of the `try` behind those checks.
unfoldable pub decide_actions :
    DecodedTransaction → Policy → EvaluationContext → Outcome Thrown EvaluationResult
unfolding or_one refuse finish
decide_actions tx policy ctx = any_denied policy.rules ctx tx.actions >>= λ hit.
    if hit
    then ok (refuse rule_deny ctx)
    else if ltb (or_one policy.max_actions_per_transaction) (length tx.actions)
    then ok (refuse too_many_actions ctx)
    else (allow_actions policy.rules ctx no_actions_yet tx.actions >>= λ p. ok (finish ctx p))

pub code_of_throw : Thrown → DenyCode
code_of_throw provider_unavailable = no_provider
code_of_throw ambiguous_value = ambiguous
code_of_throw asset = ambiguous
code_of_throw _ = internal_error

pub caught : EvaluationContext → Outcome Thrown EvaluationResult → EvaluationResult
unfolding code_of_throw refuse
caught ctx (ok r) = r
caught ctx (err e) = refuse (code_of_throw e) ctx

unfoldable pub evaluate_policy : DecodedTransaction → Policy → EvaluationContext → EvaluationResult
unfolding refuse caught
evaluate_policy tx policy ctx = elim (precheck tx policy ctx) [
  | some code ↦ refuse code ctx
  | none ↦ caught ctx (decide_actions tx policy ctx)
]
