-- ===== src/Policy/Engine/Evaluate/Sound.antt =====
-- What an allow decision of `evaluate_policy` rests on, stated without the engine's control flow.
use signbox.Prelude.{
  ℕ, ◌≤◌, ◌≡◌, sym, ◌∙◌, inl, inr, true, false, none, some, List, [], ◌∷◌, map, arith, Option-cases,
  length, every, All,
}
use signbox.Prelude.Text.{Text, text_eq_iff}
use signbox.Prelude.Outcome.{ok, Outcome-cases}
use signbox.Policy.Types.{
  DecodedAction, DecodedTransaction, allow, Policy, EvaluationContext, EvaluationResult,
}
use signbox.Policy.Engine.Limits.{Pending}
use signbox.Policy.Engine.Evaluate.{
  any_denied, allow_actions, within_caps, no_actions_yet, refuse, finish, or_one, is_empty,
  one_authorization, precheck, decide_actions, caught, evaluate_policy,
}
use signbox.Policy.Engine.Evaluate.Loop.{
  NotDenied, any_denied-NotDenied, Governs, Step, allow_actions-Loop, Loop-rule_ids, Loop-Governs,
}

module _ (ctx : EvaluationContext) where
  -- The checks that need no rule all pass.
  pub record IsWellFormed (tx : DecodedTransaction) (policy : Policy) : Type 0 where
    pub policy_chain : policy.chain_id ≡ ctx.chain_id
    pub tx_chain : tx.context.chain_id ≡ ctx.chain_id
    pub some_action : 1 ≤ length tx.actions
    pub single_auth : All (λ (a : DecodedAction). length a.authorization ≡ 1) tx.actions

  one_authorization-All :
      (actions : List DecodedAction)
      → every one_authorization actions ≡ true
      → All (λ (a : DecodedAction). length a.authorization ≡ 1) actions
  unfolding one_authorization
  one_authorization-All [] h = tt
  one_authorization-All (a ∷ actions) h =
      (ground arith, one_authorization-All actions (ground arith))

  is_empty-length : (actions : List DecodedAction) → is_empty actions ≡ false → 1 ≤ length actions
  unfolding is_empty
  is_empty-length [] h = absurd (cc)
  is_empty-length (a ∷ actions) h = omega arith

  pub precheck-IsWellFormed :
      (tx : DecodedTransaction) (policy : Policy)
      → precheck tx policy ctx ≡ none
      → IsWellFormed tx policy
  unfolding precheck
  precheck-IsWellFormed tx policy h = record {
    policy_chain = ground (arith, text_eq_iff policy.chain_id ctx.chain_id);
    tx_chain = ground (arith, text_eq_iff tx.context.chain_id ctx.chain_id);
    some_action = is_empty-length tx.actions (ground arith);
    single_auth = one_authorization-All tx.actions (ground arith);
  }

  -- Everything an allow decision promises, but the caps.
  pub record IsPermitted (tx : DecodedTransaction) (policy : Policy) (ids : List Text)
      : Type 0 where
    pub well_formed : IsWellFormed tx policy
    pub not_denied : All (λ a. NotDenied ctx a policy.rules) tx.actions
    pub few : length tx.actions ≤ or_one policy.max_actions_per_transaction
    pub steps : List (Step ctx)
    pub steps_actions : map (λ s. s.0) steps ≡ tx.actions
    pub steps_ids : map (λ (s : Step ctx). s.1.id) steps ≡ ids
    pub governed : All (λ s. Governs ctx s.0 s.1 policy.rules) steps

  pub decide_actions-allow :
      (tx : DecodedTransaction) (policy : Policy) (r : EvaluationResult) (ids : List Text) (v : ℕ)
      → decide_actions tx policy ctx ≡ ok r
      → r.decision ≡ allow ids v
      → (any_denied policy.rules ctx tx.actions ≡ ok false)
        × (length tx.actions ≤ or_one policy.max_actions_per_transaction)
        × (p : Pending) × (allow_actions policy.rules ctx no_actions_yet tx.actions ≡ ok (some p))
        × (within_caps p.totals ≡ true)
        × (p.rule_ids ≡ ids)
        × (v ≡ ctx.policy_version)
        × (r.quota_demands ≡ p.quota_demands)
  unfolding decide_actions finish refuse
  decide_actions-allow tx policy r ids v h e =
      elim (Outcome-cases (allow_actions policy.rules ctx no_actions_yet tx.actions)) [
        | inl (t, failed) ↦ absurd (ground arith)
        | inr (none, ended) ↦ absurd (ground arith)
        | inr (some p, ended) ↦ (
          ground arith,
          ground arith,
          p,
          ended,
          ground arith,
          ground arith,
          ground arith,
          ground arith,
        )
      ]

-- An allow decision is given only for a transaction on the policy's and the context's chain, with at
-- least one action and one authorization on each; no deny rule matches any action; the actions are
-- no more than the policy's maximum (1 if it names none); and the rule ids are, action by action, the
-- ids of the first allow rule that matches. The version is the context's.
pub evaluate_policy-IsPermitted :
    (ctx : EvaluationContext) (tx : DecodedTransaction) (policy : Policy) (ids : List Text) (v : ℕ)
    → (evaluate_policy tx policy ctx).decision ≡ allow ids v
    → IsPermitted ctx tx policy ids × (v ≡ ctx.policy_version)
unfolding evaluate_policy refuse caught
evaluate_policy-IsPermitted ctx tx policy ids v h = elim (Option-cases (precheck tx policy ctx)) [
  | inr (code, checked) ↦ absurd (ground arith)
  | inl passed ↦ elim (Outcome-cases (decide_actions tx policy ctx)) [
    | inl (t, failed) ↦ absurd (ground arith)
    | inr (r, decided) ↦
        let (undenied, few, p, looped, capped, ids_eq, v_eq, demands) =
          decide_actions-allow ctx tx policy r ids v decided (ground arith) in
        let (steps, steps_eq, loop) =
          allow_actions-Loop ctx policy.rules no_actions_yet p tx.actions looped in
        (
          record {
            well_formed = precheck-IsWellFormed ctx tx policy passed;
            not_denied = any_denied-NotDenied ctx policy.rules tx.actions undenied;
            few = few;
            steps = steps;
            steps_actions = steps_eq;
            steps_ids = sym (Loop-rule_ids ctx loop) ∙ ids_eq;
            governed = Loop-Governs ctx loop;
          },
          v_eq,
        )
  ]
]
