-- ===== src/Policy/Tests.antt =====
-- A policy, its stored text and a transaction, run through src/core/policy with the XPR dialect.
use signbox.Policy.Vocabulary.{is_chain_id}
use signbox.Policy.Vocabulary.{is_rule_id}
use signbox.Policy.Vocabulary.{is_match_path}
use signbox.Asset.{parse_asset}
use signbox.Asset.{match_amount}
use signbox.Asset.{parse_symbol}
use signbox.Asset.{is_symbol}
use signbox.Asset.{to_units}
use signbox.Canonical.{canonicalize}
use signbox.Asset.{parse_end}
use signbox.Prelude.{◌≡◌, refl, sym, ◌∙◌, inl, inr, none, some, List, [], ◌∷◌, replicate}
use signbox.Prelude.Text.{Text, lit, text_eq, starts_with, includes, split, lookup, insert}
use signbox.Prelude.Outcome.{ok}
use signbox.Value.{JsNumber, num, str, obj, end, field}
use signbox.Policy.Types.{
  DecodedAction, DecodedTransaction, allow, MatchValue, allows, PolicyRule, Policy,
  EvaluationContext, HasUniqueIds,
}
use signbox.Policy.Schema.{validate_policy}
use signbox.Policy.Schema.Valid.{IsValid, validate_policy-IsValid}
use signbox.Policy.Onchain.{Host, verify_stored_policy, IsIntact, verify_stored_policy-IsIntact}
use signbox.Policy.Engine.Evaluate.{evaluate_policy}
use signbox.Policy.Engine.Evaluate.Sound.{IsPermitted, evaluate_policy-IsPermitted}
use signbox.Policy.Engine.Evaluate.Caps.{IsWithinCaps, evaluate_policy-IsWithinCaps}
use signbox.Xpr.Dialect.{xpr_dialect, resolve_path, asset_of}
use signbox.Policy.Engine.Evaluate.{
  precheck, decide_actions, any_denied, denied_by, allow_actions, governing_rule,
}
use signbox.Policy.Engine.{rule_matches}
use signbox.Policy.Predicates.{static_match, predicate_holds}
use signbox.Policy.Engine.Limits.{
  apply_limits, add_units, charge_total, make_demand, parse_optional, per_recipient, same_unit,
  wants_window, window_demands,
}
use signbox.Asset.Decimal.{is_digit, span}
use signbox.Asset.{parse_bare_amount}
use signbox.Value.{get_field}

abbrev zeros : Text
zeros = replicate 64 b'0'

abbrev pay : PolicyRule
pay = record {
  id = lit "pay";
  effect = allows;
  matches = (lit "action", MatchValue.is (lit "transfer")) ∷ [];
  limits = some (record {
    max_per_transaction = some (lit "1.00 XPR");
    max_per_hour = none;
    max_per_day = none;
    cooldown_per_recipient_ms = none;
    max_count_per_hour = none;
    max_count_per_day = none;
    max_count_per_recipient_per_hour = none;
  });
  providers = [];
}

abbrev small_payments : Policy
small_payments = record {
  chain_name = lit "xpr";
  chain_id = zeros;
  rules = pay ∷ [];
  max_actions_per_transaction = some 2;
}

abbrev transfer_of : Text → DecodedAction
transfer_of amount = record {
  contract = lit "token";
  action = lit "transfer";
  authorization = record { account_identifier = lit "ag"; permission = lit "bot" } ∷ [];
  payload = field (lit "to") (str (lit "bob")) (
      field (lit "quantity")
        (obj (
          field (lit "amount") (str amount) (
            field (lit "symbol") (str (lit "XPR"))
              (field (lit "precision") (num (JsNumber.nat 2)) end))))
        end);
}

abbrev tx_of : List DecodedAction → DecodedTransaction
tx_of actions = record {
  context = record { chain = lit "xpr"; network = lit "mainnet"; chain_id = zeros };
  actions = actions;
}

abbrev ctx : EvaluationContext
ctx = record {
  agent = lit "ag";
  agent_permission = lit "bot";
  chain_id = zeros;
  policy_version = 3;
  dialect = xpr_dialect;
  evidence = [];
}

abbrev halves : DecodedTransaction
halves = tx_of (transfer_of (lit "0.50") ∷ transfer_of (lit "0.50") ∷ [])

allows_halves :
    (evaluate_policy halves small_payments ctx).decision ≡ allow (lit "pay" ∷ lit "pay" ∷ []) 3
unfolding evaluate_policy precheck text_eq decide_actions any_denied denied_by allow_actions
    governing_rule rule_matches static_match resolve_path predicate_holds includes apply_limits
    asset_of get_field parse_bare_amount match_amount is_digit span add_units charge_total
    make_demand parse_optional per_recipient same_unit wants_window window_demands insert lookup
    split starts_with parse_end to_units parse_asset parse_symbol is_symbol
allows_halves = refl

evaluate_policy-IsPermitted_example :
    IsPermitted ctx halves small_payments (lit "pay" ∷ lit "pay" ∷ [])
    × (ctx.policy_version ≡ ctx.policy_version)
evaluate_policy-IsPermitted_example =
    evaluate_policy-IsPermitted ctx halves small_payments (lit "pay" ∷ lit "pay" ∷ [])
      ctx.policy_version allows_halves

one_rule : HasUniqueIds small_payments.rules
one_rule r s (inl h) (inl k) e = sym h ∙ k
one_rule r s (inl h) (inr k) e = absurd k
one_rule r s (inr h) k e = absurd h

evaluate_policy-IsWithinCaps_example :
    IsWithinCaps ctx halves small_payments (lit "pay" ∷ lit "pay" ∷ [])
evaluate_policy-IsWithinCaps_example =
    evaluate_policy-IsWithinCaps ctx halves small_payments (lit "pay" ∷ lit "pay" ∷ [])
      ctx.policy_version one_rule allows_halves

-- A host on which the document `{}` reads as the policy, and SHA-256 is the identity.
abbrev host : Host
host = record {
  sha256_hex = λ t. t;
  parse_json = λ t. some (obj end);
  read_policy = λ v. some small_payments;
}

validates : validate_policy host.read_policy xpr_dialect (obj end) ≡ ok small_payments
unfolding validate_policy is_chain_id is_rule_id is_match_path parse_asset match_amount parse_symbol
    is_symbol to_units
validates = refl

validate_policy-IsValid_example : IsValid xpr_dialect small_payments
validate_policy-IsValid_example =
    validate_policy-IsValid host.read_policy xpr_dialect (obj end) small_payments validates

passes_gate : verify_stored_policy host xpr_dialect (lit "{}") (lit "{}") ≡ ok small_payments
unfolding verify_stored_policy text_eq canonicalize validate_policy is_chain_id is_rule_id
    is_match_path parse_asset match_amount parse_symbol is_symbol to_units
passes_gate = refl

verify_stored_policy-IsIntact_example :
    IsIntact host xpr_dialect (lit "{}") (lit "{}") small_payments
verify_stored_policy-IsIntact_example =
    verify_stored_policy-IsIntact host xpr_dialect (lit "{}") (lit "{}") small_payments passes_gate
