-- ===== src/Policy/Engine/Limits.antt =====
-- src/core/policy/engine.ts, `evaluatePolicy`: what one governed action adds to the pending result.
pub mod Totals
use signbox.Prelude.{
  ℕ, zero, suc, ◌+◌, ◌-◌, ◌*◌, ◌/◌, ◌%◌, ◌^◌, ◌≤◌, ◌<◌, max, String, ◌≡◌, refl, sym, ap, ◌∙◌, subst,
  ◌≡⟨◌⟩◌, ◌∎, fun_ext, ◌≢◌, ◌↔◌, ◌⊎◌, inl, inr, Bool, true, false, not, ◌&&◌, ◌||◌, Option, none,
  some, List, [], ◌∷◌, ◌++◌, map, append-nil, append_assoc, arith, ltb, leb, ◌==◌, if◌then◌else◌,
  ==_iff, leb_iff, &&_iff, Bool-cases, Option-cases, length, take, drop, replicate, length-append,
  length-replicate, take-append-drop, length-drop, keep, any, every, All, Any, All-append, All-map,
  every_iff, any_iff, any-false,
}
use signbox.Prelude.Text.{
  Text, lit, text_eq, text_eq_iff, text_eq_refl, starts_with, includes, split, text_mem, lookup,
  insert, lookup-insert, remove, lookup-remove,
}
use signbox.Prelude.Outcome.{Outcome, ok, err, ◌>>=◌, >>=-eq-ok, Outcome-cases, find_ok}
use signbox.Errors.{Thrown, ambiguous_value}
use signbox.Asset.{AssetAmount}
use signbox.Policy.Types.{DecodedAction, RuleLimits, PolicyRule, QuotaDemand, EvaluationContext}

-- An entry of `perRuleTotals`.
pub record RuleTotal : Type 0 where
  pub units : ℕ
  pub cap : AssetAmount

-- The variables of the loop over the actions.
pub record Pending : Type 0 where
  pub rule_ids : List Text
  pub quota_demands : List QuotaDemand
  pub totals : List (Text × RuleTotal)

unfoldable pub same_unit : AssetAmount → AssetAmount → Bool
same_unit a b = text_eq a.symbol b.symbol && (a.precision == b.precision)

-- `get(id) ?? { units: 0n, cap }`.
or_new : Option RuleTotal → AssetAmount → RuleTotal
or_new none cap = record { units = 0; cap = cap }
or_new (some entry) cap = entry

unfoldable pub add_units :
    Text → AssetAmount → ℕ → List (Text × RuleTotal) → List (Text × RuleTotal)
unfolding or_new
add_units id cap units totals =
    let entry = or_new (lookup id totals) cap in
    insert id (record { units = entry.units + units; cap = entry.cap }) totals

unfoldable pub charge_total :
    EvaluationContext
    → Text
    → Option Text
    → AssetAmount
    → List (Text × RuleTotal)
    → Outcome Thrown (List (Text × RuleTotal))
charge_total ctx id none asset totals = ok totals
charge_total ctx id (some text) asset totals = ctx.dialect.parse_asset_limit text >>= λ cap.
    if same_unit asset cap then ok (add_units id cap asset.units totals) else err ambiguous_value

is_set {ℓ} : {A : Type ℓ} → Option A → Bool
is_set none = false
is_set (some _) = true

unfoldable pub wants_window : RuleLimits → Bool
unfolding is_set
wants_window l =
    is_set l.max_per_hour
    || is_set l.max_per_day
    || is_set l.cooldown_per_recipient_ms
    || is_set l.max_count_per_hour
    || is_set l.max_count_per_day
    || is_set l.max_count_per_recipient_per_hour

unfoldable pub parse_optional :
    EvaluationContext → Option Text → Outcome Thrown (Option AssetAmount)
parse_optional ctx none = ok none
parse_optional ctx (some text) = do cap ← ctx.dialect.parse_asset_limit text; ok (some cap)

-- A per-recipient limit needs a recipient.
unfoldable pub per_recipient : Option ℕ → Option Text → Outcome Thrown (Option ℕ)
per_recipient none recipient = ok none
per_recipient (some n) none = err ambiguous_value
per_recipient (some n) (some recipient) = ok (some n)

unfoldable pub make_demand :
    EvaluationContext → Text → RuleLimits → AssetAmount → Option Text → Outcome Thrown QuotaDemand
unfolding parse_optional per_recipient
make_demand ctx id l asset recipient = do
  per_hour ← parse_optional ctx l.max_per_hour
  per_day ← parse_optional ctx l.max_per_day
  cooldown ← per_recipient l.cooldown_per_recipient_ms recipient
  count_to_recipient ← per_recipient l.max_count_per_recipient_per_hour recipient
  ok (record {
    rule_id = id;
    amount = asset;
    recipient = recipient;
    max_per_hour = per_hour;
    max_per_day = per_day;
    cooldown_per_recipient_ms = cooldown;
    max_count_per_hour = l.max_count_per_hour;
    max_count_per_day = l.max_count_per_day;
    max_count_per_recipient_per_hour = count_to_recipient;
  })

unfoldable pub window_demands :
    EvaluationContext
    → PolicyRule
    → RuleLimits
    → DecodedAction
    → AssetAmount
    → Outcome Thrown (List QuotaDemand)
unfolding wants_window make_demand
window_demands ctx rule l action asset =
    if wants_window l
    then (do
      demand ← make_demand ctx rule.id l asset (ctx.dialect.recipient_of action)
      ok (demand ∷ []))
    else ok []

unfoldable pub apply_limits :
    EvaluationContext
    → PolicyRule
    → DecodedAction
    → Pending
    → Option RuleLimits
    → Outcome Thrown Pending
apply_limits ctx rule action p none = ok (record p { rule_ids = p.rule_ids ++ (rule.id ∷ []) })
apply_limits ctx rule action p (some l) = do
  asset ← ctx.dialect.asset_of action
  totals ← charge_total ctx rule.id l.max_per_transaction asset p.totals
  demands ← window_demands ctx rule l action asset
  ok (record {
    rule_ids = p.rule_ids ++ (rule.id ∷ []);
    quota_demands = p.quota_demands ++ demands;
    totals = totals;
  })
