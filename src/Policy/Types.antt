-- ===== src/Policy/Types.antt =====
-- The data that the policy engine works on: src/core/types.ts and the types of
-- src/core/policy/schema.ts, engine.ts and dialect.ts.
use signbox.Prelude.{ℕ, ◌≡◌, Bool, Option, List, Any}
use signbox.Prelude.Text.{Text}
use signbox.Prelude.Outcome.{Outcome}
use signbox.Errors.{Thrown}
use signbox.Asset.{AssetAmount}
use signbox.Value.{Value, Fields}

-- types.ts

pub record ChainContext : Type 0 where
  pub chain : Text
  pub network : Text
  pub chain_id : Text

pub record Authorization : Type 0 where
  pub account_identifier : Text
  pub permission : Text

pub record DecodedAction : Type 0 where
  pub contract : Text
  pub action : Text
  pub authorization : List Authorization
  pub payload : Fields

pub record DecodedTransaction : Type 0 where
  pub context : ChainContext
  pub actions : List DecodedAction

pub data DenyCode : Type 0 where
  schema_invalid chain_mismatch empty_transaction multi_authorization authorization_mismatch :
      DenyCode
  rule_deny default_deny too_many_actions limit_exceeded ambiguous : DenyCode
  policy_unavailable no_provider agent_disabled unauthenticated request_expired : DenyCode
  nonce_reused quota_unavailable capability_denied broadcast_unavailable internal_error : DenyCode

-- The engine's decision; the fixed text of a refusal, which goes with its code, is left out.
pub data Decision : Type 0 where
  allow : (rule_ids : List Text) (policy_version : ℕ) → Decision
  deny : (code : DenyCode) (policy_version : ℕ) → Decision

-- schema.ts

pub data MatchValue : Type 0 where
  is eq lte gte : Text → MatchValue
  one_of none_of : List Text → MatchValue

pub data ProviderOp : Type 0 where
  contains equals : ProviderOp

pub record ProviderArgs : Type 0 where
  pub contract : Text
  pub scope : Option Text
  pub table : Text
  pub key : Text

pub record TableRowProvider : Type 0 where
  pub provider : Text
  pub args : ProviderArgs
  pub select : Text
  pub op : ProviderOp
  pub value : Text

pub record RuleLimits : Type 0 where
  pub max_per_transaction : Option Text
  pub max_per_hour : Option Text
  pub max_per_day : Option Text
  pub cooldown_per_recipient_ms : Option ℕ
  pub max_count_per_hour : Option ℕ
  pub max_count_per_day : Option ℕ
  pub max_count_per_recipient_per_hour : Option ℕ

pub data Effect : Type 0 where
  allows denies : Effect

-- `match` holds the object's entries in their order; no `providers` is the empty list, which the
-- engine treats alike and the schema does not let through.
pub record PolicyRule : Type 0 where
  pub id : Text
  pub effect : Effect
  pub matches : List (Text × MatchValue)
  pub limits : Option RuleLimits
  pub providers : List TableRowProvider

abbrev pub Member : PolicyRule → List PolicyRule → Type 0
Member r rules = Any (λ x. x ≡ r) rules

-- No two rules of the list share an id, as `validatePolicy` requires.
abbrev pub HasUniqueIds : List PolicyRule → Type 0
HasUniqueIds rules = (r s : PolicyRule) → Member r rules → Member s rules → r.id ≡ s.id → r ≡ s

-- `schemaVersion: 1` and `default: "deny"` are constants of the document.
pub record Policy : Type 0 where
  pub chain_name : Text
  pub chain_id : Text
  pub rules : List PolicyRule
  pub max_actions_per_transaction : Option ℕ

-- engine.ts

pub record QueryArgs : Type 0 where
  pub contract : Text
  pub scope : Text
  pub table : Text
  pub key : Text

pub record ProviderQuery : Type 0 where
  pub query_key : Text
  pub provider : Text
  pub args : QueryArgs

-- `found` with its row; a query that found no row; a query that could not be resolved.
pub data ProviderEvidence : Type 0 where
  row_found : Fields → ProviderEvidence
  no_row : ProviderEvidence
  unresolved : ProviderEvidence

pub record QuotaDemand : Type 0 where
  pub rule_id : Text
  pub amount : AssetAmount
  pub recipient : Option Text
  pub max_per_hour : Option AssetAmount
  pub max_per_day : Option AssetAmount
  pub cooldown_per_recipient_ms : Option ℕ
  pub max_count_per_hour : Option ℕ
  pub max_count_per_day : Option ℕ
  pub max_count_per_recipient_per_hour : Option ℕ

pub record EvaluationResult : Type 0 where
  pub decision : Decision
  pub quota_demands : List QuotaDemand

-- dialect.ts: the chain's vocabulary. The three patterns are the tests that they stand for. The
-- relay that `resolve_provider_query` reads through is a function that may reject.

abbrev pub Relay : Type 0
Relay = Text → Value → Outcome Thrown Value

pub record PolicyDialect : Type 0 where
  pub is_match_path : Text → Bool
  pub is_select_field : Text → Bool
  pub is_chain_id : Text → Bool
  pub provider_namespace : Text
  pub resolve_path : DecodedAction → Text → Outcome Thrown Value
  pub asset_of : DecodedAction → Outcome Thrown AssetAmount
  pub recipient_of : DecodedAction → Option Text
  pub parse_asset_limit : Text → Outcome Thrown AssetAmount
  pub resolve_provider_query : ProviderQuery → Relay → Outcome Thrown ProviderEvidence

pub record EvaluationContext : Type 0 where
  pub agent : Text
  pub agent_permission : Text
  pub chain_id : Text
  pub policy_version : ℕ
  pub dialect : PolicyDialect
  pub evidence : List (Text × ProviderEvidence)
