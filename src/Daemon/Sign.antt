-- ===== src/Daemon/Sign.antt =====
-- src/daemon/server.ts, `runDecision` from the nonce on, with src/daemon/providerResolver.ts. One
-- request runs at a time. Each stage takes what the one before it gives; a refusal is a response, and
-- what the stages before it changed stays. A provider read that times out counts as one that rejects.
pub mod Reserved
pub mod Stores
pub mod Calls
pub mod Broadcast
pub mod Kept
pub mod Returned
pub mod Described
use signbox.Prelude.{
  ℕ, zero, suc, ◌+◌, ◌-◌, ◌*◌, ◌/◌, ◌%◌, ◌^◌, ◌≤◌, ◌<◌, max, String, ◌≡◌, refl, sym, ap, ◌∙◌, subst,
  ◌≡⟨◌⟩◌, ◌∎, fun_ext, ◌≢◌, ◌↔◌, ◌⊎◌, inl, inr, Bool, true, false, not, ◌&&◌, ◌||◌, Option, none,
  some, List, [], ◌∷◌, ◌++◌, map, append-nil, append_assoc, arith, ltb, leb, ◌==◌, if◌then◌else◌,
  ==_iff, leb_iff, &&_iff, Bool-cases, Option-cases, length, take, drop, replicate, length-append,
  length-replicate, take-append-drop, length-drop, keep, any, every, All, Any, All-append, All-map,
  every_iff, any_iff, any-false,
}
use signbox.Prelude.Text.{
  Text, lit, text_eq, text_eq_iff, text_eq_refl, text_eq_comm, starts_with, includes, split,
  text_mem, lookup, insert, lookup-insert, remove, lookup-remove,
}
use signbox.Prelude.Outcome.{Outcome, ok, err, ◌>>=◌, >>=-eq-ok, Outcome-cases, find_ok}
use signbox.Errors.{Thrown}
use signbox.Value.{Value}
use signbox.Policy.Types.{
  ChainContext, DecodedAction, DecodedTransaction, DenyCode, schema_invalid, chain_mismatch,
  authorization_mismatch, limit_exceeded, policy_unavailable, agent_disabled, nonce_reused,
  quota_unavailable, internal_error, Decision, allow, deny, Policy, PolicyDialect, Relay,
  ProviderQuery, ProviderEvidence, unresolved, QuotaDemand, EvaluationContext, EvaluationResult,
}
use signbox.Policy.Types as Types
use signbox.Policy.Engine.{collect_provider_queries}
use signbox.Policy.Engine.Evaluate.{evaluate_policy}
use signbox.NonceCache.{NonceCache, NonceState, fresh, replayed, full, register}
use signbox.Quota.{Journal, Refusal, limit, cooldown, reserve, release, commit}
use signbox.Quota as Quotas
use signbox.PolicyCache.{PolicyCache, CachedPolicy}
use signbox.PolicyCache as Policies
use signbox.Daemon.Keys.{AuthorityCache, check_key, check_local_identity}
use signbox.Daemon.State.{
  KeyHandle, AgentRuntime, SignRequest, SignedTransaction, BroadcastOutcome, accepted, rejected,
  ambiguous, QuotaFate, committed, released, no_quota, BroadcastReport, SignResponse, signed,
  denied, Config, Dependencies, Readings, Daemon, AuditContext,
}
use signbox.Daemon.Gates.{gates, same_chain}
use signbox.Daemon.Submit.{RunResult, after_reservation, refuse}

-- `resolveOne` and `resolveProviders`.
pub resolve_one : Option Relay → PolicyDialect → ProviderQuery → ProviderEvidence
resolve_one none dialect query = unresolved
resolve_one (some relay) dialect query = elim (dialect.resolve_provider_query query relay) [
  | ok evidence ↦ evidence
  | err t ↦ unresolved
]

pub resolve_providers :
    Option Relay → PolicyDialect → List ProviderQuery → List (Text × ProviderEvidence)
unfolding resolve_one
resolve_providers relay dialect [] = []
resolve_providers relay dialect (query ∷ queries) =
    insert query.query_key (resolve_one relay dialect query)
      (resolve_providers relay dialect queries)

pub record ActivePolicy : Type 0 where
  pub policy : Policy
  pub version : ℕ
  pub permission : Text

module _ (cfg : Config) (deps : Dependencies) (readings : Readings) (request : SignRequest) where
  pub refusal_code : Refusal → DenyCode
  refusal_code Refusal.ambiguous = DenyCode.ambiguous
  refusal_code _ = limit_exceeded

  pub reserved :
      Daemon → Journal × Outcome Refusal (Unit {0}) → Daemon × Outcome DenyCode (Option Text)
  unfolding refusal_code
  reserved daemon (journal, err r) =
      (record daemon { journal = some journal }, err (refusal_code r))
  reserved daemon (journal, ok u) =
      (record daemon { journal = some journal }, ok (some readings.reservation_id))

  pub reserve_in :
      Daemon
      → AgentRuntime
      → List QuotaDemand
      → Option Journal
      → Daemon × Outcome DenyCode (Option Text)
  unfolding reserved
  reserve_in daemon runtime demands none = (daemon, err quota_unavailable)
  reserve_in daemon runtime demands (some journal) =
      reserved daemon
        (reserve readings.reservation_id journal runtime.agent demands readings.now_ms)

  pub reserve_demands :
      Daemon → AgentRuntime → List QuotaDemand → Daemon × Outcome DenyCode (Option Text)
  unfolding reserve_in
  reserve_demands daemon runtime [] = (daemon, ok none)
  reserve_demands daemon runtime (d ∷ ds) = reserve_in daemon runtime (d ∷ ds) daemon.journal

  pub by_decision :
      Daemon
      → AuditContext
      → AgentRuntime
      → DecodedTransaction
      → List QuotaDemand
      → Decision
      → RunResult
  unfolding refuse after_reservation reserve_demands
  by_decision daemon ctx runtime tx demands (deny code version) =
      refuse cfg deps readings request daemon ctx code (some version)
  by_decision daemon ctx runtime tx demands (allow ids version) =
      after_reservation cfg deps readings request (record ctx { rule_ids = some ids }) runtime tx
        version (reserve_demands daemon runtime demands)

  pub context_of : AgentRuntime → ActivePolicy → List (Text × ProviderEvidence) → EvaluationContext
  context_of runtime active evidence = record {
    agent = runtime.agent;
    agent_permission = runtime.permission;
    chain_id = runtime.chain.chain_id;
    policy_version = active.version;
    dialect = deps.dialect;
    evidence = evidence;
  }

  pub evaluate : AgentRuntime → ActivePolicy → DecodedTransaction → Outcome Thrown EvaluationResult
  unfolding context_of resolve_providers
  evaluate runtime active tx =
      collect_provider_queries tx active.policy (context_of runtime active []) >>= λ queries. ok (
        evaluate_policy tx active.policy
          (context_of runtime active (resolve_providers deps.relay deps.dialect queries)))

  pub after_evaluation :
      Daemon
      → AuditContext
      → AgentRuntime
      → DecodedTransaction
      → Outcome Thrown EvaluationResult
      → RunResult
  unfolding refuse by_decision
  after_evaluation daemon ctx runtime tx (err t) =
      refuse cfg deps readings request daemon ctx internal_error none
  after_evaluation daemon ctx runtime tx (ok r) =
      by_decision daemon ctx runtime tx r.quota_demands r.decision

  pub after_key :
      AuditContext → AgentRuntime → ActivePolicy → DecodedTransaction → Daemon × Bool → RunResult
  unfolding refuse after_evaluation evaluate
  after_key ctx runtime active tx (daemon, false) =
      refuse cfg deps readings request daemon ctx authorization_mismatch none
  after_key ctx runtime active tx (daemon, true) =
      after_evaluation daemon ctx runtime tx (evaluate runtime active tx)

  pub key_checked : Daemon → AuthorityCache × Bool → Daemon × Bool
  key_checked daemon (keys, authorized) = (record daemon { keys = some keys }, authorized)

  -- The authority check, where the daemon has the cache.
  pub check_authority : Daemon → AgentRuntime → ActivePolicy → Option AuthorityCache → Daemon × Bool
  unfolding key_checked
  check_authority daemon runtime active none = (daemon, true)
  check_authority daemon runtime active (some keys) = key_checked daemon (
      check_key keys runtime.agent active.permission runtime.key.public_key readings.key_now_ms
        readings.key_answer)

  pub action_name : DecodedAction → Text
  action_name a = a.contract ++ (lit "::" ++ a.action)

  pub after_decode :
      Daemon
      → AuditContext
      → AgentRuntime
      → ActivePolicy
      → Outcome Thrown DecodedTransaction
      → RunResult
  unfolding refuse action_name after_key check_authority
  after_decode daemon ctx runtime active (err t) =
      refuse cfg deps readings request daemon ctx schema_invalid none
  after_decode daemon ctx runtime active (ok tx) =
      let named = record ctx { contracts = map action_name tx.actions } in
      if check_local_identity tx runtime.agent active.permission
      then after_key named runtime active tx (check_authority daemon runtime active daemon.keys)
      else refuse cfg deps readings request daemon named authorization_mismatch none

  pub after_policy :
      AuditContext → AgentRuntime → Daemon × Outcome DenyCode ActivePolicy → RunResult
  unfolding refuse after_decode
  after_policy ctx runtime (daemon, err code) =
      refuse cfg deps readings request daemon ctx code none
  after_policy ctx runtime (daemon, ok active) =
      after_decode daemon ctx runtime active (deps.decode request.transaction runtime.chain)

  -- What the cache serves; a throw of it ends the decision.
  pub active_of : Outcome Thrown (Option CachedPolicy) → Outcome DenyCode ActivePolicy
  active_of (err t) = err internal_error
  active_of (ok none) = err policy_unavailable
  active_of (ok (some c)) =
      if c.enabled
      then ok (record { policy = c.policy; version = c.version; permission = c.permission })
      else err agent_disabled

  pub policy_read :
      Daemon
      → PolicyCache × Outcome Thrown (Option CachedPolicy)
      → Daemon × Outcome DenyCode ActivePolicy
  unfolding active_of
  policy_read daemon (policies, served) =
      (record daemon { policies = some policies }, active_of served)

  -- The cached on-chain policy, or the registered one where there is no cache.
  pub load_policy :
      Daemon → AgentRuntime → Option PolicyCache → Daemon × Outcome DenyCode ActivePolicy
  unfolding policy_read
  load_policy daemon runtime none = (
    daemon,
    ok (record {
      policy = runtime.policy;
      version = runtime.policy_version;
      permission = runtime.permission;
    }),
  )
  load_policy daemon runtime (some policies) = policy_read daemon (
      Policies.get deps.host deps.dialect deps.policy_options policies runtime.agent readings.now_ms
        readings.policy_answer readings.policy_now_ms)

  unfoldable pub after_nonce : Daemon → AuditContext → AgentRuntime → NonceState → RunResult
  unfolding refuse after_policy load_policy
  after_nonce daemon ctx runtime replayed =
      refuse cfg deps readings request daemon ctx nonce_reused none
  after_nonce daemon ctx runtime full =
      refuse cfg deps readings request daemon ctx nonce_reused none
  after_nonce daemon ctx runtime fresh =
      if same_chain request runtime.chain
      then after_policy ctx runtime (load_policy daemon runtime daemon.policies)
      else refuse cfg deps readings request daemon ctx chain_mismatch none

  pub registered : Daemon → AuditContext → AgentRuntime → NonceCache × NonceState → RunResult
  unfolding after_nonce
  registered daemon ctx runtime (nonces, state) =
      after_nonce (record daemon { nonces = nonces }) ctx runtime state

  unfoldable pub after_gates : Daemon → AuditContext → Outcome DenyCode AgentRuntime → RunResult
  unfolding refuse registered
  after_gates daemon ctx (err code) = refuse cfg deps readings request daemon ctx code none
  after_gates daemon ctx (ok runtime) =
      registered daemon ctx runtime
        (register daemon.nonces runtime.agent request.nonce request.expires_at readings.now_ms)

  unfoldable pub run_parsed : Daemon → RunResult
  unfolding after_gates
  run_parsed daemon =
      after_gates daemon (record { agent = request.agent; contracts = []; rule_ids = none })
        (gates cfg deps daemon request readings.now_ms)
