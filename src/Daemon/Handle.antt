-- ===== src/Daemon/Handle.antt =====
-- src/daemon/server.ts: `handleRequest` on a line whose operation is to sign, with its audit entry.
pub mod Signing
pub mod Recorded
pub mod Returned
pub mod Tests
pub mod QuotaTests
use signbox.Prelude.{
  ℕ, zero, suc, ◌+◌, ◌-◌, ◌*◌, ◌/◌, ◌%◌, ◌^◌, ◌≤◌, ◌<◌, max, String, ◌≡◌, refl, sym, ap, ◌∙◌, subst,
  ◌≡⟨◌⟩◌, ◌∎, fun_ext, ◌≢◌, ◌↔◌, ◌⊎◌, inl, inr, Bool, true, false, not, ◌&&◌, ◌||◌, Option, none,
  some, List, [], ◌∷◌, ◌++◌, map, append-nil, append_assoc, arith, ltb, leb, ◌==◌, if◌then◌else◌,
  ==_iff, leb_iff, &&_iff, Bool-cases, Option-cases, length, take, drop, replicate, length-append,
  length-replicate, take-append-drop, length-drop, keep, any, every, All, Any, All-append, All-map,
  every_iff, any_iff, any-false,
}
use signbox.Prelude.Text.{
  Text, lit, text_eq, text_eq_iff, text_eq_refl, text_eq_comm, starts_with, includes, split,
  text_mem, lookup, insert, lookup-insert, remove, lookup-remove,
}
use signbox.Prelude.Outcome.{Outcome, ok, err, ◌>>=◌, >>=-eq-ok, Outcome-cases, find_ok}
use signbox.Errors.{Thrown}
use signbox.Policy.Types.{
  DenyCode, schema_invalid, chain_mismatch, empty_transaction, multi_authorization,
  authorization_mismatch, rule_deny, default_deny, too_many_actions, limit_exceeded,
  policy_unavailable, agent_disabled, unauthenticated, request_expired, nonce_reused,
  quota_unavailable, capability_denied, broadcast_unavailable, internal_error, no_provider,
}
use signbox.Audit.{Entry, Row, Log, append}
use signbox.Daemon.Protocol.{parse_sign_request}
use signbox.Daemon.State.{
  BroadcastOutcome, accepted, rejected, ambiguous, BroadcastReport, SignRequest, SignResponse,
  signed, denied, Config, Dependencies, Readings, Daemon, AuditContext,
}
use signbox.Daemon.Sign.{run_parsed}
use signbox.Daemon.Submit.{RunResult}

unfoldable pub code_text : DenyCode → Text
code_text schema_invalid = lit "SCHEMA_INVALID"
code_text chain_mismatch = lit "CHAIN_MISMATCH"
code_text empty_transaction = lit "EMPTY_TRANSACTION"
code_text multi_authorization = lit "MULTI_AUTHORIZATION"
code_text authorization_mismatch = lit "AUTHORIZATION_MISMATCH"
code_text rule_deny = lit "RULE_DENY"
code_text default_deny = lit "DEFAULT_DENY"
code_text too_many_actions = lit "TOO_MANY_ACTIONS"
code_text limit_exceeded = lit "LIMIT_EXCEEDED"
code_text policy_unavailable = lit "POLICY_UNAVAILABLE"
code_text agent_disabled = lit "AGENT_DISABLED"
code_text unauthenticated = lit "UNAUTHENTICATED"
code_text request_expired = lit "REQUEST_EXPIRED"
code_text nonce_reused = lit "NONCE_REUSED"
code_text quota_unavailable = lit "QUOTA_UNAVAILABLE"
code_text capability_denied = lit "CAPABILITY_DENIED"
code_text broadcast_unavailable = lit "BROADCAST_UNAVAILABLE"
code_text internal_error = lit "INTERNAL_ERROR"
code_text DenyCode.ambiguous = lit "AMBIGUOUS_VALUE"
code_text no_provider = lit "PROVIDER_UNAVAILABLE"

unfoldable pub outcome_text : BroadcastOutcome → Text
outcome_text (accepted receipt) = lit "accepted"
outcome_text (rejected reason) = lit "rejected"
outcome_text (BroadcastOutcome.ambiguous reason) = lit "ambiguous"

pub report_text : Option BroadcastReport → Option Text
unfolding outcome_text
report_text none = none
report_text (some report) = some (outcome_text report.outcome)

-- The entry of `recordAudit`.
pub audit_entry : SignResponse → AuditContext → ℕ → Entry
unfolding code_text report_text
audit_entry (signed request_id signature digest tx version report) ctx now_ms = record {
  request_id = request_id;
  agent = ctx.agent;
  decision = lit "signed";
  code = none;
  rule_ids = ctx.rule_ids;
  policy_version = some version;
  contracts = ctx.contracts;
  digest = some digest;
  broadcast = report_text report;
  timestamp_ms = now_ms;
}
audit_entry (denied request_id code version) ctx now_ms = record {
  request_id = request_id;
  agent = ctx.agent;
  decision = lit "denied";
  code = some (code_text code);
  rule_ids = none;
  policy_version = version;
  contracts = ctx.contracts;
  digest = none;
  broadcast = none;
  timestamp_ms = now_ms;
}

-- A throw of `append` is caught.
pub appended : Log → Outcome Thrown (Log × Row) → Log
appended log (err t) = log
appended log (ok (after, r)) = after

unfoldable pub audited : (Text → Text) → Option Log → Entry → Option Log
unfolding appended
audited sha256_hex none e = none
audited sha256_hex (some log) e = some (appended log (append sha256_hex log e))

module _ (cfg : Config) (deps : Dependencies) (readings : Readings) where
  unfoldable pub record_audit : RunResult → Daemon × SignResponse
  unfolding audited audit_entry
  record_audit (daemon, ctx, response) = (
    record daemon {
      audit =
          audited deps.host.sha256_hex daemon.audit
            (audit_entry response ctx readings.audit_now_ms);
    },
    response,
  )

  -- `runDecision`.
  unfoldable pub run_decision : Daemon → Option SignRequest → RunResult
  run_decision daemon none = (
    daemon,
    record { agent = lit "unknown"; contracts = []; rule_ids = none },
    denied (lit "unknown") schema_invalid none,
  )
  run_decision daemon (some request) = run_parsed cfg deps readings request daemon

  unfoldable pub handle_sign : Daemon → Text → Daemon × SignResponse
  unfolding record_audit run_decision
  handle_sign daemon line = record_audit (run_decision daemon (parse_sign_request deps line))
