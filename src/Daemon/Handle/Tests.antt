-- ===== src/Daemon/Handle/Tests.antt =====
-- Runs of the daemon on concrete requests.
use signbox.Prelude.{
  ◌≡◌, refl, ◌⊎◌, Bool, true, false, Option, none, some, List, [], ◌∷◌, if◌then◌else◌, ℕ, replicate,
}
use signbox.Prelude.Text.{Text, lit, text_eq, includes, lookup, insert}
use signbox.Prelude.Outcome.{ok, err}
use signbox.Errors.{Thrown}
use signbox.Value.{Value, bool, str, obj, end, of_fields}
use signbox.Policy.Types.{DecodedTransaction, MatchValue, allows, Policy}
use signbox.NonceCache.{new_cache}
use signbox.Xpr.Dialect.{xpr_dialect}
use signbox.PolicyCache.{unreachable, defaults}
use signbox.Daemon.Keys.{AuthorityCache, cache_key, check_key, check_local_identity}
use signbox.Daemon.State.{AgentRuntime, SignRequest, signed, Config, Dependencies, Readings, Daemon}
use signbox.Daemon.Protocol.{parse_sign_request}
use signbox.Daemon.Protocol.Valid.{IsParsed, parse_sign_request-IsParsed}
use signbox.Daemon.Sign.{run_parsed}
use signbox.Daemon.Gates.{gates, same_chain}
use signbox.NonceCache.{register}
use signbox.Policy.Engine.{collect_provider_queries, rule_matches}
use signbox.Policy.Predicates.{static_match, predicate_holds}
use signbox.Policy.Engine.Limits.{apply_limits}
use signbox.Policy.Engine.Evaluate.{
  evaluate_policy, precheck, decide_actions, any_denied, denied_by, allow_actions, governing_rule,
}
use signbox.Xpr.Dialect.{resolve_path}
use signbox.Daemon.Admin.{disable_agent, disable_agent-stops}
use signbox.Audit.{intact, verify}
use signbox.Daemon.Handle.Recorded.{IsLogged, handle_sign_recorded}
use signbox.Daemon.Handle.{handle_sign}
use signbox.Daemon.Handle.Signing.{
  IsSigned, handle_sign-IsSigned, IsBroadcast, handle_sign-IsBroadcast,
}

abbrev pub zeros : Text
zeros = replicate 64 b'0'

abbrev pub pings : Policy
pings = record {
  chain_name = lit "xpr";
  chain_id = zeros;
  rules =
      record {
        id = lit "ping";
        effect = allows;
        matches = (lit "action", MatchValue.is (lit "ping")) ∷ [];
        limits = none;
        providers = [];
      }
      ∷ [];
  max_actions_per_transaction = none;
}

abbrev pub ping : DecodedTransaction
ping = record {
  context = record { chain = lit "xpr"; network = lit "mainnet"; chain_id = zeros };
  actions =
      record {
        contract = lit "c";
        action = lit "ping";
        authorization = record { account_identifier = lit "ag"; permission = lit "bot" } ∷ [];
        payload = end;
      }
      ∷ [];
}

abbrev pub request_of : Bool → SignRequest
request_of broadcast = record {
  request_id = lit "request-1";
  agent = lit "ag";
  chain = lit "xpr";
  network = lit "mainnet";
  chain_id = zeros;
  transaction = obj end;
  broadcast = broadcast;
  requested_at = 100;
  expires_at = 200;
  nonce = lit "nonce-0123456789";
  token = lit "token-0123456789";
}

abbrev pub requested_text : Text
requested_text = lit "2026-01-01T00:00:00Z"

abbrev pub expires_text : Text
expires_text = lit "2026-01-01T00:00:00.1Z"

abbrev pub date_of : Text → Option ℕ
date_of s = if text_eq s requested_text then some 100 else some 200

-- The fields that a sign and a broadcast request share.
abbrev pub shared : Text → List (Text × Value)
shared request_id =
    (lit "requestId", str request_id)
    ∷ (lit "agent", str (lit "ag"))
    ∷ (lit "chain", str (lit "xpr"))
    ∷ (lit "network", str (lit "mainnet"))
    ∷ (lit "chainId", str zeros)
    ∷ (lit "requestedAt", str requested_text)
    ∷ (lit "expiresAt", str expires_text)
    ∷ (lit "nonce", str (lit "nonce-0123456789"))
    ∷ (lit "token", str (lit "token-0123456789"))
    ∷ []

abbrev pub sign_value : Bool → Value
sign_value broadcast = obj (
    of_fields
      ((lit "transaction", obj end) ∷ (lit "broadcast", bool broadcast) ∷ shared (lit "request-1")))

abbrev pub runtime : AgentRuntime
runtime = record {
  agent = lit "ag";
  permission = lit "bot";
  chain = record { chain = lit "xpr"; network = lit "mainnet"; chain_id = zeros };
  policy = pings;
  policy_version = 2;
  enabled = true;
  token = lit "token-0123456789";
  key = record {
    key_id = lit "k";
    public_key = lit "pub";
    export_policy = lit "non-exportable";
    chain = record { chain = lit "xpr"; network = lit "mainnet"; chain_id = zeros };
    agent = lit "ag";
    permission = lit "bot";
  };
  capabilities = none;
}

abbrev pub cfg : Config
cfg = record { max_request_ttl_ms = 120_000; max_clock_skew_ms = 5_000 }

-- The line `b` asks to broadcast, any other does not; every transaction decodes to the ping.
abbrev pub deps : Dependencies
deps = record {
  parse_date = date_of;
  decode = λ v chain. ok ping;
  dialect = xpr_dialect;
  sign = λ tx key.
      ok
        (record { signature = lit "sig"; transaction_digest = lit "d"; signed_transaction = none });
  broadcast = none;
  relay = none;
  host = record {
    sha256_hex = λ t. t;
    parse_json = λ line. some (sign_value (text_eq line (lit "b")));
    read_policy = λ v. none;
  };
  policy_options = defaults;
}

abbrev pub readings : Readings
readings = record {
  now_ms = 150;
  policy_answer = unreachable;
  policy_now_ms = 150;
  key_answer = ok true;
  key_now_ms = 150;
  reservation_id = lit "r";
  audit_now_ms = 151;
}

abbrev pub daemon : Daemon
daemon = record {
  agents = (lit "ag", runtime) ∷ [];
  nonces = new_cache;
  policies = none;
  keys = none;
  journal = none;
  audit = none;
  signed_calls = [];
  broadcast_calls = [];
}

signs_ping :
    (handle_sign cfg deps readings daemon (lit "s")).1
    ≡ signed (lit "request-1") (lit "sig") (lit "d") none 2 none
unfolding handle_sign parse_sign_request run_parsed gates lookup text_eq register same_chain
    check_local_identity collect_provider_queries evaluate_policy precheck decide_actions any_denied
    denied_by allow_actions governing_rule rule_matches static_match predicate_holds apply_limits
    resolve_path includes insert
signs_ping = refl

handle_sign-IsSigned_example :
    ((handle_sign cfg deps readings daemon (lit "s")).0.signed_calls ≡ [])
    ⊎ IsSigned cfg deps readings daemon (handle_sign cfg deps readings daemon (lit "s")).0 (lit "s")
handle_sign-IsSigned_example = handle_sign-IsSigned cfg deps readings daemon (lit "s")

abbrev keys : AuthorityCache
keys = record {
  entries =
      (
        cache_key (lit "ag") (lit "bot") (lit "pub"),
        record { authorized = true; verified_at_ms = 10 },
      )
      ∷ [];
  freshness_ms = 30_000;
  negative_ms = 5_000;
}

key_is_fresh : (check_key keys (lit "ag") (lit "bot") (lit "pub") 20 (err Thrown.internal)).1 ≡ true
unfolding check_key lookup text_eq
key_is_fresh = refl

handle_sign-IsBroadcast_example :
    ((handle_sign cfg deps readings daemon (lit "b")).0.broadcast_calls ≡ [])
    ⊎ IsBroadcast cfg deps readings daemon (lit "b")
handle_sign-IsBroadcast_example = handle_sign-IsBroadcast cfg deps readings daemon (lit "b")

read_plain : parse_sign_request deps (lit "s") ≡ some (request_of false)
unfolding text_eq parse_sign_request
read_plain = refl

parse_sign_request-IsParsed_example : IsParsed deps (lit "s") (request_of false)
parse_sign_request-IsParsed_example =
    parse_sign_request-IsParsed deps (lit "s") (request_of false) read_plain

disable_agent-stops_example :
    (handle_sign cfg deps readings (disable_agent daemon (lit "ag")) (lit "s")).0.signed_calls ≡ []
disable_agent-stops_example =
    disable_agent-stops cfg deps readings daemon (lit "s") (request_of false) read_plain

abbrev logging_daemon : Daemon
logging_daemon = record daemon { audit = some [] }

empty_log_verifies : verify deps.host.sha256_hex [] ≡ ok (intact 0)
unfolding verify
empty_log_verifies = refl

handle_sign_recorded_example :
    IsLogged deps readings
      (lit "s")
      []
      (handle_sign cfg deps readings logging_daemon (lit "s")).0.audit
      (handle_sign cfg deps readings logging_daemon (lit "s")).1
handle_sign_recorded_example =
    handle_sign_recorded cfg deps readings logging_daemon (lit "s") [] 0 refl empty_log_verifies
