-- ===== src/Daemon/Relay.antt =====
-- src/daemon/server.ts: `handleBroadcastRequest`, `handleReadRequest` and the dispatch of
-- `handleRequest`, with `peekOp` of src/daemon/protocol.ts.
pub mod Claims
pub mod Admitted
pub mod Nonces
pub mod Once
pub mod Read
pub mod Tests
use signbox.Prelude.{
  ℕ, ◌≡◌, refl, Bool, true, false, ◌||◌, Option, none, some, List, [], ◌∷◌, if◌then◌else◌,
}
use signbox.Prelude.Text.{Text, lit, text_eq, lookup}
use signbox.Prelude.Outcome.{Outcome, ok, err, ◌>>=◌}
use signbox.Errors.{Thrown}
use signbox.Value.{Value, str, obj, end, get_field}
use signbox.Policy.Types.{
  ChainContext, DenyCode, schema_invalid, nonce_reused, chain_mismatch, capability_denied,
  broadcast_unavailable, request_expired, agent_disabled, internal_error, Relay,
}
use signbox.NonceCache.{NonceCache, NonceState, fresh, replayed, full, register}
use signbox.Audit.{Entry}
use signbox.Daemon.Protocol.{parse_broadcast_request, parse_read_request}
use signbox.Daemon.State.{
  AgentRuntime, BroadcastOutcome, no_quota, BroadcastReport, BroadcastRequest, BroadcastResponse,
  relayed, denied, ReadOp, whoami, query, ReadRequest, ReadError, unreadable, unauthenticated,
  disabled, out_of_window, no_relay, no_method, failed, ReadResponse, identity, answer, read_error,
  SignResponse, Config, Dependencies, Readings, Daemon,
}
use signbox.Daemon.Gates.{pass, authenticate, capabilities_of, in_window, names_chain}
use signbox.Daemon.Handle.{code_text, outcome_text, audited, handle_sign}

-- The entry of `recordBroadcastAudit`.
pub broadcast_entry : Text → BroadcastResponse → ℕ → Entry
unfolding code_text outcome_text
broadcast_entry agent (relayed request_id report) now_ms = record {
  request_id = request_id;
  agent = agent;
  decision = lit "broadcast";
  code = none;
  rule_ids = none;
  policy_version = none;
  contracts = [];
  digest = none;
  broadcast = some (outcome_text report.outcome);
  timestamp_ms = now_ms;
}
broadcast_entry agent (denied request_id code) now_ms = record {
  request_id = request_id;
  agent = agent;
  decision = lit "denied";
  code = some (code_text code);
  rule_ids = none;
  policy_version = none;
  contracts = [];
  digest = none;
  broadcast = none;
  timestamp_ms = now_ms;
}

module _ (cfg : Config) (deps : Dependencies) (readings : Readings) where
  module _ (request : BroadcastRequest) where
    -- The checks before the nonce is registered.
    unfoldable pub broadcast_gates : Daemon → Outcome DenyCode AgentRuntime
    unfolding authenticate pass in_window
    broadcast_gates daemon =
        authenticate (lookup request.agent daemon.agents) request.token >>= λ runtime.
        pass runtime.enabled agent_disabled >>= λ _.
        pass (in_window cfg request.requested_at request.expires_at readings.now_ms) request_expired
        >>= λ _. ok runtime

    -- The checks after it, up to the broadcaster.
    unfoldable pub may_relay :
        AgentRuntime → Outcome DenyCode (Option Value → Outcome Thrown BroadcastOutcome)
    unfolding pass capabilities_of
    may_relay runtime =
        pass (names_chain request.chain request.network request.chain_id runtime.chain)
          chain_mismatch
        >>= λ _. pass (capabilities_of runtime.capabilities).broadcast capability_denied >>= λ _.
            elim deps.broadcast [ none ↦ err broadcast_unavailable | some f ↦ ok f ]

    pub relay_response : Outcome Thrown BroadcastOutcome → BroadcastResponse
    relay_response (err t) = denied request.request_id internal_error
    relay_response (ok outcome) =
        relayed request.request_id (record { outcome = outcome; quota = no_quota })

    pub relay_bytes :
        Daemon
        → Outcome DenyCode (Option Value → Outcome Thrown BroadcastOutcome)
        → Daemon × BroadcastResponse
    unfolding relay_response
    relay_bytes daemon (err code) = (daemon, denied request.request_id code)
    relay_bytes daemon (ok broadcast) = (
      record daemon { broadcast_calls = some request.signed_transaction ∷ daemon.broadcast_calls },
      relay_response (broadcast (some request.signed_transaction)),
    )

    pub relay_nonce : AgentRuntime → Daemon → NonceState → Daemon × BroadcastResponse
    unfolding relay_bytes
    relay_nonce runtime daemon replayed = (daemon, denied request.request_id nonce_reused)
    relay_nonce runtime daemon full = (daemon, denied request.request_id nonce_reused)
    relay_nonce runtime daemon fresh = relay_bytes daemon (may_relay runtime)

    pub relay_gated : Daemon → Outcome DenyCode AgentRuntime → Daemon × BroadcastResponse
    unfolding relay_nonce
    relay_gated daemon (err code) = (daemon, denied request.request_id code)
    relay_gated daemon (ok runtime) =
        let (nonces, state) =
          register daemon.nonces runtime.agent request.nonce request.expires_at readings.now_ms in
        relay_nonce runtime (record daemon { nonces = nonces }) state

  pub record_broadcast_audit : Text → Daemon × BroadcastResponse → Daemon × BroadcastResponse
  unfolding audited broadcast_entry
  record_broadcast_audit agent (daemon, response) = (
    record daemon {
      audit =
          audited deps.host.sha256_hex daemon.audit
            (broadcast_entry agent response readings.audit_now_ms);
    },
    response,
  )

  -- A line that does not parse is refused without an entry in the log.
  pub broadcast_parsed : Daemon → Option BroadcastRequest → Daemon × BroadcastResponse
  unfolding relay_gated record_broadcast_audit
  broadcast_parsed daemon none = (daemon, denied (lit "unknown") schema_invalid)
  broadcast_parsed daemon (some request) =
      record_broadcast_audit request.agent
        (relay_gated request daemon (broadcast_gates request daemon))

  pub handle_broadcast : Daemon → Text → Daemon × BroadcastResponse
  unfolding broadcast_parsed
  handle_broadcast daemon line = broadcast_parsed daemon (parse_broadcast_request deps line)

  -- `request.params ?? {}`.
  pub params_of : Option Value → Value
  params_of none = obj end
  params_of (some v) = v

  module _ (request : ReadRequest) where
    abbrev refuse_read : ReadError → ReadResponse
    refuse_read error = read_error request.request_id request.op error

    pub read_relay : Option Relay → Option Text → ReadResponse
    unfolding params_of
    read_relay none method = refuse_read no_relay
    read_relay (some relay) none = refuse_read no_method
    read_relay (some relay) (some method) = elim (relay method (params_of request.params)) [
      | err t ↦ refuse_read (failed t)
      | ok result ↦ answer request.request_id method result
    ]

    pub read_op : AgentRuntime → ReadOp → ReadResponse
    unfolding read_relay
    read_op runtime whoami =
        identity request.request_id runtime.agent runtime.permission runtime.key.public_key
          runtime.chain
    read_op runtime query = read_relay deps.relay request.method

    -- The refusals come in the order of the code.
    pub read_known : Option AgentRuntime → ReadResponse
    unfolding read_op in_window
    read_known none = refuse_read unauthenticated
    read_known (some runtime) =
        if text_eq runtime.token request.token
        then if runtime.enabled
          then if in_window cfg request.requested_at request.expires_at readings.now_ms
            then read_op runtime request.op
            else refuse_read out_of_window
          else refuse_read disabled
        else refuse_read unauthenticated

  pub read_parsed : Daemon → Option ReadRequest → ReadResponse
  unfolding read_known
  read_parsed daemon none = read_error (lit "unknown") query unreadable
  read_parsed daemon (some request) = read_known request (lookup request.agent daemon.agents)

  pub handle_read : Daemon → Text → ReadResponse
  unfolding read_parsed
  handle_read daemon line = read_parsed daemon (parse_read_request deps line)

pub data Op : Type 0 where
  sign_op broadcast_op whoami_op query_op : Op

op_of : Value → Op
op_of (str op) =
    if text_eq op (lit "whoami")
    then whoami_op
    else if text_eq op (lit "query")
    then query_op
    else if text_eq op (lit "broadcast")
    then broadcast_op
    else sign_op
op_of v = sign_op

-- `.op` of null throws, and of any other value that is no object is undefined.
peek_value : Option Value → Op
unfolding op_of
peek_value (some (obj fs)) = op_of (get_field (lit "op") fs)
peek_value _ = sign_op

pub peek_op : (Text → Option Value) → Text → Op
unfolding peek_value
peek_op parse_json line = peek_value (parse_json line)

pub data Response : Type 0 where
  to_sign : SignResponse → Response
  to_broadcast : BroadcastResponse → Response
  to_read : ReadResponse → Response

module _ (cfg : Config) (deps : Dependencies) (readings : Readings) where
  pub dispatch : Daemon → Text → Op → Daemon × Response
  unfolding handle_read handle_broadcast
  dispatch daemon line whoami_op = (daemon, to_read (handle_read cfg deps readings daemon line))
  dispatch daemon line query_op = (daemon, to_read (handle_read cfg deps readings daemon line))
  dispatch daemon line broadcast_op =
      let (after, response) = handle_broadcast cfg deps readings daemon line in
      (after, to_broadcast response)
  dispatch daemon line sign_op =
      let (after, response) = handle_sign cfg deps readings daemon line in (after, to_sign response)

  pub handle_request : Daemon → Text → Daemon × Response
  unfolding dispatch peek_op
  handle_request daemon line = dispatch daemon line (peek_op deps.host.parse_json line)
