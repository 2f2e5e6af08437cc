-- ===== src/Daemon/Relay/Tests.antt =====
-- Runs of the daemon on lines of every operation.
use signbox.Daemon.Relay.{peek_op}
use signbox.Daemon.Protocol.{parse_broadcast_request}
use signbox.Daemon.Protocol.{parse_read_request}
use signbox.Daemon.Protocol.{parse_sign_request}
use signbox.Prelude.{◌≡◌, refl, ◌⊎◌, true, false, none, some, [], ◌∷◌, arith, if◌then◌else◌}
use signbox.Prelude.Text.{Text, lit, text_eq, lookup, insert}
use signbox.Prelude.Outcome.{ok}
use signbox.Value.{Value, null, str, obj, end, get_field, of_fields}
use signbox.NonceCache.{register}
use signbox.Daemon.State.{AgentRuntime, accepted, no_quota, relayed, answer, Dependencies, Daemon}
use signbox.Daemon.Gates.{names_chain}
use signbox.Daemon.Handle.Tests.{
  requested_text, expires_text, shared, sign_value, runtime, cfg, deps, readings, daemon,
}
use signbox.Daemon.Relay.{broadcast_gates, may_relay, handle_broadcast, handle_read, handle_request}
use signbox.Daemon.Relay.Admitted.{IsUnsigned, IsRelayed, handle_broadcast-IsRelayed}
use signbox.Daemon.Relay.Claims.{Claim, claim_of, IsIdle}
use signbox.Daemon.Relay.Read.{IsRefused, IsAnswered, handle_read-IsAnswered}
use signbox.Daemon.Relay.Once.{Turn, serve, handle_request_once}

abbrev submitter : AgentRuntime
submitter = record runtime { capabilities = some (record { sign = false; broadcast = true }) }

-- The line `sign` asks to sign, `query` to read, and any other to broadcast.
abbrev line_value : Text → Value
line_value line =
    if text_eq line (lit "sign")
    then sign_value false
    else if text_eq line (lit "query")
    then obj (
        of_fields (
          (lit "op", str (lit "query"))
          ∷ (lit "requestId", str (lit "request-3"))
          ∷ (lit "agent", str (lit "ag"))
          ∷ (lit "requestedAt", str requested_text)
          ∷ (lit "expiresAt", str expires_text)
          ∷ (lit "token", str (lit "token-0123456789"))
          ∷ (lit "method", str (lit "get_info"))
          ∷ []))
    else obj (
        of_fields (
          (lit "op", str (lit "broadcast"))
          ∷ (lit "signedTransaction", obj end)
          ∷ shared (lit "request-2")))

abbrev relaying : Dependencies
relaying = record deps {
  broadcast = some (λ bytes. ok (accepted null));
  relay = some (λ method params. ok params);
  host = record {
    sha256_hex = λ t. t;
    parse_json = λ line. some (line_value line);
    read_policy = λ v. none;
  };
}

abbrev open_daemon : Daemon
open_daemon = record daemon { agents = (lit "ag", submitter) ∷ [] }

relays :
    (handle_broadcast cfg relaying readings open_daemon (lit "broadcast")).1
    ≡ relayed (lit "request-2") (record { outcome = accepted null; quota = no_quota })
unfolding handle_broadcast broadcast_gates lookup text_eq register may_relay names_chain insert
    parse_broadcast_request
relays = refl

asks :
    handle_read cfg relaying readings open_daemon (lit "query")
    ≡ answer (lit "request-3") (lit "get_info") (obj end)
unfolding handle_read lookup text_eq parse_read_request
asks = refl

handle_broadcast-IsRelayed_example :
    IsUnsigned open_daemon (handle_broadcast cfg relaying readings open_daemon (lit "broadcast")).0
    × (((handle_broadcast cfg relaying readings open_daemon (lit "broadcast")).0.broadcast_calls
          ≡ [])
        ⊎ IsRelayed cfg relaying readings open_daemon
            (handle_broadcast cfg relaying readings open_daemon (lit "broadcast")).0
            (lit "broadcast"))
handle_broadcast-IsRelayed_example =
    handle_broadcast-IsRelayed cfg relaying readings open_daemon (lit "broadcast")

abbrev first_claim : Claim
first_claim = record { agent = lit "ag"; nonce = lit "nonce-0123456789"; expires_at = 200 }

reads_broadcast : claim_of relaying (lit "broadcast") ≡ some first_claim
unfolding text_eq get_field peek_op parse_broadcast_request
reads_broadcast = refl

reads_sign : claim_of relaying (lit "sign") ≡ some first_claim
unfolding text_eq get_field peek_op parse_sign_request
reads_sign = refl

broadcasts :
    (handle_request cfg relaying readings open_daemon (lit "broadcast")).0.broadcast_calls
    ≡ some (obj end) ∷ []
unfolding handle_request handle_broadcast broadcast_gates lookup text_eq register may_relay
    names_chain insert get_field parse_broadcast_request
broadcasts = refl

broadcast_acts :
    IsIdle open_daemon (handle_request cfg relaying readings open_daemon (lit "broadcast")).0 → ⊥
broadcast_acts idle = absurd (cc (idle.broadcast_calls, broadcasts))

abbrev between : Turn
between = record { readings = record readings { now_ms = 160 }; line = lit "sign" }

handle_request_once_example :
    IsIdle
      (serve cfg relaying
        (handle_request cfg relaying readings open_daemon (lit "broadcast")).0
        (between ∷ []))
      (handle_request cfg relaying
        (record readings { now_ms = 170 })
        (serve cfg relaying
          (handle_request cfg relaying readings open_daemon (lit "broadcast")).0
          (between ∷ []))
        (lit "sign")).0
handle_request_once_example =
    handle_request_once cfg relaying readings (record readings { now_ms = 170 }) open_daemon
      (lit "broadcast") (lit "sign") first_claim first_claim (between ∷ []) reads_broadcast
      reads_sign refl refl broadcast_acts (omega arith, tt) (omega arith)

handle_read-IsAnswered_example :
    IsRefused (handle_read cfg relaying readings open_daemon (lit "query"))
    ⊎ IsAnswered cfg relaying readings open_daemon
        (lit "query")
        (handle_read cfg relaying readings open_daemon (lit "query"))
handle_read-IsAnswered_example =
    handle_read-IsAnswered cfg relaying readings open_daemon (lit "query")
