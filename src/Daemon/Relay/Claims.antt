-- ===== src/Daemon/Relay/Claims.antt =====
-- The nonce that a line claims, and what spending it means.
use signbox.Prelude.{ℕ, ◌≡◌, ◌⊎◌, Option, none, some}
use signbox.Prelude.Text.{Text, lookup}
use signbox.NonceCache.{fresh, register}
use signbox.Daemon.Protocol.{parse_broadcast_request, parse_sign_request}
use signbox.Daemon.State.{AgentRuntime, SignRequest, BroadcastRequest, Dependencies, Daemon}
use signbox.Daemon.Relay.{Op, sign_op, broadcast_op, whoami_op, query_op, peek_op}

-- What a line claims: an agent and a nonce, until an instant.
pub record Claim : Type 0 where
  pub agent : Text
  pub nonce : Text
  pub expires_at : ℕ

abbrev pub sign_claim : Option SignRequest → Option Claim
sign_claim none = none
sign_claim (some r) = some (record { agent = r.agent; nonce = r.nonce; expires_at = r.expires_at })

abbrev pub broadcast_claim : Option BroadcastRequest → Option Claim
broadcast_claim none = none
broadcast_claim (some r) =
    some (record { agent = r.agent; nonce = r.nonce; expires_at = r.expires_at })

abbrev pub op_claim : Dependencies → Text → Op → Option Claim
op_claim deps line sign_op = sign_claim (parse_sign_request deps line)
op_claim deps line broadcast_op = broadcast_claim (parse_broadcast_request deps line)
op_claim deps line whoami_op = none
op_claim deps line query_op = none

-- A read request claims nothing.
abbrev pub claim_of : Dependencies → Text → Option Claim
claim_of deps line = op_claim deps line (peek_op deps.host.parse_json line)

-- No call of the signer and none of the broadcaster.
pub record IsIdle (daemon after : Daemon) : Type 0 where
  pub signed_calls : after.signed_calls ≡ daemon.signed_calls
  pub broadcast_calls : after.broadcast_calls ≡ daemon.broadcast_calls

module _ (now_ms : ℕ) (daemon after : Daemon) where
  -- The claim was registered for the agent that stands under its name; only a fresh one acts.
  pub record Spends (c : Claim) : Type 0 where
    pub runtime : AgentRuntime
    pub known : lookup c.agent daemon.agents ≡ some runtime
    pub nonces : after.nonces ≡ (register daemon.nonces runtime.agent c.nonce c.expires_at now_ms).0
    pub acts :
        IsIdle daemon after
        ⊎ ((register daemon.nonces runtime.agent c.nonce c.expires_at now_ms).1 ≡ fresh)

  pub data Step (claim : Option Claim) : Type 0 where
    unclaimed : after.nonces ≡ daemon.nonces → IsIdle daemon after → Step claim
    claimed : (c : Claim) → claim ≡ some c → Spends c → Step claim
