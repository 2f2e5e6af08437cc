-- ===== src/Daemon/Relay/Nonces.antt =====
-- What a line does to the nonces, and when it reaches the signer or the broadcaster.
use signbox.Prelude.{◌≡◌, refl, ◌⊎◌, inl, inr, Option, none, some}
use signbox.Prelude.Text.{Text}
use signbox.Prelude.Outcome.{Outcome, ok, err, Outcome-cases}
use signbox.Policy.Types.{DenyCode}
use signbox.Audit.{Log}
use signbox.NonceCache.{NonceState, fresh, replayed, full, register}
use signbox.Daemon.Protocol.{parse_broadcast_request, parse_sign_request}
use signbox.Daemon.State.{
  AgentRuntime, SignRequest, BroadcastRequest, Config, Dependencies, Readings, Daemon, AuditContext,
}
use signbox.Daemon.Gates.{gates, gates-IsAdmitted}
use signbox.Daemon.Sign.{after_nonce, after_gates, run_parsed}
use signbox.Daemon.Submit.{refuse}
use signbox.Daemon.Sign.Stores.{IgnoresStores, signing_kept}
use signbox.Daemon.Sign.Kept.{Ignores, nonce_kept, run_parsed_kept}
use signbox.Daemon.Handle.{run_decision, record_audit, handle_sign}
use signbox.Daemon.Relay.{
  broadcast_gates, may_relay, relay_bytes, relay_nonce, relay_gated, record_broadcast_audit,
  broadcast_parsed, handle_broadcast, Op, sign_op, broadcast_op, whoami_op, query_op, peek_op,
  dispatch, handle_request,
}
use signbox.Daemon.Relay.Admitted.{broadcast_gates-known, handle_broadcast-IsRelayed}
use signbox.Daemon.Relay.Claims.{
  Claim, IsIdle, Step, broadcast_claim, claim_of, claimed, op_claim, sign_claim, unclaimed,
}

agents-Ignores : Ignores (λ (d : Daemon). d.agents)
agents-Ignores = record {
  nonces = λ d x. refl;
  stores = record { policies = λ d x. refl; keys = λ d x. refl; journal = λ d x. refl };
  signed_calls = λ d x. refl;
  broadcast_calls = λ d x. refl;
}

nonces-IgnoresStores : IgnoresStores (λ (d : Daemon). d.nonces)
nonces-IgnoresStores = record { policies = λ d x. refl; keys = λ d x. refl; journal = λ d x. refl }

module _ (cfg : Config) (deps : Dependencies) (readings : Readings) where
  module _ (request : SignRequest) where
    after_nonce-IsIdle :
        (daemon : Daemon) (ctx : AuditContext) (runtime : AgentRuntime) (state : NonceState)
        → IsIdle daemon (after_nonce cfg deps readings request daemon ctx runtime state).0
          ⊎ (state ≡ fresh)
    unfolding after_nonce refuse
    after_nonce-IsIdle daemon ctx runtime replayed =
        inl (record { signed_calls = refl; broadcast_calls = refl })
    after_nonce-IsIdle daemon ctx runtime full =
        inl (record { signed_calls = refl; broadcast_calls = refl })
    after_nonce-IsIdle daemon ctx runtime fresh = inr refl

    gated-Step :
        (daemon : Daemon) (ctx : AuditContext) (gated : Outcome DenyCode AgentRuntime)
        → gates cfg deps daemon request readings.now_ms ≡ gated
        → Step readings.now_ms daemon
            (after_gates cfg deps readings request daemon ctx gated).0
            (sign_claim (some request))
    unfolding after_gates refuse
    gated-Step daemon ctx (err code) e =
        unclaimed refl (record { signed_calls = refl; broadcast_calls = refl })
    gated-Step daemon ctx (ok runtime) e =
        let good = gates-IsAdmitted cfg deps daemon request readings.now_ms runtime e in
        let (nonces, state) =
          register daemon.nonces runtime.agent request.nonce request.expires_at readings.now_ms in
        let registered : Daemon = record daemon { nonces = nonces } in
        claimed _ refl (record {
          runtime = runtime;
          known = good.known;
          nonces =
              nonce_kept cfg deps readings request (λ d. d.nonces) nonces-IgnoresStores
                (λ d x. refl)
                (signing_kept cfg deps readings request (λ d. d.nonces) nonces-IgnoresStores
                  (λ d x. refl))
                registered ctx runtime state;
          acts = elim (after_nonce-IsIdle registered ctx runtime state) [
            | inl idle ↦ inl (record {
              signed_calls = idle.signed_calls;
              broadcast_calls = idle.broadcast_calls;
            })
            | inr first ↦ inr first
          ];
        })

  decided-Step :
      (daemon : Daemon) (read : Option SignRequest)
      → Step readings.now_ms daemon (run_decision cfg deps readings daemon read).0 (sign_claim read)
  unfolding run_decision run_parsed
  decided-Step daemon none = unclaimed refl (record { signed_calls = refl; broadcast_calls = refl })
  decided-Step daemon (some request) =
      gated-Step request daemon _ (gates cfg deps daemon request readings.now_ms) refl

  relay_bytes-nonces :
      (request : BroadcastRequest) (daemon : Daemon) (runtime : AgentRuntime)
      → (relay_bytes cfg deps readings request daemon
          (may_relay cfg deps readings request runtime)).0.nonces
        ≡ daemon.nonces
  unfolding relay_bytes
  relay_bytes-nonces request daemon runtime =
      elim (Outcome-cases (may_relay cfg deps readings request runtime)) [
        | inl (code, refused) ↦ rw refused refl
        | inr (f, granted) ↦ rw granted refl
      ]

  relay_nonce-Step :
      (request : BroadcastRequest) (runtime : AgentRuntime) (daemon : Daemon) (state : NonceState)
      → ((relay_nonce cfg deps readings request runtime daemon state).0.nonces ≡ daemon.nonces)
        × (IsIdle daemon (relay_nonce cfg deps readings request runtime daemon state).0
            ⊎ (state ≡ fresh))
  unfolding relay_nonce
  relay_nonce-Step request runtime daemon replayed =
      (refl, inl (record { signed_calls = refl; broadcast_calls = refl }))
  relay_nonce-Step request runtime daemon full =
      (refl, inl (record { signed_calls = refl; broadcast_calls = refl }))
  relay_nonce-Step request runtime daemon fresh =
      (relay_bytes-nonces request daemon runtime, inr refl)

  relay_gated-Step :
      (request : BroadcastRequest) (daemon : Daemon) (gated : Outcome DenyCode AgentRuntime)
      → broadcast_gates cfg deps readings request daemon ≡ gated
      → Step readings.now_ms daemon
          (relay_gated cfg deps readings request daemon gated).0
          (broadcast_claim (some request))
  unfolding relay_gated
  relay_gated-Step request daemon (err code) e =
      unclaimed refl (record { signed_calls = refl; broadcast_calls = refl })
  relay_gated-Step request daemon (ok runtime) e =
      let (nonces, state) =
        register daemon.nonces runtime.agent request.nonce request.expires_at readings.now_ms in
      let (kept, acts) =
        relay_nonce-Step request runtime (record daemon { nonces = nonces }) state in
      let known = broadcast_gates-known cfg deps readings request daemon runtime e in
      claimed _ refl (record {
        runtime = runtime;
        known = known.0;
        nonces = kept;
        acts = elim acts [
          | inl idle ↦
              inl (record {
                signed_calls = idle.signed_calls;
                broadcast_calls = idle.broadcast_calls;
              })
          | inr first ↦ inr first
        ];
      })

  audited-Step :
      (daemon after : Daemon) (log : Option Log) (claim : Option Claim)
      → Step readings.now_ms daemon after claim
      → Step readings.now_ms daemon (record after { audit = log }) claim
  audited-Step daemon after log claim (unclaimed same idle) =
      unclaimed same
        (record { signed_calls = idle.signed_calls; broadcast_calls = idle.broadcast_calls })
  audited-Step daemon after log claim (claimed c e s) = claimed c e (record {
    runtime = s.runtime;
    known = s.known;
    nonces = s.nonces;
    acts = elim s.acts [
      | inl idle ↦
          inl (record { signed_calls = idle.signed_calls; broadcast_calls = idle.broadcast_calls })
      | inr first ↦ inr first
    ];
  })

  broadcast-Step :
      (daemon : Daemon) (read : Option BroadcastRequest)
      → Step readings.now_ms daemon
          (broadcast_parsed cfg deps readings daemon read).0
          (broadcast_claim read)
  unfolding broadcast_parsed record_broadcast_audit
  broadcast-Step daemon none =
      unclaimed refl (record { signed_calls = refl; broadcast_calls = refl })
  broadcast-Step daemon (some request) =
      let gated = broadcast_gates cfg deps readings request daemon in
      audited-Step daemon (relay_gated cfg deps readings request daemon gated).0 _ _
        (relay_gated-Step request daemon gated refl)

  dispatch-Step :
      (daemon : Daemon) (line : Text) (op : Op)
      → Step readings.now_ms daemon
          (dispatch cfg deps readings daemon line op).0
          (op_claim deps line op)
  unfolding dispatch handle_sign record_audit handle_broadcast
  dispatch-Step daemon line whoami_op =
      unclaimed refl (record { signed_calls = refl; broadcast_calls = refl })
  dispatch-Step daemon line query_op =
      unclaimed refl (record { signed_calls = refl; broadcast_calls = refl })
  dispatch-Step daemon line broadcast_op = broadcast-Step daemon (parse_broadcast_request deps line)
  dispatch-Step daemon line sign_op =
      audited-Step daemon (run_decision cfg deps readings daemon (parse_sign_request deps line)).0 _
        _ (decided-Step daemon (parse_sign_request deps line))

  pub handle_request-Step :
      (daemon : Daemon) (line : Text)
      → Step readings.now_ms daemon
          (handle_request cfg deps readings daemon line).0
          (claim_of deps line)
  unfolding handle_request
  handle_request-Step daemon line = dispatch-Step daemon line (peek_op deps.host.parse_json line)

  decided-agents :
      (daemon : Daemon) (read : Option SignRequest)
      → (run_decision cfg deps readings daemon read).0.agents ≡ daemon.agents
  unfolding run_decision
  decided-agents daemon none = refl
  decided-agents daemon (some request) =
      run_parsed_kept cfg deps readings request (λ d. d.agents) agents-Ignores daemon

  dispatch-agents :
      (daemon : Daemon) (line : Text) (op : Op)
      → (dispatch cfg deps readings daemon line op).0.agents ≡ daemon.agents
  unfolding dispatch handle_sign record_audit
  dispatch-agents daemon line whoami_op = refl
  dispatch-agents daemon line query_op = refl
  dispatch-agents daemon line broadcast_op =
      (handle_broadcast-IsRelayed cfg deps readings daemon line).0.agents
  dispatch-agents daemon line sign_op = decided-agents daemon (parse_sign_request deps line)

  pub handle_request-agents :
      (daemon : Daemon) (line : Text)
      → (handle_request cfg deps readings daemon line).0.agents ≡ daemon.agents
  unfolding handle_request
  handle_request-agents daemon line =
      dispatch-agents daemon line (peek_op deps.host.parse_json line)
