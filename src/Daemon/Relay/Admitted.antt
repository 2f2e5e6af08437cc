-- ===== src/Daemon/Relay/Admitted.antt =====
-- What must hold before a line reaches the broadcaster by itself, and what such a line leaves alone.
use signbox.Prelude.{◌+◌, ◌≤◌, ◌<◌, ◌≡◌, refl, ◌⊎◌, inl, inr, true, Option, none, some, ◌∷◌, arith}
use signbox.Prelude.Text.{Text, lookup}
use signbox.Prelude.Outcome.{Outcome, ok, err, >>=-eq-ok}
use signbox.Errors.{Thrown}
use signbox.Value.{Value}
use signbox.Policy.Types.{
  DenyCode, agent_disabled, request_expired, chain_mismatch, capability_denied,
}
use signbox.NonceCache.{NonceState, fresh, replayed, full, register}
use signbox.Daemon.Protocol.{parse_broadcast_request}
use signbox.Daemon.State.{
  AgentRuntime, BroadcastOutcome, BroadcastRequest, Config, Dependencies, Readings, Daemon,
}
use signbox.Daemon.Gates.{
  pass, authenticate, capabilities_of, in_window, names_chain, pass-true, authenticate-known,
}
use signbox.Daemon.Relay.{
  broadcast_gates, may_relay, relay_bytes, relay_nonce, relay_gated, record_broadcast_audit,
  broadcast_parsed, handle_broadcast,
}

-- The stores that broadcasting leaves alone, and the calls of the signer.
pub record IsUnsigned (daemon after : Daemon) : Type 0 where
  pub agents : after.agents ≡ daemon.agents
  pub policies : after.policies ≡ daemon.policies
  pub keys : after.keys ≡ daemon.keys
  pub journal : after.journal ≡ daemon.journal
  pub signed_calls : after.signed_calls ≡ daemon.signed_calls

module _ (cfg : Config) (deps : Dependencies) (readings : Readings) where
  -- A request whose bytes may be relayed.
  pub record MayRelay (request : BroadcastRequest) (daemon : Daemon) : Type 0 where
    pub runtime : AgentRuntime
    pub known : lookup request.agent daemon.agents ≡ some runtime
    pub authentic : runtime.token ≡ request.token
    pub enabled : runtime.enabled ≡ true
    pub live : readings.now_ms < request.expires_at
    pub begun : request.requested_at ≤ readings.now_ms + cfg.max_clock_skew_ms
    pub short : request.expires_at ≤ request.requested_at + cfg.max_request_ttl_ms
    pub first :
        (register daemon.nonces runtime.agent request.nonce request.expires_at readings.now_ms).1
        ≡ fresh
    pub own_chain : names_chain request.chain request.network request.chain_id runtime.chain ≡ true
    pub granted : (capabilities_of runtime.capabilities).broadcast ≡ true

  module _ (request : BroadcastRequest) where
    pub broadcast_gates-known :
        (daemon : Daemon) (runtime : AgentRuntime)
        → broadcast_gates cfg deps readings request daemon ≡ ok runtime
        → (lookup request.agent daemon.agents ≡ some runtime)
          × (runtime.token ≡ request.token)
          × (runtime.enabled ≡ true)
          × (in_window cfg request.requested_at request.expires_at readings.now_ms ≡ true)
    unfolding broadcast_gates
    broadcast_gates-known daemon runtime h =
        let (r, found, h1) =
          >>=-eq-ok (authenticate (lookup request.agent daemon.agents) request.token) _ h in
        let (_, on, h2) = >>=-eq-ok (pass r.enabled agent_disabled) _ h1 in
        let (_, timely, h3) =
          >>=-eq-ok
            (pass (in_window cfg request.requested_at request.expires_at readings.now_ms)
              request_expired)
            _ h2 in
        let this : r ≡ runtime = cc h3 in
        let (known, authentic) = authenticate-known _ request.token r found in
        let enabled = pass-true r.enabled _ on in
        (cc (known, this), cc (authentic, this), cc (enabled, this), pass-true _ _ timely)

    may_relay-granted :
        (runtime : AgentRuntime) (f : Option Value → Outcome Thrown BroadcastOutcome)
        → may_relay cfg deps readings request runtime ≡ ok f
        → (names_chain request.chain request.network request.chain_id runtime.chain ≡ true)
          × ((capabilities_of runtime.capabilities).broadcast ≡ true)
    unfolding may_relay
    may_relay-granted runtime f h =
        let own = names_chain request.chain request.network request.chain_id runtime.chain in
        let (_, a, h1) = >>=-eq-ok (pass own chain_mismatch) _ h in
        let c = capabilities_of runtime.capabilities in
        let (_, b, h2) = >>=-eq-ok (pass c.broadcast capability_denied) _ h1 in
        (pass-true own _ a, pass-true c.broadcast _ b)

    -- No call of the broadcaster, or one, with the request's bytes.
    abbrev IsRelay : Daemon → Daemon → Type 0 → Type 0
    IsRelay daemon after P =
        (after.broadcast_calls ≡ daemon.broadcast_calls)
        ⊎ (P × (after.broadcast_calls ≡ some request.signed_transaction ∷ daemon.broadcast_calls))

    bytes-IsRelay :
        (runtime : AgentRuntime) (daemon : Daemon)
        (may : Outcome DenyCode (Option Value → Outcome Thrown BroadcastOutcome))
        → may_relay cfg deps readings request runtime ≡ may
        → IsUnsigned daemon (relay_bytes cfg deps readings request daemon may).0
          × IsRelay daemon (relay_bytes cfg deps readings request daemon may).0 (
              (names_chain request.chain request.network request.chain_id runtime.chain ≡ true)
              × ((capabilities_of runtime.capabilities).broadcast ≡ true))
    unfolding relay_bytes
    bytes-IsRelay runtime daemon (err code) e = (
      record { agents = refl; policies = refl; keys = refl; journal = refl; signed_calls = refl },
      inl refl,
    )
    bytes-IsRelay runtime daemon (ok f) e = (
      record { agents = refl; policies = refl; keys = refl; journal = refl; signed_calls = refl },
      inr (may_relay-granted runtime f e, refl),
    )

    nonce-IsRelay :
        (runtime : AgentRuntime) (daemon : Daemon) (state : NonceState)
        → IsUnsigned daemon (relay_nonce cfg deps readings request runtime daemon state).0
          × IsRelay daemon (relay_nonce cfg deps readings request runtime daemon state).0 (
              (state ≡ fresh)
              × (names_chain request.chain request.network request.chain_id runtime.chain ≡ true)
              × ((capabilities_of runtime.capabilities).broadcast ≡ true))
    unfolding relay_nonce
    nonce-IsRelay runtime daemon replayed = (
      record { agents = refl; policies = refl; keys = refl; journal = refl; signed_calls = refl },
      inl refl,
    )
    nonce-IsRelay runtime daemon full = (
      record { agents = refl; policies = refl; keys = refl; journal = refl; signed_calls = refl },
      inl refl,
    )
    nonce-IsRelay runtime daemon fresh =
        let (kept, relay) =
          bytes-IsRelay runtime daemon (may_relay cfg deps readings request runtime) refl in
        (
          kept,
          elim relay [
            | inl same ↦ inl same
            | inr ((own, may), call) ↦ inr ((refl, own, may), call)
          ],
        )

    gated-IsRelay :
        (daemon : Daemon) (gated : Outcome DenyCode AgentRuntime)
        → broadcast_gates cfg deps readings request daemon ≡ gated
        → IsUnsigned daemon (relay_gated cfg deps readings request daemon gated).0
          × IsRelay daemon
              (relay_gated cfg deps readings request daemon gated).0
              (MayRelay request daemon)
    unfolding relay_gated in_window
    gated-IsRelay daemon (err code) e = (
      record { agents = refl; policies = refl; keys = refl; journal = refl; signed_calls = refl },
      inl refl,
    )
    gated-IsRelay daemon (ok runtime) e =
        let (nonces, state) =
          register daemon.nonces runtime.agent request.nonce request.expires_at readings.now_ms in
        let (kept, relay) = nonce-IsRelay runtime (record daemon { nonces = nonces }) state in
        let (known, authentic, enabled, timely) = broadcast_gates-known daemon runtime e in
        (
          record {
            agents = kept.agents;
            policies = kept.policies;
            keys = kept.keys;
            journal = kept.journal;
            signed_calls = kept.signed_calls;
          },
          elim relay [
            | inl same ↦ inl same
            | inr ((first, own, may), call) ↦ inr (
              record {
                runtime = runtime;
                known = known;
                authentic = authentic;
                enabled = enabled;
                live = ground (arith, timely);
                begun = ground (arith, timely);
                short = ground (arith, timely);
                first = first;
                own_chain = own;
                granted = may;
              },
              call,
            )
          ],
        )

  -- The request of a line whose bytes went to the broadcaster.
  pub record IsRelayed (daemon after : Daemon) (line : Text) : Type 0 where
    pub request : BroadcastRequest
    pub read : parse_broadcast_request deps line ≡ some request
    pub may : MayRelay request daemon
    pub called : after.broadcast_calls ≡ some request.signed_transaction ∷ daemon.broadcast_calls

  parsed-IsRelayed :
      (daemon : Daemon) (line : Text) (read : Option BroadcastRequest)
      → parse_broadcast_request deps line ≡ read
      → IsUnsigned daemon (broadcast_parsed cfg deps readings daemon read).0
        × (((broadcast_parsed cfg deps readings daemon read).0.broadcast_calls
              ≡ daemon.broadcast_calls)
            ⊎ IsRelayed daemon (broadcast_parsed cfg deps readings daemon read).0 line)
  unfolding broadcast_parsed record_broadcast_audit
  parsed-IsRelayed daemon line none e = (
    record { agents = refl; policies = refl; keys = refl; journal = refl; signed_calls = refl },
    inl refl,
  )
  parsed-IsRelayed daemon line (some request) e =
      let (kept, relay) =
        gated-IsRelay request daemon (broadcast_gates cfg deps readings request daemon) refl in
      (
        record {
          agents = kept.agents;
          policies = kept.policies;
          keys = kept.keys;
          journal = kept.journal;
          signed_calls = kept.signed_calls;
        },
        elim relay [
          | inl same ↦ inl same
          | inr (may, call) ↦ inr (record { request = request; read = e; may = may; called = call })
        ],
      )

-- A line that asks for a broadcast by itself never reaches the signer, the policies, the key checks or
-- the quota journal, and leads to no call of the broadcaster, or to one with the bytes of the request
-- that it was read as: of a known, enabled agent with its token and the capability to broadcast, within
-- its time window, on the agent's chain, with a nonce that the cache accepts.
pub handle_broadcast-IsRelayed :
    (cfg : Config) (deps : Dependencies) (readings : Readings) (daemon : Daemon) (line : Text)
    → IsUnsigned daemon (handle_broadcast cfg deps readings daemon line).0
      × (((handle_broadcast cfg deps readings daemon line).0.broadcast_calls
            ≡ daemon.broadcast_calls)
          ⊎ IsRelayed cfg deps readings daemon
              (handle_broadcast cfg deps readings daemon line).0
              line)
unfolding handle_broadcast
handle_broadcast-IsRelayed cfg deps readings daemon line =
    parsed-IsRelayed cfg deps readings daemon line (parse_broadcast_request deps line) refl
