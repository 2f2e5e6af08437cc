-- ===== src/Daemon/Handle/Signing.antt =====
-- The signer is called only behind every gate.
use signbox.Prelude.{◌≡◌, refl, ◌⊎◌, inl, inr, Option, none, some, ◌∷◌}
use signbox.Prelude.Text.{Text}
use signbox.Policy.Types.{DecodedTransaction}
use signbox.Daemon.Protocol.{parse_sign_request}
use signbox.Daemon.State.{AgentRuntime, SignRequest, Config, Dependencies, Readings, Daemon}
use signbox.Daemon.Sign.Calls.{IsSignable, run_parsed-calls}
use signbox.Daemon.Sign.Broadcast.{MayBroadcast, run_parsed-broadcasts}
use signbox.Daemon.Handle.{run_decision, record_audit, handle_sign}

module _ (cfg : Config) (deps : Dependencies) (readings : Readings) where
  -- The one call of the signer that a line may lead to, with the request that it was read as.
  pub record IsSigned (daemon after : Daemon) (line : Text) : Type 0 where
    pub request : SignRequest
    pub read : parse_sign_request deps line ≡ some request
    pub runtime : AgentRuntime
    pub tx : DecodedTransaction
    pub signable : IsSignable cfg deps readings request daemon runtime tx
    pub called : after.signed_calls ≡ (tx, runtime.key) ∷ daemon.signed_calls

  decision-IsSigned :
      (daemon : Daemon) (line : Text) (request : Option SignRequest)
      → parse_sign_request deps line ≡ request
      → ((run_decision cfg deps readings daemon request).0.signed_calls ≡ daemon.signed_calls)
        ⊎ IsSigned daemon (run_decision cfg deps readings daemon request).0 line
  unfolding run_decision
  decision-IsSigned daemon line none e = inl refl
  decision-IsSigned daemon line (some request) e =
      elim (run_parsed-calls cfg deps readings request daemon) [
        | inl same ↦ inl same
        | inr (runtime, tx, signable, called) ↦ inr (record {
          request = request;
          read = e;
          runtime = runtime;
          tx = tx;
          signable = signable;
          called = called;
        })
      ]

  -- The request of a line that may lead to a call of the broadcaster.
  pub record IsBroadcast (daemon : Daemon) (line : Text) : Type 0 where
    pub request : SignRequest
    pub read : parse_sign_request deps line ≡ some request
    pub granted : MayBroadcast cfg deps readings request daemon

  decision-broadcasts :
      (daemon : Daemon) (line : Text) (request : Option SignRequest)
      → parse_sign_request deps line ≡ request
      → ((run_decision cfg deps readings daemon request).0.broadcast_calls ≡ daemon.broadcast_calls)
        ⊎ IsBroadcast daemon line
  unfolding run_decision
  decision-broadcasts daemon line none e = inl refl
  decision-broadcasts daemon line (some request) e =
      elim (run_parsed-broadcasts cfg deps readings request daemon) [
        | inl same ↦ inl same
        | inr granted ↦ inr (record { request = request; read = e; granted = granted })
      ]

-- A line leads to no call of the signer, or to one. Then it was read as a request of a known, enabled
-- agent with its token and the capability to sign (and to broadcast, if it asks for that), within its
-- time window, on the agent's chain, with a nonce that the cache accepts; a policy was loaded, the
-- request's transaction decodes, is the agent's own under the policy's permission and the key passes
-- the authority check; the engine allows it; and its demands are reserved. The signed transaction is
-- the decoded one, and the key is the agent's.
pub handle_sign-IsSigned :
    (cfg : Config) (deps : Dependencies) (readings : Readings) (daemon : Daemon) (line : Text)
    → ((handle_sign cfg deps readings daemon line).0.signed_calls ≡ daemon.signed_calls)
      ⊎ IsSigned cfg deps readings daemon (handle_sign cfg deps readings daemon line).0 line
unfolding handle_sign record_audit
handle_sign-IsSigned cfg deps readings daemon line =
    elim (decision-IsSigned cfg deps readings daemon line (parse_sign_request deps line) refl) [
      | inl same ↦ inl same
      | inr s ↦ inr (record {
        request = s.request;
        read = s.read;
        runtime = s.runtime;
        tx = s.tx;
        signable = s.signable;
        called = s.called;
      })
    ]

-- A line leads to a call of the broadcaster only if it was read as a request that asks to broadcast, of
-- a known agent whose capabilities grant it: an agent without the grant never submits a transaction.
pub handle_sign-IsBroadcast :
    (cfg : Config) (deps : Dependencies) (readings : Readings) (daemon : Daemon) (line : Text)
    → ((handle_sign cfg deps readings daemon line).0.broadcast_calls ≡ daemon.broadcast_calls)
      ⊎ IsBroadcast cfg deps readings daemon line
unfolding handle_sign record_audit
handle_sign-IsBroadcast cfg deps readings daemon line =
    decision-broadcasts cfg deps readings daemon line (parse_sign_request deps line) refl
