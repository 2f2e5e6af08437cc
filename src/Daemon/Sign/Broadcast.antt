-- ===== src/Daemon/Sign/Broadcast.antt =====
-- A request that does not ask to broadcast never reaches the broadcaster.
use signbox.Prelude.{ℕ, ◌≡◌, refl, ◌⊎◌, inl, inr, true, false, Option, none, some, Bool-cases}
use signbox.Prelude.Text.{Text, lookup}
use signbox.Prelude.Outcome.{Outcome, ok, err}
use signbox.Errors.{Thrown}
use signbox.Policy.Types.{DenyCode}
use signbox.Daemon.State.{
  AgentRuntime, SignRequest, SignedTransaction, Config, Dependencies, Readings, Daemon,
  AuditContext,
}
use signbox.Daemon.Gates.{gates, gates-IsAdmitted, capabilities_of}
use signbox.Daemon.Sign.{after_gates, run_parsed}
use signbox.Daemon.Submit.{RunResult, refuse, submit, after_signing}
use signbox.Daemon.Sign.Stores.{IgnoresStores, commit_kept, release_kept}
use signbox.Daemon.Sign.Kept.{gates_kept}

-- The broadcaster is not called.
abbrev pub IsQuiet : Daemon → RunResult → Type 0
IsQuiet before result = result.0.broadcast_calls ≡ before.broadcast_calls

broadcast_calls-IgnoresStores : IgnoresStores (λ (d : Daemon). d.broadcast_calls)
broadcast_calls-IgnoresStores = record {
  policies = λ d x. refl;
  keys = λ d x. refl;
  journal = λ d x. refl;
}

module _ (cfg : Config) (deps : Dependencies) (readings : Readings) (request : SignRequest)
    (unasked : request.broadcast ≡ false) where
  submit-IsQuiet :
      (daemon : Daemon) (ctx : AuditContext) (agent : Text) (version : ℕ)
      (reservation : Option Text) (s : SignedTransaction)
      → IsQuiet daemon
          (submit cfg deps readings request daemon ctx agent version reservation s none)
  unfolding submit
  submit-IsQuiet daemon ctx agent version reservation s =
      commit_kept cfg deps readings request (λ d. d.broadcast_calls) broadcast_calls-IgnoresStores
        daemon agent reservation s.transaction_digest

  signing-IsQuiet :
      (daemon : Daemon) (ctx : AuditContext) (agent : Text) (version : ℕ)
      (reservation : Option Text) (s : Outcome Thrown SignedTransaction)
      → IsQuiet daemon
          (after_signing cfg deps readings request daemon ctx agent version reservation s)
  unfolding after_signing refuse
  signing-IsQuiet daemon ctx agent version reservation (err t) =
      release_kept cfg deps readings request (λ d. d.broadcast_calls) broadcast_calls-IgnoresStores
        daemon reservation
  signing-IsQuiet daemon ctx agent version reservation (ok s) =
      rw unasked (submit-IsQuiet daemon ctx agent version reservation s)

  pub gates-IsQuiet :
      (daemon : Daemon) (ctx : AuditContext) (admitted : Outcome DenyCode AgentRuntime)
      → IsQuiet daemon (after_gates cfg deps readings request daemon ctx admitted)
  gates-IsQuiet daemon ctx admitted =
      gates_kept cfg deps readings request (λ d. d.broadcast_calls) broadcast_calls-IgnoresStores
        (λ d x. refl) signing-IsQuiet (λ d x. refl) daemon ctx admitted

module _ (cfg : Config) (deps : Dependencies) (readings : Readings) (request : SignRequest) where
  -- The agent may broadcast, and the request asks for it.
  pub record MayBroadcast (daemon : Daemon) : Type 0 where
    pub runtime : AgentRuntime
    pub known : lookup request.agent daemon.agents ≡ some runtime
    pub asked : request.broadcast ≡ true
    pub granted : (capabilities_of runtime.capabilities).broadcast ≡ true

  admitted-broadcasts :
      (daemon : Daemon) (ctx : AuditContext) (admitted : Outcome DenyCode AgentRuntime)
      → gates cfg deps daemon request readings.now_ms ≡ admitted
      → IsQuiet daemon (after_gates cfg deps readings request daemon ctx admitted)
        ⊎ MayBroadcast daemon
  unfolding after_gates refuse
  admitted-broadcasts daemon ctx (err code) e = inl refl
  admitted-broadcasts daemon ctx (ok runtime) e = elim (Bool-cases request.broadcast) [
    | inr unasked ↦ inl (gates-IsQuiet cfg deps readings request unasked daemon ctx (ok runtime))
    | inl asked ↦
        let good = gates-IsAdmitted cfg deps daemon request readings.now_ms runtime e in
        inr (record {
          runtime = runtime;
          known = good.known;
          asked = asked;
          granted = (good.may_broadcast asked).0;
        })
  ]

  pub run_parsed-broadcasts :
      (daemon : Daemon)
      → IsQuiet daemon (run_parsed cfg deps readings request daemon) ⊎ MayBroadcast daemon
  unfolding run_parsed
  run_parsed-broadcasts daemon =
      admitted-broadcasts daemon _ (gates cfg deps daemon request readings.now_ms) refl
