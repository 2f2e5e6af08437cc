-- ===== src/Daemon/Sign/Described.antt =====
-- What a sign request leaves for the audit entry: whose it is, and the actions that it names.
use signbox.Prelude.{
  ℕ, ◌≡◌, refl, ◌⊎◌, inl, inr, Bool, true, false, Option, none, some, List, [], ◌∷◌, ◌++◌, map,
  if◌then◌else◌, Bool-cases,
}
use signbox.Prelude.Text.{Text, lit}
use signbox.Prelude.Outcome.{Outcome, ok, err}
use signbox.Errors.{Thrown}
use signbox.Value.{Value}
use signbox.Policy.Types.{
  ChainContext, DecodedAction, DecodedTransaction, DenyCode, Decision, allow, deny, QuotaDemand,
  EvaluationResult,
}
use signbox.NonceCache.{NonceState, fresh, replayed, full, register}
use signbox.Daemon.Keys.{check_local_identity}
use signbox.Daemon.State.{
  AgentRuntime, SignRequest, SignedTransaction, BroadcastOutcome, accepted, rejected, ambiguous,
  SignResponse, signed, denied, Config, Dependencies, Readings, Daemon, AuditContext,
}
use signbox.Daemon.Gates.{gates, same_chain}
use signbox.Daemon.Submit.{
  RunResult, refuse, settle, after_broadcast, submit, after_signing, after_reservation,
}
use signbox.Daemon.Sign.{
  ActivePolicy, reserve_demands, by_decision, evaluate, after_evaluation, after_key,
  check_authority, action_name, after_decode, after_policy, load_policy, after_nonce, registered,
  after_gates, run_parsed,
}

abbrev pub IsDenied : SignResponse → Type 0
IsDenied (signed request_id signature digest transaction version report) = ⊥
IsDenied (denied request_id code version) = Unit {0}

-- The texts `contract::action` of the actions that the request's transaction decodes to.
abbrev pub NamesActions : Dependencies → SignRequest → List Text → Type 0
NamesActions deps request names =
    (chain : ChainContext) × (tx : DecodedTransaction) × (deps.decode request.transaction chain
      ≡ ok tx)
    × (names ≡ map (λ (a : DecodedAction). a.contract ++ (lit "::" ++ a.action)) tx.actions)

module _ (cfg : Config) (deps : Dependencies) (readings : Readings) (request : SignRequest) where
  -- The agent and the contracts stay.
  abbrev Keeps : AuditContext → RunResult → Type 0
  Keeps ctx result = (result.1.agent ≡ ctx.agent) × (result.1.contracts ≡ ctx.contracts)

  settle-Keeps :
      (daemon : Daemon) (ctx : AuditContext) (agent : Text) (version : ℕ)
      (reservation : Option Text) (s : SignedTransaction) (outcome : BroadcastOutcome)
      → Keeps ctx (settle cfg deps readings request daemon ctx agent version reservation s outcome)
  unfolding settle
  settle-Keeps daemon ctx agent version reservation s (accepted receipt) = (refl, refl)
  settle-Keeps daemon ctx agent version reservation s (rejected reason) = (refl, refl)
  settle-Keeps daemon ctx agent version reservation s (ambiguous reason) = (refl, refl)

  broadcast-Keeps :
      (daemon : Daemon) (ctx : AuditContext) (agent : Text) (version : ℕ)
      (reservation : Option Text) (s : SignedTransaction)
      (outcome : Outcome Thrown BroadcastOutcome)
      → Keeps ctx
          (after_broadcast cfg deps readings request daemon ctx agent version reservation s outcome)
  unfolding after_broadcast refuse
  broadcast-Keeps daemon ctx agent version reservation s (err t) = (refl, refl)
  broadcast-Keeps daemon ctx agent version reservation s (ok outcome) =
      settle-Keeps daemon ctx agent version reservation s outcome

  submit-Keeps :
      (daemon : Daemon) (ctx : AuditContext) (agent : Text) (version : ℕ)
      (reservation : Option Text) (s : SignedTransaction)
      (broadcast : Option (Option Value → Outcome Thrown BroadcastOutcome))
      → Keeps ctx
          (submit cfg deps readings request daemon ctx agent version reservation s broadcast)
  unfolding submit
  submit-Keeps daemon ctx agent version reservation s none = (refl, refl)
  submit-Keeps daemon ctx agent version reservation s (some broadcast) =
      broadcast-Keeps
        (record daemon { broadcast_calls = s.signed_transaction ∷ daemon.broadcast_calls }) ctx
        agent version reservation s (broadcast s.signed_transaction)

  signing-Keeps :
      (daemon : Daemon) (ctx : AuditContext) (agent : Text) (version : ℕ)
      (reservation : Option Text) (s : Outcome Thrown SignedTransaction)
      → Keeps ctx (after_signing cfg deps readings request daemon ctx agent version reservation s)
  unfolding after_signing refuse
  signing-Keeps daemon ctx agent version reservation (err t) = (refl, refl)
  signing-Keeps daemon ctx agent version reservation (ok s) =
      submit-Keeps daemon ctx agent version reservation s
        (if request.broadcast then deps.broadcast else none)

  reservation-Keeps :
      (ctx : AuditContext) (runtime : AgentRuntime) (tx : DecodedTransaction) (version : ℕ)
      (held : Daemon × Outcome DenyCode (Option Text))
      → Keeps ctx (after_reservation cfg deps readings request ctx runtime tx version held)
  unfolding after_reservation refuse
  reservation-Keeps ctx runtime tx version (daemon, err code) = (refl, refl)
  reservation-Keeps ctx runtime tx version (daemon, ok reservation) =
      signing-Keeps (record daemon { signed_calls = (tx, runtime.key) ∷ daemon.signed_calls }) ctx
        runtime.agent version reservation (deps.sign tx runtime.key)

  decision-Keeps :
      (daemon : Daemon) (ctx : AuditContext) (runtime : AgentRuntime) (tx : DecodedTransaction)
      (demands : List QuotaDemand) (d : Decision)
      → Keeps ctx (by_decision cfg deps readings request daemon ctx runtime tx demands d)
  unfolding by_decision refuse
  decision-Keeps daemon ctx runtime tx demands (deny code version) = (refl, refl)
  decision-Keeps daemon ctx runtime tx demands (allow ids version) =
      reservation-Keeps (record ctx { rule_ids = some ids }) runtime tx version
        (reserve_demands cfg deps readings request daemon runtime demands)

  evaluation-Keeps :
      (daemon : Daemon) (ctx : AuditContext) (runtime : AgentRuntime) (tx : DecodedTransaction)
      (o : Outcome Thrown EvaluationResult)
      → Keeps ctx (after_evaluation cfg deps readings request daemon ctx runtime tx o)
  unfolding after_evaluation refuse
  evaluation-Keeps daemon ctx runtime tx (err t) = (refl, refl)
  evaluation-Keeps daemon ctx runtime tx (ok r) =
      decision-Keeps daemon ctx runtime tx r.quota_demands r.decision

  key-Keeps :
      (ctx : AuditContext) (runtime : AgentRuntime) (active : ActivePolicy)
      (tx : DecodedTransaction) (checked : Daemon × Bool)
      → Keeps ctx (after_key cfg deps readings request ctx runtime active tx checked)
  unfolding after_key refuse
  key-Keeps ctx runtime active tx (daemon, false) = (refl, refl)
  key-Keeps ctx runtime active tx (daemon, true) =
      evaluation-Keeps daemon ctx runtime tx (evaluate cfg deps readings request runtime active tx)

  -- The agent stays; the contracts do with a refusal, or name the actions.
  abbrev Describes : AuditContext → RunResult → Type 0
  Describes ctx result =
      (result.1.agent ≡ ctx.agent)
      × (NamesActions deps request result.1.contracts
          ⊎ ((result.1.contracts ≡ ctx.contracts) × IsDenied result.2))

  decode-Describes :
      (daemon : Daemon) (ctx : AuditContext) (runtime : AgentRuntime) (active : ActivePolicy)
      (o : Outcome Thrown DecodedTransaction)
      → deps.decode request.transaction runtime.chain ≡ o
      → Describes ctx (after_decode cfg deps readings request daemon ctx runtime active o)
  unfolding after_decode refuse action_name
  decode-Describes daemon ctx runtime active (err t) e = (refl, inr (refl, tt))
  decode-Describes daemon ctx runtime active (ok tx) e =
      elim (Bool-cases (check_local_identity tx runtime.agent active.permission)) [
        | inr foreign ↦ rw foreign (refl, inl (runtime.chain, tx, e, refl))
        | inl own ↦ rw own (
            let (agent, contracts) =
              key-Keeps
                (record ctx { contracts = map (action_name cfg deps readings request) tx.actions })
                runtime active tx
                (check_authority cfg deps readings request daemon runtime active daemon.keys) in
            (agent, inl (runtime.chain, tx, e, contracts)))
      ]

  policy-Describes :
      (ctx : AuditContext) (runtime : AgentRuntime)
      (loaded : Daemon × Outcome DenyCode ActivePolicy)
      → Describes ctx (after_policy cfg deps readings request ctx runtime loaded)
  unfolding after_policy refuse
  policy-Describes ctx runtime (daemon, err code) = (refl, inr (refl, tt))
  policy-Describes ctx runtime (daemon, ok active) =
      decode-Describes daemon ctx runtime active (deps.decode request.transaction runtime.chain)
        refl

  nonce-Describes :
      (daemon : Daemon) (ctx : AuditContext) (runtime : AgentRuntime) (state : NonceState)
      → Describes ctx (after_nonce cfg deps readings request daemon ctx runtime state)
  unfolding after_nonce refuse
  nonce-Describes daemon ctx runtime replayed = (refl, inr (refl, tt))
  nonce-Describes daemon ctx runtime full = (refl, inr (refl, tt))
  nonce-Describes daemon ctx runtime fresh = elim (Bool-cases (same_chain request runtime.chain)) [
    | inr other ↦ rw other (refl, inr (refl, tt))
    | inl same ↦ rw same (
        policy-Describes ctx runtime
          (load_policy cfg deps readings request daemon runtime daemon.policies))
  ]

  gates-Describes :
      (daemon : Daemon) (ctx : AuditContext) (admitted : Outcome DenyCode AgentRuntime)
      → Describes ctx (after_gates cfg deps readings request daemon ctx admitted)
  unfolding after_gates registered refuse
  gates-Describes daemon ctx (err code) = (refl, inr (refl, tt))
  gates-Describes daemon ctx (ok runtime) =
      let (nonces, state) =
        register daemon.nonces runtime.agent request.nonce request.expires_at readings.now_ms in
      nonce-Describes (record daemon { nonces = nonces }) ctx runtime state

  pub run_parsed-Describes :
      (daemon : Daemon)
      → ((run_parsed cfg deps readings request daemon).1.agent ≡ request.agent)
        × (NamesActions deps request (run_parsed cfg deps readings request daemon).1.contracts
            ⊎ (((run_parsed cfg deps readings request daemon).1.contracts ≡ [])
                × IsDenied (run_parsed cfg deps readings request daemon).2))
  unfolding run_parsed
  run_parsed-Describes daemon =
      gates-Describes daemon (record { agent = request.agent; contracts = []; rule_ids = none })
        (gates cfg deps daemon request readings.now_ms)
