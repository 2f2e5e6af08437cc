-- ===== src/Daemon/Sign/Kept.antt =====
-- What a whole sign request leaves alone, given what the signing of a transaction does.
use signbox.Prelude.{ℕ, ◌≡◌, refl, ◌∙◌, inl, inr, Bool, true, false, Option, List, ◌∷◌, Bool-cases}
use signbox.Prelude.Text.{Text}
use signbox.Prelude.Outcome.{Outcome, ok, err}
use signbox.Errors.{Thrown}
use signbox.Policy.Types.{
  DecodedTransaction, DenyCode, Decision, allow, deny, QuotaDemand, EvaluationResult,
}
use signbox.NonceCache.{NonceState, fresh, replayed, full}
use signbox.Daemon.Keys.{check_local_identity}
use signbox.Daemon.State.{
  AgentRuntime, SignRequest, SignedTransaction, Config, Dependencies, Readings, Daemon,
  AuditContext,
}
use signbox.Daemon.Gates.{gates, same_chain}
use signbox.Daemon.Sign.{
  ActivePolicy, reserve_demands, by_decision, evaluate, after_evaluation, after_key,
  check_authority, after_decode, after_policy, load_policy, after_nonce, registered, after_gates,
  run_parsed,
}
use signbox.Daemon.Submit.{refuse, after_signing, after_reservation}
use signbox.Daemon.State.{KeyHandle}
use signbox.Value.{Value}
use signbox.NonceCache.{register}
use signbox.Daemon.Sign.Stores.{
  IgnoresNonces, IgnoresStores, reserve_kept, authority_kept, load_kept, signing_kept,
}

-- Signing and what follows it change nothing that `f` reads.
abbrev pub SigningKeeps :
    Config → Dependencies → Readings → SignRequest → {A : Type 0} → (Daemon → A) → Type 0
SigningKeeps cfg deps readings request f =
    (daemon : Daemon) (ctx : AuditContext) (agent : Text) (version : ℕ) (reservation : Option Text)
    (s : Outcome Thrown SignedTransaction)
    → f (after_signing cfg deps readings request daemon ctx agent version reservation s).0
      ≡ f daemon

module _ (cfg : Config) (deps : Dependencies) (readings : Readings) (request : SignRequest)
    {A : Type 0} (f : Daemon → A) (h : IgnoresStores f)
    (called : (d : Daemon) (x : List (DecodedTransaction × KeyHandle))
      → f (record d { signed_calls = x }) ≡ f d)
    (signing : SigningKeeps cfg deps readings request f) where
  reservation_kept :
      (ctx : AuditContext) (runtime : AgentRuntime) (tx : DecodedTransaction) (version : ℕ)
      (held : Daemon × Outcome DenyCode (Option Text))
      → f (after_reservation cfg deps readings request ctx runtime tx version held).0 ≡ f held.0
  unfolding after_reservation refuse
  reservation_kept ctx runtime tx version (daemon, err code) = refl
  reservation_kept ctx runtime tx version (daemon, ok reservation) =
      signing (record daemon { signed_calls = (tx, runtime.key) ∷ daemon.signed_calls }) ctx
        runtime.agent version reservation (deps.sign tx runtime.key)
      ∙ called daemon _

  decision_kept :
      (daemon : Daemon) (ctx : AuditContext) (runtime : AgentRuntime) (tx : DecodedTransaction)
      (demands : List QuotaDemand) (d : Decision)
      → f (by_decision cfg deps readings request daemon ctx runtime tx demands d).0 ≡ f daemon
  unfolding by_decision refuse
  decision_kept daemon ctx runtime tx demands (deny code version) = refl
  decision_kept daemon ctx runtime tx demands (allow ids version) =
      reservation_kept _ runtime tx version
        (reserve_demands cfg deps readings request daemon runtime demands)
      ∙ reserve_kept cfg deps readings request f h daemon runtime demands

  evaluation_kept :
      (daemon : Daemon) (ctx : AuditContext) (runtime : AgentRuntime) (tx : DecodedTransaction)
      (o : Outcome Thrown EvaluationResult)
      → f (after_evaluation cfg deps readings request daemon ctx runtime tx o).0 ≡ f daemon
  unfolding after_evaluation refuse
  evaluation_kept daemon ctx runtime tx (err t) = refl
  evaluation_kept daemon ctx runtime tx (ok r) =
      decision_kept daemon ctx runtime tx r.quota_demands r.decision

  key_kept :
      (ctx : AuditContext) (runtime : AgentRuntime) (active : ActivePolicy)
      (tx : DecodedTransaction) (checked : Daemon × Bool)
      → f (after_key cfg deps readings request ctx runtime active tx checked).0 ≡ f checked.0
  unfolding after_key refuse
  key_kept ctx runtime active tx (daemon, false) = refl
  key_kept ctx runtime active tx (daemon, true) =
      evaluation_kept daemon ctx runtime tx (evaluate cfg deps readings request runtime active tx)

  decode_kept :
      (daemon : Daemon) (ctx : AuditContext) (runtime : AgentRuntime) (active : ActivePolicy)
      (o : Outcome Thrown DecodedTransaction)
      → f (after_decode cfg deps readings request daemon ctx runtime active o).0 ≡ f daemon
  unfolding after_decode refuse
  decode_kept daemon ctx runtime active (err t) = refl
  decode_kept daemon ctx runtime active (ok tx) =
      elim (Bool-cases (check_local_identity tx runtime.agent active.permission)) [
        | inr foreign ↦ rw foreign refl
        | inl own ↦ rw own (
            key_kept _ runtime active tx
              (check_authority cfg deps readings request daemon runtime active daemon.keys)
            ∙ authority_kept cfg deps readings request f h daemon runtime active daemon.keys)
      ]

  policy_kept :
      (ctx : AuditContext) (runtime : AgentRuntime)
      (loaded : Daemon × Outcome DenyCode ActivePolicy)
      → f (after_policy cfg deps readings request ctx runtime loaded).0 ≡ f loaded.0
  unfolding after_policy refuse
  policy_kept ctx runtime (daemon, err code) = refl
  policy_kept ctx runtime (daemon, ok active) =
      decode_kept daemon ctx runtime active (deps.decode request.transaction runtime.chain)

  pub nonce_kept :
      (daemon : Daemon) (ctx : AuditContext) (runtime : AgentRuntime) (state : NonceState)
      → f (after_nonce cfg deps readings request daemon ctx runtime state).0 ≡ f daemon
  unfolding after_nonce refuse
  nonce_kept daemon ctx runtime replayed = refl
  nonce_kept daemon ctx runtime full = refl
  nonce_kept daemon ctx runtime fresh = elim (Bool-cases (same_chain request runtime.chain)) [
    | inr other ↦ rw other refl
    | inl same ↦ rw same (
        policy_kept ctx runtime
          (load_policy cfg deps readings request daemon runtime daemon.policies)
        ∙ load_kept cfg deps readings request f h daemon runtime daemon.policies)
  ]

  pub gates_kept :
      (n : IgnoresNonces f) (daemon : Daemon) (ctx : AuditContext)
      (admitted : Outcome DenyCode AgentRuntime)
      → f (after_gates cfg deps readings request daemon ctx admitted).0 ≡ f daemon
  unfolding after_gates registered refuse
  gates_kept n daemon ctx (err code) = refl
  gates_kept n daemon ctx (ok runtime) =
      let (nonces, state) =
        register daemon.nonces runtime.agent request.nonce request.expires_at readings.now_ms in
      nonce_kept (record daemon { nonces = nonces }) ctx runtime state ∙ n daemon nonces

-- A reading of the state that no update of the pipeline changes.
pub record Ignores {A : Type 0} (f : Daemon → A) : Type 0 where
  pub nonces : IgnoresNonces f
  pub stores : IgnoresStores f
  pub signed_calls :
      (d : Daemon) (x : List (DecodedTransaction × KeyHandle))
      → f (record d { signed_calls = x }) ≡ f d
  pub broadcast_calls :
      (d : Daemon) (x : List (Option Value)) → f (record d { broadcast_calls = x }) ≡ f d

pub run_parsed_kept :
    (cfg : Config) (deps : Dependencies) (readings : Readings) (request : SignRequest) {A : Type 0}
    (f : Daemon → A)
    → Ignores f
    → (daemon : Daemon) → f (run_parsed cfg deps readings request daemon).0 ≡ f daemon
unfolding run_parsed
run_parsed_kept cfg deps readings request f h daemon =
    gates_kept cfg deps readings request f h.stores h.signed_calls
      (signing_kept cfg deps readings request f h.stores h.broadcast_calls) h.nonces daemon _
      (gates cfg deps daemon request readings.now_ms)
