-- ===== src/Daemon/Sign/Returned.antt =====
-- What a signed response that reports a released quota says of the journal.
use signbox.Prelude.{
  ℕ, ◌≡◌, refl, ◌∙◌, ap, subst, inl, inr, Bool, true, false, Option, none, some, List, ◌∷◌,
  Bool-cases,
}
use signbox.Prelude.Text.{Text}
use signbox.Prelude.Outcome.{Outcome, ok, err}
use signbox.Errors.{Thrown}
use signbox.Policy.Types.{
  DecodedTransaction, DenyCode, Decision, allow, deny, QuotaDemand, EvaluationResult,
}
use signbox.NonceCache.{NonceState, fresh, replayed, full, register}
use signbox.Quota.{Journal, release}
use signbox.PolicyCache.{PolicyCache, CachedPolicy}
use signbox.PolicyCache as Policies
use signbox.Daemon.Keys.{AuthorityCache, check_key, check_local_identity}
use signbox.Daemon.State.{
  AgentRuntime, SignRequest, Config, Dependencies, Readings, Daemon, AuditContext,
}
use signbox.Daemon.Gates.{gates, same_chain}
use signbox.Daemon.Submit.{RunResult, on_journal, refuse, after_reservation}
use signbox.Daemon.Sign.{
  ActivePolicy, reserve_demands, by_decision, evaluate, after_evaluation, after_key, key_checked,
  check_authority, after_decode, after_policy, policy_read, load_policy, after_nonce, registered,
  after_gates, run_parsed,
}
use signbox.Daemon.Sign.Reserved.{
  IsGivenBack, IsReleased, IsTaken, Takes, reserve_demands-Takes, signing-Releases,
}

module _ (cfg : Config) (deps : Dependencies) (readings : Readings) (request : SignRequest) where
  abbrev GivesBack : Option Journal → RunResult → Type 0
  GivesBack before (after, ctx, response) =
      IsReleased response → IsGivenBack readings before after.journal

  taken-IsGivenBack :
      (before held after : Option Journal) (id : Text)
      → IsTaken readings before held id
      → after ≡ on_journal (release id) held
      → IsGivenBack readings before after
  unfolding on_journal
  taken-IsGivenBack before held after id t e = record {
    journal = t.journal;
    agent = t.agent;
    demands = t.demands;
    had = t.had;
    took = t.took;
    gave =
        e
        ∙ ap (λ x. on_journal (release x) held) t.own
        ∙ ap (λ x. on_journal (release readings.reservation_id) x) t.held;
  }

  reservation-GivesBack :
      (before : Option Journal) (ctx : AuditContext) (runtime : AgentRuntime)
      (tx : DecodedTransaction) (version : ℕ) (held : Daemon × Outcome DenyCode (Option Text))
      → Takes cfg deps readings request before held
      → GivesBack before (after_reservation cfg deps readings request ctx runtime tx version held)
  unfolding after_reservation refuse
  reservation-GivesBack before ctx runtime tx version (daemon, err code) takes h = absurd h
  reservation-GivesBack before ctx runtime tx version (daemon, ok reservation) takes h =
      let (id, some_id, gave) =
        signing-Releases cfg deps readings request
          (record daemon { signed_calls = (tx, runtime.key) ∷ daemon.signed_calls }) ctx
          runtime.agent version reservation (deps.sign tx runtime.key) h in
      taken-IsGivenBack before daemon.journal _ id (takes id (ap (λ x. ok x) some_id)) gave

  decision-GivesBack :
      (daemon : Daemon) (ctx : AuditContext) (runtime : AgentRuntime) (tx : DecodedTransaction)
      (demands : List QuotaDemand) (d : Decision)
      → GivesBack daemon.journal
          (by_decision cfg deps readings request daemon ctx runtime tx demands d)
  unfolding by_decision refuse
  decision-GivesBack daemon ctx runtime tx demands (deny code version) h = absurd h
  decision-GivesBack daemon ctx runtime tx demands (allow ids version) h =
      reservation-GivesBack daemon.journal (record ctx { rule_ids = some ids }) runtime tx version
        (reserve_demands cfg deps readings request daemon runtime demands)
        (reserve_demands-Takes cfg deps readings request daemon runtime demands) h

  evaluation-GivesBack :
      (daemon : Daemon) (ctx : AuditContext) (runtime : AgentRuntime) (tx : DecodedTransaction)
      (o : Outcome Thrown EvaluationResult)
      → GivesBack daemon.journal
          (after_evaluation cfg deps readings request daemon ctx runtime tx o)
  unfolding after_evaluation refuse
  evaluation-GivesBack daemon ctx runtime tx (err t) h = absurd h
  evaluation-GivesBack daemon ctx runtime tx (ok r) h =
      decision-GivesBack daemon ctx runtime tx r.quota_demands r.decision h

  key-GivesBack :
      (before : Option Journal) (ctx : AuditContext) (runtime : AgentRuntime)
      (active : ActivePolicy) (tx : DecodedTransaction) (checked : Daemon × Bool)
      → checked.0.journal ≡ before
      → GivesBack before (after_key cfg deps readings request ctx runtime active tx checked)
  unfolding after_key refuse
  key-GivesBack before ctx runtime active tx (daemon, false) same h = absurd h
  key-GivesBack before ctx runtime active tx (daemon, true) same h =
      let result = evaluate cfg deps readings request runtime active tx in
      subst
        (λ j.
          IsGivenBack readings j
            (after_evaluation cfg deps readings request daemon ctx runtime tx result).0.journal)
        same (evaluation-GivesBack daemon ctx runtime tx result h)

  key_checked-journal :
      (daemon : Daemon) (checked : AuthorityCache × Bool)
      → (key_checked cfg deps readings request daemon checked).0.journal ≡ daemon.journal
  unfolding key_checked
  key_checked-journal daemon (keys, b) = refl

  check_authority-journal :
      (daemon : Daemon) (runtime : AgentRuntime) (active : ActivePolicy)
      (keys : Option AuthorityCache)
      → (check_authority cfg deps readings request daemon runtime active keys).0.journal
        ≡ daemon.journal
  unfolding check_authority
  check_authority-journal daemon runtime active none = refl
  check_authority-journal daemon runtime active (some keys) = key_checked-journal daemon (
      check_key keys runtime.agent active.permission runtime.key.public_key readings.key_now_ms
        readings.key_answer)

  decode-GivesBack :
      (daemon : Daemon) (ctx : AuditContext) (runtime : AgentRuntime) (active : ActivePolicy)
      (o : Outcome Thrown DecodedTransaction)
      → GivesBack daemon.journal
          (after_decode cfg deps readings request daemon ctx runtime active o)
  unfolding after_decode refuse
  decode-GivesBack daemon ctx runtime active (err t) = λ h. absurd h
  decode-GivesBack daemon ctx runtime active (ok tx) =
      elim (Bool-cases (check_local_identity tx runtime.agent active.permission)) [
        | inr foreign ↦ rw foreign (λ h. absurd h)
        | inl own ↦ rw own (
            key-GivesBack daemon.journal _ runtime active tx
              (check_authority cfg deps readings request daemon runtime active daemon.keys)
              (check_authority-journal daemon runtime active daemon.keys))
      ]

  policy-GivesBack :
      (before : Option Journal) (ctx : AuditContext) (runtime : AgentRuntime)
      (loaded : Daemon × Outcome DenyCode ActivePolicy)
      → loaded.0.journal ≡ before
      → GivesBack before (after_policy cfg deps readings request ctx runtime loaded)
  unfolding after_policy refuse
  policy-GivesBack before ctx runtime (daemon, err code) same h = absurd h
  policy-GivesBack before ctx runtime (daemon, ok active) same h =
      let decoded = deps.decode request.transaction runtime.chain in
      subst
        (λ j.
          IsGivenBack readings j
            (after_decode cfg deps readings request daemon ctx runtime active decoded).0.journal)
        same (decode-GivesBack daemon ctx runtime active decoded h)

  policy_read-journal :
      (daemon : Daemon) (read : PolicyCache × Outcome Thrown (Option CachedPolicy))
      → (policy_read cfg deps readings request daemon read).0.journal ≡ daemon.journal
  unfolding policy_read
  policy_read-journal daemon (policies, served) = refl

  load_policy-journal :
      (daemon : Daemon) (runtime : AgentRuntime) (policies : Option PolicyCache)
      → (load_policy cfg deps readings request daemon runtime policies).0.journal ≡ daemon.journal
  unfolding load_policy
  load_policy-journal daemon runtime none = refl
  load_policy-journal daemon runtime (some policies) = policy_read-journal daemon (
      Policies.get deps.host deps.dialect deps.policy_options policies runtime.agent readings.now_ms
        readings.policy_answer readings.policy_now_ms)

  nonce-GivesBack :
      (daemon : Daemon) (ctx : AuditContext) (runtime : AgentRuntime) (state : NonceState)
      → GivesBack daemon.journal (after_nonce cfg deps readings request daemon ctx runtime state)
  unfolding after_nonce refuse
  nonce-GivesBack daemon ctx runtime replayed = λ h. absurd h
  nonce-GivesBack daemon ctx runtime full = λ h. absurd h
  nonce-GivesBack daemon ctx runtime fresh = elim (Bool-cases (same_chain request runtime.chain)) [
    | inr other ↦ rw other (λ h. absurd h)
    | inl same ↦ rw same (
        policy-GivesBack daemon.journal ctx runtime
          (load_policy cfg deps readings request daemon runtime daemon.policies)
          (load_policy-journal daemon runtime daemon.policies))
  ]

  gates-GivesBack :
      (daemon : Daemon) (ctx : AuditContext) (admitted : Outcome DenyCode AgentRuntime)
      → GivesBack daemon.journal (after_gates cfg deps readings request daemon ctx admitted)
  unfolding after_gates registered refuse
  gates-GivesBack daemon ctx (err code) h = absurd h
  gates-GivesBack daemon ctx (ok runtime) h =
      let (nonces, state) =
        register daemon.nonces runtime.agent request.nonce request.expires_at readings.now_ms in
      nonce-GivesBack (record daemon { nonces = nonces }) ctx runtime state h

  pub run_parsed-GivesBack :
      (daemon : Daemon)
      → IsReleased (run_parsed cfg deps readings request daemon).2
      → IsGivenBack readings daemon.journal (run_parsed cfg deps readings request daemon).0.journal
  unfolding run_parsed
  run_parsed-GivesBack daemon h =
      gates-GivesBack daemon _ (gates cfg deps daemon request readings.now_ms) h
