-- ===== src/Daemon/Sign/Stores.antt =====
-- What the steps of a sign request around the daemon's stores leave alone.
use signbox.Prelude.{ℕ, ◌≡◌, refl, ◌∙◌, Bool, Option, none, some, List, [], ◌∷◌, if◌then◌else◌}
use signbox.Prelude.Text.{Text}
use signbox.Prelude.Outcome.{Outcome, ok, err}
use signbox.Errors.{Thrown}
use signbox.Policy.Types.{QuotaDemand}
use signbox.PolicyCache.{PolicyCache, CachedPolicy}
use signbox.PolicyCache as Policies
use signbox.Quota.{Journal, Refusal, reserve}
use signbox.Daemon.Keys.{AuthorityCache, check_key}
use signbox.Daemon.State.{
  AgentRuntime, SignRequest, SignedTransaction, Config, Dependencies, Readings, Daemon,
  AuditContext,
}
use signbox.Daemon.Sign.{
  ActivePolicy, reserved, reserve_in, reserve_demands, key_checked, check_authority, policy_read,
  load_policy,
}
use signbox.Daemon.Submit.{refuse, commit_reservation, release_reservation, submit, after_signing}
use signbox.Daemon.State.{BroadcastOutcome, accepted, rejected, ambiguous}
use signbox.Daemon.Submit.{settle, after_broadcast}
use signbox.Value.{Value}
use signbox.NonceCache.{NonceCache}

abbrev pub IgnoresNonces : {A : Type 0} → (Daemon → A) → Type 0
IgnoresNonces f = (d : Daemon) (x : NonceCache) → f (record d { nonces = x }) ≡ f d

-- A reading of the state that does not see the stores behind the nonces.
pub record IgnoresStores {A : Type 0} (f : Daemon → A) : Type 0 where
  pub policies : (d : Daemon) (x : Option PolicyCache) → f (record d { policies = x }) ≡ f d
  pub keys : (d : Daemon) (x : Option AuthorityCache) → f (record d { keys = x }) ≡ f d
  pub journal : (d : Daemon) (x : Option Journal) → f (record d { journal = x }) ≡ f d

module _ (cfg : Config) (deps : Dependencies) (readings : Readings) (request : SignRequest)
    {A : Type 0} (f : Daemon → A) (h : IgnoresStores f) where
  pub commit_kept :
      (daemon : Daemon) (agent : Text) (reservation : Option Text) (digest : Text)
      → f (commit_reservation cfg deps readings request daemon agent reservation digest) ≡ f daemon
  unfolding commit_reservation
  commit_kept daemon agent none digest = refl
  commit_kept daemon agent (some id) digest = h.journal daemon _

  pub release_kept :
      (daemon : Daemon) (reservation : Option Text)
      → f (release_reservation cfg deps readings request daemon reservation) ≡ f daemon
  unfolding release_reservation
  release_kept daemon none = refl
  release_kept daemon (some id) = h.journal daemon _

  reserved_kept :
      (daemon : Daemon) (after : Journal × Outcome Refusal (Unit {0}))
      → f (reserved cfg deps readings request daemon after).0 ≡ f daemon
  unfolding reserved
  reserved_kept daemon (journal, err r) = h.journal daemon _
  reserved_kept daemon (journal, ok u) = h.journal daemon _

  reserve_in_kept :
      (daemon : Daemon) (runtime : AgentRuntime) (demands : List QuotaDemand)
      (journal : Option Journal)
      → f (reserve_in cfg deps readings request daemon runtime demands journal).0 ≡ f daemon
  unfolding reserve_in
  reserve_in_kept daemon runtime demands none = refl
  reserve_in_kept daemon runtime demands (some journal) =
      reserved_kept daemon
        (reserve readings.reservation_id journal runtime.agent demands readings.now_ms)

  pub reserve_kept :
      (daemon : Daemon) (runtime : AgentRuntime) (demands : List QuotaDemand)
      → f (reserve_demands cfg deps readings request daemon runtime demands).0 ≡ f daemon
  unfolding reserve_demands
  reserve_kept daemon runtime [] = refl
  reserve_kept daemon runtime (d ∷ ds) = reserve_in_kept daemon runtime (d ∷ ds) daemon.journal

  key_checked_kept :
      (daemon : Daemon) (checked : AuthorityCache × Bool)
      → f (key_checked cfg deps readings request daemon checked).0 ≡ f daemon
  unfolding key_checked
  key_checked_kept daemon (keys, b) = h.keys daemon _

  pub authority_kept :
      (daemon : Daemon) (runtime : AgentRuntime) (active : ActivePolicy)
      (keys : Option AuthorityCache)
      → f (check_authority cfg deps readings request daemon runtime active keys).0 ≡ f daemon
  unfolding check_authority
  authority_kept daemon runtime active none = refl
  authority_kept daemon runtime active (some keys) = key_checked_kept daemon (
      check_key keys runtime.agent active.permission runtime.key.public_key readings.key_now_ms
        readings.key_answer)

  policy_read_kept :
      (daemon : Daemon) (read : PolicyCache × Outcome Thrown (Option CachedPolicy))
      → f (policy_read cfg deps readings request daemon read).0 ≡ f daemon
  unfolding policy_read
  policy_read_kept daemon (policies, served) = h.policies daemon _

  pub load_kept :
      (daemon : Daemon) (runtime : AgentRuntime) (policies : Option PolicyCache)
      → f (load_policy cfg deps readings request daemon runtime policies).0 ≡ f daemon
  unfolding load_policy
  load_kept daemon runtime none = refl
  load_kept daemon runtime (some policies) = policy_read_kept daemon (
      Policies.get deps.host deps.dialect deps.policy_options policies runtime.agent readings.now_ms
        readings.policy_answer readings.policy_now_ms)

module _ (cfg : Config) (deps : Dependencies) (readings : Readings) (request : SignRequest)
    {A : Type 0} (f : Daemon → A) (h : IgnoresStores f)
    (b : (d : Daemon) (x : List (Option Value)) → f (record d { broadcast_calls = x }) ≡ f d) where
  broadcast_kept :
      (daemon : Daemon) (ctx : AuditContext) (agent : Text) (version : ℕ)
      (reservation : Option Text) (s : SignedTransaction)
      (outcome : Outcome Thrown BroadcastOutcome)
      → f
          (after_broadcast cfg deps readings request daemon ctx agent version reservation s
            outcome).0
        ≡ f daemon
  unfolding after_broadcast settle refuse
  broadcast_kept daemon ctx agent version reservation s (err t) = refl
  broadcast_kept daemon ctx agent version reservation s (ok (accepted receipt)) =
      commit_kept cfg deps readings request f h daemon agent reservation s.transaction_digest
  broadcast_kept daemon ctx agent version reservation s (ok (rejected reason)) =
      release_kept cfg deps readings request f h daemon reservation
  broadcast_kept daemon ctx agent version reservation s (ok (ambiguous reason)) =
      commit_kept cfg deps readings request f h daemon agent reservation s.transaction_digest

  submit_kept :
      (daemon : Daemon) (ctx : AuditContext) (agent : Text) (version : ℕ)
      (reservation : Option Text) (s : SignedTransaction)
      (broadcast : Option (Option Value → Outcome Thrown BroadcastOutcome))
      → f (submit cfg deps readings request daemon ctx agent version reservation s broadcast).0
        ≡ f daemon
  unfolding submit
  submit_kept daemon ctx agent version reservation s none =
      commit_kept cfg deps readings request f h daemon agent reservation s.transaction_digest
  submit_kept daemon ctx agent version reservation s (some broadcast) =
      broadcast_kept
        (record daemon { broadcast_calls = s.signed_transaction ∷ daemon.broadcast_calls }) ctx
        agent version reservation s (broadcast s.signed_transaction)
      ∙ b daemon _

  pub signing_kept :
      (daemon : Daemon) (ctx : AuditContext) (agent : Text) (version : ℕ)
      (reservation : Option Text) (s : Outcome Thrown SignedTransaction)
      → f (after_signing cfg deps readings request daemon ctx agent version reservation s).0
        ≡ f daemon
  unfolding after_signing refuse
  signing_kept daemon ctx agent version reservation (err t) =
      release_kept cfg deps readings request f h daemon reservation
  signing_kept daemon ctx agent version reservation (ok s) =
      submit_kept daemon ctx agent version reservation s
        (if request.broadcast then deps.broadcast else none)
