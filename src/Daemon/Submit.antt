-- ===== src/Daemon/Submit.antt =====
-- src/daemon/server.ts, `runDecision` from the call of the signer on: the broadcast and the fate of the
-- reservation.
use signbox.Prelude.{ℕ, Option, none, some, ◌∷◌, if◌then◌else◌}
use signbox.Prelude.Text.{Text}
use signbox.Prelude.Outcome.{Outcome, ok, err}
use signbox.Errors.{Thrown}
use signbox.Value.{Value}
use signbox.Policy.Types.{DecodedTransaction, DenyCode, internal_error}
use signbox.Quota.{Journal, release, commit}
use signbox.Daemon.State.{
  AgentRuntime, SignRequest, SignedTransaction, BroadcastOutcome, accepted, rejected, ambiguous,
  QuotaFate, committed, released, no_quota, BroadcastReport, SignResponse, signed, denied, Config,
  Dependencies, Readings, Daemon, AuditContext,
}

abbrev pub RunResult : Type 0
RunResult = Daemon × AuditContext × SignResponse

unfoldable pub on_journal : (Journal → Journal) → Option Journal → Option Journal
on_journal f none = none
on_journal f (some journal) = some (f journal)

module _ (cfg : Config) (deps : Dependencies) (readings : Readings) (request : SignRequest) where
  unfoldable pub refuse : Daemon → AuditContext → DenyCode → Option ℕ → RunResult
  refuse daemon ctx code version = (daemon, ctx, denied request.request_id code version)

  unfoldable pub respond :
      SignedTransaction → ℕ → Option Value → Option BroadcastReport → SignResponse
  respond s version signed_transaction report =
      signed request.request_id s.signature s.transaction_digest signed_transaction version report

  -- `commit` and `release` of the reservation, if there is one.
  unfoldable pub commit_reservation : Daemon → Text → Option Text → Text → Daemon
  unfolding on_journal
  commit_reservation daemon agent none digest = daemon
  commit_reservation daemon agent (some id) digest = record daemon {
    journal = on_journal (commit id agent digest) daemon.journal;
  }

  unfoldable pub release_reservation : Daemon → Option Text → Daemon
  unfolding on_journal
  release_reservation daemon none = daemon
  release_reservation daemon (some id) = record daemon {
    journal = on_journal (release id) daemon.journal;
  }

  unfoldable pub quota_state : Option Text → QuotaFate → QuotaFate
  quota_state none fate = no_quota
  quota_state (some id) fate = fate

  unfoldable pub settle :
      Daemon
      → AuditContext
      → Text
      → ℕ
      → Option Text
      → SignedTransaction
      → BroadcastOutcome
      → RunResult
  unfolding respond commit_reservation release_reservation quota_state
  settle daemon ctx agent version reservation s (accepted receipt) = (
    commit_reservation daemon agent reservation s.transaction_digest,
    ctx,
    respond s version none
        (some (record { outcome = accepted receipt; quota = quota_state reservation committed })),
  )
  settle daemon ctx agent version reservation s (rejected reason) = (
    release_reservation daemon reservation,
    ctx,
    respond s version none
        (some (record { outcome = rejected reason; quota = quota_state reservation released })),
  )
  settle daemon ctx agent version reservation s (ambiguous reason) = (
    commit_reservation daemon agent reservation s.transaction_digest,
    ctx,
    respond s version none
        (some (record { outcome = ambiguous reason; quota = quota_state reservation committed })),
  )

  unfoldable pub after_broadcast :
      Daemon
      → AuditContext
      → Text
      → ℕ
      → Option Text
      → SignedTransaction
      → Outcome Thrown BroadcastOutcome
      → RunResult
  unfolding refuse settle
  after_broadcast daemon ctx agent version reservation s (err t) =
      refuse daemon ctx internal_error none
  after_broadcast daemon ctx agent version reservation s (ok outcome) =
      settle daemon ctx agent version reservation s outcome

  unfoldable pub submit :
      Daemon
      → AuditContext
      → Text
      → ℕ
      → Option Text
      → SignedTransaction
      → Option (Option Value → Outcome Thrown BroadcastOutcome)
      → RunResult
  unfolding respond commit_reservation after_broadcast
  submit daemon ctx agent version reservation s none = (
    commit_reservation daemon agent reservation s.transaction_digest,
    ctx,
    respond s version s.signed_transaction none,
  )
  submit daemon ctx agent version reservation s (some broadcast) =
      after_broadcast
        (record daemon { broadcast_calls = s.signed_transaction ∷ daemon.broadcast_calls }) ctx
        agent version reservation s (broadcast s.signed_transaction)

  unfoldable pub after_signing :
      Daemon → AuditContext → Text → ℕ → Option Text → Outcome Thrown SignedTransaction → RunResult
  unfolding refuse release_reservation submit
  after_signing daemon ctx agent version reservation (err t) =
      refuse (release_reservation daemon reservation) ctx internal_error none
  after_signing daemon ctx agent version reservation (ok s) =
      submit daemon ctx agent version reservation s
        (if request.broadcast then deps.broadcast else none)

  unfoldable pub after_reservation :
      AuditContext
      → AgentRuntime
      → DecodedTransaction
      → ℕ
      → Daemon × Outcome DenyCode (Option Text)
      → RunResult
  unfolding refuse after_signing
  after_reservation ctx runtime tx version (daemon, err code) =
      refuse daemon ctx code (some version)
  after_reservation ctx runtime tx version (daemon, ok reservation) =
      after_signing (record daemon { signed_calls = (tx, runtime.key) ∷ daemon.signed_calls }) ctx
        runtime.agent version reservation (deps.sign tx runtime.key)
