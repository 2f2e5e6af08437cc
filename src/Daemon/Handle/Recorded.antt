-- ===== src/Daemon/Handle/Recorded.antt =====
-- Each response is in the log.
use signbox.Prelude.{
  ℕ, ◌+◌, ◌≡◌, refl, ap, ◌∙◌, sym, subst, ◌⊎◌, inl, inr, Option, none, some, [], ◌∷◌, ◌++◌, length,
}
use signbox.Prelude.Text.{Text, lit}
use signbox.Prelude.Outcome.{ok}
use signbox.Audit.{Entry, Row, Log, intact, verify}
use signbox.Audit.Tamper.{verify-append}
use signbox.Daemon.Protocol.{parse_sign_request}
use signbox.Daemon.State.{
  BroadcastOutcome, accepted, rejected, ambiguous, BroadcastReport, SignRequest, SignResponse,
  signed, denied, Config, Dependencies, Readings, Daemon, AuditContext,
}
use signbox.Daemon.Sign.Described.{IsDenied, NamesActions, run_parsed-Describes}
use signbox.Daemon.Sign.Kept.{Ignores, run_parsed_kept}
use signbox.Daemon.Handle.{
  code_text, outcome_text, report_text, audit_entry, audited, appended, run_decision, record_audit,
  handle_sign,
}

audit-Ignored : Ignores (λ (d : Daemon). d.audit)
audit-Ignored = record {
  nonces = λ d x. refl;
  stores = record { policies = λ d x. refl; keys = λ d x. refl; journal = λ d x. refl };
  signed_calls = λ d x. refl;
  broadcast_calls = λ d x. refl;
}

decision-audit :
    (cfg : Config) (deps : Dependencies) (readings : Readings) (daemon : Daemon)
    (request : Option SignRequest)
    → (run_decision cfg deps readings daemon request).0.audit ≡ daemon.audit
unfolding run_decision
decision-audit cfg deps readings daemon none = refl
decision-audit cfg deps readings daemon (some request) =
    run_parsed_kept cfg deps readings request (λ d. d.audit) audit-Ignored daemon

-- The text of a broadcast's outcome.
abbrev pub OutcomeReads : BroadcastOutcome → Text → Type 0
OutcomeReads (accepted receipt) t = t ≡ lit "accepted"
OutcomeReads (rejected reason) t = t ≡ lit "rejected"
OutcomeReads (ambiguous reason) t = t ≡ lit "ambiguous"

abbrev pub ReportReads : Option BroadcastReport → Option Text → Type 0
ReportReads none t = t ≡ none
ReportReads (some report) t = (s : Text) × (t ≡ some s) × OutcomeReads report.outcome s

-- The entry says what the response says.
abbrev pub IsRecorded : SignResponse → Entry → Type 0
IsRecorded (signed request_id signature digest tx version report) e =
    (e.request_id ≡ request_id)
    × (e.decision ≡ lit "signed")
    × (e.code ≡ none)
    × (e.policy_version ≡ some version)
    × (e.digest ≡ some digest)
    × ReportReads report e.broadcast
IsRecorded (denied request_id code version) e =
    (e.request_id ≡ request_id)
    × (e.decision ≡ lit "denied")
    × (e.code ≡ some (code_text code))
    × (e.policy_version ≡ version)
    × (e.digest ≡ none)
    × (e.broadcast ≡ none)

-- The entry names the agent of the line, "unknown" where the line does not read, and the actions of the
-- decoded transaction; a refusal may come before these are known.
abbrev pub IsAttributed : Dependencies → Option SignRequest → SignResponse → Entry → Type 0
IsAttributed deps none response e =
    (e.agent ≡ lit "unknown") × (e.contracts ≡ []) × IsDenied response
IsAttributed deps (some request) response e =
    (e.agent ≡ request.agent)
    × (NamesActions deps request e.contracts ⊎ ((e.contracts ≡ []) × IsDenied response))

outcome_text_lem : (o : BroadcastOutcome) → OutcomeReads o (outcome_text o)
unfolding outcome_text
outcome_text_lem (accepted receipt) = refl
outcome_text_lem (rejected reason) = refl
outcome_text_lem (ambiguous reason) = refl

report_text_lem : (report : Option BroadcastReport) → ReportReads report (report_text report)
unfolding report_text
report_text_lem none = refl
report_text_lem (some report) = (outcome_text report.outcome, refl, outcome_text_lem report.outcome)

audit_entry-IsRecorded :
    (response : SignResponse) (ctx : AuditContext) (now_ms : ℕ)
    → IsRecorded response (audit_entry response ctx now_ms)
      × ((audit_entry response ctx now_ms).timestamp_ms ≡ now_ms)
      × ((audit_entry response ctx now_ms).agent ≡ ctx.agent)
      × ((audit_entry response ctx now_ms).contracts ≡ ctx.contracts)
unfolding audit_entry
audit_entry-IsRecorded (signed request_id signature digest tx version report) ctx now_ms =
    ((refl, refl, refl, refl, refl, report_text_lem report), refl, refl, refl)
audit_entry-IsRecorded (denied request_id code version) ctx now_ms =
    ((refl, refl, refl, refl, refl, refl), refl, refl, refl)

decision-IsAttributed :
    (cfg : Config) (deps : Dependencies) (readings : Readings) (daemon : Daemon)
    (request : Option SignRequest) (e : Entry)
    → e.agent ≡ (run_decision cfg deps readings daemon request).1.agent
    → e.contracts ≡ (run_decision cfg deps readings daemon request).1.contracts
    → IsAttributed deps request (run_decision cfg deps readings daemon request).2 e
unfolding run_decision
decision-IsAttributed cfg deps readings daemon none e agent contracts = (agent, contracts, tt)
decision-IsAttributed cfg deps readings daemon (some request) e agent contracts =
    let (own, named) = run_parsed-Describes cfg deps readings request daemon in
    (
      agent ∙ own,
      elim named [
        | inl (chain, tx, decoded, names) ↦ inl (chain, tx, decoded, contracts ∙ names)
        | inr (nothing, refused) ↦ inr (contracts ∙ nothing, refused)
      ],
    )

-- The row that handling a line adds to a log.
pub record IsLogged (deps : Dependencies) (readings : Readings) (line : Text) (log : Log)
    (after : Option Log) (response : SignResponse) : Type 0 where
  pub row : Row
  pub grown : after ≡ some (log ++ (row ∷ []))
  pub recorded : IsRecorded response row.entry
  pub attributed : IsAttributed deps (parse_sign_request deps line) response row.entry
  pub stamped : row.entry.timestamp_ms ≡ readings.audit_now_ms
  pub verifies : verify deps.host.sha256_hex (log ++ (row ∷ [])) ≡ ok (intact (length log + 1))

-- Where the daemon keeps a log that verifies, handling a line as a sign request adds one row to it and
-- the log verifies with one row more. The row's entry has the response's request id, decision, code,
-- policy version, digest and broadcast outcome, the time of the record, the agent of the request
-- ("unknown" where the line does not read), and the names of the decoded transaction's actions; only
-- with a refusal these may be none.
pub handle_sign_recorded :
    (cfg : Config) (deps : Dependencies) (readings : Readings) (daemon : Daemon) (line : Text)
    (log : Log) (n : ℕ)
    → daemon.audit ≡ some log
    → verify deps.host.sha256_hex log ≡ ok (intact n)
    → IsLogged deps readings line log
        (handle_sign cfg deps readings daemon line).0.audit
        (handle_sign cfg deps readings daemon line).1
unfolding handle_sign record_audit audited appended
handle_sign_recorded cfg deps readings daemon line log n kept verifies =
    let request = parse_sign_request deps line in
    let result = run_decision cfg deps readings daemon request in
    let same = decision-audit cfg deps readings daemon request ∙ kept in
    let entry = audit_entry result.2 result.1 readings.audit_now_ms in
    let (says, stamped, agent, contracts) =
      audit_entry-IsRecorded result.2 result.1 readings.audit_now_ms in
    let (after, r, added, whole, is_entry, still) =
      verify-append deps.host.sha256_hex log entry n verifies in
    let attributed = decision-IsAttributed cfg deps readings daemon request entry agent contracts in
    record {
      row = r;
      grown = rw (same, added) (ap (λ (l : Log). some l) whole);
      recorded = subst (λ e. IsRecorded result.2 e) (sym is_entry) says;
      attributed = subst (λ e. IsAttributed deps request result.2 e) (sym is_entry) attributed;
      stamped = ap (λ (e : Entry). e.timestamp_ms) is_entry ∙ stamped;
      verifies =
          subst (λ l. verify deps.host.sha256_hex l ≡ ok (intact (length log + 1))) whole still;
    }
