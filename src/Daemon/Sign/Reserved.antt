-- ===== src/Daemon/Sign/Reserved.antt =====
-- The reservation that a request takes, and the one that its response says is released.
use signbox.Prelude.{ℕ, ◌≡◌, refl, sym, ap, Option, none, some, List, [], ◌∷◌, if◌then◌else◌}
use signbox.Prelude.Text.{Text}
use signbox.Prelude.Outcome.{Outcome, ok, err}
use signbox.Errors.{Thrown}
use signbox.Value.{Value}
use signbox.Policy.Types.{DenyCode, QuotaDemand}
use signbox.Quota.{Journal, Refusal, reserve, release}
use signbox.Daemon.State.{
  AgentRuntime, SignRequest, SignedTransaction, BroadcastOutcome, accepted, rejected, ambiguous,
  released, SignResponse, signed, denied, Config, Dependencies, Readings, Daemon, AuditContext,
}
use signbox.Daemon.Submit.{
  RunResult, on_journal, refuse, release_reservation, quota_state, respond, settle, after_broadcast,
  submit, after_signing,
}
use signbox.Daemon.Sign.{reserved, reserve_in, reserve_demands}

-- A signed response whose report says that the quota was released.
abbrev pub IsReleased : SignResponse → Type 0
IsReleased (signed request_id signature digest transaction version none) = ⊥
IsReleased (signed request_id signature digest transaction version (some report)) =
    report.quota ≡ released
IsReleased (denied request_id code version) = ⊥

module _ (readings : Readings) where
  -- A reservation that the journal took.
  pub record IsTaken (before after : Option Journal) (id : Text) : Type 0 where
    pub journal : Journal
    pub agent : Text
    pub demands : List QuotaDemand
    pub own : id ≡ readings.reservation_id
    pub had : before ≡ some journal
    pub took : (reserve readings.reservation_id journal agent demands readings.now_ms).1 ≡ ok tt
    pub held :
        after ≡ some (reserve readings.reservation_id journal agent demands readings.now_ms).0

  -- The reservation was taken and released.
  pub record IsGivenBack (before after : Option Journal) : Type 0 where
    pub journal : Journal
    pub agent : Text
    pub demands : List QuotaDemand
    pub had : before ≡ some journal
    pub took : (reserve readings.reservation_id journal agent demands readings.now_ms).1 ≡ ok tt
    pub gave :
        after
        ≡ some (
            release readings.reservation_id
              (reserve readings.reservation_id journal agent demands readings.now_ms).0)

module _ (cfg : Config) (deps : Dependencies) (readings : Readings) (request : SignRequest) where
  -- The reservation that the response says is released, if it says so.
  abbrev Releases : Option Journal → Option Text → RunResult → Type 0
  Releases journal reservation (after, ctx, response) =
      IsReleased response
      → (id : Text) × (reservation ≡ some id) × (after.journal ≡ on_journal (release id) journal)

  settle-Releases :
      (daemon : Daemon) (ctx : AuditContext) (agent : Text) (version : ℕ)
      (reservation : Option Text) (s : SignedTransaction) (outcome : BroadcastOutcome)
      → Releases daemon.journal reservation
          (settle cfg deps readings request daemon ctx agent version reservation s outcome)
  unfolding settle respond quota_state release_reservation
  settle-Releases daemon ctx agent version none s (accepted receipt) h = absurd (cc (h))
  settle-Releases daemon ctx agent version (some id) s (accepted receipt) h = absurd (cc (h))
  settle-Releases daemon ctx agent version none s (rejected reason) h = absurd (cc (h))
  settle-Releases daemon ctx agent version (some id) s (rejected reason) h = (id, refl, refl)
  settle-Releases daemon ctx agent version none s (ambiguous reason) h = absurd (cc (h))
  settle-Releases daemon ctx agent version (some id) s (ambiguous reason) h = absurd (cc (h))

  broadcast-Releases :
      (daemon : Daemon) (ctx : AuditContext) (agent : Text) (version : ℕ)
      (reservation : Option Text) (s : SignedTransaction)
      (outcome : Outcome Thrown BroadcastOutcome)
      → Releases daemon.journal reservation
          (after_broadcast cfg deps readings request daemon ctx agent version reservation s outcome)
  unfolding after_broadcast refuse
  broadcast-Releases daemon ctx agent version reservation s (err t) h = absurd h
  broadcast-Releases daemon ctx agent version reservation s (ok outcome) h =
      settle-Releases daemon ctx agent version reservation s outcome h

  submit-Releases :
      (daemon : Daemon) (ctx : AuditContext) (agent : Text) (version : ℕ)
      (reservation : Option Text) (s : SignedTransaction)
      (broadcast : Option (Option Value → Outcome Thrown BroadcastOutcome))
      → Releases daemon.journal reservation
          (submit cfg deps readings request daemon ctx agent version reservation s broadcast)
  unfolding submit respond
  submit-Releases daemon ctx agent version reservation s none h = absurd h
  submit-Releases daemon ctx agent version reservation s (some broadcast) h =
      broadcast-Releases
        (record daemon { broadcast_calls = s.signed_transaction ∷ daemon.broadcast_calls }) ctx
        agent version reservation s (broadcast s.signed_transaction) h

  pub signing-Releases :
      (daemon : Daemon) (ctx : AuditContext) (agent : Text) (version : ℕ)
      (reservation : Option Text) (s : Outcome Thrown SignedTransaction)
      → Releases daemon.journal reservation
          (after_signing cfg deps readings request daemon ctx agent version reservation s)
  unfolding after_signing refuse
  signing-Releases daemon ctx agent version reservation (err t) h = absurd h
  signing-Releases daemon ctx agent version reservation (ok s) h =
      submit-Releases daemon ctx agent version reservation s
        (if request.broadcast then deps.broadcast else none) h

  -- What a reservation that is held took.
  abbrev pub Takes : Option Journal → Daemon × Outcome DenyCode (Option Text) → Type 0
  Takes before (after, held) =
      (id : Text) → held ≡ ok (some id) → IsTaken readings before after.journal id

  reserved-Takes :
      (daemon : Daemon) (journal : Journal) (agent : Text) (demands : List QuotaDemand)
      (result : Journal × Outcome Refusal (Unit {0}))
      → reserve readings.reservation_id journal agent demands readings.now_ms ≡ result
      → daemon.journal ≡ some journal
      → Takes daemon.journal (reserved cfg deps readings request daemon result)
  unfolding reserved
  reserved-Takes daemon journal agent demands (after, err r) e had id h = absurd (cc (h))
  reserved-Takes daemon journal agent demands (after, ok u) e had id h = record {
    journal = journal;
    agent = agent;
    demands = demands;
    own = cc (h);
    had = had;
    took = ap (λ x. x.1) e;
    held = sym (ap (λ x. some (x.0)) e);
  }

  reserve_in-Takes :
      (daemon : Daemon) (runtime : AgentRuntime) (demands : List QuotaDemand)
      (journal : Option Journal)
      → daemon.journal ≡ journal
      → Takes daemon.journal (reserve_in cfg deps readings request daemon runtime demands journal)
  unfolding reserve_in
  reserve_in-Takes daemon runtime demands none e id h = absurd (cc (h))
  reserve_in-Takes daemon runtime demands (some journal) e id h =
      reserved-Takes daemon journal runtime.agent demands _ refl e id h

  pub reserve_demands-Takes :
      (daemon : Daemon) (runtime : AgentRuntime) (demands : List QuotaDemand)
      → Takes daemon.journal (reserve_demands cfg deps readings request daemon runtime demands)
  unfolding reserve_demands
  reserve_demands-Takes daemon runtime [] id h = absurd (cc (h))
  reserve_demands-Takes daemon runtime (d ∷ ds) id h =
      reserve_in-Takes daemon runtime (d ∷ ds) daemon.journal refl id h
