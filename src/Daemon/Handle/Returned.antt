-- ===== src/Daemon/Handle/Returned.antt =====
-- The quota of a request whose broadcast is rejected.
use signbox.Prelude.{ℕ, ◌≤◌, ◌≡◌, ◌≢◌, sym, subst, Option, none, some, All}
use signbox.Prelude.Text.{Text}
use signbox.Quota.{
  Journal, Event, retention_ms, consumed, count_in_window, count_to_recipient, reserve, release,
}
use signbox.Quota.Windows.{release-reserve}
use signbox.Daemon.Protocol.{parse_sign_request}
use signbox.Daemon.State.{SignRequest, Config, Dependencies, Readings, Daemon}
use signbox.Daemon.Sign.Returned.{run_parsed-GivesBack}
use signbox.Daemon.Sign.Reserved.{IsReleased, IsGivenBack}
use signbox.Daemon.Handle.{run_decision, record_audit, handle_sign}

-- The journal allows what it allowed before: every sum and count of the window is the same.
pub record IsRestored (before after : Journal) (client rule_id symbol recipient : Text)
    (precision window_ms later_ms : ℕ) : Type 0 where
  pub amounts :
      consumed after client rule_id symbol precision window_ms later_ms
      ≡ consumed before client rule_id symbol precision window_ms later_ms
  pub count :
      count_in_window after client rule_id window_ms later_ms
      ≡ count_in_window before client rule_id window_ms later_ms
  pub to_recipient :
      count_to_recipient after client rule_id recipient window_ms later_ms
      ≡ count_to_recipient before client rule_id recipient window_ms later_ms

module _ (cfg : Config) (deps : Dependencies) (readings : Readings) (daemon : Daemon) where
  decision-IsGivenBack :
      (request : Option SignRequest)
      → IsReleased (run_decision cfg deps readings daemon request).2
      → IsGivenBack readings daemon.journal
          (run_decision cfg deps readings daemon request).0.journal
  unfolding run_decision
  decision-IsGivenBack none h = absurd h
  decision-IsGivenBack (some request) h = run_parsed-GivesBack cfg deps readings request daemon h

  given-IsRestored :
      (journal : Journal) (after : Option Journal) (client rule_id symbol recipient : Text)
      (precision window_ms later_ms : ℕ)
      → IsGivenBack readings (some journal) after
      → All (λ (e : Event). e.reservation_id ≢ readings.reservation_id) journal
      → window_ms ≤ retention_ms
      → readings.now_ms ≤ later_ms
      → (left : Journal) × (after ≡ some left)
        × IsRestored journal left client rule_id symbol recipient precision window_ms later_ms
  given-IsRestored journal after client rule_id symbol recipient precision window_ms later_ms g own
        short later =
      let same : g.journal ≡ journal = cc (g.had) in
      let (amounts, count, to_recipient) =
        release-reserve readings.reservation_id g.agent g.journal g.demands readings.now_ms client
          rule_id symbol recipient precision window_ms later_ms short later
          (subst (λ j. All (λ (e : Event). e.reservation_id ≢ readings.reservation_id) j) (sym same)
            own)
          g.took in
      let left =
        release readings.reservation_id
          (reserve readings.reservation_id g.journal g.agent g.demands readings.now_ms).0 in
      (
        left,
        g.gave,
        subst (λ j. IsRestored j left client rule_id symbol recipient precision window_ms later_ms)
            same (record { amounts = amounts; count = count; to_recipient = to_recipient }),
      )

-- A rejected broadcast costs nothing: where the response to a line is signed and says that the quota
-- was released, every sum and count of the journal, over a window of at most two days and at any later
-- time, is what it was before the request, if the id of the reservation was new.
pub handle_sign_released :
    (cfg : Config) (deps : Dependencies) (readings : Readings) (daemon : Daemon) (line : Text)
    (journal : Journal) (client rule_id symbol recipient : Text) (precision window_ms later_ms : ℕ)
    → daemon.journal ≡ some journal
    → IsReleased (handle_sign cfg deps readings daemon line).1
    → All (λ (e : Event). e.reservation_id ≢ readings.reservation_id) journal
    → window_ms ≤ retention_ms
    → readings.now_ms ≤ later_ms
    → (left : Journal) × ((handle_sign cfg deps readings daemon line).0.journal ≡ some left)
      × IsRestored journal left client rule_id symbol recipient precision window_ms later_ms
unfolding handle_sign record_audit
handle_sign_released cfg deps readings daemon line journal client rule_id symbol recipient precision
      window_ms later_ms had says own short later =
    given-IsRestored cfg deps readings daemon journal _ client rule_id symbol recipient precision
      window_ms later_ms
      (subst
        (λ j.
          IsGivenBack readings j
            (run_decision cfg deps readings daemon (parse_sign_request deps line)).0.journal)
        had (decision-IsGivenBack cfg deps readings daemon (parse_sign_request deps line) says))
      own short later
