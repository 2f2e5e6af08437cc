-- ===== src/Quota/Caps.antt =====
-- The caps hold over any run of the journal's operations.
use signbox.Prelude.{
  ℕ, ◌+◌, ◌≤◌, ◌<◌, ◌≡◌, subst, inl, inr, Bool, true, false, ◌&&◌, Option, some, [], ◌∷◌, arith,
  if◌then◌else◌, Bool-cases,
}
use signbox.Prelude.Text.{Text, text_eq_iff}
use signbox.Prelude.Outcome.{ok}
use signbox.Asset.{AssetAmount}
use signbox.Policy.Types.{QuotaDemand}
use signbox.Quota.{
  hour_ms, day_ms, Event, committed, Journal, is_released, in_window, same_unit, total, consumed,
  count_in_window, guard, check_window, check_demand, check_count, reserved_event, count_events,
  sum_units,
}
use signbox.Quota.Totals.{total-append}
use signbox.Quota.History.{History, ReservesWithin, History-le}

-- The two windows that a demand may cap.
pub data Span : Type 0 where
  per_hour per_day : Span

abbrev pub span_ms : Span → ℕ
span_ms per_hour = hour_ms
span_ms per_day = day_ms

abbrev pub cap_of : Span → QuotaDemand → Option AssetAmount
cap_of per_hour d = d.max_per_hour
cap_of per_day d = d.max_per_day

abbrev pub count_cap_of : Span → QuotaDemand → Option ℕ
count_cap_of per_hour d = d.max_count_per_hour
count_cap_of per_day d = d.max_count_per_day

check_demand-window :
    (span : Span) (journal : Journal) (agent : Text) (d : QuotaDemand) (now_ms : ℕ)
    → check_demand journal agent d now_ms ≡ ok tt
    → check_window journal agent d.rule_id d.amount (cap_of span d) (span_ms span) now_ms ≡ ok tt
unfolding check_demand
check_demand-window per_hour journal agent d now_ms h = ground arith
check_demand-window per_day journal agent d now_ms h = ground arith

check_demand-count :
    (span : Span) (journal : Journal) (agent : Text) (d : QuotaDemand) (now_ms : ℕ)
    → check_demand journal agent d now_ms ≡ ok tt
    → check_count journal agent d.rule_id (count_cap_of span d) (span_ms span) now_ms ≡ ok tt
unfolding check_demand
check_demand-count per_hour journal agent d now_ms h = ground arith
check_demand-count per_day journal agent d now_ms h = ground arith

check_window-le :
    (journal : Journal) (agent rule_id : Text) (amount cap : AssetAmount) (window_ms now_ms : ℕ)
    → check_window journal agent rule_id amount (some cap) window_ms now_ms ≡ ok tt
    → (cap.symbol ≡ amount.symbol)
      × (cap.precision ≡ amount.precision)
      × (consumed journal agent rule_id amount.symbol amount.precision window_ms now_ms
            + amount.units
          ≤ cap.units)
unfolding check_window guard
check_window-le journal agent rule_id amount cap window_ms now_ms h =
    (ground (arith, text_eq_iff cap.symbol amount.symbol), ground arith, ground arith)

module _ (span : Span) (agent rule_id : Text) where
  abbrev window_weight : (Event → ℕ) → (Event → Bool) → ℕ → Event → ℕ
  window_weight amount unit t e =
      if in_window agent rule_id (span_ms span) t e && unit e then amount e else 0

  window_weight-falls :
      (amount : Event → ℕ) (unit : Event → Bool) (t u : ℕ) (e : Event)
      → t ≤ u
      → window_weight amount unit u e ≤ window_weight amount unit t e
  unfolding in_window
  window_weight-falls amount unit t u e le = ground arith

  in_window-released :
      (t : ℕ) (e : Event)
      → is_released e.state ≡ true
      → in_window agent rule_id (span_ms span) t e ≡ false
  unfolding in_window
  in_window-released t e dead = ground arith

  in_window-committed :
      (t : ℕ) (e : Event) (digest : Text)
      → is_released e.state ≡ false
      → in_window agent rule_id
          (span_ms span)
          t
          (record e { state = committed; digest = some digest })
        ≡ in_window agent rule_id (span_ms span) t e
  unfolding in_window is_released
  in_window-committed t e digest live = ground arith

  -- A new row of another agent or rule is in no window of this one.
  in_window-reserved :
      (rid other : Text) (d : QuotaDemand) (now_ms : ℕ)
      → in_window agent rule_id (span_ms span) now_ms (reserved_event rid other d now_ms) ≡ true
      → (other ≡ agent) × (d.rule_id ≡ rule_id)
  unfolding in_window reserved_event
  in_window-reserved rid other d now_ms h =
      ground (arith, text_eq_iff other agent, text_eq_iff d.rule_id rule_id)

-- The demands of a rule all carry the same cap.
abbrev pub Carries : Span → Text → AssetAmount → QuotaDemand → Type 0
Carries span rule_id cap d = d.rule_id ≡ rule_id → cap_of span d ≡ some cap

abbrev pub CarriesCount : Span → Text → ℕ → QuotaDemand → Type 0
CarriesCount span rule_id most d = d.rule_id ≡ rule_id → count_cap_of span d ≡ some most

module _ (span : Span) (agent rule_id : Text) (cap : AssetAmount) where
  abbrev units_weight : ℕ → Event → ℕ
  units_weight =
      window_weight span agent rule_id (λ e. e.units) (same_unit cap.symbol cap.precision)

  one_row-le :
      (rid other : Text) (d : QuotaDemand) (now_ms : ℕ)
      → total (units_weight now_ms) (reserved_event rid other d now_ms ∷ []) ≤ d.amount.units
  unfolding total reserved_event
  one_row-le rid other d now_ms = ground arith

  -- The check that the demand passed, read at the agent, the rule and the cap of the section.
  checked-le :
      (journal : Journal) (other : Text) (d : QuotaDemand) (now_ms : ℕ)
      → other ≡ agent
      → d.rule_id ≡ rule_id
      → cap_of span d ≡ some cap
      → check_demand journal other d now_ms ≡ ok tt
      → consumed journal agent rule_id cap.symbol cap.precision (span_ms span) now_ms
          + d.amount.units
        ≤ cap.units
  checked-le journal other d now_ms same_agent same_rule capped passed =
      let (sym_eq, prec_eq, le) =
        check_window-le journal other d.rule_id d.amount cap (span_ms span) now_ms (
          subst (λ c. check_window journal other d.rule_id d.amount c (span_ms span) now_ms ≡ ok tt)
            capped (check_demand-window span journal other d now_ms passed)) in
      rw (← same_agent, ← same_rule, sym_eq, prec_eq) le

  reserves_units : ReservesWithin (Carries span rule_id cap) units_weight cap.units
  unfolding consumed sum_units
  reserves_units rid other journal d now_ms carries passed le =
      rw total-append
        (elim (Bool-cases
          (in_window agent rule_id (span_ms span) now_ms (reserved_event rid other d now_ms))) [
            | inr out ↦ unfold total in rw out (omega arith)
            | inl here ↦
                let (same_agent, same_rule) =
                  in_window-reserved span agent rule_id rid other d now_ms here in
                omega (
                  arith,
                  one_row-le rid other d now_ms,
                  checked-le journal other d now_ms same_agent same_rule (carries same_rule) passed,
                )
          ])

-- Whatever operations the journal has gone through, with a clock that does not run backwards and
-- commits only of rows that are not released: if every demand of a rule carries the same hourly (or
-- daily) cap, then at any later time no agent has consumed more than the cap under that rule in the
-- last hour (day), counted in the cap's unit.
pub consumed-le-cap :
    (span : Span) (agent rule_id : Text) (cap : AssetAmount) {journal : Journal} {then_ms : ℕ}
    → History (Carries span rule_id cap) journal then_ms
    → (later_ms : ℕ) → then_ms ≤ later_ms
    → consumed journal agent rule_id cap.symbol cap.precision (span_ms span) later_ms ≤ cap.units
unfolding consumed sum_units
consumed-le-cap span agent rule_id cap history later_ms le =
    History-le (Carries span rule_id cap) (units_weight span agent rule_id cap) cap.units
      (λ t u e t_le.
        window_weight-falls span agent rule_id (λ x. x.units) (same_unit cap.symbol cap.precision) t
          u e t_le)
      (λ t. (
        λ e dead. rw (in_window-released span agent rule_id t e dead),
        λ e digest live.
            unfold same_unit in rw (in_window-committed span agent rule_id t e digest live),
      ))
      (reserves_units span agent rule_id cap) history later_ms le

module _ (span : Span) (agent rule_id : Text) (most : ℕ) where
  abbrev count_weight : ℕ → Event → ℕ
  count_weight t e = if in_window agent rule_id (span_ms span) t e then 1 else 0

  counted-lt :
      (journal : Journal) (other : Text) (d : QuotaDemand) (now_ms : ℕ)
      → other ≡ agent
      → d.rule_id ≡ rule_id
      → count_cap_of span d ≡ some most
      → check_demand journal other d now_ms ≡ ok tt
      → count_in_window journal agent rule_id (span_ms span) now_ms < most
  unfolding check_count guard
  counted-lt journal other d now_ms same_agent same_rule capped passed =
      rw (← same_agent, ← same_rule)
        (ground (
          arith,
          subst (λ c. check_count journal other d.rule_id c (span_ms span) now_ms ≡ ok tt) capped
              (check_demand-count span journal other d now_ms passed),
        ))

  reserves_count : ReservesWithin (CarriesCount span rule_id most) count_weight most
  unfolding count_in_window count_events
  reserves_count rid other journal d now_ms carries passed le =
      rw total-append
        (elim (Bool-cases
          (in_window agent rule_id (span_ms span) now_ms (reserved_event rid other d now_ms))) [
            | inr out ↦ unfold total in rw out (omega arith)
            | inl here ↦
                let (same_agent, same_rule) =
                  in_window-reserved span agent rule_id rid other d now_ms here in
                unfold total in
                rw here (
                  omega (
                    arith,
                    counted-lt journal other d now_ms same_agent same_rule (carries same_rule)
                        passed,
                  ))
          ])

-- Whatever operations the journal has gone through, with a clock that does not run backwards and
-- commits only of rows that are not released: if every demand of a rule carries the same hourly (or
-- daily) maximum count, then at any later time no agent has more rows under that rule in the last hour
-- (day), those that are released left aside, than the maximum.
pub count_in_window-le-max :
    (span : Span) (agent rule_id : Text) (most : ℕ) {journal : Journal} {then_ms : ℕ}
    → History (CarriesCount span rule_id most) journal then_ms
    → (later_ms : ℕ) → then_ms ≤ later_ms
    → count_in_window journal agent rule_id (span_ms span) later_ms ≤ most
unfolding count_in_window count_events
count_in_window-le-max span agent rule_id most history later_ms le =
    History-le (CarriesCount span rule_id most) (count_weight span agent rule_id most) most
      (λ t u e t_le. unfold in_window in ground arith)
      (λ t. (
        λ e dead. rw (in_window-released span agent rule_id t e dead),
        λ e digest live. rw (in_window-committed span agent rule_id t e digest live),
      ))
      (reserves_count span agent rule_id most) history later_ms le
