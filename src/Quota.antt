-- ===== src/Quota.antt =====
-- src/daemon/quotaJournal.ts: the journal of quota events. A journal is the list of the rows of its
-- table in the order of their ids. A transaction that throws is rolled back. The id that
-- `randomUUID` gives is an argument. A test `created_at_ms > nowMs - windowMs` is written without
-- the subtraction, which stops at 0 on natural numbers.
pub mod Totals
pub mod Windows
pub mod History
pub mod Caps
pub mod Tests
use signbox.Prelude.{
  ℕ, zero, suc, ◌+◌, ◌-◌, ◌*◌, ◌/◌, ◌%◌, ◌^◌, ◌≤◌, ◌<◌, max, String, ◌≡◌, refl, sym, ap, ◌∙◌, subst,
  ◌≡⟨◌⟩◌, ◌∎, fun_ext, ◌≢◌, ◌↔◌, ◌⊎◌, inl, inr, Bool, true, false, not, ◌&&◌, ◌||◌, Option, none,
  some, List, [], ◌∷◌, ◌++◌, map, append-nil, append_assoc, arith, ltb, leb, ◌==◌, if◌then◌else◌,
  ==_iff, leb_iff, &&_iff, Bool-cases, Option-cases, length, take, drop, replicate, length-append,
  length-replicate, take-append-drop, length-drop, keep, any, every, All, Any, All-append, All-map,
  every_iff, any_iff, any-false,
}
use signbox.Prelude.Text.{
  Text, lit, text_eq, text_eq_iff, text_eq_refl, starts_with, includes, split, text_mem, lookup,
  insert, lookup-insert, remove, lookup-remove,
}
use signbox.Prelude.Outcome.{Outcome, ok, err, ◌>>=◌, >>=-eq-ok, Outcome-cases, find_ok}
use signbox.Asset.{AssetAmount}
use signbox.Policy.Types.{QuotaDemand}

abbrev pub hour_ms : ℕ
hour_ms = 3_600_000

abbrev pub day_ms : ℕ
day_ms = 86_400_000

abbrev pub retention_ms : ℕ
retention_ms = 172_800_000

pub data EventState : Type 0 where
  reserved committed released : EventState

-- A row of `quota_events`.
pub record Event : Type 0 where
  pub reservation_id : Text
  pub agent : Text
  pub rule_id : Text
  pub digest : Option Text
  pub recipient : Option Text
  pub units : ℕ
  pub symbol : Text
  pub precision : ℕ
  pub state : EventState
  pub created_at_ms : ℕ

abbrev pub Journal : Type 0
Journal = List Event

pub data Refusal : Type 0 where
  limit cooldown ambiguous : Refusal

pub is_released : EventState → Bool
is_released released = true
is_released _ = false

pub option_eq : Option Text → Text → Bool
option_eq none t = false
option_eq (some s) t = text_eq s t

-- The conditions that all three queries share.
pub in_window : Text → Text → ℕ → ℕ → Event → Bool
unfolding is_released
in_window agent rule_id window_ms now_ms e =
    text_eq e.agent agent
    && text_eq e.rule_id rule_id
    && not (is_released e.state)
    && ltb now_ms (e.created_at_ms + window_ms)

pub same_unit : Text → ℕ → Event → Bool
same_unit symbol precision e = text_eq e.symbol symbol && (e.precision == precision)

-- A sum over the rows, each with a weight.
unfoldable pub total : (Event → ℕ) → Journal → ℕ
total weight [] = 0
total weight (e ∷ es) = weight e + total weight es

pub sum_units : (Event → Bool) → Journal → ℕ
sum_units p journal = total (λ e. if p e then e.units else 0) journal

pub count_events : (Event → Bool) → Journal → ℕ
count_events p journal = total (λ e. if p e then 1 else 0) journal

pub consumed : Journal → Text → Text → Text → ℕ → ℕ → ℕ → ℕ
unfolding sum_units
consumed journal agent rule_id symbol precision window_ms now_ms =
    sum_units (λ e. in_window agent rule_id window_ms now_ms e && same_unit symbol precision e)
      journal

unfoldable pub count_in_window : Journal → Text → Text → ℕ → ℕ → ℕ
unfolding count_events
count_in_window journal agent rule_id window_ms now_ms =
    count_events (λ e. in_window agent rule_id window_ms now_ms e) journal

pub count_to_recipient : Journal → Text → Text → Text → ℕ → ℕ → ℕ
unfolding count_events
count_to_recipient journal agent rule_id recipient window_ms now_ms =
    count_events
      (λ e. in_window agent rule_id window_ms now_ms e && option_eq e.recipient recipient) journal

-- `DELETE … WHERE created_at_ms < nowMs - RETENTION_MS`.
pub prune : ℕ → Journal → Journal
prune now_ms journal = keep (λ e. not (ltb (e.created_at_ms + retention_ms) now_ms)) journal

guard : Bool → Refusal → Outcome Refusal (Unit {0})
guard true r = ok tt
guard false r = err r

pub check_window :
    Journal → Text → Text → AssetAmount → Option AssetAmount → ℕ → ℕ → Outcome Refusal (Unit {0})
unfolding guard
check_window journal agent rule_id amount none window_ms now_ms = ok tt
check_window journal agent rule_id amount (some cap) window_ms now_ms =
    guard (text_eq cap.symbol amount.symbol && (cap.precision == amount.precision)) ambiguous
    >>= λ _.
        guard
          (leb
            (consumed journal agent rule_id amount.symbol amount.precision window_ms now_ms
              + amount.units)
            cap.units)
          limit

pub check_cooldown : Journal → Text → Text → Option Text → Option ℕ → ℕ → Outcome Refusal (Unit {0})
unfolding guard
check_cooldown journal agent rule_id recipient none now_ms = ok tt
check_cooldown journal agent rule_id none (some cooldown_ms) now_ms = err ambiguous
check_cooldown journal agent rule_id (some to) (some cooldown_ms) now_ms =
    guard (count_to_recipient journal agent rule_id to cooldown_ms now_ms == 0) cooldown

pub check_count : Journal → Text → Text → Option ℕ → ℕ → ℕ → Outcome Refusal (Unit {0})
unfolding guard
check_count journal agent rule_id none window_ms now_ms = ok tt
check_count journal agent rule_id (some most) window_ms now_ms =
    guard (ltb (count_in_window journal agent rule_id window_ms now_ms) most) limit

pub check_count_to_recipient :
    Journal → Text → Text → Option Text → Option ℕ → ℕ → Outcome Refusal (Unit {0})
unfolding guard
check_count_to_recipient journal agent rule_id recipient none now_ms = ok tt
check_count_to_recipient journal agent rule_id none (some most) now_ms = err ambiguous
check_count_to_recipient journal agent rule_id (some to) (some most) now_ms =
    guard (ltb (count_to_recipient journal agent rule_id to hour_ms now_ms) most) limit

unfoldable pub check_demand : Journal → Text → QuotaDemand → ℕ → Outcome Refusal (Unit {0})
unfolding check_window check_cooldown check_count check_count_to_recipient
check_demand journal agent d now_ms =
    check_window journal agent d.rule_id d.amount d.max_per_hour hour_ms now_ms >>= λ _.
    check_window journal agent d.rule_id d.amount d.max_per_day day_ms now_ms >>= λ _.
    check_cooldown journal agent d.rule_id d.recipient d.cooldown_per_recipient_ms now_ms >>= λ _.
    check_count journal agent d.rule_id d.max_count_per_hour hour_ms now_ms >>= λ _.
    check_count journal agent d.rule_id d.max_count_per_day day_ms now_ms >>= λ _.
    check_count_to_recipient journal agent d.rule_id d.recipient d.max_count_per_recipient_per_hour
      now_ms

pub reserved_event : Text → Text → QuotaDemand → ℕ → Event
reserved_event reservation_id agent d now_ms = record {
  reservation_id = reservation_id;
  agent = agent;
  rule_id = d.rule_id;
  digest = none;
  recipient = d.recipient;
  units = d.amount.units;
  symbol = d.amount.symbol;
  precision = d.amount.precision;
  state = reserved;
  created_at_ms = now_ms;
}

-- The loop over the demands: each sees the rows of those before it.
pub reserve_all : Text → Text → ℕ → Journal → List QuotaDemand → Outcome Refusal Journal
reserve_all reservation_id agent now_ms journal [] = ok journal
reserve_all reservation_id agent now_ms journal (d ∷ ds) =
    check_demand journal agent d now_ms >>= λ _.
    reserve_all reservation_id agent now_ms
      (journal ++ (reserved_event reservation_id agent d now_ms ∷ [])) ds

pub after_transaction : Journal → Outcome Refusal Journal → Journal × Outcome Refusal (Unit {0})
after_transaction before (ok journal) = (journal, ok tt)
after_transaction before (err r) = (before, err r)

-- The result's `ok tt` stands for the reservation id.
unfoldable pub reserve :
    Text → Journal → Text → List QuotaDemand → ℕ → Journal × Outcome Refusal (Unit {0})
unfolding after_transaction reserve_all prune
reserve reservation_id journal agent demands now_ms =
    after_transaction journal
      (reserve_all reservation_id agent now_ms (prune now_ms journal) demands)

pub set_released : Text → Event → Event
set_released reservation_id e =
    if text_eq e.reservation_id reservation_id then record e { state = released } else e

pub set_committed : Text → Text → Event → Event
set_committed reservation_id digest e =
    if text_eq e.reservation_id reservation_id
    then record e { state = committed; digest = some digest }
    else e

pub release : Text → Journal → Journal
unfolding set_released
release reservation_id journal = map (set_released reservation_id) journal

is_committed : EventState → Bool
is_committed committed = true
is_committed _ = false

pub committed_as : Text → Text → Event → Bool
unfolding is_committed option_eq
committed_as agent digest e =
    text_eq e.agent agent && option_eq e.digest digest && is_committed e.state

pub commit : Text → Text → Text → Journal → Journal
unfolding committed_as set_committed release count_events
commit reservation_id agent digest journal =
    if count_events (committed_as agent digest) journal == 0
    then map (set_committed reservation_id digest) journal
    else release reservation_id journal
