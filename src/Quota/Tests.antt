-- ===== src/Quota/Tests.antt =====
-- Runs of src/daemon/quotaJournal.ts on concrete journals.
use signbox.Prelude.{ℕ, ◌≤◌, ◌≡◌, refl, none, some, [], ◌∷◌, arith}
use signbox.Prelude.Text.{lit, text_eq}
use signbox.Prelude.Outcome.{err}
use signbox.Asset.{AssetAmount}
use signbox.Policy.Types.{QuotaDemand}
use signbox.Quota.{
  Journal, consumed, count_in_window, count_to_recipient, prune, reserve, release, hour_ms, Refusal,
  check_demand, total, reserved_event, in_window, same_unit,
}
use signbox.Quota.Windows.{prune_harmless, release-reserve}
use signbox.Quota.History.{History, opened, after_reserve}
use signbox.Quota.Caps.{
  per_hour, span_ms, Carries, CarriesCount, consumed-le-cap, count_in_window-le-max,
}

abbrev xpr : ℕ → AssetAmount
xpr units = record { units = units; symbol = lit "XPR"; precision = 4 }

abbrev demand : QuotaDemand
demand = record {
  rule_id = lit "pay";
  amount = xpr 60;
  recipient = some (lit "bob");
  max_per_hour = some (xpr 100);
  max_per_day = none;
  cooldown_per_recipient_ms = none;
  max_count_per_hour = some 3;
  max_count_per_day = none;
  max_count_per_recipient_per_hour = none;
}

abbrev once : Journal
once = (reserve (lit "r1") [] (lit "ag") (demand ∷ []) 1000).0

refuses_second : (reserve (lit "r2") once (lit "ag") (demand ∷ []) 2000).1 ≡ err Refusal.limit
unfolding reserve check_demand text_eq consumed total count_in_window reserved_event in_window
    same_unit
refuses_second = refl

once-History : History (Carries per_hour (lit "pay") (xpr 100)) once 1000
once-History =
    after_reserve opened (lit "r1") (lit "ag") (demand ∷ []) 1000 (omega arith) ((λ e. refl), tt)

once-CountHistory : History (CarriesCount per_hour (lit "pay") 3) once 1000
once-CountHistory =
    after_reserve opened (lit "r1") (lit "ag") (demand ∷ []) 1000 (omega arith) ((λ e. refl), tt)

consumed-le-cap_example :
    consumed once (lit "ag") (lit "pay") (lit "XPR") 4 (span_ms per_hour) 2000 ≤ 100
consumed-le-cap_example =
    consumed-le-cap per_hour (lit "ag") (lit "pay") (xpr 100) once-History 2000 (omega arith)

count_in_window-le-max_example :
    count_in_window once (lit "ag") (lit "pay") (span_ms per_hour) 2000 ≤ 3
count_in_window-le-max_example =
    count_in_window-le-max per_hour (lit "ag") (lit "pay") 3 once-CountHistory 2000 (omega arith)

prune_harmless_example :
    (consumed (prune 200_000_000 once) (lit "ag") (lit "pay") (lit "XPR") 4 hour_ms 200_000_001
      ≡ consumed once (lit "ag") (lit "pay") (lit "XPR") 4 hour_ms 200_000_001)
    × (count_in_window (prune 200_000_000 once) (lit "ag") (lit "pay") hour_ms 200_000_001
        ≡ count_in_window once (lit "ag") (lit "pay") hour_ms 200_000_001)
    × (count_to_recipient
          (prune 200_000_000 once)
          (lit "ag")
          (lit "pay")
          (lit "bob")
          hour_ms
          200_000_001
        ≡ count_to_recipient once (lit "ag") (lit "pay") (lit "bob") hour_ms 200_000_001)
prune_harmless_example =
    prune_harmless once (lit "ag") (lit "pay") (lit "XPR") (lit "bob") 4 hour_ms 200_000_000
      200_000_001 (omega arith) (omega arith)

abbrev returned : Journal
returned = release (lit "r1") (reserve (lit "r1") [] (lit "ag") (demand ∷ []) 1000).0

release-reserve_example :
    (consumed returned (lit "ag") (lit "pay") (lit "XPR") 4 hour_ms 2000
      ≡ consumed [] (lit "ag") (lit "pay") (lit "XPR") 4 hour_ms 2000)
    × (count_in_window returned (lit "ag") (lit "pay") hour_ms 2000
        ≡ count_in_window [] (lit "ag") (lit "pay") hour_ms 2000)
    × (count_to_recipient returned (lit "ag") (lit "pay") (lit "bob") hour_ms 2000
        ≡ count_to_recipient [] (lit "ag") (lit "pay") (lit "bob") hour_ms 2000)
unfolding reserve check_demand text_eq consumed total count_in_window
release-reserve_example =
    release-reserve (lit "r1") (lit "ag") [] (demand ∷ []) 1000 (lit "ag") (lit "pay") (lit "XPR")
      (lit "bob") 4 hour_ms 2000 (omega arith) (omega arith) tt refl
