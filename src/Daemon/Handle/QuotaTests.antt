-- ===== src/Daemon/Handle/QuotaTests.antt =====
-- A run of the daemon whose broadcast is rejected.
use signbox.Xpr.Dialect.{asset_of}
use signbox.Asset.{parse_bare_amount}
use signbox.Asset.{match_amount}
use signbox.Asset.{parse_end}
use signbox.Asset.{to_units}
use signbox.Policy.Engine.Limits.{charge_total}
use signbox.Policy.Engine.Limits.{window_demands}
use signbox.Quota.{reserve}
use signbox.Quota.{check_demand}
use signbox.Quota.{count_in_window}
use signbox.Quota.{total}
use signbox.Prelude.{◌≡◌, refl, true, none, some, [], ◌∷◌, arith}
use signbox.Prelude.Text.{lit, text_eq, includes, lookup, insert}
use signbox.Prelude.Outcome.{ok}
use signbox.NonceCache.{register}
use signbox.Value.{JsNumber, num, str, obj, end, field, of_fields}
use signbox.Policy.Types.{DecodedTransaction, MatchValue, allows, Policy}
use signbox.Policy.Engine.{collect_provider_queries, rule_matches}
use signbox.Policy.Predicates.{static_match, predicate_holds}
use signbox.Policy.Engine.Limits.{apply_limits}
use signbox.Policy.Engine.Evaluate.{
  evaluate_policy, precheck, decide_actions, any_denied, denied_by, allow_actions, governing_rule,
}
use signbox.Xpr.Dialect.{resolve_path}
use signbox.Quota.{Journal}
use signbox.Daemon.Keys.{check_local_identity}
use signbox.Daemon.State.{rejected, Dependencies, Daemon}
use signbox.Daemon.Gates.{gates, same_chain}
use signbox.Daemon.Protocol.{parse_sign_request}
use signbox.Daemon.Sign.{run_parsed}
use signbox.Daemon.Sign.Reserved.{IsReleased}
use signbox.Daemon.Handle.{handle_sign}
use signbox.Daemon.Handle.Tests.{zeros, ping, runtime, cfg, deps, readings, daemon}
use signbox.Daemon.Handle.Returned.{IsRestored, handle_sign_released}

-- Five pings an hour.
abbrev limited_pings : Policy
limited_pings = record {
  chain_name = lit "xpr";
  chain_id = zeros;
  rules =
      record {
        id = lit "ping";
        effect = allows;
        matches = (lit "action", MatchValue.is (lit "ping")) ∷ [];
        limits = some (record {
          max_per_transaction = none;
          max_per_hour = none;
          max_per_day = none;
          cooldown_per_recipient_ms = none;
          max_count_per_hour = some 5;
          max_count_per_day = none;
          max_count_per_recipient_per_hour = none;
        });
        providers = [];
      }
      ∷ [];
  max_actions_per_transaction = none;
}

-- The ping with a quantity, which a rule with limits asks for.
abbrev paid_ping : DecodedTransaction
paid_ping = record {
  context = ping.context;
  actions =
      record {
        contract = lit "c";
        action = lit "ping";
        authorization = record { account_identifier = lit "ag"; permission = lit "bot" } ∷ [];
        payload =
            field (lit "quantity")
              (obj (
                of_fields (
                  (lit "amount", str (lit "1.00"))
                  ∷ (lit "symbol", str (lit "XPR"))
                  ∷ (lit "precision", num (JsNumber.nat 2))
                  ∷ [])))
              end;
      }
      ∷ [];
}

abbrev rejecting : Dependencies
rejecting = record deps {
  decode = λ v chain. ok paid_ping;
  broadcast = some (λ bytes. ok (rejected (lit "expired")));
}

abbrev limited_daemon : Daemon
limited_daemon = record daemon {
  agents =
      (
        lit "ag",
        record runtime {
          policy = limited_pings;
          capabilities = some (record { sign = true; broadcast = true });
        },
      )
      ∷ [];
  journal = some [];
}

rejected-IsReleased : IsReleased (handle_sign cfg rejecting readings limited_daemon (lit "b")).1
unfolding handle_sign parse_sign_request run_parsed gates lookup text_eq register same_chain
    check_local_identity collect_provider_queries evaluate_policy precheck decide_actions any_denied
    denied_by allow_actions governing_rule rule_matches static_match predicate_holds apply_limits
    resolve_path includes insert asset_of parse_bare_amount match_amount parse_end to_units
    charge_total window_demands reserve check_demand count_in_window total
rejected-IsReleased = refl

handle_sign_released_example :
    (left : Journal) × ((handle_sign cfg rejecting readings limited_daemon (lit "b")).0.journal
      ≡ some left)
    × IsRestored [] left (lit "ag") (lit "ping") (lit "XPR") (lit "bob") 2 3_600_000 200
handle_sign_released_example =
    handle_sign_released cfg rejecting readings limited_daemon (lit "b") [] (lit "ag") (lit "ping")
      (lit "XPR") (lit "bob") 2 3_600_000 200 refl rejected-IsReleased tt (omega arith)
      (omega arith)
