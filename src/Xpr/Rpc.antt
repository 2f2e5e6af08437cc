-- ===== src/Xpr/Rpc.antt =====
-- src/chains/xpr/rpc.ts: `verifiedRpc`, the requests of one JsonRpc behind a fresh verification. Calls
-- come one after another: the promise that concurrent calls share is left out. What an endpoint
-- answers is an input. The state holds, beside the time of the last verification, what happened.
pub mod Pinned
use signbox.Prelude.{
  ℕ, ◌+◌, ◌<◌, ◌≤◌, ◌≡◌, refl, ◌⊎◌, inl, inr, Bool, true, false, Option, none, some, List, [], ◌∷◌,
  arith, ltb, if◌then◌else◌, Any, Bool-cases,
}
use signbox.Prelude.Text.{Text, lit, text_eq, text_eq_iff}
use signbox.Prelude.Outcome.{Outcome, ok, err, ◌>>=◌}
use signbox.Value.{Value}

pub record RpcOptions : Type 0 where
  pub chain_id : Text
  pub freshness_ms : ℕ
  pub max_head_lag_ms : ℕ

abbrev pub default_options : Text → RpcOptions
default_options chain_id = record {
  chain_id = chain_id;
  freshness_ms = 30_000;
  max_head_lag_ms = 120_000;
}

abbrev pub verify_path : Text
verify_path = lit "/v1/chain/get_info"

-- `head_block_time` as Date.parse reads it, where it is a text.
pub data HeadTime : Type 0 where
  missing unparsable : HeadTime
  at_ms : ℕ → HeadTime

pub record Info : Type 0 where
  pub chain_id : Text
  pub head_time : HeadTime

pub data RpcError : Type 0 where
  wrong_chain no_head_time stale_head request_failed : RpcError

-- A verification that passed, and a request that went out.
pub data Event : Type 0 where
  verified : (info : Info) (checked_at_ms stored_at_ms : ℕ) → Event
  sent : (path : Text) (asked_at_ms : ℕ) → Event

pub record Rpc : Type 0 where
  pub verified_at_ms : Option ℕ
  pub events : List Event

abbrev pub new_rpc : Rpc
new_rpc = record { verified_at_ms = none; events = [] }

-- What one call reads: the clock at its start, the answer to get_info, the clock at the check of the
-- head and at its end.
pub record Reading : Type 0 where
  pub asked_at_ms : ℕ
  pub info : Outcome RpcError Info
  pub checked_at_ms : ℕ
  pub stored_at_ms : ℕ

pub check_head : ℕ → ℕ → HeadTime → Outcome RpcError (Unit {0})
check_head lag now_ms missing = err no_head_time
check_head lag now_ms unparsable = err stale_head
check_head lag now_ms (at_ms head) = if ltb (head + lag) now_ms then err stale_head else ok tt

module _ (opts : RpcOptions) where
  pub check_info : ℕ → Info → Outcome RpcError (Unit {0})
  unfolding check_head
  check_info now_ms info =
      if text_eq info.chain_id opts.chain_id
      then check_head opts.max_head_lag_ms now_ms info.head_time
      else err wrong_chain

  -- A refused answer leaves the time of the last verification as it was.
  unfoldable pub checked :
      Rpc → Reading → Info → Outcome RpcError (Unit {0}) → Rpc × Outcome RpcError Info
  checked rpc r info (err e) = (rpc, err e)
  checked rpc r info (ok u) = (
    record rpc {
      verified_at_ms = some r.stored_at_ms;
      events = verified info r.checked_at_ms r.stored_at_ms ∷ rpc.events;
    },
    ok info,
  )

  unfoldable pub answered : Rpc → Reading → Outcome RpcError Info → Rpc × Outcome RpcError Info
  unfolding checked check_info
  answered rpc r (err e) = (rpc, err e)
  answered rpc r (ok info) = checked rpc r info (check_info r.checked_at_ms info)

  -- The wrapped `get_info`; its own request passes `fetch` unverified.
  unfoldable pub get_info : Rpc → Reading → Rpc × Outcome RpcError Info
  unfolding answered
  get_info rpc r =
      answered (record rpc { events = sent verify_path r.asked_at_ms ∷ rpc.events }) r r.info

  unfoldable pub is_fresh : Option ℕ → ℕ → Bool
  is_fresh none now_ms = false
  is_fresh (some at) now_ms = ltb now_ms (at + opts.freshness_ms)

  unfoldable pub ensure_verified : Rpc → Reading → Rpc × Outcome RpcError (Unit {0})
  ensure_verified rpc r =
      if is_fresh rpc.verified_at_ms r.asked_at_ms
      then (rpc, ok tt)
      else let (after, result) = get_info rpc r in (after, result >>= λ info. ok tt)

  unfoldable pub send :
      (Text → Value → Outcome RpcError Value)
      → Text
      → Value
      → ℕ
      → Rpc × Outcome RpcError (Unit {0})
      → Rpc × Outcome RpcError Value
  send original path body asked_at_ms (rpc, err e) = (rpc, err e)
  send original path body asked_at_ms (rpc, ok u) =
      (record rpc { events = sent path asked_at_ms ∷ rpc.events }, original path body)

  -- The wrapped `fetch`.
  unfoldable pub fetch :
      (Text → Value → Outcome RpcError Value)
      → Rpc
      → Reading
      → Text
      → Value
      → Rpc × Outcome RpcError Value
  unfolding ensure_verified send
  fetch original rpc r path body =
      send original path body r.asked_at_ms
        (if text_eq path verify_path then (rpc, ok tt) else ensure_verified rpc r)
