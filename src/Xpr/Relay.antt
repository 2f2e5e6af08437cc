-- ===== src/Xpr/Relay.antt =====
-- src/chains/xpr/relay.ts: the read-only relay, a fresh verified RPC for each call.
pub mod ReadOnly
pub mod Tests
use signbox.Prelude.{
  ℕ, ◌*◌, ◌++◌, Bool, true, false, Option, none, some, List, [], ◌∷◌, ltb, if◌then◌else◌, length,
}
use signbox.Prelude.Text.{Text, lit, text_mem}
use signbox.Prelude.Outcome.{Outcome, ok, err}
use signbox.Errors.{Thrown, internal}
use signbox.Value.{Value, arr, obj, end}
use signbox.Json.{stringify}
use signbox.Policy.Types.{Relay}
use signbox.Xpr.Rpc.{RpcOptions, RpcError, Rpc, new_rpc, Reading, fetch}

abbrev pub read_only_methods : List Text
read_only_methods =
    lit "get_account"
    ∷ lit "get_currency_balance"
    ∷ lit "get_currency_stats"
    ∷ lit "get_table_rows"
    ∷ lit "get_table_by_scope"
    ∷ lit "get_info"
    ∷ lit "get_block"
    ∷ lit "get_block_info"
    ∷ lit "get_abi"
    ∷ lit "get_raw_abi"
    ∷ lit "get_code"
    ∷ lit "get_producers"
    ∷ lit "get_accounts_by_authorizers"
    ∷ []

-- Compared with the length of a JavaScript string.
abbrev pub max_relay_response : ℕ
max_relay_response = 512 * 1024

pub path_of : Text → Text
path_of method = lit "/v1/chain/" ++ method

-- `params` if it is an object or an array.
pub body_of : Value → Value
body_of (arr vs) = arr vs
body_of (obj fs) = obj fs
body_of v = obj end

-- The length of `undefined` throws.
pub within_size : Value → Option Text → Outcome Thrown Value
within_size result none = err internal
within_size result (some text) =
    if ltb max_relay_response (length text) then err internal else ok result

pub sized : Outcome RpcError Value → Outcome Thrown Value
unfolding within_size
sized (err e) = err internal
sized (ok result) = within_size result (stringify result)

module _ (opts : RpcOptions) (original : Text → Value → Outcome RpcError Value) where
  pub relay_call : Reading → Text → Value → Rpc × Outcome Thrown Value
  unfolding path_of body_of sized
  relay_call r method params =
      let (rpc, result) = fetch opts original new_rpc r (path_of method) (body_of params) in
      if text_mem method read_only_methods then (rpc, sized result) else (new_rpc, err internal)

  -- The relay that the daemon is given.
  pub relay : Reading → Relay
  unfolding relay_call
  relay r method params = (relay_call r method params).1
