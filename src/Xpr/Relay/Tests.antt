-- ===== src/Xpr/Relay/Tests.antt =====
-- Runs of the verified RPC and the relay.
use signbox.Xpr.Rpc.{is_fresh}
use signbox.Prelude.{ℕ, ◌≡◌, refl, List, [], ◌∷◌, All}
use signbox.Prelude.Text.{Text, lit, text_eq, text_mem}
use signbox.Prelude.Outcome.{Outcome, ok}
use signbox.Value.{Value, null}
use signbox.Xpr.Rpc.{
  RpcOptions, default_options, verify_path, at_ms, RpcError, verified, sent, new_rpc, Reading,
  fetch, ensure_verified, get_info, send,
}
use signbox.Xpr.Rpc.Pinned.{IsPinned, Use, asks_info, requests, use_all, use_all-IsPinned}
use signbox.Xpr.Relay.{relay_call}
use signbox.Xpr.Relay.ReadOnly.{Reads, IsServed, relay_call-Reads}

abbrev opts : RpcOptions
opts = default_options (lit "c")

abbrev node : Text → Value → Outcome RpcError Value
node path body = ok body

abbrev reading : ℕ → Reading
reading at = record {
  asked_at_ms = at;
  info = ok (record { chain_id = lit "c"; head_time = at_ms 900 });
  checked_at_ms = at;
  stored_at_ms = at;
}

abbrev uses : List Use
uses =
    requests (reading 1000) (lit "/v1/chain/get_table_rows") null
    ∷ requests (reading 1010) (lit "/v1/chain/get_abi") null
    ∷ asks_info (reading 1020)
    ∷ []

-- One verification serves two requests.
one_verification :
    (use_all opts node new_rpc uses).events
    ≡ verified (record { chain_id = lit "c"; head_time = at_ms 900 }) 1020 1020
      ∷ sent verify_path 1020
      ∷ sent (lit "/v1/chain/get_abi") 1010
      ∷ sent (lit "/v1/chain/get_table_rows") 1000
      ∷ verified (record { chain_id = lit "c"; head_time = at_ms 900 }) 1000 1000
      ∷ sent verify_path 1000
      ∷ []
unfolding use_all fetch ensure_verified get_info send text_eq is_fresh
one_verification = refl

use_all-IsPinned_example : IsPinned opts (use_all opts node new_rpc uses).events
use_all-IsPinned_example = use_all-IsPinned opts node uses

refuses_push : (relay_call opts node (reading 1000) (lit "push_transaction") null).0.events ≡ []
unfolding relay_call text_mem text_eq
refuses_push = refl

relay_call-Reads_example :
    All Reads (relay_call opts node (reading 1000) (lit "get_account") null).0.events
    × ((result : Value)
        → (relay_call opts node (reading 1000) (lit "get_account") null).1 ≡ ok result
        → IsServed node (lit "get_account") null result)
relay_call-Reads_example = relay_call-Reads opts node (reading 1000) (lit "get_account") null
