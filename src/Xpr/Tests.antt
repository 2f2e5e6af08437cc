-- ===== src/Xpr/Tests.antt =====
-- Runs of src/chains/xpr on concrete transactions.
use signbox.Xpr.Decode.{is_oversized}
use signbox.Canonical.{canonicalize}
use signbox.Xpr.Decode.{read_transaction}
use signbox.Value.{get_field}
use signbox.Xpr.Decode.{read_actions}
use signbox.Xpr.Decode.{read_action}
use signbox.Xpr.Decode.{decode_actions}
use signbox.Xpr.Decode.{decode_action}
use signbox.Xpr.Decode.{normalize_value}
use signbox.Policy.Vocabulary.{is_select_field}
use signbox.Xpr.Decode.{expand_asset_string}
use signbox.Asset.{match_amount}
use signbox.Xpr.Decode.{expand_rest}
use signbox.Asset.{is_symbol}
use signbox.Prelude.{◌≡◌, refl, [], ◌∷◌}
use signbox.Prelude.Text.{lit, starts_with, text_mem}
use signbox.Prelude.Outcome.{ok}
use signbox.Value.{Value, JsNumber, num, str, arr, obj, nil, cons, end, field}
use signbox.Policy.Types.{ChainContext, DecodedAction}
use signbox.Policy.Vocabulary.{is_match_path}
use signbox.Xpr.Dialect.{resolve_path}
use signbox.Xpr.Paths.{resolve_path-total}
use signbox.Xpr.Decode.{decode_xpr_transaction}
use signbox.Xpr.Decode.Shape.{IsDecoded, decode_xpr_transaction-IsDecoded}

abbrev xpr_mainnet : ChainContext
xpr_mainnet = record { chain = lit "xpr"; network = lit "mainnet"; chain_id = lit "384d" }

abbrev raw_action : Value
raw_action = obj (
    field (lit "account") (str (lit "token")) (
      field (lit "name") (str (lit "transfer")) (
        field (lit "authorization")
          (arr (
            cons
              (obj (
                field (lit "actor") (str (lit "ag"))
                  (field (lit "permission") (str (lit "bot")) end)))
              nil))
          (field (lit "data")
            (obj (
              field (lit "to") (str (lit "bob"))
                (field (lit "quantity") (str (lit "0.50 XPR")) end)))
            end))))

abbrev raw_transaction : Value
raw_transaction = obj (field (lit "actions") (arr (cons raw_action nil)) end)

abbrev transfer : DecodedAction
transfer = record {
  contract = lit "token";
  action = lit "transfer";
  authorization = record { account_identifier = lit "ag"; permission = lit "bot" } ∷ [];
  payload = field (lit "to") (str (lit "bob")) (
      field (lit "quantity")
        (obj (
          field (lit "amount") (str (lit "0.50")) (
            field (lit "symbol") (str (lit "XPR"))
              (field (lit "precision") (num (JsNumber.nat 2)) end))))
        end);
}

decodes :
    decode_xpr_transaction raw_transaction xpr_mainnet
    ≡ ok (record { context = xpr_mainnet; actions = transfer ∷ [] })
unfolding decode_xpr_transaction is_oversized canonicalize read_transaction text_mem get_field
    read_actions read_action decode_actions decode_action normalize_value is_select_field
    expand_asset_string match_amount expand_rest is_symbol
decodes = refl

decode_xpr_transaction-IsDecoded_example :
    IsDecoded raw_transaction xpr_mainnet
      (record { context = xpr_mainnet; actions = transfer ∷ [] })
decode_xpr_transaction-IsDecoded_example =
    decode_xpr_transaction-IsDecoded raw_transaction xpr_mainnet
      (record { context = xpr_mainnet; actions = transfer ∷ [] }) decodes

resolve_path-total_example :
    (v : Value) × (resolve_path transfer (lit "data.quantity.symbol") ≡ ok v)
unfolding is_match_path text_mem starts_with
resolve_path-total_example = resolve_path-total transfer (lit "data.quantity.symbol") refl
