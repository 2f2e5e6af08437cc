-- ===== src/Xpr/Dialect.antt =====
-- src/chains/xpr/dialect.ts: the Antelope vocabulary of policies.
use signbox.Prelude.{
  ℕ, Bool, true, false, Option, none, some, List, [], ◌∷◌, ◌==◌, if◌then◌else◌, drop,
}
use signbox.Prelude.Text.{Text, lit, text_eq, starts_with, split}
use signbox.Prelude.Outcome.{Outcome, ok, err, ◌>>=◌}
use signbox.Errors.{Thrown, ambiguous_value, internal}
use signbox.Asset.{AssetAmount, parse_asset, parse_bare_amount}
use signbox.Value.{
  Value, undefined, null, bool, num, str, arr, obj, Items, nil, cons, field, end, JsNumber, nat,
  get_field,
}
use signbox.Policy.Types.{
  Authorization, DecodedAction, ProviderQuery, ProviderEvidence, row_found, no_row, unresolved,
  Relay, PolicyDialect,
}
use signbox.Policy.Vocabulary.{is_match_path, is_select_field, is_chain_id}

first_authorization : (Authorization → Text) → List Authorization → Value
first_authorization f [] = undefined
first_authorization f (a ∷ _) = str (f a)

-- One step of a data path: only an object that is no array has fields.
step_into : Value → Text → Value
step_into (obj fs) segment = get_field segment fs
step_into v segment = undefined

walk : Value → List Text → Value
unfolding step_into
walk v [] = v
walk v (segment ∷ segments) = walk (step_into v segment) segments

unfoldable pub resolve_path : DecodedAction → Text → Outcome Thrown Value
unfolding first_authorization walk
resolve_path action path =
    if text_eq path (lit "contract")
    then ok (str action.contract)
    else if text_eq path (lit "action")
    then ok (str action.action)
    else if text_eq path (lit "authorization.actor")
    then ok (first_authorization (λ a. a.account_identifier) action.authorization)
    else if text_eq path (lit "authorization.permission")
    then ok (first_authorization (λ a. a.permission) action.authorization)
    else if starts_with path (lit "data.")
    then ok (walk (obj action.payload) (split b'.' (drop 5 path)))
    else err ambiguous_value

-- The `precision` of the normalized quantity is a JavaScript number.
same_precision : ℕ → JsNumber → Bool
same_precision p (nat n) = p == n
same_precision p _ = false

quantity_asset : Text → Text → JsNumber → Outcome Thrown AssetAmount
unfolding same_precision
quantity_asset amount symbol precision = parse_bare_amount amount >>= λ bare.
    if same_precision bare.precision precision
    then ok (record { units = bare.units; symbol = symbol; precision = bare.precision })
    else err ambiguous_value

quantity_fields : Value → Value → Value → Outcome Thrown AssetAmount
unfolding quantity_asset
quantity_fields (str amount) (str symbol) (num precision) = quantity_asset amount symbol precision
quantity_fields _ _ _ = err ambiguous_value

read_quantity : Value → Outcome Thrown AssetAmount
unfolding quantity_fields
read_quantity (obj fs) =
    quantity_fields (get_field (lit "amount") fs) (get_field (lit "symbol") fs)
      (get_field (lit "precision") fs)
read_quantity v = err ambiguous_value

unfoldable pub asset_of : DecodedAction → Outcome Thrown AssetAmount
unfolding read_quantity
asset_of action = read_quantity (get_field (lit "quantity") action.payload)

text_of : Value → Option Text
text_of (str s) = some s
text_of v = none

unfoldable pub recipient_of : DecodedAction → Option Text
unfolding text_of
recipient_of action = text_of (get_field (lit "to") action.payload)

-- The row that `get_table_rows` gives back.
read_row : Value → ProviderEvidence
read_row undefined = no_row
read_row (obj row) = row_found row
read_row v = unresolved

first_item : Items → Value
first_item nil = undefined
first_item (cons v vs) = v

read_rows : Value → ProviderEvidence
unfolding read_row first_item
read_rows (arr rows) = read_row (first_item rows)
read_rows v = unresolved

-- Reading `.rows` of null or undefined throws a TypeError.
rows_of : Value → Outcome Thrown Value
rows_of undefined = err internal
rows_of null = err internal
rows_of (obj fs) = ok (get_field (lit "rows") fs)
rows_of v = ok undefined

query_params : ProviderQuery → Value
query_params q = obj (
    field (lit "code") (str q.args.contract) (
      field (lit "scope") (str q.args.scope) (
        field (lit "table") (str q.args.table) (
          field (lit "lower_bound") (str q.args.key) (
            field (lit "upper_bound") (str q.args.key)
              (field (lit "limit") (num (nat 1)) (field (lit "json") (bool true) end)))))))

unfoldable pub resolve_provider_query : ProviderQuery → Relay → Outcome Thrown ProviderEvidence
unfolding query_params rows_of read_rows
resolve_provider_query query relay = do
  result ← relay (lit "get_table_rows") (query_params query)
  rows ← rows_of result
  ok (read_rows rows)

abbrev pub xpr_dialect : PolicyDialect
xpr_dialect = record {
  is_match_path = is_match_path;
  is_select_field = is_select_field;
  is_chain_id = is_chain_id;
  provider_namespace = lit "xpr.rpc.tableRow";
  resolve_path = resolve_path;
  asset_of = asset_of;
  recipient_of = recipient_of;
  parse_asset_limit = parse_asset;
  resolve_provider_query = resolve_provider_query;
}
