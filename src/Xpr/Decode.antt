-- ===== src/Xpr/Decode.antt =====
-- src/chains/xpr/decode.ts: validation and normalization of an unserialized transaction. The checks
-- of `transactionJsonSchema` are the readers `read_…`.
pub mod Shape
pub mod Assets
pub mod Actions
pub mod Normalized
use signbox.Prelude.{
  ℕ, zero, suc, ◌+◌, ◌-◌, ◌*◌, ◌/◌, ◌%◌, ◌^◌, ◌≤◌, ◌<◌, max, String, ◌≡◌, refl, sym, ap, ◌∙◌, subst,
  ◌≡⟨◌⟩◌, ◌∎, fun_ext, ◌≢◌, ◌↔◌, ◌⊎◌, inl, inr, Bool, true, false, not, ◌&&◌, ◌||◌, Option, none,
  some, List, [], ◌∷◌, ◌++◌, map, append-nil, append_assoc, arith, ltb, leb, ◌==◌, if◌then◌else◌,
  ==_iff, leb_iff, &&_iff, Bool-cases, Option-cases, length, take, drop, replicate, length-append,
  length-replicate, take-append-drop, length-drop, keep, any, every, All, Any, All-append, All-map,
  every_iff, any_iff, any-false,
}
use signbox.Prelude.Text.{
  Text, lit, text_eq, text_eq_iff, text_eq_refl, text_eq_comm, starts_with, includes, split,
  text_mem, lookup, insert, lookup-insert, remove, lookup-remove,
}
use signbox.Prelude.Outcome.{Outcome, ok, err, ◌>>=◌, >>=-eq-ok, Outcome-cases, find_ok}
use signbox.Errors.{Thrown, validation}
use signbox.Asset.{AmountMatch, match_amount, is_symbol}
use signbox.Value.{
  JsNumber, nat, non_finite, Value, undefined, null, bool, num, str, arr, obj, Items, nil, cons,
  Fields, end, field, get_field,
}
use signbox.Canonical.{canonicalize}
use signbox.Policy.Types.{ChainContext, Authorization, DecodedAction, DecodedTransaction}
use signbox.Policy.Vocabulary.{is_select_field}

pub record XprActionJson : Type 0 where
  pub account : Text
  pub name : Text
  pub authorization : List Authorization
  pub payload : Fields

abbrev max_data_depth : ℕ
max_data_depth = 8

abbrev max_input_bytes : ℕ
max_input_bytes = 32768

-- `NAME_PATTERN` and `ACTION_NAME_PATTERN`, for their greatest lengths 12 and 13.
is_name_char : ℕ → Bool
is_name_char c = leb b'a' c && leb c b'z' || leb b'1' c && leb c b'5' || (c == b'.')

pub is_name : ℕ → Text → Bool
unfolding is_name_char
is_name most s = every is_name_char s && leb 1 (length s) && leb (length s) most

-- An object of exactly the two, or four, keys.
pub has_only : List Text → Fields → Bool
has_only keys end = true
has_only keys (field k v fs) = text_mem k keys && has_only keys fs

-- `authorization`, with the core's words for its fields.
read_authorization : Value → Value → Option Authorization
unfolding is_name
read_authorization (str actor) (str permission) =
    if is_name 12 actor && is_name 12 permission
    then some (record { account_identifier = actor; permission = permission })
    else none
read_authorization _ _ = none

read_authorizations : Value → Option (List Authorization)
unfolding read_authorization has_only
read_authorizations (arr (cons (obj fs) nil)) =
    if has_only (lit "actor" ∷ lit "permission" ∷ []) fs
    then elim (read_authorization (get_field (lit "actor") fs) (get_field (lit "permission") fs)) [
      | none ↦ none
      | some a ↦ some (a ∷ [])
    ]
    else none
read_authorizations v = none

make_action : Text → Text → Fields → Option (List Authorization) → Option XprActionJson
make_action account name payload none = none
make_action account name payload (some auths) =
    some (record { account = account; name = name; authorization = auths; payload = payload })

read_action_fields : Value → Value → Value → Value → Option XprActionJson
unfolding is_name make_action read_authorizations
read_action_fields (str account) (str name) auths (obj payload) =
    if is_name 12 account && is_name 13 name
    then make_action account name payload (read_authorizations auths)
    else none
read_action_fields _ _ _ _ = none

unfoldable pub read_action : Value → Option XprActionJson
unfolding read_action_fields has_only
read_action (obj fs) =
    if has_only (lit "account" ∷ lit "name" ∷ lit "authorization" ∷ lit "data" ∷ []) fs
    then read_action_fields (get_field (lit "account") fs) (get_field (lit "name") fs)
        (get_field (lit "authorization") fs) (get_field (lit "data") fs)
    else none
read_action v = none

cons_action : Option XprActionJson → Option (List XprActionJson) → Option (List XprActionJson)
cons_action (some a) (some actions) = some (a ∷ actions)
cons_action _ _ = none

unfoldable pub read_actions : Items → Option (List XprActionJson)
unfolding cons_action
read_actions nil = some []
read_actions (cons v vs) = cons_action (read_action v) (read_actions vs)

up_to_16 : List XprActionJson → Option (List XprActionJson)
up_to_16 actions = if leb 1 (length actions) && leb (length actions) 16 then some actions else none

read_array : Value → Option (List XprActionJson)
unfolding up_to_16
read_array (arr vs) = elim (read_actions vs) [ none ↦ none | some actions ↦ up_to_16 actions ]
read_array v = none

unfoldable pub read_transaction : Value → Option (List XprActionJson)
unfolding read_array has_only
read_transaction (obj fs) =
    if has_only (lit "actions" ∷ []) fs then read_array (get_field (lit "actions") fs) else none
read_transaction v = none

frac_length : Option Text → ℕ
frac_length none = 0
frac_length (some frac) = length frac

amount_text : Text → Option Text → Text
amount_text int_part none = int_part
amount_text int_part (some frac) = int_part ++ (b'.' ∷ frac)

pub quantity_value : AmountMatch → Text → Value
unfolding amount_text frac_length
quantity_value m symbol = obj (
    field (lit "amount") (str (amount_text m.int_part m.frac_part)) (
      field (lit "symbol") (str symbol)
        (field (lit "precision") (num (nat (frac_length m.frac_part))) end)))

-- A blank and a symbol behind the amount complete `ASSET_STRING_RE`.
unfoldable pub expand_rest : Text → AmountMatch → Text → Value
unfolding quantity_value
expand_rest value m [] = str value
expand_rest value m (c ∷ symbol) =
    if c == b' ' && is_symbol symbol then quantity_value m symbol else str value

unfoldable pub expand_match : Text → Option AmountMatch → Value
unfolding expand_rest
expand_match value none = str value
expand_match value (some m) = expand_rest value m m.rest

unfoldable pub expand_asset_string : Text → Value
unfolding expand_match
expand_asset_string value = expand_match value (match_amount value)

pub is_data_key : Text → Bool
is_data_key k =
    is_select_field k
    && not (text_mem k (lit "__proto__" ∷ lit "prototype" ∷ lit "constructor" ∷ []))

abbrev too_deep : ℕ → Bool
too_deep depth = ltb max_data_depth depth

unfoldable mutual
  unfolding is_data_key

  pub normalize_value : Value → ℕ → Outcome Thrown Value
  normalize_value undefined depth = err validation
  normalize_value null depth = if too_deep depth then err validation else ok null
  normalize_value (bool b) depth = if too_deep depth then err validation else ok (bool b)
  normalize_value (num (non_finite s)) depth = err validation
  normalize_value (num n) depth = if too_deep depth then err validation else ok (num n)
  normalize_value (str s) depth =
      if too_deep depth then err validation else ok (expand_asset_string s)
  normalize_value (arr vs) depth =
      let items = normalize_items vs (suc depth) in
      if too_deep depth then err validation else (items >>= λ ws. ok (arr ws))
  normalize_value (obj fs) depth =
      let members = normalize_fields fs (suc depth) in
      if too_deep depth then err validation else (members >>= λ gs. ok (obj gs))

  pub normalize_items : Items → ℕ → Outcome Thrown Items
  normalize_items nil depth = ok nil
  normalize_items (cons v vs) depth =
      normalize_value v depth >>= λ w. normalize_items vs depth >>= λ ws. ok (cons w ws)

  pub normalize_fields : Fields → ℕ → Outcome Thrown Fields
  normalize_fields end depth = ok end
  normalize_fields (field k v fs) depth =
      if is_data_key k
      then (normalize_value v depth >>= λ w. normalize_fields fs depth >>= λ gs. ok (field k w gs))
      else err validation

as_fields : Value → Fields
as_fields (obj fs) = fs
as_fields v = end

unfoldable pub decode_action : XprActionJson → Outcome Thrown DecodedAction
unfolding as_fields
decode_action a = normalize_value (obj a.payload) 0 >>= λ payload. ok (record {
  contract = a.account;
  action = a.name;
  authorization = a.authorization;
  payload = as_fields payload;
})

unfoldable pub decode_actions : List XprActionJson → Outcome Thrown (List DecodedAction)
decode_actions [] = ok []
decode_actions (a ∷ actions) = decode_action a >>= λ d. decode_actions actions >>= λ ds. ok (d ∷ ds)

is_string : Value → Bool
is_string (str s) = true
is_string v = false

-- `JSON.stringify(input)?.length > MAX_INPUT_BYTES`: sorting the members does not change the length.
unfoldable pub is_oversized : Value → Bool
is_oversized input = elim (canonicalize input) [
  | ok s ↦ ltb max_input_bytes (length s)
  | err _ ↦ false
]

-- The `source` of the result, a copy of the validated input, is left out: it is what the reader read.
unfoldable pub decode_xpr_transaction : Value → ChainContext → Outcome Thrown DecodedTransaction
unfolding is_string
decode_xpr_transaction input context =
    if is_string input
    then err validation
    else if is_oversized input
    then err validation
    else elim (read_transaction input) [
      | none ↦ err validation
      | some actions ↦
          decode_actions actions >>= λ ds. ok (record { context = context; actions = ds })
    ]
