-- ===== src/Value.antt =====
-- JavaScript values as the program holds them: what JSON.parse returns, with `undefined`.
pub mod Shapes
use signbox.Prelude.{
  ℕ, suc, ◌-◌, ◌^◌, Bool, true, false, Option, none, some, List, [], ◌∷◌, ◌++◌, ◌||◌, ◌==◌,
  if◌then◌else◌,
}
use signbox.Prelude.Text.{Text, lit, text_eq, starts_with, includes}
use signbox.Prelude.Outcome.{Outcome, ok, err}
use signbox.Errors.{Thrown, internal}
use signbox.Asset.Decimal.{decimal_text}

-- A number is a natural number, a negative integer -(n + 1), any other finite number, held by the
-- text that Number.prototype.toString gives it, or NaN or an infinity, held likewise. An integer of
-- more than 21 digits counts as "any other": its text has an exponent.
pub data JsNumber : Type 0 where
  nat : ℕ → JsNumber
  neg : ℕ → JsNumber
  other : Text → JsNumber
  non_finite : Text → JsNumber

abbrev pub max_safe_integer : ℕ
max_safe_integer = 2 ^ 53 - 1

mutual
  pub data Value : Type 0 where
    undefined null : Value
    bool : Bool → Value
    num : JsNumber → Value
    str : Text → Value
    arr : Items → Value
    obj : Fields → Value

  pub data Items : Type 0 where
    nil : Items
    cons : Value → Items → Items

  -- The own enumerable properties, in their order.
  pub data Fields : Type 0 where
    end : Fields
    field : Text → Value → Fields → Fields

-- `o[k]`; a name that no own property has reads `undefined`.
unfoldable pub get_field : Text → Fields → Value
get_field k end = undefined
get_field k (field j v fs) = if text_eq j k then v else get_field k fs

-- `v[k]` of any value: null and undefined throw. The names that the code reads are none that a
-- number, a text or an array has.
unfoldable pub read_member : Text → Value → Outcome Thrown Value
unfolding get_field
read_member k undefined = err internal
read_member k null = err internal
read_member k (obj fs) = ok (get_field k fs)
read_member k v = ok undefined

abbrev pub items : Items → List Value
items nil = []
items (cons v vs) = v ∷ items vs

abbrev pub fields : Fields → List (Text × Value)
fields end = []
fields (field k v fs) = (k, v) ∷ fields fs

abbrev pub of_fields : List (Text × Value) → Fields
of_fields [] = end
of_fields ((k, v) ∷ fs) = field k v (of_fields fs)

unfoldable pub number_text : JsNumber → Text
unfolding decimal_text
number_text (nat n) = decimal_text n
number_text (neg n) = b'-' ∷ decimal_text (suc n)
number_text (other s) = s
number_text (non_finite s) = s

-- `v === t`.
unfoldable pub is_text : Text → Value → Bool
unfolding text_eq
is_text t (str s) = text_eq s t
is_text t v = false

-- `v === n` for a natural number.
unfoldable pub is_nat : ℕ → Value → Bool
is_nat n (num (nat m)) = m == n
is_nat n v = false

-- `n < 1`, by the form in which toString writes a number between 0 and 1.
unfoldable pub below_one : JsNumber → Bool
unfolding starts_with includes
below_one (nat n) = n == 0
below_one (neg n) = true
below_one (other s) = starts_with s (lit "-") || starts_with s (lit "0.") || includes s (lit "e-")
below_one (non_finite s) = starts_with s (lit "-")

-- `typeof v === "number" && v < 1`.
unfoldable pub is_below_one : Value → Bool
unfolding below_one
is_below_one (num n) = below_one n
is_below_one v = false

-- The text that a value is, if it is one.
unfoldable pub text_of : Value → Option Text
text_of (str s) = some s
text_of v = none

-- `(Array.isArray(v) ? v.length : 1) === 0`.
unfoldable pub is_empty_array : Value → Bool
is_empty_array (arr nil) = true
is_empty_array v = false

-- `String(v)`; an array is its joined items, where null and undefined are empty.
unfoldable mutual
  unfolding number_text

  pub to_text : Value → Text
  to_text undefined = lit "undefined"
  to_text null = lit "null"
  to_text (bool true) = lit "true"
  to_text (bool false) = lit "false"
  to_text (num n) = number_text n
  to_text (str s) = s
  to_text (arr vs) = join_items vs
  to_text (obj fs) = lit "[object Object]"

  pub join_items : Items → Text
  join_items nil = []
  join_items (cons v nil) = item_text v
  join_items (cons v (cons w ws)) = item_text v ++ (b',' ∷ join_items (cons w ws))

  pub item_text : Value → Text
  item_text undefined = []
  item_text null = []
  item_text (bool b) = if b then lit "true" else lit "false"
  item_text (num n) = number_text n
  item_text (str s) = s
  item_text (arr vs) = join_items vs
  item_text (obj fs) = lit "[object Object]"
