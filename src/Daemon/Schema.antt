-- ===== src/Daemon/Schema.antt =====
-- src/daemon/protocol.ts: the schemas of the three requests, as Ajv checks them.
use signbox.Prelude.{
  ℕ, Bool, true, false, ◌&&◌, ◌||◌, not, Option, none, some, List, [], ◌∷◌, leb, ◌==◌, length,
  every, if◌then◌else◌,
}
use signbox.Prelude.Text.{Text, lit, text_mem}
use signbox.Value.{Value, undefined, bool, str, obj, Fields, end, field, get_field, is_text}
use signbox.Policy.Vocabulary.{is_chain_id}
use signbox.Policy.Schema.{sized}

abbrev in_range : ℕ → ℕ → ℕ → Bool
in_range lo hi c = leb lo c && leb c hi

is_alphanumeric : ℕ → Bool
is_alphanumeric c = in_range b'A' b'Z' c || in_range b'a' b'z' c || in_range b'0' b'9' c

-- `^[class]{lo,hi}$`.
unfoldable pub all_of : (ℕ → Bool) → ℕ → ℕ → Text → Bool
all_of class lo hi s = every class s && leb lo (length s) && leb (length s) hi

unfoldable pub is_request_id : Text → Bool
unfolding all_of is_alphanumeric
is_request_id s = all_of (λ c. is_alphanumeric c || (c == b'-')) 8 64 s

unfoldable pub is_account : Text → Bool
unfolding all_of
is_account s = all_of (λ c. in_range b'a' b'z' c || in_range b'1' b'5' c || (c == b'.')) 1 12 s

unfoldable pub is_token_char : ℕ → Bool
unfolding is_alphanumeric
is_token_char c = is_alphanumeric c || (c == b'_') || (c == b'-')

unfoldable pub is_nonce : Text → Bool
unfolding all_of is_token_char
is_nonce s = all_of is_token_char 16 128 s

unfoldable pub is_token : Text → Bool
unfolding all_of is_token_char
is_token s = all_of is_token_char 16 256 s

unfoldable pub is_method : Text → Bool
unfolding all_of
is_method s = all_of (λ c. in_range b'a' b'z' c || (c == b'_')) 1 40 s

-- The rest of a text after a template, in which `d` stands for a digit.
unfoldable pub after_template : Text → Text → Option Text
after_template [] s = some s
after_template (p ∷ ps) [] = none
after_template (p ∷ ps) (c ∷ s) =
    let rest = after_template ps s in
    if (if p == b'd' then in_range b'0' b'9' c else p == c) then rest else none

unfoldable pub is_suffix : Option Text → Bool
is_suffix (some []) = true
is_suffix _ = false

unfoldable pub is_time_zone : Option Text → Bool
unfolding is_suffix after_template
is_time_zone none = false
is_time_zone (some s) =
    is_suffix (after_template (lit "Z") s)
    || is_suffix (after_template (lit ".dZ") s)
    || is_suffix (after_template (lit ".ddZ") s)
    || is_suffix (after_template (lit ".dddZ") s)

-- `ISO_DATETIME_PATTERN`.
unfoldable pub is_iso_datetime : Text → Bool
unfolding is_time_zone after_template
is_iso_datetime s = is_time_zone (after_template (lit "dddd-dd-ddTdd:dd:dd") s)

-- One property of a schema.
pub record Property : Type 0 where
  pub name : Text
  pub required : Bool
  pub test : Value → Bool

abbrev pub textual : (Text → Bool) → Value → Bool
textual p (str s) = p s
textual p v = false

abbrev pub is_object : Value → Bool
is_object (obj fs) = true
is_object v = false

abbrev pub is_boolean : Value → Bool
is_boolean (bool b) = true
is_boolean v = false

abbrev pub needs : Text → (Value → Bool) → Property
needs name test = record { name = name; required = true; test = test }

abbrev pub allows : Text → (Value → Bool) → Property
allows name test = record { name = name; required = false; test = test }

-- The properties that the sign and the broadcast request share, and those of every request.
abbrev pub common : List Property
common =
    needs (lit "requestId") (textual is_request_id)
    ∷ needs (lit "agent") (textual is_account)
    ∷ needs (lit "requestedAt") (textual is_iso_datetime)
    ∷ needs (lit "expiresAt") (textual is_iso_datetime)
    ∷ needs (lit "token") (textual is_token)
    ∷ []

abbrev pub targeted : List Property
targeted =
    needs (lit "chain") (textual (λ s. sized 1 32 s))
    ∷ needs (lit "network") (textual (λ s. sized 1 32 s))
    ∷ needs (lit "chainId") (textual is_chain_id)
    ∷ needs (lit "nonce") (textual is_nonce)
    ∷ common

abbrev pub sign_request_schema : List Property
sign_request_schema =
    needs (lit "transaction") is_object ∷ allows (lit "broadcast") is_boolean ∷ targeted

abbrev pub broadcast_request_schema : List Property
broadcast_request_schema =
    needs (lit "op") (λ v. is_text (lit "broadcast") v)
    ∷ needs (lit "signedTransaction") is_object
    ∷ targeted

abbrev pub read_request_schema : List Property
read_request_schema =
    needs (lit "op") (λ v. is_text (lit "whoami") v || is_text (lit "query") v)
    ∷ allows (lit "method") (textual is_method)
    ∷ allows (lit "params") is_object
    ∷ common

unfoldable pub value_conforms : Property → Value → Bool
value_conforms p undefined = not p.required
value_conforms p v = p.test v

unfoldable pub names_of : List Property → List Text
names_of [] = []
names_of (p ∷ ps) = p.name ∷ names_of ps

-- `additionalProperties: false`.
unfoldable pub only_named : List Text → Fields → Bool
unfolding text_mem
only_named names end = true
only_named names (field k v fs) = text_mem k names && only_named names fs

unfoldable pub validate_shape : List Property → Value → Bool
unfolding value_conforms names_of only_named get_field
validate_shape schema (obj fs) =
    only_named (names_of schema) fs
    && every (λ (p : Property). value_conforms p (get_field p.name fs)) schema
validate_shape schema v = false
