-- ===== src/Daemon/Protocol.antt =====
-- src/daemon/protocol.ts: the parsing of a line as one of the three requests.
pub mod Valid
use signbox.Prelude.{
  ℕ, Bool, true, false, ◌&&◌, ◌||◌, not, Option, none, some, List, [], ◌∷◌, leb, ◌==◌, length,
  every, if◌then◌else◌,
}
use signbox.Prelude.Text.{Text, lit, text_eq, text_mem}
use signbox.Value.{
  Value, undefined, bool, str, obj, Fields, end, field, get_field, is_text, text_of,
}
use signbox.Policy.Vocabulary.{is_chain_id}
use signbox.Policy.Schema.{sized}
use signbox.Daemon.State.{
  SignRequest, BroadcastRequest, ReadOp, whoami, query, ReadRequest, Dependencies,
}
use signbox.Daemon.Schema.{
  Property, broadcast_request_schema, is_account, is_iso_datetime, is_method, is_nonce,
  is_request_id, is_token, read_request_schema, sign_request_schema, validate_shape,
}

-- The object that the line holds, if it conforms.
unfoldable pub conforming : List Property → Option Value → Option Fields
unfolding validate_shape
conforming schema (some (obj fs)) = if validate_shape schema (obj fs) then some fs else none
conforming schema _ = none

-- The text that a property which conforms is.
unfoldable pub text_in : Value → Text
text_in (str s) = s
text_in v = []

abbrev pub text_at : Text → Fields → Text
text_at k fs = text_in (get_field k fs)

unfoldable pub is_true : Value → Bool
is_true (bool b) = b
is_true v = false

unfoldable pub given : Value → Option Value
given undefined = none
given v = some v

unfoldable pub is_undefined : Value → Bool
is_undefined undefined = true
is_undefined v = false

unfoldable pub lacks_method : Fields → Bool
unfolding is_text is_undefined get_field
lacks_method fs =
    is_text (lit "query") (get_field (lit "op") fs) && is_undefined (get_field (lit "method") fs)

unfoldable pub timed : {A : Type 0} → Option ℕ → Option ℕ → (ℕ → ℕ → A) → Option A
timed (some requested) (some expires) f = some (f requested expires)
timed _ _ f = none

module _ (deps : Dependencies) where
  unfoldable pub with_times : {A : Type 0} → Fields → (ℕ → ℕ → A) → Option A
  unfolding timed text_in get_field
  with_times fs f =
      timed (deps.parse_date (text_at (lit "requestedAt") fs))
        (deps.parse_date (text_at (lit "expiresAt") fs)) f

  unfoldable pub sign_request_of : Option Fields → Option SignRequest
  unfolding with_times text_in is_true get_field
  sign_request_of none = none
  sign_request_of (some fs) = with_times fs (λ requested expires. record {
    request_id = text_at (lit "requestId") fs;
    agent = text_at (lit "agent") fs;
    chain = text_at (lit "chain") fs;
    network = text_at (lit "network") fs;
    chain_id = text_at (lit "chainId") fs;
    transaction = get_field (lit "transaction") fs;
    broadcast = is_true (get_field (lit "broadcast") fs);
    requested_at = requested;
    expires_at = expires;
    nonce = text_at (lit "nonce") fs;
    token = text_at (lit "token") fs;
  })

  unfoldable pub broadcast_request_of : Option Fields → Option BroadcastRequest
  unfolding with_times text_in get_field
  broadcast_request_of none = none
  broadcast_request_of (some fs) = with_times fs (λ requested expires. record {
    request_id = text_at (lit "requestId") fs;
    agent = text_at (lit "agent") fs;
    chain = text_at (lit "chain") fs;
    network = text_at (lit "network") fs;
    chain_id = text_at (lit "chainId") fs;
    signed_transaction = get_field (lit "signedTransaction") fs;
    requested_at = requested;
    expires_at = expires;
    nonce = text_at (lit "nonce") fs;
    token = text_at (lit "token") fs;
  })

  -- A query without a method is refused; the schema refuses an empty one.
  unfoldable pub with_method : Bool → Option ReadRequest → Option ReadRequest
  with_method true r = none
  with_method false r = r

  unfoldable pub read_request_of : Option Fields → Option ReadRequest
  unfolding with_method lacks_method with_times text_in get_field given text_of is_text
  read_request_of none = none
  read_request_of (some fs) = with_method (lacks_method fs) (
      with_times fs (λ requested expires. record {
        op = if is_text (lit "whoami") (get_field (lit "op") fs) then whoami else query;
        request_id = text_at (lit "requestId") fs;
        agent = text_at (lit "agent") fs;
        requested_at = requested;
        expires_at = expires;
        token = text_at (lit "token") fs;
        method = text_of (get_field (lit "method") fs);
        params = given (get_field (lit "params") fs);
      }))

  -- What is none throws.
  unfoldable pub parse_sign_request : Text → Option SignRequest
  unfolding sign_request_of conforming sized is_chain_id is_nonce is_request_id is_account
      is_iso_datetime is_token
  parse_sign_request line =
      sign_request_of (conforming sign_request_schema (deps.host.parse_json line))

  unfoldable pub parse_broadcast_request : Text → Option BroadcastRequest
  unfolding broadcast_request_of conforming is_text sized is_chain_id is_nonce is_request_id
      is_account is_iso_datetime is_token
  parse_broadcast_request line =
      broadcast_request_of (conforming broadcast_request_schema (deps.host.parse_json line))

  unfoldable pub parse_read_request : Text → Option ReadRequest
  unfolding read_request_of conforming is_method is_text is_nonce is_request_id is_account
      is_iso_datetime is_token
  parse_read_request line =
      read_request_of (conforming read_request_schema (deps.host.parse_json line))
