-- ===== src/Xpr/Broadcaster.antt =====
-- src/chains/xpr/broadcaster.ts: what the answer to a push means. get_info and push_transaction run
-- behind the verified RPC: their results, a receipt or the thrown value, are inputs. A text of an even
-- number of hex digits is read back whole; the bytes that go out are a parameter's.
pub mod Outcomes
pub mod Tests
use signbox.Prelude.{
  ◌≡◌, refl, ◌⊎◌, inl, inr, Bool, true, false, not, ◌||◌, [], ◌∷◌, if◌then◌else◌, Bool-cases,
}
use signbox.Prelude.Text.{Text, lit}
use signbox.Value.{
  Value, undefined, null, bool, num, str, arr, obj, Items, cons, get_field, is_text, is_nat,
  of_fields, to_text,
}
use signbox.Prelude.Outcome.{Outcome, ok, err}
use signbox.Daemon.State.{BroadcastOutcome, accepted, rejected, ambiguous}

-- `v?.[k]`; reading a property of what is no object is undefined.
unfoldable pub get : Text → Value → Value
unfolding get_field
get k (obj fs) = get_field k fs
get k v = undefined

-- `typeof v === "object" && v !== null`.
unfoldable pub is_object : Value → Bool
is_object (obj fs) = true
is_object (arr vs) = true
is_object v = false

unfoldable pub is_nullish : Value → Bool
is_nullish undefined = true
is_nullish null = true
is_nullish v = false

unfoldable pub first_of : Value → Value
first_of (arr (cons v vs)) = v
first_of (obj fs) = get_field (lit "0") fs
first_of v = undefined

-- The error is read as own properties; a JavaScript error has its name and message so.
unfoldable pub is_duplicate : Value → Bool
unfolding get is_text is_nat
is_duplicate error =
    let inner = get (lit "error") (get (lit "json") error) in
    is_nat 3040008 (get (lit "code") inner)
    || is_text (lit "tx_duplicate_exception") (get (lit "name") inner)

unfoldable pub is_undefined : Value → Bool
is_undefined undefined = true
is_undefined v = false

unfoldable pub is_deterministic_rejection : Value → Bool
unfolding is_object get is_text is_undefined
is_deterministic_rejection error =
    if is_object error
    then is_text (lit "RpcError") (get (lit "name") error)
      || not (is_undefined (get (lit "json") error))
    else false

-- `a ?? b`.
unfoldable pub or_else : Value → Value → Value
unfolding is_nullish
or_else a b = if is_nullish a then b else a

unfoldable pub reason_of : Value → Value
unfolding or_else get first_of
reason_of error =
    let inner = get (lit "error") (get (lit "json") error) in
    or_else (get (lit "message") (first_of (get (lit "details") inner))) (
      or_else (get (lit "what") inner)
        (or_else (get (lit "message") error) (str (lit "broadcast failed"))))

-- What a thrown value means; a reason that is no text counts as its text.
unfoldable pub failure : Value → BroadcastOutcome
unfolding to_text
failure error =
    if is_duplicate error
    then accepted
        (obj (of_fields ((lit "duplicate", bool true) ∷ (lit "reason", reason_of error) ∷ [])))
    else if is_deterministic_rejection error
    then rejected (to_text (reason_of error))
    else ambiguous (to_text (reason_of error))

unfoldable pub pushed : Outcome Value Value → BroadcastOutcome
unfolding failure
pushed (ok receipt) = accepted receipt
pushed (err error) = failure error

module _ (push : Value → Text → Outcome Value Value) where
  unfoldable pub push_payload : Value → Value → BroadcastOutcome
  unfolding pushed
  push_payload (arr signatures) (str packed) = pushed (push (arr signatures) packed)
  push_payload signatures packed = rejected (lit "malformed signed transaction")

  unfoldable pub broadcast_xpr : Value → BroadcastOutcome
  unfolding push_payload get
  broadcast_xpr payload =
      push_payload (get (lit "signatures") payload) (get (lit "packedTransaction") payload)
