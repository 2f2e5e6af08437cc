-- ===== src/Xpr/Broadcaster/Tests.antt =====
-- Broadcasts on concrete answers.
use signbox.Prelude.{◌≡◌, refl, true, [], ◌∷◌}
use signbox.Prelude.Text.{Text, lit, text_eq}
use signbox.Prelude.Outcome.{Outcome, err}
use signbox.Value.{nat, Value, null, bool, num, str, arr, obj, nil, cons, of_fields}
use signbox.Daemon.State.{accepted, rejected, ambiguous}
use signbox.Xpr.Broadcaster.{broadcast_xpr, is_duplicate, is_deterministic_rejection, reason_of}
use signbox.Xpr.Broadcaster.Outcomes.{IsOutcome, broadcast_xpr-IsOutcome}

abbrev payload : Value
payload = obj (
    of_fields (
      (lit "signatures", arr (cons (str (lit "SIG")) nil))
      ∷ (lit "packedTransaction", str (lit "00"))
      ∷ []))

-- A node's answer with an error code.
abbrev node_error : Value → Value
node_error code = obj (
    of_fields (
      (lit "name", str (lit "RpcError"))
      ∷ (
        lit "json",
        obj (
            of_fields (
              (
                lit "error",
                obj (of_fields ((lit "code", code) ∷ (lit "what", str (lit "expired")) ∷ [])),
              )
              ∷ [])),
      )
      ∷ []))

abbrev refusing : Value → Text → Outcome Value Value
refusing signatures packed = err (node_error (num (nat 3040005)))

abbrev repeating : Value → Text → Outcome Value Value
repeating signatures packed = err (node_error (num (nat 3040008)))

abbrev silent : Value → Text → Outcome Value Value
silent signatures packed = err (obj (of_fields ((lit "message", str (lit "timeout")) ∷ [])))

refused : broadcast_xpr refusing payload ≡ rejected (lit "expired")
unfolding broadcast_xpr text_eq is_duplicate is_deterministic_rejection reason_of
refused = refl

unanswered : broadcast_xpr silent payload ≡ ambiguous (lit "timeout")
unfolding broadcast_xpr text_eq is_duplicate is_deterministic_rejection reason_of
unanswered = refl

malformed : broadcast_xpr refusing null ≡ rejected (lit "malformed signed transaction")
unfolding broadcast_xpr text_eq is_duplicate is_deterministic_rejection reason_of
malformed = refl

duplicate :
    broadcast_xpr repeating payload
    ≡ accepted
        (obj (of_fields ((lit "duplicate", bool true) ∷ (lit "reason", str (lit "expired")) ∷ [])))
unfolding broadcast_xpr text_eq is_duplicate is_deterministic_rejection reason_of
duplicate = refl

broadcast_xpr-IsOutcome_example : IsOutcome refusing payload (broadcast_xpr refusing payload)
broadcast_xpr-IsOutcome_example = broadcast_xpr-IsOutcome refusing payload
