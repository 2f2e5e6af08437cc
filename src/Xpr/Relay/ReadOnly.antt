-- ===== src/Xpr/Relay/ReadOnly.antt =====
-- The relay reads, and does not write.
use signbox.Prelude.{
  ℕ, ◌≤◌, ◌≡◌, refl, ◌⊎◌, inl, inr, true, some, ◌∷◌, arith, ltb, length, All, Bool-cases,
  Option-cases,
}
use signbox.Prelude.Text.{Text, text_eq, text_mem}
use signbox.Prelude.Outcome.{Outcome, ok, err}
use signbox.Value.{Value}
use signbox.Json.{stringify}
use signbox.Xpr.Rpc.{
  RpcOptions, verify_path, Info, RpcError, Event, verified, sent, Rpc, new_rpc, Reading, check_info,
  checked, answered, get_info, is_fresh, ensure_verified, send, fetch,
}
use signbox.Xpr.Relay.{
  read_only_methods, max_relay_response, path_of, body_of, within_size, sized, relay_call,
}

-- A request of the verification, or to the path of a method that only reads.
abbrev pub Reads : Event → Type 0
Reads (verified info checked_at_ms stored_at_ms) = Unit {0}
Reads (sent path asked_at_ms) =
    (path ≡ verify_path)
    ⊎ ((method : Text) × (text_mem method read_only_methods ≡ true) × (path ≡ path_of method))

module _ (opts : RpcOptions) where
  checked-Reads :
      (rpc : Rpc) (r : Reading) (info : Info) (result : Outcome RpcError (Unit {0}))
      → All Reads rpc.events
      → All Reads (checked opts rpc r info result).0.events
  unfolding checked
  checked-Reads rpc r info (err e) h = h
  checked-Reads rpc r info (ok u) h = (tt, h)

  answered-Reads :
      (rpc : Rpc) (r : Reading) (answer : Outcome RpcError Info)
      → All Reads rpc.events
      → All Reads (answered opts rpc r answer).0.events
  unfolding answered
  answered-Reads rpc r (err e) h = h
  answered-Reads rpc r (ok info) h =
      checked-Reads rpc r info (check_info opts r.checked_at_ms info) h

  ensured-Reads :
      (rpc : Rpc) (r : Reading)
      → All Reads rpc.events
      → All Reads (ensure_verified opts rpc r).0.events
  unfolding ensure_verified get_info
  ensured-Reads rpc r h = elim (Bool-cases (is_fresh opts rpc.verified_at_ms r.asked_at_ms)) [
    | inl fresh ↦ rw fresh h
    | inr stale ↦ rw stale (
        answered-Reads (record rpc { events = sent verify_path r.asked_at_ms ∷ rpc.events }) r
          r.info (inl refl, h))
  ]

  send-Reads :
      (original : Text → Value → Outcome RpcError Value) (method : Text) (body : Value) (asked : ℕ)
      (ready : Rpc × Outcome RpcError (Unit {0}))
      → text_mem method read_only_methods ≡ true
      → All Reads ready.0.events
      → All Reads (send opts original (path_of method) body asked ready).0.events
  unfolding send
  send-Reads original method body asked (rpc, err e) allowed h = h
  send-Reads original method body asked (rpc, ok u) allowed h = (inr (method, allowed, refl), h)

  fetch-Reads :
      (original : Text → Value → Outcome RpcError Value) (rpc : Rpc) (r : Reading) (method : Text)
      (body : Value)
      → text_mem method read_only_methods ≡ true
      → All Reads rpc.events
      → All Reads (fetch opts original rpc r (path_of method) body).0.events
  unfolding fetch
  fetch-Reads original rpc r method body allowed h =
      elim (Bool-cases (text_eq (path_of method) verify_path)) [
        | inl own ↦ rw own (send-Reads original method body r.asked_at_ms (rpc, ok tt) allowed h)
        | inr other ↦ rw other (
            send-Reads original method body r.asked_at_ms (ensure_verified opts rpc r) allowed
              (ensured-Reads rpc r h))
      ]

-- What the endpoint answered, within the size.
pub record IsServed (original : Text → Value → Outcome RpcError Value) (method : Text)
    (params result : Value) : Type 0 where
  pub allowed : text_mem method read_only_methods ≡ true
  pub answer : original (path_of method) (body_of params) ≡ ok result
  pub text : Text
  pub serialized : stringify result ≡ some text
  pub bounded : length text ≤ max_relay_response

sized-ok :
    (answer : Outcome RpcError Value) (result : Value)
    → sized answer ≡ ok result
    → (answer ≡ ok result)
      × ((text : Text) × (stringify result ≡ some text) × (length text ≤ max_relay_response))
unfolding sized within_size
sized-ok (err e) result h = absurd (cc (h))
sized-ok (ok v) result h = elim (Option-cases (stringify v)) [
  | inl nothing ↦ absurd (cc (rw nothing at h))
  | inr (text, written) ↦ elim (Bool-cases (ltb max_relay_response (length text))) [
    | inl long ↦ absurd (cc (rw (written, long) at h))
    | inr short ↦
        let this : v ≡ result = cc (rw (written, short) at h) in
        (cc (this), (text, cc (this, written), ground (arith, short)))
  ]
]

module _ (opts : RpcOptions) (original : Text → Value → Outcome RpcError Value) where
  sent-answer :
      (path : Text) (body : Value) (asked : ℕ) (ready : Rpc × Outcome RpcError (Unit {0}))
      (result : Value)
      → (send opts original path body asked ready).1 ≡ ok result
      → original path body ≡ ok result
  unfolding send
  sent-answer path body asked (rpc, err e) result h = absurd (cc (h))
  sent-answer path body asked (rpc, ok u) result h = h

  fetch-answer :
      (rpc : Rpc) (r : Reading) (path : Text) (body : Value) (result : Value)
      → (fetch opts original rpc r path body).1 ≡ ok result
      → original path body ≡ ok result
  unfolding fetch
  fetch-answer rpc r path body result h = sent-answer path body r.asked_at_ms _ result h

-- The relay sends nothing but the verification's request and requests to the paths of methods that only
-- read, and a call that gives a result has such a method: the result is what the endpoint answered to
-- that path, and its JSON text is no longer than the limit.
pub relay_call-Reads :
    (opts : RpcOptions) (original : Text → Value → Outcome RpcError Value) (r : Reading)
    (method : Text) (params : Value)
    → All Reads (relay_call opts original r method params).0.events
      × ((result : Value)
          → (relay_call opts original r method params).1 ≡ ok result
          → IsServed original method params result)
unfolding relay_call
relay_call-Reads opts original r method params =
    elim (Bool-cases (text_mem method read_only_methods)) [
      | inr refused ↦ rw refused ((tt, λ result h. absurd (cc (h))))
      | inl allowed ↦ rw allowed (
          (
            fetch-Reads opts original new_rpc r method (body_of params) allowed tt,
            λ result h.
                let (got, (text, written, short)) = sized-ok _ result h in
                record {
                  allowed = allowed;
                  answer =
                      fetch-answer opts original new_rpc r (path_of method) (body_of params) result
                        got;
                  text = text;
                  serialized = written;
                  bounded = short;
                },
          ))
    ]
