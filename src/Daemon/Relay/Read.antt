-- ===== src/Daemon/Relay/Read.antt =====
-- Who gets an answer to a read request, and which.
use signbox.Prelude.{◌≡◌, refl, ◌⊎◌, inl, inr, true, Option, none, some, Bool-cases}
use signbox.Prelude.Text.{Text, lit, text_eq, text_eq_iff, lookup}
use signbox.Prelude.Outcome.{ok, Outcome-cases}
use signbox.Value.{Value}
use signbox.Policy.Types.{Relay}
use signbox.Daemon.Protocol.{parse_read_request}
use signbox.Daemon.State.{
  AgentRuntime, ReadOp, whoami, query, ReadRequest, ReadError, unreadable, unauthenticated,
  disabled, out_of_window, no_relay, no_method, failed, ReadResponse, identity, answer, read_error,
  Config, Dependencies, Readings, Daemon,
}
use signbox.Daemon.Gates.{in_window}
use signbox.Daemon.Relay.{params_of, read_relay, read_op, read_known, read_parsed, handle_read}

abbrev pub IsRefused : ReadResponse → Type 0
IsRefused response =
    (id : Text) × (op : ReadOp) × (error : ReadError) × (response ≡ read_error id op error)

module _ (cfg : Config) (deps : Dependencies) (readings : Readings) where
  -- What the relay answered to the method that the request names.
  pub record IsRelayAnswer (request : ReadRequest) (response : ReadResponse) : Type 0 where
    pub relay : Relay
    pub method : Text
    pub result : Value
    pub has_relay : deps.relay ≡ some relay
    pub asked : request.method ≡ some method
    pub answered : relay method (params_of cfg deps readings request.params) ≡ ok result
    pub gives : response ≡ answer request.request_id method result

  -- The public identity of the agent that asks.
  pub record IsIdentity (request : ReadRequest) (runtime : AgentRuntime) (response : ReadResponse)
      : Type 0 where
    pub asked : request.op ≡ whoami
    pub gives :
        response
        ≡ identity request.request_id runtime.agent runtime.permission runtime.key.public_key
            runtime.chain

  -- A request that is answered.
  pub record IsAnswered (daemon : Daemon) (line : Text) (response : ReadResponse) : Type 0 where
    pub request : ReadRequest
    pub read : parse_read_request deps line ≡ some request
    pub runtime : AgentRuntime
    pub known : lookup request.agent daemon.agents ≡ some runtime
    pub authentic : runtime.token ≡ request.token
    pub enabled : runtime.enabled ≡ true
    pub timely : in_window cfg request.requested_at request.expires_at readings.now_ms ≡ true
    pub gives : IsIdentity request runtime response ⊎ IsRelayAnswer request response

  read_relay-gives :
      (request : ReadRequest) (relay : Option Relay) (method : Option Text)
      → deps.relay ≡ relay
      → request.method ≡ method
      → IsRefused (read_relay cfg deps readings request relay method)
        ⊎ IsRelayAnswer request (read_relay cfg deps readings request relay method)
  unfolding read_relay
  read_relay-gives request none method e m = inl (request.request_id, request.op, no_relay, refl)
  read_relay-gives request (some relay) none e m =
      inl (request.request_id, request.op, no_method, refl)
  read_relay-gives request (some relay) (some method) e m =
      elim (Outcome-cases (relay method (params_of cfg deps readings request.params))) [
        | inl (t, threw) ↦ rw threw (inl (request.request_id, request.op, failed t, refl))
        | inr (result, answered) ↦ inr (record {
          relay = relay;
          method = method;
          result = result;
          has_relay = e;
          asked = m;
          answered = answered;
          gives = rw answered refl;
        })
      ]

  read_op-gives :
      (request : ReadRequest) (runtime : AgentRuntime) (op : ReadOp)
      → request.op ≡ op
      → IsRefused (read_op cfg deps readings request runtime op)
        ⊎ (IsIdentity request runtime (read_op cfg deps readings request runtime op)
            ⊎ IsRelayAnswer request (read_op cfg deps readings request runtime op))
  unfolding read_op
  read_op-gives request runtime whoami e = inr (inl (record { asked = e; gives = refl }))
  read_op-gives request runtime query e =
      elim (read_relay-gives request deps.relay request.method refl refl) [
        | inl refused ↦ inl refused
        | inr given ↦ inr (inr given)
      ]

  read_known-gives :
      (daemon : Daemon) (line : Text) (request : ReadRequest) (found : Option AgentRuntime)
      → parse_read_request deps line ≡ some request
      → lookup request.agent daemon.agents ≡ found
      → IsRefused (read_known cfg deps readings request found)
        ⊎ IsAnswered daemon line (read_known cfg deps readings request found)
  unfolding read_known
  read_known-gives daemon line request none e f =
      inl (request.request_id, request.op, unauthenticated, refl)
  read_known-gives daemon line request (some runtime) e f =
      elim (Bool-cases (text_eq runtime.token request.token)) [
        | inr bad ↦ rw bad (inl (request.request_id, request.op, unauthenticated, refl))
        | inl good ↦ rw good (elim (Bool-cases runtime.enabled) [
          | inr off ↦ rw off (inl (request.request_id, request.op, disabled, refl))
          | inl on ↦
              rw on
                (elim (Bool-cases
                  (in_window cfg request.requested_at request.expires_at readings.now_ms)) [
                    | inr late ↦ rw late (inl (request.request_id, request.op, out_of_window, refl))
                    | inl timely ↦ rw timely (elim (read_op-gives request runtime request.op refl) [
                      | inl refused ↦ inl refused
                      | inr given ↦ inr (record {
                        request = request;
                        read = e;
                        runtime = runtime;
                        known = f;
                        authentic = (text_eq_iff runtime.token request.token).0 good;
                        enabled = on;
                        timely = timely;
                        gives = given;
                      })
                    ])
                  ])
        ])
      ]

  read_parsed-gives :
      (daemon : Daemon) (line : Text) (read : Option ReadRequest)
      → parse_read_request deps line ≡ read
      → IsRefused (read_parsed cfg deps readings daemon read)
        ⊎ IsAnswered daemon line (read_parsed cfg deps readings daemon read)
  unfolding read_parsed
  read_parsed-gives daemon line none e = inl (lit "unknown", query, unreadable, refl)
  read_parsed-gives daemon line (some request) e =
      read_known-gives daemon line request (lookup request.agent daemon.agents) e refl

-- A read request is refused, or it is one of a known, enabled agent with its token within its time
-- window; then it asks who it is and gets the public identity under its name, or it gets what the relay
-- answered to the method that it names.
pub handle_read-IsAnswered :
    (cfg : Config) (deps : Dependencies) (readings : Readings) (daemon : Daemon) (line : Text)
    → IsRefused (handle_read cfg deps readings daemon line)
      ⊎ IsAnswered cfg deps readings daemon line (handle_read cfg deps readings daemon line)
unfolding handle_read
handle_read-IsAnswered cfg deps readings daemon line =
    read_parsed-gives cfg deps readings daemon line (parse_read_request deps line) refl
