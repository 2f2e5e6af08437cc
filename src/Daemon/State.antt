-- ===== src/Daemon/State.antt =====
-- src/daemon/server.ts and protocol.ts: the daemon's state, a sign request and its response. A request
-- is what `parseSignRequest` gives, its two instants as Date.parse reads them; an instant before 1970
-- counts as 1970. A token is held as its text.
use signbox.Prelude.{ℕ, Bool, true, false, Option, List}
use signbox.Prelude.Text.{Text}
use signbox.Prelude.Outcome.{Outcome}
use signbox.Errors.{Thrown}
use signbox.Value.{Value}
use signbox.Policy.Types.{ChainContext, DecodedTransaction, DenyCode, Policy, PolicyDialect, Relay}
use signbox.Policy.Onchain.{Host}
use signbox.NonceCache.{NonceCache}
use signbox.Quota.{Journal}
use signbox.PolicyCache.{PolicyCache, ReadResult}
use signbox.PolicyCache as Policies
use signbox.Audit.{Log}
use signbox.Daemon.Keys.{AuthorityCache}

pub record Capabilities : Type 0 where
  pub sign : Bool
  pub broadcast : Bool

abbrev pub default_capabilities : Capabilities
default_capabilities = record { sign = true; broadcast = false }

pub record KeyHandle : Type 0 where
  pub key_id : Text
  pub public_key : Text
  pub export_policy : Text
  pub chain : ChainContext
  pub agent : Text
  pub permission : Text

pub record AgentRuntime : Type 0 where
  pub agent : Text
  pub permission : Text
  pub chain : ChainContext
  pub policy : Policy
  pub policy_version : ℕ
  pub enabled : Bool
  pub token : Text
  pub key : KeyHandle
  pub capabilities : Option Capabilities

pub record SignRequest : Type 0 where
  pub request_id : Text
  pub agent : Text
  pub chain : Text
  pub network : Text
  pub chain_id : Text
  pub transaction : Value
  pub broadcast : Bool
  pub requested_at : ℕ
  pub expires_at : ℕ
  pub nonce : Text
  pub token : Text

-- A request to broadcast what was signed elsewhere; `signed_transaction` is an object.
pub record BroadcastRequest : Type 0 where
  pub request_id : Text
  pub agent : Text
  pub chain : Text
  pub network : Text
  pub chain_id : Text
  pub signed_transaction : Value
  pub requested_at : ℕ
  pub expires_at : ℕ
  pub nonce : Text
  pub token : Text

pub data ReadOp : Type 0 where
  whoami query : ReadOp

pub record ReadRequest : Type 0 where
  pub op : ReadOp
  pub request_id : Text
  pub agent : Text
  pub requested_at : ℕ
  pub expires_at : ℕ
  pub token : Text
  pub method : Option Text
  pub params : Option Value

pub record SignedTransaction : Type 0 where
  pub signature : Text
  pub transaction_digest : Text
  pub signed_transaction : Option Value

pub data BroadcastOutcome : Type 0 where
  accepted : (receipt : Value) → BroadcastOutcome
  rejected ambiguous : (reason : Text) → BroadcastOutcome

pub data QuotaFate : Type 0 where
  committed released no_quota : QuotaFate

pub record BroadcastReport : Type 0 where
  pub outcome : BroadcastOutcome
  pub quota : QuotaFate

pub data SignResponse : Type 0 where
  signed :
      (request_id signature digest : Text) (signed_transaction : Option Value) (policy_version : ℕ)
      (broadcast : Option BroadcastReport)
      → SignResponse
  denied : (request_id : Text) (code : DenyCode) (policy_version : Option ℕ) → SignResponse

pub data BroadcastResponse : Type 0 where
  relayed : (request_id : Text) (report : BroadcastReport) → BroadcastResponse
  denied : (request_id : Text) (code : DenyCode) → BroadcastResponse

-- The errors of a read request, by their fixed texts, or the message of what was thrown.
pub data ReadError : Type 0 where
  unreadable unauthenticated disabled out_of_window no_relay no_method : ReadError
  failed : Thrown → ReadError

pub data ReadResponse : Type 0 where
  identity : (request_id agent permission public_key : Text) (chain : ChainContext) → ReadResponse
  answer : (request_id method : Text) (result : Value) → ReadResponse
  read_error : (request_id : Text) (op : ReadOp) (error : ReadError) → ReadResponse

pub record Config : Type 0 where
  pub max_request_ttl_ms : ℕ
  pub max_clock_skew_ms : ℕ

-- The seams that the daemon is given; a caller of `sign` or `broadcast` may see a throw. `parse_date` is
-- Date.parse, none for NaN; an instant before 1970 counts as its start.
pub record Dependencies : Type 0 where
  pub parse_date : Text → Option ℕ
  pub decode : Value → ChainContext → Outcome Thrown DecodedTransaction
  pub dialect : PolicyDialect
  pub sign : DecodedTransaction → KeyHandle → Outcome Thrown SignedTransaction
  pub broadcast : Option (Option Value → Outcome Thrown BroadcastOutcome)
  pub relay : Option Relay
  pub host : Host
  pub policy_options : Policies.Options

-- What one request reads from outside: clocks, the answers of the policy reader and of the key
-- resolver, and the id of its reservation.
pub record Readings : Type 0 where
  pub now_ms : ℕ
  pub policy_answer : ReadResult
  pub policy_now_ms : ℕ
  pub key_answer : Outcome Thrown Bool
  pub key_now_ms : ℕ
  pub reservation_id : Text
  pub audit_now_ms : ℕ

-- The state, with the optional stores, and the calls that reached the signer and the broadcaster.
pub record Daemon : Type 0 where
  pub agents : List (Text × AgentRuntime)
  pub nonces : NonceCache
  pub policies : Option PolicyCache
  pub keys : Option AuthorityCache
  pub journal : Option Journal
  pub audit : Option Log
  pub signed_calls : List (DecodedTransaction × KeyHandle)
  pub broadcast_calls : List (Option Value)

pub record AuditContext : Type 0 where
  pub agent : Text
  pub contracts : List Text
  pub rule_ids : Option (List Text)
