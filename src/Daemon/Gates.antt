-- ===== src/Daemon/Gates.antt =====
-- src/daemon/server.ts, `runDecision` up to the nonce, and the constant-time comparison of tokens.
use signbox.Prelude.{
  ℕ, ◌+◌, ◌≤◌, ◌<◌, ◌≡◌, refl, subst, inl, inr, Bool, true, false, not, ◌&&◌, ◌||◌, Option, none,
  some, arith, ltb, leb, if◌then◌else◌, Bool-cases,
}
use signbox.Prelude.Text.{Text, text_eq, text_eq_iff, lookup}
use signbox.Prelude.Outcome.{Outcome, ok, err, ◌>>=◌, >>=-eq-ok}
use signbox.Policy.Types.{
  ChainContext, DenyCode, unauthenticated, agent_disabled, capability_denied, broadcast_unavailable,
  request_expired,
}
use signbox.Daemon.State.{
  Capabilities, default_capabilities, AgentRuntime, SignRequest, Config, Dependencies, Daemon,
}

unfoldable pub pass : Bool → DenyCode → Outcome DenyCode (Unit {0})
pass true code = ok tt
pass false code = err code

unfoldable pub capabilities_of : Option Capabilities → Capabilities
capabilities_of none = default_capabilities
capabilities_of (some c) = c

pub is_some {ℓ} : {A : Type ℓ} → Option A → Bool
is_some none = false
is_some (some a) = true

-- An unknown agent and a bad token are refused alike.
unfoldable pub authenticate : Option AgentRuntime → Text → Outcome DenyCode AgentRuntime
authenticate none token = err unauthenticated
authenticate (some runtime) token =
    if text_eq runtime.token token then ok runtime else err unauthenticated

pub may_sign : Capabilities → Bool → Bool → Outcome DenyCode (Unit {0})
unfolding pass
may_sign c wants_broadcast has_broadcaster = pass c.sign capability_denied >>= λ _.
    pass (not wants_broadcast || c.broadcast) capability_denied >>= λ _.
    pass (not wants_broadcast || has_broadcaster) broadcast_unavailable

unfoldable pub in_window : Config → (requested_at expires_at now_ms : ℕ) → Bool
in_window cfg requested_at expires_at now_ms =
    ltb now_ms expires_at
    && leb requested_at (now_ms + cfg.max_clock_skew_ms)
    && ltb requested_at expires_at
    && leb expires_at (requested_at + cfg.max_request_ttl_ms)

pub in_time : Config → SignRequest → ℕ → Bool
unfolding in_window
in_time cfg request now_ms = in_window cfg request.requested_at request.expires_at now_ms

unfoldable pub names_chain : (chain network chain_id : Text) → ChainContext → Bool
names_chain chain network chain_id own =
    text_eq chain own.chain && text_eq network own.network && text_eq chain_id own.chain_id

unfoldable pub same_chain : SignRequest → ChainContext → Bool
unfolding names_chain
same_chain request chain = names_chain request.chain request.network request.chain_id chain

-- The checks before the nonce is registered; they change no state.
unfoldable pub gates :
    Config → Dependencies → Daemon → SignRequest → ℕ → Outcome DenyCode AgentRuntime
unfolding authenticate pass may_sign in_time capabilities_of is_some
gates cfg deps daemon request now_ms =
    authenticate (lookup request.agent daemon.agents) request.token >>= λ runtime.
    pass runtime.enabled agent_disabled >>= λ _.
    may_sign (capabilities_of runtime.capabilities) request.broadcast (is_some deps.broadcast)
    >>= λ _. pass (in_time cfg request now_ms) request_expired >>= λ _. ok runtime

-- A request that passes the gates.
pub record IsAdmitted (cfg : Config) (deps : Dependencies) (daemon : Daemon) (request : SignRequest)
    (now_ms : ℕ) (runtime : AgentRuntime) : Type 0 where
  pub known : lookup request.agent daemon.agents ≡ some runtime
  pub authentic : runtime.token ≡ request.token
  pub enabled : runtime.enabled ≡ true
  pub may_sign : (capabilities_of runtime.capabilities).sign ≡ true
  pub may_broadcast :
      request.broadcast ≡ true
      → ((capabilities_of runtime.capabilities).broadcast ≡ true) × (is_some deps.broadcast ≡ true)
  pub live : now_ms < request.expires_at
  pub begun : request.requested_at ≤ now_ms + cfg.max_clock_skew_ms
  pub short : request.expires_at ≤ request.requested_at + cfg.max_request_ttl_ms

pub pass-true : (b : Bool) (code : DenyCode) → pass b code ≡ ok tt → b ≡ true
unfolding pass
pass-true true code h = refl
pass-true false code h = absurd (cc h)

pub authenticate-known :
    (found : Option AgentRuntime) (token : Text) (runtime : AgentRuntime)
    → authenticate found token ≡ ok runtime
    → (found ≡ some runtime) × (runtime.token ≡ token)
unfolding authenticate
authenticate-known none token runtime h = absurd (cc h)
authenticate-known (some r) token runtime h = elim (Bool-cases (text_eq r.token token)) [
  | inl same ↦
      let this : r ≡ runtime = cc (rw same at h) in
      (cc this, subst (λ x. x.token ≡ token) this (ground (arith, text_eq_iff r.token token)))
  | inr other ↦ absurd (cc (rw other at h))
]

pub gates-IsAdmitted :
    (cfg : Config) (deps : Dependencies) (daemon : Daemon) (request : SignRequest) (now_ms : ℕ)
    (runtime : AgentRuntime)
    → gates cfg deps daemon request now_ms ≡ ok runtime
    → IsAdmitted cfg deps daemon request now_ms runtime
unfolding gates may_sign in_time
gates-IsAdmitted cfg deps daemon request now_ms runtime h =
    let (r, found, h1) =
      >>=-eq-ok (authenticate (lookup request.agent daemon.agents) request.token) _ h in
    let (_, a2, h2) = >>=-eq-ok (pass r.enabled agent_disabled) _ h1 in
    let c = capabilities_of r.capabilities in
    let (_, a3, h3) = >>=-eq-ok (may_sign c request.broadcast (is_some deps.broadcast)) _ h2 in
    let (_, a4, h4) = >>=-eq-ok (pass (in_time cfg request now_ms) request_expired) _ h3 in
    let (_, b1, k1) = >>=-eq-ok (pass c.sign capability_denied) _ a3 in
    let (_, b2, k2) =
      >>=-eq-ok (pass (not request.broadcast || c.broadcast) capability_denied) _ k1 in
    let this : r ≡ runtime = cc h4 in
    let (known, authentic) = authenticate-known _ request.token r found in
    let timely = pass-true (in_time cfg request now_ms) _ a4 in
    let can = pass-true (not request.broadcast || c.broadcast) _ b2 in
    let has = pass-true (not request.broadcast || is_some deps.broadcast) _ k2 in
    subst (λ x. IsAdmitted cfg deps daemon request now_ms x) this
      (record {
        known = known;
        authentic = authentic;
        enabled = pass-true r.enabled _ a2;
        may_sign = pass-true c.sign _ b1;
        may_broadcast = λ e. (ground (arith, can, e), ground (arith, has, e));
        live = ground (arith, timely);
        begun = ground (arith, timely);
        short = ground (arith, timely);
      })
