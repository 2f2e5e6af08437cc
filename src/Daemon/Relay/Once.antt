-- ===== src/Daemon/Relay/Once.antt =====
-- No nonce serves twice, whatever lines of whatever agents come in between.
use signbox.Prelude.{ℕ, ◌<◌, ◌≡◌, refl, sym, ◌∙◌, subst, inl, inr, Option, some, List, [], ◌∷◌, All}
use signbox.Prelude.Text.{Text, lookup}
use signbox.NonceCache.{NonceCache, entries_of}
use signbox.NonceCache.Replay.{register-keeps, register-fresh, register-replayed}
use signbox.Daemon.State.{AgentRuntime, Config, Dependencies, Readings, Daemon}
use signbox.Daemon.Relay.{handle_request}
use signbox.Daemon.Relay.Nonces.{handle_request-Step, handle_request-agents}
use signbox.Daemon.Relay.Claims.{Claim, claim_of, IsIdle, Spends, Step, unclaimed, claimed}

-- A line, with what the daemon reads from outside while it handles it.
pub record Turn : Type 0 where
  pub readings : Readings
  pub line : Text

-- The agent's map holds the nonce until the instant.
abbrev Holds : NonceCache → Text → Text → ℕ → Type 0
Holds nonces agent nonce expires_at = lookup nonce (entries_of nonces agent) ≡ some expires_at

module _ (cfg : Config) (deps : Dependencies) where
  -- The lines are handled one after the other.
  unfoldable pub serve : Daemon → List Turn → Daemon
  serve daemon [] = daemon
  serve daemon (t ∷ turns) = serve (handle_request cfg deps t.readings daemon t.line).0 turns

  Step-Holds :
      (now_ms : ℕ) (daemon after : Daemon) (agent nonce : Text) (expires_at : ℕ)
      (claim : Option Claim)
      → now_ms < expires_at
      → Holds daemon.nonces agent nonce expires_at
      → Step now_ms daemon after claim
      → Holds after.nonces agent nonce expires_at
  Step-Holds now_ms daemon after agent nonce expires_at claim before held (unclaimed same idle) =
      subst (λ c. Holds c agent nonce expires_at) (sym same) held
  Step-Holds now_ms daemon after agent nonce expires_at claim before held (claimed c e s) =
      subst (λ c. Holds c agent nonce expires_at) (sym s.nonces)
        (register-keeps daemon.nonces agent nonce expires_at
          (record {
            agent = s.runtime.agent;
            nonce = c.nonce;
            expires_at = c.expires_at;
            now = now_ms;
          })
          before held)

  serve-Holds :
      (daemon : Daemon) (turns : List Turn) (agent nonce : Text) (expires_at : ℕ)
      → All (λ (t : Turn). t.readings.now_ms < expires_at) turns
      → Holds daemon.nonces agent nonce expires_at
      → Holds (serve daemon turns).nonces agent nonce expires_at
  unfolding serve
  serve-Holds daemon [] agent nonce expires_at before held = held
  serve-Holds daemon (t ∷ turns) agent nonce expires_at (b, before) held =
      serve-Holds (handle_request cfg deps t.readings daemon t.line).0 turns agent nonce expires_at
        before
        (Step-Holds t.readings.now_ms daemon _ agent nonce expires_at _ b held
          (handle_request-Step cfg deps t.readings daemon t.line))

  serve-agents : (daemon : Daemon) (turns : List Turn) → (serve daemon turns).agents ≡ daemon.agents
  unfolding serve
  serve-agents daemon [] = refl
  serve-agents daemon (t ∷ turns) =
      serve-agents (handle_request cfg deps t.readings daemon t.line).0 turns
      ∙ handle_request-agents cfg deps t.readings daemon t.line

  -- A claim that acted is held afterwards, by the agent under its name.
  Step-acted :
      (now_ms : ℕ) (daemon after : Daemon) (claim : Claim)
      → (IsIdle daemon after → ⊥)
      → Step now_ms daemon after (some claim)
      → (runtime : AgentRuntime) × (lookup claim.agent daemon.agents ≡ some runtime)
        × Holds after.nonces runtime.agent claim.nonce claim.expires_at
  Step-acted now_ms daemon after claim acted (unclaimed same idle) = absurd (acted idle)
  Step-acted now_ms daemon after claim acted (claimed c e s) =
      let this : c ≡ claim = cc (e) in
      let spends = subst (λ x. Spends now_ms daemon after x) this s in
      elim spends.acts [
        | inl idle ↦ absurd (acted idle)
        | inr first ↦ (
          spends.runtime,
          spends.known,
          subst (λ x. Holds x spends.runtime.agent claim.nonce claim.expires_at) (sym spends.nonces)
              (register-fresh daemon.nonces spends.runtime.agent claim.nonce claim.expires_at now_ms
                first),
        )
      ]

  Step-IsIdle :
      (now_ms : ℕ) (daemon after : Daemon) (claim : Claim) (runtime : AgentRuntime) (expires_at : ℕ)
      → lookup claim.agent daemon.agents ≡ some runtime
      → Holds daemon.nonces runtime.agent claim.nonce expires_at
      → now_ms < expires_at
      → Step now_ms daemon after (some claim)
      → IsIdle daemon after
  Step-IsIdle now_ms daemon after claim runtime expires_at known held live (unclaimed same idle) =
      idle
  Step-IsIdle now_ms daemon after claim runtime expires_at known held live (claimed c e s) =
      let this : c ≡ claim = cc (e) in
      let spends = subst (λ x. Spends now_ms daemon after x) this s in
      let own : runtime ≡ spends.runtime = cc (known, spends.known) in
      elim spends.acts [
        | inl idle ↦ idle
        | inr first ↦
            let replay =
              register-replayed daemon.nonces spends.runtime.agent claim.nonce expires_at
                claim.expires_at now_ms
                (subst (λ (r : AgentRuntime). Holds daemon.nonces r.agent claim.nonce expires_at)
                  own held)
                live in
            absurd (cc (first, replay))
      ]

-- A nonce serves once: if a line of an agent reached the signer or the broadcaster, then no line that
-- claims the same nonce for the same agent reaches either of them until the nonce expires, whether they
-- ask to sign or to broadcast, and whatever lines of whatever agents are handled in between.
pub handle_request_once :
    (cfg : Config) (deps : Dependencies) (first later : Readings) (daemon : Daemon)
    (line again : Text) (claim replay : Claim) (turns : List Turn)
    → claim_of deps line ≡ some claim
    → claim_of deps again ≡ some replay
    → replay.agent ≡ claim.agent
    → replay.nonce ≡ claim.nonce
    → (IsIdle daemon (handle_request cfg deps first daemon line).0 → ⊥)
    → All (λ (t : Turn). t.readings.now_ms < claim.expires_at) turns
    → later.now_ms < claim.expires_at
    → IsIdle
        (serve cfg deps (handle_request cfg deps first daemon line).0 turns)
        (handle_request cfg deps later
          (serve cfg deps (handle_request cfg deps first daemon line).0 turns)
          again).0
handle_request_once cfg deps first later daemon line again claim replay turns claims replays agent
      nonce acted before live =
    let after = (handle_request cfg deps first daemon line).0 in
    let d = serve cfg deps after turns in
    let (runtime, known, held) = Step-acted cfg deps first.now_ms daemon after claim acted (
      subst (λ c. Step first.now_ms daemon after c) claims
        (handle_request-Step cfg deps first daemon line)) in
    let same =
      serve-agents cfg deps after turns ∙ handle_request-agents cfg deps first daemon line in
    let still =
      serve-Holds cfg deps after turns runtime.agent claim.nonce claim.expires_at before held in
    Step-IsIdle cfg deps later.now_ms d (handle_request cfg deps later d again).0 replay runtime
      claim.expires_at (cc (known, same, agent))
      (subst (λ n. Holds d.nonces runtime.agent n claim.expires_at) (sym nonce) still) live
      (subst (λ c. Step later.now_ms d (handle_request cfg deps later d again).0 c) replays
        (handle_request-Step cfg deps later d again))
