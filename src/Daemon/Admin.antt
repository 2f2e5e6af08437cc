-- ===== src/Daemon/Admin.antt =====
-- src/daemon/server.ts: registration of agents and the administration commands. A command is what
-- JSON.parse gives, read by its `command` and `agent`.
use signbox.Prelude.{
  ℕ, ◌≡◌, refl, ◌∙◌, subst, inl, inr, Bool, true, false, Option, none, some, List, map,
}
use signbox.Prelude.Text.{Text, text_eq_refl, lookup, insert, lookup-insert}
use signbox.Prelude.Outcome.{Outcome, ok, err}
use signbox.Errors.{Thrown, validation}
use signbox.Daemon.Protocol.{parse_sign_request}
use signbox.Daemon.State.{AgentRuntime, SignRequest, Config, Dependencies, Readings, Daemon}
use signbox.Daemon.Handle.{handle_sign}
use signbox.Daemon.Handle.Signing.{handle_sign-IsSigned}

pub register_agent : Daemon → AgentRuntime → Outcome Thrown Daemon
register_agent daemon runtime = elim (lookup runtime.agent daemon.agents) [
  | some other ↦ err validation
  | none ↦ ok (record daemon { agents = insert runtime.agent runtime daemon.agents })
]

pub with_enabled : Bool → Daemon → Text → Option AgentRuntime → Daemon
with_enabled enabled daemon agent none = daemon
with_enabled enabled daemon agent (some runtime) = record daemon {
  agents = insert agent (record runtime { enabled = enabled }) daemon.agents;
}

pub disable_agent : Daemon → Text → Daemon
unfolding with_enabled
disable_agent daemon agent = with_enabled false daemon agent (lookup agent daemon.agents)

pub enable_agent : Daemon → Text → Daemon
unfolding with_enabled
enable_agent daemon agent = with_enabled true daemon agent (lookup agent daemon.agents)

pub data AdminCommand : Type 0 where
  status unsupported : AdminCommand
  disable enable : Text → AdminCommand

pub record AgentStatus : Type 0 where
  pub agent : Text
  pub enabled : Bool
  pub policy_version : ℕ

pub data AdminResponse : Type 0 where
  listed : List AgentStatus → AdminResponse
  done unknown_agent invalid_command unsupported_command : AdminResponse

pub status_of : Text × AgentRuntime → AgentStatus
status_of (key, runtime) = record {
  agent = runtime.agent;
  enabled = runtime.enabled;
  policy_version = runtime.policy_version;
}

pub switched : Bool → Daemon → Text → Option AgentRuntime → Daemon × AdminResponse
unfolding with_enabled
switched enabled daemon agent none = (daemon, unknown_agent)
switched enabled daemon agent (some runtime) =
    (with_enabled enabled daemon agent (some runtime), done)

-- `handleAdminCommand`; `none` is a line that is no JSON.
pub handle_admin_command : Daemon → Option AdminCommand → Daemon × AdminResponse
unfolding status_of switched
handle_admin_command daemon none = (daemon, invalid_command)
handle_admin_command daemon (some status) = (daemon, listed (map status_of daemon.agents))
handle_admin_command daemon (some unsupported) = (daemon, unsupported_command)
handle_admin_command daemon (some (disable agent)) =
    switched false daemon agent (lookup agent daemon.agents)
handle_admin_command daemon (some (enable agent)) =
    switched true daemon agent (lookup agent daemon.agents)

with_enabled-calls :
    (daemon : Daemon) (agent : Text) (found : Option AgentRuntime)
    → (with_enabled false daemon agent found).signed_calls ≡ daemon.signed_calls
unfolding with_enabled
with_enabled-calls daemon agent none = refl
with_enabled-calls daemon agent (some runtime) = refl

-- No enabled agent stands under a disabled name.
with_enabled-off :
    (daemon : Daemon) (agent : Text) (found : Option AgentRuntime) (runtime : AgentRuntime)
    → lookup agent daemon.agents ≡ found
    → lookup agent (with_enabled false daemon agent found).agents ≡ some runtime
    → runtime.enabled ≡ false
unfolding with_enabled
with_enabled-off daemon agent none runtime e h = absurd (cc (e, h))
with_enabled-off daemon agent (some r) runtime e h =
    let off : AgentRuntime = record r { enabled = false } in
    let here : off ≡ runtime =
      cc (rw (lookup-insert agent agent off daemon.agents, text_eq_refl agent) at h) in
    subst (λ x. x.enabled ≡ false) here refl

-- The kill-switch: once an agent is disabled, no line that is read as a request of that agent leads to
-- a call of the signer.
pub disable_agent-stops :
    (cfg : Config) (deps : Dependencies) (readings : Readings) (daemon : Daemon) (line : Text)
    (request : SignRequest)
    → parse_sign_request deps line ≡ some request
    → (handle_sign cfg deps readings (disable_agent daemon request.agent) line).0.signed_calls
      ≡ daemon.signed_calls
unfolding disable_agent
disable_agent-stops cfg deps readings daemon line request read =
    let off = with_enabled false daemon request.agent (lookup request.agent daemon.agents) in
    elim (handle_sign-IsSigned cfg deps readings off line) [
      | inl same ↦
          same ∙ with_enabled-calls daemon request.agent (lookup request.agent daemon.agents)
      | inr s ↦
          let this : s.request ≡ request = cc (s.read, read) in
          let known =
            subst (λ (x : SignRequest). lookup x.agent off.agents ≡ some s.runtime) this
              s.signable.admitted.known in
          absurd (
            cc (
              s.signable.admitted.enabled,
              with_enabled-off daemon request.agent (lookup request.agent daemon.agents) s.runtime
                  refl known,
            ))
    ]
