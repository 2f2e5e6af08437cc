-- ===== src/Contract.antt =====
-- contract/assembly: the on-chain policy contract. A `Name` is held as its text. An action that
-- fails a check aborts its transaction. The accounts, the authorizations and the time of a
-- transaction, and proton-tsc's SHA-256 of a string's bytes, are parameters; a `Checksum256` is the
-- list of its bytes, which `bytesCmp` compares for equality.
pub mod Rows
pub mod Authority
pub mod History
pub mod Tests
use signbox.Prelude.{
  ℕ, zero, suc, ◌+◌, ◌-◌, ◌*◌, ◌/◌, ◌%◌, ◌^◌, ◌≤◌, ◌<◌, max, String, ◌≡◌, refl, sym, ap, ◌∙◌, subst,
  ◌≡⟨◌⟩◌, ◌∎, fun_ext, ◌≢◌, ◌↔◌, ◌⊎◌, inl, inr, Bool, true, false, not, ◌&&◌, ◌||◌, Option, none,
  some, List, [], ◌∷◌, ◌++◌, map, append-nil, append_assoc, arith, ltb, leb, ◌==◌, if◌then◌else◌,
  ==_iff, leb_iff, &&_iff, Bool-cases, Option-cases, length, take, drop, replicate, length-append,
  length-replicate, take-append-drop, length-drop, keep, any, every, All, Any, All-append, All-map,
  every_iff, any_iff, any-false,
}
use signbox.Prelude.Text.{
  Text, lit, text_eq, text_eq_iff, text_eq_refl, text_eq_comm, starts_with, includes, split,
  text_mem, lookup, insert, lookup-insert, remove, lookup-remove,
}
use signbox.Prelude.Outcome.{Outcome, ok, err, ◌>>=◌, >>=-eq-ok, Outcome-cases, find_ok}

-- `PolicyRow`.
pub record PolicyRow : Type 0 where
  pub agent : Text
  pub authority : Text
  pub agentperm : Text
  pub version : ℕ
  pub policyhash : List ℕ
  pub policyjson : Text
  pub enabled : Bool
  pub createdat : ℕ
  pub updatedat : ℕ

-- The table `policies`, by agent, each row with the account that pays for its memory.
abbrev pub Policies : Type 0
Policies = List (Text × (PolicyRow × Text))

pub record Host : Type 0 where
  pub is_account : Text → Bool
  pub has_auth : Text → Bool
  pub now_ms : ℕ

abbrev pub max_policy_bytes : ℕ
max_policy_bytes = 16_384

-- The checks.
pub data Failure : Type 0 where
  no_agent_account missing_auth no_authority_account already_exists not_version_one no_policy :
      Failure
  not_increasing empty_json json_too_large hash_differs no_new_account same_authority : Failure

pub check : Bool → Failure → Outcome Failure (Unit {0})
check true f = ok tt
check false f = err f

pub is_none : {A : Type 0} → Option A → Bool
is_none none = true
is_none (some a) = false

pub require_row : Option (PolicyRow × Text) → Outcome Failure PolicyRow
require_row none = err no_policy
require_row (some (row, payer)) = ok row

pub put : Policies → PolicyRow → Text → Policies
put policies row payer = insert row.agent (row, payer) policies

module _ (sha256 : Text → List ℕ) (host : Host) where
  pub require_auth : Text → Outcome Failure (Unit {0})
  unfolding check
  require_auth name = check (host.has_auth name) missing_auth

  pub assert_policy_integrity : Text → List ℕ → Outcome Failure (Unit {0})
  unfolding check
  assert_policy_integrity policyjson policyhash =
      check (ltb 0 (length policyjson)) empty_json >>= λ _.
      check (leb (length policyjson) max_policy_bytes) json_too_large >>= λ _.
      check (text_eq (sha256 policyjson) policyhash) hash_differs

  pub createpolicy : Policies → Text → Text → Text → ℕ → List ℕ → Text → Outcome Failure Policies
  unfolding check require_auth assert_policy_integrity is_none put
  createpolicy policies agent authority agentperm version policyhash policyjson =
      check (host.is_account agent) no_agent_account >>= λ _. require_auth authority >>= λ _.
      require_auth agent >>= λ _. check (host.is_account authority) no_authority_account >>= λ _.
      check (is_none (lookup agent policies)) already_exists >>= λ _.
      check (version == 1) not_version_one >>= λ _.
      assert_policy_integrity policyjson policyhash >>= λ _. ok (
        put policies
          (record {
            agent = agent;
            authority = authority;
            agentperm = agentperm;
            version = version;
            policyhash = policyhash;
            policyjson = policyjson;
            enabled = true;
            createdat = host.now_ms;
            updatedat = host.now_ms;
          })
          authority)

  -- The row of an agent whose authority signs.
  pub owned_row : Policies → Text → Outcome Failure PolicyRow
  unfolding require_row require_auth
  owned_row policies agent =
      require_row (lookup agent policies) >>= λ row. require_auth row.authority >>= λ _. ok row

  pub setpolicy : Policies → Text → ℕ → List ℕ → Text → Outcome Failure Policies
  unfolding owned_row check assert_policy_integrity put
  setpolicy policies agent version policyhash policyjson = owned_row policies agent >>= λ row.
      check (ltb row.version version) not_increasing >>= λ _.
      assert_policy_integrity policyjson policyhash >>= λ _. ok (
        put policies
          (record row {
            version = version;
            policyhash = policyhash;
            policyjson = policyjson;
            updatedat = host.now_ms;
          })
          row.authority)

  pub set_enabled : Bool → Policies → Text → Outcome Failure Policies
  unfolding owned_row put
  set_enabled enabled policies agent = owned_row policies agent >>= λ row.
      ok (put policies (record row { enabled = enabled; updatedat = host.now_ms }) row.authority)

  pub disable : Policies → Text → Outcome Failure Policies
  unfolding set_enabled
  disable policies agent = set_enabled false policies agent

  pub enable : Policies → Text → Outcome Failure Policies
  unfolding set_enabled
  enable policies agent = set_enabled true policies agent

  pub setperm : Policies → Text → Text → Outcome Failure Policies
  unfolding owned_row put
  setperm policies agent agentperm = owned_row policies agent >>= λ row.
      ok
        (put policies (record row { agentperm = agentperm; updatedat = host.now_ms }) row.authority)

  pub setauthority : Policies → Text → Text → Outcome Failure Policies
  unfolding owned_row require_auth check put
  setauthority policies agent newauthority = owned_row policies agent >>= λ row.
      require_auth newauthority >>= λ _.
      check (host.is_account newauthority) no_new_account >>= λ _.
      check (not (text_eq newauthority row.authority)) same_authority >>= λ _.
      ok (
        put policies (record row { authority = newauthority; updatedat = host.now_ms })
          newauthority)

-- The contract's actions with their arguments.
pub data Action : Type 0 where
  creating : Text → Text → Text → ℕ → List ℕ → Text → Action
  setting_policy : Text → ℕ → List ℕ → Text → Action
  disabling enabling : Text → Action
  setting_perm setting_authority : Text → Text → Action

pub dispatch : (Text → List ℕ) → Host → Policies → Action → Outcome Failure Policies
unfolding createpolicy setpolicy disable enable setperm setauthority
dispatch sha256 host policies (creating agent authority agentperm version policyhash policyjson) =
    createpolicy sha256 host policies agent authority agentperm version policyhash policyjson
dispatch sha256 host policies (setting_policy agent version policyhash policyjson) =
    setpolicy sha256 host policies agent version policyhash policyjson
dispatch sha256 host policies (disabling agent) = disable sha256 host policies agent
dispatch sha256 host policies (enabling agent) = enable sha256 host policies agent
dispatch sha256 host policies (setting_perm agent agentperm) =
    setperm sha256 host policies agent agentperm
dispatch sha256 host policies (setting_authority agent newauthority) =
    setauthority sha256 host policies agent newauthority

-- A transaction: a failed action leaves the table as it was.
pub kept : Policies → Outcome Failure Policies → Policies
kept before (ok after) = after
kept before (err f) = before

pub transact : (Text → List ℕ) → Policies → Host × Action → Policies
unfolding dispatch kept
transact sha256 policies (host, action) = kept policies (dispatch sha256 host policies action)

pub run : (Text → List ℕ) → Policies → List (Host × Action) → Policies
unfolding transact
run sha256 policies [] = policies
run sha256 policies (t ∷ ts) = run sha256 (transact sha256 policies t) ts
