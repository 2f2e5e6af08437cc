-- ===== src/Onboarding/Landed.antt =====
-- src/chains/xpr/onboarding.ts: `verifyLanded`, on what the chain answers to each of its reads.
pub mod Checks
pub mod Verified
use signbox.Prelude.{◌≡◌, Bool, true, false, Option, none, some, if◌then◌else◌}
use signbox.Prelude.Text.{Text, lit, text_eq}
use signbox.Prelude.Outcome.{Outcome, ok, err, ◌>>=◌}
use signbox.Errors.{Thrown, internal}
use signbox.Value.{
  Value, undefined, null, str, arr, obj, Items, nil, cons, get_field, read_member, is_text, to_text,
}
use signbox.Policy.Onchain.{to_lower}
use signbox.Xpr.Keyauth.{find_named, find_permission, authorizes_exclusively}

pub record OnboardingInput : Type 0 where
  pub authority : Text
  pub agent : Text
  pub permission : Text

-- The answers to get_account of the agent, twice, and of the authority, and to get_table_rows.
pub record Answers : Type 0 where
  pub agent_exists : Outcome Thrown Value
  pub agent_account : Outcome Thrown Value
  pub authority_account : Outcome Thrown Value
  pub rows : Outcome Thrown Value

-- The reasons, in the order of the checks.
pub data Unverified : Type 0 where
  no_agent unreadable_agent no_permission shared_permission : Unverified
  no_authority_key shared_owner no_row : Unverified
  other_authority other_permission other_hash : Unverified

-- `v ?? []`.
pub or_empty : Value → Value
or_empty undefined = arr nil
or_empty null = arr nil
or_empty v = v

-- `v?.[k]`.
pub optional_member : Text → Value → Outcome Thrown Value
optional_member k undefined = ok undefined
optional_member k null = ok undefined
optional_member k v = read_member k v

-- `v?.[0]`.
pub first_item : Value → Value
first_item (arr (cons v vs)) = v
first_item (obj fs) = get_field (lit "0") fs
first_item v = undefined

-- `resolveActiveKey`: a key that is not there throws.
pub active_key : Value → Outcome Thrown Value
unfolding or_empty optional_member first_item
active_key info = read_member (lit "permissions") info >>= λ permissions.
    find_permission (lit "active") (or_empty permissions) >>= λ active.
    optional_member (lit "required_auth") active >>= λ auth.
    optional_member (lit "keys") auth >>= λ keys.
    optional_member (lit "key") (first_item keys) >>= λ key. elim key [
      | undefined ↦ err internal
      | v ↦ ok v
    ]

-- `readPolicyRow`: whatever throws gives null.
pub row_of : Text → Value → Outcome Thrown Value
unfolding first_item
row_of agent answer = read_member (lit "rows") answer >>= λ rows.
    optional_member (lit "agent") (first_item rows) >>= λ own.
    ok (if is_text agent own then first_item rows else null)

pub or_null : Outcome Thrown Value → Value
or_null (err t) = null
or_null (ok v) = v

pub policy_row : Text → Outcome Thrown Value → Value
unfolding row_of or_null
policy_row agent (err t) = null
policy_row agent (ok answer) = or_null (row_of agent answer)

module _ (canonical_key : Text → Option Text) where
  -- Each result is a throw that leaves the function, a reason, or none.
  abbrev pub Verdict : Type 0
  Verdict = Outcome Thrown (Option Unverified)

  pub check_row : OnboardingInput → Text → Value → Verdict
  check_row input hash (obj row) =
      if is_text input.authority (get_field (lit "authority") row)
      then if is_text input.permission (get_field (lit "agentperm") row)
        then if text_eq (to_lower (to_text (get_field (lit "policyhash") row))) hash
          then ok none
          else ok (some other_hash)
        else ok (some other_permission)
      else ok (some other_authority)
  check_row input hash v = ok (some no_row)

  -- The owner, against the key of the authority.
  pub check_owner : OnboardingInput → Text → Value → Value → Outcome Thrown Value → Verdict
  unfolding check_row optional_member
  check_owner input hash permissions row (err t) = ok (some no_authority_key)
  check_owner input hash permissions row (ok key) =
      find_permission (lit "owner") permissions >>= λ owner.
      optional_member (lit "required_auth") owner >>= λ auth.
      authorizes_exclusively canonical_key auth key >>= λ exclusive.
      if exclusive then check_row input hash row else ok (some shared_owner)

  pub check_permission :
      OnboardingInput → Text → Text → Value → Value → Outcome Thrown Value → Value → Verdict
  unfolding check_owner
  check_permission input public_key hash permissions row authority undefined =
      ok (some no_permission)
  check_permission input public_key hash permissions row authority perm =
      read_member (lit "required_auth") perm >>= λ auth.
      authorizes_exclusively canonical_key auth (str public_key) >>= λ exclusive.
      if exclusive
      then check_owner input hash permissions row authority
      else ok (some shared_permission)

  pub check_account : OnboardingInput → Text → Text → Answers → Value → Verdict
  unfolding check_permission or_empty active_key policy_row
  check_account input public_key hash answers account =
      read_member (lit "permissions") account >>= λ permissions.
      find_permission input.permission (or_empty permissions) >>= λ perm.
      check_permission input public_key hash (or_empty permissions)
        (policy_row input.agent answers.rows) (answers.authority_account >>= active_key) perm

  pub verify_read :
      OnboardingInput → Text → Text → Answers → (found account : Outcome Thrown Value) → Verdict
  unfolding check_account
  verify_read input public_key hash answers (err t) account = ok (some no_agent)
  verify_read input public_key hash answers (ok v) (err t) = ok (some unreadable_agent)
  verify_read input public_key hash answers (ok v) (ok account) =
      check_account input public_key hash answers account

  unfoldable pub verify_landed : OnboardingInput → Text → Text → Answers → Verdict
  unfolding verify_read
  verify_landed input public_key hash answers =
      verify_read input public_key hash answers answers.agent_exists answers.agent_account
