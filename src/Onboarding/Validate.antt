-- ===== src/Onboarding/Validate.antt =====
-- src/onboarding/validate.ts: an onboarding payload is checked against trusted anchors. A payload is
-- the fields of the object; every field may be anything. Each check is one of the source's, in its
-- order; a message is a constructor.
pub mod Built
pub mod Exclusive
pub mod Stages
pub mod Sound
use signbox.Prelude.{
  ℕ, suc, ◌≡◌, Bool, true, false, not, ◌&&◌, ◌||◌, Option, none, some, List, [], ◌∷◌, ◌++◌, leb,
  ◌==◌, if◌then◌else◌, length, every,
}
use signbox.Prelude.Text.{Text, lit, text_eq, includes, starts_with}
use signbox.Prelude.Outcome.{Outcome, ok, err, ◌>>=◌}
use signbox.Errors.{Thrown}
use signbox.Value.{
  JsNumber, nat, neg, other, non_finite, Value, num, str, arr, obj, Items, nil, cons, Fields,
  get_field, is_text, text_of, is_nat, is_below_one, is_empty_array, of_fields,
}
use signbox.Canonical.{canonicalize}
use signbox.Onboarding.Actions.{Authorization, OnboardAction, active_of}
use signbox.Onboarding.Shapes.{auth_equals, exclusive_single_key, is_hex64, read_actions}

pub record TrustedContext : Type 0 where
  pub chain_id : Text
  pub chain_name : Text
  pub signbox_contract : Text
  pub agent_account_exists : Bool

pub record OnboardDerived : Type 0 where
  pub agent : Text
  pub authority : Text
  pub permission : Text
  pub agent_public_key : Text
  pub owner_key : Text
  pub ram_bytes : JsNumber
  pub action_count : ℕ

-- The messages, and a throw of `canonicalize`.
pub data Problem : Type 0 where
  not_onboarding other_chain other_contract stale : Problem
  action_count malformed_action first_action last_action middle_action : Problem
  no_account newaccount_authorization active_authority owner_authority : Problem
  ram_parties ram_authorization ram_bytes : Problem
  no_permission policy_agent policy_authority policy_version policy_hash : Problem
  policy_json policy_authorization summary : Problem
  threw : Thrown → Problem

unfoldable pub require : Bool → Problem → Outcome Problem (Unit {0})
require true p = ok tt
require false p = err p

unfoldable pub present : {A : Type 0} → Option A → Problem → Outcome Problem A
present none p = err p
present (some a) p = ok a

unfoldable pub expected_empty_policy : Text → Text → Value
expected_empty_policy chain_name chain_id = obj (
    of_fields (
      (lit "schemaVersion", num (nat 1))
      ∷ (lit "default", str (lit "deny"))
      ∷ (
        lit "chain",
        obj (of_fields ((lit "name", str chain_name) ∷ (lit "chainId", str chain_id) ∷ [])),
      )
      ∷ (lit "rules", arr nil)
      ∷ []))

unfoldable pub caught : {A : Type 0} → Outcome Thrown A → Outcome Problem A
caught (ok a) = ok a
caught (err t) = err (threw t)

-- `Number.isInteger(n) && n >= 0`; a number that is written with a positive exponent is an integer.
unfoldable pub is_byte_count : JsNumber → Bool
is_byte_count (nat n) = true
is_byte_count (neg n) = false
is_byte_count (other s) = includes s (lit "e+") && not (starts_with s (lit "-"))
is_byte_count (non_finite s) = false

unfoldable pub number_of : Value → Option JsNumber
number_of (num n) = some n
number_of v = none

unfoldable pub count_items : Items → ℕ
count_items nil = 0
count_items (cons v vs) = suc (count_items vs)

-- The first action, the one between if there is one, and the last.
pub record Sequence : Type 0 where
  pub first : OnboardAction
  pub middle : Option OnboardAction
  pub last : OnboardAction

pub record Account : Type 0 where
  pub agent : Text
  pub authority : Text
  pub active_key : Text
  pub owner_key : Text

module _ (trusted : TrustedContext) where
  unfoldable pub check_anchors : Fields → Outcome Problem (Unit {0})
  unfolding require is_hex64
  check_anchors payload =
      require
        (is_nat 1 (get_field (lit "v") payload)
          && is_text (lit "onboard") (get_field (lit "kind") payload))
        not_onboarding
      >>= λ _.
          require
            (is_hex64 trusted.chain_id
              && is_text trusted.chain_id (get_field (lit "chainId") payload))
            other_chain
          >>= λ _.
              require (is_text trusted.signbox_contract (get_field (lit "signboxContract") payload))
                other_contract
              >>= λ _. require (not trusted.agent_account_exists) stale

  unfoldable pub actions_of : Value → Outcome Problem (List OnboardAction)
  unfolding require present
  actions_of (arr vs) =
      require (leb 2 (count_items vs) && leb (count_items vs) 3) action_count >>= λ _.
      present (read_actions vs) malformed_action
  actions_of v = err action_count

  -- `newaccount`, some `buyrambytes`, `createpolicy`, and nothing else.
  unfoldable pub sequence : List OnboardAction → Outcome Problem Sequence
  sequence (first ∷ last ∷ []) = ok (record { first = first; middle = none; last = last })
  sequence (first ∷ middle ∷ last ∷ []) =
      ok (record { first = first; middle = some middle; last = last })
  sequence actions = err action_count

  unfoldable pub is_ram_action : Option OnboardAction → Bool
  is_ram_action none = true
  is_ram_action (some a) = text_eq (a.account ++ (lit "::" ++ a.name)) (lit "eosio::buyrambytes")

  unfoldable pub check_sequence : Sequence → Outcome Problem (Unit {0})
  unfolding require is_ram_action
  check_sequence s =
      require (text_eq (s.first.account ++ (lit "::" ++ s.first.name)) (lit "eosio::newaccount"))
        first_action
      >>= λ _.
          require
            (text_eq s.last.account trusted.signbox_contract
              && text_eq s.last.name (lit "createpolicy"))
            last_action
          >>= λ _. require (is_ram_action s.middle) middle_action

  unfoldable pub check_account : OnboardAction → Outcome Problem Account
  unfolding present require text_of auth_equals exclusive_single_key
  check_account first =
      present (text_of (get_field (lit "name") first.payload)) no_account >>= λ agent.
      present (text_of (get_field (lit "creator") first.payload)) no_account >>= λ authority.
      require (auth_equals first.authorization (active_of authority ∷ [])) newaccount_authorization
      >>= λ _.
          present (exclusive_single_key (get_field (lit "active") first.payload)) active_authority
          >>= λ active.
              present (exclusive_single_key (get_field (lit "owner") first.payload)) owner_authority
              >>= λ owner. ok (record {
                agent = agent;
                authority = authority;
                active_key = active;
                owner_key = owner;
              })

  unfoldable pub check_ram : Account → Option OnboardAction → Outcome Problem JsNumber
  unfolding present require number_of auth_equals is_byte_count
  check_ram a none = ok (nat 0)
  check_ram a (some middle) =
      require
        (is_text a.authority (get_field (lit "payer") middle.payload)
          && is_text a.agent (get_field (lit "receiver") middle.payload))
        ram_parties
      >>= λ _.
          require (auth_equals middle.authorization (active_of a.authority ∷ [])) ram_authorization
          >>= λ _.
              present (number_of (get_field (lit "bytes") middle.payload)) ram_bytes >>= λ bytes.
              require (is_byte_count bytes) ram_bytes >>= λ _. ok bytes

  unfoldable pub is_hash : Value → Bool
  unfolding is_hex64
  is_hash (str s) = is_hex64 s
  is_hash v = false

  -- The permission that the policy names.
  unfoldable pub check_policy : Account → OnboardAction → Outcome Problem Text
  unfolding present require text_of is_hash caught expected_empty_policy auth_equals
  check_policy a last =
      let cp = last.payload in
      present (text_of (get_field (lit "agentperm") cp)) no_permission >>= λ permission.
      require (is_text a.agent (get_field (lit "agent") cp)) policy_agent >>= λ _.
      require (is_text a.authority (get_field (lit "authority") cp)) policy_authority >>= λ _.
      require (is_nat 1 (get_field (lit "version") cp)) policy_version >>= λ _.
      require (is_hash (get_field (lit "policyhash") cp)) policy_hash >>= λ _.
      caught (canonicalize (expected_empty_policy trusted.chain_name trusted.chain_id))
      >>= λ expected.
          require (is_text expected (get_field (lit "policyjson") cp)) policy_json >>= λ _.
          require
            (auth_equals last.authorization
              (active_of a.authority ∷ (record { actor = a.agent; permission = lit "owner" }) ∷ []))
            policy_authorization
          >>= λ _. ok permission

  unfoldable pub summary_matches : Account → Text → Value → Bool
  summary_matches a permission (obj s) =
      is_text a.agent (get_field (lit "agent") s)
      && is_text a.authority (get_field (lit "authority") s)
      && is_text permission (get_field (lit "permission") s)
      && is_text a.active_key (get_field (lit "publicKey") s)
  summary_matches a permission v = false

  -- The checks of the actions and of the summary.
  unfoldable pub after_actions : Value → List OnboardAction → Outcome Problem OnboardDerived
  unfolding require
  after_actions claimed actions = sequence actions >>= λ s. check_sequence s >>= λ _.
      check_account s.first >>= λ a. check_ram a s.middle >>= λ bytes.
      check_policy a s.last >>= λ permission.
      require (summary_matches a permission claimed) summary >>= λ _. ok (record {
        agent = a.agent;
        authority = a.authority;
        permission = permission;
        agent_public_key = a.active_key;
        owner_key = a.owner_key;
        ram_bytes = bytes;
        action_count = length actions;
      })

  unfoldable pub validate_onboarding_payload : Fields → Outcome Problem OnboardDerived
  validate_onboarding_payload payload = check_anchors payload >>= λ _.
      actions_of (get_field (lit "actions") payload) >>= λ actions.
      after_actions (get_field (lit "summary") payload) actions
