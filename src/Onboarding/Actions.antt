-- ===== src/Onboarding/Actions.antt =====
-- src/chains/xpr/onboardingActions.ts: the actions of an onboarding, with their JSON and the payload
-- that `buildRequest` of src/chains/xpr/onboarding.ts puts in the companion link; `emptyPolicy` of
-- src/core/policy/schema.ts.
use signbox.Prelude.{ℕ, zero, suc, List, [], ◌∷◌, map}
use signbox.Prelude.Text.{Text, lit}
use signbox.Value.{nat, Value, num, str, arr, obj, Items, nil, cons, Fields, of_fields}

pub record Authorization : Type 0 where
  pub actor : Text
  pub permission : Text

-- `payload` is the source's `data`.
pub record OnboardAction : Type 0 where
  pub account : Text
  pub name : Text
  pub authorization : List Authorization
  pub payload : Fields

pub record BuildInput : Type 0 where
  pub authority : Text
  pub agent : Text
  pub permission : Text
  pub agent_public_key : Text
  pub authority_public_key : Text
  pub signbox_contract : Text
  pub empty_policy_json : Text
  pub empty_policy_hash : Text
  pub ram_bytes : ℕ

abbrev pub of_items : List Value → Items
of_items [] = nil
of_items (v ∷ vs) = cons v (of_items vs)

-- An authority that a single key satisfies.
unfoldable pub key_authority : Text → Value
key_authority key = obj (
    of_fields (
      (lit "threshold", num (nat 1))
      ∷ (
        lit "keys",
        arr (cons (obj (of_fields ((lit "key", str key) ∷ (lit "weight", num (nat 1)) ∷ []))) nil),
      )
      ∷ (lit "accounts", arr nil)
      ∷ (lit "waits", arr nil)
      ∷ []))

abbrev pub active_of : Text → Authorization
active_of actor = record { actor = actor; permission = lit "active" }

unfoldable pub new_account : BuildInput → OnboardAction
unfolding key_authority
new_account i = record {
  account = lit "eosio";
  name = lit "newaccount";
  authorization = active_of i.authority ∷ [];
  payload = of_fields (
      (lit "creator", str i.authority)
      ∷ (lit "name", str i.agent)
      ∷ (lit "owner", key_authority i.authority_public_key)
      ∷ (lit "active", key_authority i.agent_public_key)
      ∷ []);
}

unfoldable pub buy_ram : BuildInput → ℕ → OnboardAction
buy_ram i bytes = record {
  account = lit "eosio";
  name = lit "buyrambytes";
  authorization = active_of i.authority ∷ [];
  payload = of_fields (
      (lit "payer", str i.authority)
      ∷ (lit "receiver", str i.agent)
      ∷ (lit "bytes", num (nat bytes))
      ∷ []);
}

unfoldable pub create_policy : BuildInput → OnboardAction
create_policy i = record {
  account = i.signbox_contract;
  name = lit "createpolicy";
  authorization =
      active_of i.authority ∷ (record { actor = i.agent; permission = lit "owner" }) ∷ [];
  payload = of_fields (
      (lit "agent", str i.agent)
      ∷ (lit "authority", str i.authority)
      ∷ (lit "agentperm", str i.permission)
      ∷ (lit "version", num (nat 1))
      ∷ (lit "policyhash", str i.empty_policy_hash)
      ∷ (lit "policyjson", str i.empty_policy_json)
      ∷ []);
}

-- No RAM is bought where the count is left out or 0.
unfoldable pub with_ram : BuildInput → ℕ → List OnboardAction → List OnboardAction
unfolding buy_ram
with_ram i zero rest = rest
with_ram i (suc n) rest = buy_ram i (suc n) ∷ rest

unfoldable pub build_onboarding_actions : BuildInput → List OnboardAction
unfolding new_account with_ram create_policy
build_onboarding_actions i = new_account i ∷ with_ram i i.ram_bytes (create_policy i ∷ [])

unfoldable pub authorization_value : Authorization → Value
authorization_value a =
    obj (of_fields ((lit "actor", str a.actor) ∷ (lit "permission", str a.permission) ∷ []))

unfoldable pub action_value : OnboardAction → Value
unfolding authorization_value
action_value a = obj (
    of_fields (
      (lit "account", str a.account)
      ∷ (lit "name", str a.name)
      ∷ (lit "authorization", arr (of_items (map authorization_value a.authorization)))
      ∷ (lit "data", obj a.payload)
      ∷ []))

unfoldable pub summary_value : BuildInput → Value
summary_value i = obj (
    of_fields (
      (lit "agent", str i.agent)
      ∷ (lit "authority", str i.authority)
      ∷ (lit "permission", str i.permission)
      ∷ (lit "publicKey", str i.agent_public_key)
      ∷ []))

unfoldable pub payload_of : BuildInput → (network chain_id : Text) → List Text → Fields
unfolding build_onboarding_actions action_value summary_value
payload_of i network chain_id endpoints = of_fields (
    (lit "v", num (nat 1))
    ∷ (lit "kind", str (lit "onboard"))
    ∷ (lit "network", str network)
    ∷ (lit "chainId", str chain_id)
    ∷ (lit "endpoints", arr (of_items (map str endpoints)))
    ∷ (lit "signboxContract", str i.signbox_contract)
    ∷ (lit "summary", summary_value i)
    ∷ (lit "actions", arr (of_items (map action_value (build_onboarding_actions i))))
    ∷ [])

-- `emptyPolicy`, as the value that it is.
unfoldable pub empty_policy : Text → Text → Value
empty_policy chain_name chain_id = obj (
    of_fields (
      (lit "schemaVersion", num (nat 1))
      ∷ (lit "default", str (lit "deny"))
      ∷ (
        lit "chain",
        obj (of_fields ((lit "name", str chain_name) ∷ (lit "chainId", str chain_id) ∷ [])),
      )
      ∷ (lit "rules", arr nil)
      ∷ []))
