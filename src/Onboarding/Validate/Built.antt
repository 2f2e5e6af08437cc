-- ===== src/Onboarding/Validate/Built.antt =====
-- The payload that the daemon's side builds is one that the check passes.
use signbox.Prelude.{
  ℕ, zero, suc, ◌≡◌, refl, true, false, Option, none, some, List, [], ◌∷◌, map, length,
}
use signbox.Prelude.Text.{Text, lit, text_eq, text_eq_refl}
use signbox.Prelude.Outcome.{ok}
use signbox.Value.{nat, get_field, is_text, is_nat, is_below_one, arr}
use signbox.Canonical.{canonicalize}
use signbox.Onboarding.Actions.{
  BuildInput, Authorization, OnboardAction, new_account, buy_ram, create_policy, payload_of,
  empty_policy, build_onboarding_actions, with_ram, of_items, action_value, authorization_value,
  summary_value,
}
use signbox.Onboarding.Validate.{
  TrustedContext, OnboardDerived, check_anchors, actions_of, sequence, check_sequence,
  check_account, is_ram_action, check_ram, check_policy, summary_matches, after_actions,
  validate_onboarding_payload, Account, count_items,
}
use signbox.Onboarding.Shapes.{is_hex64, read_action, read_actions, read_authorizations}

-- The anchors of a daemon that onboards an agent on its own chain and contract.
abbrev pub anchors_for : BuildInput → (chain_name chain_id : Text) → TrustedContext
anchors_for i chain_name chain_id = record {
  chain_id = chain_id;
  chain_name = chain_name;
  signbox_contract = i.signbox_contract;
  agent_account_exists = false;
}

abbrev derived_with : BuildInput → ℕ → OnboardDerived
derived_with i n = record {
  agent = i.agent;
  authority = i.authority;
  permission = i.permission;
  agent_public_key = i.agent_public_key;
  owner_key = i.authority_public_key;
  ram_bytes = nat n;
  action_count = length (new_account i ∷ with_ram i n (create_policy i ∷ []));
}

abbrev pub derived_of : BuildInput → OnboardDerived
derived_of i = derived_with i i.ram_bytes

abbrev account_for : BuildInput → Account
account_for i = record {
  agent = i.agent;
  authority = i.authority;
  active_key = i.agent_public_key;
  owner_key = i.authority_public_key;
}

read_authorizations-map :
    (auths : List Authorization)
    → read_authorizations (of_items (map authorization_value auths)) ≡ some auths
unfolding read_authorizations authorization_value get_field text_eq
read_authorizations-map [] = refl
read_authorizations-map (a ∷ auths) = rw (read_authorizations-map auths) refl

read_action-action_value : (a : OnboardAction) → read_action (action_value a) ≡ some a
unfolding read_action action_value get_field text_eq
read_action-action_value a = rw (read_authorizations-map a.authorization) refl

read_actions-map :
    (actions : List OnboardAction)
    → read_actions (of_items (map action_value actions)) ≡ some actions
unfolding read_actions
read_actions-map [] = refl
read_actions-map (a ∷ actions) = rw (read_action-action_value a, read_actions-map actions) refl

module _ (i : BuildInput) (chain_name chain_id network : Text) (endpoints : List Text) where
  anchors-payload :
      is_hex64 chain_id ≡ true
      → check_anchors (anchors_for i chain_name chain_id) (payload_of i network chain_id endpoints)
        ≡ ok tt
  unfolding check_anchors payload_of get_field is_text is_nat text_eq
  anchors-payload hex = simp (hex, text_eq_refl)

  account-new_account :
      check_account (anchors_for i chain_name chain_id) (new_account i) ≡ ok (account_for i)
  unfolding check_account new_account get_field is_nat text_eq is_below_one
  account-new_account = simp (text_eq_refl)

  ram-buy_ram :
      (n : ℕ)
      → check_ram (anchors_for i chain_name chain_id) (account_for i) (some (buy_ram i n))
        ≡ ok (nat n)
  unfolding check_ram buy_ram get_field is_text text_eq
  ram-buy_ram n = simp (text_eq_refl)

  policy-create_policy :
      is_hex64 i.empty_policy_hash ≡ true
      → canonicalize (empty_policy chain_name chain_id) ≡ ok i.empty_policy_json
      → check_policy (anchors_for i chain_name chain_id) (account_for i) (create_policy i)
        ≡ ok i.permission
  unfolding check_policy create_policy get_field is_text is_nat text_eq empty_policy
  policy-create_policy hex canon = simp (hex, canon, text_eq_refl)

  summary-payload :
      summary_matches
        (anchors_for i chain_name chain_id)
        (account_for i)
        i.permission
        (summary_value i)
      ≡ true
  unfolding summary_matches summary_value get_field is_text text_eq
  summary-payload = simp (text_eq_refl)

  sequence-new_account :
      (middle : Option OnboardAction)
      → is_ram_action (anchors_for i chain_name chain_id) middle ≡ true
      → check_sequence
          (anchors_for i chain_name chain_id)
          (record { first = new_account i; middle = middle; last = create_policy i })
        ≡ ok tt
  unfolding check_sequence new_account create_policy text_eq
  sequence-new_account middle ram = simp (ram, text_eq_refl)

  is_ram_action-buy_ram :
      (n : ℕ) → is_ram_action (anchors_for i chain_name chain_id) (some (buy_ram i n)) ≡ true
  unfolding is_ram_action buy_ram text_eq
  is_ram_action-buy_ram n = refl

  is_ram_action-none : is_ram_action (anchors_for i chain_name chain_id) none ≡ true
  unfolding is_ram_action
  is_ram_action-none = refl

  ram-none : check_ram (anchors_for i chain_name chain_id) (account_for i) none ≡ ok (nat 0)
  unfolding check_ram
  ram-none = refl

  abbrev from_account : ℕ → List OnboardAction
  from_account n = new_account i ∷ with_ram i n (create_policy i ∷ [])

  -- Two actions or three.
  actions-from_account :
      (n : ℕ)
      → actions_of
          (anchors_for i chain_name chain_id)
          (arr (of_items (map action_value (from_account n))))
        ≡ ok (from_account n)
  unfolding actions_of with_ram count_items
  actions-from_account zero = rw (read_actions-map (from_account zero)) refl
  actions-from_account (suc n) = rw (read_actions-map (from_account (suc n))) refl

  -- The rest of the check, on the actions that were read.
  rest-from_account :
      (n : ℕ)
      → is_hex64 i.empty_policy_hash ≡ true
      → canonicalize (empty_policy chain_name chain_id) ≡ ok i.empty_policy_json
      → after_actions (anchors_for i chain_name chain_id) (summary_value i) (from_account n)
        ≡ ok (derived_with i n)
  unfolding after_actions with_ram sequence
  rest-from_account zero hash canon =
      rw
        (
          sequence-new_account none is_ram_action-none,
          account-new_account,
          ram-none,
          policy-create_policy hash canon,
          summary-payload,
        )
        refl
  rest-from_account (suc n) hash canon =
      rw
        (
          sequence-new_account (some (buy_ram i (suc n))) (is_ram_action-buy_ram (suc n)),
          account-new_account,
          ram-buy_ram (suc n),
          policy-create_policy hash canon,
          summary-payload,
        )
        refl

  actions-payload :
      actions_of
        (anchors_for i chain_name chain_id)
        (get_field (lit "actions") (payload_of i network chain_id endpoints))
      ≡ ok (build_onboarding_actions i)
  unfolding payload_of get_field text_eq build_onboarding_actions
  actions-payload = actions-from_account i.ram_bytes

-- What the daemon's side builds, the check passes: for a chain id and a hash of 64 hex digits, with the
-- canonical text of the empty policy, the payload of the built actions is valid under the anchors of
-- that chain and contract while the agent's account does not exist, and what is derived from it is
-- what it was built from.
pub validate-payload_of :
    (i : BuildInput) (chain_name chain_id network : Text) (endpoints : List Text)
    → is_hex64 chain_id ≡ true
    → is_hex64 i.empty_policy_hash ≡ true
    → canonicalize (empty_policy chain_name chain_id) ≡ ok i.empty_policy_json
    → validate_onboarding_payload
        (anchors_for i chain_name chain_id)
        (payload_of i network chain_id endpoints)
      ≡ ok (derived_of i)
unfolding validate_onboarding_payload
validate-payload_of i chain_name chain_id network endpoints hex hash canon =
    rw (anchors-payload i chain_name chain_id network endpoints hex) (
      rw (actions-payload i chain_name chain_id network endpoints) (
        unfold payload_of get_field text_eq in
        rest-from_account i chain_name chain_id network endpoints i.ram_bytes hash canon))
