-- ===== src/Onboarding/Validate/Sound.antt =====
-- What a payload that passes the check consists of.
use signbox.Prelude.{
  ◌≡◌, refl, subst, ◌⊎◌, inl, inr, true, false, not, ◌&&◌, none, some, List, [], ◌∷◌, arith, leb,
  length,
}
use signbox.Prelude.Text.{lit, text_eq, text_eq_iff}
use signbox.Prelude.Outcome.{ok, >>=-eq-ok}
use signbox.Value.{JsNumber, Value, str, arr, Items, Fields, get_field, is_text, is_nat}
use signbox.Onboarding.Actions.{OnboardAction}
use signbox.Onboarding.Validate.{
  TrustedContext, OnboardDerived, not_onboarding, Sequence, Account, require, count_items,
  check_anchors, actions_of, sequence, is_ram_action, check_sequence, check_account, check_ram,
  check_policy, summary_matches, after_actions, validate_onboarding_payload,
}
use signbox.Onboarding.Shapes.{is_hex64, read_actions}
use signbox.Value.Shapes.{is_text-str}
use signbox.Onboarding.Validate.Stages.{
  require-true, present-some, full_name, IsNewAccount, IsRam, IsDenyAll, check_account-IsNewAccount,
  check_ram-IsRam, check_policy-IsDenyAll,
}

abbrev account_of : OnboardDerived → Account
account_of d = record {
  agent = d.agent;
  authority = d.authority;
  active_key = d.agent_public_key;
  owner_key = d.owner_key;
}

-- The actions of a payload that passes: two, or three with RAM between.
pub record IsSequence (trusted : TrustedContext) (actions : List OnboardAction) (d : OnboardDerived)
    : Type 0 where
  pub first : OnboardAction
  pub last : OnboardAction
  pub shape :
      (actions ≡ first ∷ last ∷ [])
      ⊎ ((middle : OnboardAction) × (actions ≡ first ∷ middle ∷ last ∷ [])
          × IsRam (account_of d) middle)
  pub is_newaccount : full_name first ≡ lit "eosio::newaccount"
  pub creates : IsNewAccount first (account_of d)
  pub own_contract : last.account ≡ trusted.signbox_contract
  pub is_createpolicy : last.name ≡ lit "createpolicy"
  pub denies : IsDenyAll trusted (account_of d) d.permission last

pub record IsOnboarding (trusted : TrustedContext) (payload : Fields) (d : OnboardDerived)
    : Type 0 where
  pub chain : get_field (lit "chainId") payload ≡ str trusted.chain_id
  pub contract : get_field (lit "signboxContract") payload ≡ str trusted.signbox_contract
  pub absent : trusted.agent_account_exists ≡ false
  pub values : Items
  pub actions : List OnboardAction
  pub listed : get_field (lit "actions") payload ≡ arr values
  pub read : read_actions values ≡ some actions
  pub sequence : IsSequence trusted actions d

module _ (trusted : TrustedContext) where
  abbrev IsShape : List OnboardAction → Sequence → Type 0
  IsShape actions s =
      ((actions ≡ s.first ∷ s.last ∷ []) × (s.middle ≡ none))
      ⊎ ((m : OnboardAction) × (actions ≡ s.first ∷ m ∷ s.last ∷ []) × (s.middle ≡ some m))

  sequence-IsShape :
      (actions : List OnboardAction) (s : Sequence)
      → sequence trusted actions ≡ ok s
      → IsShape actions s
  unfolding sequence
  sequence-IsShape (a ∷ b ∷ []) s h =
      let found : Sequence = record { first = a; middle = none; last = b } in
      let this : found ≡ s = cc (h) in subst (λ x. IsShape (a ∷ b ∷ []) x) this (inl (refl, refl))
  sequence-IsShape (a ∷ m ∷ b ∷ []) s h =
      let found : Sequence = record { first = a; middle = some m; last = b } in
      let this : found ≡ s = cc (h) in
      subst (λ x. IsShape (a ∷ m ∷ b ∷ []) x) this (inr (m, refl, refl))
  sequence-IsShape [] s h = absurd (cc (h))
  sequence-IsShape (a ∷ []) s h = absurd (cc (h))
  sequence-IsShape (a ∷ b ∷ c ∷ e ∷ rest) s h = absurd (cc (h))

  check_sequence-names :
      (s : Sequence)
      → check_sequence trusted s ≡ ok tt
      → (full_name s.first ≡ lit "eosio::newaccount")
        × (s.last.account ≡ trusted.signbox_contract)
        × (s.last.name ≡ lit "createpolicy")
        × (is_ram_action trusted s.middle ≡ true)
  unfolding check_sequence
  check_sequence-names s h =
      let (_, e1, h1) =
        >>=-eq-ok (require (text_eq (full_name s.first) (lit "eosio::newaccount")) _) _ h in
      let (_, e2, h2) =
        >>=-eq-ok
          (require
            (text_eq s.last.account trusted.signbox_contract
              && text_eq s.last.name (lit "createpolicy"))
            _)
          _ h1 in
      let named =
        require-true
          (text_eq s.last.account trusted.signbox_contract
            && text_eq s.last.name (lit "createpolicy"))
          _ e2 in
      (
        (text_eq_iff _ _).0 (require-true _ _ e1),
        ground (arith, named, text_eq_iff s.last.account trusted.signbox_contract),
        ground (arith, named, text_eq_iff s.last.name (lit "createpolicy")),
        require-true _ _ h2,
      )

  shape-IsRam :
      (a : Account) (actions : List OnboardAction) (s : Sequence) (bytes : JsNumber)
      → IsShape actions s
      → is_ram_action trusted s.middle ≡ true
      → check_ram trusted a s.middle ≡ ok bytes
      → (actions ≡ s.first ∷ s.last ∷ [])
        ⊎ ((m : OnboardAction) × (actions ≡ s.first ∷ m ∷ s.last ∷ []) × IsRam a m)
  unfolding is_ram_action
  shape-IsRam a actions s bytes (inl (two, none_between)) named h = inl two
  shape-IsRam a actions s bytes (inr (m, three, between)) named h =
      let is = subst (λ x. is_ram_action trusted x ≡ true) between named in
      let checked = subst (λ x. check_ram trusted a x ≡ ok bytes) between h in
      inr (m, three, check_ram-IsRam trusted a m bytes ((text_eq_iff _ _).0 is) checked)

  after_actions-IsSequence :
      (claimed : Value) (actions : List OnboardAction) (d : OnboardDerived)
      → after_actions trusted claimed actions ≡ ok d
      → IsSequence trusted actions d
  unfolding after_actions
  after_actions-IsSequence claimed actions d h =
      let (s, e1, h1) = >>=-eq-ok (sequence trusted actions) _ h in
      let (_, e2, h2) = >>=-eq-ok (check_sequence trusted s) _ h1 in
      let (a, e3, h3) = >>=-eq-ok (check_account trusted s.first) _ h2 in
      let (bytes, e4, h4) = >>=-eq-ok (check_ram trusted a s.middle) _ h3 in
      let (permission, e5, h5) = >>=-eq-ok (check_policy trusted a s.last) _ h4 in
      let (_, e6, h6) = >>=-eq-ok (require (summary_matches trusted a permission claimed) _) _ h5 in
      let (first, contract, name, ram) = check_sequence-names s e2 in
      let found : OnboardDerived = record {
        agent = a.agent;
        authority = a.authority;
        permission = permission;
        agent_public_key = a.active_key;
        owner_key = a.owner_key;
        ram_bytes = bytes;
        action_count = length actions;
      } in
      let this : found ≡ d = cc (h6) in
      subst (λ x. IsSequence trusted actions x) this
        (record {
          first = s.first;
          last = s.last;
          shape = shape-IsRam a actions s bytes (sequence-IsShape actions s e1) ram e4;
          is_newaccount = first;
          creates = check_account-IsNewAccount trusted s.first a e3;
          own_contract = contract;
          is_createpolicy = name;
          denies = check_policy-IsDenyAll trusted a s.last permission e5;
        })

  actions_of-read :
      (v : Value) (actions : List OnboardAction)
      → actions_of trusted v ≡ ok actions
      → (vs : Items) × (v ≡ arr vs) × (read_actions vs ≡ some actions)
  unfolding actions_of
  actions_of-read (arr vs) actions h =
      let (_, e1, h1) =
        >>=-eq-ok (require (leb 2 (count_items vs) && leb (count_items vs) 3) _) _ h in
      (vs, refl, present-some _ _ actions h1)
  actions_of-read _ actions h = absurd (cc (h))

-- The check lets nothing else through: a payload that passes is for the trusted chain and contract,
-- while the agent's account does not exist; its actions are, in order, an eosio::newaccount of the
-- authority for the agent, with exactly one key on active and one on owner, perhaps an
-- eosio::buyrambytes from the authority to the agent, and a createpolicy on the trusted contract, of
-- version 1 and the exact policy that denies all, each with the expected authorizations.
pub validate-IsOnboarding :
    (trusted : TrustedContext) (payload : Fields) (d : OnboardDerived)
    → validate_onboarding_payload trusted payload ≡ ok d
    → IsOnboarding trusted payload d
unfolding validate_onboarding_payload check_anchors
validate-IsOnboarding trusted payload d h =
    let (_, e1, h1) = >>=-eq-ok (check_anchors trusted payload) _ h in
    let (actions, e2, h2) =
      >>=-eq-ok (actions_of trusted (get_field (lit "actions") payload)) _ h1 in
    let (_, a1, k1) =
      >>=-eq-ok
        (require
          (is_nat 1 (get_field (lit "v") payload)
            && is_text (lit "onboard") (get_field (lit "kind") payload))
          not_onboarding)
        _ e1 in
    let (_, a2, k2) =
      >>=-eq-ok
        (require
          (is_hex64 trusted.chain_id
            && is_text trusted.chain_id (get_field (lit "chainId") payload))
          _)
        _ k1 in
    let (_, a3, k3) =
      >>=-eq-ok
        (require (is_text trusted.signbox_contract (get_field (lit "signboxContract") payload)) _) _
        k2 in
    let chain =
      require-true
        (is_hex64 trusted.chain_id && is_text trusted.chain_id (get_field (lit "chainId") payload))
        _ a2 in
    let free = require-true (not trusted.agent_account_exists) _ k3 in
    let (vs, listed, read) = actions_of-read trusted _ actions e2 in
    record {
      chain = is_text-str trusted.chain_id _ (ground (arith, chain));
      contract = is_text-str trusted.signbox_contract _ (require-true _ _ a3);
      absent = ground (arith, free);
      values = vs;
      actions = actions;
      listed = listed;
      read = read;
      sequence = after_actions-IsSequence trusted _ actions d h2;
    }
