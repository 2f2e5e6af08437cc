-- ===== src/Onboarding/Validate/Stages.antt =====
-- What each stage of the check accepts.
use signbox.Prelude.{
  ◌≡◌, refl, subst, Bool, true, false, ◌&&◌, Option, none, some, List, [], ◌∷◌, ◌++◌, arith,
}
use signbox.Prelude.Text.{Text, lit, text_eq_iff}
use signbox.Prelude.Outcome.{Outcome, ok, err, >>=-eq-ok}
use signbox.Errors.{Thrown}
use signbox.Value.{JsNumber, nat, num, str, get_field, is_text, is_nat, text_of}
use signbox.Canonical.{canonicalize}
use signbox.Onboarding.Actions.{Authorization, OnboardAction, active_of}
use signbox.Onboarding.Validate.{
  TrustedContext, Problem, Account, require, present, expected_empty_policy, caught, check_account,
  check_ram, is_hash, check_policy,
}
use signbox.Onboarding.Shapes.{exclusive_single_key, auth_equals}
use signbox.Value.Shapes.{is_text-str, text_of-str, is_nat_1-num}
use signbox.Onboarding.Validate.Exclusive.{IsExclusive, exclusive_single_key-IsExclusive}

pub require-true : (b : Bool) (p : Problem) {u : Unit {0}} → require b p ≡ ok u → b ≡ true
unfolding require
require-true true p h = refl
require-true false p h = absurd (cc (h))

pub present-some :
    {A : Type 0} (o : Option A) (p : Problem) (a : A) → present o p ≡ ok a → o ≡ some a
unfolding present
present-some none p a h = absurd (cc (h))
present-some (some b) p a h = cc (h)

auth_equals-eq : (own bs : List Authorization) → auth_equals own bs ≡ true → own ≡ bs
unfolding auth_equals
auth_equals-eq [] [] h = refl
auth_equals-eq [] (b ∷ bs) h = absurd (cc (h))
auth_equals-eq (a ∷ rest) [] h = absurd (cc (h))
auth_equals-eq (a ∷ rest) (b ∷ bs) h = ground (
  arith,
  text_eq_iff a.actor b.actor,
  text_eq_iff a.permission b.permission,
  auth_equals-eq rest bs,
)

-- An action's name with its contract.
abbrev pub full_name : OnboardAction → Text
full_name a = a.account ++ (lit "::" ++ a.name)

-- The account that an onboarding creates: the agent's, by the authority, with one key each.
pub record IsNewAccount (first : OnboardAction) (a : Account) : Type 0 where
  pub name : get_field (lit "name") first.payload ≡ str a.agent
  pub creator : get_field (lit "creator") first.payload ≡ str a.authority
  pub authorization : first.authorization ≡ active_of a.authority ∷ []
  pub active : IsExclusive (get_field (lit "active") first.payload) a.active_key
  pub owner : IsExclusive (get_field (lit "owner") first.payload) a.owner_key

-- RAM that the authority buys for the agent.
pub record IsRam (a : Account) (middle : OnboardAction) : Type 0 where
  pub is_buyrambytes : full_name middle ≡ lit "eosio::buyrambytes"
  pub payer : get_field (lit "payer") middle.payload ≡ str a.authority
  pub receiver : get_field (lit "receiver") middle.payload ≡ str a.agent
  pub authorization : middle.authorization ≡ active_of a.authority ∷ []

-- The first version of a policy that denies all, under the agent, for the authority.
pub record IsDenyAll (trusted : TrustedContext) (a : Account) (permission : Text)
    (last : OnboardAction) : Type 0 where
  pub agentperm : get_field (lit "agentperm") last.payload ≡ str permission
  pub agent : get_field (lit "agent") last.payload ≡ str a.agent
  pub authority : get_field (lit "authority") last.payload ≡ str a.authority
  pub version : get_field (lit "version") last.payload ≡ num (nat 1)
  pub json : Text
  pub canonical : canonicalize (expected_empty_policy trusted.chain_name trusted.chain_id) ≡ ok json
  pub policyjson : get_field (lit "policyjson") last.payload ≡ str json
  pub authorization :
      last.authorization
      ≡ active_of a.authority ∷ (record { actor = a.agent; permission = lit "owner" }) ∷ []

module _ (trusted : TrustedContext) where
  pub check_account-IsNewAccount :
      (first : OnboardAction) (a : Account)
      → check_account trusted first ≡ ok a
      → IsNewAccount first a
  unfolding check_account
  check_account-IsNewAccount first a h =
      let (agent, e1, h1) =
        >>=-eq-ok (present (text_of (get_field (lit "name") first.payload)) _) _ h in
      let (authority, e2, h2) =
        >>=-eq-ok (present (text_of (get_field (lit "creator") first.payload)) _) _ h1 in
      let (_, e3, h3) =
        >>=-eq-ok (require (auth_equals first.authorization (active_of authority ∷ [])) _) _ h2 in
      let (active, e4, h4) =
        >>=-eq-ok (present (exclusive_single_key (get_field (lit "active") first.payload)) _) _
          h3 in
      let (owner, e5, h5) =
        >>=-eq-ok (present (exclusive_single_key (get_field (lit "owner") first.payload)) _) _ h4 in
      let found : Account = record {
        agent = agent;
        authority = authority;
        active_key = active;
        owner_key = owner;
      } in
      let this : found ≡ a = cc (h5) in
      subst (λ x. IsNewAccount first x) this
        (record {
          name = text_of-str _ agent (present-some _ _ agent e1);
          creator = text_of-str _ authority (present-some _ _ authority e2);
          authorization = auth_equals-eq _ _ (require-true _ _ e3);
          active = exclusive_single_key-IsExclusive _ active (present-some _ _ active e4);
          owner = exclusive_single_key-IsExclusive _ owner (present-some _ _ owner e5);
        })

  pub check_ram-IsRam :
      (a : Account) (middle : OnboardAction) (bytes : JsNumber)
      → full_name middle ≡ lit "eosio::buyrambytes"
      → check_ram trusted a (some middle) ≡ ok bytes
      → IsRam a middle
  unfolding check_ram
  check_ram-IsRam a middle bytes named h =
      let (_, e1, h1) =
        >>=-eq-ok
          (require
            (is_text a.authority (get_field (lit "payer") middle.payload)
              && is_text a.agent (get_field (lit "receiver") middle.payload))
            _)
          _ h in
      let (_, e2, h2) =
        >>=-eq-ok (require (auth_equals middle.authorization (active_of a.authority ∷ [])) _) _
          h1 in
      let parties =
        require-true
          (is_text a.authority (get_field (lit "payer") middle.payload)
            && is_text a.agent (get_field (lit "receiver") middle.payload))
          _ e1 in
      record {
        is_buyrambytes = named;
        payer = is_text-str a.authority _ (ground (arith, parties));
        receiver = is_text-str a.agent _ (ground (arith, parties));
        authorization = auth_equals-eq _ _ (require-true _ _ e2);
      }

  caught-ok : {A : Type 0} (m : Outcome Thrown A) (a : A) → caught m ≡ ok a → m ≡ ok a
  unfolding caught
  caught-ok (ok b) a h = cc (h)
  caught-ok (err t) a h = absurd (cc (h))

  pub check_policy-IsDenyAll :
      (a : Account) (last : OnboardAction) (permission : Text)
      → check_policy trusted a last ≡ ok permission
      → IsDenyAll trusted a permission last
  unfolding check_policy
  check_policy-IsDenyAll a last permission h =
      let cp = last.payload in
      let (p, e1, h1) = >>=-eq-ok (present (text_of (get_field (lit "agentperm") cp)) _) _ h in
      let (_, e2, h2) = >>=-eq-ok (require (is_text a.agent (get_field (lit "agent") cp)) _) _ h1 in
      let (_, e3, h3) =
        >>=-eq-ok (require (is_text a.authority (get_field (lit "authority") cp)) _) _ h2 in
      let (_, e4, h4) = >>=-eq-ok (require (is_nat 1 (get_field (lit "version") cp)) _) _ h3 in
      let (_, e5, h5) =
        >>=-eq-ok (require (is_hash trusted (get_field (lit "policyhash") cp)) _) _ h4 in
      let (json, e6, h6) =
        >>=-eq-ok
          (caught (canonicalize (expected_empty_policy trusted.chain_name trusted.chain_id))) _
          h5 in
      let (_, e7, h7) =
        >>=-eq-ok (require (is_text json (get_field (lit "policyjson") cp)) _) _ h6 in
      let (_, e8, h8) =
        >>=-eq-ok
          (require
            (auth_equals last.authorization
              (active_of a.authority ∷ (record { actor = a.agent; permission = lit "owner" }) ∷ []))
            _)
          _ h7 in
      let this : p ≡ permission = cc (h8) in
      subst (λ x. IsDenyAll trusted a x last) this
        (record {
          agentperm = text_of-str _ p (present-some _ _ p e1);
          agent = is_text-str a.agent _ (require-true _ _ e2);
          authority = is_text-str a.authority _ (require-true _ _ e3);
          version = is_nat_1-num _ (require-true _ _ e4);
          json = json;
          canonical = caught-ok _ json e6;
          policyjson = is_text-str json _ (require-true _ _ e7);
          authorization = auth_equals-eq _ _ (require-true _ _ e8);
        })
