-- ===== src/Contract/Rows.antt =====
-- What one action of the contract does to the table.
use signbox.Prelude.{
  ℕ, ◌≤◌, ◌<◌, ◌≡◌, refl, subst, ◌⊎◌, inl, inr, Bool, true, false, not, Option, none, some, List,
  arith, ltb, ◌==◌, ==_iff, Bool-cases, Option-cases, length,
}
use signbox.Prelude.Text.{Text, text_eq, text_eq_iff, lookup}
use signbox.Prelude.Outcome.{Outcome, ok, >>=-eq-ok}
use signbox.Contract.{
  PolicyRow, Policies, Host, max_policy_bytes, Failure, no_agent_account, missing_auth,
  no_authority_account, already_exists, not_version_one, not_increasing, no_new_account,
  same_authority, check, is_none, require_row, put, require_auth, assert_policy_integrity,
  createpolicy, owned_row, setpolicy, set_enabled, disable, enable, setperm, setauthority, Action,
  creating, setting_policy, disabling, enabling, setting_perm, setting_authority, dispatch,
}

module _ (sha256 : Text → List ℕ) where
  -- The stored hash is that of the stored policy, whose size is within the bounds.
  pub record IsIntegral (policyjson : Text) (policyhash : List ℕ) : Type 0 where
    pub nonempty : 0 < length policyjson
    pub bounded : length policyjson ≤ max_policy_bytes
    pub hashed : sha256 policyjson ≡ policyhash

  assert-IsIntegral :
      (host : Host) (policyjson : Text) (policyhash : List ℕ)
      → assert_policy_integrity sha256 host policyjson policyhash ≡ ok tt
      → IsIntegral policyjson policyhash
  unfolding assert_policy_integrity check
  assert-IsIntegral host policyjson policyhash h = record {
    nonempty = ground arith;
    bounded = ground arith;
    hashed = ground (arith, text_eq_iff (sha256 policyjson) policyhash);
  }

  pub record IsCreated (host : Host) (policies : Policies) (row : PolicyRow) : Type 0 where
    pub absent : lookup row.agent policies ≡ none
    pub by_authority : host.has_auth row.authority ≡ true
    pub by_agent : host.has_auth row.agent ≡ true
    pub first : row.version ≡ 1
    pub integral : IsIntegral row.policyjson row.policyhash

  pub record IsUpdated (host : Host) (row new : PolicyRow) : Type 0 where
    pub by_authority : host.has_auth row.authority ≡ true
    pub accepted : (new.authority ≡ row.authority) ⊎ (host.has_auth new.authority ≡ true)
    pub same_agent : new.agent ≡ row.agent
    pub policy :
        ((new.version ≡ row.version)
          × (new.policyjson ≡ row.policyjson)
          × (new.policyhash ≡ row.policyhash))
        ⊎ ((row.version < new.version) × IsIntegral new.policyjson new.policyhash)

  -- An action puts one row.
  pub data IsChange (host : Host) (policies : Policies) : Policies → Type 0 where
    created :
        (row : PolicyRow) (payer : Text)
        → IsCreated host policies row
        → IsChange host policies (put policies row payer)
    updated :
        (agent : Text) (row new : PolicyRow) (payer new_payer : Text)
        → lookup agent policies ≡ some (row, payer)
        → IsUpdated host row new
        → IsChange host policies (put policies new new_payer)

  owned_row-ok :
      (host : Host) (policies : Policies) (agent : Text) (row : PolicyRow)
      → owned_row sha256 host policies agent ≡ ok row
      → (payer : Text) × (lookup agent policies ≡ some (row, payer))
        × (host.has_auth row.authority ≡ true)
  unfolding owned_row require_row require_auth check
  owned_row-ok host policies agent row h = elim (Option-cases (lookup agent policies)) [
    | inl missing ↦ absurd (ground arith)
    | inr ((r, payer), found) ↦ elim (Bool-cases (host.has_auth r.authority)) [
      | inl signed ↦
          let same : r ≡ row = cc (rw (found, signed) at h) in
          (payer, cc (found, same), subst (λ x. host.has_auth x.authority ≡ true) same signed)
      | inr unsigned ↦ absurd (cc (rw (found, unsigned) at h))
    ]
  ]

  is_none-true : {A : Type 0} (o : Option A) → is_none o ≡ true → o ≡ none
  unfolding is_none
  is_none-true none h = refl
  is_none-true (some a) h = absurd (cc h)

  check-ok : (b : Bool) (f : Failure) → check b f ≡ ok tt → b ≡ true
  unfolding check
  check-ok true f h = refl
  check-ok false f h = absurd (cc h)

  abbrev done : Policies → Outcome Failure Policies
  done p = ok p

  IsChange-ok :
      (host : Host) (policies after result : Policies)
      → IsChange host policies result
      → done result ≡ done after
      → IsChange host policies after
  IsChange-ok host policies after result c h =
      let same : result ≡ after = cc h in subst (λ p. IsChange host policies p) same c

  createpolicy-IsChange :
      (host : Host) (policies after : Policies) (agent authority agentperm : Text) (version : ℕ)
      (policyhash : List ℕ) (policyjson : Text)
      → createpolicy sha256 host policies agent authority agentperm version policyhash policyjson
        ≡ ok after
      → IsChange host policies after
  unfolding createpolicy require_auth
  createpolicy-IsChange host policies after agent authority agentperm version policyhash policyjson
        h =
      let (_, a1, h1) = >>=-eq-ok (check (host.is_account agent) no_agent_account) _ h in
      let (_, a2, h2) = >>=-eq-ok (check (host.has_auth authority) missing_auth) _ h1 in
      let (_, a3, h3) = >>=-eq-ok (check (host.has_auth agent) missing_auth) _ h2 in
      let (_, a4, h4) = >>=-eq-ok (check (host.is_account authority) no_authority_account) _ h3 in
      let (_, a5, h5) = >>=-eq-ok (check (is_none (lookup agent policies)) already_exists) _ h4 in
      let (_, a6, h6) = >>=-eq-ok (check (version == 1) not_version_one) _ h5 in
      let (_, a7, h7) =
        >>=-eq-ok (assert_policy_integrity sha256 host policyjson policyhash) _ h6 in
      IsChange-ok host policies after _
        (created _ authority (record {
          absent = is_none-true (lookup agent policies) (check-ok _ _ a5);
          by_authority = check-ok _ _ a2;
          by_agent = check-ok _ _ a3;
          first = ground (arith, ==_iff version 1, check-ok (version == 1) _ a6);
          integral = assert-IsIntegral host policyjson policyhash a7;
        }))
        h7

  setpolicy-IsChange :
      (host : Host) (policies after : Policies) (agent : Text) (version : ℕ) (policyhash : List ℕ)
      (policyjson : Text)
      → setpolicy sha256 host policies agent version policyhash policyjson ≡ ok after
      → IsChange host policies after
  unfolding setpolicy
  setpolicy-IsChange host policies after agent version policyhash policyjson h =
      let (row, owned, h1) = >>=-eq-ok (owned_row sha256 host policies agent) _ h in
      let (payer, found, signed) = owned_row-ok host policies agent row owned in
      let (_, a2, h2) = >>=-eq-ok (check (ltb row.version version) not_increasing) _ h1 in
      let (_, a3, h3) =
        >>=-eq-ok (assert_policy_integrity sha256 host policyjson policyhash) _ h2 in
      IsChange-ok host policies after _
        (updated agent row _ payer row.authority found (record {
          by_authority = signed;
          accepted = inl refl;
          same_agent = refl;
          policy = inr (
            ground (arith, check-ok (ltb row.version version) _ a2),
            assert-IsIntegral host policyjson policyhash a3,
          );
        }))
        h3

  set_enabled-IsChange :
      (enabled : Bool) (host : Host) (policies after : Policies) (agent : Text)
      → set_enabled sha256 host enabled policies agent ≡ ok after
      → IsChange host policies after
  unfolding set_enabled
  set_enabled-IsChange enabled host policies after agent h =
      let (row, owned, h1) = >>=-eq-ok (owned_row sha256 host policies agent) _ h in
      let (payer, found, signed) = owned_row-ok host policies agent row owned in
      IsChange-ok host policies after _
        (updated agent row _ payer row.authority found (record {
          by_authority = signed;
          accepted = inl refl;
          same_agent = refl;
          policy = inl (refl, refl, refl);
        }))
        h1

  setperm-IsChange :
      (host : Host) (policies after : Policies) (agent agentperm : Text)
      → setperm sha256 host policies agent agentperm ≡ ok after
      → IsChange host policies after
  unfolding setperm
  setperm-IsChange host policies after agent agentperm h =
      let (row, owned, h1) = >>=-eq-ok (owned_row sha256 host policies agent) _ h in
      let (payer, found, signed) = owned_row-ok host policies agent row owned in
      IsChange-ok host policies after _
        (updated agent row _ payer row.authority found (record {
          by_authority = signed;
          accepted = inl refl;
          same_agent = refl;
          policy = inl (refl, refl, refl);
        }))
        h1

  setauthority-IsChange :
      (host : Host) (policies after : Policies) (agent newauthority : Text)
      → setauthority sha256 host policies agent newauthority ≡ ok after
      → IsChange host policies after
  unfolding setauthority require_auth
  setauthority-IsChange host policies after agent newauthority h =
      let (row, owned, h1) = >>=-eq-ok (owned_row sha256 host policies agent) _ h in
      let (payer, found, signed) = owned_row-ok host policies agent row owned in
      let (_, a2, h2) = >>=-eq-ok (check (host.has_auth newauthority) missing_auth) _ h1 in
      let (_, a3, h3) = >>=-eq-ok (check (host.is_account newauthority) no_new_account) _ h2 in
      let (_, a4, h4) =
        >>=-eq-ok (check (not (text_eq newauthority row.authority)) same_authority) _ h3 in
      IsChange-ok host policies after _
        (updated agent row _ payer newauthority found (record {
          by_authority = signed;
          accepted = inr (check-ok _ _ a2);
          same_agent = refl;
          policy = inl (refl, refl, refl);
        }))
        h4

  pub dispatch-IsChange :
      (host : Host) (policies after : Policies) (action : Action)
      → dispatch sha256 host policies action ≡ ok after
      → IsChange host policies after
  unfolding dispatch disable enable
  dispatch-IsChange host policies after
        (creating agent authority agentperm version policyhash policyjson) h =
      createpolicy-IsChange host policies after agent authority agentperm version policyhash
        policyjson h
  dispatch-IsChange host policies after (setting_policy agent version policyhash policyjson) h =
      setpolicy-IsChange host policies after agent version policyhash policyjson h
  dispatch-IsChange host policies after (disabling agent) h =
      set_enabled-IsChange false host policies after agent h
  dispatch-IsChange host policies after (enabling agent) h =
      set_enabled-IsChange true host policies after agent h
  dispatch-IsChange host policies after (setting_perm agent agentperm) h =
      setperm-IsChange host policies after agent agentperm h
  dispatch-IsChange host policies after (setting_authority agent newauthority) h =
      setauthority-IsChange host policies after agent newauthority h
