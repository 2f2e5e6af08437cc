-- ===== src/Onboarding/Landed/Checks.antt =====
-- What each check of a landed onboarding says once it passes.
use signbox.Prelude.{◌≡◌, refl, sym, ap, ◌∙◌, subst, inl, inr, true, Option, none, Bool-cases}
use signbox.Prelude.Text.{Text, lit, text_eq, text_eq_iff}
use signbox.Prelude.Outcome.{Outcome, ok, err, >>=-eq-ok}
use signbox.Errors.{Thrown}
use signbox.Value.{
  Value, undefined, null, bool, num, str, arr, obj, Items, nil, Fields, get_field, read_member,
  is_text, to_text,
}
use signbox.Value.Shapes.{is_text-str}
use signbox.Policy.Onchain.{to_lower}
use signbox.Xpr.Keyauth.{find_permission, authorizes_exclusively}
use signbox.Xpr.Keyauth.Exclusive.{IsExclusive, authorizes_exclusively-IsExclusive}
use signbox.Xpr.Keyauth.Controlled.{IsListed, IsControlled, find_permission-IsListed}
use signbox.Onboarding.Landed.{
  OnboardingInput, or_empty, optional_member, check_row, check_owner, check_permission,
}

-- The row of the agent's policy, with the authority, the permission and the hash that were asked for.
pub record IsRow (input : OnboardingInput) (hash : Text) (row : Value) : Type 0 where
  pub columns : Fields
  pub is_object : row ≡ obj columns
  pub authority : get_field (lit "authority") columns ≡ str input.authority
  pub agentperm : get_field (lit "agentperm") columns ≡ str input.permission
  pub policyhash : to_lower (to_text (get_field (lit "policyhash") columns)) ≡ hash

module _ (canonical_key : Text → Option Text) where
  -- A permission of the list that exactly the expected key satisfies.
  pub record Controls (name : Text) (permissions expected : Value) : Type 0 where
    pub perms : Items
    pub perm : Value
    pub auth : Value
    pub array : permissions ≡ arr perms
    pub named : IsListed name perm perms
    pub required : read_member (lit "required_auth") perm ≡ ok auth
    pub exclusive : IsExclusive canonical_key auth expected

  check_row-IsRow :
      (input : OnboardingInput) (hash : Text) (row : Value)
      → check_row canonical_key input hash row ≡ ok none
      → IsRow input hash row
  unfolding check_row
  check_row-IsRow input hash (obj row) h =
      let authority = is_text input.authority (get_field (lit "authority") row) in
      let permission = is_text input.permission (get_field (lit "agentperm") row) in
      let own = to_lower (to_text (get_field (lit "policyhash") row)) in
      elim (Bool-cases authority) [
        | inr bad ↦ absurd (cc (rw bad at h))
        | inl a ↦ elim (Bool-cases permission) [
          | inr bad ↦ absurd (cc (rw (a, bad) at h))
          | inl p ↦ elim (Bool-cases (text_eq own hash)) [
            | inr bad ↦ absurd (cc (rw (a, p, bad) at h))
            | inl same ↦ record {
              columns = row;
              is_object = refl;
              authority = is_text-str input.authority _ a;
              agentperm = is_text-str input.permission _ p;
              policyhash = (text_eq_iff own hash).0 same;
            }
          ]
        ]
      ]
  check_row-IsRow input hash _ h = absurd (cc (h))

  found-Controls :
      (name : Text) (permissions perm auth expected : Value)
      → find_permission name permissions ≡ ok perm
      → (perm ≡ undefined → ⊥)
      → read_member (lit "required_auth") perm ≡ ok auth
      → authorizes_exclusively canonical_key auth expected ≡ ok true
      → Controls name permissions expected
  found-Controls name permissions perm auth expected f some_perm r x =
      elim (find_permission-IsListed name permissions perm f) [
        | inl nothing ↦ absurd (some_perm nothing)
        | inr (ps, array, listed) ↦ record {
          perms = ps;
          perm = perm;
          auth = auth;
          array = array;
          named = listed;
          required = r;
          exclusive = authorizes_exclusively-IsExclusive canonical_key auth expected x;
        }
      ]

  -- `?.` of what is there; of what is not, undefined is no authority.
  optional_member-read :
      (perm auth expected : Value)
      → optional_member (lit "required_auth") perm ≡ ok auth
      → authorizes_exclusively canonical_key auth expected ≡ ok true
      → (perm ≡ undefined → ⊥) × (read_member (lit "required_auth") perm ≡ ok auth)
  unfolding optional_member authorizes_exclusively
  optional_member-read undefined auth expected r x =
      let this : undefined ≡ auth = cc (r) in
      absurd
        (cc (subst (λ v. authorizes_exclusively canonical_key v expected ≡ ok true) (sym this) x))
  optional_member-read null auth expected r x =
      let this : undefined ≡ auth = cc (r) in
      absurd
        (cc (subst (λ v. authorizes_exclusively canonical_key v expected ≡ ok true) (sym this) x))
  optional_member-read (obj fs) auth expected r x = (λ e. cc (e), r)
  optional_member-read (bool b) auth expected r x = (λ e. cc (e), r)
  optional_member-read (num n) auth expected r x = (λ e. cc (e), r)
  optional_member-read (str s) auth expected r x = (λ e. cc (e), r)
  optional_member-read (arr vs) auth expected r x = (λ e. cc (e), r)

  pub check_owner-ok :
      (input : OnboardingInput) (hash : Text) (permissions row : Value)
      (authority : Outcome Thrown Value)
      → check_owner canonical_key input hash permissions row authority ≡ ok none
      → (key : Value) × (authority ≡ ok key)
        × Controls (lit "owner") permissions key
        × IsRow input hash row
  unfolding check_owner
  check_owner-ok input hash permissions row (err t) h = absurd (cc (h))
  check_owner-ok input hash permissions row (ok key) h =
      let (owner, f, h1) = >>=-eq-ok (find_permission (lit "owner") permissions) _ h in
      let (auth, r, h2) = >>=-eq-ok (optional_member (lit "required_auth") owner) _ h1 in
      let (exclusive, x, h3) = >>=-eq-ok (authorizes_exclusively canonical_key auth key) _ h2 in
      elim (Bool-cases exclusive) [
        | inr shared ↦ absurd (cc (rw shared at h3))
        | inl sole ↦
            let held : authorizes_exclusively canonical_key auth key ≡ ok true = cc (x, sole) in
            let (there, read) = optional_member-read owner auth key r held in
            (
              key,
              refl,
              found-Controls (lit "owner") permissions owner auth key f there read held,
              check_row-IsRow input hash row (rw sole at h3),
            )
      ]

  pub check_permission-ok :
      (input : OnboardingInput) (public_key hash : Text) (permissions row : Value)
      (authority : Outcome Thrown Value) (perm : Value)
      → find_permission input.permission permissions ≡ ok perm
      → check_permission canonical_key input public_key hash permissions row authority perm
        ≡ ok none
      → Controls input.permission permissions (str public_key)
        × (check_owner canonical_key input hash permissions row authority ≡ ok none)
  unfolding check_permission
  check_permission-ok input public_key hash permissions row authority undefined f h =
      absurd (cc (h))
  check_permission-ok input public_key hash permissions row authority perm f h =
      let (auth, r, h1) = >>=-eq-ok (read_member (lit "required_auth") perm) _ h in
      let (exclusive, x, h2) =
        >>=-eq-ok (authorizes_exclusively canonical_key auth (str public_key)) _ h1 in
      elim (Bool-cases exclusive) [
        | inr shared ↦ absurd (cc (rw shared at h2))
        | inl sole ↦
            let held : authorizes_exclusively canonical_key auth (str public_key) ≡ ok true =
              cc (x, sole) in
            (
              found-Controls input.permission permissions perm auth (str public_key) f
                  (λ e.
                    absurd (cc (subst (λ v. read_member (lit "required_auth") v ≡ ok auth) e r)))
                  r held,
              rw sole at h2,
            )
      ]

  or_empty-listed :
      (name : Text) (perm listed : Value) (ps : Items)
      → or_empty listed ≡ arr ps
      → IsListed name perm ps
      → listed ≡ arr ps
  unfolding or_empty
  or_empty-listed name perm undefined ps e h =
      let empty : nil ≡ ps = cc (e) in absurd (subst (λ x. IsListed name perm x) (sym empty) h)
  or_empty-listed name perm null ps e h =
      let empty : nil ≡ ps = cc (e) in absurd (subst (λ x. IsListed name perm x) (sym empty) h)
  or_empty-listed name perm (bool b) ps e h = e
  or_empty-listed name perm (num n) ps e h = e
  or_empty-listed name perm (str s) ps e h = e
  or_empty-listed name perm (arr vs) ps e h = e
  or_empty-listed name perm (obj fs) ps e h = e

  pub or_empty-Controls :
      (info listed expected : Value) (name key : Text)
      → read_member (lit "permissions") info ≡ ok listed
      → expected ≡ str key
      → Controls name (or_empty listed) expected
      → IsControlled canonical_key info name key
  or_empty-Controls info listed expected name key read is_key c = record {
    permissions = c.perms;
    perm = c.perm;
    auth = c.auth;
    listed =
        read
        ∙ ap (λ (v : Value). ok v) (or_empty-listed name c.perm listed c.perms c.array c.named);
    named = c.named;
    required = c.required;
    exclusive = subst (λ v. IsExclusive canonical_key c.auth v) is_key c.exclusive;
  }
