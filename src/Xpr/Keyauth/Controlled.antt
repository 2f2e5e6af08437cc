-- ===== src/Xpr/Keyauth/Controlled.antt =====
-- What an account is whose permission a key controls.
use signbox.Prelude.{
  ◌≡◌, refl, subst, ◌⊎◌, inl, inr, Bool, true, false, Option, none, some, Bool-cases, if◌then◌else◌,
}
use signbox.Prelude.Text.{Text, lit}
use signbox.Prelude.Outcome.{Outcome, ok, >>=-eq-ok}
use signbox.Errors.{Thrown}
use signbox.Value.{
  Value, undefined, null, bool, num, str, arr, obj, Items, nil, cons, read_member, is_text,
}
use signbox.Value.Shapes.{is_text-str}
use signbox.Xpr.Keyauth.{
  authorizes_exclusively, find_named, find_permission, KeyAuthority, authorized, not_exclusive,
  authority_of, resolve_with, resolve_key_authority,
}
use signbox.Xpr.Keyauth.Exclusive.{IsExclusive, authorizes_exclusively-IsExclusive}

-- A permission of the list, of the name.
abbrev pub IsListed : Text → Value → Items → Type 0
IsListed name perm nil = ⊥
IsListed name perm (cons p ps) =
    ((p ≡ perm) × (read_member (lit "perm_name") p ≡ ok (str name))) ⊎ IsListed name perm ps

find_named-IsListed :
    (name : Text) (ps : Items) (perm : Value)
    → find_named name ps ≡ ok perm
    → (perm ≡ undefined) ⊎ IsListed name perm ps
unfolding find_named
find_named-IsListed name nil perm h = inl (cc (h))
find_named-IsListed name (cons p ps) perm h =
    let (own, e, h1) = >>=-eq-ok (read_member (lit "perm_name") p) _ h in
    elim (Bool-cases (is_text name own)) [
      | inl this ↦
          let named = is_text-str name own this in inr (inl (cc (rw this at h1), cc (e, named)))
      | inr other ↦ elim (find_named-IsListed name ps perm (rw other at h1)) [
        | inl nothing ↦ inl nothing
        | inr listed ↦ inr (inr listed)
      ]
    ]

-- A permission that is found is one of the account's, under the name.
pub find_permission-IsListed :
    (name : Text) (permissions perm : Value)
    → find_permission name permissions ≡ ok perm
    → (perm ≡ undefined) ⊎ ((ps : Items) × (permissions ≡ arr ps) × IsListed name perm ps)
unfolding find_permission
find_permission-IsListed name (arr ps) perm h = elim (find_named-IsListed name ps perm h) [
  | inl nothing ↦ inl nothing
  | inr listed ↦ inr (ps, refl, listed)
]
find_permission-IsListed name undefined perm h = inl (cc (h))
find_permission-IsListed name null perm h = inl (cc (h))
find_permission-IsListed name (bool b) perm h = absurd (cc (h))
find_permission-IsListed name (num n) perm h = absurd (cc (h))
find_permission-IsListed name (str s) perm h = absurd (cc (h))
find_permission-IsListed name (obj fs) perm h = absurd (cc (h))

-- The permission of the account, and its authority, which the key alone satisfies.
pub record IsControlled (canonical_key : Text → Option Text) (info : Value)
    (permission expected : Text) : Type 0 where
  pub permissions : Items
  pub perm : Value
  pub auth : Value
  pub listed : read_member (lit "permissions") info ≡ ok (arr permissions)
  pub named : IsListed permission perm permissions
  pub required : read_member (lit "required_auth") perm ≡ ok auth
  pub exclusive : IsExclusive canonical_key auth (str expected)

module _ (canonical_key : Text → Option Text) where
  verdict-exclusive :
      (b : Bool)
      → ◌≡◌ {A = Outcome Thrown KeyAuthority}
          (ok (if b then authorized else not_exclusive))
          (ok authorized)
      → b ≡ true
  verdict-exclusive true h = refl
  verdict-exclusive false h = absurd (cc (h))

  -- The catch-all of `authority_of`.
  authority_of-member :
      (perm : Value) (expected : Text)
      → authority_of canonical_key perm expected ≡ ok authorized
      → (auth : Value) × (read_member (lit "required_auth") perm ≡ ok auth)
        × IsExclusive canonical_key auth (str expected)
  unfolding authority_of
  authority_of-member undefined expected h = absurd (cc (h))
  authority_of-member perm expected h =
      let (auth, e, h1) = >>=-eq-ok (read_member (lit "required_auth") perm) _ h in
      let (exclusive, x, h2) =
        >>=-eq-ok (authorizes_exclusively canonical_key auth (str expected)) _ h1 in
      let held = verdict-exclusive exclusive h2 in
      (auth, e, authorizes_exclusively-IsExclusive canonical_key auth (str expected) (cc (x, held)))

  resolve_with-IsControlled :
      (key : Option Text) (account : Outcome Thrown Value) (permission expected : Text)
      → resolve_with canonical_key key account permission expected ≡ ok authorized
      → (info : Value) × (account ≡ ok info) × IsControlled canonical_key info permission expected
  unfolding resolve_with
  resolve_with-IsControlled none account permission expected h = absurd (cc (h))
  resolve_with-IsControlled (some key) account permission expected h =
      let (info, e, h1) = >>=-eq-ok account _ h in
      let (permissions, p, h2) = >>=-eq-ok (read_member (lit "permissions") info) _ h1 in
      let (perm, f, h3) = >>=-eq-ok (find_permission permission permissions) _ h2 in
      let (auth, r, exclusive) = authority_of-member perm expected h3 in
      elim (find_permission-IsListed permission permissions perm f) [
        | inl nothing ↦
            absurd (cc (subst (λ v. read_member (lit "required_auth") v ≡ ok auth) nothing r))
        | inr (ps, array, listed) ↦ (
          info,
          e,
          record {
            permissions = ps;
            perm = perm;
            auth = auth;
            listed = cc (p, array);
            named = listed;
            required = r;
            exclusive = exclusive;
          },
        )
      ]

-- A key is authorized only if the account has a permission of the name whose authority is exclusive:
-- threshold 1, no accounts, no waits, and one key, which is the expected one in its canonical form.
pub resolve_key_authority-IsControlled :
    (canonical_key : Text → Option Text) (account : Outcome Thrown Value)
    (permission expected : Text)
    → resolve_key_authority canonical_key account permission expected ≡ ok authorized
    → (info : Value) × (account ≡ ok info) × IsControlled canonical_key info permission expected
unfolding resolve_key_authority
resolve_key_authority-IsControlled canonical_key account permission expected h =
    resolve_with-IsControlled canonical_key (canonical_key expected) account permission expected h
