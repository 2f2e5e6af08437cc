-- ===== src/Xpr/Keyauth.antt =====
-- src/chains/xpr/keyauth.ts and authority.ts: the rule for the authority of a key, and its check on an
-- account. `canonical_key` is the key encoding of @proton/js, `none` where it throws; what get_account
-- answers is an input.
pub mod Controlled
pub mod Exclusive
use signbox.Prelude.{
  ◌≡◌, refl, inl, inr, Bool, true, false, ◌&&◌, Option, none, some, List, [], if◌then◌else◌,
}
use signbox.Prelude.Text.{Text, lit, text_eq}
use signbox.Prelude.Outcome.{Outcome, ok, err, ◌>>=◌}
use signbox.Errors.{Thrown, internal}
use signbox.Value.{
  nat, Value, undefined, null, num, str, arr, obj, Items, nil, cons, Fields, get_field, read_member,
  is_text, is_nat, is_below_one, is_empty_array,
}

module _ (canonical_key : Text → Option Text) where
  -- `normalizePublicKey`.
  pub normalized : Value → Option Text
  normalized (str s) = canonical_key s
  normalized v = none

  pub same_key : Option Text → Option Text → Bool
  same_key (some a) (some b) = text_eq a b
  same_key _ _ = false

  -- `only.weight` throws on null, and is undefined where `only` is no object.
  pub is_only_key : Value → Value → Outcome Thrown Bool
  unfolding same_key normalized
  is_only_key only expected = read_member (lit "weight") only >>= λ weight.
      read_member (lit "key") only >>= λ key.
      ok (if is_below_one weight then false else same_key (normalized key) (normalized expected))

  pub has_only_key : Value → Value → Outcome Thrown Bool
  unfolding is_only_key
  has_only_key (arr (cons only nil)) expected = is_only_key only expected
  has_only_key v expected = ok false

  pub fields_authorize : Fields → Value → Outcome Thrown Bool
  unfolding has_only_key is_empty_array
  fields_authorize auth expected =
      if is_nat 1 (get_field (lit "threshold") auth)
        && is_empty_array (get_field (lit "accounts") auth)
        && is_empty_array (get_field (lit "waits") auth)
      then has_only_key (get_field (lit "keys") auth) expected
      else ok false

  -- `authorizesExclusively`; the expected key is a text, or not.
  unfoldable pub authorizes_exclusively : Value → Value → Outcome Thrown Bool
  unfolding fields_authorize
  authorizes_exclusively (obj auth) expected = fields_authorize auth expected
  authorizes_exclusively null expected = err internal
  authorizes_exclusively v expected = ok false

-- `permissions?.find((p) => p.perm_name === name)`: undefined where there is none.
pub find_named : Text → Items → Outcome Thrown Value
find_named name nil = ok undefined
find_named name (cons p ps) = read_member (lit "perm_name") p >>= λ own. elim (is_text name own) [
  | true ↦ ok p
  | false ↦ find_named name ps
]

unfoldable pub find_permission : Text → Value → Outcome Thrown Value
unfolding find_named
find_permission name (arr ps) = find_named name ps
find_permission name undefined = ok undefined
find_permission name null = ok undefined
find_permission name v = err internal

pub data KeyAuthority : Type 0 where
  authorized : KeyAuthority
  invalid_key no_permission not_exclusive : KeyAuthority

module _ (canonical_key : Text → Option Text) where
  pub authority_of : Value → Text → Outcome Thrown KeyAuthority
  authority_of undefined expected = ok no_permission
  authority_of perm expected = read_member (lit "required_auth") perm >>= λ auth.
      authorizes_exclusively canonical_key auth (str expected) >>= λ exclusive.
      ok (if exclusive then authorized else not_exclusive)

  pub resolve_with : Option Text → Outcome Thrown Value → Text → Text → Outcome Thrown KeyAuthority
  unfolding find_permission authority_of
  resolve_with none account permission expected = ok invalid_key
  resolve_with (some key) account permission expected = account >>= λ info.
      read_member (lit "permissions") info >>= λ permissions.
      find_permission permission permissions >>= λ perm. authority_of perm expected

  -- `resolveXprKeyAuthority`, the account's answer being given.
  unfoldable pub resolve_key_authority :
      Outcome Thrown Value → Text → Text → Outcome Thrown KeyAuthority
  unfolding resolve_with
  resolve_key_authority account permission expected =
      resolve_with (canonical_key expected) account permission expected
