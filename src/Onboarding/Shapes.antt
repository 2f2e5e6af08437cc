-- ===== src/Onboarding/Shapes.antt =====
-- src/onboarding/validate.ts: the shapes of its input, `isAction`, `exclusiveSingleKey`, `authEquals`
-- and the pattern of a hash.
use signbox.Prelude.{
  ℕ, Bool, true, false, ◌&&◌, ◌||◌, Option, none, some, List, [], ◌∷◌, leb, ◌==◌, if◌then◌else◌,
  length, every,
}
use signbox.Prelude.Text.{Text, lit, text_eq}
use signbox.Value.{
  Value, arr, obj, Items, nil, cons, get_field, text_of, is_nat, is_below_one, is_empty_array,
}
use signbox.Onboarding.Actions.{Authorization, OnboardAction}

is_hex_digit : ℕ → Bool
is_hex_digit c = leb b'0' c && leb c b'9' || leb b'a' c && leb c b'f'

unfoldable pub is_hex64 : Text → Bool
unfolding is_hex_digit
is_hex64 s = every is_hex_digit s && (length s == 64)

-- `isAction`, with the action that it finds.
unfoldable pub make_authorization : Option Text → Option Text → Option Authorization
make_authorization (some actor) (some permission) =
    some (record { actor = actor; permission = permission })
make_authorization _ _ = none

unfoldable pub read_authorization : Value → Option Authorization
unfolding make_authorization text_of
read_authorization (obj fs) =
    make_authorization (text_of (get_field (lit "actor") fs))
      (text_of (get_field (lit "permission") fs))
read_authorization v = none

unfoldable pub cons_some : {A : Type 0} → Option A → Option (List A) → Option (List A)
cons_some (some a) (some rest) = some (a ∷ rest)
cons_some _ _ = none

unfoldable pub read_authorizations : Items → Option (List Authorization)
unfolding read_authorization cons_some
read_authorizations nil = some []
read_authorizations (cons v vs) = cons_some (read_authorization v) (read_authorizations vs)

unfoldable pub read_authorization_array : Value → Option (List Authorization)
unfolding read_authorizations
read_authorization_array (arr vs) = read_authorizations vs
read_authorization_array v = none

unfoldable pub make_action :
    Option Text → Option Text → Option (List Authorization) → Value → Option OnboardAction
make_action (some account) (some name) (some auths) (obj payload) =
    some (record { account = account; name = name; authorization = auths; payload = payload })
make_action _ _ _ _ = none

unfoldable pub read_action : Value → Option OnboardAction
unfolding make_action text_of read_authorization_array
read_action (obj fs) =
    make_action (text_of (get_field (lit "account") fs)) (text_of (get_field (lit "name") fs))
      (read_authorization_array (get_field (lit "authorization") fs)) (get_field (lit "data") fs)
read_action v = none

unfoldable pub read_actions : Items → Option (List OnboardAction)
unfolding read_action cons_some
read_actions nil = some []
read_actions (cons v vs) = cons_some (read_action v) (read_actions vs)

-- `exclusiveSingleKey`: threshold 1, one key of weight at least 1, no accounts and no waits.
unfoldable pub only_key : Value → Option Text
unfolding text_of
only_key (arr (cons (obj k) nil)) =
    if is_below_one (get_field (lit "weight") k) then none else text_of (get_field (lit "key") k)
only_key v = none

unfoldable pub exclusive_single_key : Value → Option Text
unfolding only_key is_empty_array
exclusive_single_key (obj fs) =
    if is_nat 1 (get_field (lit "threshold") fs)
      && is_empty_array (get_field (lit "accounts") fs)
      && is_empty_array (get_field (lit "waits") fs)
    then only_key (get_field (lit "keys") fs)
    else none
exclusive_single_key v = none

unfoldable pub auth_equals : List Authorization → List Authorization → Bool
auth_equals [] [] = true
auth_equals (a ∷ rest) (b ∷ bs) =
    text_eq a.actor b.actor && text_eq a.permission b.permission && auth_equals rest bs
auth_equals _ _ = false
