-- ===== src/Xpr/Decode/Actions.antt =====
-- The decoded actions against the JSON that comes in.
use signbox.Prelude.{
  &&_iff, ◌≡◌, refl, sym, ap, ◌∙◌, subst, inl, inr, true, some, List, [], ◌∷◌, arith, Option-cases,
}
use signbox.Prelude.Text.{Text, lit, text_mem}
use signbox.Prelude.Outcome.{ok, Outcome-cases}
use signbox.Value.{Value, str, arr, obj, Items, nil, cons, Fields, get_field, end, field}
use signbox.Policy.Types.{Authorization, DecodedAction}
use signbox.Xpr.Decode.{
  XprActionJson, is_name, has_only, read_authorization, read_authorizations, make_action,
  read_action_fields, read_action, cons_action, read_actions, normalize_value, normalize_fields,
  as_fields, decode_action, decode_actions,
}
use signbox.Xpr.Decode.Normalized.{Normalizes, normalize_value-Normalizes}

-- The object has no other name.
abbrev pub HasOnly : List Text → Fields → Type 0
HasOnly keys end = Unit {0}
HasOnly keys (field k v fs) = (text_mem k keys ≡ true) × HasOnly keys fs

pub has_only-HasOnly : (keys : List Text) (fs : Fields) → has_only keys fs ≡ true → HasOnly keys fs
unfolding has_only
has_only-HasOnly keys end h = tt
has_only-HasOnly keys (field k v fs) h =
    let (here, rest) = (&&_iff (text_mem k keys) (has_only keys fs)).0 h in
    (here, has_only-HasOnly keys fs rest)

-- The JSON of one authorization, by account and permission names.
pub record IsAuthorization (v : Value) (auths : List Authorization) : Type 0 where
  pub fs : Fields
  pub actor : Text
  pub permission : Text
  pub one : v ≡ arr (cons (obj fs) nil)
  pub only : HasOnly (lit "actor" ∷ lit "permission" ∷ []) fs
  pub has_actor : get_field (lit "actor") fs ≡ str actor
  pub has_permission : get_field (lit "permission") fs ≡ str permission
  pub actor_form : is_name 12 actor ≡ true
  pub permission_form : is_name 12 permission ≡ true
  pub same : auths ≡ record { account_identifier = actor; permission = permission } ∷ []

-- The JSON of an action, with its data as it stands there.
record IsActionJson (v : Value) (a : XprActionJson) : Type 0 where
  pub fs : Fields
  pub is_object : v ≡ obj fs
  pub only : HasOnly (lit "account" ∷ lit "name" ∷ lit "authorization" ∷ lit "data" ∷ []) fs
  pub account : get_field (lit "account") fs ≡ str a.account
  pub name : get_field (lit "name") fs ≡ str a.name
  pub account_form : is_name 12 a.account ≡ true
  pub name_form : is_name 13 a.name ≡ true
  pub authorization : IsAuthorization (get_field (lit "authorization") fs) a.authorization
  pub payload : get_field (lit "data") fs ≡ obj a.payload

read_authorization-IsAuthorization :
    (fs : Fields) (v w : Value) (a : Authorization)
    → HasOnly (lit "actor" ∷ lit "permission" ∷ []) fs
    → get_field (lit "actor") fs ≡ v
    → get_field (lit "permission") fs ≡ w
    → read_authorization v w ≡ some a
    → IsAuthorization (arr (cons (obj fs) nil)) (a ∷ [])
unfolding read_authorization
read_authorization-IsAuthorization fs (str s) (str t) a only e f h = record {
  fs = fs;
  actor = s;
  permission = t;
  one = refl;
  only = only;
  has_actor = e;
  has_permission = f;
  actor_form = ground arith;
  permission_form = ground arith;
  same = ground arith;
}
read_authorization-IsAuthorization fs _ _ a only e f h = absurd (cc)

read_authorizations-IsAuthorization :
    (v : Value) (auths : List Authorization)
    → read_authorizations v ≡ some auths
    → IsAuthorization v auths
unfolding read_authorizations
read_authorizations-IsAuthorization (arr (cons (obj fs) nil)) auths h =
    elim (Option-cases
      (read_authorization (get_field (lit "actor") fs) (get_field (lit "permission") fs))) [
        | inl missing ↦ absurd (ground arith)
        | inr (a, found) ↦
            let same : a ∷ [] ≡ auths = ground arith in
            subst (IsAuthorization (arr (cons (obj fs) nil))) same (
              read_authorization-IsAuthorization fs _ _ a
                (has_only-HasOnly (lit "actor" ∷ lit "permission" ∷ []) fs (ground arith)) refl refl
                found)
      ]
read_authorizations-IsAuthorization _ auths h = absurd (cc)

read_action_fields-IsActionJson :
    (fs : Fields) (account name auths payload : Value) (a : XprActionJson)
    → HasOnly (lit "account" ∷ lit "name" ∷ lit "authorization" ∷ lit "data" ∷ []) fs
    → get_field (lit "account") fs ≡ account
    → get_field (lit "name") fs ≡ name
    → get_field (lit "authorization") fs ≡ auths
    → get_field (lit "data") fs ≡ payload
    → read_action_fields account name auths payload ≡ some a
    → IsActionJson (obj fs) a
unfolding read_action_fields make_action
read_action_fields-IsActionJson fs (str account) (str name) auths (obj payload) a only e f g k h =
    elim (Option-cases (read_authorizations auths)) [
      | inl missing ↦ absurd (ground arith)
      | inr (found, read) ↦
          let same : record {
            account = account;
            name = name;
            authorization = found;
            payload = payload;
          }
              ≡ a =
            ground arith in
          subst (IsActionJson (obj fs)) same (record {
            fs = fs;
            is_object = refl;
            only = only;
            account = e;
            name = f;
            account_form = ground arith;
            name_form = ground arith;
            authorization =
                subst (λ v. IsAuthorization v found) (sym g)
                  (read_authorizations-IsAuthorization auths found read);
            payload = k;
          })
    ]
read_action_fields-IsActionJson fs _ _ auths _ a only e f g k h = absurd (cc)

read_action-IsActionJson :
    (v : Value) (a : XprActionJson) → read_action v ≡ some a → IsActionJson v a
unfolding read_action
read_action-IsActionJson (obj fs) a h =
    read_action_fields-IsActionJson fs _ _ _ _ a
      (has_only-HasOnly (lit "account" ∷ lit "name" ∷ lit "authorization" ∷ lit "data" ∷ []) fs
        (ground arith))
      refl refl refl refl (ground arith)
read_action-IsActionJson _ a h = absurd (cc)

-- The decoded action has the names and the authorization of the JSON, and its data normalized.
pub record IsActionOf (v : Value) (d : DecodedAction) : Type 0 where
  pub fs : Fields
  pub members : Fields
  pub is_object : v ≡ obj fs
  pub only : HasOnly (lit "account" ∷ lit "name" ∷ lit "authorization" ∷ lit "data" ∷ []) fs
  pub contract : get_field (lit "account") fs ≡ str d.contract
  pub action : get_field (lit "name") fs ≡ str d.action
  pub contract_form : is_name 12 d.contract ≡ true
  pub action_form : is_name 13 d.action ≡ true
  pub authorization : IsAuthorization (get_field (lit "authorization") fs) d.authorization
  pub has_data : get_field (lit "data") fs ≡ obj members
  pub normalized : Normalizes 0 (obj members) (obj d.payload)

-- One decoded action for each item, in order.
abbrev pub AreActionsOf : Items → List DecodedAction → Type 0
AreActionsOf nil [] = Unit {0}
AreActionsOf nil (d ∷ ds) = ⊥
AreActionsOf (cons v vs) [] = ⊥
AreActionsOf (cons v vs) (d ∷ ds) = IsActionOf v d × AreActionsOf vs ds

decode_action-IsActionOf :
    (v : Value) (a : XprActionJson) (d : DecodedAction)
    → IsActionJson v a
    → decode_action a ≡ ok d
    → IsActionOf v d
unfolding decode_action as_fields normalize_value
decode_action-IsActionOf v a d json h = elim (Outcome-cases (normalize_fields a.payload 1)) [
  | inl (t, failed) ↦ absurd (ground arith)
  | inr (gs, done) ↦
      let normal : normalize_value (obj a.payload) 0 ≡ ok (obj gs) = ground arith in
      let same : record {
        contract = a.account;
        action = a.name;
        authorization = a.authorization;
        payload = gs;
      }
          ≡ d =
        ground arith in
      subst (IsActionOf v) same (record {
        fs = json.fs;
        members = a.payload;
        is_object = json.is_object;
        only = json.only;
        contract = json.account;
        action = json.name;
        contract_form = json.account_form;
        action_form = json.name_form;
        authorization = json.authorization;
        has_data = json.payload;
        normalized = normalize_value-Normalizes (obj a.payload) 0 (obj gs) normal;
      })
]

pub read_actions-AreActionsOf :
    (vs : Items) (actions : List XprActionJson) (ds : List DecodedAction)
    → read_actions vs ≡ some actions
    → decode_actions actions ≡ ok ds
    → AreActionsOf vs ds
unfolding read_actions cons_action decode_actions
read_actions-AreActionsOf nil actions ds h k =
    let none_read : [] ≡ actions = ground arith in
    let same : [] ≡ ds = ground arith in subst (AreActionsOf nil) same tt
read_actions-AreActionsOf (cons v vs) actions ds h k = elim (Option-cases (read_action v)) [
  | inl missing ↦ absurd (ground arith)
  | inr (a, found) ↦ elim (Option-cases (read_actions vs)) [
    | inl missing ↦ absurd (ground arith)
    | inr (rest, e) ↦
        let all : a ∷ rest ≡ actions = ground arith in
        let decoded : decode_actions (a ∷ rest) ≡ ok ds = ap decode_actions all ∙ k in
        elim (Outcome-cases (decode_action a)) [
          | inl (t, failed) ↦ absurd (ground arith)
          | inr (d, first) ↦ elim (Outcome-cases (decode_actions rest)) [
            | inl (t, failed) ↦ absurd (ground arith)
            | inr (others, done) ↦
                let same : d ∷ others ≡ ds = ground arith in
                subst (AreActionsOf (cons v vs)) same (
                  decode_action-IsActionOf v a d (read_action-IsActionJson v a found) first,
                  read_actions-AreActionsOf vs rest others e done,
                )
          ]
        ]
  ]
]
