-- ===== src/Xpr/Paths.antt =====
-- The dialect's match paths against the schema's vocabulary.
use signbox.Prelude.{◌≡◌, ◌∙◌, ◌≢◌, inl, inr, true, false, Bool-cases}
use signbox.Prelude.Text.{Text, lit, text_eq, text_eq_comm, starts_with, text_mem}
use signbox.Prelude.Outcome.{ok, err, Outcome-cases}
use signbox.Errors.{Thrown}
use signbox.Value.{Value}
use signbox.Policy.Types.{DecodedAction}
use signbox.Policy.Vocabulary.{is_match_path}
use signbox.Xpr.Dialect.{resolve_path}

-- Outside the four fixed paths the vocabulary has only data paths.
starts_with_of_is_match_path :
    (path : Text)
    → is_match_path path ≡ true
    → text_eq (lit "contract") path ≡ false
    → text_eq (lit "action") path ≡ false
    → text_eq (lit "authorization.actor") path ≡ false
    → text_eq (lit "authorization.permission") path ≡ false
    → starts_with path (lit "data.") ≡ true
unfolding is_match_path text_mem
starts_with_of_is_match_path path h a b c d = elim (Bool-cases (starts_with path (lit "data."))) [
  | inl yes' ↦ yes'
  | inr none_left ↦ absurd (cc (rw (a, b, c, d, none_left) at h))
]

resolve_path-ne-err :
    (action : DecodedAction) (path : Text) (t : Thrown)
    → is_match_path path ≡ true
    → resolve_path action path ≢ err t
unfolding resolve_path
resolve_path-ne-err action path t h thrown = elim (Bool-cases (text_eq path (lit "contract"))) [
  | inl e ↦ cc (rw e at thrown)
  | inr a ↦ elim (Bool-cases (text_eq path (lit "action"))) [
    | inl e ↦ cc (rw (a, e) at thrown)
    | inr b ↦ elim (Bool-cases (text_eq path (lit "authorization.actor"))) [
      | inl e ↦ cc (rw (a, b, e) at thrown)
      | inr c ↦ elim (Bool-cases (text_eq path (lit "authorization.permission"))) [
        | inl e ↦ cc (rw (a, b, c, e) at thrown)
        | inr d ↦
            let data_path =
              starts_with_of_is_match_path path h (text_eq_comm _ path ∙ a)
                (text_eq_comm _ path ∙ b) (text_eq_comm _ path ∙ c) (text_eq_comm _ path ∙ d) in
            cc (rw (a, b, c, d, data_path) at thrown)
      ]
    ]
  ]
]

-- A path of the form that the policy schema asks of the keys of `match` resolves on every action, to a
-- value or to undefined: resolving it never throws.
pub resolve_path-total :
    (action : DecodedAction) (path : Text)
    → is_match_path path ≡ true
    → (v : Value) × (resolve_path action path ≡ ok v)
resolve_path-total action path h = elim (Outcome-cases (resolve_path action path)) [
  | inr found ↦ found
  | inl (t, thrown) ↦ absurd (resolve_path-ne-err action path t h thrown)
]
