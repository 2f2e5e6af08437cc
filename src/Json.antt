-- ===== src/Json.antt =====
-- JSON.stringify with one argument, on the values of Value: `none` is its result `undefined`.
use signbox.Prelude.{◌≡◌, refl, Option, none, some, List, [], ◌∷◌, ◌++◌, if◌then◌else◌}
use signbox.Prelude.Text.{Text, lit}
use signbox.Value.{
  nat, non_finite, Value, undefined, null, bool, num, str, arr, obj, Items, nil, cons, Fields, end,
  field, number_text,
}
use signbox.Canonical.{quote, join}

-- A member whose value is left out.
json_member : Text → Option Text → List Text → List Text
unfolding quote
json_member k none ms = ms
json_member k (some t) ms = (quote k ++ (b':' ∷ t)) ∷ ms

json_item : Option Text → Text
json_item none = lit "null"
json_item (some t) = t

unfoldable mutual
  unfolding number_text quote join json_member json_item

  pub stringify : Value → Option Text
  stringify undefined = none
  stringify null = some (lit "null")
  stringify (bool b) = some (if b then lit "true" else lit "false")
  stringify (num (non_finite s)) = some (lit "null")
  stringify (num n) = some (number_text n)
  stringify (str s) = some (quote s)
  stringify (arr vs) = some (b'[' ∷ (join (json_items vs) ++ (b']' ∷ [])))
  stringify (obj fs) = some (b'{' ∷ (join (json_members fs) ++ (b'}' ∷ [])))

  pub json_items : Items → List Text
  json_items nil = []
  json_items (cons v vs) = json_item (stringify v) ∷ json_items vs

  pub json_members : Fields → List Text
  json_members end = []
  json_members (field k v fs) = json_member k (stringify v) (json_members fs)

keeps_order :
    stringify
      (obj (field (lit "b") (num (nat 1)) (field (lit "a") undefined (field (lit "c") null end))))
    ≡ some (lit "{\"b\":1,\"c\":null}")
unfolding stringify
keeps_order = refl
