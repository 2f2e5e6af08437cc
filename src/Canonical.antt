-- ===== src/Canonical.antt =====
-- src/core/canonical/jcs.ts: RFC 8785 canonical JSON.
use signbox.Prelude.{
  ℕ, ◌+◌, ◌-◌, ◌/◌, ◌%◌, ◌≡◌, refl, Bool, true, false, ◌&&◌, ◌||◌, List, [], ◌∷◌, ◌++◌, map, ltb,
  leb, ◌==◌, if◌then◌else◌,
}
use signbox.Prelude.Text.{Text, lit}
use signbox.Prelude.Outcome.{Outcome, ok, err, ◌>>=◌}
use signbox.Errors.{Thrown, canonicalization}
use signbox.Value.{
  JsNumber, non_finite, Value, undefined, null, bool, num, str, arr, obj, Items, nil, cons, Fields,
  end, field, number_text,
}

hex_digit : ℕ → ℕ
hex_digit n = if ltb n 10 then b'0' + n else b'a' + (n - 10)

-- `\uXXXX`.
unicode_escape : ℕ → Text
unfolding hex_digit
unicode_escape c =
    b'\\'
    ∷ b'u'
    ∷ hex_digit (c / 4096 % 16)
    ∷ hex_digit (c / 256 % 16)
    ∷ hex_digit (c / 16 % 16)
    ∷ hex_digit (c % 16)
    ∷ []

is_lead : ℕ → Bool
is_lead c = leb 0xd800 c && leb c 0xdbff

is_trail : ℕ → Bool
is_trail c = leb 0xdc00 c && leb c 0xdfff

-- One code unit that is no part of a surrogate pair.
quote_unit : ℕ → Text
unfolding unicode_escape is_lead is_trail
quote_unit c =
    if c == b'"'
    then lit "\\\""
    else if c == b'\\'
    then lit "\\\\"
    else if c == 8
    then lit "\\b"
    else if c == 9
    then lit "\\t"
    else if c == 10
    then lit "\\n"
    else if c == 12
    then lit "\\f"
    else if c == 13
    then lit "\\r"
    else if ltb c 32 || is_lead c || is_trail c
    then unicode_escape c
    else c ∷ []

-- JSON.stringify of a string: a surrogate pair stays, a lone surrogate is escaped.
quote_units : Text → Text
unfolding quote_unit is_lead is_trail
quote_units [] = []
quote_units (c ∷ []) = quote_unit c
quote_units (c ∷ d ∷ s) =
    let pair = c ∷ d ∷ quote_units s in
    let single = quote_unit c ++ quote_units (d ∷ s) in
    if is_lead c && is_trail d then pair else single

unfoldable pub quote : Text → Text
unfolding quote_units
quote s = b'"' ∷ (quote_units s ++ (b'"' ∷ []))

-- The order of Array.prototype.sort on strings, by code units.
pub text_le : Text → Text → Bool
text_le [] t = true
text_le (c ∷ s) [] = false
text_le (c ∷ s) (d ∷ t) = ltb c d || (c == d && text_le s t)

pub insert_member : Text × Text → List (Text × Text) → List (Text × Text)
insert_member (k, v) [] = (k, v) ∷ []
insert_member (k, v) ((j, w) ∷ ms) =
    if text_le k j then (k, v) ∷ (j, w) ∷ ms else (j, w) ∷ insert_member (k, v) ms

pub sort_members : List (Text × Text) → List (Text × Text)
unfolding insert_member text_le
sort_members [] = []
sort_members (m ∷ ms) = insert_member m (sort_members ms)

unfoldable pub join : List Text → Text
join [] = []
join (s ∷ []) = s
join (s ∷ t ∷ ts) = s ++ (b',' ∷ join (t ∷ ts))

member_text : Text × Text → Text
unfolding quote
member_text (k, v) = quote k ++ (b':' ∷ v)

pub object_text : List (Text × Text) → Text
unfolding sort_members join member_text
object_text ms = b'{' ∷ (join (map member_text (sort_members ms)) ++ (b'}' ∷ []))

array_text : List Text → Text
unfolding join
array_text ts = b'[' ∷ (join ts ++ (b']' ∷ []))

-- The members of an object are written in the order of the properties and sorted afterwards; a
-- throw is the same whichever member it comes from.
unfoldable mutual
  unfolding number_text quote object_text array_text

  pub canonicalize : Value → Outcome Thrown Text
  canonicalize undefined = err canonicalization
  canonicalize null = ok (lit "null")
  canonicalize (bool b) = ok (if b then lit "true" else lit "false")
  canonicalize (num (non_finite s)) = err canonicalization
  canonicalize (num n) = ok (number_text n)
  canonicalize (str s) = ok (quote s)
  canonicalize (arr vs) = canonical_items vs >>= λ ts. ok (array_text ts)
  canonicalize (obj fs) = canonical_members fs >>= λ ms. ok (object_text ms)

  pub canonical_items : Items → Outcome Thrown (List Text)
  canonical_items nil = ok []
  canonical_items (cons undefined vs) = canonical_items vs >>= λ ts. ok (lit "null" ∷ ts)
  canonical_items (cons v vs) = canonicalize v >>= λ t. canonical_items vs >>= λ ts. ok (t ∷ ts)

  pub canonical_members : Fields → Outcome Thrown (List (Text × Text))
  canonical_members end = ok []
  canonical_members (field k undefined fs) = canonical_members fs
  canonical_members (field k v fs) =
      canonicalize v >>= λ t. canonical_members fs >>= λ ms. ok ((k, t) ∷ ms)

sorts_keys :
    canonicalize (
      obj (
        field
          (lit "b")
          (num (JsNumber.nat 1))
          (field (lit "a") (str (lit "x\"y")) (field (lit "c") undefined end))))
    ≡ ok (lit "{\"a\":\"x\\\"y\",\"b\":1}")
unfolding canonicalize
sorts_keys = refl
