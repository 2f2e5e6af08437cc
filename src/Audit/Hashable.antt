-- ===== src/Audit/Hashable.antt =====
-- The fields that the chain hash covers always have a canonical form.
use signbox.Prelude.{ℕ, ◌≡◌, refl, Option, none, some, List, [], ◌∷◌}
use signbox.Prelude.Text.{Text}
use signbox.Prelude.Outcome.{Outcome, ok, ◌>>=◌}
use signbox.Value.{Value, undefined, null, bool, num, str, arr, obj, JsNumber, Fields, field}
use signbox.Canonical.{canonicalize, canonical_items, canonical_members, quote}
use signbox.Audit.{
  Entry, text_items, or_null, texts_or_null, number_or_null, broadcast_field, hashable_fields,
}

-- A result that is no throw.
unfoldable pub IsOk : {E A : Type 0} → Outcome E A → Type 0
IsOk {A = A} m = (a : A) × (m ≡ ok a)

pub IsOk-bind :
    {E A B : Type 0} (m : Outcome E A) (f : A → Outcome E B)
    → IsOk m
    → ((a : A) → IsOk (f a))
    → IsOk (m >>= f)
unfolding IsOk
IsOk-bind m f (a, e) h = rw e (h a)

text_items-IsOk : (ts : List Text) → IsOk (canonical_items (text_items ts))
unfolding text_items canonical_items IsOk
text_items-IsOk [] = ([], refl)
text_items-IsOk (t ∷ ts) = let (s, e) = text_items-IsOk ts in rw e (quote t ∷ s, refl)

texts-IsOk : (ts : List Text) → IsOk (canonicalize (arr (text_items ts)))
unfolding canonicalize IsOk
texts-IsOk ts = IsOk-bind (canonical_items (text_items ts)) _ (text_items-IsOk ts) (λ s. (_, refl))

members-IsOk :
    (k : Text) (v : Value) (fs : Fields)
    → IsOk (canonicalize v)
    → IsOk (canonical_members fs)
    → IsOk (canonical_members (field k v fs))
unfolding canonical_members IsOk
members-IsOk k undefined fs h t = t
members-IsOk k null fs h t = IsOk-bind (canonical_members fs) _ t (λ ms. (_, refl))
members-IsOk k (bool b) fs h t = IsOk-bind (canonical_members fs) _ t (λ ms. (_, refl))
members-IsOk k (num n) fs h t =
    IsOk-bind (canonicalize (num n)) _ h
      (λ s. IsOk-bind (canonical_members fs) _ t (λ ts. (_, refl)))
members-IsOk k (str s) fs h t = IsOk-bind (canonical_members fs) _ t (λ ms. (_, refl))
members-IsOk k (arr vs) fs h t =
    IsOk-bind (canonicalize (arr vs)) _ h
      (λ s. IsOk-bind (canonical_members fs) _ t (λ ts. (_, refl)))
members-IsOk k (obj ms) fs h t =
    IsOk-bind (canonicalize (obj ms)) _ h
      (λ s. IsOk-bind (canonical_members fs) _ t (λ ts. (_, refl)))

or_null-IsOk : (o : Option Text) → IsOk (canonicalize (or_null o))
unfolding or_null canonicalize IsOk
or_null-IsOk none = (_, refl)
or_null-IsOk (some t) = (_, refl)

texts_or_null-IsOk : (o : Option (List Text)) → IsOk (canonicalize (texts_or_null o))
unfolding texts_or_null canonicalize IsOk
texts_or_null-IsOk none = (_, refl)
texts_or_null-IsOk (some ts) = texts-IsOk ts

number_or_null-IsOk : (o : Option ℕ) → IsOk (canonicalize (number_or_null o))
unfolding number_or_null canonicalize IsOk
number_or_null-IsOk none = (_, refl)
number_or_null-IsOk (some n) = (_, refl)

broadcast_field-IsOk : (o : Option Text) → IsOk (canonical_members (broadcast_field o))
unfolding broadcast_field canonical_members IsOk
broadcast_field-IsOk none = (_, refl)
broadcast_field-IsOk (some t) = (_, refl)

text-IsOk : (t : Text) → IsOk (canonicalize (str t))
unfolding canonicalize IsOk
text-IsOk t = (_, refl)

number-IsOk : (n : ℕ) → IsOk (canonicalize (num (JsNumber.nat n)))
unfolding canonicalize IsOk
number-IsOk n = (_, refl)

object-IsOk : (fs : Fields) → IsOk (canonical_members fs) → IsOk (canonicalize (obj fs))
unfolding canonicalize IsOk
object-IsOk fs h = IsOk-bind (canonical_members fs) _ h (λ ms. (_, refl))

pub hashable_fields-IsOk :
    (seq : ℕ) (prev_hash : Text) (e : Entry) → IsOk (canonicalize (hashable_fields seq prev_hash e))
unfolding hashable_fields
hashable_fields-IsOk seq prev_hash e = object-IsOk _ (
    members-IsOk _ _ _ (number-IsOk seq) (
      members-IsOk _ _ _ (text-IsOk prev_hash) (
        members-IsOk _ _ _ (text-IsOk e.request_id) (
          members-IsOk _ _ _ (text-IsOk e.agent) (
            members-IsOk _ _ _ (text-IsOk e.decision) (
              members-IsOk _ _ _ (or_null-IsOk e.code) (
                members-IsOk _ _ _ (texts_or_null-IsOk e.rule_ids) (
                  members-IsOk _ _ _ (number_or_null-IsOk e.policy_version) (
                    members-IsOk _ _ _ (texts-IsOk e.contracts) (
                      members-IsOk _ _ _ (or_null-IsOk e.digest) (
                        members-IsOk _ _ _ (number-IsOk e.timestamp_ms)
                          (broadcast_field-IsOk e.broadcast))))))))))))
