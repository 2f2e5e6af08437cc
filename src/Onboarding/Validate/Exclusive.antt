-- ===== src/Onboarding/Validate/Exclusive.antt =====
-- What `exclusiveSingleKey` accepts.
use signbox.Prelude.{◌≡◌, refl, inl, inr, false, ◌&&◌, some, arith, Bool-cases}
use signbox.Prelude.Text.{Text, lit}
use signbox.Value.{
  nat, Value, num, str, arr, obj, nil, cons, Fields, get_field, is_nat, is_below_one,
  is_empty_array,
}
use signbox.Onboarding.Shapes.{only_key, exclusive_single_key}
use signbox.Value.Shapes.{text_of-str, is_nat_1-num, is_empty_array-nil}

-- An authority of threshold 1 with the one key, of no small weight, and nobody else.
pub record IsExclusive (v : Value) (key : Text) : Type 0 where
  pub authority : Fields
  pub only : Fields
  pub is_object : v ≡ obj authority
  pub threshold : get_field (lit "threshold") authority ≡ num (nat 1)
  pub no_accounts : get_field (lit "accounts") authority ≡ arr nil
  pub no_waits : get_field (lit "waits") authority ≡ arr nil
  pub one_key : get_field (lit "keys") authority ≡ arr (cons (obj only) nil)
  pub weight : is_below_one (get_field (lit "weight") only) ≡ false
  pub is_key : get_field (lit "key") only ≡ str key

only_key-some :
    (v : Value) (key : Text)
    → only_key v ≡ some key
    → (k : Fields) × (v ≡ arr (cons (obj k) nil))
      × (is_below_one (get_field (lit "weight") k) ≡ false)
      × (get_field (lit "key") k ≡ str key)
unfolding only_key
only_key-some (arr (cons (obj k) nil)) key h =
    elim (Bool-cases (is_below_one (get_field (lit "weight") k))) [
      | inl below ↦ absurd (cc (rw below at h))
      | inr enough ↦ (k, refl, enough, text_of-str (get_field (lit "key") k) key (rw enough at h))
    ]
only_key-some _ key h = absurd (cc (h))

pub exclusive_single_key-IsExclusive :
    (v : Value) (key : Text) → exclusive_single_key v ≡ some key → IsExclusive v key
unfolding exclusive_single_key
exclusive_single_key-IsExclusive (obj fs) key h =
    elim (Bool-cases (
      is_nat 1 (get_field (lit "threshold") fs)
      && is_empty_array (get_field (lit "accounts") fs)
      && is_empty_array (get_field (lit "waits") fs))) [
        | inr bad ↦ absurd (cc (rw bad at h))
        | inl good ↦
            let (k, one, weight, key_is) =
              only_key-some (get_field (lit "keys") fs) key (rw good at h) in
            record {
              authority = fs;
              only = k;
              is_object = refl;
              threshold = is_nat_1-num _ (ground (arith, good));
              no_accounts = is_empty_array-nil _ (ground (arith, good));
              no_waits = is_empty_array-nil _ (ground (arith, good));
              one_key = one;
              weight = weight;
              is_key = key_is;
            }
      ]
exclusive_single_key-IsExclusive _ key h = absurd (cc (h))
