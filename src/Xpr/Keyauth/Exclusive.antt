-- ===== src/Xpr/Keyauth/Exclusive.antt =====
-- What an authority that the rule accepts consists of.
use signbox.Prelude.{◌≡◌, refl, inl, inr, true, false, ◌&&◌, Option, none, some, arith, Bool-cases}
use signbox.Prelude.Text.{Text, lit, text_eq_iff}
use signbox.Prelude.Outcome.{ok, >>=-eq-ok}
use signbox.Value.{
  nat, Value, undefined, null, bool, num, str, arr, obj, nil, cons, Fields, get_field, read_member,
  is_nat, is_below_one, is_empty_array,
}
use signbox.Value.Shapes.{is_nat_1-num, is_empty_array-nil}
use signbox.Xpr.Keyauth.{
  normalized, same_key, is_only_key, has_only_key, fields_authorize, authorizes_exclusively,
}

module _ (canonical_key : Text → Option Text) where
  -- Two texts of one key.
  pub record IsSameKey (v expected : Value) : Type 0 where
    pub own : Text
    pub wanted : Text
    pub key : Text
    pub is_own : v ≡ str own
    pub is_wanted : expected ≡ str wanted
    pub own_key : canonical_key own ≡ some key
    pub wanted_key : canonical_key wanted ≡ some key

  -- An authority of threshold 1, of exactly the expected key, with no accounts and no waits.
  pub record IsExclusive (v expected : Value) : Type 0 where
    pub authority : Fields
    pub only : Value
    pub key : Value
    pub weight : Value
    pub is_object : v ≡ obj authority
    pub threshold : get_field (lit "threshold") authority ≡ num (nat 1)
    pub no_accounts : get_field (lit "accounts") authority ≡ arr nil
    pub no_waits : get_field (lit "waits") authority ≡ arr nil
    pub one_key : get_field (lit "keys") authority ≡ arr (cons only nil)
    pub its_weight : read_member (lit "weight") only ≡ ok weight
    pub enough : is_below_one weight ≡ false
    pub its_key : read_member (lit "key") only ≡ ok key
    pub same : IsSameKey key expected

  normalized-str :
      (v : Value) (key : Text)
      → normalized canonical_key v ≡ some key
      → (s : Text) × (v ≡ str s) × (canonical_key s ≡ some key)
  unfolding normalized
  normalized-str (str s) key h = (s, refl, h)
  normalized-str undefined key h = absurd (cc (h))
  normalized-str null key h = absurd (cc (h))
  normalized-str (bool b) key h = absurd (cc (h))
  normalized-str (num n) key h = absurd (cc (h))
  normalized-str (arr vs) key h = absurd (cc (h))
  normalized-str (obj fs) key h = absurd (cc (h))

  same_key-some :
      (a b : Option Text)
      → same_key canonical_key a b ≡ true
      → (key : Text) × (a ≡ some key) × (b ≡ some key)
  unfolding same_key
  same_key-some (some a) (some b) h = let e = (text_eq_iff a b).0 h in (b, cc (e), refl)
  same_key-some (some a) none h = absurd (cc (h))
  same_key-some none b h = absurd (cc (h))

  same_key-IsSameKey :
      (v expected : Value)
      → same_key canonical_key (normalized canonical_key v) (normalized canonical_key expected)
        ≡ true
      → IsSameKey v expected
  same_key-IsSameKey v expected h =
      let (key, a, b) = same_key-some _ _ h in
      let (own, is_own, own_key) = normalized-str v key a in
      let (wanted, is_wanted, wanted_key) = normalized-str expected key b in
      record {
        own = own;
        wanted = wanted;
        key = key;
        is_own = is_own;
        is_wanted = is_wanted;
        own_key = own_key;
        wanted_key = wanted_key;
      }

  is_only_key-same :
      (only expected : Value)
      → is_only_key canonical_key only expected ≡ ok true
      → (weight key : Value) × (read_member (lit "weight") only ≡ ok weight)
        × (is_below_one weight ≡ false)
        × (read_member (lit "key") only ≡ ok key)
        × IsSameKey key expected
  unfolding is_only_key
  is_only_key-same only expected h =
      let (weight, w, h1) = >>=-eq-ok (read_member (lit "weight") only) _ h in
      let (key, k, h2) = >>=-eq-ok (read_member (lit "key") only) _ h1 in
      elim (Bool-cases (is_below_one weight)) [
        | inl below ↦ absurd (cc (rw below at h2))
        | inr enough ↦
            let same : same_key canonical_key (normalized canonical_key key)
                  (normalized canonical_key expected)
                ≡ true =
              cc (rw enough at h2) in
            (weight, key, w, enough, k, same_key-IsSameKey key expected same)
      ]

  has_only_key-same :
      (keys expected : Value)
      → has_only_key canonical_key keys expected ≡ ok true
      → (only : Value) × (keys ≡ arr (cons only nil))
        × (is_only_key canonical_key only expected ≡ ok true)
  unfolding has_only_key
  has_only_key-same (arr (cons only nil)) expected h = (only, refl, h)
  has_only_key-same _ expected h = absurd (cc (h))

  pub authorizes_exclusively-IsExclusive :
      (v expected : Value)
      → authorizes_exclusively canonical_key v expected ≡ ok true
      → IsExclusive v expected
  unfolding authorizes_exclusively fields_authorize
  authorizes_exclusively-IsExclusive (obj fs) expected h =
      elim (Bool-cases (
        is_nat 1 (get_field (lit "threshold") fs)
        && is_empty_array (get_field (lit "accounts") fs)
        && is_empty_array (get_field (lit "waits") fs))) [
          | inr bad ↦ absurd (cc (rw bad at h))
          | inl good ↦
              let (only, one, held) = has_only_key-same _ expected (rw good at h) in
              let (weight, key, w, enough, k, same) = is_only_key-same only expected held in
              record {
                authority = fs;
                only = only;
                key = key;
                weight = weight;
                is_object = refl;
                threshold = is_nat_1-num _ (ground (arith, good));
                no_accounts = is_empty_array-nil _ (ground (arith, good));
                no_waits = is_empty_array-nil _ (ground (arith, good));
                one_key = one;
                its_weight = w;
                enough = enough;
                its_key = k;
                same = same;
              }
        ]
  authorizes_exclusively-IsExclusive null expected h = absurd (cc (h))
  authorizes_exclusively-IsExclusive _ expected h = absurd (cc (h))
