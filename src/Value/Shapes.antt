-- ===== src/Value/Shapes.antt =====
-- What a value is that a test of the source accepts.
use signbox.Prelude.{ℕ, ◌≡◌, refl, ap, true, some, arith}
use signbox.Prelude.Text.{Text, text_eq_iff}
use signbox.Value.{
  nat, neg, other, non_finite, Value, undefined, null, bool, num, str, arr, obj, nil, cons, is_text,
  is_nat, text_of, is_empty_array,
}

pub is_text-str : (t : Text) (v : Value) → is_text t v ≡ true → v ≡ str t
unfolding is_text
is_text-str t (str s) h = ap str ((text_eq_iff s t).0 h)
is_text-str t undefined h = absurd (cc (h))
is_text-str t null h = absurd (cc (h))
is_text-str t (bool b) h = absurd (cc (h))
is_text-str t (num n) h = absurd (cc (h))
is_text-str t (arr vs) h = absurd (cc (h))
is_text-str t (obj fs) h = absurd (cc (h))

pub text_of-str : (v : Value) (t : Text) → text_of v ≡ some t → v ≡ str t
unfolding text_of
text_of-str (str s) t h = cc (h)
text_of-str undefined t h = absurd (cc (h))
text_of-str null t h = absurd (cc (h))
text_of-str (bool b) t h = absurd (cc (h))
text_of-str (num n) t h = absurd (cc (h))
text_of-str (arr vs) t h = absurd (cc (h))
text_of-str (obj fs) t h = absurd (cc (h))

pub is_nat_1-num : (v : Value) → is_nat 1 v ≡ true → v ≡ num (nat 1)
unfolding is_nat
is_nat_1-num (num (nat n)) h = ap (λ (m : ℕ). num (nat m)) (ground arith)
is_nat_1-num (num (neg n)) h = absurd (cc (h))
is_nat_1-num (num (other s)) h = absurd (cc (h))
is_nat_1-num (num (non_finite s)) h = absurd (cc (h))
is_nat_1-num (str s) h = absurd (cc (h))
is_nat_1-num undefined h = absurd (cc (h))
is_nat_1-num null h = absurd (cc (h))
is_nat_1-num (bool b) h = absurd (cc (h))
is_nat_1-num (arr vs) h = absurd (cc (h))
is_nat_1-num (obj fs) h = absurd (cc (h))

pub is_empty_array-nil : (v : Value) → is_empty_array v ≡ true → v ≡ arr nil
unfolding is_empty_array
is_empty_array-nil (arr nil) h = refl
is_empty_array-nil (arr (cons v vs)) h = absurd (cc (h))
is_empty_array-nil (num n) h = absurd (cc (h))
is_empty_array-nil (str s) h = absurd (cc (h))
is_empty_array-nil undefined h = absurd (cc (h))
is_empty_array-nil null h = absurd (cc (h))
is_empty_array-nil (bool b) h = absurd (cc (h))
is_empty_array-nil (obj fs) h = absurd (cc (h))
