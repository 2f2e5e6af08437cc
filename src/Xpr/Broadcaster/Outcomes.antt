-- ===== src/Xpr/Broadcaster/Outcomes.antt =====
-- What a broadcast comes to, by what the endpoint did with it.
use signbox.Prelude.{
  ℕ, ◌≡◌, ◌≢◌, refl, sym, ap, ◌⊎◌, inl, inr, true, false, not, arith, ◌||◌, ==_iff, Bool,
  Bool-cases,
}
use signbox.Prelude.Text.{Text, lit, text_eq_refl}
use signbox.Prelude.Outcome.{Outcome, ok, err}
use signbox.Value.{
  nat, neg, other, non_finite, Value, undefined, null, bool, num, str, arr, obj, Items, Fields,
  get_field, is_text, is_nat,
}
use signbox.Value.Shapes.{is_text-str}
use signbox.Daemon.State.{BroadcastOutcome, accepted, rejected, ambiguous}
use signbox.Xpr.Broadcaster.{
  get, is_object, is_undefined, is_duplicate, is_deterministic_rejection, failure, pushed,
  push_payload, broadcast_xpr,
}

-- The error of a node, `error.json.error`.
pub record HasNodeError (error : Value) (inner : Fields) : Type 0 where
  pub fs : Fields
  pub json : Fields
  pub is_object : error ≡ obj fs
  pub in_json : get_field (lit "json") fs ≡ obj json
  pub in_error : get_field (lit "error") json ≡ obj inner

-- The node says that the transaction is applied already, by the code or by the name.
abbrev pub IsApplied : Value → Type 0
IsApplied error =
    (inner : Fields) × HasNodeError error inner
    × ((get_field (lit "code") inner ≡ num (nat 3040008))
        ⊎ (get_field (lit "name") inner ≡ str (lit "tx_duplicate_exception")))

-- An error that carries a node's answer: an RpcError, or an object with `json`.
abbrev pub IsAnswered : Value → Type 0
IsAnswered error =
    (fs : Fields) × (error ≡ obj fs)
    × ((get_field (lit "name") fs ≡ str (lit "RpcError")) ⊎ (get_field (lit "json") fs ≢ undefined))

get-obj :
    (k : Text) (v w : Value)
    → get k v ≡ w
    → w ≢ undefined
    → (fs : Fields) × (v ≡ obj fs) × (get_field k fs ≡ w)
unfolding get
get-obj k undefined w e there = absurd (there (sym e))
get-obj k null w e there = absurd (there (sym e))
get-obj k (bool b) w e there = absurd (there (sym e))
get-obj k (num n) w e there = absurd (there (sym e))
get-obj k (str s) w e there = absurd (there (sym e))
get-obj k (arr vs) w e there = absurd (there (sym e))
get-obj k (obj fs) w e there = (fs, refl, e)

is_nat-num : (n : ℕ) (v : Value) → is_nat n v ≡ true → v ≡ num (nat n)
unfolding is_nat
is_nat-num n undefined h = absurd (cc (h))
is_nat-num n null h = absurd (cc (h))
is_nat-num n (bool b) h = absurd (cc (h))
is_nat-num n (num (nat m)) h = ap (λ x. num (nat x)) ((==_iff m n).0 h)
is_nat-num n (num (neg m)) h = absurd (cc (h))
is_nat-num n (num (other s)) h = absurd (cc (h))
is_nat-num n (num (non_finite s)) h = absurd (cc (h))
is_nat-num n (str s) h = absurd (cc (h))
is_nat-num n (arr vs) h = absurd (cc (h))
is_nat-num n (obj fs) h = absurd (cc (h))

-- A property of the node's error that is there.
node_error_lem :
    (error w : Value) (k : Text)
    → get k (get (lit "error") (get (lit "json") error)) ≡ w
    → w ≢ undefined
    → (inner : Fields) × HasNodeError error inner × (get_field k inner ≡ w)
node_error_lem error w k e there =
    let (inner, of_error, found) =
      get-obj k (get (lit "error") (get (lit "json") error)) w e there in
    let (json, of_json, in_error) =
      get-obj (lit "error") (get (lit "json") error) (obj inner) of_error (λ x. cc (x)) in
    let (fs, is_object, in_json) = get-obj (lit "json") error (obj json) of_json (λ x. cc (x)) in
    (
      inner,
      record {
        fs = fs;
        json = json;
        is_object = is_object;
        in_json = in_json;
        in_error = in_error;
      },
      found,
    )

duplicate-IsApplied : (error : Value) → is_duplicate error ≡ true → IsApplied error
unfolding is_duplicate
duplicate-IsApplied error h =
    let inner = get (lit "error") (get (lit "json") error) in
    elim (Bool-cases (is_nat 3040008 (get (lit "code") inner))) [
      | inl code ↦
          let (i, has, found) =
            node_error_lem error (num (nat 3040008)) (lit "code")
              (is_nat-num 3040008 (get (lit "code") inner) code) (λ x. cc (x)) in
          (i, has, inl found)
      | inr differs ↦
          let named : is_text (lit "tx_duplicate_exception") (get (lit "name") inner) ≡ true =
            rw differs at h in
          let (i, has, found) =
            node_error_lem error (str (lit "tx_duplicate_exception")) (lit "name")
              (is_text-str (lit "tx_duplicate_exception") (get (lit "name") inner) named)
              (λ x. cc (x)) in
          (i, has, inr found)
    ]

node_error-get :
    (error : Value) (inner : Fields)
    → HasNodeError error inner
    → get (lit "error") (get (lit "json") error) ≡ obj inner
unfolding get
node_error-get error inner h = simp (h.is_object, h.in_json, h.in_error)

||-true : (b : Bool) → (b || true) ≡ true
||-true true = refl
||-true false = refl

applied-is_duplicate : (error : Value) → IsApplied error → is_duplicate error ≡ true
unfolding is_duplicate get is_nat is_text
applied-is_duplicate error (inner, has, inl code) = simp (node_error-get error inner has, code)
applied-is_duplicate error (inner, has, inr named) =
    simp (node_error-get error inner has, named, text_eq_refl, ||-true)

is_undefined-undefined : (v : Value) → is_undefined v ≡ false → v ≢ undefined
unfolding is_undefined
is_undefined-undefined v h e = cc (rw e at h)

defined-is_undefined : (v : Value) → v ≢ undefined → is_undefined v ≡ false
unfolding is_undefined
defined-is_undefined undefined h = absurd (h refl)
defined-is_undefined null h = refl
defined-is_undefined (bool b) h = refl
defined-is_undefined (num n) h = refl
defined-is_undefined (str s) h = refl
defined-is_undefined (arr vs) h = refl
defined-is_undefined (obj fs) h = refl

object-IsAnswered :
    (fs : Fields)
    → (is_text (lit "RpcError") (get_field (lit "name") fs)
        || not (is_undefined (get_field (lit "json") fs)))
      ≡ true
    → IsAnswered (obj fs)
object-IsAnswered fs h = elim (Bool-cases (is_text (lit "RpcError") (get_field (lit "name") fs))) [
  | inl named ↦ (fs, refl, inl (is_text-str (lit "RpcError") _ named))
  | inr differs ↦
      let there : is_undefined (get_field (lit "json") fs) ≡ false = ground (arith, differs, h) in
      (fs, refl, inr (is_undefined-undefined _ there))
]

rejection-IsAnswered : (error : Value) → is_deterministic_rejection error ≡ true → IsAnswered error
unfolding is_deterministic_rejection is_object get is_undefined is_text
rejection-IsAnswered undefined h = absurd (cc (h))
rejection-IsAnswered null h = absurd (cc (h))
rejection-IsAnswered (bool b) h = absurd (cc (h))
rejection-IsAnswered (num n) h = absurd (cc (h))
rejection-IsAnswered (str s) h = absurd (cc (h))
rejection-IsAnswered (arr vs) h = absurd (cc (h))
rejection-IsAnswered (obj fs) h = object-IsAnswered fs h

answered-is_rejection : (error : Value) → IsAnswered error → is_deterministic_rejection error ≡ true
unfolding is_deterministic_rejection is_object get is_text
answered-is_rejection error (fs, is_obj, inl named) = simp (is_obj, named, text_eq_refl)
answered-is_rejection error (fs, is_obj, inr there) =
    simp (is_obj, defined-is_undefined (get_field (lit "json") fs) there, ||-true)

-- A payload without an array of signatures or without a text of a transaction.
abbrev pub IsMalformed : Value → Type 0
IsMalformed payload =
    ((vs : Items) → get (lit "signatures") payload ≢ arr vs)
    ⊎ ((t : Text) → get (lit "packedTransaction") payload ≢ str t)

module _ (push : Value → Text → Outcome Value Value) (payload : Value) where
  -- The payload was pushed, with this result.
  pub record IsPushed (result : Outcome Value Value) : Type 0 where
    pub signatures : Items
    pub packed : Text
    pub has_signatures : get (lit "signatures") payload ≡ arr signatures
    pub has_packed : get (lit "packedTransaction") payload ≡ str packed
    pub answer : push (arr signatures) packed ≡ result

  pub data IsOutcome (outcome : BroadcastOutcome) : Type 0 where
    unsent : (reason : Text) → IsMalformed payload → outcome ≡ rejected reason → IsOutcome outcome
    received :
        (receipt : Value) → IsPushed (ok receipt) → outcome ≡ accepted receipt → IsOutcome outcome
    applied :
        (error receipt : Value)
        → IsPushed (err error)
        → IsApplied error
        → outcome ≡ accepted receipt
        → IsOutcome outcome
    refused :
        (error : Value) (reason : Text)
        → IsPushed (err error)
        → (IsApplied error → ⊥)
        → IsAnswered error
        → outcome ≡ rejected reason
        → IsOutcome outcome
    unknown :
        (error : Value) (reason : Text)
        → IsPushed (err error)
        → (IsApplied error → ⊥)
        → (IsAnswered error → ⊥)
        → outcome ≡ ambiguous reason
        → IsOutcome outcome

  failure-IsOutcome : (error : Value) → IsPushed (err error) → IsOutcome (failure error)
  unfolding failure
  failure-IsOutcome error sent = elim (Bool-cases (is_duplicate error)) [
    | inl same ↦ rw same (applied error _ sent (duplicate-IsApplied error same) refl)
    | inr new ↦
        let unapplied : IsApplied error → ⊥ = λ a. cc (applied-is_duplicate error a, new) in
        elim (Bool-cases (is_deterministic_rejection error)) [
          | inl answered ↦
              rw (new, answered)
                (refused error _ sent unapplied (rejection-IsAnswered error answered) refl)
          | inr silent ↦
              let unanswered : IsAnswered error → ⊥ =
                λ a. cc (answered-is_rejection error a, silent) in
              rw (new, silent) (unknown error _ sent unapplied unanswered refl)
        ]
  ]

  pushed-IsOutcome : (result : Outcome Value Value) → IsPushed result → IsOutcome (pushed result)
  unfolding pushed
  pushed-IsOutcome (ok receipt) sent = received receipt sent refl
  pushed-IsOutcome (err error) sent = failure-IsOutcome error sent

  payload-IsOutcome :
      (signatures packed : Value)
      → get (lit "signatures") payload ≡ signatures
      → get (lit "packedTransaction") payload ≡ packed
      → IsOutcome (push_payload push signatures packed)
  unfolding push_payload
  payload-IsOutcome (arr signatures) (str packed) s p =
      pushed-IsOutcome (push (arr signatures) packed) (record {
        signatures = signatures;
        packed = packed;
        has_signatures = s;
        has_packed = p;
        answer = refl;
      })
  payload-IsOutcome (arr signatures) undefined s p = unsent _ (inr (λ t e. cc (p, e))) refl
  payload-IsOutcome (arr signatures) null s p = unsent _ (inr (λ t e. cc (p, e))) refl
  payload-IsOutcome (arr signatures) (bool b) s p = unsent _ (inr (λ t e. cc (p, e))) refl
  payload-IsOutcome (arr signatures) (num n) s p = unsent _ (inr (λ t e. cc (p, e))) refl
  payload-IsOutcome (arr signatures) (arr vs) s p = unsent _ (inr (λ t e. cc (p, e))) refl
  payload-IsOutcome (arr signatures) (obj fs) s p = unsent _ (inr (λ t e. cc (p, e))) refl
  payload-IsOutcome undefined packed s p = unsent _ (inl (λ vs e. cc (s, e))) refl
  payload-IsOutcome null packed s p = unsent _ (inl (λ vs e. cc (s, e))) refl
  payload-IsOutcome (bool b) packed s p = unsent _ (inl (λ vs e. cc (s, e))) refl
  payload-IsOutcome (num n) packed s p = unsent _ (inl (λ vs e. cc (s, e))) refl
  payload-IsOutcome (str t) packed s p = unsent _ (inl (λ vs e. cc (s, e))) refl
  payload-IsOutcome (obj fs) packed s p = unsent _ (inl (λ vs e. cc (s, e))) refl

-- A broadcast has one of five outcomes. A payload without an array of signatures and a text is rejected
-- unsent. Otherwise it is pushed: a receipt is accepted; an error of the node that says that the
-- transaction is applied already, by the code 3040008 or by its name, is accepted too; of the other
-- errors, those that are an RpcError or carry `json` are rejected, and the rest are ambiguous.
pub broadcast_xpr-IsOutcome :
    (push : Value → Text → Outcome Value Value) (payload : Value)
    → IsOutcome push payload (broadcast_xpr push payload)
unfolding broadcast_xpr
broadcast_xpr-IsOutcome push payload = payload-IsOutcome push payload _ _ refl refl
