-- ===== src/Xpr/Decode/Shape.antt =====
-- The decoded transaction against the JSON that comes in.
use signbox.Prelude.{
  suc, ◌≤◌, ◌≡◌, refl, ap, subst, inl, inr, false, some, List, [], ◌∷◌, arith, Bool-cases,
  Option-cases, length,
}
use signbox.Prelude.Text.{Text, lit}
use signbox.Prelude.Outcome.{ok, Outcome-cases}
use signbox.Value.{Value, arr, obj, Items, Fields, get_field}
use signbox.Canonical.{canonicalize}
use signbox.Policy.Types.{ChainContext, DecodedAction, DecodedTransaction}
use signbox.Xpr.Decode.{
  XprActionJson, read_actions, up_to_16, read_array, read_transaction, decode_action,
  decode_actions, is_oversized, decode_xpr_transaction,
}
use signbox.Xpr.Decode.Actions.{HasOnly, has_only-HasOnly, AreActionsOf, read_actions-AreActionsOf}

decode_actions-length :
    (actions : List XprActionJson) (ds : List DecodedAction)
    → decode_actions actions ≡ ok ds
    → length ds ≡ length actions
unfolding decode_actions
decode_actions-length [] ds h = let same : ds ≡ [] = ground arith in rw same refl
decode_actions-length (a ∷ actions) ds h = elim (Outcome-cases (decode_action a)) [
  | inl (t, failed) ↦ absurd (ground arith)
  | inr (d, decoded) ↦ elim (Outcome-cases (decode_actions actions)) [
    | inl (t, failed) ↦ absurd (ground arith)
    | inr (rest, done) ↦
        let same : ds ≡ d ∷ rest = ground arith in
        rw same (ap suc (decode_actions-length actions rest done))
  ]
]

-- The list of actions that the input holds, which all are read.
record IsActions (input : Value) (actions : List XprActionJson) : Type 0 where
  pub fs : Fields
  pub vs : Items
  pub is_object : input ≡ obj fs
  pub only : HasOnly (lit "actions" ∷ []) fs
  pub listed : get_field (lit "actions") fs ≡ arr vs
  pub read : read_actions vs ≡ some actions
  pub some_action : 1 ≤ length actions
  pub few : length actions ≤ 16

read_array-IsActions :
    (fs : Fields) (v : Value) (actions : List XprActionJson)
    → HasOnly (lit "actions" ∷ []) fs
    → get_field (lit "actions") fs ≡ v
    → read_array v ≡ some actions
    → IsActions (obj fs) actions
unfolding read_array up_to_16
read_array-IsActions fs (arr vs) actions only e h = elim (Option-cases (read_actions vs)) [
  | inl missing ↦ absurd (ground arith)
  | inr (found, read) ↦
      let same : found ≡ actions = ground arith in
      subst (IsActions (obj fs)) same (record {
        fs = fs;
        vs = vs;
        is_object = refl;
        only = only;
        listed = e;
        read = read;
        some_action = ground arith;
        few = ground arith;
      })
]
read_array-IsActions fs _ actions only e h = absurd (cc)

read_transaction-IsActions :
    (v : Value) (actions : List XprActionJson)
    → read_transaction v ≡ some actions
    → IsActions v actions
unfolding read_transaction
read_transaction-IsActions (obj fs) actions h =
    read_array-IsActions fs _ actions (has_only-HasOnly (lit "actions" ∷ []) fs (ground arith)) refl
      (ground arith)
read_transaction-IsActions _ actions h = absurd (cc)

small_input :
    (input : Value) (s : Text)
    → is_oversized input ≡ false
    → canonicalize input ≡ ok s
    → length s ≤ 32768
unfolding is_oversized
small_input input s small e = ground arith

-- A decoded transaction, against the input.
pub record IsDecoded (input : Value) (context : ChainContext) (tx : DecodedTransaction)
    : Type 0 where
  pub fs : Fields
  pub vs : Items
  pub is_object : input ≡ obj fs
  pub only : HasOnly (lit "actions" ∷ []) fs
  pub listed : get_field (lit "actions") fs ≡ arr vs
  pub whole : AreActionsOf vs tx.actions
  pub some_action : 1 ≤ length tx.actions
  pub few : length tx.actions ≤ 16
  pub small : (s : Text) → canonicalize input ≡ ok s → length s ≤ 32768
  pub same_context : tx.context ≡ context

transaction-IsDecoded :
    (input : Value) (context : ChainContext) (actions : List XprActionJson)
    (ds : List DecodedAction)
    → is_oversized input ≡ false
    → IsActions input actions
    → decode_actions actions ≡ ok ds
    → IsDecoded input context (record { context = context; actions = ds })
transaction-IsDecoded input context actions ds small there done = record {
  fs = there.fs;
  vs = there.vs;
  is_object = there.is_object;
  only = there.only;
  listed = there.listed;
  whole = read_actions-AreActionsOf there.vs actions ds there.read done;
  some_action = omega (arith, decode_actions-length actions ds done, there.some_action);
  few = omega (arith, decode_actions-length actions ds done, there.few);
  small = λ s e. small_input input s small e;
  same_context = refl;
}

-- A transaction is decoded whole or not at all. The input is then an object of nothing but `actions`, a
-- list of 1 to 16 items, and its canonical text, if it has one, is of at most 32768 characters. The result
-- has one action for each item, in order; an item holds nothing but an account, a name, an
-- authorization and data. The action has the item's account, name and single authorization, all of
-- them well-formed names. Its data are the item's: every member in its place under a name that data may
-- have, nested at most eight levels under the data, no number infinite or NaN, each text that is an
-- amount, a blank and a symbol replaced by that quantity, and all else unchanged. Its context is the
-- given one.
pub decode_xpr_transaction-IsDecoded :
    (input : Value) (context : ChainContext) (tx : DecodedTransaction)
    → decode_xpr_transaction input context ≡ ok tx
    → IsDecoded input context tx
unfolding decode_xpr_transaction
decode_xpr_transaction-IsDecoded input context tx h = elim (Bool-cases (is_oversized input)) [
  | inl large ↦ absurd (ground arith)
  | inr small ↦ elim (Option-cases (read_transaction input)) [
    | inl missing ↦ absurd (ground arith)
    | inr (raw, found) ↦ elim (Outcome-cases (decode_actions raw)) [
      | inl (t, failed) ↦ absurd (ground arith)
      | inr (ds, done) ↦
          let same : record { context = context; actions = ds } ≡ tx = ground arith in
          subst (IsDecoded input context) same (
            transaction-IsDecoded input context raw ds small
              (read_transaction-IsActions input raw found) done)
    ]
  ]
]
