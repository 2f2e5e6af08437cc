-- ===== src/Xpr/Decode/Normalized.antt =====
-- What the data of an action becomes, by a relation of its own.
use signbox.Prelude.{
  ℕ, suc, ◌≤◌, ◌≡◌, subst, inl, inr, Bool, true, arith, if◌then◌else◌, Bool-cases,
}
use signbox.Prelude.Text.{Text}
use signbox.Prelude.Outcome.{ok, err, Outcome-cases}
use signbox.Errors.{validation}
use signbox.Value.{
  JsNumber, nat, neg, other, non_finite, Value, undefined, null, bool, num, str, arr, obj, Items,
  nil, cons, Fields, end, field,
}
use signbox.Xpr.Decode.{
  too_deep, is_data_key, expand_asset_string, normalize_value, normalize_items, normalize_fields,
}
use signbox.Xpr.Decode.Assets.{IsExpanded, expand_asset_string-IsExpanded}

-- A value at a depth of the data becomes itself with its asset strings expanded: every item and every
-- member is there, in order, every name is one that data may have, and nothing is deeper than 8.
mutual
  pub data Normalizes : ℕ → Value → Value → Type 0 where
    nothing : (depth : ℕ) → depth ≤ 8 → Normalizes depth null null
    truth : (depth : ℕ) (b : Bool) → depth ≤ 8 → Normalizes depth (bool b) (bool b)
    number :
        (depth : ℕ) (n : JsNumber)
        → ((t : Text) → ¬ (n ≡ non_finite t))
        → depth ≤ 8
        → Normalizes depth (num n) (num n)
    text :
        (depth : ℕ) (s : Text) (w : Value) → IsExpanded s w → depth ≤ 8 → Normalizes depth (str s) w
    array :
        (depth : ℕ) (vs ws : Items)
        → NormalizesItems (suc depth) vs ws
        → depth ≤ 8
        → Normalizes depth (arr vs) (arr ws)
    object :
        (depth : ℕ) (fs gs : Fields)
        → NormalizesFields (suc depth) fs gs
        → depth ≤ 8
        → Normalizes depth (obj fs) (obj gs)

  pub data NormalizesItems : ℕ → Items → Items → Type 0 where
    no_items : (depth : ℕ) → NormalizesItems depth nil nil
    item :
        (depth : ℕ) (v w : Value) (vs ws : Items)
        → Normalizes depth v w
        → NormalizesItems depth vs ws
        → NormalizesItems depth (cons v vs) (cons w ws)

  pub data NormalizesFields : ℕ → Fields → Fields → Type 0 where
    no_members : (depth : ℕ) → NormalizesFields depth end end
    member :
        (depth : ℕ) (k : Text) (v w : Value) (fs gs : Fields)
        → is_data_key k ≡ true
        → Normalizes depth v w
        → NormalizesFields depth fs gs
        → NormalizesFields depth (field k v fs) (field k w gs)

number-Normalizes :
    (n : JsNumber) (depth : ℕ) (w : Value)
    → ((t : Text) → ¬ (n ≡ non_finite t))
    → (if too_deep depth then err validation else ok (num n)) ≡ ok w
    → Normalizes depth (num n) w
number-Normalizes n depth w finite h = elim (Bool-cases (too_deep depth)) [
  | inl deep ↦ absurd (ground arith)
  | inr small ↦
      let same : num n ≡ w = ground arith in
      subst (Normalizes depth (num n)) same (number depth n finite (ground arith))
]

mutual
  unfolding normalize_value normalize_items normalize_fields

  pub normalize_value-Normalizes :
      (v : Value) (depth : ℕ) (w : Value) → normalize_value v depth ≡ ok w → Normalizes depth v w
  normalize_value-Normalizes undefined depth w h = absurd (cc h)
  normalize_value-Normalizes null depth w h = elim (Bool-cases (too_deep depth)) [
    | inl deep ↦ absurd (ground arith)
    | inr small ↦
        let same : null ≡ w = ground arith in
        subst (Normalizes depth null) same (nothing depth (ground arith))
  ]
  normalize_value-Normalizes (bool b) depth w h = elim (Bool-cases (too_deep depth)) [
    | inl deep ↦ absurd (ground arith)
    | inr small ↦
        let same : bool b ≡ w = ground arith in
        subst (Normalizes depth (bool b)) same (truth depth b (ground arith))
  ]
  normalize_value-Normalizes (num (nat n)) depth w h =
      number-Normalizes (nat n) depth w (λ t e. cc e) h
  normalize_value-Normalizes (num (neg n)) depth w h =
      number-Normalizes (neg n) depth w (λ t e. cc e) h
  normalize_value-Normalizes (num (other s)) depth w h =
      number-Normalizes (other s) depth w (λ t e. cc e) h
  normalize_value-Normalizes (num (non_finite s)) depth w h = absurd (cc h)
  normalize_value-Normalizes (str s) depth w h = elim (Bool-cases (too_deep depth)) [
    | inl deep ↦ absurd (ground arith)
    | inr small ↦
        let same : expand_asset_string s ≡ w = ground arith in
        subst (Normalizes depth (str s)) same
          (text depth s (expand_asset_string s) (expand_asset_string-IsExpanded s) (ground arith))
  ]
  normalize_value-Normalizes (arr vs) depth w h =
      elim (Outcome-cases (normalize_items vs (suc depth))) [
        | inl (t, failed) ↦ absurd (ground arith)
        | inr (ws, done) ↦
            let same : arr ws ≡ w = ground arith in
            subst (Normalizes depth (arr vs)) same
              (array depth vs ws (normalize_items-Normalizes vs (suc depth) ws done) (ground arith))
      ]
  normalize_value-Normalizes (obj fs) depth w h =
      elim (Outcome-cases (normalize_fields fs (suc depth))) [
        | inl (t, failed) ↦ absurd (ground arith)
        | inr (gs, done) ↦
            let same : obj gs ≡ w = ground arith in
            subst (Normalizes depth (obj fs)) same (
              object depth fs gs (normalize_fields-Normalizes fs (suc depth) gs done)
                (ground arith))
      ]

  normalize_items-Normalizes :
      (vs : Items) (depth : ℕ) (ws : Items)
      → normalize_items vs depth ≡ ok ws
      → NormalizesItems depth vs ws
  normalize_items-Normalizes nil depth ws h =
      let same : nil ≡ ws = ground arith in subst (NormalizesItems depth nil) same (no_items depth)
  normalize_items-Normalizes (cons v vs) depth ws h =
      elim (Outcome-cases (normalize_value v depth)) [
        | inl (t, failed) ↦ absurd (ground arith)
        | inr (w, first) ↦ elim (Outcome-cases (normalize_items vs depth)) [
          | inl (t, failed) ↦ absurd (ground arith)
          | inr (rest, done) ↦
              let same : cons w rest ≡ ws = ground arith in
              subst (NormalizesItems depth (cons v vs)) same (
                item depth v w vs rest (normalize_value-Normalizes v depth w first)
                  (normalize_items-Normalizes vs depth rest done))
        ]
      ]

  normalize_fields-Normalizes :
      (fs : Fields) (depth : ℕ) (gs : Fields)
      → normalize_fields fs depth ≡ ok gs
      → NormalizesFields depth fs gs
  normalize_fields-Normalizes end depth gs h =
      let same : end ≡ gs = ground arith in
      subst (NormalizesFields depth end) same (no_members depth)
  normalize_fields-Normalizes (field k v fs) depth gs h =
      elim (Outcome-cases (normalize_value v depth)) [
        | inl (t, failed) ↦ absurd (ground arith)
        | inr (w, first) ↦ elim (Outcome-cases (normalize_fields fs depth)) [
          | inl (t, failed) ↦ absurd (ground arith)
          | inr (rest, done) ↦
              let same : field k w rest ≡ gs = ground arith in
              subst (NormalizesFields depth (field k v fs)) same (
                member depth k v w fs rest (ground arith)
                  (normalize_value-Normalizes v depth w first)
                  (normalize_fields-Normalizes fs depth rest done))
        ]
      ]
