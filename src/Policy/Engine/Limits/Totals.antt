-- ===== src/Policy/Engine/Limits/Totals.antt =====
-- What one action does to the totals per rule.
use signbox.Prelude.{
  ℕ, ◌+◌, ◌≡◌, refl, subst, ◌≢◌, ◌⊎◌, inl, inr, true, Option, none, some, List, arith,
  if◌then◌else◌, Bool-cases, Option-cases,
}
use signbox.Prelude.Text.{Text, text_eq, text_eq_iff, lookup, lookup-insert}
use signbox.Prelude.Outcome.{ok, Outcome-cases}
use signbox.Asset.{AssetAmount}
use signbox.Policy.Types.{DecodedAction, RuleLimits, PolicyRule, EvaluationContext}
use signbox.Policy.Engine.Limits.{
  Pending, RuleTotal, or_new, same_unit, add_units, charge_total, apply_limits,
}

-- What a list of totals says of a rule id.
unfoldable pub units_at : Text → List (Text × RuleTotal) → ℕ
units_at id totals = elim (lookup id totals) [ none ↦ 0 | some e ↦ e.units ]

pub add_units-units_at :
    (j id : Text) (cap : AssetAmount) (u : ℕ) (totals : List (Text × RuleTotal))
    → units_at id (add_units j cap u totals) ≡ units_at id totals + (if text_eq j id then u else 0)
unfolding units_at add_units
add_units-units_at j id cap u totals =
    let entry = or_new (lookup j totals) cap in
    ground (
      arith,
      text_eq_iff j id,
      lookup-insert j id (record { units = entry.units + u; cap = entry.cap }) totals,
    )

-- A total keeps the cap that it was opened with.
pub add_units-cap :
    (j id : Text) (cap : AssetAmount) (u : ℕ) (totals : List (Text × RuleTotal)) (e : RuleTotal)
    → lookup id (add_units j cap u totals) ≡ some e
    → ((e' : RuleTotal) × (lookup id totals ≡ some e') × (e'.cap ≡ e.cap))
      ⊎ ((j ≡ id) × (cap ≡ e.cap))
unfolding add_units
add_units-cap j id cap u totals e h =
    let entry = or_new (lookup j totals) cap in
    let law = lookup-insert j id (record { units = entry.units + u; cap = entry.cap }) totals in
    elim (Bool-cases (text_eq j id)) [
      | inr other ↦ inl (e, ground (arith, law), refl)
      | inl here ↦
          let same = (text_eq_iff j id).0 here in
          elim (Option-cases (lookup j totals)) [
            | inl fresh ↦ inr (same, ground (arith, law))
            | inr (e', old) ↦
                inl (e', subst (λ k. lookup k totals ≡ some e') same old, ground (arith, law))
          ]
    ]

pub add_units-present :
    (j id : Text) (cap : AssetAmount) (u : ℕ) (totals : List (Text × RuleTotal))
    → (j ≡ id) ⊎ (lookup id totals ≢ none)
    → lookup id (add_units j cap u totals) ≢ none
unfolding add_units
add_units-present j id cap u totals h =
    let entry = or_new (lookup j totals) cap in
    ground (
      arith,
      text_eq_iff j id,
      lookup-insert j id (record { units = entry.units + u; cap = entry.cap }) totals,
    )

-- The cap text of a rule's limits, if there is one.
pub cap_text : Option RuleLimits → Option Text
cap_text none = none
cap_text (some l) = l.max_per_transaction

module _ (ctx : EvaluationContext) (id : Text) (a : DecodedAction) where
  -- The totals get the action's units under the rule's own cap, of the same unit.
  pub record IsCharged (text : Text) (before after : List (Text × RuleTotal)) : Type 0 where
    pub asset : AssetAmount
    pub cap : AssetAmount
    pub asset_read : ctx.dialect.asset_of a ≡ ok asset
    pub cap_read : ctx.dialect.parse_asset_limit text ≡ ok cap
    pub unit : same_unit asset cap ≡ true
    pub added : after ≡ add_units id cap asset.units before

  -- What `charge_total` leaves in the totals.
  abbrev pub Charges : Option Text → List (Text × RuleTotal) → List (Text × RuleTotal) → Type 0
  Charges none before after = after ≡ before
  Charges (some text) before after = IsCharged text before after

  charge_total-Charges :
      (text : Option Text) (asset : AssetAmount) (before after : List (Text × RuleTotal))
      → ctx.dialect.asset_of a ≡ ok asset
      → charge_total ctx id text asset before ≡ ok after
      → Charges text before after
  unfolding charge_total
  charge_total-Charges none asset before after read h = ground arith
  charge_total-Charges (some text) asset before after read h =
      elim (Outcome-cases (ctx.dialect.parse_asset_limit text)) [
        | inl (e, failed) ↦ absurd (ground arith)
        | inr (cap, parsed) ↦ record {
          asset = asset;
          cap = cap;
          asset_read = read;
          cap_read = parsed;
          unit = ground arith;
          added = ground arith;
        }
      ]

  pub apply_limits-Charges :
      (r : PolicyRule) (p q : Pending) (l : Option RuleLimits)
      → r.id ≡ id
      → apply_limits ctx r a p l ≡ ok q
      → Charges (cap_text l) p.totals q.totals
  unfolding apply_limits cap_text
  apply_limits-Charges r p q none same h = ground arith
  apply_limits-Charges r p q (some l) same h = elim (Outcome-cases (ctx.dialect.asset_of a)) [
    | inl (e, failed) ↦ absurd (ground arith)
    | inr (asset, read) ↦
        elim (Outcome-cases (charge_total ctx r.id l.max_per_transaction asset p.totals)) [
          | inl (e, failed) ↦ absurd (ground arith)
          | inr (totals, charged) ↦
              let after : totals ≡ q.totals = ground arith in
              charge_total-Charges l.max_per_transaction asset p.totals q.totals read
                (rw (← same, ← after) charged)
        ]
  ]
