-- ===== src/Policy/Schema/Valid.antt =====
-- What a validated policy satisfies.
use signbox.Prelude.{
  ◌≡◌, refl, sym, ap, ◌∙◌, subst, ◌≢◌, inl, inr, true, false, Option, none, some, List, [], ◌∷◌,
  arith, Option-cases, All, Any,
}
use signbox.Prelude.Text.{Text, text_eq_iff, text_mem}
use signbox.Prelude.Outcome.{ok, Outcome-cases}
use signbox.Asset.{AssetAmount}
use signbox.Value.{Value}
use signbox.Policy.Types.{
  RuleLimits, denies, PolicyRule, Policy, PolicyDialect, Member, HasUniqueIds,
}
use signbox.Policy.Schema.{
  conforms, is_some, limit_parses, limit_texts_ok, check_rules, check_document, validate_policy,
}

-- A cap that the validator has seen parse.
abbrev pub Parses : PolicyDialect → Option Text → Type 0
Parses dialect text =
    (t : Text) → text ≡ some t → (a : AssetAmount) × (dialect.parse_asset_limit t ≡ ok a)

pub record IsValidRule (dialect : PolicyDialect) (r : PolicyRule) : Type 0 where
  pub no_deny_limits : r.effect ≡ denies → r.limits ≡ none
  pub per_transaction : (l : RuleLimits) → r.limits ≡ some l → Parses dialect l.max_per_transaction
  pub per_hour : (l : RuleLimits) → r.limits ≡ some l → Parses dialect l.max_per_hour
  pub per_day : (l : RuleLimits) → r.limits ≡ some l → Parses dialect l.max_per_day

limit_parses-Parses :
    (dialect : PolicyDialect) (text : Option Text)
    → limit_parses dialect text ≡ true
    → Parses dialect text
unfolding limit_parses
limit_parses-Parses dialect none h t e = absurd (cc)
limit_parses-Parses dialect (some s) h t e = elim (Outcome-cases (dialect.parse_asset_limit s)) [
  | inl (x, failed) ↦ absurd (ground arith)
  | inr (a, parsed) ↦ (a, ground arith)
]

limit_texts_ok-parts :
    (dialect : PolicyDialect) (limits : Option RuleLimits)
    → limit_texts_ok dialect limits ≡ true
    → (l : RuleLimits) → limits ≡ some l
    → (limit_parses dialect l.max_per_transaction ≡ true)
      × (limit_parses dialect l.max_per_hour ≡ true)
      × (limit_parses dialect l.max_per_day ≡ true)
unfolding limit_texts_ok
limit_texts_ok-parts dialect none h l e = absurd (cc)
limit_texts_ok-parts dialect (some k) h l e = ground arith

check_rules-step :
    (dialect : PolicyDialect) (seen : List Text) (r : PolicyRule) (rules : List PolicyRule)
    → check_rules dialect seen (r ∷ rules) ≡ ok tt
    → (text_mem r.id seen ≡ false)
      × (r.effect ≡ denies → r.limits ≡ none)
      × (limit_texts_ok dialect r.limits ≡ true)
      × (check_rules dialect (r.id ∷ seen) rules ≡ ok tt)
unfolding check_rules
check_rules-step dialect seen r rules h =
    (ground arith, λ e. limits_none r.limits (ground arith), ground arith, ground arith)
  where
    limits_none : (l : Option RuleLimits) → is_some l ≡ false → l ≡ none
    limits_none none h = refl
    limits_none (some l) h = absurd (unfold is_some in cc)

text_mem-All : (t : Text) (ts : List Text) → text_mem t ts ≡ false → All (λ s. s ≢ t) ts
unfolding text_mem
text_mem-All t [] h = tt
text_mem-All t (s ∷ ts) h = (λ e. ground (arith, text_eq_iff s t), text_mem-All t ts (ground arith))

-- The ids of the rules, with those already seen, are distinct.
abbrev FreshIds : List Text → List PolicyRule → Type 0
FreshIds seen [] = Unit
FreshIds seen (r ∷ rules) = All (λ s. s ≢ r.id) seen × FreshIds (r.id ∷ seen) rules

check_rules-valid :
    (dialect : PolicyDialect) (seen : List Text) (rules : List PolicyRule)
    → check_rules dialect seen rules ≡ ok tt
    → FreshIds seen rules × All (IsValidRule dialect) rules
check_rules-valid dialect seen [] h = (tt, tt)
check_rules-valid dialect seen (r ∷ rules) h =
    let (new, denied, texts, rest) = check_rules-step dialect seen r rules h in
    let (fresh, valid) = check_rules-valid dialect (r.id ∷ seen) rules rest in
    let parts = limit_texts_ok-parts dialect r.limits texts in
    (
      (text_mem-All r.id seen new, fresh),
      (
        record {
          no_deny_limits = denied;
          per_transaction = λ l e. limit_parses-Parses dialect l.max_per_transaction (parts l e).0;
          per_hour = λ l e. limit_parses-Parses dialect l.max_per_hour (parts l e).1;
          per_day = λ l e. limit_parses-Parses dialect l.max_per_day (parts l e).2;
        },
        valid,
      ),
    )

All-Any : {A : Type 0} (P : A → Type 0) (x : A) (xs : List A) → All P xs → Any (λ y. y ≡ x) xs → P x
All-Any P x [] ps m = elim m [ ]
All-Any P x (y ∷ xs) (p, ps) (inl e) = subst P e p
All-Any P x (y ∷ xs) (p, ps) (inr m) = All-Any P x xs ps m

FreshIds-seen :
    (seen : List Text) (id : Text) (rules : List PolicyRule) (s : PolicyRule)
    → Any (λ t. t ≡ id) seen
    → FreshIds seen rules
    → Member s rules
    → s.id ≢ id
FreshIds-seen seen id [] s old fresh m e = elim m [ ]
FreshIds-seen seen id (r ∷ rules) s old (new, fresh) (inl here) e =
    All-Any _ id seen new old (sym e ∙ ap (λ (x : PolicyRule). x.id) (sym here))
FreshIds-seen seen id (r ∷ rules) s old (new, fresh) (inr there) e =
    FreshIds-seen (r.id ∷ seen) id rules s (inr old) fresh there e

FreshIds-unique :
    (seen : List Text) (rules : List PolicyRule) (r s : PolicyRule)
    → FreshIds seen rules
    → Member r rules
    → Member s rules
    → r.id ≡ s.id
    → r ≡ s
FreshIds-unique seen [] r s fresh a b e = elim a [ ]
FreshIds-unique seen (x ∷ rules) r s (new, fresh) (inl a) (inl b) e = sym a ∙ b
FreshIds-unique seen (x ∷ rules) r s (new, fresh) (inl a) (inr b) e = absurd (
    FreshIds-seen (x.id ∷ seen) x.id rules s (inl refl) fresh b
      (sym e ∙ ap (λ (y : PolicyRule). y.id) (sym a)))
FreshIds-unique seen (x ∷ rules) r s (new, fresh) (inr a) (inl b) e = absurd (
    FreshIds-seen (x.id ∷ seen) x.id rules r (inl refl) fresh a
      (e ∙ ap (λ (y : PolicyRule). y.id) (sym b)))
FreshIds-unique seen (x ∷ rules) r s (new, fresh) (inr a) (inr b) e =
    FreshIds-unique (x.id ∷ seen) rules r s fresh a b e

-- What `validate_policy` promises of the document that it returns.
pub record IsValid (dialect : PolicyDialect) (p : Policy) : Type 0 where
  pub within_schema : conforms dialect p ≡ true
  pub unique_ids : HasUniqueIds p.rules
  pub valid_rules : All (IsValidRule dialect) p.rules

-- A policy that passes validation is within the schema's bounds, no two of its rules share an id, no
-- deny rule has limits, and every amount in the limits parses in the dialect.
pub validate_policy-IsValid :
    (read_policy : Value → Option Policy) (dialect : PolicyDialect) (input : Value) (p : Policy)
    → validate_policy read_policy dialect input ≡ ok p
    → IsValid dialect p
unfolding validate_policy check_document
validate_policy-IsValid read_policy dialect input p h = elim (Option-cases (read_policy input)) [
  | inl unread ↦ absurd (ground arith)
  | inr (q, read) ↦ elim (Outcome-cases (check_rules dialect [] q.rules)) [
    | inl (t, failed) ↦ absurd (ground arith)
    | inr (tt, checked) ↦
        let same : q ≡ p = ground arith in
        let (fresh, valid) = check_rules-valid dialect [] q.rules checked in
        subst (IsValid dialect) same (record {
          within_schema = ground arith;
          unique_ids = λ r s. FreshIds-unique [] q.rules r s fresh;
          valid_rules = valid;
        })
  ]
]
