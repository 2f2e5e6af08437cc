-- ===== src/Policy/Schema.antt =====
-- src/core/policy/schema.ts: validation of a policy document. What Ajv checks of an untyped document
-- is in two parts: that it has the types and no property but those of `Policy` is the parameter
-- `read_policy`, which reads the document as a `Policy`; the bounds and patterns of the schema object
-- are `conforms`.
pub mod Valid
use signbox.Prelude.{
  ℕ, zero, suc, ◌+◌, ◌-◌, ◌*◌, ◌/◌, ◌%◌, ◌^◌, ◌≤◌, ◌<◌, max, String, ◌≡◌, refl, sym, ap, ◌∙◌, subst,
  ◌≡⟨◌⟩◌, ◌∎, fun_ext, ◌≢◌, ◌↔◌, ◌⊎◌, inl, inr, Bool, true, false, not, ◌&&◌, ◌||◌, Option, none,
  some, List, [], ◌∷◌, ◌++◌, map, append-nil, append_assoc, arith, ltb, leb, ◌==◌, if◌then◌else◌,
  ==_iff, leb_iff, &&_iff, Bool-cases, Option-cases, length, take, drop, replicate, length-append,
  length-replicate, take-append-drop, length-drop, keep, any, every, All, Any, All-append, All-map,
  every_iff, any_iff, any-false,
}
use signbox.Prelude.Text.{
  Text, lit, text_eq, text_eq_iff, text_eq_refl, starts_with, includes, split, text_mem, lookup,
  insert, lookup-insert, remove, lookup-remove,
}
use signbox.Prelude.Outcome.{Outcome, ok, err, ◌>>=◌, >>=-eq-ok, Outcome-cases, find_ok}
use signbox.Errors.{Thrown, validation}
use signbox.Asset.{AssetAmount}
use signbox.Value.{Value}
use signbox.Policy.Vocabulary.{is_rule_id}
use signbox.Policy.Types.{
  MatchValue, is, eq, lte, gte, one_of, none_of, TableRowProvider, RuleLimits, Effect, allows,
  denies, PolicyRule, Policy, PolicyDialect,
}

-- Ajv counts code points: a surrogate pair is one.
unfoldable pub code_points : Text → ℕ
code_points [] = 0
code_points (c ∷ []) = 1
code_points (c ∷ d ∷ s) =
    let pair = 1 + code_points s in
    let single = 1 + code_points (d ∷ s) in
    if leb 0xd800 c && leb c 0xdbff && leb 0xdc00 d && leb d 0xdfff then pair else single

unfoldable pub sized : ℕ → ℕ → Text → Bool
unfolding code_points
sized lo hi s = leb lo (code_points s) && leb (code_points s) hi

abbrev optional {ℓ} : {A : Type ℓ} → (A → Bool) → Option A → Bool
optional p none = true
optional p (some a) = p a

in_bounds : ℕ → ℕ → ℕ → Bool
in_bounds lo hi n = leb lo n && leb n hi

value_list : List Text → Bool
unfolding sized
value_list vs = leb 1 (length vs) && leb (length vs) 256 && every (λ v. sized 1 256 v) vs

-- `matchValueSchema`.
unfoldable pub match_value_ok : MatchValue → Bool
unfolding sized value_list
match_value_ok (is s) = sized 1 256 s
match_value_ok (eq s) = sized 1 256 s
match_value_ok (lte s) = sized 1 64 s
match_value_ok (gte s) = sized 1 64 s
match_value_ok (one_of vs) = value_list vs
match_value_ok (none_of vs) = value_list vs

is_some {ℓ} : {A : Type ℓ} → Option A → Bool
is_some none = false
is_some (some a) = true

unfoldable pub limits_ok : RuleLimits → Bool
unfolding sized in_bounds is_some
limits_ok l =
    (is_some l.max_per_transaction
      || is_some l.max_per_hour
      || is_some l.max_per_day
      || is_some l.cooldown_per_recipient_ms
      || is_some l.max_count_per_hour
      || is_some l.max_count_per_day
      || is_some l.max_count_per_recipient_per_hour)
    && optional (sized 1 64) l.max_per_transaction
    && optional (sized 1 64) l.max_per_hour
    && optional (sized 1 64) l.max_per_day
    && optional (in_bounds 0 86_400_000) l.cooldown_per_recipient_ms
    && optional (in_bounds 1 1_000_000) l.max_count_per_hour
    && optional (in_bounds 1 1_000_000) l.max_count_per_day
    && optional (in_bounds 1 1_000_000) l.max_count_per_recipient_per_hour

unfoldable pub provider_ok : PolicyDialect → TableRowProvider → Bool
unfolding sized
provider_ok dialect p =
    text_eq p.provider dialect.provider_namespace
    && sized 1 64 p.args.contract
    && optional (sized 1 64) p.args.scope
    && sized 1 64 p.args.table
    && sized 1 64 p.args.key
    && dialect.is_select_field p.select
    && sized 1 256 p.value

unfoldable pub rule_ok : PolicyDialect → PolicyRule → Bool
unfolding match_value_ok limits_ok provider_ok
rule_ok dialect r =
    is_rule_id r.id
    && leb 1 (length r.matches)
    && leb (length r.matches) 32
    && every (λ (m : Text × MatchValue). dialect.is_match_path m.0 && match_value_ok m.1) r.matches
    && optional limits_ok r.limits
    && leb (length r.providers) 8
    && every (provider_ok dialect) r.providers

-- The bounds and patterns of `policyJsonSchemaFor(dialect)`.
unfoldable pub conforms : PolicyDialect → Policy → Bool
unfolding rule_ok sized in_bounds
conforms dialect p =
    optional (in_bounds 1 64) p.max_actions_per_transaction
    && sized 1 32 p.chain_name
    && dialect.is_chain_id p.chain_id
    && leb (length p.rules) 256
    && every (rule_ok dialect) p.rules

abbrev is_deny : Effect → Bool
is_deny denies = true
is_deny allows = false

-- An asset text that must parse, if it is there.
unfoldable pub limit_parses : PolicyDialect → Option Text → Bool
limit_parses dialect none = true
limit_parses dialect (some text) = elim (dialect.parse_asset_limit text) [
  | ok _ ↦ true
  | err _ ↦ false
]

unfoldable pub limit_texts_ok : PolicyDialect → Option RuleLimits → Bool
unfolding limit_parses
limit_texts_ok dialect none = true
limit_texts_ok dialect (some l) =
    limit_parses dialect l.max_per_transaction
    && limit_parses dialect l.max_per_hour
    && limit_parses dialect l.max_per_day

-- The loop of `validatePolicy` over the rules, with the ids already seen.
unfoldable pub check_rules : PolicyDialect → List Text → List PolicyRule → Outcome Thrown (Unit {0})
unfolding is_some limit_texts_ok text_mem
check_rules dialect seen [] = ok tt
check_rules dialect seen (r ∷ rules) =
    if text_mem r.id seen
    then err validation
    else if is_deny r.effect && is_some r.limits
    then err validation
    else if not (limit_texts_ok dialect r.limits)
    then err validation
    else check_rules dialect (r.id ∷ seen) rules

check_document : PolicyDialect → Policy → Outcome Thrown Policy
unfolding check_rules conforms
check_document dialect p =
    if conforms dialect p then (check_rules dialect [] p.rules >>= λ _. ok p) else err validation

unfoldable pub validate_policy :
    (Value → Option Policy) → PolicyDialect → Value → Outcome Thrown Policy
unfolding check_document
validate_policy read_policy dialect input = elim (read_policy input) [
  | none ↦ err validation
  | some p ↦ check_document dialect p
]

-- `emptyPolicy`.
pub empty_policy : Text → Text → Policy
empty_policy chain_name chain_id = record {
  chain_name = chain_name;
  chain_id = chain_id;
  rules = [];
  max_actions_per_transaction = none;
}
