-- ===== src/Policy/Engine.antt =====
-- src/core/policy/engine.ts: the deterministic policy engine. A throw is an `err`; the result of
-- the function that catches it is `evaluate_policy`.
pub mod Limits
pub mod Evaluate
use signbox.Prelude.{
  ℕ, zero, suc, ◌+◌, ◌-◌, ◌*◌, ◌/◌, ◌%◌, ◌^◌, ◌≤◌, ◌<◌, max, String, ◌≡◌, refl, sym, ap, ◌∙◌, subst,
  ◌≡⟨◌⟩◌, ◌∎, fun_ext, ◌≢◌, ◌↔◌, ◌⊎◌, inl, inr, Bool, true, false, not, ◌&&◌, ◌||◌, Option, none,
  some, List, [], ◌∷◌, ◌++◌, map, append-nil, append_assoc, arith, ltb, leb, ◌==◌, if◌then◌else◌,
  ==_iff, leb_iff, &&_iff, Bool-cases, Option-cases, length, take, drop, replicate, length-append,
  length-replicate, take-append-drop, length-drop, keep, any, every, All, Any, All-append, All-map,
  every_iff, any_iff, any-false,
}
use signbox.Prelude.Text.{
  Text, lit, text_eq, text_eq_iff, text_eq_refl, starts_with, includes, split, text_mem, lookup,
  insert, lookup-insert, remove, lookup-remove,
}
use signbox.Prelude.Outcome.{Outcome, ok, err, ◌>>=◌, >>=-eq-ok, Outcome-cases, find_ok}
use signbox.Errors.{Thrown, ambiguous_value, provider_unavailable}
use signbox.Asset.{
  Sign, less, equal, greater, compare_units, parse_bare_amount, compare_bare_amounts,
}
use signbox.Asset.Decimal.{is_digit, value_from}
use signbox.Value.{
  JsNumber, nat, neg, max_safe_integer, Value, undefined, null, num, str, arr, obj, Fields, field,
  end, get_field, items, to_text,
}
use signbox.Canonical.{canonicalize}
use signbox.Policy.Types.{
  DecodedAction, DecodedTransaction, MatchValue, is, eq, lte, gte, one_of, none_of, ProviderOp,
  contains, equals, TableRowProvider, PolicyRule, Policy, QueryArgs, ProviderQuery,
  ProviderEvidence, row_found, no_row, unresolved, EvaluationContext,
}
use signbox.Policy.Predicates.{static_match}

as_string : Value → Outcome Thrown Text
as_string (str s) = ok s
as_string v = err ambiguous_value

pub substitute_arg : Text → DecodedAction → EvaluationContext → Outcome Thrown Text
unfolding as_string
substitute_arg value action ctx =
    if not (starts_with value (lit "$"))
    then ok value
    else if text_eq value (lit "$agent")
    then ok ctx.agent
    else if text_eq value (lit "$agentPermission")
    then ok ctx.agent_permission
    else (do resolved ← ctx.dialect.resolve_path action (drop 1 value); as_string resolved)

or_else : Option Text → Text → Text
or_else none d = d
or_else (some s) d = s

pub resolve_table_row_args :
    TableRowProvider → DecodedAction → EvaluationContext → Outcome Thrown QueryArgs
unfolding or_else
resolve_table_row_args req action ctx = do
  contract ← substitute_arg req.args.contract action ctx
  scope ← substitute_arg (or_else req.args.scope req.args.contract) action ctx
  table ← substitute_arg req.args.table action ctx
  key ← substitute_arg req.args.key action ctx
  ok (record { contract = contract; scope = scope; table = table; key = key })

query_value : Text → QueryArgs → Value
query_value provider args = obj (
    field (lit "provider") (str provider) (
      field (lit "args")
        (obj (
          field (lit "contract") (str args.contract) (
            field (lit "scope") (str args.scope)
              (field (lit "table") (str args.table) (field (lit "key") (str args.key) end)))))
        end))

pub evidence_key : Text → QueryArgs → Outcome Thrown Text
unfolding query_value
evidence_key provider args = canonicalize (query_value provider args)

has_key : Text → List ProviderQuery → Bool
has_key key [] = false
has_key key (q ∷ qs) = text_eq q.query_key key || has_key key qs

-- The body of the innermost loop of `collectProviderQueries`, its `catch` included.
collect_one :
    DecodedAction → EvaluationContext → List ProviderQuery → TableRowProvider → List ProviderQuery
unfolding has_key
collect_one action ctx out req =
    let args = resolve_table_row_args req action ctx in
    let query : Outcome Thrown ProviderQuery = args >>= λ a. evidence_key req.provider a >>= λ k.
    ok (record { query_key = k; provider = req.provider; args = a }) in
    elim query [ ok q ↦ if has_key q.query_key out then out else out ++ (q ∷ []) | err _ ↦ out ]

collect_reqs :
    DecodedAction
    → EvaluationContext
    → List ProviderQuery
    → List TableRowProvider
    → List ProviderQuery
unfolding collect_one
collect_reqs action ctx out [] = out
collect_reqs action ctx out (req ∷ reqs) =
    collect_reqs action ctx (collect_one action ctx out req) reqs

collect_rules :
    DecodedAction
    → EvaluationContext
    → List ProviderQuery
    → List PolicyRule
    → Outcome Thrown (List ProviderQuery)
collect_rules action ctx out [] = ok out
collect_rules action ctx out (rule ∷ rules) = elim rule.providers [
  | [] ↦ collect_rules action ctx out rules
  | _ ∷ _ ↦ static_match action rule ctx >>= λ hit.
      collect_rules action ctx (if hit then collect_reqs action ctx out rule.providers else out)
        rules
]

collect_actions :
    EvaluationContext
    → Policy
    → List ProviderQuery
    → List DecodedAction
    → Outcome Thrown (List ProviderQuery)
collect_actions ctx policy out [] = ok out
collect_actions ctx policy out (action ∷ actions) =
    collect_rules action ctx out policy.rules >>= λ out'. collect_actions ctx policy out' actions

-- The throw of `staticMatch` leaves the function; only the arguments' throws are caught.
unfoldable pub collect_provider_queries :
    DecodedTransaction → Policy → EvaluationContext → Outcome Thrown (List ProviderQuery)
unfolding collect_actions collect_rules collect_reqs
collect_provider_queries tx policy ctx = collect_actions ctx policy [] tx.actions

field_contains : Value → Text → Outcome Thrown Bool
field_contains (arr vs) target = ok (text_mem target (map to_text (items vs)))
field_contains v target = err ambiguous_value

field_equals : Value → Text → Bool
field_equals undefined target = false
field_equals null target = false
field_equals v target = text_eq (to_text v) target

row_holds : TableRowProvider → Fields → Text → Outcome Thrown Bool
unfolding field_contains field_equals
row_holds req row target = elim req.op [
  | contains ↦ field_contains (get_field req.select row) target
  | equals ↦ ok (field_equals (get_field req.select row) target)
]

-- No evidence under the key is as good as evidence that could not be resolved.
evidence_holds :
    Option ProviderEvidence
    → TableRowProvider
    → DecodedAction
    → EvaluationContext
    → Outcome Thrown Bool
unfolding row_holds
evidence_holds none req action ctx = err provider_unavailable
evidence_holds (some unresolved) req action ctx = err provider_unavailable
evidence_holds (some no_row) req action ctx = ok false
evidence_holds (some (row_found row)) req action ctx = do
  target ← substitute_arg req.value action ctx
  row_holds req row target

pub provider_holds : TableRowProvider → DecodedAction → EvaluationContext → Outcome Thrown Bool
unfolding evidence_holds
provider_holds req action ctx = do
  args ← resolve_table_row_args req action ctx
  key ← evidence_key req.provider args
  evidence_holds (lookup key ctx.evidence) req action ctx

providers_hold : List TableRowProvider → DecodedAction → EvaluationContext → Outcome Thrown Bool
providers_hold [] action ctx = ok true
providers_hold (req ∷ reqs) action ctx = provider_holds req action ctx >>= λ holds. elim holds [
  | true ↦ providers_hold reqs action ctx
  | false ↦ ok false
]

unfoldable pub rule_matches : DecodedAction → PolicyRule → EvaluationContext → Outcome Thrown Bool
unfolding providers_hold
rule_matches action rule ctx = static_match action rule ctx >>= λ hit. elim hit [
  | true ↦ providers_hold rule.providers action ctx
  | false ↦ ok false
]
