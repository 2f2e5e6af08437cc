-- ===== src/Policy/Predicates.antt =====
-- src/core/policy/engine.ts: the comparison of a value with what a rule asks for.
use signbox.Prelude.{
  suc, Bool, true, false, not, ◌&&◌, ◌||◌, List, [], ◌∷◌, leb, if◌then◌else◌, length, every,
}
use signbox.Prelude.Text.{Text, lit, text_eq, includes}
use signbox.Prelude.Outcome.{Outcome, ok, err, ◌>>=◌}
use signbox.Errors.{Thrown, ambiguous_value}
use signbox.Asset.{Sign, less, greater, compare_units, parse_bare_amount, compare_bare_amounts}
use signbox.Asset.Decimal.{is_digit, value_from}
use signbox.Value.{nat, neg, max_safe_integer, Value, undefined, null, num, str}
use signbox.Policy.Types.{
  DecodedAction, MatchValue, is, eq, lte, gte, one_of, none_of, PolicyRule, EvaluationContext,
}

pub substitute : Text → EvaluationContext → Outcome Thrown Text
substitute value ctx =
    if text_eq value (lit "$agent")
    then ok ctx.agent
    else if text_eq value (lit "$agentPermission")
    then ok ctx.agent_permission
    else if includes value (lit "$agent") || includes value (lit "$agentPermission")
    then err ambiguous_value
    else ok value

-- `/^\d+$/`.
pub is_integer_text : Text → Bool
is_integer_text s = every is_digit s && leb 1 (length s)

compare_integer : Sign → Text → Outcome Thrown Sign
compare_integer sign expected = if is_integer_text expected then ok sign else err ambiguous_value

-- A negative safe integer is below every bound, since a bound has no sign.
pub compare_ordered : Value → Text → Outcome Thrown Sign
unfolding compare_integer
compare_ordered (str actual) expected = do
  a ← parse_bare_amount actual
  b ← parse_bare_amount expected
  compare_bare_amounts a b
compare_ordered (num (nat n)) expected =
    if leb n max_safe_integer
    then compare_integer (compare_units n (value_from 0 expected)) expected
    else err ambiguous_value
compare_ordered (num (neg n)) expected =
    if leb (suc n) max_safe_integer then compare_integer less expected else err ambiguous_value
compare_ordered actual expected = err ambiguous_value

-- `typeof actual === "string" && actual === …`: the right side is not evaluated for another type.
equals_text : Value → Text → EvaluationContext → Outcome Thrown Bool
unfolding substitute
equals_text (str actual) expected ctx = do
  wanted ← substitute expected ctx
  ok (text_eq actual wanted)
equals_text actual expected ctx = ok false

-- `list.some((v) => actual === substitute(v, ctx))`, which stops at the first hit.
some_equals : Text → List Text → EvaluationContext → Outcome Thrown Bool
some_equals actual [] ctx = ok false
some_equals actual (v ∷ vs) ctx = substitute v ctx >>= λ wanted. elim (text_eq actual wanted) [
  | true ↦ ok true
  | false ↦ some_equals actual vs ctx
]

in_list : Value → List Text → EvaluationContext → Outcome Thrown Bool
unfolding some_equals
in_list (str actual) vs ctx = some_equals actual vs ctx
in_list actual vs ctx = ok false

not_in_list : Value → List Text → EvaluationContext → Outcome Thrown Bool
unfolding some_equals
not_in_list (str actual) vs ctx = do found ← some_equals actual vs ctx; ok (not found)
not_in_list actual vs ctx = ok false

at_most : Sign → Bool
at_most greater = false
at_most _ = true

at_least : Sign → Bool
at_least less = false
at_least _ = true

compare_to : (Sign → Bool) → Value → Text → Outcome Thrown Bool
compare_to test undefined bound = ok false
compare_to test null bound = ok false
compare_to test actual bound = do sign ← compare_ordered actual bound; ok (test sign)

unfoldable pub predicate_holds : Value → MatchValue → EvaluationContext → Outcome Thrown Bool
unfolding equals_text in_list not_in_list compare_to at_most at_least
predicate_holds actual (is expected) ctx = equals_text actual expected ctx
predicate_holds actual (eq expected) ctx = equals_text actual expected ctx
predicate_holds actual (one_of vs) ctx = in_list actual vs ctx
predicate_holds actual (none_of vs) ctx = not_in_list actual vs ctx
predicate_holds actual (lte bound) ctx = compare_to at_most actual bound
predicate_holds actual (gte bound) ctx = compare_to at_least actual bound

match_entries : DecodedAction → List (Text × MatchValue) → EvaluationContext → Outcome Thrown Bool
match_entries action [] ctx = ok true
match_entries action ((path, expected) ∷ rest) ctx =
    ctx.dialect.resolve_path action path >>= λ actual.
    predicate_holds actual expected ctx >>= λ holds. elim holds [
      | true ↦ match_entries action rest ctx
      | false ↦ ok false
    ]

unfoldable pub static_match : DecodedAction → PolicyRule → EvaluationContext → Outcome Thrown Bool
unfolding match_entries
static_match action rule ctx = match_entries action rule.matches ctx
