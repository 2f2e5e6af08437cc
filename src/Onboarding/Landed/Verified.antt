-- ===== src/Onboarding/Landed/Verified.antt =====
-- What is on the chain when the check of the landed transaction passes.
use signbox.Prelude.{◌≡◌, ◌≢◌, refl, sym, ap, ◌∙◌, subst, inl, inr, Option, none, Bool-cases}
use signbox.Prelude.Text.{Text, lit}
use signbox.Prelude.Outcome.{Outcome, ok, err, ◌>>=◌, >>=-eq-ok}
use signbox.Errors.{Thrown}
use signbox.Value.{Value, null, str, read_member, is_text}
use signbox.Value.Shapes.{is_text-str}
use signbox.Xpr.Keyauth.{find_permission}
use signbox.Xpr.Keyauth.Controlled.{IsControlled}
use signbox.Onboarding.Landed.{
  OnboardingInput, Answers, or_empty, optional_member, active_key, first_item, row_of, or_null,
  policy_row, check_account, verify_read, verify_landed,
}
use signbox.Onboarding.Landed.Checks.{IsRow, check_owner-ok, check_permission-ok, or_empty-Controls}

-- A row under the agent's own name, the first of those that the chain answered.
pub record IsOwn (agent : Text) (answer : Outcome Thrown Value) (row : Value) : Type 0 where
  pub body : Value
  pub rows : Value
  pub answered : answer ≡ ok body
  pub listed : read_member (lit "rows") body ≡ ok rows
  pub first : row ≡ first_item rows
  pub named : optional_member (lit "agent") row ≡ ok (str agent)

row_of-IsOwn :
    (agent : Text) (body row : Value)
    → row_of agent body ≡ ok row
    → row ≢ null
    → IsOwn agent (ok body) row
unfolding row_of
row_of-IsOwn agent body row h there =
    let (rows, listed, h1) = >>=-eq-ok (read_member (lit "rows") body) _ h in
    let (name, read, h2) = >>=-eq-ok (optional_member (lit "agent") (first_item rows)) _ h1 in
    elim (Bool-cases (is_text agent name)) [
      | inr foreign ↦
          let nothing : null ≡ row = cc (rw foreign at h2) in absurd (there (sym nothing))
      | inl own ↦
          let same : first_item rows ≡ row = cc (rw own at h2) in
          let named = read ∙ ap (λ (v : Value). ok v) (is_text-str agent name own) in
          subst (IsOwn agent (ok body)) same (record {
            body = body;
            rows = rows;
            answered = refl;
            listed = listed;
            first = refl;
            named = named;
          })
    ]

or_null-IsOwn :
    (agent : Text) (body : Value) (read : Outcome Thrown Value)
    → row_of agent body ≡ read
    → or_null read ≢ null
    → IsOwn agent (ok body) (or_null read)
unfolding or_null
or_null-IsOwn agent body (err t) e there = absurd (there refl)
or_null-IsOwn agent body (ok row) e there = row_of-IsOwn agent body row e there

policy_row-IsOwn :
    (agent : Text) (answer : Outcome Thrown Value)
    → policy_row agent answer ≢ null
    → IsOwn agent answer (policy_row agent answer)
unfolding policy_row
policy_row-IsOwn agent (err t) there = absurd (there refl)
policy_row-IsOwn agent (ok body) there = or_null-IsOwn agent body (row_of agent body) refl there

-- The agent's account and the policy's row, as the check found them.
pub record IsLanded (canonical_key : Text → Option Text) (input : OnboardingInput)
    (public_key hash : Text) (answers : Answers) : Type 0 where
  pub account : Value
  pub answered : answers.agent_account ≡ ok account
  pub signs : IsControlled canonical_key account input.permission public_key
  pub authority_key : Text
  pub of_authority : (answers.authority_account >>= active_key) ≡ ok (str authority_key)
  pub owns : IsControlled canonical_key account (lit "owner") authority_key
  pub row_value : Value
  pub own : IsOwn input.agent answers.rows row_value
  pub row : IsRow input hash row_value

IsRow-there :
    (input : OnboardingInput) (hash : Text) (row : Value) → IsRow input hash row → row ≢ null
IsRow-there input hash row h e = cc (e, h.is_object)

module _ (canonical_key : Text → Option Text) where
  check_account-IsLanded :
      (input : OnboardingInput) (public_key hash : Text) (answers : Answers) (account : Value)
      → answers.agent_account ≡ ok account
      → check_account canonical_key input public_key hash answers account ≡ ok none
      → IsLanded canonical_key input public_key hash answers
  unfolding check_account
  check_account-IsLanded input public_key hash answers account e h =
      let (listed, read, h1) = >>=-eq-ok (read_member (lit "permissions") account) _ h in
      let (perm, found, h2) = >>=-eq-ok (find_permission input.permission (or_empty listed)) _ h1 in
      let (signs, owner) =
        check_permission-ok canonical_key input public_key hash (or_empty listed) _ _ perm found
          h2 in
      let (key, of_authority, owns, row) =
        check_owner-ok canonical_key input hash (or_empty listed) _ _ owner in
      let wanted = owns.exclusive.same.wanted in
      let is_key = owns.exclusive.same.is_wanted in
      record {
        account = account;
        answered = e;
        signs =
            or_empty-Controls canonical_key account listed (str public_key) input.permission
              public_key read refl signs;
        authority_key = wanted;
        of_authority = of_authority ∙ ap (λ (v : Value). ok v) is_key;
        owns =
            or_empty-Controls canonical_key account listed key (lit "owner") wanted read is_key
              owns;
        row_value = policy_row input.agent answers.rows;
        own = policy_row-IsOwn input.agent answers.rows (IsRow-there input hash _ row);
        row = row;
      }

  verify_read-IsLanded :
      (input : OnboardingInput) (public_key hash : Text) (answers : Answers)
      (found account : Outcome Thrown Value)
      → answers.agent_account ≡ account
      → verify_read canonical_key input public_key hash answers found account ≡ ok none
      → IsLanded canonical_key input public_key hash answers
  unfolding verify_read
  verify_read-IsLanded input public_key hash answers (err t) account e h = absurd (cc (h))
  verify_read-IsLanded input public_key hash answers (ok v) (err t) e h = absurd (cc (h))
  verify_read-IsLanded input public_key hash answers (ok v) (ok account) e h =
      check_account-IsLanded input public_key hash answers account e h

-- The check of a landed onboarding passes only if the agent's account has the signing permission under
-- the agent's key alone and its owner under the authority's active key alone, and the first policy row
-- that the chain answers is the agent's and names the authority, the permission and the hash of the
-- empty policy.
pub verify_landed-IsLanded :
    (canonical_key : Text → Option Text) (input : OnboardingInput) (public_key hash : Text)
    (answers : Answers)
    → verify_landed canonical_key input public_key hash answers ≡ ok none
    → IsLanded canonical_key input public_key hash answers
unfolding verify_landed
verify_landed-IsLanded canonical_key input public_key hash answers h =
    verify_read-IsLanded canonical_key input public_key hash answers answers.agent_exists
      answers.agent_account refl h
