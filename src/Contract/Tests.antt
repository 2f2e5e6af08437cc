-- ===== src/Contract/Tests.antt =====
-- Runs of contract/assembly on concrete transactions.
use signbox.Prelude.{ℕ, ◌≡◌, refl, true, some, List, [], ◌∷◌}
use signbox.Prelude.Text.{Text, lit, text_mem, lookup, insert}
use signbox.Prelude.Outcome.{err}
use signbox.Contract.{
  PolicyRow, Host, Action, creating, setting_policy, dispatch, run, missing_auth,
}
use signbox.Contract.History.{IsSound, IsLater, run-IsSound, run-IsLater}
use signbox.Contract.Authority.{IsSigned, transact-IsSigned}

abbrev sha : Text → List ℕ
sha t = t

abbrev signed_by : List Text → Host
signed_by names = record {
  is_account = λ name. true;
  has_auth = λ name. text_mem name names;
  now_ms = 7;
}

abbrev create_ag : Host × Action
create_ag = (
  signed_by (lit "boss" ∷ lit "ag" ∷ []),
  creating (lit "ag") (lit "boss") (lit "perm") 1 (lit "{}") (lit "{}"),
)

abbrev update_ag : Action
update_ag = setting_policy (lit "ag") 2 (lit "[]") (lit "[]")

abbrev row_at : ℕ → Text → PolicyRow
row_at version json = record {
  agent = lit "ag";
  authority = lit "boss";
  agentperm = lit "perm";
  version = version;
  policyhash = json;
  policyjson = json;
  enabled = true;
  createdat = 7;
  updatedat = 7;
}

refuses_stranger :
    dispatch sha (signed_by (lit "ag" ∷ [])) (run sha [] (create_ag ∷ [])) update_ag
    ≡ err missing_auth
unfolding dispatch run lookup insert text_mem
refuses_stranger = refl

run-IsSound_example : IsSound sha (run sha [] (create_ag ∷ []))
run-IsSound_example = run-IsSound sha (create_ag ∷ [])

run-IsLater_example :
    (new : PolicyRow) × (new_payer : Text) × (lookup
        (lit "ag")
        (run sha (run sha [] (create_ag ∷ [])) ((signed_by (lit "boss" ∷ []), update_ag) ∷ []))
      ≡ some (new, new_payer))
    × IsLater sha (row_at 1 (lit "{}")) new
unfolding run lookup insert text_mem
run-IsLater_example =
    run-IsLater sha (create_ag ∷ []) ((signed_by (lit "boss" ∷ []), update_ag) ∷ []) (lit "ag")
      (row_at 1 (lit "{}")) (lit "boss") refl

transact-IsSigned_example :
    IsSigned
      (signed_by (lit "boss" ∷ []))
      (lit "ag")
      (lookup (lit "ag") (run sha [] (create_ag ∷ [])))
      (row_at 2 (lit "[]"))
unfolding run lookup insert text_mem
transact-IsSigned_example =
    transact-IsSigned sha (create_ag ∷ []) (signed_by (lit "boss" ∷ [])) update_ag (lit "ag")
      (row_at 2 (lit "[]")) (lit "boss") (λ e. absurd (cc e)) refl
