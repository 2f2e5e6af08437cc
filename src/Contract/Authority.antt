-- ===== src/Contract/Authority.antt =====
-- Who can change an agent's row.
use signbox.Prelude.{
  ℕ, ◌≡◌, refl, ap, subst, ◌≢◌, ◌⊎◌, inl, inr, true, Option, none, some, List, [], arith,
  Bool-cases,
}
use signbox.Prelude.Text.{Text, text_eq, text_eq_iff, lookup, lookup-insert}
use signbox.Contract.{PolicyRow, Policies, Host, put, Action, transact, run}
use signbox.Contract.Rows.{IsChange, created, updated}
use signbox.Contract.History.{IsSound, run-IsSound, transact-cases}

-- The signatures behind a change of an agent's row: the agent's own and the new authority's for the
-- first row; the old authority's afterwards, and a new authority's own.
pub IsSigned : Host → Text → Option (PolicyRow × Text) → PolicyRow → Type 0
IsSigned host agent none new = (host.has_auth agent ≡ true) × (host.has_auth new.authority ≡ true)
IsSigned host agent (some (row, payer)) new =
    (host.has_auth row.authority ≡ true)
    × ((new.authority ≡ row.authority) ⊎ (host.has_auth new.authority ≡ true))

module _ (sha256 : Text → List ℕ) where
  change-IsSigned :
      (host : Host) (before after : Policies) (agent : Text) (new : PolicyRow) (payer : Text)
      → IsSound sha256 before
      → IsChange sha256 host before after
      → lookup agent after ≢ lookup agent before
      → lookup agent after ≡ some (new, payer)
      → IsSigned host agent (lookup agent before) new
  unfolding put IsSigned
  change-IsSigned host before _ agent new payer h (created row row_payer c) changed e =
      elim (Bool-cases (text_eq row.agent agent)) [
        | inl same ↦
            let here : row.agent ≡ agent = ground (arith, text_eq_iff row.agent agent) in
            let this : row ≡ new =
              cc (rw (lookup-insert row.agent agent (row, row_payer) before, same) at e) in
            rw (subst (λ a. lookup a before ≡ none) here c.absent) (
              subst (λ a. host.has_auth a ≡ true) here c.by_agent,
              subst (λ r. host.has_auth r.authority ≡ true) this c.by_authority,
            )
        | inr other ↦
            absurd
              (changed (rw (lookup-insert row.agent agent (row, row_payer) before, other) refl))
      ]
  change-IsSigned host before _ agent new payer h (updated key old row old_payer row_payer there u)
        changed e =
      elim (Bool-cases (text_eq row.agent agent)) [
        | inl same ↦
            let here : row.agent ≡ agent = ground (arith, text_eq_iff row.agent agent) in
            let keyed = (h.rows key old old_payer there).keyed in
            let that : key ≡ agent = cc (here, keyed, u.same_agent) in
            let this : row ≡ new =
              cc (rw (lookup-insert row.agent agent (row, row_payer) before, same) at e) in
            rw (subst (λ a. lookup a before ≡ some (old, old_payer)) that there) (
              u.by_authority,
              subst (λ r. (r.authority ≡ old.authority) ⊎ (host.has_auth r.authority ≡ true)) this
                  u.accepted,
            )
        | inr other ↦
            absurd
              (changed (rw (lookup-insert row.agent agent (row, row_payer) before, other) refl))
      ]

-- After any transactions on an empty table, a transaction that changes an agent's row to another one
-- carries the signatures for it: for the first row, those of the agent and of the row's authority;
-- for a later one, that of the authority before it and, where it names another authority, of that.
pub transact-IsSigned :
    (sha256 : Text → List ℕ) (ts : List (Host × Action)) (host : Host) (action : Action)
    (agent : Text) (new : PolicyRow) (payer : Text)
    → lookup agent (transact sha256 (run sha256 [] ts) (host, action))
      ≢ lookup agent (run sha256 [] ts)
    → lookup agent (transact sha256 (run sha256 [] ts) (host, action)) ≡ some (new, payer)
    → IsSigned host agent (lookup agent (run sha256 [] ts)) new
transact-IsSigned sha256 ts host action agent new payer changed e =
    elim (transact-cases sha256 (run sha256 [] ts) host action) [
      | inl same ↦ absurd (changed (ap (λ p. lookup agent p) same))
      | inr change ↦
          change-IsSigned sha256 host (run sha256 [] ts) _ agent new payer (run-IsSound sha256 ts)
            change changed e
    ]
