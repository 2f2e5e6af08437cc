-- ===== src/Contract/History.antt =====
-- What holds of the table of policies after any sequence of transactions.
use signbox.Prelude.{
  ℕ, ◌≤◌, ◌≡◌, refl, subst, ◌⊎◌, inl, inr, some, List, [], ◌∷◌, arith, Bool-cases,
}
use signbox.Prelude.Text.{Text, text_eq, text_eq_iff, lookup, lookup-insert}
use signbox.Prelude.Outcome.{Outcome-cases}
use signbox.Contract.{PolicyRow, Policies, Host, put, Action, dispatch, kept, transact, run}
use signbox.Contract.Rows.{IsIntegral, IsUpdated, IsChange, created, updated, dispatch-IsChange}

module _ (sha256 : Text → List ℕ) where
  pub record IsSoundRow (agent : Text) (row : PolicyRow) : Type 0 where
    pub keyed : row.agent ≡ agent
    pub integral : IsIntegral sha256 row.policyjson row.policyhash
    pub positive : 1 ≤ row.version

  -- Each row stands under its agent, and its policy has the stored hash.
  pub record IsSound (policies : Policies) : Type 0 where
    pub rows :
        (agent : Text) (row : PolicyRow) (payer : Text)
        → lookup agent policies ≡ some (row, payer)
        → IsSoundRow agent row

  put-IsSound :
      (policies : Policies) (row : PolicyRow) (payer : Text)
      → IsSound policies
      → IsSoundRow row.agent row
      → IsSound (put policies row payer)
  unfolding put
  put-IsSound policies row payer h k = record {
    rows = λ agent r p e. elim (Bool-cases (text_eq row.agent agent)) [
      | inl same ↦
          let found = rw (lookup-insert row.agent agent (row, payer) policies, same) at e in
          let here : row.agent ≡ agent = ground (arith, text_eq_iff row.agent agent) in
          let this : row ≡ r = cc found in
          subst (λ x. IsSoundRow agent x) this (subst (λ a. IsSoundRow a row) here k)
      | inr other ↦
          h.rows agent r p (rw (lookup-insert row.agent agent (row, payer) policies, other) at e)
    ];
  }

  change-IsSound :
      (host : Host) (policies after : Policies)
      → IsSound policies
      → IsChange sha256 host policies after
      → IsSound after
  change-IsSound host policies _ h (created row payer c) =
      put-IsSound policies row payer h
        (record { keyed = refl; integral = c.integral; positive = omega (arith, c.first) })
  change-IsSound host policies _ h (updated agent row new payer new_payer found u) =
      let old = h.rows agent row payer found in
      put-IsSound policies new new_payer h (elim u.policy [
        | inl (version, json, hash) ↦ record {
          keyed = refl;
          integral = rw (json, hash) old.integral;
          positive = omega (arith, version, old.positive);
        }
        | inr (later, integral) ↦ record {
          keyed = refl;
          integral = integral;
          positive = omega (arith, later);
        }
      ])

  -- A transaction changes nothing or makes one change.
  pub transact-cases :
      (policies : Policies) (host : Host) (action : Action)
      → (transact sha256 policies (host, action) ≡ policies)
        ⊎ IsChange sha256 host policies (transact sha256 policies (host, action))
  unfolding transact kept
  transact-cases policies host action =
      elim (Outcome-cases (dispatch sha256 host policies action)) [
        | inl (f, failed) ↦ inl (rw failed refl)
        | inr (after, done) ↦
            inr (rw done (dispatch-IsChange sha256 host policies after action done))
      ]

  transact-IsSound :
      (policies : Policies) (host : Host) (action : Action)
      → IsSound policies
      → IsSound (transact sha256 policies (host, action))
  transact-IsSound policies host action h = elim (transact-cases policies host action) [
    | inl same ↦ rw same h
    | inr change ↦ change-IsSound host policies _ h change
  ]

  pub run_from-IsSound :
      (policies : Policies) (ts : List (Host × Action))
      → IsSound policies
      → IsSound (run sha256 policies ts)
  unfolding run
  run_from-IsSound policies [] h = h
  run_from-IsSound policies ((host, action) ∷ ts) h =
      run_from-IsSound (transact sha256 policies (host, action)) ts
        (transact-IsSound policies host action h)

  -- What becomes of a row: it stays, its version does not fall, and its policy stays as long as its
  -- version does.
  pub record IsLater (row new : PolicyRow) : Type 0 where
    pub version : row.version ≤ new.version
    pub same_policy :
        row.version ≡ new.version
        → (new.policyjson ≡ row.policyjson) × (new.policyhash ≡ row.policyhash)

  IsLater-refl : (row : PolicyRow) → IsLater row row
  IsLater-refl row = record { version = omega arith; same_policy = λ e. (refl, refl) }

  IsLater-trans : (a b c : PolicyRow) → IsLater a b → IsLater b c → IsLater a c
  IsLater-trans a b c h k = record {
    version = omega (arith, h.version, k.version);
    same_policy = λ e.
        let (json, hash) = h.same_policy (omega (arith, h.version, k.version)) in
        let (json', hash') = k.same_policy (omega (arith, h.version, k.version)) in
        (cc (json, json'), cc (hash, hash'));
  }

  Stays : Text → Policies → PolicyRow → Type 0
  Stays agent after row =
      (new : PolicyRow) × (payer : Text) × (lookup agent after ≡ some (new, payer))
      × IsLater row new

  updated-IsLater :
      (host : Host) (row new : PolicyRow) → IsUpdated sha256 host row new → IsLater row new
  updated-IsLater host row new u = elim u.policy [
    | inl (version, json, hash) ↦ record {
      version = omega (arith, version);
      same_policy = λ e. (json, hash);
    }
    | inr (later, integral) ↦ record {
      version = omega (arith, later);
      same_policy = λ e. absurd (omega (arith, later, e));
    }
  ]

  change-Stays :
      (host : Host) (policies after : Policies) (agent : Text) (row : PolicyRow) (payer : Text)
      → IsSound policies
      → lookup agent policies ≡ some (row, payer)
      → IsChange sha256 host policies after
      → Stays agent after row
  unfolding put Stays
  change-Stays host policies _ agent row payer h found (created new new_payer c) =
      elim (Bool-cases (text_eq new.agent agent)) [
        | inl same ↦
            let here : new.agent ≡ agent = ground (arith, text_eq_iff new.agent agent) in
            absurd (cc (c.absent, here, found))
        | inr other ↦ (
          row,
          payer,
          rw (lookup-insert new.agent agent (new, new_payer) policies, other) found,
          IsLater-refl row,
        )
      ]
  change-Stays host policies _ agent row payer h found
        (updated key old new old_payer new_payer there u) =
      elim (Bool-cases (text_eq new.agent agent)) [
        | inl same ↦
            let here : new.agent ≡ agent = ground (arith, text_eq_iff new.agent agent) in
            let keyed = (h.rows key old old_payer there).keyed in
            let this : key ≡ agent = cc (here, keyed, u.same_agent) in
            let that : old ≡ row = cc (there, found, this) in
            (
              new,
              new_payer,
              rw (lookup-insert new.agent agent (new, new_payer) policies, same) refl,
              subst (λ r. IsLater r new) that (updated-IsLater host old new u),
            )
        | inr other ↦ (
          row,
          payer,
          rw (lookup-insert new.agent agent (new, new_payer) policies, other) found,
          IsLater-refl row,
        )
      ]

  transact-Stays :
      (policies : Policies) (host : Host) (action : Action) (agent : Text) (row : PolicyRow)
      (payer : Text)
      → IsSound policies
      → lookup agent policies ≡ some (row, payer)
      → Stays agent (transact sha256 policies (host, action)) row
  unfolding Stays
  transact-Stays policies host action agent row payer h found =
      elim (transact-cases policies host action) [
        | inl same ↦ (row, payer, rw same found, IsLater-refl row)
        | inr change ↦ change-Stays host policies _ agent row payer h found change
      ]

  run-Stays :
      (policies : Policies) (ts : List (Host × Action)) (agent : Text) (row : PolicyRow)
      (payer : Text)
      → IsSound policies
      → lookup agent policies ≡ some (row, payer)
      → Stays agent (run sha256 policies ts) row
  unfolding run Stays
  run-Stays policies [] agent row payer h found = (row, payer, found, IsLater-refl row)
  run-Stays policies ((host, action) ∷ ts) agent row payer h found =
      let (mid, mid_payer, there, later) =
        transact-Stays policies host action agent row payer h found in
      let (new, new_payer, e, later') =
        run-Stays (transact sha256 policies (host, action)) ts agent mid mid_payer
          (transact-IsSound policies host action h) there in
      (new, new_payer, e, IsLater-trans row mid new later later')

-- Whatever transactions run on an empty table, each row stands under its agent, has a version of at
-- least 1, and holds a policy within the size bounds whose SHA-256 is the stored hash.
pub run-IsSound :
    (sha256 : Text → List ℕ) (ts : List (Host × Action)) → IsSound sha256 (run sha256 [] ts)
unfolding lookup
run-IsSound sha256 ts =
    run_from-IsSound sha256 [] ts (record { rows = λ agent row payer e. absurd (cc e) })

-- Whatever transactions follow a first sequence, an agent's row is never removed, its version never
-- falls, and as long as the version is the same the policy and its hash are.
pub run-IsLater :
    (sha256 : Text → List ℕ) (ts later_ts : List (Host × Action)) (agent : Text) (row : PolicyRow)
    (payer : Text)
    → lookup agent (run sha256 [] ts) ≡ some (row, payer)
    → (new : PolicyRow) × (new_payer : Text) × (lookup agent
          (run sha256 (run sha256 [] ts) later_ts)
        ≡ some (new, new_payer))
      × IsLater sha256 row new
unfolding Stays
run-IsLater sha256 ts later_ts agent row payer found =
    run-Stays sha256 (run sha256 [] ts) later_ts agent row payer (run-IsSound sha256 ts) found
