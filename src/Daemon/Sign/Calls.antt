-- ===== src/Daemon/Sign/Calls.antt =====
-- What must hold before the signer is called.
use signbox.Prelude.{
  ℕ, ◌≡◌, refl, sym, ◌∙◌, subst, ◌⊎◌, inl, inr, Bool, true, false, Option, some, List, ◌∷◌,
  Bool-cases,
}
use signbox.Prelude.Text.{Text}
use signbox.Prelude.Outcome.{Outcome, ok, err}
use signbox.Errors.{Thrown}
use signbox.Policy.Types.{DecodedTransaction, DenyCode, Decision, allow, deny, EvaluationResult}
use signbox.NonceCache.{NonceState, fresh, replayed, full, register}
use signbox.Daemon.Keys.{check_local_identity}
use signbox.Daemon.State.{
  KeyHandle, AgentRuntime, SignRequest, Config, Dependencies, Readings, Daemon, AuditContext,
}
use signbox.Daemon.Gates.{gates, same_chain, IsAdmitted, gates-IsAdmitted}
use signbox.Daemon.Sign.{
  ActivePolicy, reserve_demands, by_decision, evaluate, after_evaluation, after_key,
  check_authority, after_decode, after_policy, load_policy, after_nonce, registered, after_gates,
  run_parsed,
}
use signbox.Daemon.Submit.{refuse, after_reservation}
use signbox.Daemon.Sign.Stores.{
  IgnoresStores, reserve_kept, authority_kept, load_kept, signing_kept,
}

-- The signer is not called, or once, on a transaction of which `P` holds.
abbrev pub Calls :
    (DecodedTransaction → Type 0)
    → KeyHandle
    → List (DecodedTransaction × KeyHandle)
    → List (DecodedTransaction × KeyHandle)
    → Type 0
Calls P key before after =
    (after ≡ before) ⊎ ((tx : DecodedTransaction) × P tx × (after ≡ (tx, key) ∷ before))

signed_calls-IgnoresStores : IgnoresStores (λ (d : Daemon). d.signed_calls)
signed_calls-IgnoresStores = record {
  policies = λ d x. refl;
  keys = λ d x. refl;
  journal = λ d x. refl;
}

module _ (cfg : Config) (deps : Dependencies) (readings : Readings) (request : SignRequest) where
  -- The engine allows the transaction, and its demands are reserved.
  pub record IsApproved (daemon : Daemon) (runtime : AgentRuntime) (active : ActivePolicy)
      (tx : DecodedTransaction) : Type 0 where
    pub result : EvaluationResult
    pub rule_ids : List Text
    pub version : ℕ
    pub reservation : Option Text
    pub evaluated : evaluate cfg deps readings request runtime active tx ≡ ok result
    pub allowed : result.decision ≡ allow rule_ids version
    pub reserved :
        (reserve_demands cfg deps readings request daemon runtime result.quota_demands).1
        ≡ ok reservation

  -- The request's transaction is the agent's own, and the key is authorized.
  pub record IsBound (daemon : Daemon) (runtime : AgentRuntime) (active : ActivePolicy)
      (tx : DecodedTransaction) : Type 0 where
    pub decoded : deps.decode request.transaction runtime.chain ≡ ok tx
    pub own : check_local_identity tx runtime.agent active.permission ≡ true
    pub key_authorized :
        (check_authority cfg deps readings request daemon runtime active daemon.keys).1 ≡ true
    pub approved :
        IsApproved
          (check_authority cfg deps readings request daemon runtime active daemon.keys).0
          runtime
          active
          tx

  reservation-Calls :
      (ctx : AuditContext) (runtime : AgentRuntime) (tx : DecodedTransaction) (version : ℕ)
      (held : Daemon × Outcome DenyCode (Option Text))
      → Calls
          (λ t. (t ≡ tx) × (reservation : Option Text) × (held.1 ≡ ok reservation))
          runtime.key
          held.0.signed_calls
          (after_reservation cfg deps readings request ctx runtime tx version held).0.signed_calls
  unfolding after_reservation refuse
  reservation-Calls ctx runtime tx version (daemon, err code) = inl refl
  reservation-Calls ctx runtime tx version (daemon, ok reservation) = inr (
    tx,
    (refl, reservation, refl),
    signing_kept cfg deps readings request (λ d. d.signed_calls) signed_calls-IgnoresStores
        (λ d x. refl) (record daemon { signed_calls = (tx, runtime.key) ∷ daemon.signed_calls }) ctx
        runtime.agent version reservation (deps.sign tx runtime.key),
  )

  decision-Calls :
      (daemon : Daemon) (ctx : AuditContext) (runtime : AgentRuntime) (active : ActivePolicy)
      (tx : DecodedTransaction) (r : EvaluationResult) (d : Decision)
      → evaluate cfg deps readings request runtime active tx ≡ ok r
      → r.decision ≡ d
      → Calls
          (λ t. (t ≡ tx) × IsApproved daemon runtime active t)
          runtime.key
          daemon.signed_calls
          (by_decision cfg deps readings request daemon ctx runtime tx r.quota_demands
            d).0.signed_calls
  unfolding by_decision refuse
  decision-Calls daemon ctx runtime active tx r (deny code version) e h = inl refl
  decision-Calls daemon ctx runtime active tx r (allow ids version) e h =
      let kept =
        reserve_kept cfg deps readings request (λ d. d.signed_calls) signed_calls-IgnoresStores
          daemon runtime r.quota_demands in
      elim (reservation-Calls (record ctx { rule_ids = some ids }) runtime tx version
        (reserve_demands cfg deps readings request daemon runtime r.quota_demands)) [
          | inl same ↦ inl (same ∙ kept)
          | inr (t, (same, reservation, held), grew) ↦ inr (
            tx,
            (
              refl,
              record {
                result = r;
                rule_ids = ids;
                version = version;
                reservation = reservation;
                evaluated = e;
                allowed = h;
                reserved = held;
              },
            ),
            cc (grew, same, kept),
          )
        ]

  evaluation-Calls :
      (daemon : Daemon) (ctx : AuditContext) (runtime : AgentRuntime) (active : ActivePolicy)
      (tx : DecodedTransaction) (o : Outcome Thrown EvaluationResult)
      → evaluate cfg deps readings request runtime active tx ≡ o
      → Calls
          (λ t. (t ≡ tx) × IsApproved daemon runtime active t)
          runtime.key
          daemon.signed_calls
          (after_evaluation cfg deps readings request daemon ctx runtime tx o).0.signed_calls
  unfolding after_evaluation refuse
  evaluation-Calls daemon ctx runtime active tx (err t) e = inl refl
  evaluation-Calls daemon ctx runtime active tx (ok r) e =
      decision-Calls daemon ctx runtime active tx r r.decision e refl

  -- A call on a transaction that one property gives, seen from a state with the same calls.
  Calls-map :
      (key : KeyHandle) (P Q : DecodedTransaction → Type 0)
      (before mid after : List (DecodedTransaction × KeyHandle))
      → mid ≡ before
      → ((tx : DecodedTransaction) → P tx → Q tx)
      → Calls P key mid after
      → Calls Q key before after
  Calls-map key P Q before mid after same f (inl h) = inl (h ∙ same)
  Calls-map key P Q before mid after same f (inr (tx, p, h)) = inr (tx, f tx p, cc (h, same))

  key-Calls :
      (ctx : AuditContext) (runtime : AgentRuntime) (active : ActivePolicy)
      (tx : DecodedTransaction) (checked : Daemon × Bool)
      → Calls
          (λ t. (t ≡ tx) × (checked.1 ≡ true) × IsApproved checked.0 runtime active t)
          runtime.key
          checked.0.signed_calls
          (after_key cfg deps readings request ctx runtime active tx checked).0.signed_calls
  unfolding after_key refuse
  key-Calls ctx runtime active tx (daemon, false) = inl refl
  key-Calls ctx runtime active tx (daemon, true) =
      elim (evaluation-Calls daemon ctx runtime active tx _ refl) [
        | inl same ↦ inl same
        | inr (t, (this, approved), grew) ↦ inr (t, (this, refl, approved), grew)
      ]

  decode-Calls :
      (daemon : Daemon) (ctx : AuditContext) (runtime : AgentRuntime) (active : ActivePolicy)
      (o : Outcome Thrown DecodedTransaction)
      → deps.decode request.transaction runtime.chain ≡ o
      → Calls
          (IsBound daemon runtime active)
          runtime.key
          daemon.signed_calls
          (after_decode cfg deps readings request daemon ctx runtime active o).0.signed_calls
  unfolding after_decode refuse
  decode-Calls daemon ctx runtime active (err t) e = inl refl
  decode-Calls daemon ctx runtime active (ok tx) e =
      elim (Bool-cases (check_local_identity tx runtime.agent active.permission)) [
        | inr foreign ↦ rw foreign (inl refl)
        | inl own ↦ rw own (
            Calls-map runtime.key _ _ daemon.signed_calls _ _
              (authority_kept cfg deps readings request (λ d. d.signed_calls)
                signed_calls-IgnoresStores daemon runtime active daemon.keys)
              (λ t (same, authorized, approved). record {
                decoded = cc (e, same);
                own =
                    subst (λ x. check_local_identity x runtime.agent active.permission ≡ true)
                      (sym same) own;
                key_authorized = authorized;
                approved = approved;
              })
              (key-Calls _ runtime active tx
                (check_authority cfg deps readings request daemon runtime active daemon.keys)))
      ]

  policy-Calls :
      (ctx : AuditContext) (runtime : AgentRuntime)
      (loaded : Daemon × Outcome DenyCode ActivePolicy)
      → Calls
          (λ tx.
            (active : ActivePolicy) × (loaded.1 ≡ ok active) × IsBound loaded.0 runtime active tx)
          runtime.key
          loaded.0.signed_calls
          (after_policy cfg deps readings request ctx runtime loaded).0.signed_calls
  unfolding after_policy refuse
  policy-Calls ctx runtime (daemon, err code) = inl refl
  policy-Calls ctx runtime (daemon, ok active) =
      Calls-map runtime.key _ _ daemon.signed_calls daemon.signed_calls _ refl
        (λ tx bound. (active, refl, bound))
        (decode-Calls daemon ctx runtime active (deps.decode request.transaction runtime.chain)
          refl)

  -- What the nonce cache and the policy gave.
  pub record IsCleared (daemon : Daemon) (runtime : AgentRuntime) (state : NonceState)
      (tx : DecodedTransaction) : Type 0 where
    pub first_use : state ≡ fresh
    pub chain : same_chain request runtime.chain ≡ true
    pub active : ActivePolicy
    pub loaded :
        (load_policy cfg deps readings request daemon runtime daemon.policies).1 ≡ ok active
    pub bound :
        IsBound
          (load_policy cfg deps readings request daemon runtime daemon.policies).0
          runtime
          active
          tx

  nonce-Calls :
      (daemon : Daemon) (ctx : AuditContext) (runtime : AgentRuntime) (state : NonceState)
      → Calls
          (IsCleared daemon runtime state)
          runtime.key
          daemon.signed_calls
          (after_nonce cfg deps readings request daemon ctx runtime state).0.signed_calls
  unfolding after_nonce refuse
  nonce-Calls daemon ctx runtime replayed = inl refl
  nonce-Calls daemon ctx runtime full = inl refl
  nonce-Calls daemon ctx runtime fresh = elim (Bool-cases (same_chain request runtime.chain)) [
    | inr other ↦ rw other (inl refl)
    | inl same ↦ rw same (
        Calls-map runtime.key _ _ daemon.signed_calls _ _
          (load_kept cfg deps readings request (λ d. d.signed_calls) signed_calls-IgnoresStores
            daemon runtime daemon.policies)
          (λ tx (active, loaded, bound). record {
            first_use = refl;
            chain = same;
            active = active;
            loaded = loaded;
            bound = bound;
          })
          (policy-Calls ctx runtime
            (load_policy cfg deps readings request daemon runtime daemon.policies)))
  ]

  -- All that holds when the signer is called on a transaction.
  pub record IsSignable (daemon : Daemon) (runtime : AgentRuntime) (tx : DecodedTransaction)
      : Type 0 where
    pub admitted : IsAdmitted cfg deps daemon request readings.now_ms runtime
    pub cleared :
        IsCleared
          (record daemon {
            nonces =
                (register daemon.nonces runtime.agent request.nonce request.expires_at
                  readings.now_ms).0;
          })
          runtime
          (register daemon.nonces runtime.agent request.nonce request.expires_at readings.now_ms).1
          tx

  gates-calls :
      (daemon : Daemon) (ctx : AuditContext) (admitted : Outcome DenyCode AgentRuntime)
      → gates cfg deps daemon request readings.now_ms ≡ admitted
      → ((after_gates cfg deps readings request daemon ctx admitted).0.signed_calls
          ≡ daemon.signed_calls)
        ⊎ ((runtime : AgentRuntime) × (tx : DecodedTransaction) × IsSignable daemon runtime tx
            × ((after_gates cfg deps readings request daemon ctx admitted).0.signed_calls
                ≡ (tx, runtime.key) ∷ daemon.signed_calls))
  unfolding after_gates registered refuse
  gates-calls daemon ctx (err code) e = inl refl
  gates-calls daemon ctx (ok runtime) e = elim (nonce-Calls _ ctx runtime _) [
    | inl same ↦ inl same
    | inr (tx, cleared, grew) ↦ inr (
      runtime,
      tx,
      record {
        admitted = gates-IsAdmitted cfg deps daemon request readings.now_ms runtime e;
        cleared = cleared;
      },
      grew,
    )
  ]

  pub run_parsed-calls :
      (daemon : Daemon)
      → ((run_parsed cfg deps readings request daemon).0.signed_calls ≡ daemon.signed_calls)
        ⊎ ((runtime : AgentRuntime) × (tx : DecodedTransaction) × IsSignable daemon runtime tx
            × ((run_parsed cfg deps readings request daemon).0.signed_calls
                ≡ (tx, runtime.key) ∷ daemon.signed_calls))
  unfolding run_parsed
  run_parsed-calls daemon =
      gates-calls daemon _ (gates cfg deps daemon request readings.now_ms) refl
