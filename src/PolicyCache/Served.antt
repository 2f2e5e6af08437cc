-- ===== src/PolicyCache/Served.antt =====
-- The versions that `get` serves, over any sequence of operations on the cache.
use signbox.Prelude.{
  ℕ, ◌+◌, ◌≤◌, ◌≡◌, refl, sym, subst, inl, inr, not, ◌&&◌, Option, none, some, List, [], ◌∷◌, arith,
  ltb, leb, Bool-cases,
}
use signbox.Prelude.Text.{Text, lookup}
use signbox.Prelude.Outcome.{Outcome, ok, err}
use signbox.Errors.{Thrown}
use signbox.Policy.Types.{Policy, PolicyDialect}
use signbox.Policy.Onchain.{
  Host, PolicyIntegrityError, hash_mismatch, invalid_json, not_canonical, schema_invalid, threw,
}
use signbox.PolicyCache.{
  PolicyRowRaw, ReadResult, unreachable, not_registered, row, CachedPolicy, CacheRow, PolicyCache,
  Options, RefreshError, seen_of, highest_seen, accept, refresh, load, is_stale, graced,
  after_failure, refreshed, no_answer, no_policy, rollback, integrity, get, restart,
}
use signbox.PolicyCache.Rollback.{
  RowOk, EntryOk, IsConsistent, restart-IsConsistent, refresh-IsConsistent, load-IsLoaded, Rises,
  refresh-Rises,
}

module _ (host : Host) (dialect : PolicyDialect) where
  -- A refresh that fails leaves the cache as it was.
  IsFailure : Outcome RefreshError (Unit {0}) → Type 0
  IsFailure r = (e : RefreshError) × (r ≡ err e)

  accept-failed :
      (cache : PolicyCache) (agent : Text) (raw : PolicyRowRaw) (now_ms : ℕ)
      (checked : Outcome PolicyIntegrityError Policy)
      → IsFailure (accept host dialect cache agent raw now_ms checked).1
      → (accept host dialect cache agent raw now_ms checked).0 ≡ cache
  unfolding accept IsFailure
  accept-failed cache agent raw now_ms (err e) f = refl
  accept-failed cache agent raw now_ms (ok p) (e, f) =
      elim (Bool-cases (ltb raw.version (highest_seen cache agent))) [
        | inl older ↦ rw older refl
        | inr newer ↦ absurd (cc (rw newer at f))
      ]

  refresh-failed :
      (cache : PolicyCache) (agent : Text) (answer : ReadResult) (now_ms : ℕ)
      → IsFailure (refresh host dialect cache agent answer now_ms).1
      → (refresh host dialect cache agent answer now_ms).0 ≡ cache
  unfolding refresh
  refresh-failed cache agent unreachable now_ms f = refl
  refresh-failed cache agent not_registered now_ms f = refl
  refresh-failed cache agent (row raw) now_ms f = accept-failed cache agent raw now_ms _ f

  graced-EntryOk :
      (opts : Options) (now_ms : ℕ) (old : Option CachedPolicy) (r : Option CacheRow)
      → EntryOk old r
      → EntryOk (graced host dialect opts now_ms old) r
  unfolding graced
  graced-EntryOk opts now_ms none r h = tt
  graced-EntryOk opts now_ms (some c) r h =
      elim (Bool-cases (not opts.strict && leb now_ms (c.verified_at_ms + opts.grace_ms))) [
        | inl grace ↦ rw grace h
        | inr refused ↦ rw refused tt
      ]

  -- A served policy fits the row; a throw serves none.
  abbrev pub Fits : Outcome Thrown (Option CachedPolicy) → Option CacheRow → Type 0
  Fits (ok served) r = EntryOk served r
  Fits (err t) r = Unit {0}

  failure-Fits :
      (opts : Options) (now_ms : ℕ) (old : Option CachedPolicy) (e : RefreshError)
      (r : Option CacheRow)
      → EntryOk (graced host dialect opts now_ms old) r
      → Fits (after_failure host dialect opts now_ms old e) r
  unfolding after_failure
  failure-Fits opts now_ms old no_answer r h = h
  failure-Fits opts now_ms old no_policy r h = h
  failure-Fits opts now_ms old rollback r h = h
  failure-Fits opts now_ms old (integrity hash_mismatch) r h = h
  failure-Fits opts now_ms old (integrity invalid_json) r h = h
  failure-Fits opts now_ms old (integrity not_canonical) r h = h
  failure-Fits opts now_ms old (integrity schema_invalid) r h = h
  failure-Fits opts now_ms old (integrity (threw t)) r h = tt

  -- What `get` leaves and serves.
  pub record IsServed (agent : Text) (before : PolicyCache)
      (result : PolicyCache × Outcome Thrown (Option CachedPolicy)) : Type 0 where
    pub consistent : IsConsistent result.0
    pub fits : Fits result.1 (lookup agent result.0.db)
    pub rises : Rises host dialect before result.0

  refreshed-IsServed :
      (opts : Options) (agent : Text) (now_ms : ℕ) (old : Option CachedPolicy)
      (before loaded : PolicyCache) (result : PolicyCache × Outcome RefreshError (Unit {0}))
      → EntryOk old (lookup agent loaded.db)
      → IsConsistent result.0
      → Rises host dialect before result.0
      → (IsFailure result.1 → result.0 ≡ loaded)
      → IsServed agent before (refreshed host dialect opts agent now_ms old result)
  unfolding refreshed
  refreshed-IsServed opts agent now_ms old before loaded (cache, ok u) fits h rises same = record {
    consistent = h;
    fits = h.entries agent;
    rises = rises;
  }
  refreshed-IsServed opts agent now_ms old before loaded (cache, err e) fits h rises same = record {
    consistent = h;
    fits = failure-Fits opts now_ms old e (lookup agent cache.db) (
        graced-EntryOk opts now_ms old _ (
          subst (λ (c : PolicyCache). EntryOk old (lookup agent c.db))
            (sym (same (unfold IsFailure in (e, refl)))) fits));
    rises = rises;
  }

  same_rows-Rises :
      (before after : PolicyCache) → after.db ≡ before.db → Rises host dialect before after
  unfolding highest_seen
  same_rows-Rises before after same agent = rw same (omega arith)

  Rises-trans :
      (a b c : PolicyCache)
      → Rises host dialect a b
      → Rises host dialect b c
      → Rises host dialect a c
  Rises-trans a b c h k agent = omega (arith, h agent, k agent)

  pub get-IsServed :
      (opts : Options) (cache : PolicyCache) (agent : Text) (now_ms : ℕ) (answer : ReadResult)
      (refresh_ms : ℕ)
      → IsConsistent cache
      → IsServed agent cache (get host dialect opts cache agent now_ms answer refresh_ms)
  unfolding get
  get-IsServed opts cache agent now_ms answer refresh_ms h =
      let loaded = load-IsLoaded host dialect cache agent h in
      let after = (load host dialect cache agent).0 in
      let cached = (load host dialect cache agent).1 in
      let fits = subst (λ d. EntryOk cached (lookup agent d)) (sym loaded.same_rows) loaded.fits in
      let kept = same_rows-Rises cache after loaded.same_rows in
      elim (Bool-cases (is_stale host dialect opts now_ms cached)) [
        | inr fresh ↦
            rw fresh (record { consistent = loaded.consistent; fits = fits; rises = kept })
        | inl stale ↦ rw stale (
            refreshed-IsServed opts agent now_ms cached cache after
              (refresh host dialect after agent answer refresh_ms) fits
              (refresh-IsConsistent host dialect after agent answer refresh_ms loaded.consistent)
              (Rises-trans cache after (refresh host dialect after agent answer refresh_ms).0 kept
                (refresh-Rises host dialect after agent answer refresh_ms))
              (refresh-failed after agent answer refresh_ms))
      ]

  EntryOk-version :
      (c : CachedPolicy) (r : Option CacheRow)
      → EntryOk (some c) r
      → RowOk r
      → c.version ≡ seen_of r
  unfolding seen_of
  EntryOk-version c none h k = absurd h
  EntryOk-version c (some r) h k = omega arith

  -- The served version is the watermark.
  served-version :
      (agent : Text) (before : PolicyCache)
      (result : PolicyCache × Outcome Thrown (Option CachedPolicy)) (c : CachedPolicy)
      → IsServed agent before result
      → result.1 ≡ ok (some c)
      → c.version ≡ highest_seen result.0 agent
  unfolding highest_seen
  served-version agent before result c h e =
      EntryOk-version c (lookup agent result.0.db)
        (subst (λ o. Fits o (lookup agent result.0.db)) e h.fits) (h.consistent.rows agent)

  -- The operations of the cache, as a caller, the refresh timer and a restart make them.
  pub data Op : Type 0 where
    getting : Options → Text → ℕ → ReadResult → ℕ → Op
    refreshing : Text → ReadResult → ℕ → Op
    restarting : Op

  pub apply : PolicyCache → Op → PolicyCache
  apply cache (getting opts agent now_ms answer refresh_ms) =
      (get host dialect opts cache agent now_ms answer refresh_ms).0
  apply cache (refreshing agent answer now_ms) = (refresh host dialect cache agent answer now_ms).0
  apply cache restarting = restart cache

  unfoldable pub run : PolicyCache → List Op → PolicyCache
  unfolding apply
  run cache [] = cache
  run cache (op ∷ ops) = run (apply cache op) ops

  apply-keeps :
      (cache : PolicyCache) (op : Op)
      → IsConsistent cache
      → IsConsistent (apply cache op) × Rises host dialect cache (apply cache op)
  unfolding apply restart
  apply-keeps cache (getting opts agent now_ms answer refresh_ms) h =
      let served = get-IsServed opts cache agent now_ms answer refresh_ms h in
      (served.consistent, served.rises)
  apply-keeps cache (refreshing agent answer now_ms) h = (
    refresh-IsConsistent host dialect cache agent answer now_ms h,
    refresh-Rises host dialect cache agent answer now_ms,
  )
  apply-keeps cache restarting h =
      (restart-IsConsistent cache h, same_rows-Rises cache (restart cache) refl)

  pub run-keeps :
      (cache : PolicyCache) (ops : List Op)
      → IsConsistent cache
      → IsConsistent (run cache ops) × Rises host dialect cache (run cache ops)
  unfolding run
  run-keeps cache [] h = (h, λ agent. omega arith)
  run-keeps cache (op ∷ ops) h =
      let (k, rises) = apply-keeps cache op h in
      let (k', rises') = run-keeps (apply cache op) ops k in
      (k', Rises-trans cache (apply cache op) (run (apply cache op) ops) rises rises')

-- The version that `get` serves for an agent never falls: whatever the reader answers, lies included,
-- and whatever gets, refreshes and restarts come between, for any options, a later get serves a
-- version at least as high or none.
pub get_monotone :
    (host : Host) (dialect : PolicyDialect) (cache : PolicyCache) (agent : Text)
    (opts later_opts : Options) (now_ms refresh_ms later_ms later_refresh_ms : ℕ)
    (answer later_answer : ReadResult) (ops : List (Op host dialect)) (c later_c : CachedPolicy)
    → IsConsistent cache
    → (get host dialect opts cache agent now_ms answer refresh_ms).1 ≡ ok (some c)
    → (get host dialect later_opts
        (run host dialect (get host dialect opts cache agent now_ms answer refresh_ms).0 ops)
        agent
        later_ms
        later_answer
        later_refresh_ms).1
      ≡ ok (some later_c)
    → c.version ≤ later_c.version
get_monotone host dialect cache agent opts later_opts now_ms refresh_ms later_ms later_refresh_ms
      answer later_answer ops c later_c h e later_e =
    let first = get-IsServed host dialect opts cache agent now_ms answer refresh_ms h in
    let after = (get host dialect opts cache agent now_ms answer refresh_ms).0 in
    let (k, rises) = run-keeps host dialect after ops first.consistent in
    let second =
      get-IsServed host dialect later_opts (run host dialect after ops) agent later_ms later_answer
        later_refresh_ms k in
    omega (
      arith,
      served-version host dialect agent cache _ c first e,
      served-version host dialect agent (run host dialect after ops) _ later_c second later_e,
      rises agent,
      second.rises agent,
    )
