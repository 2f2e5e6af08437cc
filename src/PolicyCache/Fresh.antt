-- ===== src/PolicyCache/Fresh.antt =====
-- How recently the policy that `get` serves was confirmed on the chain.
use signbox.Prelude.{
  ℕ, ◌+◌, ◌≤◌, ◌≡◌, refl, inl, inr, true, false, Option, none, some, arith, ltb, Bool-cases,
}
use signbox.Prelude.Text.{Text, text_eq_refl, lookup, lookup-insert}
use signbox.Prelude.Outcome.{Outcome, ok, err}
use signbox.Policy.Types.{Policy, PolicyDialect}
use signbox.Policy.Onchain.{
  Host, PolicyIntegrityError, hash_mismatch, invalid_json, not_canonical, schema_invalid, threw,
  verify_stored_policy,
}
use signbox.PolicyCache.{
  PolicyRowRaw, ReadResult, unreachable, not_registered, row, CachedPolicy, PolicyCache, Options,
  RefreshError, new_entry, store, highest_seen, accept, refresh, load, freshness_ms, is_stale,
  no_answer, no_policy, rollback, integrity, graced, after_failure, refreshed, get,
}

-- A served policy is within its window, or the reader's answer was verified in this very call.
pub data IsConfirmed (host : Host) (dialect : PolicyDialect) (opts : Options) (now_ms : ℕ)
    (answer : ReadResult) (refresh_ms : ℕ) (c : CachedPolicy) : Type 0 where
  within_window :
      now_ms ≤ c.verified_at_ms + freshness_ms host dialect opts c
      → IsConfirmed host dialect opts now_ms answer refresh_ms c
  just_verified :
      (raw : PolicyRowRaw) (policy : Policy)
      → answer ≡ row raw
      → verify_stored_policy host dialect raw.policyjson raw.policyhash ≡ ok policy
      → c ≡ new_entry raw policy refresh_ms
      → IsConfirmed host dialect opts now_ms answer refresh_ms c

module _ (host : Host) (dialect : PolicyDialect) where
  accept-stores :
      (cache : PolicyCache) (agent : Text) (raw : PolicyRowRaw) (now_ms : ℕ)
      (checked : Outcome PolicyIntegrityError Policy)
      → (accept host dialect cache agent raw now_ms checked).1 ≡ ok tt
      → (policy : Policy) × (checked ≡ ok policy)
        × (lookup agent (accept host dialect cache agent raw now_ms checked).0.memory
            ≡ some (new_entry raw policy now_ms))
  unfolding accept store
  accept-stores cache agent raw now_ms (err e) h = absurd (cc h)
  accept-stores cache agent raw now_ms (ok p) h =
      elim (Bool-cases (ltb raw.version (highest_seen cache agent))) [
        | inl older ↦ absurd (cc (rw older at h))
        | inr newer ↦ (
          p,
          refl,
          rw
              (
                newer,
                lookup-insert agent agent (new_entry raw p now_ms) cache.memory,
                text_eq_refl agent,
              )
              refl,
        )
      ]

  strict_refuses :
      (opts : Options) (now_ms : ℕ) (old : Option CachedPolicy)
      → opts.strict ≡ true
      → graced host dialect opts now_ms old ≡ none
  unfolding graced
  strict_refuses opts now_ms none strict = refl
  strict_refuses opts now_ms (some c) strict = rw strict refl

  failure_refuses :
      (opts : Options) (now_ms : ℕ) (old : Option CachedPolicy) (e : RefreshError)
      (c : CachedPolicy)
      → graced host dialect opts now_ms old ≡ none
      → ¬ (after_failure host dialect opts now_ms old e ≡ ok (some c))
  unfolding after_failure
  failure_refuses opts now_ms old no_answer c none_left h = cc (rw none_left at h)
  failure_refuses opts now_ms old no_policy c none_left h = cc (rw none_left at h)
  failure_refuses opts now_ms old rollback c none_left h = cc (rw none_left at h)
  failure_refuses opts now_ms old (integrity hash_mismatch) c none_left h = cc (rw none_left at h)
  failure_refuses opts now_ms old (integrity invalid_json) c none_left h = cc (rw none_left at h)
  failure_refuses opts now_ms old (integrity not_canonical) c none_left h = cc (rw none_left at h)
  failure_refuses opts now_ms old (integrity schema_invalid) c none_left h = cc (rw none_left at h)
  failure_refuses opts now_ms old (integrity (threw t)) c none_left h = cc h

  refreshed-IsConfirmed :
      (opts : Options) (agent : Text) (now_ms : ℕ) (old : Option CachedPolicy)
      (result : PolicyCache × Outcome RefreshError (Unit {0})) (c : CachedPolicy)
      → opts.strict ≡ true
      → (refreshed host dialect opts agent now_ms old result).1 ≡ ok (some c)
      → (result.1 ≡ ok tt) × (lookup agent result.0.memory ≡ some c)
  unfolding refreshed
  refreshed-IsConfirmed opts agent now_ms old (cache, ok u) c strict h = (refl, cc h)
  refreshed-IsConfirmed opts agent now_ms old (cache, err e) c strict h =
      absurd (failure_refuses opts now_ms old e c (strict_refuses opts now_ms old strict) h)

  refresh-IsConfirmed :
      (opts : Options) (cache : PolicyCache) (agent : Text) (now_ms : ℕ) (answer : ReadResult)
      (refresh_ms : ℕ) (c : CachedPolicy)
      → (refresh host dialect cache agent answer refresh_ms).1 ≡ ok tt
      → lookup agent (refresh host dialect cache agent answer refresh_ms).0.memory ≡ some c
      → IsConfirmed host dialect opts now_ms answer refresh_ms c
  unfolding refresh
  refresh-IsConfirmed opts cache agent now_ms unreachable refresh_ms c h e = absurd (cc h)
  refresh-IsConfirmed opts cache agent now_ms not_registered refresh_ms c h e = absurd (cc h)
  refresh-IsConfirmed opts cache agent now_ms (row raw) refresh_ms c h e =
      let (policy, valid, there) = accept-stores cache agent raw refresh_ms _ h in
      just_verified raw policy refl valid (cc (there, e))

  not_stale :
      (opts : Options) (now_ms : ℕ) (c : CachedPolicy)
      → is_stale host dialect opts now_ms (some c) ≡ false
      → now_ms ≤ c.verified_at_ms + freshness_ms host dialect opts c
  unfolding is_stale
  not_stale opts now_ms c h = ground arith

-- In strict mode, what `get` serves is no older than its freshness window, or was verified in this
-- very call: it is the reader's row, whose stored policy passed the integrity gate.
pub get-IsConfirmed :
    (host : Host) (dialect : PolicyDialect) (opts : Options) (cache : PolicyCache) (agent : Text)
    (now_ms : ℕ) (answer : ReadResult) (refresh_ms : ℕ) (c : CachedPolicy)
    → opts.strict ≡ true
    → (get host dialect opts cache agent now_ms answer refresh_ms).1 ≡ ok (some c)
    → IsConfirmed host dialect opts now_ms answer refresh_ms c
unfolding get
get-IsConfirmed host dialect opts cache agent now_ms answer refresh_ms c strict h =
    let loaded = (load host dialect cache agent).0 in
    let cached = (load host dialect cache agent).1 in
    elim (Bool-cases (is_stale host dialect opts now_ms cached)) [
      | inl stale ↦
          let (done, there) =
            refreshed-IsConfirmed host dialect opts agent now_ms cached
              (refresh host dialect loaded agent answer refresh_ms) c strict (rw stale at h) in
          refresh-IsConfirmed host dialect opts loaded agent now_ms answer refresh_ms c done there
      | inr fresh ↦
          let served : cached ≡ some c = cc (rw fresh at h) in
          within_window (not_stale host dialect opts now_ms c (rw served at fresh))
    ]
