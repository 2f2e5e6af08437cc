-- ===== src/PolicyCache.antt =====
-- src/daemon/policyCache.ts: the cache of on-chain policies with its anti-rollback watermark. The
-- database row and the in-memory entry of each agent are kept apart: a restart clears the memory.
-- What the reader answers, and the clock that `refresh` reads, are arguments of the operations.
pub mod Rollback
pub mod Served
pub mod Fresh
pub mod Tests
use signbox.Prelude.{
  ℕ, zero, suc, ◌+◌, ◌-◌, ◌*◌, ◌/◌, ◌%◌, ◌^◌, ◌≤◌, ◌<◌, max, String, ◌≡◌, refl, sym, ap, ◌∙◌, subst,
  ◌≡⟨◌⟩◌, ◌∎, fun_ext, ◌≢◌, ◌↔◌, ◌⊎◌, inl, inr, Bool, true, false, not, ◌&&◌, ◌||◌, Option, none,
  some, List, [], ◌∷◌, ◌++◌, map, append-nil, append_assoc, arith, ltb, leb, ◌==◌, if◌then◌else◌,
  ==_iff, leb_iff, &&_iff, Bool-cases, Option-cases, length, take, drop, replicate, length-append,
  length-replicate, take-append-drop, length-drop, keep, any, every, All, Any, All-append, All-map,
  every_iff, any_iff, any-false,
}
use signbox.Prelude.Text.{
  Text, lit, text_eq, text_eq_iff, text_eq_refl, text_eq_comm, starts_with, includes, split,
  text_mem, lookup, insert, lookup-insert, remove, lookup-remove,
}
use signbox.Prelude.Outcome.{Outcome, ok, err, ◌>>=◌, >>=-eq-ok, Outcome-cases, find_ok}
use signbox.Errors.{Thrown}
use signbox.Value.{Value}
use signbox.Policy.Types.{Effect, allows, denies, PolicyRule, RuleLimits, Policy, PolicyDialect}
use signbox.Policy.Schema.{validate_policy}
use signbox.Policy.Onchain.{Host, PolicyIntegrityError, threw, verify_stored_policy}

-- `PolicyRowRaw`, what the reader gives.
pub record PolicyRowRaw : Type 0 where
  pub authority : Text
  pub agentperm : Text
  pub version : ℕ
  pub policyhash : Text
  pub policyjson : Text
  pub enabled : Bool

pub data ReadResult : Type 0 where
  unreachable : ReadResult
  not_registered : ReadResult
  row : PolicyRowRaw → ReadResult

pub record CachedPolicy : Type 0 where
  pub policy : Policy
  pub version : ℕ
  pub enabled : Bool
  pub authority : Text
  pub permission : Text
  pub is_financial : Bool
  pub verified_at_ms : ℕ

-- A row of `policy_cache`.
pub record CacheRow : Type 0 where
  pub authority : Text
  pub permission : Text
  pub version : ℕ
  pub policyhash : Text
  pub policyjson : Text
  pub enabled : Bool
  pub is_financial : Bool
  pub verified_at_ms : ℕ
  pub highest_seen_version : ℕ

pub record PolicyCache : Type 0 where
  pub db : List (Text × CacheRow)
  pub memory : List (Text × CachedPolicy)

pub record Options : Type 0 where
  pub financial_freshness_ms : ℕ
  pub non_financial_freshness_ms : ℕ
  pub strict : Bool
  pub grace_ms : ℕ

abbrev pub defaults : Options
defaults = record {
  financial_freshness_ms = 10_000;
  non_financial_freshness_ms = 30_000;
  strict = true;
  grace_ms = 0;
}

pub data RefreshError : Type 0 where
  no_answer no_policy rollback : RefreshError
  integrity : PolicyIntegrityError → RefreshError

seen_of : Option CacheRow → ℕ
seen_of none = 0
seen_of (some r) = r.highest_seen_version

pub highest_seen : PolicyCache → Text → ℕ
unfolding seen_of
highest_seen cache agent = seen_of (lookup agent cache.db)

rule_is_financial : PolicyRule → Bool
rule_is_financial r = elim r.effect [
  | denies ↦ false
  | allows ↦ elim r.limits [ none ↦ false | some _ ↦ true ]
]

pub is_financial_policy : Policy → Bool
unfolding rule_is_financial
is_financial_policy p = any rule_is_financial p.rules

-- The row that the upsert leaves: `MAX` keeps the watermark of an old row.
pub new_row : PolicyRowRaw → Policy → ℕ → Option CacheRow → CacheRow
unfolding is_financial_policy
new_row raw policy now_ms old = record {
  authority = raw.authority;
  permission = raw.agentperm;
  version = raw.version;
  policyhash = raw.policyhash;
  policyjson = raw.policyjson;
  enabled = raw.enabled;
  is_financial = is_financial_policy policy;
  verified_at_ms = now_ms;
  highest_seen_version = elim old [
    | none ↦ raw.version
    | some r ↦ max r.highest_seen_version raw.version
  ];
}

pub new_entry : PolicyRowRaw → Policy → ℕ → CachedPolicy
unfolding is_financial_policy
new_entry raw policy now_ms = record {
  policy = policy;
  version = raw.version;
  enabled = raw.enabled;
  authority = raw.authority;
  permission = raw.agentperm;
  is_financial = is_financial_policy policy;
  verified_at_ms = now_ms;
}

pub store : PolicyCache → Text → PolicyRowRaw → Policy → ℕ → PolicyCache
unfolding new_row new_entry
store cache agent raw policy now_ms = record {
  db = insert agent (new_row raw policy now_ms (lookup agent cache.db)) cache.db;
  memory = insert agent (new_entry raw policy now_ms) cache.memory;
}

module _ (host : Host) (dialect : PolicyDialect) where
  -- `refresh` from the reader's answer on, the clock at `now_ms`.
  accept :
      PolicyCache
      → Text
      → PolicyRowRaw
      → ℕ
      → Outcome PolicyIntegrityError Policy
      → PolicyCache × Outcome RefreshError (Unit {0})
  unfolding store highest_seen
  accept cache agent raw now_ms (err e) = (cache, err (integrity e))
  accept cache agent raw now_ms (ok policy) =
      if ltb raw.version (highest_seen cache agent)
      then (cache, err rollback)
      else (store cache agent raw policy now_ms, ok tt)

  pub refresh : PolicyCache → Text → ReadResult → ℕ → PolicyCache × Outcome RefreshError (Unit {0})
  unfolding accept
  refresh cache agent unreachable now_ms = (cache, err no_answer)
  refresh cache agent not_registered now_ms = (cache, err no_policy)
  refresh cache agent (row raw) now_ms =
      accept cache agent raw now_ms
        (verify_stored_policy host dialect raw.policyjson raw.policyhash)

  entry_of : CacheRow → Policy → CachedPolicy
  entry_of r policy = record {
    policy = policy;
    version = r.version;
    enabled = r.enabled;
    authority = r.authority;
    permission = r.permission;
    is_financial = r.is_financial;
    verified_at_ms = r.verified_at_ms;
  }

  revalidated : CacheRow → Outcome Thrown Policy → Option CachedPolicy
  unfolding entry_of
  revalidated r (err _) = none
  revalidated r (ok policy) = some (entry_of r policy)

  reparsed : CacheRow → Option Value → Option CachedPolicy
  unfolding revalidated
  reparsed r none = none
  reparsed r (some v) = revalidated r (validate_policy host.read_policy dialect v)

  hydrated : PolicyCache → Text → Option CachedPolicy → PolicyCache × Option CachedPolicy
  hydrated cache agent none = (cache, none)
  hydrated cache agent (some c) = (record cache { memory = insert agent c cache.memory }, some c)

  hydrate_row : PolicyCache → Text → Option CacheRow → PolicyCache × Option CachedPolicy
  unfolding hydrated reparsed
  hydrate_row cache agent none = (cache, none)
  hydrate_row cache agent (some r) =
      hydrated cache agent (reparsed r (host.parse_json r.policyjson))

  pub hydrate : PolicyCache → Text → PolicyCache × Option CachedPolicy
  unfolding hydrate_row
  hydrate cache agent = hydrate_row cache agent (lookup agent cache.db)

  or_hydrate : PolicyCache → Text → Option CachedPolicy → PolicyCache × Option CachedPolicy
  unfolding hydrate
  or_hydrate cache agent none = hydrate cache agent
  or_hydrate cache agent (some c) = (cache, some c)

  -- `this.memory.get(agent) ?? this.hydrate(agent)`.
  pub load : PolicyCache → Text → PolicyCache × Option CachedPolicy
  unfolding or_hydrate
  load cache agent = or_hydrate cache agent (lookup agent cache.memory)

  pub freshness_ms : Options → CachedPolicy → ℕ
  freshness_ms opts c =
      if c.is_financial then opts.financial_freshness_ms else opts.non_financial_freshness_ms

  pub is_stale : Options → ℕ → Option CachedPolicy → Bool
  unfolding freshness_ms
  is_stale opts now_ms none = true
  is_stale opts now_ms (some c) = ltb (c.verified_at_ms + freshness_ms opts c) now_ms

  -- The controlled grace: only outside strict mode. `none` is POLICY_UNAVAILABLE.
  graced : Options → ℕ → Option CachedPolicy → Option CachedPolicy
  graced opts now_ms none = none
  graced opts now_ms (some c) =
      if not opts.strict && leb now_ms (c.verified_at_ms + opts.grace_ms) then some c else none

  -- What `get` gives after a refresh that stored nothing; a throw of the gate leaves `get`.
  after_failure :
      Options → ℕ → Option CachedPolicy → RefreshError → Outcome Thrown (Option CachedPolicy)
  unfolding graced
  after_failure opts now_ms old (integrity (threw t)) = err t
  after_failure opts now_ms old e = ok (graced opts now_ms old)

  refreshed :
      Options
      → Text
      → ℕ
      → Option CachedPolicy
      → PolicyCache × Outcome RefreshError (Unit {0})
      → PolicyCache × Outcome Thrown (Option CachedPolicy)
  unfolding after_failure
  refreshed opts agent now_ms old (cache, ok _) = (cache, ok (lookup agent cache.memory))
  refreshed opts agent now_ms old (cache, err e) = (cache, after_failure opts now_ms old e)

  -- `get`; the answer and the second clock reading are those of the refresh, if there is one.
  pub get :
      Options
      → PolicyCache
      → Text
      → ℕ
      → ReadResult
      → ℕ
      → PolicyCache × Outcome Thrown (Option CachedPolicy)
  unfolding load is_stale refreshed refresh
  get opts cache agent now_ms answer refresh_ms =
      let (loaded, cached) = load cache agent in
      if is_stale opts now_ms cached
      then refreshed opts agent now_ms cached (refresh loaded agent answer refresh_ms)
      else (loaded, ok cached)

-- A restart of the daemon on the same database.
pub restart : PolicyCache → PolicyCache
restart cache = record cache { memory = [] }
