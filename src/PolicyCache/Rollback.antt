-- ===== src/PolicyCache/Rollback.antt =====
-- Anti-rollback: the versions that the cache serves never decrease, across refreshes and restarts.
use signbox.Prelude.{
  ℕ, ◌≤◌, ◌≡◌, refl, sym, subst, inl, inr, Option, none, some, [], arith, ltb, Bool-cases,
}
use signbox.Prelude.Text.{Text, text_eq, text_eq_iff, lookup, lookup-insert}
use signbox.Prelude.Outcome.{Outcome, ok, err}
use signbox.Errors.{Thrown}
use signbox.Value.{Value}
use signbox.Policy.Types.{Policy, PolicyDialect}
use signbox.Policy.Onchain.{Host, PolicyIntegrityError}
use signbox.PolicyCache.{
  PolicyRowRaw, ReadResult, unreachable, not_registered, row, CachedPolicy, CacheRow, PolicyCache,
  seen_of, highest_seen, new_row, new_entry, store, accept, refresh, entry_of, revalidated,
  reparsed, hydrated, hydrate_row, hydrate, or_hydrate, load, restart,
}

-- What the database and the memory say of one agent, together.
abbrev pub RowOk : Option CacheRow → Type 0
RowOk none = Unit
RowOk (some r) = r.version ≡ r.highest_seen_version

abbrev pub EntryOk : Option CachedPolicy → Option CacheRow → Type 0
EntryOk none r = Unit
EntryOk (some c) none = ⊥
EntryOk (some c) (some r) = c.version ≡ r.version

-- Each agent's row is at its watermark, and an entry in memory has the version of its row.
pub record IsConsistent (cache : PolicyCache) : Type 0 where
  pub rows : (agent : Text) → RowOk (lookup agent cache.db)
  pub entries : (agent : Text) → EntryOk (lookup agent cache.memory) (lookup agent cache.db)

pub IsConsistent-empty : IsConsistent (record { db = []; memory = [] })
unfolding lookup
IsConsistent-empty = record { rows = λ agent. tt; entries = λ agent. tt }

pub restart-IsConsistent : (cache : PolicyCache) → IsConsistent cache → IsConsistent (restart cache)
unfolding restart lookup
restart-IsConsistent cache h = record { rows = h.rows; entries = λ agent. tt }

new_row-RowOk :
    (raw : PolicyRowRaw) (p : Policy) (now_ms : ℕ) (old : Option CacheRow)
    → seen_of old ≤ raw.version
    → RowOk (some (new_row raw p now_ms old))
unfolding new_row seen_of
new_row-RowOk raw p now_ms none h = refl
new_row-RowOk raw p now_ms (some r) h = omega arith

store-IsConsistent :
    (cache : PolicyCache) (agent : Text) (raw : PolicyRowRaw) (p : Policy) (now_ms : ℕ)
    → highest_seen cache agent ≤ raw.version
    → IsConsistent cache
    → IsConsistent (store cache agent raw p now_ms)
unfolding store highest_seen
store-IsConsistent cache agent raw p now_ms newer h = record {
  rows = λ other. elim (Bool-cases (text_eq agent other)) [
    | inl same ↦
        rw lookup-insert (rw same (new_row-RowOk raw p now_ms (lookup agent cache.db) newer))
    | inr differs ↦ rw lookup-insert (rw differs (h.rows other))
  ];
  entries = λ other. elim (Bool-cases (text_eq agent other)) [
    | inl same ↦ simp lookup-insert (rw same (unfold new_row new_entry in refl))
    | inr differs ↦ simp lookup-insert (rw differs (h.entries other))
  ];
}

module _ (host : Host) (dialect : PolicyDialect) where
  accept-IsConsistent :
      (cache : PolicyCache) (agent : Text) (raw : PolicyRowRaw) (now_ms : ℕ)
      (checked : Outcome PolicyIntegrityError Policy)
      → IsConsistent cache
      → IsConsistent (accept host dialect cache agent raw now_ms checked).0
  unfolding accept
  accept-IsConsistent cache agent raw now_ms (err e) h = h
  accept-IsConsistent cache agent raw now_ms (ok p) h =
      elim (Bool-cases (ltb raw.version (highest_seen cache agent))) [
        | inl older ↦ rw older h
        | inr newer ↦ rw newer (store-IsConsistent cache agent raw p now_ms (ground arith) h)
      ]

  pub refresh-IsConsistent :
      (cache : PolicyCache) (agent : Text) (answer : ReadResult) (now_ms : ℕ)
      → IsConsistent cache
      → IsConsistent (refresh host dialect cache agent answer now_ms).0
  unfolding refresh
  refresh-IsConsistent cache agent unreachable now_ms h = h
  refresh-IsConsistent cache agent not_registered now_ms h = h
  refresh-IsConsistent cache agent (row raw) now_ms h =
      accept-IsConsistent cache agent raw now_ms _ h

  revalidated-EntryOk :
      (r : CacheRow) (checked : Outcome Thrown Policy)
      → EntryOk (revalidated host dialect r checked) (some r)
  unfolding revalidated entry_of
  revalidated-EntryOk r (err t) = tt
  revalidated-EntryOk r (ok p) = refl

  reparsed-EntryOk :
      (r : CacheRow) (v : Option Value) → EntryOk (reparsed host dialect r v) (some r)
  unfolding reparsed
  reparsed-EntryOk r none = tt
  reparsed-EntryOk r (some v) = revalidated-EntryOk r _

  -- Loading leaves the rows alone, and gives an entry that fits them.
  pub record IsLoaded (cache after : PolicyCache) (agent : Text) (found : Option CachedPolicy)
      : Type 0 where
    pub consistent : IsConsistent after
    pub fits : EntryOk found (lookup agent cache.db)
    pub same_rows : after.db ≡ cache.db

  hydrated-IsLoaded :
      (cache : PolicyCache) (agent : Text) (found : Option CachedPolicy)
      → IsConsistent cache
      → EntryOk found (lookup agent cache.db)
      → IsLoaded cache
          (hydrated host dialect cache agent found).0
          agent
          (hydrated host dialect cache agent found).1
  unfolding hydrated
  hydrated-IsLoaded cache agent none h fits = record { consistent = h; fits = tt; same_rows = refl }
  hydrated-IsLoaded cache agent (some c) h fits = record {
    consistent = record {
      rows = h.rows;
      entries = λ other. elim (Bool-cases (text_eq agent other)) [
        | inl same ↦ rw lookup-insert (
            rw same (
              subst (λ k. EntryOk (some c) (lookup k cache.db)) ((text_eq_iff agent other).0 same)
                fits))
        | inr differs ↦ rw lookup-insert (rw differs (h.entries other))
      ];
    };
    fits = fits;
    same_rows = refl;
  }

  hydrate_row-IsLoaded :
      (cache : PolicyCache) (agent : Text) (r : Option CacheRow)
      → IsConsistent cache
      → lookup agent cache.db ≡ r
      → IsLoaded cache
          (hydrate_row host dialect cache agent r).0
          agent
          (hydrate_row host dialect cache agent r).1
  unfolding hydrate_row
  hydrate_row-IsLoaded cache agent none h e = record { consistent = h; fits = tt; same_rows = refl }
  hydrate_row-IsLoaded cache agent (some r) h e =
      hydrated-IsLoaded cache agent (reparsed host dialect r (host.parse_json r.policyjson)) h
        (subst (EntryOk _) (sym e) (reparsed-EntryOk r (host.parse_json r.policyjson)))

  or_hydrate-IsLoaded :
      (cache : PolicyCache) (agent : Text) (found : Option CachedPolicy)
      → IsConsistent cache
      → EntryOk found (lookup agent cache.db)
      → IsLoaded cache
          (or_hydrate host dialect cache agent found).0
          agent
          (or_hydrate host dialect cache agent found).1
  unfolding or_hydrate hydrate
  or_hydrate-IsLoaded cache agent none h fits =
      hydrate_row-IsLoaded cache agent (lookup agent cache.db) h refl
  or_hydrate-IsLoaded cache agent (some c) h fits = record {
    consistent = h;
    fits = fits;
    same_rows = refl;
  }

  pub load-IsLoaded :
      (cache : PolicyCache) (agent : Text)
      → IsConsistent cache
      → IsLoaded cache (load host dialect cache agent).0 agent (load host dialect cache agent).1
  unfolding load
  load-IsLoaded cache agent h =
      or_hydrate-IsLoaded cache agent (lookup agent cache.memory) h (h.entries agent)

  -- A rise of every agent's watermark.
  abbrev pub Rises : PolicyCache → PolicyCache → Type 0
  Rises before after = (agent : Text) → highest_seen before agent ≤ highest_seen after agent

  new_row-rises :
      (raw : PolicyRowRaw) (p : Policy) (now_ms : ℕ) (old : Option CacheRow)
      → seen_of old ≤ seen_of (some (new_row raw p now_ms old))
  unfolding new_row seen_of
  new_row-rises raw p now_ms none = omega arith
  new_row-rises raw p now_ms (some r) = omega arith

  store-Rises :
      (cache : PolicyCache) (agent : Text) (raw : PolicyRowRaw) (p : Policy) (now_ms : ℕ)
      → Rises cache (store cache agent raw p now_ms)
  unfolding store highest_seen
  store-Rises cache agent raw p now_ms other = elim (Bool-cases (text_eq agent other)) [
    | inl same ↦ rw lookup-insert (
        rw same (
          subst
            (λ k.
              seen_of (lookup k cache.db)
              ≤ seen_of (some (new_row raw p now_ms (lookup agent cache.db))))
            ((text_eq_iff agent other).0 same)
            (new_row-rises raw p now_ms (lookup agent cache.db))))
    | inr differs ↦ rw lookup-insert (rw differs (omega arith))
  ]

  accept-Rises :
      (cache : PolicyCache) (agent : Text) (raw : PolicyRowRaw) (now_ms : ℕ)
      (checked : Outcome PolicyIntegrityError Policy)
      → Rises cache (accept host dialect cache agent raw now_ms checked).0
  unfolding accept
  accept-Rises cache agent raw now_ms (err e) other = omega arith
  accept-Rises cache agent raw now_ms (ok p) other =
      elim (Bool-cases (ltb raw.version (highest_seen cache agent))) [
        | inl older ↦ rw older (omega arith)
        | inr newer ↦ rw newer (store-Rises cache agent raw p now_ms other)
      ]

  pub refresh-Rises :
      (cache : PolicyCache) (agent : Text) (answer : ReadResult) (now_ms : ℕ)
      → Rises cache (refresh host dialect cache agent answer now_ms).0
  unfolding refresh
  refresh-Rises cache agent unreachable now_ms other = omega arith
  refresh-Rises cache agent not_registered now_ms other = omega arith
  refresh-Rises cache agent (row raw) now_ms other = accept-Rises cache agent raw now_ms _ other
