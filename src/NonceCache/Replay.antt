-- ===== src/NonceCache/Replay.antt =====
-- A registered nonce is refused until it expires, and no agent's calls touch another agent's map.
use signbox.Prelude.{
  ℕ, ◌≤◌, ◌<◌, ◌≡◌, refl, ◌∙◌, ◌≢◌, some, List, [], ◌∷◌, arith, if◌then◌else◌, All,
}
use signbox.Prelude.Text.{Text, text_eq, text_eq_iff, text_eq_refl, lookup, lookup-insert}
use signbox.NonceCache.{
  Entries, NonceCache, fresh, replayed, entries_of, or_empty, purge, is_live, register_entry,
  register, Call, run,
}

lookup-purge :
    (now : ℕ) (nonce : Text) (e : ℕ) (entries : Entries)
    → lookup nonce entries ≡ some e
    → now < e
    → lookup nonce (purge now entries) ≡ some e
unfolding lookup purge
lookup-purge now nonce e [] h live = absurd (cc)
lookup-purge now nonce e ((k, v) ∷ entries) h live =
    ground (arith, lookup-purge now nonce e entries)

-- A call before the limit keeps an entry that lives on to it, whatever nonce it registers.
register_entry-keeps :
    (capacity : ℕ) (entries : Entries) (nonce : Text) (limit : ℕ) (other : Text)
    (expires_at now e : ℕ)
    → now < limit
    → limit ≤ e
    → lookup nonce entries ≡ some e
    → lookup nonce (register_entry capacity entries other expires_at now).0 ≡ some e
unfolding register_entry is_live
register_entry-keeps capacity entries nonce limit other expires_at now e before le found = ground (
  arith,
  text_eq_iff other nonce,
  lookup-purge now nonce e entries found,
  lookup-insert other nonce expires_at entries,
  lookup-insert other nonce expires_at (purge now entries),
)

pub entries_of-register :
    (cache : NonceCache) (agent other nonce : Text) (expires_at now : ℕ)
    → entries_of (register cache agent nonce expires_at now).0 other ≡ (
        if text_eq agent other
        then (register_entry cache.max_entries_per_agent
            (entries_of cache agent)
            nonce
            expires_at
            now).0
        else entries_of cache other)
unfolding register entries_of or_empty
entries_of-register cache agent other nonce expires_at now =
    rw lookup-insert (ground (arith, text_eq_iff agent other))

pub register-keeps :
    (cache : NonceCache) (agent nonce : Text) (e : ℕ) (c : Call)
    → c.now < e
    → lookup nonce (entries_of cache agent) ≡ some e
    → lookup nonce (entries_of (register cache c.agent c.nonce c.expires_at c.now).0 agent) ≡ some e
register-keeps cache agent nonce e c before found = rw entries_of-register (
    ground (
      arith,
      text_eq_iff c.agent agent,
      register_entry-keeps cache.max_entries_per_agent (entries_of cache agent) nonce e c.nonce
          c.expires_at c.now e before (omega arith) found,
    ))

run-keeps :
    (cache : NonceCache) (agent nonce : Text) (e : ℕ) (calls : List Call)
    → All (λ (c : Call). c.now < e) calls
    → lookup nonce (entries_of cache agent) ≡ some e
    → lookup nonce (entries_of (run cache calls) agent) ≡ some e
unfolding run
run-keeps cache agent nonce e [] before found = found
run-keeps cache agent nonce e (c ∷ calls) (b, before) found =
    run-keeps (register cache c.agent c.nonce c.expires_at c.now).0 agent nonce e calls before
      (register-keeps cache agent nonce e c b found)

pub register-fresh :
    (cache : NonceCache) (agent nonce : Text) (expires_at now : ℕ)
    → (register cache agent nonce expires_at now).1 ≡ fresh
    → lookup nonce (entries_of (register cache agent nonce expires_at now).0 agent)
      ≡ some expires_at
register-fresh cache agent nonce expires_at now h = rw entries_of-register (
    rw text_eq_refl (
      unfold register register_entry in
      ground (
        arith,
        text_eq_refl nonce,
        lookup-insert nonce nonce expires_at (entries_of cache agent),
        lookup-insert nonce nonce expires_at (purge now (entries_of cache agent)),
      )))

pub register-replayed :
    (cache : NonceCache) (agent nonce : Text) (e expires_at now : ℕ)
    → lookup nonce (entries_of cache agent) ≡ some e
    → now < e
    → (register cache agent nonce expires_at now).1 ≡ replayed
unfolding register register_entry is_live
register-replayed cache agent nonce e expires_at now found live = ground arith

-- A nonce that was registered is refused as replayed until it expires: whatever calls of any agents
-- come in between, full caches and their sweeps included, as long as every clock reading lies before
-- the expiry.
pub register_replay :
    (cache : NonceCache) (agent nonce : Text) (expires_at now later_expiry later_now : ℕ)
    (calls : List Call)
    → (register cache agent nonce expires_at now).1 ≡ fresh
    → All (λ (c : Call). c.now < expires_at) calls
    → later_now < expires_at
    → (register
        (run (register cache agent nonce expires_at now).0 calls)
        agent
        nonce
        later_expiry
        later_now).1
      ≡ replayed
register_replay cache agent nonce expires_at now later_expiry later_now calls h before live =
    register-replayed _ agent nonce expires_at later_expiry later_now
      (run-keeps _ agent nonce expires_at calls before
        (register-fresh cache agent nonce expires_at now h))
      live

pub register-max_entries :
    (cache : NonceCache) (agent nonce : Text) (expires_at now : ℕ)
    → (register cache agent nonce expires_at now).0.max_entries_per_agent
      ≡ cache.max_entries_per_agent
unfolding register
register-max_entries cache agent nonce expires_at now = refl

run-others :
    (cache : NonceCache) (agent : Text) (calls : List Call)
    → All (λ (c : Call). c.agent ≢ agent) calls
    → (entries_of (run cache calls) agent ≡ entries_of cache agent)
      × ((run cache calls).max_entries_per_agent ≡ cache.max_entries_per_agent)
unfolding run
run-others cache agent [] h = (refl, refl)
run-others cache agent (c ∷ calls) (other, h) =
    let after = (register cache c.agent c.nonce c.expires_at c.now).0 in
    let (same, capacity) = run-others after agent calls h in
    (
      same ∙ rw entries_of-register (ground (arith, text_eq_iff c.agent agent)),
      capacity ∙ register-max_entries cache c.agent c.nonce c.expires_at c.now,
    )

-- Calls of other agents, however many, change neither an agent's verdict nor the map that its own
-- next call leaves.
pub register_isolated :
    (cache : NonceCache) (agent nonce : Text) (expires_at now : ℕ) (calls : List Call)
    → All (λ (c : Call). c.agent ≢ agent) calls
    → ((register (run cache calls) agent nonce expires_at now).1
        ≡ (register cache agent nonce expires_at now).1)
      × (entries_of (register (run cache calls) agent nonce expires_at now).0 agent
          ≡ entries_of (register cache agent nonce expires_at now).0 agent)
register_isolated cache agent nonce expires_at now calls h =
    let (same, capacity) = run-others cache agent calls h in
    (
      unfold register in rw (same, capacity),
      simp (entries_of-register, text_eq_refl) (rw (same, capacity)),
    )
