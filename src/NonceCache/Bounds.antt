-- ===== src/NonceCache/Bounds.antt =====
-- The size of an agent's map, and when a call is refused as full.
use signbox.Prelude.{ℕ, ◌+◌, ◌≤◌, ◌<◌, ◌≡◌, sym, subst, false, [], ◌∷◌, arith, length, All}
use signbox.Prelude.Text.{Text, text_eq_refl, lookup, insert}
use signbox.NonceCache.{
  Entries, NonceCache, full, entries_of, purge, is_live, register_entry, register, size_of, Call,
}
use signbox.NonceCache.Replay.{entries_of-register, register-max_entries}

length-insert : (k : Text) (v : ℕ) (m : Entries) → length (insert k v m) ≤ length m + 1
unfolding insert
length-insert k v [] = omega arith
length-insert k v ((j, w) ∷ m) = ground (arith, length-insert k v m)

purge-live : (now : ℕ) (entries : Entries) → All (λ (e : Text × ℕ). now < e.1) (purge now entries)
unfolding purge
purge-live now [] = tt
purge-live now ((k, v) ∷ entries) = ground (arith, purge-live now entries)

length-purge : (now : ℕ) (entries : Entries) → length (purge now entries) ≤ length entries
unfolding purge
length-purge now [] = omega arith
length-purge now ((k, v) ∷ entries) = ground (arith, length-purge now entries)

length-register_entry :
    (capacity : ℕ) (entries : Entries) (nonce : Text) (expires_at now : ℕ)
    → length entries ≤ capacity
    → length (register_entry capacity entries nonce expires_at now).0 ≤ capacity
unfolding register_entry
length-register_entry capacity entries nonce expires_at now h = ground (
  arith,
  length-insert nonce expires_at entries,
  length-insert nonce expires_at (purge now entries),
  length-purge now entries,
)

-- No agent's map is larger than the capacity.
unfoldable pub IsBounded : NonceCache → Type 0
IsBounded cache = (agent : Text) → size_of cache agent ≤ cache.max_entries_per_agent

-- A call keeps every agent's map within the capacity.
pub register-IsBounded :
    (cache : NonceCache) (c : Call)
    → IsBounded cache
    → IsBounded (register cache c.agent c.nonce c.expires_at c.now).0
unfolding IsBounded size_of
register-IsBounded cache c h other =
    rw (entries_of-register, register-max_entries)
      (ground (
        arith,
        h other,
        h c.agent,
        length-register_entry cache.max_entries_per_agent (entries_of cache c.agent) c.nonce
            c.expires_at c.now,
      ))

register_entry-full :
    (capacity : ℕ) (entries : Entries) (nonce : Text) (expires_at now : ℕ)
    → (register_entry capacity entries nonce expires_at now).1 ≡ full
    → ((register_entry capacity entries nonce expires_at now).0 ≡ purge now entries)
      × (capacity ≤ length (purge now entries))
      × (is_live now (lookup nonce entries) ≡ false)
unfolding register_entry
register_entry-full capacity entries nonce expires_at now h =
    (ground arith, ground arith, ground arith)

-- A call is refused as full only if the nonce is not live and the agent has as many live nonces as
-- the capacity; all of them stay.
pub register_full :
    (cache : NonceCache) (agent nonce : Text) (expires_at now : ℕ)
    → (register cache agent nonce expires_at now).1 ≡ full
    → let kept = entries_of (register cache agent nonce expires_at now).0 agent in
      (kept ≡ purge now (entries_of cache agent))
      × All (λ (e : Text × ℕ). now < e.1) kept
      × (cache.max_entries_per_agent ≤ length kept)
      × (is_live now (lookup nonce (entries_of cache agent)) ≡ false)
register_full cache agent nonce expires_at now h =
    let (left, many, unseen) =
      register_entry-full cache.max_entries_per_agent (entries_of cache agent) nonce expires_at now
        (unfold register in h) in
    let kept : entries_of (register cache agent nonce expires_at now).0 agent
        ≡ purge now (entries_of cache agent) =
      rw entries_of-register (rw text_eq_refl left) in
    (
      kept,
      subst (λ m. All (λ (e : Text × ℕ). now < e.1) m) (sym kept)
          (purge-live now (entries_of cache agent)),
      subst (λ (m : Entries). cache.max_entries_per_agent ≤ length m) (sym kept) many,
      unseen,
    )
