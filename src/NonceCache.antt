-- ===== src/NonceCache.antt =====
-- src/daemon/nonceCache.ts: the anti-replay cache, one map from nonce to expiry for each agent.
pub mod Replay
pub mod Bounds
pub mod Tests
use signbox.Prelude.{
  ℕ, zero, suc, ◌+◌, ◌-◌, ◌*◌, ◌/◌, ◌%◌, ◌^◌, ◌≤◌, ◌<◌, max, String, ◌≡◌, refl, sym, ap, ◌∙◌, subst,
  ◌≡⟨◌⟩◌, ◌∎, fun_ext, ◌≢◌, ◌↔◌, ◌⊎◌, inl, inr, Bool, true, false, not, ◌&&◌, ◌||◌, Option, none,
  some, List, [], ◌∷◌, ◌++◌, map, append-nil, append_assoc, arith, ltb, leb, ◌==◌, if◌then◌else◌,
  ==_iff, leb_iff, &&_iff, Bool-cases, Option-cases, length, take, drop, replicate, length-append,
  length-replicate, take-append-drop, length-drop, keep, any, every, All, Any, All-append, All-map,
  every_iff, any_iff, any-false,
}
use signbox.Prelude.Text.{
  Text, lit, text_eq, text_eq_iff, text_eq_refl, starts_with, includes, split, text_mem, lookup,
  insert, lookup-insert, remove, lookup-remove,
}
use signbox.Prelude.Outcome.{Outcome, ok, err, ◌>>=◌, >>=-eq-ok, Outcome-cases, find_ok}

abbrev pub Entries : Type 0
Entries = List (Text × ℕ)

pub record NonceCache : Type 0 where
  pub per_agent : List (Text × Entries)
  pub max_entries_per_agent : ℕ

pub data NonceState : Type 0 where
  fresh replayed full : NonceState

abbrev pub new_cache : NonceCache
new_cache = record { per_agent = []; max_entries_per_agent = 100_000 }

or_empty : Option Entries → Entries
or_empty none = []
or_empty (some entries) = entries

pub entries_of : NonceCache → Text → Entries
unfolding or_empty
entries_of cache agent = or_empty (lookup agent cache.per_agent)

pub purge : ℕ → Entries → Entries
purge now entries = keep (λ e. not (leb e.1 now)) entries

pub is_live : ℕ → Option ℕ → Bool
is_live now none = false
is_live now (some expiry) = ltb now expiry

-- The agent's own map after the call, and the verdict.
pub register_entry : ℕ → Entries → Text → ℕ → ℕ → Entries × NonceState
unfolding purge is_live
register_entry capacity entries nonce expires_at now =
    if is_live now (lookup nonce entries)
    then (entries, replayed)
    else if leb capacity (length entries)
    then if leb capacity (length (purge now entries))
      then (purge now entries, full)
      else (insert nonce expires_at (purge now entries), fresh)
    else (insert nonce expires_at entries, fresh)

-- The map of an unknown agent is created first; the updates of the agent's map are in place.
unfoldable pub register : NonceCache → Text → Text → ℕ → ℕ → NonceCache × NonceState
unfolding entries_of register_entry
register cache agent nonce expires_at now =
    let (entries, state) =
      register_entry cache.max_entries_per_agent (entries_of cache agent) nonce expires_at now in
    (record cache { per_agent = insert agent entries cache.per_agent }, state)

pub size_of : NonceCache → Text → ℕ
unfolding entries_of
size_of cache agent = length (entries_of cache agent)

-- A call of `register`, and a run of calls.
pub record Call : Type 0 where
  pub agent : Text
  pub nonce : Text
  pub expires_at : ℕ
  pub now : ℕ

pub run : NonceCache → List Call → NonceCache
unfolding register
run cache [] = cache
run cache (c ∷ calls) = run (register cache c.agent c.nonce c.expires_at c.now).0 calls
