-- ===== src/NonceCache/Tests.antt =====
-- Runs of src/daemon/nonceCache.ts on concrete calls.
use signbox.Prelude.{ℕ, ◌≡◌, refl, inl, inr, [], ◌∷◌, arith, Bool-cases}
use signbox.Prelude.Text.{Text, lit, text_eq, lookup}
use signbox.NonceCache.{NonceCache, replayed, Call, register, run, size_of, new_cache}
use signbox.NonceCache.Replay.{register_replay}
use signbox.NonceCache.Bounds.{IsBounded, register-IsBounded}

abbrev call_of : Text → Text → ℕ → ℕ → Call
call_of agent nonce expires_at now = record {
  agent = agent;
  nonce = nonce;
  expires_at = expires_at;
  now = now;
}

abbrev one_slot : NonceCache
one_slot = record { per_agent = []; max_entries_per_agent = 1 }

abbrev occupied : NonceCache
occupied = record { per_agent = (lit "a", (lit "n", 10) ∷ []) ∷ []; max_entries_per_agent = 1 }

register_replay_example :
    (register
      (run (register new_cache (lit "a") (lit "n") 10 1).0 (call_of (lit "bo") (lit "n") 9 2 ∷ []))
      (lit "a")
      (lit "n")
      20
      5).1
    ≡ replayed
unfolding register lookup
register_replay_example =
    register_replay new_cache (lit "a") (lit "n") 10 1 20 5 (call_of (lit "bo") (lit "n") 9 2 ∷ [])
      refl (omega arith, tt) (omega arith)

occupied-IsBounded : IsBounded occupied
unfolding IsBounded size_of lookup
occupied-IsBounded agent = elim (Bool-cases (text_eq (lit "a") agent)) [
  | inl own ↦ rw own (omega arith)
  | inr other ↦ rw other (omega arith)
]

register-IsBounded_example : IsBounded (register occupied (lit "a") (lit "m") 20 11).0
register-IsBounded_example =
    register-IsBounded occupied (call_of (lit "a") (lit "m") 20 11) occupied-IsBounded
