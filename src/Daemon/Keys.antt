-- ===== src/Daemon/Keys.antt =====
-- src/daemon/authorityCache.ts and identity.ts: is the daemon's key still the one of the agent's
-- permission on the chain, and is a transaction the agent's own. The resolver's answer is an argument
-- of `check_key`: a throw, or whether the key is authorized.
use signbox.Prelude.{
  ℕ, ◌+◌, ◌<◌, ◌≡◌, refl, ◌⊎◌, inl, inr, Bool, true, false, ◌&&◌, Option, none, some, List, [], ◌∷◌,
  ◌++◌, arith, ltb, if◌then◌else◌, Bool-cases, every, All,
}
use signbox.Prelude.Text.{Text, text_eq, text_eq_iff, lookup, insert, remove}
use signbox.Prelude.Outcome.{Outcome, ok, err}
use signbox.Errors.{Thrown}
use signbox.Policy.Types.{Authorization, DecodedAction, DecodedTransaction}

pub record KeyEntry : Type 0 where
  pub authorized : Bool
  pub verified_at_ms : ℕ

pub record AuthorityCache : Type 0 where
  pub entries : List (Text × KeyEntry)
  pub freshness_ms : ℕ
  pub negative_ms : ℕ

abbrev pub unit_separator : ℕ
unit_separator = 0x1f

pub cache_key : Text → Text → Text → Text
cache_key account permission public_key =
    account ++ (unit_separator ∷ (permission ++ (unit_separator ∷ public_key)))

pub ttl : AuthorityCache → KeyEntry → ℕ
ttl cache e = if e.authorized then cache.freshness_ms else cache.negative_ms

pub is_authorized : Outcome Thrown Bool → Bool
is_authorized (ok b) = b
is_authorized (err t) = false

pub resolved : AuthorityCache → Text → ℕ → Bool → AuthorityCache × Bool
resolved cache key now_ms authorized = (
  record cache {
    entries =
        insert key (record { authorized = authorized; verified_at_ms = now_ms }) cache.entries;
  },
  authorized,
)

pub check_entry :
    AuthorityCache → Text → ℕ → Outcome Thrown Bool → Option KeyEntry → AuthorityCache × Bool
unfolding ttl is_authorized resolved
check_entry cache key now_ms answer none = resolved cache key now_ms (is_authorized answer)
check_entry cache key now_ms answer (some e) =
    if ltb now_ms (e.verified_at_ms + ttl cache e)
    then (cache, e.authorized)
    else resolved cache key now_ms (is_authorized answer)

-- `check`.
unfoldable pub check_key :
    AuthorityCache → Text → Text → Text → ℕ → Outcome Thrown Bool → AuthorityCache × Bool
unfolding cache_key check_entry
check_key cache account permission public_key now_ms answer =
    let key = cache_key account permission public_key in
    check_entry cache key now_ms answer (lookup key cache.entries)

pub invalidate : AuthorityCache → Text → Text → Text → AuthorityCache
unfolding cache_key
invalidate cache account permission public_key = record cache {
  entries = remove (cache_key account permission public_key) cache.entries;
}

own_authorization : Text → Text → List Authorization → Bool
own_authorization agent permission (auth ∷ []) =
    text_eq auth.account_identifier agent && text_eq auth.permission permission
own_authorization agent permission _ = false

-- `checkLocalIdentity`.
unfoldable pub check_local_identity : DecodedTransaction → Text → Text → Bool
unfolding own_authorization
check_local_identity tx agent permission =
    every (λ (a : DecodedAction). own_authorization agent permission a.authorization) tx.actions

own_authorization_only :
    (agent permission : Text) (auths : List Authorization)
    → own_authorization agent permission auths ≡ true
    → auths ≡ (record { account_identifier = agent; permission = permission }) ∷ []
unfolding own_authorization
own_authorization_only agent permission [] h = absurd (cc h)
own_authorization_only agent permission (auth ∷ []) h =
    let actor : auth.account_identifier ≡ agent =
      ground (arith, text_eq_iff auth.account_identifier agent) in
    let level : auth.permission ≡ permission =
      ground (arith, text_eq_iff auth.permission permission) in
    cc (actor, level)
own_authorization_only agent permission (auth ∷ other ∷ auths) h = absurd (cc h)

own_actions :
    (agent permission : Text) (actions : List DecodedAction)
    → every (λ (a : DecodedAction). own_authorization agent permission a.authorization) actions
      ≡ true
    → All
        (λ (a : DecodedAction).
          a.authorization ≡ (record { account_identifier = agent; permission = permission }) ∷ [])
        actions
own_actions agent permission [] h = tt
own_actions agent permission (a ∷ actions) h = (
  own_authorization_only agent permission a.authorization (ground arith),
  own_actions agent permission actions (ground arith),
)

-- A transaction that passes the gate has on each action the agent's authorization and no other.
pub check_local_identity_own :
    (tx : DecodedTransaction) (agent permission : Text)
    → check_local_identity tx agent permission ≡ true
    → All
        (λ (a : DecodedAction).
          a.authorization ≡ (record { account_identifier = agent; permission = permission }) ∷ [])
        tx.actions
unfolding check_local_identity
check_local_identity_own tx agent permission h = own_actions agent permission tx.actions h

is_authorized_answer :
    (answer : Outcome Thrown Bool) → is_authorized answer ≡ true → answer ≡ ok true
unfolding is_authorized
is_authorized_answer (ok true) h = refl
is_authorized_answer (ok false) h = absurd (cc h)
is_authorized_answer (err t) h = absurd (cc h)

check_entry_verified :
    (cache : AuthorityCache) (key : Text) (now_ms : ℕ) (answer : Outcome Thrown Bool)
    (found : Option KeyEntry)
    → (check_entry cache key now_ms answer found).1 ≡ true
    → (answer ≡ ok true)
      ⊎ ((e : KeyEntry) × (found ≡ some e)
          × (e.authorized ≡ true)
          × (now_ms < e.verified_at_ms + cache.freshness_ms))
unfolding check_entry resolved ttl
check_entry_verified cache key now_ms answer none h = inl (is_authorized_answer answer h)
check_entry_verified cache key now_ms answer (some e) h =
    elim (Bool-cases (
      ltb now_ms
        (e.verified_at_ms + (if e.authorized then cache.freshness_ms else cache.negative_ms)))) [
          | inl live ↦
              let good : e.authorized ≡ true = rw live at h in
              inr (e, refl, good, ground (arith, rw good at live))
          | inr stale ↦ inl (is_authorized_answer answer (rw stale at h))
        ]

-- A key passes only if the resolver authorizes it in this call, or authorized it less than the
-- freshness window ago: a throw of the resolver never passes.
pub check_key_verified :
    (cache : AuthorityCache) (account permission public_key : Text) (now_ms : ℕ)
    (answer : Outcome Thrown Bool)
    → (check_key cache account permission public_key now_ms answer).1 ≡ true
    → (answer ≡ ok true)
      ⊎ ((e : KeyEntry) × (lookup (cache_key account permission public_key) cache.entries ≡ some e)
          × (e.authorized ≡ true)
          × (now_ms < e.verified_at_ms + cache.freshness_ms))
unfolding check_key
check_key_verified cache account permission public_key now_ms answer h =
    check_entry_verified cache (cache_key account permission public_key) now_ms answer _ h
