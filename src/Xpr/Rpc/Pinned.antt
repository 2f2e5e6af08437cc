-- ===== src/Xpr/Rpc/Pinned.antt =====
-- No request goes out but behind a verification of the pinned chain.
use signbox.Prelude.{
  ℕ, ◌+◌, ◌<◌, ◌≤◌, ◌≡◌, refl, ◌⊎◌, inl, inr, true, Option, none, some, List, [], ◌∷◌, arith, Any,
  Bool-cases,
}
use signbox.Prelude.Text.{Text, text_eq, text_eq_iff}
use signbox.Prelude.Outcome.{Outcome, ok, err}
use signbox.Value.{Value}
use signbox.Xpr.Rpc.{
  RpcOptions, verify_path, HeadTime, missing, unparsable, at_ms, Info, RpcError, Event, verified,
  sent, Rpc, new_rpc, Reading, check_head, check_info, checked, answered, get_info, is_fresh,
  ensure_verified, send, fetch,
}

module _ (opts : RpcOptions) where
  -- An answer of the pinned chain whose head is no older than the lag.
  pub record IsCurrent (info : Info) (now_ms : ℕ) : Type 0 where
    pub pinned : info.chain_id ≡ opts.chain_id
    pub head_ms : ℕ
    pub head : info.head_time ≡ at_ms head_ms
    pub recent : now_ms ≤ head_ms + opts.max_head_lag_ms

  -- The verification is current, and younger than the freshness at the instant.
  abbrev pub Covers : ℕ → Event → Type 0
  Covers asked_at_ms (sent path at) = ⊥
  Covers asked_at_ms (verified info checked_at_ms stored_at_ms) =
      IsCurrent info checked_at_ms × (asked_at_ms < stored_at_ms + opts.freshness_ms)

  -- The last thing that happened is a verification.
  abbrev pub JustVerified : List Event → Type 0
  JustVerified [] = ⊥
  JustVerified (sent path at ∷ events) = ⊥
  JustVerified (verified info checked_at_ms stored_at_ms ∷ events) = IsCurrent info checked_at_ms

  -- Each request that went out, the newest first, is that of a verification itself, or it follows a
  -- verification at once, or within the freshness of one.
  abbrev pub IsPinned : List Event → Type 0
  IsPinned [] = Unit {0}
  IsPinned (verified info checked_at_ms stored_at_ms ∷ events) = IsPinned events
  IsPinned (sent path asked_at_ms ∷ events) =
      ((path ≡ verify_path) ⊎ JustVerified events ⊎ Any (Covers asked_at_ms) events)
      × IsPinned events

  abbrev VerifiedAt : ℕ → Event → Type 0
  VerifiedAt at (sent path asked) = ⊥
  VerifiedAt at (verified info checked_at_ms stored_at_ms) =
      IsCurrent info checked_at_ms × (stored_at_ms ≡ at)

  -- The time that the state holds is that of a verification.
  record IsCoherent (rpc : Rpc) : Type 0 where
    events : IsPinned rpc.events
    known : (at : ℕ) → rpc.verified_at_ms ≡ some at → Any (VerifiedAt at) rpc.events

  covers :
      (at asked : ℕ) (events : List Event)
      → asked < at + opts.freshness_ms
      → Any (VerifiedAt at) events
      → Any (Covers asked) events
  covers at asked [] fresh h = absurd h
  covers at asked (sent path a ∷ events) fresh (inr h) = inr (covers at asked events fresh h)
  covers at asked (sent path a ∷ events) fresh (inl h) = absurd h
  covers at asked (verified info c s ∷ events) fresh (inr h) = inr (covers at asked events fresh h)
  covers at asked (verified info c s ∷ events) fresh (inl (current, same)) =
      inl (current, omega arith)

  check_head-recent :
      (now_ms : ℕ) (head : HeadTime)
      → check_head opts.max_head_lag_ms now_ms head ≡ ok tt
      → (h : ℕ) × (head ≡ at_ms h) × (now_ms ≤ h + opts.max_head_lag_ms)
  unfolding check_head
  check_head-recent now_ms missing e = absurd (cc (e))
  check_head-recent now_ms unparsable e = absurd (cc (e))
  check_head-recent now_ms (at_ms h) e = (h, refl, ground arith)

  pub check_info-IsCurrent :
      (now_ms : ℕ) (info : Info) → check_info opts now_ms info ≡ ok tt → IsCurrent info now_ms
  unfolding check_info
  check_info-IsCurrent now_ms info e = elim (Bool-cases (text_eq info.chain_id opts.chain_id)) [
    | inr other ↦ absurd (cc (rw other at e))
    | inl same ↦
        let (h, head, recent) = check_head-recent now_ms info.head_time (rw same at e) in
        record {
          pinned = (text_eq_iff info.chain_id opts.chain_id).0 same;
          head_ms = h;
          head = head;
          recent = recent;
        }
  ]

  -- What get_info leaves: as before, or behind a verification.
  checked-IsCoherent :
      (rpc : Rpc) (r : Reading) (info : Info) (result : Outcome RpcError (Unit {0}))
      → check_info opts r.checked_at_ms info ≡ result
      → IsCoherent rpc
      → IsCoherent (checked opts rpc r info result).0
        × (((e : RpcError) × ((checked opts rpc r info result).1 ≡ err e))
            ⊎ JustVerified (checked opts rpc r info result).0.events)
  unfolding checked
  checked-IsCoherent rpc r info (err e) h c = (c, inl (e, refl))
  checked-IsCoherent rpc r info (ok tt) h c =
      let current = check_info-IsCurrent r.checked_at_ms info h in
      (record { events = c.events; known = λ at same. inl (current, cc (same)) }, inr current)

  answered-IsCoherent :
      (rpc : Rpc) (r : Reading) (answer : Outcome RpcError Info)
      → IsCoherent rpc
      → IsCoherent (answered opts rpc r answer).0
        × (((e : RpcError) × ((answered opts rpc r answer).1 ≡ err e))
            ⊎ JustVerified (answered opts rpc r answer).0.events)
  unfolding answered
  answered-IsCoherent rpc r (err e) c = (c, inl (e, refl))
  answered-IsCoherent rpc r (ok info) c =
      checked-IsCoherent rpc r info (check_info opts r.checked_at_ms info) refl c

  get_info-IsCoherent :
      (rpc : Rpc) (r : Reading)
      → IsCoherent rpc
      → IsCoherent (get_info opts rpc r).0
        × (((e : RpcError) × ((get_info opts rpc r).1 ≡ err e))
            ⊎ JustVerified (get_info opts rpc r).0.events)
  unfolding get_info
  get_info-IsCoherent rpc r c =
      answered-IsCoherent (record rpc { events = sent verify_path r.asked_at_ms ∷ rpc.events }) r
        r.info (record { events = (inl refl, c.events); known = λ at same. inr (c.known at same) })

  Backed : ℕ → Rpc → Type 0
  Backed asked rpc = JustVerified rpc.events ⊎ Any (Covers asked) rpc.events

  is_fresh-known :
      (at : Option ℕ) (asked : ℕ)
      → is_fresh opts at asked ≡ true
      → (t : ℕ) × (at ≡ some t) × (asked < t + opts.freshness_ms)
  unfolding is_fresh
  is_fresh-known none asked h = absurd (cc (h))
  is_fresh-known (some t) asked h = (t, refl, ground (arith, h))

  ensured-IsCoherent :
      (rpc : Rpc) (r : Reading)
      → IsCoherent rpc
      → IsCoherent (ensure_verified opts rpc r).0
        × (((e : RpcError) × ((ensure_verified opts rpc r).1 ≡ err e))
            ⊎ Backed r.asked_at_ms (ensure_verified opts rpc r).0)
  unfolding ensure_verified Backed
  ensured-IsCoherent rpc r c = elim (Bool-cases (is_fresh opts rpc.verified_at_ms r.asked_at_ms)) [
    | inl fresh ↦
        let (t, known, within) = is_fresh-known rpc.verified_at_ms r.asked_at_ms fresh in
        rw fresh ((c, inr (inr (covers t r.asked_at_ms rpc.events within (c.known t known)))))
    | inr stale ↦
        let (coherent, result) = get_info-IsCoherent rpc r c in
        rw stale (
          (
            coherent,
            elim result [ inl (e, refused) ↦ inl (e, rw refused refl) | inr just ↦ inr (inl just) ],
          ))
  ]

  send-IsCoherent :
      (original : Text → Value → Outcome RpcError Value) (path : Text) (body : Value) (asked : ℕ)
      (ready : Rpc × Outcome RpcError (Unit {0}))
      → IsCoherent ready.0
      → ((e : RpcError) × (ready.1 ≡ err e)) ⊎ ((path ≡ verify_path) ⊎ Backed asked ready.0)
      → IsCoherent (send opts original path body asked ready).0
  unfolding send Backed
  send-IsCoherent original path body asked (rpc, err e) c backed = c
  send-IsCoherent original path body asked (rpc, ok u) c (inl (e, h)) = absurd (cc (h))
  send-IsCoherent original path body asked (rpc, ok u) c (inr backed) = record {
    events = (backed, c.events);
    known = λ at same. inr (c.known at same);
  }

  fetch-IsCoherent :
      (original : Text → Value → Outcome RpcError Value) (rpc : Rpc) (r : Reading) (path : Text)
      (body : Value)
      → IsCoherent rpc
      → IsCoherent (fetch opts original rpc r path body).0
  unfolding fetch
  fetch-IsCoherent original rpc r path body c = elim (Bool-cases (text_eq path verify_path)) [
    | inl own ↦ rw own (
        send-IsCoherent original path body r.asked_at_ms (rpc, ok tt) c
          (inr (inl ((text_eq_iff path verify_path).0 own))))
    | inr other ↦ rw other (
        let (coherent, ready) = ensured-IsCoherent rpc r c in
        send-IsCoherent original path body r.asked_at_ms (ensure_verified opts rpc r) coherent
          (elim ready [ inl refused ↦ inl refused | inr backed ↦ inr (inr backed) ]))
  ]

-- A use of the wrapped object: a read of the chain's info, or a request with a path and a body.
pub data Use : Type 0 where
  asks_info : Reading → Use
  requests : Reading → (path : Text) (body : Value) → Use

module _ (opts : RpcOptions) (original : Text → Value → Outcome RpcError Value) where
  pub use_rpc : Rpc → Use → Rpc
  use_rpc rpc (asks_info r) = (get_info opts rpc r).0
  use_rpc rpc (requests r path body) = (fetch opts original rpc r path body).0

  unfoldable pub use_all : Rpc → List Use → Rpc
  unfolding use_rpc
  use_all rpc [] = rpc
  use_all rpc (u ∷ us) = use_all (use_rpc rpc u) us

  use-IsCoherent : (rpc : Rpc) (u : Use) → IsCoherent opts rpc → IsCoherent opts (use_rpc rpc u)
  unfolding use_rpc
  use-IsCoherent rpc (asks_info r) c = (get_info-IsCoherent opts rpc r c).0
  use-IsCoherent rpc (requests r path body) c = fetch-IsCoherent opts original rpc r path body c

  use_all-IsCoherent :
      (rpc : Rpc) (us : List Use) → IsCoherent opts rpc → IsCoherent opts (use_all rpc us)
  unfolding use_all
  use_all-IsCoherent rpc [] c = c
  use_all-IsCoherent rpc (u ∷ us) c = use_all-IsCoherent (use_rpc rpc u) us (use-IsCoherent rpc u c)

-- However the wrapped object is used, each request that goes out, other than the verification's own,
-- goes out at once after a verification, or within the freshness of one: get_info had answered with
-- the pinned chain id and a head no older than the lag.
pub use_all-IsPinned :
    (opts : RpcOptions) (original : Text → Value → Outcome RpcError Value) (us : List Use)
    → IsPinned opts (use_all opts original new_rpc us).events
use_all-IsPinned opts original us =
    (use_all-IsCoherent opts original new_rpc us
      (record { events = tt; known = λ at h. absurd (cc (h)) })).events
