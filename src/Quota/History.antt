-- ===== src/Quota/History.antt =====
-- Any run of the journal's operations, and the rule by which a sum over the journal stays bounded.
use signbox.Prelude.{
  ℕ, ◌+◌, ◌≤◌, ◌≡◌, refl, inl, inr, true, false, not, some, List, [], ◌∷◌, ◌++◌, arith, ltb, ◌==◌,
  Bool-cases, All, All-map,
}
use signbox.Prelude.Text.{Text, text_eq, text_eq_iff}
use signbox.Prelude.Outcome.{ok, Outcome-cases}
use signbox.Policy.Types.{QuotaDemand}
use signbox.Quota.{
  retention_ms, Event, committed, released, Journal, is_released, total, prune, check_demand,
  reserved_event, reserve_all, after_transaction, reserve, set_released, set_committed, release,
  committed_as, commit, count_events,
}
use signbox.Quota.Totals.{total-eq, total-le, total-map, total-keep-le}

-- The journal after any run of operations with a clock that does not run backwards. Every demand
-- that is reserved satisfies `P`; a commit is made for rows that are not released.
pub data History (P : QuotaDemand → Type 0) : Journal → ℕ → Type 0 where
  opened : History P [] 0
  after_reserve :
      {journal : Journal} {then_ms : ℕ}
      → History P journal then_ms
      → (reservation_id agent : Text) (demands : List QuotaDemand) (now_ms : ℕ) → then_ms ≤ now_ms
      → All P demands
      → History P (reserve reservation_id journal agent demands now_ms).0 now_ms
  after_commit :
      {journal : Journal} {then_ms : ℕ}
      → History P journal then_ms
      → (reservation_id agent digest : Text)
      → All (λ (e : Event). e.reservation_id ≡ reservation_id → is_released e.state ≡ false) journal
      → History P (commit reservation_id agent digest journal) then_ms
  after_release :
      {journal : Journal} {then_ms : ℕ}
      → History P journal then_ms
      → (reservation_id : Text) → History P (release reservation_id journal) then_ms

-- A weight that only rows that are not released have, and that the digest does not change.
abbrev pub IsLive : (Event → ℕ) → Type 0
IsLive w =
    ((e : Event) → is_released e.state ≡ true → w e ≡ 0)
    × ((e : Event) (digest : Text)
        → is_released e.state ≡ false
        → w (record e { state = committed; digest = some digest }) ≡ w e)

set_released-le : (w : Event → ℕ) (rid : Text) (e : Event) → IsLive w → w (set_released rid e) ≤ w e
unfolding set_released is_released
set_released-le w rid e (dead, same) = elim (Bool-cases (text_eq e.reservation_id rid)) [
  | inl own ↦ rw own (rw (dead (record e { state = released }) refl) (omega arith))
  | inr other ↦ rw other (omega arith)
]

total-release-le :
    (w : Event → ℕ) (rid : Text) (journal : Journal)
    → IsLive w
    → total w (release rid journal) ≤ total w journal
unfolding release
total-release-le w rid journal live =
    rw total-map (total-le _ w journal (λ e. set_released-le w rid e live))

set_committed-eq :
    (w : Event → ℕ) (rid digest : Text) (e : Event)
    → IsLive w
    → (e.reservation_id ≡ rid → is_released e.state ≡ false)
    → w (set_committed rid digest e) ≡ w e
unfolding set_committed
set_committed-eq w rid digest e (dead, same) fresh =
    elim (Bool-cases (text_eq e.reservation_id rid)) [
      | inl own ↦ rw own (same e digest (fresh ((text_eq_iff e.reservation_id rid).0 own)))
      | inr other ↦ rw other refl
    ]

total-commit-le :
    (w : Event → ℕ) (rid agent digest : Text) (journal : Journal)
    → IsLive w
    → All (λ (e : Event). e.reservation_id ≡ rid → is_released e.state ≡ false) journal
    → total w (commit rid agent digest journal) ≤ total w journal
unfolding commit
total-commit-le w rid agent digest journal live fresh =
    elim (Bool-cases (count_events (committed_as agent digest) journal == 0)) [
      | inl first_time ↦ rw first_time (
          rw total-map (
            omega (
              arith,
              total-eq (λ e. w (set_committed rid digest e)) w journal
                  (All-map (λ (e : Event) f. set_committed-eq w rid digest e live f) journal fresh),
            )))
      | inr again ↦ rw again (total-release-le w rid journal live)
    ]

-- What an invariant on one weight needs of the rule that reservations follow.
module _ (P : QuotaDemand → Type 0) (w : ℕ → Event → ℕ) (cap : ℕ) where
  abbrev pub FallsWithTime : Type 0
  FallsWithTime = (t u : ℕ) (e : Event) → t ≤ u → w u e ≤ w t e

  abbrev pub ReservesWithin : Type 0
  ReservesWithin =
      (rid agent : Text) (journal : Journal) (d : QuotaDemand) (now_ms : ℕ)
      → P d
      → check_demand journal agent d now_ms ≡ ok tt
      → total (w now_ms) journal ≤ cap
      → total (w now_ms) (journal ++ (reserved_event rid agent d now_ms ∷ [])) ≤ cap

  reserve_all-le :
      (rid agent : Text) (now_ms : ℕ) (journal after : Journal) (demands : List QuotaDemand)
      → ReservesWithin
      → All P demands
      → reserve_all rid agent now_ms journal demands ≡ ok after
      → total (w now_ms) journal ≤ cap
      → total (w now_ms) after ≤ cap
  unfolding reserve_all
  reserve_all-le rid agent now_ms journal after [] step ps h le = ground arith
  reserve_all-le rid agent now_ms journal after (d ∷ ds) step (p, ps) h le =
      elim (Outcome-cases (check_demand journal agent d now_ms)) [
        | inl (r, refused) ↦ absurd (ground arith)
        | inr (tt, passed) ↦
            reserve_all-le rid agent now_ms (journal ++ (reserved_event rid agent d now_ms ∷ []))
              after ds step ps (rw (passed, reserve_all) at h)
              (step rid agent journal d now_ms p passed le)
      ]

  reserve-le :
      (rid agent : Text) (now_ms : ℕ) (journal : Journal) (demands : List QuotaDemand)
      → ReservesWithin
      → All P demands
      → total (w now_ms) journal ≤ cap
      → total (w now_ms) (reserve rid journal agent demands now_ms).0 ≤ cap
  unfolding reserve after_transaction prune
  reserve-le rid agent now_ms journal demands step ps le =
      elim (Outcome-cases (reserve_all rid agent now_ms (prune now_ms journal) demands)) [
        | inl (r, refused) ↦ rw (refused, after_transaction) le
        | inr (after, done) ↦
            rw (done, after_transaction)
              (reserve_all-le rid agent now_ms (prune now_ms journal) after demands step ps done (
                omega (
                  arith,
                  total-keep-le (w now_ms) (λ e. not (ltb (e.created_at_ms + retention_ms) now_ms))
                      journal,
                )))
      ]

  pub History-le :
      {journal : Journal} {then_ms : ℕ}
      → FallsWithTime
      → ((t : ℕ) → IsLive (w t))
      → ReservesWithin
      → History P journal then_ms
      → (later_ms : ℕ) → then_ms ≤ later_ms
      → total (w later_ms) journal ≤ cap
  History-le falls live step opened later_ms le = unfold total in omega arith
  History-le falls live step
        (after_reserve {journal} {then_ms} h rid agent demands now_ms forward ps) later_ms le =
      let before = History-le falls live step h now_ms forward in
      omega (
        arith,
        reserve-le rid agent now_ms journal demands step ps before,
        total-le (w later_ms) (w now_ms) (reserve rid journal agent demands now_ms).0
            (λ e. falls now_ms later_ms e le),
      )
  History-le falls live step (after_commit {journal} h rid agent digest fresh) later_ms le = omega (
    arith,
    total-commit-le (w later_ms) rid agent digest journal (live later_ms) fresh,
    History-le falls live step h later_ms le,
  )
  History-le falls live step (after_release {journal} h rid) later_ms le = omega (
    arith,
    total-release-le (w later_ms) rid journal (live later_ms),
    History-le falls live step h later_ms le,
  )
