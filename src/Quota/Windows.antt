-- ===== src/Quota/Windows.antt =====
-- The windows of the quota queries: pruning, and a reservation that is released.
use signbox.Prelude.{
  ℕ, ◌+◌, ◌≤◌, ◌≡◌, refl, ap, ◌∙◌, ◌≢◌, inl, inr, Bool, false, not, List, [], ◌∷◌, ◌++◌, append-nil,
  append_assoc, arith, ltb, Bool-cases, keep, All, All-map,
}
use signbox.Prelude.Text.{Text, text_eq_iff}
use signbox.Prelude.Outcome.{ok, Outcome-cases}
use signbox.Policy.Types.{QuotaDemand}
use signbox.Quota.{
  retention_ms, Event, Journal, is_released, in_window, total, consumed, count_in_window,
  count_to_recipient, prune, reserved_event, reserve_all, after_transaction, reserve, set_released,
  release,
}
use signbox.Quota.Totals.{total-append, total-eq, total-map, total-keep, total-zero}

-- A row that pruning drops lies in no window of at most two days, then or later.
pruned-in_window :
    (agent rule_id : Text) (window_ms now_ms later_ms : ℕ) (e : Event)
    → window_ms ≤ retention_ms
    → now_ms ≤ later_ms
    → not (ltb (e.created_at_ms + retention_ms) now_ms) ≡ false
    → in_window agent rule_id window_ms later_ms e ≡ false
unfolding in_window
pruned-in_window agent rule_id window_ms now_ms later_ms e short le old = ground arith

-- The weight of the three queries: a row outside the window weighs nothing.
abbrev InWindow : Text → Text → ℕ → ℕ → (Event → ℕ) → Type 0
InWindow agent rule_id window_ms now_ms w =
    (e : Event) → in_window agent rule_id window_ms now_ms e ≡ false → w e ≡ 0

total-prune :
    (agent rule_id : Text) (window_ms now_ms later_ms : ℕ) (w : Event → ℕ) (journal : Journal)
    → window_ms ≤ retention_ms
    → now_ms ≤ later_ms
    → InWindow agent rule_id window_ms later_ms w
    → total w (prune now_ms journal) ≡ total w journal
unfolding prune
total-prune agent rule_id window_ms now_ms later_ms w journal short le h =
    total-keep w _ journal
      (λ e old. h e (pruned-in_window agent rule_id window_ms now_ms later_ms e short le old))

-- Dropping the rows older than two days changes no sum and no count, now or later, for a window of
-- at most two days.
pub prune_harmless :
    (journal : Journal) (agent rule_id symbol recipient : Text)
    (precision window_ms now_ms later_ms : ℕ)
    → window_ms ≤ retention_ms
    → now_ms ≤ later_ms
    → (consumed (prune now_ms journal) agent rule_id symbol precision window_ms later_ms
        ≡ consumed journal agent rule_id symbol precision window_ms later_ms)
      × (count_in_window (prune now_ms journal) agent rule_id window_ms later_ms
          ≡ count_in_window journal agent rule_id window_ms later_ms)
      × (count_to_recipient (prune now_ms journal) agent rule_id recipient window_ms later_ms
          ≡ count_to_recipient journal agent rule_id recipient window_ms later_ms)
unfolding consumed count_in_window count_to_recipient
prune_harmless journal agent rule_id symbol recipient precision window_ms now_ms later_ms short le =
    (
      total-prune agent rule_id window_ms now_ms later_ms _ journal short le (λ e out. rw out),
      total-prune agent rule_id window_ms now_ms later_ms _ journal short le (λ e out. rw out),
      total-prune agent rule_id window_ms now_ms later_ms _ journal short le (λ e out. rw out),
    )

-- A reservation appends rows of its own id.
pub reserve_all-appends :
    (reservation_id agent : Text) (now_ms : ℕ) (journal after : Journal)
    (demands : List QuotaDemand)
    → reserve_all reservation_id agent now_ms journal demands ≡ ok after
    → (rows : Journal) × (after ≡ journal ++ rows)
      × All (λ (e : Event). e.reservation_id ≡ reservation_id) rows
unfolding reserve_all
reserve_all-appends rid agent now_ms journal after [] h =
    ([], ground (arith, append-nil journal), tt)
reserve_all-appends rid agent now_ms journal after (d ∷ ds) h =
    let event = reserved_event rid agent d now_ms in
    let (rows, same, own) =
      reserve_all-appends rid agent now_ms (journal ++ (event ∷ [])) after ds (ground arith) in
    (
      event ∷ rows,
      same ∙ append_assoc journal (event ∷ []) rows,
      (unfold reserved_event in refl, own),
    )

-- A reservation that succeeds leaves the pruned journal with its rows behind.
pub reserve-ok :
    (reservation_id agent : Text) (now_ms : ℕ) (journal : Journal) (demands : List QuotaDemand)
    → (reserve reservation_id journal agent demands now_ms).1 ≡ ok tt
    → reserve_all reservation_id agent now_ms (prune now_ms journal) demands
      ≡ ok (reserve reservation_id journal agent demands now_ms).0
unfolding reserve after_transaction
reserve-ok rid agent now_ms journal demands h =
    elim (Outcome-cases (reserve_all rid agent now_ms (prune now_ms journal) demands)) [
      | inl (r, refused) ↦ absurd (ground arith)
      | inr (after, done) ↦ rw done
    ]

module _ (agent rule_id : Text) (window_ms later_ms : ℕ) where
  release-in_window :
      (rid : Text) (e : Event)
      → e.reservation_id ≡ rid
      → in_window agent rule_id window_ms later_ms (set_released rid e) ≡ false
  unfolding in_window set_released is_released
  release-in_window rid e h = ground (arith, text_eq_iff e.reservation_id rid)

  release-other : (rid : Text) (e : Event) → e.reservation_id ≢ rid → set_released rid e ≡ e
  unfolding set_released
  release-other rid e h = ground (arith, text_eq_iff e.reservation_id rid)

  total-release :
      (rid : Text) (w : Event → ℕ) (old rows : Journal)
      → InWindow agent rule_id window_ms later_ms w
      → All (λ (e : Event). e.reservation_id ≢ rid) old
      → All (λ (e : Event). e.reservation_id ≡ rid) rows
      → total w (release rid (old ++ rows)) ≡ total w old
  unfolding release
  total-release rid w old rows h fresh own =
      total-map w (set_released rid) (old ++ rows)
      ∙ total-append _ old rows
      ∙ omega (
        arith,
        total-eq (λ e. w (set_released rid e)) w old
            (All-map (λ (e : Event) ne. ap w (release-other rid e ne)) old fresh),
        total-zero (λ e. w (set_released rid e)) rows
            (All-map (λ (e : Event) eq. h _ (release-in_window rid e eq)) rows own),
      )

  -- A weight that the queries use, before a reservation and after it is released.
  pub release_restores :
      (rid client : Text) (now_ms : ℕ) (w : Event → ℕ) (journal : Journal)
      (demands : List QuotaDemand)
      → window_ms ≤ retention_ms
      → now_ms ≤ later_ms
      → InWindow agent rule_id window_ms later_ms w
      → All (λ (e : Event). e.reservation_id ≢ rid) (prune now_ms journal)
      → (reserve rid journal client demands now_ms).1 ≡ ok tt
      → total w (release rid (reserve rid journal client demands now_ms).0) ≡ total w journal
  release_restores rid client now_ms w journal demands short le h fresh done =
      let (rows, same, own) =
        reserve_all-appends rid client now_ms (prune now_ms journal) _ demands
          (reserve-ok rid client now_ms journal demands done) in
      rw same (
        total-release rid w (prune now_ms journal) rows h fresh own
        ∙ total-prune agent rule_id window_ms now_ms later_ms w journal short le h)

keep-All {ℓ} :
    {A : Type ℓ} (P : A → Type 0) (p : A → Bool) (xs : List A) → All P xs → All P (keep p xs)
keep-All P p [] h = tt
keep-All P p (x ∷ xs) (hx, h) = elim (Bool-cases (p x)) [
  | inl kept ↦ rw kept (hx, keep-All P p xs h)
  | inr dropped ↦ rw dropped (keep-All P p xs h)
]

-- Releasing a reservation gives back all that it took: under a fresh reservation id, every sum and
-- count over a window of at most two days, at any later time, is what it was before the reservation.
pub release-reserve :
    (reservation_id agent : Text) (journal : Journal) (demands : List QuotaDemand) (now_ms : ℕ)
    (client rule_id symbol recipient : Text) (precision window_ms later_ms : ℕ)
    → window_ms ≤ retention_ms
    → now_ms ≤ later_ms
    → All (λ (e : Event). e.reservation_id ≢ reservation_id) journal
    → (reserve reservation_id journal agent demands now_ms).1 ≡ ok tt
    → let after = release reservation_id (reserve reservation_id journal agent demands now_ms).0 in
      (consumed after client rule_id symbol precision window_ms later_ms
        ≡ consumed journal client rule_id symbol precision window_ms later_ms)
      × (count_in_window after client rule_id window_ms later_ms
          ≡ count_in_window journal client rule_id window_ms later_ms)
      × (count_to_recipient after client rule_id recipient window_ms later_ms
          ≡ count_to_recipient journal client rule_id recipient window_ms later_ms)
unfolding consumed count_in_window count_to_recipient prune
release-reserve rid agent journal demands now_ms client rule_id symbol recipient precision window_ms
      later_ms short le fresh done =
    let restores = λ (w : Event → ℕ) (h : InWindow client rule_id window_ms later_ms w).
      release_restores client rule_id window_ms later_ms rid agent now_ms w journal demands short le
        h (keep-All _ _ journal fresh) done in
    (restores _ (λ e out. rw out), restores _ (λ e out. rw out), restores _ (λ e out. rw out))
