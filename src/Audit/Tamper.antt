-- ===== src/Audit/Tamper.antt =====
-- What an edit, a deletion and a truncation of a log that verifies do to its verification.
use signbox.Prelude.{
  ℕ, zero, suc, ◌+◌, ◌≤◌, ◌≡◌, refl, sym, subst, List, [], ◌∷◌, ◌++◌, arith, length, take,
  length-append,
}
use signbox.Prelude.Text.{Text}
use signbox.Prelude.Outcome.{ok}
use signbox.Canonical.{canonicalize}
use signbox.Audit.{
  Entry, Row, Log, genesis_hash, hashable_fields, last_row, seq_of, hash_of, sequence_gap, intact,
  broken, linked_row, compute_hash, append_after, append, verify,
}
use signbox.Audit.Hashable.{IsOk, hashable_fields-IsOk}
use signbox.Audit.Chain.{
  IsLinked, IsChain, verify_from-IsChain, IsChain-verify_from, head_hash, IsChain-append,
  IsChain-split, verify_from-append, verify_from-gap,
}

module _ (sha256_hex : Text → Text) where
  verify-IsChain :
      (log : Log) (n : ℕ)
      → verify sha256_hex log ≡ ok (intact n)
      → IsChain sha256_hex genesis_hash 1 log
  unfolding verify
  verify-IsChain log n h = verify_from-IsChain sha256_hex (length log) genesis_hash 1 log n h

  IsChain-verify :
      (log : Log)
      → IsChain sha256_hex genesis_hash 1 log
      → verify sha256_hex log ≡ ok (intact (length log))
  unfolding verify
  IsChain-verify log h = IsChain-verify_from sha256_hex (length log) genesis_hash 1 log h

  -- The last row of a chain carries the head.
  head_hash-last :
      (prev_hash : Text) (r : Row) (rs : List Row)
      → head_hash sha256_hex prev_hash (r ∷ rs) ≡ hash_of (last_row (r ∷ rs))
  unfolding head_hash hash_of last_row
  head_hash-last prev_hash r [] = refl
  head_hash-last prev_hash r (s ∷ rs) = head_hash-last r.entry_hash s rs

  seq_of-last :
      (prev_hash : Text) (k : ℕ) (r : Row) (rs : List Row)
      → IsChain sha256_hex prev_hash k (r ∷ rs)
      → seq_of (last_row (r ∷ rs)) ≡ k + length rs
  unfolding IsChain seq_of last_row
  seq_of-last prev_hash k r [] (l, h) = omega (arith, l.in_sequence)
  seq_of-last prev_hash k r (s ∷ rs) (l, h) = omega (arith, seq_of-last r.entry_hash (k + 1) s rs h)

  chain_end :
      (log : Log)
      → IsChain sha256_hex genesis_hash 1 log
      → (head_hash sha256_hex genesis_hash log ≡ hash_of (last_row log))
        × (seq_of (last_row log) + 1 ≡ 1 + length log)
  unfolding head_hash hash_of last_row seq_of
  chain_end [] h = (refl, refl)
  chain_end (r ∷ rs) h =
      (head_hash-last genesis_hash r rs, omega (arith, seq_of-last genesis_hash 1 r rs h))

  -- Every prefix of a chain is a chain.
  take-IsChain :
      (prev_hash : Text) (k count : ℕ) (rows : List Row)
      → IsChain sha256_hex prev_hash k rows
      → IsChain sha256_hex prev_hash k (take count rows)
  unfolding IsChain
  take-IsChain prev_hash k zero rows h = tt
  take-IsChain prev_hash k (suc count) [] h = tt
  take-IsChain prev_hash k (suc count) (r ∷ rows) (l, h) =
      (l, take-IsChain r.entry_hash (k + 1) count rows h)

  length-take :
      {A : Type 0} (count : ℕ) (xs : List A) → count ≤ length xs → length (take count xs) ≡ count
  length-take zero xs h = refl
  length-take (suc count) [] h = absurd (omega arith)
  length-take (suc count) (x ∷ xs) h = omega (arith, length-take count xs (omega arith))

-- Appending to a log that verifies never throws, and leaves a log that verifies with one row more,
-- its last, which holds the entry.
pub verify-append :
    (sha256_hex : Text → Text) (log : Log) (e : Entry) (n : ℕ)
    → verify sha256_hex log ≡ ok (intact n)
    → (after : Log) × (r : Row) × (append sha256_hex log e ≡ ok (after, r))
      × (after ≡ log ++ (r ∷ []))
      × (r.entry ≡ e)
      × (verify sha256_hex after ≡ ok (intact (length log + 1)))
unfolding append append_after compute_hash IsOk IsChain linked_row
verify-append sha256_hex log e n h =
    let chain = verify-IsChain sha256_hex log n h in
    let (last_hash, last_seq) = chain_end sha256_hex log chain in
    let seq = seq_of (last_row log) + 1 in
    let prev_hash = hash_of (last_row log) in
    let (t, canonical) = hashable_fields-IsOk seq prev_hash e in
    let r = linked_row seq e prev_hash (sha256_hex t) in
    let linked : IsLinked sha256_hex (head_hash sha256_hex genesis_hash log) (1 + length log) r =
      record { in_sequence = last_seq; linked = sym last_hash; hashed = rw canonical refl } in
    let longer = IsChain-append sha256_hex genesis_hash 1 log (r ∷ []) chain (linked, tt) in
    (
      log ++ (r ∷ []),
      r,
      rw canonical refl,
      refl,
      refl,
      subst (λ j. verify sha256_hex (log ++ (r ∷ [])) ≡ ok (intact j)) (length-append log (r ∷ []))
          (IsChain-verify sha256_hex (log ++ (r ∷ [])) longer),
    )

-- A log that verifies still verifies when its last rows are deleted, with the count of those left.
pub verify-take :
    (sha256_hex : Text → Text) (log : Log) (n count : ℕ)
    → count ≤ length log
    → verify sha256_hex log ≡ ok (intact n)
    → verify sha256_hex (take count log) ≡ ok (intact count)
verify-take sha256_hex log n count short h =
    let chain =
      take-IsChain sha256_hex genesis_hash 1 count log (verify-IsChain sha256_hex log n h) in
    subst (λ j. verify sha256_hex (take count log) ≡ ok (intact j))
      (length-take sha256_hex count log short) (IsChain-verify sha256_hex (take count log) chain)

-- A log that verifies does not when a row before its last is deleted: the row after it is reported, as
-- a gap in the sequence.
pub verify-delete :
    (sha256_hex : Text → Text) (before : List Row) (r next : Row) (rest : List Row) (n : ℕ)
    → verify sha256_hex (before ++ (r ∷ next ∷ rest)) ≡ ok (intact n)
    → verify sha256_hex (before ++ (next ∷ rest)) ≡ ok (broken next.seq sequence_gap)
unfolding IsChain verify
verify-delete sha256_hex before r next rest n h =
    let (c, (l, (m, k))) =
      IsChain-split sha256_hex genesis_hash 1 before (r ∷ next ∷ rest)
        (verify-IsChain sha256_hex _ n h) in
    rw (verify_from-append sha256_hex _ genesis_hash 1 before (next ∷ rest) c)
      (verify_from-gap sha256_hex _ _ _ next rest (λ same. omega (arith, m.in_sequence, same)))

-- Where the row before another is replaced and both logs verify, either the two rows hash the same
-- canonical text or they are a collision of SHA-256.
pub verify-edit :
    (sha256_hex : Text → Text) (before : List Row) (r r' next : Row) (rest rest' : List Row)
    (n n' : ℕ)
    → verify sha256_hex (before ++ (r ∷ next ∷ rest)) ≡ ok (intact n)
    → verify sha256_hex (before ++ (r' ∷ next ∷ rest')) ≡ ok (intact n')
    → (t t' : Text) → canonicalize (hashable_fields r.seq r.prev_hash r.entry) ≡ ok t
    → canonicalize (hashable_fields r'.seq r'.prev_hash r'.entry) ≡ ok t'
    → sha256_hex t ≡ sha256_hex t'
unfolding IsChain compute_hash
verify-edit sha256_hex before r r' next rest rest' n n' h h' t t' e e' =
    let (c, (l, (m, k))) =
      IsChain-split sha256_hex genesis_hash 1 before (r ∷ next ∷ rest)
        (verify-IsChain sha256_hex _ n h) in
    let (c', (l', (m', k'))) =
      IsChain-split sha256_hex genesis_hash 1 before (r' ∷ next ∷ rest')
        (verify-IsChain sha256_hex _ n' h') in
    cc (l.hashed, l'.hashed, m.linked, m'.linked, e, e')
