-- ===== src/Audit/Chain.antt =====
-- What a log that verifies looks like, and its parts.
use signbox.Prelude.{
  ℕ, ◌+◌, ◌≡◌, refl, ap, subst, ◌≢◌, inl, inr, none, some, List, [], ◌∷◌, ◌++◌, arith, ==_iff,
  length,
}
use signbox.Prelude.Text.{Text, text_eq_iff, text_eq_refl}
use signbox.Prelude.Outcome.{ok, Outcome-cases}
use signbox.Audit.{Row, sequence_gap, intact, broken, compute_hash, check_row, verify_from}

module _ (sha256_hex : Text → Text) where
  -- A row that the loop of `verify` passes.
  pub record IsLinked (prev_hash : Text) (expected_seq : ℕ) (r : Row) : Type 0 where
    pub in_sequence : r.seq ≡ expected_seq
    pub linked : r.prev_hash ≡ prev_hash
    pub hashed : compute_hash sha256_hex r.seq r.prev_hash r.entry ≡ ok r.entry_hash

  unfoldable pub IsChain : Text → ℕ → List Row → Type 0
  IsChain prev_hash k [] = Unit {0}
  IsChain prev_hash k (r ∷ rs) = IsLinked prev_hash k r × IsChain r.entry_hash (k + 1) rs

  check_row-passed :
      (prev_hash : Text) (k : ℕ) (r : Row)
      → check_row sha256_hex prev_hash k r ≡ ok none
      → IsLinked prev_hash k r
  unfolding check_row
  check_row-passed prev_hash k r h =
      elim (Outcome-cases (compute_hash sha256_hex r.seq r.prev_hash r.entry)) [
        | inl (t, failed) ↦ absurd (ground arith)
        | inr (recomputed, done) ↦ record {
          in_sequence = ground (arith, ==_iff r.seq k);
          linked = ground (arith, text_eq_iff r.prev_hash prev_hash);
          hashed = ground (arith, text_eq_iff recomputed r.entry_hash);
        }
      ]

  IsLinked-passes :
      (prev_hash : Text) (k : ℕ) (r : Row)
      → IsLinked prev_hash k r
      → check_row sha256_hex prev_hash k r ≡ ok none
  unfolding check_row
  IsLinked-passes prev_hash k r l =
      rw (l.hashed, l.linked, l.in_sequence, text_eq_refl prev_hash, text_eq_refl r.entry_hash)
        (ground (arith, ==_iff k k))

  pub verify_from-IsChain :
      (count : ℕ) (prev_hash : Text) (k : ℕ) (rows : List Row) (n : ℕ)
      → verify_from sha256_hex count prev_hash k rows ≡ ok (intact n)
      → IsChain prev_hash k rows
  unfolding verify_from IsChain
  verify_from-IsChain count prev_hash k [] n h = tt
  verify_from-IsChain count prev_hash k (r ∷ rs) n h =
      elim (Outcome-cases (check_row sha256_hex prev_hash k r)) [
        | inl (t, failed) ↦ absurd (ground arith)
        | inr (some reason, found) ↦ absurd (ground arith)
        | inr (none, passed) ↦ (
          check_row-passed prev_hash k r passed,
          verify_from-IsChain count r.entry_hash (k + 1) rs n (ground arith),
        )
      ]

  pub IsChain-verify_from :
      (count : ℕ) (prev_hash : Text) (k : ℕ) (rows : List Row)
      → IsChain prev_hash k rows
      → verify_from sha256_hex count prev_hash k rows ≡ ok (intact count)
  unfolding verify_from IsChain
  IsChain-verify_from count prev_hash k [] h = refl
  IsChain-verify_from count prev_hash k (r ∷ rs) (l, h) =
      rw (IsLinked-passes prev_hash k r l) (IsChain-verify_from count r.entry_hash (k + 1) rs h)

  -- The hash that the next row must link to, and its sequence number.
  unfoldable pub head_hash : Text → List Row → Text
  head_hash prev_hash [] = prev_hash
  head_hash prev_hash (r ∷ rs) = head_hash r.entry_hash rs

  pub IsChain-append :
      (prev_hash : Text) (k : ℕ) (xs ys : List Row)
      → IsChain prev_hash k xs
      → IsChain (head_hash prev_hash xs) (k + length xs) ys
      → IsChain prev_hash k (xs ++ ys)
  unfolding IsChain head_hash
  IsChain-append prev_hash k [] ys h t = subst (λ j. IsChain prev_hash j ys) (omega arith) t
  IsChain-append prev_hash k (r ∷ xs) ys (l, h) t = (
    l,
    IsChain-append r.entry_hash (k + 1) xs ys h
        (subst (λ j. IsChain (head_hash r.entry_hash xs) j ys) (omega arith) t),
  )

  pub IsChain-split :
      (prev_hash : Text) (k : ℕ) (xs ys : List Row)
      → IsChain prev_hash k (xs ++ ys)
      → IsChain prev_hash k xs × IsChain (head_hash prev_hash xs) (k + length xs) ys
  unfolding IsChain head_hash
  IsChain-split prev_hash k [] ys h = (tt, subst (λ j. IsChain prev_hash j ys) (omega arith) h)
  IsChain-split prev_hash k (r ∷ xs) ys (l, h) =
      let (a, b) = IsChain-split r.entry_hash (k + 1) xs ys h in
      ((l, a), subst (λ j. IsChain (head_hash r.entry_hash xs) j ys) (omega arith) b)

  -- The loop of `verify` walks over a chain.
  pub verify_from-append :
      (count : ℕ) (prev_hash : Text) (k : ℕ) (xs ys : List Row)
      → IsChain prev_hash k xs
      → verify_from sha256_hex count prev_hash k (xs ++ ys)
        ≡ verify_from sha256_hex count (head_hash prev_hash xs) (k + length xs) ys
  unfolding verify_from IsChain head_hash
  verify_from-append count prev_hash k [] ys h =
      ap (λ j. verify_from sha256_hex count prev_hash j ys) (omega arith)
  verify_from-append count prev_hash k (r ∷ xs) ys (l, h) =
      rw (IsLinked-passes prev_hash k r l, verify_from-append count r.entry_hash (k + 1) xs ys h)
        (ap (λ j. verify_from sha256_hex count (head_hash r.entry_hash xs) j ys) (omega arith))

  pub verify_from-gap :
      (count : ℕ) (prev_hash : Text) (k : ℕ) (r : Row) (rs : List Row)
      → r.seq ≢ k
      → verify_from sha256_hex count prev_hash k (r ∷ rs) ≡ ok (broken r.seq sequence_gap)
  unfolding verify_from check_row
  verify_from-gap count prev_hash k r rs h = ground (arith, ==_iff r.seq k)
