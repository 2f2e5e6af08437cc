-- ===== src/Audit/Tests.antt =====
-- Runs of src/daemon/auditLog.ts on concrete entries, with the identity for SHA-256.
use signbox.Prelude.{ℕ, ◌+◌, ◌≡◌, refl, none, some, [], ◌∷◌, ◌++◌, arith, length, take}
use signbox.Prelude.Text.{Text, lit, text_eq}
use signbox.Prelude.Outcome.{Outcome, ok, err}
use signbox.Audit.{
  genesis_hash, Entry, Row, Log, intact, broken, sequence_gap, append, verify, compute_hash,
  hashable_fields, linked_row,
}
use signbox.Audit.Tamper.{verify-append, verify-take, verify-delete, verify-edit}
use signbox.Errors.{Thrown}
use signbox.Canonical.{canonicalize}

abbrev same_text : Text → Text
same_text t = t

abbrev entry_at : ℕ → Entry
entry_at timestamp_ms = record {
  request_id = lit "request-1";
  agent = lit "ag";
  decision = lit "signed";
  code = none;
  rule_ids = some (lit "pay" ∷ []);
  policy_version = some 3;
  contracts = lit "eosio.token::transfer" ∷ [];
  digest = some (lit "d");
  broadcast = none;
  timestamp_ms = timestamp_ms;
}

logged : Outcome Thrown (Log × Row) → Log
logged (ok (log, r)) = log
logged (err t) = []

abbrev one : Log
one = logged (append same_text [] (entry_at 5))

abbrev two : Log
two = logged (append same_text one (entry_at 6))

abbrev hash_after : ℕ → Text → Entry → Text
hash_after seq prev_hash e = elim (canonicalize (hashable_fields seq prev_hash e)) [
  | ok t ↦ t
  | err _ ↦ []
]

abbrev first_row : Row
first_row = linked_row 1 (entry_at 5) genesis_hash (hash_after 1 genesis_hash (entry_at 5))

abbrev second_row : Row
second_row =
    linked_row 2 (entry_at 6) (hash_after 1 genesis_hash (entry_at 5))
      (hash_after 2 (hash_after 1 genesis_hash (entry_at 5)) (entry_at 6))

both_verify : verify same_text (first_row ∷ second_row ∷ []) ≡ ok (intact 2)
unfolding linked_row verify compute_hash canonicalize text_eq
both_verify = refl

verify-delete_example : verify same_text (second_row ∷ []) ≡ ok (broken 2 sequence_gap)
unfolding linked_row
verify-delete_example = verify-delete same_text [] first_row second_row [] 2 both_verify

-- A hash on which all texts collide.
abbrev one_hash : Text → Text
one_hash t = lit "h"

abbrev weak_row : ℕ → Text → ℕ → Row
weak_row seq prev_hash timestamp_ms = linked_row seq (entry_at timestamp_ms) prev_hash (lit "h")

weak_log :
    (timestamp_ms : ℕ)
    → verify one_hash (weak_row 1 genesis_hash timestamp_ms ∷ weak_row 2 (lit "h") 9 ∷ [])
      ≡ ok (intact 2)
unfolding linked_row verify compute_hash canonicalize text_eq
weak_log timestamp_ms = refl

verify-edit_example :
    one_hash (hash_after 1 genesis_hash (entry_at 5))
    ≡ one_hash (hash_after 1 genesis_hash (entry_at 7))
unfolding linked_row canonicalize hashable_fields
verify-edit_example =
    verify-edit one_hash [] (weak_row 1 genesis_hash 5) (weak_row 1 genesis_hash 7)
      (weak_row 2 (lit "h") 9) [] [] 2 2 (weak_log 5) (weak_log 7)
      (hash_after 1 genesis_hash (entry_at 5)) (hash_after 1 genesis_hash (entry_at 7)) refl refl

one_verifies : verify same_text one ≡ ok (intact 1)
unfolding append logged verify compute_hash canonicalize text_eq
one_verifies = refl

two_verifies : verify same_text two ≡ ok (intact 2)
unfolding append logged verify compute_hash canonicalize text_eq
two_verifies = refl

verify-append_example :
    (after : Log) × (r : Row) × (append same_text one (entry_at 6) ≡ ok (after, r))
    × (after ≡ one ++ (r ∷ []))
    × (r.entry ≡ entry_at 6)
    × (verify same_text after ≡ ok (intact (length one + 1)))
verify-append_example = verify-append same_text one (entry_at 6) 1 one_verifies

verify-take_example : verify same_text (take 1 two) ≡ ok (intact 1)
unfolding append logged compute_hash canonicalize
verify-take_example = verify-take same_text two 2 1 (omega arith) two_verifies
