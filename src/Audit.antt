-- ===== src/Audit.antt =====
-- src/daemon/auditLog.ts: the hash-chained log of decisions. A log is the rows of its table in the
-- order of `seq`. A column that holds a JSON array of strings is the list of the strings, and the
-- columns `decision` and `broadcast` are texts, which `toRecord` does not check. SHA-256, as
-- lower-case hex of a text's UTF-8 bytes, is a parameter.
pub mod Hashable
pub mod Chain
pub mod Tamper
pub mod Tests
use signbox.Prelude.{
  ℕ, zero, suc, ◌+◌, ◌-◌, ◌*◌, ◌/◌, ◌%◌, ◌^◌, ◌≤◌, ◌<◌, max, String, ◌≡◌, refl, sym, ap, ◌∙◌, subst,
  ◌≡⟨◌⟩◌, ◌∎, fun_ext, ◌≢◌, ◌↔◌, ◌⊎◌, inl, inr, Bool, true, false, not, ◌&&◌, ◌||◌, Option, none,
  some, List, [], ◌∷◌, ◌++◌, map, append-nil, append_assoc, arith, ltb, leb, ◌==◌, if◌then◌else◌,
  ==_iff, leb_iff, &&_iff, Bool-cases, Option-cases, length, take, drop, replicate, length-append,
  length-replicate, take-append-drop, length-drop, keep, any, every, All, Any, All-append, All-map,
  every_iff, any_iff, any-false,
}
use signbox.Prelude.Text.{
  Text, lit, text_eq, text_eq_iff, text_eq_refl, text_eq_comm, starts_with, includes, split,
  text_mem, lookup, insert, lookup-insert, remove, lookup-remove,
}
use signbox.Prelude.Outcome.{Outcome, ok, err, ◌>>=◌, >>=-eq-ok, Outcome-cases, find_ok}
use signbox.Errors.{Thrown}
use signbox.Value.{
  Value, undefined, null, bool, num, str, arr, obj, JsNumber, Items, nil, cons, Fields, end, field,
}
use signbox.Canonical.{canonicalize}

-- `AuditEntryInput`; the optional fields are options.
pub record Entry : Type 0 where
  pub request_id : Text
  pub agent : Text
  pub decision : Text
  pub code : Option Text
  pub rule_ids : Option (List Text)
  pub policy_version : Option ℕ
  pub contracts : List Text
  pub digest : Option Text
  pub broadcast : Option Text
  pub timestamp_ms : ℕ

-- A row of `audit_log`, and as `AuditRecord` what the log gives back.
pub record Row : Type 0 where
  pub seq : ℕ
  pub entry : Entry
  pub prev_hash : Text
  pub entry_hash : Text

abbrev pub Log : Type 0
Log = List Row

abbrev pub genesis_hash : Text
genesis_hash = replicate 64 b'0'

pub text_items : List Text → Items
text_items [] = nil
text_items (t ∷ ts) = cons (str t) (text_items ts)

pub or_null : Option Text → Value
or_null none = null
or_null (some t) = str t

pub texts_or_null : Option (List Text) → Value
unfolding text_items
texts_or_null none = null
texts_or_null (some ts) = arr (text_items ts)

pub number_or_null : Option ℕ → Value
number_or_null none = null
number_or_null (some n) = num (JsNumber.nat n)

-- `broadcast` is a member only if it is present.
pub broadcast_field : Option Text → Fields
broadcast_field none = end
broadcast_field (some t) = field (lit "broadcast") (str t) end

pub hashable_fields : ℕ → Text → Entry → Value
unfolding text_items or_null texts_or_null number_or_null broadcast_field
hashable_fields seq prev_hash e = obj (
    field (lit "seq") (num (JsNumber.nat seq)) (
      field (lit "prevHash") (str prev_hash) (
        field (lit "requestId") (str e.request_id) (
          field (lit "agent") (str e.agent) (
            field (lit "decision") (str e.decision) (
              field (lit "code") (or_null e.code) (
                field (lit "ruleIds") (texts_or_null e.rule_ids) (
                  field (lit "policyVersion") (number_or_null e.policy_version) (
                    field (lit "contracts") (arr (text_items e.contracts)) (
                      field (lit "digest") (or_null e.digest) (
                        field (lit "timestampMs") (num (JsNumber.nat e.timestamp_ms))
                          (broadcast_field e.broadcast))))))))))))

pub last_row : Log → Option Row
last_row [] = none
last_row (r ∷ []) = some r
last_row (r ∷ s ∷ rs) = last_row (s ∷ rs)

pub seq_of : Option Row → ℕ
seq_of none = 0
seq_of (some r) = r.seq

pub hash_of : Option Row → Text
hash_of none = genesis_hash
hash_of (some r) = r.entry_hash

pub data Reason : Type 0 where
  sequence_gap link_broken hash_mismatch : Reason

pub data Verdict : Type 0 where
  intact : (count : ℕ) → Verdict
  broken : (broken_at : ℕ) (reason : Reason) → Verdict

pub linked_row : ℕ → Entry → Text → Text → Row
linked_row seq e prev_hash entry_hash = record {
  seq = seq;
  entry = e;
  prev_hash = prev_hash;
  entry_hash = entry_hash;
}

module _ (sha256_hex : Text → Text) where
  pub compute_hash : ℕ → Text → Entry → Outcome Thrown Text
  unfolding hashable_fields
  compute_hash seq prev_hash e =
      canonicalize (hashable_fields seq prev_hash e) >>= λ t. ok (sha256_hex t)

  pub append_after : Log → ℕ → Text → Entry → Outcome Thrown (Log × Row)
  unfolding linked_row
  append_after log seq prev_hash e = compute_hash seq prev_hash e >>= λ entry_hash.
      ok
        (log ++ (linked_row seq e prev_hash entry_hash ∷ []), linked_row seq e prev_hash entry_hash)

  -- `append`: an error is a throw, which rolls the transaction back.
  pub append : Log → Entry → Outcome Thrown (Log × Row)
  unfolding append_after seq_of hash_of last_row
  append log e = append_after log (seq_of (last_row log) + 1) (hash_of (last_row log)) e

  -- The tests of one row.
  pub check_row : Text → ℕ → Row → Outcome Thrown (Option Reason)
  check_row prev_hash expected_seq r =
      if not (r.seq == expected_seq)
      then ok (some sequence_gap)
      else if not (text_eq r.prev_hash prev_hash)
      then ok (some link_broken)
      else compute_hash r.seq r.prev_hash r.entry >>= λ recomputed.
          ok (if text_eq recomputed r.entry_hash then none else some hash_mismatch)

  pub verify_from : ℕ → Text → ℕ → List Row → Outcome Thrown Verdict
  unfolding check_row
  verify_from count prev_hash expected_seq [] = ok (intact count)
  verify_from count prev_hash expected_seq (r ∷ rs) =
      let rest = verify_from count r.entry_hash (expected_seq + 1) rs in
      check_row prev_hash expected_seq r >>= λ found. elim found [
        | some reason ↦ ok (broken r.seq reason)
        | none ↦ rest
      ]

  unfoldable pub verify : Log → Outcome Thrown Verdict
  unfolding verify_from
  verify log = verify_from (length log) genesis_hash 1 log

-- `SELECT … ORDER BY seq DESC`.
pub newest_first : Log → Log
newest_first [] = []
newest_first (r ∷ rs) = newest_first rs ++ (r ∷ [])

pub tail : Log → ℕ → List Row
unfolding newest_first
tail log limit = take limit (newest_first log)

pub query : Log → Option Text → ℕ → ℕ → List Row
unfolding newest_first
query log agent since_ms limit = take limit (
    keep
      (λ r.
        elim agent [ none ↦ true | some a ↦ text_eq r.entry.agent a ]
        && leb since_ms r.entry.timestamp_ms)
      (newest_first log))
