-- ===== src/PolicyCache/Tests.antt =====
-- Runs of src/daemon/policyCache.ts on concrete answers of the reader.
use signbox.Canonical.{canonicalize}
use signbox.Policy.Schema.{validate_policy}
use signbox.Policy.Vocabulary.{is_chain_id}
use signbox.Prelude.{ℕ, ◌≤◌, ◌≡◌, refl, true, Option, none, some, [], ◌∷◌, replicate}
use signbox.Prelude.Text.{lit, text_eq, lookup, insert}
use signbox.Prelude.Outcome.{Outcome, ok, err}
use signbox.Errors.{Thrown, canonicalization}
use signbox.Value.{non_finite, num, obj, end}
use signbox.Policy.Types.{Policy}
use signbox.Policy.Onchain.{Host, verify_stored_policy}
use signbox.Xpr.Dialect.{xpr_dialect}
use signbox.PolicyCache.{
  PolicyRowRaw, row, CachedPolicy, PolicyCache, defaults, get, restart, new_entry,
}
use signbox.PolicyCache.Rollback.{IsConsistent-empty}
use signbox.PolicyCache.Served.{restarting, get_monotone, run}
use signbox.PolicyCache.Fresh.{IsConfirmed, get-IsConfirmed}

abbrev no_rules : Policy
no_rules = record {
  chain_name = lit "xpr";
  chain_id = replicate 64 b'0';
  rules = [];
  max_actions_per_transaction = none;
}

-- A host on which the document `{}` reads as the policy, and SHA-256 is the identity.
abbrev host : Host
host = record {
  sha256_hex = λ t. t;
  parse_json = λ t. some (obj end);
  read_policy = λ v. some no_rules;
}

abbrev raw_at : ℕ → PolicyRowRaw
raw_at version = record {
  authority = lit "boss";
  agentperm = lit "bot";
  version = version;
  policyhash = lit "{}";
  policyjson = lit "{}";
  enabled = true;
}

abbrev empty : PolicyCache
empty = record { db = []; memory = [] }

abbrev first : PolicyCache × Outcome Thrown (Option CachedPolicy)
first = get host xpr_dialect defaults empty (lit "ag") 100 (row (raw_at 4)) 110

serves_first : first.1 ≡ ok (some (new_entry (raw_at 4) no_rules 110))
unfolding get lookup verify_stored_policy text_eq canonicalize validate_policy is_chain_id insert
serves_first = refl

refuses_older :
    (get host xpr_dialect defaults first.0 (lit "ag") 100_000 (row (raw_at 3)) 100_001).1 ≡ ok none
unfolding get lookup verify_stored_policy text_eq canonicalize validate_policy is_chain_id insert
refuses_older = refl

-- A row whose document has an infinite number, for a host on which every text reads as such: the gate
-- throws, and so does the get.
throws_infinite :
    (get
      (record host { parse_json = λ t. some (num (non_finite (lit "Infinity"))) })
      xpr_dialect
      defaults
      empty
      (lit "ag")
      100
      (row (raw_at 4))
      110).1
    ≡ err canonicalization
unfolding get lookup verify_stored_policy text_eq canonicalize insert
throws_infinite = refl

serves_later :
    (get host xpr_dialect defaults (restart first.0) (lit "ag") 100_000 (row (raw_at 5)) 100_001).1
    ≡ ok (some (new_entry (raw_at 5) no_rules 100_001))
unfolding get restart lookup verify_stored_policy text_eq canonicalize validate_policy is_chain_id
    insert
serves_later = refl

serves_later_run :
    (get host xpr_dialect defaults
      (run host xpr_dialect first.0 (restarting ∷ []))
      (lit "ag")
      100_000
      (row (raw_at 5))
      100_001).1
    ≡ ok (some (new_entry (raw_at 5) no_rules 100_001))
unfolding run
serves_later_run = serves_later

get_monotone_example : 4 ≤ 5
unfolding new_entry
get_monotone_example =
    get_monotone host xpr_dialect empty (lit "ag") defaults defaults 100 110 100_000 100_001
      (row (raw_at 4)) (row (raw_at 5)) (restarting ∷ []) (new_entry (raw_at 4) no_rules 110)
      (new_entry (raw_at 5) no_rules 100_001) IsConsistent-empty serves_first serves_later_run

get-IsConfirmed_example :
    IsConfirmed host xpr_dialect defaults 100
      (row (raw_at 4))
      110
      (new_entry (raw_at 4) no_rules 110)
get-IsConfirmed_example =
    get-IsConfirmed host xpr_dialect defaults empty (lit "ag") 100 (row (raw_at 4)) 110
      (new_entry (raw_at 4) no_rules 110) refl serves_first
