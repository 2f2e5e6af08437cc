-- ===== src/Policy/Onchain.antt =====
-- src/core/policy/onchain.ts: the integrity gate for a stored policy.
use signbox.Prelude.{
  ◌+◌, ◌≡◌, inl, inr, ◌&&◌, Option, none, some, map, arith, leb, if◌then◌else◌, Option-cases,
}
use signbox.Prelude.Text.{Text, text_eq, text_eq_iff}
use signbox.Prelude.Outcome.{Outcome, ok, err}
use signbox.Errors.{Thrown}
use signbox.Value.{Value}
use signbox.Canonical.{canonicalize}
use signbox.Policy.Types.{Policy, PolicyDialect}
use signbox.Policy.Schema.{validate_policy}

-- What the code takes from outside: node:crypto's SHA-256 of a text's UTF-8 bytes in lower-case hex,
-- JSON.parse (`none` where it throws), and Ajv's reading of a document as a policy.
pub record Host : Type 0 where
  pub sha256_hex : Text → Text
  pub parse_json : Text → Option Value
  pub read_policy : Value → Option Policy

-- The reasons of a refusal, and a throw that leaves the function.
pub data PolicyIntegrityError : Type 0 where
  hash_mismatch invalid_json not_canonical schema_invalid : PolicyIntegrityError
  threw : Thrown → PolicyIntegrityError

-- `toLowerCase` on the letters A to Z; no other letter lowers to a hex digit.
unfoldable pub to_lower : Text → Text
to_lower s = map (λ c. if leb b'A' c && leb c b'Z' then c + 32 else c) s

module _ (host : Host) (dialect : PolicyDialect) where
  validated : Value → Outcome PolicyIntegrityError Policy
  validated parsed = elim (validate_policy host.read_policy dialect parsed) [
    | ok p ↦ ok p
    | err _ ↦ err schema_invalid
  ]

  -- `canonicalize` stands outside every `try`: it throws on a number that JSON.parse reads as infinite,
  -- such as 1e400.
  canonical_form : Text → Value → Outcome Thrown Text → Outcome PolicyIntegrityError Policy
  unfolding validated
  canonical_form policyjson parsed (err t) = err (threw t)
  canonical_form policyjson parsed (ok text) =
      if text_eq text policyjson then validated parsed else err not_canonical

  parsed_form : Text → Option Value → Outcome PolicyIntegrityError Policy
  unfolding canonical_form
  parsed_form policyjson none = err invalid_json
  parsed_form policyjson (some parsed) = canonical_form policyjson parsed (canonicalize parsed)

  unfoldable pub verify_stored_policy : Text → Text → Outcome PolicyIntegrityError Policy
  unfolding parsed_form to_lower
  verify_stored_policy policyjson policyhash =
      if text_eq (host.sha256_hex policyjson) (to_lower policyhash)
      then parsed_form policyjson (host.parse_json policyjson)
      else err hash_mismatch

  -- A stored policy that passes the gate.
  pub record IsIntact (policyjson policyhash : Text) (policy : Policy) : Type 0 where
    pub document : Value
    pub hashed : host.sha256_hex policyjson ≡ to_lower policyhash
    pub parsed : host.parse_json policyjson ≡ some document
    pub canonical : canonicalize document ≡ ok policyjson
    pub valid : validate_policy host.read_policy dialect document ≡ ok policy

  canonical_form-ok :
      (policyjson : Text) (v : Value) (form : Outcome Thrown Text) (p : Policy)
      → canonical_form policyjson v form ≡ ok p
      → (form ≡ ok policyjson) × (validate_policy host.read_policy dialect v ≡ ok p)
  unfolding canonical_form validated
  canonical_form-ok policyjson v (err t) p h = absurd (cc)
  canonical_form-ok policyjson v (ok text) p h =
      (ground (arith, text_eq_iff text policyjson), ground arith)

-- The gate passes a policy only if the text hashes to the stored hash, its letters lowered, is the
-- canonical form of the document that it parses to, and that document validates as the policy.
pub verify_stored_policy-IsIntact :
    (host : Host) (dialect : PolicyDialect) (policyjson policyhash : Text) (p : Policy)
    → verify_stored_policy host dialect policyjson policyhash ≡ ok p
    → IsIntact host dialect policyjson policyhash p
unfolding verify_stored_policy parsed_form
verify_stored_policy-IsIntact host dialect policyjson policyhash p h =
    elim (Option-cases (host.parse_json policyjson)) [
      | inl unparsed ↦ absurd (ground arith)
      | inr (v, parsed) ↦
          let (canonical, valid) =
            canonical_form-ok host dialect policyjson v (canonicalize v) p (ground arith) in
          record {
            document = v;
            hashed = ground (arith, text_eq_iff (host.sha256_hex policyjson) (to_lower policyhash));
            parsed = parsed;
            canonical = canonical;
            valid = valid;
          }
    ]
