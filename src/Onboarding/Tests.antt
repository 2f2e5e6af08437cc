-- ===== src/Onboarding/Tests.antt =====
-- An onboarding on concrete accounts.
use signbox.Xpr.Keyauth.{find_permission}
use signbox.Policy.Onchain.{to_lower}
use signbox.Prelude.{◌≡◌, refl, true, false, Option, none, some, [], ◌∷◌, replicate}
use signbox.Prelude.Text.{Text, lit, text_eq, lookup, insert}
use signbox.Prelude.Outcome.{Outcome, ok}
use signbox.Errors.{Thrown}
use signbox.Value.{
  Value, str, arr, obj, nil, cons, of_fields, read_member, is_text, is_nat, is_below_one, to_text,
}
use signbox.Canonical.{canonicalize}
use signbox.Keystore.{create_keystore_file, promote_keystore_file}
use signbox.Keystore.Tests.{plain, salt, nonce}
use signbox.Onboarding.Actions.{BuildInput, payload_of, empty_policy, key_authority}
use signbox.Onboarding.Validate.{validate_onboarding_payload}
use signbox.Onboarding.Shapes.{is_hex64}
use signbox.Onboarding.Validate.Built.{anchors_for, derived_of, validate-payload_of}
use signbox.Onboarding.Validate.Sound.{IsOnboarding, validate-IsOnboarding}
use signbox.Onboarding.Landed.{OnboardingInput, Answers, verify_landed}
use signbox.Onboarding.Landed.Verified.{IsLanded, verify_landed-IsLanded}
use signbox.Onboarding.Flow.{FlowInput, Backend, FlowReadings, run_onboarding}
use signbox.Xpr.Keyauth.{authorizes_exclusively, resolve_key_authority, authorized}
use signbox.Xpr.Keyauth.Controlled.{IsControlled, resolve_key_authority-IsControlled}

abbrev zeros : Text
zeros = replicate 64 b'0'

abbrev empty_json : Text
empty_json =
    lit
      "{\"chain\":{\"chainId\":\"0000000000000000000000000000000000000000000000000000000000000000\",\"name\":\"XPR\"},\"default\":\"deny\",\"rules\":[],\"schemaVersion\":1}"

abbrev build : BuildInput
build = record {
  authority = lit "boss";
  agent = lit "ag";
  permission = lit "active";
  agent_public_key = lit "pub";
  authority_public_key = lit "own";
  signbox_contract = lit "signbox";
  empty_policy_json = empty_json;
  empty_policy_hash = zeros;
  ram_bytes = 2048;
}

canonical_empty : canonicalize (empty_policy (lit "XPR") zeros) ≡ ok empty_json
unfolding canonicalize empty_policy
canonical_empty = refl

zeros_hex : is_hex64 zeros ≡ true
unfolding is_hex64
zeros_hex = refl

validate-payload_of_example :
    validate_onboarding_payload
      (anchors_for build (lit "XPR") zeros)
      (payload_of build (lit "testnet") zeros (lit "https://rpc" ∷ []))
    ≡ ok (derived_of build)
validate-payload_of_example =
    validate-payload_of build (lit "XPR") zeros (lit "testnet") (lit "https://rpc" ∷ []) zeros_hex
      zeros_hex canonical_empty

valid_payload :
    validate_onboarding_payload
      (anchors_for build (lit "XPR") zeros)
      (payload_of build (lit "testnet") zeros [])
    ≡ ok (derived_of build)
valid_payload =
    validate-payload_of build (lit "XPR") zeros (lit "testnet") [] zeros_hex zeros_hex
      canonical_empty

validate-IsOnboarding_example :
    IsOnboarding
      (anchors_for build (lit "XPR") zeros)
      (payload_of build (lit "testnet") zeros [])
      (derived_of build)
validate-IsOnboarding_example =
    validate-IsOnboarding (anchors_for build (lit "XPR") zeros)
      (payload_of build (lit "testnet") zeros []) (derived_of build) valid_payload

abbrev permission_value : Text → Text → Value
permission_value name key =
    obj (of_fields ((lit "perm_name", str name) ∷ (lit "required_auth", key_authority key) ∷ []))

abbrev account : Value
account = obj (
    of_fields (
      (
        lit "permissions",
        arr (
            cons (permission_value (lit "owner") (lit "own"))
              (cons (permission_value (lit "active") (lit "pub")) nil)),
      )
      ∷ []))

abbrev boss : Value
boss = obj (
    of_fields
      ((lit "permissions", arr (cons (permission_value (lit "active") (lit "own")) nil)) ∷ []))

abbrev row : Value
row = obj (
    of_fields (
      (lit "agent", str (lit "ag"))
      ∷ (lit "authority", str (lit "boss"))
      ∷ (lit "agentperm", str (lit "active"))
      ∷ (lit "policyhash", str zeros)
      ∷ []))

abbrev input : OnboardingInput
input = record { authority = lit "boss"; agent = lit "ag"; permission = lit "active" }

abbrev answers : Answers
answers = record {
  agent_exists = ok account;
  agent_account = ok account;
  authority_account = ok boss;
  rows = ok (obj (of_fields ((lit "rows", arr (cons row nil)) ∷ [])));
}

abbrev keys : Text → Option Text
keys k = some k

landed : verify_landed keys input (lit "pub") zeros answers ≡ ok none
unfolding verify_landed read_member find_permission text_eq is_text authorizes_exclusively
    key_authority is_nat is_below_one to_lower to_text
landed = refl

verify_landed-IsLanded_example : IsLanded keys input (lit "pub") zeros answers
verify_landed-IsLanded_example = verify_landed-IsLanded keys input (lit "pub") zeros answers landed

key_authorized : resolve_key_authority keys (ok account) (lit "active") (lit "pub") ≡ ok authorized
unfolding resolve_key_authority read_member text_eq is_text authorizes_exclusively key_authority
    is_nat is_below_one
key_authorized = refl

resolve_key_authority-IsControlled_example :
    (info : Value) × (◌≡◌ {A = Outcome Thrown Value} (ok account) (ok info))
    × IsControlled keys info (lit "active") (lit "pub")
resolve_key_authority-IsControlled_example =
    resolve_key_authority-IsControlled keys (ok account) (lit "active") (lit "pub") key_authorized

abbrev flow : FlowInput
flow = record {
  chain = record { chain = lit "XPR"; network = lit "testnet"; chain_id = zeros };
  authority = lit "boss";
  agent = lit "ag";
  permission = lit "active";
  export_policy = lit "non-exportable";
  keystore_path = lit "/k";
}

abbrev backend : Backend
backend = record {
  authority_exists = true;
  agent_exists = false;
  policy_exists = false;
  request = ok tt;
  confirmation = ok (some (lit "tx"));
  verify_landed = λ public_key hash. verify_landed keys input public_key zeros answers;
}

abbrev readings : FlowReadings
readings = record {
  generated = ok (record { wif = lit "wif"; public_key = lit "pub" });
  passphrase = ok (lit "pass");
  created_at = lit "2026";
  salt = salt;
  nonce = nonce;
}

activates :
    (run_onboarding plain (λ t. t) flow backend readings []).1
    ≡ ok (record { public_key = lit "pub"; keystore_path = lit "/k"; txid = lit "tx" })
unfolding run_onboarding canonicalize empty_policy create_keystore_file promote_keystore_file lookup
    insert verify_landed read_member find_permission text_eq is_text authorizes_exclusively
    key_authority is_nat is_below_one to_lower to_text
activates = refl
