-- ===== src/Onboarding/Flow/Activation.antt =====
-- The key file becomes active only for a verified onboarding, and a failed one leaves no key behind.
use signbox.Prelude.{◌≡◌, none, some}
use signbox.Prelude.Text.{Text}
use signbox.Prelude.Outcome.{Outcome, ok, err}
use signbox.Canonical.{canonicalize}
use signbox.Onboarding.Actions.{empty_policy}
use signbox.Keystore.{File, FileSystem, Crypto, header_of}
use signbox.Onboarding.Flow.{
  FlowInput, KeyPair, Backend, FlowReadings, OnboardingError, OnboardingResult,
}
use signbox.Onboarding.Flow.Creation.{IsSealed}
use signbox.Onboarding.Flow.Files.{IsClean, IsMoved}

-- The file holds the generated key, sealed under the passphrase, with the metadata of the agent.
abbrev pub IsKeyFile : Crypto → FlowInput → FlowReadings → KeyPair → Text → File → Type 0
IsKeyFile c input r key passphrase file =
    IsSealed c key.wif passphrase r.salt r.nonce
      (header_of c r.salt r.nonce (record {
        public_key = key.public_key;
        export_policy = input.export_policy;
        chain = input.chain;
        agent = input.agent;
        permission = input.permission;
        created_at = r.created_at;
      }))
      file

-- What a run of the flow comes to.
pub data IsRun (c : Crypto) (sha256_hex : Text → Text) (input : FlowInput) (backend : Backend)
    (r : FlowReadings) (before after : FileSystem)
    (result : Outcome OnboardingError OnboardingResult) : Type 0 where
  failed :
      (e : OnboardingError)
      → result ≡ err e
      → IsClean input.keystore_path before after
      → IsRun c sha256_hex input backend r before after result
  activated :
      (key : KeyPair) (policy_json passphrase txid : Text) (file : File)
      → r.generated ≡ ok key
      → r.passphrase ≡ ok passphrase
      → IsKeyFile c input r key passphrase file
      → canonicalize (empty_policy input.chain.chain input.chain.chain_id) ≡ ok policy_json
      → backend.confirmation ≡ ok (some txid)
      → backend.verify_landed key.public_key (sha256_hex policy_json) ≡ ok none
      → result
        ≡ ok (record {
          public_key = key.public_key;
          keystore_path = input.keystore_path;
          txid = txid;
        })
      → IsMoved input.keystore_path before file after
      → IsRun c sha256_hex input backend r before after result

module _ (c : Crypto) (sha256_hex : Text → Text) (input : FlowInput) (backend : Backend)
    (r : FlowReadings) where
  abbrev path : Text
  path = input.keystore_path

  abbrev Runs : FileSystem → FileSystem × Outcome OnboardingError OnboardingResult → Type 0
  Runs before (after, result) = IsRun c sha256_hex input backend r before after result
