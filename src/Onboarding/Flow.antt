-- ===== src/Onboarding/Flow.antt =====
-- src/onboarding/flow.ts: `runOnboarding` over the key files, with the chain's side as an interface.
-- What the backend, the prompt and the key generator answer is an input; a step that throws leaves the
-- function as the code does.
pub mod Files
pub mod Creation
pub mod Activation
use signbox.Prelude.{◌≡◌, Bool, true, false, Option, none, some, List, [], ◌∷◌, ◌++◌, if◌then◌else◌}
use signbox.Prelude.Text.{Text, lit}
use signbox.Prelude.Outcome.{Outcome, ok, err, ◌>>=◌}
use signbox.Errors.{Thrown}
use signbox.Canonical.{canonicalize}
use signbox.Policy.Types.{ChainContext}
use signbox.Keystore.{
  FileSystem, KeystoreError, Crypto, KeystoreMetadata, create_keystore_file, promote_keystore_file,
  destroy_keystore_file,
}
use signbox.Onboarding.Actions.{empty_policy}
use signbox.Onboarding.Landed.{Unverified}

pub record FlowInput : Type 0 where
  pub chain : ChainContext
  pub authority : Text
  pub agent : Text
  pub permission : Text
  pub export_policy : Text
  pub keystore_path : Text

pub record KeyPair : Type 0 where
  pub wif : Text
  pub public_key : Text

-- The chain's side: its preconditions, the request that is built and shown, the confirmation (none at
-- the deadline) and the check of the landed state for a public key and a policy hash.
pub record Backend : Type 0 where
  pub authority_exists : Bool
  pub agent_exists : Bool
  pub policy_exists : Bool
  pub request : Outcome Thrown (Unit {0})
  pub confirmation : Outcome Thrown (Option Text)
  pub verify_landed : Text → Text → Outcome Thrown (Option Unverified)

pub record FlowReadings : Type 0 where
  pub generated : Outcome Thrown KeyPair
  pub passphrase : Outcome Thrown Text
  pub created_at : Text
  pub salt : Text
  pub nonce : Text

pub data OnboardingError : Type 0 where
  authority_missing agent_exists policy_exists timeout : OnboardingError
  verification_failed : Unverified → OnboardingError
  keystore : KeystoreError → OnboardingError
  thrown : Thrown → OnboardingError

pub record OnboardingResult : Type 0 where
  pub public_key : Text
  pub keystore_path : Text
  pub txid : Text

pub temp_path : Text → Text
temp_path path = path ++ lit ".onboarding"

pub from_thrown : {A : Type 0} → Outcome Thrown A → Outcome OnboardingError A
from_thrown (ok a) = ok a
from_thrown (err t) = err (thrown t)

module _ (c : Crypto) (sha256_hex : Text → Text) (input : FlowInput) (backend : Backend)
    (r : FlowReadings) where
  pub confirmed : Option Text → Outcome OnboardingError Text
  confirmed none = err timeout
  confirmed (some txid) = ok txid

  pub accepted : Text → Option Unverified → Outcome OnboardingError Text
  accepted txid none = ok txid
  accepted txid (some reason) = err (verification_failed reason)

  -- Phases B and C up to the promotion: the id of the confirmed transaction.
  pub land : KeyPair → Text → Outcome OnboardingError Text
  unfolding from_thrown confirmed accepted
  land key hash = from_thrown backend.request >>= λ _. from_thrown backend.confirmation >>= λ found.
      confirmed found >>= λ txid.
      from_thrown (backend.verify_landed key.public_key hash) >>= λ verdict. accepted txid verdict

  pub finish :
      KeyPair
      → Text
      → FileSystem × Outcome KeystoreError (Unit {0})
      → FileSystem × Outcome OnboardingError OnboardingResult
  unfolding temp_path
  finish key txid (fs, err e) =
      (destroy_keystore_file fs (temp_path input.keystore_path), err (keystore e))
  finish key txid (fs, ok u) = (
    fs,
    ok (record { public_key = key.public_key; keystore_path = input.keystore_path; txid = txid }),
  )

  -- The `try`: whatever fails destroys the temporary container.
  pub after_landing :
      FileSystem
      → KeyPair
      → Outcome OnboardingError Text
      → FileSystem × Outcome OnboardingError OnboardingResult
  unfolding finish temp_path
  after_landing fs key (err e) = (destroy_keystore_file fs (temp_path input.keystore_path), err e)
  after_landing fs key (ok txid) =
      finish key txid (promote_keystore_file fs (temp_path input.keystore_path) input.keystore_path)

  pub metadata_for : KeyPair → KeystoreMetadata
  metadata_for key = record {
    public_key = key.public_key;
    export_policy = input.export_policy;
    chain = input.chain;
    agent = input.agent;
    permission = input.permission;
    created_at = r.created_at;
  }

  -- A container that cannot be created is left as it is.
  pub after_creation :
      KeyPair
      → Text
      → FileSystem × Outcome KeystoreError (Unit {0})
      → FileSystem × Outcome OnboardingError OnboardingResult
  unfolding after_landing land
  after_creation key hash (fs, err e) = (fs, err (keystore e))
  after_creation key hash (fs, ok u) = after_landing fs key (land key hash)

  pub seal :
      FileSystem → KeyPair → Text → Text → FileSystem × Outcome OnboardingError OnboardingResult
  unfolding after_creation metadata_for temp_path
  seal fs key hash passphrase = after_creation key hash (
      create_keystore_file c fs (temp_path input.keystore_path) key.wif passphrase
        (metadata_for key) r.salt r.nonce)

  -- The key, the empty policy's text and the passphrase; a throw leaves the files alone.
  pub prepared : Outcome OnboardingError (KeyPair × Text × Text)
  unfolding from_thrown
  prepared = from_thrown r.generated >>= λ key.
      from_thrown (canonicalize (empty_policy input.chain.chain input.chain.chain_id))
      >>= λ policy_json.
          from_thrown r.passphrase >>= λ passphrase. ok (key, policy_json, passphrase)

  pub with_prepared :
      FileSystem
      → Outcome OnboardingError (KeyPair × Text × Text)
      → FileSystem × Outcome OnboardingError OnboardingResult
  unfolding seal
  with_prepared fs (err e) = (fs, err e)
  with_prepared fs (ok (key, policy_json, passphrase)) =
      seal fs key (sha256_hex policy_json) passphrase

  unfoldable pub preconditions : Outcome OnboardingError (Unit {0})
  preconditions =
      if backend.authority_exists
      then if backend.agent_exists
        then err agent_exists
        else if backend.policy_exists
        then err policy_exists
        else ok tt
      else err authority_missing

  unfoldable pub start :
      FileSystem
      → Outcome OnboardingError (Unit {0})
      → FileSystem × Outcome OnboardingError OnboardingResult
  unfolding with_prepared prepared
  start fs (err e) = (fs, err e)
  start fs (ok u) = with_prepared fs prepared

  unfoldable pub run_onboarding : FileSystem → FileSystem × Outcome OnboardingError OnboardingResult
  unfolding start preconditions
  run_onboarding fs = start fs preconditions
