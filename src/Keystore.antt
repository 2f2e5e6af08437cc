-- ===== src/Keystore.antt =====
-- src/keystore/encryptedFile.ts: encrypted key files. A file system is a list of paths with contents
-- and whether the group or others may read them; making a directory, other file errors and the wiping
-- of memory are left out. Bytes are texts. libsodium, JSON.parse, JSON.stringify with an indent and
-- node's Buffer are parameters.
pub mod Open
pub mod Sealed
pub mod Tests
use signbox.Prelude.{
  ℕ, ◌≡◌, Bool, true, false, not, ◌&&◌, ◌||◌, Option, none, some, List, [], ◌∷◌, ◌++◌, ltb, leb,
  ◌==◌, if◌then◌else◌, length,
}
use signbox.Prelude.Text.{Text, lit, text_eq, lookup, insert, remove}
use signbox.Prelude.Outcome.{Outcome, ok, err, ◌>>=◌}
use signbox.Errors.{Thrown, internal}
use signbox.Value.{
  nat, Value, undefined, null, num, str, obj, Fields, end, field, get_field, read_member, is_text,
  is_nat, text_of, fields, of_fields,
}
use signbox.Canonical.{canonicalize}
use signbox.Policy.Types.{ChainContext}

pub record File : Type 0 where
  pub content : Text
  pub for_others : Bool

abbrev pub FileSystem : Type 0
FileSystem = List (Text × File)

pub data KeystoreError : Type 0 where
  file_exists permissions file_not_found bad_format unsupported_version decrypt_failed :
      KeystoreError
  threw : Thrown → KeystoreError

-- Argon2id, XChaCha20-Poly1305 with its sizes and cost presets, and the encodings.
pub record Crypto : Type 0 where
  pub derive : (passphrase salt : Text) → (opslimit memlimit : ℕ) → Text
  pub encrypt : (secret additional nonce key : Text) → Text
  pub decrypt : (ciphertext additional nonce key : Text) → Option Text
  pub to_base64 : Text → Text
  pub buffer_from : Value → Outcome Thrown Text
  pub parse_json : Text → Option Value
  pub print_json : Value → Text
  pub salt_bytes : ℕ
  pub nonce_bytes : ℕ
  pub tag_bytes : ℕ
  pub opslimit_interactive : ℕ
  pub opslimit_moderate : ℕ
  pub memlimit_interactive : ℕ
  pub memlimit_moderate : ℕ

pub record KeystoreMetadata : Type 0 where
  pub public_key : Text
  pub export_policy : Text
  pub chain : ChainContext
  pub agent : Text
  pub permission : Text
  pub created_at : Text

unfoldable pub meta_value : KeystoreMetadata → Value
meta_value m = obj (
    of_fields (
      (lit "publicKey", str m.public_key)
      ∷ (lit "exportPolicy", str m.export_policy)
      ∷ (
        lit "chain",
        obj (
            of_fields (
              (lit "chain", str m.chain.chain)
              ∷ (lit "network", str m.chain.network)
              ∷ (lit "chainId", str m.chain.chain_id)
              ∷ [])),
      )
      ∷ (lit "agent", str m.agent)
      ∷ (lit "permission", str m.permission)
      ∷ (lit "createdAt", str m.created_at)
      ∷ []))

-- The object without one of its properties.
unfoldable pub without : Text → Fields → Fields
without k end = end
without k (field j v fs) = let rest = without k fs in if text_eq j k then rest else field j v rest

pub record Opened : Type 0 where
  pub secret : Text
  pub meta : Value

module _ (c : Crypto) where
  -- `header` of `createKeystoreFile`.
  unfoldable pub header_of : (salt nonce : Text) → KeystoreMetadata → List (Text × Value)
  unfolding meta_value
  header_of salt nonce meta =
      (lit "version", num (nat 1))
      ∷ (lit "kind", str (lit "encrypted-file"))
      ∷ (
        lit "kdf",
        obj (
            of_fields (
              (lit "algorithm", str (lit "argon2id13"))
              ∷ (lit "opslimit", num (nat c.opslimit_moderate))
              ∷ (lit "memlimit", num (nat c.memlimit_moderate))
              ∷ (lit "salt", str (c.to_base64 salt))
              ∷ [])),
      )
      ∷ (
        lit "cipher",
        obj (
            of_fields (
              (lit "algorithm", str (lit "xchacha20poly1305-ietf"))
              ∷ (lit "nonce", str (c.to_base64 nonce))
              ∷ [])),
      )
      ∷ (lit "meta", meta_value meta)
      ∷ []

  unfoldable pub sealed_file : List (Text × Value) → Text → Value
  sealed_file header ciphertext =
      obj (of_fields (header ++ ((lit "ciphertext", str (c.to_base64 ciphertext)) ∷ [])))

  -- The key of the container that `createKeystoreFile` writes.
  unfoldable pub fresh_key : (passphrase salt : Text) → Text
  fresh_key passphrase salt = c.derive passphrase salt c.opslimit_moderate c.memlimit_moderate

  -- The flag `wx` refuses a path that exists.
  unfoldable pub write_at :
      FileSystem → Text → Text → Option File → FileSystem × Outcome KeystoreError (Unit {0})
  write_at fs path content none =
      (insert path (record { content = content; for_others = false }) fs, ok tt)
  write_at fs path content (some f) = (fs, err file_exists)

  unfoldable pub write_new :
      FileSystem → Text → Text → FileSystem × Outcome KeystoreError (Unit {0})
  unfolding write_at
  write_new fs path content = write_at fs path content (lookup path fs)

  unfoldable pub write_sealed :
      FileSystem
      → Text
      → Text
      → (passphrase salt nonce : Text) → List (Text × Value)
      → Outcome Thrown Text
      → FileSystem × Outcome KeystoreError (Unit {0})
  unfolding write_new sealed_file fresh_key
  write_sealed fs path secret passphrase salt nonce header (err t) = (fs, err (threw t))
  write_sealed fs path secret passphrase salt nonce header (ok additional) = write_new fs path (
      c.print_json
        (sealed_file header (c.encrypt secret additional nonce (fresh_key passphrase salt))))

  -- `salt` and `nonce` are the random bytes.
  unfoldable pub create_keystore_file :
      FileSystem
      → (path secret passphrase : Text) → KeystoreMetadata
      → (salt nonce : Text) → FileSystem × Outcome KeystoreError (Unit {0})
  unfolding write_sealed header_of
  create_keystore_file fs path secret passphrase meta salt nonce =
      write_sealed fs path secret passphrase salt nonce (header_of salt nonce meta)
        (canonicalize (obj (of_fields (header_of salt nonce meta))))

-- `meta.agent` of null throws.
unfoldable pub metadata_value : Value → Outcome KeystoreError Value
unfolding text_of
metadata_value undefined = err bad_format
metadata_value null = err (threw internal)
metadata_value (obj meta) = elim (text_of (get_field (lit "agent") meta)) [
  | none ↦ err bad_format
  | some agent ↦ ok (obj meta)
]
metadata_value v = err bad_format

-- `readKeystoreMetadata`: the header alone, without the passphrase.
unfoldable pub metadata_of : Fields → Outcome KeystoreError Value
metadata_of file =
    if is_nat 1 (get_field (lit "version") file)
    then metadata_value (get_field (lit "meta") file)
    else err bad_format

unfoldable pub metadata_parsed : Option Value → Outcome KeystoreError Value
unfolding metadata_of
metadata_parsed none = err bad_format
metadata_parsed (some (obj file)) = metadata_of file
metadata_parsed (some null) = err (threw internal)
metadata_parsed (some v) = err bad_format

unfoldable pub read_keystore_metadata : Crypto → FileSystem → Text → Outcome KeystoreError Value
unfolding metadata_parsed
read_keystore_metadata c fs path = elim (lookup path fs) [
  | none ↦ err bad_format
  | some f ↦ metadata_parsed (c.parse_json f.content)
]

-- `linkSync` refuses a source that does not exist, then a target that does.
unfoldable pub promote_found :
    FileSystem
    → Text
    → Text
    → Option File
    → Option File
    → FileSystem × Outcome KeystoreError (Unit {0})
promote_found fs temp_path final_path none there = (fs, err (threw internal))
promote_found fs temp_path final_path (some f) (some g) = (fs, err file_exists)
promote_found fs temp_path final_path (some f) none =
    (remove temp_path (insert final_path f fs), ok tt)

unfoldable pub promote_keystore_file :
    FileSystem → Text → Text → FileSystem × Outcome KeystoreError (Unit {0})
unfolding promote_found
promote_keystore_file fs temp_path final_path =
    promote_found fs temp_path final_path (lookup temp_path fs) (lookup final_path fs)

unfoldable pub destroy_keystore_file : FileSystem → Text → FileSystem
destroy_keystore_file fs path = remove path fs
