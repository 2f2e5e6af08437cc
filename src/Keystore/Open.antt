-- ===== src/Keystore/Open.antt =====
-- src/keystore/encryptedFile.ts: `openKeystoreFile`.
use signbox.Prelude.{
  ℕ, Bool, true, false, ◌&&◌, Option, none, some, ltb, leb, ◌==◌, if◌then◌else◌, length,
}
use signbox.Prelude.Text.{Text, lit, lookup}
use signbox.Prelude.Outcome.{Outcome, ok, err, ◌>>=◌}
use signbox.Errors.{Thrown, internal}
use signbox.Value.{
  nat, Value, undefined, null, num, obj, Fields, get_field, read_member, is_text, is_nat,
}
use signbox.Canonical.{canonicalize}
use signbox.Keystore.{
  Crypto, File, FileSystem, KeystoreError, Opened, bad_format, decrypt_failed, file_not_found,
  permissions, threw, unsupported_version, without,
}

module _ (c : Crypto) where
  unfoldable pub in_bounds : Value → ℕ → ℕ → Bool
  in_bounds (num (nat n)) least most = leb least n && leb n most
  in_bounds v least most = false

  -- `assertKdfParamsInBounds`.
  unfoldable pub kdf_in_bounds : Value → Value → Bool
  unfolding in_bounds
  kdf_in_bounds opslimit memlimit =
      in_bounds opslimit c.opslimit_interactive c.opslimit_moderate
      && in_bounds memlimit c.memlimit_interactive c.memlimit_moderate

  unfoldable pub nat_of : Value → ℕ
  nat_of (num (nat n)) = n
  nat_of v = 0

  unfoldable pub opened : Value → Option Text → Outcome KeystoreError Opened
  opened meta none = err decrypt_failed
  opened meta (some secret) = ok (record { secret = secret; meta = meta })

  -- `additionalData` throws inside the `try` of the decryption.
  unfoldable pub decrypted :
      Text → Text → Text → Outcome Thrown Text → Value → Outcome KeystoreError Opened
  unfolding opened
  decrypted ciphertext nonce key (err t) meta = err decrypt_failed
  decrypted ciphertext nonce key (ok additional) meta =
      opened meta (c.decrypt ciphertext additional nonce key)

  unfoldable pub lift_throw : {A : Type 0} → Outcome Thrown A → Outcome KeystoreError A
  lift_throw (ok a) = ok a
  lift_throw (err t) = err (threw t)

  unfoldable pub check : Bool → KeystoreError → Outcome KeystoreError (Unit {0})
  check true e = ok tt
  check false e = err e

  unfoldable pub optional : Text → Value → Outcome Thrown Value
  optional k undefined = ok undefined
  optional k null = ok undefined
  optional k v = read_member k v

  -- The file's fields, from the version on.
  unfoldable pub open_fields : Fields → Text → Outcome KeystoreError Opened
  unfolding lift_throw check optional kdf_in_bounds nat_of decrypted without
  open_fields file passphrase =
      let kdf = get_field (lit "kdf") file in
      let cipher = get_field (lit "cipher") file in
      check
        (is_nat 1 (get_field (lit "version") file)
          && is_text (lit "encrypted-file") (get_field (lit "kind") file))
        unsupported_version
      >>= λ _. lift_throw (optional (lit "algorithm") kdf) >>= λ kdf_name.
          lift_throw (optional (lit "algorithm") cipher) >>= λ cipher_name.
          check
            (is_text (lit "argon2id13") kdf_name
              && is_text (lit "xchacha20poly1305-ietf") cipher_name)
            unsupported_version
          >>= λ _. lift_throw (read_member (lit "salt") kdf >>= c.buffer_from) >>= λ salt.
              lift_throw (read_member (lit "nonce") cipher >>= c.buffer_from) >>= λ nonce.
              lift_throw (c.buffer_from (get_field (lit "ciphertext") file)) >>= λ ciphertext.
              check
                ((length salt == c.salt_bytes)
                  && (length nonce == c.nonce_bytes)
                  && ltb c.tag_bytes (length ciphertext))
                bad_format
              >>= λ _. lift_throw (read_member (lit "opslimit") kdf) >>= λ opslimit.
                  lift_throw (read_member (lit "memlimit") kdf) >>= λ memlimit.
                  check (kdf_in_bounds opslimit memlimit) bad_format >>= λ _.
                  decrypted ciphertext nonce
                    (c.derive passphrase salt (nat_of opslimit) (nat_of memlimit))
                    (canonicalize (obj (without (lit "ciphertext") file)))
                    (get_field (lit "meta") file)

  -- `file.version` of null throws, and of what is no object is undefined.
  unfoldable pub open_value : Option Value → Text → Outcome KeystoreError Opened
  unfolding open_fields
  open_value none passphrase = err bad_format
  open_value (some (obj file)) passphrase = open_fields file passphrase
  open_value (some null) passphrase = err (threw internal)
  open_value (some v) passphrase = err unsupported_version

  unfoldable pub open_found : Option File → Text → Outcome KeystoreError Opened
  unfolding open_value
  open_found none passphrase = err file_not_found
  open_found (some f) passphrase =
      if f.for_others then err permissions else open_value (c.parse_json f.content) passphrase

  unfoldable pub open_keystore_file : FileSystem → Text → Text → Outcome KeystoreError Opened
  unfolding open_found
  open_keystore_file fs path passphrase = open_found (lookup path fs) passphrase
