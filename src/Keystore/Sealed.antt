-- ===== src/Keystore/Sealed.antt =====
-- A file that was created opens again, and what opens is what was sealed.
use signbox.Prelude.{
  ◌+◌, ◌≤◌, ◌<◌, ◌≡◌, refl, true, ◌&&◌, none, some, arith, ltb, ◌==◌, ==_iff, length,
}
use signbox.Prelude.Text.{Text, text_eq, text_eq_refl, lookup, lookup-insert}
use signbox.Prelude.Outcome.{ok}
use signbox.Value.{nat, num, str, obj, get_field, read_member, is_text, is_nat, of_fields}
use signbox.Canonical.{canonicalize}
use signbox.Keystore.{
  FileSystem, Crypto, KeystoreMetadata, meta_value, header_of, sealed_file, fresh_key, write_at,
  write_new, write_sealed, create_keystore_file,
}
use signbox.Keystore.Open.{
  kdf_in_bounds, nat_of, opened, decrypted, open_fields, open_value, open_found, open_keystore_file,
}

-- What the code relies on: base64 and the cipher read back what they wrote, the cipher adds its tag,
-- and the presets are in order.
pub record IsCrypto (c : Crypto) : Type 0 where
  pub decodes : (bytes : Text) → c.buffer_from (str (c.to_base64 bytes)) ≡ ok bytes
  pub decrypts :
      (secret additional nonce key : Text)
      → c.decrypt (c.encrypt secret additional nonce key) additional nonce key ≡ some secret
  pub tagged :
      (secret additional nonce key : Text)
      → length (c.encrypt secret additional nonce key) ≡ length secret + c.tag_bytes
  pub opslimits : c.opslimit_interactive ≤ c.opslimit_moderate
  pub memlimits : c.memlimit_interactive ≤ c.memlimit_moderate

module _ (c : Crypto) (salt nonce : Text) (meta : KeystoreMetadata) where
  header-canonical :
      (additional : Text) × (canonicalize (obj (of_fields (header_of c salt nonce meta)))
        ≡ ok additional)
  unfolding canonicalize header_of meta_value
  header-canonical = (_, refl)

  sizes_ok :
      (secret additional key : Text)
      → IsCrypto c
      → length salt ≡ c.salt_bytes
      → length nonce ≡ c.nonce_bytes
      → 0 < length secret
      → (length salt == c.salt_bytes)
          && (length nonce == c.nonce_bytes)
          && ltb c.tag_bytes (length (c.encrypt secret additional nonce key))
        ≡ true
  sizes_ok secret additional key h s n some_secret = ground (
    arith,
    h.tagged secret additional nonce key,
    ==_iff (length salt) c.salt_bytes,
    ==_iff (length nonce) c.nonce_bytes,
  )

  bounds_ok :
      IsCrypto c
      → kdf_in_bounds c (num (nat c.opslimit_moderate)) (num (nat c.memlimit_moderate)) ≡ true
  unfolding kdf_in_bounds
  bounds_ok h = ground (arith, h.opslimits, h.memlimits)

  open_fields-sealed :
      IsCrypto c
      → (secret passphrase additional : Text) → length salt ≡ c.salt_bytes
      → length nonce ≡ c.nonce_bytes
      → 0 < length secret
      → canonicalize (obj (of_fields (header_of c salt nonce meta))) ≡ ok additional
      → open_value c
          (some (
            sealed_file c
              (header_of c salt nonce meta)
              (c.encrypt secret additional nonce (fresh_key c passphrase salt))))
          passphrase
        ≡ ok (record { secret = secret; meta = meta_value meta })
  unfolding open_value open_fields decrypted opened nat_of sealed_file header_of fresh_key get_field
      text_eq is_text is_nat read_member
  open_fields-sealed h secret passphrase additional s n some_secret canon =
      let ciphertext = c.encrypt secret additional nonce (fresh_key c passphrase salt) in
      let sizes = sizes_ok secret additional (fresh_key c passphrase salt) h s n some_secret in
      rw (h.decodes salt) (
        rw (h.decodes nonce) (
          rw (h.decodes ciphertext) (
            rw sizes (
              rw (bounds_ok h) (
                rw canon
                  (rw (h.decrypts secret additional nonce (fresh_key c passphrase salt)) refl))))))

-- A container that is created opens again: where the path is free, creating succeeds, and opening the
-- path with the passphrase gives the secret and the metadata, for random bytes of the right sizes, a
-- secret that is not empty, and JSON that reads back what it wrote of the file.
pub open-create :
    (c : Crypto) (fs : FileSystem) (path secret passphrase : Text) (meta : KeystoreMetadata)
    (salt nonce : Text)
    → IsCrypto c
    → ((ciphertext : Text)
        → c.parse_json (c.print_json (sealed_file c (header_of c salt nonce meta) ciphertext))
          ≡ some (sealed_file c (header_of c salt nonce meta) ciphertext))
    → length salt ≡ c.salt_bytes
    → length nonce ≡ c.nonce_bytes
    → 0 < length secret
    → lookup path fs ≡ none
    → ((create_keystore_file c fs path secret passphrase meta salt nonce).1 ≡ ok tt)
      × (open_keystore_file c
            (create_keystore_file c fs path secret passphrase meta salt nonce).0
            path
            passphrase
          ≡ ok (record { secret = secret; meta = meta_value meta }))
unfolding create_keystore_file write_sealed write_new write_at open_keystore_file open_found
open-create c fs path secret passphrase meta salt nonce h reads s n some_secret free =
    let (additional, canon) = header-canonical c salt nonce meta in
    rw canon (
      rw free (
        (
          refl,
          rw (lookup-insert, text_eq_refl)
              (rw reads (
                open_fields-sealed c salt nonce meta h secret passphrase additional s n some_secret
                  canon)),
        )))
