-- ===== src/Onboarding/Flow/Creation.antt =====
-- What a new key file changes: its own path, which was free.
use signbox.Prelude.{
  ◌≡◌, refl, ap, inl, inr, false, Option, none, some, List, ◌++◌, arith, length, length-append,
  Bool-cases,
}
use signbox.Prelude.Text.{Text, lit, text_eq, text_eq_iff, lookup, insert}
use signbox.Prelude.Outcome.{Outcome, ok, err}
use signbox.Errors.{Thrown}
use signbox.Value.{Value, obj, of_fields}
use signbox.Canonical.{canonicalize}
use signbox.Keystore.{
  File, FileSystem, KeystoreError, Crypto, KeystoreMetadata, header_of, sealed_file, fresh_key,
  write_at, write_new, write_sealed, create_keystore_file,
}
use signbox.Onboarding.Flow.{temp_path}

pub temp_path-ne : (path : Text) → text_eq path (temp_path path) ≡ false
unfolding temp_path
temp_path-ne path = elim (Bool-cases (text_eq path (path ++ lit ".onboarding"))) [
  | inr other ↦ other
  | inl same ↦
      let e = ap (λ (t : Text). length t) ((text_eq_iff path (path ++ lit ".onboarding")).0 same) in
      absurd (omega (arith, length-append path (lit ".onboarding"), e))
]

-- Nothing but the path differs.
abbrev SameBut : Text → FileSystem → FileSystem → Type 0
SameBut path before after = (p : Text) → text_eq path p ≡ false → lookup p after ≡ lookup p before

-- The file holds the secret, encrypted under the key of the passphrase with the header as additional
-- data, and only its owner may read it.
pub record IsSealed (c : Crypto) (secret passphrase salt nonce : Text)
    (header : List (Text × Value)) (f : File) : Type 0 where
  pub additional : Text
  pub canonical : canonicalize (obj (of_fields header)) ≡ ok additional
  pub private : f.for_others ≡ false
  pub content :
      f.content
      ≡ c.print_json (
          sealed_file c header (
            c.encrypt secret additional nonce
              (c.derive passphrase salt c.opslimit_moderate c.memlimit_moderate)))

-- A creation writes to its path alone: it finds a free path and fills it, or changes nothing.
pub data IsCreation (kind : File → Type 0) (path : Text) (fs after : FileSystem)
    (result : Outcome KeystoreError (Unit {0})) : Type 0 where
  kept : after ≡ fs → (e : KeystoreError) → result ≡ err e → IsCreation kind path fs after result
  written :
      (f : File)
      → kind f
      → lookup path fs ≡ none
      → after ≡ insert path f fs
      → result ≡ ok tt
      → IsCreation kind path fs after result

write_at-IsCreation :
    (c : Crypto) (kind : File → Type 0) (fs : FileSystem) (path content : Text)
    (found : Option File)
    → kind (record { content = content; for_others = false })
    → lookup path fs ≡ found
    → IsCreation kind path fs
        (write_at c fs path content found).0
        (write_at c fs path content found).1
unfolding write_at
write_at-IsCreation c kind fs path content none fits e = written _ fits e refl refl
write_at-IsCreation c kind fs path content (some f) fits e = kept refl _ refl

write_sealed-IsCreation :
    (c : Crypto) (fs : FileSystem) (path secret passphrase salt nonce : Text)
    (header : List (Text × Value)) (additional : Outcome Thrown Text)
    → canonicalize (obj (of_fields header)) ≡ additional
    → IsCreation
        (IsSealed c secret passphrase salt nonce header)
        path
        fs
        (write_sealed c fs path secret passphrase salt nonce header additional).0
        (write_sealed c fs path secret passphrase salt nonce header additional).1
unfolding write_sealed write_new fresh_key
write_sealed-IsCreation c fs path secret passphrase salt nonce header (err t) canon =
    kept refl _ refl
write_sealed-IsCreation c fs path secret passphrase salt nonce header (ok additional) canon =
    write_at-IsCreation c (IsSealed c secret passphrase salt nonce header) fs path _
      (lookup path fs)
      (record { additional = additional; canonical = canon; private = refl; content = refl }) refl

pub create-IsCreation :
    (c : Crypto) (fs : FileSystem) (path secret passphrase : Text) (meta : KeystoreMetadata)
    (salt nonce : Text)
    → IsCreation
        (IsSealed c secret passphrase salt nonce (header_of c salt nonce meta))
        path
        fs
        (create_keystore_file c fs path secret passphrase meta salt nonce).0
        (create_keystore_file c fs path secret passphrase meta salt nonce).1
unfolding create_keystore_file
create-IsCreation c fs path secret passphrase meta salt nonce =
    write_sealed-IsCreation c fs path secret passphrase salt nonce (header_of c salt nonce meta) _
      refl
