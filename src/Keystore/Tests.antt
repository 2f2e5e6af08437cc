-- ===== src/Keystore/Tests.antt =====
-- Key files on concrete bytes.
use signbox.Prelude.{◌≡◌, refl, Option, none, some, List, [], ◌∷◌, ◌++◌, drop, arith}
use signbox.Prelude.Text.{Text, lit, text_eq, lookup}
use signbox.Prelude.Outcome.{Outcome, ok, err}
use signbox.Errors.{Thrown, internal}
use signbox.Value.{nat, Value, num, str, obj, get_field, of_fields, text_of}
use signbox.Keystore.{
  File, file_not_found, Crypto, KeystoreMetadata, meta_value, header_of, sealed_file,
  create_keystore_file,
}
use signbox.Keystore.Open.{open_keystore_file}
use signbox.Keystore.Sealed.{IsCrypto, open-create}

abbrev pub meta : KeystoreMetadata
meta = record {
  public_key = lit "pub";
  export_policy = lit "non-exportable";
  chain = record { chain = lit "XPR"; network = lit "testnet"; chain_id = lit "c" };
  agent = lit "ag";
  permission = lit "active";
  created_at = lit "2026";
}

abbrev pub salt : Text
salt = lit "s"

abbrev pub nonce : Text
nonce = lit "n"

abbrev buffer : Value → Outcome Thrown Text
buffer (str s) = ok s
buffer v = err internal

abbrev text_or_empty : Option Text → Text
text_or_empty none = []
text_or_empty (some t) = t

abbrev ciphertext_in : Value → Text
ciphertext_in (obj fs) = text_or_empty (text_of (get_field (lit "ciphertext") fs))
ciphertext_in v = []

-- A cipher that puts one byte before the secret, and JSON that keeps the ciphertext alone.
abbrev header : List (Text × Value)
header =
    (lit "version", num (nat 1))
    ∷ (lit "kind", str (lit "encrypted-file"))
    ∷ (
      lit "kdf",
      obj (
          of_fields (
            (lit "algorithm", str (lit "argon2id13"))
            ∷ (lit "opslimit", num (nat 3))
            ∷ (lit "memlimit", num (nat 8))
            ∷ (lit "salt", str salt)
            ∷ [])),
    )
    ∷ (
      lit "cipher",
      obj (
          of_fields (
            (lit "algorithm", str (lit "xchacha20poly1305-ietf")) ∷ (lit "nonce", str nonce) ∷ [])),
    )
    ∷ (lit "meta", meta_value meta)
    ∷ []

abbrev pub plain : Crypto
plain = record {
  derive = λ passphrase salt ops mem. passphrase;
  encrypt = λ secret additional nonce key. 0 ∷ secret;
  decrypt = λ ciphertext additional nonce key. some (drop 1 ciphertext);
  to_base64 = λ t. t;
  buffer_from = buffer;
  parse_json = λ t. some (obj (of_fields (header ++ ((lit "ciphertext", str t) ∷ []))));
  print_json = ciphertext_in;
  salt_bytes = 1;
  nonce_bytes = 1;
  tag_bytes = 1;
  opslimit_interactive = 2;
  opslimit_moderate = 3;
  memlimit_interactive = 4;
  memlimit_moderate = 8;
}

pub plain-IsCrypto : IsCrypto plain
plain-IsCrypto = record {
  decodes = λ b. refl;
  decrypts = λ s a n k. refl;
  tagged = λ s a n k. omega arith;
  opslimits = omega arith;
  memlimits = omega arith;
}

reads_back :
    (t : Text)
    → plain.parse_json (plain.print_json (sealed_file plain (header_of plain salt nonce meta) t))
      ≡ some (sealed_file plain (header_of plain salt nonce meta) t)
unfolding sealed_file header_of get_field text_of text_eq
reads_back t = refl

no_file : ◌≡◌ {A = Option File} (lookup (lit "/k") []) none
unfolding lookup
no_file = refl

open-create_example :
    ((create_keystore_file plain [] (lit "/k") (lit "wif") (lit "pass") meta salt nonce).1 ≡ ok tt)
    × (open_keystore_file plain
          (create_keystore_file plain [] (lit "/k") (lit "wif") (lit "pass") meta salt nonce).0
          (lit "/k")
          (lit "pass")
        ≡ ok (record { secret = lit "wif"; meta = meta_value meta }))
open-create_example =
    open-create plain [] (lit "/k") (lit "wif") (lit "pass") meta salt nonce plain-IsCrypto
      reads_back refl refl (omega arith) no_file

missing : open_keystore_file plain [] (lit "/k") (lit "pass") ≡ err file_not_found
unfolding open_keystore_file lookup
missing = refl
