-- ===== src/Daemon/Protocol/Valid.antt =====
-- What a sign request that parses is.
use signbox.Prelude.{
  ℕ, ◌≡◌, refl, ◌⊎◌, ap, subst, inl, inr, Bool, true, false, Option, none, some, List, All, &&_iff,
  every_iff, Bool-cases,
}
use signbox.Prelude.Text.{Text, lit}
use signbox.Value.{Value, undefined, null, bool, num, str, arr, obj, Fields, get_field}
use signbox.Policy.Vocabulary.{is_chain_id}
use signbox.Policy.Schema.{sized}
use signbox.Daemon.State.{SignRequest, Dependencies}
use signbox.Daemon.Protocol.{
  conforming, is_true, text_in, text_at, timed, with_times, sign_request_of, parse_sign_request,
}
use signbox.Daemon.Schema.{
  is_request_id, is_account, is_nonce, is_token, is_iso_datetime, Property, textual, is_object,
  is_boolean, allows, needs, sign_request_schema, value_conforms, names_of, only_named,
  validate_shape,
}

-- The property holds the text, which passes the test.
pub record Holds (k : Text) (p : Text → Bool) (fs : Fields) (t : Text) : Type 0 where
  pub stands : get_field k fs ≡ str t
  pub passes : p t ≡ true

textual-Holds :
    (k : Text) (p : Text → Bool) (v : Value)
    → value_conforms (needs k (textual p)) v ≡ true
    → (v ≡ str (text_in v)) × (p (text_in v) ≡ true)
unfolding value_conforms text_in
textual-Holds k p undefined h = absurd (cc (h))
textual-Holds k p null h = absurd (cc (h))
textual-Holds k p (bool b) h = absurd (cc (h))
textual-Holds k p (num n) h = absurd (cc (h))
textual-Holds k p (str s) h = (refl, h)
textual-Holds k p (arr vs) h = absurd (cc (h))
textual-Holds k p (obj fs) h = absurd (cc (h))

text_at-Holds :
    (k : Text) (p : Text → Bool) (fs : Fields)
    → value_conforms (needs k (textual p)) (get_field k fs) ≡ true
    → Holds k p fs (text_at k fs)
text_at-Holds k p fs h =
    let (stands, passes) = textual-Holds k p (get_field k fs) h in
    record { stands = stands; passes = passes }

object-IsObject :
    (k : Text) (v : Value)
    → value_conforms (needs k is_object) v ≡ true
    → (fs : Fields) × (v ≡ obj fs)
unfolding value_conforms
object-IsObject k undefined h = absurd (cc (h))
object-IsObject k null h = absurd (cc (h))
object-IsObject k (bool b) h = absurd (cc (h))
object-IsObject k (num n) h = absurd (cc (h))
object-IsObject k (str s) h = absurd (cc (h))
object-IsObject k (arr vs) h = absurd (cc (h))
object-IsObject k (obj fs) h = (fs, refl)

-- A flag that may be left out, and is then false.
boolean-IsFlag :
    (v : Value)
    → value_conforms (allows (lit "broadcast") is_boolean) v ≡ true
    → ((v ≡ undefined) × (is_true v ≡ false)) ⊎ (v ≡ bool (is_true v))
unfolding value_conforms is_true
boolean-IsFlag undefined h = inl (refl, refl)
boolean-IsFlag null h = absurd (cc (h))
boolean-IsFlag (bool b) h = inr refl
boolean-IsFlag (num n) h = absurd (cc (h))
boolean-IsFlag (str s) h = absurd (cc (h))
boolean-IsFlag (arr vs) h = absurd (cc (h))
boolean-IsFlag (obj fs) h = absurd (cc (h))

module _ (deps : Dependencies) where
  -- A time of the request: a text of the ISO form that Date.parse reads.
  pub record IsTime (k : Text) (fs : Fields) (at : ℕ) : Type 0 where
    pub text : Text
    pub written : Holds k (λ s. is_iso_datetime s) fs text
    pub dated : deps.parse_date text ≡ some at

  pub record IsWellFormed (fs : Fields) (r : SignRequest) : Type 0 where
    pub only_known : only_named (names_of sign_request_schema) fs ≡ true
    pub request_id : Holds (lit "requestId") (λ s. is_request_id s) fs r.request_id
    pub agent : Holds (lit "agent") (λ s. is_account s) fs r.agent
    pub chain : Holds (lit "chain") (λ s. sized 1 32 s) fs r.chain
    pub network : Holds (lit "network") (λ s. sized 1 32 s) fs r.network
    pub chain_id : Holds (lit "chainId") (λ s. is_chain_id s) fs r.chain_id
    pub nonce : Holds (lit "nonce") (λ s. is_nonce s) fs r.nonce
    pub token : Holds (lit "token") (λ s. is_token s) fs r.token
    pub transaction : get_field (lit "transaction") fs ≡ r.transaction
    pub is_object : (tx : Fields) × (r.transaction ≡ obj tx)
    pub broadcast :
        ((get_field (lit "broadcast") fs ≡ undefined) × (r.broadcast ≡ false))
        ⊎ (get_field (lit "broadcast") fs ≡ bool r.broadcast)
    pub requested : IsTime (lit "requestedAt") fs r.requested_at
    pub expires : IsTime (lit "expiresAt") fs r.expires_at

  -- The object of the line, which is the well-formed request.
  pub record IsParsed (line : Text) (r : SignRequest) : Type 0 where
    pub fs : Fields
    pub parsed : deps.host.parse_json line ≡ some (obj fs)
    pub formed : IsWellFormed fs r

validate_shape-All :
    (schema : List Property) (fs : Fields)
    → validate_shape schema (obj fs) ≡ true
    → (only_named (names_of schema) fs ≡ true)
      × All (λ (p : Property). value_conforms p (get_field p.name fs) ≡ true) schema
unfolding validate_shape
validate_shape-All schema fs h =
    let (named, all) = (&&_iff _ _).0 h in
    (named, (every_iff (λ (p : Property). value_conforms p (get_field p.name fs)) schema).0 all)

conforming-shape :
    (schema : List Property) (v : Option Value) (fs : Fields)
    → conforming schema v ≡ some fs
    → (v ≡ some (obj fs)) × (validate_shape schema (obj fs) ≡ true)
unfolding conforming
conforming-shape schema none fs h = absurd (cc (h))
conforming-shape schema (some undefined) fs h = absurd (cc (h))
conforming-shape schema (some null) fs h = absurd (cc (h))
conforming-shape schema (some (bool b)) fs h = absurd (cc (h))
conforming-shape schema (some (num n)) fs h = absurd (cc (h))
conforming-shape schema (some (str s)) fs h = absurd (cc (h))
conforming-shape schema (some (arr vs)) fs h = absurd (cc (h))
conforming-shape schema (some (obj own)) fs h =
    elim (Bool-cases (validate_shape schema (obj own))) [
      | inr bad ↦ absurd (cc (rw bad at h))
      | inl good ↦
          let same : own ≡ fs = cc (rw good at h) in
          (ap (λ x. some (obj x)) same, subst (λ x. validate_shape schema (obj x) ≡ true) same good)
    ]

timed-some :
    {A : Type 0} (requested expires : Option ℕ) (f : ℕ → ℕ → A) (a : A)
    → timed requested expires f ≡ some a
    → (m : ℕ) × (n : ℕ) × (requested ≡ some m) × (expires ≡ some n) × (f m n ≡ a)
unfolding timed
timed-some none expires f a h = absurd (cc (h))
timed-some (some m) none f a h = absurd (cc (h))
timed-some (some m) (some n) f a h = (m, n, refl, refl, cc (h))

module _ (deps : Dependencies) where
  sign_request_of-IsWellFormed :
      (found : Option Fields) (r : SignRequest)
      → sign_request_of deps found ≡ some r
      → (fs : Fields) × (found ≡ some fs)
        × (validate_shape sign_request_schema (obj fs) ≡ true → IsWellFormed deps fs r)
  unfolding sign_request_of with_times
  sign_request_of-IsWellFormed none r h = absurd (cc (h))
  sign_request_of-IsWellFormed (some fs) r h =
      let (m, n, requested, expires, same) =
        timed-some (deps.parse_date (text_at (lit "requestedAt") fs))
          (deps.parse_date (text_at (lit "expiresAt") fs)) _ r h in
      (
        fs,
        refl,
        λ shape.
            let (named, all) = validate_shape-All sign_request_schema fs shape in
            let rest = all.1.1.1.1.1.1 in
            subst (λ x. IsWellFormed deps fs x) same
              (record {
                only_known = named;
                request_id = text_at-Holds (lit "requestId") _ fs rest.0;
                agent = text_at-Holds (lit "agent") _ fs rest.1.0;
                chain = text_at-Holds (lit "chain") _ fs all.1.1.0;
                network = text_at-Holds (lit "network") _ fs all.1.1.1.0;
                chain_id = text_at-Holds (lit "chainId") _ fs all.1.1.1.1.0;
                nonce = text_at-Holds (lit "nonce") _ fs all.1.1.1.1.1.0;
                token = text_at-Holds (lit "token") _ fs rest.1.1.1.1.0;
                transaction = refl;
                is_object = object-IsObject (lit "transaction") _ all.0;
                broadcast = boolean-IsFlag (get_field (lit "broadcast") fs) all.1.0;
                requested = record {
                  text = text_at (lit "requestedAt") fs;
                  written = text_at-Holds (lit "requestedAt") _ fs rest.1.1.0;
                  dated = requested;
                };
                expires = record {
                  text = text_at (lit "expiresAt") fs;
                  written = text_at-Holds (lit "expiresAt") _ fs rest.1.1.1.0;
                  dated = expires;
                };
              }),
      )

-- A line that is read as a sign request holds an object with no property but those of the schema: an
-- id, an agent, a chain, a network, a chain id, a nonce and a token of the forms that the schema gives,
-- a transaction that is an object, perhaps a Boolean flag, and two ISO times that Date.parse reads. The
-- request has these texts, that transaction, those times, and the flag, which is false if left out.
pub parse_sign_request-IsParsed :
    (deps : Dependencies) (line : Text) (r : SignRequest)
    → parse_sign_request deps line ≡ some r
    → IsParsed deps line r
unfolding parse_sign_request
parse_sign_request-IsParsed deps line r h =
    let (fs, found, formed) =
      sign_request_of-IsWellFormed deps (conforming sign_request_schema (deps.host.parse_json line))
        r h in
    let (parsed, shape) =
      conforming-shape sign_request_schema (deps.host.parse_json line) fs found in
    record { fs = fs; parsed = parsed; formed = formed shape }
