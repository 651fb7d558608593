-- ===== src/Tokens.antt =====
-- Signed tokens: `signPayload` and `verifySignedPayload` of backend/packages/api/src/security.ts.
-- The JSON, base64url, UTF-8 and HMAC of the platform are parameters.
pub mod Interaction
pub mod Visitor
mod Tests
use powerotp.Prelude.{
  ◌||◌, within, is_space, arith, ℕ, Bool, true, false, not, ◌&&◌, Option, none, some, List, [], ◌∷◌,
  ◌++◌, ◌==◌, ==_refl, list_beq_refl, list_beq_sound, Bool-cases, inl, inr, text_eq, if◌then◌else◌,
  Text, text, ◌≡◌, refl, ap, every, nat_eq, ◌∙◌, length,
}
use powerotp.Network.Address.{split}
use powerotp.Network.Cidr.Decimal.{split-free, split-append}
use powerotp.Network.Cidr.RoundTrip.{every-append, every_weaker}
use powerotp.Verification.Service.{safe_equal}

-- What is used of the platform, for payloads of one type. `from_json` gives `none` for a text that
-- is no JSON, or that is not an object of the fields of the payload and their types.
pub record Platform (Claims : Type 0) : Type 0 where
  pub to_json : Claims → Text
  pub from_json : Text → Option Claims
  pub encode : Text → Text
  pub decode : Text → Text
  pub hash_token : Text → Text → Text
  pub utf8 : Text → List ℕ

abbrev pub is_text : Text → Bool
is_text [] = false
is_text (c ∷ s) = true

-- The alphabet of base64url.
abbrev pub is_url : ℕ → Bool
is_url c = within 48 57 c || within 65 90 c || within 97 122 c || c == 45 || c == 95

-- JSON and base64url give back what they were given; base64url and the digest are texts over its
-- alphabet, and not empty for a payload.
pub record PlatformLaws {Claims : Type 0} (platform : Platform Claims) : Type 0 where
  pub from_json-to_json : (c : Claims) → platform.from_json (platform.to_json c) ≡ some c
  pub decode-encode : (s : Text) → platform.decode (platform.encode s) ≡ s
  pub every-encode : (s : Text) → every is_url (platform.encode s) ≡ true
  pub is_text-encode : (c : Claims) → is_text (platform.encode (platform.to_json c)) ≡ true
  pub every-hash_token : (s secret : Text) → every is_url (platform.hash_token s secret) ≡ true
  pub is_text-hash_token : (s secret : Text) → is_text (platform.hash_token s secret) ≡ true

url_dotless : (c : ℕ) → is_url c ≡ true → not (c == 46) ≡ true
url_dotless c h = ground arith

pub url_spaceless : (c : ℕ) → is_url c ≡ true → not (is_space c) ≡ true
url_spaceless c h = ground arith

module _ {Claims : Type 0} (platform : Platform Claims) where
  -- `signPayload`
  unfoldable pub sign_payload : Claims → Text → Text
  sign_payload claims secret =
      let encoded = platform.encode (platform.to_json claims) in
      encoded ++ (46 ∷ platform.hash_token encoded secret)

  -- The parts that are there are used, whatever follows them.
  abbrev pub payload_of : List Text → Text → Option Claims
  payload_of (encoded ∷ signature ∷ rest) secret =
      if not (is_text encoded && is_text signature)
      then none
      else if not (safe_equal platform.utf8 signature (platform.hash_token encoded secret))
      then none
      else platform.from_json (platform.decode encoded)
  payload_of _ secret = none

  -- `verifySignedPayload`
  unfoldable pub verify_signed_payload : Text → Text → Option Claims
  verify_signed_payload token secret = payload_of (split 46 token) secret

  module _ (laws : PlatformLaws platform) where
    pub verify_signed_payload-sign_payload :
        (claims : Claims) (secret : Text)
        → verify_signed_payload (sign_payload claims secret) secret ≡ some claims
    unfolding verify_signed_payload sign_payload
    verify_signed_payload-sign_payload claims secret =
        let encoded = platform.encode (platform.to_json claims) in
        let signature = platform.hash_token encoded secret in
        let parts : split 46 (encoded ++ (46 ∷ signature)) ≡ encoded ∷ signature ∷ [] =
          split-append 46 encoded signature (
            every_weaker is_url (λ c. not (c == 46)) url_dotless encoded
              (laws.every-encode (platform.to_json claims)))
          ∙ ap (◌∷◌ encoded) (
              split-free 46 signature (
                every_weaker is_url (λ c. not (c == 46)) url_dotless signature
                  (laws.every-hash_token encoded secret))) in
        ap (λ p. payload_of p secret) parts
        ∙ rw
            (
              laws.is_text-encode claims,
              laws.is_text-hash_token encoded secret,
              laws.decode-encode (platform.to_json claims),
              ==_refl (length (platform.utf8 signature)),
              list_beq_refl (platform.utf8 signature),
            )
            (laws.from_json-to_json claims)

  pub spaceless-sign_payload :
      (laws : PlatformLaws platform) (claims : Claims) (secret : Text)
      → every (λ c. not (is_space c)) (sign_payload claims secret) ≡ true
  unfolding sign_payload
  spaceless-sign_payload laws claims secret =
      let encoded = platform.encode (platform.to_json claims) in
      let signature = platform.hash_token encoded secret in
      every-append (λ c. not (is_space c)) encoded (46 ∷ signature)
        (every_weaker is_url (λ c. not (is_space c)) url_spaceless encoded
          (laws.every-encode (platform.to_json claims)))
        (every_weaker is_url (λ c. not (is_space c)) url_spaceless signature
          (laws.every-hash_token encoded secret))

  -- The token has a payload, which is that of these claims, and the signature of that payload, in
  -- the bytes of UTF-8.
  abbrev pub IsSigned : List Text → Text → Claims → Type 0
  IsSigned parts secret claims =
      (encoded : Text) × (signature : Text) × (rest : List Text) × (parts
        ≡ encoded ∷ signature ∷ rest)
      × (platform.utf8 signature ≡ platform.utf8 (platform.hash_token encoded secret))
      × (platform.from_json (platform.decode encoded) ≡ some claims)

  payload_of-IsSigned :
      (parts : List Text) (secret : Text) (claims : Claims)
      → payload_of parts secret ≡ some claims
      → IsSigned parts secret claims
  payload_of-IsSigned [] secret claims h = cc
  payload_of-IsSigned (a ∷ []) secret claims h = cc
  payload_of-IsSigned (encoded ∷ signature ∷ rest) secret claims h =
      let expected = platform.hash_token encoded secret in
      elim (Bool-cases (is_text encoded && is_text signature)) [
        | inr bare ↦ cc (rw bare at h)
        | inl given ↦ elim (Bool-cases (safe_equal platform.utf8 signature expected)) [
          | inr other ↦ cc (rw (given, other) at h)
          | inl equal ↦ (
            encoded,
            signature,
            rest,
            refl,
            list_beq_sound (platform.utf8 signature) (platform.utf8 expected) (second _ _ equal),
            rw (given, equal) at h,
          )
        ]
      ]
    where
      second : (a b : Bool) → (a && b) ≡ true → b ≡ true
      second true b h = h
      second false b h = cc

  pub verify_signed_payload-IsSigned :
      (token secret : Text) (claims : Claims)
      → verify_signed_payload token secret ≡ some claims
      → IsSigned (split 46 token) secret claims
  unfolding verify_signed_payload
  verify_signed_payload-IsSigned token secret claims h =
      payload_of-IsSigned (split 46 token) secret claims h
