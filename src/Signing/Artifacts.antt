-- ===== src/Signing/Artifacts.antt =====
-- The signed artifacts, and the clearance of a visitor for a site:
-- backend/packages/botblocker-signing/src/index.ts, with the schemas of
-- backend/packages/contracts/src/botblocker-clearance.ts.
pub mod Cleared
pub mod Distinct
pub mod Round
use powerotp.Prelude.{
  ℕ, ◌+◌, Bool, true, false, not, ◌&&◌, ◌||◌, Option, none, some, List, [], ◌∷◌, ◌++◌, ◌==◌, nat_eq,
  ltb, leb, if◌then◌else◌, every, length, within, is_digit, Text, text, text_eq,
}
use powerotp.Signing.Canonical.{
  Json, string, number, object, Fields, field, no_fields, canonicalize,
}
use powerotp.Signing.Keys.{
  Crypto, KeySet, SigningKey, Resolution, resolved, is_revoked, is_retired, is_untrusted,
  resolve_verification_key, validate_clock_skew, is_key_id, KeyResult, ok, err,
}

pub data ArtifactType : Type 0 where
  site_clearance policy_release : ArtifactType

-- `BotBlockerArtifactClaims`
pub record Claims : Type 0 where
  pub artifact_type : ArtifactType
  pub key_id : Text
  pub audience : Text
  pub site_id : Text
  pub session_id : Option Text
  pub nonce : Text
  pub issued_at : ℕ
  pub expires_at : ℕ
  pub payload : Json

pub data ErrorCode : Type 0 where
  invalid_signature audience_mismatch expired : ErrorCode

-- `BotBlockerVerificationResult`
pub data Verified {ℓ} (A : Type ℓ) : Type ℓ where
  verified : A → Verified A
  failure : ErrorCode → Text → Verified A

abbrev pub type_text : ArtifactType → Text
type_text site_clearance = text "site_clearance"
type_text policy_release = text "policy_release"

-- A session that is undefined is no key of the object.
abbrev session_field : Option Text → Fields → Fields
session_field none fields = fields
session_field (some session) fields = field (text "sessionId") (string session) fields

-- `{ domain: SIGNING_DOMAIN, ...claims }`
abbrev pub claims_fields : Claims → Fields
claims_fields c = field (text "domain") (string (text "POWEROTP_BOTBLOCKER_ED25519_V1")) (
    field (text "artifactType") (string (type_text c.artifact_type)) (
      field (text "keyId") (string c.key_id) (
        field (text "audience") (string c.audience) (
          field (text "siteId") (string c.site_id) (
            session_field c.session_id (
              field (text "nonce") (string c.nonce) (
                field (text "issuedAt") (number c.issued_at) (
                  field (text "expiresAt") (number c.expires_at)
                    (field (text "payload") c.payload no_fields)))))))))

abbrev pub claims_json : Claims → Json
claims_json c = object (claims_fields c)

-- What the caller of a verification expects, its clock and the tolerance of clocks.
pub record Expected : Type 0 where
  pub audience : Text
  pub site_id : Text
  pub session_id : Option Text
  pub nonce : Option Text
  pub now : ℕ
  pub clock_skew_ms : Option ℕ

abbrev pub meets : Option Text → Option Text → Bool
meets none actual = true
meets (some s) none = false
meets (some s) (some actual) = actual == s

-- `UnsignedSiteClearance`
pub record Clearance : Type 0 where
  pub site_id : Text
  pub gate_session_id : Text
  pub audience : Text
  pub nonce : Text
  pub issued_at : ℕ
  pub expires_at : ℕ

-- `SignedSiteClearance`
pub record SignedClearance : Type 0 where
  pub clearance : Clearance
  pub key_id : Text
  pub signature : Text

-- `UnsignedSiteClearanceSchema`
abbrev pub clearance_schema : Clearance → Bool
clearance_schema c =
    within 16 64 (length c.site_id)
    && leb 16 (length c.gate_session_id)
    && leb 1 (length c.audience)
    && leb 16 (length c.nonce)
    && within 1 9007199254740991 c.issued_at
    && within 1 9007199254740991 c.expires_at
    && ltb c.issued_at c.expires_at

abbrev is_url_char : ℕ → Bool
is_url_char c = within 65 90 c || within 97 122 c || is_digit c || c == 45 || c == 95

-- `SignedSiteClearanceSchema`
abbrev pub signed_schema : SignedClearance → Bool
signed_schema s =
    clearance_schema s.clearance
    && is_key_id s.key_id
    && length s.signature == 86
    && every is_url_char s.signature

-- `clearanceClaims`
abbrev pub clearance_claims : Clearance → Text → Claims
clearance_claims c key_id = record {
  artifact_type = site_clearance;
  key_id = key_id;
  audience = c.audience;
  site_id = c.site_id;
  session_id = some c.gate_session_id;
  nonce = c.nonce;
  issued_at = c.issued_at;
  expires_at = c.expires_at;
  payload = object no_fields;
}

module _ (crypto : Crypto) where
  -- `signingBytes`
  unfoldable pub signing_bytes : Claims → List ℕ
  signing_bytes claims = crypto.utf8 (canonicalize crypto.quote crypto.print (claims_json claims))

  -- `signBotBlockerArtifact`
  abbrev pub sign_artifact : Claims → crypto.PrivateKey → Text
  sign_artifact claims key = crypto.to_base64url (crypto.sign (signing_bytes claims) key)

  abbrev signature_checked : Claims → Option Bool → Verified Claims
  signature_checked claims none =
      failure invalid_signature (text "The Ed25519 signature is malformed")
  signature_checked claims (some valid) =
      if valid
      then verified claims
      else failure invalid_signature (text "The Ed25519 signature is invalid")

  abbrev check_signature : Claims → Text → crypto.PublicKey → Verified Claims
  check_signature claims signature key =
      let bytes = crypto.of_base64url signature in
      if not (length bytes == 64)
      then failure invalid_signature (text "The Ed25519 signature is invalid")
      else signature_checked claims (crypto.verify (signing_bytes claims) key bytes)

  abbrev with_key : Claims → Text → Resolution crypto → Verified Claims
  with_key claims signature (resolved key) = check_signature claims signature key
  with_key claims signature is_revoked =
      failure invalid_signature (text "The signing key is revoked")
  with_key claims signature is_retired =
      failure invalid_signature (text "The signing key is retired")
  with_key claims signature is_untrusted =
      failure invalid_signature (text "The signing key is untrusted")

  -- The checks within the tolerance of clocks. `claims.expiresAt <= now - clockSkewMs` is over the
  -- integers.
  abbrev check_claims : Claims → Text → KeySet crypto → Expected → KeyResult ℕ → Verified Claims
  check_claims claims signature keys e (err _) =
      failure invalid_signature (text "The configured clock-skew bound is invalid")
  check_claims claims signature keys e (ok skew) =
      if not (claims.audience == e.audience)
      then failure audience_mismatch (text "The artifact audience does not match")
      else if not (claims.site_id == e.site_id)
      then failure invalid_signature (text "The artifact site binding does not match")
      else if not (meets e.session_id claims.session_id)
      then failure invalid_signature (text "The artifact session binding does not match")
      else if not (meets e.nonce (some claims.nonce))
      then failure invalid_signature (text "The artifact nonce does not match")
      else if leb (claims.expires_at + skew) e.now
      then failure expired (text "The artifact has expired")
      else if ltb (e.now + skew) claims.issued_at
      then failure invalid_signature (text "The artifact was issued in the future")
      else with_key claims signature (resolve_verification_key crypto keys claims.key_id e.now)

  -- `verifyBotBlockerArtifact`
  unfoldable pub verify_artifact : Claims → Text → KeySet crypto → Expected → Verified Claims
  verify_artifact claims signature keys e =
      check_claims claims signature keys e (validate_clock_skew e.clock_skew_ms)

  abbrev signed_with : Clearance → SigningKey crypto → SignedClearance
  signed_with c key = record {
    clearance = c;
    key_id = key.key_id;
    signature = sign_artifact (clearance_claims c key.key_id) key.private_key;
  }

  -- `signSiteClearance`: a schema that does not hold gives `none`.
  unfoldable pub sign_site_clearance : Clearance → SigningKey crypto → Option SignedClearance
  sign_site_clearance c key =
      let signed = signed_with c key in
      if not (clearance_schema c) then none else if signed_schema signed then some signed else none

  abbrev for_clearance : SignedClearance → Verified Claims → Verified SignedClearance
  for_clearance s (verified claims) = verified s
  for_clearance s (failure code reason) = failure code reason

  abbrev verify_parsed : SignedClearance → KeySet crypto → Expected → Verified SignedClearance
  verify_parsed s keys e =
      if signed_schema s
      then for_clearance s
          (verify_artifact (clearance_claims s.clearance s.key_id) s.signature keys e)
      else failure invalid_signature (text "The signed clearance is malformed")

  -- `verifySiteClearance`, whose expected session is always given. What has not the fields of a
  -- clearance and their types is `none`.
  abbrev pub verify_site_clearance :
      Option SignedClearance → KeySet crypto → Expected → Verified SignedClearance
  verify_site_clearance none keys e =
      failure invalid_signature (text "The signed clearance is malformed")
  verify_site_clearance (some s) keys e = verify_parsed s keys e
