-- ===== src/Auth/Scope.antt =====
-- The scopes of hosted-auth machines: backend/packages/contracts/src/hosted-auth-ceremony-scopes.ts,
-- with the realm of hosted-auth-boundaries.ts and the scope test of
-- hosted-auth-state-machine-core.ts. A zod schema is the test that its `parse` makes: an object
-- that passes is returned as it is, one that fails is thrown out.
pub mod Agreement
use powerotp.Prelude.{
  ℕ, ◌-◌, Bool, false, not, ◌&&◌, ◌||◌, Option, none, some, List, [], ◌∷◌, leb, ◌==◌, HasEq, eq_of,
  if◌then◌else◌, length, every, includes, Text, text, text_eq, nat_eq,
}

pub data Mode : Type 0 where
  powerotp_pii didit_pii : Mode

pub data Flow : Type 0 where
  signup signin : Flow

abbrev pub Mode-discrete : Discrete Mode
Mode-discrete = hlevel

abbrev pub Flow-discrete : Discrete Flow
Flow-discrete = hlevel

instance abbrev pub mode_eq : HasEq Mode
mode_eq = eq_of Mode-discrete

instance abbrev pub flow_eq : HasEq Flow
flow_eq = eq_of Flow-discrete

-- The values are kept as they come in, before a schema has seen them.
pub record Realm : Type 0 where
  pub identity_data_mode : Mode
  pub origin : Text
  pub rp_id : Text

-- The keys that every scope has, and the further keys of an extended one with their texts.
pub record Scope : Type 0 where
  pub project_id : Text
  pub realm : Realm
  pub flow : Flow
  pub extra : List (Text × Text)

-- `object[key]`
abbrev pub field : Text → List (Text × Text) → Option Text
field key [] = none
field key ((k, v) ∷ fields) = if k == key then some v else field key fields

-- `HostedAuthRealmSchema`: each custody mode has one origin and one RP id.
realm_matches : Mode → Text → Text → Bool
realm_matches powerotp_pii origin rp_id =
    origin == text "https://authx.powerotp.com" && rp_id == text "authx.powerotp.com"
realm_matches didit_pii origin rp_id =
    origin == text "https://authz.powerotp.com" && rp_id == text "authz.powerotp.com"

unfoldable pub realm_schema : Realm → Bool
unfolding realm_matches
realm_schema r = realm_matches r.identity_data_mode r.origin r.rp_id

-- `hostedAuthRealms`
abbrev pub powerotp_realm : Realm
powerotp_realm = record {
  identity_data_mode = powerotp_pii;
  origin = text "https://authx.powerotp.com";
  rp_id = text "authx.powerotp.com";
}

abbrev pub didit_realm : Realm
didit_realm = record {
  identity_data_mode = didit_pii;
  origin = text "https://authz.powerotp.com";
  rp_id = text "authz.powerotp.com";
}

-- The three common keys, and `n` further ones: the objects are strict.
base_schema : ℕ → Scope → Bool
unfolding realm_schema
base_schema n s =
    leb 16 (length s.project_id)
    && leb (length s.project_id) 200
    && realm_schema s.realm
    && length s.extra == n

unfoldable pub machine_scope_schema : Scope → Bool
unfolding base_schema
machine_scope_schema s = base_schema 0 s

is_one_of : List Text → Option Text → Bool
is_one_of names none = false
is_one_of names (some v) = includes names v

webauthn_purposes : List Text
webauthn_purposes =
    text "signup_discovery"
    ∷ text "signup_registration"
    ∷ text "signin_authentication"
    ∷ text "recovery_registration"
    ∷ text "credential_management_registration"
    ∷ []

-- The refinement of the two extended schemas below: some purposes belong to one flow.
purpose_fits_flow : List Text → List Text → Option Text → Flow → Bool
unfolding is_one_of
purpose_fits_flow signup_only signin_only purpose flow = not (
    is_one_of signup_only purpose && not (flow == signup)
    || is_one_of signin_only purpose && not (flow == signin))

unfoldable pub webauthn_scope_schema : Scope → Bool
unfolding base_schema is_one_of webauthn_purposes purpose_fits_flow
webauthn_scope_schema s =
    let purpose = field (text "purpose") s.extra in
    base_schema 1 s
    && is_one_of webauthn_purposes purpose
    && purpose_fits_flow (text "signup_discovery" ∷ text "signup_registration" ∷ [])
        (text "signin_authentication" ∷ text "recovery_registration" ∷ []) purpose s.flow

contact_purposes : List Text
contact_purposes =
    text "signup_contact_enrollment"
    ∷ text "signin_contact_authentication"
    ∷ text "recovery_contact_proof"
    ∷ text "cross_realm_link_contact_proof"
    ∷ []

unfoldable pub contact_scope_schema : Scope → Bool
unfolding base_schema is_one_of contact_purposes purpose_fits_flow
contact_scope_schema s =
    let purpose = field (text "providerPurpose") s.extra in
    base_schema 1 s
    && is_one_of contact_purposes purpose
    && purpose_fits_flow
        (text "signup_contact_enrollment" ∷ text "cross_realm_link_contact_proof" ∷ [])
        (text "signin_contact_authentication" ∷ text "recovery_contact_proof" ∷ []) purpose s.flow

unfoldable pub recovery_scope_schema : Scope → Bool
unfolding base_schema
recovery_scope_schema s = base_schema 0 s && s.flow == signin

between : ℕ → ℕ → ℕ → Bool
between lo hi c = leb lo c && leb c hi

base64url_char : ℕ → Bool
unfolding between
base64url_char c =
    between b'A' b'Z' c || between b'a' b'z' c || between b'0' b'9' c || c == b'_' || c == b'-'

-- `{n}` of the pattern's class, then one of the sixteen last characters, then the end.
base64url_body : ℕ → Text → Bool
unfolding base64url_char
base64url_body n [] = false
base64url_body n (c ∷ []) = n == 0 && includes (text "AEIMQUYcgkosw048") c
base64url_body n (c ∷ d ∷ rest) = leb 1 n && base64url_char c && base64url_body (n - 1) (d ∷ rest)

-- `HostedAuthProfileIdSchema` of hosted-auth-identifiers.ts: "hap_" and 43 characters.
profile_id_schema : Text → Bool
unfolding base64url_body
profile_id_schema [] = false
profile_id_schema (a ∷ []) = false
profile_id_schema (a ∷ b ∷ []) = false
profile_id_schema (a ∷ b ∷ c ∷ []) = false
profile_id_schema (a ∷ b ∷ c ∷ d ∷ body) =
    (a ∷ b ∷ c ∷ d ∷ []) == text "hap_" && base64url_body 42 body

is_profile_id : Option Text → Bool
unfolding profile_id_schema
is_profile_id none = false
is_profile_id (some v) = profile_id_schema v

unfoldable pub credential_grant_scope_schema : Scope → Bool
unfolding base_schema is_one_of is_profile_id
credential_grant_scope_schema s =
    base_schema 3 s
    && is_profile_id (field (text "authProfileId") s.extra)
    && is_one_of (text "add_credential" ∷ text "name_credential" ∷ text "revoke_credential" ∷ [])
        (field (text "grantScope") s.extra)
    && is_one_of (text "fresh_authentication" ∷ text "completed_recovery" ∷ [])
        (field (text "authorizedBy") s.extra)

unfoldable pub verification_scope_schema : Scope → Bool
unfolding base_schema is_one_of purpose_fits_flow
verification_scope_schema s =
    let purpose = field (text "providerPurpose") s.extra in
    base_schema 1 s
    && is_one_of
        (text "age_assurance"
          ∷ text "identity_kyc_assurance"
          ∷ text "liveness_and_face_enrollment"
          ∷ text "fresh_biometric_authentication"
          ∷ text "recovery_proof"
          ∷ [])
        purpose
    && purpose_fits_flow [] (text "fresh_biometric_authentication" ∷ text "recovery_proof" ∷ [])
        purpose s.flow

-- The right scope's value of a key, if it has the key, is the left one's.
same_value : Text → Option Text → Bool
same_value value none = false
same_value value (some v) = value == v

-- A further key of the left scope has the same text on the right.
same_field : List (Text × Text) → Text × Text → Bool
unfolding same_value
same_field right (key, value) = same_value value (field key right)

-- `sameScope`
unfoldable pub same_scope : Scope → Scope → Bool
unfolding same_field
same_scope left right =
    left.project_id == right.project_id
    && left.flow == right.flow
    && left.realm.identity_data_mode == right.realm.identity_data_mode
    && left.realm.origin == right.realm.origin
    && left.realm.rp_id == right.realm.rp_id
    && every (same_field right.extra) left.extra
    && length left.extra == length right.extra
