-- ===== src/Tokens/Visitor.antt =====
-- The session tokens of visitors: backend/packages/api/src/botblocker-visitor-token.ts.
use powerotp.Prelude.{
  strip, ℕ, ◌+◌, ◌≤◌, ◌<◌, Bool, true, false, not, ◌&&◌, ◌||◌, Option, none, some, [], ◌∷◌, ◌++◌,
  ◌==◌, ==_refl, nat_eq, ltb, leb, if◌then◌else◌, Text, text_eq, text, length, every, within,
  is_space, trim_start, ◌≡◌, refl, ap, arith, Bool-cases, inl, inr, ◌∙◌,
}
use powerotp.Tokens.{
  Platform, PlatformLaws, is_text, sign_payload, verify_signed_payload,
  verify_signed_payload-sign_payload, spaceless-sign_payload,
}

pub record Scope : Type 0 where
  pub project_id : Text
  pub site_id : Text
  pub gate_session_id : Text
  pub audience : Text

-- `BotBlockerVisitorSessionClaims`
pub record Claims : Type 0 where
  pub version : ℕ
  pub token_id : Text
  pub scope : Scope
  pub nonce : Text
  pub issued_at : ℕ
  pub expires_at : ℕ

-- `BotBlockerVisitorSessionClaimsSchema`, of the values, lengths and ranges.
abbrev pub claims_schema : Claims → Bool
claims_schema c =
    c.version == 1
    && within 16 128 (length c.token_id)
    && within 16 128 (length c.scope.project_id)
    && within 16 64 (length c.scope.site_id)
    && within 16 128 (length c.scope.gate_session_id)
    && within 1 2048 (length c.scope.audience)
    && within 16 256 (length c.nonce)
    && ltb 0 c.issued_at
    && ltb 0 c.expires_at

-- What is thrown: the refusals of BotBlockerRuntimeError, and the schema's own error.
pub data VisitorError : Type 0 where
  authentication_required dependency_unavailable invalid_claims : VisitorError

pub data VisitorResult {ℓ} (A : Type ℓ) : Type ℓ where
  ok : A → VisitorResult A
  err : VisitorError → VisitorResult A

abbrev pub visitor_token_lifetime_ms : ℕ
visitor_token_lifetime_ms = 1800000

-- `BotBlockerVisitorSessionClaimsSchema.parse({ … })`, with the secrets that are drawn.
abbrev pub issued : Scope → Text → Text → ℕ → Claims
issued scope token_secret nonce now = record {
  version = 1;
  token_id = text "bvt_" ++ token_secret;
  scope = scope;
  nonce = nonce;
  issued_at = now;
  expires_at = now + visitor_token_lifetime_ms;
}

abbrev starts_space : Text → Bool
starts_space [] = false
starts_space (c ∷ s) = is_space c

abbrev credential : Option Text → Option Text
credential none = none
credential (some rest) =
    let token = trim_start rest in
    if starts_space rest && is_text token && every (λ c. not (is_space c)) token
    then some token
    else none

-- `/^Bearer\s+(\S+)$/`
abbrev pub bearer_of : Option Text → Option Text
bearer_of none = none
bearer_of (some header) = credential (strip (text "Bearer") header)

abbrev pub is_scope : Scope → Scope → Bool
is_scope s expected =
    s.project_id == expected.project_id
    && s.site_id == expected.site_id
    && s.gate_session_id == expected.gate_session_id
    && s.audience == expected.audience

module _ (platform : Platform Claims) where
  abbrev sign_valid : Bool → Claims → Text → VisitorResult (Text × Claims)
  sign_valid valid claims [] = if valid then err dependency_unavailable else err invalid_claims
  sign_valid valid claims (c ∷ secret) =
      if valid then ok (sign_payload platform claims (c ∷ secret), claims) else err invalid_claims

  abbrev secret_of : Option Text → Text
  secret_of none = []
  secret_of (some secret) = secret

  -- `issue`: the token and its claims. An empty secret is as none.
  unfoldable pub issue : Option Text → Scope → Text → Text → ℕ → VisitorResult (Text × Claims)
  issue secret scope token_secret nonce now =
      let claims = issued scope token_secret nonce now in
      sign_valid (claims_schema claims) claims (secret_of secret)

  abbrev check_scope : Claims → Scope → ℕ → VisitorResult Claims
  check_scope claims expected now =
      if leb claims.expires_at now
        || ltb now claims.issued_at
        || not (is_scope claims.scope expected)
      then err authentication_required
      else ok claims

  abbrev check_claims : Option Claims → Scope → ℕ → VisitorResult Claims
  check_claims none expected now = err authentication_required
  check_claims (some claims) expected now =
      if claims_schema claims then check_scope claims expected now else err authentication_required

  -- A missing secret throws where everything is caught.
  abbrev verify_under : Text → Text → Scope → ℕ → VisitorResult Claims
  verify_under token [] expected now = err authentication_required
  verify_under token (c ∷ secret) expected now =
      check_claims (verify_signed_payload platform token (c ∷ secret)) expected now

  abbrev verify_bearer : Option Text → Text → Scope → ℕ → VisitorResult Claims
  verify_bearer none secret expected now = err authentication_required
  verify_bearer (some token) secret expected now = verify_under token secret expected now

  -- `verify`
  unfoldable pub verify : Option Text → Option Text → Scope → ℕ → VisitorResult Claims
  verify secret header expected now =
      verify_bearer (bearer_of header) (secret_of secret) expected now

is_scope_refl : (s : Scope) → is_scope s s ≡ true
is_scope_refl s =
    rw (==_refl s.project_id, ==_refl s.site_id, ==_refl s.gate_session_id, ==_refl s.audience) refl

trim_start_spaceless : (s : Text) → every (λ c. not (is_space c)) s ≡ true → trim_start s ≡ s
trim_start_spaceless [] h = refl
trim_start_spaceless (c ∷ s) h = elim (Bool-cases (is_space c)) [
  | inl space ↦ cc (rw space at h)
  | inr other ↦ rw other refl
]

bearer_of-token :
    (token : Text)
    → every (λ c. not (is_space c)) token ≡ true
    → is_text token ≡ true
    → bearer_of (some (text "Bearer " ++ token)) ≡ some token
bearer_of-token token spaceless given =
    rw (trim_start_spaceless token spaceless, given, spaceless) refl

is_text-sign_payload :
    (platform : Platform Claims) (claims : Claims) (secret : Text)
    → is_text (sign_payload platform claims secret) ≡ true
unfolding sign_payload
is_text-sign_payload platform claims secret = front (platform.encode (platform.to_json claims)) _
  where
    front : (s t : Text) → is_text (s ++ (46 ∷ t)) ≡ true
    front [] t = refl
    front (c ∷ s) t = refl

-- A session token is issued if its claims pass the schema. It verifies, under the scheme `Bearer`
-- and for its own scope, from the moment of its issue until its lifetime has passed.
pub verify-issue :
    (platform : Platform Claims) (c : ℕ) (secret : Text) (scope : Scope) (token_secret nonce : Text)
    (issued_at now : ℕ)
    → PlatformLaws platform
    → claims_schema (issued scope token_secret nonce issued_at) ≡ true
    → issued_at ≤ now
    → now < issued_at + visitor_token_lifetime_ms
    → let claims = issued scope token_secret nonce issued_at in
      let token = sign_payload platform claims (c ∷ secret) in
      (issue platform (some (c ∷ secret)) scope token_secret nonce issued_at ≡ ok (token, claims))
      × (verify platform (some (c ∷ secret)) (some (text "Bearer " ++ token)) scope now ≡ ok claims)
unfolding verify issue
verify-issue platform c secret scope token_secret nonce issued_at now laws valid from until =
    let claims = issued scope token_secret nonce issued_at in
    let token = sign_payload platform claims (c ∷ secret) in
    let bearer =
      bearer_of-token token (spaceless-sign_payload platform laws claims (c ∷ secret))
        (is_text-sign_payload platform claims (c ∷ secret)) in
    let found = verify_signed_payload-sign_payload platform laws claims (c ∷ secret) in
    (
      rw valid refl,
      ap (λ b. verify_bearer platform b (c ∷ secret) scope now) bearer
          ∙ ap (λ o. check_claims platform o scope now) found
          ∙ rw valid (in_time claims now from until),
    )
  where
    in_time :
        (claims : Claims) (now : ℕ)
        → claims.issued_at ≤ now
        → now < claims.expires_at
        → check_scope platform claims claims.scope now ≡ ok claims
    in_time claims now from until =
        let early : leb claims.expires_at now ≡ false = ground arith in
        let late : ltb now claims.issued_at ≡ false = ground arith in
        rw (early, late, is_scope_refl claims.scope) refl
