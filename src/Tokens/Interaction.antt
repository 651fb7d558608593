-- ===== src/Tokens/Interaction.antt =====
-- The tokens under which the response to a verification is submitted:
-- backend/packages/api/src/interaction-tokens.ts, with the schema of
-- backend/packages/contracts/src/verification.ts.
use powerotp.Prelude.{
  ℕ, ◌+◌, ◌≤◌, Bool, true, false, ◌&&◌, Option, none, some, ◌==◌, HasEq, eq_of, ==_refl, ==→≡,
  nat_eq, ltb, leb, if◌then◌else◌, Text, text_eq, length, ◌≡◌, refl, ap, subst, arith, Bool-cases,
  inl, inr, ◌∙◌,
}
use powerotp.Network.Address.{split}
use powerotp.Verification.State.{
  VerificationType, call_reachability, voice_code, sms_code, email_code, voice_challenge,
}
use powerotp.Tokens.{
  Platform, PlatformLaws, sign_payload, verify_signed_payload, verify_signed_payload-sign_payload,
  IsSigned, verify_signed_payload-IsSigned,
}

pub data Action : Type 0 where
  submit_code submit_challenge view_status : Action

abbrev Action-discrete : Discrete Action
Action-discrete = hlevel

instance abbrev pub action_eq : HasEq Action
action_eq = eq_of Action-discrete

-- `tokenActionForType`
abbrev pub token_action_for_type : VerificationType → Option Action
token_action_for_type voice_code = some submit_code
token_action_for_type sms_code = some submit_code
token_action_for_type email_code = some submit_code
token_action_for_type voice_challenge = some submit_challenge
token_action_for_type call_reachability = none

-- What the token is for.
pub record Scope : Type 0 where
  pub project_id : Text
  pub interaction_id : Text
  pub action : Action
  pub audience : Text

-- `InteractionTokenClaims`
pub record Claims : Type 0 where
  pub scope : Scope
  pub nonce : Text
  pub issued_at : ℕ
  pub expires_at : ℕ

-- `InteractionTokenClaimsSchema`, of the fields' lengths and ranges.
abbrev pub claims_schema : Claims → Bool
claims_schema c =
    leb 16 (length c.scope.project_id)
    && leb 16 (length c.scope.interaction_id)
    && leb 1 (length c.scope.audience)
    && leb 16 (length c.nonce)
    && ltb 0 c.expires_at

pub data TokenError : Type 0 where
  invalid_interaction_token expired_interaction_token : TokenError

pub data TokenResult : Type 0 where
  ok : Claims → TokenResult
  err : TokenError → TokenResult

abbrev pub default_lifetime_ms : ℕ
default_lifetime_ms = 300000

-- The claims of a token that is issued at `now`.
abbrev pub issued : Scope → Text → ℕ → ℕ → Claims
issued scope nonce now lifetime = record {
  scope = scope;
  nonce = nonce;
  issued_at = now;
  expires_at = now + lifetime;
}

abbrev pub is_scope : Scope → Scope → Bool
is_scope s expected =
    s.project_id == expected.project_id
    && s.interaction_id == expected.interaction_id
    && s.action == expected.action
    && s.audience == expected.audience

module _ (platform : Platform Claims) where
  -- `issueInteractionToken`
  unfoldable pub issue_interaction_token : Text → Scope → Text → ℕ → ℕ → Text
  issue_interaction_token secret scope nonce now lifetime =
      sign_payload platform (issued scope nonce now lifetime) secret

  abbrev check_scope : Claims → Scope → ℕ → TokenResult
  check_scope claims expected now =
      if ltb claims.expires_at now
      then err expired_interaction_token
      else if is_scope claims.scope expected
      then ok claims
      else err invalid_interaction_token

  abbrev check_claims : Option Claims → Scope → ℕ → TokenResult
  check_claims none expected now = err invalid_interaction_token
  check_claims (some claims) expected now =
      if claims_schema claims
      then check_scope claims expected now
      else err invalid_interaction_token

  -- `verifyInteractionToken`
  unfoldable pub verify_interaction_token : Text → Text → Scope → ℕ → TokenResult
  verify_interaction_token token secret expected now =
      check_claims (verify_signed_payload platform token secret) expected now

  -- What a token that verifies shows.
  abbrev pub Shows : Text → Text → Scope → ℕ → Claims → Type 0
  Shows token secret expected now claims =
      IsSigned platform (split 46 token) secret claims
      × (claims.scope ≡ expected)
      × (now ≤ claims.expires_at)
      × (claims_schema claims ≡ true)

and_both : (a b : Bool) → (a && b) ≡ true → (a ≡ true) × (b ≡ true)
and_both true b h = (refl, h)
and_both false b h = cc

claims_in : Claims → TokenResult → Claims
claims_in c (ok d) = d
claims_in c (err e) = c

ok_injective : (c d : Claims) → ok c ≡ ok d → c ≡ d
unfolding claims_in
ok_injective c d h = ap (claims_in c) h

is_scope_refl : (s : Scope) → is_scope s s ≡ true
is_scope_refl s =
    rw (==_refl s.project_id, ==_refl s.interaction_id, ==_refl s.action, ==_refl s.audience) refl

is_scope_sound : (s t : Scope) → is_scope s t ≡ true → s ≡ t
is_scope_sound s t h =
    let (front, audience) = and_both _ _ h in
    let (front', action) = and_both _ _ front in
    let (project, interaction) = and_both _ _ front' in
    let p = ==→≡ s.project_id t.project_id project in
    let q = ==→≡ s.interaction_id t.interaction_id interaction in
    let a = ==→≡ s.action t.action action in
    let u = ==→≡ s.audience t.audience audience in
    λ i. record { project_id = p i; interaction_id = q i; action = a i; audience = u i }

module _ (platform : Platform Claims) where
  check_scope_early :
      (claims : Claims) (now : ℕ)
      → now ≤ claims.expires_at
      → check_scope platform claims claims.scope now ≡ ok claims
  check_scope_early claims now early =
      let late : ltb claims.expires_at now ≡ false = ground arith in
      rw (late, is_scope_refl claims.scope) refl

  check_claims_ok :
      (expected : Scope) (now : ℕ) (claims : Claims) (o : Option Claims)
      → check_claims platform o expected now ≡ ok claims
      → (o ≡ some claims)
        × (claims.scope ≡ expected)
        × (now ≤ claims.expires_at)
        × (claims_schema claims ≡ true)
  check_claims_ok expected now claims none h = cc
  check_claims_ok expected now claims (some c) h = elim (Bool-cases (claims_schema c)) [
    | inr bad ↦ cc (rw bad at h)
    | inl valid ↦ elim (Bool-cases (ltb c.expires_at now)) [
      | inl late ↦ cc (rw (valid, check_scope, late) at h)
      | inr early ↦ elim (Bool-cases (is_scope c.scope expected)) [
        | inr other ↦ cc (rw (valid, check_scope, early, other) at h)
        | inl same ↦
            let e : c ≡ claims =
              ok_injective c claims (rw (valid, check_scope, early, same) at h) in
            (
              ap (λ d. some d) e,
              subst (λ d. d.scope ≡ expected) e (is_scope_sound c.scope expected same),
              subst (λ d. now ≤ d.expires_at) e (ground (arith, early)),
              subst (λ d. claims_schema d ≡ true) e valid,
            )
      ]
    ]
  ]

-- An issued token verifies for its own scope up to its expiry, and gives its claims back, if they
-- pass the schema.
pub verify-issue_interaction_token :
    (platform : Platform Claims) (secret : Text) (scope : Scope) (nonce : Text)
    (issued_at lifetime now : ℕ)
    → PlatformLaws platform
    → claims_schema (issued scope nonce issued_at lifetime) ≡ true
    → now ≤ issued_at + lifetime
    → verify_interaction_token platform
        (issue_interaction_token platform secret scope nonce issued_at lifetime)
        secret
        scope
        now
      ≡ ok (issued scope nonce issued_at lifetime)
unfolding verify_interaction_token issue_interaction_token
verify-issue_interaction_token platform secret scope nonce issued_at lifetime now laws valid early =
    let claims = issued scope nonce issued_at lifetime in
    ap (λ c. check_claims platform c scope now)
      (verify_signed_payload-sign_payload platform laws claims secret)
    ∙ rw valid (check_scope_early platform claims now early)

-- A token that verifies is signed with the secret over the payload that its claims are read from;
-- the claims have exactly the scope that was asked for, have not expired, and pass the schema.
pub verify_interaction_token-Shows :
    (platform : Platform Claims) (token secret : Text) (expected : Scope) (now : ℕ)
    (claims : Claims)
    → verify_interaction_token platform token secret expected now ≡ ok claims
    → Shows platform token secret expected now claims
unfolding verify_interaction_token
verify_interaction_token-Shows platform token secret expected now claims h =
    let (found, scope, early, valid) =
      check_claims_ok platform expected now claims (verify_signed_payload platform token secret)
        h in
    (verify_signed_payload-IsSigned platform token secret claims found, scope, early, valid)
