-- ===== src/Signing/Artifacts/Cleared.antt =====
-- What a clearance that verifies shows, and that a signed one verifies:
-- backend/packages/botblocker-signing/src/index.ts.
use powerotp.Prelude.{
  ℕ, ◌+◌, ◌≤◌, ◌<◌, Bool, true, false, not, Option, none, some, ◌==◌, ==→≡, nat_eq, ltb, leb,
  if◌then◌else◌, length, Text, text, text_eq, ◌≡◌, refl, ap, sym, ◌∙◌, subst, arith, Bool-cases,
  inl, inr,
}
use powerotp.Signing.Keys.{
  Crypto, KeySet, Resolution, resolved, is_revoked, is_retired, is_untrusted,
  resolve_verification_key, validate_clock_skew, KeyResult, ok, err,
}
use powerotp.Signing.Artifacts.{
  Claims, SignedClearance, Expected, Verified, verified, failure, ErrorCode, invalid_signature,
  meets, clearance_claims, signing_bytes, signed_schema, verify_artifact, verify_site_clearance,
  check_claims, with_key, check_signature, signature_checked, for_clearance,
}

-- The signature is one of these claims under a key that is trusted at the time, and the claims hold
-- at the time within the tolerance of clocks, for what was expected.
abbrev pub Shows : (crypto : Crypto) → Claims → Text → KeySet crypto → Expected → Type 0
Shows crypto claims signature keys e =
    (skew : ℕ) × (key : crypto.PublicKey) × (validate_clock_skew e.clock_skew_ms ≡ ok skew)
    × (claims.audience ≡ e.audience)
    × (claims.site_id ≡ e.site_id)
    × (meets e.session_id claims.session_id ≡ true)
    × (meets e.nonce (some claims.nonce) ≡ true)
    × (e.now < claims.expires_at + skew)
    × (claims.issued_at ≤ e.now + skew)
    × (resolve_verification_key crypto keys claims.key_id e.now ≡ resolved key)
    × (crypto.verify (signing_bytes crypto claims) key (crypto.of_base64url signature) ≡ some true)

-- A check that was passed.
passed {ℓ} :
    {A : Type ℓ} (b : Bool) (code : ErrorCode) (reason : Text) (x : Verified A) (a : A)
    → (if b then failure code reason else x) ≡ verified a
    → (b ≡ false) × (x ≡ verified a)
passed true code reason x a h = cc
passed false code reason x a h = (refl, h)

negated : (b : Bool) → not b ≡ false → b ≡ true
negated true h = refl
negated false h = cc

module _ (crypto : Crypto) (claims : Claims) (signature : Text) where
  signed_by :
      (key : crypto.PublicKey) (d : Claims)
      → check_signature crypto claims signature key ≡ verified d
      → crypto.verify (signing_bytes crypto claims) key (crypto.of_base64url signature) ≡ some true
  signed_by key d h =
      let bytes = crypto.of_base64url signature in
      let (long, rest) = passed (not (length bytes == 64)) _ _ _ d h in
      checked (crypto.verify (signing_bytes crypto claims) key bytes) rest
    where
      checked : (o : Option Bool) → signature_checked crypto claims o ≡ verified d → o ≡ some true
      checked none h = cc
      checked (some true) h = refl
      checked (some false) h = cc

  key_of :
      (r : Resolution crypto) (d : Claims)
      → with_key crypto claims signature r ≡ verified d
      → (key : crypto.PublicKey) × (r ≡ resolved key)
        × (crypto.verify (signing_bytes crypto claims) key (crypto.of_base64url signature)
            ≡ some true)
  key_of (resolved key) d h = (key, refl, signed_by key d h)
  key_of is_revoked d h = cc
  key_of is_retired d h = cc
  key_of is_untrusted d h = cc

  claims_shown :
      (keys : KeySet crypto) (e : Expected) (d : Claims) (r : KeyResult ℕ)
      → validate_clock_skew e.clock_skew_ms ≡ r
      → check_claims crypto claims signature keys e r ≡ verified d
      → Shows crypto claims signature keys e
  claims_shown keys e d (err _) given h = cc
  claims_shown keys e d (ok skew) given h =
      let (audience, h1) = passed (not (claims.audience == e.audience)) _ _ _ d h in
      let (site, h2) = passed (not (claims.site_id == e.site_id)) _ _ _ d h1 in
      let (session, h3) = passed (not (meets e.session_id claims.session_id)) _ _ _ d h2 in
      let (nonce, h4) = passed (not (meets e.nonce (some claims.nonce))) _ _ _ d h3 in
      let (fresh, h5) = passed (leb (claims.expires_at + skew) e.now) _ _ _ d h4 in
      let (issued, h6) = passed (ltb (e.now + skew) claims.issued_at) _ _ _ d h5 in
      let (key, trusted, signed) =
        key_of (resolve_verification_key crypto keys claims.key_id e.now) d h6 in
      (
        skew,
        key,
        given,
        ==→≡ claims.audience e.audience (negated _ audience),
        ==→≡ claims.site_id e.site_id (negated _ site),
        negated _ session,
        negated _ nonce,
        ground (arith, fresh),
        ground (arith, issued),
        trusted,
        signed,
      )

value_in {ℓ} : {A : Type ℓ} → A → Verified A → A
value_in a (verified b) = b
value_in a (failure code reason) = a

verified_injective {ℓ} : {A : Type ℓ} (a b : A) → verified a ≡ verified b → a ≡ b
unfolding value_in
verified_injective a b h = ap (value_in a) h

cleared :
    (crypto : Crypto) (s c : SignedClearance) (keys : KeySet crypto) (e : Expected)
    (r : Verified Claims)
    → for_clearance crypto s r ≡ verified c
    → (s ≡ c) × ((claims : Claims) × (r ≡ verified claims))
cleared crypto s c keys e (verified claims) h = (verified_injective s c h, (claims, refl))
cleared crypto s c keys e (failure code reason) h = cc

-- A clearance that verifies is the one that was given: it passes the schema, is for the audience, the
-- site and the session that were expected, and for the nonce if one was, holds at the time within the
-- tolerance of clocks, and its claims are signed under a key that is the active one, or the one before
-- up to its deadline, and not revoked.
pub verify_site_clearance-Shows :
    (crypto : Crypto) (parsed : Option SignedClearance) (c : SignedClearance) (keys : KeySet crypto)
    (e : Expected)
    → verify_site_clearance crypto parsed keys e ≡ verified c
    → (parsed ≡ some c)
      × (signed_schema c ≡ true)
      × Shows crypto (clearance_claims c.clearance c.key_id) c.signature keys e
unfolding verify_artifact
verify_site_clearance-Shows crypto none c keys e h = cc
verify_site_clearance-Shows crypto (some s) c keys e h =
    let claims = clearance_claims s.clearance s.key_id in
    elim (Bool-cases (signed_schema s)) [
      | inr bad ↦ cc (rw bad at h)
      | inl good ↦
          let checked = verify_artifact crypto claims s.signature keys e in
          let found : for_clearance crypto s checked ≡ verified c =
            sym (ap (λ b. if b then for_clearance crypto s checked else malformed) good) ∙ h in
          let (same, (d, valid)) = cleared crypto s c keys e checked found in
          let shown = claims_shown crypto claims s.signature keys e d _ refl valid in
          (
            ap (λ x. some x) same,
            subst (λ x. signed_schema x ≡ true) same good,
            subst (λ x. Shows crypto (clearance_claims x.clearance x.key_id) x.signature keys e)
                same shown,
          )
    ]
  where
    malformed : Verified SignedClearance
    malformed = failure invalid_signature (text "The signed clearance is malformed")
