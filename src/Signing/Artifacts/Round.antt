-- ===== src/Signing/Artifacts/Round.antt =====
-- A clearance that is signed under a loaded key ring verifies under it:
-- backend/packages/botblocker-signing/src.
use mathlib.Core.Bool.{false≢true}
use mathlib.Core.Option.{some-injective}
use powerotp.Prelude.{
  under_test, ℕ, ◌+◌, ◌≤◌, ◌<◌, Bool, true, false, not, Option, none, some, List, ==_refl, nat_eq,
  ltb, leb, if◌then◌else◌, includes, length, text_eq, ◌≡◌, refl, ap, sym, ◌∙◌, subst, arith,
}
use powerotp.Signing.Keys.{
  Crypto, KeyRing, resolved, max_clock_skew_ms, and_then, parse_key_id, import_private_key,
  previous_of, or_nothing, or_zero, parse_key_ids, resolve_verification_key, validate_clock_skew,
  KeyResult, active_revoked, ok, err, KeyConfiguration, load_key_ring,
}
use powerotp.Signing.Artifacts.{
  Claims, Clearance, SignedClearance, Expected, verified, clearance_claims, signing_bytes,
  signed_schema, clearance_schema, verify_artifact, sign_site_clearance, verify_site_clearance,
  signed_with, check_signature, sign_artifact, for_clearance,
}

-- What is signed under a private key verifies under its public key; a signature has 64 bytes; and
-- base64url gives back what it was given.
pub record CryptoLaws (crypto : Crypto) : Type 0 where
  pub verify-sign :
      (b : List ℕ) (k : crypto.PrivateKey)
      → crypto.verify b (crypto.public_of k) (crypto.sign b k) ≡ some true
  pub length-sign : (b : List ℕ) (k : crypto.PrivateKey) → length (crypto.sign b k) ≡ 64
  pub of_base64url-to_base64url : (s : List ℕ) → crypto.of_base64url (crypto.to_base64url s) ≡ s

-- The active key of a ring is its signing key, and not revoked, and its tolerance is within bounds.
abbrev IsUsable : (crypto : Crypto) → KeyRing crypto → Type 0
IsUsable crypto ring =
    (ring.verification_keys.active_id ≡ ring.active_signing_key.key_id)
    × (ring.verification_keys.active_key ≡ crypto.public_of ring.active_signing_key.private_key)
    × (includes ring.verification_keys.revoked_key_ids ring.active_signing_key.key_id ≡ false)
    × (leb ring.clock_skew_ms max_clock_skew_ms ≡ true)

-- What holds whenever a result is reached holds of the result.
Holds {ℓ κ} : {A : Type ℓ} → (A → Type κ) → KeyResult A → Type κ
Holds P (ok a) = P a
Holds P (err e) = Unit

bound {ℓ κ ι} :
    {A : Type ℓ} {B : Type κ} (P : B → Type ι) (r : KeyResult A) (f : A → KeyResult B)
    → ((a : A) → r ≡ ok a → Holds P (f a))
    → Holds P (and_then r f)
unfolding Holds
bound P (ok a) f h = h a refl
bound P (err e) f h = tt

abbrev IsSmall : ℕ → Type 0
IsSmall skew = leb skew max_clock_skew_ms ≡ true

validate_clock_skew-IsSmall : (o : Option ℕ) → Holds IsSmall (validate_clock_skew o)
unfolding Holds
validate_clock_skew-IsSmall o =
    under_test (Holds IsSmall) (leb (or_zero o) max_clock_skew_ms) _ _ (λ small. small) λ big. tt

load_key_ring-IsUsable :
    (crypto : Crypto) (c : KeyConfiguration) → Holds (IsUsable crypto) (load_key_ring crypto c)
unfolding load_key_ring Holds
load_key_ring-IsUsable crypto c =
    bound (IsUsable crypto) (parse_key_id c.active_key_id) _ λ active _.
      bound (IsUsable crypto) (validate_clock_skew c.clock_skew_ms) _ λ skew small.
        bound (IsUsable crypto) (import_private_key crypto c.active_private_key) _ λ key _.
          bound (IsUsable crypto) (parse_key_ids (or_nothing crypto c.revoked_key_ids)) _
            λ revoked _.
              under_test (Holds (IsUsable crypto)) (includes revoked active) (err active_revoked) _
                (λ bad. tt)
                λ clear.
                  bound (IsUsable crypto)
                    (previous_of crypto active c.previous_key_id c.previous_public_key
                      c.previous_verify_until)
                    _
                    λ previous _. (
                      refl,
                      refl,
                      clear,
                      subst (Holds IsSmall) small (validate_clock_skew-IsSmall c.clock_skew_ms),
                    )

-- The expectations that a clearance is for, at a time.
abbrev pub expected_of : Clearance → ℕ → ℕ → Expected
expected_of c skew now = record {
  audience = c.audience;
  site_id = c.site_id;
  session_id = some c.gate_session_id;
  nonce = some c.nonce;
  now = now;
  clock_skew_ms = some skew;
}

module _ (crypto : Crypto) (laws : CryptoLaws crypto) where
  active_resolves :
      (ring : KeyRing crypto) (now : ℕ)
      → IsUsable crypto ring
      → resolve_verification_key crypto ring.verification_keys ring.active_signing_key.key_id now
        ≡ resolved (crypto.public_of ring.active_signing_key.private_key)
  active_resolves ring now (id, key, clear, small) =
      rw (clear, id, ==_refl ring.active_signing_key.key_id, key) refl

  signature_valid :
      (claims : Claims) (key : crypto.PrivateKey)
      → check_signature crypto claims (sign_artifact crypto claims key) (crypto.public_of key)
        ≡ verified claims
  signature_valid claims key =
      let bytes = crypto.sign (signing_bytes crypto claims) key in
      rw
        (
          laws.of_base64url-to_base64url bytes,
          laws.length-sign (signing_bytes crypto claims) key,
          laws.verify-sign (signing_bytes crypto claims) key,
        )
        refl

  artifact_valid :
      (ring : KeyRing crypto) (c : Clearance) (now : ℕ)
      → IsUsable crypto ring
      → c.issued_at ≤ now + ring.clock_skew_ms
      → now < c.expires_at + ring.clock_skew_ms
      → let claims = clearance_claims c ring.active_signing_key.key_id in
        verify_artifact crypto claims
          (sign_artifact crypto claims ring.active_signing_key.private_key)
          ring.verification_keys
          (expected_of c ring.clock_skew_ms now)
        ≡ verified claims
  unfolding verify_artifact
  artifact_valid ring c now usable from until =
      let claims = clearance_claims c ring.active_signing_key.key_id in
      let (id, key, clear, small) = usable in
      let fresh : leb (c.expires_at + ring.clock_skew_ms) now ≡ false = ground arith in
      let issued : ltb (now + ring.clock_skew_ms) c.issued_at ≡ false = ground arith in
      rw
        (
          small,
          ==_refl c.audience,
          ==_refl c.site_id,
          ==_refl c.gate_session_id,
          ==_refl c.nonce,
          fresh,
          issued,
          active_resolves ring now usable,
        )
        (signature_valid claims ring.active_signing_key.private_key)

-- What is signed passed the schemas.
signed_made :
    {A : Type 0} (a b : Bool) (m s : A)
    → (if not a then none else if b then some m else none) ≡ some s
    → (b ≡ true) × (m ≡ s)
signed_made true true m s h = (refl, some-injective m s h)
signed_made true false m s h = cc
signed_made false b m s h = cc

-- A clearance that is signed under the active key of a ring that was loaded verifies with the keys of
-- the ring, for what it was issued for, from its issue to its expiry within the ring's tolerance of
-- clocks.
pub verify-sign_site_clearance :
    (crypto : Crypto) (configuration : KeyConfiguration) (ring : KeyRing crypto) (c : Clearance)
    (s : SignedClearance) (now : ℕ)
    → CryptoLaws crypto
    → load_key_ring crypto configuration ≡ ok ring
    → sign_site_clearance crypto c ring.active_signing_key ≡ some s
    → c.issued_at ≤ now + ring.clock_skew_ms
    → now < c.expires_at + ring.clock_skew_ms
    → verify_site_clearance crypto
        (some s)
        ring.verification_keys
        (expected_of c ring.clock_skew_ms now)
      ≡ verified s
unfolding sign_site_clearance Holds
verify-sign_site_clearance crypto configuration ring c s now laws loaded signed from until =
    let usable : IsUsable crypto ring =
      subst (Holds (IsUsable crypto)) loaded (load_key_ring-IsUsable crypto configuration) in
    let made = signed_with crypto c ring.active_signing_key in
    let (whole, same) = signed_made (clearance_schema c) (signed_schema made) made s signed in
    let valid = artifact_valid crypto laws ring c now usable from until in
    let e = expected_of c ring.clock_skew_ms now in
    let keys = ring.verification_keys in
    subst (λ x. verify_site_clearance crypto (some x) keys e ≡ verified x) same
      (under_test (λ x. x ≡ verified made) (signed_schema made) _ _
        (λ _. ap (for_clearance crypto made) valid) λ bad. absurd (false≢true (sym bad ∙ whole)))
