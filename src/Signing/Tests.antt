-- ===== src/Signing/Tests.antt =====
-- A clearance that is signed and verified, and a nonce that is used twice, with a toy for the
-- cryptography.
use powerotp.Prelude.{
  ℕ, ◌+◌, ◌-◌, true, none, some, List, [], ◌∷◌, ◌++◌, ◌==◌, ==_refl, text_eq, Text, text, ◌≡◌, refl,
  ap, ap₂, arith,
}
use powerotp.Signing.Canonical.{Json, null, number, object, field, no_fields, canonicalize}
use powerotp.Signing.Canonical.Keyed.{Alike, objects, swapped, canonicalize-Alike}
use powerotp.Signing.Keys.{Crypto, KeyConfiguration, KeyRing, ok, load_key_ring, ring_of}
use powerotp.Signing.Artifacts.{
  Clearance, SignedClearance, verified, signed_schema, clearance_claims, signing_bytes,
  sign_site_clearance, verify_artifact, verify_site_clearance,
}
use powerotp.Signing.Artifacts.Cleared.{Shows, verify_site_clearance-Shows}
use powerotp.Signing.Artifacts.Distinct.{JsonLaws, claims_json_injective}
use powerotp.Signing.Artifacts.Round.{CryptoLaws, expected_of, verify-sign_site_clearance}

abbrev eight : ℕ → List ℕ → List ℕ
eight n s = n ∷ n ∷ n ∷ n ∷ n ∷ n ∷ n ∷ n ∷ s

abbrev toy_sign : List ℕ → ℕ → List ℕ
toy_sign b k = eight k (eight 0 (eight 0 (eight 0 (eight 0 (eight 0 (eight 0 (eight 0 [])))))))

abbrev shift : List ℕ → Text
shift [] = []
shift (n ∷ s) = (n + 65) ∷ shift s

abbrev shift_back : Text → List ℕ
shift_back [] = []
shift_back (n ∷ s) = (n - 65) ∷ shift_back s

abbrev pad : Text → Text
pad s = eight 65 (eight 65 (65 ∷ 65 ∷ 65 ∷ 65 ∷ 65 ∷ 65 ∷ s))

abbrev unpad : Text → Text
unpad (_ ∷ _ ∷ _ ∷ _ ∷ _ ∷ _ ∷ _ ∷ _ ∷ _ ∷ _ ∷ _ ∷ _ ∷ _ ∷ _ ∷ _ ∷ _ ∷ _ ∷ _ ∷ _ ∷ _ ∷ _ ∷ _ ∷ s) =
    s
unpad s = s

abbrev toy : Crypto
toy = record {
  PrivateKey = ℕ;
  PublicKey = ℕ;
  import_pkcs8 = λ _. some 1;
  import_spki = λ _. some 1;
  is_ed25519_private = λ _. true;
  is_ed25519_public = λ _. true;
  public_of = λ k. k;
  sign = toy_sign;
  verify = λ b k s. some (s == toy_sign b k);
  of_base64 = λ s. s;
  to_base64url = λ s. pad (shift s);
  of_base64url = λ s. shift_back (unpad s);
  utf8 = λ s. s;
  quote = λ s. 34 ∷ (s ++ text "\"");
  print = λ n. n ∷ [];
}

shift_back-shift : (s : List ℕ) → shift_back (shift s) ≡ s
shift_back-shift [] = refl
shift_back-shift (n ∷ s) = ap₂ (λ m t. m ∷ t) (omega arith) (shift_back-shift s)

toy_laws : CryptoLaws toy
toy_laws = record {
  verify-sign = λ b k. ap (λ x. some x) (==_refl (toy_sign b k));
  length-sign = λ b k. refl;
  of_base64url-to_base64url = λ s. shift_back-shift s;
}

abbrev configuration : KeyConfiguration
configuration = record {
  active_key_id = text "key-2";
  active_private_key = text "AAAA";
  previous_key_id = none;
  previous_public_key = none;
  previous_verify_until = none;
  revoked_key_ids = some (text "key-1" ∷ []);
  clock_skew_ms = some 5;
}

abbrev ring : KeyRing toy
ring = ring_of toy (text "key-2") 5 1 (text "key-1" ∷ []) none

ring_loaded : load_key_ring toy configuration ≡ ok ring
unfolding load_key_ring
ring_loaded = refl

abbrev clearance : Clearance
clearance = record {
  site_id = text "site-00000000001";
  gate_session_id = text "session-00000001";
  audience = text "app";
  nonce = text "nonce-0000000001";
  issued_at = 100;
  expires_at = 200;
}

abbrev signed : SignedClearance
signed = record {
  clearance = clearance;
  key_id = text "key-2";
  signature = pad (shift (toy_sign [] 1));
}

clearance_signed : sign_site_clearance toy clearance ring.active_signing_key ≡ some signed
unfolding sign_site_clearance
clearance_signed = refl

verify-sign_site_clearance_example :
    verify_site_clearance toy (some signed) ring.verification_keys (expected_of clearance 5 204)
    ≡ verified signed
verify-sign_site_clearance_example =
    verify-sign_site_clearance toy configuration ring clearance signed 204 toy_laws ring_loaded
      clearance_signed (omega arith) (omega arith)

signed_verifies :
    verify_site_clearance toy (some signed) ring.verification_keys (expected_of clearance 5 150)
    ≡ verified signed
unfolding verify_artifact signing_bytes
signed_verifies = refl

verify_site_clearance-Shows_example :
    (some signed ≡ some signed)
    × (signed_schema signed ≡ true)
    × Shows toy
        (clearance_claims clearance (text "key-2"))
        signed.signature
        ring.verification_keys
        (expected_of clearance 5 150)
verify_site_clearance-Shows_example =
    verify_site_clearance-Shows toy (some signed) signed ring.verification_keys
      (expected_of clearance 5 150) signed_verifies

abbrev pair_of : Text → Text → Json
pair_of a b = object (field a (number 1) (field b null no_fields))

abbrev pair_swapped : Json
pair_swapped = object (field (text "b") null (field (text "a") (number 1) no_fields))

pairs-Alike : Alike (pair_of (text "a") (text "b")) pair_swapped
pairs-Alike = objects _ _ (swapped (text "a") (text "b") (number 1) null no_fields refl)

canonicalize-Alike_example :
    canonicalize (λ s. s) (λ n. n ∷ []) (pair_of (text "a") (text "b"))
    ≡ canonicalize (λ s. s) (λ n. n ∷ []) pair_swapped
canonicalize-Alike_example =
    canonicalize-Alike (λ s. s) (λ n. n ∷ []) (pair_of (text "a") (text "b")) pair_swapped
      pairs-Alike

-- A text whose end can be told, for that of a string.
abbrev marked : Text → Text
marked [] = 0 ∷ []
marked (c ∷ s) = 1 ∷ c ∷ marked s

abbrev second : Text → Text
second (_ ∷ c ∷ s) = s
second s = []

abbrev first : Text → ℕ
first (_ ∷ c ∷ s) = c
first s = 0

abbrev head_of : Text → ℕ
head_of [] = 0
head_of (c ∷ s) = c

abbrev rest_of : Text → Text
rest_of [] = []
rest_of (c ∷ s) = s

marked_apart : (s t r u : Text) → marked s ++ r ≡ marked t ++ u → (s ≡ t) × (r ≡ u)
marked_apart [] [] r u h = (refl, ap rest_of h)
marked_apart [] (d ∷ t) r u h = absurd (omega (arith, ap head_of h))
marked_apart (c ∷ s) [] r u h = absurd (omega (arith, ap head_of h))
marked_apart (c ∷ s) (d ∷ t) r u h =
    let (same, rest) = marked_apart s t r u (ap second h) in
    (ap₂ (λ x xs. x ∷ xs) (ap first h) same, rest)

one_apart : (m n : ℕ) (r u : Text) → (m ∷ []) ++ (44 ∷ r) ≡ (n ∷ []) ++ (44 ∷ u) → (m ≡ n) × (r ≡ u)
one_apart m n r u h = (ap head_of h, ap second h)

marked_laws : JsonLaws marked (λ n. n ∷ [])
marked_laws = record { quote_apart = marked_apart; print_apart = one_apart }

claims_json_injective_example :
    clearance_claims clearance (text "key-2") ≡ clearance_claims signed.clearance signed.key_id
claims_json_injective_example =
    claims_json_injective marked (λ n. n ∷ []) (clearance_claims clearance (text "key-2"))
      (clearance_claims signed.clearance signed.key_id) marked_laws refl refl
