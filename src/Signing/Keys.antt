-- ===== src/Signing/Keys.antt =====
-- The keys of the signatures: backend/packages/botblocker-signing/src/key-ring.ts. What it throws is
-- an error of the model.
use powerotp.Prelude.{
  ℕ, Bool, true, false, not, ◌&&◌, ◌||◌, Option, none, some, List, [], ◌∷◌, ◌==◌, nat_eq, leb,
  if◌then◌else◌, includes, every, length, within, Text, text_eq,
}

-- What is used of node:crypto and of buffers. The imports give `none` where they throw.
pub record Crypto : Type 1 where
  pub PrivateKey : Type 0
  pub PublicKey : Type 0
  pub import_pkcs8 : List ℕ → Option PrivateKey
  pub import_spki : List ℕ → Option PublicKey
  pub is_ed25519_private : PrivateKey → Bool
  pub is_ed25519_public : PublicKey → Bool
  pub public_of : PrivateKey → PublicKey
  pub sign : List ℕ → PrivateKey → List ℕ
  pub verify : List ℕ → PublicKey → List ℕ → Option Bool
  pub of_base64 : Text → List ℕ
  pub to_base64url : List ℕ → Text
  pub of_base64url : Text → List ℕ
  pub utf8 : Text → List ℕ
  pub quote : Text → Text
  pub print : ℕ → Text

abbrev pub max_clock_skew_ms : ℕ
max_clock_skew_ms = 300000

pub data KeyError : Type 0 where
  bad_key_id bad_clock_skew bad_private_key bad_public_key : KeyError
  active_revoked previous_incomplete same_key_id bad_deadline : KeyError

pub data KeyResult {ℓ} (A : Type ℓ) : Type ℓ where
  ok : A → KeyResult A
  err : KeyError → KeyResult A

abbrev pub and_then {ℓ κ} :
    {A : Type ℓ} {B : Type κ} → KeyResult A → (A → KeyResult B) → KeyResult B
and_then (ok a) f = f a
and_then (err e) f = err e

-- `BotBlockerKeyConfiguration`
pub record KeyConfiguration : Type 0 where
  pub active_key_id : Text
  pub active_private_key : Text
  pub previous_key_id : Option Text
  pub previous_public_key : Option Text
  pub previous_verify_until : Option ℕ
  pub revoked_key_ids : Option (List Text)
  pub clock_skew_ms : Option ℕ

-- `BotBlockerSigningKeyIdSchema`
abbrev pub is_key_id : Text → Bool
is_key_id id = within 1 128 (length id)

abbrev pub parse_key_id : Text → KeyResult Text
parse_key_id id = if is_key_id id then ok id else err bad_key_id

abbrev pub parse_key_ids : List Text → KeyResult (List Text)
parse_key_ids ids = if every is_key_id ids then ok ids else err bad_key_id

abbrev pub or_zero : Option ℕ → ℕ
or_zero none = 0
or_zero (some n) = n

-- `validateBotBlockerClockSkew`, of a natural number.
abbrev pub validate_clock_skew : Option ℕ → KeyResult ℕ
validate_clock_skew value =
    if leb (or_zero value) max_clock_skew_ms then ok (or_zero value) else err bad_clock_skew

abbrev is_base64 : ℕ → Bool
is_base64 c = within 65 90 c || within 97 122 c || within 48 57 c || c == 43 || c == 47

-- The last four: two or three of the alphabet and padding, or four.
abbrev is_last_group : ℕ → ℕ → ℕ → ℕ → Bool
is_last_group a b c d =
    is_base64 a
    && is_base64 b
    && ((is_base64 c && is_base64 d) || (is_base64 c && d == 61) || (c == 61 && d == 61))

-- `/^(?:[A-Za-z0-9+/]{4})*(?:[A-Za-z0-9+/]{2}==|[A-Za-z0-9+/]{3}=)?$/`
abbrev pub is_canonical_base64 : Text → Bool
is_canonical_base64 [] = true
is_canonical_base64 (a ∷ b ∷ c ∷ d ∷ []) = is_last_group a b c d
is_canonical_base64 (a ∷ b ∷ c ∷ d ∷ e ∷ s) =
    is_base64 a && is_base64 b && is_base64 c && is_base64 d && is_canonical_base64 (e ∷ s)
is_canonical_base64 _ = false

abbrev is_text : Text → Bool
is_text [] = false
is_text (c ∷ s) = true

module _ (crypto : Crypto) where
  -- `decodeBase64`
  abbrev decode_base64 : Text → Option (List ℕ)
  decode_base64 value =
      if is_text value && is_canonical_base64 value then some (crypto.of_base64 value) else none

  abbrev private_found : Option crypto.PrivateKey → KeyResult crypto.PrivateKey
  private_found none = err bad_private_key
  private_found (some key) = if crypto.is_ed25519_private key then ok key else err bad_private_key

  abbrev private_of : Option (List ℕ) → KeyResult crypto.PrivateKey
  private_of none = err bad_private_key
  private_of (some der) = private_found (crypto.import_pkcs8 der)

  -- `importPrivateKey`
  abbrev pub import_private_key : Text → KeyResult crypto.PrivateKey
  import_private_key value = private_of (decode_base64 value)

  abbrev public_found : Option crypto.PublicKey → KeyResult crypto.PublicKey
  public_found none = err bad_public_key
  public_found (some key) = if crypto.is_ed25519_public key then ok key else err bad_public_key

  abbrev public_from : Option (List ℕ) → KeyResult crypto.PublicKey
  public_from none = err bad_public_key
  public_from (some der) = public_found (crypto.import_spki der)

  -- `importPublicKey`
  abbrev pub import_public_key : Text → KeyResult crypto.PublicKey
  import_public_key value = public_from (decode_base64 value)

  pub record SigningKey : Type 0 where
    pub key_id : Text
    pub private_key : crypto.PrivateKey

  -- A key before the active one has the time until which it verifies.
  pub record PreviousKey : Type 0 where
    pub key_id : Text
    pub public_key : crypto.PublicKey
    pub verify_until : ℕ

  -- `BotBlockerVerificationKeySet`
  pub record KeySet : Type 0 where
    pub active_id : Text
    pub active_key : crypto.PublicKey
    pub previous : Option PreviousKey
    pub revoked_key_ids : List Text

  pub record KeyRing : Type 0 where
    pub active_signing_key : SigningKey
    pub verification_keys : KeySet
    pub clock_skew_ms : ℕ

  abbrev previous_with : Text → Text → Text → ℕ → KeyResult (Option PreviousKey)
  previous_with active id key until = and_then (parse_key_id id) λ previous_id.
      if previous_id == active
      then err same_key_id
      else if not (within 1 9007199254740991 until)
      then err bad_deadline
      else and_then (import_public_key key) λ public_key.
        ok (some record { key_id = previous_id; public_key = public_key; verify_until = until })

  -- All three of the previous key are configured, or none.
  abbrev pub previous_of :
      Text → Option Text → Option Text → Option ℕ → KeyResult (Option PreviousKey)
  previous_of active none none none = ok none
  previous_of active (some id) (some key) (some until) = previous_with active id key until
  previous_of active id key until = err previous_incomplete

  abbrev pub or_nothing : Option (List Text) → List Text
  or_nothing none = []
  or_nothing (some ids) = ids

  abbrev pub ring_of : Text → ℕ → crypto.PrivateKey → List Text → Option PreviousKey → KeyRing
  ring_of active skew key revoked previous = record {
    active_signing_key = record { key_id = active; private_key = key };
    verification_keys = record {
      active_id = active;
      active_key = crypto.public_of key;
      previous = previous;
      revoked_key_ids = revoked;
    };
    clock_skew_ms = skew;
  }

  -- `loadBotBlockerKeyRing`
  unfoldable pub load_key_ring : KeyConfiguration → KeyResult KeyRing
  load_key_ring c = and_then (parse_key_id c.active_key_id) λ active.
      and_then (validate_clock_skew c.clock_skew_ms) λ skew.
        and_then (import_private_key c.active_private_key) λ key.
          and_then (parse_key_ids (or_nothing c.revoked_key_ids)) λ revoked.
            if includes revoked active
            then err active_revoked
            else and_then
                (previous_of active c.previous_key_id c.previous_public_key c.previous_verify_until)
                λ previous. ok (ring_of active skew key revoked previous)

  pub data Resolution : Type 0 where
    resolved : crypto.PublicKey → Resolution
    is_revoked is_retired is_untrusted : Resolution

  abbrev resolve_previous : Option PreviousKey → Text → ℕ → Resolution
  resolve_previous none id now = is_untrusted
  resolve_previous (some previous) id now =
      if not (id == previous.key_id)
      then is_untrusted
      else if leb previous.verify_until now
      then is_retired
      else resolved previous.public_key

  -- `resolveBotBlockerVerificationKey`
  abbrev pub resolve_verification_key : KeySet → Text → ℕ → Resolution
  resolve_verification_key keys id now =
      if includes keys.revoked_key_ids id
      then is_revoked
      else if id == keys.active_id
      then resolved keys.active_key
      else resolve_previous keys.previous id now
