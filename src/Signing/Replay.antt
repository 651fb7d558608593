-- ===== src/Signing/Replay.antt =====
-- Nonces are consumed once: backend/packages/botblocker-signing/src/replay.ts. The store, the digest
-- and `JSON.stringify` of a string are parameters.
pub mod Once
mod Tests
use powerotp.Prelude.{
  ℕ, ◌+◌, ◌-◌, ◌≤◌, ◌<◌, Bool, true, false, not, ◌||◌, Option, none, some, List, [], ◌∷◌, ◌++◌, ltb,
  leb, if◌then◌else◌, Text, text, ◌≡◌, refl, ap, sym, ◌∙◌, subst, arith,
}
use powerotp.Signing.Canonical.{join_commas}
use powerotp.Signing.Keys.{KeyResult, ok, err, validate_clock_skew}
use powerotp.Signing.Artifacts.{ArtifactType, site_clearance, policy_release, type_text}

pub data Reply : Type 0 where
  is_stored is_taken throws : Reply

-- `BotBlockerAtomicNonceStore`: `set key "1" PX ttl NX` at a time of the store's own clock.
pub record NonceStore : Type 1 where
  pub State : Type 0
  pub set : State → Text → ℕ → ℕ → State × Reply

-- What is documented of SET with NX and PX: a key that was stored is held until its time to live has
-- passed, whatever is set; and what is held is not stored.
pub record NonceStoreLaws (store : NonceStore) : Type 1 where
  pub IsHeld : store.State → Text → ℕ → Type 0
  pub set-stored :
      (s : store.State) (key : Text) (ttl clock : ℕ)
      → (store.set s key ttl clock).1 ≡ is_stored
      → IsHeld (store.set s key ttl clock).0 key (clock + ttl)
  pub set-held :
      (s : store.State) (key : Text) (ttl clock until : ℕ)
      → IsHeld s key until
      → clock < until
      → ¬ ((store.set s key ttl clock).1 ≡ is_stored)
  pub set-keeps :
      (s : store.State) (key other : Text) (ttl clock until : ℕ)
      → IsHeld s key until
      → IsHeld (store.set s other ttl clock).0 key until

-- `BotBlockerNonceScope`
pub record Scope : Type 0 where
  pub artifact_type : ArtifactType
  pub site_id : Text
  pub audience : Text
  pub session_id : Option Text

-- A call of `consumeBotBlockerNonce`, with the clock of its caller and the one of the store.
pub record Attempt : Type 0 where
  pub scope : Scope
  pub nonce : Text
  pub expires_at : ℕ
  pub clock_skew_ms : Option ℕ
  pub now : ℕ
  pub clock : ℕ

-- `BotBlockerNonceConsumptionResult`, and that the bound of the clock skew was refused.
pub data Consumption : Type 0 where
  accepted expired replay_detected storage_unavailable skew_refused : Consumption

abbrev consumption : Reply → Consumption
consumption is_stored = accepted
consumption is_taken = replay_detected
consumption throws = storage_unavailable

abbrev is_valid_until : ℕ → ℕ → Bool
is_valid_until until now = not (not (leb until 9007199254740991) || leb until now)

abbrev or_null : (Text → Text) → Option Text → Text
or_null quote none = text "null"
or_null quote (some s) = quote s

module _ (store : NonceStore) (digest quote : Text → Text) where
  -- `replayKey`
  unfoldable pub replay_key : Scope → Text → Text
  replay_key scope nonce =
      let parts =
        quote (type_text scope.artifact_type)
        ∷ quote scope.site_id
        ∷ quote scope.audience
        ∷ or_null quote scope.session_id
        ∷ quote nonce
        ∷ [] in
      text "botblocker:nonce:v1:"
      ++ (type_text scope.artifact_type ++ (58 ∷ digest (91 ∷ (join_commas parts ++ text "]"))))

  abbrev replied : store.State × Reply → store.State × Consumption
  replied (s, reply) = (s, consumption reply)

  abbrev consume_until : store.State → Attempt → ℕ → store.State × Consumption
  consume_until s a until =
      if is_valid_until until a.now
      then replied (store.set s (replay_key a.scope a.nonce) (until - a.now) a.clock)
      else (s, expired)

  abbrev consume_within : store.State → Attempt → KeyResult ℕ → store.State × Consumption
  consume_within s a (ok skew) = consume_until s a (a.expires_at + skew)
  consume_within s a (err _) = (s, skew_refused)

  -- `consumeBotBlockerNonce`
  unfoldable pub consume_nonce : store.State → Attempt → store.State × Consumption
  consume_nonce s a = consume_within s a (validate_clock_skew a.clock_skew_ms)

  -- The state after calls one after another.
  unfoldable pub consume_nonces : store.State → List Attempt → store.State
  consume_nonces s [] = s
  consume_nonces s (a ∷ attempts) = consume_nonces (consume_nonce s a).0 attempts
