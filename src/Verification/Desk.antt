-- ===== src/Verification/Desk.antt =====
-- The requests for verifications and the store that they reach: the input and the records of
-- idempotency keys of backend/packages/api/src/verification-service.ts and verification-persistence.ts.
use powerotp.Prelude.{ℕ, Bool, Option, List, ◌++◌, Text, text, text_eq}
use powerotp.Verification.State.{VerificationType, State, initial_state, type_eq}
use powerotp.Verification.Store.{Interaction, World}

-- The fields of the input.
pub record CreateInput : Type 0 where
  pub type : VerificationType
  pub target_number : Text
  pub code : Option Text
  pub browser_response : Bool

-- `IdempotencyRecordDocument`, under its `_id`.
pub record KeyRecord : Type 0 where
  pub project_id : Text
  pub idempotency_key : Text
  pub request_hash : Text
  pub interaction_id : Text
  pub created_at : ℕ

-- The store with the records of idempotency keys and the queues of new interactions.
pub record Desk : Type 0 where
  pub world : World
  pub keys : List (Text × KeyRecord)
  pub dispatches : List Text
  pub timeouts : List (Text × ℕ)

-- `VerificationError` of `create`, and the errors of what it calls.
pub data CreateError : Type 0 where
  idempotency_key_conflict no_published_challenges : CreateError
  refused : Text → CreateError

pub record Accepted : Type 0 where
  pub interaction_id : Text
  pub state : State
  pub status_url : Text
  pub expires_at : ℕ

pub data Answer : Type 0 where
  accept : Accepted → Answer
  reject : CreateError → Answer

-- What the service is given: the hash of a request, the address of a status, the gates of the account
-- and of the balance with the codes that they throw, the free quota, the catalogue of challenges, the
-- branding of a project, and the encryption of codes.
pub record Services : Type 0 where
  pub request_hash : CreateInput → Option Text → Text
  pub status_url : Text → Text
  pub require_verified_email : Text → Option Text
  pub try_consume_free_quota : Text → VerificationType → Bool
  pub require_non_negative_balance : Text → Option Text
  pub select_and_materialize : Option Text
  pub branding : Text → Option Text
  pub encrypt : Text → Text

-- A request: who asks, for what, under which key; and what is drawn for it, its id, its random code
-- and the ids of the event, with the readings of the clock.
pub record Creation : Type 0 where
  pub project_id : Text
  pub customer_id : Text
  pub input : CreateInput
  pub idempotency_key : Text
  pub correlation_id : Text
  pub hosted_auth_contact : Option Text
  pub new_id : Text
  pub drawn_code : Text
  pub event_id : Text
  pub now : ℕ
  pub occurred : ℕ

-- `VERIFICATION_LIFETIME_MS`
abbrev pub lifetime_ms : ℕ
lifetime_ms = 600000

abbrev pub record_id : Creation → Text
record_id c = c.project_id ++ text ":" ++ c.idempotency_key

abbrev pub accepted : Services → Interaction → Accepted
accepted s r = record {
  interaction_id = r.id;
  state = initial_state;
  status_url = s.status_url r.id;
  expires_at = r.expires_at;
}
