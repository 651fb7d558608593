-- ===== src/Verification/Store.antt =====
-- The stored interactions and the parts of a transition:
-- backend/packages/api/src/verification-service.ts, with the documents of verification-persistence.ts.
-- The database is the record `World`.
pub mod Frame
use powerotp.Prelude.{
  ℕ, ◌+◌, Bool, true, false, not, ◌&&◌, ◌||◌, Option, none, some, List, [], ◌∷◌, ltb, ◌==◌, nat_eq,
  if◌then◌else◌, Text, text, text_eq, get, put,
}
use powerotp.Verification.State.{
  VerificationType, State, expired, type_eq, state_eq, is_terminal_state,
  has_reached_awaiting_response,
}

pub data ProviderStatus : Type 0 where
  pending matched not_found error : ProviderStatus

pub record Interaction : Type 0 where
  pub id : Text
  pub project_id : Text
  pub customer_id : Text
  pub type : VerificationType
  pub target_number : Text
  pub state : State
  pub reason_code : Option Text
  pub sequence : ℕ
  pub correlation_id : Text
  pub browser_response : Bool
  pub hosted_auth_contact : Option Text
  pub expected_code_encrypted : Option Text
  pub challenge_answers : Option Text
  pub token_nonce : Option Text
  pub token_consumed_at : Option ℕ
  pub call_trunk_id : Option Text
  pub sms_did : Option Text
  pub email_sent : Bool
  pub provider_record : Option Text
  pub end_user_ip : Option Text
  pub end_user_user_agent : Option Text
  pub provider_record_status : Option ProviderStatus
  pub email_branding : Option Text
  pub free_quota_covered : Bool
  pub billing_pending_at : Option ℕ
  pub billing_applied_at : Option ℕ
  pub created_at : ℕ
  pub updated_at : ℕ
  pub expires_at : ℕ

-- An event. The project and the type that its document repeats are those of the interaction.
pub record Event : Type 0 where
  pub event_id : Text
  pub interaction_id : Text
  pub sequence : ℕ
  pub state : State
  pub reason_code : Option Text
  pub occurred_at : ℕ

-- The collections, and the queues of callbacks and of provider look-ups. In the three logs the
-- latest entry stands first.
pub record World : Type 0 where
  pub requests : List (Text × Interaction)
  pub events : List Event
  pub callbacks : List (Text × Text)
  pub reconciles : List Text

-- The readings of the clock in one transition: at the expiry test, for `updatedAt`, for
-- `billingPendingAt`, and for the event.
pub record Clock : Type 0 where
  pub checked : ℕ
  pub updated : ℕ
  pub billed : ℕ
  pub occurred : ℕ

-- `callTrunkId || smsDid || emailSent`, where an empty text counts as absent.
abbrev pub is_given : Option Text → Bool
is_given none = false
is_given (some []) = false
is_given (some (c ∷ t)) = true

abbrev pub was_attempted : Interaction → Bool
was_attempted r = is_given r.call_trunk_id || is_given r.sms_did || r.email_sent

-- An active interaction that is past its time is moved to `expired`, whatever was asked for.
abbrev pub is_overdue : Interaction → ℕ → Bool
is_overdue r now = ltb r.expires_at now && not (is_terminal_state r.state)

abbrev pub target_state : Interaction → ℕ → State → State
target_state r now to = if is_overdue r now then expired else to

abbrev pub target_reason : Interaction → ℕ → Option Text → Option Text
target_reason r now reason = if is_overdue r now then some (text "interaction_expired") else reason

-- The transition from `from` to `to` finishes the delivery.
abbrev pub finishes_delivery : VerificationType → State → State → Bool
finishes_delivery t from to =
    not (has_reached_awaiting_response t from) && has_reached_awaiting_response t to

-- `justFinishedDelivery`, of the documents before and after the update.
abbrev pub just_finished : Interaction → Interaction → Bool
just_finished current updated =
    not (has_reached_awaiting_response current.type current.state)
    && has_reached_awaiting_response updated.type updated.state

-- The `$set` of the conditional update, on the document that is stored.
abbrev pub moved : Interaction → Interaction → State → Option Text → Clock → Interaction
moved stored current to reason clock =
    let billing = finishes_delivery current.type current.state to && was_attempted current in
    record stored {
      state = to;
      reason_code = reason;
      sequence = current.sequence + 1;
      updated_at = clock.updated;
      billing_pending_at = if billing then some clock.billed else stored.billing_pending_at;
    }

-- The document that `findOneAndUpdate({ _id, state, sequence }, …)` matches.
abbrev pub unchanged_since : Interaction → Option Interaction → Option Interaction
unchanged_since current none = none
unchanged_since current (some stored) =
    if stored.state == current.state && stored.sequence == current.sequence
    then some stored
    else none

abbrev pub store : World → Text → Interaction → World
store w id r = record w { requests = put id r w.requests }

-- The conditional update itself: the updated document and the world after it.
abbrev commit_found :
    World
    → Text
    → Interaction
    → State
    → Option Text
    → Clock
    → Option Interaction
    → Option (Interaction × World)
commit_found w id current to reason clock none = none
commit_found w id current to reason clock (some stored) =
    let r = moved stored current to reason clock in some (r, store w id r)

unfoldable pub commit :
    World → Text → Interaction → State → Option Text → Clock → Option (Interaction × World)
commit w id current to reason clock =
    commit_found w id current to reason clock (unchanged_since current (get id w.requests))

-- `#recordTransition`: the event, then its callback.
unfoldable pub record_transition : World → Interaction → State → Option Text → Clock → Text → World
record_transition w r to reason clock event_id = record w {
  events =
      record {
        event_id = event_id;
        interaction_id = r.id;
        sequence = r.sequence;
        state = to;
        reason_code = reason;
        occurred_at = clock.occurred;
      }
      ∷ w.events;
  callbacks = (r.id, event_id) ∷ w.callbacks;
}

abbrev mark_pending : Option Interaction → Option Interaction
mark_pending none = none
mark_pending (some r) = some (record r { provider_record_status = some pending })

abbrev pub store_found : World → Text → Option Interaction → World
store_found w id none = w
store_found w id (some r) = store w id r

abbrev push_reconcile : World → Text → World
push_reconcile w id = record w { reconciles = id ∷ w.reconciles }

-- The look-up at the provider, for a delivery over a trunk or a number.
unfoldable pub schedule_reconcile : World → Interaction → World
schedule_reconcile w r =
    if is_given r.call_trunk_id || is_given r.sms_did
    then push_reconcile (store_found w r.id (mark_pending (get r.id w.requests))) r.id
    else w
