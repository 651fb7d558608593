-- ===== src/Gate/Variables.antt =====
-- The variables of a gate controller, its options, and its creation: `createGateController` of
-- libraries/gate-core/src/controller.ts.
use powerotp.Prelude.{
  ℕ, Bool, true, false, ◌&&◌, Option, none, some, List, [], ◌==◌, leb, if◌then◌else◌, length,
  within, Text, text_eq,
}
use powerotp.Gate.States.{
  GateState, checking, observing, otp_required, gate_state_eq, Outcome, allow, otp, outcome_eq,
  Sequence, Snapshot, create_gate_snapshot,
}
use powerotp.Gate.Decision.{RejectionReason}

pub data Effect : Type 0 where
  freeze_page unfreeze_page pause_observation : Effect
  start_observation : Bool → Effect
  start_authoritative_polling stop_authoritative_polling : Effect
  decision_rejected : RejectionReason → Effect

-- A call of `onEffect`, or one of `onStateChange` with the snapshot and the state before.
pub data Output : Type 0 where
  effect_of : Effect → Output
  changed : Snapshot → GateState → Output

-- `GateControllerOptions`. `can_launch` is whether `launchOtp` is given.
pub record Options : Type 0 where
  pub site_id : Text
  pub gate_session_id : Text
  pub audience : Text
  pub decision_timeout_ms : ℕ
  pub clock_skew_ms : ℕ
  pub can_launch : Bool

-- The variables of `createGateController`. A promise of `requestDecision` that has not settled, and
-- its decision that is being verified, are `requested` and `verifying`; `timer` is the timeout.
pub record Gate : Type 0 where
  pub state : GateState
  pub decision_pending : Bool
  pub last_applied : Option Sequence
  pub active_challenge_id : Option Text
  pub decision : Option Outcome
  pub otp_open : Bool
  pub opening_otp : Bool
  pub observation_resumed : Bool
  pub timer : Bool
  pub started : Bool
  pub disposed : Bool
  pub requested : Bool
  pub verifying : Bool
  pub accepted_nonces : List Text
  pub current : Snapshot
  pub output : List Output

-- `RestoredGateSecurityState`
pub data Restored : Type 0 where
  restored_checking : List Text → Sequence → Restored
  restored_observing : List Text → Option Sequence → Restored
  restored_otp : List Text → Sequence → Text → Restored

-- `isValidChallengeId`
abbrev pub is_valid_challenge_id : Text → Bool
is_valid_challenge_id id = within 16 200 (length id)

abbrev pub restored_sequence : Option Restored → Option Sequence
restored_sequence none = none
restored_sequence (some (restored_checking nonces s)) = some s
restored_sequence (some (restored_observing nonces s)) = s
restored_sequence (some (restored_otp nonces s id)) = some s

abbrev pub is_of_session : Text → Option Sequence → Bool
is_of_session session none = true
is_of_session session (some s) = s.gate_session_id == session

abbrev pub has_valid_challenge : Option Restored → Bool
has_valid_challenge (some (restored_otp nonces s id)) = is_valid_challenge_id id
has_valid_challenge _ = true

abbrev pub initial : GateState → Option Outcome → Option Text → List Text → Option Sequence → Gate
initial state decision challenge nonces last_applied = record {
  state = state;
  decision_pending = false;
  last_applied = last_applied;
  active_challenge_id = challenge;
  decision = decision;
  otp_open = false;
  opening_otp = false;
  observation_resumed = false;
  timer = false;
  started = false;
  disposed = false;
  requested = false;
  verifying = false;
  accepted_nonces = nonces;
  current = create_gate_snapshot state decision false false last_applied;
  output = [];
}

abbrev pub restored_gate : Option Restored → Gate
restored_gate none = initial checking none none [] none
restored_gate (some (restored_checking nonces s)) = initial checking none none nonces (some s)
restored_gate (some (restored_observing nonces s)) = initial observing (some allow) none nonces s
restored_gate (some (restored_otp nonces s id)) =
    initial otp_required (some otp) (some id) nonces (some s)

abbrev pub is_creatable : Options → Option Restored → Bool
is_creatable o restored =
    within 50 2000 o.decision_timeout_ms
    && leb o.clock_skew_ms 300000
    && is_of_session o.gate_session_id (restored_sequence restored)
    && has_valid_challenge restored

-- `createGateController`: what throws gives `none`.
abbrev pub create_gate_controller : Options → Option Restored → Option Gate
create_gate_controller o restored =
    if is_creatable o restored then some (restored_gate restored) else none
