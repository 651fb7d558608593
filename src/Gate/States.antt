-- ===== src/Gate/States.antt =====
-- The states of the gate and what the page is told of them: states.ts and recommendation.ts of
-- libraries/gate-core/src.
use powerotp.Prelude.{
  ℕ, Bool, false, ◌||◌, Option, none, some, List, [], ◌∷◌, ◌==◌, HasEq, eq_of, includes, Text,
}

pub data GateState : Type 0 where
  checking optimistic_allow observing otp_required verified unavailable : GateState

abbrev GateState-discrete : Discrete GateState
GateState-discrete = hlevel

instance abbrev pub gate_state_eq : HasEq GateState
gate_state_eq = eq_of GateState-discrete

-- `allowedTransitions`
abbrev pub allowed_transitions : GateState → List GateState
allowed_transitions checking = optimistic_allow ∷ observing ∷ otp_required ∷ unavailable ∷ []
allowed_transitions optimistic_allow = observing ∷ otp_required ∷ unavailable ∷ []
allowed_transitions observing = otp_required ∷ []
allowed_transitions otp_required = verified ∷ []
allowed_transitions verified = observing ∷ otp_required ∷ []
allowed_transitions unavailable = observing ∷ otp_required ∷ []

-- `isGateTransitionAllowed`
abbrev pub is_gate_transition_allowed : GateState → GateState → Bool
is_gate_transition_allowed from to = from == to || includes (allowed_transitions from) to

-- The two outcomes that a decision has.
pub data Outcome : Type 0 where
  allow otp : Outcome

abbrev Outcome-discrete : Discrete Outcome
Outcome-discrete = hlevel

instance abbrev pub outcome_eq : HasEq Outcome
outcome_eq = eq_of Outcome-discrete

-- `ReportSequence`
pub record Sequence : Type 0 where
  pub gate_session_id : Text
  pub sequence : ℕ
  pub issued_at : ℕ

pub data Lifecycle : Type 0 where
  is_checking fail_open is_unavailable is_observing is_otp_required is_verified : Lifecycle

pub data Recommendation : Type 0 where
  restricted full_access otp_wanted : Recommendation

pub record Snapshot : Type 0 where
  pub lifecycle : Lifecycle
  pub recommendation : Recommendation
  pub decision : Option Outcome
  pub decision_pending : Bool
  pub otp_open : Bool
  pub last_applied : Option Sequence

abbrev snapshot :
    Lifecycle → Recommendation → Option Outcome → Bool → Bool → Option Sequence → Snapshot
snapshot lifecycle recommendation decision pending otp_open last_applied = record {
  lifecycle = lifecycle;
  recommendation = recommendation;
  decision = decision;
  decision_pending = pending;
  otp_open = otp_open;
  last_applied = last_applied;
}

-- What an observing gate shows: a page that was verified stays so while its decision is `otp`.
abbrev observing_snapshot : Option Outcome → Bool → Option Sequence → Snapshot
observing_snapshot (some otp) pending last_applied =
    snapshot is_verified full_access (some otp) pending false last_applied
observing_snapshot _ pending last_applied =
    snapshot is_observing full_access (some allow) pending false last_applied

-- `createGateSnapshot`
abbrev pub create_gate_snapshot :
    GateState → Option Outcome → Bool → Bool → Option Sequence → Snapshot
create_gate_snapshot checking decision pending otp_open last_applied =
    snapshot is_checking restricted none pending false last_applied
create_gate_snapshot optimistic_allow decision pending otp_open last_applied =
    snapshot fail_open full_access none pending false last_applied
create_gate_snapshot unavailable decision pending otp_open last_applied =
    snapshot is_unavailable full_access none pending false last_applied
create_gate_snapshot otp_required decision pending otp_open last_applied =
    snapshot is_otp_required otp_wanted (some otp) pending otp_open last_applied
create_gate_snapshot verified decision pending otp_open last_applied =
    snapshot is_verified full_access (some otp) pending false last_applied
create_gate_snapshot observing decision pending otp_open last_applied =
    observing_snapshot decision pending last_applied
