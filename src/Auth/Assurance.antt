-- ===== src/Auth/Assurance.antt =====
-- The verification by an outside provider (age, identity, liveness): `hostedAuthVerificationStateMachine` of
-- backend/packages/contracts/src/hosted-auth-recovery-state-machines.ts.
pub mod Paths
use powerotp.Prelude.{
  Bool, not, Option, none, some, List, [], ◌∷◌, ◌++◌, ◌==◌, HasEq, eq_of, filter, flat_map,
  includes, Text, text,
}
use powerotp.Auth.Scope.{Scope, Flow, signin, flow_eq, verification_scope_schema}
use powerotp.Auth.Core.{Behavior, transition, retry, observe, Rule, rule, Machine}

pub data State : Type 0 where
  ready provider_operation_pending decision_received retryable_failure satisfied not_satisfied
        indeterminate declined canceled expired :
      State

pub data Event : Type 0 where
  start_provider_operation receive_decision accept_decision reject_decision mark_indeterminate
        report_retryable_failure retry_with_new_operation decline cancel expire :
      Event

abbrev pub State-discrete : Discrete State
State-discrete = hlevel

abbrev pub Event-discrete : Discrete Event
Event-discrete = hlevel

instance abbrev pub state_eq : HasEq State
state_eq = eq_of State-discrete

instance abbrev pub event_eq : HasEq Event
event_eq = eq_of Event-discrete

unfoldable pub states : List State
states =
    ready ∷ provider_operation_pending ∷ decision_received ∷ retryable_failure ∷ satisfied
    ∷ not_satisfied ∷ indeterminate ∷ declined ∷ canceled ∷ expired ∷ []

unfoldable pub events : List Event
events =
    start_provider_operation ∷ receive_decision ∷ accept_decision ∷ reject_decision
    ∷ mark_indeterminate ∷ report_retryable_failure ∷ retry_with_new_operation ∷ decline ∷ cancel
    ∷ expire ∷ []

unfoldable pub terminal_states : List State
terminal_states = satisfied ∷ not_satisfied ∷ indeterminate ∷ declined ∷ canceled ∷ expired ∷ []

-- The rules written out.
unfoldable pub base_rules : List (Rule State Event)
base_rules =
    rule ready start_provider_operation provider_operation_pending transition
    ∷ rule provider_operation_pending receive_decision decision_received transition
    ∷ rule provider_operation_pending report_retryable_failure retryable_failure transition
    ∷ rule retryable_failure retry_with_new_operation provider_operation_pending retry
    ∷ rule decision_received accept_decision satisfied transition
    ∷ rule decision_received reject_decision not_satisfied transition
    ∷ rule decision_received mark_indeterminate indeterminate transition
    ∷ []

-- The rules that the loop over the active states adds for one of them.
unfoldable pub exit_rules : State → List (Rule State Event)
exit_rules s =
    rule s decline declined transition
    ∷ rule s cancel canceled transition
    ∷ rule s expire expired transition
    ∷ []

unfoldable pub active_states : List State
unfolding states terminal_states
active_states = filter (λ s. not (includes terminal_states s)) states

unfoldable pub rules : List (Rule State Event)
unfolding base_rules exit_rules active_states
rules = base_rules ++ flat_map exit_rules active_states

unfoldable pub verification_machine : Machine State Event
unfolding states events terminal_states rules
verification_machine = record {
  name = text "verification";
  scope_schema = verification_scope_schema;
  states = states;
  events = events;
  terminal_states = terminal_states;
  rules = rules;
}
