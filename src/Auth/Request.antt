-- ===== src/Auth/Request.antt =====
-- The sign-up or sign-in request of one user: `hostedAuthRequestStateMachine` of
-- backend/packages/contracts/src/hosted-auth-request-state-machines.ts.
pub mod Paths
use powerotp.Prelude.{
  Bool, not, Option, none, some, List, [], ◌∷◌, ◌++◌, ◌==◌, HasEq, eq_of, filter, flat_map,
  includes, Text, text,
}
use powerotp.Auth.Scope.{Scope, Flow, signin, flow_eq, machine_scope_schema}
use powerotp.Auth.Core.{Behavior, transition, retry, observe, Rule, rule, Machine}

pub data State : Type 0 where
  created awaiting_user authenticating verifying_contact recovering proof_satisfied
        verifying_assurance publishing_result succeeded failed canceled expired :
      State

pub data Event : Type 0 where
  activate start_webauthn start_contact start_recovery authentication_satisfied contact_satisfied
        recovery_satisfied retry_authentication retry_contact retry_recovery start_verification
        skip_verification verification_satisfied retry_verification succeed fail cancel expire :
      Event

abbrev pub State-discrete : Discrete State
State-discrete = hlevel

abbrev pub Event-discrete : Discrete Event
Event-discrete = hlevel

instance abbrev pub state_eq : HasEq State
state_eq = eq_of State-discrete

instance abbrev pub event_eq : HasEq Event
event_eq = eq_of Event-discrete

unfoldable pub states : List State
states =
    created ∷ awaiting_user ∷ authenticating ∷ verifying_contact ∷ recovering ∷ proof_satisfied
    ∷ verifying_assurance ∷ publishing_result ∷ succeeded ∷ failed ∷ canceled ∷ expired ∷ []

unfoldable pub events : List Event
events =
    activate ∷ start_webauthn ∷ start_contact ∷ start_recovery ∷ authentication_satisfied
    ∷ contact_satisfied ∷ recovery_satisfied ∷ retry_authentication ∷ retry_contact ∷ retry_recovery
    ∷ start_verification ∷ skip_verification ∷ verification_satisfied ∷ retry_verification ∷ succeed
    ∷ fail ∷ cancel ∷ expire ∷ []

unfoldable pub terminal_states : List State
terminal_states = succeeded ∷ failed ∷ canceled ∷ expired ∷ []

-- A rule for the sign-in flow only.
abbrev pub signin_rule : State → Event → State → Behavior → Rule State Event
signin_rule from event to behavior = record {
  from = from;
  event = event;
  to = to;
  behavior = behavior;
  scope_guard = some (λ scope. scope.flow == signin);
}

-- The rules written out.
unfoldable pub base_rules : List (Rule State Event)
base_rules =
    rule created activate awaiting_user transition
    ∷ rule awaiting_user start_webauthn authenticating transition
    ∷ rule awaiting_user start_contact verifying_contact transition
    ∷ signin_rule awaiting_user start_recovery recovering transition
    ∷ rule authenticating authentication_satisfied proof_satisfied transition
    ∷ rule verifying_contact contact_satisfied proof_satisfied transition
    ∷ rule recovering recovery_satisfied proof_satisfied transition
    ∷ rule authenticating retry_authentication authenticating retry
    ∷ rule verifying_contact retry_contact verifying_contact retry
    ∷ rule recovering retry_recovery recovering retry
    ∷ rule proof_satisfied start_verification verifying_assurance transition
    ∷ rule proof_satisfied skip_verification publishing_result transition
    ∷ rule verifying_assurance verification_satisfied publishing_result transition
    ∷ rule verifying_assurance retry_verification verifying_assurance retry
    ∷ rule publishing_result succeed succeeded transition
    ∷ []

-- The rules that the loop over the active states adds for one of them.
unfoldable pub exit_rules : State → List (Rule State Event)
exit_rules s =
    rule s fail failed transition
    ∷ rule s cancel canceled transition
    ∷ rule s expire expired transition
    ∷ []

unfoldable pub active_states : List State
unfolding states terminal_states
active_states = filter (λ s. not (includes terminal_states s)) states

unfoldable pub rules : List (Rule State Event)
unfolding base_rules exit_rules active_states
rules = base_rules ++ flat_map exit_rules active_states

unfoldable pub request_machine : Machine State Event
unfolding states events terminal_states rules
request_machine = record {
  name = text "auth_request";
  scope_schema = machine_scope_schema;
  states = states;
  events = events;
  terminal_states = terminal_states;
  rules = rules;
}
