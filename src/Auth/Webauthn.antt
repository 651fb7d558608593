-- ===== src/Auth/Webauthn.antt =====
-- A WebAuthn ceremony: `hostedAuthWebAuthnStateMachine` of
-- backend/packages/contracts/src/hosted-auth-proof-state-machines.ts.
pub mod Paths
use powerotp.Prelude.{
  Bool, not, Option, none, some, List, [], ◌∷◌, ◌++◌, ◌==◌, HasEq, eq_of, filter, flat_map,
  includes, Text, text,
}
use powerotp.Auth.Scope.{Scope, Flow, signin, flow_eq, webauthn_scope_schema}
use powerotp.Auth.Core.{Behavior, transition, retry, observe, Rule, rule, Machine}

pub data State : Type 0 where
  ready challenge_issued verifying challenge_rejected verified canceled expired : State

pub data Event : Type 0 where
  issue_challenge submit_response accept_response reject_response retry_with_new_challenge cancel
        expire :
      Event

abbrev pub State-discrete : Discrete State
State-discrete = hlevel

abbrev pub Event-discrete : Discrete Event
Event-discrete = hlevel

instance abbrev pub state_eq : HasEq State
state_eq = eq_of State-discrete

instance abbrev pub event_eq : HasEq Event
event_eq = eq_of Event-discrete

unfoldable pub states : List State
states =
    ready ∷ challenge_issued ∷ verifying ∷ challenge_rejected ∷ verified ∷ canceled ∷ expired ∷ []

unfoldable pub events : List Event
events =
    issue_challenge ∷ submit_response ∷ accept_response ∷ reject_response ∷ retry_with_new_challenge
    ∷ cancel ∷ expire ∷ []

unfoldable pub terminal_states : List State
terminal_states = verified ∷ canceled ∷ expired ∷ []

-- The rules written out.
unfoldable pub base_rules : List (Rule State Event)
base_rules =
    rule ready issue_challenge challenge_issued transition
    ∷ rule challenge_issued submit_response verifying transition
    ∷ rule verifying accept_response verified transition
    ∷ rule verifying reject_response challenge_rejected transition
    ∷ rule challenge_rejected retry_with_new_challenge challenge_issued retry
    ∷ []

-- The rules that the loop over the active states adds for one of them.
unfoldable pub exit_rules : State → List (Rule State Event)
exit_rules s = rule s cancel canceled transition ∷ rule s expire expired transition ∷ []

unfoldable pub active_states : List State
unfolding states terminal_states
active_states = filter (λ s. not (includes terminal_states s)) states

unfoldable pub rules : List (Rule State Event)
unfolding base_rules exit_rules active_states
rules = base_rules ++ flat_map exit_rules active_states

unfoldable pub webauthn_machine : Machine State Event
unfolding states events terminal_states rules
webauthn_machine = record {
  name = text "webauthn";
  scope_schema = webauthn_scope_schema;
  states = states;
  events = events;
  terminal_states = terminal_states;
  rules = rules;
}
