-- ===== src/Auth/Polling.antt =====
-- The client's polling for the result of a request: `hostedAuthPollingStateMachine` of
-- backend/packages/contracts/src/hosted-auth-request-state-machines.ts.
pub mod Paths
use powerotp.Prelude.{
  Bool, not, Option, none, some, List, [], ◌∷◌, ◌++◌, ◌==◌, HasEq, eq_of, filter, flat_map,
  includes, Text, text,
}
use powerotp.Auth.Scope.{Scope, Flow, signin, flow_eq, machine_scope_schema}
use powerotp.Auth.Core.{Behavior, transition, retry, observe, Rule, rule, Machine}

pub data State : Type 0 where
  active terminal_result_available purged : State

pub data Event : Type 0 where
  poll_pending publish_terminal_result poll_terminal_result purge_result : Event

abbrev pub State-discrete : Discrete State
State-discrete = hlevel

abbrev pub Event-discrete : Discrete Event
Event-discrete = hlevel

instance abbrev pub state_eq : HasEq State
state_eq = eq_of State-discrete

instance abbrev pub event_eq : HasEq Event
event_eq = eq_of Event-discrete

unfoldable pub states : List State
states = active ∷ terminal_result_available ∷ purged ∷ []

unfoldable pub events : List Event
events = poll_pending ∷ publish_terminal_result ∷ poll_terminal_result ∷ purge_result ∷ []

unfoldable pub terminal_states : List State
terminal_states = purged ∷ []

unfoldable pub rules : List (Rule State Event)
rules =
    rule active poll_pending active observe
    ∷ rule active publish_terminal_result terminal_result_available transition
    ∷ rule terminal_result_available poll_terminal_result terminal_result_available observe
    ∷ rule terminal_result_available purge_result purged transition
    ∷ []

unfoldable pub polling_machine : Machine State Event
unfolding states events terminal_states rules
polling_machine = record {
  name = text "polling";
  scope_schema = machine_scope_schema;
  states = states;
  events = events;
  terminal_states = terminal_states;
  rules = rules;
}
