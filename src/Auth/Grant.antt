-- ===== src/Auth/Grant.antt =====
-- The grant to change a credential: `hostedAuthCredentialGrantStateMachine` of
-- backend/packages/contracts/src/hosted-auth-recovery-state-machines.ts.
pub mod Paths
use powerotp.Prelude.{
  Bool, not, Option, none, some, List, [], ◌∷◌, ◌++◌, ◌==◌, HasEq, eq_of, filter, flat_map,
  includes, Text, text,
}
use powerotp.Auth.Scope.{Scope, Flow, signin, flow_eq, credential_grant_scope_schema}
use powerotp.Auth.Core.{Behavior, transition, retry, observe, Rule, rule, Machine}

pub data State : Type 0 where
  issued consuming consumption_rejected consumed canceled expired : State

pub data Event : Type 0 where
  begin_consumption accept_consumption reject_consumption retry_consumption cancel expire : Event

abbrev pub State-discrete : Discrete State
State-discrete = hlevel

abbrev pub Event-discrete : Discrete Event
Event-discrete = hlevel

instance abbrev pub state_eq : HasEq State
state_eq = eq_of State-discrete

instance abbrev pub event_eq : HasEq Event
event_eq = eq_of Event-discrete

unfoldable pub states : List State
states = issued ∷ consuming ∷ consumption_rejected ∷ consumed ∷ canceled ∷ expired ∷ []

unfoldable pub events : List Event
events =
    begin_consumption ∷ accept_consumption ∷ reject_consumption ∷ retry_consumption ∷ cancel
    ∷ expire ∷ []

unfoldable pub terminal_states : List State
terminal_states = consumed ∷ canceled ∷ expired ∷ []

-- The rules written out.
unfoldable pub base_rules : List (Rule State Event)
base_rules =
    rule issued begin_consumption consuming transition
    ∷ rule consuming accept_consumption consumed transition
    ∷ rule consuming reject_consumption consumption_rejected transition
    ∷ rule consumption_rejected retry_consumption consuming retry
    ∷ []

-- The rules that the loop over the active states adds for one of them.
unfoldable pub exit_rules : State → List (Rule State Event)
exit_rules s = rule s cancel canceled transition ∷ rule s expire expired transition ∷ []

-- The loop lists its states itself.
unfoldable pub active_states : List State
active_states = issued ∷ consuming ∷ consumption_rejected ∷ []

unfoldable pub rules : List (Rule State Event)
unfolding base_rules exit_rules active_states
rules = base_rules ++ flat_map exit_rules active_states

unfoldable pub grant_machine : Machine State Event
unfolding states events terminal_states rules
grant_machine = record {
  name = text "credential_grant";
  scope_schema = credential_grant_scope_schema;
  states = states;
  events = events;
  terminal_states = terminal_states;
  rules = rules;
}
