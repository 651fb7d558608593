-- ===== src/Auth/Recovery.antt =====
-- The recovery of an account: `hostedAuthRecoveryStateMachine` of
-- backend/packages/contracts/src/hosted-auth-recovery-state-machines.ts.
pub mod Paths
use powerotp.Prelude.{
  Bool, not, Option, none, some, List, [], ◌∷◌, ◌++◌, ◌==◌, HasEq, eq_of, filter, flat_map,
  includes, Text, text,
}
use powerotp.Auth.Scope.{Scope, Flow, signin, flow_eq, recovery_scope_schema}
use powerotp.Auth.Core.{Behavior, transition, retry, observe, Rule, rule, Machine}

pub data State : Type 0 where
  ready discovering awaiting_proof delay_pending proof_satisfied grant_issued completed failed
        canceled expired :
      State

pub data Event : Type 0 where
  begin_discovery require_proof begin_security_delay complete_security_delay accept_proof
        retry_proof issue_credential_grant complete_recovery fail cancel expire :
      Event

abbrev pub State-discrete : Discrete State
State-discrete = hlevel

abbrev pub Event-discrete : Discrete Event
Event-discrete = hlevel

instance abbrev pub state_eq : HasEq State
state_eq = eq_of State-discrete

instance abbrev pub event_eq : HasEq Event
event_eq = eq_of Event-discrete

unfoldable pub states : List State
states =
    ready ∷ discovering ∷ awaiting_proof ∷ delay_pending ∷ proof_satisfied ∷ grant_issued
    ∷ completed ∷ failed ∷ canceled ∷ expired ∷ []

unfoldable pub events : List Event
events =
    begin_discovery ∷ require_proof ∷ begin_security_delay ∷ complete_security_delay ∷ accept_proof
    ∷ retry_proof ∷ issue_credential_grant ∷ complete_recovery ∷ fail ∷ cancel ∷ expire ∷ []

unfoldable pub terminal_states : List State
terminal_states = completed ∷ failed ∷ canceled ∷ expired ∷ []

-- The rules written out.
unfoldable pub base_rules : List (Rule State Event)
base_rules =
    rule ready begin_discovery discovering transition
    ∷ rule discovering require_proof awaiting_proof transition
    ∷ rule awaiting_proof accept_proof proof_satisfied transition
    ∷ rule awaiting_proof begin_security_delay delay_pending transition
    ∷ rule delay_pending complete_security_delay proof_satisfied transition
    ∷ rule awaiting_proof retry_proof awaiting_proof retry
    ∷ rule proof_satisfied issue_credential_grant grant_issued transition
    ∷ rule grant_issued complete_recovery completed transition
    ∷ []

-- The rules that the loop over the active states adds for one of them.
unfoldable pub exit_rules : State → List (Rule State Event)
exit_rules s =
    rule s fail failed transition
    ∷ rule s cancel canceled transition
    ∷ rule s expire expired transition
    ∷ []

unfoldable pub active_states : List State
unfolding states terminal_states
active_states = filter (λ s. not (includes terminal_states s)) states

unfoldable pub rules : List (Rule State Event)
unfolding base_rules exit_rules active_states
rules = base_rules ++ flat_map exit_rules active_states

unfoldable pub recovery_machine : Machine State Event
unfolding states events terminal_states rules
recovery_machine = record {
  name = text "recovery";
  scope_schema = recovery_scope_schema;
  states = states;
  events = events;
  terminal_states = terminal_states;
  rules = rules;
}
