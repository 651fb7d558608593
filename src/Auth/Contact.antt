-- ===== src/Auth/Contact.antt =====
-- The proof of a contact (an address or a number): `hostedAuthContactStateMachine` of
-- backend/packages/contracts/src/hosted-auth-proof-state-machines.ts.
pub mod Paths
use powerotp.Prelude.{
  Bool, not, Option, none, some, List, [], ◌∷◌, ◌++◌, ◌==◌, HasEq, eq_of, filter, flat_map,
  includes, Text, text,
}
use powerotp.Auth.Scope.{Scope, Flow, signin, flow_eq, contact_scope_schema}
use powerotp.Auth.Core.{Behavior, transition, retry, observe, Rule, rule, Machine}

pub data State : Type 0 where
  ready challenge_sent delivery_failed proof_submitted proof_rejected verified declined canceled
        expired :
      State

pub data Event : Type 0 where
  send_challenge report_delivery_failure submit_proof accept_proof reject_proof decline
        retry_delivery retry_with_new_challenge cancel expire :
      Event

abbrev pub State-discrete : Discrete State
State-discrete = hlevel

abbrev pub Event-discrete : Discrete Event
Event-discrete = hlevel

instance abbrev pub state_eq : HasEq State
state_eq = eq_of State-discrete

instance abbrev pub event_eq : HasEq Event
event_eq = eq_of Event-discrete

unfoldable pub states : List State
states =
    ready ∷ challenge_sent ∷ delivery_failed ∷ proof_submitted ∷ proof_rejected ∷ verified
    ∷ declined ∷ canceled ∷ expired ∷ []

unfoldable pub events : List Event
events =
    send_challenge ∷ report_delivery_failure ∷ submit_proof ∷ accept_proof ∷ reject_proof ∷ decline
    ∷ retry_delivery ∷ retry_with_new_challenge ∷ cancel ∷ expire ∷ []

unfoldable pub terminal_states : List State
terminal_states = verified ∷ declined ∷ canceled ∷ expired ∷ []

-- The rules written out.
unfoldable pub base_rules : List (Rule State Event)
base_rules =
    rule ready send_challenge challenge_sent transition
    ∷ rule challenge_sent report_delivery_failure delivery_failed transition
    ∷ rule delivery_failed retry_delivery challenge_sent retry
    ∷ rule challenge_sent submit_proof proof_submitted transition
    ∷ rule proof_submitted accept_proof verified transition
    ∷ rule proof_submitted reject_proof proof_rejected transition
    ∷ rule proof_rejected retry_with_new_challenge challenge_sent retry
    ∷ []

-- The rules that the loop over the active states adds for one of them.
unfoldable pub exit_rules : State → List (Rule State Event)
exit_rules s =
    rule s decline declined transition
    ∷ rule s cancel canceled transition
    ∷ rule s expire expired transition
    ∷ []

unfoldable pub active_states : List State
unfolding states terminal_states
active_states = filter (λ s. not (includes terminal_states s)) states

unfoldable pub rules : List (Rule State Event)
unfolding base_rules exit_rules active_states
rules = base_rules ++ flat_map exit_rules active_states

unfoldable pub contact_machine : Machine State Event
unfolding states events terminal_states rules
contact_machine = record {
  name = text "contact";
  scope_schema = contact_scope_schema;
  states = states;
  events = events;
  terminal_states = terminal_states;
  rules = rules;
}
