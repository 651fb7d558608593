-- ===== src/Verification/State.antt =====
-- The state machine of a verification: backend/packages/api/src/verification-state-machine.ts, with
-- the types and states of backend/packages/contracts/src/verification.ts.
pub mod Progress
use powerotp.Prelude.{
  ℕ, ◌+◌, suc, Bool, true, false, not, ◌&&◌, ◌||◌, Option, none, some, List, [], ◌∷◌, leb, ◌==◌,
  HasEq, nat_eq, eq_of, if◌then◌else◌, includes, Option-map, get_elem?,
}

pub data VerificationType : Type 0 where
  call_reachability voice_code voice_challenge sms_code email_code : VerificationType

pub data State : Type 0 where
  queued dispatching calling ringing answered playing awaiting_response : State
  succeeded failed expired canceled : State

abbrev pub VerificationType-discrete : Discrete VerificationType
VerificationType-discrete = hlevel

abbrev pub State-discrete : Discrete State
State-discrete = hlevel

instance abbrev pub type_eq : HasEq VerificationType
type_eq = eq_of VerificationType-discrete

instance abbrev pub state_eq : HasEq State
state_eq = eq_of State-discrete

abbrev pub initial_state : State
initial_state = queued

abbrev pub terminal_states : List State
terminal_states = succeeded ∷ failed ∷ expired ∷ canceled ∷ []

-- `activeStatesByType`
unfoldable pub active_states_for : VerificationType → List State
active_states_for call_reachability = queued ∷ dispatching ∷ calling ∷ ringing ∷ answered ∷ []
active_states_for voice_code =
    queued ∷ dispatching ∷ calling ∷ ringing ∷ answered ∷ playing ∷ awaiting_response ∷ []
active_states_for voice_challenge =
    queued ∷ dispatching ∷ calling ∷ ringing ∷ answered ∷ playing ∷ awaiting_response ∷ []
active_states_for sms_code = queued ∷ dispatching ∷ awaiting_response ∷ []
active_states_for email_code = queued ∷ dispatching ∷ awaiting_response ∷ []

unfoldable pub is_terminal_state : State → Bool
is_terminal_state s = includes terminal_states s

-- `indexOf`, with `none` for -1.
unfoldable pub index_of : List State → State → Option ℕ
index_of [] s = none
index_of (x ∷ xs) s = if x == s then some 0 else Option-map suc (index_of xs s)

-- `stateIndex >= awaitingIndex`, false where one is -1.
abbrev at_or_after : Option ℕ → Option ℕ → Bool
at_or_after (some i) (some j) = leb j i
at_or_after (some i) none = false
at_or_after none j = false

unfoldable pub has_reached_awaiting_response : VerificationType → State → Bool
unfolding is_terminal_state active_states_for index_of
has_reached_awaiting_response t s =
    if is_terminal_state s
    then true
    else at_or_after (index_of (active_states_for t) s)
        (index_of (active_states_for t) awaiting_response)

-- `toIndex === fromIndex + 1`, false where one is -1.
abbrev next_index : Option ℕ → Option ℕ → Bool
next_index (some i) (some j) = j == i + 1
next_index (some i) none = false
next_index none j = false

unfoldable pub is_transition_allowed : VerificationType → State → State → Bool
unfolding is_terminal_state active_states_for index_of
is_transition_allowed t from to =
    if is_terminal_state from
    then false
    else if is_terminal_state to
    then true
    else next_index (index_of (active_states_for t) from) (index_of (active_states_for t) to)

abbrev element_after : List State → Option ℕ → Option State
element_after states none = none
element_after states (some i) = get_elem? states (i + 1)

unfoldable pub next_active_state : VerificationType → State → Option State
unfolding active_states_for index_of
next_active_state t from = element_after (active_states_for t) (index_of (active_states_for t) from)
