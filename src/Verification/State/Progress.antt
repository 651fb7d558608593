-- ===== src/Verification/State/Progress.antt =====
-- The transitions of a verification: backend/packages/api/src/verification-state-machine.ts.
use powerotp.Prelude.{
  ℕ, suc, ◌+◌, ◌≤◌, ◌<◌, ◌≢◌, ap, ◌≡◌, refl, Bool, true, false, not, ◌&&◌, ◌||◌, Option, none, some,
  List, [], ◌∷◌, arith, ltb, ◌==◌, every, every-Memᴰ, includes, Memᴰ_of_includes,
}
use powerotp.Verification.State.{
  VerificationType, call_reachability, voice_code, voice_challenge, sms_code, email_code, State,
  queued, dispatching, calling, ringing, answered, playing, awaiting_response, succeeded, failed,
  expired, canceled, type_eq, state_eq, is_terminal_state, has_reached_awaiting_response,
  is_transition_allowed, next_active_state,
}

abbrev all_types : List VerificationType
all_types = call_reachability ∷ voice_code ∷ voice_challenge ∷ sms_code ∷ email_code ∷ []

abbrev all_states : List State
all_states =
    queued ∷ dispatching ∷ calling ∷ ringing ∷ answered ∷ playing ∷ awaiting_response ∷ succeeded
    ∷ failed ∷ expired ∷ canceled ∷ []

all_types_lem : (t : VerificationType) → includes all_types t ≡ true
all_types_lem call_reachability = refl
all_types_lem _ = refl

all_states_lem : (s : State) → includes all_states s ≡ true
all_states_lem queued = refl
all_states_lem _ = refl

-- A test that passes at every type and pair of states of the lists passes everywhere.
abbrev everywhere : (VerificationType → State → State → Bool) → Bool
everywhere p = every (λ t. every (λ a. every (p t a) all_states) all_states) all_types

everywhere_sound :
    (p : VerificationType → State → State → Bool)
    → everywhere p ≡ true
    → (t : VerificationType) (a b : State) → p t a b ≡ true
everywhere_sound p check t a b =
    let at_type =
      every-Memᴰ (λ u. every (λ c. every (p u c) all_states) all_states) check
        (Memᴰ_of_includes all_types t (all_types_lem t)) in
    let at_from =
      every-Memᴰ (λ c. every (p t c) all_states) at_type
        (Memᴰ_of_includes all_states a (all_states_lem a)) in
    every-Memᴰ (p t a) at_from (Memᴰ_of_includes all_states b (all_states_lem b))

abbrev pub same : Bool → Bool → Bool
same true b = b
same false b = not b

same_sound : (a b : Bool) → same a b ≡ true → a ≡ b
same_sound a b h = ground arith

abbrev pub is_state : State → Option State → Bool
is_state s none = false
is_state s (some t) = s == t

-- A transition is an interruption of an active state or a step to the next active state.
abbrev pub interrupts_or_advances : VerificationType → State → State → Bool
interrupts_or_advances t from to =
    not (is_terminal_state from) && (is_terminal_state to || is_state to (next_active_state t from))

transitions_table :
    everywhere (λ t a b. same (is_transition_allowed t a b) (interrupts_or_advances t a b)) ≡ true
unfolding is_transition_allowed is_terminal_state next_active_state
transitions_table = refl

-- A transition is allowed exactly when the current state is not terminal, and the target is terminal
-- or is the state that `nextActiveState` gives for the current one.
pub is_transition_allowed_lem :
    (t : VerificationType) (from to : State)
    → is_transition_allowed t from to ≡ interrupts_or_advances t from to
is_transition_allowed_lem t from to = same_sound _ _ (
    everywhere_sound (λ t a b. same (is_transition_allowed t a b) (interrupts_or_advances t a b))
      transitions_table t from to)

-- The place of a state on the way.
abbrev pub rank : State → ℕ
rank queued = 0
rank dispatching = 1
rank calling = 2
rank ringing = 3
rank answered = 4
rank playing = 5
rank awaiting_response = 6
rank _ = 7

rank_table : everywhere (λ t a b. not (is_transition_allowed t a b) || ltb (rank a) (rank b)) ≡ true
unfolding is_transition_allowed
rank_table = refl

rank_grows : (b : Bool) (m n : ℕ) → (not b || ltb m n) ≡ true → b ≡ true → m < n
rank_grows b m n h e = ground arith

pub is_transition_allowed_forward :
    (t : VerificationType) (from to : State)
    → is_transition_allowed t from to ≡ true
    → rank from < rank to
is_transition_allowed_forward t from to h =
    rank_grows _ _ _
      (everywhere_sound (λ t a b. not (is_transition_allowed t a b) || ltb (rank a) (rank b))
        rank_table t from to)
      h

reached_table :
    everywhere (λ t a b.
      not (is_transition_allowed t a b && has_reached_awaiting_response t a)
      || has_reached_awaiting_response t b)
    ≡ true
unfolding is_transition_allowed has_reached_awaiting_response
reached_table = refl

reached_kept : (p q r : Bool) → (not (p && q) || r) ≡ true → p ≡ true → q ≡ true → r ≡ true
reached_kept p q r h a b = ground arith

pub has_reached_kept :
    (t : VerificationType) (from to : State)
    → is_transition_allowed t from to ≡ true
    → has_reached_awaiting_response t from ≡ true
    → has_reached_awaiting_response t to ≡ true
has_reached_kept t from to h r =
    reached_kept _ _ _
      (everywhere_sound
        (λ t a b.
          not (is_transition_allowed t a b && has_reached_awaiting_response t a)
          || has_reached_awaiting_response t b)
        reached_table t from to)
      h r

-- The transitions of one verification, each from the state that the one before led to.
pub data Transitions (t : VerificationType) : State → State → ℕ → Type 0 where
  stop : {s : State} → Transitions t s s 0
  step :
      {a b c : State} {n : ℕ}
      → is_transition_allowed t a b ≡ true
      → Transitions t b c n
      → Transitions t a c (suc n)

path_climbs :
    {t : VerificationType} {a b : State} {n : ℕ} → Transitions t a b n → rank a + n ≤ rank b
path_climbs stop = omega arith
path_climbs {t} (step {a = a} {b = b} allowed rest) =
    omega (arith, is_transition_allowed_forward t a b allowed, path_climbs rest)

pub rank-le : (s : State) → rank s ≤ 7
rank-le queued = omega arith
rank-le _ = omega arith

-- Every verification ends: it makes seven transitions at most, and one or more of them never lead
-- back to the state that it was in.
pub Transitions-bounded :
    {t : VerificationType} {a b : State} (n : ℕ) → Transitions t a b (suc n) → (n < 7) × (a ≢ b)
Transitions-bounded {t} {a} {b} n p =
    (omega (arith, path_climbs p, rank-le b), λ e. omega (arith, path_climbs p, ap rank e))
