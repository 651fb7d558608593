-- ===== src/Auth/Polling/Paths.antt =====
-- The runs of the polling machine.
use powerotp.Prelude.{
  ◌≡◌, ◌≢◌, ◌⊎◌, inl, inr, true, arith, ◌==◌, Bool, not, ◌||◌, every, every-Memᴰ, refl, false,
}
use powerotp.Auth.Core.{Behavior, observe, Rule, Snapshot, Command, Outcome, ok, apply_transition}
use powerotp.Auth.Core.Reducer.{apply-cases}
use powerotp.Auth.Core.Runs.{Reaches, Reaches-invariant}
use powerotp.Auth.Polling.{
  State, active, Event, poll_pending, poll_terminal_result, state_eq, event_eq, polling_machine,
}

abbrev is_observe : Behavior → Bool
is_observe observe = true
is_observe _ = false

-- A rule on a poll event only observes.
abbrev polls_observe : Rule State Event → Bool
polls_observe r =
    not (r.event == poll_pending || r.event == poll_terminal_result) || is_observe r.behavior

all_polls_observe : every polls_observe polling_machine.rules ≡ true
unfolding polling_machine
all_polls_observe = refl

moves_no_poll :
    (e : Event) (r : Rule State Event)
    → polls_observe r ≡ true
    → r.event ≡ e
    → r.behavior ≢ observe
    → (e ≡ poll_pending) ⊎ (e ≡ poll_terminal_result)
    → ⊥
moves_no_poll e r check on moving poll = ground arith

-- Polling changes nothing: an accepted command with one of the two poll events leaves the snapshot,
-- its version included, as it was.
pub poll_unchanged :
    (current : Snapshot State Event) (command : Command Event) {o : Outcome}
    {next : Snapshot State Event}
    → (command.event ≡ poll_pending) ⊎ (command.event ≡ poll_terminal_result)
    → apply_transition polling_machine current command ≡ ok (o, next)
    → next ≡ current
poll_unchanged current command poll h = elim (apply-cases polling_machine current command h) [
  | inl (how, same) ↦ same
  | inr (fresh, (r, moved)) ↦ absurd (
      moves_no_poll command.event r (every-Memᴰ polls_observe all_polls_observe moved.listed)
        moved.on moved.not_observe poll)
]

-- A rule that does not start at `active` does not lead there.
abbrev stays_published : Rule State Event → Bool
stays_published r = r.from == active || not (r.to == active)

all_stay_published : every stays_published polling_machine.rules ≡ true
unfolding polling_machine
all_stay_published = refl

keeps_published :
    (r : Rule State Event) → stays_published r ≡ true → r.from ≢ active → r.to ≢ active
keeps_published r check other = ground arith

-- A published result is never taken back: no run from another state leads to `active`.
pub published_stays :
    {start end : Snapshot State Event}
    → start.state ≢ active
    → Reaches polling_machine start end
    → end.state ≢ active
published_stays other run =
    Reaches-invariant (λ s a. a ≢ active) polling_machine
      (λ s r listed _. keeps_published r (every-Memᴰ stays_published all_stay_published listed))
      other run
