-- ===== src/Auth/Request/Paths.antt =====
-- The runs of a hosted-auth request.
use powerotp.Prelude.{
  ◌≡◌, refl, ◌+◌, ap, ◌≢◌, not, ◌||◌, Bool, true, false, some, arith, ◌==◌, find, every, includes,
  every-Memᴰ, subst, sym, ◌∙◌,
}
use powerotp.Auth.Scope.{Scope, signin, flow_eq}
use powerotp.Auth.Core.{
  Rule, Snapshot, Command, applied, ok, transition, guard_holds, fits, fire, rule, apply_transition,
}
use powerotp.Auth.Core.Reducer.{IsFresh, apply_fresh, AllStatesKnown, all_states_known}
use powerotp.Auth.Core.Runs.{Reaches, PassedThrough, gated, Reaches-gate, Reaches-invariant}
use powerotp.Auth.Request.{
  State, created, awaiting_user, recovering, proof_satisfied, verifying_assurance,
  publishing_result, succeeded, failed, canceled, expired, Event, fail, cancel, expire, state_eq,
  event_eq, request_machine,
}

abbrev SigninOnly : Scope → State → Type 0
SigninOnly s a = a ≡ recovering → s.flow ≡ signin

-- The states that a request can be in only after a proof was accepted.
abbrev proven : State → Bool
proven proof_satisfied = true
proven verifying_assurance = true
proven publishing_result = true
proven succeeded = true
proven _ = false

proven_gate : every (gated proven proof_satisfied) request_machine.rules ≡ true
unfolding request_machine
proven_gate = refl

-- A request that starts before any proof and ends in `succeeded` was in `proof_satisfied` on its way.
pub succeeded_needs_proof :
    {start end : Snapshot State Event}
    → proven start.state ≡ false
    → Reaches request_machine start end
    → end.state ≡ succeeded
    → PassedThrough request_machine proof_satisfied start end
succeeded_needs_proof outside run at =
    Reaches-gate proven proof_satisfied request_machine proven_gate outside run
      (subst (λ s. proven s ≡ true) (sym at) refl)

pub request-AllStatesKnown : AllStatesKnown request_machine
unfolding request_machine
request-AllStatesKnown = all_states_known request_machine refl

-- The events that lead out of any active state, and where each leads.
pub data Exit : Event → State → Type 0 where
  failing : Exit fail failed
  canceling : Exit cancel canceled
  expiring : Exit expire expired

found-Exit :
    (s : Scope) (a : State)
    → includes request_machine.terminal_states a ≡ false
    → {e : Event} {t : State} → Exit e t
    → find (fits s a e) request_machine.rules ≡ some (rule a e t transition)
unfolding request_machine
found-Exit s created h failing = refl
found-Exit s created h canceling = refl
found-Exit s awaiting_user h failing = refl
found-Exit s succeeded h x = cc
found-Exit s failed h x = cc
found-Exit s canceled h x = cc
found-Exit s expired h x = cc
found-Exit s _ h failing = refl
found-Exit s _ h canceling = refl
found-Exit s _ h expiring = refl

-- From every active state a request can be failed, canceled or expired: a command with one of those
-- events that passes the checks is applied, and leads to the terminal state of that name with the
-- next version and the same scope.
pub request_can_end :
    (current : Snapshot State Event) (command : Command Event) {t : State}
    → IsFresh request_machine current command
    → Exit command.event t
    → apply_transition request_machine current command
      ≡ ok (
        applied,
        record current {
          state = t;
          version = current.version + 1;
          last_event = some command.event;
        },
      )
request_can_end current command fresh exit =
    apply_fresh request_machine current command fresh
    ∙ ap (fire current command.event)
        (found-Exit current.scope current.state fresh.not_terminal exit)

abbrev signin_kept : Scope → Rule State Event → Bool
signin_kept s r =
    not (r.to == recovering)
    || r.from == recovering
    || not (guard_holds r.scope_guard s)
    || s.flow == signin

all_signin_kept : (s : Scope) → every (signin_kept s) request_machine.rules ≡ true
unfolding request_machine
all_signin_kept s = ground arith

signin_keeps :
    (s : Scope) (r : Rule State Event)
    → signin_kept s r ≡ true
    → guard_holds r.scope_guard s ≡ true
    → SigninOnly s r.from
    → SigninOnly s r.to
signin_keeps s r check permitted before to = ground (arith, before)

-- Only a sign-in request is ever in recovery: in a run from another state, a request that is
-- recovering has the flow `signin` in its scope.
pub recovering_is_signin :
    {start end : Snapshot State Event}
    → start.state ≢ recovering
    → Reaches request_machine start end
    → end.state ≡ recovering
    → end.scope.flow ≡ signin
recovering_is_signin {start} {end} other run at =
    Reaches-invariant SigninOnly request_machine
      (λ s r listed. signin_keeps s r (every-Memᴰ (signin_kept s) (all_signin_kept s) listed))
      (λ e. absurd (other e)) run at
