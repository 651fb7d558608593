-- ===== src/Auth/Assurance/Paths.antt =====
-- The runs of a provider verification.
use powerotp.Prelude.{◌≡◌, refl, sym, subst, Bool, true, false, every}
use powerotp.Auth.Core.{Snapshot}
use powerotp.Auth.Core.Runs.{Reaches, PassedThrough, gated, Reaches-gate}
use powerotp.Auth.Assurance.{
  State, decision_received, indeterminate, not_satisfied, satisfied, Event, state_eq, event_eq,
  verification_machine,
}

-- The states that follow a decision of the provider.
abbrev pub decided : State → Bool
decided decision_received = true
decided satisfied = true
decided not_satisfied = true
decided indeterminate = true
decided _ = false

decided_gate : every (gated decided decision_received) verification_machine.rules ≡ true
unfolding verification_machine
decided_gate = refl

-- A verification that starts before any decision and ends in `satisfied` was in
-- `decision_received` on its way: a provider operation alone never satisfies it.
pub satisfied_needs_decision :
    {start end : Snapshot State Event}
    → decided start.state ≡ false
    → Reaches verification_machine start end
    → end.state ≡ satisfied
    → PassedThrough verification_machine decision_received start end
satisfied_needs_decision outside run at =
    Reaches-gate decided decision_received verification_machine decided_gate outside run
      (subst (λ s. decided s ≡ true) (sym at) refl)
