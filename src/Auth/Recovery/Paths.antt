-- ===== src/Auth/Recovery/Paths.antt =====
-- The runs of an account recovery.
use powerotp.Prelude.{◌≡◌, refl, sym, subst, Bool, true, false, every}
use powerotp.Auth.Core.{Snapshot}
use powerotp.Auth.Core.Runs.{Reaches, PassedThrough, gated, Reaches-gate}
use powerotp.Auth.Recovery.{
  State, completed, grant_issued, proof_satisfied, Event, state_eq, event_eq, recovery_machine,
}

-- The states that follow an accepted proof or a completed delay.
abbrev pub proven : State → Bool
proven proof_satisfied = true
proven grant_issued = true
proven completed = true
proven _ = false

proven_gate : every (gated proven proof_satisfied) recovery_machine.rules ≡ true
unfolding recovery_machine
proven_gate = refl

-- A recovery that starts before its proof and ends in `completed` was in `proof_satisfied` on its
-- way, whether or not it went through the security delay.
pub completed_needs_proof :
    {start end : Snapshot State Event}
    → proven start.state ≡ false
    → Reaches recovery_machine start end
    → end.state ≡ completed
    → PassedThrough recovery_machine proof_satisfied start end
completed_needs_proof outside run at =
    Reaches-gate proven proof_satisfied recovery_machine proven_gate outside run
      (subst (λ s. proven s ≡ true) (sym at) refl)
