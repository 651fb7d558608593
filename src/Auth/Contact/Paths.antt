-- ===== src/Auth/Contact/Paths.antt =====
-- The runs of a contact proof.
use powerotp.Prelude.{◌≡◌, refl, sym, subst, Bool, true, false, every}
use powerotp.Auth.Core.{Snapshot}
use powerotp.Auth.Core.Runs.{Reaches, PassedThrough, gated, Reaches-gate}
use powerotp.Auth.Contact.{
  State, proof_rejected, proof_submitted, verified, Event, state_eq, event_eq, contact_machine,
}

-- The states that follow a submitted proof.
abbrev pub submitted : State → Bool
submitted proof_submitted = true
submitted proof_rejected = true
submitted verified = true
submitted _ = false

submitted_gate : every (gated submitted proof_submitted) contact_machine.rules ≡ true
unfolding contact_machine
submitted_gate = refl

-- A contact that starts before any proof was submitted and ends in `verified` was in
-- `proof_submitted` on its way.
pub verified_needs_submission :
    {start end : Snapshot State Event}
    → submitted start.state ≡ false
    → Reaches contact_machine start end
    → end.state ≡ verified
    → PassedThrough contact_machine proof_submitted start end
verified_needs_submission outside run at =
    Reaches-gate submitted proof_submitted contact_machine submitted_gate outside run
      (subst (λ s. submitted s ≡ true) (sym at) refl)
