-- ===== src/Auth/Webauthn/Paths.antt =====
-- The runs of a WebAuthn ceremony.
use powerotp.Prelude.{◌≡◌, refl, sym, subst, Bool, true, false, every}
use powerotp.Auth.Core.{Snapshot}
use powerotp.Auth.Core.Runs.{Reaches, PassedThrough, gated, Reaches-gate}
use powerotp.Auth.Webauthn.{
  State, challenge_rejected, verified, verifying, Event, state_eq, event_eq, webauthn_machine,
}

-- The states that follow a response.
abbrev pub answered : State → Bool
answered verifying = true
answered challenge_rejected = true
answered verified = true
answered _ = false

answered_gate : every (gated answered verifying) webauthn_machine.rules ≡ true
unfolding webauthn_machine
answered_gate = refl

-- A ceremony that starts before any response and ends in `verified` was in `verifying` on its way:
-- an issued challenge alone never verifies.
pub verified_needs_response :
    {start end : Snapshot State Event}
    → answered start.state ≡ false
    → Reaches webauthn_machine start end
    → end.state ≡ verified
    → PassedThrough webauthn_machine verifying start end
verified_needs_response outside run at =
    Reaches-gate answered verifying webauthn_machine answered_gate outside run
      (subst (λ s. answered s ≡ true) (sym at) refl)
