-- ===== src/Auth/Grant/Paths.antt =====
-- The runs of a credential grant.
use powerotp.Prelude.{◌≡◌, refl, sym, subst, Bool, true, false, every}
use powerotp.Auth.Core.{Snapshot}
use powerotp.Auth.Core.Runs.{Reaches, PassedThrough, gated, Reaches-gate}
use powerotp.Auth.Grant.{
  State, consumed, consuming, consumption_rejected, Event, state_eq, event_eq, grant_machine,
}

-- The states that follow the begin of a consumption.
abbrev pub begun : State → Bool
begun consuming = true
begun consumption_rejected = true
begun consumed = true
begun _ = false

begun_gate : every (gated begun consuming) grant_machine.rules ≡ true
unfolding grant_machine
begun_gate = refl

-- A grant that starts before its consumption and ends in `consumed` was in `consuming` on its way.
pub consumed_needs_begin :
    {start end : Snapshot State Event}
    → begun start.state ≡ false
    → Reaches grant_machine start end
    → end.state ≡ consumed
    → PassedThrough grant_machine consuming start end
consumed_needs_begin outside run at =
    Reaches-gate begun consuming grant_machine begun_gate outside run
      (subst (λ s. begun s ≡ true) (sym at) refl)
