-- ===== src/Billing/Charge/Minutes.antt =====
-- The billed minutes: `computeBillableMinutes` of backend/packages/api/src/billing-charge-service.ts.
use powerotp.Prelude.{ℕ, ◌-◌, ◌*◌, ◌≤◌, ◌<◌, List, none, some, find, ◌==◌, ◌≡◌, ◌⊎◌, refl, arith}
use powerotp.Verification.State.{answered, state_eq}
use powerotp.Billing.Charge.{Moment, last, compute_billable_minutes}

-- A call that was not answered has no minutes.
pub compute_billable_minutes_unanswered :
    (events : List Moment)
    → find (λ m. m.state == answered) events ≡ none
    → compute_billable_minutes events ≡ 0
unfolding compute_billable_minutes
compute_billable_minutes_unanswered events h = rw h refl

-- The minutes `n` cover the milliseconds `d`, are not zero, and none of them is more than needed.
abbrev pub Covers : ℕ → ℕ → Type 0
Covers n d = (1 ≤ n) × (d ≤ 60000 * n) × ((n ≡ 1) ⊎ (60000 * (n - 1) < d))

-- A call that was answered is billed for at least a minute, and for the least number of whole
-- minutes that covers the time from the first `answered` event to the last event.
pub compute_billable_minutes-Covers :
    (events : List Moment) (a z : Moment)
    → find (λ m. m.state == answered) events ≡ some a
    → last events ≡ some z
    → Covers (compute_billable_minutes events) (z.occurred_at - a.occurred_at)
unfolding compute_billable_minutes
compute_billable_minutes-Covers events a z first terminal = rw (first, terminal) (ground arith)
