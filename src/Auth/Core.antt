-- ===== src/Auth/Core.antt =====
-- The transition reducer of backend/packages/contracts/src/hosted-auth-state-machine-core.ts.
-- Versions are naturals: the source's schema admits only non-negative integers. The source's
-- `throw` is the result `err`.
pub mod Reducer
pub mod Runs
use powerotp.Prelude.{
  ℕ, ◌+◌, Bool, true, false, not, ◌&&◌, Option, none, some, List, ◌==◌, HasEq, nat_eq,
  if◌then◌else◌, find, includes, Text,
}
use powerotp.Auth.Scope.{Scope, same_scope}

pub data Behavior : Type 0 where
  transition retry observe : Behavior

pub record Rule {ℓ κ} (S : Type ℓ) (E : Type κ) : Type (ℓ ⊔ κ) where
  pub from : S
  pub event : E
  pub to : S
  pub behavior : Behavior
  pub scope_guard : Option (Scope → Bool)

-- A rule with no guard on the scope.
abbrev pub rule {ℓ κ} : {S : Type ℓ} {E : Type κ} → S → E → S → Behavior → Rule S E
rule from event to behavior = record {
  from = from;
  event = event;
  to = to;
  behavior = behavior;
  scope_guard = none;
}

pub record Machine {ℓ κ} (S : Type ℓ) (E : Type κ) : Type (ℓ ⊔ κ) where
  pub name : Text
  pub scope_schema : Scope → Bool
  pub states : List S
  pub events : List E
  pub terminal_states : List S
  pub rules : List (Rule S E)

pub record Snapshot {ℓ κ} (S : Type ℓ) (E : Type κ) : Type (ℓ ⊔ κ) where
  pub scope : Scope
  pub state : S
  pub version : ℕ
  pub last_event : Option E

pub record Command {κ} (E : Type κ) : Type κ where
  pub scope : Scope
  pub event : E
  pub expected_version : ℕ

pub data Outcome : Type 0 where
  applied retry_started observed duplicate : Outcome

-- `malformed` is the error that a schema's `parse` throws; the others are the codes of
-- `HostedAuthTransitionError`.
pub data Error : Type 0 where
  malformed invalid_state invalid_event scope_mismatch : Error
  stale_transition terminal_immutable invalid_transition : Error

pub data Result {ℓ} (A : Type ℓ) : Type ℓ where
  ok : A → Result A
  err : Error → Result A

abbrev pub guard_holds : Option (Scope → Bool) → Scope → Bool
guard_holds none s = true
guard_holds (some g) s = g s

-- `command.event === current.lastEvent`
abbrev pub is_event {κ} : {E : Type κ} ⦃event_eq : HasEq E⦄ → E → Option E → Bool
is_event e none = false
is_event e (some last) = e == last

module _ {ℓ κ} {S : Type ℓ} {E : Type κ} ⦃state_eq : HasEq S⦄ ⦃event_eq : HasEq E⦄ where
  -- The test of `definition.rules.find`.
  abbrev pub fits : Scope → S → E → Rule S E → Bool
  fits scope state event r = r.from == state && r.event == event && guard_holds r.scope_guard scope

  -- The outcome and the new snapshot for the rule that was found.
  abbrev pub fire : Snapshot S E → E → Option (Rule S E) → Result (Outcome × Snapshot S E)
  fire current event none = err invalid_transition
  fire current event (some r) = elim r.behavior [
    | observe ↦ ok (observed, current)
    | transition ↦ ok (applied, advance)
    | retry ↦ ok (retry_started, advance)
  ]
    where
      advance : Snapshot S E
      advance = record {
        scope = current.scope;
        state = r.to;
        version = current.version + 1;
        last_event = some event;
      }

  -- `applyHostedAuthTransition`
  unfoldable pub apply_transition :
      Machine S E → Snapshot S E → Command E → Result (Outcome × Snapshot S E)
  apply_transition m current command =
      if not (m.scope_schema current.scope)
      then err malformed
      else if not (m.scope_schema command.scope)
      then err malformed
      else if not (includes m.states current.state)
      then err invalid_state
      else if not (includes m.events command.event)
      then err invalid_event
      else if not (same_scope current.scope command.scope)
      then err scope_mismatch
      else if command.expected_version + 1 == current.version
          && is_event command.event current.last_event
      then ok (duplicate, current)
      else if not (command.expected_version == current.version)
      then err stale_transition
      else if includes m.terminal_states current.state
      then err terminal_immutable
      else fire current command.event
          (find (fits current.scope current.state command.event) m.rules)
