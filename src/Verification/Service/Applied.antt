-- ===== src/Verification/Service/Applied.antt =====
-- The effect of `transition` of backend/packages/api/src/verification-service.ts as a record.
use powerotp.Prelude.{
  ◌+◌, ◌≡◌, ap, ◌∙◌, ◌⊎◌, Bool, true, Option, some, ◌∷◌, ◌==◌, ==_refl, if◌then◌else◌, Text,
  text_eq, nat_eq, get,
}
use powerotp.Verification.State.{State, state_eq, is_transition_allowed}
use powerotp.Verification.Store.{
  finishes_delivery, Interaction, World, Clock, target_state, target_reason,
}
use powerotp.Verification.Store.Frame.{core}
use powerotp.Verification.Service.Parts.{event_of}

-- What an applied transition leaves: the interaction alone has moved, where the machine allows it,
-- with one event and one callback.
pub record Applied (w : World) (id : Text) (to : State) (reason : Option Text) (clock : Clock)
    (event_id : Text) (w' : World) : Type 0 where
  pub current : Interaction
  pub found : get id w.requests ≡ some current
  pub allowed :
      is_transition_allowed current.type current.state (target_state current clock.checked to)
      ≡ true
  pub moves :
      (j : Text)
      → core w' j ≡ (
          if id == j
          then some (
            current.id,
            current.type,
            target_state current clock.checked to,
            current.sequence + 1,
          )
          else core w j)
  pub logs :
      w'.events
      ≡ event_of current.id
          (current.sequence + 1)
          (target_state current clock.checked to)
          (target_reason current clock.checked reason)
          clock
          event_id
        ∷ w.events
  pub calls_back : w'.callbacks ≡ (current.id, event_id) ∷ w.callbacks
  pub looks_up :
      (w'.reconciles ≡ w.reconciles)
      ⊎ ((finishes_delivery current.type current.state (target_state current clock.checked to)
            ≡ true)
          × (w'.reconciles ≡ current.id ∷ w.reconciles))

pub arrives :
    {w : World} {id : Text} {to : State} {reason : Option Text} {clock : Clock} {event_id : Text}
    {w' : World} (a : Applied w id to reason clock event_id w')
    → core w' id
      ≡ some (
        a.current.id,
        a.current.type,
        target_state a.current clock.checked to,
        a.current.sequence + 1,
      )
arrives {w} {id} {to} {clock = clock} a =
    a.moves id
    ∙ ap
        (λ (b : Bool).
          if b
          then some (
            a.current.id,
            a.current.type,
            target_state a.current clock.checked to,
            a.current.sequence + 1,
          )
          else core w id)
        (==_refl id)
