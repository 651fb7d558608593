-- ===== src/Verification/Service/Parts.antt =====
-- The steps around the conditional update: `transition` of
-- backend/packages/api/src/verification-service.ts.
use powerotp.Prelude.{
  inl, inr, Bool-cases, ap, ◌||◌, ◌&&◌, none, some, if◌then◌else◌, refl, ℕ, ◌≡◌, Option, ◌∷◌, arith,
  Bool, Text, text_eq, nat_eq,
}
use powerotp.Verification.State.{State, state_eq}
use powerotp.Verification.Store.{
  just_finished, is_given, store_found, Interaction, Event, World, Clock, record_transition,
  schedule_reconcile,
}
use powerotp.Verification.Store.Frame.{core, core-schedule_reconcile}
use powerotp.Verification.Service.{settle, complete}

-- What the service relies on from the charge of a delivery: it leaves the ids, types, states and
-- sequences of interactions alone, and writes no event, no callback and no look-up, whether it
-- returns or throws.
pub record ChargeKeeps (charge : Interaction → World → World × Bool) : Type 0 where
  pub keeps_core : (x : Interaction) (w : World) (j : Text) → core (charge x w).0 j ≡ core w j
  pub keeps_events : (x : Interaction) (w : World) → (charge x w).0.events ≡ w.events
  pub keeps_callbacks : (x : Interaction) (w : World) → (charge x w).0.callbacks ≡ w.callbacks
  pub keeps_reconciles : (x : Interaction) (w : World) → (charge x w).0.reconciles ≡ w.reconciles

schedule_reconcile_events :
    (w : World) (r : Interaction) → (schedule_reconcile w r).events ≡ w.events
unfolding schedule_reconcile
schedule_reconcile_events w r = ground arith

schedule_reconcile_callbacks :
    (w : World) (r : Interaction) → (schedule_reconcile w r).callbacks ≡ w.callbacks
unfolding schedule_reconcile
schedule_reconcile_callbacks w r = ground arith

pub reconciles-store_found :
    (w : World) (id : Text) (o : Option Interaction)
    → (store_found w id o).reconciles ≡ w.reconciles
reconciles-store_found w id none = refl
reconciles-store_found w id (some r) = refl

schedule_reconcile_reconciles :
    (w : World) (r : Interaction)
    → (schedule_reconcile w r).reconciles ≡ (
        if is_given r.call_trunk_id || is_given r.sms_did
        then r.id ∷ w.reconciles
        else w.reconciles)
unfolding schedule_reconcile
schedule_reconcile_reconciles w r =
    elim (Bool-cases (is_given r.call_trunk_id || is_given r.sms_did)) [
      | inl e ↦ rw e (ap (λ q. r.id ∷ q) (reconciles-store_found w r.id _))
      | inr e ↦ rw e refl
    ]

-- The event of a transition to `to`.
abbrev pub event_of : Text → ℕ → State → Option Text → Clock → Text → Event
event_of id sequence to reason clock event_id = record {
  event_id = event_id;
  interaction_id = id;
  sequence = sequence;
  state = to;
  reason_code = reason;
  occurred_at = clock.occurred;
}

module _ {charge : Interaction → World → World × Bool} (keeps : ChargeKeeps charge) where
  pub core-settle :
      (w : World) (r : Interaction) (j : Text) → core (settle charge w r).0 j ≡ core w j
  core-settle w r j = ground (arith, keeps.keeps_core r w j)

  pub events-settle : (w : World) (r : Interaction) → (settle charge w r).0.events ≡ w.events
  events-settle w r = ground (arith, keeps.keeps_events r w)

  pub callbacks-settle :
      (w : World) (r : Interaction) → (settle charge w r).0.callbacks ≡ w.callbacks
  callbacks-settle w r = ground (arith, keeps.keeps_callbacks r w)

  pub reconciles-settle :
      (w : World) (r : Interaction) → (settle charge w r).0.reconciles ≡ w.reconciles
  reconciles-settle w r = ground (arith, keeps.keeps_reconciles r w)

  module _ (current : Interaction) (to : State) (reason : Option Text) (clock : Clock)
      (event_id : Text) (r : Interaction) (w : World) where
    pub core-complete :
        (j : Text) → core (complete charge current to reason clock event_id (r, w)).0 j ≡ core w j
    unfolding record_transition
    core-complete j =
        let logged = record_transition w r to reason clock event_id in
        ground (
          arith,
          keeps.keeps_core r (schedule_reconcile logged r) j,
          core-schedule_reconcile logged r j,
        )

    pub events-complete :
        (complete charge current to reason clock event_id (r, w)).0.events
        ≡ event_of r.id r.sequence to reason clock event_id ∷ w.events
    unfolding record_transition
    events-complete =
        let logged = record_transition w r to reason clock event_id in
        ground (
          arith,
          keeps.keeps_events r (schedule_reconcile logged r),
          schedule_reconcile_events logged r,
        )

    pub callbacks-complete :
        (complete charge current to reason clock event_id (r, w)).0.callbacks
        ≡ (r.id, event_id) ∷ w.callbacks
    unfolding record_transition
    callbacks-complete =
        let logged = record_transition w r to reason clock event_id in
        ground (
          arith,
          keeps.keeps_callbacks r (schedule_reconcile logged r),
          schedule_reconcile_callbacks logged r,
        )

    -- A look-up at the provider is asked for only by the transition that finishes the delivery.
    pub reconciles-complete :
        (complete charge current to reason clock event_id (r, w)).0.reconciles ≡ (
          if just_finished current r && (is_given r.call_trunk_id || is_given r.sms_did)
          then r.id ∷ w.reconciles
          else w.reconciles)
    unfolding record_transition
    reconciles-complete =
        let logged = record_transition w r to reason clock event_id in
        ground (
          arith,
          keeps.keeps_reconciles r (schedule_reconcile logged r),
          schedule_reconcile_reconciles logged r,
        )
