-- ===== src/Billing/Charge/Keeps.antt =====
-- The charge as the verification service calls it: `chargeCompletedInteraction` of
-- backend/packages/api/src/billing-charge-service.ts.
use powerotp.Prelude.{
  ℕ, Bool, true, false, Option, none, some, Option-map, Bool-cases, inl, inr, refl, ◌≡◌, Text,
  text_eq, get, ◌==◌, not, List,
}
use powerotp.Verification.Store.{Interaction, World, store_found, was_attempted}
use powerotp.Verification.Store.Frame.{core, core_of, core-store_found}
use powerotp.Verification.Service.Parts.{ChargeKeeps, reconciles-store_found}
use powerotp.Billing.Rates.{Rates}
use powerotp.Billing.Books.{Books, Entry, platform_admin_user_id}
use powerotp.Billing.Ledger.Apply.{Outcome, applied, refused}
use powerotp.Billing.Charge.{
  ChargeTry, charge_completed_interaction, set_applied, applied_at, after_charge,
}

applied_at-core :
    (now : ℕ) (o : Option Interaction)
    → Option-map core_of (Option-map (applied_at now) o) ≡ Option-map core_of o
applied_at-core now none = refl
applied_at-core now (some r) = refl

-- What the caller of a charge sees: the stored interactions, and whether it returned or threw.
abbrev pub reported : World × Books × Outcome (Unit {0}) → World × Bool
reported (w, books, applied done) = (w, true)
reported (w, books, refused e) = (w, false)

-- The world after a charge: the one before, or the one with the interaction marked as applied.
module _ (country_for_e164 : Text → Option Text) (rates : Rates) (books : Books)
    (try : ChargeTry) where
  abbrev charged : Interaction → World → World × Bool
  charged x w = reported (charge_completed_interaction country_for_e164 rates w books x try)

  module _ (P : World → Type 0) (x : Interaction) (w : World) (same : P w)
      (marked : P (set_applied try.now x.id w)) where
    after_charge_ind :
        (made : Books × Outcome (List Entry)) → P (reported (after_charge w x.id try.now made)).0
    after_charge_ind (after, applied rows) = marked
    after_charge_ind (after, refused e) = same

    charged_ind : P (charged x w).0
    unfolding charge_completed_interaction
    charged_ind = elim (Bool-cases (x.customer_id == platform_admin_user_id)) [
      | inl admin ↦ rw (charged, admin) marked
      | inr other ↦ elim (Bool-cases (not (was_attempted x))) [
        | inl idle ↦ rw (charged, other, idle) same
        | inr tried ↦ rw (charged, other, tried) (after_charge_ind _)
      ]
    ]

events-store_found :
    (w : World) (id : Text) (o : Option Interaction) → (store_found w id o).events ≡ w.events
events-store_found w id none = refl
events-store_found w id (some r) = refl

callbacks-store_found :
    (w : World) (id : Text) (o : Option Interaction) → (store_found w id o).callbacks ≡ w.callbacks
callbacks-store_found w id none = refl
callbacks-store_found w id (some r) = refl

-- The charge that is injected into the verification service is one as the service expects: it
-- leaves the ids, types, states and sequences of all interactions alone, and writes no event, no
-- callback and no look-up, whatever the books hold and whether or not the ledger refuses it.
pub charge_completed_interaction-ChargeKeeps :
    (country_for_e164 : Text → Option Text) (rates : Rates) (books : Books) (try : ChargeTry)
    → ChargeKeeps
        (λ x w. reported (charge_completed_interaction country_for_e164 rates w books x try))
charge_completed_interaction-ChargeKeeps country_for_e164 rates books try =
    let ind = charged_ind country_for_e164 rates books try in
    record {
      keeps_core = λ x w j.
          ind (λ v. core v j ≡ core w j) x w refl
            (core-store_found w x.id j _ (applied_at-core try.now (get x.id w.requests)));
      keeps_events = λ x w. ind (λ v. v.events ≡ w.events) x w refl (events-store_found w x.id _);
      keeps_callbacks =
          λ x w. ind (λ v. v.callbacks ≡ w.callbacks) x w refl (callbacks-store_found w x.id _);
      keeps_reconciles =
          λ x w. ind (λ v. v.reconciles ≡ w.reconciles) x w refl (reconciles-store_found w x.id _);
    }
