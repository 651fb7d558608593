-- ===== src/Verification/Service/History.antt =====
-- The log of events beside the documents: `transition` of
-- backend/packages/api/src/verification-service.ts.
use mathlib.Core.Option.{some-injective}
use powerotp.Prelude.{
  ℕ, ◌+◌, ◌≡◌, refl, sym, ap, ◌∙◌, inl, inr, Bool, true, false, Option, some, List, [], ◌∷◌, ◌++◌,
  ◌==◌, nat_eq, ==→≡, if◌then◌else◌, Bool-cases, filter, Text, text_eq, Option-map,
}
use powerotp.Verification.State.{VerificationType, State, is_transition_allowed}
use powerotp.Verification.Store.{Interaction, Event, World, Clock, target_state, target_reason}
use powerotp.Verification.Store.Frame.{Core, core_of, core}
use powerotp.Verification.Service.{transition}
use powerotp.Verification.Service.Parts.{ChargeKeeps, event_of}
use powerotp.Verification.Service.Transition.{transition_whole}

abbrev pub events_of : Text → List Event → List Event
events_of id es = filter (λ (e : Event). e.interaction_id == id) es

-- Every document carries the id that it is stored under.
abbrev pub IsKeyed : World → Type 0
IsKeyed w =
    (j : Text) → Option-map (λ (c : Core). c.0) (core w j) ≡ Option-map (λ (c : Core). j) (core w j)

-- The events, latest first, of a way from one state to another: each is allowed after the one before
-- and has the next sequence number.
pub data Trace (t : VerificationType) (s : State) (n : ℕ) : List Event → State → ℕ → Type 0 where
  start : Trace t s n [] s n
  next :
      {es : List Event} {a : State} {m : ℕ} (e : Event)
      → Trace t s n es a m
      → is_transition_allowed t a e.state ≡ true
      → e.sequence ≡ m + 1
      → Trace t s n (e ∷ es) e.state (m + 1)

-- What happened to an interaction since it was in the state `s` with the sequence number `n` and the
-- events `before`.
pub record History (t : VerificationType) (s : State) (n : ℕ) (before : List Event) (id : Text)
    (w : World) : Type 0 where
  pub state : State
  pub sequence : ℕ
  pub log : List Event
  pub stored : core w id ≡ some (id, t, state, sequence)
  pub logged : events_of id w.events ≡ log ++ before
  pub trace : Trace t s n log state sequence

pub keyed_id : (w : World) (j : Text) {c : Core} → IsKeyed w → core w j ≡ some c → c.0 ≡ j
keyed_id w j {c} keyed e =
    some-injective _ _
      (sym (ap (Option-map (λ (d : Core). d.0)) e) ∙ keyed j ∙ ap (Option-map (λ (d : Core). j)) e)

pub events_of-kept :
    (j : Text) (e : Event) (es : List Event)
    → (e.interaction_id == j) ≡ true
    → events_of j (e ∷ es) ≡ e ∷ events_of j es
events_of-kept j e es h = rw h refl

pub events_of-dropped :
    (j : Text) (e : Event) (es : List Event)
    → (e.interaction_id == j) ≡ false
    → events_of j (e ∷ es) ≡ events_of j es
events_of-dropped j e es h = rw h refl

pub choose_keyed :
    (b : Bool) (j : Text) (c : Core) (o : Option Core)
    → (b ≡ true → c.0 ≡ j)
    → Option-map (λ (d : Core). d.0) o ≡ Option-map (λ (d : Core). j) o
    → Option-map (λ (d : Core). d.0) (if b then some c else o)
      ≡ Option-map (λ (d : Core). j) (if b then some c else o)
choose_keyed true j c o here there = ap some (here refl)
choose_keyed false j c o here there = there

module _ {charge : Interaction → World → World × Bool} (keeps : ChargeKeeps charge) where
  module _ (w : World) (id : Text) (to : State) (reason : Option Text) (clock : Clock)
      (event_id : Text) where
    pub transition-IsKeyed : IsKeyed w → IsKeyed (transition charge w id to reason clock event_id).0
    transition-IsKeyed keyed j = elim (transition_whole keeps w id to reason clock event_id) [
      | inl a ↦ rw (a.moves j) (
          choose_keyed (id == j) j _ (core w j)
            (λ same.
              keyed_id w id {c = core_of a.current} keyed (ap (Option-map core_of) a.found)
              ∙ ==→≡ id j same)
            (keyed j))
      | inr (same, _, _, _) ↦ rw (same j) (keyed j)
    ]

    pub transition-History :
        {t : VerificationType} {s : State} {n : ℕ} {before : List Event} (j : Text)
        → IsKeyed w
        → History t s n before j w
        → History t s n before j (transition charge w id to reason clock event_id).0
    transition-History {t} j keyed h = elim (transition_whole keeps w id to reason clock event_id) [
      | inl a ↦
          let current = core_of a.current in
          let known : core w id ≡ some current = ap (Option-map core_of) a.found in
          let own : a.current.id ≡ id = keyed_id w id keyed known in
          elim (Bool-cases (id == j)) [
            | inl same ↦
                let here : current ≡ (j, t, h.state, h.sequence) =
                  some-injective _ _ (sym known ∙ ap (core w) (==→≡ id j same) ∙ h.stored) in
                let event =
                  event_of a.current.id (a.current.sequence + 1)
                    (target_state a.current clock.checked to)
                    (target_reason a.current clock.checked reason) clock event_id in
                record {
                  state = target_state a.current clock.checked to;
                  sequence = h.sequence + 1;
                  log = event ∷ h.log;
                  stored =
                      a.moves j
                      ∙ rw same (
                          ap
                            (λ (c : Core).
                              some (c.0, c.1, target_state a.current clock.checked to, c.3 + 1))
                            here);
                  logged =
                      ap (events_of j) a.logs
                      ∙ events_of-kept j event w.events (ap (λ x. x == j) own ∙ same)
                      ∙ ap (λ es. event ∷ es) h.logged;
                  trace =
                      next event h.trace
                        (sym (
                            ap
                              (λ (c : Core).
                                is_transition_allowed c.1 c.2
                                  (target_state a.current clock.checked to))
                              here)
                          ∙ a.allowed)
                        (ap (λ (c : Core). c.3 + 1) here);
                }
            | inr other ↦ record {
              state = h.state;
              sequence = h.sequence;
              log = h.log;
              stored = a.moves j ∙ rw other h.stored;
              logged =
                  ap (events_of j) a.logs
                  ∙ events_of-dropped j _ w.events (ap (λ x. x == j) own ∙ other)
                  ∙ h.logged;
              trace = h.trace;
            }
          ]
      | inr (same, es, _, _) ↦ record {
        state = h.state;
        sequence = h.sequence;
        log = h.log;
        stored = same j ∙ h.stored;
        logged = ap (events_of j) es ∙ h.logged;
        trace = h.trace;
      }
    ]
