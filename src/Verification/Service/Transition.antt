-- ===== src/Verification/Service/Transition.antt =====
-- One call of `transition` of backend/packages/api/src/verification-service.ts.
use mathlib.Core.Bool.{and-eq-true_iff}
use mathlib.Core.Option.{some-injective}
use powerotp.Prelude.{
  not, ◌&&◌, ◌||◌, ◌+◌, ◌≡◌, refl, sym, ap, ap₂, ◌∙◌, ◌⊎◌, inl, inr, Bool, true, false, Option,
  none, some, List, ◌∷◌, arith, ◌==◌, if◌then◌else◌, Bool-cases, Text, text_eq, nat_eq, get,
  Option-map,
}
use powerotp.Verification.State.{
  has_reached_awaiting_response, State, state_eq, is_transition_allowed,
}
use powerotp.Verification.Store.{
  finishes_delivery, just_finished, is_given, Interaction, Event, World, Clock, target_state,
  target_reason, commit,
}
use powerotp.Verification.Store.Frame.{
  Core, core_of, core, core-store, Commits, commit-Commits, commit_stale,
}
use powerotp.Verification.Service.{
  Result, ok, err, charge_failed, unless_thrown, after_settling, settle, complete, conclude,
  transition_found, transition,
}
use powerotp.Verification.Service.Parts.{
  reconciles-settle, reconciles-complete, ChargeKeeps, event_of, core-settle, events-settle,
  callbacks-settle, core-complete, events-complete, callbacks-complete,
}
use powerotp.Verification.Service.Applied.{Applied, arrives}

module _ {charge : Interaction → World → World × Bool} (keeps : ChargeKeeps charge) where
  module _ (w : World) (id : Text) (to : State) (reason : Option Text) (clock : Clock)
      (event_id : Text) where
    -- The commit of a settled world, described from the document that was read before.
    committed :
        (current : Interaction) {r : Interaction} {w' : World}
        → get id w.requests ≡ some current
        → Commits (settle charge w current).0 id current to reason clock r w'
        → (core_of r ≡ (current.id, current.type, to, current.sequence + 1))
          × ((j : Text)
              → core w' j
                ≡ (if id == j then some (core_of r) else core (settle charge w current).0 j))
    committed current {r} {w'} read c =
        let same : core_of c.stored ≡ core_of current = some-injective _ _ (
          sym (ap (Option-map core_of) c.found)
          ∙ core-settle keeps w current id
          ∙ ap (Option-map core_of) read) in
        (
          ap core_of c.written ∙ ap (λ (p : Core). (p.0, p.1, to, current.sequence + 1)) same,
          λ j. ap (λ (v : World). core v j) c.world ∙ core-store (settle charge w current).0 id j r,
        )

  module _ (w : World) (id : Text) (to : State) (reason : Option Text) (clock : Clock)
      (event_id : Text) where
    abbrev pub Unchanged : World → Type 0
    Unchanged w' =
        ((j : Text) → core w' j ≡ core w j)
        × (w'.events ≡ w.events)
        × (w'.callbacks ≡ w.callbacks)
        × (w'.reconciles ≡ w.reconciles)

    -- What a transition left: it reports true when it was applied and false when nothing
    -- changed, and it throws in one case or the other, when a charge throws.
    abbrev Outcome : World × Result Bool → Type 0
    Outcome (w', answer) =
        ((answer ≡ ok true) × Applied w id to reason clock event_id w')
        ⊎ ((answer ≡ ok false) × Unchanged w')
        ⊎ ((answer ≡ err charge_failed) × (Applied w id to reason clock event_id w' ⊎ Unchanged w'))

    completed :
        (current : Interaction) (r : Interaction) (v : World)
        → get id w.requests ≡ some current
        → is_transition_allowed current.type current.state (target_state current clock.checked to)
          ≡ true
        → Commits
            (settle charge w current).0
            id
            current
            (target_state current clock.checked to)
            (target_reason current clock.checked reason)
            clock
            r
            v
        → Applied w id to reason clock event_id
            (complete charge current
              (target_state current clock.checked to)
              (target_reason current clock.checked reason)
              clock
              event_id
              (r, v)).0
    completed current r v read allowed c =
        let to' = target_state current clock.checked to in
        let reason' = target_reason current clock.checked reason in
        let (fields, cores) = committed w id to' reason' clock event_id current read c in
        record {
          current = current;
          found = read;
          allowed = allowed;
          moves = λ j.
              core-complete keeps current to' reason' clock event_id r v j
              ∙ cores j
              ∙ ap (λ c. if id == j then some c else core (settle charge w current).0 j) fields
              ∙ ap
                  (λ o.
                    if id == j
                    then some (current.id, current.type, to', current.sequence + 1)
                    else o)
                  (core-settle keeps w current j);
          logs =
              events-complete keeps current to' reason' clock event_id r v
              ∙ ap₂
                  (λ (c : Core) (es : List Event). event_of c.0 c.3 to' reason' clock event_id ∷ es)
                  fields (ap (λ (u : World). u.events) c.world ∙ events-settle keeps w current);
          calls_back =
              callbacks-complete keeps current to' reason' clock event_id r v
              ∙ ap₂ (λ (c : Core) (cs : List (Text × Text)). (c.0, event_id) ∷ cs) fields
                  (ap (λ (u : World). u.callbacks) c.world ∙ callbacks-settle keeps w current);
          looks_up =
              let asked = reconciles-complete keeps current to' reason' clock event_id r v in
              let before =
                ap (λ (u : World). u.reconciles) c.world ∙ reconciles-settle keeps w current in
              let finishing : just_finished current r
                  ≡ finishes_delivery current.type current.state to' =
                ap
                  (λ (x : Core).
                    not (has_reached_awaiting_response current.type current.state)
                    && has_reached_awaiting_response x.1 x.2)
                  fields in
              elim (Bool-cases
                (just_finished current r && (is_given r.call_trunk_id || is_given r.sms_did))) [
                  | inl finished ↦ inr (
                    sym finishing
                        ∙ ((and-eq-true_iff (just_finished current r)
                              (is_given r.call_trunk_id || is_given r.sms_did)).0
                            finished).0,
                    (rw finished at asked) ∙ ap₂ (λ (x : Core) rs. x.0 ∷ rs) fields before,
                  )
                  | inr neither ↦ inl ((rw neither at asked) ∙ before)
                ];
        }

    settle-Unchanged : (current : Interaction) → Unchanged (settle charge w current).0
    settle-Unchanged current = (
      core-settle keeps w current,
      events-settle keeps w current,
      callbacks-settle keeps w current,
      reconciles-settle keeps w current,
    )

    unless_thrown-Outcome :
        (p : World × Bool)
        → Applied w id to reason clock event_id p.0
        → Outcome (unless_thrown charge p)
    unless_thrown-Outcome (w', true) a = inl (refl, a)
    unless_thrown-Outcome (w', false) a = inr (inr (refl, inl a))

    conclude-Outcome :
        (current : Interaction) (o : Option (Interaction × World))
        → get id w.requests ≡ some current
        → is_transition_allowed current.type current.state (target_state current clock.checked to)
          ≡ true
        → commit
            (settle charge w current).0
            id
            current
            (target_state current clock.checked to)
            (target_reason current clock.checked reason)
            clock
          ≡ o
        → Outcome (
            conclude charge
              (settle charge w current).0
              current
              (target_state current clock.checked to)
              (target_reason current clock.checked reason)
              clock
              event_id
              o)
    conclude-Outcome current none read allowed done = inr (inl (refl, settle-Unchanged current))
    conclude-Outcome current (some (r, v)) read allowed done =
        unless_thrown-Outcome _
          (completed current r v read allowed (commit-Commits _ id current _ _ clock done))

    after_settling-Outcome :
        (current : Interaction) (returned : Bool)
        → get id w.requests ≡ some current
        → Outcome (
            after_settling charge
              ((settle charge w current).0, returned)
              id
              current
              (target_state current clock.checked to)
              (target_reason current clock.checked reason)
              clock
              event_id)
    after_settling-Outcome current false read = inr (inr (refl, inr (settle-Unchanged current)))
    after_settling-Outcome current true read =
        elim (Bool-cases (
          is_transition_allowed current.type current.state
            (target_state current clock.checked to))) [
              | inl allowed ↦ rw allowed (conclude-Outcome current _ read allowed refl)
              | inr refused ↦ rw refused (inr (inl (refl, settle-Unchanged current)))
            ]

    transition-Outcome :
        (o : Option Interaction)
        → get id w.requests ≡ o
        → Outcome (transition_found charge w id o to reason clock event_id)
    transition-Outcome none read = inr (inl (refl, (λ j. refl, refl, refl, refl)))
    transition-Outcome (some current) read =
        after_settling-Outcome current (settle charge w current).1 read

    -- A transition that reports true has found the interaction, and the machine allows the
    -- target that the expiry test settles on; the interaction has that state and the next
    -- sequence number, no other interaction changed its type, state or sequence, one
    -- event and one callback were written, and a look-up was queued only at the end of the
    -- delivery. The charge has to be one that `ChargeKeeps`
    -- describes.
    pub transition_applied :
        (transition charge w id to reason clock event_id).1 ≡ ok true
        → Applied w id to reason clock event_id (transition charge w id to reason clock event_id).0
    unfolding transition
    transition_applied h = elim (transition-Outcome (get id w.requests) refl) [
      | inl (_, applied) ↦ applied
      | inr (inl (refused, _)) ↦ cc
      | inr (inr (threw, _)) ↦ cc
    ]

    -- A transition that reports false leaves the type, state and sequence of every
    -- interaction, the events, the callbacks and the look-ups as they were. The charge has to be one that
    -- `ChargeKeeps` describes.
    pub transition_refused :
        (transition charge w id to reason clock event_id).1 ≡ ok false
        → Unchanged (transition charge w id to reason clock event_id).0
    unfolding transition
    transition_refused h = elim (transition-Outcome (get id w.requests) refl) [
      | inl (applied, _) ↦ cc
      | inr (inl (_, unchanged)) ↦ unchanged
      | inr (inr (threw, _)) ↦ cc
    ]

    -- Whatever a transition reports or throws, it is applied as a whole or leaves the interactions,
    -- the events, the callbacks and the look-ups as they were. The charge has to be one that
    -- `ChargeKeeps` describes.
    pub transition_whole :
        Applied w id to reason clock event_id (transition charge w id to reason clock event_id).0
        ⊎ Unchanged (transition charge w id to reason clock event_id).0
    unfolding transition
    transition_whole = elim (transition-Outcome (get id w.requests) refl) [
      | inl (_, applied) ↦ inl applied
      | inr (inl (_, unchanged)) ↦ inr unchanged
      | inr (inr (_, either)) ↦ either
    ]

    -- An update that rests on a document read before a transition of the interaction was
    -- applied finds no document, whatever it asks for. The charge has to be one that
    -- `ChargeKeeps` describes.
    pub transition_race :
        (current : Interaction) (to' : State) (reason' : Option Text) (clock' : Clock)
        → get id w.requests ≡ some current
        → (transition charge w id to reason clock event_id).1 ≡ ok true
        → commit (transition charge w id to reason clock event_id).0 id current to' reason' clock'
          ≡ none
    transition_race current to' reason' clock' read h =
        let a = transition_applied h in
        let moved_on = arrives a in
        let same = ap (λ (r : Interaction). r.sequence) (some-injective _ _ (sym a.found ∙ read)) in
        commit_stale _ id current to' reason' clock' moved_on (λ e. omega (arith, e, same))
