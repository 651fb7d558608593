-- ===== src/Verification/Service/Claimed.antt =====
-- The claims of nodes in the history of an interaction: `claimNextForNode` beside `transition` of
-- backend/packages/api/src/verification-service.ts.
use mathlib.Core.Option.{some-injective}
use powerotp.Prelude.{
  ℕ, ◌+◌, ◌≡◌, arith, refl, sym, ap, subst, ◌∙◌, inl, inr, Bool, true, Option, none, some, List, [],
  ◌∷◌, ◌==◌, ==→≡, if◌then◌else◌, Bool-cases, Option-cases, Text, text, text_eq, Option-map, get,
  includes,
}
use powerotp.Verification.State.{
  VerificationType, call_reachability, voice_code, voice_challenge, sms_code, email_code, State,
  dispatching, calling, is_transition_allowed, type_eq,
}
use powerotp.Verification.Store.{Interaction, Event, World, Clock}
use powerotp.Verification.Store.Frame.{Core, core_of, core}
use powerotp.Verification.Service.Parts.{event_of}
use powerotp.Verification.Service.History.{
  IsKeyed, History, next, events_of, events_of-kept, events_of-dropped, choose_keyed,
}
use powerotp.Verification.Delivery.{oldest, documents, is_claimable, claim_next_for_node}
use powerotp.Verification.Delivery.Claims.{Claimed, claim_next_for_node-Claimed}

-- The types that are delivered by a call.
abbrev pub is_call : VerificationType → Bool
is_call t = includes (call_reachability ∷ voice_code ∷ voice_challenge ∷ []) t

calling_allowed :
    (t : VerificationType) → is_call t ≡ true → is_transition_allowed t dispatching calling ≡ true
unfolding is_transition_allowed
calling_allowed call_reachability h = refl
calling_allowed voice_code h = refl
calling_allowed voice_challenge h = refl
calling_allowed sms_code h = cc
calling_allowed email_code h = cc

claim_empty :
    (w : World) (t : VerificationType) (clock : Clock) (event_id : Text)
    → (claim_next_for_node w t clock event_id).1 ≡ none
    → (claim_next_for_node w t clock event_id).0 ≡ w
unfolding claim_next_for_node
claim_empty w t clock event_id h =
    elim (Option-cases (oldest (is_claimable t clock.checked) (documents w))) [
      | inl nothing ↦ rw nothing refl
      | inr (x, found) ↦ let missed = rw found at h in cc
    ]

choose_core :
    (b : Bool) (c : Interaction) (o : Option Interaction)
    → Option-map core_of (if b then some c else o)
      ≡ (if b then some (core_of c) else Option-map core_of o)
choose_core b c o = ground arith

module _ {w : World} {t : VerificationType} {clock : Clock} {event_id : Text} {c : Interaction}
    {w' : World} (claim : Claimed w t clock event_id c w') where
  claimed_core :
      (j : Text)
      → core w' j ≡ (
          if claim.taken.id == j
          then some (claim.taken.id, t, calling, claim.taken.sequence + 1)
          else core w j)
  claimed_core j =
      ap (Option-map core_of) (claim.stores j)
      ∙ choose_core (claim.taken.id == j) c (get j w.requests)
      ∙ ap (λ x. if claim.taken.id == j then some (core_of x) else core w j) claim.claims
      ∙ ap
          (λ u.
            if claim.taken.id == j
            then some (claim.taken.id, u, calling, claim.taken.sequence + 1)
            else core w j)
          claim.of_type

  Claimed-IsKeyed : IsKeyed w → IsKeyed w'
  Claimed-IsKeyed keyed j =
      rw (claimed_core j)
        (choose_keyed (claim.taken.id == j) j _ (core w j) (λ same. ==→≡ _ _ same) (keyed j))

  Claimed-History :
      {u : VerificationType} {s : State} {n : ℕ} {before : List Event} (j : Text)
      → is_call t ≡ true
      → History u s n before j w
      → History u s n before j w'
  Claimed-History {u} j by_call h =
      let event =
        event_of claim.taken.id (claim.taken.sequence + 1) calling (some (text "node_claimed"))
          clock event_id in
      elim (Bool-cases (claim.taken.id == j)) [
        | inl same ↦
            let here : core_of claim.taken ≡ (j, u, h.state, h.sequence) = some-injective _ _ (
              sym (ap (Option-map core_of) claim.held)
              ∙ ap (core w) (==→≡ claim.taken.id j same)
              ∙ h.stored) in
            let of_type : t ≡ u = sym claim.of_type ∙ ap (λ (d : Core). d.1) here in
            record {
              state = calling;
              sequence = h.sequence + 1;
              log = event ∷ h.log;
              stored =
                  claimed_core j
                  ∙ rw same (
                      ap (λ v. some (claim.taken.id, v, calling, claim.taken.sequence + 1)) of_type
                      ∙ ap (λ (d : Core). some (d.0, u, calling, d.3 + 1)) here);
              logged =
                  ap (events_of j) claim.logs
                  ∙ events_of-kept j event w.events same
                  ∙ ap (λ es. event ∷ es) h.logged;
              trace =
                  next event h.trace
                    (ap (λ a. is_transition_allowed u a calling)
                        (sym (ap (λ (d : Core). d.2) here) ∙ claim.waits)
                      ∙ calling_allowed u (ap is_call (sym of_type) ∙ by_call))
                    (ap (λ (d : Core). d.3 + 1) here);
            }
        | inr other ↦ record {
          state = h.state;
          sequence = h.sequence;
          log = h.log;
          stored = claimed_core j ∙ rw other h.stored;
          logged =
              ap (events_of j) claim.logs ∙ events_of-dropped j event w.events other ∙ h.logged;
          trace = h.trace;
        }
      ]

-- A claim of a call keeps the history of every interaction: what it does is one of the moves that
-- the machine allows.
pub claim-History :
    (w : World) (t : VerificationType) (clock : Clock) (event_id : Text) {u : VerificationType}
    {s : State} {n : ℕ} {before : List Event} (j : Text)
    → is_call t ≡ true
    → IsKeyed w
    → History u s n before j w
    → IsKeyed (claim_next_for_node w t clock event_id).0
      × History u s n before j (claim_next_for_node w t clock event_id).0
claim-History w t clock event_id {u} {s} {n} {before} j by_call keyed h =
    elim (Option-cases (claim_next_for_node w t clock event_id).1) [
      | inl nothing ↦
          subst (λ v. IsKeyed v × History u s n before j v)
            (sym (claim_empty w t clock event_id nothing)) (keyed, h)
      | inr (c, taken) ↦
          let claim = claim_next_for_node-Claimed w t clock event_id c keyed taken in
          (Claimed-IsKeyed claim keyed, Claimed-History claim j by_call h)
    ]
