-- ===== src/Verification/Service/Submission.antt =====
-- Submissions of codes and what both kinds of submission share: `submitCode` and `#requireActive` of
-- backend/packages/api/src/verification-service.ts.
use mathlib.Core.Option.{some-injective, none-ne-some}
use powerotp.Prelude.{
  ◌⊎◌, ℕ, ◌+◌, ◌≡◌, refl, sym, ap, ap₂, ◌∙◌, inl, inr, Bool, true, false, Option, some, List, [],
  ◌∷◌, arith, ◌==◌, nat_eq, ==→≡, ==_refl, if◌then◌else◌, Bool-cases, Option-cases, includes, Text,
  text, text_eq, get, Option-map,
}
use powerotp.Verification.State.{
  VerificationType, voice_code, sms_code, email_code, State, awaiting_response, succeeded, failed,
  type_eq, state_eq, has_reached_awaiting_response, is_terminal_state, is_transition_allowed,
}
use powerotp.Verification.Store.{Interaction, World, Clock, target_reason, target_state, commit}
use powerotp.Verification.Store.Frame.{Core, core_of, core}
use powerotp.Verification.Service.{
  charge_failed, after_settling, Error, verification_already_resolved, Result, ok, err,
  require_active, settle, transition, resolve, code_matches, submit_code,
}
use powerotp.Verification.Service.Parts.{ChargeKeeps, core-settle}
use powerotp.Verification.Service.Applied.{Applied, arrives}
use powerotp.Verification.Service.Transition.{transition_applied}

-- A stored document of the same core, from the core of the world.
pub of_core :
    (w : World) (id : Text) {c : Core}
    → core w id ≡ some c
    → (r : Interaction) × (get id w.requests ≡ some r) × (core_of r ≡ c)
of_core w id {c} e = elim (Option-cases (get id w.requests)) [
  | inl gone ↦ absurd (none-ne-some _ (rw gone at e))
  | inr (r, found) ↦ (r, found, some-injective _ _ (ap (Option-map core_of) (sym found) ∙ e))
]

-- What a submission that was answered with `b` has done to the interaction, which waited for a
-- response.
pub record Answered (w : World) (id : Text) (r : Interaction) (clock : Clock) (b : Bool)
    (w' : World) : Type 0 where
  pub found : get id w.requests ≡ some r
  pub waited : r.state ≡ awaiting_response
  pub arrived :
      core w' id
      ≡ some (
        r.id,
        r.type,
        target_state r clock.checked (if b then succeeded else failed),
        r.sequence + 1,
      )

pub result_cases :
    {A : Type 0} (o : Result A) → ((e : Error) × (o ≡ err e)) ⊎ ((a : A) × (o ≡ ok a))
result_cases (ok a) = inr (a, refl)
result_cases (err e) = inl (e, refl)

module _ {charge : Interaction → World → World × Bool} (keeps : ChargeKeeps charge) where
  landed :
      (current : Interaction) (to : State) (reason : Option Text) (clock : Clock) (event_id : Text)
      (w : World) (id : Text) (returned : Bool)
      → core w id ≡ some (core_of current)
      → is_transition_allowed current.type current.state to ≡ true
      → has_reached_awaiting_response current.type current.state ≡ true
      → (after_settling charge (w, returned) id current to reason clock event_id).1
        ≡ (if returned then ok true else err charge_failed)
  unfolding commit
  landed current to reason clock event_id w id false stored allowed reached = refl
  landed current to reason clock event_id w id true stored allowed reached =
      let (r, here, same) = of_core w id stored in
      let same_state : (r.state == current.state) ≡ true =
        ap (λ (c : Core). c.2 == current.state) same ∙ ==_refl current.state in
      let same_sequence : (r.sequence == current.sequence) ≡ true =
        ap (λ (c : Core). c.3 == current.sequence) same ∙ ==_refl current.sequence in
      rw (allowed, here, same_state, same_sequence, reached) refl

  -- A transition of a stored interaction that the machine allows after the delivery is applied, when
  -- nothing comes between, unless the charge that is still owed throws. The charge has to be one
  -- that `ChargeKeeps` describes.
  pub transition_lands :
      (w : World) (id : Text) (to : State) (reason : Option Text) (clock : Clock) (event_id : Text)
      (current : Interaction)
      → get id w.requests ≡ some current
      → is_transition_allowed current.type current.state (target_state current clock.checked to)
        ≡ true
      → has_reached_awaiting_response current.type current.state ≡ true
      → (transition charge w id to reason clock event_id).1
        ≡ (if (settle charge w current).1 then ok true else err charge_failed)
  unfolding transition
  transition_lands w id to reason clock event_id current found allowed reached = rw found (
      landed current (target_state current clock.checked to)
        (target_reason current clock.checked reason) clock event_id (settle charge w current).0 id
        (settle charge w current).1 (core-settle keeps w current id ∙ ap (Option-map core_of) found)
        allowed reached)

  -- The end of a submission: what it stored, and that the report is the verdict.
  resolve_inv :
      (w : World) (id : Text) (correct : Bool) (matching mismatching : Text) (clock : Clock)
      (event_id : Text) (b : Bool)
      → (resolve charge w id correct matching mismatching clock event_id).1 ≡ ok b
      → (b ≡ correct)
        × Applied w id
            (if correct then succeeded else failed)
            (some (if correct then matching else mismatching))
            clock
            event_id
            (resolve charge w id correct matching mismatching clock event_id).0
  resolve_inv w id correct matching mismatching clock event_id b h =
      let to = if correct then succeeded else failed in
      let reason = some (if correct then matching else mismatching) in
      elim (result_cases (transition charge w id to reason clock event_id).1) [
        | inl (e, threw) ↦ let reported = rw threw at h in cc
        | inr (applied, done) ↦ elim (Bool-cases applied) [
          | inl granted ↦
              let reported = rw (done, granted) at h in
              (cc, transition_applied keeps w id to reason clock event_id (done ∙ ap ok granted))
          | inr denied ↦ let reported = rw (done, denied) at h in cc
        ]
      ]

  pub answered :
      (w : World) (id : Text) (correct : Bool) (matching mismatching : Text) (clock : Clock)
      (event_id : Text) (b : Bool) (r : Interaction) (p : World × Result Bool)
      → get id w.requests ≡ some r
      → r.state ≡ awaiting_response
      → p ≡ resolve charge w id correct matching mismatching clock event_id
      → p.1 ≡ ok b
      → Answered w id r clock b p.0 × (b ≡ correct)
  answered w id correct matching mismatching clock event_id b r p found waited e h =
      let (verdict, a) =
        resolve_inv w id correct matching mismatching clock event_id b
          (sym (ap (λ (q : World × Result Bool). q.1) e) ∙ h) in
      let same : a.current ≡ r = some-injective _ _ (sym a.found ∙ found) in
      (
        record {
          found = found;
          waited = waited;
          arrived =
              ap (λ (q : World × Result Bool). core q.0 id) e
              ∙ arrives a
              ∙ ap₂
                  (λ (c : Interaction) (v : Bool). some (
                    c.id,
                    c.type,
                    target_state c clock.checked (if v then succeeded else failed),
                    c.sequence + 1,
                  ))
                  same (sym verdict);
        },
        verdict,
      )

  pub target_state-terminal :
      (r : Interaction) (now : ℕ) (b : Bool)
      → is_terminal_state (target_state r now (if b then succeeded else failed)) ≡ true
  unfolding is_terminal_state
  target_state-terminal r now b = ground arith

  pub answered_closes :
      (w : World) (id : Text) (r : Interaction) (clock : Clock) (b : Bool) (w' : World)
      (allowed : List VerificationType)
      → Answered w id r clock b w'
      → includes allowed r.type ≡ true
      → require_active w' id allowed ≡ err verification_already_resolved
  unfolding require_active
  answered_closes w id r clock b w' allowed a takes =
      let (r', found, same) = of_core w' id a.arrived in
      let takes' : includes allowed r'.type ≡ true =
        ap (λ (c : Core). includes allowed c.1) same ∙ takes in
      let closed : is_terminal_state r'.state ≡ true =
        ap (λ (c : Core). is_terminal_state c.2) same ∙ target_state-terminal r clock.checked b in
      rw (found, takes', closed) refl

  module _ (decrypt : Text → Option Text) (utf8 : Text → List ℕ) (w : World) (id code : Text)
      (clock : Clock) (event_id : Text) where
    -- A code submission that is answered found an interaction that delivers a code and waits for it,
    -- the answer is whether the code matches, and the interaction has moved on.
    pub submit_code_answers :
        (b : Bool)
        → (submit_code charge decrypt utf8 w id code clock event_id).1 ≡ ok b
        → (r : Interaction) × Answered w id r clock b
            (submit_code charge decrypt utf8 w id code clock event_id).0
          × (includes (voice_code ∷ sms_code ∷ email_code ∷ []) r.type ≡ true)
          × (code_matches decrypt utf8 r.expected_code_encrypted code ≡ ok b)
    unfolding submit_code require_active
    submit_code_answers b h = elim (Option-cases (get id w.requests)) [
      | inl gone ↦ let reported = rw gone at h in cc
      | inr (r, found) ↦
          elim (Bool-cases (includes (voice_code ∷ sms_code ∷ email_code ∷ []) r.type)) [
            | inl takes_code ↦ elim (Bool-cases (is_terminal_state r.state)) [
              | inl terminal ↦ let reported = rw (found, takes_code, terminal) at h in cc
              | inr active ↦ elim (Bool-cases (r.state == awaiting_response)) [
                | inl waiting ↦
                    elim (result_cases (code_matches decrypt utf8 r.expected_code_encrypted code)) [
                      | inl (e, threw) ↦
                          let reported = rw (found, takes_code, active, waiting, threw) at h in cc
                      | inr (correct, verdict) ↦
                          let (a, same) =
                            answered w id correct (text "code_matched") (text "code_mismatch") clock
                              event_id b r _ found (==→≡ _ _ waiting)
                              (rw (found, takes_code, active, waiting, verdict) refl) h in
                          (r, a, takes_code, verdict ∙ ap ok (sym same))
                    ]
                | inr elsewhere ↦
                    let reported = rw (found, takes_code, active, elsewhere) at h in cc
              ]
            ]
            | inr other_type ↦ let reported = rw (found, other_type) at h in cc
          ]
    ]

    submit_code_refused :
        (w' : World) (id' code' : Text) (clock' : Clock) (event_id' : Text) {e : Error}
        → require_active w' id' (voice_code ∷ sms_code ∷ email_code ∷ []) ≡ err e
        → submit_code charge decrypt utf8 w' id' code' clock' event_id' ≡ (w', err e)
    unfolding submit_code
    submit_code_refused w' id' code' clock' event_id' h = rw h refl

    -- Once a code submission of an interaction was answered, with yes or no, every further one is
    -- refused as already resolved and changes nothing. The charge has to be one that `ChargeKeeps`
    -- describes.
    pub submit_code_once :
        (b : Bool) (code' : Text) (clock' : Clock) (event_id' : Text)
        → (submit_code charge decrypt utf8 w id code clock event_id).1 ≡ ok b
        → submit_code charge decrypt utf8
            (submit_code charge decrypt utf8 w id code clock event_id).0
            id
            code'
            clock'
            event_id'
          ≡ (
            (submit_code charge decrypt utf8 w id code clock event_id).0,
            err verification_already_resolved,
          )
    submit_code_once b code' clock' event_id' h =
        let (r, a, takes_code, _) = submit_code_answers b h in
        submit_code_refused _ id code' clock' event_id'
          (answered_closes w id r clock b _ (voice_code ∷ sms_code ∷ email_code ∷ []) a takes_code)
