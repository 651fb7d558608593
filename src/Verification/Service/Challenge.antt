-- ===== src/Verification/Service/Challenge.antt =====
-- The submission of challenge answers: `submitChallenge` of
-- backend/packages/api/src/verification-service.ts.
use powerotp.Prelude.{
  Option, ap, sym, ◌∙◌, ◌≡◌, refl, inl, inr, Bool, true, some, List, [], ◌∷◌, ◌==◌, nat_eq, ==→≡,
  Bool-cases, Option-cases, includes, Text, text, text_eq, get,
}
use powerotp.Verification.State.{
  voice_challenge, awaiting_response, type_eq, state_eq, is_terminal_state,
}
use powerotp.Verification.Store.{Interaction, World, Clock}
use powerotp.Verification.Service.{
  Error, verification_already_resolved, ok, err, require_active, submit_challenge,
}
use powerotp.Verification.Service.Submission.{Answered, answered, answered_closes}
use powerotp.Verification.Service.Parts.{ChargeKeeps}

module _ {charge : Interaction → World → World × Bool} (keeps : ChargeKeeps charge)
    (grade : Text → List Text → Option Bool) (w : World) (id : Text) (option_ids : List Text)
    (clock : Clock) (event_id : Text) where
  -- An answered challenge submission found an interaction with a challenge that waited for its answer;
  -- what it reports is the grade, and the interaction has moved on.
  submit_challenge_answers :
      (b : Bool)
      → (submit_challenge charge grade w id option_ids clock event_id).1 ≡ ok b
      → (r : Interaction) × Answered w id r clock b
          (submit_challenge charge grade w id option_ids clock event_id).0
        × (includes (voice_challenge ∷ []) r.type ≡ true)
        × (answers : Text) × (r.challenge_answers ≡ some answers)
        × (grade answers option_ids ≡ some b)
  unfolding submit_challenge require_active
  submit_challenge_answers b h = elim (Option-cases (get id w.requests)) [
    | inl gone ↦ let reported = rw gone at h in cc
    | inr (r, found) ↦ elim (Bool-cases (includes (voice_challenge ∷ []) r.type)) [
      | inl takes ↦ elim (Bool-cases (is_terminal_state r.state)) [
        | inl terminal ↦ let reported = rw (found, takes, terminal) at h in cc
        | inr active ↦ elim (Bool-cases (r.state == awaiting_response)) [
          | inl waiting ↦ elim (Option-cases r.challenge_answers) [
            | inl missing ↦ let reported = rw (found, takes, active, waiting, missing) at h in cc
            | inr (answers, known) ↦ elim (Option-cases (grade answers option_ids)) [
              | inl threw ↦
                  let reported = rw (found, takes, active, waiting, known, threw) at h in cc
              | inr (correct, graded) ↦
                  let (a, same) =
                    answered keeps w id correct (text "challenge_matched")
                      (text "challenge_mismatch") clock event_id b r _ found (==→≡ _ _ waiting)
                      (rw (found, takes, active, waiting, known, graded) refl) h in
                  (r, a, takes, answers, known, graded ∙ ap some (sym same))
            ]
          ]
          | inr elsewhere ↦ let reported = rw (found, takes, active, elsewhere) at h in cc
        ]
      ]
      | inr other_type ↦ let reported = rw (found, other_type) at h in cc
    ]
  ]

  submit_challenge_refused :
      (w' : World) (id' : Text) (option_ids' : List Text) (clock' : Clock) (event_id' : Text)
      {e : Error}
      → require_active w' id' (voice_challenge ∷ []) ≡ err e
      → submit_challenge charge grade w' id' option_ids' clock' event_id' ≡ (w', err e)
  unfolding submit_challenge
  submit_challenge_refused w' id' option_ids' clock' event_id' h = rw h refl

  -- Once an answer to a challenge was graded, right or wrong, every further one is refused as
  -- already resolved and changes nothing. The charge has to be one that `ChargeKeeps`
  -- describes.
  pub submit_challenge_once :
      (b : Bool) (option_ids' : List Text) (clock' : Clock) (event_id' : Text)
      → (submit_challenge charge grade w id option_ids clock event_id).1 ≡ ok b
      → submit_challenge charge grade
          (submit_challenge charge grade w id option_ids clock event_id).0
          id
          option_ids'
          clock'
          event_id'
        ≡ (
          (submit_challenge charge grade w id option_ids clock event_id).0,
          err verification_already_resolved,
        )
  submit_challenge_once b option_ids' clock' event_id' h =
      let (r, a, takes, _, _, _) = submit_challenge_answers b h in
      submit_challenge_refused _ id option_ids' clock' event_id'
        (answered_closes keeps w id r clock b _ (voice_challenge ∷ []) a takes)
