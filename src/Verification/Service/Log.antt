-- ===== src/Verification/Service/Log.antt =====
-- Requests to the service in any order: the methods of
-- backend/packages/api/src/verification-service.ts that move interactions.
use mathlib.Core.Bool.{and-eq-true_iff}
use powerotp.Prelude.{
  every, true, ℕ, ◌≡◌, refl, sym, subst, ◌⊎◌, inl, inr, Bool, Option, some, List, [], ◌∷◌, ◌==◌,
  Bool-cases, Option-cases, Text, text, text_eq, get,
}
use powerotp.Verification.State.{
  VerificationType, voice_code, voice_challenge, sms_code, email_code, State, awaiting_response,
  canceled, type_eq, state_eq,
}
use powerotp.Verification.Store.{Interaction, Event, World, Clock}
use powerotp.Verification.Service.{
  code_matches, transition, cancel, require_active, submit_code, submit_challenge,
}
use powerotp.Verification.Service.Parts.{ChargeKeeps}
use powerotp.Verification.Service.Submission.{result_cases}
use powerotp.Verification.Service.Claimed.{is_call, claim-History}
use powerotp.Verification.Delivery.{claim_next_for_node}
use powerotp.Verification.Service.History.{IsKeyed, History, transition-IsKeyed, transition-History}

-- A request to the service that moves an interaction: its transition by a worker or a node, the
-- cancellation by its project, the submission of a code or of a challenge answer, or the claim of the
-- next interaction of a type by a node.
pub data Request : Type 0 where
  to_move : Text → State → Option Text → Clock → Text → Request
  to_cancel : Text → Text → Clock → Text → Request
  to_submit_code : Text → Text → Clock → Text → Request
  to_submit_challenge : Text → List Text → Clock → Text → Request
  to_claim : VerificationType → Clock → Text → Request

-- Nodes claim calls alone: the claim of a message would move it where its machine does not lead.
abbrev pub claims_a_call : Request → Bool
claims_a_call (to_claim t clock event_id) = is_call t
claims_a_call _ = true

module _ {charge : Interaction → World → World × Bool} (keeps : ChargeKeeps charge)
    (decrypt : Text → Option Text) (utf8 : Text → List ℕ)
    (grade : Text → List Text → Option Bool) where
  abbrev pub serve : World → Request → World
  serve w (to_move id to reason clock event_id) =
      (transition charge w id to reason clock event_id).0
  serve w (to_cancel id project_id clock event_id) =
      (cancel charge w id project_id clock event_id).0
  serve w (to_submit_code id code clock event_id) =
      (submit_code charge decrypt utf8 w id code clock event_id).0
  serve w (to_submit_challenge id option_ids clock event_id) =
      (submit_challenge charge grade w id option_ids clock event_id).0
  serve w (to_claim t clock event_id) = (claim_next_for_node w t clock event_id).0

  abbrev pub serve_all : World → List Request → World
  serve_all w [] = w
  serve_all w (r ∷ rs) = serve_all (serve w r) rs

  -- A request changes nothing, makes one transition, or claims a call.
  abbrev pub IsMove : World → World → Type 0
  IsMove w w' =
      (w' ≡ w)
      ⊎ ((id : Text) × (to : State) × (reason : Option Text) × (clock : Clock) × (event_id : Text)
          × (w' ≡ (transition charge w id to reason clock event_id).0))
      ⊎ ((t : VerificationType) × (clock : Clock) × (event_id : Text) × (is_call t ≡ true)
          × (w' ≡ (claim_next_for_node w t clock event_id).0))

  cancel-IsMove :
      (w : World) (id project_id : Text) (clock : Clock) (event_id : Text)
      → IsMove w (cancel charge w id project_id clock event_id).0
  unfolding cancel
  cancel-IsMove w id project_id clock event_id = elim (Option-cases (get id w.requests)) [
    | inl gone ↦ rw gone (inl refl)
    | inr (r, found) ↦ elim (Bool-cases (r.project_id == project_id)) [
      | inl own ↦
          rw (found, own)
            (inr (inl (id, canceled, some (text "customer_canceled"), clock, event_id, refl)))
      | inr foreign ↦ rw (found, foreign) (inl refl)
    ]
  ]

  submit_code-IsMove :
      (w : World) (id code : Text) (clock : Clock) (event_id : Text)
      → IsMove w (submit_code charge decrypt utf8 w id code clock event_id).0
  unfolding submit_code
  submit_code-IsMove w id code clock event_id =
      elim (result_cases (require_active w id (voice_code ∷ sms_code ∷ email_code ∷ []))) [
        | inl (e, refused) ↦ rw refused (inl refl)
        | inr (r, active) ↦ elim (Bool-cases (r.state == awaiting_response)) [
          | inl waiting ↦
              elim (result_cases (code_matches decrypt utf8 r.expected_code_encrypted code)) [
                | inl (e, threw) ↦ rw (active, waiting, threw) (inl refl)
                | inr (correct, verdict) ↦
                    rw (active, waiting, verdict) (inr (inl (id, _, _, clock, event_id, refl)))
              ]
          | inr elsewhere ↦ rw (active, elsewhere) (inl refl)
        ]
      ]

  submit_challenge-IsMove :
      (w : World) (id : Text) (option_ids : List Text) (clock : Clock) (event_id : Text)
      → IsMove w (submit_challenge charge grade w id option_ids clock event_id).0
  unfolding submit_challenge
  submit_challenge-IsMove w id option_ids clock event_id =
      elim (result_cases (require_active w id (voice_challenge ∷ []))) [
        | inl (e, refused) ↦ rw refused (inl refl)
        | inr (r, active) ↦ elim (Bool-cases (r.state == awaiting_response)) [
          | inl waiting ↦ elim (Option-cases r.challenge_answers) [
            | inl missing ↦ rw (active, waiting, missing) (inl refl)
            | inr (answers, known) ↦ elim (Option-cases (grade answers option_ids)) [
              | inl threw ↦ rw (active, waiting, known, threw) (inl refl)
              | inr (correct, graded) ↦
                  rw (active, waiting, known, graded) (inr (inl (id, _, _, clock, event_id, refl)))
            ]
          ]
          | inr elsewhere ↦ rw (active, elsewhere) (inl refl)
        ]
      ]

  serve-IsMove : (w : World) (r : Request) → claims_a_call r ≡ true → IsMove w (serve w r)
  serve-IsMove w (to_move id to reason clock event_id) _ =
      inr (inl (id, to, reason, clock, event_id, refl))
  serve-IsMove w (to_cancel id project_id clock event_id) _ =
      cancel-IsMove w id project_id clock event_id
  serve-IsMove w (to_submit_code id code clock event_id) _ =
      submit_code-IsMove w id code clock event_id
  serve-IsMove w (to_submit_challenge id option_ids clock event_id) _ =
      submit_challenge-IsMove w id option_ids clock event_id
  serve-IsMove w (to_claim t clock event_id) by_call = inr (inr (t, clock, event_id, by_call, refl))

  module _ {t : VerificationType} {s : State} {n : ℕ} {before : List Event} (id : Text) where
    serve-History :
        (w : World) (r : Request)
        → claims_a_call r ≡ true
        → IsKeyed w
        → History t s n before id w
        → IsKeyed (serve w r) × History t s n before id (serve w r)
    serve-History w r calls keyed h = elim (serve-IsMove w r calls) [
      | inl same ↦ subst (λ v. IsKeyed v × History t s n before id v) (sym same) (keyed, h)
      | inr (inl (j, to, reason, clock, event_id, moves)) ↦
          subst (λ v. IsKeyed v × History t s n before id v) (sym moves)
            (
              transition-IsKeyed keeps w j to reason clock event_id keyed,
              transition-History keeps w j to reason clock event_id id keyed h,
            )
      | inr (inr (type, clock, event_id, by_call, claims)) ↦
          subst (λ v. IsKeyed v × History t s n before id v) (sym claims)
            (claim-History w type clock event_id id by_call keyed h)
    ]

    pub serve_all-History :
        (w : World) (rs : List Request)
        → every claims_a_call rs ≡ true
        → IsKeyed w
        → History t s n before id w
        → History t s n before id (serve_all w rs)
    serve_all-History w [] calls keyed h = h
    serve_all-History w (r ∷ rs) calls keyed h =
        let (first, rest) = (and-eq-true_iff (claims_a_call r) (every claims_a_call rs)).0 calls in
        let (keyed', h') = serve-History w r first keyed h in
        serve_all-History (serve w r) rs rest keyed' h'
