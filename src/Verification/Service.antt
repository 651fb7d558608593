-- ===== src/Verification/Service.antt =====
-- The methods of `VerificationService`: backend/packages/api/src/verification-service.ts.
-- A method gets the readings of the clock that it makes, and the ids that it draws. What the
-- constructor injects is a parameter: `charge` is `chargeCompletedInteraction`, with whether it
-- returned or threw, `decrypt` is `decryptString` under the service's key, and `grade` is
-- `ChallengeService.gradeSubmission`, which both have no result where they throw.
pub mod Parts
pub mod Applied
pub mod Transition
pub mod Submission
pub mod Verdict
pub mod Challenge
pub mod History
pub mod Claimed
pub mod Log
pub mod Lifetime
use powerotp.Prelude.{
  ℕ, Bool, true, false, not, ◌&&◌, Option, none, some, List, [], ◌∷◌, ◌==◌, nat_eq, if◌then◌else◌,
  includes, length, Text, text, text_eq, get, is_some,
}
use powerotp.Verification.State.{
  VerificationType, voice_code, voice_challenge, sms_code, email_code, State, awaiting_response,
  succeeded, failed, canceled, type_eq, state_eq, is_terminal_state, is_transition_allowed,
}
use powerotp.Verification.Store.{
  Interaction, World, Clock, is_given, was_attempted, target_state, target_reason, just_finished,
  commit, record_transition, schedule_reconcile,
}

-- `VerificationError`, by its code, and what the decryption, the grading and the charge throw.
pub data Error : Type 0 where
  verification_not_found unsupported_response_type verification_already_resolved : Error
  not_awaiting_response challenge_not_available stale_verification_state : Error
  verification_not_cancelable decryption_failed grading_failed charge_failed : Error

pub data Result {ℓ} (A : Type ℓ) : Type ℓ where
  ok : A → Result A
  err : Error → Result A

abbrev pub require_found : Option Interaction → List VerificationType → Result Interaction
require_found none allowed = err verification_not_found
require_found (some r) allowed =
    if not (includes allowed r.type)
    then err unsupported_response_type
    else if is_terminal_state r.state
    then err verification_already_resolved
    else ok r

-- `#requireActive`
unfoldable pub require_active : World → Text → List VerificationType → Result Interaction
require_active w id allowed = require_found (get id w.requests) allowed

-- The value, or an error where the transition was not applied or threw.
abbrev pub applied_or {ℓ} : {A : Type ℓ} → Error → Result Bool → A → Result A
applied_or e (ok true) a = ok a
applied_or e (ok false) a = err e
applied_or e (err thrown) a = err thrown

-- `safeEqual`, over the bytes of both texts.
abbrev pub safe_equal : (Text → List ℕ) → Text → Text → Bool
safe_equal utf8 left right = length (utf8 left) == length (utf8 right) && utf8 left == utf8 right

abbrev pub decrypted : Option Text → Result (Option Text)
decrypted none = err decryption_failed
decrypted (some code) = ok (some code)

-- The expected code. An empty text counts as absent.
abbrev pub expected_code : (Text → Option Text) → Option Text → Result (Option Text)
expected_code decrypt none = ok none
expected_code decrypt (some []) = ok none
expected_code decrypt (some (c ∷ s)) = decrypted (decrypt (c ∷ s))

module _ (utf8 : Text → List ℕ) where
  abbrev pub is_expected : Option Text → Text → Bool
  is_expected none code = false
  is_expected (some expected) code = is_given (some expected) && safe_equal utf8 expected code

  abbrev pub checked_code : Result (Option Text) → Text → Result Bool
  checked_code (err e) code = err e
  checked_code (ok expected) code = ok (is_expected expected code)

abbrev pub code_matches : (Text → Option Text) → (Text → List ℕ) → Option Text → Text → Result Bool
code_matches decrypt utf8 ciphertext code =
    checked_code utf8 (expected_code decrypt ciphertext) code

module _ (charge : Interaction → World → World × Bool) where
  -- A completed delivery whose charge was not applied yet is charged first.
  abbrev pub settle : World → Interaction → World × Bool
  settle w current =
      if is_some current.billing_pending_at && not (is_some current.billing_applied_at)
      then charge current w
      else (w, true)

  -- What follows the conditional update: the event and callback, and, when the delivery has just
  -- been finished by a real attempt, the look-up and the charge.
  abbrev pub complete :
      Interaction → State → Option Text → Clock → Text → Interaction × World → World × Bool
  complete current to reason clock event_id (updated, w) =
      let logged = record_transition w updated to reason clock event_id in
      if just_finished current updated && was_attempted updated
      then charge updated (schedule_reconcile logged updated)
      else (logged, true)

  abbrev pub unless_thrown : World × Bool → World × Result Bool
  unless_thrown (w, returned) = (w, if returned then ok true else err charge_failed)

  abbrev conclude :
      World
      → Interaction
      → State
      → Option Text
      → Clock
      → Text
      → Option (Interaction × World)
      → World × Result Bool
  conclude w current to reason clock event_id none = (w, ok false)
  conclude w current to reason clock event_id (some updated) =
      unless_thrown (complete current to reason clock event_id updated)

  -- What follows the charge that was owed: nothing where it threw.
  abbrev pub after_settling :
      World × Bool → Text → Interaction → State → Option Text → Clock → Text → World × Result Bool
  after_settling (w, false) id current to reason clock event_id = (w, err charge_failed)
  after_settling (w, true) id current to reason clock event_id =
      if not (is_transition_allowed current.type current.state to)
      then (w, ok false)
      else conclude w current to reason clock event_id (commit w id current to reason clock)

  abbrev transition_found :
      World → Text → Option Interaction → State → Option Text → Clock → Text → World × Result Bool
  transition_found w id none to reason clock event_id = (w, ok false)
  transition_found w id (some current) to reason clock event_id =
      after_settling (settle w current) id current (target_state current clock.checked to)
        (target_reason current clock.checked reason) clock event_id

  unfoldable pub transition :
      World → Text → State → Option Text → Clock → Text → World × Result Bool
  transition w id to reason clock event_id =
      transition_found w id (get id w.requests) to reason clock event_id

  -- `cancel`: the interaction has to be one of the project.
  abbrev cancel_found :
      World → Text → Option Interaction → Text → Clock → Text → World × Result (Unit {0})
  cancel_found w id none project_id clock event_id = (w, err verification_not_found)
  cancel_found w id (some r) project_id clock event_id =
      if not (r.project_id == project_id)
      then (w, err verification_not_found)
      else let (w', applied) =
          transition w id canceled (some (text "customer_canceled")) clock event_id in
        (w', applied_or verification_not_cancelable applied tt)

  unfoldable pub cancel : World → Text → Text → Clock → Text → World × Result (Unit {0})
  cancel w id project_id clock event_id =
      cancel_found w id (get id w.requests) project_id clock event_id

  -- The end of both submissions: the answer decides where the interaction goes, and is returned.
  abbrev pub resolve : World → Text → Bool → Text → Text → Clock → Text → World × Result Bool
  resolve w id correct matching mismatching clock event_id =
      let (w', applied) =
        transition w id (if correct then succeeded else failed)
          (some (if correct then matching else mismatching)) clock event_id in
      (w', applied_or stale_verification_state applied correct)

  -- `submitCode`
  module _ (decrypt : Text → Option Text) (utf8 : Text → List ℕ) where
    abbrev pub submit_checked : World → Text → Result Bool → Clock → Text → World × Result Bool
    submit_checked w id (err e) clock event_id = (w, err e)
    submit_checked w id (ok correct) clock event_id =
        resolve w id correct (text "code_matched") (text "code_mismatch") clock event_id

    abbrev submit_code_active :
        World → Text → Result Interaction → Text → Clock → Text → World × Result Bool
    submit_code_active w id (err e) code clock event_id = (w, err e)
    submit_code_active w id (ok r) code clock event_id =
        if not (r.state == awaiting_response)
        then (w, err not_awaiting_response)
        else submit_checked w id (code_matches decrypt utf8 r.expected_code_encrypted code) clock
            event_id

    unfoldable pub submit_code : World → Text → Text → Clock → Text → World × Result Bool
    submit_code w id code clock event_id =
        submit_code_active w id (require_active w id (voice_code ∷ sms_code ∷ email_code ∷ [])) code
          clock event_id

  -- `submitChallenge`
  module _ (grade : Text → List Text → Option Bool) where
    abbrev pub submit_verdict : World → Text → Option Bool → Clock → Text → World × Result Bool
    submit_verdict w id none clock event_id = (w, err grading_failed)
    submit_verdict w id (some correct) clock event_id =
        resolve w id correct (text "challenge_matched") (text "challenge_mismatch") clock event_id

    abbrev submit_graded :
        World → Text → Option Text → List Text → Clock → Text → World × Result Bool
    submit_graded w id none option_ids clock event_id = (w, err challenge_not_available)
    submit_graded w id (some answers) option_ids clock event_id =
        submit_verdict w id (grade answers option_ids) clock event_id

    abbrev submit_challenge_active :
        World → Text → Result Interaction → List Text → Clock → Text → World × Result Bool
    submit_challenge_active w id (err e) option_ids clock event_id = (w, err e)
    submit_challenge_active w id (ok r) option_ids clock event_id =
        if not (r.state == awaiting_response)
        then (w, err not_awaiting_response)
        else submit_graded w id r.challenge_answers option_ids clock event_id

    unfoldable pub submit_challenge : World → Text → List Text → Clock → Text → World × Result Bool
    submit_challenge w id option_ids clock event_id =
        submit_challenge_active w id (require_active w id (voice_challenge ∷ [])) option_ids clock
          event_id
