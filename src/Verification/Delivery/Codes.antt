-- ===== src/Verification/Delivery/Codes.antt =====
-- The code that is delivered is the one that is accepted: `codeForDelivery` and `submitCode` of
-- backend/packages/api/src/verification-service.ts.
use mathlib.Core.Option.{some-injective}
use powerotp.Prelude.{
  Bool, ℕ, ◌+◌, ◌≡◌, ◌≢◌, refl, sym, ap, ap₂, ◌∙◌, true, Option, some, List, [], ◌∷◌, ==_refl,
  includes, length, Text, text_eq, get,
}
use powerotp.Verification.State.{
  voice_code, sms_code, email_code, awaiting_response, succeeded, type_eq,
}
use powerotp.Verification.Store.{Interaction, World, Clock, is_given, target_state}
use powerotp.Verification.Store.Frame.{core}
use powerotp.Verification.Service.{
  ok, settle, safe_equal, expected_code, is_expected, checked_code, code_matches, submit_code,
}
use powerotp.Verification.Service.Parts.{ChargeKeeps}
use powerotp.Verification.Service.Submission.{submit_code_answers}
use powerotp.Verification.Service.Verdict.{unless_charge_fails, submit_code_total}
use powerotp.Verification.Delivery.{code_for_delivery}

safe_equal_refl : (utf8 : Text → List ℕ) (s : Text) → safe_equal utf8 s s ≡ true
safe_equal_refl utf8 s = rw (==_refl (utf8 s), ==_refl (length (utf8 s))) refl

given : (s : Text) → s ≢ [] → is_given (some s) ≡ true
given [] h = absurd (h refl)
given (c ∷ s) h = refl

delivered_matches :
    (decrypt : Text → Option Text) (utf8 : Text → List ℕ) (o : Option Text) (code : Text)
    → expected_code decrypt o ≡ ok (some code)
    → code ≢ []
    → code_matches decrypt utf8 o code ≡ ok true
delivered_matches decrypt utf8 o code h nonempty =
    let matches : is_expected utf8 (some code) code ≡ true =
      rw (given code nonempty, safe_equal_refl utf8 code) refl in
    ap (λ e. checked_code utf8 e code) h ∙ ap ok matches

-- The code that is handed out for delivery, when it is not empty, is accepted if it is submitted
-- while the interaction waits for it, and the interaction is stored as succeeded, or as expired if
-- its time is over, with the next sequence number. The charge has to be one that `ChargeKeeps`
-- describes, and must not throw if it is still owed.
pub submit_code-code_for_delivery :
    {charge : Interaction → World → World × Bool} (keeps : ChargeKeeps charge)
    (decrypt : Text → Option Text) (utf8 : Text → List ℕ) (w : World) (id code : Text)
    (clock : Clock) (event_id : Text) (r : Interaction)
    → get id w.requests ≡ some r
    → includes (voice_code ∷ sms_code ∷ email_code ∷ []) r.type ≡ true
    → r.state ≡ awaiting_response
    → (settle charge w r).1 ≡ true
    → code_for_delivery decrypt r ≡ ok (some code)
    → code ≢ []
    → ((submit_code charge decrypt utf8 w id code clock event_id).1 ≡ ok true)
      × (core (submit_code charge decrypt utf8 w id code clock event_id).0 id
          ≡ some (r.id, r.type, target_state r clock.checked succeeded, r.sequence + 1))
submit_code-code_for_delivery keeps decrypt utf8 w id code clock event_id r found takes waits paid
      delivered nonempty =
    let matches =
      delivered_matches decrypt utf8 r.expected_code_encrypted code delivered nonempty in
    let answer =
      submit_code_total keeps decrypt utf8 w id code clock event_id r found takes waits
      ∙ ap₂ unless_charge_fails paid matches in
    let (r', a, _, _) =
      submit_code_answers keeps decrypt utf8 w id code clock event_id true answer in
    let same : r' ≡ r = some-injective _ _ (sym a.found ∙ found) in
    (
      answer,
      a.arrived
          ∙ ap
              (λ (c : Interaction).
                some (c.id, c.type, target_state c clock.checked succeeded, c.sequence + 1))
              same,
    )
