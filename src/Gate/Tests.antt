-- ===== src/Gate/Tests.antt =====
-- A gate whose challenge is opened and verified, and one that is disposed of in between.
use powerotp.Prelude.{ℕ, Bool, true, false, none, some, List, [], ◌∷◌, text, Text, ◌≡◌, refl}
use powerotp.Gate.States.{otp_required, verified, unavailable, Outcome, allow, otp, Sequence}
use powerotp.Gate.Decision.{Envelope, trusted, validate_verified_decision}
use powerotp.Gate.Variables.{Options, Gate, restored_otp, restored_gate}
use powerotp.Gate.Controller.{
  Status, has_verified, Step, starts, times_out, resolves, rejects, verifies, revises, begins_otp,
  launches, reports, step, run, verify_and_apply,
}
use powerotp.Gate.Controller.Otp.{otp_holds}
use powerotp.Gate.Controller.Page.{is_frozen, IsHeld, run-IsHeld}
use powerotp.Gate.Controller.Nonces.{SameDecision, decision_once}

abbrev options : Options
options = record {
  site_id = text "site-00000000001";
  gate_session_id = text "session-00000001";
  audience = text "app";
  decision_timeout_ms = 200;
  clock_skew_ms = 1000;
  can_launch = true;
}

abbrev at : ℕ → Sequence
at n = record { gate_session_id = text "session-00000001"; sequence = n; issued_at = 5 }

abbrev decision : Outcome → ℕ → Envelope
decision outcome n = record {
  protocol_version = 1;
  site_id = text "site-00000000001";
  sequence = at n;
  outcome = outcome;
  audience = text "app";
  nonce = n ∷ text "nonce-0000000001";
  expires_at = 100;
}

abbrev challenge : Text
challenge = text "challenge-000001"

abbrev word : Status
word = record {
  status = has_verified;
  site_id = text "site-00000000001";
  gate_session_id = text "session-00000001";
  challenge_id = challenge;
}

abbrev fresh : Gate
fresh = restored_gate none

abbrev asked : Gate
asked = restored_gate (some (restored_otp [] (at 3) challenge))

abbrev revised : Outcome → ℕ → Step
revised outcome n = revises (some (trusted (some (decision outcome n)))) 10

abbrev story : List Step
story = starts ∷ begins_otp ∷ launches (some challenge) ∷ []

frozen : is_frozen (run options story asked).output ≡ true
unfolding run step
frozen = refl

passed :
    (run options (starts ∷ begins_otp ∷ launches (some challenge) ∷ reports word ∷ []) asked).state
    ≡ verified
unfolding run step
passed = refl

late_decision :
    (run options
      (starts ∷ times_out ∷ resolves ∷ verifies (some (trusted (some (decision otp 1)))) 10 ∷ [])
      fresh).state
    ≡ otp_required
unfolding run step validate_verified_decision
late_decision = refl

no_answer : (run options (starts ∷ rejects ∷ []) fresh).state ≡ unavailable
unfolding run step
no_answer = refl

otp_holds_example :
    (run options (starts ∷ revised allow 4 ∷ begins_otp ∷ reports word ∷ []) asked).state
    ≡ otp_required
unfolding step validate_verified_decision
otp_holds_example =
    otp_holds options (starts ∷ revised allow 4 ∷ begins_otp ∷ reports word ∷ []) asked refl refl

run-IsHeld_example : IsHeld (run options story asked)
run-IsHeld_example =
    run-IsHeld options (some (restored_otp [] (at 3) challenge)) asked story refl refl

abbrev once : Gate × Bool
once = verify_and_apply options (some (trusted (some (decision allow 1)))) 10 fresh

applied : once.1 ≡ true
unfolding validate_verified_decision
applied = refl

decision_once_example :
    let after = run options (revised otp 2 ∷ []) once.0 in
    let again = verify_and_apply options (some (trusted (some (decision allow 1)))) 20 after in
    (again.1 ≡ false) × SameDecision again.0 after
decision_once_example =
    decision_once options (decision allow 1) (decision allow 1) 10 20 (revised otp 2 ∷ []) fresh
      applied refl
