-- ===== src/Verification/Service/Verdict.antt =====
-- What `submitCode` of backend/packages/api/src/verification-service.ts answers.
use mathlib.Core.Option.{some-injective}
use mathlib.Core.Bool.{true≢false}
use powerotp.Prelude.{
  length, ℕ, ◌+◌, ◌≡◌, ◌≢◌, refl, sym, ap, ap₂, ◌∙◌, inl, inr, Option-cases, Bool, true, false,
  ◌&&◌, Option, none, some, List, [], ◌∷◌, arith, ltb, ◌==◌, nat_eq, ==→≡, if◌then◌else◌, includes,
  Text, text, text_eq, get,
}
use powerotp.Verification.State.{
  has_reached_awaiting_response, active_states_for, index_of, call_reachability, voice_challenge,
  VerificationType, voice_code, sms_code, email_code, State, awaiting_response, succeeded, failed,
  expired, type_eq, state_eq, is_terminal_state, is_transition_allowed,
}
use powerotp.Verification.Store.{Interaction, World, Clock, is_given, target_state}
use powerotp.Verification.Store.Frame.{core}
use powerotp.Verification.Service.{
  Result, ok, err, charge_failed, stale_verification_state, applied_or, settle, require_active,
  resolve, is_expected, code_matches, submit_checked, submit_code,
}
use powerotp.Verification.Service.Parts.{ChargeKeeps}
use powerotp.Verification.Service.Submission.{
  target_state-terminal, submit_code_answers, transition_lands,
}

interrupts :
    (t : VerificationType) (a b : State)
    → is_terminal_state a ≡ false
    → is_terminal_state b ≡ true
    → is_transition_allowed t a b ≡ true
unfolding is_transition_allowed
interrupts t a b ha hb = rw (ha, hb) refl

waiting_is_active : {s : State} → s ≡ awaiting_response → is_terminal_state s ≡ false
unfolding is_terminal_state
waiting_is_active e = rw e refl

overdue_target :
    (r : Interaction) (now : ℕ) (to : State)
    → ltb r.expires_at now ≡ true
    → is_terminal_state r.state ≡ false
    → target_state r now to ≡ expired
overdue_target r now to late active = rw (late, active) refl

given_and_equal : (b c d : Bool) → (b && (c && d)) ≡ true → (b ≡ true) × (d ≡ true)
given_and_equal b c d h = ground arith

-- The answer of a submission: what the check of the code gives, unless the charge that is still owed
-- throws after it.
abbrev pub unless_charge_fails : Bool → Result Bool → Result Bool
unless_charge_fails returned (err e) = err e
unless_charge_fails true (ok correct) = ok correct
unless_charge_fails false (ok correct) = err charge_failed

response_reached :
    (t : VerificationType) {s : State}
    → includes (voice_code ∷ sms_code ∷ email_code ∷ []) t ≡ true
    → s ≡ awaiting_response
    → has_reached_awaiting_response t s ≡ true
unfolding has_reached_awaiting_response is_terminal_state active_states_for index_of
response_reached call_reachability takes e = cc
response_reached voice_code takes e = rw e refl
response_reached voice_challenge takes e = cc
response_reached sms_code takes e = rw e refl
response_reached email_code takes e = rw e refl

code_matches_inv :
    (decrypt : Text → Option Text) (utf8 : Text → List ℕ)
    → (stored : Option Text) (code : Text) → code_matches decrypt utf8 stored code ≡ ok true
    → (ciphertext : Text) × (expected : Text) × (stored ≡ some ciphertext)
      × (decrypt ciphertext ≡ some expected)
      × (utf8 expected ≡ utf8 code)
      × (expected ≢ [])
code_matches_inv decrypt utf8 none code h = cc
code_matches_inv decrypt utf8 (some []) code h = cc
code_matches_inv decrypt utf8 (some (c ∷ s)) code h = elim (Option-cases (decrypt (c ∷ s))) [
  | inl fails ↦ let reported = rw fails at h in cc
  | inr (expected, decrypts) ↦
      let verdict : ok (is_expected utf8 (some expected) code) ≡ ok true = rw decrypts at h in
      let (given, bytes) =
        given_and_equal (is_given (some expected)) (length (utf8 expected) == length (utf8 code))
          (utf8 expected == utf8 code) (ap is_correct verdict) in
      (
        c ∷ s,
        expected,
        refl,
        decrypts,
        ==→≡ _ _ bytes,
        λ empty. absurd (true≢false (sym given ∙ ap (λ t. is_given (some t)) empty)),
      )
]
  where
    is_correct : Result Bool → Bool
    is_correct (ok b) = b
    is_correct (err e) = false

module _ {charge : Interaction → World → World × Bool} (keeps : ChargeKeeps charge) where
  resolve_answers :
      (w : World) (id : Text) (correct : Bool) (matching mismatching : Text) (clock : Clock)
      (event_id : Text) (r : Interaction)
      → get id w.requests ≡ some r
      → r.state ≡ awaiting_response
      → has_reached_awaiting_response r.type r.state ≡ true
      → (resolve charge w id correct matching mismatching clock event_id).1
        ≡ unless_charge_fails (settle charge w r).1 (ok correct)
  resolve_answers w id correct matching mismatching clock event_id r found waits reached =
      let to = if correct then succeeded else failed in
      let reason = some (if correct then matching else mismatching) in
      let lands =
        transition_lands keeps w id to reason clock event_id r found
          (interrupts r.type r.state _ (waiting_is_active waits)
            (target_state-terminal keeps r clock.checked correct))
          reached in
      ap (λ a. applied_or stale_verification_state a correct) lands ∙ both (settle charge w r).1
    where
      both :
          (returned : Bool)
          → applied_or stale_verification_state
              (if returned then ok true else err charge_failed)
              correct
            ≡ unless_charge_fails returned (ok correct)
      both true = refl
      both false = refl

  module _ (decrypt : Text → Option Text) (utf8 : Text → List ℕ) (w : World) (id code : Text)
      (clock : Clock) (event_id : Text) (r : Interaction) where
    checked_answers :
        (verdict : Result Bool)
        → get id w.requests ≡ some r
        → r.state ≡ awaiting_response
        → has_reached_awaiting_response r.type r.state ≡ true
        → (submit_checked charge decrypt utf8 w id verdict clock event_id).1
          ≡ unless_charge_fails (settle charge w r).1 verdict
    checked_answers (err e) found waits reached = refl
    checked_answers (ok correct) found waits reached =
        resolve_answers w id correct (text "code_matched") (text "code_mismatch") clock event_id r
          found waits reached

    -- A code submission to an interaction that delivers a code and waits for it is always answered
    -- with whether the code matches, unless the stored ciphertext does not decrypt or the charge that
    -- is still owed throws, and then it fails with that error. The charge has to be one that
    -- `ChargeKeeps` describes.
    pub submit_code_total :
        get id w.requests ≡ some r
        → includes (voice_code ∷ sms_code ∷ email_code ∷ []) r.type ≡ true
        → r.state ≡ awaiting_response
        → (submit_code charge decrypt utf8 w id code clock event_id).1
          ≡ unless_charge_fails
              (settle charge w r).1
              (code_matches decrypt utf8 r.expected_code_encrypted code)
    unfolding submit_code require_active
    submit_code_total found takes waits =
        let active = waiting_is_active waits in
        let waiting : (r.state == awaiting_response) ≡ true =
          ap (λ s. s == awaiting_response) waits in
        rw (found, takes, active, waiting)
          (checked_answers (code_matches decrypt utf8 r.expected_code_encrypted code) found waits
            (response_reached r.type takes waits))

    -- A code submission that is answered with success was given a code with the same bytes in UTF-8
    -- as the one that the ciphertext of the interaction decrypts to, and that one is not empty. The
    -- charge has to be one that `ChargeKeeps` describes.
    pub submit_code_sound :
        get id w.requests ≡ some r
        → (submit_code charge decrypt utf8 w id code clock event_id).1 ≡ ok true
        → (ciphertext : Text) × (expected : Text) × (r.expected_code_encrypted ≡ some ciphertext)
          × (decrypt ciphertext ≡ some expected)
          × (utf8 expected ≡ utf8 code)
          × (expected ≢ [])
    submit_code_sound found h =
        let (r', a, _, matches) =
          submit_code_answers keeps decrypt utf8 w id code clock event_id true h in
        let same : r' ≡ r = some-injective _ _ (sym a.found ∙ found) in
        code_matches_inv decrypt utf8 r.expected_code_encrypted code (
          ap (λ (c : Interaction). code_matches decrypt utf8 c.expected_code_encrypted code)
            (sym same)
          ∙ matches)

    -- A submission of the right code that comes past the time of an interaction that waits
    -- for it reports success, although the interaction is stored as expired. The charge has
    -- to be one that `ChargeKeeps` describes, and must not throw if it is still owed.
    pub submit_code_overdue :
        get id w.requests ≡ some r
        → includes (voice_code ∷ sms_code ∷ email_code ∷ []) r.type ≡ true
        → r.state ≡ awaiting_response
        → (settle charge w r).1 ≡ true
        → code_matches decrypt utf8 r.expected_code_encrypted code ≡ ok true
        → ltb r.expires_at clock.checked ≡ true
        → ((submit_code charge decrypt utf8 w id code clock event_id).1 ≡ ok true)
          × (core (submit_code charge decrypt utf8 w id code clock event_id).0 id
              ≡ some (r.id, r.type, expired, r.sequence + 1))
    submit_code_overdue found takes waits paid matches late =
        let answer = submit_code_total found takes waits ∙ ap₂ unless_charge_fails paid matches in
        let (r', a, _, _) =
          submit_code_answers keeps decrypt utf8 w id code clock event_id true answer in
        let same : r' ≡ r = some-injective _ _ (sym a.found ∙ found) in
        (
          answer,
          a.arrived
              ∙ ap
                  (λ (c : Interaction).
                    some (c.id, c.type, target_state c clock.checked succeeded, c.sequence + 1))
                  same
              ∙ ap (λ s. some (r.id, r.type, s, r.sequence + 1))
                  (overdue_target r clock.checked succeeded late (waiting_is_active waits)),
        )
