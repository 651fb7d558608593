-- ===== src/Verification/Tests.antt =====
-- Two interactions: a voice code that waits for its code, and a reachability call that waits for a node.
use powerotp.Prelude.{
  ℕ, ◌+◌, ◌≡◌, ◌≢◌, ◌≤◌, refl, true, false, none, some, [], ◌∷◌, Text, text, text_eq,
}
use powerotp.Verification.State.{
  State, call_reachability, voice_code, dispatching, calling, ringing, succeeded, expired, canceled,
  type_eq, state_eq,
}
use powerotp.Verification.Store.{commit}
use powerotp.Verification.Store.Frame.{core}
use powerotp.Verification.Service.{
  ok, err, verification_already_resolved, transition, submit_code, submit_challenge, code_matches,
  settle,
}
use powerotp.Verification.Service.Applied.{Applied}
use powerotp.Verification.Service.Transition.{
  Unchanged, transition_applied, transition_refused, transition_race,
}
use powerotp.Verification.Service.Submission.{submit_code_once}
use powerotp.Verification.Service.Verdict.{
  unless_charge_fails, submit_code_total, submit_code_sound, submit_code_overdue,
}
use powerotp.Verification.Service.Challenge.{submit_challenge_once}
use powerotp.Verification.Service.History.{History, events_of}
use powerotp.Verification.Service.Log.{serve_all}
use powerotp.Verification.Service.Lifetime.{event_log, serve_bounded, serve_terminal}
use powerotp.Verification.Delivery.Codes.{submit_code-code_for_delivery}
use powerotp.Verification.Delivery.Claims.{Claimed, claim_next_for_node-Claimed}
use powerotp.Verification.Examples.{
  answered, answered_ok, at, blank, call_claimed, call_core, call_found, call_jumps, call_moves,
  claimed, code_found, done_core, graded, graded_ok, pay, pay_keeps, clear, plain, requests,
  succeeded_ends, waiting_call, world, world-IsKeyed,
}

transition_applied_example :
    Applied world
      (text "call")
      calling
      none
      (at 30)
      (text "e1")
      (transition pay world (text "call") calling none (at 30) (text "e1")).0
transition_applied_example =
    transition_applied pay_keeps world (text "call") calling none (at 30) (text "e1") call_moves

transition_refused_example :
    Unchanged pay_keeps world
      (text "call")
      ringing
      none
      (at 30)
      (text "e1")
      (transition pay world (text "call") ringing none (at 30) (text "e1")).0
transition_refused_example =
    transition_refused pay_keeps world (text "call") ringing none (at 30) (text "e1") call_jumps

transition_race_example :
    commit
      (transition pay world (text "call") calling none (at 30) (text "e1")).0
      (text "call")
      waiting_call
      canceled
      none
      (at 31)
    ≡ none
transition_race_example =
    transition_race pay_keeps world (text "call") calling none (at 30) (text "e1") waiting_call
      canceled none (at 31) call_found call_moves

event_log_example :
    History call_reachability dispatching 2
      (events_of (text "call") world.events)
      (text "call")
      (serve_all pay_keeps clear plain graded world requests)
event_log_example =
    event_log pay_keeps clear plain graded world (text "call") call_reachability dispatching 2
      requests world-IsKeyed refl call_core

serve_bounded_example :
    (a : State) × (m : ℕ) × (m ≤ 7)
    × (core (serve_all pay_keeps clear plain graded world requests) (text "call")
        ≡ some (text "call", call_reachability, a, 2 + m))
serve_bounded_example =
    serve_bounded pay_keeps clear plain graded world (text "call") call_reachability dispatching 2
      requests world-IsKeyed refl call_core

serve_terminal_example :
    (core (serve_all pay_keeps clear plain graded world requests) (text "done")
      ≡ some (text "done", voice_code, succeeded, 7))
    × (events_of (text "done") (serve_all pay_keeps clear plain graded world requests).events
        ≡ events_of (text "done") world.events)
serve_terminal_example =
    serve_terminal pay_keeps clear plain graded world (text "done") voice_code succeeded 7 requests
      world-IsKeyed refl done_core succeeded_ends

submit_code_total_example :
    answered.1
    ≡ unless_charge_fails
        (settle pay world blank).1
        (code_matches clear plain (some (text "1234")) (text "1234"))
submit_code_total_example =
    submit_code_total pay_keeps clear plain world (text "code") (text "1234") (at 60) (text "e1")
      blank code_found refl refl

submit_code_once_example :
    submit_code pay clear plain answered.0 (text "code") (text "0000") (at 61) (text "e2")
    ≡ (answered.0, err verification_already_resolved)
submit_code_once_example =
    submit_code_once pay_keeps clear plain world (text "code") (text "1234") (at 60) (text "e1")
      true (text "0000") (at 61) (text "e2") answered_ok

submit_code_sound_example :
    (ciphertext : Text) × (expected : Text) × (some (text "1234") ≡ some ciphertext)
    × (clear ciphertext ≡ some expected)
    × (plain expected ≡ plain (text "1234"))
    × (expected ≢ [])
submit_code_sound_example =
    submit_code_sound pay_keeps clear plain world (text "code") (text "1234") (at 60) (text "e1")
      blank code_found answered_ok

submit_code_overdue_example :
    ((submit_code pay clear plain world (text "code") (text "1234") (at 101) (text "e1")).1
      ≡ ok true)
    × (core
          (submit_code pay clear plain world (text "code") (text "1234") (at 101) (text "e1")).0
          (text "code")
        ≡ some (text "code", voice_code, expired, 8))
submit_code_overdue_example =
    submit_code_overdue pay_keeps clear plain world (text "code") (text "1234") (at 101) (text "e1")
      blank code_found refl refl refl refl refl

submit_challenge_once_example :
    submit_challenge pay graded
      (submit_challenge pay graded world
        (text "challenge")
        (text "blue" ∷ [])
        (at 60)
        (text "e1")).0
      (text "challenge")
      (text "red" ∷ [])
      (at 61)
      (text "e2")
    ≡ (
      (submit_challenge pay graded world
          (text "challenge")
          (text "blue" ∷ [])
          (at 60)
          (text "e1")).0,
      err verification_already_resolved,
    )
submit_challenge_once_example =
    submit_challenge_once pay_keeps graded world (text "challenge") (text "blue" ∷ []) (at 60)
      (text "e1") false (text "red" ∷ []) (at 61) (text "e2") graded_ok

claim_next_for_node-Claimed_example :
    Claimed world call_reachability
      (at 30)
      (text "e1")
      (record waiting_call { state = calling; updated_at = 30; sequence = 3 })
      claimed.0
claim_next_for_node-Claimed_example =
    claim_next_for_node-Claimed world call_reachability (at 30) (text "e1")
      (record waiting_call { state = calling; updated_at = 30; sequence = 3 }) world-IsKeyed
      call_claimed

submit_code-code_for_delivery_example :
    ((submit_code pay clear plain world (text "code") (text "1234") (at 60) (text "e1")).1
      ≡ ok true)
    × (core
          (submit_code pay clear plain world (text "code") (text "1234") (at 60) (text "e1")).0
          (text "code")
        ≡ some (text "code", voice_code, succeeded, 8))
submit_code-code_for_delivery_example =
    submit_code-code_for_delivery pay_keeps clear plain world (text "code") (text "1234") (at 60)
      (text "e1") blank code_found refl refl refl refl (λ empty. cc)
