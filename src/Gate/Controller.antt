-- ===== src/Gate/Controller.antt =====
-- The controller of a gate: libraries/gate-core/src/controller.ts. Its methods and callbacks are steps
-- on its state, between which others can run; a method that awaits something is one step before and
-- one after. What it does to the page is its output, the latest first. Listeners are left out.
pub mod Otp
pub mod Page
pub mod Nonces
use powerotp.Prelude.{
  ℕ, Bool, true, false, not, ◌&&◌, ◌||◌, Option, none, some, List, [], ◌∷◌, ◌==◌, leb,
  if◌then◌else◌, length, within, is_some, Text, text_eq,
}
use powerotp.Gate.States.{
  GateState, checking, optimistic_allow, observing, otp_required, verified, unavailable,
  gate_state_eq, is_gate_transition_allowed, Outcome, allow, otp, outcome_eq, Sequence, Snapshot,
  create_gate_snapshot,
}
use powerotp.Gate.Decision.{
  RejectionReason, unverified, challenge_active, Envelope, Verification, Context, Validated,
  accepted, refused, validate_verified_decision,
}
use powerotp.Gate.Variables.{
  Effect, Gate, Options, Output, Restored, changed, create_gate_controller, decision_rejected,
  effect_of, freeze_page, has_valid_challenge, initial, is_creatable, is_of_session,
  is_valid_challenge_id, pause_observation, restored_checking, restored_gate, restored_observing,
  restored_otp, restored_sequence, start_authoritative_polling, start_observation,
  stop_authoritative_polling, unfreeze_page,
}

abbrev pub effect : Effect → Gate → Gate
effect e g = record g { output = effect_of e ∷ g.output }

abbrev build_snapshot : Gate → Snapshot
build_snapshot g =
    create_gate_snapshot g.state g.decision g.decision_pending g.otp_open g.last_applied

abbrev pub publish : GateState → Gate → Gate
publish previous g = record g {
  current = build_snapshot g;
  output = changed (build_snapshot g) previous ∷ g.output;
}

abbrev pub transition : GateState → Gate → Gate × Bool
transition next g =
    if g.disposed || g.state == next
    then (g, false)
    else if not (is_gate_transition_allowed g.state next)
    then (g, false)
    else (publish g.state (record g { state = next }), true)

abbrev pub reject : RejectionReason → Gate → Gate × Bool
reject reason g = (effect (decision_rejected reason) g, false)

-- Observation starts where the transition was made.
abbrev pub then_observe : Bool → Gate × Bool → Gate × Bool
then_observe fresh (g, moved) =
    if moved then (effect (start_observation fresh) g, true) else (g, false)

abbrev pub mark_unavailable : Gate → Gate × Bool
mark_unavailable g =
    if not (g.state == checking) && not (g.state == optimistic_allow)
    then (g, false)
    else then_observe false (transition unavailable g)

abbrev pub accept_decision : Envelope → Gate → Gate
accept_decision d g = record g {
  accepted_nonces = d.nonce ∷ g.accepted_nonces;
  last_applied = some d.sequence;
  decision = some d.outcome;
}

abbrev pub apply_outcome : Outcome → Gate → Gate × Bool
apply_outcome otp g =
    if g.state == otp_required then (publish g.state g, true) else transition otp_required g
apply_outcome allow g =
    if g.state == observing
    then (publish g.state g, true)
    else then_observe (g.state == verified) (transition observing g)

abbrev pub apply_verified : Envelope → Gate → Gate × Bool
apply_verified d g =
    if g.state == otp_required && d.outcome == allow
    then reject challenge_active g
    else apply_outcome d.outcome (accept_decision d g)

abbrev pub context : Options → ℕ → Gate → Context
context o now g = record {
  site_id = o.site_id;
  gate_session_id = o.gate_session_id;
  audience = o.audience;
  now = now;
  clock_skew_ms = o.clock_skew_ms;
  last_applied = g.last_applied;
  accepted_nonces = g.accepted_nonces;
}

abbrev pub apply_validated : Validated → Gate → Gate × Bool
apply_validated (refused reason) g = reject reason g
apply_validated (accepted d) g = apply_verified d g

-- `verifyAndApply`, from when `verifyDecision` has settled: it threw where there is no verification.
abbrev pub verify_and_apply : Options → Option Verification → ℕ → Gate → Gate × Bool
verify_and_apply o none now g = reject unverified g
verify_and_apply o (some v) now g =
    if g.disposed
    then (g, false)
    else apply_validated (validate_verified_decision v (context o now g)) g

-- `start`, up to the promise of `requestDecision`.
abbrev pub start : Gate → Gate
start g =
    let begun = record g { started = true } in
    if g.started || g.disposed
    then g
    else if g.state == otp_required
    then begun
    else if g.state == observing
    then effect (start_observation false) begun
    else record (publish g.state (record begun { decision_pending = true })) {
      timer = true;
      requested = true;
    }

abbrev pub or_published : Gate × Bool → Gate
or_published (g, done) = if done then g else publish g.state g

-- The callback of the timer.
abbrev pub time_out : Gate → Gate
time_out g =
    let fired = record g { timer = false } in
    if not g.timer
    then g
    else if g.state == checking
    then (then_observe false (transition optimistic_allow fired)).0
    else fired

abbrev settled : Gate → Gate
settled g = record g { decision_pending = false; requested = false }

-- The promise of `requestDecision` settles; then its decision has been verified.
abbrev pub request_resolves : Gate → Gate
request_resolves g = if g.requested then record (settled g) { verifying = true } else g

abbrev pub request_rejects : Gate → Gate
request_rejects g = if g.requested then or_published (mark_unavailable (settled g)) else g

abbrev pub request_verified : Options → Option Verification → ℕ → Gate → Gate
request_verified o v now g =
    if g.verifying
    then or_published (verify_and_apply o v now (record g { verifying = false }))
    else g

abbrev is_otp : Option Outcome → Bool
is_otp none = false
is_otp (some outcome) = outcome == otp

-- `openOtp` up to `launchOtp`: `none` where it returns false.
abbrev pub begin_otp : Options → Gate → Option Gate
begin_otp o g =
    if g.disposed
      || g.opening_otp
      || g.otp_open
      || not (g.state == otp_required)
      || not (is_otp g.decision)
      || not o.can_launch
    then none
    else some (record g { opening_otp = true })

abbrev opened : Text → Gate → Gate
opened id g = effect start_authoritative_polling (
    effect freeze_page (
      effect pause_observation (
        publish g.state (record g {
          active_challenge_id = some id;
          otp_open = true;
          observation_resumed = false;
        }))))

-- `openOtp` from when `launchOtp` has settled: the challenge of metadata that passes its schema.
abbrev pub finish_otp : Option Text → Gate → Gate × Bool
finish_otp none g = (record g { opening_otp = false }, false)
finish_otp (some id) g =
    if is_valid_challenge_id id
    then (record (opened id g) { opening_otp = false }, true)
    else (record g { opening_otp = false }, false)

pub data StatusKind : Type 0 where
  is_pending has_verified not_available : StatusKind

-- `AuthoritativeGateStatus`
pub record Status : Type 0 where
  pub status : StatusKind
  pub site_id : Text
  pub gate_session_id : Text
  pub challenge_id : Text

abbrev pub says_verified : Status → Bool
says_verified s = elim s.status [ has_verified ↦ true | _ ↦ false ]

abbrev pub is_challenge : Text → Option Text → Bool
is_challenge id none = false
is_challenge id (some active) = id == active

abbrev pub released : Gate × Bool → Gate × Bool
released (g, moved) =
    if moved then (effect unfreeze_page (effect stop_authoritative_polling g), true) else (g, false)

-- `applyAuthoritativeStatus`. The active challenge is not empty.
abbrev pub apply_authoritative_status : Options → Status → Gate → Gate × Bool
apply_authoritative_status o s g =
    if not (g.state == otp_required)
      || not g.otp_open
      || not (says_verified s)
      || not (s.site_id == o.site_id)
      || not (s.gate_session_id == o.gate_session_id)
      || not (is_challenge s.challenge_id g.active_challenge_id)
    then (g, false)
    else released (transition verified (record g { otp_open = false; active_challenge_id = none }))

abbrev pub resume_observation : Gate → Gate × Bool
resume_observation g =
    if not (g.state == verified) || g.observation_resumed
    then (g, false)
    else (effect (start_observation true) (record g { observation_resumed = true }), true)

abbrev pub dispose : Gate → Gate
dispose g = record g { disposed = true; timer = false }

-- What can happen to a controller next.
pub data Step : Type 0 where
  starts times_out resolves rejects : Step
  verifies revises : Option Verification → ℕ → Step
  begins_otp : Step
  launches : Option Text → Step
  reports : Status → Step
  resumes disposes : Step

abbrev or_same : Gate → Option Gate → Gate
or_same g none = g
or_same g (some h) = h

unfoldable pub step : Options → Step → Gate → Gate
step o starts g = start g
step o times_out g = time_out g
step o resolves g = request_resolves g
step o rejects g = request_rejects g
step o (verifies v now) g = request_verified o v now g
step o (revises v now) g = (verify_and_apply o v now g).0
step o begins_otp g = or_same g (begin_otp o g)
step o (launches id) g = if g.opening_otp then (finish_otp id g).0 else g
step o (reports s) g = (apply_authoritative_status o s g).0
step o resumes g = (resume_observation g).0
step o disposes g = dispose g

unfoldable pub run : Options → List Step → Gate → Gate
run o [] g = g
run o (s ∷ steps) g = run o steps (step o s g)
