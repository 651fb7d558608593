-- ===== src/Gate/Controller/Otp.antt =====
-- How a gate gets out of `otp_required`: libraries/gate-core/src/controller.ts.
use powerotp.Prelude.{
  ℕ, Bool, true, false, not, ◌&&◌, Option, none, some, List, [], ◌∷◌, ◌==◌, Text, text_eq, ◌≡◌,
  refl, ◌∙◌, arith, Bool-cases, inl, inr,
}
use powerotp.Gate.States.{otp_required, gate_state_eq, outcome_eq}
use powerotp.Gate.Decision.{
  Envelope, Verification, Validated, accepted, refused, validate_verified_decision,
}
use powerotp.Gate.Variables.{Options, Gate}
use powerotp.Gate.Controller.{
  Status, says_verified, Step, starts, times_out, resolves, rejects, verifies, revises, begins_otp,
  launches, reports, resumes, disposes, step, run, apply_verified, apply_validated,
  verify_and_apply, context, start, time_out, request_verified, request_rejects,
  apply_authoritative_status, finish_otp, or_published, is_challenge,
}

-- The server's word, while the page of the challenge is open, that this challenge of this site and
-- session is verified.
abbrev pub confirms : Options → Step → Gate → Bool
confirms o (reports s) g =
    says_verified s
    && s.site_id == o.site_id
    && s.gate_session_id == o.gate_session_id
    && g.otp_open
    && is_challenge s.challenge_id g.active_challenge_id
confirms o s g = false

-- No step of a run is such a report.
abbrev pub unconfirmed : Options → List Step → Gate → Bool
unconfirmed o [] g = true
unconfirmed o (s ∷ steps) g = not (confirms o s g) && unconfirmed o steps (step o s g)

otp_start : (g : Gate) → g.state ≡ otp_required → (start g).state ≡ otp_required
otp_start g h = ground (arith, h)

otp_time_out : (g : Gate) → g.state ≡ otp_required → (time_out g).state ≡ otp_required
otp_time_out g h = ground (arith, h)

otp_rejects : (g : Gate) → g.state ≡ otp_required → (request_rejects g).state ≡ otp_required
otp_rejects g h = ground (arith, h)

otp_apply_verified :
    (d : Envelope) (g : Gate) → g.state ≡ otp_required → (apply_verified d g).0.state ≡ otp_required
otp_apply_verified d g h = ground (arith, h)

otp_reports :
    (o : Options) (s : Status) (g : Gate)
    → confirms o (reports s) g ≡ false
    → g.state ≡ otp_required
    → (apply_authoritative_status o s g).0.state ≡ otp_required
otp_reports o s g h k = ground (arith, h, k)

otp_apply_validated :
    (r : Validated) (g : Gate)
    → g.state ≡ otp_required
    → (apply_validated r g).0.state ≡ otp_required
otp_apply_validated (accepted d) g h = otp_apply_verified d g h
otp_apply_validated (refused reason) g h = h

otp_verify_and_apply :
    (o : Options) (v : Option Verification) (now : ℕ) (g : Gate)
    → g.state ≡ otp_required
    → (verify_and_apply o v now g).0.state ≡ otp_required
otp_verify_and_apply o none now g h = h
otp_verify_and_apply o (some v) now g h =
    let applied = otp_apply_validated (validate_verified_decision v (context o now g)) g h in
    ground (arith, h, applied)

or_published_state : (p : Gate × Bool) → (or_published p).state ≡ p.0.state
or_published_state (g, true) = refl
or_published_state (g, false) = refl

otp_verified :
    (o : Options) (v : Option Verification) (now : ℕ) (g : Gate)
    → g.state ≡ otp_required
    → (request_verified o v now g).state ≡ otp_required
otp_verified o v now g h =
    let before = record g { verifying = false } in
    let after =
      or_published_state (verify_and_apply o v now before)
      ∙ otp_verify_and_apply o v now before h in
    elim (Bool-cases g.verifying) [ inl busy ↦ rw busy after | inr idle ↦ rw idle h ]

otp_launches :
    (id : Option Text) (g : Gate)
    → g.state ≡ otp_required
    → (finish_otp id g).0.state ≡ otp_required
otp_launches none g h = h
otp_launches (some id) g h = ground (arith, h)

pub step_holds :
    (o : Options) (s : Step) (g : Gate)
    → confirms o s g ≡ false
    → g.state ≡ otp_required
    → (step o s g).state ≡ otp_required
unfolding step
step_holds o starts g k h = otp_start g h
step_holds o times_out g k h = otp_time_out g h
step_holds o resolves g k h = ground (arith, h)
step_holds o rejects g k h = otp_rejects g h
step_holds o (verifies v now) g k h = otp_verified o v now g h
step_holds o (revises v now) g k h = otp_verify_and_apply o v now g h
step_holds o begins_otp g k h = ground (arith, h)
step_holds o (launches id) g k h = let opened = otp_launches id g h in ground (arith, h, opened)
step_holds o (reports s) g k h = otp_reports o s g k h
step_holds o resumes g k h = ground (arith, h)
step_holds o disposes g k h = h

-- A gate that asks for a one-time password does so, whatever happens and in whatever order, until a
-- report says, while the page of the active challenge is open, that it is verified.
pub otp_holds :
    (o : Options) (steps : List Step) (g : Gate)
    → unconfirmed o steps g ≡ true
    → g.state ≡ otp_required
    → (run o steps g).state ≡ otp_required
unfolding run
otp_holds o [] g k h = h
otp_holds o (s ∷ steps) g k h =
    let first : confirms o s g ≡ false = ground (arith, k) in
    let others : unconfirmed o steps (step o s g) ≡ true = ground (arith, k) in
    otp_holds o steps (step o s g) others (step_holds o s g first h)
