-- ===== src/Gate/Controller/Nonces.antt =====
-- A decision is applied once: libraries/gate-core/src/controller.ts and decision.ts.
use powerotp.Prelude.{
  under_test, ℕ, Bool, true, false, ◌&&◌, Option, none, some, List, [], ◌∷◌, ◌==◌, ==_refl, Text,
  text_eq, includes, ◌≡◌, refl, sym, subst, arith, Bool-cases, inl, inr, nat_eq,
}
use powerotp.Gate.States.{otp_required, Outcome, allow, otp, gate_state_eq, outcome_eq}
use powerotp.Gate.Decision.{
  Envelope, Verification, trusted, Context, Validated, accepted, refused,
  validate_verified_decision,
}
use powerotp.Gate.Variables.{Options, Gate}
use powerotp.Gate.Controller.{
  Step, starts, times_out, resolves, rejects, verifies, revises, begins_otp, launches, reports,
  resumes, disposes, step, run, apply_validated, verify_and_apply, context, apply_outcome,
  or_published, accept_decision,
}

abbrev pub is_spent : Text → Gate → Bool
is_spent nonce g = includes g.accepted_nonces nonce

-- The nonce of a decision that was found good.
abbrev has_nonce : Text → Validated → Bool
has_nonce nonce (accepted d) = d.nonce == nonce
has_nonce nonce (refused reason) = true

abbrev is_refused : Validated → Bool
is_refused (accepted d) = false
is_refused (refused reason) = true

has_nonce-validate :
    (d : Envelope) (c : Context)
    → has_nonce d.nonce (validate_verified_decision (trusted (some d)) c) ≡ true
unfolding validate_verified_decision
has_nonce-validate d c = ground (arith, ==_refl d.nonce)

is_refused-validate :
    (d : Envelope) (c : Context)
    → includes c.accepted_nonces d.nonce ≡ true
    → is_refused (validate_verified_decision (trusted (some d)) c) ≡ true
unfolding validate_verified_decision
is_refused-validate d c spent = ground (arith, spent)

module _ (nonce : Text) where
  spent_outcome :
      (outcome : Outcome) (g : Gate)
      → is_spent nonce g ≡ true
      → is_spent nonce (apply_outcome outcome g).0 ≡ true
  spent_outcome allow g h = ground (arith, h)
  spent_outcome otp g h = ground (arith, h)

  spent_accepted :
      (d : Envelope) (g : Gate)
      → is_spent nonce g ≡ true
      → is_spent nonce (accept_decision d g) ≡ true
  spent_accepted d g h = ground (arith, h)

  spent_applied :
      (r : Validated) (g : Gate)
      → is_spent nonce g ≡ true
      → is_spent nonce (apply_validated r g).0 ≡ true
  spent_applied (refused reason) g h = h
  spent_applied (accepted d) g h =
      let after = spent_outcome d.outcome (accept_decision d g) (spent_accepted d g h) in
      ground (arith, h, after)

  spent_verified :
      (o : Options) (v : Option Verification) (now : ℕ) (g : Gate)
      → is_spent nonce g ≡ true
      → is_spent nonce (verify_and_apply o v now g).0 ≡ true
  spent_verified o none now g h = h
  spent_verified o (some v) now g h =
      let after = spent_applied (validate_verified_decision v (context o now g)) g h in
      ground (arith, h, after)

  spent_or_published :
      (p : Gate × Bool) → is_spent nonce p.0 ≡ true → is_spent nonce (or_published p) ≡ true
  spent_or_published (g, true) h = h
  spent_or_published (g, false) h = h

  spent_step :
      (o : Options) (s : Step) (g : Gate)
      → is_spent nonce g ≡ true
      → is_spent nonce (step o s g) ≡ true
  unfolding step
  spent_step o starts g h = ground (arith, h)
  spent_step o times_out g h = ground (arith, h)
  spent_step o resolves g h = ground (arith, h)
  spent_step o rejects g h = ground (arith, h)
  spent_step o (verifies v now) g h =
      let before = record g { verifying = false } in
      let after =
        spent_or_published (verify_and_apply o v now before) (spent_verified o v now before h) in
      ground (arith, h, after)
  spent_step o (revises v now) g h = spent_verified o v now g h
  spent_step o begins_otp g h = ground (arith, h)
  spent_step o (launches none) g h = ground (arith, h)
  spent_step o (launches (some id)) g h = ground (arith, h)
  spent_step o (reports s) g h = ground (arith, h)
  spent_step o resumes g h = ground (arith, h)
  spent_step o disposes g h = h

  spent_run :
      (o : Options) (steps : List Step) (g : Gate)
      → is_spent nonce g ≡ true
      → is_spent nonce (run o steps g) ≡ true
  unfolding run
  spent_run o [] g h = h
  spent_run o (s ∷ steps) g h = spent_run o steps (step o s g) (spent_step o s g h)

-- What a decision can change of the gate.
abbrev pub SameDecision : Gate → Gate → Type 0
SameDecision g h =
    (g.state ≡ h.state)
    × (g.decision ≡ h.decision)
    × (g.last_applied ≡ h.last_applied)
    × (g.accepted_nonces ≡ h.accepted_nonces)

refused_again :
    (r : Validated) (g : Gate)
    → is_refused r ≡ true
    → ((apply_validated r g).1 ≡ false) × SameDecision (apply_validated r g).0 g
refused_again (refused reason) g h = (refl, (refl, refl, refl, refl))
refused_again (accepted d) g h = cc

spent_refused :
    (o : Options) (e : Envelope) (now : ℕ) (g : Gate)
    → is_spent e.nonce g ≡ true
    → let again = verify_and_apply o (some (trusted (some e))) now g in
      (again.1 ≡ false) × SameDecision again.0 g
spent_refused o e now g h =
    let result = validate_verified_decision (trusted (some e)) (context o now g) in
    under_test (λ (p : Gate × Bool). (p.1 ≡ false) × SameDecision p.0 g) g.disposed (g, false)
      (apply_validated result g) (λ gone. (refl, (refl, refl, refl, refl)))
      λ here. refused_again result g (is_refused-validate e (context o now g) h)

applied_spends :
    (r : Validated) (nonce : Text) (g : Gate)
    → has_nonce nonce r ≡ true
    → (apply_validated r g).1 ≡ true
    → is_spent nonce (apply_validated r g).0 ≡ true
applied_spends (refused reason) nonce g own h = cc
applied_spends (accepted d) nonce g own h =
    let fresh : is_spent nonce (accept_decision d g) ≡ true = ground (arith, own) in
    let after = spent_outcome nonce d.outcome (accept_decision d g) fresh in
    elim (Bool-cases (g.state == otp_required && d.outcome == allow)) [
      | inl active ↦ cc (rw active at h)
      | inr clear ↦ ground (arith, clear, after)
    ]

verified_spends :
    (o : Options) (d : Envelope) (now : ℕ) (g : Gate)
    → (verify_and_apply o (some (trusted (some d))) now g).1 ≡ true
    → is_spent d.nonce (verify_and_apply o (some (trusted (some d))) now g).0 ≡ true
verified_spends o d now g h =
    let c = context o now g in
    let result = validate_verified_decision (trusted (some d)) c in
    let spends = applied_spends result d.nonce g (has_nonce-validate d c) in
    ground (arith, h, spends)

-- A decision that was applied is never applied again, nor another one under its nonce: after any
-- steps in between, it is answered with false and changes neither the state nor the decision, the
-- sequence or the nonces of the gate.
pub decision_once :
    (o : Options) (d e : Envelope) (now later : ℕ) (steps : List Step) (g : Gate)
    → (verify_and_apply o (some (trusted (some d))) now g).1 ≡ true
    → e.nonce ≡ d.nonce
    → let after = run o steps (verify_and_apply o (some (trusted (some d))) now g).0 in
      let again = verify_and_apply o (some (trusted (some e))) later after in
      (again.1 ≡ false) × SameDecision again.0 after
decision_once o d e now later steps g applied same =
    let after = run o steps (verify_and_apply o (some (trusted (some d))) now g).0 in
    let spent = spent_run d.nonce o steps _ (verified_spends o d now g applied) in
    spent_refused o e later after (subst (λ n. is_spent n after ≡ true) (sym same) spent)
