-- ===== src/Gate/Controller/Page.antt =====
-- What a gate does to its page: libraries/gate-core/src/controller.ts.
use mathlib.Core.Option.{some-injective}
use powerotp.Prelude.{
  under_test, subst, ℕ, Bool, true, false, not, ◌&&◌, ◌||◌, Option, none, some, List, [], ◌∷◌, ◌==◌,
  every, if◌then◌else◌, Text, text_eq, ◌≡◌, refl, arith, Bool-cases, inl, inr,
}
use powerotp.Gate.States.{otp_required, Outcome, allow, otp, gate_state_eq, outcome_eq}
use powerotp.Gate.Decision.{
  Envelope, Verification, Validated, accepted, refused, validate_verified_decision,
}
use powerotp.Gate.Variables.{
  Options, Gate, Output, effect_of, freeze_page, unfreeze_page, start_authoritative_polling,
  stop_authoritative_polling, Restored, create_gate_controller, is_valid_challenge_id,
  restored_gate, is_creatable, restored_checking, restored_observing, restored_otp,
}
use powerotp.Gate.Controller.{
  Status, Step, starts, times_out, resolves, rejects, verifies, revises, begins_otp, launches,
  reports, resumes, disposes, step, run, apply_verified, apply_validated, verify_and_apply, context,
  start, time_out, apply_outcome, request_rejects, apply_authoritative_status, finish_otp,
  or_published, accept_decision, dispose,
}

-- Whether the page is frozen, or the server is polled, after the calls that were made.
abbrev pub is_frozen : List Output → Bool
is_frozen [] = false
is_frozen (effect_of freeze_page ∷ output) = true
is_frozen (effect_of unfreeze_page ∷ output) = false
is_frozen (_ ∷ output) = is_frozen output

abbrev pub is_polling : List Output → Bool
is_polling [] = false
is_polling (effect_of start_authoritative_polling ∷ output) = true
is_polling (effect_of stop_authoritative_polling ∷ output) = false
is_polling (_ ∷ output) = is_polling output

-- The page is frozen and the server is polled exactly while a challenge is open, which is only while
-- one is required.
abbrev pub IsHeld : Gate → Type 0
IsHeld g =
    (is_frozen g.output ≡ g.otp_open)
    × (is_polling g.output ≡ g.otp_open)
    × ((if g.otp_open || g.opening_otp then g.state == otp_required else true) ≡ true)
    × ((g.otp_open && g.opening_otp) ≡ false)

abbrev IsLive : Gate → Type 0
IsLive g = (g.disposed ≡ false) × IsHeld g

start-IsLive : (g : Gate) → IsLive g → IsLive (start g)
start-IsLive g (live, (frozen, polling, asked, once)) =
    ground (arith, live, frozen, polling, asked, once)

time_out-IsLive : (g : Gate) → IsLive g → IsLive (time_out g)
time_out-IsLive g (live, (frozen, polling, asked, once)) =
    ground (arith, live, frozen, polling, asked, once)

rejects-IsLive : (g : Gate) → IsLive g → IsLive (request_rejects g)
rejects-IsLive g (live, (frozen, polling, asked, once)) =
    ground (arith, live, frozen, polling, asked, once)

apply_otp-IsLive : (g : Gate) → IsLive g → IsLive (apply_outcome otp g).0
apply_otp-IsLive g (live, (frozen, polling, asked, once)) =
    ground (arith, live, frozen, polling, asked, once)

apply_allow-IsLive : (g : Gate) → IsLive g → IsLive (apply_outcome allow g).0
apply_allow-IsLive g (live, (frozen, polling, asked, once)) =
    ground (arith, live, frozen, polling, asked, once)

apply_verified-IsLive : (d : Envelope) (g : Gate) → IsLive g → IsLive (apply_verified d g).0
apply_verified-IsLive d g held = elim (Bool-cases (g.state == otp_required && d.outcome == allow)) [
  | inl active ↦ rw active held
  | inr clear ↦ rw clear (applied d.outcome)
]
  where
    applied : (outcome : Outcome) → IsLive (apply_outcome outcome (accept_decision d g)).0
    applied otp = apply_otp-IsLive (accept_decision d g) held
    applied allow = apply_allow-IsLive (accept_decision d g) held

reports-IsLive :
    (o : Options) (s : Status) (g : Gate) → IsLive g → IsLive (apply_authoritative_status o s g).0
reports-IsLive o s g (live, (frozen, polling, asked, once)) =
    ground (arith, live, frozen, polling, asked, once)

launches-IsLive :
    (id : Option Text) (g : Gate) → g.opening_otp ≡ true → IsLive g → IsLive (finish_otp id g).0
launches-IsLive none g opening (live, (frozen, polling, asked, once)) =
    ground (arith, live, frozen, polling, asked, once)
launches-IsLive (some id) g opening (live, (frozen, polling, asked, once)) =
    ground (arith, live, frozen, polling, asked, once)

verify_and_apply-IsLive :
    (o : Options) (v : Option Verification) (now : ℕ) (g : Gate)
    → IsLive g
    → IsLive (verify_and_apply o v now g).0
verify_and_apply-IsLive o none now g held = held
verify_and_apply-IsLive o (some v) now g (live, held) =
    under_test (λ (p : Gate × Bool). IsLive p.0) g.disposed (g, false) _ (λ gone. (live, held))
      λ here. applied (validate_verified_decision v (context o now g))
  where
    applied : (r : Validated) → IsLive (apply_validated r g).0
    applied (accepted d) = apply_verified-IsLive d g (live, held)
    applied (refused reason) = (live, held)

or_published-IsLive : (p : Gate × Bool) → IsLive p.0 → IsLive (or_published p)
or_published-IsLive (g, true) held = held
or_published-IsLive (g, false) held = held

abbrev pub is_disposal : Step → Bool
is_disposal disposes = true
is_disposal s = false

step-IsLive :
    (o : Options) (s : Step) (g : Gate) → is_disposal s ≡ false → IsLive g → IsLive (step o s g)
unfolding step
step-IsLive o starts g k held = start-IsLive g held
step-IsLive o times_out g k held = time_out-IsLive g held
step-IsLive o resolves g k (live, (frozen, polling, asked, once)) =
    ground (arith, live, frozen, polling, asked, once)
step-IsLive o rejects g k held = rejects-IsLive g held
step-IsLive o (verifies v now) g k held =
    let before = record g { verifying = false } in
    under_test IsLive g.verifying _ g
      (λ busy.
        or_published-IsLive (verify_and_apply o v now before)
          (verify_and_apply-IsLive o v now before held))
      λ idle. held
step-IsLive o (revises v now) g k held = verify_and_apply-IsLive o v now g held
step-IsLive o begins_otp g k (live, (frozen, polling, asked, once)) =
    ground (arith, live, frozen, polling, asked, once)
step-IsLive o (launches id) g k held =
    under_test IsLive g.opening_otp _ g (λ opening. launches-IsLive id g opening held) λ idle. held
step-IsLive o (reports s) g k held = reports-IsLive o s g held
step-IsLive o resumes g k (live, (frozen, polling, asked, once)) =
    ground (arith, live, frozen, polling, asked, once)
step-IsLive o disposes g k held = cc

run-IsLive :
    (o : Options) (steps : List Step) (g : Gate)
    → every (λ s. not (is_disposal s)) steps ≡ true
    → IsLive g
    → IsLive (run o steps g)
unfolding run
run-IsLive o [] g k held = held
run-IsLive o (s ∷ steps) g k held =
    let first : is_disposal s ≡ false = ground (arith, k) in
    let others : every (λ s. not (is_disposal s)) steps ≡ true = ground (arith, k) in
    run-IsLive o steps (step o s g) others (step-IsLive o s g first held)

restored_gate-IsLive : (restored : Option Restored) → IsLive (restored_gate restored)
restored_gate-IsLive none = (refl, (refl, refl, refl, refl))
restored_gate-IsLive (some (restored_checking nonces s)) = (refl, (refl, refl, refl, refl))
restored_gate-IsLive (some (restored_observing nonces s)) = (refl, (refl, refl, refl, refl))
restored_gate-IsLive (some (restored_otp nonces s id)) = (refl, (refl, refl, refl, refl))

-- Until it is disposed of, a controller holds the page frozen and polls the server exactly while a
-- challenge is open, whatever happens and in whatever order; a challenge is open, or being opened,
-- only while one is required, and none is opened while one is open.
pub run-IsHeld :
    (o : Options) (restored : Option Restored) (g : Gate) (steps : List Step)
    → create_gate_controller o restored ≡ some g
    → every (λ s. not (is_disposal s)) steps ≡ true
    → IsHeld (run o steps g)
run-IsHeld o restored g steps made k = elim (Bool-cases (is_creatable o restored)) [
  | inl good ↦
      let same : restored_gate restored ≡ g =
        some-injective (restored_gate restored) g (rw good at made) in
      (run-IsLive o steps g k (subst IsLive same (restored_gate-IsLive restored))).1
  | inr bad ↦ cc (rw bad at made)
]

frozen_launch :
    (o : Options) (id : Text) (g : Gate)
    → g.opening_otp ≡ true
    → is_valid_challenge_id id ≡ true
    → is_frozen (step o (launches (some id)) g).output ≡ true
unfolding step
frozen_launch o id g opening valid = rw (opening, valid) refl

abbrev IsStuck : Gate → Type 0
IsStuck g = (g.disposed ≡ true) × (is_frozen g.output ≡ true)

or_published-IsStuck : (p : Gate × Bool) → IsStuck p.0 → IsStuck (or_published p)
or_published-IsStuck (g, true) held = held
or_published-IsStuck (g, false) held = held

step-IsStuck : (o : Options) (s : Step) (g : Gate) → IsStuck g → IsStuck (step o s g)
unfolding step
step-IsStuck o starts g (gone, frozen) = ground (arith, gone, frozen)
step-IsStuck o times_out g (gone, frozen) = ground (arith, gone, frozen)
step-IsStuck o resolves g (gone, frozen) = ground (arith, gone, frozen)
step-IsStuck o rejects g (gone, frozen) = ground (arith, gone, frozen)
step-IsStuck o (verifies none now) g (gone, frozen) = ground (arith, gone, frozen)
step-IsStuck o (verifies (some v) now) g (gone, frozen) = ground (arith, gone, frozen)
step-IsStuck o (revises none now) g (gone, frozen) = (gone, frozen)
step-IsStuck o (revises (some v) now) g (gone, frozen) = ground (arith, gone, frozen)
step-IsStuck o begins_otp g (gone, frozen) = ground (arith, gone, frozen)
step-IsStuck o (launches none) g (gone, frozen) = ground (arith, gone, frozen)
step-IsStuck o (launches (some id)) g (gone, frozen) = ground (arith, gone, frozen)
step-IsStuck o (reports s) g (gone, frozen) = ground (arith, gone, frozen)
step-IsStuck o resumes g (gone, frozen) = ground (arith, gone, frozen)
step-IsStuck o disposes g (gone, frozen) = (refl, frozen)

run-IsStuck : (o : Options) (steps : List Step) (g : Gate) → IsStuck g → IsStuck (run o steps g)
unfolding run
run-IsStuck o [] g held = held
run-IsStuck o (s ∷ steps) g held = run-IsStuck o steps (step o s g) (step-IsStuck o s g held)

-- A controller that is disposed of while it opens a challenge freezes the page when the challenge
-- arrives, and never unfreezes it.
pub disposed_freezes :
    (o : Options) (id : Text) (steps : List Step) (g : Gate)
    → g.opening_otp ≡ true
    → is_valid_challenge_id id ≡ true
    → is_frozen (run o (disposes ∷ launches (some id) ∷ steps) g).output ≡ true
unfolding run step
disposed_freezes o id steps g opening valid =
    let launched = step o (launches (some id)) (dispose g) in
    let gone : launched.disposed ≡ true = ground (arith, opening, valid) in
    (run-IsStuck o steps launched (gone, frozen_launch o id (dispose g) opening valid)).1
