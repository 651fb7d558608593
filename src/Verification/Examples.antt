-- ===== src/Verification/Examples.antt =====
-- A store with interactions of several kinds, for the tests of backend/packages/api/src/verification-service.ts.
use mathlib.Core.Bool.{and-eq-true_iff}
use powerotp.Prelude.{
  every, ==→≡, ℕ, ◌≡◌, refl, ap, ◌∙◌, Bool, true, false, Option, none, some, List, [], ◌∷◌, inl,
  inr, ◌==◌, Bool-cases, Text, text, text_eq, get, put, Option-map, list_beq,
}
use powerotp.Verification.State.{
  call_reachability, voice_code, voice_challenge, sms_code, dispatching, calling, ringing,
  awaiting_response, succeeded, failed, is_transition_allowed, has_reached_awaiting_response,
  is_terminal_state, type_eq, state_eq,
}
use powerotp.Verification.Store.{
  Interaction, World, Clock, store_found, commit, record_transition, schedule_reconcile,
}
use powerotp.Verification.Store.Frame.{Core, core, core_of, core-store_found}
use powerotp.Verification.Service.{
  Result, ok, err, charge_failed, decryption_failed, transition, submit_code, submit_challenge,
  require_active,
}
use powerotp.Verification.Service.Parts.{ChargeKeeps}
use powerotp.Verification.Service.History.{IsKeyed}
use powerotp.Verification.Service.Log.{
  Request, to_move, to_cancel, to_submit_code, to_submit_challenge, to_claim,
}
use powerotp.Verification.Delivery.{
  documents_at, oldest, consume_interaction_token, claim_next_for_node,
}

abbrev pub blank : Interaction
blank = record {
  id = text "code";
  project_id = text "project";
  customer_id = text "customer";
  type = voice_code;
  target_number = text "+15550001111";
  state = awaiting_response;
  reason_code = none;
  sequence = 7;
  correlation_id = text "request";
  browser_response = false;
  hosted_auth_contact = none;
  expected_code_encrypted = some (text "1234");
  challenge_answers = none;
  token_nonce = some (text "nonce");
  token_consumed_at = none;
  call_trunk_id = some (text "trunk");
  sms_did = none;
  email_sent = false;
  provider_record = none;
  end_user_ip = none;
  end_user_user_agent = none;
  provider_record_status = none;
  email_branding = none;
  free_quota_covered = false;
  billing_pending_at = some 40;
  billing_applied_at = none;
  created_at = 10;
  updated_at = 40;
  expires_at = 100;
}

abbrev pub waiting_call : Interaction
waiting_call = record blank {
  id = text "call";
  type = call_reachability;
  state = dispatching;
  sequence = 2;
  billing_pending_at = none;
  created_at = 20;
}

abbrev challenge : Interaction
challenge = record blank {
  id = text "challenge";
  type = voice_challenge;
  challenge_answers = some (text "red");
}

abbrev done : Interaction
done = record blank { id = text "done"; state = succeeded }

abbrev pub world : World
world = record {
  requests =
      (text "code", blank)
      ∷ (text "call", waiting_call)
      ∷ (text "challenge", challenge)
      ∷ (text "done", done)
      ∷ [];
  events = [];
  callbacks = [];
  reconciles = [];
}

abbrev pub at : ℕ → Clock
at now = record { checked = now; updated = now; billed = now; occurred = now }

-- The charge of a delivery, which marks it as paid.
abbrev paid : Option Interaction → Option Interaction
paid none = none
paid (some r) = some (record r { billing_pending_at = none; billing_applied_at = some 50 })

abbrev pub pay : Interaction → World → World × Bool
pay r w = (store_found w r.id (paid (get r.id w.requests)), true)

paid_core : (o : Option Interaction) → Option-map core_of (paid o) ≡ Option-map core_of o
paid_core none = refl
paid_core (some r) = refl

pub pay_keeps : ChargeKeeps pay
pay_keeps = record {
  keeps_core = λ x w j. core-store_found w x.id j _ (paid_core (get x.id w.requests));
  keeps_events = λ x w. kept_events w x.id (paid (get x.id w.requests));
  keeps_callbacks = λ x w. kept_callbacks w x.id (paid (get x.id w.requests));
  keeps_reconciles = λ x w. kept_reconciles w x.id (paid (get x.id w.requests));
}
  where
    kept_events :
        (w : World) (id : Text) (o : Option Interaction) → (store_found w id o).events ≡ w.events
    kept_events w id none = refl
    kept_events w id (some r) = refl

    kept_callbacks :
        (w : World) (id : Text) (o : Option Interaction)
        → (store_found w id o).callbacks ≡ w.callbacks
    kept_callbacks w id none = refl
    kept_callbacks w id (some r) = refl

    kept_reconciles :
        (w : World) (id : Text) (o : Option Interaction)
        → (store_found w id o).reconciles ≡ w.reconciles
    kept_reconciles w id none = refl
    kept_reconciles w id (some r) = refl

-- UTF-8 of ASCII, and a decryption that leaves texts as they are, and fails on the empty one.
abbrev pub plain : Text → Text
plain t = t

abbrev pub clear : Text → Option Text
clear [] = none
clear (c ∷ s) = some (c ∷ s)

-- A charge that throws.
abbrev pub broke : Interaction → World → World × Bool
broke r w = (w, false)

abbrev pub graded : Text → List Text → Option Bool
graded answers options = some (list_beq (answers ∷ []) options)

abbrev pub answered : World × Result Bool
answered = submit_code pay clear plain world (text "code") (text "1234") (at 60) (text "e1")

abbrev pub claimed : World × Option Interaction
claimed = claim_next_for_node world call_reachability (at 30) (text "e1")

pub code_found : get (text "code") world.requests ≡ some blank
unfolding get
code_found = refl

pub answered_ok : answered.1 ≡ ok true
unfolding get put submit_code require_active transition commit record_transition schedule_reconcile
    is_transition_allowed has_reached_awaiting_response is_terminal_state
answered_ok = refl

-- The interaction owes a charge: where it throws, the submission fails and moves nothing.
charge_fails :
    submit_code broke clear plain world (text "code") (text "1234") (at 60) (text "e1")
    ≡ (world, err charge_failed)
unfolding get put submit_code require_active transition commit record_transition schedule_reconcile
    is_transition_allowed has_reached_awaiting_response is_terminal_state
charge_fails = refl

undecrypted :
    submit_code pay (λ t. none) plain world (text "code") (text "1234") (at 60) (text "e1")
    ≡ (world, err decryption_failed)
unfolding get put submit_code require_active transition commit record_transition schedule_reconcile
    is_transition_allowed has_reached_awaiting_response is_terminal_state
undecrypted = refl

pub graded_ok :
    (submit_challenge pay graded world (text "challenge") (text "blue" ∷ []) (at 60) (text "e1")).1
    ≡ ok false
unfolding get put submit_challenge require_active transition commit record_transition
    schedule_reconcile is_transition_allowed has_reached_awaiting_response is_terminal_state
graded_ok = refl

pub call_found : get (text "call") world.requests ≡ some waiting_call
unfolding get
call_found = refl

pub call_moves : (transition pay world (text "call") calling none (at 30) (text "e1")).1 ≡ ok true
unfolding get put transition commit record_transition schedule_reconcile is_transition_allowed
    has_reached_awaiting_response is_terminal_state
call_moves = refl

pub call_jumps : (transition pay world (text "call") ringing none (at 30) (text "e1")).1 ≡ ok false
unfolding get put transition commit record_transition schedule_reconcile is_transition_allowed
    has_reached_awaiting_response is_terminal_state
call_jumps = refl

pub call_claimed :
    claimed.1 ≡ some (record waiting_call { state = calling; updated_at = 30; sequence = 3 })
unfolding claim_next_for_node oldest documents_at get
call_claimed = refl

nothing_claimed : (claim_next_for_node world call_reachability (at 100) (text "e1")).1 ≡ none
unfolding claim_next_for_node oldest documents_at get
nothing_claimed = refl

-- A node that asks for messages is given one, which its machine does not lead to `calling`.
message_claimed :
    let waiting = record waiting_call { type = sms_code } in
    (claim_next_for_node
      (record world { requests = (text "call", waiting) ∷ [] })
      sms_code
      (at 30)
      (text "e1")).1
    ≡ some (record waiting { state = calling; updated_at = 30; sequence = 3 })
unfolding claim_next_for_node oldest documents_at get
message_claimed = refl

message_astray : is_transition_allowed sms_code dispatching calling ≡ false
unfolding is_transition_allowed
message_astray = refl

keyed_list :
    (rs : List (Text × Interaction))
    → every (λ (e : Text × Interaction). e.1.id == e.0) rs ≡ true
    → (j : Text)
    → Option-map (λ (c : Core). c.0) (Option-map core_of (get j rs))
      ≡ Option-map (λ (c : Core). j) (Option-map core_of (get j rs))
unfolding get
keyed_list [] h j = refl
keyed_list ((k, r) ∷ rs) h j =
    let (own, rest) =
      (and-eq-true_iff (r.id == k) (every (λ (e : Text × Interaction). e.1.id == e.0) rs)).0 h in
    elim (Bool-cases (k == j)) [
      | inl same ↦ rw same (ap some (==→≡ r.id k own ∙ ==→≡ k j same))
      | inr other ↦ rw other (keyed_list rs rest j)
    ]

pub world-IsKeyed : IsKeyed world
world-IsKeyed = keyed_list world.requests refl

pub call_core : core world (text "call") ≡ some (text "call", call_reachability, dispatching, 2)
unfolding get
call_core = refl

pub done_core : core world (text "done") ≡ some (text "done", voice_code, succeeded, 7)
unfolding get
done_core = refl

pub succeeded_ends : is_terminal_state succeeded ≡ true
unfolding is_terminal_state
succeeded_ends = refl

token_accepted : (consume_interaction_token world (text "code") (text "nonce") 55).1 ≡ true
unfolding consume_interaction_token get
token_accepted = refl

abbrev pub requests : List Request
requests =
    to_claim call_reachability (at 30) (text "e1")
    ∷ to_move (text "call") ringing none (at 32) (text "e6")
    ∷ to_submit_code (text "code") (text "1234") (at 35) (text "e2")
    ∷ to_submit_challenge (text "challenge") (text "red" ∷ []) (at 36) (text "e3")
    ∷ to_cancel (text "call") (text "project") (at 40) (text "e4")
    ∷ to_move (text "done") failed none (at 41) (text "e5")
    ∷ []
