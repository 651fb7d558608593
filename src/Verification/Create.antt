-- ===== src/Verification/Create.antt =====
-- The creation of a verification: `create` of backend/packages/api/src/verification-service.ts.
-- `create` reads the record of its idempotency key, then makes the interaction, then registers it
-- under the key. Other requests can run between the first part and the last: `look_up` and `register`
-- are given the store of their moment. What the constructor injects is in `Services`.
pub mod Keys
pub mod Race
use powerotp.Prelude.{
  ℕ, ◌+◌, Bool, true, false, not, ◌&&◌, ◌||◌, Option, none, some, List, [], ◌∷◌, ◌++◌, ◌==◌,
  if◌then◌else◌, Option-map, Text, text, text_eq, get, put, retain, is_some,
}
use powerotp.Verification.State.{
  VerificationType, voice_code, voice_challenge, sms_code, email_code, State, initial_state,
  type_eq,
}
use powerotp.Verification.Store.{Interaction, Event, World, store, is_given}
use powerotp.Verification.Desk.{
  CreateInput, KeyRecord, Desk, CreateError, idempotency_key_conflict, no_published_challenges,
  refused, Accepted, Answer, accept, reject, Services, Creation, lifetime_ms, record_id, accepted,
}

-- What the first part finds: an answer, or nothing that stops the request.
abbrev stored_answer : Services → Option Interaction → Option Answer
stored_answer s none = none
stored_answer s (some r) = some (accept (accepted s r))

abbrev known_answer : Services → Desk → Text → Option KeyRecord → Option Answer
known_answer s d hash none = none
known_answer s d hash (some k) =
    if not (k.request_hash == hash)
    then some (reject idempotency_key_conflict)
    else stored_answer s (get k.interaction_id d.world.requests)

unfoldable pub look_up : Services → Desk → Creation → Option Answer
look_up s d c =
    known_answer s d (s.request_hash c.input c.hosted_auth_contact) (get (record_id c) d.keys)

abbrev or_drawn : Option Text → Text → Text
or_drawn none drawn = drawn
or_drawn (some code) drawn = code

unfoldable pub code_for : Creation → Option Text
code_for c =
    if c.input.type == voice_code
    then some (or_drawn c.input.code c.drawn_code)
    else if c.input.type == sms_code || c.input.type == email_code
    then some c.drawn_code
    else none

abbrev when_given : Services → Option Text → Option Text
when_given s none = none
when_given s (some code) = if is_given (some code) then some (s.encrypt code) else none

-- The document that is inserted.
unfoldable pub draft : Services → Creation → Option Text → Bool → Interaction
draft s c challenge covered = record {
  id = c.new_id;
  project_id = c.project_id;
  customer_id = c.customer_id;
  type = c.input.type;
  target_number = c.input.target_number;
  state = initial_state;
  reason_code = none;
  sequence = 0;
  correlation_id = c.correlation_id;
  browser_response = c.input.browser_response;
  hosted_auth_contact = c.hosted_auth_contact;
  expected_code_encrypted = when_given s (code_for c);
  challenge_answers = challenge;
  token_nonce = none;
  token_consumed_at = none;
  call_trunk_id = none;
  sms_did = none;
  email_sent = false;
  provider_record = none;
  end_user_ip = none;
  end_user_user_agent = none;
  provider_record_status = none;
  email_branding = if c.input.type == email_code then s.branding c.project_id else none;
  free_quota_covered = covered;
  billing_pending_at = none;
  billing_applied_at = none;
  created_at = c.now;
  updated_at = c.now;
  expires_at = c.now + lifetime_ms;
}

-- The gates, in their order: the error of the first that refuses, or the document.
abbrev balance_gate : Services → Creation → Bool → Option Text
balance_gate s c true = none
balance_gate s c false = s.require_non_negative_balance c.customer_id

pub data Verdict : Type 0 where
  halt : CreateError → Verdict
  proceed : Interaction → Verdict

abbrev challenge_gate : Services → Creation → Bool → Option Text → Verdict
challenge_gate s c covered challenge =
    if c.input.type == voice_challenge && not (is_some challenge)
    then halt no_published_challenges
    else proceed (draft s c challenge covered)

abbrev gate : Option Text → Verdict → Verdict
gate none v = v
gate (some code) v = halt (refused code)

unfoldable pub prepare : Services → Creation → Verdict
prepare s c =
    let covered = s.try_consume_free_quota c.customer_id c.input.type in
    gate (s.require_verified_email c.customer_id) (
      gate (balance_gate s c covered) (
        challenge_gate s c covered
          (if c.input.type == voice_challenge then s.select_and_materialize else none)))

-- `insertOne` and `deleteOne` of a document.
abbrev pub insert : Desk → Interaction → Desk
insert d r = record d { world = store d.world r.id r }

abbrev pub delete : Desk → Text → Desk
delete d id = record d {
  world = record d.world { requests = retain (λ j. not (j == id)) d.world.requests };
}

-- The event, the dispatch and the timeout of a new interaction.
unfoldable pub announce : Desk → Creation → Interaction → Desk
announce d c r = record d {
  world = record d.world {
    events =
        record {
          event_id = c.event_id;
          interaction_id = r.id;
          sequence = r.sequence;
          state = initial_state;
          reason_code = none;
          occurred_at = c.occurred;
        }
        ∷ d.world.events;
  };
  dispatches = r.id ∷ d.dispatches;
  timeouts = (r.id, lifetime_ms) ∷ d.timeouts;
}

abbrev pub add_key : Services → Desk → Creation → Interaction → Desk
add_key s d c r = record d {
  keys =
      put (record_id c)
        (record {
          project_id = c.project_id;
          idempotency_key = c.idempotency_key;
          request_hash = s.request_hash c.input c.hosted_auth_contact;
          interaction_id = r.id;
          created_at = c.now;
        })
        d.keys;
}

-- The request that lost the key answers with the interaction of the winner, if it is there.
abbrev lose : Services → Desk → Creation → Interaction → Option Interaction → Desk × Answer
lose s d c r none = (announce d c r, accept (accepted s r))
lose s d c r (some w) = (d, accept (accepted s w))

abbrev register_key :
    Services → Desk → Creation → Interaction → Option KeyRecord → Bool → Desk × Answer
register_key s d c r (some k) delivered =
    let kept = delete d r.id in lose s kept c r (get k.interaction_id kept.world.requests)
register_key s d c r none true = (announce (add_key s d c r) c r, accept (accepted s r))
register_key s d c r none false = (announce d c r, accept (accepted s r))

-- The insertion of the document, then of the record of its key, which the database takes when no
-- record has the key and when the write is delivered at all.
unfoldable pub register : Services → Desk → Creation → Interaction → Bool → Desk × Answer
register s d c r delivered = register_key s (insert d r) c r (get (record_id c) d.keys) delivered

abbrev settled : Services → Desk → Creation → Verdict → Bool → Desk × Answer
settled s d c (halt e) delivered = (d, reject e)
settled s d c (proceed r) delivered = register s d c r delivered

abbrev answered : Services → Desk → Creation → Option Answer → Bool → Desk × Answer
answered s d c none delivered = settled s d c (prepare s c) delivered
answered s d c (some a) delivered = (d, a)

-- `create`, when nothing comes between its parts.
unfoldable pub create : Services → Desk → Creation → Bool → Desk × Answer
create s d c delivered = answered s d c (look_up s d c) delivered
