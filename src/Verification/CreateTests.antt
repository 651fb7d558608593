-- ===== src/Verification/CreateTests.antt =====
-- Requests for one text message under one idempotency key.
use powerotp.Prelude.{◌≡◌, refl, true, false, none, some, [], ◌++◌, ◌==◌, text, text_eq, get}
use powerotp.Verification.State.{sms_code}
use powerotp.Verification.Desk.{Desk, Accepted, accept, Services, Creation, record_id, accepted}
use powerotp.Verification.Create.{look_up, prepare, draft, register, create}
use powerotp.Verification.Create.Race.{Yields, create_race}

abbrev services : Services
services = record {
  request_hash = λ input contact. input.target_number;
  status_url = λ id. text "/v1/verifications/" ++ id;
  require_verified_email = λ customer. none;
  try_consume_free_quota = λ customer type. true;
  require_non_negative_balance = λ customer. some (text "insufficient_balance");
  select_and_materialize = none;
  branding = λ project. none;
  encrypt = λ code. text "sealed " ++ code;
}

abbrev desk : Desk
desk = record {
  world = record { requests = []; events = []; callbacks = []; reconciles = [] };
  keys = [];
  dispatches = [];
  timeouts = [];
}

abbrev asked : Creation
asked = record {
  project_id = text "project";
  customer_id = text "customer";
  input = record {
    type = sms_code;
    target_number = text "+15550001111";
    code = none;
    browser_response = false;
  };
  idempotency_key = text "key";
  correlation_id = text "request";
  hosted_auth_contact = none;
  new_id = text "int1";
  drawn_code = text "12345";
  event_id = text "evt1";
  now = 1000;
  occurred = 1001;
}

abbrev again : Creation
again = record asked {
  new_id = text "int2";
  drawn_code = text "54321";
  event_id = text "evt2";
  now = 2000;
}

abbrev other : Creation
other = record again {
  input = record {
    type = sms_code;
    target_number = text "+15550002222";
    code = none;
    browser_response = false;
  };
}

abbrev answer : Accepted
answer = accepted services (draft services asked none true)

asked_accepted : (create services desk asked true).1 ≡ accept answer
unfolding create look_up prepare register draft get
asked_accepted = refl

new_key : get (record_id asked) desk.keys ≡ none
unfolding get
new_key = refl

ids_differ : ((draft services other none true).id == (draft services asked none true).id) ≡ false
unfolding draft
ids_differ = refl

create_race_example :
    Yields services
      (register services desk asked (draft services asked none true) true).0
      (draft services other none true)
      (draft services asked none true)
      (register services
        (register services desk asked (draft services asked none true) true).0
        other
        (draft services other none true)
        true)
create_race_example =
    create_race services desk asked other (draft services asked none true)
      (draft services other none true) true new_key refl ids_differ
