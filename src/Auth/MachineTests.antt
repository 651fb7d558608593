-- ===== src/Auth/MachineTests.antt =====
-- Runs of hosted-auth machines to a good end.
use powerotp.Prelude.{ℕ, Option, ◌≡◌, refl, none, some, [], ◌∷◌, text, Text, List}
use powerotp.Auth.Scope.{
  Scope, signin, powerotp_realm, same_scope, machine_scope_schema, recovery_scope_schema,
  webauthn_scope_schema,
}
use powerotp.Auth.Core.{Snapshot, Command, applied, observed, ok, apply_transition}
use powerotp.Auth.Core.Runs.{Reaches, here, later, PassedThrough}
use powerotp.Auth.Request
use powerotp.Auth.Request.{
  state_eq as request_state_eq, event_eq as request_event_eq, request_machine,
}
use powerotp.Auth.Request.Paths.{succeeded_needs_proof}
use powerotp.Auth.Webauthn
use powerotp.Auth.Webauthn.{
  state_eq as webauthn_state_eq, event_eq as webauthn_event_eq, webauthn_machine,
}
use powerotp.Auth.Recovery
use powerotp.Auth.Recovery.{
  state_eq as recovery_state_eq, event_eq as recovery_event_eq, recovery_machine,
}
use powerotp.Auth.Polling
use powerotp.Auth.Polling.{
  state_eq as polling_state_eq, event_eq as polling_event_eq, polling_machine,
}

abbrev scope_with : List (Text × Text) → Scope
scope_with extra = record {
  project_id = text "prj_0123456789abcdef";
  realm = powerotp_realm;
  flow = signin;
  extra = extra;
}

abbrev request_at : Request.State → ℕ → Option Request.Event → Snapshot Request.State Request.Event
request_at s n last = record { scope = scope_with ([]); state = s; version = n; last_event = last }

abbrev request_command : Request.Event → ℕ → Command Request.Event
request_command e n = record { scope = scope_with ([]); event = e; expected_version = n }

request_run :
    Reaches request_machine
      (request_at Request.State.created 0 none)
      (request_at Request.State.succeeded 5 (some Request.Event.succeed))
unfolding apply_transition request_machine machine_scope_schema same_scope
request_run =
    later
      (later
        (later
          (later (later here (request_command Request.Event.activate 0) applied refl)
            (request_command Request.Event.start_webauthn 1) applied refl)
          (request_command Request.Event.authentication_satisfied 2) applied refl)
        (request_command Request.Event.skip_verification 3) applied refl)
      (request_command Request.Event.succeed 4) applied refl

succeeded_needs_proof_example :
    PassedThrough request_machine Request.State.proof_satisfied
      (request_at Request.State.created 0 none)
      (request_at Request.State.succeeded 5 (some Request.Event.succeed))
succeeded_needs_proof_example = succeeded_needs_proof refl request_run refl

abbrev webauthn_at :
    Webauthn.State → ℕ → Option Webauthn.Event → Snapshot Webauthn.State Webauthn.Event
webauthn_at s n last = record {
  scope = scope_with ((text "purpose", text "signin_authentication") ∷ []);
  state = s;
  version = n;
  last_event = last;
}

abbrev webauthn_command : Webauthn.Event → ℕ → Command Webauthn.Event
webauthn_command e n = record {
  scope = scope_with ((text "purpose", text "signin_authentication") ∷ []);
  event = e;
  expected_version = n;
}

webauthn_run :
    Reaches webauthn_machine
      (webauthn_at Webauthn.State.ready 0 none)
      (webauthn_at Webauthn.State.verified 3 (some Webauthn.Event.accept_response))
unfolding apply_transition webauthn_machine webauthn_scope_schema same_scope
webauthn_run =
    later
      (later (later here (webauthn_command Webauthn.Event.issue_challenge 0) applied refl)
        (webauthn_command Webauthn.Event.submit_response 1) applied refl)
      (webauthn_command Webauthn.Event.accept_response 2) applied refl

abbrev recovery_at :
    Recovery.State → ℕ → Option Recovery.Event → Snapshot Recovery.State Recovery.Event
recovery_at s n last = record { scope = scope_with ([]); state = s; version = n; last_event = last }

abbrev recovery_command : Recovery.Event → ℕ → Command Recovery.Event
recovery_command e n = record { scope = scope_with ([]); event = e; expected_version = n }

recovery_run :
    Reaches recovery_machine
      (recovery_at Recovery.State.ready 0 none)
      (recovery_at Recovery.State.completed 6 (some Recovery.Event.complete_recovery))
unfolding apply_transition recovery_machine recovery_scope_schema same_scope
recovery_run =
    later
      (later
        (later
          (later
            (later (later here (recovery_command Recovery.Event.begin_discovery 0) applied refl)
              (recovery_command Recovery.Event.require_proof 1) applied refl)
            (recovery_command Recovery.Event.begin_security_delay 2) applied refl)
          (recovery_command Recovery.Event.complete_security_delay 3) applied refl)
        (recovery_command Recovery.Event.issue_credential_grant 4) applied refl)
      (recovery_command Recovery.Event.complete_recovery 5) applied refl

abbrev published : Snapshot Polling.State Polling.Event
published = record {
  scope = scope_with [];
  state = Polling.State.terminal_result_available;
  version = 1;
  last_event = some Polling.Event.publish_terminal_result;
}

abbrev poll : Command Polling.Event
poll = record {
  scope = scope_with [];
  event = Polling.Event.poll_terminal_result;
  expected_version = 1;
}

polled : apply_transition polling_machine published poll ≡ ok (observed, published)
unfolding apply_transition polling_machine machine_scope_schema same_scope
polled = refl
