-- ===== src/Auth/Tests.antt =====
-- Runs of the hosted-auth machines at concrete snapshots.
use powerotp.Prelude.{◌≡◌, refl, includes, ◌⊎◌, true, none, some, [], text, Memᴰ}
use powerotp.Auth.Scope.{
  Scope, signin, same_scope, powerotp_realm, didit_realm, machine_scope_schema,
}
use powerotp.Auth.Core.{
  rule, Rule, transition, Snapshot, Command, applied, observed, duplicate, ok, apply_transition,
}
use powerotp.Auth.Core.Reducer.{IsFresh, Moves, apply-cases, apply_replay}
use powerotp.Auth.Core.Runs.{Reaches, here, later}
use powerotp.Auth.Request
use powerotp.Auth.Request.{state_eq, event_eq, request_machine}
use powerotp.Auth.Request.Paths

abbrev base_scope : Scope
base_scope = record {
  project_id = text "prj_0123456789abcdef";
  realm = powerotp_realm;
  flow = signin;
  extra = [];
}

abbrev didit_scope : Scope
didit_scope = record base_scope { realm = didit_realm }

abbrev snapshot : Request.State → Snapshot Request.State Request.Event
snapshot s = record { scope = base_scope; state = s; version = 3; last_event = none }

abbrev command : Request.Event → Command Request.Event
command e = record { scope = base_scope; event = e; expected_version = 3 }

base_scope_valid : machine_scope_schema base_scope ≡ true
unfolding machine_scope_schema
base_scope_valid = refl

started :
    apply_transition request_machine
      (snapshot Request.State.awaiting_user)
      (command Request.Event.start_recovery)
    ≡ ok (
      applied,
      record (snapshot Request.State.recovering) {
        version = 4;
        last_event = some Request.Event.start_recovery;
      },
    )
unfolding apply_transition request_machine machine_scope_schema same_scope
started = refl

-- Another event of the machine at the same version.
fresh :
    (e : Request.Event)
    → includes Request.events e ≡ true
    → IsFresh request_machine (snapshot Request.State.awaiting_user) (command e)
unfolding request_machine machine_scope_schema same_scope
fresh e known = record {
  current_scope = refl;
  command_scope = refl;
  known_state = refl;
  known_event = known;
  scopes_agree = refl;
  version_agrees = refl;
  not_terminal = refl;
}

abbrev recovering : Snapshot Request.State Request.Event
recovering = record (snapshot Request.State.recovering) {
  version = 4;
  last_event = some Request.Event.start_recovery;
}

apply-cases_example :
    (((applied ≡ duplicate) ⊎ (applied ≡ observed))
      × (recovering ≡ snapshot Request.State.awaiting_user))
    ⊎ (IsFresh request_machine
          (snapshot Request.State.awaiting_user)
          (command Request.Event.start_recovery)
        × ((r : Rule Request.State Request.Event) × Moves request_machine
              (snapshot Request.State.awaiting_user)
              (command Request.Event.start_recovery)
              recovering
              r))
apply-cases_example =
    apply-cases request_machine (snapshot Request.State.awaiting_user)
      (command Request.Event.start_recovery) started

apply_replay_example :
    apply_transition request_machine recovering (command Request.Event.start_recovery)
    ≡ ok (duplicate, recovering)
apply_replay_example =
    apply_replay request_machine (snapshot Request.State.awaiting_user)
      (command Request.Event.start_recovery) Paths.request-AllStatesKnown started (λ e. cc)

start-Moves :
    Moves request_machine
      (snapshot Request.State.awaiting_user)
      (command Request.Event.start_contact)
      (record (snapshot Request.State.verifying_contact) {
        version = 4;
        last_event = some Request.Event.start_contact;
      })
      (rule Request.State.awaiting_user Request.Event.start_contact Request.State.verifying_contact
        transition)
unfolding request_machine
start-Moves = record {
  listed = Memᴰ.tail (Memᴰ.tail (Memᴰ.head refl));
  leaves = refl;
  on = refl;
  permitted = refl;
  not_observe = λ e. cc;
  arrives = refl;
}

to_recovering : Reaches request_machine (snapshot Request.State.awaiting_user) recovering
to_recovering = later here (command Request.Event.start_recovery) applied started

abbrev done : Snapshot Request.State Request.Event
done = record (snapshot Request.State.succeeded) { last_event = some Request.Event.succeed }

replayed :
    apply_transition request_machine done
      (record { scope = base_scope; event = Request.Event.succeed; expected_version = 2 })
    ≡ ok (duplicate, done)
unfolding apply_transition request_machine machine_scope_schema same_scope
replayed = refl
