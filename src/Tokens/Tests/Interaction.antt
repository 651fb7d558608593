-- ===== src/Tokens/Tests/Interaction.antt =====
-- A token for a code, and what becomes of it.
use powerotp.Prelude.{
  ℕ, zero, suc, Option, none, some, List, [], ◌∷◌, Text, text, ◌≡◌, refl, arith, ap,
}
use powerotp.Tokens.{Platform, sign_payload, verify_signed_payload}
use powerotp.Network.Address.{split}
use powerotp.Tokens.Tests.{in_unary, in_unary-laws}
use powerotp.Tokens.Interaction.{
  Action, submit_code, submit_challenge, view_status, Scope, Claims, issued, err,
  invalid_interaction_token, expired_interaction_token, issue_interaction_token,
  verify_interaction_token, Shows, verify-issue_interaction_token, verify_interaction_token-Shows,
}

abbrev code : Action → ℕ
code submit_code = 0
code submit_challenge = 1
code view_status = 2

abbrev action_of : ℕ → Action
action_of zero = submit_code
action_of (suc zero) = submit_challenge
action_of (suc (suc n)) = view_status

abbrev fields : Claims → List Text
fields c =
    c.scope.project_id
    ∷ c.scope.interaction_id
    ∷ c.scope.audience
    ∷ c.nonce
    ∷ (code c.scope.action ∷ c.issued_at ∷ c.expires_at ∷ [])
    ∷ []

abbrev of_fields : List Text → Option Claims
of_fields (project ∷ interaction ∷ audience ∷ nonce ∷ (action ∷ at ∷ until ∷ []) ∷ []) =
    some record {
      scope = record {
        project_id = project;
        interaction_id = interaction;
        action = action_of action;
        audience = audience;
      };
      nonce = nonce;
      issued_at = at;
      expires_at = until;
    }
of_fields _ = none

of_fields-fields : (c : Claims) → of_fields (fields c) ≡ some c
of_fields-fields c = ap (λ a. some (with_action a)) (action_of-code c.scope.action)
  where
    action_of-code : (a : Action) → action_of (code a) ≡ a
    action_of-code submit_code = refl
    action_of-code submit_challenge = refl
    action_of-code view_status = refl

    with_action : Action → Claims
    with_action a = record {
      scope = record {
        project_id = c.scope.project_id;
        interaction_id = c.scope.interaction_id;
        action = a;
        audience = c.scope.audience;
      };
      nonce = c.nonce;
      issued_at = c.issued_at;
      expires_at = c.expires_at;
    }

abbrev platform : Platform Claims
platform = in_unary fields of_fields

abbrev scope : Scope
scope = record {
  project_id = text "project-00000001";
  interaction_id = text "interaction-0001";
  action = submit_code;
  audience = text "app";
}

abbrev nonce : Text
nonce = text "nonce-0000000001"

abbrev token : Text
token = issue_interaction_token platform (text "key") scope nonce 10 50

verify_interaction_token-Shows_example :
    Shows platform token (text "key") scope 60 (issued scope nonce 10 50)
verify_interaction_token-Shows_example =
    verify_interaction_token-Shows platform token (text "key") scope 60 (issued scope nonce 10 50) (
      verify-issue_interaction_token platform (text "key") scope nonce 10 50 60
        (in_unary-laws fields of_fields of_fields-fields) refl (omega arith))

late : verify_interaction_token platform token (text "key") scope 61 ≡ err expired_interaction_token
unfolding verify_interaction_token verify_signed_payload issue_interaction_token sign_payload split
late = refl

other_key :
    verify_interaction_token platform token (text "kez") scope 60 ≡ err invalid_interaction_token
unfolding verify_interaction_token verify_signed_payload issue_interaction_token sign_payload split
other_key = refl
