-- ===== src/Tokens/Tests/Visitor.antt =====
-- A visitor's session token.
use powerotp.Prelude.{Option, none, some, List, [], ◌∷◌, Text, text, ◌≡◌, refl}
use powerotp.Tokens.{Platform, sign_payload}
use powerotp.Tokens.Tests.{in_unary}
use powerotp.Tokens.Visitor.{
  Scope, Claims, issued, err, authentication_required, dependency_unavailable, issue, verify,
}

abbrev fields : Claims → List Text
fields c =
    c.token_id
    ∷ c.scope.project_id
    ∷ c.scope.site_id
    ∷ c.scope.gate_session_id
    ∷ c.scope.audience
    ∷ c.nonce
    ∷ (c.version ∷ c.issued_at ∷ c.expires_at ∷ [])
    ∷ []

abbrev of_fields : List Text → Option Claims
of_fields (id ∷ project ∷ site ∷ session ∷ audience ∷ nonce ∷ (version ∷ at ∷ until ∷ []) ∷ []) =
    some record {
      version = version;
      token_id = id;
      scope = record {
        project_id = project;
        site_id = site;
        gate_session_id = session;
        audience = audience;
      };
      nonce = nonce;
      issued_at = at;
      expires_at = until;
    }
of_fields _ = none

abbrev platform : Platform Claims
platform = in_unary fields of_fields

abbrev scope : Scope
scope = record {
  project_id = text "project-00000001";
  site_id = text "site-00000000001";
  gate_session_id = text "session-00000001";
  audience = text "app";
}

abbrev nonce : Text
nonce = text "nonce-0000000001"

abbrev claims : Claims
claims = issued scope (text "abcdefghijkl") nonce 10

abbrev token : Text
token = sign_payload platform claims (text "key")

no_secret_to_verify :
    verify platform none (some (text "Bearer a.b")) scope 11 ≡ err authentication_required
unfolding verify
no_secret_to_verify = refl

no_secret_to_issue :
    issue platform none scope (text "abcdefghijkl") nonce 10 ≡ err dependency_unavailable
unfolding issue
no_secret_to_issue = refl
