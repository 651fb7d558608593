-- ===== src/Verification/Delivery.antt =====
-- The updates of `VerificationService` that are no transition, and the claim of an interaction by a
-- telephony node: backend/packages/api/src/verification-service.ts.
pub mod Tokens
pub mod Claims
pub mod Codes
use powerotp.Prelude.{
  ℕ, ◌+◌, Bool, true, false, not, ◌&&◌, Option, none, some, List, [], ◌∷◌, ltb, leb, ◌==◌, nat_eq,
  if◌then◌else◌, Text, text, text_eq, get, is_some,
}
use powerotp.Verification.State.{VerificationType, dispatching, calling, type_eq, state_eq}
use powerotp.Verification.Service.{Result, expected_code}
use powerotp.Verification.Store.{
  ProviderStatus, matched, Interaction, World, Clock, store, store_found, record_transition,
}

-- `updateOne({ _id: id }, { $set: … })`
abbrev pub update_one : World → Text → (Interaction → Interaction) → World
update_one w id change = store_found w id (changed (get id w.requests))
  where
    changed : Option Interaction → Option Interaction
    changed none = none
    changed (some r) = some (change r)

-- A key that the `meta` object does not have is not set.
abbrev given_or {ℓ} : {A : Type ℓ} → Option A → A → A
given_or none old = old
given_or (some new) old = new

abbrev given_or_keep {ℓ} : {A : Type ℓ} → Option A → Option A → Option A
given_or_keep none old = old
given_or_keep (some new) old = some new

unfoldable pub record_provider_attempt_meta :
    World → Text → Option Text → Option Text → Option Bool → World
record_provider_attempt_meta w id call_trunk_id sms_did email_sent = update_one w id (λ r.
    record r {
      call_trunk_id = given_or_keep call_trunk_id r.call_trunk_id;
      sms_did = given_or_keep sms_did r.sms_did;
      email_sent = given_or email_sent r.email_sent;
    })

unfoldable pub record_end_user_meta : World → Text → Option Text → Option Text → World
record_end_user_meta w id end_user_ip end_user_user_agent = update_one w id (λ r. record r {
  end_user_ip = given_or_keep end_user_ip r.end_user_ip;
  end_user_user_agent = given_or_keep end_user_user_agent r.end_user_user_agent;
})

-- The snapshot of the provider's record is kept as it is given.
unfoldable pub apply_provider_record : World → Text → Text → World
apply_provider_record w id snapshot =
    update_one w id
      (λ r. record r { provider_record = some snapshot; provider_record_status = some matched })

unfoldable pub apply_provider_record_status : World → Text → ProviderStatus → World
apply_provider_record_status w id status =
    update_one w id (λ r. record r { provider_record_status = some status })

unfoldable pub attach_interaction_token : World → Text → Text → World
attach_interaction_token w id nonce = update_one w id (λ r. record r { token_nonce = some nonce })

-- `codeForDelivery`, which throws where the ciphertext does not decrypt.
abbrev pub code_for_delivery : (Text → Option Text) → Interaction → Result (Option Text)
code_for_delivery decrypt r = expected_code decrypt r.expected_code_encrypted

abbrev pub has_nonce : Text → Option Text → Bool
has_nonce nonce none = false
has_nonce nonce (some n) = n == nonce

abbrev consume_found : World → Text → Text → ℕ → Option Interaction → World × Bool
consume_found w id nonce now none = (w, false)
consume_found w id nonce now (some r) =
    if has_nonce nonce r.token_nonce && not (is_some r.token_consumed_at)
    then (store w id (record r { token_consumed_at = some now }), true)
    else (w, false)

unfoldable pub consume_interaction_token : World → Text → Text → ℕ → World × Bool
consume_interaction_token w id nonce now = consume_found w id nonce now (get id w.requests)

-- The filter of `claimNextForNode`.
abbrev pub is_claimable : VerificationType → ℕ → Interaction → Bool
is_claimable t now r = r.type == t && r.state == dispatching && ltb now r.expires_at

-- The oldest of the documents that pass the filter, the first one among equals.
abbrev older : Interaction → Option Interaction → Interaction
older r none = r
older r (some s) = if leb r.created_at s.created_at then r else s

unfoldable pub oldest : (Interaction → Bool) → List Interaction → Option Interaction
oldest p [] = none
oldest p (r ∷ rest) = let found = oldest p rest in if p r then some (older r found) else found

abbrev with_document : Option Interaction → List Interaction → List Interaction
with_document none rest = rest
with_document (some r) rest = r ∷ rest

-- The documents that a collection has under the ids of a list of entries.
unfoldable pub documents_at : World → List (Text × Interaction) → List Interaction
documents_at w [] = []
documents_at w ((id, r) ∷ rest) = with_document (get id w.requests) (documents_at w rest)

abbrev pub documents : World → List Interaction
documents w = documents_at w w.requests

abbrev pub claim : World → Clock → Text → Option Interaction → World × Option Interaction
claim w clock event_id none = (w, none)
claim w clock event_id (some r) =
    let claimed = record r {
      state = calling;
      updated_at = clock.updated;
      sequence = r.sequence + 1;
    } in
    (
      record_transition (store w r.id claimed) claimed calling (some (text "node_claimed")) clock
          event_id,
      some claimed,
    )

-- `claimNextForNode`
unfoldable pub claim_next_for_node :
    World → VerificationType → Clock → Text → World × Option Interaction
claim_next_for_node w t clock event_id =
    claim w clock event_id (oldest (is_claimable t clock.checked) (documents w))
