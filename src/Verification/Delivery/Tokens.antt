-- ===== src/Verification/Delivery/Tokens.antt =====
-- Interaction tokens among the other updates: `consumeInteractionToken` of
-- backend/packages/api/src/verification-service.ts.
use powerotp.Prelude.{
  ℕ, ◌≡◌, refl, sym, ap, ◌∙◌, inl, inr, Bool, true, false, not, ◌&&◌, Option, none, some, List, [],
  ◌∷◌, arith, ◌==◌, Bool-cases, Option-cases, ==_refl, ==→≡, Text, text_eq, get, get-put, is_some,
}
use powerotp.Verification.Store.{ProviderStatus, Interaction, World, store}
use powerotp.Verification.Delivery.{
  update_one, has_nonce, record_provider_attempt_meta, record_end_user_meta, apply_provider_record,
  apply_provider_record_status, attach_interaction_token, consume_interaction_token,
}

-- The updates of a document that are no transition.
pub data Update : Type 0 where
  attempt_meta : Text → Option Text → Option Text → Option Bool → Update
  end_user_meta : Text → Option Text → Option Text → Update
  matched_record : Text → Text → Update
  record_status : Text → ProviderStatus → Update
  attach : Text → Text → Update
  consume : Text → Text → ℕ → Update

abbrev apply : World → Update → World
apply w (attempt_meta id call_trunk_id sms_did email_sent) =
    record_provider_attempt_meta w id call_trunk_id sms_did email_sent
apply w (end_user_meta id ip user_agent) = record_end_user_meta w id ip user_agent
apply w (matched_record id snapshot) = apply_provider_record w id snapshot
apply w (record_status id status) = apply_provider_record_status w id status
apply w (attach id nonce) = attach_interaction_token w id nonce
apply w (consume id nonce now) = (consume_interaction_token w id nonce now).0

abbrev pub apply_all : World → List Update → World
apply_all w [] = w
apply_all w (u ∷ us) = apply_all (apply w u) us

-- The token of the interaction has been used.
abbrev is_spent : Option Interaction → Bool
is_spent none = false
is_spent (some r) = is_some r.token_consumed_at

spent_store :
    (w : World) (id j : Text) (r : Interaction)
    → is_spent (get j w.requests) ≡ true
    → (id == j ≡ true → is_some r.token_consumed_at ≡ true)
    → is_spent (get j (store w id r).requests) ≡ true
spent_store w id j r spent own = elim (Bool-cases (id == j)) [
  | inl same ↦ rw (get-put, same) (own same)
  | inr other ↦ rw (get-put, other) spent
]

spent_update_one :
    (w : World) (id j : Text) (change : Interaction → Interaction)
    → ((r : Interaction) → (change r).token_consumed_at ≡ r.token_consumed_at)
    → is_spent (get j w.requests) ≡ true
    → is_spent (get j (update_one w id change).requests) ≡ true
spent_update_one w id j change keeps spent = elim (Option-cases (get id w.requests)) [
  | inl gone ↦ rw gone spent
  | inr (r, found) ↦ rw found (
      spent_store w id j (change r) spent (λ same.
        ap is_some (keeps r)
        ∙ sym (ap is_spent found)
        ∙ ap (λ k. is_spent (get k w.requests)) (==→≡ id j same)
        ∙ spent))
]

consume_spent :
    (w : World) (id nonce : Text) (now : ℕ) (j : Text)
    → is_spent (get j w.requests) ≡ true
    → is_spent (get j (consume_interaction_token w id nonce now).0.requests) ≡ true
unfolding consume_interaction_token
consume_spent w id nonce now j spent = elim (Option-cases (get id w.requests)) [
  | inl gone ↦ rw gone spent
  | inr (r, found) ↦
      elim (Bool-cases (has_nonce nonce r.token_nonce && not (is_some r.token_consumed_at))) [
        | inl fresh ↦ rw (found, fresh) (spent_store w id j _ spent (λ same. refl))
        | inr used ↦ rw (found, used) spent
      ]
]

apply_spent :
    (w : World) (u : Update) (j : Text)
    → is_spent (get j w.requests) ≡ true
    → is_spent (get j (apply w u).requests) ≡ true
unfolding record_provider_attempt_meta record_end_user_meta apply_provider_record
    apply_provider_record_status attach_interaction_token consume_interaction_token
apply_spent w (attempt_meta id call_trunk_id sms_did email_sent) j spent =
    spent_update_one w id j _ (λ r. refl) spent
apply_spent w (end_user_meta id ip user_agent) j spent = spent_update_one w id j _ (λ r. refl) spent
apply_spent w (matched_record id snapshot) j spent = spent_update_one w id j _ (λ r. refl) spent
apply_spent w (record_status id status) j spent = spent_update_one w id j _ (λ r. refl) spent
apply_spent w (attach id nonce) j spent = spent_update_one w id j _ (λ r. refl) spent
apply_spent w (consume id nonce now) j spent = consume_spent w id nonce now j spent

apply_all_spent :
    (w : World) (us : List Update) (j : Text)
    → is_spent (get j w.requests) ≡ true
    → is_spent (get j (apply_all w us).requests) ≡ true
apply_all_spent w [] j spent = spent
apply_all_spent w (u ∷ us) j spent = apply_all_spent (apply w u) us j (apply_spent w u j spent)

consume_spends :
    (w : World) (id nonce : Text) (now : ℕ)
    → (consume_interaction_token w id nonce now).1 ≡ true
    → is_spent (get id (consume_interaction_token w id nonce now).0.requests) ≡ true
unfolding consume_interaction_token
consume_spends w id nonce now h = elim (Option-cases (get id w.requests)) [
  | inl gone ↦ let missed = rw gone at h in cc
  | inr (r, found) ↦
      elim (Bool-cases (has_nonce nonce r.token_nonce && not (is_some r.token_consumed_at))) [
        | inl fresh ↦ rw (found, fresh, get-put, ==_refl id) refl
        | inr used ↦ let missed = rw (found, used) at h in cc
      ]
]

consume_refused :
    (w : World) (id nonce : Text) (now : ℕ)
    → is_spent (get id w.requests) ≡ true
    → consume_interaction_token w id nonce now ≡ (w, false)
unfolding consume_interaction_token
consume_refused w id nonce now spent = elim (Option-cases (get id w.requests)) [
  | inl gone ↦ rw gone refl
  | inr (r, found) ↦ let used = rw found at spent in rw (found, used) (ground arith)
]

-- A token that was accepted once is never accepted again: after any updates in between, the attachment
-- of a new nonce included, a further consumption with any nonce is refused and changes nothing.
pub consume_once :
    (w : World) (id nonce : Text) (now : ℕ) (us : List Update) (nonce' : Text) (now' : ℕ)
    → (consume_interaction_token w id nonce now).1 ≡ true
    → consume_interaction_token
        (apply_all (consume_interaction_token w id nonce now).0 us)
        id
        nonce'
        now'
      ≡ (apply_all (consume_interaction_token w id nonce now).0 us, false)
consume_once w id nonce now us nonce' now' h =
    consume_refused _ id nonce' now' (apply_all_spent _ us id (consume_spends w id nonce now h))
