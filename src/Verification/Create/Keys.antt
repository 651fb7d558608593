-- ===== src/Verification/Create/Keys.antt =====
-- Requests under one idempotency key, one after the other: `create` of
-- backend/packages/api/src/verification-service.ts.
use powerotp.Prelude.{
  ◌+◌, ◌≡◌, refl, sym, ap, subst, ◌∙◌, ◌⊎◌, inl, inr, Bool, true, not, ◌&&◌, Option, none, some,
  ◌∷◌, ◌==◌, if◌then◌else◌, Bool-cases, Option-cases, Text, text_eq, get, get-put_self, is_some,
  Option-map,
}
use powerotp.Verification.State.{voice_challenge, type_eq, queued}
use powerotp.Verification.Store.{Interaction, Event}
use powerotp.Verification.Store.Frame.{core, core_of}
use powerotp.Verification.Desk.{
  Desk, CreateError, idempotency_key_conflict, Accepted, Answer, accept, reject, Services, Creation,
  lifetime_ms, record_id, accepted,
}
use powerotp.Verification.Create.{
  look_up, draft, Verdict, halt, proceed, prepare, balance_gate, insert, announce, add_key,
  register, create,
}

verdict_cases :
    (v : Verdict) → ((e : CreateError) × (v ≡ halt e)) ⊎ ((r : Interaction) × (v ≡ proceed r))
verdict_cases (halt e) = inl (e, refl)
verdict_cases (proceed r) = inr (r, refl)

known_create :
    (s : Services) (d : Desk) (c : Creation) (delivered : Bool) {a : Answer}
    → look_up s d c ≡ some a
    → create s d c delivered ≡ (d, a)
unfolding create
known_create s d c delivered h = rw h refl

-- The document of an admitted request is its draft.
prepare-draft :
    (s : Services) (c : Creation) {r : Interaction}
    → prepare s c ≡ proceed r
    → (challenge : Option Text) × (covered : Bool) × (r ≡ draft s c challenge covered)
unfolding prepare
prepare-draft s c h =
    let covered = s.try_consume_free_quota c.customer_id c.input.type in
    let challenge = if c.input.type == voice_challenge then s.select_and_materialize else none in
    elim (Option-cases (s.require_verified_email c.customer_id)) [
      | inr (code, unverified) ↦ let stopped = rw unverified at h in cc
      | inl verified ↦ elim (Option-cases (balance_gate s c covered)) [
        | inr (code, insolvent) ↦ let stopped = rw (verified, insolvent) at h in cc
        | inl solvent ↦
            elim (Bool-cases (c.input.type == voice_challenge && not (is_some challenge))) [
              | inl missing ↦ let stopped = rw (verified, solvent, missing) at h in cc
              | inr ready ↦
                  let passed = rw (verified, solvent, ready) at h in (challenge, covered, cc)
            ]
      ]
    ]

-- What a request leaves when its document is the draft.
pub record Queued (c : Creation) (d : Desk) (a : Accepted) (d' : Desk) : Type 0 where
  pub stored : core d'.world c.new_id ≡ some (c.new_id, c.input.type, queued, 0)
  pub named : a.interaction_id ≡ c.new_id
  pub lives : a.expires_at ≡ c.now + lifetime_ms
  pub dispatched : d'.dispatches ≡ c.new_id ∷ d.dispatches
  pub timed : d'.timeouts ≡ (c.new_id, lifetime_ms) ∷ d.timeouts
  pub event : Event
  pub logged : d'.world.events ≡ event ∷ d.world.events
  pub of_it : event.interaction_id ≡ c.new_id
  pub numbered : event.sequence ≡ 0
  pub opens : event.state ≡ queued

module _ (s : Services) (d : Desk) (c : Creation) where
  -- An accepted request under a new key has stored its interaction and the record of the key.
  fresh_accepted :
      (a : Accepted)
      → get (record_id c) d.keys ≡ none
      → (create s d c true).1 ≡ accept a
      → (r : Interaction) × (prepare s c ≡ proceed r)
        × (a ≡ accepted s r)
        × ((create s d c true).0 ≡ announce (add_key s (insert d r) c r) c r)
  unfolding create look_up register
  fresh_accepted a fresh h = elim (verdict_cases (prepare s c)) [
    | inl (e, halted) ↦ let answer = rw (fresh, halted) at h in cc
    | inr (r, ready) ↦
        let answer = rw (fresh, ready, fresh) at h in (r, ready, cc, rw (fresh, ready, fresh) refl)
  ]

  module _ (c' : Creation) (a : Accepted) (delivered : Bool) where
    -- What a later request with the key of an accepted one finds.
    key_found :
        (r : Interaction)
        → record_id c' ≡ record_id c
        → look_up s (announce (add_key s (insert d r) c r) c r) c' ≡ (
            if not (
              s.request_hash c.input c.hosted_auth_contact
              == s.request_hash c'.input c'.hosted_auth_contact)
            then some (reject idempotency_key_conflict)
            else some (accept (accepted s r)))
    unfolding look_up announce
    key_found r same = rw (same, get-put_self, get-put_self) refl

    -- A request under the key of an accepted one creates nothing: it is answered with the same
    -- acceptance when its hash is the one of the accepted request, and is rejected as a conflict when
    -- it is not.
    pub create_repeat :
        get (record_id c) d.keys ≡ none
        → (create s d c true).1 ≡ accept a
        → record_id c' ≡ record_id c
        → create s (create s d c true).0 c' delivered ≡ (
          (create s d c true).0,
          if s.request_hash c.input c.hosted_auth_contact
                == s.request_hash c'.input c'.hosted_auth_contact
              then accept a
              else reject idempotency_key_conflict,
        )
    create_repeat fresh h same_key =
        let (r, _, is_r, store) = fresh_accepted a fresh h in
        let found = ap (λ v. look_up s v c') store ∙ key_found r same_key in
        elim (Bool-cases (
          s.request_hash c.input c.hosted_auth_contact
          == s.request_hash c'.input c'.hosted_auth_contact)) [
            | inl same ↦ rw same (
                known_create s _ c' delivered (
                  found
                  ∙ ap
                      (λ (b : Bool).
                        if not b
                        then some (reject idempotency_key_conflict)
                        else some (accept (accepted s r)))
                      same
                  ∙ ap (λ x. some (accept x)) (sym is_r)))
            | inr differs ↦ rw differs (
                known_create s _ c' delivered (
                  found
                  ∙ ap
                      (λ (b : Bool).
                        if not b
                        then some (reject idempotency_key_conflict)
                        else some (accept (accepted s r)))
                      differs))
          ]

  -- A request under a new key that is accepted has stored one queued interaction, which lives ten
  -- minutes, with its first event, and has asked for its dispatch and its timeout.
  pub create_queues :
      (a : Accepted)
      → get (record_id c) d.keys ≡ none
      → (create s d c true).1 ≡ accept a
      → Queued c d a (create s d c true).0
  unfolding announce draft
  create_queues a fresh h =
      let (r, ready, is_r, store) = fresh_accepted a fresh h in
      let (challenge, covered, is_draft) = prepare-draft s c ready in
      let x = draft s c challenge covered in
      let of_draft : Queued c d (accepted s x) (announce (add_key s (insert d x) c x) c x) =
        record {
          stored = ap (Option-map core_of) (get-put_self c.new_id x d.world.requests);
          named = refl;
          lives = refl;
          dispatched = refl;
          timed = refl;
          event = record {
            event_id = c.event_id;
            interaction_id = c.new_id;
            sequence = 0;
            state = queued;
            reason_code = none;
            occurred_at = c.occurred;
          };
          logged = refl;
          of_it = refl;
          numbered = refl;
          opens = refl;
        } in
      subst (λ v. Queued c d a v) (sym store)
        (subst (λ v. Queued c d v (announce (add_key s (insert d r) c r) c r)) (sym is_r)
          (subst
            (λ (y : Interaction).
              Queued c d (accepted s y) (announce (add_key s (insert d y) c y) c y))
            (sym is_draft) of_draft))
