-- ===== src/Verification/Create/Race.antt =====
-- Two requests under one idempotency key at the same time: `create` of
-- backend/packages/api/src/verification-service.ts.
use powerotp.Prelude.{
  ◌≡◌, refl, sym, ap, subst, ◌∙◌, inl, inr, Bool, true, false, not, none, some, ◌==◌, ==_comm,
  if◌then◌else◌, Bool-cases, Text, text_eq, get, put, get-put, get-put_self, get-retain,
}
use powerotp.Verification.Store.{Interaction}
use powerotp.Verification.Desk.{
  KeyRecord, Desk, Answer, accept, Services, Creation, record_id, accepted,
}
use powerotp.Verification.Create.{insert, delete, announce, add_key, register}

-- What is left of a request that lost the race: nothing but the answer.
pub record Yields (s : Services) (d : Desk) (r : Interaction) (won : Interaction)
    (result : Desk × Answer) : Type 0 where
  pub answers : result.1 ≡ accept (accepted s won)
  pub same_keys : result.0.keys ≡ d.keys
  pub same_events : result.0.world.events ≡ d.world.events
  pub same_dispatches : result.0.dispatches ≡ d.dispatches
  pub same_timeouts : result.0.timeouts ≡ d.timeouts
  pub withdrawn :
      (j : Text)
      → get j result.0.world.requests ≡ (if r.id == j then none else get j d.world.requests)

withdraw :
    (d : Desk) (r : Interaction) (j : Text)
    → get j (delete (insert d r) r.id).world.requests
      ≡ (if r.id == j then none else get j d.world.requests)
withdraw d r j =
    get-retain (λ k. not (k == r.id)) j (put r.id r d.world.requests)
    ∙ rw (==_comm j r.id, get-put)
        (elim (Bool-cases (r.id == j)) [ inl same ↦ rw same refl | inr other ↦ rw other refl ])

-- A request that finds its key taken when it registers, and the interaction of the key still there,
-- withdraws and answers with that interaction.
register-Yields :
    (s : Services) (d : Desk) (c : Creation) (r : Interaction) (delivered : Bool) {k : KeyRecord}
    {won : Interaction}
    → get (record_id c) d.keys ≡ some k
    → get k.interaction_id d.world.requests ≡ some won
    → (r.id == k.interaction_id) ≡ false
    → Yields s d r won (register s d c r delivered)
unfolding register
register-Yields s d c r delivered {k} {won} taken there apart =
    let still : get k.interaction_id (delete (insert d r) r.id).world.requests ≡ some won =
      withdraw d r k.interaction_id
      ∙ ap (λ (b : Bool). if b then none else get k.interaction_id d.world.requests) apart
      ∙ there in
    rw (taken, still)
      (record {
        answers = refl;
        same_keys = refl;
        same_events = refl;
        same_dispatches = refl;
        same_timeouts = refl;
        withdrawn = withdraw d r;
      })

registered :
    (s : Services) (d : Desk) (c : Creation) (r : Interaction)
    → get (record_id c) d.keys ≡ none
    → (register s d c r true).0 ≡ announce (add_key s (insert d r) c r) c r
unfolding register
registered s d c r fresh = rw fresh refl

key_there :
    (s : Services) (d : Desk) (c : Creation) (r : Interaction) (id : Text)
    → id ≡ record_id c
    → get id (announce (add_key s (insert d r) c r) c r).keys
      ≡ some (record {
        project_id = c.project_id;
        idempotency_key = c.idempotency_key;
        request_hash = s.request_hash c.input c.hosted_auth_contact;
        interaction_id = r.id;
        created_at = c.now;
      })
unfolding announce
key_there s d c r id same = rw same (get-put_self (record_id c) _ d.keys)

interaction_there :
    (s : Services) (d : Desk) (c : Creation) (r : Interaction)
    → get r.id (announce (add_key s (insert d r) c r) c r).world.requests ≡ some r
unfolding announce
interaction_there s d c r = get-put_self r.id r d.world.requests

module _ (s : Services) (d : Desk) (c c' : Creation) (r r' : Interaction) (delivered : Bool) where
  -- Of two requests that both found their common key free, the first to register it wins: the other is
  -- answered with the acceptance of the first one's interaction, its own document is gone, and it has
  -- written no event and asked for no dispatch and no timeout. What the two asked for plays no part.
  pub create_race :
      get (record_id c) d.keys ≡ none
      → record_id c' ≡ record_id c
      → (r'.id == r.id) ≡ false
      → Yields s
          (register s d c r true).0
          r'
          r
          (register s (register s d c r true).0 c' r' delivered)
  create_race fresh same_key apart =
      let first = registered s d c r fresh in
      subst (λ v. Yields s v r' r (register s v c' r' delivered)) (sym first)
        (register-Yields s (announce (add_key s (insert d r) c r) c r) c' r' delivered
          (key_there s d c r (record_id c') same_key) (interaction_there s d c r) apart)
