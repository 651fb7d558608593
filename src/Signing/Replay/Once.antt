-- ===== src/Signing/Replay/Once.antt =====
-- That a nonce is accepted once: backend/packages/botblocker-signing/src/replay.ts.
use powerotp.Prelude.{
  ℕ, ◌+◌, ◌-◌, ◌≤◌, ◌<◌, Bool, true, false, List, [], ◌∷◌, if◌then◌else◌, Text, ◌≡◌, refl, ap, ap₂,
  sym, ◌∙◌, subst, arith,
}
use powerotp.Signing.Keys.{KeyResult, ok, err, validate_clock_skew}
use powerotp.Signing.Replay.{
  NonceStore, NonceStoreLaws, Reply, is_stored, is_taken, throws, Scope, Attempt, Consumption,
  accepted, expired, consumption, is_valid_until, replay_key, replied, consume_within,
  consume_nonce, consume_nonces,
}

accepted_stored : (r : Reply) → consumption r ≡ accepted → r ≡ is_stored
accepted_stored is_stored h = refl
accepted_stored is_taken h = cc
accepted_stored throws h = cc

-- What an accepted outcome under a test says.
accepted_if :
    {A : Type 0} (b : Bool) (s : A) (x : A × Reply)
    → (if◌then◌else◌ {A = A × Consumption} b (x.0, consumption x.1) (s, expired)).1 ≡ accepted
    → (b ≡ true)
      × (x.1 ≡ is_stored)
      × ((if◌then◌else◌ {A = A × Consumption} b (x.0, consumption x.1) (s, expired)).0 ≡ x.0)
accepted_if true s x h = (refl, accepted_stored x.1 h, refl)
accepted_if false s x h = cc

module _ (store : NonceStore) (laws : NonceStoreLaws store) (digest quote : Text → Text) where
  -- What is accepted was given a skew, is valid and is stored.
  accepted_at :
      (s : store.State) (a : Attempt) (r : KeyResult ℕ)
      → (consume_within store digest quote s a r).1 ≡ accepted
      → (skew : ℕ) × (r ≡ ok skew)
        × (is_valid_until (a.expires_at + skew) a.now ≡ true)
        × ((store.set s
              (replay_key store digest quote a.scope a.nonce)
              (a.expires_at + skew - a.now)
              a.clock).1
            ≡ is_stored)
        × ((consume_within store digest quote s a r).0
            ≡ (store.set s
                (replay_key store digest quote a.scope a.nonce)
                (a.expires_at + skew - a.now)
                a.clock).0)
  accepted_at s a (err _) h = cc
  accepted_at s a (ok skew) h =
      let key = replay_key store digest quote a.scope a.nonce in
      let until = a.expires_at + skew in
      let (valid, stored, after) =
        accepted_if (is_valid_until until a.now) s (store.set s key (until - a.now) a.clock) h in
      (skew, refl, valid, stored, after)

  until_kept :
      (key : Text) (until until' : ℕ) (s : store.State) (a : Attempt) (b : Bool)
      → laws.IsHeld s key until
      → laws.IsHeld
          (if◌then◌else◌ {A = store.State × Consumption} b
            (replied store digest quote (
              store.set s (replay_key store digest quote a.scope a.nonce) (until' - a.now) a.clock))
            (s, expired)).0
          key
          until
  until_kept key until until' s a true held =
      laws.set-keeps s key (replay_key store digest quote a.scope a.nonce) (until' - a.now) a.clock
        until held
  until_kept key until until' s a false held = held

  -- A key that is held stays held, whatever is consumed.
  consume_kept :
      (key : Text) (until : ℕ) (s : store.State) (a : Attempt) (r : KeyResult ℕ)
      → laws.IsHeld s key until
      → laws.IsHeld (consume_within store digest quote s a r).0 key until
  consume_kept key until s a (err _) held = held
  consume_kept key until s a (ok skew) held =
      let end = a.expires_at + skew in until_kept key until end s a (is_valid_until end a.now) held

  consumed_kept :
      (key : Text) (until : ℕ) (s : store.State) (attempts : List Attempt)
      → laws.IsHeld s key until
      → laws.IsHeld (consume_nonces store digest quote s attempts) key until
  unfolding consume_nonces consume_nonce
  consumed_kept key until s [] held = held
  consumed_kept key until s (a ∷ attempts) held =
      consumed_kept key until (consume_nonce store digest quote s a).0 attempts
        (consume_kept key until s a (validate_clock_skew a.clock_skew_ms) held)

skew_in : KeyResult ℕ → ℕ
skew_in (ok skew) = skew
skew_in (err _) = 0

-- Two calls for the nonce of one artifact, of which the first comes first: between them the store's
-- clock advances no more than the callers'.
pub record SameNonce (first second : Attempt) : Type 0 where
  pub scope : first.scope ≡ second.scope
  pub nonce : first.nonce ≡ second.nonce
  pub expires_at : first.expires_at ≡ second.expires_at
  pub clock_skew_ms : first.clock_skew_ms ≡ second.clock_skew_ms
  pub clock : second.clock + first.now ≤ first.clock + second.now

-- A nonce that is accepted once is never accepted again for the same artifact with the same expiry and
-- the same tolerance of clocks, whatever is consumed in between, if the clock of the store advances no
-- more than the clocks of the callers.
pub consume_nonce_once :
    (store : NonceStore) (digest quote : Text → Text) (s : store.State) (first second : Attempt)
    (between : List Attempt)
    → NonceStoreLaws store
    → SameNonce first second
    → (consume_nonce store digest quote s first).1 ≡ accepted
    → ¬ (
        (consume_nonce store digest quote
          (consume_nonces store digest quote (consume_nonce store digest quote s first).0 between)
          second).1
        ≡ accepted)
unfolding consume_nonce skew_in
consume_nonce_once store digest quote s first second between laws same once twice =
    let (skew, given, valid, stored, after) =
      accepted_at store laws digest quote s first (validate_clock_skew first.clock_skew_ms) once in
    let later =
      consume_nonces store digest quote (consume_nonce store digest quote s first).0 between in
    let (skew', given', valid', stored', after') =
      accepted_at store laws digest quote later second (validate_clock_skew second.clock_skew_ms)
        twice in
    let skews : skew ≡ skew' =
      ap skew_in (sym given ∙ ap validate_clock_skew same.clock_skew_ms ∙ given') in
    let key : Scope → Text → Text = replay_key store digest quote in
    let keys : key first.scope first.nonce ≡ key second.scope second.nonce =
      ap₂ key same.scope same.nonce in
    let until = first.expires_at + skew in
    let until' = second.expires_at + skew' in
    let untils : until ≡ until' = ap₂ (λ x y. x + y) same.expires_at skews in
    let held =
      consumed_kept store laws digest quote (key first.scope first.nonce)
        (first.clock + (until - first.now)) (consume_nonce store digest quote s first).0 between
        (subst
          (λ t. laws.IsHeld t (key first.scope first.nonce) (first.clock + (until - first.now)))
          (sym after)
          (laws.set-stored s (key first.scope first.nonce) (until - first.now) first.clock
            stored)) in
    let advances : second.clock + first.now ≤ first.clock + second.now = same.clock in
    let open_at : first.now < until = ground (arith, valid) in
    let open_later : second.now < until' = ground (arith, valid') in
    laws.set-held later (key second.scope second.nonce) (until' - second.now) second.clock
      (first.clock + (until - first.now))
      (subst (λ k. laws.IsHeld later k (first.clock + (until - first.now))) keys held) (omega arith)
      stored'
