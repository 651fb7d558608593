-- ===== src/Signing/Replay/Tests.antt =====
-- A nonce that is used twice, with a list of the keys that were set for the store.
use powerotp.Prelude.{
  ℕ, ◌+◌, ◌<◌, Bool, true, false, ◌&&◌, ◌||◌, none, some, List, [], ◌∷◌, ◌==◌, ==_refl, ltb,
  text_eq, Text, text, ◌≡◌, refl, arith,
}
use powerotp.Signing.Artifacts.{site_clearance}
use powerotp.Signing.Replay.{
  NonceStore, NonceStoreLaws, Reply, is_stored, is_taken, Attempt, accepted, consume_nonce,
  consume_nonces,
}
use powerotp.Signing.Replay.Once.{consume_nonce_once}

abbrev Keys : Type 0
Keys = List (Text × ℕ)

abbrev is_held : Keys → Text → ℕ → Bool
is_held [] key clock = false
is_held ((k, until) ∷ keys) key clock = (k == key && ltb clock until) || is_held keys key clock

abbrev set_unless : Bool → Keys → Text → ℕ → Keys × Reply
set_unless true keys key until = (keys, is_taken)
set_unless false keys key until = ((key, until) ∷ keys, is_stored)

abbrev toy_store : NonceStore
toy_store = record {
  State = Keys;
  set = λ keys key ttl clock. set_unless (is_held keys key clock) keys key (clock + ttl);
}

abbrev IsHeldUntil : Keys → Text → ℕ → Type 0
IsHeldUntil keys key until = (clock : ℕ) → clock < until → is_held keys key clock ≡ true

taken :
    (b : Bool) (keys : Keys) (key : Text) (until : ℕ)
    → b ≡ true
    → ¬ ((set_unless b keys key until).1 ≡ is_stored)
taken true keys key until h p = cc
taken false keys key until h p = cc

stored :
    (b : Bool) (keys : Keys) (key : Text) (until : ℕ)
    → (set_unless b keys key until).1 ≡ is_stored
    → IsHeldUntil (set_unless b keys key until).0 key until
stored true keys key until h clock early = cc
stored false keys key until h clock early =
    let open_at : ltb clock until ≡ true = ground arith in rw (==_refl key, open_at) refl

held_more : (b c : Bool) → c ≡ true → (b || c) ≡ true
held_more true c h = refl
held_more false c h = h

kept :
    (b : Bool) (keys : Keys) (key other : Text) (until later : ℕ)
    → IsHeldUntil keys key until
    → IsHeldUntil (set_unless b keys other later).0 key until
kept true keys key other until later h = h
kept false keys key other until later h = λ clock early.
    held_more (other == key && ltb clock later) (is_held keys key clock) (h clock early)

toy_store_laws : NonceStoreLaws toy_store
toy_store_laws = record {
  IsHeld = IsHeldUntil;
  set-stored = λ keys key ttl clock h. stored (is_held keys key clock) keys key (clock + ttl) h;
  set-held = λ keys key ttl clock until h early.
      taken (is_held keys key clock) keys key (clock + ttl) (h clock early);
  set-keeps = λ keys key other ttl clock until h.
      kept (is_held keys other clock) keys key other until (clock + ttl) h;
}

abbrev attempt : Text → ℕ → Attempt
attempt nonce now = record {
  scope = record {
    artifact_type = site_clearance;
    site_id = text "site-00000000001";
    audience = text "app";
    session_id = none;
  };
  nonce = nonce;
  expires_at = 200;
  clock_skew_ms = some 5;
  now = now;
  clock = now + 3;
}

abbrev as_is : Text → Text
as_is s = s

first_accepted :
    (consume_nonce toy_store as_is as_is [] (attempt (text "nonce-1") 150)).1 ≡ accepted
unfolding consume_nonce
first_accepted = refl

consume_nonce_once_example : ¬ (
    (consume_nonce toy_store as_is as_is
      (consume_nonces toy_store as_is as_is
        (consume_nonce toy_store as_is as_is [] (attempt (text "nonce-1") 150)).0
        (attempt (text "nonce-2") 160 ∷ []))
      (attempt (text "nonce-1") 204)).1
    ≡ accepted)
consume_nonce_once_example =
    consume_nonce_once toy_store as_is as_is [] (attempt (text "nonce-1") 150)
      (attempt (text "nonce-1") 204) (attempt (text "nonce-2") 160 ∷ []) toy_store_laws
      record {
        scope = refl;
        nonce = refl;
        expires_at = refl;
        clock_skew_ms = refl;
        clock = omega arith;
      }
      first_accepted
