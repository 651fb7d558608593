-- ===== src/Verification/Service/Lifetime.antt =====
-- The life of an interaction under any requests to the service:
-- backend/packages/api/src/verification-service.ts.
use powerotp.Prelude.{
  every, ℕ, ◌+◌, ◌≡◌, refl, ap, ap₂, ◌≤◌, ◌∙◌, Bool, true, false, Option, some, List, [], arith,
  length, ◌++◌, Text, text_eq,
}
use powerotp.Verification.State.{
  is_transition_allowed, VerificationType, State, type_eq, state_eq, is_terminal_state,
}
use powerotp.Verification.State.Progress.{rank, rank-le, is_transition_allowed_forward}
use powerotp.Verification.Store.{Interaction, Event, World}
use powerotp.Verification.Store.Frame.{core}
use powerotp.Verification.Service.Parts.{ChargeKeeps}
use powerotp.Verification.Service.History.{IsKeyed, Trace, start, next, History, events_of}
use powerotp.Verification.Service.Log.{Request, claims_a_call, serve_all, serve_all-History}

Trace-climbs :
    {t : VerificationType} {s : State} {n : ℕ} {es : List Event} {a : State} {m : ℕ}
    → Trace t s n es a m
    → (rank s + length es ≤ rank a) × (m ≡ n + length es)
Trace-climbs start = (omega arith, omega arith)
Trace-climbs {t} (next {a = a} e rest allowed _) =
    let (climbs, counts) = Trace-climbs rest in
    (
      omega (arith, climbs, is_transition_allowed_forward t a e.state allowed),
      omega (arith, counts),
    )

terminal_stuck :
    (t : VerificationType) (a b : State)
    → is_terminal_state a ≡ true
    → is_transition_allowed t a b ≡ false
unfolding is_transition_allowed
terminal_stuck t a b h = rw h refl

Trace-stays :
    {t : VerificationType} {s : State} {n : ℕ} {es : List Event} {a : State} {m : ℕ}
    → is_terminal_state s ≡ true
    → Trace t s n es a m
    → (a ≡ s) × (m ≡ n) × (es ≡ [])
Trace-stays terminal start = (refl, refl, refl)
Trace-stays {t} terminal (next {a = a} e rest allowed _) =
    let (same, _, _) = Trace-stays terminal rest in
    let stuck = terminal_stuck t a e.state (ap is_terminal_state same ∙ terminal) in cc

module _ {charge : Interaction → World → World × Bool} (keeps : ChargeKeeps charge)
    (decrypt : Text → Option Text) (utf8 : Text → List ℕ) (grade : Text → List Text → Option Bool)
    (w : World) (id : Text) (t : VerificationType) (s : State) (n : ℕ) (rs : List Request) where
  -- Whatever requests are served, in any order and with any inputs, the events that an
  -- interaction gained since are the history of its state: each was allowed by the machine
  -- after the one before, they are numbered without a gap, and the stored state and sequence
  -- are those of the last. The requests are the transitions, the cancellations, the submissions of
  -- codes and challenge answers, and the claims of nodes. Every document has to carry the id that it
  -- is stored under, nodes have to claim calls alone, and the charge has to be one that `ChargeKeeps`
  -- describes.
  pub event_log :
      IsKeyed w
      → every claims_a_call rs ≡ true
      → core w id ≡ some (id, t, s, n)
      → History t s n (events_of id w.events) id (serve_all keeps decrypt utf8 grade w rs)
  event_log keyed calls stored =
      serve_all-History keeps decrypt utf8 grade id w rs calls keyed (record {
        state = s;
        sequence = n;
        log = [];
        stored = stored;
        logged = refl;
        trace = start;
      })

  -- Whatever requests are served, an interaction makes seven transitions at most: it ends in a state of
  -- its type with as many transitions more on its sequence number. Every document has to carry the id
  -- that it is stored under, nodes have to claim calls alone, and the charge has to be one that
  -- `ChargeKeeps` describes.
  pub serve_bounded :
      IsKeyed w
      → every claims_a_call rs ≡ true
      → core w id ≡ some (id, t, s, n)
      → (a : State) × (m : ℕ) × (m ≤ 7)
        × (core (serve_all keeps decrypt utf8 grade w rs) id ≡ some (id, t, a, n + m))
  serve_bounded keyed calls stored =
      let h = event_log keyed calls stored in
      let (climbs, counts) = Trace-climbs h.trace in
      (
        h.state,
        length h.log,
        omega (arith, climbs, rank-le h.state),
        h.stored ∙ ap (λ k. some (id, t, h.state, k)) counts,
      )

  -- Whatever requests are served, an interaction in a terminal state keeps its state and its sequence
  -- number, and gains no event. Every document has to carry the id that it is stored under, nodes
  -- have to claim calls alone, and the charge has to be one that `ChargeKeeps` describes.
  pub serve_terminal :
      IsKeyed w
      → every claims_a_call rs ≡ true
      → core w id ≡ some (id, t, s, n)
      → is_terminal_state s ≡ true
      → (core (serve_all keeps decrypt utf8 grade w rs) id ≡ some (id, t, s, n))
        × (events_of id (serve_all keeps decrypt utf8 grade w rs).events ≡ events_of id w.events)
  serve_terminal keyed calls stored terminal =
      let h = event_log keyed calls stored in
      let (a, m, empty) = Trace-stays terminal h.trace in
      (
        h.stored ∙ ap₂ (λ x k. some (id, t, x, k)) a m,
        h.logged ∙ ap (λ es. es ++ events_of id w.events) empty,
      )
