-- ===== src/Verification/Delivery/Claims.antt =====
-- The claims of nodes: `claimNextForNode` of backend/packages/api/src/verification-service.ts.
use mathlib.Core.Option.{some-injective, none-ne-some}
use powerotp.Prelude.{
  ℕ, ◌+◌, ◌≡◌, ◌≤◌, ◌<◌, refl, sym, ap, subst, ◌∙◌, ◌⊎◌, inl, inr, Bool, true, false, ◌&&◌, Option,
  none, some, List, [], ◌∷◌, arith, ltb, ◌==◌, ==→≡, ==_refl, if◌then◌else◌, Bool-cases,
  Option-cases, Memᴰ, Text, text_eq, text, get, get-put, Option-map,
}
use powerotp.Verification.State.{VerificationType, dispatching, calling, type_eq, state_eq}
use powerotp.Verification.Store.{Interaction, World, Clock, record_transition}
use powerotp.Verification.Store.Frame.{core_of}
use powerotp.Verification.Service.Parts.{event_of}
use powerotp.Verification.Service.History.{IsKeyed, keyed_id}
use powerotp.Verification.Delivery.{
  is_claimable, oldest, older, documents_at, documents, claim_next_for_node,
}

oldest-none :
    (p : Interaction → Bool) (rs : List Interaction) {r : Interaction}
    → oldest p rs ≡ none
    → Memᴰ r rs
    → p r ≡ false
unfolding oldest
oldest-none p [] h m = elim m [ ]
oldest-none p (x ∷ rs) h m = elim (Bool-cases (p x)) [
  | inl good ↦ let found = rw good at h in cc
  | inr bad ↦ elim m [
    | Memᴰ.head e ↦ ap p e ∙ bad
    | Memᴰ.tail later ↦ oldest-none p rs (rw bad at h) later
  ]
]

older_le : (x : Interaction) (o : Option Interaction) → (older x o).created_at ≤ x.created_at
older_le x o = ground arith

older_le_some : (x s : Interaction) → (older x (some s)).created_at ≤ s.created_at
older_le_some x s = ground arith

oldest_first :
    (p : Interaction → Bool) (rs : List Interaction) {r r' : Interaction}
    → oldest p rs ≡ some r
    → Memᴰ r' rs
    → p r' ≡ true
    → r.created_at ≤ r'.created_at
unfolding oldest
oldest_first p [] h m e = elim m [ ]
oldest_first p (x ∷ rs) {r} {r'} h m e = elim m [
  | Memᴰ.head same ↦
      let is_x : r' ≡ x = same in
      let good : p x ≡ true = ap p (sym is_x) ∙ e in
      let chosen = some-injective _ _ (rw good at h) in
      omega (
        arith,
        older_le x (oldest p rs),
        ap (λ (v : Interaction). v.created_at) chosen,
        ap (λ (v : Interaction). v.created_at) is_x,
      )
  | Memᴰ.tail later ↦ elim (Option-cases (oldest p rs)) [
    | inl nothing ↦ let no = oldest-none p rs nothing later in cc
    | inr (s, found) ↦
        let first = oldest_first p rs found later e in
        elim (Bool-cases (p x)) [
          | inl good ↦
              let chosen = some-injective _ _ (rw (good, found) at h) in
              omega (arith, first, older_le_some x s, ap (λ (v : Interaction). v.created_at) chosen)
          | inr bad ↦
              let chosen = some-injective _ _ (sym found ∙ rw bad at h) in
              omega (arith, first, ap (λ (v : Interaction). v.created_at) chosen)
        ]
  ]
]

older_chosen : (x s : Interaction) → (older x (some s) ≡ x) ⊎ (older x (some s) ≡ s)
older_chosen x s = ground arith

oldest_found :
    (p : Interaction → Bool) (rs : List Interaction) {r : Interaction}
    → oldest p rs ≡ some r
    → (p r ≡ true) × Memᴰ r rs
unfolding oldest
oldest_found p [] h = cc
oldest_found p (x ∷ rs) {r} h = elim (Option-cases (oldest p rs)) [
  | inl nothing ↦ elim (Bool-cases (p x)) [
    | inl good ↦
        let chosen : r ≡ x = sym (some-injective _ _ (rw (good, nothing) at h)) in
        (ap p chosen ∙ good, Memᴰ.head chosen)
    | inr bad ↦ absurd (none-ne-some _ (sym nothing ∙ rw bad at h))
  ]
  | inr (s, found) ↦
      let (holds, there) = oldest_found p rs found in
      elim (Bool-cases (p x)) [
        | inl good ↦
            let chosen : r ≡ older x (some s) = sym (some-injective _ _ (rw (good, found) at h)) in
            elim (older_chosen x s) [
              | inl first ↦ (ap p (chosen ∙ first) ∙ good, Memᴰ.head (chosen ∙ first))
              | inr later ↦ (
                ap p (chosen ∙ later) ∙ holds,
                Memᴰ.tail (subst (λ v. Memᴰ v rs) (sym (chosen ∙ later)) there),
              )
            ]
        | inr bad ↦
            let chosen : r ≡ s = sym (some-injective _ _ (sym found ∙ rw bad at h)) in
            (ap p chosen ∙ holds, Memᴰ.tail (subst (λ v. Memᴰ v rs) (sym chosen) there))
      ]
]

documents_at-get :
    (w : World) (entries : List (Text × Interaction)) {r : Interaction}
    → Memᴰ r (documents_at w entries)
    → (id : Text) × (get id w.requests ≡ some r)
unfolding documents_at
documents_at-get w [] m = elim m [ ]
documents_at-get w ((id, x) ∷ rest) m = elim (Option-cases (get id w.requests)) [
  | inl missing ↦ documents_at-get w rest (rw missing at m)
  | inr (d, found) ↦ elim (rw found at m) [
    | Memᴰ.head e ↦ (id, found ∙ ap some (sym e))
    | Memᴰ.tail later ↦ documents_at-get w rest later
  ]
]

get-documents_at :
    (w : World) (entries : List (Text × Interaction)) (id : Text) {x r : Interaction}
    → get id entries ≡ some x
    → get id w.requests ≡ some r
    → Memᴰ r (documents_at w entries)
unfolding documents_at get
get-documents_at w [] id h k = cc
get-documents_at w ((j, y) ∷ rest) id {x} {r} h k = elim (Bool-cases (j == id)) [
  | inl same ↦
      let found : get j w.requests ≡ some r = ap (λ i. get i w.requests) (==→≡ j id same) ∙ k in
      rw found (Memᴰ.head refl)
  | inr other ↦
      let later = get-documents_at w rest id (rw other at h) k in
      elim (Option-cases (get j w.requests)) [
        | inl missing ↦ rw missing later
        | inr (d, found) ↦ rw found (Memᴰ.tail later)
      ]
]

-- What a claim took out of the store and what it left there.
pub record Claimed (w : World) (t : VerificationType) (clock : Clock) (event_id : Text)
    (c : Interaction) (w' : World) : Type 0 where
  pub taken : Interaction
  pub held : get taken.id w.requests ≡ some taken
  pub of_type : taken.type ≡ t
  pub waits : taken.state ≡ dispatching
  pub live : clock.checked < taken.expires_at
  pub first :
      (id : Text) (r : Interaction)
      → get id w.requests ≡ some r
      → r.type ≡ t
      → r.state ≡ dispatching
      → clock.checked < r.expires_at
      → taken.created_at ≤ r.created_at
  pub claims :
      c
      ≡ record taken { state = calling; updated_at = clock.updated; sequence = taken.sequence + 1 }
  pub stores : (j : Text) → get j w'.requests ≡ (if taken.id == j then some c else get j w.requests)
  pub logs :
      w'.events
      ≡ event_of taken.id (taken.sequence + 1) calling (some (text "node_claimed")) clock event_id
        ∷ w.events
  pub calls_back : w'.callbacks ≡ (taken.id, event_id) ∷ w.callbacks
  pub looks_up : w'.reconciles ≡ w.reconciles

all_three : (a b c : Bool) → (a && b && c) ≡ true → (a ≡ true) × (b ≡ true) × (c ≡ true)
all_three a b c h = ground arith

claimable_parts :
    (t : VerificationType) (now : ℕ) (r : Interaction)
    → is_claimable t now r ≡ true
    → (r.type ≡ t) × (r.state ≡ dispatching) × (now < r.expires_at)
claimable_parts t now r h =
    let (by_type, by_state, by_time) =
      all_three (r.type == t) (r.state == dispatching) (ltb now r.expires_at) h in
    (==→≡ _ _ by_type, ==→≡ _ _ by_state, ground (arith, by_time))

claimable_whole :
    (t : VerificationType) (now : ℕ) (r : Interaction)
    → r.type ≡ t
    → r.state ≡ dispatching
    → now < r.expires_at
    → is_claimable t now r ≡ true
claimable_whole t now r by_type by_state by_time =
    let live : ltb now r.expires_at ≡ true = ground (arith, by_time) in
    rw (by_type, by_state, live) (rw (==_refl t) refl)

-- A claim takes a stored interaction of the given type that waits in dispatching and has not expired,
-- the oldest one of those; it stores it as calling with the next sequence number, with one event and
-- one callback, and leaves every other interaction and the look-ups as they were. Every document
-- has to carry the id that it is stored under.
pub claim_next_for_node-Claimed :
    (w : World) (t : VerificationType) (clock : Clock) (event_id : Text) (c : Interaction)
    → IsKeyed w
    → (claim_next_for_node w t clock event_id).1 ≡ some c
    → Claimed w t clock event_id c (claim_next_for_node w t clock event_id).0
unfolding claim_next_for_node record_transition
claim_next_for_node-Claimed w t clock event_id c keyed h =
    let p = is_claimable t clock.checked in
    elim (Option-cases (oldest p (documents w))) [
      | inl nothing ↦ absurd (none-ne-some _ (rw nothing at h))
      | inr (r, found) ↦
          let (holds, there) = oldest_found p (documents w) found in
          let (id, stored) = documents_at-get w w.requests there in
          let own : r.id ≡ id =
            keyed_id w id {c = core_of r} keyed (ap (Option-map core_of) stored) in
          let (of_type, waits, live) = claimable_parts t clock.checked r holds in
          let is_c = some-injective _ _ (rw found at h) in
          record {
            taken = r;
            held = ap (λ i. get i w.requests) own ∙ stored;
            of_type = of_type;
            waits = waits;
            live = live;
            first = λ j x there of_t waiting in_time.
                oldest_first p (documents w) found (get-documents_at w w.requests j there there)
                  (claimable_whole t clock.checked x of_t waiting in_time);
            claims = sym is_c;
            stores = λ j. rw found (
                get-put j r.id _ w.requests
                ∙ ap (λ x. if r.id == j then some x else get j w.requests) is_c);
            logs = rw found refl;
            calls_back = rw found refl;
            looks_up = rw found refl;
          }
    ]

-- A claim comes back empty only when no stored interaction could be claimed, and then changes nothing.
pub claim_next_for_node-none :
    (w : World) (t : VerificationType) (clock : Clock) (event_id id : Text) (r : Interaction)
    → (claim_next_for_node w t clock event_id).1 ≡ none
    → get id w.requests ≡ some r
    → (is_claimable t clock.checked r ≡ false) × ((claim_next_for_node w t clock event_id).0 ≡ w)
unfolding claim_next_for_node
claim_next_for_node-none w t clock event_id id r h stored =
    elim (Option-cases (oldest (is_claimable t clock.checked) (documents w))) [
      | inl nothing ↦ (
        oldest-none (is_claimable t clock.checked) (documents w) nothing
            (get-documents_at w w.requests id stored stored),
        rw nothing refl,
      )
      | inr (x, found) ↦ let missed = rw found at h in cc
    ]
