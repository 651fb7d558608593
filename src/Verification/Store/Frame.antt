-- ===== src/Verification/Store/Frame.antt =====
-- The ids, types, states and sequences of the store under the parts of a transition:
-- backend/packages/api/src/verification-service.ts.
use mathlib.Core.Bool.{and-eq-true_iff}
use mathlib.Core.Option.{some-injective, none-ne-some}
use powerotp.Prelude.{
  ℕ, ◌≡◌, ◌≢◌, refl, sym, ap, ◌∙◌, inl, inr, ◌&&◌, ◌||◌, Option, none, some, ◌==◌, ==→≡,
  if◌then◌else◌, Bool-cases, Option-cases, Text, text_eq, nat_eq, get, get-put, Option-map,
}
use powerotp.Verification.State.{VerificationType, State, state_eq}
use powerotp.Verification.Store.{
  Interaction, World, Clock, moved, unchanged_since, store, store_found, commit, commit_found,
  schedule_reconcile, mark_pending, is_given,
}

-- What decides about transitions, with the id that events carry.
abbrev pub Core : Type 0
Core = Text × VerificationType × State × ℕ

abbrev pub core_of : Interaction → Core
core_of r = (r.id, r.type, r.state, r.sequence)

abbrev pub core : World → Text → Option Core
core w id = Option-map core_of (get id w.requests)

pub core-store :
    (w : World) (id j : Text) (r : Interaction)
    → core (store w id r) j ≡ (if id == j then some (core_of r) else core w j)
core-store w id j r = elim (Bool-cases (id == j)) [
  | inl same ↦ rw (get-put, same) refl
  | inr other ↦ rw (get-put, other) refl
]

same_core :
    (w : World) (id j : Text) (r : Interaction)
    → some (core_of r) ≡ core w id
    → (if id == j then some (core_of r) else core w j) ≡ core w j
same_core w id j r e = elim (Bool-cases (id == j)) [
  | inl same ↦ rw same (e ∙ ap (core w) (==→≡ id j same))
  | inr other ↦ rw other refl
]

-- An update of a document that keeps what decides about transitions.
pub core-store_found :
    (w : World) (id j : Text) (o : Option Interaction)
    → Option-map core_of o ≡ core w id
    → core (store_found w id o) j ≡ core w j
core-store_found w id j none kept = refl
core-store_found w id j (some r) kept = core-store w id j r ∙ same_core w id j r kept

mark_pending_core :
    (o : Option Interaction) → Option-map core_of (mark_pending o) ≡ Option-map core_of o
mark_pending_core none = refl
mark_pending_core (some r) = refl

pub core-schedule_reconcile :
    (w : World) (r : Interaction) (j : Text) → core (schedule_reconcile w r) j ≡ core w j
unfolding schedule_reconcile
core-schedule_reconcile w r j = elim (Bool-cases (is_given r.call_trunk_id || is_given r.sms_did)) [
  | inl e ↦ rw e (core-store_found w r.id j _ (mark_pending_core (get r.id w.requests)))
  | inr e ↦ rw e refl
]

-- The conditional update takes place only on a document whose state and sequence are still those that
-- were read, and then writes the moved document.
pub record Commits (w : World) (id : Text) (current : Interaction) (to : State)
    (reason : Option Text) (clock : Clock) (r : Interaction) (w' : World) : Type 0 where
  pub stored : Interaction
  pub found : get id w.requests ≡ some stored
  pub same_state : stored.state ≡ current.state
  pub same_sequence : stored.sequence ≡ current.sequence
  pub written : r ≡ moved stored current to reason clock
  pub world : w' ≡ store w id r

commit_inv :
    (w : World) (id : Text) (current : Interaction) (to : State) (reason : Option Text)
    (clock : Clock) (o : Option Interaction) {r : Interaction} {w' : World}
    → get id w.requests ≡ o
    → commit_found w id current to reason clock (unchanged_since current o) ≡ some (r, w')
    → Commits w id current to reason clock r w'
commit_inv w id current to reason clock none e h = cc
commit_inv w id current to reason clock (some stored) e h =
    elim (Bool-cases (stored.state == current.state && stored.sequence == current.sequence)) [
      | inl same ↦
          let pair = some-injective _ _ (rw same at h) in
          let (s, n) = (and-eq-true_iff _ _).0 same in
          record {
            stored = stored;
            found = e;
            same_state = ==→≡ _ _ s;
            same_sequence = ==→≡ _ _ n;
            written = sym (ap (λ (p : Interaction × World). p.0) pair);
            world =
                sym (ap (λ (p : Interaction × World). p.1) pair)
                ∙ ap (store w id) (ap (λ (p : Interaction × World). p.0) pair);
          }
      | inr other ↦ absurd (none-ne-some _ (rw other at h))
    ]

pub commit-Commits :
    (w : World) (id : Text) (current : Interaction) (to : State) (reason : Option Text)
    (clock : Clock) {r : Interaction} {w' : World}
    → commit w id current to reason clock ≡ some (r, w')
    → Commits w id current to reason clock r w'
unfolding commit
commit-Commits w id current to reason clock h =
    commit_inv w id current to reason clock (get id w.requests) refl h

-- A document with another sequence number than the stored one is out of date.
pub commit_stale :
    (w : World) (id : Text) (current : Interaction) (to : State) (reason : Option Text)
    (clock : Clock) {c : Core}
    → core w id ≡ some c
    → c.3 ≢ current.sequence
    → commit w id current to reason clock ≡ none
commit_stale w id current to reason clock {c} known other =
    elim (Option-cases (commit w id current to reason clock)) [
      | inl e ↦ e
      | inr ((r, w'), e) ↦
          let k = commit-Commits w id current to reason clock e in
          absurd (
            other (
              ap (λ (d : Core). d.3)
                (some-injective _ _ (sym known ∙ ap (Option-map core_of) k.found))
              ∙ k.same_sequence))
    ]
