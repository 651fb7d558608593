-- ===== src/Billing/Ledger/Attempts.antt =====
-- The attempts of one call, one case for each way in which it ends: `applyLedgerEntries` of
-- backend/packages/api/src/balance-service.ts.
use powerotp.Prelude.{
  text_eq, ℕ, Option, none, some, List, [], Text, every, exists, Bool-cases, inl, inr, includes,
  ◌&&◌,
}
use powerotp.Billing.Books.{Entry, LedgerEntryInput, Books, Attempt, committed, duplicate, Draw}
use powerotp.Billing.Ledger.{bind_attempt, is_nonempty}
use powerotp.Billing.Ledger.Apply.{
  Outcome, applied, refused, LedgerError, Try, apply_ledger_entries, transaction, attempt_under,
  present, give_up, finish_first, finish_last, is_own_balance, is_admin_input, has_bad_reference,
}

-- What holds of the value, if the attempt gives one.
abbrev pub Holds {ℓ} : {A : Type ℓ} → (A → Type 0) → Attempt A → Type 0
Holds P (committed a) = P a
Holds P (duplicate key) = Unit

pub bind-Holds {ℓ κ} :
    {A : Type ℓ} {B : Type κ} (P : A → Type 0) (Q : B → Type 0) (a : Attempt A) (k : A → Attempt B)
    → Holds P a
    → ((x : A) → P x → Holds Q (k x))
    → Holds Q (bind_attempt a k)
bind-Holds P Q (committed a) k h f = f a h
bind-Holds P Q (duplicate key) k h f = tt

pub Holds-map {ℓ} :
    {A : Type ℓ} (P Q : A → Type 0) (a : Attempt A) → ((x : A) → P x → Q x) → Holds P a → Holds Q a
Holds-map P Q (committed a) f h = f a h
Holds-map P Q (duplicate key) f h = tt

-- A fact about the books that another session leaves.
abbrev pub HoldsOfRace : (Books → Type 0) → Option (Text × Books) → Type 0
HoldsOfRace Q none = Unit
HoldsOfRace Q (some (user, later)) = Q later

pub HoldsOfRace-any : (race : Option (Text × Books)) → HoldsOfRace (λ b. Unit) race
HoldsOfRace-any none = tt
HoldsOfRace-any (some (user, later)) = tt

module _ (inputs : List LedgerEntryInput) (key : Option Text) (Q : Books → Type 0)
    (P : Books × Outcome (List Entry) → Type 0)
    (nothing : (books : Books) → Q books → P (books, applied []))
    (refuses : (books : Books) → Q books → (e : LedgerError) → P (books, refused e))
    (commits : (books : Books)
      → Q books
      → (draws : ℕ → Draw)
      → Holds (λ p. P (p.0, applied (present p.1))) (transaction books inputs key draws)) where
  abbrev AttemptHolds : Books × Attempt (Books × List (Option Entry)) → Type 0
  AttemptHolds (books, attempt) = Q books × Holds (λ p. P (p.0, applied (present p.1))) attempt

  attempt_under-Holds :
      (race : Option (Text × Books)) (books : Books) (draws : ℕ → Draw)
      → Q books
      → HoldsOfRace Q race
      → AttemptHolds (attempt_under race books inputs key draws)
  attempt_under-Holds none books draws h r = (h, commits books h draws)
  attempt_under-Holds (some (user, later)) books draws h r = (r, tt)

  give_up-Holds : (key' : Option Text) (books : Books) → Q books → P (books, give_up books key')
  give_up-Holds none books h = refuses books h _
  give_up-Holds (some k) books h =
      elim (Bool-cases (is_nonempty (some k) && includes books.claims k)) [
        | inl claimed ↦ rw claimed (nothing books h)
        | inr free ↦ rw free (refuses books h _)
      ]

  finish_last-Holds :
      (made : Books × Attempt (Books × List (Option Entry)))
      → AttemptHolds made
      → P (finish_last key made)
  finish_last-Holds (books, committed (after, entries)) h = h.1
  finish_last-Holds (books, duplicate id) h = give_up-Holds key books h.0

  module _ (again : Try) (r : HoldsOfRace Q again.race) where
    finish_first-Holds :
        (made : Books × Attempt (Books × List (Option Entry)))
        → AttemptHolds made
        → P (finish_first inputs key again made)
    finish_first-Holds (books, committed (after, entries)) h = h.1
    finish_first-Holds (books, duplicate id) h =
        elim (Bool-cases (is_own_balance books inputs id)) [
          | inl own ↦
              rw own (finish_last-Holds _ (attempt_under-Holds again.race books again.draws h.0 r))
          | inr other ↦ rw other (give_up-Holds key books h.0)
        ]

    pub apply_ledger_entries_ind :
        (books : Books) (first : Try)
        → Q books
        → HoldsOfRace Q first.race
        → P (apply_ledger_entries books inputs key first again)
    unfolding apply_ledger_entries
    apply_ledger_entries_ind books first h f =
        let made = finish_first-Holds _ (attempt_under-Holds first.race books first.draws h f) in
        elim (Bool-cases (every is_admin_input inputs)) [
          | inl admin ↦ rw admin (nothing books h)
          | inr other ↦ elim (Bool-cases (exists has_bad_reference inputs)) [
            | inl bad ↦ rw (other, bad) (refuses books h _)
            | inr good ↦ rw (other, good) made
          ]
        ]
