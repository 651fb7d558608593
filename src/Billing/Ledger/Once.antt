-- ===== src/Billing/Ledger/Once.antt =====
-- Calls that repeat a key, and calls that are refused: `applyLedgerEntries` of
-- backend/packages/api/src/balance-service.ts.
use powerotp.Prelude.{
  ℕ, Bool, true, false, Option, none, some, List, [], ◌∷◌, Text, text_eq, ◌∙◌, refl, subst, ap, inl,
  inr, Bool-cases, every, exists, map, ◌≡◌, includes, nat_eq,
}
use powerotp.Billing.Books.{Entry, LedgerEntryInput, Books, duplicate, Draw}
use powerotp.Billing.Ledger.Attempts.{Holds-map, HoldsOfRace-any, apply_ledger_entries_ind}
use powerotp.Billing.Ledger.Log.{
  rev_onto, IsRecorded, IsPosted, is_held, no_rows, transaction-IsPosted, unmarked,
}
use powerotp.Billing.Ledger.Apply.{
  Try, apply_ledger_entries, transaction, present, Outcome, applied, refused, is_own_balance,
  finish_first, is_admin_input, has_bad_reference,
}

-- An attempt that no other session gets ahead of.
abbrev pub unraced : (ℕ → Draw) → Try
unraced draws = record { draws = draws; race = none }

abbrev pub rows_of : Outcome (List Entry) → List Entry
rows_of (applied rows) = rows
rows_of (refused e) = []

abbrev is_nil {ℓ} : {A : Type ℓ} → List A → Bool
is_nil [] = true
is_nil (x ∷ xs) = false

no_rows-present : (entries : List (Option Entry)) → is_nil (present entries) ≡ no_rows entries
no_rows-present [] = refl
no_rows-present (none ∷ entries) = no_rows-present entries
no_rows-present (some e ∷ entries) = refl

-- A call that is refused changes nothing.
abbrev pub IsUnchanged : Books → Books × Outcome (List Entry) → Type 0
IsUnchanged books (after, applied rows) = Unit
IsUnchanged books (after, refused e) = after ≡ books

abbrev IsLogged : Books → Books × Outcome (List Entry) → Type 0
IsLogged books (after, outcome) =
    IsRecorded books.ledger (rows_of outcome) after.ledger × IsUnchanged books (after, outcome)

-- A call that no other session gets ahead of puts the rows that it returns on the ledger, in
-- their order, and alters nothing else of it but the referral mark of a row. A call that is
-- refused leaves the books as they were.
pub apply_ledger_entries-IsLogged :
    (books : Books) (inputs : List LedgerEntryInput) (key : Option Text) (draws again : ℕ → Draw)
    → let (after, outcome) =
        apply_ledger_entries books inputs key (unraced draws) (unraced again) in
      IsRecorded books.ledger (rows_of outcome) after.ledger × IsUnchanged books (after, outcome)
apply_ledger_entries-IsLogged books inputs key draws again =
    apply_ledger_entries_ind inputs key (λ b. b ≡ books) (IsLogged books)
      (λ b e. (ap (λ c. map unmarked c.ledger) e, tt))
      (λ b e why. (ap (λ c. map unmarked c.ledger) e, e))
      (λ b e draws'.
        Holds-map (IsPosted b key) (λ p. IsLogged books (p.0, applied (present p.1)))
          (transaction b inputs key draws')
          (λ p h.
            (h.0 ∙ ap (λ c. rev_onto (map unmarked (present p.1)) (map unmarked c.ledger)) e, tt))
          (transaction-IsPosted b inputs key draws'))
      (unraced again) tt books (unraced draws) refl tt

-- A call that writes rows leaves its key claimed.
abbrev IsClaiming : Option Text → Books × Outcome (List Entry) → Type 0
IsClaiming key (after, outcome) = is_held key (is_nil (rows_of outcome)) after.claims ≡ true

is_held_empty : (key : Option Text) (claims : List Text) → is_held key true claims ≡ true
is_held_empty none claims = refl
is_held_empty (some []) claims = refl
is_held_empty (some (c ∷ t)) claims = refl

apply_ledger_entries-IsClaiming :
    (books : Books) (inputs : List LedgerEntryInput) (key : Option Text) (first again : Try)
    → IsClaiming key (apply_ledger_entries books inputs key first again)
apply_ledger_entries-IsClaiming books inputs key first again =
    apply_ledger_entries_ind inputs key (λ b. Unit) (IsClaiming key)
      (λ b _. is_held_empty key b.claims) (λ b _ why. is_held_empty key b.claims)
      (λ b _ draws.
        Holds-map (IsPosted b key) (λ p. IsClaiming key (p.0, applied (present p.1)))
          (transaction b inputs key draws)
          (λ p h. ap (λ empty. is_held key empty p.0.claims) (no_rows-present p.1) ∙ h.1)
          (transaction-IsPosted b inputs key draws))
      again (HoldsOfRace-any again.race) books first tt (HoldsOfRace-any first.race)

module _ (books : Books) (inputs : List LedgerEntryInput) (c : ℕ) (t : Text)
    (held : includes books.claims (c ∷ t) ≡ true) where
  transaction-duplicate :
      (draws : ℕ → Draw) → transaction books inputs (some (c ∷ t)) draws ≡ duplicate (some (c ∷ t))
  unfolding transaction
  transaction-duplicate draws = rw held refl

  finish_first-claimed :
      (again : ℕ → Draw)
      → finish_first inputs (some (c ∷ t)) (unraced again) (books, duplicate (some (c ∷ t)))
        ≡ (books, applied [])
  finish_first-claimed again = elim (Bool-cases (is_own_balance books inputs (some (c ∷ t)))) [
    | inl own ↦ rw (own, transaction-duplicate again, held) refl
    | inr other ↦ rw (other, held) refl
  ]

  apply_ledger_entries-claimed :
      (draws again : ℕ → Draw)
      → exists has_bad_reference inputs ≡ false
      → apply_ledger_entries books inputs (some (c ∷ t)) (unraced draws) (unraced again)
        ≡ (books, applied [])
  unfolding apply_ledger_entries
  apply_ledger_entries-claimed draws again good = elim (Bool-cases (every is_admin_input inputs)) [
    | inl admin ↦ rw admin refl
    | inr other ↦ rw (other, good, transaction-duplicate draws) (finish_first-claimed again)
  ]

-- After a call under a key that wrote rows, a call under that key, with whatever inputs that pass
-- the check of their references, writes nothing, returns no row and is not refused.
pub apply_ledger_entries_once :
    (books after : Books) (inputs later : List LedgerEntryInput) (c : ℕ) (t : Text)
    (first second : Try) (draws again : ℕ → Draw) (row : Entry) (rows : List Entry)
    → apply_ledger_entries books inputs (some (c ∷ t)) first second ≡ (after, applied (row ∷ rows))
    → exists has_bad_reference later ≡ false
    → apply_ledger_entries after later (some (c ∷ t)) (unraced draws) (unraced again)
      ≡ (after, applied [])
apply_ledger_entries_once books after inputs later c t first second draws again row rows made good =
    let held : IsClaiming (some (c ∷ t)) (after, applied (row ∷ rows)) =
      subst (IsClaiming (some (c ∷ t))) made
        (apply_ledger_entries-IsClaiming books inputs (some (c ∷ t)) first second) in
    apply_ledger_entries-claimed after later c t held draws again good
