-- ===== src/Billing/Ledger/Log.antt =====
-- The rows and the claim that one call leaves: `applyLedgerEntries` of
-- backend/packages/api/src/balance-service.ts.
use powerotp.Prelude.{
  ℕ, ◌+◌, Bool, true, false, Option, none, some, List, [], ◌∷◌, ◌++◌, ◌==◌, Text, text_eq, is_zero,
  refl, sym, ap, inl, inr, Bool-cases, arith, ◌∙◌, ◌&&◌, length, every, map, is_some, ◌≡◌, includes,
  ◌||◌, ==_refl, not, nat_eq, if◌then◌else◌,
}
use powerotp.Billing.{tier_for_balance, round_currency}
use powerotp.Billing.Books.{Entry, LedgerEntryInput, Books, Run, Draw, platform_admin_user_id}
use powerotp.Billing.Ledger.{
  opening_of, post, post_all, mark_source, mark_all, insert_unless, resolve_amount, entry_at,
  mark_input, is_nonempty, mark_row, mark_entry, skip,
}
use powerotp.Billing.Ledger.Attempts.{Holds, bind-Holds}
use powerotp.Billing.Ledger.Apply.{transaction, claim, close_claim, start, present}

-- A row without the mark that a later referral leaves on it.
abbrev pub unmarked : Entry → Entry
unmarked e = record e { referral_processed = false; referral_transaction_id = none }

-- The rows go onto the ledger in their order, so that the last of them stands first.
abbrev pub rev_onto {ℓ} : {A : Type ℓ} → List A → List A → List A
rev_onto [] ys = ys
rev_onto (x ∷ xs) ys = rev_onto xs (x ∷ ys)

rev_onto_snoc {ℓ} :
    {A : Type ℓ} (xs : List A) (x : A) (ys : List A)
    → rev_onto (xs ++ (x ∷ [])) ys ≡ x ∷ rev_onto xs ys
rev_onto_snoc [] x ys = refl
rev_onto_snoc (y ∷ xs) x ys = rev_onto_snoc xs x (y ∷ ys)

present_snoc :
    (entries : List (Option Entry)) (e : Entry)
    → present (entries ++ (some e ∷ [])) ≡ present entries ++ (e ∷ [])
present_snoc [] e = refl
present_snoc (none ∷ entries) e = present_snoc entries e
present_snoc (some f ∷ entries) e = ap (◌∷◌ f) (present_snoc entries e)

present-none : (entries : List (Option Entry)) → present (entries ++ (none ∷ [])) ≡ present entries
present-none [] = refl
present-none (none ∷ entries) = present-none entries
present-none (some f ∷ entries) = ap (◌∷◌ f) (present-none entries)

map_snoc {ℓ κ} :
    {A : Type ℓ} {B : Type κ} (f : A → B) (xs : List A) (x : A)
    → map f (xs ++ (x ∷ [])) ≡ map f xs ++ (f x ∷ [])
map_snoc f [] x = refl
map_snoc f (y ∷ xs) x = ap (◌∷◌ (f y)) (map_snoc f xs x)

unmarked-mark_row : (id by : Text) (e : Entry) → unmarked (mark_row id by e) ≡ unmarked e
unmarked-mark_row id by e = elim (Bool-cases (e.id == id)) [
  | inl same ↦ rw same refl
  | inr other ↦ rw other refl
]

unmarked-map :
    (id by : Text) (es : List Entry) → map unmarked (map (mark_row id by) es) ≡ map unmarked es
unmarked-map id by [] = refl
unmarked-map id by (e ∷ es) = rw (unmarked-mark_row id by e, unmarked-map id by es) refl

unmarked-present :
    (id by : Text) (es : List (Option Entry))
    → map unmarked (present (map (mark_entry id by) es)) ≡ map unmarked (present es)
unmarked-present id by [] = refl
unmarked-present id by (none ∷ es) = unmarked-present id by es
unmarked-present id by (some e ∷ es) =
    rw (unmarked-mark_row id by e, unmarked-present id by es) refl

-- The ledger is the one before with the rows of the run on it.
abbrev pub IsRecorded : List Entry → List Entry → List Entry → Type 0
IsRecorded before rows ledger =
    map unmarked ledger ≡ rev_onto (map unmarked rows) (map unmarked before)

module _ (before : List Entry) (claims : List Text) where
  abbrev IsLogged : Run → Type 0
  IsLogged run =
      IsRecorded before (present run.entries) run.books.ledger × (run.books.claims ≡ claims)

  skip-IsLogged : (run : Run) → IsLogged run → IsLogged (skip run)
  skip-IsLogged run h = rw (present-none run.entries) h

  insert_unless-IsLogged :
      (c : Option (Option Text)) (row : Entry) (run : Run)
      → IsLogged run
      → Holds IsLogged (insert_unless c row run)
  insert_unless-IsLogged none row run h = (
    ap (◌∷◌ (unmarked row)) h.0
        ∙ sym (
            rev_onto_snoc (map unmarked (present run.entries)) (unmarked row) (map unmarked before))
        ∙ ap (λ rows. rev_onto rows (map unmarked before))
            (sym (map_snoc unmarked (present run.entries) row)
              ∙ ap (map unmarked) (sym (present_snoc run.entries row))),
    h.1,
  )
  insert_unless-IsLogged (some key) row run h = tt

  post-IsLogged :
      (draw : Draw) (input : LedgerEntryInput) (run : Run)
      → IsLogged run
      → Holds IsLogged (post draw input run)
  unfolding post
  post-IsLogged draw input run h = elim (Bool-cases (input.user_id == platform_admin_user_id)) [
    | inl admin ↦ rw admin (skip-IsLogged run h)
    | inr other ↦
        let amount = round_currency (
          resolve_amount input.amount_usd (tier_for_balance (opening_of run input.user_id))
            (entry_at run.entries)) in
        rw other (elim (Bool-cases (input.omit_when_zero && is_zero amount)) [
          | inl zero ↦ rw zero (skip-IsLogged run h)
          | inr counts ↦ rw counts (insert_unless-IsLogged _ _ run h)
        ])
  ]

  post_all-IsLogged :
      (inputs : List LedgerEntryInput) (draws : ℕ → Draw) (run : Run)
      → IsLogged run
      → Holds IsLogged (post_all inputs draws run)
  unfolding post_all
  post_all-IsLogged [] draws run h = h
  post_all-IsLogged (input ∷ inputs) draws run h =
      bind-Holds IsLogged IsLogged (post (draws (length run.entries)) input run)
        (post_all inputs draws) (post-IsLogged (draws (length run.entries)) input run h)
        (post_all-IsLogged inputs draws)

  mark_source-IsLogged :
      (referral source : Option Entry) (run : Run)
      → IsLogged run
      → IsLogged (mark_source referral source run)
  unfolding mark_source
  mark_source-IsLogged none source run h = h
  mark_source-IsLogged (some by) none run h = h
  mark_source-IsLogged (some by) (some e) run h = (
    unmarked-map e.id by.id run.books.ledger
        ∙ h.0
        ∙ ap (λ rows. rev_onto rows (map unmarked before))
            (sym (unmarked-present e.id by.id run.entries)),
    h.1,
  )

  mark_input-IsLogged :
      (i : ℕ) (source : Option ℕ) (referred : Bool) (run : Run)
      → IsLogged run
      → IsLogged (mark_input i source referred run)
  mark_input-IsLogged i none referred run h = h
  mark_input-IsLogged i (some source) false run h = h
  mark_input-IsLogged i (some source) true run h = mark_source-IsLogged _ _ run h

  mark_all-IsLogged :
      (inputs : List LedgerEntryInput) (i : ℕ) (run : Run)
      → IsLogged run
      → IsLogged (mark_all inputs i run)
  unfolding mark_all
  mark_all-IsLogged [] i run h = h
  mark_all-IsLogged (input ∷ inputs) i run h =
      mark_all-IsLogged inputs (i + 1) _
        (mark_input-IsLogged i input.source_entry_index (is_nonempty input.referral_code) run h)

-- The key of the call is claimed, unless it has none or its rows are all left out.
abbrev pub is_held : Option Text → Bool → List Text → Bool
is_held none empty claims = true
is_held (some key) empty claims = not (is_nonempty (some key)) || empty || includes claims key

abbrev pub no_rows : List (Option Entry) → Bool
no_rows = every λ e. not (is_some e)

abbrev claims_after : Option Text → List Text → List Text
claims_after none claims = claims
claims_after (some key) claims = if is_nonempty (some key) then key ∷ claims else claims

abbrev IsClaimed : Books → Option Text → Books → Type 0
IsClaimed books key claimed =
    (claimed.ledger ≡ books.ledger) × (claimed.claims ≡ claims_after key books.claims)

claim-IsClaimed :
    (books : Books) (key : Option Text) → Holds (IsClaimed books key) (claim books key)
claim-IsClaimed books none = (refl, refl)
claim-IsClaimed books (some key) = ground arith

close_claim-is_held :
    (key : Option Text) (claims : List Text) (run : Run)
    → run.books.claims ≡ claims_after key claims
    → is_held key (no_rows run.entries) (close_claim key run).claims ≡ true
close_claim-is_held none claims run h = refl
close_claim-is_held (some []) claims run h = refl
close_claim-is_held (some (c ∷ t)) claims run h = elim (Bool-cases (no_rows run.entries)) [
  | inl empty ↦ rw empty refl
  | inr rows ↦ rw (rows, h, ==_refl (c ∷ t)) refl
]

close_claim-ledger :
    (key : Option Text) (run : Run) → (close_claim key run).ledger ≡ run.books.ledger
close_claim-ledger none run = refl
close_claim-ledger (some key) run = ground arith

abbrev pub IsPosted : Books → Option Text → Books × List (Option Entry) → Type 0
IsPosted books key (after, entries) =
    IsRecorded books.ledger (present entries) after.ledger
    × (is_held key (no_rows entries) after.claims ≡ true)

pub transaction-IsPosted :
    (books : Books) (inputs : List LedgerEntryInput) (key : Option Text) (draws : ℕ → Draw)
    → Holds (IsPosted books key) (transaction books inputs key draws)
unfolding transaction
transaction-IsPosted books inputs key draws =
    let claims = claims_after key books.claims in
    let Logged = IsLogged books.ledger claims in
    bind-Holds (IsClaimed books key) (IsPosted books key) (claim books key) _
      (claim-IsClaimed books key)
      λ claimed c.
        bind-Holds Logged (IsPosted books key) (post_all inputs draws (start claimed)) _
          (post_all-IsLogged books.ledger claims inputs draws (start claimed)
            (ap (map unmarked) c.0, c.1))
          λ run logged.
            let marked = mark_all-IsLogged books.ledger claims inputs 0 run logged in
            (
              ap (map unmarked) (close_claim-ledger key (mark_all inputs 0 run)) ∙ marked.0,
              close_claim-is_held key books.claims (mark_all inputs 0 run) marked.1,
            )
