-- ===== src/Billing/Charge/Debit.antt =====
-- What a charge takes: `chargeCompletedInteraction` of
-- backend/packages/api/src/billing-charge-service.ts.
use powerotp.Prelude.{
  ℕ, false, Option, none, some, [], ◌∷◌, ◌==◌, Text, text_eq, not, leb, Bool-cases, inl, inr, refl,
  ◌≡◌, sym, subst, arith, ==→≡, ℤ, pos, negate, ◌+ℤ◌, ◌≤ℤ◌, int_laws,
}
use powerotp.Verification.State.{type_eq, sms_code, email_code}
use powerotp.Verification.Store.{Interaction, World, was_attempted}
use powerotp.Billing.{BillingTier, round_currency, round_currency-exact}
use powerotp.Billing.Rates.{Rates, RateCard}
use powerotp.Billing.Books.{Entry, Books, Draw, platform_admin_user_id}
use powerotp.Billing.Ledger.{balance_of, resolve_amount}
use powerotp.Billing.Ledger.Attempts.{Holds-map, apply_ledger_entries_ind}
use powerotp.Billing.Ledger.Chain.{balances-insert}
use powerotp.Billing.Ledger.Single.{posted, single_row, IsSingle, transaction-IsSingle}
use powerotp.Billing.Ledger.Once.{unraced}
use powerotp.Billing.Ledger.Apply.{start, transaction, apply_ledger_entry}
use powerotp.Billing.Charge.Once.{books-after_charge}
use powerotp.Billing.Charge.{
  ChargeTry, charge_completed_interaction, charge_amount, charge_input, charge_key, minus_rate,
  compute_billable_minutes, timeline,
}

minus_rate_debit :
    (rate : Option RateCard) (units : ℕ) (tier : BillingTier) → minus_rate rate units tier ≤ℤ pos 0
unfolding negate
minus_rate_debit none units tier = omega arith
minus_rate_debit (some card) units tier = ground arith

module _ (country_for_e164 : Text → Option Text) (rates : Rates) (w : World) (x : Interaction) where
  charge_amount_debit :
      (tier : BillingTier) (prior : ℕ → Option Entry)
      → resolve_amount (charge_amount country_for_e164 rates w x) tier prior ≤ℤ pos 0
  charge_amount_debit tier prior = elim (Bool-cases x.free_quota_covered) [
    | inl free ↦ rw free (omega arith)
    | inr counted ↦ elim (Bool-cases (x.type == sms_code)) [
      | inl sms ↦ rw (counted, sms) (minus_rate_debit _ 1 tier)
      | inr other ↦ elim (Bool-cases (x.type == email_code)) [
        | inl mail ↦ rw (counted, other, mail) (minus_rate_debit _ 1 tier)
        | inr voice ↦ elim (Bool-cases (leb (compute_billable_minutes (timeline w x)) 0)) [
          | inl silent ↦ rw (counted, other, voice, silent) (omega arith)
          | inr spoke ↦ rw (counted, other, voice, spoke) (minus_rate_debit _ _ tier)
        ]
      ]
    ]
  ]

round_currency_debit : (a : ℤ) → a ≤ℤ pos 0 → round_currency a ≤ℤ pos 0
unfolding round_currency
round_currency_debit a h = ground arith

closing_debit : (opening amount : ℤ) → amount ≤ℤ pos 0 → opening +ℤ amount ≤ℤ opening
closing_debit opening amount h = omega int_laws

abbrev pub NoHigher : Books → Books → Type 0
NoHigher before after = (user : Text) → balance_of after user ≤ℤ balance_of before user

module _ (country_for_e164 : Text → Option Text) (rates : Rates) (w : World) (x : Interaction)
    (paying : (x.customer_id == platform_admin_user_id) ≡ false) where
  posted-NoHigher :
      (draw : Draw) (books : Books) (key : Text)
      → NoHigher books (posted (charge_input country_for_e164 rates w x) draw books key)
  posted-NoHigher draw books key user =
      let row = single_row (charge_input country_for_e164 rates w x) draw books in
      let debit =
        closing_debit (balance_of books x.customer_id) row.amount_usd
          (round_currency_debit _ (charge_amount_debit country_for_e164 rates w x _ _)) in
      let moved = balances-insert row (start (record books { claims = key ∷ books.claims })) user in
      subst (λ b. b ≤ℤ balance_of books user) (sym moved)
        (elim (Bool-cases (x.customer_id == user)) [
          | inl same ↦
              let own =
                subst (λ u. balance_of books x.customer_id +ℤ row.amount_usd ≤ℤ balance_of books u)
                  (==→≡ x.customer_id user same) debit in
              rw same (subst (λ c. c ≤ℤ balance_of books user) (sym (round_currency-exact _)) own)
          | inr other ↦ rw other (omega arith)
        ])

  apply_charge-NoHigher :
      (books : Books) (draws again : ℕ → Draw)
      → NoHigher books
          (apply_ledger_entry books
            (charge_input country_for_e164 rates w x)
            (some (charge_key x.id))
            (unraced draws)
            (unraced again)).0
  apply_charge-NoHigher books draws again =
      let input = charge_input country_for_e164 rates w x in
      apply_ledger_entries_ind (input ∷ []) (some (charge_key x.id)) (λ b. b ≡ books)
        (λ p. NoHigher books p.0) (λ b e. subst (NoHigher books) (sym e) (λ user. omega arith))
        (λ b e why. subst (NoHigher books) (sym e) (λ user. omega arith))
        (λ b e draws'.
          Holds-map (IsSingle input paying refl refl b (charge_key x.id) (draws' 0))
            (λ p. NoHigher books p.0) (transaction b (input ∷ []) (some (charge_key x.id)) draws')
            (λ p s.
              subst (λ q. NoHigher books q.0) (sym s.1)
                (subst (λ c. NoHigher c (posted input (draws' 0) b (charge_key x.id))) e
                  (posted-NoHigher (draws' 0) b (charge_key x.id))))
            (transaction-IsSingle input paying refl refl b _ _ draws'))
        (unraced again) tt books (unraced draws) refl tt

abbrev pub unraced_charge : (ℕ → Draw) → (ℕ → Draw) → ℕ → ChargeTry
unraced_charge draws again now = record { first = unraced draws; again = unraced again; now = now }

-- A charge that no other session gets ahead of raises no customer's balance.
pub charge_completed_interaction_debit :
    (country_for_e164 : Text → Option Text) (rates : Rates) (w : World) (x : Interaction)
    (books : Books) (draws again : ℕ → Draw) (now : ℕ) (user : Text)
    → let try = unraced_charge draws again now in
      balance_of (charge_completed_interaction country_for_e164 rates w books x try).1 user
      ≤ℤ balance_of books user
unfolding charge_completed_interaction
charge_completed_interaction_debit country_for_e164 rates w x books draws again now user =
    elim (Bool-cases (x.customer_id == platform_admin_user_id)) [
      | inl admin ↦ rw admin (omega arith)
      | inr paying ↦ elim (Bool-cases (not (was_attempted x))) [
        | inl idle ↦ rw (paying, idle) (omega arith)
        | inr tried ↦
            let kept =
              apply_charge-NoHigher country_for_e164 rates w x paying books draws again user in
            rw (paying, tried)
              (subst (λ b. balance_of b user ≤ℤ balance_of books user)
                (sym (books-after_charge w x.id now _)) kept)
      ]
    ]
