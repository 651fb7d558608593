-- ===== src/Accounting/Tests.antt =====
-- A payout that does not divide evenly among three projects, and printed amounts.
use powerotp.Prelude.{ℕ, true, none, some, List, [], ◌∷◌, text, every, ◌≡◌, refl, arith}
use powerotp.Network.Address.{split}
use powerotp.Accounting.Money.{
  usd_decimal_schema, usd_decimal_to_micros, digits, micros_to_usd_decimal,
}
use powerotp.Accounting.Money.RoundTrip.{usd_decimal_to_micros-micros_to_usd_decimal}
use powerotp.Accounting.Payout.{
  Share, Allocation, sum_by, slots, ok, invalid_payout_micros, allocate_payout_micros,
}
use powerotp.Accounting.Payout.Largest.{is_fair}
use powerotp.Accounting.Payout.Whole.{micros, allocate_payout_micros_whole}

abbrev share : ℕ → ℕ → Share
share letter n = record { project_id = letter ∷ []; filled_slots = n }

abbrev shares : List Share
shares = share 99 2 ∷ share 98 1 ∷ share 100 0 ∷ share 97 4 ∷ []

abbrev allocation : ℕ → ℕ → ℕ → Allocation
allocation letter n m = record { share = share letter n; allocated_micros = m }

-- Of 100 the remainders are 1/7, 2/7 and 4/7: the rest of one goes to the last.
uneven :
    allocate_payout_micros 100 shares
    ≡ ok (allocation 97 4 57 ∷ allocation 98 1 14 ∷ allocation 99 2 29 ∷ [])
unfolding allocate_payout_micros
uneven = refl

tie :
    allocate_payout_micros 3 (share 98 1 ∷ share 97 1 ∷ [])
    ≡ ok (allocation 97 1 2 ∷ allocation 98 1 1 ∷ [])
unfolding allocate_payout_micros
tie = refl

unsafe : allocate_payout_micros 9007199254740992 shares ≡ invalid_payout_micros
unfolding allocate_payout_micros
unsafe = refl

no_slots : allocate_payout_micros 100 (share 97 0 ∷ []) ≡ ok []
unfolding allocate_payout_micros
no_slots = refl

allocate_payout_micros_whole_example :
    (allocations : List Allocation) × (cut : ℕ) × (allocate_payout_micros 100 shares
      ≡ ok allocations)
    × (sum_by micros allocations ≡ 100)
    × (every (is_fair 100 7 cut) allocations ≡ true)
    × (sum_by (λ a. slots a.share) allocations ≡ 7)
allocate_payout_micros_whole_example =
    allocate_payout_micros_whole 100 shares slots refl refl (omega arith)

printed_whole : micros_to_usd_decimal 100000000 ≡ text "100"
unfolding micros_to_usd_decimal digits
printed_whole = refl

printed_part : micros_to_usd_decimal 12050000 ≡ text "12.05"
unfolding micros_to_usd_decimal digits
printed_part = refl

too_large : usd_decimal_to_micros (text "9007199254.740992") ≡ none
unfolding usd_decimal_to_micros split
too_large = refl

usd_decimal_to_micros-micros_to_usd_decimal_example :
    (usd_decimal_schema (micros_to_usd_decimal 12050000) ≡ true)
    × (usd_decimal_to_micros (micros_to_usd_decimal 12050000) ≡ some 12050000)
usd_decimal_to_micros-micros_to_usd_decimal_example =
    usd_decimal_to_micros-micros_to_usd_decimal 12050000 (omega arith)
