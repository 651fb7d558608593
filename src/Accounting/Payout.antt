-- ===== src/Accounting/Payout.antt =====
-- The division of a payout among projects by largest remainders: `allocatePayoutMicros` of
-- backend/packages/api/src/accounting-money.ts. Negative amounts, which throw as the unsafe ones
-- do, are no values of the model.
pub mod Sums
pub mod Largest
pub mod Whole
use powerotp.Prelude.{
  sort, text_less, ℕ, zero, suc, ◌+◌, ◌-◌, ◌*◌, ◌/◌, ◌%◌, Bool, true, false, not, List, [], ◌∷◌,
  ◌==◌, nat_eq, ltb, leb, if◌then◌else◌, Text, exists, filter, map,
}

-- `FilledSlotShare`
pub record Share : Type 0 where
  pub project_id : Text
  pub filled_slots : ℕ

-- A row, and `PayoutAllocation`, which is a row without its remainder.
pub record Row : Type 0 where
  pub share : Share
  pub allocated_micros : ℕ
  pub remainder : ℕ

pub record Allocation : Type 0 where
  pub share : Share
  pub allocated_micros : ℕ

pub data PayoutResult : Type 0 where
  ok : List Allocation → PayoutResult
  invalid_payout_micros invalid_filled_slots : PayoutResult

abbrev pub is_safe_integer : ℕ → Bool
is_safe_integer n = leb n 9007199254740991

abbrev pub sum_by {ℓ} : {A : Type ℓ} → (A → ℕ) → List A → ℕ
sum_by f [] = 0
sum_by f (x ∷ xs) = f x + sum_by f xs

abbrev pub by_remainder : Row → Row → Bool
by_remainder left right =
    if left.remainder == right.remainder
    then text_less left.share.project_id right.share.project_id
    else ltb right.remainder left.remainder

abbrev pub by_project : Allocation → Allocation → Bool
by_project left right = text_less left.share.project_id right.share.project_id

abbrev pub is_eligible : Share → Bool
is_eligible s = ltb 0 s.filled_slots

abbrev pub slots : Share → ℕ
slots s = s.filled_slots

abbrev pub row_of : ℕ → ℕ → Share → Row
row_of total denominator s = record {
  share = s;
  allocated_micros = total * s.filled_slots / denominator;
  remainder = total * s.filled_slots % denominator;
}

abbrev pub one_more : Row → Row
one_more r = record {
  share = r.share;
  allocated_micros = r.allocated_micros + 1;
  remainder = r.remainder;
}

-- The loop that gives a micro more to each of the first rows.
abbrev pub give : ℕ → List Row → List Row
give zero rows = rows
give (suc n) [] = []
give (suc n) (r ∷ rows) = one_more r ∷ give n rows

abbrev pub row_micros : Row → ℕ
row_micros r = r.allocated_micros

abbrev pub allocation_of : Row → Allocation
allocation_of r = record { share = r.share; allocated_micros = r.allocated_micros }

abbrev pub allocate_rows : ℕ → List Row → List Allocation
allocate_rows total rows =
    sort by_project
      (map allocation_of (give (total - sum_by row_micros rows) (sort by_remainder rows)))

abbrev pub allocate_eligible : ℕ → List Share → List Allocation
allocate_eligible total eligible =
    let denominator = sum_by slots eligible in
    if denominator == 0 then [] else allocate_rows total (map (row_of total denominator) eligible)

-- `allocatePayoutMicros`
unfoldable pub allocate_payout_micros : ℕ → List Share → PayoutResult
allocate_payout_micros total shares =
    if not (is_safe_integer total)
    then invalid_payout_micros
    else if exists (λ s. not (is_safe_integer (slots s))) shares
    then invalid_filled_slots
    else ok (allocate_eligible total (filter is_eligible shares))
