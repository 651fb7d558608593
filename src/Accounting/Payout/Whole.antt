-- ===== src/Accounting/Payout/Whole.antt =====
-- A payout is divided without a rest: `allocatePayoutMicros` of
-- backend/packages/api/src/accounting-money.ts.
use powerotp.Prelude.{
  length-sort, every-sort, sort, ℕ, zero, suc, ◌+◌, ◌-◌, ◌<◌, Bool, true, false, not, List, [], ◌∷◌,
  ◌==◌, nat_eq, length, every, exists, filter, map, ◌≡◌, refl, ap, subst, ◌∙◌, arith, Bool-cases,
  inl, inr,
}
use powerotp.Accounting.Payout.{
  Row, Share, sum_by, row_of, slots, give, row_micros, Allocation, allocation_of, by_remainder,
  by_project, is_eligible, is_safe_integer, allocate_rows, ok, allocate_payout_micros,
}
use powerotp.Accounting.Payout.Largest.{is_fair, largest}
use powerotp.Accounting.Payout.Sums.{sum_by-sort, sum_by-give, rows_of, floors_fit}

abbrev pub micros : Allocation → ℕ
micros a = a.allocated_micros

sum_by-filter :
    (shares : List Share) → sum_by slots (filter is_eligible shares) ≡ sum_by slots shares
sum_by-filter [] = refl
sum_by-filter (s ∷ shares) = elim (Bool-cases (is_eligible s)) [
  | inl some ↦ rw some (ap (λ n. slots s + n) (sum_by-filter shares))
  | inr empty ↦
      let no_slots : slots s ≡ 0 = ground (arith, empty) in
      let rest = sum_by-filter shares in rw empty (omega arith)
]

sum_by-map :
    {A B : Type 0} (f : B → ℕ) (g : A → B) (xs : List A)
    → sum_by f (map g xs) ≡ sum_by (λ x. f (g x)) xs
sum_by-map f g [] = refl
sum_by-map f g (x ∷ xs) = ap (λ n. f (g x) + n) (sum_by-map f g xs)

length-map : {A B : Type 0} (g : A → B) (xs : List A) → length (map g xs) ≡ length xs
length-map g [] = refl
length-map g (x ∷ xs) = ap (λ n. suc n) (length-map g xs)

-- What is counted of the shares is what is counted of the rows' shares.
give_keeps :
    (f : Share → ℕ) (n : ℕ) (rows : List Row)
    → sum_by (λ r. f r.share) (give n rows) ≡ sum_by (λ r. f r.share) rows
give_keeps f zero rows = refl
give_keeps f (suc n) [] = refl
give_keeps f (suc n) (r ∷ rows) = ap (λ m. f r.share + m) (give_keeps f n rows)

module _ (total denominator : ℕ) (positive : 0 < denominator) where
  every-map :
      (p : Allocation → Bool) (rows : List Row)
      → every (λ r. p (allocation_of r)) rows ≡ true
      → every p (map allocation_of rows) ≡ true
  every-map p [] h = refl
  every-map p (r ∷ rows) h = ground (arith, h, every-map p rows)

  -- The rows in the order in which they are given more.
  abbrev ordered : List Share → List Row
  ordered shares = sort by_remainder (rows_of total denominator positive shares)

  abbrev unallocated : List Share → ℕ
  unallocated shares = total - sum_by row_micros (rows_of total denominator positive shares)

  abbrev given : List Share → List Row
  given shares = give (unallocated shares) (ordered shares)

  given_all :
      (shares : List Share)
      → sum_by slots shares ≡ denominator
      → sum_by row_micros (given shares) ≡ total
  given_all shares all =
      let rows = rows_of total denominator positive shares in
      let (low, high) = floors_fit total denominator positive shares all in
      let count : length (ordered shares) ≡ length shares =
        length-sort by_remainder rows ∙ length-map (row_of total denominator) shares in
      let sorted = sum_by-sort by_remainder row_micros rows in
      let sum = sum_by-give (unallocated shares) (ordered shares) (omega arith) in omega arith

  pub sum_by-allocate_rows :
      (shares : List Share)
      → sum_by slots shares ≡ denominator
      → sum_by micros (allocate_rows total (rows_of total denominator positive shares)) ≡ total
  sum_by-allocate_rows shares all =
      sum_by-sort by_project micros (map allocation_of (given shares))
      ∙ sum_by-map micros allocation_of (given shares)
      ∙ given_all shares all

  pub every-allocate_rows :
      (shares : List Share)
      → sum_by slots shares ≡ denominator
      → (cut : ℕ) × (every
            (is_fair total denominator cut)
            (allocate_rows total (rows_of total denominator positive shares))
          ≡ true)
  every-allocate_rows shares all =
      let (cut, fair) = largest total denominator positive shares all in
      (
        cut,
        every-sort by_project (is_fair total denominator cut) _
            (every-map (is_fair total denominator cut) (given shares) fair),
      )

  pub sum_by_shares-allocate_rows :
      (f : Share → ℕ) (shares : List Share)
      → sum_by (λ a. f a.share) (allocate_rows total (rows_of total denominator positive shares))
        ≡ sum_by f shares
  sum_by_shares-allocate_rows f shares =
      let rows = rows_of total denominator positive shares in
      sum_by-sort by_project (λ a. f a.share) (map allocation_of (given shares))
      ∙ sum_by-map (λ a. f a.share) allocation_of (given shares)
      ∙ give_keeps f (unallocated shares) (ordered shares)
      ∙ sum_by-sort by_remainder (λ r. f r.share) rows
      ∙ sum_by-map (λ r. f r.share) (row_of total denominator) shares

-- When the amounts are safe and some slot is filled, the payout is divided by largest remainders: the
-- allocations sum up to the total; each is the exact share of its project, rounded up only where that
-- share is not whole and its remainder is at least a cut that all have in common, and rounded down only
-- where it is at most that cut; and the projects with filled slots are there, each as often as in the
-- list that was given, whatever is counted of them.
pub allocate_payout_micros_whole :
    (total : ℕ) (shares : List Share) (f : Share → ℕ)
    → is_safe_integer total ≡ true
    → exists (λ s. not (is_safe_integer (slots s))) shares ≡ false
    → 0 < sum_by slots shares
    → (allocations : List Allocation) × (cut : ℕ) × (allocate_payout_micros total shares
        ≡ ok allocations)
      × (sum_by micros allocations ≡ total)
      × (every (is_fair total (sum_by slots shares) cut) allocations ≡ true)
      × (sum_by (λ a. f a.share) allocations ≡ sum_by f (filter is_eligible shares))
unfolding allocate_payout_micros
allocate_payout_micros_whole total shares f safe all_safe positive =
    let eligible = filter is_eligible shares in
    let denominator = sum_by slots eligible in
    let same : denominator ≡ sum_by slots shares = sum_by-filter shares in
    let enough : 0 < denominator = omega arith in
    let some_slots : (denominator == 0) ≡ false = ground (arith, enough) in
    let (cut, fair) = every-allocate_rows total denominator enough eligible refl in
    (
      allocate_rows total (rows_of total denominator enough eligible),
      cut,
      rw (safe, all_safe, some_slots) refl,
      sum_by-allocate_rows total denominator enough eligible refl,
      subst
          (λ d.
            every (is_fair total d cut)
              (allocate_rows total (rows_of total denominator enough eligible))
            ≡ true)
          same fair,
      sum_by_shares-allocate_rows total denominator enough f eligible,
    )
