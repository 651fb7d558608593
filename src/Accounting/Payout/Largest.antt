-- ===== src/Accounting/Payout/Largest.antt =====
-- The largest remainders are rounded up: the sorted rows of `allocatePayoutMicros` of
-- backend/packages/api/src/accounting-money.ts.
use native.Mathlib.Nat.{mod-lt, mul-add}
use powerotp.Prelude.{
  insert, sort, every-insert, every-sort, ℕ, zero, suc, ◌+◌, ◌-◌, ◌*◌, ◌/◌, ◌%◌, ◌<◌, ◌≤◌, Bool,
  true, false, ◌&&◌, ◌||◌, List, [], ◌∷◌, ◌==◌, nat_eq, ==_refl, leb, ltb, every, ◌≡◌, refl, arith,
  Bool-cases, inl, inr,
}
use powerotp.Accounting.Payout.{
  Row, Share, sum_by, slots, give, row_micros, Allocation, allocation_of, by_remainder,
}
use powerotp.Accounting.Payout.Sums.{sum_by-sort, rows_of, remainder, remainders_fill}

-- The exact share, rounded down where its remainder is at most the cut, or rounded up where it is at
-- least the cut and the share is not whole.
abbrev pub is_fair : ℕ → ℕ → ℕ → Allocation → Bool
is_fair total denominator cut a =
    let exact = total * slots a.share in
    (a.allocated_micros == exact / denominator && leb (exact % denominator) cut)
    || (a.allocated_micros == exact / denominator + 1
        && ltb 0 (exact % denominator)
        && leb cut (exact % denominator))

-- The remainders do not rise.
abbrev falls : List Row → Bool
falls [] = true
falls (r ∷ rows) = let rest = falls rows in every (λ q. leb q.remainder r.remainder) rows && rest

-- The first rows have something left and reach the cut, the others do not exceed it.
abbrev parted : ℕ → ℕ → List Row → Bool
parted cut zero rows = every (λ r. leb r.remainder cut) rows
parted cut (suc n) [] = true
parted cut (suc n) (r ∷ rows) =
    let rest = parted cut n rows in (ltb 0 r.remainder && leb cut r.remainder) && rest

both : (a b : Bool) → (a && b) ≡ true → (a ≡ true) × (b ≡ true)
both true b h = (refl, h)
both false b h = cc

at_most_weaken :
    (m n : ℕ) (rows : List Row)
    → m ≤ n
    → every (λ r. leb r.remainder m) rows ≡ true
    → every (λ r. leb r.remainder n) rows ≡ true
at_most_weaken m n [] h k = refl
at_most_weaken m n (r ∷ rows) h k =
    let (first, rest) = both (leb r.remainder m) (every (λ q. leb q.remainder m) rows) k in
    ground (arith, h, first, at_most_weaken m n rows h rest)

falls-insert : (x : Row) (ys : List Row) → falls ys ≡ true → falls (insert by_remainder x ys) ≡ true
falls-insert x [] h = refl
falls-insert x (y ∷ ys) h =
    let (bounded, rest) = both (every (λ q. leb q.remainder y.remainder) ys) (falls ys) h in
    elim (Bool-cases (by_remainder y x)) [
      | inl earlier ↦
          let small : leb x.remainder y.remainder ≡ true = ground (arith, earlier) in
          rw
            (
              earlier,
              every-insert by_remainder (λ q. leb q.remainder y.remainder) x ys small bounded,
            )
            (falls-insert x ys rest)
      | inr later ↦
          let large : y.remainder ≤ x.remainder = ground (arith, later) in
          let first : leb y.remainder x.remainder ≡ true = ground (arith, large) in
          rw (later, first, at_most_weaken y.remainder x.remainder ys large bounded) h
    ]

falls-sort : (rows : List Row) → falls (sort by_remainder rows) ≡ true
falls-sort [] = refl
falls-sort (r ∷ rows) = falls-insert r (sort by_remainder rows) (falls-sort rows)

sum_zero :
    (rows : List Row) → every (λ r. leb r.remainder 0) rows ≡ true → sum_by remainder rows ≡ 0
sum_zero [] h = refl
sum_zero (r ∷ rows) h =
    let (first, rest) = both (leb r.remainder 0) (every (λ q. leb q.remainder 0) rows) h in
    let zeros = sum_zero rows rest in ground (arith, first, zeros)

module _ (total denominator : ℕ) (positive : 0 < denominator) where
  abbrev is_small : Row → Bool
  is_small r = ltb r.remainder denominator

  -- As many rows as fill up the sum of the remainders have something left.
  part :
      (n bound : ℕ) (rows : List Row)
      → falls rows ≡ true
      → every is_small rows ≡ true
      → denominator * n ≤ sum_by remainder rows
      → every (λ r. leb r.remainder bound) rows ≡ true
      → (cut : ℕ) × (cut ≤ bound) × (parted cut n rows ≡ true)
  part zero bound rows h small filled k = (bound, omega arith, k)
  part (suc n) bound [] h small filled k = (bound, omega arith, refl)
  part (suc n) bound (r ∷ rows) h small filled k =
      let (bounded, falling) =
        both (every (λ q. leb q.remainder r.remainder) rows) (falls rows) h in
      let (first, others) = both (is_small r) (every is_small rows) small in
      let below : r.remainder < denominator = ground (arith, first) in
      let (top, _) = both (leb r.remainder bound) (every (λ q. leb q.remainder bound) rows) k in
      let under : r.remainder ≤ bound = ground (arith, top) in
      let product = mul-add denominator 1 n in
      let (cut, low, rest) =
        part n r.remainder rows falling others (omega (arith, below, product, filled)) bounded in
      let left : ltb 0 r.remainder ≡ true = elim (Bool-cases (ltb 0 r.remainder)) [
        | inl some ↦ some
        | inr none_left ↦
            let none : r.remainder ≤ 0 = ground (arith, none_left) in
            let zeros = sum_zero rows (at_most_weaken r.remainder 0 rows none bounded) in
            absurd (omega (arith, none, zeros, positive, product, filled))
      ] in
      (cut, omega (arith, low, under), ground (arith, left, low, rest))

  abbrev is_row : Row → Bool
  is_row r =
      r.allocated_micros == total * slots r.share / denominator
      && r.remainder == total * slots r.share % denominator

  fair_given :
      (cut n : ℕ) (rows : List Row)
      → every is_row rows ≡ true
      → parted cut n rows ≡ true
      → every (λ r. is_fair total denominator cut (allocation_of r)) (give n rows) ≡ true
  fair_given cut zero [] h k = refl
  fair_given cut zero (r ∷ rows) h k =
      let (first, others) = both (is_row r) (every is_row rows) h in
      let (low, rest) = both (leb r.remainder cut) (every (λ q. leb q.remainder cut) rows) k in
      ground (arith, first, low, fair_given cut zero rows others rest)
  fair_given cut (suc n) [] h k = refl
  fair_given cut (suc n) (r ∷ rows) h k =
      let (first, others) = both (is_row r) (every is_row rows) h in
      let (reached, rest) = both (ltb 0 r.remainder && leb cut r.remainder) (parted cut n rows) k in
      let (left, high) = both (ltb 0 r.remainder) (leb cut r.remainder) reached in
      ground (arith, first, left, high, fair_given cut n rows others rest)

  rows_of-is_row :
      (shares : List Share) → every is_row (rows_of total denominator positive shares) ≡ true
  rows_of-is_row [] = refl
  rows_of-is_row (s ∷ shares) =
      rw (==_refl (total * slots s / denominator), ==_refl (total * slots s % denominator))
        (rows_of-is_row shares)

  rows_of-is_small :
      (shares : List Share) → every is_small (rows_of total denominator positive shares) ≡ true
  rows_of-is_small [] = refl
  rows_of-is_small (s ∷ shares) =
      let small : ltb (total * slots s % denominator) denominator ≡ true =
        ground (arith, mod-lt (total * slots s) positive) in
      rw small (rows_of-is_small shares)

  bounded_small :
      (rows : List Row)
      → every is_small rows ≡ true
      → every (λ r. leb r.remainder denominator) rows ≡ true
  bounded_small [] h = refl
  bounded_small (r ∷ rows) h =
      let (first, others) = both (is_small r) (every is_small rows) h in
      ground (arith, first, bounded_small rows others)

  -- What is not allocated by rounding down goes to the largest remainders.
  pub largest :
      (shares : List Share)
      → sum_by slots shares ≡ denominator
      → (cut : ℕ) × (every
            (λ r. is_fair total denominator cut (allocation_of r))
            (give
              (total - sum_by row_micros (rows_of total denominator positive shares))
              (sort by_remainder (rows_of total denominator positive shares)))
          ≡ true)
  largest shares all =
      let rows = rows_of total denominator positive shares in
      let sorted = sort by_remainder rows in
      let n = total - sum_by row_micros rows in
      let small = every-sort by_remainder is_small rows (rows_of-is_small shares) in
      let (cut, _, split) =
        part n denominator sorted (falls-sort rows) small
          (omega (
            arith,
            remainders_fill total denominator positive shares all,
            sum_by-sort by_remainder remainder rows,
          ))
          (bounded_small sorted small) in
      (
        cut,
        fair_given cut n sorted (every-sort by_remainder is_row rows (rows_of-is_row shares)) split,
      )
