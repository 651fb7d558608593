-- ===== src/Accounting/Payout/Sums.antt =====
-- Sums and tests of all items under sorting, and the rounding of shares:
-- backend/packages/api/src/accounting-money.ts.
use native.Mathlib.Nat.{div-add-mod, mod-lt, mul_comm, mul-add, mul-zero, le_of_mul-le-mul_left}
use powerotp.Prelude.{
  insert, sort, ℕ, zero, suc, ◌+◌, ◌-◌, ◌*◌, ◌/◌, ◌%◌, ◌<◌, ◌≤◌, Bool, List, [], ◌∷◌, nat_eq,
  length, map, ◌≡◌, refl, ap, ◌∙◌, arith, Bool-cases, inl, inr,
}
use powerotp.Accounting.Payout.{Row, Share, sum_by, row_of, slots, give, row_micros}

module _ {ℓ} {A : Type ℓ} (before : A → A → Bool) where
  sum_by-insert :
      (f : A → ℕ) (x : A) (ys : List A) → sum_by f (insert before x ys) ≡ f x + sum_by f ys
  sum_by-insert f x [] = refl
  sum_by-insert f x (y ∷ ys) = elim (Bool-cases (before y x)) [
    | inl earlier ↦ let rest = sum_by-insert f x ys in rw earlier (omega arith)
    | inr later ↦ rw later refl
  ]

  pub sum_by-sort : (f : A → ℕ) (xs : List A) → sum_by f (sort before xs) ≡ sum_by f xs
  sum_by-sort f [] = refl
  sum_by-sort f (x ∷ xs) = sum_by-insert f x (sort before xs) ∙ ap (λ n. f x + n) (sum_by-sort f xs)

abbrev pub remainder : Row → ℕ
remainder r = r.remainder

pub sum_by-give :
    (n : ℕ) (rows : List Row)
    → n ≤ length rows
    → sum_by row_micros (give n rows) ≡ sum_by row_micros rows + n
sum_by-give zero rows h = omega arith
sum_by-give (suc n) [] h = omega arith
sum_by-give (suc n) (r ∷ rows) h = let rest = sum_by-give n rows (omega arith) in omega arith

module _ (total denominator : ℕ) (positive : 0 < denominator) where
  abbrev remainder_of : Share → ℕ
  remainder_of s = total * slots s % denominator

  abbrev floor_of : Share → ℕ
  floor_of s = total * slots s / denominator

  abbrev pub rows_of : List Share → List Row
  rows_of shares = map (row_of total denominator) shares

  whole :
      (shares : List Share)
      → denominator * sum_by row_micros (rows_of shares) + sum_by remainder_of shares
        ≡ total * sum_by slots shares
  whole [] = omega (arith, mul-zero total, mul-zero denominator)
  whole (s ∷ shares) =
      let rest = whole shares in
      let parts = div-add-mod (total * slots s) denominator in
      let left = mul-add denominator (floor_of s) (sum_by row_micros (rows_of shares)) in
      let right = mul-add total (slots s) (sum_by slots shares) in omega arith

  below :
      (shares : List Share)
      → sum_by remainder_of shares + length shares ≤ denominator * length shares
  below [] = omega (arith, mul-zero denominator)
  below (s ∷ shares) =
      let rest = below shares in
      let small = mod-lt (total * slots s) positive in
      let product = mul-add denominator 1 (length shares) in omega arith

  -- The rounded shares fall short of the total by at most one for each row.
  pub floors_fit :
      (shares : List Share)
      → sum_by slots shares ≡ denominator
      → (sum_by row_micros (rows_of shares) ≤ total)
        × (total ≤ sum_by row_micros (rows_of shares) + length shares)
  floors_fit shares all =
      let floors = sum_by row_micros (rows_of shares) in
      let sums : denominator * floors + sum_by remainder_of shares ≡ denominator * total =
        whole shares ∙ ap (λ d. total * d) all ∙ mul_comm total denominator in
      let bound = below shares in
      let split = mul-add denominator floors (length shares) in
      let low : denominator * floors ≤ denominator * total = omega arith in
      let high : denominator * total ≤ denominator * (floors + length shares) = omega arith in
      (le_of_mul-le-mul_left low positive, le_of_mul-le-mul_left high positive)

  remainders :
      (shares : List Share) → sum_by remainder (rows_of shares) ≡ sum_by remainder_of shares
  remainders [] = refl
  remainders (s ∷ shares) = ap (λ n. remainder_of s + n) (remainders shares)

  -- What the rounded shares fall short of the total by is what the remainders sum up to.
  pub remainders_fill :
      (shares : List Share)
      → sum_by slots shares ≡ denominator
      → denominator * (total - sum_by row_micros (rows_of shares))
        ≡ sum_by remainder (rows_of shares)
  remainders_fill shares all =
      let floors = sum_by row_micros (rows_of shares) in
      let sums : denominator * floors + sum_by remainder_of shares ≡ denominator * total =
        whole shares ∙ ap (λ d. total * d) all ∙ mul_comm total denominator in
      let (low, high) = floors_fit shares all in
      let split = mul-add denominator floors (total - floors) in
      let refilled : floors + (total - floors) ≡ total = omega (arith, low) in
      let product : denominator * (floors + (total - floors)) ≡ denominator * total =
        ap (λ n. denominator * n) refilled in
      omega (arith, sums, split, product, remainders shares)
