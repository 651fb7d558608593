-- ===== src/Accounting/Money/RoundTrip.antt =====
-- An amount that is printed is read back: `microsToUsdDecimal` and `usdDecimalToMicros` of
-- backend/packages/api/src/accounting-money.ts.
use mathlib.Core.List.{append-nil}
use native.Mathlib.Omega.{pow_step}
use powerotp.Prelude.{
  ℕ, zero, suc, ◌+◌, ◌-◌, ◌*◌, ◌/◌, ◌%◌, ◌^◌, ◌<◌, ◌≤◌, Bool, true, false, ◌&&◌, ◌||◌, some, [],
  ◌∷◌, ◌++◌, ◌==◌, ==→≡, nat_eq, ltb, Text, every, is_digit, length, within, ◌≡◌, refl, ap, ap₂,
  sym, ◌∙◌, subst, arith, Bool-cases, inl, inr,
}
use powerotp.Network.Address.{decimal_from, decimal_value}
use powerotp.Network.Cidr.Decimal.{is_free, split-free, split-append}
use powerotp.Accounting.Money.{
  pad_end, is_whole, usd_decimal_schema, safe_micros, usd_decimal_to_micros, digits, six_places,
  is_zeros, without_zeros, micros_to_usd_decimal,
}

-- A digit, other than zero, and digits.
abbrev is_positive : Text → Bool
is_positive [] = false
is_positive (c ∷ s) = within 49 57 c && every is_digit s

every-append_digit :
    (s : Text) (d : ℕ)
    → every is_digit s ≡ true
    → is_digit d ≡ true
    → every is_digit (s ++ (d ∷ [])) ≡ true
every-append_digit [] d h k = ground (arith, k)
every-append_digit (c ∷ s) d h k = ground (arith, h, every-append_digit s d)

is_positive-append :
    (s : Text) (d : ℕ)
    → is_positive s ≡ true
    → is_digit d ≡ true
    → is_positive (s ++ (d ∷ [])) ≡ true
is_positive-append [] d h k = cc
is_positive-append (c ∷ s) d h k = ground (arith, h, every-append_digit s d)

tenth_bound : (fuel n : ℕ) → n < 10 ^ suc (suc fuel) → n / 10 < 10 ^ suc fuel
tenth_bound fuel n h =
    let m = 10 ^ suc fuel in
    let k : n < 10 * m = subst (λ m. n < m) (pow_step 10 (suc fuel)) h in omega arith

is_positive-digits : (fuel n : ℕ) → 0 < n → n < 10 ^ suc fuel → is_positive (digits fuel n) ≡ true
unfolding digits
is_positive-digits zero n h k = ground arith
is_positive-digits (suc fuel) n h k = elim (Bool-cases (ltb n 10)) [
  | inl small ↦ rw small (ground (arith, small))
  | inr large ↦
      let front = is_positive-digits fuel (n / 10) (ground (arith, large)) (tenth_bound fuel n k) in
      rw large (is_positive-append (digits fuel (n / 10)) (48 + n % 10) front (ground arith))
]

is_whole_of_positive : (s : Text) → is_positive s ≡ true → is_whole s ≡ true
is_whole_of_positive [] h = h
is_whole_of_positive (c ∷ []) h = ground (arith, h)
is_whole_of_positive (c ∷ d ∷ s) h = h

decimal_from-append :
    (m : ℕ) (s : Text) (d : ℕ) → decimal_from m (s ++ (d ∷ [])) ≡ 10 * decimal_from m s + (d - 48)
decimal_from-append m [] d = refl
decimal_from-append m (c ∷ s) d = decimal_from-append (10 * m + (c - 48)) s d

decimal_value-digits : (fuel n : ℕ) → n < 10 ^ suc fuel → decimal_value (digits fuel n) ≡ n
unfolding digits
decimal_value-digits zero n k = omega arith
decimal_value-digits (suc fuel) n k = elim (Bool-cases (ltb n 10)) [
  | inl small ↦ rw small (omega arith)
  | inr large ↦
      let front = decimal_value-digits fuel (n / 10) (tenth_bound fuel n k) in
      rw large (
        decimal_from-append 0 (digits fuel (n / 10)) (48 + n % 10)
        ∙ ap (λ m. 10 * m + (48 + n % 10 - 48)) front
        ∙ omega arith)
]

decimal_value-six_places : (n : ℕ) → n < 1000000 → decimal_value (six_places n) ≡ n
decimal_value-six_places n h = omega arith

pad_end-nil : (s : Text) → is_zeros s ≡ true → pad_end (length s) [] ≡ s
pad_end-nil [] h = refl
pad_end-nil (c ∷ []) h = ap (λ d. d ∷ []) (sym (==→≡ c 48 h))
pad_end-nil (c ∷ d ∷ s) h =
    ap₂ (λ x xs. x ∷ xs) (ground (arith, h)) (pad_end-nil (d ∷ s) (ground (arith, h)))

is_zeros-point : (w f : Text) → is_zeros (w ++ (46 ∷ f)) ≡ false
is_zeros-point [] [] = refl
is_zeros-point [] (c ∷ f) = refl
is_zeros-point (c ∷ []) f = ground (arith, is_zeros-point [] f)
is_zeros-point (c ∷ d ∷ w) f = ground (arith, is_zeros-point (d ∷ w) f)

-- What has no point does not begin with one, nor its rest.
unpointed :
    (c : ℕ) (s : Text) → is_free 46 (c ∷ s) ≡ true → ((c == 46) ≡ false) × (is_free 46 s ≡ true)
unpointed c s h = (ground (arith, h), ground (arith, h))

pad_end-without_zeros : (s : Text) → is_free 46 s ≡ true → pad_end (length s) (without_zeros s) ≡ s
pad_end-without_zeros [] h = refl
pad_end-without_zeros (c ∷ s) h = elim (Bool-cases (is_zeros (c ∷ s))) [
  | inl zeros ↦ rw zeros (pad_end-nil (c ∷ s) zeros)
  | inr other ↦
      let (head, tail) = unpointed c s h in
      rw (other, head) (ap (λ t. c ∷ t) (pad_end-without_zeros s tail))
]

without_zeros-append :
    (w f : Text) → is_free 46 w ≡ true → without_zeros (w ++ (46 ∷ f)) ≡ w ++ without_zeros (46 ∷ f)
without_zeros-append [] f h = refl
without_zeros-append (c ∷ w) f h =
    let long = is_zeros-point (c ∷ w) f in
    let rest = is_zeros-point w f in
    let (head, tail) = unpointed c w h in
    rw (long, rest, head) (ap (λ t. c ∷ t) (without_zeros-append w f tail))

digit_free : (s : Text) → every is_digit s ≡ true → is_free 46 s ≡ true
digit_free [] h = refl
digit_free (c ∷ s) h = ground (arith, h, digit_free s)

every-digits : (fuel n : ℕ) → every is_digit (digits fuel n) ≡ true
unfolding digits
every-digits zero n = ground arith
every-digits (suc fuel) n = elim (Bool-cases (ltb n 10)) [
  | inl small ↦ rw small (ground (arith, small))
  | inr large ↦ rw large (
      every-append_digit (digits fuel (n / 10)) (48 + n % 10) (every-digits fuel (n / 10))
        (ground arith))
]

every-six_places : (n : ℕ) → n < 1000000 → every is_digit (six_places n) ≡ true
every-six_places n h = ground arith

is_whole-digits : (fuel n : ℕ) → n < 10 ^ suc fuel → is_whole (digits fuel n) ≡ true
unfolding digits
is_whole-digits zero zero h = refl
is_whole-digits (suc fuel) zero h = refl
is_whole-digits fuel (suc n) h =
    is_whole_of_positive (digits fuel (suc n)) (is_positive-digits fuel (suc n) (omega arith) h)

-- Stripped of its zeros, a fraction of digits keeps digits, and one at least if it is not zero.
every-without_zeros : (s : Text) → every is_digit s ≡ true → every is_digit (without_zeros s) ≡ true
every-without_zeros [] h = refl
every-without_zeros (c ∷ s) h = elim (Bool-cases (is_zeros (c ∷ s) || (c == 46 && is_zeros s))) [
  | inl zeros ↦ rw zeros refl
  | inr other ↦ rw other (ground (arith, h, every-without_zeros s))
]

length-without_zeros : (s : Text) → length (without_zeros s) ≤ length s
length-without_zeros [] = omega arith
length-without_zeros (c ∷ s) = elim (Bool-cases (is_zeros (c ∷ s) || (c == 46 && is_zeros s))) [
  | inl zeros ↦ rw zeros (omega arith)
  | inr other ↦ rw other (ground (arith, length-without_zeros s))
]

length_left :
    (s : Text)
    → is_zeros s ≡ false
    → is_free 46 s ≡ true
    → 0 < length s
    → 0 < length (without_zeros s)
length_left [] other free h = h
length_left (c ∷ s) other free h =
    let (head, tail) = unpointed c s free in rw (other, head) (omega arith)

safe_micros_value :
    (whole fraction : Text) (a b : ℕ)
    → decimal_value whole ≡ a
    → decimal_value (pad_end 6 fraction) ≡ b
    → a * 1000000 + b ≤ 9007199254740991
    → safe_micros whole fraction ≡ some (a * 1000000 + b)
safe_micros_value whole fraction a b ha hb h =
    let safe : ltb 9007199254740991 (a * 1000000 + b) ≡ false = ground arith in
    rw (ha, hb, safe) refl

module _ (w f : Text) (whole : is_whole w ≡ true) (free : is_free 46 w ≡ true) where
  -- What is left of the zeros of a fraction, and of its point.
  point_taken : is_zeros f ≡ true → without_zeros (w ++ (46 ∷ f)) ≡ w
  point_taken zeros =
      without_zeros-append w f free
      ∙ ap (λ t. w ++ t) (rw (is_zeros-point [] f, zeros) refl)
      ∙ append-nil w

  point_kept : is_zeros f ≡ false → without_zeros (w ++ (46 ∷ f)) ≡ w ++ (46 ∷ without_zeros f)
  point_kept other =
      without_zeros-append w f free ∙ ap (λ t. w ++ t) (rw (is_zeros-point [] f, other) refl)

  -- What is printed of digits is read as their number.
  abbrev IsRead : ℕ → Text → Type 0
  IsRead n t = (usd_decimal_schema t ≡ true) × (usd_decimal_to_micros t ≡ some n)

  module _ (digits_only : every is_digit f ≡ true) (six : length f ≡ 6) (a b : ℕ)
      (ha : decimal_value w ≡ a) (hb : decimal_value f ≡ b)
      (safe : a * 1000000 + b ≤ 9007199254740991) where
    zeros-IsRead : is_zeros f ≡ true → IsRead (a * 1000000 + b) w
    unfolding usd_decimal_schema usd_decimal_to_micros
    zeros-IsRead zeros =
        let padded = ap (λ k. pad_end k []) (sym six) ∙ pad_end-nil f zeros in
        let parts = split-free 46 w free in
        (
          rw parts whole,
          rw parts (safe_micros_value w [] a b ha (ap decimal_value padded ∙ hb) safe),
        )

    others-IsRead : is_zeros f ≡ false → IsRead (a * 1000000 + b) (w ++ (46 ∷ without_zeros f))
    unfolding usd_decimal_schema usd_decimal_to_micros
    others-IsRead other =
        let kept = every-without_zeros f digits_only in
        let filled : 6 ≡ length f = sym six in
        let no_more : length (without_zeros f) ≤ 6 =
          subst (λ k. length (without_zeros f) ≤ k) six (length-without_zeros f) in
        let some_left : 0 < length (without_zeros f) =
          length_left f other (digit_free f digits_only)
            (subst (λ k. 0 < k) filled (omega arith)) in
        let padded =
          ap (λ k. pad_end k (without_zeros f)) (sym six)
          ∙ pad_end-without_zeros f (digit_free f digits_only) in
        let parts =
          split-append 46 w (without_zeros f) free
          ∙ ap (λ t. w ∷ t) (split-free 46 (without_zeros f) (digit_free (without_zeros f) kept)) in
        (
          rw parts (rw (whole, kept) (ground (arith, some_left, no_more))),
          rw parts
              (safe_micros_value w (without_zeros f) a b ha (ap decimal_value padded ∙ hb) safe),
        )

    printed-IsRead : IsRead (a * 1000000 + b) (without_zeros (w ++ (46 ∷ f)))
    printed-IsRead = elim (Bool-cases (is_zeros f)) [
      | inl zeros ↦ subst (IsRead (a * 1000000 + b)) (sym (point_taken zeros)) (zeros-IsRead zeros)
      | inr other ↦ subst (IsRead (a * 1000000 + b)) (sym (point_kept other)) (others-IsRead other)
    ]

-- An amount of dollars below 2^33 that is printed passes the schema of amounts and is read back as it
-- was.
pub usd_decimal_to_micros-micros_to_usd_decimal :
    (n : ℕ)
    → n < 8589934592000000
    → (usd_decimal_schema (micros_to_usd_decimal n) ≡ true)
      × (usd_decimal_to_micros (micros_to_usd_decimal n) ≡ some n)
unfolding micros_to_usd_decimal
usd_decimal_to_micros-micros_to_usd_decimal n h =
    let a = n / 1000000 in
    let b = n % 1000000 in
    let small : a < 10 ^ 10 = omega arith in
    let part : b < 1000000 = omega arith in
    let sum : a * 1000000 + b ≡ n = omega arith in
    subst
      (λ m.
        (usd_decimal_schema (micros_to_usd_decimal n) ≡ true)
        × (usd_decimal_to_micros (micros_to_usd_decimal n) ≡ some m))
      sum
      (printed-IsRead (digits 9 a) (six_places b) (is_whole-digits 9 a small)
        (digit_free (digits 9 a) (every-digits 9 a)) (every-six_places b part) refl a b
        (decimal_value-digits 9 a small) (decimal_value-six_places b part) (omega arith))
