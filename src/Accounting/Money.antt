-- ===== src/Accounting/Money.antt =====
-- Decimal dollars and their millionths: `usdDecimalToMicros` and `microsToUsdDecimal` of
-- backend/packages/api/src/accounting-money.ts, and UsdDecimalSchema of
-- backend/packages/contracts/src/accounting.ts, which every amount passes before it is read.
-- The quotient that is printed is exact to six places up to 2^33 dollars, and is exact here.
pub mod RoundTrip
use powerotp.Prelude.{
  ℕ, zero, suc, ◌+◌, ◌*◌, ◌/◌, ◌%◌, Bool, true, false, ◌&&◌, ◌||◌, Option, none, some, List, [],
  ◌∷◌, ◌++◌, ◌==◌, nat_eq, ltb, leb, if◌then◌else◌, Text, every, is_digit, length, within,
}
use powerotp.Network.Address.{split, decimal_value}

abbrev pub micros_per_usd : ℕ
micros_per_usd = 1000000

-- `s.padEnd(n, "0")`
abbrev pub pad_end : ℕ → Text → Text
pad_end zero s = s
pad_end (suc n) [] = 48 ∷ pad_end n []
pad_end (suc n) (c ∷ s) = c ∷ pad_end n s

-- `0|[1-9]\d*`
abbrev pub is_whole : Text → Bool
is_whole [] = false
is_whole (c ∷ []) = is_digit c
is_whole (c ∷ d ∷ s) = within 49 57 c && every is_digit (d ∷ s)

abbrev usd_parts : List Text → Bool
usd_parts (whole ∷ []) = is_whole whole
usd_parts (whole ∷ fraction ∷ []) =
    is_whole whole && every is_digit fraction && within 1 6 (length fraction)
usd_parts _ = false

-- `UsdDecimalSchema`
unfoldable pub usd_decimal_schema : Text → Bool
usd_decimal_schema s = usd_parts (split 46 s)

abbrev pub safe_micros : Text → Text → Option ℕ
safe_micros whole fraction =
    let micros = decimal_value whole * micros_per_usd + decimal_value (pad_end 6 fraction) in
    if ltb 9007199254740991 micros then none else some micros

abbrev micros_of : List Text → Option ℕ
micros_of [] = safe_micros (48 ∷ []) []
micros_of (whole ∷ []) = safe_micros whole []
micros_of (whole ∷ fraction ∷ _) = safe_micros whole fraction

-- `usdDecimalToMicros`, of a text that passes the schema. What it throws is `none`.
unfoldable pub usd_decimal_to_micros : Text → Option ℕ
usd_decimal_to_micros s = micros_of (split 46 s)

-- The digits of a number that has no more of them than the fuel and one.
unfoldable pub digits : ℕ → ℕ → Text
digits zero n = (48 + n % 10) ∷ []
digits (suc fuel) n =
    let front = digits fuel (n / 10) in
    if ltb n 10 then (48 + n) ∷ [] else front ++ ((48 + n % 10) ∷ [])

-- The six places of a number of millionths.
abbrev pub six_places : ℕ → Text
six_places n =
    (48 + n / 100000)
    ∷ (48 + n / 10000 % 10)
    ∷ (48 + n / 1000 % 10)
    ∷ (48 + n / 100 % 10)
    ∷ (48 + n / 10 % 10)
    ∷ (48 + n % 10)
    ∷ []

-- `0+$`
abbrev pub is_zeros : Text → Bool
is_zeros [] = false
is_zeros (c ∷ []) = c == 48
is_zeros (c ∷ d ∷ s) = c == 48 && is_zeros (d ∷ s)

-- `s.replace(/\.?0+$/, "")`: the first place from where the rest is matched.
abbrev pub without_zeros : Text → Text
without_zeros [] = []
without_zeros (c ∷ s) =
    let rest = without_zeros s in
    if is_zeros (c ∷ s) || (c == 46 && is_zeros s) then [] else c ∷ rest

-- `microsToUsdDecimal`. A safe number of millionths has at most ten digits before the point.
unfoldable pub micros_to_usd_decimal : ℕ → Text
micros_to_usd_decimal n =
    without_zeros (digits 9 (n / micros_per_usd) ++ (46 ∷ six_places (n % micros_per_usd)))
