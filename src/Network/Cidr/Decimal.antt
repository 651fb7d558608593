-- ===== src/Network/Cidr/Decimal.antt =====
-- Decimal notation and `split`: backend/packages/api/src/ip-cidr.ts.
use powerotp.Prelude.{
  ℕ, ◌<◌, Bool, true, not, [], ◌∷◌, ◌++◌, ◌==◌, nat_eq, Text, every, is_digit, ◌≡◌, refl, arith,
}
use powerotp.Network.Address.{split, is_short_decimal, decimal, decimal_value, is_octet}

pub is_digit-decimal : (n : ℕ) → n < 1000 → every is_digit (decimal n) ≡ true
is_digit-decimal n h = ground arith

pub is_short_decimal-decimal : (n : ℕ) → n < 1000 → is_short_decimal (decimal n) ≡ true
is_short_decimal-decimal n h = ground arith

pub decimal_value-decimal : (n : ℕ) → n < 1000 → decimal_value (decimal n) ≡ n
decimal_value-decimal n h = ground arith

pub is_octet-decimal : (n : ℕ) → n < 256 → is_octet (decimal n) ≡ true
is_octet-decimal n h =
    let short = is_short_decimal-decimal n (omega arith) in
    let value = decimal_value-decimal n (omega arith) in rw (short, value) (ground arith)

-- None of the code units is the separator.
abbrev pub is_free : ℕ → Text → Bool
is_free separator s = every (λ c. not (c == separator)) s

pub split-free :
    (separator : ℕ) (s : Text) → is_free separator s ≡ true → split separator s ≡ s ∷ []
unfolding split
split-free separator [] h = refl
split-free separator (c ∷ s) h = ground (arith, h, split-free separator s)

pub split-append :
    (separator : ℕ) (part s : Text)
    → is_free separator part ≡ true
    → split separator (part ++ (separator ∷ s)) ≡ part ∷ split separator s
unfolding split
split-append separator [] s h = ground arith
split-append separator (c ∷ part) s h = ground (arith, h, split-append separator part s)
