-- ===== src/Network/Cidr/Allowed.antt =====
-- Allow lists of IPv4 ranges: `canonicalizeIpCidr` and `isIpAllowed` of
-- backend/packages/api/src/ip-cidr.ts.
use native.Mathlib.Nat.{div-add-mod, mul-div_right, one-le-pow}
use powerotp.Prelude.{
  ℕ, ◌-◌, ◌*◌, ◌/◌, ◌%◌, ◌^◌, ◌<◌, ◌≤◌, Bool, true, false, not, ◌||◌, some, List, [], ◌∷◌, ◌++◌,
  ◌==◌, ==_refl, ==→≡, nat_eq, Text, text, text_eq, every, exists, is_digit, is_space, trim, map,
  ◌≡◌, refl, ap, ap₂, sym, ◌∙◌, arith, Bool-cases, inl, inr,
}
use powerotp.Network.Address.{Ip, v4, split, decimal, format_ip, is_given}
use powerotp.Network.Cidr.{
  canonicalize_ip_cidr, canonical_parts, range_of, range_of_canonical, range_parts, ranges_of,
  is_inside, is_ip_allowed,
}
use powerotp.Network.Cidr.Decimal.{
  is_digit-decimal, is_short_decimal-decimal, decimal_value-decimal, is_free, split-free,
  split-append,
}
use powerotp.Network.Cidr.RoundTrip.{
  is_dotted, every-append, every_weaker, trim_free, every-dotted, parse_ip-format_ip,
}

minus_mod : (a k : ℕ) → a - a % k ≡ k * (a / k)
minus_mod a k = let parts = div-add-mod a k in omega arith

-- Two numbers lie in one block of length `k` when the blocks that they lie in start together.
same_block : (k : ℕ) → 0 < k → (a n : ℕ) → (a - a % k == n - n % k) ≡ (a / k == n / k)
same_block k h a n = elim (Bool-cases (a / k == n / k)) [
  | inl same ↦
      let starts : a - a % k ≡ n - n % k =
        minus_mod a k ∙ ap (λ q. k * q) (==→≡ (a / k) (n / k) same) ∙ sym (minus_mod n k) in
      rw (starts, same) (==_refl (n - n % k))
  | inr apart ↦ elim (Bool-cases (a - a % k == n - n % k)) [
    | inl starts ↦
        let products : k * (a / k) ≡ k * (n / k) =
          sym (minus_mod a k) ∙ ==→≡ (a - a % k) (n - n % k) starts ∙ minus_mod n k in
        let quotients : a / k ≡ n / k =
          sym (mul-div_right (a / k) h) ∙ ap (λ p. p / k) products ∙ mul-div_right (n / k) h in
        starts ∙ sym (==_refl (n / k)) ∙ ap (λ q. q == n / k) (sym quotients)
    | inr other ↦ rw (apart, other) refl
  ]
]

pub every-format : (v : ℕ) → every is_dotted (format_ip (v4 v)) ≡ true
unfolding format_ip
every-format v =
    every-dotted (v / 2 ^ 24 % 256) (v / 2 ^ 16 % 256) (v / 2 ^ 8 % 256) (v / 2 ^ 0 % 256)
      (omega arith) (omega arith) (omega arith) (omega arith)

is_given-format : (v : ℕ) → is_given (format_ip (v4 v)) ≡ true
unfolding format_ip
is_given-format v = ground arith

-- The notation of a range.
abbrev pub cidr_of : ℕ × ℕ → Text
cidr_of (network, prefix) = format_ip (v4 network) ++ (text "/" ++ decimal prefix)

abbrev is_notation : ℕ → Bool
is_notation c = is_dotted c || c == 47

digit_slash : (c : ℕ) → is_digit c ≡ true → not (c == 47) ≡ true
digit_slash c h = ground arith

dotted_slash : (c : ℕ) → is_dotted c ≡ true → not (c == 47) ≡ true
dotted_slash c h = ground arith

notation_spaceless : (c : ℕ) → is_notation c ≡ true → not (is_space c) ≡ true
notation_spaceless c h = ground arith

abbrev base : ℕ → ℕ → ℕ
base v p = v - v % 2 ^ (32 - p)

module _ (v p : ℕ) (small : p ≤ 32) where
  free_of_slash : is_free 47 (decimal p) ≡ true
  free_of_slash =
      every_weaker is_digit (λ c. not (c == 47)) digit_slash (decimal p)
        (is_digit-decimal p (omega arith))

  split-cidr : split 47 (cidr_of (v, p)) ≡ format_ip (v4 v) ∷ decimal p ∷ []
  split-cidr =
      split-append 47 (format_ip (v4 v)) (decimal p) (
        every_weaker is_dotted (λ c. not (c == 47)) dotted_slash (format_ip (v4 v))
          (every-format v))
      ∙ ap (◌∷◌ (format_ip (v4 v))) (split-free 47 (decimal p) free_of_slash)

  every-cidr : every is_notation (cidr_of (v, p)) ≡ true
  every-cidr =
      every-append is_notation (format_ip (v4 v)) _
        (every_weaker is_dotted is_notation (λ c e. rw e refl) (format_ip (v4 v)) (every-format v))
        (every_weaker is_digit is_notation (λ c e. rw e refl) (decimal p)
          (is_digit-decimal p (omega arith)))

  trim-cidr : trim (cidr_of (v, p)) ≡ cidr_of (v, p)
  trim-cidr = trim_free (cidr_of (v, p)) (
      every_weaker is_notation (λ c. not (is_space c)) notation_spaceless (cidr_of (v, p))
        every-cidr)

  module _ (short : v < 2 ^ 32) where
    canonical_found :
        canonical_parts (format_ip (v4 v) ∷ decimal p ∷ []) ≡ some (cidr_of (base v p, p))
    canonical_found =
        rw
          (
            is_short_decimal-decimal p (omega arith),
            decimal_value-decimal p (omega arith),
            parse_ip-format_ip v short,
          )
          (ground (arith, small))

    canonicalize_ip_cidr-cidr : canonicalize_ip_cidr (cidr_of (v, p)) ≡ some (cidr_of (base v p, p))
    unfolding canonicalize_ip_cidr
    canonicalize_ip_cidr-cidr =
        ap (λ s. canonical_parts (split 47 s)) trim-cidr
        ∙ ap canonical_parts split-cidr
        ∙ canonical_found

range_of-cidr :
    (v p : ℕ) → p ≤ 32 → v < 2 ^ 32 → range_of (cidr_of (v, p)) ≡ some (v4 (base v p), p)
range_of-cidr v p small short =
    ap range_of_canonical (canonicalize_ip_cidr-cidr v p small short)
    ∙ ap range_parts (split-cidr (base v p) p small)
    ∙ found
  where
    found : range_parts (format_ip (v4 (base v p)) ∷ decimal p ∷ []) ≡ some (v4 (base v p), p)
    found =
        rw (parse_ip-format_ip (base v p) (omega arith), decimal_value-decimal p (omega arith)) refl

abbrev is_empty : List (ℕ × ℕ) → Bool
is_empty [] = true
is_empty (r ∷ rs) = false

-- Ranges of IPv4: a number of 32 bits, and a prefix.
abbrev pub AreRanges : List (ℕ × ℕ) → Type 0
AreRanges [] = Unit
AreRanges ((network, prefix) ∷ ranges) = (network < 2 ^ 32) × (prefix ≤ 32) × AreRanges ranges

-- The addresses are equal in the bits of the prefix.
abbrev pub shares_prefix : ℕ → ℕ × ℕ → Bool
shares_prefix a (network, prefix) = a / 2 ^ (32 - prefix) == network / 2 ^ (32 - prefix)

abbrev network_range : ℕ × ℕ → Ip × ℕ
network_range (network, prefix) = (v4 (base network prefix), prefix)

ranges_of-cidrs :
    (ranges : List (ℕ × ℕ))
    → AreRanges ranges
    → ranges_of (map cidr_of ranges) ≡ some (map network_range ranges)
ranges_of-cidrs [] h = refl
ranges_of-cidrs ((network, prefix) ∷ ranges) (short, small, h) =
    rw (range_of-cidr network prefix small short, ranges_of-cidrs ranges h) refl

exists-inside :
    (a : ℕ) (ranges : List (ℕ × ℕ))
    → exists (is_inside (v4 a)) (map network_range ranges) ≡ exists (shares_prefix a) ranges
exists-inside a [] = refl
exists-inside a ((network, prefix) ∷ ranges) =
    ap₂ (λ x y. x || y)
      (same_block (2 ^ (32 - prefix)) (one-le-pow (32 - prefix) 2 (omega arith)) a network)
      (exists-inside a ranges)

-- An IPv4 address is allowed by a list of IPv4 ranges exactly when it is equal to the address of
-- one of them in the bits of its prefix, or the list is empty.
pub is_ip_allowed_v4 :
    (a : ℕ) (ranges : List (ℕ × ℕ))
    → a < 2 ^ 32
    → AreRanges ranges
    → is_ip_allowed (some (format_ip (v4 a))) (map cidr_of ranges)
      ≡ (is_empty ranges || exists (shares_prefix a) ranges)
unfolding is_ip_allowed
is_ip_allowed_v4 a [] short h = refl
is_ip_allowed_v4 a (range ∷ ranges) short h =
    rw (is_given-format a, parse_ip-format_ip a short, ranges_of-cidrs (range ∷ ranges) h)
      (exists-inside a (range ∷ ranges))
