-- ===== src/Network/Cidr.antt =====
-- Ranges of addresses, and the test of an allow list: backend/packages/api/src/ip-cidr.ts. What throws
-- InvalidIpCidrError gives `none`. The mask of `h` host bits takes off `v % 2 ^ h`.
pub mod Decimal
pub mod RoundTrip
pub mod Allowed
use powerotp.Prelude.{
  ℕ, zero, suc, ◌+◌, ◌-◌, ◌*◌, ◌/◌, ◌%◌, ◌^◌, Bool, true, false, not, ◌&&◌, ◌||◌, Option, none,
  some, List, [], ◌∷◌, ◌++◌, ◌==◌, nat_eq, ltb, leb, if◌then◌else◌, Text, text, text_eq, length,
  every, exists, includes, filter, map, is_some, within, is_digit, trim,
}
use powerotp.Network.Address.{
  Ip, before_later, better, bits, colon_groups, compressed, cut, decimal, decimal_from,
  decimal_value, drop_first, drop_groups, format_ip, from_groups, from_octets, groups_from,
  groups_of, hex, hex_char, hex_digit, hex_from, is_cut_again, is_given, is_group, is_hex, is_octet,
  is_short_decimal, is_zero_group, join, longest, onto_first, parse_ip, parse_ipv4, parse_ipv6,
  parse_parts, split, starts_colon, take_groups, v4, v6, value_of, with_value, zero_run, zeros,
}

-- `ip.value & mask`
abbrev pub network_of : ℕ → Ip → ℕ
network_of prefix ip = value_of ip - value_of ip % 2 ^ (bits ip - prefix)

abbrev print_cidr : Ip → ℕ → Text
print_cidr ip prefix = format_ip ip ++ (text "/" ++ decimal prefix)

abbrev canonical_of : Option Ip → ℕ → Option Text
canonical_of none prefix = none
canonical_of (some ip) prefix =
    if ltb (bits ip) prefix
    then none
    else some (print_cidr (with_value ip (network_of prefix ip)) prefix)

abbrev pub canonical_parts : List Text → Option Text
canonical_parts (address ∷ prefix ∷ []) =
    if is_short_decimal prefix then canonical_of (parse_ip address) (decimal_value prefix) else none
canonical_parts _ = none

-- `canonicalizeIpCidr`
unfoldable pub canonicalize_ip_cidr : Text → Option Text
canonicalize_ip_cidr s = canonical_parts (split 47 (trim s))

-- A range of the list: its network and its prefix.
abbrev range_found : Option Ip → ℕ → Option (Ip × ℕ)
range_found none prefix = none
range_found (some ip) prefix = some (ip, prefix)

abbrev pub range_parts : List Text → Option (Ip × ℕ)
range_parts (address ∷ prefix ∷ rest) = range_found (parse_ip address) (decimal_value prefix)
range_parts _ = none

abbrev pub range_of_canonical : Option Text → Option (Ip × ℕ)
range_of_canonical none = none
range_of_canonical (some s) = range_parts (split 47 s)

abbrev pub range_of : Text → Option (Ip × ℕ)
range_of cidr = range_of_canonical (canonicalize_ip_cidr cidr)

abbrev same_family : Ip → Ip → Bool
same_family (v4 v) (v4 w) = true
same_family (v6 v) (v6 w) = true
same_family _ _ = false

abbrev pub is_inside : Ip → Ip × ℕ → Bool
is_inside ip (network, prefix) = same_family network ip && network_of prefix ip == value_of network

-- All ranges are parsed before any is tried, so that one that does not parse refuses the address.
abbrev ranges_cons : Option (Ip × ℕ) → Option (List (Ip × ℕ)) → Option (List (Ip × ℕ))
ranges_cons (some r) (some rs) = some (r ∷ rs)
ranges_cons _ _ = none

abbrev pub ranges_of : List Text → Option (List (Ip × ℕ))
ranges_of [] = some []
ranges_of (cidr ∷ cidrs) = ranges_cons (range_of cidr) (ranges_of cidrs)

abbrev pub inside_any : Ip → Option (List (Ip × ℕ)) → Bool
inside_any ip none = false
inside_any ip (some ranges) = exists (is_inside ip) ranges

abbrev allowed_ip : Option Ip → List Text → Bool
allowed_ip none cidrs = false
allowed_ip (some ip) cidrs = inside_any ip (ranges_of cidrs)

abbrev allowed_address : Option Text → List Text → Bool
allowed_address none cidrs = false
allowed_address (some s) cidrs = is_given s && allowed_ip (parse_ip s) cidrs

-- `isIpAllowed`
unfoldable pub is_ip_allowed : Option Text → List Text → Bool
is_ip_allowed address [] = true
is_ip_allowed address (cidr ∷ cidrs) = allowed_address address (cidr ∷ cidrs)
