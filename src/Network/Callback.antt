-- ===== src/Network/Callback.antt =====
-- The check of where a callback is delivered:
-- backend/packages/api/src/callback-ssrf-guard.ts. The parser of URLs and the resolver of names are
-- parameters.
pub mod Ranges
pub mod Guard
use powerotp.Prelude.{
  ℕ, ◌+◌, ◌-◌, ◌*◌, ◌%◌, ◌^◌, Bool, true, false, not, ◌&&◌, ◌||◌, Option, none, some, List, [], ◌∷◌,
  ◌==◌, nat_eq, if◌then◌else◌, Text, text, text_eq, every, exists, is_some, is_digit, strip,
  starts_with, lower,
}
use powerotp.Network.Address.{split, decimal_value, parse_ipv4, is_given}

-- The bases and the prefixes of the ranges that are not public.
abbrev pub blocked_ipv4_ranges : List (Text × ℕ)
blocked_ipv4_ranges =
    (text "0.0.0.0", 8)
    ∷ (text "10.0.0.0", 8)
    ∷ (text "100.64.0.0", 10)
    ∷ (text "127.0.0.0", 8)
    ∷ (text "169.254.0.0", 16)
    ∷ (text "172.16.0.0", 12)
    ∷ (text "192.0.0.0", 24)
    ∷ (text "192.168.0.0", 16)
    ∷ (text "198.18.0.0", 15)
    ∷ (text "224.0.0.0", 4)
    ∷ []

-- The 32 bits of `(accumulator << 8) + Number(part)`, which are all that is used of it.
abbrev pub int_from : ℕ → List Text → ℕ
int_from n [] = n
int_from n (part ∷ parts) = int_from ((n * 256 + decimal_value part) % 2 ^ 32) parts

-- `ipv4ToInt`
abbrev pub ipv4_to_int : Text → ℕ
ipv4_to_int address = int_from 0 (split 46 address)

-- `n & mask`, for the mask of a prefix.
abbrev pub masked : ℕ → ℕ → ℕ
masked prefix n = n - n % 2 ^ (32 - prefix)

abbrev pub is_in_block : ℕ → Text × ℕ → Bool
is_in_block target (base, prefix) = masked prefix target == masked prefix (ipv4_to_int base)

-- `isBlockedIpv4`
abbrev pub is_blocked_ipv4 : Text → Bool
is_blocked_ipv4 address = exists (is_in_block (ipv4_to_int address)) blocked_ipv4_ranges

-- `isBlockedIpv6`
abbrev pub is_blocked_ipv6 : Text → Bool
is_blocked_ipv6 address =
    let normalized = lower address in
    normalized == text "::1"
    || normalized == text "::"
    || starts_with (text "fe80:") normalized
    || starts_with (text "fc") normalized
    || starts_with (text "fd") normalized
    || starts_with (text "::ffff:") normalized

-- `isIPv4` of node:net: four octets in decimal notation, which `parseIpv4` reads too.
abbrev pub is_ipv4 : Text → Bool
is_ipv4 address = is_some (parse_ipv4 address)

abbrev is_number : Text → Bool
is_number s = is_given s && every is_digit s

abbrev pub are_four_numbers : List Text → Bool
are_four_numbers (a ∷ b ∷ c ∷ d ∷ []) = every is_number (a ∷ b ∷ c ∷ d ∷ [])
are_four_numbers _ = false

abbrev pub numbers_only : Option Text → Option Text
numbers_only none = none
numbers_only (some s) = if are_four_numbers (split 46 s) then some s else none

-- `/^::ffff:(\d+\.\d+\.\d+\.\d+)$/i`: the part in brackets.
abbrev pub mapped_part : Text → Option Text
mapped_part address = numbers_only (strip (text "::ffff:") (lower address))

abbrev pub is_blocked_other : Option Text → Text → Bool
is_blocked_other none address = is_blocked_ipv6 address
is_blocked_other (some mapped) address = is_blocked_ipv4 mapped

-- `isBlockedIpAddress`
unfoldable pub is_blocked_ip_address : Text → Bool
is_blocked_ip_address address =
    if is_ipv4 address
    then is_blocked_ipv4 address
    else is_blocked_other (mapped_part address) address

-- What is used of a URL.
pub record Url : Type 0 where
  pub protocol : Text
  pub hostname : Text

-- `new URL` and `lookup` throw the first and the third.
pub data CallbackError : Type 0 where
  invalid_url not_https lookup_failed not_resolved not_public : CallbackError

pub data UrlResult : Type 0 where
  ok : Url → UrlResult
  err : CallbackError → UrlResult

abbrev pub check_records : Url → List Text → UrlResult
check_records url [] = ok url
check_records url (address ∷ records) =
    let rest = check_records url records in
    if is_blocked_ip_address address then err not_public else rest

abbrev pub check_resolved : Url → Option (List Text) → UrlResult
check_resolved url none = err lookup_failed
check_resolved url (some []) = err not_resolved
check_resolved url (some (address ∷ records)) = check_records url (address ∷ records)

abbrev pub check_url : (Text → Option (List Text)) → Option Url → UrlResult
check_url lookup none = err invalid_url
check_url lookup (some url) =
    if not (url.protocol == text "https:")
    then err not_https
    else check_resolved url (lookup url.hostname)

-- `assertPublicHttpsUrl`
unfoldable pub assert_public_https_url :
    (Text → Option Url) → (Text → Option (List Text)) → Text → UrlResult
assert_public_https_url parse_url lookup raw = check_url lookup (parse_url raw)
