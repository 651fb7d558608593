-- ===== src/Network/Address.antt =====
-- The parser and the printer of addresses: backend/packages/api/src/ip-cidr.ts. What throws
-- InvalidIpCidrError gives `none`. `v >> n` is `v / 2 ^ n`.
use powerotp.Prelude.{
  ℕ, zero, suc, ◌+◌, ◌-◌, ◌*◌, ◌/◌, ◌%◌, ◌^◌, Bool, true, false, not, ◌&&◌, ◌||◌, Option, none,
  some, List, [], ◌∷◌, ◌++◌, ◌==◌, nat_eq, ltb, leb, if◌then◌else◌, Text, text, text_eq, length,
  every, exists, includes, filter, map, is_some, within, is_digit, trim,
}

pub data Ip : Type 0 where
  v4 : ℕ → Ip
  v6 : ℕ → Ip

abbrev pub bits : Ip → ℕ
bits (v4 v) = 32
bits (v6 v) = 128

abbrev pub value_of : Ip → ℕ
value_of (v4 v) = v
value_of (v6 v) = v

abbrev pub onto_first : ℕ → List Text → List Text
onto_first c [] = (c ∷ []) ∷ []
onto_first c (part ∷ parts) = (c ∷ part) ∷ parts

-- `s.split(separator)`, for a separator of one code unit.
unfoldable pub split : ℕ → Text → List Text
split separator [] = [] ∷ []
split separator (c ∷ s) =
    let parts = split separator s in if c == separator then [] ∷ parts else onto_first c parts

abbrev pub join : Text → List Text → Text
join separator [] = []
join separator (part ∷ []) = part
join separator (part ∷ next ∷ parts) = part ++ (separator ++ join separator (next ∷ parts))

-- `/^(0|[1-9]\d{0,2})$/`
abbrev pub is_short_decimal : Text → Bool
is_short_decimal [] = false
is_short_decimal (c ∷ s) =
    (c == 48 && leb (length s) 0) || (within 49 57 c && every is_digit s && leb (length s) 2)

-- `Number(s)`, of digits.
abbrev pub decimal_from : ℕ → Text → ℕ
decimal_from n [] = n
decimal_from n (c ∷ s) = decimal_from (10 * n + (c - 48)) s

abbrev pub decimal_value : Text → ℕ
decimal_value s = decimal_from 0 s

-- The decimal notation of a number below 1000, which all that are printed are.
abbrev pub decimal : ℕ → Text
decimal n =
    if ltb n 10
    then (48 + n) ∷ []
    else if ltb n 100
    then (48 + n / 10) ∷ (48 + n % 10) ∷ []
    else (48 + n / 100) ∷ (48 + n / 10 % 10) ∷ (48 + n % 10) ∷ []

abbrev pub is_octet : Text → Bool
is_octet s = is_short_decimal s && leb (decimal_value s) 255

abbrev pub from_octets : List Text → Option Ip
from_octets (a ∷ b ∷ c ∷ d ∷ []) =
    if is_octet a && is_octet b && is_octet c && is_octet d
    then some (
        v4 (
          256 * (256 * (256 * decimal_value a + decimal_value b) + decimal_value c)
          + decimal_value d))
    else none
from_octets _ = none

-- `parseIpv4`
abbrev pub parse_ipv4 : Text → Option Ip
parse_ipv4 s = from_octets (split 46 s)

abbrev pub is_hex : ℕ → Bool
is_hex c = is_digit c || within 97 102 c || within 65 70 c

-- `/^[0-9a-f]{1,4}$/i`
abbrev pub is_group : Text → Bool
is_group s = within 1 4 (length s) && every is_hex s

abbrev pub hex_digit : ℕ → ℕ
hex_digit c = if is_digit c then c - 48 else if leb 97 c then c - 87 else c - 55

abbrev pub hex_from : ℕ → Text → ℕ
hex_from n [] = n
hex_from n (c ∷ s) = hex_from (16 * n + hex_digit c) s

abbrev pub groups_from : ℕ → List Text → ℕ
groups_from n [] = n
groups_from n (g ∷ gs) = groups_from (65536 * n + hex_from 0 g) gs

abbrev pub starts_colon : Text → Bool
starts_colon [] = false
starts_colon (c ∷ s) = c == 58

abbrev pub drop_first : Text → Text
drop_first [] = []
drop_first (c ∷ s) = s

abbrev pub before_later : ℕ → Option (Text × Text) → Option (Text × Text)
before_later c none = none
before_later c (some (before, after)) = some (c ∷ before, after)

-- The texts before and after the first `::`, if there is one.
abbrev pub cut : Text → Option (Text × Text)
cut [] = none
cut (c ∷ s) =
    let rest = cut s in
    if c == 58 && starts_colon s then some ([], drop_first s) else before_later c rest

-- Whether `::` is found again from the next place on, so that `lastIndexOf` is another.
abbrev pub is_cut_again : Text → Bool
is_cut_again after = starts_colon after || is_some (cut after)

abbrev pub is_given : Text → Bool
is_given [] = false
is_given (c ∷ s) = true

-- `.split(":").filter(Boolean)`
abbrev pub colon_groups : Text → List Text
colon_groups s = filter is_given (split 58 s)

abbrev pub zeros : ℕ → List Text
zeros zero = []
zeros (suc n) = text "0" ∷ zeros n

abbrev pub from_groups : List Text → Option Ip
from_groups groups =
    let v = groups_from 0 groups in if v / 2 ^ 32 == 65535 then none else some (v6 v)

abbrev pub parse_parts : Text → Option (Text × Text) → Option Ip
parse_parts s none =
    let explicit = colon_groups s in
    if exists (λ g. not (is_given g)) (split 58 s)
      || exists (λ g. not (is_group g)) explicit
      || not (length explicit == 8)
    then none
    else from_groups explicit
parse_parts s (some (before, after)) =
    let left = colon_groups before in
    let right = colon_groups after in
    if is_cut_again after
      || exists (λ g. not (is_group g)) (left ++ right)
      || leb 8 (length (left ++ right))
    then none
    else from_groups (left ++ (zeros (8 - length (left ++ right)) ++ right))

-- `parseIpv6`
abbrev pub parse_ipv6 : Text → Option Ip
parse_ipv6 s =
    if includes s 46 || not (is_given s && every (λ c. is_hex c || c == 58) s)
    then none
    else parse_parts s (cut s)

-- `parseIp`
unfoldable pub parse_ip : Text → Option Ip
parse_ip s =
    if not (s == trim s) || includes s 37 || includes s 91 || includes s 93
    then none
    else if includes s 58
    then parse_ipv6 s
    else parse_ipv4 s

abbrev pub hex_char : ℕ → ℕ
hex_char d = if ltb d 10 then 48 + d else 87 + d

-- `toString(16)` of a group.
abbrev pub hex : ℕ → Text
hex n =
    if ltb n 16
    then hex_char n ∷ []
    else if ltb n 256
    then hex_char (n / 16) ∷ hex_char (n % 16) ∷ []
    else if ltb n 4096
    then hex_char (n / 256) ∷ hex_char (n / 16 % 16) ∷ hex_char (n % 16) ∷ []
    else hex_char (n / 4096)
      ∷ hex_char (n / 256 % 16)
      ∷ hex_char (n / 16 % 16)
      ∷ hex_char (n % 16)
      ∷ []

abbrev pub groups_of : ℕ → List Text
groups_of v =
    map (λ shift. hex (v / 2 ^ shift % 65536)) (112 ∷ 96 ∷ 80 ∷ 64 ∷ 48 ∷ 32 ∷ 16 ∷ 0 ∷ [])

abbrev pub is_zero_group : Text → Bool
is_zero_group g = g == text "0"

abbrev pub zero_run : List Text → ℕ
zero_run [] = 0
zero_run (g ∷ gs) = let rest = zero_run gs in if is_zero_group g then suc rest else 0

abbrev pub better : ℕ × ℕ → ℕ → ℕ → ℕ × ℕ
better (start, best) index run = if ltb best run && leb 2 run then (index, run) else (start, best)

-- The loop over the groups, which goes on behind a run of zeros: the start of the longest run of
-- two or more, and its length, which is 0 where there is none.
abbrev pub longest : List Text → ℕ → ℕ → ℕ × ℕ → ℕ × ℕ
longest [] index skip best = best
longest (g ∷ gs) index (suc skip) best = longest gs (index + 1) skip best
longest (g ∷ gs) index zero best =
    let run = zero_run (g ∷ gs) in longest gs (index + 1) (run - 1) (better best index run)

abbrev pub take_groups : List Text → ℕ → List Text
take_groups [] n = []
take_groups (g ∷ gs) zero = []
take_groups (g ∷ gs) (suc n) = g ∷ take_groups gs n

abbrev pub drop_groups : List Text → ℕ → List Text
drop_groups [] n = []
drop_groups (g ∷ gs) zero = g ∷ gs
drop_groups (g ∷ gs) (suc n) = drop_groups gs n

abbrev pub compressed : List Text → ℕ × ℕ → Text
compressed groups (start, zero) = join (text ":") groups
compressed groups (start, suc n) =
    join (text ":") (take_groups groups start)
    ++ (text "::" ++ join (text ":") (drop_groups groups (start + suc n)))

-- `formatIp`
unfoldable pub format_ip : Ip → Text
format_ip (v4 v) =
    join (text ".") (map (λ shift. decimal (v / 2 ^ shift % 256)) (24 ∷ 16 ∷ 8 ∷ 0 ∷ []))
format_ip (v6 v) = let groups = groups_of v in compressed groups (longest groups 0 0 (0, 0))

abbrev pub with_value : Ip → ℕ → Ip
with_value (v4 v) w = v4 w
with_value (v6 v) w = v6 w
