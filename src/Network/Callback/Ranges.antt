-- ===== src/Network/Callback/Ranges.antt =====
-- Which addresses are blocked: `isBlockedIpAddress` of
-- backend/packages/api/src/callback-ssrf-guard.ts.
use powerotp.Prelude.{
  ℕ, ◌/◌, ◌%◌, ◌^◌, ◌<◌, Bool, true, false, some, List, [], ◌∷◌, ◌++◌, nat_eq, Text, text, text_eq,
  is_some, lower, within, every, exists, ◌≡◌, refl, ap, ◌∙◌, arith,
}
use powerotp.Network.Address.{v4, is_given, onto_first, split, decimal, from_octets, format_ip}
use powerotp.Network.Cidr.Decimal.{decimal_value-decimal, is_digit-decimal}
use powerotp.Network.Cidr.RoundTrip.{is_dotted, split-dotted, from_octets-dotted}
use powerotp.Network.Cidr.Allowed.{every-format}
use powerotp.Network.Callback.{
  blocked_ipv4_ranges, are_four_numbers, numbers_only, mapped_part, int_from, ipv4_to_int,
  is_in_block, is_ipv4, is_blocked_ip_address,
}

-- The first and the last of the addresses that are not public, range by range.
abbrev pub reserved_ipv4_ranges : List (ℕ × ℕ)
reserved_ipv4_ranges =
    (0, 16777215)
    ∷ (167772160, 184549375)
    ∷ (1681915904, 1686110207)
    ∷ (2130706432, 2147483647)
    ∷ (2851995648, 2852061183)
    ∷ (2886729728, 2887778303)
    ∷ (3221225472, 3221225727)
    ∷ (3232235520, 3232301055)
    ∷ (3323068416, 3323199487)
    ∷ (3758096384, 4026531839)
    ∷ []

abbrev is_between : ℕ → ℕ × ℕ → Bool
is_between v (first, last) = within first last v

abbrev pub is_reserved : ℕ → Bool
is_reserved v = exists (is_between v) reserved_ipv4_ranges

in_this_network : (v : ℕ) → is_in_block v (text "0.0.0.0", 8) ≡ within 0 16777215 v
unfolding split
in_this_network v = ground arith

in_private_a : (v : ℕ) → is_in_block v (text "10.0.0.0", 8) ≡ within 167772160 184549375 v
unfolding split
in_private_a v = ground arith

in_shared : (v : ℕ) → is_in_block v (text "100.64.0.0", 10) ≡ within 1681915904 1686110207 v
unfolding split
in_shared v = ground arith

in_loopback : (v : ℕ) → is_in_block v (text "127.0.0.0", 8) ≡ within 2130706432 2147483647 v
unfolding split
in_loopback v = ground arith

in_link_local : (v : ℕ) → is_in_block v (text "169.254.0.0", 16) ≡ within 2851995648 2852061183 v
unfolding split
in_link_local v = ground arith

in_private_b : (v : ℕ) → is_in_block v (text "172.16.0.0", 12) ≡ within 2886729728 2887778303 v
unfolding split
in_private_b v = ground arith

in_protocol : (v : ℕ) → is_in_block v (text "192.0.0.0", 24) ≡ within 3221225472 3221225727 v
unfolding split
in_protocol v = ground arith

in_private_c : (v : ℕ) → is_in_block v (text "192.168.0.0", 16) ≡ within 3232235520 3232301055 v
unfolding split
in_private_c v = ground arith

in_benchmark : (v : ℕ) → is_in_block v (text "198.18.0.0", 15) ≡ within 3323068416 3323199487 v
unfolding split
in_benchmark v = ground arith

in_multicast : (v : ℕ) → is_in_block v (text "224.0.0.0", 4) ≡ within 3758096384 4026531839 v
unfolding split
in_multicast v = ground arith

in_blocks : (v : ℕ) → exists (is_in_block v) blocked_ipv4_ranges ≡ is_reserved v
in_blocks v =
    rw
      (
        in_this_network v,
        in_private_a v,
        in_shared v,
        in_loopback v,
        in_link_local v,
        in_private_b v,
        in_protocol v,
        in_private_c v,
        in_benchmark v,
        in_multicast v,
      )
      refl

lower_dotted : (s : Text) → every is_dotted s ≡ true → lower s ≡ s
lower_dotted [] h = refl
lower_dotted (c ∷ s) h =
    let small : within 65 90 c ≡ false = ground arith in
    let rest : every is_dotted s ≡ true = ground (arith, h) in
    rw small (ap (◌∷◌ c) (lower_dotted s rest))

-- The parts of a mapped address, from those of what it maps.
abbrev mapped_parts : List Text → List Text
mapped_parts parts = onto_first 58 (
    onto_first 58
      (onto_first 102 (onto_first 102 (onto_first 102 (onto_first 102 (onto_first 58 parts))))))

split-mapped : (s : Text) → split 46 (text "::ffff:" ++ s) ≡ mapped_parts (split 46 s)
unfolding split
split-mapped s = refl

is_given-decimal : (n : ℕ) → is_given (decimal n) ≡ true
is_given-decimal n = ground arith

module _ (v : ℕ) (h : v < 2 ^ 32) where
  split-format :
      split 46 (format_ip (v4 v))
      ≡ decimal (v / 2 ^ 24 % 256)
        ∷ decimal (v / 2 ^ 16 % 256)
        ∷ decimal (v / 2 ^ 8 % 256)
        ∷ decimal (v / 2 ^ 0 % 256)
        ∷ []
  unfolding format_ip
  split-format =
      split-dotted (v / 2 ^ 24 % 256) (v / 2 ^ 16 % 256) (v / 2 ^ 8 % 256) (v / 2 ^ 0 % 256)
        (omega arith) (omega arith) (omega arith) (omega arith)

  ipv4_to_int-format : ipv4_to_int (format_ip (v4 v)) ≡ v
  ipv4_to_int-format =
      ap (int_from 0) split-format
      ∙ rw
          (
            decimal_value-decimal (v / 2 ^ 24 % 256) (omega arith),
            decimal_value-decimal (v / 2 ^ 16 % 256) (omega arith),
            decimal_value-decimal (v / 2 ^ 8 % 256) (omega arith),
            decimal_value-decimal (v / 2 ^ 0 % 256) (omega arith),
          )
          (omega arith)

  is_ipv4-format : is_ipv4 (format_ip (v4 v)) ≡ true
  is_ipv4-format =
      ap (λ parts. is_some (from_octets parts)) split-format
      ∙ ap is_some (
          from_octets-dotted (v / 2 ^ 24 % 256) (v / 2 ^ 16 % 256) (v / 2 ^ 8 % 256)
            (v / 2 ^ 0 % 256) (omega arith) (omega arith) (omega arith) (omega arith))

  plain : is_blocked_ip_address (format_ip (v4 v)) ≡ is_reserved v
  unfolding is_blocked_ip_address
  plain =
      rw is_ipv4-format (ap (λ n. exists (is_in_block n) blocked_ipv4_ranges) ipv4_to_int-format)
      ∙ in_blocks v

  not_ipv4 : is_ipv4 (text "::ffff:" ++ format_ip (v4 v)) ≡ false
  not_ipv4 =
      ap (λ parts. is_some (from_octets parts))
        (split-mapped (format_ip (v4 v)) ∙ ap mapped_parts split-format)

  are_four : are_four_numbers (split 46 (format_ip (v4 v))) ≡ true
  are_four =
      ap are_four_numbers split-format
      ∙ rw
          (
            is_given-decimal (v / 2 ^ 24 % 256),
            is_given-decimal (v / 2 ^ 16 % 256),
            is_given-decimal (v / 2 ^ 8 % 256),
            is_given-decimal (v / 2 ^ 0 % 256),
            is_digit-decimal (v / 2 ^ 24 % 256) (omega arith),
            is_digit-decimal (v / 2 ^ 16 % 256) (omega arith),
            is_digit-decimal (v / 2 ^ 8 % 256) (omega arith),
            is_digit-decimal (v / 2 ^ 0 % 256) (omega arith),
          )
          refl

  mapped_found : mapped_part (text "::ffff:" ++ format_ip (v4 v)) ≡ some (format_ip (v4 v))
  mapped_found =
      ap (λ s. numbers_only (some s)) (lower_dotted (format_ip (v4 v)) (every-format v))
      ∙ rw are_four refl

  mapped : is_blocked_ip_address (text "::ffff:" ++ format_ip (v4 v)) ≡ is_reserved v
  unfolding is_blocked_ip_address
  mapped =
      rw (not_ipv4, mapped_found)
        (ap (λ n. exists (is_in_block n) blocked_ipv4_ranges) ipv4_to_int-format)
      ∙ in_blocks v

-- An IPv4 address, printed plainly or mapped into IPv6, is blocked exactly when its number is in
-- one of the ten reserved ranges.
pub is_blocked_ip_address_v4 :
    (v : ℕ)
    → v < 2 ^ 32
    → (is_blocked_ip_address (format_ip (v4 v)) ≡ is_reserved v)
      × (is_blocked_ip_address (text "::ffff:" ++ format_ip (v4 v)) ≡ is_reserved v)
is_blocked_ip_address_v4 v h = (plain v h, mapped v h)
