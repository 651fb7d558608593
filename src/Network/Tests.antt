-- ===== src/Network/Tests.antt =====
-- Addresses and ranges of both families, and the destinations of callbacks.
use powerotp.Prelude.{
  ℕ, Option, Text, ◌++◌, Memᴰ, inr, map, arith, ◌≡◌, refl, true, false, none, some, List, [], ◌∷◌,
  text,
}
use powerotp.Network.Cidr.Allowed.{cidr_of, is_ip_allowed_v4}
use powerotp.Network.Callback.{
  Url, ok, err, not_resolved, not_public, is_blocked_ip_address, assert_public_https_url,
}
use powerotp.Network.Callback.Ranges.{is_reserved}
use powerotp.Network.Callback.Guard.{assert_public_https_url_reserved}
use powerotp.Network.Address.{v4, v6, split, parse_ip, format_ip}
use powerotp.Network.Cidr.{canonicalize_ip_cidr, is_ip_allowed}

dotted : parse_ip (text "10.0.255.1") ≡ some (v4 167837441)
unfolding parse_ip split
dotted = refl

leading_zero : parse_ip (text "10.0.0.01") ≡ none
unfolding parse_ip split
leading_zero = refl

grouped : parse_ip (text "2001:db8::1") ≡ some (v6 42540766411282592856903984951653826561)
unfolding parse_ip split
grouped = refl

mapped : parse_ip (text "::ffff:1:2") ≡ none
unfolding parse_ip split
mapped = refl

two_cuts : parse_ip (text "1::2::3") ≡ none
unfolding parse_ip split
two_cuts = refl

canonical_v6 : canonicalize_ip_cidr (text " 2001:DB8:0:0:1:0:0:1/64 ") ≡ some (text "2001:db8::/64")
unfolding canonicalize_ip_cidr parse_ip split format_ip
canonical_v6 = refl

kept_zeros : format_ip (v6 42540766411282592875350729025363378177) ≡ text "2001:db8:0:1::1"
unfolding format_ip
kept_zeros = refl

inside_range :
    is_ip_allowed (some (text "192.168.7.9")) (text "10.0.0.0/8" ∷ text "192.168.4.1/22" ∷ [])
    ≡ true
unfolding is_ip_allowed canonicalize_ip_cidr parse_ip split format_ip
inside_range = refl

-- A range that does not parse refuses every address.
broken_range :
    is_ip_allowed (some (text "10.1.2.3")) (text "10.0.0.0/8" ∷ text "10.0.0.0/33" ∷ []) ≡ false
unfolding is_ip_allowed canonicalize_ip_cidr parse_ip split format_ip
broken_range = refl

-- 10.0.0.0/8 and 192.168.4.1/22.
abbrev office : List (ℕ × ℕ)
office = (167772160, 8) ∷ (3232236545, 22) ∷ []

-- 192.168.7.9
is_ip_allowed_v4_example :
    is_ip_allowed (some (format_ip (v4 3232237321))) (map cidr_of office) ≡ true
is_ip_allowed_v4_example =
    is_ip_allowed_v4 3232237321 office (omega arith)
      (omega arith, omega arith, (omega arith, omega arith, tt))

-- Link-local, like everything from fe80:: to febf:ffff:….
link_local : is_blocked_ip_address (text "fe90::1") ≡ false
unfolding is_blocked_ip_address split
link_local = refl

mapped_in_hex : is_blocked_ip_address (text "::FFFF:808:808") ≡ true
unfolding is_blocked_ip_address split
mapped_in_hex = refl

-- The parts of a mapped address are not bounded: 266 is 10 in the part before.
mapped_overflow : is_blocked_ip_address (text "::ffff:9.256.0.1") ≡ true
unfolding is_blocked_ip_address split
mapped_overflow = refl

abbrev hook : Url
hook = record { protocol = text "https:"; hostname = text "hooks.example" }

-- 8.8.8.8 and its mapped form.
abbrev dns : Text → Option (List Text)
dns host = some (format_ip (v4 134744072) ∷ (text "::ffff:" ++ format_ip (v4 134744072)) ∷ [])

accepted : assert_public_https_url (λ s. some hook) dns [] ≡ ok hook
unfolding assert_public_https_url is_blocked_ip_address split format_ip
accepted = refl

assert_public_https_url_reserved_example : is_reserved 134744072 ≡ false
assert_public_https_url_reserved_example =
    assert_public_https_url_reserved (λ s. some hook) dns [] hook
      (format_ip (v4 134744072) ∷ (text "::ffff:" ++ format_ip (v4 134744072)) ∷ [])
      (text "::ffff:" ++ format_ip (v4 134744072)) 134744072 accepted refl (omega arith)
      (Memᴰ.tail (Memᴰ.head refl)) (inr refl)

rebound :
    assert_public_https_url (λ s. some hook) (λ h. some (text "8.8.8.8" ∷ text "10.0.0.1" ∷ [])) []
    ≡ err not_public
unfolding assert_public_https_url is_blocked_ip_address split
rebound = refl

unresolved : assert_public_https_url (λ s. some hook) (λ h. some []) [] ≡ err not_resolved
unfolding assert_public_https_url
unresolved = refl
