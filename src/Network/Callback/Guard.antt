-- ===== src/Network/Callback/Guard.antt =====
-- What the check of a callback's destination lets through: `assertPublicHttpsUrl` of
-- backend/packages/api/src/callback-ssrf-guard.ts.
use mathlib.Core.Option.{some-injective}
use powerotp.Prelude.{
  ℕ, ◌^◌, ◌<◌, Bool, true, false, not, Option, none, some, List, [], ◌∷◌, ◌++◌, ◌==◌, ==→≡, nat_eq,
  Text, text, text_eq, is_some, every, every-Memᴰ, Memᴰ, ◌⊎◌, ◌≡◌, refl, ap, sym, ◌∙◌, Bool-cases,
  inl, inr, subst,
}
use powerotp.Network.Address.{v4, onto_first, split, from_octets, format_ip}
use powerotp.Network.Callback.{
  is_ipv4, check_url, Url, UrlResult, ok, err, check_records, check_resolved, is_blocked_ip_address,
  assert_public_https_url,
}
use powerotp.Network.Callback.Ranges.{is_reserved, is_blocked_ip_address_v4}

url_in : Url → UrlResult → Url
url_in u (ok url) = url
url_in u (err e) = u

ok_injective : (u w : Url) → ok u ≡ ok w → u ≡ w
unfolding url_in
ok_injective u w h = ap (url_in u) h

abbrev pub is_public : Text → Bool
is_public address = not (is_blocked_ip_address address)

check_records_public :
    (url w : Url) (records : List Text)
    → check_records url records ≡ ok w
    → (url ≡ w) × (every is_public records ≡ true)
check_records_public url w [] h = (ok_injective url w h, refl)
check_records_public url w (address ∷ records) h =
    elim (Bool-cases (is_blocked_ip_address address)) [
      | inl blocked ↦ cc (rw blocked at h)
      | inr clear ↦
          let (same, rest) = check_records_public url w records (rw clear at h) in
          (same, rw (clear, rest) refl)
    ]

-- The host of the URL resolves to some addresses, all of them public.
abbrev pub ResolvesPublic : (Text → Option (List Text)) → Url → Type 0
ResolvesPublic lookup url =
    (address : Text) × (records : List Text) × (lookup url.hostname ≡ some (address ∷ records))
    × (every is_public (address ∷ records) ≡ true)

check_resolved_public :
    (lookup : Text → Option (List Text)) (url w : Url) (o : Option (List Text))
    → lookup url.hostname ≡ o
    → check_resolved url o ≡ ok w
    → (url ≡ w) × ResolvesPublic lookup url
check_resolved_public lookup url w none found h = cc
check_resolved_public lookup url w (some []) found h = cc
check_resolved_public lookup url w (some (address ∷ records)) found h =
    let (same, all) = check_records_public url w (address ∷ records) h in
    (same, (address, records, found, all))

abbrev pub Passes : (Text → Option Url) → (Text → Option (List Text)) → Text → Url → Type 0
Passes parse_url lookup raw url =
    (parse_url raw ≡ some url) × (url.protocol ≡ text "https:") × ResolvesPublic lookup url

-- A URL that the check returns is the one that was given, is of the scheme https, and its host
-- resolves to at least one address and to none that is blocked.
pub assert_public_https_url-Passes :
    (parse_url : Text → Option Url) (lookup : Text → Option (List Text)) (raw : Text) (url : Url)
    → assert_public_https_url parse_url lookup raw ≡ ok url
    → Passes parse_url lookup raw url
unfolding assert_public_https_url
assert_public_https_url-Passes parse_url lookup raw url h = parsed (parse_url raw) h
  where
    secure :
        (u : Url)
        → check_url lookup (some u) ≡ ok url
        → (u ≡ url) × (u.protocol ≡ text "https:") × ResolvesPublic lookup u
    secure u h = elim (Bool-cases (u.protocol == text "https:")) [
      | inr other ↦ cc (rw (other, check_url) at h)
      | inl https ↦
          let (same, resolves) =
            check_resolved_public lookup u url (lookup u.hostname) refl
              (rw (https, check_url) at h) in
          (same, ==→≡ u.protocol (text "https:") https, resolves)
    ]

    parsed :
        (o : Option Url)
        → check_url lookup o ≡ ok url
        → (o ≡ some url) × (url.protocol ≡ text "https:") × ResolvesPublic lookup url
    parsed none h = cc
    parsed (some u) h =
        let (same, https, resolves) = secure u h in
        (
          ap (λ w. some w) same,
          subst (λ w. w.protocol ≡ text "https:") same https,
          subst (ResolvesPublic lookup) same resolves,
        )

-- The addresses of a host that the check lets through hold no IPv4 address of a reserved range,
-- neither printed plainly nor mapped into IPv6.
pub assert_public_https_url_reserved :
    (parse_url : Text → Option Url) (lookup : Text → Option (List Text)) (raw : Text) (url : Url)
    (records : List Text) (written : Text) (v : ℕ)
    → assert_public_https_url parse_url lookup raw ≡ ok url
    → lookup url.hostname ≡ some records
    → v < 2 ^ 32
    → Memᴰ written records
    → (written ≡ format_ip (v4 v)) ⊎ (written ≡ text "::ffff:" ++ format_ip (v4 v))
    → is_reserved v ≡ false
assert_public_https_url_reserved parse_url lookup raw url records written v h found short among
      form =
    let (parsed, https, (address, others, resolved, all)) =
      assert_public_https_url-Passes parse_url lookup raw url h in
    let same : records ≡ address ∷ others =
      some-injective records (address ∷ others) (sym found ∙ resolved) in
    let every_one : every is_public records ≡ true =
      subst (λ rs. every is_public rs ≡ true) (sym same) all in
    let public = negated (is_blocked_ip_address written) (every-Memᴰ is_public every_one among) in
    let (plain, mapped) = is_blocked_ip_address_v4 v short in
    elim form [
      | inl bare ↦ sym plain ∙ ap is_blocked_ip_address (sym bare) ∙ public
      | inr other ↦ sym mapped ∙ ap is_blocked_ip_address (sym other) ∙ public
    ]
  where
    negated : (b : Bool) → not b ≡ true → b ≡ false
    negated true h = cc
    negated false h = refl

-- A part that begins with a letter is no octet.
no_octet :
    (parts : List Text) → is_some (from_octets (onto_first 102 (onto_first 102 parts))) ≡ false
no_octet [] = refl
no_octet (a ∷ []) = refl
no_octet (a ∷ b ∷ []) = refl
no_octet (a ∷ b ∷ c ∷ []) = refl
no_octet (a ∷ b ∷ c ∷ d ∷ []) = refl
no_octet (a ∷ b ∷ c ∷ d ∷ e ∷ parts) = refl

lettered : (s : Text) → is_ipv4 (text "ff" ++ s) ≡ false
unfolding split
lettered s = no_octet (split 46 s)

-- Multicast addresses of IPv6, which begin with ff, are not blocked.
pub is_blocked_ip_address_multicast : (s : Text) → is_blocked_ip_address (text "ff" ++ s) ≡ false
unfolding is_blocked_ip_address
is_blocked_ip_address_multicast s = rw (lettered s) refl
