-- ===== src/Network/Cidr/RoundTrip.antt =====
-- Parsing of printed addresses: `formatIp` and `parseIp` of backend/packages/api/src/ip-cidr.ts.
use mathlib.Core.Bool.{false≢true}
use powerotp.Prelude.{
  ℕ, ◌+◌, ◌*◌, ◌/◌, ◌%◌, ◌^◌, ◌<◌, Bool, true, false, not, ◌&&◌, ◌||◌, some, [], ◌∷◌, ◌++◌, ◌==◌,
  ==→≡, ==_refl, nat_eq, Text, text_eq, every, is_digit, is_space, includes, trim, trim_end, ◌≡◌,
  refl, ap, sym, ◌∙◌, arith, Bool-cases, inl, inr,
}
use powerotp.Network.Address.{v4, split, decimal, parse_ip, parse_ipv4, format_ip, from_octets}
use powerotp.Network.Cidr.Decimal.{
  is_digit-decimal, decimal_value-decimal, is_octet-decimal, is_free, split-free, split-append,
}

pub every-append :
    (p : ℕ → Bool) (s t : Text) → every p s ≡ true → every p t ≡ true → every p (s ++ t) ≡ true
every-append p [] t h k = k
every-append p (c ∷ s) t h k = ground (arith, h, every-append p s t)

pub every_weaker :
    (p q : ℕ → Bool)
    → ((c : ℕ) → p c ≡ true → q c ≡ true)
    → (s : Text) → every p s ≡ true
    → every q s ≡ true
every_weaker p q f [] h = refl
every_weaker p q f (c ∷ s) h = ground (arith, h, f c, every_weaker p q f s)

later : (a b : Bool) → (a && b) ≡ true → b ≡ true
later true b h = h
later false b h = cc

pub includes_free :
    (p : ℕ → Bool) (k : ℕ) (s : Text) → p k ≡ false → every p s ≡ true → includes s k ≡ false
includes_free p k [] out h = refl
includes_free p k (c ∷ s) out h = elim (Bool-cases (c == k)) [
  | inl same ↦
      let differ : p c ≡ false = ap p (==→≡ c k same) ∙ out in
      absurd (false≢true (sym (ap (λ b. b && every p s) differ) ∙ h))
  | inr apart ↦ rw apart (includes_free p k s out (later (p c) (every p s) h))
]

earlier : (a b : Bool) → (a && b) ≡ true → a ≡ true
earlier true b h = refl
earlier false b h = cc

false_of_negation : (a : Bool) → not a ≡ true → a ≡ false
false_of_negation true h = cc
false_of_negation false h = refl

trim_end_free : (s : Text) → every (λ c. not (is_space c)) s ≡ true → trim_end s ≡ s
trim_end_free [] h = refl
trim_end_free (c ∷ s) h =
    let first : is_space c ≡ false = false_of_negation (is_space c) (earlier _ _ h) in
    rw first (ap (◌∷◌ c) (trim_end_free s (later _ _ h)))

pub trim_free : (s : Text) → every (λ c. not (is_space c)) s ≡ true → trim s ≡ s
trim_free [] h = refl
trim_free (c ∷ s) h =
    let first : is_space c ≡ false = false_of_negation (is_space c) (earlier _ _ h) in
    rw first (trim_end_free (c ∷ s) h)

-- The code units of dotted notation.
abbrev pub is_dotted : ℕ → Bool
is_dotted c = is_digit c || c == 46

digit_free :
    (k : ℕ) → is_digit k ≡ false → (s : Text) → every is_digit s ≡ true → is_free k s ≡ true
digit_free k out =
    every_weaker is_digit (λ c. not (c == k))
      λ c h. elim (Bool-cases (c == k)) [
        | inl same ↦ absurd (false≢true (sym out ∙ sym (ap is_digit (==→≡ c k same)) ∙ h))
        | inr apart ↦ rw apart refl
      ]

dotted_spaceless : (c : ℕ) → is_dotted c ≡ true → not (is_space c) ≡ true
dotted_spaceless c h = ground arith

parse_ip_plain :
    (s : Text)
    → trim s ≡ s
    → includes s 37 ≡ false
    → includes s 91 ≡ false
    → includes s 93 ≡ false
    → includes s 58 ≡ false
    → parse_ip s ≡ parse_ipv4 s
unfolding parse_ip
parse_ip_plain s trims percent left right colon =
    rw (trims, ==_refl s, percent, left, right, colon) refl

module _ (a b c d : ℕ) (ha : a < 256) (hb : b < 256) (hc : c < 256) (hd : d < 256) where
  abbrev pub dotted : Text
  dotted = decimal a ++ (46 ∷ (decimal b ++ (46 ∷ (decimal c ++ (46 ∷ decimal d)))))

  free : (n : ℕ) → n < 256 → (k : ℕ) → is_digit k ≡ false → is_free k (decimal n) ≡ true
  free n h k out = digit_free k out (decimal n) (is_digit-decimal n (omega arith))

  pub split-dotted : split 46 dotted ≡ decimal a ∷ decimal b ∷ decimal c ∷ decimal d ∷ []
  split-dotted =
      split-append 46 (decimal a) _ (free a ha 46 refl)
      ∙ ap (◌∷◌ (decimal a)) (
          split-append 46 (decimal b) _ (free b hb 46 refl)
          ∙ ap (◌∷◌ (decimal b)) (
              split-append 46 (decimal c) _ (free c hc 46 refl)
              ∙ ap (◌∷◌ (decimal c)) (split-free 46 (decimal d) (free d hd 46 refl))))

  part_dotted : (n : ℕ) → n < 256 → every is_dotted (decimal n) ≡ true
  part_dotted n h =
      every_weaker is_digit is_dotted (λ c e. rw e refl) (decimal n)
        (is_digit-decimal n (omega arith))

  pub every-dotted : every is_dotted dotted ≡ true
  every-dotted = every-append is_dotted (decimal a) _ (part_dotted a ha) (
      every-append is_dotted (decimal b) _ (part_dotted b hb)
        (every-append is_dotted (decimal c) _ (part_dotted c hc) (part_dotted d hd)))

  trim-dotted : trim dotted ≡ dotted
  trim-dotted =
      trim_free dotted
        (every_weaker is_dotted (λ c. not (is_space c)) dotted_spaceless dotted every-dotted)

  pub from_octets-dotted :
      from_octets (decimal a ∷ decimal b ∷ decimal c ∷ decimal d ∷ [])
      ≡ some (v4 (256 * (256 * (256 * a + b) + c) + d))
  from_octets-dotted =
      rw
        (
          is_octet-decimal a ha,
          is_octet-decimal b hb,
          is_octet-decimal c hc,
          is_octet-decimal d hd,
          decimal_value-decimal a (omega arith),
          decimal_value-decimal b (omega arith),
          decimal_value-decimal c (omega arith),
          decimal_value-decimal d (omega arith),
        )
        refl

  absent : (k : ℕ) → is_dotted k ≡ false → includes dotted k ≡ false
  absent k out = includes_free is_dotted k dotted out every-dotted

  parse_ip-dotted : parse_ip dotted ≡ some (v4 (256 * (256 * (256 * a + b) + c) + d))
  parse_ip-dotted =
      parse_ip_plain dotted trim-dotted (absent 37 refl) (absent 91 refl) (absent 93 refl)
        (absent 58 refl)
      ∙ ap from_octets split-dotted
      ∙ from_octets-dotted

-- An IPv4 address that is printed parses back.
pub parse_ip-format_ip : (v : ℕ) → v < 2 ^ 32 → parse_ip (format_ip (v4 v)) ≡ some (v4 v)
unfolding format_ip
parse_ip-format_ip v h =
    let parsed =
      parse_ip-dotted (v / 2 ^ 24 % 256) (v / 2 ^ 16 % 256) (v / 2 ^ 8 % 256) (v / 2 ^ 0 % 256)
        (omega arith) (omega arith) (omega arith) (omega arith) in
    parsed ∙ ap (λ w. some (v4 w)) (octets v h)
  where
    octets :
        (v : ℕ)
        → v < 2 ^ 32
        → 256 * (256 * (256 * (v / 2 ^ 24 % 256) + v / 2 ^ 16 % 256) + v / 2 ^ 8 % 256)
            + v / 2 ^ 0 % 256
          ≡ v
    octets v h = omega arith
