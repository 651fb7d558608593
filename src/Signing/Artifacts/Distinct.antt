-- ===== src/Signing/Artifacts/Distinct.antt =====
-- What is signed determines the claims: `signingBytes` of
-- backend/packages/botblocker-signing/src/index.ts, over `canonicalizeBotBlockerArtifact` of
-- backend/packages/contracts/src/botblocker-signing.ts.
use mathlib.Core.Bool.{false≢true}
use mathlib.Core.List.{append_assoc}
use powerotp.Prelude.{
  ℕ, ==_refl, false, Option, none, some, List, [], ◌∷◌, ◌++◌, ◌==◌, text_eq, Text, text, sort, ◌≡◌,
  refl, ap, sym, ◌∙◌, subst,
}
use powerotp.Signing.Canonical.{
  Json, canonicalize, canonicalize_fields, join_commas, parts_of, by_key,
}
use powerotp.Signing.Artifacts.{
  ArtifactType, site_clearance, policy_release, Claims, type_text, claims_fields, claims_json,
}

-- `JSON.stringify` of a string ends where the string does, and differs for different strings; a
-- number ends before a comma.
pub record JsonLaws (quote : Text → Text) (print : ℕ → Text) : Type 0 where
  pub quote_apart : (s t r u : Text) → quote s ++ r ≡ quote t ++ u → (s ≡ t) × (r ≡ u)
  pub print_apart :
      (m n : ℕ) (r u : Text) → print m ++ (44 ∷ r) ≡ print n ++ (44 ∷ u) → (m ≡ n) × (r ≡ u)

abbrev tail_of : Text → Text
tail_of [] = []
tail_of (c ∷ s) = s

module _ (quote : Text → Text) (print : ℕ → Text) where
  -- The text of fields from a key on, and from a comma on.
  abbrev from_key : Text → Text → Text
  from_key key rest = quote key ++ (58 ∷ rest)

  abbrev from_comma : List (Text × Text) → Text
  from_comma [] = 125 ∷ []
  from_comma ((key, value) ∷ parts) = 44 ∷ from_key key (value ++ from_comma parts)

  join_commas-from_comma :
      (key value : Text) (parts : List (Text × Text))
      → join_commas (parts_of quote ((key, value) ∷ parts)) ++ (125 ∷ [])
        ≡ from_key key (value ++ from_comma parts)
  join_commas-from_comma key value [] = append_assoc (quote key) (58 ∷ value) (125 ∷ [])
  join_commas-from_comma key value ((next, v) ∷ parts) =
      append_assoc (quote key ++ (58 ∷ value))
        (44 ∷ join_commas (parts_of quote ((next, v) ∷ parts))) (125 ∷ [])
      ∙ ap (λ t. (quote key ++ (58 ∷ value)) ++ (44 ∷ t)) (join_commas-from_comma next v parts)
      ∙ append_assoc (quote key) (58 ∷ value) (from_comma ((next, v) ∷ parts))

  -- The keys of the claims and the texts of their values, from the second on, in the order of keys.
  abbrev site_parts : Option Text → Text → List (Text × Text)
  site_parts none site = (text "siteId", quote site) ∷ []
  site_parts (some session) site =
      (text "sessionId", quote session) ∷ (text "siteId", quote site) ∷ []

  abbrev parts_from_payload : Claims → Option Text → List (Text × Text)
  parts_from_payload c session =
      (text "payload", canonicalize quote print c.payload) ∷ site_parts session c.site_id

  abbrev parts_from_audience : Claims → Option Text → List (Text × Text)
  parts_from_audience c session =
      (text "audience", quote c.audience)
      ∷ (text "domain", quote (text "POWEROTP_BOTBLOCKER_ED25519_V1"))
      ∷ (text "expiresAt", print c.expires_at)
      ∷ (text "issuedAt", print c.issued_at)
      ∷ (text "keyId", quote c.key_id)
      ∷ (text "nonce", quote c.nonce)
      ∷ parts_from_payload c session

  -- The keys of the claims are sorted.
  sorted_claims :
      (c : Claims) (session : Option Text)
      → sort by_key
          (canonicalize_fields quote print (claims_fields (record c { session_id = session })))
        ≡ (text "artifactType", quote (type_text c.artifact_type)) ∷ parts_from_audience c session
  unfolding canonicalize_fields canonicalize
  sorted_claims c none = refl
  sorted_claims c (some session) = refl

  claims_text :
      (c : Claims)
      → canonicalize quote print (claims_json c)
        ≡ 123
          ∷ from_key
              (text "artifactType")
              (quote (type_text c.artifact_type) ++ from_comma (parts_from_audience c c.session_id))
  unfolding canonicalize
  claims_text c =
      ap (λ parts. 123 ∷ (join_commas (parts_of quote parts) ++ text "}"))
        (sorted_claims c c.session_id)
      ∙ ap (λ t. 123 ∷ t)
          (join_commas-from_comma (text "artifactType") (quote (type_text c.artifact_type))
            (parts_from_audience c c.session_id))

append_cancel : (s r u : Text) → s ++ r ≡ s ++ u → r ≡ u
append_cancel [] r u h = h
append_cancel (c ∷ s) r u h = append_cancel s r u (ap tail_of h)

texts_apart : (s t : Text) → (s == t) ≡ false → s ≡ t → ⊥
texts_apart s t apart same = false≢true (sym apart ∙ ap (λ k. s == k) (sym same) ∙ ==_refl s)

type_text_injective : (a b : ArtifactType) → type_text a ≡ type_text b → a ≡ b
type_text_injective site_clearance site_clearance h = refl
type_text_injective policy_release policy_release h = refl
type_text_injective site_clearance policy_release h = absurd (texts_apart _ _ refl h)
type_text_injective policy_release site_clearance h = absurd (texts_apart _ _ refl h)

module _ (quote : Text → Text) (print : ℕ → Text) (laws : JsonLaws quote print) where
  after_key : (key r u : Text) → from_key quote print key r ≡ from_key quote print key u → r ≡ u
  after_key key r u h = ap tail_of (laws.quote_apart key key (58 ∷ r) (58 ∷ u) h).1

  after_string :
      (key v w r u : Text)
      → 44 ∷ from_key quote print key (quote v ++ r) ≡ 44 ∷ from_key quote print key (quote w ++ u)
      → (v ≡ w) × (r ≡ u)
  after_string key v w r u h =
      laws.quote_apart v w r u (after_key key (quote v ++ r) (quote w ++ u) (ap tail_of h))

  after_number :
      (key : Text) (m n : ℕ) (r u : Text)
      → 44 ∷ from_key quote print key (print m ++ (44 ∷ r))
        ≡ 44 ∷ from_key quote print key (print n ++ (44 ∷ u))
      → (m ≡ n) × (44 ∷ r ≡ 44 ∷ u)
  after_number key m n r u h =
      let (same, rest) =
        laws.print_apart m n r u
          (after_key key (print m ++ (44 ∷ r)) (print n ++ (44 ∷ u)) (ap tail_of h)) in
      (same, ap (λ t. 44 ∷ t) rest)

  after_same :
      (key v r u : Text)
      → 44 ∷ from_key quote print key (v ++ r) ≡ 44 ∷ from_key quote print key (v ++ u)
      → r ≡ u
  after_same key v r u h = append_cancel v r u (after_key key (v ++ r) (v ++ u) (ap tail_of h))

  keys_apart :
      (key next r u : Text)
      → (key == next) ≡ false
      → from_key quote print key r ≡ from_key quote print next u
      → ⊥
  keys_apart key next r u apart h =
      texts_apart key next apart (laws.quote_apart key next (58 ∷ r) (58 ∷ u) h).0

  site_parts_injective :
      (s t : Option Text) (x y : Text)
      → from_comma quote print (site_parts quote print s x)
        ≡ from_comma quote print (site_parts quote print t y)
      → (s ≡ t) × (x ≡ y)
  site_parts_injective none none x y h =
      (refl, (after_string (text "siteId") x y (125 ∷ []) (125 ∷ []) h).0)
  site_parts_injective (some v) (some w) x y h =
      let (session, rest) = after_string (text "sessionId") v w _ _ h in
      (ap (λ z. some z) session, (after_string (text "siteId") x y (125 ∷ []) (125 ∷ []) rest).0)
  site_parts_injective none (some w) x y h =
      absurd (keys_apart (text "siteId") (text "sessionId") _ _ refl (ap tail_of h))
  site_parts_injective (some v) none x y h =
      absurd (keys_apart (text "sessionId") (text "siteId") _ _ refl (ap tail_of h))

  payload_parts_injective :
      (a b : Claims)
      → a.payload ≡ b.payload
      → from_comma quote print (parts_from_payload quote print a a.session_id)
        ≡ from_comma quote print (parts_from_payload quote print b b.session_id)
      → (a.session_id ≡ b.session_id) × (a.site_id ≡ b.site_id)
  payload_parts_injective a b payload h =
      let site : Claims → Text =
        λ c. from_comma quote print (site_parts quote print c.session_id c.site_id) in
      let from_payload : Json → Claims → Text =
        λ p c. 44 ∷ from_key quote print (text "payload") (canonicalize quote print p ++ site c) in
      let same = subst (λ p. from_payload p a ≡ from_payload b.payload b) payload h in
      site_parts_injective a.session_id b.session_id a.site_id b.site_id
        (after_same (text "payload") (canonicalize quote print b.payload) (site a) (site b) same)

-- Claims with the same payload whose signed texts are equal are equal, if the text of a string ends
-- where the string does, and the text of a number before a comma.
pub claims_json_injective :
    (quote : Text → Text) (print : ℕ → Text) (a b : Claims)
    → JsonLaws quote print
    → a.payload ≡ b.payload
    → canonicalize quote print (claims_json a) ≡ canonicalize quote print (claims_json b)
    → a ≡ b
claims_json_injective quote print a b laws payload h =
    let texts = ap tail_of (sym (claims_text quote print a) ∙ h ∙ claims_text quote print b) in
    let (type, r1) =
      laws.quote_apart (type_text a.artifact_type) (type_text b.artifact_type) _ _
        (after_key quote print laws (text "artifactType") _ _ texts) in
    let (audience, r2) = after_string quote print laws (text "audience") _ _ _ _ r1 in
    let r3 = after_same quote print laws (text "domain") _ _ _ r2 in
    let (expires, r4) = after_number quote print laws (text "expiresAt") _ _ _ _ r3 in
    let (issued, r5) = after_number quote print laws (text "issuedAt") _ _ _ _ r4 in
    let (key, r6) = after_string quote print laws (text "keyId") _ _ _ _ r5 in
    let (nonce, r7) = after_string quote print laws (text "nonce") _ _ _ _ r6 in
    let (session, site) = payload_parts_injective quote print laws a b payload r7 in
    let kind = type_text_injective a.artifact_type b.artifact_type type in
    λ i. record {
      artifact_type = kind i;
      key_id = key i;
      audience = audience i;
      site_id = site i;
      session_id = session i;
      nonce = nonce i;
      issued_at = issued i;
      expires_at = expires i;
      payload = payload i;
    }
