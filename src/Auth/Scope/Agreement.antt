-- ===== src/Auth/Scope/Agreement.antt =====
-- The tests on scopes of backend/packages/contracts/src/hosted-auth-state-machine-core.ts and
-- hosted-auth-boundaries.ts.
use mathlib.Core.Bool.{and-eq-true_iff, false≢true}
use powerotp.Prelude.{
  ◌≡◌, ap, sym, ◌∙◌, Bool, true, ◌&&◌, Option, none, some, List, Memᴰ, every-Memᴰ, Text, text,
  text_eq, ==→≡, nat_eq,
}
use powerotp.Auth.Scope.{
  powerotp_pii, didit_pii, realm_matches, same_value, Mode, mode_eq, flow_eq, Realm, Scope, field,
  same_field, same_scope, realm_schema,
}

and_split : (a b : Bool) → (a && b) ≡ true → (a ≡ true) × (b ≡ true)
and_split a b h = (and-eq-true_iff a b).0 h

same_value_sound : (value : Text) (o : Option Text) → same_value value o ≡ true → o ≡ some value
unfolding same_value
same_value_sound value none h = absurd (false≢true h)
same_value_sound value (some v) h = ap some (sym (==→≡ value v h))

same_field_sound :
    (right : List (Text × Text)) (key value : Text)
    → same_field right (key, value) ≡ true
    → field key right ≡ some value
unfolding same_field
same_field_sound right key value h = same_value_sound value (field key right) h

-- Two scopes that agree have the same project, flow and realm (custody mode, origin and RP id), and
-- every further key of the first has the same text in the second.
pub same_scope_sound :
    (left right : Scope)
    → same_scope left right ≡ true
    → (left.project_id ≡ right.project_id)
      × (left.flow ≡ right.flow)
      × (left.realm ≡ right.realm)
      × ((key value : Text)
          → Memᴰ {A = Text × Text} (key, value) left.extra
          → field key right.extra ≡ some value)
unfolding same_scope
same_scope_sound left right h =
    let (h6, sizes) = and_split _ _ h in
    let (h5, fields) = and_split _ _ h6 in
    let (h4, rp) = and_split _ _ h5 in
    let (h3, origin) = and_split _ _ h4 in
    let (h2, mode) = and_split _ _ h3 in
    let (project, flow) = and_split _ _ h2 in
    (
      ==→≡ _ _ project,
      ==→≡ _ _ flow,
      realm_path (==→≡ _ _ mode) (==→≡ _ _ origin) (==→≡ _ _ rp),
      λ key value m.
          same_field_sound right.extra key value (every-Memᴰ (same_field right.extra) fields m),
    )
  where
    realm_path :
        left.realm.identity_data_mode ≡ right.realm.identity_data_mode
        → left.realm.origin ≡ right.realm.origin
        → left.realm.rp_id ≡ right.realm.rp_id
        → left.realm ≡ right.realm
    realm_path a b c = λ i. record { identity_data_mode = a i; origin = b i; rp_id = c i }

abbrev origin_of : Mode → Text
origin_of powerotp_pii = text "https://authx.powerotp.com"
origin_of didit_pii = text "https://authz.powerotp.com"

abbrev rp_id_of : Mode → Text
rp_id_of powerotp_pii = text "authx.powerotp.com"
rp_id_of didit_pii = text "authz.powerotp.com"

realm_matches_sound :
    (m : Mode) (origin rp_id : Text)
    → realm_matches m origin rp_id ≡ true
    → (origin ≡ origin_of m) × (rp_id ≡ rp_id_of m)
unfolding realm_matches
realm_matches_sound powerotp_pii origin rp_id h =
    let (a, b) = and_split _ _ h in (==→≡ origin _ a, ==→≡ rp_id _ b)
realm_matches_sound didit_pii origin rp_id h =
    let (a, b) = and_split _ _ h in (==→≡ origin _ a, ==→≡ rp_id _ b)

-- No realm mixes the two custody modes: one that passes the schema has the origin and the RP id of
-- its mode, so that two such realms of one mode are equal.
pub realm_schema_unique :
    (a b : Realm)
    → realm_schema a ≡ true
    → realm_schema b ≡ true
    → a.identity_data_mode ≡ b.identity_data_mode
    → a ≡ b
unfolding realm_schema
realm_schema_unique a b ha hb same =
    let (oa, ra) = realm_matches_sound a.identity_data_mode a.origin a.rp_id ha in
    let (ob, rb) = realm_matches_sound b.identity_data_mode b.origin b.rp_id hb in
    let origin = oa ∙ ap origin_of same ∙ sym ob in
    let rp = ra ∙ ap rp_id_of same ∙ sym rb in
    λ i. record { identity_data_mode = same i; origin = origin i; rp_id = rp i }
