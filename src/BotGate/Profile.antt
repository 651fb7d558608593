-- ===== src/BotGate/Profile.antt =====
-- The inputs of a profile: `resolveScoreInput` of
-- backend/packages/api/src/botblocker-profile-scoring.ts, with the registry of
-- backend/packages/contracts/src/botblocker-scoring.ts.
pub mod Fields
use powerotp.Prelude.{ℕ, Bool, Option, none, some, List, [], ◌∷◌, HasEq, eq_of, Text, length, map}
use powerotp.BotGate.Scoring.{
  Doubles, FieldValue, ScoringInput, booleans, resolution, touch, InputType, boolean_array, safe,
}

pub data ProfileField : Type 0 where
  os_cpu screen_resolution platform touch_support vendor architecture apple_pay : ProfileField
  risk_events_sum current_ip_asn_score : ProfileField
  recent_ip_history_count recent_ip_history_asn_average recent_ip_history_blacklisted : ProfileField
  global_distinct_1d global_distinct_7d global_distinct_30d : ProfileField
  site_distinct_1d site_distinct_7d site_distinct_30d : ProfileField

abbrev ProfileField-discrete : Discrete ProfileField
ProfileField-discrete = hlevel

instance abbrev pub profile_field_eq : HasEq ProfileField
profile_field_eq = eq_of ProfileField-discrete

-- `profileScoreableFields`
abbrev pub profile_input_type : ProfileField → InputType
profile_input_type os_cpu = InputType.string
profile_input_type ProfileField.screen_resolution = InputType.screen_resolution
profile_input_type platform = InputType.string
profile_input_type ProfileField.touch_support = InputType.touch_support
profile_input_type vendor = InputType.string
profile_input_type recent_ip_history_blacklisted = boolean_array
profile_input_type _ = InputType.number

pub record IpEvidence (N : Type 0) : Type 0 where
  pub ip : Text
  pub asn_score : Option N
  pub blacklisted : Bool

pub record IpReuseCounts (N : Type 0) : Type 0 where
  pub distinct_profiles_1d : N
  pub distinct_profiles_7d : N
  pub distinct_profiles_30d : N

pub record IpReuse (N : Type 0) : Type 0 where
  pub global : IpReuseCounts N
  pub site : IpReuseCounts N

pub record TouchSupport (N : Type 0) : Type 0 where
  pub max_touch_points : N
  pub touch_event : Bool
  pub touch_start : Bool

-- What `UserIntelligenceDocument` has for the score.
pub record Profile (N : Type 0) : Type 0 where
  pub os_cpu : Option Text
  pub screen_resolution : Option (Option N × Option N)
  pub platform : Option Text
  pub touch_support : Option (TouchSupport N)
  pub vendor : Option Text
  pub architecture : Option N
  pub apple_pay : Option N
  pub current_ip : Option (IpEvidence N)
  pub recent_ip_history : List (IpEvidence N)
  pub current_ip_reuse : Option (IpReuse N)
  pub risk_events_sum : Option N

module _ (doubles : Doubles) where
  abbrev Number : Type 0
  Number = doubles.Double

  abbrev string_input : Option Text → Option (ScoringInput Number)
  string_input none = none
  string_input (some t) = some (ScoringInput.string t)

  -- `usableNumber`
  abbrev safe_input : Option Number → Option (ScoringInput Number)
  safe_input none = none
  safe_input (some v) = some (ScoringInput.number v)

  abbrev usable_number : Option Number → Option Number
  usable_number none = none
  usable_number (some v) = safe doubles v

  abbrev number_input : Option Number → Option (ScoringInput Number)
  number_input o = safe_input (usable_number o)

  abbrev resolution_input : Option (Option Number × Option Number) → Option (ScoringInput Number)
  resolution_input none = none
  resolution_input (some (w, h)) = some (resolution w h)

  abbrev touch_input : Option (TouchSupport Number) → Option (ScoringInput Number)
  touch_input none = none
  touch_input (some t) = some (touch t.max_touch_points t.touch_event t.touch_start)

  abbrev asn_score_of : Option (IpEvidence Number) → Option Number
  asn_score_of none = none
  asn_score_of (some ip) = ip.asn_score

  abbrev add_score : Option Number → List Number → List Number
  add_score none values = values
  add_score (some v) values = v ∷ values

  abbrev asn_scores : List (IpEvidence Number) → List Number
  asn_scores [] = []
  asn_scores (ip ∷ ips) = add_score ip.asn_score (asn_scores ips)

  abbrev plus_value : Option Number → Number → Option Number
  plus_value none v = none
  plus_value (some sum) v = safe doubles (doubles.plus sum v)

  abbrev sum_from : Option Number → List Number → Option Number
  sum_from sum [] = sum
  sum_from sum (v ∷ values) = sum_from (plus_value sum v) values

  abbrev over_count : Option Number → ℕ → Option Number
  over_count none n = none
  over_count (some sum) n = safe doubles (doubles.over sum (doubles.of_ℕ n))

  -- `average`
  abbrev average : List Number → Option Number
  average [] = none
  average (v ∷ values) =
      over_count (sum_from (some (doubles.of_ℕ 0)) (v ∷ values)) (length (v ∷ values))

  abbrev reuse_count :
      (IpReuse Number → IpReuseCounts Number)
      → (IpReuseCounts Number → Number)
      → Option (IpReuse Number)
      → Option Number
  reuse_count scope window none = none
  reuse_count scope window (some r) = some (window (scope r))

  -- `resolveScoreInput`
  abbrev pub resolve_score_input : Profile Number → ProfileField → Option (ScoringInput Number)
  resolve_score_input p os_cpu = string_input p.os_cpu
  resolve_score_input p ProfileField.screen_resolution = resolution_input p.screen_resolution
  resolve_score_input p platform = string_input p.platform
  resolve_score_input p ProfileField.touch_support = touch_input p.touch_support
  resolve_score_input p vendor = string_input p.vendor
  resolve_score_input p architecture = number_input p.architecture
  resolve_score_input p apple_pay = number_input p.apple_pay
  resolve_score_input p risk_events_sum = number_input p.risk_events_sum
  resolve_score_input p current_ip_asn_score = number_input (asn_score_of p.current_ip)
  resolve_score_input p recent_ip_history_count =
      number_input (some (doubles.of_ℕ (length p.recent_ip_history)))
  resolve_score_input p recent_ip_history_asn_average =
      safe_input (average (asn_scores p.recent_ip_history))
  resolve_score_input p recent_ip_history_blacklisted =
      some (booleans (map (λ ip. ip.blacklisted) p.recent_ip_history))
  resolve_score_input p global_distinct_1d =
      number_input (reuse_count (λ r. r.global) (λ c. c.distinct_profiles_1d) p.current_ip_reuse)
  resolve_score_input p global_distinct_7d =
      number_input (reuse_count (λ r. r.global) (λ c. c.distinct_profiles_7d) p.current_ip_reuse)
  resolve_score_input p global_distinct_30d =
      number_input (reuse_count (λ r. r.global) (λ c. c.distinct_profiles_30d) p.current_ip_reuse)
  resolve_score_input p site_distinct_1d =
      number_input (reuse_count (λ r. r.site) (λ c. c.distinct_profiles_1d) p.current_ip_reuse)
  resolve_score_input p site_distinct_7d =
      number_input (reuse_count (λ r. r.site) (λ c. c.distinct_profiles_7d) p.current_ip_reuse)
  resolve_score_input p site_distinct_30d =
      number_input (reuse_count (λ r. r.site) (λ c. c.distinct_profiles_30d) p.current_ip_reuse)
