-- ===== src/BotGate/RiskEvent.antt =====
-- The inputs of a report: `resolveRiskEventScoreInput` of
-- backend/packages/api/src/botblocker-risk-event-scoring.ts, with the registry of
-- backend/packages/contracts/src/botblocker-risk-event-scoring.ts.
pub mod Inputs
use powerotp.Prelude.{
  ℕ, Bool, true, false, Option, none, some, List, [], ◌∷◌, ◌==◌, HasEq, eq_of, Text, length, map,
  leb, includes, filter, if◌then◌else◌,
}
use powerotp.BotGate.Scoring.{Doubles, ScoringInput, InputType, safe}

pub data ClickCategory : Type 0 where
  button link form_field form_submit navigation honeypot other : ClickCategory

pub data Indicator : Type 0 where
  webdriver untrusted_pointer untrusted_click untrusted_scroll : Indicator

pub data SignalKind : Type 0 where
  honeypot_activation automation_indicator velocity_anomaly challenge_failure : SignalKind

pub data RiskEventField : Type 0 where
  request_method clicks_total_count mouse_average_directness mouse_sample_count : RiskEventField
  clicks_count : ClickCategory → RiskEventField
  scroll_smoothness scroll_high_speed_count honeypot_activations_count : RiskEventField
  page_duration page_active_duration page_width page_height : RiskEventField
  heatmap_bin_count heatmap_sample_count heatmap_dwell : RiskEventField
  indicator_present : Indicator → RiskEventField
  signal_count : SignalKind → RiskEventField

abbrev ClickCategory-discrete : Discrete ClickCategory
ClickCategory-discrete = hlevel

instance abbrev click_eq : HasEq ClickCategory
click_eq = eq_of ClickCategory-discrete

abbrev Indicator-discrete : Discrete Indicator
Indicator-discrete = hlevel

instance abbrev indicator_eq : HasEq Indicator
indicator_eq = eq_of Indicator-discrete

abbrev SignalKind-discrete : Discrete SignalKind
SignalKind-discrete = hlevel

instance abbrev signal_eq : HasEq SignalKind
signal_eq = eq_of SignalKind-discrete

abbrev RiskEventField-discrete : Discrete RiskEventField
RiskEventField-discrete = hlevel

instance abbrev pub risk_event_field_eq : HasEq RiskEventField
risk_event_field_eq = eq_of RiskEventField-discrete

-- `riskEventScoreableFields`
abbrev pub risk_event_input_type : RiskEventField → InputType
risk_event_input_type request_method = InputType.string
risk_event_input_type _ = InputType.number

pub record Bin (N : Type 0) : Type 0 where
  pub sample_count : N
  pub dwell_ms : N

pub record PageView (N : Type 0) : Type 0 where
  pub duration_ms : N
  pub active_duration_ms : N
  pub document_width : N
  pub document_height : N
  pub bins : List (Bin N)

-- What `BrowserEvidence` has for the score: of the clicks the categories, and of the activations
-- of honeypots their number.
pub record Evidence (N : Type 0) : Type 0 where
  pub clicks : List ClickCategory
  pub average_directness_ratio : N
  pub sample_count : N
  pub smoothness_score : N
  pub high_speed_event_count : N
  pub honeypot_activations : ℕ
  pub automation_indicators : Option (List Indicator)
  pub page_view : Option (PageView N)

-- The payload of a report.
pub record Report (N : Type 0) : Type 0 where
  pub behavior_evidence : Option (Evidence N)
  pub browser_evidence : Option (Evidence N)
  pub method : Option Text
  pub risk_signals : Option (List SignalKind)

abbrev occurrences : {K : Type 0} ⦃eq : HasEq K⦄ → K → List K → ℕ
occurrences k ks = length (filter (λ j. j == k) ks)

module _ (doubles : Doubles) where
  abbrev Number : Type 0
  Number = doubles.Double

  abbrev Input : Type 0
  Input = Option (ScoringInput Number)

  abbrev string_of : Option Text → Input
  string_of none = none
  string_of (some t) = some (ScoringInput.string t)

  abbrev number_of : Option Number → Input
  number_of none = none
  number_of (some v) = some (ScoringInput.number v)

  abbrev count_of : ℕ → Input
  count_of n = some (ScoringInput.number (doubles.of_ℕ n))

  abbrev or_evidence :
      Option (Evidence Number) → Option (Evidence Number) → Option (Evidence Number)
  or_evidence none sensed = sensed
  or_evidence (some e) sensed = some e

  -- `payload.behaviorReport?.evidence ?? payload.browserEvidence`
  abbrev evidence_of : Report Number → Option (Evidence Number)
  evidence_of r = or_evidence r.behavior_evidence r.browser_evidence

  abbrev with_evidence : Option (Evidence Number) → (Evidence Number → Input) → Input
  with_evidence none f = none
  with_evidence (some e) f = f e

  abbrev with_page : Option (PageView Number) → (PageView Number → Input) → Input
  with_page none f = none
  with_page (some p) f = f p

  -- `riskSignalCount`
  abbrev signals_of : SignalKind → Option (List SignalKind) → Input
  signals_of kind none = none
  signals_of kind (some signals) = count_of (occurrences kind signals)

  -- `indicatorPresence`
  abbrev presence_of : Indicator → Option (List Indicator) → Input
  presence_of indicator none = none
  presence_of indicator (some indicators) =
      if includes indicators indicator then count_of 1 else count_of 0

  abbrev plus_value : Option Number → Number → Option Number
  plus_value none v = none
  plus_value (some sum) v = safe doubles (doubles.plus sum v)

  abbrev sum_from : Option Number → List Number → Option Number
  sum_from sum [] = sum
  sum_from sum (v ∷ values) = sum_from (plus_value sum v) values

  -- `sumNumbers`
  abbrev sum_numbers : List Number → Option Number
  sum_numbers values = sum_from (some (doubles.of_ℕ 0)) values

  -- The fields of the page view.
  abbrev page_input : RiskEventField → PageView Number → Input
  page_input page_duration p = number_of (safe doubles p.duration_ms)
  page_input page_active_duration p = number_of (safe doubles p.active_duration_ms)
  page_input page_width p = number_of (safe doubles p.document_width)
  page_input page_height p = number_of (safe doubles p.document_height)
  page_input heatmap_bin_count p = count_of (length p.bins)
  page_input heatmap_sample_count p = number_of (sum_numbers (map (λ b. b.sample_count) p.bins))
  page_input heatmap_dwell p = number_of (sum_numbers (map (λ b. b.dwell_ms) p.bins))
  page_input _ p = none

  -- The fields of the evidence.
  abbrev evidence_input : RiskEventField → Evidence Number → Input
  evidence_input clicks_total_count e = count_of (length e.clicks)
  evidence_input (clicks_count category) e = count_of (occurrences category e.clicks)
  evidence_input mouse_average_directness e =
      if doubles.less (doubles.of_ℕ 0) e.sample_count
      then number_of (safe doubles e.average_directness_ratio)
      else none
  evidence_input mouse_sample_count e = number_of (safe doubles e.sample_count)
  evidence_input scroll_smoothness e = number_of (safe doubles e.smoothness_score)
  evidence_input scroll_high_speed_count e = number_of (safe doubles e.high_speed_event_count)
  evidence_input honeypot_activations_count e = count_of e.honeypot_activations
  evidence_input (indicator_present indicator) e = presence_of indicator e.automation_indicators
  evidence_input f e = with_page e.page_view (page_input f)

  -- `resolveRiskEventScoreInput`
  abbrev pub resolve_risk_event_score_input : Report Number → RiskEventField → Input
  resolve_risk_event_score_input r request_method = string_of r.method
  resolve_risk_event_score_input r (signal_count kind) = signals_of kind r.risk_signals
  resolve_risk_event_score_input r f = with_evidence (evidence_of r) (evidence_input f)
