-- ===== src/BotGate/Tests.antt =====
-- A profile whose screen and platform are scored, and a report whose clicks are, over whole numbers.
use powerotp.Prelude.{
  ◌*◌, ◌/◌, ◌+◌, ◌≡◌, refl, true, false, not, Option, none, some, [], ◌∷◌, Memᴰ, text, text_eq, ℤ,
  pos, pos_part, neg_part, ◌&&◌, ◌+ℤ◌, negate, abs, leb_ℤ, leb, if◌then◌else◌,
}
use powerotp.BotGate.Scoring.{
  Doubles, value, width, height, gte, eq, multiply, divide, Expression, leaf, literal, binary,
  input, compare, FieldValue, FinalVariable, weighted_sum, present_weight_sum, ScoringInput,
  evaluate_field, resolution,
}
use powerotp.BotGate.Scoring.Types.{mistyped, checked, defined, is_mistyped}
use powerotp.BotGate.Scores.{
  FieldConfiguration, Configuration, available, unavailable, no_usable_fields, calculate_score,
}
use powerotp.BotGate.Profile.{
  ProfileField, screen_resolution, platform, vendor, Profile, profile_field_eq, resolve_score_input,
}
use powerotp.BotGate.Profile.Fields.{resolve_score_input-checked}
use powerotp.BotGate.RiskEvent.{
  RiskEventField, clicks_count, honeypot, button, Evidence, Report, risk_event_field_eq,
  resolve_risk_event_score_input,
}

abbrev product : ℤ → ℤ → ℤ
product (pos a) (pos b) = pos (a * b)
product a b =
    pos (pos_part a * pos_part b + neg_part a * neg_part b)
    +ℤ negate (pos (pos_part a * neg_part b + neg_part a * pos_part b))

abbrev quotient : ℤ → ℤ → ℤ
quotient (pos a) (pos b) = pos (a / b)
quotient a b = negate (pos ((pos_part a + neg_part a) / (pos_part b + neg_part b)))

-- Whole numbers in place of doubles.
abbrev integers : Doubles
integers = record {
  Double = ℤ;
  of_ℕ = λ n. pos n;
  plus = λ a b. a +ℤ b;
  minus = λ a b. a +ℤ negate b;
  times = product;
  over = quotient;
  min = λ a b. if leb_ℤ a b then a else b;
  max = λ a b. if leb_ℤ a b then b else a;
  abs = abs;
  negate = negate;
  same = λ a b. leb_ℤ a b && leb_ℤ b a;
  less = λ a b. not (leb_ℤ b a);
  at_most = leb_ℤ;
  is_safe = λ a. leb (pos_part a + neg_part a) 9007199254740991;
}

-- 80 for a screen of at least 1000 pixels across, and 20 for a narrower one.
abbrev screen : FieldConfiguration ℤ ProfileField
screen = record {
  field = screen_resolution;
  enabled = true;
  expression = leaf (compare width gte (FieldValue.number (pos 1000)) (pos 80) (pos 20));
  weight = pos 3;
}

abbrev linux : FieldConfiguration ℤ ProfileField
linux = record {
  field = platform;
  enabled = true;
  expression = leaf (compare value eq (FieldValue.string (text "Linux")) (pos 40) (pos 60));
  weight = pos 1;
}

-- No profile here has a vendor.
abbrev unknown : FieldConfiguration ℤ ProfileField
unknown = record linux { field = vendor }

abbrev weighted_average : Expression ℤ FinalVariable
weighted_average = binary divide (leaf weighted_sum) (leaf present_weight_sum)

abbrev configuration : Configuration ℤ ProfileField
configuration = record {
  fields = screen ∷ linux ∷ unknown ∷ [];
  final_expression = weighted_average;
}

abbrev profile : Profile ℤ
profile = record {
  os_cpu = none;
  screen_resolution = some (some (pos 1920), none);
  platform = some (text "Linux");
  touch_support = none;
  vendor = none;
  architecture = none;
  apple_pay = none;
  current_ip = none;
  recent_ip_history = [];
  current_ip_reuse = none;
  risk_events_sum = none;
}

abbrev inputs : ProfileField → Option (ScoringInput ℤ)
inputs = resolve_score_input integers profile

-- (3 * 80 + 40) / 4
weighted : calculate_score integers inputs (some configuration) ≡ available (pos 70)
unfolding calculate_score ◌+ℤ◌
weighted = refl

unscored :
    calculate_score integers inputs (some (record configuration { fields = unknown ∷ [] }))
    ≡ unavailable no_usable_fields
unfolding calculate_score
unscored = refl

-- A size that is `null` is no number, and compares as false.
tall_only :
    evaluate_field integers
      (leaf (compare height gte (FieldValue.number (pos 0)) (pos 80) (pos 20)))
      (resolution (some (pos 1920)) none)
    ≡ some (pos 20)
tall_only = refl

-- It is an operand of another type: the evaluation that tells mistyped operators apart finds it.
tall_mistyped :
    checked integers
      (resolution (some (pos 1920)) none)
      (leaf (compare height gte (FieldValue.number (pos 0)) (pos 80) (pos 20)))
    ≡ mistyped
tall_mistyped = refl

resolve_score_input-checked_example :
    let i = resolution (some (pos 1920)) (some (pos 1080)) in
    (defined (checked integers i screen.expression) ≡ evaluate_field integers screen.expression i)
    × (is_mistyped (checked integers i screen.expression) ≡ false)
resolve_score_input-checked_example =
    resolve_score_input-checked integers
      (record profile { screen_resolution = some (some (pos 1920), some (pos 1080)) }) configuration
      screen (resolution (some (pos 1920)) (some (pos 1080))) refl (Memᴰ.head refl) refl refl

abbrev honeypots : FieldConfiguration ℤ RiskEventField
honeypots = record {
  field = clicks_count honeypot;
  enabled = true;
  expression = binary multiply (leaf (input value)) (literal (pos 30));
  weight = pos 1;
}

abbrev evidence : Evidence ℤ
evidence = record {
  clicks = honeypot ∷ button ∷ honeypot ∷ [];
  average_directness_ratio = pos 1;
  sample_count = pos 0;
  smoothness_score = pos 0;
  high_speed_event_count = pos 0;
  honeypot_activations = 0;
  automation_indicators = none;
  page_view = none;
}

abbrev report : Report ℤ
report = record {
  behavior_evidence = none;
  browser_evidence = some evidence;
  method = none;
  risk_signals = none;
}

abbrev clicks_only : Configuration ℤ RiskEventField
clicks_only = record { fields = honeypots ∷ []; final_expression = weighted_average }

trapped :
    calculate_score integers (resolve_risk_event_score_input integers report) (some clicks_only)
    ≡ available (pos 60)
unfolding calculate_score ◌+ℤ◌
trapped = refl
