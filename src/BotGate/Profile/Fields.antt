-- ===== src/BotGate/Profile/Fields.antt =====
-- The types of a profile's inputs: backend/packages/api/src/botblocker-profile-scoring.ts, under a
-- configuration that passes its schema (backend/packages/contracts/src/botblocker-scoring.ts).
use powerotp.Prelude.{◌≡◌, true, false, some, Memᴰ, arith}
use powerotp.BotGate.Scoring.{Doubles, ScoringInput, evaluate_field}
use powerotp.BotGate.Scoring.Types.{has_sizes, checked, defined, is_mistyped}
use powerotp.BotGate.Scores.{FieldConfiguration, Configuration, is_valid_configuration}
use powerotp.BotGate.Scores.Checked.{HasType, valid_configuration-checked}
use powerotp.BotGate.Profile.{
  ProfileField, profile_field_eq, profile_input_type, Profile, resolve_score_input,
}

resolve_score_input-type :
    (doubles : Doubles) (p : Profile doubles.Double) (f : ProfileField)
    → HasType (profile_input_type f) (resolve_score_input doubles p f)
resolve_score_input-type doubles p f = ground arith

-- Under a configuration that passes its schema the expression of a configured field, evaluated on
-- whatever input a profile has for the field, but for a screen of which a size is unknown, meets no
-- operand of another type: it gives what the evaluation that tells mistyped operators apart gives, and
-- that one finds none.
pub resolve_score_input-checked :
    (doubles : Doubles) (p : Profile doubles.Double) (c : Configuration doubles.Double ProfileField)
    (f : FieldConfiguration doubles.Double ProfileField) (i : ScoringInput doubles.Double)
    → is_valid_configuration profile_input_type c ≡ true
    → Memᴰ f c.fields
    → resolve_score_input doubles p f.field ≡ some i
    → has_sizes i ≡ true
    → let verdict = checked doubles i f.expression in
      (defined verdict ≡ evaluate_field doubles f.expression i) × (is_mistyped verdict ≡ false)
resolve_score_input-checked doubles p =
    valid_configuration-checked doubles profile_input_type (resolve_score_input doubles p)
      (resolve_score_input-type doubles p)
