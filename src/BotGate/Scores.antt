-- ===== src/BotGate/Scores.antt =====
-- The score of the configured fields: `calculateProfileScore` and `aggregateFieldScores` of
-- backend/packages/api/src/botblocker-profile-scoring.ts, which botblocker-risk-event-scoring.ts
-- has again for its own fields. `F` is the type of the fields, and `resolve` finds the input of one.
pub mod Present
pub mod Checked
use powerotp.Prelude.{
  ℕ, ◌+◌, Bool, true, false, not, ◌&&◌, ◌||◌, Option, none, some, List, [], ◌∷◌, ◌==◌, HasEq,
  includes, if◌then◌else◌, leb,
}
use powerotp.BotGate.Scoring.{
  Doubles, Expression, FieldLeaf, FinalVariable, weighted_sum, present_weight_sum,
  present_field_count, ScoringInput, InputType, safe, evaluate, evaluate_field, is_scoring_result,
  has_invalid_operator,
}

pub record FieldConfiguration (N F : Type 0) : Type 0 where
  pub field : F
  pub enabled : Bool
  pub expression : Expression N (FieldLeaf N)
  pub weight : N

pub record Configuration (N F : Type 0) : Type 0 where
  pub fields : List (FieldConfiguration N F)
  pub final_expression : Expression N FinalVariable

pub record Aggregate (N : Type 0) : Type 0 where
  pub weighted : N
  pub weight : N
  pub present : ℕ

pub data Reason : Type 0 where
  scoring_unconfigured no_usable_fields invalid_final_calculation : Reason

pub data ScoreStatus (N : Type 0) : Type 0 where
  available : N → ScoreStatus N
  unavailable : Reason → ScoreStatus N

module _ {N F : Type 0} ⦃eq : HasEq F⦄ (type_for : F → InputType) where
  -- The refinement of the configuration's schema: each field once, with operators for its type.
  abbrev pub are_valid_fields : List F → List (FieldConfiguration N F) → Bool
  are_valid_fields seen [] = true
  are_valid_fields seen (f ∷ fs) =
      not (includes seen f.field)
      && not (has_invalid_operator f.expression (type_for f.field))
      && are_valid_fields (f.field ∷ seen) fs

  abbrev pub is_valid_configuration : Configuration N F → Bool
  is_valid_configuration c = are_valid_fields [] c.fields

module _ (doubles : Doubles) where
  abbrev Number : Type 0
  Number = doubles.Double

  abbrev pub empty_aggregate : Aggregate Number
  empty_aggregate = record { weighted = doubles.of_ℕ 0; weight = doubles.of_ℕ 0; present = 0 }

  abbrev if_result : Option Number → Option Number
  if_result none = none
  if_result (some v) = if is_scoring_result doubles v then some v else none

  abbrev evaluated :
      Expression Number (FieldLeaf Number) → Option (ScoringInput Number) → Option Number
  evaluated e none = none
  evaluated e (some i) = if_result (evaluate_field doubles e i)

  abbrev pub plus_contribution : Number → Option Number → Option Number
  plus_contribution sum none = none
  plus_contribution sum (some c) = safe doubles (doubles.plus sum c)

  abbrev pub advance : Aggregate Number → Option Number → Option Number → Aggregate Number
  advance agg (some sum) (some total) = record {
    weighted = sum;
    weight = total;
    present = agg.present + 1;
  }
  advance agg _ _ = agg

  abbrev pub contribute : Aggregate Number → Number → Option Number → Aggregate Number
  contribute agg weight none = agg
  contribute agg weight (some result) =
      advance agg (plus_contribution agg.weighted (safe doubles (doubles.times result weight)))
        (safe doubles (doubles.plus agg.weight weight))

  abbrev variable : Aggregate Number → FinalVariable → Option Number
  variable agg weighted_sum = safe doubles agg.weighted
  variable agg present_weight_sum = safe doubles agg.weight
  variable agg present_field_count = safe doubles (doubles.of_ℕ agg.present)

  -- `evaluateScoringFinalExpression`
  abbrev pub evaluate_final : Expression Number FinalVariable → Aggregate Number → Option Number
  evaluate_final e agg = evaluate doubles (variable agg) e

  abbrev pub status_of : Option Number → ScoreStatus Number
  status_of none = unavailable invalid_final_calculation
  status_of (some v) =
      if is_scoring_result doubles v then available v else unavailable invalid_final_calculation

  module _ {F : Type 0} (resolve : F → Option (ScoringInput Number)) where
    -- The result of a field that is enabled, has an input and evaluates to a score.
    abbrev pub field_result : FieldConfiguration Number F → Option Number
    field_result f = if f.enabled then evaluated f.expression (resolve f.field) else none

    abbrev pub aggregate_from :
        Aggregate Number → List (FieldConfiguration Number F) → Aggregate Number
    aggregate_from agg [] = agg
    aggregate_from agg (f ∷ fs) = aggregate_from (contribute agg f.weight (field_result f)) fs

    -- `aggregateFieldScores`
    abbrev pub aggregate_field_scores : List (FieldConfiguration Number F) → Aggregate Number
    aggregate_field_scores fs = aggregate_from empty_aggregate fs

    -- `calculateProfileScore`, and `calculateRiskEventScore`
    unfoldable pub calculate_score : Option (Configuration Number F) → ScoreStatus Number
    calculate_score none = unavailable scoring_unconfigured
    calculate_score (some c) =
        let agg = aggregate_field_scores c.fields in
        if leb agg.present 0
        then unavailable no_usable_fields
        else status_of (evaluate_final c.final_expression agg)
