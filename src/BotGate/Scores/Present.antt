-- ===== src/BotGate/Scores/Present.antt =====
-- The fields that a score depends on: backend/packages/api/src/botblocker-profile-scoring.ts.
use powerotp.Prelude.{
  ◌+◌, ◌≤◌, Bool, true, Option, none, some, List, [], ◌∷◌, leb, filter, is_some, length, ◌≡◌, refl,
  arith, Bool-cases, Option-cases, inl, inr,
}
use powerotp.BotGate.Scoring.{Doubles, ScoringInput, is_scoring_result}
use powerotp.BotGate.Scores.{
  FieldConfiguration, Configuration, Aggregate, ScoreStatus, available, unavailable, field_result,
  aggregate_from, calculate_score, contribute, empty_aggregate, status_of, aggregate_field_scores,
  advance, plus_contribution,
}

module _ (doubles : Doubles) {F : Type 0} (resolve : F → Option (ScoringInput doubles.Double)) where
  -- Whether the field has a result.
  abbrev pub is_present : FieldConfiguration doubles.Double F → Bool
  is_present f = is_some (field_result doubles resolve f)

  aggregate_from-filter :
      (fs : List (FieldConfiguration doubles.Double F)) (agg : Aggregate doubles.Double)
      → aggregate_from doubles resolve agg (filter is_present fs)
        ≡ aggregate_from doubles resolve agg fs
  aggregate_from-filter [] agg = refl
  aggregate_from-filter (f ∷ fs) agg = elim (Option-cases (field_result doubles resolve f)) [
    | inl e ↦ rw (is_present, e) (aggregate_from-filter fs agg)
    | inr (v, e) ↦ rw (is_present, e) (rw e (aggregate_from-filter fs _))
  ]

  contribute_present :
      (agg : Aggregate doubles.Double) (weight v : doubles.Double)
      → (contribute doubles agg weight (some v)).present ≤ agg.present + 1
  contribute_present agg weight v = advance_present agg (plus_contribution doubles agg.weighted _) _
    where
      advance_present :
          (agg : Aggregate doubles.Double) (a b : Option doubles.Double)
          → (advance doubles agg a b).present ≤ agg.present + 1
      advance_present agg none b = omega arith
      advance_present agg (some a) none = omega arith
      advance_present agg (some a) (some b) = omega arith

  length-present :
      (fs : List (FieldConfiguration doubles.Double F)) (agg : Aggregate doubles.Double)
      → (aggregate_from doubles resolve agg fs).present
        ≤ agg.present + length (filter is_present fs)
  length-present [] agg = omega arith
  length-present (f ∷ fs) agg = elim (Option-cases (field_result doubles resolve f)) [
    | inl e ↦ rw (is_present, aggregate_from, e) (length-present fs agg)
    | inr (v, e) ↦
        rw (is_present, aggregate_from, e)
          (let more = contribute_present agg f.weight v in
            let rest = length-present fs (contribute doubles agg f.weight (some v)) in omega arith)
  ]

-- Only the fields that are enabled, have an input and evaluate to a score matter: the score is the
-- one of the configuration without the others.
pub calculate_score_present :
    (doubles : Doubles) {F : Type 0} (resolve : F → Option (ScoringInput doubles.Double))
    (c : Configuration doubles.Double F)
    → calculate_score doubles resolve (some c)
      ≡ calculate_score doubles resolve
          (some (record c { fields = filter (is_present doubles resolve) c.fields }))
unfolding calculate_score
calculate_score_present doubles resolve c =
    let same = aggregate_from-filter doubles resolve c.fields (empty_aggregate doubles) in
    rw same refl

abbrev pub is_in_range : (doubles : Doubles) → ScoreStatus doubles.Double → Bool
is_in_range doubles (available v) = is_scoring_result doubles v
is_in_range doubles (unavailable reason) = true

status_of_range :
    (doubles : Doubles) (o : Option doubles.Double)
    → is_in_range doubles (status_of doubles o) ≡ true
status_of_range doubles none = refl
status_of_range doubles (some v) = elim (Bool-cases (is_scoring_result doubles v)) [
  | inl fits ↦ rw fits fits
  | inr out ↦ rw out refl
]

-- A score that is available is from 0 to 100, and no more fields are counted as present than are
-- enabled, have an input and evaluate to a score.
pub calculate_score_range :
    (doubles : Doubles) {F : Type 0} (resolve : F → Option (ScoringInput doubles.Double))
    (c : Configuration doubles.Double F)
    → (is_in_range doubles (calculate_score doubles resolve (some c)) ≡ true)
      × ((aggregate_field_scores doubles resolve c.fields).present
          ≤ length (filter (is_present doubles resolve) c.fields))
unfolding calculate_score
calculate_score_range doubles resolve c = (
  elim (Bool-cases (leb (aggregate_field_scores doubles resolve c.fields).present 0)) [
    | inl absent ↦ rw absent refl
    | inr present ↦ rw present (status_of_range doubles _)
  ],
  (let bound = length-present doubles resolve c.fields (empty_aggregate doubles) in omega arith),
)
