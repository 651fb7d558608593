-- ===== src/BotGate/Scores/Checked.antt =====
-- The inputs of configured fields: the refinement of ProfileScoringConfigurationSchema in
-- backend/packages/contracts/src/botblocker-scoring.ts, and of its copy for risk events.
use powerotp.Prelude.{
  Bool, true, false, not, ◌&&◌, Option, none, some, List, [], ◌∷◌, Memᴰ, HasEq, includes, ◌≡◌,
  subst, sym, ap, ◌∙◌, arith,
}
use powerotp.BotGate.Scoring.{
  Doubles, ScoringInput, InputType, has_invalid_operator, evaluate_field,
}
use powerotp.BotGate.Scoring.Types.{
  has_sizes, input_type_of, checked, defined, is_mistyped, evaluate_field-checked,
}
use powerotp.BotGate.Scores.{
  FieldConfiguration, Configuration, are_valid_fields, is_valid_configuration,
}

abbrev pub HasType : {N : Type 0} → InputType → Option (ScoringInput N) → Type 0
HasType t none = Unit
HasType t (some i) = input_type_of i ≡ t

module _ {N F : Type 0} ⦃eq : HasEq F⦄ (type_for : F → InputType) where
  valid_operators :
      {f : FieldConfiguration N F} {fs : List (FieldConfiguration N F)}
      → Memᴰ f fs
      → (seen : List F) → are_valid_fields type_for seen fs ≡ true
      → has_invalid_operator f.expression (type_for f.field) ≡ false
  valid_operators {f} (Memᴰ.head {x = g} {xs = gs} e) seen h =
      subst (λ k. has_invalid_operator k.expression (type_for k.field) ≡ false) (sym e)
        (middle (includes seen g.field) (has_invalid_operator g.expression (type_for g.field)) _ h)
    where
      middle : (a b c : Bool) → (not a && not b && c) ≡ true → b ≡ false
      middle a b c h = ground arith
  valid_operators {f} (Memᴰ.tail {x = g} {xs = gs} m) seen h = valid_operators m (g.field ∷ seen) (
      last (not (includes seen g.field))
        (not (has_invalid_operator g.expression (type_for g.field))) _ h)
    where
      last : (a b c : Bool) → (a && b && c) ≡ true → c ≡ true
      last a b c h = ground arith

-- The expression of a configured field is typed for whatever input is found for the field, a
-- screen of unknown sizes excepted.
pub valid_configuration-checked :
    (doubles : Doubles) {F : Type 0} ⦃eq : HasEq F⦄ (type_for : F → InputType)
    (resolve : F → Option (ScoringInput doubles.Double))
    → ((f : F) → HasType (type_for f) (resolve f))
    → (c : Configuration doubles.Double F) → (f : FieldConfiguration doubles.Double F)
    → (i : ScoringInput doubles.Double) → is_valid_configuration type_for c ≡ true
    → Memᴰ f c.fields
    → resolve f.field ≡ some i
    → has_sizes i ≡ true
    → (defined (checked doubles i f.expression) ≡ evaluate_field doubles f.expression i)
      × (is_mistyped (checked doubles i f.expression) ≡ false)
valid_configuration-checked doubles type_for resolve typed c f i valid m found sized =
    let fits : input_type_of i ≡ type_for f.field =
      subst (HasType (type_for f.field)) found (typed f.field) in
    evaluate_field-checked doubles f.expression i sized
      (ap (has_invalid_operator f.expression) fits ∙ valid_operators type_for m [] valid)
