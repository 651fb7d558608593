-- ===== src/BotGate/Scoring.antt =====
-- Scoring expressions, and their evaluation: backend/packages/api/src/botblocker-profile-scoring.ts,
-- with the schemas of backend/packages/contracts/src/botblocker-scoring.ts.
-- Numbers are doubles, of which only the operations that the program uses are given.
pub mod Types
use powerotp.Prelude.{
  ℕ, Bool, true, false, not, ◌&&◌, ◌||◌, Option, none, some, List, [], ◌∷◌, ◌==◌, HasEq, eq_of,
  if◌then◌else◌, Text, text_eq, length, filter, leb, ltb,
}

-- The arithmetic of doubles, with the tests `===`, `<` and `<=`. `is_safe` is
-- `Number.isFinite(value) && Math.abs(value) <= Number.MAX_SAFE_INTEGER`.
pub record Doubles : Type 1 where
  pub Double : Type 0
  pub of_ℕ : ℕ → Double
  pub plus : Double → Double → Double
  pub minus : Double → Double → Double
  pub times : Double → Double → Double
  pub over : Double → Double → Double
  pub min : Double → Double → Double
  pub max : Double → Double → Double
  pub abs : Double → Double
  pub negate : Double → Double
  pub same : Double → Double → Bool
  pub less : Double → Double → Bool
  pub at_most : Double → Double → Bool
  pub is_safe : Double → Bool

pub data FieldInputName : Type 0 where
  value width height max_touch_points touch_event touch_start : FieldInputName

pub data Comparison : Type 0 where
  eq neq lt lte gt gte : Comparison

pub data BinaryOp : Type 0 where
  add subtract multiply divide min max : BinaryOp

pub data UnaryOp : Type 0 where
  abs negate : UnaryOp

-- `ScoringFieldInputType`
pub data InputType : Type 0 where
  number string screen_resolution touch_support boolean_array : InputType

-- What `typeof` says of the value of an input.
pub data ValueType : Type 0 where
  number string boolean : ValueType

abbrev InputType-discrete : Discrete InputType
InputType-discrete = hlevel

instance abbrev pub input_type_eq : HasEq InputType
input_type_eq = eq_of InputType-discrete

abbrev ValueType-discrete : Discrete ValueType
ValueType-discrete = hlevel

instance abbrev pub value_type_eq : HasEq ValueType
value_type_eq = eq_of ValueType-discrete

instance abbrev pub bool_eq : HasEq Bool
bool_eq = eq_of hlevel

-- What is compared with, and what an input holds.
pub data FieldValue (N : Type 0) : Type 0 where
  number : N → FieldValue N
  string : Text → FieldValue N
  boolean : Bool → FieldValue N

-- `ScoringExpressionInput`, where `null` is `none`.
pub data ScoringInput (N : Type 0) : Type 0 where
  number : N → ScoringInput N
  string : Text → ScoringInput N
  booleans : List Bool → ScoringInput N
  resolution : Option N → Option N → ScoringInput N
  touch : N → Bool → Bool → ScoringInput N

-- The nodes that both kinds of expression have, over the leaves of one kind.
pub data Expression (N L : Type 0) : Type 0 where
  leaf : L → Expression N L
  literal : N → Expression N L
  unary : UnaryOp → Expression N L → Expression N L
  binary : BinaryOp → Expression N L → Expression N L → Expression N L

pub data FieldLeaf (N : Type 0) : Type 0 where
  input : FieldInputName → FieldLeaf N
  count true_count true_ratio : FieldLeaf N
  compare : FieldInputName → Comparison → FieldValue N → N → N → FieldLeaf N

-- `finalVariables`
pub data FinalVariable : Type 0 where
  weighted_sum present_weight_sum present_field_count : FinalVariable

-- `fieldInputType`
abbrev pub field_input_type : InputType → FieldInputName → Option ValueType
field_input_type InputType.number value = some ValueType.number
field_input_type InputType.string value = some ValueType.string
field_input_type screen_resolution width = some ValueType.number
field_input_type screen_resolution height = some ValueType.number
field_input_type touch_support max_touch_points = some ValueType.number
field_input_type touch_support touch_event = some ValueType.boolean
field_input_type touch_support touch_start = some ValueType.boolean
field_input_type _ _ = none

abbrev pub is_equality : Comparison → Bool
is_equality eq = true
is_equality neq = true
is_equality _ = false

abbrev pub is_number : Option ValueType → Bool
is_number (some ValueType.number) = true
is_number _ = false

module _ {N : Type 0} where
  -- `resolveFieldInput`
  abbrev pub resolve_field_input : ScoringInput N → FieldInputName → Option (FieldValue N)
  resolve_field_input (ScoringInput.number v) value = some (FieldValue.number v)
  resolve_field_input (ScoringInput.string t) value = some (FieldValue.string t)
  resolve_field_input (resolution (some w) h) width = some (FieldValue.number w)
  resolve_field_input (resolution w (some h)) height = some (FieldValue.number h)
  resolve_field_input (touch points event start) max_touch_points = some (FieldValue.number points)
  resolve_field_input (touch points event start) touch_event = some (boolean event)
  resolve_field_input (touch points event start) touch_start = some (boolean start)
  resolve_field_input _ _ = none

  abbrev pub type_of : FieldValue N → ValueType
  type_of (FieldValue.number v) = ValueType.number
  type_of (FieldValue.string t) = ValueType.string
  type_of (FieldValue.boolean b) = ValueType.boolean

  abbrev pub is_invalid_comparison : Option ValueType → Comparison → FieldValue N → Bool
  is_invalid_comparison none comparison expected = true
  is_invalid_comparison (some t) comparison expected =
      not (type_of expected == t) || (not (t == ValueType.number) && not (is_equality comparison))

  -- `findInvalidScoringFieldOperator`: whether it finds one.
  abbrev pub is_invalid_leaf : FieldLeaf N → InputType → Bool
  is_invalid_leaf (input name) t = not (is_number (field_input_type t name))
  is_invalid_leaf count t = not (t == boolean_array)
  is_invalid_leaf true_count t = not (t == boolean_array)
  is_invalid_leaf true_ratio t = not (t == boolean_array)
  is_invalid_leaf (compare name comparison expected a b) t =
      is_invalid_comparison (field_input_type t name) comparison expected

  abbrev pub has_invalid_operator : Expression N (FieldLeaf N) → InputType → Bool
  has_invalid_operator (leaf l) t = is_invalid_leaf l t
  has_invalid_operator (literal v) t = false
  has_invalid_operator (unary op e) t = has_invalid_operator e t
  has_invalid_operator (binary op l r) t = has_invalid_operator l t || has_invalid_operator r t

module _ (doubles : Doubles) where
  abbrev Number : Type 0
  Number = doubles.Double

  -- `safeScoringNumber`, and `usableNumber` of a number.
  abbrev pub safe : Number → Option Number
  safe v = if doubles.is_safe v then some v else none

  abbrev pub usable : Option (FieldValue Number) → Option Number
  usable (some (FieldValue.number v)) = safe v
  usable _ = none

  -- `compare`
  abbrev compare_numbers : Number → Comparison → Number → Bool
  compare_numbers a eq b = doubles.same a b
  compare_numbers a neq b = not (doubles.same a b)
  compare_numbers a lt b = doubles.less a b
  compare_numbers a lte b = doubles.at_most a b
  compare_numbers a gt b = doubles.less b a
  compare_numbers a gte b = doubles.at_most b a

  abbrev equality_only : Comparison → Bool → Bool
  equality_only eq equal = equal
  equality_only neq equal = not equal
  equality_only _ equal = false

  abbrev pub compare_values : FieldValue Number → Comparison → FieldValue Number → Bool
  compare_values (FieldValue.number a) c (FieldValue.number b) = compare_numbers a c b
  compare_values (FieldValue.string a) c (FieldValue.string b) = equality_only c (a == b)
  compare_values (boolean a) c (boolean b) = equality_only c (a == b)
  compare_values _ c _ = false

  abbrev pub compares : Option (FieldValue Number) → Comparison → FieldValue Number → Bool
  compares none c expected = false
  compares (some v) c expected = compare_values v c expected

  -- `evaluateNumericExpression`, once its operands are evaluated.
  abbrev pub apply_unary : UnaryOp → Number → Option Number
  apply_unary UnaryOp.abs v = safe (doubles.abs v)
  apply_unary UnaryOp.negate v = safe (doubles.negate v)

  abbrev pub apply_binary : BinaryOp → Number → Number → Option Number
  apply_binary add a b = safe (doubles.plus a b)
  apply_binary subtract a b = safe (doubles.minus a b)
  apply_binary multiply a b = safe (doubles.times a b)
  apply_binary divide a b =
      if doubles.same b (doubles.of_ℕ 0) then none else safe (doubles.over a b)
  apply_binary BinaryOp.min a b = safe (doubles.min a b)
  apply_binary BinaryOp.max a b = safe (doubles.max a b)

  abbrev pub unary_of : UnaryOp → Option Number → Option Number
  unary_of op none = none
  unary_of op (some v) = apply_unary op v

  abbrev pub binary_of : BinaryOp → Option Number → Option Number → Option Number
  binary_of op (some a) (some b) = apply_binary op a b
  binary_of op _ _ = none

  module _ {L : Type 0} (evaluate_leaf : L → Option Number) where
    abbrev pub evaluate : Expression Number L → Option Number
    evaluate (leaf l) = evaluate_leaf l
    evaluate (literal v) = safe v
    evaluate (unary op e) = unary_of op (evaluate e)
    evaluate (binary op l r) = binary_of op (evaluate l) (evaluate r)

  abbrev pub trues : List Bool → ℕ
  trues bs = length (filter (λ b. b) bs)

  -- The leaves of `evaluateScoringFieldExpression`.
  abbrev pub evaluate_field_leaf : ScoringInput Number → FieldLeaf Number → Option Number
  evaluate_field_leaf i (input name) = usable (resolve_field_input i name)
  evaluate_field_leaf (booleans bs) count = safe (doubles.of_ℕ (length bs))
  evaluate_field_leaf (booleans bs) true_count = safe (doubles.of_ℕ (trues bs))
  evaluate_field_leaf (booleans bs) true_ratio =
      if leb (length bs) 0
      then none
      else safe (doubles.over (doubles.of_ℕ (trues bs)) (doubles.of_ℕ (length bs)))
  evaluate_field_leaf i (compare name c expected when_true when_false) =
      if compares (resolve_field_input i name) c expected then safe when_true else safe when_false
  evaluate_field_leaf i _ = none

  -- `evaluateScoringFieldExpression`
  abbrev pub evaluate_field :
      Expression Number (FieldLeaf Number) → ScoringInput Number → Option Number
  evaluate_field e i = evaluate (evaluate_field_leaf i) e

  -- `isScoringResult`
  abbrev pub is_scoring_result : Number → Bool
  is_scoring_result v = doubles.at_most (doubles.of_ℕ 0) v && doubles.at_most v (doubles.of_ℕ 100)
